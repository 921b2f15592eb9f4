-- ===== src/Specification/Transform.antt =====
-- specification/infrastructure/transform_visitor.py and composite_expression_node.py: an expression of
-- the domain becomes one of the infrastructure. The mapping of fields and values is an interface of
-- the application, and so a parameter.
pub mod Composites
mod Tests
use ascetic_ddd_python.Prelude.{
  ℕ, suc, ◌==◌, Bool, true, false, String, Option, none, some, List, [], ◌∷◌, if◌then◌else◌,
}
use ascetic_ddd_python.Prelude.Result.{Result, ok, raise, ◌>>=◌}
use ascetic_ddd_python.Specification.Nodes.{
  Error as NodeError, Operator, eq, ne, and_, not_, Associativity, left_associative,
  right_associative, non_associative, Val, Node, global_scope, item, object_node, collection_node,
  field, value, prefix, infix_node, postfix, extract_field_path,
}

-- Exceptions: those of the nodes, a failed `assert`, an index out of range, and those of the module.
pub data Error : Type 0 where
  of_node : NodeError → Error
  assertion_error index_error value_error different_length : Error

-- A tree of the infrastructure, whose leaves are what the mapping gives.
mutual
  pub data Tree (A : Type 0) : Type 0 where
    leaf : Node A → Tree A
    composite : (nodes : Trees A) → Tree A
    prefix_tree : Operator → Tree A → Associativity → Tree A
    infix_tree : Tree A → Operator → Tree A → Associativity → Tree A
    postfix_tree : Tree A → Operator → Associativity → Tree A

  pub data Trees (A : Type 0) : Type 0 where
    no_trees : Trees A
    tree : Tree A → Trees A → Trees A

pub record TransformContext (A : Type 0) : Type 0 where
  pub attr_node : List String → Result Error (Tree A)
  pub value_node : Val A → Result Error (Tree A)

abbrev pub of_nodes : {B : Type 0} → Result NodeError B → Result Error B
of_nodes (ok b) = ok b
of_nodes (raise e) = raise (of_node e)

module _ {A : Type 0} where
  abbrev pub count_trees : Trees A → ℕ
  count_trees no_trees = 0
  count_trees (tree t ts) = suc (count_trees ts)

  -- `And(operands[0], *operands[1:])`, which folds to the left.
  unfoldable pub fold_and : Tree A → Trees A → Tree A
  fold_and left no_trees = left
  fold_and left (tree right rights) = fold_and (infix_tree left and_ right left_associative) rights

  unfoldable pub and_trees : Trees A → Result Error (Tree A)
  unfolding fold_and
  and_trees no_trees = raise index_error
  and_trees (tree left no_trees) = raise value_error
  and_trees (tree left (tree right rights)) = ok (fold_and left (tree right rights))

  -- `__eq__` and `__ne__` of composite expressions. The loops stop at the first nested composite that
  -- has no partner, with the exception for different lengths.
  unfoldable mutual
    unfolding and_trees

    pub equal_operands : Trees A → Trees A → Result Error (Trees A)
    equal_operands (tree (composite xs) lefts) (tree (composite ys) rights) =
        let nested = equal_operands xs ys in
        let others = equal_operands lefts rights in
        if count_trees xs == count_trees ys
        then (nested >>= λ ts. and_trees ts >>= λ t. others >>= λ os. ok (tree t os))
        else raise different_length
    equal_operands (tree (composite xs) lefts) (tree y rights) = raise different_length
    equal_operands (tree x lefts) (tree y rights) =
        equal_operands lefts rights >>= λ os. ok (tree (infix_tree x eq y non_associative) os)
    equal_operands _ _ = ok no_trees

    pub unequal_operands : Trees A → Trees A → Result Error (Trees A)
    unequal_operands (tree (composite xs) lefts) (tree (composite ys) rights) =
        let nested = unequal_operands xs ys in
        let others = unequal_operands lefts rights in
        if count_trees xs == count_trees ys
        then (nested >>= λ ts. and_trees ts >>= λ t.
            others >>= λ os. ok (tree (prefix_tree not_ t right_associative) os))
        else raise different_length
    unequal_operands (tree (composite xs) lefts) (tree y rights) = raise different_length
    unequal_operands (tree x lefts) (tree y rights) =
        unequal_operands lefts rights >>= λ os. ok (tree (infix_tree x ne y non_associative) os)
    unequal_operands _ _ = ok no_trees

  unfoldable pub equal_composites : Trees A → Trees A → Result Error (Tree A)
  unfolding equal_operands and_trees
  equal_composites xs ys =
      if count_trees xs == count_trees ys
      then (equal_operands xs ys >>= and_trees)
      else raise different_length

  unfoldable pub unequal_composites : Trees A → Trees A → Result Error (Tree A)
  unfolding unequal_operands and_trees
  unequal_composites xs ys =
      if count_trees xs == count_trees ys
      then (unequal_operands xs ys >>= λ ts.
          and_trees ts >>= λ t. ok (prefix_tree not_ t right_associative))
      else raise different_length

  -- `assert self._current_node is not None`
  abbrev pub current_node : Option (Tree A) → Result Error (Tree A)
  current_node none = raise assertion_error
  current_node (some t) = ok t

  -- The end of `visit_infix`.
  unfoldable pub combine : Tree A → Operator → Associativity → Tree A → Result Error (Tree A)
  unfolding equal_composites unequal_composites
  combine (composite xs) eq a (composite ys) = equal_composites xs ys
  combine (composite xs) ne a (composite ys) = unequal_composites xs ys
  combine (composite xs) o a (composite ys) = raise value_error
  combine (composite xs) o a right = raise different_length
  combine left o a right = ok (infix_tree left o right a)

module _ {A : Type 0} (context : TransformContext A) where
  -- `node.accept(visitor)`, on the current node.
  unfoldable pub transform : Node A → Option (Tree A) → Result Error (Option (Tree A))
  unfolding combine
  transform (field scope name) c = of_nodes (extract_field_path (field scope name)) >>= λ path.
      context.attr_node path >>= λ t. ok (some t)
  transform (value v) c = context.value_node v >>= λ t. ok (some t)
  transform (prefix o operand a) c =
      transform operand c >>= λ r. current_node r >>= λ t. ok (some (prefix_tree o t a))
  transform (infix_node left o right a) c = transform left c >>= λ r. current_node r >>= λ l.
      transform right (some l) >>= λ r'.
      current_node r' >>= λ t. combine l o a t >>= λ u. ok (some u)
  transform (postfix operand o a) c =
      transform operand c >>= λ r. current_node r >>= λ t. ok (some (postfix_tree t o a))
  transform _ c = ok c

  -- `result`
  unfoldable pub transformed : Node A → Result Error (Tree A)
  unfolding transform
  transformed node = transform node none >>= current_node
