-- ===== src/Specification/Transform/Tests.antt =====
-- An identity of a tenant and a number, which is two columns.
use ascetic_ddd_python.Prelude.{ℕ, ◌≡◌, refl, ◌==◌, Bool, true, false, [], ◌∷◌}
use ascetic_ddd_python.Prelude.Result.{ok, raise, ◌>>=◌}
use ascetic_ddd_python.Specification.Nodes.{
  eq, gt, and_, non_associative, left_associative, scalar, null, Node, global_scope, field, value,
  infix_node, extract_field_path,
}
use ascetic_ddd_python.Specification.Transform.{
  value_error, assertion_error, different_length, Tree, leaf, composite, infix_tree, no_trees, tree,
  TransformContext, equal_composites, unequal_composites, transformed,
}
use ascetic_ddd_python.Specification.Transform.Composites.{leaves, holds, composite_laws}

abbrev column : ℕ → Node ℕ
column n = value (scalar n)

abbrev pair_of : ℕ → ℕ → Tree ℕ
pair_of m n = composite (tree (leaf (column m)) (tree (leaf (column n)) no_trees))

-- The columns 1 and 2 for the field, and the tenant 10 with the number for a value.
abbrev columns : TransformContext ℕ
columns = record {
  attr_node = λ path. ok (pair_of 1 2);
  value_node = elim [ scalar n ↦ ok (pair_of 10 n) | _ ↦ ok (leaf (value null)) ];
}

abbrev id_is : Node ℕ
id_is = infix_node (field global_scope "id") eq (value (scalar 7)) non_associative

abbrev id_conditions : Tree ℕ
id_conditions =
    infix_tree (infix_tree (leaf (column 1)) eq (leaf (column 10)) non_associative) and_
      (infix_tree (leaf (column 2)) eq (leaf (column 7)) non_associative) left_associative

id_transforms : transformed columns id_is ≡ ok id_conditions
unfolding transformed extract_field_path
id_transforms = refl

not_ordered :
    transformed columns (infix_node (field global_scope "id") gt (value (scalar 7)) non_associative)
    ≡ raise value_error
unfolding transformed extract_field_path
not_ordered = refl

nothing_to_compare :
    transformed columns (infix_node (field global_scope "id") eq (value null) non_associative)
    ≡ raise different_length
unfolding transformed extract_field_path
nothing_to_compare = refl

no_current_node : transformed columns global_scope ≡ raise assertion_error
unfolding transformed
no_current_node = refl

abbrev same_column : Node ℕ → Node ℕ → Bool
same_column (value (scalar m)) (value (scalar n)) = m == n
same_column _ _ = false

-- `!=` becomes a condition that holds of a composite and itself.
unequal_to_itself :
    (unequal_composites (leaves (column 1 ∷ column 2 ∷ [])) (leaves (column 1 ∷ column 2 ∷ []))
      >>= λ t. ok (holds same_column t))
    ≡ ok true
unfolding unequal_composites
unequal_to_itself = refl

composite_laws_example :
    ((equal_composites (leaves (column 1 ∷ column 2 ∷ [])) (leaves (column 1 ∷ column 3 ∷ []))
        >>= λ t. ok (holds same_column t))
      ≡ ok false)
    × ((unequal_composites (leaves (column 1 ∷ column 2 ∷ [])) (leaves (column 1 ∷ column 3 ∷ []))
          >>= λ t. ok (holds same_column t))
        ≡ ok true)
composite_laws_example =
    composite_laws same_column (column 1) (column 2) (column 1) (column 3) [] []
