-- ===== src/Specification/Nodes.antt =====
-- constants.py and nodes.py. Any node may stand where a node is expected, as in the source, which
-- checks nothing; what makes a tree sensible is a predicate of the proofs.
use ascetic_ddd_python.Prelude.{String, Bool, List, [], ◌∷◌}
use ascetic_ddd_python.Prelude.Result.{Result, ok, raise}

pub data Error : Type 0 where
  type_error runtime_error key_error index_error value_error : Error

-- POS and NEG have the values of ADD and SUB, so the enumeration takes them for the same members.
pub data Operator : Type 0 where
  eq ne gt lt gte lte lshift rshift is is_null is_not_null in_ not_in between not_between : Operator
  and_ or_ not_ add sub mul div mod_ asc desc period : Operator

pub data Associativity : Type 0 where
  left_associative right_associative non_associative : Associativity

-- Values, with a type `A` for the scalars that the visitor does not look into. A context is an object
-- with keys, or a `CollectionContext`, which answers to `*` alone.
mutual
  pub data Val (A : Type 0) : Type 0 where
    null : Val A
    boolean : Bool → Val A
    scalar : A → Val A
    list : Items A → Val A
    context : Context A → Val A

  pub data Context (A : Type 0) : Type 0 where
    object : Fields A → Context A
    collection : Items A → Context A

  pub data Items (A : Type 0) : Type 0 where
    nil : Items A
    cons : Val A → Items A → Items A

  pub data Fields (A : Type 0) : Type 0 where
    end : Fields A
    entry : String → Val A → Fields A → Fields A

pub data Node (A : Type 0) : Type 0 where
  global_scope : Node A
  item : Node A
  object_node : Node A → String → Node A
  collection_node : Node A → String → Node A → Node A
  field : Node A → String → Node A
  value : Val A → Node A
  prefix : Operator → Node A → Associativity → Node A
  infix_node : Node A → Operator → Node A → Associativity → Node A
  postfix : Node A → Operator → Associativity → Node A

module _ {A : Type 0} where
  -- The subclasses, which fix operator and associativity.
  unfoldable pub not_node : Node A → Node A
  not_node operand = prefix not_ operand right_associative

  unfoldable pub equal : Node A → Node A → Node A
  equal left right = infix_node left eq right non_associative

  unfoldable pub greater_than : Node A → Node A → Node A
  greater_than left right = infix_node left gt right non_associative

  unfoldable pub not_equal : Node A → Node A → Node A
  not_equal left right = infix_node left ne right non_associative

  unfoldable pub is_node : Node A → Node A → Node A
  is_node left right = infix_node left is right non_associative

  unfoldable pub less_than : Node A → Node A → Node A
  less_than left right = infix_node left lt right non_associative

  unfoldable pub greater_than_equal : Node A → Node A → Node A
  greater_than_equal left right = infix_node left gte right non_associative

  unfoldable pub less_than_equal : Node A → Node A → Node A
  less_than_equal left right = infix_node left lte right non_associative

  unfoldable pub left_shift : Node A → Node A → Node A
  left_shift left right = infix_node left lshift right left_associative

  unfoldable pub right_shift : Node A → Node A → Node A
  right_shift left right = infix_node left rshift right left_associative

  unfoldable pub add_node : Node A → Node A → Node A
  add_node left right = infix_node left add right left_associative

  unfoldable pub sub_node : Node A → Node A → Node A
  sub_node left right = infix_node left sub right left_associative

  unfoldable pub mul_node : Node A → Node A → Node A
  mul_node left right = infix_node left mul right left_associative

  unfoldable pub div_node : Node A → Node A → Node A
  div_node left right = infix_node left div right left_associative

  unfoldable pub mod_node : Node A → Node A → Node A
  mod_node left right = infix_node left mod_ right left_associative

  unfoldable pub is_null_node : Node A → Node A
  is_null_node operand = postfix operand is_null non_associative

  unfoldable pub is_not_null_node : Node A → Node A
  is_not_null_node operand = postfix operand is_not_null non_associative

  unfoldable pub wildcard : Node A → Node A → Node A
  wildcard parent predicate = collection_node parent "*" predicate

  -- `_fold_rights`: its loop, while more than one operand is left; the pair of operands that stays.
  unfoldable pub fold_rights :
      (Node A → Node A → Node A) → Node A → Node A → List (Node A) → Node A × Node A
  fold_rights callable left right [] = (left, right)
  fold_rights callable left right (next ∷ rights) =
      fold_rights callable (callable left right) next rights

  -- `And(left, right)` with one right operand, which is what `_fold_rights` calls.
  unfoldable pub and_pair : Node A → Node A → Node A
  and_pair left right = infix_node left and_ right left_associative

  unfoldable pub or_pair : Node A → Node A → Node A
  or_pair left right = infix_node left or_ right left_associative

  unfoldable pub and_node : Node A → List (Node A) → Result Error (Node A)
  unfolding fold_rights and_pair
  and_node left [] = raise value_error
  and_node left (right ∷ rights) =
      let (l, r) = fold_rights and_pair left right rights in
      ok (infix_node l and_ r left_associative)

  unfoldable pub or_node : Node A → List (Node A) → Result Error (Node A)
  unfolding fold_rights or_pair
  or_node left [] = raise value_error
  or_node left (right ∷ rights) =
      let (l, r) = fold_rights or_pair left right rights in ok (infix_node l or_ r left_associative)

  -- The loop of `extract_field_path`, up to a root. A node that is no scope has no `is_root`; the
  -- source would fail there with an AttributeError, which the model calls a type error.
  unfoldable pub scope_path : Node A → List String → Result Error (List String)
  scope_path global_scope path = ok path
  scope_path item path = ok path
  scope_path (object_node parent name) path = scope_path parent (name ∷ path)
  scope_path (collection_node parent name predicate) path = scope_path parent (name ∷ path)
  scope_path _ path = raise type_error

  unfoldable pub extract_field_path : Node A → Result Error (List String)
  unfolding scope_path
  extract_field_path (field scope name) = scope_path scope (name ∷ [])
  extract_field_path _ = raise type_error
