-- ===== src/Specification/Evaluation.antt =====
-- What an expression means, with no visitor: a value in a context, and in the scope of an item. The
-- trees that the evaluation of a specification is meant for.
use ascetic_ddd_python.Prelude.{Bool, false, ◌||◌, Option, none, some, [], ◌∷◌}
use ascetic_ddd_python.Prelude.Result.{Result, ok, raise, ◌>>=◌}
use ascetic_ddd_python.Specification.Nodes.{
  Error, type_error, runtime_error, Val, boolean, list, context, Context, Items, nil, cons, Node,
  global_scope, item, object_node, collection_node, field, value, prefix, infix_node, postfix,
}
use ascetic_ddd_python.Specification.Visitor.{Mapping, get}

module _ {A : Type 0} where
  unfoldable pub as_context : Val A → Result Error (Context A)
  as_context (context c) = ok c
  as_context _ = raise type_error

  unfoldable pub as_list : Val A → Result Error (Items A)
  as_list (list items) = ok items
  as_list _ = raise type_error

  unfoldable pub as_boolean : Val A → Result Error Bool
  as_boolean (boolean b) = ok b
  as_boolean _ = raise type_error

  unfoldable pub current : Option (Context A) → Result Error (Context A)
  current none = raise runtime_error
  current (some c) = ok c

  -- The context that a scope names.
  unfoldable pub resolve : Node A → Context A → Option (Context A) → Result Error (Context A)
  resolve global_scope root i = ok root
  resolve item root i = current i
  resolve (object_node parent name) root i = do
    c ← resolve parent root i
    v ← get c name
    as_context v
  resolve _ root i = raise type_error

  -- Whether `test` holds of an item; every item is tested, and the first error stops the search.
  unfoldable pub some_item : (Context A → Result Error (Val A)) → Items A → Bool → Result Error Bool
  some_item test nil found = ok found
  some_item test (cons v items) found = do
    c ← as_context v
    w ← test c
    b ← as_boolean w
    some_item test items (found || b)

  unfoldable pub eval : Mapping A → Node A → Context A → Option (Context A) → Result Error (Val A)
  eval mapping (collection_node parent name predicate) root i = do
    c ← resolve parent root i
    v ← get c name
    items ← as_list v
    found ← some_item (λ x. eval mapping predicate root (some x)) items false
    ok (boolean found)
  eval mapping (field scope name) root i = do c ← resolve scope root i; get c name
  eval mapping (value v) root i = ok v
  eval mapping (prefix o operand _) root i = do v ← eval mapping operand root i; mapping o (v ∷ [])
  eval mapping (infix_node left o right _) root i = do
    v ← eval mapping left root i
    w ← eval mapping right root i
    mapping o (v ∷ w ∷ [])
  eval mapping (postfix operand o _) root i = do v ← eval mapping operand root i; mapping o (v ∷ [])
  eval mapping _ root i = raise type_error

  -- Scopes: a chain of objects up to the root or to an item.
  abbrev pub IsScope : Node A → Type 0
  IsScope global_scope = Unit
  IsScope item = Unit
  IsScope (object_node parent name) = IsScope parent
  IsScope _ = ⊥

  -- A chain of objects up to the root.
  abbrev pub IsRooted : Node A → Type 0
  IsRooted global_scope = Unit
  IsRooted (object_node parent name) = IsRooted parent
  IsRooted _ = ⊥

  -- The predicate of a collection: it may name the item, and has no collection of its own.
  abbrev pub IsPredicate : Node A → Type 0
  IsPredicate (field scope name) = IsScope scope
  IsPredicate (value v) = Unit
  IsPredicate (prefix o operand _) = IsPredicate operand
  IsPredicate (infix_node left o right _) = IsPredicate left × IsPredicate right
  IsPredicate (postfix operand o _) = IsPredicate operand
  IsPredicate _ = ⊥

  -- A whole specification: it names items only within the predicates of its collections.
  abbrev pub IsExpression : Node A → Type 0
  IsExpression (collection_node parent name predicate) = IsRooted parent × IsPredicate predicate
  IsExpression (field scope name) = IsRooted scope
  IsExpression (value v) = Unit
  IsExpression (prefix o operand _) = IsExpression operand
  IsExpression (infix_node left o right _) = IsExpression left × IsExpression right
  IsExpression (postfix operand o _) = IsExpression operand
  IsExpression _ = ⊥
