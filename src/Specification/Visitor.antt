-- ===== src/Specification/Visitor.antt =====
-- evaluate_visitor.py. A visit returns the visitor's new state beside its result; where it raises,
-- the state is the one that the exception leaves. The functions behind the operators are a parameter
-- (`OPERATOR_MAPPING`, which a subclass may replace).
use ascetic_ddd_python.Prelude.{
  String, str_eq, Bool, false, ◌||◌, Option, none, some, List, [], ◌∷◌, ◌++◌, pop, if◌then◌else◌,
}
use ascetic_ddd_python.Prelude.Result.{Result, ok, raise}
use ascetic_ddd_python.Specification.Nodes.{
  Error, type_error, runtime_error, key_error, index_error, value_error, Operator, Val, null,
  boolean, list, context, Context, object, collection, Items, nil, cons, Fields, end, entry, Node,
  global_scope, item, object_node, collection_node, field, value, prefix, infix_node, postfix,
}

pub record Visitor (A : Type 0) : Type 0 where
  pub context : Context A
  pub current_value : Val A
  pub current_item : Option (Context A)
  pub stack : List (Context A)

-- A visit, which gives a `B`.
abbrev pub Visit : Type 0 → Type 0 → Type 0
Visit A B = Visitor A → Result Error B × Visitor A

abbrev pub Mapping : Type 0 → Type 0
Mapping A = Operator → List (Val A) → Result Error (Val A)

module _ {A : Type 0} where
  unfoldable pub init : Context A → Visitor A
  init c = record { context = c; current_value = null; current_item = none; stack = [] }

  unfoldable pub lookup : String → Fields A → Result Error (Val A)
  lookup key end = raise key_error
  lookup key (entry k v rest) = if str_eq k key then ok v else lookup key rest

  -- `Context.get`; `CollectionContext.get` for a collection.
  unfoldable pub get : Context A → String → Result Error (Val A)
  unfolding lookup
  get (object fields) key = lookup key fields
  get (collection items) key = if str_eq key "*" then ok (list items) else raise value_error

module _ {A B C : Type 0} where
  abbrev pub continue : Result Error B → (B → Visit A C) → Visit A C
  continue (ok b) f s = f b s
  continue (raise e) f s = (raise e, s)

  infixl 5 ◌>>=◌ ◌>>◌
  abbrev pub ◌>>=◌ : Visit A B → (B → Visit A C) → Visit A C
  ◌>>=◌ m f s = let (r, s') = m s in continue r f s'

  abbrev pub ◌>>◌ : Visit A B → Visit A C → Visit A C
  m >> n = m >>= λ _. n

module _ {A B : Type 0} where
  abbrev pub pure : B → Visit A B
  pure b s = (ok b, s)

  abbrev pub lift : Result Error B → Visit A B
  lift r s = (r, s)

  abbrev pub throw : Error → Visit A B
  throw e s = (raise e, s)

  abbrev pub gets : (Visitor A → B) → Visit A B
  gets f s = (ok (f s), s)

module _ {A : Type 0} where
  abbrev pub put : (Visitor A → Visitor A) → Visit A Unit
  put f s = (ok tt, f s)

  unfoldable pub push : Context A → Visit A Unit
  push c s = (ok tt, record s { context = c; stack = s.stack ++ s.context ∷ [] })

  -- `_pop`, which restores the context on top of the stack; `list.pop` raises on an empty list.
  unfoldable pub restore : Visit A Unit
  restore s = elim (pop s.stack) [
    | none ↦ (raise index_error, s)
    | some (stack, c) ↦ (ok tt, record s { context = c; stack = stack })
  ]

  unfoldable pub set_current_value : Val A → Visit A Unit
  set_current_value v s = (ok tt, record s { current_value = v })

  -- `self._context.get(name)`
  unfoldable pub get_here : String → Visit A (Val A)
  get_here name s = (get s.context name, s)

  -- The checks by `isinstance`.
  unfoldable pub expect_context : Val A → Visit A (Context A)
  expect_context (context c) = pure c
  expect_context _ = throw type_error

  unfoldable pub expect_list : Val A → Visit A (Items A)
  expect_list (list items) = pure items
  expect_list _ = throw type_error

  unfoldable pub expect_boolean : Val A → Visit A Bool
  expect_boolean (boolean b) = pure b
  expect_boolean _ = throw type_error

  -- The loop of `visit_collection`: `visit` is the visit of the predicate.
  unfoldable pub visit_items : Visit A Unit → Items A → Bool → Visit A Bool
  unfolding expect_context expect_boolean
  visit_items visit nil result = pure result
  visit_items visit (cons v items) result = do
    c ← expect_context v
    put (λ s. record s { current_item = some c })
    visit
    b ← gets (λ s. s.current_value)
    holds ← expect_boolean b
    visit_items visit items (result || holds)

  unfoldable pub visit_item : Visit A Unit
  unfolding push
  visit_item s = elim s.current_item [ none ↦ (raise runtime_error, s) | some c ↦ push c s ]

  unfoldable pub visit_field : Visit A Unit → String → Visit A Unit
  unfolding get_here restore set_current_value
  visit_field scope name = do scope; v ← get_here name; restore; set_current_value v

  unfoldable pub visit_object : Visit A Unit → String → Visit A Unit
  unfolding get_here restore expect_context push
  visit_object parent name = do parent; v ← get_here name; restore; c ← expect_context v; push c

  unfoldable pub visit_collection : Visit A Unit → String → Visit A Unit → Visit A Unit
  unfolding get_here restore expect_list visit_items set_current_value
  visit_collection parent name predicate = do
    parent
    v ← get_here name
    restore
    items ← expect_list v
    result ← visit_items predicate items false
    set_current_value (boolean result)

  -- `result`
  unfoldable pub result : Visit A Bool
  unfolding expect_boolean
  result = do v ← gets (λ s. s.current_value); expect_boolean v

module _ {A : Type 0} (mapping : Mapping A) where
  unfoldable pub visit_unary : Visit A Unit → Operator → Visit A Unit
  unfolding set_current_value
  visit_unary operand o = do
    operand
    v ← gets (λ s. s.current_value)
    w ← lift (mapping o (v ∷ []))
    set_current_value w

  unfoldable pub visit_infix : Visit A Unit → Operator → Visit A Unit → Visit A Unit
  unfolding set_current_value
  visit_infix left o right = do
    left
    v ← gets (λ s. s.current_value)
    right
    w ← gets (λ s. s.current_value)
    x ← lift (mapping o (v ∷ w ∷ []))
    set_current_value x

  -- `node.accept(visitor)`
  unfoldable pub accept : Node A → Visit A Unit
  unfolding push visit_item visit_object visit_collection visit_field visit_unary visit_infix
  accept global_scope = λ s. push s.context s
  accept item = visit_item
  accept (object_node parent name) = visit_object (accept parent) name
  accept (collection_node parent name predicate) =
      visit_collection (accept parent) name (accept predicate)
  accept (field scope name) = visit_field (accept scope) name
  accept (value v) = set_current_value v
  accept (prefix o operand _) = visit_unary (accept operand) o
  accept (infix_node left o right _) = visit_infix (accept left) o (accept right)
  accept (postfix operand o _) = visit_unary (accept operand) o
