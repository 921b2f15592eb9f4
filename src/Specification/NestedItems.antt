-- ===== src/Specification/NestedItems.antt =====
-- A collection within the predicate of a collection.
use ascetic_ddd_python.Prelude.{
  ◌≡◌, refl, subst, String, Bool, false, Option, none, some, [], ◌∷◌, arith,
}
use ascetic_ddd_python.Prelude.Result.{ok, ◌>>=◌}
use ascetic_ddd_python.Specification.Nodes.{
  Operator, Associativity, Val, null, boolean, scalar, list, context, Context, Items, nil, cons,
  Node, item, collection_node, field, infix_node,
}
use ascetic_ddd_python.Specification.Visitor.{
  Visitor, Mapping, get, visit_item, visit_field, visit_collection, visit_infix, accept,
}
use ascetic_ddd_python.Specification.Evaluation.{
  as_list, current, resolve, some_item, eval, IsScope, IsPredicate,
}
use ascetic_ddd_python.Specification.Scopes.{Enters, restore-push, accept-Enters}
use ascetic_ddd_python.Specification.Collections.{last_item, Answers}
use ascetic_ddd_python.Specification.Correctness.{accept-Answers}

last_item-none :
    {A : Type 0} (items : Items A) (i : Option (Context A)) (c : Context A)
    → last_item items none ≡ some c
    → last_item items i ≡ some c
unfolding last_item
last_item-none nil i c h = ground arith
last_item-none (cons (context x) items) i c h = h
last_item-none (cons null items) i c h = last_item-none items i c h
last_item-none (cons (boolean b) items) i c h = last_item-none items i c h
last_item-none (cons (scalar x) items) i c h = last_item-none items i c h
last_item-none (cons (list l) items) i c h = last_item-none items i c h

module _ {A : Type 0} (mapping : Mapping A) where
  -- The visit of the nested collection.
  nested_visit :
      (parent : Node A) (key : String) (predicate : Node A) (s : Visitor A) (c : Context A)
      (items : Items A) (found : Bool)
      → IsScope parent
      → IsPredicate predicate
      → resolve parent s.context s.current_item ≡ ok c
      → get c key ≡ ok (list items)
      → some_item (λ x. eval mapping predicate s.context (some x)) items false ≡ ok found
      → visit_collection (accept mapping parent) key (accept mapping predicate) s ≡ (
        ok tt,
        record s { current_value = boolean found; current_item = last_item items s.current_item },
      )
  nested_visit parent key predicate s c items found scope pred enters holds tested =
      let entered : Enters s (ok c) (accept mapping parent s) =
        subst (λ r. Enters s r (accept mapping parent s)) enters
          (accept-Enters mapping parent s scope) in
      subst
        (λ q.
          Answers s items q
            (visit_collection (accept mapping parent) key (accept mapping predicate) s))
        tested
        (accept-Answers mapping s c (accept mapping parent) key predicate pred entered items holds)

  -- The visit of a field of the item, whatever the current item is by then.
  item_field :
      (name : String) (s : Visitor A) (last : Context A) (v : Val A)
      → s.current_item ≡ some last
      → get last name ≡ ok v
      → visit_field visit_item name s ≡ (ok tt, record s { current_value = v })
  unfolding visit_field visit_item
  item_field name s last v here reads = ground (arith, restore-push s last)

-- In the predicate of a collection, a nested collection over a list that is not empty replaces the
-- current item: a field of the item that stands to its right is read from the last item of the
-- nested list (and the visit succeeds with that value), while the expression means the field of the
-- outer item.
pub nested_item :
    {A : Type 0} (mapping : Mapping A) (parent : Node A) (key : String) (predicate : Node A)
    (o : Operator) (a : Associativity) (name : String) (s : Visitor A) (outer c last : Context A)
    (items : Items A) (found : Bool) (v w : Val A)
    → IsScope parent
    → IsPredicate predicate
    → s.current_item ≡ some outer
    → resolve parent s.context s.current_item ≡ ok c
    → get c key ≡ ok (list items)
    → some_item (λ x. eval mapping predicate s.context (some x)) items false ≡ ok found
    → last_item items none ≡ some last
    → get last name ≡ ok v
    → mapping o (boolean found ∷ v ∷ []) ≡ ok w
    → (accept mapping (infix_node (collection_node parent key predicate) o (field item name) a) s
        ≡ (ok tt, record s { current_value = w; current_item = some last }))
      × (eval mapping
            (infix_node (collection_node parent key predicate) o (field item name) a)
            s.context
            (some outer)
          ≡ (get outer name >>= λ x. mapping o (boolean found ∷ x ∷ [])))
unfolding accept eval resolve as_list current
nested_item mapping parent key predicate o a name s outer c last items found v w scope pred here
      enters holds tested ends reads applies =
    (
      unfold visit_infix in
          ground (
            arith,
            nested_visit mapping parent key predicate s c items found scope pred enters holds
                tested,
            last_item-none items s.current_item last ends,
            item_field mapping name
                (record s {
                  current_value = boolean found;
                  current_item = last_item items s.current_item;
                })
                last v (last_item-none items s.current_item last ends) reads,
          ),
      (let entered : resolve parent s.context (some outer) ≡ ok c = rw here at enters in
          rw (entered, holds, tested) refl),
    )
