-- ===== src/Specification/Collections.antt =====
-- The loop over the items of a collection, and what it leaves behind.
use ascetic_ddd_python.Prelude.{
  ◌≡◌, refl, String, Bool, false, ◌||◌, Option, some, List, [], ◌∷◌, ◌++◌, arith,
}
use ascetic_ddd_python.Prelude.Result.{Result, ok, raise, ◌>>=◌}
use ascetic_ddd_python.Specification.Nodes.{
  Error, Val, null, boolean, list, context, scalar, Context, Items, nil, cons,
}
use ascetic_ddd_python.Specification.Visitor.{Visitor, Visit, get, visit_items, visit_collection}
use ascetic_ddd_python.Specification.Evaluation.{as_context, as_list, as_boolean, some_item}
use ascetic_ddd_python.Specification.Scopes.{Gives, restore-push}

-- The item that a loop over `items` leaves as the current one, if it began with `i`.
unfoldable pub last_item : {A : Type 0} → Items A → Option (Context A) → Option (Context A)
last_item nil i = i
last_item (cons (context c) items) i = last_item items (some c)
last_item (cons v items) i = last_item items i

module _ {A : Type 0} (root : Context A) (stack : List (Context A)) where
  -- The states of the loop over the items.
  abbrev pub at : Option (Context A) → Val A → Visitor A
  at i v = record { context = root; current_value = v; current_item = i; stack = stack }

  abbrev pub Finds : Option (Context A) → Result Error Bool → Result Error Bool × Visitor A → Type 0
  Finds i (ok b) visited = (v : Val A) × (visited ≡ (ok b, at i v))
  Finds i (raise e) visited = visited.0 ≡ raise e

  module _ (visit : Visit A Unit) (test : Context A → Result Error (Val A))
      (tested : (c : Context A) (v : Val A)
        → Gives (at (some c) v) (test c) (visit (at (some c) v))) where
    -- The rest of a round, once its item is known to be a context.
    tested-Finds :
        (c : Context A) (items : Items A) (found : Bool) (i : Option (Context A)) (v : Val A)
        (r : Result Error (Val A))
        → Gives (at (some c) v) r (visit (at (some c) v))
        → ((b : Bool) (i' : Option (Context A)) (v' : Val A)
            → Finds
                (last_item items i')
                (some_item test items (found || b))
                (visit_items visit items (found || b) (at i' v')))
        → Finds
            (last_item items (some c))
            (r >>= λ w. as_boolean w >>= λ b. some_item test items (found || b))
            (visit_items visit (cons (context c) items) found (at i v))
    unfolding visit_items as_boolean
    tested-Finds c items found i v (ok (boolean b)) h later = rw h (later b (some c) (boolean b))
    tested-Finds c items found i v (ok null) h later = rw h
    tested-Finds c items found i v (ok (scalar x)) h later = rw h
    tested-Finds c items found i v (ok (list l)) h later = rw h
    tested-Finds c items found i v (ok (context k)) h later = rw h
    tested-Finds c items found i v (raise e) h later = ground arith

    pub visit_items-Finds :
        (items : Items A) (found : Bool) (i : Option (Context A)) (v : Val A)
        → Finds
            (last_item items i)
            (some_item test items found)
            (visit_items visit items found (at i v))
    unfolding visit_items some_item as_context as_boolean last_item
    visit_items-Finds nil found i v = (v, refl)
    visit_items-Finds (cons (context c) items) found i v =
        tested-Finds c items found i v (test c) (tested c v)
          (λ b i' v'. visit_items-Finds items (found || b) i' v')
    visit_items-Finds (cons null items) found i v = refl
    visit_items-Finds (cons (boolean b) items) found i v = refl
    visit_items-Finds (cons (scalar x) items) found i v = refl
    visit_items-Finds (cons (list l) items) found i v = refl

module _ {A : Type 0} where
  -- The end of a visit of a collection that holds `items`: the answer is set, and the last item stays.
  abbrev pub Answers :
      Visitor A → Items A → Result Error Bool → Result Error Unit × Visitor A → Type 0
  Answers s items (ok b) visited = visited ≡ (
    ok tt,
    record s { current_value = boolean b; current_item = last_item items s.current_item },
  )
  Answers s items (raise e) visited = visited.0 ≡ raise e

  module _ (s : Visitor A) (visit : Visit A Unit) (test : Context A → Result Error (Val A))
      (tested : (c : Context A) (v : Val A)
        → Gives
            (at s.context s.stack (some c) v)
            (test c)
            (visit (at s.context s.stack (some c) v)))
      (c : Context A) (name : String) (m : Visit A Unit)
      (enters : m s ≡ (ok tt, record s { context = c; stack = s.stack ++ s.context ∷ [] })) where
    found-Answers :
        (items : Items A) (q : Result Error Bool)
        → get c name ≡ ok (list items)
        → Finds s.context s.stack
            (last_item items s.current_item)
            q
            (visit_items visit items false s)
        → Answers s items q (visit_collection m name visit s)
    unfolding visit_collection
    found-Answers items (ok b) e (v, h) = ground (arith, restore-push s c)
    found-Answers items (raise x) e h = ground (arith, restore-push s c)

    pub collection-Answers :
        (items : Items A)
        → get c name ≡ ok (list items)
        → Answers s items (some_item test items false) (visit_collection m name visit s)
    collection-Answers items e = found-Answers items (some_item test items false) e (
        visit_items-Finds s.context s.stack visit test tested items false s.current_item
          s.current_value)

    -- What is no list of contexts is refused, as it is by the meaning of the expression.
    pub refused :
        (v : Result Error (Val A)) (e : Error)
        → get c name ≡ v
        → (v >>= as_list) ≡ raise e
        → (visit_collection m name visit s).0 ≡ raise e
    unfolding visit_collection as_list
    refused (ok null) e g h = ground (arith, restore-push s c)
    refused (ok (boolean b)) e g h = ground (arith, restore-push s c)
    refused (ok (scalar x)) e g h = ground (arith, restore-push s c)
    refused (ok (list l)) e g h = ground arith
    refused (ok (context k)) e g h = ground (arith, restore-push s c)
    refused (raise x) e g h = ground (arith, restore-push s c)
