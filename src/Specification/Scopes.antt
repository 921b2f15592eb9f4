-- ===== src/Specification/Scopes.antt =====
-- A visit of a scope enters its context; a visit of a predicate gives its value, and leaves context,
-- stack and current item as they were.
use ascetic_ddd_python.Prelude.{
  ◌≡◌, refl, String, Option, none, some, [], ◌∷◌, ◌++◌, pop-snoc, arith,
}
use ascetic_ddd_python.Prelude.Result.{Result, ok, raise, ◌>>=◌}
use ascetic_ddd_python.Specification.Nodes.{
  Error, Operator, Val, null, boolean, list, context, scalar, Context, Node, global_scope, item,
  object_node, collection_node, field, value, prefix, infix_node, postfix,
}
use ascetic_ddd_python.Specification.Visitor.{
  Visitor, Visit, Mapping, get, restore, visit_item, visit_field, visit_object, visit_unary,
  visit_infix, accept,
}
use ascetic_ddd_python.Specification.Evaluation.{
  as_context, current, resolve, eval, IsScope, IsPredicate,
}

module _ {A : Type 0} where
  -- A visit enters the context of `r`, one deeper on the stack, or raises what `r` raises.
  abbrev pub Enters : Visitor A → Result Error (Context A) → Result Error Unit × Visitor A → Type 0
  Enters s (ok c) visited =
      visited ≡ (ok tt, record s { context = c; stack = s.stack ++ s.context ∷ [] })
  Enters s (raise e) visited = visited.0 ≡ raise e

  -- A visit gives the value of `r` and changes nothing else, or raises what `r` raises.
  abbrev pub Gives : Visitor A → Result Error (Val A) → Result Error Unit × Visitor A → Type 0
  Gives s (ok v) visited = visited ≡ (ok tt, record s { current_value = v })
  Gives s (raise e) visited = visited.0 ≡ raise e

  pub restore-push :
      (s : Visitor A) (c : Context A)
      → restore (record s { context = c; stack = s.stack ++ s.context ∷ [] }) ≡ (ok tt, s)
  unfolding restore
  restore-push s c = rw (restore, pop-snoc s.stack s.context) refl

  -- The rest of a visit of an object, once its parent's context is entered.
  entered-Enters :
      (s : Visitor A) (c : Context A) (name : String) (v : Result Error (Val A)) (m : Visit A Unit)
      → m s ≡ (ok tt, record s { context = c; stack = s.stack ++ s.context ∷ [] })
      → get c name ≡ v
      → Enters s (v >>= as_context) (visit_object m name s)
  unfolding visit_object as_context
  entered-Enters s c name (ok (context c')) m h e = ground (arith, restore-push s c)
  entered-Enters s c name (ok null) m h e = ground (arith, restore-push s c)
  entered-Enters s c name (ok (boolean b)) m h e = ground (arith, restore-push s c)
  entered-Enters s c name (ok (scalar x)) m h e = ground (arith, restore-push s c)
  entered-Enters s c name (ok (list l)) m h e = ground (arith, restore-push s c)
  entered-Enters s c name (raise x) m h e = ground (arith, restore-push s c)

  object-Enters :
      (s : Visitor A) (r : Result Error (Context A)) (m : Visit A Unit) (name : String)
      → Enters s r (m s)
      → Enters s (r >>= λ c. get c name >>= as_context) (visit_object m name s)
  object-Enters s (ok c) m name h = entered-Enters s c name (get c name) m h refl
  object-Enters s (raise e) m name h = unfold visit_object in ground arith

  pub field-Gives :
      (s : Visitor A) (r : Result Error (Context A)) (m : Visit A Unit) (name : String)
      → Enters s r (m s)
      → Gives s (r >>= λ c. get c name) (visit_field m name s)
  field-Gives s (ok c) m name h = go (get c name) refl
    where
      go : (v : Result Error (Val A)) → get c name ≡ v → Gives s v (visit_field m name s)
      go (ok v) e = unfold visit_field in ground (arith, restore-push s c)
      go (raise x) e = unfold visit_field in ground (arith, restore-push s c)
  field-Gives s (raise e) m name h = unfold visit_field in ground arith

  item-Enters :
      (s : Visitor A) (i : Option (Context A))
      → s.current_item ≡ i
      → Enters s (current i) (visit_item s)
  unfolding visit_item current
  item-Enters s none e = ground arith
  item-Enters s (some c) e = ground arith

module _ {A : Type 0} (mapping : Mapping A) where
  pub accept-Enters :
      (n : Node A) (s : Visitor A)
      → IsScope n
      → Enters s (resolve n s.context s.current_item) (accept mapping n s)
  unfolding accept resolve
  accept-Enters global_scope s h = refl
  accept-Enters item s h = item-Enters s s.current_item refl
  accept-Enters (object_node parent name) s h =
      object-Enters s (resolve parent s.context s.current_item) (accept mapping parent) name
        (accept-Enters parent s h)
  accept-Enters (collection_node parent name predicate) s h = absurd h
  accept-Enters (field scope name) s h = absurd h
  accept-Enters (value v) s h = absurd h
  accept-Enters (prefix o operand a) s h = absurd h
  accept-Enters (infix_node left o right a) s h = absurd h
  accept-Enters (postfix operand o a) s h = absurd h

  unary-Gives :
      (s : Visitor A) (r : Result Error (Val A)) (m : Visit A Unit) (o : Operator)
      → Gives s r (m s)
      → Gives s (r >>= λ v. mapping o (v ∷ [])) (visit_unary mapping m o s)
  unary-Gives s (ok v) m o h = go (mapping o (v ∷ [])) refl
    where
      go :
          (w : Result Error (Val A))
          → mapping o (v ∷ []) ≡ w
          → Gives s w (visit_unary mapping m o s)
      go (ok w) e = unfold visit_unary in ground arith
      go (raise x) e = unfold visit_unary in ground arith
  unary-Gives s (raise e) m o h = unfold visit_unary in ground arith

  infix-Gives :
      (s : Visitor A) (r q : Result Error (Val A)) (m n : Visit A Unit) (o : Operator)
      → Gives s r (m s)
      → ((v : Val A)
          → Gives (record s { current_value = v }) q (n (record s { current_value = v })))
      → Gives s (r >>= λ v. q >>= λ w. mapping o (v ∷ w ∷ [])) (visit_infix mapping m o n s)
  infix-Gives s (ok v) (ok w) m n o h k = go (mapping o (v ∷ w ∷ [])) refl
    where
      go :
          (x : Result Error (Val A))
          → mapping o (v ∷ w ∷ []) ≡ x
          → Gives s x (visit_infix mapping m o n s)
      go (ok x) e = unfold visit_infix in ground (arith, k v)
      go (raise x) e = unfold visit_infix in ground (arith, k v)
  infix-Gives s (ok v) (raise e) m n o h k = unfold visit_infix in ground (arith, k v)
  infix-Gives s (raise e) q m n o h k = unfold visit_infix in ground arith

  pub accept-Gives :
      (n : Node A) (s : Visitor A)
      → IsPredicate n
      → Gives s (eval mapping n s.context s.current_item) (accept mapping n s)
  unfolding accept eval
  accept-Gives global_scope s h = absurd h
  accept-Gives item s h = absurd h
  accept-Gives (object_node parent name) s h = absurd h
  accept-Gives (collection_node parent name predicate) s h = absurd h
  accept-Gives (field scope name) s h =
      field-Gives s (resolve scope s.context s.current_item) (accept mapping scope) name
        (accept-Enters scope s h)
  accept-Gives (value v) s h = refl
  accept-Gives (prefix o operand a) s h =
      unary-Gives s (eval mapping operand s.context s.current_item) (accept mapping operand) o
        (accept-Gives operand s h)
  accept-Gives (infix_node left o right a) s h =
      infix-Gives s (eval mapping left s.context s.current_item)
        (eval mapping right s.context s.current_item) (accept mapping left) (accept mapping right) o
        (accept-Gives left s h.0) (λ v. accept-Gives right (record s { current_value = v }) h.1)
  accept-Gives (postfix operand o a) s h =
      unary-Gives s (eval mapping operand s.context s.current_item) (accept mapping operand) o
        (accept-Gives operand s h)
