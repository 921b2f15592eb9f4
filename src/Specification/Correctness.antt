-- ===== src/Specification/Correctness.antt =====
-- The visitor computes what the expression means, and leaves its stack of contexts balanced.
use ascetic_ddd_python.Prelude.{
  ◌≡◌, refl, subst, String, Bool, false, Option, none, some, [], ◌∷◌, arith,
}
use ascetic_ddd_python.Prelude.Result.{Result, ok, raise, ◌>>=◌}
use ascetic_ddd_python.Specification.Nodes.{
  Error, type_error, Operator, Val, null, boolean, list, context, scalar, Context, Items, Node,
  global_scope, item, object_node, collection_node, field, value, prefix, infix_node, postfix,
}
use ascetic_ddd_python.Specification.Visitor.{
  Visitor, Visit, Mapping, get, visit_collection, visit_unary, visit_infix, accept,
}
use ascetic_ddd_python.Specification.Evaluation.{
  as_list, resolve, some_item, eval, IsScope, IsRooted, IsPredicate, IsExpression,
}
use ascetic_ddd_python.Specification.Scopes.{
  Enters, Gives, field-Gives, accept-Enters, accept-Gives,
}
use ascetic_ddd_python.Specification.Collections.{
  last_item, at, Answers, collection-Answers, refused,
}

module _ {A : Type 0} where
  -- The same, except for the current item, which the visit may leave changed.
  abbrev pub Yields : Visitor A → Result Error (Val A) → Result Error Unit × Visitor A → Type 0
  Yields s (ok v) visited =
      (i : Option (Context A)) × (visited
        ≡ (ok tt, record s { current_value = v; current_item = i }))
  Yields s (raise e) visited = visited.0 ≡ raise e

  resolve-IsRooted :
      (n : Node A) (root : Context A) (i : Option (Context A))
      → IsRooted n
      → resolve n root i ≡ resolve n root none
  unfolding resolve
  resolve-IsRooted global_scope root i h = refl
  resolve-IsRooted item root i h = absurd h
  resolve-IsRooted (object_node parent name) root i h = rw (resolve-IsRooted parent root i h) refl
  resolve-IsRooted (collection_node parent name predicate) root i h = absurd h
  resolve-IsRooted (field scope name) root i h = absurd h
  resolve-IsRooted (value v) root i h = absurd h
  resolve-IsRooted (prefix o operand a) root i h = absurd h
  resolve-IsRooted (infix_node left o right a) root i h = absurd h
  resolve-IsRooted (postfix operand o a) root i h = absurd h

  IsRooted-IsScope : (n : Node A) → IsRooted n → IsScope n
  IsRooted-IsScope global_scope h = tt
  IsRooted-IsScope item h = absurd h
  IsRooted-IsScope (object_node parent name) h = IsRooted-IsScope parent h
  IsRooted-IsScope (collection_node parent name predicate) h = absurd h
  IsRooted-IsScope (field scope name) h = absurd h
  IsRooted-IsScope (value v) h = absurd h
  IsRooted-IsScope (prefix o operand a) h = absurd h
  IsRooted-IsScope (infix_node left o right a) h = absurd h
  IsRooted-IsScope (postfix operand o a) h = absurd h

  Gives-Yields :
      (s : Visitor A) (r : Result Error (Val A)) (visited : Result Error Unit × Visitor A)
      → Gives s r visited
      → Yields s r visited
  Gives-Yields s (ok v) visited h = (s.current_item, h)
  Gives-Yields s (raise e) visited h = h

module _ {A : Type 0} (mapping : Mapping A) where
  unary-Yields :
      (s : Visitor A) (r : Result Error (Val A)) (m : Visit A Unit) (o : Operator)
      → Yields s r (m s)
      → Yields s (r >>= λ v. mapping o (v ∷ [])) (visit_unary mapping m o s)
  unary-Yields s (ok v) m o (i, h) = go (mapping o (v ∷ [])) refl
    where
      go :
          (w : Result Error (Val A))
          → mapping o (v ∷ []) ≡ w
          → Yields s w (visit_unary mapping m o s)
      go (ok w) e = (i, unfold visit_unary in ground arith)
      go (raise x) e = unfold visit_unary in ground arith
  unary-Yields s (raise e) m o h = unfold visit_unary in ground arith

  infix-Yields :
      (s : Visitor A) (r q : Result Error (Val A)) (m n : Visit A Unit) (o : Operator)
      → Yields s r (m s)
      → ((v : Val A) (i : Option (Context A))
          → Yields
              (record s { current_value = v; current_item = i })
              q
              (n (record s { current_value = v; current_item = i })))
      → Yields s (r >>= λ v. q >>= λ w. mapping o (v ∷ w ∷ [])) (visit_infix mapping m o n s)
  infix-Yields s (ok v) (ok w) m n o (i, h) k = go (mapping o (v ∷ w ∷ [])) refl
    where
      go :
          (x : Result Error (Val A))
          → mapping o (v ∷ w ∷ []) ≡ x
          → Yields s x (visit_infix mapping m o n s)
      go (ok x) e = let (j, l) = k v i in (j, unfold visit_infix in ground arith)
      go (raise x) e = let (j, l) = k v i in unfold visit_infix in ground arith
  infix-Yields s (ok v) (raise e) m n o (i, h) k =
      let l = k v i in unfold visit_infix in ground arith
  infix-Yields s (raise e) q m n o h k = unfold visit_infix in ground arith

  Answers-Yields :
      (s : Visitor A) (items : Items A) (q : Result Error Bool)
      (visited : Result Error Unit × Visitor A)
      → Answers s items q visited
      → Yields s (q >>= λ found. ok (boolean found)) visited
  Answers-Yields s items (ok b) visited h = (last_item items s.current_item, h)
  Answers-Yields s items (raise e) visited h = h

  -- What a collection means, once its value is looked up.
  abbrev answer : Visitor A → Node A → Val A → Result Error (Val A)
  answer s predicate v = do
    items ← as_list v
    found ← some_item (λ x. eval mapping predicate s.context (some x)) items false
    ok (boolean found)

  module _ (s : Visitor A) (c : Context A) (m : Visit A Unit) (name : String) (predicate : Node A)
      (p : IsPredicate predicate) (h : Enters s (ok c) (m s)) where
    tested :
        (x : Context A) (v : Val A)
        → Gives
            (at s.context s.stack (some x) v)
            (eval mapping predicate s.context (some x))
            (accept mapping predicate (at s.context s.stack (some x) v))
    tested x v = accept-Gives mapping predicate (at s.context s.stack (some x) v) p

    abbrev test : Context A → Result Error (Val A)
    test x = eval mapping predicate s.context (some x)

    pub accept-Answers :
        (items : Items A)
        → get c name ≡ ok (list items)
        → Answers s items
            (some_item test items false)
            (visit_collection m name (accept mapping predicate) s)
    accept-Answers items e =
        collection-Answers s (accept mapping predicate) test tested c name m h items e

    other :
        (v : Result Error (Val A)) (e : Error)
        → get c name ≡ v
        → (v >>= as_list) ≡ raise e
        → (visit_collection m name (accept mapping predicate) s).0 ≡ raise e
    other v e g r = refused s (accept mapping predicate) test tested c name m h v e g r

    listed-Yields :
        (v : Result Error (Val A))
        → get c name ≡ v
        → Yields s (v >>= answer s predicate) (visit_collection m name (accept mapping predicate) s)
    unfolding as_list
    listed-Yields (ok (list items)) e =
        Answers-Yields s items (some_item test items false)
          (visit_collection m name (accept mapping predicate) s) (accept-Answers items e)
    listed-Yields (ok null) e = other (ok null) type_error e refl
    listed-Yields (ok (boolean b)) e = other (ok (boolean b)) type_error e refl
    listed-Yields (ok (scalar x)) e = other (ok (scalar x)) type_error e refl
    listed-Yields (ok (context k)) e = other (ok (context k)) type_error e refl
    listed-Yields (raise x) e = other (raise x) x e refl

  collection-Yields :
      (s : Visitor A) (r : Result Error (Context A)) (m : Visit A Unit) (name : String)
      (predicate : Node A)
      → IsPredicate predicate
      → Enters s r (m s)
      → Yields s
          (r >>= λ c. get c name >>= answer s predicate)
          (visit_collection m name (accept mapping predicate) s)
  collection-Yields s (raise e) m name predicate p h = unfold visit_collection in ground arith
  collection-Yields s (ok c) m name predicate p h =
      listed-Yields s c m name predicate p h (get c name) refl

  rooted-Enters :
      (n : Node A) (s : Visitor A)
      → IsRooted n
      → Enters s (resolve n s.context none) (accept mapping n s)
  rooted-Enters n s h =
      subst (λ r. Enters s r (accept mapping n s)) (resolve-IsRooted n s.context s.current_item h)
        (accept-Enters mapping n s (IsRooted-IsScope n h))

-- Let a specification name items only in the predicates of its collections, and let those predicates
-- have no collections of their own. Visiting it from any state gives the value that it means in the
-- visitor's context, and leaves context and stack as they were, or raises the error that its
-- evaluation raises.
pub accept-eval :
    {A : Type 0} (mapping : Mapping A) (n : Node A) (s : Visitor A)
    → IsExpression n
    → Yields s (eval mapping n s.context none) (accept mapping n s)
unfolding accept eval
accept-eval mapping global_scope s h = absurd h
accept-eval mapping item s h = absurd h
accept-eval mapping (object_node parent name) s h = absurd h
accept-eval mapping (collection_node parent name predicate) s h =
    collection-Yields mapping s (resolve parent s.context none) (accept mapping parent) name
      predicate h.1 (rooted-Enters mapping parent s h.0)
accept-eval mapping (field scope name) s h =
    Gives-Yields s (eval mapping (field scope name) s.context none) _ (
      field-Gives s (resolve scope s.context none) (accept mapping scope) name
        (rooted-Enters mapping scope s h))
accept-eval mapping (value v) s h = (s.current_item, refl)
accept-eval mapping (prefix o operand a) s h =
    unary-Yields mapping s (eval mapping operand s.context none) (accept mapping operand) o
      (accept-eval mapping operand s h)
accept-eval mapping (infix_node left o right a) s h =
    infix-Yields mapping s (eval mapping left s.context none) (eval mapping right s.context none)
      (accept mapping left) (accept mapping right) o (accept-eval mapping left s h.0)
      (λ v i. accept-eval mapping right (record s { current_value = v; current_item = i }) h.1)
accept-eval mapping (postfix operand o a) s h =
    unary-Yields mapping s (eval mapping operand s.context none) (accept mapping operand) o
      (accept-eval mapping operand s h)
