-- ===== src/Specification/Connectives.antt =====
-- `And` and `Or` of many operands, where the operators are those of the Boolean values.
use ascetic_ddd_python.Prelude.{◌≡◌, refl, Bool, true, false, ◌&&◌, ◌||◌, Option, List, [], ◌∷◌}
use ascetic_ddd_python.Prelude.Result.{ok, raise, ◌>>=◌}
use ascetic_ddd_python.Specification.Nodes.{
  value_error, Operator, and_, or_, left_associative, boolean, Context, Node, infix_node,
  fold_rights, and_pair, or_pair, and_node, or_node,
}
use ascetic_ddd_python.Specification.Visitor.{Mapping}
use ascetic_ddd_python.Specification.Evaluation.{eval}

pub all_of : List Bool → Bool
all_of [] = true
all_of (b ∷ bs) = b && all_of bs

pub any_of : List Bool → Bool
any_of [] = false
any_of (b ∷ bs) = b || any_of bs

&&-assoc : (a b c : Bool) → ((a && b) && c) ≡ (a && (b && c))
&&-assoc true b c = refl
&&-assoc false b c = refl

||-assoc : (a b c : Bool) → ((a || b) || c) ≡ (a || (b || c))
||-assoc true b c = refl
||-assoc false b c = refl

&&-unit : (b : Bool) → (b && true) ≡ b
&&-unit true = refl
&&-unit false = refl

||-unit : (b : Bool) → (b || false) ≡ b
||-unit true = refl
||-unit false = refl

module _ {A : Type 0} (mapping : Mapping A) (root : Context A) (i : Option (Context A)) where
  -- The operands evaluate to these Boolean values.
  abbrev pub Evaluate : List (Node A) → List Bool → Type 0
  Evaluate [] [] = Unit
  Evaluate (n ∷ ns) (b ∷ bs) = (eval mapping n root i ≡ ok (boolean b)) × Evaluate ns bs
  Evaluate _ _ = ⊥

  module _ (o : Operator) (pair : Node A → Node A → Node A) (meet : Bool → Bool → Bool)
      (total : List Bool → Bool)
      (paired : (l r : Node A) (a b : Bool)
        → eval mapping l root i ≡ ok (boolean a)
        → eval mapping r root i ≡ ok (boolean b)
        → eval mapping (pair l r) root i ≡ ok (boolean (meet a b)))
      (assoc : (a b c : Bool) → meet (meet a b) c ≡ meet a (meet b c))
      (total-cons : (b : Bool) (bs : List Bool) → total (b ∷ bs) ≡ meet b (total bs))
      (unit : (b : Bool) → meet b (total []) ≡ b) where
    -- The pair that the folding loop ends with means the same as the operands together.
    fold_rights-eval :
        (left right : Node A) (rights : List (Node A)) (a b : Bool) (bs : List Bool)
        → eval mapping left root i ≡ ok (boolean a)
        → eval mapping right root i ≡ ok (boolean b)
        → Evaluate rights bs
        → eval mapping
            (pair (fold_rights pair left right rights).0 (fold_rights pair left right rights).1)
            root
            i
          ≡ ok (boolean (meet a (total (b ∷ bs))))
    unfolding fold_rights
    fold_rights-eval left right [] a b [] l r h =
        rw (total-cons b [], unit b) (paired left right a b l r)
    fold_rights-eval left right [] a b (c ∷ bs) l r h = absurd h
    fold_rights-eval left right (next ∷ rights) a b [] l r h = absurd h
    fold_rights-eval left right (next ∷ rights) a b (c ∷ bs) l r h =
        rw (total-cons b (c ∷ bs), ← assoc a b (total (c ∷ bs)))
          (fold_rights-eval (pair left right) next rights (meet a b) c bs
            (paired left right a b l r) h.0 h.1)

module _ {A : Type 0} (mapping : Mapping A) (root : Context A) (i : Option (Context A)) where
  pair-eval :
      (o : Operator) (meet : Bool → Bool → Bool)
      → ((a b : Bool) → mapping o (boolean a ∷ boolean b ∷ []) ≡ ok (boolean (meet a b)))
      → (l r : Node A) (a b : Bool) → eval mapping l root i ≡ ok (boolean a)
      → eval mapping r root i ≡ ok (boolean b)
      → eval mapping (infix_node l o r left_associative) root i ≡ ok (boolean (meet a b))
  unfolding eval
  pair-eval o meet table l r a b e f = rw (e, f) (table a b)

-- Where AND and OR of two Boolean values are those of Python, `And` and `Or` of a first operand and
-- at least one more build an expression that evaluates to the conjunction and to the disjunction of
-- the values of all operands, however many; without a second operand they raise ValueError.
pub and_or-eval :
    {A : Type 0} (mapping : Mapping A) (root : Context A) (i : Option (Context A))
    → ((a b : Bool) → mapping and_ (boolean a ∷ boolean b ∷ []) ≡ ok (boolean (a && b)))
    → ((a b : Bool) → mapping or_ (boolean a ∷ boolean b ∷ []) ≡ ok (boolean (a || b)))
    → (left right : Node A) (rights : List (Node A)) (a b : Bool) (bs : List Bool)
    → Evaluate mapping root i (left ∷ right ∷ rights) (a ∷ b ∷ bs)
    → ((and_node left (right ∷ rights) >>= λ n. eval mapping n root i)
        ≡ ok (boolean (all_of (a ∷ b ∷ bs))))
      × ((or_node left (right ∷ rights) >>= λ n. eval mapping n root i)
          ≡ ok (boolean (any_of (a ∷ b ∷ bs))))
      × (and_node left [] ≡ raise value_error)
      × (or_node left [] ≡ raise value_error)
unfolding and_node or_node all_of any_of
and_or-eval mapping root i conj disj left right rights a b bs (l, (r, h)) = (
  fold_rights-eval mapping root i and_ and_pair (λ x y. x && y) all_of
      (unfold and_pair in pair-eval mapping root i and_ (λ x y. x && y) conj) &&-assoc
      (λ x xs. refl) &&-unit left right rights a b bs l r h,
  fold_rights-eval mapping root i or_ or_pair (λ x y. x || y) any_of
      (unfold or_pair in pair-eval mapping root i or_ (λ x y. x || y) disj) ||-assoc (λ x xs. refl)
      ||-unit left right rights a b bs l r h,
  refl,
  refl,
)
