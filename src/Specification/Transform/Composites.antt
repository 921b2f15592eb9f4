-- ===== src/Specification/Transform/Composites.antt =====
-- What the comparisons of composite expressions mean.
use ascetic_ddd_python.Prelude.{
  Bool-cases, inl, inr, suc, ◌==◌, ◌≡◌, refl, ap, if◌then◌else◌, List, [], ◌∷◌, length, Bool, true,
  false, ◌&&◌, ◌||◌, not, arith,
}
use ascetic_ddd_python.Prelude.Result.{ok, raise, ◌>>=◌}
use ascetic_ddd_python.Specification.Nodes.{
  Operator, eq, ne, and_, not_, left_associative, right_associative, non_associative, Node,
}
use ascetic_ddd_python.Specification.Transform.{
  different_length, Tree, leaf, prefix_tree, infix_tree, Trees, no_trees, tree, count_trees,
  fold_and, and_trees, equal_operands, unequal_operands, equal_composites, unequal_composites,
}

abbrev pub leaves : {A : Type 0} → List (Node A) → Trees A
leaves [] = no_trees
leaves (x ∷ xs) = tree (leaf x) (leaves xs)

count_trees-leaves : {A : Type 0} (xs : List (Node A)) → count_trees (leaves xs) ≡ length xs
count_trees-leaves [] = refl
count_trees-leaves (x ∷ xs) = ap suc (count_trees-leaves xs)

-- The comparisons of two lists, pair by pair.
abbrev pairs : {A : Type 0} → Operator → List (Node A) → List (Node A) → Trees A
pairs o (x ∷ xs) (y ∷ ys) = tree (infix_tree (leaf x) o (leaf y) non_associative) (pairs o xs ys)
pairs o _ _ = no_trees

equal_operands-leaves :
    {A : Type 0} (xs ys : List (Node A))
    → equal_operands (leaves xs) (leaves ys) ≡ ok (pairs eq xs ys)
unfolding equal_operands
equal_operands-leaves [] ys = refl
equal_operands-leaves (x ∷ xs) [] = refl
equal_operands-leaves (x ∷ xs) (y ∷ ys) =
    ap (λ r. r >>= λ os. ok (tree (infix_tree (leaf x) eq (leaf y) non_associative) os))
      (equal_operands-leaves xs ys)

unequal_operands-leaves :
    {A : Type 0} (xs ys : List (Node A))
    → unequal_operands (leaves xs) (leaves ys) ≡ ok (pairs ne xs ys)
unfolding equal_operands unequal_operands
unequal_operands-leaves [] ys = refl
unequal_operands-leaves (x ∷ xs) [] = refl
unequal_operands-leaves (x ∷ xs) (y ∷ ys) =
    ap (λ r. r >>= λ os. ok (tree (infix_tree (leaf x) ne (leaf y) non_associative) os))
      (unequal_operands-leaves xs ys)

equal_composites-leaves :
    {A : Type 0} (xs ys : List (Node A))
    → equal_composites (leaves xs) (leaves ys)
      ≡ (if length xs == length ys then and_trees (pairs eq xs ys) else raise different_length)
unfolding equal_composites
equal_composites-leaves xs ys =
    rw (count_trees-leaves xs, count_trees-leaves ys)
      (ap (λ r. if length xs == length ys then (r >>= and_trees) else raise different_length)
        (equal_operands-leaves xs ys))

unequal_composites-leaves :
    {A : Type 0} (xs ys : List (Node A))
    → unequal_composites (leaves xs) (leaves ys) ≡ (
        if length xs == length ys
        then (and_trees (pairs ne xs ys) >>= λ t. ok (prefix_tree not_ t right_associative))
        else raise different_length)
unfolding unequal_composites
unequal_composites-leaves xs ys =
    rw (count_trees-leaves xs, count_trees-leaves ys)
      (ap
        (λ r.
          if length xs == length ys
          then (r >>= λ ts. and_trees ts >>= λ t. ok (prefix_tree not_ t right_associative))
          else raise different_length)
        (unequal_operands-leaves xs ys))

module _ {A : Type 0} (same : Node A → Node A → Bool) where
  abbrev same_leaves : Tree A → Tree A → Bool
  same_leaves (leaf x) (leaf y) = same x y
  same_leaves _ _ = false

  abbrev connective : Operator → Bool → Bool → Bool → Bool
  connective eq equal l r = equal
  connective ne equal l r = not equal
  connective and_ equal l r = l && r
  connective _ equal l r = false

  -- Whether a condition holds, if `same` says which leaves are equal.
  abbrev pub holds : Tree A → Bool
  holds (infix_tree l o r a) = connective o (same_leaves l r) (holds l) (holds r)
  holds (prefix_tree not_ t a) = not (holds t)
  holds _ = false

  all_hold : Trees A → Bool
  all_hold no_trees = true
  all_hold (tree t ts) = holds t && all_hold ts

  holds-fold_and : (l : Tree A) (ts : Trees A) → holds (fold_and l ts) ≡ (holds l && all_hold ts)
  unfolding fold_and all_hold
  holds-fold_and l no_trees = ground arith
  holds-fold_and l (tree r rs) =
      ground (arith, holds-fold_and (infix_tree l and_ r left_associative) rs)

  abbrev pub all_same : List (Node A) → List (Node A) → Bool
  all_same (x ∷ xs) (y ∷ ys) = same x y && all_same xs ys
  all_same _ _ = true

  abbrev pub one_same : List (Node A) → List (Node A) → Bool
  one_same (x ∷ xs) (y ∷ ys) = same x y || one_same xs ys
  one_same _ _ = false

  all_hold-equal : (xs ys : List (Node A)) → all_hold (pairs eq xs ys) ≡ all_same xs ys
  unfolding all_hold
  all_hold-equal [] ys = refl
  all_hold-equal (x ∷ xs) [] = refl
  all_hold-equal (x ∷ xs) (y ∷ ys) = ap (λ b. same x y && b) (all_hold-equal xs ys)

  all_hold-unequal : (xs ys : List (Node A)) → all_hold (pairs ne xs ys) ≡ not (one_same xs ys)
  unfolding all_hold
  all_hold-unequal [] ys = refl
  all_hold-unequal (x ∷ xs) [] = refl
  all_hold-unequal (x ∷ xs) (y ∷ ys) = ground (arith, all_hold-unequal xs ys)

  -- Composite expressions of two or more plain nodes: those of different lengths cannot be compared;
  -- otherwise `==` becomes a condition that holds if all pairs are equal, and `!=` becomes one that
  -- holds if some pair is equal.
  pub composite_laws :
      (x x' y y' : Node A) (xs ys : List (Node A))
      → ((equal_composites (leaves (x ∷ x' ∷ xs)) (leaves (y ∷ y' ∷ ys)) >>= λ t. ok (holds t)) ≡ (
          if length xs == length ys
          then ok (all_same (x ∷ x' ∷ xs) (y ∷ y' ∷ ys))
          else raise different_length))
        × ((unequal_composites (leaves (x ∷ x' ∷ xs)) (leaves (y ∷ y' ∷ ys)) >>= λ t. ok (holds t))
            ≡ (if length xs == length ys
                then ok (one_same (x ∷ x' ∷ xs) (y ∷ y' ∷ ys))
                else raise different_length))
  unfolding and_trees
  composite_laws x x' y y' xs ys = elim (Bool-cases (length xs == length ys)) [
    | inl e ↦ (
      ground (
        arith,
        e,
        equal_composites-leaves (x ∷ x' ∷ xs) (y ∷ y' ∷ ys),
        holds-fold_and (infix_tree (leaf x) eq (leaf y) non_associative)
            (pairs eq (x' ∷ xs) (y' ∷ ys)),
        all_hold-equal (x' ∷ xs) (y' ∷ ys),
      ),
      ground (
        arith,
        e,
        unequal_composites-leaves (x ∷ x' ∷ xs) (y ∷ y' ∷ ys),
        holds-fold_and (infix_tree (leaf x) ne (leaf y) non_associative)
            (pairs ne (x' ∷ xs) (y' ∷ ys)),
        all_hold-unequal (x' ∷ xs) (y' ∷ ys),
      ),
    )
    | inr e ↦ (
      ground (arith, e, equal_composites-leaves (x ∷ x' ∷ xs) (y ∷ y' ∷ ys)),
      ground (arith, e, unequal_composites-leaves (x ∷ x' ∷ xs) (y ∷ y' ∷ ys)),
    )
  ]
