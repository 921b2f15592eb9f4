-- ===== src/Saga/Parallel/Endings.antt =====
-- How a parallel activity may end, and what is asked of its branches and schedules.
use ascetic_ddd_python.Prelude.{
  ℕ, zero, suc, ◌*◌, ◌<◌, ◌≤◌, ◌==◌, ◌≡◌, refl, ap, ◌∙◌, true, false, Bool-cases, inl, inr, ◌⊎◌,
  Option, some, none, List, [], ◌∷◌, map, length, arith,
}
use ascetic_ddd_python.Prelude.Result.{ok}
use ascetic_ddd_python.Saga.{WorkItem, RoutingSlip, Activity}
use ascetic_ddd_python.Saga.Parallel.{Branch, turn, gather}
use ascetic_ddd_python.Saga.Parallel.Separation.{HaveOwner}
use ascetic_ddd_python.Saga.Parallel.Interleaving.{count}
use ascetic_ddd_python.Saga.Parallel.Branches.{alone}

-- The items of branch `i`.
abbrev pub plan : {T A : Type 0} → List (List (WorkItem T A)) → ℕ → List (WorkItem T A)
plan [] i = []
plan (items ∷ rest) zero = items
plan (items ∷ rest) (suc i) = plan rest i

-- The branches are made of activities of their own.
abbrev pub AreOwned : {T A : Type 0} → (T → ℕ) → ℕ → List (List (WorkItem T A)) → Type 0
AreOwned owner i [] = Unit
AreOwned owner i (items ∷ rest) = HaveOwner owner i items × AreOwned owner (suc i) rest

-- Both schedules give the branches enough turns.
abbrev pub IsFair : {T A : Type 0} → ℕ → List (List (WorkItem T A)) → List ℕ → List ℕ → Type 0
IsFair i [] schedule undo_schedule = Unit
IsFair i (items ∷ rest) schedule undo_schedule =
    (2 * length items < count i schedule)
    × (length items < count i undo_schedule)
    × IsFair (suc i) rest schedule undo_schedule

module _ {T A R World L : Type 0} (local : Activity T A R L) (share : ℕ → World → L) where
  -- Each branch ends as it does alone on its share, with this slip and this share.
  pub data RanAlone (branches : List (List (WorkItem T A))) (w w' : World)
      : ℕ → List (RoutingSlip T A R) → Type 0 where
    no_more : {i : ℕ} → RanAlone branches w w' i []
    ran :
        {i : ℕ} (slip : RoutingSlip T A R) {slips : List (RoutingSlip T A R)}
        → alone local (plan branches i) (share i w) ≡ some (ok true, slip, share i w')
        → RanAlone branches w w' (suc i) slips
        → RanAlone branches w w' i (slip ∷ slips)

  -- How the parallel activity ends: with the slips of branches that all ran to their ends, or, when
  -- one of them fails alone, with the share of each branch as it was.
  pub data Joined (branches : List (List (WorkItem T A))) (w : World)
      (r : Option (Option (List (RoutingSlip T A R)) × World)) : Type 0 where
    succeeded_all :
        (slips : List (RoutingSlip T A R)) (w' : World)
        → r ≡ some (some slips, w')
        → length slips ≡ length branches
        → RanAlone branches w w' 0 slips
        → Joined branches w r
    undone_all :
        (w' : World)
        → r ≡ some (none, w')
        → ((i : ℕ) → i < length branches → share i w' ≡ share i w)
        → (i : ℕ) (slip : RoutingSlip T A R) → i < length branches
        → alone local (plan branches i) (share i w) ≡ some (ok false, slip, share i w)
        → Joined branches w r

pub at_or_after : (i j : ℕ) → i ≤ j → (j ≡ i) ⊎ (suc i ≤ j)
at_or_after i j h = elim (Bool-cases (j == i)) [
  | inl e ↦ inl (ground (arith, e))
  | inr e ↦ inr (ground (arith, e))
]

pub length-map : {A B : Type 0} (f : A → B) (xs : List A) → length (map f xs) ≡ length xs
length-map f [] = refl
length-map f (x ∷ xs) = ap suc (length-map f xs)

module _ {T A R World : Type 0} (activity : Activity T A R World) where
  length-turn :
      (k : ℕ) (bs : List (Branch T A R)) (w : World) → length (turn activity k bs w).0 ≡ length bs
  unfolding turn
  length-turn k [] w = refl
  length-turn zero (b ∷ bs) w = refl
  length-turn (suc k) (b ∷ bs) w = ap suc (length-turn k bs w)

  pub length-gather :
      (schedule : List ℕ) (bs : List (Branch T A R)) (w : World)
      → length (gather activity schedule bs w).0 ≡ length bs
  unfolding gather
  length-gather [] bs w = refl
  length-gather (k ∷ schedule) bs w =
      length-gather schedule (turn activity k bs w).0 (turn activity k bs w).1 ∙ length-turn k bs w
