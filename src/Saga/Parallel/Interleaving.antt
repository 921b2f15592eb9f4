-- ===== src/Saga/Parallel/Interleaving.antt =====
-- What holds of each branch and its share of the world, whatever the schedule.
use ascetic_ddd_python.Prelude.{
  ℕ, zero, suc, ◌+◌, ◌≤◌, ◌==◌, ◌≡◌, ◌≢◌, refl, sym, ◌∙◌, subst, if◌then◌else◌, List, [], ◌∷◌,
  arith,
}
use ascetic_ddd_python.Saga.{Activity}
use ascetic_ddd_python.Saga.Parallel.{Branch, slip_of_branch, step, turn, gather}
use ascetic_ddd_python.Saga.Parallel.Separation.{IsOwned, IsSeparate, step-Local, step-IsOwned}

-- How many turns each branch has had after the schedule.
abbrev one_more : ℕ → (ℕ → ℕ) → ℕ → ℕ
one_more k turns i = if i == k then suc (turns i) else turns i

abbrev turns_after : List ℕ → (ℕ → ℕ) → ℕ → ℕ
turns_after [] turns = turns
turns_after (k ∷ schedule) turns = turns_after schedule (one_more k turns)

abbrev pub count : ℕ → List ℕ → ℕ
count i [] = 0
count i (k ∷ schedule) = let rest = count i schedule in if i == k then suc rest else rest

turns_after-count :
    (schedule : List ℕ) (turns : ℕ → ℕ) (i : ℕ)
    → turns_after schedule turns i ≡ turns i + count i schedule
turns_after-count [] turns i = omega arith
turns_after-count (k ∷ schedule) turns i =
    ground (arith, turns_after-count schedule (one_more k turns) i)

one_more-same : (k : ℕ) (turns : ℕ → ℕ) (i : ℕ) → i ≡ k → one_more k turns i ≡ suc (turns i)
one_more-same k turns i e = ground (arith, e)

one_more-other : (k : ℕ) (turns : ℕ → ℕ) (i : ℕ) → i ≢ k → turns i ≡ one_more k turns i
one_more-other k turns i n = ground (arith, n)

module _ {T A R World L : Type 0} (activity : Activity T A R World) (local : Activity T A R L)
    (owner : T → ℕ) (share : ℕ → World → L) (separate : IsSeparate activity local owner share) where
  -- `P i n b s` may be asked of branch `i` after `n` turns, with its share.
  module _ (P : ℕ → ℕ → Branch T A R → L → Type 0) where
    abbrev pub Holds : ℕ → (ℕ → ℕ) → List (Branch T A R) → World → Type 0
    Holds i turns [] w = Unit
    Holds i turns (b ∷ bs) w =
        (IsOwned owner i (slip_of_branch b) × P i (turns i) b (share i w))
        × Holds (suc i) turns bs w

    Holds-frame :
        (i : ℕ) (turns turns' : ℕ → ℕ) (bs : List (Branch T A R)) (w w' : World)
        → ((j : ℕ) → i ≤ j → (turns j ≡ turns' j) × (share j w ≡ share j w'))
        → Holds i turns bs w
        → Holds i turns' bs w'
    Holds-frame i turns turns' [] w w' same h = tt
    Holds-frame i turns turns' (b ∷ bs) w w' same h =
        let (t, s) = same i (omega arith) in
        (
          (h.0.0, subst (λ s. P i (turns' i) b s) s (subst (λ t. P i t b (share i w)) t h.0.1)),
          Holds-frame (suc i) turns turns' bs w w' (λ j le. same j (omega arith)) h.1,
        )

    turn-share :
        (i k : ℕ) (turns : ℕ → ℕ) (bs : List (Branch T A R)) (w : World)
        → Holds i turns bs w
        → (j : ℕ) → j ≢ i + k
        → share j (turn activity k bs w).1 ≡ share j w
    unfolding turn
    turn-share i k turns [] w h j n = refl
    turn-share i zero turns (b ∷ bs) w h j n =
        (step-Local activity local share owner separate i b w h.0.0).others j (λ e. n (omega arith))
    turn-share i (suc k) turns (b ∷ bs) w h j n =
        turn-share (suc i) k turns bs w h.1 j (λ e. n (omega arith))

    module _
        (kept : (i n : ℕ) (b : Branch T A R) (s : L)
          → P i n b s
          → P i (suc n) (step local b s).0 (step local b s).1) where
      turn-Holds :
          (i k m : ℕ) (turns : ℕ → ℕ) (bs : List (Branch T A R)) (w : World)
          → i + k ≡ m
          → Holds i turns bs w
          → Holds i (one_more m turns) (turn activity k bs w).0 (turn activity k bs w).1
      unfolding turn
      turn-Holds i k m turns [] w e h = tt
      turn-Holds i zero m turns (b ∷ bs) w e h =
          let own = step-Local activity local share owner separate i b w h.0.0 in
          let moved = kept i (turns i) b (share i w) h.0.1 in
          (
            (
              subst (λ c. IsOwned owner i (slip_of_branch c)) (sym own.same)
                  (step-IsOwned activity local share owner separate i b (share i w) h.0.0),
              subst (λ n. P i n (step activity b w).0 (share i (step activity b w).1))
                  (sym (one_more-same m turns i (omega arith)))
                  (subst (λ c. P i (suc (turns i)) c (share i (step activity b w).1)) (sym own.same)
                    (subst (λ s. P i (suc (turns i)) (step local b (share i w)).0 s) (sym own.own)
                      moved)),
            ),
            Holds-frame (suc i) turns (one_more m turns) bs w (step activity b w).1
                (λ j le. (
                  one_more-other m turns j (λ q. absurd (omega arith)),
                  sym (own.others j (λ q. absurd (omega arith))),
                ))
                h.1,
          )
      turn-Holds i (suc k) m turns (b ∷ bs) w e h = (
        (
          h.0.0,
          subst (λ n. P i n b (share i (turn activity k bs w).1))
              (one_more-other m turns i (λ q. absurd (omega arith)))
              (subst (λ s. P i (turns i) b s)
                (sym (turn-share (suc i) k turns bs w h.1 i (λ q. absurd (omega arith)))) h.0.1),
        ),
        turn-Holds (suc i) k m turns bs w (omega arith) h.1,
      )

      gather-turns_after :
          (schedule : List ℕ) (turns : ℕ → ℕ) (bs : List (Branch T A R)) (w : World)
          → Holds 0 turns bs w
          → Holds 0
              (turns_after schedule turns)
              (gather activity schedule bs w).0
              (gather activity schedule bs w).1
      unfolding gather
      gather-turns_after [] turns bs w h = h
      gather-turns_after (k ∷ schedule) turns bs w h =
          gather-turns_after schedule (one_more k turns) (turn activity k bs w).0
            (turn activity k bs w).1 (turn-Holds 0 k k turns bs w (omega arith) h)

      -- What a turn of a branch on its share keeps, holds of every branch after any schedule.
      pub gather-Holds :
          (schedule : List ℕ) (bs : List (Branch T A R)) (w : World)
          → Holds 0 (λ i. 0) bs w
          → Holds 0
              (λ i. count i schedule)
              (gather activity schedule bs w).0
              (gather activity schedule bs w).1
      gather-Holds schedule bs w h =
          Holds-frame 0 (turns_after schedule (λ i. 0)) (λ i. count i schedule)
            (gather activity schedule bs w).0 (gather activity schedule bs w).1
            (gather activity schedule bs w).1
            (λ j le. (turns_after-count schedule (λ i. 0) j ∙ omega arith, refl))
            (gather-turns_after schedule (λ i. 0) bs w h)
