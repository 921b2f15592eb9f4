-- ===== src/Saga/Parallel/Outcome.antt =====
-- Parallel branches that have a share of the world each end like branches that run alone.
use ascetic_ddd_python.Prelude.{
  ℕ, suc, ◌+◌, ◌*◌, ◌<◌, ◌≤◌, ◌≡◌, refl, sym, ap, ◌∙◌, subst, true, false, inl, inr, ◌⊎◌, some,
  none, List, [], ◌∷◌, map, length, arith,
}
use ascetic_ddd_python.Prelude.Result.{ok}
use ascetic_ddd_python.Saga.{WorkItem, RoutingSlip, Activity, init}
use ascetic_ddd_python.Saga.Rollback.{IsUndoable, start, slip_of}
use ascetic_ddd_python.Saga.Parallel.{
  Branch, working, undoing, slip_of_branch, all_finished, any_failed, gather, compensate, do_work,
}
use ascetic_ddd_python.Saga.Parallel.Separation.{IsSeparate}
use ascetic_ddd_python.Saga.Parallel.Interleaving.{count, Holds, gather-Holds}
use ascetic_ddd_python.Saga.Parallel.Branches.{
  alone, Reached, forward, Undone, step-Undone, step-Reached, finished_in_time, back_in_time,
  Reached-Undone, result_alone,
}
use ascetic_ddd_python.Saga.Parallel.Endings.{
  plan, AreOwned, IsFair, RanAlone, no_more, ran, Joined, succeeded_all, undone_all, at_or_after,
  length-map, length-gather,
}

module _ {T A R World L : Type 0} (activity : Activity T A R World) (local : Activity T A R L)
    (owner : T → ℕ) (share : ℕ → World → L) where
  module _ (separate : IsSeparate activity local owner share) (undoable : IsUndoable local)
      (branches : List (List (WorkItem T A))) (schedule undo_schedule : List ℕ) (w₀ : World) where
    abbrev At : ℕ → ℕ → Branch T A R → L → Type 0
    At i m b s =
        (2 * length (plan branches i) < count i schedule)
        × (length (plan branches i) < count i undo_schedule)
        × Reached local (plan branches i) (share i w₀) m b s

    abbrev Back : ℕ → ℕ → Branch T A R → L → Type 0
    Back i m b s =
        (length (plan branches i) < count i undo_schedule)
        × Undone local (length (plan branches i)) (share i w₀) m b s

    abbrev HoldsAt : ℕ → (ℕ → ℕ) → List (Branch T A R) → World → Type 0
    HoldsAt = Holds activity local owner share separate At

    abbrev HoldsBack : ℕ → (ℕ → ℕ) → List (Branch T A R) → World → Type 0
    HoldsBack = Holds activity local owner share separate Back

    HoldsAt-start :
        (i : ℕ) (rest : List (List (WorkItem T A)))
        → ((j : ℕ) → plan branches (i + j) ≡ plan rest j)
        → AreOwned owner i rest
        → IsFair i rest schedule undo_schedule
        → HoldsAt i (λ j. 0) (map working (map init rest)) w₀
    unfolding init
    HoldsAt-start i [] same owned fair = tt
    HoldsAt-start i (items ∷ rest) same owned fair =
        let here : plan branches i ≡ items = ap (plan branches) (omega arith) ∙ same 0 in
        (
          (
            record { items = owned.0; logs = tt },
            subst
                (λ x.
                  (2 * length x < count i schedule)
                  × (length x < count i undo_schedule)
                  × Reached local x (share i w₀) 0 (working (slip_of local [] items)) (share i w₀))
                (sym here)
                (
                  fair.0,
                  fair.1,
                  forward [] items (share i w₀) (suc (length items)) start refl (omega arith)
                      (omega arith) refl,
                ),
          ),
          HoldsAt-start (suc i) rest (λ j. ap (plan branches) (omega arith) ∙ same (suc j)) owned.1
              fair.2,
        )

    all_finished-HoldsAt :
        (i : ℕ) (bs : List (Branch T A R)) (w : World)
        → HoldsAt i (λ j. count j schedule) bs w
        → all_finished bs ≡ true
    unfolding all_finished
    all_finished-HoldsAt i [] w h = refl
    all_finished-HoldsAt i (b ∷ bs) w h =
        rw
          (
            finished_in_time local (plan branches i) (share i w₀) (count i schedule) b (share i w)
                h.0.1.2 h.0.1.0,
            all_finished-HoldsAt (suc i) bs w h.1,
          )
          refl

    -- A branch from `i` on that fails alone.
    abbrev OneFails : ℕ → ℕ → Type 0
    OneFails i n =
        (j : ℕ) × (slip : RoutingSlip T A R) × (i ≤ j)
        × (j < i + n)
        × (alone local (plan branches j) (share j w₀) ≡ some (ok false, slip, share j w₀))

    results :
        (i : ℕ) (bs : List (Branch T A R)) (w : World)
        → HoldsAt i (λ j. count j schedule) bs w
        → ((any_failed bs ≡ false) × RanAlone local share branches w₀ w i (map slip_of_branch bs))
          ⊎ ((any_failed bs ≡ true) × OneFails i (length bs))
    unfolding any_failed
    results i [] w h = inl (refl, no_more)
    results i (b ∷ bs) w h =
        let done =
          finished_in_time local (plan branches i) (share i w₀) (count i schedule) b (share i w)
            h.0.1.2 h.0.1.0 in
        let first =
          result_alone local (plan branches i) (share i w₀) (count i schedule) b (share i w) h.0.1.2
            done in
        elim first [
          | inr (failed, same) ↦
              inr (rw failed refl, (i, slip_of_branch b, omega arith, omega arith, same))
          | inl (good, same) ↦ elim (results (suc i) bs w h.1) [
            | inl (goods, rest) ↦ inl (rw (good, goods) refl, ran (slip_of_branch b) same rest)
            | inr (failed, (j, slip, lower, upper, same')) ↦
                inr (rw (good, failed) refl, (j, slip, omega arith, omega arith, same'))
          ]
        ]

    HoldsBack-start :
        (i : ℕ) (bs : List (Branch T A R)) (w : World)
        → HoldsAt i (λ j. count j schedule) bs w
        → HoldsBack i (λ j. 0) (map undoing (map slip_of_branch bs)) w
    HoldsBack-start i [] w h = tt
    HoldsBack-start i (b ∷ bs) w h =
        let done =
          finished_in_time local (plan branches i) (share i w₀) (count i schedule) b (share i w)
            h.0.1.2 h.0.1.0 in
        (
          (
            record { items = h.0.0.items; logs = h.0.0.logs },
            (
              h.0.1.1,
              Reached-Undone local (plan branches i) (share i w₀) (count i schedule) b (share i w)
                  h.0.1.2 done,
            ),
          ),
          HoldsBack-start (suc i) bs w h.1,
        )

    restored :
        (i : ℕ) (bs : List (Branch T A R)) (w : World)
        → HoldsBack i (λ j. count j undo_schedule) bs w
        → (all_finished bs ≡ true) × ((j : ℕ) → i ≤ j → j < i + length bs → share j w ≡ share j w₀)
    unfolding all_finished
    restored i [] w h = (refl, λ j lower upper. absurd (omega arith))
    restored i (b ∷ bs) w h =
        let (done, same) =
          back_in_time local (length (plan branches i)) (share i w₀) (count i undo_schedule) b
            (share i w) h.0.1.1 h.0.1.0 in
        let (dones, sames) = restored (suc i) bs w h.1 in
        (
          rw (done, dones) refl,
          λ j lower upper. elim (at_or_after i j lower) [
            | inl here ↦ subst (λ k. share k w ≡ share k w₀) (sym here) same
            | inr after ↦ sames j after (omega arith)
          ],
        )

    -- The branches after the schedule, and what holds of them.
    abbrev branches_run : List (Branch T A R)
    branches_run = (gather activity schedule (map working (map init branches)) w₀).0

    abbrev world_run : World
    world_run = (gather activity schedule (map working (map init branches)) w₀).1

    HoldsAt-run :
        AreOwned owner 0 branches
        → IsFair 0 branches schedule undo_schedule
        → HoldsAt 0 (λ j. count j schedule) branches_run world_run
    HoldsAt-run owned fair =
        gather-Holds activity local owner share separate At
          (λ i m b s h.
            (h.0, h.1, step-Reached local undoable (plan branches i) (share i w₀) m b s h.2))
          schedule (map working (map init branches)) w₀
          (HoldsAt-start 0 branches (λ j. ap (plan branches) (omega arith)) owned fair)

    length-run : length branches_run ≡ length branches
    length-run =
        length-gather activity schedule (map working (map init branches)) w₀
        ∙ length-map working (map init branches)
        ∙ length-map init branches

    undone_after :
        AreOwned owner 0 branches
        → IsFair 0 branches schedule undo_schedule
        → (slips : List (RoutingSlip T A R)) × (w : World) × (compensate activity undo_schedule
              (map slip_of_branch branches_run)
              world_run
            ≡ some (slips, w))
          × ((i : ℕ) → i < length branches → share i w ≡ share i w₀)
    unfolding compensate
    undone_after owned fair =
        let tasks = map undoing (map slip_of_branch branches_run) in
        let (bs, w) = gather activity undo_schedule tasks world_run in
        let holds : HoldsBack 0 (λ j. count j undo_schedule) bs w =
          gather-Holds activity local owner share separate Back
            (λ i m b s h.
              (h.0, step-Undone local (length (plan branches i)) (share i w₀) m b s h.1))
            undo_schedule tasks world_run
            (HoldsBack-start 0 branches_run world_run (HoldsAt-run owned fair)) in
        let (done, same) = restored 0 bs w holds in
        let long : length bs ≡ length branches =
          length-gather activity undo_schedule tasks world_run
          ∙ length-map undoing (map slip_of_branch branches_run)
          ∙ length-map slip_of_branch branches_run
          ∙ length-run in
        (
          map slip_of_branch bs,
          w,
          rw (compensate, done) refl,
          λ i h. same i (omega arith) (omega arith),
        )

    do_work-good :
        all_finished branches_run ≡ true
        → any_failed branches_run ≡ false
        → do_work activity schedule undo_schedule (map init branches) w₀
          ≡ some (some (map slip_of_branch branches_run), world_run)
    unfolding do_work
    do_work-good done good = rw (do_work, done, good) refl

    do_work-bad :
        all_finished branches_run ≡ true
        → any_failed branches_run ≡ true
        → (slips : List (RoutingSlip T A R)) (w : World)
        → compensate activity undo_schedule (map slip_of_branch branches_run) world_run
          ≡ some (slips, w)
        → do_work activity schedule undo_schedule (map init branches) w₀ ≡ some (none, w)
    unfolding do_work
    do_work-bad done bad slips w e = rw (do_work, done, bad, e) refl

    joined :
        AreOwned owner 0 branches
        → IsFair 0 branches schedule undo_schedule
        → Joined local share branches w₀
            (do_work activity schedule undo_schedule (map init branches) w₀)
    joined owned fair =
        let holds = HoldsAt-run owned fair in
        let done = all_finished-HoldsAt 0 branches_run world_run holds in
        elim (results 0 branches_run world_run holds) [
          | inl (good, ran_alone) ↦
              succeeded_all (map slip_of_branch branches_run) world_run (do_work-good done good)
                (length-map slip_of_branch branches_run ∙ length-run) ran_alone
          | inr (bad, (j, slip, lower, upper, fails)) ↦
              let (slips, w, e, same) = undone_after owned fair in
              undone_all w (do_work-bad done bad slips w e) same j slip (omega (arith, length-run))
                fails
        ]

    undone :
        AreOwned owner 0 branches
        → IsFair 0 branches schedule undo_schedule
        → (slips : List (RoutingSlip T A R)) (w : World)
        → do_work activity schedule undo_schedule (map init branches) w₀ ≡ some (some slips, w)
        → (slips' : List (RoutingSlip T A R)) × (w' : World) × (compensate activity undo_schedule
              slips w
            ≡ some (slips', w'))
          × ((i : ℕ) → i < length branches → share i w' ≡ share i w₀)
    undone owned fair slips w e =
        let holds = HoldsAt-run owned fair in
        let done = all_finished-HoldsAt 0 branches_run world_run holds in
        let (slips', w', back, same) = undone_after owned fair in
        elim (results 0 branches_run world_run holds) [
          | inl (good, ran_alone) ↦
              let f = do_work-good done good in
              let one : map slip_of_branch branches_run ≡ slips = ground (arith, e, f) in
              let two : world_run ≡ w = ground (arith, e, f) in
              (
                slips',
                w',
                subst (λ x. compensate activity undo_schedule x w ≡ some (slips', w')) one
                    (subst
                      (λ x.
                        compensate activity undo_schedule (map slip_of_branch branches_run) x
                        ≡ some (slips', w'))
                      two back),
                same,
              )
          | inr (bad, fails) ↦
              let f = do_work-bad done bad slips' w' back in absurd (ground (arith, e, f))
        ]

-- Let the activities of each branch work on their own share of the world, and be undoable there; let
-- the schedule give a branch with n items more than 2n turns, and the schedule of the compensation
-- more than n. Then the parallel activity comes to an end. Either all branches, run alone on their
-- shares, run to their ends, and it succeeds with just those slips and shares; or one of them fails
-- alone, and it fails with the share of every branch as it was.
pub do_work_joins :
    {T A R World L : Type 0} (activity : Activity T A R World) (local : Activity T A R L)
    (owner : T → ℕ) (share : ℕ → World → L)
    → IsSeparate activity local owner share
    → IsUndoable local
    → (branches : List (List (WorkItem T A))) (schedule undo_schedule : List ℕ) (w : World)
    → AreOwned owner 0 branches
    → IsFair 0 branches schedule undo_schedule
    → Joined local share branches w (do_work activity schedule undo_schedule (map init branches) w)
do_work_joins activity local owner share separate undoable branches schedule undo_schedule w =
    joined activity local owner share separate undoable branches schedule undo_schedule w

-- Let the activities of each branch work on their own share of the world, and be undoable there; let
-- the schedule give a branch with n items more than 2n turns, and the schedule of the compensation
-- more than n. Then a parallel activity that succeeded can be undone: the compensation comes to an
-- end and takes the share of every branch back to where the activity began.
pub compensate_joined :
    {T A R World L : Type 0} (activity : Activity T A R World) (local : Activity T A R L)
    (owner : T → ℕ) (share : ℕ → World → L)
    → IsSeparate activity local owner share
    → IsUndoable local
    → (branches : List (List (WorkItem T A))) (schedule undo_schedule : List ℕ) (w : World)
    → AreOwned owner 0 branches
    → IsFair 0 branches schedule undo_schedule
    → (slips : List (RoutingSlip T A R)) (w' : World)
    → do_work activity schedule undo_schedule (map init branches) w ≡ some (some slips, w')
    → (slips' : List (RoutingSlip T A R)) × (w'' : World) × (compensate activity undo_schedule slips
          w'
        ≡ some (slips', w''))
      × ((i : ℕ) → i < length branches → share i w'' ≡ share i w)
compensate_joined activity local owner share separate undoable branches schedule undo_schedule w =
    undone activity local owner share separate undoable branches schedule undo_schedule w
