-- ===== src/Saga/Parallel.antt =====
-- ascetic_ddd/saga/parallel_activity.py. `asyncio.gather` runs the branches as tasks; a schedule names
-- the branch whose turn it is, and a turn is one call of process_next or undo_last with the test of
-- the loop that it stands in. A work item's argument is the list of branches, and a work log's
-- result is their slips; both are taken by value.
pub mod Separation
pub mod Interleaving
pub mod Branches
pub mod Endings
pub mod Outcome
mod Tests
use ascetic_ddd_python.Prelude.{
  ℕ, zero, suc, Bool, true, false, ◌&&◌, ◌||◌, Option, none, some, List, [], ◌∷◌, map,
}
use ascetic_ddd_python.Prelude.Result.{Result, ok, raise}
use ascetic_ddd_python.Saga.{
  RoutingSlip, Activity, Exception, is_completed, is_in_progress, process_next, undo_last,
}

-- A task: in the loop of `_execute_branch`, in a loop that compensates, or returned.
pub data Branch (T A R : Type 0) : Type 0 where
  working : RoutingSlip T A R → Branch T A R
  undoing : RoutingSlip T A R → Branch T A R
  finished : Result Exception Bool → RoutingSlip T A R → Branch T A R

module _ {T A R : Type 0} where
  abbrev pub slip_of_branch : Branch T A R → RoutingSlip T A R
  slip_of_branch (working slip) = slip
  slip_of_branch (undoing slip) = slip
  slip_of_branch (finished r slip) = slip

  abbrev pub is_finished : Branch T A R → Bool
  is_finished (finished r slip) = true
  is_finished _ = false

  unfoldable pub all_finished : List (Branch T A R) → Bool
  all_finished [] = true
  all_finished (b ∷ bs) = is_finished b && all_finished bs

  -- `isinstance(result, Exception) or result is False`
  abbrev pub has_failed : Branch T A R → Bool
  has_failed (finished (ok true) slip) = false
  has_failed _ = true

  unfoldable pub any_failed : List (Branch T A R) → Bool
  any_failed [] = false
  any_failed (b ∷ bs) = has_failed b || any_failed bs

module _ {T A R World : Type 0} (activity : Activity T A R World) where
  unfoldable pub after_work :
      Result Exception Bool × RoutingSlip T A R × World → Branch T A R × World
  after_work (ok true, slip, w) = (working slip, w)
  after_work (ok false, slip, w) = (undoing slip, w)
  after_work (raise e, slip, w) = (finished (raise e) slip, w)

  unfoldable pub after_undo :
      Result Exception Bool × RoutingSlip T A R × World → Branch T A R × World
  after_undo (ok b, slip, w) = (undoing slip, w)
  after_undo (raise e, slip, w) = (finished (raise e) slip, w)

  -- `_execute_branch` and `_compensate_branch`, one turn of their loops. The loop that compensates
  -- returns False in the former; what it returns in the latter is not looked at.
  unfoldable pub step : Branch T A R → World → Branch T A R × World
  unfolding after_work after_undo process_next undo_last
  step (working slip) w = elim (is_completed slip) [
    | true ↦ (finished (ok true) slip, w)
    | false ↦ after_work (process_next activity slip w)
  ]
  step (undoing slip) w = elim (is_in_progress slip) [
    | false ↦ (finished (ok false) slip, w)
    | true ↦ after_undo (undo_last activity slip w)
  ]
  step (finished r slip) w = (finished r slip, w)

  unfoldable pub turn : ℕ → List (Branch T A R) → World → List (Branch T A R) × World
  unfolding step
  turn k [] w = ([], w)
  turn zero (b ∷ bs) w = ((step b w).0 ∷ bs, (step b w).1)
  turn (suc k) (b ∷ bs) w = (b ∷ (turn k bs w).0, (turn k bs w).1)

  -- `asyncio.gather`
  unfoldable pub gather : List ℕ → List (Branch T A R) → World → List (Branch T A R) × World
  unfolding turn
  gather [] bs w = (bs, w)
  gather (k ∷ schedule) bs w = gather schedule (turn k bs w).0 (turn k bs w).1

  -- `_compensate_branches`, and `compensate`, which returns True after it. `none` means that the
  -- schedule ended before the tasks.
  unfoldable pub compensate :
      List ℕ → List (RoutingSlip T A R) → World → Option (List (RoutingSlip T A R) × World)
  unfolding gather all_finished
  compensate schedule slips w =
      let (bs, w') = gather schedule (map undoing slips) w in
      elim (all_finished bs) [ true ↦ some (map slip_of_branch bs, w') | false ↦ none ]

  -- `do_work`: the slips of the branches, or nothing. Exceptions of the branches are results.
  unfoldable pub do_work :
      List ℕ
      → List ℕ
      → List (RoutingSlip T A R)
      → World
      → Option (Option (List (RoutingSlip T A R)) × World)
  unfolding gather all_finished any_failed compensate
  do_work schedule undo_schedule branches w =
      let (bs, w') = gather schedule (map working branches) w in
      elim (all_finished bs) [
        | false ↦ none
        | true ↦ elim (any_failed bs) [
          | false ↦ some (some (map slip_of_branch bs), w')
          | true ↦ elim (compensate undo_schedule (map slip_of_branch bs) w') [
            | none ↦ none
            | some (slips, w'') ↦ some (none, w'')
          ]
        ]
      ]
