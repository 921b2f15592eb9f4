-- ===== src/Saga.antt =====
-- The saga module (ascetic_ddd/saga): work items, work logs, routing slips, and what the library
-- asks of an activity. The activities are the application's: `Activity` is a parameter, with a
-- type `World` for all that they read and change.
pub mod Rollback
pub mod Fallback
pub mod Host
pub mod Parallel
mod Tests
use ascetic_ddd_python.Prelude.{
  ℕ, zero, suc, String, Bool, true, false, Option, none, some, List, [], ◌∷◌, ◌++◌, pop,
}
use ascetic_ddd_python.Prelude.Result.{Result, ok, raise}

pub record WorkItem (T A : Type 0) : Type 0 where
  pub activity_type : T
  pub arguments : A

pub record WorkLog (T R : Type 0) : Type 0 where
  pub activity_type : T
  pub result : R

-- The lists are in Python's order: items are taken from the front, logs appended at the end.
pub record RoutingSlip (T A R : Type 0) : Type 0 where
  pub completed_work_logs : List (WorkLog T R)
  pub next_work_items : List (WorkItem T A)

pub data Exception : Type 0 where
  invalid_operation activity_error : Exception

-- An activity class for each `T`. Its constructor has no effect; `do_work` does not see the slip.
pub record Activity (T A R World : Type 0) : Type 0 where
  pub do_work : T → WorkItem T A → World → Result Exception (Option (WorkLog T R)) × World
  pub compensate :
      T
      → WorkLog T R
      → RoutingSlip T A R
      → World
      → Result Exception Bool × RoutingSlip T A R × World
  pub work_item_queue_address : T → String
  pub compensation_queue_address : T → String

-- `RoutingSlip.__init__`
unfoldable pub init : {T A R : Type 0} → List (WorkItem T A) → RoutingSlip T A R
init work_items = record { completed_work_logs = []; next_work_items = work_items }

module _ {T A R : Type 0} where
  unfoldable pub is_completed : RoutingSlip T A R → Bool
  is_completed slip = elim slip.next_work_items [ [] ↦ true | _ ∷ _ ↦ false ]

  unfoldable pub is_in_progress : RoutingSlip T A R → Bool
  is_in_progress slip = elim slip.completed_work_logs [ [] ↦ false | _ ∷ _ ↦ true ]

module _ {T A R World : Type 0} (activity : Activity T A R World) where
  -- The `try` of `process_next`: an exception counts as a failure, and is dropped.
  unfoldable pub record_work :
      RoutingSlip T A R
      → Result Exception (Option (WorkLog T R)) × World
      → Result Exception Bool × RoutingSlip T A R × World
  record_work slip (ok (some log), w) =
      (ok true, record slip { completed_work_logs = slip.completed_work_logs ++ log ∷ [] }, w)
  record_work slip (ok none, w) = (ok false, slip, w)
  record_work slip (raise e, w) = (ok false, slip, w)

  unfoldable pub process_next :
      RoutingSlip T A R → World → Result Exception Bool × RoutingSlip T A R × World
  unfolding record_work
  process_next slip w = elim slip.next_work_items [
    | [] ↦ (raise invalid_operation, slip, w)
    | item ∷ rest ↦
        record_work (record slip { next_work_items = rest })
          (activity.do_work item.activity_type item w)
  ]

  unfoldable pub undo_last :
      RoutingSlip T A R → World → Result Exception Bool × RoutingSlip T A R × World
  undo_last slip w = elim (pop slip.completed_work_logs) [
    | none ↦ (raise invalid_operation, slip, w)
    | some (rest, log) ↦
        activity.compensate log.activity_type log (record slip { completed_work_logs = rest }) w
  ]

  unfoldable pub progress_uri : RoutingSlip T A R → Option String
  progress_uri slip = elim slip.next_work_items [
    | [] ↦ none
    | item ∷ rest ↦ some (activity.work_item_queue_address item.activity_type)
  ]

  unfoldable pub compensation_uri : RoutingSlip T A R → Option String
  compensation_uri slip = elim (pop slip.completed_work_logs) [
    | none ↦ none
    | some (rest, log) ↦ some (activity.compensation_queue_address log.activity_type)
  ]

  -- `while branch.is_in_progress: await branch.undo_last()`, which stands in both composite
  -- activities. A compensation may add work to the slip, so the loop takes fuel; `none` means that
  -- the fuel ran out.
  unfoldable pub undo_all :
      ℕ → RoutingSlip T A R → World → Option (Result Exception Unit × RoutingSlip T A R × World)
  undo_all zero slip w = none
  undo_all (suc fuel) slip w = elim (is_in_progress slip) [
    | false ↦ some (ok tt, slip, w)
    | true ↦
        let (r, slip', w') = undo_last slip w in
        elim r [ ok _ ↦ undo_all fuel slip' w' | raise e ↦ some (raise e, slip', w') ]
  ]

  unfoldable pub rolled_back :
      Option (Result Exception Unit × RoutingSlip T A R × World)
      → Option (Result Exception Bool × RoutingSlip T A R × World)
  rolled_back none = none
  rolled_back (some (ok _, slip, w)) = some (ok false, slip, w)
  rolled_back (some (raise e, slip, w)) = some (raise e, slip, w)

  -- `_execute_alternative`, and `_execute_branch`, which has the same text. The first number is the
  -- fuel of the loop that compensates, the second that of the loop that goes forward.
  unfoldable pub execute :
      ℕ → ℕ → RoutingSlip T A R → World → Option (Result Exception Bool × RoutingSlip T A R × World)
  unfolding undo_all rolled_back process_next
  execute undo_fuel zero slip w = none
  execute undo_fuel (suc fuel) slip w = elim (is_completed slip) [
    | true ↦ some (ok true, slip, w)
    | false ↦
        let (r, slip', w') = process_next slip w in
        elim r [
          | ok true ↦ execute undo_fuel fuel slip' w'
          | ok false ↦ rolled_back (undo_all undo_fuel slip' w')
          | raise e ↦ some (raise e, slip', w')
        ]
  ]
