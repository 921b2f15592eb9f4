-- ===== src/Saga/Fallback.antt =====
-- ascetic_ddd/saga/fallback_activity.py. A work item's argument is the list of alternatives, and a
-- work log's result is the slip that succeeded; both are taken by value. `none` means that the fuel
-- of a loop ran out.
pub mod Choice
use ascetic_ddd_python.Prelude.{ℕ, Bool, true, false, Option, none, some, List, [], ◌∷◌}
use ascetic_ddd_python.Prelude.Result.{Result, ok, raise}
use ascetic_ddd_python.Saga.{RoutingSlip, Activity, Exception, undo_all, execute}

module _ {T A R World : Type 0} (activity : Activity T A R World) where
  -- `do_work`: the slip that succeeded, or nothing.
  unfoldable pub do_work :
      ℕ
      → ℕ
      → List (RoutingSlip T A R)
      → World
      → Option (Result Exception (Option (RoutingSlip T A R)) × World)
  do_work undo_fuel fuel [] w = some (ok none, w)
  do_work undo_fuel fuel (alternative ∷ alternatives) w =
      elim (execute activity undo_fuel fuel alternative w) [
        | none ↦ none
        | some (r, slip, w') ↦ elim r [
          | ok true ↦ some (ok (some slip), w')
          | ok false ↦ do_work undo_fuel fuel alternatives w'
          | raise e ↦ some (raise e, w')
        ]
      ]

  -- `compensate`
  unfoldable pub compensate : ℕ → RoutingSlip T A R → World → Option (Result Exception Bool × World)
  compensate undo_fuel succeeded w = elim (undo_all activity undo_fuel succeeded w) [
    | none ↦ none
    | some (r, slip, w') ↦ elim r [ ok _ ↦ some (ok true, w') | raise e ↦ some (raise e, w') ]
  ]
