-- ===== src/Saga/Fallback/Choice.antt =====
-- What the fallback activity chooses, and that it can be undone like the activities it is made of.
use ascetic_ddd_python.Prelude.{
  ℕ, ◌<◌, ◌≡◌, refl, true, Option, none, some, List, [], ◌∷◌, map, length, arith,
}
use ascetic_ddd_python.Prelude.Result.{Result, ok}
use ascetic_ddd_python.Saga.{WorkItem, RoutingSlip, Activity, Exception, init, execute}
use ascetic_ddd_python.Saga.Rollback.{
  IsUndoable, completed, undone, execute_all_or_nothing, undo_all-execute,
}
use ascetic_ddd_python.Saga.Fallback.{do_work, compensate}

module _ {T A R World : Type 0} (activity : Activity T A R World) (undo_fuel fuel : ℕ) where
  -- The plan of the fallback: try each list of items in the world where the activity began, and keep
  -- the first that runs to its end.
  pub first_success : List (List (WorkItem T A)) → World → Option (RoutingSlip T A R × World)
  first_success [] w = none
  first_success (items ∷ rest) w =
      let later = first_success rest w in
      elim (execute activity undo_fuel fuel (init items) w) [
        | some (ok true, slip, w') ↦ some (slip, w')
        | _ ↦ later
      ]

  pub outcome :
      Option (RoutingSlip T A R × World)
      → World
      → Result Exception (Option (RoutingSlip T A R)) × World
  outcome none w = (ok none, w)
  outcome (some (slip, w')) w = (ok (some slip), w')

  -- Every alternative has fewer items than either fuel.
  abbrev pub Fits : List (List (WorkItem T A)) → Type 0
  Fits [] = Unit
  Fits (items ∷ rest) = (length items < undo_fuel) × (length items < fuel) × Fits rest

-- With alternatives that can be undone, the fallback comes to an end without raising. It succeeds
-- with the first alternative that succeeds when run alone in the world where the fallback began, and
-- leaves the world as that run does; if there is none it fails, and the world is as it was.
pub do_work-first_success :
    {T A R World : Type 0} (activity : Activity T A R World)
    → IsUndoable activity
    → (undo_fuel fuel : ℕ) (alternatives : List (List (WorkItem T A))) (w : World)
    → Fits activity undo_fuel fuel alternatives
    → do_work activity undo_fuel fuel (map init alternatives) w
      ≡ some
          (outcome activity undo_fuel fuel (first_success activity undo_fuel fuel alternatives w) w)
unfolding do_work first_success outcome
do_work-first_success activity undoable undo_fuel fuel [] w h = refl
do_work-first_success activity undoable undo_fuel fuel (items ∷ rest) w h =
    elim (execute_all_or_nothing activity undoable undo_fuel fuel items w h.0 h.1) [
      | completed logs w' p n t ↦ ground (arith, p)
      | undone left p l ↦
          ground (arith, p, do_work-first_success activity undoable undo_fuel fuel rest w h.2)
    ]

-- With alternatives that can be undone, the fallback can be undone like its parts: compensating the slip that it succeeded with
-- takes the world back to where the fallback began, and reports success.
pub compensate-do_work :
    {T A R World : Type 0} (activity : Activity T A R World)
    → IsUndoable activity
    → (undo_fuel fuel : ℕ) (alternatives : List (List (WorkItem T A))) (w w' : World)
      (slip : RoutingSlip T A R)
    → Fits activity undo_fuel fuel alternatives
    → do_work activity undo_fuel fuel (map init alternatives) w ≡ some (ok (some slip), w')
    → compensate activity undo_fuel slip w' ≡ some (ok true, w)
unfolding do_work compensate
compensate-do_work activity undoable undo_fuel fuel [] w w' slip h e = ground (arith, e)
compensate-do_work activity undoable undo_fuel fuel (items ∷ rest) w w' slip h e =
    elim (execute_all_or_nothing activity undoable undo_fuel fuel items w h.0 h.1) [
      | completed logs v p n t ↦
          ground
            (arith, p, e, undo_all-execute activity undoable undo_fuel fuel items w w' slip h.0 h.1)
      | undone left p l ↦
          compensate-do_work activity undoable undo_fuel fuel rest w w' slip h.2 (ground (arith, p))
    ]
