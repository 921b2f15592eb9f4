-- ===== src/Saga/Rollback.antt =====
-- All or nothing: a slip whose activities can be undone runs to its end, or leaves no trace.
use ascetic_ddd_python.Prelude.{
  ℕ, zero, suc, ◌+◌, ◌<◌, ◌≡◌, ◌≢◌, refl, Bool, true, false, Option, none, some, List, [], ◌∷◌,
  ◌++◌, length, length-append, pop-snoc, arith,
}
use ascetic_ddd_python.Prelude.Result.{Result, ok, raise}
use ascetic_ddd_python.Saga.{
  WorkItem, WorkLog, RoutingSlip, Activity, Exception, init, is_completed, is_in_progress,
  undo_last, undo_all, execute,
}

-- What makes the activities of a slip undoable: compensating the log of a piece of work takes the
-- world back to where the work began, reports success and leaves the slip alone; work that fails or
-- raises has changed nothing.
pub record IsUndoable {T A R World : Type 0} (activity : Activity T A R World) : Type 0 where
  pub undoes :
      (item : WorkItem T A) (w w' : World) (log : WorkLog T R) (slip : RoutingSlip T A R)
      → activity.do_work item.activity_type item w ≡ (ok (some log), w')
      → activity.compensate log.activity_type log slip w' ≡ (ok true, slip, w)
  pub failure_is_clean :
      (item : WorkItem T A) (w w' : World)
      → activity.do_work item.activity_type item w ≡ (ok none, w')
      → w' ≡ w
  pub raise_is_clean :
      (item : WorkItem T A) (w w' : World) (e : Exception)
      → activity.do_work item.activity_type item w ≡ (raise e, w')
      → w' ≡ w

pub data WorkCases {L World : Type 0} (r : Result Exception (Option L) × World) : Type 0 where
  succeeded : (log : L) (w : World) → r ≡ (ok (some log), w) → WorkCases r
  failed : (w : World) → r ≡ (ok none, w) → WorkCases r
  raised : (e : Exception) (w : World) → r ≡ (raise e, w) → WorkCases r

pub work-cases : {L World : Type 0} (r : Result Exception (Option L) × World) → WorkCases r
work-cases (ok (some log), w) = succeeded log w refl
work-cases (ok none, w) = failed w refl
work-cases (raise e, w) = raised e w refl

module _ {T A R World : Type 0} (activity : Activity T A R World) where
  -- The logs lead from the world `w₀` to another, and each can be compensated from where it ends.
  pub data Trail (w₀ : World) : List (WorkLog T R) → World → Type 0 where
    start : Trail w₀ [] w₀
    append :
        {logs logs' : List (WorkLog T R)} {w w' : World} (log : WorkLog T R)
        → Trail w₀ logs w
        → logs' ≡ logs ++ log ∷ []
        → ((slip : RoutingSlip T A R)
            → activity.compensate log.activity_type log slip w' ≡ (ok true, slip, w))
        → Trail w₀ logs' w'

  abbrev pub slip_of : List (WorkLog T R) → List (WorkItem T A) → RoutingSlip T A R
  slip_of logs items = record { completed_work_logs = logs; next_work_items = items }

  pub is_in_progress-snoc :
      (logs : List (WorkLog T R)) (log : WorkLog T R) (items : List (WorkItem T A))
      → is_in_progress (slip_of (logs ++ log ∷ []) items) ≡ true
  unfolding is_in_progress
  is_in_progress-snoc [] log items = refl
  is_in_progress-snoc (l ∷ logs) log items = refl

  pub undo_last-snoc :
      (logs : List (WorkLog T R)) (log : WorkLog T R) (items : List (WorkItem T A)) (w : World)
      → undo_last activity (slip_of (logs ++ log ∷ []) items) w
        ≡ activity.compensate log.activity_type log (slip_of logs items) w
  unfolding undo_last
  undo_last-snoc logs log items w = rw (undo_last, pop-snoc logs log) refl

  -- The loop takes the world back along the trail, newest work first, and empties the logs.
  pub undo_all-Trail :
      (fuel : ℕ) {w₀ : World} {logs : List (WorkLog T R)} {w : World} (items : List (WorkItem T A))
      → Trail w₀ logs w
      → length logs < fuel
      → undo_all activity fuel (slip_of logs items) w ≡ some (ok tt, slip_of [] items, w₀)
  unfolding undo_all
  undo_all-Trail zero items t h = absurd (omega arith)
  undo_all-Trail (suc fuel) items start h = unfold is_in_progress in refl
  undo_all-Trail (suc fuel) items
        (append {logs = logs} {logs' = logs'} {w = w} {w' = w'} log t e back) h =
      ground (
        arith,
        is_in_progress-snoc logs log items,
        undo_last-snoc logs log items w',
        back (slip_of logs items),
        length-append logs (log ∷ []),
        undo_all-Trail fuel items t,
      )

  -- How a slip with enough fuel ends, if it began in the world `w₀`, has `n` items in all and comes
  -- to `r`: either every item has its log, or the logs are gone and the world is `w₀` again.
  pub data Ends (w₀ : World) (n : ℕ)
      (r : Option (Result Exception Bool × RoutingSlip T A R × World)) : Type 0 where
    completed :
        (logs : List (WorkLog T R)) (w : World)
        → r ≡ some (ok true, record { completed_work_logs = logs; next_work_items = [] }, w)
        → length logs ≡ n
        → Trail w₀ logs w
        → Ends w₀ n r
    undone :
        (items : List (WorkItem T A))
        → r ≡ some (ok false, record { completed_work_logs = []; next_work_items = items }, w₀)
        → length items < n
        → Ends w₀ n r

  module _ (undoable : IsUndoable activity) where
    -- A failure, by whichever way it shows, sends the slip back along its trail.
    pub execute_fails :
        (undo_fuel fuel : ℕ) {w₀ : World} {logs : List (WorkLog T R)} {w : World}
        (item : WorkItem T A) (items : List (WorkItem T A))
        (r : Result Exception (Option (WorkLog T R))) (w' : World)
        → Trail w₀ logs w
        → length logs < undo_fuel
        → activity.do_work item.activity_type item w ≡ (r, w')
        → w' ≡ w
        → ((log : WorkLog T R) → r ≢ ok (some log))
        → execute activity undo_fuel (suc fuel) (slip_of logs (item ∷ items)) w
          ≡ some (ok false, slip_of [] items, w₀)
    unfolding execute is_completed
    execute_fails undo_fuel fuel item items (ok (some log)) w' t h e same unfinished =
        absurd (unfinished log refl)
    execute_fails undo_fuel fuel item items (ok none) w' t h e same unfinished =
        ground (arith, undo_all-Trail undo_fuel items t)
    execute_fails undo_fuel fuel item items (raise x) w' t h e same unfinished =
        ground (arith, undo_all-Trail undo_fuel items t)

    pub execute_works :
        (undo_fuel fuel : ℕ) (logs : List (WorkLog T R)) (w : World) (item : WorkItem T A)
        (items : List (WorkItem T A)) (log : WorkLog T R) (w' : World)
        → activity.do_work item.activity_type item w ≡ (ok (some log), w')
        → execute activity undo_fuel (suc fuel) (slip_of logs (item ∷ items)) w
          ≡ execute activity undo_fuel fuel (slip_of (logs ++ log ∷ []) items) w'
    unfolding execute is_completed
    execute_works undo_fuel fuel logs w item items log w' e = ground arith

    pub execute-Ends :
        (undo_fuel fuel : ℕ) {w₀ : World} {logs : List (WorkLog T R)} {w : World}
        (items : List (WorkItem T A)) (n : ℕ)
        → Trail w₀ logs w
        → length items < fuel
        → length logs + length items < undo_fuel
        → length logs + length items ≡ n
        → Ends w₀ n (execute activity undo_fuel fuel (slip_of logs items) w)
    unfolding execute is_completed
    execute-Ends undo_fuel zero items n t h k e = absurd (omega arith)
    execute-Ends undo_fuel (suc fuel) {logs = logs} {w = w} [] n t h k e =
        completed logs w refl (omega arith) t
    execute-Ends undo_fuel (suc fuel) {w₀} {logs} {w} (item ∷ items) n t h k e =
        elim (work-cases (activity.do_work item.activity_type item w)) [
          | succeeded log w' p ↦ rw (execute_works undo_fuel fuel logs w item items log w' p) (
              execute-Ends undo_fuel fuel {logs = logs ++ log ∷ []} items n
                (append log t refl (λ slip. undoable.undoes item w w' log slip p)) (omega arith)
                (omega (arith, length-append logs (log ∷ [])))
                (omega (arith, length-append logs (log ∷ []))))
          | failed w' p ↦
              undone items
                (execute_fails undo_fuel fuel item items (ok none) w' t (omega arith) p
                  (undoable.failure_is_clean item w w' p) (λ log. cc))
                (omega arith)
          | raised x w' p ↦
              undone items
                (execute_fails undo_fuel fuel item items (raise x) w' t (omega arith) p
                  (undoable.raise_is_clean item w w' x p) (λ log. cc))
                (omega arith)
        ]

-- If its activities can be undone, a new slip of a saga either runs to the end, with a log for each
-- item and a trail from its first world to its last, or is rolled back: no log is left, and the
-- world is the first one. Fuel beyond the number of items is enough for both loops.
pub execute_all_or_nothing :
    {T A R World : Type 0} (activity : Activity T A R World)
    → IsUndoable activity
    → (undo_fuel fuel : ℕ) (items : List (WorkItem T A)) (w : World) → length items < undo_fuel
    → length items < fuel
    → Ends activity w (length items) (execute activity undo_fuel fuel (init items) w)
unfolding init
execute_all_or_nothing activity undoable undo_fuel fuel items w h k =
    execute-Ends activity undoable undo_fuel fuel items (length items) start k (omega arith)
      (omega arith)

-- A saga of activities that can be undone, and that ran to its end, can still be undone as a whole:
-- the compensating loop takes the world back to where the saga began.
pub undo_all-execute :
    {T A R World : Type 0} (activity : Activity T A R World)
    → IsUndoable activity
    → (undo_fuel fuel : ℕ) (items : List (WorkItem T A)) (w w' : World) (slip : RoutingSlip T A R)
    → length items < undo_fuel
    → length items < fuel
    → execute activity undo_fuel fuel (init items) w ≡ some (ok true, slip, w')
    → undo_all activity undo_fuel slip w' ≡ some (ok tt, init [], w)
unfolding init
undo_all-execute activity undoable undo_fuel fuel items w w' slip h k e =
    elim (execute_all_or_nothing activity undoable undo_fuel fuel items w h k) [
      | completed logs v p n t ↦
          let q = undo_all-Trail activity undo_fuel [] t (omega arith) in ground (arith, e, p, q)
      | undone rest p l ↦ ground (arith, e, p)
    ]
