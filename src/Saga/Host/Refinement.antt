-- ===== src/Saga/Host/Refinement.antt =====
-- The message-driven saga refines the local loop `execute`.
use ascetic_ddd_python.Prelude.{
  ℕ, zero, suc, ◌+◌, ◌*◌, ◌<◌, ◌≡◌, ◌≢◌, refl, Option, none, some, List, [], ◌∷◌, ◌++◌, length,
  length-append, arith,
}
use ascetic_ddd_python.Prelude.Result.{Result, ok, raise}
use ascetic_ddd_python.Saga.{
  WorkItem, WorkLog, Activity, Exception, init, is_completed, progress_uri, execute,
}
use ascetic_ddd_python.Saga.Rollback.{
  IsUndoable, Trail, start, append, slip_of, execute_fails, execute_works, work-cases, succeeded,
  failed, raised,
}
use ascetic_ddd_python.Saga.Host.{sendable}
use ascetic_ddd_python.Saga.Host.Broker.{run, settled, IsAddressed, deliver-work}
use ascetic_ddd_python.Saga.Host.Forward.{
  no_progress, progress_uri-cons, handle_success, handle_failure,
}
use ascetic_ddd_python.Saga.Host.Backward.{sendable-ne_empty, run_backward}

module _ {T A R World : Type 0} (activity : Activity T A R World) {hosts : List T}
    (addressed : IsAddressed activity hosts) where
  module _ (undoable : IsUndoable activity) (undo_fuel : ℕ) where
    -- A failed piece of work: one message forward, and then the way back.
    run_failure :
        (fuel rounds : ℕ) {w₀ : World} {logs : List (WorkLog T R)} {w : World} (item : WorkItem T A)
        (items : List (WorkItem T A)) (r : Result Exception (Option (WorkLog T R))) (w' : World)
        → Trail activity w₀ logs w
        → length logs < fuel
        → length logs < undo_fuel
        → activity.do_work item.activity_type item w ≡ (r, w')
        → w' ≡ w
        → ((log : WorkLog T R) → r ≢ ok (some log))
        → run activity
            (suc fuel)
            hosts
            (sendable (progress_uri activity (slip_of activity logs (item ∷ items))))
            (slip_of activity logs (item ∷ items))
            w
          ≡ settled activity
              (execute activity undo_fuel (suc rounds) (slip_of activity logs (item ∷ items)) w)
    unfolding run settled
    run_failure fuel rounds {w₀} {logs} {w} item items r w' t h k e same unfinished =
        let u = item.activity_type in
        ground (
          arith,
          progress_uri-cons activity logs item items,
          sendable-ne_empty activity addressed (activity.work_item_queue_address u)
              (addressed.work_address u),
          deliver-work activity addressed u (slip_of activity logs (item ∷ items)) w
              (addressed.hosted u),
          handle_failure activity logs item items r w w' e unfinished,
          run_backward activity addressed fuel items t h,
          execute_fails activity undoable undo_fuel rounds item items r w' t k e same unfinished,
        )

    run_success :
        (fuel rounds : ℕ) (logs : List (WorkLog T R)) (w : World) (item : WorkItem T A)
        (items : List (WorkItem T A)) (log : WorkLog T R) (w' : World)
        → activity.do_work item.activity_type item w ≡ (ok (some log), w')
        → run activity fuel hosts
            (sendable (progress_uri activity (slip_of activity (logs ++ log ∷ []) items)))
            (slip_of activity (logs ++ log ∷ []) items)
            w'
          ≡ settled activity
              (execute activity undo_fuel rounds (slip_of activity (logs ++ log ∷ []) items) w')
        → run activity
            (suc fuel)
            hosts
            (sendable (progress_uri activity (slip_of activity logs (item ∷ items))))
            (slip_of activity logs (item ∷ items))
            w
          ≡ settled activity
              (execute activity undo_fuel (suc rounds) (slip_of activity logs (item ∷ items)) w)
    unfolding run
    run_success fuel rounds logs w item items log w' e later =
        let u = item.activity_type in
        ground (
          arith,
          progress_uri-cons activity logs item items,
          sendable-ne_empty activity addressed (activity.work_item_queue_address u)
              (addressed.work_address u),
          deliver-work activity addressed u (slip_of activity logs (item ∷ items)) w
              (addressed.hosted u),
          handle_success activity logs item items log w w' e,
          execute_works activity undoable undo_fuel rounds logs w item items log w' e,
        )

    run-execute_from :
        (fuel rounds : ℕ) {w₀ : World} {logs : List (WorkLog T R)} {w : World}
        (items : List (WorkItem T A))
        → Trail activity w₀ logs w
        → length logs + 2 * length items < fuel
        → length items < rounds
        → length logs + length items < undo_fuel
        → run activity fuel hosts
            (sendable (progress_uri activity (slip_of activity logs items)))
            (slip_of activity logs items)
            w
          ≡ settled activity (execute activity undo_fuel rounds (slip_of activity logs items) w)
    run-execute_from fuel zero items t h k l = absurd (omega arith)
    run-execute_from zero (suc rounds) items t h k l = absurd (omega arith)
    run-execute_from (suc fuel) (suc rounds) {logs = logs} {w = w} [] t h k l =
        rw (no_progress activity logs) (unfold run settled execute is_completed in refl)
    run-execute_from (suc fuel) (suc rounds) {w₀} {logs} {w} (item ∷ items) t h k l =
        elim (work-cases (activity.do_work item.activity_type item w)) [
          | succeeded log w' p ↦ run_success fuel rounds logs w item items log w' p (
              run-execute_from fuel rounds {logs = logs ++ log ∷ []} items
                (append log t refl (λ slip. undoable.undoes item w w' log slip p))
                (omega (arith, length-append logs (log ∷ []))) (omega arith)
                (omega (arith, length-append logs (log ∷ []))))
          | failed w' p ↦
              run_failure fuel rounds item items (ok none) w' t (omega arith) (omega arith) p
                (undoable.failure_is_clean item w w' p) (λ log. cc)
          | raised x w' p ↦
              run_failure fuel rounds item items (raise x) w' t (omega arith) (omega arith) p
                (undoable.raise_is_clean item w w' x p) (λ log. cc)
        ]

-- The messages between the hosts do what the local loop does. A new slip, sent to the queue of its
-- first item, comes to rest with the same slip in the same world as `execute` gives, whether the
-- saga succeeds or is rolled back, if the activities can be undone, every activity type has a host
-- and addresses that are not empty, those for work different from those for compensation, and the
-- fuel exceeds twice the number of items.
pub run-execute :
    {T A R World : Type 0} (activity : Activity T A R World) {hosts : List T}
    → IsAddressed activity hosts
    → IsUndoable activity
    → (undo_fuel fuel rounds : ℕ) (items : List (WorkItem T A)) (w : World)
    → 2 * length items < fuel
    → length items < rounds
    → length items < undo_fuel
    → run activity fuel hosts (sendable (progress_uri activity (init items))) (init items) w
      ≡ settled activity (execute activity undo_fuel rounds (init items) w)
unfolding init
run-execute activity addressed undoable undo_fuel fuel rounds items w h k l =
    run-execute_from activity addressed undoable undo_fuel fuel rounds items start (omega arith) k
      (omega arith)
