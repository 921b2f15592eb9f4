-- ===== src/Saga/Host/Backward.antt =====
-- The messages of the way back: each is handled by undoing one log, until none is left.
use ascetic_ddd_python.Prelude.{
  ℕ, zero, suc, ◌<◌, ◌≡◌, ◌≢◌, refl, String, eq_iff, true, none, some, List, [], ◌∷◌, ◌++◌, length,
  length-append, pop, pop-snoc, arith,
}
use ascetic_ddd_python.Prelude.Result.{ok}
use ascetic_ddd_python.Saga.{WorkItem, WorkLog, Activity, compensation_uri}
use ascetic_ddd_python.Saga.Rollback.{
  Trail, start, append, slip_of, undo_last-snoc, is_in_progress-snoc,
}
use ascetic_ddd_python.Saga.Host.{sendable, process_backward_message, accepted}
use ascetic_ddd_python.Saga.Host.Broker.{run, IsAddressed, deliver-compensation}

module _ {T A R World : Type 0} (activity : Activity T A R World) {hosts : List T}
    (addressed : IsAddressed activity hosts) where
  pub sendable-ne_empty : (uri : String) → uri ≢ "" → sendable (some uri) ≡ some uri
  unfolding sendable
  sendable-ne_empty uri h = ground (arith, eq_iff uri "")

  compensation_uri-snoc :
      (logs : List (WorkLog T R)) (log : WorkLog T R) (items : List (WorkItem T A))
      → compensation_uri activity (slip_of activity (logs ++ log ∷ []) items)
        ≡ some (activity.compensation_queue_address log.activity_type)
  unfolding compensation_uri
  compensation_uri-snoc logs log items = rw (compensation_uri, pop-snoc logs log) refl

  no_compensation :
      (items : List (WorkItem T A))
      → sendable (compensation_uri activity (slip_of activity [] items)) ≡ none
  unfolding sendable compensation_uri pop
  no_compensation items = refl

  handle_backward :
      (logs : List (WorkLog T R)) (log : WorkLog T R) (items : List (WorkItem T A)) (w w' : World)
      → activity.compensate log.activity_type log (slip_of activity logs items) w'
        ≡ (ok true, slip_of activity logs items, w)
      → accepted activity
          (process_backward_message activity (slip_of activity (logs ++ log ∷ []) items) w')
        ≡ (
          ok (true, sendable (compensation_uri activity (slip_of activity logs items))),
          slip_of activity logs items,
          w,
        )
  unfolding process_backward_message accepted
  handle_backward logs log items w w' back = ground (
    arith,
    is_in_progress-snoc activity logs log items,
    undo_last-snoc activity logs log items w',
  )

  pub run_backward :
      (fuel : ℕ) {w₀ : World} {logs : List (WorkLog T R)} {w : World} (items : List (WorkItem T A))
      → Trail activity w₀ logs w
      → length logs < fuel
      → run activity fuel hosts
          (sendable (compensation_uri activity (slip_of activity logs items)))
          (slip_of activity logs items)
          w
        ≡ some (ok tt, slip_of activity [] items, w₀)
  unfolding run
  run_backward zero items t h = absurd (omega arith)
  run_backward (suc fuel) items start h = rw (no_compensation items)
  run_backward (suc fuel) items
        (append {logs = logs} {logs' = logs'} {w = w} {w' = w'} log t e back) h =
      let u = log.activity_type in
      ground (
        arith,
        compensation_uri-snoc logs log items,
        sendable-ne_empty (activity.compensation_queue_address u)
            (addressed.compensation_address u),
        deliver-compensation activity addressed u (slip_of activity logs' items) w'
            (addressed.hosted u),
        handle_backward logs log items w w' (back (slip_of activity logs items)),
        length-append logs (log ∷ []),
        run_backward fuel items t,
      )
