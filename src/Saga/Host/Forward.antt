-- ===== src/Saga/Host/Forward.antt =====
-- What the hosts' forward handler sends, for work that succeeds and for work that fails.
use ascetic_ddd_python.Prelude.{
  ◌≡◌, ◌≢◌, refl, true, Option, none, some, List, [], ◌∷◌, ◌++◌, arith,
}
use ascetic_ddd_python.Prelude.Result.{Result, ok, raise}
use ascetic_ddd_python.Saga.{
  WorkItem, WorkLog, Activity, Exception, is_completed, process_next, progress_uri,
  compensation_uri,
}
use ascetic_ddd_python.Saga.Rollback.{slip_of}
use ascetic_ddd_python.Saga.Host.{sendable, process_forward_message, accepted}

module _ {T A R World : Type 0} (activity : Activity T A R World) where
  pub no_progress :
      (logs : List (WorkLog T R))
      → sendable (progress_uri activity (slip_of activity logs [])) ≡ none
  unfolding sendable progress_uri
  no_progress logs = refl

  pub progress_uri-cons :
      (logs : List (WorkLog T R)) (item : WorkItem T A) (items : List (WorkItem T A))
      → progress_uri activity (slip_of activity logs (item ∷ items))
        ≡ some (activity.work_item_queue_address item.activity_type)
  unfolding progress_uri
  progress_uri-cons logs item items = refl

  pub handle_success :
      (logs : List (WorkLog T R)) (item : WorkItem T A) (items : List (WorkItem T A))
      (log : WorkLog T R) (w w' : World)
      → activity.do_work item.activity_type item w ≡ (ok (some log), w')
      → accepted activity
          (process_forward_message activity (slip_of activity logs (item ∷ items)) w)
        ≡ (
          ok (true, sendable (progress_uri activity (slip_of activity (logs ++ log ∷ []) items))),
          slip_of activity (logs ++ log ∷ []) items,
          w',
        )
  unfolding process_forward_message accepted process_next is_completed
  handle_success logs item items log w w' e = ground arith

  pub handle_failure :
      (logs : List (WorkLog T R)) (item : WorkItem T A) (items : List (WorkItem T A))
      (r : Result Exception (Option (WorkLog T R))) (w w' : World)
      → activity.do_work item.activity_type item w ≡ (r, w')
      → ((log : WorkLog T R) → r ≢ ok (some log))
      → accepted activity
          (process_forward_message activity (slip_of activity logs (item ∷ items)) w)
        ≡ (
          ok (true, sendable (compensation_uri activity (slip_of activity logs items))),
          slip_of activity logs items,
          w',
        )
  unfolding process_forward_message accepted process_next is_completed
  handle_failure logs item items (ok (some log)) w w' e unfinished = absurd (unfinished log refl)
  handle_failure logs item items (ok none) w w' e unfinished = ground arith
  handle_failure logs item items (raise x) w w' e unfinished = ground arith
