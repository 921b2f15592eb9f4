-- ===== src/Saga/Host.antt =====
-- ascetic_ddd/saga/activity_host.py. The callback `send` is always the last call of a handler, so a
-- handler returns what it hands to `send`, if it calls it: an address and, beside it, the slip.
pub mod Broker
mod Forward
mod Backward
pub mod Refinement
use ascetic_ddd_python.Prelude.{
  ℕ, zero, suc, String, str_eq, Bool, true, false, Option, none, some, List, [], ◌∷◌, if◌then◌else◌,
}
use ascetic_ddd_python.Prelude.Result.{Result, ok, raise}
use ascetic_ddd_python.Saga.{
  RoutingSlip, Activity, Exception, is_completed, is_in_progress, process_next, undo_last,
  progress_uri, compensation_uri,
}

-- `if uri:` is false for None and for the empty text.
unfoldable pub sendable : Option String → Option String
sendable none = none
sendable (some uri) = if str_eq uri "" then none else some uri

module _ {T A R World : Type 0} (activity : Activity T A R World) where
  abbrev pub Handled : Type 0 → Type 0
  Handled B = Result Exception B × RoutingSlip T A R × World

  unfoldable pub process_forward_message : RoutingSlip T A R → World → Handled (Option String)
  unfolding sendable
  process_forward_message slip w = elim (is_completed slip) [
    | true ↦ (ok none, slip, w)
    | false ↦
        let (r, slip', w') = process_next activity slip w in
        elim r [
          | ok true ↦ (ok (sendable (progress_uri activity slip')), slip', w')
          | ok false ↦ (ok (sendable (compensation_uri activity slip')), slip', w')
          | raise e ↦ (raise e, slip', w')
        ]
  ]

  unfoldable pub process_backward_message : RoutingSlip T A R → World → Handled (Option String)
  unfolding sendable
  process_backward_message slip w = elim (is_in_progress slip) [
    | false ↦ (ok none, slip, w)
    | true ↦
        let (r, slip', w') = undo_last activity slip w in
        elim r [
          | ok true ↦ (ok (sendable (compensation_uri activity slip')), slip', w')
          | ok false ↦ (ok (sendable (progress_uri activity slip')), slip', w')
          | raise e ↦ (raise e, slip', w')
        ]
  ]

  -- A handled message comes back as what was sent.
  unfoldable pub accepted : Handled (Option String) → Handled (Bool × Option String)
  accepted (ok sent, slip, w) = (ok (true, sent), slip, w)
  accepted (raise e, slip, w) = (raise e, slip, w)

  -- `accept_message` of the host for the activity type `t`: whether it took the message, and what
  -- it sent.
  unfoldable pub accept_message :
      T → String → RoutingSlip T A R → World → Handled (Bool × Option String)
  accept_message t uri slip w =
      if str_eq (activity.compensation_queue_address t) uri
      then accepted (process_backward_message slip w)
      else if str_eq (activity.work_item_queue_address t) uri
      then accepted (process_forward_message slip w)
      else (ok (false, none), slip, w)
