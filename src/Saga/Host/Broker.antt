-- ===== src/Saga/Host/Broker.antt =====
-- Hosts behind a broker: the messages of a saga go round until none is in flight. The broker is not
-- part of the library; `deliver` offers a message to the hosts in turn, until one accepts it.
use ascetic_ddd_python.Prelude.{
  ℕ, zero, suc, ◌≡◌, ◌≢◌, refl, sym, String, str-cases, eq_iff, Bool, true, false, inl, inr, Option,
  none, some, List, [], ◌∷◌, arith,
}
use ascetic_ddd_python.Prelude.Result.{Result, ok, raise}
use ascetic_ddd_python.Saga.{RoutingSlip, Activity, Exception}
use ascetic_ddd_python.Saga.Host.{
  Handled, process_forward_message, process_backward_message, accepted, accept_message,
}

module _ {T A R World : Type 0} (activity : Activity T A R World) where
  -- A message that a host took is not offered to the next.
  pub offer :
      Handled activity (Bool × Option String)
      → (RoutingSlip T A R → World → Handled activity (Bool × Option String))
      → Handled activity (Bool × Option String)
  offer (ok (true, sent), slip, w) next = (ok (true, sent), slip, w)
  offer (ok (false, sent), slip, w) next = next slip w
  offer (raise e, slip, w) next = (raise e, slip, w)

  unfoldable pub deliver :
      List T → String → RoutingSlip T A R → World → Handled activity (Bool × Option String)
  unfolding offer
  deliver [] uri slip w = (ok (false, none), slip, w)
  deliver (t ∷ hosts) uri slip w = offer (accept_message activity t uri slip w) (deliver hosts uri)

  -- One round for each message; `none` means that the fuel ran out.
  unfoldable pub run :
      ℕ
      → List T
      → Option String
      → RoutingSlip T A R
      → World
      → Option (Result Exception Unit × RoutingSlip T A R × World)
  run zero hosts message slip w = none
  run (suc fuel) hosts none slip w = some (ok tt, slip, w)
  run (suc fuel) hosts (some uri) slip w =
      let (r, slip', w') = deliver hosts uri slip w in
      elim r [
        | ok (took, sent) ↦ run fuel hosts sent slip' w'
        | raise e ↦ some (raise e, slip', w')
      ]

  -- The end of a local run, seen by those who only see that the saga came to rest.
  unfoldable pub settled :
      Option (Result Exception Bool × RoutingSlip T A R × World)
      → Option (Result Exception Unit × RoutingSlip T A R × World)
  settled none = none
  settled (some (ok _, slip, w)) = some (ok tt, slip, w)
  settled (some (raise e, slip, w)) = some (raise e, slip, w)

  pub data Listed (t : T) : List T → Type 0 where
    here : {ts : List T} → Listed t (t ∷ ts)
    there : {u : T} {ts : List T} → Listed t ts → Listed t (u ∷ ts)

  -- Every activity type has a host, no address is empty, and work and compensations do not share one.
  pub record IsAddressed (hosts : List T) : Type 0 where
    pub hosted : (t : T) → Listed t hosts
    pub apart :
        (t u : T) → activity.compensation_queue_address t ≢ activity.work_item_queue_address u
    pub work_address : (t : T) → activity.work_item_queue_address t ≢ ""
    pub compensation_address : (t : T) → activity.compensation_queue_address t ≢ ""

  module _ (t : T) (uri : String) (slip : RoutingSlip T A R) (w : World) where
    accept_message-backward :
        activity.compensation_queue_address t ≡ uri
        → accept_message activity t uri slip w
          ≡ accepted activity (process_backward_message activity slip w)
    unfolding accept_message
    accept_message-backward h = rw ((eq_iff (activity.compensation_queue_address t) uri).1 h)

    accept_message-forward :
        activity.compensation_queue_address t ≢ uri
        → activity.work_item_queue_address t ≡ uri
        → accept_message activity t uri slip w
          ≡ accepted activity (process_forward_message activity slip w)
    unfolding accept_message
    accept_message-forward h k = ground (
      arith,
      eq_iff (activity.compensation_queue_address t) uri,
      eq_iff (activity.work_item_queue_address t) uri,
    )

    accept_message-refuse :
        activity.compensation_queue_address t ≢ uri
        → activity.work_item_queue_address t ≢ uri
        → accept_message activity t uri slip w ≡ (ok (false, none), slip, w)
    unfolding accept_message
    accept_message-refuse h k = ground (
      arith,
      eq_iff (activity.compensation_queue_address t) uri,
      eq_iff (activity.work_item_queue_address t) uri,
    )

  offer-accepted :
      (h : Handled activity (Option String))
      (next : RoutingSlip T A R → World → Handled activity (Bool × Option String))
      → offer (accepted activity h) next ≡ accepted activity h
  unfolding offer accepted
  offer-accepted (ok sent, slip, w) next = refl
  offer-accepted (raise e, slip, w) next = refl

  module _ {hosts : List T} (addressed : IsAddressed hosts) where
    pub deliver-work :
        (t : T) {hs : List T} (slip : RoutingSlip T A R) (w : World)
        → Listed t hs
        → deliver hs (activity.work_item_queue_address t) slip w
          ≡ accepted activity (process_forward_message activity slip w)
    unfolding deliver
    deliver-work t slip w here =
        rw (accept_message-forward t _ slip w (addressed.apart t t) refl) (offer-accepted _ _)
    deliver-work t slip w (there {u = u} l) =
        elim (str-cases (activity.work_item_queue_address u) (activity.work_item_queue_address t)) [
          | inl same ↦
              rw (accept_message-forward u _ slip w (addressed.apart u t) same) (offer-accepted _ _)
          | inr other ↦
              rw (accept_message-refuse u _ slip w (addressed.apart u t) other)
                (deliver-work t slip w l)
        ]

    pub deliver-compensation :
        (t : T) {hs : List T} (slip : RoutingSlip T A R) (w : World)
        → Listed t hs
        → deliver hs (activity.compensation_queue_address t) slip w
          ≡ accepted activity (process_backward_message activity slip w)
    unfolding deliver
    deliver-compensation t slip w here =
        rw (accept_message-backward t _ slip w refl) (offer-accepted _ _)
    deliver-compensation t slip w (there {u = u} l) =
        elim (str-cases (activity.compensation_queue_address u)
          (activity.compensation_queue_address t)) [
            | inl same ↦ rw (accept_message-backward u _ slip w same) (offer-accepted _ _)
            | inr other ↦
                rw (accept_message-refuse u _ slip w other (λ e. addressed.apart t u (sym e)))
                  (deliver-compensation t slip w l)
          ]
