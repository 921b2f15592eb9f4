-- ===== src/Messaging/Tests.antt =====
-- Signals, the bus and the mediator at concrete observers and handlers, which write what they are
-- called with down in a list.
use ascetic_ddd_python.Prelude.{
  Option, ℕ, ◌≤◌, ◌≡◌, refl, ◌==◌, if◌then◌else◌, none, some, List, [], ◌∷◌, ◌++◌, arith,
}
use ascetic_ddd_python.Prelude.Result.{Result, ok, raise}
use ascetic_ddd_python.Prelude.Dict
use ascetic_ddd_python.Prelude.Multisets.{count, remove_first}
use ascetic_ddd_python.Messaging.Signal
use ascetic_ddd_python.Messaging.Signal.Notification.{dispose-attach, notify-attach}
use ascetic_ddd_python.Messaging.EventBus
use ascetic_ddd_python.Messaging.EventBus.Subscriptions.{handlers, subscription_laws}
use ascetic_ddd_python.Messaging.Mediator
use ascetic_ddd_python.Messaging.Mediator.Pipelines.{
  broadcasts, added_for, add_all, nest, send-nest, send-register, recipients_laws,
}

abbrev observers : Signal.Signal ℕ
observers = (7, 7) ∷ (8, 8) ∷ []

abbrev make_id : ℕ → ℕ
make_id n = n

-- Observer 9 raises.
abbrev call : ℕ → ℕ → List ℕ → Result Signal.Error Unit × List ℕ
call o event w = if o == 9 then (raise Signal.handler_error, w) else (ok tt, w ++ o ∷ event ∷ [])

dispose-attach_example :
    Signal.dispose make_id 5 none (Signal.attach make_id 5 none observers) ≡ ok observers
dispose-attach_example =
    (dispose-attach make_id 5 none observers).0 (unfold Dict.get Signal.identity in refl)

notify-attach_example : Signal.notify call (Signal.attach make_id 5 (some 0) observers) 1 [] ≡ (
    let (r, w') = Signal.notify call observers 1 [] in
    elim r [ ok _ ↦ call 5 1 w' | raise e ↦ (raise e, w') ])
notify-attach_example =
    (notify-attach call make_id 5 (some 0) observers 1 []).0
      (unfold Dict.get Signal.identity in refl)

notify_all : Signal.notify call observers 1 [] ≡ (ok tt, 7 ∷ 1 ∷ 8 ∷ 1 ∷ [])
unfolding Signal.notify
notify_all = refl

composite_notify_raises :
    Signal.composite_notify call (observers ∷ ((9, 9) ∷ []) ∷ observers ∷ []) 1 []
    ≡ (raise Signal.handler_error, 7 ∷ 1 ∷ 8 ∷ 1 ∷ [])
unfolding Signal.composite_notify Signal.notify
composite_notify_raises = refl

composite_detach_raises :
    Signal.composite_detach make_id 8 none
      (Signal.composite_attach make_id 5 none (observers ∷ []) ++ [] ∷ observers ∷ [])
    ≡ (raise Signal.key_error, ((7, 7) ∷ (5, 5) ∷ []) ∷ [] ∷ observers ∷ [])
unfolding Signal.composite_detach Signal.composite_attach Signal.attach Signal.detach
    Signal.identity Dict.get Dict.set Dict.delete
composite_detach_raises = refl

abbrev bus : EventBus.Bus
bus = (1, 4 ∷ 5 ∷ []) ∷ []

subscription_laws_example :
    (handlers 1 (EventBus.subscribe 1 6 bus) ≡ handlers 1 bus ++ 6 ∷ [])
    × (handlers 1 (EventBus.unsubscribe 1 6 bus).1 ≡ remove_first 6 (handlers 1 bus))
    × ((count 6 (handlers 1 bus) ≡ 0
        → ((EventBus.unsubscribe 1 6 bus).0 ≡ raise EventBus.value_error)
          × (handlers 1 (EventBus.unsubscribe 1 6 bus).1 ≡ handlers 1 bus)
          × (handlers 1 (EventBus.unsubscribe 1 6 (EventBus.subscribe 1 6 bus)).1
              ≡ handlers 1 bus)))
subscription_laws_example = subscription_laws 1 6 1 bus

publish_all :
    EventBus.publish (λ handler uri event w. (ok tt, w ++ handler ∷ event ∷ [])) 1 2 bus []
    ≡ (ok tt, bus, 4 ∷ 2 ∷ 5 ∷ 2 ∷ [])
unfolding EventBus.publish EventBus.call_all EventBus.subscribers Dict.get
publish_all = refl

-- A request is its type; handler 0 has no registration.
abbrev mediator : Mediator.Mediator ℕ ℕ
mediator = record {
  subscribers = (3, 4 ∷ []) ∷ [];
  handlers = (1, 10) ∷ [];
  broadcast_pipelines = 20 ∷ 21 ∷ [];
  pipelines = (1, 22 ∷ []) ∷ [];
}

abbrev handle : ℕ → ℕ → List ℕ → Result Mediator.Error ℕ × List ℕ
handle h request w = (ok request, w ++ h ∷ [])

abbrev pass_through :
    ℕ
    → ℕ
    → (ℕ → List ℕ → Result Mediator.Error ℕ × List ℕ)
    → List ℕ
    → Result Mediator.Error ℕ × List ℕ
pass_through p request next_handler w =
    let (r, w') = next_handler request (w ++ p ∷ []) in (r, w' ++ p ∷ [])

sent :
    Mediator.send make_id handle pass_through 1 mediator []
    ≡ (ok 1, 20 ∷ 21 ∷ 22 ∷ 10 ∷ 22 ∷ 21 ∷ 20 ∷ [])
unfolding Mediator.send Mediator.execute_pipelines Mediator.wrap Mediator.create_pipeline_handler
    Mediator.entry Dict.get
sent = refl

abbrev more : List (Option ℕ × ℕ)
more = (some 1, 23) ∷ (none, 24) ∷ (some 2, 25) ∷ (some 1, 26) ∷ []

send-nest_example :
    Mediator.send make_id handle pass_through 1 (add_all more mediator) []
    ≡ nest make_id handle pass_through
        ((mediator.broadcast_pipelines ++ broadcasts more)
          ++ (Mediator.entry (make_id 1) mediator.pipelines ++ added_for (make_id 1) more))
        (handle 10)
        1
        []
send-nest_example =
    (send-nest make_id handle pass_through 1 more mediator []).1 10 (unfold Dict.get in refl)

send-register_example :
    Mediator.send make_id handle pass_through 2 (Mediator.register 2 12 mediator) []
    ≡ nest make_id handle pass_through
        (mediator.broadcast_pipelines ++ Mediator.entry (make_id 2) mediator.pipelines)
        (handle 12)
        2
        []
send-register_example = (send-register make_id handle pass_through 2 11 12 2 mediator []).0 refl

mediator_is_set : (h : ℕ) → count h (Mediator.entry 3 mediator.subscribers) ≤ 1
unfolding Mediator.entry count Dict.get
mediator_is_set h = ground arith

recipients_laws_example :
    count 4 (Mediator.entry 3 (Mediator.subscribe 3 4 mediator).subscribers) ≡ 1
recipients_laws_example = (recipients_laws 3 4 3 4 mediator mediator_is_set).0

published :
    Mediator.publish
      (λ l. l)
      (λ handler event w. (ok tt, w ++ handler ∷ []))
      make_id
      3
      (Mediator.unsubscribe 3 6 (Mediator.subscribe 3 5 mediator))
      []
    ≡ (ok tt, 4 ∷ 5 ∷ [])
unfolding Mediator.publish Mediator.call_all Mediator.unsubscribe Mediator.subscribe
    Mediator.discard Mediator.entry Dict.get Dict.set count
published = refl
