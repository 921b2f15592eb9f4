-- ===== src/Aggregate/Tests.antt =====
-- An account whose events are deposits, and an event type that nothing handles.
use ascetic_ddd_python.Prelude.{ℕ, ◌+◌, ◌≡◌, refl, subst, Option, none, some, [], ◌∷◌, ◌++◌, length}
use ascetic_ddd_python.Prelude.Result.{ok, raise}
use ascetic_ddd_python.Aggregate.{
  Event, Aggregate, key_error, Handlers, update, fold, clear_pending,
}
use ascetic_ddd_python.Aggregate.Replay.{
  update_all, versioned, KeepsToState, KeepToState, fold-update,
}

data Kind : Type 0 where
  deposited forgotten : Kind

abbrev handlers : Handlers Kind ℕ ℕ
handlers deposited = some (λ e a. (ok tt, record a { state = a.state + e.payload }))
handlers forgotten = none

abbrev deposit : ℕ → ℕ → Event Kind ℕ
deposit amount v = record { event_type = deposited; payload = amount; aggregate_version = v }

abbrev account : Aggregate Kind ℕ ℕ
account = record { version = 2; pending_domain_events = []; state = 30 }

abbrev richer : Aggregate Kind ℕ ℕ
richer = record { version = 4; pending_domain_events = deposit 5 3 ∷ deposit 7 4 ∷ []; state = 42 }

loads : fold handlers 0 (deposit 10 1 ∷ deposit 20 2 ∷ []) ≡ (ok tt, account)
unfolding fold
loads = refl

updates :
    update_all handlers (deposit 5 0 ∷ deposit 7 0 ∷ []) (clear_pending account) ≡ (ok tt, richer)
unfolding update_all update clear_pending
updates = refl

-- An event that nothing handles raises only after it was recorded.
unhandled :
    update handlers (record { event_type = forgotten; payload = 1; aggregate_version = 0 }) account
    ≡ (
      raise key_error,
      record account {
        version = 3;
        pending_domain_events =
            record { event_type = forgotten; payload = 1; aggregate_version = 3 } ∷ [];
      },
    )
unfolding update
unhandled = refl

same_handler : {A : Type 0} {h k : A} → ◌≡◌ {A = Option A} (some h) (some k) → h ≡ k
same_handler e = cc

local : KeepToState handlers
local deposited h known =
    subst KeepsToState (same_handler known)
      (record { version = λ e a. refl; pending = λ e a. refl; blind = λ e a events. refl })
local forgotten h known = cc

fold-update_example :
    (richer.pending_domain_events ≡ versioned 3 (deposit 5 0 ∷ deposit 7 0 ∷ []))
    × (4 ≡ 2 + length richer.pending_domain_events)
    × (fold handlers 0 ((deposit 10 1 ∷ deposit 20 2 ∷ []) ++ richer.pending_domain_events)
        ≡ (ok tt, clear_pending richer))
fold-update_example =
    fold-update handlers 0 (deposit 10 1 ∷ deposit 20 2 ∷ []) (deposit 5 0 ∷ deposit 7 0 ∷ [])
      account richer local loads updates
