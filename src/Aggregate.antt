-- ===== src/Aggregate.antt =====
-- seedwork/domain/aggregate: `VersionedAggregate`, `EventiveEntity` and `EventSourcedAggregate` as one
-- object with its three layers of fields. The state of a concrete aggregate, the content of its events
-- and their handlers are the application's, and so parameters.
pub mod Replay
mod Tests
use ascetic_ddd_python.Prelude.{ℕ, ◌+◌, Option, none, some, List, [], ◌∷◌, ◌++◌}
use ascetic_ddd_python.Prelude.Result.{Result, ok, raise}

pub record Event (T P : Type 0) : Type 0 where
  pub event_type : T
  pub payload : P
  pub aggregate_version : ℕ

pub record Aggregate (T P S : Type 0) : Type 0 where
  pub version : ℕ
  pub pending_domain_events : List (Event T P)
  pub state : S

pub data Error : Type 0 where
  key_error handler_error : Error

module _ {T P S : Type 0} where
  unfoldable pub next_version : Aggregate T P S → Aggregate T P S × ℕ
  next_version a = (record a { version = a.version + 1 }, a.version + 1)

  -- The setter of `version`.
  unfoldable pub set_version : ℕ → Aggregate T P S → Aggregate T P S
  set_version v a = record a { version = v }

  unfoldable pub add_domain_event : Event T P → Aggregate T P S → Aggregate T P S
  add_domain_event e a = record a { pending_domain_events = a.pending_domain_events ++ e ∷ [] }

  -- The deleter of `pending_domain_events`.
  unfoldable pub clear_pending : Aggregate T P S → Aggregate T P S
  clear_pending a = record a { pending_domain_events = [] }

  -- `_make_empty`: version 0, no pending events, and the application's empty state.
  unfoldable pub make_empty : S → Aggregate T P S
  make_empty s = record { version = 0; pending_domain_events = []; state = s }

-- The table of handlers; a handler gets the whole aggregate, changes it, and may raise.
abbrev pub Handlers : Type 0 → Type 0 → Type 0 → Type 0
Handlers T P S = T → Option (Event T P → Aggregate T P S → Result Error Unit × Aggregate T P S)

module _ {T P S : Type 0} (handlers : Handlers T P S) where
  -- `self._handlers[type(event)](self, event)`
  unfoldable pub handle : Event T P → Aggregate T P S → Result Error Unit × Aggregate T P S
  handle e a = elim (handlers e.event_type) [ none ↦ (raise key_error, a) | some h ↦ h e a ]

  unfoldable pub load_from :
      List (Event T P) → Aggregate T P S → Result Error Unit × Aggregate T P S
  unfolding handle set_version
  load_from [] a = (ok tt, a)
  load_from (e ∷ past_events) a =
      let (r, a') = handle e (set_version e.aggregate_version a) in
      elim r [ ok _ ↦ load_from past_events a' | raise x ↦ (raise x, a') ]

  unfoldable pub update : Event T P → Aggregate T P S → Result Error Unit × Aggregate T P S
  unfolding handle add_domain_event next_version
  update e a =
      let (a', v) = next_version a in
      let e' = record e { aggregate_version = v } in handle e' (add_domain_event e' a')

  unfoldable pub fold : S → List (Event T P) → Result Error Unit × Aggregate T P S
  unfolding load_from make_empty
  fold empty past_events = load_from past_events (make_empty empty)
