-- ===== src/Aggregate/Replay.antt =====
-- An aggregate that has been updated can be rebuilt from its events.
use ascetic_ddd_python.Prelude.{
  ℕ, suc, ◌+◌, ◌≡◌, refl, sym, ◌∙◌, ap, List, [], ◌∷◌, ◌++◌, append_assoc, append-nil, length, some,
  Option-cases, inl, inr, arith,
}
use mathlib.Core.Path.{ap₂}
use ascetic_ddd_python.Prelude.Result.{Result, ok, raise}
use ascetic_ddd_python.Aggregate.{
  Event, Aggregate, Error, Handlers, handle, set_version, load_from, update, fold, make_empty,
  clear_pending,
}

module _ {T P S : Type 0} (handlers : Handlers T P S) where
  -- The updates of a command handler, one after the other; the first exception ends them.
  unfoldable pub update_all :
      List (Event T P) → Aggregate T P S → Result Error Unit × Aggregate T P S
  update_all [] a = (ok tt, a)
  update_all (e ∷ es) a =
      let (r, a') = update handlers e a in
      elim r [ ok _ ↦ update_all es a' | raise x ↦ (raise x, a') ]

-- The events, with the versions from `v` on.
unfoldable pub versioned : {T P : Type 0} → ℕ → List (Event T P) → List (Event T P)
versioned v [] = []
versioned v (e ∷ es) = record e { aggregate_version = v } ∷ versioned (v + 1) es

module _ {T P S : Type 0} (handlers : Handlers T P S) where
  -- What a step of a loop goes on with, if it did not raise.
  abbrev proceed :
      (Aggregate T P S → Result Error Unit × Aggregate T P S)
      → Result Error Unit × Aggregate T P S
      → Result Error Unit × Aggregate T P S
  proceed next (ok _, a) = next a
  proceed next (raise x, a) = (raise x, a)

  proceed-ok :
      (next : Aggregate T P S → Result Error Unit × Aggregate T P S)
      (done : Result Error Unit × Aggregate T P S) (b : Aggregate T P S)
      → proceed next done ≡ (ok tt, b)
      → (a : Aggregate T P S) × (done ≡ (ok tt, a)) × (next a ≡ (ok tt, b))
  proceed-ok next (ok tt, a) b h = (a, refl, h)
  proceed-ok next (raise x, a) b h = cc

  load_from-cons :
      (e : Event T P) (es : List (Event T P)) (a : Aggregate T P S)
      → load_from handlers (e ∷ es) a
        ≡ proceed (load_from handlers es) (handle handlers e (set_version e.aggregate_version a))
  unfolding load_from
  load_from-cons e es a = go (handle handlers e (set_version e.aggregate_version a))
    where
      go :
          (x : Result Error Unit × Aggregate T P S)
          → ◌≡◌ {A = Result Error Unit × Aggregate T P S}
              (let (r, a') = x in
                elim r [ ok _ ↦ load_from handlers es a' | raise y ↦ (raise y, a') ])
              (proceed (load_from handlers es) x)
      go (ok tt, a') = refl
      go (raise y, a') = refl

  update_all-cons :
      (e : Event T P) (es : List (Event T P)) (a : Aggregate T P S)
      → update_all handlers (e ∷ es) a ≡ proceed (update_all handlers es) (update handlers e a)
  unfolding update_all
  update_all-cons e es a = go (update handlers e a)
    where
      go :
          (x : Result Error Unit × Aggregate T P S)
          → ◌≡◌ {A = Result Error Unit × Aggregate T P S}
              (let (r, a') = x in
                elim r [ ok _ ↦ update_all handlers es a' | raise y ↦ (raise y, a') ])
              (proceed (update_all handlers es) x)
      go (ok tt, a') = refl
      go (raise y, a') = refl

  load_from-append :
      (es fs : List (Event T P)) (a b : Aggregate T P S)
      → load_from handlers es a ≡ (ok tt, b)
      → load_from handlers (es ++ fs) a ≡ load_from handlers fs b
  load_from-append [] fs a b h = unfold load_from in ap (load_from handlers fs) (ap (λ x. x.1) h)
  load_from-append (e ∷ es) fs a b h =
      let (a', done, rest) =
        proceed-ok (load_from handlers es) _ b (sym (load_from-cons e es a) ∙ h) in
      load_from-cons e (es ++ fs) a
      ∙ ap (proceed (load_from handlers (es ++ fs))) done
      ∙ load_from-append es fs a' b rest

-- A handler that keeps to the state of the concrete aggregate: it leaves the version and the pending
-- events alone, and does not look at the pending events.
pub record KeepsToState {T P S : Type 0}
    (handler : Event T P → Aggregate T P S → Result Error Unit × Aggregate T P S) : Type 0 where
  pub version : (e : Event T P) (a : Aggregate T P S) → (handler e a).1.version ≡ a.version
  pub pending :
      (e : Event T P) (a : Aggregate T P S)
      → (handler e a).1.pending_domain_events ≡ a.pending_domain_events
  pub blind :
      (e : Event T P) (a : Aggregate T P S) (events : List (Event T P))
      → handler e (record a { pending_domain_events = events })
        ≡ ((handler e a).0, record (handler e a).1 { pending_domain_events = events })

abbrev pub KeepToState : {T P S : Type 0} → Handlers T P S → Type 0
KeepToState {T} {P} {S} handlers =
    (t : T) (h : Event T P → Aggregate T P S → Result Error Unit × Aggregate T P S)
    → handlers t ≡ some h
    → KeepsToState h

module _ {T P S : Type 0} (handlers : Handlers T P S) (local : KeepToState handlers) where
  handle-version :
      (e : Event T P) (a : Aggregate T P S) → (handle handlers e a).1.version ≡ a.version
  unfolding handle
  handle-version e a = elim (Option-cases (handlers e.event_type)) [
    | inl missing ↦ ground (arith, missing)
    | inr (h, known) ↦ ground (arith, known, (local e.event_type h known).version e a)
  ]

  handle-pending :
      (e : Event T P) (a : Aggregate T P S)
      → (handle handlers e a).1.pending_domain_events ≡ a.pending_domain_events
  unfolding handle
  handle-pending e a = elim (Option-cases (handlers e.event_type)) [
    | inl missing ↦ ground (arith, missing)
    | inr (h, known) ↦ ground (arith, known, (local e.event_type h known).pending e a)
  ]

  handle-blind :
      (e : Event T P) (a : Aggregate T P S) (events : List (Event T P))
      → handle handlers e (record a { pending_domain_events = events }) ≡ (
        (handle handlers e a).0,
        record (handle handlers e a).1 { pending_domain_events = events },
      )
  unfolding handle
  handle-blind e a events = elim (Option-cases (handlers e.event_type)) [
    | inl missing ↦ ground (arith, missing)
    | inr (h, known) ↦ ground (arith, known, (local e.event_type h known).blind e a events)
  ]

  -- One update is the loading of the event that it records, beside the recording.
  update_all-load_from :
      (es : List (Event T P)) (a b : Aggregate T P S) (pending : List (Event T P))
      → update_all handlers es a ≡ (ok tt, b)
      → (b.pending_domain_events ≡ a.pending_domain_events ++ versioned (a.version + 1) es)
        × (b.version ≡ a.version + length es)
        × (load_from handlers
              (versioned (a.version + 1) es)
              (record a { pending_domain_events = pending })
            ≡ (ok tt, record b { pending_domain_events = pending }))
  unfolding update_all update load_from versioned
  update_all-load_from [] a b pending h =
      (ground (arith, append-nil a.pending_domain_events), ground arith, ground arith)
  update_all-load_from (e ∷ es) a b pending h =
      let e' : Event T P = record e { aggregate_version = a.version + 1 } in
      let a' : Aggregate T P S = record {
        version = a.version + 1;
        pending_domain_events = a.pending_domain_events ++ e' ∷ [];
        state = a.state;
      } in
      let (c, done, rest) =
        proceed-ok handlers (update_all handlers es) (update handlers e a) b
          (sym (update_all-cons handlers e es a) ∙ h) in
      let v : c.version ≡ a.version + 1 = sym (ap (λ x. x.1.version) done) ∙ handle-version e' a' in
      let p : c.pending_domain_events ≡ a.pending_domain_events ++ e' ∷ [] =
        sym (ap (λ x. x.1.pending_domain_events) done) ∙ handle-pending e' a' in
      let (recorded, counted, loaded) = update_all-load_from es c b pending rest in
      (
        recorded
            ∙ ap₂ (λ x n. x ++ versioned (n + 1) es) p v
            ∙ append_assoc a.pending_domain_events (e' ∷ []) (versioned (a.version + 1 + 1) es),
        omega (arith, counted, v),
        load_from-cons handlers e' (versioned (a.version + 1 + 1) es)
              (record a { pending_domain_events = pending })
            ∙ ap (proceed handlers (load_from handlers (versioned (a.version + 1 + 1) es))) (
                handle-blind e' a' pending
                ∙ ap (λ x. (x.0, record x.1 { pending_domain_events = pending })) done)
            ∙ ap
                (λ n.
                  load_from handlers (versioned (n + 1) es)
                    (record c { pending_domain_events = pending }))
                (sym v)
            ∙ loaded,
      )

  pending-load_from :
      (es : List (Event T P)) (a b : Aggregate T P S)
      → load_from handlers es a ≡ (ok tt, b)
      → b.pending_domain_events ≡ a.pending_domain_events
  pending-load_from [] a b h = unfold load_from in ap (λ x. x.1.pending_domain_events) (sym h)
  pending-load_from (e ∷ es) a b h =
      let (c, done, rest) =
        proceed-ok handlers (load_from handlers es) _ b
          (sym (load_from-cons handlers e es a) ∙ h) in
      pending-load_from es c b rest
      ∙ sym (ap (λ x. x.1.pending_domain_events) done)
      ∙ handle-pending e (set_version e.aggregate_version a)
      ∙ (unfold set_version in refl)

length-versioned :
    {T P : Type 0} (v : ℕ) (es : List (Event T P)) → length (versioned v es) ≡ length es
unfolding versioned
length-versioned v [] = refl
length-versioned v (e ∷ es) = ap suc (length-versioned (v + 1) es)

-- Event sourcing is lossless. Let the handlers keep to the state of the concrete aggregate: they leave
-- the version and the pending events alone, and do not look at the pending events. An aggregate is loaded from a history, its pending events are cleared,
-- and commands update it: if none of the updates raises, then the pending events are those of the
-- commands in order, their versions go on from the version that was loaded without a gap, and folding
-- the history together with the pending events gives the aggregate that the updates left, but for the
-- pending events.
pub fold-update :
    {T P S : Type 0} (handlers : Handlers T P S) (empty : S) (history commands : List (Event T P))
    (a b : Aggregate T P S)
    → KeepToState handlers
    → fold handlers empty history ≡ (ok tt, a)
    → update_all handlers commands (clear_pending a) ≡ (ok tt, b)
    → (b.pending_domain_events ≡ versioned (a.version + 1) commands)
      × (b.version ≡ a.version + length b.pending_domain_events)
      × (fold handlers empty (history ++ b.pending_domain_events) ≡ (ok tt, clear_pending b))
unfolding fold clear_pending make_empty
fold-update {T} {P} handlers empty history commands a b local h k =
    let (recorded, counted, loaded) =
      update_all-load_from handlers local commands (clear_pending a) b [] k in
    (
      recorded,
      omega (
        arith,
        counted,
        ap (length {A = Event T P}) recorded,
        length-versioned (a.version + 1) commands,
      ),
      ap (λ es. load_from handlers (history ++ es) (make_empty empty)) recorded
          ∙ load_from-append handlers history (versioned (a.version + 1) commands)
              (make_empty empty) a h
          ∙ ground (arith, loaded, pending-load_from handlers local history (make_empty empty) a h),
    )
