-- ===== src/Messaging/Mediator/Pipelines.antt =====
-- What registrations, subscriptions and pipelines mean for what is sent and published.
use ascetic_ddd_python.Prelude.{
  Option, sym, ap, ◌∙◌, append_assoc, append-nil, ℕ-cases, ℕ, zero, suc, ◌≤◌, ◌≡◌, ◌≢◌, refl, ◌==◌,
  if◌then◌else◌, none, some, inl, inr, List, [], ◌∷◌, ◌++◌, reverse, reverse-cons, arith,
}
use mathlib.Core.Path.{ap₂}
use ascetic_ddd_python.Prelude.Result.{Result, ok, raise}
use ascetic_ddd_python.Prelude.Dict
use ascetic_ddd_python.Prelude.Dict.{Dict, get-set, get-delete}
use ascetic_ddd_python.Prelude.Multisets.{count, count-snoc}
use ascetic_ddd_python.Messaging.Mediator.{
  Error, runtime_error, Mediator, register, unregister, entry, subscribe, discard, unsubscribe,
  add_pipeline, create_pipeline_handler, wrap, execute_pipelines, send,
}

entry-set :
    {A : Type 0} (key j : ℕ) (l : List A) (d : Dict (List A))
    → entry j (Dict.set key l d) ≡ (if key == j then l else entry j d)
unfolding entry
entry-set key j l d = ground (arith, get-set key j l d)

module _ {P : Type 0} where
  -- The pipelines of a sequence of `add_pipeline` that are for all requests.
  unfoldable pub broadcasts : List (Option ℕ × P) → List P
  broadcasts [] = []
  broadcasts ((none, p) ∷ added) = p ∷ broadcasts added
  broadcasts ((some t, p) ∷ added) = broadcasts added

  -- Those that are for requests of one type.
  unfoldable pub added_for : ℕ → List (Option ℕ × P) → List P
  added_for j [] = []
  added_for j ((none, p) ∷ added) = added_for j added
  added_for j ((some t, p) ∷ added) =
      let rest = added_for j added in if t == j then p ∷ rest else rest

  unfoldable pub add_all : {H : Type 0} → List (Option ℕ × P) → Mediator H P → Mediator H P
  add_all [] m = m
  add_all ((t, p) ∷ added) m = add_all added (add_pipeline t p m)

  add_all-lists :
      {H : Type 0} (j : ℕ) (added : List (Option ℕ × P)) (m : Mediator H P)
      → ((add_all added m).handlers ≡ m.handlers)
        × ((add_all added m).broadcast_pipelines ≡ m.broadcast_pipelines ++ broadcasts added)
        × (entry j (add_all added m).pipelines ≡ entry j m.pipelines ++ added_for j added)
  unfolding add_all add_pipeline broadcasts added_for
  add_all-lists j [] m =
      (refl, sym (append-nil m.broadcast_pipelines), sym (append-nil (entry j m.pipelines)))
  add_all-lists j ((none, p) ∷ added) m =
      let (kept, broadcast, typed) = add_all-lists j added (add_pipeline none p m) in
      (kept, broadcast ∙ append_assoc m.broadcast_pipelines (p ∷ []) (broadcasts added), typed)
  add_all-lists j ((some t, p) ∷ added) m =
      let (kept, broadcast, typed) = add_all-lists j added (add_pipeline (some t) p m) in
      (
        kept,
        broadcast,
        ground (
          arith,
          typed,
          entry-set t j (entry t m.pipelines ++ p ∷ []) m.pipelines,
          append_assoc (entry t m.pipelines) (p ∷ []) (added_for j added),
        ),
      )

module _ {H P R A W : Type 0} (type_of : R → ℕ) (handle : H → R → W → Result Error A × W)
    (pass_through : P → R → (R → W → Result Error A × W) → W → Result Error A × W) where
  -- Each pipeline around those that follow it, the handler inside all of them.
  unfoldable pub nest : List P → (R → W → Result Error A × W) → R → W → Result Error A × W
  nest [] handler = handler
  nest (p ∷ ps) handler = λ request w. pass_through p request (nest ps handler) w

  wrap-append :
      (ps qs : List P) (h : R → W → Result Error A × W)
      → wrap type_of handle pass_through (ps ++ qs) h
        ≡ wrap type_of handle pass_through qs (wrap type_of handle pass_through ps h)
  unfolding wrap
  wrap-append [] qs h = refl
  wrap-append (p ∷ ps) qs h =
      wrap-append ps qs (create_pipeline_handler type_of handle pass_through p h)

  wrap-reverse :
      (ps : List P) (h : R → W → Result Error A × W)
      → wrap type_of handle pass_through (reverse ps) h ≡ nest ps h
  unfolding wrap nest create_pipeline_handler
  wrap-reverse [] h = refl
  wrap-reverse (p ∷ ps) h =
      rw (reverse-cons p ps, wrap-append (reverse ps) (p ∷ []) h, wrap-reverse ps h) refl

  -- What a request runs in, by the lists of the mediator.
  send-held :
      (request : R) (m : Mediator H P) (w : W)
      → (Dict.get (type_of request) m.handlers ≡ none
          → send type_of handle pass_through request m w ≡ (raise runtime_error, w))
        × ((handler : H)
            → Dict.get (type_of request) m.handlers ≡ some handler
            → send type_of handle pass_through request m w
              ≡ nest
                  (m.broadcast_pipelines ++ entry (type_of request) m.pipelines)
                  (handle handler)
                  request
                  w)
  unfolding send execute_pipelines
  send-held request m w = (
    (λ missing. ground (arith, missing)),
    (λ handler there. ground (
      arith,
      there,
      wrap-reverse (m.broadcast_pipelines ++ entry (type_of request) m.pipelines) (handle handler),
    )),
  )

  -- Let pipelines be added to a mediator, one after the other. A request without a handler raises
  -- RuntimeError still. Any other runs in the broadcast pipelines, then in those of its own type, each
  -- around all that follow and with the handler inside: in both groups those that the mediator had
  -- come first, and then those that were added, in the order of the additions.
  pub send-nest :
      (request : R) (added : List (Option ℕ × P)) (m : Mediator H P) (w : W)
      → (Dict.get (type_of request) m.handlers ≡ none
          → send type_of handle pass_through request (add_all added m) w ≡ (raise runtime_error, w))
        × ((handler : H)
            → Dict.get (type_of request) m.handlers ≡ some handler
            → send type_of handle pass_through request (add_all added m) w
              ≡ nest
                  ((m.broadcast_pipelines ++ broadcasts added)
                    ++ (entry (type_of request) m.pipelines ++ added_for (type_of request) added))
                  (handle handler)
                  request
                  w)
  send-nest request added m w =
      let (kept, broadcast, typed) = add_all-lists (type_of request) added m in
      let held = send-held request (add_all added m) w in
      (
        (λ missing. held.0 (ap (Dict.get (type_of request)) kept ∙ missing)),
        (λ handler there.
            held.1 handler (ap (Dict.get (type_of request)) kept ∙ there)
            ∙ ap₂ (λ x y. nest (x ++ y) (handle handler) request w) broadcast typed),
      )

  -- After `register`, requests of the type run that handler in the pipelines as they are, and
  -- requests of other types run as before. Disposing of a registration unregisters the type, not the
  -- handler: also after a newer registration of the type, requests of it raise RuntimeError then, and
  -- those of other types run as before.
  pub send-register :
      (request_type : ℕ) (older newer : H) (request : R) (m : Mediator H P) (w : W)
      → (type_of request ≡ request_type
          → send type_of handle pass_through request (register request_type newer m) w
            ≡ nest
                (m.broadcast_pipelines ++ entry (type_of request) m.pipelines)
                (handle newer)
                request
                w)
        × (type_of request ≢ request_type
            → send type_of handle pass_through request (register request_type newer m) w
              ≡ send type_of handle pass_through request m w)
        × ((m' : Mediator H P) × (unregister request_type
                (register request_type newer (register request_type older m))
              ≡ ok m')
            × (type_of request ≡ request_type
                → send type_of handle pass_through request m' w ≡ (raise runtime_error, w))
            × (type_of request ≢ request_type
                → send type_of handle pass_through request m' w
                  ≡ send type_of handle pass_through request m w))
  unfolding register unregister
  send-register t older newer request m w =
      let once = get-set t (type_of request) newer m.handlers in
      let again = get-set t t newer (Dict.set t older m.handlers) in
      let first = get-set t (type_of request) older m.handlers in
      let second = get-set t (type_of request) newer (Dict.set t older m.handlers) in
      let taken = get-delete t (type_of request) (Dict.set t newer (Dict.set t older m.handlers)) in
      let new = register t newer m in
      (
        (λ e. ground (arith, (send-held request new w).1 newer, once)),
        (λ ne. unfold send execute_pipelines in ground (arith, once, ne)),
        (
          record {
            subscribers = m.subscribers;
            handlers = Dict.delete t (Dict.set t newer (Dict.set t older m.handlers));
            broadcast_pipelines = m.broadcast_pipelines;
            pipelines = m.pipelines;
          },
          ground (arith, again),
          (λ e. unfold send in ground (arith, taken, e)),
          (λ ne. unfold send execute_pipelines in ground (arith, taken, second, first, ne)),
        ),
      )

count-discard : (y x : ℕ) (l : List ℕ) → count x (discard y l) ≡ (if y == x then 0 else count x l)
unfolding count discard
count-discard y x [] = ground arith
count-discard y x (z ∷ l) = ground (arith, count-discard y x l)

-- `set.add`
abbrev add : ℕ → List ℕ → List ℕ
add x l = elim (count x l) [ zero ↦ l ++ x ∷ [] | suc _ ↦ l ]

count-add :
    (y x : ℕ) (l : List ℕ) → count y l ≤ 1 → count x (add y l) ≡ (if y == x then 1 else count x l)
count-add y x l once = elim (ℕ-cases (count y l)) [
  | inl e ↦ ground (arith, e, count-snoc x y l)
  | inr (n, e) ↦ ground (arith, e)
]

-- The set of subscribers holds a handler once, however often it is subscribed, until it is
-- unsubscribed, and is a set still; other handlers and other types of events are not concerned.
pub recipients_laws :
    {H P : Type 0} (event_type handler j x : ℕ) (m : Mediator H P)
    → ((h : ℕ) → count h (entry event_type m.subscribers) ≤ 1)
    → (count x (entry j (subscribe event_type handler m).subscribers) ≡ (
        if event_type == j
        then (if handler == x then 1 else count x (entry j m.subscribers))
        else count x (entry j m.subscribers)))
      × (count x (entry j (unsubscribe event_type handler m).subscribers) ≡ (
          if event_type == j
          then (if handler == x then 0 else count x (entry j m.subscribers))
          else count x (entry j m.subscribers)))
unfolding subscribe unsubscribe
recipients_laws event_type handler j x m is_set =
    let l = entry event_type m.subscribers in
    (
      ground (
        arith,
        entry-set event_type j (add handler l) m.subscribers,
        count-add handler x l (is_set handler),
      ),
      ground (
        arith,
        entry-set event_type j (discard handler l) m.subscribers,
        count-discard handler x l,
      ),
    )
