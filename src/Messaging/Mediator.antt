-- ===== src/Messaging/Mediator.antt =====
-- mediator/mediator.py. The type of a request or an event is a number; handlers and pipelines are
-- values of types `H` and `P`, which the parameters `handle` and `pass_through` call; a handler
-- counts as true. Handlers of events are numbered, and `order` is the order in which Python visits a
-- set of them.
pub mod Pipelines
use ascetic_ddd_python.Prelude.{
  ℕ, zero, suc, ◌==◌, if◌then◌else◌, Option, none, some, List, [], ◌∷◌, ◌++◌, reverse,
}
use ascetic_ddd_python.Prelude.Result.{Result, ok, raise}
use ascetic_ddd_python.Prelude.Dict
use ascetic_ddd_python.Prelude.Dict.{Dict}
use ascetic_ddd_python.Prelude.Multisets.{count}

pub data Error : Type 0 where
  runtime_error key_error handler_error : Error

pub record Mediator (H P : Type 0) : Type 0 where
  pub subscribers : Dict (List ℕ)
  pub handlers : Dict H
  pub broadcast_pipelines : List P
  pub pipelines : Dict (List P)

-- `d[key]` of a defaultdict, for a new entry too.
unfoldable pub entry : {A : Type 0} → ℕ → Dict (List A) → List A
entry key d = elim (Dict.get key d) [ none ↦ [] | some l ↦ l ]

-- `set.discard`.
unfoldable pub discard : ℕ → List ℕ → List ℕ
discard x [] = []
discard x (y ∷ ys) = let rest = discard x ys in if y == x then rest else y ∷ rest

module _ {H P : Type 0} where
  unfoldable pub init : Mediator H P
  init = record { subscribers = []; handlers = []; broadcast_pipelines = []; pipelines = [] }

  unfoldable pub register : ℕ → H → Mediator H P → Mediator H P
  register request_type handler m = record {
    subscribers = m.subscribers;
    handlers = Dict.set request_type handler m.handlers;
    broadcast_pipelines = m.broadcast_pipelines;
    pipelines = m.pipelines;
  }

  -- `dict.pop` of a missing key raises KeyError. It is also what disposing of `register` does.
  unfoldable pub unregister : ℕ → Mediator H P → Result Error (Mediator H P)
  unregister request_type m = elim (Dict.get request_type m.handlers) [
    | none ↦ raise key_error
    | some _ ↦ ok (record {
      subscribers = m.subscribers;
      handlers = Dict.delete request_type m.handlers;
      broadcast_pipelines = m.broadcast_pipelines;
      pipelines = m.pipelines;
    })
  ]

  -- A set is a list without duplicates.
  unfoldable pub subscribe : ℕ → ℕ → Mediator H P → Mediator H P
  unfolding entry
  subscribe event_type handler m =
      let l = entry event_type m.subscribers in
      record {
        subscribers =
            Dict.set event_type (elim (count handler l) [ zero ↦ l ++ handler ∷ [] | suc _ ↦ l ])
              m.subscribers;
        handlers = m.handlers;
        broadcast_pipelines = m.broadcast_pipelines;
        pipelines = m.pipelines;
      }

  -- It is also what disposing of `subscribe` does.
  unfoldable pub unsubscribe : ℕ → ℕ → Mediator H P → Mediator H P
  unfolding entry discard
  unsubscribe event_type handler m = record {
    subscribers =
        Dict.set event_type (discard handler (entry event_type m.subscribers)) m.subscribers;
    handlers = m.handlers;
    broadcast_pipelines = m.broadcast_pipelines;
    pipelines = m.pipelines;
  }

  unfoldable pub add_pipeline : Option ℕ → P → Mediator H P → Mediator H P
  unfolding entry
  add_pipeline none pipeline m = record {
    subscribers = m.subscribers;
    handlers = m.handlers;
    broadcast_pipelines = m.broadcast_pipelines ++ pipeline ∷ [];
    pipelines = m.pipelines;
  }
  add_pipeline (some request_type) pipeline m = record {
    subscribers = m.subscribers;
    handlers = m.handlers;
    broadcast_pipelines = m.broadcast_pipelines;
    pipelines = Dict.set request_type (entry request_type m.pipelines ++ pipeline ∷ []) m.pipelines;
  }

module _ {H P R A W : Type 0} (type_of : R → ℕ) (handle : H → R → W → Result Error A × W)
    (pass_through : P → R → (R → W → Result Error A × W) → W → Result Error A × W) where
  abbrev pub Handler : Type 0
  Handler = R → W → Result Error A × W

  unfoldable pub create_pipeline_handler : P → Handler → Handler
  create_pipeline_handler pipeline next_handler request w =
      pass_through pipeline request next_handler w

  -- The loop of `_execute_pipelines` over the reversed pipelines.
  unfoldable pub wrap : List P → Handler → Handler
  unfolding create_pipeline_handler
  wrap [] current_handler = current_handler
  wrap (pipeline ∷ pipelines) current_handler =
      wrap pipelines (create_pipeline_handler pipeline current_handler)

  unfoldable pub execute_pipelines : R → H → Mediator H P → Handler
  unfolding entry wrap
  execute_pipelines request handler m =
      wrap (reverse (m.broadcast_pipelines ++ entry (type_of request) m.pipelines)) (handle handler)

  unfoldable pub send : R → Mediator H P → W → Result Error A × W
  unfolding execute_pipelines
  send request m w = elim (Dict.get (type_of request) m.handlers) [
    | none ↦ (raise runtime_error, w)
    | some handler ↦ execute_pipelines request handler m request w
  ]

module _ {E W : Type 0} (order : List ℕ → List ℕ) (call : ℕ → E → W → Result Error Unit × W) where
  unfoldable pub call_all : List ℕ → E → W → Result Error Unit × W
  call_all [] event w = (ok tt, w)
  call_all (handler ∷ handlers) event w =
      let (r, w') = call handler event w in
      elim r [ ok _ ↦ call_all handlers event w' | raise e ↦ (raise e, w') ]

  unfoldable pub publish : {H P : Type 0} → (E → ℕ) → E → Mediator H P → W → Result Error Unit × W
  unfolding entry call_all
  publish type_of event m w = call_all (order (entry (type_of event) m.subscribers)) event w
