-- ===== src/Messaging/EventBus.antt =====
-- event_bus/in_memory_event_bus.py. A URI is a number, which is all that the bus needs of it; a handler
-- is numbered too, since `list.remove` compares handlers.
pub mod Subscriptions
use ascetic_ddd_python.Prelude.{
  ℕ, zero, suc, ◌==◌, Bool, true, false, Option, none, some, List, [], ◌∷◌, ◌++◌,
}
use ascetic_ddd_python.Prelude.Result.{Result, ok, raise}
use ascetic_ddd_python.Prelude.Dict
use ascetic_ddd_python.Prelude.Dict.{Dict}
use ascetic_ddd_python.Prelude.Multisets.{count, remove_first}

pub data Error : Type 0 where
  value_error handler_error : Error

abbrev pub Bus : Type 0
Bus = Dict (List ℕ)

-- `self._subscribers[uri]` of a defaultdict: the entry is made if it is missing.
unfoldable pub subscribers : ℕ → Bus → List ℕ × Bus
subscribers uri bus = elim (Dict.get uri bus) [
  | none ↦ ([], Dict.set uri [] bus)
  | some l ↦ (l, bus)
]

unfoldable pub subscribe : ℕ → ℕ → Bus → Bus
unfolding subscribers
subscribe uri handler bus =
    let (l, bus') = subscribers uri bus in Dict.set uri (l ++ handler ∷ []) bus'

-- `list.remove` raises ValueError for a handler that is not there.
unfoldable pub unsubscribe : ℕ → ℕ → Bus → Result Error Unit × Bus
unfolding subscribers
unsubscribe uri handler bus =
    let (l, bus') = subscribers uri bus in
    elim (count handler l) [
      | zero ↦ (raise value_error, bus')
      | suc _ ↦ (ok tt, Dict.set uri (remove_first handler l) bus')
    ]

module _ {E W : Type 0} (call : ℕ → ℕ → E → W → Result Error Unit × W) where
  unfoldable pub call_all : ℕ → List ℕ → E → W → Result Error Unit × W
  call_all uri [] event w = (ok tt, w)
  call_all uri (handler ∷ handlers) event w =
      let (r, w') = call handler uri event w in
      elim r [ ok _ ↦ call_all uri handlers event w' | raise e ↦ (raise e, w') ]

  unfoldable pub publish : ℕ → E → Bus → W → Result Error Unit × Bus × W
  unfolding subscribers call_all
  publish uri event bus w =
      let (l, bus') = subscribers uri bus in let (r, w') = call_all uri l event w in (r, bus', w')
