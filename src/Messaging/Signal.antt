-- ===== src/Messaging/Signal.antt =====
-- signals/signal.py and signals/composite_signal.py (the asynchronous classes have the same text), and
-- disposable/disposable.py as far as signals use it. An observer is a value of a type `O`; the identity
-- that Python gives it is the parameter `make_id`.
pub mod Notification
use ascetic_ddd_python.Prelude.{ℕ, zero, suc, Option, none, some, List, [], ◌∷◌, ◌++◌}
use ascetic_ddd_python.Prelude.Result.{Result, ok, raise}
use ascetic_ddd_python.Prelude.Dict
use ascetic_ddd_python.Prelude.Dict.{Dict}

pub data Error : Type 0 where
  key_error handler_error : Error

-- The observers, in the order of an OrderedDict.
abbrev pub Signal : Type 0 → Type 0
Signal O = Dict O

-- `observer_id or self._make_id(observer)`: an absent identity and the number 0 are both false.
unfoldable pub identity : {O : Type 0} → (O → ℕ) → O → Option ℕ → ℕ
identity make_id observer none = make_id observer
identity make_id observer (some zero) = make_id observer
identity make_id observer (some (suc n)) = suc n

module _ {O : Type 0} (make_id : O → ℕ) where
  unfoldable pub attach : O → Option ℕ → Signal O → Signal O
  attach observer observer_id s = elim (Dict.get (identity make_id observer observer_id) s) [
    | none ↦ Dict.set (identity make_id observer observer_id) observer s
    | some _ ↦ s
  ]

  unfoldable pub detach : O → Option ℕ → Signal O → Result Error (Signal O)
  detach observer observer_id s = elim (Dict.get (identity make_id observer observer_id) s) [
    | none ↦ raise key_error
    | some _ ↦ ok (Dict.delete (identity make_id observer observer_id) s)
  ]

  -- The callback of the `Disposable` that `attach` returns detaches under the identity that was used.
  unfoldable pub dispose : O → Option ℕ → Signal O → Result Error (Signal O)
  unfolding detach
  dispose observer observer_id s = detach observer (some (identity make_id observer observer_id)) s

  -- The composite signal: every delegate in turn; an exception leaves the later ones as they are.
  unfoldable pub composite_attach : O → Option ℕ → List (Signal O) → List (Signal O)
  unfolding attach
  composite_attach observer observer_id [] = []
  composite_attach observer observer_id (s ∷ delegates) =
      attach observer observer_id s ∷ composite_attach observer observer_id delegates

  unfoldable pub composite_detach :
      O → Option ℕ → List (Signal O) → Result Error Unit × List (Signal O)
  unfolding detach
  composite_detach observer observer_id [] = (ok tt, [])
  composite_detach observer observer_id (s ∷ delegates) =
      let (r, rest) = composite_detach observer observer_id delegates in
      elim (detach observer observer_id s) [
        | ok s' ↦ (r, s' ∷ rest)
        | raise e ↦ (raise e, s ∷ delegates)
      ]

module _ {O E W : Type 0} (call : O → E → W → Result Error Unit × W) where
  -- The loop of `notify`: an exception of an observer ends it.
  unfoldable pub notify : Signal O → E → W → Result Error Unit × W
  notify [] event w = (ok tt, w)
  notify ((_, observer) ∷ s) event w =
      let (r, w') = call observer event w in
      elim r [ ok _ ↦ notify s event w' | raise e ↦ (raise e, w') ]

  unfoldable pub composite_notify : List (Signal O) → E → W → Result Error Unit × W
  unfolding notify
  composite_notify [] event w = (ok tt, w)
  composite_notify (s ∷ delegates) event w =
      let (r, w') = notify s event w in
      elim r [ ok _ ↦ composite_notify delegates event w' | raise e ↦ (raise e, w') ]
