-- ===== src/Deferred.antt =====
-- deferred/deferred.py. A deferred owns the deferreds that its handlers resolve next, so that a chain
-- is a tree. The callbacks are the application's functions from values to results; all values have
-- one type. `_value` and `_is_resolved` are one optional value, and so are `_err` and `_is_rejected`.
pub mod Timing
mod Tests
use ascetic_ddd_python.Prelude.{ℕ, zero, suc, Option, none, some, List, [], ◌∷◌, ◌++◌}
use ascetic_ddd_python.Prelude.Result.{Result, ok, raise}

mutual
  pub data Deferred (V E : Type 0) : Type 0 where
    deferred :
        (value : Option V) (err : Option E) (occurred_errors : List E) (handlers : Handlers V E)
        → Deferred V E

  -- The list of handlers, in the order in which they were added.
  pub data Handlers (V E : Type 0) : Type 0 where
    no_handlers : Handlers V E
    handler :
        (on_success : V → Result E V) (on_error : E → Result E V) (next : Deferred V E)
        (others : Handlers V E)
        → Handlers V E

module _ {V E : Type 0} where
  unfoldable pub init : Deferred V E
  init = deferred none none [] no_handlers

  -- The result of a callback goes to the next deferred; an exception is noted and goes there too.
  unfoldable mutual
    pub resolve : V → Deferred V E → Deferred V E
    resolve value (deferred _ err errors handlers) =
        let (new, handlers') = resolve_handlers value handlers in
        deferred (some value) err (errors ++ new) handlers'

    pub reject : E → Deferred V E → Deferred V E
    reject err (deferred value _ errors handlers) =
        let (new, handlers') = reject_handlers err handlers in
        deferred value (some err) (errors ++ new) handlers'

    pub resolve_handlers : V → Handlers V E → List E × Handlers V E
    resolve_handlers value no_handlers = ([], no_handlers)
    resolve_handlers value (handler on_success on_error next others) =
        let (new, others') = resolve_handlers value others in
        elim (on_success value) [
          | ok result ↦ (new, handler on_success on_error (resolve result next) others')
          | raise e ↦ (e ∷ new, handler on_success on_error (reject e next) others')
        ]

    pub reject_handlers : E → Handlers V E → List E × Handlers V E
    reject_handlers err no_handlers = ([], no_handlers)
    reject_handlers err (handler on_success on_error next others) =
        let (new, others') = reject_handlers err others in
        elim (on_error err) [
          | ok result ↦ (new, handler on_success on_error (resolve result next) others')
          | raise e ↦ (e ∷ new, handler on_success on_error (reject e next) others')
        ]

  unfoldable pub append : Handlers V E → Handlers V E → Handlers V E
  append no_handlers handlers = handlers
  append (handler on_success on_error next others) handlers =
      handler on_success on_error next (append others handlers)

  -- The handler runs at once if the deferred is settled. The deferred that `then` returns is the
  -- next one of the last handler.
  unfoldable pub then_do : (V → Result E V) → (E → Result E V) → Deferred V E → Deferred V E
  unfolding append resolve_handlers reject_handlers init
  then_do on_success on_error (deferred value err errors handlers) =
      let added = handler on_success on_error init no_handlers in
      elim value [
        | some v ↦
            let (new, added') = resolve_handlers v added in
            deferred (some v) err (errors ++ new) (append handlers added')
        | none ↦ elim err [
          | some e ↦
              let (new, added') = reject_handlers e added in
              deferred none (some e) (errors ++ new) (append handlers added')
          | none ↦ deferred none none errors (append handlers added)
        ]
      ]

  unfoldable mutual
    pub occurred_err : Deferred V E → List E
    occurred_err (deferred _ _ errors handlers) = errors ++ nested_errors handlers

    pub nested_errors : Handlers V E → List E
    nested_errors no_handlers = []
    nested_errors (handler _ _ next others) = occurred_err next ++ nested_errors others
