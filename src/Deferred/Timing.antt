-- ===== src/Deferred/Timing.antt =====
-- It makes no difference whether a callback is registered before or after the deferred is settled.
use ascetic_ddd_python.Prelude.{ℕ, zero, suc, ◌≡◌, none, List, [], ◌∷◌}
use ascetic_ddd_python.Prelude.Result.{Result}
use ascetic_ddd_python.Deferred.{
  Deferred, deferred, Handlers, no_handlers, handler, resolve, reject, then_do,
}

module _ {V E : Type 0} where
  -- Applies a call to the deferred at the end of a path, which counts the handlers at each one on the way.
  unfoldable mutual
    pub at_path : List ℕ → (Deferred V E → Deferred V E) → Deferred V E → Deferred V E
    at_path [] f d = f d
    at_path (n ∷ path) f (deferred value err errors handlers) =
        deferred value err errors (at_handler n path f handlers)

    pub at_handler : ℕ → List ℕ → (Deferred V E → Deferred V E) → Handlers V E → Handlers V E
    at_handler n path f no_handlers = no_handlers
    at_handler zero path f (handler s e next others) = handler s e (at_path path f next) others
    at_handler (suc n) path f (handler s e next others) =
        handler s e next (at_handler n path f others)

  -- Nothing in the tree is settled.
  mutual
    pub data IsPending : Deferred V E → Type 0 where
      pending :
          {errors : List E} {handlers : Handlers V E}
          → ArePending handlers
          → IsPending (deferred none none errors handlers)

    pub data ArePending : Handlers V E → Type 0 where
      no_pending : ArePending no_handlers
      pending_next :
          {s : V → Result E V} {e : E → Result E V} {next : Deferred V E} {others : Handlers V E}
          → IsPending next
          → ArePending others
          → ArePending (handler s e next others)

  module _ (on_success : V → Result E V) (on_error : E → Result E V) where
    -- What registering the callbacks at the end of a path and settling the root come to, in either order.
    abbrev add_at : List ℕ → Deferred V E → Deferred V E
    add_at path = at_path path (then_do on_success on_error)

    abbrev add_under : ℕ → List ℕ → Handlers V E → Handlers V E
    add_under n path = at_handler n path (then_do on_success on_error)

    abbrev Commutes : List ℕ → Deferred V E → Type 0
    Commutes path d =
        ((v : V) → resolve v (add_at path d) ≡ add_at path (resolve v d))
        × ((x : E) → reject x (add_at path d) ≡ add_at path (reject x d))
