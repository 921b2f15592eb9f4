-- ===== src/Messaging/Signal/Notification.antt =====
-- What attaching and detaching mean for those who are notified.
use ascetic_ddd_python.Prelude.{ℕ, zero, suc, ◌≡◌, refl, Option, none, some, [], ◌∷◌, ◌++◌, arith}
use ascetic_ddd_python.Prelude.Result.{Result, ok, raise}
use ascetic_ddd_python.Prelude.Dict
use ascetic_ddd_python.Prelude.Dict.{Dict, get-set, get-delete}
use ascetic_ddd_python.Messaging.Signal.{Error, Signal, identity, attach, dispose, notify}

set-absent :
    {V : Type 0} (k : ℕ) (v : V) (d : Dict V)
    → Dict.get k d ≡ none
    → Dict.set k v d ≡ d ++ (k, v) ∷ []
unfolding Dict.get Dict.set
set-absent k v [] h = refl
set-absent k v ((j, w) ∷ d) h = ground (arith, set-absent k v d)

delete-absent : {V : Type 0} (k : ℕ) (d : Dict V) → Dict.get k d ≡ none → Dict.delete k d ≡ d
unfolding Dict.get Dict.delete
delete-absent k [] h = refl
delete-absent k ((j, w) ∷ d) h = ground (arith, delete-absent k d)

delete-snoc :
    {V : Type 0} (k : ℕ) (v : V) (d : Dict V)
    → Dict.get k d ≡ none
    → Dict.delete k (d ++ (k, v) ∷ []) ≡ d
unfolding Dict.get Dict.delete
delete-snoc k v [] h = ground arith
delete-snoc k v ((j, w) ∷ d) h = ground (arith, delete-snoc k v d)

module _ {O : Type 0} (make_id : O → ℕ) where
  identity-some : (o : O) (n : ℕ) → make_id o ≡ n → identity make_id o (some n) ≡ n
  unfolding identity
  identity-some o zero e = e
  identity-some o (suc n) e = refl

  identity_again :
      (o : O) (i : Option ℕ)
      → identity make_id o (some (identity make_id o i)) ≡ identity make_id o i
  identity_again o none = unfold identity in identity-some o (make_id o) refl
  identity_again o (some zero) = unfold identity in identity-some o (make_id o) refl
  identity_again o (some (suc n)) = unfold identity in refl

  -- Disposing of what `attach` returned: for an observer whose identity was free this gives back the
  -- signal as it was, observers and order alike; attaching under an identity that is taken changes
  -- nothing, and disposing of that takes away the observer that was there before.
  pub dispose-attach :
      (observer : O) (observer_id : Option ℕ) (s : Signal O)
      → (Dict.get (identity make_id observer observer_id) s ≡ none
          → dispose make_id observer observer_id (attach make_id observer observer_id s) ≡ ok s)
        × ((older : O)
            → Dict.get (identity make_id observer observer_id) s ≡ some older
            → (attach make_id observer observer_id s ≡ s)
              × (dispose make_id observer observer_id (attach make_id observer observer_id s)
                  ≡ ok (Dict.delete (identity make_id observer observer_id) s)))
  unfolding attach dispose
  dispose-attach observer observer_id s =
      let k = identity make_id observer observer_id in
      (
        (λ free. ground (
          arith,
          free,
          identity_again observer observer_id,
          get-set k k observer s,
          set-absent k observer s free,
          delete-snoc k observer s free,
        )),
        (λ older taken.
            (ground (arith, taken), ground (arith, taken, identity_again observer observer_id))),
      )

module _ {O E W : Type 0} (call : O → E → W → Result Error Unit × W) where
  notify-append :
      (s t : Signal O) (event : E) (w : W)
      → notify call (s ++ t) event w ≡ (
          let (r, w') = notify call s event w in
          elim r [ ok _ ↦ notify call t event w' | raise e ↦ (raise e, w') ])
  unfolding notify
  notify-append [] t event w = refl
  notify-append ((i, o) ∷ s) t event w = ground (arith, notify-append s t event (call o event w).1)

  notify-one :
      (i : ℕ) (o : O) (event : E) (w : W) → notify call ((i, o) ∷ []) event w ≡ call o event w
  unfolding notify
  notify-one i o event w = go (call o event w) refl
    where
      go : (p : Result Error Unit × W) → call o event w ≡ p → notify call ((i, o) ∷ []) event w ≡ p
      go (ok tt, w') e = ground arith
      go (raise x, w') e = ground arith

  -- An observer with a new identity is notified once, after all that were attached before it, and
  -- not at all if one of them raises; attached again, under any identity that is taken, it is not
  -- notified once more.
  pub notify-attach :
      (make_id : O → ℕ) (observer : O) (observer_id : Option ℕ) (s : Signal O) (event : E) (w : W)
      → (Dict.get (identity make_id observer observer_id) s ≡ none
          → notify call (attach make_id observer observer_id s) event w ≡ (
              let (r, w') = notify call s event w in
              elim r [ ok _ ↦ call observer event w' | raise e ↦ (raise e, w') ]))
        × ((older : O)
            → Dict.get (identity make_id observer observer_id) s ≡ some older
            → notify call (attach make_id observer observer_id s) event w ≡ notify call s event w)
  notify-attach make_id observer observer_id s event w =
      let k = identity make_id observer observer_id in
      (
        (λ free.
            unfold attach in
            ground (
              arith,
              free,
              set-absent k observer s free,
              notify-append s ((k, observer) ∷ []) event w,
              notify-one k observer event (notify call s event w).1,
            )),
        (λ older taken. unfold attach in ground (arith, taken)),
      )
