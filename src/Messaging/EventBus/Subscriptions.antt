-- ===== src/Messaging/EventBus/Subscriptions.antt =====
-- What subscriptions mean for those who publish.
use ascetic_ddd_python.Prelude.{
  ℕ-cases, ℕ, zero, suc, ◌≡◌, refl, ◌==◌, if◌then◌else◌, Option-cases, Bool-cases, inl, inr, List,
  [], ◌∷◌, ◌++◌, arith,
}
use ascetic_ddd_python.Prelude.Result.{ok, raise}
use ascetic_ddd_python.Prelude.Dict
use ascetic_ddd_python.Prelude.Dict.{Dict, get-set}
use ascetic_ddd_python.Prelude.Multisets.{count, remove_first}
use ascetic_ddd_python.Messaging.EventBus.{value_error, Bus, subscribers, subscribe, unsubscribe}

-- The handlers that a publication under the URI reaches.
abbrev pub handlers : ℕ → Bus → List ℕ
handlers uri bus = (subscribers uri bus).0

handlers-subscribe :
    (uri handler j : ℕ) (bus : Bus)
    → handlers j (subscribe uri handler bus)
      ≡ (if uri == j then handlers j bus ++ handler ∷ [] else handlers j bus)
unfolding subscribe subscribers
handlers-subscribe uri handler j bus = elim (Option-cases (Dict.get uri bus)) [
  | inl missing ↦
      ground
        (arith, missing, get-set uri j (handler ∷ []) (Dict.set uri [] bus), get-set uri j [] bus)
  | inr (l, there) ↦ ground (arith, there, get-set uri j (l ++ handler ∷ []) bus)
]

remove_first-snoc : (x : ℕ) (xs : List ℕ) → count x xs ≡ 0 → remove_first x (xs ++ x ∷ []) ≡ xs
unfolding count remove_first
remove_first-snoc x [] h = ground arith
remove_first-snoc x (y ∷ xs) h = ground (arith, remove_first-snoc x xs)

remove_first-absent : (x : ℕ) (xs : List ℕ) → count x xs ≡ 0 → remove_first x xs ≡ xs
unfolding count remove_first
remove_first-absent x [] h = refl
remove_first-absent x (y ∷ xs) h = ground (arith, remove_first-absent x xs)

handlers-unsubscribe :
    (uri handler j : ℕ) (bus : Bus)
    → (handlers j (unsubscribe uri handler bus).1
        ≡ (if uri == j then remove_first handler (handlers j bus) else handlers j bus))
      × (unsubscribe uri handler bus).0
        ≡ (elim (count handler (handlers uri bus)) [ zero ↦ raise value_error | suc _ ↦ ok tt ])
unfolding unsubscribe subscribers
handlers-unsubscribe uri handler j bus = elim (Option-cases (Dict.get uri bus)) [
  | inl missing ↦ (
    unfold count remove_first in ground (arith, missing, get-set uri j [] bus),
    unfold count in ground (arith, missing),
  )
  | inr (l, there) ↦ elim (ℕ-cases (count handler l)) [
    | inl none_left ↦ (
      ground (arith, there, none_left, remove_first-absent handler l none_left),
      ground (arith, there, none_left),
    )
    | inr (n, some_left) ↦ (
      ground (arith, there, some_left, get-set uri j (remove_first handler l) bus),
      ground (arith, there, some_left),
    )
  ]
]

-- A subscription adds the handler behind those of its URI and changes no other URI, so that taking
-- off a handler that was not subscribed before gives every URI the handlers it had; `unsubscribe`
-- takes off the first of equal handlers, and raises ValueError for a handler that is not subscribed,
-- which leaves the handlers of all URIs.
pub subscription_laws :
    (uri handler j : ℕ) (bus : Bus)
    → (handlers j (subscribe uri handler bus)
        ≡ (if uri == j then handlers j bus ++ handler ∷ [] else handlers j bus))
      × (handlers j (unsubscribe uri handler bus).1
          ≡ (if uri == j then remove_first handler (handlers j bus) else handlers j bus))
      × ((count handler (handlers uri bus) ≡ 0
          → ((unsubscribe uri handler bus).0 ≡ raise value_error)
            × (handlers j (unsubscribe uri handler bus).1 ≡ handlers j bus)
            × (handlers j (unsubscribe uri handler (subscribe uri handler bus)).1
                ≡ handlers j bus)))
subscription_laws uri handler j bus =
    let unsubscribed = handlers-unsubscribe uri handler j bus in
    let again = handlers-unsubscribe uri handler j (subscribe uri handler bus) in
    let here = handlers-subscribe uri handler uri bus in
    let there = handlers-subscribe uri handler j bus in
    (
      there,
      unsubscribed.0,
      λ absent. (
        ground (arith, unsubscribed.1, absent),
        elim (Bool-cases (uri == j)) [
          | inl e ↦
              ground
                (arith, unsubscribed.0, remove_first-absent handler (handlers uri bus) absent, e)
          | inr e ↦ ground (arith, unsubscribed.0, e)
        ],
        elim (Bool-cases (uri == j)) [
          | inl e ↦
              ground (arith, again.0, there, remove_first-snoc handler (handlers uri bus) absent, e)
          | inr e ↦ ground (arith, again.0, there, e)
        ],
      ),
    )
