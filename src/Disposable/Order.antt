-- ===== src/Disposable/Order.antt =====
-- The order in which what was added up is disposed of.
use ascetic_ddd_python.Prelude.{ℕ, ◌≡◌, refl, ◌⊎◌, inl, inr, arith}
use ascetic_ddd_python.Prelude.Result.{Result, ok, raise}
use ascetic_ddd_python.Disposable.{
  Disposable, disposable, composite, Delegates, no_delegates, delegate, append, add_callback,
  add_delegate, add, dispose, dispose_all,
}

Run-cases :
    {E W : Type 0} (r : Result E Unit × W)
    → ((w : W) × (r ≡ (ok tt, w))) ⊎ ((e : E) × (w : W) × (r ≡ (raise e, w)))
Run-cases (ok tt, w) = inl (w, refl)
Run-cases (raise e, w) = inr (e, w, refl)

module _ {E W : Type 0} (call : ℕ → W → Result E Unit × W) where
  dispose_all-append :
      (ds : Delegates) (other : Disposable) (w : W)
      → dispose_all call (append ds other) w ≡ (
          let (r, w') = dispose_all call ds w in
          elim r [ ok _ ↦ dispose call other w' | raise e ↦ (raise e, w') ])
  unfolding dispose_all append
  dispose_all-append no_delegates other w = elim (Run-cases (dispose call other w)) [
    | inl (w', e) ↦ ground (arith, e)
    | inr (x, w', e) ↦ ground (arith, e)
  ]
  dispose_all-append (delegate first others) other w = elim (Run-cases (dispose call first w)) [
    | inl (w', e) ↦ ground (arith, e, dispose_all-append others other w')
    | inr (x, w', e) ↦ ground (arith, e)
  ]

  -- To dispose of a sum is to dispose of its first part and then of its second, unless the first
  -- raises; for an exception of the first, the second is not disposed of.
  dispose-add :
      (d other : Disposable) (w : W)
      → dispose call (add d other) w ≡ (
          let (r, w') = dispose call d w in
          elim r [ ok _ ↦ dispose call other w' | raise e ↦ (raise e, w') ])
  unfolding dispose add add_callback add_delegate
  dispose-add (disposable callback) other w = elim (Run-cases (call callback w)) [
    | inl (w', e) ↦ elim (Run-cases (dispose call other w')) [
      | inl (v, p) ↦ ground (arith, e, p)
      | inr (x, v, p) ↦ ground (arith, e, p)
    ]
    | inr (x, w', e) ↦ ground (arith, e)
  ]
  dispose-add (composite ds) other w = dispose_all-append ds other w
