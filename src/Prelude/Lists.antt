-- ===== src/Prelude/Lists.antt =====
-- Lists measured by native numbers, and Python's list operations on their last element.
use Prim.Native.Nat.{ℕ, suc, ◌+◌}
use mathlib.Core.Path.{◌≡◌, refl}
use mathlib.Core.List.{List, [], ◌∷◌, ◌++◌}
use mathlib.Core.Option.{Option, none, some}
use mathlib.Core.Logic.{inl, inr}
use ascetic_ddd_python.Prelude.Tests.{Option-cases}
use native.Mathlib.Omega.{arith}

module _ {ℓ} {A : Type ℓ} where
  abbrev pub length : List A → ℕ
  length [] = 0
  length (x ∷ xs) = suc (length xs)

  pub length-append : (xs ys : List A) → length (xs ++ ys) ≡ length xs + length ys
  length-append [] ys = omega arith
  length-append (x ∷ xs) ys = omega (arith, length-append xs ys)

  -- `xs.pop()`: the list without its last element, and that element.
  unfoldable pub pop : List A → Option (List A × A)
  pop [] = none
  pop (x ∷ xs) = elim (pop xs) [ none ↦ some ([], x) | some (ys, y) ↦ some (x ∷ ys, y) ]

  pub pop-snoc : (xs : List A) (x : A) → pop (xs ++ x ∷ []) ≡ some (xs, x)
  unfolding pop
  pop-snoc [] x = refl
  pop-snoc (y ∷ xs) x = rw (pop-snoc xs x) refl

  pub pop-eq-none : (l : List A) → pop l ≡ none → l ≡ []
  unfolding pop
  pop-eq-none [] h = refl
  pop-eq-none (y ∷ l) h = elim (Option-cases (pop l)) [
    | inl e ↦ ground arith
    | inr (p, e) ↦ ground arith
  ]

  -- What `pop` takes off is what an `append` puts back.
  pub snoc-pop : (l xs : List A) (x : A) → pop l ≡ some (xs, x) → l ≡ xs ++ x ∷ []
  unfolding pop
  snoc-pop [] xs x h = ground arith
  snoc-pop (y ∷ l) xs x h = elim (Option-cases (pop l)) [
    | inl e ↦ ground (arith, pop-eq-none l e)
    | inr (p, e) ↦ ground (arith, snoc-pop l p.0 p.1 e)
  ]

  pub length-pop : (l xs : List A) (x : A) → pop l ≡ some (xs, x) → length l ≡ suc (length xs)
  length-pop l xs x h = rw (snoc-pop l xs x h, length-append) (omega arith)
