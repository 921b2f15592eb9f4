-- ===== src/Prelude/Multisets.antt =====
-- Lists of numbers as Python handles them: how often a value occurs, and the removal of its first
-- occurrence.
use Prim.Native.Nat.{ℕ, ◌+◌, ◌-◌}
use mathlib.Core.Path.{◌≡◌}
use mathlib.Core.List.{List, [], ◌∷◌, ◌++◌}
use native.Mathlib.Omega.{arith}
use ascetic_ddd_python.Prelude.Tests.{◌==◌, if◌then◌else◌}

unfoldable pub count : ℕ → List ℕ → ℕ
count x [] = 0
count x (y ∷ ys) = (if y == x then 1 else 0) + count x ys

unfoldable pub remove_first : ℕ → List ℕ → List ℕ
remove_first x [] = []
remove_first x (y ∷ ys) = let rest = remove_first x ys in if y == x then ys else y ∷ rest

pub count-snoc :
    (x y : ℕ) (xs : List ℕ) → count x (xs ++ y ∷ []) ≡ count x xs + (if y == x then 1 else 0)
unfolding count
count-snoc x y [] = omega arith
count-snoc x y (z ∷ xs) = omega (arith, count-snoc x y xs)

pub count-remove_first :
    (x y : ℕ) (xs : List ℕ) → count x (remove_first y xs) ≡ count x xs - (if y == x then 1 else 0)
unfolding count remove_first
count-remove_first x y [] = ground arith
count-remove_first x y (z ∷ xs) = ground (arith, count-remove_first x y xs)
