-- ===== src/Prelude/Integers.antt =====
-- Python's `int`: a sign and a native number, with the addition, the product and the floor division.
use Prim.Native.Nat.{ℕ, zero, suc, ◌+◌, ◌-◌, ◌*◌, ◌/◌}
use mathlib.Core.Path.{◌≡◌}
use mathlib.Core.Bool.{Bool, false}
use mathlib.Core.Option.{Option, none, some}
use native.Mathlib.Omega.{arith}
use ascetic_ddd_python.Prelude.Tests.{ltb, ◌==◌, if◌then◌else◌}

-- `negsuc n` is -(n + 1).
pub data ℤ : Type 0 where
  pos negsuc : ℕ → ℤ

-- a - b
abbrev pub sub : ℕ → ℕ → ℤ
sub a b = if ltb a b then negsuc (b - a - 1) else pos (a - b)

abbrev pub opposite : ℕ → ℤ
opposite zero = pos 0
opposite (suc n) = negsuc n

infixl 60 ◌+ℤ◌
abbrev pub ◌+ℤ◌ : ℤ → ℤ → ℤ
pos a +ℤ pos b = pos (a + b)
pos a +ℤ negsuc b = sub a (b + 1)
negsuc a +ℤ pos b = sub b (a + 1)
negsuc a +ℤ negsuc b = negsuc (a + b + 1)

infixl 70 ◌*ℤ◌
abbrev pub ◌*ℤ◌ : ℤ → ℤ → ℤ
pos a *ℤ pos b = pos (a * b)
pos a *ℤ negsuc b = opposite (a * suc b)
negsuc a *ℤ pos b = opposite (suc a * b)
negsuc a *ℤ negsuc b = pos (suc a * suc b)

-- `a // b` rounds down; `none` is ZeroDivisionError.
unfoldable pub floor_div : ℤ → ℤ → Option ℤ
floor_div a (pos zero) = none
floor_div (pos a) (pos (suc b)) = some (pos (a / suc b))
floor_div (negsuc a) (pos (suc b)) = some (negsuc (a / suc b))
floor_div (pos a) (negsuc b) = some (opposite ((a + b) / suc b))
floor_div (negsuc a) (negsuc b) = some (pos (suc a / suc b))

abbrev pub eqℤ : ℤ → ℤ → Bool
eqℤ (pos a) (pos b) = a == b
eqℤ (negsuc a) (negsuc b) = a == b
eqℤ _ _ = false

pub ℤ_add_assoc : (a b c : ℤ) → a +ℤ b +ℤ c ≡ a +ℤ (b +ℤ c)
ℤ_add_assoc (pos a) (pos b) (pos c) = ground arith
ℤ_add_assoc (pos a) (pos b) (negsuc c) = ground arith
ℤ_add_assoc (pos a) (negsuc b) (pos c) = ground arith
ℤ_add_assoc (pos a) (negsuc b) (negsuc c) = ground arith
ℤ_add_assoc (negsuc a) (pos b) (pos c) = ground arith
ℤ_add_assoc (negsuc a) (pos b) (negsuc c) = ground arith
ℤ_add_assoc (negsuc a) (negsuc b) (pos c) = ground arith
ℤ_add_assoc (negsuc a) (negsuc b) (negsuc c) = ground arith
