-- ===== src/Prelude/Texts.antt =====
-- Comparing texts.
use Prim.Native.String.{String}
use mathlib.Core.Path.{◌≡◌}
use mathlib.Core.Logic.{◌≢◌, ◌⊎◌, inl, inr}
use mathlib.Core.Bool.{false}
use text.Mathlib.Text.{◌==◌ as str_eq}
use text.Mathlib.TextEquality.{eq_iff}
use ascetic_ddd_python.Prelude.Tests.{Bool-cases}

pub str-cases : (s u : String) → (s ≡ u) ⊎ (s ≢ u)
str-cases s u = elim (Bool-cases (str_eq s u)) [
  | inl h ↦ inl ((eq_iff s u).0 h)
  | inr h ↦ inr (λ e. cc ((eq_iff s u).1 e))
]

-- Two literals are told apart by evaluation.
pub ne_of_str_eq : (s u : String) → str_eq s u ≡ false → s ≢ u
ne_of_str_eq s u h e = cc ((eq_iff s u).1 e)
