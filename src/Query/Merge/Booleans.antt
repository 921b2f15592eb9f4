-- ===== src/Query/Merge/Booleans.antt =====
-- What the tests for equality say when they are true.
use ascetic_ddd_python.Prelude.{◌≡◌, refl, sym, Bool, true, false, ◌&&◌, Option, none, some}
use ascetic_ddd_python.Query.{Comparison, ne, gt, gte, lt, lte, eq_comparison, eq_bool}

pub and-left : (a b : Bool) → a && b ≡ true → a ≡ true
and-left true b h = refl
and-left false b h = h

pub and-right : (a b : Bool) → a && b ≡ true → b ≡ true
and-right true b h = h
and-right false b h = cc

pub eq_comparison_sound : (o p : Comparison) → eq_comparison o p ≡ true → o ≡ p
unfolding eq_comparison
eq_comparison_sound ne ne h = refl
eq_comparison_sound gt gt h = refl
eq_comparison_sound gte gte h = refl
eq_comparison_sound lt lt h = refl
eq_comparison_sound lte lte h = refl
eq_comparison_sound _ _ h = cc

pub eq_bool_sound : (b c : Bool) → eq_bool b c ≡ true → b ≡ c
eq_bool_sound true c h = sym h
eq_bool_sound false true h = cc
eq_bool_sound false false h = refl

pub none-ne-some : {A : Type 0} {a : A} → ◌≡◌ {A = Option A} none (some a) → ⊥
none-ne-some e = cc

pub false-ne-true : ◌≡◌ {A = Bool} false true → ⊥
false-ne-true e = cc

pub some-injective : {A : Type 0} {a b : A} → ◌≡◌ {A = Option A} (some a) (some b) → a ≡ b
some-injective e = cc
