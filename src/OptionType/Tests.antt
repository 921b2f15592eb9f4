-- ===== src/OptionType/Tests.antt =====
-- Options of numbers.
use ascetic_ddd_python.Prelude.{
  ℕ, suc, ◌+◌, ◌≡◌, ◌↔◌, refl, ◌==◌, Bool, true, false, if◌then◌else◌, arith,
}
use ascetic_ddd_python.OptionType.{OptionObject, map_object, and_then, unwrap_or, eq, hash_of}
use ascetic_ddd_python.OptionType.Laws.{view, eq-view}

abbrev five : OptionObject ℕ
five = record { val = 5; valid = true }

-- An invalid object that holds a number.
abbrev stale : OptionObject ℕ
stale = record { val = 7; valid = false }

abbrev checked : ℕ → OptionObject ℕ
checked n = record { val = n + 1; valid = n == 5 }

chained : unwrap_or (and_then 0 (map_object 0 five (λ n. n + 1)) checked) 9 ≡ 9
unfolding unwrap_or and_then map_object
chained = refl

abbrev hash : Bool → ℕ → ℕ
hash valid n = if valid then suc n else 0

same_numbers : (a b : ℕ) → ((a == b) ≡ true) ↔ (a ≡ b)
same_numbers a b = (ground arith, ground arith)

eq-view_example :
    ((eq (λ a b. a == b) five stale ≡ true) ↔ (view five ≡ view stale))
    × (eq (λ a b. a == b) five stale ≡ true → hash_of 0 hash five ≡ hash_of 0 hash stale)
eq-view_example = eq-view (λ a b. a == b) 0 hash same_numbers five stale
