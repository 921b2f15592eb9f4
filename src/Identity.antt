-- ===== src/Identity.antt =====
-- seedwork/domain/identity/identity.py. `value` and `export` read the value, under an assertion.
mod Tests
use ascetic_ddd_python.Prelude.{ℕ, ◌==◌, Bool, true, false, Option, none, some, List, [], ◌∷◌, ◌++◌}
use ascetic_ddd_python.Prelude.Result.{Result, ok, raise}

pub data Error : Type 0 where
  type_error assertion_error : Error

pub record Identity : Type 0 where
  pub stored : Option ℕ

unfoldable pub transient : Identity
transient = record { stored = none }

unfoldable pub is_transient : Identity → Bool
is_transient i = elim i.stored [ none ↦ true | some _ ↦ false ]

unfoldable pub value : Identity → Result Error ℕ
value i = elim i.stored [ none ↦ raise assertion_error | some v ↦ ok v ]

-- The setter of `export` gets the values that are written down in the list.
unfoldable pub export_to : List ℕ → Identity → Result Error (List ℕ)
export_to written i = elim i.stored [
  | none ↦ raise assertion_error
  | some v ↦ ok (written ++ v ∷ [])
]

unfoldable pub eq : Identity → Identity → Bool
eq i j = elim i.stored [
  | none ↦ elim j.stored [ none ↦ true | some _ ↦ false ]
  | some v ↦ elim j.stored [ none ↦ false | some w ↦ v == w ]
]

-- `import_`
unfoldable pub import_value : ℕ → Identity → Result Error Identity
unfolding is_transient
import_value v i = elim (is_transient i) [
  | true ↦ raise type_error
  | false ↦ ok (record { stored = some v })
]
