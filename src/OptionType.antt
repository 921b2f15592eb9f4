-- ===== src/OptionType.antt =====
-- option/option.py. `null` is Python's None, which is a value of every type; the two fields are those
-- of the class, so a value of it need not come from `Some` or `Nothing`.
pub mod Laws
mod Tests
use ascetic_ddd_python.Prelude.{Bool, true, false, not, ◌&&◌, if◌then◌else◌}
use ascetic_ddd_python.Prelude.Result.{Result, ok, raise}

pub record OptionObject (T : Type 0) : Type 0 where
  pub val : T
  pub valid : Bool

pub data Error : Type 0 where
  value_error : Error

unfoldable pub some_object : {T : Type 0} → T → OptionObject T
some_object v = record { val = v; valid = true }

unfoldable pub nothing : {T : Type 0} → T → OptionObject T
nothing null = record { val = null; valid = false }

abbrev agree : Bool → Bool → Bool
agree true b = b
agree false b = not b

module _ {T : Type 0} where
  unfoldable pub is_some : OptionObject T → Bool
  is_some o = o.valid

  unfoldable pub is_nothing : OptionObject T → Bool
  is_nothing o = not o.valid

  unfoldable pub unwrap : OptionObject T → Result Error T
  unwrap o = if not o.valid then raise value_error else ok o.val

  unfoldable pub unwrap_or : OptionObject T → T → T
  unwrap_or o default = if o.valid then o.val else default

  unfoldable pub unwrap_or_else : OptionObject T → (Unit {0} → T) → T
  unwrap_or_else o f = if o.valid then o.val else f tt

  unfoldable pub or_object : OptionObject T → OptionObject T → OptionObject T
  or_object o optb = if o.valid then o else optb

  unfoldable pub or_else : OptionObject T → (Unit {0} → OptionObject T) → OptionObject T
  or_else o f = if o.valid then o else f tt

  -- `__eq__` on two options, by the equality of the values.
  unfoldable pub eq : (T → T → Bool) → OptionObject T → OptionObject T → Bool
  eq same o other =
      if not (agree o.valid other.valid)
      then false
      else if not o.valid
      then true
      else same o.val other.val

-- `__hash__`, by the hash of a pair of a Boolean and a value.
unfoldable pub hash_of : {T H : Type 0} → T → (Bool → T → H) → OptionObject T → H
hash_of null hash o = if not o.valid then hash false null else hash true o.val

module _ {T U : Type 0} (null : U) where
  unfoldable pub map_object : OptionObject T → (T → U) → OptionObject U
  unfolding some_object nothing
  map_object o f = if o.valid then some_object (f o.val) else nothing null

  unfoldable pub and_then : OptionObject T → (T → OptionObject U) → OptionObject U
  unfolding nothing
  and_then o f = if o.valid then f o.val else nothing null

unfoldable pub map_or : {T U : Type 0} → OptionObject T → U → (T → U) → U
map_or o default f = if o.valid then f o.val else default
