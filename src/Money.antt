-- ===== src/Money.antt =====
-- seedwork/domain/values/money: money, sums of money and the bank. Amounts and rates are Python's
-- integers.
pub mod Sums
mod Tests
use ascetic_ddd_python.Prelude.{
  String, ℕ, ◌==◌, Bool, true, false, ◌&&◌, if◌then◌else◌, Option, none, some, List, [], ◌∷◌,
}
use ascetic_ddd_python.Prelude.Integers.{ℤ, pos, ◌+ℤ◌, ◌*ℤ◌, floor_div, eqℤ}
use ascetic_ddd_python.Prelude.Result.{Result, ok, raise}

pub data Currency : Type 0 where
  usd eur rub gbp : Currency

pub record Money : Type 0 where
  pub amount : ℤ
  pub currency : Currency

-- The subclasses of `Expression`.
pub data Expression : Type 0 where
  money : Money → Expression
  sum : (augend addend : Expression) → Expression

pub data Error : Type 0 where
  key_error zero_division_error : Error

unfoldable pub to_symbol : Currency → String
to_symbol usd = "$"
to_symbol eur = "€"
to_symbol rub = "₽"
to_symbol gbp = "£"

abbrev pub number : Currency → ℕ
number usd = 0
number eur = 1
number rub = 2
number gbp = 3

unfoldable pub eq_currency : Currency → Currency → Bool
eq_currency a b = number a == number b

-- `Money.__eq__`; a sum has no equality of its own, and is never equal to money.
unfoldable pub eq : Money → Expression → Bool
unfolding eq_currency
eq m (money other) = eqℤ m.amount other.amount && eq_currency m.currency other.currency
eq m (sum _ _) = false

unfoldable pub dollar : ℤ → Money
dollar amount = record { amount = amount; currency = usd }

-- `Money.times`
unfoldable pub times_money : Money → ℤ → Money
times_money m multiplier = record { amount = m.amount *ℤ multiplier; currency = m.currency }

-- `times` of either class.
unfoldable pub times : Expression → ℤ → Expression
unfolding times_money
times (money m) multiplier = money (times_money m multiplier)
times (sum augend addend) multiplier = sum (times augend multiplier) (times addend multiplier)

-- `Money.plus`
unfoldable pub plus_money : Money → Expression → Expression
plus_money augend addend = sum (money augend) addend

-- `Sum.plus`, of any expression.
unfoldable pub plus : Expression → Expression → Expression
plus augend addend = sum augend addend

-- The newest entry for a pair of currencies stands first, and hides the older ones.
pub record Bank : Type 0 where
  pub rates : List (Currency × Currency × ℤ)

unfoldable pub init : Bank
init = record { rates = [] }

unfoldable pub add_rate : Currency → Currency → ℤ → Bank → Bank
add_rate from_currency to_currency rate bank = record {
  rates = (from_currency, to_currency, rate) ∷ bank.rates;
}

unfoldable pub find : Currency → Currency → List (Currency × Currency × ℤ) → Option ℤ
unfolding eq_currency
find from_currency to_currency [] = none
find from_currency to_currency ((a, b, rate) ∷ rates) =
    if eq_currency a from_currency && eq_currency b to_currency
    then some rate
    else find from_currency to_currency rates

unfoldable pub rate : Currency → Currency → Bank → Result Error ℤ
unfolding eq_currency find
rate from_currency to_currency bank =
    if eq_currency from_currency to_currency
    then ok (pos 1)
    else elim (find from_currency to_currency bank.rates) [ none ↦ raise key_error | some r ↦ ok r ]

-- `Money.reduce`
unfoldable pub reduce_money : Money → Bank → Currency → Result Error Money
unfolding rate
reduce_money m bank to = elim (rate m.currency to bank) [
  | raise e ↦ raise e
  | ok r ↦ elim (floor_div m.amount r) [
    | none ↦ raise zero_division_error
    | some amount ↦ ok (record { amount = amount; currency = to })
  ]
]

-- `reduce` of either class, and so `Bank.reduce`.
unfoldable pub reduce : Expression → Bank → Currency → Result Error Money
unfolding reduce_money
reduce (money m) bank to = reduce_money m bank to
reduce (sum augend addend) bank to =
    let right = reduce addend bank to in
    elim (reduce augend bank to) [
      | raise e ↦ raise e
      | ok a ↦ elim right [
        | raise e ↦ raise e
        | ok b ↦ ok (record { amount = a.amount +ℤ b.amount; currency = to })
      ]
    ]
