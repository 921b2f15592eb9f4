-- ===== src/Money/Sums.antt =====
-- What a sum of money comes to.
use ascetic_ddd_python.Prelude.{
  ◌≡◌, refl, Option, none, some, Option-cases, inl, inr, List, [], ◌∷◌, ◌++◌, append_assoc,
  append-nil, zero, suc, ◌⊎◌, arith,
}
use ascetic_ddd_python.Prelude.Integers.{ℤ, pos, negsuc, ◌+ℤ◌, ◌*ℤ◌, floor_div, ℤ_add_assoc}
use ascetic_ddd_python.Prelude.Result.{Result, ok, raise}
use ascetic_ddd_python.Money.{
  Currency, Money, Expression, money, sum, Error, times, Bank, rate, reduce_money, reduce,
}

-- The money that an expression adds up, from left to right.
unfoldable pub leaves : Expression → List Money
leaves (money m) = m ∷ []
leaves (sum augend addend) = leaves augend ++ leaves addend

-- Converts one after the other, and adds each to what there is; the first failure ends it.
unfoldable pub convert_all : ℤ → List Money → Bank → Currency → Result Error Money
convert_all total [] bank to = ok (record { amount = total; currency = to })
convert_all total (m ∷ ms) bank to = elim (reduce_money m bank to) [
  | raise e ↦ raise e
  | ok a ↦ convert_all (total +ℤ a.amount) ms bank to
]

abbrev added : ℤ → Currency → Result Error Money → Result Error Money
added total to (ok a) = ok (record { amount = total +ℤ a.amount; currency = to })
added total to (raise e) = raise e

Result-cases : (r : Result Error Money) → ((a : Money) × (r ≡ ok a)) ⊎ ((e : Error) × (r ≡ raise e))
Result-cases (ok a) = inl (a, refl)
Result-cases (raise e) = inr (e, refl)

convert_all-leaves :
    (e : Expression) (total : ℤ) (ms : List Money) (bank : Bank) (to : Currency)
    → convert_all total (leaves e ++ ms) bank to ≡ (elim (reduce e bank to) [
      | raise x ↦ raise x
      | ok a ↦ convert_all (total +ℤ a.amount) ms bank to
    ])
unfolding convert_all leaves reduce
convert_all-leaves (money m) total ms bank to = refl
convert_all-leaves (sum a b) total ms bank to = elim (Result-cases (reduce a bank to)) [
  | inl (x, p) ↦ elim (Result-cases (reduce b bank to)) [
    | inl (y, q) ↦ ground (
      arith,
      append_assoc (leaves a) (leaves b) ms,
      convert_all-leaves a total (leaves b ++ ms) bank to,
      convert_all-leaves b (total +ℤ x.amount) ms bank to,
      ℤ_add_assoc total x.amount y.amount,
      p,
      q,
    )
    | inr (z, q) ↦ ground (
      arith,
      append_assoc (leaves a) (leaves b) ms,
      convert_all-leaves a total (leaves b ++ ms) bank to,
      convert_all-leaves b (total +ℤ x.amount) ms bank to,
      p,
      q,
    )
  ]
  | inr (z, p) ↦ ground (
    arith,
    append_assoc (leaves a) (leaves b) ms,
    convert_all-leaves a total (leaves b ++ ms) bank to,
    p,
  )
]

Rate-cases : (r : Result Error ℤ) → ((a : ℤ) × (r ≡ ok a)) ⊎ ((e : Error) × (r ≡ raise e))
Rate-cases (ok a) = inl (a, refl)
Rate-cases (raise e) = inr (e, refl)

zero_add : (a : ℤ) → pos 0 +ℤ a ≡ a
zero_add (pos a) = ground arith
zero_add (negsuc a) = ground arith

reduce-currency :
    (e : Expression) (bank : Bank) (to : Currency) (m : Money)
    → reduce e bank to ≡ ok m
    → m ≡ record { amount = m.amount; currency = to }
unfolding reduce reduce_money
reduce-currency (money x) bank to m h = elim (Rate-cases (rate x.currency to bank)) [
  | inl (r, e) ↦ elim (Option-cases (floor_div x.amount r)) [
    | inl n ↦ ground (arith, e, n)
    | inr (a, q) ↦ ground (arith, e, q)
  ]
  | inr (z, e) ↦ ground (arith, e)
]
reduce-currency (sum a b) bank to m h = elim (Result-cases (reduce a bank to)) [
  | inl (x, p) ↦ elim (Result-cases (reduce b bank to)) [
    | inl (y, q) ↦ ground (arith, p, q)
    | inr (z, q) ↦ ground (arith, p, q)
  ]
  | inr (z, p) ↦ ground (arith, p)
]

-- An expression comes to what a bank gets that takes its money from left to right, converts each and
-- adds it to the total, and stops at the first money without a rate or with the rate 0; how the sums
-- are nested makes no difference, neither to the amount nor to the error.
pub reduce-leaves :
    (e : Expression) (bank : Bank) (to : Currency)
    → reduce e bank to ≡ convert_all (pos 0) (leaves e) bank to
reduce-leaves e bank to = elim (Result-cases (reduce e bank to)) [
  | inl (a, p) ↦
      unfold convert_all in
      ground (
        arith,
        p,
        append-nil (leaves e),
        convert_all-leaves e (pos 0) [] bank to,
        zero_add a.amount,
        reduce-currency e bank to a p,
      )
  | inr (z, p) ↦ ground (arith, p, append-nil (leaves e), convert_all-leaves e (pos 0) [] bank to)
]

-- The exception that a call raises, if it does.
unfoldable pub failure : Result Error Money → Option Error
failure (ok _) = none
failure (raise e) = some e

floor_div-none : (a b r : ℤ) → floor_div a r ≡ none → floor_div b r ≡ none
unfolding floor_div
floor_div-none a b (pos zero) h = refl
floor_div-none (pos a) b (pos (suc r)) h = ground arith
floor_div-none (negsuc a) b (pos (suc r)) h = ground arith
floor_div-none (pos a) b (negsuc r) h = ground arith
floor_div-none (negsuc a) b (negsuc r) h = ground arith

-- A multiplied expression can be reduced exactly if the expression can; otherwise both raise the same
-- exception.
failure-times :
    (e : Expression) (n : ℤ) (bank : Bank) (to : Currency)
    → failure (reduce (times e n) bank to) ≡ failure (reduce e bank to)
unfolding failure reduce reduce_money times
failure-times (money x) n bank to = elim (Rate-cases (rate x.currency to bank)) [
  | inl (r, e) ↦ elim (Option-cases (floor_div x.amount r)) [
    | inl q ↦ ground (arith, e, q, floor_div-none x.amount (x.amount *ℤ n) r q)
    | inr (a, q) ↦ elim (Option-cases (floor_div (x.amount *ℤ n) r)) [
      | inl q' ↦ ground (arith, e, q, floor_div-none (x.amount *ℤ n) x.amount r q')
      | inr (b, q') ↦ ground (arith, e, q, q')
    ]
  ]
  | inr (z, e) ↦ ground (arith, e)
]
failure-times (sum a b) n bank to =
    ground (arith, failure-times a n bank to, failure-times b n bank to)
