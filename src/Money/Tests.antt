-- ===== src/Money/Tests.antt =====
-- Five dollars and ten roubles, at two roubles for a dollar.
use ascetic_ddd_python.Prelude.{◌≡◌, refl, true, [], ◌∷◌}
use ascetic_ddd_python.Prelude.Integers.{pos, negsuc, floor_div}
use ascetic_ddd_python.Prelude.Result.{ok, raise}
use ascetic_ddd_python.Money.{
  Expression, money, sum, key_error, usd, rub, eq, eq_currency, dollar, times, to_symbol, plus,
  plus_money, Bank, init, add_rate, find, rate, reduce_money, reduce,
}
use ascetic_ddd_python.Money.Sums.{leaves, convert_all, reduce-leaves}

abbrev bank : Bank
bank = record { rates = (rub, usd, pos 2) ∷ [] }

abbrev wallet : Expression
wallet =
    sum (money (record { amount = pos 5; currency = usd }))
      (money (record { amount = negsuc 10; currency = rub }))

-- -11 // 2 is -6.
reduced : reduce wallet bank usd ≡ ok (record { amount = negsuc 0; currency = usd })
unfolding reduce reduce_money rate find eq_currency floor_div
reduced = refl

bank_of_one_rate : add_rate rub usd (pos 2) init ≡ bank
unfolding add_rate init
bank_of_one_rate = refl

not_reduced : reduce (plus wallet wallet) bank rub ≡ raise key_error
unfolding reduce reduce_money rate find eq_currency floor_div plus
not_reduced = refl

tripled :
    times (plus_money (dollar (pos 2)) (money (dollar (negsuc 0)))) (pos 3)
    ≡ sum (money (dollar (pos 6))) (money (dollar (negsuc 2)))
unfolding times plus_money dollar
tripled = refl

symbol_of_rub : to_symbol rub ≡ "₽"
unfolding to_symbol
symbol_of_rub = refl

same_money : eq (dollar (pos 5)) (money (dollar (pos 5))) ≡ true
unfolding eq dollar eq_currency
same_money = refl

reduce-leaves_example : reduce wallet bank usd ≡ convert_all (pos 0) (leaves wallet) bank usd
reduce-leaves_example = reduce-leaves wallet bank usd
