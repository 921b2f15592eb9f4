-- ===== src/Deferred/Tests.antt =====
-- A chain of two callbacks: the first raises 9 for 0, and the second recovers from an error.
use ascetic_ddd_python.Prelude.{ℕ, zero, suc, ◌≡◌, refl, [], ◌∷◌}
use ascetic_ddd_python.Prelude.Result.{Result, ok, raise}
use ascetic_ddd_python.Deferred.{Deferred, init, resolve, reject, then_do, occurred_err}
use ascetic_ddd_python.Deferred.Timing.{at_path}

abbrev half : ℕ → Result ℕ ℕ
half zero = raise 9
half (suc n) = ok n

abbrev recover : ℕ → Result ℕ ℕ
recover e = ok (suc e)

abbrev rethrow : ℕ → Result ℕ ℕ
rethrow e = raise e

abbrev chain : Deferred ℕ ℕ
chain = then_do half rethrow init

noted : occurred_err (resolve 0 (at_path (0 ∷ []) (then_do half recover) chain)) ≡ 9 ∷ []
unfolding occurred_err resolve at_path then_do init
noted = refl

late : occurred_err (at_path (0 ∷ []) (then_do half rethrow) (reject 4 chain)) ≡ 4 ∷ 4 ∷ []
unfolding occurred_err resolve at_path then_do init
late = refl
