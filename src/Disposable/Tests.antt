-- ===== src/Disposable/Tests.antt =====
-- Callbacks that write their number down; number 9 raises.
use ascetic_ddd_python.Prelude.{ℕ, ◌≡◌, refl, ◌==◌, if◌then◌else◌, List, [], ◌∷◌, ◌++◌}
use ascetic_ddd_python.Prelude.Result.{Result, ok, raise}
use ascetic_ddd_python.Disposable.{disposable, add, dispose}

abbrev call : ℕ → List ℕ → Result ℕ Unit × List ℕ
call n w = if n == 9 then (raise n, w) else (ok tt, w ++ n ∷ [])

disposed :
    dispose call (add (add (disposable 1) (disposable 2)) (disposable 3)) []
    ≡ (ok tt, 1 ∷ 2 ∷ 3 ∷ [])
unfolding dispose add
disposed = refl

stopped :
    dispose call (add (add (disposable 1) (disposable 9)) (disposable 3)) [] ≡ (raise 9, 1 ∷ [])
unfolding dispose add
stopped = refl
