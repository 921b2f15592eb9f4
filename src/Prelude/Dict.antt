-- ===== src/Prelude/Dict.antt =====
-- Python's `dict` with numbers for keys: an assignment keeps the place of a key that is there, and
-- appends one that is not.
use Prim.Native.Nat.{ℕ}
use mathlib.Core.Path.{◌≡◌, refl}
use mathlib.Core.Bool.{Bool}
use mathlib.Core.Option.{Option, none, some}
use mathlib.Core.List.{List, [], ◌∷◌}
use native.Mathlib.Omega.{arith}
use ascetic_ddd_python.Prelude.Tests.{◌==◌, if◌then◌else◌}

abbrev pub Dict : Type 0 → Type 0
Dict V = List (ℕ × V)

module _ {V : Type 0} where
  -- `d.get(k)`
  unfoldable pub get : ℕ → Dict V → Option V
  get k [] = none
  get k ((j, v) ∷ d) = if j == k then some v else get k d

  -- `d[k] = v`
  unfoldable pub set : ℕ → V → Dict V → Dict V
  set k v [] = (k, v) ∷ []
  set k v ((j, w) ∷ d) = if j == k then (j, v) ∷ d else (j, w) ∷ set k v d

  -- `d.pop(k, None)`; `del d[k]` where the key is there.
  unfoldable pub delete : ℕ → Dict V → Dict V
  delete k [] = []
  delete k ((j, w) ∷ d) = let rest = delete k d in if j == k then rest else (j, w) ∷ rest

  pub get-set :
      (k j : ℕ) (v : V) (d : Dict V) → get j (set k v d) ≡ (if k == j then some v else get j d)
  unfolding get set
  get-set k j v [] = refl
  get-set k j v ((i, w) ∷ d) = ground (arith, get-set k j v d)

  pub get-delete : (k j : ℕ) (d : Dict V) → get j (delete k d) ≡ (if k == j then none else get j d)
  unfolding get delete
  get-delete k j [] = ground arith
  get-delete k j ((i, w) ∷ d) = ground (arith, get-delete k j d)

  -- Takes away the keys whose value fails a test.
  unfoldable pub keep : (V → Bool) → Dict V → Dict V
  unfolding delete
  keep p [] = []
  keep p ((j, w) ∷ d) = let rest = keep p d in if p w then (j, w) ∷ rest else delete j rest

  abbrev pub passing : (V → Bool) → Option V → Option V
  passing p none = none
  passing p (some v) = if p v then some v else none

  pub get-keep : (k : ℕ) (p : V → Bool) (d : Dict V) → get k (keep p d) ≡ passing p (get k d)
  unfolding get keep
  get-keep k p [] = refl
  get-keep k p ((j, w) ∷ d) = ground (arith, get-keep k p d, get-delete j k (keep p d))
