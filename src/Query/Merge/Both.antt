-- ===== src/Query/Merge/Both.antt =====
-- Conjunctions of answers, and what a sum of equal operators is.
use ascetic_ddd_python.Prelude.{
  ◌≢◌, String, ◌≡◌, refl, Bool, true, false, Option, none, some, arith,
}
use ascetic_ddd_python.Prelude.Result.{Result, ok}
use ascetic_ddd_python.Query.{agreed, dict, Error, Val, dict, Fields, Query, Python, agreed}
use ascetic_ddd_python.Query.Evaluation.{ObjectResolver, on_dict, related}
use ascetic_ddd_python.Query.Merge.Compatible.{Compatible, Compatible-not}

pub ok-injective : {A : Type 0} {a b : A} → ◌≡◌ {A = Result Error A} (ok a) (ok b) → a ≡ b
ok-injective e = cc

pub agreed-cases :
    {A : Type 0} (b : Bool) (q c : Query A) → agreed b q ≡ ok c → (b ≡ true) × (q ≡ c)
unfolding agreed
agreed-cases true q c h = (refl, ground arith)
agreed-cases false q c h = cc

-- `x` is the conjunction of `y` and `z`, as far as they are answers: where it is true neither of them
-- is false, and where it is false not both are true.
abbrev pub IsConjunction : Result Error Bool → Result Error Bool → Result Error Bool → Type 0
IsConjunction x y z =
    (x ≡ ok true → (y ≢ ok false) × (z ≢ ok false))
    × (x ≡ ok false → ¬ ((y ≡ ok true) × (z ≡ ok true)))

pub nothing_holds : IsConjunction (ok false) (ok false) (ok false)
nothing_holds = ((λ e. cc), (λ e both. cc))

pub self-IsConjunction : (x y : Result Error Bool) → Compatible x y → IsConjunction x x y
self-IsConjunction x y c = ((λ e. ((λ f. cc), Compatible-not x y c e)), (λ e both. cc))

module _ {A R : Type 0} (python : Python A) (objects : ObjectResolver A R) where
  pub on_dict-IsConjunction :
      (t u v : Fields A → Result Error Bool) (s : Val A)
      → ((d : Fields A) → IsConjunction (t d) (u d) (v d))
      → IsConjunction (on_dict t s) (on_dict u s) (on_dict v s)
  unfolding on_dict
  on_dict-IsConjunction t u v (dict d) h = h d
  on_dict-IsConjunction t u v _ h = nothing_holds

  pub related-IsConjunction :
      (r : R) (field : Option String) (fk : Val A) (t u v : Option R → Val A → Result Error Bool)
      → ((n : Option R) (y : Val A) → IsConjunction (t n y) (u n y) (v n y))
      → IsConjunction
          (related python objects r field fk t)
          (related python objects r field fk u)
          (related python objects r field fk v)
  unfolding related
  related-IsConjunction r field fk t u v h = go (objects.resolve r field fk)
    where
      go :
          (o : Option (Val A × Option R))
          → IsConjunction
              (elim o [ none ↦ ok false | some (foreign, nested) ↦ t nested foreign ])
              (elim o [ none ↦ ok false | some (foreign, nested) ↦ u nested foreign ])
              (elim o [ none ↦ ok false | some (foreign, nested) ↦ v nested foreign ])
      go none = nothing_holds
      go (some (foreign, nested)) = h nested foreign
