-- ===== src/Query/Merge/Fields.antt =====
-- When the constraints of a dictionary hold, and when they fail.
use ascetic_ddd_python.Prelude.{
  String, str_eq, eq_iff, ◌≡◌, refl, sym, ◌∙◌, Bool, true, false, Option, some, Bool-cases, inl,
  inr, ◌⊎◌, arith,
}
use ascetic_ddd_python.Prelude.Result.{Result, ok, raise}
use ascetic_ddd_python.Query.{
  Error, Fields, Query, Constraints, no_constraints, constrain, Python, get,
}
use ascetic_ddd_python.Query.Evaluation.{ObjectResolver, both, evaluate, evaluate_fields}
use ascetic_ddd_python.Query.Merge.{KeysDiffer}
use ascetic_ddd_python.Query.Merge.Compatible.{walk_field, walk_fields_cons}

module _ {A R : Type 0} (python : Python A) (objects : ObjectResolver A R) where
  abbrev walk_fields : Constraints A → Option R → Fields A → Result Error Bool
  walk_fields = evaluate_fields python objects

  both-true : (x y : Result Error Bool) → both x y ≡ ok true → (x ≡ ok true) × (y ≡ ok true)
  unfolding both
  both-true (ok true) y h = (refl, h)
  both-true (ok false) y h = cc
  both-true (raise e) y h = cc

  -- If all fields hold, each key's operator holds.
  pub holds_all :
      (f : Constraints A) (r : Option R) (d : Fields A) (k : String) (op : Query A)
      → walk_fields f r d ≡ ok true
      → get k f ≡ some op
      → walk_field python objects k op r d ≡ ok true
  unfolding get both
  holds_all no_constraints r d k op h e = cc
  holds_all (constrain j p f) r d k op h e =
      let parts =
        both-true (walk_field python objects j p r d) (walk_fields f r d)
          (sym (walk_fields_cons python objects j p f r d) ∙ h) in
      elim (Bool-cases (str_eq j k)) [
        | inl same ↦
            let key : j ≡ k = (eq_iff j k).0 same in
            let found : p ≡ op = ground arith in cc (parts.0)
        | inr other ↦ holds_all f r d k op parts.1 (ground arith)
      ]

  both-false :
      (x y : Result Error Bool)
      → both x y ≡ ok false
      → (x ≡ ok false) ⊎ ((x ≡ ok true) × (y ≡ ok false))
  unfolding both
  both-false (ok true) y h = inr (refl, h)
  both-false (ok false) y h = inl refl
  both-false (raise e) y h = cc

  -- A dictionary of constraints fails by one of its fields.
  pub record Failing (f : Constraints A) (r : Option R) (d : Fields A) : Type 0 where
    pub key : String
    pub op : Query A
    pub there : get key f ≡ some op
    pub fails : walk_field python objects key op r d ≡ ok false

  pub fails_some :
      (f : Constraints A) (r : Option R) (d : Fields A)
      → KeysDiffer f
      → walk_fields f r d ≡ ok false
      → Failing f r d
  unfolding get
  fails_some no_constraints r d keys h = unfold evaluate in cc
  fails_some (constrain j p f) r d keys h =
      elim (both-false (walk_field python objects j p r d) (walk_fields f r d)
        (sym (walk_fields_cons python objects j p f r d) ∙ h)) [
          | inl here ↦ record { key = j; op = p; there = ground (arith, eq_iff j j); fails = here }
          | inr (held, rest) ↦
              let found = fails_some f r d keys.2 rest in
              record {
                key = found.key;
                op = found.op;
                there = ground (arith, found.there, eq_iff j found.key, keys.1);
                fails = found.fails;
              }
        ]
