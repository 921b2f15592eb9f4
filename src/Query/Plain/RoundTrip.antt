-- ===== src/Query/Plain/RoundTrip.antt =====
-- From a plain value to a query and back.
use ascetic_ddd_python.Prelude.{◌≡◌, refl, ap, ◌∙◌, false, arith}
use ascetic_ddd_python.Prelude.Result.{Result, ok, ◌>>=◌}
use ascetic_ddd_python.Query.{
  Error, Val, null, boolean, scalar, list, dict, Fields, end, entry, Query, equals, composite,
  Constraints, no_constraints, constrain,
}
use ascetic_ddd_python.Query.Parser.{
  is_operator, has_operator, parse, parse_fields, normalize_query, normalize_fields, parse_query,
}
use ascetic_ddd_python.Query.Parser.Canonical.{IsNotDict}
use ascetic_ddd_python.Query.Parser.RoundTrip.{whole_of_single, single_equals, parse-fields}
use ascetic_ddd_python.Query.Plain.{dict_to_query, dicts_to_queries, to_plain_value, plain_fields}
use mathlib.Core.Path.{ap₂}

module _ {A : Type 0} where
  -- Its dictionaries, those inside lists aside, have entries, with names that do not start with `$`.
  abbrev mutual
    pub IsPlain : Val A → Type 0
    IsPlain (dict end) = ⊥
    IsPlain (dict (entry k v d)) = (is_operator k ≡ false) × IsPlain v × ArePlain d
    IsPlain _ = Unit

    pub ArePlain : Fields A → Type 0
    ArePlain end = Unit
    ArePlain (entry k v d) = (is_operator k ≡ false) × IsPlain v × ArePlain d

  -- The query of a plain value: equality to the values at its leaves.
  mutual
    query_of : Val A → Query A
    query_of (dict d) = composite (constraints_of d)
    query_of v = equals v

    constraints_of : Fields A → Constraints A
    constraints_of end = no_constraints
    constraints_of (entry k v d) = constrain k (query_of v) (constraints_of d)

  has_operator-plain : (d : Fields A) → ArePlain d → has_operator (dicts_to_queries d) ≡ false
  unfolding has_operator dicts_to_queries
  has_operator-plain end h = refl
  has_operator-plain (entry k v d) h = ground (arith, h.0, has_operator-plain d h.2)

  parse-leaf : (v : Val A) → IsNotDict v → parse (dict (entry "$eq" v end)) ≡ ok (equals v)
  unfolding is_operator
  parse-leaf v h = whole_of_single "$eq" v (equals v) refl (single_equals v h)

  mutual
    unfolding query_of dict_to_query parse

    parse-dict_to_query : (v : Val A) → IsPlain v → parse (dict (dict_to_query v)) ≡ ok (query_of v)
    parse-dict_to_query (dict end) h = absurd h
    parse-dict_to_query (dict (entry k v d)) h =
        parse-fields k (dict (dict_to_query v)) (dicts_to_queries d)
          (has_operator-plain (entry k v d) h)
        ∙ ap (λ r. r >>= λ f. ok (composite f)) (parse-dicts_to_queries (entry k v d) h)
    parse-dict_to_query null h = parse-leaf null tt
    parse-dict_to_query (boolean b) h = parse-leaf (boolean b) tt
    parse-dict_to_query (scalar a) h = parse-leaf (scalar a) tt
    parse-dict_to_query (list vs) h = parse-leaf (list vs) tt

    parse-dicts_to_queries :
        (d : Fields A) → ArePlain d → parse_fields (dicts_to_queries d) ≡ ok (constraints_of d)
    parse-dicts_to_queries end h = refl
    parse-dicts_to_queries (entry k v d) h =
        rw (parse-dict_to_query v h.1, parse-dicts_to_queries d h.2) refl

  mutual
    unfolding query_of normalize_query

    normalize-query_of : (v : Val A) → normalize_query (query_of v) ≡ query_of v
    normalize-query_of (dict d) = ap composite (normalize-constraints_of d)
    normalize-query_of _ = refl

    normalize-constraints_of :
        (d : Fields A) → normalize_fields (constraints_of d) ≡ constraints_of d
    normalize-constraints_of end = refl
    normalize-constraints_of (entry k v d) =
        ap₂ (constrain k) (normalize-query_of v) (normalize-constraints_of d)

module _ {A : Type 0} (update_other : Fields A → Val A → Result Error (Fields A)) where
  mutual
    unfolding query_of to_plain_value

    plain-query_of : (v : Val A) → to_plain_value update_other (query_of v) ≡ ok v
    plain-query_of (dict d) = ap (λ r. r >>= λ d. ok (dict d)) (plain-constraints_of d)
    plain-query_of _ = refl

    plain-constraints_of : (d : Fields A) → plain_fields update_other (constraints_of d) ≡ ok d
    plain-constraints_of end = refl
    plain-constraints_of (entry k v d) = rw (plain-query_of v, plain-constraints_of d) refl

  -- A value whose dictionaries, those inside lists aside, are not empty and have no names that start
  -- with `$`, made a query, parsed and made a plain value again, is that value.
  pub to_plain_value-dict_to_query :
      (v : Val A)
      → IsPlain v
      → (parse_query (dict (dict_to_query v)) >>= to_plain_value update_other) ≡ ok v
  unfolding parse_query
  to_plain_value-dict_to_query v h =
      ap (λ r. r >>= (λ q. ok (normalize_query q)) >>= to_plain_value update_other)
        (parse-dict_to_query v h)
      ∙ ap (to_plain_value update_other) (normalize-query_of v)
      ∙ plain-query_of v
