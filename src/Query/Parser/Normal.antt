-- ===== src/Query/Parser/Normal.antt =====
-- Normalisation leaves canonical queries alone, and gives queries that it leaves alone.
use ascetic_ddd_python.Prelude.{◌≡◌, refl, ap}
use mathlib.Core.Path.{ap₂}
use ascetic_ddd_python.Query.{
  Fields, end, entry, Query, equals, equals_query, comparison, within, is_null, not_query,
  any_element, all_elements, len_query, and_all, or_any, rel, composite, Queries, no_queries, query,
  Constraints, no_constraints, constrain,
}
use ascetic_ddd_python.Query.Parser.Canonical.{
  append, key_of, value_of, IsCanonical, AreCanonical, AreConjuncts, HasCanonical,
}
use ascetic_ddd_python.Query.Parser.{normalize_query, normalize_all, normalize_fields}

module _ {A : Type 0} where
  mutual
    unfolding normalize_query

    pub normalize-canonical : (q : Query A) → IsCanonical q → normalize_query q ≡ q
    normalize-canonical (equals v) h = refl
    normalize-canonical (equals_query q) h = absurd h
    normalize-canonical (comparison o v) h = refl
    normalize-canonical (within vs) h = refl
    normalize-canonical (is_null b) h = refl
    normalize-canonical (not_query q) h = ap not_query (normalize-canonical q h)
    normalize-canonical (any_element q) h = ap any_element (normalize-canonical q h)
    normalize-canonical (all_elements q) h = ap all_elements (normalize-canonical q h)
    normalize-canonical (len_query q) h = ap len_query (normalize-canonical q h)
    normalize-canonical (and_all qs) h = ap and_all (normalize_conjuncts end qs h.1)
    normalize-canonical (or_any qs) h = ap or_any (normalize_operands qs h.1)
    normalize-canonical (rel f) h = ap rel (normalize_constraints f h)
    normalize-canonical (composite f) h = ap composite (normalize_constraints f h.1)

    normalize_conjuncts :
        (d : Fields A) (qs : Queries A) → AreConjuncts d qs → normalize_all qs ≡ qs
    normalize_conjuncts d no_queries h = refl
    normalize_conjuncts d (query q qs) h =
        ap₂ query (normalize-canonical q h.0)
          (normalize_conjuncts (append d (entry (key_of q) (value_of q) end)) qs h.3)

    normalize_operands : (qs : Queries A) → AreCanonical qs → normalize_all qs ≡ qs
    normalize_operands no_queries h = refl
    normalize_operands (query q qs) h =
        ap₂ query (normalize-canonical q h.0) (normalize_operands qs h.1)

    normalize_constraints : (f : Constraints A) → HasCanonical f → normalize_fields f ≡ f
    normalize_constraints no_constraints h = refl
    normalize_constraints (constrain k q f) h =
        ap₂ (constrain k) (normalize-canonical q h.0) (normalize_constraints f h.1)

  -- `equals_query` is nowhere in what is normalised.
  mutual
    unfolding normalize_query

    pub normalize-normalize :
        (q : Query A) → normalize_query (normalize_query q) ≡ normalize_query q
    normalize-normalize (equals v) = refl
    normalize-normalize (equals_query q) = normalize-normalize q
    normalize-normalize (comparison o v) = refl
    normalize-normalize (within vs) = refl
    normalize-normalize (is_null b) = refl
    normalize-normalize (not_query q) = ap not_query (normalize-normalize q)
    normalize-normalize (any_element q) = ap any_element (normalize-normalize q)
    normalize-normalize (all_elements q) = ap all_elements (normalize-normalize q)
    normalize-normalize (len_query q) = ap len_query (normalize-normalize q)
    normalize-normalize (and_all qs) = ap and_all (all_twice qs)
    normalize-normalize (or_any qs) = ap or_any (all_twice qs)
    normalize-normalize (rel f) = ap rel (fields_twice f)
    normalize-normalize (composite f) = ap composite (fields_twice f)

    all_twice : (qs : Queries A) → normalize_all (normalize_all qs) ≡ normalize_all qs
    all_twice no_queries = refl
    all_twice (query q qs) = ap₂ query (normalize-normalize q) (all_twice qs)

    fields_twice : (f : Constraints A) → normalize_fields (normalize_fields f) ≡ normalize_fields f
    fields_twice no_constraints = refl
    fields_twice (constrain k q f) = ap₂ (constrain k) (normalize-normalize q) (fields_twice f)
