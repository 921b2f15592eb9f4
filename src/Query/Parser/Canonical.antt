-- ===== src/Query/Parser/Canonical.antt =====
-- The queries that the parser makes of queries without nested `$eq`.
use ascetic_ddd_python.Prelude.{String, str_eq, ◌≡◌, Bool, true, false, if◌then◌else◌}
use ascetic_ddd_python.Query.{
  Val, null, boolean, list, dict, Items, nil, cons, Fields, end, entry, Query, equals, equals_query,
  comparison, within, is_null, not_query, any_element, all_elements, len_query, and_all, or_any,
  rel, composite, Queries, no_queries, query, Constraints, no_constraints, constrain,
}
use ascetic_ddd_python.Query.Parser.{is_operator, name_of, to_dict, to_dicts, visit_composite}

module _ {A : Type 0} where
  abbrev pub IsNotDict : Val A → Type 0
  IsNotDict (dict d) = ⊥
  IsNotDict _ = Unit

  abbrev pub IsNonempty : Items A → Type 0
  IsNonempty nil = ⊥
  IsNonempty (cons v vs) = Unit

  -- One operator with its value, and not a conjunction or the fields of an object.
  abbrev pub IsOperator : Query A → Type 0
  IsOperator (equals_query q) = ⊥
  IsOperator (and_all qs) = ⊥
  IsOperator (composite f) = ⊥
  IsOperator _ = Unit

  unfoldable pub has_key : String → Fields A → Bool
  has_key k end = false
  has_key k (entry j v d) = if str_eq j k then true else has_key k d

  unfoldable pub append : Fields A → Fields A → Fields A
  append end e = e
  append (entry k v d) e = entry k v (append d e)

  -- The name and the value of an operator.
  abbrev pub key_of : Query A → String
  key_of (equals v) = "$eq"
  key_of (comparison o v) = name_of o
  key_of (within vs) = "$in"
  key_of (is_null b) = "$is_null"
  key_of (not_query q) = "$not"
  key_of (any_element q) = "$any"
  key_of (all_elements q) = "$all"
  key_of (len_query q) = "$len"
  key_of (or_any qs) = "$or"
  key_of (rel f) = "$rel"
  key_of _ = ""

  abbrev pub value_of : Query A → Val A
  value_of (equals v) = v
  value_of (comparison o v) = v
  value_of (within vs) = list vs
  value_of (is_null b) = boolean b
  value_of (not_query q) = dict (to_dict q)
  value_of (any_element q) = dict (to_dict q)
  value_of (all_elements q) = dict (to_dict q)
  value_of (len_query q) = dict (to_dict q)
  value_of (or_any qs) = list (to_dicts qs)
  value_of (rel f) = dict (visit_composite f)
  value_of _ = null

  -- What the parser makes: values of `$eq` that are no dictionaries, membership in something,
  -- conjunctions of two or more operators with different names, disjunctions of two or more queries,
  -- and objects of one or more fields whose names do not start with `$`.
  abbrev mutual
    pub IsCanonical : Query A → Type 0
    IsCanonical (equals v) = IsNotDict v
    IsCanonical (equals_query q) = ⊥
    IsCanonical (comparison o v) = Unit
    IsCanonical (within vs) = IsNonempty vs
    IsCanonical (is_null b) = Unit
    IsCanonical (not_query q) = IsCanonical q
    IsCanonical (any_element q) = IsCanonical q
    IsCanonical (all_elements q) = IsCanonical q
    IsCanonical (len_query q) = IsCanonical q
    IsCanonical (and_all qs) = AreSeveral qs × AreConjuncts end qs
    IsCanonical (or_any qs) = AreSeveral qs × AreCanonical qs
    IsCanonical (rel f) = HasCanonical f
    IsCanonical (composite f) = HasFields f × HasCanonical f

    pub AreCanonical : Queries A → Type 0
    AreCanonical no_queries = Unit
    AreCanonical (query q qs) = IsCanonical q × AreCanonical qs

    pub AreSeveral : Queries A → Type 0
    AreSeveral no_queries = ⊥
    AreSeveral (query q no_queries) = ⊥
    AreSeveral (query p (query q qs)) = Unit

    -- The names of the operators are not in the dictionary, nor twice among them.
    pub AreConjuncts : Fields A → Queries A → Type 0
    AreConjuncts d no_queries = Unit
    AreConjuncts d (query q qs) =
        IsCanonical q
        × IsOperator q
        × (has_key (key_of q) d ≡ false)
        × AreConjuncts (append d (entry (key_of q) (value_of q) end)) qs

    pub HasCanonical : Constraints A → Type 0
    HasCanonical no_constraints = Unit
    HasCanonical (constrain k q f) = IsCanonical q × HasCanonical f

    pub HasFields : Constraints A → Type 0
    HasFields no_constraints = ⊥
    HasFields (constrain k q no_constraints) = is_operator k ≡ false
    HasFields (constrain k q (constrain j p f)) =
        (is_operator k ≡ false) × HasFields (constrain j p f)
