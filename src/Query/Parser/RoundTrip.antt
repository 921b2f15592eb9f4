-- ===== src/Query/Parser/RoundTrip.antt =====
-- A canonical query, written as a dictionary, parses back.
use ascetic_ddd_python.Prelude.{String, ◌≡◌, refl, sym, ap, ltb, ◌∙◌, Bool, true, false, arith}
use ascetic_ddd_python.Prelude.Result.{Result, ok, ◌>>=◌}
use ascetic_ddd_python.Query.{
  Error, Comparison, ne, gt, gte, lt, lte, Val, list, dict, Items, nil, cons, Fields, end, entry,
  Query, equals, equals_query, comparison, within, is_null, not_query, any_element, all_elements,
  len_query, and_all, or_any, rel, composite, Queries, no_queries, query, Constraints,
  no_constraints, constrain,
}
use ascetic_ddd_python.Query.Evaluation.{length}
use ascetic_ddd_python.Query.Parser.Canonical.{
  IsNotDict, IsNonempty, IsOperator, has_key, append, key_of, value_of, IsCanonical, AreCanonical,
  AreSeveral, AreConjuncts, HasCanonical, HasFields,
}
use ascetic_ddd_python.Query.Parser.Normal.{normalize-canonical}
use ascetic_ddd_python.Query.Parser.{
  is_operator, has_operator, has_field, parse_single_operator, conjoined, parse, parse_operators,
  parse_fields, parse_rel, parse_or, parse_operands, normalize_query, parse_query, set_entry,
  update, to_dict, visit_and, to_dicts, visit_composite,
}

module _ {A : Type 0} where
  pub whole_of_single :
      (k : String) (w : Val A) (q : Query A)
      → is_operator k ≡ true
      → parse_single_operator k w (parse w) (parse_rel w) (parse_or w) ≡ ok q
      → parse (dict (entry k w end)) ≡ ok q
  unfolding parse
  whole_of_single k w q h s = ground (arith, h, s)

  key_of-is_operator : (q : Query A) → IsOperator q → is_operator (key_of q) ≡ true
  unfolding is_operator
  key_of-is_operator (equals v) h = refl
  key_of-is_operator (equals_query q) h = absurd h
  key_of-is_operator (comparison ne v) h = refl
  key_of-is_operator (comparison gt v) h = refl
  key_of-is_operator (comparison gte v) h = refl
  key_of-is_operator (comparison lt v) h = refl
  key_of-is_operator (comparison lte v) h = refl
  key_of-is_operator (and_all qs) h = absurd h
  key_of-is_operator (composite f) h = absurd h
  key_of-is_operator _ h = refl

  to_dict-operator : (q : Query A) → IsOperator q → to_dict q ≡ entry (key_of q) (value_of q) end
  unfolding to_dict
  to_dict-operator (equals_query q) h = absurd h
  to_dict-operator (and_all qs) h = absurd h
  to_dict-operator (composite f) h = absurd h
  to_dict-operator _ h = refl

  append-end : (d : Fields A) → append d end ≡ d
  unfolding append
  append-end end = refl
  append-end (entry k v d) = ap (entry k v) (append-end d)

  append-append : (d e f : Fields A) → append (append d e) f ≡ append d (append e f)
  unfolding append
  append-append end e f = refl
  append-append (entry k v d) e f = ap (entry k v) (append-append d e f)

  set_entry-absent :
      (k : String) (v : Val A) (d : Fields A)
      → has_key k d ≡ false
      → set_entry k v d ≡ append d (entry k v end)
  unfolding set_entry has_key append
  set_entry-absent k v end h = refl
  set_entry-absent k v (entry j w d) h = ground (arith, set_entry-absent k v d)

  -- The dictionary of a conjunction has one entry for each operator.
  dicts : Queries A → Fields A
  dicts no_queries = end
  dicts (query q qs) = entry (key_of q) (value_of q) (dicts qs)

  visit_and-dicts :
      (d : Fields A) (qs : Queries A) → AreConjuncts d qs → visit_and d qs ≡ append d (dicts qs)
  unfolding to_dict dicts update
  visit_and-dicts d no_queries h = sym (append-end d)
  visit_and-dicts d (query q qs) h =
      let single = entry (key_of q) (value_of q) end in
      ap (λ e. visit_and (update d e) qs) (to_dict-operator q h.1)
      ∙ ap (λ e. visit_and e qs) (set_entry-absent (key_of q) (value_of q) d h.2)
      ∙ visit_and-dicts (append d single) qs h.3
      ∙ append-append d single (dicts qs)
      ∙ ap (append d) (unfold append in refl)

  has_field-dicts :
      (d : Fields A) (qs : Queries A) → AreConjuncts d qs → has_field (dicts qs) ≡ false
  unfolding has_field dicts
  has_field-dicts d no_queries h = refl
  has_field-dicts d (query q qs) h = ground (
    arith,
    key_of-is_operator q h.1,
    has_field-dicts (append d (entry (key_of q) (value_of q) end)) qs h.3,
  )

  has_operator-fields : (f : Constraints A) → HasFields f → has_operator (visit_composite f) ≡ false
  unfolding has_operator to_dict
  has_operator-fields no_constraints h = absurd h
  has_operator-fields (constrain k q no_constraints) h = ground arith
  has_operator-fields (constrain k q (constrain j p f)) h =
      ground (arith, h.0, has_operator-fields (constrain j p f) h.1)

  abbrev single_of : Query A → Result Error (Query A)
  single_of q =
      parse_single_operator (key_of q) (value_of q) (parse (value_of q)) (parse_rel (value_of q))
        (parse_or (value_of q))

  abbrev Parses : Query A → Type 0
  Parses q = (IsOperator q → single_of q ≡ ok q) × (parse (dict (to_dict q)) ≡ ok q)

  -- An operator is read by its name, and then as a dictionary with one entry.
  operator_reads : (q : Query A) → IsOperator q → single_of q ≡ ok q → Parses q
  operator_reads q h s = (
    λ _. s,
    ap (λ d. parse (dict d)) (to_dict-operator q h)
        ∙ whole_of_single (key_of q) (value_of q) q (key_of-is_operator q h) s,
  )

  pub single_equals : (v : Val A) → IsNotDict v → single_of (equals v) ≡ ok (equals v)
  unfolding parse_single_operator
  single_equals (dict d) h = absurd h
  single_equals _ h = refl

  single_comparison :
      (o : Comparison) (v : Val A) → single_of (comparison o v) ≡ ok (comparison o v)
  unfolding parse_single_operator
  single_comparison ne v = refl
  single_comparison gt v = refl
  single_comparison gte v = refl
  single_comparison lt v = refl
  single_comparison lte v = refl

  single_within : (vs : Items A) → IsNonempty vs → single_of (within vs) ≡ ok (within vs)
  unfolding parse_single_operator
  single_within nil h = absurd h
  single_within (cons v vs) h = refl

  parse_or-list :
      (vs : Items A) → ltb (length vs) 2 ≡ false → parse_or (list vs) ≡ parse_operands vs
  unfolding parse
  parse_or-list vs h = rw h refl

  parse-operators_of :
      (k : String) (v : Val A) (d : Fields A)
      → is_operator k ≡ true
      → has_field (entry k v d) ≡ false
      → parse (dict (entry k v d)) ≡ (parse_operators (entry k v d) >>= λ qs. ok (conjoined qs))
  unfolding parse has_operator
  parse-operators_of k v d h plain = rw (plain, h) refl

  -- A dictionary of operators, and one of fields.
  parse-operators :
      (k : String) (v : Val A) (d : Fields A) (qs : Queries A)
      → is_operator k ≡ true
      → has_field (entry k v d) ≡ false
      → parse_operators (entry k v d) ≡ ok qs
      → parse (dict (entry k v d)) ≡ ok (conjoined qs)
  parse-operators k v d qs h plain e =
      parse-operators_of k v d h plain ∙ ap (λ r. r >>= λ qs. ok (conjoined qs)) e

  pub parse-fields :
      (k : String) (v : Val A) (d : Fields A)
      → has_operator (entry k v d) ≡ false
      → parse (dict (entry k v d)) ≡ (parse_fields (entry k v d) >>= λ f. ok (composite f))
  unfolding parse
  parse-fields k v d h = rw h refl

  parse_rel-dict : (d : Fields A) → parse_rel (dict d) ≡ parse_fields d
  unfolding parse
  parse_rel-dict d = refl

  single_or :
      (qs : Queries A)
      → AreSeveral qs
      → parse_operands (to_dicts qs) ≡ ok qs
      → single_of (or_any qs) ≡ ok (or_any qs)
  unfolding parse_single_operator to_dict
  single_or no_queries h e = absurd h
  single_or (query q no_queries) h e = absurd h
  single_or (query p (query q qs)) h e =
      ap (λ x. x >>= λ rs. ok (or_any rs))
        (parse_or-list (to_dicts (query p (query q qs))) (ground arith) ∙ e)

  conjoined-several : (qs : Queries A) → AreSeveral qs → conjoined qs ≡ and_all qs
  unfolding conjoined
  conjoined-several no_queries h = absurd h
  conjoined-several (query q no_queries) h = absurd h
  conjoined-several (query p (query q qs)) h = refl

  to_dict-and : (qs : Queries A) → AreConjuncts end qs → to_dict (and_all qs) ≡ dicts qs
  unfolding to_dict append
  to_dict-and qs h = visit_and-dicts end qs h

  whole_and :
      (qs : Queries A)
      → AreSeveral qs
      → AreConjuncts end qs
      → parse_operators (dicts qs) ≡ ok qs
      → parse (dict (to_dict (and_all qs))) ≡ ok (and_all qs)
  unfolding dicts
  whole_and no_queries several h e = absurd several
  whole_and (query q qs) several h e =
      ap (λ d. parse (dict d)) (to_dict-and (query q qs) h)
      ∙ parse-operators (key_of q) (value_of q) (dicts qs) (query q qs) (key_of-is_operator q h.1)
          (has_field-dicts end (query q qs) h) e
      ∙ ap ok (conjoined-several (query q qs) several)

  whole_composite :
      (f : Constraints A)
      → HasFields f
      → parse_fields (visit_composite f) ≡ ok f
      → parse (dict (visit_composite f)) ≡ ok (composite f)
  unfolding visit_composite
  whole_composite no_constraints h e = absurd h
  whole_composite (constrain k q f) h e =
      parse-fields k (dict (to_dict q)) (visit_composite f)
        (has_operator-fields (constrain k q f) h)
      ∙ ap (λ r. r >>= λ g. ok (composite g)) e

  literal_has_name : (v : Val A) → IsNotDict v → IsOperator (equals v)
  literal_has_name v h = tt

  single_null : (b : Bool) → single_of (is_null b) ≡ ok (is_null b)
  unfolding parse_single_operator
  single_null b = refl

  single_not :
      (q : Query A) → parse (dict (to_dict q)) ≡ ok q → single_of (not_query q) ≡ ok (not_query q)
  unfolding parse_single_operator
  single_not q e = rw e refl

  single_any :
      (q : Query A)
      → parse (dict (to_dict q)) ≡ ok q
      → single_of (any_element q) ≡ ok (any_element q)
  unfolding parse_single_operator
  single_any q e = rw e refl

  single_all :
      (q : Query A)
      → parse (dict (to_dict q)) ≡ ok q
      → single_of (all_elements q) ≡ ok (all_elements q)
  unfolding parse_single_operator
  single_all q e = rw e refl

  single_len :
      (q : Query A) → parse (dict (to_dict q)) ≡ ok q → single_of (len_query q) ≡ ok (len_query q)
  unfolding parse_single_operator
  single_len q e = rw e refl

  single_rel :
      (f : Constraints A) → parse_fields (visit_composite f) ≡ ok f → single_of (rel f) ≡ ok (rel f)
  unfolding parse_single_operator
  single_rel f e = ap (λ r. r >>= λ g. ok (rel g)) (parse_rel-dict (visit_composite f) ∙ e)

  mutual
    unfolding to_dict parse dicts

    reads : (q : Query A) → IsCanonical q → Parses q
    reads (equals v) h = operator_reads (equals v) (literal_has_name v h) (single_equals v h)
    reads (equals_query q) h = absurd h
    reads (comparison o v) h = operator_reads (comparison o v) tt (single_comparison o v)
    reads (within vs) h = operator_reads (within vs) tt (single_within vs h)
    reads (is_null b) h = operator_reads (is_null b) tt (single_null b)
    reads (not_query q) h = operator_reads (not_query q) tt (single_not q (reads q h).1)
    reads (any_element q) h = operator_reads (any_element q) tt (single_any q (reads q h).1)
    reads (all_elements q) h = operator_reads (all_elements q) tt (single_all q (reads q h).1)
    reads (len_query q) h = operator_reads (len_query q) tt (single_len q (reads q h).1)
    reads (and_all qs) h = (λ o. absurd o, whole_and qs h.0 h.1 (reads_conjuncts qs end h.1))
    reads (or_any qs) h = operator_reads (or_any qs) tt (single_or qs h.0 (reads_all qs h.1))
    reads (rel f) h = operator_reads (rel f) tt (single_rel f (reads_fields f h))
    reads (composite f) h = (λ o. absurd o, whole_composite f h.0 (reads_fields f h.1))

    reads_all : (qs : Queries A) → AreCanonical qs → parse_operands (to_dicts qs) ≡ ok qs
    reads_all no_queries h = refl
    reads_all (query q qs) h = rw ((reads q h.0).1, reads_all qs h.1) refl

    reads_conjuncts :
        (qs : Queries A) (d : Fields A) → AreConjuncts d qs → parse_operators (dicts qs) ≡ ok qs
    reads_conjuncts no_queries d h = refl
    reads_conjuncts (query q qs) d h =
        rw
          (
            (reads q h.0).0 h.1,
            reads_conjuncts qs (append d (entry (key_of q) (value_of q) end)) h.3,
          )
          refl

    reads_fields : (f : Constraints A) → HasCanonical f → parse_fields (visit_composite f) ≡ ok f
    reads_fields no_constraints h = refl
    reads_fields (constrain k q f) h = rw ((reads q h.0).1, reads_fields f h.1) refl

  -- A canonical query - with no `$eq` on a dictionary, no empty `$in`, conjunctions of two or more
  -- operators of different names, disjunctions of two or more queries, and objects with one or more
  -- fields whose names do not start with `$` - turned into a dictionary and parsed, is that query.
  pub parse_query-to_dict : (q : Query A) → IsCanonical q → parse_query (dict (to_dict q)) ≡ ok q
  unfolding parse_query
  parse_query-to_dict q h =
      ap (λ r. r >>= λ p. ok (normalize_query p)) (reads q h).1 ∙ ap ok (normalize-canonical q h)
