-- ===== src/Query/Tests.antt =====
-- Orders of a shop: numbers are scalars, and a customer is found by its number.
use ascetic_ddd_python.Prelude.{
  ℕ, ◌==◌, ltb, eq_iff, ◌≡◌, refl, ap, Bool, true, false, ◌&&◌, not, none, some, String, str_eq,
  arith, if◌then◌else◌,
}
use ascetic_ddd_python.Prelude.Result.{Result, ok, raise, ◌>>=◌}
use mathlib.Core.Path.{ap₂}
use ascetic_ddd_python.Query.{
  Error, type_error, merge_conflict, value_error, Comparison, ne, gt, gte, lt, lte, Val, null,
  boolean, scalar, list, dict, Items, nil, cons, Fields, end, entry, Query, equals, comparison,
  is_null, all_elements, and_all, or_any, rel, composite, no_queries, query, Constraints,
  no_constraints, constrain, Python, eq_bool, eq_comparison, get, eq, add,
}
use ascetic_ddd_python.Query.Evaluation.{ObjectResolver, evaluate, evaluate_sync, accept}
use ascetic_ddd_python.Query.Evaluation.Agreement.{evaluators_agree}
use ascetic_ddd_python.Query.Merge.{IsRegular}
use ascetic_ddd_python.Query.Merge.Compatible.{Compatible}
use ascetic_ddd_python.Query.Merge.Both.{IsConjunction}
use ascetic_ddd_python.Query.Merge.Conjunction.{add-both}
use ascetic_ddd_python.Query.Merge.Equality.{eq-evaluate}
use ascetic_ddd_python.Query.Parser.{is_operator, parse_query, to_dict}
use ascetic_ddd_python.Query.Parser.Canonical.{IsCanonical, has_key, append}
use ascetic_ddd_python.Query.Parser.RoundTrip.{parse_query-to_dict}
use ascetic_ddd_python.Query.Plain.{dict_to_query, to_plain_value}
use ascetic_ddd_python.Query.Plain.RoundTrip.{to_plain_value-dict_to_query}

mutual
  same_value : Val ℕ → Val ℕ → Bool
  same_value null null = true
  same_value (boolean b) (boolean c) = eq_bool b c
  same_value (scalar m) (scalar n) = m == n
  same_value (list vs) (list ws) = same_items vs ws
  same_value (dict d) (dict e) = same_fields d e
  same_value _ _ = false

  same_items : Items ℕ → Items ℕ → Bool
  same_items nil nil = true
  same_items (cons v vs) (cons w ws) = same_value v w && same_items vs ws
  same_items _ _ = false

  same_fields : Fields ℕ → Fields ℕ → Bool
  same_fields end end = true
  same_fields (entry k v d) (entry j w e) = str_eq k j && (same_value v w && same_fields d e)
  same_fields _ _ = false

-- Ordering values that are no numbers raises TypeError, as `None > None` does.
abbrev order_value : Comparison → Val ℕ → Val ℕ → Result Error Bool
order_value ne v w = ok false
order_value gt (scalar m) (scalar n) = ok (ltb n m)
order_value gte (scalar m) (scalar n) = ok (not (ltb m n))
order_value lt (scalar m) (scalar n) = ok (ltb m n)
order_value lte (scalar m) (scalar n) = ok (not (ltb n m))
order_value _ _ _ = raise type_error

abbrev numbers : Python ℕ
numbers = record { same = same_value; order = order_value; of_length = λ n. n }

both_hold : (a b : Bool) → (a && b) ≡ true → (a ≡ true) × (b ≡ true)
both_hold a b h = ground arith

same_bool : (b c : Bool) → eq_bool b c ≡ true → b ≡ c
same_bool true true h = refl
same_bool true false h = ground arith
same_bool false true h = ground arith
same_bool false false h = refl

equal_numbers : (m n : ℕ) → (m == n) ≡ true → m ≡ n
equal_numbers m n h = ground arith

equal_names : (k j : String) → str_eq k j ≡ true → k ≡ j
equal_names k j h = ground (arith, eq_iff k j)

entries_equal :
    (k j : String) (v w : Val ℕ) (d e : Fields ℕ)
    → k ≡ j
    → v ≡ w
    → d ≡ e
    → entry k v d ≡ entry j w e
entries_equal k j v w d e hk hv hd = cc

mutual
  unfolding same_value

  equal_values : (v w : Val ℕ) → same_value v w ≡ true → v ≡ w
  equal_values null null h = refl
  equal_values (boolean b) (boolean c) h = ap boolean (same_bool b c h)
  equal_values (scalar m) (scalar n) h = ap scalar (equal_numbers m n h)
  equal_values (list vs) (list ws) h = ap list (equal_items vs ws h)
  equal_values (dict d) (dict e) h = ap dict (equal_fields d e h)
  equal_values _ _ h = cc

  equal_items : (vs ws : Items ℕ) → same_items vs ws ≡ true → vs ≡ ws
  equal_items nil nil h = refl
  equal_items (cons v vs) (cons w ws) h =
      let h = both_hold (same_value v w) (same_items vs ws) h in
      ap₂ cons (equal_values v w h.0) (equal_items vs ws h.1)
  equal_items _ _ h = cc

  equal_fields : (d e : Fields ℕ) → same_fields d e ≡ true → d ≡ e
  equal_fields end end h = refl
  equal_fields (entry k v d) (entry j w e) h =
      let h = both_hold (str_eq k j) (same_value v w && same_fields d e) h in
      let rest = both_hold (same_value v w) (same_fields d e) h.1 in
      entries_equal k j v w d e (equal_names k j h.0) (equal_values v w rest.0)
        (equal_fields d e rest.1)
  equal_fields _ _ h = cc

numbers-IsRegular : IsRegular numbers
numbers-IsRegular = record {
  same_alike = λ s v w h. ap (same_value s) (equal_values v w h);
  order_alike = λ o s v w h. ap (order_value o s) (equal_values v w h);
}

-- The customer with the number 7; its own relations are not resolved.
abbrev gold : Fields ℕ
gold = entry "status" (scalar 1) (entry "parent" (scalar 7) end)

abbrev customers : ObjectResolver ℕ Unit
customers = record {
  resolve = λ r field fk. if same_value fk (scalar 7) then some (dict gold, none) else none;
  descend = λ r field. none;
}

abbrev order : Fields ℕ
order =
    entry "customer" (scalar 7) (
      entry "total" (scalar 40)
        (entry "lines" (list (cons (scalar 10) (cons (scalar 30) nil))) end))

abbrev expensive : Query ℕ
expensive = composite (
    constrain "total" (comparison gte (scalar 40))
      (constrain "lines" (all_elements (comparison lt (scalar 31))) no_constraints))

abbrev of_gold : Query ℕ
of_gold = composite (
    constrain "customer" (rel (constrain "status" (equals (scalar 1)) no_constraints))
      (constrain "total" (comparison gte (scalar 40)) no_constraints))

abbrev both_fields : Query ℕ
both_fields = composite (
    constrain "total" (comparison gte (scalar 40)) (
      constrain "lines" (all_elements (comparison lt (scalar 31))) (
        constrain "customer" (rel (constrain "status" (equals (scalar 1)) no_constraints))
          no_constraints)))

gold_ordered : evaluate numbers customers both_fields (some tt) none (dict order) ≡ ok true
unfolding evaluate same_value
gold_ordered = refl

added : add numbers expensive of_gold ≡ ok both_fields
unfolding add same_value eq_comparison
added = refl

not_added : add numbers (comparison gt (scalar 1)) (comparison gt (scalar 2)) ≡ raise merge_conflict
unfolding add same_value eq_comparison
not_added = refl

no_sum : add numbers (is_null true) (comparison gt (scalar 2)) ≡ raise type_error
unfolding add
no_sum = refl

-- A relation of a relation: the visitor resolves the parent of the customer, the walker takes the
-- parent's number for its fields.
abbrev of_family : Constraints ℕ
of_family =
    constrain "parent" (rel (constrain "status" (equals (scalar 1)) no_constraints)) no_constraints

walker_resolves_once :
    evaluate numbers customers
      (composite (constrain "customer" (rel of_family) no_constraints))
      (some tt)
      none
      (dict order)
    ≡ ok false
unfolding evaluate same_value
walker_resolves_once = refl

visitor_resolves_twice :
    accept numbers customers
      (composite (constrain "customer" (rel of_family) no_constraints))
      (some tt)
      none
      (dict order)
    ≡ ok true
unfolding accept same_value
visitor_resolves_twice = refl

parsed :
    parse_query {A = ℕ}
      (dict (entry "total" (dict (entry "$eq" (dict (entry "$gt" (scalar 4) end)) end)) end))
    ≡ ok (composite (constrain "total" (comparison gt (scalar 4)) no_constraints))
unfolding parse_query is_operator
parsed = refl

not_parsed :
    parse_query {A = ℕ} (dict (entry "total" (scalar 1) (entry "$gt" (scalar 4) end)))
    ≡ raise value_error
unfolding parse_query is_operator
not_parsed = refl

-- The parser makes a conjunction of two `$gt` of a nested `$eq`; its dictionary has one.
forgotten :
    (parse_query {A = ℕ}
        (dict (entry "$eq" (dict (entry "$gt" (scalar 5) end)) (entry "$gt" (scalar 7) end)))
      >>= λ q. ok (to_dict q))
    ≡ ok (entry "$gt" (scalar 7) end)
unfolding parse_query to_dict is_operator
forgotten = refl

evaluators_agree_example :
    (accept numbers customers of_gold none none (dict order)
      ≡ evaluate numbers customers of_gold none (some ("customer", null)) (dict order))
    × (evaluate_sync numbers customers of_gold (some tt) none (dict order)
        ≡ evaluate numbers customers of_gold none (some ("customer", null)) (dict order))
evaluators_agree_example =
    evaluators_agree numbers customers of_gold (some tt) none (some ("customer", null)) none
      (dict order)

raised :
    evaluate numbers customers expensive none none (dict (entry "total" null end))
    ≡ raise type_error
unfolding evaluate
raised = refl

add-both_example :
    IsConjunction
      (evaluate numbers customers both_fields (some tt) none (dict order))
      (evaluate numbers customers expensive (some tt) none (dict order))
      (evaluate numbers customers of_gold (some tt) none (dict order))
unfolding get
add-both_example =
    add-both numbers customers numbers-IsRegular expensive of_gold both_fields
      (tt, refl, (tt, refl, tt)) ((tt, refl, tt), refl, (tt, refl, tt)) added (some tt) none
      (dict order)

abbrev reordered : Query ℕ
reordered = composite (
    constrain "lines" (all_elements (comparison lt (scalar 31)))
      (constrain "total" (comparison gte (scalar 40)) no_constraints))

eq-evaluate_example :
    Compatible
      (evaluate numbers customers expensive none none (dict order))
      (evaluate numbers customers reordered none none (dict order))
unfolding get eq same_value eq_comparison
eq-evaluate_example =
    eq-evaluate numbers customers numbers-IsRegular expensive reordered (tt, refl, (tt, refl, tt))
      (tt, refl, (tt, refl, tt)) refl none none (dict order)

abbrev between : Query ℕ
between = or_any (
    query (and_all (query (comparison gt (scalar 1)) (query (comparison lt (scalar 9)) no_queries)))
      (query of_gold no_queries))

between-IsCanonical : IsCanonical between
unfolding has_key append is_operator
between-IsCanonical =
    (tt, ((tt, (tt, tt, refl, (tt, tt, refl, tt))), (((refl, refl), ((tt, tt), (tt, tt))), tt)))

parse_query-to_dict_example : parse_query (dict (to_dict between)) ≡ ok between
parse_query-to_dict_example = parse_query-to_dict between between-IsCanonical

no_update : Fields ℕ → Val ℕ → Result Error (Fields ℕ)
no_update d v = raise type_error

to_plain_value-dict_to_query_example :
    (parse_query (dict (dict_to_query (dict gold))) >>= to_plain_value no_update) ≡ ok (dict gold)
unfolding is_operator
to_plain_value-dict_to_query_example =
    to_plain_value-dict_to_query no_update (dict gold) (refl, tt, (refl, tt, tt))
