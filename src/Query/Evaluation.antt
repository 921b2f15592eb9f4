-- ===== src/Query/Evaluation.antt =====
-- faker/domain/query/evaluate_visitor.py: the walker in its asynchronous and its synchronous form, and
-- the visitor. The resolver of relations is an interface, and so a parameter; the session is its own.
pub mod Agreement
use ascetic_ddd_python.Prelude.{
  ℕ, zero, suc, String, str_eq, Bool, true, false, not, if◌then◌else◌, Option, none, some,
}
use ascetic_ddd_python.Prelude.Result.{Result, ok, raise}
use ascetic_ddd_python.Query.{
  Error, Comparison, ne, gt, gte, lt, lte, Val, null, boolean, scalar, list, dict, Items, nil, cons,
  Fields, end, entry, Query, equals, equals_query, comparison, within, is_null, not_query,
  any_element, all_elements, len_query, and_all, or_any, rel, composite, Queries, no_queries, query,
  Constraints, no_constraints, constrain, Python, eq_bool,
}

-- `resolve` gives the state of the related object with a resolver for it, or nothing.
pub record ObjectResolver (A R : Type 0) : Type 0 where
  pub resolve : R → Option String → Val A → Option (Val A × Option R)
  pub descend : R → String → Option R

-- `if not …: return False`, and `if …: return True`; exceptions end the loop.
unfoldable pub both : Result Error Bool → Result Error Bool → Result Error Bool
both (ok true) rest = rest
both (ok false) rest = ok false
both (raise e) rest = raise e

unfoldable pub either : Result Error Bool → Result Error Bool → Result Error Bool
either (ok true) rest = ok true
either (ok false) rest = rest
either (raise e) rest = raise e

unfoldable pub negated : Result Error Bool → Result Error Bool
negated (ok b) = ok (not b)
negated (raise e) = raise e

module _ {A : Type 0} where
  abbrev pub length : Items A → ℕ
  length nil = 0
  length (cons v vs) = suc (length vs)

  -- `state.get(field)`: None for a missing field.
  unfoldable pub get_value : String → Fields A → Val A
  get_value k end = null
  get_value k (entry j v d) = if str_eq j k then v else get_value k d

  abbrev pub is_none : Val A → Bool
  is_none null = true
  is_none _ = false

  -- The loops over the elements of a state that is a list, and False for any other state.
  unfoldable pub some_element : (Val A → Result Error Bool) → Items A → Result Error Bool
  unfolding either
  some_element test nil = ok false
  some_element test (cons v vs) = either (test v) (some_element test vs)

  unfoldable pub every_element : (Val A → Result Error Bool) → Items A → Result Error Bool
  unfolding both
  every_element test nil = ok true
  every_element test (cons v vs) = both (test v) (every_element test vs)

  unfoldable pub on_list : (Items A → Result Error Bool) → Val A → Result Error Bool
  on_list test (list vs) = test vs
  on_list test _ = ok false

  unfoldable pub on_dict : (Fields A → Result Error Bool) → Val A → Result Error Bool
  on_dict test (dict d) = test d
  on_dict test _ = ok false

-- The field and the key to resolve: those of the context, or the whole state.
abbrev pub target : {A : Type 0} → Option (String × Val A) → Val A → Option String × Val A
target none s = (none, s)
target (some (field, fk)) s = (some field, fk)

module _ {A R : Type 0} (python : Python A) (objects : ObjectResolver A R) where
  unfoldable pub compare : Comparison → Val A → Val A → Result Error Bool
  compare ne actual expected = ok (not (python.same actual expected))
  compare gt actual expected = python.order gt actual expected
  compare gte actual expected = python.order gte actual expected
  compare lt actual expected = python.order lt actual expected
  compare lte actual expected = python.order lte actual expected

  -- `state in values`
  unfoldable pub member : Val A → Items A → Bool
  member s nil = false
  member s (cons v vs) = if python.same s v then true else member s vs

  unfoldable pub size : Items A → Val A
  size vs = scalar (python.of_length (length vs))

  -- The resolver of the walker for a field: that of the child, if there is one.
  unfoldable pub descended : Option R → String → Option R
  descended none k = none
  descended (some r) k = elim (objects.descend r k) [ none ↦ some r | some d ↦ some d ]

  -- What a relation comes to: False for an object that is not found.
  unfoldable pub related :
      R → Option String → Val A → (Option R → Val A → Result Error Bool) → Result Error Bool
  related r field fk test = elim (objects.resolve r field fk) [
    | none ↦ ok false
    | some (foreign, nested) ↦ test nested foreign
  ]

  -- `EvaluateWalker.evaluate`, with the resolver and the context.
  unfoldable mutual
    unfolding compare member size descended related some_element every_element on_list on_dict both
        either negated get_value

    pub evaluate : Query A → Option R → Option (String × Val A) → Val A → Result Error Bool
    evaluate (equals v) r c s = ok (python.same s v)
    evaluate (equals_query q) r c s = ok false
    evaluate (comparison op v) r c s = compare op s v
    evaluate (within vs) r c s = ok (member s vs)
    evaluate (is_null b) r c s = ok (eq_bool (is_none s) b)
    evaluate (and_all qs) r c s = evaluate_and qs r c s
    evaluate (or_any qs) r c s = evaluate_or qs r c s
    evaluate (not_query q) r c s = negated (evaluate q r c s)
    evaluate (any_element q) r c s = on_list (some_element (λ v. evaluate q r c v)) s
    evaluate (all_elements q) r c s = on_list (every_element (λ v. evaluate q r c v)) s
    evaluate (len_query q) r c s = on_list (λ vs. evaluate q r c (size vs)) s
    evaluate (composite f) r c s = on_dict (λ d. evaluate_fields f r d) s
    evaluate (rel f) none c s = on_dict (λ d. evaluate_fields f none d) s
    evaluate (rel f) (some r) c s =
        related r (target c s).0 (target c s).1
          (λ nested foreign. on_dict (λ d. evaluate_fields f nested d) foreign)

    pub evaluate_and : Queries A → Option R → Option (String × Val A) → Val A → Result Error Bool
    evaluate_and no_queries r c s = ok true
    evaluate_and (query q qs) r c s = both (evaluate q r c s) (evaluate_and qs r c s)

    pub evaluate_or : Queries A → Option R → Option (String × Val A) → Val A → Result Error Bool
    evaluate_or no_queries r c s = ok false
    evaluate_or (query q qs) r c s = either (evaluate q r c s) (evaluate_or qs r c s)

    -- `_evaluate_composite` on a dictionary, with `_evaluate_field`.
    pub evaluate_fields : Constraints A → Option R → Fields A → Result Error Bool
    evaluate_fields no_constraints r d = ok true
    evaluate_fields (constrain k (rel f) others) (some r) d =
        both
          (related r (some k) (get_value k d)
            (λ nested foreign. on_dict (λ e. evaluate_fields f nested e) foreign))
          (evaluate_fields others (some r) d)
    evaluate_fields (constrain k op others) r d =
        both (evaluate op (descended r k) (some (k, get_value k d)) (get_value k d))
          (evaluate_fields others r d)

  -- `evaluate_sync`, which never resolves.
  unfoldable mutual
    unfolding compare member size descended some_element every_element on_list on_dict both either
        negated get_value

    pub evaluate_sync : Query A → Option R → Option (String × Val A) → Val A → Result Error Bool
    evaluate_sync (equals v) r c s = ok (python.same s v)
    evaluate_sync (equals_query q) r c s = ok false
    evaluate_sync (comparison op v) r c s = compare op s v
    evaluate_sync (within vs) r c s = ok (member s vs)
    evaluate_sync (is_null b) r c s = ok (eq_bool (is_none s) b)
    evaluate_sync (and_all qs) r c s = evaluate_sync_and qs r c s
    evaluate_sync (or_any qs) r c s = evaluate_sync_or qs r c s
    evaluate_sync (not_query q) r c s = negated (evaluate_sync q r c s)
    evaluate_sync (any_element q) r c s = on_list (some_element (λ v. evaluate_sync q r c v)) s
    evaluate_sync (all_elements q) r c s = on_list (every_element (λ v. evaluate_sync q r c v)) s
    evaluate_sync (len_query q) r c s = on_list (λ vs. evaluate_sync q r c (size vs)) s
    evaluate_sync (composite f) r c s = on_dict (λ d. evaluate_sync_fields f r d) s
    evaluate_sync (rel f) r c s = on_dict (λ d. evaluate_sync_fields f r d) s

    pub evaluate_sync_and :
        Queries A → Option R → Option (String × Val A) → Val A → Result Error Bool
    evaluate_sync_and no_queries r c s = ok true
    evaluate_sync_and (query q qs) r c s = both (evaluate_sync q r c s) (evaluate_sync_and qs r c s)

    pub evaluate_sync_or :
        Queries A → Option R → Option (String × Val A) → Val A → Result Error Bool
    evaluate_sync_or no_queries r c s = ok false
    evaluate_sync_or (query q qs) r c s = either (evaluate_sync q r c s) (evaluate_sync_or qs r c s)

    -- `_evaluate_composite_sync` on a dictionary, with `_evaluate_field_sync`.
    pub evaluate_sync_fields : Constraints A → Option R → Fields A → Result Error Bool
    evaluate_sync_fields no_constraints r d = ok true
    evaluate_sync_fields (constrain k (rel f) others) r d =
        both (on_dict (λ e. evaluate_sync_fields f r e) (get_value k d))
          (evaluate_sync_fields others r d)
    evaluate_sync_fields (constrain k op others) r d =
        both (evaluate_sync op (descended r k) (some (k, get_value k d)) (get_value k d))
          (evaluate_sync_fields others r d)

  -- `EvaluateVisitor._with_state`: no resolver means the resolver at hand.
  unfoldable pub kept : Option R → Option R → Option R
  kept none r = r
  kept (some n) r = some n

  unfoldable pub descend_to : Option R → String → Option R
  unfolding kept
  descend_to none k = none
  descend_to (some r) k = kept (objects.descend r k) (some r)

  -- `accept` of the visitor, with its state, its resolver and its context.
  unfoldable mutual
    unfolding compare member size kept descend_to related some_element every_element on_list on_dict
        both either negated get_value

    pub accept : Query A → Option R → Option (String × Val A) → Val A → Result Error Bool
    accept (equals v) r c s = ok (python.same s v)
    accept (equals_query q) r c s = ok false
    accept (comparison op v) r c s = compare op s v
    accept (within vs) r c s = ok (member s vs)
    accept (is_null b) r c s = ok (eq_bool (is_none s) b)
    accept (and_all qs) r c s = visit_and qs r c s
    accept (or_any qs) r c s = visit_or qs r c s
    accept (not_query q) r c s = negated (accept q r c s)
    accept (any_element q) r c s = on_list (some_element (λ v. accept q r none v)) s
    accept (all_elements q) r c s = on_list (every_element (λ v. accept q r none v)) s
    accept (len_query q) r c s = on_list (λ vs. accept q r none (size vs)) s
    accept (composite f) r c s = on_dict (λ d. visit_composite f r d) s
    accept (rel f) none c s = on_dict (λ d. visit_composite f none d) s
    accept (rel f) (some r) c s =
        related r (target c s).0 (target c s).1
          (λ nested foreign. on_dict (λ d. visit_composite f (kept nested (some r)) d) foreign)

    pub visit_and : Queries A → Option R → Option (String × Val A) → Val A → Result Error Bool
    visit_and no_queries r c s = ok true
    visit_and (query q qs) r c s = both (accept q r c s) (visit_and qs r c s)

    pub visit_or : Queries A → Option R → Option (String × Val A) → Val A → Result Error Bool
    visit_or no_queries r c s = ok false
    visit_or (query q qs) r c s = either (accept q r c s) (visit_or qs r c s)

    pub visit_composite : Constraints A → Option R → Fields A → Result Error Bool
    visit_composite no_constraints r d = ok true
    visit_composite (constrain k (rel f) others) (some r) d =
        both
          (related r (some k) (get_value k d)
            (λ nested foreign. on_dict (λ e. visit_composite f (kept nested (some r)) e) foreign))
          (visit_composite others (some r) d)
    visit_composite (constrain k op others) r d =
        both (accept op (descend_to r k) (some (k, get_value k d)) (get_value k d))
          (visit_composite others r d)
