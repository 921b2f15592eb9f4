-- ===== src/Query/Evaluation/Agreement.antt =====
-- Where the walker and the visitor agree, and where they do not.
use ascetic_ddd_python.Prelude.{String, ◌≡◌, refl, ap, Bool, Option, none, some}
use ascetic_ddd_python.Prelude.Result.{Result}
use ascetic_ddd_python.Query.{
  Error, Val, Fields, Query, equals, equals_query, comparison, within, is_null, not_query,
  any_element, all_elements, len_query, and_all, or_any, rel, composite, Queries, no_queries, query,
  Constraints, no_constraints, constrain, Python,
}
use ascetic_ddd_python.Query.Evaluation.{
  ObjectResolver, both, either, negated, get_value, some_element, every_element, on_list, on_dict,
  size, evaluate, evaluate_and, evaluate_or, evaluate_fields, evaluate_sync, evaluate_sync_and,
  evaluate_sync_or, evaluate_sync_fields, accept, visit_and, visit_or, visit_composite, descended,
}
use mathlib.Core.Path.{fun_ext, ap₂}

module _ {A R : Type 0} (python : Python A) (objects : ObjectResolver A R) where
  abbrev walk : Query A → Option R → Option (String × Val A) → Val A → Result Error Bool
  walk = evaluate python objects

  abbrev walk_sync : Query A → Option R → Option (String × Val A) → Val A → Result Error Bool
  walk_sync = evaluate_sync python objects

  abbrev visit : Query A → Option R → Option (String × Val A) → Val A → Result Error Bool
  visit = accept python objects

  -- A field of a composite query without a resolver, whatever its operator.
  walk_constrain :
      (k : String) (op : Query A) (others : Constraints A) (d : Fields A)
      → evaluate_fields python objects (constrain k op others) none d
        ≡ both
            (walk op none (some (k, get_value k d)) (get_value k d))
            (evaluate_fields python objects others none d)
  unfolding evaluate
  walk_constrain k (rel f) others d = refl
  walk_constrain k _ others d = refl

  visit_constrain :
      (k : String) (op : Query A) (others : Constraints A) (d : Fields A)
      → visit_composite python objects (constrain k op others) none d
        ≡ both
            (visit op none (some (k, get_value k d)) (get_value k d))
            (visit_composite python objects others none d)
  unfolding accept
  visit_constrain k (rel f) others d = refl
  visit_constrain k _ others d = refl

  mutual
    unfolding evaluate accept

    visit-walk :
        (q : Query A) (c c' : Option (String × Val A)) (s : Val A)
        → visit q none c s ≡ walk q none c' s
    visit-walk (equals v) c c' s = refl
    visit-walk (equals_query v) c c' s = refl
    visit-walk (comparison o v) c c' s = refl
    visit-walk (within v) c c' s = refl
    visit-walk (is_null v) c c' s = refl
    visit-walk (and_all qs) c c' s = visit_and-walk qs c c' s
    visit-walk (or_any qs) c c' s = visit_or-walk qs c c' s
    visit-walk (not_query q) c c' s = ap negated (visit-walk q c c' s)
    visit-walk (any_element q) c c' s =
        ap (λ test. on_list (some_element test) s) (fun_ext (visit-walk q none c'))
    visit-walk (all_elements q) c c' s =
        ap (λ test. on_list (every_element test) s) (fun_ext (visit-walk q none c'))
    visit-walk (len_query q) c c' s =
        ap (λ test. on_list (λ vs. test (size python objects vs)) s)
          (fun_ext (visit-walk q none c'))
    visit-walk (composite f) c c' s = ap (λ test. on_dict test s) (fun_ext (visit_composite-walk f))
    visit-walk (rel f) c c' s = ap (λ test. on_dict test s) (fun_ext (visit_composite-walk f))

    visit_and-walk :
        (qs : Queries A) (c c' : Option (String × Val A)) (s : Val A)
        → visit_and python objects qs none c s ≡ evaluate_and python objects qs none c' s
    visit_and-walk no_queries c c' s = refl
    visit_and-walk (query q qs) c c' s = ap₂ both (visit-walk q c c' s) (visit_and-walk qs c c' s)

    visit_or-walk :
        (qs : Queries A) (c c' : Option (String × Val A)) (s : Val A)
        → visit_or python objects qs none c s ≡ evaluate_or python objects qs none c' s
    visit_or-walk no_queries c c' s = refl
    visit_or-walk (query q qs) c c' s = ap₂ either (visit-walk q c c' s) (visit_or-walk qs c c' s)

    visit_composite-walk :
        (f : Constraints A) (d : Fields A)
        → visit_composite python objects f none d ≡ evaluate_fields python objects f none d
    visit_composite-walk no_constraints d = refl
    visit_composite-walk (constrain k op others) d =
        rw (visit_constrain k op others d, walk_constrain k op others d)
          (ap₂ both
            (visit-walk op (some (k, get_value k d)) (some (k, get_value k d)) (get_value k d))
            (visit_composite-walk others d))

  -- What a field is evaluated with does not matter: there is a resolver for which it is `walk_sync`.
  walk_sync_field :
      (k : String) (op : Query A) (others : Constraints A) (r : Option R) (d : Fields A)
      → (r' : Option R) × (evaluate_sync_fields python objects (constrain k op others) r d
          ≡ both
              (walk_sync op r' (some (k, get_value k d)) (get_value k d))
              (evaluate_sync_fields python objects others r d))
  unfolding evaluate_sync
  walk_sync_field k (rel f) others r d = (r, refl)
  walk_sync_field k _ others r d = (descended python objects r k, refl)

  mutual
    unfolding evaluate evaluate_sync

    walk_sync-walk :
        (q : Query A) (r : Option R) (c c' : Option (String × Val A)) (s : Val A)
        → walk_sync q r c s ≡ walk q none c' s
    walk_sync-walk (equals v) r c c' s = refl
    walk_sync-walk (equals_query v) r c c' s = refl
    walk_sync-walk (comparison o v) r c c' s = refl
    walk_sync-walk (within v) r c c' s = refl
    walk_sync-walk (is_null v) r c c' s = refl
    walk_sync-walk (and_all qs) r c c' s = walk_sync_and-walk qs r c c' s
    walk_sync-walk (or_any qs) r c c' s = walk_sync_or-walk qs r c c' s
    walk_sync-walk (not_query q) r c c' s = ap negated (walk_sync-walk q r c c' s)
    walk_sync-walk (any_element q) r c c' s =
        ap (λ test. on_list (some_element test) s) (fun_ext (walk_sync-walk q r c c'))
    walk_sync-walk (all_elements q) r c c' s =
        ap (λ test. on_list (every_element test) s) (fun_ext (walk_sync-walk q r c c'))
    walk_sync-walk (len_query q) r c c' s =
        ap (λ test. on_list (λ vs. test (size python objects vs)) s)
          (fun_ext (walk_sync-walk q r c c'))
    walk_sync-walk (composite f) r c c' s =
        ap (λ test. on_dict test s) (fun_ext (walk_sync_fields-walk f r))
    walk_sync-walk (rel f) r c c' s =
        ap (λ test. on_dict test s) (fun_ext (walk_sync_fields-walk f r))

    walk_sync_and-walk :
        (qs : Queries A) (r : Option R) (c c' : Option (String × Val A)) (s : Val A)
        → evaluate_sync_and python objects qs r c s ≡ evaluate_and python objects qs none c' s
    walk_sync_and-walk no_queries r c c' s = refl
    walk_sync_and-walk (query q qs) r c c' s =
        ap₂ both (walk_sync-walk q r c c' s) (walk_sync_and-walk qs r c c' s)

    walk_sync_or-walk :
        (qs : Queries A) (r : Option R) (c c' : Option (String × Val A)) (s : Val A)
        → evaluate_sync_or python objects qs r c s ≡ evaluate_or python objects qs none c' s
    walk_sync_or-walk no_queries r c c' s = refl
    walk_sync_or-walk (query q qs) r c c' s =
        ap₂ either (walk_sync-walk q r c c' s) (walk_sync_or-walk qs r c c' s)

    walk_sync_fields-walk :
        (f : Constraints A) (r : Option R) (d : Fields A)
        → evaluate_sync_fields python objects f r d ≡ evaluate_fields python objects f none d
    walk_sync_fields-walk no_constraints r d = refl
    walk_sync_fields-walk (constrain k op others) r d =
        let (r', e) = walk_sync_field k op others r d in
        rw (e, walk_constrain k op others d)
          (ap₂ both
            (walk_sync-walk op r' (some (k, get_value k d)) (some (k, get_value k d))
              (get_value k d))
            (walk_sync_fields-walk others r d))

  -- Without a resolver the walker and the visitor give the same answer or the same exception for
  -- every query and every state, whatever their contexts; the synchronous walker gives that answer
  -- with any resolver.
  pub evaluators_agree :
      (q : Query A) (r : Option R) (c c' c'' : Option (String × Val A)) (s : Val A)
      → (accept python objects q none c s ≡ evaluate python objects q none c' s)
        × (evaluate_sync python objects q r c'' s ≡ evaluate python objects q none c' s)
  evaluators_agree q r c c' c'' s = (visit-walk q c c' s, walk_sync-walk q r c'' c' s)
