-- ===== src/Query/Merge/Equality.antt =====
-- Equal queries do not contradict each other.
use ascetic_ddd_python.Prelude.{
  String, str_eq, eq_iff, ◌≡◌, refl, sym, ap, ◌∙◌, Bool, true, not, if◌then◌else◌, ◌&&◌, Option,
  none, some, Option-cases, Bool-cases, inl, inr, ◌⊎◌, subst, arith,
}
use ascetic_ddd_python.Prelude.Result.{Result, ok}
use ascetic_ddd_python.Query.{
  Error, Comparison, ne, gt, gte, lt, lte, Val, Items, nil, cons, Fields, Query, equals,
  equals_query, comparison, within, is_null, not_query, any_element, all_elements, len_query,
  and_all, or_any, rel, composite, Queries, no_queries, query, Constraints, no_constraints,
  constrain, Python, get, covers, eq, eq_queries, eq_constraints, eq_items,
}
use ascetic_ddd_python.Query.Evaluation.{
  ObjectResolver, get_value, some_element, every_element, on_dict, size, member, compare, evaluate,
  evaluate_and, evaluate_or, evaluate_fields, target,
}
use ascetic_ddd_python.Query.Merge.{IsRegular, HasKeys, HaveKeys, KeysDiffer, get-HasKeys}
use ascetic_ddd_python.Query.Merge.Compatible.{
  Compatible, alike, Compatible-by, Compatible-not, Compatible-sym, both-Compatible,
  either-Compatible, negated-Compatible, some_element-Compatible, every_element-Compatible,
  on_list-Compatible, on_dict-Compatible, related-Compatible, resolver_for, walk_field,
}
use mathlib.Core.Path.{ap₂}
use ascetic_ddd_python.Query.Merge.Booleans.{
  and-left, and-right, eq_comparison_sound, eq_bool_sound, none-ne-some, false-ne-true,
  some-injective,
}
use ascetic_ddd_python.Query.Merge.Fields.{holds_all, fails_some}

module _ {A R : Type 0} (python : Python A) (objects : ObjectResolver A R)
    (regular : IsRegular python) where
  abbrev walk : Query A → Option R → Option (String × Val A) → Val A → Result Error Bool
  walk = evaluate python objects

  abbrev walk_fields : Constraints A → Option R → Fields A → Result Error Bool
  walk_fields = evaluate_fields python objects

  member-alike :
      (s : Val A) (vs ws : Items A)
      → eq_items python vs ws ≡ true
      → member python objects s vs ≡ member python objects s ws
  unfolding eq_items member
  member-alike s nil nil h = refl
  member-alike s (cons v vs) (cons w ws) h =
      ap₂ (λ b c. if b then true else c) (regular.same_alike s v w (and-left _ _ h))
        (member-alike s vs ws (and-right _ _ h))
  member-alike s nil (cons w ws) h = cc
  member-alike s (cons v vs) nil h = cc

  compare-alike :
      (o : Comparison) (s v w : Val A)
      → python.same v w ≡ true
      → compare python objects o s v ≡ compare python objects o s w
  unfolding compare
  compare-alike ne s v w h = ap (λ b. ok (not b)) (regular.same_alike s v w h)
  compare-alike gt s v w h = regular.order_alike gt s v w h
  compare-alike gte s v w h = regular.order_alike gte s v w h
  compare-alike lt s v w h = regular.order_alike lt s v w h
  compare-alike lte s v w h = regular.order_alike lte s v w h

  -- The two do not contradict each other, and resolve alike as fields.
  record Agree (p q : Query A) : Type 0 where
    answers :
        (r : Option R) (c : Option (String × Val A)) (s : Val A)
        → Compatible (walk p r c s) (walk q r c s)
    resolvers :
        (r : Option R) (k : String)
        → resolver_for python objects p r k ≡ resolver_for python objects q r k

  -- Each field of the first has its equal in the second.
  record Matched (p : Query A) (k : String) (g : Constraints A) : Type 0 where
    partner : Query A
    found : get k g ≡ some partner
    agree : Agree p partner

  field-Agree :
      {p q : Query A}
      → Agree p q
      → (k : String) (r : Option R) (d : Fields A)
      → Compatible (walk_field python objects k p r d) (walk_field python objects k q r d)
  field-Agree {p} {q} a k r d =
      subst
        (λ x.
          Compatible (walk_field python objects k p r d)
            (walk q x (some (k, get_value k d)) (get_value k d)))
        (a.resolvers r k)
        (a.answers (resolver_for python objects p r k) (some (k, get_value k d)) (get_value k d))

  get-cons :
      (j k : String) (q p : Query A) (f : Constraints A)
      → get k (constrain j q f) ≡ some p
      → ((j ≡ k) × (q ≡ p)) ⊎ (get k f ≡ some p)
  unfolding get
  get-cons j k q p f e = elim (Bool-cases (str_eq j k)) [
    | inl same ↦ inl ((eq_iff j k).0 same, ground arith)
    | inr other ↦ inr (ground arith)
  ]

  eq_constraints-cons :
      (j : String) (q : Query A) (f g : Constraints A)
      → eq_constraints python (constrain j q f) g ≡ true
      → (y : Query A) × (get j g ≡ some y)
        × (eq python q y ≡ true)
        × (eq_constraints python f g ≡ true)
  unfolding eq
  eq_constraints-cons j q f g h = elim (Option-cases (get j g)) [
    | inl missing ↦ absurd (false-ne-true (ground (arith, missing, h)))
    | inr (y, there) ↦
        let both_hold : eq python q y && eq_constraints python f g ≡ true =
          ground (arith, there, h) in
        (y, there, and-left _ _ both_hold, and-right _ _ both_hold)
  ]

  covers-get :
      (f g : Constraints A) (k : String) (q : Query A)
      → covers f g ≡ true
      → get k g ≡ some q
      → (p : Query A) × (get k f ≡ some p)
  unfolding covers get
  covers-get f no_constraints k q h e = absurd (none-ne-some e)
  covers-get f (constrain j p g) k q h e = elim (Option-cases (get j f)) [
    | inl missing ↦ absurd (false-ne-true (ground (arith, missing, h)))
    | inr (x, there) ↦ elim (Bool-cases (str_eq j k)) [
      | inl same ↦ (x, ground (arith, there, eq_iff j k, same))
      | inr other ↦ covers-get f g k q (ground (arith, there, h)) (ground (arith, other, e))
    ]
  ]

  -- Dictionaries with the same keys, matched one by one, do not contradict each other.
  same_fields :
      (f g : Constraints A)
      → KeysDiffer f
      → KeysDiffer g
      → covers f g ≡ true
      → ((k : String) (p : Query A) → get k f ≡ some p → Matched p k g)
      → (r : Option R) (d : Fields A) → Compatible (walk_fields f r d) (walk_fields g r d)
  same_fields f g hf hg h matched r d =
      Compatible-by (walk_fields f r d) (walk_fields g r d)
        (λ holds fails.
          let x = fails_some python objects g r d hg fails in
          let (p, there) = covers-get f g x.key x.op h x.there in
          let m = matched x.key p there in
          let one : m.partner ≡ x.op = some-injective (sym m.found ∙ x.there) in
          Compatible-not (walk_field python objects x.key p r d)
            (walk_field python objects x.key x.op r d)
            (subst
              (λ q.
                Compatible (walk_field python objects x.key p r d)
                  (walk_field python objects x.key q r d))
              one (field-Agree m.agree x.key r d))
            (holds_all python objects f r d x.key p holds there) x.fails)
        (λ fails holds.
          let x = fails_some python objects f r d hf fails in
          let m = matched x.key x.op x.there in
          Compatible-not (walk_field python objects x.key m.partner r d)
            (walk_field python objects x.key x.op r d)
            (Compatible-sym (walk_field python objects x.key x.op r d)
              (walk_field python objects x.key m.partner r d) (field-Agree m.agree x.key r d))
            (holds_all python objects g r d x.key m.partner holds m.found) x.fails)

  rel-Agree :
      (f g : Constraints A)
      → ((r : Option R) (d : Fields A) → Compatible (walk_fields f r d) (walk_fields g r d))
      → (r : Option R) (c : Option (String × Val A)) (s : Val A)
      → Compatible (walk (rel f) r c s) (walk (rel g) r c s)
  unfolding evaluate
  rel-Agree f g a none c s = on_dict-Compatible (walk_fields f none) (walk_fields g none) s (a none)
  rel-Agree f g a (some r) c s =
      related-Compatible python objects r (target c s).0 (target c s).1
        (λ nested foreign. on_dict (walk_fields f nested) foreign)
        (λ nested foreign. on_dict (walk_fields g nested) foreign)
        (λ nested foreign.
          on_dict-Compatible (walk_fields f nested) (walk_fields g nested) foreign (a nested))

  mutual
    unfolding eq evaluate get

    eq-Agree : (p q : Query A) → HasKeys p → HasKeys q → eq python p q ≡ true → Agree p q
    eq-Agree (equals v) (equals w) hp hq h = record {
      answers = λ r c s. regular.same_alike s v w h;
      resolvers = λ r k. refl;
    }
    eq-Agree (equals_query p) (equals_query q) hp hq h = record {
      answers = λ r c s. refl;
      resolvers = λ r k. refl;
    }
    eq-Agree (comparison o v) (comparison p w) hp hq h = record {
      answers = λ r c s. alike (
          ap (λ x. compare python objects x s v) (eq_comparison_sound o p (and-left _ _ h))
          ∙ compare-alike p s v w (and-right _ _ h));
      resolvers = λ r k. refl;
    }
    eq-Agree (within vs) (within ws) hp hq h = record {
      answers = λ r c s. member-alike s vs ws h;
      resolvers = λ r k. refl;
    }
    eq-Agree (is_null b) (is_null c) hp hq h = record {
      answers = λ r x s. alike (ap (λ y. walk (is_null y) r x s) (eq_bool_sound b c h));
      resolvers = λ r k. refl;
    }
    eq-Agree (not_query p) (not_query q) hp hq h =
        let a = eq-Agree p q hp hq h in
        record {
          answers = λ r c s. negated-Compatible (walk p r c s) (walk q r c s) (a.answers r c s);
          resolvers = λ r k. refl;
        }
    eq-Agree (any_element p) (any_element q) hp hq h =
        let a = eq-Agree p q hp hq h in
        record {
          answers = λ r c s.
              on_list-Compatible (some_element (walk p r c)) (some_element (walk q r c)) s
                (λ vs. some_element-Compatible (walk p r c) (walk q r c) vs (a.answers r c));
          resolvers = λ r k. refl;
        }
    eq-Agree (all_elements p) (all_elements q) hp hq h =
        let a = eq-Agree p q hp hq h in
        record {
          answers = λ r c s.
              on_list-Compatible (every_element (walk p r c)) (every_element (walk q r c)) s
                (λ vs. every_element-Compatible (walk p r c) (walk q r c) vs (a.answers r c));
          resolvers = λ r k. refl;
        }
    eq-Agree (len_query p) (len_query q) hp hq h =
        let a = eq-Agree p q hp hq h in
        record {
          answers = λ r c s.
              on_list-Compatible (λ vs. walk p r c (size python objects vs))
                (λ vs. walk q r c (size python objects vs)) s
                (λ vs. a.answers r c (size python objects vs));
          resolvers = λ r k. refl;
        }
    eq-Agree (and_all ps) (and_all qs) hp hq h = record {
      answers = λ r c s. (eq_queries-Agree ps qs hp hq h r c s).0;
      resolvers = λ r k. refl;
    }
    eq-Agree (or_any ps) (or_any qs) hp hq h = record {
      answers = λ r c s. (eq_queries-Agree ps qs hp hq h r c s).1;
      resolvers = λ r k. refl;
    }
    eq-Agree (rel f) (rel g) hp hq h =
        let a =
          same_fields f g hp hq (and-right _ _ h)
            (eq_constraints-Matched f g hp hq (and-left _ _ h)) in
        record { answers = rel-Agree f g a; resolvers = λ r k. refl }
    eq-Agree (composite f) (composite g) hp hq h =
        let a =
          same_fields f g hp hq (and-right _ _ h)
            (eq_constraints-Matched f g hp hq (and-left _ _ h)) in
        record {
          answers = λ r c s. on_dict-Compatible (walk_fields f r) (walk_fields g r) s (a r);
          resolvers = λ r k. refl;
        }
    eq-Agree _ _ hp hq h = cc

    eq_queries-Agree :
        (ps qs : Queries A)
        → HaveKeys ps
        → HaveKeys qs
        → eq_queries python ps qs ≡ true
        → (r : Option R) (c : Option (String × Val A)) (s : Val A)
        → Compatible (evaluate_and python objects ps r c s) (evaluate_and python objects qs r c s)
          × Compatible (evaluate_or python objects ps r c s) (evaluate_or python objects qs r c s)
    eq_queries-Agree no_queries no_queries hp hq h r c s = (refl, refl)
    eq_queries-Agree (query p ps) (query q qs) hp hq h r c s =
        let a = eq-Agree p q hp.0 hq.0 (and-left _ _ h) in
        let b = eq_queries-Agree ps qs hp.1 hq.1 (and-right _ _ h) r c s in
        (
          both-Compatible (walk p r c s) (walk q r c s) (evaluate_and python objects ps r c s)
              (evaluate_and python objects qs r c s) (a.answers r c s) b.0,
          either-Compatible (walk p r c s) (walk q r c s) (evaluate_or python objects ps r c s)
              (evaluate_or python objects qs r c s) (a.answers r c s) b.1,
        )
    eq_queries-Agree _ _ hp hq h r c s = cc

    eq_constraints-Matched :
        (f g : Constraints A)
        → KeysDiffer f
        → KeysDiffer g
        → eq_constraints python f g ≡ true
        → (k : String) (p : Query A) → get k f ≡ some p
        → Matched p k g
    eq_constraints-Matched no_constraints g hf hg h k p e = absurd (none-ne-some e)
    eq_constraints-Matched (constrain j q f) g hf hg h k p e =
        let (y, there, same, others) = eq_constraints-cons j q f g h in
        elim (get-cons j k q p f e) [
          | inl (key, op) ↦
              let a = eq-Agree q y hf.0 (get-HasKeys j y g hg there) same in
              record {
                partner = y;
                found = ap (λ x. get x g) (sym key) ∙ there;
                agree = subst (λ x. Agree x y) op a;
              }
          | inr rest ↦ eq_constraints-Matched f g hf.2 hg others k p rest
        ]

  -- Queries that are equal, whatever the order of their dictionaries, do not contradict each other.
  pub eq-evaluate :
      (p q : Query A)
      → HasKeys p
      → HasKeys q
      → eq python p q ≡ true
      → (r : Option R) (c : Option (String × Val A)) (s : Val A)
      → Compatible (evaluate python objects p r c s) (evaluate python objects q r c s)
  eq-evaluate p q hp hq h = (eq-Agree p q hp hq h).answers
