-- ===== src/Query/Merge/Conjunction.antt =====
-- The sum of two queries is their conjunction.
use ascetic_ddd_python.Prelude.{
  ◌≢◌, String, str_eq, eq_iff, ◌≡◌, refl, sym, ◌∙◌, subst, Bool, true, false, Option, none, some,
  Option-cases, Bool-cases, inl, inr, ◌⊎◌, arith,
}
use ascetic_ddd_python.Prelude.Result.{Result, ok, bind-ok, ◌>>=◌}
use ascetic_ddd_python.Query.{
  Error, Val, Fields, Query, equals, equals_query, comparison, within, is_null, not_query,
  any_element, all_elements, len_query, and_all, or_any, rel, composite, Constraints,
  no_constraints, constrain, Python, get, set, agreed, add, merge, eq,
}
use ascetic_ddd_python.Query.Evaluation.{
  ObjectResolver, get_value, on_dict, evaluate, evaluate_fields, target,
}
use ascetic_ddd_python.Query.Merge.{
  IsRegular, HasKeys, KeysDiffer, get-set, get-HasKeys, set-KeysDiffer,
}
use ascetic_ddd_python.Query.Merge.Compatible.{resolver_for, walk_field}
use ascetic_ddd_python.Query.Merge.Equality.{eq-evaluate}
use ascetic_ddd_python.Query.Merge.Booleans.{some-injective}
use ascetic_ddd_python.Query.Merge.Both.{
  IsConjunction, self-IsConjunction, on_dict-IsConjunction, related-IsConjunction, ok-injective,
  agreed-cases,
}
use ascetic_ddd_python.Query.Merge.Fields.{holds_all, fails_some}

module _ {A R : Type 0} (python : Python A) (objects : ObjectResolver A R)
    (regular : IsRegular python) where
  abbrev walk : Query A → Option R → Option (String × Val A) → Val A → Result Error Bool
  walk = evaluate python objects

  abbrev walk_fields : Constraints A → Option R → Fields A → Result Error Bool
  walk_fields = evaluate_fields python objects

  abbrev field_of : String → Query A → Option R → Fields A → Result Error Bool
  field_of = walk_field python objects

  -- `c` has distinct keys, resolves as `p` and `q` do, and is their conjunction.
  record IsBoth (p q c : Query A) : Type 0 where
    keys : HasKeys c
    answers :
        (r : Option R) (x : Option (String × Val A)) (s : Val A)
        → IsConjunction (walk c r x s) (walk p r x s) (walk q r x s)
    resolvers :
        (r : Option R) (k : String)
        → (resolver_for python objects c r k ≡ resolver_for python objects p r k)
          × (resolver_for python objects c r k ≡ resolver_for python objects q r k)

  field-IsBoth :
      {p q c : Query A}
      → IsBoth p q c
      → (k : String) (r : Option R) (d : Fields A)
      → IsConjunction (field_of k c r d) (field_of k p r d) (field_of k q r d)
  field-IsBoth {p} {q} {c} b k r d =
      subst
        (λ x.
          IsConjunction (field_of k c r d) (field_of k p r d)
            (walk q x (some (k, get_value k d)) (get_value k d)))
        (b.resolvers r k).1
        (subst
          (λ x.
            IsConjunction (field_of k c r d) (walk p x (some (k, get_value k d)) (get_value k d)) (
              walk q (resolver_for python objects c r k) (some (k, get_value k d)) (get_value k d)))
          (b.resolvers r k).0
          (b.answers (resolver_for python objects c r k) (some (k, get_value k d)) (get_value k d)))

  -- What a key has in a merged dictionary, by what it has in the two.
  abbrev Met : Option (Query A) → Option (Query A) → Option (Query A) → Type 0
  Met none none c = c ≡ none
  Met (some p) none c = c ≡ some p
  Met none (some q) c = c ≡ some q
  Met (some p) (some q) c = (sum : Query A) × (c ≡ some sum) × IsBoth p q sum

  record AreBoth (f g h : Constraints A) : Type 0 where
    keys : KeysDiffer h
    fields : (k : String) → Met (get k f) (get k g) (get k h)

  Met-along :
      {o o' u u' c c' : Option (Query A)} → o ≡ o' → u ≡ u' → c ≡ c' → Met o u c → Met o' u' c'
  Met-along {o} {o'} {u} {u'} {c} e f g m =
      subst (Met o' u') g (subst (λ x. Met o' x c) f (subst (λ x. Met x u c) e m))

  left-Met : (o : Option (Query A)) → Met o none o
  left-Met none = refl
  left-Met (some p) = refl

  -- A field that holds in the merged dictionary does not fail in either.
  left_not_false :
      (k : String) (p : Query A) (o c : Option (Query A)) (r : Option R) (d : Fields A)
      → Met (some p) o c
      → ((x : Query A) → c ≡ some x → field_of k x r d ≡ ok true)
      → field_of k p r d ≢ ok false
  left_not_false k p none c r d m holds fails = let held = holds p m in cc
  left_not_false k p (some q) c r d (sum, e, b) holds fails =
      ((field-IsBoth b k r d).0 (holds sum e)).0 fails

  right_not_false :
      (k : String) (q : Query A) (o c : Option (Query A)) (r : Option R) (d : Fields A)
      → Met o (some q) c
      → ((x : Query A) → c ≡ some x → field_of k x r d ≡ ok true)
      → field_of k q r d ≢ ok false
  right_not_false k q none c r d m holds fails = let held = holds q m in cc
  right_not_false k q (some p) c r d (sum, e, b) holds fails =
      ((field-IsBoth b k r d).0 (holds sum e)).1 fails

  -- A field that fails in the merged dictionary does not hold in both.
  not_both_true :
      (k : String) (x : Query A) (o u : Option (Query A)) (r : Option R) (d : Fields A)
      → Met o u (some x)
      → ((p : Query A) → o ≡ some p → field_of k p r d ≡ ok true)
      → ((q : Query A) → u ≡ some q → field_of k q r d ≡ ok true)
      → field_of k x r d ≢ ok false
  not_both_true k x none none r d m f g fails = cc
  not_both_true k x (some p) none r d m f g fails = let held = f x (sym m) in cc
  not_both_true k x none (some q) r d m f g fails = let held = g x (sym m) in cc
  not_both_true k x (some p) (some q) r d (sum, e, b) f g fails =
      let same : x ≡ sum = some-injective e in
      (field-IsBoth b k r d).1 (subst (λ y. field_of k y r d ≡ ok false) same fails)
        (f p refl, g q refl)

  fields-AreBoth :
      (f g h : Constraints A)
      → KeysDiffer f
      → KeysDiffer g
      → AreBoth f g h
      → (r : Option R) (d : Fields A)
      → IsConjunction (walk_fields h r d) (walk_fields f r d) (walk_fields g r d)
  fields-AreBoth f g h hf hg b r d = (
    (λ holds. (
      (λ fails.
          let x = fails_some python objects f r d hf fails in
          left_not_false x.key x.op (get x.key g) (get x.key h) r d
            (subst (λ o. Met o (get x.key g) (get x.key h)) x.there (b.fields x.key))
            (λ c e. holds_all python objects h r d x.key c holds e) x.fails),
      (λ fails.
          let x = fails_some python objects g r d hg fails in
          right_not_false x.key x.op (get x.key f) (get x.key h) r d
            (subst (λ o. Met (get x.key f) o (get x.key h)) x.there (b.fields x.key))
            (λ c e. holds_all python objects h r d x.key c holds e) x.fails),
    )),
    (λ fails both_hold.
        let x = fails_some python objects h r d b.keys fails in
        not_both_true x.key x.op (get x.key f) (get x.key g) r d
          (subst (λ o. Met (get x.key f) (get x.key g) o) x.there (b.fields x.key))
          (λ p e. holds_all python objects f r d x.key p both_hold.0 e)
          (λ q e. holds_all python objects g r d x.key q both_hold.1 e) x.fails),
  )

  rel-answers :
      (f g h : Constraints A)
      → ((r : Option R) (d : Fields A)
          → IsConjunction (walk_fields h r d) (walk_fields f r d) (walk_fields g r d))
      → (r : Option R) (x : Option (String × Val A)) (s : Val A)
      → IsConjunction (walk (rel h) r x s) (walk (rel f) r x s) (walk (rel g) r x s)
  unfolding evaluate
  rel-answers f g h b none x s =
      on_dict-IsConjunction python objects (walk_fields h none) (walk_fields f none)
        (walk_fields g none) s (b none)
  rel-answers f g h b (some r) x s =
      related-IsConjunction python objects r (target x s).0 (target x s).1
        (λ n y. on_dict (walk_fields h n) y) (λ n y. on_dict (walk_fields f n) y)
        (λ n y. on_dict (walk_fields g n) y)
        (λ n y.
          on_dict-IsConjunction python objects (walk_fields h n) (walk_fields f n) (walk_fields g n)
            y (b n))

  -- Equal operators: the sum is the first of them.
  agreed-IsBoth :
      (p q c : Query A) (b : Bool)
      → HasKeys p
      → HasKeys q
      → agreed b p ≡ ok c
      → (b ≡ true → eq python p q ≡ true)
      → ((r : Option R) (k : String)
          → resolver_for python objects p r k ≡ resolver_for python objects q r k)
      → IsBoth p q c
  agreed-IsBoth p q c b hp hq h same resolvers =
      let (e, found) = agreed-cases b p c h in
      subst (λ x. IsBoth p q x) found
        (record {
          keys = hp;
          answers = λ r x s.
              self-IsConjunction (walk p r x s) (walk q r x s)
                (eq-evaluate python objects regular p q hp hq (same e) r x s);
          resolvers = λ r k. (refl, resolvers r k);
        })

  rel-IsBoth :
      (f g h : Constraints A) (c : Query A)
      → KeysDiffer f
      → KeysDiffer g
      → ◌≡◌ {A = Result Error (Query A)} (ok (rel h)) (ok c)
      → AreBoth f g h
      → IsBoth (rel f) (rel g) c
  rel-IsBoth f g h c hf hg e b =
      let same : rel h ≡ c = ok-injective e in
      subst (λ x. IsBoth (rel f) (rel g) x) same
        (record {
          keys = b.keys;
          answers = rel-answers f g h (fields-AreBoth f g h hf hg b);
          resolvers = λ r k. (refl, refl);
        })

  composite-IsBoth :
      (f g h : Constraints A) (c : Query A)
      → KeysDiffer f
      → KeysDiffer g
      → ◌≡◌ {A = Result Error (Query A)} (ok (composite h)) (ok c)
      → AreBoth f g h
      → IsBoth (composite f) (composite g) c
  unfolding evaluate
  composite-IsBoth f g h c hf hg e b =
      let same : composite h ≡ c = ok-injective e in
      subst (λ x. IsBoth (composite f) (composite g) x) same
        (record {
          keys = b.keys;
          answers = λ r x s.
              on_dict-IsConjunction python objects (walk_fields h r) (walk_fields f r)
                (walk_fields g r) s (fields-AreBoth f g h hf hg b r);
          resolvers = λ r k. (refl, refl);
        })

  done :
      (f h : Constraints A)
      → KeysDiffer f
      → ◌≡◌ {A = Result Error (Constraints A)} (ok f) (ok h)
      → AreBoth f no_constraints h
  unfolding get
  done f h hf e =
      let same : f ≡ h = ok-injective e in
      subst (λ x. AreBoth f no_constraints x) same
        (record { keys = hf; fields = λ k. left-Met (get k f) })

  merge-cases :
      (f : Constraints A) (k : String) (op : Query A) (others h : Constraints A)
      → merge python f (constrain k op others) ≡ ok h
      → ((get k f ≡ none) × (merge python (set k op f) others ≡ ok h))
        ⊎ ((p : Query A) × (c : Query A) × (get k f ≡ some p)
            × (add python p op ≡ ok c)
            × (merge python (set k c f) others ≡ ok h))
  unfolding add
  merge-cases f k op others h e = elim (Option-cases (get k f)) [
    | inl missing ↦ inl (missing, ground (arith, missing, e))
    | inr (p, there) ↦
        let bound : (add python p op >>= λ r. merge python (set k r f) others) ≡ ok h =
          ground (arith, there, e) in
        let (c, sum, rest) =
          bind-ok (add python p op) (λ r. merge python (set k r f) others) h bound in
        inr (p, c, there, sum, rest)
  ]

  -- One turn of the loop, for the key of the turn and for any other.
  turn_keeps :
      (k : String) (op v : Query A) (f others h : Constraints A)
      → get k others ≡ none
      → Met (get k f) (some op) (some v)
      → AreBoth (set k v f) others h
      → AreBoth f (constrain k op others) h
  turn_keeps k op v f others h last met b = record {
    keys = b.keys;
    fields = λ i. elim (Bool-cases (str_eq k i)) [
      | inl same ↦
          let key : k ≡ i = (eq_iff k i).0 same in
          let added : get k (constrain k op others) ≡ some op =
            unfold get in ground (arith, eq_iff k k) in
          let present : get k (set k v f) ≡ some v = get-set k k v f ∙ ground (arith, eq_iff k k) in
          let kept : get k h ≡ some v = Met-along present last refl (b.fields k) in
          subst (λ x. Met (get x f) (get x (constrain k op others)) (get x h)) key
            (Met-along refl (sym added) (sym kept) met)
      | inr other ↦
          let before : get i (set k v f) ≡ get i f = get-set k i v f ∙ ground (arith, other) in
          let next : get i others ≡ get i (constrain k op others) =
            unfold get in ground (arith, other) in
          Met-along before next refl (b.fields i)
    ];
  }

  mutual
    unfolding add evaluate

    add-IsBoth : (p q c : Query A) → HasKeys p → HasKeys q → add python p q ≡ ok c → IsBoth p q c
    add-IsBoth (equals v) (equals w) c hp hq h =
        agreed-IsBoth (equals v) (equals w) c _ hp hq h (λ e. e) (λ r k. refl)
    add-IsBoth (equals_query p) (equals_query q) c hp hq h =
        agreed-IsBoth (equals_query p) (equals_query q) c _ hp hq h (λ e. e) (λ r k. refl)
    add-IsBoth (comparison o v) (comparison p w) c hp hq h =
        agreed-IsBoth (comparison o v) (comparison p w) c _ hp hq h (λ e. e) (λ r k. refl)
    add-IsBoth (within vs) (within ws) c hp hq h =
        agreed-IsBoth (within vs) (within ws) c _ hp hq h (λ e. e) (λ r k. refl)
    add-IsBoth (is_null a) (is_null b) c hp hq h =
        agreed-IsBoth (is_null a) (is_null b) c _ hp hq h (λ e. e) (λ r k. refl)
    add-IsBoth (not_query p) (not_query q) c hp hq h =
        agreed-IsBoth (not_query p) (not_query q) c _ hp hq h (λ e. e) (λ r k. refl)
    add-IsBoth (any_element p) (any_element q) c hp hq h =
        agreed-IsBoth (any_element p) (any_element q) c _ hp hq h (λ e. e) (λ r k. refl)
    add-IsBoth (all_elements p) (all_elements q) c hp hq h =
        agreed-IsBoth (all_elements p) (all_elements q) c _ hp hq h (λ e. e) (λ r k. refl)
    add-IsBoth (len_query p) (len_query q) c hp hq h =
        agreed-IsBoth (len_query p) (len_query q) c _ hp hq h (λ e. e) (λ r k. refl)
    add-IsBoth (and_all ps) (and_all qs) c hp hq h =
        agreed-IsBoth (and_all ps) (and_all qs) c _ hp hq h (λ e. e) (λ r k. refl)
    add-IsBoth (or_any ps) (or_any qs) c hp hq h =
        agreed-IsBoth (or_any ps) (or_any qs) c _ hp hq h (λ e. e) (λ r k. refl)
    add-IsBoth (rel f) (rel g) c hp hq h =
        let (a, merged, e) = bind-ok (merge python f g) (λ x. ok (rel x)) c h in
        rel-IsBoth f g a c hp hq e (merge-AreBoth f g a hp hq merged)
    add-IsBoth (composite f) (composite g) c hp hq h =
        let (a, merged, e) = bind-ok (merge python f g) (λ x. ok (composite x)) c h in
        composite-IsBoth f g a c hp hq e (merge-AreBoth f g a hp hq merged)
    add-IsBoth _ _ c hp hq h = cc

    merge-AreBoth :
        (f g h : Constraints A)
        → KeysDiffer f
        → KeysDiffer g
        → merge python f g ≡ ok h
        → AreBoth f g h
    merge-AreBoth f no_constraints h hf hg e = done f h hf e
    merge-AreBoth f (constrain k op others) h hf hg e = elim (merge-cases f k op others h e) [
      | inl (missing, rest) ↦
          turn_keeps k op op f others h hg.1 (Met-along (sym missing) refl refl refl)
            (merge-AreBoth (set k op f) others h (set-KeysDiffer k op f hf hg.0) hg.2 rest)
      | inr (p, c, there, sum, rest) ↦
          let b = add-IsBoth p op c (get-HasKeys k p f hf there) hg.0 sum in
          turn_keeps k op c f others h hg.1 (Met-along (sym there) refl refl (c, refl, b))
            (merge-AreBoth (set k c f) others h (set-KeysDiffer k c f hf b.keys) hg.2 rest)
    ]

-- Let equal values compare alike with any other, and let the keys of each dictionary in the two
-- queries differ. If their sum exists, then it is their conjunction, for any resolver, context and
-- state: where it is true neither query is false, and where it is false not both are true. A
-- comparison may raise an exception, which is no answer.
pub add-both :
    {A R : Type 0} (python : Python A) (objects : ObjectResolver A R)
    → IsRegular python
    → (p q c : Query A) → HasKeys p
    → HasKeys q
    → add python p q ≡ ok c
    → (r : Option R) (x : Option (String × Val A)) (s : Val A)
    → IsConjunction
        (evaluate python objects c r x s)
        (evaluate python objects p r x s)
        (evaluate python objects q r x s)
add-both python objects regular p q c hp hq h =
    (add-IsBoth python objects regular p q c hp hq h).answers
