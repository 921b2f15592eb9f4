-- ===== src/Query/Merge/Compatible.antt =====
-- Answers that do not contradict each other, where a comparison may have raised an exception instead.
use ascetic_ddd_python.Prelude.{
  String, ◌≡◌, ◌≢◌, refl, sym, ap, subst, Bool, true, false, not, Option, none, some,
}
use ascetic_ddd_python.Prelude.Result.{Result, ok, raise}
use ascetic_ddd_python.Query.{
  Error, Val, list, dict, Items, nil, cons, Fields, Query, rel, Constraints, constrain, Python,
}
use ascetic_ddd_python.Query.Evaluation.{
  ObjectResolver, both, either, negated, get_value, some_element, every_element, on_list, on_dict,
  evaluate, evaluate_fields, descended, related,
}

-- Two results that are answers are the same answer.
abbrev pub Compatible : Result Error Bool → Result Error Bool → Type 0
Compatible (ok a) (ok b) = a ≡ b
Compatible _ _ = Unit

pub alike : {x y : Result Error Bool} → x ≡ y → Compatible x y
alike {x} e = subst (Compatible x) e (self x)
  where
    self : (x : Result Error Bool) → Compatible x x
    self (ok a) = refl
    self (raise e) = tt

pub Compatible-by :
    (x y : Result Error Bool)
    → (x ≡ ok true → y ≢ ok false)
    → (x ≡ ok false → y ≢ ok true)
    → Compatible x y
Compatible-by (ok true) (ok true) h k = refl
Compatible-by (ok true) (ok false) h k = absurd (h refl refl)
Compatible-by (ok false) (ok true) h k = absurd (k refl refl)
Compatible-by (ok false) (ok false) h k = refl
Compatible-by (raise e) y h k = tt
Compatible-by (ok true) (raise e) h k = tt
Compatible-by (ok false) (raise e) h k = tt

pub Compatible-not : (x y : Result Error Bool) → Compatible x y → x ≡ ok true → y ≢ ok false
Compatible-not (ok true) (ok true) c h k = cc
Compatible-not (ok true) (ok false) c h k = cc
Compatible-not (ok true) (raise e) c h k = cc
Compatible-not (ok false) y c h k = cc
Compatible-not (raise e) y c h k = cc

pub Compatible-sym : (x y : Result Error Bool) → Compatible x y → Compatible y x
Compatible-sym (ok a) (ok b) c = sym c
Compatible-sym (ok a) (raise e) c = tt
Compatible-sym (raise e) (ok a) c = tt
Compatible-sym (raise e) (raise f) c = tt

pub both-Compatible :
    (x x' y y' : Result Error Bool)
    → Compatible x x'
    → Compatible y y'
    → Compatible (both x y) (both x' y')
unfolding both
both-Compatible (ok true) (ok true) y y' c d = d
both-Compatible (ok false) (ok false) y y' c d = refl
both-Compatible (ok true) (ok false) y y' c d = cc
both-Compatible (ok false) (ok true) y y' c d = cc
both-Compatible (ok true) (raise e) (ok _) y' c d = tt
both-Compatible (ok true) (raise e) (raise _) y' c d = tt
both-Compatible (ok false) (raise e) y y' c d = tt
both-Compatible (raise e) x' y y' c d = tt

pub either-Compatible :
    (x x' y y' : Result Error Bool)
    → Compatible x x'
    → Compatible y y'
    → Compatible (either x y) (either x' y')
unfolding either
either-Compatible (ok true) (ok true) y y' c d = refl
either-Compatible (ok false) (ok false) y y' c d = d
either-Compatible (ok true) (ok false) y y' c d = cc
either-Compatible (ok false) (ok true) y y' c d = cc
either-Compatible (ok false) (raise e) (ok _) y' c d = tt
either-Compatible (ok false) (raise e) (raise _) y' c d = tt
either-Compatible (ok true) (raise e) y y' c d = tt
either-Compatible (raise e) x' y y' c d = tt

pub negated-Compatible :
    (x y : Result Error Bool) → Compatible x y → Compatible (negated x) (negated y)
unfolding negated
negated-Compatible (ok a) (ok b) c = ap not c
negated-Compatible (ok a) (raise e) c = tt
negated-Compatible (raise e) y c = tt

module _ {A : Type 0} where
  pub some_element-Compatible :
      (t u : Val A → Result Error Bool) (vs : Items A)
      → ((v : Val A) → Compatible (t v) (u v))
      → Compatible (some_element t vs) (some_element u vs)
  unfolding some_element
  some_element-Compatible t u nil h = refl
  some_element-Compatible t u (cons v vs) h =
      either-Compatible (t v) (u v) (some_element t vs) (some_element u vs) (h v)
        (some_element-Compatible t u vs h)

  pub every_element-Compatible :
      (t u : Val A → Result Error Bool) (vs : Items A)
      → ((v : Val A) → Compatible (t v) (u v))
      → Compatible (every_element t vs) (every_element u vs)
  unfolding every_element
  every_element-Compatible t u nil h = refl
  every_element-Compatible t u (cons v vs) h =
      both-Compatible (t v) (u v) (every_element t vs) (every_element u vs) (h v)
        (every_element-Compatible t u vs h)

  pub on_list-Compatible :
      (t u : Items A → Result Error Bool) (s : Val A)
      → ((vs : Items A) → Compatible (t vs) (u vs))
      → Compatible (on_list t s) (on_list u s)
  unfolding on_list
  on_list-Compatible t u (list vs) h = h vs
  on_list-Compatible t u _ h = refl

  pub on_dict-Compatible :
      (t u : Fields A → Result Error Bool) (s : Val A)
      → ((d : Fields A) → Compatible (t d) (u d))
      → Compatible (on_dict t s) (on_dict u s)
  unfolding on_dict
  on_dict-Compatible t u (dict d) h = h d
  on_dict-Compatible t u _ h = refl

module _ {A R : Type 0} (python : Python A) (objects : ObjectResolver A R) where
  abbrev walk : Query A → Option R → Option (String × Val A) → Val A → Result Error Bool
  walk = evaluate python objects

  abbrev walk_fields : Constraints A → Option R → Fields A → Result Error Bool
  walk_fields = evaluate_fields python objects

  pub related-Compatible :
      (r : R) (field : Option String) (fk : Val A) (t u : Option R → Val A → Result Error Bool)
      → ((nested : Option R) (foreign : Val A) → Compatible (t nested foreign) (u nested foreign))
      → Compatible (related python objects r field fk t) (related python objects r field fk u)
  unfolding related
  related-Compatible r field fk t u h = go (objects.resolve r field fk)
    where
      go :
          (o : Option (Val A × Option R))
          → Compatible
              (elim o [ none ↦ ok false | some (foreign, nested) ↦ t nested foreign ])
              (elim o [ none ↦ ok false | some (foreign, nested) ↦ u nested foreign ])
      go none = refl
      go (some (foreign, nested)) = h nested foreign

  -- The resolver with which the field is evaluated: that of the object for a relation.
  abbrev pub resolver_for : Query A → Option R → String → Option R
  resolver_for (rel f) r k = r
  resolver_for _ r k = descended python objects r k

  abbrev pub walk_field : String → Query A → Option R → Fields A → Result Error Bool
  walk_field k op r d = walk op (resolver_for op r k) (some (k, get_value k d)) (get_value k d)

  pub walk_fields_cons :
      (k : String) (op : Query A) (others : Constraints A) (r : Option R) (d : Fields A)
      → walk_fields (constrain k op others) r d
        ≡ both (walk_field k op r d) (walk_fields others r d)
  unfolding evaluate
  walk_fields_cons k (rel f) others none d = refl
  walk_fields_cons k (rel f) others (some r) d = refl
  walk_fields_cons k _ others r d = refl
