-- ===== src/Query/Merge.antt =====
-- What a query that was added up means: the conjunction of its parts, although comparisons may raise.
pub mod Compatible
pub mod Booleans
pub mod Fields
pub mod Both
pub mod Equality
pub mod Conjunction
use ascetic_ddd_python.Prelude.{
  String, str_eq, eq_iff, ◌≡◌, refl, ap, subst, Bool-cases, inl, inr, Bool, true, false,
  if◌then◌else◌, Option, none, some, arith,
}
use ascetic_ddd_python.Prelude.Result.{Result, ok, raise}
use ascetic_ddd_python.Query.{
  Error, Comparison, Val, Query, equals, equals_query, comparison, within, is_null, not_query,
  any_element, all_elements, len_query, and_all, or_any, rel, composite, Queries, no_queries, query,
  Constraints, no_constraints, constrain, Python, get, set,
}

-- What the theorems ask of the values: those that are equal compare alike with any other, and raise
-- alike. They need not be identical, as True and 1, and orders may raise.
pub record IsRegular {A : Type 0} (python : Python A) : Type 0 where
  pub same_alike : (s v w : Val A) → python.same v w ≡ true → python.same s v ≡ python.same s w
  pub order_alike :
      (o : Comparison) (s v w : Val A)
      → python.same v w ≡ true
      → python.order o s v ≡ python.order o s w

-- The keys of each dictionary in the query differ.
abbrev mutual
  pub HasKeys : {A : Type 0} → Query A → Type 0
  HasKeys (equals v) = Unit
  HasKeys (equals_query q) = HasKeys q
  HasKeys (comparison o v) = Unit
  HasKeys (within vs) = Unit
  HasKeys (is_null b) = Unit
  HasKeys (not_query q) = HasKeys q
  HasKeys (any_element q) = HasKeys q
  HasKeys (all_elements q) = HasKeys q
  HasKeys (len_query q) = HasKeys q
  HasKeys (and_all qs) = HaveKeys qs
  HasKeys (or_any qs) = HaveKeys qs
  HasKeys (rel f) = KeysDiffer f
  HasKeys (composite f) = KeysDiffer f

  pub HaveKeys : {A : Type 0} → Queries A → Type 0
  HaveKeys no_queries = Unit
  HaveKeys (query q qs) = HasKeys q × HaveKeys qs

  pub KeysDiffer : {A : Type 0} → Constraints A → Type 0
  KeysDiffer no_constraints = Unit
  KeysDiffer (constrain k op others) = HasKeys op × (get k others ≡ none) × KeysDiffer others

module _ {A : Type 0} where
  pub get-set :
      (k j : String) (op : Query A) (f : Constraints A)
      → get j (set k op f) ≡ (if str_eq k j then some op else get j f)
  unfolding get set
  get-set k j op no_constraints = refl
  get-set k j op (constrain i p f) =
      ground (arith, eq_iff k j, eq_iff i k, eq_iff i j, get-set k j op f)

  pub get-HasKeys :
      (k : String) (op : Query A) (f : Constraints A)
      → KeysDiffer f
      → get k f ≡ some op
      → HasKeys op
  unfolding get
  get-HasKeys k op no_constraints h e = cc
  get-HasKeys k op (constrain j p f) h e = elim (Bool-cases (str_eq j k)) [
    | inl same ↦ let found : p ≡ op = ground arith in subst HasKeys found h.0
    | inr other ↦ get-HasKeys k op f h.2 (ground arith)
  ]

  pub set-KeysDiffer :
      (k : String) (op : Query A) (f : Constraints A)
      → KeysDiffer f
      → HasKeys op
      → KeysDiffer (set k op f)
  unfolding set get
  set-KeysDiffer k op no_constraints h o = (o, refl, tt)
  set-KeysDiffer k op (constrain j p f) h o = elim (Bool-cases (str_eq j k)) [
    | inl same ↦ rw same (o, h.1, h.2)
    | inr other ↦ rw other (
      h.0,
      ground (arith, h.1, get-set k j op f, eq_iff k j, eq_iff j k),
      set-KeysDiffer k op f h.2 o,
    )
  ]
