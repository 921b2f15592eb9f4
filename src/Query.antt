-- ===== src/Query.antt =====
-- faker/domain/query/operators.py: values, query operators, their equality and their sum. A scalar of
-- the application has type `A`; `Python` is what Python does with values that the application chose:
-- `==`, the orders, which may raise TypeError, and the scalar that `len` returns.
pub mod Evaluation
pub mod Merge
pub mod Parser
pub mod Plain
mod Tests
use ascetic_ddd_python.Prelude.{
  ℕ, String, str_eq, Bool, true, false, ◌&&◌, if◌then◌else◌, Option, none, some,
}
use ascetic_ddd_python.Prelude.Result.{Result, ok, raise, ◌>>=◌}

pub data Error : Type 0 where
  type_error merge_conflict value_error : Error

pub data Comparison : Type 0 where
  ne gt gte lt lte : Comparison

mutual
  pub data Val (A : Type 0) : Type 0 where
    null : Val A
    boolean : Bool → Val A
    scalar : A → Val A
    list : Items A → Val A
    dict : Fields A → Val A

  pub data Items (A : Type 0) : Type 0 where
    nil : Items A
    cons : Val A → Items A → Items A

  pub data Fields (A : Type 0) : Type 0 where
    end : Fields A
    entry : String → Val A → Fields A → Fields A

-- The classes that implement IQueryOperator. The value of an EqOperator may be another operator; the
-- query of a RelOperator is a CompositeQuery.
mutual
  pub data Query (A : Type 0) : Type 0 where
    equals : (value : Val A) → Query A
    equals_query : (value : Query A) → Query A
    comparison : (op : Comparison) (value : Val A) → Query A
    within : (values : Items A) → Query A
    is_null : (value : Bool) → Query A
    not_query any_element all_elements len_query : (query : Query A) → Query A
    and_all or_any : (operands : Queries A) → Query A
    rel composite : (fields : Constraints A) → Query A

  pub data Queries (A : Type 0) : Type 0 where
    no_queries : Queries A
    query : (first : Query A) (others : Queries A) → Queries A

  pub data Constraints (A : Type 0) : Type 0 where
    no_constraints : Constraints A
    constrain : (field : String) (op : Query A) (others : Constraints A) → Constraints A

pub record Python (A : Type 0) : Type 0 where
  pub same : Val A → Val A → Bool
  pub order : Comparison → Val A → Val A → Result Error Bool
  pub of_length : ℕ → A

abbrev pub eq_bool : Bool → Bool → Bool
eq_bool true b = b
eq_bool false true = false
eq_bool false false = true

unfoldable pub eq_comparison : Comparison → Comparison → Bool
eq_comparison ne ne = true
eq_comparison gt gt = true
eq_comparison gte gte = true
eq_comparison lt lt = true
eq_comparison lte lte = true
eq_comparison _ _ = false

module _ {A : Type 0} where
  -- `fields.get(field)`
  unfoldable pub get : String → Constraints A → Option (Query A)
  get k no_constraints = none
  get k (constrain j op others) = if str_eq j k then some op else get k others

  -- `merged[field] = op`
  unfoldable pub set : String → Query A → Constraints A → Constraints A
  set k op no_constraints = constrain k op no_constraints
  set k op (constrain j p others) =
      if str_eq j k then constrain j op others else constrain j p (set k op others)

  -- The keys of the second dictionary are keys of the first.
  unfoldable pub covers : Constraints A → Constraints A → Bool
  unfolding get
  covers f no_constraints = true
  covers f (constrain k op g) = elim (get k f) [ none ↦ false | some _ ↦ covers f g ]

  -- The operand itself if they are equal, and MergeConflict otherwise.
  unfoldable pub agreed : Bool → Query A → Result Error (Query A)
  agreed true q = ok q
  agreed false q = raise merge_conflict

module _ {A : Type 0} (python : Python A) where
  unfoldable pub eq_items : Items A → Items A → Bool
  eq_items nil nil = true
  eq_items (cons v vs) (cons w ws) = python.same v w && eq_items vs ws
  eq_items _ _ = false

  -- `__eq__` of the classes; dictionaries are equal if they have the same keys with equal values.
  unfoldable mutual
    unfolding get covers

    pub eq : Query A → Query A → Bool
    eq (equals v) (equals w) = python.same v w
    eq (equals_query q) (equals_query r) = eq q r
    eq (comparison o v) (comparison p w) = eq_comparison o p && python.same v w
    eq (within vs) (within ws) = eq_items vs ws
    eq (is_null b) (is_null c) = eq_bool b c
    eq (not_query q) (not_query r) = eq q r
    eq (any_element q) (any_element r) = eq q r
    eq (all_elements q) (all_elements r) = eq q r
    eq (len_query q) (len_query r) = eq q r
    eq (and_all qs) (and_all rs) = eq_queries qs rs
    eq (or_any qs) (or_any rs) = eq_queries qs rs
    eq (rel f) (rel g) = eq_constraints f g && covers f g
    eq (composite f) (composite g) = eq_constraints f g && covers f g
    eq _ _ = false

    pub eq_queries : Queries A → Queries A → Bool
    eq_queries no_queries no_queries = true
    eq_queries (query q qs) (query r rs) = eq q r && eq_queries qs rs
    eq_queries _ _ = false

    -- Every constraint of the first has its equal in the second.
    pub eq_constraints : Constraints A → Constraints A → Bool
    eq_constraints no_constraints g = true
    eq_constraints (constrain k op f) g = elim (get k g) [
      | none ↦ false
      | some p ↦ eq op p && eq_constraints f g
    ]

  -- `__add__`; operators of different classes return NotImplemented, which is a TypeError of `+`.
  unfoldable mutual
    unfolding eq agreed get set

    pub add : Query A → Query A → Result Error (Query A)
    add (equals v) (equals w) = agreed (python.same v w) (equals v)
    add (equals v) (equals_query r) = raise merge_conflict
    add (equals_query q) (equals w) = raise merge_conflict
    add (equals_query q) (equals_query r) = agreed (eq q r) (equals_query q)
    add (comparison o v) (comparison p w) =
        agreed (eq_comparison o p && python.same v w) (comparison o v)
    add (within vs) (within ws) = agreed (eq_items vs ws) (within vs)
    add (is_null b) (is_null c) = agreed (eq_bool b c) (is_null b)
    add (not_query q) (not_query r) = agreed (eq q r) (not_query q)
    add (any_element q) (any_element r) = agreed (eq q r) (any_element q)
    add (all_elements q) (all_elements r) = agreed (eq q r) (all_elements q)
    add (len_query q) (len_query r) = agreed (eq q r) (len_query q)
    add (and_all qs) (and_all rs) = agreed (eq_queries qs rs) (and_all qs)
    add (or_any qs) (or_any rs) = agreed (eq_queries qs rs) (or_any qs)
    add (rel f) (rel g) = merge f g >>= λ h. ok (rel h)
    add (composite f) (composite g) = merge f g >>= λ h. ok (composite h)
    add _ _ = raise type_error

    -- The loop of `CompositeQuery.__add__` over the fields of the other query.
    pub merge : Constraints A → Constraints A → Result Error (Constraints A)
    merge merged no_constraints = ok merged
    merge merged (constrain k op others) = elim (get k merged) [
      | none ↦ merge (set k op merged) others
      | some p ↦ add p op >>= λ r. merge (set k r merged) others
    ]
