-- ===== src/Query/Plain.antt =====
-- faker/domain/query/visitors.py: plain values, without operators, from queries and back.
pub mod RoundTrip
use ascetic_ddd_python.Prelude.{String}
use ascetic_ddd_python.Prelude.Result.{Result, ok, raise, ◌>>=◌}
use ascetic_ddd_python.Query.{
  Error, Val, null, boolean, scalar, list, dict, Items, nil, cons, Fields, end, entry, Query,
  equals, equals_query, comparison, within, is_null, not_query, any_element, all_elements,
  len_query, and_all, or_any, rel, composite, Queries, no_queries, query, Constraints,
  no_constraints, constrain,
}
use ascetic_ddd_python.Query.Parser.{name_of, update}

module _ {A : Type 0} where
  -- `result.update(value)`: what Python does with a value that is no dictionary is a parameter.
  unfoldable pub update_with :
      (Fields A → Val A → Result Error (Fields A)) → Fields A → Val A → Result Error (Fields A)
  unfolding update
  update_with update_other result (dict d) = ok (update result d)
  update_with update_other result v = update_other result v

  -- A dictionary with one entry.
  abbrev pub single : String → Val A → Val A
  single k v = dict (entry k v end)

  unfoldable mutual
    pub dict_to_query : Val A → Fields A
    dict_to_query (dict d) = dicts_to_queries d
    dict_to_query v = entry "$eq" v end

    pub dicts_to_queries : Fields A → Fields A
    dicts_to_queries end = end
    dicts_to_queries (entry k v d) = entry k (dict (dict_to_query v)) (dicts_to_queries d)

module _ {A : Type 0} (update_other : Fields A → Val A → Result Error (Fields A)) where
  -- `QueryToPlainValueVisitor`
  unfoldable mutual
    unfolding update_with

    pub to_plain_value : Query A → Result Error (Val A)
    to_plain_value (equals v) = ok v
    to_plain_value (equals_query q) = to_plain_value q
    to_plain_value (comparison o v) = ok (single (name_of o) v)
    to_plain_value (within vs) = ok (single "$in" (list vs))
    to_plain_value (is_null b) = ok (single "$is_null" (boolean b))
    to_plain_value (not_query q) = to_plain_value q >>= λ v. ok (single "$not" v)
    to_plain_value (any_element q) = to_plain_value q >>= λ v. ok (single "$any" v)
    to_plain_value (all_elements q) = to_plain_value q >>= λ v. ok (single "$all" v)
    to_plain_value (len_query q) = to_plain_value q >>= λ v. ok (single "$len" v)
    to_plain_value (and_all qs) = plain_and end qs >>= λ d. ok (dict d)
    to_plain_value (or_any qs) = plain_operands qs >>= λ vs. ok (single "$or" (list vs))
    to_plain_value (rel f) = plain_fields f >>= λ d. ok (dict d)
    to_plain_value (composite f) = plain_fields f >>= λ d. ok (dict d)

    -- The loop of `visit_and`.
    pub plain_and : Fields A → Queries A → Result Error (Fields A)
    plain_and result no_queries = ok result
    plain_and result (query q qs) = to_plain_value q >>= λ v.
        update_with update_other result v >>= λ updated. plain_and updated qs

    pub plain_operands : Queries A → Result Error (Items A)
    plain_operands no_queries = ok nil
    plain_operands (query q qs) =
        to_plain_value q >>= λ v. plain_operands qs >>= λ vs. ok (cons v vs)

    -- `visit_composite`
    pub plain_fields : Constraints A → Result Error (Fields A)
    plain_fields no_constraints = ok end
    plain_fields (constrain k q f) =
        to_plain_value q >>= λ v. plain_fields f >>= λ d. ok (entry k v d)
