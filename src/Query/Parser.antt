-- ===== src/Query/Parser.antt =====
-- faker/domain/query/parser.py and visitors.py: from dictionaries to operators and back. The input is
-- what Python's dictionary literals give: dictionaries, lists, None, booleans and other values.
pub mod Canonical
pub mod Normal
pub mod RoundTrip
use Prim.Native.String
use Prim.Native.Char.{code}
use ascetic_ddd_python.Prelude.{
  ℕ, zero, suc, ◌==◌, ltb, String, str_eq, Bool, true, false, ◌&&◌, ◌||◌, not, if◌then◌else◌,
}
use ascetic_ddd_python.Prelude.Result.{Result, ok, raise, ◌>>=◌}
use ascetic_ddd_python.Query.{
  Error, value_error, Comparison, ne, gt, gte, lt, lte, Val, null, boolean, scalar, list, dict,
  Items, nil, cons, Fields, end, entry, Query, equals, equals_query, comparison, within, is_null,
  not_query, any_element, all_elements, len_query, and_all, or_any, rel, composite, Queries,
  no_queries, query, Constraints, no_constraints, constrain,
}
use ascetic_ddd_python.Query.Evaluation.{length}

-- `k.startswith('$')`
unfoldable pub is_operator : String → Bool
is_operator String.[] = false
is_operator (String.◌∷◌ c s) = code c == b'$'

abbrev pub name_of : Comparison → String
name_of ne = "$ne"
name_of gt = "$gt"
name_of gte = "$gte"
name_of lt = "$lt"
name_of lte = "$lte"

module _ {A : Type 0} where
  unfoldable pub has_operator : Fields A → Bool
  has_operator end = false
  has_operator (entry k v d) = is_operator k || has_operator d

  unfoldable pub has_field : Fields A → Bool
  has_field end = false
  has_field (entry k v d) = not (is_operator k) || has_field d

  -- `_parse_eq`, with the value parsed.
  unfoldable pub parse_eq : Val A → Result Error (Query A) → Result Error (Query A)
  parse_eq (dict d) parsed = parsed >>= λ q. ok (equals_query q)
  parse_eq v parsed = ok (equals v)

  unfoldable pub parse_in : Val A → Result Error (Query A)
  parse_in (list nil) = raise value_error
  parse_in (list (cons v vs)) = ok (within (cons v vs))
  parse_in _ = raise value_error

  unfoldable pub parse_is_null : Val A → Result Error (Query A)
  parse_is_null (boolean b) = ok (is_null b)
  parse_is_null _ = raise value_error

  -- The check of `_parse_any` and `_parse_all`.
  unfoldable pub expect_dict : Val A → Result Error (Query A) → Result Error (Query A)
  expect_dict (dict d) parsed = parsed
  expect_dict _ parsed = raise value_error

  -- `_parse_single_operator`. What the value comes to as a query, as the fields of a relation and as
  -- alternatives is computed by the caller, and used by the operator that wants it.
  unfoldable pub parse_single_operator :
      String
      → Val A
      → Result Error (Query A)
      → Result Error (Constraints A)
      → Result Error (Queries A)
      → Result Error (Query A)
  unfolding parse_eq parse_in parse_is_null expect_dict
  parse_single_operator name v parsed related alternatives =
      if str_eq name "$eq"
      then parse_eq v parsed
      else if str_eq name "$ne"
      then ok (comparison ne v)
      else if str_eq name "$gt"
      then ok (comparison gt v)
      else if str_eq name "$gte"
      then ok (comparison gte v)
      else if str_eq name "$lt"
      then ok (comparison lt v)
      else if str_eq name "$lte"
      then ok (comparison lte v)
      else if str_eq name "$in"
      then parse_in v
      else if str_eq name "$or"
      then (alternatives >>= λ qs. ok (or_any qs))
      else if str_eq name "$is_null"
      then parse_is_null v
      else if str_eq name "$not"
      then (parsed >>= λ q. ok (not_query q))
      else if str_eq name "$any"
      then (expect_dict v parsed >>= λ q. ok (any_element q))
      else if str_eq name "$all"
      then (expect_dict v parsed >>= λ q. ok (all_elements q))
      else if str_eq name "$len"
      then (parsed >>= λ q. ok (len_query q))
      else if str_eq name "$rel"
      then (related >>= λ f. ok (rel f))
      else raise value_error

  -- `_parse_operators` on what the single operators were parsed to.
  unfoldable pub conjoined : Queries A → Query A
  conjoined (query q no_queries) = q
  conjoined qs = and_all qs

  -- `QueryParser.parse`
  unfoldable mutual
    unfolding has_operator has_field conjoined parse_single_operator

    pub parse : Val A → Result Error (Query A)
    parse (dict end) = raise value_error
    parse (dict (entry k v d)) =
        let mixed = has_operator (entry k v d) && has_field (entry k v d) in
        let operators = parse_operators (entry k v d) in
        let fields = parse_fields (entry k v d) in
        if mixed
        then raise value_error
        else if has_operator (entry k v d)
        then (operators >>= λ qs. ok (conjoined qs))
        else (fields >>= λ f. ok (composite f))
    parse v = ok (equals v)

    pub parse_operators : Fields A → Result Error (Queries A)
    parse_operators end = ok no_queries
    parse_operators (entry k v d) =
        parse_single_operator k v (parse v) (parse_rel v) (parse_or v) >>= λ q.
        parse_operators d >>= λ qs. ok (query q qs)

    pub parse_fields : Fields A → Result Error (Constraints A)
    parse_fields end = ok no_constraints
    parse_fields (entry k v d) = parse v >>= λ q. parse_fields d >>= λ f. ok (constrain k q f)

    pub parse_rel : Val A → Result Error (Constraints A)
    parse_rel (dict d) = parse_fields d
    parse_rel _ = raise value_error

    pub parse_or : Val A → Result Error (Queries A)
    parse_or (list vs) =
        let operands = parse_operands vs in
        if ltb (length vs) 2 then raise value_error else operands
    parse_or _ = raise value_error

    pub parse_operands : Items A → Result Error (Queries A)
    parse_operands nil = ok no_queries
    parse_operands (cons v vs) = parse v >>= λ q. parse_operands vs >>= λ qs. ok (query q qs)

  unfoldable mutual
    pub normalize_query : Query A → Query A
    normalize_query (equals v) = equals v
    normalize_query (equals_query q) = normalize_query q
    normalize_query (comparison o v) = comparison o v
    normalize_query (within vs) = within vs
    normalize_query (is_null b) = is_null b
    normalize_query (not_query q) = not_query (normalize_query q)
    normalize_query (any_element q) = any_element (normalize_query q)
    normalize_query (all_elements q) = all_elements (normalize_query q)
    normalize_query (len_query q) = len_query (normalize_query q)
    normalize_query (and_all qs) = and_all (normalize_all qs)
    normalize_query (or_any qs) = or_any (normalize_all qs)
    normalize_query (rel f) = rel (normalize_fields f)
    normalize_query (composite f) = composite (normalize_fields f)

    pub normalize_all : Queries A → Queries A
    normalize_all no_queries = no_queries
    normalize_all (query q qs) = query (normalize_query q) (normalize_all qs)

    pub normalize_fields : Constraints A → Constraints A
    normalize_fields no_constraints = no_constraints
    normalize_fields (constrain k q f) = constrain k (normalize_query q) (normalize_fields f)

  unfoldable pub parse_query : Val A → Result Error (Query A)
  unfolding parse normalize_query
  parse_query v = parse v >>= λ q. ok (normalize_query q)

  -- `d[k] = v`, and `d.update(e)`.
  unfoldable pub set_entry : String → Val A → Fields A → Fields A
  set_entry k v end = entry k v end
  set_entry k v (entry j w d) = if str_eq j k then entry j v d else entry j w (set_entry k v d)

  unfoldable pub update : Fields A → Fields A → Fields A
  unfolding set_entry
  update d end = d
  update d (entry k v e) = update (set_entry k v d) e

  -- `QueryToDictVisitor`
  unfoldable mutual
    unfolding update

    pub to_dict : Query A → Fields A
    to_dict (equals v) = entry "$eq" v end
    to_dict (equals_query q) = entry "$eq" (dict (to_dict q)) end
    to_dict (comparison o v) = entry (name_of o) v end
    to_dict (within vs) = entry "$in" (list vs) end
    to_dict (is_null b) = entry "$is_null" (boolean b) end
    to_dict (not_query q) = entry "$not" (dict (to_dict q)) end
    to_dict (any_element q) = entry "$any" (dict (to_dict q)) end
    to_dict (all_elements q) = entry "$all" (dict (to_dict q)) end
    to_dict (len_query q) = entry "$len" (dict (to_dict q)) end
    to_dict (and_all qs) = visit_and end qs
    to_dict (or_any qs) = entry "$or" (list (to_dicts qs)) end
    to_dict (rel f) = entry "$rel" (dict (visit_composite f)) end
    to_dict (composite f) = visit_composite f

    -- The loop of `visit_and`.
    pub visit_and : Fields A → Queries A → Fields A
    visit_and result no_queries = result
    visit_and result (query q qs) = visit_and (update result (to_dict q)) qs

    pub to_dicts : Queries A → Items A
    to_dicts no_queries = nil
    to_dicts (query q qs) = cons (dict (to_dict q)) (to_dicts qs)

    pub visit_composite : Constraints A → Fields A
    visit_composite no_constraints = end
    visit_composite (constrain k q f) = entry k (dict (to_dict q)) (visit_composite f)
