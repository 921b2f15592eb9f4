-- ===== src/Specification/Sql.antt =====
-- specification/infrastructure/postgresql_visitor.py. The text `_sql` is the list of the pieces that
-- are appended to it; a number in it stays a number. What an f-string makes of a member of an
-- enumeration depends on the Python version, and is the parameter `Format`: once the value; class and
-- name in Python 3.14, which the project requires. The singular of a noun (inflection) and `str.lower` are `Naming`.
pub mod Placeholders
pub mod Adding
pub mod Parameters
pub mod Brackets
mod Tests
use Prim.Native.String.{◌++◌ as ◌<>◌}
use ascetic_ddd_python.Prelude.{
  ℕ, suc, ltb, String, str_eq, Bool, true, false, ◌&&◌, Option, none, some, List, [], ◌∷◌, ◌++◌,
  length, if◌then◌else◌,
}
use ascetic_ddd_python.Prelude.Result.{Result, ok, raise, ◌>>=◌}
use ascetic_ddd_python.Specification.Nodes.{
  Error, type_error, Operator, eq, ne, gt, lt, gte, lte, lshift, rshift, is, is_null, is_not_null,
  in_, not_in, between, not_between, and_, or_, not_, add, sub, mul, div, mod_, asc, desc, period,
  Associativity, Val, Node, global_scope, item, object_node, collection_node, field, value, prefix,
  infix_node, postfix, extract_field_path,
}
use ascetic_ddd_python.Specification.Schema.{
  ForeignKeyPair, CollectionMapping, SchemaRegistry, get_mapping, is_relational, get_parent_ref,
}

pub data Piece : Type 0 where
  text : String → Piece
  placeholder : ℕ → Piece
  numbered : String → ℕ → Piece

pub record Format : Type 0 where
  pub of_operator : Operator → String
  pub of_associativity : Associativity → String

pub record Naming : Type 0 where
  pub singularize : String → String
  pub lower : String → String

-- `_wildcard_alias` is a name with a number, or nothing yet.
pub record Sql (A : Type 0) : Type 0 where
  pub sql : List Piece
  pub parameters : List (Val A)
  pub precedence : ℕ
  pub in_wildcard : Bool
  pub wildcard_alias : Option (String × ℕ)
  pub wildcard_counter : ℕ

-- `operator.value`
abbrev pub value_of : Operator → String
value_of eq = "="
value_of ne = "!="
value_of gt = ">"
value_of lt = "<"
value_of gte = ">="
value_of lte = "<="
value_of lshift = "<<"
value_of rshift = ">>"
value_of is = "IS"
value_of is_null = "IS NULL"
value_of is_not_null = "IS NOT NULL"
value_of in_ = "IN"
value_of not_in = "NOT IN"
value_of between = "BETWEEN"
value_of not_between = "NOT BETWEEN"
value_of and_ = "AND"
value_of or_ = "OR"
value_of not_ = "NOT"
value_of add = "+"
value_of sub = "-"
value_of mul = "*"
value_of div = "/"
value_of mod_ = "%"
value_of asc = "ASC"
value_of desc = "DESC"
value_of period = "."

-- `_setup_precedence`
abbrev pub precedence_mapping : List (String × ℕ)
precedence_mapping =
    (". LEFT", 160)
    ∷ (":: LEFT", 160)
    ∷ ("[ LEFT", 150)
    ∷ ("+ RIGHT", 140)
    ∷ ("- RIGHT", 140)
    ∷ ("^ LEFT", 130)
    ∷ ("* LEFT", 120)
    ∷ ("/ LEFT", 120)
    ∷ ("% LEFT", 120)
    ∷ ("+ LEFT", 110)
    ∷ ("- LEFT", 110)
    ∷ ("(any other operator) LEFT", 100)
    ∷ ("BETWEEN NON", 90)
    ∷ ("IN NON", 90)
    ∷ ("LIKE NON", 90)
    ∷ ("ILIKE NON", 90)
    ∷ ("SIMILAR NON", 90)
    ∷ ("< NON", 80)
    ∷ ("> NON", 80)
    ∷ ("= NON", 80)
    ∷ ("<= NON", 80)
    ∷ (">= NON", 80)
    ∷ ("!= NON", 80)
    ∷ ("IS NON", 70)
    ∷ ("ISNULL NON", 70)
    ∷ ("NOTNULL NON", 70)
    ∷ ("NOT RIGHT", 60)
    ∷ ("AND LEFT", 50)
    ∷ ("OR LEFT", 40)
    ∷ []

-- `mapping.get(key, default)`
unfoldable pub get_precedence : String → List (String × ℕ) → ℕ → ℕ
get_precedence key [] default = default
get_precedence key ((k, p) ∷ rest) default =
    if str_eq k key then p else get_precedence key rest default

-- `".".join(names)`
unfoldable pub join : List String → String
join [] = ""
join (name ∷ []) = name
join (name ∷ names) = name <> ("." <> join names)

-- `self._wildcard_alias`
abbrev pub alias_piece : Option (String × ℕ) → Piece
alias_piece none = text ""
alias_piece (some (name, n)) = numbered name n

-- The loop over the foreign keys, with its index.
unfoldable pub key_conditions : Piece → Piece → Bool → List ForeignKeyPair → List Piece
key_conditions alias parent first [] = []
key_conditions alias parent first (fk ∷ keys) =
    (if first then [] else text " AND " ∷ [])
    ++ alias
      ∷ text "."
      ∷ text fk.child_column
      ∷ text " = "
      ∷ parent
      ∷ text "."
      ∷ text fk.parent_column
      ∷ []
    ++ key_conditions alias parent false keys

-- Unary `+` and `-` stand without a space.
abbrev pub prefix_piece : Operator → Piece
prefix_piece add = text (value_of add)
prefix_piece sub = text (value_of sub)
prefix_piece o = text (value_of o <> " ")

-- A node that is no scope has no `is_root`: a type error.
module _ {A : Type 0} where
  -- `_extract_collection_name`
  unfoldable pub extract_collection_name : Naming → Node A → Result Error String
  extract_collection_name naming global_scope = ok "item"
  extract_collection_name naming item = ok "item"
  extract_collection_name naming (object_node parent name) = ok (naming.singularize name)
  extract_collection_name naming (collection_node parent name predicate) =
      ok (naming.singularize name)
  extract_collection_name naming _ = raise type_error

  -- `_extract_field_name`
  unfoldable pub extract_field_name : Node A → Result Error String
  extract_field_name global_scope = ok ""
  extract_field_name item = ok ""
  extract_field_name (object_node parent name) = ok name
  extract_field_name (collection_node parent name predicate) = ok name
  extract_field_name _ = raise type_error

  abbrev pub is_item : Node A → Bool
  is_item item = true
  is_item _ = false

  unfoldable pub emit : List Piece → Sql A → Sql A
  emit pieces s = record s { sql = s.sql ++ pieces }

  -- The loop of `_extract_collection_path`: the names up to the root, and whether that is the item.
  unfoldable pub path_to_root : Node A → List String → Result Error (List String × Bool)
  path_to_root global_scope parts = ok (parts, false)
  path_to_root item parts = ok (parts, true)
  path_to_root (object_node parent name) parts = path_to_root parent (name ∷ parts)
  path_to_root (collection_node parent name predicate) parts = path_to_root parent (name ∷ parts)
  path_to_root _ parts = raise type_error

  abbrev pub path_pieces : Sql A → List String × Bool → List Piece
  path_pieces s (parts, false) = text (join parts) ∷ []
  path_pieces s ([], true) =
      if s.in_wildcard then alias_piece s.wildcard_alias ∷ [] else text (join []) ∷ []
  path_pieces s (part ∷ parts, true) =
      if s.in_wildcard
      then alias_piece s.wildcard_alias ∷ text "." ∷ text (join (part ∷ parts)) ∷ []
      else text (join (part ∷ parts)) ∷ []

  -- `_get_parent_ref_for_relational`, with the schema that the caller has checked.
  unfoldable pub parent_ref : SchemaRegistry → Sql A → Piece
  unfolding get_parent_ref
  parent_ref schema s = elim s.wildcard_alias [
    | none ↦ text (get_parent_ref schema)
    | some (name, n) ↦ if s.in_wildcard then numbered name n else text (get_parent_ref schema)
  ]

  -- The subquery: a new context for the predicate, and the old one restored after it.
  unfoldable pub subquery :
      List Piece → String × ℕ → (Sql A → Result Error (Sql A)) → Sql A → Result Error (Sql A)
  unfolding emit
  subquery opening alias predicate s =
      predicate (record (emit opening s) {
        in_wildcard = true;
        wildcard_alias = some alias;
        wildcard_counter = suc s.wildcard_counter;
      })
      >>= λ s'. ok (record (emit (text ")" ∷ []) s') {
        in_wildcard = s.in_wildcard;
        wildcard_alias = s.wildcard_alias;
      })

  unfoldable pub visit_embedded_collection :
      Naming → Node A → String → (Sql A → Result Error (Sql A)) → Sql A → Result Error (Sql A)
  unfolding path_to_root subquery
  visit_embedded_collection naming parent name predicate s = path_to_root parent [] >>= λ path.
      subquery
        (text "EXISTS (SELECT 1 FROM unnest(" ∷ []
          ++ path_pieces s path
          ++ text ") AS "
            ∷ numbered (naming.lower name) (suc s.wildcard_counter)
            ∷ text " WHERE "
            ∷ [])
        (naming.lower name, suc s.wildcard_counter) predicate s

  unfoldable pub visit_relational_collection :
      Naming
      → SchemaRegistry
      → CollectionMapping
      → String
      → (Sql A → Result Error (Sql A))
      → Sql A
      → Result Error (Sql A)
  unfolding subquery parent_ref key_conditions
  visit_relational_collection naming schema mapping name predicate s =
      let base = if str_eq mapping.alias "" then naming.lower name else mapping.alias in
      let alias = numbered base (suc s.wildcard_counter) in
      subquery
        (text "EXISTS (SELECT 1 FROM "
            ∷ text mapping.table
            ∷ text " AS "
            ∷ alias
            ∷ text " WHERE "
            ∷ []
          ++ key_conditions alias (parent_ref schema s) true mapping.foreign_keys
          ++ text " AND " ∷ [])
        (base, suc s.wildcard_counter) predicate s

  unfoldable pub visit_collection :
      Naming
      → Option SchemaRegistry
      → Node A
      → (Sql A → Result Error (Sql A))
      → Sql A
      → Result Error (Sql A)
  unfolding visit_embedded_collection visit_relational_collection extract_collection_name
      extract_field_name is_relational get_mapping
  visit_collection naming schema parent predicate s =
      extract_collection_name naming parent >>= λ name. extract_field_name parent >>= λ key.
      elim schema [
        | none ↦ visit_embedded_collection naming parent name predicate s
        | some registry ↦
            if is_relational key registry
            then elim (get_mapping key registry) [
              | none ↦ visit_embedded_collection naming parent name predicate s
              | some mapping ↦ visit_relational_collection naming registry mapping name predicate s
            ]
            else visit_embedded_collection naming parent name predicate s
      ]

  unfoldable pub visit_field : Node A → String → Sql A → Result Error (Sql A)
  unfolding emit
  visit_field scope name s =
      if s.in_wildcard && is_item scope
      then ok (emit (alias_piece s.wildcard_alias ∷ text "." ∷ text name ∷ []) s)
      else extract_field_path (field scope name) >>= λ path. ok (emit (text (join path) ∷ []) s)

  unfoldable pub visit_value : Val A → Sql A → Sql A
  unfolding emit
  visit_value v s =
      emit (placeholder (suc (length s.parameters)) ∷ [])
        (record s { parameters = s.parameters ++ v ∷ [] })

module _ {A : Type 0} where
  -- The functions `visit_fn`.
  unfoldable pub visit_prefix :
      Operator → (Sql A → Result Error (Sql A)) → Sql A → Result Error (Sql A)
  unfolding emit
  visit_prefix o operand s = operand (emit (prefix_piece o ∷ []) s)

  unfoldable pub visit_infix :
      (Sql A → Result Error (Sql A))
      → Operator
      → (Sql A → Result Error (Sql A))
      → Sql A
      → Result Error (Sql A)
  unfolding emit
  visit_infix left o right s =
      left s >>= λ t. right (emit (text (" " <> (value_of o <> " ")) ∷ []) t)

  unfoldable pub visit_postfix :
      (Sql A → Result Error (Sql A)) → Operator → Sql A → Result Error (Sql A)
  unfolding emit
  visit_postfix operand o s = operand s >>= λ t. ok (emit (text (" " <> value_of o) ∷ []) t)

module _ (format : Format) where
  -- `_get_node_precedence_key`, and its place in the table.
  unfoldable pub precedence_of : Operator → Associativity → ℕ
  unfolding get_precedence
  precedence_of o a =
      get_precedence (format.of_operator o <> (" " <> format.of_associativity a)) precedence_mapping
        (get_precedence "(any other operator) LEFT" precedence_mapping 0)

  module _ {A : Type 0} (naming : Naming) (schema : Option SchemaRegistry) where
    -- `_visit`
    unfoldable pub visit_operator :
        ℕ → (Sql A → Result Error (Sql A)) → Sql A → Result Error (Sql A)
    unfolding emit
    visit_operator inner callable s =
        let outer = s.precedence in
        let opened = if ltb inner outer then emit (text "(" ∷ []) s else s in
        callable (record opened { precedence = inner }) >>= λ s'.
        ok (record (if ltb inner outer then emit (text ")" ∷ []) s' else s') { precedence = outer })

    -- `node.accept(visitor)`
    unfoldable pub accept : Node A → Sql A → Result Error (Sql A)
    unfolding emit visit_operator visit_collection visit_field visit_value visit_prefix visit_infix
        visit_postfix
    accept global_scope s = ok s
    accept item s = ok s
    accept (object_node parent name) s = ok s
    accept (collection_node parent name predicate) s =
        visit_collection naming schema parent (accept predicate) s
    accept (field scope name) s = visit_field scope name s
    accept (value v) s = ok (visit_value v s)
    accept (prefix o operand a) s =
        visit_operator (precedence_of o a) (visit_prefix o (accept operand)) s
    accept (infix_node left o right a) s =
        visit_operator (precedence_of o a) (visit_infix (accept left) o (accept right)) s
    accept (postfix operand o a) s =
        visit_operator (precedence_of o a) (visit_postfix (accept operand) o) s

    -- `PostgresqlVisitor.__init__`
    abbrev pub new_visitor : Sql A
    new_visitor = record {
      sql = [];
      parameters = [];
      precedence = 0;
      in_wildcard = false;
      wildcard_alias = none;
      wildcard_counter = 0;
    }

    unfoldable pub compile_to_sql : Node A → Result Error (List Piece × List (Val A))
    unfolding accept
    compile_to_sql node = accept node new_visitor >>= λ s. ok (s.sql, s.parameters)
