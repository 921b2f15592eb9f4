-- ===== src/Specification/Sql/Brackets.antt =====
-- Brackets, with the f-strings of Python 3.14, which the project requires: they give the class and the
-- name of a member, which is no key of the table of precedences.
use Prim.Native.String.{◌++◌ as ◌<>◌}
use ascetic_ddd_python.Prelude.{
  ℕ, ltb, ◌≤◌, ◌≡◌, refl, sym, ap, ◌∙◌, false, ◌&&◌, Bool-cases, inl, inr, String, Option, none,
  some, Option-cases, List, [], ◌∷◌, arith,
}
use ascetic_ddd_python.Prelude.Result.{Result, ok, raise, ◌>>=◌, bind-ok, bind_assoc}
use ascetic_ddd_python.Specification.Nodes.{
  Error, Operator, eq, ne, gt, lt, gte, lte, lshift, rshift, is, is_null, is_not_null, in_, not_in,
  between, not_between, and_, or_, not_, add, sub, mul, div, mod_, asc, desc, period, Associativity,
  left_associative, right_associative, non_associative, Node, global_scope, item, object_node,
  collection_node, field, value, prefix, infix_node, postfix, extract_field_path,
}
use ascetic_ddd_python.Specification.Schema.{SchemaRegistry, is_relational, get_mapping}
use ascetic_ddd_python.Specification.Sql.{
  Piece, text, Format, Naming, Sql, alias_piece, path_to_root, emit, subquery,
  extract_collection_name, extract_field_name, is_item, join, value_of, visit_embedded_collection,
  visit_relational_collection, visit_collection, visit_field, visit_value, visit_operator,
  visit_prefix, visit_infix, visit_postfix, precedence_of, accept, compile_to_sql, new_visitor,
}

-- `f"{operator}"`
abbrev pub by_name : Format
by_name = record {
  of_operator = elim [
    | eq ↦ "OPERATOR.EQ"
    | ne ↦ "OPERATOR.NE"
    | gt ↦ "OPERATOR.GT"
    | lt ↦ "OPERATOR.LT"
    | gte ↦ "OPERATOR.GTE"
    | lte ↦ "OPERATOR.LTE"
    | lshift ↦ "OPERATOR.LSHIFT"
    | rshift ↦ "OPERATOR.RSHIFT"
    | is ↦ "OPERATOR.IS"
    | is_null ↦ "OPERATOR.IS_NULL"
    | is_not_null ↦ "OPERATOR.IS_NOT_NULL"
    | in_ ↦ "OPERATOR.IN"
    | not_in ↦ "OPERATOR.NOT_IN"
    | between ↦ "OPERATOR.BETWEEN"
    | not_between ↦ "OPERATOR.NOT_BETWEEN"
    | and_ ↦ "OPERATOR.AND"
    | or_ ↦ "OPERATOR.OR"
    | not_ ↦ "OPERATOR.NOT"
    | add ↦ "OPERATOR.ADD"
    | sub ↦ "OPERATOR.SUB"
    | mul ↦ "OPERATOR.MUL"
    | div ↦ "OPERATOR.DIV"
    | mod_ ↦ "OPERATOR.MOD"
    | asc ↦ "OPERATOR.ASC"
    | desc ↦ "OPERATOR.DESC"
    | period ↦ "OPERATOR.PERIOD"
  ];
  of_associativity = elim [
    | left_associative ↦ "ASSOCIATIVITY.LEFT_ASSOCIATIVE"
    | right_associative ↦ "ASSOCIATIVITY.RIGHT_ASSOCIATIVE"
    | non_associative ↦ "ASSOCIATIVITY.NON_ASSOCIATIVE"
  ];
}

for_each :
    (f : Associativity → ℕ)
    → f left_associative ≡ 100
    → f right_associative ≡ 100
    → f non_associative ≡ 100
    → (a : Associativity) → f a ≡ 100
for_each f l r n left_associative = l
for_each f l r n right_associative = r
for_each f l r n non_associative = n

by_name-precedence : (o : Operator) (a : Associativity) → precedence_of by_name o a ≡ 100
unfolding precedence_of
by_name-precedence eq = for_each (precedence_of by_name eq) refl refl refl
by_name-precedence ne = for_each (precedence_of by_name ne) refl refl refl
by_name-precedence gt = for_each (precedence_of by_name gt) refl refl refl
by_name-precedence lt = for_each (precedence_of by_name lt) refl refl refl
by_name-precedence gte = for_each (precedence_of by_name gte) refl refl refl
by_name-precedence lte = for_each (precedence_of by_name lte) refl refl refl
by_name-precedence lshift = for_each (precedence_of by_name lshift) refl refl refl
by_name-precedence rshift = for_each (precedence_of by_name rshift) refl refl refl
by_name-precedence is = for_each (precedence_of by_name is) refl refl refl
by_name-precedence is_null = for_each (precedence_of by_name is_null) refl refl refl
by_name-precedence is_not_null = for_each (precedence_of by_name is_not_null) refl refl refl
by_name-precedence in_ = for_each (precedence_of by_name in_) refl refl refl
by_name-precedence not_in = for_each (precedence_of by_name not_in) refl refl refl
by_name-precedence between = for_each (precedence_of by_name between) refl refl refl
by_name-precedence not_between = for_each (precedence_of by_name not_between) refl refl refl
by_name-precedence and_ = for_each (precedence_of by_name and_) refl refl refl
by_name-precedence or_ = for_each (precedence_of by_name or_) refl refl refl
by_name-precedence not_ = for_each (precedence_of by_name not_) refl refl refl
by_name-precedence add = for_each (precedence_of by_name add) refl refl refl
by_name-precedence sub = for_each (precedence_of by_name sub) refl refl refl
by_name-precedence mul = for_each (precedence_of by_name mul) refl refl refl
by_name-precedence div = for_each (precedence_of by_name div) refl refl refl
by_name-precedence mod_ = for_each (precedence_of by_name mod_) refl refl refl
by_name-precedence asc = for_each (precedence_of by_name asc) refl refl refl
by_name-precedence desc = for_each (precedence_of by_name desc) refl refl refl
by_name-precedence period = for_each (precedence_of by_name period) refl refl refl

module _ {A : Type 0} where
  abbrev Keeps : (Sql A → Result Error (Sql A)) → Type 0
  Keeps visit = (s s' : Sql A) → visit s ≡ ok s' → s'.precedence ≡ s.precedence

  same_precedence :
      {s s' : Sql A} (p : ℕ)
      → ◌≡◌ {A = Result Error (Sql A)} (ok s) (ok s')
      → s.precedence ≡ p
      → s'.precedence ≡ p
  same_precedence p e h = cc

  subquery-Keeps :
      (opening : List Piece) (alias : String × ℕ) (predicate : Sql A → Result Error (Sql A))
      → Keeps predicate
      → Keeps (subquery opening alias predicate)
  unfolding subquery emit
  subquery-Keeps opening alias predicate keeps s s' h =
      let (t, run, done) = bind-ok (predicate _) _ s' h in
      same_precedence s.precedence done (keeps _ t run)

  embedded-Keeps :
      (naming : Naming) (parent : Node A) (name : String) (predicate : Sql A → Result Error (Sql A))
      → Keeps predicate
      → Keeps (visit_embedded_collection naming parent name predicate)
  unfolding visit_embedded_collection
  embedded-Keeps naming parent name predicate keeps s s' h =
      let (path, _, rest) = bind-ok (path_to_root parent []) _ s' h in
      subquery-Keeps _ _ predicate keeps s s' rest

  collection-Keeps :
      (naming : Naming) (schema : Option SchemaRegistry) (parent : Node A)
      (predicate : Sql A → Result Error (Sql A))
      → Keeps predicate
      → Keeps (visit_collection naming schema parent predicate)
  unfolding visit_collection visit_relational_collection
  collection-Keeps naming none parent predicate keeps s s' h =
      let (name, _, one) = bind-ok (extract_collection_name naming parent) _ s' h in
      let (key, _, two) = bind-ok (extract_field_name parent) _ s' one in
      embedded-Keeps naming parent name predicate keeps s s' two
  collection-Keeps naming (some registry) parent predicate keeps s s' h =
      let (name, _, one) = bind-ok (extract_collection_name naming parent) _ s' h in
      let (key, _, two) = bind-ok (extract_field_name parent) _ s' one in
      elim (Bool-cases (is_relational key registry)) [
        | inr e ↦ embedded-Keeps naming parent name predicate keeps s s' (ground (arith, e, two))
        | inl e ↦ elim (Option-cases (get_mapping key registry)) [
          | inl f ↦
              embedded-Keeps naming parent name predicate keeps s s' (ground (arith, e, f, two))
          | inr (mapping, f) ↦
              let found : visit_relational_collection naming registry mapping name predicate s
                  ≡ ok s' =
                ground (arith, e, f, two) in
              subquery-Keeps _ _ predicate keeps s s' found
        ]
      ]

  field-Keeps : (scope : Node A) (name : String) → Keeps (visit_field scope name)
  unfolding visit_field emit
  field-Keeps scope name s s' h = elim (Bool-cases (s.in_wildcard && is_item scope)) [
    | inl e ↦
        let here : ok (emit (alias_piece s.wildcard_alias ∷ text "." ∷ text name ∷ []) s) ≡ ok s' =
          ground (arith, e, h) in
        same_precedence s.precedence here refl
    | inr e ↦
        let found : (extract_field_path (field scope name) >>= λ path.
        ok (emit (text (join path) ∷ []) s))
            ≡ ok s' =
          ground (arith, e, h) in
        let (path, _, there) = bind-ok (extract_field_path (field scope name)) _ s' found in
        same_precedence s.precedence there refl
  ]

  module _ (format : Format) (naming : Naming) (schema : Option SchemaRegistry) where
    operator-Keeps :
        (inner : ℕ) (callable : Sql A → Result Error (Sql A))
        → Keeps (visit_operator format naming schema inner callable)
    unfolding visit_operator
    operator-Keeps inner callable s s' h =
        let (t, run, done) = bind-ok (callable _) _ s' h in same_precedence s.precedence done refl

    accept-Keeps : (node : Node A) → Keeps (accept format naming schema node)
    unfolding accept visit_value emit
    accept-Keeps global_scope s s' h = same_precedence s.precedence h refl
    accept-Keeps item s s' h = same_precedence s.precedence h refl
    accept-Keeps (object_node parent name) s s' h = same_precedence s.precedence h refl
    accept-Keeps (collection_node parent name predicate) s s' h =
        collection-Keeps naming schema parent (accept format naming schema predicate)
          (accept-Keeps predicate) s s' h
    accept-Keeps (field scope name) s s' h = field-Keeps scope name s s' h
    accept-Keeps (value v) s s' h = same_precedence s.precedence h refl
    accept-Keeps (prefix o operand a) s s' h =
        operator-Keeps (precedence_of format o a)
          (visit_prefix o (accept format naming schema operand)) s s' h
    accept-Keeps (infix_node left o right a) s s' h =
        operator-Keeps (precedence_of format o a)
          (visit_infix (accept format naming schema left) o (accept format naming schema right)) s
          s' h
    accept-Keeps (postfix operand o a) s s' h =
        operator-Keeps (precedence_of format o a)
          (visit_postfix (accept format naming schema operand) o) s s' h

  then_same :
      (r : Result Error (Sql A)) (f g : Sql A → Result Error (Sql A))
      → ((t : Sql A) → r ≡ ok t → f t ≡ g t)
      → (r >>= f) ≡ (r >>= g)
  then_same (ok t) f g h = h t refl
  then_same (raise e) f g h = refl

  restored :
      (r : Result Error (Sql A)) (p : ℕ)
      → ((t : Sql A) → r ≡ ok t → t.precedence ≡ p)
      → (r >>= λ t. ok (record t { precedence = p })) ≡ r
  restored (ok t) p h = ap (λ q. ok (record t { precedence = q })) (sym (h t refl))
  restored (raise e) p h = refl

  module _ (naming : Naming) (schema : Option SchemaRegistry) where
    abbrev visit : Node A → Sql A → Result Error (Sql A)
    visit = accept by_name naming schema

    -- No brackets where the precedence is at most that of an unknown operator.
    no_brackets :
        (callable : Sql A → Result Error (Sql A)) (s : Sql A)
        → ltb 100 s.precedence ≡ false
        → visit_operator by_name naming schema 100 callable s ≡ (
            callable (record s { precedence = 100 }) >>= λ t.
            ok (record t { precedence = s.precedence }))
    unfolding visit_operator
    no_brackets callable s h = rw h refl

    infix_visit :
        (x y : Node A) (o : Operator) (a : Associativity) (s : Sql A)
        → s.precedence ≤ 100
        → visit (infix_node x o y a) s ≡ (
            visit_infix (visit x) o (visit y) (record s { precedence = 100 }) >>= λ t.
            ok (record t { precedence = s.precedence }))
    unfolding accept
    infix_visit x y o a s h =
        ap (λ p. visit_operator by_name naming schema p (visit_infix (visit x) o (visit y)) s)
          (by_name-precedence o a)
        ∙ no_brackets (visit_infix (visit x) o (visit y)) s (ground (arith, h))

    infix-Keeps : (x y : Node A) (o : Operator) → Keeps (visit_infix (visit x) o (visit y))
    unfolding visit_infix emit
    infix-Keeps x y o s s' h =
        let (t, one, two) = bind-ok (visit x s) _ s' h in
        accept-Keeps by_name naming schema y _ s' two ∙ accept-Keeps by_name naming schema x s t one

    -- An operand that is an operator adds no brackets.
    infix_in_infix :
        (x y : Node A) (o : Operator) (a : Associativity) (s : Sql A)
        → s.precedence ≡ 100
        → visit (infix_node x o y a) s ≡ visit_infix (visit x) o (visit y) s
    infix_in_infix x y o a s h =
        infix_visit x y o a s (omega arith)
        ∙ ap
            (λ p. visit_infix (visit x) o (visit y) (record s { precedence = p }) >>= λ t.
              ok (record t { precedence = s.precedence }))
            (sym h)
        ∙ restored (visit_infix (visit x) o (visit y) s) s.precedence
            (λ t e. infix-Keeps x y o s t e)

    then_left :
        (x y z : Node A) (o o' : Operator) (a : Associativity) (s : Sql A)
        → s.precedence ≡ 100
        → visit_infix (visit (infix_node x o y a)) o' (visit z) s
          ≡ visit_infix (visit x) o (visit_infix (visit y) o' (visit z)) s
    unfolding visit_infix
    then_left x y z o o' a s h =
        ap (λ r. r >>= λ t. visit z (emit (text (" " <> (value_of o' <> " ")) ∷ []) t))
          (infix_in_infix x y o a s h)
        ∙ bind_assoc (visit x s) _ _

    then_right :
        (x y z : Node A) (o o' : Operator) (a : Associativity) (s : Sql A)
        → s.precedence ≡ 100
        → visit_infix (visit x) o (visit (infix_node y o' z a)) s
          ≡ visit_infix (visit x) o (visit_infix (visit y) o' (visit z)) s
    unfolding visit_infix emit
    then_right x y z o o' a s h = then_same (visit x s) _ _ (λ t e.
        infix_in_infix y z o' a (emit (text (" " <> (value_of o <> " ")) ∷ []) t)
          (accept-Keeps by_name naming schema x s t e ∙ h))

-- With f-strings that give class and name of a member, the text of two operators in a row and its parameters
-- do not show which of them is inside the other, whatever the operators and the schema are.
pub grouping_is_lost :
    {A : Type 0} (naming : Naming) (schema : Option SchemaRegistry) (x y z : Node A)
    (o o' : Operator) (a b : Associativity)
    → compile_to_sql by_name naming schema (infix_node (infix_node x o y a) o' z b)
      ≡ compile_to_sql by_name naming schema (infix_node x o (infix_node y o' z b) a)
unfolding compile_to_sql
grouping_is_lost {A} naming schema x y z o o' a b =
    let s : Sql A = new_visitor by_name naming schema in
    let inner : Sql A = record s { precedence = 100 } in
    ap (λ r. r >>= λ (s : Sql A). ok (s.sql, s.parameters))
      (infix_visit naming schema (infix_node x o y a) z o' b s (omega arith)
        ∙ ap (λ r. r >>= λ (t : Sql A). ok (record t { precedence = 0 }))
            (then_left naming schema x y z o o' a inner refl
              ∙ sym (then_right naming schema x y z o o' b inner refl))
        ∙ sym (infix_visit naming schema x (infix_node y o' z b) o a s (omega arith)))
