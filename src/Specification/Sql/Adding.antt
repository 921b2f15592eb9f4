-- ===== src/Specification/Sql/Adding.antt =====
-- What the visits of the single nodes add to the SQL.
use ascetic_ddd_python.Prelude.{
  ℕ, suc, ◌≡◌, refl, sym, ap, ◌∙◌, subst, Bool, true, false, ◌&&◌, Bool-cases, if◌then◌else◌, inl,
  inr, String, Option, none, some, Option-cases, List, [], ◌∷◌, ◌++◌, append-nil, length, arith,
}
use ascetic_ddd_python.Prelude.Result.{Result, ok, ◌>>=◌, bind-ok}
use ascetic_ddd_python.Specification.Nodes.{Error, Operator, Val, Node, field, extract_field_path}
use ascetic_ddd_python.Specification.Schema.{
  CollectionMapping, SchemaRegistry, is_relational, get_mapping,
}
use ascetic_ddd_python.Specification.Sql.{
  Piece, text, numbered, Naming, Sql, alias_piece, key_conditions, prefix_piece, parent_ref,
  path_pieces, path_to_root, emit, subquery, visit_embedded_collection, visit_relational_collection,
  visit_collection, visit_field, join, is_item, extract_collection_name, extract_field_name,
  visit_prefix, visit_infix, visit_postfix, value_of,
}
use Prim.Native.String.{◌++◌ as ◌<>◌}
use ascetic_ddd_python.Specification.Sql.Placeholders.{
  placeholders, numbers_after, Adds, alias_piece-text, plain-cons, plain-append,
  key_conditions-text, prefix_piece-text, Adds-Adds, emit-Adds,
}

module _ {A : Type 0} where
  path_pieces-text :
      (s : Sql A) (path : List String × Bool) → placeholders (path_pieces s path) ≡ []
  path_pieces-text s (parts, false) = refl
  path_pieces-text s ([], true) = elim (Bool-cases s.in_wildcard) [
    | inl e ↦ rw e (alias_piece-text s.wildcard_alias)
    | inr e ↦ rw e refl
  ]
  path_pieces-text s (part ∷ parts, true) = elim (Bool-cases s.in_wildcard) [
    | inl e ↦ rw e (plain-cons (alias_piece s.wildcard_alias) _ (alias_piece-text s.wildcard_alias))
    | inr e ↦ rw e refl
  ]

  parent_ref-text :
      (schema : SchemaRegistry) (s : Sql A) → placeholders (parent_ref schema s ∷ []) ≡ []
  unfolding parent_ref
  parent_ref-text schema s = elim (Option-cases s.wildcard_alias) [
    | inl e ↦ rw e refl
    | inr (alias, e) ↦ elim (Bool-cases s.in_wildcard) [
      | inl f ↦ rw (e, f) refl
      | inr f ↦ rw (e, f) refl
    ]
  ]

  pub same_state : {s s' : Sql A} → ◌≡◌ {A = Result Error (Sql A)} (ok s) (ok s') → s ≡ s'
  same_state e = cc

  pub field-Adds :
      (scope : Node A) (name : String) (s s' : Sql A)
      → visit_field scope name s ≡ ok s'
      → Adds s s' []
  unfolding visit_field
  field-Adds scope name s s' h = elim (Bool-cases (s.in_wildcard && is_item scope)) [
    | inl e ↦
        let pieces = alias_piece s.wildcard_alias ∷ text "." ∷ text name ∷ [] in
        let here : emit pieces s ≡ s' = ground (arith, e, h) in
        subst (λ x. Adds s x []) here
          (emit-Adds pieces s
            (plain-cons (alias_piece s.wildcard_alias) _ (alias_piece-text s.wildcard_alias)))
    | inr e ↦
        let found : (extract_field_path (field scope name) >>= λ path.
        ok (emit (text (join path) ∷ []) s))
            ≡ ok s' =
          ground (arith, e, h) in
        let (path, _, there) = bind-ok (extract_field_path (field scope name)) _ s' found in
        subst (λ x. Adds s x []) (same_state there) (emit-Adds (text (join path) ∷ []) s refl)
  ]

  -- What a visit must do for the text around it.
  abbrev pub AddsAll : (Sql A → Result Error (Sql A)) → List (Val A) → Type 0
  AddsAll visit vs = (s s' : Sql A) → visit s ≡ ok s' → Adds s s' vs

  subquery-Adds :
      (opening : List Piece) (alias : String × ℕ) (predicate : Sql A → Result Error (Sql A))
      (vs : List (Val A))
      → placeholders opening ≡ []
      → AddsAll predicate vs
      → AddsAll (subquery opening alias predicate) vs
  unfolding subquery
  subquery-Adds opening alias predicate vs plain adds s s' h =
      let inside : Sql A = record (emit opening s) {
        in_wildcard = true;
        wildcard_alias = some alias;
        wildcard_counter = suc s.wildcard_counter;
      } in
      let (t, run, done) = bind-ok (predicate inside) _ s' h in
      let a = adds inside t run in
      let o = emit-Adds opening s plain in
      let c = emit-Adds (text ")" ∷ []) t refl in
      subst (λ x. Adds s x vs) (same_state done)
        (record {
          parameters = c.parameters ∙ append-nil t.parameters ∙ a.parameters;
          numbers =
              c.numbers
              ∙ append-nil (placeholders t.sql)
              ∙ a.numbers
              ∙ ap (λ x. x ++ numbers_after (length s.parameters) vs)
                  (o.numbers ∙ append-nil (placeholders s.sql));
          wildcard = refl;
          alias = refl;
        })

  embedded-Adds :
      (naming : Naming) (parent : Node A) (name : String) (predicate : Sql A → Result Error (Sql A))
      (vs : List (Val A))
      → AddsAll predicate vs
      → AddsAll (visit_embedded_collection naming parent name predicate) vs
  unfolding visit_embedded_collection
  embedded-Adds naming parent name predicate vs adds s s' h =
      let (path, _, rest) = bind-ok (path_to_root parent []) _ s' h in
      subquery-Adds _ (naming.lower name, suc s.wildcard_counter) predicate vs
        (plain-append (path_pieces s path) _ (path_pieces-text s path) refl) adds s s' rest

  relational-Adds :
      (naming : Naming) (schema : SchemaRegistry) (mapping : CollectionMapping) (name : String)
      (predicate : Sql A → Result Error (Sql A)) (vs : List (Val A))
      → AddsAll predicate vs
      → AddsAll (visit_relational_collection naming schema mapping name predicate) vs
  unfolding visit_relational_collection
  relational-Adds naming schema mapping name predicate vs adds s s' h =
      subquery-Adds _ _ predicate vs
        (plain-append
          (key_conditions (numbered _ (suc s.wildcard_counter)) (parent_ref schema s) true
            mapping.foreign_keys)
          _
          (key_conditions-text _ (parent_ref schema s) true mapping.foreign_keys refl
            (parent_ref-text schema s))
          refl)
        adds s s' h

  pub collection-Adds :
      (naming : Naming) (schema : Option SchemaRegistry) (parent : Node A)
      (predicate : Sql A → Result Error (Sql A)) (vs : List (Val A))
      → AddsAll predicate vs
      → AddsAll (visit_collection naming schema parent predicate) vs
  unfolding visit_collection
  collection-Adds naming none parent predicate vs adds s s' h =
      let (name, _, one) = bind-ok (extract_collection_name naming parent) _ s' h in
      let (key, _, two) = bind-ok (extract_field_name parent) _ s' one in
      embedded-Adds naming parent name predicate vs adds s s' two
  collection-Adds naming (some registry) parent predicate vs adds s s' h =
      let (name, _, one) = bind-ok (extract_collection_name naming parent) _ s' h in
      let (key, _, two) = bind-ok (extract_field_name parent) _ s' one in
      elim (Bool-cases (is_relational key registry)) [
        | inr e ↦ embedded-Adds naming parent name predicate vs adds s s' (ground (arith, e, two))
        | inl e ↦ elim (Option-cases (get_mapping key registry)) [
          | inl f ↦
              embedded-Adds naming parent name predicate vs adds s s' (ground (arith, e, f, two))
          | inr (mapping, f) ↦
              relational-Adds naming registry mapping name predicate vs adds s s'
                (ground (arith, e, f, two))
        ]
      ]

  pub bracket-Adds :
      (b : Bool) (p : String) (s : Sql A) → Adds s (if b then emit (text p ∷ []) s else s) []
  bracket-Adds true p s = emit-Adds (text p ∷ []) s refl
  bracket-Adds false p s = record {
    parameters = sym (append-nil s.parameters);
    numbers = sym (append-nil (placeholders s.sql));
    wildcard = refl;
    alias = refl;
  }

  -- The precedence plays no part.
  pub Adds-from :
      (s t : Sql A) (vs : List (Val A)) (p : ℕ)
      → Adds (record s { precedence = p }) t vs
      → Adds s t vs
  Adds-from s t vs p a = record {
    parameters = a.parameters;
    numbers = a.numbers;
    wildcard = a.wildcard;
    alias = a.alias;
  }

  pub Adds-to :
      (s t : Sql A) (vs : List (Val A)) (p : ℕ)
      → Adds s t vs
      → Adds s (record t { precedence = p }) vs
  Adds-to s t vs p a = record {
    parameters = a.parameters;
    numbers = a.numbers;
    wildcard = a.wildcard;
    alias = a.alias;
  }

  pub nothing-after : (s t u : Sql A) (vs : List (Val A)) → Adds s t vs → Adds t u [] → Adds s u vs
  nothing-after s t u vs a b = subst (Adds s u) (append-nil vs) (Adds-Adds s t u vs [] a b)

  pub prefix-Adds :
      (o : Operator) (operand : Sql A → Result Error (Sql A)) (vs : List (Val A))
      → AddsAll operand vs
      → AddsAll (visit_prefix o operand) vs
  unfolding visit_prefix
  prefix-Adds o operand vs adds s s' h =
      Adds-Adds s (emit (prefix_piece o ∷ []) s) s' [] vs
        (emit-Adds (prefix_piece o ∷ []) s (prefix_piece-text o))
        (adds (emit (prefix_piece o ∷ []) s) s' h)

  pub infix-Adds :
      (left : Sql A → Result Error (Sql A)) (o : Operator) (right : Sql A → Result Error (Sql A))
      (vs ws : List (Val A))
      → AddsAll left vs
      → AddsAll right ws
      → AddsAll (visit_infix left o right) (vs ++ ws)
  unfolding visit_infix
  infix-Adds left o right vs ws adds adds' s s' h =
      let (t, one, two) = bind-ok (left s) _ s' h in
      let pieces = text (" " <> (value_of o <> " ")) ∷ [] in
      Adds-Adds s t s' vs ws (adds s t one) (
        Adds-Adds t (emit pieces t) s' [] ws (emit-Adds pieces t refl)
          (adds' (emit pieces t) s' two))

  pub postfix-Adds :
      (operand : Sql A → Result Error (Sql A)) (o : Operator) (vs : List (Val A))
      → AddsAll operand vs
      → AddsAll (visit_postfix operand o) vs
  unfolding visit_postfix
  postfix-Adds operand o vs adds s s' h =
      let (t, one, two) = bind-ok (operand s) _ s' h in
      nothing-after s t s' vs (adds s t one) (
        subst (λ x. Adds t x []) (same_state two)
          (emit-Adds (text (" " <> value_of o) ∷ []) t refl))
