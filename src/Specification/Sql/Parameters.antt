-- ===== src/Specification/Sql/Parameters.antt =====
-- The parameters of the SQL, and the state that a visit leaves as it was.
use ascetic_ddd_python.Prelude.{
  ℕ, ltb, ◌≡◌, sym, ap, subst, false, if◌then◌else◌, Option, List, [], ◌∷◌, ◌++◌,
}
use ascetic_ddd_python.Prelude.Result.{Result, ok, bind-ok}
use ascetic_ddd_python.Specification.Nodes.{
  Error, Val, Node, global_scope, item, object_node, collection_node, field, value, prefix,
  infix_node, postfix,
}
use ascetic_ddd_python.Specification.Schema.{SchemaRegistry}
use ascetic_ddd_python.Specification.Sql.{
  Piece, text, Format, Naming, Sql, emit, new_visitor, visit_operator, visit_prefix, visit_infix,
  visit_postfix, precedence_of, accept, compile_to_sql,
}
use ascetic_ddd_python.Specification.Sql.Placeholders.{
  placeholders, values, numbers_after, Adds, Adds-Adds, value-Adds,
}
use ascetic_ddd_python.Specification.Sql.Adding.{
  AddsAll, same_state, field-Adds, collection-Adds, bracket-Adds, Adds-from, Adds-to, nothing-after,
  prefix-Adds, infix-Adds, postfix-Adds,
}

module _ (format : Format) {A : Type 0} (naming : Naming) (schema : Option SchemaRegistry) where
  operator-Adds :
      (inner : ℕ) (callable : Sql A → Result Error (Sql A)) (vs : List (Val A))
      → AddsAll callable vs
      → (s s' : Sql A) → visit_operator format naming schema inner callable s ≡ ok s'
      → Adds s s' vs × (s'.precedence ≡ s.precedence)
  unfolding visit_operator
  operator-Adds inner callable vs adds s s' h =
      let b = ltb inner s.precedence in
      let opened = if b then emit (text "(" ∷ []) s else s in
      let (t, run, done) = bind-ok (callable (record opened { precedence = inner })) _ s' h in
      let closed = if b then emit (text ")" ∷ []) t else t in
      let before = bracket-Adds b "(" s in
      let during =
        Adds-from opened t vs inner (adds (record opened { precedence = inner }) t run) in
      let after = bracket-Adds b ")" t in
      let whole = nothing-after s t closed vs (Adds-Adds s opened t [] vs before during) after in
      (
        subst (λ x. Adds s x vs) (same_state done) (Adds-to s closed vs s.precedence whole),
        sym (ap (λ (x : Sql A). x.precedence) (same_state done)),
      )

  accept-Adds :
      (node : Node A) (s s' : Sql A)
      → accept format naming schema node s ≡ ok s'
      → Adds s s' (values node)
  unfolding accept
  accept-Adds global_scope s s' h =
      subst (λ x. Adds s x []) (same_state h) (bracket-Adds false "" s)
  accept-Adds item s s' h = subst (λ x. Adds s x []) (same_state h) (bracket-Adds false "" s)
  accept-Adds (object_node parent name) s s' h =
      subst (λ x. Adds s x []) (same_state h) (bracket-Adds false "" s)
  accept-Adds (collection_node parent name predicate) s s' h =
      collection-Adds naming schema parent (accept format naming schema predicate)
        (values predicate) (accept-Adds predicate) s s' h
  accept-Adds (field scope name) s s' h = field-Adds scope name s s' h
  accept-Adds (value v) s s' h = subst (λ x. Adds s x (v ∷ [])) (same_state h) (value-Adds v s)
  accept-Adds (prefix o operand a) s s' h =
      (operator-Adds (precedence_of format o a)
        (visit_prefix o (accept format naming schema operand)) (values operand)
        (prefix-Adds o (accept format naming schema operand) (values operand) (accept-Adds operand))
        s s' h).0
  accept-Adds (infix_node left o right a) s s' h =
      (operator-Adds (precedence_of format o a)
        (visit_infix (accept format naming schema left) o (accept format naming schema right))
        (values left ++ values right)
        (infix-Adds (accept format naming schema left) o (accept format naming schema right)
          (values left) (values right) (accept-Adds left) (accept-Adds right))
        s s' h).0
  accept-Adds (postfix operand o a) s s' h =
      (operator-Adds (precedence_of format o a)
        (visit_postfix (accept format naming schema operand) o) (values operand)
        (postfix-Adds (accept format naming schema operand) o (values operand)
          (accept-Adds operand))
        s s' h).0

-- The parameters of a compiled expression, with any schema, are its values from left to right, and
-- its placeholders are numbered from 1 in that order, one for each value.
pub compile_to_sql-values :
    {A : Type 0} (format : Format) (naming : Naming) (schema : Option SchemaRegistry)
    (node : Node A) (sql : List Piece) (parameters : List (Val A))
    → compile_to_sql format naming schema node ≡ ok (sql, parameters)
    → (parameters ≡ values node) × (placeholders sql ≡ numbers_after 0 (values node))
unfolding compile_to_sql
compile_to_sql-values format naming schema node sql parameters h =
    let (s, run, done) =
      bind-ok (accept format naming schema node (new_visitor format naming schema)) _
        (sql, parameters) h in
    let a = accept-Adds format naming schema node (new_visitor format naming schema) s run in
    (cc (a.parameters, done), cc (a.numbers, done))
