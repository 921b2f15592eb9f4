-- ===== src/Specification/Sql/Placeholders.antt =====
-- The placeholders of the SQL, and what a step of a visit adds to them.
use ascetic_ddd_python.Prelude.{
  ℕ, suc, ◌+◌, ◌≡◌, refl, sym, ap, ◌∙◌, Bool, true, false, String, Option, none, some, List, [],
  ◌∷◌, ◌++◌, append-nil, append_assoc, length, length-append, arith,
}
use ascetic_ddd_python.Specification.Nodes.{
  Operator, add, sub, Val, Node, collection_node, value, prefix, infix_node, postfix,
}
use ascetic_ddd_python.Specification.Schema.{ForeignKeyPair}
use ascetic_ddd_python.Specification.Sql.{
  Piece, text, placeholder, numbered, Sql, alias_piece, key_conditions, prefix_piece, emit,
  visit_value,
}
use mathlib.Core.Path.{ap₂}

-- The numbers of the placeholders in a text.
abbrev pub placeholders : List Piece → List ℕ
placeholders [] = []
placeholders (text s ∷ pieces) = placeholders pieces
placeholders (placeholder n ∷ pieces) = n ∷ placeholders pieces
placeholders (numbered s n ∷ pieces) = placeholders pieces

pub placeholders-append :
    (ps qs : List Piece) → placeholders (ps ++ qs) ≡ placeholders ps ++ placeholders qs
placeholders-append [] qs = refl
placeholders-append (text s ∷ ps) qs = placeholders-append ps qs
placeholders-append (placeholder n ∷ ps) qs = ap (λ ns. n ∷ ns) (placeholders-append ps qs)
placeholders-append (numbered s n ∷ ps) qs = placeholders-append ps qs

pub alias_piece-text : (a : Option (String × ℕ)) → placeholders (alias_piece a ∷ []) ≡ []
alias_piece-text none = refl
alias_piece-text (some (name, n)) = refl

-- A piece without a placeholder in front of others.
pub plain-cons :
    (p : Piece) (ps : List Piece)
    → placeholders (p ∷ []) ≡ []
    → placeholders (p ∷ ps) ≡ placeholders ps
plain-cons (text s) ps h = refl
plain-cons (placeholder n) ps h = cc
plain-cons (numbered s n) ps h = refl

pub plain-append :
    (ps qs : List Piece)
    → placeholders ps ≡ []
    → placeholders qs ≡ []
    → placeholders (ps ++ qs) ≡ []
plain-append ps qs h k = placeholders-append ps qs ∙ ap₂ (λ x y. x ++ y) h k

pub key_conditions-text :
    (alias parent : Piece) (first : Bool) (keys : List ForeignKeyPair)
    → placeholders (alias ∷ []) ≡ []
    → placeholders (parent ∷ []) ≡ []
    → placeholders (key_conditions alias parent first keys) ≡ []
unfolding key_conditions
key_conditions-text alias parent first [] h k = refl
key_conditions-text alias parent true (fk ∷ keys) h k =
    plain-cons alias _ h ∙ plain-cons parent _ k ∙ key_conditions-text alias parent false keys h k
key_conditions-text alias parent false (fk ∷ keys) h k =
    plain-cons alias _ h ∙ plain-cons parent _ k ∙ key_conditions-text alias parent false keys h k

pub prefix_piece-text : (o : Operator) → placeholders (prefix_piece o ∷ []) ≡ []
prefix_piece-text add = refl
prefix_piece-text sub = refl
prefix_piece-text _ = refl

module _ {A : Type 0} where
  -- The values of an expression, from left to right.
  abbrev pub values : Node A → List (Val A)
  values (collection_node parent name predicate) = values predicate
  values (value v) = v ∷ []
  values (prefix o operand a) = values operand
  values (infix_node left o right a) = values left ++ values right
  values (postfix operand o a) = values operand
  values _ = []

  -- As many numbers as there are values, after `k`.
  abbrev pub numbers_after : ℕ → List (Val A) → List ℕ
  numbers_after k [] = []
  numbers_after k (v ∷ vs) = suc k ∷ numbers_after (suc k) vs

  numbers_after-append :
      (k : ℕ) (vs ws : List (Val A))
      → numbers_after k (vs ++ ws) ≡ numbers_after k vs ++ numbers_after (k + length vs) ws
  numbers_after-append k [] ws = ap (λ n. numbers_after n ws) (omega arith)
  numbers_after-append k (v ∷ vs) ws =
      ap (λ ns. suc k ∷ ns)
        (numbers_after-append (suc k) vs ws
          ∙ ap (λ n. numbers_after (suc k) vs ++ numbers_after n ws) (omega arith))

  -- From the state `s` to `s'` the values were added, with a placeholder for each.
  pub record Adds (s s' : Sql A) (vs : List (Val A)) : Type 0 where
    pub parameters : s'.parameters ≡ s.parameters ++ vs
    pub numbers : placeholders s'.sql ≡ placeholders s.sql ++ numbers_after (length s.parameters) vs
    pub wildcard : s'.in_wildcard ≡ s.in_wildcard
    pub alias : s'.wildcard_alias ≡ s.wildcard_alias

  pub Adds-Adds :
      (s t u : Sql A) (vs ws : List (Val A)) → Adds s t vs → Adds t u ws → Adds s u (vs ++ ws)
  Adds-Adds s t u vs ws a b = record {
    parameters = b.parameters ∙ ap (λ x. x ++ ws) a.parameters ∙ append_assoc s.parameters vs ws;
    numbers =
        b.numbers
        ∙ ap₂ (λ x n. x ++ numbers_after n ws) a.numbers
            (ap length a.parameters ∙ length-append s.parameters vs)
        ∙ append_assoc (placeholders s.sql) (numbers_after (length s.parameters) vs)
            (numbers_after (length s.parameters + length vs) ws)
        ∙ ap (λ x. placeholders s.sql ++ x)
            (sym (numbers_after-append (length s.parameters) vs ws));
    wildcard = b.wildcard ∙ a.wildcard;
    alias = b.alias ∙ a.alias;
  }

  pub emit-Adds :
      (pieces : List Piece) (s : Sql A) → placeholders pieces ≡ [] → Adds s (emit pieces s) []
  unfolding emit
  emit-Adds pieces s h = record {
    parameters = sym (append-nil s.parameters);
    numbers = placeholders-append s.sql pieces ∙ ap (λ x. placeholders s.sql ++ x) h;
    wildcard = refl;
    alias = refl;
  }

  pub value-Adds : (v : Val A) (s : Sql A) → Adds s (visit_value v s) (v ∷ [])
  unfolding visit_value emit
  value-Adds v s = record {
    parameters = refl;
    numbers = placeholders-append s.sql (placeholder (suc (length s.parameters)) ∷ []);
    wildcard = refl;
    alias = refl;
  }
