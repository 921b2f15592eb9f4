-- ===== src/Specification/Paths.antt =====
-- `extract_field_path` and the visitor read a field the same way.
use ascetic_ddd_python.Prelude.{◌≡◌, refl, sym, ◌∙◌, String, none, List, [], ◌∷◌}
use ascetic_ddd_python.Prelude.Result.{Result, ok, raise, ◌>>=◌, bind_assoc}
use ascetic_ddd_python.Specification.Nodes.{
  Error, type_error, Val, Context, Node, global_scope, item, object_node, collection_node, field,
  value, prefix, infix_node, postfix, scope_path, extract_field_path,
}
use ascetic_ddd_python.Specification.Visitor.{Mapping, get}
use ascetic_ddd_python.Specification.Evaluation.{as_context, resolve, eval, IsRooted}

module _ {A : Type 0} where
  -- Reads a value by following the keys from a context.
  pub follow : Context A → String → List String → Result Error (Val A)
  follow c key [] = get c key
  follow c key (next ∷ keys) = get c key >>= as_context >>= λ c'. follow c' next keys

  pub follow_path : Context A → List String → Result Error (Val A)
  follow_path c [] = raise type_error
  follow_path c (key ∷ keys) = follow c key keys

  scope_path-follow :
      (scope : Node A) (root : Context A) (key : String) (keys : List String)
      → IsRooted scope
      → (first : String) × (rest : List String) × (scope_path scope (key ∷ keys)
          ≡ ok (first ∷ rest))
        × (follow root first rest ≡ (resolve scope root none >>= λ c. follow c key keys))
  unfolding scope_path resolve follow
  scope_path-follow global_scope root key keys h = (key, keys, refl, refl)
  scope_path-follow item root key keys h = absurd h
  scope_path-follow (object_node parent name) root key keys h =
      let (first, rest, e, f) = scope_path-follow parent root name (key ∷ keys) h in
      (
        first,
        rest,
        e,
        f
            ∙ sym (
                bind_assoc (resolve parent root none) (λ c. get c name >>= as_context)
                  (λ c. follow c key keys)),
      )
  scope_path-follow (collection_node parent name predicate) root key keys h = absurd h
  scope_path-follow (field scope name) root key keys h = absurd h
  scope_path-follow (value v) root key keys h = absurd h
  scope_path-follow (prefix o operand a) root key keys h = absurd h
  scope_path-follow (infix_node left o right a) root key keys h = absurd h
  scope_path-follow (postfix operand o a) root key keys h = absurd h

-- The path of a field whose scope starts at the root is never an error, and the field evaluates to what following
-- that path from the root reads, with the same errors.
pub extract_field_path-eval :
    {A : Type 0} (mapping : Mapping A) (scope : Node A) (name : String) (root : Context A)
    → IsRooted scope
    → (path : List String) × (extract_field_path (field scope name) ≡ ok path)
      × (eval mapping (field scope name) root none ≡ follow_path root path)
unfolding extract_field_path eval follow_path follow
extract_field_path-eval mapping scope name root h =
    let (first, rest, e, f) = scope_path-follow scope root name [] h in (first ∷ rest, e, sym f)
