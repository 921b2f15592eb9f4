-- ===== src/Specification/Sql/Tests.antt =====
-- A store with books: the SQL that the repository's tests expect, and what brackets come to.
use ascetic_ddd_python.Prelude.{ℕ, ◌≡◌, refl, true, none, some, Option, List, [], ◌∷◌}
use ascetic_ddd_python.Prelude.Result.{ok}
use ascetic_ddd_python.Specification.Nodes.{
  gt, and_, or_, sub, non_associative, left_associative, right_associative, scalar, Node,
  global_scope, item, object_node, collection_node, field, value, infix_node, extract_field_path,
}
use ascetic_ddd_python.Specification.Schema.{
  SchemaRegistry, registry, with_parent_alias, register_relational, register_embedded, get_mapping,
  is_relational, is_embedded, get_parent_ref,
}
use ascetic_ddd_python.Specification.Sql.{
  Piece, text, placeholder, numbered, Format, Naming, value_of, join, precedence_of, compile_to_sql,
}
use ascetic_ddd_python.Specification.Sql.Placeholders.{values, placeholders, numbers_after}
use ascetic_ddd_python.Specification.Sql.Parameters.{compile_to_sql-values}
use ascetic_ddd_python.Specification.Sql.Brackets.{by_name, grouping_is_lost}

-- `f"{operator}"` of older Pythons.
abbrev by_value : Format
by_value = record {
  of_operator = value_of;
  of_associativity = elim [
    | left_associative ↦ "LEFT"
    | right_associative ↦ "RIGHT"
    | non_associative ↦ "NON"
  ];
}

abbrev english : Naming
english = record { singularize = λ s. "Item"; lower = λ s. "item" }

abbrev store : Option SchemaRegistry
store = some (
    register_relational "Items" "items" "store_id" "id" (with_parent_alias "s" (registry "stores")))

abbrev active : Node ℕ
active = field global_scope "active"

abbrev premium : Node ℕ
premium = field global_scope "premium"

abbrev age : Node ℕ
age =
    infix_node (field (object_node global_scope "owner") "age") gt (value (scalar 18))
      non_associative

abbrev dear : Node ℕ
dear =
    collection_node (object_node global_scope "Items") "*"
      (infix_node (field item "Price") gt (value (scalar 1000)) non_associative)

abbrev wanted : Node ℕ
wanted = infix_node age and_ dear left_associative

abbrev wanted_sql : List Piece
wanted_sql =
    text "owner.age"
    ∷ text " > "
    ∷ placeholder 1
    ∷ text " AND "
    ∷ text "EXISTS (SELECT 1 FROM "
    ∷ text "items"
    ∷ text " AS "
    ∷ numbered "item" 1
    ∷ text " WHERE "
    ∷ numbered "item" 1
    ∷ text "."
    ∷ text "store_id"
    ∷ text " = "
    ∷ text "s"
    ∷ text "."
    ∷ text "id"
    ∷ text " AND "
    ∷ numbered "item" 1
    ∷ text "."
    ∷ text "Price"
    ∷ text " > "
    ∷ placeholder 2
    ∷ text ")"
    ∷ []

wanted_compiles :
    compile_to_sql by_name english store wanted ≡ ok (wanted_sql, scalar 18 ∷ scalar 1000 ∷ [])
unfolding compile_to_sql precedence_of is_relational get_mapping registry with_parent_alias
    register_relational get_parent_ref extract_field_path join
wanted_compiles = refl

tags_are_embedded : is_embedded "Tags" (register_embedded "Tags" (registry "stores")) ≡ true
unfolding is_embedded register_embedded registry
tags_are_embedded = refl

compile_to_sql-values_example :
    ((scalar 18 ∷ scalar 1000 ∷ []) ≡ values wanted)
    × (placeholders wanted_sql ≡ numbers_after 0 (values wanted))
compile_to_sql-values_example =
    compile_to_sql-values by_name english store wanted wanted_sql (scalar 18 ∷ scalar 1000 ∷ [])
      wanted_compiles

-- active AND (premium OR owner.age > 18), as an older Python would write it.
bracketed :
    compile_to_sql by_value english none
      (infix_node active and_ (infix_node premium or_ age left_associative) left_associative)
    ≡ ok (
      text "active"
          ∷ text " AND "
          ∷ text "("
          ∷ text "premium"
          ∷ text " OR "
          ∷ text "owner.age"
          ∷ text " > "
          ∷ placeholder 1
          ∷ text ")"
          ∷ [],
      scalar 18 ∷ [],
    )
unfolding compile_to_sql precedence_of extract_field_path join
bracketed = refl

-- a - (b - c) and (a - b) - c are the same text even then.
abbrev minus : Node ℕ → Node ℕ → Node ℕ
minus x y = infix_node x sub y left_associative

subtraction :
    compile_to_sql by_value english none (minus active (minus premium premium))
    ≡ compile_to_sql by_value english none (minus (minus active premium) premium)
unfolding compile_to_sql precedence_of extract_field_path join
subtraction = refl

grouping_is_lost_example :
    compile_to_sql by_name english none
      (infix_node (infix_node active or_ premium left_associative) and_ age left_associative)
    ≡ compile_to_sql by_name english none
        (infix_node active or_ (infix_node premium and_ age left_associative) left_associative)
grouping_is_lost_example =
    grouping_is_lost english none active premium age or_ and_ left_associative left_associative
