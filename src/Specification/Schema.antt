-- ===== src/Specification/Schema.antt =====
-- specification/infrastructure/schema.py: where the collections of an aggregate are stored.
use ascetic_ddd_python.Prelude.{
  String, str_eq, Bool, true, false, Option, none, some, List, [], ◌∷◌, if◌then◌else◌,
}

pub data StorageType : Type 0 where
  embedded relational : StorageType

pub record ForeignKeyPair : Type 0 where
  pub child_column : String
  pub parent_column : String

pub record CollectionMapping : Type 0 where
  pub storage : StorageType
  pub table : String
  pub foreign_keys : List ForeignKeyPair
  pub alias : String

pub record SchemaRegistry : Type 0 where
  pub parent_table : String
  pub parent_alias : String
  pub collections : List (String × CollectionMapping)

-- `SchemaRegistry(parent_table)`
unfoldable pub registry : String → SchemaRegistry
registry parent_table = record { parent_table = parent_table; parent_alias = ""; collections = [] }

unfoldable pub with_parent_alias : String → SchemaRegistry → SchemaRegistry
with_parent_alias alias schema = record schema { parent_alias = alias }

-- `self._collections[field_name] = mapping`
unfoldable pub set_collection :
    String
    → CollectionMapping
    → List (String × CollectionMapping)
    → List (String × CollectionMapping)
set_collection name mapping [] = (name, mapping) ∷ []
set_collection name mapping ((key, old) ∷ rest) =
    if str_eq key name then (key, mapping) ∷ rest else (key, old) ∷ set_collection name mapping rest

unfoldable pub register : String → CollectionMapping → SchemaRegistry → SchemaRegistry
unfolding set_collection
register name mapping schema = record schema {
  collections = set_collection name mapping schema.collections;
}

unfoldable pub register_embedded : String → SchemaRegistry → SchemaRegistry
unfolding register
register_embedded name =
    register name (record { storage = embedded; table = ""; foreign_keys = []; alias = "" })

unfoldable pub register_relational_composite :
    String → String → List ForeignKeyPair → SchemaRegistry → SchemaRegistry
unfolding register
register_relational_composite name table keys =
    register name (record { storage = relational; table = table; foreign_keys = keys; alias = "" })

unfoldable pub register_relational :
    String → String → String → String → SchemaRegistry → SchemaRegistry
unfolding register_relational_composite
register_relational name table child_column parent_column =
    register_relational_composite name table
      (record { child_column = child_column; parent_column = parent_column } ∷ [])

unfoldable pub find_collection :
    String → List (String × CollectionMapping) → Option CollectionMapping
find_collection name [] = none
find_collection name ((key, mapping) ∷ rest) =
    if str_eq key name then some mapping else find_collection name rest

-- `get`
unfoldable pub get_mapping : String → SchemaRegistry → Option CollectionMapping
unfolding find_collection
get_mapping name schema = find_collection name schema.collections

unfoldable pub is_embedded : String → SchemaRegistry → Bool
unfolding get_mapping
is_embedded name schema = elim (get_mapping name schema) [
  | none ↦ true
  | some mapping ↦ elim mapping.storage [ embedded ↦ true | relational ↦ false ]
]

unfoldable pub is_relational : String → SchemaRegistry → Bool
unfolding get_mapping
is_relational name schema = elim (get_mapping name schema) [
  | none ↦ false
  | some mapping ↦ elim mapping.storage [ embedded ↦ false | relational ↦ true ]
]

unfoldable pub get_parent_ref : SchemaRegistry → String
get_parent_ref schema =
    if str_eq schema.parent_alias "" then schema.parent_table else schema.parent_alias
