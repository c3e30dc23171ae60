-- ===== src/Catalog/Defs.antt =====
-- src/catalog/catalog.cpp: the catalog's state and operations.
use curiodb.Prelude.{
  ℕ, ◌+◌, Bool, ◌||◌, true, false, List, [], ◌∷◌, ◌++◌, Option, none, some, map, if◌then◌else◌, ltb,
}
use Prim.Native.String.{String}
use curiodb.Prelude.Text.{text, text_eq}
use curiodb.Prelude.Dict.{Dict, lookup, contains, emplace, replace}
use curiodb.Prelude.Outcome.{Outcome, ok, err, ◌>>=◌, ◌>>◌, reject}
use curiodb.Types.Order.{text_compare}
use curiodb.Types.Order.{is_lt}
use curiodb.Catalog.Schema.{ColumnSchema, TableSchema, normalize}

pub data CatalogErrorCode : Type 0 where
  invalid_name database_already_exists database_not_found no_database_selected : CatalogErrorCode
  table_already_exists empty_table duplicate_column multiple_primary_keys : CatalogErrorCode

pub record CatalogError : Type 0 where
  pub code : CatalogErrorCode
  pub message : List ℕ

pub record Database : Type 0 where
  pub name : List ℕ
  pub tables : Dict TableSchema

pub record Catalog : Type 0 where
  pub databases : Dict Database
  pub active_database_key : Option (List ℕ)

abbrev pub empty_catalog : Catalog
empty_catalog = record { databases = []; active_database_key = none }

abbrev pub is_empty {ℓ} : {A : Type ℓ} → List A → Bool
is_empty [] = true
is_empty (x ∷ xs) = false

unfoldable pub error : CatalogErrorCode → List ℕ → CatalogError
error code message = record { code = code; message = message }

unfoldable pub quoted : String → List ℕ → String → List ℕ
quoted before name after = text before ++ (name ++ text after)

unfoldable pub create_database : Catalog → List ℕ → Catalog × Option CatalogError
unfolding error quoted
create_database c name =
    if is_empty name
    then (c, some (error CatalogErrorCode.invalid_name (text "database name cannot be empty")))
    else if contains (normalize name) c.databases
    then (
      c,
      some (
          error CatalogErrorCode.database_already_exists
            (quoted "database '" name "' already exists")),
    )
    else (
      record c {
        databases = emplace (normalize name) (record { name = name; tables = [] }) c.databases;
      },
      none,
    )

unfoldable pub use_database : Catalog → List ℕ → Catalog × Option CatalogError
unfolding error quoted
use_database c name =
    if contains (normalize name) c.databases
    then (record c { active_database_key = some (normalize name) }, none)
    else (
      c,
      some
          (error CatalogErrorCode.database_not_found (quoted "database '" name "' does not exist")),
    )

unfoldable pub clear_selection : Catalog → Catalog
clear_selection c = record c { active_database_key = none }

-- The selected database with its key.
unfoldable pub database_at : Dict Database → Option (List ℕ) → Option (List ℕ × Database)
database_at databases none = none
database_at databases (some key) = elim (lookup key databases) [
  | none ↦ none
  | some database ↦ some (key, database)
]

unfoldable pub selected_database : Catalog → Option (List ℕ × Database)
unfolding database_at
selected_database c = database_at c.databases c.active_database_key

-- `column_names` holds the name: `insert(...).second` is false.
unfoldable pub holds : List ℕ → List (List ℕ) → Bool
holds name [] = false
holds name (other ∷ rest) = text_eq other name || holds name rest

-- The loop over the columns: the names seen so far, and the primary keys counted so far.
unfoldable pub check_columns : List ColumnSchema → List (List ℕ) → ℕ → Outcome CatalogError ℕ
unfolding error quoted
check_columns [] seen keys = ok keys
check_columns (column ∷ rest) seen keys = do
  reject (is_empty column.name)
      (error CatalogErrorCode.invalid_name (text "column name cannot be empty"))
  reject (holds (normalize column.name) seen)
      (error CatalogErrorCode.duplicate_column (quoted "duplicate column '" column.name "'"))
  check_columns rest (normalize column.name ∷ seen) (if column.primary_key then keys + 1 else keys)

-- `CREATE TABLE` in the selected database, whose entry is `key`.
unfoldable pub create_table_in :
    Catalog → List ℕ → Database → List ℕ → List ColumnSchema → Outcome CatalogError Catalog
unfolding error quoted
create_table_in c key database name columns = do
  reject (is_empty name) (error CatalogErrorCode.invalid_name (text "table name cannot be empty"))
  reject (contains (normalize name) database.tables)
      (error CatalogErrorCode.table_already_exists (quoted "table '" name "' already exists"))
  reject (is_empty columns)
      (error CatalogErrorCode.empty_table (text "table must contain at least one column"))
  keys ← check_columns columns [] 0
  reject (ltb 1 keys)
      (error CatalogErrorCode.multiple_primary_keys (text "table may contain only one PRIMARY KEY"))
  let schema : TableSchema = record { name = name; columns = columns }
  let tables = emplace (normalize name) schema database.tables
  ok (record c { databases = replace key (record database { tables = tables }) c.databases })

-- The catalog after the call, and its `CatalogResult`.
abbrev pub returned : Catalog → Outcome CatalogError Catalog → Catalog × Option CatalogError
returned c (ok c') = (c', none)
returned c (err e) = (c, some e)

unfoldable pub create_table : Catalog → List ℕ → List ColumnSchema → Catalog × Option CatalogError
unfolding error
create_table c name columns = elim (selected_database c) [
  | none ↦ (
    c,
    some (
        error CatalogErrorCode.no_database_selected
          (text "no database selected; use USE <database> first")),
  )
  | some (key, database) ↦ returned c (create_table_in c key database name columns)
]

unfoldable pub active_database : Catalog → Option (List ℕ)
active_database c = elim (selected_database c) [
  | none ↦ none
  | some (key, database) ↦ some database.name
]

unfoldable pub find_table : Catalog → List ℕ → Option TableSchema
find_table c name = elim (selected_database c) [
  | none ↦ none
  | some (key, database) ↦ lookup (normalize name) database.tables
]

-- `std::sort` of texts.
unfoldable pub insert_name : List ℕ → List (List ℕ) → List (List ℕ)
insert_name n [] = n ∷ []
insert_name n (m ∷ rest) = if is_lt (text_compare m n) then m ∷ insert_name n rest else n ∷ m ∷ rest

unfoldable pub sort_names : List (List ℕ) → List (List ℕ)
sort_names [] = []
sort_names (n ∷ rest) = insert_name n (sort_names rest)

unfoldable pub database_names : Catalog → List (List ℕ)
database_names c = sort_names (map (λ entry. entry.1.name) c.databases)

unfoldable pub table_names : Catalog → List (List ℕ)
table_names c = elim (selected_database c) [
  | none ↦ []
  | some (key, database) ↦ sort_names (map (λ entry. entry.1.name) database.tables)
]
