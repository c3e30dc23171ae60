-- ===== src/Execution/Executor/InStep.antt =====
-- src/execution/statement_executor.cpp: a new table is in the catalog and in the storage.
use curiodb.Prelude.{ℕ, ◌≡◌, ◌⊎◌, inl, inr, refl, List, [], none, some, Option-cases}
use curiodb.Prelude.Text.{text}
use curiodb.Prelude.Dict.{lookup, contains, lookup-emplace_self, lookup-All}
use curiodb.Prelude.Outcome.{ok, Outcome-cases}
use curiodb.Catalog.Schema.{ColumnSchema, TableSchema, normalize}
use curiodb.Catalog.Defs.{
  Catalog, CatalogError, CatalogErrorCode, error, Database, active_database, find_table,
  selected_database, use_database, create_table, create_table_in,
}
use curiodb.Catalog.WellFormed.{IsCatalog, IsDatabase, with_table, create_table_in_inversion}
use curiodb.Catalog.Lookup.{selected_database-with_table}
use curiodb.Storage.Memory.Defs
use curiodb.Storage.Memory.Defs.{InMemoryTable, InMemoryStorage}
use curiodb.Execution.Executor.Statements.{selected_table}
use curiodb.Execution.Executor.Views.{
  schema_at, table_at, with_table-schema_at, create_table-table_at,
}
use curiodb.Execution.Executor.Sound.{IsSound, Holds-none, Holds-at_key}

pub use_database-schema_at :
    (c : Catalog) (name k t : List ℕ) → schema_at (use_database c name).0 k t ≡ schema_at c k t
unfolding use_database schema_at contains
use_database-schema_at c name k t = elim (Option-cases (lookup (normalize name) c.databases)) [
  | inl missing ↦ rw (missing, use_database) refl
  | inr (d, there) ↦ rw (there, use_database) refl
]

pub selected_table-with_table :
    (c : Catalog) (key : List ℕ) (d : Database) (name : List ℕ) (columns : List ColumnSchema)
    → selected_database c ≡ some (key, d)
    → lookup (normalize name) d.tables ≡ none
    → selected_table (with_table c key d name columns) name
      ≡ ok (d.name, record { name = name; columns = columns })
unfolding selected_table active_database find_table
selected_table-with_table c key d name columns chosen fresh =
    let schema : TableSchema = record { name = name; columns = columns } in
    let c' = with_table c key d name columns in
    let chosen' = selected_database-with_table c key d name columns chosen in
    let active : active_database c' ≡ some d.name = rw (chosen', active_database) refl in
    let found : find_table c' name ≡ some schema =
      rw (chosen', find_table) (lookup-emplace_self (normalize name) schema d.tables fresh) in
    rw (active, selected_table) (rw found refl)

-- A new table in the catalog and in the storage.
pub new_table-IsSound :
    (c : Catalog) (s : InMemoryStorage) (key : List ℕ) (d : Database) (name : List ℕ)
    (columns : List ColumnSchema)
    → IsSound c s
    → IsCatalog (with_table c key d name columns)
    → lookup key c.databases ≡ some d
    → lookup (normalize name) d.tables ≡ none
    → IsSound
        (with_table c key d name columns)
        (Defs.create_table s d.name (record { name = name; columns = columns }))
unfolding schema_at
new_table-IsSound c s key d name columns h v there fresh =
    let schema : TableSchema = record { name = name; columns = columns } in
    let (same, _, _, _) = lookup-All IsDatabase key d c.databases there h.catalog.databases in
    let absent : schema_at c key (normalize name) ≡ none = rw (there, schema_at) fresh in
    let nothing : table_at s (normalize d.name) (normalize name) ≡ none =
      rw (← same) (Holds-none _ _ absent (h.synced key (normalize name))) in
    record {
      catalog = v;
      synced = λ k t.
          rw
            (
              with_table-schema_at c key d name columns k t there fresh,
              create_table-table_at s d.name schema k t nothing,
              ← same,
            )
            (Holds-at_key key (normalize name) k t (some schema) (schema_at c k t)
              (some (record { schema = schema; rows = [] })) (table_at s k t) (refl, tt)
              (h.synced k t));
    }

-- What `create_table` answers: nothing has changed, or the table is there.
pub create_table-cases :
    (c : Catalog) (name : List ℕ) (columns : List ColumnSchema)
    → ((e : CatalogError) × (create_table c name columns ≡ (c, some e)))
      ⊎ ((key : List ℕ) × (d : Database) × (selected_database c ≡ some (key, d))
          × (lookup (normalize name) d.tables ≡ none)
          × (create_table c name columns ≡ (with_table c key d name columns, none)))
unfolding create_table
create_table-cases c name columns = elim (Option-cases (selected_database c)) [
  | inl nothing ↦ inl (
    error CatalogErrorCode.no_database_selected
        (text "no database selected; use USE <database> first"),
    rw (nothing, create_table) refl,
  )
  | inr ((key, d), chosen) ↦ elim (Outcome-cases (create_table_in c key d name columns)) [
    | inr (e, failed) ↦ inl (e, rw (chosen, create_table) (rw failed refl))
    | inl (c', made) ↦
        let (_, fresh, _, same) = create_table_in_inversion c key d name columns c' made in
        inr (key, d, chosen, fresh, rw (chosen, create_table) (rw (made, same) refl))
  ]
]
