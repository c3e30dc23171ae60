-- ===== src/Execution/Executor/Views.antt =====
-- src/execution/statement_executor.cpp: the tables of the catalog and those of the storage, by the keys
-- of their database and their own.
use curiodb.Prelude.{
  ℕ, ◌≡◌, inl, inr, refl, List, [], ◌∷◌, Option, none, some, if◌then◌else◌, arith, Option-cases,
}
use curiodb.Prelude.Text.{text_eq, text_eq_iff, text_eq_refl}
use curiodb.Prelude.Dict.{
  Dict, lookup, emplace, replace, contains, lookup-emplace, lookup-replace, lookup-All,
}
use curiodb.Catalog.Schema.{ColumnSchema, TableSchema, normalize}
use curiodb.Catalog.Defs.{
  Catalog, Database, active_database, selected_database, find_table, create_database,
}
use curiodb.Catalog.WellFormed.{IsCatalog, IsDatabase, with_table, selected_database-lookup}
use curiodb.Storage.Memory.Defs
use curiodb.Storage.Memory.Defs.{InMemoryTable, InMemoryStorage, tables_of}
use curiodb.Execution.Executor.Defs.{write_table}

abbrev tables_at : Option Database → List ℕ → Option TableSchema
tables_at none t = none
tables_at (some d) t = lookup t d.tables

-- The schema under the keys of a database and of a table, both in lower case.
unfoldable pub schema_at : Catalog → List ℕ → List ℕ → Option TableSchema
schema_at c k t = tables_at (lookup k c.databases) t

abbrev stored_at : Option (Dict InMemoryTable) → List ℕ → Option InMemoryTable
stored_at none t = none
stored_at (some tables) t = lookup t tables

unfoldable pub table_at : InMemoryStorage → List ℕ → List ℕ → Option InMemoryTable
table_at s k t = stored_at (lookup k s) t

-- `old` but for the one pair of keys `K` and `T`.
abbrev pub at_key {ℓ} : {A : Type ℓ} → List ℕ → List ℕ → List ℕ → List ℕ → A → A → A
at_key K T k t new old = if text_eq K k then if text_eq T t then new else old else old

pub find_table-table_at :
    (s : InMemoryStorage) (database name : List ℕ)
    → Defs.find_table s database name ≡ table_at s (normalize database) (normalize name)
unfolding Defs.find_table table_at
find_table-table_at s database name = ground arith

-- The table that the catalog finds is the one under the name of the selected database.
pub find_table-schema_at :
    (c : Catalog) (database name : List ℕ) (schema : TableSchema)
    → IsCatalog c
    → active_database c ≡ some database
    → find_table c name ≡ some schema
    → schema_at c (normalize database) (normalize name) ≡ some schema
unfolding active_database find_table schema_at
find_table-schema_at c database name schema v active found =
    elim (Option-cases (selected_database c)) [
      | inl nothing ↦ absurd (ground arith)
      | inr ((key, d), chosen) ↦
          let there = selected_database-lookup c key d chosen in
          let (same, _, _, _) = lookup-All IsDatabase key d c.databases there v.databases in
          let named : d.name ≡ database = ground (arith, chosen, active) in
          let here : lookup (normalize name) d.tables ≡ some schema =
            ground (arith, chosen, found) in
          rw (← named, ← same, there) here
    ]

pub write_table-table_at :
    (s : InMemoryStorage) (database name : List ℕ) (old new : InMemoryTable) (k t : List ℕ)
    → table_at s (normalize database) (normalize name) ≡ some old
    → table_at (write_table s database name new) k t
      ≡ at_key (normalize database) (normalize name) k t (some new) (table_at s k t)
unfolding write_table table_at
write_table-table_at s database name old new k t h =
    elim (Option-cases (lookup (normalize database) s)) [
      | inl missing ↦ absurd (ground arith)
      | inr (tables, there) ↦
          let inside : lookup (normalize name) tables ≡ some old = rw there at h in
          ground (
            arith,
            there,
            text_eq_iff (normalize database) k,
            lookup-replace (normalize database) k (replace (normalize name) new tables) tables s
                there,
            lookup-replace (normalize name) t new old tables inside,
          )
    ]

-- A new database has no tables.
pub create_database-schema_at :
    (c : Catalog) (name k t : List ℕ) → schema_at (create_database c name).0 k t ≡ schema_at c k t
unfolding create_database schema_at contains
create_database-schema_at c name k t = elim (Option-cases (lookup (normalize name) c.databases)) [
  | inr (d, there) ↦ ground (arith, there)
  | inl fresh ↦ ground (
    arith,
    fresh,
    text_eq_iff (normalize name) k,
    lookup-emplace (normalize name) k (record { name = name; tables = [] }) c.databases fresh,
  )
]

pub with_table-schema_at :
    (c : Catalog) (key : List ℕ) (d : Database) (name : List ℕ) (columns : List ColumnSchema)
    (k t : List ℕ)
    → lookup key c.databases ≡ some d
    → lookup (normalize name) d.tables ≡ none
    → schema_at (with_table c key d name columns) k t
      ≡ at_key key
          (normalize name)
          k
          t
          (some (record { name = name; columns = columns }))
          (schema_at c k t)
unfolding schema_at
with_table-schema_at c key d name columns k t there fresh =
    let schema : TableSchema = record { name = name; columns = columns } in
    ground (
      arith,
      there,
      text_eq_iff key k,
      lookup-replace key k (record d { tables = emplace (normalize name) schema d.tables }) d
          c.databases there,
      lookup-emplace (normalize name) t schema d.tables fresh,
    )

module _ (s : InMemoryStorage) (database : List ℕ) (schema : TableSchema) where
  abbrev new_table : InMemoryTable
  new_table = record { schema = schema; rows = [] }

  create_table_there :
      (tables : Dict InMemoryTable)
      → lookup (normalize database) s ≡ some tables
      → Defs.create_table s database schema
        ≡ replace (normalize database) (emplace (normalize schema.name) new_table tables) s
  unfolding Defs.create_table tables_of emplace contains
  create_table_there tables there = rw (there, tables_of) refl

  create_table_fresh :
      lookup (normalize database) s ≡ none
      → Defs.create_table s database schema
        ≡ (normalize database, (normalize schema.name, new_table) ∷ []) ∷ s
  unfolding Defs.create_table tables_of emplace replace contains lookup
  create_table_fresh fresh = rw (fresh, tables_of, text_eq_refl (normalize database)) refl

  -- A new table stands alone under its keys.
  pub create_table-table_at :
      (k t : List ℕ)
      → table_at s (normalize database) (normalize schema.name) ≡ none
      → table_at (Defs.create_table s database schema) k t
        ≡ at_key (normalize database) (normalize schema.name) k t (some new_table) (table_at s k t)
  unfolding table_at
  create_table-table_at k t h =
      let key = normalize database in
      elim (Option-cases (lookup key s)) [
        | inr (tables, there) ↦
            let inside : lookup (normalize schema.name) tables ≡ none = rw there at h in
            rw (create_table_there tables there) (
              ground (
                arith,
                there,
                text_eq_iff key k,
                lookup-replace key k (emplace (normalize schema.name) new_table tables) tables s
                    there,
                lookup-emplace (normalize schema.name) t new_table tables inside,
              ))
        | inl fresh ↦
            rw (create_table_fresh fresh)
              (unfold lookup in ground (arith, fresh, text_eq_iff key k))
      ]
