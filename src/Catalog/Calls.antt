-- ===== src/Catalog/Calls.antt =====
-- src/catalog/catalog.cpp: the operations keep a catalog well formed, and what they answer.
use curiodb.Prelude.{
  ℕ, ◌≡◌, ◌≢◌, inl, inr, refl, List, [], ◌∷◌, Option, none, some, Bool-cases, Option-cases, ◌∙◌,
}
use curiodb.Prelude.Text.{text_eq}
use curiodb.Prelude.Dict.{
  Dict, lookup, contains, emplace, replace, lookup-emplace, lookup-replace, emplace-Distinct,
  replace-Distinct, emplace-All, replace-All, lookup-All,
}
use curiodb.Prelude.Outcome.{Outcome-cases}
use curiodb.Catalog.Schema.{ColumnSchema, TableSchema, normalize}
use curiodb.Catalog.Defs.{
  Catalog, Database, empty_catalog, is_empty, create_database, use_database, clear_selection,
  selected_database, create_table_in, create_table,
}
use curiodb.Catalog.WellFormed.{
  IsCatalog, IsDatabase, IsTable, IsSchema, IsSelected, selected_database-lookup, with_table,
  is_empty_iff, create_table_in_inversion,
}

-- A call of the catalog.
pub data Call : Type 0 where
  creates_database : List ℕ → Call
  uses_database : List ℕ → Call
  clears_selection : Call
  creates_table : List ℕ → List ColumnSchema → Call

unfoldable pub after : Catalog → Call → Catalog
after c (creates_database name) = (create_database c name).0
after c (uses_database name) = (use_database c name).0
after c clears_selection = clear_selection c
after c (creates_table name columns) = (create_table c name columns).0

unfoldable pub run : Catalog → List Call → Catalog
unfolding after
run c [] = c
run c (call ∷ calls) = run (after c call) calls

IsSelected-emplace :
    (k : List ℕ) (d : Database) (m : Dict Database) (active : Option (List ℕ))
    → lookup k m ≡ none
    → IsSelected m active
    → IsSelected (emplace k d m) active
IsSelected-emplace k d m none fresh h = tt
IsSelected-emplace k d m (some key) fresh (found, e) = elim (Bool-cases (text_eq k key)) [
  | inl same ↦ (d, lookup-emplace k key d m fresh ∙ rw same refl)
  | inr other ↦ (found, lookup-emplace k key d m fresh ∙ rw other e)
]

IsSelected-replace :
    (k : List ℕ) (d old : Database) (m : Dict Database) (active : Option (List ℕ))
    → lookup k m ≡ some old
    → IsSelected m active
    → IsSelected (replace k d m) active
IsSelected-replace k d old m none there h = tt
IsSelected-replace k d old m (some key) there (found, e) = elim (Bool-cases (text_eq k key)) [
  | inl same ↦ (d, lookup-replace k key d old m there ∙ rw same refl)
  | inr other ↦ (found, lookup-replace k key d old m there ∙ rw other e)
]

pub create_database-IsCatalog :
    (c : Catalog) (name : List ℕ) → IsCatalog c → IsCatalog (create_database c name).0
unfolding create_database contains
create_database-IsCatalog c name v = elim (Bool-cases (is_empty name)) [
  | inl nameless ↦ rw nameless v
  | inr named ↦ elim (Option-cases (lookup (normalize name) c.databases)) [
    | inr (d, there) ↦ rw (named, there) v
    | inl fresh ↦
        let d : Database = record { name = name; tables = [] } in
        rw (named, fresh)
          (record {
            distinct = emplace-Distinct (normalize name) d c.databases v.distinct;
            databases =
                emplace-All IsDatabase (normalize name) d c.databases
                  (refl, (is_empty_iff name).0 named, tt, tt) v.databases;
            selected =
                IsSelected-emplace (normalize name) d c.databases c.active_database_key fresh
                  v.selected;
          })
  ]
]

pub use_database-IsCatalog :
    (c : Catalog) (name : List ℕ) → IsCatalog c → IsCatalog (use_database c name).0
unfolding use_database contains
use_database-IsCatalog c name v = elim (Option-cases (lookup (normalize name) c.databases)) [
  | inl missing ↦ rw missing v
  | inr (d, there) ↦
      rw there (record { distinct = v.distinct; databases = v.databases; selected = (d, there) })
]

clear_selection-IsCatalog : (c : Catalog) → IsCatalog c → IsCatalog (clear_selection c)
unfolding clear_selection
clear_selection-IsCatalog c v = record {
  distinct = v.distinct;
  databases = v.databases;
  selected = tt;
}

with_table-IsCatalog :
    (c : Catalog) (key : List ℕ) (d : Database) (name : List ℕ) (columns : List ColumnSchema)
    → lookup key c.databases ≡ some d
    → name ≢ []
    → IsSchema columns
    → IsCatalog c
    → IsCatalog (with_table c key d name columns)
with_table-IsCatalog c key d name columns there named s v =
    let schema : TableSchema = record { name = name; columns = columns } in
    let (same, nonempty, distinct, tables) =
      lookup-All IsDatabase key d c.databases there v.databases in
    record {
      distinct = replace-Distinct key _ c.databases v.distinct;
      databases =
          replace-All IsDatabase key _ c.databases
            (
              same,
              nonempty,
              emplace-Distinct (normalize name) schema d.tables distinct,
              emplace-All IsTable (normalize name) schema d.tables (refl, named, s) tables,
            )
            v.databases;
      selected = IsSelected-replace key _ d c.databases c.active_database_key there v.selected;
    }

pub create_table-IsCatalog :
    (c : Catalog) (name : List ℕ) (columns : List ColumnSchema)
    → IsCatalog c
    → IsCatalog (create_table c name columns).0
unfolding create_table
create_table-IsCatalog c name columns v = elim (Option-cases (selected_database c)) [
  | inl nothing ↦ rw (nothing, create_table) v
  | inr ((key, d), chosen) ↦ elim (Outcome-cases (create_table_in c key d name columns)) [
    | inr (e, failed) ↦ rw (chosen, create_table) (rw failed v)
    | inl (c', made) ↦
        let (named, _, s, same) = create_table_in_inversion c key d name columns c' made in
        rw (chosen, create_table)
          (rw (made, same)
            (with_table-IsCatalog c key d name columns (selected_database-lookup c key d chosen)
              named s v))
  ]
]

after-IsCatalog : (c : Catalog) (call : Call) → IsCatalog c → IsCatalog (after c call)
unfolding after
after-IsCatalog c (creates_database name) v = create_database-IsCatalog c name v
after-IsCatalog c (uses_database name) v = use_database-IsCatalog c name v
after-IsCatalog c clears_selection v = clear_selection-IsCatalog c v
after-IsCatalog c (creates_table name columns) v = create_table-IsCatalog c name columns v

run_keeps : (c : Catalog) (calls : List Call) → IsCatalog c → IsCatalog (run c calls)
unfolding run
run_keeps c [] v = v
run_keeps c (call ∷ calls) v = run_keeps (after c call) calls (after-IsCatalog c call v)

-- After any calls on a new catalog: no two databases and no two tables of a database share a name,
-- whatever its case; each is kept under its name in lower case, none is empty; each table has columns,
-- with names of their own and at most one primary key; and the selected database exists.
pub run-IsCatalog : (calls : List Call) → IsCatalog (run empty_catalog calls)
run-IsCatalog calls =
    run_keeps empty_catalog calls (record { distinct = tt; databases = tt; selected = tt })
