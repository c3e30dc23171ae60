-- ===== src/Catalog/Lookup.antt =====
-- src/catalog/catalog.cpp: what the calls answer, and what is found after them.
use curiodb.Prelude.{
  ℕ, ◌≡◌, ◌≢◌, ◌↔◌, inl, inr, refl, List, [], Option, none, some, if◌then◌else◌, arith, Bool-cases,
  Option-cases,
}
use curiodb.Prelude.Text.{text_eq}
use curiodb.Prelude.Dict.{
  Dict, lookup, contains, emplace, replace, lookup-emplace, lookup-emplace_self,
  lookup-replace_self,
}
use curiodb.Prelude.Outcome.{Outcome-cases}
use curiodb.Catalog.Schema.{ColumnSchema, normalize}
use curiodb.Catalog.Defs.{
  Catalog, Database, is_empty, create_database, use_database, active_database, selected_database,
  database_at, create_table_in, create_table, find_table,
}
use curiodb.Catalog.WellFormed.{
  IsSchema, with_table, create_table_in_inversion, create_table_in-IsSchema,
}

-- `create_table` in a selected database succeeds exactly for a name that is not empty and not taken, in
-- any case, and columns that make a schema.
pub create_table-IsSchema :
    (c : Catalog) (key : List ℕ) (d : Database) (name : List ℕ) (columns : List ColumnSchema)
    → selected_database c ≡ some (key, d)
    → ((create_table c name columns).1 ≡ none)
      ↔ ((name ≢ []) × (lookup (normalize name) d.tables ≡ none) × IsSchema columns)
unfolding create_table
create_table-IsSchema c key d name columns chosen =
    rw (chosen, create_table)
      (
        λ e. elim (Outcome-cases (create_table_in c key d name columns)) [
          | inr (_, failed) ↦ absurd (ground arith)
          | inl (c', made) ↦
              let (named, fresh, s, _) = create_table_in_inversion c key d name columns c' made in
              (named, fresh, s)
        ],
        λ (named, fresh, s). rw (create_table_in-IsSchema c key d name columns named fresh s) refl,
      )

-- The selected database stays selected when its entry is replaced.
database_at-replace :
    (m : Dict Database) (active : Option (List ℕ)) (key : List ℕ) (d d' : Database)
    → database_at m active ≡ some (key, d)
    → database_at (replace key d' m) active ≡ some (key, d')
unfolding database_at
database_at-replace m none key d d' e = absurd (ground arith)
database_at-replace m (some k) key d d' e = elim (Option-cases (lookup k m)) [
  | inl missing ↦ absurd (ground arith)
  | inr (found, there) ↦
      let same : k ≡ key = ground arith in
      let there' : lookup key m ≡ some found = rw (← same) there in
      rw same (rw (lookup-replace_self key d' found m there', database_at) refl)
]

pub selected_database-with_table :
    (c : Catalog) (key : List ℕ) (d : Database) (name : List ℕ) (columns : List ColumnSchema)
    → selected_database c ≡ some (key, d)
    → selected_database (with_table c key d name columns)
      ≡ some (
        key,
        record d {
          tables = emplace (normalize name) (record { name = name; columns = columns }) d.tables;
        },
      )
unfolding selected_database
selected_database-with_table c key d name columns e =
    database_at-replace c.databases c.active_database_key key d _ e

find_table-with_table :
    (c : Catalog) (key : List ℕ) (d : Database) (name other : List ℕ) (columns : List ColumnSchema)
    → selected_database c ≡ some (key, d)
    → lookup (normalize name) d.tables ≡ none
    → find_table (with_table c key d name columns) other ≡ (
        if text_eq (normalize name) (normalize other)
        then some (record { name = name; columns = columns })
        else find_table c other)
unfolding find_table
find_table-with_table c key d name other columns chosen fresh =
    rw (selected_database-with_table c key d name columns chosen, find_table)
      (rw (chosen, find_table) (lookup-emplace (normalize name) (normalize other) _ d.tables fresh))

-- After a `create_table` that succeeds its name, in any case, finds the new table, and every other name
-- finds what it found before.
pub find_table-create_table :
    (c c' : Catalog) (name other : List ℕ) (columns : List ColumnSchema)
    → create_table c name columns ≡ (c', none)
    → find_table c' other ≡ (
        if text_eq (normalize name) (normalize other)
        then some (record { name = name; columns = columns })
        else find_table c other)
unfolding create_table
find_table-create_table c c' name other columns e = elim (Option-cases (selected_database c)) [
  | inl nothing ↦ absurd (ground (arith, nothing))
  | inr ((key, d), chosen) ↦ elim (Outcome-cases (create_table_in c key d name columns)) [
    | inr (_, failed) ↦ absurd (ground arith)
    | inl (c'', made) ↦
        let (_, fresh, _, same) = create_table_in_inversion c key d name columns c'' made in
        let returned_it : c' ≡ with_table c key d name columns = ground arith in
        rw returned_it (find_table-with_table c key d name other columns chosen fresh)
  ]
]

-- What a `create_database` that succeeds leaves under the new name.
pub create_database-lookup :
    (c : Catalog) (name : List ℕ)
    → (create_database c name).1 ≡ none
    → lookup (normalize name) (create_database c name).0.databases
      ≡ some (record { name = name; tables = [] })
unfolding create_database contains
create_database-lookup c name e = elim (Bool-cases (is_empty name)) [
  | inl nameless ↦ absurd (ground arith)
  | inr named ↦ elim (Option-cases (lookup (normalize name) c.databases)) [
    | inr (d, there) ↦ absurd (ground arith)
    | inl fresh ↦
        rw (named, fresh)
          (lookup-emplace_self (normalize name) (record { name = name; tables = [] }) c.databases
            fresh)
  ]
]

selects :
    (c : Catalog) (name : List ℕ) (d : Database)
    → lookup (normalize name) c.databases ≡ some d
    → let used = use_database c name in (used.1 ≡ none) × (active_database used.0 ≡ some d.name)
unfolding use_database active_database selected_database database_at contains
selects c name d there = ground arith

-- A database that was created can be selected by its name in any case, and is then the active one.
pub active_database-use_database :
    (c : Catalog) (name other : List ℕ)
    → (create_database c name).1 ≡ none
    → normalize other ≡ normalize name
    → let used = use_database (create_database c name).0 other in
      (used.1 ≡ none) × (active_database used.0 ≡ some name)
active_database-use_database c name other e same =
    selects (create_database c name).0 other (record { name = name; tables = [] })
      (rw same (create_database-lookup c name e))
