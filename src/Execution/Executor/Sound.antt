-- ===== src/Execution/Executor/Sound.antt =====
-- src/execution/statement_executor.cpp: the catalog and the tables in memory stay in step.
use curiodb.Prelude.{
  ℕ, ◌≡◌, inl, inr, refl, sym, ap, ◌∙◌, Bool, List, [], ◌∷◌, Option, none, some, All, arith,
  Bool-cases, Option-cases, All-append,
}
use curiodb.Prelude.Text.{text_eq, text_eq_iff}
use curiodb.Prelude.Outcome.{ok}
use curiodb.Catalog.Schema.{TableSchema, normalize}
use curiodb.Catalog.Defs.{Catalog, active_database, find_table}
use curiodb.Catalog.WellFormed.{IsCatalog}
use curiodb.Storage.Row.{Row}
use curiodb.Storage.Validation.Defs.{validate_row}
use curiodb.Storage.Validation.Fits.{Fits, validate_row-Fits}
use curiodb.Storage.Memory.Defs
use curiodb.Storage.Memory.Defs.{InMemoryTable, InMemoryStorage}
use curiodb.Storage.Memory.Unique.{erase_if-All}
use curiodb.Execution.Executor.Defs.{write_table}
use curiodb.Execution.Executor.Statements.{selected_table}
use curiodb.Execution.Executor.Views.{
  schema_at, table_at, at_key, find_table-table_at, find_table-schema_at, write_table-table_at,
}

-- The rows of a table fit its schema.
abbrev pub IsFit : InMemoryTable → Type 0
IsFit table = All (λ row. Fits table.schema.columns row.values) table.rows

-- What the catalog and the storage have under the same keys: nothing, or a schema and its table.
abbrev pub Holds : Option TableSchema → Option InMemoryTable → Type 0
Holds none none = Unit
Holds none (some table) = ⊥
Holds (some schema) none = ⊥
Holds (some schema) (some table) = (table.schema ≡ schema) × IsFit table

pub record IsSound (c : Catalog) (s : InMemoryStorage) : Type 0 where
  pub catalog : IsCatalog c
  pub synced : (k t : List ℕ) → Holds (schema_at c k t) (table_at s k t)

pub Holds-some :
    (a : Option TableSchema) (b : Option InMemoryTable) (schema : TableSchema)
    → a ≡ some schema
    → Holds a b
    → (table : InMemoryTable) × (b ≡ some table) × (table.schema ≡ schema) × IsFit table
Holds-some none b schema e h = absurd (ground arith)
Holds-some (some a) none schema e h = absurd h
Holds-some (some a) (some table) schema e (same, fit) = (table, refl, same ∙ ground arith, fit)

pub Holds-none :
    (a : Option TableSchema) (b : Option InMemoryTable) → a ≡ none → Holds a b → b ≡ none
Holds-none none none e h = refl
Holds-none none (some table) e h = absurd h
Holds-none (some a) b e h = absurd (ground arith)

Holds-rewrite :
    (a : Option TableSchema) (b : Option InMemoryTable) (old new : InMemoryTable)
    → b ≡ some old
    → new.schema ≡ old.schema
    → IsFit new
    → Holds a b
    → Holds a (some new)
Holds-rewrite none none old new e same fit h = absurd (ground arith)
Holds-rewrite none (some table) old new e same fit h = absurd h
Holds-rewrite (some a) none old new e same fit h = absurd h
Holds-rewrite (some a) (some table) old new e same fit (h, _) =
    let met : table ≡ old = ground arith in (same ∙ (ap (λ t. t.schema) (sym met) ∙ h), fit)

-- Two views that hold at every key still do after a change at one key.
pub Holds-at_key :
    (K T k t : List ℕ) (x a : Option TableSchema) (y b : Option InMemoryTable)
    → Holds x y
    → Holds a b
    → Holds (at_key K T k t x a) (at_key K T k t y b)
Holds-at_key K T k t x a y b new old = elim (Bool-cases (text_eq K k)) [
  | inr other ↦ rw other old
  | inl same ↦ elim (Bool-cases (text_eq T t)) [
    | inr other ↦ rw (same, other) old
    | inl same' ↦ rw (same, same') new
  ]
]

-- Writing back a table with the same schema.
pub write_table-IsSound :
    (c : Catalog) (s : InMemoryStorage) (database name : List ℕ) (old new : InMemoryTable)
    → IsSound c s
    → table_at s (normalize database) (normalize name) ≡ some old
    → new.schema ≡ old.schema
    → IsFit new
    → IsSound c (write_table s database name new)
write_table-IsSound c s database name old new h there same fit =
    let K = normalize database in
    let T = normalize name in
    record {
      catalog = h.catalog;
      synced = λ k t.
          rw (write_table-table_at s database name old new k t there)
            (elim (Bool-cases (text_eq K k)) [
              | inr other ↦ rw other (h.synced k t)
              | inl same_key ↦ elim (Bool-cases (text_eq T t)) [
                | inr other ↦ rw (same_key, other) (h.synced k t)
                | inl same_table ↦
                    let here : table_at s k t ≡ some old =
                      rw (← (text_eq_iff K k).0 same_key, ← (text_eq_iff T t).0 same_table) there in
                    rw (same_key, same_table)
                      (Holds-rewrite (schema_at c k t) (table_at s k t) old new here same fit
                        (h.synced k t))
              ]
            ]);
    }

-- A statement on a table finds the table in the storage, with the schema of the catalog.
pub selected_table-table_at :
    (c : Catalog) (s : InMemoryStorage) (database name : List ℕ) (schema : TableSchema)
    → IsSound c s
    → selected_table c name ≡ ok (database, schema)
    → (table : InMemoryTable) × (table_at s (normalize database) (normalize name) ≡ some table)
      × (Defs.find_table s database name ≡ some table)
      × (table.schema ≡ schema)
      × IsFit table
unfolding selected_table
selected_table-table_at c s database name schema h e = elim (Option-cases (active_database c)) [
  | inl nothing ↦ absurd (ground arith)
  | inr (active, chosen) ↦ elim (Option-cases (find_table c name)) [
    | inl missing ↦ absurd (ground arith)
    | inr (found, there) ↦
        let same : active ≡ database = ground arith in
        let same' : found ≡ schema = ground arith in
        let here =
          find_table-schema_at c database name schema h.catalog (chosen ∙ ap some same)
            (there ∙ ap some same') in
        let (table, stored, met, fit) =
          Holds-some _ _ schema here (h.synced (normalize database) (normalize name)) in
        (table, stored, find_table-table_at s database name ∙ stored, met, fit)
  ]
]

pub insert-IsFit :
    (table : InMemoryTable) (row : Row)
    → IsFit table
    → ((Defs.insert table row).0.schema ≡ table.schema) × IsFit (Defs.insert table row).0
unfolding Defs.insert
insert-IsFit table row fit = elim (Option-cases (validate_row table.schema row)) [
  | inr (e, refused) ↦ rw (refused, Defs.insert) (refl, fit)
  | inl fits ↦ elim (Option-cases (Defs.check_unique table.schema.columns 0 table.rows row)) [
    | inr (e, refused) ↦ rw (fits, Defs.insert) (rw refused (refl, fit))
    | inl fresh ↦
        rw (fits, Defs.insert)
          (rw fresh (
            refl,
            All-append (λ r. Fits table.schema.columns r.values) table.rows (row ∷ []) fit
                ((validate_row-Fits table.schema row).0 fits, tt),
          ))
  ]
]

pub delete_where-IsFit :
    (table : InMemoryTable) (p : Row → Bool) → IsFit table → IsFit (Defs.delete_where table p).0
unfolding Defs.delete_where
delete_where-IsFit table p fit =
    erase_if-All (λ r. Fits table.schema.columns r.values) p table.rows fit
