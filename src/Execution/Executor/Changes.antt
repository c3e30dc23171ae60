-- ===== src/Execution/Executor/Changes.antt =====
-- src/execution/statement_executor.cpp: what INSERT and DELETE do to the rows of the tables in memory.
use curiodb.Prelude.{
  ℕ, ◌≡◌, ◌⊎◌, inl, inr, refl, sym, ap, ◌∙◌, Bool, List, [], ◌∷◌, ◌++◌, Option, none, some,
  if◌then◌else◌, All, arith, Bool-cases, Option-cases, map, length,
}
use mathlib.Core.Option
use curiodb.Prelude.Text.{text_eq, text_eq_iff}
use curiodb.Prelude.Outcome.{ok, Outcome-cases}
use curiodb.Catalog.Schema.{ColumnSchema, TableSchema, normalize}
use curiodb.Catalog.Defs.{Catalog, active_database, find_table}
use curiodb.Storage.Row.{Row}
use curiodb.Storage.Validation.Defs.{RowValidationError, validate_row}
use curiodb.Storage.Memory.Defs
use curiodb.Storage.Memory.Defs.{InMemoryTable, InMemoryStorage, erase_if}
use curiodb.Sql.Ast.{Expression, InsertStatement, DeleteStatement}
use curiodb.Execution.Planner.Defs.{bind_expression}
use curiodb.Execution.Planner.Meaning.{IsSized, passes, bind_expression-satisfies}
use curiodb.Execution.Executor.Copies.{executor_value}
use curiodb.Execution.Executor.Where.{without_description, bind_predicate-bind_expression}
use curiodb.Execution.Executor.Defs.{DiskOperations, Storage, Session, store_row, remove_rows}
use curiodb.Execution.Executor.Statements.{selected_table, clause_predicate, result_of}
use curiodb.Execution.Executor.Execute.{execute_insert, execute_delete}
use curiodb.Execution.Executor.Views.{table_at, at_key, write_table-table_at}
use curiodb.Execution.Executor.Sound.{IsSound, selected_table-table_at}
use curiodb.Execution.Executor.Steps.{in_step}
use curiodb.Execution.Executor.Results.{All-IsSized}

-- The table of a session in memory under the keys of its database and its own.
abbrev stored_table : {State : Type 0} → Storage State → List ℕ → List ℕ → Option InMemoryTable
stored_table (Storage.in_memory s) k t = table_at s k t
stored_table (Storage.on_disk s) k t = none

abbrev pub session_table : {State : Type 0} → Session State → List ℕ → List ℕ → Option InMemoryTable
session_table session k t = stored_table session.storage k t

abbrev pub with_row : Row → InMemoryTable → InMemoryTable
with_row row table = record table { rows = table.rows ++ row ∷ [] }

abbrev pub inserted_row : InsertStatement → Row
inserted_row statement = record { values = map (λ l. executor_value l.value) statement.values }

-- The rows that a WHERE does not hold of.
unfoldable pub spared : List ColumnSchema → Option Expression → List Row → List Row
unfolding passes
spared columns clause [] = []
spared columns clause (row ∷ rows) =
    let rest = spared columns clause rows in if passes columns clause row then rest else row ∷ rest

clause_predicate-passes :
    (columns : List ColumnSchema) (clause : Option Expression) (p : Row → Bool) (row : Row)
    → clause_predicate columns clause ≡ ok p
    → length row.values ≡ length columns
    → p row ≡ passes columns clause row
unfolding clause_predicate passes without_description
clause_predicate-passes columns none p row e h = ground arith
clause_predicate-passes columns (some expression) p row e h =
    let agree = bind_predicate-bind_expression (λ d. none) columns expression in
    elim (Outcome-cases (bind_expression (λ d. none) columns expression)) [
      | inr (_, failed) ↦ absurd (ground (arith, agree, failed))
      | inl (bound, made) ↦
          let same : bound.predicate ≡ p = ground (arith, agree, made) in
          ap (λ (q : Row → Bool). q row) (sym same)
          ∙ bind_expression-satisfies (λ d. none) columns expression bound row made h
    ]

erase_if-spared :
    (schema : TableSchema) (clause : Option Expression) (p : Row → Bool) (rows : List Row)
    → clause_predicate schema.columns clause ≡ ok p
    → All (IsSized schema) rows
    → erase_if p rows ≡ spared schema.columns clause rows
unfolding erase_if spared
erase_if-spared schema clause p [] e h = refl
erase_if-spared schema clause p (row ∷ rows) e (sized, h) = ground (
  arith,
  clause_predicate-passes schema.columns clause p row e sized,
  erase_if-spared schema clause p rows e h,
)

at_key-changed :
    (s : InMemoryStorage) (K T k t : List ℕ) (old new : InMemoryTable)
    (f : InMemoryTable → InMemoryTable)
    → table_at s K T ≡ some old
    → f old ≡ new
    → at_key K T k t (some new) (table_at s k t)
      ≡ at_key K T k t (Option.map f (table_at s k t)) (table_at s k t)
at_key-changed s K T k t old new f there e = elim (Bool-cases (text_eq K k)) [
  | inr other ↦ rw other refl
  | inl same ↦ elim (Bool-cases (text_eq T t)) [
    | inr other ↦ rw (same, other) refl
    | inl same' ↦
        let here : table_at s k t ≡ some old =
          rw (← (text_eq_iff K k).0 same, ← (text_eq_iff T t).0 same') there in
        rw (same, same', here) (ap some (sym e))
  ]
]

at_key_same :
    (s : InMemoryStorage) (K T k t : List ℕ) (old : InMemoryTable)
    → table_at s K T ≡ some old
    → at_key K T k t (some old) (table_at s k t) ≡ table_at s k t
at_key_same s K T k t old there = elim (Bool-cases (text_eq K k)) [
  | inr other ↦ rw other refl
  | inl same ↦ elim (Bool-cases (text_eq T t)) [
    | inr other ↦ rw (same, other) refl
    | inl same' ↦
        let here : table_at s k t ≡ some old =
          rw (← (text_eq_iff K k).0 same, ← (text_eq_iff T t).0 same') there in
        rw (same, same', here) refl
  ]
]

insert-cases :
    (table : InMemoryTable) (row : Row)
    → (Defs.insert table row ≡ (with_row row table, none))
      ⊎ ((e : RowValidationError) × (Defs.insert table row ≡ (table, some e)))
unfolding Defs.insert
insert-cases table row = elim (Option-cases (validate_row table.schema row)) [
  | inr (e, refused) ↦ inr (e, rw (refused, Defs.insert) refl)
  | inl fits ↦ elim (Option-cases (Defs.check_unique table.schema.columns 0 table.rows row)) [
    | inr (e, refused) ↦ inr (e, rw (fits, Defs.insert) (rw refused refl))
    | inl fresh ↦ inl (rw (fits, Defs.insert) (rw fresh refl))
  ]
]

-- The key of the selected database.
abbrev pub selected_key : Catalog → List ℕ
selected_key c = elim (active_database c) [ none ↦ [] | some name ↦ normalize name ]

selected_table-selected_key :
    (c : Catalog) (name database : List ℕ) (schema : TableSchema)
    → selected_table c name ≡ ok (database, schema)
    → selected_key c ≡ normalize database
unfolding selected_table
selected_table-selected_key c name database schema e = elim (Option-cases (active_database c)) [
  | inl nothing ↦ absurd (ground arith)
  | inr (active, chosen) ↦ elim (Option-cases (find_table c name)) [
    | inl missing ↦ absurd (ground arith)
    | inr (found, there) ↦
        let same : active ≡ database = ground arith in rw (chosen, selected_key) (ap normalize same)
  ]
]

abbrev pub with_spared : Option Expression → InMemoryTable → InMemoryTable
with_spared clause table = record table { rows = spared table.schema.columns clause table.rows }

module _ {State : Type 0} (disk : DiskOperations State) (c : Catalog) (s : InMemoryStorage) where
  -- In memory, with the catalog and the tables in step: an INSERT that is answered as a success appends its
  -- row to the table of its name in the selected database and leaves every other table; an INSERT that is
  -- answered as a failure leaves every table.
  pub execute_insert-session_table :
      (statement : InsertStatement) (k t : List ℕ)
      → IsSound c s
      → session_table (execute_insert disk (in_step c s) statement).0 k t ≡ (
          if (execute_insert disk (in_step c s) statement).1.success
          then at_key
              (selected_key c)
              (normalize statement.table_name)
              k
              t
              (Option.map (with_row (inserted_row statement)) (table_at s k t))
              (table_at s k t)
          else table_at s k t)
  unfolding execute_insert store_row result_of Defs.insert
  execute_insert-session_table statement k t h =
      elim (Outcome-cases (selected_table c statement.table_name)) [
        | inr (_, failed) ↦ rw (failed, execute_insert) refl
        | inl ((database, schema), there) ↦
            let (table, stored, found, same, fit) =
              selected_table-table_at c s database statement.table_name schema h there in
            let key = selected_table-selected_key c statement.table_name database schema there in
            let row = inserted_row statement in
            let new = with_row row table in
            let K = normalize database in
            let T = normalize statement.table_name in
            let written = write_table-table_at s database statement.table_name table in
            elim (insert-cases table row) [
              | inr (e, refused) ↦
                  rw (there, execute_insert)
                    (rw (found, store_row)
                      (rw (ap (λ r. r.1) refused) (
                        rw (ap (λ r. r.0) refused)
                          (written table k t stored ∙ at_key_same s K T k t table stored))))
              | inl accepted ↦
                  rw (there, execute_insert)
                    (rw (found, store_row)
                      (rw (ap (λ r. r.1) accepted) (
                        rw (ap (λ r. r.0) accepted, key)
                          (written new k t stored
                            ∙ at_key-changed s K T k t table new (with_row row) stored refl))))
            ]
      ]

  -- In memory, with the catalog and the tables in step: a DELETE that is answered as a success keeps, in their
  -- order, the rows of the table of its name in the selected database that its WHERE does not hold of, and
  -- leaves every other table; a DELETE that is answered as a failure leaves every table.
  pub execute_delete-spared :
      (statement : DeleteStatement) (k t : List ℕ)
      → IsSound c s
      → session_table (execute_delete disk (in_step c s) statement).0 k t ≡ (
          if (execute_delete disk (in_step c s) statement).1.success
          then at_key
              (selected_key c)
              (normalize statement.table_name)
              k
              t
              (Option.map (with_spared statement.where_clause) (table_at s k t))
              (table_at s k t)
          else table_at s k t)
  unfolding execute_delete remove_rows Defs.delete_where
  execute_delete-spared statement k t h =
      elim (Outcome-cases (selected_table c statement.table_name)) [
        | inr (_, failed) ↦ rw (failed, execute_delete) refl
        | inl ((database, schema), there) ↦
            elim (Outcome-cases (clause_predicate schema.columns statement.where_clause)) [
              | inr (_, failed) ↦ rw (there, execute_delete) (rw failed refl)
              | inl (p, bound) ↦
                  let (table, stored, found, same, fit) =
                    selected_table-table_at c s database statement.table_name schema h there in
                  let key =
                    selected_table-selected_key c statement.table_name database schema there in
                  let kept =
                    erase_if-spared table.schema statement.where_clause p table.rows (rw same bound)
                      (All-IsSized table.schema table refl fit) in
                  rw (there, execute_delete)
                    (rw bound (
                      rw (found, remove_rows)
                        (rw key (
                          write_table-table_at s database statement.table_name table _ k t stored
                          ∙ at_key-changed s (normalize database) (normalize statement.table_name) k
                              t table _ (with_spared statement.where_clause) stored
                              (ap (λ rows. record table { rows = rows }) (sym kept))))))
            ]
      ]
