-- ===== src/Execution/Executor/Results.antt =====
-- src/execution/statement_executor.cpp: what the statements on a table do to its rows, and answer.
use curiodb.Prelude.{
  ℕ, ◌+◌, ◌≡◌, inl, inr, refl, ap, ◌∙◌, true, List, [], ◌∷◌, Option, some, All, arith, length, map,
  if◌then◌else◌, Bool-cases, Option-cases,
}
use curiodb.Prelude.Text.{text_eq}
use curiodb.Prelude.Outcome.{ok, Outcome-cases}
use curiodb.Catalog.Schema.{ColumnSchema, TableSchema, normalize, find_column}
use curiodb.Catalog.Defs.{Catalog}
use curiodb.Storage.Row.{Row}
use curiodb.Storage.Validation.Fits.{Fits, Fits-length}
use curiodb.Storage.Memory.Defs
use curiodb.Storage.Memory.Defs.{InMemoryTable, InMemoryStorage, erase_if}
use curiodb.Sql.Ast.{SelectColumn, SelectStatement}
use curiodb.Execution.Operators.{scan_rows}
use curiodb.Execution.Planner.Defs.{PlanNode}
use curiodb.Execution.Planner.Plan.{
  plan_select, requested_columns, plan_filter, plan_scan, all_columns, select_columns,
  contains_index,
}
use curiodb.Execution.Planner.Meaning.{IsSized, answers}
use curiodb.Execution.Planner.Answers.{execute_plan-plan_select}
use curiodb.Execution.Executor.Defs.{DiskOperations, planned_rows, available_indexes}
use curiodb.Execution.Executor.Statements.{selected_table, counted, column_names_of, selected_rows}
use curiodb.Execution.Executor.Execute.{execute_select}
use curiodb.Execution.Executor.Sound.{IsFit, IsSound, selected_table-table_at}
use curiodb.Execution.Executor.Steps.{in_step}

pub All-IsSized :
    (schema : TableSchema) (table : InMemoryTable)
    → table.schema ≡ schema
    → IsFit table
    → All (IsSized schema) table.rows
All-IsSized schema table same fit = rw (← same) (go table.rows fit)
  where
    go :
        (rows : List Row)
        → All (λ r. Fits table.schema.columns r.values) rows
        → All (IsSized table.schema) rows
    go [] h = tt
    go (row ∷ rows) (h, hs) = (Fits-length table.schema.columns row.values h, go rows hs)

-- The name of the first column that has a name in lower case.
unfoldable pub title : List ℕ → List ColumnSchema → List ℕ
title name [] = []
title name (column ∷ columns) =
    let rest = title name columns in
    if text_eq (normalize column.name) name then column.name else rest

-- The names over an answer: of all columns for `*`, or as the schema spells those that are asked for.
unfoldable pub titles : List ColumnSchema → List SelectColumn → List (List ℕ)
unfolding title
titles columns [] = map (λ (c : ColumnSchema). c.name) columns
titles columns (requested ∷ rest) = map (λ r. title (normalize r.name) columns) (requested ∷ rest)

find_column-title :
    (name : List ℕ) (columns : List ColumnSchema) (index : ℕ) (column : ColumnSchema)
    → find_column name columns ≡ some (index, column)
    → title name columns ≡ column.name
unfolding find_column title
find_column-title name [] index column e = absurd (ground arith)
find_column-title name (c ∷ columns) index column e =
    elim (Bool-cases (text_eq (normalize c.name) name)) [
      | inl same ↦
          let here : c ≡ column = ground arith in rw same (ap (λ (d : ColumnSchema). d.name) here)
      | inr other ↦ elim (Option-cases (find_column name columns)) [
        | inl missing ↦ absurd (ground arith)
        | inr ((i, d), found) ↦
            let there : d ≡ column = ground arith in
            rw other
              (find_column-title name columns i d found ∙ ap (λ (d : ColumnSchema). d.name) there)
      ]
    ]

all_columns-titles :
    (index : ℕ) (columns : List ColumnSchema)
    → (all_columns index columns).1 ≡ map (λ (c : ColumnSchema). c.name) columns
unfolding all_columns
all_columns-titles index [] = refl
all_columns-titles index (c ∷ columns) =
    ap (λ names. c.name ∷ names) (all_columns-titles (index + 1) columns)

select_columns-titles :
    (columns : List ColumnSchema) (requested : List SelectColumn) (selected indexes : List ℕ)
    (names : List (List ℕ))
    → select_columns columns requested selected ≡ ok (indexes, names)
    → names ≡ map (λ (r : SelectColumn). title (normalize r.name) columns) requested
unfolding select_columns
select_columns-titles columns [] selected indexes names e = ground arith
select_columns-titles columns (r ∷ requested) selected indexes names e =
    elim (Option-cases (find_column (normalize r.name) columns)) [
      | inl missing ↦ absurd (ground arith)
      | inr ((i, c), found) ↦ elim (Bool-cases (contains_index i selected)) [
        | inl again ↦ absurd (ground arith)
        | inr once ↦ elim (Outcome-cases (select_columns columns requested (i ∷ selected))) [
          | inr (_, failed) ↦ absurd (ground arith)
          | inl ((is, ns), made) ↦
              let both : names ≡ c.name ∷ ns = ground arith in
              both
              ∙ rw (find_column-title (normalize r.name) columns i c found) (
                  ap (λ names. c.name ∷ names)
                    (select_columns-titles columns requested (i ∷ selected) is ns made))
        ]
      ]
    ]

requested_columns-titles :
    (columns : List ColumnSchema) (requested : List SelectColumn) (indexes : List ℕ)
    (names : List (List ℕ))
    → requested_columns columns requested ≡ ok (indexes, names)
    → names ≡ titles columns requested
unfolding requested_columns titles
requested_columns-titles columns [] indexes names e =
    let same : names ≡ (all_columns 0 columns).1 = ground arith in
    same ∙ all_columns-titles 0 columns
requested_columns-titles columns (r ∷ requested) indexes names e =
    select_columns-titles columns (r ∷ requested) [] indexes names e

-- A plan of SELECT is a projection.
plan_select-column_names_of :
    (print_double : ℕ → Option (List ℕ)) (statement : SelectStatement) (schema : TableSchema)
    (plan : PlanNode)
    → plan_select print_double statement schema [] ≡ ok plan
    → (indexes : List ℕ) × (names : List (List ℕ)) × (requested_columns schema.columns
          statement.columns
        ≡ ok (indexes, names))
      × (column_names_of plan ≡ some names)
unfolding plan_select column_names_of
plan_select-column_names_of print_double statement schema plan e =
    elim (Outcome-cases (
      plan_filter print_double schema statement.where_clause
        (plan_scan schema [] statement.where_clause))) [
          | inr (_, failed) ↦ absurd (ground arith)
          | inl (node, made) ↦
              elim (Outcome-cases (requested_columns schema.columns statement.columns)) [
                | inr (_, failed) ↦ absurd (ground arith)
                | inl ((is, ns), requested) ↦ (is, ns, requested, ground arith)
              ]
        ]

module _ {State : Type 0} (disk : DiskOperations State) (c : Catalog) (s : InMemoryStorage) where
  -- In memory, with the catalog and the tables in step: a SELECT whose table is found and that can be planned is
  -- answered, and changes nothing. The answer has the names of all columns for `*`, or of the columns
  -- that are asked for, as the schema spells them, and the lines that the statement means over the rows of
  -- the table, which the storage holds.
  pub execute_select-answers :
      (print_double : ℕ → Option (List ℕ)) (statement : SelectStatement) (database : List ℕ)
      (schema : TableSchema) (plan : PlanNode)
      → IsSound c s
      → selected_table c statement.table_name ≡ ok (database, schema)
      → plan_select print_double statement schema [] ≡ ok plan
      → (table : InMemoryTable) × (Defs.find_table s database statement.table_name ≡ some table)
        × (execute_select disk print_double (in_step c s) statement ≡ (
          in_step c s,
          some (record {
            success = true;
            message =
                counted
                  (length (answers print_double schema statement table.rows))
                  " row selected."
                  " rows selected.";
            query = some (record {
              columns = titles schema.columns statement.columns;
              rows = answers print_double schema statement table.rows;
            });
          }),
        ))
  unfolding execute_select planned_rows available_indexes selected_rows scan_rows
  execute_select-answers print_double statement database schema plan h there made =
      let (table, stored, found, same, fit) =
        selected_table-table_at c s database statement.table_name schema h there in
      let (indexes, names, requested, named) =
        plan_select-column_names_of print_double statement schema plan made in
      let spelt =
        requested_columns-titles schema.columns statement.columns indexes names requested in
      let lines =
        execute_plan-plan_select print_double statement schema [] plan table.rows made
          (All-IsSized schema table same fit) in
      (
        table,
        found,
        rw (there, execute_select)
            (rw made
              (rw (found, planned_rows) (rw (named, selected_rows) (rw (lines, spelt) refl)))),
      )
