-- ===== src/Execution/Planner/Answers.antt =====
-- src/execution/planner.cpp: executing the plan of a SELECT gives the answers that the statement means.
use curiodb.Prelude.{
  ℕ, ◌+◌, ◌≡◌, inl, inr, refl, List, [], ◌∷◌, ◌++◌, Option, some, map, length, get_elem?, All,
  arith, append_assoc, Bool-cases, Option-cases,
}
use curiodb.Prelude.Outcome.{ok, Outcome-cases}
use curiodb.Types.{Value, to_string}
use curiodb.Catalog.Schema.{ColumnSchema, TableSchema, normalize, find_column}
use curiodb.Storage.Row.{Row, at}
use curiodb.Sql.Ast.{SelectColumn, SelectStatement}
use curiodb.Execution.Operators.{filter_rows, project_row, project_rows}
use curiodb.Execution.Planner.Defs.{StoredIndex, PlanNode}
use curiodb.Execution.Planner.Plan.{
  plan_scan, plan_filter, all_columns, select_columns, contains_index, requested_columns,
  plan_select, execute_plan,
}
use curiodb.Execution.Planner.Meaning.{
  field, passes, shown, answer_row, answers, IsSized, find_column-field, execute_rows-plan_filter,
}

get_elem?-append :
    (front rest : List Value) (v : Value) → get_elem? (front ++ v ∷ rest) (length front) ≡ some v
get_elem?-append [] rest v = refl
get_elem?-append (w ∷ front) rest v = get_elem?-append front rest v

length-snoc : (front : List Value) (v : Value) → length (front ++ v ∷ []) ≡ length front + 1
length-snoc [] v = refl
length-snoc (w ∷ front) v = omega (arith, length-snoc front v)

project_row-all_columns :
    (print_double : ℕ → Option (List ℕ)) (columns : List ColumnSchema) (front values : List Value)
    → length values ≡ length columns
    → project_row print_double
        (record { values = front ++ values })
        (all_columns (length front) columns).0
      ≡ some (map (to_string print_double) values)
unfolding all_columns project_row at
project_row-all_columns print_double [] front [] h = refl
project_row-all_columns print_double [] front (v ∷ values) h = absurd (ground arith)
project_row-all_columns print_double (c ∷ columns) front [] h = absurd (ground arith)
project_row-all_columns print_double (c ∷ columns) front (v ∷ values) h =
    let rest =
      project_row-all_columns print_double columns (front ++ v ∷ []) values (omega arith) in
    let rest' = rw (append_assoc, length-snoc front v) at rest in
    rw (project_row, get_elem?-append front values v, rest') refl

project_row-select_columns :
    (print_double : ℕ → Option (List ℕ)) (columns : List ColumnSchema)
    (requested : List SelectColumn) (selected indexes : List ℕ) (names : List (List ℕ)) (row : Row)
    → select_columns columns requested selected ≡ ok (indexes, names)
    → length row.values ≡ length columns
    → project_row print_double row indexes
      ≡ some (map (λ r. shown print_double (field (normalize r.name) columns row.values)) requested)
unfolding select_columns project_row shown at
project_row-select_columns print_double columns [] selected indexes names row e h =
    let same : [] ≡ indexes = ground (arith, e) in rw (← same) refl
project_row-select_columns print_double columns (r ∷ requested) selected indexes names row e h =
    elim (Option-cases (find_column (normalize r.name) columns)) [
      | inl missing ↦ absurd (ground arith)
      | inr ((i, column), found) ↦
          let (v, there, named) =
            find_column-field (normalize r.name) columns row.values i column found h in
          elim (Bool-cases (contains_index i selected)) [
            | inl twice ↦ absurd (ground arith)
            | inr once ↦ elim (Outcome-cases (select_columns columns requested (i ∷ selected))) [
              | inr (_, failed) ↦ absurd (ground arith)
              | inl ((is, ns), made) ↦
                  let same : i ∷ is ≡ indexes = ground arith in
                  let rest =
                    project_row-select_columns print_double columns requested (i ∷ selected) is ns
                      row made h in
                  rw (← same, named, project_row, there, rest) refl
            ]
          ]
    ]

project_row-requested_columns :
    (print_double : ℕ → Option (List ℕ)) (columns : List ColumnSchema)
    (requested : List SelectColumn) (indexes : List ℕ) (names : List (List ℕ)) (row : Row)
    → requested_columns columns requested ≡ ok (indexes, names)
    → length row.values ≡ length columns
    → project_row print_double row indexes ≡ some (answer_row print_double columns requested row)
unfolding requested_columns answer_row
project_row-requested_columns print_double columns [] indexes names row e h =
    let same : (all_columns 0 columns).0 ≡ indexes = ground (arith, e) in
    rw (← same) (project_row-all_columns print_double columns [] row.values h)
project_row-requested_columns print_double columns (r ∷ requested) indexes names row e h =
    project_row-select_columns print_double columns (r ∷ requested) [] indexes names row e h

project_rows-answers :
    (print_double : ℕ → Option (List ℕ)) (schema : TableSchema) (statement : SelectStatement)
    (indexes : List ℕ) (names : List (List ℕ)) (rows : List Row)
    → requested_columns schema.columns statement.columns ≡ ok (indexes, names)
    → All (IsSized schema) rows
    → project_rows print_double
        (filter_rows rows (passes schema.columns statement.where_clause))
        indexes
      ≡ some (answers print_double schema statement rows)
unfolding project_rows filter_rows answers
project_rows-answers print_double schema statement indexes names [] e h = refl
project_rows-answers print_double schema statement indexes names (row ∷ rows) e (sized, h) =
    let rest = project_rows-answers print_double schema statement indexes names rows e h in
    elim (Bool-cases (passes schema.columns statement.where_clause row)) [
      | inr out ↦ rw out rest
      | inl kept ↦
          let line =
            project_row-requested_columns print_double schema.columns statement.columns indexes
              names row e sized in
          rw (kept, project_rows, line, rest) refl
    ]

-- Executing the plan of a SELECT over rows that have a value for each column gives the answers that
-- the statement means: no read is outside a row, and for each row that WHERE holds of, in their
-- order, the texts of the columns that are asked for, found by their names.
pub execute_plan-plan_select :
    (print_double : ℕ → Option (List ℕ)) (statement : SelectStatement) (schema : TableSchema)
    (indexes : List StoredIndex) (plan : PlanNode) (rows : List Row)
    → plan_select print_double statement schema indexes ≡ ok plan
    → All (IsSized schema) rows
    → execute_plan print_double plan rows ≡ some (answers print_double schema statement rows)
unfolding plan_select execute_plan
execute_plan-plan_select print_double statement schema indexes plan rows e h =
    let scan = plan_scan schema indexes statement.where_clause in
    elim (Outcome-cases (plan_filter print_double schema statement.where_clause scan)) [
      | inr (_, failed) ↦ absurd (ground arith)
      | inl (node, filtered) ↦
          elim (Outcome-cases (requested_columns schema.columns statement.columns)) [
            | inr (_, failed) ↦ absurd (ground arith)
            | inl ((is, ns), columns) ↦
                let same : PlanNode.projection is ns node ≡ plan = ground arith in
                rw
                  (
                    ← same,
                    execute_plan,
                    execute_rows-plan_filter print_double schema indexes statement.where_clause node
                        rows filtered h,
                  )
                  (project_rows-answers print_double schema statement is ns rows columns h)
          ]
    ]
