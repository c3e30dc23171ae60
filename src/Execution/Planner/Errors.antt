-- ===== src/Execution/Planner/Errors.antt =====
-- src/execution/planner.cpp: which SELECTs have a plan.
use curiodb.Prelude.{
  ℕ, suc, ◌+◌, ◌≡◌, inl, inr, refl, Bool, true, false, not, ◌&&◌, ◌||◌, List, [], ◌∷◌, Option, none,
  some, get_elem?, arith, Bool-cases, Option-cases, is_some, ◌==◌, ==_iff,
}
use curiodb.Prelude.Text.{text_eq, text_eq_iff}
use curiodb.Catalog.Schema.{ColumnSchema, TableSchema, normalize, find_column}
use curiodb.Sql.Ast.{Expression, SelectColumn, SelectStatement}
use curiodb.Execution.Planner.Defs.{StoredIndex, PlanNode}
use curiodb.Execution.Planner.Plan.{
  plan_scan, plan_filter, contains_index, select_columns, requested_columns, plan_select,
}
use curiodb.Execution.Planner.Bound.{
  kind_of, is_clause, is_ok, find_column-kind_of, find_column-none, bind_expression-is_ok,
}

-- A name, in any case, is among the columns that are asked for.
unfoldable pub is_asked : List ℕ → List SelectColumn → Bool
is_asked name [] = false
is_asked name (r ∷ requested) = text_eq (normalize r.name) name || is_asked name requested

-- Every column that is asked for is there, and none is asked for twice.
unfoldable pub is_selection : List ColumnSchema → List SelectColumn → Bool
unfolding is_asked kind_of
is_selection columns [] = true
is_selection columns (r ∷ requested) =
    is_some (kind_of (normalize r.name) columns)
    && (not (is_asked (normalize r.name) requested) && is_selection columns requested)

-- The index that is found for a name holds a column of that name.
pub find_column-at :
    (name : List ℕ) (columns : List ColumnSchema) (index : ℕ) (column : ColumnSchema)
    → find_column name columns ≡ some (index, column)
    → (get_elem? columns index ≡ some column) × (normalize column.name ≡ name)
unfolding find_column
find_column-at name [] index column e = absurd (ground arith)
find_column-at name (c ∷ columns) index column e =
    elim (Bool-cases (text_eq (normalize c.name) name)) [
      | inl same ↦
          let first : 0 ≡ index = ground arith in
          let there : c ≡ column = ground arith in
          rw (← first, ← there) (refl, (text_eq_iff _ _).0 same)
      | inr other ↦ elim (Option-cases (find_column name columns)) [
        | inl missing ↦ absurd (ground arith)
        | inr ((i, d), found) ↦
            let next : i + 1 ≡ index = ground arith in
            let after : suc i ≡ index = omega arith in
            let there : d ≡ column = ground arith in
            rw (← after, ← there) (find_column-at name columns i d found)
      ]
    ]

-- Two names with a column have the same index just where they are the same name.
find_column-index :
    (a b : List ℕ) (columns : List ColumnSchema) (i j : ℕ) (c d : ColumnSchema)
    → find_column a columns ≡ some (i, c)
    → find_column b columns ≡ some (j, d)
    → (i == j) ≡ text_eq b a
find_column-index a b columns i j c d found found' = ground (
  arith,
  text_eq_iff b a,
  ==_iff i j,
  found,
  found',
  find_column-at a columns i c found,
  find_column-at b columns j d found',
)

-- None of the columns that are asked for has its index among those that are selected.
abbrev is_new : Option (ℕ × ColumnSchema) → List ℕ → Bool
is_new none selected = true
is_new (some (index, column)) selected = not (contains_index index selected)

abbrev are_new : List ColumnSchema → List SelectColumn → List ℕ → Bool
are_new columns [] selected = true
are_new columns (r ∷ requested) selected =
    is_new (find_column (normalize r.name) columns) selected && are_new columns requested selected

are_new-nil :
    (columns : List ColumnSchema) (requested : List SelectColumn)
    → are_new columns requested [] ≡ true
unfolding contains_index
are_new-nil columns [] = refl
are_new-nil columns (r ∷ requested) = ground (arith, are_new-nil columns requested)

are_new-cons :
    (columns : List ColumnSchema) (requested : List SelectColumn) (name : List ℕ) (i : ℕ)
    (c : ColumnSchema) (selected : List ℕ)
    → find_column name columns ≡ some (i, c)
    → are_new columns requested (i ∷ selected)
      ≡ (not (is_asked name requested) && are_new columns requested selected)
unfolding is_asked contains_index
are_new-cons columns [] name i c selected found = refl
are_new-cons columns (r ∷ requested) name i c selected found =
    let rest = are_new-cons columns requested name i c selected found in
    elim (Option-cases (find_column (normalize r.name) columns)) [
      | inl missing ↦ ground (arith, rest, text_eq_iff (normalize r.name) name)
      | inr ((j, d), found') ↦
          ground
            (arith, rest, find_column-index name (normalize r.name) columns i j c d found found')
    ]

select_columns-is_ok :
    (columns : List ColumnSchema) (requested : List SelectColumn) (selected : List ℕ)
    → is_ok (select_columns columns requested selected)
      ≡ (is_selection columns requested && are_new columns requested selected)
unfolding select_columns is_selection is_ok
select_columns-is_ok columns [] selected = refl
select_columns-is_ok columns (r ∷ requested) selected =
    elim (Option-cases (find_column (normalize r.name) columns)) [
      | inl missing ↦ ground (arith, find_column-none _ columns missing)
      | inr ((i, c), found) ↦ ground (
        arith,
        find_column-kind_of _ columns i c found,
        select_columns-is_ok columns requested (i ∷ selected),
        are_new-cons columns requested (normalize r.name) i c selected found,
      )
    ]

plan_filter-is_ok :
    (print_double : ℕ → Option (List ℕ)) (schema : TableSchema) (clause : Option Expression)
    (scan : PlanNode)
    → is_ok (plan_filter print_double schema clause scan) ≡ is_clause schema.columns clause
unfolding plan_filter is_clause is_ok
plan_filter-is_ok print_double schema none scan = refl
plan_filter-is_ok print_double schema (some expression) scan =
    ground (arith, bind_expression-is_ok print_double schema.columns expression)

requested_columns-is_ok :
    (columns : List ColumnSchema) (requested : List SelectColumn)
    → is_ok (requested_columns columns requested) ≡ is_selection columns requested
unfolding requested_columns is_ok is_selection
requested_columns-is_ok columns [] = refl
requested_columns-is_ok columns (r ∷ requested) =
    ground
      (arith, select_columns-is_ok columns (r ∷ requested) [], are_new-nil columns (r ∷ requested))

-- A SELECT has a plan just where every comparison of its WHERE names a column of the table, with a
-- literal that is NULL or of the column's type, and the columns that are asked for are columns of the
-- table, none asked for twice in whatever case.
pub plan_select-is_ok :
    (print_double : ℕ → Option (List ℕ)) (statement : SelectStatement) (schema : TableSchema)
    (indexes : List StoredIndex)
    → is_ok (plan_select print_double statement schema indexes) ≡ (
        is_clause schema.columns statement.where_clause
        && is_selection schema.columns statement.columns)
unfolding plan_select is_ok
plan_select-is_ok print_double statement schema indexes = ground (
  arith,
  plan_filter-is_ok print_double schema statement.where_clause
      (plan_scan schema indexes statement.where_clause),
  requested_columns-is_ok schema.columns statement.columns,
)
