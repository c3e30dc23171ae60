-- ===== src/Execution/Planner/Plan.antt =====
-- src/execution/planner.cpp: `plan_select`, `format_plan` and `execute_plan`.
use curiodb.Prelude.{
  ℕ, ◌+◌, ◌*◌, ◌==◌, Bool, true, false, ◌&&◌, ◌||◌, List, [], ◌∷◌, ◌++◌, Option, none, some,
  replicate, if◌then◌else◌, is_some,
}
use curiodb.Prelude.Int.{ℤ}
use curiodb.Prelude.Text.{text, text_eq, decimal_int}
use curiodb.Prelude.Outcome.{Outcome, ok, err, ◌>>=◌, ◌>>◌, reject}
use curiodb.Catalog.Schema.{ColumnSchema, TableSchema, normalize, find_column}
use curiodb.Storage.Row.{Row}
use curiodb.Sql.Ast.{
  LiteralValue, ComparisonOperator, ComparisonExpression, Expression, SelectColumn, SelectStatement,
}
use curiodb.Execution.Operators.{filter_rows, project_rows}
use curiodb.Execution.Planner.Defs.{
  StoredIndex, PlanNode, PlannerError, unknown_column, bind_expression,
}

unfoldable pub is_equal_test : ComparisonOperator → Bool
is_equal_test ComparisonOperator.equal = true
is_equal_test _ = false

-- `std::get_if<std::int64_t>`
unfoldable pub integer_key : LiteralValue → Option ℤ
integer_key (LiteralValue.integer n) = some n
integer_key _ = none

unfoldable pub find_index : ComparisonExpression → List StoredIndex → Option StoredIndex
find_index comparison [] = none
find_index comparison (candidate ∷ indexes) =
    if text_eq (normalize candidate.column_name) (normalize comparison.column_name)
      && (is_equal_test comparison.operation && is_some (integer_key comparison.value.value))
    then some candidate
    else find_index comparison indexes

-- The scan that `current` is first; `find_index` finds nothing where there is no integer.
unfoldable pub plan_comparison :
    TableSchema → ComparisonExpression → Option StoredIndex → Option ℤ → PlanNode
plan_comparison schema comparison (some index) (some key) =
    PlanNode.index_scan schema.name index.name index.column_name key
plan_comparison schema comparison _ _ = PlanNode.sequential_scan schema.name

unfoldable pub plan_scan : TableSchema → List StoredIndex → Option Expression → PlanNode
unfolding plan_comparison
plan_scan schema indexes (some (Expression.comparison comparison)) =
    plan_comparison schema comparison (find_index comparison indexes)
      (integer_key comparison.value.value)
plan_scan schema indexes _ = PlanNode.sequential_scan schema.name

unfoldable pub plan_filter :
    (ℕ → Option (List ℕ))
    → TableSchema
    → Option Expression
    → PlanNode
    → Outcome PlannerError PlanNode
plan_filter print_double schema none current = ok current
plan_filter print_double schema (some expression) current = do
  bound ← bind_expression print_double schema.columns expression
  ok (PlanNode.filter bound.predicate bound.description current)

-- `SELECT *`: every column, from the column `index` on.
unfoldable pub all_columns : ℕ → List ColumnSchema → List ℕ × List (List ℕ)
all_columns index [] = ([], [])
all_columns index (column ∷ columns) =
    let (indexes, names) = all_columns (index + 1) columns in (index ∷ indexes, column.name ∷ names)

unfoldable pub contains_index : ℕ → List ℕ → Bool
contains_index index [] = false
contains_index index (i ∷ selected) = (i == index) || contains_index index selected

-- The loop over the requested columns, with the indexes that are selected so far.
unfoldable pub select_columns :
    List ColumnSchema → List SelectColumn → List ℕ → Outcome PlannerError (List ℕ × List (List ℕ))
select_columns columns [] selected = ok ([], [])
select_columns columns (requested ∷ rest) selected =
    elim (find_column (normalize requested.name) columns) [
      | none ↦ err (unknown_column requested.name)
      | some (index, column) ↦ do
        reject (contains_index index selected) (record {
          message = text "column '" ++ (requested.name ++ text "' selected more than once");
        })
        (indexes, names) ← select_columns columns rest (index ∷ selected)
        ok (index ∷ indexes, column.name ∷ names)
    ]

unfoldable pub requested_columns :
    List ColumnSchema → List SelectColumn → Outcome PlannerError (List ℕ × List (List ℕ))
unfolding all_columns select_columns
requested_columns columns [] = ok (all_columns 0 columns)
requested_columns columns (requested ∷ rest) = select_columns columns (requested ∷ rest) []

unfoldable pub plan_select :
    (ℕ → Option (List ℕ))
    → SelectStatement
    → TableSchema
    → List StoredIndex
    → Outcome PlannerError PlanNode
unfolding plan_filter plan_scan requested_columns
plan_select print_double statement schema indexes = do
  current ←
      plan_filter print_double schema statement.where_clause
        (plan_scan schema indexes statement.where_clause)
  (column_indexes, names) ← requested_columns schema.columns statement.columns
  ok (PlanNode.projection column_indexes names current)

-- The names with ", " between them.
unfoldable pub join_names : List (List ℕ) → List ℕ
join_names [] = []
join_names (name ∷ []) = name
join_names (name ∷ other ∷ names) = name ++ (text ", " ++ join_names (other ∷ names))

-- The lines of a plan, each with its line end.
unfoldable pub format_node : PlanNode → ℕ → List ℕ
unfolding join_names
format_node (PlanNode.sequential_scan table_name) depth =
    replicate (depth * 2) b' '
    ++ (text "SequentialScan(table=" ++ (table_name ++ (text ")" ++ b'\n' ∷ [])))
format_node (PlanNode.index_scan table_name index_name column_name key) depth =
    replicate (depth * 2) b' '
    ++ (text "IndexScan(index="
        ++ (index_name
            ++ (text ", condition="
                ++ (column_name ++ (text " = " ++ (decimal_int key ++ (text ")" ++ b'\n' ∷ [])))))))
format_node (PlanNode.filter predicate description child) depth =
    replicate (depth * 2) b' '
    ++ (text "Filter(condition="
        ++ (description ++ (text ")" ++ b'\n' ∷ format_node child (depth + 1))))
format_node (PlanNode.projection column_indexes column_names child) depth =
    replicate (depth * 2) b' '
    ++ (text "Projection(columns="
        ++ (join_names column_names ++ (text ")" ++ b'\n' ∷ format_node child (depth + 1))))

-- `pop_back`, where there is a byte.
unfoldable pub pop_back : List ℕ → List ℕ
pop_back [] = []
pop_back (byte ∷ []) = []
pop_back (byte ∷ next ∷ rest) = byte ∷ pop_back (next ∷ rest)

unfoldable pub format_plan : PlanNode → List ℕ
unfolding format_node pop_back
format_plan plan = pop_back (format_node plan 0)

-- `none` is the exception of `std::get<FilterPlan>`.
unfoldable pub execute_rows : PlanNode → List Row → Option (List Row)
execute_rows (PlanNode.sequential_scan table_name) rows = some rows
execute_rows (PlanNode.index_scan table_name index_name column_name key) rows = some rows
execute_rows (PlanNode.filter predicate description child) rows = elim (execute_rows child rows) [
  | none ↦ none
  | some input ↦ some (filter_rows input predicate)
]
execute_rows (PlanNode.projection column_indexes column_names child) rows = none

-- `none` is that exception, or a read outside a row.
unfoldable pub execute_plan :
    (ℕ → Option (List ℕ)) → PlanNode → List Row → Option (List (List (List ℕ)))
unfolding execute_rows
execute_plan print_double (PlanNode.projection column_indexes column_names child) rows =
    elim (execute_rows child rows) [
      | none ↦ none
      | some input ↦ project_rows print_double input column_indexes
    ]
execute_plan print_double _ rows = some []
