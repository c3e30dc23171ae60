-- ===== src/Execution/Planner/Defs.antt =====
-- src/execution/planner.cpp: binding of WHERE, plans, their text and their execution.
use curiodb.Prelude.{
  ℕ, Bool, true, false, not, ◌&&◌, ◌||◌, List, ◌++◌, Option, none, some, if◌then◌else◌,
}
use curiodb.Prelude.Int.{ℤ}
use curiodb.Prelude.Text.{text}
use curiodb.Prelude.Outcome.{Outcome, ok, err, ◌>>=◌}
use curiodb.Types.{Value, is_null, value_type, kind_eq, format_data_type, to_string}
use curiodb.Types.Order.{value_eq, compare, is_lt, is_lteq, is_gt, is_gteq}
use curiodb.Catalog.Schema.{ColumnSchema, normalize, find_column}
use curiodb.Storage.Row.{Row, at}
use curiodb.Storage.Validation.Defs.{value_type_name}
use curiodb.Sql.Ast.{
  LiteralValue, ComparisonOperator, ComparisonExpression, LogicalOperator, Expression,
}

-- `catalog::StoredIndex`, of which the planner reads the names.
pub record StoredIndex : Type 0 where
  pub name : List ℕ
  pub column_name : List ℕ
  pub root_page_id : Option ℕ

pub data PlanNode : Type 0 where
  sequential_scan : (table_name : List ℕ) → PlanNode
  index_scan : (table_name index_name column_name : List ℕ) → (key : ℤ) → PlanNode
  filter : (predicate : Row → Bool) → (description : List ℕ) → (child : PlanNode) → PlanNode
  projection :
      (column_indexes : List ℕ) → (column_names : List (List ℕ)) → (child : PlanNode) → PlanNode

pub record PlannerError : Type 0 where
  pub message : List ℕ

unfoldable pub value_from_literal : LiteralValue → Value
value_from_literal LiteralValue.null = Value.null
value_from_literal (LiteralValue.integer n) = Value.integer n
value_from_literal (LiteralValue.double d) = Value.double d
value_from_literal (LiteralValue.string s) = Value.varchar s

-- The `switch` of `matches`.
unfoldable pub compares : ComparisonOperator → Value → Value → Bool
compares ComparisonOperator.equal left right = value_eq left right
compares ComparisonOperator.not_equal left right = not (value_eq left right)
compares ComparisonOperator.less_than left right = is_lt (compare left right)
compares ComparisonOperator.less_than_or_equal left right = is_lteq (compare left right)
compares ComparisonOperator.greater_than left right = is_gt (compare left right)
compares ComparisonOperator.greater_than_or_equal left right = is_gteq (compare left right)
compares ComparisonOperator.is_null left right = false
compares ComparisonOperator.is_not_null left right = false

unfoldable pub is_null_test : ComparisonOperator → Bool
is_null_test ComparisonOperator.is_null = true
is_null_test _ = false

unfoldable pub is_not_null_test : ComparisonOperator → Bool
is_not_null_test ComparisonOperator.is_not_null = true
is_not_null_test _ = false

unfoldable pub matches : Value → ComparisonOperator → Value → Bool
unfolding is_null_test is_not_null_test
matches left operation right =
    if is_null_test operation
    then is_null left
    else if is_not_null_test operation
    then not (is_null left)
    else if is_null left || is_null right
    then false
    else compares operation left right

unfoldable pub comparison_name : ComparisonOperator → List ℕ
comparison_name ComparisonOperator.equal = text "="
comparison_name ComparisonOperator.not_equal = text "!="
comparison_name ComparisonOperator.less_than = text "<"
comparison_name ComparisonOperator.less_than_or_equal = text "<="
comparison_name ComparisonOperator.greater_than = text ">"
comparison_name ComparisonOperator.greater_than_or_equal = text ">="
comparison_name ComparisonOperator.is_null = text "IS"
comparison_name ComparisonOperator.is_not_null = text "IS NOT"

pub record BoundPredicate : Type 0 where
  pub predicate : Row → Bool
  pub description : List ℕ

unfoldable pub unknown_column : List ℕ → PlannerError
unknown_column name = record { message = text "column '" ++ (name ++ text "' does not exist") }

-- `matches(row[index], operation, value)`. The source reads past a row that is too short, which is
-- undefined; here the test is false. The rows of a table have a value in every column.
unfoldable pub matches_at : Option Value → ComparisonOperator → Value → Bool
matches_at none operation value = false
matches_at (some left) operation value = matches left operation value

unfoldable pub is_conjunction : LogicalOperator → Bool
is_conjunction LogicalOperator.conjunction = true
is_conjunction LogicalOperator.disjunction = false

unfoldable pub bind_logical : Bool → BoundPredicate → BoundPredicate → BoundPredicate
bind_logical is_and left right = record {
  predicate = λ row.
      if is_and
      then left.predicate row && right.predicate row
      else left.predicate row || right.predicate row;
  description =
      text "("
      ++ (left.description
          ++ ((if is_and then text " AND " else text " OR ") ++ (right.description ++ text ")")));
}

unfoldable pub bind_comparison :
    (ℕ → Option (List ℕ))
    → List ColumnSchema
    → ComparisonExpression
    → Outcome PlannerError BoundPredicate
unfolding unknown_column
bind_comparison print_double columns comparison =
    elim (find_column (normalize comparison.column_name) columns) [
      | none ↦ err (unknown_column comparison.column_name)
      | some (index, column) ↦
          let value = value_from_literal comparison.value.value in
          if not (is_null value) && not (kind_eq (value_type value) column.type.kind)
          then err (record {
            message =
                text "column '"
                ++ (column.name
                    ++ (text "': expected "
                        ++ (format_data_type column.type
                            ++ (text ", received " ++ value_type_name (value_type value)))));
          })
          else ok (record {
            predicate = λ row. matches_at (at row index) comparison.operation value;
            description =
                column.name
                ++ (text " "
                    ++ (comparison_name comparison.operation
                        ++ (text " " ++ to_string print_double value)));
          })
    ]

unfoldable pub bind_expression :
    (ℕ → Option (List ℕ)) → List ColumnSchema → Expression → Outcome PlannerError BoundPredicate
unfolding bind_comparison bind_logical
bind_expression print_double columns (Expression.comparison comparison) =
    bind_comparison print_double columns comparison
bind_expression print_double columns Expression.null_logical =
    err (record { message = text "invalid WHERE expression" })
bind_expression print_double columns (Expression.logical operation left right location) = do
  bound_left ← bind_expression print_double columns left
  bound_right ← bind_expression print_double columns right
  ok (bind_logical (is_conjunction operation) bound_left bound_right)
