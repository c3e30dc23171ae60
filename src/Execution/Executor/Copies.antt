-- ===== src/Execution/Executor/Copies.antt =====
-- src/execution/statement_executor.cpp: the functions of its anonymous namespace that planner.cpp and
-- row_validation.cpp have too.
use curiodb.Prelude.{
  ℕ, ◌+◌, ◌≡◌, refl, false, Bool, not, ◌||◌, List, [], ◌∷◌, Option, none, some, map, if◌then◌else◌,
}
use curiodb.Prelude.Text.{text, text_eq, to_lower}
use curiodb.Types.{Value, is_null, DataTypeKind}
use curiodb.Types.Order.{value_eq, compare, is_lt, is_lteq, is_gt, is_gteq}
use curiodb.Catalog.Schema.{ColumnSchema, normalize, find_column}
use curiodb.Storage.Validation.Defs.{value_type_name}
use curiodb.Sql.Ast.{LiteralValue, ComparisonOperator}
use curiodb.Execution.Planner.Defs.{
  value_from_literal, matches, compares, is_null_test, is_not_null_test, matches_at,
}

-- `normalize`
unfoldable pub executor_normalize : List ℕ → List ℕ
executor_normalize name = map to_lower name

-- `value_from_literal`
unfoldable pub executor_value : LiteralValue → Value
executor_value LiteralValue.null = Value.null
executor_value (LiteralValue.integer n) = Value.integer n
executor_value (LiteralValue.double d) = Value.double d
executor_value (LiteralValue.string s) = Value.varchar s

-- `value_type_name`
unfoldable pub executor_type_name : DataTypeKind → List ℕ
executor_type_name DataTypeKind.integer = text "INT"
executor_type_name DataTypeKind.double = text "DOUBLE"
executor_type_name DataTypeKind.varchar = text "VARCHAR"

-- `matches`: the two tests for NULL come first, then the NULL of a side, then the `switch`.
unfoldable pub executor_matches : Value → ComparisonOperator → Value → Bool
executor_matches left ComparisonOperator.is_null right = is_null left
executor_matches left ComparisonOperator.is_not_null right = not (is_null left)
executor_matches left ComparisonOperator.equal right =
    if is_null left || is_null right then false else value_eq left right
executor_matches left ComparisonOperator.not_equal right =
    if is_null left || is_null right then false else not (value_eq left right)
executor_matches left ComparisonOperator.less_than right =
    if is_null left || is_null right then false else is_lt (compare left right)
executor_matches left ComparisonOperator.less_than_or_equal right =
    if is_null left || is_null right then false else is_lteq (compare left right)
executor_matches left ComparisonOperator.greater_than right =
    if is_null left || is_null right then false else is_gt (compare left right)
executor_matches left ComparisonOperator.greater_than_or_equal right =
    if is_null left || is_null right then false else is_gteq (compare left right)

-- `matches(row[index], operation, comparison_value)`. The source reads past a row that is too short, which
-- is undefined; here the test is false. The rows of a table have a value in every column.
unfoldable pub executor_matches_at : Option Value → ComparisonOperator → Value → Bool
unfolding executor_matches
executor_matches_at none operation value = false
executor_matches_at (some left) operation value = executor_matches left operation value

-- `std::find_if` for the column of a normalized name, and its distance from the first.
unfoldable pub executor_column : List ℕ → List ColumnSchema → Option (ℕ × ColumnSchema)
unfolding executor_normalize
executor_column name [] = none
executor_column name (column ∷ rest) =
    if text_eq (executor_normalize column.name) name
    then some (0, column)
    else elim (executor_column name rest) [ none ↦ none | some (index, c) ↦ some (index + 1, c) ]

pub executor_normalize-normalize : (name : List ℕ) → executor_normalize name ≡ normalize name
unfolding executor_normalize normalize
executor_normalize-normalize name = refl

pub executor_value-value_from_literal : (l : LiteralValue) → executor_value l ≡ value_from_literal l
unfolding executor_value value_from_literal
executor_value-value_from_literal LiteralValue.null = refl
executor_value-value_from_literal (LiteralValue.integer n) = refl
executor_value-value_from_literal (LiteralValue.double d) = refl
executor_value-value_from_literal (LiteralValue.string s) = refl

pub executor_type_name-value_type_name :
    (kind : DataTypeKind) → executor_type_name kind ≡ value_type_name kind
unfolding executor_type_name value_type_name
executor_type_name-value_type_name DataTypeKind.integer = refl
executor_type_name-value_type_name DataTypeKind.double = refl
executor_type_name-value_type_name DataTypeKind.varchar = refl

executor_matches-matches :
    (left : Value) (operation : ComparisonOperator) (right : Value)
    → executor_matches left operation right ≡ matches left operation right
unfolding executor_matches matches compares is_null_test is_not_null_test
executor_matches-matches left ComparisonOperator.is_null right = refl
executor_matches-matches left ComparisonOperator.is_not_null right = refl
executor_matches-matches left ComparisonOperator.equal right = refl
executor_matches-matches left ComparisonOperator.not_equal right = refl
executor_matches-matches left ComparisonOperator.less_than right = refl
executor_matches-matches left ComparisonOperator.less_than_or_equal right = refl
executor_matches-matches left ComparisonOperator.greater_than right = refl
executor_matches-matches left ComparisonOperator.greater_than_or_equal right = refl

pub executor_matches_at-matches_at :
    (left : Option Value) (operation : ComparisonOperator) (right : Value)
    → executor_matches_at left operation right ≡ matches_at left operation right
unfolding executor_matches_at matches_at
executor_matches_at-matches_at none operation right = refl
executor_matches_at-matches_at (some left) operation right =
    executor_matches-matches left operation right

pub executor_column-find_column :
    (name : List ℕ) (columns : List ColumnSchema)
    → executor_column name columns ≡ find_column name columns
unfolding executor_column find_column
executor_column-find_column name [] = refl
executor_column-find_column name (column ∷ rest) =
    rw (executor_normalize-normalize column.name, executor_column-find_column name rest) refl
