-- ===== src/Execution/Planner/Tests.antt =====
-- A table of two rows, a SELECT with WHERE over it, and its plans.
use curiodb.Prelude.{◌&&◌, ◌||◌, ℕ, ◌≡◌, refl, true, false, List, [], ◌∷◌, Option, none, some}
use curiodb.Prelude.Int.{pos, int_eq}
use curiodb.Prelude.Text.{text, text_eq, to_lower, decimal, decimal_int}
use curiodb.Prelude.Outcome.{ok, err}
use curiodb.Types.{DataTypeKind, Value, is_null, kind_eq, value_type, to_string}
use curiodb.Types.Order.{value_eq}
use curiodb.Catalog.Schema.{ColumnSchema, TableSchema, normalize, find_column}
use curiodb.Storage.Row.{Row}
use curiodb.Sql.Token.{SourceLocation}
use curiodb.Sql.Ast.{LiteralValue, ComparisonOperator, Expression, SelectStatement}
use curiodb.Execution.Operators.{filter_rows}
use curiodb.Execution.Planner.Defs.{
  StoredIndex, PlanNode, bind_expression, value_from_literal, comparison_name, matches_at, matches,
  compares, is_null_test, is_not_null_test,
}
use curiodb.Execution.Planner.Plan.{
  plan_select, format_plan, execute_plan, contains_index, find_index, is_equal_test, integer_key,
}
use curiodb.Execution.Planner.Meaning.{answers, field, satisfies}
use curiodb.Execution.Planner.Answers.{execute_plan-plan_select}
use curiodb.Execution.Planner.Errors.{is_selection, plan_select-is_ok}
use curiodb.Execution.Planner.Bound.{is_ok, is_clause}
use curiodb.Execution.Planner.Comparisons.{swapped, is_comparison, matches-swapped}
use curiodb.Execution.Planner.Index.{scanned_key, is_key, execute_plan-scanned_key}

abbrev place : SourceLocation
place = record { offset = 0; line = 1; column = 1 }

abbrev id_column : ColumnSchema
id_column = record {
  name = text "id";
  type = record { kind = DataTypeKind.integer; length = none };
  primary_key = true;
  unique = false;
  not_null = false;
}

abbrev name_column : ColumnSchema
name_column = record {
  name = text "name";
  type = record { kind = DataTypeKind.varchar; length = some 10 };
  primary_key = false;
  unique = false;
  not_null = false;
}

abbrev users : TableSchema
users = record { name = text "users"; columns = id_column ∷ name_column ∷ [] }

abbrev ada : Row
ada = record { values = Value.integer (pos 1) ∷ Value.varchar (text "Ada") ∷ [] }

abbrev bob : Row
bob = record { values = Value.integer (pos 2) ∷ Value.varchar (text "Bob") ∷ [] }

abbrev id_is : ℕ → Expression
id_is n = Expression.comparison (record {
  column_name = text "ID";
  operation = ComparisonOperator.equal;
  value = record { value = LiteralValue.integer (pos n); location = place };
  location = place;
})

abbrev select_name : Expression → SelectStatement
select_name clause = record {
  columns = record { name = text "Name"; location = place } ∷ [];
  table_name = text "users";
  where_clause = some clause;
  location = place;
}

abbrev no_printing : ℕ → Option (List ℕ)
no_printing d = none

abbrev by_id : StoredIndex
by_id = record { name = text "by_id"; column_name = (text "id"); root_page_id = none }

plan_of : SelectStatement → List StoredIndex → PlanNode
plan_of statement indexes = elim (plan_select no_printing statement users indexes) [
  | ok plan ↦ plan
  | err _ ↦ PlanNode.sequential_scan []
]

planned :
    plan_select no_printing (select_name (id_is 2)) users (by_id ∷ [])
    ≡ ok (plan_of (select_name (id_is 2)) (by_id ∷ []))
unfolding plan_of plan_select bind_expression find_column text_eq normalize text to_lower is_null
    value_from_literal kind_eq value_type contains_index find_index is_equal_test integer_key
planned = refl

planned_key : scanned_key (plan_of (select_name (id_is 2)) (by_id ∷ [])) ≡ some ((text "id"), pos 2)
unfolding plan_of plan_select bind_expression find_column text_eq normalize text to_lower is_null
    value_from_literal kind_eq value_type contains_index find_index is_equal_test integer_key
    scanned_key
planned_key = refl

explained : format_plan (plan_of (select_name (id_is 2)) (by_id ∷ [])) ≡ (
    text
      "Projection(columns=name)\n  Filter(condition=id = 2)\n    IndexScan(index=by_id, condition=id = 2)")
unfolding plan_of plan_select bind_expression find_column text_eq normalize text to_lower is_null
    value_from_literal kind_eq value_type contains_index find_index is_equal_test integer_key
    format_plan comparison_name to_string decimal_int decimal
explained = refl

execute_plan-plan_select_example :
    execute_plan no_printing (plan_of (select_name (id_is 2)) (by_id ∷ [])) (ada ∷ bob ∷ [])
    ≡ some (answers no_printing users (select_name (id_is 2)) (ada ∷ bob ∷ []))
execute_plan-plan_select_example =
    execute_plan-plan_select no_printing (select_name (id_is 2)) users (by_id ∷ [])
      (plan_of (select_name (id_is 2)) (by_id ∷ [])) (ada ∷ bob ∷ []) planned (refl, (refl, tt))

answered :
    answers no_printing users (select_name (id_is 2)) (ada ∷ bob ∷ []) ≡ ((text "Bob") ∷ []) ∷ []
unfolding answers satisfies matches_at matches compares is_null_test is_not_null_test value_eq
    int_eq to_string bind_expression find_column text_eq normalize text to_lower is_null
    value_from_literal kind_eq value_type contains_index find_index is_equal_test integer_key
answered = refl

execute_plan-scanned_key_example :
    execute_plan no_printing (plan_of (select_name (id_is 2)) (by_id ∷ [])) (
      filter_rows
        (ada ∷ bob ∷ [])
        (λ row. is_key (pos 2) (field (normalize (text "id")) users.columns row.values)))
    ≡ execute_plan no_printing (plan_of (select_name (id_is 2)) (by_id ∷ [])) (ada ∷ bob ∷ [])
execute_plan-scanned_key_example =
    execute_plan-scanned_key no_printing (select_name (id_is 2)) users (by_id ∷ [])
      (plan_of (select_name (id_is 2)) (by_id ∷ [])) (text "id") (pos 2) (ada ∷ bob ∷ []) planned
      planned_key (refl, (refl, tt))

plan_select-is_ok_example :
    is_ok (plan_select no_printing (select_name (id_is 2)) users (by_id ∷ [])) ≡ (
      is_clause users.columns (some (id_is 2))
      && is_selection users.columns (select_name (id_is 2)).columns)
plan_select-is_ok_example = plan_select-is_ok no_printing (select_name (id_is 2)) users (by_id ∷ [])

matches-swapped_example :
    (((is_null (Value.integer (pos 1)) || is_null Value.null)
        && matches (Value.integer (pos 1)) ComparisonOperator.less_than Value.null)
      ≡ false)
    × (matches (Value.integer (pos 1)) ComparisonOperator.less_than Value.null
        ≡ matches Value.null (swapped ComparisonOperator.less_than) (Value.integer (pos 1)))
unfolding is_comparison is_null_test is_not_null_test
matches-swapped_example =
    matches-swapped ComparisonOperator.less_than (Value.integer (pos 1)) Value.null refl
