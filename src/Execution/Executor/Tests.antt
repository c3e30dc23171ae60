-- ===== src/Execution/Executor/Tests.antt =====
-- A WHERE of two comparisons over a table of one column.
use curiodb.Prelude.{ℕ, ◌≡◌, true, false, List, [], ◌∷◌, Option, none}
use curiodb.Prelude.Int.{pos}
use curiodb.Prelude.Text.{text}
use curiodb.Types.{DataTypeKind}
use curiodb.Catalog.Schema.{ColumnSchema}
use curiodb.Sql.Token.{SourceLocation}
use curiodb.Sql.Ast.{LiteralValue, ComparisonOperator, LogicalOperator, Expression}
use curiodb.Execution.Planner.Defs.{bind_expression}
use curiodb.Execution.Executor.Where.{
  bind_predicate, without_description, bind_predicate-bind_expression,
}

abbrev place : SourceLocation
place = record { offset = 0; line = 1; column = 1 }

abbrev columns : List ColumnSchema
columns =
    record {
      name = text "id";
      type = record { kind = DataTypeKind.integer; length = none };
      primary_key = true;
      unique = false;
      not_null = false;
    }
    ∷ []

abbrev id_is : LiteralValue → Expression
id_is v = Expression.comparison (record {
  column_name = text "ID";
  operation = ComparisonOperator.equal;
  value = record { value = v; location = place };
  location = place;
})

abbrev one_or_text : Expression
one_or_text =
    Expression.logical LogicalOperator.disjunction (id_is (LiteralValue.integer (pos 1)))
      (id_is (LiteralValue.string (text "one"))) place

abbrev no_printing : ℕ → Option (List ℕ)
no_printing d = none

bind_predicate-bind_expression_example :
    bind_predicate columns one_or_text
    ≡ without_description (bind_expression no_printing columns one_or_text)
bind_predicate-bind_expression_example =
    bind_predicate-bind_expression no_printing columns one_or_text
