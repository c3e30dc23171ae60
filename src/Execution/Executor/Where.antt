-- ===== src/Execution/Executor/Where.antt =====
-- src/execution/statement_executor.cpp: the WHERE of DELETE and UPDATE is bound by `bind_predicate`, that
-- of SELECT by the planner's `bind_expression`.
use curiodb.Prelude.{
  ℕ, ◌≡◌, inl, inr, refl, Bool, not, ◌&&◌, ◌||◌, List, ◌++◌, Option, none, some, if◌then◌else◌, ap,
  arith, Option-cases, Bool-cases,
}
use cubical.Cubical.Foundations.Prelude.{fun_ext}
use curiodb.Prelude.Text.{text}
use curiodb.Prelude.Outcome.{Outcome, ok, err, ◌>>=◌, Outcome-cases}
use curiodb.Types.{is_null, value_type, kind_eq, format_data_type}
use curiodb.Catalog.Schema.{ColumnSchema, normalize, find_column}
use curiodb.Storage.Row.{Row, at}
use curiodb.Execution.Executor.Copies.{
  executor_normalize, executor_value, executor_type_name, executor_matches_at, executor_column,
  executor_normalize-normalize, executor_value-value_from_literal,
  executor_type_name-value_type_name, executor_matches_at-matches_at, executor_column-find_column,
}
use curiodb.Sql.Ast.{ComparisonExpression, LogicalOperator, Expression}
use curiodb.Execution.Planner.Defs.{
  BoundPredicate, PlannerError, value_from_literal, bind_comparison, bind_logical, bind_expression,
  is_conjunction, unknown_column,
}

-- One comparison; the error is the text that `binding_error` is set to.
unfoldable pub bind_column :
    List ColumnSchema → ComparisonExpression → Outcome (List ℕ) (Row → Bool)
bind_column columns comparison =
    elim (executor_column (executor_normalize comparison.column_name) columns) [
      | none ↦ err (text "column '" ++ (comparison.column_name ++ text "' does not exist"))
      | some (index, column) ↦
          let comparison_value = executor_value comparison.value.value in
          if not (is_null comparison_value)
            && not (kind_eq (value_type comparison_value) column.type.kind)
          then err (
              text "column '"
              ++ (column.name
                  ++ (text "': expected "
                      ++ (format_data_type column.type
                          ++ (text ", received "
                              ++ executor_type_name (value_type comparison_value))))))
          else ok (λ row. executor_matches_at (at row index) comparison.operation comparison_value)
    ]

unfoldable pub bind_predicate : List ColumnSchema → Expression → Outcome (List ℕ) (Row → Bool)
unfolding bind_column
bind_predicate columns (Expression.comparison comparison) = bind_column columns comparison
bind_predicate columns Expression.null_logical = err (text "invalid WHERE expression")
bind_predicate columns (Expression.logical LogicalOperator.conjunction left right location) = do
  bound_left ← bind_predicate columns left
  bound_right ← bind_predicate columns right
  ok (λ row. bound_left row && bound_right row)
bind_predicate columns (Expression.logical LogicalOperator.disjunction left right location) = do
  bound_left ← bind_predicate columns left
  bound_right ← bind_predicate columns right
  ok (λ row. bound_left row || bound_right row)

-- What DELETE and UPDATE would keep of the planner's answer.
unfoldable pub without_description :
    Outcome PlannerError BoundPredicate → Outcome (List ℕ) (Row → Bool)
without_description (err e) = err e.message
without_description (ok bound) = ok bound.predicate

bind_column-bind_comparison :
    (print_double : ℕ → Option (List ℕ)) (columns : List ColumnSchema) (c : ComparisonExpression)
    → bind_column columns c ≡ without_description (bind_comparison print_double columns c)
unfolding bind_column bind_comparison without_description unknown_column
bind_column-bind_comparison print_double columns c =
    let value = value_from_literal c.value.value in
    let named = executor_normalize-normalize c.column_name in
    let same = executor_column-find_column (normalize c.column_name) columns in
    let as_value = executor_value-value_from_literal c.value.value in
    elim (Option-cases (find_column (normalize c.column_name) columns)) [
      | inl missing ↦ rw (named, same, missing, bind_column, bind_comparison) refl
      | inr ((i, column), found) ↦
          let type_name = executor_type_name-value_type_name (value_type value) in
          elim (Bool-cases
            (not (is_null value) && not (kind_eq (value_type value) column.type.kind))) [
              | inl wrong ↦
                  rw (named, same, found, as_value, bind_column, bind_comparison, wrong, type_name)
                    refl
              | inr right ↦
                  rw (named, same, found, as_value, bind_column, bind_comparison, right)
                    (ap ok (
                      fun_ext (λ row. executor_matches_at-matches_at (at row i) c.operation value)))
            ]
    ]

-- The two bindings of WHERE agree: an expression is an error for both, with the same message, or it
-- has the same predicate for both.
pub bind_predicate-bind_expression :
    (print_double : ℕ → Option (List ℕ)) (columns : List ColumnSchema) (e : Expression)
    → bind_predicate columns e ≡ without_description (bind_expression print_double columns e)
unfolding bind_predicate bind_expression bind_logical without_description is_conjunction
bind_predicate-bind_expression print_double columns (Expression.comparison c) =
    bind_column-bind_comparison print_double columns c
bind_predicate-bind_expression print_double columns Expression.null_logical = refl
bind_predicate-bind_expression print_double columns (Expression.logical op l r location) =
    let on_left = bind_predicate-bind_expression print_double columns l in
    let on_right = bind_predicate-bind_expression print_double columns r in
    elim (Outcome-cases (bind_expression print_double columns l)) [
      | inr (_, failed) ↦ ground (arith, on_left, failed)
      | inl (left, made) ↦ elim (Outcome-cases (bind_expression print_double columns r)) [
        | inr (_, failed) ↦ ground (arith, on_left, on_right, made, failed)
        | inl (right, made') ↦ ground (arith, on_left, on_right, made, made')
      ]
    ]
