-- ===== src/Execution/Planner/Meaning.antt =====
-- What a SELECT means, without a plan: each row that WHERE holds of gives the text of its named columns.
-- The plans of src/execution/planner.cpp give just that.
use curiodb.Prelude.{
  ℕ, suc, ◌+◌, ◌≡◌, inl, inr, refl, ap, Bool, true, false, not, ◌&&◌, ◌||◌, List, [], ◌∷◌, Option,
  none, some, map, if◌then◌else◌, length, get_elem?, All, arith, Bool-cases, Option-cases,
}
use curiodb.Prelude.Text.{text_eq}
use curiodb.Prelude.Outcome.{ok, Outcome-cases}
use curiodb.Types.{Value, to_string, is_null, value_type, kind_eq}
use curiodb.Catalog.Schema.{ColumnSchema, TableSchema, normalize, find_column}
use curiodb.Storage.Row.{Row, at}
use curiodb.Sql.Token.{SourceLocation}
use curiodb.Sql.Ast.{
  ComparisonExpression, Expression, SelectColumn, SelectStatement, LogicalOperator,
}
use curiodb.Execution.Operators.{filter_rows}
use curiodb.Execution.Planner.Defs.{
  StoredIndex, PlanNode, BoundPredicate, value_from_literal, matches_at, is_conjunction,
  bind_comparison, bind_expression, bind_logical,
}
use curiodb.Execution.Planner.Plan.{plan_comparison, plan_scan, plan_filter, execute_rows}

-- The value of a row in the first column of a name.
unfoldable pub field : List ℕ → List ColumnSchema → List Value → Option Value
field name [] values = none
field name (column ∷ columns) [] = none
field name (column ∷ columns) (value ∷ values) =
    let rest = field name columns values in
    if text_eq (normalize column.name) name then some value else rest

-- Whether a WHERE expression holds of a row.
unfoldable pub satisfies : List ColumnSchema → Expression → Row → Bool
unfolding field
satisfies columns (Expression.comparison c) row =
    matches_at (field (normalize c.column_name) columns row.values) c.operation
      (value_from_literal c.value.value)
satisfies columns Expression.null_logical row = false
satisfies columns (Expression.logical LogicalOperator.conjunction left right location) row =
    satisfies columns left row && satisfies columns right row
satisfies columns (Expression.logical LogicalOperator.disjunction left right location) row =
    satisfies columns left row || satisfies columns right row

unfoldable pub passes : List ColumnSchema → Option Expression → Row → Bool
passes columns none row = true
passes columns (some expression) row = satisfies columns expression row

unfoldable pub shown : (ℕ → Option (List ℕ)) → Option Value → List ℕ
shown print_double none = []
shown print_double (some v) = to_string print_double v

-- One line of the answer: all values for `*`, or those of the columns that are asked for.
unfoldable pub answer_row :
    (ℕ → Option (List ℕ)) → List ColumnSchema → List SelectColumn → Row → List (List ℕ)
unfolding shown field
answer_row print_double columns [] row = map (to_string print_double) row.values
answer_row print_double columns (requested ∷ rest) row =
    map (λ r. shown print_double (field (normalize r.name) columns row.values)) (requested ∷ rest)

unfoldable pub answers :
    (ℕ → Option (List ℕ)) → TableSchema → SelectStatement → List Row → List (List (List ℕ))
unfolding passes answer_row
answers print_double schema statement [] = []
answers print_double schema statement (row ∷ rows) =
    let rest = answers print_double schema statement rows in
    if passes schema.columns statement.where_clause row
    then answer_row print_double schema.columns statement.columns row ∷ rest
    else rest

-- A row with a value for each column.
abbrev pub IsSized : TableSchema → Row → Type 0
IsSized schema row = length row.values ≡ length schema.columns

pub find_column-field :
    (name : List ℕ) (columns : List ColumnSchema) (values : List Value) (index : ℕ)
    (column : ColumnSchema)
    → find_column name columns ≡ some (index, column)
    → length values ≡ length columns
    → (v : Value) × (get_elem? values index ≡ some v) × (field name columns values ≡ some v)
unfolding find_column field
find_column-field name [] values index column e h = absurd (ground arith)
find_column-field name (c ∷ columns) [] index column e h = absurd (ground arith)
find_column-field name (c ∷ columns) (v ∷ values) index column e h =
    elim (Bool-cases (text_eq (normalize c.name) name)) [
      | inl same ↦ let first : 0 ≡ index = ground arith in (v, rw (← first) refl, rw same refl)
      | inr other ↦ elim (Option-cases (find_column name columns)) [
        | inl missing ↦ absurd (ground arith)
        | inr ((i, d), found) ↦
            let next : i + 1 ≡ index = ground arith in
            let (w, there, named) = find_column-field name columns values i d found (omega arith) in
            let after : suc i ≡ index = omega arith in (w, rw (← after) there, rw other named)
      ]
    ]

bind_comparison-satisfies :
    (print_double : ℕ → Option (List ℕ)) (columns : List ColumnSchema) (c : ComparisonExpression)
    (bound : BoundPredicate) (row : Row)
    → bind_comparison print_double columns c ≡ ok bound
    → length row.values ≡ length columns
    → bound.predicate row ≡ satisfies columns (Expression.comparison c) row
unfolding bind_comparison satisfies at
bind_comparison-satisfies print_double columns c bound row e h =
    elim (Option-cases (find_column (normalize c.column_name) columns)) [
      | inl missing ↦ absurd (ground arith)
      | inr ((i, column), found) ↦
          let (v, there, named) =
            find_column-field (normalize c.column_name) columns row.values i column found h in
          let value = value_from_literal c.value.value in
          elim (Bool-cases
            (not (is_null value) && not (kind_eq (value_type value) column.type.kind))) [
              | inl wrong ↦ absurd (ground arith)
              | inr right ↦
                  let made = rw (found, bind_comparison, right) at e in
                  rw named (ground (arith, made, there))
            ]
    ]

bind_logical-satisfies :
    (columns : List ColumnSchema) (op : LogicalOperator) (l r : Expression)
    (location : SourceLocation) (left right bound : BoundPredicate) (row : Row)
    → bind_logical (is_conjunction op) left right ≡ bound
    → left.predicate row ≡ satisfies columns l row
    → right.predicate row ≡ satisfies columns r row
    → bound.predicate row ≡ satisfies columns (Expression.logical op l r location) row
unfolding satisfies bind_logical is_conjunction
bind_logical-satisfies columns LogicalOperator.conjunction l r location left right bound row e hl
      hr =
    rw (← e, ← hl, ← hr) refl
bind_logical-satisfies columns LogicalOperator.disjunction l r location left right bound row e hl
      hr =
    rw (← e, ← hl, ← hr) refl

pub bind_expression-satisfies :
    (print_double : ℕ → Option (List ℕ)) (columns : List ColumnSchema) (e : Expression)
    (bound : BoundPredicate) (row : Row)
    → bind_expression print_double columns e ≡ ok bound
    → length row.values ≡ length columns
    → bound.predicate row ≡ satisfies columns e row
unfolding bind_expression satisfies bind_logical is_conjunction
bind_expression-satisfies print_double columns (Expression.comparison c) bound row made h =
    bind_comparison-satisfies print_double columns c bound row made h
bind_expression-satisfies print_double columns Expression.null_logical bound row made h =
    absurd (ground arith)
bind_expression-satisfies print_double columns (Expression.logical op l r location) bound row made
      h =
    elim (Outcome-cases (bind_expression print_double columns l)) [
      | inr (_, failed) ↦ absurd (ground arith)
      | inl (left, made_left) ↦ elim (Outcome-cases (bind_expression print_double columns r)) [
        | inr (_, failed) ↦ absurd (ground arith)
        | inl (right, made_right) ↦
            let on_left = bind_expression-satisfies print_double columns l left row made_left h in
            let on_right =
              bind_expression-satisfies print_double columns r right row made_right h in
            bind_logical-satisfies columns op l r location left right bound row
              (ground (arith, rw (made_left, made_right) at made)) on_left on_right
      ]
    ]

execute_rows-plan_scan :
    (schema : TableSchema) (indexes : List StoredIndex) (clause : Option Expression)
    (rows : List Row)
    → execute_rows (plan_scan schema indexes clause) rows ≡ some rows
unfolding plan_scan plan_comparison execute_rows
execute_rows-plan_scan schema indexes none rows = refl
execute_rows-plan_scan schema indexes (some Expression.null_logical) rows = refl
execute_rows-plan_scan schema indexes (some (Expression.logical op l r location)) rows = refl
execute_rows-plan_scan schema indexes (some (Expression.comparison c)) rows = ground arith

-- The rows that a test of a WHERE clause keeps.
filter_rows-passes :
    (schema : TableSchema) (p : Row → Bool) (clause : Option Expression) (rows : List Row)
    → All (IsSized schema) rows
    → ((row : Row) → IsSized schema row → p row ≡ passes schema.columns clause row)
    → filter_rows rows p ≡ filter_rows rows (passes schema.columns clause)
unfolding filter_rows
filter_rows-passes schema p clause [] h same = refl
filter_rows-passes schema p clause (row ∷ rows) (sized, h) same =
    rw (same row sized, filter_rows-passes schema p clause rows h same) refl

filter_rows-all :
    (columns : List ColumnSchema) (rows : List Row) → filter_rows rows (passes columns none) ≡ rows
unfolding filter_rows passes
filter_rows-all columns [] = refl
filter_rows-all columns (row ∷ rows) = rw (filter_rows-all columns rows) refl

pub execute_rows-plan_filter :
    (print_double : ℕ → Option (List ℕ)) (schema : TableSchema) (indexes : List StoredIndex)
    (clause : Option Expression) (node : PlanNode) (rows : List Row)
    → plan_filter print_double schema clause (plan_scan schema indexes clause) ≡ ok node
    → All (IsSized schema) rows
    → execute_rows node rows ≡ some (filter_rows rows (passes schema.columns clause))
unfolding plan_filter execute_rows passes
execute_rows-plan_filter print_double schema indexes none node rows e h =
    let same : plan_scan schema indexes none ≡ node = ground (arith, e) in
    rw
      (← same, execute_rows-plan_scan schema indexes none rows, filter_rows-all schema.columns rows)
      refl
execute_rows-plan_filter print_double schema indexes (some expression) node rows e h =
    elim (Outcome-cases (bind_expression print_double schema.columns expression)) [
      | inr (_, failed) ↦ absurd (ground arith)
      | inl (bound, made) ↦
          let same : PlanNode.filter bound.predicate bound.description
                (plan_scan schema indexes (some expression))
              ≡ node =
            ground (arith, rw made at e) in
          rw (← same, execute_rows, execute_rows-plan_scan schema indexes (some expression) rows)
            (ap some (
              filter_rows-passes schema bound.predicate (some expression) rows h (λ row sized.
                bind_expression-satisfies print_double schema.columns expression bound row made
                  sized)))
    ]
