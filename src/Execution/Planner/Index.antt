-- ===== src/Execution/Planner/Index.antt =====
-- src/execution/planner.cpp: a plan that scans an index needs only the rows of its key.
use curiodb.Prelude.{
  ℕ, ◌≡◌, inl, inr, refl, sym, ap, ◌∙◌, Bool, true, false, List, [], ◌∷◌, Option, none, some, All,
  arith, Bool-cases, Option-cases,
}
use curiodb.Prelude.Int.{ℤ, int_eq}
use curiodb.Prelude.Text.{text_eq_iff}
use curiodb.Prelude.Outcome.{ok, Outcome-cases}
use curiodb.Types.{Value, is_null}
use curiodb.Types.Order.{value_eq}
use curiodb.Catalog.Schema.{TableSchema, normalize}
use curiodb.Storage.Row.{Row}
use curiodb.Sql.Ast.{
  LiteralValue, ComparisonOperator, ComparisonExpression, Expression, SelectStatement,
}
use curiodb.Execution.Operators.{filter_rows}
use curiodb.Execution.Planner.Defs.{
  StoredIndex, PlanNode, value_from_literal, matches, matches_at, compares, is_null_test,
  is_not_null_test, bind_expression,
}
use curiodb.Execution.Planner.Plan.{
  is_equal_test, integer_key, find_index, plan_comparison, plan_scan, plan_filter,
  requested_columns, plan_select, execute_plan,
}
use curiodb.Execution.Planner.Meaning.{field, satisfies, passes, answers, IsSized}
use curiodb.Execution.Planner.Answers.{execute_plan-plan_select}

-- The column and the key that an index scan is made with.
unfoldable pub index_key : PlanNode → Option (List ℕ × ℤ)
index_key (PlanNode.index_scan table_name index_name column_name key) = some (column_name, key)
index_key _ = none

-- Below the projection, the filter is passed over if there is one.
unfoldable pub below_filter : PlanNode → PlanNode
below_filter (PlanNode.filter predicate description child) = child
below_filter node = node

-- How the executor asks for the rows of a plan: by an index and its key, or all of them.
unfoldable pub scanned_key : PlanNode → Option (List ℕ × ℤ)
unfolding index_key below_filter
scanned_key (PlanNode.projection column_indexes column_names child) = index_key (below_filter child)
scanned_key _ = none

-- Whether a value is the integer of a key.
unfoldable pub is_key : ℤ → Option Value → Bool
is_key key (some (Value.integer n)) = int_eq n key
is_key key _ = false

find_index-column :
    (c : ComparisonExpression) (indexes : List StoredIndex) (index : StoredIndex)
    → find_index c indexes ≡ some index
    → (normalize index.column_name ≡ normalize c.column_name) × (is_equal_test c.operation ≡ true)
unfolding find_index
find_index-column c [] index e = absurd (ground arith)
find_index-column c (candidate ∷ indexes) index e = ground (
  arith,
  text_eq_iff (normalize candidate.column_name) (normalize c.column_name),
  find_index-column c indexes index,
)

matches_at-is_key :
    (v : Option Value) (op : ComparisonOperator) (key : ℤ)
    → is_equal_test op ≡ true
    → matches_at v op (Value.integer key) ≡ true
    → is_key key v ≡ true
unfolding matches_at matches compares is_equal_test is_null_test is_not_null_test is_null value_eq
    is_key
matches_at-is_key none op key t h = absurd (ground arith)
matches_at-is_key (some Value.null) ComparisonOperator.equal key t h = absurd (ground arith)
matches_at-is_key (some (Value.integer n)) ComparisonOperator.equal key t h = h
matches_at-is_key (some (Value.double d)) ComparisonOperator.equal key t h = absurd (ground arith)
matches_at-is_key (some (Value.varchar s)) ComparisonOperator.equal key t h = absurd (ground arith)
matches_at-is_key (some v) _ key t h = absurd (ground arith)

integer_key-inversion :
    (v : LiteralValue) (key : ℤ)
    → integer_key v ≡ some key
    → value_from_literal v ≡ Value.integer key
unfolding integer_key value_from_literal
integer_key-inversion v key e = ground arith

-- A row that passes the WHERE clause of a plan with an index scan holds its key.
passes-is_key :
    (schema : TableSchema) (indexes : List StoredIndex) (clause : Option Expression)
    (column_name : List ℕ) (key : ℤ) (row : Row)
    → index_key (plan_scan schema indexes clause) ≡ some (column_name, key)
    → passes schema.columns clause row ≡ true
    → is_key key (field (normalize column_name) schema.columns row.values) ≡ true
unfolding index_key plan_scan plan_comparison passes satisfies
passes-is_key schema indexes none column_name key row e h = absurd (ground arith)
passes-is_key schema indexes (some Expression.null_logical) column_name key row e h =
    absurd (ground arith)
passes-is_key schema indexes (some (Expression.logical op l r location)) column_name key row e h =
    absurd (ground arith)
passes-is_key schema indexes (some (Expression.comparison c)) column_name key row e h =
    elim (Option-cases (find_index c indexes)) [
      | inl missing ↦ absurd (ground arith)
      | inr (index, found) ↦ elim (Option-cases (integer_key c.value.value)) [
        | inl other ↦ absurd (ground arith)
        | inr (n, number) ↦
            let (same, equal) = find_index-column c indexes index found in
            let chosen = rw (found, number) at e in
            let column : index.column_name ≡ column_name = ground (arith, chosen) in
            let keyed : n ≡ key = ground (arith, chosen) in
            let literal = integer_key-inversion c.value.value n number in
            rw (← column, same, ← keyed) (matches_at-is_key _ c.operation n equal (rw literal at h))
      ]
    ]

filter_rows-IsSized :
    (schema : TableSchema) (p : Row → Bool) (rows : List Row)
    → All (IsSized schema) rows
    → All (IsSized schema) (filter_rows rows p)
unfolding filter_rows
filter_rows-IsSized schema p [] h = tt
filter_rows-IsSized schema p (row ∷ rows) (sized, h) =
    let rest = filter_rows-IsSized schema p rows h in
    elim (Bool-cases (p row)) [
      | inl kept ↦ rw (kept, filter_rows) (sized, rest)
      | inr out ↦ rw (out, filter_rows) rest
    ]

answers-filter_rows :
    (print_double : ℕ → Option (List ℕ)) (schema : TableSchema) (statement : SelectStatement)
    (p : Row → Bool) (rows : List Row)
    → ((row : Row) → passes schema.columns statement.where_clause row ≡ true → p row ≡ true)
    → answers print_double schema statement (filter_rows rows p)
      ≡ answers print_double schema statement rows
unfolding answers filter_rows
answers-filter_rows print_double schema statement p [] needed = refl
answers-filter_rows print_double schema statement p (row ∷ rows) needed =
    ground (arith, answers-filter_rows print_double schema statement p rows needed, needed row)

index_key-plan_filter :
    (print_double : ℕ → Option (List ℕ)) (schema : TableSchema) (indexes : List StoredIndex)
    (clause : Option Expression) (node : PlanNode) (scanned : List ℕ × ℤ)
    → plan_filter print_double schema clause (plan_scan schema indexes clause) ≡ ok node
    → index_key (below_filter node) ≡ some scanned
    → index_key (plan_scan schema indexes clause) ≡ some scanned
unfolding plan_filter below_filter plan_scan index_key
index_key-plan_filter print_double schema indexes none node scanned e h =
    let same : PlanNode.sequential_scan schema.name ≡ node = ground (arith, e) in rw (← same) at h
index_key-plan_filter print_double schema indexes (some expression) node scanned e h =
    elim (Outcome-cases (bind_expression print_double schema.columns expression)) [
      | inr (_, failed) ↦ absurd (ground arith)
      | inl (bound, made) ↦
          let same : PlanNode.filter bound.predicate bound.description
                (plan_scan schema indexes (some expression))
              ≡ node =
            ground (arith, rw made at e) in
          rw (← same) at h
    ]

scanned_key-plan_select :
    (print_double : ℕ → Option (List ℕ)) (statement : SelectStatement) (schema : TableSchema)
    (indexes : List StoredIndex) (plan : PlanNode) (scanned : List ℕ × ℤ)
    → plan_select print_double statement schema indexes ≡ ok plan
    → scanned_key plan ≡ some scanned
    → index_key (plan_scan schema indexes statement.where_clause) ≡ some scanned
unfolding plan_select scanned_key
scanned_key-plan_select print_double statement schema indexes plan scanned e h =
    let scan = plan_scan schema indexes statement.where_clause in
    elim (Outcome-cases (plan_filter print_double schema statement.where_clause scan)) [
      | inr (_, failed) ↦ absurd (ground arith)
      | inl (node, filtered) ↦
          elim (Outcome-cases (requested_columns schema.columns statement.columns)) [
            | inr (_, failed) ↦ absurd (ground arith)
            | inl ((is, ns), columns) ↦
                let same : PlanNode.projection is ns node ≡ plan = ground arith in
                index_key-plan_filter print_double schema indexes statement.where_clause node
                  scanned filtered (rw (← same) at h)
          ]
    ]

-- A plan that scans an index answers the same from the rows that hold its key in its column as from
-- all rows, where each row has a value for each column.
pub execute_plan-scanned_key :
    (print_double : ℕ → Option (List ℕ)) (statement : SelectStatement) (schema : TableSchema)
    (indexes : List StoredIndex) (plan : PlanNode) (column_name : List ℕ) (key : ℤ)
    (rows : List Row)
    → plan_select print_double statement schema indexes ≡ ok plan
    → scanned_key plan ≡ some (column_name, key)
    → All (IsSized schema) rows
    → execute_plan print_double plan (
        filter_rows rows
          (λ row. is_key key (field (normalize column_name) schema.columns row.values)))
      ≡ execute_plan print_double plan rows
execute_plan-scanned_key print_double statement schema indexes plan column_name key rows e k h =
    let p : Row → Bool =
      λ row. is_key key (field (normalize column_name) schema.columns row.values) in
    let scan = scanned_key-plan_select print_double statement schema indexes plan _ e k in
    execute_plan-plan_select print_double statement schema indexes plan (filter_rows rows p) e
      (filter_rows-IsSized schema p rows h)
    ∙ (ap some (
          answers-filter_rows print_double schema statement p rows
            (λ row. passes-is_key schema indexes statement.where_clause column_name key row scan))
        ∙ sym (execute_plan-plan_select print_double statement schema indexes plan rows e h))
