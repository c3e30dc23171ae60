-- ===== src/Execution/Executor/Statements.antt =====
-- src/execution/statement_executor.cpp: what the statements share.
use curiodb.Prelude.{
  ℕ, Bool, true, List, [], ◌++◌, Option, none, some, map, if◌then◌else◌, ◌==◌, set, length,
}
use curiodb.Prelude.Int.{pos}
use Prim.Native.String.{String}
use curiodb.Prelude.Text.{text, decimal}
use curiodb.Prelude.Outcome.{Outcome, ok, err, ◌>>=◌}
use curiodb.Types.{DataTypeKind, Value}
use curiodb.Catalog.Schema.{ColumnSchema, TableSchema}
use curiodb.Catalog.Defs.{Catalog, active_database, find_table, use_database, quoted}
use curiodb.Storage.Row.{Row}
use curiodb.Storage.Validation.Defs.{validate_row}
use curiodb.Sql.Ast.{ColumnDefinition, UseDatabaseStatement, Expression, UpdateStatement}
use curiodb.Execution.Planner.Defs.{PlanNode}
use curiodb.Execution.Planner.Plan.{execute_plan}
use curiodb.Execution.Executor.Copies.{executor_value, executor_column, executor_normalize}
use curiodb.Execution.Executor.Where.{bind_predicate}
use curiodb.Execution.Executor.Defs.{Session, ExecutionResult, failure, success_with}

unfoldable pub result_of : Option (List ℕ) → List ℕ → ExecutionResult
result_of none message = success_with message
result_of (some failed) message = failure failed

unfoldable pub counted : ℕ → String → String → List ℕ
counted count one many = decimal count ++ (if count == 1 then text one else text many)

-- The start of the statements on a table: the selected database, and the schema of the table.
unfoldable pub selected_table : Catalog → List ℕ → Outcome (List ℕ) (List ℕ × TableSchema)
unfolding quoted
selected_table catalog name = elim (active_database catalog) [
  | none ↦ err (text "no database selected; use USE <database> first")
  | some database ↦ elim (find_table catalog name) [
    | none ↦ err (quoted "table '" name "' does not exist")
    | some schema ↦ ok (database, schema)
  ]
]

unfoldable pub column_of : ColumnDefinition → ColumnSchema
column_of column = record {
  name = column.name;
  type = column.type;
  primary_key = column.primary_key;
  unique = column.unique;
  not_null = column.not_null;
}

-- The predicate of DELETE and UPDATE.
unfoldable pub clause_predicate :
    List ColumnSchema → Option Expression → Outcome (List ℕ) (Row → Bool)
clause_predicate columns none = ok (λ row. true)
clause_predicate columns (some expression) = bind_predicate columns expression

-- A value of the type, for the row that an update is validated with.
unfoldable pub sample_value : DataTypeKind → Value
sample_value DataTypeKind.integer = Value.integer (pos 0)
sample_value DataTypeKind.double = Value.double 0
sample_value DataTypeKind.varchar = Value.varchar []

unfoldable pub validation_row : List ColumnSchema → ℕ → Value → Row
unfolding sample_value
validation_row columns column_index value = record {
  values = set (map (λ c. sample_value c.type.kind) columns) column_index value;
}

-- What UPDATE checks before it asks the storage: the predicate, and the index of its column.
unfoldable pub bound_update : TableSchema → UpdateStatement → Outcome (List ℕ) ((Row → Bool) × ℕ)
unfolding quoted validation_row clause_predicate
bound_update schema statement =
    elim (executor_column (executor_normalize statement.column_name) schema.columns) [
      | none ↦ err (quoted "column '" statement.column_name "' does not exist")
      | some (column_index, column) ↦
          elim (validate_row schema
            (validation_row schema.columns column_index (executor_value statement.value.value))) [
              | some invalid ↦ err invalid.message
              | none ↦ do
                predicate ← clause_predicate schema.columns statement.where_clause
                ok (predicate, column_index)
            ]
    ]

unfoldable pub column_names_of : PlanNode → Option (List (List ℕ))
column_names_of (PlanNode.projection column_indexes column_names child) = some column_names
column_names_of _ = none

-- `none` is an exception of `std::get<ProjectionPlan>`, or what `execute_plan` has it for.
unfoldable pub selected_rows : (ℕ → Option (List ℕ)) → PlanNode → List Row → Option ExecutionResult
unfolding column_names_of counted
selected_rows print_double plan rows = elim (column_names_of plan) [
  | none ↦ none
  | some names ↦ elim (execute_plan print_double plan rows) [
    | none ↦ none
    | some lines ↦ some (record {
      success = true;
      message = counted (length lines) " row selected." " rows selected.";
      query = some (record { columns = names; rows = lines });
    })
  ]
]

unfoldable pub execute_use_database :
    {State : Type 0} → Session State → UseDatabaseStatement → Session State × ExecutionResult
unfolding result_of quoted
execute_use_database session statement =
    let (catalog, refused) = use_database session.catalog statement.name in
    (
      record session { catalog = catalog },
      result_of (elim refused [ none ↦ none | some e ↦ some e.message ])
          (quoted "Using database '" statement.name "'."),
    )
