-- ===== src/Execution/Executor/Execute.antt =====
-- src/execution/statement_executor.cpp: the statements that ask the storage.
use curiodb.Prelude.{ℕ, List, Option, none, some, map}
use curiodb.Prelude.Text.{text}
use curiodb.Prelude.Outcome.{ok, err}
use curiodb.Catalog.Defs.{create_database, create_table, quoted}
use curiodb.Storage.Row.{Row}
use curiodb.Sql.Ast.{
  CreateDatabaseStatement, CreateTableStatement, CreateIndexStatement, InsertStatement,
  SelectStatement, DeleteStatement, ExplainStatement, UpdateStatement, Statement,
}
use curiodb.Execution.Planner.Plan.{plan_select, format_plan}
use curiodb.Execution.Executor.Copies.{executor_value}
use curiodb.Execution.Executor.Defs.{
  DiskOperations, Session, ExecutionResult, failure, success_with, store_database, store_table,
  store_row, remove_rows, change_rows, available_indexes, planned_rows, store_index,
}
use curiodb.Execution.Executor.Statements.{
  bound_update, clause_predicate, column_of, counted, execute_use_database, result_of,
  selected_rows, selected_table,
}

module _ {State : Type 0} (disk : DiskOperations State) where
  unfoldable pub execute_create_database :
      Session State → CreateDatabaseStatement → Session State × ExecutionResult
  unfolding result_of quoted store_database
  execute_create_database session statement =
      let (catalog, refused) = create_database session.catalog statement.name in
      elim refused [
        | some e ↦ (record session { catalog = catalog }, failure e.message)
        | none ↦
            let (storage, failed) = store_database disk session.storage statement.name in
            (
              record { catalog = catalog; storage = storage },
              result_of failed (quoted "Database '" statement.name "' created."),
            )
      ]

  unfoldable pub execute_create_table :
      Session State → CreateTableStatement → Session State × ExecutionResult
  unfolding result_of quoted store_table column_of
  execute_create_table session statement =
      let (catalog, refused) =
        create_table session.catalog statement.name (map column_of statement.columns) in
      elim refused [
        | some e ↦ (record session { catalog = catalog }, failure e.message)
        | none ↦ elim (selected_table catalog statement.name) [
          | err _ ↦ (
            record session { catalog = catalog },
            failure (text "internal error while creating table storage"),
          )
          | ok (database, schema) ↦
              let (storage, failed) = store_table disk session.storage database schema in
              (
                record { catalog = catalog; storage = storage },
                result_of failed (quoted "Table '" statement.name "' created."),
              )
        ]
      ]

  unfoldable pub execute_insert : Session State → InsertStatement → Session State × ExecutionResult
  unfolding result_of selected_table store_row
  execute_insert session statement = elim (selected_table session.catalog statement.table_name) [
    | err message ↦ (session, failure message)
    | ok (database, schema) ↦
        let row : Row = record { values = map (λ l. executor_value l.value) statement.values } in
        let (storage, failed) = store_row disk session.storage database statement.table_name row in
        (record session { storage = storage }, result_of failed (text "1 row inserted."))
  ]

  unfoldable pub execute_delete : Session State → DeleteStatement → Session State × ExecutionResult
  unfolding selected_table clause_predicate counted remove_rows
  execute_delete session statement = elim (selected_table session.catalog statement.table_name) [
    | err message ↦ (session, failure message)
    | ok (database, schema) ↦ elim (clause_predicate schema.columns statement.where_clause) [
      | err message ↦ (session, failure message)
      | ok predicate ↦
          let (storage, done) =
            remove_rows disk session.storage database statement.table_name predicate in
          (
            record session { storage = storage },
            elim done [
              | err message ↦ failure message
              | ok count ↦ success_with (counted count " row deleted." " rows deleted.")
            ],
          )
    ]
  ]

  -- `none` is an exception, as for SELECT.
  unfoldable pub execute_update :
      Session State → UpdateStatement → Session State × Option ExecutionResult
  unfolding selected_table bound_update counted change_rows
  execute_update session statement = elim (selected_table session.catalog statement.table_name) [
    | err message ↦ (session, some (failure message))
    | ok (database, schema) ↦ elim (bound_update schema statement) [
      | err message ↦ (session, some (failure message))
      | ok (predicate, column_index) ↦
          let (storage, done) =
            change_rows disk session.storage database statement.table_name predicate column_index
              (executor_value statement.value.value) in
          (
            record session { storage = storage },
            elim done [
              | none ↦ none
              | some (err message) ↦ some (failure message)
              | some (ok count) ↦
                  some (success_with (counted count " row updated." " rows updated."))
            ],
          )
    ]
  ]

  unfoldable pub execute_create_index :
      Session State → CreateIndexStatement → Session State × ExecutionResult
  unfolding selected_table result_of quoted store_index
  execute_create_index session statement =
      elim (selected_table session.catalog statement.table_name) [
        | err message ↦ (session, failure message)
        | ok (database, schema) ↦
            let (storage, failed) =
              store_index disk session.storage database statement.name statement.table_name
                statement.column_name in
            (
              record session { storage = storage },
              result_of failed (quoted "Index '" statement.name "' created."),
            )
      ]

  module _ (print_double : ℕ → Option (List ℕ)) where
    unfoldable pub execute_select :
        Session State → SelectStatement → Session State × Option ExecutionResult
    unfolding selected_table selected_rows planned_rows available_indexes
    execute_select session statement = elim (selected_table session.catalog statement.table_name) [
      | err message ↦ (session, some (failure message))
      | ok (database, schema) ↦
          elim (plan_select print_double statement schema
            (available_indexes disk session.storage database statement.table_name)) [
              | err e ↦ (session, some (failure e.message))
              | ok plan ↦
                  let (storage, scanned) =
                    planned_rows disk session.storage database statement.table_name plan in
                  (
                    record session { storage = storage },
                    elim scanned [
                      | err message ↦ some (failure message)
                      | ok rows ↦ selected_rows print_double plan rows
                    ],
                  )
            ]
    ]

    unfoldable pub execute_explain :
        Session State → ExplainStatement → Session State × ExecutionResult
    unfolding selected_table available_indexes
    execute_explain session statement =
        elim (selected_table session.catalog statement.select.table_name) [
          | err message ↦ (session, failure message)
          | ok (database, schema) ↦
              elim (plan_select print_double statement.select schema
                (available_indexes disk session.storage database statement.select.table_name)) [
                  | err e ↦ (session, failure e.message)
                  | ok plan ↦ (session, success_with (format_plan plan))
                ]
        ]

    unfoldable pub execute : Session State → Statement → Session State × Option ExecutionResult
    unfolding execute_create_database execute_create_table execute_insert execute_delete
        execute_update execute_create_index execute_select execute_explain
    execute session (Statement.create_database s) =
        let (after, result) = execute_create_database session s in (after, some result)
    execute session (Statement.use_database s) =
        let (after, result) = execute_use_database session s in (after, some result)
    execute session (Statement.create_table s) =
        let (after, result) = execute_create_table session s in (after, some result)
    execute session (Statement.insert s) =
        let (after, result) = execute_insert session s in (after, some result)
    execute session (Statement.select s) = execute_select session s
    execute session (Statement.delete s) =
        let (after, result) = execute_delete session s in (after, some result)
    execute session (Statement.update s) = execute_update session s
    execute session (Statement.create_index s) =
        let (after, result) = execute_create_index session s in (after, some result)
    execute session (Statement.explain s) =
        let (after, result) = execute_explain session s in (after, some result)
