-- ===== src/Execution/Executor/Steps.antt =====
-- src/execution/statement_executor.cpp: each statement keeps the catalog and the tables in memory in
-- step.
use curiodb.Prelude.{inl, inr, refl, Option-cases, map}
use curiodb.Prelude.Outcome.{Outcome-cases}
use curiodb.Catalog.Defs.{Catalog, create_database}
use curiodb.Catalog.Calls.{create_database-IsCatalog}
use curiodb.Storage.Row.{Row}
use curiodb.Storage.Memory.Defs
use curiodb.Storage.Memory.Defs.{InMemoryTable, InMemoryStorage}
use curiodb.Sql.Ast.{CreateDatabaseStatement, InsertStatement, DeleteStatement, UpdateStatement}
use curiodb.Execution.Executor.Copies.{executor_value}
use curiodb.Execution.Executor.Defs.{
  DiskOperations, Storage, Session, store_database, store_row, remove_rows, change_rows,
}
use curiodb.Execution.Executor.Statements.{selected_table, clause_predicate, bound_update}
use curiodb.Execution.Executor.Execute.{
  execute_insert, execute_delete, execute_update, execute_create_database,
}
use curiodb.Execution.Executor.Views.{create_database-schema_at}
use curiodb.Execution.Executor.Keeps.{bound_update-Takes, update_where-IsFit}
use curiodb.Execution.Executor.Sound.{
  IsSound, write_table-IsSound, selected_table-table_at, insert-IsFit, delete_where-IsFit,
}

-- The session of a catalog and of tables in memory that are in step.
abbrev pub IsSoundStorage : {State : Type 0} → Catalog → Storage State → Type 0
IsSoundStorage c (Storage.in_memory s) = IsSound c s
IsSoundStorage c (Storage.on_disk s) = ⊥

abbrev pub IsSoundSession : {State : Type 0} → Session State → Type 0
IsSoundSession session = IsSoundStorage session.catalog session.storage

abbrev pub in_step : {State : Type 0} → Catalog → InMemoryStorage → Session State
in_step c s = record { catalog = c; storage = Storage.in_memory s }

module _ {State : Type 0} (disk : DiskOperations State) (c : Catalog) (s : InMemoryStorage)
    (h : IsSound c s) where
  pub execute_insert-IsSound :
      (statement : InsertStatement) → IsSoundSession (execute_insert disk (in_step c s) statement).0
  unfolding execute_insert store_row
  execute_insert-IsSound statement = elim (Outcome-cases (selected_table c statement.table_name)) [
    | inr (_, failed) ↦ rw (failed, execute_insert) h
    | inl ((database, schema), there) ↦
        let (table, stored, found, same, fit) =
          selected_table-table_at c s database statement.table_name schema h there in
        let row : Row = record { values = map (λ l. executor_value l.value) statement.values } in
        let (kept, fit') = insert-IsFit table row fit in
        rw (there, execute_insert)
          (rw (found, store_row)
            (write_table-IsSound c s database statement.table_name table (Defs.insert table row).0 h
              stored kept fit'))
  ]

  pub execute_delete-IsSound :
      (statement : DeleteStatement) → IsSoundSession (execute_delete disk (in_step c s) statement).0
  unfolding execute_delete remove_rows
  execute_delete-IsSound statement = elim (Outcome-cases (selected_table c statement.table_name)) [
    | inr (_, failed) ↦ rw (failed, execute_delete) h
    | inl ((database, schema), there) ↦
        elim (Outcome-cases (clause_predicate schema.columns statement.where_clause)) [
          | inr (_, failed) ↦ rw (there, execute_delete) (rw failed h)
          | inl (p, bound) ↦
              let (table, stored, found, same, fit) =
                selected_table-table_at c s database statement.table_name schema h there in
              rw (there, execute_delete)
                (rw bound (
                  rw (found, remove_rows)
                    (write_table-IsSound c s database statement.table_name table
                      (Defs.delete_where table p).0 h stored (unfold Defs.delete_where in refl)
                      (delete_where-IsFit table p fit))))
        ]
  ]

  pub execute_update-IsSound :
      (statement : UpdateStatement) → IsSoundSession (execute_update disk (in_step c s) statement).0
  unfolding execute_update change_rows
  execute_update-IsSound statement = elim (Outcome-cases (selected_table c statement.table_name)) [
    | inr (_, failed) ↦ rw (failed, execute_update) h
    | inl ((database, schema), there) ↦ elim (Outcome-cases (bound_update schema statement)) [
      | inr (_, failed) ↦ rw (there, execute_update) (rw failed h)
      | inl ((p, index), bound) ↦
          let (table, stored, found, same, fit) =
            selected_table-table_at c s database statement.table_name schema h there in
          let (column, at_index, takes) = bound_update-Takes schema statement p index bound in
          let v = executor_value statement.value.value in
          let (kept, fit', _) =
            update_where-IsFit table schema p index v column same at_index takes fit in
          rw (there, execute_update)
            (rw bound (
              rw (found, change_rows)
                (write_table-IsSound c s database statement.table_name table
                  (Defs.update_where table p index v).0 h stored kept fit')))
    ]
  ]

  pub execute_create_database-IsSound :
      (statement : CreateDatabaseStatement)
      → IsSoundSession (execute_create_database disk (in_step c s) statement).0
  unfolding execute_create_database store_database
  execute_create_database-IsSound statement =
      let after : IsSound (create_database c statement.name).0 s = record {
        catalog = create_database-IsCatalog c statement.name h.catalog;
        synced = λ k t. rw (create_database-schema_at c statement.name k t) (h.synced k t);
      } in
      elim (Option-cases (create_database c statement.name).1) [
        | inr (e, refused) ↦ rw (refused, execute_create_database) after
        | inl accepted ↦ rw (accepted, execute_create_database) after
      ]
