-- ===== src/Execution/Executor/Runs.antt =====
-- src/execution/statement_executor.cpp: a run of statements keeps the catalog and the tables in step.
use curiodb.Prelude.{ℕ, ◌≡◌, inl, inr, refl, ap, List, [], ◌∷◌, Option, Option-cases, map}
use curiodb.Prelude.Dict.{lookup}
use curiodb.Prelude.Outcome.{Outcome-cases}
use curiodb.Catalog.Defs.{Catalog, empty_catalog}
use curiodb.Catalog.WellFormed.{selected_database-lookup}
use curiodb.Catalog.Calls.{use_database-IsCatalog, create_table-IsCatalog}
use curiodb.Storage.Memory.Defs
use curiodb.Storage.Memory.Defs.{InMemoryTable, InMemoryStorage}
use curiodb.Sql.Ast.{
  CreateIndexStatement, ExplainStatement, UseDatabaseStatement, CreateTableStatement,
  SelectStatement, Statement,
}
use curiodb.Execution.Planner.Plan.{plan_select}
use curiodb.Execution.Executor.Defs.{
  DiskOperations, Storage, Session, store_table, store_index, available_indexes, planned_rows,
}
use curiodb.Execution.Executor.Statements.{selected_table, column_of, execute_use_database}
use curiodb.Execution.Executor.Execute.{
  execute_create_table, execute_create_index, execute_select, execute_explain, execute,
}
use curiodb.Execution.Executor.Views.{schema_at, table_at}
use curiodb.Execution.Executor.Sound.{IsSound}
use curiodb.Execution.Executor.Steps.{
  IsSoundStorage, IsSoundSession, in_step, execute_insert-IsSound, execute_delete-IsSound,
  execute_update-IsSound, execute_create_database-IsSound,
}
use curiodb.Execution.Executor.InStep.{
  create_table-cases, new_table-IsSound, selected_table-with_table, use_database-schema_at,
}

module _ {State : Type 0} (disk : DiskOperations State) (c : Catalog) (s : InMemoryStorage)
    (h : IsSound c s) where
  execute_create_table-IsSound :
      (statement : CreateTableStatement)
      → IsSoundSession (execute_create_table disk (in_step c s) statement).0
  unfolding execute_create_table store_table
  execute_create_table-IsSound statement =
      let name = statement.name in
      let columns = map column_of statement.columns in
      elim (create_table-cases c name columns) [
        | inl (e, refused) ↦
            rw (ap (λ r. r.1) refused, execute_create_table) (rw (ap (λ r. r.0) refused) h)
        | inr (key, d, chosen, fresh, made) ↦
            let v = create_table-IsCatalog c name columns h.catalog in
            let there = selected_database-lookup c key d chosen in
            rw (ap (λ r. r.1) made, ap (λ r. r.0) made, execute_create_table)
              (rw (selected_table-with_table c key d name columns chosen fresh) (
                rw (ap (λ r. r.0) made)
                  (new_table-IsSound c s key d name columns h (rw made at v) there fresh)))
      ]

  execute_use_database-IsSound :
      (statement : UseDatabaseStatement)
      → IsSoundSession (execute_use_database (in_step {State = State} c s) statement).0
  unfolding execute_use_database
  execute_use_database-IsSound statement = record {
    catalog = use_database-IsCatalog c statement.name h.catalog;
    synced = λ k t. rw (use_database-schema_at c statement.name k t) (h.synced k t);
  }

  execute_create_index-in_step :
      (statement : CreateIndexStatement)
      → (execute_create_index disk (in_step c s) statement).0 ≡ in_step c s
  unfolding execute_create_index store_index
  execute_create_index-in_step statement =
      elim (Outcome-cases (selected_table c statement.table_name)) [
        | inr (_, failed) ↦ rw (failed, execute_create_index) refl
        | inl (found, there) ↦ rw (there, execute_create_index) refl
      ]

  module _ (print_double : ℕ → Option (List ℕ)) where
    execute_select-in_step :
        (statement : SelectStatement)
        → (execute_select disk print_double (in_step c s) statement).0 ≡ in_step c s
    unfolding execute_select available_indexes planned_rows
    execute_select-in_step statement =
        elim (Outcome-cases (selected_table c statement.table_name)) [
          | inr (_, failed) ↦ rw (failed, execute_select) refl
          | inl ((database, schema), there) ↦
              elim (Outcome-cases (plan_select print_double statement schema [])) [
                | inr (_, failed) ↦ rw (there, execute_select) (rw failed refl)
                | inl (plan, made) ↦
                    elim (Option-cases (Defs.find_table s database statement.table_name)) [
                      | inl missing ↦
                          rw (there, execute_select) (rw made (rw (missing, planned_rows) refl))
                      | inr (table, found) ↦
                          rw (there, execute_select) (rw made (rw (found, planned_rows) refl))
                    ]
              ]
        ]

    execute_explain-in_step :
        (statement : ExplainStatement)
        → (execute_explain disk print_double (in_step c s) statement).0 ≡ in_step c s
    unfolding execute_explain available_indexes
    execute_explain-in_step statement =
        elim (Outcome-cases (selected_table c statement.select.table_name)) [
          | inr (_, failed) ↦ rw (failed, execute_explain) refl
          | inl ((database, schema), there) ↦
              elim (Outcome-cases (plan_select print_double statement.select schema [])) [
                | inr (_, failed) ↦ rw (there, execute_explain) (rw failed refl)
                | inl (plan, made) ↦ rw (there, execute_explain) (rw made refl)
              ]
        ]

    execute-IsSound_memory :
        (statement : Statement)
        → IsSoundSession (execute disk print_double (in_step c s) statement).0
    unfolding execute
    execute-IsSound_memory (Statement.create_database q) =
        execute_create_database-IsSound disk c s h q
    execute-IsSound_memory (Statement.use_database q) = execute_use_database-IsSound q
    execute-IsSound_memory (Statement.create_table q) = execute_create_table-IsSound q
    execute-IsSound_memory (Statement.insert q) = execute_insert-IsSound disk c s h q
    execute-IsSound_memory (Statement.select q) = rw (execute_select-in_step q) h
    execute-IsSound_memory (Statement.delete q) = execute_delete-IsSound disk c s h q
    execute-IsSound_memory (Statement.update q) = execute_update-IsSound disk c s h q
    execute-IsSound_memory (Statement.create_index q) = rw (execute_create_index-in_step q) h
    execute-IsSound_memory (Statement.explain q) = rw (execute_explain-in_step q) h

module _ {State : Type 0} (disk : DiskOperations State) (print_double : ℕ → Option (List ℕ)) where
  execute-IsSound_step :
      (c : Catalog) (storage : Storage State) (statement : Statement)
      → IsSoundStorage c storage
      → IsSoundSession
          (execute disk print_double (record { catalog = c; storage = storage }) statement).0
  execute-IsSound_step c (Storage.in_memory s) statement h =
      execute-IsSound_memory disk c s h print_double statement
  execute-IsSound_step c (Storage.on_disk s) statement h = absurd h

  -- The session after the statements, whatever each of them answered.
  unfoldable pub execute_all : Session State → List Statement → Session State
  execute_all session [] = session
  execute_all session (q ∷ rest) = execute_all (execute disk print_double session q).0 rest

  pub execute_all-IsSound :
      (session : Session State) (statements : List Statement)
      → IsSoundSession session
      → IsSoundSession (execute_all session statements)
  unfolding execute_all
  execute_all-IsSound session [] h = h
  execute_all-IsSound session (q ∷ rest) h =
      execute_all-IsSound (execute disk print_double session q).0 rest
        (execute-IsSound_step session.catalog session.storage q h)

  empty-IsSound : IsSound empty_catalog []
  unfolding schema_at table_at lookup
  empty-IsSound = record {
    catalog = record { distinct = tt; databases = tt; selected = tt };
    synced = λ k t. tt;
  }

  -- After any statements on a new session in memory, whether or not each succeeded: the catalog is well
  -- formed; a table of the catalog is in the storage under the same keys with the same schema, and a table
  -- of the storage in the catalog; and each row of each table fits its schema.
  pub new_session-IsSound :
      (statements : List Statement)
      → IsSoundSession (execute_all (in_step empty_catalog []) statements)
  new_session-IsSound statements =
      execute_all-IsSound (in_step empty_catalog []) statements empty-IsSound
