-- ===== src/Execution/Executor/Failures.antt =====
-- src/execution/statement_executor.cpp: which statements are answered, and what stays of a statement that
-- the storage fails.
use curiodb.Prelude.{
  ℕ, ◌≡◌, inl, inr, refl, true, false, List, [], Option, none, some, arith, Bool-cases,
  Option-cases, is_some,
}
use curiodb.Prelude.Dict.{lookup, contains}
use curiodb.Prelude.Outcome.{Outcome-cases}
use curiodb.Catalog.Schema.{normalize}
use curiodb.Catalog.Defs.{
  Catalog, CatalogErrorCode, Database, error, create_database, is_empty, quoted,
}
use curiodb.Catalog.Lookup.{create_database-lookup}
use curiodb.Storage.Memory.Defs
use curiodb.Storage.Memory.Defs.{InMemoryStorage}
use curiodb.Sql.Ast.{CreateDatabaseStatement, SelectStatement, UpdateStatement, Statement}
use curiodb.Execution.Executor.Copies.{executor_value}
use curiodb.Execution.Planner.Plan.{plan_select}
use curiodb.Execution.Executor.Defs.{
  DiskOperations, DiskStorageError, Storage, failure, store_database, change_rows,
}
use curiodb.Execution.Executor.Statements.{selected_table, result_of, bound_update}
use curiodb.Execution.Executor.Execute.{
  execute_create_database, execute_select, execute_update, execute,
}
use curiodb.Execution.Executor.Sound.{IsSound, selected_table-table_at}
use curiodb.Execution.Executor.Keeps.{bound_update-Takes, update_where-IsFit}
use curiodb.Execution.Executor.Steps.{in_step}
use curiodb.Execution.Executor.Results.{execute_select-answers}

named_database :
    (c : Catalog) (name : List ℕ) → (create_database c name).1 ≡ none → is_empty name ≡ false
unfolding create_database
named_database c name e = elim (Bool-cases (is_empty name)) [
  | inl nameless ↦ absurd (ground arith)
  | inr named ↦ named
]

create_database_again :
    (c : Catalog) (name : List ℕ) (d : Database)
    → is_empty name ≡ false
    → lookup (normalize name) c.databases ≡ some d
    → (create_database c name).1
      ≡ some (
          error CatalogErrorCode.database_already_exists
            (quoted "database '" name "' already exists"))
unfolding create_database contains
create_database_again c name d named there = rw (named, create_database) (rw there refl)

module _ {State : Type 0} (disk : DiskOperations State) where
  select_answers :
      (print_double : ℕ → Option (List ℕ)) (c : Catalog) (s : InMemoryStorage)
      (statement : SelectStatement)
      → IsSound c s
      → is_some (execute_select disk print_double (in_step c s) statement).1 ≡ true
  unfolding execute_select
  select_answers print_double c s statement h =
      elim (Outcome-cases (selected_table c statement.table_name)) [
        | inr (_, failed) ↦ rw (failed, execute_select) refl
        | inl ((database, schema), there) ↦
            elim (Outcome-cases (plan_select print_double statement schema [])) [
              | inr (_, failed) ↦ rw (there, execute_select) (rw failed refl)
              | inl (plan, made) ↦
                  let (_, _, answer) =
                    execute_select-answers disk c s print_double statement database schema plan h
                      there made in
                  rw answer refl
            ]
      ]

  -- The rows of the table have the column that UPDATE sets.
  update_answers :
      (c : Catalog) (s : InMemoryStorage) (statement : UpdateStatement)
      → IsSound c s
      → is_some (execute_update disk (in_step c s) statement).1 ≡ true
  unfolding execute_update change_rows
  update_answers c s statement h = elim (Outcome-cases (selected_table c statement.table_name)) [
    | inr (_, failed) ↦ rw (failed, execute_update) refl
    | inl ((database, schema), there) ↦ elim (Outcome-cases (bound_update schema statement)) [
      | inr (_, failed) ↦ rw (there, execute_update) (rw failed refl)
      | inl ((p, index), bound) ↦
          let (table, stored, found, same, fit) =
            selected_table-table_at c s database statement.table_name schema h there in
          let (column, at_index, takes) = bound_update-Takes schema statement p index bound in
          let v = executor_value statement.value.value in
          let (_, _, answered) =
            update_where-IsFit table schema p index v column same at_index takes fit in
          elim (Option-cases (Defs.update_where table p index v).1) [
            | inl thrown ↦ absurd (ground arith)
            | inr (count, counted) ↦
                rw (there, execute_update) (rw bound (rw (found, change_rows) (rw counted refl)))
          ]
    ]
  ]

  -- In memory, with the catalog and the tables in step, every statement is answered: `Row::set` of an UPDATE
  -- throws for no row, and a SELECT ends in a projection that reads no row past its last value.
  pub execute-is_some :
      (print_double : ℕ → Option (List ℕ)) (c : Catalog) (s : InMemoryStorage)
      (statement : Statement)
      → IsSound c s
      → is_some (execute disk print_double (in_step c s) statement).1 ≡ true
  unfolding execute
  execute-is_some print_double c s (Statement.create_database q) h = refl
  execute-is_some print_double c s (Statement.use_database q) h = refl
  execute-is_some print_double c s (Statement.create_table q) h = refl
  execute-is_some print_double c s (Statement.insert q) h = refl
  execute-is_some print_double c s (Statement.select q) h = select_answers print_double c s q h
  execute-is_some print_double c s (Statement.delete q) h = refl
  execute-is_some print_double c s (Statement.update q) h = update_answers c s q h
  execute-is_some print_double c s (Statement.create_index q) h = refl
  execute-is_some print_double c s (Statement.explain q) h = refl

  -- CREATE DATABASE that the catalog takes and the disk fails is answered with the disk's message, and
  -- leaves the database in the catalog: the same statement again is answered that it already exists.
  pub execute_create_database_failed :
      (c : Catalog) (state after : State) (e : DiskStorageError)
      (statement : CreateDatabaseStatement)
      → (create_database c statement.name).1 ≡ none
      → disk.create_database state statement.name ≡ (after, some e)
      → let (left, answer) =
          execute_create_database disk
            (record { catalog = c; storage = Storage.on_disk state })
            statement in
        (answer ≡ failure e.message)
        × ((execute_create_database disk left statement).1
            ≡ failure (quoted "database '" statement.name "' already exists"))
  unfolding execute_create_database store_database result_of error
  execute_create_database_failed c state after e statement accepted failed =
      let name = statement.name in
      let left = (create_database c name).0 in
      let again =
        create_database_again left name _ (named_database c name accepted)
          (create_database-lookup c name accepted) in
      (
        rw (accepted, execute_create_database) (rw (failed, store_database) refl),
        rw (accepted, execute_create_database) (rw (again, execute_create_database) refl),
      )
