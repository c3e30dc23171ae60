-- ===== src/Execution/Executor/Defs.antt =====
-- src/execution/statement_executor.cpp: the state of an executor, and what it asks of its storage.
use curiodb.Prelude.{ℕ, Bool, true, false, List, [], Option, none, some}
use curiodb.Prelude.Int.{ℤ}
use curiodb.Prelude.Text.{text}
use curiodb.Prelude.Dict.{lookup, replace}
use curiodb.Prelude.Outcome.{Outcome, ok, err}
use curiodb.Types.{Value}
use curiodb.Catalog.Schema.{TableSchema, normalize}
use curiodb.Catalog.Defs.{Catalog}
use curiodb.Storage.Row.{Row}
use curiodb.Storage.Memory.Defs.{InMemoryTable, InMemoryStorage}
use curiodb.Storage.Memory.Defs
use curiodb.Execution.Operators.{scan_rows}
use curiodb.Execution.Planner.Defs.{StoredIndex, PlanNode}
use curiodb.Execution.Planner.Index.{scanned_key}

pub record QueryResult : Type 0 where
  pub columns : List (List ℕ)
  pub rows : List (List (List ℕ))

pub record ExecutionResult : Type 0 where
  pub success : Bool
  pub message : List ℕ
  pub query : Option QueryResult

abbrev pub failure : List ℕ → ExecutionResult
failure message = record { success = false; message = message; query = none }

abbrev pub success_with : List ℕ → ExecutionResult
success_with message = record { success = true; message = message; query = none }

pub record DiskStorageError : Type 0 where
  pub message : List ℕ

-- The operations of `storage::DiskStorage` over its state. Reading goes through a buffer pool, so that
-- it too has a new state.
pub record DiskOperations (State : Type 0) : Type 0 where
  pub create_database : State → List ℕ → State × Option DiskStorageError
  pub create_table : State → List ℕ → TableSchema → State × Option DiskStorageError
  pub create_index : State → List ℕ → List ℕ → List ℕ → List ℕ → State × Option DiskStorageError
  pub insert : State → List ℕ → List ℕ → Row → State × Option DiskStorageError
  pub scan : State → List ℕ → List ℕ → State × Outcome DiskStorageError (List Row)
  pub index_scan :
      State → List ℕ → List ℕ → List ℕ → ℤ → State × Outcome DiskStorageError (List Row)
  pub indexes : State → List ℕ → List ℕ → List StoredIndex
  pub delete_where : State → List ℕ → List ℕ → (Row → Bool) → State × Outcome DiskStorageError ℕ
  pub update_where :
      State → List ℕ → List ℕ → (Row → Bool) → ℕ → Value → State × Outcome DiskStorageError ℕ

-- One of `in_memory_storage_` and `disk_storage_` is set.
pub data Storage (State : Type 0) : Type 0 where
  in_memory : InMemoryStorage → Storage State
  on_disk : State → Storage State

-- The catalog and the storage that a `StatementExecutor` refers to.
pub record Session (State : Type 0) : Type 0 where
  pub catalog : Catalog
  pub storage : Storage State

abbrev pub unavailable : List ℕ
unavailable = text "table storage is unavailable"

-- A write through the pointer of `InMemoryStorage::find_table`.
unfoldable pub write_table : InMemoryStorage → List ℕ → List ℕ → InMemoryTable → InMemoryStorage
write_table databases database table value = elim (lookup (normalize database) databases) [
  | none ↦ databases
  | some tables ↦ replace (normalize database) (replace (normalize table) value tables) databases
]

abbrev pub error_message : Option DiskStorageError → Option (List ℕ)
error_message none = none
error_message (some e) = some e.message

abbrev pub with_message {ℓ} : {A : Type ℓ} → Outcome DiskStorageError A → Outcome (List ℕ) A
with_message (err e) = err e.message
with_message (ok a) = ok a

-- `if (disk_storage_ != nullptr) … else …` of each statement: the storage after it, and the message
-- of its error.
module _ {State : Type 0} (disk : DiskOperations State) where
  unfoldable pub store_database : Storage State → List ℕ → Storage State × Option (List ℕ)
  store_database (in_memory s) name = (in_memory s, none)
  store_database (on_disk s) name =
      let (after, failed) = disk.create_database s name in (on_disk after, error_message failed)

  unfoldable pub store_table :
      Storage State → List ℕ → TableSchema → Storage State × Option (List ℕ)
  store_table (in_memory s) database schema =
      (in_memory (Defs.create_table s database schema), none)
  store_table (on_disk s) database schema =
      let (after, failed) = disk.create_table s database schema in
      (on_disk after, error_message failed)

  unfoldable pub store_row : Storage State → List ℕ → List ℕ → Row → Storage State × Option (List ℕ)
  unfolding write_table
  store_row (in_memory s) database name row = elim (Defs.find_table s database name) [
    | none ↦ (in_memory s, some unavailable)
    | some table ↦
        let (after, failed) = Defs.insert table row in
        (
          in_memory (write_table s database name after),
          elim failed [ none ↦ none | some e ↦ some e.message ],
        )
  ]
  store_row (on_disk s) database name row =
      let (after, failed) = disk.insert s database name row in (on_disk after, error_message failed)

  unfoldable pub remove_rows :
      Storage State → List ℕ → List ℕ → (Row → Bool) → Storage State × Outcome (List ℕ) ℕ
  unfolding write_table
  remove_rows (in_memory s) database name predicate = elim (Defs.find_table s database name) [
    | none ↦ (in_memory s, err unavailable)
    | some table ↦
        let (after, count) = Defs.delete_where table predicate in
        (in_memory (write_table s database name after), ok count)
  ]
  remove_rows (on_disk s) database name predicate =
      let (after, counted) = disk.delete_where s database name predicate in
      (on_disk after, with_message counted)

  -- `none` is an exception of `InMemoryTable::update_where`.
  unfoldable pub change_rows :
      Storage State
      → List ℕ
      → List ℕ
      → (Row → Bool)
      → ℕ
      → Value
      → Storage State × Option (Outcome (List ℕ) ℕ)
  unfolding write_table
  change_rows (in_memory s) database name predicate column_index value =
      elim (Defs.find_table s database name) [
        | none ↦ (in_memory s, some (err unavailable))
        | some table ↦
            let (after, counted) = Defs.update_where table predicate column_index value in
            (
              in_memory (write_table s database name after),
              elim counted [ none ↦ none | some count ↦ some (ok count) ],
            )
      ]
  change_rows (on_disk s) database name predicate column_index value =
      let (after, counted) = disk.update_where s database name predicate column_index value in
      (on_disk after, some (with_message counted))

  unfoldable pub available_indexes : Storage State → List ℕ → List ℕ → List StoredIndex
  available_indexes (in_memory s) database name = []
  available_indexes (on_disk s) database name = disk.indexes s database name

  -- The rows that a plan is executed over.
  unfoldable pub planned_rows :
      Storage State → List ℕ → List ℕ → PlanNode → Storage State × Outcome (List ℕ) (List Row)
  planned_rows (in_memory s) database name plan = elim (Defs.find_table s database name) [
    | none ↦ (in_memory s, err unavailable)
    | some table ↦ (in_memory s, ok (scan_rows table))
  ]
  planned_rows (on_disk s) database name plan = elim (scanned_key plan) [
    | some (column_name, key) ↦
        let (after, scanned) = disk.index_scan s database name column_name key in
        (on_disk after, with_message scanned)
    | none ↦
        let (after, scanned) = disk.scan s database name in (on_disk after, with_message scanned)
  ]

  unfoldable pub store_index :
      Storage State → List ℕ → List ℕ → List ℕ → List ℕ → Storage State × Option (List ℕ)
  store_index (in_memory s) database name table column =
      (in_memory s, some (text "indexes require disk-backed storage"))
  store_index (on_disk s) database name table column =
      let (after, failed) = disk.create_index s database name table column in
      (on_disk after, error_message failed)
