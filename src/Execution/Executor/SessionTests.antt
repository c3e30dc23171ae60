-- ===== src/Execution/Executor/SessionTests.antt =====
-- A session in memory after five statements, and a disk that fails.
use curiodb.Prelude.{
  ℕ, ◌≡◌, refl, true, false, List, [], ◌∷◌, Option, none, some, is_some, if◌then◌else◌, length,
}
use mathlib.Core.Option
use curiodb.Prelude.Int.{pos, int_eq}
use curiodb.Prelude.Text.{text, text_eq, to_lower}
use curiodb.Prelude.Dict.{lookup, contains, emplace, replace}
use curiodb.Prelude.Outcome.{ok, err}
use curiodb.Types.{DataTypeKind, Value, is_null, kind_eq, value_type}
use curiodb.Types.Order.{value_eq}
use curiodb.Catalog.Schema.{TableSchema, normalize}
use curiodb.Catalog.Defs.{
  Catalog, empty_catalog, create_database, use_database, create_table, create_table_in,
  check_columns, holds, selected_database, database_at, active_database, find_table, quoted,
}
use curiodb.Storage.Row.{Row}
use curiodb.Storage.Validation.Defs.{validate_row, check_values, check_value}
use curiodb.Storage.Memory.Defs
use curiodb.Storage.Memory.Defs.{InMemoryTable, InMemoryStorage, tables_of}
use curiodb.Sql.Token.{SourceLocation}
use curiodb.Sql.Ast.{
  LiteralValue, Literal, ComparisonOperator, Expression, CreateDatabaseStatement, InsertStatement,
  DeleteStatement, SelectStatement, Statement,
}
use curiodb.Execution.Executor.Copies.{executor_value}
use curiodb.Execution.Executor.Defs.{
  DiskOperations, DiskStorageError, Storage, failure, write_table, store_row, store_table,
  store_database,
}
use curiodb.Execution.Executor.Statements.{selected_table, counted, column_of, execute_use_database}
use curiodb.Execution.Executor.Execute.{
  execute, execute_create_database, execute_create_table, execute_insert, execute_delete,
  execute_select,
}
use curiodb.Execution.Executor.Sound.{IsSound}
use curiodb.Execution.Executor.Steps.{IsSoundSession, in_step}
use curiodb.Execution.Planner.Plan.{plan_select, requested_columns}
use curiodb.Execution.Planner.Defs.{PlanNode}
use curiodb.Execution.Planner.Meaning.{answers}
use curiodb.Execution.Executor.Views.{table_at, at_key}
use curiodb.Execution.Executor.Results.{titles, execute_select-answers}
use curiodb.Execution.Executor.Changes.{
  selected_key, with_spared, session_table, with_row, inserted_row, execute_insert-session_table,
  execute_delete-spared,
}
use curiodb.Execution.Executor.Failures.{execute-is_some, execute_create_database_failed}
use curiodb.Execution.Executor.Runs.{execute_all, new_session-IsSound}

abbrev place : SourceLocation
place = record { offset = 0; line = 1; column = 1 }

abbrev refused : DiskStorageError
refused = record { message = text "no space" }

abbrev full_disk : DiskOperations (Unit {0})
full_disk = record {
  create_database = λ s name. (s, some refused);
  create_table = λ s database schema. (s, some refused);
  create_index = λ s database name table column. (s, some refused);
  insert = λ s database name row. (s, some refused);
  scan = λ s database name. (s, err refused);
  index_scan = λ s database name column key. (s, err refused);
  indexes = λ s database name. [];
  delete_where = λ s database name predicate. (s, err refused);
  update_where = λ s database name predicate index value. (s, err refused);
}

abbrev no_printing : ℕ → Option (List ℕ)
no_printing d = none

abbrev create_shop : CreateDatabaseStatement
create_shop = record { name = text "Shop"; location = place }

abbrev number : ℕ → Literal
number n = record { value = LiteralValue.integer (pos n); location = place }

abbrev insert_item : ℕ → InsertStatement
insert_item n = record { table_name = text "ITEMS"; values = number n ∷ []; location = place }

abbrev script : List Statement
script =
    Statement.create_database create_shop
    ∷ Statement.use_database (record { name = text "SHOP"; location = place })
    ∷ Statement.create_table (record {
      name = text "Items";
      columns =
          record {
            name = text "id";
            type = record { kind = DataTypeKind.integer; length = none };
            primary_key = true;
            unique = false;
            not_null = false;
            location = place;
          }
          ∷ [];
      location = place;
    })
    ∷ Statement.insert (insert_item 1)
    ∷ Statement.insert (insert_item 2)
    ∷ []

abbrev items : TableSchema
items = record {
  name = text "Items";
  columns =
      record {
        name = text "id";
        type = record { kind = DataTypeKind.integer; length = none };
        primary_key = true;
        unique = false;
        not_null = false;
      }
      ∷ [];
}

abbrev shop : Catalog
shop = record {
  databases =
      (text "shop", record { name = text "Shop"; tables = (text "items", items) ∷ [] }) ∷ [];
  active_database_key = some (text "shop");
}

abbrev row_of : ℕ → Row
row_of n = record { values = Value.integer (pos n) ∷ [] }

abbrev stock : InMemoryStorage
stock =
    (text "shop", (text "items", record { schema = items; rows = row_of 1 ∷ row_of 2 ∷ [] }) ∷ [])
    ∷ []

after_script :
    execute_all full_disk no_printing (in_step empty_catalog []) script ≡ in_step shop stock
unfolding execute_all execute execute_create_database execute_use_database execute_create_table
    execute_insert selected_table column_of store_database store_table store_row write_table
    create_database use_database create_table create_table_in check_columns holds selected_database
    database_at active_database find_table quoted contains emplace replace lookup normalize to_lower
    text text_eq Defs.create_table Defs.find_table Defs.insert Defs.check_unique tables_of
    validate_row executor_value is_null kind_eq value_type value_eq int_eq check_values check_value
    Defs.is_null_at Defs.holds_value Defs.same_value
after_script = refl

shop-IsSound : IsSound shop stock
shop-IsSound =
    let sound : IsSoundSession
        (execute_all full_disk no_printing (in_step empty_catalog []) script) =
      new_session-IsSound full_disk no_printing script in
    rw after_script at sound

new_session-IsSound_example :
    IsSoundSession (execute_all full_disk no_printing (in_step empty_catalog []) script)
new_session-IsSound_example = new_session-IsSound full_disk no_printing script

abbrev all_items : SelectStatement
all_items = record {
  columns = [];
  table_name = text "items";
  where_clause = none;
  location = place;
}

selected_items : selected_table shop (text "items") ≡ ok (text "Shop", items)
unfolding selected_table active_database find_table selected_database database_at lookup text_eq
    normalize to_lower text
selected_items = refl

selected_in_capitals : selected_table shop (text "ITEMS") ≡ ok (text "Shop", items)
unfolding selected_table active_database find_table selected_database database_at lookup text_eq
    normalize to_lower text
selected_in_capitals = refl

abbrev items_plan : PlanNode
items_plan = PlanNode.projection (0 ∷ []) (text "id" ∷ []) (PlanNode.sequential_scan (text "Items"))

planned_items : plan_select no_printing all_items items [] ≡ ok items_plan
unfolding plan_select requested_columns
planned_items = refl

abbrev one_is_2 : DeleteStatement
one_is_2 = record {
  table_name = text "items";
  where_clause = some (
      Expression.comparison (record {
        column_name = text "ID";
        operation = ComparisonOperator.equal;
        value = number 2;
        location = place;
      }));
  location = place;
}

execute-is_some_example :
    is_some (execute full_disk no_printing (in_step shop stock) (Statement.select all_items)).1
    ≡ true
execute-is_some_example =
    execute-is_some full_disk no_printing shop stock (Statement.select all_items) shop-IsSound

execute_insert-session_table_example :
    session_table
      (execute_insert full_disk (in_step shop stock) (insert_item 3)).0
      (text "shop")
      (text "items")
    ≡ (if (execute_insert full_disk (in_step shop stock) (insert_item 3)).1.success
        then at_key
            (selected_key shop)
            (normalize (text "ITEMS"))
            (text "shop")
            (text "items")
            (Option.map
              (with_row (inserted_row (insert_item 3)))
              (table_at stock (text "shop") (text "items")))
            (table_at stock (text "shop") (text "items"))
        else table_at stock (text "shop") (text "items"))
execute_insert-session_table_example =
    execute_insert-session_table full_disk shop stock (insert_item 3) (text "shop") (text "items")
      shop-IsSound

accepted : (create_database empty_catalog (text "Shop")).1 ≡ none
unfolding create_database contains lookup text
accepted = refl

execute_create_database_failed_example :
    ((execute_create_database full_disk
        (record { catalog = empty_catalog; storage = Storage.on_disk tt })
        create_shop).1
      ≡ failure refused.message)
    × ((execute_create_database full_disk
          (execute_create_database full_disk
            (record { catalog = empty_catalog; storage = Storage.on_disk tt })
            create_shop).0
          create_shop).1
        ≡ failure (quoted "database '" (text "Shop") "' already exists"))
execute_create_database_failed_example =
    execute_create_database_failed full_disk empty_catalog tt tt refused create_shop accepted refl

execute_select-answers_example :
    (table : InMemoryTable) × (Defs.find_table stock (text "Shop") (text "items") ≡ some table)
    × (execute_select full_disk no_printing (in_step shop stock) all_items ≡ (
      in_step shop stock,
      some (record {
        success = true;
        message =
            counted
              (length (answers no_printing items all_items table.rows))
              " row selected."
              " rows selected.";
        query = some (record {
          columns = titles items.columns [];
          rows = answers no_printing items all_items table.rows;
        });
      }),
    ))
execute_select-answers_example =
    execute_select-answers full_disk shop stock no_printing all_items (text "Shop") items items_plan
      shop-IsSound selected_items planned_items

execute_delete-spared_example :
    session_table
      (execute_delete full_disk (in_step shop stock) one_is_2).0
      (text "shop")
      (text "items")
    ≡ (if (execute_delete full_disk (in_step shop stock) one_is_2).1.success
        then at_key
            (selected_key shop)
            (normalize (text "items"))
            (text "shop")
            (text "items")
            (Option.map
              (with_spared one_is_2.where_clause)
              (table_at stock (text "shop") (text "items")))
            (table_at stock (text "shop") (text "items"))
        else table_at stock (text "shop") (text "items"))
execute_delete-spared_example =
    execute_delete-spared full_disk shop stock one_is_2 (text "shop") (text "items") shop-IsSound
