-- ===== src/Catalog/Tests.antt =====
-- src/catalog/catalog.cpp: the theorems at a small catalog, and runs of the code.
use curiodb.Prelude.{ℕ, ◌≡◌, ◌≢◌, ◌↔◌, true, false, List, [], ◌∷◌, none, some, refl, if◌then◌else◌}
use curiodb.Prelude.Text.{text_eq, to_lower}
use curiodb.Prelude.Dict.{lookup, contains, emplace, replace}
use curiodb.Types.{DataTypeKind}
use curiodb.Types.Order.{text_compare, is_lt}
use curiodb.Catalog.Schema.{ColumnSchema, normalize}
use curiodb.Catalog.Defs.{
  Catalog, Database, CatalogErrorCode, empty_catalog, create_database, create_table,
  create_table_in, check_columns, holds, selected_database, find_table, database_names, insert_name,
  sort_names, error, quoted,
}
use curiodb.Catalog.WellFormed.{IsCatalog, IsSchema}
use curiodb.Catalog.Calls.{run, Call, creates_database, uses_database, creates_table, run-IsCatalog}
use curiodb.Catalog.Lookup.{create_table-IsSchema, find_table-create_table}

abbrev id_column : ColumnSchema
id_column = record {
  name = b'i' ∷ b'd' ∷ [];
  type = record { kind = DataTypeKind.integer; length = none };
  primary_key = true;
  unique = true;
  not_null = true;
}

abbrev shop : Database
shop = record { name = b'S' ∷ b'h' ∷ b'o' ∷ b'p' ∷ []; tables = [] }

abbrev shop_key : List ℕ
shop_key = b's' ∷ b'h' ∷ b'o' ∷ b'p' ∷ []

abbrev with_shop : Catalog
with_shop = record { databases = (shop_key, shop) ∷ []; active_database_key = some shop_key }

abbrev items : List ℕ
items = b'I' ∷ b't' ∷ b'e' ∷ b'm' ∷ b's' ∷ []

calls : List Call
calls =
    creates_database shop.name ∷ uses_database shop_key ∷ creates_table items (id_column ∷ []) ∷ []

run-IsCatalog_example : IsCatalog (run empty_catalog calls)
run-IsCatalog_example = run-IsCatalog calls

chosen : selected_database with_shop ≡ some (shop_key, shop)
unfolding selected_database lookup text_eq
chosen = refl

create_table-IsSchema_example :
    ((create_table with_shop items (id_column ∷ [])).1 ≡ none)
    ↔ ((items ≢ []) × (lookup (normalize items) shop.tables ≡ none) × IsSchema (id_column ∷ []))
create_table-IsSchema_example =
    create_table-IsSchema with_shop shop_key shop items (id_column ∷ []) chosen

abbrev with_items : Catalog
with_items = record {
  databases =
      (
        shop_key,
        record {
          name = shop.name;
          tables =
              (
                b'i' ∷ b't' ∷ b'e' ∷ b'm' ∷ b's' ∷ [],
                record { name = items; columns = id_column ∷ [] },
              )
              ∷ [];
        },
      )
      ∷ [];
  active_database_key = some shop_key;
}

items_created : create_table with_shop items (id_column ∷ []) ≡ (with_items, none)
unfolding create_table create_table_in check_columns holds selected_database lookup text_eq contains
    emplace replace normalize to_lower
items_created = refl

find_table-create_table_example : find_table with_items items ≡ (
    if text_eq (normalize items) (normalize items)
    then some (record { name = items; columns = id_column ∷ [] })
    else find_table with_shop items)
find_table-create_table_example =
    find_table-create_table with_shop with_items items items (id_column ∷ []) items_created

new_shop_created : (create_database empty_catalog shop.name).1 ≡ none
unfolding create_database contains lookup
new_shop_created = refl

same_name : normalize shop_key ≡ normalize shop.name
unfolding normalize to_lower
same_name = refl

-- The same column twice, in another case.
duplicate_refused :
    (create_table with_shop items
      (id_column ∷ record id_column { name = b'I' ∷ b'D' ∷ []; primary_key = false } ∷ [])).1
    ≡ some (
        error CatalogErrorCode.duplicate_column
          (quoted "duplicate column '" (b'I' ∷ b'D' ∷ []) "'"))
unfolding create_table create_table_in check_columns holds selected_database lookup text_eq contains
    normalize to_lower
duplicate_refused = refl

names_sorted :
    database_names (record {
      databases = (shop_key, shop) ∷ (b'a' ∷ [], record { name = b'A' ∷ []; tables = [] }) ∷ [];
      active_database_key = none;
    })
    ≡ (b'A' ∷ []) ∷ shop.name ∷ []
unfolding database_names sort_names insert_name text_compare is_lt
names_sorted = refl
