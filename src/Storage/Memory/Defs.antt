-- ===== src/Storage/Memory/Defs.antt =====
-- src/storage/in_memory_table.cpp and in_memory_storage.cpp: the state and the operations.
use curiodb.Prelude.{
  ℕ, ◌+◌, ◌-◌, Bool, false, not, ◌||◌, List, [], ◌∷◌, ◌++◌, Option, none, some, if◌then◌else◌,
  length,
}
use curiodb.Prelude.Text.{text}
use curiodb.Prelude.Dict.{Dict, lookup, emplace, replace}
use curiodb.Types.{Value, is_null}
use curiodb.Types.Order.{value_eq}
use curiodb.Catalog.Schema.{ColumnSchema, TableSchema, normalize}
use curiodb.Storage.Row.{Row, at, set_at}
use curiodb.Storage.Validation.Defs.{RowValidationError, RowValidationErrorCode, validate_row}

pub record InMemoryTable : Type 0 where
  pub schema : TableSchema
  pub rows : List Row

-- `existing[column_index] == row[column_index]`, for rows that have the column.
unfoldable pub same_value : Option Value → Option Value → Bool
same_value none b = false
same_value (some a) none = false
same_value (some a) (some b) = value_eq a b

-- `std::any_of` over the rows.
unfoldable pub holds_value : List Row → ℕ → Option Value → Bool
unfolding at
holds_value [] index value = false
holds_value (row ∷ rows) index value =
    same_value (at row index) value || holds_value rows index value

unfoldable pub is_null_at : Option Value → Bool
is_null_at none = false
is_null_at (some v) = is_null v

unfoldable pub duplicate_error : ColumnSchema → RowValidationError
duplicate_error column = record {
  code = RowValidationErrorCode.type_mismatch;
  message =
      text "duplicate value for "
      ++ ((if column.primary_key then text "PRIMARY KEY '" else text "UNIQUE column '")
          ++ (column.name ++ text "'"));
  column_index = none;
}

-- The loop over the columns, from the column `index` on. The rows have a value in every column, `row` since it
-- is validated; past a row that is too short the source's read is undefined, and here no value is equal.
unfoldable pub check_unique : List ColumnSchema → ℕ → List Row → Row → Option RowValidationError
unfolding at
check_unique [] index rows row = none
check_unique (column ∷ columns) index rows row =
    let rest = check_unique columns (index + 1) rows row in
    if not (column.primary_key || column.unique)
    then rest
    else if is_null_at (at row index)
    then rest
    else if holds_value rows index (at row index)
    then some (duplicate_error column)
    else rest

unfoldable pub insert : InMemoryTable → Row → InMemoryTable × Option RowValidationError
insert table row = elim (validate_row table.schema row) [
  | some e ↦ (table, some e)
  | none ↦ elim (check_unique table.schema.columns 0 table.rows row) [
    | some e ↦ (table, some e)
    | none ↦ (record table { rows = table.rows ++ row ∷ [] }, none)
  ]
]

-- `std::erase_if`
unfoldable pub erase_if : (Row → Bool) → List Row → List Row
erase_if predicate [] = []
erase_if predicate (row ∷ rows) =
    let rest = erase_if predicate rows in if predicate row then rest else row ∷ rest

unfoldable pub delete_where : InMemoryTable → (Row → Bool) → InMemoryTable × ℕ
unfolding erase_if
delete_where table predicate =
    let rows = erase_if predicate table.rows in
    (record table { rows = rows }, length table.rows - length rows)

abbrev one_more : Option ℕ → Option ℕ
one_more none = none
one_more (some count) = some (count + 1)

-- The loop over the rows: the rows after it, and the number of rows that were set. `none` is the
-- exception of `Row::set`, which leaves the rows before as they were set, and the rows from there on alone.
unfoldable pub update_rows : (Row → Bool) → ℕ → Value → List Row → List Row × Option ℕ
unfolding set_at
update_rows predicate column_index value [] = ([], some 0)
update_rows predicate column_index value (row ∷ rows) =
    let (rest, count) = update_rows predicate column_index value rows in
    if predicate row
    then elim (set_at row column_index value) [
      | none ↦ (row ∷ rows, none)
      | some changed ↦ (changed ∷ rest, one_more count)
    ]
    else (row ∷ rest, count)

unfoldable pub update_where : InMemoryTable → (Row → Bool) → ℕ → Value → InMemoryTable × Option ℕ
unfolding update_rows
update_where table predicate column_index value =
    let (rows, count) = update_rows predicate column_index value table.rows in
    (record table { rows = rows }, count)

-- `databases_`: for each database its tables, by their names in lower case.
abbrev pub InMemoryStorage : Type 0
InMemoryStorage = Dict (Dict InMemoryTable)

-- `databases_[key]`
unfoldable pub tables_of : List ℕ → InMemoryStorage → Dict InMemoryTable
tables_of key databases = elim (lookup key databases) [ none ↦ [] | some tables ↦ tables ]

unfoldable pub create_table : InMemoryStorage → List ℕ → TableSchema → InMemoryStorage
unfolding tables_of
create_table databases database schema =
    let key = normalize database in
    let table : InMemoryTable = record { schema = schema; rows = [] } in
    let tables = emplace (normalize schema.name) table (tables_of key databases) in
    replace key tables (emplace key [] databases)

unfoldable pub find_table : InMemoryStorage → List ℕ → List ℕ → Option InMemoryTable
find_table databases database table = elim (lookup (normalize database) databases) [
  | none ↦ none
  | some tables ↦ lookup (normalize table) tables
]
