-- ===== src/Storage/Validation/Defs.antt =====
-- src/storage/row_validation.cpp: the check of a row against a schema.
use curiodb.Prelude.{
  ℕ, ◌+◌, Bool, false, not, ◌&&◌, ◌||◌, List, [], ◌∷◌, ◌++◌, Option, none, some, if◌then◌else◌, ltb,
  ◌==◌, length, is_some,
}
use curiodb.Prelude.Text.{text, decimal}
use curiodb.Types.{
  DataTypeKind, Value, is_null, value_type, kind_eq, format_data_type, value_or_zero,
}
use curiodb.Catalog.Schema.{ColumnSchema, TableSchema}
use curiodb.Storage.Row.{Row, size}

pub data RowValidationErrorCode : Type 0 where
  value_count_mismatch type_mismatch varchar_too_long : RowValidationErrorCode
  invalid_schema null_not_allowed : RowValidationErrorCode

pub record RowValidationError : Type 0 where
  pub code : RowValidationErrorCode
  pub message : List ℕ
  pub column_index : Option ℕ

unfoldable pub value_type_name : DataTypeKind → List ℕ
value_type_name DataTypeKind.integer = text "INT"
value_type_name DataTypeKind.double = text "DOUBLE"
value_type_name DataTypeKind.varchar = text "VARCHAR"

unfoldable pub column_error :
    RowValidationErrorCode → ColumnSchema → ℕ → List ℕ → RowValidationError
column_error code column index detail = record {
  code = code;
  message = text "column '" ++ (column.name ++ (text "': " ++ detail));
  column_index = some index;
}

-- The number of bytes of a text; other values have none.
unfoldable pub text_size : Value → ℕ
text_size (Value.varchar s) = length s
text_size _ = 0

-- A length is given, and not zero.
unfoldable pub has_length : Option ℕ → Bool
has_length none = false
has_length (some n) = not (n == 0)

-- One round of the loop over the columns.
unfoldable pub check_value : ColumnSchema → ℕ → Value → Option RowValidationError
unfolding column_error has_length kind_eq
check_value column index value =
    let varchar = kind_eq column.type.kind DataTypeKind.varchar in
    if (varchar && not (has_length column.type.length))
      || (not varchar && is_some column.type.length)
    then some (
        column_error RowValidationErrorCode.invalid_schema column index
          (text "invalid type definition"))
    else if is_null value
    then if column.not_null || column.primary_key
      then some (
          column_error RowValidationErrorCode.null_not_allowed column index
            (text "NULL is not allowed"))
      else none
    else if not (kind_eq (value_type value) column.type.kind)
    then some (
        column_error RowValidationErrorCode.type_mismatch column index (
          text "expected "
          ++ (format_data_type column.type
              ++ (text ", received " ++ value_type_name (value_type value)))))
    else if varchar && ltb (value_or_zero column.type.length) (text_size value)
    then some (
        column_error RowValidationErrorCode.varchar_too_long column index (
          text "VARCHAR value has "
          ++ (decimal (text_size value)
              ++ (text " bytes, maximum is " ++ decimal (value_or_zero column.type.length)))))
    else none

-- The loop, from the column `index` on: its first error. There is a value for each column.
unfoldable pub check_values : List ColumnSchema → List Value → ℕ → Option RowValidationError
check_values [] values index = none
check_values (column ∷ columns) [] index = none
check_values (column ∷ columns) (value ∷ values) index = elim (check_value column index value) [
  | some e ↦ some e
  | none ↦ check_values columns values (index + 1)
]

unfoldable pub validate_row : TableSchema → Row → Option RowValidationError
unfolding size
validate_row schema row =
    if not (size row == length schema.columns)
    then some (record {
      code = RowValidationErrorCode.value_count_mismatch;
      message =
          text "expected "
          ++ (decimal (length schema.columns) ++ (text " values, received " ++ decimal (size row)));
      column_index = none;
    })
    else check_values schema.columns row.values 0
