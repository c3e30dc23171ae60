-- ===== src/Types.antt =====
-- include/curiodb/types and src/types: the SQL data types and the runtime values.
--
-- An int64_t is a `ℤ` in range. A double is its 64-bit IEEE 754 pattern (the source asserts
-- `is_iec559`); what the source does with doubles is compared, stored and printed, and the printing
-- (`std::to_chars`) is a parameter.
pub mod Double
pub mod Order
mod Tests
use curiodb.Prelude.{
  ℕ, Bool, true, false, Option, none, some, List, [], ◌++◌, ◌&&◌, ltb, ◌==◌, if◌then◌else◌,
}
use curiodb.Prelude.Int.{ℤ}
use curiodb.Prelude.Text.{text, decimal, decimal_int}

pub data DataTypeKind : Type 0 where
  integer double varchar : DataTypeKind

unfoldable pub kind_eq : DataTypeKind → DataTypeKind → Bool
kind_eq DataTypeKind.integer DataTypeKind.integer = true
kind_eq DataTypeKind.double DataTypeKind.double = true
kind_eq DataTypeKind.varchar DataTypeKind.varchar = true
kind_eq _ _ = false

pub record DataType : Type 0 where
  pub kind : DataTypeKind
  pub length : Option ℕ

-- `length.value_or(0)`
unfoldable pub value_or_zero : Option ℕ → ℕ
value_or_zero none = 0
value_or_zero (some n) = n

unfoldable pub format_kind : DataTypeKind → Option ℕ → List ℕ
unfolding value_or_zero
format_kind DataTypeKind.integer length = text "INT"
format_kind DataTypeKind.double length = text "DOUBLE"
format_kind DataTypeKind.varchar length =
    text "VARCHAR(" ++ (decimal (value_or_zero length) ++ text ")")

unfoldable pub format_data_type : DataType → List ℕ
unfolding format_kind
format_data_type t = format_kind t.kind t.length

pub data Value : Type 0 where
  null : Value
  integer : ℤ → Value
  double : ℕ → Value
  varchar : List ℕ → Value

unfoldable pub is_null : Value → Bool
is_null Value.null = true
is_null _ = false

-- `Value::type`; that of NULL is an answer that callers do not use.
unfoldable pub value_type : Value → DataTypeKind
value_type (Value.integer n) = DataTypeKind.integer
value_type (Value.double d) = DataTypeKind.double
value_type (Value.varchar s) = DataTypeKind.varchar
value_type Value.null = DataTypeKind.integer

-- `print_double` is `std::to_chars` with 17 significant digits; it fails where the buffer is short.
unfoldable pub to_string : (ℕ → Option (List ℕ)) → Value → List ℕ
to_string print_double Value.null = text "NULL"
to_string print_double (Value.integer n) = decimal_int n
to_string print_double (Value.double d) = elim (print_double d) [
  | some s ↦ s
  | none ↦ text "<unprintable double>"
]
to_string print_double (Value.varchar s) = s
