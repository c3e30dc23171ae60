-- ===== src/Storage/Row.antt =====
-- include/curiodb/storage/row.hpp: a row is its vector of values.
use curiodb.Prelude.{
  ℕ, List, Option, length, get_elem?, set, ◌<◌, All, ◌^◌, none, some, ltb, if◌then◌else◌,
}
use curiodb.Prelude.Int.{IsI64}
use curiodb.Types.{Value}

pub record Row : Type 0 where
  pub values : List Value

unfoldable pub size : Row → ℕ
size row = length row.values

-- `row[index]`; `none` is a read outside the vector, which the source does not check.
unfoldable pub at : Row → ℕ → Option Value
at row index = get_elem? row.values index

-- `values_.at(index) = value`; `none` is the exception `std::out_of_range`.
unfoldable pub set_at : Row → ℕ → Value → Option Row
set_at row index value =
    if ltb index (length row.values)
    then some (record { values = set row.values index value })
    else none

-- What the types of the source give for nothing: an integer and a double take 64 bits.
abbrev pub IsValue : Value → Type 0
IsValue Value.null = Unit
IsValue (Value.integer n) = IsI64 n
IsValue (Value.double d) = d < 2 ^ 64
IsValue (Value.varchar s) = Unit

abbrev pub IsRow : Row → Type 0
IsRow row = All IsValue row.values
