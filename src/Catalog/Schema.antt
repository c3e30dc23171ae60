-- ===== src/Catalog/Schema.antt =====
-- include/curiodb/catalog/catalog.hpp: table schemas, and names without case.
use curiodb.Prelude.{ℕ, ◌+◌, Bool, List, [], ◌∷◌, Option, none, some, map, if◌then◌else◌}
use curiodb.Prelude.Text.{to_lower, text_eq}
use curiodb.Types.{DataType}

pub record ColumnSchema : Type 0 where
  pub name : List ℕ
  pub type : DataType
  pub primary_key : Bool
  pub unique : Bool
  pub not_null : Bool

pub record TableSchema : Type 0 where
  pub name : List ℕ
  pub columns : List ColumnSchema

-- `normalize_identifier`, and the `normalize` of the other files.
unfoldable pub normalize : List ℕ → List ℕ
normalize name = map to_lower name

-- `std::find_if` for the column of a normalized name, and its distance from the first.
unfoldable pub find_column : List ℕ → List ColumnSchema → Option (ℕ × ColumnSchema)
find_column name [] = none
find_column name (column ∷ rest) =
    if text_eq (normalize column.name) name
    then some (0, column)
    else elim (find_column name rest) [ none ↦ none | some (index, c) ↦ some (index + 1, c) ]
