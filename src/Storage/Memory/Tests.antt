-- ===== src/Storage/Memory/Tests.antt =====
-- src/storage/row_validation.cpp and in_memory_table.cpp: the theorems at a small table, and runs.
use curiodb.Prelude.{
  ◌≡◌, ◌↔◌, Bool, true, not, ◌&&◌, List, [], ◌∷◌, ◌++◌, none, some, is_some, refl, arith, All, map,
  if◌then◌else◌,
}
use curiodb.Prelude.Int.{pos, int_eq}
use curiodb.Types.{DataTypeKind, Value, is_null, value_type, kind_eq}
use curiodb.Types.Order.{value_eq}
use curiodb.Catalog.Schema.{ColumnSchema}
use curiodb.Storage.Row.{Row, at}
use curiodb.Storage.Validation.Defs.{validate_row, check_values, check_value}
use curiodb.Storage.Validation.Fits.{Fits, validate_row-Fits}
use curiodb.Storage.Memory.Defs.{
  InMemoryTable, insert, delete_where, update_where, check_unique, holds_value, same_value,
  is_null_at, duplicate_error,
}
use curiodb.Storage.Memory.Unique.{IsTable, insert-IsTable}
use curiodb.Storage.Memory.Rows.{
  matching, until, from_first, too_short, with_value, is_empty_rows, delete_where-matching,
  update_where-map, update_where-Fits, update_where-duplicates,
}

abbrev id_column : ColumnSchema
id_column = record {
  name = b'i' ∷ b'd' ∷ [];
  type = record { kind = DataTypeKind.integer; length = none };
  primary_key = true;
  unique = true;
  not_null = true;
}

abbrev one : Row
one = record { values = Value.integer (pos 1) ∷ [] }

abbrev two : Row
two = record { values = Value.integer (pos 2) ∷ [] }

abbrev empty_table : InMemoryTable
empty_table = record { schema = record { name = b't' ∷ []; columns = id_column ∷ [] }; rows = [] }

abbrev two_rows : InMemoryTable
two_rows = record empty_table { rows = one ∷ two ∷ [] }

abbrev always : Row → Bool
always row = true

validate_row-Fits_example :
    (validate_row empty_table.schema one ≡ none) ↔ Fits (id_column ∷ []) one.values
validate_row-Fits_example = validate_row-Fits empty_table.schema one

insert-IsTable_example : IsTable (insert empty_table one).0
insert-IsTable_example = insert-IsTable empty_table one (record { fits = tt; unique = tt })

delete_where-matching_example :
    ((delete_where two_rows always).1 ≡ matching always (one ∷ two ∷ []))
    × (matching always (delete_where two_rows always).0.rows
        ≡ matching (λ r. always r && not (always r)) (one ∷ two ∷ []))
delete_where-matching_example = delete_where-matching two_rows always always

update_where-map_example :
    ((update_where two_rows always 0 (Value.integer (pos 5))).0.rows
      ≡ map
          (λ r. if always r then with_value 0 (Value.integer (pos 5)) r else r)
          (until (too_short always 0) (one ∷ two ∷ []))
        ++ from_first (too_short always 0) (one ∷ two ∷ []))
    × ((update_where two_rows always 0 (Value.integer (pos 5))).1 ≡ (
        if is_empty_rows (from_first (too_short always 0) (one ∷ two ∷ []))
        then some (matching always (one ∷ two ∷ []))
        else none))
update_where-map_example = update_where-map two_rows always 0 (Value.integer (pos 5))

-- The same update, and one at an index that no row has.
two_updated : (update_where two_rows always 0 (Value.integer (pos 5))).1 ≡ some 2
unfolding update_where
two_updated = refl

outside : update_where two_rows always 1 (Value.integer (pos 5)) ≡ (two_rows, none)
unfolding update_where
outside = refl

update_where-Fits_example :
    All
      (λ row. Fits (id_column ∷ []) row.values)
      (update_where two_rows always 0 (Value.integer (pos 5))).0.rows
    × (is_some (update_where two_rows always 0 (Value.integer (pos 5))).1 ≡ true)
update_where-Fits_example =
    update_where-Fits two_rows always 0 (Value.integer (pos 5)) id_column refl refl
      (((refl, refl), tt), (((refl, refl), tt), tt))

update_where-duplicates_example :
    (r' : Row) × (s' : Row) × (rest' : List Row) × ((update_where two_rows always 0
        (Value.integer (pos 5))).0.rows
      ≡ r' ∷ s' ∷ rest')
    × (at r' 0 ≡ some (Value.integer (pos 5)))
    × (at s' 0 ≡ some (Value.integer (pos 5)))
    × ¬ IsTable (update_where two_rows always 0 (Value.integer (pos 5))).0
unfolding is_null value_eq int_eq
update_where-duplicates_example =
    update_where-duplicates two_rows always 0 (Value.integer (pos 5)) id_column one two [] refl refl
      refl refl refl refl refl (omega arith) (omega arith)

-- The same update, run: both rows hold the key 5.
both_five :
    (update_where two_rows always 0 (Value.integer (pos 5))).0.rows
    ≡ (record { values = Value.integer (pos 5) ∷ [] })
      ∷ (record { values = Value.integer (pos 5) ∷ [] })
      ∷ []
unfolding update_where
both_five = refl

-- A second row with the key 1 is refused by `insert`.
key_refused :
    (insert (record empty_table { rows = one ∷ [] }) one).1 ≡ some (duplicate_error id_column)
unfolding insert validate_row check_values check_value check_unique holds_value same_value
    is_null_at is_null value_type kind_eq at value_eq int_eq
key_refused = refl
