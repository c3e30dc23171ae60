-- ===== src/Storage/Serialization/Tests.antt =====
-- src/storage/serialization.cpp: the theorems at small rows, and runs of the code.
use curiodb.Prelude.{◌+◌, ◌≤◌, ◌≡◌, [], ◌∷◌, refl, arith, length}
use curiodb.Prelude.Bytes.{Bytes, to_bytes, from_bytes}
use curiodb.Prelude.Int.{pos, negsuc, bits_of_i64, i64_of_bits}
use curiodb.Prelude.Outcome.{ok, err}
use curiodb.Types.{Value}
use curiodb.Storage.Row.{Row, IsRow}
use curiodb.Storage.Serialization.Defs.{
  serialize_row, deserialize_row, serialize_value, deserialize_value, append_values, append_value,
  read_values, read_value, read_uint, read_payload, read_integer, read_text, read_string,
  trailing_data_at, unexpected_end_at, invalid_type_tag_at,
}
use curiodb.Storage.Serialization.RoundTrip.{
  deserialize_row-serialize_row, deserialize_value-serialize_value, serialize_row-size,
}
use curiodb.Storage.Serialization.Canonical.{serialize_row-deserialize_row}

-- (7, 'ok', NULL)
abbrev sample : Row
sample = record {
  values = Value.integer (pos 7) ∷ Value.varchar (b'o' ∷ b'k' ∷ []) ∷ Value.null ∷ [];
}

abbrev sample_bytes : Bytes
sample_bytes =
    3 ∷ 0 ∷ 0 ∷ 0 ∷ 1 ∷ 7 ∷ 0 ∷ 0 ∷ 0 ∷ 0 ∷ 0 ∷ 0 ∷ 0 ∷ 3 ∷ 2 ∷ 0 ∷ 0 ∷ 0 ∷ b'o' ∷ b'k' ∷ 0 ∷ []

sample_written : serialize_row sample ≡ ok sample_bytes
unfolding serialize_row append_values append_value to_bytes bits_of_i64
sample_written = refl

sample_read : deserialize_row sample_bytes ≡ ok sample
unfolding deserialize_row read_values read_value read_uint read_payload read_integer read_text
    read_string from_bytes i64_of_bits
sample_read = refl

deserialize_row-serialize_row_example : deserialize_row sample_bytes ≡ ok sample
deserialize_row-serialize_row_example =
    deserialize_row-serialize_row sample sample_bytes (omega arith) sample_written

serialize_row-deserialize_row_example : IsRow sample × (serialize_row sample ≡ ok sample_bytes)
serialize_row-deserialize_row_example =
    serialize_row-deserialize_row sample_bytes sample (omega arith) sample_read

deserialize_value-serialize_value_example :
    deserialize_value (2 ∷ 1 ∷ 0 ∷ 0 ∷ 0 ∷ 0 ∷ 0 ∷ 0 ∷ 0 ∷ []) ≡ ok (Value.double 1)
unfolding serialize_value append_value to_bytes
deserialize_value-serialize_value_example =
    deserialize_value-serialize_value (Value.double 1) (2 ∷ 1 ∷ 0 ∷ 0 ∷ 0 ∷ 0 ∷ 0 ∷ 0 ∷ 0 ∷ [])
      (omega arith) refl

serialize_row-size_example : 4 + 3 ≤ length sample_bytes
serialize_row-size_example = serialize_row-size sample sample_bytes sample_written

-- A negative integer is the two's complement of its bits.
minus_one_written :
    serialize_value (Value.integer (negsuc 0))
    ≡ ok (1 ∷ 255 ∷ 255 ∷ 255 ∷ 255 ∷ 255 ∷ 255 ∷ 255 ∷ 255 ∷ [])
unfolding serialize_value append_value to_bytes bits_of_i64
minus_one_written = refl

trailing_refused : deserialize_value (0 ∷ 0 ∷ []) ≡ err (trailing_data_at 1)
unfolding deserialize_value read_value read_uint read_payload from_bytes
trailing_refused = refl

short_refused : deserialize_value (1 ∷ 0 ∷ []) ≡ err (unexpected_end_at 1)
unfolding deserialize_value read_value read_uint read_payload read_integer from_bytes
short_refused = refl

tag_refused : deserialize_value (4 ∷ []) ≡ err (invalid_type_tag_at 0)
unfolding deserialize_value read_value read_uint read_payload from_bytes
tag_refused = refl
