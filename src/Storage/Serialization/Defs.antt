-- ===== src/Storage/Serialization/Defs.antt =====
-- src/storage/serialization.cpp: the writer, the reader and the four entry points.
use curiodb.Prelude.{
  ℕ, zero, suc, ◌+◌, ◌-◌, ◌^◌, Option, none, some, List, [], ◌∷◌, ◌++◌, ltb, ◌==◌, if◌then◌else◌,
  length, take, drop, not,
}
use curiodb.Prelude.Bytes.{Bytes, to_bytes, from_bytes}
use curiodb.Prelude.Int.{bits_of_i64, i64_of_bits}
use curiodb.Prelude.Text.{text}
use curiodb.Prelude.Outcome.{Outcome, ok, err, ◌>>=◌, ◌>>◌, reject}
use curiodb.Types.{Value}
use curiodb.Storage.Row.{Row, size}

pub data SerializationErrorCode : Type 0 where
  input_too_large unexpected_end invalid_type_tag trailing_data : SerializationErrorCode

pub record SerializationError : Type 0 where
  pub code : SerializationErrorCode
  pub message : List ℕ
  pub offset : ℕ

abbrev pub u32_max : ℕ
u32_max = 2 ^ 32 - 1

unfoldable pub too_large : List ℕ → SerializationError
too_large message = record {
  code = SerializationErrorCode.input_too_large;
  message = message;
  offset = 0;
}

unfoldable pub unexpected_end_at : ℕ → SerializationError
unexpected_end_at offset = record {
  code = SerializationErrorCode.unexpected_end;
  message = text "unexpected end of serialized data";
  offset = offset;
}

unfoldable pub invalid_type_tag_at : ℕ → SerializationError
invalid_type_tag_at offset = record {
  code = SerializationErrorCode.invalid_type_tag;
  message = text "invalid value type tag";
  offset = offset;
}

unfoldable pub trailing_data_at : ℕ → SerializationError
trailing_data_at offset = record {
  code = SerializationErrorCode.trailing_data;
  message = text "trailing bytes after serialized value";
  offset = offset;
}

-- The bytes of one value; `none` where a text is longer than 32 bits can say.
unfoldable pub append_value : Value → Option Bytes
append_value Value.null = some (0 ∷ [])
append_value (Value.integer n) = some (1 ∷ to_bytes 8 (bits_of_i64 n))
append_value (Value.double d) = some (2 ∷ to_bytes 8 d)
append_value (Value.varchar s) =
    if ltb u32_max (length s) then none else some (3 ∷ (to_bytes 4 (length s) ++ s))

unfoldable pub append_values : List Value → Option Bytes
append_values [] = some []
append_values (v ∷ vs) = elim (append_value v) [
  | none ↦ none
  | some bytes ↦ elim (append_values vs) [ none ↦ none | some rest ↦ some (bytes ++ rest) ]
]

pub record Reader : Type 0 where
  pub rest : Bytes
  pub offset : ℕ

abbrev pub remaining : Reader → ℕ
remaining reader = length reader.rest

-- The reader behind the next `count` bytes.
abbrev pub advance : ℕ → Reader → Reader
advance count reader = record { rest = drop count reader.rest; offset = reader.offset + count }

-- `read_u8`, `read_u32` and `read_u64`, by the width in bytes.
unfoldable pub read_uint : ℕ → Reader → Option (ℕ × Reader)
read_uint width reader =
    if ltb (remaining reader) width
    then none
    else some (from_bytes (take width reader.rest), advance width reader)

unfoldable pub read_string : ℕ → Reader → Option (List ℕ × Reader)
read_string length reader =
    if ltb (remaining reader) length
    then none
    else some (take length reader.rest, advance length reader)

-- The read that the source turns into `unexpected_end(reader.offset())` where it fails.
abbrev pub or_end :
    {A : Type 0} → Reader → Option (A × Reader) → Outcome SerializationError (A × Reader)
or_end reader none = err (unexpected_end_at reader.offset)
or_end reader (some r) = ok r

-- The length and the bytes of a text.
unfoldable pub read_text : Reader → Outcome SerializationError (Value × Reader)
read_text reader = do
  (length, reader') ← or_end reader (read_uint 4 reader)
  (value, reader'') ← or_end reader' (read_string length reader')
  ok (Value.varchar value, reader'')

unfoldable pub read_integer : Reader → Outcome SerializationError (Value × Reader)
read_integer reader = do
  (bits, reader') ← or_end reader (read_uint 8 reader)
  ok (Value.integer (i64_of_bits bits), reader')

unfoldable pub read_double : Reader → Outcome SerializationError (Value × Reader)
read_double reader = do
  (bits, reader') ← or_end reader (read_uint 8 reader)
  ok (Value.double bits, reader')

-- What follows the tag.
unfoldable pub read_payload : ℕ → ℕ → Reader → Outcome SerializationError (Value × Reader)
read_payload tag_offset tag reader =
    if tag == 0
    then ok (Value.null, reader)
    else if tag == 1
    then read_integer reader
    else if tag == 2
    then read_double reader
    else if tag == 3
    then read_text reader
    else err (invalid_type_tag_at tag_offset)

unfoldable pub read_value : Reader → Outcome SerializationError (Value × Reader)
read_value reader = do
  (tag, reader') ← or_end reader (read_uint 1 reader)
  read_payload reader.offset tag reader'

-- The loop `for (index = 0; index < count; ++index)`.
unfoldable pub read_values : ℕ → Reader → Outcome SerializationError (List Value × Reader)
read_values zero reader = ok ([], reader)
read_values (suc count) reader = do
  (value, reader') ← read_value reader
  (values, reader'') ← read_values count reader'
  ok (value ∷ values, reader'')

-- `if (reader.remaining() != 0) return trailing_data(reader.offset());`
unfoldable pub finish : {A : Type 0} → A → Reader → Outcome SerializationError A
finish a reader = do reject (not (remaining reader == 0)) (trailing_data_at reader.offset); ok a

unfoldable pub serialize_value : Value → Outcome SerializationError Bytes
serialize_value value = elim (append_value value) [
  | none ↦ err (too_large (text "VARCHAR value exceeds serialization limit"))
  | some bytes ↦ ok bytes
]

unfoldable pub deserialize_value : Bytes → Outcome SerializationError Value
unfolding finish
deserialize_value bytes = do
  (value, reader) ← read_value (record { rest = bytes; offset = 0 })
  finish value reader

unfoldable pub serialize_row : Row → Outcome SerializationError Bytes
unfolding size
serialize_row row =
    if ltb u32_max (size row)
    then err (too_large (text "row contains too many values"))
    else elim (append_values row.values) [
      | none ↦ err (too_large (text "VARCHAR value exceeds serialization limit"))
      | some bytes ↦ ok (to_bytes 4 (size row) ++ bytes)
    ]

unfoldable pub deserialize_row : Bytes → Outcome SerializationError Row
unfolding finish
deserialize_row bytes = do
  let start : Reader = record { rest = bytes; offset = 0 }
  (count, reader) ← or_end start (read_uint 4 start)
  reject (ltb (remaining reader) count) (unexpected_end_at reader.offset)
  (values, reader') ← read_values count reader
  finish (record { values = values }) reader'
