-- ===== src/Storage/Serialization/RoundTrip.antt =====
-- src/storage/serialization.cpp: what was written is read back.
use curiodb.Prelude.{
  ℕ, ◌+◌, ◌^◌, ◌<◌, ◌≤◌, some, List, [], ◌∷◌, ◌++◌, length, ◌≡◌, refl, ap, arith, All, append_assoc,
  append-nil, length-append, take-append_left, drop-append_left, Option-cases, inl, inr,
}
use curiodb.Prelude.Bytes.{Bytes, to_bytes, from_bytes, length-to_bytes, from_bytes-to_bytes}
use curiodb.Prelude.Int.{bits_of_i64, bits_of_i64-lt, i64_of_bits-bits_of_i64}
use curiodb.Prelude.Outcome.{ok}
use curiodb.Types.{Value}
use curiodb.Storage.Row.{Row, IsValue, IsRow}
use curiodb.Storage.Serialization.Defs.{
  Reader, read_uint, read_string, read_text, read_integer, read_double, read_payload, read_value,
  read_values, append_value, append_values, serialize_row, deserialize_row, serialize_value,
  deserialize_value, u32_max,
}

-- A reader in front of `front`, which `rest` follows.
abbrev at : Bytes → ℕ → Reader
at bytes offset = record { rest = bytes; offset = offset }

read_uint-front :
    (width : ℕ) (front rest : Bytes) (offset : ℕ)
    → length front ≡ width
    → read_uint width (at (front ++ rest) offset)
      ≡ some (from_bytes front, at rest (offset + width))
unfolding read_uint
read_uint-front width front rest offset h = ground (
  arith,
  length-append front rest,
  take-append_left front rest width h,
  drop-append_left front rest width h,
)

read_uint-to_bytes :
    (width n : ℕ) (rest : Bytes) (offset : ℕ)
    → n < 256 ^ width
    → read_uint width (at (to_bytes width n ++ rest) offset) ≡ some (n, at rest (offset + width))
read_uint-to_bytes width n rest offset h =
    rw
      (
        read_uint-front width (to_bytes width n) rest offset (length-to_bytes width n),
        from_bytes-to_bytes width n h,
      )
      refl

read_string-front :
    (s rest : Bytes) (offset : ℕ)
    → read_string (length s) (at (s ++ rest) offset) ≡ some (s, at rest (offset + length s))
unfolding read_string
read_string-front s rest offset = ground (
  arith,
  length-append s rest,
  take-append_left s rest (length s) refl,
  drop-append_left s rest (length s) refl,
)

-- The offset behind the bytes of a value.
abbrev ReadsValue : Value → Bytes → Type 0
ReadsValue v bytes =
    (rest : Bytes) (offset : ℕ)
    → read_value (at (bytes ++ rest) offset) ≡ ok (v, at rest (offset + length bytes))

tag_byte :
    (tag : ℕ) (bytes : Bytes) (offset : ℕ)
    → tag < 256
    → read_value (at (tag ∷ bytes) offset) ≡ read_payload offset tag (at bytes (offset + 1))
unfolding read_value read_uint from_bytes
tag_byte tag bytes offset h = ground arith

read_text-to_bytes :
    (s rest : Bytes) (offset : ℕ)
    → length s ≤ u32_max
    → read_text (at (to_bytes 4 (length s) ++ (s ++ rest)) offset)
      ≡ ok (Value.varchar s, at rest (offset + 4 + length s))
unfolding read_text
read_text-to_bytes s rest offset h =
    rw (read_uint-to_bytes 4 (length s) (s ++ rest) offset (omega arith))
      (rw (read_string-front s rest (offset + 4)) refl)

-- A value that could be written is read back, whatever follows it.
read_value-append_value :
    (v : Value) (bytes : Bytes) → IsValue v → append_value v ≡ some bytes → ReadsValue v bytes
unfolding append_value read_payload read_integer read_double
read_value-append_value Value.null bytes valid e rest offset =
    ground (arith, tag_byte 0 rest offset)
read_value-append_value (Value.integer n) bytes valid e rest offset = ground (
  arith,
  tag_byte 1 (to_bytes 8 (bits_of_i64 n) ++ rest) offset,
  read_uint-to_bytes 8 (bits_of_i64 n) rest (offset + 1) (bits_of_i64-lt n valid),
  i64_of_bits-bits_of_i64 n valid,
  length-to_bytes 8 (bits_of_i64 n),
)
read_value-append_value (Value.double d) bytes valid e rest offset = ground (
  arith,
  tag_byte 2 (to_bytes 8 d ++ rest) offset,
  read_uint-to_bytes 8 d rest (offset + 1) valid,
  length-to_bytes 8 d,
)
read_value-append_value (Value.varchar s) bytes valid e rest offset = ground (
  arith,
  tag_byte 3 ((to_bytes 4 (length s) ++ s) ++ rest) offset,
  append_assoc (to_bytes 4 (length s)) s rest,
  read_text-to_bytes s rest (offset + 1),
  length-to_bytes 4 (length s),
  length-append (to_bytes 4 (length s)) s,
)

append_values-cons :
    (v : Value) (vs : List Value) (bytes : Bytes)
    → append_values (v ∷ vs) ≡ some bytes
    → (front back : Bytes) × (append_value v ≡ some front)
      × (append_values vs ≡ some back)
      × (bytes ≡ front ++ back)
unfolding append_values
append_values-cons v vs bytes e = ground arith

append_value-pos : (v : Value) (bytes : Bytes) → append_value v ≡ some bytes → 1 ≤ length bytes
unfolding append_value
append_value-pos Value.null bytes e = ground arith
append_value-pos (Value.integer n) bytes e = ground arith
append_value-pos (Value.double d) bytes e = ground arith
append_value-pos (Value.varchar s) bytes e = ground arith

length-append_values :
    (vs : List Value) (bytes : Bytes) → append_values vs ≡ some bytes → length vs ≤ length bytes
length-append_values [] bytes e = omega arith
length-append_values (v ∷ vs) bytes e =
    let (front, back, ef, eb, joined) = append_values-cons v vs bytes e in
    omega (
      arith,
      append_value-pos v front ef,
      length-append_values vs back eb,
      length-append front back,
      ap length joined,
    )

read_values-append_values :
    (vs : List Value) (bytes : Bytes) (offset : ℕ)
    → All IsValue vs
    → append_values vs ≡ some bytes
    → read_values (length vs) (at bytes offset) ≡ ok (vs, at [] (offset + length bytes))
unfolding read_values
read_values-append_values [] bytes offset valid e = unfold append_values in ground arith
read_values-append_values (v ∷ vs) bytes offset (hv, hvs) e =
    let (front, back, ef, eb, joined) = append_values-cons v vs bytes e in
    rw joined (
      rw (read_value-append_value v front hv ef back offset) (
        rw (read_values-append_values vs back (offset + length front) hvs eb)
          (ap (λ (o : ℕ). ok (v ∷ vs, at [] o)) (omega (arith, length-append front back)))))

-- Reading back a row that could be written gives the row, its integers and doubles of 64 bits.
pub deserialize_row-serialize_row :
    (row : Row) (bytes : Bytes)
    → IsRow row
    → serialize_row row ≡ ok bytes
    → deserialize_row bytes ≡ ok row
unfolding serialize_row deserialize_row
deserialize_row-serialize_row row bytes valid e = elim (Option-cases (append_values row.values)) [
  | inl missing ↦ absurd (ground arith)
  | inr (body, present) ↦ ground (
    arith,
    read_uint-to_bytes 4 (length row.values) body 0,
    length-append_values row.values body present,
    read_values-append_values row.values body 4 valid present,
  )
]

-- Reading back a value that could be written gives the value.
pub deserialize_value-serialize_value :
    (v : Value) (bytes : Bytes)
    → IsValue v
    → serialize_value v ≡ ok bytes
    → deserialize_value bytes ≡ ok v
unfolding serialize_value deserialize_value
deserialize_value-serialize_value v bytes valid e = ground (
  arith,
  append-nil bytes,
  λ (present : append_value v ≡ some bytes). read_value-append_value v bytes valid present [] 0,
)

-- A written row has at least the four bytes of its count, so that it is never an empty record.
pub serialize_row-size :
    (row : Row) (bytes : Bytes)
    → serialize_row row ≡ ok bytes
    → 4 + length row.values ≤ length bytes
unfolding serialize_row
serialize_row-size row bytes e = elim (Option-cases (append_values row.values)) [
  | inl missing ↦ absurd (ground arith)
  | inr (body, present) ↦ ground (
    arith,
    length-append_values row.values body present,
    length-append (to_bytes 4 (length row.values)) body,
    length-to_bytes 4 (length row.values),
  )
]
