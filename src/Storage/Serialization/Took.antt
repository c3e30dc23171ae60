-- ===== src/Storage/Serialization/Took.antt =====
-- src/storage/serialization.cpp: the bytes that the reader takes for a value are those of its encoding.
use curiodb.Prelude.{
  ℕ, zero, suc, ◌^◌, ◌<◌, ◌≤◌, Option, none, some, List, [], ◌∷◌, ◌++◌, length, take, ◌≡◌, refl,
  sym, ap, arith, All, append_assoc, length-take, take-append-drop, All-take, All-drop, ◌∙◌, ◌%◌,
}
use mathlib.Core.Path.{subst₂}
use curiodb.Prelude.Bytes.{Bytes, IsByte, to_bytes, from_bytes, to_bytes-from_bytes, from_bytes-lt}
use curiodb.Prelude.Int.{i64_of_bits, i64_of_bits-IsI64, bits_of_i64-i64_of_bits}
use curiodb.Prelude.Outcome.{Outcome, ok, steps_of_ok}
use curiodb.Types.{Value}
use curiodb.Storage.Row.{size, IsValue}
use curiodb.Storage.Serialization.Defs.{
  Reader, read_uint, read_string, read_text, read_integer, read_double, read_payload, read_value,
  append_value, advance, or_end, SerializationError,
}

-- What a successful read says of the bytes: they are `front`, then what is left.
pub record Took (reader : Reader) (front : Bytes) (reader' : Reader) : Type 0 where
  pub split : reader.rest ≡ front ++ reader'.rest
  pub left : All IsByte reader'.rest

-- A read that succeeded found enough bytes.
read_uint_inversion :
    (width : ℕ) (reader : Reader) (n : ℕ) (reader' : Reader)
    → read_uint width reader ≡ some (n, reader')
    → (width ≤ length reader.rest)
      × (n ≡ from_bytes (take width reader.rest))
      × (reader' ≡ advance width reader)
unfolding read_uint
read_uint_inversion width reader n reader' e = ground arith

take_all : (width : ℕ) (bs : Bytes) → width ≤ length bs → length (take width bs) ≡ width
take_all width bs h = omega (arith, length-take width bs)

advance-Took :
    (width : ℕ) (reader reader' : Reader)
    → All IsByte reader.rest
    → reader' ≡ advance width reader
    → Took reader (take width reader.rest) reader'
advance-Took width reader reader' h e = rw e (record {
  split = sym (take-append-drop width reader.rest);
  left = All-drop IsByte width reader.rest h;
})

pub read_uint-Took :
    (width : ℕ) (reader : Reader) (n : ℕ) (reader' : Reader)
    → All IsByte reader.rest
    → read_uint width reader ≡ some (n, reader')
    → (n < 256 ^ width) × Took reader (to_bytes width n) reader'
read_uint-Took width reader n reader' h e =
    let (enough, value, moved) = read_uint_inversion width reader n reader' e in
    let whole = take_all width reader.rest enough in
    let bytes = All-take IsByte width reader.rest h in
    let written : to_bytes width n ≡ take width reader.rest =
      rw value (rw whole at (to_bytes-from_bytes (take width reader.rest) bytes)) in
    (
      rw value (from_bytes-lt width (take width reader.rest) bytes whole),
      rw written (advance-Took width reader reader' h moved),
    )

read_string-Took :
    (count : ℕ) (reader : Reader) (s : List ℕ) (reader' : Reader)
    → All IsByte reader.rest
    → read_string count reader ≡ some (s, reader')
    → (length s ≡ count) × Took reader s reader'
unfolding read_string
read_string-Took count reader s reader' h e =
    ground (arith, take_all count reader.rest, advance-Took count reader reader' h)

pub or_end_inversion :
    {A : Type 0} (reader : Reader) (r : Option (A × Reader)) {p : A × Reader}
    → or_end reader r ≡ ok p
    → r ≡ some p
or_end_inversion reader none e = cc
or_end_inversion reader (some q) e = cc

-- The reader took the bytes of the value `v`.
abbrev TookValue : Reader → Value → Reader → Type 0
TookValue reader v reader' =
    (bytes : Bytes) × IsValue v × (append_value v ≡ some bytes) × Took reader bytes reader'

-- What follows a tag is the rest of the value's bytes.
abbrev TookPayload : ℕ → Reader → Value → Reader → Type 0
TookPayload tag reader v reader' =
    (bytes : Bytes) × IsValue v × (append_value v ≡ some (tag ∷ bytes)) × Took reader bytes reader'

pub Took-trans :
    (a b c : Reader) (front back : Bytes)
    → Took a front b
    → Took b back c
    → Took a (front ++ back) c
Took-trans a b c front back t t' = record {
  split = t.split ∙ (ap (◌++◌ front) t'.split ∙ sym (append_assoc front back c.rest));
  left = t'.left;
}

-- A statement about what a call returned, moved along the equation of its result.
along_ok {ℓ} :
    (P : Value → Reader → Type ℓ) (v v' : Value) (r r' : Reader)
    → ◌≡◌ {A = Outcome SerializationError (Value × Reader)} (ok (v', r')) (ok (v, r))
    → P v' r'
    → P v r
along_ok P v v' r r' e h = subst₂ P (ground arith) (ground arith) h

read_text-Took :
    (reader : Reader) (v : Value) (reader' : Reader)
    → All IsByte reader.rest
    → read_text reader ≡ ok (v, reader')
    → TookPayload 3 reader v reader'
unfolding read_text append_value
read_text-Took reader v reader' h e =
    let ((n, r), first, later) = steps_of_ok (or_end reader (read_uint 4 reader)) _ e in
    let (bound, t) = read_uint-Took 4 reader n r h (or_end_inversion reader _ first) in
    let ((s, r'), second, done) = steps_of_ok (or_end r (read_string n r)) _ later in
    let (size, t') = read_string-Took n r s r' t.left (or_end_inversion r _ second) in
    along_ok (TookPayload 3 reader) v (Value.varchar s) reader' r' done
      (to_bytes 4 n ++ s, tt, ground arith, Took-trans reader r r' (to_bytes 4 n) s t t')

read_integer-Took :
    (reader : Reader) (v : Value) (reader' : Reader)
    → All IsByte reader.rest
    → read_integer reader ≡ ok (v, reader')
    → TookPayload 1 reader v reader'
unfolding read_integer append_value
read_integer-Took reader v reader' h e =
    let ((n, r), first, done) = steps_of_ok (or_end reader (read_uint 8 reader)) _ e in
    let (bound, t) = read_uint-Took 8 reader n r h (or_end_inversion reader _ first) in
    along_ok (TookPayload 1 reader) v (Value.integer (i64_of_bits n)) reader' r done
      (to_bytes 8 n, i64_of_bits-IsI64 n bound, rw (bits_of_i64-i64_of_bits n bound) refl, t)

read_double-Took :
    (reader : Reader) (v : Value) (reader' : Reader)
    → All IsByte reader.rest
    → read_double reader ≡ ok (v, reader')
    → TookPayload 2 reader v reader'
unfolding read_double append_value
read_double-Took reader v reader' h e =
    let ((n, r), first, done) = steps_of_ok (or_end reader (read_uint 8 reader)) _ e in
    let (bound, t) = read_uint-Took 8 reader n r h (or_end_inversion reader _ first) in
    along_ok (TookPayload 2 reader) v (Value.double n) reader' r done (to_bytes 8 n, bound, refl, t)

read_payload-Took :
    (tag_offset tag : ℕ) (reader : Reader) (v : Value) (reader' : Reader)
    → All IsByte reader.rest
    → read_payload tag_offset tag reader ≡ ok (v, reader')
    → TookPayload tag reader v reader'
unfolding read_payload append_value
read_payload-Took tag_offset zero reader v reader' h e =
    along_ok (TookPayload 0 reader) v Value.null reader' reader e
      ([], tt, refl, record { split = refl; left = h })
read_payload-Took tag_offset (suc zero) reader v reader' h e =
    read_integer-Took reader v reader' h e
read_payload-Took tag_offset (suc (suc zero)) reader v reader' h e =
    read_double-Took reader v reader' h e
read_payload-Took tag_offset (suc (suc (suc zero))) reader v reader' h e =
    read_text-Took reader v reader' h e
read_payload-Took tag_offset (suc (suc (suc (suc n)))) reader v reader' h e = absurd (ground arith)

pub read_value-Took :
    (reader : Reader) (v : Value) (reader' : Reader)
    → All IsByte reader.rest
    → read_value reader ≡ ok (v, reader')
    → TookValue reader v reader'
unfolding read_value to_bytes
read_value-Took reader v reader' h e =
    let ((tag, r), first, later) = steps_of_ok (or_end reader (read_uint 1 reader)) _ e in
    let (bound, t) = read_uint-Took 1 reader tag r h (or_end_inversion reader _ first) in
    let (bytes, valid, written, t') =
      read_payload-Took reader.offset tag r v reader' t.left later in
    let whole : tag % 256 ≡ tag = omega arith in
    (
      tag ∷ bytes,
      valid,
      written,
      rw whole at (Took-trans reader r reader' (to_bytes 1 tag) bytes t t'),
    )
