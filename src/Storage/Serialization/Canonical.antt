-- ===== src/Storage/Serialization/Canonical.antt =====
-- src/storage/serialization.cpp: what the reader accepts is what the writer writes.
use curiodb.Prelude.{
  ℕ, zero, suc, ◌^◌, ◌<◌, true, some, List, [], ◌∷◌, ◌++◌, ltb, ◌==◌, length, ◌≡◌, refl, ap, arith,
  All, append-nil, ◌∙◌,
}
use curiodb.Prelude.Bytes.{Bytes, IsByte, to_bytes}
use curiodb.Prelude.Outcome.{ok, reject, steps_of_ok}
use curiodb.Types.{Value}
use curiodb.Storage.Row.{Row, size, IsValue, IsRow}
use curiodb.Storage.Serialization.Defs.{
  Reader, read_uint, read_value, read_values, append_value, append_values, serialize_row,
  deserialize_row, or_end, finish, remaining, unexpected_end_at,
}
use curiodb.Storage.Serialization.Took.{
  Took, read_uint-Took, or_end_inversion, Took-trans, read_value-Took,
}

append_values_join :
    (v : Value) (vs : List Value) (front back : Bytes)
    → append_value v ≡ some front
    → append_values vs ≡ some back
    → append_values (v ∷ vs) ≡ some (front ++ back)
unfolding append_values
append_values_join v vs front back e e' = ground arith

read_values-Took :
    (count : ℕ) (reader : Reader) (vs : List Value) (reader' : Reader)
    → All IsByte reader.rest
    → read_values count reader ≡ ok (vs, reader')
    → (bytes : Bytes) × All IsValue vs
      × (length vs ≡ count)
      × (append_values vs ≡ some bytes)
      × Took reader bytes reader'
unfolding read_values append_values
read_values-Took zero reader [] reader' h e =
    ([], tt, refl, refl, record { split = ground arith; left = ground arith })
read_values-Took zero reader (v ∷ vs) reader' h e = absurd (ground arith)
read_values-Took (suc count) reader vs reader' h e =
    let ((v, r), first, later) = steps_of_ok (read_value reader) _ e in
    let (front, valid, written, t) = read_value-Took reader v r h first in
    let ((ws, r'), second, done) = steps_of_ok (read_values count r) _ later in
    let (back, valid', size, written', t') = read_values-Took count r ws r' t.left second in
    let same : vs ≡ v ∷ ws = ground arith in
    let same' : reader' ≡ r' = ground arith in
    rw (same, same')
      (
        front ++ back,
        (valid, valid'),
        ap suc size,
        append_values_join v ws front back written written',
        Took-trans reader r r' front back t t',
      )

all_read : (bs : Bytes) → (length bs == 0) ≡ true → bs ≡ []
all_read [] h = refl
all_read (b ∷ bs) h = absurd (ground arith)

finish_inversion :
    (row row' : Row) (reader : Reader)
    → finish row reader ≡ ok row'
    → (row ≡ row') × (reader.rest ≡ [])
unfolding finish
finish_inversion row row' reader e = ground (arith, all_read reader.rest)

written_row :
    (row : Row) (count : ℕ) (body bytes : Bytes)
    → length row.values ≡ count
    → count < 256 ^ 4
    → append_values row.values ≡ some body
    → bytes ≡ to_bytes 4 count ++ body
    → serialize_row row ≡ ok bytes
unfolding serialize_row
written_row row count body bytes size bound written whole = ground arith

-- Bytes that are accepted as a row are exactly those that the writer gives for that row, and the row's
-- numbers have 64 bits: no two byte strings are read as the same row.
pub serialize_row-deserialize_row :
    (bytes : Bytes) (row : Row)
    → All IsByte bytes
    → deserialize_row bytes ≡ ok row
    → IsRow row × (serialize_row row ≡ ok bytes)
unfolding deserialize_row
serialize_row-deserialize_row bytes row h e =
    let start : Reader = record { rest = bytes; offset = 0 } in
    let ((count, r), first, later) = steps_of_ok (or_end start (read_uint 4 start)) _ e in
    let (bound, t) = read_uint-Took 4 start count r h (or_end_inversion start _ first) in
    let (_, enough, loop) =
      steps_of_ok (reject (ltb (remaining r) count) (unexpected_end_at r.offset)) _ later in
    let ((vs, r'), second, done) = steps_of_ok (read_values count r) _ loop in
    let (body, valid, size, written, t') = read_values-Took count r vs r' t.left second in
    let (same, ended) = finish_inversion (record { values = vs }) row r' done in
    let whole : bytes ≡ to_bytes 4 count ++ body =
      t.split
      ∙ ap (◌++◌ (to_bytes 4 count)) (t'.split ∙ (ap (◌++◌ body) ended ∙ append-nil body)) in
    rw (← same)
      (valid, written_row (record { values = vs }) count body bytes size bound written whole)
