-- ===== src/Storage/DiskManager/ByteFile.antt =====
-- A stream over a file that is a function from offsets to bytes: it is one that src/storage/disk_manager.cpp
-- can use.
use curiodb.Prelude.{
  ℕ, zero, suc, ◌+◌, ◌≤◌, ◌<◌, ◌≡◌, ◌⊎◌, inl, inr, refl, ap, ◌∙◌, true, List, [], ◌∷◌, some,
  if◌then◌else◌, ◌==◌, ==_iff, length, arith,
}
use curiodb.Storage.DiskManager.Defs.{FileStream}
use curiodb.Storage.DiskManager.Laws.{IsStream}

abbrev pub Bytes : Type 0
Bytes = ℕ → ℕ

unfoldable pub bytes_of : Bytes → ℕ → ℕ → List ℕ
bytes_of f offset zero = []
bytes_of f offset (suc n) = f offset ∷ bytes_of f (offset + 1) n

unfoldable pub overwritten : Bytes → ℕ → List ℕ → Bytes
overwritten f offset [] k = f k
overwritten f offset (b ∷ bytes) k =
    let rest = overwritten f (offset + 1) bytes k in if offset == k then b else rest

abbrev pub byte_stream : FileStream Bytes
byte_stream = record {
  read = λ f offset count. some (bytes_of f offset count);
  write = λ f offset bytes. (overwritten f offset bytes, true);
  flush = λ f. (f, true);
}

bytes_of_length : (f : Bytes) (offset n : ℕ) → length (bytes_of f offset n) ≡ n
unfolding bytes_of
bytes_of_length f offset zero = refl
bytes_of_length f offset (suc n) = ap suc (bytes_of_length f (offset + 1) n)

bytes_of_agree :
    (f g : Bytes) (offset n : ℕ)
    → ((k : ℕ) → offset ≤ k → k < offset + n → f k ≡ g k)
    → bytes_of f offset n ≡ bytes_of g offset n
unfolding bytes_of
bytes_of_agree f g offset zero h = refl
bytes_of_agree f g offset (suc n) h =
    rw
      (
        h offset (omega arith) (omega arith),
        bytes_of_agree f g (offset + 1) n (λ k lo hi. h k (omega arith) (omega arith)),
      )
      refl

overwritten_apart :
    (f : Bytes) (offset : ℕ) (bytes : List ℕ) (k : ℕ)
    → (k < offset) ⊎ (offset + length bytes ≤ k)
    → overwritten f offset bytes k ≡ f k
unfolding overwritten
overwritten_apart f offset [] k h = refl
overwritten_apart f offset (b ∷ bytes) k (inl before) =
    ground (arith, ==_iff offset k, overwritten_apart f (offset + 1) bytes k (inl (omega arith)))
overwritten_apart f offset (b ∷ bytes) k (inr after) =
    ground (arith, ==_iff offset k, overwritten_apart f (offset + 1) bytes k (inr (omega arith)))

bytes_of-overwritten :
    (f : Bytes) (offset : ℕ) (bytes : List ℕ)
    → bytes_of (overwritten f offset bytes) offset (length bytes) ≡ bytes
unfolding bytes_of overwritten
bytes_of-overwritten f offset [] = refl
bytes_of-overwritten f offset (b ∷ bytes) =
    let first : overwritten f offset (b ∷ bytes) offset ≡ b =
      ground (arith, ==_iff offset offset) in
    let rest =
      bytes_of_agree (overwritten f offset (b ∷ bytes)) (overwritten f (offset + 1) bytes)
        (offset + 1) (length bytes) (λ k lo hi. ground (arith, ==_iff offset k)) in
    rw (first, rest, bytes_of-overwritten f (offset + 1) bytes) refl

pub byte_stream-IsStream : IsStream byte_stream
byte_stream-IsStream = record {
  held = bytes_of;
  read = λ f offset count bytes e.
      (ground arith, ap length (ground (arith, e)) ∙ bytes_of_length f offset count);
  written = λ f offset bytes e. bytes_of-overwritten f offset bytes;
  apart = apart_bytes;
}
  where
    apart_bytes :
        (f : Bytes) (offset : ℕ) (bytes : List ℕ) (other count : ℕ)
        → (offset + length bytes ≤ other) ⊎ (other + count ≤ offset)
        → bytes_of (overwritten f offset bytes) other count ≡ bytes_of f other count
    apart_bytes f offset bytes other count (inl before) =
        bytes_of_agree _ _ other count
          (λ k lo hi. overwritten_apart f offset bytes k (inr (omega arith)))
    apart_bytes f offset bytes other count (inr after) =
        bytes_of_agree _ _ other count
          (λ k lo hi. overwritten_apart f offset bytes k (inl (omega arith)))
