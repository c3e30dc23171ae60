-- ===== src/Storage/DiskManager/Laws.antt =====
-- src/storage/disk_manager.cpp: the disk manager keeps what the buffer pool asks of a disk.
use curiodb.Prelude.{
  ℕ, ◌+◌, ◌≤◌, ◌≡◌, ◌⊎◌, inl, inr, refl, sym, ap, ◌∙◌, true, false, List, Option, none, some,
  if◌then◌else◌, ltb, ◌==◌, ==_iff, length, arith, Bool-cases, Option-cases,
}
use curiodb.Prelude.Outcome.{ok}
use curiodb.Storage.SlottedPage.Defs.{page_size}
use curiodb.Storage.BufferPool.Coherent.{IsDisk}
use curiodb.Storage.DiskManager.Defs.{
  FileStream, PageFile, page_offset, read_page, write_page, disk_manager,
}

-- What `std::fstream` does on a file that nothing else writes: the bytes that are read are those that the
-- file holds there, zeros being past its end; a write that leaves the stream good has put its bytes there;
-- and no write changes bytes elsewhere.
pub record IsStream {F : Type 0} (stream : FileStream F) : Type 0 where
  pub held : F → ℕ → ℕ → List ℕ
  pub read :
      (f : F) (offset count : ℕ) (bytes : List ℕ)
      → stream.read f offset count ≡ some bytes
      → (held f offset count ≡ bytes) × (length bytes ≡ count)
  pub written :
      (f : F) (offset : ℕ) (bytes : List ℕ)
      → (stream.write f offset bytes).1 ≡ true
      → held (stream.write f offset bytes).0 offset (length bytes) ≡ bytes
  pub apart :
      (f : F) (offset : ℕ) (bytes : List ℕ) (other count : ℕ)
      → (offset + length bytes ≤ other) ⊎ (other + count ≤ offset)
      → held (stream.write f offset bytes).0 other count ≡ held f other count

module _ {F : Type 0} (stream : FileStream F) (law : IsStream stream) where
  abbrev page_of : PageFile F → ℕ → Option (List ℕ)
  page_of state id =
      if ltb id state.page_count
      then some (law.held state.file (page_offset id) page_size)
      else none

  read_page-page_of :
      (state : PageFile F) (id : ℕ) (bytes : List ℕ)
      → read_page stream state id ≡ ok bytes
      → (page_of state id ≡ some bytes) × (length bytes ≡ page_size)
  unfolding read_page
  read_page-page_of state id bytes e = elim (Bool-cases (ltb id state.page_count)) [
    | inr outside ↦ absurd (ground arith)
    | inl inside ↦ elim (Option-cases (stream.read state.file (page_offset id) page_size)) [
      | inl failed ↦ absurd (ground arith)
      | inr (got, found) ↦
          let same : got ≡ bytes = ground arith in
          let (there, size) = law.read state.file (page_offset id) page_size got found in
          rw inside (ap some (there ∙ same), ap length (sym same) ∙ size)
    ]
  ]

  write_page-page_of :
      (state : PageFile F) (id : ℕ) (bytes : List ℕ)
      → length bytes ≡ page_size
      → (write_page stream state id bytes).1 ≡ none
      → page_of (write_page stream state id bytes).0 id ≡ some bytes
  unfolding write_page
  write_page-page_of state id bytes size e = elim (Bool-cases (ltb id state.page_count)) [
    | inr outside ↦ absurd (ground arith)
    | inl inside ↦ elim (Bool-cases (stream.write state.file (page_offset id) bytes).1) [
      | inr failed ↦ absurd (ground arith)
      | inl good ↦
          let there = rw size at (law.written state.file (page_offset id) bytes good) in
          rw (inside, write_page) (rw good (rw inside (ap some there)))
    ]
  ]

  apart_offsets :
      (id k size : ℕ)
      → size ≡ page_size
      → (id == k) ≡ false
      → (page_offset id + size ≤ page_offset k) ⊎ (page_offset k + page_size ≤ page_offset id)
  unfolding page_offset
  apart_offsets id k size e other = elim (Bool-cases (ltb id k)) [
    | inl before ↦ let below : id + 1 ≤ k = ground arith in inl (omega arith)
    | inr after ↦ let above : k + 1 ≤ id = ground (arith, ==_iff id k) in inr (omega arith)
  ]

  write_page_others :
      (state : PageFile F) (id : ℕ) (bytes : List ℕ) (k : ℕ)
      → length bytes ≡ page_size
      → (id == k) ≡ false
      → page_of (write_page stream state id bytes).0 k ≡ page_of state k
  unfolding write_page
  write_page_others state id bytes k size other =
      let file = (stream.write state.file (page_offset id) bytes).0 in
      let kept : law.held file (page_offset k) page_size
          ≡ law.held state.file (page_offset k) page_size =
        law.apart state.file (page_offset id) bytes (page_offset k) page_size
          (apart_offsets id k (length bytes) size other) in
      elim (Bool-cases (ltb id state.page_count)) [
        | inr outside ↦ rw (outside, write_page) refl
        | inl inside ↦ elim (Bool-cases (stream.write state.file (page_offset id) bytes).1) [
          | inr failed ↦ rw (inside, write_page) (rw failed (rw kept refl))
          | inl good ↦ rw (inside, write_page) (rw good (rw kept refl))
        ]
      ]

  pub disk_manager-IsDisk : IsDisk (disk_manager stream)
  disk_manager-IsDisk = record {
    content = page_of;
    read = read_page-page_of;
    written = write_page-page_of;
    others = write_page_others;
  }
