-- ===== src/Storage/SlottedPage/Change.antt =====
-- src/storage/slotted_page.cpp: `read_record`, `delete_record` and `update_record` on a valid page.
use curiodb.Prelude.{ℕ, ◌+◌, ◌%◌, ◌<◌, ◌≤◌, ◌≡◌, ◌≢◌, length, set, arith, ◌∙◌, inl, inr, sym, ap}
use native.Mathlib.Decide.{ℕ_discrete}
use curiodb.Prelude.Bytes.{Bytes}
use curiodb.Storage.SlottedPage.Cells.{
  read_u16-Agree, read_u32-Agree, Agree, Apart, write_u16, copy, write_u16-Agree, copy-Agree,
  read_u16-write_u16_self, slice-Agree, slice-copy_self,
}
use curiodb.Storage.SlottedPage.Defs.{
  slot_offset, slot_count, free_start, free_end, record_offset, record_length,
}
use curiodb.Storage.SlottedPage.Validity.{
  slot_content, IsValid, IsInside, Disjoint, contents, contents_from, stored, slot_content-stored,
  lengths, slot_content-eq, slot_content-deleted, contents_from-set,
}

-- `update_record` and `delete_record` write a record `r` over the front of the one at the slot, and its
-- length into the slot's entry; a deletion writes the empty record.
abbrev pub overwrite : Bytes → ℕ → Bytes → Bytes
overwrite p s r = write_u16 (copy r p (record_offset p s)) (slot_offset s + 2) (length r % 65536)

module _ (p : Bytes) (s : ℕ) (r : Bytes) (v : IsValid p) (here : s < slot_count p)
    (live : record_length p s ≢ 0) (short : length r ≤ record_length p s) where
  abbrev pub q : Bytes
  q = overwrite p s r

  behind : slot_offset s + 4 ≤ record_offset p s
  behind = omega (arith, v.start, v.start_end, v.inside s here)

  overwrite-Agree :
      (o n : ℕ)
      → Apart (record_offset p s) (length r) o n
      → Apart (slot_offset s + 2) 2 o n
      → Agree o n q p
  overwrite-Agree o n a b i lo hi =
      write_u16-Agree _ (slot_offset s + 2) _ o n b i lo hi
      ∙ copy-Agree r p (record_offset p s) o n a i lo hi

  header : (o : ℕ) → o + 2 ≤ 16 → Agree o 2 q p
  header o h = overwrite-Agree o 2 (inr (omega (arith, behind))) (inr (omega arith))

  offset_kept : (t : ℕ) → t < slot_count p → record_offset q t ≡ record_offset p t
  offset_kept t h = read_u16-Agree q p (slot_offset t) (
      overwrite-Agree _ 2 (inr (omega (arith, v.start, v.start_end, v.inside s here)))
        (omega arith))

  length_kept : (t : ℕ) → t < slot_count p → t ≢ s → record_length q t ≡ record_length p t
  length_kept t h ne = read_u16-Agree q p (slot_offset t + 2) (
      overwrite-Agree _ 2 (inr (omega (arith, v.start, v.start_end, v.inside s here)))
        (omega arith))

  length_set : record_length q s ≡ length r
  length_set =
      read_u16-write_u16_self _ (slot_offset s + 2) _
        (omega (lengths, v.size, behind, v.inside s here)) (omega arith)
      ∙ omega (arith, v.inside s here, behind)

  length_le : (t : ℕ) → t < slot_count p → record_length q t ≤ record_length p t
  length_le t h = elim (ℕ_discrete t s) [
    | yes same ↦ rw same (omega (arith, length_set))
    | no other ↦ omega (arith, length_kept t h other)
  ]

  count_kept : slot_count q ≡ slot_count p
  count_kept = read_u16-Agree q p 6 (header 6 (omega arith))

  end_kept : free_end q ≡ free_end p
  end_kept = read_u16-Agree q p 10 (header 10 (omega arith))

  start_kept : free_start q ≡ free_start p
  start_kept = read_u16-Agree q p 8 (header 8 (omega arith))

  IsInside-kept : (t : ℕ) → t < slot_count q → IsInside q t
  IsInside-kept t h =
      let h' : t < slot_count p = omega (arith, count_kept) in
      omega (arith, offset_kept t h', length_le t h', end_kept, v.inside t h')

  Disjoint-kept :
      (t u : ℕ)
      → t < slot_count q
      → u < slot_count q
      → t ≢ u
      → record_length q t ≢ 0
      → record_length q u ≢ 0
      → Disjoint q t u
  Disjoint-kept t u ht hu ne lt lu =
      let ht' : t < slot_count p = omega (arith, count_kept) in
      let hu' : u < slot_count p = omega (arith, count_kept) in
      let apart =
        v.disjoint t u ht' hu' ne (omega (arith, length_le t ht'))
          (omega (arith, length_le u hu')) in
      omega (arith, apart, offset_kept t ht', offset_kept u hu', length_le t ht', length_le u hu')

  pub overwrite-IsValid : IsValid q
  overwrite-IsValid = record {
    size = omega (lengths, v.size);
    has_magic =
        read_u32-Agree q p 0 (overwrite-Agree 0 4 (inr (omega (arith, behind))) (inr (omega arith)))
        ∙ v.has_magic;
    has_version = read_u16-Agree q p 4 (header 4 (omega arith)) ∙ v.has_version;
    start = omega (arith, start_kept, count_kept, v.start);
    start_end = omega (arith, start_kept, end_kept, v.start_end);
    end = omega (arith, end_kept, v.end);
    inside = IsInside-kept;
    disjoint = Disjoint-kept;
  }

  content_here : slot_content q s ≡ stored r
  content_here = slot_content-stored q r s (record_offset p s) (offset_kept s here) length_set (
      slice-Agree _ _ (record_offset p s) (length r)
        (write_u16-Agree _ (slot_offset s + 2) _ _ _ (inl (omega (arith, behind))))
      ∙ slice-copy_self r p (record_offset p s) (omega (arith, v.size, v.inside s here)))

  content_kept : (t : ℕ) → t < slot_count p → t ≢ s → slot_content q t ≡ slot_content p t
  content_kept t h ne = elim (ℕ_discrete (record_length p t) 0) [
    | yes gone ↦ content_gone gone
    | no there ↦ slot_content-eq q p t (offset_kept t h) (length_kept t h ne) (
        overwrite-Agree _ _ (omega (arith, v.disjoint s t here h (λ e. ne (sym e)) live there))
          (inl (omega (arith, v.start, v.start_end, v.inside t h))))
  ]
    where
      content_gone : record_length p t ≡ 0 → slot_content q t ≡ slot_content p t
      content_gone gone = slot_content-deleted q p t (length_kept t h ne ∙ gone) gone

  pub contents-overwrite : contents q ≡ set (contents p) s (stored r)
  unfolding contents
  contents-overwrite =
      ap (contents_from q 0) count_kept
      ∙ contents_from-set q p 0 (slot_count p) s (stored r) here
          (ap (slot_content q) (omega arith) ∙ content_here)
          (λ t lo hi ne. content_kept t (omega arith) (λ e. ne (e ∙ omega arith)))
