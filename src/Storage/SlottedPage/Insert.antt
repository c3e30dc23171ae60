-- ===== src/Storage/SlottedPage/Insert.antt =====
-- src/storage/slotted_page.cpp: the bytes that `insert_record` writes, read back.
use curiodb.Prelude.{ℕ, ◌+◌, ◌<◌, ◌≤◌, ◌≡◌, length, arith, ◌∙◌, inl, inr}
use curiodb.Prelude.Bytes.{Bytes}
use curiodb.Storage.SlottedPage.Cells.{
  Agree, Apart, write_u16-Agree, copy-Agree, read_u16-Agree, slice, slice-Agree, slice-copy_self,
  read_u16-write_u16_self, read_u16-write_u16_ne,
}
use curiodb.Storage.SlottedPage.Defs.{
  page_size, slot_offset, place_record, slot_count, free_start, free_end, record_offset,
  record_length,
}
use curiodb.Storage.SlottedPage.Validity.{lengths, slot_content, slot_content-eq}

-- A record of `length r` bytes put at `offset` under the slot `count`, where there is room.
module _ (p r : Bytes) (count offset : ℕ) (size : length p ≡ page_size)
    (behind : slot_offset count + 4 ≤ offset) (fits : offset + length r ≤ page_size) where
  pub length-place_record : length (place_record p r count offset) ≡ page_size
  unfolding place_record
  length-place_record = omega lengths

  -- What is written: the record, the entry of the slot, and the last six bytes used of the header.
  pub place_record-Agree :
      (o n : ℕ)
      → Apart offset (length r) o n
      → Apart (slot_offset count) 4 o n
      → Apart 6 6 o n
      → Agree o n (place_record p r count offset) p
  unfolding place_record
  place_record-Agree o n a b c i lo hi =
      write_u16-Agree _ 10 _ o n (omega arith) i lo hi
      ∙ (write_u16-Agree _ 8 _ o n (omega arith) i lo hi
          ∙ (write_u16-Agree _ 6 _ o n (omega arith) i lo hi
              ∙ (write_u16-Agree _ (slot_offset count + 2) _ o n (omega arith) i lo hi
                  ∙ (write_u16-Agree _ (slot_offset count) _ o n (omega arith) i lo hi
                      ∙ copy-Agree r p offset o n a i lo hi))))

  pub free_end-place_record : free_end (place_record p r count offset) ≡ offset
  unfolding place_record
  free_end-place_record = read_u16-write_u16_self _ 10 offset (omega lengths) (omega arith)

  pub free_start-place_record : free_start (place_record p r count offset) ≡ slot_offset (count + 1)
  unfolding place_record
  free_start-place_record =
      read_u16-write_u16_ne _ 10 offset 8 (inr (omega arith))
      ∙ (read_u16-write_u16_self _ 8 _ (omega lengths) (omega arith) ∙ omega arith)

  pub slot_count-place_record : slot_count (place_record p r count offset) ≡ count + 1
  unfolding place_record
  slot_count-place_record =
      read_u16-write_u16_ne _ 10 offset 6 (inr (omega arith))
      ∙ (read_u16-write_u16_ne _ 8 _ 6 (inr (omega arith))
          ∙ (read_u16-write_u16_self _ 6 _ (omega lengths) (omega arith) ∙ omega arith))

  pub record_length-place_record : record_length (place_record p r count offset) count ≡ length r
  unfolding place_record
  record_length-place_record =
      read_u16-write_u16_ne _ 10 offset _ (inl (omega arith))
      ∙ (read_u16-write_u16_ne _ 8 _ _ (inl (omega arith))
          ∙ (read_u16-write_u16_ne _ 6 _ _ (inl (omega arith))
              ∙ (read_u16-write_u16_self _ _ _ (omega lengths) (omega arith) ∙ omega arith)))

  pub record_offset-place_record : record_offset (place_record p r count offset) count ≡ offset
  unfolding place_record
  record_offset-place_record =
      read_u16-write_u16_ne _ 10 offset _ (inl (omega arith))
      ∙ (read_u16-write_u16_ne _ 8 _ _ (inl (omega arith))
          ∙ (read_u16-write_u16_ne _ 6 _ _ (inl (omega arith))
              ∙ (read_u16-write_u16_ne _ (slot_offset count + 2) _ _ (inr (omega arith))
                  ∙ read_u16-write_u16_self _ _ offset (omega lengths) (omega arith))))

  -- The record's own bytes: the later writes lie before them.
  pub slice-place_record : slice (place_record p r count offset) offset (length r) ≡ r
  unfolding place_record
  slice-place_record =
      slice-Agree _ _ offset (length r) (λ i lo hi.
        write_u16-Agree _ 10 _ offset (length r) (inl (omega arith)) i lo hi
        ∙ (write_u16-Agree _ 8 _ offset (length r) (inl (omega arith)) i lo hi
            ∙ (write_u16-Agree _ 6 _ offset (length r) (inl (omega arith)) i lo hi
                ∙ (write_u16-Agree _ (slot_offset count + 2) _ offset (length r) (inl (omega arith))
                      i lo hi
                    ∙ write_u16-Agree _ (slot_offset count) _ offset (length r) (inl (omega arith))
                        i lo hi))))
      ∙ slice-copy_self r p offset (omega arith)

  -- The entries of the slots before are kept.
  pub record_offset-place_record_old :
      (s : ℕ) → s < count → record_offset (place_record p r count offset) s ≡ record_offset p s
  record_offset-place_record_old s h =
      read_u16-Agree _ p (slot_offset s)
        (place_record-Agree _ 2 (inr (omega arith)) (inr (omega arith)) (inl (omega arith)))

  pub record_length-place_record_old :
      (s : ℕ) → s < count → record_length (place_record p r count offset) s ≡ record_length p s
  record_length-place_record_old s h =
      read_u16-Agree _ p (slot_offset s + 2)
        (place_record-Agree _ 2 (inr (omega arith)) (inr (omega arith)) (inl (omega arith)))

  pub slot_content-place_record_old :
      (s : ℕ)
      → s < count
      → offset + length r ≤ record_offset p s
      → slot_content (place_record p r count offset) s ≡ slot_content p s
  slot_content-place_record_old s h above =
      slot_content-eq _ p s (record_offset-place_record_old s h)
        (record_length-place_record_old s h)
        (place_record-Agree _ _ (inl (omega arith)) (inl (omega arith)) (inl (omega arith)))
