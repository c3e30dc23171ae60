-- ===== src/Storage/SlottedPage/Grow.antt =====
-- src/storage/slotted_page.cpp: `insert_record` on a valid page.
use curiodb.Prelude.{
  ℕ, ◌+◌, ◌-◌, ◌%◌, ◌^◌, ◌<◌, ◌≤◌, ◌≡◌, ◌≢◌, length, arith, ◌∙◌, inl, inr, ◌⊎◌, sym, ap, [], ◌∷◌,
  ◌++◌, refl, false, Bool-cases, ltb→lt, ltb, ◌==◌, if◌then◌else◌,
}
use mathlib.Core.Path.{ap₂}
use curiodb.Prelude.Bytes.{Bytes}
use curiodb.Prelude.Outcome.{ok, err}
use curiodb.Storage.SlottedPage.Cells.{read_u16-Agree, read_u32-Agree}
use curiodb.Storage.SlottedPage.Defs.{
  page_size, slot_offset, place_record, slot_count, free_start, free_end, record_offset,
  record_length, insert_record, free_space, long_record, no_space, u16_max,
}
use curiodb.Storage.SlottedPage.Validity.{
  slot_content, IsValid, IsInside, Disjoint, contents, contents_from, contents_from-eq, stored,
  slot_content-stored, contents_from-snoc,
}
use curiodb.Storage.SlottedPage.Insert.{
  length-place_record, place_record-Agree, free_end-place_record, free_start-place_record,
  slot_count-place_record, record_length-place_record, record_offset-place_record,
  slice-place_record, record_offset-place_record_old, record_length-place_record_old,
  slot_content-place_record_old,
}

-- On a valid page the difference of `size_t` does not wrap.
pub free_space-IsValid : (p : Bytes) → IsValid p → free_space p ≡ free_end p - free_start p
unfolding free_space
free_space-IsValid p v = omega arith

-- What an insertion that succeeds did.
insert_record_inversion :
    (p r : Bytes) (slot : ℕ) (q : Bytes)
    → IsValid p
    → insert_record p r ≡ ok (slot, q)
    → (length r + 4 + free_start p ≤ free_end p)
      × (slot ≡ slot_count p)
      × (q ≡ place_record p r (slot_count p) (free_end p - length r))
unfolding insert_record
insert_record_inversion p r slot q v e = ground (arith, free_space-IsValid p v)

-- A record put at the free end of a valid page that has room for it.
module _ (p r : Bytes) (v : IsValid p) (room : length r + 4 + free_start p ≤ free_end p) where
  abbrev at : ℕ
  at = free_end p - length r

  abbrev placed : Bytes
  placed = place_record p r (slot_count p) at

  behind : slot_offset (slot_count p) + 4 ≤ at
  behind = omega (arith, v.start)

  fits : at + length r ≤ page_size
  fits = omega (arith, v.end)

  old_offset : (s : ℕ) → s < slot_count p → record_offset placed s ≡ record_offset p s
  old_offset = record_offset-place_record_old p r (slot_count p) at v.size behind fits

  old_length : (s : ℕ) → s < slot_count p → record_length placed s ≡ record_length p s
  old_length = record_length-place_record_old p r (slot_count p) at v.size behind fits

  new_offset : record_offset placed (slot_count p) ≡ at
  new_offset = record_offset-place_record p r (slot_count p) at v.size behind fits

  new_length : record_length placed (slot_count p) ≡ length r
  new_length = record_length-place_record p r (slot_count p) at v.size behind fits

  new_count : slot_count placed ≡ slot_count p + 1
  new_count = slot_count-place_record p r (slot_count p) at v.size behind fits

  new_end : free_end placed ≡ at
  new_end = free_end-place_record p r (slot_count p) at v.size behind fits

  -- A slot of the new page is the new one or an old one.
  which : (s : ℕ) → s < slot_count placed → (s ≡ slot_count p) ⊎ (s < slot_count p)
  which s h = omega (arith, new_count)

  new-IsInside : (s : ℕ) → s < slot_count placed → IsInside placed s
  new-IsInside s h = elim (which s h) [
    | inl new ↦ rw new (omega (arith, new_offset, new_length, new_end))
    | inr old ↦ omega (arith, old_offset s old, old_length s old, new_end, v.inside s old)
  ]

  -- The new record lies before every old one.
  new-Disjoint : (s : ℕ) → s < slot_count p → Disjoint placed (slot_count p) s
  new-Disjoint s old = omega (arith, old_offset s old, new_offset, new_length, v.inside s old)

  old-Disjoint :
      (s t : ℕ)
      → s < slot_count p
      → t < slot_count p
      → s ≢ t
      → record_length placed s ≢ 0
      → record_length placed t ≢ 0
      → Disjoint placed s t
  old-Disjoint s t hs ht ne ls lt =
      let apart =
        v.disjoint s t hs ht ne (λ e. ls (old_length s hs ∙ e)) (λ e. lt (old_length t ht ∙ e)) in
      omega (arith, apart, old_offset s hs, old_offset t ht, old_length s hs, old_length t ht)

  all-Disjoint :
      (s t : ℕ)
      → s < slot_count placed
      → t < slot_count placed
      → s ≢ t
      → record_length placed s ≢ 0
      → record_length placed t ≢ 0
      → Disjoint placed s t
  all-Disjoint s t hs ht ne ls lt = elim (which s hs) [
    | inl new ↦ elim (which t ht) [
      | inl new' ↦ absurd (ne (new ∙ sym new'))
      | inr old' ↦ rw new (new-Disjoint t old')
    ]
    | inr old ↦ elim (which t ht) [
      | inl new' ↦ rw new' (omega (arith, new-Disjoint s old))
      | inr old' ↦ old-Disjoint s t old old' ne ls lt
    ]
  ]

  placed-IsValid : IsValid placed
  placed-IsValid = record {
    size = length-place_record p r (slot_count p) at v.size behind fits;
    has_magic =
        read_u32-Agree placed p 0 (
          place_record-Agree p r (slot_count p) at v.size behind fits 0 4 (inr (omega arith))
            (inr (omega arith)) (inr (omega arith)))
        ∙ v.has_magic;
    has_version =
        read_u16-Agree placed p 4 (
          place_record-Agree p r (slot_count p) at v.size behind fits 4 2 (inr (omega arith))
            (inr (omega arith)) (inr (omega arith)))
        ∙ v.has_version;
    start =
        free_start-place_record p r (slot_count p) at v.size behind fits ∙ omega (arith, new_count);
    start_end =
        omega (
          arith,
          free_start-place_record p r (slot_count p) at v.size behind fits,
          new_end,
          behind,
        );
    end = omega (arith, new_end, fits);
    inside = new-IsInside;
    disjoint = all-Disjoint;
  }

  new_content : slot_content placed (slot_count p) ≡ stored r
  new_content =
      slot_content-stored placed r (slot_count p) at new_offset new_length
        (slice-place_record p r (slot_count p) at v.size behind fits)

  old_content : (s : ℕ) → s < slot_count p → slot_content placed s ≡ slot_content p s
  old_content s h =
      slot_content-place_record_old p r (slot_count p) at v.size behind fits s h
        (omega (arith, v.inside s h))

  placed-contents : contents placed ≡ contents p ++ stored r ∷ []
  unfolding contents
  placed-contents =
      ap (contents_from placed 0) (new_count ∙ omega arith)
      ∙ (contents_from-snoc placed 0 (slot_count p)
          ∙ ap₂ (λ front last. front ++ last ∷ [])
              (contents_from-eq placed p 0 (slot_count p) (λ s lo hi. old_content s (omega arith)))
              (ap (slot_content placed) (omega arith) ∙ new_content))

-- A successful insertion into a valid page leaves a valid page.
pub insert_record-IsValid :
    (p r : Bytes) (slot : ℕ) (q : Bytes) → IsValid p → insert_record p r ≡ ok (slot, q) → IsValid q
insert_record-IsValid p r slot q v e =
    let (room, _, same) = insert_record_inversion p r slot q v e in
    rw same (placed-IsValid p r v room)

-- A successful insertion into a valid page gives the next free slot number, appends the record to what
-- the page holds (an empty record as a deleted one) and keeps every other slot.
pub contents-insert_record :
    (p r : Bytes) (slot : ℕ) (q : Bytes)
    → IsValid p
    → insert_record p r ≡ ok (slot, q)
    → (slot ≡ slot_count p) × (contents q ≡ contents p ++ stored r ∷ [])
contents-insert_record p r slot q v e =
    let (room, number, same) = insert_record_inversion p r slot q v e in
    (number, rw same (placed-contents p r v room))

-- On a valid page an insertion succeeds exactly when the record and its directory entry fit into the
-- free space, and fails otherwise with `page_full`, or with `record_too_large` for a record that no
-- 16-bit length can describe.
pub insert_record-free_space :
    (p r : Bytes)
    → IsValid p
    → ((length r + 4 ≤ free_space p) × ((q : Bytes) × (insert_record p r ≡ ok (slot_count p, q))))
      ⊎ ((free_space p < length r + 4)
          × (insert_record p r ≡ err (if ltb u16_max (length r) then long_record else no_space)))
unfolding insert_record
insert_record-free_space p r v = elim (Bool-cases (ltb u16_max (length r))) [
  | inl long ↦ inr (omega (arith, ltb→lt _ _ long, free_space-IsValid p v, v.end), rw long refl)
  | inr short ↦ elim (Bool-cases (ltb (free_space p) (length r + 4))) [
    | inl full ↦ inr (ltb→lt _ _ full, rw (short, full) refl)
    | inr room ↦ inl (
      ground arith,
      (
        place_record p r (slot_count p) ((free_end p + 2 ^ 64 - length r) % 65536),
        rw (short, room, not_full) refl,
      ),
    )
  ]
]
  where
    not_full : (slot_count p == u16_max) ≡ false
    not_full = ground (arith, v.start, v.start_end, v.end)
