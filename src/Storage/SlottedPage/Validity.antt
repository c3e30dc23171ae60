-- ===== src/Storage/SlottedPage/Validity.antt =====
-- src/storage/slotted_page.cpp: the invariant of a page, and what the page holds, slot by slot.
use curiodb.Prelude.{
  ℕ, zero, suc, ◌+◌, ◌*◌, ◌<◌, ◌≤◌, ◌≡◌, ◌≢◌, ◌⊎◌, Bool, true, false, List, [], ◌∷◌, Option, none,
  some, if◌then◌else◌, ◌==◌, length, arith,
}
use native.Mathlib.Nat.{add-zero}
use mathlib.Core.Path.{ap₂}
use curiodb.Prelude.{refl, ◌++◌, ap, ◌∙◌, set}
use curiodb.Prelude.Bytes.{Bytes}
use curiodb.Storage.SlottedPage.Cells.{
  read_u16, read_u32, slice, Agree, Apart, read_u16-Agree, read_u32-Agree, slice-Agree,
  length-write_u16, length-copy,
}
use curiodb.Storage.SlottedPage.Defs.{
  page_size, magic, format_version, slot_count, free_start, free_end, record_offset, record_length,
  slot_offset,
}

-- The ranges of two records do not meet.
abbrev pub Disjoint : Bytes → ℕ → ℕ → Type 0
Disjoint page s t =
    (record_offset page s + record_length page s ≤ record_offset page t)
    ⊎ (record_offset page t + record_length page t ≤ record_offset page s)

-- The record of a slot lies in the record area.
abbrev pub IsInside : Bytes → ℕ → Type 0
IsInside page s =
    (free_end page ≤ record_offset page s)
    × (record_offset page s + record_length page s ≤ page_size)

pub record IsValid (page : Bytes) : Type 0 where
  pub size : length page ≡ page_size
  pub has_magic : read_u32 page 0 ≡ magic
  pub has_version : read_u16 page 4 ≡ format_version
  pub start : free_start page ≡ slot_offset (slot_count page)
  pub start_end : free_start page ≤ free_end page
  pub end : free_end page ≤ page_size
  pub inside : (s : ℕ) → s < slot_count page → IsInside page s
  pub disjoint :
      (s t : ℕ)
      → s < slot_count page
      → t < slot_count page
      → s ≢ t
      → record_length page s ≢ 0
      → record_length page t ≢ 0
      → Disjoint page s t

-- What a slot holds: nothing once its record is deleted.
unfoldable pub slot_content : Bytes → ℕ → Option Bytes
slot_content page s =
    if record_length page s == 0
    then none
    else some (slice page (record_offset page s) (record_length page s))

-- What the page holds, from the slot `index` on.
unfoldable pub contents_from : Bytes → ℕ → ℕ → List (Option Bytes)
contents_from page index zero = []
contents_from page index (suc count) =
    slot_content page index ∷ contents_from page (index + 1) count

-- What the page holds: for each slot its record, or nothing.
unfoldable pub contents : Bytes → List (Option Bytes)
contents page = contents_from page 0 (slot_count page)

-- The record that a slot is given: an empty one cannot be told from a deleted one.
unfoldable pub stored : Bytes → Option Bytes
stored [] = none
stored (b ∷ bs) = some (b ∷ bs)

pub ruleset lengths = (arith, length-write_u16, length-copy)

-- Slots that agree in their entries and in the bytes of their records hold the same.
pub slot_content-eq :
    (p q : Bytes) (s : ℕ)
    → record_offset p s ≡ record_offset q s
    → record_length p s ≡ record_length q s
    → Agree (record_offset q s) (record_length q s) p q
    → slot_content p s ≡ slot_content q s
unfolding slot_content
slot_content-eq p q s ho hl agree =
    ground (arith, slice-Agree p q (record_offset q s) (record_length q s) agree)

pub contents_from-eq :
    (p q : Bytes) (index count : ℕ)
    → ((s : ℕ) → index ≤ s → s < index + count → slot_content p s ≡ slot_content q s)
    → contents_from p index count ≡ contents_from q index count
unfolding contents_from
contents_from-eq p q index zero h = ground arith
contents_from-eq p q index (suc count) h = ground (
  arith,
  h index (omega arith) (omega arith),
  contents_from-eq p q (index + 1) count (λ s lo hi. h s (omega arith) (omega arith)),
)

-- A slot whose entry leads to the bytes of a record holds that record.
pub slot_content-stored :
    (p r : Bytes) (s offset : ℕ)
    → record_offset p s ≡ offset
    → record_length p s ≡ length r
    → slice p offset (length r) ≡ r
    → slot_content p s ≡ stored r
unfolding slot_content stored
slot_content-stored p [] s offset ho hl e = ground arith
slot_content-stored p (b ∷ bs) s offset ho hl e = ground (arith, e)

pub contents_from-snoc :
    (p : Bytes) (index count : ℕ)
    → contents_from p index (suc count)
      ≡ contents_from p index count ++ slot_content p (index + count) ∷ []
unfolding contents_from
contents_from-snoc p index zero = rw add-zero refl
contents_from-snoc p index (suc count) =
    let moved : index + 1 + count ≡ index + suc count = omega arith in
    ap (◌∷◌ (slot_content p index)) (rw moved at (contents_from-snoc p (index + 1) count))

pub slot_content-deleted :
    (p q : Bytes) (s : ℕ)
    → record_length p s ≡ 0
    → record_length q s ≡ 0
    → slot_content p s ≡ slot_content q s
unfolding slot_content
slot_content-deleted p q s hp hq = rw (hp, hq) refl

-- Pages that differ in one slot.
pub contents_from-set :
    (p q : Bytes) (index count k : ℕ) (c : Option Bytes)
    → k < count
    → slot_content p (index + k) ≡ c
    → ((t : ℕ)
        → index ≤ t
        → t < index + count
        → t ≢ index + k
        → slot_content p t ≡ slot_content q t)
    → contents_from p index count ≡ set (contents_from q index count) k c
unfolding contents_from
contents_from-set p q index zero k c h here there = absurd (omega arith)
contents_from-set p q index (suc count) zero c h here there =
    ap₂ (λ x xs. x ∷ xs) (ap (slot_content p) (omega arith) ∙ here)
      (contents_from-eq p q (index + 1) count
        (λ t lo hi. there t (omega arith) (omega arith) (omega arith)))
contents_from-set p q index (suc count) (suc k) c h here there =
    ap₂ (λ x xs. x ∷ xs) (there index (omega arith) (omega arith) (omega arith))
      (contents_from-set p q (index + 1) count k c (omega arith)
        (ap (slot_content p) (omega arith) ∙ here)
        (λ t lo hi ne. there t (omega arith) (omega arith) (omega arith)))
