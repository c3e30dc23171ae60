-- ===== src/Storage/SlottedPage/Load.antt =====
-- src/storage/slotted_page.cpp: `validate` and `load_slotted_page` accept exactly the valid pages.
use native.Mathlib.Decide.{ℕ_discrete}
use curiodb.Prelude.{
  ℕ, zero, suc, ◌+◌, ◌<◌, ◌≤◌, ◌≡◌, ◌≢◌, ◌↔◌, inl, inr, arith, List, [], ◌∷◌, All, false, ltb, ◌==◌,
  if◌then◌else◌, Bool-cases, ltb→lt, length, refl,
}
use curiodb.Prelude.Bytes.{Bytes}
use curiodb.Prelude.Outcome.{ok, Outcome-cases}
use curiodb.Storage.SlottedPage.Defs.{
  Range, collect_ranges, ranges_overlap, sort_ranges, record_offset, record_length, slot_count,
  page_size, validate, load_slotted_page,
}
use curiodb.Storage.SlottedPage.Validity.{IsValid, IsInside, Disjoint}
use curiodb.Storage.SlottedPage.Ranges.{Separate, IsRange, AllSeparate, ranges_overlap-AllSeparate}

abbrev range_of : Bytes → ℕ → Range
range_of p s = record { begin = record_offset p s; end = record_offset p s + record_length p s }

-- The ranges of the records that are not deleted, from the slot `index` on.
live_ranges : Bytes → ℕ → ℕ → List Range
live_ranges p index zero = []
live_ranges p index (suc count) =
    if record_length p index == 0
    then live_ranges p (index + 1) count
    else range_of p index ∷ live_ranges p (index + 1) count

abbrev InsideFrom : Bytes → ℕ → ℕ → Type 0
InsideFrom p index count = (s : ℕ) → index ≤ s → s < index + count → IsInside p s

collect_ranges-eq :
    (p : Bytes) (index count : ℕ)
    → InsideFrom p index count
    → collect_ranges p index count ≡ ok (live_ranges p index count)
unfolding collect_ranges live_ranges
collect_ranges-eq p index zero h = refl
collect_ranges-eq p index (suc count) h = ground (
  arith,
  h index (omega arith) (omega arith),
  collect_ranges-eq p (index + 1) count (λ s lo hi. h s (omega arith) (omega arith)),
)

collect_ranges_step :
    (p : Bytes) (index count : ℕ) (rs : List Range)
    → collect_ranges p index (suc count) ≡ ok rs
    → IsInside p index × ((rest : List Range) × (collect_ranges p (index + 1) count ≡ ok rest))
unfolding collect_ranges
collect_ranges_step p index count rs e = elim (Outcome-cases (collect_ranges p (index + 1) count)) [
  | inl (rest, looped) ↦ (ground arith, (rest, looped))
  | inr (_, failed) ↦ absurd (ground arith)
]

collect_ranges_inversion :
    (p : Bytes) (index count : ℕ) (rs : List Range)
    → collect_ranges p index count ≡ ok rs
    → InsideFrom p index count
collect_ranges_inversion p index zero rs e s lo hi = absurd (omega arith)
collect_ranges_inversion p index (suc count) rs e s lo hi =
    let (here, (rest, looped)) = collect_ranges_step p index count rs e in
    elim (ℕ_discrete s index) [
      | yes same ↦ rw same here
      | no other ↦
          collect_ranges_inversion p (index + 1) count rest looped s (omega arith) (omega arith)
    ]

live_ranges-IsRange : (p : Bytes) (index count : ℕ) → All IsRange (live_ranges p index count)
unfolding live_ranges
live_ranges-IsRange p index zero = tt
live_ranges-IsRange p index (suc count) = ground (arith, live_ranges-IsRange p (index + 1) count)

-- What holds of each record in use holds of each of the ranges, and the other way round.
module _ (P : Range → Type 0) (p : Bytes) where
  live_ranges-All :
      (index count : ℕ)
      → ((s : ℕ) → index ≤ s → s < index + count → record_length p s ≢ 0 → P (range_of p s))
      → All P (live_ranges p index count)
  unfolding live_ranges
  live_ranges-All index zero h = tt
  live_ranges-All index (suc count) h =
      let rest = live_ranges-All (index + 1) count (λ s lo hi. h s (omega arith) (omega arith)) in
      elim (Bool-cases (record_length p index == 0)) [
        | inl gone ↦ rw gone rest
        | inr live ↦ rw live (h index (omega arith) (omega arith) (ground arith), rest)
      ]

  All-live_ranges :
      (index count : ℕ)
      → All P (live_ranges p index count)
      → (s : ℕ) → index ≤ s
      → s < index + count
      → record_length p s ≢ 0
      → P (range_of p s)
  unfolding live_ranges
  All-live_ranges index zero h s lo hi live = absurd (omega arith)
  All-live_ranges index (suc count) h s lo hi live =
      elim (Bool-cases (record_length p index == 0)) [
        | inl gone ↦
            All-live_ranges (index + 1) count (rw gone at h) s (ground arith) (omega arith) live
        | inr there ↦
            let both = rw there at h in
            elim (ℕ_discrete s index) [
              | yes same ↦ rw same both.0
              | no other ↦
                  All-live_ranges (index + 1) count both.1 s (omega arith) (omega arith) live
            ]
      ]

abbrev DisjointFrom : Bytes → ℕ → ℕ → Type 0
DisjointFrom p index count =
    (s t : ℕ)
    → index ≤ s
    → s < t
    → t < index + count
    → record_length p s ≢ 0
    → record_length p t ≢ 0
    → Separate (range_of p s) (range_of p t)

live_ranges-AllSeparate :
    (p : Bytes) (index count : ℕ)
    → DisjointFrom p index count
    → AllSeparate (live_ranges p index count)
unfolding live_ranges
live_ranges-AllSeparate p index zero h = tt
live_ranges-AllSeparate p index (suc count) h =
    let rest =
      live_ranges-AllSeparate p (index + 1) count
        (λ s t lo lt hi. h s t (omega arith) lt (omega arith)) in
    elim (Bool-cases (record_length p index == 0)) [
      | inl gone ↦ rw gone rest
      | inr live ↦ rw live (
        live_ranges-All (Separate (range_of p index)) p (index + 1) count
            (λ t lo hi. h index t (omega arith) (omega arith) (omega arith) (ground arith)),
        rest,
      )
    ]

AllSeparate-live_ranges :
    (p : Bytes) (index count : ℕ)
    → AllSeparate (live_ranges p index count)
    → DisjointFrom p index count
unfolding live_ranges
AllSeparate-live_ranges p index zero h s t lo lt hi ls lt' = absurd (omega arith)
AllSeparate-live_ranges p index (suc count) h s t lo lt hi ls lt' =
    elim (Bool-cases (record_length p index == 0)) [
      | inl gone ↦
          AllSeparate-live_ranges p (index + 1) count (rw gone at h) s t (ground arith) lt
            (omega arith) ls lt'
      | inr there ↦
          let both = rw there at h in
          elim (ℕ_discrete s index) [
            | yes same ↦ rw same (
                All-live_ranges (Separate (range_of p index)) p (index + 1) count both.0 t
                  (omega arith) (omega arith) lt')
            | no other ↦
                AllSeparate-live_ranges p (index + 1) count both.1 s t (omega arith) lt
                  (omega arith) ls lt'
          ]
    ]

Disjoint-both_ways :
    (p : Bytes)
    → DisjointFrom p 0 (slot_count p)
    → (s t : ℕ) → s < slot_count p
    → t < slot_count p
    → s ≢ t
    → record_length p s ≢ 0
    → record_length p t ≢ 0
    → Disjoint p s t
Disjoint-both_ways p h s t hs ht ne ls lt = elim (Bool-cases (ltb s t)) [
  | inl before ↦ h s t (omega arith) (ltb→lt s t before) (omega arith) ls lt
  | inr behind ↦ omega (arith, h t s (omega arith) (ground arith) (omega arith) lt ls)
]

validate-IsValid : (p : Bytes) → length p ≡ page_size → validate p ≡ ok tt → IsValid p
unfolding validate
validate-IsValid p size e = elim (Outcome-cases (collect_ranges p 0 (slot_count p))) [
  | inr (_, failed) ↦ absurd (ground arith)
  | inl (rs, collected) ↦
      let within = collect_ranges_inversion p 0 (slot_count p) rs collected in
      let same = collect_ranges-eq p 0 (slot_count p) within in
      let apart : ranges_overlap (sort_ranges (live_ranges p 0 (slot_count p))) ≡ false =
        ground arith in
      let separate =
        (ranges_overlap-AllSeparate _ (live_ranges-IsRange p 0 (slot_count p))).0 apart in
      record {
        size = size;
        has_magic = ground arith;
        has_version = ground arith;
        start = ground arith;
        start_end = ground arith;
        end = ground arith;
        inside = λ s h. within s (omega arith) (omega arith);
        disjoint = Disjoint-both_ways p (AllSeparate-live_ranges p 0 (slot_count p) separate);
      }
]

IsValid-validate : (p : Bytes) → IsValid p → validate p ≡ ok tt
unfolding validate
IsValid-validate p v =
    let collected = collect_ranges-eq p 0 (slot_count p) (λ s lo hi. v.inside s (omega arith)) in
    let separate =
      live_ranges-AllSeparate p 0 (slot_count p)
        (λ s t lo lt hi ls lt'. v.disjoint s t (omega arith) (omega arith) (omega arith) ls lt') in
    let apart =
      (ranges_overlap-AllSeparate _ (live_ranges-IsRange p 0 (slot_count p))).1 separate in
    ground (arith, collected, apart, v.has_magic, v.has_version, v.start, v.start_end, v.end)

-- The 4096 bytes that `load_slotted_page` accepts are exactly the valid pages: the header, the bounds of
-- the free space, every directory entry inside the record area, and no two records overlapping.
pub load_slotted_page-IsValid :
    (p : Bytes) → length p ≡ page_size → (load_slotted_page p ≡ ok p) ↔ IsValid p
unfolding load_slotted_page
load_slotted_page-IsValid p size =
    (λ e. validate-IsValid p size (ground arith), λ v. rw (IsValid-validate p v) refl)
