-- ===== src/Storage/SlottedPage/Ranges.antt =====
-- src/storage/slotted_page.cpp: the ranges that `validate` collects, sorts and compares.
use curiodb.Prelude.{
  ℕ, ◌<◌, ◌≤◌, ◌≡◌, ◌⊎◌, inl, inr, arith, List, [], ◌∷◌, All, false, ltb, Bool-cases, ltb-eq-false,
  refl, ◌↔◌,
}
use curiodb.Storage.SlottedPage.Defs.{Range, insert_range, sort_ranges, ranges_overlap}

-- Two ranges do not meet.
abbrev pub Separate : Range → Range → Type 0
Separate r s = (r.end ≤ s.begin) ⊎ (s.end ≤ r.begin)

abbrev pub IsRange : Range → Type 0
IsRange r = r.begin < r.end

-- Every range of a list is apart from all that follow it.
abbrev pub AllSeparate : List Range → Type 0
AllSeparate [] = Unit
AllSeparate (r ∷ rs) = All (Separate r) rs × AllSeparate rs

-- Each begins where the one before it has ended, or later.
abbrev pub Ordered : List Range → Type 0
Ordered [] = Unit
Ordered (r ∷ rs) = All (λ s. r.end ≤ s.begin) rs × Ordered rs

abbrev Ascending : List Range → Type 0
Ascending [] = Unit
Ascending (r ∷ rs) = All (λ s. r.begin ≤ s.begin) rs × Ascending rs

module _ (P : Range → Type 0) where
  pub insert_range-All : (r : Range) (rs : List Range) → P r → All P rs → All P (insert_range r rs)
  unfolding insert_range
  insert_range-All r [] p h = (p, tt)
  insert_range-All r (s ∷ rs) p (q, h) = elim (Bool-cases (ltb s.begin r.begin)) [
    | inl less ↦ rw less (q, insert_range-All r rs p h)
    | inr more ↦ rw more (p, (q, h))
  ]

  pub All-insert_range : (r : Range) (rs : List Range) → All P (insert_range r rs) → P r × All P rs
  unfolding insert_range
  All-insert_range r [] (p, _) = (p, tt)
  All-insert_range r (s ∷ rs) h = elim (Bool-cases (ltb s.begin r.begin)) [
    | inl less ↦
        let (q, rest) = rw less at h in
        let (p, others) = All-insert_range r rs rest in (p, (q, others))
    | inr more ↦ rw more at h
  ]

  pub sort_ranges-All : (rs : List Range) → All P rs → All P (sort_ranges rs)
  unfolding sort_ranges
  sort_ranges-All [] h = tt
  sort_ranges-All (r ∷ rs) (p, h) = insert_range-All r (sort_ranges rs) p (sort_ranges-All rs h)

  pub All-sort_ranges : (rs : List Range) → All P (sort_ranges rs) → All P rs
  unfolding sort_ranges
  All-sort_ranges [] h = tt
  All-sort_ranges (r ∷ rs) h =
      let (p, rest) = All-insert_range r (sort_ranges rs) h in (p, All-sort_ranges rs rest)

Separate-sym : (r s : Range) → Separate r s → Separate s r
Separate-sym r s (inl h) = inr h
Separate-sym r s (inr h) = inl h

insert_range-AllSeparate :
    (r : Range) (rs : List Range)
    → All (Separate r) rs
    → AllSeparate rs
    → AllSeparate (insert_range r rs)
unfolding insert_range
insert_range-AllSeparate r [] h k = (tt, tt)
insert_range-AllSeparate r (s ∷ rs) (a, h) (b, k) = elim (Bool-cases (ltb s.begin r.begin)) [
  | inl less ↦
      rw less (
        insert_range-All (Separate s) r rs (Separate-sym r s a) b,
        insert_range-AllSeparate r rs h k,
      )
  | inr more ↦ rw more ((a, h), (b, k))
]

AllSeparate-insert_range :
    (r : Range) (rs : List Range)
    → AllSeparate (insert_range r rs)
    → All (Separate r) rs × AllSeparate rs
unfolding insert_range
AllSeparate-insert_range r [] h = (tt, tt)
AllSeparate-insert_range r (s ∷ rs) h = elim (Bool-cases (ltb s.begin r.begin)) [
  | inl less ↦
      let (front, rest) = rw less at h in
      let (a, b) = All-insert_range (Separate s) r rs front in
      let (others, k) = AllSeparate-insert_range r rs rest in ((Separate-sym s r a, others), (b, k))
  | inr more ↦ rw more at h
]

sort_ranges-AllSeparate : (rs : List Range) → AllSeparate rs → AllSeparate (sort_ranges rs)
unfolding sort_ranges
sort_ranges-AllSeparate [] h = tt
sort_ranges-AllSeparate (r ∷ rs) (a, h) =
    insert_range-AllSeparate r (sort_ranges rs) (sort_ranges-All (Separate r) rs a)
      (sort_ranges-AllSeparate rs h)

AllSeparate-sort_ranges : (rs : List Range) → AllSeparate (sort_ranges rs) → AllSeparate rs
unfolding sort_ranges
AllSeparate-sort_ranges [] h = tt
AllSeparate-sort_ranges (r ∷ rs) h =
    let (a, rest) = AllSeparate-insert_range r (sort_ranges rs) h in
    (All-sort_ranges (Separate r) rs a, AllSeparate-sort_ranges rs rest)

above : (m n : ℕ) (rs : List Range) → m ≤ n → All (λ s. n ≤ s.begin) rs → All (λ s. m ≤ s.begin) rs
above m n [] h k = tt
above m n (r ∷ rs) h (a, k) = (omega arith, above m n rs h k)

insert_range-Ascending :
    (r : Range) (rs : List Range) → Ascending rs → Ascending (insert_range r rs)
unfolding insert_range
insert_range-Ascending r [] h = (tt, tt)
insert_range-Ascending r (s ∷ rs) (a, h) = elim (Bool-cases (ltb s.begin r.begin)) [
  | inl less ↦ rw less (
    insert_range-All (λ t. s.begin ≤ t.begin) r rs (ground arith) a,
    insert_range-Ascending r rs h,
  )
  | inr more ↦ rw more ((ground arith, above r.begin s.begin rs (ground arith) a), (a, h))
]

sort_ranges-Ascending : (rs : List Range) → Ascending (sort_ranges rs)
unfolding sort_ranges
sort_ranges-Ascending [] = tt
sort_ranges-Ascending (r ∷ rs) =
    insert_range-Ascending r (sort_ranges rs) (sort_ranges-Ascending rs)

-- Neighbours that do not overlap leave no pair that does.
no_overlap-AllSeparate : (rs : List Range) → All IsRange rs → ranges_overlap rs ≡ false → Ordered rs
unfolding ranges_overlap
no_overlap-AllSeparate [] h e = tt
no_overlap-AllSeparate (r ∷ []) h e = (tt, tt)
no_overlap-AllSeparate (r ∷ s ∷ rs) (a, (b, h)) e =
    let (front, rest) = no_overlap-AllSeparate (s ∷ rs) (b, h) (ground arith) in
    let next : r.end ≤ s.begin = ground arith in
    ((next, above r.end s.end rs (omega arith) front), (front, rest))

Ordered-AllSeparate : (rs : List Range) → Ordered rs → AllSeparate rs
Ordered-AllSeparate [] h = tt
Ordered-AllSeparate (r ∷ rs) (a, h) = (before r rs a, Ordered-AllSeparate rs h)
  where
    before : (q : Range) (qs : List Range) → All (λ s. q.end ≤ s.begin) qs → All (Separate q) qs
    before q [] k = tt
    before q (s ∷ qs) (b, k) = (inl b, before q qs k)

AllSeparate-no_overlap :
    (rs : List Range) → All IsRange rs → Ascending rs → AllSeparate rs → ranges_overlap rs ≡ false
unfolding ranges_overlap
AllSeparate-no_overlap [] h a k = refl
AllSeparate-no_overlap (r ∷ []) h a k = refl
AllSeparate-no_overlap (r ∷ s ∷ rs) (x, (y, h)) ((p, ps), a) ((q, qs), k) =
    let rest = AllSeparate-no_overlap (s ∷ rs) (y, h) a k in
    let next : ltb s.begin r.end ≡ false = ltb-eq-false _ _ (omega arith) in rw (next, rest) refl

-- The sorted ranges show an overlap exactly when two of the ranges meet.
pub ranges_overlap-AllSeparate :
    (rs : List Range) → All IsRange rs → (ranges_overlap (sort_ranges rs) ≡ false) ↔ AllSeparate rs
ranges_overlap-AllSeparate rs h = (
  λ e.
      AllSeparate-sort_ranges rs
        (Ordered-AllSeparate _ (no_overlap-AllSeparate _ (sort_ranges-All IsRange rs h) e)),
  λ k.
      AllSeparate-no_overlap _ (sort_ranges-All IsRange rs h) (sort_ranges-Ascending rs)
        (sort_ranges-AllSeparate rs k),
)
