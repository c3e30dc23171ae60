-- ===== src/Storage/BufferPool/Bounded.antt =====
-- src/storage/buffer_pool.cpp: how the calls change the number of the frames and their pages.
use curiodb.Prelude.{
  not, ℕ, suc, ◌≤◌, ◌≡◌, ◌⊎◌, inl, inr, refl, Bool, true, false, ◌&&◌, List, [], ◌∷◌, Option, none,
  some, if◌then◌else◌, ◌==◌, ==_iff, ltb, length, arith, Bool-cases,
}
use curiodb.Storage.BufferPool.Defs.{Frame, find_frame, set_frame, erase_frame, choose_victim}

pub length-set_frame :
    (id : ℕ) (new : Frame) (frames : List Frame) → length (set_frame id new frames) ≡ length frames
unfolding set_frame
length-set_frame id new [] = refl
length-set_frame id new (f ∷ frames) = ground (arith, length-set_frame id new frames)

length-erase_frame : (id : ℕ) (frames : List Frame) → length (erase_frame id frames) ≤ length frames
unfolding erase_frame
length-erase_frame id [] = omega arith
length-erase_frame id (f ∷ frames) = ground (arith, length-erase_frame id frames)

-- Some frame has the page.
unfoldable pub has_frame : ℕ → List Frame → Bool
has_frame id [] = false
has_frame id (f ∷ frames) = let rest = has_frame id frames in if f.page_id == id then true else rest

pub length-erase_frame_there :
    (id : ℕ) (frames : List Frame)
    → has_frame id frames ≡ true
    → suc (length (erase_frame id frames)) ≤ length frames
unfolding erase_frame has_frame
length-erase_frame_there id [] h = absurd (ground arith)
length-erase_frame_there id (f ∷ frames) h = elim (Bool-cases (f.page_id == id)) [
  | inl here ↦ ground (arith, here, length-erase_frame id frames)
  | inr there ↦
      let inside : has_frame id frames ≡ true = ground (arith, there) in
      ground (arith, there, length-erase_frame_there id frames inside)
]

pub has_frame-set_frame :
    (id k : ℕ) (new : Frame) (frames : List Frame)
    → new.page_id ≡ id
    → has_frame k (set_frame id new frames) ≡ has_frame k frames
unfolding has_frame set_frame
has_frame-set_frame id k new [] named = refl
has_frame-set_frame id k new (f ∷ frames) named =
    ground (arith, has_frame-set_frame id k new frames named, ==_iff f.page_id id)

-- The victim is the one it started with, or one of the frames, and then it is not pinned.
pub choose_victim-has_frame :
    (frames : List Frame) (start : Option Frame) (oldest : ℕ) (victim : Frame)
    → choose_victim frames start oldest ≡ some victim
    → (start ≡ some victim) ⊎ ((has_frame victim.page_id frames ≡ true) × (victim.pin_count ≡ 0))
unfolding choose_victim has_frame
choose_victim-has_frame [] start oldest victim e = inl e
choose_victim-has_frame (f ∷ frames) start oldest victim e =
    elim (Bool-cases (f.pin_count == 0 && ltb f.last_used oldest)) [
      | inl better ↦
          elim (choose_victim-has_frame frames (some f) f.last_used victim
            (ground (arith, better))) [
              | inl here ↦
                  let same : f ≡ victim = ground arith in
                  rw (← same) (
                    inr (
                      ground (arith, ==_iff f.page_id f.page_id),
                      ground (arith, better, ==_iff f.pin_count 0),
                    ))
              | inr (there, free) ↦ inr (ground (arith, there), free)
            ]
      | inr worse ↦
          elim (choose_victim-has_frame frames start oldest victim (ground (arith, worse))) [
            | inl here ↦ inl here
            | inr (there, free) ↦ inr (ground (arith, there), free)
          ]
    ]

-- No two frames have the same page.
unfoldable pub is_distinct : List Frame → Bool
unfolding has_frame
is_distinct [] = true
is_distinct (f ∷ frames) = not (has_frame f.page_id frames) && is_distinct frames

pub is_distinct-set_frame :
    (id : ℕ) (new : Frame) (frames : List Frame)
    → new.page_id ≡ id
    → is_distinct (set_frame id new frames) ≡ is_distinct frames
unfolding is_distinct set_frame
is_distinct-set_frame id new [] named = refl
is_distinct-set_frame id new (f ∷ frames) named = ground (
  arith,
  is_distinct-set_frame id new frames named,
  ==_iff f.page_id id,
  has_frame-set_frame id id new frames named,
  has_frame-set_frame id f.page_id new frames named,
)

has_frame-erase_frame :
    (id k : ℕ) (frames : List Frame)
    → has_frame k frames ≡ false
    → has_frame k (erase_frame id frames) ≡ false
unfolding has_frame erase_frame
has_frame-erase_frame id k [] h = refl
has_frame-erase_frame id k (f ∷ frames) h = elim (Bool-cases (f.page_id == k)) [
  | inl here ↦ absurd (ground (arith, here))
  | inr there ↦
      let rest : has_frame k frames ≡ false = ground (arith, there) in
      ground (arith, there, has_frame-erase_frame id k frames rest)
]

pub is_distinct-erase_frame :
    (id : ℕ) (frames : List Frame)
    → is_distinct frames ≡ true
    → is_distinct (erase_frame id frames) ≡ true
unfolding is_distinct erase_frame
is_distinct-erase_frame id [] h = refl
is_distinct-erase_frame id (f ∷ frames) h = elim (Bool-cases (has_frame f.page_id frames)) [
  | inl again ↦ absurd (ground (arith, again))
  | inr alone ↦
      let rest : is_distinct frames ≡ true = ground (arith, alone) in
      ground (
        arith,
        is_distinct-erase_frame id frames rest,
        has_frame-erase_frame id f.page_id frames alone,
      )
]

pub find_frame-has_frame :
    (id : ℕ) (frames : List Frame) → find_frame id frames ≡ none → has_frame id frames ≡ false
unfolding find_frame has_frame
find_frame-has_frame id [] e = refl
find_frame-has_frame id (f ∷ frames) e = elim (Bool-cases (f.page_id == id)) [
  | inl here ↦ absurd (ground (arith, here))
  | inr there ↦
      let rest : find_frame id frames ≡ none = ground (arith, there) in
      ground (arith, there, find_frame-has_frame id frames rest)
]
