-- ===== src/Storage/BufferPool/Pins.antt =====
-- src/storage/buffer_pool.cpp: which frame is the victim, and what keeps a frame.
use curiodb.Prelude.{
  ℕ, ◌≤◌, ◌≡◌, ◌⊎◌, inl, inr, ◌∙◌, true, ◌&&◌, List, [], ◌∷◌, Option, some, ◌==◌, ==_iff, ltb,
  arith, Bool-cases,
}
use curiodb.Storage.BufferPool.Defs.{Frame, find_frame, set_frame, choose_victim}
use curiodb.Storage.BufferPool.Coherent.{find_frame-set_frame_other, find_frame-set_frame_same}
use curiodb.Storage.BufferPool.Bounded.{is_distinct, has_frame}

has_frame-find_frame :
    (id : ℕ) (frames : List Frame) (f : Frame)
    → find_frame id frames ≡ some f
    → has_frame id frames ≡ true
unfolding find_frame has_frame
has_frame-find_frame id [] f e = absurd (ground arith)
has_frame-find_frame id (g ∷ frames) f e = elim (Bool-cases (g.page_id == id)) [
  | inl here ↦ ground (arith, here)
  | inr there ↦
      let inside : find_frame id frames ≡ some f = ground (arith, there) in
      ground (arith, there, has_frame-find_frame id frames f inside)
]

-- Where no two frames have the same page, the victim is the frame of its page, and is not pinned.
pub choose_victim-find_frame :
    (frames : List Frame) (start : Option Frame) (oldest : ℕ) (victim : Frame)
    → is_distinct frames ≡ true
    → choose_victim frames start oldest ≡ some victim
    → (start ≡ some victim)
      ⊎ ((find_frame victim.page_id frames ≡ some victim) × (victim.pin_count ≡ 0))
unfolding choose_victim find_frame is_distinct
choose_victim-find_frame [] start oldest victim h e = inl e
choose_victim-find_frame (f ∷ frames) start oldest victim h e =
    elim (Bool-cases (has_frame f.page_id frames)) [
      | inl again ↦ absurd (ground (arith, again))
      | inr alone ↦
          let rest : is_distinct frames ≡ true = ground (arith, alone) in
          elim (Bool-cases (f.pin_count == 0 && ltb f.last_used oldest)) [
            | inl better ↦
                elim (choose_victim-find_frame frames (some f) f.last_used victim rest
                  (ground (arith, better))) [
                    | inl here ↦
                        let same : f ≡ victim = ground arith in
                        rw (← same) (
                          inr (
                            ground (arith, ==_iff f.page_id f.page_id),
                            ground (arith, better, ==_iff f.pin_count 0),
                          ))
                    | inr (there, free) ↦ inr (
                      ground (
                        arith,
                        there,
                        alone,
                        ==_iff f.page_id victim.page_id,
                        has_frame-find_frame victim.page_id frames victim there,
                      ),
                      free,
                    )
                  ]
            | inr worse ↦
                elim (choose_victim-find_frame frames start oldest victim rest
                  (ground (arith, worse))) [
                    | inl here ↦ inl here
                    | inr (there, free) ↦ inr (
                      ground (
                        arith,
                        there,
                        alone,
                        ==_iff f.page_id victim.page_id,
                        has_frame-find_frame victim.page_id frames victim there,
                      ),
                      free,
                    )
                  ]
          ]
    ]

-- The page has a frame with the bytes of an earlier one, and with its pins at least.
abbrev pub Holds : ℕ → Frame → List Frame → Type 0
Holds k f frames =
    (g : Frame) × (find_frame k frames ≡ some g) × (g.bytes ≡ f.bytes) × (f.pin_count ≤ g.pin_count)

pub set_frame-Holds :
    (id k : ℕ) (old new f : Frame) (frames : List Frame)
    → find_frame id frames ≡ some old
    → new.page_id ≡ id
    → new.bytes ≡ old.bytes
    → old.pin_count ≤ new.pin_count
    → Holds k f frames
    → Holds k f (set_frame id new frames)
set_frame-Holds id k old new f frames there named same more (g, found, bytes, pins) =
    elim (Bool-cases (id == k)) [
      | inr other ↦ (g, find_frame-set_frame_other id k new frames named other ∙ found, bytes, pins)
      | inl here ↦
          let at : id ≡ k = (==_iff id k).0 here in
          let one : old ≡ g = ground (arith, at, there, found) in
          (
            new,
            rw (← at) (find_frame-set_frame_same id new old frames named there),
            ground (arith, one, same, bytes),
            ground (arith, one, more, pins),
          )
    ]
