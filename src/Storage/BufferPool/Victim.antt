-- ===== src/Storage/BufferPool/Victim.antt =====
-- src/storage/buffer_pool.cpp: the state of the frame that is chosen to make room.
use curiodb.Prelude.{
  ℕ, ◌-◌, ◌^◌, ◌≡◌, inl, inr, ◌∙◌, true, false, none, some, ◌==◌, ==_iff, leb, length, arith,
  Bool-cases, Option-cases,
}
use curiodb.Storage.BufferPool.Defs.{
  DiskManager, Frame, BufferPool, find_frame, set_frame, choose_victim, flush_page, make_room,
}
use curiodb.Storage.BufferPool.Bounded.{is_distinct}
use curiodb.Storage.BufferPool.Pins.{choose_victim-find_frame}
use curiodb.Storage.BufferPool.Coherent.{
  is_busy, find_frame-page_id, find_frame-set_frame_other, find_frame-set_frame_same,
  find_frame-erase_frame,
}

module _ {State : Type 0} (manager : DiskManager State) where
  -- A page that has been written back is no longer dirty.
  flush_page-dirty :
      (pool : BufferPool State) (id : ℕ) (f : Frame)
      → (flush_page manager pool id).1 ≡ none
      → find_frame id (flush_page manager pool id).0.frames ≡ some f
      → f.dirty ≡ false
  unfolding flush_page
  flush_page-dirty pool id f e there = elim (Option-cases (find_frame id pool.frames)) [
    | inl absent ↦ absurd (ground (arith, absent, e, there))
    | inr (g, found) ↦ elim (Bool-cases g.dirty) [
      | inr clean ↦ ground (arith, found, clean, there)
      | inl soiled ↦ elim (Option-cases (manager.write_page pool.disk id g.bytes).1) [
        | inr (_, failed) ↦ absurd (ground (arith, found, soiled, failed, e))
        | inl done ↦
            let named = find_frame-page_id id pool.frames g found in
            let now : find_frame id (set_frame id (record g { dirty = false }) pool.frames)
                ≡ some f =
              ground (arith, found, soiled, done, there) in
            ground (
              arith,
              find_frame-set_frame_same id (record g { dirty = false }) g pool.frames named found,
              now,
            )
      ]
    ]
  ]

  -- Writing a page back leaves its pins.
  flush_page-pin_count :
      (pool : BufferPool State) (id : ℕ) (g f : Frame)
      → find_frame id pool.frames ≡ some g
      → find_frame id (flush_page manager pool id).0.frames ≡ some f
      → f.pin_count ≡ g.pin_count
  unfolding flush_page
  flush_page-pin_count pool id g f found there = elim (Bool-cases g.dirty) [
    | inr clean ↦ ground (arith, found, clean, there)
    | inl soiled ↦
        let now =
          find_frame-set_frame_same id (record g { dirty = false }) g pool.frames
            (find_frame-page_id id pool.frames g found) found in
        elim (Option-cases (manager.write_page pool.disk id g.bytes).1) [
          | inr (_, failed) ↦ ground (arith, found, soiled, failed, there)
          | inl done ↦
              let after : find_frame id (set_frame id (record g { dirty = false }) pool.frames)
                  ≡ some f =
                ground (arith, found, soiled, done, there) in
              ground (arith, now, after)
        ]
  ]

  pub victim_idle :
      (pool : BufferPool State) (victim : Frame)
      → is_distinct pool.frames ≡ true
      → choose_victim pool.frames none (2 ^ 64 - 1) ≡ some victim
      → (flush_page manager pool victim.page_id).1 ≡ none
      → (f : Frame)
      → find_frame victim.page_id (flush_page manager pool victim.page_id).0.frames ≡ some f
      → is_busy f ≡ false
  victim_idle pool victim distinct chosen done f there =
      elim (choose_victim-find_frame pool.frames none (2 ^ 64 - 1) victim distinct chosen) [
        | inl nothing ↦ absurd (ground arith)
        | inr (found, free) ↦ ground (
          arith,
          flush_page-dirty pool victim.page_id f done there,
          flush_page-pin_count pool victim.page_id victim f found there,
          free,
          ==_iff f.pin_count 0,
        )
      ]

  flush_page-absent :
      (pool : BufferPool State) (id k : ℕ)
      → find_frame k pool.frames ≡ none
      → find_frame k (flush_page manager pool id).0.frames ≡ none
  unfolding flush_page
  flush_page-absent pool id k absent = elim (Option-cases (find_frame id pool.frames)) [
    | inl missing ↦ rw (missing, flush_page) absent
    | inr (g, found) ↦ elim (Bool-cases g.dirty) [
      | inr clean ↦ rw (found, flush_page) (rw clean absent)
      | inl soiled ↦ elim (Option-cases (manager.write_page pool.disk id g.bytes).1) [
        | inr (_, failed) ↦ rw (found, flush_page) (rw soiled (rw failed absent))
        | inl done ↦
            let named = find_frame-page_id id pool.frames g found in
            let other : (id == k) ≡ false = ground (arith, ==_iff id k, found, absent) in
            rw (found, flush_page)
              (rw soiled (
                rw done (
                  find_frame-set_frame_other id k (record g { dirty = false }) pool.frames named
                    other
                  ∙ absent)))
      ]
    ]
  ]

  pub make_room-absent :
      (pool : BufferPool State) (k : ℕ)
      → find_frame k pool.frames ≡ none
      → find_frame k (make_room manager pool).0.frames ≡ none
  unfolding make_room
  make_room-absent pool k absent = elim (Bool-cases (leb pool.capacity (length pool.frames))) [
    | inr roomy ↦ rw (roomy, make_room) absent
    | inl full ↦ elim (Option-cases (choose_victim pool.frames none (2 ^ 64 - 1))) [
      | inl pinned ↦ rw (full, make_room) (rw pinned absent)
      | inr (victim, chosen) ↦
          let after = flush_page-absent pool victim.page_id k absent in
          elim (Option-cases (flush_page manager pool victim.page_id).1) [
            | inr (_, failed) ↦ rw (full, make_room) (rw chosen (rw failed after))
            | inl done ↦
                rw (full, make_room)
                  (rw chosen (
                    rw done (
                      ground (
                        arith,
                        after,
                        find_frame-erase_frame victim.page_id k
                            (flush_page manager pool victim.page_id).0.frames,
                      ))))
          ]
    ]
  ]
