-- ===== src/Storage/BufferPool/Room.antt =====
-- src/storage/buffer_pool.cpp: writing back and making room keep to the capacity.
use curiodb.Prelude.{
  ◌∙◌, ℕ, ◌-◌, ◌≤◌, ◌<◌, ◌^◌, ◌≡◌, inl, inr, refl, true, false, none, leb, length, arith,
  Bool-cases, Option-cases,
}
use curiodb.Storage.BufferPool.Coherent.{find_frame-page_id}
use curiodb.Storage.BufferPool.Defs.{
  DiskManager, Frame, BufferPool, find_frame, set_frame, choose_victim, flush_page, make_room,
}
use curiodb.Storage.BufferPool.Bounded.{
  choose_victim-has_frame, has_frame, has_frame-set_frame, is_distinct, is_distinct-erase_frame,
  is_distinct-set_frame, length-erase_frame_there, length-set_frame,
}

-- No more frames than the capacity, and no two of the same page.
pub record IsPool {State : Type 0} (pool : BufferPool State) : Type 0 where
  pub bounded : length pool.frames ≤ pool.capacity
  pub distinct : is_distinct pool.frames ≡ true

module _ {State : Type 0} (manager : DiskManager State) where
  pub set_frame-IsPool :
      (pool : BufferPool State) (s : State) (clock id : ℕ) (new : Frame)
      → new.page_id ≡ id
      → IsPool pool
      → IsPool (record pool { disk = s; clock = clock; frames = set_frame id new pool.frames })
  set_frame-IsPool pool s clock id new named h = record {
    bounded = omega (arith, h.bounded, length-set_frame id new pool.frames);
    distinct = is_distinct-set_frame id new pool.frames named ∙ h.distinct;
  }

  -- `flush_page` changes no more of the frames than one flag.
  pub flush_page-IsPool :
      (pool : BufferPool State) (id : ℕ)
      → IsPool pool
      → IsPool (flush_page manager pool id).0
        × ((k : ℕ) → has_frame k (flush_page manager pool id).0.frames ≡ has_frame k pool.frames)
        × (length (flush_page manager pool id).0.frames ≡ length pool.frames)
        × ((flush_page manager pool id).0.capacity ≡ pool.capacity)
  unfolding flush_page
  flush_page-IsPool pool id h = elim (Option-cases (find_frame id pool.frames)) [
    | inl absent ↦ rw (absent, flush_page) (h, λ k. refl, refl, refl)
    | inr (f, there) ↦ elim (Bool-cases f.dirty) [
      | inr clean ↦ rw (there, flush_page) (rw clean (h, λ k. refl, refl, refl))
      | inl soiled ↦ elim (Option-cases (manager.write_page pool.disk id f.bytes).1) [
        | inr (_, failed) ↦
            rw (there, flush_page)
              (rw soiled (
                rw failed
                  (record { bounded = h.bounded; distinct = h.distinct }, λ k. refl, refl, refl)))
        | inl done ↦
            let new : Frame = record f { dirty = false } in
            let named = find_frame-page_id id pool.frames f there in
            rw (there, flush_page)
              (rw soiled (
                rw done (
                  set_frame-IsPool pool _ pool.clock id new named h,
                  λ k. has_frame-set_frame id k new pool.frames named,
                  length-set_frame id new pool.frames,
                  refl,
                )))
      ]
    ]
  ]

  -- With room made, there is a place for one more frame.
  pub make_room-IsPool :
      (pool : BufferPool State)
      → IsPool pool
      → IsPool (make_room manager pool).0
        × ((make_room manager pool).0.capacity ≡ pool.capacity)
        × ((make_room manager pool).1 ≡ none
            → length (make_room manager pool).0.frames < pool.capacity)
  unfolding make_room
  make_room-IsPool pool h = elim (Bool-cases (leb pool.capacity (length pool.frames))) [
    | inr roomy ↦ rw (roomy, make_room) (h, refl, λ e. ground (arith, roomy))
    | inl full ↦ elim (Option-cases (choose_victim pool.frames none (2 ^ 64 - 1))) [
      | inl pinned ↦ rw (full, make_room) (rw pinned (h, refl, λ e. absurd (ground arith)))
      | inr (victim, chosen) ↦
          let (kept, same, size, capacity) = flush_page-IsPool pool victim.page_id h in
          let after = (flush_page manager pool victim.page_id).0 in
          elim (Option-cases (flush_page manager pool victim.page_id).1) [
            | inr (_, failed) ↦
                rw (full, make_room)
                  (rw chosen (rw failed (kept, capacity, λ e. absurd (ground arith))))
            | inl done ↦
                elim (choose_victim-has_frame pool.frames none (2 ^ 64 - 1) victim chosen) [
                  | inl nothing ↦ absurd (ground arith)
                  | inr (there, free) ↦
                      let fewer =
                        length-erase_frame_there victim.page_id after.frames
                          (same victim.page_id ∙ there) in
                      rw (full, make_room)
                        (rw chosen (
                          rw done (
                            record {
                              bounded = omega (arith, fewer, kept.bounded);
                              distinct =
                                  is_distinct-erase_frame victim.page_id after.frames kept.distinct;
                            },
                            capacity,
                            λ e. omega (arith, fewer, kept.bounded, capacity),
                          )))
                ]
          ]
    ]
  ]
