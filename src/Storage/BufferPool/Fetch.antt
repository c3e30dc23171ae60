-- ===== src/Storage/BufferPool/Fetch.antt =====
-- src/storage/buffer_pool.cpp: `fetch_page` evicts no page that is pinned and loses no write.
use curiodb.Prelude.{
  ℕ, ◌+◌, ◌-◌, ◌^◌, ◌≡◌, inl, inr, refl, sym, ◌∙◌, true, false, List, Option, none, some, ◌==◌,
  ==_iff, leb, length, arith, Bool-cases, Option-cases,
}
use curiodb.Prelude.Outcome.{Outcome, ok, err, Outcome-cases}
use curiodb.Storage.BufferPool.Defs.{
  BufferPoolError, DiskManager, Frame, BufferPool, find_frame, erase_frame, choose_victim, tick,
  flush_page, make_room, read_frame, load, fetch_page, write_bytes,
}
use curiodb.Storage.SlottedPage.Defs.{page_size}
use curiodb.Storage.BufferPool.Bounded.{is_distinct}
use curiodb.Storage.BufferPool.Coherent.{
  Unless-intro, Unless-elim, is_busy, IsDisk, find_frame-page_id, find_frame-set_frame_other,
  find_frame-set_frame_same, find_frame-erase_frame, page_at, IsClean, IsCoherent, Keeps,
  Keeps-refl, Keeps-trans, set_frame-Keeps, flush_page-Keeps,
}
use curiodb.Storage.BufferPool.Victim.{victim_idle, make_room-absent}

module _ {State : Type 0} (manager : DiskManager State) where
  module _ (disk : IsDisk manager) where
    -- A frame that is neither dirty nor pinned is dropped.
    erase_frame-Keeps :
        (pool : BufferPool State) (id : ℕ)
        → IsCoherent manager disk pool
        → ((f : Frame) → find_frame id pool.frames ≡ some f → is_busy f ≡ false)
        → Keeps manager disk pool (record pool { frames = erase_frame id pool.frames })
    unfolding page_at
    erase_frame-Keeps pool id h clean = record {
      coherent = λ k. elim (Bool-cases (id == k)) [
        | inl here ↦ rw (find_frame-erase_frame id k pool.frames, here) tt
        | inr other ↦ rw (find_frame-erase_frame id k pool.frames, other) (h k)
      ];
      same = λ k. elim (Bool-cases (id == k)) [
        | inr other ↦ rw (find_frame-erase_frame id k pool.frames, other) refl
        | inl here ↦ elim (Option-cases (find_frame k pool.frames)) [
          | inl absent ↦ rw (find_frame-erase_frame id k pool.frames, here, absent) refl
          | inr (f, there) ↦
              let found : find_frame id pool.frames ≡ some f = rw ((==_iff id k).0 here) there in
              let kept : IsClean manager disk pool.disk (some f) k = rw there at (h k) in
              rw (find_frame-erase_frame id k pool.frames, here, there)
                (Unless-elim (is_busy f) kept.1 (clean f found))
        ]
      ];
    }

    make_room-Keeps :
        (pool : BufferPool State)
        → is_distinct pool.frames ≡ true
        → IsCoherent manager disk pool
        → Keeps manager disk pool (make_room manager pool).0
    unfolding make_room
    make_room-Keeps pool distinct h = elim (Bool-cases (leb pool.capacity (length pool.frames))) [
      | inr roomy ↦ rw (roomy, make_room) (Keeps-refl manager disk pool h)
      | inl full ↦ elim (Option-cases (choose_victim pool.frames none (2 ^ 64 - 1))) [
        | inl pinned ↦ rw (full, make_room) (rw pinned (Keeps-refl manager disk pool h))
        | inr (victim, chosen) ↦
            let flushed = flush_page-Keeps manager disk pool victim.page_id h in
            elim (Option-cases (flush_page manager pool victim.page_id).1) [
              | inr (_, failed) ↦ rw (full, make_room) (rw chosen (rw failed flushed))
              | inl done ↦
                  let idle = victim_idle manager pool victim distinct chosen done in
                  rw (full, make_room)
                    (rw chosen (
                      rw done (
                        Keeps-trans manager disk _ _ _ flushed (
                          erase_frame-Keeps (flush_page manager pool victim.page_id).0
                            victim.page_id flushed.coherent idle))))
            ]
      ]
    ]

    read_frame-Keeps :
        (pool : BufferPool State) (id : ℕ)
        → IsCoherent manager disk pool
        → find_frame id pool.frames ≡ none
        → Keeps manager disk pool (read_frame manager pool id).0
          × ((f : Frame)
              → (read_frame manager pool id).1 ≡ ok f
              → find_frame id (read_frame manager pool id).0.frames ≡ some f)
    unfolding read_frame page_at find_frame
    read_frame-Keeps pool id h absent = elim (Outcome-cases (manager.read_page pool.disk id)) [
      | inr (e, failed) ↦ (
        rw (failed, read_frame) (Keeps-refl manager disk pool h),
        λ f made. absurd (ground (arith, failed, made)),
      )
      | inl (bytes, loaded) ↦
          let held = disk.read pool.disk id bytes loaded in
          (
            rw (loaded, read_frame)
                (record {
                  coherent = λ k. elim (Bool-cases (id == k)) [
                    | inr other ↦ rw (other, find_frame) (h k)
                    | inl here ↦
                        rw (here, find_frame) (rw (← (==_iff id k).0 here) (held.1, held.0))
                  ];
                  same = λ k. elim (Bool-cases (id == k)) [
                    | inr other ↦ rw (other, find_frame) refl
                    | inl here ↦
                        rw (here, find_frame) (rw (← (==_iff id k).0 here, absent) (sym held.0))
                  ];
                }),
            λ f made. ground (arith, loaded, made, ==_iff id id),
          )
    ]

    load-Keeps :
        (pool : BufferPool State) (id : ℕ)
        → is_distinct pool.frames ≡ true
        → IsCoherent manager disk pool
        → Keeps manager disk pool (load manager pool id).0
          × ((f : Frame)
              → (load manager pool id).1 ≡ ok f
              → find_frame id (load manager pool id).0.frames ≡ some f)
    unfolding load
    load-Keeps pool id distinct h = elim (Option-cases (find_frame id pool.frames)) [
      | inr (f, there) ↦
          (rw (there, load) (Keeps-refl manager disk pool h), λ g made. ground (arith, there, made))
      | inl absent ↦ elim (Bool-cases (pool.capacity == 0)) [
        | inl none_fits ↦ (
          rw (absent, load) (rw none_fits (Keeps-refl manager disk pool h)),
          λ g made. absurd (ground (arith, absent, none_fits, made)),
        )
        | inr fits ↦
            let roomy = make_room-Keeps pool distinct h in
            elim (Option-cases (make_room manager pool).1) [
              | inr (e, failed) ↦ (
                rw (absent, load) (rw fits (rw failed roomy)),
                λ g made. absurd (ground (arith, absent, fits, failed, made)),
              )
              | inl done ↦
                  let after = (make_room manager pool).0 in
                  let (kept, found) =
                    read_frame-Keeps after id roomy.coherent
                      (make_room-absent manager pool id absent) in
                  rw (absent, load)
                    (rw fits (rw done (Keeps-trans manager disk _ _ _ roomy kept, found)))
            ]
      ]
    ]

    -- What a guard shows: the page of its number.
    abbrev pub Shows : ℕ → Option (List ℕ) → Outcome BufferPoolError (ℕ × List ℕ) → Type 0
    Shows id page (err e) = Unit
    Shows id page (ok (number, bytes)) = (number ≡ id) × (page ≡ some bytes)

    -- A page of bytes that the holder of a guard writes to its frame, which is pinned, leaves this so.
    pub write_bytes-IsCoherent :
        (pool : BufferPool State) (id : ℕ) (f : Frame) (bytes : List ℕ)
        → find_frame id pool.frames ≡ some f
        → (f.pin_count == 0) ≡ false
        → length bytes ≡ page_size
        → IsCoherent manager disk pool
        → IsCoherent manager disk (write_bytes pool id bytes)
    unfolding write_bytes
    write_bytes-IsCoherent pool id f bytes there pinned size h k =
        let new : Frame = record f { bytes = bytes } in
        let named = find_frame-page_id id pool.frames f there in
        elim (Bool-cases (id == k)) [
          | inl here ↦
              rw (there, write_bytes)
                (rw
                  (
                    ← (==_iff id k).0 here,
                    find_frame-set_frame_same id new f pool.frames named there,
                  )
                  (size, Unless-intro (is_busy new) (λ e. absurd (ground arith))))
          | inr other ↦
              rw (there, write_bytes)
                (rw (find_frame-set_frame_other id k new pool.frames named other) (h k))
        ]

    -- Over a disk that keeps the pages written to it, where no two frames have the same page, each frame has a
    -- page of bytes, and each that is neither dirty nor pinned has what the file holds: whether or not it
    -- succeeds, `fetch_page` leaves every page as it was seen through the pool, also those that it evicts;
    -- the frames still have a page of bytes, and those neither dirty nor pinned what the file holds; and a
    -- guard shows the page that was asked for.
    pub fetch_page-page_at :
        (pool : BufferPool State) (id k : ℕ)
        → is_distinct pool.frames ≡ true
        → IsCoherent manager disk pool
        → IsCoherent manager disk (fetch_page manager pool id).0
          × (page_at manager disk (fetch_page manager pool id).0 k ≡ page_at manager disk pool k)
          × Shows id (page_at manager disk pool id) (fetch_page manager pool id).1
    unfolding fetch_page page_at
    fetch_page-page_at pool id k distinct h =
        let (loaded, found) = load-Keeps pool id distinct h in
        let after = (load manager pool id).0 in
        elim (Outcome-cases (load manager pool id).1) [
          | inr (e, failed) ↦ rw (failed, fetch_page) (loaded.coherent, loaded.same k, tt)
          | inl (f, made) ↦
              let there = found f made in
              let used : Frame = record f {
                pin_count = f.pin_count + 1;
                last_used = tick after.clock;
              } in
              let kept =
                set_frame-Keeps manager disk after id (tick after.clock) after.disk f used
                  loaded.coherent there (find_frame-page_id id after.frames f there) refl
                  (λ j other. refl) (λ e. absurd (ground arith)) in
              rw (made, fetch_page)
                (
                  kept.coherent,
                  kept.same k ∙ loaded.same k,
                  (refl, sym (loaded.same id) ∙ rw (there, page_at) refl),
                )
        ]
