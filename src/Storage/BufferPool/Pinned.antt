-- ===== src/Storage/BufferPool/Pinned.antt =====
-- src/storage/buffer_pool.cpp: a page that is pinned stays in the pool.
use curiodb.Prelude.{
  ℕ, ◌+◌, ◌-◌, ◌^◌, ◌≡◌, inl, inr, refl, false, none, some, ◌==◌, ==_iff, leb, length, arith,
  Bool-cases, Option-cases,
}
use curiodb.Prelude.Outcome.{ok, Outcome-cases}
use curiodb.Storage.BufferPool.Defs.{
  DiskManager, Frame, BufferPool, find_frame, choose_victim, tick, flush_page, make_room,
  read_frame, load, fetch_page,
}
use curiodb.Storage.BufferPool.Coherent.{find_frame-page_id, find_frame-erase_frame}
use curiodb.Storage.BufferPool.Victim.{make_room-absent}
use curiodb.Storage.BufferPool.Room.{IsPool}
use curiodb.Storage.BufferPool.Pins.{Holds, choose_victim-find_frame, set_frame-Holds}

module _ {State : Type 0} (manager : DiskManager State) where
  flush_page-Holds :
      (pool : BufferPool State) (id k : ℕ) (f : Frame)
      → Holds k f pool.frames
      → Holds k f (flush_page manager pool id).0.frames
  unfolding flush_page
  flush_page-Holds pool id k f h = elim (Option-cases (find_frame id pool.frames)) [
    | inl absent ↦ rw (absent, flush_page) h
    | inr (g, there) ↦ elim (Bool-cases g.dirty) [
      | inr clean ↦ rw (there, flush_page) (rw clean h)
      | inl soiled ↦ elim (Option-cases (manager.write_page pool.disk id g.bytes).1) [
        | inr (_, failed) ↦ rw (there, flush_page) (rw soiled (rw failed h))
        | inl done ↦
            rw (there, flush_page)
              (rw soiled (
                rw done (
                  set_frame-Holds id k g (record g { dirty = false }) f pool.frames there
                    (find_frame-page_id id pool.frames g there) refl (omega arith) h)))
      ]
    ]
  ]

  make_room-Holds :
      (pool : BufferPool State) (k : ℕ) (f : Frame)
      → IsPool pool
      → find_frame k pool.frames ≡ some f
      → (f.pin_count == 0) ≡ false
      → Holds k f (make_room manager pool).0.frames
  unfolding make_room
  make_room-Holds pool k f h there pinned =
      let now : Holds k f pool.frames = (f, there, refl, omega arith) in
      elim (Bool-cases (leb pool.capacity (length pool.frames))) [
        | inr roomy ↦ rw (roomy, make_room) now
        | inl full ↦ elim (Option-cases (choose_victim pool.frames none (2 ^ 64 - 1))) [
          | inl all_pinned ↦ rw (full, make_room) (rw all_pinned now)
          | inr (victim, chosen) ↦
              let flushed = flush_page-Holds pool victim.page_id k f now in
              let after = (flush_page manager pool victim.page_id).0 in
              elim (Option-cases (flush_page manager pool victim.page_id).1) [
                | inr (_, failed) ↦ rw (full, make_room) (rw chosen (rw failed flushed))
                | inl done ↦
                    elim (choose_victim-find_frame pool.frames none (2 ^ 64 - 1) victim h.distinct
                      chosen) [
                        | inl nothing ↦ absurd (ground arith)
                        | inr (found, free) ↦
                            let (g, kept, bytes, pins) = flushed in
                            let other : (victim.page_id == k) ≡ false = ground (
                              arith,
                              ==_iff victim.page_id k,
                              ==_iff f.pin_count 0,
                              found,
                              free,
                              there,
                              pinned,
                            ) in
                            rw (full, make_room)
                              (rw chosen (
                                rw done (
                                  g,
                                  rw (find_frame-erase_frame victim.page_id k after.frames, other)
                                      kept,
                                  bytes,
                                  pins,
                                )))
                      ]
              ]
        ]
      ]

  -- What `load` leaves of a frame that is pinned, and where it leaves the frame that it returns.
  load-Holds :
      (pool : BufferPool State) (id k : ℕ) (f : Frame)
      → IsPool pool
      → find_frame k pool.frames ≡ some f
      → (f.pin_count == 0) ≡ false
      → Holds k f (load manager pool id).0.frames
        × ((g : Frame)
            → (load manager pool id).1 ≡ ok g
            → find_frame id (load manager pool id).0.frames ≡ some g)
  unfolding load read_frame find_frame
  load-Holds pool id k f h there pinned =
      let now : Holds k f pool.frames = (f, there, refl, omega arith) in
      elim (Option-cases (find_frame id pool.frames)) [
        | inr (g, found) ↦ rw (found, load) (now, λ g' made. ground (arith, found, made))
        | inl absent ↦ elim (Bool-cases (pool.capacity == 0)) [
          | inl none_fits ↦ rw (absent, load) (rw none_fits (now, λ g' made. absurd (ground arith)))
          | inr fits ↦
              let roomy = (make_room manager pool).0 in
              let (g, kept, bytes, pins) = make_room-Holds pool k f h there pinned in
              elim (Option-cases (make_room manager pool).1) [
                | inr (_, failed) ↦
                    rw (absent, load)
                      (rw fits
                        (rw failed ((g, kept, bytes, pins), λ g' made. absurd (ground arith))))
                | inl done ↦ elim (Outcome-cases (manager.read_page roomy.disk id)) [
                  | inr (_, unread) ↦
                      rw (absent, load)
                        (rw fits (
                          rw done (
                            rw (unread, read_frame)
                              ((g, kept, bytes, pins), λ g' made. absurd (ground arith)))))
                  | inl (read, got) ↦
                      let still = make_room-absent manager pool id absent in
                      let other : (id == k) ≡ false = ground (arith, ==_iff id k, still, kept) in
                      rw (absent, load)
                        (rw fits (
                          rw done (
                            rw (got, read_frame)
                              (
                                (g, rw (other, find_frame) kept, bytes, pins),
                                λ g' made. ground (arith, made, ==_iff id id),
                              ))))
                ]
              ]
        ]
      ]

  -- A page with a guard on it stays where it is while another page, or itself, is fetched, whether or not
  -- that succeeds: its frame is still there, with the same bytes and with no fewer pins.
  pub fetch_page-Holds :
      (pool : BufferPool State) (id k : ℕ) (f : Frame)
      → IsPool pool
      → find_frame k pool.frames ≡ some f
      → (f.pin_count == 0) ≡ false
      → Holds k f (fetch_page manager pool id).0.frames
  unfolding fetch_page
  fetch_page-Holds pool id k f h there pinned =
      let (loaded, found) = load-Holds pool id k f h there pinned in
      let after = (load manager pool id).0 in
      elim (Outcome-cases (load manager pool id).1) [
        | inr (_, failed) ↦ rw (failed, fetch_page) loaded
        | inl (g, made) ↦
            let here = found g made in
            rw (made, fetch_page)
              (set_frame-Holds id k g
                (record g { pin_count = g.pin_count + 1; last_used = tick after.clock }) f
                after.frames here (find_frame-page_id id after.frames g here) refl (omega arith)
                loaded)
      ]
