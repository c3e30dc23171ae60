-- ===== src/Storage/BufferPool/Calls.antt =====
-- src/storage/buffer_pool.cpp: any calls of a pool keep to its capacity.
use curiodb.Prelude.{
  ℕ, ◌+◌, ◌≤◌, ◌≡◌, inl, inr, refl, ◌∙◌, Bool, true, List, [], ◌∷◌, ◌==◌, length, arith, Bool-cases,
  Option-cases,
}
use curiodb.Prelude.Outcome.{ok, Outcome-cases}
use curiodb.Storage.BufferPool.Defs.{
  DiskManager, Frame, BufferPool, find_frame, tick, flush_page, flush_frames, flush_all, make_room,
  read_frame, load, fetch_page, allocate_page, unpin, write_bytes,
}
use curiodb.Storage.BufferPool.Coherent.{find_frame-page_id}
use curiodb.Storage.BufferPool.Victim.{make_room-absent}
use curiodb.Storage.BufferPool.Bounded.{is_distinct, find_frame-has_frame}
use curiodb.Storage.BufferPool.Room.{IsPool, set_frame-IsPool, flush_page-IsPool, make_room-IsPool}

-- A call of the pool, or of a guard that it has given out.
pub data Call : Type 0 where
  fetches_page : ℕ → Call
  allocates_page : Call
  flushes_page : ℕ → Call
  flushes_all : Call
  writes_bytes : ℕ → List ℕ → Call
  unpins : ℕ → Bool → Call

abbrev pub new_pool : {State : Type 0} → State → ℕ → BufferPool State
new_pool s capacity = record { disk = s; capacity = capacity; clock = 0; frames = [] }

module _ {State : Type 0} (manager : DiskManager State) where
  -- The pool afterwards has the same capacity, and keeps to it.
  record Stays (before after : BufferPool State) : Type 0 where
    pool : IsPool after
    capacity : after.capacity ≡ before.capacity

  unfoldable pub after : BufferPool State → Call → BufferPool State
  after pool (fetches_page id) = (fetch_page manager pool id).0
  after pool allocates_page = (allocate_page manager pool).0
  after pool (flushes_page id) = (flush_page manager pool id).0
  after pool flushes_all = (flush_all manager pool).0
  after pool (writes_bytes id bytes) = write_bytes pool id bytes
  after pool (unpins id dirty) = unpin pool id dirty

  unfoldable pub run : BufferPool State → List Call → BufferPool State
  unfolding after
  run pool [] = pool
  run pool (call ∷ calls) = run (after pool call) calls

  load-Stays :
      (pool : BufferPool State) (id : ℕ) → IsPool pool → Stays pool (load manager pool id).0
  unfolding load read_frame is_distinct
  load-Stays pool id h = elim (Option-cases (find_frame id pool.frames)) [
    | inr (f, there) ↦ rw (there, load) (record { pool = h; capacity = refl })
    | inl absent ↦ elim (Bool-cases (pool.capacity == 0)) [
      | inl none_fits ↦ rw (absent, load) (rw none_fits (record { pool = h; capacity = refl }))
      | inr fits ↦
          let (kept, same, room) = make_room-IsPool manager pool h in
          let roomy = (make_room manager pool).0 in
          elim (Option-cases (make_room manager pool).1) [
            | inr (_, failed) ↦
                rw (absent, load) (rw fits (rw failed (record { pool = kept; capacity = same })))
            | inl done ↦ elim (Outcome-cases (manager.read_page roomy.disk id)) [
              | inr (_, unread) ↦
                  rw (absent, load)
                    (rw fits
                      (rw done (rw (unread, read_frame) (record { pool = kept; capacity = same }))))
              | inl (bytes, got) ↦
                  let fewer = room done in
                  let fresh =
                    find_frame-has_frame id roomy.frames
                      (make_room-absent manager pool id absent) in
                  rw (absent, load)
                    (rw fits (
                      rw done (
                        rw (got, read_frame)
                          (record {
                            pool = record {
                              bounded = omega (arith, fewer, same);
                              distinct = rw (fresh, is_distinct) kept.distinct;
                            };
                            capacity = same;
                          }))))
            ]
          ]
    ]
  ]

  loaded_page_id :
      (pool : BufferPool State) (id : ℕ) (f : Frame)
      → (load manager pool id).1 ≡ ok f
      → f.page_id ≡ id
  unfolding load read_frame
  loaded_page_id pool id f made = elim (Option-cases (find_frame id pool.frames)) [
    | inr (g, there) ↦
        let same : g ≡ f = ground (arith, there, made) in
        rw (← same) (find_frame-page_id id pool.frames g there)
    | inl absent ↦ elim (Bool-cases (pool.capacity == 0)) [
      | inl none_fits ↦ absurd (ground (arith, absent, none_fits, made))
      | inr fits ↦ elim (Option-cases (make_room manager pool).1) [
        | inr (_, failed) ↦ absurd (ground (arith, absent, fits, failed, made))
        | inl done ↦ elim (Outcome-cases (manager.read_page (make_room manager pool).0.disk id)) [
          | inr (_, unread) ↦ absurd (ground (arith, absent, fits, done, unread, made))
          | inl (bytes, got) ↦ ground (arith, absent, fits, done, got, made)
        ]
      ]
    ]
  ]

  fetch_page-Stays :
      (pool : BufferPool State) (id : ℕ) → IsPool pool → Stays pool (fetch_page manager pool id).0
  unfolding fetch_page load
  fetch_page-Stays pool id h =
      let loaded = load-Stays pool id h in
      let there = (load manager pool id).0 in
      elim (Outcome-cases (load manager pool id).1) [
        | inr (_, failed) ↦ rw (failed, fetch_page) loaded
        | inl (f, made) ↦
            rw (made, fetch_page)
              (record {
                pool =
                    set_frame-IsPool manager there there.disk (tick there.clock) id
                      (record f { pin_count = f.pin_count + 1; last_used = tick there.clock })
                      (loaded_page_id pool id f made) loaded.pool;
                capacity = loaded.capacity;
              })
      ]

  allocate_page-Stays :
      (pool : BufferPool State) → IsPool pool → Stays pool (allocate_page manager pool).0
  unfolding allocate_page
  allocate_page-Stays pool h =
      let disk = (manager.allocate_page pool.disk).0 in
      let moved : IsPool (record pool { disk = disk }) = record {
        bounded = h.bounded;
        distinct = h.distinct;
      } in
      elim (Outcome-cases (manager.allocate_page pool.disk).1) [
        | inr (_, failed) ↦ rw (failed, allocate_page) (record { pool = moved; capacity = refl })
        | inl (id, made) ↦
            let fetched = fetch_page-Stays (record pool { disk = disk }) id moved in
            rw (made, allocate_page) (record { pool = fetched.pool; capacity = fetched.capacity })
      ]

  flush_page-Stays :
      (pool : BufferPool State) (id : ℕ) → IsPool pool → Stays pool (flush_page manager pool id).0
  flush_page-Stays pool id h =
      let (kept, _, _, capacity) = flush_page-IsPool manager pool id h in
      record { pool = kept; capacity = capacity }

  flush_frames-Stays :
      (frames : List Frame) (pool : BufferPool State)
      → IsPool pool
      → Stays pool (flush_frames manager pool frames).0
  unfolding flush_frames
  flush_frames-Stays [] pool h = record { pool = h; capacity = refl }
  flush_frames-Stays (f ∷ frames) pool h =
      let first = flush_page-Stays pool f.page_id h in
      elim (Option-cases (flush_page manager pool f.page_id).1) [
        | inr (_, failed) ↦ rw (failed, flush_frames) first
        | inl done ↦
            let rest = flush_frames-Stays frames (flush_page manager pool f.page_id).0 first.pool in
            rw (done, flush_frames)
              (record { pool = rest.pool; capacity = rest.capacity ∙ first.capacity })
      ]

  flush_all-Stays : (pool : BufferPool State) → IsPool pool → Stays pool (flush_all manager pool).0
  unfolding flush_all
  flush_all-Stays pool h =
      let kept = flush_frames-Stays pool.frames pool h in
      elim (Option-cases (flush_frames manager pool pool.frames).1) [
        | inr (_, failed) ↦ rw (failed, flush_all) kept
        | inl done ↦
            rw (done, flush_all)
              (record {
                pool = record { bounded = kept.pool.bounded; distinct = kept.pool.distinct };
                capacity = kept.capacity;
              })
      ]

  unpin-Stays :
      (pool : BufferPool State) (id : ℕ) (dirty : Bool)
      → IsPool pool
      → Stays pool (unpin pool id dirty)
  unfolding unpin
  unpin-Stays pool id dirty h = elim (Option-cases (find_frame id pool.frames)) [
    | inl absent ↦ rw (absent, unpin) (record { pool = h; capacity = refl })
    | inr (f, there) ↦
        rw (there, unpin)
          (record {
            pool =
                set_frame-IsPool manager pool pool.disk (tick pool.clock) id _
                  (find_frame-page_id id pool.frames f there) h;
            capacity = refl;
          })
  ]

  write_bytes-Stays :
      (pool : BufferPool State) (id : ℕ) (bytes : List ℕ)
      → IsPool pool
      → Stays pool (write_bytes pool id bytes)
  unfolding write_bytes
  write_bytes-Stays pool id bytes h = elim (Option-cases (find_frame id pool.frames)) [
    | inl absent ↦ rw (absent, write_bytes) (record { pool = h; capacity = refl })
    | inr (f, there) ↦
        rw (there, write_bytes)
          (record {
            pool =
                set_frame-IsPool manager pool pool.disk pool.clock id _
                  (find_frame-page_id id pool.frames f there) h;
            capacity = refl;
          })
  ]

  after-Stays : (pool : BufferPool State) (call : Call) → IsPool pool → Stays pool (after pool call)
  unfolding after
  after-Stays pool (fetches_page id) h = fetch_page-Stays pool id h
  after-Stays pool allocates_page h = allocate_page-Stays pool h
  after-Stays pool (flushes_page id) h = flush_page-Stays pool id h
  after-Stays pool flushes_all h = flush_all-Stays pool h
  after-Stays pool (writes_bytes id bytes) h = write_bytes-Stays pool id bytes h
  after-Stays pool (unpins id dirty) h = unpin-Stays pool id dirty h

  run_stays :
      (pool : BufferPool State) (calls : List Call)
      → IsPool pool
      → (length (run pool calls).frames ≤ pool.capacity)
        × (is_distinct (run pool calls).frames ≡ true)
  unfolding run
  run_stays pool [] h = (h.bounded, h.distinct)
  run_stays pool (call ∷ calls) h =
      let kept = after-Stays pool call h in
      let (bounded, distinct) = run_stays (after pool call) calls kept.pool in
      (omega (arith, bounded, kept.capacity), distinct)

  -- After any calls of a new pool, of any results, it has no more frames than its capacity, and no page has
  -- two.
  pub run-is_distinct :
      (s : State) (capacity : ℕ) (calls : List Call)
      → (length (run (new_pool s capacity) calls).frames ≤ capacity)
        × (is_distinct (run (new_pool s capacity) calls).frames ≡ true)
  unfolding is_distinct
  run-is_distinct s capacity calls =
      run_stays (new_pool s capacity) calls (record { bounded = omega arith; distinct = refl })
