-- ===== src/Storage/BufferPool/Tests.antt =====
-- A pool of one frame, which is dirty, over a file of pages, and pools over a
-- store that keeps a text for each number.
use curiodb.Prelude.{
  ℕ, ◌≤◌, ◌≡◌, inl, inr, refl, true, List, [], ◌∷◌, none, some, if◌then◌else◌, ◌==◌, length, map,
  arith, replicate, length-replicate, Bool-cases,
}
use curiodb.Prelude.Outcome.{ok}
use curiodb.Storage.BufferPool.Defs.{
  DiskManager, Frame, BufferPool, find_frame, fetch_page, load, make_room, choose_victim,
  flush_page, read_frame,
}
use curiodb.Storage.SlottedPage.Defs.{page_size}
use curiodb.Storage.DiskManager.Defs.{PageFile, read_page, write_page, disk_manager}
use curiodb.Storage.DiskManager.Laws.{disk_manager-IsDisk}
use curiodb.Storage.DiskManager.ByteFile.{Bytes, byte_stream, byte_stream-IsStream}
use curiodb.Storage.BufferPool.Coherent.{IsDisk, IsCoherent, page_at}
use curiodb.Storage.BufferPool.Fetch.{Shows, fetch_page-page_at}
use curiodb.Storage.BufferPool.Calls.{Call, run, new_pool, run-is_distinct}
use curiodb.Storage.BufferPool.Bounded.{has_frame, is_distinct}
use curiodb.Storage.BufferPool.Room.{IsPool}
use curiodb.Storage.BufferPool.Pins.{Holds}
use curiodb.Storage.BufferPool.Pinned.{fetch_page-Holds}

abbrev Store : Type 0
Store = ℕ → List ℕ

abbrev store : DiskManager Store
store = record {
  allocate_page = λ s. (s, ok 0);
  read_page = λ s id. ok (s id);
  write_page = λ s id bytes. ((λ k. if id == k then bytes else s k), none);
  flush = λ s. (s, none);
}

-- A file of ten empty pages, and a pool with one frame over it, which is dirty.
abbrev paged : DiskManager (PageFile Bytes)
paged = disk_manager byte_stream

paged-IsDisk : IsDisk paged
paged-IsDisk = disk_manager-IsDisk byte_stream byte_stream-IsStream

abbrev kept : Frame
kept = record {
  page_id = 5;
  bytes = replicate page_size 7;
  pin_count = 0;
  last_used = 3;
  dirty = true;
}

abbrev pool : BufferPool (PageFile Bytes)
pool = record {
  disk = record { file = λ k. 0; page_count = 10 };
  capacity = 1;
  clock = 3;
  frames = kept ∷ [];
}

pool-is_distinct : is_distinct pool.frames ≡ true
unfolding is_distinct has_frame
pool-is_distinct = refl

pool-IsCoherent : IsCoherent paged paged-IsDisk pool
unfolding find_frame
pool-IsCoherent k = elim (Bool-cases (5 == k)) [
  | inl here ↦ rw (here, find_frame) (length-replicate {A = ℕ} page_size 7, tt)
  | inr other ↦ rw (other, find_frame) tt
]

fetch_page-page_at_example :
    IsCoherent paged paged-IsDisk (fetch_page paged pool 6).0
    × (page_at paged paged-IsDisk (fetch_page paged pool 6).0 5 ≡ page_at paged paged-IsDisk pool 5)
    × Shows paged paged-IsDisk 6 (page_at paged paged-IsDisk pool 6) (fetch_page paged pool 6).1
fetch_page-page_at_example =
    fetch_page-page_at paged paged-IsDisk pool 6 5 pool-is_distinct pool-IsCoherent

-- The frame of page 5 is written back and dropped for page 6.
evicted : map (λ (f : Frame). f.page_id) (fetch_page paged pool 6).0.frames ≡ 6 ∷ []
unfolding fetch_page load make_room choose_victim flush_page read_frame find_frame write_page
    read_page
evicted = refl

run-is_distinct_example :
    (length
        (run store
          (new_pool (λ k. k ∷ []) 1)
          (Call.fetches_page 5 ∷ Call.unpins 5 true ∷ Call.fetches_page 6 ∷ [])).frames
      ≤ 1)
    × (is_distinct
          (run store
            (new_pool (λ k. k ∷ []) 1)
            (Call.fetches_page 5 ∷ Call.unpins 5 true ∷ Call.fetches_page 6 ∷ [])).frames
        ≡ true)
run-is_distinct_example =
    run-is_distinct store (λ k. k ∷ []) 1
      (Call.fetches_page 5 ∷ Call.unpins 5 true ∷ Call.fetches_page 6 ∷ [])

abbrev held : Frame
held = record { page_id = 5; bytes = 1 ∷ 2 ∷ []; pin_count = 1; last_used = 3; dirty = true }

abbrev held_pool : BufferPool Store
held_pool = record { disk = λ k. k ∷ []; capacity = 1; clock = 3; frames = held ∷ [] }

held_pool-IsPool : IsPool held_pool
unfolding is_distinct has_frame
held_pool-IsPool = record { bounded = omega arith; distinct = refl }

held_there : find_frame 5 held_pool.frames ≡ some held
unfolding find_frame
held_there = refl

fetch_page-Holds_example : Holds 5 held (fetch_page store held_pool 6).0.frames
fetch_page-Holds_example =
    fetch_page-Holds store held_pool 6 5 held held_pool-IsPool held_there refl
