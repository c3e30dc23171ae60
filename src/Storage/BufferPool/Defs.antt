-- ===== src/Storage/BufferPool/Defs.antt =====
-- src/storage/buffer_pool.cpp: the frames of pages in memory, over a disk of pages.
use curiodb.Prelude.{
  ℕ, ◌+◌, ◌-◌, ◌%◌, ◌^◌, Bool, false, ◌&&◌, ◌||◌, List, [], ◌∷◌, Option, none, some, if◌then◌else◌,
  ◌==◌, ltb, leb, length,
}
use curiodb.Prelude.Text.{text}
use curiodb.Prelude.Outcome.{Outcome, ok, err}

pub data DiskErrorCode : Type 0 where
  open_failed io_error invalid_page_id misaligned_file page_id_exhausted : DiskErrorCode

pub record DiskError : Type 0 where
  pub code : DiskErrorCode
  pub message : List ℕ

pub data BufferPoolErrorCode : Type 0 where
  disk_error no_evictable_frame : BufferPoolErrorCode

pub record BufferPoolError : Type 0 where
  pub code : BufferPoolErrorCode
  pub message : List ℕ

-- What the pool asks of `DiskManager`, over its state; a page's identifier is its number.
pub record DiskManager (State : Type 0) : Type 0 where
  pub allocate_page : State → State × Outcome DiskError ℕ
  pub read_page : State → ℕ → Outcome DiskError (List ℕ)
  pub write_page : State → ℕ → List ℕ → State × Option DiskError
  pub flush : State → State × Option DiskError

pub record Frame : Type 0 where
  pub page_id : ℕ
  pub bytes : List ℕ
  pub pin_count : ℕ
  pub last_used : ℕ
  pub dirty : Bool

-- `frames_`: a frame stands under the number of its page.
pub record BufferPool (State : Type 0) : Type 0 where
  pub disk : State
  pub capacity : ℕ
  pub clock : ℕ
  pub frames : List Frame

unfoldable pub find_frame : ℕ → List Frame → Option Frame
find_frame id [] = none
find_frame id (f ∷ rest) =
    let found = find_frame id rest in if f.page_id == id then some f else found

-- A change through the pointer to the frame of a page.
unfoldable pub set_frame : ℕ → Frame → List Frame → List Frame
set_frame id new [] = []
set_frame id new (f ∷ rest) =
    let rest' = set_frame id new rest in if f.page_id == id then new ∷ rest' else f ∷ rest'

unfoldable pub erase_frame : ℕ → List Frame → List Frame
erase_frame id [] = []
erase_frame id (f ∷ rest) =
    let rest' = erase_frame id rest in if f.page_id == id then rest' else f ∷ rest'

-- The loop for the frame that is not pinned and was used the longest ago.
unfoldable pub choose_victim : List Frame → Option Frame → ℕ → Option Frame
choose_victim [] victim oldest = victim
choose_victim (f ∷ rest) victim oldest =
    let better = choose_victim rest (some f) f.last_used in
    let same = choose_victim rest victim oldest in
    if f.pin_count == 0 && ltb f.last_used oldest then better else same

abbrev pub from_disk : DiskError → BufferPoolError
from_disk e = record { code = BufferPoolErrorCode.disk_error; message = e.message }

-- `++clock_` of 64 bits.
abbrev pub tick : ℕ → ℕ
tick clock = (clock + 1) % 2 ^ 64

module _ {State : Type 0} (manager : DiskManager State) where
  unfoldable pub flush_page : BufferPool State → ℕ → BufferPool State × Option DiskError
  unfolding find_frame set_frame
  flush_page pool id = elim (find_frame id pool.frames) [
    | none ↦ (pool, none)
    | some f ↦
        let (disk, failed) = manager.write_page pool.disk id f.bytes in
        if f.dirty
        then elim failed [
          | some e ↦ (record pool { disk = disk }, some e)
          | none ↦ (
            record pool {
              disk = disk;
              frames = set_frame id (record f { dirty = false }) pool.frames;
            },
            none,
          )
        ]
        else (pool, none)
  ]

  -- The loop of `flush_all` over the frames there were, which stops at the first error.
  unfoldable pub flush_frames : BufferPool State → List Frame → BufferPool State × Option DiskError
  unfolding flush_page
  flush_frames pool [] = (pool, none)
  flush_frames pool (f ∷ rest) =
      let (after, failed) = flush_page pool f.page_id in
      let all = flush_frames after rest in elim failed [ some e ↦ (after, some e) | none ↦ all ]

  unfoldable pub flush_all : BufferPool State → BufferPool State × Option DiskError
  unfolding flush_frames
  flush_all pool =
      let (after, failed) = flush_frames pool pool.frames in
      let (disk, flushed) = manager.flush after.disk in
      elim failed [ some e ↦ (after, some e) | none ↦ (record after { disk = disk }, flushed) ]

  -- A place for one more frame: the victim is written back, and its frame is dropped.
  unfoldable pub make_room : BufferPool State → BufferPool State × Option BufferPoolError
  unfolding choose_victim flush_page erase_frame
  make_room pool =
      if leb pool.capacity (length pool.frames)
      then elim (choose_victim pool.frames none (2 ^ 64 - 1)) [
        | none ↦ (
          pool,
          some (record {
            code = BufferPoolErrorCode.no_evictable_frame;
            message = text "all buffer pool frames are pinned";
          }),
        )
        | some victim ↦
            let (after, failed) = flush_page pool victim.page_id in
            elim failed [
              | some e ↦ (after, some (from_disk e))
              | none ↦ (record after { frames = erase_frame victim.page_id after.frames }, none)
            ]
      ]
      else (pool, none)

  -- The frame of a page that has none.
  unfoldable pub read_frame :
      BufferPool State → ℕ → BufferPool State × Outcome BufferPoolError Frame
  read_frame pool id = elim (manager.read_page pool.disk id) [
    | err e ↦ (pool, err (from_disk e))
    | ok bytes ↦
        let f : Frame = record {
          page_id = id;
          bytes = bytes;
          pin_count = 0;
          last_used = 0;
          dirty = false;
        } in
        (record pool { frames = f ∷ pool.frames }, ok f)
  ]

  unfoldable pub load : BufferPool State → ℕ → BufferPool State × Outcome BufferPoolError Frame
  unfolding find_frame make_room read_frame
  load pool id = elim (find_frame id pool.frames) [
    | some f ↦ (pool, ok f)
    | none ↦
        if pool.capacity == 0
        then (
          pool,
          err (record {
            code = BufferPoolErrorCode.no_evictable_frame;
            message = text "buffer pool has zero capacity";
          }),
        )
        else (let (after, failed) = make_room pool in
            elim failed [ some e ↦ (after, err e) | none ↦ read_frame after id ])
  ]

  -- The guard of the page is its number with the bytes that it points to.
  unfoldable pub fetch_page :
      BufferPool State → ℕ → BufferPool State × Outcome BufferPoolError (ℕ × List ℕ)
  unfolding load set_frame
  fetch_page pool id =
      let (after, loaded) = load pool id in
      elim loaded [
        | err e ↦ (after, err e)
        | ok f ↦
            let used : Frame = record f {
              pin_count = f.pin_count + 1;
              last_used = tick after.clock;
            } in
            (
              record after { clock = tick after.clock; frames = set_frame id used after.frames },
              ok (id, f.bytes),
            )
      ]

  unfoldable pub allocate_page :
      BufferPool State → BufferPool State × Outcome BufferPoolError (ℕ × List ℕ)
  unfolding fetch_page
  allocate_page pool =
      let (disk, allocated) = manager.allocate_page pool.disk in
      elim allocated [
        | err e ↦ (record pool { disk = disk }, err (from_disk e))
        | ok id ↦ fetch_page (record pool { disk = disk }) id
      ]

-- The end of a guard; `dirty` is what `mark_dirty` has set.
unfoldable pub unpin : {State : Type 0} → BufferPool State → ℕ → Bool → BufferPool State
unfolding find_frame set_frame
unpin pool id dirty = elim (find_frame id pool.frames) [
  | none ↦ pool
  | some f ↦
      let released : Frame = record f {
        pin_count = f.pin_count - 1;
        dirty = f.dirty || dirty;
        last_used = tick pool.clock;
      } in
      record pool { clock = tick pool.clock; frames = set_frame id released pool.frames }
]

-- A write through `bytes()` of a guard.
unfoldable pub write_bytes : {State : Type 0} → BufferPool State → ℕ → List ℕ → BufferPool State
unfolding find_frame set_frame
write_bytes pool id bytes = elim (find_frame id pool.frames) [
  | none ↦ pool
  | some f ↦ record pool { frames = set_frame id (record f { bytes = bytes }) pool.frames }
]
