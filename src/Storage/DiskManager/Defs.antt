-- ===== src/Storage/DiskManager/Defs.antt =====
-- src/storage/disk_manager.cpp: a file as its pages, over a `std::fstream` and the functions of
-- `std::filesystem`, which are parameters.
use curiodb.Prelude.{
  ℕ, ◌+◌, ◌-◌, ◌*◌, ◌/◌, ◌%◌, ◌^◌, Bool, List, Option, none, some, if◌then◌else◌, not, ◌==◌, ltb,
  replicate,
}
use curiodb.Prelude.Text.{text}
use curiodb.Prelude.Outcome.{Outcome, ok, err}
use curiodb.Storage.SlottedPage.Defs.{page_size}
use curiodb.Storage.BufferPool.Defs.{DiskErrorCode, DiskError, DiskManager}

-- What the disk manager asks of `std::fstream`: `seekg` with `read` (`none` where the stream fails, or has
-- fewer bytes), `seekp` with `write`, and `flush`. The flag says that the stream is good afterwards.
pub record FileStream (F : Type 0) : Type 0 where
  pub read : F → ℕ → ℕ → Option (List ℕ)
  pub write : F → ℕ → List ℕ → F × Bool
  pub flush : F → F × Bool

-- `file_` and `page_count_`.
pub record PageFile (F : Type 0) : Type 0 where
  pub file : F
  pub page_count : ℕ

unfoldable pub disk_failure : DiskErrorCode → List ℕ → DiskError
disk_failure code message = record { code = code; message = message }

-- An identifier has 32 bits, so that the product does not wrap at 64.
unfoldable pub page_offset : ℕ → ℕ
page_offset id = id * page_size

module _ {F : Type 0} (stream : FileStream F) where
  unfoldable pub allocate_page : PageFile F → PageFile F × Outcome DiskError ℕ
  unfolding page_offset disk_failure
  allocate_page state =
      let id = state.page_count % 2 ^ 32 in
      let (file, good) = stream.write state.file (page_offset id) (replicate page_size 0) in
      if ltb (2 ^ 32 - 1) state.page_count
      then (
        state,
        err (
            disk_failure DiskErrorCode.page_id_exhausted
              (text "database has exhausted its page identifiers")),
      )
      else if not good
      then (
        record state { file = file },
        err (disk_failure DiskErrorCode.io_error (text "failed to allocate database page")),
      )
      else (record { file = file; page_count = state.page_count + 1 }, ok id)

  unfoldable pub read_page : PageFile F → ℕ → Outcome DiskError (List ℕ)
  unfolding page_offset disk_failure
  read_page state id =
      if not (ltb id state.page_count)
      then err (disk_failure DiskErrorCode.invalid_page_id (text "page does not exist"))
      else elim (stream.read state.file (page_offset id) page_size) [
        | none ↦
            err (disk_failure DiskErrorCode.io_error (text "failed to read complete database page"))
        | some bytes ↦ ok bytes
      ]

  unfoldable pub write_page : PageFile F → ℕ → List ℕ → PageFile F × Option DiskError
  unfolding page_offset disk_failure
  write_page state id bytes =
      let (file, good) = stream.write state.file (page_offset id) bytes in
      if not (ltb id state.page_count)
      then (state, some (disk_failure DiskErrorCode.invalid_page_id (text "page does not exist")))
      else if not good
      then (
        record state { file = file },
        some (disk_failure DiskErrorCode.io_error (text "failed to write database page")),
      )
      else (record state { file = file }, none)

  unfoldable pub flush : PageFile F → PageFile F × Option DiskError
  unfolding disk_failure
  flush state =
      let (file, good) = stream.flush state.file in
      (
        record state { file = file },
        if good
            then none
            else some (disk_failure DiskErrorCode.io_error (text "failed to flush database file")),
      )

  -- The disk manager of a buffer pool.
  abbrev pub disk_manager : DiskManager (PageFile F)
  disk_manager = record {
    allocate_page = allocate_page;
    read_page = read_page;
    write_page = write_page;
    flush = flush;
  }

-- What `open_disk_manager` asks of `std::filesystem`, `std::ofstream` and `std::fstream::open`; `none`
-- is an error.
pub record FileSystem (S F : Type 0) : Type 0 where
  pub exists : S → List ℕ → Bool
  pub create : S → List ℕ → S × Bool
  pub file_size : S → List ℕ → Option ℕ
  pub open_file : S → List ℕ → Option F

module _ {S F : Type 0} (system : FileSystem S F) where
  unfoldable pub open_existing : S → List ℕ → Outcome DiskError (PageFile F)
  unfolding disk_failure
  open_existing s path = elim (system.file_size s path) [
    | none ↦ err (disk_failure DiskErrorCode.open_failed (text "failed to inspect database file"))
    | some size ↦
        if not (size % page_size == 0)
        then err (
            disk_failure DiskErrorCode.misaligned_file
              (text "database file size is not a multiple of page size"))
        else elim (system.open_file s path) [
          | none ↦
              err (disk_failure DiskErrorCode.open_failed (text "failed to open database file"))
          | some file ↦ ok (record { file = file; page_count = size / page_size })
        ]
  ]

  unfoldable pub open_disk_manager : S → List ℕ → S × Outcome DiskError (PageFile F)
  unfolding open_existing disk_failure
  open_disk_manager s path =
      let (created, good) = system.create s path in
      if system.exists s path
      then (s, open_existing s path)
      else if good
      then (created, open_existing created path)
      else (
        created,
        err (disk_failure DiskErrorCode.open_failed (text "failed to create database file")),
      )
