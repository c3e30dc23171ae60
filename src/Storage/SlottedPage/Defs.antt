-- ===== src/Storage/SlottedPage/Defs.antt =====
-- src/storage/slotted_page.cpp: the operations on a page. A slot is its number; a page is its bytes.
use curiodb.Prelude.{
  ℕ, zero, suc, ◌+◌, ◌-◌, ◌*◌, ◌%◌, ◌^◌, Bool, false, not, ◌||◌, List, [], ◌∷◌, ltb, ◌==◌,
  if◌then◌else◌, length, replicate,
}
use curiodb.Prelude.Bytes.{Bytes}
use curiodb.Prelude.Text.{text}
use curiodb.Prelude.Outcome.{Outcome, ok, ◌>>=◌, ◌>>◌, reject}
use curiodb.Storage.SlottedPage.Cells.{read_u16, read_u32, write_u16, write_u32, copy, slice}

pub data PageErrorCode : Type 0 where
  page_full record_too_large invalid_slot deleted_record corrupt_page unsupported_version :
      PageErrorCode

pub record PageError : Type 0 where
  pub code : PageErrorCode
  pub message : List ℕ

abbrev pub page_size : ℕ
page_size = 4096

abbrev pub magic : ℕ
magic = 0x49525543

abbrev pub format_version : ℕ
format_version = 1

abbrev pub header_size : ℕ
header_size = 16

abbrev pub slot_size : ℕ
slot_size = 4

abbrev pub u16_max : ℕ
u16_max = 65535

abbrev pub slot_offset : ℕ → ℕ
slot_offset slot = header_size + slot * slot_size

-- The fields of the header and of a directory entry.
abbrev pub slot_count : Bytes → ℕ
slot_count page = read_u16 page 6

abbrev pub free_start : Bytes → ℕ
free_start page = read_u16 page 8

abbrev pub free_end : Bytes → ℕ
free_end page = read_u16 page 10

abbrev pub record_offset : Bytes → ℕ → ℕ
record_offset page slot = read_u16 page (slot_offset slot)

abbrev pub record_length : Bytes → ℕ → ℕ
record_length page slot = read_u16 page (slot_offset slot + 2)

-- `SlottedPage::SlottedPage()`
unfoldable pub new_page : Bytes
new_page =
    let page = write_u32 (replicate page_size 0) 0 magic in
    let page' = write_u16 page 4 format_version in
    write_u16 (write_u16 (write_u16 page' 6 0) 8 header_size) 10 page_size

-- The difference is one of `size_t`.
unfoldable pub free_space : Bytes → ℕ
free_space page = (free_end page + 2 ^ 64 - free_start page) % 2 ^ 64

-- The writes of `insert_record`, at the slot `count` and with the record at `offset`.
unfoldable pub place_record : Bytes → Bytes → ℕ → ℕ → Bytes
place_record page record_bytes count offset =
    let copied = copy record_bytes page offset in
    let entry = slot_offset count in
    let with_offset = write_u16 copied entry offset in
    let with_length = write_u16 with_offset (entry + 2) (length record_bytes % 65536) in
    let with_count = write_u16 with_length 6 ((count + 1) % 65536) in
    let with_start = write_u16 with_count 8 ((entry + slot_size) % 65536) in
    write_u16 with_start 10 offset

abbrev pub long_record : PageError
long_record = record {
  code = PageErrorCode.record_too_large;
  message = text "record exceeds slot length limit";
}

abbrev pub no_space : PageError
no_space = record {
  code = PageErrorCode.page_full;
  message = text "page does not have enough free space";
}

unfoldable pub insert_record : Bytes → Bytes → Outcome PageError (ℕ × Bytes)
unfolding free_space
insert_record page record_bytes = do
  reject (ltb u16_max (length record_bytes)) long_record
  reject (ltb (free_space page) (length record_bytes + slot_size)) no_space
  let count = slot_count page
  reject (count == u16_max)
      (record { code = PageErrorCode.page_full; message = text "page slot directory is full" })
  let offset = (free_end page + 2 ^ 64 - length record_bytes) % 65536
  ok (count, place_record page record_bytes count offset)

abbrev pub missing_slot : PageError
missing_slot = record { code = PageErrorCode.invalid_slot; message = text "slot does not exist" }

abbrev pub deleted_slot : PageError
deleted_slot = record {
  code = PageErrorCode.deleted_record;
  message = text "record has been deleted";
}

unfoldable pub read_record : Bytes → ℕ → Outcome PageError Bytes
read_record page slot = do
  reject (not (ltb slot (slot_count page))) missing_slot
  reject (record_length page slot == 0) deleted_slot
  ok (slice page (record_offset page slot) (record_length page slot))

unfoldable pub delete_record : Bytes → ℕ → Outcome PageError Bytes
delete_record page slot = do
  reject (not (ltb slot (slot_count page))) missing_slot
  reject (record_length page slot == 0) deleted_slot
  ok (write_u16 page (slot_offset slot + 2) 0)

abbrev pub no_room : PageError
no_room = record {
  code = PageErrorCode.page_full;
  message = text "replacement does not fit in the existing slot";
}

unfoldable pub update_record : Bytes → ℕ → Bytes → Outcome PageError Bytes
update_record page slot record_bytes = do
  reject (not (ltb slot (slot_count page))) missing_slot
  reject (record_length page slot == 0) deleted_slot
  reject (ltb (record_length page slot) (length record_bytes)) no_room
  ok (
      write_u16 (copy record_bytes page (record_offset page slot)) (slot_offset slot + 2)
        (length record_bytes % 65536))

-- `validate`, and its helpers.

unfoldable pub corrupt : List ℕ → PageError
corrupt message = record { code = PageErrorCode.corrupt_page; message = message }

-- The bytes of a record, from `begin` up to `end`.
pub record Range : Type 0 where
  pub begin : ℕ
  pub end : ℕ

-- The loop over the directory, from the slot `index` on, `count` slots: the ranges of the records.
unfoldable pub collect_ranges : Bytes → ℕ → ℕ → Outcome PageError (List Range)
collect_ranges page index zero = ok []
collect_ranges page index (suc count) = do
  let offset = record_offset page index
  let size = record_length page index
  reject ((ltb offset (free_end page) || ltb page_size offset) || ltb (page_size - offset) size)
      (corrupt (text "slot points outside the record area"))
  rest ← collect_ranges page (index + 1) count
  ok (if size == 0 then rest else record { begin = offset; end = offset + size } ∷ rest)

-- `std::sort` by the begin: insertion into the sorted rest.
unfoldable pub insert_range : Range → List Range → List Range
insert_range r [] = r ∷ []
insert_range r (s ∷ rest) = if ltb s.begin r.begin then s ∷ insert_range r rest else r ∷ s ∷ rest

unfoldable pub sort_ranges : List Range → List Range
sort_ranges [] = []
sort_ranges (r ∷ rest) = insert_range r (sort_ranges rest)

-- The loop over neighbours: does one end behind the begin of the next?
unfoldable pub ranges_overlap : List Range → Bool
ranges_overlap [] = false
ranges_overlap (r ∷ []) = false
ranges_overlap (r ∷ s ∷ rest) = ltb s.begin r.end || ranges_overlap (s ∷ rest)

unfoldable pub validate : Bytes → Outcome PageError (Unit {0})
unfolding corrupt
validate page = do
  reject (not (read_u32 page 0 == magic)) (corrupt (text "invalid page magic"))
  reject (not (read_u16 page 4 == format_version)) (record {
    code = PageErrorCode.unsupported_version;
    message = text "unsupported page format version";
  })
  reject
      ((not (free_start page == header_size + slot_count page * slot_size)
          || ltb (free_end page) (free_start page))
        || ltb page_size (free_end page))
      (corrupt (text "invalid page free-space boundaries"))
  ranges ← collect_ranges page 0 (slot_count page)
  reject (ranges_overlap (sort_ranges ranges)) (corrupt (text "record ranges overlap"))

-- A loaded page is its bytes, if they are valid.
unfoldable pub load_slotted_page : Bytes → Outcome PageError Bytes
load_slotted_page bytes = do validate bytes; ok bytes
