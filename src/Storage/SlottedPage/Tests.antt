-- ===== src/Storage/SlottedPage/Tests.antt =====
-- src/storage/slotted_page.cpp: the theorems at small pages, and runs of the code.
use curiodb.Prelude.{ℕ, ◌<◌, ◌≤◌, ◌≡◌, ◌↔◌, ◌⊎◌, [], ◌∷◌, ◌++◌, refl, length}
use curiodb.Prelude.Bytes.{Bytes}
use curiodb.Prelude.Text.{text}
use curiodb.Prelude.Outcome.{ok, err}
use curiodb.Storage.SlottedPage.Cells.{read_u16, read_u32, write_u16, write_u32, copy}
use curiodb.Storage.SlottedPage.Defs.{
  new_page, insert_record, read_record, delete_record, update_record, load_slotted_page, free_space,
  place_record, slot_count, deleted_slot, no_space, corrupt, validate,
}
use curiodb.Storage.SlottedPage.Validity.{IsValid, contents, stored}
use curiodb.Storage.SlottedPage.Grow.{
  insert_record-IsValid, contents-insert_record, insert_record-free_space,
}
use curiodb.Storage.SlottedPage.Spec.{
  read_at, delete_at, update_at, seen, read_record-read_at, delete_record-delete_at,
  update_record-update_at, read_record-insert_record,
}
use curiodb.Storage.SlottedPage.Load.{load_slotted_page-IsValid}
use curiodb.Storage.SlottedPage.History.{
  Reach, inserted, deleted, here, next, new_page-IsValid, load_slotted_page-Reach,
}

abbrev greeting : Bytes
greeting = b'h' ∷ b'e' ∷ b'y' ∷ []

-- The page that holds one record.
one : Bytes
one = place_record new_page greeting 0 4093

new_page_length : length new_page ≡ 4096
unfolding new_page write_u16 write_u32
new_page_length = refl

one_inserted : insert_record new_page greeting ≡ ok (0, one)
unfolding one insert_record new_page write_u16 write_u32 read_u16
one_inserted = refl

one-IsValid : IsValid one
one-IsValid = insert_record-IsValid new_page greeting 0 one new_page-IsValid.0 one_inserted

one_deleted : delete_record one 0 ≡ ok (write_u16 one 18 0)
unfolding delete_record one place_record copy new_page write_u16 write_u32 read_u16
one_deleted = refl

load_slotted_page-IsValid_example : (load_slotted_page new_page ≡ ok new_page) ↔ IsValid new_page
load_slotted_page-IsValid_example = load_slotted_page-IsValid new_page new_page_length

history : Reach new_page (write_u16 one 18 0)
history = next (next here (inserted greeting 0 one_inserted)) (deleted 0 one_deleted)

load_slotted_page-Reach_example : load_slotted_page (write_u16 one 18 0) ≡ ok (write_u16 one 18 0)
load_slotted_page-Reach_example = load_slotted_page-Reach (write_u16 one 18 0) history

contents-insert_record_example :
    (◌≡◌ {A = ℕ} 0 (slot_count new_page))
    × (contents one ≡ contents new_page ++ stored greeting ∷ [])
contents-insert_record_example =
    contents-insert_record new_page greeting 0 one new_page-IsValid.0 one_inserted

insert_record-free_space_example :
    ((7 ≤ free_space new_page)
      × ((q : Bytes) × (insert_record new_page greeting ≡ ok (slot_count new_page, q))))
    ⊎ ((free_space new_page < 7) × (insert_record new_page greeting ≡ err no_space))
insert_record-free_space_example = insert_record-free_space new_page greeting new_page-IsValid.0

read_record-read_at_example : read_record one 0 ≡ read_at (contents one) 0
read_record-read_at_example = read_record-read_at one 0

delete_record-delete_at_example : seen (delete_record one 0) ≡ delete_at (contents one) 0
delete_record-delete_at_example = delete_record-delete_at one 0 one-IsValid

update_record-update_at_example :
    seen (update_record one 0 (b'h' ∷ b'i' ∷ [])) ≡ update_at (contents one) 0 (b'h' ∷ b'i' ∷ [])
update_record-update_at_example = update_record-update_at one 0 (b'h' ∷ b'i' ∷ []) one-IsValid

read_record-insert_record_example : read_record one 0 ≡ ok greeting
read_record-insert_record_example =
    read_record-insert_record new_page greeting 0 one new_page-IsValid.0 (λ e. cc) one_inserted

-- A record that is deleted is not read again.
read_deleted : read_record (write_u16 one 18 0) 0 ≡ err deleted_slot
unfolding read_record one place_record copy new_page write_u16 write_u32 read_u16
read_deleted = refl

-- A header that is overwritten is refused.
load_corrupt :
    load_slotted_page (write_u16 new_page 0 7) ≡ err (corrupt (text "invalid page magic"))
unfolding load_slotted_page validate new_page write_u16 write_u32 read_u32
load_corrupt = refl
