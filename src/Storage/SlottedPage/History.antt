-- ===== src/Storage/SlottedPage/History.antt =====
-- src/storage/slotted_page.cpp: the pages that a history of operations leads to, from a fresh page.
use curiodb.Prelude.{ℕ, ◌≡◌, refl, length, arith, []}
use curiodb.Prelude.Bytes.{Bytes}
use curiodb.Prelude.Outcome.{ok}
use curiodb.Storage.SlottedPage.Cells.{read_u16, read_u32, write_u16, write_u32}
use curiodb.Storage.SlottedPage.Defs.{
  new_page, insert_record, delete_record, update_record, load_slotted_page, slot_count, page_size,
}
use curiodb.Storage.SlottedPage.Validity.{IsValid, contents, contents_from}
use curiodb.Storage.SlottedPage.Grow.{insert_record-IsValid}
use curiodb.Storage.SlottedPage.Spec.{delete_record-IsValid, update_record-IsValid}
use curiodb.Storage.SlottedPage.Load.{load_slotted_page-IsValid}

-- An operation that succeeds; one that fails leaves the page as it was.
pub data Step (p q : Bytes) : Type 0 where
  inserted : (r : Bytes) (slot : ℕ) → insert_record p r ≡ ok (slot, q) → Step p q
  deleted : (slot : ℕ) → delete_record p slot ≡ ok q → Step p q
  updated : (slot : ℕ) (r : Bytes) → update_record p slot r ≡ ok q → Step p q

pub data Reach (p : Bytes) : Bytes → Type 0 where
  here : Reach p p
  next : {q r : Bytes} → Reach p q → Step q r → Reach p r

new_page_size : length new_page ≡ page_size
unfolding new_page write_u16 write_u32
new_page_size = refl

new_page_empty : slot_count new_page ≡ 0
unfolding new_page write_u16 write_u32 read_u16
new_page_empty = refl

-- A fresh page is valid and holds nothing.
pub new_page-IsValid : IsValid new_page × (contents new_page ≡ [])
unfolding new_page write_u16 write_u32 read_u16 read_u32 contents contents_from
new_page-IsValid = (
  record {
    size = refl;
    has_magic = refl;
    has_version = refl;
    start = refl;
    start_end = omega arith;
    end = omega arith;
    inside = λ s h. absurd (omega (arith, new_page_empty));
    disjoint = λ s t h. absurd (omega (arith, new_page_empty));
  },
  refl,
)

Step-IsValid : {p q : Bytes} → Step p q → IsValid p → IsValid q
Step-IsValid {p} {q} (inserted r slot e) v = insert_record-IsValid p r slot q v e
Step-IsValid {p} {q} (deleted slot e) v = delete_record-IsValid p slot q v e
Step-IsValid {p} {q} (updated slot r e) v = update_record-IsValid p slot r q v e

Reach-IsValid : {p q : Bytes} → IsValid p → Reach p q → IsValid q
Reach-IsValid v here = v
Reach-IsValid v (next r st) = Step-IsValid st (Reach-IsValid v r)

-- Whatever records were inserted, deleted and updated, from a fresh page on, the page's bytes are
-- accepted when they are loaded again.
pub load_slotted_page-Reach : (q : Bytes) → Reach new_page q → load_slotted_page q ≡ ok q
load_slotted_page-Reach q r =
    let v = Reach-IsValid new_page-IsValid.0 r in (load_slotted_page-IsValid q v.size).1 v
