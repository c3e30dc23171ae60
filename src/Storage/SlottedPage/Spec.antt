-- ===== src/Storage/SlottedPage/Spec.antt =====
-- src/storage/slotted_page.cpp: what a page promises, over the list of what its slots hold, and that the
-- operations on bytes keep the promise.
use native.Mathlib.Nat.{add-zero, zero-add}
use curiodb.Prelude.{
  ℕ, zero, suc, ◌+◌, ◌<◌, ◌≤◌, ◌≡◌, ◌≢◌, length, set, get_elem?, arith, ◌∙◌, ap, sym, List, [], ◌∷◌,
  ◌++◌, refl, Option, none, some, ltb, if◌then◌else◌,
}
use curiodb.Prelude.Bytes.{Bytes}
use curiodb.Prelude.Outcome.{Outcome, ok, err, ◌>>=◌, ◌>>◌, reject}
use curiodb.Storage.SlottedPage.Cells.{length-slice, copy}
use curiodb.Storage.SlottedPage.Defs.{
  PageError, slot_count, record_offset, record_length, read_record, delete_record, update_record,
  insert_record, missing_slot, deleted_slot, no_room,
}
use curiodb.Storage.SlottedPage.Validity.{slot_content, IsValid, contents, contents_from, stored}
use curiodb.Storage.SlottedPage.Change.{overwrite, overwrite-IsValid, contents-overwrite}
use curiodb.Storage.SlottedPage.Grow.{contents-insert_record}

abbrev pub Contents : Type 0
Contents = List (Option Bytes)

abbrev pub answer : Option (Option Bytes) → Outcome PageError Bytes
answer none = err missing_slot
answer (some none) = err deleted_slot
answer (some (some r)) = ok r

abbrev pub read_at : Contents → ℕ → Outcome PageError Bytes
read_at slots s = answer (get_elem? slots s)

abbrev pub delete_at : Contents → ℕ → Outcome PageError Contents
delete_at slots s = read_at slots s >>= λ old. ok (set slots s none)

abbrev pub update_at : Contents → ℕ → Bytes → Outcome PageError Contents
update_at slots s r = read_at slots s >>= λ old.
    reject (ltb (length old) (length r)) no_room >> ok (set slots s (stored r))

-- What the page holds after an operation that returned a page.
abbrev pub seen : Outcome PageError Bytes → Outcome PageError Contents
seen (ok page) = ok (contents page)
seen (err e) = err e

get_elem?-contents_from :
    (p : Bytes) (index count s : ℕ)
    → get_elem? (contents_from p index count) s
      ≡ (if ltb s count then some (slot_content p (index + s)) else none)
unfolding contents_from
get_elem?-contents_from p index zero s = ground arith
get_elem?-contents_from p index (suc count) zero =
    ground (arith, ap (slot_content p) (add-zero index))
get_elem?-contents_from p index (suc count) (suc s) =
    let moved : index + 1 + s ≡ index + suc s = omega arith in
    ground (arith, get_elem?-contents_from p (index + 1) count s, ap (slot_content p) moved)

get_elem?-contents :
    (p : Bytes) (s : ℕ)
    → get_elem? (contents p) s ≡ (if ltb s (slot_count p) then some (slot_content p s) else none)
unfolding contents
get_elem?-contents p s = get_elem?-contents_from p 0 (slot_count p) s ∙ rw zero-add refl

-- Reading a slot gives its record as the page's contents have it: `invalid_slot` behind the directory,
-- `deleted_record` where nothing is held.
pub read_record-read_at : (p : Bytes) (s : ℕ) → read_record p s ≡ read_at (contents p) s
unfolding read_record slot_content
read_record-read_at p s = ground (arith, get_elem?-contents p s)

module _ (p : Bytes) (s : ℕ) (v : IsValid p) where
  -- A record that can be read is the bytes of a slot in use.
  read_record_inversion :
      (old : Bytes)
      → read_record p s ≡ ok old
      → (s < slot_count p) × (record_length p s ≢ 0) × (length old ≡ record_length p s)
  unfolding read_record
  read_record_inversion old e =
      ground (arith, length-slice p (record_offset p s) (record_length p s))

-- Deleting refines the deletion of a slot's record from what the page holds: it fails as reading does,
-- and otherwise empties this slot and no other.
pub delete_record-delete_at :
    (p : Bytes) (s : ℕ) → IsValid p → seen (delete_record p s) ≡ delete_at (contents p) s
unfolding delete_record read_record copy stored
delete_record-delete_at p s v =
    rw (← read_record-read_at p s) (ground (arith, contents-overwrite p s [] v))

-- Updating refines the replacement of a slot's record in what the page holds: it fails as reading does,
-- or with `page_full` where the new record is longer than the old, and otherwise changes this slot and
-- no other.
pub update_record-update_at :
    (p : Bytes) (s : ℕ) (r : Bytes)
    → IsValid p
    → seen (update_record p s r) ≡ update_at (contents p) s r
unfolding update_record read_record
update_record-update_at p s r v = rw (← read_record-read_at p s) (
    ground
      (arith, contents-overwrite p s r v, length-slice p (record_offset p s) (record_length p s)))

-- What a deletion and an update that succeed did.
delete_record_inversion :
    (p : Bytes) (s : ℕ) (q : Bytes)
    → delete_record p s ≡ ok q
    → (s < slot_count p) × (record_length p s ≢ 0) × (q ≡ overwrite p s [])
unfolding delete_record copy
delete_record_inversion p s q e = ground arith

update_record_inversion :
    (p : Bytes) (s : ℕ) (r q : Bytes)
    → update_record p s r ≡ ok q
    → (s < slot_count p)
      × (record_length p s ≢ 0)
      × (length r ≤ record_length p s)
      × (q ≡ overwrite p s r)
unfolding update_record
update_record_inversion p s r q e = ground arith

pub delete_record-IsValid :
    (p : Bytes) (s : ℕ) (q : Bytes) → IsValid p → delete_record p s ≡ ok q → IsValid q
delete_record-IsValid p s q v e =
    let (here, live, same) = delete_record_inversion p s q e in
    rw same (overwrite-IsValid p s [] v here live (omega arith))

pub update_record-IsValid :
    (p : Bytes) (s : ℕ) (r q : Bytes) → IsValid p → update_record p s r ≡ ok q → IsValid q
update_record-IsValid p s r q v e =
    let (here, live, short, same) = update_record_inversion p s r q e in
    rw same (overwrite-IsValid p s r v here live short)

get_elem?-snoc :
    (slots : Contents) (c : Option Bytes) → get_elem? (slots ++ c ∷ []) (length slots) ≡ some c
get_elem?-snoc [] c = refl
get_elem?-snoc (x ∷ slots) c = get_elem?-snoc slots c

length-contents_from : (p : Bytes) (index count : ℕ) → length (contents_from p index count) ≡ count
unfolding contents_from
length-contents_from p index zero = refl
length-contents_from p index (suc count) = ap suc (length-contents_from p (index + 1) count)

length-contents : (p : Bytes) → length (contents p) ≡ slot_count p
unfolding contents
length-contents p = length-contents_from p 0 (slot_count p)

stored_full : (r : Bytes) → r ≢ [] → stored r ≡ some r
unfolding stored
stored_full [] h = absurd (h refl)
stored_full (b ∷ bs) h = refl

-- A record that is not empty is read back under the slot that its insertion gave.
pub read_record-insert_record :
    (p r : Bytes) (slot : ℕ) (q : Bytes)
    → IsValid p
    → r ≢ []
    → insert_record p r ≡ ok (slot, q)
    → read_record q slot ≡ ok r
read_record-insert_record p r slot q v full e =
    let (number, held) = contents-insert_record p r slot q v e in
    read_record-read_at q slot
    ∙ ap answer (
        ap (get_elem? (contents q)) (number ∙ sym (length-contents p))
        ∙ (ap (λ slots. get_elem? slots (length (contents p))) held
            ∙ (get_elem?-snoc (contents p) (stored r) ∙ ap some (stored_full r full))))
