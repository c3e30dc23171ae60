-- ===== src/Storage/Memory/Rows.antt =====
-- src/storage/in_memory_table.cpp: which rows `delete_where` and `update_where` change.
use curiodb.Prelude.{
  ℕ, zero, suc, ◌+◌, ◌<◌, ◌≡◌, inl, inr, refl, Bool, true, false, not, ◌&&◌, List, [], ◌∷◌, ◌++◌,
  none, some, is_some, ltb, Option-cases, if◌then◌else◌, length, All, arith, Bool-cases, get_elem?,
  set, map, get_elem?-set_self,
}
use mathlib.Core.Path.{subst}
use native.Mathlib.Nat.{add-zero, zero-add}
use curiodb.Types.{Value, is_null}
use curiodb.Types.Order.{value_eq}
use curiodb.Catalog.Schema.{ColumnSchema}
use curiodb.Storage.Row.{Row, at, set_at}
use curiodb.Storage.Validation.Fits.{Fits, Takes}
use curiodb.Storage.Memory.Defs.{
  InMemoryTable, same_value, is_null_at, erase_if, delete_where, update_rows, update_where,
}
use curiodb.Storage.Memory.Unique.{keyed, NoClash, IsTable}

-- How many rows a test holds of.
unfoldable pub matching : (Row → Bool) → List Row → ℕ
matching p [] = 0
matching p (r ∷ rs) = (if p r then 1 else 0) + matching p rs

matching-erase_if :
    (p q : Row → Bool) (rows : List Row)
    → matching q (erase_if p rows) ≡ matching (λ r. q r && not (p r)) rows
unfolding matching erase_if
matching-erase_if p q [] = refl
matching-erase_if p q (r ∷ rs) = ground (arith, matching-erase_if p q rs)

erase_if_length :
    (p : Row → Bool) (rows : List Row) → length (erase_if p rows) + matching p rows ≡ length rows
unfolding matching erase_if
erase_if_length p [] = refl
erase_if_length p (r ∷ rs) = ground (arith, erase_if_length p rs)

-- A deletion answers the number of rows that the predicate holds of, and what is left is, for every
-- other test, the rows that pass it and not the predicate, as often as they were there.
pub delete_where-matching :
    (table : InMemoryTable) (p q : Row → Bool)
    → ((delete_where table p).1 ≡ matching p table.rows)
      × (matching q (delete_where table p).0.rows ≡ matching (λ r. q r && not (p r)) table.rows)
unfolding delete_where
delete_where-matching table p q =
    (omega (arith, erase_if_length p table.rows), matching-erase_if p q table.rows)

-- The rows before the first one that a test holds of, and the rows from there on.
unfoldable pub until : (Row → Bool) → List Row → List Row
until t [] = []
until t (r ∷ rs) = let rest = until t rs in if t r then [] else r ∷ rest

unfoldable pub from_first : (Row → Bool) → List Row → List Row
from_first t [] = []
from_first t (r ∷ rs) = let rest = from_first t rs in if t r then r ∷ rs else rest

-- A row that an update sets at an index that the row has not.
abbrev pub too_short : (Row → Bool) → ℕ → Row → Bool
too_short p index r = p r && not (ltb index (length r.values))

abbrev pub with_value : ℕ → Value → Row → Row
with_value index v r = record { values = set r.values index v }

abbrev pub is_empty_rows : List Row → Bool
is_empty_rows [] = true
is_empty_rows (r ∷ rs) = false

update_rows-map :
    (p : Row → Bool) (index : ℕ) (v : Value) (rows : List Row)
    → ((update_rows p index v rows).0
        ≡ map (λ r. if p r then with_value index v r else r) (until (too_short p index) rows)
          ++ from_first (too_short p index) rows)
      × ((update_rows p index v rows).1 ≡ (
          if is_empty_rows (from_first (too_short p index) rows)
          then some (matching p rows)
          else none))
unfolding update_rows matching until from_first set_at
update_rows-map p index v [] = (refl, refl)
update_rows-map p index v (r ∷ rs) = ground (arith, update_rows-map p index v rs)

-- An update goes over the rows up to the first one that the predicate holds of and that has no value at
-- the index: there it sets the value where the predicate holds, and keeps the other rows and the order. The
-- rows from that one on stay, and the update ends in an exception; if there is none, it answers how many
-- rows the predicate holds of.
pub update_where-map :
    (table : InMemoryTable) (p : Row → Bool) (index : ℕ) (v : Value)
    → ((update_where table p index v).0.rows
        ≡ map (λ r. if p r then with_value index v r else r) (until (too_short p index) table.rows)
          ++ from_first (too_short p index) table.rows)
      × ((update_where table p index v).1 ≡ (
          if is_empty_rows (from_first (too_short p index) table.rows)
          then some (matching p table.rows)
          else none))
unfolding update_where
update_where-map table p index v = update_rows-map p index v table.rows

Fits-set :
    (columns : List ColumnSchema) (values : List Value) (index : ℕ) (v : Value) (c : ColumnSchema)
    → get_elem? columns index ≡ some c
    → Takes c v
    → Fits columns values
    → Fits columns (set values index v)
Fits-set [] values index v c e t h = absurd (ground arith)
Fits-set (d ∷ columns) [] index v c e t h = absurd h
Fits-set (d ∷ columns) (w ∷ values) zero v c e t h =
    let same : c ≡ d = ground arith in ((h.0.0, subst (λ k. Takes k v) same t), h.1)
Fits-set (d ∷ columns) (w ∷ values) (suc index) v c e t h =
    (h.0, Fits-set columns values index v c e t h.1)

Fits-inside :
    (columns : List ColumnSchema) (values : List Value) (index : ℕ) (c : ColumnSchema)
    → get_elem? columns index ≡ some c
    → Fits columns values
    → index < length values
Fits-inside [] values index c e h = absurd (ground arith)
Fits-inside (d ∷ columns) [] index c e h = absurd h
Fits-inside (d ∷ columns) (w ∷ values) zero c e h = omega arith
Fits-inside (d ∷ columns) (w ∷ values) (suc index) c e h =
    omega (arith, Fits-inside columns values index c e h.1)

set_at_inside :
    (r : Row) (index : ℕ) (v : Value)
    → index < length r.values
    → set_at r index v ≡ some (with_value index v r)
unfolding set_at
set_at_inside r index v h = ground arith

update_rows-Fits :
    (columns : List ColumnSchema) (rows : List Row) (p : Row → Bool) (index : ℕ) (v : Value)
    (c : ColumnSchema)
    → get_elem? columns index ≡ some c
    → Takes c v
    → All (λ row. Fits columns row.values) rows
    → All (λ row. Fits columns row.values) (update_rows p index v rows).0
      × (is_some (update_rows p index v rows).1 ≡ true)
unfolding update_rows
update_rows-Fits columns [] p index v c e t h = (tt, refl)
update_rows-Fits columns (r ∷ rs) p index v c e t (a, h) =
    let (rest, answered) = update_rows-Fits columns rs p index v c e t h in
    let inside = set_at_inside r index v (Fits-inside columns r.values index c e a) in
    elim (Bool-cases (p r)) [
      | inr miss ↦ rw (miss, update_rows) ((a, rest), answered)
      | inl hit ↦ elim (Option-cases (update_rows p index v rs).1) [
        | inl thrown ↦ absurd (ground arith)
        | inr (n, counted) ↦
            rw (hit, update_rows)
              (rw inside (rw counted ((Fits-set columns r.values index v c e t a, rest), refl)))
      ]
    ]

-- An update of a column with a value that the column takes does not end in an exception, and leaves rows
-- that fit the schema.
pub update_where-Fits :
    (table : InMemoryTable) (p : Row → Bool) (index : ℕ) (v : Value) (c : ColumnSchema)
    → get_elem? table.schema.columns index ≡ some c
    → Takes c v
    → All (λ row. Fits table.schema.columns row.values) table.rows
    → All (λ row. Fits table.schema.columns row.values) (update_where table p index v).0.rows
      × (is_some (update_where table p index v).1 ≡ true)
unfolding update_where
update_where-Fits table p index v c e t h =
    update_rows-Fits table.schema.columns table.rows p index v c e t h

clash_at :
    (columns : List ColumnSchema) (start index : ℕ) (old new : Row) (c : ColumnSchema)
    → get_elem? columns index ≡ some c
    → keyed c ≡ true
    → is_null_at (at new (start + index)) ≡ false
    → same_value (at old (start + index)) (at new (start + index)) ≡ true
    → ¬ NoClash columns start old new
clash_at [] start index old new c e key full same h = absurd (ground arith)
clash_at (d ∷ columns) start zero old new c e key full same h =
    let full' = rw add-zero at full in
    let same' = rw add-zero at same in
    let column : d ≡ c = ground arith in ground (arith, h.0 (rw column key) full')
clash_at (d ∷ columns) start (suc index) old new c e key full same h =
    let moved : start + suc index ≡ start + 1 + index = omega arith in
    clash_at columns (start + 1) index old new c e key (rw (← moved) full) (rw (← moved) same) h.1

at-with_value :
    (r : Row) (index : ℕ) (v : Value)
    → index < length r.values
    → at (with_value index v r) index ≡ some v
unfolding at
at-with_value r index v h = get_elem?-set_self r.values index v h

-- An update does not keep the keys distinct. Where the predicate holds of the first two rows of a table, and
-- both have a value at the index of a PRIMARY KEY or UNIQUE column, then after setting that column to a
-- value that is not NULL and equals itself both rows hold this value, and the table is no longer one
-- with distinct keys.
pub update_where-duplicates :
    (table : InMemoryTable) (p : Row → Bool) (index : ℕ) (v : Value) (c : ColumnSchema) (r s : Row)
    (rest : List Row)
    → get_elem? table.schema.columns index ≡ some c
    → keyed c ≡ true
    → is_null v ≡ false
    → value_eq v v ≡ true
    → table.rows ≡ r ∷ s ∷ rest
    → p r ≡ true
    → p s ≡ true
    → index < length r.values
    → index < length s.values
    → (r' : Row) × (s' : Row) × (rest' : List Row) × ((update_where table p index v).0.rows
        ≡ r' ∷ s' ∷ rest')
      × (at r' index ≡ some v)
      × (at s' index ≡ some v)
      × ¬ IsTable (update_where table p index v).0
unfolding update_where update_rows is_null_at same_value
update_where-duplicates table p index v c r s rest e key full same rows hr hs lr ls =
    let set_r = set_at_inside r index v lr in
    let set_s = set_at_inside s index v ls in
    let at_r = at-with_value r index v lr in
    let at_s = at-with_value s index v ls in
    let rest' = (update_rows p index v rest).0 in
    let after : (update_where table p index v).0.rows
        ≡ with_value index v r ∷ with_value index v s ∷ rest' =
      rw (rows, update_where) (rw (hr, update_rows) (rw (set_r, hs, set_s) refl)) in
    (
      with_value index v r,
      with_value index v s,
      rest',
      after,
      at_r,
      at_s,
      λ t.
          let u = rw after at t.unique in
          clash_at table.schema.columns 0 index (with_value index v r) (with_value index v s) c e
            key (rw (zero-add, at_s) full) (rw (zero-add, at_r, at_s) same) u.0.0,
    )
