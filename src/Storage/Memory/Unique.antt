-- ===== src/Storage/Memory/Unique.antt =====
-- src/storage/in_memory_table.cpp: the rows fit the schema, and the keys of two rows differ.
use curiodb.Prelude.{
  ℕ, ◌+◌, ◌≡◌, ◌↔◌, inl, inr, refl, Bool, true, false, ◌||◌, List, [], ◌∷◌, ◌++◌, Option, none, All,
  arith, Option-cases, Bool-cases, All-append,
}
use curiodb.Types.{Value}
use curiodb.Catalog.Schema.{ColumnSchema}
use curiodb.Storage.Row.{Row, at}
use curiodb.Storage.Validation.Defs.{validate_row}
use curiodb.Storage.Validation.Fits.{Fits, validate_row-Fits}
use curiodb.Storage.Memory.Defs.{
  InMemoryTable, same_value, holds_value, is_null_at, check_unique, insert, erase_if, delete_where,
}

abbrev pub keyed : ColumnSchema → Bool
keyed c = c.primary_key || c.unique

-- In the columns from `index` on, a later row's key is no earlier row's; NULL is no key.
abbrev pub NoClash : List ColumnSchema → ℕ → Row → Row → Type 0
NoClash [] index old new = Unit
NoClash (c ∷ cs) index old new =
    (keyed c ≡ true
      → is_null_at (at new index) ≡ false
      → same_value (at old index) (at new index) ≡ false)
    × NoClash cs (index + 1) old new

abbrev pub AllUnique : List ColumnSchema → List Row → Type 0
AllUnique columns [] = Unit
AllUnique columns (r ∷ rs) = All (NoClash columns 0 r) rs × AllUnique columns rs

pub record IsTable (table : InMemoryTable) : Type 0 where
  pub fits : All (λ row. Fits table.schema.columns row.values) table.rows
  pub unique : AllUnique table.schema.columns table.rows

holds_value-All :
    (rows : List Row) (index : ℕ) (v : Option Value)
    → (holds_value rows index v ≡ false) ↔ All (λ old. same_value (at old index) v ≡ false) rows
unfolding holds_value
holds_value-All [] index v = (λ e. tt, λ h. refl)
holds_value-All (row ∷ rows) index v =
    let ih = holds_value-All rows index v in (λ e. ground (arith, ih.0), λ h. ground (arith, ih.1))

clash_head :
    (c : ColumnSchema) (cs : List ColumnSchema) (index : ℕ) (rows : List Row) (new : Row)
    → (keyed c ≡ true
        → is_null_at (at new index) ≡ false
        → All (λ old. same_value (at old index) (at new index) ≡ false) rows)
    → All (λ old. NoClash cs (index + 1) old new) rows
    → All (λ old. NoClash (c ∷ cs) index old new) rows
clash_head c cs index [] new h k = tt
clash_head c cs index (row ∷ rows) new h (b, k) =
    ((λ key full. (h key full).0, b), clash_head c cs index rows new (λ key full. (h key full).1) k)

check_unique-NoClash :
    (columns : List ColumnSchema) (index : ℕ) (rows : List Row) (new : Row)
    → check_unique columns index rows new ≡ none
    → All (λ old. NoClash columns index old new) rows
unfolding check_unique
check_unique-NoClash [] index rows new e = nothing rows
  where
    nothing : (rs : List Row) → All (λ old. Unit {0}) rs
    nothing [] = tt
    nothing (r ∷ rs) = (tt, nothing rs)
check_unique-NoClash (c ∷ cs) index rows new e =
    clash_head c cs index rows new
      (λ key full. (holds_value-All rows index (at new index)).0 (ground arith))
      (check_unique-NoClash cs (index + 1) rows new (ground arith))

AllUnique-snoc :
    (columns : List ColumnSchema) (rows : List Row) (new : Row)
    → AllUnique columns rows
    → All (λ old. NoClash columns 0 old new) rows
    → AllUnique columns (rows ++ new ∷ [])
AllUnique-snoc columns [] new u h = (tt, tt)
AllUnique-snoc columns (r ∷ rs) new (a, u) (b, h) =
    (All-append (NoClash columns 0 r) rs (new ∷ []) a (b, tt), AllUnique-snoc columns rs new u h)

-- An insertion, whether it succeeds or is refused, leaves a table whose rows fit its schema and whose
-- PRIMARY KEY and UNIQUE columns hold no value twice, NULL apart.
pub insert-IsTable :
    (table : InMemoryTable) (row : Row) → IsTable table → IsTable (insert table row).0
unfolding insert
insert-IsTable table row t = elim (Option-cases (validate_row table.schema row)) [
  | inr (e, refused) ↦ rw (refused, insert) t
  | inl fits ↦ elim (Option-cases (check_unique table.schema.columns 0 table.rows row)) [
    | inr (e, refused) ↦ rw (fits, insert) (rw refused t)
    | inl fresh ↦
        rw (fits, insert)
          (rw fresh (record {
            fits =
                All-append (λ r. Fits table.schema.columns r.values) table.rows (row ∷ []) t.fits
                  ((validate_row-Fits table.schema row).0 fits, tt);
            unique =
                AllUnique-snoc table.schema.columns table.rows row t.unique
                  (check_unique-NoClash table.schema.columns 0 table.rows row fresh);
          }))
  ]
]

pub erase_if-All :
    (P : Row → Type 0) (p : Row → Bool) (rows : List Row) → All P rows → All P (erase_if p rows)
unfolding erase_if
erase_if-All P p [] h = tt
erase_if-All P p (row ∷ rows) (a, h) = elim (Bool-cases (p row)) [
  | inl gone ↦ rw gone (erase_if-All P p rows h)
  | inr kept ↦ rw kept (a, erase_if-All P p rows h)
]

erase_if-AllUnique :
    (columns : List ColumnSchema) (p : Row → Bool) (rows : List Row)
    → AllUnique columns rows
    → AllUnique columns (erase_if p rows)
unfolding erase_if
erase_if-AllUnique columns p [] u = tt
erase_if-AllUnique columns p (row ∷ rows) (a, u) = elim (Bool-cases (p row)) [
  | inl gone ↦ rw gone (erase_if-AllUnique columns p rows u)
  | inr kept ↦
      rw kept (erase_if-All (NoClash columns 0 row) p rows a, erase_if-AllUnique columns p rows u)
]

-- A deletion keeps the rows valid and their keys distinct.
pub delete_where-IsTable :
    (table : InMemoryTable) (p : Row → Bool) → IsTable table → IsTable (delete_where table p).0
unfolding delete_where
delete_where-IsTable table p t = record {
  fits = erase_if-All (λ r. Fits table.schema.columns r.values) p table.rows t.fits;
  unique = erase_if-AllUnique table.schema.columns p table.rows t.unique;
}
