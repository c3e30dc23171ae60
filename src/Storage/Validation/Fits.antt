-- ===== src/Storage/Validation/Fits.antt =====
-- src/storage/row_validation.cpp: the rows that pass are those that fit the schema.
use curiodb.Prelude.{
  ℕ, ◌+◌, ◌<◌, ◌≤◌, ◌≡◌, ◌↔◌, inl, inr, refl, Bool, true, false, not, ◌&&◌, ◌||◌, List, [], ◌∷◌,
  Option, none, some, length, is_some, arith, ap, suc, ==_iff, Option-cases,
}
use native.Mathlib.Decide.{ℕ_discrete}
use curiodb.Types.{DataTypeKind, Value, is_null, value_type, kind_eq, value_or_zero}
use curiodb.Catalog.Schema.{ColumnSchema, TableSchema}
use curiodb.Storage.Row.{Row, size}
use curiodb.Storage.Validation.Defs.{check_value, check_values, validate_row, text_size, has_length}

-- A type's own definition: a text has a length that is not zero, a number has none.
abbrev pub IsDefinite : DataTypeKind → Option ℕ → Type 0
IsDefinite DataTypeKind.integer length = length ≡ none
IsDefinite DataTypeKind.double length = length ≡ none
IsDefinite DataTypeKind.varchar none = ⊥
IsDefinite DataTypeKind.varchar (some n) = 0 < n

-- The values that a column takes: its own type's, a text of at most its length, and NULL unless the
-- column is NOT NULL or the primary key.
abbrev pub Takes : ColumnSchema → Value → Type 0
Takes c Value.null = (c.not_null ≡ false) × (c.primary_key ≡ false)
Takes c (Value.integer n) = c.type.kind ≡ DataTypeKind.integer
Takes c (Value.double d) = c.type.kind ≡ DataTypeKind.double
Takes c (Value.varchar s) =
    (c.type.kind ≡ DataTypeKind.varchar) × (length s ≤ value_or_zero c.type.length)

abbrev pub Fits : List ColumnSchema → List Value → Type 0
Fits [] [] = Unit
Fits [] (v ∷ vs) = ⊥
Fits (c ∷ cs) [] = ⊥
Fits (c ∷ cs) (v ∷ vs) = (IsDefinite c.type.kind c.type.length × Takes c v) × Fits cs vs

-- The test of the type's definition.
abbrev is_definite : DataTypeKind → Option ℕ → Bool
is_definite kind length =
    let varchar = kind_eq kind DataTypeKind.varchar in
    not ((varchar && not (has_length length)) || (not varchar && is_some length))

is_definite_iff :
    (kind : DataTypeKind) (length : Option ℕ)
    → (is_definite kind length ≡ true) ↔ IsDefinite kind length
unfolding kind_eq has_length
is_definite_iff DataTypeKind.integer none = ground arith
is_definite_iff DataTypeKind.integer (some n) = ground arith
is_definite_iff DataTypeKind.double none = ground arith
is_definite_iff DataTypeKind.double (some n) = ground arith
is_definite_iff DataTypeKind.varchar none = ground arith
is_definite_iff DataTypeKind.varchar (some n) = ground arith

kind_eq_iff : (a b : DataTypeKind) → (kind_eq a b ≡ true) ↔ (a ≡ b)
unfolding kind_eq
kind_eq_iff DataTypeKind.integer b = ground arith
kind_eq_iff DataTypeKind.double b = ground arith
kind_eq_iff DataTypeKind.varchar b = ground arith

check_value-Takes :
    (c : ColumnSchema) (index : ℕ) (v : Value)
    → (check_value c index v ≡ none) ↔ (IsDefinite c.type.kind c.type.length × Takes c v)
unfolding check_value is_null value_type text_size value_or_zero
check_value-Takes c index Value.null = ground (arith, is_definite_iff c.type.kind c.type.length)
check_value-Takes c index (Value.integer n) =
    ground (arith, is_definite_iff c.type.kind c.type.length)
check_value-Takes c index (Value.double d) =
    ground (arith, is_definite_iff c.type.kind c.type.length)
check_value-Takes c index (Value.varchar s) =
    ground (arith, is_definite_iff c.type.kind c.type.length)

check_values-Fits :
    (cs : List ColumnSchema) (vs : List Value) (index : ℕ)
    → length vs ≡ length cs
    → (check_values cs vs index ≡ none) ↔ Fits cs vs
unfolding check_values
check_values-Fits [] [] index size = (λ e. tt, λ h. refl)
check_values-Fits [] (v ∷ vs) index size = absurd (omega arith)
check_values-Fits (c ∷ cs) [] index size = absurd (omega arith)
check_values-Fits (c ∷ cs) (v ∷ vs) index size =
    let here = check_value-Takes c index v in
    let rest = check_values-Fits cs vs (index + 1) (omega arith) in
    (
      λ e. elim (Option-cases (check_value c index v)) [
        | inl passed ↦ (here.0 passed, rest.0 (ground arith))
        | inr (_, failed) ↦ absurd (ground arith)
      ],
      λ (h, hs). ground (arith, here.1 h, rest.1 hs),
    )

pub Fits-length : (cs : List ColumnSchema) (vs : List Value) → Fits cs vs → length vs ≡ length cs
Fits-length [] [] h = refl
Fits-length [] (v ∷ vs) h = absurd h
Fits-length (c ∷ cs) [] h = absurd h
Fits-length (c ∷ cs) (v ∷ vs) (h, hs) = ap suc (Fits-length cs vs hs)

-- A row passes exactly when it has a value for each column and each column takes its value: a number
-- for a number's column, a text no longer than the column's length, NULL where the column is neither
-- NOT NULL nor the primary key, and the column's type has a length that is not zero exactly for texts.
pub validate_row-Fits :
    (schema : TableSchema) (row : Row)
    → (validate_row schema row ≡ none) ↔ Fits schema.columns row.values
unfolding validate_row
validate_row-Fits schema row = elim (ℕ_discrete (length row.values) (length schema.columns)) [
  | yes same ↦
      let loop = check_values-Fits schema.columns row.values 0 same in
      let test = (==_iff _ _).1 same in rw test (loop.0, loop.1)
  | no other ↦
      (λ e. absurd (ground arith), λ h. absurd (other (Fits-length schema.columns row.values h)))
]
