-- ===== src/Catalog/WellFormed.antt =====
-- src/catalog/catalog.cpp: what holds of a catalog after every call.
use curiodb.Prelude.{
  ℕ, ◌+◌, ◌≤◌, ◌≡◌, ◌≢◌, ◌↔◌, inl, inr, refl, false, List, [], ◌∷◌, Option, none, some,
  if◌then◌else◌, All, arith, Option-cases,
}
use curiodb.Prelude.Text.{text_eq_iff}
use curiodb.Prelude.Dict.{Dict, lookup, contains, emplace, replace, Distinct}
use curiodb.Prelude.Outcome.{ok, Outcome-cases}
use curiodb.Catalog.Schema.{ColumnSchema, TableSchema, normalize}
use curiodb.Catalog.Defs.{
  Catalog, Database, is_empty, holds, check_columns, selected_database, database_at,
  create_table_in,
}

abbrev pub IsNamed : ColumnSchema → Type 0
IsNamed c = c.name ≢ []

abbrev Differs : List ℕ → ColumnSchema → Type 0
Differs n c = n ≢ normalize c.name

-- No two columns share a name, in whatever case it is written.
abbrev pub DistinctNames : List ColumnSchema → Type 0
DistinctNames [] = Unit
DistinctNames (c ∷ cs) = All (Differs (normalize c.name)) cs × DistinctNames cs

unfoldable pub primary_keys : List ColumnSchema → ℕ
primary_keys [] = 0
primary_keys (c ∷ cs) = (if c.primary_key then 1 else 0) + primary_keys cs

-- The columns of a table.
pub record IsSchema (columns : List ColumnSchema) : Type 0 where
  pub some_column : columns ≢ []
  pub named : All IsNamed columns
  pub distinct : DistinctNames columns
  pub one_key : primary_keys columns ≤ 1

pub is_empty_iff : {A : Type 0} (xs : List A) → (is_empty xs ≡ false) ↔ (xs ≢ [])
is_empty_iff [] = ground arith
is_empty_iff (x ∷ xs) = ground arith

abbrev NotSeen : List (List ℕ) → ColumnSchema → Type 0
NotSeen seen c = holds (normalize c.name) seen ≡ false

not_seen : (cs : List ColumnSchema) → All (NotSeen []) cs
unfolding holds
not_seen [] = tt
not_seen (c ∷ cs) = (refl, not_seen cs)

seen_more :
    (n : List ℕ) (seen : List (List ℕ)) (cs : List ColumnSchema)
    → All (NotSeen (n ∷ seen)) cs ↔ (All (Differs n) cs × All (NotSeen seen) cs)
unfolding holds
seen_more n seen [] = (λ h. (tt, tt), λ h. tt)
seen_more n seen (c ∷ cs) = (
  λ h. ground (arith, text_eq_iff n (normalize c.name), (seen_more n seen cs).0),
  λ h. ground (arith, text_eq_iff n (normalize c.name), (seen_more n seen cs).1),
)

-- The loop over the columns passes exactly the columns with names of their own, and counts their
-- primary keys.
check_columns-eq-ok :
    (cs : List ColumnSchema) (seen : List (List ℕ)) (keys n : ℕ)
    → (check_columns cs seen keys ≡ ok n)
      ↔ (All IsNamed cs × DistinctNames cs × All (NotSeen seen) cs × (n ≡ keys + primary_keys cs))
unfolding check_columns primary_keys
check_columns-eq-ok [] seen keys n = (λ e. ground arith, λ h. ground arith)
check_columns-eq-ok (c ∷ cs) seen keys n =
    let ih =
      check_columns-eq-ok cs (normalize c.name ∷ seen) (if c.primary_key then keys + 1 else keys)
        n in
    let more = seen_more (normalize c.name) seen cs in
    (
      λ e. ground (arith, ih.0, more.0, is_empty_iff c.name),
      λ h. ground (arith, ih.1, more.1, is_empty_iff c.name),
    )

abbrev pub IsTable : List ℕ × TableSchema → Type 0
IsTable entry = (entry.0 ≡ normalize entry.1.name) × (entry.1.name ≢ []) × IsSchema entry.1.columns

abbrev pub IsDatabase : List ℕ × Database → Type 0
IsDatabase entry =
    (entry.0 ≡ normalize entry.1.name)
    × (entry.1.name ≢ [])
    × Distinct entry.1.tables
    × All IsTable entry.1.tables

-- The selected database, if one is selected, exists.
abbrev pub IsSelected : Dict Database → Option (List ℕ) → Type 0
IsSelected databases none = Unit
IsSelected databases (some key) = (d : Database) × (lookup key databases ≡ some d)

pub record IsCatalog (c : Catalog) : Type 0 where
  pub distinct : Distinct c.databases
  pub databases : All IsDatabase c.databases
  pub selected : IsSelected c.databases c.active_database_key

database_at-lookup :
    (databases : Dict Database) (active : Option (List ℕ)) (key : List ℕ) (d : Database)
    → database_at databases active ≡ some (key, d)
    → lookup key databases ≡ some d
unfolding database_at
database_at-lookup databases none key d e = absurd (ground arith)
database_at-lookup databases (some k) key d e = elim (Option-cases (lookup k databases)) [
  | inl missing ↦ absurd (ground arith)
  | inr (d', found) ↦ ground arith
]

-- The selected database is the one under its key.
pub selected_database-lookup :
    (c : Catalog) (key : List ℕ) (d : Database)
    → selected_database c ≡ some (key, d)
    → lookup key c.databases ≡ some d
unfolding selected_database
selected_database-lookup c key d e = database_at-lookup c.databases c.active_database_key key d e

-- The catalog with one more table in the database under `key`.
abbrev pub with_table : Catalog → List ℕ → Database → List ℕ → List ColumnSchema → Catalog
with_table c key d name columns =
    let schema : TableSchema = record { name = name; columns = columns } in
    let d' = record d { tables = emplace (normalize name) schema d.tables } in
    record c { databases = replace key d' c.databases }

module _ (c : Catalog) (key : List ℕ) (d : Database) (name : List ℕ)
    (columns : List ColumnSchema) where
  -- What a `CREATE TABLE` that succeeds found and did.
  pub create_table_in_inversion :
      (c' : Catalog)
      → create_table_in c key d name columns ≡ ok c'
      → (name ≢ [])
        × (lookup (normalize name) d.tables ≡ none)
        × IsSchema columns
        × (c' ≡ with_table c key d name columns)
  unfolding create_table_in contains
  create_table_in_inversion c' e = elim (Outcome-cases (check_columns columns [] 0)) [
    | inr (_, failed) ↦ absurd (ground arith)
    | inl (n, counted) ↦
        let (named, distinct, _, keys) = (check_columns-eq-ok columns [] 0 n).0 counted in
        (
          ground (arith, is_empty_iff name),
          ground arith,
          record {
            some_column = ground (arith, is_empty_iff columns);
            named = named;
            distinct = distinct;
            one_key = ground arith;
          },
          ground arith,
        )
  ]

  pub create_table_in-IsSchema :
      name ≢ []
      → lookup (normalize name) d.tables ≡ none
      → IsSchema columns
      → create_table_in c key d name columns ≡ ok (with_table c key d name columns)
  unfolding create_table_in contains
  create_table_in-IsSchema named fresh s =
      let counted =
        (check_columns-eq-ok columns [] 0 (primary_keys columns)).1
          (s.named, s.distinct, not_seen columns, omega arith) in
      ground (arith, (is_empty_iff name).1 named, (is_empty_iff columns).1 s.some_column, s.one_key)
