-- ===== src/Execution/Operators.antt =====
-- src/execution/operators.cpp: scan, filter and projection. A `RowSet` is a list of references to rows
-- that the operators only read: a list of the rows.
use curiodb.Prelude.{ℕ, Bool, List, [], ◌∷◌, Option, none, some, if◌then◌else◌}
use curiodb.Types.{to_string}
use curiodb.Storage.Row.{Row, at}
use curiodb.Storage.Memory.Defs.{InMemoryTable}

unfoldable pub scan_rows : InMemoryTable → List Row
scan_rows table = table.rows

unfoldable pub filter_rows : List Row → (Row → Bool) → List Row
filter_rows [] predicate = []
filter_rows (row ∷ input) predicate =
    let rows = filter_rows input predicate in if predicate row then row ∷ rows else rows

-- The loop over the columns of one row; `none` is a read outside the row.
unfoldable pub project_row : (ℕ → Option (List ℕ)) → Row → List ℕ → Option (List (List ℕ))
project_row print_double row [] = some []
project_row print_double row (index ∷ column_indexes) = elim (at row index) [
  | none ↦ none
  | some value ↦ elim (project_row print_double row column_indexes) [
    | none ↦ none
    | some values ↦ some (to_string print_double value ∷ values)
  ]
]

unfoldable pub project_rows :
    (ℕ → Option (List ℕ)) → List Row → List ℕ → Option (List (List (List ℕ)))
project_rows print_double [] column_indexes = some []
project_rows print_double (row ∷ input) column_indexes =
    elim (project_row print_double row column_indexes) [
      | none ↦ none
      | some values ↦ elim (project_rows print_double input column_indexes) [
        | none ↦ none
        | some projected_rows ↦ some (values ∷ projected_rows)
      ]
    ]
