-- ===== src/Execution/Executor/Keeps.antt =====
-- src/execution/statement_executor.cpp: what UPDATE checks is enough for the rows to fit.
use curiodb.Prelude.{
  ℕ, zero, suc, ◌<◌, ◌≡◌, is_some, true, inl, inr, refl, ap, sym, ◌∙◌, Bool, List, [], ◌∷◌, some,
  arith, Option-cases, get_elem?, set, map, length, get_elem?-set_self,
}
use curiodb.Prelude.Outcome.{ok, Outcome-cases}
use curiodb.Types.{Value}
use curiodb.Catalog.Schema.{ColumnSchema, TableSchema}
use curiodb.Storage.Row.{Row}
use curiodb.Storage.Validation.Defs.{validate_row}
use curiodb.Storage.Validation.Fits.{Fits, Takes, validate_row-Fits}
use curiodb.Storage.Memory.Defs
use curiodb.Storage.Memory.Defs.{InMemoryTable, InMemoryStorage}
use curiodb.Storage.Memory.Rows.{update_where-Fits}
use curiodb.Sql.Ast.{UpdateStatement}
use curiodb.Execution.Planner.Errors.{find_column-at}
use curiodb.Execution.Executor.Copies.{
  executor_value, executor_column, executor_normalize, executor_column-find_column,
}
use curiodb.Execution.Executor.Statements.{
  validation_row, sample_value, clause_predicate, bound_update,
}
use curiodb.Execution.Executor.Sound.{IsFit}

Fits-Takes :
    (columns : List ColumnSchema) (values : List Value) (index : ℕ) (c : ColumnSchema) (v : Value)
    → Fits columns values
    → get_elem? columns index ≡ some c
    → get_elem? values index ≡ some v
    → Takes c v
Fits-Takes [] values index c v h e e' = absurd (ground arith)
Fits-Takes (d ∷ columns) [] index c v h e e' = absurd h
Fits-Takes (d ∷ columns) (w ∷ values) zero c v h e e' =
    let same : d ≡ c = ground arith in
    let same' : w ≡ v = ground arith in rw (← same, ← same') h.0.1
Fits-Takes (d ∷ columns) (w ∷ values) (suc index) c v h e e' =
    Fits-Takes columns values index c v h.1 e e'

index-lt-length :
    {A : Type 0} (xs : List A) (index : ℕ) (x : A) → get_elem? xs index ≡ some x → index < length xs
index-lt-length [] index x e = absurd (ground arith)
index-lt-length (y ∷ xs) zero x e = omega arith
index-lt-length (y ∷ xs) (suc index) x e = omega (arith, index-lt-length xs index x e)

length-map : {A B : Type 0} (f : A → B) (xs : List A) → length (map f xs) ≡ length xs
length-map f [] = refl
length-map f (x ∷ xs) = ap suc (length-map f xs)

-- What UPDATE has checked: its column takes the value.
pub bound_update-Takes :
    (schema : TableSchema) (statement : UpdateStatement) (p : Row → Bool) (index : ℕ)
    → bound_update schema statement ≡ ok (p, index)
    → (c : ColumnSchema) × (get_elem? schema.columns index ≡ some c)
      × Takes c (executor_value statement.value.value)
unfolding bound_update validation_row
bound_update-Takes schema statement p index e =
    elim (Option-cases
      (executor_column (executor_normalize statement.column_name) schema.columns)) [
        | inl missing ↦ absurd (ground arith)
        | inr ((i, c), found) ↦
            let v = executor_value statement.value.value in
            let samples = map (λ (c : ColumnSchema). sample_value c.type.kind) schema.columns in
            let row : Row = record { values = set samples i v } in
            let (there, _) =
              find_column-at _ schema.columns i c
                (sym (executor_column-find_column _ schema.columns) ∙ found) in
            elim (Option-cases (validate_row schema row)) [
              | inr (_, invalid) ↦ absurd (ground arith)
              | inl valid ↦
                  elim (Outcome-cases (clause_predicate schema.columns statement.where_clause)) [
                    | inr (_, failed) ↦ absurd (ground arith)
                    | inl (q, bound) ↦
                        let same : i ≡ index = ground arith in
                        let inside : i < length samples = omega (
                          arith,
                          index-lt-length schema.columns i c there,
                          length-map (λ (c : ColumnSchema). sample_value c.type.kind)
                              schema.columns,
                        ) in
                        rw (← same) (
                          c,
                          there,
                          Fits-Takes schema.columns (set samples i v) i c v
                              ((validate_row-Fits schema row).0 valid) there
                              (get_elem?-set_self samples i v inside),
                        )
                  ]
            ]
      ]

pub update_where-IsFit :
    (table : InMemoryTable) (schema : TableSchema) (p : Row → Bool) (index : ℕ) (v : Value)
    (c : ColumnSchema)
    → table.schema ≡ schema
    → get_elem? schema.columns index ≡ some c
    → Takes c v
    → IsFit table
    → (((Defs.update_where table p index v).0.schema ≡ table.schema)
        × IsFit (Defs.update_where table p index v).0
        × (is_some (Defs.update_where table p index v).1 ≡ true))
unfolding Defs.update_where
update_where-IsFit table schema p index v c same there takes fit =
    let (fits, answered) =
      update_where-Fits table p index v c
        (ap (λ (s : TableSchema). get_elem? s.columns index) same ∙ there) takes fit in
    (refl, fits, answered)
