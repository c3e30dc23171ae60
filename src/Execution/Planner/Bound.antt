-- ===== src/Execution/Planner/Bound.antt =====
-- src/execution/planner.cpp: which WHERE clauses can be bound.
use curiodb.Prelude.{
  ℕ, ◌≡◌, inl, inr, refl, Bool, true, false, ◌&&◌, List, [], ◌∷◌, Option, none, some, if◌then◌else◌,
  arith, Option-cases,
}
use curiodb.Prelude.Text.{text_eq}
use curiodb.Prelude.Outcome.{Outcome, ok, err}
use curiodb.Types.{DataTypeKind, is_null, value_type, kind_eq}
use curiodb.Catalog.Schema.{ColumnSchema, normalize, find_column}
use curiodb.Sql.Ast.{LiteralValue, ComparisonExpression, Expression}
use curiodb.Execution.Planner.Defs.{value_from_literal, bind_comparison, bind_expression}

-- The type of the first column of a name.
unfoldable pub kind_of : List ℕ → List ColumnSchema → Option DataTypeKind
kind_of name [] = none
kind_of name (column ∷ columns) =
    let rest = kind_of name columns in
    if text_eq (normalize column.name) name then some column.type.kind else rest

-- A literal is NULL, or of the type.
unfoldable pub is_of_kind : DataTypeKind → LiteralValue → Bool
is_of_kind kind LiteralValue.null = true
is_of_kind kind (LiteralValue.integer n) = kind_eq DataTypeKind.integer kind
is_of_kind kind (LiteralValue.double d) = kind_eq DataTypeKind.double kind
is_of_kind kind (LiteralValue.string s) = kind_eq DataTypeKind.varchar kind

abbrev pub is_of_column : Option DataTypeKind → LiteralValue → Bool
is_of_column none v = false
is_of_column (some kind) v = is_of_kind kind v

-- Every comparison names a column, and its literal is NULL or of the column's type.
unfoldable pub is_bound : List ColumnSchema → Expression → Bool
unfolding kind_of is_of_kind
is_bound columns (Expression.comparison c) =
    is_of_column (kind_of (normalize c.column_name) columns) c.value.value
is_bound columns Expression.null_logical = false
is_bound columns (Expression.logical operation left right location) =
    is_bound columns left && is_bound columns right

unfoldable pub is_clause : List ColumnSchema → Option Expression → Bool
is_clause columns none = true
is_clause columns (some expression) = is_bound columns expression

unfoldable pub is_ok {ℓ κ} : {E : Type ℓ} {A : Type κ} → Outcome E A → Bool
is_ok (err e) = false
is_ok (ok a) = true

pub find_column-kind_of :
    (name : List ℕ) (columns : List ColumnSchema) (index : ℕ) (column : ColumnSchema)
    → find_column name columns ≡ some (index, column)
    → kind_of name columns ≡ some column.type.kind
unfolding find_column kind_of
find_column-kind_of name [] index column e = absurd (ground arith)
find_column-kind_of name (c ∷ columns) index column e =
    elim (Option-cases (find_column name columns)) [
      | inl missing ↦ ground arith
      | inr ((i, d), found) ↦ ground (arith, find_column-kind_of name columns i d found)
    ]

pub find_column-none :
    (name : List ℕ) (columns : List ColumnSchema)
    → find_column name columns ≡ none
    → kind_of name columns ≡ none
unfolding find_column kind_of
find_column-none name [] e = refl
find_column-none name (c ∷ columns) e = elim (Option-cases (find_column name columns)) [
  | inl missing ↦ ground (arith, find_column-none name columns missing)
  | inr ((i, d), found) ↦ absurd (ground arith)
]

bind_comparison-is_ok :
    (print_double : ℕ → Option (List ℕ)) (columns : List ColumnSchema) (c : ComparisonExpression)
    → is_ok (bind_comparison print_double columns c) ≡ is_bound columns (Expression.comparison c)
unfolding bind_comparison is_bound is_ok is_of_kind value_from_literal is_null value_type
bind_comparison-is_ok print_double columns c =
    elim (Option-cases (find_column (normalize c.column_name) columns)) [
      | inl missing ↦ ground (arith, find_column-none _ columns missing)
      | inr ((i, column), found) ↦
          rw (found, bind_comparison, find_column-kind_of _ columns i column found) (ground arith)
    ]

pub bind_expression-is_ok :
    (print_double : ℕ → Option (List ℕ)) (columns : List ColumnSchema) (e : Expression)
    → is_ok (bind_expression print_double columns e) ≡ is_bound columns e
unfolding bind_expression is_bound is_ok
bind_expression-is_ok print_double columns (Expression.comparison c) =
    bind_comparison-is_ok print_double columns c
bind_expression-is_ok print_double columns Expression.null_logical = refl
bind_expression-is_ok print_double columns (Expression.logical operation left right location) =
    ground (
      arith,
      bind_expression-is_ok print_double columns left,
      bind_expression-is_ok print_double columns right,
    )
