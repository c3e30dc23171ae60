-- ===== src/Sql/Parser/Clauses.antt =====
-- src/sql/parser.cpp: texts, types, constraints and numbers.
use curiodb.Prelude.{
  ℕ, zero, suc, ◌^◌, Bool, true, false, ◌&&◌, List, [], ◌∷◌, Option, none, some, if◌then◌else◌,
  ◌==◌, leb, ltb, length,
}
use Prim.Native.String.{String}
use curiodb.Prelude.Int.{ℤ, pos, negsuc}
use curiodb.Prelude.Text.{text}
use curiodb.Prelude.Outcome.{err}
use curiodb.Types.{DataType, DataTypeKind}
use curiodb.Sql.Token.{SourceLocation, TokenType, Token}
use curiodb.Sql.Ast.{ColumnDefinition, LiteralValue, Literal, ComparisonOperator}
use curiodb.Sql.Parser.Cursor.{
  Parse, out_of_rounds, ◌>>=◌, ◌>>◌, done, current, check, advance, match, report_error,
  report_found, consume, from_digits,
}

-- The loop between the quotes of a text that has both: of two quotes in a row the second is kept.
unfoldable pub unquote : List ℕ → List ℕ
unquote [] = []
unquote (c ∷ []) = []
unquote (c ∷ d ∷ []) = c ∷ []
unquote (c ∷ d ∷ e ∷ rest) =
    if c == 39 && d == 39 then d ∷ unquote (e ∷ rest) else c ∷ unquote (d ∷ e ∷ rest)

-- `none` is the exception of `reserve(lexeme.size() - 2)`, whose argument wraps for a lexeme of less than
-- two bytes.
unfoldable pub decode_sql_string : List ℕ → Option (List ℕ)
unfolding unquote
decode_sql_string [] = none
decode_sql_string (c ∷ []) = none
decode_sql_string (c ∷ d ∷ rest) = some (unquote (d ∷ rest))

-- The loop of the constraints, over those that are set: PRIMARY KEY, UNIQUE and NOT NULL.
unfoldable pub parse_constraints : ℕ → Bool → Bool → Bool → Parse (Bool × Bool × Bool)
unfolding check match advance consume current report_error
parse_constraints zero primary_key unique not_null = λ tokens. err out_of_rounds
parse_constraints (suc rounds) primary_key unique not_null = do
  primary ← match TokenType.primary
  if primary
      then (do
        token ← current
        if primary_key then report_error token (text "duplicate PRIMARY KEY constraint") else (do
          consume TokenType.key "expected KEY after PRIMARY"
          parse_constraints rounds true true true))
      else (do
        uniqueness ← match TokenType.unique
        if uniqueness
            then (do
              token ← current
              if unique
                  then report_error token (text "duplicate UNIQUE constraint")
                  else parse_constraints rounds primary_key true not_null)
            else (do
              negation ← match TokenType.not
              if negation
                  then (do
                    token ← current
                    if not_null
                        then report_error token (text "duplicate NOT NULL constraint")
                        else (do
                          consume TokenType.null "expected NULL after NOT"
                          parse_constraints rounds primary_key unique true))
                  else done (primary_key, unique, not_null)))

unfoldable pub parse_varchar_length : Token → Parse ℕ
unfolding report_error
parse_varchar_length token = elim (from_digits token.lexeme) [
  | none ↦ report_error token (text "VARCHAR length must be a positive integer")
  | some length ↦
      if leb 1 length && ltb length (2 ^ 64)
      then done length
      else report_error token (text "VARCHAR length must be a positive integer")
]

unfoldable pub parse_data_type : Parse DataType
unfolding match consume report_found parse_varchar_length
parse_data_type = do
  integer ← match TokenType.int
  if integer then done (record { kind = DataTypeKind.integer; length = none }) else (do
    double ← match TokenType.double
    if double then done (record { kind = DataTypeKind.double; length = none }) else (do
      varchar ← match TokenType.varchar
      if varchar
          then (do
            consume TokenType.left_paren "expected '(' after VARCHAR"
            length_token ← consume TokenType.integer_literal "expected VARCHAR length"
            size ← parse_varchar_length length_token
            consume TokenType.right_paren "expected ')' after VARCHAR length"
            done (record { kind = DataTypeKind.varchar; length = some size }))
          else report_found "expected INT, DOUBLE, or VARCHAR"))

unfoldable pub parse_column : Parse ColumnDefinition
unfolding consume parse_data_type parse_constraints
parse_column = do
  name ← consume TokenType.identifier "expected column name"
  type ← parse_data_type
  (primary_key, unique, not_null) ←
      λ tokens. parse_constraints (length tokens) false false false tokens
  done (record {
    name = name.lexeme;
    type = type;
    primary_key = primary_key;
    unique = unique;
    not_null = not_null;
    location = name.location;
  })

-- `std::from_chars` into an `int64_t`, of a text of digits after a minus sign or after none.
unfoldable pub signed_i64 : Bool → List ℕ → Option ℤ
unfolding from_digits
signed_i64 negative lexeme = elim (from_digits lexeme) [
  | none ↦ none
  | some zero ↦ some (pos 0)
  | some (suc n) ↦
      if negative
      then (if ltb n (2 ^ 63) then some (negsuc n) else none)
      else (if ltb (suc n) (2 ^ 63) then some (pos (suc n)) else none)
]

-- The same of a lexeme, with a minus sign put before it or not; a lexeme may have a sign of its own.
unfoldable pub from_chars_i64 : Bool → List ℕ → Option ℤ
unfolding signed_i64
from_chars_i64 true lexeme = signed_i64 true lexeme
from_chars_i64 false [] = none
from_chars_i64 false (c ∷ rest) =
    if c == 45 then signed_i64 true rest else signed_i64 false (c ∷ rest)

unfoldable pub literal_of : Token → SourceLocation → String → Option LiteralValue → Parse Literal
unfolding report_error
literal_of token location message none = report_error token (text message)
literal_of token location message (some value) =
    done (record { value = value; location = location })

unfoldable pub operator_of : TokenType → Option ComparisonOperator
operator_of TokenType.equal = some ComparisonOperator.equal
operator_of TokenType.not_equal = some ComparisonOperator.not_equal
operator_of TokenType.less_than = some ComparisonOperator.less_than
operator_of TokenType.less_than_or_equal = some ComparisonOperator.less_than_or_equal
operator_of TokenType.greater_than = some ComparisonOperator.greater_than
operator_of TokenType.greater_than_or_equal = some ComparisonOperator.greater_than_or_equal
operator_of _ = none
