-- ===== src/Sql/Parser/Conditions.antt =====
-- src/sql/parser.cpp: values and WHERE.
use curiodb.Prelude.{
  ℕ, zero, suc, Bool, true, false, List, ◌∷◌, Option, none, some, if◌then◌else◌, length,
}
use mathlib.Core.Option
use curiodb.Prelude.Outcome.{err}
use curiodb.Sql.Token.{SourceLocation, TokenType, Token}
use curiodb.Sql.Ast.{
  LiteralValue, Literal, ComparisonOperator, ComparisonExpression, LogicalOperator, Expression,
}
use curiodb.Sql.Parser.Cursor.{
  Parse, length_error, out_of_rounds, ◌>>=◌, ◌>>◌, done, current, check, advance, match,
  report_found, consume,
}
use curiodb.Sql.Parser.Clauses.{decode_sql_string, from_chars_i64, literal_of, operator_of}

-- `double_from_chars` is `std::from_chars` into a double, as its 64 bits, of a whole text.
module _ (double_from_chars : List ℕ → Option ℕ) where
  -- A number after its sign, or what is not one.
  unfoldable pub parse_number : Bool → SourceLocation → Parse Literal → Parse Literal
  unfolding check advance literal_of from_chars_i64
  parse_number negative location otherwise = do
    integer ← check TokenType.integer_literal
    if integer
        then (do
          token ← advance
          literal_of token location "integer literal is out of range"
              (Option.map LiteralValue.integer (from_chars_i64 negative token.lexeme)))
        else (do
          floating ← check TokenType.floating_point_literal
          if floating
              then (do
                token ← advance
                literal_of token location "floating-point literal is out of range" (
                    Option.map LiteralValue.double
                      (double_from_chars (if negative then 45 ∷ token.lexeme else token.lexeme))))
              else otherwise)

  unfoldable pub string_of : SourceLocation → Option (List ℕ) → Parse Literal
  string_of location none = λ tokens. err length_error
  string_of location (some value) =
      done (record { value = LiteralValue.string value; location = location })

  unfoldable pub parse_string : SourceLocation → Parse Literal
  unfolding check advance decode_sql_string string_of report_found
  parse_string location = do
    string ← check TokenType.string_literal
    if string
        then (do token ← advance; string_of location (decode_sql_string token.lexeme))
        else report_found "expected integer, floating-point, string, or NULL value"

  unfoldable pub parse_literal : Parse Literal
  unfolding current match parse_number parse_string report_found
  parse_literal = do
    start ← current
    negative ← match TokenType.minus
    if negative
        then parse_number true start.location
            (report_found "expected integer, floating-point, string, or NULL value")
        else (do
          null ← match TokenType.null
          if null
              then done (record { value = LiteralValue.null; location = start.location })
              else parse_number false start.location (parse_string start.location))

  unfoldable pub parse_compared : Token → Option ComparisonOperator → Parse ComparisonExpression
  unfolding advance report_found parse_literal
  parse_compared column none = report_found "expected comparison operator after column"
  parse_compared column (some operation) = do
    advance
    value ← parse_literal
    done (record {
      column_name = column.lexeme;
      operation = operation;
      value = value;
      location = column.location;
    })

  unfoldable pub parse_comparison : Parse ComparisonExpression
  unfolding consume match current operator_of parse_compared
  parse_comparison = do
    column ← consume TokenType.identifier "expected column name after WHERE"
    null_test ← match TokenType.is
    if null_test
        then (do
          negated ← match TokenType.not
          consume TokenType.null "expected NULL after IS or IS NOT"
          done (record {
            column_name = column.lexeme;
            operation =
                if negated then ComparisonOperator.is_not_null else ComparisonOperator.is_null;
            value = record { value = LiteralValue.null; location = column.location };
            location = column.location;
          }))
        else (do token ← current; parse_compared column (operator_of token.type))

  -- The loop of `parse_and_expression` and of `parse_or_expression`, over the operator, what a side is
  -- and what is on the left; `tokens_[current_index_ - 1]` is the operator.
  unfoldable pub parse_operators :
      ℕ → TokenType → LogicalOperator → Parse Expression → Expression → Parse Expression
  unfolding check advance
  parse_operators zero type operation side left = λ tokens. err out_of_rounds
  parse_operators (suc rounds) type operation side left = do
    there ← check type
    if there
        then (do
          token ← advance
          right ← side
          parse_operators rounds type operation side
              (Expression.logical operation left right token.location))
        else done left

  unfoldable pub parse_sides : TokenType → LogicalOperator → Parse Expression → Parse Expression
  unfolding parse_operators
  parse_sides type operation side = do
    left ← side
    λ tokens. parse_operators (suc (length tokens)) type operation side left tokens

  -- `parse_expression_primary`, over `parse_or_expression`.
  unfoldable pub parse_expression_primary : Parse Expression → Parse Expression
  unfolding match consume parse_comparison
  parse_expression_primary parse_or = do
    parenthesis ← match TokenType.left_paren
    if parenthesis
        then (do
          expression ← parse_or
          consume TokenType.right_paren "expected ')' after WHERE expression"
          done expression)
        else (do comparison ← parse_comparison; done (Expression.comparison comparison))

  unfoldable pub parse_and_expression : Parse Expression → Parse Expression
  unfolding parse_sides parse_expression_primary
  parse_and_expression parse_or =
      parse_sides TokenType.and LogicalOperator.conjunction (parse_expression_primary parse_or)

  -- To a depth of parentheses.
  unfoldable pub parse_or_to : ℕ → Parse Expression
  unfolding parse_sides parse_and_expression
  parse_or_to zero = λ tokens. err out_of_rounds
  parse_or_to (suc depth) =
      parse_sides TokenType.or LogicalOperator.disjunction
        (parse_and_expression (parse_or_to depth))

  unfoldable pub parse_or_expression : Parse Expression
  unfolding parse_or_to
  parse_or_expression = λ tokens. parse_or_to (suc (length tokens)) tokens
