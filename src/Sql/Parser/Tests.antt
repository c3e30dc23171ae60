-- ===== src/Sql/Parser/Tests.antt =====
-- An UPDATE whose WHERE needs parentheses, from its tokens and from its text.
use curiodb.Prelude.{
  arith, ◌<◌, ◌^◌, ℕ, ◌≡◌, ◌⊎◌, refl, Bool, true, false, List, [], ◌∷◌, Option, none, some,
}
use curiodb.Prelude.Int.{pos, negsuc}
use curiodb.Prelude.Text.{text}
use curiodb.Prelude.Outcome.{ok, err}
use curiodb.Sql.Token.{SourceLocation, TokenType, Token}
use curiodb.Sql.Ast.{
  LiteralValue, Literal, ComparisonOperator, LogicalOperator, Expression, Statement,
}
use curiodb.Sql.Parser.Cursor.{ParseError, reported, type_eq, type_code}
use curiodb.Sql.Parser.Statements.{parse_statement}
use curiodb.Sql.Parser.Print.{token}
use curiodb.Sql.Parser.Sentences.{statement_tokens}
use curiodb.Sql.Parser.Reads.{are_quoted, is_quoted}
use curiodb.Sql.Lexer.Defs.{tokenize}
use curiodb.Sql.Parser.Lexed.{parse_statement-tokenize}
use curiodb.Sql.Parser.Total.{parse_statement-returns}
use curiodb.Sql.Parser.Whole.{parse_statement-statement_tokens}

abbrev place : SourceLocation
place = record { offset = 0; line = 1; column = 1 }

abbrev no_doubles : List ℕ → Option ℕ
no_doubles digits = none

abbrev no_double_text : ℕ → Bool × List ℕ
no_double_text d = (false, [])

abbrev value : LiteralValue → Literal
value v = record { value = v; location = place }

abbrev test : List ℕ → ComparisonOperator → LiteralValue → Expression
test name operation v =
    Expression.comparison
      (record { column_name = name; operation = operation; value = value v; location = place })

abbrev either_and : Expression
either_and =
    Expression.logical LogicalOperator.conjunction
      (Expression.logical LogicalOperator.disjunction
        (test (text "a") ComparisonOperator.equal (LiteralValue.integer (negsuc 4)))
        (test (text "b") ComparisonOperator.is_not_null LiteralValue.null) place)
      (test (text "c") ComparisonOperator.less_than (LiteralValue.string (text "it's"))) place

abbrev update_t : Statement
update_t = Statement.update (record {
  table_name = text "t";
  column_name = text "d";
  value = value (LiteralValue.integer (pos 7));
  where_clause = some either_and;
  location = place;
})

parse_statement-statement_tokens_example :
    parse_statement no_doubles (statement_tokens no_double_text update_t) ≡ ok update_t
parse_statement-statement_tokens_example =
    parse_statement-statement_tokens no_doubles no_double_text update_t
      (seven, ((negative, refl), tt))
  where
    seven : 7 < 2 ^ 63
    seven = omega arith

    negative : 4 < 2 ^ 63
    negative = omega arith

-- A token of the type of a text, with its quotes, where no statement starts.
abbrev quoted_token : Token
quoted_token = token TokenType.string_literal (39 ∷ 39 ∷ []) place

one_is_quoted : are_quoted (quoted_token ∷ []) ≡ true
unfolding are_quoted is_quoted type_eq type_code
one_is_quoted = refl

parse_statement-returns_example :
    ((s : Statement) × (parse_statement no_doubles (quoted_token ∷ []) ≡ ok s))
    ⊎ ((e : ParseError) × (parse_statement no_doubles (quoted_token ∷ []) ≡ err (reported e)))
parse_statement-returns_example =
    parse_statement-returns no_doubles (quoted_token ∷ []) one_is_quoted

-- A quote that no other ends: the lexer makes an invalid token of it.
parse_statement-tokenize_example :
    (tokens : List Token) × (tokenize (text "'") ≡ some tokens)
    × (((s : Statement) × (parse_statement no_doubles tokens ≡ ok s))
        ⊎ ((e : ParseError) × (parse_statement no_doubles tokens ≡ err (reported e))))
parse_statement-tokenize_example = parse_statement-tokenize no_doubles (text "'")
