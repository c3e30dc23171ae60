-- ===== src/Sql/Parser/Inverse.antt =====
-- src/sql/parser.cpp: the columns of a SELECT are read back.
use curiodb.Prelude.{◌≡◌, refl, true, false, List, [], ◌∷◌, ◌++◌, All, arith}
use Prim.Native.String.{String}
use curiodb.Prelude.Outcome.{ok}
use curiodb.Sql.Token.{SourceLocation, TokenType, Token}
use curiodb.Sql.Ast.{SelectColumn}
use curiodb.Sql.Parser.Cursor.{
  Parse, type_code, type_eq, ends_input, current, check, advance, match, consume,
}
use curiodb.Sql.Parser.Statements.{
  parse_items, parse_some_items, parse_select_column, parse_columns,
}
use curiodb.Sql.Parser.Print.{token}
use curiodb.Sql.Parser.Sentences.{items_tokens, name, select_columns_tokens}
use curiodb.Sql.Parser.RoundTrip.{is_next}
use curiodb.Sql.Parser.ReadBack.{parse_items-items_tokens}

pub ends_input-after : (xs ys : List Token) → ends_input ys ≡ true → ends_input (xs ++ ys) ≡ true
unfolding ends_input
ends_input-after [] ys h = h
ends_input-after (x ∷ []) [] h = absurd (ground arith)
ends_input-after (x ∷ []) (y ∷ ys) h = h
ends_input-after (x ∷ z ∷ xs) ys h = ends_input-after (z ∷ xs) ys h

abbrev column_token : SelectColumn → List Token
column_token c = name c.name c.location ∷ []

each : {A : Type 0} (xs : List A) → All (λ x. Unit {0}) xs
each [] = tt
each (x ∷ xs) = (tt, each xs)

parse_select_column-column_token :
    (c : SelectColumn) (tail : List Token)
    → parse_select_column (column_token c ++ tail) ≡ ok (c, tail)
unfolding parse_select_column consume check advance type_eq type_code
parse_select_column-column_token c tail = refl

parse_items-column_token :
    (place : SourceLocation) (c : SelectColumn) (rest : List SelectColumn) (tail : List Token)
    → parse_items parse_select_column
        (items_tokens column_token place (c ∷ rest) ++ token TokenType.from [] place ∷ tail)
      ≡ ok (c ∷ rest, token TokenType.from [] place ∷ tail)
unfolding type_eq type_code
parse_items-column_token place c rest tail =
    parse_items-items_tokens parse_select_column column_token (λ c. Unit {0}) (λ tail. Unit {0})
      place (λ after. tt) (λ d after ok_column ok_tail. parse_select_column-column_token d after) c
      rest (token TokenType.from [] place) tail (each (c ∷ rest)) tt refl

pub parse_columns-select_columns_tokens :
    (place : SourceLocation) (columns : List SelectColumn) (tail : List Token)
    → parse_columns (select_columns_tokens place columns ++ token TokenType.from [] place ∷ tail)
      ≡ ok (columns, token TokenType.from [] place ∷ tail)
unfolding parse_columns select_columns_tokens items_tokens match check advance type_eq type_code
parse_columns-select_columns_tokens place [] tail = refl
parse_columns-select_columns_tokens place (c ∷ []) tail = parse_items-column_token place c [] tail
parse_columns-select_columns_tokens place (c ∷ d ∷ rest) tail =
    parse_items-column_token place c (d ∷ rest) tail

pub parse_some_items-parse_items :
    {A : Type 0} (item : Parse A) (message : String) (tokens : List Token)
    → is_next TokenType.right_paren tokens ≡ false
    → parse_some_items message item tokens ≡ parse_items item tokens
unfolding parse_some_items check current is_next
parse_some_items-parse_items item message [] stop = absurd (ground arith)
parse_some_items-parse_items item message (t ∷ tokens) stop = rw (stop, parse_some_items) refl
