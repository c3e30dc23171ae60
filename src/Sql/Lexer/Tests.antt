-- ===== src/Sql/Lexer/Tests.antt =====
-- src/sql/lexer.cpp: runs of the scanner, and the theorems at small inputs.
use curiodb.Prelude.{ℕ, ◌≡◌, refl, true, All, List, [], ◌∷◌, Option, none, some}
use curiodb.Prelude.Text.{text, text_eq, to_lower, to_upper}
use curiodb.Sql.Token.{TokenType, Token}
use curiodb.Sql.Lexer.Chars.{
  identifier_type, is_space, is_identifier_start, is_identifier_part, is_digit,
}
use curiodb.Sql.Lexer.Defs.{tokenize, new_lexer, scan_token, scan_number, scan_fraction}
use curiodb.Sql.Lexer.Literals.{is_integer, scan_token-HasDigits}
use curiodb.Sql.Lexer.Cover.{Covers, tokenize-Covers}
use curiodb.Sql.Lexer.Words.{identifier_type-to_lower}

abbrev query : List ℕ
query = text "Select a\n <> 'it''s' 1.5"

types : Option (List Token) → List TokenType
types none = []
types (some []) = []
types (some (token ∷ tokens)) = token.type ∷ types (some tokens)

query-types :
    types (tokenize query)
    ≡ TokenType.select ∷ TokenType.identifier ∷ TokenType.not_equal ∷ TokenType.string_literal
      ∷ TokenType.floating_point_literal ∷ TokenType.end_of_input ∷ []
unfolding types tokenize text new_lexer is_space is_identifier_start is_identifier_part
    identifier_type text_eq to_upper
query-types = refl

tokenize-Covers_example :
    (tokens : List Token) × ((tokenize query ≡ some tokens) × Covers [] query tokens)
tokenize-Covers_example = tokenize-Covers query

identifier_type-to_lower_example : identifier_type (text "Where") ≡ identifier_type (text "WHERE")
unfolding text to_lower
identifier_type-to_lower_example = identifier_type-to_lower (text "Where") (text "WHERE") refl

scan_token-HasDigits_example :
    All
      (λ d. is_digit d ≡ true)
      (scan_token b'4' (text "2.") (record { offset = 0; line = 1; column = 1 })).lexeme
unfolding scan_token is_identifier_start is_digit scan_number scan_fraction is_integer text
scan_token-HasDigits_example =
    scan_token-HasDigits b'4' (text "2.") (record { offset = 0; line = 1; column = 1 }) refl
