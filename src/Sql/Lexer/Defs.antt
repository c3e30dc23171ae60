-- ===== src/Sql/Lexer/Defs.antt =====
-- src/sql/lexer.cpp: the scanner and its loop.
--
-- The lexer holds the bytes that are not read yet, and the place of the first of them: `current_`,
-- `line_` and `column_`. A scan answers the bytes that it passes, which the source cuts from its input
-- between `token_start_` and `current_`.
use curiodb.Prelude.{
  ℕ, zero, suc, ◌+◌, ◌==◌, Bool, true, false, not, ◌&&◌, List, [], ◌∷◌, ◌++◌, Option, none, some,
  if◌then◌else◌, length,
}
use curiodb.Sql.Token.{SourceLocation, TokenType, Token}
use curiodb.Sql.Lexer.Chars.{
  is_digit, is_identifier_start, is_identifier_part, is_space, identifier_type,
}

pub record Lexer : Type 0 where
  pub rest : List ℕ
  pub location : SourceLocation

unfoldable pub new_lexer : List ℕ → Lexer
new_lexer input = record { rest = input; location = record { offset = 0; line = 1; column = 1 } }

-- `peek`: 0 after the end.
unfoldable pub peek : List ℕ → ℕ
peek [] = 0
peek (character ∷ rest) = character

-- The place after a byte.
unfoldable pub advance : ℕ → SourceLocation → SourceLocation
advance character place =
    if character == b'\n'
    then record { offset = place.offset + 1; line = place.line + 1; column = 1 }
    else record { offset = place.offset + 1; line = place.line; column = place.column + 1 }

-- The loops `while (test(peek())) advance();`: the bytes they pass, and the lexer after them. The tests
-- of the source fail at the 0 that `peek` gives after the end.
unfoldable pub advance_while : (ℕ → Bool) → List ℕ → SourceLocation → List ℕ × Lexer
unfolding advance
advance_while test [] place = ([], record { rest = []; location = place })
advance_while test (character ∷ rest) place =
    let (passed, after) = advance_while test rest (advance character place) in
    if test character
    then (character ∷ passed, after)
    else ([], record { rest = character ∷ rest; location = place })

unfoldable pub skip_whitespace : Lexer → List ℕ × Lexer
unfolding advance_while
skip_whitespace lexer = advance_while is_space lexer.rest lexer.location

-- A token without its place, and the lexer after it.
pub record Scanned : Type 0 where
  pub type : TokenType
  pub lexeme : List ℕ
  pub after : Lexer

-- `make_token` right after the first byte.
abbrev pub one_byte : TokenType → ℕ → Lexer → Scanned
one_byte type character lexer = record { type = type; lexeme = character ∷ []; after = lexer }

-- `match(expected)`, and what follows where it matches and where it does not.
unfoldable pub match : ℕ → TokenType → ℕ → Lexer → Scanned → Scanned
unfolding peek advance
match expected type character lexer otherwise = elim lexer.rest [
  | [] ↦ otherwise
  | next ∷ rest ↦
      if next == expected
      then record {
        type = type;
        lexeme = character ∷ next ∷ [];
        after = record { rest = rest; location = advance next lexer.location };
      }
      else otherwise
]

unfoldable pub scan_identifier_or_keyword : ℕ → Lexer → Scanned
unfolding advance_while
scan_identifier_or_keyword character lexer =
    let (passed, after) = advance_while is_identifier_part lexer.rest lexer.location in
    record {
      type = identifier_type (character ∷ passed);
      lexeme = character ∷ passed;
      after = after;
    }

-- After the first digits: a point and a digit make it a floating-point literal.
unfoldable pub scan_fraction : List ℕ → List ℕ → SourceLocation → Scanned
unfolding advance_while peek
scan_fraction digits [] place = record {
  type = TokenType.integer_literal;
  lexeme = digits;
  after = record { rest = []; location = place };
}
scan_fraction digits (character ∷ rest) place =
    let (passed, after) = advance_while is_digit rest (advance character place) in
    if (character == b'.') && is_digit (peek rest)
    then record {
      type = TokenType.floating_point_literal;
      lexeme = digits ++ character ∷ passed;
      after = after;
    }
    else record {
      type = TokenType.integer_literal;
      lexeme = digits;
      after = record { rest = character ∷ rest; location = place };
    }

unfoldable pub scan_number : ℕ → Lexer → Scanned
unfolding scan_fraction
scan_number character lexer =
    let (passed, after) = advance_while is_digit lexer.rest lexer.location in
    scan_fraction (character ∷ passed) after.rest after.location

-- The loop of `scan_string`; `pending` is that a quote has just been read, which ends the literal unless
-- another follows. The answer says whether the literal ended.
unfoldable pub scan_string_rest : Bool → List ℕ → SourceLocation → Bool × (List ℕ × Lexer)
unfolding advance
scan_string_rest pending [] place = (pending, ([], record { rest = []; location = place }))
scan_string_rest pending (character ∷ rest) place =
    let quote = character == b'\'' in
    let (ended, (passed, after)) =
      scan_string_rest (quote && not pending) rest (advance character place) in
    if pending && not quote
    then (true, ([], record { rest = character ∷ rest; location = place }))
    else (ended, (character ∷ passed, after))

unfoldable pub scan_string : ℕ → Lexer → Scanned
unfolding scan_string_rest
scan_string character lexer =
    let (ended, (passed, after)) = scan_string_rest false lexer.rest lexer.location in
    record {
      type = if ended then TokenType.string_literal else TokenType.invalid;
      lexeme = character ∷ passed;
      after = after;
    }

-- The cases of the `switch` of `scan_token` that make a token of one byte, and its default.
unfoldable pub symbols : List (ℕ × TokenType)
symbols =
    (b'(', TokenType.left_paren)
    ∷ (b')', TokenType.right_paren)
    ∷ (b',', TokenType.comma)
    ∷ (b';', TokenType.semicolon)
    ∷ (b'.', TokenType.dot)
    ∷ (b'=', TokenType.equal)
    ∷ (b'+', TokenType.plus)
    ∷ (b'-', TokenType.minus)
    ∷ (b'*', TokenType.star)
    ∷ (b'/', TokenType.slash)
    ∷ []

unfoldable pub find_symbol : ℕ → List (ℕ × TokenType) → TokenType
find_symbol character [] = TokenType.invalid
find_symbol character ((symbol, type) ∷ rest) =
    let later = find_symbol character rest in if symbol == character then type else later

-- The `switch` of `scan_token`.
unfoldable pub scan_symbol : ℕ → Lexer → Scanned
unfolding scan_string match symbols find_symbol
scan_symbol character lexer =
    if character == b'\''
    then scan_string character lexer
    else if character == b'!'
    then match b'=' TokenType.not_equal character lexer (one_byte TokenType.invalid character lexer)
    else if character == b'<'
    then match b'=' TokenType.less_than_or_equal character lexer (
        match b'>' TokenType.not_equal character lexer
          (one_byte TokenType.less_than character lexer))
    else if character == b'>'
    then match b'=' TokenType.greater_than_or_equal character lexer
        (one_byte TokenType.greater_than character lexer)
    else one_byte (find_symbol character symbols) character lexer

-- `scan_token`, from the byte `character` at the start of the token.
unfoldable pub scan_token : ℕ → List ℕ → SourceLocation → Scanned
unfolding scan_identifier_or_keyword scan_number scan_symbol
scan_token character rest place =
    let lexer : Lexer = record { rest = rest; location = advance character place } in
    if is_identifier_start character
    then scan_identifier_or_keyword character lexer
    else if is_digit character
    then scan_number character lexer
    else scan_symbol character lexer

abbrev pub end_token : SourceLocation → Token
end_token place = record { type = TokenType.end_of_input; lexeme = []; location = place }

-- A round of `tokenize` after the white space, with the rounds that follow it.
unfoldable pub tokenize_round :
    (Lexer → Option (List Token)) → List ℕ → SourceLocation → Option (List Token)
unfolding scan_token
tokenize_round next [] place = some (end_token place ∷ [])
tokenize_round next (character ∷ rest) place =
    let scanned = scan_token character rest place in
    elim (next scanned.after) [
      | none ↦ none
      | some tokens ↦
          some (record { type = scanned.type; lexeme = scanned.lexeme; location = place } ∷ tokens)
    ]

-- The loop of `tokenize`, each round with one unit of fuel; `none` is that there is no fuel left.
unfoldable pub tokenize_loop : ℕ → Lexer → Option (List Token)
unfolding tokenize_round skip_whitespace
tokenize_loop zero lexer = none
tokenize_loop (suc fuel) lexer =
    let after = (skip_whitespace lexer).1 in
    tokenize_round (tokenize_loop fuel) after.rest after.location

-- Each round but the last reads a byte.
unfoldable pub tokenize : List ℕ → Option (List Token)
unfolding tokenize_loop
tokenize input = tokenize_loop (suc (length input)) (new_lexer input)
