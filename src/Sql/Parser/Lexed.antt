-- ===== src/Sql/Parser/Lexed.antt =====
-- src/sql/lexer.cpp and parser.cpp: what the parser makes of the tokens of a text.
use curiodb.Prelude.{
  ℕ, zero, suc, ◌≡◌, ◌⊎◌, inl, inr, refl, Bool, true, false, ◌&&◌, List, [], ◌∷◌, Option, some,
  if◌then◌else◌, ◌==◌, leb, length, map, arith, Bool-cases, Option-cases,
}
use curiodb.Prelude.Text.{to_upper}
use curiodb.Prelude.Outcome.{ok, err}
use curiodb.Sql.Token.{SourceLocation, TokenType, Token}
use curiodb.Sql.Ast.{Statement}
use curiodb.Sql.Lexer.Chars.{
  is_digit, is_identifier_start, is_identifier_part, find_keyword, keywords, identifier_type,
}
use curiodb.Sql.Lexer.Defs.{
  Scanned, Lexer, advance, advance_while, match, peek, scan_identifier_or_keyword, scan_fraction,
  scan_number, scan_string_rest, scan_string, scan_symbol, scan_token, symbols, find_symbol,
  tokenize_round, tokenize_loop, tokenize, end_token, skip_whitespace, new_lexer,
}
use curiodb.Sql.Lexer.Cover.{tokenize-Covers}
use curiodb.Sql.Parser.Cursor.{ParseError, reported, type_eq, type_code}
use curiodb.Sql.Parser.Statements.{parse_statement}
use curiodb.Sql.Parser.Reads.{is_quoted, are_quoted}
use curiodb.Sql.Parser.Total.{parse_statement-returns}

unfoldable is_text : TokenType → Bool
is_text type = type_eq type TokenType.string_literal

unfoldable lists_text {ℓ} : {A : Type ℓ} → List (A × TokenType) → Bool
unfolding is_text
lists_text [] = false
lists_text ((word, type) ∷ rest) = if is_text type then true else lists_text rest

find_keyword-is_text :
    (word : List ℕ) (table : List (List ℕ × TokenType))
    → lists_text table ≡ false
    → is_text (find_keyword word table) ≡ false
unfolding find_keyword lists_text is_text type_eq type_code
find_keyword-is_text word [] h = refl
find_keyword-is_text word ((w, type) ∷ rest) h = ground (arith, find_keyword-is_text word rest)

find_symbol-is_text :
    (c : ℕ) (table : List (ℕ × TokenType))
    → lists_text table ≡ false
    → is_text (find_symbol c table) ≡ false
unfolding find_symbol lists_text is_text type_eq type_code
find_symbol-is_text c [] h = refl
find_symbol-is_text c ((d, type) ∷ rest) h = ground (arith, find_symbol-is_text c rest)

-- A string literal has two bytes at least.
abbrev HasQuotes : Scanned → Type 0
HasQuotes scanned = is_text scanned.type ≡ true → leb 2 (length scanned.lexeme) ≡ true

if-HasQuotes :
    (test : Bool) (s t : Scanned) → HasQuotes s → HasQuotes t → HasQuotes (if test then s else t)
if-HasQuotes true s t hs ht = hs
if-HasQuotes false s t hs ht = ht

scan_fraction-HasQuotes :
    (digits rest : List ℕ) (place : SourceLocation) → HasQuotes (scan_fraction digits rest place)
unfolding scan_fraction is_text type_eq type_code
scan_fraction-HasQuotes digits [] place = λ e. absurd (ground arith)
scan_fraction-HasQuotes digits (c ∷ rest) place =
    if-HasQuotes ((c == b'.') && is_digit (peek rest)) _ _ (λ e. absurd (ground arith))
      (λ e. absurd (ground arith))

match-HasQuotes :
    (expected : ℕ) (type : TokenType) (c : ℕ) (rest : List ℕ) (place : SourceLocation)
    (otherwise : Scanned)
    → is_text type ≡ false
    → HasQuotes otherwise
    → HasQuotes (match expected type c (record { rest = rest; location = place }) otherwise)
unfolding match
match-HasQuotes expected type c [] place otherwise h k = k
match-HasQuotes expected type c (d ∷ rest) place otherwise h k =
    if-HasQuotes (d == expected) _ _ (λ e. absurd (ground (arith, e, h))) k

-- A literal that ends has read a quote after its first one.
scan_string_rest_ended :
    (rest : List ℕ) (place : SourceLocation)
    → (scan_string_rest false rest place).0 ≡ true
    → leb 1 (length (scan_string_rest false rest place).1.0) ≡ true
unfolding scan_string_rest
scan_string_rest_ended [] place e = absurd (ground arith)
scan_string_rest_ended (c ∷ rest) place e = ground arith

scan_string-HasQuotes :
    (c : ℕ) (rest : List ℕ) (place : SourceLocation)
    → HasQuotes (scan_string c (record { rest = rest; location = place }))
unfolding scan_string is_text type_eq type_code
scan_string-HasQuotes c rest place e = elim (Bool-cases (scan_string_rest false rest place).0) [
  | inl ended ↦ let more = scan_string_rest_ended rest place ended in ground (arith, more)
  | inr unended ↦ let other = rw unended at e in absurd (ground arith)
]

scan_symbol-HasQuotes :
    (c : ℕ) (rest : List ℕ) (place : SourceLocation)
    → HasQuotes (scan_symbol c (record { rest = rest; location = place }))
unfolding scan_symbol is_text lists_text symbols type_eq type_code
scan_symbol-HasQuotes c rest place =
    if-HasQuotes (c == b'\'') _ _ (scan_string-HasQuotes c rest place) (
      if-HasQuotes (c == b'!') _ _
        (match-HasQuotes b'=' TokenType.not_equal c rest place _ refl (λ e. absurd (ground arith)))
        (if-HasQuotes (c == b'<') _ _
          (match-HasQuotes b'=' TokenType.less_than_or_equal c rest place _ refl (
            match-HasQuotes b'>' TokenType.not_equal c rest place _ refl
              (λ e. absurd (ground arith))))
          (if-HasQuotes (c == b'>') _ _
            (match-HasQuotes b'=' TokenType.greater_than_or_equal c rest place _ refl
              (λ e. absurd (ground arith)))
            (λ e. absurd (ground (arith, e, find_symbol-is_text c symbols refl))))))

scan_token-HasQuotes :
    (c : ℕ) (rest : List ℕ) (place : SourceLocation) → HasQuotes (scan_token c rest place)
unfolding scan_token scan_identifier_or_keyword scan_number identifier_type lists_text keywords
    is_text type_eq type_code
scan_token-HasQuotes c rest place =
    if-HasQuotes (is_identifier_start c) _ _
      (λ e. absurd (
        ground (
          arith,
          e,
          find_keyword-is_text
              (map to_upper (c ∷ (advance_while is_identifier_part rest (advance c place)).0))
              keywords refl,
        )))
      (if-HasQuotes (is_digit c) _ _
        (let (passed, after) = advance_while is_digit rest (advance c place) in
          scan_fraction-HasQuotes (c ∷ passed) after.rest after.location)
        (scan_symbol-HasQuotes c rest (advance c place)))

tokenize_round-are_quoted :
    (next : Lexer → Option (List Token)) (rest : List ℕ) (place : SourceLocation)
    (tokens : List Token)
    → ((lexer : Lexer) (later : List Token) → next lexer ≡ some later → are_quoted later ≡ true)
    → tokenize_round next rest place ≡ some tokens
    → are_quoted tokens ≡ true
unfolding tokenize_round are_quoted is_quoted is_text type_eq type_code
tokenize_round-are_quoted next [] place tokens h e =
    let last : end_token place ∷ [] ≡ tokens = ground arith in rw (← last) refl
tokenize_round-are_quoted next (c ∷ rest) place tokens h e =
    let scanned = scan_token c rest place in
    elim (Option-cases (next scanned.after)) [
      | inl spent ↦ absurd (ground arith)
      | inr (later, made) ↦
          let token : Token = record {
            type = scanned.type;
            lexeme = scanned.lexeme;
            location = place;
          } in
          let whole : token ∷ later ≡ tokens = ground arith in
          rw (← whole)
            (ground (arith, scan_token-HasQuotes c rest place, h scanned.after later made))
    ]

tokenize_loop-are_quoted :
    (fuel : ℕ) (lexer : Lexer) (tokens : List Token)
    → tokenize_loop fuel lexer ≡ some tokens
    → are_quoted tokens ≡ true
unfolding tokenize_loop
tokenize_loop-are_quoted zero lexer tokens e = absurd (ground arith)
tokenize_loop-are_quoted (suc fuel) lexer tokens e =
    let after = (skip_whitespace lexer).1 in
    tokenize_round-are_quoted (tokenize_loop fuel) after.rest after.location tokens
      (λ lexer later made. tokenize_loop-are_quoted fuel lexer later made) e

-- Every text is answered: the lexer makes tokens of it, and the parser makes of these a statement or a
-- reported error. It ends in no exception, reads no token past the last one, and no loop runs out of rounds.
pub parse_statement-tokenize :
    (double_from_chars : List ℕ → Option ℕ) (input : List ℕ)
    → (tokens : List Token) × (tokenize input ≡ some tokens)
      × (((s : Statement) × (parse_statement double_from_chars tokens ≡ ok s))
          ⊎ ((e : ParseError) × (parse_statement double_from_chars tokens ≡ err (reported e))))
unfolding tokenize
parse_statement-tokenize double_from_chars input =
    let (tokens, (made, covered)) = tokenize-Covers input in
    (
      tokens,
      made,
      parse_statement-returns double_from_chars tokens
          (tokenize_loop-are_quoted (suc (length input)) (new_lexer input) tokens made),
    )
