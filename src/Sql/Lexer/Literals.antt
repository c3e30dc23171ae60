-- ===== src/Sql/Lexer/Literals.antt =====
-- src/sql/lexer.cpp: which bytes make an integer literal.
use curiodb.Prelude.{
  ℕ, ◌≡◌, inl, inr, refl, Bool, true, false, ◌&&◌, List, [], ◌∷◌, All, arith, Bool-cases, ◌==◌,
  if◌then◌else◌, map,
}
use curiodb.Prelude.Text.{to_upper}
use curiodb.Sql.Token.{SourceLocation, TokenType}
use curiodb.Sql.Lexer.Chars.{
  is_digit, is_identifier_start, is_identifier_part, find_keyword, keywords, identifier_type,
}
use curiodb.Sql.Lexer.Defs.{
  Scanned, advance, advance_while, match, peek, scan_identifier_or_keyword, scan_fraction,
  scan_number, scan_string, scan_symbol, scan_token, symbols, find_symbol,
}
use curiodb.Sql.Lexer.Cover.{advance_while-All}

unfoldable pub is_integer : TokenType → Bool
is_integer TokenType.integer_literal = true
is_integer _ = false

unfoldable pub lists_integer {ℓ} : {A : Type ℓ} → List (A × TokenType) → Bool
lists_integer [] = false
lists_integer ((word, type) ∷ rest) = if is_integer type then true else lists_integer rest

find_keyword-is_integer :
    (word : List ℕ) (table : List (List ℕ × TokenType))
    → lists_integer table ≡ false
    → is_integer (find_keyword word table) ≡ false
unfolding find_keyword lists_integer is_integer
find_keyword-is_integer word [] h = refl
find_keyword-is_integer word ((w, type) ∷ rest) h =
    ground (arith, find_keyword-is_integer word rest)

find_symbol-is_integer :
    (c : ℕ) (table : List (ℕ × TokenType))
    → lists_integer table ≡ false
    → is_integer (find_symbol c table) ≡ false
unfolding find_symbol lists_integer is_integer
find_symbol-is_integer c [] h = refl
find_symbol-is_integer c ((d, type) ∷ rest) h = ground (arith, find_symbol-is_integer c rest)

-- An integer literal has digits only.
abbrev pub HasDigits : Scanned → Type 0
HasDigits scanned = is_integer scanned.type ≡ true → All (λ c. is_digit c ≡ true) scanned.lexeme

if-HasDigits :
    (test : Bool) (s t : Scanned) → HasDigits s → HasDigits t → HasDigits (if test then s else t)
if-HasDigits true s t hs ht = hs
if-HasDigits false s t hs ht = ht

scan_fraction-HasDigits :
    (digits rest : List ℕ) (place : SourceLocation)
    → All (λ c. is_digit c ≡ true) digits
    → HasDigits (scan_fraction digits rest place)
unfolding scan_fraction is_integer
scan_fraction-HasDigits digits [] place h = λ e. h
scan_fraction-HasDigits digits (c ∷ rest) place h =
    if-HasDigits ((c == b'.') && is_digit (peek rest)) _ _ (λ e. absurd (ground arith)) (λ e. h)

match-HasDigits :
    (expected : ℕ) (type : TokenType) (c : ℕ) (rest : List ℕ) (place : SourceLocation)
    (otherwise : Scanned)
    → is_integer type ≡ false
    → HasDigits otherwise
    → HasDigits (match expected type c (record { rest = rest; location = place }) otherwise)
unfolding match
match-HasDigits expected type c [] place otherwise h k = k
match-HasDigits expected type c (d ∷ rest) place otherwise h k =
    if-HasDigits (d == expected) _ _ (λ e. absurd (ground (arith, e, h))) k

scan_symbol-HasDigits :
    (c : ℕ) (rest : List ℕ) (place : SourceLocation)
    → HasDigits (scan_symbol c (record { rest = rest; location = place }))
unfolding scan_symbol scan_string is_integer lists_integer symbols
scan_symbol-HasDigits c rest place =
    if-HasDigits (c == b'\'') _ _ (λ e. absurd (ground arith))
      (if-HasDigits (c == b'!') _ _
        (match-HasDigits b'=' TokenType.not_equal c rest place _ refl (λ e. absurd (ground arith)))
        (if-HasDigits (c == b'<') _ _
          (match-HasDigits b'=' TokenType.less_than_or_equal c rest place _ refl (
            match-HasDigits b'>' TokenType.not_equal c rest place _ refl
              (λ e. absurd (ground arith))))
          (if-HasDigits (c == b'>') _ _
            (match-HasDigits b'=' TokenType.greater_than_or_equal c rest place _ refl
              (λ e. absurd (ground arith)))
            (λ e. absurd (ground (arith, e, find_symbol-is_integer c symbols refl))))))

-- The token that starts at a byte is an integer literal only with a lexeme of digits.
pub scan_token-HasDigits :
    (c : ℕ) (rest : List ℕ) (place : SourceLocation)
    → is_integer (scan_token c rest place).type ≡ true
    → All (λ d. is_digit d ≡ true) (scan_token c rest place).lexeme
unfolding scan_token scan_identifier_or_keyword scan_number identifier_type is_integer lists_integer
    keywords
scan_token-HasDigits c rest place =
    if-HasDigits (is_identifier_start c) _ _
      (λ e. absurd (
        ground (
          arith,
          e,
          find_keyword-is_integer
              (map to_upper (c ∷ (advance_while is_identifier_part rest (advance c place)).0))
              keywords refl,
        )))
      (elim (Bool-cases (is_digit c)) [
        | inl digit ↦
            let (passed, after) = advance_while is_digit rest (advance c place) in
            rw digit (
              scan_fraction-HasDigits (c ∷ passed) after.rest after.location
                (digit, advance_while-All is_digit rest (advance c place)))
        | inr other ↦ rw other (scan_symbol-HasDigits c rest (advance c place))
      ])
