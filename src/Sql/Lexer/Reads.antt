-- ===== src/Sql/Lexer/Reads.antt =====
-- src/sql/lexer.cpp: every scan passes over the bytes of its lexeme and nothing else.
use curiodb.Prelude.{
  ℕ, ◌≡◌, ◌≢◌, inl, inr, refl, sym, ap, ◌∙◌, Bool, true, false, not, ◌&&◌, List, [], ◌∷◌, ◌++◌,
  arith, append_assoc, Bool-cases, ◌==◌, if◌then◌else◌,
}
use curiodb.Sql.Token.{SourceLocation, TokenType}
use curiodb.Sql.Lexer.Chars.{is_digit, is_identifier_part, is_identifier_start}
use curiodb.Sql.Lexer.Defs.{
  Lexer, Scanned, advance, advance_while, match, one_byte, peek, scan_identifier_or_keyword,
  scan_fraction, scan_number, scan_string_rest, scan_string, scan_symbol, scan_token, symbols,
  find_symbol,
}

-- The place after some bytes.
unfoldable pub move : List ℕ → SourceLocation → SourceLocation
unfolding advance
move [] place = place
move (character ∷ bytes) place = move bytes (advance character place)

pub move-append :
    (s t : List ℕ) (place : SourceLocation) → move (s ++ t) place ≡ move t (move s place)
unfolding move
move-append [] t place = refl
move-append (c ∷ s) t place = move-append s t (advance c place)

-- From the bytes `rest` at `place`, a scan passes over `passed` and leaves `after`.
abbrev pub Reads : List ℕ → SourceLocation → List ℕ → Lexer → Type 0
Reads rest place passed after = (rest ≡ passed ++ after.rest) × (after.location ≡ move passed place)

Reads-append :
    (rest : List ℕ) (place : SourceLocation) (s t : List ℕ) (between after : Lexer)
    → Reads rest place s between
    → Reads between.rest between.location t after
    → Reads rest place (s ++ t) after
Reads-append rest place s t between after (h, k) (h', k') = (
  h ∙ (ap (λ z. s ++ z) h' ∙ sym (append_assoc s t after.rest)),
  k' ∙ (ap (move t) k ∙ sym (move-append s t place)),
)

pub advance_while-Reads :
    (test : ℕ → Bool) (rest : List ℕ) (place : SourceLocation)
    → Reads rest place (advance_while test rest place).0 (advance_while test rest place).1
unfolding advance_while move
advance_while-Reads test [] place = (refl, refl)
advance_while-Reads test (c ∷ rest) place =
    let (h, k) = advance_while-Reads test rest (advance c place) in
    elim (Bool-cases (test c)) [
      | inl hit ↦ rw hit (ap (λ z. c ∷ z) h, k)
      | inr miss ↦ rw miss (refl, refl)
    ]

-- What a scan of a token from `character` and `rest` reads.
abbrev pub Takes : ℕ → List ℕ → SourceLocation → Scanned → Type 0
Takes character rest place scanned =
    Reads (character ∷ rest) place scanned.lexeme scanned.after × (scanned.lexeme ≢ [])

one_byte-Takes :
    (type : TokenType) (c : ℕ) (rest : List ℕ) (place : SourceLocation)
    → Takes c rest place (one_byte type c (record { rest = rest; location = advance c place }))
unfolding move
one_byte-Takes type c rest place = ((refl, refl), λ e. cc)

match-Takes :
    (expected : ℕ) (type : TokenType) (c : ℕ) (rest : List ℕ) (place : SourceLocation)
    (otherwise : Scanned)
    → Takes c rest place otherwise
    → Takes c rest place
        (match expected type c (record { rest = rest; location = advance c place }) otherwise)
unfolding match move
match-Takes expected type c [] place otherwise h = h
match-Takes expected type c (d ∷ rest) place otherwise h = elim (Bool-cases (d == expected)) [
  | inl same ↦ rw (same, match) ((refl, refl), λ e. cc)
  | inr other ↦ rw (other, match) h
]

scan_identifier_or_keyword-Takes :
    (c : ℕ) (rest : List ℕ) (place : SourceLocation)
    → Takes c rest place
        (scan_identifier_or_keyword c (record { rest = rest; location = advance c place }))
unfolding scan_identifier_or_keyword move
scan_identifier_or_keyword-Takes c rest place =
    let (h, k) = advance_while-Reads is_identifier_part rest (advance c place) in
    ((ap (λ z. c ∷ z) h, k), λ e. cc)

scan_fraction-Reads :
    (digits rest : List ℕ) (start place : SourceLocation)
    → place ≡ move digits start
    → Reads
        (digits ++ rest)
        start
        (scan_fraction digits rest place).lexeme
        (scan_fraction digits rest place).after
unfolding scan_fraction move
scan_fraction-Reads digits [] start place h = (refl, h)
scan_fraction-Reads digits (c ∷ rest) start place h =
    let (passed, moved) = advance_while-Reads is_digit rest (advance c place) in
    elim (Bool-cases ((c == b'.') && is_digit (peek rest))) [
      | inr whole ↦ rw (whole, scan_fraction) (refl, h)
      | inl point ↦
          rw (point, scan_fraction)
            (
              ap (λ z. digits ++ c ∷ z) passed ∙ sym (append_assoc digits _ _),
              moved
                  ∙ (ap (λ p. move (c ∷ (advance_while is_digit rest (advance c place)).0) p) h
                      ∙ sym (move-append digits _ start)),
            )
    ]

scan_fraction-nonempty :
    (c : ℕ) (digits rest : List ℕ) (place : SourceLocation)
    → (scan_fraction (c ∷ digits) rest place).lexeme ≢ []
unfolding scan_fraction
scan_fraction-nonempty c digits [] place e = cc
scan_fraction-nonempty c digits (d ∷ rest) place e = ground arith

scan_number-Takes :
    (c : ℕ) (rest : List ℕ) (place : SourceLocation)
    → Takes c rest place (scan_number c (record { rest = rest; location = advance c place }))
unfolding scan_number move
scan_number-Takes c rest place =
    let (passed, after) = advance_while is_digit rest (advance c place) in
    let (h, k) = advance_while-Reads is_digit rest (advance c place) in
    let (h', k') = scan_fraction-Reads (c ∷ passed) after.rest place after.location k in
    ((ap (λ z. c ∷ z) h ∙ h', k'), scan_fraction-nonempty c passed after.rest after.location)

scan_string_rest-Reads :
    (pending : Bool) (rest : List ℕ) (place : SourceLocation)
    → Reads rest place
        (scan_string_rest pending rest place).1.0
        (scan_string_rest pending rest place).1.1
unfolding scan_string_rest move
scan_string_rest-Reads pending [] place = (refl, refl)
scan_string_rest-Reads pending (c ∷ rest) place =
    let quote = c == b'\'' in
    let (h, k) = scan_string_rest-Reads (quote && not pending) rest (advance c place) in
    elim (Bool-cases (pending && not quote)) [
      | inl ended ↦ rw (ended, scan_string_rest) (refl, refl)
      | inr more ↦ rw (more, scan_string_rest) (ap (λ z. c ∷ z) h, k)
    ]

scan_string-Takes :
    (c : ℕ) (rest : List ℕ) (place : SourceLocation)
    → Takes c rest place (scan_string c (record { rest = rest; location = advance c place }))
unfolding scan_string move
scan_string-Takes c rest place =
    let (h, k) = scan_string_rest-Reads false rest (advance c place) in
    ((ap (λ z. c ∷ z) h, k), λ e. cc)

if-Takes :
    (c : ℕ) (rest : List ℕ) (place : SourceLocation) (test : Bool) (s t : Scanned)
    → Takes c rest place s
    → Takes c rest place t
    → Takes c rest place (if test then s else t)
if-Takes c rest place true s t hs ht = hs
if-Takes c rest place false s t hs ht = ht

scan_symbol-Takes :
    (c : ℕ) (rest : List ℕ) (place : SourceLocation)
    → Takes c rest place (scan_symbol c (record { rest = rest; location = advance c place }))
unfolding scan_symbol
scan_symbol-Takes c rest place =
    let lexer : Lexer = record { rest = rest; location = advance c place } in
    let one = λ (type : TokenType). one_byte-Takes type c rest place in
    let pair = λ (d : ℕ) (type type' : TokenType).
      match-Takes d type c rest place (one_byte type' c lexer) (one type') in
    if-Takes c rest place (c == b'\'') _ _ (scan_string-Takes c rest place) (
      if-Takes c rest place (c == b'!') _ _ (pair b'=' TokenType.not_equal TokenType.invalid) (
        if-Takes c rest place (c == b'<') _ _
          (match-Takes b'=' TokenType.less_than_or_equal c rest place _
            (pair b'>' TokenType.not_equal TokenType.less_than))
          (if-Takes c rest place (c == b'>') _ _
            (pair b'=' TokenType.greater_than_or_equal TokenType.greater_than)
            (one (find_symbol c symbols)))))

-- A scan of a token reads the bytes of its lexeme, at least one, and moves its place over them.
pub scan_token-Takes :
    (c : ℕ) (rest : List ℕ) (place : SourceLocation) → Takes c rest place (scan_token c rest place)
unfolding scan_token
scan_token-Takes c rest place =
    if-Takes c rest place (is_identifier_start c) _ _
      (scan_identifier_or_keyword-Takes c rest place)
      (if-Takes c rest place (is_digit c) _ _ (scan_number-Takes c rest place)
        (scan_symbol-Takes c rest place))
