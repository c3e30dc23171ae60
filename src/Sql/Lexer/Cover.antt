-- ===== src/Sql/Lexer/Cover.antt =====
-- src/sql/lexer.cpp: the tokens cover the input.
use curiodb.Prelude.{
  ℕ, zero, suc, ◌+◌, ◌<◌, ◌≤◌, ◌≡◌, ◌≢◌, inl, inr, refl, sym, ap, ◌∙◌, Bool, true, List, [], ◌∷◌,
  ◌++◌, All, arith, append_assoc, append-nil, Bool-cases, some, ◌==◌, length, length-append,
  if◌then◌else◌,
}
use mathlib.Core.Path.{subst}
use curiodb.Sql.Token.{SourceLocation, Token}
use curiodb.Sql.Lexer.Chars.{is_space}
use curiodb.Sql.Lexer.Defs.{
  Lexer, new_lexer, advance, advance_while, skip_whitespace, end_token, scan_token, tokenize_round,
  tokenize_loop, tokenize,
}
use curiodb.Sql.Lexer.Reads.{move, move-append, advance_while-Reads, scan_token-Takes}

unfoldable pub newlines : List ℕ → ℕ
newlines [] = 0
newlines (c ∷ s) = (if c == b'\n' then 1 else 0) + newlines s

-- The bytes after the last line end.
unfoldable pub last_line : List ℕ → List ℕ
unfolding newlines
last_line [] = []
last_line (c ∷ s) =
    let rest = last_line s in if newlines s == 0 then if c == b'\n' then s else c ∷ s else rest

-- The place of the byte that follows `s` in an input that starts with `s`.
unfoldable pub place_after : List ℕ → SourceLocation
unfolding newlines last_line
place_after s = record {
  offset = length s;
  line = 1 + newlines s;
  column = 1 + length (last_line s);
}

last_line-whole : (s : List ℕ) → newlines s ≡ 0 → last_line s ≡ s
unfolding last_line newlines
last_line-whole [] h = refl
last_line-whole (c ∷ s) h = ground arith

move-offset : (s : List ℕ) (p : SourceLocation) → (move s p).offset ≡ p.offset + length s
unfolding move advance
move-offset [] p = omega arith
move-offset (c ∷ s) p = ground (arith, move-offset s (advance c p))

move-line : (s : List ℕ) (p : SourceLocation) → (move s p).line ≡ p.line + newlines s
unfolding move advance newlines
move-line [] p = omega arith
move-line (c ∷ s) p = ground (arith, move-line s (advance c p))

move-column :
    (s : List ℕ) (p : SourceLocation)
    → (move s p).column
      ≡ (if newlines s == 0 then p.column + length s else 1 + length (last_line s))
unfolding move advance newlines last_line
move-column [] p = omega arith
move-column (c ∷ s) p = ground (arith, move-column s (advance c p), last_line-whole s)

abbrev start : SourceLocation
start = record { offset = 0; line = 1; column = 1 }

move-place_after : (s : List ℕ) → move s start ≡ place_after s
unfolding place_after
move-place_after s =
    ground (arith, move-offset s start, move-line s start, move-column s start, last_line-whole s)

abbrev IsSpaces : List ℕ → Type 0
IsSpaces gap = All (λ c. is_space c ≡ true) gap

-- The tokens of the bytes `rest`, where `front` stands before them in the input: white space and a
-- lexeme by turns, each token with the place where its lexeme starts, and the end of the input last.
abbrev pub Covers : List ℕ → List ℕ → List Token → Type 0
Covers front rest [] = ⊥
Covers front rest (token ∷ []) = IsSpaces rest × (token ≡ end_token (place_after (front ++ rest)))
Covers front rest (token ∷ next ∷ tokens) =
    (gap : List ℕ) × (tail : List ℕ) × ((rest ≡ gap ++ (token.lexeme ++ tail))
      × (IsSpaces gap
          × ((token.lexeme ≢ [])
              × ((token.location ≡ place_after (front ++ gap))
                  × Covers (front ++ (gap ++ token.lexeme)) tail (next ∷ tokens)))))

pub advance_while-All :
    (test : ℕ → Bool) (rest : List ℕ) (place : SourceLocation)
    → All (λ c. test c ≡ true) (advance_while test rest place).0
unfolding advance_while
advance_while-All test [] place = tt
advance_while-All test (c ∷ rest) place = elim (Bool-cases (test c)) [
  | inl hit ↦ rw hit (hit, advance_while-All test rest (advance c place))
  | inr miss ↦ rw miss tt
]

-- What the loop owes with some fuel, wherever it stands in the input.
abbrev Owes : ℕ → Type 0
Owes fuel =
    (front : List ℕ) (lexer : Lexer)
    → lexer.location ≡ move front start
    → length lexer.rest < fuel
    → (tokens : List Token) × ((tokenize_loop fuel lexer ≡ some tokens)
        × Covers front lexer.rest tokens)

nonempty_length : (s : List ℕ) → s ≢ [] → 0 < length s
nonempty_length [] h = absurd (h refl)
nonempty_length (c ∷ s) h = omega arith

Covers-token :
    (front gap rest : List ℕ) (token : Token) (tail : List ℕ) (tokens : List Token)
    → rest ≡ token.lexeme ++ tail
    → IsSpaces gap
    → token.lexeme ≢ []
    → token.location ≡ place_after (front ++ gap)
    → Covers (front ++ (gap ++ token.lexeme)) tail tokens
    → Covers front (gap ++ rest) (token ∷ tokens)
Covers-token front gap rest token tail [] e spaces some_bytes place later = absurd later
Covers-token front gap rest token tail (next ∷ tokens) e spaces some_bytes place later =
    (gap, tail, (ap (λ z. gap ++ z) e, (spaces, (some_bytes, (place, later)))))

tokenize_round-Covers :
    (fuel : ℕ) (front gap rest : List ℕ) (place : SourceLocation)
    → Owes fuel
    → IsSpaces gap
    → place ≡ move (front ++ gap) start
    → length rest ≤ fuel
    → (tokens : List Token) × ((tokenize_round (tokenize_loop fuel) rest place ≡ some tokens)
        × Covers front (gap ++ rest) tokens)
unfolding tokenize_round
tokenize_round-Covers fuel front gap [] place owes spaces moved h = (
  end_token place ∷ [],
  (
    refl,
    (rw append-nil spaces, rw append-nil (ap end_token (moved ∙ move-place_after (front ++ gap)))),
  ),
)
tokenize_round-Covers fuel front gap (c ∷ rest) place owes spaces moved h =
    let scanned = scan_token c rest place in
    let ((reads, after), some_bytes) = scan_token-Takes c rest place in
    let there : scanned.after.location ≡ move (front ++ (gap ++ scanned.lexeme)) start =
      after
      ∙ (ap (move scanned.lexeme) moved
          ∙ (sym (move-append (front ++ gap) scanned.lexeme start)
              ∙ ap (λ z. move z start) (append_assoc front gap scanned.lexeme))) in
    let size = ap length reads ∙ length-append scanned.lexeme scanned.after.rest in
    let (tokens, (ran, covered)) =
      owes (front ++ (gap ++ scanned.lexeme)) scanned.after there
        (omega (arith, size, nonempty_length scanned.lexeme some_bytes)) in
    let token : Token = record { type = scanned.type; lexeme = scanned.lexeme; location = place } in
    (
      token ∷ tokens,
      (
        rw (tokenize_round, ran) refl,
        Covers-token front gap (c ∷ rest) token scanned.after.rest tokens reads spaces some_bytes
            (moved ∙ move-place_after (front ++ gap)) covered,
      ),
    )

tokenize_loop-Covers : (fuel : ℕ) → Owes fuel
unfolding tokenize_loop skip_whitespace
tokenize_loop-Covers zero front lexer moved h = absurd (omega arith)
tokenize_loop-Covers (suc fuel) front lexer moved h =
    let (gap, after) = advance_while is_space lexer.rest lexer.location in
    let (reads, place) = advance_while-Reads is_space lexer.rest lexer.location in
    let size = ap length reads ∙ length-append gap after.rest in
    let (tokens, (ran, covered)) =
      tokenize_round-Covers fuel front gap after.rest after.location (tokenize_loop-Covers fuel)
        (advance_while-All is_space lexer.rest lexer.location)
        (place ∙ (ap (move gap) moved ∙ sym (move-append front gap start))) (omega (arith, size)) in
    (tokens, (ran, subst (λ z. Covers front z tokens) (sym reads) covered))

-- `tokenize` ends on every input, and its tokens cover the input: the bytes between the lexemes are
-- white space, every lexeme but the last has a byte, each token has the place where its lexeme starts
-- (its offset, its line and its column, counted in the bytes before it), and the last token is the
-- end of the input.
pub tokenize-Covers :
    (input : List ℕ)
    → (tokens : List Token) × ((tokenize input ≡ some tokens) × Covers [] input tokens)
unfolding tokenize new_lexer move
tokenize-Covers input =
    tokenize_loop-Covers (suc (length input)) [] (new_lexer input) refl (omega arith)
