-- ===== src/Sql/Parser/Reads.antt =====
-- src/sql/parser.cpp: what a parsing function may do to the tokens, and that its steps keep to it.
use curiodb.Prelude.{
  ℕ, suc, ◌+◌, ◌≤◌, ◌≡◌, Bool, true, false, not, ◌&&◌, ◌||◌, List, [], ◌∷◌, length, leb, arith,
}
use curiodb.Prelude.Outcome.{Outcome, ok, err}
use curiodb.Sql.Token.{TokenType, Token}
use curiodb.Sql.Parser.Cursor.{
  Parse, Failure, reported, length_error, past_end, out_of_rounds, and_then, ◌>>=◌, done, type_eq,
  report_error, ends_input,
}

-- A string literal has the bytes of its two quotes at least.
unfoldable pub is_quoted : Token → Bool
is_quoted t = not (type_eq t.type TokenType.string_literal) || leb 2 (length t.lexeme)

unfoldable pub are_quoted : List Token → Bool
unfolding is_quoted
are_quoted [] = true
are_quoted (t ∷ rest) = is_quoted t && are_quoted rest

-- The tokens end with one of type `end_of_input`, and their string literals are quoted.
unfoldable pub is_input : List Token → Bool
unfolding ends_input are_quoted
is_input tokens = ends_input tokens && are_quoted tokens

-- A result leaves tokens that still end the input, `uses` fewer at least than the `total` there were, or
-- is an error that was reported.
abbrev pub Leaves {ℓ} : {A : Type ℓ} → ℕ → ℕ → Outcome Failure (A × List Token) → Type 0
Leaves uses total (ok (result, rest)) = (is_input rest ≡ true) × (uses + length rest ≤ total)
Leaves uses total (err (reported e)) = Unit
Leaves uses total (err length_error) = ⊥
Leaves uses total (err past_end) = ⊥
Leaves uses total (err out_of_rounds) = ⊥

-- The function does so on at most `most` tokens.
pub record Reads {ℓ} {A : Type ℓ} (most uses : ℕ) (p : Parse A) : Type ℓ where
  pub leaves :
      (tokens : List Token)
      → is_input tokens ≡ true
      → length tokens ≤ most
      → Leaves uses (length tokens) (p tokens)

pub is_input-tail :
    (t : Token) (rest : List Token)
    → is_input (t ∷ rest) ≡ true
    → type_eq t.type TokenType.end_of_input ≡ false
    → is_input rest ≡ true
unfolding is_input are_quoted ends_input
is_input-tail t [] e other = absurd (ground arith)
is_input-tail t (u ∷ rest) e other = ground arith

pub is_input-is_quoted :
    (t : Token) (rest : List Token) → is_input (t ∷ rest) ≡ true → is_quoted t ≡ true
unfolding is_input are_quoted
is_input-is_quoted t rest e = ground arith

pub Leaves-mono {ℓ} :
    {A : Type ℓ} (uses uses' total total' : ℕ) (r : Outcome Failure (A × List Token))
    → total + uses' ≤ total' + uses
    → Leaves uses total r
    → Leaves uses' total' r
Leaves-mono uses uses' total total' (ok (result, rest)) le (ends, left) = (ends, omega arith)
Leaves-mono uses uses' total total' (err (reported e)) le h = tt
Leaves-mono uses uses' total total' (err length_error) le h = h
Leaves-mono uses uses' total total' (err past_end) le h = h
Leaves-mono uses uses' total total' (err out_of_rounds) le h = h

and_then-Leaves {ℓ κ} :
    {A : Type ℓ} {B : Type κ} (uses total uses' : ℕ) (r : Outcome Failure (A × List Token))
    (next : A → Parse B)
    → Leaves uses total r
    → ((a : A) (rest : List Token)
        → is_input rest ≡ true
        → uses + length rest ≤ total
        → Leaves uses' total (next a rest))
    → Leaves uses' total (and_then r next)
and_then-Leaves uses total uses' (ok (result, rest)) next (ends, left) after =
    after result rest ends left
and_then-Leaves uses total uses' (err (reported e)) next h after = tt
and_then-Leaves uses total uses' (err length_error) next h after = h
and_then-Leaves uses total uses' (err past_end) next h after = h
and_then-Leaves uses total uses' (err out_of_rounds) next h after = h

module _ {ℓ κ} {A : Type ℓ} {B : Type κ} {most : ℕ} {p : Parse A} {next : A → Parse B} where
  -- A first part that need not read leaves it to the second.
  pub then-Reads :
      {uses : ℕ}
      → Reads most 0 p
      → ((a : A) → Reads most uses (next a))
      → Reads most uses (p >>= next)
  then-Reads {uses} first after = record {
    leaves = λ tokens ends le.
        and_then-Leaves 0 (length tokens) uses (p tokens) next (first.leaves tokens ends le)
          (λ a rest ends' left.
            Leaves-mono uses uses (length rest) (length tokens) (next a rest) (omega arith)
              ((after a).leaves rest ends' (omega arith)));
  }

  -- After a first part that reads, the second has fewer tokens.
  pub read_then-Reads :
      {fewer : ℕ}
      → most ≤ suc fewer
      → Reads most 1 p
      → ((a : A) → Reads fewer 0 (next a))
      → Reads most 1 (p >>= next)
  read_then-Reads {fewer} bound first after = record {
    leaves = λ tokens ends le.
        and_then-Leaves 1 (length tokens) 1 (p tokens) next (first.leaves tokens ends le)
          (λ a rest ends' left.
            Leaves-mono 0 1 (length rest) (length tokens) (next a rest) (omega arith)
              ((after a).leaves rest ends' (omega arith)));
  }

  pub read_and_then-Reads :
      Reads most 1 p → ((a : A) → Reads most 0 (next a)) → Reads most 1 (p >>= next)
  read_and_then-Reads first after = record {
    leaves = λ tokens ends le.
        and_then-Leaves 1 (length tokens) 1 (p tokens) next (first.leaves tokens ends le)
          (λ a rest ends' left.
            Leaves-mono 0 1 (length rest) (length tokens) (next a rest) (omega arith)
              ((after a).leaves rest ends' (omega arith)));
  }

module _ {ℓ} {A : Type ℓ} {p : Parse A} where
  pub Reads-fewer : {most fewer uses : ℕ} → fewer ≤ most → Reads most uses p → Reads fewer uses p
  Reads-fewer bound h = record { leaves = λ tokens ends le. h.leaves tokens ends (omega arith) }

  pub Reads-relax : {most : ℕ} → Reads most 1 p → Reads most 0 p
  Reads-relax {most} h = record {
    leaves = λ tokens ends le.
        Leaves-mono 1 0 (length tokens) (length tokens) (p tokens) (omega arith)
          (h.leaves tokens ends le);
  }

  -- No token at all does not end the input.
  pub Reads-zero : {uses : ℕ} → Reads 0 uses p
  unfolding is_input ends_input
  Reads-zero {uses} = record { leaves = nothing }
    where
      nothing :
          (tokens : List Token)
          → is_input tokens ≡ true
          → length tokens ≤ 0
          → Leaves uses (length tokens) (p tokens)
      nothing [] ends le = absurd (ground arith)
      nothing (t ∷ rest) ends le = absurd (omega arith)

module _ {most : ℕ} where
  pub done-Reads {ℓ} : {A : Type ℓ} (a : A) → Reads most 0 (done a)
  done-Reads a = record { leaves = λ tokens ends le. (ends, omega arith) }

  pub report_error-Reads {ℓ} :
      {A : Type ℓ} {uses : ℕ} (token : Token) (message : List ℕ)
      → Reads {A = A} most uses (report_error token message)
  unfolding report_error
  report_error-Reads token message = record { leaves = λ tokens ends le. tt }
