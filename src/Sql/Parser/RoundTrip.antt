-- ===== src/Sql/Parser/RoundTrip.antt =====
-- src/sql/parser.cpp: the loop of a level of WHERE, after an expression has been read.
use curiodb.Prelude.{
  ℕ, zero, suc, ◌+◌, ◌<◌, ◌≤◌, ◌≡◌, refl, ◌∙◌, Bool, true, false, List, [], ◌∷◌, ◌++◌, Option,
  arith, length, length-append,
}
use curiodb.Prelude.Outcome.{ok}
use curiodb.Sql.Token.{SourceLocation, TokenType, Token}
use curiodb.Sql.Ast.{LogicalOperator, Expression}
use curiodb.Sql.Parser.Cursor.{Parse, type_eq, check, advance}
use curiodb.Sql.Parser.Conditions.{parse_operators, parse_sides}
use curiodb.Sql.Parser.Print.{token, within}

-- The next token, which there must be, has the type.
unfoldable pub is_next : TokenType → List Token → Bool
unfolding type_eq
is_next type [] = true
is_next type (t ∷ rest) = type_eq t.type type

unfoldable pub height : Expression → ℕ
height (Expression.comparison c) = 0
height Expression.null_logical = 0
height (Expression.logical op l r place) = suc (height l + height r)

length-rest : (xs tail : List Token) → length tail ≤ length (xs ++ tail)
length-rest [] tail = omega arith
length-rest (x ∷ xs) tail = omega (arith, length-rest xs tail)

pub between-length :
    (xs ys : List Token) (t : Token) (n m : ℕ)
    → n ≤ length xs
    → m ≤ length ys
    → suc (n + m) ≤ length (xs ++ t ∷ ys)
between-length xs ys t n m h h' = omega (arith, length-append xs (t ∷ ys))

pub within-length :
    (place : SourceLocation) (b : Bool) (xs : List Token) (n : ℕ)
    → n ≤ length xs
    → n ≤ length (within place b xs)
within-length place true xs n h =
    omega (arith, length-append xs (token TokenType.right_paren [] place ∷ []))
within-length place false xs n h = h

module _ (double_from_chars : List ℕ → Option ℕ) where
  -- The loop of a level has read an expression, with rounds enough for the rest.
  abbrev pub Loops :
      TokenType → LogicalOperator → Parse Expression → Expression → List Token → List Token → Type 0
  Loops type operation side e tokens tail =
      (rounds : ℕ) × (length tail < rounds)
      × (parse_sides double_from_chars type operation side tokens
          ≡ parse_operators double_from_chars rounds type operation side e tail)

  module _ (type : TokenType) (operation : LogicalOperator) (side : Parse Expression) where
    pub single-Loops :
        (e : Expression) (tokens tail : List Token)
        → side tokens ≡ ok (e, tail)
        → Loops type operation side e tokens tail
    unfolding parse_sides
    single-Loops e tokens tail h = (suc (length tail), omega arith, rw (h, parse_sides) refl)

    pub more-Loops :
        (l r : Expression) (place : SourceLocation) (tokens right tail : List Token)
        → type_eq type TokenType.end_of_input ≡ false
        → type_eq type type ≡ true
        → Loops type operation side l tokens (token type [] place ∷ (right ++ tail))
        → side (right ++ tail) ≡ ok (r, tail)
        → Loops type operation side (Expression.logical operation l r place) tokens tail
    unfolding parse_operators check advance
    more-Loops l r place tokens right tail other same (zero, bound, h) after = absurd (omega arith)
    more-Loops l r place tokens right tail other same (suc rounds, bound, h) after = (
      rounds,
      omega (arith, length-rest right tail),
      h ∙ rw (same, parse_operators) (rw other (rw after refl)),
    )

    pub parse_sides-Loops :
        (e : Expression) (tokens tail : List Token)
        → is_next type tail ≡ false
        → Loops type operation side e tokens tail
        → parse_sides double_from_chars type operation side tokens ≡ ok (e, tail)
    unfolding parse_operators check is_next
    parse_sides-Loops e tokens [] stop (rounds, bound, h) = absurd (ground arith)
    parse_sides-Loops e tokens (t ∷ tail) stop (zero, bound, h) = absurd (omega arith)
    parse_sides-Loops e tokens (t ∷ tail) stop (suc rounds, bound, h) =
        h ∙ rw (stop, parse_operators) refl
