-- ===== src/Sql/Parser/Literals.antt =====
-- src/sql/parser.cpp: values and comparisons are read back.
use curiodb.Prelude.{
  ℕ, zero, suc, ◌+◌, ◌-◌, ◌*◌, ◌/◌, ◌%◌, ◌^◌, ◌<◌, ◌≤◌, ◌≡◌, inl, inr, refl, ap, ◌∙◌, Bool, true,
  false, List, [], ◌∷◌, ◌++◌, Option, some, ◌==◌, ltb, leb, ==_iff, arith, Bool-cases,
}
use Prim.Native.String.{String}
use curiodb.Prelude.Int.{pos, negsuc}
use curiodb.Prelude.Text.{decimal, decimal_digits}
use curiodb.Prelude.Outcome.{ok}
use curiodb.Sql.Token.{SourceLocation, TokenType, Token}
use curiodb.Sql.Ast.{LiteralValue, Literal, ComparisonOperator, ComparisonExpression}
use curiodb.Sql.Parser.Cursor.{
  type_code, type_eq, current, check, advance, match, consume, from_digits, digits_value,
}
use curiodb.Sql.Parser.Clauses.{
  unquote, decode_sql_string, from_chars_i64, signed_i64, literal_of, operator_of,
}
use curiodb.Sql.Parser.Conditions.{
  string_of, parse_number, parse_string, parse_literal, parse_compared, parse_comparison,
}
use curiodb.Sql.Parser.Print.{
  token, quoted_bytes, value_tokens, operator_tokens, comparison_tokens, IsWritten, IsTest,
}

digits_value-digit :
    (v d : ℕ) (acc : List ℕ)
    → d < 10
    → digits_value v ((d + 48) ∷ acc) ≡ digits_value (v * 10 + d) acc
unfolding digits_value
digits_value-digit v d acc small =
    let low : leb 48 (d + 48) ≡ true = ground arith in
    let high : leb (d + 48) 57 ≡ true = ground arith in
    let same : d + 48 - 48 ≡ d = omega arith in rw (low, high, same) refl

from_digits-digit :
    (d : ℕ) (acc : List ℕ) → d < 10 → from_digits ((d + 48) ∷ acc) ≡ digits_value d acc
unfolding from_digits
from_digits-digit d acc small =
    let same : 0 * 10 + d ≡ d = omega arith in
    digits_value-digit 0 d acc small ∙ ap (λ m. digits_value m acc) same

from_digits-decimal_digits :
    (fuel n : ℕ) (acc : List ℕ)
    → n ≤ fuel
    → from_digits (decimal_digits (suc fuel) n acc) ≡ digits_value n acc
unfolding decimal_digits
from_digits-decimal_digits zero n acc bound =
    let small : ltb n 10 ≡ true = ground arith in rw small (from_digits-digit n acc (omega arith))
from_digits-decimal_digits (suc fuel) n acc bound = elim (Bool-cases (ltb n 10)) [
  | inl small ↦ rw small (from_digits-digit n acc (ground arith))
  | inr large ↦
      let whole : n / 10 * 10 + n % 10 ≡ n = omega arith in
      rw large (
        from_digits-decimal_digits fuel (n / 10) ((n % 10 + 48) ∷ acc) (ground arith)
        ∙ digits_value-digit (n / 10) (n % 10) acc (omega arith)
        ∙ ap (λ m. digits_value m acc) whole)
]

pub from_digits-decimal : (n : ℕ) → from_digits (decimal n) ≡ some n
unfolding decimal digits_value
from_digits-decimal n = from_digits-decimal_digits n n [] (omega arith)

-- A text of digits has no minus sign.
from_chars_i64-from_digits :
    (lexeme : List ℕ) (n : ℕ)
    → from_digits lexeme ≡ some n
    → from_chars_i64 false lexeme ≡ signed_i64 false lexeme
unfolding from_chars_i64 from_digits digits_value
from_chars_i64-from_digits [] n e = absurd (ground arith)
from_chars_i64-from_digits (c ∷ rest) n e = elim (Bool-cases (c == 45)) [
  | inr plain ↦ rw plain refl
  | inl minus ↦ absurd (ground (arith, ==_iff c 45))
]

from_chars_i64-decimal : (n : ℕ) → n < 2 ^ 63 → from_chars_i64 false (decimal n) ≡ some (pos n)
unfolding signed_i64
from_chars_i64-decimal zero h =
    let read = from_digits-decimal 0 in
    from_chars_i64-from_digits (decimal 0) 0 read ∙ rw (read, signed_i64) refl
from_chars_i64-decimal (suc n) h =
    let read = from_digits-decimal (suc n) in
    from_chars_i64-from_digits (decimal (suc n)) (suc n) read ∙ rw (read, signed_i64) (ground arith)

from_chars_i64-decimal_negative :
    (n : ℕ) → n < 2 ^ 63 → from_chars_i64 true (decimal (suc n)) ≡ some (negsuc n)
unfolding from_chars_i64 signed_i64
from_chars_i64-decimal_negative n h = rw (from_digits-decimal (suc n), signed_i64) (ground arith)

quoted_bytes-some : (s : List ℕ) → (c : ℕ) × (rest : List ℕ) × (quoted_bytes s ≡ c ∷ rest)
unfolding quoted_bytes
quoted_bytes-some [] = (39, [], refl)
quoted_bytes-some (c ∷ rest) = elim (Bool-cases (c == 39)) [
  | inl quote ↦ (39, 39 ∷ quoted_bytes rest, rw quote refl)
  | inr plain ↦ (c, quoted_bytes rest, rw plain refl)
]

unquote-plain :
    (c d : ℕ) (rest : List ℕ) → (c == 39) ≡ false → unquote (c ∷ d ∷ rest) ≡ c ∷ unquote (d ∷ rest)
unfolding unquote
unquote-plain c d [] plain = refl
unquote-plain c d (e ∷ rest) plain = rw plain refl

unquote-quoted_bytes : (s : List ℕ) → unquote (quoted_bytes s) ≡ s
unfolding unquote quoted_bytes
unquote-quoted_bytes [] = refl
unquote-quoted_bytes (c ∷ rest) =
    let (d, more, shape) = quoted_bytes-some rest in
    let after : unquote (d ∷ more) ≡ rest = rw (← shape) (unquote-quoted_bytes rest) in
    elim (Bool-cases (c == 39)) [
      | inl quote ↦ rw (quote, shape) (ground (arith, after, ==_iff c 39))
      | inr plain ↦ rw (plain, shape) (unquote-plain c d more plain ∙ ap (λ r. c ∷ r) after)
    ]

literal_of-some :
    (t : Token) (place : SourceLocation) (message : String) (v : LiteralValue) (rest : List Token)
    → literal_of t place message (some v) rest ≡ ok (record { value = v; location = place }, rest)
unfolding literal_of
literal_of-some t place message v rest = refl

module _ (double_from_chars : List ℕ → Option ℕ) (double_text : ℕ → Bool × List ℕ) where
  pub parse_literal-value_tokens :
      (place : SourceLocation) (v : LiteralValue) (tail : List Token)
      → IsWritten double_text double_from_chars v
      → parse_literal double_from_chars (value_tokens double_text place v ++ tail)
        ≡ ok (record { value = v; location = place }, tail)
  unfolding parse_literal parse_number parse_string current check match advance type_eq type_code
      value_tokens literal_of decode_sql_string string_of
  parse_literal-value_tokens place LiteralValue.null tail h = refl
  parse_literal-value_tokens place (LiteralValue.integer (pos n)) tail h =
      rw (from_chars_i64-decimal n h) refl
  parse_literal-value_tokens place (LiteralValue.integer (negsuc n)) tail h =
      rw (from_chars_i64-decimal_negative n h) refl
  parse_literal-value_tokens place (LiteralValue.double d) tail h =
      elim (Bool-cases (double_text d).0) [
        | inl negative ↦ ground (arith, negative, h)
        | inr positive ↦ ground (arith, positive, h)
      ]
  parse_literal-value_tokens place (LiteralValue.string s) tail h =
      let (c, rest, shape) = quoted_bytes-some s in
      let read : unquote (c ∷ rest) ≡ s = rw (← shape) (unquote-quoted_bytes s) in
      rw (shape, parse_string) (rw (read, string_of) refl)

  parse_compared-literal :
      (column : Token) (operation : ComparisonOperator) (t : Token) (l : Literal)
      (tail : List Token)
      → type_eq t.type TokenType.end_of_input ≡ false
      → IsWritten double_text double_from_chars l.value
      → parse_compared double_from_chars column
          (some operation)
          (t ∷ value_tokens double_text l.location l.value ++ tail)
        ≡ ok (
          record {
            column_name = column.lexeme;
            operation = operation;
            value = l;
            location = column.location;
          },
          tail,
        )
  unfolding parse_compared advance
  parse_compared-literal column operation t l tail other h =
      rw other (rw (parse_literal-value_tokens l.location l.value tail h) refl)

  parse_comparison-operator_tokens :
      (name : List ℕ) (place : SourceLocation) (o : ComparisonOperator) (l : Literal)
      (tail : List Token)
      → IsTest double_text double_from_chars place o l
      → parse_comparison double_from_chars
          (token TokenType.identifier name place ∷ operator_tokens double_text place o l ++ tail)
        ≡ ok (record { column_name = name; operation = o; value = l; location = place }, tail)
  unfolding parse_comparison operator_tokens consume match check advance current operator_of type_eq
      type_code
  parse_comparison-operator_tokens name place ComparisonOperator.equal l tail h =
      parse_compared-literal (token TokenType.identifier name place) ComparisonOperator.equal
        (token TokenType.equal [] place) l tail refl h
  parse_comparison-operator_tokens name place ComparisonOperator.not_equal l tail h =
      parse_compared-literal (token TokenType.identifier name place) ComparisonOperator.not_equal
        (token TokenType.not_equal [] place) l tail refl h
  parse_comparison-operator_tokens name place ComparisonOperator.less_than l tail h =
      parse_compared-literal (token TokenType.identifier name place) ComparisonOperator.less_than
        (token TokenType.less_than [] place) l tail refl h
  parse_comparison-operator_tokens name place ComparisonOperator.less_than_or_equal l tail h =
      parse_compared-literal (token TokenType.identifier name place)
        ComparisonOperator.less_than_or_equal (token TokenType.less_than_or_equal [] place) l tail
        refl h
  parse_comparison-operator_tokens name place ComparisonOperator.greater_than l tail h =
      parse_compared-literal (token TokenType.identifier name place) ComparisonOperator.greater_than
        (token TokenType.greater_than [] place) l tail refl h
  parse_comparison-operator_tokens name place ComparisonOperator.greater_than_or_equal l tail h =
      parse_compared-literal (token TokenType.identifier name place)
        ComparisonOperator.greater_than_or_equal (token TokenType.greater_than_or_equal [] place) l
        tail refl h
  parse_comparison-operator_tokens name place ComparisonOperator.is_null l tail h = rw h refl
  parse_comparison-operator_tokens name place ComparisonOperator.is_not_null l tail h = rw h refl

  pub parse_comparison-comparison_tokens :
      (c : ComparisonExpression) (tail : List Token)
      → IsTest double_text double_from_chars c.location c.operation c.value
      → parse_comparison double_from_chars (comparison_tokens double_text c ++ tail) ≡ ok (c, tail)
  unfolding comparison_tokens
  parse_comparison-comparison_tokens c tail h =
      parse_comparison-operator_tokens c.column_name c.location c.operation c.value tail h
