-- ===== src/Sql/Parser/Print.antt =====
-- The tokens of a statement: what src/sql/parser.cpp reads back.
use curiodb.Prelude.{
  ℕ, suc, ◌≡◌, Bool, true, false, List, [], ◌∷◌, ◌++◌, Option, some, if◌then◌else◌, ◌==◌, ltb,
}
use curiodb.Prelude.Int.{pos, negsuc, IsI64}
use curiodb.Prelude.Text.{decimal}
use curiodb.Sql.Token.{SourceLocation, TokenType, Token}
use curiodb.Sql.Ast.{
  LiteralValue, Literal, ComparisonOperator, ComparisonExpression, LogicalOperator, Expression,
}

abbrev pub token : TokenType → List ℕ → SourceLocation → Token
token type lexeme location = record { type = type; lexeme = lexeme; location = location }

-- A quote in a text is written twice.
unfoldable pub quoted_bytes : List ℕ → List ℕ
quoted_bytes [] = 39 ∷ []
quoted_bytes (c ∷ rest) =
    let rest' = quoted_bytes rest in if c == 39 then 39 ∷ 39 ∷ rest' else c ∷ rest'

abbrev pub within : SourceLocation → Bool → List Token → List Token
within place true tokens =
    token TokenType.left_paren [] place ∷ (tokens ++ token TokenType.right_paren [] place ∷ [])
within place false tokens = tokens

-- `double_text` has the sign and the digits of a double.
module _ (double_text : ℕ → Bool × List ℕ) where
  unfoldable pub value_tokens : SourceLocation → LiteralValue → List Token
  unfolding quoted_bytes
  value_tokens place LiteralValue.null = token TokenType.null [] place ∷ []
  value_tokens place (LiteralValue.integer (pos n)) =
      token TokenType.integer_literal (decimal n) place ∷ []
  value_tokens place (LiteralValue.integer (negsuc n)) =
      token TokenType.minus [] place ∷ token TokenType.integer_literal (decimal (suc n)) place ∷ []
  value_tokens place (LiteralValue.double d) =
      if (double_text d).0
      then token TokenType.minus [] place
        ∷ token TokenType.floating_point_literal (double_text d).1 place
        ∷ []
      else token TokenType.floating_point_literal (double_text d).1 place ∷ []
  value_tokens place (LiteralValue.string s) =
      token TokenType.string_literal (39 ∷ quoted_bytes s) place ∷ []

  abbrev pub literal_tokens : Literal → List Token
  literal_tokens l = value_tokens l.location l.value

  unfoldable pub operator_tokens : SourceLocation → ComparisonOperator → Literal → List Token
  unfolding value_tokens
  operator_tokens place ComparisonOperator.equal l =
      token TokenType.equal [] place ∷ literal_tokens l
  operator_tokens place ComparisonOperator.not_equal l =
      token TokenType.not_equal [] place ∷ literal_tokens l
  operator_tokens place ComparisonOperator.less_than l =
      token TokenType.less_than [] place ∷ literal_tokens l
  operator_tokens place ComparisonOperator.less_than_or_equal l =
      token TokenType.less_than_or_equal [] place ∷ literal_tokens l
  operator_tokens place ComparisonOperator.greater_than l =
      token TokenType.greater_than [] place ∷ literal_tokens l
  operator_tokens place ComparisonOperator.greater_than_or_equal l =
      token TokenType.greater_than_or_equal [] place ∷ literal_tokens l
  operator_tokens place ComparisonOperator.is_null l =
      token TokenType.is [] place ∷ token TokenType.null [] place ∷ []
  operator_tokens place ComparisonOperator.is_not_null l =
      token TokenType.is [] place
      ∷ token TokenType.not [] place
      ∷ token TokenType.null [] place
      ∷ []

  unfoldable pub comparison_tokens : ComparisonExpression → List Token
  unfolding operator_tokens
  comparison_tokens c =
      token TokenType.identifier c.column_name c.location
      ∷ operator_tokens c.location c.operation c.value

  -- AND binds tighter than OR and both lean to the left: an operator of a lower level than its place
  -- stands between parentheses.
  unfoldable pub expression_tokens : ℕ → Expression → List Token
  unfolding comparison_tokens
  expression_tokens level (Expression.comparison c) = comparison_tokens c
  expression_tokens level Expression.null_logical = []
  expression_tokens level (Expression.logical LogicalOperator.disjunction l r place) =
      let left = expression_tokens 0 l in
      let right = expression_tokens 1 r in
      within place (ltb 0 level) (left ++ token TokenType.or [] place ∷ right)
  expression_tokens level (Expression.logical LogicalOperator.conjunction l r place) =
      let left = expression_tokens 1 l in
      let right = expression_tokens 2 r in
      within place (ltb 1 level) (left ++ token TokenType.and [] place ∷ right)

  -- What the source can write: integers of 64 bits, doubles whose text is read back, NULL as the value of
  -- IS NULL, and no pointer that leads nowhere.
  module _ (double_from_chars : List ℕ → Option ℕ) where
    abbrev pub IsWritten : LiteralValue → Type 0
    IsWritten LiteralValue.null = Unit
    IsWritten (LiteralValue.integer z) = IsI64 z
    IsWritten (LiteralValue.double d) =
        double_from_chars (if (double_text d).0 then 45 ∷ (double_text d).1 else (double_text d).1)
        ≡ some d
    IsWritten (LiteralValue.string s) = Unit

    abbrev pub IsTest : SourceLocation → ComparisonOperator → Literal → Type 0
    IsTest place ComparisonOperator.is_null l =
        l ≡ record { value = LiteralValue.null; location = place }
    IsTest place ComparisonOperator.is_not_null l =
        l ≡ record { value = LiteralValue.null; location = place }
    IsTest place _ l = IsWritten l.value

    abbrev pub IsClause : Expression → Type 0
    IsClause (Expression.comparison c) = IsTest c.location c.operation c.value
    IsClause Expression.null_logical = ⊥
    IsClause (Expression.logical op l r place) = IsClause l × IsClause r
