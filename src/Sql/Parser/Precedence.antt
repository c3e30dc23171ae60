-- ===== src/Sql/Parser/Precedence.antt =====
-- src/sql/parser.cpp: AND binds tighter than OR, both lean to the left, and parentheses override it.
use curiodb.Prelude.{
  ℕ, zero, suc, ◌+◌, ◌≤◌, ◌≡◌, refl, Bool, true, false, List, [], ◌∷◌, ◌++◌, Option, ltb, arith,
  length, length-append, append_assoc,
}
use curiodb.Prelude.Outcome.{ok}
use curiodb.Sql.Token.{SourceLocation, TokenType, Token}
use curiodb.Sql.Ast.{ComparisonExpression, LogicalOperator, Expression}
use curiodb.Sql.Parser.Cursor.{Parse, type_code, type_eq, check, advance, match, consume}
use curiodb.Sql.Parser.Conditions.{
  parse_expression_primary, parse_and_expression, parse_or_to, parse_or_expression,
}
use curiodb.Sql.Parser.Print.{token, comparison_tokens, within, expression_tokens, IsTest, IsClause}
use curiodb.Sql.Parser.Literals.{parse_comparison-comparison_tokens}
use curiodb.Sql.Parser.RoundTrip.{
  Loops, between-length, height, is_next, more-Loops, parse_sides-Loops, single-Loops,
  within-length,
}

module _ (double_from_chars : List ℕ → Option ℕ) (double_text : ℕ → Bool × List ℕ) where
  abbrev primary : ℕ → Parse Expression
  primary depth = parse_expression_primary double_from_chars (parse_or_to double_from_chars depth)

  abbrev printed : ℕ → Expression → List Token → List Token
  printed level e tail = expression_tokens double_text level e ++ tail

  abbrev And : ℕ → Expression → List Token → List Token → Type 0
  And depth e tokens tail =
      Loops double_from_chars TokenType.and LogicalOperator.conjunction (primary depth) e tokens
        tail

  abbrev Or : ℕ → Expression → List Token → List Token → Type 0
  Or depth e tokens tail =
      Loops double_from_chars TokenType.or LogicalOperator.disjunction
        (parse_and_expression double_from_chars (parse_or_to double_from_chars depth)) e tokens tail

  -- How an expression is read back at each level, to a depth that is enough for its parentheses.
  record Back (e : Expression) : Type 0 where
    as_or :
        (depth : ℕ) (tail : List Token)
        → height e ≤ depth
        → is_next TokenType.and tail ≡ false
        → Or depth e (printed 0 e tail) tail
    as_and :
        (depth : ℕ) (tail : List Token)
        → suc (height e) ≤ depth
        → And depth e (printed 1 e tail) tail
    as_one :
        (depth : ℕ) (tail : List Token)
        → suc (height e) ≤ depth
        → primary depth (printed 2 e tail) ≡ ok (e, tail)

  -- The loop of AND that is done is a side of OR.
  And-Or :
      (depth : ℕ) (e : Expression) (tokens tail : List Token)
      → is_next TokenType.and tail ≡ false
      → And depth e tokens tail
      → Or depth e tokens tail
  unfolding parse_and_expression
  And-Or depth e tokens tail stop h =
      single-Loops double_from_chars TokenType.or LogicalOperator.disjunction _ e tokens tail (
        parse_sides-Loops double_from_chars TokenType.and LogicalOperator.conjunction _ e tokens
          tail stop h)

  whole :
      (depth : ℕ) (e : Expression) (tokens tail : List Token)
      → is_next TokenType.or tail ≡ false
      → Or depth e tokens tail
      → parse_or_to double_from_chars (suc depth) tokens ≡ ok (e, tail)
  unfolding parse_or_to
  whole depth e tokens tail stop h =
      parse_sides-Loops double_from_chars TokenType.or LogicalOperator.disjunction _ e tokens tail
        stop h

  -- An expression between parentheses.
  parenthesised :
      (depth : ℕ) (e : Expression) (place : SourceLocation) (tokens tail : List Token)
      → ((after : List Token)
          → is_next TokenType.and after ≡ false
          → Or depth e (tokens ++ after) after)
      → primary (suc depth) (within place true tokens ++ tail) ≡ ok (e, tail)
  unfolding parse_expression_primary match check advance consume type_eq type_code is_next
  parenthesised depth e place tokens tail h =
      let after = token TokenType.right_paren [] place ∷ tail in
      rw
        (
          append_assoc tokens (token TokenType.right_paren [] place ∷ []) tail,
          whole depth e (tokens ++ after) after refl (h after refl),
        )
        refl

  comparison-Back :
      (c : ComparisonExpression)
      → IsTest double_text double_from_chars c.location c.operation c.value
      → Back (Expression.comparison c)
  unfolding expression_tokens parse_expression_primary match check type_eq type_code
      comparison_tokens
  comparison-Back c h =
      let one : (depth : ℕ) (tail : List Token)
          → primary depth (printed 2 (Expression.comparison c) tail)
            ≡ ok (Expression.comparison c, tail) =
        λ depth tail.
          rw (parse_comparison-comparison_tokens double_from_chars double_text c tail h) refl in
      let both : (depth : ℕ) (tail : List Token)
          → And depth (Expression.comparison c) (printed 1 (Expression.comparison c) tail) tail =
        λ depth tail.
          single-Loops double_from_chars TokenType.and LogicalOperator.conjunction (primary depth)
            (Expression.comparison c) _ tail (one depth tail) in
      record {
        as_or = λ depth tail enough stop. And-Or depth _ _ tail stop (both depth tail);
        as_and = λ depth tail enough. both depth tail;
        as_one = λ depth tail enough. one depth tail;
      }

  in_parentheses :
      (bound : ℕ) (e : Expression) (place : SourceLocation) (tokens : List Token)
      → ((depth : ℕ) (after : List Token)
          → bound ≤ depth
          → is_next TokenType.and after ≡ false
          → Or depth e (tokens ++ after) after)
      → (depth : ℕ) (tail : List Token) → suc bound ≤ depth
      → primary depth (within place true tokens ++ tail) ≡ ok (e, tail)
  in_parentheses bound e place tokens h zero tail enough = absurd (omega arith)
  in_parentheses bound e place tokens h (suc depth) tail enough =
      parenthesised depth e place tokens tail (λ after stop. h depth after (omega arith) stop)

  conjunction-Back :
      (l r : Expression) (place : SourceLocation)
      → Back l
      → Back r
      → Back (Expression.logical LogicalOperator.conjunction l r place)
  unfolding expression_tokens height type_eq type_code
  conjunction-Back l r place on_left on_right =
      let e = Expression.logical LogicalOperator.conjunction l r place in
      let both : (depth : ℕ) (tail : List Token)
          → height e ≤ depth
          → And depth e (printed 1 e tail) tail =
        λ depth tail enough.
          rw
            (append_assoc (expression_tokens double_text 1 l)
              (token TokenType.and [] place ∷ expression_tokens double_text 2 r) tail)
            (more-Loops double_from_chars TokenType.and LogicalOperator.conjunction (primary depth)
              l r place (printed 1 l (token TokenType.and [] place ∷ printed 2 r tail))
              (expression_tokens double_text 2 r) tail refl refl
              (on_left.as_and depth _ (omega arith)) (on_right.as_one depth tail (omega arith))) in
      let any : (depth : ℕ) (tail : List Token)
          → height e ≤ depth
          → is_next TokenType.and tail ≡ false
          → Or depth e (printed 0 e tail) tail =
        λ depth tail enough stop. And-Or depth e _ tail stop (both depth tail enough) in
      record {
        as_or = any;
        as_and = λ depth tail enough. both depth tail (omega arith);
        as_one = in_parentheses (height e) e place (expression_tokens double_text 0 e) any;
      }

  disjunction-Back :
      (l r : Expression) (place : SourceLocation)
      → Back l
      → Back r
      → Back (Expression.logical LogicalOperator.disjunction l r place)
  unfolding expression_tokens height type_eq type_code is_next parse_and_expression
  disjunction-Back l r place on_left on_right =
      let e = Expression.logical LogicalOperator.disjunction l r place in
      let any : (depth : ℕ) (tail : List Token)
          → height e ≤ depth
          → is_next TokenType.and tail ≡ false
          → Or depth e (printed 0 e tail) tail =
        λ depth tail enough stop.
          rw
            (append_assoc (expression_tokens double_text 0 l)
              (token TokenType.or [] place ∷ expression_tokens double_text 1 r) tail)
            (more-Loops double_from_chars TokenType.or LogicalOperator.disjunction _ l r place
              (printed 0 l (token TokenType.or [] place ∷ printed 1 r tail))
              (expression_tokens double_text 1 r) tail refl refl
              (on_left.as_or depth _ (omega arith) refl)
              (parse_sides-Loops double_from_chars TokenType.and LogicalOperator.conjunction
                (primary depth) r (printed 1 r tail) tail stop
                (on_right.as_and depth tail (omega arith)))) in
      let one = in_parentheses (height e) e place (expression_tokens double_text 0 e) any in
      record {
        as_or = any;
        as_and = λ depth tail enough.
            single-Loops double_from_chars TokenType.and LogicalOperator.conjunction (primary depth)
              e (printed 1 e tail) tail (one depth tail enough);
        as_one = one;
      }

  expression-Back : (e : Expression) → IsClause double_text double_from_chars e → Back e
  expression-Back (Expression.comparison c) h = comparison-Back c h
  expression-Back Expression.null_logical h = absurd h
  expression-Back (Expression.logical LogicalOperator.conjunction l r place) (on_left, on_right) =
      conjunction-Back l r place (expression-Back l on_left) (expression-Back r on_right)
  expression-Back (Expression.logical LogicalOperator.disjunction l r place) (on_left, on_right) =
      disjunction-Back l r place (expression-Back l on_left) (expression-Back r on_right)

  height-length :
      (level : ℕ) (e : Expression) → height e ≤ length (expression_tokens double_text level e)
  unfolding height expression_tokens
  height-length level (Expression.comparison c) = omega arith
  height-length level Expression.null_logical = omega arith
  height-length level (Expression.logical LogicalOperator.conjunction l r place) =
      within-length place (ltb 1 level) _ (suc (height l + height r)) (
        between-length (expression_tokens double_text 1 l) (expression_tokens double_text 2 r)
          (token TokenType.and [] place) (height l) (height r) (height-length 1 l)
          (height-length 2 r))
  height-length level (Expression.logical LogicalOperator.disjunction l r place) =
      within-length place (ltb 0 level) _ (suc (height l + height r)) (
        between-length (expression_tokens double_text 0 l) (expression_tokens double_text 1 r)
          (token TokenType.or [] place) (height l) (height r) (height-length 0 l)
          (height-length 1 r))

  -- An expression is read back from its tokens, up to a token that is neither AND nor OR.
  pub parse_or_expression-expression_tokens :
      (e : Expression) (tail : List Token)
      → IsClause double_text double_from_chars e
      → is_next TokenType.and tail ≡ false
      → is_next TokenType.or tail ≡ false
      → parse_or_expression double_from_chars (printed 0 e tail) ≡ ok (e, tail)
  unfolding parse_or_expression
  parse_or_expression-expression_tokens e tail h no_and no_or =
      let tokens = expression_tokens double_text 0 e in
      let enough : height e ≤ length (tokens ++ tail) =
        omega (arith, height-length 0 e, length-append tokens tail) in
      whole (length (tokens ++ tail)) e (tokens ++ tail) tail no_or
        ((expression-Back e h).as_or (length (tokens ++ tail)) tail enough no_and)
