-- ===== src/Sql/Parser/Returns.antt =====
-- src/sql/parser.cpp: every parsing function returns, with a result or a reported error.
use curiodb.Prelude.{
  ℕ, zero, suc, ◌^◌, leb, ltb, ◌≤◌, ◌≡◌, refl, Bool, true, false, List, [], ◌∷◌, Option, none, some,
  if◌then◌else◌, length, arith, ◌&&◌,
}
use Prim.Native.String.{String}
use curiodb.Prelude.Text.{text}
use curiodb.Sql.Token.{SourceLocation, TokenType, Token}
use curiodb.Sql.Ast.{LiteralValue, Literal, ComparisonOperator, Expression, LogicalOperator}
use curiodb.Sql.Parser.Cursor.{Parse, report_error, done, type_code, type_eq, from_digits}
use curiodb.Sql.Parser.Clauses.{
  parse_constraints, parse_varchar_length, parse_data_type, parse_column, literal_of, operator_of,
  decode_sql_string,
}
use curiodb.Sql.Parser.Conditions.{
  parse_number, string_of, parse_string, parse_literal, parse_compared, parse_comparison,
  parse_operators, parse_sides, parse_expression_primary, parse_and_expression, parse_or_to,
  parse_or_expression,
}
use curiodb.Sql.Parser.Reads.{
  Reads, then-Reads, read_and_then-Reads, Reads-fewer, Reads-relax, Reads-zero, done-Reads,
  report_error-Reads,
}
use curiodb.Sql.Parser.Steps.{
  current-Reads, advance-Reads, report_found-Reads, if-Reads, match-Reads, check-advance-Reads,
  match_then-Reads, string_literal-Reads, consume-Reads,
}

-- A constraint reads a token, so that there are rounds enough.
parse_constraints-Reads :
    (rounds most : ℕ) (primary_key unique not_null : Bool)
    → most ≤ rounds
    → Reads most 0 (parse_constraints rounds primary_key unique not_null)
unfolding parse_constraints type_eq type_code
parse_constraints-Reads rounds zero primary_key unique not_null bound = Reads-zero
parse_constraints-Reads zero (suc most) primary_key unique not_null bound = absurd (omega arith)
parse_constraints-Reads (suc rounds) (suc most) primary_key unique not_null bound =
    let on : (p u n : Bool) → Reads most 0 (parse_constraints rounds p u n) =
      λ p u n. parse_constraints-Reads rounds most p u n (omega arith) in
    match_then-Reads TokenType.primary refl (omega arith)
      (then-Reads current-Reads (λ t.
        if-Reads primary_key (report_error-Reads t _)
          (then-Reads (Reads-relax (consume-Reads TokenType.key _ refl)) (λ k. on true true true))))
      (match_then-Reads TokenType.unique refl (omega arith)
        (then-Reads current-Reads
          (λ t. if-Reads unique (report_error-Reads t _) (on primary_key true not_null)))
        (match_then-Reads TokenType.not refl (omega arith)
          (then-Reads current-Reads (λ t. if-Reads not_null (report_error-Reads t _) (
            then-Reads (Reads-relax (consume-Reads TokenType.null _ refl))
              (λ k. on primary_key unique true))))
          (done-Reads (primary_key, unique, not_null))))

module _ {most : ℕ} where
  parse_varchar_length-Reads : (token : Token) → Reads most 0 (parse_varchar_length token)
  unfolding parse_varchar_length
  parse_varchar_length-Reads token =
      elim (from_digits token.lexeme)
        as (λ o. Reads most 0 (elim o [
          | none ↦ report_error token (text "VARCHAR length must be a positive integer")
          | some length ↦
              if leb 1 length && ltb length (2 ^ 64)
              then done length
              else report_error token (text "VARCHAR length must be a positive integer")
        ])) [
          | none ↦ report_error-Reads token _
          | some size ↦ if-Reads _ (done-Reads size) (report_error-Reads token _)
        ]

  parse_data_type-Reads : Reads most 0 parse_data_type
  unfolding parse_data_type type_eq type_code
  parse_data_type-Reads = then-Reads (match-Reads TokenType.int) (λ b. if-Reads b (done-Reads _) (
      then-Reads (match-Reads TokenType.double) (λ c. if-Reads c (done-Reads _) (
        then-Reads (match-Reads TokenType.varchar) (λ d.
          if-Reads d
            (then-Reads (Reads-relax (consume-Reads TokenType.left_paren _ refl)) (λ p.
              then-Reads (Reads-relax (consume-Reads TokenType.integer_literal _ refl)) (λ t.
                then-Reads (parse_varchar_length-Reads t) (λ n.
                  then-Reads (Reads-relax (consume-Reads TokenType.right_paren _ refl))
                    (λ q. done-Reads _)))))
            (report_found-Reads _))))))

  pub parse_column-Reads : Reads most 1 parse_column
  unfolding parse_column type_eq type_code
  parse_column-Reads = read_and_then-Reads (consume-Reads TokenType.identifier _ refl) (λ name.
      then-Reads parse_data_type-Reads (λ type.
        then-Reads
          (record {
            leaves = λ tokens ends le.
                (parse_constraints-Reads (length tokens) (length tokens) false false false
                    (omega arith)).leaves
                  tokens ends (omega arith);
          })
          (λ set. done-Reads _)))

  literal_of-Reads :
      (token : Token) (location : SourceLocation) (message : String) (v : Option LiteralValue)
      → Reads most 0 (literal_of token location message v)
  unfolding literal_of
  literal_of-Reads token location message none = report_error-Reads token _
  literal_of-Reads token location message (some v) = done-Reads _

module _ (double_from_chars : List ℕ → Option ℕ) where
  parse_number-Reads :
      {most uses : ℕ} (negative : Bool) (location : SourceLocation) {otherwise : Parse Literal}
      → uses ≤ 1
      → Reads most uses otherwise
      → Reads most uses (parse_number double_from_chars negative location otherwise)
  unfolding parse_number type_eq type_code
  parse_number-Reads {most = zero} negative location bound h = Reads-zero
  parse_number-Reads {most = suc most} negative location bound h =
      check-advance-Reads TokenType.integer_literal refl (omega arith)
        (λ t. literal_of-Reads t location _ _)
        (check-advance-Reads TokenType.floating_point_literal refl (omega arith)
          (λ t. literal_of-Reads t location _ _) h)

  string_of-Reads :
      {most : ℕ} (location : SourceLocation) (lexeme : List ℕ)
      → leb 2 (length lexeme) ≡ true
      → Reads most 0 (string_of double_from_chars location (decode_sql_string lexeme))
  unfolding string_of decode_sql_string
  string_of-Reads location [] quoted = absurd (ground arith)
  string_of-Reads location (c ∷ []) quoted = absurd (ground arith)
  string_of-Reads location (c ∷ d ∷ rest) quoted = done-Reads _

  parse_string-Reads :
      {most : ℕ} (location : SourceLocation)
      → Reads most 1 (parse_string double_from_chars location)
  unfolding parse_string type_eq type_code
  parse_string-Reads {most = zero} location = Reads-zero
  parse_string-Reads {most = suc most} location =
      string_literal-Reads (λ t quoted. string_of-Reads location t.lexeme quoted)
        (report_found-Reads _)

  pub parse_literal-Reads : {most : ℕ} → Reads most 1 (parse_literal double_from_chars)
  unfolding parse_literal type_eq type_code
  parse_literal-Reads {most = zero} = Reads-zero
  parse_literal-Reads {most = suc most} = then-Reads current-Reads (λ start.
      match_then-Reads {more = 0} TokenType.minus refl (omega arith)
        (parse_number-Reads true start.location (omega arith) (report_found-Reads _))
        (match_then-Reads {more = 0} TokenType.null refl (omega arith) (done-Reads _) (
          parse_number-Reads false start.location (omega arith)
            (parse_string-Reads start.location))))

  parse_compared-Reads :
      {most : ℕ} (column : Token) (o : Option ComparisonOperator)
      → Reads most 0 (parse_compared double_from_chars column o)
  unfolding parse_compared
  parse_compared-Reads column none = report_found-Reads _
  parse_compared-Reads column (some operation) =
      then-Reads advance-Reads
        (λ t. then-Reads (Reads-relax parse_literal-Reads) (λ value. done-Reads _))

  parse_comparison-Reads : {most : ℕ} → Reads most 1 (parse_comparison double_from_chars)
  unfolding parse_comparison type_eq type_code
  parse_comparison-Reads =
      read_and_then-Reads (consume-Reads TokenType.identifier _ refl) (λ column.
        then-Reads (match-Reads TokenType.is) (λ b.
          if-Reads b
            (then-Reads (match-Reads TokenType.not) (λ n.
              then-Reads (Reads-relax (consume-Reads TokenType.null _ refl)) (λ t. done-Reads _)))
            (then-Reads current-Reads (λ t. parse_compared-Reads column (operator_of t.type)))))

  parse_operators-Reads :
      (rounds most : ℕ) (type : TokenType) (operation : LogicalOperator) (side : Parse Expression)
      (left : Expression)
      → type_eq type TokenType.end_of_input ≡ false
      → most ≤ rounds
      → Reads most 1 side
      → Reads most 0 (parse_operators double_from_chars rounds type operation side left)
  unfolding parse_operators
  parse_operators-Reads rounds zero type operation side left other bound h = Reads-zero
  parse_operators-Reads zero (suc most) type operation side left other bound h =
      absurd (omega arith)
  parse_operators-Reads (suc rounds) (suc most) type operation side left other bound h =
      check-advance-Reads type other (omega arith)
        (λ t. then-Reads (Reads-relax (Reads-fewer (omega arith) h)) (λ right.
          parse_operators-Reads rounds most type operation side _ other (omega arith)
            (Reads-fewer (omega arith) h)))
        (done-Reads left)

  parse_sides-Reads :
      {most : ℕ} (type : TokenType) (operation : LogicalOperator) {side : Parse Expression}
      → type_eq type TokenType.end_of_input ≡ false
      → Reads most 1 side
      → Reads most 1 (parse_sides double_from_chars type operation side)
  unfolding parse_sides
  parse_sides-Reads type operation {side} other h = read_and_then-Reads h (λ left. record {
    leaves = λ tokens ends le.
        (parse_operators-Reads (suc (length tokens)) (length tokens) type operation side left other
            (omega arith) (Reads-fewer le h)).leaves
          tokens ends (omega arith);
  })

  -- A pair of parentheses reads a token, so that the depth is enough.
  parse_or_to-Reads : (depth : ℕ) → Reads depth 1 (parse_or_to double_from_chars depth)
  unfolding parse_or_to parse_and_expression parse_expression_primary type_eq type_code
  parse_or_to-Reads zero = Reads-zero
  parse_or_to-Reads (suc depth) = parse_sides-Reads TokenType.or LogicalOperator.disjunction refl (
      parse_sides-Reads TokenType.and LogicalOperator.conjunction refl (
        match_then-Reads TokenType.left_paren refl (omega arith)
          (then-Reads (Reads-relax (parse_or_to-Reads depth)) (λ e.
            then-Reads (Reads-relax (consume-Reads TokenType.right_paren _ refl))
              (λ t. done-Reads e)))
          (read_and_then-Reads parse_comparison-Reads (λ c. done-Reads _))))

  pub parse_or_expression-Reads : {most : ℕ} → Reads most 1 (parse_or_expression double_from_chars)
  unfolding parse_or_expression
  parse_or_expression-Reads = record {
    leaves = λ tokens ends le.
        (parse_or_to-Reads (suc (length tokens))).leaves tokens ends (omega arith);
  }
