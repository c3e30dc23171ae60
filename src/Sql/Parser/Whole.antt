-- ===== src/Sql/Parser/Whole.antt =====
-- src/sql/parser.cpp: the parser is an inverse of writing a statement down.
use curiodb.Prelude.{
  ℕ, ◌≡◌, ◌≢◌, inl, inr, refl, ◌∙◌, Bool, true, false, List, [], ◌∷◌, ◌++◌, Option, none, some, All,
  Bool-cases, append_assoc,
}
use curiodb.Prelude.Int.{pos, negsuc}
use curiodb.Prelude.Text.{text}
use curiodb.Prelude.Outcome.{ok}
use curiodb.Sql.Token.{SourceLocation, TokenType, Token}
use curiodb.Sql.Ast.{
  ColumnDefinition, LiteralValue, Literal, Expression, SelectStatement, Statement,
}
use curiodb.Sql.Parser.Cursor.{
  type_code, type_eq, ends_input, load, current, check, advance, match, consume,
}
use curiodb.Sql.Parser.Clauses.{parse_column}
use curiodb.Sql.Parser.Conditions.{parse_literal}
use curiodb.Sql.Parser.Statements.{
  parse_some_items, parse_create_database, parse_create_table, parse_create_index, parse_create,
  parse_use, parse_insert, parse_where, parse_selected, parse_select, parse_explain, parse_delete,
  parse_update, parse_start, parse_whole, parse_statement,
}
use curiodb.Sql.Parser.Print.{token, literal_tokens, value_tokens, expression_tokens, IsWritten}
use curiodb.Sql.Parser.Sentences.{
  items_tokens, name, column_tokens, IsColumn, select_columns_tokens, ending, where_tokens,
  select_tokens, statement_tokens, IsWhere, IsSentence,
}
use curiodb.Sql.Parser.Literals.{parse_literal-value_tokens}
use curiodb.Sql.Parser.RoundTrip.{is_next}
use curiodb.Sql.Parser.Precedence.{parse_or_expression-expression_tokens}
use curiodb.Sql.Parser.ReadBack.{
  IsAfterColumn, parse_items-items_tokens, parse_column-column_tokens,
}
use curiodb.Sql.Parser.Inverse.{
  ends_input-after, parse_columns-select_columns_tokens, parse_some_items-parse_items,
}

module _ (double_from_chars : List ℕ → Option ℕ) (double_text : ℕ → Bool × List ℕ) where
  parse_where-where_tokens :
      (place : SourceLocation) (clause : Option Expression)
      → IsWhere double_text double_from_chars clause
      → parse_where double_from_chars (where_tokens double_text place clause)
        ≡ ok (clause, ending place)
  unfolding parse_where where_tokens match check advance type_eq type_code is_next
  parse_where-where_tokens place none h = refl
  parse_where-where_tokens place (some e) h =
      rw
        (parse_or_expression-expression_tokens double_from_chars double_text e (ending place) h refl
          refl)
        refl

  where_tokens-ends_input :
      (place : SourceLocation) (clause : Option Expression)
      → ends_input (where_tokens double_text place clause) ≡ true
  unfolding where_tokens ends_input type_eq type_code
  where_tokens-ends_input place none = refl
  where_tokens-ends_input place (some e) =
      ends_input-after (token TokenType.where_keyword [] place ∷ expression_tokens double_text 0 e)
        (ending place) refl

  parse_selected-select_tokens :
      (s : SelectStatement)
      → IsWhere double_text double_from_chars s.where_clause
      → parse_selected double_from_chars (select_tokens double_text s) ≡ ok (s, ending s.location)
  unfolding parse_selected select_tokens consume check advance type_eq type_code
  parse_selected-select_tokens s h =
      rw
        (
          parse_columns-select_columns_tokens s.location s.columns
              (name s.table_name s.location ∷ where_tokens double_text s.location s.where_clause),
          parse_where-where_tokens s.location s.where_clause h,
        )
        refl

  parse_some_items-columns :
      (place : SourceLocation) (columns : List ColumnDefinition)
      → columns ≢ []
      → All IsColumn columns
      → parse_some_items "expected at least one column definition" parse_column (
          items_tokens column_tokens place columns
          ++ token TokenType.right_paren [] place ∷ ending place)
        ≡ ok (columns, token TokenType.right_paren [] place ∷ ending place)
  unfolding parse_some_items check current type_eq type_code is_next column_tokens items_tokens
  parse_some_items-columns place [] some_column h = absurd (some_column refl)
  parse_some_items-columns place (c ∷ []) some_column h =
      parse_items-items_tokens parse_column column_tokens IsColumn IsAfterColumn place
        (λ after. (refl, refl, refl)) parse_column-column_tokens c []
        (token TokenType.right_paren [] place) (ending place) h (refl, refl, refl) refl
  parse_some_items-columns place (c ∷ d ∷ rest) some_column h =
      parse_items-items_tokens parse_column column_tokens IsColumn IsAfterColumn place
        (λ after. (refl, refl, refl)) parse_column-column_tokens c (d ∷ rest)
        (token TokenType.right_paren [] place) (ending place) h (refl, refl, refl) refl

  value_tokens-is_next :
      (place : SourceLocation) (v : LiteralValue) (tail : List Token)
      → is_next TokenType.right_paren (value_tokens double_text place v ++ tail) ≡ false
  unfolding value_tokens is_next type_eq type_code
  value_tokens-is_next place LiteralValue.null tail = refl
  value_tokens-is_next place (LiteralValue.integer (pos n)) tail = refl
  value_tokens-is_next place (LiteralValue.integer (negsuc n)) tail = refl
  value_tokens-is_next place (LiteralValue.double d) tail = elim (Bool-cases (double_text d).0) [
    | inl negative ↦ rw negative refl
    | inr positive ↦ rw positive refl
  ]
  value_tokens-is_next place (LiteralValue.string text) tail = refl

  values-is_next :
      (place : SourceLocation) (l : Literal) (rest : List Literal) (tail : List Token)
      → is_next TokenType.right_paren
          (items_tokens (literal_tokens double_text) place (l ∷ rest) ++ tail)
        ≡ false
  unfolding items_tokens
  values-is_next place l [] tail = value_tokens-is_next l.location l.value tail
  values-is_next place l (m ∷ rest) tail =
      rw
        (append_assoc (literal_tokens double_text l)
          (token TokenType.comma [] place
            ∷ items_tokens (literal_tokens double_text) place (m ∷ rest))
          tail)
        (value_tokens-is_next l.location l.value _)

  parse_some_items-values :
      (place : SourceLocation) (values : List Literal)
      → values ≢ []
      → All (λ (l : Literal). IsWritten double_text double_from_chars l.value) values
      → parse_some_items "expected at least one value" (parse_literal double_from_chars) (
          items_tokens (literal_tokens double_text) place values
          ++ token TokenType.right_paren [] place ∷ ending place)
        ≡ ok (values, token TokenType.right_paren [] place ∷ ending place)
  unfolding type_eq type_code
  parse_some_items-values place [] some_value h = absurd (some_value refl)
  parse_some_items-values place (l ∷ rest) some_value h =
      parse_some_items-parse_items (parse_literal double_from_chars) _ _
        (values-is_next place l rest (token TokenType.right_paren [] place ∷ ending place))
      ∙ parse_items-items_tokens (parse_literal double_from_chars) (literal_tokens double_text)
          (λ l. IsWritten double_text double_from_chars l.value) (λ tail. Unit {0}) place
          (λ after. tt)
          (λ m after written ok_tail.
            parse_literal-value_tokens double_from_chars double_text m.location m.value after
              written)
          l rest (token TokenType.right_paren [] place) (ending place) h tt refl

  parse_create-column_tokens :
      (name_of : List ℕ) (place : SourceLocation) (columns : List ColumnDefinition)
      → columns ≢ []
      → All IsColumn columns
      → parse_create_table place (
          name name_of place
          ∷ token TokenType.left_paren [] place
          ∷ (items_tokens column_tokens place columns
              ++ token TokenType.right_paren [] place ∷ ending place))
        ≡ ok (
          Statement.create_table (record { name = name_of; columns = columns; location = place }),
          ending place,
        )
  unfolding parse_create_table consume check advance type_eq type_code
  parse_create-column_tokens name_of place columns some_column h =
      rw (parse_some_items-columns place columns some_column h) refl

  -- What `parse_whole` reads after the first keyword is the statement, and the end of the input.
  parse_statement-parse_start :
      (type : TokenType) (place : SourceLocation) (rest : List Token) (s : Statement)
      → parse_start double_from_chars type (token type [] place ∷ rest) ≡ ok (s, ending place)
      → ends_input (token type [] place ∷ rest) ≡ true
      → parse_statement double_from_chars (token type [] place ∷ rest) ≡ ok s
  unfolding parse_statement parse_whole load current consume check advance type_eq type_code
  parse_statement-parse_start type place rest s h ends = rw (ends, parse_statement) (rw h refl)

  table_where-ends_input :
      (xs : List Token) (place : SourceLocation) (t u : Token) (clause : Option Expression)
      → ends_input (xs ++ t ∷ u ∷ where_tokens double_text place clause) ≡ true
  table_where-ends_input xs place t u clause =
      ends_input-after xs _ (ends_input-after (t ∷ u ∷ []) _ (where_tokens-ends_input place clause))

  -- A statement that the source can write is what the parser returns for its tokens: AND binds tighter than
  -- OR, both lean to the left, parentheses override it, and every name, value, constraint and place is
  -- the one that was written.
  pub parse_statement-statement_tokens :
      (s : Statement)
      → IsSentence double_text double_from_chars s
      → parse_statement double_from_chars (statement_tokens double_text s) ≡ ok s
  unfolding statement_tokens select_tokens parse_start parse_create parse_create_database
      parse_create_index parse_use parse_insert parse_select parse_explain parse_delete parse_update
      match consume check advance ends_input type_eq type_code
  parse_statement-statement_tokens (Statement.create_database s) h =
      parse_statement-parse_start TokenType.create s.location _ (Statement.create_database s) refl
        refl
  parse_statement-statement_tokens (Statement.use_database s) h =
      parse_statement-parse_start TokenType.use_keyword s.location _ (Statement.use_database s) refl
        refl
  parse_statement-statement_tokens (Statement.create_index s) h =
      parse_statement-parse_start TokenType.create s.location _ (Statement.create_index s) refl refl
  parse_statement-statement_tokens (Statement.create_table s) (some_column, h) =
      parse_statement-parse_start TokenType.create s.location _ (Statement.create_table s)
        (parse_create-column_tokens s.name s.location s.columns some_column h)
        (ends_input-after
          (token TokenType.create [] s.location
            ∷ token TokenType.table [] s.location
            ∷ name s.name s.location
            ∷ token TokenType.left_paren [] s.location
            ∷ items_tokens column_tokens s.location s.columns)
          (token TokenType.right_paren [] s.location ∷ ending s.location) refl)
  parse_statement-statement_tokens (Statement.insert s) (some_value, h) =
      parse_statement-parse_start TokenType.insert s.location _ (Statement.insert s)
        (rw (parse_some_items-values s.location s.values some_value h) refl)
        (ends_input-after
          (token TokenType.insert [] s.location
            ∷ token TokenType.into [] s.location
            ∷ name s.table_name s.location
            ∷ token TokenType.values [] s.location
            ∷ token TokenType.left_paren [] s.location
            ∷ items_tokens (literal_tokens double_text) s.location s.values)
          (token TokenType.right_paren [] s.location ∷ ending s.location) refl)
  parse_statement-statement_tokens (Statement.select s) h =
      parse_statement-parse_start TokenType.select s.location _ (Statement.select s)
        (rw (parse_selected-select_tokens s h) refl)
        (table_where-ends_input
          (token TokenType.select [] s.location ∷ select_columns_tokens s.location s.columns)
          s.location _ _ s.where_clause)
  parse_statement-statement_tokens (Statement.explain s) h =
      parse_statement-parse_start TokenType.explain s.select.location _ (Statement.explain s)
        (rw (parse_selected-select_tokens s.select h) refl)
        (table_where-ends_input
          (token TokenType.explain [] s.select.location
            ∷ token TokenType.select [] s.select.location
            ∷ select_columns_tokens s.select.location s.select.columns)
          s.select.location _ _ s.select.where_clause)
  parse_statement-statement_tokens (Statement.delete s) h =
      parse_statement-parse_start TokenType.delete s.location _ (Statement.delete s)
        (rw (parse_where-where_tokens s.location s.where_clause h) refl)
        (ends_input-after
          (token TokenType.delete [] s.location
            ∷ token TokenType.from [] s.location
            ∷ name s.table_name s.location
            ∷ [])
          (where_tokens double_text s.location s.where_clause)
          (where_tokens-ends_input s.location s.where_clause))
  parse_statement-statement_tokens (Statement.update s) (written, h) =
      parse_statement-parse_start TokenType.update s.location _ (Statement.update s)
        (rw
          (
            parse_literal-value_tokens double_from_chars double_text s.value.location s.value.value
                (where_tokens double_text s.location s.where_clause) written,
            parse_where-where_tokens s.location s.where_clause h,
          )
          refl)
        (ends_input-after
          (token TokenType.update [] s.location
            ∷ name s.table_name s.location
            ∷ token TokenType.set [] s.location
            ∷ name s.column_name s.location
            ∷ token TokenType.equal [] s.location
            ∷ literal_tokens double_text s.value)
          (where_tokens double_text s.location s.where_clause)
          (where_tokens-ends_input s.location s.where_clause))
