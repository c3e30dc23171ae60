-- ===== src/Sql/Parser/Sentences.antt =====
-- The tokens of a whole statement, from its first keyword to the end of the input.
use curiodb.Prelude.{
  ℕ, ◌^◌, ◌<◌, ◌≡◌, ◌≢◌, Bool, true, false, List, [], ◌∷◌, ◌++◌, Option, none, some, All,
}
use curiodb.Prelude.Text.{decimal}
use curiodb.Types.{DataTypeKind}
use curiodb.Sql.Token.{SourceLocation, TokenType, Token}
use curiodb.Sql.Ast.{
  ColumnDefinition, Literal, Expression, SelectColumn, SelectStatement, Statement,
}
use curiodb.Sql.Parser.Print.{token, literal_tokens, expression_tokens, IsWritten, IsClause}

-- Items with commas between them.
unfoldable pub items_tokens {ℓ} :
    {A : Type ℓ} → (A → List Token) → SourceLocation → List A → List Token
items_tokens print place [] = []
items_tokens print place (x ∷ []) = print x
items_tokens print place (x ∷ y ∷ rest) =
    let more = items_tokens print place (y ∷ rest) in
    print x ++ token TokenType.comma [] place ∷ more

abbrev pub name : List ℕ → SourceLocation → Token
name lexeme place = token TokenType.identifier lexeme place

abbrev pub length_of : Option ℕ → ℕ
length_of none = 0
length_of (some n) = n

unfoldable pub type_tokens : SourceLocation → DataTypeKind → Option ℕ → List Token
type_tokens place DataTypeKind.integer length = token TokenType.int [] place ∷ []
type_tokens place DataTypeKind.double length = token TokenType.double [] place ∷ []
type_tokens place DataTypeKind.varchar length =
    token TokenType.varchar [] place
    ∷ token TokenType.left_paren [] place
    ∷ token TokenType.integer_literal (decimal (length_of length)) place
    ∷ token TokenType.right_paren [] place
    ∷ []

-- PRIMARY KEY stands for all three.
unfoldable pub constraint_tokens : SourceLocation → Bool → Bool → Bool → List Token
constraint_tokens place true unique not_null =
    token TokenType.primary [] place ∷ token TokenType.key [] place ∷ []
constraint_tokens place false true true =
    token TokenType.unique [] place
    ∷ token TokenType.not [] place
    ∷ token TokenType.null [] place
    ∷ []
constraint_tokens place false true false = token TokenType.unique [] place ∷ []
constraint_tokens place false false true =
    token TokenType.not [] place ∷ token TokenType.null [] place ∷ []
constraint_tokens place false false false = []

unfoldable pub column_tokens : ColumnDefinition → List Token
unfolding type_tokens constraint_tokens
column_tokens c =
    name c.name c.location ∷ type_tokens c.location c.type.kind c.type.length
    ++ constraint_tokens c.location c.primary_key c.unique c.not_null

-- A length stands exactly with VARCHAR, and PRIMARY KEY has set the other constraints.
abbrev pub IsType : DataTypeKind → Option ℕ → Type 0
IsType DataTypeKind.varchar (some n) = (0 < n) × (n < 2 ^ 64)
IsType DataTypeKind.varchar none = ⊥
IsType _ none = Unit
IsType _ (some n) = ⊥

abbrev pub IsConstrained : Bool → Bool → Bool → Type 0
IsConstrained true unique not_null = (unique ≡ true) × (not_null ≡ true)
IsConstrained false unique not_null = Unit

abbrev pub IsColumn : ColumnDefinition → Type 0
IsColumn c = IsType c.type.kind c.type.length × IsConstrained c.primary_key c.unique c.not_null

unfoldable pub select_columns_tokens : SourceLocation → List SelectColumn → List Token
unfolding items_tokens
select_columns_tokens place [] = token TokenType.star [] place ∷ []
select_columns_tokens place (c ∷ rest) =
    items_tokens (λ (d : SelectColumn). name d.name d.location ∷ []) place (c ∷ rest)

-- The end of every statement.
abbrev pub ending : SourceLocation → List Token
ending place = token TokenType.semicolon [] place ∷ token TokenType.end_of_input [] place ∷ []

module _ (double_text : ℕ → Bool × List ℕ) where
  unfoldable pub where_tokens : SourceLocation → Option Expression → List Token
  unfolding expression_tokens
  where_tokens place none = ending place
  where_tokens place (some e) =
      token TokenType.where_keyword [] place ∷ (expression_tokens double_text 0 e ++ ending place)

  unfoldable pub select_tokens : SelectStatement → List Token
  unfolding select_columns_tokens where_tokens
  select_tokens s =
      token TokenType.select [] s.location
      ∷ (select_columns_tokens s.location s.columns
          ++ token TokenType.from [] s.location
            ∷ name s.table_name s.location
            ∷ where_tokens s.location s.where_clause)

  unfoldable pub statement_tokens : Statement → List Token
  unfolding items_tokens column_tokens select_tokens where_tokens
  statement_tokens (Statement.create_database s) =
      token TokenType.create [] s.location
      ∷ token TokenType.database [] s.location
      ∷ name s.name s.location
      ∷ ending s.location
  statement_tokens (Statement.use_database s) =
      token TokenType.use_keyword [] s.location ∷ name s.name s.location ∷ ending s.location
  statement_tokens (Statement.create_table s) =
      token TokenType.create [] s.location
      ∷ token TokenType.table [] s.location
      ∷ name s.name s.location
      ∷ token TokenType.left_paren [] s.location
      ∷ (items_tokens column_tokens s.location s.columns
          ++ token TokenType.right_paren [] s.location ∷ ending s.location)
  statement_tokens (Statement.insert s) =
      token TokenType.insert [] s.location
      ∷ token TokenType.into [] s.location
      ∷ name s.table_name s.location
      ∷ token TokenType.values [] s.location
      ∷ token TokenType.left_paren [] s.location
      ∷ (items_tokens (literal_tokens double_text) s.location s.values
          ++ token TokenType.right_paren [] s.location ∷ ending s.location)
  statement_tokens (Statement.select s) = select_tokens s
  statement_tokens (Statement.delete s) =
      token TokenType.delete [] s.location
      ∷ token TokenType.from [] s.location
      ∷ name s.table_name s.location
      ∷ where_tokens s.location s.where_clause
  statement_tokens (Statement.update s) =
      token TokenType.update [] s.location
      ∷ name s.table_name s.location
      ∷ token TokenType.set [] s.location
      ∷ name s.column_name s.location
      ∷ token TokenType.equal [] s.location
      ∷ (literal_tokens double_text s.value ++ where_tokens s.location s.where_clause)
  statement_tokens (Statement.create_index s) =
      token TokenType.create [] s.location
      ∷ token TokenType.index [] s.location
      ∷ name s.name s.location
      ∷ token TokenType.on [] s.location
      ∷ name s.table_name s.location
      ∷ token TokenType.left_paren [] s.location
      ∷ name s.column_name s.location
      ∷ token TokenType.right_paren [] s.location
      ∷ ending s.location
  statement_tokens (Statement.explain s) =
      token TokenType.explain [] s.select.location ∷ select_tokens s.select

  module _ (double_from_chars : List ℕ → Option ℕ) where
    abbrev pub IsWhere : Option Expression → Type 0
    IsWhere none = Unit
    IsWhere (some e) = IsClause double_text double_from_chars e

    -- What the source can write of a statement: at least one column and one value where they stand in
    -- parentheses, and clauses and values that can be written.
    abbrev pub IsSentence : Statement → Type 0
    IsSentence (Statement.create_table s) = (s.columns ≢ []) × All IsColumn s.columns
    IsSentence (Statement.insert s) =
        (s.values ≢ [])
        × All (λ (l : Literal). IsWritten double_text double_from_chars l.value) s.values
    IsSentence (Statement.select s) = IsWhere s.where_clause
    IsSentence (Statement.delete s) = IsWhere s.where_clause
    IsSentence (Statement.update s) =
        IsWritten double_text double_from_chars s.value.value × IsWhere s.where_clause
    IsSentence (Statement.explain s) = IsWhere s.select.where_clause
    IsSentence _ = Unit
