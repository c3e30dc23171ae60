-- ===== src/Sql/Token.antt =====
-- include/curiodb/sql/token.hpp and src/sql/token.cpp: tokens and their places.
use curiodb.Prelude.{ℕ, List}
use curiodb.Prelude.Text.{text}

pub record SourceLocation : Type 0 where
  pub offset : ℕ
  pub line : ℕ
  pub column : ℕ

pub data TokenType : Type 0 where
  end_of_input invalid identifier integer_literal floating_point_literal string_literal : TokenType
  create index on database use_keyword table : TokenType
  int double varchar primary key unique : TokenType
  is not null insert into values : TokenType
  select explain delete update set from : TokenType
  where_keyword and or left_paren right_paren comma : TokenType
  semicolon dot equal not_equal less_than less_than_or_equal : TokenType
  greater_than greater_than_or_equal plus minus star slash : TokenType

pub record Token : Type 0 where
  pub type : TokenType
  pub lexeme : List ℕ
  pub location : SourceLocation

unfoldable pub token_type_name : TokenType → List ℕ
token_type_name TokenType.end_of_input = text "end of input"
token_type_name TokenType.invalid = text "invalid token"
token_type_name TokenType.identifier = text "identifier"
token_type_name TokenType.integer_literal = text "integer literal"
token_type_name TokenType.floating_point_literal = text "floating-point literal"
token_type_name TokenType.string_literal = text "string literal"
token_type_name TokenType.create = text "CREATE"
token_type_name TokenType.index = text "INDEX"
token_type_name TokenType.on = text "ON"
token_type_name TokenType.database = text "DATABASE"
token_type_name TokenType.use_keyword = text "USE"
token_type_name TokenType.table = text "TABLE"
token_type_name TokenType.int = text "INT"
token_type_name TokenType.double = text "DOUBLE"
token_type_name TokenType.varchar = text "VARCHAR"
token_type_name TokenType.primary = text "PRIMARY"
token_type_name TokenType.key = text "KEY"
token_type_name TokenType.unique = text "UNIQUE"
token_type_name TokenType.is = text "IS"
token_type_name TokenType.not = text "NOT"
token_type_name TokenType.null = text "NULL"
token_type_name TokenType.insert = text "INSERT"
token_type_name TokenType.into = text "INTO"
token_type_name TokenType.values = text "VALUES"
token_type_name TokenType.select = text "SELECT"
token_type_name TokenType.explain = text "EXPLAIN"
token_type_name TokenType.delete = text "DELETE"
token_type_name TokenType.update = text "UPDATE"
token_type_name TokenType.set = text "SET"
token_type_name TokenType.from = text "FROM"
token_type_name TokenType.where_keyword = text "WHERE"
token_type_name TokenType.and = text "AND"
token_type_name TokenType.or = text "OR"
token_type_name TokenType.left_paren = text "("
token_type_name TokenType.right_paren = text ")"
token_type_name TokenType.comma = text ","
token_type_name TokenType.semicolon = text ";"
token_type_name TokenType.dot = text "."
token_type_name TokenType.equal = text "="
token_type_name TokenType.not_equal = text "!="
token_type_name TokenType.less_than = text "<"
token_type_name TokenType.less_than_or_equal = text "<="
token_type_name TokenType.greater_than = text ">"
token_type_name TokenType.greater_than_or_equal = text ">="
token_type_name TokenType.plus = text "+"
token_type_name TokenType.minus = text "-"
token_type_name TokenType.star = text "*"
token_type_name TokenType.slash = text "/"
