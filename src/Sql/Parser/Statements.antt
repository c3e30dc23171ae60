-- ===== src/Sql/Parser/Statements.antt =====
-- src/sql/parser.cpp: the statements.
use curiodb.Prelude.{ℕ, zero, suc, List, [], ◌∷◌, ◌++◌, Option, none, some, if◌then◌else◌, length}
use Prim.Native.String.{String}
use curiodb.Prelude.Text.{text}
use curiodb.Prelude.Outcome.{Outcome, ok, err}
use curiodb.Sql.Token.{SourceLocation, TokenType, Token}
use curiodb.Sql.Ast.{Expression, SelectColumn, SelectStatement, Statement}
use curiodb.Sql.Parser.Cursor.{
  Parse, Failure, out_of_rounds, ◌>>=◌, ◌>>◌, done, current, check, advance, match, report_error,
  report_found, found_token, consume, load,
}
use curiodb.Sql.Parser.Clauses.{parse_column}
use curiodb.Sql.Parser.Conditions.{parse_literal, parse_or_expression}

-- `do … while (match(TokenType::Comma))`
unfoldable pub parse_list {ℓ} : {A : Type ℓ} → ℕ → Parse A → Parse (List A)
unfolding match
parse_list zero item = λ tokens. err out_of_rounds
parse_list (suc rounds) item = do
  first ← item
  more ← match TokenType.comma
  if more then (do rest ← parse_list rounds item; done (first ∷ rest)) else done (first ∷ [])

unfoldable pub parse_items {ℓ} : {A : Type ℓ} → Parse A → Parse (List A)
unfolding parse_list
parse_items item = λ tokens. parse_list (length tokens) item tokens

-- A list between parentheses that must not be empty.
unfoldable pub parse_some_items {ℓ} : {A : Type ℓ} → String → Parse A → Parse (List A)
unfolding check current report_error parse_items
parse_some_items message item = do
  nothing ← check TokenType.right_paren
  token ← current
  if nothing then report_error token (text message) else parse_items item

unfoldable pub parse_create_database : SourceLocation → Parse Statement
unfolding consume
parse_create_database location = do
  name ← consume TokenType.identifier "expected database name after DATABASE"
  done (Statement.create_database (record { name = name.lexeme; location = location }))

unfoldable pub parse_create_table : SourceLocation → Parse Statement
unfolding consume parse_some_items parse_column
parse_create_table location = do
  name ← consume TokenType.identifier "expected table name after TABLE"
  consume TokenType.left_paren "expected '(' after table name"
  columns ← parse_some_items "expected at least one column definition" parse_column
  consume TokenType.right_paren "expected ')' after column definitions"
  done (
      Statement.create_table
        (record { name = name.lexeme; columns = columns; location = location }))

unfoldable pub parse_create_index : SourceLocation → Parse Statement
unfolding consume
parse_create_index location = do
  name ← consume TokenType.identifier "expected index name after INDEX"
  consume TokenType.on "expected ON after index name"
  table ← consume TokenType.identifier "expected table name after ON"
  consume TokenType.left_paren "expected '(' after table name"
  column ← consume TokenType.identifier "expected column name"
  consume TokenType.right_paren "expected ')' after column name"
  done (
      Statement.create_index (record {
        name = name.lexeme;
        table_name = table.lexeme;
        column_name = column.lexeme;
        location = location;
      }))

unfoldable pub parse_create : Parse Statement
unfolding advance match parse_create_database parse_create_table parse_create_index report_found
parse_create = do
  start ← advance
  database ← match TokenType.database
  if database then parse_create_database start.location else (do
    table ← match TokenType.table
    if table then parse_create_table start.location else (do
      index ← match TokenType.index
      if index
          then parse_create_index start.location
          else report_found "expected DATABASE, TABLE, or INDEX after CREATE"))

unfoldable pub parse_use : Parse Statement
unfolding advance consume
parse_use = do
  start ← advance
  name ← consume TokenType.identifier "expected database name after USE"
  done (Statement.use_database (record { name = name.lexeme; location = start.location }))

unfoldable pub parse_select_column : Parse SelectColumn
unfolding consume
parse_select_column = do
  column ← consume TokenType.identifier "expected '*' or column name after SELECT"
  done (record { name = column.lexeme; location = column.location })

unfoldable pub parse_columns : Parse (List SelectColumn)
unfolding match parse_items parse_select_column
parse_columns = do
  star ← match TokenType.star
  if star then done [] else parse_items parse_select_column

module _ (double_from_chars : List ℕ → Option ℕ) where
  unfoldable pub parse_insert : Parse Statement
  unfolding advance consume parse_some_items parse_literal
  parse_insert = do
    start ← advance
    consume TokenType.into "expected INTO after INSERT"
    table ← consume TokenType.identifier "expected table name after INTO"
    consume TokenType.values "expected VALUES after table name"
    consume TokenType.left_paren "expected '(' after VALUES"
    values ← parse_some_items "expected at least one value" (parse_literal double_from_chars)
    consume TokenType.right_paren "expected ')' after values"
    done (
        Statement.insert
          (record { table_name = table.lexeme; values = values; location = start.location }))

  unfoldable pub parse_where : Parse (Option Expression)
  unfolding match parse_or_expression
  parse_where = do
    there ← match TokenType.where_keyword
    if there
        then (do expression ← parse_or_expression double_from_chars; done (some expression))
        else done none

  unfoldable pub parse_selected : Parse SelectStatement
  unfolding advance parse_columns consume parse_where
  parse_selected = do
    start ← advance
    columns ← parse_columns
    consume TokenType.from "expected FROM after selected columns"
    table ← consume TokenType.identifier "expected table name after FROM"
    clause ← parse_where
    done (record {
      columns = columns;
      table_name = table.lexeme;
      where_clause = clause;
      location = start.location;
    })

  unfoldable pub parse_select : Parse Statement
  unfolding parse_selected
  parse_select = do selected ← parse_selected; done (Statement.select selected)

  unfoldable pub parse_explain : Parse Statement
  unfolding advance check report_found parse_selected
  parse_explain = do
    advance
    selection ← check TokenType.select
    if selection
        then (do selected ← parse_selected; done (Statement.explain (record { select = selected })))
        else report_found "expected SELECT after EXPLAIN"

  unfoldable pub parse_delete : Parse Statement
  unfolding advance consume parse_where
  parse_delete = do
    start ← advance
    consume TokenType.from "expected FROM after DELETE"
    table ← consume TokenType.identifier "expected table name after FROM"
    clause ← parse_where
    done (
        Statement.delete
          (record { table_name = table.lexeme; where_clause = clause; location = start.location }))

  unfoldable pub parse_update : Parse Statement
  unfolding advance consume parse_literal parse_where
  parse_update = do
    start ← advance
    table ← consume TokenType.identifier "expected table name after UPDATE"
    consume TokenType.set "expected SET after table name"
    column ← consume TokenType.identifier "expected column name after SET"
    consume TokenType.equal "expected '=' after column name"
    value ← parse_literal double_from_chars
    clause ← parse_where
    done (
        Statement.update (record {
          table_name = table.lexeme;
          column_name = column.lexeme;
          value = value;
          where_clause = clause;
          location = start.location;
        }))

  unfoldable pub parse_start : TokenType → Parse Statement
  unfolding parse_create parse_use parse_insert parse_select parse_delete parse_update parse_explain
      current report_error found_token report_found
  parse_start TokenType.create = parse_create
  parse_start TokenType.use_keyword = parse_use
  parse_start TokenType.insert = parse_insert
  parse_start TokenType.select = parse_select
  parse_start TokenType.delete = parse_delete
  parse_start TokenType.update = parse_update
  parse_start TokenType.explain = parse_explain
  parse_start TokenType.invalid = do
    token ← current
    report_error token (text "invalid token " ++ found_token token)
  parse_start _ = report_found "expected CREATE, USE, INSERT, SELECT, DELETE, UPDATE, or EXPLAIN"

  unfoldable pub parse_whole : Parse Statement
  unfolding current parse_start consume check report_found
  parse_whole = do
    token ← current
    statement ← parse_start token.type
    consume TokenType.semicolon "expected ';' after statement"
    finished ← check TokenType.end_of_input
    if finished then done statement else report_found "expected end of input"

  -- `Parser(tokens).parse_statement()`, where a failure that is no error is a fault of the program.
  unfoldable pub parse_statement : List Token → Outcome Failure Statement
  unfolding parse_whole load
  parse_statement tokens = elim (parse_whole (load tokens)) [
    | err failure ↦ err failure
    | ok (statement, rest) ↦ ok statement
  ]
