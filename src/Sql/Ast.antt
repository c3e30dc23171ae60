-- ===== src/Sql/Ast.antt =====
-- include/curiodb/sql/ast.hpp: the statements.
use curiodb.Prelude.{ℕ, Bool, List, Option}
use curiodb.Prelude.Int.{ℤ}
use curiodb.Types.{DataType}
use curiodb.Sql.Token.{SourceLocation}

pub record ColumnDefinition : Type 0 where
  pub name : List ℕ
  pub type : DataType
  pub primary_key : Bool
  pub unique : Bool
  pub not_null : Bool
  pub location : SourceLocation

pub record CreateDatabaseStatement : Type 0 where
  pub name : List ℕ
  pub location : SourceLocation

pub record UseDatabaseStatement : Type 0 where
  pub name : List ℕ
  pub location : SourceLocation

pub record CreateTableStatement : Type 0 where
  pub name : List ℕ
  pub columns : List ColumnDefinition
  pub location : SourceLocation

pub record CreateIndexStatement : Type 0 where
  pub name : List ℕ
  pub table_name : List ℕ
  pub column_name : List ℕ
  pub location : SourceLocation

-- `null` is the `std::monostate`.
pub data LiteralValue : Type 0 where
  null : LiteralValue
  integer : ℤ → LiteralValue
  double : ℕ → LiteralValue
  string : List ℕ → LiteralValue

pub record Literal : Type 0 where
  pub value : LiteralValue
  pub location : SourceLocation

pub record InsertStatement : Type 0 where
  pub table_name : List ℕ
  pub values : List Literal
  pub location : SourceLocation

pub data ComparisonOperator : Type 0 where
  equal not_equal less_than less_than_or_equal : ComparisonOperator
  greater_than greater_than_or_equal is_null is_not_null : ComparisonOperator

pub record ComparisonExpression : Type 0 where
  pub column_name : List ℕ
  pub operation : ComparisonOperator
  pub value : Literal
  pub location : SourceLocation

pub data LogicalOperator : Type 0 where
  conjunction disjunction : LogicalOperator

-- A `logical` node has the fields of the `LogicalExpression` that its pointer leads to, and
-- `null_logical` is a pointer that leads nowhere.
pub data Expression : Type 0 where
  comparison : ComparisonExpression → Expression
  logical : LogicalOperator → Expression → Expression → SourceLocation → Expression
  null_logical : Expression

pub record SelectColumn : Type 0 where
  pub name : List ℕ
  pub location : SourceLocation

-- No columns stand for `SELECT *`.
pub record SelectStatement : Type 0 where
  pub columns : List SelectColumn
  pub table_name : List ℕ
  pub where_clause : Option Expression
  pub location : SourceLocation

pub record DeleteStatement : Type 0 where
  pub table_name : List ℕ
  pub where_clause : Option Expression
  pub location : SourceLocation

pub record ExplainStatement : Type 0 where
  pub select : SelectStatement

pub record UpdateStatement : Type 0 where
  pub table_name : List ℕ
  pub column_name : List ℕ
  pub value : Literal
  pub where_clause : Option Expression
  pub location : SourceLocation

pub data Statement : Type 0 where
  create_database : CreateDatabaseStatement → Statement
  use_database : UseDatabaseStatement → Statement
  create_table : CreateTableStatement → Statement
  insert : InsertStatement → Statement
  select : SelectStatement → Statement
  delete : DeleteStatement → Statement
  update : UpdateStatement → Statement
  create_index : CreateIndexStatement → Statement
  explain : ExplainStatement → Statement
