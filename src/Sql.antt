-- ===== src/Sql.antt =====
-- src/sql: the tokens, the scanner and the syntax tree.
pub mod Token
pub mod Ast
pub mod Lexer
pub mod Parser
