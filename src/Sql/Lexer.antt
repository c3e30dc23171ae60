-- ===== src/Sql/Lexer.antt =====
-- src/sql/lexer.cpp: the scanner.
pub mod Chars
pub mod Defs
pub mod Reads
pub mod Cover
pub mod Words
pub mod Literals
mod Tests
