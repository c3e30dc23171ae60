-- ===== src/Sql/Parser.antt =====
-- src/sql/parser.cpp: the parser.
pub mod Cursor
pub mod Clauses
pub mod Conditions
pub mod Statements
pub mod Reads
pub mod Steps
pub mod Returns
pub mod Total
pub mod Print
pub mod Literals
pub mod RoundTrip
pub mod Precedence
pub mod Sentences
pub mod ReadBack
pub mod Inverse
pub mod Whole
pub mod Lexed
mod Tests
