-- ===== src/Execution/Executor.antt =====
-- src/execution/statement_executor.cpp: the statements, over a catalog and a storage.
pub mod Copies
pub mod Defs
pub mod Where
pub mod Statements
pub mod Execute
pub mod Views
pub mod Sound
pub mod Keeps
pub mod Steps
pub mod InStep
pub mod Runs
pub mod Results
pub mod Changes
pub mod Failures
mod Tests
mod SessionTests
