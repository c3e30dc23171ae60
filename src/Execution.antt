-- ===== src/Execution.antt =====
-- src/execution: the plans of SELECT and their execution.
pub mod Operators
pub mod Planner
pub mod Executor
