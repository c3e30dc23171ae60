-- ===== src/Execution/Planner.antt =====
-- src/execution/planner.cpp: the plans of SELECT.
pub mod Defs
pub mod Plan
pub mod Meaning
pub mod Answers
pub mod Index
pub mod Comparisons
pub mod Bound
pub mod Errors
mod Tests
