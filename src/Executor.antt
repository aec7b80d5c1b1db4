-- ===== src/Executor.antt =====
-- leafdb/executor.py: name resolution, the two evaluators of expressions, and aggregates on values.
pub mod Scope
pub mod Values
pub mod Eval
pub mod Compile
pub mod Aggregate
pub mod Buckets
pub mod Join
pub mod Group
pub mod Select
