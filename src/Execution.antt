-- ===== src/Execution.antt =====
-- src/execution: the executors that the library models.
pub mod Sort
pub mod Aggregate
pub mod Limit
pub mod NestedLoopJoin
