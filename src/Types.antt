-- ===== src/Types.antt =====
-- src/types: the logical types, the values, the tuples that hold them, and the evaluators.
pub mod Logical
pub mod Utf8
pub mod Bytes
pub mod Value
pub mod Examples
pub mod Tuple
pub mod Evaluator
