-- ===== src/Expression.antt =====
-- src/expression: what the expressions of a filter say about a column.
pub mod Range
