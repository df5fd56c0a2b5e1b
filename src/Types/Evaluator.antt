-- ===== src/Types/Evaluator.antt =====
-- The factory of the evaluators, `EvaluatorFactory` of src/types/evaluator/mod.rs: which evaluator a
-- type and an operator have.
pub mod Numeric
pub mod Time
pub mod Clock
pub mod Machine
pub mod Eval
pub mod Soundness
pub mod Words
pub mod Kleene
pub mod Filter
pub mod Examples
use kite_sql.Prelude.{ℕ, Option, none, some, Result, ok, err, unsupported_binary_operator}
use kite_sql.Prelude.{unsupported_unary_operator}
use kite_sql.Types.Logical.{LogicalType}
use kite_sql.Expression.Range.{
  BinaryOperator, plus_op, minus_op, multiply_op, divide_op, modulo_op, string_concat_op, gt_op,
  lt_op, gt_eq_op, lt_eq_op, eq_op, not_eq_op, like_op, not_like_op, and_op, or_op,
}
use kite_sql.Types.Evaluator.Numeric.{
  Comparison, gt, gt_eq, lt, lt_eq, equal, not_equal, NumericOp, plus, minus, multiply, divide,
  modulo, comparison, Signed, int8_type, int16_type, int32_type, int64_type, date_type,
  date_time_type, Unsigned, u_int8_type, u_int16_type, u_int32_type, u_int64_type,
}

-- `UnaryOperator` of src/expression/mod.rs.
pub data UnaryOperator : Type 0 where
  positive_op negative_op not_op : UnaryOperator

-- The structs that implement `BinaryEvaluator`, those of one macro or one file by their operation.
pub data BinaryEvaluator : Type 0 where
  signed_binary : Signed → NumericOp → BinaryEvaluator
  unsigned_binary : Unsigned → NumericOp → BinaryEvaluator
  float32_binary float64_binary decimal_binary : NumericOp → BinaryEvaluator
  time_plus time_minus : BinaryEvaluator
  time_binary time64_binary : Comparison → BinaryEvaluator
  boolean_and boolean_or boolean_eq boolean_not_eq : BinaryEvaluator
  utf8_binary : Comparison → BinaryEvaluator
  utf8_string_concat : BinaryEvaluator
  utf8_like utf8_not_like : Option ℕ → BinaryEvaluator
  null_binary : BinaryEvaluator
  tuple_binary : Comparison → BinaryEvaluator

-- The structs that implement `UnaryEvaluator`.
pub data UnaryEvaluator : Type 0 where
  plus_unary : UnaryEvaluator
  signed_minus : Signed → UnaryEvaluator
  float32_minus float64_minus boolean_not : UnaryEvaluator

unfoldable pub comparison_of : BinaryOperator → Option Comparison
comparison_of gt_op = some gt
comparison_of gt_eq_op = some gt_eq
comparison_of lt_op = some lt
comparison_of lt_eq_op = some lt_eq
comparison_of eq_op = some equal
comparison_of not_eq_op = some not_equal
comparison_of _ = none

-- The arms of `numeric_binary_evaluator!`.
unfoldable pub numeric_op : BinaryOperator → Option NumericOp
numeric_op plus_op = some plus
numeric_op minus_op = some minus
numeric_op multiply_op = some multiply
numeric_op divide_op = some divide
numeric_op gt_op = some (comparison gt)
numeric_op gt_eq_op = some (comparison gt_eq)
numeric_op lt_op = some (comparison lt)
numeric_op lt_eq_op = some (comparison lt_eq)
numeric_op eq_op = some (comparison equal)
numeric_op not_eq_op = some (comparison not_equal)
numeric_op modulo_op = some modulo
numeric_op _ = none

abbrev pub supported : {A : Type 0} → Option A → (A → BinaryEvaluator) → Result BinaryEvaluator
supported none struct = err unsupported_binary_operator
supported (some op) struct = ok (struct op)

unfoldable pub numeric_binary_evaluator :
    (NumericOp → BinaryEvaluator) → BinaryOperator → Result BinaryEvaluator
unfolding numeric_op
numeric_binary_evaluator struct op = supported (numeric_op op) struct

unfoldable pub numeric_unary_evaluator : UnaryEvaluator → UnaryOperator → Result UnaryEvaluator
numeric_unary_evaluator struct positive_op = ok plus_unary
numeric_unary_evaluator struct negative_op = ok struct
numeric_unary_evaluator struct not_op = err unsupported_unary_operator

unfoldable pub unary_create : LogicalType → UnaryOperator → Result UnaryEvaluator
unfolding numeric_unary_evaluator
unary_create LogicalType.tinyint op = numeric_unary_evaluator (signed_minus int8_type) op
unary_create LogicalType.smallint op = numeric_unary_evaluator (signed_minus int16_type) op
unary_create LogicalType.integer op = numeric_unary_evaluator (signed_minus int32_type) op
unary_create LogicalType.bigint op = numeric_unary_evaluator (signed_minus int64_type) op
unary_create LogicalType.boolean not_op = ok boolean_not
unary_create LogicalType.boolean op = err unsupported_unary_operator
unary_create LogicalType.float op = numeric_unary_evaluator float32_minus op
unary_create LogicalType.double op = numeric_unary_evaluator float64_minus op
unary_create _ op = err unsupported_unary_operator

-- The arms of `binary_create` for a time, a boolean and a text.
unfoldable pub time_create : BinaryOperator → Result BinaryEvaluator
unfolding comparison_of
time_create plus_op = ok time_plus
time_create minus_op = ok time_minus
time_create op = supported (comparison_of op) time_binary

unfoldable pub boolean_create : BinaryOperator → Result BinaryEvaluator
boolean_create and_op = ok boolean_and
boolean_create or_op = ok boolean_or
boolean_create eq_op = ok boolean_eq
boolean_create not_eq_op = ok boolean_not_eq
boolean_create _ = err unsupported_binary_operator

unfoldable pub utf8_create : BinaryOperator → Result BinaryEvaluator
unfolding comparison_of
utf8_create string_concat_op = ok utf8_string_concat
utf8_create (like_op escape_char) = ok (utf8_like escape_char)
utf8_create (not_like_op escape_char) = ok (utf8_not_like escape_char)
utf8_create op = supported (comparison_of op) utf8_binary

unfoldable pub binary_create : LogicalType → BinaryOperator → Result BinaryEvaluator
unfolding numeric_binary_evaluator time_create boolean_create utf8_create comparison_of
binary_create LogicalType.tinyint op = numeric_binary_evaluator (signed_binary int8_type) op
binary_create LogicalType.smallint op = numeric_binary_evaluator (signed_binary int16_type) op
binary_create LogicalType.integer op = numeric_binary_evaluator (signed_binary int32_type) op
binary_create LogicalType.bigint op = numeric_binary_evaluator (signed_binary int64_type) op
binary_create LogicalType.u_tinyint op = numeric_binary_evaluator (unsigned_binary u_int8_type) op
binary_create LogicalType.u_smallint op = numeric_binary_evaluator (unsigned_binary u_int16_type) op
binary_create LogicalType.u_integer op = numeric_binary_evaluator (unsigned_binary u_int32_type) op
binary_create LogicalType.u_bigint op = numeric_binary_evaluator (unsigned_binary u_int64_type) op
binary_create LogicalType.float op = numeric_binary_evaluator float32_binary op
binary_create LogicalType.double op = numeric_binary_evaluator float64_binary op
binary_create LogicalType.date op = numeric_binary_evaluator (signed_binary date_type) op
binary_create LogicalType.date_time op = numeric_binary_evaluator (signed_binary date_time_type) op
binary_create (LogicalType.time _) op = time_create op
binary_create (LogicalType.time_stamp _ _) op = supported (comparison_of op) time64_binary
binary_create (LogicalType.decimal _ _) op = numeric_binary_evaluator decimal_binary op
binary_create LogicalType.boolean op = boolean_create op
binary_create (LogicalType.varchar _ _) op = utf8_create op
binary_create (LogicalType.char _ _) op = utf8_create op
binary_create LogicalType.sql_null op = ok null_binary
binary_create (LogicalType.tuple _) op = supported (comparison_of op) tuple_binary
