-- ===== src/Types/Evaluator/Eval.antt =====
-- `binary_eval` and `unary_eval` of the evaluators in src/types/evaluator.
use Prim.Native.Nat.{Ordering}
use kite_sql.Prelude.{
  ℕ, Bool, true, false, ◌&&◌, ◌||◌, not, Option, none, some, ◌++◌, Result, ok, panic, ◌>>=◌,
}
use kite_sql.Prelude.Int.{ℤ, compare_ℤ}
use kite_sql.Types.Logical.{characters}
use kite_sql.Types.Value.{
  Foreign, DataValue, DataValues, nil, cons, null, boolean, float32, float64, decimal, utf8, tuple,
  variable, is_equal, compare_bytes, partial_cmp, eq_values,
}
use kite_sql.Types.Evaluator.Numeric.{
  Comparison, equal, not_equal, NumericOp, holds, value, missing, other, null_strict,
  numeric_binary, signed_arithmetic, unsigned_arithmetic, signed_neg, signed_operand, signed_value,
  signed_half, unsigned_operand, unsigned_value, unsigned_size,
}
use kite_sql.Types.Evaluator.Time.{plus_time, minus_time, cmp_time, max_precision}
use kite_sql.Types.Evaluator.{
  BinaryEvaluator, signed_binary, unsigned_binary, float32_binary, float64_binary, decimal_binary,
  time_plus, time_minus, time_binary, time64_binary, boolean_and, boolean_or, boolean_eq,
  boolean_not_eq, utf8_binary, utf8_string_concat, utf8_like, utf8_not_like, null_binary,
  tuple_binary, UnaryEvaluator, plus_unary, signed_minus, float32_minus, float64_minus, boolean_not,
}
use kite_sql.Types.Evaluator.Machine.{
  Machine, float32_operand, float64_operand, decimal_operand, boolean_operand, utf8_operand,
  time_operand, time64_operand, timestamp_precision, from_timestamp_precision, string_like,
}

-- src/types/evaluator/boolean.rs
abbrev same_bool : Bool → Bool → Bool
same_bool true b = b
same_bool false b = not b

unfoldable pub and_eval : {D : Type 0} → DataValue D → DataValue D → Result (DataValue D)
and_eval (boolean a) (boolean b) = ok (boolean (a && b))
and_eval (boolean false) null = ok (boolean false)
and_eval (boolean true) null = ok null
and_eval null (boolean false) = ok (boolean false)
and_eval null (boolean true) = ok null
and_eval null null = ok null
and_eval _ _ = panic

unfoldable pub or_eval : {D : Type 0} → DataValue D → DataValue D → Result (DataValue D)
or_eval (boolean a) (boolean b) = ok (boolean (a || b))
or_eval (boolean true) null = ok (boolean true)
or_eval (boolean false) null = ok null
or_eval null (boolean true) = ok (boolean true)
or_eval null (boolean false) = ok null
or_eval null null = ok null
or_eval _ _ = panic

-- src/types/evaluator/time64.rs
unfoldable pub time64_eval :
    {D : Type 0} → Machine D → Comparison → ℤ × ℕ → ℤ × ℕ → Result (DataValue D)
unfolding holds timestamp_precision from_timestamp_precision
time64_eval m c (v1, p1) (v2, p2) = do
  i1 ← from_timestamp_precision m v1 p1
  i2 ← from_timestamp_precision m v2 p2
  elim i1 [
    | none ↦ ok null
    | some t1 ↦ elim i2 [
      | none ↦ ok null
      | some t2 ↦ do
        w1 ← timestamp_precision m t1 (max_precision p1 p2)
        w2 ← timestamp_precision m t2 (max_precision p1 p2)
        ok (boolean (holds c (compare_ℤ w1 w2) (is_equal (compare_ℤ w1 w2))))
    ]
  ]

module _ (f : Foreign) where
  open f use {Decimal}

  -- src/types/evaluator/tuple.rs: the shorter of two tuples with equal beginnings is less, unless it
  -- is an upper bound.
  unfoldable pub tuple_cmp : DataValues Decimal → Bool → DataValues Decimal → Bool → Option Ordering
  unfolding partial_cmp
  tuple_cmp nil is_upper1 nil is_upper2 = some Ordering.eq
  tuple_cmp nil true (cons v vs) is_upper2 = some Ordering.gt
  tuple_cmp nil false (cons v vs) is_upper2 = some Ordering.lt
  tuple_cmp (cons u us) is_upper1 nil true = some Ordering.lt
  tuple_cmp (cons u us) is_upper1 nil false = some Ordering.gt
  tuple_cmp (cons u us) is_upper1 (cons v vs) is_upper2 = elim (partial_cmp f u v) [
    | none ↦ none
    | some Ordering.lt ↦ some Ordering.lt
    | some Ordering.eq ↦ tuple_cmp us is_upper1 vs is_upper2
    | some Ordering.gt ↦ some Ordering.gt
  ]

  abbrev ordered_or_null : Comparison → Option Ordering → DataValue Decimal
  ordered_or_null c none = null
  ordered_or_null c (some order) = boolean (holds c order (is_equal order))

  unfoldable pub tuple_compare :
      Comparison → DataValues Decimal → Bool → DataValues Decimal → Bool → DataValue Decimal
  unfolding tuple_cmp eq_values holds
  tuple_compare equal us _ vs _ = boolean (eq_values f us vs)
  tuple_compare not_equal us _ vs _ = boolean (not (eq_values f us vs))
  tuple_compare c us is_upper1 vs is_upper2 =
      ordered_or_null c (tuple_cmp us is_upper1 vs is_upper2)

  -- The arms for NULL name `DataValue::Boolean`.
  unfoldable pub tuple_eval :
      Comparison → DataValue Decimal → DataValue Decimal → Result (DataValue Decimal)
  unfolding tuple_compare
  tuple_eval c (tuple us is_upper1) (tuple vs is_upper2) =
      ok (tuple_compare c us is_upper1 vs is_upper2)
  tuple_eval c null (boolean _) = ok null
  tuple_eval c (boolean _) null = ok null
  tuple_eval c null null = ok null
  tuple_eval c _ _ = panic

  module _ (m : Machine Decimal) where
    -- src/types/evaluator/float32.rs, float64.rs and decimal.rs
    unfoldable pub float32_eval :
        NumericOp → DataValue Decimal → DataValue Decimal → Result (DataValue Decimal)
    unfolding null_strict numeric_binary float32_operand
    float32_eval op l r =
        null_strict
          (numeric_binary m.float32_arithmetic float32
            (λ a b. ok (float64 (m.float32_quotient a b))) op)
          (float32_operand l) (float32_operand r)

    unfoldable pub float64_eval :
        NumericOp → DataValue Decimal → DataValue Decimal → Result (DataValue Decimal)
    unfolding null_strict numeric_binary float64_operand
    float64_eval op l r =
        null_strict
          (numeric_binary m.float64_arithmetic float64
            (λ a b. ok (float64 (m.float64_quotient a b))) op)
          (float64_operand l) (float64_operand r)

    unfoldable pub decimal_eval :
        NumericOp → DataValue Decimal → DataValue Decimal → Result (DataValue Decimal)
    unfolding null_strict numeric_binary decimal_operand
    decimal_eval op l r =
        null_strict
          (numeric_binary m.decimal_arithmetic decimal
            (λ a b. do q ← m.decimal_quotient a b; ok (decimal q)) op)
          (decimal_operand l) (decimal_operand r)

    -- The comparisons of src/types/evaluator/time32.rs
    unfoldable pub time_eval :
        Comparison → DataValue Decimal → DataValue Decimal → Result (DataValue Decimal)
    unfolding null_strict cmp_time holds time_operand
    time_eval c l r =
        null_strict
          (λ (v1, p1) (v2, p2). do
            order ← cmp_time v1 p1 v2 p2
            ok (boolean (holds c order (is_equal order))))
          (time_operand l) (time_operand r)

    -- `BooleanEq` and `BooleanNotEq`
    unfoldable pub boolean_eval :
        Bool → DataValue Decimal → DataValue Decimal → Result (DataValue Decimal)
    unfolding null_strict boolean_operand
    boolean_eval wanted l r =
        null_strict (λ a b. ok (boolean (same_bool wanted (same_bool a b)))) (boolean_operand l)
          (boolean_operand r)

    -- src/types/evaluator/utf8.rs
    unfoldable pub utf8_eval :
        Comparison → DataValue Decimal → DataValue Decimal → Result (DataValue Decimal)
    unfolding null_strict holds compare_bytes utf8_operand
    utf8_eval c l r =
        null_strict
          (λ a b. ok (boolean (holds c (compare_bytes a b) (is_equal (compare_bytes a b)))))
          (utf8_operand l) (utf8_operand r)

    unfoldable pub concat_eval : DataValue Decimal → DataValue Decimal → Result (DataValue Decimal)
    unfolding null_strict utf8_operand
    concat_eval l r =
        null_strict (λ a b. ok (utf8 (a ++ b) (variable none) characters)) (utf8_operand l)
          (utf8_operand r)

    unfoldable pub like_eval :
        Bool → Option ℕ → DataValue Decimal → DataValue Decimal → Result (DataValue Decimal)
    unfolding null_strict string_like utf8_operand
    like_eval wanted escape_char l r =
        null_strict
          (λ a b. do
            matched ← string_like m a b escape_char
            ok (boolean (same_bool wanted matched)))
          (utf8_operand l) (utf8_operand r)

    unfoldable pub binary_eval :
        BinaryEvaluator → DataValue Decimal → DataValue Decimal → Result (DataValue Decimal)
    unfolding null_strict numeric_binary signed_arithmetic unsigned_arithmetic signed_operand
        signed_value signed_half unsigned_operand unsigned_value unsigned_size float32_eval
        float64_eval decimal_eval time_operand time64_operand plus_time minus_time time_eval
        and_eval or_eval boolean_eval time64_eval utf8_eval concat_eval like_eval tuple_eval
    binary_eval (signed_binary ty op) l r =
        null_strict
          (numeric_binary (signed_arithmetic (signed_half ty)) (signed_value ty)
            (λ a b. ok (float64 (m.signed_quotient a b))) op)
          (signed_operand ty l) (signed_operand ty r)
    binary_eval (unsigned_binary ty op) l r =
        null_strict
          (numeric_binary (unsigned_arithmetic (unsigned_size ty)) (unsigned_value ty)
            (λ a b. ok (float64 (m.unsigned_quotient a b))) op)
          (unsigned_operand ty l) (unsigned_operand ty r)
    binary_eval (float32_binary op) l r = float32_eval op l r
    binary_eval (float64_binary op) l r = float64_eval op l r
    binary_eval (decimal_binary op) l r = decimal_eval op l r
    binary_eval time_plus l r =
        null_strict (λ (v1, p1) (v2, p2). plus_time v1 p1 v2 p2) (time_operand l) (time_operand r)
    binary_eval time_minus l r =
        null_strict (λ (v1, p1) (v2, p2). minus_time v1 p1 v2 p2) (time_operand l) (time_operand r)
    binary_eval (time_binary c) l r = time_eval c l r
    binary_eval (time64_binary c) l r =
        null_strict (time64_eval m c) (time64_operand l) (time64_operand r)
    binary_eval boolean_and l r = and_eval l r
    binary_eval boolean_or l r = or_eval l r
    binary_eval boolean_eq l r = boolean_eval true l r
    binary_eval boolean_not_eq l r = boolean_eval false l r
    binary_eval (utf8_binary c) l r = utf8_eval c l r
    binary_eval utf8_string_concat l r = concat_eval l r
    binary_eval (utf8_like escape_char) l r = like_eval true escape_char l r
    binary_eval (utf8_not_like escape_char) l r = like_eval false escape_char l r
    binary_eval null_binary l r = ok null
    binary_eval (tuple_binary c) l r = tuple_eval c l r

    unfoldable pub unary_eval : UnaryEvaluator → DataValue Decimal → Result (DataValue Decimal)
    unfolding signed_operand signed_value signed_half signed_neg
    unary_eval plus_unary v = ok v
    unary_eval (signed_minus ty) v = elim (signed_operand ty v) [
      | value z ↦ do r ← signed_neg (signed_half ty) z; ok (signed_value ty r)
      | missing ↦ ok null
      | other ↦ panic
    ]
    unary_eval float32_minus (float32 n) = ok (float32 (m.float32_neg n))
    unary_eval float32_minus null = ok null
    unary_eval float32_minus _ = panic
    unary_eval float64_minus (float64 n) = ok (float64 (m.float64_neg n))
    unary_eval float64_minus null = ok null
    unary_eval float64_minus _ = panic
    unary_eval boolean_not (boolean b) = ok (boolean (not b))
    unary_eval boolean_not null = ok null
    unary_eval boolean_not _ = panic
