-- ===== src/Execution/Aggregate/Examples.antt =====
-- Runs of the aggregates of src/execution/dql/aggregate, and the theorem on them at a column.
use kite_sql.Prelude.{
  Bool, true, false, some, none, List, [], ◌∷◌, Result, ok, err, panic, over_flow, DatabaseError,
  ◌≡◌, refl, arith,
}
use kite_sql.Prelude.Int.{pos, negsuc, ◌+ℤ◌, compare_ℤ}
use kite_sql.Types.Logical.{LogicalType}
use kite_sql.Types.Logical.Combine.{is_numeric}
use kite_sql.Types.Value.{DataValue, null, int8, int32}
use kite_sql.Types.Value.Cast.{Conversions}
use kite_sql.Types.Examples.{two_decimals}
use kite_sql.Types.Evaluator.Examples.{a_machine}
use kite_sql.Types.Evaluator.Numeric.{int8_type, signed_value, signed_half, to_signed}
use kite_sql.Execution.Aggregate.{AggCall, count_kind, sum_kind, avg_kind, simple_agg}
use kite_sql.Execution.Aggregate.Column.{calls, rows, summary, next, totals_from, weight, present}
use kite_sql.Execution.Aggregate.Summary.{simple_agg-summary}

abbrev conversions : Conversions Bool
conversions = record {
  to_f32 = λ z. 0;
  to_f64 = λ z. 0;
  decimal_from = λ z. true;
  trunc_with_scale = λ d places. d;
  mantissa_abs = λ d. 0;
  scale = λ d. 0;
}

abbrev refuse : DataValue Bool → LogicalType → Result (DataValue Bool)
refuse value to = err DatabaseError.cast_fail

abbrev three_rows : List (List (DataValue Bool))
three_rows = rows int8_type (some (pos 5) ∷ none ∷ some (negsuc 2) ∷ [])

simple_agg-summary_example :
    simple_agg two_decimals a_machine conversions refuse (calls int8_type) three_rows
    ≡ ok (int32 (pos 2) ∷ int8 (pos 2) ∷ int8 (negsuc 2) ∷ int8 (pos 5) ∷ [])
unfolding rows summary next totals_from weight present signed_value signed_half ◌+ℤ◌ compare_ℤ
    is_numeric
simple_agg-summary_example =
    simple_agg-summary two_decimals a_machine conversions refuse int8_type
      (some (pos 5) ∷ none ∷ some (negsuc 2) ∷ []) refl (omega arith) (omega arith)

abbrev distinct_calls : List AggCall
distinct_calls =
    record { kind = count_kind; ty = LogicalType.integer; distinct = true }
    ∷ record { kind = sum_kind; ty = LogicalType.tinyint; distinct = true }
    ∷ []

abbrev both : DataValue Bool → List (DataValue Bool)
both value = value ∷ value ∷ []

-- Equal values count once, and NULL not at all.
distinct_test :
    simple_agg two_decimals a_machine conversions refuse distinct_calls
      (both (int8 (pos 5)) ∷ both null ∷ both (int8 (pos 5)) ∷ both (int8 (pos 6)) ∷ [])
    ≡ ok (int32 (pos 2) ∷ int8 (pos 11) ∷ [])
unfolding simple_agg compare_ℤ to_signed ◌+ℤ◌
distinct_test = refl

abbrev tinyint_sum : List AggCall
tinyint_sum = record { kind = sum_kind; ty = LogicalType.tinyint; distinct = false } ∷ []

-- A sum of tinyints is a tinyint.
sum_overflow_test :
    simple_agg two_decimals a_machine conversions refuse tinyint_sum
      ((int8 (pos 100) ∷ []) ∷ (int8 (pos 100) ∷ []) ∷ [])
    ≡ err over_flow
unfolding simple_agg compare_ℤ to_signed ◌+ℤ◌
sum_overflow_test = refl

-- The sum of a column of dates fails the assertion.
sum_of_dates_test :
    simple_agg two_decimals a_machine conversions refuse
      (record { kind = sum_kind; ty = LogicalType.date; distinct = false } ∷ [])
      ((null ∷ []) ∷ [])
    ≡ panic
unfolding simple_agg
sum_of_dates_test = refl

-- An average of no numbers is NULL.
avg_test :
    simple_agg two_decimals a_machine conversions refuse
      (record { kind = avg_kind; ty = LogicalType.tinyint; distinct = false } ∷ [])
      ((null ∷ []) ∷ [])
    ≡ ok (null ∷ [])
unfolding simple_agg compare_ℤ to_signed ◌+ℤ◌
avg_test = refl
