-- ===== src/Execution/Aggregate.antt =====
-- The accumulators of src/execution/dql/aggregate and the executor of simple_agg.rs. The values of
-- the calls' arguments for each row are an argument; a `HashSet` of values is a list without equal
-- values. The crates stand as in Types/Evaluator and Types/Value/Cast.
pub mod Column
pub mod Update
pub mod Summary
pub mod Examples
use kite_sql.Prelude.{
  ℕ, zero, suc, Bool, true, false, if◌then◌else◌, ltb, ◌%◌, Option, none, some, List, [], ◌∷◌,
  length, Result, ok, err, panic, ◌>>=◌, DatabaseError,
}
use kite_sql.Prelude.Int.{pos, from_bits}
use kite_sql.Expression.Range.{BinaryOperator, plus_op, divide_op, lt_op, gt_op}
use kite_sql.Types.Logical.{LogicalType}
use kite_sql.Types.Logical.Combine.{type_eq, is_numeric, is_signed_numeric}
use kite_sql.Types.Bytes.{byte_range}
use kite_sql.Types.Value.{
  Foreign, DataValue, null, boolean, int32, int64, u_int32, is_null, eq, logical_type,
}
use kite_sql.Types.Value.Raw.{half32, half64}
use kite_sql.Types.Value.Cast.{Conversions, cast}
use kite_sql.Types.Evaluator.{BinaryEvaluator, binary_create}
use kite_sql.Types.Evaluator.Machine.{Machine}
use kite_sql.Types.Evaluator.Eval.{binary_eval}

-- `AggKind` of src/expression/agg.rs and the parts of an `AggCall` that are read.
pub data AggKind : Type 0 where
  avg_kind max_kind min_kind sum_kind count_kind : AggKind

pub record AggCall : Type 0 where
  pub kind : AggKind
  pub ty : LogicalType
  pub distinct : Bool

-- The structs that implement `Accumulator`.
pub data Accumulator (D : Type 0) : Type 0 where
  count : ℕ → Accumulator D
  distinct_count : List (DataValue D) → Accumulator D
  sum : DataValue D → BinaryEvaluator → Accumulator D
  distinct_sum : List (DataValue D) → DataValue D → BinaryEvaluator → Accumulator D
  min_max : Option (DataValue D) → BinaryOperator → Accumulator D
  avg : Option (DataValue D × BinaryEvaluator) → ℕ → Accumulator D

module _ {D : Type 0} where
  -- `SumAccumulator::new`; a failing `debug_assert!` is a panic.
  unfoldable pub new_sum : LogicalType → Result (DataValue D × BinaryEvaluator)
  unfolding binary_create is_numeric
  new_sum ty =
      if is_numeric ty
      then (do evaluator ← binary_create ty plus_op; ok (null, evaluator))
      else panic

  unfoldable pub create_accumulator : AggCall → Result (Accumulator D)
  unfolding new_sum
  create_accumulator call = elim call.kind [
    | count_kind ↦ ok (if call.distinct then distinct_count [] else count 0)
    | sum_kind ↦ do
      (result, evaluator) ← new_sum call.ty
      ok (if call.distinct then distinct_sum [] result evaluator else sum result evaluator)
    | min_kind ↦ ok (min_max none gt_op)
    | max_kind ↦ ok (min_max none lt_op)
    | avg_kind ↦ ok (avg none 0)
  ]

  unfoldable pub create_accumulators : List AggCall → Result (List (Accumulator D))
  unfolding create_accumulator
  create_accumulators [] = ok []
  create_accumulators (call ∷ calls) = do
    acc ← create_accumulator call
    accs ← create_accumulators calls
    ok (acc ∷ accs)

-- The count of an average as a value: `count as i64` or `count as u32`.
unfoldable pub quantity_of : {D : Type 0} → LogicalType → ℕ → DataValue D
unfolding is_signed_numeric from_bits
quantity_of value_ty n =
    if is_signed_numeric value_ty then int64 (from_bits half64 n) else u_int32 (n % byte_range 4)

module _ (f : Foreign) (m : Machine f.Decimal) (c : Conversions f.Decimal)
    (cast_other : DataValue f.Decimal → LogicalType → Result (DataValue f.Decimal)) where
  open f use {Decimal}

  -- `HashSet::contains`
  unfoldable pub contains_value : List (DataValue Decimal) → DataValue Decimal → Bool
  unfolding eq
  contains_value [] value = false
  contains_value (v ∷ vs) value =
      let rest = contains_value vs value in if eq f v value then true else rest

  -- `update_value` of `SumAccumulator`, which the distinct sum and the average hold.
  unfoldable pub update_sum :
      DataValue Decimal → BinaryEvaluator → DataValue Decimal → Result (DataValue Decimal)
  unfolding is_null binary_eval
  update_sum result evaluator value =
      if is_null value
      then ok result
      else if is_null result
      then ok value
      else binary_eval f m evaluator result value

  -- `update_value` of `MinMaxAccumulator`: whether the value takes the place of the inner one.
  unfoldable pub replaces :
      Option (DataValue Decimal) → BinaryOperator → DataValue Decimal → Result Bool
  unfolding binary_create binary_eval logical_type
  replaces none op value = ok true
  replaces (some inner_value) op value = do
    evaluator ← binary_create (logical_type value) op
    found ← binary_eval f m evaluator inner_value value
    elim found [ boolean result ↦ ok result | _ ↦ err DatabaseError.invalid_type ]

  -- The sum of an average: the one it holds, or a new one for the value's type.
  unfoldable pub inner_sum :
      Option (DataValue Decimal × BinaryEvaluator)
      → DataValue Decimal
      → Result (DataValue Decimal × BinaryEvaluator)
  unfolding new_sum logical_type
  inner_sum (some acc) value = ok acc
  inner_sum none value = new_sum (logical_type value)

  -- `update_value` of `CountAccumulator`; a count past an `i32` is the panic of an overflow check.
  unfoldable pub update_count : ℕ → DataValue Decimal → Result (Accumulator Decimal)
  unfolding is_null
  update_count result value =
      if is_null value
      then ok (count result)
      else if ltb (suc result) half32
      then ok (count (suc result))
      else panic

  -- `update_value` of `DistinctCountAccumulator`
  unfoldable pub update_distinct_count :
      List (DataValue Decimal) → DataValue Decimal → Result (Accumulator Decimal)
  unfolding is_null contains_value
  update_distinct_count values value =
      if is_null value
      then ok (distinct_count values)
      else if contains_value values value
      then ok (distinct_count values)
      else ok (distinct_count (value ∷ values))

  -- `update_value` of `DistinctSumAccumulator`
  unfoldable pub update_distinct_sum :
      List (DataValue Decimal)
      → DataValue Decimal
      → BinaryEvaluator
      → DataValue Decimal
      → Result (Accumulator Decimal)
  unfolding contains_value update_sum
  update_distinct_sum values result evaluator value =
      if contains_value values value then ok (distinct_sum values result evaluator) else (do
        next ← update_sum result evaluator value
        ok (distinct_sum (value ∷ values) next evaluator))

  -- `update_value` of `MinMaxAccumulator`
  unfoldable pub update_min_max :
      Option (DataValue Decimal) → BinaryOperator → DataValue Decimal → Result (Accumulator Decimal)
  unfolding is_null replaces
  update_min_max inner op value = if is_null value then ok (min_max inner op) else (do
    better ← replaces inner op value
    ok (min_max (if better then some value else inner) op))

  -- `update_value` of `AvgAccumulator`
  unfoldable pub update_avg :
      Option (DataValue Decimal × BinaryEvaluator)
      → ℕ
      → DataValue Decimal
      → Result (Accumulator Decimal)
  unfolding is_null inner_sum update_sum
  update_avg inner n value = if is_null value then ok (avg inner n) else (do
    (result, evaluator) ← inner_sum inner value
    next ← update_sum result evaluator value
    ok (avg (some (next, evaluator)) (suc n)))

  unfoldable pub update_value :
      Accumulator Decimal → DataValue Decimal → Result (Accumulator Decimal)
  unfolding update_count update_distinct_count update_sum update_distinct_sum update_min_max
      update_avg
  update_value (count result) value = update_count result value
  update_value (distinct_count values) value = update_distinct_count values value
  update_value (sum result evaluator) value = do
    next ← update_sum result evaluator value
    ok (sum next evaluator)
  update_value (distinct_sum values result evaluator) value =
      update_distinct_sum values result evaluator value
  update_value (min_max inner op) value = update_min_max inner op value
  update_value (avg inner n) value = update_avg inner n value

  -- The end of `evaluate` of `AvgAccumulator`, behind its two tests.
  unfoldable pub divide_sum : DataValue Decimal → DataValue Decimal → Result (DataValue Decimal)
  unfolding type_eq logical_type cast binary_create binary_eval
  divide_sum value quantity = do
    value ←
        (if type_eq (logical_type value) (logical_type quantity)
          then ok value
          else cast c cast_other value (logical_type quantity))
    evaluator ← binary_create (logical_type quantity) divide_op
    binary_eval f m evaluator value quantity

  unfoldable pub evaluate_avg :
      Option (DataValue Decimal × BinaryEvaluator) → ℕ → Result (DataValue Decimal)
  unfolding divide_sum quantity_of logical_type
  evaluate_avg none n = ok null
  evaluate_avg (some (value, evaluator)) zero = ok null
  evaluate_avg (some (value, evaluator)) (suc n) =
      divide_sum value (quantity_of (logical_type value) (suc n))

  unfoldable pub evaluate : Accumulator Decimal → Result (DataValue Decimal)
  unfolding evaluate_avg
  evaluate (count result) = ok (int32 (pos result))
  evaluate (distinct_count values) = ok (int32 (from_bits half32 (length values % byte_range 4)))
  evaluate (sum result evaluator) = ok result
  evaluate (distinct_sum values result evaluator) = ok result
  evaluate (min_max none op) = ok null
  evaluate (min_max (some value) op) = ok value
  evaluate (avg inner n) = evaluate_avg inner n

  -- The loop over `accs.iter_mut().zip_eq(values.iter())`, which panics at different lengths.
  unfoldable pub update_values :
      List (Accumulator Decimal) → List (DataValue Decimal) → Result (List (Accumulator Decimal))
  unfolding update_value
  update_values [] [] = ok []
  update_values (acc ∷ accs) (value ∷ values) = do
    acc ← update_value acc value
    accs ← update_values accs values
    ok (acc ∷ accs)
  update_values _ _ = panic

  -- The loop over the rows of the input.
  unfoldable pub update_rows :
      List (Accumulator Decimal)
      → List (List (DataValue Decimal))
      → Result (List (Accumulator Decimal))
  unfolding update_values
  update_rows accs [] = ok accs
  update_rows accs (values ∷ rows) = do accs ← update_values accs values; update_rows accs rows

  unfoldable pub evaluate_all : List (Accumulator Decimal) → Result (List (DataValue Decimal))
  unfolding evaluate
  evaluate_all [] = ok []
  evaluate_all (acc ∷ accs) = do
    value ← evaluate acc
    values ← evaluate_all accs
    ok (value ∷ values)

  -- `execute` of `SimpleAggExecutor`: the values of the row it yields.
  unfoldable pub simple_agg :
      List AggCall → List (List (DataValue Decimal)) → Result (List (DataValue Decimal))
  unfolding create_accumulators update_rows evaluate_all
  simple_agg agg_calls rows = do
    accs ← create_accumulators agg_calls
    accs ← update_rows accs rows
    evaluate_all accs
