-- ===== src/Execution/Aggregate/Summary.antt =====
-- The executor of simple_agg.rs on a column of signed integers with nulls.
use kite_sql.Prelude.{
  suc, ◌+◌, ◌<◌, ◌≡◌, refl, true, some, none, Option, List, [], ◌∷◌, Result, ok, arith,
}
use kite_sql.Prelude.Int.{ℤ, pos, negsuc, ◌+ℤ◌}
use kite_sql.Types.Logical.{LogicalType}
use kite_sql.Types.Logical.Combine.{is_numeric}
use kite_sql.Types.Value.{Foreign, DataValue}
use kite_sql.Types.Value.Raw.{half32}
use kite_sql.Types.Value.Cast.{Conversions}
use kite_sql.Types.Evaluator.Numeric.{Signed, signed_half}
use kite_sql.Types.Evaluator.Machine.{Machine}
use kite_sql.Execution.Aggregate.{
  simple_agg, update_rows, evaluate, evaluate_all, create_accumulators, create_accumulator, new_sum,
}
use kite_sql.Execution.Aggregate.Column.{
  Totals, start, seen, next, totals_from, weight, present, seen_count, seen_weight, rows, summary,
  accumulators, calls, signed_logical, binary_create-plus,
}
use kite_sql.Execution.Aggregate.Update.{update_values-accumulators}

module _ (f : Foreign) (m : Machine f.Decimal) (c : Conversions f.Decimal)
    (cast_other : DataValue f.Decimal → LogicalType → Result (DataValue f.Decimal)) where
  open f use {Decimal}

  -- What is left of the bounds behind a row.
  bounds-next :
      (totals : Totals) (z : Option ℤ) (zs : List (Option ℤ))
      → (seen_count (next totals z) + present zs < suc (seen_count totals + present (z ∷ zs)))
        × (seen_weight (next totals z) + weight zs < suc (seen_weight totals + weight (z ∷ zs)))
  unfolding next present weight ◌+ℤ◌
  bounds-next start none zs = (omega arith, omega arith)
  bounds-next start (some z) zs = (omega arith, omega arith)
  bounds-next (seen n total low high) none zs = (omega arith, omega arith)
  bounds-next (seen n (pos total) low high) (some (pos z)) zs = (omega arith, ground arith)
  bounds-next (seen n (pos total) low high) (some (negsuc z)) zs = (omega arith, ground arith)
  bounds-next (seen n (negsuc total) low high) (some (pos z)) zs = (omega arith, ground arith)
  bounds-next (seen n (negsuc total) low high) (some (negsuc z)) zs = (omega arith, ground arith)

  first_weight : (z : Option ℤ) (zs : List (Option ℤ)) → weight (z ∷ []) < suc (weight (z ∷ zs))
  unfolding weight
  first_weight none zs = omega arith
  first_weight (some z) zs = omega arith

  update_rows-rows :
      (t : Signed) (totals : Totals) (zs : List (Option ℤ))
      → suc (seen_count totals + present zs) < half32
      → seen_weight totals + weight zs < signed_half t
      → update_rows f m c cast_other (accumulators t totals) (rows t zs)
        ≡ ok (accumulators t (totals_from totals zs))
  unfolding update_rows rows totals_from
  update_rows-rows t totals [] h k = refl
  update_rows-rows t totals (z ∷ zs) h k =
      let left = bounds-next totals z zs in
      let first = first_weight z zs in
      rw (update_values-accumulators f m c cast_other t totals z (omega arith) (omega arith))
        (update_rows-rows t (next totals z) zs (omega (arith, left.0)) (omega (arith, left.1)))

  evaluate_all-accumulators :
      (t : Signed) (totals : Totals)
      → evaluate_all f m c cast_other (accumulators t totals) ≡ ok (summary t totals)
  unfolding evaluate_all evaluate summary
  evaluate_all-accumulators t start = refl
  evaluate_all-accumulators t (seen n total low high) = refl

  create_accumulators-calls :
      (t : Signed)
      → is_numeric (signed_logical t) ≡ true
      → create_accumulators {D = Decimal} (calls t) ≡ ok (accumulators t start)
  unfolding create_accumulators create_accumulator new_sum
  create_accumulators-calls t h = rw (h, binary_create-plus t) refl

  -- On a column with nulls of a numeric type of signed integers (TINYINT, SMALLINT, INTEGER or
  -- BIGINT; dates and date times are signed integers too, but not numeric), with fewer numbers than an
  -- `i32` counts and with their magnitudes adding up to a number of the type, the count, the sum, the minimum and the maximum
  -- that are yielded are those of the numbers, and NULL but for the count where there are none.
  pub simple_agg-summary :
      (t : Signed) (zs : List (Option ℤ))
      → is_numeric (signed_logical t) ≡ true
      → suc (present zs) < half32
      → weight zs < signed_half t
      → simple_agg f m c cast_other (calls t) (rows t zs) ≡ ok (summary t (totals_from start zs))
  unfolding simple_agg
  simple_agg-summary t zs numeric h k =
      rw
        (
          create_accumulators-calls t numeric,
          update_rows-rows t start zs (omega arith) (omega arith),
        )
        (evaluate_all-accumulators t (totals_from start zs))
