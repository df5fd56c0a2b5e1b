-- ===== src/Execution/Aggregate/Update.antt =====
-- One row of a column through the four accumulators of simple_agg.rs.
use kite_sql.Prelude.{
  ℕ, suc, ◌+◌, ◌<◌, ◌≡◌, refl, some, none, Option, List, [], ◌∷◌, Result, ok, lt→ltb, arith,
}
use kite_sql.Prelude.Int.{ℤ, ◌+ℤ◌, compare_ℤ}
use kite_sql.Expression.Range.{gt_op, lt_op}
use kite_sql.Types.Logical.{LogicalType}
use kite_sql.Types.Value.{Foreign, DataValue, is_equal}
use kite_sql.Types.Value.Raw.{half32}
use kite_sql.Types.Value.Cast.{Conversions}
use kite_sql.Types.Evaluator.Numeric.{
  Signed, signed_value, signed_half, plus, null_strict, numeric_binary, signed_arithmetic,
}
use kite_sql.Types.Evaluator.Soundness.{signed_operand-signed_value}
use kite_sql.Types.Evaluator.{signed_binary}
use kite_sql.Types.Evaluator.Machine.{Machine}
use kite_sql.Types.Evaluator.Eval.{binary_eval}
use kite_sql.Execution.Aggregate.{
  Accumulator, count, sum, min_max, update_value, update_count, update_min_max, update_values,
  update_sum, replaces,
}
use kite_sql.Execution.Aggregate.Column.{
  magnitude, smaller_ℤ, larger_ℤ, Totals, start, seen, next, weight, seen_count, seen_weight, row,
  accumulators, is_null-signed_value, logical_type-signed_value, binary_create-comparison,
  to_signed-fits, chosen-gt, chosen-lt,
}

module _ (f : Foreign) (m : Machine f.Decimal) (c : Conversions f.Decimal)
    (cast_other : DataValue f.Decimal → LogicalType → Result (DataValue f.Decimal)) where
  open f use {Decimal}

  update_value-count :
      (t : Signed) (n : ℕ) (z : ℤ)
      → suc n < half32
      → update_value f m c cast_other (count n) (signed_value t z) ≡ ok (count (suc n))
  unfolding update_value update_count
  update_value-count t n z h = rw (is_null-signed_value Decimal t z, lt→ltb (suc n) half32 h) refl

  update_value-sum :
      (t : Signed) (a b : ℤ)
      → magnitude a + magnitude b < signed_half t
      → update_value f m c cast_other
          (sum (signed_value t a) (signed_binary t plus))
          (signed_value t b)
        ≡ ok (sum (signed_value t (a +ℤ b)) (signed_binary t plus))
  unfolding update_value update_sum binary_eval null_strict numeric_binary signed_arithmetic
  update_value-sum t a b h =
      rw
        (
          is_null-signed_value Decimal t a,
          is_null-signed_value Decimal t b,
          signed_operand-signed_value Decimal t a,
          signed_operand-signed_value Decimal t b,
          to_signed-fits (signed_half t) a b h,
        )
        refl

  update_value-min :
      (t : Signed) (a b : ℤ)
      → update_value f m c cast_other (min_max (some (signed_value t a)) gt_op) (signed_value t b)
        ≡ ok (min_max (some (signed_value t (smaller_ℤ a b))) gt_op)
  unfolding update_value update_min_max replaces binary_eval null_strict numeric_binary
      signed_arithmetic
  update_value-min t a b =
      rw
        (
          is_null-signed_value Decimal t b,
          logical_type-signed_value Decimal t b,
          (binary_create-comparison t).0,
          signed_operand-signed_value Decimal t a,
          signed_operand-signed_value Decimal t b,
          chosen-gt (signed_value {D = Decimal} t) (compare_ℤ a b) (is_equal (compare_ℤ a b)) b a,
        )
        refl

  update_value-max :
      (t : Signed) (a b : ℤ)
      → update_value f m c cast_other (min_max (some (signed_value t a)) lt_op) (signed_value t b)
        ≡ ok (min_max (some (signed_value t (larger_ℤ a b))) lt_op)
  unfolding update_value update_min_max replaces binary_eval null_strict numeric_binary
      signed_arithmetic
  update_value-max t a b =
      rw
        (
          is_null-signed_value Decimal t b,
          logical_type-signed_value Decimal t b,
          (binary_create-comparison t).1,
          signed_operand-signed_value Decimal t a,
          signed_operand-signed_value Decimal t b,
          chosen-lt (signed_value {D = Decimal} t) (compare_ℤ a b) (is_equal (compare_ℤ a b)) b a,
        )
        refl

  update_values_cons :
      (acc acc' : Accumulator Decimal) (accs accs' : List (Accumulator Decimal))
      (v : DataValue Decimal) (vs : List (DataValue Decimal))
      → update_value f m c cast_other acc v ≡ ok acc'
      → update_values f m c cast_other accs vs ≡ ok accs'
      → update_values f m c cast_other (acc ∷ accs) (v ∷ vs) ≡ ok (acc' ∷ accs')
  unfolding update_values
  update_values_cons acc acc' accs accs' v vs h k = rw (h, k) refl

  update_values_nil : update_values f m c cast_other [] [] ≡ ok []
  unfolding update_values
  update_values_nil = refl

  update_values-seen :
      (t : Signed) (n : ℕ) (total low high z : ℤ)
      → suc n < half32
      → magnitude total + magnitude z < signed_half t
      → update_values f m c cast_other (accumulators t (seen n total low high)) (row t (some z))
        ≡ ok (accumulators t (seen (suc n) (total +ℤ z) (smaller_ℤ low z) (larger_ℤ high z)))
  update_values-seen t n total low high z h k =
      update_values_cons _ _ _ _ _ _ (update_value-count t n z h) (
        update_values_cons _ _ _ _ _ _ (update_value-sum t total z k) (
          update_values_cons _ _ _ _ _ _ (update_value-min t low z)
            (update_values_cons _ _ _ _ _ _ (update_value-max t high z) update_values_nil)))

  pub update_values-accumulators :
      (t : Signed) (totals : Totals) (z : Option ℤ)
      → suc (seen_count totals) < half32
      → seen_weight totals + weight (z ∷ []) < signed_half t
      → update_values f m c cast_other (accumulators t totals) (row t z)
        ≡ ok (accumulators t (next totals z))
  unfolding update_values update_value update_count update_sum update_min_max replaces next weight
  update_values-accumulators t start none h k = refl
  update_values-accumulators t start (some z) h k = rw (is_null-signed_value Decimal t z) refl
  update_values-accumulators t (seen n total low high) none h k = refl
  update_values-accumulators t (seen n total low high) (some z) h k =
      update_values-seen t n total low high z h (omega arith)
