-- ===== src/Types/Evaluator/Filter.antt =====
-- The evaluators of src/types/evaluator against the ranges of src/expression/range_detacher.rs: a
-- filter and the scan that replaces it read the same rows.
use kite_sql.Prelude.{◌≡◌, refl, sym, ap, ◌∙◌, true, false, Option, some, Result, ok, arith}
use kite_sql.Prelude.Int.{ℤ, compare_ℤ}
use kite_sql.Types.Value.{Foreign, DataValue, boolean, partial_cmp, eq, is_null, is_equal}
use kite_sql.Expression.Range.{
  BinaryOperator, Range, gt_op, lt_op, gt_eq_op, lt_eq_op, eq_op, not_eq_op, scans, above, below,
}
use kite_sql.Expression.Range.Column.{values, compare_ℤ-flip}
use kite_sql.Expression.Range.Detach.{new_range, range_of, flip_op}
use kite_sql.Types.Evaluator.Numeric.{
  Comparison, gt, gt_eq, lt, lt_eq, equal, not_equal, comparison, holds, Signed, int8_type,
  int16_type, int32_type, int64_type, date_type, date_time_type, null_strict, numeric_binary,
  signed_arithmetic, signed_value,
}
use kite_sql.Types.Evaluator.Machine.{Machine}
use kite_sql.Types.Evaluator.Eval.{binary_eval}
use kite_sql.Types.Evaluator.{signed_binary, comparison_of}
use kite_sql.Types.Evaluator.Soundness.{signed_operand-signed_value}

ok_injective : {A : Type 0} {x y : Option A} → ok x ≡ ok y → x ≡ y
ok_injective h = cc

module _ (f : Foreign) where
  partial_cmp-signed_value :
      (t : Signed) (a b : ℤ)
      → partial_cmp f (signed_value t a) (signed_value t b) ≡ some (compare_ℤ a b)
  unfolding partial_cmp signed_value
  partial_cmp-signed_value int8_type a b = refl
  partial_cmp-signed_value int16_type a b = refl
  partial_cmp-signed_value int32_type a b = refl
  partial_cmp-signed_value int64_type a b = refl
  partial_cmp-signed_value date_type a b = refl
  partial_cmp-signed_value date_time_type a b = refl

  eq-signed_value :
      (t : Signed) (a b : ℤ) → eq f (signed_value t a) (signed_value t b) ≡ is_equal (compare_ℤ a b)
  unfolding eq signed_value
  eq-signed_value int8_type a b = refl
  eq-signed_value int16_type a b = refl
  eq-signed_value int32_type a b = refl
  eq-signed_value int64_type a b = refl
  eq-signed_value date_type a b = refl
  eq-signed_value date_time_type a b = refl

  is_null-signed_value : (t : Signed) (a : ℤ) → is_null {D = f.Decimal} (signed_value t a) ≡ false
  unfolding is_null signed_value
  is_null-signed_value int8_type a = refl
  is_null-signed_value int16_type a = refl
  is_null-signed_value int32_type a = refl
  is_null-signed_value int64_type a = refl
  is_null-signed_value date_type a = refl
  is_null-signed_value date_time_type a = refl

  -- What a range of `range_of` scans, by the order of the cell and the constant.
  scans-range_of :
      (t : Signed) (op : BinaryOperator) (c : Comparison) (r : Range (DataValue f.Decimal))
      (a v : ℤ)
      → comparison_of op ≡ some c
      → range_of op (signed_value t v) ≡ some r
      → scans (values f) r (signed_value t a) ≡ holds c (compare_ℤ a v) (is_equal (compare_ℤ a v))
  unfolding values scans above below range_of comparison_of holds
  scans-range_of t gt_op c r a v is_c is_r =
      let cmp = partial_cmp-signed_value t v a in
      let flip = compare_ℤ-flip a v in let proper = is_null-signed_value t a in ground arith
  scans-range_of t lt_op c r a v is_c is_r =
      let cmp = partial_cmp-signed_value t a v in
      let proper = is_null-signed_value t a in ground arith
  scans-range_of t gt_eq_op c r a v is_c is_r =
      let cmp = partial_cmp-signed_value t v a in
      let flip = compare_ℤ-flip a v in let proper = is_null-signed_value t a in ground arith
  scans-range_of t lt_eq_op c r a v is_c is_r =
      let cmp = partial_cmp-signed_value t a v in
      let proper = is_null-signed_value t a in ground arith
  scans-range_of t eq_op c r a v is_c is_r =
      let same = eq-signed_value t v a in let flip = compare_ℤ-flip a v in ground arith
  scans-range_of t _ c r a v is_c is_r = ground arith

  holds-flip_op :
      (op : BinaryOperator) (c : Comparison) (a v : ℤ)
      → comparison_of op ≡ some c
      → (d : Comparison) × (comparison_of (flip_op op) ≡ some d)
        × (holds d (compare_ℤ a v) (is_equal (compare_ℤ a v))
            ≡ holds c (compare_ℤ v a) (is_equal (compare_ℤ v a)))
  unfolding flip_op comparison_of holds
  holds-flip_op gt_op c a v is_c = let flip = compare_ℤ-flip a v in (lt, refl, ground arith)
  holds-flip_op lt_op c a v is_c = let flip = compare_ℤ-flip a v in (gt, refl, ground arith)
  holds-flip_op gt_eq_op c a v is_c = let flip = compare_ℤ-flip a v in (lt_eq, refl, ground arith)
  holds-flip_op lt_eq_op c a v is_c = let flip = compare_ℤ-flip a v in (gt_eq, refl, ground arith)
  holds-flip_op eq_op c a v is_c = let flip = compare_ℤ-flip a v in (equal, refl, ground arith)
  holds-flip_op not_eq_op c a v is_c =
      let flip = compare_ℤ-flip a v in (not_equal, refl, ground arith)
  holds-flip_op _ c a v is_c = ground arith

  module _ (m : Machine f.Decimal) where
    -- The verdict of a comparison of two numbers of a type.
    eval-comparison :
        (t : Signed) (c : Comparison) (a b : ℤ)
        → binary_eval f m (signed_binary t (comparison c)) (signed_value t a) (signed_value t b)
          ≡ ok (boolean (holds c (compare_ℤ a b) (is_equal (compare_ℤ a b))))
    unfolding binary_eval null_strict numeric_binary signed_arithmetic
    eval-comparison t c a b =
        rw (signed_operand-signed_value f.Decimal t a, signed_operand-signed_value f.Decimal t b)
          refl

    -- The range that is detached from `column op constant`, the constant of the column's signed
    -- type, scans a non-null cell exactly when the evaluator of the comparison says true of it.
    pub binary_eval-scans :
        (t : Signed) (op : BinaryOperator) (c : Comparison) (r : Range (DataValue f.Decimal))
        (cast : DataValue f.Decimal → Result (DataValue f.Decimal)) (a v : ℤ)
        → comparison_of op ≡ some c
        → new_range true (λ x. true) cast op (signed_value t v) false ≡ ok (some r)
        → binary_eval f m (signed_binary t (comparison c)) (signed_value t a) (signed_value t v)
          ≡ ok (boolean (scans (values f) r (signed_value t a)))
    unfolding new_range
    binary_eval-scans t op c r cast a v is_c detached =
        let member = scans-range_of t op c r a v is_c (ok_injective detached) in
        eval-comparison t c a v ∙ ap (λ b. ok (boolean b)) (sym member)

    -- The same of `constant op column`, for which the operator is turned round.
    pub binary_eval-scans_flipped :
        (t : Signed) (op : BinaryOperator) (c : Comparison) (r : Range (DataValue f.Decimal))
        (cast : DataValue f.Decimal → Result (DataValue f.Decimal)) (a v : ℤ)
        → comparison_of op ≡ some c
        → new_range true (λ x. true) cast op (signed_value t v) true ≡ ok (some r)
        → binary_eval f m (signed_binary t (comparison c)) (signed_value t v) (signed_value t a)
          ≡ ok (boolean (scans (values f) r (signed_value t a)))
    unfolding new_range
    binary_eval-scans_flipped t op c r cast a v is_c detached =
        let (d, is_d, turned) = holds-flip_op op c a v is_c in
        let member = scans-range_of t (flip_op op) d r a v is_d (ok_injective detached) in
        eval-comparison t c v a ∙ ap (λ b. ok (boolean b)) (sym (member ∙ turned))
