-- ===== src/Execution/Aggregate/Column.antt =====
-- A column of signed integers with nulls, and what simple_agg.rs does with one of its values.
use Prim.Native.Nat.{Ordering}
use kite_sql.Prelude.{
  ℕ, suc, ◌+◌, ◌<◌, ◌≡◌, refl, Bool, true, false, if◌then◌else◌, some, none, Option, List, [], ◌∷◌,
  ok, arith,
}
use kite_sql.Prelude.Int.{ℤ, pos, negsuc, pos_part, neg_part, ◌+ℤ◌, compare_ℤ}
use kite_sql.Expression.Range.{plus_op, gt_op, lt_op}
use kite_sql.Types.Logical.{LogicalType}
use kite_sql.Types.Value.{DataValue, null, int32, is_null, logical_type}
use kite_sql.Types.Evaluator.Numeric.{
  Signed, int8_type, int16_type, int32_type, int64_type, date_type, date_time_type, signed_value,
  plus, comparison, gt, lt, to_signed, holds,
}
use kite_sql.Types.Evaluator.{signed_binary, binary_create}
use kite_sql.Execution.Aggregate.{
  AggCall, count_kind, sum_kind, min_kind, max_kind, Accumulator, count, sum, min_max,
}

abbrev pub magnitude : ℤ → ℕ
magnitude z = pos_part z + neg_part z

abbrev pub is_less : Ordering → Bool
is_less Ordering.lt = true
is_less _ = false

abbrev pub is_greater : Ordering → Bool
is_greater Ordering.gt = true
is_greater _ = false

abbrev pub smaller_ℤ : ℤ → ℤ → ℤ
smaller_ℤ low z = if is_greater (compare_ℤ low z) then z else low

abbrev pub larger_ℤ : ℤ → ℤ → ℤ
larger_ℤ high z = if is_less (compare_ℤ high z) then z else high

-- How many numbers there are, with their sum, the smallest and the largest.
pub data Totals : Type 0 where
  start : Totals
  seen : ℕ → ℤ → ℤ → ℤ → Totals

unfoldable pub next : Totals → Option ℤ → Totals
next totals none = totals
next start (some z) = seen 1 z z z
next (seen n total low high) (some z) =
    seen (suc n) (total +ℤ z) (smaller_ℤ low z) (larger_ℤ high z)

unfoldable pub totals_from : Totals → List (Option ℤ) → Totals
unfolding next
totals_from totals [] = totals
totals_from totals (z ∷ zs) = totals_from (next totals z) zs

-- The sum of the magnitudes, and the length.
unfoldable pub weight : List (Option ℤ) → ℕ
weight [] = 0
weight (none ∷ zs) = weight zs
weight (some z ∷ zs) = magnitude z + weight zs

unfoldable pub present : List (Option ℤ) → ℕ
present [] = 0
present (none ∷ zs) = present zs
present (some z ∷ zs) = suc (present zs)

abbrev pub seen_count : Totals → ℕ
seen_count start = 0
seen_count (seen n total low high) = n

abbrev pub seen_weight : Totals → ℕ
seen_weight start = 0
seen_weight (seen n total low high) = magnitude total

module _ {D : Type 0} where
  abbrev pub cell : Signed → Option ℤ → DataValue D
  cell t none = null
  cell t (some z) = signed_value t z

  -- One row, whose value is the argument of four calls.
  abbrev pub row : Signed → Option ℤ → List (DataValue D)
  row t z = cell t z ∷ cell t z ∷ cell t z ∷ cell t z ∷ []

  unfoldable pub rows : Signed → List (Option ℤ) → List (List (DataValue D))
  rows t [] = []
  rows t (z ∷ zs) = row t z ∷ rows t zs

  -- The row that is yielded.
  unfoldable pub summary : Signed → Totals → List (DataValue D)
  summary t start = int32 (pos 0) ∷ null ∷ null ∷ null ∷ []
  summary t (seen n total low high) =
      int32 (pos n) ∷ signed_value t total ∷ signed_value t low ∷ signed_value t high ∷ []

  -- The accumulators after the rows of some totals.
  abbrev pub accumulators : Signed → Totals → List (Accumulator D)
  accumulators t start =
      count 0 ∷ sum null (signed_binary t plus) ∷ min_max none gt_op ∷ min_max none lt_op ∷ []
  accumulators t (seen n total low high) =
      count n
      ∷ sum (signed_value t total) (signed_binary t plus)
      ∷ min_max (some (signed_value t low)) gt_op
      ∷ min_max (some (signed_value t high)) lt_op
      ∷ []

abbrev pub signed_logical : Signed → LogicalType
signed_logical int8_type = LogicalType.tinyint
signed_logical int16_type = LogicalType.smallint
signed_logical int32_type = LogicalType.integer
signed_logical int64_type = LogicalType.bigint
signed_logical date_type = LogicalType.date
signed_logical date_time_type = LogicalType.date_time

abbrev pub calls : Signed → List AggCall
calls t =
    record { kind = count_kind; ty = LogicalType.integer; distinct = false }
    ∷ record { kind = sum_kind; ty = signed_logical t; distinct = false }
    ∷ record { kind = min_kind; ty = signed_logical t; distinct = false }
    ∷ record { kind = max_kind; ty = signed_logical t; distinct = false }
    ∷ []

pub binary_create-plus :
    (t : Signed) → binary_create (signed_logical t) plus_op ≡ ok (signed_binary t plus)
unfolding binary_create
binary_create-plus int8_type = refl
binary_create-plus int16_type = refl
binary_create-plus int32_type = refl
binary_create-plus int64_type = refl
binary_create-plus date_type = refl
binary_create-plus date_time_type = refl

pub is_null-signed_value :
    (D : Type 0) (t : Signed) (z : ℤ) → is_null {D = D} (signed_value t z) ≡ false
unfolding is_null signed_value
is_null-signed_value D int8_type z = refl
is_null-signed_value D int16_type z = refl
is_null-signed_value D int32_type z = refl
is_null-signed_value D int64_type z = refl
is_null-signed_value D date_type z = refl
is_null-signed_value D date_time_type z = refl

pub logical_type-signed_value :
    (D : Type 0) (t : Signed) (z : ℤ) → logical_type {D = D} (signed_value t z) ≡ signed_logical t
unfolding logical_type signed_value
logical_type-signed_value D int8_type z = refl
logical_type-signed_value D int16_type z = refl
logical_type-signed_value D int32_type z = refl
logical_type-signed_value D int64_type z = refl
logical_type-signed_value D date_type z = refl
logical_type-signed_value D date_time_type z = refl

pub binary_create-comparison :
    (t : Signed)
    → (binary_create (signed_logical t) gt_op ≡ ok (signed_binary t (comparison gt)))
      × (binary_create (signed_logical t) lt_op ≡ ok (signed_binary t (comparison lt)))
unfolding binary_create
binary_create-comparison int8_type = (refl, refl)
binary_create-comparison int16_type = (refl, refl)
binary_create-comparison int32_type = (refl, refl)
binary_create-comparison int64_type = (refl, refl)
binary_create-comparison date_type = (refl, refl)
binary_create-comparison date_time_type = (refl, refl)

pub to_signed-fits :
    (half : ℕ) (a b : ℤ)
    → magnitude a + magnitude b < half
    → to_signed half (a +ℤ b) ≡ some (a +ℤ b)
unfolding to_signed ◌+ℤ◌
to_signed-fits half (pos a) (pos b) h = ground arith
to_signed-fits half (pos a) (negsuc b) h = ground arith
to_signed-fits half (negsuc a) (pos b) h = ground arith
to_signed-fits half (negsuc a) (negsuc b) h = ground arith

pub chosen-gt :
    {V : Type 0}
    → (g : ℤ → V) (o : Ordering) (same : Bool) (z b : ℤ)
    → (if holds gt o same then some (g z) else some (g b))
      ≡ some (g (if is_greater o then z else b))
unfolding holds
chosen-gt g Ordering.lt same z b = refl
chosen-gt g Ordering.eq same z b = refl
chosen-gt g Ordering.gt same z b = refl

pub chosen-lt :
    {V : Type 0}
    → (g : ℤ → V) (o : Ordering) (same : Bool) (z b : ℤ)
    → (if holds lt o same then some (g z) else some (g b)) ≡ some (g (if is_less o then z else b))
unfolding holds
chosen-lt g Ordering.lt same z b = refl
chosen-lt g Ordering.eq same z b = refl
chosen-lt g Ordering.gt same z b = refl
