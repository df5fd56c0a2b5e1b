-- ===== src/Types/Evaluator/Numeric.antt =====
-- The evaluators of the numeric types: the macros `numeric_binary_evaluator_definition!` and
-- `numeric_unary_evaluator_definition!` of src/types/evaluator/mod.rs on the machine integers, and
-- float32.rs, float64.rs and decimal.rs on what the crates compute.
use Prim.Native.Nat.{Ordering, compare}
use kite_sql.Prelude.{
  ℕ, ◌+◌, ◌*◌, ◌%◌, Bool, true, false, ◌&&◌, not, Option, none, some, ltb, ◌==◌, if◌then◌else◌,
  Result, ok, panic, ◌>>=◌, over_flow, ok_or,
}
use kite_sql.Prelude.Int.{ℤ, pos, negsuc, pos_part, neg_part, sub_ℕ, ◌+ℤ◌, ◌-ℤ◌, ◌*ℤ◌, compare_ℤ}
use kite_sql.Types.Bytes.{byte_range}
use kite_sql.Types.Value.Raw.{half8, half16, half32, half64}
use kite_sql.Types.Value.{
  DataValue, null, boolean, int8, int16, int32, int64, u_int8, u_int16, u_int32, u_int64, date32,
  date64, is_equal,
}

pub data Comparison : Type 0 where
  gt gt_eq lt lt_eq equal not_equal : Comparison

pub data NumericOp : Type 0 where
  plus minus multiply divide modulo : NumericOp
  comparison : Comparison → NumericOp

-- The types that the macro is applied to, by their operands.
pub data Signed : Type 0 where
  int8_type int16_type int32_type int64_type date_type date_time_type : Signed

pub data Unsigned : Type 0 where
  u_int8_type u_int16_type u_int32_type u_int64_type : Unsigned

-- `gt`, `ge`, `lt` and `le` follow the order, `eq` and `ne` are tests of their own.
unfoldable pub holds : Comparison → Ordering → Bool → Bool
holds gt Ordering.gt same = true
holds gt _ same = false
holds gt_eq Ordering.lt same = false
holds gt_eq _ same = true
holds lt Ordering.lt same = true
holds lt _ same = false
holds lt_eq Ordering.gt same = false
holds lt_eq _ same = true
holds equal order same = same
holds not_equal order same = not same

-- An operand of the evaluator of one type: a value of the type, NULL, or a value of another type.
pub data Operand (N : Type 0) : Type 0 where
  value : N → Operand N
  missing other : Operand N

-- The arms that the evaluators share. `hint::unreachable_unchecked` is a panic here.
unfoldable pub null_strict :
    {N D : Type 0} → (N → N → Result (DataValue D)) → Operand N → Operand N → Result (DataValue D)
null_strict compute (value a) (value b) = compute a b
null_strict compute (value a) missing = ok null
null_strict compute missing (value b) = ok null
null_strict compute missing missing = ok null
null_strict compute other b = panic
null_strict compute (value a) other = panic
null_strict compute missing other = panic

-- What the evaluators compute on the numbers of one type.
pub record Arithmetic (N : Type 0) : Type 0 where
  pub add : N → N → Result N
  pub sub : N → N → Result N
  pub mul : N → N → Result N
  pub rem : N → N → Result N
  pub cmp : N → N → Ordering
  pub eq : N → N → Bool

-- The arms on two numbers, wrapped by `compute_type`; a quotient is a value of its own.
unfoldable pub numeric_binary :
    {N D : Type 0}
    → Arithmetic N
    → (N → DataValue D)
    → (N → N → Result (DataValue D))
    → NumericOp
    → N
    → N
    → Result (DataValue D)
unfolding holds
numeric_binary o compute_type quotient plus a b = do r ← o.add a b; ok (compute_type r)
numeric_binary o compute_type quotient minus a b = do r ← o.sub a b; ok (compute_type r)
numeric_binary o compute_type quotient multiply a b = do r ← o.mul a b; ok (compute_type r)
numeric_binary o compute_type quotient divide a b = quotient a b
numeric_binary o compute_type quotient modulo a b = do r ← o.rem a b; ok (compute_type r)
numeric_binary o compute_type quotient (comparison c) a b =
    ok (boolean (holds c (o.cmp a b) (o.eq a b)))

-- A result that a machine integer can hold: `checked_add` and the like.
unfoldable pub to_signed : ℕ → ℤ → Option ℤ
to_signed half (pos n) = if ltb n half then some (pos n) else none
to_signed half (negsuc n) = if ltb n half then some (negsuc n) else none

unfoldable pub to_unsigned : ℕ → ℤ → Option ℕ
to_unsigned size (pos n) = if ltb n size then some n else none
to_unsigned size (negsuc n) = none

-- `%` takes the sign of the dividend, and panics on zero and on MIN % -1.
unfoldable pub signed_rem : ℕ → ℤ → ℤ → Result ℤ
signed_rem half (pos a) b =
    if pos_part b + neg_part b == 0 then panic else ok (pos (a % (pos_part b + neg_part b)))
signed_rem half (negsuc a) b =
    if pos_part b + neg_part b == 0
    then panic
    else if (a + 1 == half) && is_equal (compare_ℤ b (negsuc 0))
    then panic
    else ok (sub_ℕ 0 ((a + 1) % (pos_part b + neg_part b)))

unfoldable pub signed_arithmetic : ℕ → Arithmetic ℤ
signed_arithmetic half = record {
  add = λ a b. ok_or over_flow (to_signed half (a +ℤ b));
  sub = λ a b. ok_or over_flow (to_signed half (a -ℤ b));
  mul = λ a b. ok_or over_flow (to_signed half (a *ℤ b));
  rem = signed_rem half;
  cmp = compare_ℤ;
  eq = λ a b. is_equal (compare_ℤ a b);
}

unfoldable pub unsigned_rem : ℕ → ℕ → Result ℕ
unsigned_rem a b = if b == 0 then panic else ok (a % b)

unfoldable pub unsigned_arithmetic : ℕ → Arithmetic ℕ
unsigned_arithmetic size = record {
  add = λ a b. ok_or over_flow (to_unsigned size (pos (a + b)));
  sub = λ a b. ok_or over_flow (to_unsigned size (sub_ℕ a b));
  mul = λ a b. ok_or over_flow (to_unsigned size (pos (a * b)));
  rem = unsigned_rem;
  cmp = compare;
  eq = λ a b. a == b;
}

-- `-value`, with the overflow check of a debug build.
unfoldable pub signed_neg : ℕ → ℤ → Result ℤ
signed_neg half z = elim (to_signed half (pos 0 -ℤ z)) [ none ↦ panic | some r ↦ ok r ]

-- The macro's `compute_type`, as a pattern and as a constructor, and the range of its numbers.
unfoldable pub signed_operand : {D : Type 0} → Signed → DataValue D → Operand ℤ
signed_operand _ null = missing
signed_operand int8_type (int8 z) = value z
signed_operand int16_type (int16 z) = value z
signed_operand int32_type (int32 z) = value z
signed_operand int64_type (int64 z) = value z
signed_operand date_type (date32 z) = value z
signed_operand date_time_type (date64 z) = value z
signed_operand _ _ = other

unfoldable pub signed_value : {D : Type 0} → Signed → ℤ → DataValue D
signed_value int8_type z = int8 z
signed_value int16_type z = int16 z
signed_value int32_type z = int32 z
signed_value int64_type z = int64 z
signed_value date_type z = date32 z
signed_value date_time_type z = date64 z

unfoldable pub signed_half : Signed → ℕ
signed_half int8_type = half8
signed_half int16_type = half16
signed_half int32_type = half32
signed_half int64_type = half64
signed_half date_type = half32
signed_half date_time_type = half64

unfoldable pub unsigned_operand : {D : Type 0} → Unsigned → DataValue D → Operand ℕ
unsigned_operand _ null = missing
unsigned_operand u_int8_type (u_int8 n) = value n
unsigned_operand u_int16_type (u_int16 n) = value n
unsigned_operand u_int32_type (u_int32 n) = value n
unsigned_operand u_int64_type (u_int64 n) = value n
unsigned_operand _ _ = other

unfoldable pub unsigned_value : {D : Type 0} → Unsigned → ℕ → DataValue D
unsigned_value u_int8_type n = u_int8 n
unsigned_value u_int16_type n = u_int16 n
unsigned_value u_int32_type n = u_int32 n
unsigned_value u_int64_type n = u_int64 n

unfoldable pub unsigned_size : Unsigned → ℕ
unsigned_size u_int8_type = byte_range 1
unsigned_size u_int16_type = byte_range 2
unsigned_size u_int32_type = byte_range 4
unsigned_size u_int64_type = byte_range 8
