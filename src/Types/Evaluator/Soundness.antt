-- ===== src/Types/Evaluator/Soundness.antt =====
-- The evaluators of the machine integers in src/types/evaluator: what they may return on the
-- values of their type.
use kite_sql.Prelude.{
  ℕ, suc, ◌+◌, ◌*◌, ◌%◌, ◌<◌, ◌≡◌, refl, ◌⊎◌, inl, inr, Bool, Bool-cases, none, some, Result, ok,
  err, panic, over_flow, ◌&&◌, ltb, ltb→lt, ◌==◌, arith,
}
use kite_sql.Prelude.Int.{
  ℤ, pos, negsuc, pos_part, neg_part, sub_ℕ, ◌+ℤ◌, ◌-ℤ◌, ◌*ℤ◌, compare_ℤ, IsSigned,
}
use kite_sql.Types.Logical.{LogicalType}
use kite_sql.Types.Value.{Foreign, DataValue, null, boolean, float64, is_equal}
use kite_sql.Types.Evaluator.Numeric.{
  Comparison, NumericOp, plus, minus, multiply, divide, modulo, comparison, Signed, Unsigned,
  int8_type, int16_type, int32_type, int64_type, date_type, date_time_type, u_int8_type,
  u_int16_type, u_int32_type, u_int64_type, null_strict, numeric_binary, to_signed, to_unsigned,
  signed_rem, unsigned_rem, signed_arithmetic, unsigned_arithmetic, signed_operand, signed_value,
  signed_half, unsigned_operand, unsigned_value, unsigned_size, value,
}
use kite_sql.Types.Evaluator.Machine.{Machine}
use kite_sql.Types.Evaluator.Eval.{binary_eval}
use kite_sql.Types.Evaluator.{BinaryEvaluator, signed_binary, unsigned_binary}

-- The types whose values are machine integers.
pub data Word : Type 0 where
  signed_word : Signed → Word
  unsigned_word : Unsigned → Word

abbrev pub word_type : Word → LogicalType
word_type (signed_word int8_type) = LogicalType.tinyint
word_type (signed_word int16_type) = LogicalType.smallint
word_type (signed_word int32_type) = LogicalType.integer
word_type (signed_word int64_type) = LogicalType.bigint
word_type (signed_word date_type) = LogicalType.date
word_type (signed_word date_time_type) = LogicalType.date_time
word_type (unsigned_word u_int8_type) = LogicalType.u_tinyint
word_type (unsigned_word u_int16_type) = LogicalType.u_smallint
word_type (unsigned_word u_int32_type) = LogicalType.u_integer
word_type (unsigned_word u_int64_type) = LogicalType.u_bigint

-- The cells of a column of such a type.
pub data Cell {D : Type 0} : Word → DataValue D → Type 0 where
  null_cell : (w : Word) → Cell w null
  signed_cell :
      (t : Signed) (z : ℤ) → IsSigned (signed_half t) z → Cell (signed_word t) (signed_value t z)
  unsigned_cell :
      (t : Unsigned) (n : ℕ) → n < unsigned_size t → Cell (unsigned_word t) (unsigned_value t n)

-- What an evaluator may return: a cell of the type from the arithmetic, a double from `/`, a truth
-- value from a comparison, an overflow from `+`, `-` and `*` alone, a panic from `%` alone.
pub data Outcome {D : Type 0} (w : Word) : NumericOp → Result (DataValue D) → Type 0 where
  of_plus : (v : DataValue D) → Cell w v → Outcome w plus (ok v)
  of_minus : (v : DataValue D) → Cell w v → Outcome w minus (ok v)
  of_multiply : (v : DataValue D) → Cell w v → Outcome w multiply (ok v)
  of_modulo : (v : DataValue D) → Cell w v → Outcome w modulo (ok v)
  of_divide : (q : ℕ) → Outcome w divide (ok (float64 q))
  of_comparison : (c : Comparison) (b : Bool) → Outcome w (comparison c) (ok (boolean b))
  of_null : (op : NumericOp) → Outcome w op (ok null)
  plus_overflow : Outcome w plus (err over_flow)
  minus_overflow : Outcome w minus (err over_flow)
  multiply_overflow : Outcome w multiply (err over_flow)
  no_remainder : Outcome w modulo panic

-- A checked result is the number itself, in the range.
pub to_signed-cases :
    (half : ℕ) (z : ℤ) → (to_signed half z ≡ none) ⊎ ((to_signed half z ≡ some z) × IsSigned half z)
unfolding to_signed
to_signed-cases half (pos n) = elim (Bool-cases (ltb n half)) [
  | inl h_yes ↦ inr (rw h_yes refl, ltb→lt n half h_yes)
  | inr h_no ↦ inl (rw h_no refl)
]
to_signed-cases half (negsuc n) = elim (Bool-cases (ltb n half)) [
  | inl h_yes ↦ inr (rw h_yes refl, ltb→lt n half h_yes)
  | inr h_no ↦ inl (rw h_no refl)
]

to_unsigned-cases :
    (size : ℕ) (z : ℤ)
    → (to_unsigned size z ≡ none) ⊎ ((n : ℕ) × (to_unsigned size z ≡ some n) × (n < size))
unfolding to_unsigned
to_unsigned-cases size (pos n) = elim (Bool-cases (ltb n size)) [
  | inl h_yes ↦ inr (n, rw h_yes refl, ltb→lt n size h_yes)
  | inr h_no ↦ inl (rw h_no refl)
]
to_unsigned-cases size (negsuc n) = inl refl

mod_le : (a d : ℕ) → a % d < suc a
mod_le a d = ground arith

-- A remainder is no longer than its dividend.
sub_ℕ-IsSigned : (half r : ℕ) → 0 < half → r < suc half → IsSigned half (sub_ℕ 0 r)
sub_ℕ-IsSigned half r h k = ground arith

signed_rem-cases :
    (half : ℕ) (a b : ℤ)
    → IsSigned half a
    → (signed_rem half a b ≡ panic) ⊎ ((z : ℤ) × (signed_rem half a b ≡ ok z) × IsSigned half z)
unfolding signed_rem
signed_rem-cases half (pos a) b h =
    let small = mod_le a (pos_part b + neg_part b) in
    elim (Bool-cases (pos_part b + neg_part b == 0)) [
      | inl h_yes ↦ inl (rw h_yes refl)
      | inr h_no ↦ inr (pos (a % (pos_part b + neg_part b)), rw h_no refl, omega arith)
    ]
signed_rem-cases half (negsuc a) b h =
    let small = mod_le (a + 1) (pos_part b + neg_part b) in
    elim (Bool-cases (pos_part b + neg_part b == 0)) [
      | inl h_yes ↦ inl (rw h_yes refl)
      | inr h_no ↦ elim (Bool-cases ((a + 1 == half) && is_equal (compare_ℤ b (negsuc 0)))) [
        | inl h_yes ↦ inl (rw (h_no, h_yes) refl)
        | inr h_other ↦ inr (
          sub_ℕ 0 ((a + 1) % (pos_part b + neg_part b)),
          rw (h_no, h_other) refl,
          sub_ℕ-IsSigned half ((a + 1) % (pos_part b + neg_part b)) (omega arith) (omega arith),
        )
      ]
    ]

unsigned_rem-cases :
    (size a b : ℕ)
    → a < size
    → (unsigned_rem a b ≡ panic) ⊎ ((n : ℕ) × (unsigned_rem a b ≡ ok n) × (n < size))
unfolding unsigned_rem
unsigned_rem-cases size a b h =
    let small = mod_le a b in
    elim (Bool-cases (b == 0)) [
      | inl h_yes ↦ inl (rw h_yes refl)
      | inr h_no ↦ inr (a % b, rw h_no refl, omega arith)
    ]

module _ {D : Type 0} (quotient : ℤ → ℤ → ℕ) (t : Signed) where
  -- The evaluator of an operation, on two numbers of the type.
  abbrev pub signed_run : NumericOp → ℤ → ℤ → Result (DataValue D)
  signed_run op =
      numeric_binary (signed_arithmetic (signed_half t)) (signed_value t)
        (λ a b. ok (float64 (quotient a b))) op

  signed_run-Outcome :
      (op : NumericOp) (a b : ℤ)
      → IsSigned (signed_half t) a
      → Outcome {D = D} (signed_word t) op (signed_run op a b)
  unfolding numeric_binary signed_arithmetic
  signed_run-Outcome plus a b h = elim (to_signed-cases (signed_half t) (a +ℤ b)) [
    | inl over ↦ rw over plus_overflow
    | inr (fits, k) ↦ rw fits (of_plus (signed_value t (a +ℤ b)) (signed_cell t (a +ℤ b) k))
  ]
  signed_run-Outcome minus a b h = elim (to_signed-cases (signed_half t) (a -ℤ b)) [
    | inl over ↦ rw over minus_overflow
    | inr (fits, k) ↦ rw fits (of_minus (signed_value t (a -ℤ b)) (signed_cell t (a -ℤ b) k))
  ]
  signed_run-Outcome multiply a b h = elim (to_signed-cases (signed_half t) (a *ℤ b)) [
    | inl over ↦ rw over multiply_overflow
    | inr (fits, k) ↦ rw fits (of_multiply (signed_value t (a *ℤ b)) (signed_cell t (a *ℤ b) k))
  ]
  signed_run-Outcome divide a b h = of_divide (quotient a b)
  signed_run-Outcome modulo a b h = elim (signed_rem-cases (signed_half t) a b h) [
    | inl zero_divisor ↦ rw zero_divisor no_remainder
    | inr (z, e, k) ↦ rw e (of_modulo (signed_value t z) (signed_cell t z k))
  ]
  signed_run-Outcome (comparison c) a b h = of_comparison c _

module _ {D : Type 0} (quotient : ℕ → ℕ → ℕ) (t : Unsigned) where
  abbrev pub unsigned_run : NumericOp → ℕ → ℕ → Result (DataValue D)
  unsigned_run op =
      numeric_binary (unsigned_arithmetic (unsigned_size t)) (unsigned_value t)
        (λ a b. ok (float64 (quotient a b))) op

  unsigned_run-Outcome :
      (op : NumericOp) (a b : ℕ)
      → a < unsigned_size t
      → Outcome {D = D} (unsigned_word t) op (unsigned_run op a b)
  unfolding numeric_binary unsigned_arithmetic
  unsigned_run-Outcome plus a b h = elim (to_unsigned-cases (unsigned_size t) (pos (a + b))) [
    | inl over ↦ rw over plus_overflow
    | inr (n, fits, k) ↦ rw fits (of_plus (unsigned_value t n) (unsigned_cell t n k))
  ]
  unsigned_run-Outcome minus a b h = elim (to_unsigned-cases (unsigned_size t) (sub_ℕ a b)) [
    | inl over ↦ rw over minus_overflow
    | inr (n, fits, k) ↦ rw fits (of_minus (unsigned_value t n) (unsigned_cell t n k))
  ]
  unsigned_run-Outcome multiply a b h = elim (to_unsigned-cases (unsigned_size t) (pos (a * b))) [
    | inl over ↦ rw over multiply_overflow
    | inr (n, fits, k) ↦ rw fits (of_multiply (unsigned_value t n) (unsigned_cell t n k))
  ]
  unsigned_run-Outcome divide a b h = of_divide (quotient a b)
  unsigned_run-Outcome modulo a b h = elim (unsigned_rem-cases (unsigned_size t) a b h) [
    | inl zero_divisor ↦ rw zero_divisor no_remainder
    | inr (n, e, k) ↦ rw e (of_modulo (unsigned_value t n) (unsigned_cell t n k))
  ]
  unsigned_run-Outcome (comparison c) a b h = of_comparison c _

-- A value of a type is read back by the pattern of the type.
pub signed_operand-signed_value :
    (D : Type 0) (t : Signed) (z : ℤ) → signed_operand {D = D} t (signed_value t z) ≡ value z
unfolding signed_operand signed_value
signed_operand-signed_value D int8_type z = refl
signed_operand-signed_value D int16_type z = refl
signed_operand-signed_value D int32_type z = refl
signed_operand-signed_value D int64_type z = refl
signed_operand-signed_value D date_type z = refl
signed_operand-signed_value D date_time_type z = refl

pub unsigned_operand-unsigned_value :
    (D : Type 0) (t : Unsigned) (n : ℕ) → unsigned_operand {D = D} t (unsigned_value t n) ≡ value n
unfolding unsigned_operand unsigned_value
unsigned_operand-unsigned_value D u_int8_type n = refl
unsigned_operand-unsigned_value D u_int16_type n = refl
unsigned_operand-unsigned_value D u_int32_type n = refl
unsigned_operand-unsigned_value D u_int64_type n = refl

-- The evaluators of such a type.
abbrev pub word_binary : Word → NumericOp → BinaryEvaluator
word_binary (signed_word t) op = signed_binary t op
word_binary (unsigned_word t) op = unsigned_binary t op

module _ (f : Foreign) (m : Machine f.Decimal) where
  pub eval-Outcome :
      (w : Word) (op : NumericOp) (a b : DataValue f.Decimal)
      → Cell w a
      → Cell w b
      → Outcome w op (binary_eval f m (word_binary w op) a b)
  unfolding binary_eval null_strict
  eval-Outcome _ op _ _ (signed_cell t x h) (signed_cell _ y k) =
      rw (signed_operand-signed_value f.Decimal t x, signed_operand-signed_value f.Decimal t y)
        (signed_run-Outcome m.signed_quotient t op x y h)
  eval-Outcome _ op _ _ (signed_cell t x h) (null_cell _) =
      rw (signed_operand-signed_value f.Decimal t x) (of_null op)
  eval-Outcome _ op _ _ (null_cell _) (signed_cell t y k) =
      rw (signed_operand-signed_value f.Decimal t y) (of_null op)
  eval-Outcome (signed_word t) op _ _ (null_cell _) (null_cell _) = of_null op
  eval-Outcome _ op _ _ (unsigned_cell t x h) (unsigned_cell _ y k) =
      rw
        (
          unsigned_operand-unsigned_value f.Decimal t x,
          unsigned_operand-unsigned_value f.Decimal t y,
        )
        (unsigned_run-Outcome m.unsigned_quotient t op x y h)
  eval-Outcome _ op _ _ (unsigned_cell t x h) (null_cell _) =
      rw (unsigned_operand-unsigned_value f.Decimal t x) (of_null op)
  eval-Outcome _ op _ _ (null_cell _) (unsigned_cell t y k) =
      rw (unsigned_operand-unsigned_value f.Decimal t y) (of_null op)
  eval-Outcome (unsigned_word t) op _ _ (null_cell _) (null_cell _) = of_null op
