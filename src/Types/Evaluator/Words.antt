-- ===== src/Types/Evaluator/Words.antt =====
-- What the evaluators of src/types/evaluator promise for columns of machine integers.
use kite_sql.Prelude.{
  Bool-cases, ltb, ltb→lt, ap, ◌+◌, ◌*◌, ℕ, ◌≡◌, refl, sym, ◌∙◌, ◌<◌, ◌⊎◌, inl, inr, Result, err,
  over_flow, ok_or, ◌>>=◌, Option, none, some, ok, arith,
}
use mathlib.Core.Path.{subst}
use kite_sql.Prelude.Int.{ℤ, pos, negsuc, sub_ℕ, ◌+ℤ◌, ◌-ℤ◌, ◌*ℤ◌, IsSigned}
use kite_sql.Types.Value.{Foreign, DataValue, null}
use kite_sql.Expression.Range.{BinaryOperator, plus_op, minus_op, multiply_op}
use kite_sql.Types.Evaluator.Numeric.{
  NumericOp, plus, minus, multiply, Signed, Unsigned, to_unsigned, unsigned_value, unsigned_size,
  unsigned_arithmetic, int8_type, int16_type, int32_type, int64_type, date_type, date_time_type,
  u_int8_type, u_int16_type, u_int32_type, u_int64_type, to_signed, null_strict, numeric_binary,
  signed_arithmetic, signed_value, signed_half,
}
use kite_sql.Types.Evaluator.Machine.{Machine}
use kite_sql.Types.Evaluator.Eval.{binary_eval}
use kite_sql.Types.Evaluator.{
  BinaryEvaluator, numeric_op, numeric_binary_evaluator, supported, binary_create,
}
use kite_sql.Types.Evaluator.Soundness.{
  Word, signed_word, unsigned_word, word_type, word_binary, Cell, Outcome, eval-Outcome, signed_run,
  unsigned_run, unsigned_operand-unsigned_value, signed_operand-signed_value,
}

-- The word type's evaluators are those of the macro.
binary_create-word_type :
    (w : Word) (op : BinaryOperator)
    → binary_create (word_type w) op ≡ supported (numeric_op op) (word_binary w)
unfolding binary_create numeric_binary_evaluator
binary_create-word_type (signed_word int8_type) op = refl
binary_create-word_type (signed_word int16_type) op = refl
binary_create-word_type (signed_word int32_type) op = refl
binary_create-word_type (signed_word int64_type) op = refl
binary_create-word_type (signed_word date_type) op = refl
binary_create-word_type (signed_word date_time_type) op = refl
binary_create-word_type (unsigned_word u_int8_type) op = refl
binary_create-word_type (unsigned_word u_int16_type) op = refl
binary_create-word_type (unsigned_word u_int32_type) op = refl
binary_create-word_type (unsigned_word u_int64_type) op = refl

ok-injective : {A : Type 0} {x y : A} → ok x ≡ ok y → x ≡ y
ok-injective h = cc

supported-ok :
    (o : Option NumericOp) (struct : NumericOp → BinaryEvaluator) (e : BinaryEvaluator)
    → supported o struct ≡ ok e
    → (n : NumericOp) × (o ≡ some n) × (struct n ≡ e)
supported-ok none struct e h = ground arith
supported-ok (some n) struct e h = (n, refl, ok-injective h)

-- The numbers of a type, and their values.
abbrev pub Holds : Word → ℤ → Type 0
Holds (signed_word t) z = IsSigned (signed_half t) z
Holds (unsigned_word t) (pos n) = n < unsigned_size t
Holds (unsigned_word t) (negsuc n) = ⊥

abbrev pub word_value : {D : Type 0} → Word → ℤ → DataValue D
word_value (signed_word t) z = signed_value t z
word_value (unsigned_word t) (pos n) = unsigned_value t n
word_value (unsigned_word t) (negsuc n) = null

-- The integer that an operator stands for.
unfoldable pub exact : BinaryOperator → ℤ → ℤ → Option ℤ
exact plus_op a b = some (a +ℤ b)
exact minus_op a b = some (a -ℤ b)
exact multiply_op a b = some (a *ℤ b)
exact _ a b = none

pos_exact :
    (a b : ℕ)
    → (pos a +ℤ pos b ≡ pos (a + b)) × (pos a -ℤ pos b ≡ sub_ℕ a b) × (pos a *ℤ pos b ≡ pos (a * b))
unfolding ◌+ℤ◌ ◌-ℤ◌ ◌*ℤ◌
pos_exact a b = (ground arith, ground arith, ground arith)

some-injective : {A : Type 0} {x y : A} → some x ≡ some y → x ≡ y
some-injective h = cc

module _ (f : Foreign) (m : Machine f.Decimal) where
  -- The evaluator that the factory returns for an operator and a type of machine integers, on two
  -- cells of the type (NULL or a number in the range): `+`, `-`, `*` and `%` return NULL or a number
  -- in the range of the type, `/` NULL or a double, a comparison NULL or a boolean; only `+`, `-` and
  -- `*` may fail, with OverFlow, and only `%` may panic.
  pub binary_eval-Outcome :
      (w : Word) (op : BinaryOperator) (e : BinaryEvaluator) (a b : DataValue f.Decimal)
      → binary_create (word_type w) op ≡ ok e
      → Cell w a
      → Cell w b
      → (n : NumericOp) × (numeric_op op ≡ some n) × Outcome w n (binary_eval f m e a b)
  binary_eval-Outcome w op e a b create h k =
      let (n, is_op, struct) =
        supported-ok (numeric_op op) (word_binary w) e
          (sym (binary_create-word_type w op) ∙ create) in
      (
        n,
        is_op,
        subst (λ e. Outcome w n (binary_eval f m e a b)) struct (eval-Outcome f m w n a b h k),
      )

  -- What `+`, `-` and `*` return for an exact result.
  abbrev Checked : Word → ℤ → Result (DataValue f.Decimal) → Type 0
  Checked w z r = (Holds w z × (r ≡ ok (word_value w z))) ⊎ (¬ Holds w z × (r ≡ err over_flow))

  -- The arms of the macro behind the two operands.
  to_signed-Checked :
      (t : Signed) (z : ℤ)
      → Checked
          (signed_word t)
          z
          (do r ← ok_or over_flow (to_signed (signed_half t) z); ok (signed_value t r))
  unfolding to_signed
  to_signed-Checked t (pos n) = elim (Bool-cases (ltb n (signed_half t))) [
    | inl small ↦ inl (ltb→lt n (signed_half t) small, rw small refl)
    | inr large ↦ inr (λ h. ground (arith, large, h), rw large refl)
  ]
  to_signed-Checked t (negsuc n) = elim (Bool-cases (ltb n (signed_half t))) [
    | inl small ↦ inl (ltb→lt n (signed_half t) small, rw small refl)
    | inr large ↦ inr (λ h. ground (arith, large, h), rw large refl)
  ]

  to_unsigned-Checked :
      (t : Unsigned) (z : ℤ)
      → Checked
          (unsigned_word t)
          z
          (do r ← ok_or over_flow (to_unsigned (unsigned_size t) z); ok (unsigned_value t r))
  unfolding to_unsigned
  to_unsigned-Checked t (pos n) = elim (Bool-cases (ltb n (unsigned_size t))) [
    | inl small ↦ inl (ltb→lt n (unsigned_size t) small, rw small refl)
    | inr large ↦ inr (λ h. ground (arith, large, h), rw large refl)
  ]
  to_unsigned-Checked t (negsuc n) = inr (λ h. h, refl)

  binary_eval-signed_value :
      (t : Signed) (op : NumericOp) (a b : ℤ)
      → binary_eval f m (word_binary (signed_word t) op) (signed_value t a) (signed_value t b)
        ≡ signed_run m.signed_quotient t op a b
  unfolding binary_eval null_strict
  binary_eval-signed_value t op a b =
      rw (signed_operand-signed_value f.Decimal t a, signed_operand-signed_value f.Decimal t b) refl

  binary_eval-unsigned_value :
      (t : Unsigned) (op : NumericOp) (a b : ℕ)
      → binary_eval f m (word_binary (unsigned_word t) op) (unsigned_value t a) (unsigned_value t b)
        ≡ unsigned_run m.unsigned_quotient t op a b
  unfolding binary_eval null_strict
  binary_eval-unsigned_value t op a b =
      rw
        (
          unsigned_operand-unsigned_value f.Decimal t a,
          unsigned_operand-unsigned_value f.Decimal t b,
        )
        refl

  -- The evaluator of an operation of the macro, on two numbers of the type.
  abbrev run_on : Word → NumericOp → ℤ → ℤ → Result (DataValue f.Decimal)
  run_on w op a b = binary_eval f m (word_binary w op) (word_value w a) (word_value w b)

  plus-Checked :
      (w : Word) (a b : ℤ) → Holds w a → Holds w b → Checked w (a +ℤ b) (run_on w plus a b)
  unfolding numeric_binary signed_arithmetic unsigned_arithmetic
  plus-Checked (signed_word t) a b h k =
      rw (binary_eval-signed_value t plus a b) (to_signed-Checked t (a +ℤ b))
  plus-Checked (unsigned_word t) (pos a) (pos b) h k =
      rw (binary_eval-unsigned_value t plus a b, (pos_exact a b).0)
        (to_unsigned-Checked t (pos (a + b)))
  plus-Checked (unsigned_word t) (pos a) (negsuc b) h k = elim k [ ]
  plus-Checked (unsigned_word t) (negsuc a) b h k = elim h [ ]

  minus-Checked :
      (w : Word) (a b : ℤ) → Holds w a → Holds w b → Checked w (a -ℤ b) (run_on w minus a b)
  unfolding numeric_binary signed_arithmetic unsigned_arithmetic
  minus-Checked (signed_word t) a b h k =
      rw (binary_eval-signed_value t minus a b) (to_signed-Checked t (a -ℤ b))
  minus-Checked (unsigned_word t) (pos a) (pos b) h k =
      rw (binary_eval-unsigned_value t minus a b, (pos_exact a b).1)
        (to_unsigned-Checked t (sub_ℕ a b))
  minus-Checked (unsigned_word t) (pos a) (negsuc b) h k = elim k [ ]
  minus-Checked (unsigned_word t) (negsuc a) b h k = elim h [ ]

  multiply-Checked :
      (w : Word) (a b : ℤ) → Holds w a → Holds w b → Checked w (a *ℤ b) (run_on w multiply a b)
  unfolding numeric_binary signed_arithmetic unsigned_arithmetic
  multiply-Checked (signed_word t) a b h k =
      rw (binary_eval-signed_value t multiply a b) (to_signed-Checked t (a *ℤ b))
  multiply-Checked (unsigned_word t) (pos a) (pos b) h k =
      rw (binary_eval-unsigned_value t multiply a b, (pos_exact a b).2)
        (to_unsigned-Checked t (pos (a * b)))
  multiply-Checked (unsigned_word t) (pos a) (negsuc b) h k = elim k [ ]
  multiply-Checked (unsigned_word t) (negsuc a) b h k = elim h [ ]

  carried :
      (w : Word) (op : BinaryOperator) (n : NumericOp) (e : BinaryEvaluator) (a b y z : ℤ)
      → numeric_op op ≡ some n
      → some y ≡ some z
      → binary_create (word_type w) op ≡ ok e
      → Checked w y (run_on w n a b)
      → Checked w z (binary_eval f m e (word_value w a) (word_value w b))
  carried w op n e a b y z is_op is_z create checked =
      let (n', is_n, struct) =
        supported-ok (numeric_op op) (word_binary w) e
          (sym (binary_create-word_type w op) ∙ create) in
      let same = ap (word_binary w) (some-injective (sym is_op ∙ is_n)) ∙ struct in
      subst (λ z. Checked w z (binary_eval f m e (word_value w a) (word_value w b)))
        (some-injective is_z)
        (subst (λ e. Checked w y (binary_eval f m e (word_value w a) (word_value w b))) same
          checked)

  -- The evaluator that the factory returns for `+`, `-` or `*` and a type of machine integers, on two
  -- numbers of the type: when the exact sum, difference or product is a number of the type, its value
  -- is what is returned; when it is not, the OverFlow error is.
  pub binary_eval-exact :
      (w : Word) (op : BinaryOperator) (e : BinaryEvaluator) (a b z : ℤ)
      → exact op a b ≡ some z
      → binary_create (word_type w) op ≡ ok e
      → Holds w a
      → Holds w b
      → (Holds w z × (binary_eval f m e (word_value w a) (word_value w b) ≡ ok (word_value w z)))
        ⊎ (¬ Holds w z × (binary_eval f m e (word_value w a) (word_value w b) ≡ err over_flow))
  unfolding exact numeric_op
  binary_eval-exact w plus_op e a b z is_z create h k =
      carried w plus_op plus e a b (a +ℤ b) z refl is_z create (plus-Checked w a b h k)
  binary_eval-exact w minus_op e a b z is_z create h k =
      carried w minus_op minus e a b (a -ℤ b) z refl is_z create (minus-Checked w a b h k)
  binary_eval-exact w multiply_op e a b z is_z create h k =
      carried w multiply_op multiply e a b (a *ℤ b) z refl is_z create (multiply-Checked w a b h k)
  binary_eval-exact w op e a b z is_z create h k = absurd (ground arith)
