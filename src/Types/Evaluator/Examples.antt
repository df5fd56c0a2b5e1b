-- ===== src/Types/Evaluator/Examples.antt =====
-- Runs of the evaluators, and the theorems on them at concrete inputs.
use Prim.Native.Nat.{Ordering, compare}
use kite_sql.Prelude.{
  ℕ, ◌⊎◌, ◌≡◌, refl, Bool, true, false, some, ok, err, panic, ◌≤◌, ◌-◌, ◌%◌, ◌/◌, ◌^◌, ◌*◌, ◌+◌,
  ◌>>=◌, over_flow, arith,
}
use kite_sql.Prelude.Int.{ℤ, pos, ◌+ℤ◌, IsSigned}
use kite_sql.Types.Value.{DataValue, null, boolean, int8, time32, tuple, nil, is_equal}
use kite_sql.Expression.Range.{gt_op, lt_op, plus_op, scope, excluded, unbounded, scans}
use kite_sql.Expression.Range.Column.{values}
use kite_sql.Expression.Range.Detach.{new_range, range_of, flip_op}
use kite_sql.Types.Examples.{two_decimals}
use kite_sql.Types.Evaluator.Clock.{carry-time_rounds, unpack-pack}
use kite_sql.Types.Evaluator.Numeric.{
  Arithmetic, NumericOp, gt, lt, equal, plus, comparison, int8_type, signed_value, signed_half,
  to_signed, signed_arithmetic, numeric_binary, null_strict, signed_operand,
}
use kite_sql.Types.Evaluator.Time.{
  plus_time, minus_time, cmp_time, pack, unpack, carry, borrow, shift_of, scale_of, one_sec_to_nano,
  time_rounds,
}
use kite_sql.Types.Evaluator.Machine.{Machine}
use kite_sql.Types.Evaluator.Eval.{binary_eval, tuple_eval}
use kite_sql.Types.Evaluator.{
  binary_create, numeric_op, numeric_binary_evaluator, signed_binary, tuple_binary, comparison_of,
}
use kite_sql.Types.Evaluator.Soundness.{Word, signed_word, word_type, Cell, signed_cell, Outcome}
use kite_sql.Types.Evaluator.Words.{binary_eval-Outcome, binary_eval-exact, Holds, exact}
use kite_sql.Types.Evaluator.Kleene.{
  boolean-Kleene, least, greatest, complement, cell_of, no, unknown, and_of, or_of, not_of,
}
use kite_sql.Types.Evaluator.Filter.{binary_eval-scans, binary_eval-scans_flipped}

-- A machine whose floats count and whose clock stands still.
abbrev counting : {N : Type 0} → N → (N → N → Ordering) → Arithmetic N
counting z order = record {
  add = λ a b. ok z;
  sub = λ a b. ok z;
  mul = λ a b. ok z;
  rem = λ a b. ok z;
  cmp = order;
  eq = λ a b. is_equal (order a b);
}

abbrev pub a_machine : Machine Bool
a_machine = record {
  float32_arithmetic = counting 0 compare;
  float64_arithmetic = counting 0 compare;
  decimal_arithmetic = counting true (λ a b. Ordering.eq);
  signed_quotient = λ a b. 0;
  unsigned_quotient = λ a b. 0;
  float32_quotient = λ a b. 0;
  float64_quotient = λ a b. 0;
  decimal_quotient = λ a b. ok a;
  float32_neg = λ a. a;
  float64_neg = λ a. a;
  Instant = ℤ;
  from_timestamp = λ z n. some z;
  from_timestamp_millis = λ z. some z;
  from_timestamp_micros = λ z. some z;
  timestamp = λ z. z;
  timestamp_millis = λ z. z;
  timestamp_micros = λ z. z;
  timestamp_nanos_opt = λ z. some z;
  chars = λ v. v;
  is_match = λ r v. ok true;
}

abbrev tinyint_word : Word
tinyint_word = signed_word int8_type

a_tinyint : (z : ℤ) → IsSigned 128 z → Cell {D = Bool} tinyint_word (int8 z)
unfolding signed_value signed_half
a_tinyint z h = signed_cell int8_type z h

tinyint_plus : binary_create (word_type tinyint_word) plus_op ≡ ok (signed_binary int8_type plus)
unfolding binary_create numeric_binary_evaluator numeric_op
tinyint_plus = refl

-- 100 + 100 on a tinyint
binary_eval-Outcome_example :
    (n : NumericOp) × (numeric_op plus_op ≡ some n)
    × Outcome tinyint_word n (
        binary_eval two_decimals a_machine
          (signed_binary int8_type plus)
          (int8 (pos 100))
          (int8 (pos 100)))
binary_eval-Outcome_example =
    binary_eval-Outcome two_decimals a_machine tinyint_word plus_op (signed_binary int8_type plus)
      (int8 (pos 100)) (int8 (pos 100)) tinyint_plus (a_tinyint (pos 100) (omega arith))
      (a_tinyint (pos 100) (omega arith))

overflow_example :
    binary_eval two_decimals a_machine
      (signed_binary int8_type plus)
      (int8 (pos 100))
      (int8 (pos 100))
    ≡ err over_flow
unfolding binary_eval null_strict signed_operand numeric_binary signed_arithmetic signed_half
    to_signed ◌+ℤ◌
overflow_example = refl

-- 100 + 100 on a tinyint
binary_eval-exact_example :
    (Holds tinyint_word (pos 200)
      × (binary_eval two_decimals a_machine
            (signed_binary int8_type plus)
            (int8 (pos 100))
            (int8 (pos 100))
          ≡ ok (int8 (pos 200))))
    ⊎ (¬ Holds tinyint_word (pos 200)
        × (binary_eval two_decimals a_machine
              (signed_binary int8_type plus)
              (int8 (pos 100))
              (int8 (pos 100))
            ≡ err over_flow))
unfolding exact ◌+ℤ◌ signed_value signed_half
binary_eval-exact_example =
    binary_eval-exact two_decimals a_machine tinyint_word plus_op (signed_binary int8_type plus)
      (pos 100) (pos 100) (pos 200) refl tinyint_plus (omega arith) (omega arith)

boolean-Kleene_example :
    (and_of two_decimals a_machine (cell_of unknown) (cell_of no) ≡ ok (cell_of (least unknown no)))
    × (or_of two_decimals a_machine (cell_of unknown) (cell_of no)
        ≡ ok (cell_of (greatest unknown no)))
    × (not_of two_decimals a_machine (cell_of unknown) ≡ ok (cell_of (complement unknown)))
boolean-Kleene_example = boolean-Kleene two_decimals a_machine unknown no

-- c > 5 at 7, and 5 < c at 7
detached_example :
    new_range {V = DataValue Bool} true (λ x. true) ok gt_op (signed_value int8_type (pos 5)) false
    ≡ ok (some (scope (excluded (signed_value int8_type (pos 5))) unbounded))
unfolding new_range range_of
detached_example = refl

detached_flipped_example :
    new_range {V = DataValue Bool} true (λ x. true) ok lt_op (signed_value int8_type (pos 5)) true
    ≡ ok (some (scope (excluded (signed_value int8_type (pos 5))) unbounded))
unfolding new_range range_of flip_op
detached_flipped_example = refl

gt_example : comparison_of gt_op ≡ some gt
unfolding comparison_of
gt_example = refl

lt_example : comparison_of lt_op ≡ some lt
unfolding comparison_of
lt_example = refl

binary_eval-scans_example :
    binary_eval two_decimals a_machine
      (signed_binary int8_type (comparison gt))
      (signed_value int8_type (pos 7))
      (signed_value int8_type (pos 5))
    ≡ ok (
        boolean (
          scans
            (values two_decimals)
            (scope (excluded (signed_value int8_type (pos 5))) unbounded)
            (signed_value int8_type (pos 7))))
binary_eval-scans_example =
    binary_eval-scans two_decimals a_machine int8_type gt_op gt
      (scope (excluded (signed_value int8_type (pos 5))) unbounded) ok (pos 7) (pos 5) gt_example
      detached_example

binary_eval-scans_flipped_example :
    binary_eval two_decimals a_machine
      (signed_binary int8_type (comparison lt))
      (signed_value int8_type (pos 5))
      (signed_value int8_type (pos 7))
    ≡ ok (
        boolean (
          scans
            (values two_decimals)
            (scope (excluded (signed_value int8_type (pos 5))) unbounded)
            (signed_value int8_type (pos 7))))
binary_eval-scans_flipped_example =
    binary_eval-scans_flipped two_decimals a_machine int8_type lt_op lt
      (scope (excluded (signed_value int8_type (pos 5))) unbounded) ok (pos 7) (pos 5) lt_example
      detached_flipped_example

-- 0.9 s and 0.9 s
carry-time_rounds_example :
    (s : ℕ) × (n : ℕ) × (carry time_rounds 0 1_800_000_000 ≡ some (s, n))
    × (n ≤ one_sec_to_nano)
    × (s * one_sec_to_nano + n ≡ 0 * one_sec_to_nano + 1_800_000_000)
carry-time_rounds_example = carry-time_rounds 0 1_800_000_000 (omega arith)

unpack-pack_example :
    (do packed ← pack 3600 123_456_789 3; unpack packed 3)
    ≡ ok (3600, 123_456_789 - 123_456_789 % (one_sec_to_nano / (10 ^ 3)))
unpack-pack_example = unpack-pack 3600 123_456_789 3 (omega arith) (omega arith) (omega arith)

-- 00:00:00.1 less 00:00:00.2 borrows from a second that is not there.
borrow_from_zero : minus_time {D = Bool} (2 ^ 28) 1 (2 * 2 ^ 28) 1 ≡ panic
unfolding minus_time unpack borrow shift_of scale_of
borrow_from_zero = refl

-- 0.5 s and 0.5 s are 0 s and ten tenths, which is below one second.
not_carried : plus_time {D = Bool} (5 * 2 ^ 28) 1 (5 * 2 ^ 28) 1 ≡ ok (time32 (10 * 2 ^ 28) 1)
unfolding plus_time unpack carry pack shift_of scale_of
not_carried = refl

tenths_below_second : cmp_time (10 * 2 ^ 28) 1 1 1 ≡ ok Ordering.lt
unfolding cmp_time unpack shift_of scale_of
tenths_below_second = refl

-- NULL against a tuple reaches the arm that is declared unreachable.
null_tuple : binary_eval two_decimals a_machine (tuple_binary equal) null (tuple nil false) ≡ panic
unfolding binary_eval tuple_eval
null_tuple = refl
