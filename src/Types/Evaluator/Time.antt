-- ===== src/Types/Evaluator/Time.antt =====
-- src/types/evaluator/time32.rs, with `pack` and `unpack` of src/types/value.rs: a time of day is a
-- `u32` that holds its seconds below a fraction, whose scale the precision gives.
use Prim.Native.Nat.{Ordering, compare}
use kite_sql.Prelude.{
  ℕ, zero, suc, ◌+◌, ◌-◌, ◌*◌, ◌/◌, ◌%◌, ◌^◌, if◌then◌else◌, ltb, leb, Result, ok, panic, ◌>>=◌,
  Option, none, some, ◌==◌,
}
use mathlib.Core.Option
use kite_sql.Expression.Range.{then_with}
use kite_sql.Types.Value.{DataValue, null, time32}

abbrev pub one_sec_to_nano : ℕ
one_sec_to_nano = 1_000_000_000

abbrev pub one_day_to_sec : ℕ
one_day_to_sec = 86_400

unfoldable pub shift_of : ℕ → ℕ
shift_of precision =
    if precision == 1
    then 28
    else if precision == 2
    then 25
    else if precision == 3
    then 22
    else if precision == 4
    then 18
    else 31

-- `1000000000 / 10_u32.pow(precision)`: a power that overflows, or a zero divisor after it, panics.
unfoldable pub scale_of : ℕ → Result ℕ
scale_of precision = if leb precision 9 then ok (one_sec_to_nano / (10 ^ precision)) else panic

-- `(scaled_b << p) | a` drops the bits above 32; the seconds stand below the shift.
unfoldable pub pack : ℕ → ℕ → ℕ → Result ℕ
unfolding shift_of scale_of
pack a b precision =
    if leb b one_sec_to_nano
    then if leb a one_day_to_sec
      then (do
        scale ← scale_of precision
        ok ((b / scale) * (2 ^ shift_of precision) % (2 ^ 32) + a))
      else panic
    else panic

unfoldable pub unpack : ℕ → ℕ → Result (ℕ × ℕ)
unfolding shift_of scale_of
unpack combined precision = do
  scale ← scale_of precision
  ok (combined % (2 ^ shift_of precision), (combined / (2 ^ shift_of precision)) * scale)

-- The loop of `+`: nanoseconds above a second are carried. `none` is a loop that is not done. The
-- seconds are no `u32` here: `unpack` leaves fewer than 2^31, so that `v1 += 1` does not overflow.
unfoldable pub carry : ℕ → ℕ → ℕ → Option (ℕ × ℕ)
carry zero secs nanos = none
carry (suc rounds) secs nanos =
    let rest = carry rounds (secs + 1) (nanos - one_sec_to_nano) in
    if ltb one_sec_to_nano nanos then rest else some (secs, nanos)

-- The loop of `-`: a second is borrowed, and a second below zero is an overflow.
unfoldable pub borrow : ℕ → ℕ → ℕ → ℕ → Option (Result (ℕ × ℕ))
borrow zero secs nanos n2 = none
borrow (suc rounds) zero nanos n2 = if ltb nanos n2 then some panic else some (ok (zero, nanos))
borrow (suc rounds) (suc secs) nanos n2 =
    let rest = borrow rounds secs (nanos + one_sec_to_nano) n2 in
    if ltb nanos n2 then rest else some (ok (suc secs, nanos))

-- No loop takes more rounds on what `unpack` returns.
abbrev pub time_rounds : ℕ
time_rounds = 6

-- A loop that is not done has no result, which `finished` takes for a panic.
abbrev finished {a} : {A : Type a} → Option (Result A) → Result A
finished none = panic
finished (some r) = r

abbrev pub max_precision : ℕ → ℕ → ℕ
max_precision p1 p2 = if ltb p1 p2 then p2 else p1

unfoldable pub plus_time : {D : Type 0} → ℕ → ℕ → ℕ → ℕ → Result (DataValue D)
unfolding carry pack unpack
plus_time v1 p1 v2 p2 = do
  (s1, n1) ← unpack v1 p1
  (s2, n2) ← unpack v2 p2
  (s, n) ← finished (Option.map ok (carry time_rounds s1 (n1 + n2)))
  if ltb one_day_to_sec (s + s2) then ok null else (do
    packed ← pack (s + s2) n (max_precision p1 p2)
    ok (time32 packed (max_precision p1 p2)))

unfoldable pub minus_time : {D : Type 0} → ℕ → ℕ → ℕ → ℕ → Result (DataValue D)
unfolding borrow pack unpack
minus_time v1 p1 v2 p2 = do
  (s1, n1) ← unpack v1 p1
  (s2, n2) ← unpack v2 p2
  (s, n) ← finished (borrow time_rounds s1 n1 n2)
  if ltb s s2 then ok null else (do
    packed ← pack (s - s2) (n - n2) (max_precision p1 p2)
    ok (time32 packed (max_precision p1 p2)))

-- `cmp` of the seconds, `then_with` that of the nanoseconds.
unfoldable pub cmp_time : ℕ → ℕ → ℕ → ℕ → Result Ordering
unfolding unpack
cmp_time v1 p1 v2 p2 = do
  (s1, n1) ← unpack v1 p1
  (s2, n2) ← unpack v2 p2
  ok (then_with (compare s1 s2) (compare n1 n2))
