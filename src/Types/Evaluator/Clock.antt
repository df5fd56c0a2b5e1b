-- ===== src/Types/Evaluator/Clock.antt =====
-- The times of day of src/types/evaluator/time32.rs: the loops of `+` and `-` end, and `pack` is read
-- back by `unpack`.
use kite_sql.Prelude.{
  ℕ, zero, suc, ◌+◌, ◌-◌, ◌*◌, ◌/◌, ◌%◌, ◌^◌, ◌≤◌, ◌<◌, ◌≡◌, refl, some, Result, ok, panic, ◌>>=◌,
  ltb, arith, inl, inr, Bool-cases, ltb→lt,
}
use kite_sql.Types.Evaluator.Time.{
  one_sec_to_nano, one_day_to_sec, carry, borrow, time_rounds, pack, unpack, shift_of, scale_of,
}

carry-suc :
    (rounds secs nanos : ℕ)
    → nanos ≤ one_sec_to_nano * suc rounds
    → (s : ℕ) × (n : ℕ) × (carry (suc rounds) secs nanos ≡ some (s, n))
      × (n ≤ one_sec_to_nano)
      × (s * one_sec_to_nano + n ≡ secs * one_sec_to_nano + nanos)
unfolding carry
carry-suc zero secs nanos h = (secs, nanos, ground arith, omega arith, refl)
carry-suc (suc rounds) secs nanos h = elim (Bool-cases (ltb one_sec_to_nano nanos)) [
  | inr small ↦ (secs, nanos, rw small refl, ground arith, refl)
  | inl large ↦
      let more = ltb→lt one_sec_to_nano nanos large in
      let (s, n, run, le, total) =
        carry-suc rounds (secs + 1) (nanos - one_sec_to_nano) (omega arith) in
      (s, n, rw (large, run) refl, le, omega arith)
]

-- The loop that carries the nanoseconds of a sum, on any `u32`, ends within six rounds, with at
-- most a second of nanoseconds left and the same total.
pub carry-time_rounds :
    (secs nanos : ℕ)
    → nanos < 2 ^ 32
    → (s : ℕ) × (n : ℕ) × (carry time_rounds secs nanos ≡ some (s, n))
      × (n ≤ one_sec_to_nano)
      × (s * one_sec_to_nano + n ≡ secs * one_sec_to_nano + nanos)
carry-time_rounds secs nanos h = carry-suc 5 secs nanos (omega arith)

-- On a precision of at most four digits, a time of day is read back with its nanoseconds cut to the
-- precision.
pub unpack-pack :
    (a b precision : ℕ)
    → a ≤ one_day_to_sec
    → b ≤ one_sec_to_nano
    → precision ≤ 4
    → (do packed ← pack a b precision; unpack packed precision)
      ≡ ok (a, b - b % (one_sec_to_nano / (10 ^ precision)))
unfolding pack unpack shift_of scale_of
unpack-pack a b zero ha hb hp = ground arith
unpack-pack a b (suc zero) ha hb hp = ground arith
unpack-pack a b (suc (suc zero)) ha hb hp = ground arith
unpack-pack a b (suc (suc (suc zero))) ha hb hp = ground arith
unpack-pack a b (suc (suc (suc (suc zero)))) ha hb hp = ground arith
unpack-pack a b (suc (suc (suc (suc (suc n))))) ha hb hp = ground arith

borrow-suc :
    (rounds secs nanos n2 : ℕ)
    → n2 ≤ nanos + one_sec_to_nano * rounds
    → (r : Result (ℕ × ℕ)) × (borrow (suc rounds) secs nanos n2 ≡ some r)
unfolding borrow
borrow-suc rounds zero nanos n2 h = elim (Bool-cases (ltb nanos n2)) [
  | inl less ↦ (panic, rw less refl)
  | inr enough ↦ (ok (zero, nanos), rw enough refl)
]
borrow-suc zero (suc secs) nanos n2 h = (ok (suc secs, nanos), ground arith)
borrow-suc (suc rounds) (suc secs) nanos n2 h = elim (Bool-cases (ltb nanos n2)) [
  | inr enough ↦ (ok (suc secs, nanos), rw enough refl)
  | inl less ↦
      let (r, run) = borrow-suc rounds secs (nanos + one_sec_to_nano) n2 (omega arith) in
      (r, rw (less, run) refl)
]

-- The loop that borrows seconds ends within six rounds on any `u32` of nanoseconds.
pub borrow-time_rounds :
    (secs nanos n2 : ℕ)
    → n2 < 2 ^ 32
    → (r : Result (ℕ × ℕ)) × (borrow time_rounds secs nanos n2 ≡ some r)
borrow-time_rounds secs nanos n2 h = borrow-suc 5 secs nanos n2 (omega arith)
