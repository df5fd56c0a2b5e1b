-- ===== src/Prelude/Bits.antt =====
-- Exclusive or with one bit: flipping the highest bit of a word is adding half of its range.
use Prim.Native.Nat.{
  ℕ, zero, suc, ◌+◌, ◌-◌, ◌*◌, ◌/◌, ◌%◌, ◌≤◌, ◌<◌, bit_xor, digits, differ, bit_xor-bitwise,
}
use mathlib.Core.Path.{◌≡◌, refl, ◌∙◌}
use native.Mathlib.Omega.{arith}
use native.Mathlib.Decide.{dec_lt}
use kite_sql.Prelude.Tests.{ltb, if◌then◌else◌}

abbrev xor_digits : ℕ → ℕ → ℕ → ℕ
xor_digits fuel x y = digits (λ rest. rest) differ fuel x y

-- One more round changes nothing once there are as many as the number.
extra_round : (fuel y x : ℕ) → x ≤ fuel → xor_digits (suc fuel) x y ≡ xor_digits fuel x y
extra_round zero y zero h = refl
extra_round (suc n) y zero h = refl
extra_round zero y (suc x) h = absurd (omega arith)
extra_round (suc n) y (suc x) h = omega (arith, extra_round n (y / 2) (suc x / 2) (omega arith))

zero_only : (x : ℕ) → x ≤ 0 → x ≡ 0
zero_only x h = omega arith

the_next : (n x : ℕ) → n < x → x ≤ suc n → x ≡ suc n
the_next n x p q = omega arith

enough_rounds : (fuel y x : ℕ) → x ≤ fuel → xor_digits fuel x y ≡ xor_digits x x y
enough_rounds zero y x h = rw (zero_only x h) refl
enough_rounds (suc n) y x h = elim (dec_lt n x) [
  | yes p ↦ rw (the_next n x p h) refl
  | no p ↦ extra_round n y x (omega arith) ∙ enough_rounds n y x (omega arith)
]

zero-bit_xor : (b : ℕ) → bit_xor 0 b ≡ b
zero-bit_xor b = bit_xor-bitwise 0 b

bit_xor-suc :
    (a b : ℕ) → bit_xor (suc a) b ≡ bit_xor (suc a / 2) (b / 2) * 2 + differ (suc a % 2) (b % 2)
bit_xor-suc a b =
    let whole = bit_xor-bitwise (suc a) b in
    let half = bit_xor-bitwise (suc a / 2) (b / 2) in
    let rounds = enough_rounds a (b / 2) (suc a / 2) (omega arith) in
    omega (arith, whole, half, rounds)

differ-zero : (r : ℕ) → differ r 0 ≡ r
differ-zero zero = refl
differ-zero (suc r) = refl

bit_xor-double : (a m : ℕ) → bit_xor a (m * 2) ≡ bit_xor (a / 2) m * 2 + a % 2
bit_xor-double zero m = omega (arith, zero-bit_xor (m * 2), zero-bit_xor m)
bit_xor-double (suc a) m =
    let e : m * 2 / 2 ≡ m = omega arith in
    let z : m * 2 % 2 ≡ 0 = omega arith in rw (e, z, differ-zero) at (bit_xor-suc a (m * 2))

-- 2 ^ k, by a recursion that computes at a successor.
abbrev pub half_range : ℕ → ℕ
half_range zero = 1
half_range (suc k) = half_range k * 2

-- The highest of `k + 1` bits is flipped by `bit_xor` with `2 ^ k`.
pub bit_xor-half_range :
    (k a : ℕ)
    → a < half_range k * 2
    → bit_xor a (half_range k)
      ≡ (if ltb a (half_range k) then a + half_range k else a - half_range k)
bit_xor-half_range zero zero h = refl
bit_xor-half_range zero (suc zero) h = refl
bit_xor-half_range zero (suc (suc a)) h = absurd (omega arith)
bit_xor-half_range (suc k) a h =
    let shorter = bit_xor-half_range k (a / 2) (omega arith) in
    let longer = bit_xor-double a (half_range k) in
    elim (dec_lt (a / 2) (half_range k)) [
      | yes p ↦ ground (arith, longer, shorter)
      | no p ↦ ground (arith, longer, shorter)
    ]
