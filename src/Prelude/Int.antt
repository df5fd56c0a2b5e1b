-- ===== src/Prelude/Int.antt =====
-- Signed machine integers: their value as an integer, their bit pattern, and their order.
use Prim.Native.Nat.{ℕ, suc, ◌+◌, ◌-◌, ◌*◌, ◌<◌, compare, Ordering}
use mathlib.Core.Path.{◌≡◌}
use native.Mathlib.Omega.{arith}
use kite_sql.Prelude.Tests.{ltb, leb, if◌then◌else◌}

-- `negsuc n` is -(n + 1).
pub data ℤ : Type 0 where
  pos : ℕ → ℤ
  negsuc : ℕ → ℤ

-- The integers of a signed type with `half` non-negative values: -half ≤ z < half.
abbrev pub IsSigned : ℕ → ℤ → Type 0
IsSigned half (pos n) = n < half
IsSigned half (negsuc n) = n < half

-- `z as u8` and the like: the two's complement pattern of a type with `2 * half` values.
unfoldable pub to_bits : ℕ → ℤ → ℕ
to_bits half (pos n) = n
to_bits half (negsuc n) = half + half - 1 - n

unfoldable pub from_bits : ℕ → ℕ → ℤ
from_bits half b = if ltb b half then pos b else negsuc (half + half - 1 - b)

unfoldable pub compare_ℤ : ℤ → ℤ → Ordering
compare_ℤ (pos a) (pos b) = compare a b
compare_ℤ (pos a) (negsuc b) = Ordering.gt
compare_ℤ (negsuc a) (pos b) = Ordering.lt
compare_ℤ (negsuc a) (negsuc b) = compare b a

pub to_bits-lt : (half : ℕ) (z : ℤ) → IsSigned half z → to_bits half z < half + half
unfolding to_bits
to_bits-lt half (pos n) h = omega arith
to_bits-lt half (negsuc n) h = omega arith

pub from_bits-to_bits : (half : ℕ) (z : ℤ) → IsSigned half z → from_bits half (to_bits half z) ≡ z
unfolding to_bits from_bits
from_bits-to_bits half (pos n) h = ground arith
from_bits-to_bits half (negsuc n) h = ground arith

-- Sums and products go through the two parts of an integer, which are numbers that `omega` reads.
abbrev pub pos_part : ℤ → ℕ
pos_part (pos n) = n
pos_part (negsuc n) = 0

abbrev pub neg_part : ℤ → ℕ
neg_part (pos n) = 0
neg_part (negsuc n) = suc n

-- a - b, as an integer.
abbrev pub sub_ℕ : ℕ → ℕ → ℤ
sub_ℕ a b = if leb b a then pos (a - b) else negsuc (b - a - 1)

infixl 65 ◌+ℤ◌ ◌-ℤ◌
infixl 70 ◌*ℤ◌
unfoldable pub ◌+ℤ◌ : ℤ → ℤ → ℤ
a +ℤ b = sub_ℕ (pos_part a + pos_part b) (neg_part a + neg_part b)

unfoldable pub ◌-ℤ◌ : ℤ → ℤ → ℤ
a -ℤ b = sub_ℕ (pos_part a + neg_part b) (neg_part a + pos_part b)

unfoldable pub ◌*ℤ◌ : ℤ → ℤ → ℤ
a *ℤ b =
    sub_ℕ (pos_part a * pos_part b + neg_part a * neg_part b)
      (pos_part a * neg_part b + neg_part a * pos_part b)
