-- ===== src/Types/Value/Cast/Text.antt =====
-- The decimal texts of Cast.antt: the rounds given to `digits` are enough.
use kite_sql.Prelude.{
  ℕ, zero, suc, ◌+◌, ◌*◌, ◌-◌, ◌/◌, ◌%◌, ◌<◌, List, [], ◌∷◌, ◌++◌, ◌≡◌, refl, arith,
}
use kite_sql.Types.Value.Cast.{digits}

-- The number that digits behind `n` make of it.
unfoldable pub read_digits : ℕ → List ℕ → ℕ
read_digits n [] = n
read_digits n (b ∷ bs) = read_digits (10 * n + (b - 48)) bs

read_digits-append :
    (n : ℕ) (xs ys : List ℕ) → read_digits n (xs ++ ys) ≡ read_digits (read_digits n xs) ys
unfolding read_digits
read_digits-append n [] ys = refl
read_digits-append n (x ∷ xs) ys = read_digits-append (10 * n + (x - 48)) xs ys

-- The digits of a number are read as that number.
pub read_digits-digits : (rounds n : ℕ) → n < rounds → read_digits 0 (digits rounds n) ≡ n
unfolding read_digits digits
read_digits-digits zero n h = ground arith
read_digits-digits (suc rounds) n h = ground (
  arith,
  read_digits-append 0 (digits rounds (n / 10)) ((48 + n % 10) ∷ []),
  read_digits-digits rounds (n / 10),
)
