-- ===== src/Types/Bytes.antt =====
-- Little-endian and big-endian words, and reading a prefix of a byte sequence: what the crate
-- `byteorder`, `to_le_bytes`/`to_be_bytes` and `std::io::Cursor` do for src/types and src/storage.
use kite_sql.Prelude.{
  ℕ, zero, suc, ◌+◌, ◌*◌, ◌/◌, ◌%◌, ◌<◌, ◌≡◌, refl, List, [], ◌∷◌, ◌++◌, arith, length, drop,
  Result, ok, err, DatabaseError, ◌>>=◌, ap,
}

-- The `n` low bytes of `x`, the lowest first.
unfoldable pub to_le_bytes : ℕ → ℕ → List ℕ
to_le_bytes zero x = []
to_le_bytes (suc n) x = x % 256 ∷ to_le_bytes n (x / 256)

unfoldable pub from_le_bytes : List ℕ → ℕ
from_le_bytes [] = 0
from_le_bytes (b ∷ bs) = b + 256 * from_le_bytes bs

-- The `n` low bytes of `x`, the highest first.
unfoldable pub to_be_bytes : ℕ → ℕ → List ℕ
to_be_bytes zero x = []
to_be_bytes (suc n) x = to_be_bytes n (x / 256) ++ (x % 256 ∷ [])

-- `read_exact`: exactly `n` bytes, or an error when fewer are left.
unfoldable pub read_exact : ℕ → List ℕ → Result (List ℕ × List ℕ)
read_exact zero bs = ok ([], bs)
read_exact (suc n) [] = err DatabaseError.io
read_exact (suc n) (b ∷ bs) = do (xs, rest) ← read_exact n bs; ok (b ∷ xs, rest)

-- `seek(SeekFrom::Current(n))`: past the end is no error; there is nothing left to read there.
abbrev pub seek : ℕ → List ℕ → List ℕ
seek = drop

unfoldable pub read_word : ℕ → List ℕ → Result (ℕ × List ℕ)
read_word n bs = do (xs, rest) ← read_exact n bs; ok (from_le_bytes xs, rest)

pub length-to_le_bytes : (n x : ℕ) → length (to_le_bytes n x) ≡ n
unfolding to_le_bytes
length-to_le_bytes zero x = refl
length-to_le_bytes (suc n) x = ap suc (length-to_le_bytes n (x / 256))

-- 256 ^ n, by a recursion that computes at a successor.
abbrev pub byte_range : ℕ → ℕ
byte_range zero = 1
byte_range (suc n) = 256 * byte_range n

pub from_le_bytes-to_le_bytes : (n x : ℕ) → x < byte_range n → from_le_bytes (to_le_bytes n x) ≡ x
unfolding to_le_bytes from_le_bytes
from_le_bytes-to_le_bytes zero x h = omega arith
from_le_bytes-to_le_bytes (suc n) x h =
    omega (arith, from_le_bytes-to_le_bytes n (x / 256) (omega arith))

pub read_exact-append : (xs rest : List ℕ) → read_exact (length xs) (xs ++ rest) ≡ ok (xs, rest)
unfolding read_exact
read_exact-append [] rest = refl
read_exact-append (x ∷ xs) rest = ground (arith, read_exact-append xs rest)

pub seek-append : (xs rest : List ℕ) → seek (length xs) (xs ++ rest) ≡ rest
seek-append [] rest = refl
seek-append (x ∷ xs) rest = seek-append xs rest

-- A word that was written is read back, and the reader stands behind it.
pub read_word-to_le_bytes :
    (n x : ℕ) (rest : List ℕ)
    → x < byte_range n
    → read_word n (to_le_bytes n x ++ rest) ≡ ok (x, rest)
unfolding read_word
read_word-to_le_bytes n x rest h = ground (
  arith,
  read_exact-append (to_le_bytes n x) rest,
  length-to_le_bytes n x,
  from_le_bytes-to_le_bytes n x h,
)
