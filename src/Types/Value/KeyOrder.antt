-- ===== src/Types/Value/KeyOrder.antt =====
-- Keys are compared byte by byte: the order of the encoded values against the order of the values.
use Prim.Native.Nat.{Ordering, compare, bit_xor}
use kite_sql.Prelude.Bits.{half_range, bit_xor-half_range}
use kite_sql.Prelude.Int.{ℤ, pos, negsuc, to_bits, IsSigned, compare_ℤ}
use kite_sql.Prelude.{
  ℕ, zero, suc, ◌+◌, ◌-◌, ◌*◌, ◌/◌, ◌%◌, ◌≤◌, ◌<◌, ◌≡◌, refl, Bool, true, false, List, [], ◌∷◌,
  ◌++◌, some, sym, arith, leb, ltb, length, take, drop, replicate, length-append, ap, ◌∙◌, Result,
  ok,
}
use mathlib.Core.List.{append_assoc}
use kite_sql.Types.Bytes.{to_be_bytes, byte_range}
use kite_sql.Types.Value.{Foreign, compare_bytes, partial_cmp, DataValue}
use kite_sql.Types.Logical.{LogicalType}
use kite_sql.Types.Value.RoundTrip.{
  Fits, of_boolean, of_tinyint, of_u_tinyint, of_smallint, of_u_smallint, of_integer, of_u_integer,
  of_bigint, of_u_bigint, of_float, of_double, of_char_characters, of_char_octets, of_varchar,
  of_date, of_date_time, of_time, of_time_stamp, of_decimal,
}
use kite_sql.Types.Value.Memcomparable.{
  encode_bytes, encode_groups, realloc_bytes, group_count, memcomparable_encode,
}

-- A common first part does not count.
pub compare_bytes-append :
    (p xs ys : List ℕ) → compare_bytes (p ++ xs) (p ++ ys) ≡ compare_bytes xs ys
unfolding compare_bytes
compare_bytes-append [] xs ys = refl
compare_bytes-append (b ∷ p) xs ys = ground (arith, compare_bytes-append p xs ys)

abbrev pub then_compare : Ordering → Ordering → Ordering
then_compare Ordering.lt o = Ordering.lt
then_compare Ordering.eq o = o
then_compare Ordering.gt o = Ordering.gt

-- Of two sequences of one length the first parts decide, then the rest.
pub compare_bytes-append_lengths :
    (xs ys us vs : List ℕ)
    → length xs ≡ length ys
    → compare_bytes (xs ++ us) (ys ++ vs) ≡ then_compare (compare_bytes xs ys) (compare_bytes us vs)
unfolding compare_bytes
compare_bytes-append_lengths [] [] us vs h = refl
compare_bytes-append_lengths [] (y ∷ ys) us vs h = absurd (omega arith)
compare_bytes-append_lengths (x ∷ xs) [] us vs h = absurd (omega arith)
compare_bytes-append_lengths (x ∷ xs) (y ∷ ys) us vs h =
    ground (arith, compare_bytes-append_lengths xs ys us vs)

length-to_be_bytes : (n x y : ℕ) → length (to_be_bytes n x) ≡ length (to_be_bytes n y)
unfolding to_be_bytes
length-to_be_bytes zero x y = refl
length-to_be_bytes (suc n) x y = omega (
  arith,
  length-append (to_be_bytes n (x / 256)) (x % 256 ∷ []),
  length-append (to_be_bytes n (y / 256)) (y % 256 ∷ []),
  length-to_be_bytes n (x / 256) (y / 256),
)

-- The bytes of a word, highest first, are ordered as the words are.
compare_bytes-to_be_bytes :
    (n x y : ℕ)
    → x < byte_range n
    → y < byte_range n
    → compare_bytes (to_be_bytes n x) (to_be_bytes n y) ≡ compare x y
unfolding to_be_bytes compare_bytes
compare_bytes-to_be_bytes zero x y hx hy = ground arith
compare_bytes-to_be_bytes (suc n) x y hx hy = ground (
  arith,
  compare_bytes-append_lengths (to_be_bytes n (x / 256)) (to_be_bytes n (y / 256)) (x % 256 ∷ [])
      (y % 256 ∷ []) (length-to_be_bytes n (x / 256) (y / 256)),
  compare_bytes-to_be_bytes n (x / 256) (y / 256) (omega arith) (omega arith),
)

-- The key of a signed integer: its bits with the sign flipped.
flip_sign : ℕ → ℤ → ℕ
flip_sign k z = bit_xor (to_bits (half_range k) z) (half_range k)

flip_sign-lt : (k : ℕ) (z : ℤ) → IsSigned (half_range k) z → flip_sign k z < half_range k * 2
unfolding flip_sign to_bits
flip_sign-lt k (pos n) h = ground (arith, bit_xor-half_range k n)
flip_sign-lt k (negsuc n) h =
    ground (arith, bit_xor-half_range k (half_range k + half_range k - 1 - n))

compare-flip_sign :
    (k : ℕ) (y z : ℤ)
    → IsSigned (half_range k) y
    → IsSigned (half_range k) z
    → compare (flip_sign k y) (flip_sign k z) ≡ compare_ℤ y z
unfolding flip_sign to_bits compare_ℤ
compare-flip_sign k (pos m) (pos n) hy hz =
    ground (arith, bit_xor-half_range k m, bit_xor-half_range k n)
compare-flip_sign k (pos m) (negsuc n) hy hz =
    ground
      (arith, bit_xor-half_range k m, bit_xor-half_range k (half_range k + half_range k - 1 - n))
compare-flip_sign k (negsuc m) (pos n) hy hz =
    ground
      (arith, bit_xor-half_range k (half_range k + half_range k - 1 - m), bit_xor-half_range k n)
compare-flip_sign k (negsuc m) (negsuc n) hy hz = ground (
  arith,
  bit_xor-half_range k (half_range k + half_range k - 1 - m),
  bit_xor-half_range k (half_range k + half_range k - 1 - n),
)

-- The types whose values are stored as words in a key.
abbrev pub is_word : LogicalType → Bool
is_word LogicalType.tinyint = true
is_word LogicalType.u_tinyint = true
is_word LogicalType.smallint = true
is_word LogicalType.u_smallint = true
is_word LogicalType.integer = true
is_word LogicalType.u_integer = true
is_word LogicalType.bigint = true
is_word LogicalType.u_bigint = true
is_word LogicalType.date = true
is_word LogicalType.date_time = true
is_word (LogicalType.time p) = true
is_word (LogicalType.time_stamp p zone) = true
is_word _ = false

module _ (b : List ℕ) where
  unsigned_keys :
      (n x y : ℕ)
      → x < byte_range n
      → y < byte_range n
      → compare x y ≡ compare_bytes (b ++ to_be_bytes n x) (b ++ to_be_bytes n y)
  unsigned_keys n x y hx hy = sym (
      compare_bytes-append b (to_be_bytes n x) (to_be_bytes n y)
      ∙ compare_bytes-to_be_bytes n x y hx hy)

  signed_keys :
      (n k : ℕ) (y z : ℤ)
      → half_range k * 2 ≡ byte_range n
      → IsSigned (half_range k) y
      → IsSigned (half_range k) z
      → compare_ℤ y z
        ≡ compare_bytes
            (b ++ to_be_bytes n (bit_xor (to_bits (half_range k) y) (half_range k)))
            (b ++ to_be_bytes n (bit_xor (to_bits (half_range k) z) (half_range k)))
  unfolding flip_sign
  signed_keys n k y z e hy hz =
      sym (compare-flip_sign k y z hy hz)
      ∙ unsigned_keys n (flip_sign k y) (flip_sign k z) (omega (arith, flip_sign-lt k y hy))
          (omega (arith, flip_sign-lt k z hz))

module _ (f : Foreign) (serialize_decimal : f.Decimal → List ℕ → Result (List ℕ)) (b : List ℕ) where
  -- Two keys of one column, and how they compare.
  abbrev pub KeysOrdered : DataValue f.Decimal → DataValue f.Decimal → Type 0
  KeysOrdered x y =
      (kx : List ℕ) × (ky : List ℕ) × (memcomparable_encode serialize_decimal x b ≡ ok kx)
      × (memcomparable_encode serialize_decimal y b ≡ ok ky)
      × (partial_cmp f x y ≡ some (compare_bytes kx ky))

  -- Two values that fit a column of an integer, date or time type are written behind the same bytes
  -- so that the keys compare, byte by byte, as the values do.
  pub memcomparable_encode-partial_cmp :
      (ty : LogicalType) (x y : DataValue f.Decimal)
      → is_word ty ≡ true
      → Fits ty x
      → Fits ty y
      → KeysOrdered x y
  unfolding memcomparable_encode partial_cmp
  memcomparable_encode-partial_cmp ty x y w (of_tinyint u hu) (of_tinyint v hv) =
      (_, _, refl, refl, ap some (signed_keys b 1 7 u v refl hu hv))
  memcomparable_encode-partial_cmp ty x y w (of_u_tinyint u hu) (of_u_tinyint v hv) =
      (_, _, refl, refl, ap some (unsigned_keys b 1 u v hu hv))
  memcomparable_encode-partial_cmp ty x y w (of_smallint u hu) (of_smallint v hv) =
      (_, _, refl, refl, ap some (signed_keys b 2 15 u v refl hu hv))
  memcomparable_encode-partial_cmp ty x y w (of_u_smallint u hu) (of_u_smallint v hv) =
      (_, _, refl, refl, ap some (unsigned_keys b 2 u v hu hv))
  memcomparable_encode-partial_cmp ty x y w (of_integer u hu) (of_integer v hv) =
      (_, _, refl, refl, ap some (signed_keys b 4 31 u v refl hu hv))
  memcomparable_encode-partial_cmp ty x y w (of_u_integer u hu) (of_u_integer v hv) =
      (_, _, refl, refl, ap some (unsigned_keys b 4 u v hu hv))
  memcomparable_encode-partial_cmp ty x y w (of_bigint u hu) (of_bigint v hv) =
      (_, _, refl, refl, ap some (signed_keys b 8 63 u v refl hu hv))
  memcomparable_encode-partial_cmp ty x y w (of_u_bigint u hu) (of_u_bigint v hv) =
      (_, _, refl, refl, ap some (unsigned_keys b 8 u v hu hv))
  memcomparable_encode-partial_cmp ty x y w (of_date u hu) (of_date v hv) =
      (_, _, refl, refl, ap some (signed_keys b 4 31 u v refl hu hv))
  memcomparable_encode-partial_cmp ty x y w (of_date_time u hu) (of_date_time v hv) =
      (_, _, refl, refl, ap some (signed_keys b 8 63 u v refl hu hv))
  memcomparable_encode-partial_cmp ty x y w (of_time u p hu) (of_time v q hv) =
      (_, _, refl, refl, ap some (unsigned_keys b 4 u v hu hv))
  memcomparable_encode-partial_cmp ty x y w (of_time_stamp u p zone hu)
        (of_time_stamp v q zone' hv) =
      (_, _, refl, refl, ap some (signed_keys b 8 63 u v refl hu hv))
  memcomparable_encode-partial_cmp ty x y w (of_boolean u) hy = cc
  memcomparable_encode-partial_cmp ty x y w (of_float u hu) hy = cc
  memcomparable_encode-partial_cmp ty x y w (of_double u hu) hy = cc
  memcomparable_encode-partial_cmp ty x y w (of_char_characters u len p q r) hy = cc
  memcomparable_encode-partial_cmp ty x y w (of_char_octets u len p q r) hy = cc
  memcomparable_encode-partial_cmp ty x y w (of_varchar u len unit p q) hy = cc
  memcomparable_encode-partial_cmp ty x y w (of_decimal d p s) hy = cc

padding-suc :
    (b r : List ℕ) (n : ℕ)
    → 0 < n
    → (b ++ replicate n 0) ++ r ≡ b ++ (0 ∷ (replicate (n - 1) 0 ++ r))
padding-suc b r zero h = absurd (omega arith)
padding-suc b r (suc n) h =
    let e : suc n - 1 ≡ n = omega arith in rw e (append_assoc b (0 ∷ replicate n 0) r)

-- A buffer that `encode_bytes` must lengthen gets zeros before the text.
encode_bytes_padded :
    (b d : List ℕ)
    → length b < group_count d * 9
    → (rest : List ℕ) × (encode_bytes b d ≡ b ++ (0 ∷ rest))
unfolding encode_bytes realloc_bytes
encode_bytes_padded b d h =
    let t : ltb (length b) (group_count d * 9) ≡ true = ground arith in
    (
      replicate (group_count d * 9 - length b - 1) 0 ++ encode_groups (group_count d) d,
      rw t (
          padding-suc b (encode_groups (group_count d) d) (group_count d * 9 - length b)
            (omega arith)),
    )

encode_groups-first :
    (n c : ℕ) (d : List ℕ) → (rest : List ℕ) × (encode_groups (suc n) (c ∷ d) ≡ c ∷ rest)
unfolding encode_groups
encode_groups-first n c d =
    elim (leb 8 (length (c ∷ d)))
      as (λ t.
        (rest : List ℕ) × (elim t [
          | true ↦ take 8 (c ∷ d) ++ (255 ∷ encode_groups n (drop 8 (c ∷ d)))
          | false ↦
              (c ∷ d) ++ (replicate (8 - length (c ∷ d)) 0 ++ ((255 - (8 - length (c ∷ d))) ∷ []))
        ]
          ≡ c ∷ rest)) [ true ↦ (_, refl) | false ↦ (_, refl) ]

-- A buffer that is long enough is followed by the first byte of the text.
encode_bytes_direct :
    (b d : List ℕ) (c : ℕ)
    → group_count (c ∷ d) * 9 ≤ length b
    → (rest : List ℕ) × (encode_bytes b (c ∷ d) ≡ b ++ (c ∷ rest))
unfolding encode_bytes realloc_bytes
encode_bytes_direct b d c h =
    let t : ltb (length b) (group_count (c ∷ d) * 9) ≡ false = ground arith in
    let g : group_count (c ∷ d) ≡ suc (length (c ∷ d) / 8) = omega arith in
    let (rest, e) = encode_groups-first (length (c ∷ d) / 8) c d in (rest, rw (t, g, e))

-- A text in a buffer that is too short for it sorts before every text whose first byte is not zero
-- and that the buffer is long enough for, whatever the two texts are.
pub compare_bytes-encode_bytes_short :
    (b long short : List ℕ) (c : ℕ)
    → length b < group_count long * 9
    → group_count (c ∷ short) * 9 ≤ length b
    → 0 < c
    → compare_bytes (encode_bytes b long) (encode_bytes b (c ∷ short)) ≡ Ordering.lt
unfolding compare_bytes
compare_bytes-encode_bytes_short b long short c h k positive =
    let (u, p) = encode_bytes_padded b long h in
    let (v, q) = encode_bytes_direct b short c k in
    let less : compare_bytes (0 ∷ u) (c ∷ v) ≡ Ordering.lt = ground arith in
    rw (p, q, compare_bytes-append b (0 ∷ u) (c ∷ v), less)
