-- ===== src/Storage/TableCodec/Lookup.antt =====
-- Lookups by key in src/storage: the order of the row keys, and the range of an equality on an index.
use Prim.Native.Nat.{Ordering, bit_xor}
use kite_sql.Prelude.Bits.{bit_xor-half_range}
use kite_sql.Prelude.Int.{ℤ, pos, negsuc, to_bits, compare_ℤ, IsSigned}
use kite_sql.Prelude.{
  if◌then◌else◌, ℕ, ◌+◌, ◌-◌, ◌≤◌, ◌<◌, ◌≡◌, refl, sym, ap, ◌∙◌, ◌↔◌, Bool, true, false, some, List,
  [], ◌∷◌, ◌++◌, arith, length, length-append, Result, ok, err, panic, ◌>>=◌,
}
use mathlib.Core.List.{append-nil}
use kite_sql.Types.Logical.{LogicalType, CharLengthUnits}
use kite_sql.Types.Bytes.{to_be_bytes, length-to_le_bytes}
use kite_sql.Types.Value.{Foreign, DataValue, Utf8Type, compare_bytes, partial_cmp, int32, utf8}
use kite_sql.Types.Value.Raw.{half32}
use kite_sql.Types.Value.RoundTrip.{
  Fits, of_boolean, of_tinyint, of_u_tinyint, of_smallint, of_u_smallint, of_integer, of_u_integer,
  of_bigint, of_u_bigint, of_float, of_double, of_char_characters, of_char_octets, of_varchar,
  of_date, of_date_time, of_time, of_time_stamp, of_decimal,
}
use kite_sql.Types.Value.Memcomparable.{memcomparable_encode, encode_bytes}
use kite_sql.Types.Value.KeyOrder.{
  is_word, memcomparable_encode-partial_cmp, compare_bytes-encode_bytes_short,
}
use kite_sql.Storage.TableCodec.{
  CodecType, Index, hash_bytes, key_prefix, check_primary_key, check_primary_key_type,
  encode_tuple_key, encode_index_key, encode_index_bound_key, eq_to_res_range, index_prefix,
  has_tuple_id,
}
use kite_sql.Storage.TableCodec.Bounds.{in_range, in_range-append}

module _ {D : Type 0} where
  -- A value of a type that is allowed in a key passes the check.
  check_primary_key-Fits :
      (ty : LogicalType) (v : DataValue D)
      → is_word ty ≡ true
      → check_primary_key_type ty ≡ ok tt
      → Fits ty v
      → check_primary_key v 0 ≡ ok tt
  unfolding check_primary_key
  check_primary_key-Fits ty v w k (of_tinyint u h) = refl
  check_primary_key-Fits ty v w k (of_u_tinyint u h) = refl
  check_primary_key-Fits ty v w k (of_smallint u h) = refl
  check_primary_key-Fits ty v w k (of_u_smallint u h) = refl
  check_primary_key-Fits ty v w k (of_integer u h) = refl
  check_primary_key-Fits ty v w k (of_u_integer u h) = refl
  check_primary_key-Fits ty v w k (of_bigint u h) = refl
  check_primary_key-Fits ty v w k (of_u_bigint u h) = refl
  check_primary_key-Fits ty v w k (of_boolean u) = cc
  check_primary_key-Fits ty v w k (of_float u h) = cc
  check_primary_key-Fits ty v w k (of_double u h) = cc
  check_primary_key-Fits ty v w k (of_char_characters u len p q r) = cc
  check_primary_key-Fits ty v w k (of_char_octets u len p q r) = cc
  check_primary_key-Fits ty v w k (of_varchar u len unit p q) = cc
  check_primary_key-Fits ty v w k (of_date u h) = cc
  check_primary_key-Fits ty v w k (of_date_time u h) = cc
  check_primary_key-Fits ty v w k (of_time u p h) = cc
  check_primary_key-Fits ty v w k (of_time_stamp u p zone h) = cc
  check_primary_key-Fits ty v w k (of_decimal d p s) = cc

check_primary_key-utf8 :
    (D : Type 0) (v : List ℕ) (ty : Utf8Type) (unit : CharLengthUnits)
    → check_primary_key {D = D} (utf8 v ty unit) 0 ≡ ok tt
unfolding check_primary_key
check_primary_key-utf8 D v (Utf8Type.variable len) unit = refl
check_primary_key-utf8 D v (Utf8Type.fixed len) unit = refl

-- The four bytes of a word are no more than the byte 255 alone when the first is less.
in_range-to_be_bytes :
    (x : ℕ)
    → x < 0x1_0000_0000
    → (in_range ([], 255 ∷ []) (to_be_bytes 4 x) ≡ true) ↔ (x < 0xFF00_0000)
unfolding in_range compare_bytes to_be_bytes
in_range-to_be_bytes x h = ground arith

flipped-lt :
    (z : ℤ)
    → IsSigned half32 z
    → (bit_xor (to_bits half32 z) half32 < 0x1_0000_0000)
      × ((bit_xor (to_bits half32 z) half32 < 0xFF00_0000)
          ↔ (compare_ℤ z (pos 0x7F00_0000) ≡ Ordering.lt))
unfolding to_bits compare_ℤ
flipped-lt (pos n) h = ground (arith, bit_xor-half_range 31 n)
flipped-lt (negsuc n) h = ground (arith, bit_xor-half_range 31 (half32 + half32 - 1 - n))

ok-pair : {a b : List ℕ × List ℕ} → ok a ≡ ok b → a ≡ b
ok-pair h = cc

-- The key and the two bounds are written behind what one encoding writes.
written_behind :
    (w : Result (List ℕ)) (t : Bool) (bytes key : List ℕ) (bound : List ℕ × List ℕ)
    → t ≡ true
    → ((w >>= λ k. ok k) >>= λ k. if t then ok (k ++ bytes) else ok k) ≡ ok key
    → ((w >>= λ k. ok k) >>= λ min. (w >>= λ k. ok (k ++ (255 ∷ []))) >>= λ max. ok (min, max))
      ≡ ok bound
    → (m : List ℕ) × (key ≡ m ++ bytes) × (bound ≡ (m ++ [], m ++ (255 ∷ [])))
written_behind (ok m) true bytes key bound t p q =
    (m, cc, sym (ok-pair q) ∙ ap (λ x. (x, m ++ (255 ∷ []))) (sym (append-nil m)))
written_behind (ok m) false bytes key bound t p q = cc
written_behind (err e) t bytes key bound h p q = cc
written_behind panic t bytes key bound h p q = cc

module _ (sip_hash : List ℕ → ℕ) (f : Foreign)
    (serialize_decimal : f.Decimal → List ℕ → Result (List ℕ)) where
  -- Two values of one integer type, in its range, are written as row keys of one table so that the
  -- keys compare, byte by byte, as the values do.
  pub encode_tuple_key-partial_cmp :
      (name : List ℕ) (ty : LogicalType) (x y : DataValue f.Decimal)
      → is_word ty ≡ true
      → check_primary_key_type ty ≡ ok tt
      → Fits ty x
      → Fits ty y
      → (kx : List ℕ) × (ky : List ℕ) × (encode_tuple_key sip_hash serialize_decimal name x ≡ ok kx)
        × (encode_tuple_key sip_hash serialize_decimal name y ≡ ok ky)
        × (partial_cmp f x y ≡ some (compare_bytes kx ky))
  unfolding encode_tuple_key
  encode_tuple_key-partial_cmp name ty x y w k hx hy =
      let (kx, ky, p, q, r) =
        memcomparable_encode-partial_cmp f serialize_decimal
          (key_prefix sip_hash CodecType.tuple name ++ (0 ∷ [])) ty x y w hx hy in
      (
        kx,
        ky,
        rw (check_primary_key-Fits ty x w k hx) p,
        rw (check_primary_key-Fits ty y w k hy) q,
        r,
      )

module _ (sip_hash : List ℕ → ℕ) {D : Type 0}
    (serialize_decimal : D → List ℕ → Result (List ℕ)) where
  length-row_prefix :
      (name : List ℕ) → length (key_prefix sip_hash CodecType.tuple name ++ (0 ∷ [])) ≡ 10
  unfolding key_prefix hash_bytes
  length-row_prefix name = omega (
    arith,
    length-append (hash_bytes sip_hash name ++ (b'8' ∷ [])) (0 ∷ []),
    length-append (hash_bytes sip_hash name) (b'8' ∷ []),
    length-to_le_bytes 8 (sip_hash name),
  )

  -- A row key of a text of eight bytes or more is below the row key of every text of one to seven
  -- bytes that does not begin with the byte zero, whatever the two texts are.
  pub encode_tuple_key_long_text :
      (name long short : List ℕ) (c : ℕ) (ty ty' : Utf8Type) (unit : CharLengthUnits)
      → 8 ≤ length long
      → length (c ∷ short) < 8
      → 0 < c
      → (k : List ℕ) × (k' : List ℕ) × (encode_tuple_key sip_hash serialize_decimal name
            (utf8 long ty unit)
          ≡ ok k)
        × (encode_tuple_key sip_hash serialize_decimal name (utf8 (c ∷ short) ty' unit) ≡ ok k')
        × (compare_bytes k k' ≡ Ordering.lt)
  unfolding encode_tuple_key memcomparable_encode check_primary_key
  encode_tuple_key_long_text name long short c ty ty' unit h k positive =
      let b = key_prefix sip_hash CodecType.tuple name ++ (0 ∷ []) in
      let b_length : length b ≡ 10 = length-row_prefix name in
      (
        encode_bytes b long,
        encode_bytes b (c ∷ short),
        rw (check_primary_key-utf8 D long ty unit) refl,
        rw (check_primary_key-utf8 D (c ∷ short) ty' unit) refl,
        compare_bytes-encode_bytes_short b long short c (omega arith) (omega arith) positive,
      )

  -- An entry of a normal or composite index for a row with an INTEGER key lies in the range that an
  -- equality on the value scans exactly when the key is below 0x7F000000, where both are encoded
  -- without an error: the bound ends in the byte 255, which is also the first byte of greater keys.
  pub in_range-eq_to_res_range :
      (name key : List ℕ) (bound : List ℕ × List ℕ) (entry : Index D) (z : ℤ)
      → IsSigned half32 z
      → has_tuple_id (entry.ty) ≡ true
      → encode_index_key sip_hash serialize_decimal name entry (some (int32 z)) ≡ ok key
      → eq_to_res_range sip_hash serialize_decimal name entry ≡ ok bound
      → (in_range bound key ≡ true) ↔ (compare_ℤ z (pos 0x7F00_0000) ≡ Ordering.lt)
  unfolding encode_index_key encode_index_bound_key eq_to_res_range memcomparable_encode
  in_range-eq_to_res_range name key bound entry z hz hty written scanned =
      let x = bit_xor (to_bits half32 z) half32 in
      let (m, key_bytes, bound_bytes) =
        written_behind
          (memcomparable_encode serialize_decimal (entry.value)
            (index_prefix sip_hash name (entry.id) ++ (0 ∷ [])))
          (has_tuple_id (entry.ty)) (to_be_bytes 4 x) key bound hty written scanned in
      let (small, iff) = flipped-lt z hz in
      let first = in_range-to_be_bytes x small in
      let behind = in_range-append m m [] (255 ∷ []) (to_be_bytes 4 x) refl in
      rw (key_bytes, bound_bytes)
        (λ h. iff.0 (first.0 ((behind.0 h).1)), λ h. behind.1 (refl, first.1 (iff.1 h)))
