-- ===== src/Types/Value/Memcomparable.antt =====
-- `DataValue::memcomparable_encode` of src/types/value.rs: the bytes of a value in a key. The buffer
-- that is written to is passed along, since the encoding of a text looks at its length.
-- `serialize_decimal` is an argument.
use Prim.Native.Nat.{bit_xor, bit_or}
use kite_sql.Prelude.Int.{to_bits}
use kite_sql.Prelude.{
  ℕ, zero, suc, ◌+◌, ◌-◌, ◌*◌, ◌/◌, Bool, true, false, ◌||◌, ◌&&◌, List, [], ◌∷◌, ◌++◌, leb, ltb,
  ◌==◌, if◌then◌else◌, length, take, drop, replicate, Result, ok, panic, ◌>>=◌,
}
use kite_sql.Types.Bytes.{to_be_bytes}
use kite_sql.Types.Value.{
  DataValue, DataValues, nil, cons, null, boolean, float32, float64, int8, int16, int32, int64,
  u_int8, u_int16, u_int32, u_int64, utf8, date32, date64, time32, time64, decimal, tuple, is_null,
}
use kite_sql.Types.Value.Raw.{half8, half16, half32, half64}

abbrev pub bound_min_tag : ℕ
bound_min_tag = 0

abbrev pub bound_max_tag : ℕ
bound_max_tag = 255

abbrev pub encode_group_size : ℕ
encode_group_size = 8

abbrev pub encode_marker : ℕ
encode_marker = 0xFF

-- `reserve` and `resize(size, 0)` when the buffer is shorter than `size`
unfoldable pub realloc_bytes : List ℕ → ℕ → List ℕ
realloc_bytes b size = if ltb (length b) size then b ++ replicate (size - length b) 0 else b

-- The loop of `encode_bytes`, with a round for each group.
unfoldable pub encode_groups : ℕ → List ℕ → List ℕ
encode_groups zero rest = []
encode_groups (suc n) rest = elim (leb encode_group_size (length rest)) [
  | true ↦
      take encode_group_size rest ++ (encode_marker ∷ encode_groups n (drop encode_group_size rest))
  | false ↦
      rest
      ++ (replicate (encode_group_size - length rest) 0
          ++ ((encode_marker - (encode_group_size - length rest)) ∷ []))
]

abbrev pub group_count : List ℕ → ℕ
group_count d = length d / encode_group_size + 1

unfoldable pub encode_bytes : List ℕ → List ℕ → List ℕ
unfolding realloc_bytes encode_groups
encode_bytes b d =
    realloc_bytes b (group_count d * (encode_group_size + 1)) ++ encode_groups (group_count d) d

-- `f.0 >= 0_f32` on the bits: up to positive infinity, or the negative zero.
unfoldable pub f32_is_non_negative : ℕ → Bool
f32_is_non_negative u = leb u 0x7F80_0000 || u == 0x8000_0000

unfoldable pub f64_is_non_negative : ℕ → Bool
f64_is_non_negative u = leb u 0x7FF0_0000_0000_0000 || u == 0x8000_0000_0000_0000

unfoldable pub f32_key : ℕ → ℕ
unfolding f32_is_non_negative
f32_key u = if f32_is_non_negative u then bit_or u 0x8000_0000 else 0xFFFF_FFFF - u

unfoldable pub f64_key : ℕ → ℕ
unfolding f64_is_non_negative
f64_key u =
    if f64_is_non_negative u then bit_or u 0x8000_0000_0000_0000 else 0xFFFF_FFFF_FFFF_FFFF - u

-- The byte behind a component of a tuple.
abbrev pub component_tag : Bool → Bool → Bool → ℕ
component_tag is_null is_last is_upper =
    if (is_null || is_last) && is_upper then bound_max_tag else bound_min_tag

abbrev pub is_nil : {D : Type 0} → DataValues D → Bool
is_nil nil = true
is_nil (cons v vs) = false

module _ {D : Type 0} (serialize_decimal : D → List ℕ → Result (List ℕ)) where
  unfoldable mutual
    unfolding is_null

    pub memcomparable_encode : DataValue D → List ℕ → Result (List ℕ)
    memcomparable_encode null b = ok b
    memcomparable_encode (boolean v) b = ok (b ++ ((if v then b'1' else b'0') ∷ []))
    memcomparable_encode (float32 v) b = ok (b ++ to_be_bytes 4 (f32_key v))
    memcomparable_encode (float64 v) b = ok (b ++ to_be_bytes 8 (f64_key v))
    memcomparable_encode (int8 v) b = ok (b ++ to_be_bytes 1 (bit_xor (to_bits half8 v) half8))
    memcomparable_encode (int16 v) b = ok (b ++ to_be_bytes 2 (bit_xor (to_bits half16 v) half16))
    memcomparable_encode (int32 v) b = ok (b ++ to_be_bytes 4 (bit_xor (to_bits half32 v) half32))
    memcomparable_encode (int64 v) b = ok (b ++ to_be_bytes 8 (bit_xor (to_bits half64 v) half64))
    memcomparable_encode (u_int8 v) b = ok (b ++ to_be_bytes 1 v)
    memcomparable_encode (u_int16 v) b = ok (b ++ to_be_bytes 2 v)
    memcomparable_encode (u_int32 v) b = ok (b ++ to_be_bytes 4 v)
    memcomparable_encode (u_int64 v) b = ok (b ++ to_be_bytes 8 v)
    memcomparable_encode (utf8 v _ _) b = ok (encode_bytes b v)
    memcomparable_encode (date32 v) b = ok (b ++ to_be_bytes 4 (bit_xor (to_bits half32 v) half32))
    memcomparable_encode (date64 v) b = ok (b ++ to_be_bytes 8 (bit_xor (to_bits half64 v) half64))
    memcomparable_encode (time32 v _) b = ok (b ++ to_be_bytes 4 v)
    memcomparable_encode (time64 v _ _) b =
        ok (b ++ to_be_bytes 8 (bit_xor (to_bits half64 v) half64))
    memcomparable_encode (decimal v) b = serialize_decimal v b
    memcomparable_encode (tuple nil is_upper) b = panic
    memcomparable_encode (tuple (cons v vs) is_upper) b = encode_values (cons v vs) is_upper b

    pub encode_values : DataValues D → Bool → List ℕ → Result (List ℕ)
    encode_values nil is_upper b = ok b
    encode_values (cons v vs) is_upper b = do
      b' ← memcomparable_encode v b
      encode_values vs is_upper (b' ++ (component_tag (is_null v) (is_nil vs) is_upper ∷ []))
