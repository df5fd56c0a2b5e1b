-- ===== src/Storage/TableCodec/Examples.antt =====
-- Keys and scans at concrete inputs, with a hash that counts letters and decimals of one byte.
use Prim.Native.Nat.{Ordering}
use kite_sql.Prelude.Int.{pos, negsuc, compare_ℤ, to_bits}
use kite_sql.Prelude.{
  if◌then◌else◌, ℕ, ◌%◌, ◌<◌, ◌≡◌, refl, ◌↔◌, ◌⊎◌, Bool, true, none, some, List, [], ◌∷◌, ◌++◌,
  arith, length, Result, ok,
}
use kite_sql.Types.Logical.{LogicalType, characters}
use kite_sql.Types.Bytes.{byte_range, to_le_bytes, to_be_bytes}
use kite_sql.Types.Value.{DataValue, int32, utf8, variable, compare_bytes, partial_cmp}
use kite_sql.Types.Value.RoundTrip.{of_integer}
use kite_sql.Types.Value.Memcomparable.{memcomparable_encode}
use kite_sql.Types.Examples.{two_decimals}
use kite_sql.Storage.TableCodec.{
  CodecType, Index, IndexType, tuple_bound, table_bound, index_bound, encode_tuple_key,
  encode_index_key, encode_index_meta_key, eq_to_res_range, key_prefix, hash_bytes,
  check_primary_key,
}
use kite_sql.Storage.TableCodec.Bounds.{in_range}
use kite_sql.Storage.TableCodec.Prefix.{Appends}
use kite_sql.Storage.TableCodec.Keys.{of_tuples, tuple_key, index_meta_key}
use kite_sql.Storage.TableCodec.Scans.{in_range-KeyOf, in_range-table_bound, in_range-index_bound}
use kite_sql.Storage.TableCodec.Lookup.{
  encode_tuple_key-partial_cmp, encode_tuple_key_long_text, in_range-eq_to_res_range,
}

abbrev pub count : List ℕ → ℕ
count name = length name % 1000

pub count_is_u64 : (name : List ℕ) → count name < byte_range 8
count_is_u64 name = omega arith

abbrev pub one_byte : Bool → List ℕ → Result (List ℕ)
one_byte d b = ok (b ++ ((if d then 1 else 0) ∷ []))

pub one_byte-Appends : Appends one_byte
one_byte-Appends d b k h = ((if d then 1 else 0) ∷ [], cc)

abbrev pub t1 : List ℕ
t1 = b't' ∷ b'1' ∷ []

abbrev pub int : ℕ → DataValue Bool
int n = int32 (pos n)

-- the row key of the table `t1` and the key 5
abbrev pub row_key : List ℕ
row_key = 2 ∷ 0 ∷ 0 ∷ 0 ∷ 0 ∷ 0 ∷ 0 ∷ 0 ∷ b'8' ∷ 0 ∷ 128 ∷ 0 ∷ 0 ∷ 5 ∷ []

pub written_row_key : encode_tuple_key count one_byte t1 (int 5) ≡ ok row_key
unfolding encode_tuple_key memcomparable_encode key_prefix hash_bytes to_le_bytes to_be_bytes
    check_primary_key to_bits
written_row_key = refl

in_range-KeyOf_example :
    (in_range (tuple_bound count t1) row_key ≡ true)
    ↔ ((count t1 ≡ count t1) × (CodecType.tuple ≡ CodecType.tuple))
in_range-KeyOf_example =
    in_range-KeyOf count count_is_u64 one_byte one_byte-Appends (of_tuples t1)
      (tuple_key t1 (int 5) row_key written_row_key)

-- the description of the index 1 of `t1`
abbrev meta_key : List ℕ
meta_key = 2 ∷ 0 ∷ 0 ∷ 0 ∷ 0 ∷ 0 ∷ 0 ∷ 0 ∷ b'1' ∷ 0 ∷ 1 ∷ 0 ∷ 0 ∷ 0 ∷ []

written_meta_key : encode_index_meta_key count t1 1 ≡ ok meta_key
unfolding encode_index_meta_key key_prefix hash_bytes to_le_bytes
written_meta_key = refl

in_range-table_bound_example : (in_range (table_bound count t1) meta_key ≡ true) ↔ (
    (count t1 ≡ count t1)
    × ((CodecType.index_meta ≡ CodecType.column) ⊎ (CodecType.index_meta ≡ CodecType.index_meta)))
in_range-table_bound_example =
    in_range-table_bound count count_is_u64 one_byte one_byte-Appends t1
      (index_meta_key t1 1 meta_key written_meta_key)

abbrev entry : Index Bool
entry = record { id = 7; value = int 3; ty = IndexType.normal }

abbrev entry_head : List ℕ
entry_head = 2 ∷ 0 ∷ 0 ∷ 0 ∷ 0 ∷ 0 ∷ 0 ∷ 0 ∷ b'3' ∷ 0 ∷ 7 ∷ 0 ∷ 0 ∷ 0 ∷ 0 ∷ 128 ∷ 0 ∷ 0 ∷ 3 ∷ []

-- the entry for the row with the greatest INTEGER key
abbrev entry_key : List ℕ
entry_key = entry_head ++ (255 ∷ 255 ∷ 255 ∷ 255 ∷ [])

written_entry_key : encode_index_key count one_byte t1 entry (some (int 0x7FFF_FFFF)) ≡ ok entry_key
unfolding encode_index_key memcomparable_encode key_prefix hash_bytes to_le_bytes to_be_bytes
    to_bits
written_entry_key = refl

scanned_range : eq_to_res_range count one_byte t1 entry ≡ ok (entry_head, entry_head ++ (255 ∷ []))
unfolding eq_to_res_range memcomparable_encode key_prefix hash_bytes to_le_bytes to_be_bytes to_bits
scanned_range = refl

in_range-index_bound_example :
    (in_range (index_bound count t1 7) entry_key ≡ true) ↔ ((count t1 ≡ count t1) × (7 ≡ entry.id))
in_range-index_bound_example =
    in_range-index_bound count count_is_u64 one_byte one_byte-Appends t1 t1 entry_key 7 entry
      (some (int 0x7FFF_FFFF)) (omega arith) (omega arith) written_entry_key

in_range-eq_to_res_range_example :
    (in_range (entry_head, entry_head ++ (255 ∷ [])) entry_key ≡ true)
    ↔ (compare_ℤ (pos 0x7FFF_FFFF) (pos 0x7F00_0000) ≡ Ordering.lt)
in_range-eq_to_res_range_example =
    in_range-eq_to_res_range count one_byte t1 entry_key (entry_head, entry_head ++ (255 ∷ []))
      entry (pos 0x7FFF_FFFF) (omega arith) refl written_entry_key scanned_range

encode_tuple_key-partial_cmp_example :
    (kx : List ℕ) × (ky : List ℕ) × (encode_tuple_key count one_byte t1 (int32 (negsuc 1)) ≡ ok kx)
    × (encode_tuple_key count one_byte t1 (int 5) ≡ ok ky)
    × (partial_cmp two_decimals (int32 (negsuc 1)) (int 5) ≡ some (compare_bytes kx ky))
unfolding check_primary_key
encode_tuple_key-partial_cmp_example =
    encode_tuple_key-partial_cmp count two_decimals one_byte t1 LogicalType.integer
      (int32 (negsuc 1)) (int 5) refl refl (of_integer (negsuc 1) (omega arith))
      (of_integer (pos 5) (omega arith))

-- `zzzzzzzz` and `a`
encode_tuple_key_long_text_example :
    (k : List ℕ) × (k' : List ℕ) × (encode_tuple_key count one_byte t1 (
        utf8
          (b'z' ∷ b'z' ∷ b'z' ∷ b'z' ∷ b'z' ∷ b'z' ∷ b'z' ∷ b'z' ∷ [])
          (variable none)
          characters)
      ≡ ok k)
    × (encode_tuple_key count one_byte t1 (utf8 (b'a' ∷ []) (variable none) characters) ≡ ok k')
    × (compare_bytes k k' ≡ Ordering.lt)
encode_tuple_key_long_text_example =
    encode_tuple_key_long_text count one_byte t1
      (b'z' ∷ b'z' ∷ b'z' ∷ b'z' ∷ b'z' ∷ b'z' ∷ b'z' ∷ b'z' ∷ []) [] b'a' (variable none)
      (variable none) characters (omega arith) (omega arith) (omega arith)
