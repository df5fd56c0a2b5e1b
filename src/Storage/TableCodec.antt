-- ===== src/Storage/TableCodec.antt =====
-- `TableCodec` of src/storage/table_codec.rs: the keys of the store and the bounds of its scans, with
-- `Index` of src/types/index.rs and `ColumnRelation` of src/catalog/column.rs. The crates' functions
-- are arguments: `sip_hash` (siphasher), `serialize_decimal` and `serialize_into` (bincode).
pub mod Bounds
pub mod Prefix
pub mod Keys
pub mod Scans
pub mod Lookup
pub mod Examples
use kite_sql.Prelude.{
  ℕ, suc, ◌≡◌, Bool, true, false, Option, List, [], ◌∷◌, ◌++◌, ltb, if◌then◌else◌, Result, ok, err,
  DatabaseError, ◌>>=◌, ◌>>◌,
}
use kite_sql.Types.Logical.{LogicalType}
use kite_sql.Types.Bytes.{to_le_bytes}
use kite_sql.Types.Value.{Foreign, DataValue, DataValues, nil, cons, is_null, logical_type}
use kite_sql.Types.Value.Memcomparable.{bound_min_tag, bound_max_tag, memcomparable_encode}
use kite_sql.Types.Tuple.{Tuple, serialize_to}

pub data CodecType : Type 0 where
  column : CodecType
  index_meta : CodecType
  index : CodecType
  statistics : CodecType
  view : CodecType
  tuple : CodecType
  root : CodecType
  hash : CodecType

pub data IndexType : Type 0 where
  primary_key : Bool → IndexType
  unique : IndexType
  normal : IndexType
  composite : IndexType

pub record Index (D : Type 0) : Type 0 where
  pub id : ℕ
  pub value : DataValue D
  pub ty : IndexType

-- The column identifier stands by the 16 bytes that `Ulid::to_bytes` gives.
pub data ColumnRelation : Type 0 where
  none : ColumnRelation
  table : List ℕ → List ℕ → Bool → ColumnRelation

abbrev pub root_bytes : List ℕ
root_bytes = b'R' ∷ b'o' ∷ b'o' ∷ b't' ∷ []

abbrev pub view_bytes : List ℕ
view_bytes = b'V' ∷ b'i' ∷ b'e' ∷ b'w' ∷ []

abbrev pub hash_prefix_bytes : List ℕ
hash_prefix_bytes = b'H' ∷ b'a' ∷ b's' ∷ b'h' ∷ []

unfoldable pub check_primary_key_type : LogicalType → Result (Unit {0})
check_primary_key_type LogicalType.tinyint = ok tt
check_primary_key_type LogicalType.smallint = ok tt
check_primary_key_type LogicalType.integer = ok tt
check_primary_key_type LogicalType.bigint = ok tt
check_primary_key_type LogicalType.u_tinyint = ok tt
check_primary_key_type LogicalType.u_smallint = ok tt
check_primary_key_type LogicalType.u_integer = ok tt
check_primary_key_type LogicalType.u_bigint = ok tt
check_primary_key_type (LogicalType.char len unit) = ok tt
check_primary_key_type (LogicalType.varchar len unit) = ok tt
check_primary_key_type _ = err DatabaseError.invalid_type

module _ {D : Type 0} where
  -- A tuple is not null, so the second guard is left out in its clause.
  unfoldable mutual
    unfolding is_null logical_type check_primary_key_type

    pub check_primary_key : DataValue D → ℕ → Result (Unit {0})
    check_primary_key (DataValue.tuple values is_upper) indentation =
        if ltb 1 indentation
        then err DatabaseError.primary_key_too_many_layers
        else check_primary_keys values (suc indentation)
    check_primary_key value indentation =
        if ltb 1 indentation
        then err DatabaseError.primary_key_too_many_layers
        else if is_null value
        then err DatabaseError.not_null
        else check_primary_key_type (logical_type value)

    pub check_primary_keys : DataValues D → ℕ → Result (Unit {0})
    check_primary_keys nil indentation = ok tt
    check_primary_keys (cons v vs) indentation =
        check_primary_key v indentation >> check_primary_keys vs indentation

abbrev pub tagged_bound : List ℕ → List ℕ × List ℕ
tagged_bound prefix = (prefix ++ (bound_min_tag ∷ []), prefix ++ (bound_max_tag ∷ []))

unfoldable pub root_table_bound : List ℕ × List ℕ
root_table_bound = tagged_bound root_bytes

unfoldable pub view_bound : List ℕ × List ℕ
view_bound = tagged_bound view_bytes

abbrev pub push_upper : Bool → List ℕ → List ℕ
push_upper is_upper key = if is_upper then key ++ (bound_max_tag ∷ []) else key

abbrev pub has_tuple_id : IndexType → Bool
has_tuple_id IndexType.normal = true
has_tuple_id IndexType.composite = true
has_tuple_id _ = false

module _ (sip_hash : List ℕ → ℕ) where
  unfoldable pub hash_bytes : List ℕ → List ℕ
  hash_bytes table_name = to_le_bytes 8 (sip_hash table_name)

  -- For `Hash` the bytes are moved out by `append`, so that the second copy is empty.
  unfoldable pub key_prefix : CodecType → List ℕ → List ℕ
  unfolding hash_bytes
  key_prefix CodecType.column name = hash_bytes name ++ (b'0' ∷ [])
  key_prefix CodecType.index_meta name = hash_bytes name ++ (b'1' ∷ [])
  key_prefix CodecType.index name = hash_bytes name ++ (b'3' ∷ [])
  key_prefix CodecType.statistics name = hash_bytes name ++ (b'4' ∷ [])
  key_prefix CodecType.tuple name = hash_bytes name ++ (b'8' ∷ [])
  key_prefix CodecType.root name = (root_bytes ++ (bound_min_tag ∷ [])) ++ hash_bytes name
  key_prefix CodecType.view name = (view_bytes ++ (bound_min_tag ∷ [])) ++ hash_bytes name
  key_prefix CodecType.hash name = (hash_prefix_bytes ++ (bound_min_tag ∷ [])) ++ hash_bytes name

  unfoldable pub tuple_bound : List ℕ → List ℕ × List ℕ
  unfolding key_prefix
  tuple_bound table_name = tagged_bound (key_prefix CodecType.tuple table_name)

  unfoldable pub index_meta_bound : List ℕ → List ℕ × List ℕ
  unfolding key_prefix
  index_meta_bound table_name = tagged_bound (key_prefix CodecType.index_meta table_name)

  abbrev pub index_prefix : List ℕ → ℕ → List ℕ
  index_prefix table_name index_id =
      (key_prefix CodecType.index table_name ++ (bound_min_tag ∷ [])) ++ to_le_bytes 4 index_id

  unfoldable pub index_bound : List ℕ → ℕ → List ℕ × List ℕ
  unfolding key_prefix
  index_bound table_name index_id = tagged_bound (index_prefix table_name index_id)

  unfoldable pub all_index_bound : List ℕ → List ℕ × List ℕ
  unfolding key_prefix
  all_index_bound table_name = tagged_bound (key_prefix CodecType.index table_name)

  unfoldable pub table_bound : List ℕ → List ℕ × List ℕ
  unfolding key_prefix
  table_bound table_name = (
    key_prefix CodecType.column table_name ++ (bound_min_tag ∷ []),
    key_prefix CodecType.index_meta table_name ++ (bound_max_tag ∷ []),
  )

  unfoldable pub columns_bound : List ℕ → List ℕ × List ℕ
  unfolding key_prefix
  columns_bound table_name = tagged_bound (key_prefix CodecType.column table_name)

  unfoldable pub statistics_bound : List ℕ → List ℕ × List ℕ
  unfolding key_prefix
  statistics_bound table_name = tagged_bound (key_prefix CodecType.statistics table_name)

  unfoldable pub encode_index_meta_key : List ℕ → ℕ → Result (List ℕ)
  unfolding key_prefix
  encode_index_meta_key table_name index_id = ok (
      (key_prefix CodecType.index_meta table_name ++ (bound_min_tag ∷ []))
      ++ to_le_bytes 4 index_id)

  unfoldable pub encode_statistics_path_key : List ℕ → ℕ → List ℕ
  unfolding key_prefix
  encode_statistics_path_key table_name index_id =
      (key_prefix CodecType.statistics table_name ++ (bound_min_tag ∷ [])) ++ to_le_bytes 4 index_id

  unfoldable pub encode_statistics_path : List ℕ → ℕ → List ℕ → List ℕ × List ℕ
  unfolding encode_statistics_path_key
  encode_statistics_path table_name index_id path =
      (encode_statistics_path_key table_name index_id, path)

  unfoldable pub encode_view_key : List ℕ → List ℕ
  unfolding key_prefix
  encode_view_key view_name = key_prefix CodecType.view view_name

  unfoldable pub encode_root_table_key : List ℕ → List ℕ
  unfolding key_prefix
  encode_root_table_key table_name = key_prefix CodecType.root table_name

  unfoldable pub encode_table_hash_key : List ℕ → List ℕ
  unfolding key_prefix
  encode_table_hash_key table_name = key_prefix CodecType.hash table_name

  unfoldable pub encode_table_hash : List ℕ → List ℕ × List ℕ
  unfolding key_prefix
  encode_table_hash table_name = (key_prefix CodecType.hash table_name, [])

  -- `encoded` is what `col.encode` writes.
  unfoldable pub encode_column : ColumnRelation → Result (List ℕ) → Result (List ℕ × List ℕ)
  unfolding key_prefix
  encode_column (ColumnRelation.table column_id table_name false) encoded = do
    column_bytes ← encoded
    ok ((key_prefix CodecType.column table_name ++ (bound_min_tag ∷ [])) ++ column_id, column_bytes)
  encode_column _ encoded = err DatabaseError.invalid_column

  module _ {D : Type 0} (serialize_decimal : D → List ℕ → Result (List ℕ)) where
    unfoldable pub encode_tuple_key : List ℕ → DataValue D → Result (List ℕ)
    unfolding key_prefix check_primary_key memcomparable_encode
    encode_tuple_key table_name tuple_id =
        check_primary_key tuple_id 0
        >> memcomparable_encode serialize_decimal tuple_id
            (key_prefix CodecType.tuple table_name ++ (bound_min_tag ∷ []))

    unfoldable pub encode_index_bound_key : List ℕ → Index D → Bool → Result (List ℕ)
    unfolding key_prefix memcomparable_encode
    encode_index_bound_key name entry is_upper = do
      key ←
          memcomparable_encode serialize_decimal (entry.value)
            (index_prefix name (entry.id) ++ (bound_min_tag ∷ []))
      ok (push_upper is_upper key)

    unfoldable pub encode_index_key : List ℕ → Index D → Option (DataValue D) → Result (List ℕ)
    unfolding encode_index_bound_key memcomparable_encode
    encode_index_key name entry Option.none = encode_index_bound_key name entry false
    encode_index_key name entry (Option.some tuple_id) = do
      key ← encode_index_bound_key name entry false
      (if has_tuple_id (entry.ty)
          then memcomparable_encode serialize_decimal tuple_id key
          else ok key)

    -- The range that `eq_to_res` of a normal or composite index scans, in src/storage/mod.rs.
    unfoldable pub eq_to_res_range : List ℕ → Index D → Result (List ℕ × List ℕ)
    unfolding encode_index_bound_key
    eq_to_res_range table_name entry = do
      min ← encode_index_bound_key table_name entry false
      max ← encode_index_bound_key table_name entry true
      ok (min, max)

    -- `serialize_into` is bincode's.
    unfoldable pub encode_index :
        (DataValue D → Result (List ℕ)) → List ℕ → Index D → DataValue D → Result (List ℕ × List ℕ)
    unfolding encode_index_key
    encode_index serialize_into name entry tuple_id = do
      key ← encode_index_key name entry (Option.some tuple_id)
      bytes ← serialize_into tuple_id
      ok (key, bytes)

  module _ (f : Foreign) (serialize_decimal : f.Decimal → List ℕ → Result (List ℕ)) where
    unfoldable pub encode_tuple : List ℕ → Tuple f.Decimal → Result (List ℕ × List ℕ)
    unfolding encode_tuple_key serialize_to
    encode_tuple table_name t = elim (t.pk) [
      | Option.none ↦ err DatabaseError.primary_key_not_found
      | Option.some tuple_id ↦ do
        key ← encode_tuple_key serialize_decimal table_name tuple_id
        bytes ← serialize_to f t
        ok (key, bytes)
    ]
