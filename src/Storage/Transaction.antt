-- ===== src/Storage/Transaction.antt =====
-- `Transaction` of src/storage/mod.rs: what changes rows, index entries and the names of tables, on a
-- store of keys and values. The store is RocksDB's, behind the methods `get`, `set`, `remove` and
-- `range` of src/storage/rocksdb.rs; bincode and siphasher are arguments as in TableCodec.
pub mod Store
pub mod Drop
pub mod Rows
pub mod Unique
pub mod Examples
use kite_sql.Prelude.{
  ℕ, Bool, true, false, Option, none, some, List, [], ◌∷◌, map, if◌then◌else◌, Result, ok, err,
  DatabaseError, ◌>>=◌,
}
use kite_sql.Types.Logical.{LogicalType}
use kite_sql.Expression.Range.{Bound, included}
use kite_sql.Types.Value.{Foreign, DataValue, compare_bytes}
use kite_sql.Types.Tuple.{Tuple, deserialize_from}
use kite_sql.Storage.TableCodec.{
  IndexType, Index, tuple_bound, all_index_bound, statistics_bound, columns_bound, index_meta_bound,
  encode_root_table_key, encode_table_hash_key, encode_table_hash, encode_statistics_path,
  encode_statistics_path_key, encode_tuple, encode_tuple_key, encode_index, encode_index_key,
}

-- The methods that a transaction takes from RocksDB. `range` gives the entries that its iterator
-- yields between two bounds.
pub record KeyValue : Type 1 where
  pub State : Type 0
  pub get : State → List ℕ → Result (Option (List ℕ))
  pub set : State → List ℕ → List ℕ → Result State
  pub remove : State → List ℕ → Result State
  pub range : State → Bound (List ℕ) → Bound (List ℕ) → Result (List (List ℕ × List ℕ))

abbrev pub is_some : {A : Type 0} → Option A → Bool
is_some none = false
is_some (some a) = true

-- `bytes == value`
abbrev pub same_bytes : List ℕ → List ℕ → Bool
same_bytes a b = elim (compare_bytes a b) [ Prim.Native.Nat.Ordering.eq ↦ true | _ ↦ false ]

abbrev pub is_primary : IndexType → Bool
is_primary (IndexType.primary_key is_multiple) = true
is_primary _ = false

abbrev pub is_unique : IndexType → Bool
is_unique IndexType.unique = true
is_unique _ = false

module _ (db : KeyValue) where
  open db use {State, get, set, remove, range}

  unfoldable pub remove_all : State → List (List ℕ) → Result State
  remove_all s [] = ok s
  remove_all s (key ∷ data_keys) = do s' ← remove s key; remove_all s' data_keys

  unfoldable pub drop_range : State → List ℕ × List ℕ → Result State
  unfolding remove_all
  drop_range s bound = do
    entries ← range s (included bound.0) (included bound.1)
    remove_all s (map (λ entry. entry.0) entries)

  module _ (sip_hash : List ℕ → ℕ) where
    unfoldable pub drop_data : State → List ℕ → Result State
    unfolding drop_range
    drop_data s table_name = do
      s1 ← drop_range s (tuple_bound sip_hash table_name)
      s2 ← drop_range s1 (all_index_bound sip_hash table_name)
      drop_range s2 (statistics_bound sip_hash table_name)

    unfoldable pub check_name_hash : State → List ℕ → Result State
    check_name_hash s table_name =
        let (hash_key, value) = encode_table_hash sip_hash table_name in
        do
          found ← get s hash_key
          if is_some found then err DatabaseError.duplicate_source_hash else set s hash_key value

    unfoldable pub drop_name_hash : State → List ℕ → Result State
    drop_name_hash s table_name = remove s (encode_table_hash_key sip_hash table_name)

    -- `drop_table` of a table that was found, on the store.
    unfoldable pub drop_found : State → List ℕ → Result State
    unfolding drop_name_hash drop_data drop_range
    drop_found s table_name = do
      s1 ← drop_name_hash s table_name
      s2 ← drop_data s1 table_name
      s3 ← drop_range s2 (columns_bound sip_hash table_name)
      s4 ← drop_range s3 (index_meta_bound sip_hash table_name)
      remove s4 (encode_root_table_key sip_hash table_name)

    -- The cache of tables is an argument: `table` looks a table up in it and in the store, `forget` is
    -- the cache's `remove`. The directory of the statistics files is left out.
    module _ {Cache : Type 0} (table : State → Cache → List ℕ → Result (Bool × Cache))
        (forget : Cache → List ℕ → Cache) where
      unfoldable pub drop_looked_up : State → List ℕ → Bool → Bool × Cache → Result (State × Cache)
      unfolding drop_found
      drop_looked_up s table_name if_exists (true, cache) = do
        s' ← drop_found s table_name
        ok (s', forget cache table_name)
      drop_looked_up s table_name true (false, cache) = ok (s, cache)
      drop_looked_up s table_name false (false, cache) = err DatabaseError.table_not_found

      unfoldable pub drop_table : State → Cache → List ℕ → Bool → Result (State × Cache)
      unfolding drop_looked_up
      drop_table s cache table_name if_exists = do
        looked_up ← table s cache table_name
        drop_looked_up s table_name if_exists looked_up

    module _ (f : Foreign) (serialize_decimal : f.Decimal → List ℕ → Result (List ℕ)) where
      -- `append_tuple` after the row was encoded.
      unfoldable pub append_entry : State → Bool → List ℕ × List ℕ → Result State
      append_entry s true (key, value) = set s key value
      append_entry s false (key, value) = do
        found ← get s key
        if is_some found then err DatabaseError.duplicate_primary_key else set s key value

      unfoldable pub append_tuple : State → List ℕ → Tuple f.Decimal → Bool → Result State
      unfolding append_entry
      append_tuple s table_name row is_overwrite = do
        entry ← encode_tuple sip_hash f serialize_decimal table_name row
        append_entry s is_overwrite entry

      unfoldable pub remove_tuple : State → List ℕ → DataValue f.Decimal → Result State
      remove_tuple s table_name tuple_id = do
        key ← encode_tuple_key sip_hash serialize_decimal table_name tuple_id
        remove s key

      -- What `get_tuple_by_id` makes of the bytes that it finds.
      unfoldable pub decode_found :
          List LogicalType
          → List ℕ
          → List ℕ
          → Bool
          → Option (List ℕ)
          → Result (Option (Tuple f.Decimal))
      decode_found table_types pk_indices projections with_pk none = ok none
      decode_found table_types pk_indices projections with_pk (some bytes) = do
        row ← deserialize_from f table_types pk_indices projections bytes with_pk
        ok (some row)

      unfoldable pub get_tuple_by_id :
          State
          → List ℕ
          → List LogicalType
          → List ℕ
          → List ℕ
          → Bool
          → DataValue f.Decimal
          → Result (Option (Tuple f.Decimal))
      unfolding decode_found
      get_tuple_by_id s table_name table_types pk_indices projections with_pk tuple_id = do
        key ← encode_tuple_key sip_hash serialize_decimal table_name tuple_id
        found ← get s key
        decode_found table_types pk_indices projections with_pk found

    module _ {D : Type 0} (serialize_decimal : D → List ℕ → Result (List ℕ))
        (serialize_into : DataValue D → Result (List ℕ)) where
      -- `add_index` of a unique index, by what the key holds already.
      unfoldable pub add_unique : State → List ℕ × List ℕ → Option (List ℕ) → Result State
      add_unique s (key, value) none = set s key value
      add_unique s (key, value) (some bytes) =
          if same_bytes bytes value then ok s else err DatabaseError.duplicate_unique_value

      unfoldable pub add_entry : State → IndexType → List ℕ × List ℕ → Result State
      unfolding add_unique
      add_entry s ty (key, value) =
          if is_unique ty
          then (do found ← get s key; add_unique s (key, value) found)
          else set s key value

      unfoldable pub add_index : State → List ℕ → Index D → DataValue D → Result State
      unfolding add_entry
      add_index s table_name entry tuple_id = if is_primary entry.ty then ok s else do
        pair ← encode_index sip_hash serialize_decimal serialize_into table_name entry tuple_id
        add_entry s entry.ty pair

      unfoldable pub del_index : State → List ℕ → Index D → DataValue D → Result State
      del_index s table_name entry tuple_id = if is_primary entry.ty then ok s else do
        key ← encode_index_key sip_hash serialize_decimal table_name entry (some tuple_id)
        remove s key
