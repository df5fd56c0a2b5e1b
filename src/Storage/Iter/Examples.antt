-- ===== src/Storage/Iter/Examples.antt =====
-- Scans of an index and of a table.
use kite_sql.Prelude.Int.{to_bits, from_bits}
use kite_sql.Prelude.{
  ℕ, ◌≡◌, refl, Bool, true, none, some, List, [], ◌∷◌, Result, ok, err, DatabaseError, arith,
}
use kite_sql.Types.Bytes.{to_be_bytes, to_le_bytes, from_le_bytes, read_word, read_exact}
use kite_sql.Types.Logical.{LogicalType}
use kite_sql.Types.Logical.Combine.{type_eq}
use kite_sql.Types.Value.{DataValue, logical_type, compare_bytes}
use kite_sql.Types.Value.Memcomparable.{memcomparable_encode}
use kite_sql.Types.Value.Raw.{from_raw}
use kite_sql.Types.Tuple.{
  Tuple, deserialize_from, deserialize_columns, is_none, primary_projection, read_key,
}
use kite_sql.Types.Examples.{two_decimals}
use kite_sql.Expression.Range.{Range, eq_value}
use kite_sql.Storage.TableCodec.{
  IndexType, encode_tuple_key, check_primary_key, key_prefix, hash_bytes,
}
use kite_sql.Storage.TableCodec.Examples.{count, one_byte, t1, int, row_key}
use kite_sql.Storage.Transaction.{get_tuple_by_id, decode_found}
use kite_sql.Storage.Transaction.Examples.{Entries, listed}
use kite_sql.Storage.Iter.{
  IndexImplParams, IndexIterState, resolve, eq_to_res, try_cast, params_tuple_by_id, index_lookup,
  drain, drain_scan,
}
use kite_sql.Storage.Iter.Stream.{Streams, no_range, look_up, drain_lem}
use kite_sql.Storage.Iter.Scan.{Decoded, drain_scan_lem}

abbrev one_row : Entries
one_row = (row_key, 0 ∷ 5 ∷ 0 ∷ 0 ∷ 0 ∷ []) ∷ []

abbrev by_key : IndexImplParams
by_key = record {
  table_name = t1;
  index_id = 0;
  ty = IndexType.primary_key true;
  value_ty = LogicalType.integer;
  table_types = LogicalType.integer ∷ [];
  pk_indices = 0 ∷ [];
  projections = 0 ∷ [];
  with_pk = true;
}

-- Three keys, of which the second is not there.
abbrev three_keys : List (Range (DataValue Bool))
three_keys = eq_value (int 5) ∷ eq_value (int 6) ∷ eq_value (int 5) ∷ []

abbrev five : Tuple Bool
five = record { pk = some (int 5); values = int 5 ∷ [] }

abbrev never_cast : DataValue Bool → LogicalType → Result (DataValue Bool)
never_cast v ty = err DatabaseError.invalid_type

abbrev no_id : List ℕ → Result (DataValue Bool)
no_id bytes = err DatabaseError.io

looked_up :
    Streams
      (resolve listed count two_decimals one_byte no_id never_cast one_row by_key)
      (index_lookup listed count two_decimals one_byte no_id never_cast one_row by_key by_key.ty)
      three_keys
      (some five ∷ none ∷ some five ∷ [])
unfolding resolve eq_to_res try_cast params_tuple_by_id get_tuple_by_id decode_found logical_type
    type_eq encode_tuple_key memcomparable_encode key_prefix hash_bytes to_le_bytes to_be_bytes
    from_le_bytes read_word read_exact check_primary_key to_bits from_bits deserialize_from
    deserialize_columns is_none primary_projection read_key from_raw compare_bytes
looked_up = look_up (eq_value (int 5)) _ (some five) _ refl (
    look_up (eq_value (int 6)) _ none _ refl
      (look_up (eq_value (int 5)) [] (some five) [] refl no_range))

-- The third key's row is not yielded.
drain_lem_example :
    drain
      (resolve listed count two_decimals one_byte no_id never_cast one_row by_key)
      (index_lookup listed count two_decimals one_byte no_id never_cast one_row by_key by_key.ty)
      4
      (record { offset = 0; limit = some 9; ranges = three_keys; state = IndexIterState.init })
    ≡ ok (five ∷ [])
drain_lem_example =
    drain_lem (resolve listed count two_decimals one_byte no_id never_cast one_row by_key)
      (index_lookup listed count two_decimals one_byte no_id never_cast one_row by_key by_key.ty) 4
      0 (some 9) three_keys (some five ∷ none ∷ some five ∷ []) looked_up (omega arith)

-- The rows with the keys 5, 6 and 7.
abbrev three_rows : List (List ℕ)
three_rows = (0 ∷ 5 ∷ 0 ∷ 0 ∷ 0 ∷ []) ∷ (0 ∷ 6 ∷ 0 ∷ 0 ∷ 0 ∷ []) ∷ (0 ∷ 7 ∷ 0 ∷ 0 ∷ 0 ∷ []) ∷ []

abbrev keyed : ℕ → Tuple Bool
keyed n = record { pk = some (int n); values = int n ∷ [] }

abbrev decode : List ℕ → Result (Tuple Bool)
decode bytes = deserialize_from two_decimals (LogicalType.integer ∷ []) (0 ∷ []) (0 ∷ []) bytes true

decoded : Decoded decode three_rows (keyed 5 ∷ keyed 6 ∷ keyed 7 ∷ [])
unfolding deserialize_from deserialize_columns is_none primary_projection read_key from_raw
    from_bits from_le_bytes read_word read_exact
decoded = (refl, (refl, (refl, tt)))

drain_scan_lem_example :
    drain_scan decode 4 (record { offset = 1; limit = some 1; iter = three_rows })
    ≡ ok (keyed 6 ∷ [])
drain_scan_lem_example =
    drain_scan_lem decode 4 1 (some 1) three_rows (keyed 5 ∷ keyed 6 ∷ keyed 7 ∷ []) decoded
      (omega arith)
