-- ===== src/Storage/Iter.antt =====
-- The readers of src/storage/mod.rs: `TupleIter`, which scans a table, and `IndexIter`, which scans the
-- ranges of an index. `cast` of a value and bincode's reader of a row's key are arguments.
pub mod Stream
pub mod Scan
pub mod Examples
use kite_sql.Prelude.{
  ℕ, zero, suc, ◌-◌, Bool, true, false, ◌==◌, if◌then◌else◌, Option, none, some, List, [], ◌∷◌, map,
  Result, ok, err, panic, DatabaseError, ◌>>=◌, ok_or,
}
use kite_sql.Types.Logical.{LogicalType}
use kite_sql.Types.Logical.Combine.{type_eq}
use kite_sql.Types.Value.{Foreign, DataValue, logical_type}
use kite_sql.Types.Tuple.{Tuple, deserialize_from}
use kite_sql.Expression.Range.{
  Bound, included, excluded, unbounded, Range, Ranges, scope, eq_value, dummy, sorted_ranges,
}
use kite_sql.Storage.TableCodec.{
  IndexType, Index, tuple_bound, index_bound, encode_tuple_key, encode_index_bound_key,
  encode_index_key,
}
use kite_sql.Storage.Transaction.{KeyValue, is_primary, get_tuple_by_id, decode_found}

-- `table_schema_ref` only serves a debug assertion; `pk_indices` is `remap_pk_indices` of the iterator.
pub record IndexImplParams : Type 0 where
  pub table_name : List ℕ
  pub index_id : ℕ
  pub ty : IndexType
  pub value_ty : LogicalType
  pub table_types : List LogicalType
  pub pk_indices : List ℕ
  pub projections : List ℕ
  pub with_pk : Bool

-- What a range stands for: nothing, a looked up row, or the values of a scan's entries.
pub data IndexResult (Row : Type 0) : Type 0 where
  skipped : IndexResult Row
  found : Option Row → IndexResult Row
  scanned : List (List ℕ) → IndexResult Row

pub data IndexIterState : Type 0 where
  init : IndexIterState
  range : List (List ℕ) → IndexIterState
  over : IndexIterState

-- The part of an iterator that changes.
pub record IndexIter (R : Type 0) : Type 0 where
  pub offset : ℕ
  pub limit : Option ℕ
  pub ranges : List R
  pub state : IndexIterState

abbrev pub limit_sub : Option ℕ → Option ℕ
limit_sub none = none
limit_sub (some num) = some (num - 1)

-- `while let Some((_, bytes)) = iter.try_next()?` with `offset_move`: what is left of the offset, and
-- the entry behind it with those that follow.
unfoldable pub offset_move : ℕ → List (List ℕ) → ℕ × Option (List ℕ × List (List ℕ))
offset_move offset [] = (offset, none)
offset_move zero (bytes ∷ rest) = (0, some (bytes, rest))
offset_move (suc offset) (bytes ∷ rest) = offset_move offset rest

-- The loop of `next_tuple`, over what the ranges stand for.
module _ {R Row : Type 0} (resolve : R → Result (IndexResult Row))
    (index_lookup : List ℕ → Result Row) where
  abbrev Step : Type 0
  Step = Option Row × IndexIter R

  -- The state `Range`; `next` goes on with the state `Init`.
  unfoldable pub from_entries :
      (ℕ → Result Step) → Option ℕ → List R → ℕ × Option (List ℕ × List (List ℕ)) → Result Step
  from_entries next limit ranges (offset, none) = next offset
  from_entries next limit ranges (offset, some (bytes, rest)) = do
    row ← index_lookup bytes
    ok (
      some row,
      record {
        offset = offset;
        limit = limit_sub limit;
        ranges = ranges;
        state = IndexIterState.range rest;
      },
    )

  -- The state `Init` behind one range.
  unfoldable pub from_result :
      (ℕ → Result Step) → ℕ → Option ℕ → List R → IndexResult Row → Result Step
  unfolding from_entries offset_move
  from_result next offset limit ranges skipped = next offset
  from_result next (suc offset) limit ranges (found tuple) = next offset
  from_result next zero limit ranges (found tuple) = ok (
    tuple,
    record { offset = 0; limit = limit_sub limit; ranges = ranges; state = IndexIterState.init },
  )
  from_result next offset limit ranges (scanned entries) =
      from_entries next limit ranges (offset_move offset entries)

  unfoldable pub from_ranges : Option ℕ → List R → ℕ → Result Step
  unfolding from_result
  from_ranges limit [] offset =
      ok (none, record { offset = offset; limit = limit; ranges = []; state = IndexIterState.over })
  from_ranges limit (r ∷ rs) offset = do
    result ← resolve r
    from_result (from_ranges limit rs) offset limit rs result

  unfoldable pub from_state : IndexIter R → IndexIterState → Result Step
  unfolding from_ranges from_entries offset_move
  from_state it IndexIterState.init = from_ranges it.limit it.ranges it.offset
  from_state it (IndexIterState.range entries) =
      from_entries (from_ranges it.limit it.ranges) it.limit it.ranges
        (offset_move it.offset entries)
  from_state it IndexIterState.over = ok (none, it)

  unfoldable pub next_limited : IndexIter R → Option ℕ → Result Step
  unfolding from_state
  next_limited it (some zero) = ok (none, record it { state = IndexIterState.over })
  next_limited it limit = from_state it it.state

  unfoldable pub next_tuple : IndexIter R → Result Step
  unfolding next_limited
  next_tuple it = next_limited it it.limit

  -- The loop of an executor over the iterator: the rows that it yields. It is a panic here when the
  -- rounds run out.
  unfoldable pub drain : ℕ → IndexIter R → Result (List Row)
  unfolding next_tuple
  drain zero it = panic
  drain (suc rounds) it = do
    (tuple, it') ← next_tuple it
    elim tuple [ none ↦ ok [] | some row ↦ do rows ← drain rounds it'; ok (row ∷ rows) ]

-- `TupleIter` over the values of the entries of a table's scan; `decode` is `decode_tuple` with the
-- columns that the iterator holds.
pub record TupleIter : Type 0 where
  pub offset : ℕ
  pub limit : Option ℕ
  pub iter : List (List ℕ)

module _ {Row : Type 0} (decode : List ℕ → Result Row) where
  unfoldable pub limited_tuple : Option ℕ → List ℕ → List (List ℕ) → Result (Option Row × TupleIter)
  limited_tuple (some zero) bytes rest =
      ok (none, record { offset = 0; limit = some 0; iter = rest })
  limited_tuple limit bytes rest = do
    row ← decode bytes
    ok (some row, record { offset = 0; limit = limit_sub limit; iter = rest })

  unfoldable pub next_stored : Option ℕ → ℕ → List (List ℕ) → Result (Option Row × TupleIter)
  unfolding limited_tuple
  next_stored limit offset [] = ok (none, record { offset = offset; limit = limit; iter = [] })
  next_stored limit zero (bytes ∷ rest) = limited_tuple limit bytes rest
  next_stored limit (suc offset) (bytes ∷ rest) = next_stored limit offset rest

  -- `TupleIter::next_tuple`
  unfoldable pub next_scanned : TupleIter → Result (Option Row × TupleIter)
  unfolding next_stored
  next_scanned it = next_stored it.limit it.offset it.iter

  unfoldable pub drain_scan : ℕ → TupleIter → Result (List Row)
  unfolding next_scanned
  drain_scan zero it = panic
  drain_scan (suc rounds) it = do
    (tuple, it') ← next_scanned it
    elim tuple [ none ↦ ok [] | some row ↦ do rows ← drain_scan rounds it'; ok (row ∷ rows) ]

module _ (db : KeyValue) (sip_hash : List ℕ → ℕ) (f : Foreign)
    (serialize_decimal : f.Decimal → List ℕ → Result (List ℕ))
    (read_tuple_id : List ℕ → Result (DataValue f.Decimal))
    (cast : DataValue f.Decimal → LogicalType → Result (DataValue f.Decimal)) where
  abbrev V : Type 0
  V = DataValue f.Decimal

  unfoldable pub try_cast : IndexImplParams → V → Result V
  unfolding logical_type type_eq
  try_cast params val =
      if type_eq (logical_type val) params.value_ty then ok val else cast val params.value_ty

  -- `bound_key` of the four kinds of index.
  unfoldable pub bound_key : IndexImplParams → IndexType → V → Bool → Result (List ℕ)
  bound_key params (IndexType.primary_key is_multiple) value is_upper =
      encode_tuple_key sip_hash serialize_decimal params.table_name value
  bound_key params IndexType.unique value is_upper =
      encode_index_key sip_hash serialize_decimal params.table_name
        (record { id = params.index_id; value = value; ty = IndexType.unique }) none
  bound_key params ty value is_upper =
      encode_index_bound_key sip_hash serialize_decimal params.table_name
        (record { id = params.index_id; value = value; ty = ty }) is_upper

  module _ (tx : db.State) where
    unfoldable pub params_tuple_by_id : IndexImplParams → V → Result (Option (Tuple f.Decimal))
    params_tuple_by_id params tuple_id =
        get_tuple_by_id db sip_hash f serialize_decimal tx params.table_name params.table_types
          params.pk_indices params.projections params.with_pk tuple_id

    unfoldable pub secondary_index_lookup : IndexImplParams → List ℕ → Result (Tuple f.Decimal)
    unfolding params_tuple_by_id
    secondary_index_lookup params bytes = do
      tuple_id ← read_tuple_id bytes
      row ← params_tuple_by_id params tuple_id
      ok_or DatabaseError.tuple_id_not_found row

    -- `index_lookup` of the four kinds of index.
    unfoldable pub index_lookup : IndexImplParams → IndexType → List ℕ → Result (Tuple f.Decimal)
    unfolding secondary_index_lookup
    index_lookup params (IndexType.primary_key is_multiple) bytes =
        deserialize_from f params.table_types params.pk_indices params.projections bytes
          params.with_pk
    index_lookup params ty bytes = secondary_index_lookup params bytes

    unfoldable pub unique_found :
        IndexImplParams → Option (List ℕ) → Result (IndexResult (Tuple f.Decimal))
    unfolding secondary_index_lookup
    unique_found params none = ok (found none)
    unique_found params (some bytes) = do
      row ← secondary_index_lookup params bytes
      ok (found (some row))

    abbrev values_of : List (List ℕ × List ℕ) → List (List ℕ)
    values_of entries = map (λ entry. entry.1) entries

    -- `eq_to_res` of the four kinds of index.
    unfoldable pub eq_to_res :
        IndexImplParams → IndexType → V → Result (IndexResult (Tuple f.Decimal))
    unfolding params_tuple_by_id unique_found bound_key
    eq_to_res params (IndexType.primary_key is_multiple) value = do
      row ← params_tuple_by_id params value
      ok (found row)
    eq_to_res params IndexType.unique value = do
      key ← bound_key params IndexType.unique value false
      stored ← db.get tx key
      unique_found params stored
    eq_to_res params ty value = do
      min ← bound_key params ty value false
      max ← bound_key params ty value true
      entries ← db.range tx (included min) (included max)
      ok (scanned (values_of entries))

    -- `bound_encode` with `check_bound`.
    unfoldable pub bound_encode :
        IndexImplParams → Bound V → Bool → List ℕ → Result (Bound (List ℕ))
    unfolding try_cast bound_key
    bound_encode params (included val) is_upper outer = do
      val' ← try_cast params val
      key ← bound_key params params.ty val' is_upper
      ok (included key)
    bound_encode params (excluded val) is_upper outer = do
      val' ← try_cast params val
      key ← bound_key params params.ty val' is_upper
      ok (excluded key)
    bound_encode params unbounded is_upper outer = ok (included outer)

    abbrev outer_bound : IndexImplParams → List ℕ × List ℕ
    outer_bound params =
        if is_primary params.ty
        then tuple_bound sip_hash params.table_name
        else index_bound sip_hash params.table_name params.index_id

    -- The arms of `next_tuple` on a range.
    unfoldable pub resolve : IndexImplParams → Range V → Result (IndexResult (Tuple f.Decimal))
    unfolding bound_encode eq_to_res try_cast
    resolve params (scope min max) = do
      encode_min ← bound_encode params min false ((outer_bound params).0)
      encode_max ← bound_encode params max true ((outer_bound params).1)
      entries ← db.range tx encode_min encode_max
      ok (scanned (values_of entries))
    resolve params (eq_value val) = do val' ← try_cast params val; eq_to_res params params.ty val'
    resolve params _ = ok skipped

    unfoldable pub next_index_tuple :
        IndexImplParams
        → IndexIter (Range V)
        → Result (Option (Tuple f.Decimal) × IndexIter (Range V))
    unfolding next_tuple resolve index_lookup
    next_index_tuple params it = next_tuple (resolve params) (index_lookup params params.ty) it
