-- ===== src/Storage/Transaction/Rows.antt =====
-- Rows under their keys: `append_tuple`, `remove_tuple` and `get_tuple_by_id` of src/storage/mod.rs.
use kite_sql.Prelude.{
  ℕ, ◌≡◌, ◌≢◌, refl, ◌⊎◌, inl, inr, Bool, true, false, none, some, List, Result, ok, err, panic,
  panic, DatabaseError, ◌>>=◌,
}
use kite_sql.Types.Logical.{LogicalType}
use kite_sql.Types.Value.{Foreign, DataValue}
use kite_sql.Types.Value.RoundTrip.{DecimalLaws}
use kite_sql.Types.Tuple.{serialize_to, read_key}
use kite_sql.Types.Tuple.Written.{Row}
use kite_sql.Types.Tuple.Read.{Selects}
use kite_sql.Types.Tuple.RoundTrip.{deserialize_from-serialize_to}
use kite_sql.Storage.TableCodec.{encode_tuple, encode_tuple_key}
use kite_sql.Storage.Transaction.{
  KeyValue, append_entry, append_tuple, get_tuple_by_id, decode_found,
}
use kite_sql.Storage.Transaction.Store.{Works}

bind_some :
    {K R : Type 0} (r : Result K) (g : K → R)
    → ((r >>= λ k. ok (g k)) >>= λ row. ok (some row)) ≡ (r >>= λ k. ok (some (g k)))
bind_some (ok k) g = refl
bind_some (err e) g = refl
bind_some panic g = refl

module _ (sip_hash : List ℕ → ℕ) (f : Foreign) (laws : DecimalLaws f)
    (serialize_decimal : f.Decimal → List ℕ → Result (List ℕ)) (db : KeyValue) (w : Works db) where
  open w use {view, get_lem, set_lem, remove_lem}

  append_entry_lem :
      (s : db.State) (is_overwrite : Bool) (key value : List ℕ)
      → (is_overwrite ≡ true) ⊎ (view s key ≡ none)
      → append_entry db sip_hash f serialize_decimal s is_overwrite (key, value)
        ≡ db.set s key value
  unfolding append_entry
  append_entry_lem s true key value free = refl
  append_entry_lem s false key value (inl e) = absurd (cc)
  append_entry_lem s false key value (inr e) = rw (get_lem s key, e) refl

  -- On a store that does not fail: a row whose values fit their columns or are null, with a primary
  -- key that can be encoded, is appended when its key is free or overwriting is asked for. Looking
  -- the key up then gives the values at the projected columns (in ascending order, with every null
  -- column before the last of them projected), and all other keys hold what they held.
  pub get_tuple_by_id-append_tuple :
      {tys : List LogicalType} {vs out : List (DataValue f.Decimal)} {projections : List ℕ}
      (s : db.State) (name key : List ℕ) (tuple_id : DataValue f.Decimal) (pk_indices : List ℕ)
      (is_overwrite with_pk : Bool)
      → Row tys vs
      → Selects 0 projections vs out
      → encode_tuple_key sip_hash serialize_decimal name tuple_id ≡ ok key
      → (is_overwrite ≡ true) ⊎ (view s key ≡ none)
      → (s' : db.State) × (append_tuple db sip_hash f serialize_decimal s name
            (record { pk = some tuple_id; values = vs })
            is_overwrite
          ≡ ok s')
        × (get_tuple_by_id db sip_hash f serialize_decimal s' name tys pk_indices projections
              with_pk tuple_id
            ≡ (read_key with_pk pk_indices out >>= λ pk.
                ok (some (record { pk = pk; values = out }))))
        × ((j : List ℕ) → j ≢ key → view s' j ≡ view s j)
  unfolding append_tuple get_tuple_by_id decode_found encode_tuple
  get_tuple_by_id-append_tuple {tys} {vs} {out} {projections} s name key tuple_id pk_indices
        is_overwrite with_pk row selects encoded free =
      let (bytes, written, picked, read) =
        deserialize_from-serialize_to f laws {tys = tys} {vs = vs} {out = out}
          {projections = projections} (some tuple_id) pk_indices with_pk row selects in
      let (s', e, at, same) = set_lem s key bytes in
      (
        s',
        rw (encoded, written, append_entry_lem s is_overwrite key bytes free) e,
        rw (encoded, get_lem s' key, at, read) (bind_some (read_key with_pk pk_indices out) _),
        same,
      )

  -- On a store that does not fail: a row with the key of a stored one is refused unless overwriting is
  -- asked for, whatever its values, provided that they can be written.
  pub append_tuple-duplicate :
      (s : db.State) (name key stored bytes : List ℕ) (tuple_id : DataValue f.Decimal)
      (vs : List (DataValue f.Decimal))
      → encode_tuple_key sip_hash serialize_decimal name tuple_id ≡ ok key
      → serialize_to f (record { pk = some tuple_id; values = vs }) ≡ ok bytes
      → view s key ≡ some stored
      → append_tuple db sip_hash f serialize_decimal s name
          (record { pk = some tuple_id; values = vs })
          false
        ≡ err DatabaseError.duplicate_primary_key
  unfolding append_tuple append_entry encode_tuple
  append_tuple-duplicate s name key stored bytes tuple_id vs encoded written taken =
      rw (encoded, written, get_lem s key, taken) refl
