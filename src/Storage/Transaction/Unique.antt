-- ===== src/Storage/Transaction/Unique.antt =====
-- Unique indexes: what `add_index` and `del_index` of src/storage/mod.rs do under one value.
use Prim.Native.Nat.{Ordering}
use kite_sql.Prelude.{
  ℕ, ◌≡◌, ◌≢◌, refl, true, false, Bool-cases, inl, inr, none, some, List, Result, ok, err,
  DatabaseError,
}
use kite_sql.Types.Value.{DataValue, compare_bytes}
use kite_sql.Storage.TableCodec.{
  IndexType, Index, encode_index, encode_index_key, encode_index_bound_key,
}
use kite_sql.Storage.TableCodec.Bounds.{compare_bytes-eq, compare_bytes_self}
use kite_sql.Storage.Transaction.{KeyValue, same_bytes, add_unique, add_entry, add_index, del_index}
use kite_sql.Storage.Transaction.Store.{Works}

Ordering-eq : (o : Ordering) → (elim o [ Ordering.eq ↦ true | _ ↦ false ]) ≡ true → o ≡ Ordering.eq
Ordering-eq Ordering.eq h = refl
Ordering-eq Ordering.lt h = absurd (cc)
Ordering-eq Ordering.gt h = absurd (cc)

pub same_bytes→≡ : (a b : List ℕ) → same_bytes a b ≡ true → a ≡ b
same_bytes→≡ a b same = compare_bytes-eq a b (Ordering-eq (compare_bytes a b) same)

pub same_bytes-ne : (a b : List ℕ) → a ≢ b → same_bytes a b ≡ false
same_bytes-ne a b h = elim (Bool-cases (same_bytes a b)) [
  | inl same ↦ absurd (h (same_bytes→≡ a b same))
  | inr other ↦ other
]

pub same_bytes_self : (a : List ℕ) → same_bytes a a ≡ true
same_bytes_self a = rw (same_bytes, compare_bytes_self a) refl

module _ (sip_hash : List ℕ → ℕ) {D : Type 0} (serialize_decimal : D → List ℕ → Result (List ℕ))
    (serialize_into : DataValue D → Result (List ℕ)) (db : KeyValue) (w : Works db) where
  open w use {view, get_lem, set_lem, remove_lem}

  -- The key of a unique index does not hold the row's.
  encode_index_unique :
      (name key bytes : List ℕ) (entry : Index D) (tuple_id : DataValue D)
      → entry.ty ≡ IndexType.unique
      → encode_index_bound_key sip_hash serialize_decimal name entry false ≡ ok key
      → serialize_into tuple_id ≡ ok bytes
      → encode_index sip_hash serialize_decimal serialize_into name entry tuple_id ≡ ok (key, bytes)
  unfolding encode_index encode_index_key
  encode_index_unique name key bytes entry tuple_id unique encoded written =
      rw (encoded, unique, written) refl

  -- On a store that does not fail: after the entry of a row was added to a unique index whose key was
  -- free, the entry of the same row under the value is accepted again and changes nothing, the entry
  -- of another row is refused, and all other keys hold what they held. Rows are told apart by what
  -- bincode writes for their keys.
  pub add_index-add_index :
      (s : db.State) (name key bytes bytes' : List ℕ) (entry : Index D)
      (tuple_id tuple_id' : DataValue D)
      → entry.ty ≡ IndexType.unique
      → encode_index_bound_key sip_hash serialize_decimal name entry false ≡ ok key
      → serialize_into tuple_id ≡ ok bytes
      → serialize_into tuple_id' ≡ ok bytes'
      → view s key ≡ none
      → (s' : db.State) × (add_index db sip_hash serialize_decimal serialize_into s name entry
            tuple_id
          ≡ ok s')
        × (bytes ≡ bytes'
            → add_index db sip_hash serialize_decimal serialize_into s' name entry tuple_id'
              ≡ ok s')
        × (bytes ≢ bytes'
            → add_index db sip_hash serialize_decimal serialize_into s' name entry tuple_id'
              ≡ err DatabaseError.duplicate_unique_value)
        × ((j : List ℕ) → j ≢ key → view s' j ≡ view s j)
  unfolding add_index add_entry add_unique
  add_index-add_index s name key bytes bytes' entry tuple_id tuple_id' unique encoded written
        written' free =
      let first = encode_index_unique name key bytes entry tuple_id unique encoded written in
      let second = encode_index_unique name key bytes' entry tuple_id' unique encoded written' in
      let (s', e, at, same) = set_lem s key bytes in
      (
        s',
        rw (first, unique, get_lem s key, free) e,
        λ equal. rw (second, unique, get_lem s' key, at, ← equal, same_bytes_self bytes) refl,
        λ other. rw (second, unique, get_lem s' key, at, same_bytes-ne bytes bytes' other) refl,
        same,
      )

  -- On a store that does not fail: after the entry of a row was added to a unique index and deleted
  -- again, the entry of any row can be added under the value.
  pub add_index-del_index :
      (s : db.State) (name key bytes : List ℕ) (entry : Index D) (tuple_id tuple_id' : DataValue D)
      → entry.ty ≡ IndexType.unique
      → encode_index_bound_key sip_hash serialize_decimal name entry false ≡ ok key
      → serialize_into tuple_id' ≡ ok bytes
      → (s' s'' : db.State) × (del_index db sip_hash serialize_decimal serialize_into s name entry
            tuple_id
          ≡ ok s')
        × (add_index db sip_hash serialize_decimal serialize_into s' name entry tuple_id' ≡ ok s'')
        × (view s'' key ≡ some bytes)
  unfolding add_index add_entry add_unique del_index encode_index_key
  add_index-del_index s name key bytes entry tuple_id tuple_id' unique encoded written =
      let second = encode_index_unique name key bytes entry tuple_id' unique encoded written in
      let (s', e, gone, same) = remove_lem s key in
      let (s'', e', at, same') = set_lem s' key bytes in
      (s', s'', rw (unique, encoded) e, rw (second, unique, get_lem s' key, gone) e', at)
