-- ===== src/Storage/Transaction/Drop.antt =====
-- What `drop_data` and `drop_table` of src/storage/mod.rs take out of the store.
use kite_sql.Prelude.{
  ℕ, ◌<◌, ◌≡◌, ◌≢◌, refl, ap, ◌∙◌, ◌⊎◌, inl, inr, Bool, true, false, Bool-cases, if◌then◌else◌,
  none, List, [], ◌∷◌, Result, ok, arith,
}
use kite_sql.Types.Bytes.{byte_range, to_le_bytes}
use kite_sql.Types.Value.Memcomparable.{bound_min_tag, bound_max_tag}
use kite_sql.Storage.TableCodec.{
  CodecType, key_prefix, hash_bytes, tuple_bound, all_index_bound, statistics_bound, columns_bound,
  index_meta_bound, encode_root_table_key, encode_table_hash_key,
}
use kite_sql.Storage.TableCodec.Bounds.{in_range}
use kite_sql.Storage.TableCodec.Prefix.{Appends}
use kite_sql.Storage.TableCodec.Keys.{
  ScanOf, of_columns, of_index_metas, of_indexes, of_statistics, of_tuples, KeyOf, column_key,
  index_meta_key, index_key, statistics_key, tuple_key,
}
use kite_sql.Storage.TableCodec.Scans.{in_range-KeyOf}
use kite_sql.Storage.Transaction.{
  KeyValue, drop_data, drop_found, drop_name_hash, drop_looked_up, drop_table,
}
use kite_sql.Storage.Transaction.Store.{Works, SharesPrefix, removed, drop_range_lem, key_discrete}

-- The types of what `drop_data` drops.
abbrev pub IsData : CodecType → Type 0
IsData ty = (CodecType.tuple ≡ ty) ⊎ ((CodecType.index ≡ ty) ⊎ (CodecType.statistics ≡ ty))

-- The bounds of a scan share the table's hash and the type's tag.
ScanOf-SharesPrefix :
    (sip_hash : List ℕ → ℕ) {ty : CodecType} {name : List ℕ} {bound : List ℕ × List ℕ}
    → ScanOf sip_hash ty name bound
    → SharesPrefix bound
unfolding tuple_bound all_index_bound statistics_bound columns_bound index_meta_bound key_prefix
    hash_bytes to_le_bytes
ScanOf-SharesPrefix sip_hash (of_columns name) = (
  key_prefix sip_hash CodecType.column name,
  bound_min_tag ∷ [],
  bound_max_tag ∷ [],
  omega arith,
  refl,
)
ScanOf-SharesPrefix sip_hash (of_index_metas name) = (
  key_prefix sip_hash CodecType.index_meta name,
  bound_min_tag ∷ [],
  bound_max_tag ∷ [],
  omega arith,
  refl,
)
ScanOf-SharesPrefix sip_hash (of_indexes name) = (
  key_prefix sip_hash CodecType.index name,
  bound_min_tag ∷ [],
  bound_max_tag ∷ [],
  omega arith,
  refl,
)
ScanOf-SharesPrefix sip_hash (of_statistics name) = (
  key_prefix sip_hash CodecType.statistics name,
  bound_min_tag ∷ [],
  bound_max_tag ∷ [],
  omega arith,
  refl,
)
ScanOf-SharesPrefix sip_hash (of_tuples name) = (
  key_prefix sip_hash CodecType.tuple name,
  bound_min_tag ∷ [],
  bound_max_tag ∷ [],
  omega arith,
  refl,
)

module _ (sip_hash : List ℕ → ℕ) (is_u64 : (name : List ℕ) → sip_hash name < byte_range 8)
    {D : Type 0} (serialize_decimal : D → List ℕ → Result (List ℕ))
    (appends : Appends serialize_decimal) where
  -- A key outside the scan of another type or table.
  missed :
      {ty ty' : CodecType} {name name' key : List ℕ} {bound : List ℕ × List ℕ}
      → ScanOf sip_hash ty name bound
      → KeyOf sip_hash serialize_decimal ty' name' key
      → ¬ ((sip_hash name ≡ sip_hash name') × (ty ≡ ty'))
      → in_range bound key ≡ false
  missed {key = key} {bound = bound} scan written other = elim (Bool-cases (in_range bound key)) [
    | inl h ↦
        absurd (other ((in_range-KeyOf sip_hash is_u64 serialize_decimal appends scan written).0 h))
    | inr h ↦ h
  ]

  found :
      {ty : CodecType} {name name' key : List ℕ} {bound : List ℕ × List ℕ}
      → ScanOf sip_hash ty name bound
      → KeyOf sip_hash serialize_decimal ty name' key
      → sip_hash name ≡ sip_hash name'
      → in_range bound key ≡ true
  found scan written same =
      (in_range-KeyOf sip_hash is_u64 serialize_decimal appends scan written).1 (same, refl)

  -- One of the scans of a table finds each of its keys.
  abbrev Scanned : List ℕ → List ℕ → Type 0
  Scanned name key =
      (in_range (index_meta_bound sip_hash name) key ≡ true)
      ⊎ ((in_range (columns_bound sip_hash name) key ≡ true)
          ⊎ ((in_range (statistics_bound sip_hash name) key ≡ true)
              ⊎ ((in_range (all_index_bound sip_hash name) key ≡ true)
                  ⊎ (in_range (tuple_bound sip_hash name) key ≡ true))))

  KeyOf-Scanned :
      {ty : CodecType} {name' key : List ℕ} (name : List ℕ)
      → KeyOf sip_hash serialize_decimal ty name' key
      → sip_hash name ≡ sip_hash name'
      → Scanned name key
  KeyOf-Scanned name (column_key id n k bytes encoded e) same =
      inr (inl (found (of_columns name) (column_key id n k bytes encoded e) same))
  KeyOf-Scanned name (index_meta_key n id k e) same =
      inl (found (of_index_metas name) (index_meta_key n id k e) same)
  KeyOf-Scanned name (index_key n entry tuple_id k e) same =
      inr (inr (inr (inl (found (of_indexes name) (index_key n entry tuple_id k e) same))))
  KeyOf-Scanned name (statistics_key n id) same =
      inr (inr (inl (found (of_statistics name) (statistics_key n id) same)))
  KeyOf-Scanned name (tuple_key n tuple_id k e) same =
      inr (inr (inr (inr (found (of_tuples name) (tuple_key n tuple_id k e) same))))

  module _ (db : KeyValue) (w : Works db) where
    open w use {view}

    -- The three scans, one after the other.
    drop_data_scans :
        (s : db.State) (name : List ℕ)
        → (s' : db.State) × (drop_data db sip_hash s name ≡ ok s')
          × ((key : List ℕ)
              → view s' key ≡ (
                  if in_range (statistics_bound sip_hash name) key
                  then none
                  else if in_range (all_index_bound sip_hash name) key
                  then none
                  else if in_range (tuple_bound sip_hash name) key
                  then none
                  else view s key))
    unfolding drop_data
    drop_data_scans s name =
        let (s1, e1, c1) =
          drop_range_lem db w s (tuple_bound sip_hash name)
            (ScanOf-SharesPrefix sip_hash (of_tuples name)) in
        let (s2, e2, c2) =
          drop_range_lem db w s1 (all_index_bound sip_hash name)
            (ScanOf-SharesPrefix sip_hash (of_indexes name)) in
        let (s3, e3, c3) =
          drop_range_lem db w s2 (statistics_bound sip_hash name)
            (ScanOf-SharesPrefix sip_hash (of_statistics name)) in
        (s3, rw (e1, e2) e3, λ key. rw (← c1 key, ← c2 key) (c3 key))

    -- On a store that does not fail, hashes being 64-bit words and the key of a decimal being written
    -- behind what the buffer holds: `drop_data` succeeds. Of the keys that are written for columns,
    -- index descriptions, index entries, statistics and rows of any table, those of rows, index
    -- entries and statistics of the tables with the same hash are gone then, and every other holds
    -- what it held.
    pub drop_data_lem :
        (s : db.State) (name : List ℕ)
        → (s' : db.State) × (drop_data db sip_hash s name ≡ ok s')
          × ((ty : CodecType) (name' key : List ℕ)
              → KeyOf sip_hash serialize_decimal ty name' key
              → ((sip_hash name ≡ sip_hash name') × IsData ty → view s' key ≡ none)
                × (¬ ((sip_hash name ≡ sip_hash name') × IsData ty) → view s' key ≡ view s key))
    drop_data_lem s name =
        let (s', e, after) = drop_data_scans s name in
        (
          s',
          e,
          λ ty name' key written. (
            λ both. elim (both.1) [
              | inl t ↦
                  let hit =
                    (in_range-KeyOf sip_hash is_u64 serialize_decimal appends (of_tuples name)
                        written).1
                      (both.0, t) in
                  let whole = after key in ground (arith, hit, whole)
              | inr (inl t) ↦
                  let hit =
                    (in_range-KeyOf sip_hash is_u64 serialize_decimal appends (of_indexes name)
                        written).1
                      (both.0, t) in
                  let whole = after key in ground (arith, hit, whole)
              | inr (inr t) ↦
                  let hit =
                    (in_range-KeyOf sip_hash is_u64 serialize_decimal appends (of_statistics name)
                        written).1
                      (both.0, t) in
                  let whole = after key in ground (arith, hit, whole)
            ],
            λ other.
                let tuples = missed (of_tuples name) written (λ h. other (h.0, inl h.1)) in
                let indexes = missed (of_indexes name) written (λ h. other (h.0, inr (inl h.1))) in
                let paths = missed (of_statistics name) written (λ h. other (h.0, inr (inr h.1))) in
                rw (tuples, indexes, paths) at (after key),
          ),
        )

    -- The removals of `drop_table`: two keys and five scans.
    drop_found_scans :
        (s : db.State) (name : List ℕ)
        → (s' : db.State) × (drop_found db sip_hash s name ≡ ok s')
          × (view s' (encode_table_hash_key sip_hash name) ≡ none)
          × (view s' (encode_root_table_key sip_hash name) ≡ none)
          × ((key : List ℕ)
              → key ≢ encode_table_hash_key sip_hash name
              → key ≢ encode_root_table_key sip_hash name
              → view s' key ≡ (
                  if in_range (index_meta_bound sip_hash name) key
                  then none
                  else if in_range (columns_bound sip_hash name) key
                  then none
                  else if in_range (statistics_bound sip_hash name) key
                  then none
                  else if in_range (all_index_bound sip_hash name) key
                  then none
                  else if in_range (tuple_bound sip_hash name) key
                  then none
                  else view s key))
    unfolding drop_found drop_name_hash
    drop_found_scans s name =
        let hash_key = encode_table_hash_key sip_hash name in
        let root_key = encode_root_table_key sip_hash name in
        let (s1, e1, gone1, same1, stay1) = removed db w s hash_key in
        let (s2, e2, c2) = drop_data_scans s1 name in
        let (s3, e3, c3) =
          drop_range_lem db w s2 (columns_bound sip_hash name)
            (ScanOf-SharesPrefix sip_hash (of_columns name)) in
        let (s4, e4, c4) =
          drop_range_lem db w s3 (index_meta_bound sip_hash name)
            (ScanOf-SharesPrefix sip_hash (of_index_metas name)) in
        let (s5, e5, gone5, same5, stay5) = removed db w s4 root_key in
        let first = gone1 hash_key refl in
        let h2 = c2 hash_key in
        let h3 = c3 hash_key in
        let h4 = c4 hash_key in
        (
          s5,
          rw (e1, e2, e3, e4) e5,
          stay5 hash_key (ground (arith, first, h2, h3, h4)),
          gone5 root_key refl,
          λ key not_hash not_root.
              same5 key not_root ∙ (rw (← same1 key not_hash, ← c2 key, ← c3 key) (c4 key)),
        )

    -- On a store that does not fail, with the hypotheses on hashes and decimals of `drop_data_lem`:
    -- `drop_table` of a table that the lookup finds succeeds and takes the table out of the cache. The
    -- table's root key and the key of its hash are gone then. Of all keys of columns, index
    -- descriptions, index entries, statistics and rows, those of the tables with the same hash are
    -- gone, and one of a table with another hash holds what it held, unless it is the root key or the
    -- hash key.
    pub drop_table_lem :
        {Cache : Type 0} (table : db.State → Cache → List ℕ → Result (Bool × Cache))
        (forget : Cache → List ℕ → Cache) (s : db.State) (cache cache' : Cache) (name : List ℕ)
        (if_exists : Bool)
        → table s cache name ≡ ok (true, cache')
        → (s' : db.State) × (drop_table db sip_hash table forget s cache name if_exists
            ≡ ok (s', forget cache' name))
          × (view s' (encode_table_hash_key sip_hash name) ≡ none)
          × (view s' (encode_root_table_key sip_hash name) ≡ none)
          × ((ty : CodecType) (name' key : List ℕ)
              → KeyOf sip_hash serialize_decimal ty name' key
              → (sip_hash name ≡ sip_hash name' → view s' key ≡ none)
                × (sip_hash name ≢ sip_hash name'
                    → key ≢ encode_table_hash_key sip_hash name
                    → key ≢ encode_root_table_key sip_hash name
                    → view s' key ≡ view s key))
    unfolding drop_table drop_looked_up
    drop_table_lem table forget s cache cache' name if_exists looked_up =
        let (s', e, no_hash, no_root, after) = drop_found_scans s name in
        (
          s',
          rw (looked_up, e) refl,
          no_hash,
          no_root,
          λ ty name' key written. (
            λ same. elim (key_discrete key (encode_table_hash_key sip_hash name)) [
              | yes p ↦ ap (view s') p ∙ no_hash
              | no not_hash ↦ elim (key_discrete key (encode_root_table_key sip_hash name)) [
                | yes p ↦ ap (view s') p ∙ no_root
                | no not_root ↦
                    let scanned = KeyOf-Scanned name written same in
                    let whole = after key not_hash not_root in ground (arith, scanned, whole)
              ]
            ],
            λ other not_hash not_root.
                let metas = missed (of_index_metas name) written (λ h. other h.0) in
                let columns = missed (of_columns name) written (λ h. other h.0) in
                let paths = missed (of_statistics name) written (λ h. other h.0) in
                let indexes = missed (of_indexes name) written (λ h. other h.0) in
                let tuples = missed (of_tuples name) written (λ h. other h.0) in
                rw (metas, columns, paths, indexes, tuples) at (after key not_hash not_root),
          ),
        )
