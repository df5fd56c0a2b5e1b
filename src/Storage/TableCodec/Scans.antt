-- ===== src/Storage/TableCodec/Scans.antt =====
-- The scans of src/storage/table_codec.rs against the keys that are written: what a scan yields.
use kite_sql.Prelude.{
  ℕ, ◌≤◌, ◌<◌, ◌≡◌, refl, sym, ap, ◌∙◌, ◌↔◌, ◌⊎◌, inl, inr, true, Option, List, [], ◌∷◌, ◌++◌,
  arith, length, length-append, Result, ok,
}
use mathlib.Core.List.{append_assoc}
use kite_sql.Types.Bytes.{
  to_le_bytes, from_le_bytes, from_le_bytes-to_le_bytes, length-to_le_bytes, byte_range,
}
use kite_sql.Types.Value.{DataValue}
use kite_sql.Storage.TableCodec.{
  CodecType, Index, hash_bytes, key_prefix, tuple_bound, index_meta_bound, index_bound,
  index_prefix, all_index_bound, table_bound, columns_bound, statistics_bound, encode_index_key,
  tagged_bound,
}
use kite_sql.Storage.TableCodec.Bounds.{in_range, in_range-append, in_range-tag, in_range-tagged}
use kite_sql.Storage.TableCodec.Prefix.{Appends}
use kite_sql.Storage.TableCodec.Keys.{
  ScanOf, of_columns, of_index_metas, of_indexes, of_statistics, of_tuples, KeyOf, KeyOf-IsTagged,
  tag, type_of_tag, tagged_key, encode_index_key-StartsWith,
}

le_antisymm : {a b : ℕ} → a ≤ b → b ≤ a → a ≡ b
le_antisymm p q = omega arith

between_tags : (t : ℕ) → b'0' ≤ t → t ≤ b'1' → (t ≡ b'0') ⊎ (t ≡ b'1')
between_tags t p q = ground arith

append-injective :
    (xs ys us vs : List ℕ) → length xs ≡ length ys → xs ++ us ≡ ys ++ vs → (xs ≡ ys) × (us ≡ vs)
append-injective [] [] us vs h e = (refl, e)
append-injective [] (y ∷ ys) us vs h e = absurd (omega arith)
append-injective (x ∷ xs) [] us vs h e = absurd (omega arith)
append-injective (x ∷ xs) (y ∷ ys) us vs h e =
    let first : x ≡ y = cc in
    let behind : xs ++ us ≡ ys ++ vs = cc in
    let (p, q) = append-injective xs ys us vs (omega arith) behind in (cc, q)

module _ (sip_hash : List ℕ → ℕ) (is_u64 : (name : List ℕ) → sip_hash name < byte_range 8) where
  hash_bytes-injective :
      (n m : List ℕ) → (hash_bytes sip_hash n ≡ hash_bytes sip_hash m) ↔ (sip_hash n ≡ sip_hash m)
  unfolding hash_bytes
  hash_bytes-injective n m =
      let p = from_le_bytes-to_le_bytes 8 (sip_hash n) (is_u64 n) in
      let q = from_le_bytes-to_le_bytes 8 (sip_hash m) (is_u64 m) in
      (λ e. sym p ∙ ap from_le_bytes e ∙ q, ap (to_le_bytes 8))

  length-hash_bytes :
      (n m : List ℕ) → length (hash_bytes sip_hash n) ≡ length (hash_bytes sip_hash m)
  unfolding hash_bytes
  length-hash_bytes n m =
      length-to_le_bytes 8 (sip_hash n) ∙ sym (length-to_le_bytes 8 (sip_hash m))

  -- Two tags below one hash, and a key of another.
  in_range-tagged_key :
      (n m rest : List ℕ) (a b t : ℕ)
      → (in_range
            (
              (hash_bytes sip_hash n ++ (a ∷ [])) ++ (0 ∷ []),
              (hash_bytes sip_hash n ++ (b ∷ [])) ++ (255 ∷ []),
            )
            (tagged_key sip_hash m t rest)
          ≡ true)
        ↔ ((sip_hash n ≡ sip_hash m) × (a ≤ t) × (t ≤ b))
  in_range-tagged_key n m rest a b t =
      let lower = append_assoc (hash_bytes sip_hash n) (a ∷ []) (0 ∷ []) in
      let upper = append_assoc (hash_bytes sip_hash n) (b ∷ []) (255 ∷ []) in
      let behind =
        in_range-append (hash_bytes sip_hash n) (hash_bytes sip_hash m) (a ∷ 0 ∷ []) (b ∷ 255 ∷ [])
          (t ∷ 0 ∷ rest) (length-hash_bytes n m) in
      let tags = in_range-tag a b t rest in
      let hashes = hash_bytes-injective n m in ground (arith, lower, upper, behind, tags, hashes)

  scan_tagged :
      {ty : CodecType} {name : List ℕ} {bound : List ℕ × List ℕ}
      → ScanOf sip_hash ty name bound
      → (bound ≡ tagged_bound (hash_bytes sip_hash name ++ (tag ty ∷ [])))
        × (type_of_tag (tag ty) ≡ ty)
  unfolding columns_bound index_meta_bound all_index_bound statistics_bound tuple_bound key_prefix
  scan_tagged (of_columns name) = (refl, refl)
  scan_tagged (of_index_metas name) = (refl, refl)
  scan_tagged (of_indexes name) = (refl, refl)
  scan_tagged (of_statistics name) = (refl, refl)
  scan_tagged (of_tuples name) = (refl, refl)

  abbrev index_head : List ℕ → List ℕ
  index_head name = (hash_bytes sip_hash name ++ (b'3' ∷ [])) ++ (0 ∷ [])

  length-index_head : (n m : List ℕ) → length (index_head n) ≡ length (index_head m)
  length-index_head n m = omega (
    arith,
    length-append (hash_bytes sip_hash n ++ (b'3' ∷ [])) (0 ∷ []),
    length-append (hash_bytes sip_hash m ++ (b'3' ∷ [])) (0 ∷ []),
    length-append (hash_bytes sip_hash n) (b'3' ∷ []),
    length-append (hash_bytes sip_hash m) (b'3' ∷ []),
    length-hash_bytes n m,
  )

  length-index_prefix :
      (n m : List ℕ) (i j : ℕ)
      → length (index_prefix sip_hash n i) ≡ length (index_prefix sip_hash m j)
  unfolding key_prefix
  length-index_prefix n m i j = omega (
    arith,
    length-append (index_head n) (to_le_bytes 4 i),
    length-append (index_head m) (to_le_bytes 4 j),
    length-index_head n m,
    length-to_le_bytes 4 i,
    length-to_le_bytes 4 j,
  )

  index_prefix-injective :
      (n m : List ℕ) (i j : ℕ)
      → i < byte_range 4
      → j < byte_range 4
      → (index_prefix sip_hash n i ≡ index_prefix sip_hash m j)
        ↔ ((sip_hash n ≡ sip_hash m) × (i ≡ j))
  unfolding key_prefix
  index_prefix-injective n m i j hi hj =
      let forward : index_prefix sip_hash n i ≡ index_prefix sip_hash m j
          → (sip_hash n ≡ sip_hash m) × (i ≡ j) =
        λ e.
          let (heads, ids) =
            append-injective (index_head n) (index_head m) _ _ (length-index_head n m) e in
          let (tags, zeros) =
            append-injective (hash_bytes sip_hash n ++ (b'3' ∷ []))
              (hash_bytes sip_hash m ++ (b'3' ∷ [])) _ _
              (omega (
                arith,
                length-append (hash_bytes sip_hash n) (b'3' ∷ []),
                length-append (hash_bytes sip_hash m) (b'3' ∷ []),
                length-hash_bytes n m,
              ))
              heads in
          let (hashes, ones) =
            append-injective (hash_bytes sip_hash n) (hash_bytes sip_hash m) _ _
              (length-hash_bytes n m) tags in
          (
            (hash_bytes-injective n m).0 hashes,
            sym (from_le_bytes-to_le_bytes 4 i hi)
                ∙ ap from_le_bytes ids
                ∙ from_le_bytes-to_le_bytes 4 j hj,
          ) in
      let backward : (sip_hash n ≡ sip_hash m) × (i ≡ j)
          → index_prefix sip_hash n i ≡ index_prefix sip_hash m j =
        λ both. let hashes = (hash_bytes-injective n m).1 (both.0) in let ids = both.1 in cc in
      (forward, backward)

  module _ {D : Type 0} (serialize_decimal : D → List ℕ → Result (List ℕ))
      (appends : Appends serialize_decimal) where
    -- Provided that hashes are 64-bit words and that the key of a decimal is written behind what the
    -- buffer holds: a scan of the columns, index descriptions, index entries, statistics or rows of
    -- a table yields, of all keys of these five types that are written for any table, those of its
    -- type and of a table with the same hash, and no others.
    pub in_range-KeyOf :
        {ty ty' : CodecType} {name name' key : List ℕ} {bound : List ℕ × List ℕ}
        → ScanOf sip_hash ty name bound
        → KeyOf sip_hash serialize_decimal ty' name' key
        → (in_range bound key ≡ true) ↔ ((sip_hash name ≡ sip_hash name') × (ty ≡ ty'))
    in_range-KeyOf {ty = ty} {ty' = ty'} {name = name} {name' = name'} {key = key} {bound = bound}
          scan written =
        let (e, s) = scan_tagged scan in
        let (rest, k, w) = KeyOf-IsTagged sip_hash serialize_decimal appends written in
        let meet = in_range-tagged_key name name' rest (tag ty) (tag ty) (tag ty') in
        rw (e, k)
          (
            λ h. ((meet.0 h).0, sym s ∙ ap type_of_tag (le_antisymm (meet.0 h).1 (meet.0 h).2) ∙ w),
            λ both. meet.1 (both.0, omega (arith, ap tag (both.1)), omega (arith, ap tag (both.1))),
          )

    -- Provided that hashes are 64-bit words and that the key of a decimal is written behind what the
    -- buffer holds: the scan that loads a table yields, of all keys of columns, index descriptions,
    -- index entries, statistics and rows, the columns and the index descriptions of the tables with
    -- the same hash, and no others.
    pub in_range-table_bound :
        {ty : CodecType} {name' key : List ℕ} (name : List ℕ)
        → KeyOf sip_hash serialize_decimal ty name' key
        → (in_range (table_bound sip_hash name) key ≡ true) ↔ (
            (sip_hash name ≡ sip_hash name')
            × ((ty ≡ CodecType.column) ⊎ (ty ≡ CodecType.index_meta)))
    unfolding table_bound key_prefix
    in_range-table_bound {ty = ty} {name' = name'} {key = key} name written =
        let (rest, k, w) = KeyOf-IsTagged sip_hash serialize_decimal appends written in
        let meet = in_range-tagged_key name name' rest b'0' b'1' (tag ty) in
        rw k (
          λ h. (
            (meet.0 h).0,
            elim (between_tags (tag ty) (meet.0 h).1 (meet.0 h).2) [
              | inl t ↦ inl (sym w ∙ ap type_of_tag t)
              | inr t ↦ inr (sym w ∙ ap type_of_tag t)
            ],
          ),
          λ both. elim (both.1) [
            | inl t ↦ meet.1 (both.0, omega (arith, ap tag t), omega (arith, ap tag t))
            | inr t ↦ meet.1 (both.0, omega (arith, ap tag t), omega (arith, ap tag t))
          ],
        )

    -- Provided that hashes are 64-bit words, that index identifiers are 32-bit words and that the key
    -- of a decimal is written behind what the buffer holds: the scan of one index yields, of the
    -- entries of all indexes, those of the index with its identifier in the tables with the same
    -- hash, and no others.
    pub in_range-index_bound :
        (name name' key : List ℕ) (id : ℕ) (entry : Index D) (tuple_id : Option (DataValue D))
        → id < byte_range 4
        → entry.id < byte_range 4
        → encode_index_key sip_hash serialize_decimal name' entry tuple_id ≡ ok key
        → (in_range (index_bound sip_hash name id) key ≡ true)
          ↔ ((sip_hash name ≡ sip_hash name') × (id ≡ entry.id))
    unfolding index_bound key_prefix
    in_range-index_bound name name' key id entry tuple_id fits fits' written =
        let (rest, e) =
          encode_index_key-StartsWith sip_hash serialize_decimal appends name' entry tuple_id key
            written in
        let k = e ∙ append_assoc (index_prefix sip_hash name' (entry.id)) (0 ∷ []) rest in
        let meet =
          in_range-tagged (index_prefix sip_hash name id) (index_prefix sip_hash name' (entry.id))
            rest (length-index_prefix name name' id (entry.id)) in
        let ids = index_prefix-injective name name' id (entry.id) fits fits' in
        rw k (λ h. ids.0 (meet.0 h), λ both. meet.1 (ids.1 both))
