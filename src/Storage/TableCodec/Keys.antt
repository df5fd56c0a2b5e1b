-- ===== src/Storage/TableCodec/Keys.antt =====
-- The keys of src/storage/table_codec.rs: what each begins with.
use kite_sql.Prelude.{
  if◌then◌else◌, ◌==◌, ℕ, ◌≡◌, refl, sym, ◌∙◌, Bool, true, false, Option, List, [], ◌∷◌, ◌++◌,
  Result, ok, err, panic,
}
use mathlib.Core.List.{append_assoc, append-nil}
use kite_sql.Types.Bytes.{to_le_bytes}
use kite_sql.Types.Value.{DataValue}
use kite_sql.Types.Value.Memcomparable.{memcomparable_encode}
use kite_sql.Storage.TableCodec.{
  CodecType, Index, hash_bytes, key_prefix, tuple_bound, index_meta_bound, index_prefix,
  all_index_bound, columns_bound, statistics_bound, encode_index_meta_key,
  encode_statistics_path_key, encode_column, ColumnRelation, encode_tuple_key,
  encode_index_bound_key, encode_index_key, has_tuple_id, check_primary_key,
}
use kite_sql.Storage.TableCodec.Prefix.{
  StartsWith, StartsWith-trans, ok-injective, >>=-ok, Appends, memcomparable_encode-StartsWith,
}

-- The tags behind the hash of a table's name, and the types with a tag.
abbrev pub tag : CodecType → ℕ
tag CodecType.column = b'0'
tag CodecType.index_meta = b'1'
tag CodecType.index = b'3'
tag CodecType.statistics = b'4'
tag CodecType.tuple = b'8'
tag _ = 0

abbrev pub type_of_tag : ℕ → CodecType
type_of_tag t =
    if t == b'0'
    then CodecType.column
    else if t == b'1'
    then CodecType.index_meta
    else if t == b'3'
    then CodecType.index
    else if t == b'4'
    then CodecType.statistics
    else CodecType.tuple

ok-first : {a b c d : List ℕ} → ◌≡◌ {A = Result (List ℕ × List ℕ)} (ok (a, b)) (ok (c, d)) → a ≡ c
ok-first h = cc

module _ (sip_hash : List ℕ → ℕ) where
  -- The scans of a table, with the type of the keys that each is for.
  pub data ScanOf : CodecType → List ℕ → List ℕ × List ℕ → Type 0 where
    of_columns : (name : List ℕ) → ScanOf CodecType.column name (columns_bound sip_hash name)
    of_index_metas :
        (name : List ℕ) → ScanOf CodecType.index_meta name (index_meta_bound sip_hash name)
    of_indexes : (name : List ℕ) → ScanOf CodecType.index name (all_index_bound sip_hash name)
    of_statistics :
        (name : List ℕ) → ScanOf CodecType.statistics name (statistics_bound sip_hash name)
    of_tuples : (name : List ℕ) → ScanOf CodecType.tuple name (tuple_bound sip_hash name)

  abbrev pub tagged_key : List ℕ → ℕ → List ℕ → List ℕ
  tagged_key name t rest = hash_bytes sip_hash name ++ (t ∷ 0 ∷ rest)

  -- A key below the tag of its type.
  abbrev pub IsTagged : CodecType → List ℕ → List ℕ → Type 0
  IsTagged ty name key =
      (rest : List ℕ) × (key ≡ tagged_key name (tag ty) rest) × (type_of_tag (tag ty) ≡ ty)

  module _ {D : Type 0} (serialize_decimal : D → List ℕ → Result (List ℕ)) where
    -- What the encoders write, by the type of the key and the table.
    pub data KeyOf : CodecType → List ℕ → List ℕ → Type 0 where
      column_key :
          (id name key bytes : List ℕ) (encoded : Result (List ℕ))
          → encode_column sip_hash (ColumnRelation.table id name false) encoded ≡ ok (key, bytes)
          → KeyOf CodecType.column name key
      index_meta_key :
          (name : List ℕ) (id : ℕ) (key : List ℕ)
          → encode_index_meta_key sip_hash name id ≡ ok key
          → KeyOf CodecType.index_meta name key
      index_key :
          (name : List ℕ) (entry : Index D) (tuple_id : Option (DataValue D)) (key : List ℕ)
          → encode_index_key sip_hash serialize_decimal name entry tuple_id ≡ ok key
          → KeyOf CodecType.index name key
      statistics_key :
          (name : List ℕ) (id : ℕ)
          → KeyOf CodecType.statistics name (encode_statistics_path_key sip_hash name id)
      tuple_key :
          (name : List ℕ) (tuple_id : DataValue D) (key : List ℕ)
          → encode_tuple_key sip_hash serialize_decimal name tuple_id ≡ ok key
          → KeyOf CodecType.tuple name key

  -- A buffer that starts with a tag and the lowest tag.
  reassociate :
      (name rest : List ℕ) (t : ℕ)
      → ((hash_bytes sip_hash name ++ (t ∷ [])) ++ (0 ∷ [])) ++ rest ≡ tagged_key name t rest
  reassociate name rest t =
      append_assoc (hash_bytes sip_hash name ++ (t ∷ [])) (0 ∷ []) rest
      ∙ append_assoc (hash_bytes sip_hash name) (t ∷ []) (0 ∷ rest)

  pub index_reassociate :
      (name rest : List ℕ) (id : ℕ)
      → (index_prefix sip_hash name id ++ (0 ∷ [])) ++ rest
        ≡ tagged_key name b'3' (to_le_bytes 4 id ++ (0 ∷ rest))
  unfolding key_prefix
  index_reassociate name rest id =
      append_assoc (index_prefix sip_hash name id) (0 ∷ []) rest
      ∙ append_assoc ((hash_bytes sip_hash name ++ (b'3' ∷ [])) ++ (0 ∷ [])) (to_le_bytes 4 id)
          (0 ∷ rest)
      ∙ reassociate name (to_le_bytes 4 id ++ (0 ∷ rest)) b'3'

  module _ {D : Type 0} (serialize_decimal : D → List ℕ → Result (List ℕ))
      (appends : Appends serialize_decimal) where
    encode_index_bound_key-StartsWith :
        (name : List ℕ) (entry : Index D) (is_upper : Bool) (key : List ℕ)
        → encode_index_bound_key sip_hash serialize_decimal name entry is_upper ≡ ok key
        → StartsWith key (index_prefix sip_hash name (entry.id) ++ (0 ∷ []))
    unfolding encode_index_bound_key
    encode_index_bound_key-StartsWith name entry true key h =
        let (k, p, q) = >>=-ok _ _ key h in
        StartsWith-trans _ k key
          (memcomparable_encode-StartsWith serialize_decimal appends (entry.value) _ k p)
          (255 ∷ [], sym (ok-injective q))
    encode_index_bound_key-StartsWith name entry false key h =
        let (k, p, q) = >>=-ok _ _ key h in
        StartsWith-trans _ k key
          (memcomparable_encode-StartsWith serialize_decimal appends (entry.value) _ k p)
          ([], sym (ok-injective q) ∙ sym (append-nil k))

    pub encode_index_key-StartsWith :
        (name : List ℕ) (entry : Index D) (tuple_id : Option (DataValue D)) (key : List ℕ)
        → encode_index_key sip_hash serialize_decimal name entry tuple_id ≡ ok key
        → StartsWith key (index_prefix sip_hash name (entry.id) ++ (0 ∷ []))
    unfolding encode_index_key
    encode_index_key-StartsWith name entry Option.none key h =
        encode_index_bound_key-StartsWith name entry false key h
    encode_index_key-StartsWith name entry (Option.some tuple_id) key h =
        let (k, p, q) = >>=-ok _ _ key h in
        StartsWith-trans _ k key (encode_index_bound_key-StartsWith name entry false k p) (
          elim (has_tuple_id (entry.ty))
              as (λ t.
                (if t then memcomparable_encode serialize_decimal tuple_id k else ok k) ≡ ok key
                → StartsWith key k) [
                  | true ↦ memcomparable_encode-StartsWith serialize_decimal appends tuple_id k key
                  | false ↦ λ e. ([], sym (ok-injective e) ∙ sym (append-nil k))
                ]
            q)

    pub KeyOf-IsTagged :
        {ty : CodecType} {name key : List ℕ}
        → KeyOf serialize_decimal ty name key
        → IsTagged ty name key
    unfolding encode_column encode_index_meta_key encode_statistics_path_key encode_tuple_key
        key_prefix
    KeyOf-IsTagged (column_key id name key bytes (ok column_bytes) h) =
        (id, sym (ok-first h) ∙ reassociate name id b'0', refl)
    KeyOf-IsTagged (column_key id name key bytes (err e) h) = cc
    KeyOf-IsTagged (column_key id name key bytes panic h) = cc
    KeyOf-IsTagged (index_meta_key name id key h) =
        (to_le_bytes 4 id, sym (ok-injective h) ∙ reassociate name _ b'1', refl)
    KeyOf-IsTagged (index_key name entry tuple_id key h) =
        let (rest, e) = encode_index_key-StartsWith name entry tuple_id key h in
        (_, e ∙ index_reassociate name rest (entry.id), refl)
    KeyOf-IsTagged (statistics_key name id) = (to_le_bytes 4 id, reassociate name _ b'4', refl)
    KeyOf-IsTagged (tuple_key name tuple_id key h) =
        let (checked, p, q) = >>=-ok (check_primary_key tuple_id 0) _ key h in
        let (rest, e) =
          memcomparable_encode-StartsWith serialize_decimal appends tuple_id _ key q in
        (rest, e ∙ reassociate name rest b'8', refl)
