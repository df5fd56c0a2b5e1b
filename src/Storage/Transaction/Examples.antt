-- ===== src/Storage/Transaction/Examples.antt =====
-- A store that is a list of entries, and the theorems on it.
use kite_sql.Prelude.Int.{pos, to_bits}
use kite_sql.Types.Bytes.{to_le_bytes, to_be_bytes}
use kite_sql.Types.Value.Memcomparable.{memcomparable_encode}
use kite_sql.Prelude.{
  ℕ, suc, ◌≡◌, ◌≢◌, refl, sym, ◌∙◌, inl, inr, Bool, true, false, Bool-cases, if◌then◌else◌, Option,
  none, some, List, [], ◌∷◌, Result, ok, err, DatabaseError, ◌>>=◌,
}
use kite_sql.Types.Value.{DataValue, int32, null, compare_bytes}
use kite_sql.Types.Tuple.{serialize_to, read_key}
use kite_sql.Types.Examples.{
  abc, two_decimals, two_decimals-DecimalLaws, row_types, row_values, Row-row_values, stored_row,
  selected,
}
use kite_sql.Storage.TableCodec.{
  CodecType, Index, IndexType, encode_index_bound_key, encode_table_hash_key, encode_root_table_key,
  key_prefix, hash_bytes,
}
use kite_sql.Expression.Range.{Bound, included}
use kite_sql.Storage.TableCodec.Bounds.{in_range}
use kite_sql.Storage.TableCodec.Keys.{KeyOf}
use kite_sql.Storage.TableCodec.Examples.{
  count, count_is_u64, one_byte, one_byte-Appends, t1, int, row_key, written_row_key,
}
use kite_sql.Storage.Transaction.{
  KeyValue, same_bytes, drop_table, append_tuple, get_tuple_by_id, add_index,
}
use kite_sql.Storage.Transaction.Store.{Works, In, keys}
use kite_sql.Storage.Transaction.Drop.{drop_table_lem}
use kite_sql.Storage.Transaction.Rows.{get_tuple_by_id-append_tuple, append_tuple-duplicate}
use kite_sql.Storage.Transaction.Unique.{
  same_bytes→≡, same_bytes-ne, same_bytes_self, add_index-add_index,
}

abbrev pub Entries : Type 0
Entries = List (List ℕ × List ℕ)

abbrev pub seen : Entries → List ℕ → Option (List ℕ)
seen [] k = none
seen ((a, v) ∷ s) k = if same_bytes a k then some v else seen s k

abbrev erased : Entries → List ℕ → Entries
erased [] k = []
erased ((a, v) ∷ s) k = let rest = erased s k in if same_bytes a k then rest else (a, v) ∷ rest

abbrev within : Entries → List ℕ × List ℕ → Entries
within [] bound = []
within ((a, v) ∷ s) bound =
    let rest = within s bound in if in_range bound a then (a, v) ∷ rest else rest

-- Only ranges of two included bounds are used.
abbrev between : Entries → Bound (List ℕ) → Bound (List ℕ) → Result Entries
between s (included min) (included max) = ok (within s (min, max))
between s min max = err DatabaseError.io

abbrev pub listed : KeyValue
listed = record {
  State = Entries;
  get = λ s k. ok (seen s k);
  set = λ s k v. ok ((k, v) ∷ s);
  remove = λ s k. ok (erased s k);
  range = λ s min max. between s min max;
}

seen-erased_self : (s : Entries) (k : List ℕ) → seen (erased s k) k ≡ none
seen-erased_self [] k = refl
seen-erased_self ((a, v) ∷ s) k = elim (Bool-cases (same_bytes a k)) [
  | inl e ↦ rw e (seen-erased_self s k)
  | inr e ↦ rw (e, e) (seen-erased_self s k)
]

seen-erased_ne : (s : Entries) (k j : List ℕ) → j ≢ k → seen (erased s k) j ≡ seen s j
seen-erased_ne [] k j h = refl
seen-erased_ne ((a, v) ∷ s) k j h = elim (Bool-cases (same_bytes a k)) [
  | inl e ↦
      let other : same_bytes a j ≡ false =
        same_bytes-ne a j (λ p. h (sym p ∙ same_bytes→≡ a k e)) in
      rw (e, other) (seen-erased_ne s k j h)
  | inr e ↦ elim (Bool-cases (same_bytes a j)) [
    | inl at ↦ rw (e, at) refl
    | inr past ↦ rw (e, past) (seen-erased_ne s k j h)
  ]
]

within_sound :
    (s : Entries) (bound : List ℕ × List ℕ) (k : List ℕ)
    → In k (keys (within s bound))
    → in_range bound k ≡ true
within_sound [] bound k i = elim i [ ]
within_sound ((a, v) ∷ s) bound k i = elim (Bool-cases (in_range bound a)) [
  | inl e ↦ elim (rw e at i) [ inl p ↦ rw (← p) e | inr q ↦ within_sound s bound k q ]
  | inr e ↦ within_sound s bound k (rw e at i)
]

within_complete :
    (s : Entries) (bound : List ℕ × List ℕ) (k : List ℕ)
    → in_range bound k ≡ true
    → seen s k ≢ none
    → In k (keys (within s bound))
within_complete [] bound k h there = there refl
within_complete ((a, v) ∷ s) bound k h there = elim (Bool-cases (same_bytes a k)) [
  | inl e ↦
      let p = same_bytes→≡ a k e in
      let inside : in_range bound a ≡ true = rw p h in rw inside (inl p)
  | inr e ↦
      let later = within_complete s bound k h (rw e at there) in
      elim (Bool-cases (in_range bound a)) [
        | inl inside ↦ rw inside (inr later)
        | inr outside ↦ rw outside later
      ]
]

listed-Works : Works listed
listed-Works = record {
  view = seen;
  get_lem = λ s k. refl;
  set_lem = λ s k v. (
    (k, v) ∷ s,
    refl,
    rw (same_bytes_self k) refl,
    λ j h. rw (same_bytes-ne k j (λ p. h (sym p))) refl,
  );
  remove_lem = λ s k. (erased s k, refl, seen-erased_self s k, λ j h. seen-erased_ne s k j h);
  range_lem = λ s bound shared. (
    within s bound,
    refl,
    λ k i. within_sound s bound k i,
    λ k h t. within_complete s bound k h t,
  );
}

-- A table with one row, and a row of the table `other`.
abbrev two_entries : Entries
two_entries = (row_key, 7 ∷ []) ∷ (9 ∷ 9 ∷ [], 8 ∷ []) ∷ []

-- A cache that counts what is taken out of it, and a lookup that finds every table.
abbrev always : Entries → ℕ → List ℕ → Result (Bool × ℕ)
always s cache name = ok (true, cache)

abbrev counted : ℕ → List ℕ → ℕ
counted cache name = suc cache

drop_table_lem_example :
    (s' : Entries) × (drop_table listed count always counted two_entries 0 t1 false ≡ ok (s', 1))
    × (seen s' (encode_table_hash_key count t1) ≡ none)
    × (seen s' (encode_root_table_key count t1) ≡ none)
    × ((ty : CodecType) (name' key : List ℕ)
        → KeyOf count one_byte ty name' key
        → (count t1 ≡ count name' → seen s' key ≡ none)
          × (count t1 ≢ count name'
              → key ≢ encode_table_hash_key count t1
              → key ≢ encode_root_table_key count t1
              → seen s' key ≡ seen two_entries key))
unfolding listed-Works compare_bytes
drop_table_lem_example =
    drop_table_lem count count_is_u64 one_byte one_byte-Appends listed listed-Works always counted
      two_entries 0 0 t1 false refl

get_tuple_by_id-append_tuple_example :
    (s' : Entries) × (append_tuple listed count two_decimals one_byte [] t1
        (record { pk = some (int 5); values = row_values })
        false
      ≡ ok s')
    × (get_tuple_by_id listed count two_decimals one_byte s' t1 row_types
          (0 ∷ [])
          (1 ∷ 2 ∷ [])
          true
          (int 5)
        ≡ (read_key true (0 ∷ []) (abc ∷ null ∷ []) >>= λ pk.
            ok (some (record { pk = pk; values = abc ∷ null ∷ [] }))))
    × ((j : List ℕ) → j ≢ row_key → seen s' j ≡ seen [] j)
unfolding listed-Works compare_bytes
get_tuple_by_id-append_tuple_example =
    get_tuple_by_id-append_tuple count two_decimals two_decimals-DecimalLaws one_byte listed
      listed-Works {tys = row_types} {vs = row_values} {out = abc ∷ null ∷ []}
      {projections = 1 ∷ 2 ∷ []} [] t1 row_key (int 5) (0 ∷ []) false true Row-row_values selected
      written_row_key (inr refl)

append_tuple-duplicate_example :
    append_tuple listed count two_decimals one_byte two_entries t1
      (record { pk = some (int 5); values = row_values })
      false
    ≡ err DatabaseError.duplicate_primary_key
unfolding serialize_to listed-Works compare_bytes
append_tuple-duplicate_example =
    append_tuple-duplicate count two_decimals two_decimals-DecimalLaws one_byte listed listed-Works
      two_entries t1 row_key (7 ∷ [])
      (0x20 ∷ 254 ∷ 255 ∷ 255 ∷ 255 ∷ 3 ∷ 0 ∷ 0 ∷ 0 ∷ b'a' ∷ b'b' ∷ b'c' ∷ []) (int 5) row_values
      written_row_key stored_row refl

abbrev unique_three : Index Bool
unique_three = record { id = 7; value = int 3; ty = IndexType.unique }

abbrev unique_key : List ℕ
unique_key = 2 ∷ 0 ∷ 0 ∷ 0 ∷ 0 ∷ 0 ∷ 0 ∷ 0 ∷ b'3' ∷ 0 ∷ 7 ∷ 0 ∷ 0 ∷ 0 ∷ 0 ∷ 128 ∷ 0 ∷ 0 ∷ 3 ∷ []

written_unique_key : encode_index_bound_key count one_byte t1 unique_three false ≡ ok unique_key
unfolding encode_index_bound_key memcomparable_encode key_prefix hash_bytes to_le_bytes to_be_bytes
    to_bits
written_unique_key = refl

-- A serialisation of integers by one byte.
abbrev one_number : DataValue Bool → Result (List ℕ)
one_number (int32 (pos n)) = ok (n ∷ [])
one_number _ = err DatabaseError.io

add_index-add_index_example :
    (s' : Entries) × (add_index listed count one_byte one_number [] t1 unique_three (int 1) ≡ ok s')
    × (◌≡◌ {A = List ℕ} (1 ∷ []) (2 ∷ [])
        → add_index listed count one_byte one_number s' t1 unique_three (int 2) ≡ ok s')
    × (◌≢◌ {A = List ℕ} (1 ∷ []) (2 ∷ [])
        → add_index listed count one_byte one_number s' t1 unique_three (int 2)
          ≡ err DatabaseError.duplicate_unique_value)
    × ((j : List ℕ) → j ≢ unique_key → seen s' j ≡ seen [] j)
unfolding listed-Works
add_index-add_index_example =
    add_index-add_index count one_byte one_number listed listed-Works [] t1 unique_key (1 ∷ [])
      (2 ∷ []) unique_three (int 1) (int 2) refl written_unique_key refl refl refl
