-- ===== src/Serdes/Columns.antt =====
-- src/serdes/column.rs: a column's relation refers to its table by the index of the table's name.
use kite_sql.Prelude.{
  ℕ, zero, suc, ◌%◌, inl, inr, Option-cases, ◌<◌, ◌≤◌, ◌≡◌, refl, Bool, ◌==◌, if◌then◌else◌, some,
  List, [], ◌∷◌, ◌++◌, length, get_elem?, Result, ok, panic, ◌>>=◌, arith,
}
use mathlib.Core.List.{append_assoc}
use kite_sql.Types.Bytes.{read_word, to_le_bytes, byte_range}
use kite_sql.Storage.TableCodec.{ColumnRelation}
use kite_sql.Serdes.{
  ReferenceTables, ReferenceSerialization, RoundTrip, RoundTripAt, Extends, get, push_or_replace,
}
use kite_sql.Serdes.Scalars.{
  ulid, bool, usize, ulid-RoundTrip, bool-RoundTrip, usize_written, usize_read, unchanged,
  read_word_tag,
}
use kite_sql.Serdes.Containers.{tagged, Extends_trans}
use kite_sql.Serdes.Names.{push_or_replace-IsPlaced, get-Extends}

-- `reference_tables.push_or_replace(table_name).encode(..)`
unfoldable pub encode_table : List ℕ → Bool → ReferenceTables → Result (List ℕ × ReferenceTables)
encode_table table_name is_direct tables =
    let (i, tables) = push_or_replace tables table_name in usize.encode i is_direct tables

unfoldable pub encode_relation :
    ColumnRelation → Bool → ReferenceTables → Result (List ℕ × ReferenceTables)
encode_relation ColumnRelation.none is_direct tables = ok (0 ∷ [], tables)
encode_relation (ColumnRelation.table column_id table_name is_temp) is_direct tables = tagged 1 (do
  (id_bytes, tables) ← ulid.encode column_id is_direct tables
  (temp_bytes, tables) ← bool.encode is_temp is_direct tables
  (name_bytes, tables) ← encode_table table_name is_direct tables
  ok (id_bytes ++ (temp_bytes ++ name_bytes), tables))

-- The arm of `decode` for a column of a table.
unfoldable pub decode_table : List ℕ → ReferenceTables → Result (ColumnRelation × List ℕ)
decode_table bs tables = do
  (column_id, rest) ← ulid.decode bs tables
  (is_temp, rest) ← bool.decode rest tables
  (i, rest) ← usize.decode rest tables
  table_name ← get tables i
  ok (ColumnRelation.table column_id table_name is_temp, rest)

unfoldable pub relation : ReferenceSerialization ColumnRelation
unfolding encode_relation decode_table
relation = record {
  encode = encode_relation;
  decode = λ bs tables. (do
    (tag, rest) ← read_word 1 bs
    let of_table = decode_table rest tables
    if tag == 0 then ok (ColumnRelation.none, rest) else if tag == 1 then of_table else panic);
}

-- An index of a name is below the number of names.
get_elem?-lt :
    (tables : ReferenceTables) (i : ℕ) (name : List ℕ)
    → get_elem? tables i ≡ some name
    → i < length tables
get_elem?-lt [] i name h = cc
get_elem?-lt (x ∷ xs) zero name h = omega arith
get_elem?-lt (x ∷ xs) (suc i) name h = omega (arith, get_elem?-lt xs i name h)

get-lt :
    (tables : ReferenceTables) (i : ℕ) (name : List ℕ) → get tables i ≡ ok name → i < length tables
unfolding get
get-lt tables i name h = elim (Option-cases (get_elem? tables i)) [
  | inl nothing ↦ ground arith
  | inr (found, at_i) ↦ get_elem?-lt tables i found at_i
]

-- The index of a table's name is read back, and the name at it.
encode_table-get :
    (name : List ℕ) (is_direct : Bool) (tables : ReferenceTables)
    → (bs : List ℕ) × (after : ReferenceTables) × (i : ℕ) × (encode_table name is_direct tables
        ≡ ok (bs, after))
      × Extends after tables
      × ((later : ReferenceTables) (rest : List ℕ)
          → Extends later after
          → length later ≤ byte_range 4
          → (usize.decode (bs ++ rest) later ≡ ok (i, rest)) × (get later i ≡ ok name))
unfolding encode_table
encode_table-get name is_direct tables =
    let placed = push_or_replace-IsPlaced tables name in
    let i = (push_or_replace tables name).0 in
    let after = (push_or_replace tables name).1 in
    (
      to_le_bytes 4 (i % byte_range 4),
      after,
      i,
      usize_written i is_direct after,
      placed.1,
      λ later rest grown few.
          let held = get-Extends after later i name grown placed.0 in
          let below = get-lt later i name held in
          (usize_read i rest later (omega (arith, below, few)), held),
    )

-- The relations of columns: a table's column has an id of sixteen bytes.
pub data IsRelation : ColumnRelation → Type 0 where
  of_none : IsRelation ColumnRelation.none
  of_table :
      (column_id table_name : List ℕ) (is_temp : Bool)
      → length column_id ≡ 16
      → IsRelation (ColumnRelation.table column_id table_name is_temp)

relation-RoundTripAt :
    (r : ColumnRelation) (is_direct : Bool) (tables : ReferenceTables)
    → IsRelation r
    → RoundTripAt relation r is_direct tables
unfolding relation encode_relation decode_table
relation-RoundTripAt _ is_direct tables of_none = (
  0 ∷ [],
  tables,
  refl,
  unchanged tables,
  λ later rest e k. rw (read_word_tag 0 rest (omega arith)) refl,
)
relation-RoundTripAt _ is_direct tables (of_table column_id table_name is_temp sixteen) =
    let (id_bytes, t1, written_id, grown_id, read_id) =
      ulid-RoundTrip.round_trip column_id is_direct tables sixteen in
    let (temp_bytes, t2, written_temp, grown_temp, read_temp) =
      bool-RoundTrip.round_trip is_temp is_direct t1 tt in
    let (name_bytes, t3, i, written_name, grown_name, read_name) =
      encode_table-get table_name is_direct t2 in
    (
      1 ∷ (id_bytes ++ (temp_bytes ++ name_bytes)),
      t3,
      rw (written_id, written_temp, written_name) refl,
      Extends_trans tables t2 t3 (Extends_trans tables t1 t2 grown_id grown_temp) grown_name,
      λ later rest e k.
          let since_temp = Extends_trans t2 t3 later grown_name e in
          let since_id = Extends_trans t1 t2 later grown_temp since_temp in
          let (read_i, held) = read_name later rest e k in
          rw
            (
              read_word_tag 1 ((id_bytes ++ (temp_bytes ++ name_bytes)) ++ rest) (omega arith),
              append_assoc id_bytes (temp_bytes ++ name_bytes) rest,
              append_assoc temp_bytes name_bytes rest,
              read_id later (temp_bytes ++ (name_bytes ++ rest)) since_id k,
              read_temp later (name_bytes ++ rest) since_temp k,
              read_i,
              held,
            )
            refl,
    )

-- The relation of a column, whose table stands by an index into the names, is read back with the
-- names that its encoding left or more of them, whatever follows its bytes.
pub relation-RoundTrip : RoundTrip relation IsRelation
relation-RoundTrip = record { round_trip = relation-RoundTripAt }
