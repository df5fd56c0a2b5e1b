-- ===== src/Types/Tuple/RoundTrip.antt =====
-- `serialize_to` against `deserialize_from` of src/types/tuple.rs, as wholes.
use mathlib.Core.List.{append_assoc, append-nil}
use kite_sql.Prelude.Bytes.{AllBytes-zeros, get_elem?-append_length, every_below, every_below-lt}
use kite_sql.Prelude.{
  ℕ, zero, suc, ◌/◌, ◌%◌, ◌<◌, ◌≡◌, ◌⊎◌, refl, ap, ◌∙◌, Bool, true, false, Option, none, some, List,
  [], ◌∷◌, ◌++◌, arith, ltb, length, drop, get_elem?, replicate, length-append, length-replicate,
  ok, ◌>>=◌, not, inl, inr,
}
use kite_sql.Types.Bytes.{seek-append}
use kite_sql.Types.Logical.{LogicalType}
use kite_sql.Types.Value.{Foreign, DataValue, null, is_null}
use kite_sql.Types.Value.RoundTrip.{DecimalLaws}
use kite_sql.Types.Tuple.{pick, bits_len, serialize_to, deserialize_from, read_key, is_none}
use kite_sql.Types.Tuple.Bitmap.{null_bit}
use kite_sql.Types.Tuple.Written.{Row, V, serialize_from_lem, Written}
use kite_sql.Types.Tuple.Read.{
  Selects, all_read, read, pass, Reached, Marked, deserialize_columns_lem, round_null, loop_full,
  Marked-here,
}

-- No column is marked in an empty bitmap.
zero_table : every_below (λ i. not (is_none 0 i)) 8 ≡ true
unfolding every_below is_none
zero_table = refl

is_none-zero : (i : ℕ) → i < 8 → is_none 0 i ≡ false
is_none-zero i lt = ground (arith, every_below-lt (λ i. not (is_none 0 i)) 8 zero_table i lt)

get_elem?-zeros :
    (n k : ℕ)
    → (get_elem? {A = ℕ} (replicate n 0) k ≡ none) ⊎ (get_elem? {A = ℕ} (replicate n 0) k ≡ some 0)
get_elem?-zeros zero k = inl refl
get_elem?-zeros (suc n) zero = inr refl
get_elem?-zeros (suc n) (suc k) = get_elem?-zeros n k

null_bit-zeros : (n j : ℕ) → null_bit (replicate n 0) j ≡ false
null_bit-zeros n j = ground (arith, get_elem?-zeros n (j / 8), is_none-zero (j % 8) (omega arith))

length-Row :
    {D : Type 0} {tys : List LogicalType} {vs : List (DataValue D)}
    → Row tys vs
    → length tys ≡ length vs
length-Row Row.nil = refl
length-Row (Row.null_column ty r) = ap suc (length-Row r)
length-Row (Row.column ty v fits r) = ap suc (length-Row r)

pick-Selects :
    {D : Type 0} {i : ℕ} {ps : List ℕ} {vs out : List (DataValue D)} (before : List (DataValue D))
    → length before ≡ i
    → Selects i ps vs out
    → pick ps (before ++ vs) ≡ ok out
unfolding pick
pick-Selects before e (all_read i vs) = refl
pick-Selects before e (read {ps = ps} {vs = vs} {out = out} v at s) =
    let found : get_elem? (before ++ v ∷ vs) (length before) ≡ some v =
      get_elem?-append_length before vs v in
    let rest : pick ps (before ++ v ∷ vs) ≡ ok out =
      rw (append_assoc before (v ∷ []) vs) at
        (pick-Selects (before ++ v ∷ []) (omega (arith, length-append before (v ∷ []))) s) in
    ground (arith, at, e, found, rest)
pick-Selects before e (pass {ps = ps} {vs = vs} {p = p} v ne seen s) =
    rw (append_assoc before (v ∷ []) vs) at
      (pick-Selects (before ++ v ∷ []) (omega (arith, length-append before (v ∷ []))) s)

module _ (f : Foreign) (laws : DecimalLaws f) where
  module _ {tys : List LogicalType} {vs : List (V f)} (r : Row tys vs) where
    written : Written f tys vs 0 (replicate (bits_len (length vs)) 0) []
    written =
        serialize_from_lem f laws 0 (replicate (bits_len (length vs)) 0) [] r
          (AllBytes-zeros (bits_len (length vs)))
          (omega (arith, length-replicate {A = ℕ} (bits_len (length vs)) 0))

    marked : Marked f [] written.bitmap [] [] 0 vs
    marked j le = ground (arith, written.bits j, null_bit-zeros (bits_len (length vs)) j)

    capacity : length written.bitmap ≡ bits_len (length vs)
    capacity = omega (arith, written.size, length-replicate {A = ℕ} (bits_len (length vs)) 0)

    drop_bitmap : drop (bits_len (length tys)) (written.bitmap ++ written.raw) ≡ written.raw
    drop_bitmap = rw (length-Row r, ← capacity) (seek-append written.bitmap written.raw)

    long_enough : ltb (length (written.bitmap ++ written.raw)) (bits_len (length tys)) ≡ false
    long_enough =
        rw (length-Row r) (ground (arith, length-append written.bitmap written.raw, capacity))

    serialized :
        (pk : Option (V f))
        → serialize_to f (record { pk = pk; values = vs }) ≡ ok (written.bitmap ++ written.raw)
    unfolding serialize_to
    serialized pk = rw append-nil at written.result

  -- For a row whose values fit their columns or are null, and a projection to columns in ascending
  -- order such that every null column before the last projected one is projected: the row is
  -- written, and reading it gives the values at the projected columns, in order, with the primary
  -- key that is taken from them if it is asked for.
  pub deserialize_from-serialize_to :
      {tys : List LogicalType} {vs out : List (V f)} {projections : List ℕ} (pk : Option (V f))
      (pk_indices : List ℕ) (with_pk : Bool)
      → Row tys vs
      → Selects 0 projections vs out
      → (bytes : List ℕ) × (serialize_to f (record { pk = pk; values = vs }) ≡ ok bytes)
        × (pick projections vs ≡ ok out)
        × (deserialize_from f tys pk_indices projections bytes with_pk
            ≡ (read_key with_pk pk_indices out >>= λ key. ok (record { pk = key; values = out })))
  unfolding deserialize_from
  deserialize_from-serialize_to {tys} {vs} {out} {projections} pk pk_indices with_pk r s =
      let w = written r in
      let start : Reached projections [] projections [] (replicate (length projections) null) 0 =
        record { split = refl; counted = refl; filled = refl; content = refl } in
      let columns =
        deserialize_columns_lem f projections w.bitmap w.raw [] [] []
          (replicate (length projections) null) 0 w.payload s (omega (arith, capacity r)) (marked r)
          start in
      (
        w.bitmap ++ w.raw,
        serialized r pk,
        pick-Selects [] refl s,
        rw (long_enough r, drop_bitmap r, rw append-nil at columns) refl,
      )

  -- When the first column of a row is null, a read that projects one other column alone returns
  -- null for it, whatever the row holds there.
  pub deserialize_from_behind_null :
      {tys : List LogicalType} {vs : List (V f)} (ty : LogicalType) (pk_indices : List ℕ) (p : ℕ)
      → Row tys vs
      → (bytes : List ℕ) × (serialize_to f (record { pk = none; values = null ∷ vs }) ≡ ok bytes)
        × (deserialize_from f (ty ∷ tys) pk_indices (suc p ∷ []) bytes false
            ≡ ok (record { pk = none; values = null ∷ [] }))
  unfolding deserialize_from read_key is_null
  deserialize_from_behind_null {tys} {vs} ty pk_indices p r =
      let r' : Row (ty ∷ tys) (null ∷ vs) = Row.null_column ty r in
      let w = written r' in
      let marked_first : null_bit w.bitmap 0 ≡ true =
        Marked-here f [] w.bitmap [] [] 0 null vs (marked r') ∙ refl in
      let first =
        round_null f (suc p ∷ []) w.bitmap w.raw 0 ty tys 0 (null ∷ []) w.raw (omega arith)
          (omega (arith, capacity r')) marked_first in
      let stop = loop_full f (suc p ∷ []) w.bitmap w.raw 1 tys 1 (null ∷ []) w.raw (omega arith) in
      (
        w.bitmap ++ w.raw,
        serialized r' none,
        rw (long_enough r', drop_bitmap r', first ∙ stop) refl,
      )
