-- ===== src/Types/Tuple/Read.antt =====
-- `serialize_to` against `deserialize_from` of src/types/tuple.rs: what a projection reads of a row.
use mathlib.Core.List.{append_assoc}
use kite_sql.Prelude.Bytes.{
  get_elem?-lt, get_elem?-append, get_elem?-append_length, set-append_length,
}
use kite_sql.Prelude.{
  ℕ, suc, ◌+◌, ◌*◌, ◌/◌, ◌≤◌, ◌<◌, ◌≡◌, ◌≢◌, refl, ap, ◌∙◌, true, false, none, some, List, [], ◌∷◌,
  ◌++◌, arith, length, get_elem?, set, replicate, length-append, ok,
}
use kite_sql.Types.Logical.{LogicalType}
use kite_sql.Types.Value.{Foreign, DataValue, null, is_null}
use kite_sql.Types.Value.Raw.{from_raw}
use kite_sql.Types.Tuple.{deserialize_columns}
use kite_sql.Types.Tuple.Bitmap.{null_bit}
use kite_sql.Types.Tuple.Written.{null_at, null_at_before, V, Payload, no_bytes, skipped, stored}

-- The columns `ps` of the columns `vs`, which begin at column `i`: the projected ones, in order,
-- are `out`, and no column before the last projected one is null without being projected.
pub data Selects {D : Type 0} : ℕ → List ℕ → List (DataValue D) → List (DataValue D) → Type 0 where
  all_read : (i : ℕ) (vs : List (DataValue D)) → Selects i [] vs []
  read :
      {ps : List ℕ} {vs out : List (DataValue D)} {i p : ℕ} (v : DataValue D)
      → p ≡ i
      → Selects (suc i) ps vs out
      → Selects i (p ∷ ps) (v ∷ vs) (v ∷ out)
  pass :
      {ps : List ℕ} {vs out : List (DataValue D)} {i p : ℕ} (v : DataValue D)
      → p ≢ i
      → is_null v ≡ false
      → Selects (suc i) (p ∷ ps) vs out
      → Selects i (p ∷ ps) (v ∷ vs) out

module _ (f : Foreign) (projections h raw₀ : List ℕ) where
  -- One round of the loop, on each of its branches.
  round_end :
      (i p : ℕ) (values : List (V f)) (cursor : List ℕ)
      → deserialize_columns f projections (h ++ raw₀) i [] p values cursor ≡ ok values
  unfolding deserialize_columns
  round_end i p values cursor = refl

  round_full :
      (i : ℕ) (ty : LogicalType) (tys : List LogicalType) (p : ℕ) (values : List (V f))
      (cursor : List ℕ)
      → length projections ≤ p
      → deserialize_columns f projections (h ++ raw₀) i (ty ∷ tys) p values cursor ≡ ok values
  unfolding deserialize_columns
  round_full i ty tys p values cursor le = ground arith

  -- Nothing more is read once every projection is.
  pub loop_full :
      (i : ℕ) (tys : List LogicalType) (p : ℕ) (values : List (V f)) (cursor : List ℕ)
      → length projections ≤ p
      → deserialize_columns f projections (h ++ raw₀) i tys p values cursor ≡ ok values
  loop_full i [] p values cursor le = round_end i p values cursor
  loop_full i (ty ∷ tys) p values cursor le = round_full i ty tys p values cursor le

  pub round_null :
      (i : ℕ) (ty : LogicalType) (tys : List LogicalType) (p : ℕ) (values : List (V f))
      (cursor : List ℕ)
      → p < length projections
      → i / 8 < length h
      → null_bit h i ≡ true
      → deserialize_columns f projections (h ++ raw₀) i (ty ∷ tys) p values cursor
        ≡ deserialize_columns f projections (h ++ raw₀) (suc i) tys (suc p) values cursor
  unfolding deserialize_columns
  round_null i ty tys p values cursor lt inside bit =
      ground (arith, get_elem?-append h raw₀ (i / 8) inside)

  round_value :
      (i : ℕ) (ty : LogicalType) (tys : List LogicalType) (p : ℕ) (values : List (V f))
      (cursor rest : List ℕ) (column : ℕ) (v : V f)
      → get_elem? projections p ≡ some column
      → column ≡ i
      → p < length projections
      → i / 8 < length h
      → null_bit h i ≡ false
      → from_raw f ty true cursor ≡ ok (some v, rest)
      → deserialize_columns f projections (h ++ raw₀) i (ty ∷ tys) p values cursor
        ≡ deserialize_columns f projections (h ++ raw₀) (suc i) tys (suc p) (set values p v) rest
  unfolding deserialize_columns
  round_value i ty tys p values cursor rest column v found e lt inside bit reads =
      let (b, at) = get_elem?-lt h (i / 8) inside in
      ground (arith, get_elem?-append h raw₀ (i / 8) inside, at)

  round_pass :
      (i : ℕ) (ty : LogicalType) (tys : List LogicalType) (p : ℕ) (values : List (V f))
      (cursor rest : List ℕ) (column : ℕ)
      → get_elem? projections p ≡ some column
      → column ≢ i
      → p < length projections
      → i / 8 < length h
      → null_bit h i ≡ false
      → from_raw f ty false cursor ≡ ok (none, rest)
      → deserialize_columns f projections (h ++ raw₀) i (ty ∷ tys) p values cursor
        ≡ deserialize_columns f projections (h ++ raw₀) (suc i) tys p values rest
  unfolding deserialize_columns
  round_pass i ty tys p values cursor rest column found e lt inside bit reads =
      let (b, at) = get_elem?-lt h (i / 8) inside in
      ground (arith, get_elem?-append h raw₀ (i / 8) inside, at)

-- The variables of the loop when the projections `before` are read, into `reached`, and `ps` are not.
pub record Reached {D : Type 0} (projections before ps : List ℕ)
    (reached values : List (DataValue D)) (p : ℕ) : Type 0 where
  pub split : projections ≡ before ++ ps
  pub counted : p ≡ length before
  pub filled : p ≡ length reached
  pub content : values ≡ reached ++ replicate (length ps) null

module _ {D : Type 0} (projections before ps : List ℕ) (reached values : List (DataValue D))
    (p : ℕ) where
  Reached-end :
      Reached projections before [] reached values p
      → (length projections ≤ p) × (values ≡ reached ++ [])
  Reached-end r = (omega (arith, ap length r.split, length-append before []), r.content)

  module _ (column : ℕ) (r : Reached projections before (column ∷ ps) reached values p) where
    Reached-column : get_elem? projections p ≡ some column
    Reached-column = rw (r.split, r.counted) (get_elem?-append_length before ps column)

    Reached-lt : p < length projections
    Reached-lt = omega (arith, ap length r.split, length-append before (column ∷ ps), r.counted)

    Reached-next :
        (v : DataValue D) (values' : List (DataValue D))
        → values' ≡ reached ++ v ∷ replicate (length ps) null
        → Reached projections (before ++ column ∷ []) ps (reached ++ v ∷ []) values' (suc p)
    Reached-next v values' e = record {
      split = rw (append_assoc before (column ∷ []) ps) r.split;
      counted = omega (arith, r.counted, length-append before (column ∷ []));
      filled = omega (arith, r.filled, length-append reached (v ∷ []));
      content = rw (append_assoc reached (v ∷ []) (replicate (length ps) null)) e;
    }

    Reached-set : (v : DataValue D) → set values p v ≡ reached ++ v ∷ replicate (length ps) null
    Reached-set v =
        rw (r.content, r.filled) (set-append_length reached (replicate (length ps) null) null v)

module _ (f : Foreign) (projections h raw₀ rest : List ℕ) where
  -- The bits from column `i` on are those of the columns `vs`.
  abbrev pub Marked : ℕ → List (V f) → Type 0
  Marked i vs = (j : ℕ) → i ≤ j → null_bit h j ≡ null_at i vs j

  pub Marked-here :
      (i : ℕ) (v : V f) (vs : List (V f)) → Marked i (v ∷ vs) → null_bit h i ≡ is_null v
  Marked-here i v vs m =
      ground (arith, m i (omega arith), null_at_before vs (suc i) i (omega arith))

  Marked-next : (i : ℕ) (v : V f) (vs : List (V f)) → Marked i (v ∷ vs) → Marked (suc i) vs
  Marked-next i v vs m j le = ground (arith, m j (omega arith))

  -- The loop from column `i` on.
  pub deserialize_columns_lem :
      {tys : List LogicalType} {vs : List (V f)} {raw : List ℕ} {ps : List ℕ} {out : List (V f)}
      {i : ℕ} (before : List ℕ) (reached values : List (V f)) (p : ℕ)
      → Payload f tys vs raw
      → Selects i ps vs out
      → i + length vs ≤ 8 * length h
      → Marked i vs
      → Reached projections before ps reached values p
      → deserialize_columns f projections (h ++ raw₀) i tys p values (raw ++ rest)
        ≡ ok (reached ++ out)
  unfolding is_null
  deserialize_columns_lem before reached values p no_bytes (all_read i vs) fit m r =
      round_end f projections h raw₀ i p values rest
      ∙ ap ok (Reached-end projections before [] reached values p r).1
  deserialize_columns_lem before reached values p (skipped ty pay) (all_read i vs) fit m r =
      let (le, e) = Reached-end projections before [] reached values p r in
      round_full f projections h raw₀ i ty _ p values _ le ∙ ap ok e
  deserialize_columns_lem before reached values p (stored ty v bs seen reads pay) (all_read i vs)
        fit m r =
      let (le, e) = Reached-end projections before [] reached values p r in
      round_full f projections h raw₀ i ty _ p values _ le ∙ ap ok e
  deserialize_columns_lem {i = i} before reached values p (skipped {vs = vs} ty pay)
        (read {ps = ps} {out = out} {p = c} v e s) fit m r =
      round_null f projections h raw₀ i ty _ p values _
        (Reached-lt projections before ps reached values p c r) (omega arith) (Marked-here i v vs m)
      ∙ deserialize_columns_lem (before ++ c ∷ []) (reached ++ v ∷ []) values (suc p) pay s
          (omega arith) (Marked-next i v vs m)
          (Reached-next projections before ps reached values p c r v values r.content)
      ∙ ap ok (append_assoc reached (v ∷ []) out)
  deserialize_columns_lem before reached values p (skipped ty pay) (pass v ne seen s) fit m r = cc
  deserialize_columns_lem {i = i} before reached values p
        (stored {vs = vs} {raw = raw} ty v bs seen reads pay)
        (read {ps = ps} {out = out} {p = c} v' e s) fit m r =
      rw (append_assoc bs raw rest) (
        round_value f projections h raw₀ i ty _ p values _ _ c v
          (Reached-column projections before ps reached values p c r) e
          (Reached-lt projections before ps reached values p c r) (omega arith)
          (Marked-here i v vs m ∙ seen) (reads (raw ++ rest)).0)
      ∙ deserialize_columns_lem (before ++ c ∷ []) (reached ++ v ∷ []) (set values p v) (suc p) pay
          s (omega arith) (Marked-next i v vs m)
          (Reached-next projections before ps reached values p c r v (set values p v)
            (Reached-set projections before ps reached values p c r v))
      ∙ ap ok (append_assoc reached (v ∷ []) out)
  deserialize_columns_lem {i = i} before reached values p
        (stored {vs = vs} {raw = raw} ty v bs seen reads pay) (pass {ps = ps} {p = c} v' ne seen' s)
        fit m r =
      rw (append_assoc bs raw rest) (
        round_pass f projections h raw₀ i ty _ p values _ _ c
          (Reached-column projections before ps reached values p c r) ne
          (Reached-lt projections before ps reached values p c r) (omega arith)
          (Marked-here i v vs m ∙ seen) (reads (raw ++ rest)).1)
      ∙ deserialize_columns_lem before reached values p pay s (omega arith) (Marked-next i v vs m) r
