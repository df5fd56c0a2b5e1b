-- ===== src/Types/Tuple/Written.antt =====
-- What `serialize_to` of src/types/tuple.rs stores of a row: a bitmap with the bits of the null
-- columns, and the bytes of the others behind it.
use mathlib.Core.List.{append_assoc, append-nil}
use kite_sql.Prelude.Bytes.{AllBytes, get_elem?-append, set-append}
use kite_sql.Prelude.{
  ℕ, suc, ◌+◌, ◌*◌, ◌/◌, ◌%◌, ◌≤◌, ◌<◌, ◌≡◌, refl, ◌∙◌, Bool, true, false, ◌&&◌, ◌||◌, none, some,
  List, [], ◌∷◌, ◌++◌, arith, ◌==◌, length, get_elem?, ok, Option-cases, inl, inr,
}
use kite_sql.Types.Logical.{LogicalType}
use kite_sql.Types.Value.{Foreign, DataValue, null, is_null}
use kite_sql.Types.Value.Raw.{to_raw, from_raw}
use kite_sql.Types.Value.RoundTrip.{DecimalLaws, Fits, to_raw_stored, Fits-is_null}
use kite_sql.Types.Tuple.{flip_bit, mark_null, serialize_from}
use kite_sql.Types.Tuple.Bitmap.{null_bit, mark_null_lem}

-- A row of the columns: each value is null or fits its column.
pub data Row {D : Type 0} : List LogicalType → List (DataValue D) → Type 0 where
  nil : Row [] []
  null_column :
      {tys : List LogicalType} {vs : List (DataValue D)} (ty : LogicalType)
      → Row tys vs
      → Row (ty ∷ tys) (null ∷ vs)
  column :
      {tys : List LogicalType} {vs : List (DataValue D)} (ty : LogicalType) (v : DataValue D)
      → Fits ty v
      → Row tys vs
      → Row (ty ∷ tys) (v ∷ vs)

-- Whether column `j` is a null of the columns `vs`, which begin at column `i`.
abbrev pub null_at : {D : Type 0} → ℕ → List (DataValue D) → ℕ → Bool
null_at i [] j = false
null_at i (v ∷ vs) j = ((i == j) && is_null v) || null_at (suc i) vs j

pub null_at_before :
    {D : Type 0} (vs : List (DataValue D)) (i j : ℕ) → j < i → null_at i vs j ≡ false
null_at_before [] i j h = refl
null_at_before (v ∷ vs) i j h = ground (arith, null_at_before vs (suc i) j)

module _ (f : Foreign) where
  abbrev pub V : Type 0
  V = DataValue f.Decimal

  -- The bytes behind the bitmap.
  pub data Payload : List LogicalType → List V → List ℕ → Type 0 where
    no_bytes : Payload [] [] []
    skipped :
        {tys : List LogicalType} {vs : List V} {raw : List ℕ} (ty : LogicalType)
        → Payload tys vs raw
        → Payload (ty ∷ tys) (null ∷ vs) raw
    stored :
        {tys : List LogicalType} {vs : List V} {raw : List ℕ} (ty : LogicalType) (v : V)
        (bs : List ℕ)
        → is_null v ≡ false
        → ((rest : List ℕ)
            → (from_raw f ty true (bs ++ rest) ≡ ok (some v, rest))
              × (from_raw f ty false (bs ++ rest) ≡ ok (none, rest)))
        → Payload tys vs raw
        → Payload (ty ∷ tys) (v ∷ vs) (bs ++ raw)

  mark_null-append :
      (i : ℕ) (h h' body : List ℕ)
      → i / 8 < length h
      → mark_null i h ≡ ok h'
      → mark_null i (h ++ body) ≡ ok (h' ++ body)
  unfolding mark_null
  mark_null-append i h h' body lt e = elim (Option-cases (get_elem? h (i / 8))) [
    | inl missing ↦ ground (arith, missing)
    | inr (b, found) ↦ ground (
      arith,
      found,
      get_elem?-append h body (i / 8) lt,
      set-append h body (i / 8) (flip_bit b (i % 8)) lt,
    )
  ]

  serialize_value :
      (i : ℕ) (v : V) (vs : List V) (bytes bs : List ℕ)
      → is_null v ≡ false
      → to_raw f v ≡ ok bs
      → serialize_from f i (v ∷ vs) bytes ≡ serialize_from f (suc i) vs (bytes ++ bs)
  unfolding serialize_from
  serialize_value i v vs bytes bs seen written = ground (arith, seen, written)

  serialize_null :
      (i : ℕ) (vs : List V) (bytes bytes' : List ℕ)
      → mark_null i bytes ≡ ok bytes'
      → serialize_from f i (null ∷ vs) bytes ≡ serialize_from f (suc i) vs bytes'
  unfolding serialize_from is_null
  serialize_null i vs bytes bytes' marked = ground (arith, marked)

  -- What the loop of `serialize_to` leaves behind a bitmap `h` and the bytes `body`.
  pub record Written (tys : List LogicalType) (vs : List V) (i : ℕ) (h body : List ℕ) : Type 0 where
    pub bitmap : List ℕ
    pub raw : List ℕ
    pub result : serialize_from f i vs (h ++ body) ≡ ok (bitmap ++ (body ++ raw))
    pub payload : Payload tys vs raw
    pub bytes : AllBytes bitmap
    pub size : length bitmap ≡ length h
    pub bits : (j : ℕ) → null_bit bitmap j ≡ (null_at i vs j || null_bit h j)

  module _ (laws : DecimalLaws f) where
    pub serialize_from_lem :
        {tys : List LogicalType} {vs : List V} (i : ℕ) (h body : List ℕ)
        → Row tys vs
        → AllBytes h
        → i + length vs ≤ 8 * length h
        → Written tys vs i h body
    unfolding serialize_from is_null
    serialize_from_lem i h body nil bytes fit = record {
      bitmap = h;
      raw = [];
      result = rw append-nil;
      payload = no_bytes;
      bytes = bytes;
      size = refl;
      bits = λ j. refl;
    }
    serialize_from_lem i h body (null_column ty r) bytes fit =
        let (h', marked, bytes', size', bits') = mark_null_lem h i bytes (omega arith) in
        let w = serialize_from_lem (suc i) h' body r bytes' (omega arith) in
        record {
          bitmap = w.bitmap;
          raw = w.raw;
          result =
              serialize_null i _ _ _ (mark_null-append i h h' body (omega arith) marked) ∙ w.result;
          payload = skipped ty w.payload;
          bytes = w.bytes;
          size = w.size ∙ size';
          bits = λ j. ground (arith, w.bits j, bits' j);
        }
    serialize_from_lem i h body (column ty v fits r) bytes fit =
        let (bs, written, reads) = to_raw_stored f laws ty v fits in
        let w = serialize_from_lem (suc i) h (body ++ bs) r bytes (omega arith) in
        let seen = Fits-is_null fits in
        record {
          bitmap = w.bitmap;
          raw = bs ++ w.raw;
          result =
              serialize_value i v _ (h ++ body) bs seen written
              ∙ rw (append_assoc h body bs, ← append_assoc body bs w.raw) w.result;
          payload = stored ty v bs seen reads w.payload;
          bytes = w.bytes;
          size = w.size;
          bits = λ j. ground (arith, w.bits j, seen);
        }
