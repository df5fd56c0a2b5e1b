-- ===== src/Types/Value/RoundTrip.antt =====
-- `to_raw` against `from_raw`: which values fit a column, and that they survive storage.
use kite_sql.Prelude.Int.{ℤ, IsSigned, to_bits, from_bits, to_bits-lt, from_bits-to_bits}
use kite_sql.Prelude.{
  ℕ, ◌+◌, ◌-◌, ◌≤◌, ◌<◌, ◌≡◌, refl, Bool, true, false, Option, none, some, List, [], ◌∷◌, ◌++◌,
  length, replicate, Result, ok, ◌>>=◌, ◌==◌, ◌∙◌, not, arith, ap, length-append, length-replicate,
}
use mathlib.Core.List.{append_assoc}
use kite_sql.Types.Logical.{CharLengthUnits, LogicalType, characters, octets}
use kite_sql.Types.Bytes.{
  to_le_bytes, read_exact, read_word, seek, byte_range, length-to_le_bytes, read_word-to_le_bytes,
  read_exact-append, seek-append,
}
use kite_sql.Types.Utf8.{
  is_utf8, from_utf8, pad_chars, trim_blanks, blank, trim_blanks-append_blanks,
  trim_blanks-pad_chars,
}
use kite_sql.Types.Value.Raw.{half8, half16, half32, half64, or_zero, sized, text, to_raw, from_raw}
use kite_sql.Types.Value.{
  Foreign, DataValue, is_null, variable, fixed, boolean, float32, float64, int8, int16, int32,
  int64, u_int8, u_int16, u_int32, u_int64, utf8, date32, date64, time32, time64, decimal,
}

-- The documented wire format of the decimals: sixteen bytes, read back.
pub record DecimalLaws (f : Foreign) : Type 0 where
  pub length-serialize : (d : f.Decimal) → length (f.serialize d) ≡ 16
  pub deserialize-serialize : (d : f.Decimal) → f.deserialize (f.serialize d) ≡ d

-- The non-null values of a column of a type: in the range of the machine type, a text valid and not
-- too long, and a fixed text without trailing blanks.
pub data Fits {D : Type 0} : LogicalType → DataValue D → Type 0 where
  of_boolean : (b : Bool) → Fits LogicalType.boolean (boolean b)
  of_tinyint : (z : ℤ) → IsSigned half8 z → Fits LogicalType.tinyint (int8 z)
  of_u_tinyint : (n : ℕ) → n < byte_range 1 → Fits LogicalType.u_tinyint (u_int8 n)
  of_smallint : (z : ℤ) → IsSigned half16 z → Fits LogicalType.smallint (int16 z)
  of_u_smallint : (n : ℕ) → n < byte_range 2 → Fits LogicalType.u_smallint (u_int16 n)
  of_integer : (z : ℤ) → IsSigned half32 z → Fits LogicalType.integer (int32 z)
  of_u_integer : (n : ℕ) → n < byte_range 4 → Fits LogicalType.u_integer (u_int32 n)
  of_bigint : (z : ℤ) → IsSigned half64 z → Fits LogicalType.bigint (int64 z)
  of_u_bigint : (n : ℕ) → n < byte_range 8 → Fits LogicalType.u_bigint (u_int64 n)
  of_float : (n : ℕ) → n < byte_range 4 → Fits LogicalType.float (float32 n)
  of_double : (n : ℕ) → n < byte_range 8 → Fits LogicalType.double (float64 n)
  of_char_characters :
      (v : List ℕ) (len : ℕ)
      → is_utf8 v ≡ true
      → trim_blanks v ≡ v
      → length (pad_chars v len) < byte_range 4
      → Fits (LogicalType.char len characters) (utf8 v (fixed len) characters)
  of_char_octets :
      (v : List ℕ) (len : ℕ)
      → is_utf8 v ≡ true
      → trim_blanks v ≡ v
      → length v ≤ len
      → Fits (LogicalType.char len octets) (utf8 v (fixed len) octets)
  of_varchar :
      (v : List ℕ) (len : Option ℕ) (unit : CharLengthUnits)
      → is_utf8 v ≡ true
      → length v < byte_range 4
      → Fits (LogicalType.varchar len unit) (utf8 v (variable len) unit)
  of_date : (z : ℤ) → IsSigned half32 z → Fits LogicalType.date (date32 z)
  of_date_time : (z : ℤ) → IsSigned half64 z → Fits LogicalType.date_time (date64 z)
  of_time :
      (n : ℕ) (p : Option ℕ) → n < byte_range 4 → Fits (LogicalType.time p) (time32 n (or_zero p))
  of_time_stamp :
      (z : ℤ) (p : Option ℕ) (zone : Bool)
      → IsSigned half64 z
      → Fits (LogicalType.time_stamp p zone) (time64 z (or_zero p) zone)
  of_decimal : (d : D) (p s : Option ℕ) → Fits (LogicalType.decimal p s) (decimal d)

pub Fits-is_null : {D : Type 0} {ty : LogicalType} {v : DataValue D} → Fits ty v → is_null v ≡ false
unfolding is_null
Fits-is_null (of_boolean b) = refl
Fits-is_null _ = refl

-- The bytes of `v` are written, read back as `v`, and skipped as a whole.
abbrev pub Survives : (f : Foreign) → LogicalType → DataValue f.Decimal → List ℕ → Type 0
Survives f ty v rest =
    (bs : List ℕ) × (to_raw f v ≡ ok bs)
    × (from_raw f ty true (bs ++ rest) ≡ ok (some v, rest))
    × (from_raw f ty false (bs ++ rest) ≡ ok (none, rest))

seek_word : (n x : ℕ) (rest : List ℕ) → seek n (to_le_bytes n x ++ rest) ≡ rest
seek_word n x rest = ground (arith, seek-append (to_le_bytes n x) rest, length-to_le_bytes n x)

module _ {D : Type 0} (rest : List ℕ) where
  -- A word survives if the wrapper takes its bits back to the value.
  sized_word :
      (n w : ℕ) (wrap : ℕ → DataValue D) {v : DataValue D}
      → w < byte_range n
      → wrap w ≡ v
      → (sized n true wrap (to_le_bytes n w ++ rest) ≡ ok (some v, rest))
        × (sized n false wrap (to_le_bytes n w ++ rest) ≡ ok (none, rest))
  sized_word n w wrap h e =
      (ground (arith, read_word-to_le_bytes n w rest h), ground (arith, seek_word n w rest))

  text_bytes :
      (raw : List ℕ) (cut : List ℕ → List ℕ) (wrap : List ℕ → DataValue D) (v : List ℕ)
      → cut raw ≡ v
      → is_utf8 v ≡ true
      → (text (length raw) true cut wrap (raw ++ rest) ≡ ok (some (wrap v), rest))
        × (text (length raw) false cut wrap (raw ++ rest) ≡ ok (none, rest))
  unfolding from_utf8
  text_bytes raw cut wrap v e h = (rw (read_exact-append raw rest, e, h), ap_skip)
    where
      ap_skip : text (length raw) false cut wrap (raw ++ rest) ≡ ok (none, rest)
      ap_skip = rw (seek-append raw rest)

module _ (f : Foreign) (laws : DecimalLaws f) (rest : List ℕ) where
  -- A text behind its length.
  prefixed :
      (raw : List ℕ) (g : ℕ → List ℕ → Result (Option (DataValue f.Decimal) × List ℕ))
      → length raw < byte_range 4
      → (read_word 4 ((to_le_bytes 4 (length raw) ++ raw) ++ rest) >>= λ s. g s.0 s.1)
        ≡ g (length raw) (raw ++ rest)
  prefixed raw g h =
      rw
        (
          append_assoc (to_le_bytes 4 (length raw)) raw rest,
          read_word-to_le_bytes 4 (length raw) (raw ++ rest) h,
        )
        refl

  prefixed_text :
      (raw : List ℕ) (cut : List ℕ → List ℕ) (wrap : List ℕ → DataValue f.Decimal) (v : List ℕ)
      → length raw < byte_range 4
      → cut raw ≡ v
      → is_utf8 v ≡ true
      → let read = λ (p : Bool). read_word 4 ((to_le_bytes 4 (length raw) ++ raw) ++ rest) >>= λ s.
          text s.0 p cut wrap s.1 in
        (read true ≡ ok (some (wrap v), rest)) × (read false ≡ ok (none, rest))
  prefixed_text raw cut wrap v h e u =
      let r = text_bytes rest raw cut wrap v e u in
      (
        prefixed raw (λ len bs. text len true cut wrap bs) h ∙ r.0,
        prefixed raw (λ len bs. text len false cut wrap bs) h ∙ r.1,
      )

  decimal_bytes :
      (d : f.Decimal)
      → (read_exact 16 (f.serialize d ++ rest) ≡ ok (f.serialize d, rest))
        × (seek 16 (f.serialize d ++ rest) ≡ rest)
  decimal_bytes d = (
    ground (arith, read_exact-append (f.serialize d) rest, laws.length-serialize d),
    ground (arith, seek-append (f.serialize d) rest, laws.length-serialize d),
  )

  signed_word :
      (n half : ℕ) (wrap : ℤ → DataValue f.Decimal) (z : ℤ)
      → half + half ≡ byte_range n
      → IsSigned half z
      → let wrapped = λ (w : ℕ). wrap (from_bits half w) in
        (sized n true wrapped (to_le_bytes n (to_bits half z) ++ rest) ≡ ok (some (wrap z), rest))
        × (sized n false wrapped (to_le_bytes n (to_bits half z) ++ rest) ≡ ok (none, rest))
  signed_word n half wrap z e h =
      sized_word rest n (to_bits half z) (λ w. wrap (from_bits half w))
        (omega (arith, to_bits-lt half z h)) (ap wrap (from_bits-to_bits half z h))

  survives :
      (ty : LogicalType) (v : DataValue f.Decimal) (bs : List ℕ)
      → to_raw f v ≡ ok bs
      → (from_raw f ty true (bs ++ rest) ≡ ok (some v, rest))
        × (from_raw f ty false (bs ++ rest) ≡ ok (none, rest))
      → Survives f ty v rest
  survives ty v bs e r = (bs, e, r.0, r.1)

  octets_survive :
      (v : List ℕ) (len : ℕ)
      → is_utf8 v ≡ true
      → trim_blanks v ≡ v
      → length v ≤ len
      → Survives f (LogicalType.char len octets) (utf8 v (fixed len) octets) rest
  unfolding to_raw from_raw
  octets_survive v len u t h =
      let raw = v ++ replicate (len - length v) blank in
      let n : length raw ≡ len = omega (
        arith,
        length-append v (replicate (len - length v) blank),
        length-replicate (len - length v) blank,
      ) in
      let r =
        text_bytes {D = f.Decimal} rest raw trim_blanks (λ v. utf8 v (fixed len) octets) v
          (trim_blanks-append_blanks v (len - length v) ∙ t) u in
      survives (LogicalType.char len octets) (utf8 v (fixed len) octets) raw (ground arith)
        (rw n at r)

  -- Every value that fits its column is written, read back unchanged, and skipped exactly.
  pub from_raw-to_raw :
      (ty : LogicalType) (v : DataValue f.Decimal) → Fits ty v → Survives f ty v rest
  unfolding to_raw from_raw to_le_bytes
  from_raw-to_raw ty v (of_boolean true) =
      survives ty v (1 ∷ []) refl
        (sized_word rest 1 1 (λ w. boolean (not (w == 0))) (omega arith) refl)
  from_raw-to_raw ty v (of_boolean false) =
      survives ty v (0 ∷ []) refl
        (sized_word rest 1 0 (λ w. boolean (not (w == 0))) (omega arith) refl)
  from_raw-to_raw ty v (of_tinyint z h) =
      survives ty v (to_le_bytes 1 (to_bits half8 z)) refl (signed_word 1 half8 int8 z refl h)
  from_raw-to_raw ty v (of_u_tinyint n h) =
      survives ty v (to_le_bytes 1 n) refl (sized_word rest 1 n u_int8 h refl)
  from_raw-to_raw ty v (of_smallint z h) =
      survives ty v (to_le_bytes 2 (to_bits half16 z)) refl (signed_word 2 half16 int16 z refl h)
  from_raw-to_raw ty v (of_u_smallint n h) =
      survives ty v (to_le_bytes 2 n) refl (sized_word rest 2 n u_int16 h refl)
  from_raw-to_raw ty v (of_integer z h) =
      survives ty v (to_le_bytes 4 (to_bits half32 z)) refl (signed_word 4 half32 int32 z refl h)
  from_raw-to_raw ty v (of_u_integer n h) =
      survives ty v (to_le_bytes 4 n) refl (sized_word rest 4 n u_int32 h refl)
  from_raw-to_raw ty v (of_bigint z h) =
      survives ty v (to_le_bytes 8 (to_bits half64 z)) refl (signed_word 8 half64 int64 z refl h)
  from_raw-to_raw ty v (of_u_bigint n h) =
      survives ty v (to_le_bytes 8 n) refl (sized_word rest 8 n u_int64 h refl)
  from_raw-to_raw ty v (of_float n h) =
      survives ty v (to_le_bytes 4 n) refl (sized_word rest 4 n float32 h refl)
  from_raw-to_raw ty v (of_double n h) =
      survives ty v (to_le_bytes 8 n) refl (sized_word rest 8 n float64 h refl)
  from_raw-to_raw ty v (of_date z h) =
      survives ty v (to_le_bytes 4 (to_bits half32 z)) refl (signed_word 4 half32 date32 z refl h)
  from_raw-to_raw ty v (of_date_time z h) =
      survives ty v (to_le_bytes 8 (to_bits half64 z)) refl (signed_word 8 half64 date64 z refl h)
  from_raw-to_raw ty v (of_time n p h) =
      survives ty v (to_le_bytes 4 n) refl (sized_word rest 4 n (λ w. time32 w (or_zero p)) h refl)
  from_raw-to_raw ty v (of_time_stamp z p zone h) =
      survives ty v (to_le_bytes 8 (to_bits half64 z)) refl
        (signed_word 8 half64 (λ z. time64 z (or_zero p) zone) z refl h)
  from_raw-to_raw ty v (of_decimal d p s) = survives ty v (f.serialize d) refl (
    rw ((decimal_bytes d).0, laws.deserialize-serialize d),
    ap (λ (bs : List ℕ). ok (none, bs)) (decimal_bytes d).1,
  )
  from_raw-to_raw ty v (of_char_characters x len u t h) =
      survives ty v (to_le_bytes 4 (length (pad_chars x len)) ++ pad_chars x len) refl (
        prefixed_text (pad_chars x len) trim_blanks (λ v. utf8 v (fixed len) characters) x h
          (trim_blanks-pad_chars x len t) u)
  from_raw-to_raw ty v (of_char_octets x len u t h) = octets_survive x len u t h
  from_raw-to_raw ty v (of_varchar x len unit u h) =
      survives ty v (to_le_bytes 4 (length x) ++ x) refl
        (prefixed_text x (λ raw. raw) (λ v. utf8 v (variable len) unit) x h refl u)

-- The bytes of a value do not depend on what follows them.
pub to_raw_stored :
    (f : Foreign) (laws : DecimalLaws f) (ty : LogicalType) (v : DataValue f.Decimal)
    → Fits ty v
    → (bs : List ℕ) × (to_raw f v ≡ ok bs)
      × ((rest : List ℕ)
          → (from_raw f ty true (bs ++ rest) ≡ ok (some v, rest))
            × (from_raw f ty false (bs ++ rest) ≡ ok (none, rest)))
to_raw_stored f laws ty v fits =
    let (bs, e, _, _) = from_raw-to_raw f laws [] ty v fits in
    (
      bs,
      e,
      λ rest.
          let (bs', e', r, s) = from_raw-to_raw f laws rest ty v fits in
          let q : bs' ≡ bs = cc in (rw q at r, rw q at s),
    )
