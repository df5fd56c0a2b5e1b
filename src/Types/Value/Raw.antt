-- ===== src/Types/Value/Raw.antt =====
-- `DataValue::to_raw` and `DataValue::from_raw` of src/types/value.rs: the bytes of a value in a
-- stored row. A writer is the list of the bytes that are written, a reader the list of those left.
use kite_sql.Prelude.Int.{to_bits, from_bits}
use kite_sql.Prelude.{
  ℕ, ◌-◌, Bool, true, false, Option, none, some, List, [], ◌∷◌, ◌++◌, ◌==◌, if◌then◌else◌, ltb,
  length, replicate, Result, ok, panic, ◌>>=◌, not,
}
use kite_sql.Types.Logical.{LogicalType, characters, octets}
use kite_sql.Types.Bytes.{to_le_bytes, read_exact, read_word, seek}
use kite_sql.Types.Utf8.{from_utf8, pad_chars, trim_blanks, blank}
use kite_sql.Types.Value.{
  Foreign, DataValue, variable, fixed, null, boolean, float32, float64, int8, int16, int32, int64,
  u_int8, u_int16, u_int32, u_int64, utf8, date32, date64, time32, time64, decimal, tuple,
}

-- Half of the values of `i8`, `i16`, `i32` and `i64`.
abbrev pub half8 : ℕ
half8 = 0x80

abbrev pub half16 : ℕ
half16 = 0x8000

abbrev pub half32 : ℕ
half32 = 0x8000_0000

abbrev pub half64 : ℕ
half64 = 0x8000_0000_0000_0000

abbrev pub or_zero : Option ℕ → ℕ
or_zero none = 0
or_zero (some n) = n

-- The arms of `from_raw` for a value of `size` bytes: skipped, or read and wrapped.
abbrev pub sized :
    {D : Type 0} → ℕ → Bool → (ℕ → DataValue D) → List ℕ → Result (Option (DataValue D) × List ℕ)
sized size false wrap bs = ok (none, seek size bs)
sized size true wrap bs = do (w, rest) ← read_word size bs; ok (some (wrap w), rest)

-- The arms for texts, once their length in bytes is known.
abbrev pub text :
    {D : Type 0}
    → ℕ
    → Bool
    → (List ℕ → List ℕ)
    → (List ℕ → DataValue D)
    → List ℕ
    → Result (Option (DataValue D) × List ℕ)
text len false cut wrap bs = ok (none, seek len bs)
text len true cut wrap bs = do
  (raw, rest) ← read_exact len bs
  v ← from_utf8 (cut raw)
  ok (some (wrap v), rest)

module _ (f : Foreign) where
  open f use {Decimal, serialize, deserialize}

  unfoldable pub to_raw : DataValue Decimal → Result (List ℕ)
  to_raw null = ok []
  to_raw (boolean v) = ok ((if v then 1 else 0) ∷ [])
  to_raw (float32 v) = ok (to_le_bytes 4 v)
  to_raw (float64 v) = ok (to_le_bytes 8 v)
  to_raw (int8 v) = ok (to_le_bytes 1 (to_bits half8 v))
  to_raw (int16 v) = ok (to_le_bytes 2 (to_bits half16 v))
  to_raw (int32 v) = ok (to_le_bytes 4 (to_bits half32 v))
  to_raw (int64 v) = ok (to_le_bytes 8 (to_bits half64 v))
  to_raw (u_int8 v) = ok (to_le_bytes 1 v)
  to_raw (u_int16 v) = ok (to_le_bytes 2 v)
  to_raw (u_int32 v) = ok (to_le_bytes 4 v)
  to_raw (u_int64 v) = ok (to_le_bytes 8 v)
  to_raw (utf8 v (variable _) unit) = ok (to_le_bytes 4 (length v) ++ v)
  to_raw (utf8 v (fixed len) characters) =
      let padded = pad_chars v len in ok (to_le_bytes 4 (length padded) ++ padded)
  to_raw (utf8 v (fixed len) octets) =
      if ltb len (length v) then panic else ok (v ++ replicate (len - length v) blank)
  to_raw (date32 v) = ok (to_le_bytes 4 (to_bits half32 v))
  to_raw (date64 v) = ok (to_le_bytes 8 (to_bits half64 v))
  to_raw (time32 v _) = ok (to_le_bytes 4 v)
  to_raw (time64 v _ _) = ok (to_le_bytes 8 (to_bits half64 v))
  to_raw (decimal v) = ok (serialize v)
  to_raw (tuple _ _) = panic

  -- `from_raw ty is_projection`: the value, or none where it is only skipped.
  unfoldable pub from_raw :
      LogicalType → Bool → List ℕ → Result (Option (DataValue Decimal) × List ℕ)
  from_raw LogicalType.sql_null false bs = ok (none, bs)
  from_raw LogicalType.sql_null true bs = ok (some null, bs)
  from_raw LogicalType.boolean p bs = sized 1 p (λ w. boolean (not (w == 0))) bs
  from_raw LogicalType.tinyint p bs = sized 1 p (λ w. int8 (from_bits half8 w)) bs
  from_raw LogicalType.u_tinyint p bs = sized 1 p u_int8 bs
  from_raw LogicalType.smallint p bs = sized 2 p (λ w. int16 (from_bits half16 w)) bs
  from_raw LogicalType.u_smallint p bs = sized 2 p u_int16 bs
  from_raw LogicalType.integer p bs = sized 4 p (λ w. int32 (from_bits half32 w)) bs
  from_raw LogicalType.u_integer p bs = sized 4 p u_int32 bs
  from_raw LogicalType.bigint p bs = sized 8 p (λ w. int64 (from_bits half64 w)) bs
  from_raw LogicalType.u_bigint p bs = sized 8 p u_int64 bs
  from_raw LogicalType.float p bs = sized 4 p float32 bs
  from_raw LogicalType.double p bs = sized 8 p float64 bs
  from_raw (LogicalType.char ty_len characters) p bs = do
    (len, rest) ← read_word 4 bs
    text len p trim_blanks (λ v. utf8 v (fixed ty_len) characters) rest
  from_raw (LogicalType.char ty_len octets) p bs =
      text ty_len p trim_blanks (λ v. utf8 v (fixed ty_len) octets) bs
  from_raw (LogicalType.varchar ty_len unit) p bs = do
    (len, rest) ← read_word 4 bs
    text len p (λ raw. raw) (λ v. utf8 v (variable ty_len) unit) rest
  from_raw LogicalType.date p bs = sized 4 p (λ w. date32 (from_bits half32 w)) bs
  from_raw LogicalType.date_time p bs = sized 8 p (λ w. date64 (from_bits half64 w)) bs
  from_raw (LogicalType.time precision) p bs = sized 4 p (λ w. time32 w (or_zero precision)) bs
  from_raw (LogicalType.time_stamp precision zone) p bs =
      sized 8 p (λ w. time64 (from_bits half64 w) (or_zero precision) zone) bs
  from_raw (LogicalType.decimal _ _) false bs = ok (none, seek 16 bs)
  from_raw (LogicalType.decimal _ _) true bs = do
    (raw, rest) ← read_exact 16 bs
    ok (some (decimal (deserialize raw)), rest)
  from_raw (LogicalType.tuple _) p bs = panic
