-- ===== src/Types/Value/Cast.antt =====
-- `cast` of src/types/value.rs from NULL, booleans and integers, with the macros `varchar_cast` and
-- `numeric_to_boolean`. The conversions of integers to floats and decimals are arguments; the casts
-- of the other values are `cast_other`, an argument too.
pub mod Integers
pub mod Text
pub mod Examples
use kite_sql.Prelude.Int.{ℤ, pos, negsuc}
use kite_sql.Prelude.{
  ℕ, zero, suc, ◌+◌, ◌/◌, ◌%◌, Bool, true, false, ltb, if◌then◌else◌, Option, none, some, List, [],
  ◌∷◌, ◌++◌, length, Result, ok, err, DatabaseError, ◌>>=◌, ◌>>◌,
}
use kite_sql.Types.Logical.{LogicalType, CharLengthUnits, characters, octets}
use kite_sql.Types.Bytes.{byte_range}
use kite_sql.Types.Value.{
  DataValue, Utf8Type, variable, fixed, null, boolean, float32, float64, int8, int16, int32, int64,
  u_int8, u_int16, u_int32, u_int64, utf8, decimal,
}
use kite_sql.Types.Value.Raw.{half8, half16, half32, half64}

-- What rust_decimal provides, and the rounding of integers to floats, as bit patterns.
pub record Conversions (D : Type 0) : Type 0 where
  pub to_f32 : ℤ → ℕ
  pub to_f64 : ℤ → ℕ
  pub decimal_from : ℤ → D
  pub trunc_with_scale : D → ℕ → D
  pub mantissa_abs : D → ℕ
  pub scale : D → ℕ

-- `to_string` of integers and booleans.
unfoldable pub digits : ℕ → ℕ → List ℕ
digits zero n = []
digits (suc rounds) n = elim (ltb n 10) [
  | true ↦ (48 + n) ∷ []
  | false ↦ digits rounds (n / 10) ++ (48 + n % 10) ∷ []
]

unfoldable pub integer_to_string : ℤ → List ℕ
unfolding digits
integer_to_string (pos n) = digits (suc n) n
integer_to_string (negsuc n) = b'-' ∷ digits (suc (suc n)) (suc n)

abbrev pub bool_to_string : Bool → List ℕ
bool_to_string true = b't' ∷ b'r' ∷ b'u' ∷ b'e' ∷ []
bool_to_string false = b'f' ∷ b'a' ∷ b'l' ∷ b's' ∷ b'e' ∷ []

-- `string.chars().count()`: the bytes that begin a character.
unfoldable pub chars_count : List ℕ → ℕ
chars_count [] = 0
chars_count (b ∷ bs) =
    let rest = chars_count bs in
    if ltb b 128 then suc rest else if ltb b 192 then rest else suc rest

unfoldable pub check_string_len : List ℕ → ℕ → CharLengthUnits → Bool
unfolding chars_count
check_string_len string len characters = ltb len (chars_count string)
check_string_len string len octets = ltb len (length string)

abbrev pub bool_number : Bool → ℕ
bool_number true = 1
bool_number false = 0

-- The two tests of `check_len` on a decimal.
unfoldable pub check_precision : Option ℕ → ℕ → Result (Unit {0})
unfolding digits
check_precision none mantissa = ok tt
check_precision (some len) zero = ok tt
check_precision (some len) (suc m) =
    if ltb len (length (digits (suc (suc m)) (suc m))) then err DatabaseError.too_long else ok tt

unfoldable pub check_scale : Option ℕ → ℕ → Result (Unit {0})
check_scale none places = ok tt
check_scale (some len) places = if ltb len places then err DatabaseError.too_long else ok tt

module _ {D : Type 0} where
  unfoldable pub varchar_cast :
      List ℕ → Option ℕ → Utf8Type → CharLengthUnits → Result (DataValue D)
  unfolding check_string_len
  varchar_cast s_value none ty unit = ok (utf8 s_value ty unit)
  varchar_cast s_value (some len) ty unit =
      if check_string_len s_value len unit
      then err DatabaseError.too_long
      else ok (utf8 s_value ty unit)

  unfoldable pub numeric_to_boolean : ℤ → Result (DataValue D)
  numeric_to_boolean (pos zero) = ok (boolean false)
  numeric_to_boolean (pos (suc zero)) = ok (boolean true)
  numeric_to_boolean value = err DatabaseError.cast_fail

  -- `try_from` of the standard library to a signed and an unsigned type.
  unfoldable pub try_signed : ℕ → (ℤ → DataValue D) → ℤ → Result (DataValue D)
  try_signed half wrap (pos n) =
      if ltb n half then ok (wrap (pos n)) else err DatabaseError.try_from_int
  try_signed half wrap (negsuc n) =
      if ltb n half then ok (wrap (negsuc n)) else err DatabaseError.try_from_int

  unfoldable pub try_unsigned : ℕ → (ℕ → DataValue D) → ℤ → Result (DataValue D)
  try_unsigned range wrap (pos n) =
      if ltb n range then ok (wrap n) else err DatabaseError.try_from_int
  try_unsigned range wrap (negsuc n) = err DatabaseError.try_from_int

module _ {D : Type 0} (c : Conversions D) where
  open c use {to_f32, to_f64, decimal_from, trunc_with_scale, mantissa_abs, scale}

  unfoldable pub decimal_round_i : Option ℕ → D → D
  decimal_round_i none d = d
  decimal_round_i (some places) d = trunc_with_scale d places

  -- `check_len`. `ilog10() + 1` of a mantissa is the number of its digits.
  unfoldable pub check_len : DataValue D → LogicalType → Result (Unit {0})
  unfolding check_string_len check_precision check_scale
  check_len (utf8 val (variable len') characters) (LogicalType.varchar (some len) characters) =
      if check_string_len val len characters then err DatabaseError.too_long else ok tt
  check_len (utf8 val (fixed len') characters) (LogicalType.char len characters) =
      if check_string_len val len characters then err DatabaseError.too_long else ok tt
  check_len (utf8 val (variable len') octets) (LogicalType.varchar (some len) octets) =
      if check_string_len val len octets then err DatabaseError.too_long else ok tt
  check_len (utf8 val (fixed len') octets) (LogicalType.char len octets) =
      if check_string_len val len octets then err DatabaseError.too_long else ok tt
  check_len (decimal val) (LogicalType.decimal full_len scale_len) =
      check_precision full_len (mantissa_abs val) >> check_scale scale_len (scale val)
  check_len value to = ok tt

  unfoldable pub cast_boolean : Bool → LogicalType → Result (DataValue D)
  unfolding varchar_cast
  cast_boolean value LogicalType.sql_null = ok null
  cast_boolean value LogicalType.boolean = ok (boolean value)
  cast_boolean value LogicalType.tinyint = ok (int8 (pos (bool_number value)))
  cast_boolean value LogicalType.smallint = ok (int16 (pos (bool_number value)))
  cast_boolean value LogicalType.integer = ok (int32 (pos (bool_number value)))
  cast_boolean value LogicalType.bigint = ok (int64 (pos (bool_number value)))
  cast_boolean value LogicalType.u_tinyint = ok (u_int8 (bool_number value))
  cast_boolean value LogicalType.u_smallint = ok (u_int16 (bool_number value))
  cast_boolean value LogicalType.u_integer = ok (u_int32 (bool_number value))
  cast_boolean value LogicalType.u_bigint = ok (u_int64 (bool_number value))
  cast_boolean value LogicalType.float = ok (float32 (to_f32 (pos (bool_number value))))
  cast_boolean value LogicalType.double = ok (float64 (to_f64 (pos (bool_number value))))
  cast_boolean value (LogicalType.char len unit) =
      varchar_cast (bool_to_string value) (some len) (fixed len) unit
  cast_boolean value (LogicalType.varchar len unit) =
      varchar_cast (bool_to_string value) len (variable len) unit
  cast_boolean value to = err DatabaseError.cast_fail

  unfoldable pub cast_int8 : ℤ → LogicalType → Result (DataValue D)
  unfolding varchar_cast numeric_to_boolean try_signed try_unsigned integer_to_string
      decimal_round_i
  cast_int8 value LogicalType.sql_null = ok null
  cast_int8 value LogicalType.tinyint = ok (int8 value)
  cast_int8 value LogicalType.smallint = ok (int16 value)
  cast_int8 value LogicalType.integer = ok (int32 value)
  cast_int8 value LogicalType.bigint = ok (int64 value)
  cast_int8 value LogicalType.u_tinyint = try_unsigned (byte_range 1) u_int8 value
  cast_int8 value LogicalType.u_smallint = try_unsigned (byte_range 2) u_int16 value
  cast_int8 value LogicalType.u_integer = try_unsigned (byte_range 4) u_int32 value
  cast_int8 value LogicalType.u_bigint = try_unsigned (byte_range 8) u_int64 value
  cast_int8 value LogicalType.float = ok (float32 (to_f32 value))
  cast_int8 value LogicalType.double = ok (float64 (to_f64 value))
  cast_int8 value (LogicalType.char len unit) =
      varchar_cast (integer_to_string value) (some len) (fixed len) unit
  cast_int8 value (LogicalType.varchar len unit) =
      varchar_cast (integer_to_string value) len (variable len) unit
  cast_int8 value (LogicalType.decimal precision option) =
      ok (decimal (decimal_round_i option (decimal_from value)))
  cast_int8 value LogicalType.boolean = numeric_to_boolean value
  cast_int8 value to = err DatabaseError.cast_fail

  unfoldable pub cast_int16 : ℤ → LogicalType → Result (DataValue D)
  unfolding varchar_cast numeric_to_boolean try_signed try_unsigned integer_to_string
      decimal_round_i
  cast_int16 value LogicalType.sql_null = ok null
  cast_int16 value LogicalType.tinyint = try_signed half8 int8 value
  cast_int16 value LogicalType.smallint = ok (int16 value)
  cast_int16 value LogicalType.integer = ok (int32 value)
  cast_int16 value LogicalType.bigint = ok (int64 value)
  cast_int16 value LogicalType.u_tinyint = try_unsigned (byte_range 1) u_int8 value
  cast_int16 value LogicalType.u_smallint = try_unsigned (byte_range 2) u_int16 value
  cast_int16 value LogicalType.u_integer = try_unsigned (byte_range 4) u_int32 value
  cast_int16 value LogicalType.u_bigint = try_unsigned (byte_range 8) u_int64 value
  cast_int16 value LogicalType.float = ok (float32 (to_f32 value))
  cast_int16 value LogicalType.double = ok (float64 (to_f64 value))
  cast_int16 value (LogicalType.char len unit) =
      varchar_cast (integer_to_string value) (some len) (fixed len) unit
  cast_int16 value (LogicalType.varchar len unit) =
      varchar_cast (integer_to_string value) len (variable len) unit
  cast_int16 value (LogicalType.decimal precision option) =
      ok (decimal (decimal_round_i option (decimal_from value)))
  cast_int16 value LogicalType.boolean = numeric_to_boolean value
  cast_int16 value to = err DatabaseError.cast_fail

  unfoldable pub cast_int32 : ℤ → LogicalType → Result (DataValue D)
  unfolding varchar_cast numeric_to_boolean try_signed try_unsigned integer_to_string
      decimal_round_i
  cast_int32 value LogicalType.sql_null = ok null
  cast_int32 value LogicalType.tinyint = try_signed half8 int8 value
  cast_int32 value LogicalType.smallint = try_signed half16 int16 value
  cast_int32 value LogicalType.integer = ok (int32 value)
  cast_int32 value LogicalType.bigint = ok (int64 value)
  cast_int32 value LogicalType.u_tinyint = try_unsigned (byte_range 1) u_int8 value
  cast_int32 value LogicalType.u_smallint = try_unsigned (byte_range 2) u_int16 value
  cast_int32 value LogicalType.u_integer = try_unsigned (byte_range 4) u_int32 value
  cast_int32 value LogicalType.u_bigint = try_unsigned (byte_range 8) u_int64 value
  cast_int32 value LogicalType.float = ok (float32 (to_f32 value))
  cast_int32 value LogicalType.double = ok (float64 (to_f64 value))
  cast_int32 value (LogicalType.char len unit) =
      varchar_cast (integer_to_string value) (some len) (fixed len) unit
  cast_int32 value (LogicalType.varchar len unit) =
      varchar_cast (integer_to_string value) len (variable len) unit
  cast_int32 value (LogicalType.decimal precision option) =
      ok (decimal (decimal_round_i option (decimal_from value)))
  cast_int32 value LogicalType.boolean = numeric_to_boolean value
  cast_int32 value to = err DatabaseError.cast_fail

  unfoldable pub cast_int64 : ℤ → LogicalType → Result (DataValue D)
  unfolding varchar_cast numeric_to_boolean try_signed try_unsigned integer_to_string
      decimal_round_i
  cast_int64 value LogicalType.sql_null = ok null
  cast_int64 value LogicalType.tinyint = try_signed half8 int8 value
  cast_int64 value LogicalType.smallint = try_signed half16 int16 value
  cast_int64 value LogicalType.integer = try_signed half32 int32 value
  cast_int64 value LogicalType.bigint = ok (int64 value)
  cast_int64 value LogicalType.u_tinyint = try_unsigned (byte_range 1) u_int8 value
  cast_int64 value LogicalType.u_smallint = try_unsigned (byte_range 2) u_int16 value
  cast_int64 value LogicalType.u_integer = try_unsigned (byte_range 4) u_int32 value
  cast_int64 value LogicalType.u_bigint = try_unsigned (byte_range 8) u_int64 value
  cast_int64 value LogicalType.float = ok (float32 (to_f32 value))
  cast_int64 value LogicalType.double = ok (float64 (to_f64 value))
  cast_int64 value (LogicalType.char len unit) =
      varchar_cast (integer_to_string value) (some len) (fixed len) unit
  cast_int64 value (LogicalType.varchar len unit) =
      varchar_cast (integer_to_string value) len (variable len) unit
  cast_int64 value (LogicalType.decimal precision option) =
      ok (decimal (decimal_round_i option (decimal_from value)))
  cast_int64 value LogicalType.boolean = numeric_to_boolean value
  cast_int64 value to = err DatabaseError.cast_fail

  unfoldable pub cast_u_int8 : ℕ → LogicalType → Result (DataValue D)
  unfolding varchar_cast numeric_to_boolean try_signed try_unsigned integer_to_string
      decimal_round_i
  cast_u_int8 value LogicalType.sql_null = ok null
  cast_u_int8 value LogicalType.tinyint = try_signed half8 int8 (pos value)
  cast_u_int8 value LogicalType.smallint = ok (int16 (pos value))
  cast_u_int8 value LogicalType.integer = ok (int32 (pos value))
  cast_u_int8 value LogicalType.bigint = ok (int64 (pos value))
  cast_u_int8 value LogicalType.u_tinyint = ok (u_int8 value)
  cast_u_int8 value LogicalType.u_smallint = ok (u_int16 value)
  cast_u_int8 value LogicalType.u_integer = ok (u_int32 value)
  cast_u_int8 value LogicalType.u_bigint = ok (u_int64 value)
  cast_u_int8 value LogicalType.float = ok (float32 (to_f32 (pos value)))
  cast_u_int8 value LogicalType.double = ok (float64 (to_f64 (pos value)))
  cast_u_int8 value (LogicalType.char len unit) =
      varchar_cast (integer_to_string (pos value)) (some len) (fixed len) unit
  cast_u_int8 value (LogicalType.varchar len unit) =
      varchar_cast (integer_to_string (pos value)) len (variable len) unit
  cast_u_int8 value (LogicalType.decimal precision option) =
      ok (decimal (decimal_round_i option (decimal_from (pos value))))
  cast_u_int8 value LogicalType.boolean = numeric_to_boolean (pos value)
  cast_u_int8 value to = err DatabaseError.cast_fail

  unfoldable pub cast_u_int16 : ℕ → LogicalType → Result (DataValue D)
  unfolding varchar_cast numeric_to_boolean try_signed try_unsigned integer_to_string
      decimal_round_i
  cast_u_int16 value LogicalType.sql_null = ok null
  cast_u_int16 value LogicalType.tinyint = try_signed half8 int8 (pos value)
  cast_u_int16 value LogicalType.smallint = try_signed half16 int16 (pos value)
  cast_u_int16 value LogicalType.integer = ok (int32 (pos value))
  cast_u_int16 value LogicalType.bigint = ok (int64 (pos value))
  cast_u_int16 value LogicalType.u_tinyint = try_unsigned (byte_range 1) u_int8 (pos value)
  cast_u_int16 value LogicalType.u_smallint = ok (u_int16 value)
  cast_u_int16 value LogicalType.u_integer = ok (u_int32 value)
  cast_u_int16 value LogicalType.u_bigint = ok (u_int64 value)
  cast_u_int16 value LogicalType.float = ok (float32 (to_f32 (pos value)))
  cast_u_int16 value LogicalType.double = ok (float64 (to_f64 (pos value)))
  cast_u_int16 value (LogicalType.char len unit) =
      varchar_cast (integer_to_string (pos value)) (some len) (fixed len) unit
  cast_u_int16 value (LogicalType.varchar len unit) =
      varchar_cast (integer_to_string (pos value)) len (variable len) unit
  cast_u_int16 value (LogicalType.decimal precision option) =
      ok (decimal (decimal_round_i option (decimal_from (pos value))))
  cast_u_int16 value LogicalType.boolean = numeric_to_boolean (pos value)
  cast_u_int16 value to = err DatabaseError.cast_fail

  unfoldable pub cast_u_int32 : ℕ → LogicalType → Result (DataValue D)
  unfolding varchar_cast numeric_to_boolean try_signed try_unsigned integer_to_string
      decimal_round_i
  cast_u_int32 value LogicalType.sql_null = ok null
  cast_u_int32 value LogicalType.tinyint = try_signed half8 int8 (pos value)
  cast_u_int32 value LogicalType.smallint = try_signed half16 int16 (pos value)
  cast_u_int32 value LogicalType.integer = try_signed half32 int32 (pos value)
  cast_u_int32 value LogicalType.bigint = ok (int64 (pos value))
  cast_u_int32 value LogicalType.u_tinyint = try_unsigned (byte_range 1) u_int8 (pos value)
  cast_u_int32 value LogicalType.u_smallint = try_unsigned (byte_range 2) u_int16 (pos value)
  cast_u_int32 value LogicalType.u_integer = ok (u_int32 value)
  cast_u_int32 value LogicalType.u_bigint = ok (u_int64 value)
  cast_u_int32 value LogicalType.float = ok (float32 (to_f32 (pos value)))
  cast_u_int32 value LogicalType.double = ok (float64 (to_f64 (pos value)))
  cast_u_int32 value (LogicalType.char len unit) =
      varchar_cast (integer_to_string (pos value)) (some len) (fixed len) unit
  cast_u_int32 value (LogicalType.varchar len unit) =
      varchar_cast (integer_to_string (pos value)) len (variable len) unit
  cast_u_int32 value (LogicalType.decimal precision option) =
      ok (decimal (decimal_round_i option (decimal_from (pos value))))
  cast_u_int32 value LogicalType.boolean = numeric_to_boolean (pos value)
  cast_u_int32 value to = err DatabaseError.cast_fail

  unfoldable pub cast_u_int64 : ℕ → LogicalType → Result (DataValue D)
  unfolding varchar_cast numeric_to_boolean try_signed try_unsigned integer_to_string
      decimal_round_i
  cast_u_int64 value LogicalType.sql_null = ok null
  cast_u_int64 value LogicalType.tinyint = try_signed half8 int8 (pos value)
  cast_u_int64 value LogicalType.smallint = try_signed half16 int16 (pos value)
  cast_u_int64 value LogicalType.integer = try_signed half32 int32 (pos value)
  cast_u_int64 value LogicalType.bigint = try_signed half64 int64 (pos value)
  cast_u_int64 value LogicalType.u_tinyint = try_unsigned (byte_range 1) u_int8 (pos value)
  cast_u_int64 value LogicalType.u_smallint = try_unsigned (byte_range 2) u_int16 (pos value)
  cast_u_int64 value LogicalType.u_integer = try_unsigned (byte_range 4) u_int32 (pos value)
  cast_u_int64 value LogicalType.u_bigint = ok (u_int64 value)
  cast_u_int64 value LogicalType.float = ok (float32 (to_f32 (pos value)))
  cast_u_int64 value LogicalType.double = ok (float64 (to_f64 (pos value)))
  cast_u_int64 value (LogicalType.char len unit) =
      varchar_cast (integer_to_string (pos value)) (some len) (fixed len) unit
  cast_u_int64 value (LogicalType.varchar len unit) =
      varchar_cast (integer_to_string (pos value)) len (variable len) unit
  cast_u_int64 value (LogicalType.decimal precision option) =
      ok (decimal (decimal_round_i option (decimal_from (pos value))))
  cast_u_int64 value LogicalType.boolean = numeric_to_boolean (pos value)
  cast_u_int64 value to = err DatabaseError.cast_fail

  -- The `match self` of `cast`.
  unfoldable pub cast_to :
      (DataValue D → LogicalType → Result (DataValue D))
      → DataValue D
      → LogicalType
      → Result (DataValue D)
  unfolding cast_boolean cast_int8 cast_int16 cast_int32 cast_int64 cast_u_int8 cast_u_int16
      cast_u_int32 cast_u_int64
  cast_to cast_other null to = ok null
  cast_to cast_other (boolean value) to = cast_boolean value to
  cast_to cast_other (int8 value) to = cast_int8 value to
  cast_to cast_other (int16 value) to = cast_int16 value to
  cast_to cast_other (int32 value) to = cast_int32 value to
  cast_to cast_other (int64 value) to = cast_int64 value to
  cast_to cast_other (u_int8 value) to = cast_u_int8 value to
  cast_to cast_other (u_int16 value) to = cast_u_int16 value to
  cast_to cast_other (u_int32 value) to = cast_u_int32 value to
  cast_to cast_other (u_int64 value) to = cast_u_int64 value to
  cast_to cast_other value to = cast_other value to

  unfoldable pub cast :
      (DataValue D → LogicalType → Result (DataValue D))
      → DataValue D
      → LogicalType
      → Result (DataValue D)
  unfolding cast_to check_len
  cast cast_other self to = cast_to cast_other self to >>= λ value. check_len value to >> ok value
