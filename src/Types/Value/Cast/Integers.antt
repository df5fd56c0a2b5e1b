-- ===== src/Types/Value/Cast/Integers.antt =====
-- What `cast` of src/types/value.rs does between the integer types, which stand by name.
use kite_sql.Prelude.Int.{ℤ, pos, negsuc}
use kite_sql.Prelude.{
  ℕ, suc, Bool, true, false, ltb, if◌then◌else◌, Result, ok, err, DatabaseError, ◌≡◌, arith,
}
use kite_sql.Types.Logical.{LogicalType}
use kite_sql.Types.Bytes.{byte_range}
use kite_sql.Types.Value.{DataValue, int8, int16, int32, int64, u_int8, u_int16, u_int32, u_int64}
use kite_sql.Types.Value.Raw.{half8, half16, half32, half64}
use kite_sql.Types.Value.Cast.{
  Conversions, cast, cast_to, check_len, cast_int8, cast_int16, cast_int32, cast_int64, cast_u_int8,
  cast_u_int16, cast_u_int32, cast_u_int64, try_signed, try_unsigned,
}

pub data IntegerType : Type 0 where
  tinyint : IntegerType
  smallint : IntegerType
  integer : IntegerType
  bigint : IntegerType
  u_tinyint : IntegerType
  u_smallint : IntegerType
  u_integer : IntegerType
  u_bigint : IntegerType

abbrev pub logical : IntegerType → LogicalType
logical tinyint = LogicalType.tinyint
logical smallint = LogicalType.smallint
logical integer = LogicalType.integer
logical bigint = LogicalType.bigint
logical u_tinyint = LogicalType.u_tinyint
logical u_smallint = LogicalType.u_smallint
logical u_integer = LogicalType.u_integer
logical u_bigint = LogicalType.u_bigint

-- The numbers a signed and an unsigned type holds.
unfoldable pub in_signed : ℕ → ℤ → Bool
in_signed half (pos n) = ltb n half
in_signed half (negsuc n) = ltb n half

unfoldable pub in_unsigned : ℕ → ℤ → Bool
in_unsigned range (pos n) = ltb n range
in_unsigned range (negsuc n) = false

unfoldable pub in_range : IntegerType → ℤ → Bool
unfolding in_signed in_unsigned
in_range tinyint z = in_signed half8 z
in_range smallint z = in_signed half16 z
in_range integer z = in_signed half32 z
in_range bigint z = in_signed half64 z
in_range u_tinyint z = in_unsigned (byte_range 1) z
in_range u_smallint z = in_unsigned (byte_range 2) z
in_range u_integer z = in_unsigned (byte_range 4) z
in_range u_bigint z = in_unsigned (byte_range 8) z

unfoldable pub magnitude : ℤ → ℕ
magnitude (pos n) = n
magnitude (negsuc n) = suc n

-- The value of a type that stands for a number.
unfoldable pub value_in : {D : Type 0} → IntegerType → ℤ → DataValue D
unfolding magnitude
value_in tinyint z = int8 z
value_in smallint z = int16 z
value_in integer z = int32 z
value_in bigint z = int64 z
value_in u_tinyint z = u_int8 (magnitude z)
value_in u_smallint z = u_int16 (magnitude z)
value_in u_integer z = u_int32 (magnitude z)
value_in u_bigint z = u_int64 (magnitude z)

module _ {D : Type 0} (c : Conversions D)
    (other : DataValue D → LogicalType → Result (DataValue D)) where
  -- Each number of an integer type is cast to a type that holds it as that type's value of the same
  -- number, and to a type that does not as the error of `try_from`.
  pub cast-in_range :
      (s t : IntegerType) (z : ℤ)
      → in_range s z ≡ true
      → cast c other (value_in s z) (logical t)
        ≡ (if in_range t z then ok (value_in t z) else err DatabaseError.try_from_int)
  unfolding cast cast_to check_len cast_int8 cast_int16 cast_int32 cast_int64 cast_u_int8
      cast_u_int16 cast_u_int32 cast_u_int64 try_signed try_unsigned value_in in_range magnitude
      in_signed in_unsigned
  cast-in_range s t (pos n) h = ground arith
  cast-in_range s t (negsuc n) h = ground arith
