-- ===== src/Types/Value/Cast/Examples.antt =====
-- The casts of Cast.antt at concrete values.
use kite_sql.Prelude.Int.{pos, negsuc}
use kite_sql.Prelude.{ℕ, true, some, none, [], ◌∷◌, Result, ok, err, DatabaseError, ◌≡◌, refl}
use kite_sql.Types.Logical.{LogicalType, characters, octets}
use kite_sql.Types.Value.{DataValue, variable, boolean, int8, int32, u_int8, u_int16, utf8}
use kite_sql.Types.Value.Cast.{Conversions, cast}
use kite_sql.Types.Value.Cast.Integers.{cast-in_range, in_range, value_in, integer, u_tinyint}

-- Decimals with a mantissa only.
abbrev conversions : Conversions ℕ
conversions = record {
  to_f32 = λ z. 0;
  to_f64 = λ z. 0;
  decimal_from = λ z. 12;
  trunc_with_scale = λ d places. d;
  mantissa_abs = λ d. d;
  scale = λ d. 0;
}

abbrev refuse : DataValue ℕ → LogicalType → Result (DataValue ℕ)
refuse value to = err DatabaseError.cast_fail

cast-in_range_example :
    cast conversions refuse (int32 (pos 300)) LogicalType.u_tinyint ≡ err DatabaseError.try_from_int
unfolding in_range value_in
cast-in_range_example = cast-in_range conversions refuse integer u_tinyint (pos 300) refl

abbrev one_two : DataValue ℕ
one_two = utf8 (b'-' ∷ b'1' ∷ b'2' ∷ []) (variable (some 3)) characters

cast_varchar_test :
    cast conversions refuse (int8 (negsuc 11)) (LogicalType.varchar (some 3) characters)
    ≡ ok one_two
unfolding cast
cast_varchar_test = refl

cast_too_long_test :
    cast conversions refuse (int8 (negsuc 11)) (LogicalType.char 2 octets)
    ≡ err DatabaseError.too_long
unfolding cast
cast_too_long_test = refl

cast_precision_test :
    cast conversions refuse (u_int8 12) (LogicalType.decimal (some 1) none)
    ≡ err DatabaseError.too_long
unfolding cast
cast_precision_test = refl

cast_boolean_test : cast conversions refuse (boolean true) LogicalType.u_tinyint ≡ ok (u_int8 1)
unfolding cast
cast_boolean_test = refl

cast_to_boolean_test :
    cast conversions refuse (u_int16 2) LogicalType.boolean ≡ err DatabaseError.cast_fail
unfolding cast
cast_to_boolean_test = refl
