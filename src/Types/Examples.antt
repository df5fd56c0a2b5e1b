-- ===== src/Types/Examples.antt =====
-- Rows and values at concrete inputs. The decimals stand for a crate with two of them.
use kite_sql.Prelude.Int.{negsuc, to_bits}
use kite_sql.Prelude.{
  ℕ, ◌≡◌, refl, Bool, true, false, none, List, [], ◌∷◌, arith, length, replicate, ok, err,
  DatabaseError, ◌>>=◌, if◌then◌else◌, ◌==◌,
}
use Prim.Native.Nat.{compare, Ordering}
use kite_sql.Types.Logical.{LogicalType, characters}
use kite_sql.Types.Logical.Combine.{
  combine_numeric_types, can_implicit_cast, combine_numeric_types_mixed, signed_integer,
  for_u_integer,
}
use kite_sql.Types.Utf8.{utf8_from, trim_blanks, pad_chars, char_count}
use kite_sql.Types.Value.{Foreign, DataValue, is_null, null, int32, utf8, variable, fixed}
use kite_sql.Types.Bytes.{to_le_bytes}
use kite_sql.Types.Value.Raw.{to_raw}
use kite_sql.Types.Value.RoundTrip.{
  DecimalLaws, Survives, from_raw-to_raw, of_integer, of_varchar, of_char_characters,
}
use kite_sql.Types.Tuple.{
  serialize_from, serialize_to, deserialize_from, read_key, pick, mark_null, flip_bit,
}
use kite_sql.Types.Tuple.Written.{Row, null_column, column, nil}
use kite_sql.Types.Tuple.Read.{Selects, all_read, read, pass}
use kite_sql.Types.Tuple.RoundTrip.{deserialize_from-serialize_to, deserialize_from_behind_null}

abbrev pub two_decimals : Foreign
two_decimals = record {
  Decimal = Bool;
  f32_eq = ◌==◌;
  f32_cmp = compare;
  f64_eq = ◌==◌;
  f64_cmp = compare;
  decimal_eq = λ a b. if a then b else if b then false else true;
  decimal_cmp = λ a b. Ordering.eq;
  decimal_zero = false;
  serialize = λ b. (if b then 1 else 0) ∷ replicate 15 0;
  deserialize = λ bs. elim bs [ [] ↦ false | b ∷ _ ↦ b == 1 ];
}

length-serialize : (b : Bool) → length (two_decimals.serialize b) ≡ 16
length-serialize true = refl
length-serialize false = refl

deserialize-serialize : (b : Bool) → two_decimals.deserialize (two_decimals.serialize b) ≡ b
deserialize-serialize true = refl
deserialize-serialize false = refl

pub two_decimals-DecimalLaws : DecimalLaws two_decimals
two_decimals-DecimalLaws = record {
  length-serialize = length-serialize;
  deserialize-serialize = deserialize-serialize;
}

abbrev V : Type 0
V = DataValue Bool

abbrev pub abc : V
abc = utf8 (b'a' ∷ b'b' ∷ b'c' ∷ []) (variable none) characters

abbrev minus_two : V
minus_two = int32 (negsuc 1)

-- id INTEGER, name VARCHAR, age UTINYINT, with a null age
abbrev pub row_types : List LogicalType
row_types = LogicalType.integer ∷ LogicalType.varchar none characters ∷ LogicalType.u_tinyint ∷ []

abbrev pub row_values : List V
row_values = minus_two ∷ abc ∷ null ∷ []

pub Row-row_values : Row row_types row_values
unfolding utf8_from
Row-row_values =
    column _ _ (of_integer (negsuc 1) (omega arith))
      (column _ _ (of_varchar _ none characters refl (omega arith)) (null_column _ nil))

pub stored_row :
    serialize_to two_decimals (record { pk = none; values = row_values })
    ≡ ok (0x20 ∷ 254 ∷ 255 ∷ 255 ∷ 255 ∷ 3 ∷ 0 ∷ 0 ∷ 0 ∷ b'a' ∷ b'b' ∷ b'c' ∷ [])
unfolding serialize_to serialize_from to_raw to_le_bytes to_bits mark_null flip_bit is_null
stored_row = refl

pub selected : Selects {D = Bool} 0 (1 ∷ 2 ∷ []) row_values (abc ∷ null ∷ [])
unfolding is_null
selected = pass minus_two (omega arith) refl (read abc refl (read null refl (all_read 3 [])))

deserialize_from-serialize_to_example :
    (bytes : List ℕ) × (serialize_to two_decimals (record { pk = none; values = row_values })
      ≡ ok bytes)
    × (pick (1 ∷ 2 ∷ []) row_values ≡ ok (abc ∷ null ∷ []))
    × (deserialize_from two_decimals row_types (0 ∷ []) (1 ∷ 2 ∷ []) bytes true ≡ (
        read_key true (0 ∷ []) (abc ∷ null ∷ []) >>= λ key.
        ok (record { pk = key; values = abc ∷ null ∷ [] })))
deserialize_from-serialize_to_example =
    deserialize_from-serialize_to two_decimals two_decimals-DecimalLaws {tys = row_types}
      {vs = row_values} {out = abc ∷ null ∷ []} {projections = 1 ∷ 2 ∷ []} none (0 ∷ []) true
      Row-row_values selected

deserialize_from_behind_null_example :
    (bytes : List ℕ) × (serialize_to two_decimals (record { pk = none; values = null ∷ row_values })
      ≡ ok bytes)
    × (deserialize_from two_decimals (LogicalType.boolean ∷ row_types) (0 ∷ []) (2 ∷ []) bytes false
        ≡ ok (record { pk = none; values = null ∷ [] }))
deserialize_from_behind_null_example =
    deserialize_from_behind_null two_decimals two_decimals-DecimalLaws {tys = row_types}
      {vs = row_values} LogicalType.boolean (0 ∷ []) 1 Row-row_values

from_raw-to_raw_example :
    Survives two_decimals
      (LogicalType.char 5 characters)
      (utf8 (b'a' ∷ 0xC3 ∷ 0xA9 ∷ []) (fixed 5) characters)
      (7 ∷ [])
unfolding utf8_from trim_blanks pad_chars char_count
from_raw-to_raw_example =
    from_raw-to_raw two_decimals two_decimals-DecimalLaws (7 ∷ []) (LogicalType.char 5 characters)
      (utf8 (b'a' ∷ 0xC3 ∷ 0xA9 ∷ []) (fixed 5) characters)
      (of_char_characters (b'a' ∷ 0xC3 ∷ 0xA9 ∷ []) 5 refl refl (omega arith))

combine_numeric_types_mixed_example :
    (combine_numeric_types LogicalType.integer LogicalType.u_integer ≡ (
      if can_implicit_cast LogicalType.u_integer LogicalType.integer
      then ok LogicalType.integer
      else err DatabaseError.incomparable))
    × (combine_numeric_types LogicalType.u_integer LogicalType.integer ≡ (
        if can_implicit_cast LogicalType.u_integer LogicalType.integer
        then ok LogicalType.integer
        else err DatabaseError.incomparable))
combine_numeric_types_mixed_example =
    combine_numeric_types_mixed LogicalType.integer LogicalType.u_integer signed_integer
      for_u_integer
