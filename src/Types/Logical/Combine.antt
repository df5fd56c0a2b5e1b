-- ===== src/Types/Logical/Combine.antt =====
-- How `LogicalType` of src/types/mod.rs compares and combines the types of two operands.
use kite_sql.Prelude.{
  ℕ, ◌≡◌, refl, Bool, true, false, ◌&&◌, Option, none, some, ◌==◌, ltb, if◌then◌else◌, Result, ok,
  err, DatabaseError,
}
use kite_sql.Types.Logical.{CharLengthUnits, LogicalType, LogicalTypes, characters, octets}

abbrev same_option : Option ℕ → Option ℕ → Bool
same_option none none = true
same_option (some a) (some b) = a == b
same_option _ _ = false

abbrev same_unit : CharLengthUnits → CharLengthUnits → Bool
same_unit characters characters = true
same_unit octets octets = true
same_unit _ _ = false

abbrev same_flag : Bool → Bool → Bool
same_flag true b = b
same_flag false true = false
same_flag false false = true

-- The derived equality.
unfoldable mutual
  pub type_eq : LogicalType → LogicalType → Bool
  type_eq LogicalType.sql_null LogicalType.sql_null = true
  type_eq LogicalType.boolean LogicalType.boolean = true
  type_eq LogicalType.tinyint LogicalType.tinyint = true
  type_eq LogicalType.u_tinyint LogicalType.u_tinyint = true
  type_eq LogicalType.smallint LogicalType.smallint = true
  type_eq LogicalType.u_smallint LogicalType.u_smallint = true
  type_eq LogicalType.integer LogicalType.integer = true
  type_eq LogicalType.u_integer LogicalType.u_integer = true
  type_eq LogicalType.bigint LogicalType.bigint = true
  type_eq LogicalType.u_bigint LogicalType.u_bigint = true
  type_eq LogicalType.float LogicalType.float = true
  type_eq LogicalType.double LogicalType.double = true
  type_eq LogicalType.date LogicalType.date = true
  type_eq LogicalType.date_time LogicalType.date_time = true
  type_eq (LogicalType.char m u) (LogicalType.char n v) = m == n && same_unit u v
  type_eq (LogicalType.varchar m u) (LogicalType.varchar n v) = same_option m n && same_unit u v
  type_eq (LogicalType.time p) (LogicalType.time q) = same_option p q
  type_eq (LogicalType.time_stamp p b) (LogicalType.time_stamp q c) =
      same_option p q && same_flag b c
  type_eq (LogicalType.decimal p s) (LogicalType.decimal q t) = same_option p q && same_option s t
  type_eq (LogicalType.tuple ts) (LogicalType.tuple us) = types_eq ts us
  type_eq _ _ = false

  pub types_eq : LogicalTypes → LogicalTypes → Bool
  types_eq LogicalTypes.nil LogicalTypes.nil = true
  types_eq (LogicalTypes.cons t ts) (LogicalTypes.cons u us) = type_eq t u && types_eq ts us
  types_eq _ _ = false

unfoldable pub is_numeric : LogicalType → Bool
is_numeric LogicalType.tinyint = true
is_numeric LogicalType.u_tinyint = true
is_numeric LogicalType.smallint = true
is_numeric LogicalType.u_smallint = true
is_numeric LogicalType.integer = true
is_numeric LogicalType.u_integer = true
is_numeric LogicalType.bigint = true
is_numeric LogicalType.u_bigint = true
is_numeric LogicalType.float = true
is_numeric LogicalType.double = true
is_numeric (LogicalType.decimal precision scale) = true
is_numeric _ = false

unfoldable pub is_signed_numeric : LogicalType → Bool
is_signed_numeric LogicalType.tinyint = true
is_signed_numeric LogicalType.smallint = true
is_signed_numeric LogicalType.integer = true
is_signed_numeric LogicalType.bigint = true
is_signed_numeric _ = false

unfoldable pub is_unsigned_numeric : LogicalType → Bool
is_unsigned_numeric LogicalType.u_tinyint = true
is_unsigned_numeric LogicalType.u_smallint = true
is_unsigned_numeric LogicalType.u_integer = true
is_unsigned_numeric LogicalType.u_bigint = true
is_unsigned_numeric _ = false

-- The table of `can_implicit_cast`, behind its test for equal types.
unfoldable pub has_implicit_cast : LogicalType → LogicalType → Bool
has_implicit_cast LogicalType.sql_null to = true
has_implicit_cast LogicalType.tinyint LogicalType.smallint = true
has_implicit_cast LogicalType.tinyint LogicalType.integer = true
has_implicit_cast LogicalType.tinyint LogicalType.bigint = true
has_implicit_cast LogicalType.tinyint LogicalType.float = true
has_implicit_cast LogicalType.tinyint LogicalType.double = true
has_implicit_cast LogicalType.tinyint (LogicalType.decimal p s) = true
has_implicit_cast LogicalType.u_tinyint LogicalType.u_smallint = true
has_implicit_cast LogicalType.u_tinyint LogicalType.u_integer = true
has_implicit_cast LogicalType.u_tinyint LogicalType.u_bigint = true
has_implicit_cast LogicalType.u_tinyint LogicalType.smallint = true
has_implicit_cast LogicalType.u_tinyint LogicalType.integer = true
has_implicit_cast LogicalType.u_tinyint LogicalType.bigint = true
has_implicit_cast LogicalType.u_tinyint LogicalType.float = true
has_implicit_cast LogicalType.u_tinyint LogicalType.double = true
has_implicit_cast LogicalType.u_tinyint (LogicalType.decimal p s) = true
has_implicit_cast LogicalType.smallint LogicalType.integer = true
has_implicit_cast LogicalType.smallint LogicalType.bigint = true
has_implicit_cast LogicalType.smallint LogicalType.float = true
has_implicit_cast LogicalType.smallint LogicalType.double = true
has_implicit_cast LogicalType.smallint (LogicalType.decimal p s) = true
has_implicit_cast LogicalType.u_smallint LogicalType.u_integer = true
has_implicit_cast LogicalType.u_smallint LogicalType.u_bigint = true
has_implicit_cast LogicalType.u_smallint LogicalType.integer = true
has_implicit_cast LogicalType.u_smallint LogicalType.bigint = true
has_implicit_cast LogicalType.u_smallint LogicalType.float = true
has_implicit_cast LogicalType.u_smallint LogicalType.double = true
has_implicit_cast LogicalType.u_smallint (LogicalType.decimal p s) = true
has_implicit_cast LogicalType.integer LogicalType.bigint = true
has_implicit_cast LogicalType.integer LogicalType.float = true
has_implicit_cast LogicalType.integer LogicalType.double = true
has_implicit_cast LogicalType.integer (LogicalType.decimal p s) = true
has_implicit_cast LogicalType.u_integer LogicalType.u_bigint = true
has_implicit_cast LogicalType.u_integer LogicalType.bigint = true
has_implicit_cast LogicalType.u_integer LogicalType.float = true
has_implicit_cast LogicalType.u_integer LogicalType.double = true
has_implicit_cast LogicalType.u_integer (LogicalType.decimal p s) = true
has_implicit_cast LogicalType.bigint LogicalType.float = true
has_implicit_cast LogicalType.bigint LogicalType.double = true
has_implicit_cast LogicalType.bigint (LogicalType.decimal p s) = true
has_implicit_cast LogicalType.u_bigint LogicalType.float = true
has_implicit_cast LogicalType.u_bigint LogicalType.double = true
has_implicit_cast LogicalType.u_bigint (LogicalType.decimal p s) = true
has_implicit_cast LogicalType.float LogicalType.double = true
has_implicit_cast LogicalType.float (LogicalType.decimal p s) = true
has_implicit_cast LogicalType.double (LogicalType.decimal p s) = true
has_implicit_cast LogicalType.date LogicalType.date_time = true
has_implicit_cast LogicalType.date (LogicalType.varchar n u) = true
has_implicit_cast LogicalType.date (LogicalType.char n u) = true
has_implicit_cast LogicalType.date_time LogicalType.date = true
has_implicit_cast LogicalType.date_time (LogicalType.time p) = true
has_implicit_cast LogicalType.date_time (LogicalType.varchar n u) = true
has_implicit_cast LogicalType.date_time (LogicalType.char n u) = true
has_implicit_cast (LogicalType.time_stamp q z) LogicalType.date = true
has_implicit_cast (LogicalType.time_stamp q z) (LogicalType.time p) = true
has_implicit_cast (LogicalType.time_stamp q z) (LogicalType.varchar n u) = true
has_implicit_cast (LogicalType.time_stamp q z) (LogicalType.char n u) = true
has_implicit_cast (LogicalType.time p) (LogicalType.varchar n u) = true
has_implicit_cast (LogicalType.time p) (LogicalType.char n u) = true
has_implicit_cast _ _ = false

unfoldable pub can_implicit_cast : LogicalType → LogicalType → Bool
unfolding type_eq has_implicit_cast
can_implicit_cast from to = if type_eq from to then true else has_implicit_cast from to

abbrev max_option : Option ℕ → Option ℕ → Option ℕ
max_option (some a) (some b) = some (if ltb a b then b else a)
max_option (some a) none = some a
max_option none (some b) = some b
max_option none none = none

-- The last `match` of `combine_numeric_types`, its arms in order.
unfoldable pub upcast : LogicalType → LogicalType → Result LogicalType
upcast LogicalType.bigint right = ok LogicalType.double
upcast left LogicalType.u_bigint = ok LogicalType.double
upcast LogicalType.integer right = ok LogicalType.bigint
upcast left LogicalType.u_integer = ok LogicalType.bigint
upcast LogicalType.smallint right = ok LogicalType.integer
upcast left LogicalType.u_smallint = ok LogicalType.integer
upcast LogicalType.tinyint right = ok LogicalType.smallint
upcast left LogicalType.u_tinyint = ok LogicalType.smallint
upcast (LogicalType.decimal p s) (LogicalType.decimal q t) =
    ok (LogicalType.decimal (max_option p q) (max_option s t))
upcast _ _ = err DatabaseError.incomparable

unfoldable pub combine_arranged : LogicalType → LogicalType → Result LogicalType
unfolding can_implicit_cast upcast
combine_arranged left right =
    if can_implicit_cast left right
    then ok right
    else if can_implicit_cast right left
    then ok left
    else upcast left right

-- The call with the types swapped passes its first two tests, which are left out of it.
unfoldable pub combine_numeric_types : LogicalType → LogicalType → Result LogicalType
unfolding type_eq is_signed_numeric is_unsigned_numeric combine_arranged
combine_numeric_types left right =
    if type_eq left right
    then ok left
    else if is_signed_numeric left && is_unsigned_numeric right
    then combine_arranged right left
    else combine_arranged left right

pub data SignedType : LogicalType → Type 0 where
  signed_tinyint : SignedType LogicalType.tinyint
  signed_smallint : SignedType LogicalType.smallint
  signed_integer : SignedType LogicalType.integer
  signed_bigint : SignedType LogicalType.bigint

pub data UnsignedType : LogicalType → Type 0 where
  for_u_tinyint : UnsignedType LogicalType.u_tinyint
  for_u_smallint : UnsignedType LogicalType.u_smallint
  for_u_integer : UnsignedType LogicalType.u_integer
  for_u_bigint : UnsignedType LogicalType.u_bigint

-- A signed and an unsigned integer type combine to the signed one when the unsigned one is cast to it
-- implicitly, and are incomparable otherwise, in either order of the operands.
pub combine_numeric_types_mixed :
    (s u : LogicalType)
    → SignedType s
    → UnsignedType u
    → (combine_numeric_types s u
        ≡ (if can_implicit_cast u s then ok s else err DatabaseError.incomparable))
      × (combine_numeric_types u s
          ≡ (if can_implicit_cast u s then ok s else err DatabaseError.incomparable))
unfolding combine_numeric_types
combine_numeric_types_mixed s u signed_tinyint for_u_tinyint = (refl, refl)
combine_numeric_types_mixed s u signed_tinyint for_u_smallint = (refl, refl)
combine_numeric_types_mixed s u signed_tinyint for_u_integer = (refl, refl)
combine_numeric_types_mixed s u signed_tinyint for_u_bigint = (refl, refl)
combine_numeric_types_mixed s u signed_smallint for_u_tinyint = (refl, refl)
combine_numeric_types_mixed s u signed_smallint for_u_smallint = (refl, refl)
combine_numeric_types_mixed s u signed_smallint for_u_integer = (refl, refl)
combine_numeric_types_mixed s u signed_smallint for_u_bigint = (refl, refl)
combine_numeric_types_mixed s u signed_integer for_u_tinyint = (refl, refl)
combine_numeric_types_mixed s u signed_integer for_u_smallint = (refl, refl)
combine_numeric_types_mixed s u signed_integer for_u_integer = (refl, refl)
combine_numeric_types_mixed s u signed_integer for_u_bigint = (refl, refl)
combine_numeric_types_mixed s u signed_bigint for_u_tinyint = (refl, refl)
combine_numeric_types_mixed s u signed_bigint for_u_smallint = (refl, refl)
combine_numeric_types_mixed s u signed_bigint for_u_integer = (refl, refl)
combine_numeric_types_mixed s u signed_bigint for_u_bigint = (refl, refl)
