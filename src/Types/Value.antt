-- ===== src/Types/Value.antt =====
-- `DataValue` of src/types/value.rs: the values, their equality and partial order, their logical
-- type and the default of a type. Machine floats stand by their bit patterns (`to_bits`), texts by
-- their UTF-8 bytes.
pub mod Raw
pub mod RoundTrip
pub mod Memcomparable
pub mod KeyOrder
pub mod Cast
use Prim.Native.Nat.{compare, Ordering}
use kite_sql.Prelude.Int.{ℤ, pos, compare_ℤ}
use kite_sql.Prelude.{
  ℕ, zero, suc, ◌≡◌, refl, Bool, true, false, ◌&&◌, Option, none, some, List, [], ◌∷◌, ◌==◌, length,
  arith,
}
use kite_sql.Types.Logical.{CharLengthUnits, LogicalType, LogicalTypes}

-- What the crates `ordered_float` and `rust_decimal` provide: `OrderedFloat` on the bit patterns
-- of `f32` and `f64`, and the decimals.
pub record Foreign : Type 1 where
  pub Decimal : Type 0
  pub f32_eq : ℕ → ℕ → Bool
  pub f32_cmp : ℕ → ℕ → Ordering
  pub f64_eq : ℕ → ℕ → Bool
  pub f64_cmp : ℕ → ℕ → Ordering
  pub decimal_eq : Decimal → Decimal → Bool
  pub decimal_cmp : Decimal → Decimal → Ordering
  pub decimal_zero : Decimal
  pub serialize : Decimal → List ℕ
  pub deserialize : List ℕ → Decimal

pub data Utf8Type : Type 0 where
  variable : Option ℕ → Utf8Type
  fixed : ℕ → Utf8Type

-- The `Vec<DataValue>` of a tuple is declared in the block.
mutual
  pub data DataValue (D : Type 0) : Type 0 where
    null : DataValue D
    boolean : Bool → DataValue D
    float32 float64 : ℕ → DataValue D
    int8 int16 int32 int64 : ℤ → DataValue D
    u_int8 u_int16 u_int32 u_int64 : ℕ → DataValue D
    utf8 : List ℕ → Utf8Type → CharLengthUnits → DataValue D
    date32 date64 : ℤ → DataValue D
    time32 : ℕ → ℕ → DataValue D
    time64 : ℤ → ℕ → Bool → DataValue D
    decimal : D → DataValue D
    tuple : DataValues D → Bool → DataValue D

  pub data DataValues (D : Type 0) : Type 0 where
    nil : DataValues D
    cons : DataValue D → DataValues D → DataValues D

unfoldable pub is_null : {D : Type 0} → DataValue D → Bool
is_null null = true
is_null _ = false

abbrev pub is_equal : Ordering → Bool
is_equal Ordering.eq = true
is_equal _ = false

-- The order of two texts: of their bytes.
unfoldable pub compare_bytes : List ℕ → List ℕ → Ordering
compare_bytes [] [] = Ordering.eq
compare_bytes [] (y ∷ ys) = Ordering.lt
compare_bytes (x ∷ xs) [] = Ordering.gt
compare_bytes (x ∷ xs) (y ∷ ys) = elim (compare x y) [
  | Ordering.lt ↦ Ordering.lt
  | Ordering.eq ↦ compare_bytes xs ys
  | Ordering.gt ↦ Ordering.gt
]

abbrev bool_eq : Bool → Bool → Bool
bool_eq true b = b
bool_eq false true = false
bool_eq false false = true

abbrev bool_cmp : Bool → Bool → Ordering
bool_cmp true true = Ordering.eq
bool_cmp true false = Ordering.gt
bool_cmp false true = Ordering.lt
bool_cmp false false = Ordering.eq

module _ (f : Foreign) where
  open f use {Decimal, f32_eq, f32_cmp, f64_eq, f64_cmp, decimal_eq, decimal_cmp}

  -- `PartialEq::eq`. The parameters of a text, a time or a decimal's type are not compared.
  unfoldable mutual
    pub eq : DataValue Decimal → DataValue Decimal → Bool
    eq null null = true
    eq null _ = false
    eq (boolean a) (boolean b) = bool_eq a b
    eq (boolean a) _ = false
    eq (float32 a) (float32 b) = f32_eq a b
    eq (float32 a) _ = false
    eq (float64 a) (float64 b) = f64_eq a b
    eq (float64 a) _ = false
    eq (int8 a) (int8 b) = is_equal (compare_ℤ a b)
    eq (int8 a) _ = false
    eq (int16 a) (int16 b) = is_equal (compare_ℤ a b)
    eq (int16 a) _ = false
    eq (int32 a) (int32 b) = is_equal (compare_ℤ a b)
    eq (int32 a) _ = false
    eq (int64 a) (int64 b) = is_equal (compare_ℤ a b)
    eq (int64 a) _ = false
    eq (u_int8 a) (u_int8 b) = a == b
    eq (u_int8 a) _ = false
    eq (u_int16 a) (u_int16 b) = a == b
    eq (u_int16 a) _ = false
    eq (u_int32 a) (u_int32 b) = a == b
    eq (u_int32 a) _ = false
    eq (u_int64 a) (u_int64 b) = a == b
    eq (u_int64 a) _ = false
    eq (utf8 a _ _) (utf8 b _ _) = is_equal (compare_bytes a b)
    eq (utf8 a _ _) _ = false
    eq (date32 a) (date32 b) = is_equal (compare_ℤ a b)
    eq (date32 a) _ = false
    eq (date64 a) (date64 b) = is_equal (compare_ℤ a b)
    eq (date64 a) _ = false
    eq (time32 a _) (time32 b _) = a == b
    eq (time32 a _) _ = false
    eq (time64 a _ _) (time64 b _ _) = is_equal (compare_ℤ a b)
    eq (time64 a _ _) _ = false
    eq (decimal a) (decimal b) = decimal_eq a b
    eq (decimal a) _ = false
    eq (tuple us upper_a) (tuple vs upper_b) = eq_values us vs && bool_eq upper_a upper_b
    eq (tuple us upper_a) _ = false

    pub eq_values : DataValues Decimal → DataValues Decimal → Bool
    eq_values nil nil = true
    eq_values (cons u us) (cons v vs) = eq u v && eq_values us vs
    eq_values _ _ = false

  -- `PartialOrd::partial_cmp`: values of two types, and tuples, have no order.
  unfoldable pub partial_cmp : DataValue Decimal → DataValue Decimal → Option Ordering
  partial_cmp null null = some Ordering.eq
  partial_cmp (boolean a) (boolean b) = some (bool_cmp a b)
  partial_cmp (float32 a) (float32 b) = some (f32_cmp a b)
  partial_cmp (float64 a) (float64 b) = some (f64_cmp a b)
  partial_cmp (int8 a) (int8 b) = some (compare_ℤ a b)
  partial_cmp (int16 a) (int16 b) = some (compare_ℤ a b)
  partial_cmp (int32 a) (int32 b) = some (compare_ℤ a b)
  partial_cmp (int64 a) (int64 b) = some (compare_ℤ a b)
  partial_cmp (u_int8 a) (u_int8 b) = some (compare a b)
  partial_cmp (u_int16 a) (u_int16 b) = some (compare a b)
  partial_cmp (u_int32 a) (u_int32 b) = some (compare a b)
  partial_cmp (u_int64 a) (u_int64 b) = some (compare a b)
  partial_cmp (utf8 a _ _) (utf8 b _ _) = some (compare_bytes a b)
  partial_cmp (date32 a) (date32 b) = some (compare_ℤ a b)
  partial_cmp (date64 a) (date64 b) = some (compare_ℤ a b)
  partial_cmp (time32 a _) (time32 b _) = some (compare a b)
  partial_cmp (time64 a _ _) (time64 b _ _) = some (compare_ℤ a b)
  partial_cmp (decimal a) (decimal b) = some (decimal_cmp a b)
  partial_cmp _ _ = none

-- The constructors of the logical types stand behind their type here: `LogicalType.boolean`.
unfoldable mutual
  pub logical_type : {D : Type 0} → DataValue D → LogicalType
  logical_type null = LogicalType.sql_null
  logical_type (boolean _) = LogicalType.boolean
  logical_type (float32 _) = LogicalType.float
  logical_type (float64 _) = LogicalType.double
  logical_type (int8 _) = LogicalType.tinyint
  logical_type (int16 _) = LogicalType.smallint
  logical_type (int32 _) = LogicalType.integer
  logical_type (int64 _) = LogicalType.bigint
  logical_type (u_int8 _) = LogicalType.u_tinyint
  logical_type (u_int16 _) = LogicalType.u_smallint
  logical_type (u_int32 _) = LogicalType.u_integer
  logical_type (u_int64 _) = LogicalType.u_bigint
  logical_type (utf8 _ (variable len) unit) = LogicalType.varchar len unit
  logical_type (utf8 _ (fixed len) unit) = LogicalType.char len unit
  logical_type (date32 _) = LogicalType.date
  logical_type (date64 _) = LogicalType.date_time
  logical_type (time32 _ _) = LogicalType.time none
  logical_type (time64 _ _ _) = LogicalType.time_stamp none false
  logical_type (decimal _) = LogicalType.decimal none none
  logical_type (tuple vs _) = LogicalType.tuple (logical_types vs)

  pub logical_types : {D : Type 0} → DataValues D → LogicalTypes
  logical_types nil = LogicalTypes.nil
  logical_types (cons v vs) = LogicalTypes.cons (logical_type v) (logical_types vs)
