-- ===== src/Types/Tuple.antt =====
-- `Tuple` of src/types/tuple.rs: a row as it is stored, a bitmap of the null columns before the
-- bytes of the others. The debug assertions are left out; an index out of range is a panic.
pub mod Bitmap
pub mod Written
pub mod Read
pub mod RoundTrip
use Prim.Native.Nat.{bit_and, bit_or}
use kite_sql.Prelude.{
  ℕ, zero, suc, ◌+◌, ◌-◌, ◌/◌, ◌%◌, ◌^◌, Bool, true, false, Option, none, some, List, [], ◌∷◌, ◌++◌,
  ltb, leb, ◌==◌, if◌then◌else◌, length, get_elem?, set, drop, replicate, Result, ok, err, panic,
  ◌>>=◌,
}
use kite_sql.Types.Logical.{LogicalType}
use kite_sql.Types.Value.{Foreign, DataValue, DataValues, null, is_null, nil, cons, tuple}
use kite_sql.Types.Value.Raw.{to_raw, from_raw}

abbrev pub bits_max_index : ℕ
bits_max_index = 8

pub record Tuple (D : Type 0) : Type 0 where
  pub pk : Option (DataValue D)
  pub values : List (DataValue D)

-- `bits & (1 << (7 - i)) > 0`
unfoldable pub is_none : ℕ → ℕ → Bool
is_none bits i = ltb 0 (bit_and bits (2 ^ (7 - i)))

-- `bits | (1 << (7 - i))`
unfoldable pub flip_bit : ℕ → ℕ → ℕ
flip_bit bits i = bit_or bits (2 ^ (7 - i))

-- `(len + BITS_MAX_INDEX) / BITS_MAX_INDEX`
abbrev pub bits_len : ℕ → ℕ
bits_len n = (n + bits_max_index) / bits_max_index

-- `v[i]`
abbrev pub index {ℓ} : {A : Type ℓ} → List A → ℕ → Result A
index xs i = elim (get_elem? xs i) [ none ↦ panic | some x ↦ ok x ]

-- `null_bytes[i / 8] = flip_bit(null_bytes[i / 8], i % 8)`
unfoldable pub mark_null : ℕ → List ℕ → Result (List ℕ)
mark_null i bytes = do
  bits ← index bytes (i / bits_max_index)
  ok (set bytes (i / bits_max_index) (flip_bit bits (i % bits_max_index)))

unfoldable pub to_values : {D : Type 0} → List (DataValue D) → DataValues D
to_values [] = nil
to_values (v ∷ vs) = cons v (to_values vs)

unfoldable pub pick {ℓ} : {A : Type ℓ} → List ℕ → List A → Result (List A)
pick [] vs = ok []
pick (i ∷ is) vs = do v ← index vs i; rest ← pick is vs; ok (v ∷ rest)

-- `Tuple::primary_projection`
unfoldable pub primary_projection :
    {D : Type 0} → List ℕ → List (DataValue D) → Result (DataValue D)
primary_projection [] values = panic
primary_projection (i ∷ []) values = index values i
primary_projection (i ∷ j ∷ is) values = do
  picked ← pick (i ∷ j ∷ is) values
  ok (tuple (to_values picked) false)

-- `with_pk.then(|| Tuple::primary_projection(pk_indices, &values))`
unfoldable pub read_key :
    {D : Type 0} → Bool → List ℕ → List (DataValue D) → Result (Option (DataValue D))
read_key false pk_indices values = ok none
read_key true pk_indices values = do key ← primary_projection pk_indices values; ok (some key)

module _ (f : Foreign) where
  open f use {Decimal}

  -- The loop of `serialize_to`: `bytes` is the bitmap with what has been written behind it.
  unfoldable pub serialize_from : ℕ → List (DataValue Decimal) → List ℕ → Result (List ℕ)
  serialize_from i [] bytes = ok bytes
  serialize_from i (v ∷ vs) bytes = elim (is_null v) [
    | true ↦ do bytes' ← mark_null i bytes; serialize_from (suc i) vs bytes'
    | false ↦ do raw ← to_raw f v; serialize_from (suc i) vs (bytes ++ raw)
  ]

  unfoldable pub serialize_to : Tuple Decimal → Result (List ℕ)
  serialize_to t = serialize_from 0 t.values (replicate (bits_len (length t.values)) 0)

  module _ (projections : List ℕ) (bytes : List ℕ) where
    -- The loop of `deserialize_from` from column `i` on: `p` is `projection_i`, `cursor` the bytes
    -- that the cursor has left.
    unfoldable pub deserialize_columns :
        ℕ
        → List LogicalType
        → ℕ
        → List (DataValue Decimal)
        → List ℕ
        → Result (List (DataValue Decimal))
    deserialize_columns i [] p values cursor = ok values
    deserialize_columns i (ty ∷ tys) p values cursor = elim (leb (length projections) p) [
      | true ↦ ok values
      | false ↦ do
        bits ← index bytes (i / bits_max_index)
        elim (is_none bits (i % bits_max_index)) [
          | true ↦ deserialize_columns (suc i) tys (suc p) values cursor
          | false ↦ do
            column ← index projections p
            (read, rest) ← from_raw f ty (column == i) cursor
            elim read [
              | none ↦ deserialize_columns (suc i) tys p values rest
              | some v ↦ deserialize_columns (suc i) tys (suc p) (set values p v) rest
            ]
        ]
    ]

  unfoldable pub deserialize_from :
      List LogicalType → List ℕ → List ℕ → List ℕ → Bool → Result (Tuple Decimal)
  deserialize_from table_types pk_indices projections bytes with_pk =
      if ltb (length bytes) (bits_len (length table_types)) then panic else do
        values ←
            deserialize_columns projections bytes 0 table_types 0
              (replicate (length projections) null) (drop (bits_len (length table_types)) bytes)
        pk ← read_key with_pk pk_indices values
        ok (record { pk = pk; values = values })
