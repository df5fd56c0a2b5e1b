-- ===== src/Storage/TableCodec/Prefix.antt =====
-- `memcomparable_encode` of src/types/value.rs writes behind what the buffer holds.
use kite_sql.Prelude.{
  if◌then◌else◌, ℕ, ◌*◌, ◌-◌, ◌≡◌, refl, sym, ap, ◌∙◌, Bool, true, false, List, [], ◌++◌, length,
  replicate, ltb, Result, ok, err, panic, ◌>>=◌,
}
use mathlib.Core.List.{append_assoc, append-nil}
use kite_sql.Types.Value.{DataValue, DataValues}
use kite_sql.Types.Value.Memcomparable.{
  memcomparable_encode, encode_values, encode_bytes, realloc_bytes, encode_groups, group_count,
}

abbrev pub StartsWith : List ℕ → List ℕ → Type 0
StartsWith key prefix = (rest : List ℕ) × (key ≡ prefix ++ rest)

pub StartsWith-trans : (a b c : List ℕ) → StartsWith b a → StartsWith c b → StartsWith c a
StartsWith-trans a b c (u, p) (v, q) = (u ++ v, q ∙ ap (λ x. x ++ v) p ∙ append_assoc a u v)

encode_bytes-StartsWith : (b d : List ℕ) → StartsWith (encode_bytes b d) b
unfolding encode_bytes realloc_bytes
encode_bytes-StartsWith b d =
    elim (ltb (length b) (group_count d * 9))
      as (λ t.
        StartsWith
          ((if t then b ++ replicate (group_count d * 9 - length b) 0 else b)
            ++ encode_groups (group_count d) d)
          b) [
            | true ↦ (
              _,
              append_assoc b (replicate (group_count d * 9 - length b) 0)
                  (encode_groups (group_count d) d),
            )
            | false ↦ (_, refl)
          ]

module _ {D : Type 0} (serialize_decimal : D → List ℕ → Result (List ℕ)) where
  -- The encoding of a decimal is written behind what the buffer holds.
  abbrev pub Appends : Type 0
  Appends = (d : D) (b k : List ℕ) → serialize_decimal d b ≡ ok k → StartsWith k b

pub ok-injective : {A : Type 0} {x y : A} → ok x ≡ ok y → x ≡ y
ok-injective h = cc

pub >>=-ok :
    {A B : Type 0} (m : Result A) (f : A → Result B) (k : B)
    → (m >>= f) ≡ ok k
    → (a : A) × (m ≡ ok a) × (f a ≡ ok k)
>>=-ok (ok a) f k h = (a, refl, h)
>>=-ok (err e) f k h = cc
>>=-ok panic f k h = cc

module _ {D : Type 0} (serialize_decimal : D → List ℕ → Result (List ℕ))
    (appends : Appends serialize_decimal) where
  mutual
    unfolding memcomparable_encode

    pub memcomparable_encode-StartsWith :
        (v : DataValue D) (b k : List ℕ)
        → memcomparable_encode serialize_decimal v b ≡ ok k
        → StartsWith k b
    memcomparable_encode-StartsWith DataValue.null b k h =
        ([], sym (ok-injective h) ∙ sym (append-nil b))
    memcomparable_encode-StartsWith (DataValue.boolean u) b k h = (_, sym (ok-injective h))
    memcomparable_encode-StartsWith (DataValue.float32 u) b k h = (_, sym (ok-injective h))
    memcomparable_encode-StartsWith (DataValue.float64 u) b k h = (_, sym (ok-injective h))
    memcomparable_encode-StartsWith (DataValue.int8 u) b k h = (_, sym (ok-injective h))
    memcomparable_encode-StartsWith (DataValue.int16 u) b k h = (_, sym (ok-injective h))
    memcomparable_encode-StartsWith (DataValue.int32 u) b k h = (_, sym (ok-injective h))
    memcomparable_encode-StartsWith (DataValue.int64 u) b k h = (_, sym (ok-injective h))
    memcomparable_encode-StartsWith (DataValue.u_int8 u) b k h = (_, sym (ok-injective h))
    memcomparable_encode-StartsWith (DataValue.u_int16 u) b k h = (_, sym (ok-injective h))
    memcomparable_encode-StartsWith (DataValue.u_int32 u) b k h = (_, sym (ok-injective h))
    memcomparable_encode-StartsWith (DataValue.u_int64 u) b k h = (_, sym (ok-injective h))
    memcomparable_encode-StartsWith (DataValue.date32 u) b k h = (_, sym (ok-injective h))
    memcomparable_encode-StartsWith (DataValue.date64 u) b k h = (_, sym (ok-injective h))
    memcomparable_encode-StartsWith (DataValue.time32 u p) b k h = (_, sym (ok-injective h))
    memcomparable_encode-StartsWith (DataValue.time64 u p z) b k h = (_, sym (ok-injective h))
    memcomparable_encode-StartsWith (DataValue.utf8 v ty unit) b k h =
        StartsWith-trans b (encode_bytes b v) k (encode_bytes-StartsWith b v)
          ([], sym (ok-injective h) ∙ sym (append-nil (encode_bytes b v)))
    memcomparable_encode-StartsWith (DataValue.decimal v) b k h = appends v b k h
    memcomparable_encode-StartsWith (DataValue.tuple DataValues.nil is_upper) b k h = cc
    memcomparable_encode-StartsWith (DataValue.tuple (DataValues.cons v vs) is_upper) b k h =
        encode_values-StartsWith (DataValues.cons v vs) is_upper b k h

    encode_values-StartsWith :
        (vs : DataValues D) (is_upper : Bool) (b k : List ℕ)
        → encode_values serialize_decimal vs is_upper b ≡ ok k
        → StartsWith k b
    encode_values-StartsWith DataValues.nil is_upper b k h =
        ([], sym (ok-injective h) ∙ sym (append-nil b))
    encode_values-StartsWith (DataValues.cons v vs) is_upper b k h =
        let (b', p, q) = >>=-ok _ _ k h in
        StartsWith-trans b b' k (memcomparable_encode-StartsWith v b b' p)
          (StartsWith-trans b' _ k (_, refl) (encode_values-StartsWith vs is_upper _ k q))
