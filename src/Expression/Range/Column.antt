-- ===== src/Expression/Range/Column.antt =====
-- The order that the ranges rely on, for the values of src/types/value.rs: integers, unsigned
-- integers and texts are linearly ordered by `DataValue::partial_cmp`, with `eq` in agreement.
use Prim.Native.Nat.{Ordering, compare}
use kite_sql.Prelude.Int.{ℤ, pos, compare_ℤ}
use kite_sql.Prelude.{ℕ, ◌≡◌, refl, true, false, Option, none, some, List, [], ◌∷◌, arith}
use kite_sql.Types.Value.{
  Foreign, DataValue, null, int8, int16, int32, int64, u_int8, u_int16, u_int32, u_int64, utf8,
  date32, date64, Utf8Type, compare_bytes, eq, partial_cmp, is_null,
}
use kite_sql.Types.Logical.{CharLengthUnits}
use kite_sql.Expression.Range.{Values, reverse}
use kite_sql.Expression.Range.Order.{OrderLaws, is_equal, composes}

unfoldable pub values : (f : Foreign) → Values (DataValue f.Decimal)
values f = record { partial_cmp = partial_cmp f; eq = eq f; is_null = is_null }

-- A comparison that is a linear order.
pub record IsLinear {A : Type 0} (c : A → A → Ordering) : Type 0 where
  pub flip : (x y : A) → c y x ≡ reverse (c x y)
  pub trans : (x y z : A) → composes (c x y) (c y z) (c x z) ≡ true

pub compare-IsLinear : IsLinear compare
compare-IsLinear = record { flip = λ x y. ground arith; trans = λ x y z. ground arith }

compare_ℤ-trans : (x y z : ℤ) → composes (compare_ℤ x y) (compare_ℤ y z) (compare_ℤ x z) ≡ true
unfolding compare_ℤ
compare_ℤ-trans (pos a) (pos b) (pos c) = ground arith
compare_ℤ-trans _ _ _ = ground arith

pub compare_ℤ-flip : (x y : ℤ) → compare_ℤ y x ≡ reverse (compare_ℤ x y)
unfolding compare_ℤ
compare_ℤ-flip (pos a) (pos b) = ground arith
compare_ℤ-flip _ _ = ground arith

pub compare_ℤ-IsLinear : IsLinear compare_ℤ
compare_ℤ-IsLinear = record { flip = compare_ℤ-flip; trans = compare_ℤ-trans }

compare_bytes-flip : (x y : List ℕ) → compare_bytes y x ≡ reverse (compare_bytes x y)
unfolding compare_bytes
compare_bytes-flip [] [] = refl
compare_bytes-flip [] (y ∷ ys) = refl
compare_bytes-flip (x ∷ xs) [] = refl
compare_bytes-flip (x ∷ xs) (y ∷ ys) = ground (arith, compare_bytes-flip xs ys)

compare_bytes_trans :
    (x y z : List ℕ) → composes (compare_bytes x y) (compare_bytes y z) (compare_bytes x z) ≡ true
unfolding compare_bytes
compare_bytes_trans [] [] [] = refl
compare_bytes_trans [] [] (z ∷ zs) = refl
compare_bytes_trans [] (y ∷ ys) [] = refl
compare_bytes_trans [] (y ∷ ys) (z ∷ zs) = ground arith
compare_bytes_trans (x ∷ xs) [] [] = refl
compare_bytes_trans (x ∷ xs) [] (z ∷ zs) = ground arith
compare_bytes_trans (x ∷ xs) (y ∷ ys) [] = ground arith
compare_bytes_trans (x ∷ xs) (y ∷ ys) (z ∷ zs) = ground (arith, compare_bytes_trans xs ys zs)

pub compare_bytes-IsLinear : IsLinear compare_bytes
compare_bytes-IsLinear = record { flip = compare_bytes-flip; trans = compare_bytes_trans }

-- The column of the values `wrap a`.
abbrev pub Wrapped : {V A : Type 0} → (A → V) → V → Type 0
Wrapped {A = A} wrap v = (a : A) × (v ≡ wrap a)

abbrev order_of : Option Ordering → Ordering
order_of none = Ordering.eq
order_of (some c) = c

module _ {V A : Type 0} (o : Values V) (wrap : A → V) (c : A → A → Ordering) (linear : IsLinear c)
    (cmp : (a b : A) → o.partial_cmp (wrap a) (wrap b) ≡ some (c a b))
    (eqv : (a b : A) → o.eq (wrap a) (wrap b) ≡ is_equal (c a b))
    (proper : (a : A) → o.is_null (wrap a) ≡ false)
    (null_cmp : (a : A) (n : V)
      → o.is_null n ≡ true
      → (o.partial_cmp (wrap a) n ≡ none) × (o.partial_cmp n (wrap a) ≡ none))
    (null_eq : (a : A) (n : V)
      → o.is_null n ≡ true
      → (o.eq (wrap a) n ≡ false) × (o.eq n (wrap a) ≡ false))
    (null_eq_null : (m n : V) → o.is_null m ≡ true → o.is_null n ≡ true → o.eq m n ≡ true) where
  pub Wrapped-OrderLaws : OrderLaws o (Wrapped wrap)
  Wrapped-OrderLaws = record {
    ord = λ x y. order_of (o.partial_cmp x y);
    cmp = λ x y (a, p) (b, q). rw (p, q, cmp a b) refl;
    eqv = λ x y (a, p) (b, q). rw (p, q, cmp a b) (eqv a b);
    flip = λ x y (a, p) (b, q). rw (p, q, cmp a b, cmp b a) (linear.flip a b);
    trans =
        λ x y z (a, p) (b, q) (d, r). rw (p, q, r, cmp a b, cmp b d, cmp a d) (linear.trans a b d);
    proper = λ x (a, p). rw p (proper a);
    null_cmp = λ x n (a, p) h. rw p (null_cmp a n h);
    null_eq = λ x n (a, p) h. rw p (null_eq a n h);
    null_eq_null = null_eq_null;
  }

module _ (f : Foreign) where
  null_of_is_null : (n : DataValue f.Decimal) → is_null n ≡ true → n ≡ null
  unfolding is_null
  null_of_is_null null h = refl
  null_of_is_null _ h = cc

  eq-null-null : (m n : DataValue f.Decimal) → is_null m ≡ true → is_null n ≡ true → eq f m n ≡ true
  unfolding eq
  eq-null-null m n hm hn = rw (null_of_is_null m hm, null_of_is_null n hn) refl

  pub int8-OrderLaws : OrderLaws (values f) (Wrapped {A = ℤ} int8)
  unfolding values eq partial_cmp is_null
  int8-OrderLaws =
      Wrapped-OrderLaws (values f) int8 compare_ℤ compare_ℤ-IsLinear (λ a b. refl) (λ a b. refl)
        (λ a. refl) (λ a n h. rw (null_of_is_null n h) (refl, refl))
        (λ a n h. rw (null_of_is_null n h) (refl, refl)) eq-null-null

  pub int16-OrderLaws : OrderLaws (values f) (Wrapped {A = ℤ} int16)
  unfolding values eq partial_cmp is_null
  int16-OrderLaws =
      Wrapped-OrderLaws (values f) int16 compare_ℤ compare_ℤ-IsLinear (λ a b. refl) (λ a b. refl)
        (λ a. refl) (λ a n h. rw (null_of_is_null n h) (refl, refl))
        (λ a n h. rw (null_of_is_null n h) (refl, refl)) eq-null-null

  pub int32-OrderLaws : OrderLaws (values f) (Wrapped {A = ℤ} int32)
  unfolding values eq partial_cmp is_null
  int32-OrderLaws =
      Wrapped-OrderLaws (values f) int32 compare_ℤ compare_ℤ-IsLinear (λ a b. refl) (λ a b. refl)
        (λ a. refl) (λ a n h. rw (null_of_is_null n h) (refl, refl))
        (λ a n h. rw (null_of_is_null n h) (refl, refl)) eq-null-null

  pub int64-OrderLaws : OrderLaws (values f) (Wrapped {A = ℤ} int64)
  unfolding values eq partial_cmp is_null
  int64-OrderLaws =
      Wrapped-OrderLaws (values f) int64 compare_ℤ compare_ℤ-IsLinear (λ a b. refl) (λ a b. refl)
        (λ a. refl) (λ a n h. rw (null_of_is_null n h) (refl, refl))
        (λ a n h. rw (null_of_is_null n h) (refl, refl)) eq-null-null

  pub u_int8-OrderLaws : OrderLaws (values f) (Wrapped {A = ℕ} u_int8)
  unfolding values eq partial_cmp is_null
  u_int8-OrderLaws =
      Wrapped-OrderLaws (values f) u_int8 compare compare-IsLinear (λ a b. refl)
        (λ a b. ground arith) (λ a. refl) (λ a n h. rw (null_of_is_null n h) (refl, refl))
        (λ a n h. rw (null_of_is_null n h) (refl, refl)) eq-null-null

  pub u_int16-OrderLaws : OrderLaws (values f) (Wrapped {A = ℕ} u_int16)
  unfolding values eq partial_cmp is_null
  u_int16-OrderLaws =
      Wrapped-OrderLaws (values f) u_int16 compare compare-IsLinear (λ a b. refl)
        (λ a b. ground arith) (λ a. refl) (λ a n h. rw (null_of_is_null n h) (refl, refl))
        (λ a n h. rw (null_of_is_null n h) (refl, refl)) eq-null-null

  pub u_int32-OrderLaws : OrderLaws (values f) (Wrapped {A = ℕ} u_int32)
  unfolding values eq partial_cmp is_null
  u_int32-OrderLaws =
      Wrapped-OrderLaws (values f) u_int32 compare compare-IsLinear (λ a b. refl)
        (λ a b. ground arith) (λ a. refl) (λ a n h. rw (null_of_is_null n h) (refl, refl))
        (λ a n h. rw (null_of_is_null n h) (refl, refl)) eq-null-null

  pub u_int64-OrderLaws : OrderLaws (values f) (Wrapped {A = ℕ} u_int64)
  unfolding values eq partial_cmp is_null
  u_int64-OrderLaws =
      Wrapped-OrderLaws (values f) u_int64 compare compare-IsLinear (λ a b. refl)
        (λ a b. ground arith) (λ a. refl) (λ a n h. rw (null_of_is_null n h) (refl, refl))
        (λ a n h. rw (null_of_is_null n h) (refl, refl)) eq-null-null

  pub date32-OrderLaws : OrderLaws (values f) (Wrapped {A = ℤ} date32)
  unfolding values eq partial_cmp is_null
  date32-OrderLaws =
      Wrapped-OrderLaws (values f) date32 compare_ℤ compare_ℤ-IsLinear (λ a b. refl) (λ a b. refl)
        (λ a. refl) (λ a n h. rw (null_of_is_null n h) (refl, refl))
        (λ a n h. rw (null_of_is_null n h) (refl, refl)) eq-null-null

  pub date64-OrderLaws : OrderLaws (values f) (Wrapped {A = ℤ} date64)
  unfolding values eq partial_cmp is_null
  date64-OrderLaws =
      Wrapped-OrderLaws (values f) date64 compare_ℤ compare_ℤ-IsLinear (λ a b. refl) (λ a b. refl)
        (λ a. refl) (λ a n h. rw (null_of_is_null n h) (refl, refl))
        (λ a n h. rw (null_of_is_null n h) (refl, refl)) eq-null-null

  pub utf8-OrderLaws :
      (ty : Utf8Type) (unit : CharLengthUnits)
      → OrderLaws (values f) (Wrapped {A = List ℕ} (λ v. utf8 v ty unit))
  unfolding values eq partial_cmp is_null
  utf8-OrderLaws ty unit =
      Wrapped-OrderLaws (values f) (λ v. utf8 v ty unit) compare_bytes compare_bytes-IsLinear
        (λ a b. refl) (λ a b. refl) (λ a. refl) (λ a n h. rw (null_of_is_null n h) (refl, refl))
        (λ a n h. rw (null_of_is_null n h) (refl, refl)) eq-null-null
