-- ===== src/Expression/Range/Order.antt =====
-- What the ranges rely on: the non-null values of a column are linearly ordered by `partial_cmp`,
-- and `eq` agrees with the order.
use Prim.Native.Nat.{Ordering}
use kite_sql.Prelude.{◌≡◌, refl, Bool, true, false, none, some, arith, ◌⊎◌, inl, inr}
use kite_sql.Expression.Range.{
  Bound, included, excluded, unbounded, Values, reverse, is_lt, is_gt, bound_compared, above, below,
}

abbrev pub is_equal : Ordering → Bool
is_equal Ordering.eq = true
is_equal _ = false

-- Whether the third order is possible for x and z, after the orders of x and y and of y and z.
abbrev pub composes : Ordering → Ordering → Ordering → Bool
composes Ordering.lt Ordering.gt o = true
composes Ordering.gt Ordering.lt o = true
composes Ordering.lt _ o = is_lt (some o)
composes Ordering.gt _ o = is_gt (some o)
composes Ordering.eq Ordering.lt o = is_lt (some o)
composes Ordering.eq Ordering.eq o = is_equal o
composes Ordering.eq Ordering.gt o = is_gt (some o)

-- `IsMember` are the non-null values of the column.
pub record OrderLaws {V : Type 0} (o : Values V) (IsMember : V → Type 0) : Type 0 where
  pub ord : V → V → Ordering
  pub cmp : (x y : V) → IsMember x → IsMember y → o.partial_cmp x y ≡ some (ord x y)
  pub eqv : (x y : V) → IsMember x → IsMember y → o.eq x y ≡ is_equal (ord x y)
  pub flip : (x y : V) → IsMember x → IsMember y → ord y x ≡ reverse (ord x y)
  pub trans :
      (x y z : V)
      → IsMember x
      → IsMember y
      → IsMember z
      → composes (ord x y) (ord y z) (ord x z) ≡ true
  pub proper : (x : V) → IsMember x → o.is_null x ≡ false
  pub null_cmp :
      (x n : V)
      → IsMember x
      → o.is_null n ≡ true
      → (o.partial_cmp x n ≡ none) × (o.partial_cmp n x ≡ none)
  pub null_eq :
      (x n : V) → IsMember x → o.is_null n ≡ true → (o.eq x n ≡ false) × (o.eq n x ≡ false)
  pub null_eq_null : (m n : V) → o.is_null m ≡ true → o.is_null n ≡ true → o.eq m n ≡ true

module _ {V : Type 0} {o : Values V} {IsMember : V → Type 0} (l : OrderLaws o IsMember) where
  -- A bound at a member.
  abbrev pub BoundIn : Bound V → Type 0
  BoundIn (included v) = IsMember v
  BoundIn (excluded v) = IsMember v
  BoundIn unbounded = Unit

  -- A row's value: a member, or null.
  abbrev pub Cell : V → Type 0
  Cell x = IsMember x ⊎ (o.is_null x ≡ true)

  -- A lower bound that does not compare less admits fewer values.
  pub above_of_not-lt :
      (a b : Bound V) (x : V)
      → BoundIn a
      → BoundIn b
      → Cell x
      → is_lt (bound_compared o a b true) ≡ false
      → above o a x ≡ true
      → above o b x ≡ true
  unfolding bound_compared above
  above_of_not-lt (included v) (included w) x ha hb (inl hx) h k = ground (
    arith,
    l.cmp v w ha hb,
    l.cmp v x ha hx,
    l.cmp w x hb hx,
    l.proper x hx,
    l.trans v w x ha hb hx,
    l.trans w v x hb ha hx,
    l.flip v w ha hb,
  )
  above_of_not-lt (included v) (excluded w) x ha hb (inl hx) h k = ground (
    arith,
    l.cmp v w ha hb,
    l.cmp v x ha hx,
    l.cmp w x hb hx,
    l.proper x hx,
    l.trans v w x ha hb hx,
    l.trans w v x hb ha hx,
    l.flip v w ha hb,
  )
  above_of_not-lt (excluded v) (included w) x ha hb (inl hx) h k = ground (
    arith,
    l.cmp v w ha hb,
    l.cmp v x ha hx,
    l.cmp w x hb hx,
    l.proper x hx,
    l.trans v w x ha hb hx,
    l.trans w v x hb ha hx,
    l.flip v w ha hb,
  )
  above_of_not-lt (excluded v) (excluded w) x ha hb (inl hx) h k = ground (
    arith,
    l.cmp v w ha hb,
    l.cmp v x ha hx,
    l.cmp w x hb hx,
    l.proper x hx,
    l.trans v w x ha hb hx,
    l.trans w v x hb ha hx,
    l.flip v w ha hb,
  )
  above_of_not-lt (included v) unbounded x ha hb hx h k = ground arith
  above_of_not-lt (excluded v) unbounded x ha hb hx h k = ground arith
  above_of_not-lt unbounded (included w) x ha hb hx h k = ground arith
  above_of_not-lt unbounded (excluded w) x ha hb hx h k = ground arith
  above_of_not-lt unbounded unbounded x ha hb hx h k = refl
  above_of_not-lt _ _ x ha hb (inr hx) h k = ground arith

  -- A lower bound that does not compare greater admits more values.
  pub above_of_not-gt :
      (a b : Bound V) (x : V)
      → BoundIn a
      → BoundIn b
      → Cell x
      → is_gt (bound_compared o a b true) ≡ false
      → above o b x ≡ true
      → above o a x ≡ true
  unfolding bound_compared above
  above_of_not-gt (included v) (included w) x ha hb (inl hx) h k = ground (
    arith,
    l.cmp v w ha hb,
    l.cmp v x ha hx,
    l.cmp w x hb hx,
    l.proper x hx,
    l.trans v w x ha hb hx,
    l.trans w v x hb ha hx,
    l.flip v w ha hb,
  )
  above_of_not-gt (included v) (excluded w) x ha hb (inl hx) h k = ground (
    arith,
    l.cmp v w ha hb,
    l.cmp v x ha hx,
    l.cmp w x hb hx,
    l.proper x hx,
    l.trans v w x ha hb hx,
    l.trans w v x hb ha hx,
    l.flip v w ha hb,
  )
  above_of_not-gt (excluded v) (included w) x ha hb (inl hx) h k = ground (
    arith,
    l.cmp v w ha hb,
    l.cmp v x ha hx,
    l.cmp w x hb hx,
    l.proper x hx,
    l.trans v w x ha hb hx,
    l.trans w v x hb ha hx,
    l.flip v w ha hb,
  )
  above_of_not-gt (excluded v) (excluded w) x ha hb (inl hx) h k = ground (
    arith,
    l.cmp v w ha hb,
    l.cmp v x ha hx,
    l.cmp w x hb hx,
    l.proper x hx,
    l.trans v w x ha hb hx,
    l.trans w v x hb ha hx,
    l.flip v w ha hb,
  )
  above_of_not-gt (included v) unbounded x ha hb hx h k = ground arith
  above_of_not-gt (excluded v) unbounded x ha hb hx h k = ground arith
  above_of_not-gt unbounded (included w) x ha hb hx h k = ground arith
  above_of_not-gt unbounded (excluded w) x ha hb hx h k = ground arith
  above_of_not-gt unbounded unbounded x ha hb hx h k = refl
  above_of_not-gt _ _ x ha hb (inr hx) h k = ground arith

  -- An upper bound that does not compare less admits more values.
  pub below_of_not-lt :
      (a b : Bound V) (x : V)
      → BoundIn a
      → BoundIn b
      → Cell x
      → is_lt (bound_compared o a b false) ≡ false
      → below o b x ≡ true
      → below o a x ≡ true
  unfolding bound_compared below
  below_of_not-lt (included v) (included w) x ha hb (inl hx) h k = ground (
    arith,
    l.cmp v w ha hb,
    l.cmp x v hx ha,
    l.cmp x w hx hb,
    l.proper x hx,
    l.trans x v w hx ha hb,
    l.trans x w v hx hb ha,
    l.flip v w ha hb,
  )
  below_of_not-lt (included v) (excluded w) x ha hb (inl hx) h k = ground (
    arith,
    l.cmp v w ha hb,
    l.cmp x v hx ha,
    l.cmp x w hx hb,
    l.proper x hx,
    l.trans x v w hx ha hb,
    l.trans x w v hx hb ha,
    l.flip v w ha hb,
  )
  below_of_not-lt (excluded v) (included w) x ha hb (inl hx) h k = ground (
    arith,
    l.cmp v w ha hb,
    l.cmp x v hx ha,
    l.cmp x w hx hb,
    l.proper x hx,
    l.trans x v w hx ha hb,
    l.trans x w v hx hb ha,
    l.flip v w ha hb,
  )
  below_of_not-lt (excluded v) (excluded w) x ha hb (inl hx) h k = ground (
    arith,
    l.cmp v w ha hb,
    l.cmp x v hx ha,
    l.cmp x w hx hb,
    l.proper x hx,
    l.trans x v w hx ha hb,
    l.trans x w v hx hb ha,
    l.flip v w ha hb,
  )
  below_of_not-lt (included v) unbounded x ha hb hx h k = ground arith
  below_of_not-lt (excluded v) unbounded x ha hb hx h k = ground arith
  below_of_not-lt unbounded (included w) x ha hb hx h k = ground arith
  below_of_not-lt unbounded (excluded w) x ha hb hx h k = ground arith
  below_of_not-lt unbounded unbounded x ha hb hx h k = refl
  below_of_not-lt _ _ x ha hb (inr hx) h k = ground arith

  -- An upper bound that does not compare greater admits fewer values.
  pub below_of_not-gt :
      (a b : Bound V) (x : V)
      → BoundIn a
      → BoundIn b
      → Cell x
      → is_gt (bound_compared o a b false) ≡ false
      → below o a x ≡ true
      → below o b x ≡ true
  unfolding bound_compared below
  below_of_not-gt (included v) (included w) x ha hb (inl hx) h k = ground (
    arith,
    l.cmp v w ha hb,
    l.cmp x v hx ha,
    l.cmp x w hx hb,
    l.proper x hx,
    l.trans x v w hx ha hb,
    l.trans x w v hx hb ha,
    l.flip v w ha hb,
  )
  below_of_not-gt (included v) (excluded w) x ha hb (inl hx) h k = ground (
    arith,
    l.cmp v w ha hb,
    l.cmp x v hx ha,
    l.cmp x w hx hb,
    l.proper x hx,
    l.trans x v w hx ha hb,
    l.trans x w v hx hb ha,
    l.flip v w ha hb,
  )
  below_of_not-gt (excluded v) (included w) x ha hb (inl hx) h k = ground (
    arith,
    l.cmp v w ha hb,
    l.cmp x v hx ha,
    l.cmp x w hx hb,
    l.proper x hx,
    l.trans x v w hx ha hb,
    l.trans x w v hx hb ha,
    l.flip v w ha hb,
  )
  below_of_not-gt (excluded v) (excluded w) x ha hb (inl hx) h k = ground (
    arith,
    l.cmp v w ha hb,
    l.cmp x v hx ha,
    l.cmp x w hx hb,
    l.proper x hx,
    l.trans x v w hx ha hb,
    l.trans x w v hx hb ha,
    l.flip v w ha hb,
  )
  below_of_not-gt (included v) unbounded x ha hb hx h k = ground arith
  below_of_not-gt (excluded v) unbounded x ha hb hx h k = ground arith
  below_of_not-gt unbounded (included w) x ha hb hx h k = ground arith
  below_of_not-gt unbounded (excluded w) x ha hb hx h k = ground arith
  below_of_not-gt unbounded unbounded x ha hb hx h k = refl
  below_of_not-gt _ _ x ha hb (inr hx) h k = ground arith
