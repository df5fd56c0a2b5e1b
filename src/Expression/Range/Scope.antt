-- ===== src/Expression/Range/Scope.antt =====
-- The merges of two scopes: AND scans exactly the values of both, OR at least those of either.
use Prim.Native.Nat.{Ordering}
use kite_sql.Prelude.{◌≡◌, refl, true, false, ◌&&◌, ◌||◌, Option, arith, inl, inr, Bool-cases, ◌∙◌}
use kite_sql.Expression.Range.{
  Bound, included, excluded, unbounded, scope, Values, is_lt, is_gt, bound_compared, and_close,
  or_close, and_min, and_max, or_min, or_max, and_scope_merge, or_scope_join, or_scope_merge, above,
  below, scans,
}
use kite_sql.Expression.Range.Order.{
  OrderLaws, BoundIn, Cell, above_of_not-lt, above_of_not-gt, below_of_not-lt, below_of_not-gt,
}

not-lt_of_gt : (c : Option Ordering) → is_gt c ≡ true → is_lt c ≡ false
not-lt_of_gt c h = ground arith

not-gt_of_lt : (c : Option Ordering) → is_lt c ≡ true → is_gt c ≡ false
not-gt_of_lt c h = ground arith

module _ {V : Type 0} {o : Values V} {IsMember : V → Type 0} (l : OrderLaws o IsMember) where
  module _ (a b : Bound V) (x : V) (ha : BoundIn l a) (hb : BoundIn l b) (hx : Cell l x) where
    above-and_min : above o (and_min o a b) x ≡ (above o a x && above o b x)
    unfolding and_min
    above-and_min = elim (Bool-cases (is_gt (bound_compared o a b true))) [
      | inl g ↦
          ground
            (arith, g, not-lt_of_gt (bound_compared o a b true) g, above_of_not-lt l a b x ha hb hx)
      | inr g ↦ ground (arith, g, above_of_not-gt l a b x ha hb hx)
    ]

    below-and_max : below o (and_max o a b) x ≡ (below o a x && below o b x)
    unfolding and_max
    below-and_max = elim (Bool-cases (is_lt (bound_compared o a b false))) [
      | inl g ↦
          ground (
            arith,
            g,
            not-gt_of_lt (bound_compared o a b false) g,
            below_of_not-gt l a b x ha hb hx,
          )
      | inr g ↦ ground (arith, g, below_of_not-lt l a b x ha hb hx)
    ]

    above-or_min : above o (or_min o a b) x ≡ (above o a x || above o b x)
    unfolding or_min
    above-or_min = elim (Bool-cases (is_lt (bound_compared o a b true))) [
      | inl g ↦
          ground
            (arith, g, not-gt_of_lt (bound_compared o a b true) g, above_of_not-gt l a b x ha hb hx)
      | inr g ↦ ground (arith, g, above_of_not-lt l a b x ha hb hx)
    ]

    below-or_max : below o (or_max o a b) x ≡ (below o a x || below o b x)
    unfolding or_max
    below-or_max = elim (Bool-cases (is_gt (bound_compared o a b false))) [
      | inl g ↦
          ground (
            arith,
            g,
            not-lt_of_gt (bound_compared o a b false) g,
            below_of_not-lt l a b x ha hb hx,
          )
      | inr g ↦ ground (arith, g, below_of_not-gt l a b x ha hb hx)
    ]

  and_min-In : (a b : Bound V) → BoundIn l a → BoundIn l b → BoundIn l (and_min o a b)
  unfolding and_min
  and_min-In a b ha hb = elim (Bool-cases (is_gt (bound_compared o a b true))) [
    | inl g ↦ rw g ha
    | inr g ↦ rw g hb
  ]

  and_max-In : (a b : Bound V) → BoundIn l a → BoundIn l b → BoundIn l (and_max o a b)
  unfolding and_max
  and_max-In a b ha hb = elim (Bool-cases (is_lt (bound_compared o a b false))) [
    | inl g ↦ rw g ha
    | inr g ↦ rw g hb
  ]

  or_min-In : (a b : Bound V) → BoundIn l a → BoundIn l b → BoundIn l (or_min o a b)
  unfolding or_min
  or_min-In a b ha hb = elim (Bool-cases (is_lt (bound_compared o a b true))) [
    | inl g ↦ rw g ha
    | inr g ↦ rw g hb
  ]

  or_max-In : (a b : Bound V) → BoundIn l a → BoundIn l b → BoundIn l (or_max o a b)
  unfolding or_max
  or_max-In a b ha hb = elim (Bool-cases (is_gt (bound_compared o a b false))) [
    | inl g ↦ rw g ha
    | inr g ↦ rw g hb
  ]

  scans-and_close :
      (min max : Bound V) (x : V)
      → BoundIn l min
      → BoundIn l max
      → Cell l x
      → scans o (and_close o min max) x ≡ (above o min x && below o max x)
  unfolding and_close scans above below bound_compared
  scans-and_close (included v) (included w) x ha hb (inl hx) = ground (
    arith,
    l.cmp v w ha hb,
    l.cmp v x ha hx,
    l.cmp x w hx hb,
    l.eqv v x ha hx,
    l.proper x hx,
    l.trans v x w ha hx hb,
    l.trans v w x ha hb hx,
    l.flip x w hx hb,
  )
  scans-and_close (included v) (included w) x ha hb (inr hx) =
      ground (arith, l.cmp v w ha hb, l.null_eq v x ha hx)
  scans-and_close (included v) (excluded w) x ha hb (inl hx) = ground (
    arith,
    l.cmp v w ha hb,
    l.cmp v x ha hx,
    l.cmp x w hx hb,
    l.eqv v x ha hx,
    l.proper x hx,
    l.trans v x w ha hx hb,
    l.trans v w x ha hb hx,
    l.flip x w hx hb,
  )
  scans-and_close (included v) (excluded w) x ha hb (inr hx) =
      ground (arith, l.cmp v w ha hb, l.null_eq v x ha hx)
  scans-and_close (excluded v) (included w) x ha hb (inl hx) = ground (
    arith,
    l.cmp v w ha hb,
    l.cmp v x ha hx,
    l.cmp x w hx hb,
    l.eqv v x ha hx,
    l.proper x hx,
    l.trans v x w ha hx hb,
    l.trans v w x ha hb hx,
    l.flip x w hx hb,
  )
  scans-and_close (excluded v) (included w) x ha hb (inr hx) =
      ground (arith, l.cmp v w ha hb, l.null_eq v x ha hx)
  scans-and_close (excluded v) (excluded w) x ha hb (inl hx) = ground (
    arith,
    l.cmp v w ha hb,
    l.cmp v x ha hx,
    l.cmp x w hx hb,
    l.eqv v x ha hx,
    l.proper x hx,
    l.trans v x w ha hx hb,
    l.trans v w x ha hb hx,
    l.flip x w hx hb,
  )
  scans-and_close (excluded v) (excluded w) x ha hb (inr hx) =
      ground (arith, l.cmp v w ha hb, l.null_eq v x ha hx)
  scans-and_close (included v) unbounded x ha hb hx = refl
  scans-and_close (excluded v) unbounded x ha hb hx = refl
  scans-and_close unbounded (included w) x ha hb hx = refl
  scans-and_close unbounded (excluded w) x ha hb hx = refl
  scans-and_close unbounded unbounded x ha hb hx = refl

  scans-or_close :
      (min max : Bound V) (x : V)
      → BoundIn l min
      → BoundIn l max
      → Cell l x
      → scans o (or_close o min max) x ≡ (above o min x && below o max x)
  unfolding or_close scans above below bound_compared
  scans-or_close (included v) (included w) x ha hb (inl hx) = ground (
    arith,
    l.cmp v w ha hb,
    l.cmp v x ha hx,
    l.cmp x w hx hb,
    l.eqv v x ha hx,
    l.proper x hx,
    l.trans v x w ha hx hb,
    l.trans v w x ha hb hx,
    l.flip x w hx hb,
  )
  scans-or_close (included v) (included w) x ha hb (inr hx) =
      ground (arith, l.cmp v w ha hb, l.null_eq v x ha hx)
  scans-or_close (included v) (excluded w) x ha hb (inl hx) = ground (
    arith,
    l.cmp v w ha hb,
    l.cmp v x ha hx,
    l.cmp x w hx hb,
    l.eqv v x ha hx,
    l.proper x hx,
    l.trans v x w ha hx hb,
    l.trans v w x ha hb hx,
    l.flip x w hx hb,
  )
  scans-or_close (included v) (excluded w) x ha hb (inr hx) =
      ground (arith, l.cmp v w ha hb, l.null_eq v x ha hx)
  scans-or_close (excluded v) (included w) x ha hb (inl hx) = ground (
    arith,
    l.cmp v w ha hb,
    l.cmp v x ha hx,
    l.cmp x w hx hb,
    l.eqv v x ha hx,
    l.proper x hx,
    l.trans v x w ha hx hb,
    l.trans v w x ha hb hx,
    l.flip x w hx hb,
  )
  scans-or_close (excluded v) (included w) x ha hb (inr hx) =
      ground (arith, l.cmp v w ha hb, l.null_eq v x ha hx)
  scans-or_close (excluded v) (excluded w) x ha hb (inl hx) = ground (
    arith,
    l.cmp v w ha hb,
    l.cmp v x ha hx,
    l.cmp x w hx hb,
    l.eqv v x ha hx,
    l.proper x hx,
    l.trans v x w ha hx hb,
    l.trans v w x ha hb hx,
    l.flip x w hx hb,
  )
  scans-or_close (excluded v) (excluded w) x ha hb (inr hx) =
      ground (arith, l.cmp v w ha hb, l.null_eq v x ha hx)
  scans-or_close (included v) unbounded x ha hb hx = refl
  scans-or_close (excluded v) unbounded x ha hb hx = refl
  scans-or_close unbounded (included w) x ha hb hx = refl
  scans-or_close unbounded (excluded w) x ha hb hx = refl
  scans-or_close unbounded unbounded x ha hb hx = refl

  module _ (a b c d : Bound V) (x : V) (ha : BoundIn l a) (hb : BoundIn l b) (hc : BoundIn l c)
      (hd : BoundIn l d) (hx : Cell l x) where
    pub scans-and_scope_merge :
        scans o (and_scope_merge o a b c d) x ≡ (scans o (scope a b) x && scans o (scope c d) x)
    unfolding and_scope_merge scans
    scans-and_scope_merge =
        scans-and_close (and_min o a c) (and_max o b d) x (and_min-In a c ha hc)
          (and_max-In b d hb hd) hx
        ∙ ground (arith, above-and_min a c x ha hc hx, below-and_max b d x hb hd hx)

    pub scans-or_scope_merge :
        (scans o (scope a b) x || scans o (scope c d) x) ≡ true
        → scans o (or_scope_merge o a b c d) x ≡ true
    unfolding or_scope_merge or_scope_join scans
    scans-or_scope_merge h = ground (
      arith,
      scans-or_close (or_min o a c) (or_max o b d) x (or_min-In a c ha hc) (or_max-In b d hb hd) hx,
      above-or_min a c x ha hc hx,
      below-or_max b d x hb hd hx,
    )
