-- ===== src/Expression/Range/Point.antt =====
-- A single value against a scope: AND scans exactly what both scan.
use kite_sql.Prelude.{◌≡◌, refl, true, false, ◌&&◌, not, arith, inl, inr, Bool-cases}
use kite_sql.Expression.Range.{
  Bound, included, excluded, unbounded, scope, Values, is_gt, bound_compared, above, below, scans,
  is_less_or_unknown, and_scope_eq,
}
use kite_sql.Expression.Range.Order.{OrderLaws, BoundIn, Cell}

module _ {V : Type 0} {o : Values V} {IsMember : V → Type 0} (l : OrderLaws o IsMember) where
  -- A value passes the tests of a lower bound exactly when a scan from there reads it.
  less_than_min :
      (min : Bound V) (e : V)
      → BoundIn l min
      → Cell l e
      → is_less_or_unknown o min (bound_compared o (included e) min true) ≡ not (above o min e)
  unfolding is_less_or_unknown bound_compared above
  less_than_min unbounded e hm he = refl
  less_than_min (included v) e hm (inl he) =
      ground (arith, l.cmp e v he hm, l.cmp v e hm he, l.flip e v he hm, l.proper e he)
  less_than_min (excluded v) e hm (inl he) =
      ground (arith, l.cmp e v he hm, l.cmp v e hm he, l.flip e v he hm, l.proper e he)
  less_than_min (included v) e hm (inr n) = ground (arith, l.null_cmp v e hm n)
  less_than_min (excluded v) e hm (inr n) = ground (arith, l.null_cmp v e hm n)

  more_than_max :
      (max : Bound V) (e : V)
      → BoundIn l max
      → Cell l e
      → is_gt (bound_compared o (included e) max false) ≡ not (below o max e)
  unfolding bound_compared below
  more_than_max unbounded e hm he = refl
  more_than_max (included v) e hm (inl he) = ground (arith, l.cmp e v he hm, l.proper e he)
  more_than_max (excluded v) e hm (inl he) = ground (arith, l.cmp e v he hm, l.proper e he)
  more_than_max (included v) e hm (inr n) = ground (arith, l.null_cmp v e hm n)
  more_than_max (excluded v) e hm (inr n) = ground (arith, l.null_cmp v e hm n)

  -- A scan does not tell equal values apart.
  pub above-eq :
      (b : Bound V) (e x : V)
      → BoundIn l b
      → Cell l e
      → Cell l x
      → o.eq e x ≡ true
      → above o b x ≡ above o b e
  unfolding above
  above-eq unbounded e x hb he hx h = refl
  above-eq (included v) e x hb (inl he) (inl hx) h = ground (
    arith,
    l.eqv e x he hx,
    l.cmp v e hb he,
    l.cmp v x hb hx,
    l.trans v e x hb he hx,
    l.proper e he,
    l.proper x hx,
  )
  above-eq (excluded v) e x hb (inl he) (inl hx) h = ground (
    arith,
    l.eqv e x he hx,
    l.cmp v e hb he,
    l.cmp v x hb hx,
    l.trans v e x hb he hx,
    l.proper e he,
    l.proper x hx,
  )
  above-eq b e x hb (inl he) (inr n) h = ground (arith, l.null_eq e x he n)
  above-eq b e x hb (inr n) (inl hx) h = ground (arith, l.null_eq x e hx n)
  above-eq (included v) e x hb (inr m) (inr n) h = ground arith
  above-eq (excluded v) e x hb (inr m) (inr n) h = ground arith

  pub below-eq :
      (b : Bound V) (e x : V)
      → BoundIn l b
      → Cell l e
      → Cell l x
      → o.eq e x ≡ true
      → below o b x ≡ below o b e
  unfolding below
  below-eq unbounded e x hb he hx h = refl
  below-eq (included v) e x hb (inl he) (inl hx) h = ground (
    arith,
    l.eqv e x he hx,
    l.cmp e v he hb,
    l.cmp x v hx hb,
    l.trans e x v he hx hb,
    l.proper e he,
    l.proper x hx,
  )
  below-eq (excluded v) e x hb (inl he) (inl hx) h = ground (
    arith,
    l.eqv e x he hx,
    l.cmp e v he hb,
    l.cmp x v hx hb,
    l.trans e x v he hx hb,
    l.proper e he,
    l.proper x hx,
  )
  below-eq b e x hb (inl he) (inr n) h = ground (arith, l.null_eq e x he n)
  below-eq b e x hb (inr n) (inl hx) h = ground (arith, l.null_eq x e hx n)
  below-eq (included v) e x hb (inr m) (inr n) h = ground arith
  below-eq (excluded v) e x hb (inr m) (inr n) h = ground arith

  pub scans-and_scope_eq :
      (min max : Bound V) (e x : V)
      → BoundIn l min
      → BoundIn l max
      → Cell l e
      → Cell l x
      → scans o (and_scope_eq o min max e) x ≡ (scans o (scope min max) x && o.eq e x)
  unfolding and_scope_eq scans
  scans-and_scope_eq min max e x hm hM he hx = elim (Bool-cases (o.eq e x)) [
    | inl h ↦ ground (
      arith,
      h,
      less_than_min min e hm he,
      more_than_max max e hM he,
      above-eq min e x hm he hx h,
      below-eq max e x hM he hx h,
    )
    | inr h ↦ ground (arith, h, less_than_min min e hm he, more_than_max max e hM he)
  ]
