-- ===== src/Expression/Range/OrPoint.antt =====
-- A single value against a scope under OR: at least what either scans, but for one case of null.
use kite_sql.Prelude.{◌≡◌, refl, Bool, true, false, ◌&&◌, ◌||◌, not, arith, inl, inr, Bool-cases}
use kite_sql.Expression.Range.{
  Bound, included, excluded, unbounded, scope, Values, is_lt, is_gt, is_eq, is_unbounded,
  bound_compared, above, below, scans, or_scope_eq, process_exclude_bound_with_eq,
}
use kite_sql.Expression.Range.Order.{OrderLaws, BoundIn, Cell}
use kite_sql.Expression.Range.Point.{above-eq, below-eq}

-- A lower bound that is written as included.
abbrev pub is_included : {V : Type 0} → Bound V → Bool
is_included (included _) = true
is_included (excluded _) = false
is_included unbounded = false

module _ {V : Type 0} (o : Values V) where
  -- A scope that the merges leave a scope: its bounds are in order and not equal.
  abbrev pub is_proper : Bound V → Bound V → Bool
  is_proper min max =
      is_lt (bound_compared o min max (is_unbounded min)) || (is_unbounded min && is_unbounded max)

  -- The one case that OR loses: a null beside a scope with an included lower bound.
  abbrev pub keeps_null : Bound V → V → Bool
  keeps_null min e = not (o.is_null e && is_included min)

module _ {V : Type 0} {o : Values V} {IsMember : V → Type 0} (l : OrderLaws o IsMember) where
  module _ (e : V) (he : IsMember e) where
    above_of_min_gt :
        (min : Bound V)
        → BoundIn l min
        → is_lt (bound_compared o (excluded e) min true) ≡ false
        → is_eq (bound_compared o (excluded e) min true) ≡ false
        → above o min e ≡ true
    unfolding bound_compared above
    above_of_min_gt unbounded hm p q = refl
    above_of_min_gt (included v) hm p q =
        ground (arith, l.cmp e v he hm, l.cmp v e hm he, l.flip e v he hm, l.proper e he)
    above_of_min_gt (excluded v) hm p q =
        ground (arith, l.cmp e v he hm, l.cmp v e hm he, l.flip e v he hm, l.proper e he)

    below_of_max_lt :
        (max : Bound V)
        → BoundIn l max
        → is_gt (bound_compared o (excluded e) max false) ≡ false
        → is_eq (bound_compared o (excluded e) max false) ≡ false
        → below o max e ≡ true
    unfolding bound_compared below
    below_of_max_lt unbounded hm p q = refl
    below_of_max_lt (included v) hm p q = ground (arith, l.cmp e v he hm, l.proper e he)
    below_of_max_lt (excluded v) hm p q = ground (arith, l.cmp e v he hm, l.proper e he)

    above_process :
        (min : Bound V)
        → BoundIn l min
        → is_eq (bound_compared o (excluded e) min true) ≡ true
        → above o (process_exclude_bound_with_eq o min e) e ≡ true
    unfolding bound_compared above process_exclude_bound_with_eq
    above_process unbounded hm p = refl
    above_process (included v) hm p =
        ground (arith, l.cmp e v he hm, l.cmp v e hm he, l.flip e v he hm, l.proper e he)
    above_process (excluded v) hm p =
        ground (
          arith,
          l.cmp e v he hm,
          l.cmp v e hm he,
          l.eqv v e hm he,
          l.flip e v he hm,
          l.proper e he,
        )

    below_process :
        (max : Bound V)
        → BoundIn l max
        → is_eq (bound_compared o (excluded e) max false) ≡ true
        → below o (process_exclude_bound_with_eq o max e) e ≡ true
    unfolding bound_compared below process_exclude_bound_with_eq
    below_process unbounded hm p = refl
    below_process (included v) hm p = ground (arith, l.cmp e v he hm, l.proper e he)
    below_process (excluded v) hm p =
        ground (arith, l.cmp e v he hm, l.eqv v e hm he, l.flip e v he hm, l.proper e he)

    -- A value at the excluded lower bound of a proper scope is not above its upper bound.
    below_of_min_eq :
        (min max : Bound V)
        → BoundIn l min
        → BoundIn l max
        → is_proper o min max ≡ true
        → is_eq (bound_compared o (excluded e) min true) ≡ true
        → below o max e ≡ true
    unfolding bound_compared below
    below_of_min_eq min unbounded hm hM p q = refl
    below_of_min_eq unbounded (included w) hm hM p q = ground arith
    below_of_min_eq unbounded (excluded w) hm hM p q = ground arith
    below_of_min_eq (included v) (included w) hm hM p q = ground (arith, l.cmp e v he hm)
    below_of_min_eq (included v) (excluded w) hm hM p q = ground (arith, l.cmp e v he hm)
    below_of_min_eq (excluded v) (included w) hm hM p q = ground (
      arith,
      l.cmp e v he hm,
      l.cmp v w hm hM,
      l.cmp e w he hM,
      l.trans e v w he hm hM,
      l.proper e he,
    )
    below_of_min_eq (excluded v) (excluded w) hm hM p q = ground (
      arith,
      l.cmp e v he hm,
      l.cmp v w hm hM,
      l.cmp e w he hM,
      l.trans e v w he hm hM,
      l.proper e he,
    )

  -- A weakened bound admits what the bound admits.
  above_process_of :
      (min : Bound V) (e x : V)
      → above o min x ≡ true
      → above o (process_exclude_bound_with_eq o min e) x ≡ true
  unfolding above process_exclude_bound_with_eq
  above_process_of unbounded e x h = refl
  above_process_of (included v) e x h = h
  above_process_of (excluded v) e x h = ground arith

  below_process_of :
      (max : Bound V) (e x : V)
      → below o max x ≡ true
      → below o (process_exclude_bound_with_eq o max e) x ≡ true
  unfolding below process_exclude_bound_with_eq
  below_process_of unbounded e x h = refl
  below_process_of (included v) e x h = h
  below_process_of (excluded v) e x h = ground arith

  or_scope_eq_scope :
      (min max : Bound V) (e x : V)
      → above o min x ≡ true
      → below o max x ≡ true
      → scans o (or_scope_eq o min max e) x ≡ true
  unfolding or_scope_eq scans
  or_scope_eq_scope min max e x p q =
      ground (arith, above_process_of min e x p, below_process_of max e x q)

  process-In : (b : Bound V) (e : V) → BoundIn l b → BoundIn l (process_exclude_bound_with_eq o b e)
  unfolding process_exclude_bound_with_eq
  process-In unbounded e h = tt
  process-In (included v) e h = h
  process-In (excluded v) e h = elim (Bool-cases (o.eq v e)) [ inl q ↦ rw q h | inr q ↦ rw q h ]

  -- The value itself, at the bounds of the scope and outside them.
  or_scope_eq_self :
      (min max : Bound V) (e x : V)
      → BoundIn l min
      → BoundIn l max
      → IsMember e
      → Cell l x
      → is_proper o min max ≡ true
      → o.eq e x ≡ true
      → scans o (or_scope_eq o min max e) x ≡ true
  unfolding or_scope_eq scans
  or_scope_eq_self min max e x hm hM he hx p r = ground (
    arith,
    l.proper e he,
    above_of_min_gt e he min hm,
    below_of_max_lt e he max hM,
    above_process e he min hm,
    below_process e he max hM,
    below_of_min_eq e he min max hm hM p,
    above-eq l min e x hm (inl he) hx r,
    below-eq l max e x hM (inl he) hx r,
    above-eq l (process_exclude_bound_with_eq o min e) e x (process-In min e hm) (inl he) hx r,
    below-eq l (process_exclude_bound_with_eq o max e) e x (process-In max e hM) (inl he) hx r,
  )

  or_scope_eq_null :
      (min max : Bound V) (e x : V)
      → o.is_null e ≡ true
      → o.is_null x ≡ true
      → keeps_null o min e ≡ true
      → o.eq e x ≡ true
      → scans o (or_scope_eq o min max e) x ≡ true
  unfolding or_scope_eq scans above below
  or_scope_eq_null unbounded unbounded e x he hx k r = ground arith
  or_scope_eq_null unbounded (included w) e x he hx k r = ground arith
  or_scope_eq_null unbounded (excluded w) e x he hx k r = ground arith
  or_scope_eq_null (excluded v) max e x he hx k r = ground arith
  or_scope_eq_null (included v) max e x he hx k r = ground arith

  -- OR with a single value scans what the scope or the value scans, for a proper scope, if no null
  -- stands beside an included lower bound.
  pub scans-or_scope_eq :
      (min max : Bound V) (e x : V)
      → BoundIn l min
      → BoundIn l max
      → Cell l e
      → Cell l x
      → is_proper o min max ≡ true
      → keeps_null o min e ≡ true
      → (scans o (scope min max) x || o.eq e x) ≡ true
      → scans o (or_scope_eq o min max e) x ≡ true
  unfolding scans
  scans-or_scope_eq min max e x hm hM he hx p k h = elim (Bool-cases (o.eq e x)) [
    | inl r ↦ value he hx r
    | inr r ↦ ground (arith, r, or_scope_eq_scope min max e x)
  ]
    where
      value : Cell l e → Cell l x → o.eq e x ≡ true → scans o (or_scope_eq o min max e) x ≡ true
      value (inl me) cx r = or_scope_eq_self min max e x hm hM me cx p r
      value (inr ne) (inl mx) r = ground (arith, l.null_eq x e mx ne)
      value (inr ne) (inr nx) r = or_scope_eq_null min max e x ne nx k r
