-- ===== src/Expression/Range/Merge.antt =====
-- `merge_binary` on two flat ranges, as a whole, under AND and under OR.
use kite_sql.Prelude.{
  ◌≡◌, refl, Bool, true, false, ◌&&◌, ◌||◌, some, arith, inl, inr, if◌then◌else◌,
}
use kite_sql.Expression.Range.{
  Bound, included, Range, scope, eq_value, dummy, sorted_ranges, Values, is_gt, scans, pair,
  or_scope_eq, or_scope_merge, merge_flat, and_op, or_op, and_scope_merge, and_scope_eq, above,
}
use kite_sql.Expression.Range.Order.{OrderLaws, BoundIn, Cell}
use kite_sql.Expression.Range.Scope.{scans-and_scope_merge, scans-or_scope_merge}
use kite_sql.Expression.Range.Point.{scans-and_scope_eq}
use kite_sql.Expression.Range.OrPoint.{is_proper, keeps_null, scans-or_scope_eq}

module _ {V : Type 0} {o : Values V} {IsMember : V → Type 0} (l : OrderLaws o IsMember) where
  -- A range of the column that is no list of ranges, its scopes proper.
  abbrev pub FlatIn : Range V → Type 0
  FlatIn (scope a b) = BoundIn l a × BoundIn l b × (is_proper o a b ≡ true)
  FlatIn (eq_value v) = Cell l v
  FlatIn dummy = Unit
  FlatIn (sorted_ranges rs) = ⊥

  -- Whether OR of the two ranges keeps a null that one of them scans.
  abbrev pub both_keep_null : Range V → Range V → Bool
  both_keep_null (scope a b) (eq_value v) = keeps_null o a v
  both_keep_null (eq_value v) (scope a b) = keeps_null o a v
  both_keep_null (eq_value v) _ = true
  both_keep_null (scope a b) _ = true
  both_keep_null dummy _ = true
  both_keep_null (sorted_ranges rs) _ = true

  -- Two equal values scan the same.
  eq-eq : (u v x : V) → Cell l u → Cell l v → Cell l x → o.eq u v ≡ true → o.eq u x ≡ o.eq v x
  eq-eq u v x (inl a) (inl b) (inl c) h =
      ground (arith, l.eqv u v a b, l.eqv u x a c, l.eqv v x b c, l.trans u v x a b c)
  eq-eq u v x (inl a) (inl b) (inr c) h = ground (arith, l.null_eq u x a c, l.null_eq v x b c)
  eq-eq u v x (inl a) (inr b) c h = ground (arith, l.null_eq u v a b)
  eq-eq u v x (inr a) (inl b) c h = ground (arith, l.null_eq v u b a)
  eq-eq u v x (inr a) (inr b) (inl c) h = ground (arith, l.null_eq x u c a, l.null_eq x v c b)
  eq-eq u v x (inr a) (inr b) (inr c) h =
      ground (arith, l.null_eq_null u x a c, l.null_eq_null v x b c)

  eq_sym : (u v : V) → Cell l u → Cell l v → o.eq u v ≡ o.eq v u
  eq_sym u v (inl a) (inl b) = ground (arith, l.eqv u v a b, l.eqv v u b a, l.flip u v a b)
  eq_sym u v (inl a) (inr b) = ground (arith, l.null_eq u v a b)
  eq_sym u v (inr a) (inl b) = ground (arith, l.null_eq v u b a)
  eq_sym u v (inr a) (inr b) = ground (arith, l.null_eq_null u v a b, l.null_eq_null v u b a)

  scans-merge_eq_eq_and :
      (u v x : V)
      → Cell l u
      → Cell l v
      → Cell l x
      → scans o (if o.eq u v then eq_value u else dummy) x ≡ (o.eq u x && o.eq v x)
  unfolding scans
  scans-merge_eq_eq_and u v x a b c =
      ground (arith, eq-eq u v x a b c, eq-eq u x v a c b, eq_sym v x b c)

  -- In a column whose comparison is a linear order with nulls apart: AND of two ranges of the column
  -- that are no lists, the bounds of their scopes in order and not equal, always gives a range, and
  -- that scans exactly the cells that both scan.
  pub scans-merge_flat_and :
      (r s : Range V) (x : V)
      → FlatIn r
      → FlatIn s
      → Cell l x
      → (m : Range V) × (merge_flat o and_op r s ≡ some m)
        × (scans o m x ≡ (scans o r x && scans o s x))
  unfolding merge_flat scans
  scans-merge_flat_and dummy s x hr hs hx = (dummy, refl, refl)
  scans-merge_flat_and (scope a b) dummy x hr hs hx = (dummy, refl, ground arith)
  scans-merge_flat_and (eq_value u) dummy x hr hs hx = (dummy, refl, ground arith)
  scans-merge_flat_and (scope a b) (scope c d) x hr hs hx =
      (and_scope_merge o a b c d, refl, scans-and_scope_merge l a b c d x hr.0 hr.1 hs.0 hs.1 hx)
  scans-merge_flat_and (scope a b) (eq_value v) x hr hs hx =
      (and_scope_eq o a b v, refl, scans-and_scope_eq l a b v x hr.0 hr.1 hs hx)
  scans-merge_flat_and (eq_value v) (scope a b) x hr hs hx =
      (and_scope_eq o a b v, refl, ground (arith, scans-and_scope_eq l a b v x hs.0 hs.1 hr hx))
  scans-merge_flat_and (eq_value u) (eq_value v) x hr hs hx =
      ((if o.eq u v then eq_value u else dummy), refl, scans-merge_eq_eq_and u v x hr hs hx)
  scans-merge_flat_and (sorted_ranges rs) s x hr hs hx = absurd hr
  scans-merge_flat_and r (sorted_ranges rs) x hr hs hx = absurd hs

  -- In a column whose comparison is a linear order with nulls apart: OR of two ranges of the column
  -- that are no lists, the bounds of their scopes in order and not equal, always gives a range, and
  -- that scans every cell that one of the two scans, unless IS NULL stands beside a scope with an included
  -- lower bound.
  pub scans-merge_flat_or :
      (r s : Range V) (x : V)
      → FlatIn r
      → FlatIn s
      → Cell l x
      → both_keep_null r s ≡ true
      → (scans o r x || scans o s x) ≡ true
      → (m : Range V) × (merge_flat o or_op r s ≡ some m) × (scans o m x ≡ true)
  unfolding merge_flat scans
  scans-merge_flat_or dummy s x hr hs hx k h = (s, refl, h)
  scans-merge_flat_or (scope a b) dummy x hr hs hx k h = (scope a b, refl, ground arith)
  scans-merge_flat_or (eq_value u) dummy x hr hs hx k h = (eq_value u, refl, ground arith)
  scans-merge_flat_or (scope a b) (scope c d) x hr hs hx k h =
      (or_scope_merge o a b c d, refl, scans-or_scope_merge l a b c d x hr.0 hr.1 hs.0 hs.1 hx h)
  scans-merge_flat_or (scope a b) (eq_value v) x hr hs hx k h =
      (or_scope_eq o a b v, refl, scans-or_scope_eq l a b v x hr.0 hr.1 hs hx hr.2 k h)
  scans-merge_flat_or (eq_value v) (scope a b) x hr hs hx k h =
      (or_scope_eq o a b v, refl, scans-or_scope_eq l a b v x hs.0 hs.1 hr hx hs.2 k (ground arith))
  scans-merge_flat_or (eq_value u) (eq_value v) x hr hs hx k h = (
    (if o.eq u v
        then eq_value u
        else if is_gt (o.partial_cmp u v)
        then pair o (eq_value v) (eq_value u)
        else pair o (eq_value u) (eq_value v)),
    refl,
    ground (arith, eq-eq u v x hr hs hx),
  )
  scans-merge_flat_or (sorted_ranges rs) s x hr hs hx k h = absurd hr
  scans-merge_flat_or r (sorted_ranges rs) x hr hs hx k h = absurd hs

  -- In a column whose comparison is a linear order with nulls apart, OR of `IS NULL` and a scope with
  -- an included lower bound scans no null row.
  pub merge_flat_loses_null :
      (v n : V) (max : Bound V)
      → IsMember v
      → o.is_null n ≡ true
      → (m : Range V) × (merge_flat o or_op (eq_value n) (scope (included v) max) ≡ some m)
        × (scans o (eq_value n) n ≡ true)
        × (scans o m n ≡ false)
  unfolding merge_flat scans above or_scope_eq
  merge_flat_loses_null v n max hv hn =
      (scope (included v) max, ground arith, l.null_eq_null n n hn hn, ground arith)
