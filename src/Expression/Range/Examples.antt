-- ===== src/Expression/Range/Examples.antt =====
-- Merges over a column of 32-bit integers.
use kite_sql.Prelude.Int.{pos, compare_ℤ}
use kite_sql.Prelude.{ℕ, ◌≡◌, refl, Bool, true, false, ◌&&◌, some, inl}
use kite_sql.Types.Value.{DataValue, null, int32, eq, partial_cmp, is_null}
use kite_sql.Expression.Range.{
  included, excluded, unbounded, Range, scope, eq_value, merge_flat, and_op, or_op, scans,
  bound_compared, above, below, or_scope_merge, pair,
}
use kite_sql.Expression.Range.Column.{values, int32-OrderLaws}
use kite_sql.Expression.Range.Merge.{
  scans-merge_flat_and, scans-merge_flat_or, merge_flat_loses_null,
}
use kite_sql.Types.Examples.{two_decimals}

abbrev V : Type 0
V = DataValue Bool

abbrev int : ℕ → V
int n = int32 (pos n)

-- c1 > 1
abbrev above_one : Range V
above_one = scope (excluded (int 1)) unbounded

-- c1 < 4
abbrev below_four : Range V
below_four = scope unbounded (excluded (int 4))

scans-merge_flat_and_example :
    (m : Range V) × (merge_flat (values two_decimals) and_op above_one below_four ≡ some m)
    × (scans (values two_decimals) m (int 3) ≡ (
        scans (values two_decimals) above_one (int 3)
        && scans (values two_decimals) below_four (int 3)))
unfolding bound_compared
scans-merge_flat_and_example =
    scans-merge_flat_and (int32-OrderLaws two_decimals) above_one below_four (int 3)
      ((pos 1, refl), tt, refl) (tt, (pos 4, refl), refl) (inl (pos 3, refl))

scans-merge_flat_or_example :
    (m : Range V) × (merge_flat (values two_decimals) or_op (eq_value (int 1)) above_one ≡ some m)
    × (scans (values two_decimals) m (int 1) ≡ true)
unfolding values scans bound_compared eq partial_cmp compare_ℤ is_null
scans-merge_flat_or_example =
    scans-merge_flat_or (int32-OrderLaws two_decimals) (eq_value (int 1)) above_one (int 1)
      (inl (pos 1, refl)) ((pos 1, refl), tt, refl) (inl (pos 1, refl)) refl refl

merge_flat_loses_null_example :
    (m : Range V) × (merge_flat
        (values two_decimals)
        or_op
        (eq_value null)
        (scope (included (int 5)) unbounded)
      ≡ some m)
    × (scans (values two_decimals) (eq_value null) null ≡ true)
    × (scans (values two_decimals) m null ≡ false)
unfolding values is_null
merge_flat_loses_null_example =
    merge_flat_loses_null (int32-OrderLaws two_decimals) (int 5) null unbounded (pos 5, refl) refl

-- c1 <= 3 or c1 <= 5: both scopes are kept, and each scans 2.
overlapping_scopes_test :
    (or_scope_merge (values two_decimals) unbounded (included (int 3)) unbounded (included (int 5))
      ≡ pair
          (values two_decimals)
          (scope unbounded (included (int 5)))
          (scope unbounded (included (int 3))))
    × (scans (values two_decimals) (scope unbounded (included (int 5))) (int 2) ≡ true)
    × (scans (values two_decimals) (scope unbounded (included (int 3))) (int 2) ≡ true)
unfolding or_scope_merge bound_compared scans above values below eq partial_cmp compare_ℤ is_null
overlapping_scopes_test = (refl, refl, refl)
