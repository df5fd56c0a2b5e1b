-- ===== src/Expression/Range.antt =====
-- `Range` of src/expression/range_detacher.rs, and how `RangeDetacher` merges two ranges under AND
-- and OR. The values are those of one column, behind the operations that the code uses of them.
pub mod Order
pub mod Scope
pub mod Point
pub mod OrPoint
pub mod Merge
pub mod Column
pub mod Detach
pub mod Examples
use Prim.Native.Nat.{Ordering}
use kite_sql.Prelude.{
  ℕ, zero, suc, Bool, true, false, ◌&&◌, ◌||◌, not, Option, none, some, if◌then◌else◌, ◌==◌,
}

-- `BinaryOperator` of src/expression/mod.rs. The patterns of LIKE carry their escape character.
pub data BinaryOperator : Type 0 where
  plus_op minus_op multiply_op divide_op modulo_op string_concat_op : BinaryOperator
  gt_op lt_op gt_eq_op lt_eq_op spaceship_op eq_op not_eq_op : BinaryOperator
  like_op not_like_op : Option ℕ → BinaryOperator
  and_op or_op : BinaryOperator

-- `std::ops::Bound`
pub data Bound (V : Type 0) : Type 0 where
  included excluded : V → Bound V
  unbounded : Bound V

-- The `Vec<Range>` of sorted ranges is declared in the block.
mutual
  pub data Range (V : Type 0) : Type 0 where
    scope : Bound V → Bound V → Range V
    eq_value : V → Range V
    dummy : Range V
    sorted_ranges : Ranges V → Range V

  pub data Ranges (V : Type 0) : Type 0 where
    nil : Ranges V
    cons : Range V → Ranges V → Ranges V

-- What the ranges use of `DataValue`.
pub record Values (V : Type 0) : Type 0 where
  pub partial_cmp : V → V → Option Ordering
  pub eq : V → V → Bool
  pub is_null : V → Bool

-- `Ordering::reverse`, `Ordering::then`, and the tests on an order that may be missing.
abbrev pub reverse : Ordering → Ordering
reverse Ordering.lt = Ordering.gt
reverse Ordering.eq = Ordering.eq
reverse Ordering.gt = Ordering.lt

abbrev pub then_with : Ordering → Ordering → Ordering
then_with Ordering.eq o = o
then_with o _ = o

abbrev pub is_lt : Option Ordering → Bool
is_lt (some Ordering.lt) = true
is_lt _ = false

abbrev pub is_gt : Option Ordering → Bool
is_gt (some Ordering.gt) = true
is_gt _ = false

abbrev pub is_eq : Option Ordering → Bool
is_eq (some Ordering.eq) = true
is_eq _ = false

abbrev pub map_then : Ordering → Option Ordering → Option Ordering
map_then o none = none
map_then o (some p) = some (then_with p o)

abbrev pub is_unbounded : {V : Type 0} → Bound V → Bool
is_unbounded unbounded = true
is_unbounded (included _) = false
is_unbounded (excluded _) = false

abbrev pub is_excluded : {V : Type 0} → Bound V → Bool
is_excluded (excluded _) = true
is_excluded (included _) = false
is_excluded unbounded = false

-- `is_min_then_reverse`
abbrev pub is_min_then_reverse : Bool → Ordering → Ordering
is_min_then_reverse true o = o
is_min_then_reverse false o = reverse o

module _ {V : Type 0} (o : Values V) where
  open o use {partial_cmp, eq, is_null}

  unfoldable pub bound_compared : Bound V → Bound V → Bool → Option Ordering
  bound_compared unbounded unbounded is_min = some Ordering.eq
  bound_compared unbounded (included _) is_min = some (is_min_then_reverse is_min Ordering.lt)
  bound_compared unbounded (excluded _) is_min = some (is_min_then_reverse is_min Ordering.lt)
  bound_compared (included _) unbounded is_min = some (is_min_then_reverse is_min Ordering.gt)
  bound_compared (excluded _) unbounded is_min = some (is_min_then_reverse is_min Ordering.gt)
  bound_compared (included l) (included r) is_min = partial_cmp l r
  bound_compared (included l) (excluded r) is_min =
      map_then (is_min_then_reverse is_min Ordering.lt) (partial_cmp l r)
  bound_compared (excluded l) (excluded r) is_min = partial_cmp l r
  bound_compared (excluded l) (included r) is_min =
      map_then (is_min_then_reverse is_min Ordering.gt) (partial_cmp l r)

  -- The range between two bounds that compare equal.
  unfoldable pub closed : Bound V → Range V
  closed (included v) = eq_value v
  closed (excluded _) = dummy
  closed unbounded = scope unbounded unbounded

  -- The `match` at the end of `and_scope_merge`.
  unfoldable pub and_close : Bound V → Bound V → Range V
  unfolding closed
  and_close min max = elim (bound_compared min max (is_unbounded min)) [
    | some Ordering.gt ↦ dummy
    | some Ordering.eq ↦ closed min
    | some Ordering.lt ↦ scope min max
    | none ↦ scope min max
  ]

  -- The `match` at the end of `or_scope_merge`.
  unfoldable pub or_close : Bound V → Bound V → Range V
  unfolding closed
  or_close min max = elim (bound_compared min max (is_unbounded min)) [
    | some Ordering.eq ↦ closed min
    | some Ordering.lt ↦ scope min max
    | some Ordering.gt ↦ scope min max
    | none ↦ scope min max
  ]

  -- The lower and the upper bound that `and_scope_merge` keeps.
  unfoldable pub and_min : Bound V → Bound V → Bound V
  and_min left right = if is_gt (bound_compared left right true) then left else right

  unfoldable pub and_max : Bound V → Bound V → Bound V
  and_max left right = if is_lt (bound_compared left right false) then left else right

  -- The lower and the upper bound that `or_scope_merge` keeps.
  unfoldable pub or_min : Bound V → Bound V → Bound V
  or_min left right = if is_lt (bound_compared left right true) then left else right

  unfoldable pub or_max : Bound V → Bound V → Bound V
  or_max left right = if is_gt (bound_compared left right false) then left else right

  unfoldable pub and_scope_merge : Bound V → Bound V → Bound V → Bound V → Range V
  unfolding and_close and_min and_max
  and_scope_merge left_min left_max right_min right_max =
      and_close (and_min left_min right_min) (and_max left_max right_max)

  -- The part of `or_scope_merge` for scopes that are not apart.
  unfoldable pub or_scope_join : Bound V → Bound V → Bound V → Bound V → Range V
  unfolding or_close or_min or_max
  or_scope_join left_min left_max right_min right_max =
      or_close (or_min left_min right_min) (or_max left_max right_max)

  abbrev pub pair : Range V → Range V → Range V
  pair a b = sorted_ranges (cons a (cons b nil))

  unfoldable pub or_scope_merge : Bound V → Bound V → Bound V → Bound V → Range V
  unfolding or_scope_join
  or_scope_merge left_min left_max right_min right_max =
      if is_lt (bound_compared left_max right_min false)
        || is_lt (bound_compared right_max left_min false)
      then if is_lt (bound_compared left_min right_min true)
        then pair (scope left_min left_max) (scope right_min right_max)
        else pair (scope right_min right_max) (scope left_min left_max)
      else or_scope_join left_min left_max right_min right_max

  -- `process_exclude_bound_with_eq` under OR
  unfoldable pub process_exclude_bound_with_eq : Bound V → V → Bound V
  process_exclude_bound_with_eq (excluded v) e = if eq v e then included v else excluded v
  process_exclude_bound_with_eq (included v) e = included v
  process_exclude_bound_with_eq unbounded e = unbounded

  -- `bound_compared(..).unwrap_or(..)` of the AND of a scope and a value
  unfoldable pub is_less_or_unknown : Bound V → Option Ordering → Bool
  is_less_or_unknown min (some Ordering.lt) = true
  is_less_or_unknown min (some Ordering.eq) = false
  is_less_or_unknown min (some Ordering.gt) = false
  is_less_or_unknown min none = not (is_unbounded min)

  unfoldable pub and_scope_eq : Bound V → Bound V → V → Range V
  unfolding is_less_or_unknown
  and_scope_eq min max e =
      if is_less_or_unknown min (bound_compared (included e) min true)
        || is_gt (bound_compared (included e) max false)
      then dummy
      else eq_value e

  unfoldable pub or_scope_eq : Bound V → Bound V → V → Range V
  unfolding process_exclude_bound_with_eq
  or_scope_eq min max e =
      if is_null e
      then if is_excluded min then pair (eq_value e) (scope min max) else scope min max
      else if is_lt (bound_compared (excluded e) min true)
      then pair (eq_value e) (scope min max)
      else if is_eq (bound_compared (excluded e) min true)
      then scope (process_exclude_bound_with_eq min e) max
      else if is_gt (bound_compared (excluded e) max false)
      then pair (scope min max) (eq_value e)
      else if is_eq (bound_compared (excluded e) max false)
      then scope min (process_exclude_bound_with_eq max e)
      else scope min max

  unfoldable pub merge_eq_eq : BinaryOperator → V → V → Option (Range V)
  merge_eq_eq and_op l r = some (if eq l r then eq_value l else dummy)
  merge_eq_eq or_op l r = some (
      if eq l r
      then eq_value l
      else if is_gt (partial_cmp l r)
      then pair (eq_value r) (eq_value l)
      else pair (eq_value l) (eq_value r))
  merge_eq_eq _ l r = none

  unfoldable pub merge_dummy : BinaryOperator → Range V → Option (Range V)
  merge_dummy and_op r = some dummy
  merge_dummy or_op r = some r
  merge_dummy _ r = none

  unfoldable pub merge_scopes :
      BinaryOperator → Bound V → Bound V → Bound V → Bound V → Option (Range V)
  unfolding and_scope_merge or_scope_merge
  merge_scopes and_op a b c d = some (and_scope_merge a b c d)
  merge_scopes or_op a b c d = some (or_scope_merge a b c d)
  merge_scopes _ a b c d = none

  unfoldable pub merge_scope_eq : BinaryOperator → Bound V → Bound V → V → Option (Range V)
  unfolding and_scope_eq or_scope_eq
  merge_scope_eq and_op min max e = some (and_scope_eq min max e)
  merge_scope_eq or_op min max e = some (or_scope_eq min max e)
  merge_scope_eq _ min max e = none

  -- `merge_binary` on ranges that are not lists of ranges themselves.
  unfoldable pub merge_flat : BinaryOperator → Range V → Range V → Option (Range V)
  unfolding merge_dummy merge_scopes merge_scope_eq merge_eq_eq
  merge_flat op dummy r = merge_dummy op r
  merge_flat op (scope a b) dummy = merge_dummy op (scope a b)
  merge_flat op (eq_value l) dummy = merge_dummy op (eq_value l)
  merge_flat op (sorted_ranges rs) dummy = merge_dummy op (sorted_ranges rs)
  merge_flat op (scope a b) (scope c d) = merge_scopes op a b c d
  merge_flat op (scope a b) (eq_value r) = merge_scope_eq op a b r
  merge_flat op (eq_value l) (scope c d) = merge_scope_eq op c d l
  merge_flat op (eq_value l) (eq_value r) = merge_eq_eq op l r
  merge_flat op _ _ = none

  -- The values that a scan of the range reads. A null stands below every other value: an index
  -- holds it first, so that a scan with no lower bound begins at it.
  unfoldable pub above : Bound V → V → Bool
  above unbounded x = true
  above (included v) x = not (is_null x) && (is_lt (partial_cmp v x) || is_eq (partial_cmp v x))
  above (excluded v) x = not (is_null x) && is_lt (partial_cmp v x)

  unfoldable pub below : Bound V → V → Bool
  below unbounded x = true
  below (included v) x = is_null x || is_lt (partial_cmp x v) || is_eq (partial_cmp x v)
  below (excluded v) x = is_null x || is_lt (partial_cmp x v)

  unfoldable mutual
    pub scans : Range V → V → Bool
    scans (scope min max) x = above min x && below max x
    scans (eq_value v) x = eq v x
    scans dummy x = false
    scans (sorted_ranges rs) x = scans_any rs x

    pub scans_any : Ranges V → V → Bool
    scans_any nil x = false
    scans_any (cons r rs) x = scans r x || scans_any rs x
