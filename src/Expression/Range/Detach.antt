-- ===== src/Expression/Range/Detach.antt =====
-- `new_range` of src/expression/range_detacher.rs: the range of a comparison of a column with a
-- constant.
use kite_sql.Prelude.{Bool, true, false, Option, none, some, if◌then◌else◌, Result, ok, ◌>>=◌}
use kite_sql.Expression.Range.{
  BinaryOperator, gt_op, lt_op, gt_eq_op, lt_eq_op, spaceship_op, eq_op, included, excluded,
  unbounded, Range, scope, eq_value,
}

-- The constant stands on the left of the operator.
unfoldable pub flip_op : BinaryOperator → BinaryOperator
flip_op gt_op = lt_op
flip_op lt_op = gt_op
flip_op gt_eq_op = lt_eq_op
flip_op lt_eq_op = gt_eq_op
flip_op op = op

unfoldable pub range_of : {V : Type 0} → BinaryOperator → V → Option (Range V)
range_of gt_op val = some (scope (excluded val) unbounded)
range_of lt_op val = some (scope unbounded (excluded val))
range_of gt_eq_op val = some (scope (included val) unbounded)
range_of lt_eq_op val = some (scope unbounded (included val))
range_of eq_op val = some (eq_value val)
range_of spaceship_op val = some (eq_value val)
range_of _ val = none

-- `is_belong` is the test that the column is the detacher's own, `is_typed` that the constant has
-- the column's type, to which it is cast otherwise.
unfoldable pub new_range :
    {V : Type 0}
    → Bool
    → (V → Bool)
    → (V → Result V)
    → BinaryOperator
    → V
    → Bool
    → Result (Option (Range V))
unfolding flip_op range_of
new_range false is_typed cast op val is_flip = ok none
new_range true is_typed cast op val is_flip = do
  typed ← if is_typed val then ok val else cast val
  ok (range_of (if is_flip then flip_op op else op) typed)
