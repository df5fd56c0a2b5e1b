-- ===== src/Types/Evaluator/Kleene.antt =====
-- The boolean evaluators of src/types/evaluator/boolean.rs against three-valued logic.
use kite_sql.Prelude.{ℕ, ◌≡◌, refl, true, false, Result, ok, ◌>>=◌, if◌then◌else◌, ltb}
use kite_sql.Types.Logical.{LogicalType}
use kite_sql.Types.Value.{Foreign, DataValue, null, boolean}
use kite_sql.Expression.Range.{and_op, or_op}
use kite_sql.Types.Evaluator.Machine.{Machine}
use kite_sql.Types.Evaluator.Eval.{binary_eval, unary_eval, and_eval, or_eval}
use kite_sql.Types.Evaluator.{binary_create, unary_create, boolean_create, not_op}

-- The truth values: false is 0, unknown is 1, true is 2.
pub data Truth : Type 0 where
  no unknown yes : Truth

abbrev pub degree : Truth → ℕ
degree no = 0
degree unknown = 1
degree yes = 2

abbrev pub least : Truth → Truth → Truth
least a b = if ltb (degree a) (degree b) then a else b

abbrev pub greatest : Truth → Truth → Truth
greatest a b = if ltb (degree a) (degree b) then b else a

abbrev pub complement : Truth → Truth
complement no = yes
complement unknown = unknown
complement yes = no

-- A cell of a boolean column.
abbrev pub cell_of : {D : Type 0} → Truth → DataValue D
cell_of no = boolean false
cell_of unknown = null
cell_of yes = boolean true

module _ (f : Foreign) (m : Machine f.Decimal) where
  abbrev pub and_of : DataValue f.Decimal → DataValue f.Decimal → Result (DataValue f.Decimal)
  and_of a b = do e ← binary_create LogicalType.boolean and_op; binary_eval f m e a b

  abbrev pub or_of : DataValue f.Decimal → DataValue f.Decimal → Result (DataValue f.Decimal)
  or_of a b = do e ← binary_create LogicalType.boolean or_op; binary_eval f m e a b

  abbrev pub not_of : DataValue f.Decimal → Result (DataValue f.Decimal)
  not_of a = do e ← unary_create LogicalType.boolean not_op; unary_eval f m e a

  -- On boolean cells, the evaluators that the factory returns for AND, OR and NOT are the minimum,
  -- the maximum and the complement of three-valued logic, in which NULL stands between false and true.
  pub boolean-Kleene :
      (a b : Truth)
      → (and_of (cell_of a) (cell_of b) ≡ ok (cell_of (least a b)))
        × (or_of (cell_of a) (cell_of b) ≡ ok (cell_of (greatest a b)))
        × (not_of (cell_of a) ≡ ok (cell_of (complement a)))
  unfolding binary_create boolean_create unary_create binary_eval unary_eval and_eval or_eval
  boolean-Kleene no no = (refl, refl, refl)
  boolean-Kleene no unknown = (refl, refl, refl)
  boolean-Kleene no yes = (refl, refl, refl)
  boolean-Kleene unknown no = (refl, refl, refl)
  boolean-Kleene unknown unknown = (refl, refl, refl)
  boolean-Kleene unknown yes = (refl, refl, refl)
  boolean-Kleene yes no = (refl, refl, refl)
  boolean-Kleene yes unknown = (refl, refl, refl)
  boolean-Kleene yes yes = (refl, refl, refl)
