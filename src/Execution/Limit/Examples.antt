-- ===== src/Execution/Limit/Examples.antt =====
-- Runs of `Limit` of src/execution/dql/limit.rs.
use kite_sql.Prelude.{◌≡◌, refl, some, List, [], ◌∷◌, ℕ, arith}
use kite_sql.Execution.Limit.{limit_loop, execute_from, execute}
use kite_sql.Execution.Limit.Window.{window, execute_lem}

abbrev four_rows : List ℕ
four_rows = 7 ∷ 8 ∷ 9 ∷ 10 ∷ []

middle_rows : execute (some 1) (some 2) four_rows ≡ 8 ∷ 9 ∷ []
unfolding execute execute_from limit_loop
middle_rows = refl

execute_lem_example : execute (some 1) (some 2) four_rows ≡ window (some 1) (some 2) four_rows
execute_lem_example = execute_lem (some 1) (some 2) four_rows (omega arith) (omega arith)
