-- ===== src/Execution/Limit.antt =====
-- `Limit` of src/execution/dql/limit.rs: which rows of its input it yields. The rows are what the
-- input's coroutine yields one after the other.
pub mod Window
pub mod Examples
use kite_sql.Prelude.{ℕ, zero, suc, ◌+◌, ◌-◌, Option, none, some, List, [], ◌∷◌, ltb, if◌then◌else◌}

-- The loop, at the row of index `i`.
unfoldable pub limit_loop : {A : Type 0} → ℕ → ℕ → ℕ → List A → List A
limit_loop offset_val offset_limit i [] = []
limit_loop offset_val offset_limit i (tuple ∷ tuples) =
    let rest = limit_loop offset_val offset_limit (suc i) tuples in
    if ltb i offset_val then rest else if ltb offset_limit i then [] else tuple ∷ rest

abbrev pub unwrap_or : Option ℕ → ℕ → ℕ
unwrap_or none d = d
unwrap_or (some n) d = n

-- `usize::MAX` on a machine of 64 bits, and `usize::saturating_add`.
abbrev pub usize_max : ℕ
usize_max = 0xFFFF_FFFF_FFFF_FFFF

abbrev pub saturating_add : ℕ → ℕ → ℕ
saturating_add a b = if ltb usize_max (a + b) then usize_max else a + b

-- `execute` after the test of a limit of zero; the sum is not zero then.
unfoldable pub execute_from : {A : Type 0} → ℕ → ℕ → List A → List A
unfolding limit_loop
execute_from offset_val limit_val tuples =
    limit_loop offset_val (saturating_add offset_val limit_val - 1) 0 tuples

unfoldable pub execute : {A : Type 0} → Option ℕ → Option ℕ → List A → List A
unfolding execute_from
execute offset (some zero) tuples = []
execute offset (some (suc n)) tuples = execute_from (unwrap_or offset 0) (suc n) tuples
execute offset none tuples = execute_from (unwrap_or offset 0) usize_max tuples
