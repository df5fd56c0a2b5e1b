-- ===== src/Optimizer/CmSketch/Examples.antt =====
-- A sketch of two rows of two counters, with numbers as keys.
use kite_sql.Prelude.{
  ℕ, zero, suc, ◌≤◌, ◌≡◌, refl, ap, true, [], ◌∷◌, arith, min, ◌==◌, ==_iff, ok, ◌>>=◌,
}
use kite_sql.Optimizer.CmSketch.{
  CountMinSketch, usize_max, new, add, estimate, counters_at, minimum, raise, saturating_add,
  locate, offset,
}
use kite_sql.Optimizer.CmSketch.Estimate.{
  no_rows, one_more, IsSketch, increments, count, estimate-increments,
}

-- The first hash is the number, the second is zero.
abbrev hash : ℕ → ℕ → ℕ
hash zero key = key
hash (suc i) key = 0

hash_law : (a b : ℕ) → (a == b) ≡ true → (k_i : ℕ) → hash k_i a ≡ hash k_i b
hash_law a b h k_i = ap (hash k_i) ((==_iff a b).0 h)

new-IsSketch : IsSketch hash (new 2 2)
unfolding new
new-IsSketch = record { rectangle = one_more refl (one_more refl no_rows); has_row = omega arith }

estimate-increments_example :
    (s' : CountMinSketch) × (n : ℕ) × (increments hash (3 ∷ 4 ∷ 3 ∷ []) (new 2 2) ≡ ok s')
    × (estimate hash s' 3 ≡ ok n)
    × (min (count hash (◌==◌) 3 (3 ∷ 4 ∷ 3 ∷ [])) usize_max ≤ n)
estimate-increments_example =
    estimate-increments hash (◌==◌) (3 ∷ 4 ∷ 3 ∷ []) (new 2 2) 3 hash_law new-IsSketch

-- After one increment of 4, adding 7 for 3 in one step is estimated as 1.
add_seven : (add hash (new 2 2) 4 1 >>= λ s. add hash s 3 7 >>= λ s'. estimate hash s' 3) ≡ ok 1
unfolding new add estimate counters_at minimum raise saturating_add locate offset
add_seven = refl
