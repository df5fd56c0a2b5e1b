-- ===== src/Execution/Sort/Examples.antt =====
-- A run of the sort, and the theorems on it at concrete inputs.
use kite_sql.Prelude.{ℕ, ◌<◌, ◌≡◌, refl, List, [], ◌∷◌, arith, ltb}
use kite_sql.Execution.Sort.{
  Keyed, radix_sort, sorted, max_len, passes, pass, distribute, collect, push_bucket,
}
use kite_sql.Execution.Sort.Passes.{Sorted}
use kite_sql.Execution.Sort.Stable.{Precedes, count, AreBytes, Sorted-radix_sort, count-radix_sort}

abbrev rows : List (Keyed ℕ)
rows = (1, 2 ∷ 1 ∷ []) ∷ (2, 1 ∷ []) ∷ (3, 2 ∷ []) ∷ (4, 1 ∷ 0 ∷ []) ∷ []

radix_sort_run : radix_sort rows ≡ 2 ∷ 4 ∷ 3 ∷ 1 ∷ []
unfolding radix_sort sorted max_len passes pass distribute collect push_bucket
radix_sort_run = refl

abbrev Earlier : Keyed ℕ → Keyed ℕ → Type 0
Earlier (a, ka) (b, kb) = a < b

rows-Sorted : Sorted Earlier rows
rows-Sorted = omega arith

Sorted-radix_sort_example : Sorted (Precedes (max_len rows) Earlier) (sorted rows)
Sorted-radix_sort_example = Sorted-radix_sort Earlier rows rows-Sorted

rows-AreBytes : AreBytes rows
rows-AreBytes = omega arith

count-radix_sort_example :
    count (λ (t, bytes). ltb t 3) (sorted rows) ≡ count (λ (t, bytes). ltb t 3) rows
count-radix_sort_example = count-radix_sort (λ (t, bytes). ltb t 3) rows rows-AreBytes
