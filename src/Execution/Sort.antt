-- ===== src/Execution/Sort.antt =====
-- `radix_sort` of src/execution/dql/sort.rs, the order of many rows, and `Limit` of the rows of a sort.
pub mod Passes
pub mod Stable
pub mod Examples
use kite_sql.Prelude.{
  ℕ, zero, suc, ◌-◌, ◌<◌, ◌≡◌, Bool, true, false, Option, none, some, List, [], ◌∷◌, ◌++◌, map,
  length, get_elem?, replicate, ltb, if◌then◌else◌,
}

-- `BUCKET_SIZE`
abbrev pub bucket_size : ℕ
bucket_size = 256

-- A tuple with its key.
abbrev pub Keyed : Type 0 → Type 0
Keyed T = T × List ℕ

abbrev pub larger : ℕ → ℕ → ℕ
larger a b = if ltb a b then b else a

module _ {T : Type 0} where
  -- `if bytes.len() > i { bytes[i] } else { 0 }`
  abbrev pub digit : ℕ → Keyed T → ℕ
  digit i (t, bytes) = elim (get_elem? bytes i) [ none ↦ 0 | some b ↦ b ]

  -- `temp_buckets[index].push(..)`; the index is a byte, so that there is a bucket.
  unfoldable pub push_bucket : List (List (Keyed T)) → ℕ → Keyed T → List (List (Keyed T))
  push_bucket [] index x = []
  push_bucket (b ∷ bs) zero x = (b ++ (x ∷ [])) ∷ bs
  push_bucket (b ∷ bs) (suc index) x = b ∷ push_bucket bs index x

  -- The loop over the drained tuples.
  unfoldable pub distribute : ℕ → List (List (Keyed T)) → List (Keyed T) → List (List (Keyed T))
  unfolding push_bucket
  distribute i buckets [] = buckets
  distribute i buckets (x ∷ xs) = distribute i (push_bucket buckets (digit i x) x) xs

  -- The loop that appends the buckets.
  unfoldable pub collect : List (List (Keyed T)) → List (Keyed T)
  collect [] = []
  collect (b ∷ bs) = b ++ collect bs

  unfoldable pub pass : ℕ → List (Keyed T) → List (Keyed T)
  unfolding distribute collect
  pass i tuples = collect (distribute i (replicate bucket_size []) tuples)

  -- `for i in (0..max_len).rev()`
  unfoldable pub passes : ℕ → List (Keyed T) → List (Keyed T)
  passes zero tuples = tuples
  passes (suc i) tuples = passes i (pass i tuples)

  unfoldable pub max_len : List (Keyed T) → ℕ
  max_len [] = 0
  max_len ((t, bytes) ∷ xs) = larger (length bytes) (max_len xs)

  -- The tuples in the order of `radix_sort`, with their keys; none where there are none.
  unfoldable pub sorted : List (Keyed T) → List (Keyed T)
  unfolding passes max_len
  sorted tuples = passes (max_len tuples) tuples

  unfoldable pub radix_sort : List (Keyed T) → List T
  unfolding sorted
  radix_sort tuples = map (λ (t, bytes). t) (sorted tuples)
