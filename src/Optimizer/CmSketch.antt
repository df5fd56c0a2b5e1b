-- ===== src/Optimizer/CmSketch.antt =====
-- `CountMinSketch` of src/optimizer/core/cm_sketch.rs on a machine with 64-bit words. `hash k_i key` is what
-- the hasher `hashers[k_i]` of the crate siphasher finishes with; an access out of range is a panic.
pub mod Rows
pub mod Estimate
pub mod Examples
use Prim.Native.Nat.{bit_and}
use kite_sql.Prelude.{
  ℕ, zero, suc, ◌+◌, ◌-◌, ◌*◌, ◌%◌, min, List, [], ◌∷◌, map, ltb, ◌==◌, if◌then◌else◌, length, set,
  replicate, Result, ok, panic, ◌>>=◌,
}
use kite_sql.Types.Tuple.{index}
use kite_sql.Expression.Range.{Range, eq_value}

abbrev pub word_range : ℕ
word_range = 0x1_0000_0000_0000_0000

abbrev pub usize_max : ℕ
usize_max = 0xFFFF_FFFF_FFFF_FFFF

pub record CountMinSketch : Type 0 where
  pub counters : List (List ℕ)
  pub offsets : List ℕ
  pub mask : ℕ
  pub k_num : ℕ

-- The width and the number of rows come from floating-point formulas and are arguments.
unfoldable pub new : ℕ → ℕ → CountMinSketch
new width k_num = record {
  counters = replicate k_num (replicate width 0);
  offsets = replicate k_num 0;
  mask = width - 1;
  k_num = k_num;
}

-- The counters only: the hashers are drawn anew.
unfoldable pub clear : CountMinSketch → CountMinSketch
clear s = record {
  counters = map (λ row. replicate (length row) 0) (s.counters);
  offsets = s.offsets;
  mask = s.mask;
  k_num = s.k_num;
}

unfoldable pub saturating_add : ℕ → ℕ → ℕ
saturating_add c value = min (c + value) usize_max

-- `counters[k_i][offsets[k_i]]` for each row
unfoldable pub counters_at : List (List ℕ) → List ℕ → Result (List ℕ)
counters_at rows [] = ok []
counters_at [] (o ∷ os) = panic
counters_at (row ∷ rows) (o ∷ os) = do c ← index row o; cs ← counters_at rows os; ok (c ∷ cs)

abbrev pub least_of : ℕ → List ℕ → ℕ
least_of c [] = c
least_of c (d ∷ ds) = least_of (min c d) ds

-- `.min().unwrap()`
unfoldable pub minimum : List ℕ → Result ℕ
minimum [] = panic
minimum (c ∷ cs) = ok (least_of c cs)

-- The second loop of `add`.
unfoldable pub raise : List (List ℕ) → List ℕ → ℕ → ℕ → Result (List (List ℕ))
unfolding saturating_add
raise rows [] lowest value = ok rows
raise [] (o ∷ os) lowest value = panic
raise (row ∷ rows) (o ∷ os) lowest value = do
  c ← index row o
  rest ← raise rows os lowest value
  ok ((if c == lowest then set row o (saturating_add c value) else row) ∷ rest)

module _ {K : Type 0} (hash : ℕ → K → ℕ) where
  -- The two hashes are kept from the first two rows for the others.
  unfoldable pub offset : ℕ → ℕ × ℕ → K → ℕ → (ℕ × ℕ) × ℕ
  offset mask hashes key k_i =
      if k_i == 0
      then ((hash 0 key, hashes.1), bit_and (hash 0 key) mask)
      else if k_i == 1
      then ((hashes.0, hash 1 key), bit_and (hash 1 key) mask)
      else (
        hashes,
        bit_and ((hashes.0 + (k_i * hashes.1 % word_range) % 0xFFFF_FFFF_FFFF_FFC5) % word_range)
            mask,
      )

  -- The offsets of `n` rows from the row `k_i` on.
  unfoldable pub locate : ℕ → ℕ → ℕ → ℕ × ℕ → K → List ℕ
  unfolding offset
  locate mask zero k_i hashes key = []
  locate mask (suc n) k_i hashes key =
      (offset mask hashes key k_i).1 ∷ locate mask n (suc k_i) ((offset mask hashes key k_i).0) key

  abbrev pub offsets_of : CountMinSketch → K → List ℕ
  offsets_of s key = locate (s.mask) (s.k_num) 0 (0, 0) key

  -- `offsets` has one entry for each row, so that the first loop replaces all of it.
  unfoldable pub add : CountMinSketch → K → ℕ → Result CountMinSketch
  unfolding locate counters_at minimum raise
  add s key value = do
    found ← counters_at (s.counters) (offsets_of s key)
    lowest ← minimum found
    rows ← raise (s.counters) (offsets_of s key) lowest value
    ok (record { counters = rows; offsets = offsets_of s key; mask = s.mask; k_num = s.k_num })

  unfoldable pub increment : CountMinSketch → K → Result CountMinSketch
  unfolding add
  increment s key = add s key 1

  unfoldable pub estimate : CountMinSketch → K → Result ℕ
  unfolding locate counters_at minimum
  estimate s key = do found ← counters_at (s.counters) (offsets_of s key); minimum found

  -- The loop over the ranges, with the count so far.
  unfoldable pub collect_count : CountMinSketch → List (Range K) → ℕ → Result ℕ
  unfolding estimate
  collect_count s [] count = ok count
  collect_count s (eq_value value ∷ ranges) count = do
    n ← estimate s value
    collect_count s ranges ((count + n) % word_range)
  collect_count s (_ ∷ ranges) count = collect_count s ranges count
