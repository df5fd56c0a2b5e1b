-- ===== src/Optimizer/CmSketch/Rows.antt =====
-- The loops of src/optimizer/core/cm_sketch.rs over rows of counters and one offset for each.
use kite_sql.Prelude.{
  ℕ, zero, suc, ◌+◌, ◌≤◌, ◌<◌, ◌≡◌, refl, Bool, true, false, List, [], ◌∷◌, arith, min, ◌==◌,
  if◌then◌else◌, length, set, get_or, length-set, ok,
}
use kite_sql.Types.Tuple.{index}
use kite_sql.Optimizer.CmSketch.{saturating_add, usize_max, counters_at, raise}

-- Every offset is in its row.
pub data Aligned : List (List ℕ) → List ℕ → Type 0 where
  done : Aligned [] []
  row :
      {r : List ℕ} {rs : List (List ℕ)} {o : ℕ} {os : List ℕ}
      → o < length r
      → Aligned rs os
      → Aligned (r ∷ rs) (o ∷ os)

-- Every counter at the offsets is at least `m`.
pub data AtLeast (m : ℕ) : List (List ℕ) → List ℕ → Type 0 where
  nothing : AtLeast m [] []
  counter :
      {r : List ℕ} {rs : List (List ℕ)} {o : ℕ} {os : List ℕ}
      → m ≤ get_or r o 0
      → AtLeast m rs os
      → AtLeast m (r ∷ rs) (o ∷ os)

index-get_or : (r : List ℕ) (o : ℕ) → o < length r → index r o ≡ ok (get_or r o 0)
index-get_or [] o h = absurd (omega arith)
index-get_or (x ∷ r) zero h = refl
index-get_or (x ∷ r) (suc o) h = index-get_or r o (omega arith)

get_or-set :
    (r : List ℕ) (o q x : ℕ)
    → q < length r
    → get_or (set r o x) q 0 ≡ (if q == o then x else get_or r q 0)
get_or-set [] o q x h = absurd (omega arith)
get_or-set (y ∷ r) zero zero x h = refl
get_or-set (y ∷ r) zero (suc q) x h = ground arith
get_or-set (y ∷ r) (suc o) zero x h = ground arith
get_or-set (y ∷ r) (suc o) (suc q) x h = ground (arith, get_or-set r o q x)

abbrev pub reads : List (List ℕ) → List ℕ → List ℕ
reads [] os = []
reads (r ∷ rs) [] = []
reads (r ∷ rs) (o ∷ os) = get_or r o 0 ∷ reads rs os

abbrev pub raised : List (List ℕ) → List ℕ → ℕ → ℕ → List (List ℕ)
raised [] os lowest value = []
raised (r ∷ rs) [] lowest value = r ∷ rs
raised (r ∷ rs) (o ∷ os) lowest value =
    (if get_or r o 0 == lowest then set r o (saturating_add (get_or r o 0) value) else r)
    ∷ raised rs os lowest value

pub counters_at-reads :
    {rs : List (List ℕ)} {os : List ℕ} → Aligned rs os → counters_at rs os ≡ ok (reads rs os)
unfolding counters_at
counters_at-reads done = refl
counters_at-reads (row {r = r} {o = o} h aligned) =
    rw (index-get_or r o h, counters_at-reads aligned) refl

pub raise-raised :
    {rs : List (List ℕ)} {os : List ℕ} (lowest value : ℕ)
    → Aligned rs os
    → raise rs os lowest value ≡ ok (raised rs os lowest value)
unfolding raise
raise-raised lowest value done = refl
raise-raised lowest value (row {r = r} {o = o} h aligned) =
    rw (index-get_or r o h, raise-raised lowest value aligned) refl

pub length-raise_row :
    (r : List ℕ) (t : Bool) (o x : ℕ) → length (if t then set r o x else r) ≡ length r
length-raise_row r true o x = length-set r o x
length-raise_row r false o x = refl

-- Raising keeps the shape.
pub raised-Aligned :
    {rs : List (List ℕ)} {os qs : List ℕ} (lowest value : ℕ)
    → Aligned rs os
    → Aligned rs qs
    → Aligned (raised rs os lowest value) qs
raised-Aligned lowest value done done = done
raised-Aligned lowest value (row {r = r} {o = o} h aligned) (row k aligned') =
    row
      (omega (
        arith,
        length-raise_row r (get_or r o 0 == lowest) o (saturating_add (get_or r o 0) value),
        k,
      ))
      (raised-Aligned lowest value aligned aligned')

-- Raising at one key's offsets lowers no counter of another key.
pub raised-AtLeast :
    {rs : List (List ℕ)} {os qs : List ℕ} (m lowest value : ℕ)
    → m ≤ usize_max
    → Aligned rs os
    → Aligned rs qs
    → AtLeast m rs qs
    → AtLeast m (raised rs os lowest value) qs
unfolding saturating_add
raised-AtLeast m lowest value top done done nothing = nothing
raised-AtLeast m lowest value top (row {r = r} {o = o} h aligned) (row {o = q} k aligned')
      (counter c more) =
    counter (ground (arith, get_or-set r o q (min (get_or r o 0 + value) usize_max) k, c))
      (raised-AtLeast m lowest value top aligned aligned' more)

-- One more at a key's own offsets, when the least of its counters is raised by one.
pub raised_own-AtLeast :
    {rs : List (List ℕ)} {os : List ℕ} (m lowest : ℕ)
    → m ≤ lowest
    → Aligned rs os
    → AtLeast lowest rs os
    → AtLeast (min (suc m) usize_max) (raised rs os lowest 1) os
unfolding saturating_add
raised_own-AtLeast m lowest le done nothing = nothing
raised_own-AtLeast m lowest le (row {r = r} {o = o} h aligned) (counter c more) =
    counter (ground (arith, get_or-set r o o (min (get_or r o 0 + 1) usize_max) h, c))
      (raised_own-AtLeast m lowest le aligned more)
