-- ===== src/Optimizer/CmSketch/Estimate.antt =====
-- What an estimate of src/optimizer/core/cm_sketch.rs says of the number of increments.
use Prim.Native.Nat.{bit_and, bit_and-bitwise, digits}
use kite_sql.Prelude.{
  ℕ, zero, suc, ◌+◌, ◌/◌, ◌≤◌, ◌<◌, ◌≡◌, refl, sym, ap, ◌∙◌, Bool, true, false, List, [], ◌∷◌,
  arith, min, ◌==◌, if◌then◌else◌, length, get_or, Result, ok, err, panic, ◌>>=◌, inl, inr,
  Bool-cases,
}
use kite_sql.Optimizer.CmSketch.{
  CountMinSketch, usize_max, saturating_add, counters_at, least_of, minimum, offset, locate,
  offsets_of, add, increment, estimate,
}
use kite_sql.Optimizer.CmSketch.Rows.{
  Aligned, done, row, AtLeast, nothing, counter, reads, raised, counters_at-reads, raise-raised,
  raised-AtLeast, raised_own-AtLeast, length-raise_row,
}

-- A mask is an upper bound.
and_digits_le : (n a b : ℕ) → digits (λ rest. zero) min n a b ≤ b
and_digits_le zero zero b = omega arith
and_digits_le (suc n) zero b = omega arith
and_digits_le zero (suc a) b = omega arith
and_digits_le (suc n) (suc a) b = omega (arith, and_digits_le n (suc a / 2) (b / 2))

bit_and_le : (a b : ℕ) → bit_and a b ≤ b
bit_and_le a b = omega (arith, bit_and-bitwise a b, and_digits_le a a b)

branch_le :
    (s t : Bool) (a b c : ℕ × ℕ) (x y z m : ℕ)
    → x ≤ m
    → y ≤ m
    → z ≤ m
    → (if◌then◌else◌ {A = (ℕ × ℕ) × ℕ} s (a, x) (if t then (b, y) else (c, z))).1 ≤ m
branch_le true t a b c x y z m p q r = p
branch_le false true a b c x y z m p q r = q
branch_le false false a b c x y z m p q r = r

-- Rows of one width.
pub data Rectangle (width : ℕ) : List (List ℕ) → ℕ → Type 0 where
  no_rows : Rectangle width [] 0
  one_more :
      {r : List ℕ} {rs : List (List ℕ)} {n : ℕ}
      → length r ≡ width
      → Rectangle width rs n
      → Rectangle width (r ∷ rs) (suc n)

AtLeast-weaken :
    {m n : ℕ} {rs : List (List ℕ)} {os : List ℕ} → m ≤ n → AtLeast n rs os → AtLeast m rs os
AtLeast-weaken h nothing = nothing
AtLeast-weaken h (counter c more) = counter (omega (arith, c)) (AtLeast-weaken h more)

AtLeast-zero : {rs : List (List ℕ)} {os : List ℕ} → Aligned rs os → AtLeast 0 rs os
AtLeast-zero done = nothing
AtLeast-zero (row h aligned) = counter (omega arith) (AtLeast-zero aligned)

least_of_lower :
    {m : ℕ} {rs : List (List ℕ)} {os : List ℕ} (c : ℕ)
    → m ≤ c
    → AtLeast m rs os
    → m ≤ least_of c (reads rs os)
least_of_lower c h nothing = h
least_of_lower c h (counter {r = r} {o = o} d more) =
    least_of_lower (min c (get_or r o 0)) (omega (arith, d)) more

least_of_le : (c : ℕ) (ds : List ℕ) → least_of c ds ≤ c
least_of_le c [] = omega arith
least_of_le c (d ∷ ds) = omega (arith, least_of_le (min c d) ds)

least_of-AtLeast :
    {rs : List (List ℕ)} {os : List ℕ} (c : ℕ)
    → Aligned rs os
    → AtLeast (least_of c (reads rs os)) rs os
least_of-AtLeast c done = nothing
least_of-AtLeast c (row {r = r} {rs = rs} {o = o} {os = os} h aligned) =
    counter (omega (arith, least_of_le (min c (get_or r o 0)) (reads rs os)))
      (least_of-AtLeast (min c (get_or r o 0)) aligned)

raised-Rectangle :
    {width n : ℕ} {rs : List (List ℕ)} {os : List ℕ} (lowest value : ℕ)
    → Aligned rs os
    → Rectangle width rs n
    → Rectangle width (raised rs os lowest value) n
raised-Rectangle lowest value done no_rows = no_rows
raised-Rectangle lowest value (row {r = r} {o = o} h aligned) (one_more e rows) =
    one_more
      (length-raise_row r (get_or r o 0 == lowest) o (saturating_add (get_or r o 0) value) ∙ e)
      (raised-Rectangle lowest value aligned rows)

length-Rectangle : {width n : ℕ} {rs : List (List ℕ)} → Rectangle width rs n → length rs ≡ n
length-Rectangle no_rows = refl
length-Rectangle (one_more e rows) = ap suc (length-Rectangle rows)

bind_found :
    {C : Type 0} (m : Result (List ℕ)) (f : List ℕ → Result ℕ) (g : ℕ → Result C) (least : ℕ)
    → (m >>= f) ≡ ok least
    → (m >>= λ found. f found >>= g) ≡ g least
bind_found (ok found) f g least h = rw h refl
bind_found (err e) f g least h = cc
bind_found panic f g least h = cc

-- The least counter of a key, found by the code: the greatest bound below all of them.
minimum_found :
    {rs : List (List ℕ)} {os : List ℕ}
    → Aligned rs os
    → 0 < length rs
    → (least : ℕ) × ((counters_at rs os >>= minimum) ≡ ok least)
      × AtLeast least rs os
      × ((m : ℕ) → AtLeast m rs os → m ≤ least)
unfolding minimum
minimum_found done h = absurd (omega arith)
minimum_found (row {r = r} {rs = rs} {o = o} {os = os} lt aligned) h =
    let first = get_or r o 0 in
    (
      least_of first (reads rs os),
      rw (counters_at-reads (row {r = r} lt aligned)) refl,
      counter (least_of_le first (reads rs os)) (least_of-AtLeast first aligned),
      below,
    )
  where
    below : (m : ℕ) → AtLeast m (r ∷ rs) (o ∷ os) → m ≤ least_of (get_or r o 0) (reads rs os)
    below m (counter c more) = least_of_lower (get_or r o 0) c more

module _ {K : Type 0} (hash : ℕ → K → ℕ) where
  offset_le :
      (mask : ℕ) (hashes : ℕ × ℕ) (key : K) (k_i : ℕ) → (offset hash mask hashes key k_i).1 ≤ mask
  unfolding offset
  offset_le mask hashes key k_i =
      branch_le (k_i == 0) (k_i == 1) _ _ _ _ _ _ mask (bit_and_le _ mask) (bit_and_le _ mask)
        (bit_and_le _ mask)

  locate-Aligned :
      (mask : ℕ) {rs : List (List ℕ)} {n : ℕ} (k_i : ℕ) (hashes : ℕ × ℕ) (key : K)
      → Rectangle (suc mask) rs n
      → Aligned rs (locate hash mask n k_i hashes key)
  unfolding locate
  locate-Aligned mask k_i hashes key no_rows = done
  locate-Aligned mask k_i hashes key (one_more e rows) =
      row (omega (arith, e, offset_le mask hashes key k_i)) (locate-Aligned mask _ _ key rows)

  offset_same :
      (mask : ℕ) (hashes : ℕ × ℕ) (a b : K) (k_i : ℕ)
      → ((i : ℕ) → hash i a ≡ hash i b)
      → offset hash mask hashes a k_i ≡ offset hash mask hashes b k_i
  unfolding offset
  offset_same mask hashes a b k_i h = rw (h 0, h 1) refl

  -- Keys with the same hashes have the same offsets.
  locate_same :
      (mask n k_i : ℕ) (hashes : ℕ × ℕ) (a b : K)
      → ((i : ℕ) → hash i a ≡ hash i b)
      → locate hash mask n k_i hashes a ≡ locate hash mask n k_i hashes b
  unfolding locate
  locate_same mask zero k_i hashes a b h = refl
  locate_same mask (suc n) k_i hashes a b h =
      let here : offset hash mask hashes a k_i ≡ offset hash mask hashes b k_i =
        offset_same mask hashes a b k_i h in
      rw (here, locate_same mask n (suc k_i) ((offset hash mask hashes b k_i).0) a b h) refl

  -- A sketch with one row at least, whose rows are as long as its mask needs.
  pub record IsSketch (s : CountMinSketch) : Type 0 where
    pub rectangle : Rectangle (suc (s.mask)) (s.counters) (s.k_num)
    pub has_row : 0 < s.k_num

  pub increments : List K → CountMinSketch → Result CountMinSketch
  unfolding increment
  increments [] s = ok s
  increments (key ∷ keys) s = do s' ← increment hash s key; increments keys s'

  offsets-Aligned :
      (s : CountMinSketch) (key : K) → IsSketch s → Aligned (s.counters) (offsets_of hash s key)
  offsets-Aligned s key is = locate-Aligned (s.mask) 0 (0, 0) key (is.rectangle)

  abbrev Counted : CountMinSketch → K → ℕ → Type 0
  Counted s key m = AtLeast m (s.counters) (offsets_of hash s key)

  -- One increment: the key's least counter grows by one, and no other bound is lost.
  increment_lem :
      (s : CountMinSketch) (key : K)
      → IsSketch s
      → (s' : CountMinSketch) × (increment hash s key ≡ ok s')
        × IsSketch s'
        × ((m : ℕ) → Counted s key m → Counted s' key (min (suc m) usize_max))
        × ((other : K) (m : ℕ) → m ≤ usize_max → Counted s other m → Counted s' other m)
  unfolding increment add
  increment_lem s key is =
      let os = offsets_of hash s key in
      let aligned = offsets-Aligned s key is in
      let (lowest, found, all, greatest) =
        minimum_found aligned (omega (arith, length-Rectangle (is.rectangle), is.has_row)) in
      (
        record {
          counters = raised (s.counters) os lowest 1;
          offsets = os;
          mask = s.mask;
          k_num = s.k_num;
        },
        bind_found (counters_at (s.counters) os) minimum _ lowest found
            ∙ rw (raise-raised lowest 1 aligned) refl,
        record {
          rectangle = raised-Rectangle lowest 1 aligned (is.rectangle);
          has_row = is.has_row;
        },
        λ m counted. raised_own-AtLeast m lowest (greatest m counted) aligned all,
        λ other m top counted.
            raised-AtLeast m lowest 1 top aligned (offsets-Aligned s other is) counted,
      )

  module _ (same : K → K → Bool) where
    -- How often a key occurs.
    pub count : K → List K → ℕ
    count key [] = 0
    count key (k ∷ ks) = if same k key then suc (count key ks) else count key ks

    count_grows :
        (keys : List K) (s : CountMinSketch) (key : K) (m : ℕ)
        → ((a b : K) → same a b ≡ true → (k_i : ℕ) → hash k_i a ≡ hash k_i b)
        → IsSketch s
        → m ≤ usize_max
        → Counted s key m
        → (s' : CountMinSketch) × (increments keys s ≡ ok s')
          × IsSketch s'
          × Counted s' key (min (m + count key keys) usize_max)
    unfolding increments count
    count_grows [] s key m law is top counted = (s, refl, is, AtLeast-weaken (omega arith) counted)
    count_grows (k ∷ keys) s key m law is top counted =
        let (s1, e1, is1, up, keep) = increment_lem s k is in
        elim (Bool-cases (same k key)) [
          | inl q ↦
              let together = locate_same (s.mask) (s.k_num) 0 (0, 0) k key (law k key q) in
              let together' = locate_same (s1.mask) (s1.k_num) 0 (0, 0) k key (law k key q) in
              let before : Counted s k m = rw together counted in
              let after : Counted s1 key (min (suc m) usize_max) =
                rw (sym together') (up m before) in
              let (s2, e2, is2, counted2) =
                count_grows keys s1 key (min (suc m) usize_max) law is1 (omega arith) after in
              (s2, rw e1 e2, is2, rw q (AtLeast-weaken (omega arith) counted2))
          | inr q ↦
              let (s2, e2, is2, counted2) =
                count_grows keys s1 key m law is1 top (keep key m top counted) in
              (s2, rw e1 e2, is2, rw q counted2)
        ]

    -- After any increments of a sketch with a row at least, whose rows are one longer than its mask,
    -- each key's estimate is returned, and it is at least the number of increments of that key, or
    -- the greatest `usize` when the number is greater, provided that keys that count as the same
    -- have the same hashes.
    pub estimate-increments :
        (keys : List K) (s : CountMinSketch) (key : K)
        → ((a b : K) → same a b ≡ true → (k_i : ℕ) → hash k_i a ≡ hash k_i b)
        → IsSketch s
        → (s' : CountMinSketch) × (n : ℕ) × (increments keys s ≡ ok s')
          × (estimate hash s' key ≡ ok n)
          × (min (count key keys) usize_max ≤ n)
    unfolding estimate
    estimate-increments keys s key law is =
        let (s', e, is', counted) =
          count_grows keys s key 0 law is (omega arith) (AtLeast-zero (offsets-Aligned s key is)) in
        let (n, found, all, greatest) =
          minimum_found (offsets-Aligned s' key is')
            (omega (arith, length-Rectangle (is'.rectangle), is'.has_row)) in
        (s', n, e, found, omega (arith, greatest _ counted))
