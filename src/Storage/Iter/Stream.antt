-- ===== src/Storage/Iter/Stream.antt =====
-- What the iterators of src/storage/mod.rs yield, one call after the other.
use kite_sql.Prelude.{
  ℕ, zero, suc, ◌<◌, ◌≡◌, ◌≢◌, refl, sym, ap, ◌∙◌, ◌⊎◌, inl, inr, Option, none, some, List, [], ◌∷◌,
  ◌++◌, map, length, length-drop, take, drop, Result, ok, arith,
}
use mathlib.Core.Path.{subst}
use kite_sql.Storage.Iter.{
  IndexResult, skipped, found, scanned, IndexIterState, IndexIter, limit_sub, offset_move,
  from_entries, from_result, from_ranges, from_state, next_limited, next_tuple, drain,
}

-- The rows in front of the first key that is not there.
abbrev pub until_missing : {A : Type 0} → List (Option A) → List A
until_missing [] = []
until_missing (none ∷ xs) = []
until_missing (some a ∷ xs) = a ∷ until_missing xs

abbrev pub limited : {A : Type 0} → Option ℕ → List A → List A
limited none xs = xs
limited (some n) xs = take n xs

pub take_zero : {A : Type 0} (xs : List A) → take 0 xs ≡ []
take_zero [] = refl
take_zero (x ∷ xs) = refl

pub limited_nil : {A : Type 0} (limit : Option ℕ) → ◌≡◌ {A = List A} (limited limit []) []
limited_nil none = refl
limited_nil (some zero) = refl
limited_nil (some (suc n)) = refl

pub limited-sub :
    {A : Type 0} (limit : Option ℕ) (a : A) (xs : List A)
    → limit ≢ some 0
    → limited limit (a ∷ xs) ≡ a ∷ limited (limit_sub limit) xs
limited-sub none a xs h = refl
limited-sub (some zero) a xs h = absurd (h refl)
limited-sub (some (suc n)) a xs h = ap (λ k. a ∷ take k xs) (omega arith)

pub limit_cases : (limit : Option ℕ) → (limit ≡ some 0) ⊎ (limit ≢ some 0)
limit_cases none = inr (λ e. cc)
limit_cases (some zero) = inl refl
limit_cases (some (suc n)) = inr (λ e. ground (arith, e))

module _ {R Row : Type 0} (resolve : R → Result (IndexResult Row))
    (index_lookup : List ℕ → Result Row) where
  abbrev Step : Type 0
  Step = Option Row × IndexIter R

  -- The rows of a scan's entries.
  pub data Entries : List (List ℕ) → List Row → Type 0 where
    no_entry : Entries [] []
    entry :
        (bytes : List ℕ) (rest : List (List ℕ)) (row : Row) (rows : List Row)
        → index_lookup bytes ≡ ok row
        → Entries rest rows
        → Entries (bytes ∷ rest) (row ∷ rows)

  -- What the ranges stand for, in order: `none` is a key that was looked up and is not there.
  pub data Streams : List R → List (Option Row) → Type 0 where
    no_range : Streams [] []
    skip :
        (r : R) (rs : List R) (xs : List (Option Row))
        → resolve r ≡ ok skipped
        → Streams rs xs
        → Streams (r ∷ rs) xs
    look_up :
        (r : R) (rs : List R) (x : Option Row) (xs : List (Option Row))
        → resolve r ≡ ok (found x)
        → Streams rs xs
        → Streams (r ∷ rs) (x ∷ xs)
    scan :
        (r : R) (rs : List R) (entries : List (List ℕ)) (rows : List Row) (xs : List (Option Row))
        → resolve r ≡ ok (scanned entries)
        → Entries entries rows
        → Streams rs xs
        → Streams (r ∷ rs) (map some rows ++ xs)

  -- What an iterator in a state has before it.
  abbrev pub Pending : List R → IndexIterState → List (Option Row) → Type 0
  Pending ranges IndexIterState.init xs = Streams ranges xs
  Pending ranges (IndexIterState.range entries) xs =
      (rows : List Row) × (ys : List (Option Row)) × Entries entries rows
      × Streams ranges ys
      × (xs ≡ map some rows ++ ys)
  Pending ranges IndexIterState.over xs = xs ≡ []

  -- A call on an iterator with this before it behind the offset.
  abbrev Yield : Option ℕ → List (Option Row) → Result Step → Type 0
  Yield limit [] result = (it : IndexIter R) × (result ≡ ok (none, it))
  Yield limit (none ∷ xs) result = (it : IndexIter R) × (result ≡ ok (none, it))
  Yield limit (some row ∷ xs) result =
      (it : IndexIter R) × (result ≡ ok (some row, it))
      × (it.offset ≡ 0)
      × (it.limit ≡ limit_sub limit)
      × Pending it.ranges it.state xs

  from_entries_lem :
      (next : ℕ → Result Step) (limit : Option ℕ) (ranges : List R) (offset : ℕ)
      {entries : List (List ℕ)} {rows : List Row} (xs : List (Option Row))
      → Streams ranges xs
      → ((off : ℕ) → Yield limit (drop off xs) (next off))
      → Entries entries rows
      → Yield limit
          (drop offset (map some rows ++ xs))
          (from_entries resolve index_lookup next limit ranges (offset_move offset entries))
  unfolding from_entries offset_move
  from_entries_lem next limit ranges offset xs later go no_entry = go offset
  from_entries_lem next limit ranges zero xs later go (entry bytes rest row rows e more) = (
    record {
      offset = 0;
      limit = limit_sub limit;
      ranges = ranges;
      state = IndexIterState.range rest;
    },
    rw e refl,
    refl,
    refl,
    (rows, xs, more, later, refl),
  )
  from_entries_lem next limit ranges (suc offset) xs later go (entry bytes rest row rows e more) =
      from_entries_lem next limit ranges offset xs later go more

  drop_nil : (n : ℕ) → ◌≡◌ {A = List (Option Row)} (drop n []) []
  drop_nil zero = refl
  drop_nil (suc n) = refl

  found_lem :
      (next : ℕ → Result Step) (limit : Option ℕ) (ranges : List R) (offset : ℕ) (x : Option Row)
      (xs : List (Option Row))
      → Streams ranges xs
      → ((off : ℕ) → Yield limit (drop off xs) (next off))
      → Yield limit
          (drop offset (x ∷ xs))
          (from_result resolve index_lookup next offset limit ranges (found x))
  unfolding from_result
  found_lem next limit ranges zero none xs later go = (_, refl)
  found_lem next limit ranges zero (some row) xs later go = (_, refl, refl, refl, later)
  found_lem next limit ranges (suc offset) x xs later go = go offset

  skipped_lem :
      (next : ℕ → Result Step) (limit : Option ℕ) (ranges : List R) (offset : ℕ)
      (xs : List (Option Row))
      → Yield limit (drop offset xs) (next offset)
      → Yield limit
          (drop offset xs)
          (from_result resolve index_lookup next offset limit ranges skipped)
  unfolding from_result
  skipped_lem next limit ranges zero xs go = go
  skipped_lem next limit ranges (suc offset) xs go = go

  scanned_lem :
      (next : ℕ → Result Step) (limit : Option ℕ) (ranges : List R) (offset : ℕ)
      {entries : List (List ℕ)} {rows : List Row} (xs : List (Option Row))
      → Streams ranges xs
      → ((off : ℕ) → Yield limit (drop off xs) (next off))
      → Entries entries rows
      → Yield limit
          (drop offset (map some rows ++ xs))
          (from_result resolve index_lookup next offset limit ranges (scanned entries))
  unfolding from_result
  scanned_lem next limit ranges zero xs later go es =
      from_entries_lem next limit ranges zero xs later go es
  scanned_lem next limit ranges (suc offset) xs later go es =
      from_entries_lem next limit ranges (suc offset) xs later go es

  from_ranges_lem :
      (limit : Option ℕ) {ranges : List R} {xs : List (Option Row)} (offset : ℕ)
      → Streams ranges xs
      → Yield limit (drop offset xs) (from_ranges resolve index_lookup limit ranges offset)
  unfolding from_ranges
  from_ranges_lem limit offset no_range =
      subst (λ d. Yield limit d (from_ranges resolve index_lookup limit [] offset))
        (sym (drop_nil offset)) (_, refl)
  from_ranges_lem limit offset (skip r rs xs e later) = rw e (
      skipped_lem (from_ranges resolve index_lookup limit rs) limit rs offset xs
        (from_ranges_lem limit offset later))
  from_ranges_lem limit offset (look_up r rs x xs e later) = rw e (
      found_lem (from_ranges resolve index_lookup limit rs) limit rs offset x xs later
        (λ off. from_ranges_lem limit off later))
  from_ranges_lem limit offset (scan r rs entries rows xs e es later) = rw e (
      scanned_lem (from_ranges resolve index_lookup limit rs) limit rs offset xs later
        (λ off. from_ranges_lem limit off later) es)

  from_state_lem :
      (it : IndexIter R) (state : IndexIterState) (xs : List (Option Row))
      → Pending it.ranges state xs
      → Yield it.limit (drop it.offset xs) (from_state resolve index_lookup it state)
  unfolding from_state
  from_state_lem it IndexIterState.init xs pending = from_ranges_lem it.limit it.offset pending
  from_state_lem it (IndexIterState.range entries) xs (rows, ys, es, later, e) = rw e (
      from_entries_lem (from_ranges resolve index_lookup it.limit it.ranges) it.limit it.ranges
        it.offset ys later (λ off. from_ranges_lem it.limit off later) es)
  from_state_lem it IndexIterState.over xs e = rw (e, drop_nil it.offset) (it, refl)

  abbrev Drained : ℕ → IndexIter R → List (Option Row) → Type 0
  Drained rounds it d =
      drain resolve index_lookup rounds it ≡ ok (limited it.limit (until_missing d))

  drain_step :
      (rounds : ℕ) (it : IndexIter R) (d : List (Option Row))
      → it.limit ≢ some 0
      → Yield it.limit d (next_tuple resolve index_lookup it)
      → ((it' : IndexIter R) (ys : List (Option Row))
          → length ys < length d
          → it'.offset ≡ 0
          → Pending it'.ranges it'.state ys
          → Drained rounds it' ys)
      → Drained (suc rounds) it d
  unfolding drain
  drain_step rounds it [] h (it', e) more = rw e (ap ok (sym (limited_nil it.limit)))
  drain_step rounds it (none ∷ d) h (it', e) more = rw e (ap ok (sym (limited_nil it.limit)))
  drain_step rounds it (some row ∷ d) h (it', e, at_0, lower, pending) more =
      let rest = more it' d (omega arith) at_0 pending in
      rw (e, rest, lower) (ap ok (sym (limited-sub it.limit row (until_missing d) h)))

  next_limited_lem :
      (it : IndexIter R) (limit : Option ℕ)
      → limit ≢ some 0
      → next_limited resolve index_lookup it limit ≡ from_state resolve index_lookup it it.state
  unfolding next_limited
  next_limited_lem it none h = refl
  next_limited_lem it (some zero) h = absurd (h refl)
  next_limited_lem it (some (suc n)) h = refl

  next_tuple_lem :
      (it : IndexIter R) (xs : List (Option Row))
      → it.limit ≢ some 0
      → Pending it.ranges it.state xs
      → Yield it.limit (drop it.offset xs) (next_tuple resolve index_lookup it)
  unfolding next_tuple
  next_tuple_lem it xs h pending =
      rw (next_limited_lem it it.limit h) (from_state_lem it it.state xs pending)

  drain_nothing :
      (rounds : ℕ) (it : IndexIter R)
      → it.limit ≡ some 0
      → drain resolve index_lookup (suc rounds) it ≡ ok []
  unfolding drain next_tuple next_limited
  drain_nothing rounds it e = rw e refl

  drained :
      (rounds : ℕ) (it : IndexIter R) (xs : List (Option Row))
      → length xs < rounds
      → Pending it.ranges it.state xs
      → Drained rounds it (drop it.offset xs)
  drained zero it xs enough pending = absurd (omega arith)
  drained (suc rounds) it xs enough pending = elim (limit_cases it.limit) [
    | inl e ↦
        drain_nothing rounds it e
        ∙ rw e (ap ok (sym (take_zero (until_missing (drop it.offset xs)))))
    | inr h ↦
        drain_step rounds it (drop it.offset xs) h (next_tuple_lem it xs h pending)
          (λ it' ys shorter at_0 later.
            let left = length-drop it.offset xs in
            let rest = drained rounds it' ys (omega (arith, shorter, left)) later in
            subst (λ k. Drained rounds it' (drop k ys)) at_0 rest)
  ]

  -- Where the ranges of an index and the entries of its scans can be read: with more rounds than there
  -- are rows, the loop over the iterator ends without an error and yields the rows behind the offset,
  -- in the order of the ranges, no more than the limit, up to the first key of a range that is not
  -- there, with which it ends.
  pub drain_lem :
      (rounds offset : ℕ) (limit : Option ℕ) (ranges : List R) (xs : List (Option Row))
      → Streams ranges xs
      → length xs < rounds
      → drain resolve index_lookup rounds
          (record { offset = offset; limit = limit; ranges = ranges; state = IndexIterState.init })
        ≡ ok (limited limit (until_missing (drop offset xs)))
  drain_lem rounds offset limit ranges xs streams enough =
      drained rounds
        (record { offset = offset; limit = limit; ranges = ranges; state = IndexIterState.init }) xs
        enough streams
