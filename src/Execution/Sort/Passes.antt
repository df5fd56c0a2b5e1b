-- ===== src/Execution/Sort/Passes.antt =====
-- One pass of `radix_sort`: the tuples are ordered by one digit, and those of one digit stay as they
-- stood.
use kite_sql.Prelude.{
  ℕ, zero, suc, ◌+◌, ◌<◌, ◌≡◌, sym, ◌∙◌, ◌⊎◌, inl, inr, List, [], ◌∷◌, ◌++◌, replicate, arith,
}
use kite_sql.Execution.Sort.{Keyed, digit, push_bucket, distribute, collect, pass, bucket_size}

-- Every item has a property; every item stands before the later ones.
abbrev pub All {ℓ} : {A : Type ℓ} → (A → Type 0) → List A → Type 0
All P [] = Unit
All P (x ∷ xs) = P x × All P xs

abbrev pub Sorted : {A : Type 0} → (A → A → Type 0) → List A → Type 0
Sorted R [] = Unit
Sorted R (x ∷ xs) = All (R x) xs × Sorted R xs

module _ {A : Type 0} where
  pub All-append : (P : A → Type 0) (xs ys : List A) → All P xs → All P ys → All P (xs ++ ys)
  All-append P [] ys h k = k
  All-append P (x ∷ xs) ys (h, hs) k = (h, All-append P xs ys hs k)

  pub All-map : {P Q : A → Type 0} (xs : List A) → ((x : A) → P x → Q x) → All P xs → All Q xs
  All-map [] f h = tt
  All-map (x ∷ xs) f (h, hs) = (f x h, All-map xs f hs)

  pub Sorted-append :
      (R : A → A → Type 0) (xs ys : List A)
      → Sorted R xs
      → Sorted R ys
      → All (λ x. All (R x) ys) xs
      → Sorted R (xs ++ ys)
  Sorted-append R [] ys h k a = k
  Sorted-append R (x ∷ xs) ys (h, hs) k (a, later) =
      (All-append (R x) xs ys h a, Sorted-append R xs ys hs k later)

module _ {T : Type 0} (i : ℕ) (R : Keyed T → Keyed T → Type 0) where
  -- By the digit, then as before.
  abbrev pub ByDigit : Keyed T → Keyed T → Type 0
  ByDigit a b = (digit i a < digit i b) ⊎ ((digit i a ≡ digit i b) × R a b)

  -- The buckets from a digit on: each holds the tuples of its digit in their order, all of them
  -- before those that are still to come.
  abbrev Buckets : ℕ → List (List (Keyed T)) → List (Keyed T) → Type 0
  Buckets lo [] pending = Unit
  Buckets lo (b ∷ bs) pending =
      All (λ x. digit i x ≡ lo) b
      × Sorted R b
      × All (λ y. All (R y) pending) b
      × Buckets (suc lo) bs pending

  skip_pending :
      (lo : ℕ) (bs : List (List (Keyed T))) (x : Keyed T) (pending : List (Keyed T))
      → Buckets lo bs (x ∷ pending)
      → Buckets lo bs pending
  skip_pending lo [] x pending h = tt
  skip_pending lo (b ∷ bs) x pending (same, ordered, before, rest) =
      (same, ordered, All-map b (λ y. λ k. k.1) before, skip_pending (suc lo) bs x pending rest)

  Buckets-push_bucket :
      (lo : ℕ) (bs : List (List (Keyed T))) (k : ℕ) (x : Keyed T) (pending : List (Keyed T))
      → digit i x ≡ lo + k
      → All (R x) pending
      → Buckets lo bs (x ∷ pending)
      → Buckets lo (push_bucket bs k x) pending
  unfolding push_bucket
  Buckets-push_bucket lo [] k x pending e h g = tt
  Buckets-push_bucket lo (b ∷ bs) zero x pending e h (same, ordered, before, rest) = (
    All-append (λ y. digit i y ≡ lo) b (x ∷ []) same (omega (arith, e), tt),
    Sorted-append R b (x ∷ []) ordered (tt, tt) (All-map b (λ y. λ k. (k.0, tt)) before),
    All-append (λ y. All (R y) pending) b (x ∷ []) (All-map b (λ y. λ k. k.1) before) (h, tt),
    skip_pending (suc lo) bs x pending rest,
  )
  Buckets-push_bucket lo (b ∷ bs) (suc k) x pending e h (same, ordered, before, rest) = (
    same,
    ordered,
    All-map b (λ y. λ k. k.1) before,
    Buckets-push_bucket (suc lo) bs k x pending (omega (arith, e)) h rest,
  )

  Buckets-distribute :
      (bs : List (List (Keyed T))) (xs : List (Keyed T))
      → Sorted R xs
      → Buckets 0 bs xs
      → Buckets 0 (distribute i bs xs) []
  unfolding distribute
  Buckets-distribute bs [] h g = g
  Buckets-distribute bs (x ∷ xs) (h, hs) g =
      Buckets-distribute (push_bucket bs (digit i x) x) xs hs
        (Buckets-push_bucket 0 bs (digit i x) x xs (omega arith) h g)

  Buckets-replicate : (lo n : ℕ) (xs : List (Keyed T)) → Buckets lo (replicate n []) xs
  Buckets-replicate lo zero xs = tt
  Buckets-replicate lo (suc n) xs = (tt, tt, tt, Buckets-replicate (suc lo) n xs)

  collect_above :
      (lo m : ℕ) (bs : List (List (Keyed T)))
      → m < lo
      → Buckets lo bs []
      → All (λ x. m < digit i x) (collect bs)
  unfolding collect
  collect_above lo m [] h g = tt
  collect_above lo m (b ∷ bs) h (same, ordered, before, rest) =
      All-append (λ x. m < digit i x) b (collect bs)
        (All-map b (λ x. λ e. omega (arith, e, h)) same)
        (collect_above (suc lo) m bs (omega arith) rest)

  in_bucket-Sorted :
      (lo : ℕ) (b : List (Keyed T)) → All (λ x. digit i x ≡ lo) b → Sorted R b → Sorted ByDigit b
  in_bucket-Sorted lo [] same h = tt
  in_bucket-Sorted lo (x ∷ xs) (e, es) (h, hs) = (both xs es h, in_bucket-Sorted lo xs es hs)
    where
      both :
          (ys : List (Keyed T)) → All (λ y. digit i y ≡ lo) ys → All (R x) ys → All (ByDigit x) ys
      both [] s r = tt
      both (y ∷ ys) (s, ss) (r, rs) = (inr (e ∙ sym s, r), both ys ss rs)

  Sorted-collect :
      (lo : ℕ) (bs : List (List (Keyed T))) → Buckets lo bs [] → Sorted ByDigit (collect bs)
  unfolding collect
  Sorted-collect lo [] g = tt
  Sorted-collect lo (b ∷ bs) (same, ordered, before, rest) =
      Sorted-append ByDigit b (collect bs) (in_bucket-Sorted lo b same ordered)
        (Sorted-collect (suc lo) bs rest)
        (All-map b
          (λ x. λ e.
            All-map (collect bs) (λ y. λ above. inl (omega (arith, e, above)))
              (collect_above (suc lo) lo bs (omega arith) rest))
          same)

  pub Sorted-pass : (xs : List (Keyed T)) → Sorted R xs → Sorted ByDigit (pass i xs)
  unfolding pass
  Sorted-pass xs h =
      Sorted-collect 0 (distribute i (replicate bucket_size []) xs)
        (Buckets-distribute (replicate bucket_size []) xs h (Buckets-replicate 0 bucket_size xs))

-- What holds of every tuple holds of every tuple after a pass.
module _ {T : Type 0} (P : Keyed T → Type 0) where
  All-push_bucket :
      (bs : List (List (Keyed T))) (k : ℕ) (x : Keyed T)
      → P x
      → All (All P) bs
      → All (All P) (push_bucket bs k x)
  unfolding push_bucket
  All-push_bucket [] k x h g = tt
  All-push_bucket (b ∷ bs) zero x h (g, gs) = (All-append P b (x ∷ []) g (h, tt), gs)
  All-push_bucket (b ∷ bs) (suc k) x h (g, gs) = (g, All-push_bucket bs k x h gs)

  All-distribute :
      (i : ℕ) (bs : List (List (Keyed T))) (xs : List (Keyed T))
      → All P xs
      → All (All P) bs
      → All (All P) (distribute i bs xs)
  unfolding distribute
  All-distribute i bs [] h g = g
  All-distribute i bs (x ∷ xs) (h, hs) g =
      All-distribute i (push_bucket bs (digit i x) x) xs hs (All-push_bucket bs (digit i x) x h g)

  All-collect : (bs : List (List (Keyed T))) → All (All P) bs → All P (collect bs)
  unfolding collect
  All-collect [] g = tt
  All-collect (b ∷ bs) (g, gs) = All-append P b (collect bs) g (All-collect bs gs)

  All-replicate : (n : ℕ) → All (All P) (replicate n [])
  All-replicate zero = tt
  All-replicate (suc n) = (tt, All-replicate n)

  pub All-pass : (i : ℕ) (xs : List (Keyed T)) → All P xs → All P (pass i xs)
  unfolding pass
  All-pass i xs h =
      All-collect (distribute i (replicate bucket_size []) xs)
        (All-distribute i (replicate bucket_size []) xs h (All-replicate bucket_size))
