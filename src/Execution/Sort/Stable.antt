-- ===== src/Execution/Sort/Stable.antt =====
-- `radix_sort` orders by the keys, keeps tuples of equal keys in their order, and loses none.
use kite_sql.Prelude.{
  ℕ, zero, suc, ◌+◌, ◌<◌, ◌≡◌, refl, sym, ap, ◌∙◌, ◌⊎◌, inl, inr, Bool, List, [], ◌∷◌, ◌++◌, length,
  replicate, length-replicate, arith, if◌then◌else◌,
}
use mathlib.Core.Path.{subst}
use kite_sql.Execution.Sort.{
  Keyed, digit, push_bucket, distribute, collect, pass, passes, max_len, sorted, bucket_size,
}
use kite_sql.Execution.Sort.Passes.{All, Sorted, All-map, ByDigit, Sorted-pass, All-pass}

lt_suc_cases : (j n : ℕ) → j < suc n → (j < n) ⊎ (j ≡ n)
lt_suc_cases j n h = omega arith

module _ {T : Type 0} where
  -- The passes from the digit before `n` down to the first.
  abbrev ByDigits : ℕ → (Keyed T → Keyed T → Type 0) → Keyed T → Keyed T → Type 0
  ByDigits zero R = R
  ByDigits (suc i) R = ByDigits i (ByDigit i R)

  Sorted-passes :
      (n : ℕ) (R : Keyed T → Keyed T → Type 0) (xs : List (Keyed T))
      → Sorted R xs
      → Sorted (ByDigits n R) (passes n xs)
  unfolding passes
  Sorted-passes zero R xs h = h
  Sorted-passes (suc i) R xs h = Sorted-passes i (ByDigit i R) (pass i xs) (Sorted-pass i R xs h)

  -- The order of the keys below `n` digits, a shorter key continued by zeros: less at the first
  -- digit that differs, or equal, and then as R has it.
  abbrev pub Precedes : ℕ → (Keyed T → Keyed T → Type 0) → Keyed T → Keyed T → Type 0
  Precedes n R a b =
      ((i : ℕ) × (i < n) × (digit i a < digit i b) × ((j : ℕ) → j < i → digit j a ≡ digit j b))
      ⊎ (((j : ℕ) → j < n → digit j a ≡ digit j b) × R a b)

  equal_below :
      (n : ℕ) (a b : Keyed T)
      → ((j : ℕ) → j < n → digit j a ≡ digit j b)
      → digit n a ≡ digit n b
      → (j : ℕ) → j < suc n
      → digit j a ≡ digit j b
  equal_below n a b same e j k = elim (lt_suc_cases j n k) [
    | inl less ↦ same j less
    | inr last ↦ subst (λ m. digit m a ≡ digit m b) (sym last) e
  ]

  first_difference :
      (n : ℕ) (R : Keyed T → Keyed T → Type 0) (a b : Keyed T) → ByDigits n R a b → Precedes n R a b
  first_difference zero R a b h = inr (λ j k. elim k [ ], h)
  first_difference (suc n) R a b h = elim (first_difference n (ByDigit n R) a b h) [
    | inl (i, below, less, same) ↦ inl (i, omega (arith, below), less, same)
    | inr (same, inl less) ↦ inl (n, omega arith, less, same)
    | inr (same, inr (e, r)) ↦ inr (equal_below n a b same e, r)
  ]

  Sorted-map :
      {P Q : Keyed T → Keyed T → Type 0} (xs : List (Keyed T))
      → ((a b : Keyed T) → P a b → Q a b)
      → Sorted P xs
      → Sorted Q xs
  Sorted-map [] f h = tt
  Sorted-map (x ∷ xs) f (h, hs) = (All-map xs (f x) h, Sorted-map xs f hs)

  -- For every relation in which the input stands, the output of `radix_sort` stands in the order of
  -- the keys, padded with zeros to the longest, and tuples of equal keys in the relation: the sort is
  -- stable.
  pub Sorted-radix_sort :
      (R : Keyed T → Keyed T → Type 0) (tuples : List (Keyed T))
      → Sorted R tuples
      → Sorted (Precedes (max_len tuples) R) (sorted tuples)
  unfolding sorted
  Sorted-radix_sort R tuples h =
      Sorted-map (passes (max_len tuples) tuples) (first_difference (max_len tuples) R)
        (Sorted-passes (max_len tuples) R tuples h)

  -- How many tuples pass a test.
  abbrev pub count : (Keyed T → Bool) → List (Keyed T) → ℕ
  count p [] = 0
  count p (x ∷ xs) = (if p x then 1 else 0) + count p xs

  -- The keys are bytes.
  abbrev pub AreBytes : List (Keyed T) → Type 0
  AreBytes xs = All (λ x. All (λ b. b < bucket_size) x.1) xs

  digit-lt : (i : ℕ) (x : Keyed T) → All (λ b. b < bucket_size) x.1 → digit i x < bucket_size
  digit-lt i (t, []) h = omega arith
  digit-lt zero (t, b ∷ bs) (h, hs) = h
  digit-lt (suc i) (t, b ∷ bs) (h, hs) = digit-lt i (t, bs) hs

  module _ (p : Keyed T → Bool) where
    count-append : (xs ys : List (Keyed T)) → count p (xs ++ ys) ≡ count p xs + count p ys
    count-append [] ys = omega arith
    count-append (x ∷ xs) ys = omega (arith, count-append xs ys)

    length-push_bucket :
        (bs : List (List (Keyed T))) (k : ℕ) (x : Keyed T) → length (push_bucket bs k x) ≡ length bs
    unfolding push_bucket
    length-push_bucket [] k x = refl
    length-push_bucket (b ∷ bs) zero x = refl
    length-push_bucket (b ∷ bs) (suc k) x = ap suc (length-push_bucket bs k x)

    count-push_bucket :
        (bs : List (List (Keyed T))) (k : ℕ) (x : Keyed T)
        → k < length bs
        → count p (collect (push_bucket bs k x)) ≡ (if p x then 1 else 0) + count p (collect bs)
    unfolding push_bucket collect
    count-push_bucket [] k x h = elim h [ ]
    count-push_bucket (b ∷ bs) zero x h = omega (
      arith,
      count-append (b ++ (x ∷ [])) (collect bs),
      count-append b (x ∷ []),
      count-append b (collect bs),
    )
    count-push_bucket (b ∷ bs) (suc k) x h = omega (
      arith,
      count-append b (collect (push_bucket bs k x)),
      count-append b (collect bs),
      count-push_bucket bs k x (omega arith),
    )

    count-distribute :
        (i : ℕ) (bs : List (List (Keyed T))) (xs : List (Keyed T))
        → length bs ≡ bucket_size
        → AreBytes xs
        → count p (collect (distribute i bs xs)) ≡ count p (collect bs) + count p xs
    unfolding distribute
    count-distribute i bs [] h g = omega arith
    count-distribute i bs (x ∷ xs) h (g, gs) =
        let below = digit-lt i x g in
        let here = count-push_bucket bs (digit i x) x (omega (arith, below, h)) in
        let rest =
          count-distribute i (push_bucket bs (digit i x) x) xs
            (length-push_bucket bs (digit i x) x ∙ h) gs in
        omega (arith, here, rest)

    count-collect_empty : (n : ℕ) → count p (collect (replicate n [])) ≡ 0
    unfolding collect
    count-collect_empty zero = refl
    count-collect_empty (suc n) = count-collect_empty n

    count-pass : (i : ℕ) (xs : List (Keyed T)) → AreBytes xs → count p (pass i xs) ≡ count p xs
    unfolding pass
    count-pass i xs g = omega (
      arith,
      count-distribute i (replicate bucket_size []) xs
          (length-replicate {A = List (Keyed T)} bucket_size []) g,
      count-collect_empty bucket_size,
    )

    count-passes : (n : ℕ) (xs : List (Keyed T)) → AreBytes xs → count p (passes n xs) ≡ count p xs
    unfolding passes
    count-passes zero xs g = refl
    count-passes (suc i) xs g =
        count-passes i (pass i xs) (All-pass (λ x. All (λ b. b < bucket_size) x.1) i xs g)
        ∙ count-pass i xs g

    -- No tuple is lost or made by `radix_sort`: as many of the output as of the input pass any test.
    pub count-radix_sort :
        (tuples : List (Keyed T)) → AreBytes tuples → count p (sorted tuples) ≡ count p tuples
    unfolding sorted
    count-radix_sort tuples g = count-passes (max_len tuples) tuples g
