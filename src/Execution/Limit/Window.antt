-- ===== src/Execution/Limit/Window.antt =====
-- The rows that `Limit` yields are a window of its input.
use kite_sql.Prelude.{
  ℕ, zero, suc, ◌+◌, ◌-◌, ◌≤◌, ◌<◌, ◌≡◌, refl, sym, ap, ◌∙◌, ◌⊎◌, inl, inr, false, Bool-cases, ltb,
  ltb→lt, length-drop, Option, none, some, List, [], ◌∷◌, length, take, drop, arith,
}
use mathlib.Core.Path.{subst}
use kite_sql.Execution.Limit.{
  limit_loop, execute_from, execute, unwrap_or, saturating_add, usize_max,
}

-- What OFFSET and LIMIT ask for.
abbrev pub window : {A : Type 0} → Option ℕ → Option ℕ → List A → List A
window offset none xs = drop (unwrap_or offset 0) xs
window offset (some n) xs = take n (drop (unwrap_or offset 0) xs)

not_before : (i off : ℕ) → off ≤ i → ltb i off ≡ false
not_before i off h = ground arith

at_least : (i off : ℕ) → ltb i off ≡ false → off ≤ i
at_least i off h = ground arith

-- The count of rows that the saturated bound leaves behind the offset is the limit or the whole rest.
saturated_count :
    (off n len l : ℕ)
    → 0 < n
    → off ≤ usize_max
    → len ≤ usize_max
    → l ≡ len - off
    → (suc (saturating_add off n - 1) - off ≡ n)
      ⊎ ((l ≤ suc (saturating_add off n - 1) - off) × (l ≤ n))
saturated_count off n len l positive small short left =
    elim (Bool-cases (ltb usize_max (off + n))) [
      | inl over ↦
          let past = ltb→lt usize_max (off + n) over in rw over (inr (omega arith, omega arith))
      | inr fits ↦ rw fits (inl (omega arith))
    ]

module _ {A : Type 0} where
  take_from : (n m : ℕ) (x : A) (xs : List A) → n ≡ suc m → take n (x ∷ xs) ≡ x ∷ take m xs
  take_from n m x xs e = subst (λ k. take k (x ∷ xs) ≡ x ∷ take m xs) (sym e) refl

  take_none : (n : ℕ) (xs : List A) → n ≡ 0 → take n xs ≡ []
  take_none n xs e = subst (λ k. take k xs ≡ []) (sym e) (take_zero xs)
    where
      take_zero : (ys : List A) → take 0 ys ≡ []
      take_zero [] = refl
      take_zero (y ∷ ys) = refl

  drop_from : (n m : ℕ) (x : A) (xs : List A) → n ≡ suc m → drop n (x ∷ xs) ≡ drop m xs
  drop_from n m x xs e = subst (λ k. drop k (x ∷ xs) ≡ drop m xs) (sym e) refl

  take_all : (n : ℕ) (xs : List A) → length xs ≤ n → take n xs ≡ xs
  take_all zero [] h = refl
  take_all (suc n) [] h = refl
  take_all zero (x ∷ xs) h = absurd (omega arith)
  take_all (suc n) (x ∷ xs) h = ap (λ ys. x ∷ ys) (take_all n xs (omega arith))

  take_nil : (n : ℕ) → take {A = A} n [] ≡ []
  take_nil zero = refl
  take_nil (suc n) = refl

  drop_nil : (n : ℕ) → drop {A = A} n [] ≡ []
  drop_nil zero = refl
  drop_nil (suc n) = refl

  drop_none : (n : ℕ) (xs : List A) → n ≡ 0 → drop n xs ≡ xs
  drop_none n xs e = subst (λ k. drop k xs ≡ xs) (sym e) refl

  -- Two counts take the same of a list that both exceed.
  take_same :
      (m n : ℕ) (xs : List A)
      → (m ≡ n) ⊎ ((length xs ≤ m) × (length xs ≤ n))
      → take m xs ≡ take n xs
  take_same m n xs (inl e) = ap (λ k. take k xs) e
  take_same m n xs (inr (h, k)) = take_all m xs h ∙ sym (take_all n xs k)

  -- From the offset on the loop takes rows up to the limit.
  limit_loop-take :
      (off lim i : ℕ) (xs : List A) → off ≤ i → limit_loop off lim i xs ≡ take (suc lim - i) xs
  unfolding limit_loop
  limit_loop-take off lim i [] h = sym (take_nil (suc lim - i))
  limit_loop-take off lim i (x ∷ xs) h =
      let reached = not_before i off h in
      let rest = limit_loop-take off lim (suc i) xs (omega arith) in
      elim (Bool-cases (ltb lim i)) [
        | inl past ↦
            let over = ltb→lt lim i past in
            rw (reached, past) (sym (take_none (suc lim - i) (x ∷ xs) (omega (arith, over))))
        | inr within ↦
            let le = at_least lim i within in
            rw (reached, within, rest)
              (sym (take_from (suc lim - i) (suc lim - suc i) x xs (omega (arith, le))))
      ]

  limit_loop-drop :
      (off lim i : ℕ) (xs : List A)
      → i ≤ off
      → limit_loop off lim i xs ≡ take (suc lim - off) (drop (off - i) xs)
  unfolding limit_loop
  limit_loop-drop off lim i [] h =
      sym (ap (take (suc lim - off)) (drop_nil (off - i)) ∙ take_nil (suc lim - off))
  limit_loop-drop off lim i (x ∷ xs) h = elim (Bool-cases (ltb i off)) [
    | inl before ↦
        let less = ltb→lt i off before in
        rw before (
          limit_loop-drop off lim (suc i) xs (omega (arith, less))
          ∙ ap (take (suc lim - off))
              (sym (drop_from (off - i) (off - suc i) x xs (omega (arith, less)))))
    | inr reached ↦
        let le = at_least i off reached in
        limit_loop-take off lim i (x ∷ xs) le
        ∙ ap (λ k. take (suc lim - k) (x ∷ xs)) (omega (arith, le, h))
        ∙ ap (take (suc lim - off)) (sym (drop_none (off - i) (x ∷ xs) (omega (arith, le))))
  ]

  execute_from-drop :
      (off n : ℕ) (xs : List A)
      → 0 < n
      → off ≤ usize_max
      → length xs ≤ usize_max
      → execute_from off n xs ≡ take n (drop off xs)
  unfolding execute_from
  execute_from-drop off n xs positive small short =
      let left = length-drop off xs in
      limit_loop-drop off (saturating_add off n - 1) 0 xs (omega arith)
      ∙ ap (λ k. take (suc (saturating_add off n - 1) - off) (drop k xs)) (omega arith)
      ∙ take_same (suc (saturating_add off n - 1) - off) n (drop off xs)
          (saturated_count off n (length xs) (length (drop off xs)) positive small short left)

  -- With an offset and a number of rows in the range of `usize`, the rows that `Limit` yields are those
  -- behind the offset, and no more of them than the limit.
  pub execute_lem :
      (offset limit : Option ℕ) (xs : List A)
      → unwrap_or offset 0 ≤ usize_max
      → length xs ≤ usize_max
      → execute offset limit xs ≡ window offset limit xs
  unfolding execute
  execute_lem offset (some zero) xs small short = refl
  execute_lem offset (some (suc n)) xs small short =
      execute_from-drop (unwrap_or offset 0) (suc n) xs (omega arith) small short
  execute_lem offset none xs small short =
      let left = length-drop (unwrap_or offset 0) xs in
      execute_from-drop (unwrap_or offset 0) usize_max xs (omega arith) small short
      ∙ take_all usize_max (drop (unwrap_or offset 0) xs) (omega (arith, left, short))
