-- ===== src/Execution/NestedLoopJoin/Indexes.antt =====
-- The indexes of matched right rows, which src/execution/dql/join/nested_loop_join.rs marks.
use kite_sql.Prelude.{
  ℕ, suc, ◌+◌, ◌≤◌, ◌<◌, ◌≡◌, refl, inl, inr, Bool, true, false, Bool-cases, ◌==◌, if◌then◌else◌,
  List, [], ◌∷◌, ◌++◌, length, arith,
}

abbrev pub member : ℕ → List ℕ → Bool
member j [] = false
member j (i ∷ is) = if i == j then true else member j is

abbrev pub AllBelow : ℕ → List ℕ → Type 0
AllBelow n [] = Unit
AllBelow n (i ∷ is) = (i < n) × AllBelow n is

member-append :
    (j : ℕ) (xs ys : List ℕ) → member j (xs ++ ys) ≡ (if member j xs then true else member j ys)
member-append j [] ys = refl
member-append j (x ∷ xs) ys = elim (Bool-cases (x == j)) [
  | inl e ↦ rw e refl
  | inr e ↦ rw e (member-append j xs ys)
]

module _ {Row : Type 0} (matches : Row → Row → Bool) where
  -- The indexes of the matches among the right rows from the index `i` on.
  abbrev pub indexes : Row → List Row → ℕ → List ℕ
  indexes left [] i = []
  indexes left (r ∷ rs) i =
      let rest = indexes left rs (suc i) in if matches left r then i ∷ rest else rest

  abbrev pub any_hit : List Row → List Row → ℕ → ℕ → Bool
  any_hit [] rs i j = false
  any_hit (l ∷ ls) rs i j = if member j (indexes l rs i) then true else any_hit ls rs i j

  -- A right row that some left row matches.
  abbrev pub matched_by : List Row → Row → Bool
  matched_by [] r = false
  matched_by (l ∷ ls) r = if matches l r then true else matched_by ls r

  index_below :
      (left : Row) (rs : List Row) (i j : ℕ) → j < i → member j (indexes left rs i) ≡ false
  index_below left [] i j h = refl
  index_below left (r ∷ rs) i j h = elim (Bool-cases (matches left r)) [
    | inl e ↦
        let later = index_below left rs (suc i) j (omega arith) in rw e (ground (arith, later))
    | inr e ↦ rw e (index_below left rs (suc i) j (omega arith))
  ]

  index_here :
      (left r : Row) (rs : List Row) (i : ℕ) → member i (indexes left (r ∷ rs) i) ≡ matches left r
  index_here left r rs i = elim (Bool-cases (matches left r)) [
    | inl e ↦ rw e (ground arith)
    | inr e ↦ rw e (index_below left rs (suc i) i (omega arith))
  ]

  index_later :
      (left r : Row) (rs : List Row) (i j : ℕ)
      → i < j
      → member j (indexes left (r ∷ rs) i) ≡ member j (indexes left rs (suc i))
  index_later left r rs i j h = elim (Bool-cases (matches left r)) [
    | inl e ↦ rw e (ground arith)
    | inr e ↦ rw e refl
  ]

  pub any_hit_here :
      (ls : List Row) (r : Row) (rs : List Row) (i : ℕ) → any_hit ls (r ∷ rs) i i ≡ matched_by ls r
  any_hit_here [] r rs i = refl
  any_hit_here (l ∷ ls) r rs i = rw (index_here l r rs i, any_hit_here ls r rs i) refl

  pub any_hit_later :
      (ls : List Row) (r : Row) (rs : List Row) (i j : ℕ)
      → i < j
      → any_hit ls (r ∷ rs) i j ≡ any_hit ls rs (suc i) j
  any_hit_later [] r rs i j h = refl
  any_hit_later (l ∷ ls) r rs i j h =
      rw (index_later l r rs i j h, any_hit_later ls r rs i j h) refl

  pub indexes-AllBelow :
      (left : Row) (rs : List Row) (i n : ℕ) → i + length rs ≤ n → AllBelow n (indexes left rs i)
  indexes-AllBelow left [] i n h = tt
  indexes-AllBelow left (r ∷ rs) i n h =
      let later = indexes-AllBelow left rs (suc i) n (omega arith) in
      elim (Bool-cases (matches left r)) [ inl e ↦ rw e (omega arith, later) | inr e ↦ rw e later ]
