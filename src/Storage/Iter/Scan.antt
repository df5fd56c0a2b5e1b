-- ===== src/Storage/Iter/Scan.antt =====
-- What `TupleIter` of src/storage/mod.rs yields: a window of the rows of a table.
use kite_sql.Prelude.{
  ℕ, zero, suc, ◌<◌, ◌≡◌, ◌≢◌, refl, sym, ap, ◌∙◌, ◌⊎◌, inl, inr, Option, none, some, List, [], ◌∷◌,
  length, length-drop, drop, Result, ok, arith,
}
use mathlib.Core.Path.{subst}
use kite_sql.Storage.Iter.{
  TupleIter, limit_sub, limited_tuple, next_stored, next_scanned, drain_scan,
}
use kite_sql.Storage.Iter.Stream.{limited, limited-sub, limited_nil, limit_cases, take_zero}

module _ {Row : Type 0} (decode : List ℕ → Result Row) where
  -- The entries can be read as rows.
  abbrev pub Decoded : List (List ℕ) → List Row → Type 0
  Decoded [] [] = Unit
  Decoded (b ∷ bs) (r ∷ rs) = (decode b ≡ ok r) × Decoded bs rs
  Decoded _ _ = ⊥

  -- One call in front of these entries.
  next_stored-none :
      (limit : Option ℕ) (offset : ℕ) (bs : List (List ℕ)) (rs : List Row)
      → Decoded bs rs
      → drop offset rs ≡ []
      → (it : TupleIter) × (next_stored decode limit offset bs ≡ ok (none, it))
  unfolding next_stored
  next_stored-none limit offset [] rs h e = (_, refl)
  next_stored-none limit zero (b ∷ bs) [] h e = absurd h
  next_stored-none limit zero (b ∷ bs) (r ∷ rs) h e = cc
  next_stored-none limit (suc offset) (b ∷ bs) [] h e = absurd h
  next_stored-none limit (suc offset) (b ∷ bs) (r ∷ rs) (here, later) e =
      next_stored-none limit offset bs rs later e

  limited_tuple_lem :
      (limit : Option ℕ) (b : List ℕ) (r : Row) (bs : List (List ℕ))
      → limit ≢ some 0
      → decode b ≡ ok r
      → limited_tuple decode limit b bs
        ≡ ok (some r, record { offset = 0; limit = limit_sub limit; iter = bs })
  unfolding limited_tuple
  limited_tuple_lem none b r bs h e = rw e refl
  limited_tuple_lem (some zero) b r bs h e = absurd (h refl)
  limited_tuple_lem (some (suc n)) b r bs h e = rw e refl

  next_stored-some :
      (limit : Option ℕ) (offset : ℕ) (bs : List (List ℕ)) (rs : List Row) (r : Row)
      (rest : List Row)
      → limit ≢ some 0
      → Decoded bs rs
      → drop offset rs ≡ r ∷ rest
      → (bs' : List (List ℕ)) × (next_stored decode limit offset bs
          ≡ ok (some r, record { offset = 0; limit = limit_sub limit; iter = bs' }))
        × Decoded bs' rest
  unfolding next_stored
  next_stored-some limit zero [] [] r rest h d e = absurd (cc)
  next_stored-some limit (suc offset) [] [] r rest h d e = absurd (cc)
  next_stored-some limit offset [] (x ∷ xs) r rest h d e = absurd d
  next_stored-some limit offset (b ∷ bs) [] r rest h d e = absurd d
  next_stored-some limit zero (b ∷ bs) (x ∷ xs) r rest h (here, later) e =
      let both : ◌≡◌ {A = List Row} (x ∷ xs) (r ∷ rest) = e in
      let first : x ≡ r = cc in
      let behind : xs ≡ rest = cc in
      (bs, limited_tuple_lem limit b r bs h (here ∙ ap ok first), subst (Decoded bs) behind later)
  next_stored-some limit (suc offset) (b ∷ bs) (x ∷ xs) r rest h (here, later) e =
      next_stored-some limit offset bs xs r rest h later e

  next_stored-limit :
      (offset : ℕ) (bs : List (List ℕ))
      → (it : TupleIter) × (next_stored decode (some 0) offset bs ≡ ok (none, it))
  unfolding next_stored limited_tuple
  next_stored-limit offset [] = (_, refl)
  next_stored-limit zero (b ∷ bs) = (_, refl)
  next_stored-limit (suc offset) (b ∷ bs) = next_stored-limit offset bs

  abbrev start : ℕ → Option ℕ → List (List ℕ) → TupleIter
  start offset limit bs = record { offset = offset; limit = limit; iter = bs }

  drain_scan-none :
      (rounds offset : ℕ) (limit : Option ℕ) (bs : List (List ℕ)) (it : TupleIter)
      → next_stored decode limit offset bs ≡ ok (none, it)
      → drain_scan decode (suc rounds) (start offset limit bs) ≡ ok []
  unfolding drain_scan next_scanned
  drain_scan-none rounds offset limit bs it e = rw e refl

  drain_scan-some :
      (rounds offset : ℕ) (limit : Option ℕ) (bs : List (List ℕ)) (row : Row) (rows : List Row)
      (it : TupleIter)
      → next_stored decode limit offset bs ≡ ok (some row, it)
      → drain_scan decode rounds it ≡ ok rows
      → drain_scan decode (suc rounds) (start offset limit bs) ≡ ok (row ∷ rows)
  unfolding drain_scan next_scanned
  drain_scan-some rounds offset limit bs row rows it e rest = rw (e, rest) refl

  List-cases : (xs : List Row) → (xs ≡ []) ⊎ ((r : Row) × (rest : List Row) × (xs ≡ r ∷ rest))
  List-cases [] = inl refl
  List-cases (x ∷ xs) = inr (x, xs, refl)

  -- Where the entries of a table can be read: with more rounds than rows, the loop over the iterator
  -- ends without an error and yields the rows behind the offset in their order, no more than the
  -- limit.
  pub drain_scan_lem :
      (rounds offset : ℕ) (limit : Option ℕ) (bs : List (List ℕ)) (rs : List Row)
      → Decoded bs rs
      → length rs < rounds
      → drain_scan decode rounds (record { offset = offset; limit = limit; iter = bs })
        ≡ ok (limited limit (drop offset rs))
  drain_scan_lem zero offset limit bs rs d enough = absurd (omega arith)
  drain_scan_lem (suc rounds) offset limit bs rs d enough = elim (limit_cases limit) [
    | inl e ↦
        let (it, stopped) = next_stored-limit offset bs in
        rw e (
          drain_scan-none rounds offset (some 0) bs it stopped
          ∙ ap ok (sym (take_zero (drop offset rs))))
    | inr h ↦ elim (List-cases (drop offset rs)) [
      | inl e ↦
          let (it, stopped) = next_stored-none limit offset bs rs d e in
          drain_scan-none rounds offset limit bs it stopped
          ∙ ap ok (sym (limited_nil limit))
          ∙ ap (λ xs. ok (limited limit xs)) (sym e)
      | inr (r, rest, e) ↦
          let (bs', yielded, d') = next_stored-some limit offset bs rs r rest h d e in
          let size = ap (λ xs. length xs) e in
          let left = length-drop offset rs in
          let later =
            drain_scan_lem rounds 0 (limit_sub limit) bs' rest d' (omega (arith, size, left)) in
          drain_scan-some rounds offset limit bs r (limited (limit_sub limit) rest)
            (start 0 (limit_sub limit) bs') yielded later
          ∙ ap ok (sym (limited-sub limit r rest h))
          ∙ ap (λ xs. ok (limited limit xs)) (sym e)
    ]
  ]
