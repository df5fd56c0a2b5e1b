-- ===== src/Execution/NestedLoopJoin/Emit.antt =====
-- The rows that `emit_tuple` of src/execution/dql/join/nested_loop_join.rs makes, for a left row that
-- has columns.
use kite_sql.Prelude.{
  ℕ, zero, suc, ◌+◌, ◌<◌, ◌≡◌, refl, ap, false, Option, none, some, List, [], ◌∷◌, ◌++◌, map,
  length, length-append, take, drop, replicate, arith,
}
use kite_sql.Types.Value.{DataValue, null}
use kite_sql.Types.Tuple.{Tuple}
use kite_sql.Execution.NestedLoopJoin.{
  JoinType, nulled, or, emit_values, non_empty, emit_tuple, emit_match, emit_unmatched, to_list,
}

module _ {A : Type 0} where
  take-append : (xs ys : List A) → take (length xs) (xs ++ ys) ≡ xs
  take-append [] ys = take_zero ys
    where
      take_zero : (zs : List A) → take 0 zs ≡ []
      take_zero [] = refl
      take_zero (z ∷ zs) = refl
  take-append (x ∷ xs) ys = ap (λ zs. x ∷ zs) (take-append xs ys)

  drop-append : (xs ys : List A) → drop (length xs) (xs ++ ys) ≡ ys
  drop-append [] ys = refl
  drop-append (x ∷ xs) ys = drop-append xs ys

module _ {D : Type 0} where
  nulled-replicate : (n : ℕ) → nulled (replicate {A = DataValue D} n null) ≡ replicate n null
  nulled-replicate zero = refl
  nulled-replicate (suc n) = ap (λ zs. null ∷ zs) (nulled-replicate n)

  -- Both rows, one behind the other.
  abbrev pub combine : Tuple D → Tuple D → Tuple D
  combine left right = record { pk = or left.pk right.pk; values = left.values ++ right.values }

  abbrev pub nulls : ℕ → Tuple D
  nulls n = record { pk = none; values = replicate n null }

  abbrev pub HasColumns : Tuple D → Type 0
  HasColumns row = 0 < length row.values

  -- The row of a match.
  abbrev pub matched_row : JoinType → Tuple D → Tuple D → Option (Tuple D)
  matched_row JoinType.left_anti left right = none
  matched_row JoinType.left_semi left right =
      some (record { pk = or left.pk right.pk; values = left.values })
  matched_row JoinType.right_outer left right = some (combine right left)
  matched_row ty left right = some (combine left right)

  -- What a join yields for a row of the outer table with its matches in the inner one, whose rows
  -- have `n` columns.
  abbrev pub outer_rows : JoinType → ℕ → Tuple D → List (Tuple D) → List (Tuple D)
  outer_rows JoinType.inner n left matches = map (combine left) matches
  outer_rows JoinType.cross n left matches = map (combine left) matches
  outer_rows JoinType.left_outer n left [] = combine left (nulls n) ∷ []
  outer_rows JoinType.left_outer n left (r ∷ rs) = map (combine left) (r ∷ rs)
  outer_rows JoinType.full n left [] = combine left (nulls n) ∷ []
  outer_rows JoinType.full n left (r ∷ rs) = map (combine left) (r ∷ rs)
  outer_rows JoinType.right_outer n left [] = combine (nulls n) left ∷ []
  outer_rows JoinType.right_outer n left (r ∷ rs) = map (λ right. combine right left) (r ∷ rs)
  outer_rows JoinType.left_semi n left [] = []
  outer_rows JoinType.left_semi n left (r ∷ rs) =
      record { pk = or left.pk r.pk; values = left.values } ∷ []
  outer_rows JoinType.left_anti n left [] = left ∷ []
  outer_rows JoinType.left_anti n left (r ∷ rs) = []

  non_empty_lem :
      (pk : Option (DataValue D)) (vs : List (DataValue D))
      → 0 < length vs
      → non_empty pk vs ≡ some (record { pk = pk; values = vs })
  unfolding non_empty
  non_empty_lem pk [] h = absurd (omega arith)
  non_empty_lem pk (v ∷ vs) h = refl

  both_some :
      (left right : Tuple D)
      → 0 < length left.values + length right.values
      → non_empty (or left.pk right.pk) (left.values ++ right.values) ≡ some (combine left right)
  both_some left right h =
      non_empty_lem (or left.pk right.pk) (left.values ++ right.values)
        (omega (arith, length-append left.values right.values))

  left_some :
      (left right : Tuple D)
      → HasColumns left
      → non_empty (or left.pk right.pk) (take (length left.values) (left.values ++ right.values))
        ≡ some (record { pk = or left.pk right.pk; values = left.values })
  left_some left right h =
      rw (take-append left.values right.values) (non_empty_lem (or left.pk right.pk) left.values h)

  pub emit_match_lem :
      (ty : JoinType) (left right : Tuple D)
      → HasColumns left
      → emit_match left right ty ≡ matched_row ty left right
  unfolding emit_match emit_tuple emit_values
  emit_match_lem JoinType.inner left right h = both_some left right (omega arith)
  emit_match_lem JoinType.cross left right h = both_some left right (omega arith)
  emit_match_lem JoinType.left_outer left right h = both_some left right (omega arith)
  emit_match_lem JoinType.full left right h = both_some left right (omega arith)
  emit_match_lem JoinType.right_outer left right h = both_some right left (omega arith)
  emit_match_lem JoinType.left_semi left right h = left_some left right h
  emit_match_lem JoinType.left_anti left right h = refl

  -- The left row, and nulls for the right one.
  null_right :
      (left : Tuple D) (n : ℕ)
      → take (length left.values) (left.values ++ replicate n null)
          ++ nulled (drop (length left.values) (left.values ++ replicate n null))
        ≡ left.values ++ replicate n null
  null_right left n =
      rw
        (
          take-append left.values (replicate n null),
          drop-append left.values (replicate n null),
          nulled-replicate n,
        )
        refl

  null_left :
      (left : Tuple D) (n : ℕ)
      → nulled
            (take (length (replicate {A = DataValue D} n null)) (replicate n null ++ left.values))
          ++ drop (length (replicate {A = DataValue D} n null)) (replicate n null ++ left.values)
        ≡ replicate n null ++ left.values
  null_left left n =
      rw
        (
          take-append (replicate n null) left.values,
          drop-append (replicate n null) left.values,
          nulled-replicate n,
        )
        refl

  pub emit_unmatched_lem :
      (ty : JoinType) (n : ℕ) (left : Tuple D)
      → HasColumns left
      → to_list (emit_unmatched n left ty false) ≡ outer_rows ty n left []
  unfolding emit_unmatched emit_tuple emit_values
  emit_unmatched_lem JoinType.inner n left h = refl
  emit_unmatched_lem JoinType.cross n left h = refl
  emit_unmatched_lem JoinType.left_outer n left h =
      rw (null_right left n) (ap to_list (both_some left (nulls n) (omega arith)))
  emit_unmatched_lem JoinType.full n left h =
      rw (null_right left n) (ap to_list (both_some left (nulls n) (omega arith)))
  emit_unmatched_lem JoinType.right_outer n left h =
      rw (null_left left n) (ap to_list (both_some (nulls n) left (omega arith)))
  emit_unmatched_lem JoinType.left_semi n left h = refl
  emit_unmatched_lem JoinType.left_anti n left h = refl
