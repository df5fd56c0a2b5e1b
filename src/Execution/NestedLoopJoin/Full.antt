-- ===== src/Execution/NestedLoopJoin/Full.antt =====
-- The full join of src/execution/dql/join/nested_loop_join.rs: which right rows its bitmap leaves.
use kite_sql.Prelude.{
  ℕ, suc, ◌+◌, ◌≤◌, ◌<◌, ◌≡◌, refl, sym, ap, ◌∙◌, inl, inr, Bool, true, false, not, Bool-cases,
  ◌==◌, if◌then◌else◌, Option, none, some, List, [], ◌∷◌, ◌++◌, map, length, replicate, Result, ok,
  panic, arith,
}
use mathlib.Core.List.{append-nil, append_assoc}
use kite_sql.Types.Value.{Foreign, DataValue, null}
use kite_sql.Types.Tuple.{Tuple}
use kite_sql.Execution.NestedLoopJoin.{
  JoinType, BitSet, EqualCondition, Matches, Yields, mark, make_bitmap, outer_loop, insert_all,
  unmatched_loop, finish, execute,
}
use kite_sql.Execution.NestedLoopJoin.Loops.{
  kept, successes, index_after, mark_all, wide_loop, wide_rows, matched-some_kept,
}
use kite_sql.Execution.NestedLoopJoin.Joined.{
  join_rows, AllDecided, outer_loop-cons, outer_loop-nil,
}
use kite_sql.Execution.NestedLoopJoin.Indexes.{
  member, AllBelow, indexes, any_hit, matched_by, any_hit_here, any_hit_later, indexes-AllBelow,
}

-- What fixedbitset documents of `FixedBitSet`.
pub record IsBitSet (bits : BitSet) : Type 0 where
  pub capacity : bits.Bits → ℕ
  pub capacity-with_capacity : (n : ℕ) → capacity (bits.with_capacity n) ≡ n
  pub contains-with_capacity : (n i : ℕ) → bits.contains (bits.with_capacity n) i ≡ false
  pub insert_lem :
      (b : bits.Bits) (i : ℕ)
      → i < capacity b
      → (b' : bits.Bits) × (bits.insert b i ≡ ok b')
        × (capacity b' ≡ capacity b)
        × ((j : ℕ) → bits.contains b' j ≡ (if i == j then true else bits.contains b j))

-- A right row without a match, behind nulls.
abbrev pub padded : {D : Type 0} → ℕ → Tuple D → Tuple D
padded n right = record { pk = right.pk; values = replicate n null ++ right.values }

module _ (f : Foreign) {Expr Column : Type 0}
    (eval : Expr → Tuple f.Decimal → List Column → Result (DataValue f.Decimal)) (bits : BitSet)
    (filter : Option Expr) (eq_cond : EqualCondition Expr Column)
    (output_schema_ref : List Column) where
  abbrev pub full_join :
      List (Result (Tuple f.Decimal))
      → List (Result (Tuple f.Decimal))
      → Yields (Tuple f.Decimal) (Unit {0})
  full_join left_input right_input = execute f eval bits (record {
    left_input = left_input;
    right_input = right_input;
    output_schema_ref = output_schema_ref;
    ty = JoinType.full;
    filter = filter;
    eq_cond = eq_cond;
  })

  -- With an empty left input and a right row, the full join panics: the bitmap was never made.
  pub execute-full_empty :
      (r : Result (Tuple f.Decimal)) (rs : List (Result (Tuple f.Decimal)))
      → full_join [] (r ∷ rs) ≡ ([], panic)
  unfolding execute finish outer_loop insert_all unmatched_loop
  execute-full_empty r rs = refl

module _ (f : Foreign) {Expr Column : Type 0}
    (eval : Expr → Tuple f.Decimal → List Column → Result (DataValue f.Decimal)) (bits : BitSet)
    (laws : IsBitSet bits) (filter : Option Expr) (eq_cond : EqualCondition Expr Column)
    (output_schema_ref : List Column) (matches : Tuple f.Decimal → Tuple f.Decimal → Bool) where
  open bits use {Bits, with_capacity, contains}
  open laws use {capacity, insert_lem}

  abbrev Row : Type 0
  Row = Tuple f.Decimal

  abbrev Marked : Option Bits → List ℕ → Matches Bits
  Marked bitmap fm = record { bitmap = bitmap; first_matches = fm }

  -- A bitmap that a set of indexes was put into.
  abbrev Grown : Bits → (ℕ → Bool) → Bits → Type 0
  Grown b set b' =
      (capacity b' ≡ capacity b)
      × ((j : ℕ) → contains b' j ≡ (if set j then true else contains b j))

  -- Without a bitmap, the indexes of the first left row's matches are kept in a list.
  mark_all_first :
      (left : Row) (rs : List Row) (i : ℕ) (fm : List ℕ)
      → mark_all f eval bits JoinType.full filter eq_cond output_schema_ref matches left rs i
          (Marked none fm)
        ≡ ok (Marked none (fm ++ indexes matches left rs i))
  unfolding mark
  mark_all_first left [] i fm = ap (λ is. ok (Marked none is)) (sym (append-nil fm))
  mark_all_first left (r ∷ rs) i fm = elim (Bool-cases (matches left r)) [
    | inl e ↦ rw e (
        mark_all_first left rs (suc i) (fm ++ i ∷ [])
        ∙ ap (λ is. ok (Marked none is))
            (append_assoc fm (i ∷ []) (indexes matches left rs (suc i))))
    | inr e ↦ rw e (mark_all_first left rs (suc i) fm)
  ]

  -- With one, they are put into it.
  mark_all_later :
      (left : Row) (rs : List Row) (i : ℕ) (b : Bits) (fm : List ℕ)
      → i + length rs ≤ capacity b
      → (b' : Bits) × (mark_all f eval bits JoinType.full filter eq_cond output_schema_ref matches
            left rs i
            (Marked (some b) fm)
          ≡ ok (Marked (some b') fm))
        × Grown b (λ j. member j (indexes matches left rs i)) b'
  unfolding mark
  mark_all_later left [] i b fm h = (b, refl, (refl, λ j. refl))
  mark_all_later left (r ∷ rs) i b fm h = elim (Bool-cases (matches left r)) [
    | inl e ↦
        let (b1, inserted, size, holds) = insert_lem b i (omega arith) in
        let (b2, later, (size2, holds2)) =
          mark_all_later left rs (suc i) b1 fm (omega (arith, size)) in
        (
          b2,
          rw (e, inserted) later,
          (size2 ∙ size, λ j. rw e (let x = holds j in let y = holds2 j in ground (arith, x, y))),
        )
    | inr e ↦
        let (b2, later, (size2, holds2)) = mark_all_later left rs (suc i) b fm (omega arith) in
        (b2, rw e later, (size2, λ j. rw e (holds2 j)))
  ]

  insert_all_lem :
      (is : List ℕ) (b : Bits)
      → AllBelow (capacity b) is
      → (b' : Bits) × (insert_all f eval bits is (some b) ≡ ok (some b'))
        × Grown b (λ j. member j is) b'
  unfolding insert_all
  insert_all_lem [] b h = (b, refl, (refl, λ j. refl))
  insert_all_lem (i ∷ is) b (h, hs) =
      let (b1, inserted, size, holds) = insert_lem b i h in
      let (b2, later, (size2, holds2)) = insert_all_lem is b1 (rw (← size) at hs) in
      (
        b2,
        rw inserted later,
        (size2 ∙ size, λ j. let x = holds j in let y = holds2 j in ground (arith, x, y)),
      )

  -- The bitmap holds the right rows that the left rows match.
  abbrev Agrees : List Row → List Row → ℕ → Bits → Type 0
  Agrees ls [] i b = Unit
  Agrees ls (r ∷ rs) i b = (contains b i ≡ matched_by matches ls r) × Agrees ls rs (suc i) b

  any_hit-Agrees :
      (ls rs : List Row) (i : ℕ) (b : Bits)
      → ((j : ℕ) → i ≤ j → contains b j ≡ any_hit matches ls rs i j)
      → Agrees ls rs i b
  any_hit-Agrees ls [] i b h = tt
  any_hit-Agrees ls (r ∷ rs) i b h = (
    h i (omega arith) ∙ any_hit_here matches ls r rs i,
    any_hit-Agrees ls rs (suc i) b
        (λ j le. h j (omega (arith, le)) ∙ any_hit_later matches ls r rs i j (omega (arith, le))),
  )

  unmatched_loop_lem :
      (n : ℕ) (ls rs : List Row) (i : ℕ) (b : Bits)
      → Agrees ls rs i b
      → unmatched_loop f eval bits n (successes rs) i (some b)
        ≡ (map (padded n) (kept (λ r. not (matched_by matches ls r)) rs), ok tt)
  unfolding unmatched_loop
  unmatched_loop_lem n ls [] i b h = refl
  unmatched_loop_lem n ls (r ∷ rs) i b (here, later) =
      let rest = unmatched_loop_lem n ls rs (suc i) b later in
      elim (Bool-cases (matched_by matches ls r)) [
        | inl e ↦ rw (here, e, rest) refl
        | inr e ↦ rw (here, e, rest) refl
      ]

  -- The left rows behind the first one.
  later_rows :
      (ls rs : List Row) (b : Bits) (fm : List ℕ)
      → capacity b ≡ length rs
      → AllDecided f eval bits JoinType.full filter eq_cond output_schema_ref matches ls rs
      → (b' : Bits) × (outer_loop f eval bits JoinType.full filter eq_cond output_schema_ref
            (successes ls)
            (successes rs)
            (Marked (some b) fm)
          ≡ (
            join_rows JoinType.full (length eq_cond.right_schema) matches ls rs,
            ok (Marked (some b') fm),
          ))
        × Grown b (λ j. any_hit matches ls rs 0 j) b'
  unfolding make_bitmap
  later_rows [] rs b fm size decided = (
    b,
    outer_loop-nil f eval bits JoinType.full filter eq_cond output_schema_ref matches (successes rs)
        (Marked (some b) fm),
    (refl, λ j. refl),
  )
  later_rows (l ∷ ls) rs b fm size (h, here, later) =
      let (b1, marked, (size1, holds1)) = mark_all_later l rs 0 b fm (omega (arith, size)) in
      let looped =
        wide_loop f eval bits JoinType.full filter eq_cond output_schema_ref matches refl l rs false
          0 (Marked (some b) fm) (Marked (some b1) fm) h here marked in
      let step =
        outer_loop-cons f eval bits JoinType.full filter eq_cond output_schema_ref matches l
          (successes ls) (successes rs) (Marked (some b) fm) (Marked (some b1) fm) _ _ _ looped in
      let out =
        wide_rows f eval bits JoinType.full filter eq_cond output_schema_ref matches
          (length eq_cond.right_schema) l (kept (matches l) rs) refl h in
      let flag =
        matched-some_kept f eval bits JoinType.full filter eq_cond output_schema_ref matches l rs in
      let (b2, rest, (size2, holds2)) = later_rows ls rs b1 fm (size1 ∙ size) later in
      (
        b2,
        step ∙ rw (flag, out, rest) refl,
        (size2 ∙ size1, λ j. let x = holds1 j in let y = holds2 j in ground (arith, x, y)),
      )

  index_after-length :
      (rs : List Row) (i : ℕ)
      → index_after f eval bits JoinType.full filter eq_cond output_schema_ref matches i rs
        ≡ i + length rs
  index_after-length [] i = omega arith
  index_after-length (r ∷ rs) i = omega (arith, index_after-length rs (suc i))

  first_row :
      (l : Row) (ls rs : List Row)
      → AllDecided f eval bits JoinType.full filter eq_cond output_schema_ref matches (l ∷ ls) rs
      → (b : Bits) × (outer_loop f eval bits JoinType.full filter eq_cond output_schema_ref
            (successes (l ∷ ls))
            (successes rs)
            (Marked none [])
          ≡ (
            join_rows JoinType.full (length eq_cond.right_schema) matches (l ∷ ls) rs,
            ok (Marked (some b) (indexes matches l rs 0)),
          ))
        × (capacity b ≡ length rs)
        × ((j : ℕ) → contains b j ≡ any_hit matches ls rs 0 j)
  unfolding make_bitmap
  first_row l ls rs (h, here, later) =
      let fm = indexes matches l rs 0 in
      let looped =
        wide_loop f eval bits JoinType.full filter eq_cond output_schema_ref matches refl l rs false
          0 (Marked none []) (Marked none fm) h here (mark_all_first l rs 0 []) in
      let step =
        outer_loop-cons f eval bits JoinType.full filter eq_cond output_schema_ref matches l
          (successes ls) (successes rs) (Marked none []) (Marked none fm) _ _ _ looped in
      let out =
        wide_rows f eval bits JoinType.full filter eq_cond output_schema_ref matches
          (length eq_cond.right_schema) l (kept (matches l) rs) refl h in
      let flag =
        matched-some_kept f eval bits JoinType.full filter eq_cond output_schema_ref matches l rs in
      let n : ℕ =
        index_after f eval bits JoinType.full filter eq_cond output_schema_ref matches 0 rs in
      let size = laws.capacity-with_capacity n ∙ omega (arith, index_after-length rs 0) in
      let (b, rest, (size1, holds)) = later_rows ls rs (with_capacity n) fm size later in
      (
        b,
        step ∙ rw (flag, out, rest) refl,
        size1 ∙ size,
        λ j. let x = holds j in let y = laws.contains-with_capacity n j in ground (arith, x, y),
      )

  -- On inputs without errors, with a bit set that works, at least one left row, every left row having a
  -- column and the condition decided on every pair: the full join ends without an error and yields,
  -- behind the rows of the left outer join, exactly the right rows that no left row matches, in
  -- order. In front of those it puts as many nulls as the right input has columns, not the left.
  pub execute-full :
      (l : Row) (ls rs : List Row)
      → AllDecided f eval bits JoinType.full filter eq_cond output_schema_ref matches (l ∷ ls) rs
      → full_join f eval bits filter eq_cond output_schema_ref (successes (l ∷ ls)) (successes rs)
        ≡ (
          join_rows JoinType.full (length eq_cond.right_schema) matches (l ∷ ls) rs
              ++ map
                  (padded (length eq_cond.right_schema))
                  (kept (λ r. not (matched_by matches (l ∷ ls) r)) rs),
          ok tt,
        )
  unfolding execute finish
  execute-full l ls rs decided =
      let (b, looped, size, holds) = first_row l ls rs decided in
      let (b', inserted, (size', holds')) =
        insert_all_lem (indexes matches l rs 0) b
          (rw (size) (indexes-AllBelow matches l rs 0 (length rs) (omega arith))) in
      let agrees =
        any_hit-Agrees (l ∷ ls) rs 0 b'
          (λ (j : ℕ) (le : 0 ≤ j). let x = holds j in let y = holds' j in ground (arith, x, y)) in
      let rest = unmatched_loop_lem (length eq_cond.right_schema) (l ∷ ls) rs 0 b' agrees in
      rw (looped, inserted, rest) refl
