-- ===== src/Execution/NestedLoopJoin/Joined.antt =====
-- All that `execute` of src/execution/dql/join/nested_loop_join.rs yields, for every join type but the
-- full join.
use kite_sql.Prelude.{
  ℕ, suc, ◌≡◌, refl, sym, ap, ◌∙◌, ◌⊎◌, inl, inr, Bool, true, false, Bool-cases, Option, none, List,
  [], ◌∷◌, ◌++◌, length, Result, ok,
}
use mathlib.Core.List.{append-nil, append_assoc}
use kite_sql.Types.Value.{Foreign, DataValue}
use kite_sql.Types.Tuple.{Tuple}
use kite_sql.Execution.NestedLoopJoin.{
  JoinType, BitSet, EqualCondition, Matches, Yields, emit_unmatched, to_list, mark, make_bitmap,
  inner_loop, outer_loop, finish, execute, is_full,
}
use kite_sql.Execution.NestedLoopJoin.Emit.{HasColumns, outer_rows}
use kite_sql.Execution.NestedLoopJoin.Loops.{
  kept, successes, is_wide, Decided, mark_all, LeftRow, LeftRow-wide, semi_loop, anti_loop,
}

-- The rows for each outer row in turn.
abbrev pub join_rows :
    {D : Type 0}
    → JoinType
    → ℕ
    → (Tuple D → Tuple D → Bool)
    → List (Tuple D)
    → List (Tuple D)
    → List (Tuple D)
join_rows ty n matches [] rights = []
join_rows ty n matches (l ∷ ls) rights =
    outer_rows ty n l (kept (matches l) rights) ++ join_rows ty n matches ls rights

regroup :
    {A S : Type 0} (xs ys zs : List A) (r : Result S)
    → ◌≡◌ {A = Yields A S} (xs ++ (ys ++ zs), r) ((xs ++ ys) ++ zs, r)
regroup xs ys zs r = ap (λ ws. (ws, r)) (sym (append_assoc xs ys zs))

JoinType-cases :
    (t : JoinType) → (is_wide t ≡ true) ⊎ ((t ≡ JoinType.left_semi) ⊎ (t ≡ JoinType.left_anti))
JoinType-cases JoinType.left_semi = inr (inl refl)
JoinType-cases JoinType.left_anti = inr (inr refl)
JoinType-cases JoinType.inner = inl refl
JoinType-cases JoinType.cross = inl refl
JoinType-cases JoinType.full = inl refl
JoinType-cases JoinType.left_outer = inl refl
JoinType-cases JoinType.right_outer = inl refl

module _ (f : Foreign) {Expr Column : Type 0}
    (eval : Expr → Tuple f.Decimal → List Column → Result (DataValue f.Decimal)) (bits : BitSet)
    (ty : JoinType) (filter : Option Expr) (eq_cond : EqualCondition Expr Column)
    (output_schema_ref : List Column) (matches : Tuple f.Decimal → Tuple f.Decimal → Bool) where
  -- The left rows have columns, and the condition can be decided on all pairs.
  abbrev pub AllDecided : List (Tuple f.Decimal) → List (Tuple f.Decimal) → Type 0
  AllDecided [] rs = Unit
  AllDecided (l ∷ ls) rs =
      HasColumns l
      × Decided f eval bits ty filter eq_cond output_schema_ref matches l rs
      × AllDecided ls rs

  -- One round of the loop over the left rows.
  pub outer_loop-cons :
      (left : Tuple f.Decimal) (xs rights : List (Result (Tuple f.Decimal)))
      (m m' : Matches bits.Bits) (rows : List (Tuple f.Decimal)) (has_matched : Bool) (last : ℕ)
      → inner_loop f eval bits ty filter eq_cond output_schema_ref left rights false 0 m
        ≡ (rows, ok (has_matched, last, m'))
      → let rest =
          outer_loop f eval bits ty filter eq_cond output_schema_ref xs rights
            (make_bitmap f eval bits ty last m') in
        outer_loop f eval bits ty filter eq_cond output_schema_ref (ok left ∷ xs) rights m ≡ (
          (rows ++ to_list (emit_unmatched (length eq_cond.right_schema) left ty has_matched))
              ++ rest.0,
          rest.1,
        )
  unfolding outer_loop
  outer_loop-cons left xs rights m m' rows has_matched last e = rw e (
      regroup rows (to_list (emit_unmatched (length eq_cond.right_schema) left ty has_matched)) _ _)

  pub outer_loop-nil :
      (rights : List (Result (Tuple f.Decimal))) (m : Matches bits.Bits)
      → outer_loop f eval bits ty filter eq_cond output_schema_ref [] rights m ≡ ([], ok m)
  unfolding outer_loop
  outer_loop-nil rights m = refl

  -- Without a bitmap no other join marks anything.
  mark_plain :
      (t : JoinType) (i : ℕ) (fm : List ℕ)
      → is_full t ≡ false
      → mark f eval bits t i none fm ≡ ok (record { bitmap = none; first_matches = fm })
  unfolding mark
  mark_plain JoinType.full i fm h = absurd (cc)
  mark_plain JoinType.inner i fm h = refl
  mark_plain JoinType.cross i fm h = refl
  mark_plain JoinType.left_outer i fm h = refl
  mark_plain JoinType.left_semi i fm h = refl
  mark_plain JoinType.left_anti i fm h = refl
  mark_plain JoinType.right_outer i fm h = refl

  abbrev Unmarked : List ℕ → Matches bits.Bits
  Unmarked fm = record { bitmap = none; first_matches = fm }

  mark_all_plain :
      (left : Tuple f.Decimal) (rs : List (Tuple f.Decimal)) (i : ℕ) (fm : List ℕ)
      → is_full ty ≡ false
      → mark_all f eval bits ty filter eq_cond output_schema_ref matches left rs i (Unmarked fm)
        ≡ ok (Unmarked fm)
  mark_all_plain left [] i fm h = refl
  mark_all_plain left (r ∷ rs) i fm h =
      let later = mark_all_plain left rs (suc i) fm h in
      let here = mark_plain ty i fm h in
      elim (Bool-cases (matches left r)) [ inl e ↦ rw (e, here) later | inr e ↦ rw e later ]

  make_bitmap_plain :
      (t : JoinType) (n : ℕ) (m : Matches bits.Bits)
      → is_full t ≡ false
      → make_bitmap f eval bits t n m ≡ m
  unfolding make_bitmap
  make_bitmap_plain JoinType.full n m h = absurd (cc)
  make_bitmap_plain JoinType.inner n m h = refl
  make_bitmap_plain JoinType.cross n m h = refl
  make_bitmap_plain JoinType.left_outer n m h = refl
  make_bitmap_plain JoinType.left_semi n m h = refl
  make_bitmap_plain JoinType.left_anti n m h = refl
  make_bitmap_plain JoinType.right_outer n m h = refl

  left_row :
      (left : Tuple f.Decimal) (rs : List (Tuple f.Decimal)) (fm : List ℕ)
      → is_full ty ≡ false
      → HasColumns left
      → Decided f eval bits ty filter eq_cond output_schema_ref matches left rs
      → LeftRow f eval bits ty filter eq_cond output_schema_ref matches left rs
          (Unmarked fm)
          (Unmarked fm)
  left_row left rs fm plain h decided = elim (JoinType-cases ty) [
    | inl wide ↦
        LeftRow-wide f eval bits ty filter eq_cond output_schema_ref matches wide left rs
          (Unmarked fm) (Unmarked fm) h decided (mark_all_plain left rs 0 fm plain)
    | inr (inl semi) ↦
        semi_loop f eval bits ty filter eq_cond output_schema_ref matches left rs 0 (Unmarked fm)
          semi h decided
    | inr (inr anti) ↦
        anti_loop f eval bits ty filter eq_cond output_schema_ref matches left rs 0 (Unmarked fm)
          anti h decided
  ]

  outer_loop_lem :
      (ls rs : List (Tuple f.Decimal)) (fm : List ℕ)
      → is_full ty ≡ false
      → AllDecided ls rs
      → outer_loop f eval bits ty filter eq_cond output_schema_ref
          (successes ls)
          (successes rs)
          (Unmarked fm)
        ≡ (join_rows ty (length eq_cond.right_schema) matches ls rs, ok (Unmarked fm))
  outer_loop_lem [] rs fm plain decided = outer_loop-nil (successes rs) (Unmarked fm)
  outer_loop_lem (l ∷ ls) rs fm plain (h, here, later) =
      let (rows, has_matched, last, e, out) = left_row l rs fm plain h here in
      let step =
        outer_loop-cons l (successes ls) (successes rs) (Unmarked fm) (Unmarked fm) rows has_matched
          last e in
      step
      ∙ rw
          (
            make_bitmap_plain ty last (Unmarked fm) plain,
            outer_loop_lem ls rs fm plain later,
            out (length eq_cond.right_schema),
          )
          refl

  finish_plain :
      (t : JoinType) (n : ℕ) (rights : List (Result (Tuple f.Decimal))) (m : Matches bits.Bits)
      → is_full t ≡ false
      → finish f eval bits t n rights m ≡ ([], ok tt)
  unfolding finish
  finish_plain JoinType.full n rights m h = absurd (cc)
  finish_plain JoinType.inner n rights m h = refl
  finish_plain JoinType.cross n rights m h = refl
  finish_plain JoinType.left_outer n rights m h = refl
  finish_plain JoinType.left_semi n rights m h = refl
  finish_plain JoinType.left_anti n rights m h = refl
  finish_plain JoinType.right_outer n rights m h = refl

  -- On inputs without errors, for every join type but the full join, where every left row has a column
  -- and the condition (the keys agree and the filter is true) can be decided on every pair: the join
  -- ends without an error, and yields for each left row in turn a row for each of its matches, and
  -- where there is none the left row with nulls for an outer join, with the sides swapped back for a
  -- right one; a semi join yields the left rows with a match, once, an anti join those without one.
  pub execute-join_rows :
      (ls rs : List (Tuple f.Decimal))
      → is_full ty ≡ false
      → AllDecided ls rs
      → execute f eval bits (record {
        left_input = successes ls;
        right_input = successes rs;
        output_schema_ref = output_schema_ref;
        ty = ty;
        filter = filter;
        eq_cond = eq_cond;
      })
        ≡ (join_rows ty (length eq_cond.right_schema) matches ls rs, ok tt)
  unfolding execute
  execute-join_rows ls rs plain decided =
      rw
        (
          outer_loop_lem ls rs [] plain decided,
          finish_plain ty (length eq_cond.right_schema) (successes rs) (Unmarked []) plain,
        )
        (ap (λ rows. (rows, ok tt)) (append-nil _))
