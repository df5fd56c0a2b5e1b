-- ===== src/Execution/NestedLoopJoin/Rows.antt =====
-- What src/execution/dql/join/nested_loop_join.rs makes of a pair of rows on which the condition of
-- the join can be decided.
use kite_sql.Prelude.{
  ◌≡◌, refl, ap, Bool, true, false, if◌then◌else◌, Option, none, some, List, Result, ok, err,
  DatabaseError, ◌>>=◌,
}
use kite_sql.Types.Value.{Foreign, DataValue, null, boolean}
use kite_sql.Types.Tuple.{Tuple}
use kite_sql.Storage.TableCodec.Prefix.{>>=-ok}
use kite_sql.Execution.NestedLoopJoin.{
  JoinType, BitSet, EqualCondition, emit_filtered, merge_tuple, equals, filter_pair, match_equal,
  match_pair,
}
use kite_sql.Execution.NestedLoopJoin.Emit.{HasColumns, matched_row, emit_match_lem}

-- The value of a filter as a test; NULL does not pass.
abbrev pub truth : {D : Type 0} → DataValue D → Result Bool
truth (boolean b) = ok b
truth null = ok false
truth _ = err DatabaseError.invalid_type

module _ (f : Foreign) {Expr Column : Type 0}
    (eval : Expr → Tuple f.Decimal → List Column → Result (DataValue f.Decimal)) (bits : BitSet)
    (ty : JoinType) (filter : Option Expr) (eq_cond : EqualCondition Expr Column)
    (output_schema_ref : List Column) where
  abbrev Row : Type 0
  Row = Tuple f.Decimal

  abbrev passes : Option Expr → Row → Row → Bool → Result Bool
  passes fl left right false = ok false
  passes none left right true = ok true
  passes (some e) left right true = do
    value ← eval e (merge_tuple left right ty) output_schema_ref
    truth value

  -- The condition of the join on a pair of rows: the keys agree and the filter is true.
  abbrev pub on_condition : Row → Row → Result Bool
  on_condition left right = do
    equal ← equals f eval eq_cond left right
    passes filter left right equal

  abbrev pair_result : Row → Row → Bool → Bool → Option Row × Bool
  pair_result left right has_matched b =
      if b then (matched_row ty left right, true) else (none, has_matched)

  -- A semi join leaves the loop with its first match.
  abbrev pub FirstOnly : JoinType → Bool → Type 0
  FirstOnly JoinType.left_semi has_matched = has_matched ≡ false
  FirstOnly _ has_matched = Unit

  emit_filtered_lem :
      (t : JoinType) (left right : Row) (has_matched : Bool)
      → HasColumns left
      → FirstOnly t has_matched
      → emit_filtered left right t has_matched ≡ matched_row t left right
  unfolding emit_filtered
  emit_filtered_lem JoinType.left_anti left right m h first = refl
  emit_filtered_lem JoinType.left_semi left right true h first = absurd (cc)
  emit_filtered_lem JoinType.left_semi left right false h first =
      emit_match_lem JoinType.left_semi left right h
  emit_filtered_lem JoinType.inner left right m h first = emit_match_lem JoinType.inner left right h
  emit_filtered_lem JoinType.cross left right m h first = emit_match_lem JoinType.cross left right h
  emit_filtered_lem JoinType.full left right m h first = emit_match_lem JoinType.full left right h
  emit_filtered_lem JoinType.left_outer left right m h first =
      emit_match_lem JoinType.left_outer left right h
  emit_filtered_lem JoinType.right_outer left right m h first =
      emit_match_lem JoinType.right_outer left right h

  filter_pair_lem :
      (left right : Row) (has_matched b : Bool) (v : DataValue f.Decimal)
      → HasColumns left
      → FirstOnly ty has_matched
      → truth v ≡ ok b
      → filter_pair f eval bits ty filter eq_cond output_schema_ref left right has_matched v
        ≡ ok (pair_result left right has_matched b)
  unfolding filter_pair
  filter_pair_lem left right m true (boolean true) h first e =
      ap (λ row. ok (row, true)) (emit_filtered_lem ty left right m h first)
  filter_pair_lem left right m false (boolean true) h first e = cc
  filter_pair_lem left right m false (boolean false) h first e = refl
  filter_pair_lem left right m true (boolean false) h first e = cc
  filter_pair_lem left right m true null h first e = cc
  filter_pair_lem left right m false null h first e = refl
  filter_pair_lem left right m b v h first e = cc

  match_equal_lem :
      (fl : Option Expr) (left right : Row) (has_matched equal b : Bool)
      → HasColumns left
      → FirstOnly ty has_matched
      → passes fl left right equal ≡ ok b
      → match_equal f eval bits ty filter eq_cond output_schema_ref fl left right has_matched equal
        ≡ ok (pair_result left right has_matched b)
  unfolding match_equal
  match_equal_lem fl left right m false true h first e = cc
  match_equal_lem fl left right m false false h first e = refl
  match_equal_lem none left right m true false h first e = cc
  match_equal_lem none left right m true true h first e =
      ap (λ row. ok (row, true)) (emit_match_lem ty left right h)
  match_equal_lem (some x) left right m true b h first e =
      let (v, evaluated, passed) =
        >>=-ok (eval x (merge_tuple left right ty) output_schema_ref) truth b e in
      rw evaluated (filter_pair_lem left right m b v h first passed)

  pub match_pair_lem :
      (left right : Row) (has_matched b : Bool)
      → HasColumns left
      → FirstOnly ty has_matched
      → on_condition left right ≡ ok b
      → match_pair f eval bits ty filter eq_cond output_schema_ref left right has_matched
        ≡ ok (pair_result left right has_matched b)
  unfolding match_pair
  match_pair_lem left right m b h first e =
      let (equal, compared, passed) =
        >>=-ok (equals f eval eq_cond left right) (passes filter left right) b e in
      rw compared (match_equal_lem filter left right m equal b h first passed)
