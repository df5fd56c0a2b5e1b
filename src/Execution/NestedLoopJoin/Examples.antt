-- ===== src/Execution/NestedLoopJoin/Examples.antt =====
-- Joins of small inputs, with an expression that is a column's index and a bit set that is a list.
use kite_sql.Prelude.Int.{pos, compare_ℤ}
use kite_sql.Prelude.{
  ℕ, ◌≡◌, refl, Bool, true, false, not, ◌==◌, ltb, lt→ltb, if◌then◌else◌, none, some, List, [], ◌∷◌,
  ◌++◌, map, get_elem?, Result, ok, err, panic, DatabaseError, arith,
}
use kite_sql.Types.Value.{DataValue, int32, null, eq}
use kite_sql.Types.Tuple.{Tuple}
use kite_sql.Types.Examples.{two_decimals}
use kite_sql.Execution.NestedLoopJoin.{
  JoinType, BitSet, EqualCondition, projection, equals, equals_on, emit_values, non_empty,
  emit_tuple, emit_match, emit_unmatched, match_pair, match_equal, mark, make_bitmap, inner_loop,
  outer_loop, insert_all, unmatched_loop, finish, execute,
}
use kite_sql.Execution.NestedLoopJoin.Loops.{successes, kept}
use kite_sql.Execution.NestedLoopJoin.Joined.{join_rows, execute-join_rows}
use kite_sql.Execution.NestedLoopJoin.Indexes.{matched_by}
use kite_sql.Execution.NestedLoopJoin.Full.{
  IsBitSet, padded, full_join, execute-full, execute-full_empty,
}

abbrev V : Type 0
V = DataValue Bool

abbrev Row : Type 0
Row = Tuple Bool

abbrev column_at : ℕ → Row → List ℕ → Result V
column_at i row schema = elim (get_elem? row.values i) [
  | none ↦ err DatabaseError.invalid_column
  | some v ↦ ok v
]

abbrev held : ℕ → List ℕ → Bool
held j [] = false
held j (i ∷ is) = if i == j then true else held j is

abbrev listed_bits : BitSet
listed_bits = record {
  Bits = ℕ × List ℕ;
  with_capacity = λ n. (n, []);
  insert = λ b i. if ltb i (b.0) then ok (b.0, i ∷ b.1) else panic;
  contains = λ b j. held j (b.1);
}

listed_bits-IsBitSet : IsBitSet listed_bits
listed_bits-IsBitSet = record {
  capacity = λ b. b.0;
  capacity-with_capacity = λ n. refl;
  contains-with_capacity = λ n i. refl;
  insert_lem = λ b i h. ((b.0, i ∷ b.1), rw (lt→ltb i (b.0) h) refl, refl, λ j. refl);
}

abbrev row : ℕ → ℕ → Row
row a b = record { pk = none; values = int32 (pos a) ∷ int32 (pos b) ∷ [] }

abbrev single : ℕ → Row
single a = record { pk = none; values = int32 (pos a) ∷ [] }

-- The first columns are equal; the right rows have one column.
abbrev first_equal : EqualCondition ℕ ℕ
first_equal = record {
  on_left_keys = 0 ∷ [];
  on_right_keys = 0 ∷ [];
  left_schema = 0 ∷ 1 ∷ [];
  right_schema = 0 ∷ [];
}

abbrev lefts : List Row
lefts = row 1 10 ∷ row 2 20 ∷ []

abbrev rights : List Row
rights = single 2 ∷ single 9 ∷ []

abbrev agree : Row → Row → Bool
agree left right = elim (get_elem? left.values 0) [
  | none ↦ false
  | some a ↦ elim (get_elem? right.values 0) [ none ↦ false | some b ↦ eq two_decimals a b ]
]

outer_joined :
    execute two_decimals column_at listed_bits (record {
      left_input = successes lefts;
      right_input = successes rights;
      output_schema_ref = [];
      ty = JoinType.left_outer;
      filter = none;
      eq_cond = first_equal;
    })
    ≡ (
      record { pk = none; values = int32 (pos 1) ∷ int32 (pos 10) ∷ null ∷ [] }
          ∷ record { pk = none; values = int32 (pos 2) ∷ int32 (pos 20) ∷ int32 (pos 2) ∷ [] }
          ∷ [],
      ok tt,
    )
unfolding execute outer_loop finish inner_loop match_pair match_equal equals equals_on projection eq
    compare_ℤ emit_match emit_unmatched emit_tuple emit_values non_empty mark make_bitmap
outer_joined = refl

-- The unmatched right row has one null in front of it, where the left rows have two columns.
full_joined :
    full_join two_decimals column_at listed_bits none first_equal []
      (successes lefts)
      (successes rights)
    ≡ (
      record { pk = none; values = int32 (pos 1) ∷ int32 (pos 10) ∷ null ∷ [] }
          ∷ record { pk = none; values = int32 (pos 2) ∷ int32 (pos 20) ∷ int32 (pos 2) ∷ [] }
          ∷ record { pk = none; values = null ∷ int32 (pos 9) ∷ [] }
          ∷ [],
      ok tt,
    )
unfolding execute outer_loop finish inner_loop match_pair match_equal equals equals_on projection eq
    compare_ℤ emit_match emit_unmatched emit_tuple emit_values non_empty mark make_bitmap insert_all
    unmatched_loop
full_joined = refl

execute-join_rows_example :
    execute two_decimals column_at listed_bits (record {
      left_input = successes lefts;
      right_input = successes rights;
      output_schema_ref = [];
      ty = JoinType.left_semi;
      filter = none;
      eq_cond = first_equal;
    })
    ≡ (join_rows JoinType.left_semi 1 agree lefts rights, ok tt)
unfolding equals equals_on projection eq compare_ℤ
execute-join_rows_example =
    execute-join_rows two_decimals column_at listed_bits JoinType.left_semi none first_equal []
      agree lefts rights refl
      (omega arith, (refl, (refl, tt)), (omega arith, (refl, (refl, tt)), tt))

execute-full_example :
    full_join two_decimals column_at listed_bits none first_equal []
      (successes lefts)
      (successes rights)
    ≡ (
      join_rows JoinType.full 1 agree lefts rights
          ++ map (padded 1) (kept (λ r. not (matched_by agree lefts r)) rights),
      ok tt,
    )
unfolding equals equals_on projection eq compare_ℤ
execute-full_example =
    execute-full two_decimals column_at listed_bits listed_bits-IsBitSet none first_equal [] agree
      (row 1 10) (row 2 20 ∷ []) rights
      (omega arith, (refl, (refl, tt)), (omega arith, (refl, (refl, tt)), tt))

execute-full_empty_example :
    full_join two_decimals column_at listed_bits none first_equal [] [] (ok (single 2) ∷ [])
    ≡ ([], panic)
execute-full_empty_example =
    execute-full_empty two_decimals column_at listed_bits none first_equal [] (ok (single 2)) []
