-- ===== src/Execution/NestedLoopJoin.antt =====
-- `NestedLoopJoin` of src/execution/dql/join/nested_loop_join.rs, with `JoinType` of
-- src/planner/operator/join.rs and `joins_nullable` of src/execution/dql/join/mod.rs. An input is the
-- sequence of what its executor yields, the same whenever it is built again. The evaluation of an
-- expression and `nullable_for_join` of a column are arguments, and so is the crate fixedbitset.
pub mod Emit
pub mod Rows
pub mod Loops
pub mod Indexes
pub mod Joined
pub mod Full
pub mod Examples
use kite_sql.Prelude.{
  ℕ, suc, ◌<◌, ◌≡◌, Bool, true, false, ◌&&◌, ◌==◌, ltb, if◌then◌else◌, Option, none, some, List, [],
  ◌∷◌, ◌++◌, map, length, take, drop, replicate, Result, ok, err, panic, DatabaseError, ◌>>=◌,
}
use kite_sql.Types.Value.{Foreign, DataValue, null, boolean, eq}
use kite_sql.Types.Tuple.{Tuple}

pub data JoinType : Type 0 where
  inner : JoinType
  left_outer : JoinType
  left_semi : JoinType
  left_anti : JoinType
  right_outer : JoinType
  full : JoinType
  cross : JoinType

unfoldable pub joins_nullable : JoinType → Bool × Bool
joins_nullable JoinType.inner = (false, false)
joins_nullable JoinType.left_outer = (false, true)
joins_nullable JoinType.left_semi = (false, true)
joins_nullable JoinType.left_anti = (false, true)
joins_nullable JoinType.right_outer = (true, false)
joins_nullable JoinType.full = (true, true)
joins_nullable JoinType.cross = (true, true)

-- `FixedBitSet` of the crate fixedbitset; `insert` panics out of bounds.
pub record BitSet : Type 1 where
  pub Bits : Type 0
  pub with_capacity : ℕ → Bits
  pub insert : Bits → ℕ → Result Bits
  pub contains : Bits → ℕ → Bool

-- The expressions that two rows must agree on, and the schemas to evaluate them with.
pub record EqualCondition (Expr Column : Type 0) : Type 0 where
  pub on_left_keys : List Expr
  pub on_right_keys : List Expr
  pub left_schema : List Column
  pub right_schema : List Column

pub record NestedLoopJoin (Expr Column Row : Type 0) : Type 0 where
  pub left_input : List (Result Row)
  pub right_input : List (Result Row)
  pub output_schema_ref : List Column
  pub ty : JoinType
  pub filter : Option Expr
  pub eq_cond : EqualCondition Expr Column

module _ {Column : Type 0} (nullable_for_join : Column → Bool → Option Column) where
  abbrev join_column : Bool → Column → Column
  join_column nullable column = elim (nullable_for_join column nullable) [
    | none ↦ column
    | some joined ↦ joined
  ]

  unfoldable pub merge_schema : List Column → List Column → JoinType → List Column
  unfolding joins_nullable
  merge_schema left_schema right_schema ty =
      map (join_column (joins_nullable ty).0) left_schema
      ++ map (join_column (joins_nullable ty).1) right_schema

module _ {Expr Column : Type 0} where
  unfoldable pub new :
      List Expr → List Expr → List Column → List Column → Result (EqualCondition Expr Column)
  new [] rights left_schema right_schema = ok (record {
    on_left_keys = [];
    on_right_keys = rights;
    left_schema = left_schema;
    right_schema = right_schema;
  })
  new (e ∷ es) rights left_schema right_schema =
      if length (e ∷ es) == length rights
      then ok (record {
        on_left_keys = e ∷ es;
        on_right_keys = rights;
        left_schema = left_schema;
        right_schema = right_schema;
      })
      else panic

  module _ (nullable_for_join : Column → Bool → Option Column) where
    -- `from` on the parts of a `JoinOperator` and the inputs with their schemas; a right outer join has
    -- its inputs swapped.
    unfoldable pub from :
        {Row : Type 0}
        → JoinType
        → List (Expr × Expr)
        → Option Expr
        → List (Result Row)
        → List Column
        → List (Result Row)
        → List Column
        → Result (NestedLoopJoin Expr Column Row)
    unfolding new merge_schema
    from JoinType.right_outer on filter left_input left_schema right_input right_schema = do
      eq_cond ← new (map (λ pair. pair.1) on) (map (λ pair. pair.0) on) right_schema left_schema
      ok (record {
        left_input = right_input;
        right_input = left_input;
        output_schema_ref =
            merge_schema nullable_for_join left_schema right_schema JoinType.right_outer;
        ty = JoinType.right_outer;
        filter = filter;
        eq_cond = eq_cond;
      })
    from ty on filter left_input left_schema right_input right_schema = do
      eq_cond ← new (map (λ pair. pair.0) on) (map (λ pair. pair.1) on) left_schema right_schema
      ok (record {
        left_input = left_input;
        right_input = right_input;
        output_schema_ref = merge_schema nullable_for_join left_schema right_schema ty;
        ty = ty;
        filter = filter;
        eq_cond = eq_cond;
      })

-- What an executor yields: its rows, and what comes behind the last of them, an error or a state.
abbrev pub Yields : Type 0 → Type 0 → Type 0
Yields Row A = List Row × Result A

abbrev pub after : {Row A B : Type 0} → List Row → Result A → (A → Yields Row B) → Yields Row B
after rows (ok a) next = (rows ++ (next a).0, (next a).1)
after rows (err e) next = (rows, err e)
after rows panic next = (rows, panic)

abbrev pub or : {A : Type 0} → Option A → Option A → Option A
or none b = b
or (some a) b = some a

-- The indexes of matched rows of a full join: the bitmap, and those of the first outer row.
pub record Matches (Bits : Type 0) : Type 0 where
  pub bitmap : Option Bits
  pub first_matches : List ℕ

module _ {D : Type 0} where
  abbrev nulled : List (DataValue D) → List (DataValue D)
  nulled values = map (λ v. null) values

  -- The values that `emit_tuple` makes of both rows' values, of which `left_len` are the left row's.
  unfoldable pub emit_values : JoinType → Bool → ℕ → List (DataValue D) → List (DataValue D)
  emit_values JoinType.inner false left_len values = []
  emit_values JoinType.cross false left_len values = []
  emit_values JoinType.left_semi false left_len values = []
  emit_values JoinType.left_outer false left_len values =
      take left_len values ++ nulled (drop left_len values)
  emit_values JoinType.full false left_len values =
      take left_len values ++ nulled (drop left_len values)
  emit_values JoinType.right_outer false left_len values =
      nulled (take left_len values) ++ drop left_len values
  emit_values JoinType.left_semi true left_len values = take left_len values
  emit_values JoinType.left_anti true left_len values = []
  emit_values JoinType.left_anti false left_len values = take left_len values
  emit_values ty is_matched left_len values = values

  unfoldable pub non_empty : Option (DataValue D) → List (DataValue D) → Option (Tuple D)
  non_empty pk [] = none
  non_empty pk (v ∷ vs) = some (record { pk = pk; values = v ∷ vs })

  unfoldable pub emit_tuple : Tuple D → Tuple D → JoinType → Bool → Option (Tuple D)
  unfolding emit_values non_empty
  emit_tuple left right ty is_matched =
      non_empty (or left.pk right.pk)
        (emit_values ty is_matched (length left.values) (left.values ++ right.values))

  unfoldable pub merge_tuple : Tuple D → Tuple D → JoinType → Tuple D
  merge_tuple left right JoinType.right_outer = record {
    pk = or left.pk right.pk;
    values = right.values ++ left.values;
  }
  merge_tuple left right ty = record {
    pk = or left.pk right.pk;
    values = left.values ++ right.values;
  }

  -- A matched pair's row: a right outer join has its inputs swapped.
  unfoldable pub emit_match : Tuple D → Tuple D → JoinType → Option (Tuple D)
  unfolding emit_tuple
  emit_match left right JoinType.right_outer = emit_tuple right left JoinType.right_outer true
  emit_match left right ty = emit_tuple left right ty true

  -- The same behind the filter.
  unfoldable pub emit_filtered : Tuple D → Tuple D → JoinType → Bool → Option (Tuple D)
  unfolding emit_match
  emit_filtered left right JoinType.left_anti has_matched = none
  emit_filtered left right JoinType.left_semi true = none
  emit_filtered left right ty has_matched = emit_match left right ty

  -- `handle no matched tuple case`
  unfoldable pub emit_unmatched : ℕ → Tuple D → JoinType → Bool → Option (Tuple D)
  unfolding emit_tuple
  emit_unmatched right_schema_len left ty true = none
  emit_unmatched right_schema_len left JoinType.inner false = none
  emit_unmatched right_schema_len left JoinType.cross false = none
  emit_unmatched right_schema_len left JoinType.left_anti false = some left
  emit_unmatched right_schema_len left JoinType.right_outer false =
      emit_tuple (record { pk = none; values = replicate right_schema_len null }) left
        JoinType.right_outer false
  emit_unmatched right_schema_len left ty false =
      emit_tuple left (record { pk = none; values = replicate right_schema_len null }) ty false

abbrev pub to_list : {A : Type 0} → Option A → List A
to_list none = []
to_list (some a) = a ∷ []

abbrev is_semi : JoinType → Bool
is_semi JoinType.left_semi = true
is_semi _ = false

abbrev is_anti : JoinType → Bool
is_anti JoinType.left_anti = true
is_anti _ = false

abbrev is_full : JoinType → Bool
is_full JoinType.full = true
is_full _ = false

module _ (f : Foreign) {Expr Column : Type 0}
    (eval : Expr → Tuple f.Decimal → List Column → Result (DataValue f.Decimal)) where
  abbrev Row : Type 0
  Row = Tuple f.Decimal

  unfoldable pub projection : Row → List Expr → List Column → Result (List (DataValue f.Decimal))
  projection row [] schema = ok []
  projection row (e ∷ es) schema = do
    value ← eval e row schema
    values ← projection row es schema
    ok (value ∷ values)

  abbrev all_equal : List (DataValue f.Decimal) → List (DataValue f.Decimal) → Bool
  all_equal [] [] = true
  all_equal (a ∷ as') (b ∷ bs) = if eq f a b then all_equal as' bs else false
  all_equal _ _ = false

  unfoldable pub equals_on : EqualCondition Expr Column → List Expr → Row → Row → Result Bool
  unfolding projection
  equals_on cond [] left right = ok true
  equals_on cond (e ∷ es) left right = do
    left_values ← projection left (e ∷ es) cond.left_schema
    right_values ← projection right cond.on_right_keys cond.right_schema
    ok (all_equal left_values right_values)

  unfoldable pub equals : EqualCondition Expr Column → Row → Row → Result Bool
  unfolding equals_on
  equals cond left right = equals_on cond cond.on_left_keys left right

  module _ (bits : BitSet) where
    open bits use {Bits, with_capacity, insert, contains}

    -- `if let Some(bits) = bitmap.as_mut()`, for the row of index `right_idx` that was yielded.
    unfoldable pub mark : JoinType → ℕ → Option Bits → List ℕ → Result (Matches Bits)
    mark ty right_idx (some b) first_matches = do
      b' ← insert b right_idx
      ok (record { bitmap = some b'; first_matches = first_matches })
    mark JoinType.full right_idx none first_matches =
        ok (record { bitmap = none; first_matches = first_matches ++ right_idx ∷ [] })
    mark ty right_idx none first_matches =
        ok (record { bitmap = none; first_matches = first_matches })

    -- `if matches!(self.ty, JoinType::Full) && bitmap.is_none()`
    unfoldable pub make_bitmap : JoinType → ℕ → Matches Bits → Matches Bits
    make_bitmap JoinType.full right_idx m = elim (m.bitmap) [
      | none ↦ record m { bitmap = some (with_capacity right_idx) }
      | some b ↦ m
    ]
    make_bitmap ty right_idx m = m

    module _ (ty : JoinType) (filter : Option Expr) (eq_cond : EqualCondition Expr Column)
        (output_schema_ref : List Column) where
      -- The row of a pair, and whether the left row has matched.
      unfoldable pub filter_pair :
          Row → Row → Bool → DataValue f.Decimal → Result (Option Row × Bool)
      unfolding emit_filtered
      filter_pair left right has_matched (boolean true) =
          ok (emit_filtered left right ty has_matched, true)
      filter_pair left right has_matched (boolean false) = ok (none, has_matched)
      filter_pair left right has_matched null = ok (none, has_matched)
      filter_pair left right has_matched _ = err DatabaseError.invalid_type

      unfoldable pub match_equal :
          Option Expr → Row → Row → Bool → Bool → Result (Option Row × Bool)
      unfolding filter_pair emit_match merge_tuple
      match_equal fl left right has_matched false = ok (none, has_matched)
      match_equal none left right has_matched true = ok (emit_match left right ty, true)
      match_equal (some e) left right has_matched true = do
        value ← eval e (merge_tuple left right ty) output_schema_ref
        filter_pair left right has_matched value

      unfoldable pub match_pair : Row → Row → Bool → Result (Option Row × Bool)
      unfolding equals match_equal
      match_pair left right has_matched = do
        equal ← equals eq_cond left right
        match_equal filter left right has_matched equal

      -- The loop over the right rows, from the index `right_idx` on.
      unfoldable pub inner_loop :
          Row → List (Result Row) → Bool → ℕ → Matches Bits → Yields Row (Bool × ℕ × Matches Bits)
      unfolding match_pair mark
      inner_loop left [] has_matched right_idx m = ([], ok (has_matched, right_idx, m))
      inner_loop left (x ∷ xs) has_matched right_idx m =
          after [] (do right ← x; match_pair left right has_matched)
            (λ (matched : Option Row × Bool).
              let advance : Matches Bits → Yields Row (Bool × ℕ × Matches Bits) = λ m'.
                let rest = inner_loop left xs (matched.1) (suc right_idx) m' in
                if is_anti ty && matched.1 then ([], ok (matched.1, right_idx, m')) else rest in
              elim (matched.0) [
                | none ↦ advance m
                | some row ↦
                    let rest =
                      after (row ∷ []) (mark ty right_idx m.bitmap m.first_matches) advance in
                    if is_semi ty then (row ∷ [], ok (matched.1, right_idx, m)) else rest
              ])

      -- The loop over the left rows.
      unfoldable pub outer_loop :
          List (Result Row) → List (Result Row) → Matches Bits → Yields Row (Matches Bits)
      unfolding inner_loop make_bitmap
      outer_loop [] rights m = ([], ok m)
      outer_loop (x ∷ xs) rights m = after [] x (λ left.
          after (inner_loop left rights false 0 m).0 (inner_loop left rights false 0 m).1 (λ found.
            after (to_list (emit_unmatched (length eq_cond.right_schema) left ty (found.0)))
              (ok (make_bitmap ty (found.1) (found.2))) (λ m'. outer_loop xs rights m')))

    unfoldable pub insert_all : List ℕ → Option Bits → Result (Option Bits)
    insert_all [] bitmap = ok bitmap
    insert_all (idx ∷ is) none = panic
    insert_all (idx ∷ is) (some b) = do b' ← insert b idx; insert_all is (some b')

    -- `bitmap.as_ref().unwrap().contains(idx)`
    abbrev contained : Option Bits → ℕ → Result Bool
    contained none idx = panic
    contained (some b) idx = ok (contains b idx)

    -- The unmatched right rows of a full join, from the index `idx` on.
    unfoldable pub unmatched_loop : ℕ → List (Result Row) → ℕ → Option Bits → Yields Row (Unit {0})
    unmatched_loop right_schema_len [] idx bitmap = ([], ok tt)
    unmatched_loop right_schema_len (x ∷ xs) idx bitmap =
        let rest = unmatched_loop right_schema_len xs (suc idx) bitmap in
        after [] (contained bitmap idx) (λ (matched : Bool).
          if matched
          then rest
          else after [] x (λ right.
            after
              (record { pk = right.pk; values = replicate right_schema_len null ++ right.values }
                ∷ [])
              (ok tt) (λ next. rest)))

    unfoldable pub finish : JoinType → ℕ → List (Result Row) → Matches Bits → Yields Row (Unit {0})
    unfolding insert_all unmatched_loop
    finish JoinType.full right_schema_len rights m =
        after [] (insert_all m.first_matches m.bitmap)
          (λ bitmap. unmatched_loop right_schema_len rights 0 bitmap)
    finish ty right_schema_len rights m = ([], ok tt)

    unfoldable pub execute : NestedLoopJoin Expr Column Row → Yields Row (Unit {0})
    unfolding outer_loop finish
    execute join =
        let looped =
          outer_loop join.ty join.filter join.eq_cond join.output_schema_ref join.left_input
            join.right_input (record { bitmap = none; first_matches = [] }) in
        after looped.0 looped.1
          (λ m. finish join.ty (length join.eq_cond.right_schema) join.right_input m)
