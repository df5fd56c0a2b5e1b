-- ===== src/Execution/NestedLoopJoin/Loops.antt =====
-- The loop of src/execution/dql/join/nested_loop_join.rs over the right rows.
use kite_sql.Prelude.{
  ℕ, suc, ◌≡◌, refl, ap, ◌∙◌, inl, inr, Bool, true, false, ◌&&◌, Bool-cases, if◌then◌else◌, Option,
  none, some, List, [], ◌∷◌, ◌++◌, map, Result, ok, ◌>>=◌, arith,
}
use mathlib.Core.List.{append-nil}
use kite_sql.Types.Value.{Foreign, DataValue}
use kite_sql.Types.Tuple.{Tuple}
use kite_sql.Storage.TableCodec.Prefix.{>>=-ok, ok-injective}
use kite_sql.Execution.NestedLoopJoin.{
  JoinType, BitSet, EqualCondition, Matches, Yields, or, emit_unmatched, to_list, mark, match_pair,
  inner_loop, is_semi, is_anti,
}
use kite_sql.Execution.NestedLoopJoin.Emit.{
  combine, HasColumns, matched_row, outer_rows, emit_unmatched_lem,
}
use kite_sql.Execution.NestedLoopJoin.Rows.{on_condition, FirstOnly, match_pair_lem}

-- The elements that pass a test.
abbrev pub kept : {A : Type 0} → (A → Bool) → List A → List A
kept test [] = []
kept test (x ∷ xs) = if test x then x ∷ kept test xs else kept test xs

abbrev pub successes : {A : Type 0} → List A → List (Result A)
successes xs = map ok xs

-- The join types that yield a row for every match.
abbrev pub is_wide : JoinType → Bool
is_wide JoinType.left_semi = false
is_wide JoinType.left_anti = false
is_wide _ = true

module _ (f : Foreign) {Expr Column : Type 0}
    (eval : Expr → Tuple f.Decimal → List Column → Result (DataValue f.Decimal)) (bits : BitSet)
    (ty : JoinType) (filter : Option Expr) (eq_cond : EqualCondition Expr Column)
    (output_schema_ref : List Column) where
  abbrev Row : Type 0
  Row = Tuple f.Decimal

  -- One round of the loop over the right rows, by what the pair gives.
  module _ (left r : Row) (xs : List (Result Row)) (has_matched hm : Bool) (i : ℕ)
      (m : Matches bits.Bits) where
    abbrev Loop :
        List (Result Row) → Bool → ℕ → Matches bits.Bits → Yields Row (Bool × ℕ × Matches bits.Bits)
    Loop = inner_loop f eval bits ty filter eq_cond output_schema_ref left

    abbrev Paired : Option Row → Type 0
    Paired row =
        match_pair f eval bits ty filter eq_cond output_schema_ref left r has_matched ≡ ok (row, hm)

    inner_loop-none :
        Paired none
        → (is_anti ty && hm) ≡ false
        → Loop (ok r ∷ xs) has_matched i m ≡ Loop xs hm (suc i) m
    unfolding inner_loop
    inner_loop-none pair on = rw (pair, on) refl

    inner_loop-anti :
        Paired none
        → (is_anti ty && hm) ≡ true
        → Loop (ok r ∷ xs) has_matched i m ≡ ([], ok (hm, i, m))
    unfolding inner_loop
    inner_loop-anti pair stop = rw (pair, stop) refl

    inner_loop-semi :
        (row : Row)
        → Paired (some row)
        → is_semi ty ≡ true
        → Loop (ok r ∷ xs) has_matched i m ≡ (row ∷ [], ok (hm, i, m))
    unfolding inner_loop
    inner_loop-semi row pair stop = rw (pair, stop) refl

    inner_loop-some :
        (row : Row) (m' : Matches bits.Bits)
        → Paired (some row)
        → is_semi ty ≡ false
        → is_anti ty ≡ false
        → mark f eval bits ty i m.bitmap m.first_matches ≡ ok m'
        → Loop (ok r ∷ xs) has_matched i m
          ≡ (row ∷ (Loop xs hm (suc i) m').0, (Loop xs hm (suc i) m').1)
    unfolding inner_loop
    inner_loop-some row m' pair semi anti marked = rw (pair, semi, marked, anti) refl

  inner_loop-nil :
      (left : Row) (has_matched : Bool) (i : ℕ) (m : Matches bits.Bits)
      → inner_loop f eval bits ty filter eq_cond output_schema_ref left [] has_matched i m
        ≡ ([], ok (has_matched, i, m))
  unfolding inner_loop
  inner_loop-nil left has_matched i m = refl

  wide_not_semi : (t : JoinType) → is_wide t ≡ true → is_semi t ≡ false
  wide_not_semi t h = ground arith

  wide_not_anti : (t : JoinType) → is_wide t ≡ true → is_anti t ≡ false
  wide_not_anti t h = ground arith

  module _ (matches : Row → Row → Bool) where
    -- The condition can be decided on a left row and all right rows.
    abbrev pub Decided : Row → List Row → Type 0
    Decided left [] = Unit
    Decided left (r ∷ rs) =
        (on_condition f eval bits ty filter eq_cond output_schema_ref left r ≡ ok (matches left r))
        × Decided left rs

    abbrev pub matched : Bool → Row → List Row → Bool
    matched has_matched left [] = has_matched
    matched has_matched left (r ∷ rs) =
        matched (if matches left r then true else has_matched) left rs

    abbrev pub index_after : ℕ → List Row → ℕ
    index_after i [] = i
    index_after i (r ∷ rs) = index_after (suc i) rs

    -- The marks of the matches.
    abbrev pub mark_all : Row → List Row → ℕ → Matches bits.Bits → Result (Matches bits.Bits)
    mark_all left [] i m = ok m
    mark_all left (r ∷ rs) i m = do
      m' ← (if matches left r then mark f eval bits ty i m.bitmap m.first_matches else ok m)
      mark_all left rs (suc i) m'

    abbrev pub wide_row : JoinType → Row → Row → Row
    wide_row JoinType.right_outer left right = combine right left
    wide_row t left right = combine left right

    wide_matched :
        (t : JoinType) (left right : Row)
        → is_wide t ≡ true
        → matched_row t left right ≡ some (wide_row t left right)
    wide_matched JoinType.left_semi left right h = absurd (cc)
    wide_matched JoinType.left_anti left right h = absurd (cc)
    wide_matched JoinType.inner left right h = refl
    wide_matched JoinType.cross left right h = refl
    wide_matched JoinType.full left right h = refl
    wide_matched JoinType.left_outer left right h = refl
    wide_matched JoinType.right_outer left right h = refl

    wide_first :
        (t : JoinType) (has_matched : Bool)
        → is_wide t ≡ true
        → FirstOnly f eval bits ty filter eq_cond output_schema_ref t has_matched
    wide_first JoinType.left_semi m h = absurd (cc)
    wide_first JoinType.left_anti m h = tt
    wide_first JoinType.inner m h = tt
    wide_first JoinType.cross m h = tt
    wide_first JoinType.full m h = tt
    wide_first JoinType.left_outer m h = tt
    wide_first JoinType.right_outer m h = tt

    -- With a join type that yields every match, the loop over the right rows yields all of them.
    pub wide_loop :
        (wide : is_wide ty ≡ true) (left : Row) (rs : List Row) (has_matched : Bool) (i : ℕ)
        (m m' : Matches bits.Bits)
        → HasColumns left
        → Decided left rs
        → mark_all left rs i m ≡ ok m'
        → inner_loop f eval bits ty filter eq_cond output_schema_ref left
            (successes rs)
            has_matched
            i
            m
          ≡ (
            map (wide_row ty left) (kept (matches left) rs),
            ok (matched has_matched left rs, index_after i rs, m'),
          )
    wide_loop wide left [] has_matched i m m' h decided e =
        inner_loop-nil left has_matched i m
        ∙ ap (λ last. ([], ok (has_matched, i, last))) (ok-injective e)
    wide_loop wide left (r ∷ rs) has_matched i m m' h (here, later) e =
        let first = wide_first ty has_matched wide in
        let pair =
          match_pair_lem f eval bits ty filter eq_cond output_schema_ref left r has_matched
            (matches left r) h first here in
        elim (Bool-cases (matches left r)) [
          | inl yes_match ↦
              let (m1, marked, rest) =
                >>=-ok (mark f eval bits ty i m.bitmap m.first_matches) (mark_all left rs (suc i))
                  m' (rw yes_match at e) in
              let row = wide_matched ty left r wide in
              let step =
                inner_loop-some left r (successes rs) has_matched true i m (wide_row ty left r) m1
                  (rw (yes_match, row) at pair) (wide_not_semi ty wide) (wide_not_anti ty wide)
                  marked in
              let others = wide_loop wide left rs true (suc i) m1 m' h later rest in
              rw (yes_match, step, others) refl
          | inr no_match ↦
              let step =
                inner_loop-none left r (successes rs) has_matched has_matched i m
                  (rw no_match at pair) (rw (wide_not_anti ty wide) refl) in
              let others =
                wide_loop wide left rs has_matched (suc i) m m' h later (rw no_match at e) in
              rw (no_match, step, others) refl
        ]

    abbrev pub some_kept : List Row → Bool
    some_kept [] = false
    some_kept (k ∷ ks) = true

    matched_once : (left : Row) (rs : List Row) → matched true left rs ≡ true
    matched_once left [] = refl
    matched_once left (r ∷ rs) = elim (Bool-cases (matches left r)) [
      | inl e ↦ rw e (matched_once left rs)
      | inr e ↦ rw e (matched_once left rs)
    ]

    pub matched-some_kept :
        (left : Row) (rs : List Row) → matched false left rs ≡ some_kept (kept (matches left) rs)
    matched-some_kept left [] = refl
    matched-some_kept left (r ∷ rs) = elim (Bool-cases (matches left r)) [
      | inl e ↦ rw e (matched_once left rs)
      | inr e ↦ rw e (matched-some_kept left rs)
    ]

    wide_matches :
        (t : JoinType) (n : ℕ) (left k : Row) (ks : List Row)
        → is_wide t ≡ true
        → map (wide_row t left) (k ∷ ks) ++ to_list (emit_unmatched n left t true)
          ≡ outer_rows t n left (k ∷ ks)
    unfolding emit_unmatched
    wide_matches JoinType.left_semi n left k ks h = absurd (cc)
    wide_matches JoinType.left_anti n left k ks h = absurd (cc)
    wide_matches JoinType.inner n left k ks h = append-nil _
    wide_matches JoinType.cross n left k ks h = append-nil _
    wide_matches JoinType.full n left k ks h = append-nil _
    wide_matches JoinType.left_outer n left k ks h = append-nil _
    wide_matches JoinType.right_outer n left k ks h = append-nil _

    -- With the row for no match, the loop yields what the join type asks for.
    pub wide_rows :
        (n : ℕ) (left : Row) (ks : List Row)
        → is_wide ty ≡ true
        → HasColumns left
        → map (wide_row ty left) ks ++ to_list (emit_unmatched n left ty (some_kept ks))
          ≡ outer_rows ty n left ks
    wide_rows n left [] wide h = emit_unmatched_lem ty n left h
    wide_rows n left (k ∷ ks) wide h = wide_matches ty n left k ks wide

    -- What is yielded for a left row, with the marks that it leaves.
    abbrev pub LeftRow : Row → List Row → Matches bits.Bits → Matches bits.Bits → Type 0
    LeftRow left rs m m' =
        (rows : List Row) × (has_matched : Bool) × (last : ℕ) × (inner_loop f eval bits ty filter
            eq_cond output_schema_ref left (successes rs) false 0 m
          ≡ (rows, ok (has_matched, last, m')))
        × ((n : ℕ)
            → rows ++ to_list (emit_unmatched n left ty has_matched)
              ≡ outer_rows ty n left (kept (matches left) rs))

    pub LeftRow-wide :
        (wide : is_wide ty ≡ true) (left : Row) (rs : List Row) (m m' : Matches bits.Bits)
        → HasColumns left
        → Decided left rs
        → mark_all left rs 0 m ≡ ok m'
        → LeftRow left rs m m'
    LeftRow-wide wide left rs m m' h decided marked = (
      map (wide_row ty left) (kept (matches left) rs),
      matched false left rs,
      index_after 0 rs,
      wide_loop wide left rs false 0 m m' h decided marked,
      λ n. rw (matched-some_kept left rs) (wide_rows n left (kept (matches left) rs) wide h),
    )

    semi_match :
        (left r : Row) (ks : List Row) (n : ℕ)
        → ty ≡ JoinType.left_semi
        → record { pk = or left.pk r.pk; values = left.values }
            ∷ to_list (emit_unmatched n left ty true)
          ≡ outer_rows ty n left (r ∷ ks)
    unfolding emit_unmatched
    semi_match left r ks n semi = rw semi refl

    anti_match :
        (left r : Row) (ks : List Row) (n : ℕ)
        → ty ≡ JoinType.left_anti
        → to_list (emit_unmatched n left ty true) ≡ outer_rows ty n left (r ∷ ks)
    unfolding emit_unmatched
    anti_match left r ks n anti = rw anti refl

    -- A semi join stops at its first match.
    pub semi_loop :
        (left : Row) (rs : List Row) (i : ℕ) (m : Matches bits.Bits)
        → ty ≡ JoinType.left_semi
        → HasColumns left
        → Decided left rs
        → (rows : List Row) × (has_matched : Bool) × (last : ℕ) × (inner_loop f eval bits ty filter
              eq_cond output_schema_ref left
              (successes rs)
              false
              i
              m
            ≡ (rows, ok (has_matched, last, m)))
          × ((n : ℕ)
              → rows ++ to_list (emit_unmatched n left ty has_matched)
                ≡ outer_rows ty n left (kept (matches left) rs))
    semi_loop left [] i m semi h decided =
        ([], false, i, inner_loop-nil left false i m, λ n. emit_unmatched_lem ty n left h)
    semi_loop left (r ∷ rs) i m semi h (here, later) =
        let pair =
          match_pair_lem f eval bits ty filter eq_cond output_schema_ref left r false
            (matches left r) h (rw semi refl) here in
        let row = ap (λ t. matched_row t left r) semi in
        let ends_with_match = semi_match left r (kept (matches left) rs) in
        elim (Bool-cases (matches left r)) [
          | inl yes_match ↦ (
            record { pk = or left.pk r.pk; values = left.values } ∷ [],
            true,
            i,
            inner_loop-semi left r (successes rs) false true i m
                (record { pk = or left.pk r.pk; values = left.values })
                (rw (yes_match, row) at pair) (rw semi refl),
            λ n. rw yes_match (ends_with_match n semi),
          )
          | inr no_match ↦
              let (rows, has_matched, last, e, out) = semi_loop left rs (suc i) m semi h later in
              let step =
                inner_loop-none left r (successes rs) false false i m (rw no_match at pair)
                  (rw semi refl) in
              (rows, has_matched, last, step ∙ e, λ n. rw no_match (out n))
        ]

    -- An anti join stops at the first match and yields the rows that have none.
    pub anti_loop :
        (left : Row) (rs : List Row) (i : ℕ) (m : Matches bits.Bits)
        → ty ≡ JoinType.left_anti
        → HasColumns left
        → Decided left rs
        → (rows : List Row) × (has_matched : Bool) × (last : ℕ) × (inner_loop f eval bits ty filter
              eq_cond output_schema_ref left
              (successes rs)
              false
              i
              m
            ≡ (rows, ok (has_matched, last, m)))
          × ((n : ℕ)
              → rows ++ to_list (emit_unmatched n left ty has_matched)
                ≡ outer_rows ty n left (kept (matches left) rs))
    anti_loop left [] i m anti h decided =
        ([], false, i, inner_loop-nil left false i m, λ n. emit_unmatched_lem ty n left h)
    anti_loop left (r ∷ rs) i m anti h (here, later) =
        let pair =
          match_pair_lem f eval bits ty filter eq_cond output_schema_ref left r false
            (matches left r) h (rw anti tt) here in
        let row = ap (λ t. matched_row t left r) anti in
        let ends_with_match = anti_match left r (kept (matches left) rs) in
        elim (Bool-cases (matches left r)) [
          | inl yes_match ↦ (
            [],
            true,
            i,
            inner_loop-anti left r (successes rs) false true i m (rw (yes_match, row) at pair)
                (rw anti refl),
            λ n. rw yes_match (ends_with_match n anti),
          )
          | inr no_match ↦
              let (rows, has_matched, last, e, out) = anti_loop left rs (suc i) m anti h later in
              let step =
                inner_loop-none left r (successes rs) false false i m (rw no_match at pair)
                  (rw anti refl) in
              (rows, has_matched, last, step ∙ e, λ n. rw no_match (out n))
        ]
