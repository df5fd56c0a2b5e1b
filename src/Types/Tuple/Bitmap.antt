-- ===== src/Types/Tuple/Bitmap.antt =====
-- The null bitmap of src/types/tuple.rs: one bit for each column, and a mark touches only its own.
use native.Mathlib.Decide.{ℕ_discrete}
use kite_sql.Prelude.Bytes.{AllBytes, AllBytes-set, AllBytes-get_elem?, every_below, every_below-lt}
use kite_sql.Prelude.{
  ℕ, ◌/◌, ◌%◌, ◌<◌, ◌≡◌, refl, Bool, true, false, ◌&&◌, ◌||◌, none, some, List, arith, ltb, ◌==◌,
  length, get_elem?, set, get_elem?-set_self, get_elem?-set_ne, length-set, ok, not, ltb→lt,
}
use kite_sql.Types.Tuple.{is_none, flip_bit, mark_null}

-- Whether column `i` is marked.
abbrev pub null_bit : List ℕ → ℕ → Bool
null_bit h i = elim (get_elem? h (i / 8)) [ none ↦ false | some b ↦ is_none b (i % 8) ]

abbrev same : Bool → Bool → Bool
same true b = b
same false b = not b

same-eq : (a b : Bool) → same a b ≡ true → a ≡ b
same-eq a b h = ground arith

abbrev flip_ok : ℕ → ℕ → ℕ → Bool
flip_ok b i j = same (is_none (flip_bit b i) j) ((i == j) || is_none b j) && ltb (flip_bit b i) 256

flip_table : every_below (λ b. every_below (λ i. every_below (flip_ok b i) 8) 8) 256 ≡ true
unfolding every_below is_none flip_bit
flip_table = refl

and_true : (a b : Bool) → (a && b) ≡ true → (a ≡ true) × (b ≡ true)
and_true a b h = ground arith

flip_bit_lem :
    (b i j : ℕ)
    → b < 256
    → i < 8
    → j < 8
    → (is_none (flip_bit b i) j ≡ ((i == j) || is_none b j)) × (flip_bit b i < 256)
flip_bit_lem b i j hb hi hj =
    let row =
      every_below-lt (λ b. every_below (λ i. every_below (flip_ok b i) 8) 8) 256 flip_table b hb in
    let t = every_below-lt (flip_ok b i) 8 (every_below-lt _ 8 row i hi) j hj in
    let parts = and_true (same (is_none (flip_bit b i) j) ((i == j) || is_none b j)) _ t in
    (same-eq _ _ parts.0, ltb→lt _ _ parts.1)

null_bit-set :
    (h : List ℕ) (i j b : ℕ)
    → get_elem? h (i / 8) ≡ some b
    → b < 256
    → i / 8 < length h
    → null_bit (set h (i / 8) (flip_bit b (i % 8))) j ≡ ((i == j) || null_bit h j)
null_bit-set h i j b found byte inside = elim (ℕ_discrete (i / 8) (j / 8)) [
  | yes e ↦
      let v = flip_bit b (i % 8) in
      let here : get_elem? (set h (i / 8) v) (j / 8) ≡ some v =
        rw (← e) (get_elem?-set_self h (i / 8) v inside) in
      let was : get_elem? h (j / 8) ≡ some b = rw (← e) found in
      let bit = (flip_bit_lem b (i % 8) (j % 8) byte (omega arith) (omega arith)).0 in
      ground (arith, here, was, bit)
  | no n ↦ ground (arith, get_elem?-set_ne h {i = i / 8} {j = j / 8} (flip_bit b (i % 8)) n)
]

-- A mark stays in the bitmap, and sets the bit of its column and no other.
pub mark_null_lem :
    (h : List ℕ) (i : ℕ)
    → AllBytes h
    → i / 8 < length h
    → (h' : List ℕ) × (mark_null i h ≡ ok h')
      × AllBytes h'
      × (length h' ≡ length h)
      × ((j : ℕ) → null_bit h' j ≡ ((i == j) || null_bit h j))
unfolding mark_null
mark_null_lem h i bytes inside =
    let (b, found, byte) = AllBytes-get_elem? h (i / 8) bytes inside in
    let h' = set h (i / 8) (flip_bit b (i % 8)) in
    (
      h',
      ground (arith, found),
      AllBytes-set h (i / 8) (flip_bit b (i % 8)) bytes
          (flip_bit_lem b (i % 8) 0 byte (omega arith) (omega arith)).1,
      length-set h (i / 8) (flip_bit b (i % 8)),
      λ j. null_bit-set h i j b found byte inside,
    )
