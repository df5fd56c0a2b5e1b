-- ===== src/Storage/TableCodec/Bounds.antt =====
-- The scans of the bounds of src/storage/table_codec.rs: which keys lie in which bound.
use Prim.Native.Nat.{Ordering}
use kite_sql.Prelude.{
  ℕ, ◌≤◌, ◌≡◌, refl, sym, ◌↔◌, Bool, true, false, ◌&&◌, not, List, [], ◌∷◌, ◌++◌, arith, length,
}
use kite_sql.Types.Value.{compare_bytes}
use kite_sql.Types.Value.KeyOrder.{compare_bytes-append_lengths}

abbrev is_gt : Ordering → Bool
is_gt Ordering.gt = true
is_gt _ = false

-- `range` from an included minimum up to an included maximum, on keys in the order of their bytes.
unfoldable pub in_range : List ℕ × List ℕ → List ℕ → Bool
unfolding compare_bytes
in_range bound key =
    not (is_gt (compare_bytes (bound.0) key)) && not (is_gt (compare_bytes key (bound.1)))

reverse_order : Ordering → Ordering
reverse_order Ordering.lt = Ordering.gt
reverse_order Ordering.eq = Ordering.eq
reverse_order Ordering.gt = Ordering.lt

compare_bytes-reverse : (xs ys : List ℕ) → compare_bytes ys xs ≡ reverse_order (compare_bytes xs ys)
unfolding compare_bytes reverse_order
compare_bytes-reverse [] [] = refl
compare_bytes-reverse [] (y ∷ ys) = refl
compare_bytes-reverse (x ∷ xs) [] = refl
compare_bytes-reverse (x ∷ xs) (y ∷ ys) = ground (arith, compare_bytes-reverse xs ys)

pub compare_bytes-eq : (xs ys : List ℕ) → compare_bytes xs ys ≡ Ordering.eq → xs ≡ ys
unfolding compare_bytes
compare_bytes-eq [] [] h = refl
compare_bytes-eq [] (y ∷ ys) h = ground arith
compare_bytes-eq (x ∷ xs) [] h = ground arith
compare_bytes-eq (x ∷ xs) (y ∷ ys) h = ground (arith, compare_bytes-eq xs ys)

pub compare_bytes_self : (xs : List ℕ) → compare_bytes xs xs ≡ Ordering.eq
unfolding compare_bytes
compare_bytes_self [] = refl
compare_bytes_self (x ∷ xs) = ground (arith, compare_bytes_self xs)

-- Bounds behind one prefix: only keys with that prefix can lie in them.
pub in_range-append :
    (p q lower upper rest : List ℕ)
    → length p ≡ length q
    → (in_range (p ++ lower, p ++ upper) (q ++ rest) ≡ true)
      ↔ ((p ≡ q) × (in_range (lower, upper) rest ≡ true))
unfolding in_range reverse_order
in_range-append p q lower upper rest e =
    let below = compare_bytes-append_lengths p q lower rest e in
    let above = compare_bytes-append_lengths q p rest upper (sym e) in
    let turned = compare_bytes-reverse p q in
    let same = compare_bytes-eq p q in ground (arith, below, above, turned, same)

-- The bytes behind a prefix: a tag, the lowest tag, and a rest.
pub in_range-tag :
    (a b t : ℕ) (rest : List ℕ)
    → (in_range (a ∷ 0 ∷ [], b ∷ 255 ∷ []) (t ∷ 0 ∷ rest) ≡ true) ↔ ((a ≤ t) × (t ≤ b))
unfolding in_range compare_bytes
in_range-tag a b t [] = ground arith
in_range-tag a b t (r ∷ rest) = ground arith

-- Of the keys `q ++ 0 ∷ rest`, a tagged bound holds those with its prefix.
pub in_range-tagged :
    (p q rest : List ℕ)
    → length p ≡ length q
    → (in_range (p ++ (0 ∷ []), p ++ (255 ∷ [])) (q ++ (0 ∷ rest)) ≡ true) ↔ (p ≡ q)
unfolding in_range compare_bytes
in_range-tagged p q [] e = ground (arith, in_range-append p q (0 ∷ []) (255 ∷ []) (0 ∷ []) e)
in_range-tagged p q (r ∷ rest) e =
    ground (arith, in_range-append p q (0 ∷ []) (255 ∷ []) (0 ∷ r ∷ rest) e)
