-- ===== src/Utils/Lru/Expelled.antt =====
-- The order of the nodes of src/utils/lru.rs that `put` expects: without a key's old node, and
-- without the last when the cache was full.
use kite_sql.Prelude.{
  ℕ, ◌≡◌, refl, sym, ap, ◌∙◌, inl, inr, true, false, Bool-cases, leb, if◌then◌else◌, Option, none,
  some, List, [], ◌∷◌, length,
}
use mathlib.Core.Path.{subst}
use kite_sql.Utils.Lru.Chain.{
  In, here, there, Distinct, without, Chain, NotIn-In, some_injective, without_here, without_there,
}

-- The last node of a chain.
pub tail-In :
    (prev next : ℕ → Option ℕ) (x : ℕ) (xs : List ℕ) (b l : Option ℕ)
    → Chain prev next b (x ∷ xs) l
    → (t : ℕ) × (l ≡ some t) × In t (x ∷ xs)
tail-In prev next x [] b l (c1, c2, c3) = (x, c3, here [])
tail-In prev next x (y ∷ ys) b l (c1, c2, c3) =
    let (t, at_t, inside) = tail-In prev next y ys (some x) l c3 in
    (t, at_t, there x (y ∷ ys) inside)

-- The order without the node of a key, and without the last when it is as long as the capacity.
abbrev pub forgotten : Option ℕ → List ℕ → List ℕ
forgotten none ps = ps
forgotten (some p) ps = without p ps

abbrev pub but_last : List ℕ → List ℕ
but_last [] = []
but_last (x ∷ []) = []
but_last (x ∷ y ∷ ys) = x ∷ but_last (y ∷ ys)

abbrev pub expelled : ℕ → List ℕ → List ℕ
expelled cap ps = if leb cap (length ps) then but_last ps else ps

pub without-tail :
    (prev next : ℕ → Option ℕ) (t x : ℕ) (xs : List ℕ) (b : Option ℕ)
    → Chain prev next b (x ∷ xs) (some t)
    → Distinct (x ∷ xs)
    → without t (x ∷ xs) ≡ but_last (x ∷ xs)
without-tail prev next t x [] b (c1, c2, c3) d =
    subst (λ z. without t (z ∷ []) ≡ []) (some_injective c3) (without_here t [])
without-tail prev next t x (y ∷ ys) b (c1, c2, c3) d =
    let (u, at_u, inside) = tail-In prev next y ys (some x) (some t) c3 in
    let other =
      NotIn-In x t (y ∷ ys) d.0 (subst (λ z. In z (y ∷ ys)) (sym (some_injective at_u)) inside) in
    without_there t x (y ∷ ys) other
    ∙ ap (λ zs. x ∷ zs) (without-tail prev next t y ys (some x) c3 d.1)

pub expelled_full :
    (cap : ℕ) (ps : List ℕ) → leb cap (length ps) ≡ true → expelled cap ps ≡ but_last ps
expelled_full cap ps h = rw h refl

pub expelled_free : (cap : ℕ) (ps : List ℕ) → leb cap (length ps) ≡ false → expelled cap ps ≡ ps
expelled_free cap ps h = rw h refl

pub expelled_nil : (cap : ℕ) → expelled cap [] ≡ []
expelled_nil cap = elim (Bool-cases (leb cap 0)) [
  | inl h ↦ expelled_full cap [] h
  | inr h ↦ expelled_free cap [] h
]
