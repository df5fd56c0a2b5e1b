-- ===== src/Prelude/Bytes.antt =====
-- Bytes in a list: that each is one, reads and writes in a first part, and tables over all bytes.
use Prim.Native.Nat.{ℕ, zero, suc, ◌<◌}
use mathlib.Core.Path.{◌≡◌, refl, ap}
use mathlib.Core.Bool.{Bool, true, ◌&&◌}
use mathlib.Core.List.{List, [], ◌∷◌, ◌++◌}
use mathlib.Core.Option.{some}
use native.Mathlib.Omega.{arith}
use native.Mathlib.Decide.{dec_lt}
use kite_sql.Prelude.Lists.{length, get_elem?, set, replicate}

abbrev pub AllBytes : List ℕ → Type 0
AllBytes [] = Unit
AllBytes (b ∷ bs) = (b < 256) × AllBytes bs

pub AllBytes-zeros : (n : ℕ) → AllBytes (replicate n 0)
AllBytes-zeros zero = tt
AllBytes-zeros (suc n) = (omega arith, AllBytes-zeros n)

pub AllBytes-set : (bs : List ℕ) (i b : ℕ) → AllBytes bs → b < 256 → AllBytes (set bs i b)
AllBytes-set [] i b h lt = tt
AllBytes-set (x ∷ xs) zero b h lt = (lt, h.1)
AllBytes-set (x ∷ xs) (suc i) b h lt = (h.0, AllBytes-set xs i b h.1 lt)

pub AllBytes-get_elem? :
    (bs : List ℕ) (i : ℕ)
    → AllBytes bs
    → i < length bs
    → (b : ℕ) × (get_elem? bs i ≡ some b) × (b < 256)
AllBytes-get_elem? [] i h lt = elim lt [ ]
AllBytes-get_elem? (x ∷ xs) zero h lt = (x, refl, h.0)
AllBytes-get_elem? (x ∷ xs) (suc i) h lt = AllBytes-get_elem? xs i h.1 (omega arith)

module _ {ℓ} {A : Type ℓ} where
  pub get_elem?-lt : (xs : List A) (i : ℕ) → i < length xs → (x : A) × (get_elem? xs i ≡ some x)
  get_elem?-lt [] i h = elim h [ ]
  get_elem?-lt (x ∷ xs) zero h = (x, refl)
  get_elem?-lt (x ∷ xs) (suc i) h = get_elem?-lt xs i (omega arith)

  pub get_elem?-append :
      (xs ys : List A) (i : ℕ) → i < length xs → get_elem? (xs ++ ys) i ≡ get_elem? xs i
  get_elem?-append [] ys i h = elim h [ ]
  get_elem?-append (x ∷ xs) ys zero h = refl
  get_elem?-append (x ∷ xs) ys (suc i) h = get_elem?-append xs ys i (omega arith)

  pub get_elem?-append_length :
      (xs ys : List A) (y : A) → get_elem? (xs ++ y ∷ ys) (length xs) ≡ some y
  get_elem?-append_length [] ys y = refl
  get_elem?-append_length (x ∷ xs) ys y = get_elem?-append_length xs ys y

  pub set-append :
      (xs ys : List A) (i : ℕ) (v : A) → i < length xs → set (xs ++ ys) i v ≡ set xs i v ++ ys
  set-append [] ys i v h = elim h [ ]
  set-append (x ∷ xs) ys zero v h = refl
  set-append (x ∷ xs) ys (suc i) v h = ap (◌∷◌ x) (set-append xs ys i v (omega arith))

  pub set-append_length :
      (xs ys : List A) (y v : A) → set (xs ++ y ∷ ys) (length xs) v ≡ xs ++ v ∷ ys
  set-append_length [] ys y v = refl
  set-append_length (x ∷ xs) ys y v = ap (◌∷◌ x) (set-append_length xs ys y v)

-- A test of every number below a bound, to be evaluated.
unfoldable pub every_below : (ℕ → Bool) → ℕ → Bool
every_below test zero = true
every_below test (suc n) = every_below test n && test n

pub every_below-lt :
    (test : ℕ → Bool) (n : ℕ) → every_below test n ≡ true → (k : ℕ) → k < n → test k ≡ true
unfolding every_below
every_below-lt test zero passed k below = absurd (omega arith)
every_below-lt test (suc n) passed k below = elim (dec_lt k n) [
  | yes p ↦
      let earlier : every_below test n ≡ true = ground arith in every_below-lt test n earlier k p
  | no p ↦ let same : k ≡ n = omega arith in let last : test n ≡ true = ground arith in rw same last
]
