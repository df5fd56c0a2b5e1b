-- ===== src/Utils/Lru/Invariant.antt =====
-- `LruCache` of src/utils/lru.rs: the map, the chain and the store agree after every operation.
use kite_sql.Prelude.{
  ℕ, suc, ◌-◌, ◌≤◌, ◌<◌, ◌≡◌, ◌≢◌, refl, sym, ap, ◌∙◌, ◌⊎◌, inl, inr, Bool, true, false, Bool-cases,
  ◌==◌, if◌then◌else◌, none, some, Option-cases, List, [], ◌∷◌, length, arith,
}
use mathlib.Core.Path.{subst}
use kite_sql.Utils.Lru.{LruCache, detach, attach, remove_key, forget, evict, get, remove}
use kite_sql.Utils.Lru.Chain.Attach.{IsChain-attach}
use kite_sql.Utils.Lru.Chain.{
  In, here, there, NotIn, Distinct, without, IsChain, NotIn-In, IsChain-detach, some_injective,
  without_cases, without_here, without_there,
}

-- The addresses in the order of the last use, the latest first.
pub record IsCache {K V : Type 0} (c : LruCache K V) (ps : List ℕ) : Type 0 where
  pub chain : IsChain c.links ps
  pub owned :
      (p : ℕ) → In p ps → (k : K) × (v : V) × (c.nodes p ≡ some (k, v)) × (c.inner k ≡ some p)
  pub listed :
      (k : K) (p : ℕ) → c.inner k ≡ some p → In p ps × ((v : V) × (c.nodes p ≡ some (k, v)))
  pub used : (p : ℕ) → In p ps → p < c.fresh
  pub counted : c.len ≡ length ps
  pub bounded : c.len ≤ c.cap
  pub positive : 0 < c.cap

eq_of : (x p : ℕ) → (x == p) ≡ true → x ≡ p
eq_of x p h = ground arith

ne_of : (x p : ℕ) → (x == p) ≡ false → x ≢ p
ne_of x p h = ground arith

pub member_cases : (q x : ℕ) (ps : List ℕ) → In q (x ∷ ps) → (q ≡ x) ⊎ In q ps
member_cases q x ps (here _) = inl refl
member_cases q x ps (there _ _ k) = inr k

pub In-without : (q p : ℕ) (ps : List ℕ) → In q (without p ps) → In q ps
unfolding without
In-without q p [] k = elim k [ ]
In-without q p (x ∷ xs) k = elim (without_cases p x xs) [
  | inl gone ↦ there x xs (subst (In q) gone k)
  | inr kept ↦ elim (member_cases q x (without p xs) (subst (In q) kept k)) [
    | inl same ↦ subst (λ z. In z (x ∷ xs)) (sym same) (here xs)
    | inr j ↦ there x xs (In-without q p xs j)
  ]
]

without-In : (q p : ℕ) (ps : List ℕ) → In q ps → q ≢ p → In q (without p ps)
without-In q p [] k h = elim k [ ]
without-In q p (_ ∷ xs) (here _) h =
    subst (In q) (sym (without_there p q xs h)) (here (without p xs))
without-In q p (x ∷ xs) (there _ _ k) h = elim (Bool-cases (x == p)) [
  | inl same ↦
      subst (In q) (sym (ap (λ z. without p (z ∷ xs)) (eq_of x p same) ∙ without_here p xs)) k
  | inr differ ↦
      subst (In q) (sym (without_there p x xs (ne_of x p differ)))
        (there x (without p xs) (without-In q p xs k h))
]

length-without : (p : ℕ) (ps : List ℕ) → In p ps → length ps ≡ suc (length (without p ps))
length-without p [] k = elim k [ ]
length-without p (_ ∷ xs) (here _) = ap suc (ap length (sym (without_here p xs)))
length-without p (x ∷ xs) (there _ _ k) = elim (Bool-cases (x == p)) [
  | inl same ↦
      ap suc (ap length (sym (ap (λ z. without p (z ∷ xs)) (eq_of x p same) ∙ without_here p xs)))
  | inr differ ↦
      ap suc (length-without p xs k ∙ ap length (sym (without_there p x xs (ne_of x p differ))))
]

taken_out : (p : ℕ) (ps : List ℕ) → Distinct ps → NotIn p (without p ps)
unfolding without
taken_out p [] d = tt
taken_out p (x ∷ xs) (h, d) = elim (Bool-cases (x == p)) [
  | inl same ↦
      subst (λ z. NotIn p (without p (z ∷ xs))) (sym (eq_of x p same))
        (subst (NotIn p) (sym (without_here p xs)) (subst (λ z. NotIn z xs) (eq_of x p same) h))
  | inr differ ↦
      subst (NotIn p) (sym (without_there p x xs (ne_of x p differ)))
        ((λ e. ne_of x p differ (sym e)), taken_out p xs d)
]

-- A list that an address is not in.
pub outside : (p : ℕ) (ps : List ℕ) → ((q : ℕ) → In q ps → p ≢ q) → NotIn p ps
outside p [] h = tt
outside p (x ∷ xs) h = (h x (here xs), outside p xs (λ q k. h q (there x xs k)))

touched_inside : (q p : ℕ) (ps : List ℕ) → In p ps → In q (p ∷ without p ps) → In q ps
touched_inside q p ps inside j = elim (member_cases q p (without p ps) j) [
  | inl same ↦ subst (λ z. In z ps) (sym same) inside
  | inr k ↦ In-without q p ps k
]

inside_touched : (q p : ℕ) (ps : List ℕ) → In q ps → In q (p ∷ without p ps)
inside_touched q p ps k = elim (Bool-cases (q == p)) [
  | inl same ↦ subst (λ z. In z (p ∷ without p ps)) (sym (eq_of q p same)) (here (without p ps))
  | inr differ ↦ there p (without p ps) (without-In q p ps k (ne_of q p differ))
]

module _ {K V : Type 0} (same : K → K → Bool) (same→≡ : (a b : K) → same a b ≡ true → a ≡ b)
    (same_self : (a : K) → same a a ≡ true) where
  -- A cache without the node of a key.
  abbrev pub drop : LruCache K V → K → ℕ → LruCache K V
  drop c key p = record c {
    inner = λ k. if same k key then none else c.inner k;
    len = c.len - 1;
    links = detach c.links p;
  }

  drop_inner :
      (c : LruCache K V) (key k : K) (p q : ℕ)
      → (drop c key p).inner k ≡ some q
      → (same k key ≡ false) × (c.inner k ≡ some q)
  drop_inner c key k p q h = ground arith

  drop_inner_kept :
      (c : LruCache K V) (key k : K) (p q : ℕ)
      → c.inner k ≡ some q
      → same k key ≢ true
      → (drop c key p).inner k ≡ some q
  drop_inner_kept c key k p q h differ = ground arith

  -- Nodes of two keys are two nodes.
  other_node :
      (c : LruCache K V) (key k : K) (p q : ℕ)
      → ((v : V) × (c.nodes p ≡ some (key, v)))
      → ((v : V) × (c.nodes q ≡ some (k, v)))
      → same k key ≡ false
      → q ≢ p
  other_node c key k p q (v, at_p) (w, at_q) differ = λ e.
      let pairs = some_injective (sym at_p ∙ ap c.nodes (sym e) ∙ at_q) in
      let equal = subst (λ z. same z key ≡ true) (ap (λ z. z.0) pairs) (same_self key) in cc

  pub drop-IsCache :
      (c : LruCache K V) (ps : List ℕ) (key : K) (p : ℕ)
      → IsCache c ps
      → c.inner key ≡ some p
      → IsCache (drop c key p) (without p ps)
  drop-IsCache c ps key p i at_key =
      let (inside, at_p) = i.listed key p at_key in
      let shorter = length-without p ps inside in
      record {
        chain = IsChain-detach c.links p ps i.chain inside;
        owned = λ q j.
            let (k, v, at_q, at_k) = i.owned q (In-without q p ps j) in
            (
              k,
              v,
              at_q,
              drop_inner_kept c key k p q at_k (λ e.
                  NotIn-In p q (without p ps) (taken_out p ps i.chain.2) j
                    (some_injective (sym at_key ∙ ap c.inner (sym (same→≡ k key e)) ∙ at_k))),
            );
        listed = λ k q h.
            let (differ, at_k) = drop_inner c key k p q h in
            let (within, w) = i.listed k q at_k in
            (without-In q p ps within (other_node c key k p q at_p w differ), w);
        used = λ q k. i.used q (In-without q p ps k);
        counted = omega (arith, shorter, i.counted);
        bounded = omega (arith, i.bounded);
        positive = i.positive;
      }

  pub drop_key : (c : LruCache K V) (key : K) (p : ℕ) → (drop c key p).inner key ≡ none
  drop_key c key p = rw (same_self key) refl

  -- What `forget` and `evict` compute to.
  remove_key_found :
      (c : LruCache K V) (key : K) (p : ℕ)
      → c.inner key ≡ some p
      → remove_key same c key
        ≡ record c { inner = λ k. if same k key then none else c.inner k; len = c.len - 1 }
  unfolding remove_key
  remove_key_found c key p h = rw (remove_key, h) refl

  pub forget-drop :
      (c : LruCache K V) (key : K) (p : ℕ) → c.inner key ≡ some p → forget same c key ≡ drop c key p
  unfolding forget remove_key
  forget-drop c key p h = rw (forget, h, remove_key_found c key p h) refl

  pub forget_missing : (c : LruCache K V) (key : K) → c.inner key ≡ none → forget same c key ≡ c
  unfolding forget remove_key
  forget_missing c key h = rw (forget, h) refl

  pub evict-drop :
      (c : LruCache K V) (key : K) (v : V) (t : ℕ)
      → c.nodes t ≡ some (key, v)
      → c.inner key ≡ some t
      → evict same c t ≡ drop c key t
  unfolding evict remove_key
  evict-drop c key v t h k = rw (evict, h, remove_key, k) refl

  -- `remove` of any key keeps the map, the chain and the store in agreement.
  pub remove-IsCache :
      (c : LruCache K V) (ps : List ℕ) (key : K)
      → IsCache c ps
      → (qs : List ℕ) × IsCache (remove same c key).1 qs × ((remove same c key).1.inner key ≡ none)
  unfolding remove
  remove-IsCache c ps key i = elim (Option-cases (c.inner key)) [
    | inl absent ↦
        subst (λ d. (qs : List ℕ) × IsCache d qs × (d.inner key ≡ none))
          (sym (forget_missing c key absent)) (ps, i, absent)
    | inr (p, at_key) ↦
        subst (λ d. (qs : List ℕ) × IsCache d qs × (d.inner key ≡ none))
          (sym (forget-drop c key p at_key))
          (without p ps, drop-IsCache c ps key p i at_key, drop_key c key p)
  ]

  get_found :
      (c : LruCache K V) (key : K) (p : ℕ)
      → c.inner key ≡ some p
      → get same c key ≡ (some p, record c { links = attach (detach c.links p) p })
  unfolding get
  get_found c key p h = rw (get, h) refl

  get_missing : (c : LruCache K V) (key : K) → c.inner key ≡ none → get same c key ≡ (none, c)
  unfolding get
  get_missing c key h = rw (get, h) refl

  touched-IsCache :
      (c : LruCache K V) (ps : List ℕ) (p : ℕ)
      → IsCache c ps
      → In p ps
      → IsCache (record c { links = attach (detach c.links p) p }) (p ∷ without p ps)
  touched-IsCache c ps p i inside =
      let shorter = length-without p ps inside in
      record {
        chain =
            IsChain-attach (detach c.links p) p (without p ps)
              (IsChain-detach c.links p ps i.chain inside) (taken_out p ps i.chain.2);
        owned = λ q j. i.owned q (touched_inside q p ps inside j);
        listed = λ k q h. (inside_touched q p ps (i.listed k q h).0, (i.listed k q h).1);
        used = λ q j. i.used q (touched_inside q p ps inside j);
        counted = omega (arith, shorter, i.counted);
        bounded = i.bounded;
        positive = i.positive;
      }

  -- `get` of any key keeps the map, the chain and the store in agreement; a node that is found stands
  -- in front, and the others behind it in their order.
  pub get-IsCache :
      (c : LruCache K V) (ps : List ℕ) (key : K)
      → IsCache c ps
      → ((c.inner key ≡ none) × IsCache (get same c key).1 ps)
        ⊎ ((p : ℕ) × (c.inner key ≡ some p) × IsCache (get same c key).1 (p ∷ without p ps))
  get-IsCache c ps key i = elim (Option-cases (c.inner key)) [
    | inl absent ↦ inl (absent, subst (λ r. IsCache r.1 ps) (sym (get_missing c key absent)) i)
    | inr (p, at_key) ↦ inr (
      p,
      at_key,
      subst (λ r. IsCache r.1 (p ∷ without p ps)) (sym (get_found c key p at_key))
          (touched-IsCache c ps p i (i.listed key p at_key).0),
    )
  ]
