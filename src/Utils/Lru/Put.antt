-- ===== src/Utils/Lru/Put.antt =====
-- `put` of src/utils/lru.rs: a new node in front, no other of its key, and the last gone when the
-- cache was full.
use kite_sql.Prelude.{
  ℕ, ◌+◌, ◌<◌, ◌≡◌, ◌≢◌, refl, sym, ap, ◌∙◌, ◌⊎◌, inl, inr, Bool, true, false, Bool-cases, leb,
  Option, none, some, Option-cases, List, [], ◌∷◌, arith,
}
use mathlib.Core.Path.{subst}
use kite_sql.Utils.Lru.{
  Links, LruCache, write, clear_links, attach, insert_key, new_node, forget, evict, expulsion, put,
}
use kite_sql.Utils.Lru.Chain.{In, here, there, NotIn, without, Chain, none_some}
use kite_sql.Utils.Lru.Chain.Attach.{IsChain-attach}
use kite_sql.Utils.Lru.Expelled.{
  tail-In, forgotten, expelled, without-tail, expelled_full, expelled_free, expelled_nil,
}
use kite_sql.Utils.Lru.Invariant.{
  IsCache, drop, drop-IsCache, drop_key, forget-drop, forget_missing, evict-drop, In-without,
  member_cases, outside,
}

write_other : {A : Type 0} (m : ℕ → A) (p q : ℕ) (v : A) → q ≢ p → write m p v q ≡ m q
write_other m p q v h = ground (arith, h)

write_at : {A : Type 0} (m : ℕ → A) (p : ℕ) (v : A) → write m p v p ≡ v
write_at m p v = ground arith

links_cleared :
    (l : Links) (p : ℕ) (b : Option ℕ) (ps : List ℕ) (t : Option ℕ)
    → NotIn p ps
    → Chain l.prev l.next b ps t
    → Chain (clear_links l p).prev (clear_links l p).next b ps t
links_cleared l p b [] t out c = c
links_cleared l p b (x ∷ xs) t (out, outs) (c1, c2, c3) = (
  write_other l.prev p x none (λ e. out (sym e)) ∙ c1,
  write_other l.next p x none (λ e. out (sym e)) ∙ c2,
  links_cleared l p (some x) xs t outs c3,
)

-- What taking nodes out leaves: the store, the size, and which keys are not found.
pub record Kept {K V : Type 0} (c d : LruCache K V) (ps qs : List ℕ) : Type 0 where
  pub nodes : d.nodes ≡ c.nodes
  pub fresh : d.fresh ≡ c.fresh
  pub size : d.cap ≡ c.cap
  pub missing : (k : K) → c.inner k ≡ none → d.inner k ≡ none
  pub among : (q : ℕ) → In q qs → In q ps

module _ {K V : Type 0} (same : K → K → Bool) (same→≡ : (a b : K) → same a b ≡ true → a ≡ b)
    (same_self : (a : K) → same a a ≡ true) where
  drop-Kept :
      (c : LruCache K V) (ps : List ℕ) (key : K) (p : ℕ)
      → Kept c (drop same same→≡ same_self c key p) ps (without p ps)
  drop-Kept c ps key p = record {
    nodes = refl;
    fresh = refl;
    size = refl;
    missing = λ k h. ground arith;
    among = λ q j. In-without q p ps j;
  }

  all_the_same : (c : LruCache K V) (ps : List ℕ) → Kept c c ps ps
  all_the_same c ps = record {
    nodes = refl;
    fresh = refl;
    size = refl;
    missing = λ k h. h;
    among = λ q j. j;
  }

  fresh_other :
      (c : LruCache K V) (node : Option (K × V)) (ps : List ℕ) (q : ℕ)
      → IsCache c ps
      → In q ps
      → write c.nodes c.fresh node q ≡ c.nodes q
  fresh_other c node ps q i j =
      let less = i.used q j in write_other c.nodes c.fresh q node (λ e. omega (arith, less, e))

  new_node-IsCache :
      (c : LruCache K V) (ps : List ℕ) (key : K) (value : V)
      → IsCache c ps
      → IsCache (new_node same c key value) ps
  unfolding new_node
  new_node-IsCache c ps key value i =
      let apart = outside c.fresh ps (λ q j e. let less = i.used q j in omega (arith, less, e)) in
      record {
        chain = (
          i.chain.0,
          links_cleared c.links c.fresh none ps c.links.tail apart i.chain.1,
          i.chain.2,
        );
        owned = λ q j.
            let (k, v, at_q, at_k) = i.owned q j in
            (k, v, fresh_other c (some (key, value)) ps q i j ∙ at_q, at_k);
        listed = λ k q h.
            let (inside, w) = i.listed k q h in
            (inside, (w.0, fresh_other c (some (key, value)) ps q i inside ∙ w.1));
        used = λ q j. let less = i.used q j in omega (arith, less);
        counted = i.counted;
        bounded = i.bounded;
        positive = i.positive;
      }

  abbrev Forgot : LruCache K V → List ℕ → K → LruCache K V → Option ℕ → Type 0
  Forgot c ps key d found =
      IsCache d (forgotten found ps) × Kept c d ps (forgotten found ps) × (d.inner key ≡ none)

  forget-IsCache :
      (c : LruCache K V) (ps : List ℕ) (key : K)
      → IsCache c ps
      → Forgot c ps key (forget same c key) (c.inner key)
  forget-IsCache c ps key i = elim (Option-cases (c.inner key)) [
    | inl absent ↦ subst (Forgot c ps key (forget same c key)) (sym absent) (
        subst (λ d. Forgot c ps key d none)
          (sym (forget_missing same same→≡ same_self c key absent)) (i, all_the_same c ps, absent))
    | inr (p, at_key) ↦ subst (Forgot c ps key (forget same c key)) (sym at_key) (
        subst (λ d. Forgot c ps key d (some p))
          (sym (forget-drop same same→≡ same_self c key p at_key))
          (
            drop-IsCache same same→≡ same_self c ps key p i at_key,
            drop-Kept c ps key p,
            drop_key same same→≡ same_self c key p,
          ))
  ]

  expulsion_full :
      (c : LruCache K V) (t : ℕ)
      → c.links.tail ≡ some t
      → leb c.cap c.len ≡ true
      → expulsion same c ≡ evict same c t
  unfolding expulsion
  expulsion_full c t h k = simp (expulsion, h, k) refl

  expulsion_free :
      (c : LruCache K V) (t : ℕ)
      → c.links.tail ≡ some t
      → leb c.cap c.len ≡ false
      → expulsion same c ≡ c
  unfolding expulsion
  expulsion_free c t h k = simp (expulsion, h, k) refl

  expulsion_empty : (c : LruCache K V) → c.links.tail ≡ none → expulsion same c ≡ c
  unfolding expulsion
  expulsion_empty c h = simp (expulsion, h) refl

  abbrev Room : LruCache K V → List ℕ → LruCache K V → List ℕ → Type 0
  Room c ps d qs = IsCache d qs × Kept c d ps qs × (d.len < d.cap)

  expulsion-IsCache :
      (c : LruCache K V) (ps : List ℕ)
      → IsCache c ps
      → Room c ps (expulsion same c) (expelled c.cap ps)
  expulsion-IsCache c [] i =
      subst (λ d. Room c [] d (expelled c.cap [])) (sym (expulsion_empty c i.chain.1))
        (subst (Room c [] c) (sym (expelled_nil c.cap))
          (i, all_the_same c [], omega (arith, i.counted, i.positive)))
  expulsion-IsCache c (x ∷ xs) i =
      let (t, at_t, inside) = tail-In c.links.prev c.links.next x xs none c.links.tail i.chain.1 in
      elim (Bool-cases (leb c.cap c.len)) [
        | inr free ↦
            subst (λ d. Room c (x ∷ xs) d (expelled c.cap (x ∷ xs)))
              (sym (expulsion_free c t at_t free))
              (subst (Room c (x ∷ xs) c)
                (sym (expelled_free c.cap (x ∷ xs) (ap (leb c.cap) (sym i.counted) ∙ free)))
                (i, all_the_same c (x ∷ xs), ground arith))
        | inl full ↦
            let (key, v, node, at_key) = i.owned t inside in
            let ends = subst (Chain c.links.prev c.links.next none (x ∷ xs)) at_t i.chain.1 in
            let shorter = without-tail c.links.prev c.links.next t x xs none ends i.chain.2 in
            subst (λ d. Room c (x ∷ xs) d (expelled c.cap (x ∷ xs)))
              (sym (
                expulsion_full c t at_t full
                ∙ evict-drop same same→≡ same_self c key v t node at_key))
              (subst (Room c (x ∷ xs) (drop same same→≡ same_self c key t))
                (shorter
                  ∙ sym (expelled_full c.cap (x ∷ xs) (ap (leb c.cap) (sym i.counted) ∙ full)))
                (
                  drop-IsCache same same→≡ same_self c (x ∷ xs) key t i at_key,
                  drop-Kept c (x ∷ xs) key t,
                  omega (arith, i.counted, i.bounded),
                ))
      ]

  -- A node that is not in the chain, of a key that is not found, put in front.
  abbrev added : LruCache K V → K → ℕ → LruCache K V
  added d key node = insert_key same (record d { links = attach d.links node }) key node

  added_len :
      (d : LruCache K V) (key : K) (node : ℕ)
      → d.inner key ≡ none
      → (added d key node).len ≡ d.len + 1
  unfolding insert_key
  added_len d key node h = simp h refl

  added_inner_at :
      (d : LruCache K V) (key : K) (node : ℕ) → (added d key node).inner key ≡ some node
  unfolding insert_key
  added_inner_at d key node = rw (same_self key) refl

  added_inner :
      (d : LruCache K V) (key k : K) (node q : ℕ)
      → d.inner key ≡ none
      → d.inner k ≡ some q
      → (added d key node).inner k ≡ some q
  unfolding insert_key
  added_inner d key k node q absent h = elim (Bool-cases (same k key)) [
    | inl equal ↦ none_some (sym absent ∙ ap d.inner (sym (same→≡ k key equal)) ∙ h)
    | inr differ ↦ rw differ h
  ]

  added_inner_cases :
      (d : LruCache K V) (key k : K) (node q : ℕ)
      → (added d key node).inner k ≡ some q
      → ((k ≡ key) × (q ≡ node)) ⊎ (d.inner k ≡ some q)
  unfolding insert_key
  added_inner_cases d key k node q h = elim (Bool-cases (same k key)) [
    | inl equal ↦ inl (same→≡ k key equal, ground arith)
    | inr differ ↦ inr (ground arith)
  ]

  added-IsCache :
      (d : LruCache K V) (qs : List ℕ) (key : K) (value : V) (node : ℕ)
      → IsCache d qs
      → d.inner key ≡ none
      → d.nodes node ≡ some (key, value)
      → NotIn node qs
      → node < d.fresh
      → d.len < d.cap
      → IsCache (added d key node) (node ∷ qs)
  unfolding insert_key
  added-IsCache d qs key value node i absent at_node apart young room =
      let longer = added_len d key node absent in
      record {
        chain = IsChain-attach d.links node qs i.chain apart;
        owned = λ q j. elim (member_cases q node qs j) [
          | inl is_node ↦ (
            key,
            value,
            ap d.nodes is_node ∙ at_node,
            added_inner_at d key node ∙ ap some (sym is_node),
          )
          | inr inside ↦
              (let (k, v, at_q, at_k) = i.owned q inside in
                (k, v, at_q, added_inner d key k node q absent at_k))
        ];
        listed = λ k q h. elim (added_inner_cases d key k node q h) [
          | inl (is_key, is_node) ↦ (
            subst (λ z. In z (node ∷ qs)) (sym is_node) (here qs),
            (value, ap d.nodes is_node ∙ at_node ∙ ap (λ z. some (z, value)) (sym is_key)),
          )
          | inr before ↦ (there node qs (i.listed k q before).0, (i.listed k q before).1)
        ];
        used = λ q j. elim (member_cases q node qs j) [
          | inl is_node ↦ subst (λ z. z < d.fresh) (sym is_node) young
          | inr inside ↦ i.used q inside
        ];
        counted = longer ∙ omega (arith, i.counted);
        bounded = omega (arith, longer, room);
        positive = i.positive;
      }

  new_node_at :
      (c : LruCache K V) (key : K) (value : V)
      → (new_node same c key value).nodes c.fresh ≡ some (key, value)
  unfolding new_node
  new_node_at c key value = write_at c.nodes c.fresh (some (key, value))

  new_node_fresh :
      (c : LruCache K V) (key : K) (value : V) → (new_node same c key value).fresh ≡ c.fresh + 1
  unfolding new_node
  new_node_fresh c key value = refl

  -- `put` on a cache in which the map, the chain and the store agree leaves them in agreement, with no
  -- more entries than the capacity. The new node, which the key then finds and which holds the key and
  -- the value, stands in front; behind it stand the others in their order, without the old node of
  -- the key, and without the last when they filled the cache.
  pub put-IsCache :
      (c : LruCache K V) (ps : List ℕ) (key : K) (value : V)
      → IsCache c ps
      → IsCache (put same c key value).1 (c.fresh ∷ expelled c.cap (forgotten (c.inner key) ps))
        × ((put same c key value).1.inner key ≡ some c.fresh)
        × ((put same c key value).1.nodes c.fresh ≡ some (key, value))
  unfolding put insert_key new_node
  put-IsCache c ps key value i =
      let start = new_node same c key value in
      let ms = forgotten (c.inner key) ps in
      let (i1, kept1, absent) = forget-IsCache start ps key (new_node-IsCache c ps key value i) in
      let (i2, kept2, room) = expulsion-IsCache (forget same start key) ms i1 in
      let last = expulsion same (forget same start key) in
      let qs = expelled (forget same start key).cap ms in
      let gone = kept2.missing key absent in
      let stored = ap (λ m. m c.fresh) (kept2.nodes ∙ kept1.nodes) ∙ new_node_at c key value in
      let grown = kept2.fresh ∙ kept1.fresh ∙ new_node_fresh c key value in
      let apart = outside c.fresh qs (λ q j e.
        let less = i.used q (kept1.among q (kept2.among q j)) in omega (arith, less, e)) in
      (
        subst (λ n. IsCache (added last key c.fresh) (c.fresh ∷ expelled n ms)) kept1.size
            (added-IsCache last qs key value c.fresh i2 gone stored apart (omega (arith, grown))
              room),
        added_inner_at last key c.fresh,
        stored,
      )
