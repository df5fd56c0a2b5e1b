-- ===== src/Utils/Lru.antt =====
-- `LruCache` of src/utils/lru.rs: the nodes lie in a store, each field of theirs a map from the
-- address, and are linked in the order of their last use; `inner` finds the node of a key.
pub mod Chain
pub mod Invariant
pub mod Expelled
pub mod Put
pub mod Examples
use kite_sql.Prelude.{
  ℕ, zero, suc, ◌+◌, ◌-◌, Bool, true, false, ◌==◌, leb, if◌then◌else◌, Option, none, some, Result,
  ok, err, panic, ◌>>=◌, DatabaseError,
}

-- A pointer is an address, which the links are maps from: the ends of the chain, and the nodes before
-- and behind each node.
pub record Links : Type 0 where
  pub head : Option ℕ
  pub tail : Option ℕ
  pub prev : ℕ → Option ℕ
  pub next : ℕ → Option ℕ

-- A field of the node at an address is written.
abbrev pub write : {A : Type 0} → (ℕ → A) → ℕ → A → ℕ → A
write m p v q = if q == p then v else m q

-- `detach`: the node before and the node behind are linked with each other, and the node with none.
unfoldable pub unlink_prev : Links → ℕ → Links
unlink_prev l p = elim (l.prev p) [
  | some q ↦ record l { next = write l.next q (l.next p) }
  | none ↦ record l { head = l.next p }
]

unfoldable pub unlink_next : Links → ℕ → Links
unlink_next l p = elim (l.next p) [
  | some q ↦ record l { prev = write l.prev q (l.prev p) }
  | none ↦ record l { tail = l.prev p }
]

abbrev pub clear_links : Links → ℕ → Links
clear_links l p = record l { prev = write l.prev p none; next = write l.next p none }

unfoldable pub detach : Links → ℕ → Links
unfolding unlink_prev unlink_next
detach l p = clear_links (unlink_next (unlink_prev l p) p) p

-- `attach`: the node becomes the first.
unfoldable pub attach : Links → ℕ → Links
attach l p = elim l.head [
  | some h ↦ record l {
    head = some p;
    prev = write (write l.prev h (some p)) p none;
    next = write l.next p (some h);
  }
  | none ↦ record {
    head = some p;
    tail = some p;
    prev = write l.prev p none;
    next = write l.next p none;
  }
]

-- The keys and values of the nodes, whose addresses below `fresh` are in use. A `HashMap` is what it
-- finds for a key, and its number of entries.
pub record LruCache (K V : Type 0) : Type 0 where
  pub links : Links
  pub inner : K → Option ℕ
  pub len : ℕ
  pub cap : ℕ
  pub nodes : ℕ → Option (K × V)
  pub fresh : ℕ

module _ {K V : Type 0} (same : K → K → Bool) where
  -- `HashMap::remove` and `insert`
  unfoldable pub remove_key : LruCache K V → K → LruCache K V
  remove_key c key = elim (c.inner key) [
    | none ↦ c
    | some p ↦ record c { inner = λ k. if same k key then none else c.inner k; len = c.len - 1 }
  ]

  unfoldable pub insert_key : LruCache K V → K → ℕ → LruCache K V
  insert_key c key p = record c {
    inner = λ k. if same k key then some p else c.inner k;
    len = elim (c.inner key) [ none ↦ c.len + 1 | some q ↦ c.len ];
  }

  unfoldable pub new : ℕ → Result (LruCache K V)
  new cap = elim cap [
    | zero ↦ err DatabaseError.cache_size_over_flow
    | suc n ↦ ok (record {
      links = record { head = none; tail = none; prev = λ p. none; next = λ p. none };
      inner = λ k. none;
      len = 0;
      cap = suc n;
      nodes = λ p. none;
      fresh = 0;
    })
  ]

  -- `Box::leak(Box::new(Node::new(key, value)))`
  unfoldable pub new_node : LruCache K V → K → V → LruCache K V
  new_node c key value = record c {
    nodes = write c.nodes c.fresh (some (key, value));
    links = clear_links c.links c.fresh;
    fresh = c.fresh + 1;
  }

  -- A node that was found is taken out of the map and of the chain.
  unfoldable pub forget : LruCache K V → K → LruCache K V
  unfolding remove_key detach
  forget c key = elim (c.inner key) [
    | none ↦ c
    | some p ↦ (let d = remove_key c key in record d { links = detach d.links p })
  ]

  -- `expulsion`: the last node goes when the cache is full. Its key is read from the node.
  unfoldable pub evict : LruCache K V → ℕ → LruCache K V
  unfolding remove_key detach
  evict c t = elim (c.nodes t) [
    | none ↦ record c { links = detach c.links t }
    | some (key, value) ↦ remove_key (record c { links = detach c.links t }) key
  ]

  unfoldable pub expulsion : LruCache K V → LruCache K V
  unfolding evict
  expulsion c = elim c.links.tail [ none ↦ c | some t ↦ if leb c.cap c.len then evict c t else c ]

  abbrev pub value_at : LruCache K V → Option ℕ → Option V
  value_at c none = none
  value_at c (some p) = elim (c.nodes p) [ none ↦ none | some (key, value) ↦ some value ]

  -- The new node takes the place of the old one of its key.
  unfoldable pub put : LruCache K V → K → V → Option V × LruCache K V
  unfolding new_node forget expulsion attach insert_key
  put c key value =
      let node = c.fresh in
      let d = expulsion (forget (new_node c key value) key) in
      let e = record d { links = attach d.links node } in
      (value_at c (c.inner key), insert_key e key node)

  -- `get_node` and `get`: the node that is found becomes the first.
  unfoldable pub get : LruCache K V → K → Option ℕ × LruCache K V
  unfolding detach attach
  get c key = elim (c.inner key) [
    | none ↦ (none, c)
    | some p ↦ (some p, record c { links = attach (detach c.links p) p })
  ]

  unfoldable pub remove : LruCache K V → K → Option V × LruCache K V
  unfolding forget
  remove c key = (value_at c (c.inner key), forget c key)

  -- The value comes from `fn_once`, whose error leaves the cache as it is.
  unfoldable pub get_or_insert : LruCache K V → K → (K → Result V) → Result ℕ × LruCache K V
  unfolding get put
  get_or_insert c key fn_once = elim (c.inner key) [
    | some p ↦ (ok p, (get c key).1)
    | none ↦ elim (fn_once key) [
      | ok value ↦ (ok c.fresh, (put c key value).1)
      | err e ↦ (err e, c)
      | panic ↦ (panic, c)
    ]
  ]
