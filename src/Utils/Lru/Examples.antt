-- ===== src/Utils/Lru/Examples.antt =====
-- A cache of two entries, and the theorems on it.
use kite_sql.Prelude.{
  ℕ, ◌≡◌, ◌⊎◌, refl, true, ◌==◌, if◌then◌else◌, none, some, List, [], ◌∷◌, ok, arith,
}
use kite_sql.Utils.Lru.{
  Links, LruCache, new, put, get, remove, new_node, forget, expulsion, evict, remove_key,
  insert_key, detach, attach, unlink_prev, unlink_next,
}
use kite_sql.Utils.Lru.Chain.{without, IsChain}
use kite_sql.Utils.Lru.Invariant.{IsCache, get-IsCache, remove-IsCache}
use kite_sql.Utils.Lru.Put.{put-IsCache}
use kite_sql.Utils.Lru.Expelled.{expelled, forgotten}

abbrev empty : LruCache ℕ ℕ
empty = record {
  links = record { head = none; tail = none; prev = λ p. none; next = λ p. none };
  inner = λ k. none;
  len = 0;
  cap = 2;
  nodes = λ p. none;
  fresh = 0;
}

new_run : new {V = ℕ} ◌==◌ 2 ≡ ok empty
unfolding new
new_run = refl

empty-IsCache : IsCache empty []
empty-IsCache = record {
  chain = (refl, refl, tt);
  owned = λ p j. elim j [ ];
  listed = λ k p h. cc;
  used = λ p j. elim j [ ];
  counted = refl;
  bounded = omega arith;
  positive = omega arith;
}

same_number : (a b : ℕ) → (a == b) ≡ true → a ≡ b
same_number a b h = ground arith

number_self : (a : ℕ) → (a == a) ≡ true
number_self a = ground arith

put-IsCache_example :
    IsCache (put ◌==◌ empty 5 50).1 (0 ∷ expelled 2 (forgotten none []))
    × ((put ◌==◌ empty 5 50).1.inner 5 ≡ some 0)
    × ((put ◌==◌ empty 5 50).1.nodes 0 ≡ some (5, 50))
put-IsCache_example = put-IsCache ◌==◌ same_number number_self empty [] 5 50 empty-IsCache

-- A cache of one entry.
one_entry : IsCache (put ◌==◌ empty 5 50).1 (0 ∷ [])
one_entry = (put-IsCache ◌==◌ same_number number_self empty [] 5 50 empty-IsCache).0

get-IsCache_example :
    (((put ◌==◌ empty 5 50).1.inner 5 ≡ none)
      × IsCache (get ◌==◌ (put ◌==◌ empty 5 50).1 5).1 (0 ∷ []))
    ⊎ ((p : ℕ) × ((put ◌==◌ empty 5 50).1.inner 5 ≡ some p)
        × IsCache (get ◌==◌ (put ◌==◌ empty 5 50).1 5).1 (p ∷ without p (0 ∷ [])))
get-IsCache_example =
    get-IsCache ◌==◌ same_number number_self (put ◌==◌ empty 5 50).1 (0 ∷ []) 5 one_entry

remove-IsCache_example :
    (qs : List ℕ) × IsCache (remove ◌==◌ (put ◌==◌ empty 5 50).1 5).1 qs
    × ((remove ◌==◌ (put ◌==◌ empty 5 50).1 5).1.inner 5 ≡ none)
remove-IsCache_example =
    remove-IsCache ◌==◌ same_number number_self (put ◌==◌ empty 5 50).1 (0 ∷ []) 5 one_entry

abbrev two_nodes : Links
two_nodes = record {
  head = some 0;
  tail = some 1;
  prev = λ p. if p == 1 then some 0 else none;
  next = λ p. if p == 0 then some 1 else none;
}

two_nodes-IsChain : IsChain two_nodes (0 ∷ 1 ∷ [])
two_nodes-IsChain =
    (refl, (refl, refl, (refl, refl, refl)), (((λ e. omega (arith, e)), tt), (tt, tt)))

-- The third entry drops the least recently used: the second, since the first was read after it.
abbrev full : LruCache ℕ ℕ
full = (put ◌==◌ (get ◌==◌ (put ◌==◌ (put ◌==◌ empty 5 50).1 6 60).1 5).1 7 70).1

evicted : (full.inner 5 ≡ some 0) × (full.inner 6 ≡ none) × (full.inner 7 ≡ some 2) × (full.len ≡ 2)
unfolding put get new_node forget expulsion evict remove_key insert_key detach attach unlink_prev
    unlink_next
evicted = (refl, refl, refl, refl)
