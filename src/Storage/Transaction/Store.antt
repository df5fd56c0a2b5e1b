-- ===== src/Storage/Transaction/Store.antt =====
-- A store that does not fail, and what the removals of src/storage/mod.rs leave in it.
use kite_sql.Prelude.{
  ℕ, ◌≡◌, ◌≢◌, refl, sym, ap, ◌∙◌, ◌⊎◌, inl, inr, true, Bool-cases, if◌then◌else◌, Option, none,
  some, List, [], ◌∷◌, ◌++◌, length, ◌≤◌, map, ok,
}
use native.Mathlib.Decide.{ℕ_discrete}
use kite_sql.Expression.Range.{included}
use kite_sql.Storage.TableCodec.Bounds.{in_range}
use kite_sql.Storage.Transaction.{KeyValue, remove_all, drop_range}

abbrev pub In : List ℕ → List (List ℕ) → Type 0
In k [] = ⊥
In k (x ∷ xs) = (x ≡ k) ⊎ In k xs

abbrev pub keys : List (List ℕ × List ℕ) → List (List ℕ)
keys entries = map (λ entry. entry.0) entries

-- Bounds that `range` of src/storage/rocksdb.rs serves: they share the four bytes of its prefix
-- extractor.
abbrev pub SharesPrefix : List ℕ × List ℕ → Type 0
SharesPrefix bound =
    (prefix : List ℕ) × (low : List ℕ) × (high : List ℕ) × (4 ≤ length prefix)
    × (bound ≡ (prefix ++ low, prefix ++ high))

-- What RocksDB documents of a transaction's methods, where none of them fails: a key holds what was
-- written last, and an iterator yields the entries of its range
-- when its bounds share a prefix.
pub record Works (db : KeyValue) : Type 0 where
  pub view : db.State → List ℕ → Option (List ℕ)
  pub get_lem : (s : db.State) (k : List ℕ) → db.get s k ≡ ok (view s k)
  pub set_lem :
      (s : db.State) (k v : List ℕ)
      → (s' : db.State) × (db.set s k v ≡ ok s')
        × (view s' k ≡ some v)
        × ((j : List ℕ) → j ≢ k → view s' j ≡ view s j)
  pub remove_lem :
      (s : db.State) (k : List ℕ)
      → (s' : db.State) × (db.remove s k ≡ ok s')
        × (view s' k ≡ none)
        × ((j : List ℕ) → j ≢ k → view s' j ≡ view s j)
  pub range_lem :
      (s : db.State) (bound : List ℕ × List ℕ)
      → SharesPrefix bound
      → (entries : List (List ℕ × List ℕ)) × (db.range s (included bound.0) (included bound.1)
          ≡ ok entries)
        × ((k : List ℕ) → In k (keys entries) → in_range bound k ≡ true)
        × ((k : List ℕ) → in_range bound k ≡ true → view s k ≢ none → In k (keys entries))

pub key_discrete : Discrete (List ℕ)
key_discrete = hlevel (ℕ_discrete)

module _ (db : KeyValue) (w : Works db) where
  open w use {view, remove_lem, range_lem}

  -- The state behind a removal, at the removed key and at any other.
  pub removed :
      (s : db.State) (k : List ℕ)
      → (s' : db.State) × (db.remove s k ≡ ok s')
        × ((j : List ℕ) → (j ≡ k) → view s' j ≡ none)
        × ((j : List ℕ) → j ≢ k → view s' j ≡ view s j)
        × ((j : List ℕ) → view s j ≡ none → view s' j ≡ none)
  removed s k =
      let (s', e, gone, same) = remove_lem s k in
      let at : (j : List ℕ) → (j ≡ k) → view s' j ≡ none = λ j at_k. ap (view s') at_k ∙ gone in
      (s', e, at, same, λ j h. elim (key_discrete j k) [ yes p ↦ at j p | no p ↦ same j p ∙ h ])

  remove_all_lem :
      (s : db.State) (ks : List (List ℕ))
      → (s' : db.State) × (remove_all db s ks ≡ ok s')
        × ((j : List ℕ) → In j ks → view s' j ≡ none)
        × ((j : List ℕ) → ¬ In j ks → view s' j ≡ view s j)
        × ((j : List ℕ) → view s j ≡ none → view s' j ≡ none)
  unfolding remove_all
  remove_all_lem s [] = (s, refl, λ j h. elim h [ ], λ j h. refl, λ j h. h)
  remove_all_lem s (k ∷ ks) =
      let (s1, e1, gone1, same1, stay1) = removed s k in
      let (s2, e2, gone2, same2, stay2) = remove_all_lem s1 ks in
      (
        s2,
        rw e1 e2,
        λ j h. elim h [ inl p ↦ stay2 j (gone1 j (sym p)) | inr q ↦ gone2 j q ],
        λ j h. same2 j (λ q. h (inr q)) ∙ same1 j (λ p. h (inl (sym p))),
        λ j h. stay2 j (stay1 j h),
      )

  -- What a range holds afterwards.
  abbrev pub Cleared : db.State → List ℕ × List ℕ → db.State → Type 0
  Cleared s bound s' = (j : List ℕ) → view s' j ≡ (if in_range bound j then none else view s j)

  Option-none : (o : Option (List ℕ)) → (o ≡ none) ⊎ (o ≢ none)
  Option-none none = inl refl
  Option-none (some a) = inr (λ h. cc)

  pub drop_range_lem :
      (s : db.State) (bound : List ℕ × List ℕ)
      → SharesPrefix bound
      → (s' : db.State) × (drop_range db s bound ≡ ok s') × Cleared s bound s'
  unfolding drop_range
  drop_range_lem s bound shared =
      let (entries, e, within, all) = range_lem s bound shared in
      let (s', e', gone, same, stay) = remove_all_lem s (keys entries) in
      (
        s',
        rw e e',
        λ j. elim (Bool-cases (in_range bound j)) [
          | inl h ↦ rw h (elim (Option-none (view s j)) [
            | inl empty ↦ stay j empty
            | inr there ↦ gone j (all j h there)
          ])
          | inr h ↦ rw h (same j (λ i. cc (within j i)))
        ],
      )
