-- ===== src/Serdes/Names.antt =====
-- `ReferenceTables` of src/serdes/mod.rs: the names have one index each, and survive storage.
use kite_sql.Prelude.{
  ℕ, zero, suc, ◌+◌, ◌<◌, ◌≡◌, ◌≢◌, refl, sym, ap, ◌∙◌, ◌⊎◌, inl, inr, true, Bool-cases, none, some,
  Option-cases, List, [], ◌∷◌, ◌++◌, length, get_elem?, ok, arith,
}
use mathlib.Core.Path.{subst}
use mathlib.Core.List.{append_assoc, append-nil}
use kite_sql.Types.Bytes.{to_le_bytes, byte_range, read_word-to_le_bytes, read_exact-append}
use kite_sql.Types.Utf8.{is_utf8}
use kite_sql.Serdes.{
  ReferenceTables, same_name, get, position, push_or_replace, Extends, names_to_raw, to_raw,
  names_from_raw, from_raw, text_of,
}

same_name→≡ : (x y : List ℕ) → same_name x y ≡ true → x ≡ y
unfolding same_name
same_name→≡ [] [] h = refl
same_name→≡ [] (y ∷ ys) h = cc
same_name→≡ (x ∷ xs) [] h = cc
same_name→≡ (x ∷ xs) (y ∷ ys) h = ground (arith, same_name→≡ xs ys)

same_name_refl : (x : List ℕ) → same_name x x ≡ true
unfolding same_name
same_name_refl [] = refl
same_name_refl (x ∷ xs) = ground (arith, same_name_refl xs)

-- An index that the search returns has the name.
position-some :
    (i : ℕ) (tables : ReferenceTables) (name : List ℕ) (j : ℕ)
    → position i tables name ≡ some j
    → (k : ℕ) × (j ≡ k + i) × (get_elem? tables k ≡ some name)
unfolding position
position-some i [] name j h = cc
position-some i (item ∷ items) name j h = elim (Bool-cases (same_name item name)) [
  | inl same ↦ (zero, ground arith, ap some (same_name→≡ item name same))
  | inr differ ↦
      let (k, shifted, found) = position-some (suc i) items name j (ground arith) in
      (suc k, omega arith, found)
]

get_elem?-append :
    (xs ys : ReferenceTables) (k : ℕ) (name : List ℕ)
    → get_elem? xs k ≡ some name
    → get_elem? (xs ++ ys) k ≡ some name
get_elem?-append [] ys k name h = cc
get_elem?-append (x ∷ xs) ys zero name h = h
get_elem?-append (x ∷ xs) ys (suc k) name h = get_elem?-append xs ys k name h

get_elem?_last :
    (xs : ReferenceTables) (name : List ℕ) → get_elem? (xs ++ (name ∷ [])) (length xs) ≡ some name
get_elem?_last [] name = refl
get_elem?_last (x ∷ xs) name = get_elem?_last xs name

some_injective : {A : Type 0} {x y : A} → some x ≡ some y → x ≡ y
some_injective h = cc

position-none :
    (i : ℕ) (tables : ReferenceTables) (name : List ℕ) (k : ℕ)
    → position i tables name ≡ none
    → get_elem? tables k ≢ some name
unfolding position
position-none i [] name k h = λ found. cc
position-none i (item ∷ items) name zero h = λ found.
    let same = same_name_refl name in
    let here = subst (λ x. same_name x name ≡ true) (sym (some_injective found)) same in
    ground arith
position-none i (item ∷ items) name (suc k) h = elim (Bool-cases (same_name item name)) [
  | inl same ↦ ground arith
  | inr differ ↦ position-none (suc i) items name k (ground arith)
]

-- What an index of a longer table holds.
get_elem?_snoc :
    (xs : ReferenceTables) (name other : List ℕ) (k : ℕ)
    → get_elem? (xs ++ (name ∷ [])) k ≡ some other
    → (get_elem? xs k ≡ some other) ⊎ ((k ≡ length xs) × (other ≡ name))
get_elem?_snoc [] name other zero h = inr (refl, cc)
get_elem?_snoc [] name other (suc k) h = cc
get_elem?_snoc (x ∷ xs) name other zero h = inl h
get_elem?_snoc (x ∷ xs) name other (suc k) h = elim (get_elem?_snoc xs name other k h) [
  | inl before ↦ inl before
  | inr (last, same) ↦ inr (ap suc last, same)
]

-- A name has at most one index.
abbrev pub IsUnique : ReferenceTables → Type 0
IsUnique tables =
    (i j : ℕ) (name : List ℕ)
    → get_elem? tables i ≡ some name
    → get_elem? tables j ≡ some name
    → i ≡ j

push_or_replace-some :
    (tables : ReferenceTables) (name : List ℕ) (i : ℕ)
    → position 0 tables name ≡ some i
    → push_or_replace tables name ≡ (i, tables)
unfolding push_or_replace
push_or_replace-some tables name i h = rw (push_or_replace, h) refl

push_or_replace-none :
    (tables : ReferenceTables) (name : List ℕ)
    → position 0 tables name ≡ none
    → push_or_replace tables name ≡ (length tables, tables ++ (name ∷ []))
unfolding push_or_replace
push_or_replace-none tables name h = rw (push_or_replace, h) refl

get_of-get_elem? :
    (tables : ReferenceTables) (i : ℕ) (name : List ℕ)
    → get_elem? tables i ≡ some name
    → get tables i ≡ ok name
unfolding get
get_of-get_elem? tables i name h = rw (get, h) refl

append-IsUnique :
    (tables : ReferenceTables) (name : List ℕ)
    → IsUnique tables
    → position 0 tables name ≡ none
    → IsUnique (tables ++ (name ∷ []))
append-IsUnique tables name unique missing = λ i j other at_i at_j.
    elim (get_elem?_snoc tables name other i at_i) [
      | inl before_i ↦ elim (get_elem?_snoc tables name other j at_j) [
        | inl before_j ↦ unique i j other before_i before_j
        | inr (last_j, same) ↦
            absurd (position-none 0 tables name i missing (before_i ∙ ap some same))
      ]
      | inr (last_i, same) ↦ elim (get_elem?_snoc tables name other j at_j) [
        | inl before_j ↦ absurd (position-none 0 tables name j missing (before_j ∙ ap some same))
        | inr (last_j, same) ↦ last_i ∙ sym last_j
      ]
    ]

-- Where a name is placed: at its index, behind the others.
abbrev pub IsPlaced : ReferenceTables → List ℕ → ℕ × ReferenceTables → Type 0
IsPlaced tables name (i, after) = (get after i ≡ ok name) × Extends after tables

pub push_or_replace-IsPlaced :
    (tables : ReferenceTables) (name : List ℕ) → IsPlaced tables name (push_or_replace tables name)
push_or_replace-IsPlaced tables name = elim (Option-cases (position 0 tables name)) [
  | inr (i, found) ↦
      let (k, shifted, at_k) = position-some 0 tables name i found in
      let at_i = subst (λ n. get_elem? tables n ≡ some name) (omega (arith, shifted)) at_k in
      subst (IsPlaced tables name) (sym (push_or_replace-some tables name i found))
        (get_of-get_elem? tables i name at_i, ([], sym (append-nil tables)))
  | inl missing ↦ subst (IsPlaced tables name) (sym (push_or_replace-none tables name missing)) (
    get_of-get_elem? (tables ++ (name ∷ [])) (length tables) name (get_elem?_last tables name),
    (name ∷ [], refl),
  )
]

-- `push_or_replace` returns an index at which the tables then hold the name, keeps the index of
-- every other name, and keeps the names apart.
pub push_or_replace-IsUnique :
    (tables : ReferenceTables) (name : List ℕ)
    → IsUnique tables
    → IsPlaced tables name (push_or_replace tables name) × IsUnique (push_or_replace tables name).1
push_or_replace-IsUnique tables name unique = (
  push_or_replace-IsPlaced tables name,
  elim (Option-cases (position 0 tables name)) [
    | inr (i, found) ↦
        subst (λ r. IsUnique r.1) (sym (push_or_replace-some tables name i found)) unique
    | inl missing ↦
        subst (λ r. IsUnique r.1) (sym (push_or_replace-none tables name missing))
          (append-IsUnique tables name unique missing)
  ],
)

-- An index stays where it is when names are added.
pub get-Extends :
    (earlier later : ReferenceTables) (i : ℕ) (name : List ℕ)
    → Extends later earlier
    → get earlier i ≡ ok name
    → get later i ≡ ok name
unfolding get
get-Extends earlier later i name (more, grown) h = elim (Option-cases (get_elem? earlier i)) [
  | inl nothing ↦ ground arith
  | inr (found, at_i) ↦ let whole = get_elem?-append earlier more i found at_i in ground arith
]

-- The names of stored tables: texts whose lengths a `u32` counts.
pub data AreNames : ReferenceTables → Type 0 where
  no_names : AreNames []
  with_name :
      (name : List ℕ) (names : ReferenceTables)
      → is_utf8 name ≡ true
      → length name < byte_range 4
      → AreNames names
      → AreNames (name ∷ names)

text_of-is_utf8 : (bs : List ℕ) → is_utf8 bs ≡ true → text_of bs ≡ ok bs
text_of-is_utf8 bs h = ground arith

names_from_raw-names_to_raw :
    (tables : ReferenceTables) (rest : List ℕ)
    → AreNames tables
    → names_from_raw (length tables) (names_to_raw tables ++ rest) ≡ ok (tables, rest)
unfolding names_from_raw names_to_raw
names_from_raw-names_to_raw _ rest no_names = refl
names_from_raw-names_to_raw _ rest (with_name name names text short others) =
    rw
      (
        append_assoc (to_le_bytes 4 (length name)) (name ++ names_to_raw names) rest,
        append_assoc name (names_to_raw names) rest,
        read_word-to_le_bytes 4 (length name) (name ++ (names_to_raw names ++ rest)) short,
        read_exact-append name (names_to_raw names ++ rest),
        text_of-is_utf8 name text,
        names_from_raw-names_to_raw names rest others,
      )
      refl

-- The tables are read back from what `to_raw` writes, whatever follows it, when their number and the
-- lengths of their names fit in a `u32` and the names are texts.
pub from_raw-to_raw_names :
    (tables : ReferenceTables) (rest : List ℕ)
    → length tables < byte_range 4
    → AreNames tables
    → from_raw (to_raw tables ++ rest) ≡ ok (tables, rest)
unfolding from_raw to_raw
from_raw-to_raw_names tables rest short names =
    rw
      (
        append_assoc (to_le_bytes 4 (length tables)) (names_to_raw tables) rest,
        read_word-to_le_bytes 4 (length tables) (names_to_raw tables ++ rest) short,
      )
      (names_from_raw-names_to_raw tables rest names)
