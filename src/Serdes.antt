-- ===== src/Serdes.antt =====
-- The trait `ReferenceSerialization` and `ReferenceTables` of src/serdes/mod.rs: a value is written
-- with a table of the table names that its references stand for, and read back by the names.
pub mod Scalars
pub mod Containers
pub mod Columns
pub mod Names
pub mod Examples
use kite_sql.Prelude.{
  ℕ, zero, suc, ◌+◌, ◌<◌, ◌≤◌, ◌≡◌, Bool, true, false, ◌&&◌, ◌==◌, Option, none, some, List, [],
  ◌∷◌, ◌++◌, length, get_elem?, Result, ok, err, panic, ◌>>=◌, DatabaseError,
}
use kite_sql.Types.Bytes.{to_le_bytes, read_exact, read_word, byte_range}
use kite_sql.Types.Utf8.{is_utf8}

-- `tables` of `ReferenceTables`, the names as bytes.
abbrev pub ReferenceTables : Type 0
ReferenceTables = List (List ℕ)

-- The equality of names.
unfoldable pub same_name : List ℕ → List ℕ → Bool
same_name [] [] = true
same_name (x ∷ xs) (y ∷ ys) = (x == y) && same_name xs ys
same_name _ _ = false

unfoldable pub get : ReferenceTables → ℕ → Result (List ℕ)
get tables i = elim (get_elem? tables i) [ none ↦ panic | some name ↦ ok name ]

-- The search of `push_or_replace`, from the index `i` on.
unfoldable pub position : ℕ → ReferenceTables → List ℕ → Option ℕ
unfolding same_name
position i [] name = none
position i (item ∷ items) name =
    let rest = position (suc i) items name in
    elim (same_name item name) [ true ↦ some i | false ↦ rest ]

unfoldable pub push_or_replace : ReferenceTables → List ℕ → ℕ × ReferenceTables
unfolding position
push_or_replace tables name = elim (position 0 tables name) [
  | some i ↦ (i, tables)
  | none ↦ (length tables, tables ++ (name ∷ []))
]

unfoldable pub names_to_raw : ReferenceTables → List ℕ
names_to_raw [] = []
names_to_raw (name ∷ names) = to_le_bytes 4 (length name) ++ (name ++ names_to_raw names)

unfoldable pub to_raw : ReferenceTables → List ℕ
unfolding names_to_raw
to_raw tables = to_le_bytes 4 (length tables) ++ names_to_raw tables

-- The loop of `from_raw`; `String::from_utf8(bytes).unwrap()` panics on what is no text.
abbrev pub text_of : List ℕ → Result (List ℕ)
text_of bs = elim (is_utf8 bs) [ true ↦ ok bs | false ↦ panic ]

unfoldable pub names_from_raw : ℕ → List ℕ → Result (ReferenceTables × List ℕ)
names_from_raw zero bs = ok ([], bs)
names_from_raw (suc n) bs = do
  (len, rest) ← read_word 4 bs
  (raw, rest) ← read_exact len rest
  name ← text_of raw
  (names, rest) ← names_from_raw n rest
  ok (name ∷ names, rest)

unfoldable pub from_raw : List ℕ → Result (ReferenceTables × List ℕ)
unfolding names_from_raw
from_raw bs = do (tables_len, rest) ← read_word 4 bs; names_from_raw tables_len rest

-- `ReferenceSerialization`: `encode` appends bytes and may add names, `decode` reads with the names
-- and leaves the bytes behind. The tables that `drive` reads columns from are left out.
pub record ReferenceSerialization (V : Type 0) : Type 0 where
  pub encode : V → Bool → ReferenceTables → Result (List ℕ × ReferenceTables)
  pub decode : List ℕ → ReferenceTables → Result (V × List ℕ)

-- The names that are added come behind the others.
abbrev pub Extends : ReferenceTables → ReferenceTables → Type 0
Extends later earlier = (more : ReferenceTables) × (later ≡ earlier ++ more)

-- A value is read back from its bytes, whatever follows them, with the names that its encoding left
-- or more of them, as long as a `u32` counts the names.
abbrev pub ReadBack :
    {V : Type 0} → ReferenceSerialization V → V → List ℕ → ReferenceTables → Type 0
ReadBack c v bs tables =
    (later : ReferenceTables) (rest : List ℕ)
    → Extends later tables
    → length later ≤ byte_range 4
    → c.decode (bs ++ rest) later ≡ ok (v, rest)

abbrev pub RoundTripAt :
    {V : Type 0} → ReferenceSerialization V → V → Bool → ReferenceTables → Type 0
RoundTripAt c v is_direct tables =
    (bs : List ℕ) × (after : ReferenceTables) × (c.encode v is_direct tables ≡ ok (bs, after))
    × Extends after tables
    × ReadBack c v bs after

pub record RoundTrip {V : Type 0} (c : ReferenceSerialization V) (IsValid : V → Type 0)
    : Type 0 where
  pub round_trip :
      (v : V) (is_direct : Bool) (tables : ReferenceTables)
      → IsValid v
      → RoundTripAt c v is_direct tables
