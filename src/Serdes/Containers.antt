-- ===== src/Serdes/Containers.antt =====
-- src/serdes/option.rs, pair.rs, slice.rs, vec.rs, bound.rs and ptr.rs: the values that hold others.
use kite_sql.Prelude.{
  ℕ, zero, suc, ◌<◌, ◌≤◌, ◌≡◌, refl, ap, ◌∙◌, Bool, Option, none, some, ◌==◌, if◌then◌else◌, List,
  [], ◌∷◌, ◌++◌, length, Result, ok, panic, ◌>>=◌, arith,
}
use mathlib.Core.List.{append_assoc}
use kite_sql.Types.Bytes.{read_word, byte_range}
use kite_sql.Expression.Range.{Bound, included, excluded, unbounded}
use kite_sql.Serdes.{ReferenceTables, ReferenceSerialization, RoundTrip, RoundTripAt, Extends}
use kite_sql.Serdes.Scalars.{usize, usize-RoundTrip, unchanged, read_word_tag}

-- What is written behind a byte.
abbrev pub tagged : ℕ → Result (List ℕ × ReferenceTables) → Result (List ℕ × ReferenceTables)
tagged tag written = do (bs, after) ← written; ok (tag ∷ bs, after)

module _ {V : Type 0} (c : ReferenceSerialization V) where
  unfoldable pub encode_option :
      Option V → Bool → ReferenceTables → Result (List ℕ × ReferenceTables)
  encode_option none is_direct tables = ok (0 ∷ [], tables)
  encode_option (some v) is_direct tables = tagged 1 (c.encode v is_direct tables)

  unfoldable pub option : ReferenceSerialization (Option V)
  unfolding encode_option
  option = record {
    encode = encode_option;
    decode = λ bs tables. (do
      (tag, rest) ← read_word 1 bs
      let some_value = (do (v, rest) ← c.decode rest tables; ok (some v, rest))
      if tag == 0 then ok (none, rest) else if tag == 1 then some_value else panic);
  }

  unfoldable pub encode_bound : Bound V → Bool → ReferenceTables → Result (List ℕ × ReferenceTables)
  encode_bound (included v) is_direct tables = tagged 0 (c.encode v is_direct tables)
  encode_bound (excluded v) is_direct tables = tagged 1 (c.encode v is_direct tables)
  encode_bound unbounded is_direct tables = ok (2 ∷ [], tables)

  unfoldable pub bound : ReferenceSerialization (Bound V)
  unfolding encode_bound
  bound = record {
    encode = encode_bound;
    decode = λ bs tables. (do
      (tag, rest) ← read_word 1 bs
      let of_included = (do (v, rest) ← c.decode rest tables; ok (included v, rest))
      let of_excluded = (do (v, rest) ← c.decode rest tables; ok (excluded v, rest))
      if tag == 0
          then of_included
          else if tag == 1
          then of_excluded
          else if tag == 2
          then ok (unbounded, rest)
          else panic);
  }

  -- `Arc` and `Box`: the value itself.
  unfoldable pub ptr : ReferenceSerialization V
  ptr = record { encode = c.encode; decode = c.decode }

  -- The loops over the elements.
  unfoldable pub encode_all : List V → Bool → ReferenceTables → Result (List ℕ × ReferenceTables)
  encode_all [] is_direct tables = ok ([], tables)
  encode_all (v ∷ vs) is_direct tables = do
    (bs, tables) ← c.encode v is_direct tables
    (more, tables) ← encode_all vs is_direct tables
    ok (bs ++ more, tables)

  unfoldable pub decode_all : ℕ → List ℕ → ReferenceTables → Result (List V × List ℕ)
  decode_all zero bs tables = ok ([], bs)
  decode_all (suc n) bs tables = do
    (v, rest) ← c.decode bs tables
    (vs, rest) ← decode_all n rest tables
    ok (v ∷ vs, rest)

  unfoldable pub vec : ReferenceSerialization (List V)
  unfolding encode_all decode_all
  vec = record {
    encode = λ vs is_direct tables. (do
      (len, tables) ← usize.encode (length vs) is_direct tables
      (bs, tables) ← encode_all vs is_direct tables
      ok (len ++ bs, tables));
    decode = λ bs tables. (do (len, rest) ← usize.decode bs tables; decode_all len rest tables);
  }

module _ {A B : Type 0} (c : ReferenceSerialization A) (d : ReferenceSerialization B) where
  unfoldable pub pair : ReferenceSerialization (A × B)
  pair = record {
    encode = λ (v1, v2) is_direct tables. (do
      (bs, tables) ← c.encode v1 is_direct tables
      (more, tables) ← d.encode v2 is_direct tables
      ok (bs ++ more, tables));
    decode = λ bs tables. (do
      (v1, rest) ← c.decode bs tables
      (v2, rest) ← d.decode rest tables
      ok ((v1, v2), rest));
  }

-- `[V; 2]`
unfoldable pub slice : {V : Type 0} → ReferenceSerialization V → ReferenceSerialization (V × V)
unfolding pair
slice c = pair c c

pub Extends_trans : (a b c : ReferenceTables) → Extends b a → Extends c b → Extends c a
Extends_trans a b c (m, p) (n, q) = (m ++ n, q ∙ ap (λ x. x ++ n) p ∙ append_assoc a m n)

-- The values inside a container.
pub data InOption {V : Type 0} (IsValid : V → Type 0) : Option V → Type 0 where
  in_none : InOption IsValid none
  in_some : (v : V) → IsValid v → InOption IsValid (some v)

pub data InBound {V : Type 0} (IsValid : V → Type 0) : Bound V → Type 0 where
  in_included : (v : V) → IsValid v → InBound IsValid (included v)
  in_excluded : (v : V) → IsValid v → InBound IsValid (excluded v)
  in_unbounded : InBound IsValid unbounded

pub data InList {V : Type 0} (IsValid : V → Type 0) : List V → Type 0 where
  in_nil : InList IsValid []
  in_cons : (v : V) (vs : List V) → IsValid v → InList IsValid vs → InList IsValid (v ∷ vs)

module _ {V : Type 0} {c : ReferenceSerialization V} {IsValid : V → Type 0}
    (law : RoundTrip c IsValid) where
  option-RoundTripAt :
      (o : Option V) (is_direct : Bool) (tables : ReferenceTables)
      → InOption IsValid o
      → RoundTripAt (option c) o is_direct tables
  unfolding option encode_option
  option-RoundTripAt _ is_direct tables in_none = (
    0 ∷ [],
    tables,
    refl,
    unchanged tables,
    λ later rest e k. rw (read_word_tag 0 rest (omega arith)) refl,
  )
  option-RoundTripAt _ is_direct tables (in_some v h) =
      let (bs, after, written, more, read) = law.round_trip v is_direct tables h in
      (
        1 ∷ bs,
        after,
        rw written refl,
        more,
        λ later rest e k. rw (read_word_tag 1 (bs ++ rest) (omega arith), read later rest e k) refl,
      )

  pub option-RoundTrip : RoundTrip (option c) (InOption IsValid)
  option-RoundTrip = record { round_trip = option-RoundTripAt }

  bound-RoundTripAt :
      (o : Bound V) (is_direct : Bool) (tables : ReferenceTables)
      → InBound IsValid o
      → RoundTripAt (bound c) o is_direct tables
  unfolding bound encode_bound
  bound-RoundTripAt _ is_direct tables in_unbounded = (
    2 ∷ [],
    tables,
    refl,
    unchanged tables,
    λ later rest e k. rw (read_word_tag 2 rest (omega arith)) refl,
  )
  bound-RoundTripAt _ is_direct tables (in_included v h) =
      let (bs, after, written, more, read) = law.round_trip v is_direct tables h in
      (
        0 ∷ bs,
        after,
        rw written refl,
        more,
        λ later rest e k. rw (read_word_tag 0 (bs ++ rest) (omega arith), read later rest e k) refl,
      )
  bound-RoundTripAt _ is_direct tables (in_excluded v h) =
      let (bs, after, written, more, read) = law.round_trip v is_direct tables h in
      (
        1 ∷ bs,
        after,
        rw written refl,
        more,
        λ later rest e k. rw (read_word_tag 1 (bs ++ rest) (omega arith), read later rest e k) refl,
      )

  pub bound-RoundTrip : RoundTrip (bound c) (InBound IsValid)
  bound-RoundTrip = record { round_trip = bound-RoundTripAt }

  -- The elements are read in the order in which they were written, and all with the names of the last.
  encode_all-decode_all :
      (vs : List V) (is_direct : Bool) (tables : ReferenceTables)
      → InList IsValid vs
      → (bs : List ℕ) × (after : ReferenceTables) × (encode_all c vs is_direct tables
          ≡ ok (bs, after))
        × Extends after tables
        × ((later : ReferenceTables) (rest : List ℕ)
            → Extends later after
            → length later ≤ byte_range 4
            → decode_all c (length vs) (bs ++ rest) later ≡ ok (vs, rest))
  unfolding encode_all decode_all
  encode_all-decode_all _ is_direct tables in_nil =
      ([], tables, refl, unchanged tables, λ later rest e k. refl)
  encode_all-decode_all _ is_direct tables (in_cons v vs h hs) =
      let (bs, middle, written, grown, read) = law.round_trip v is_direct tables h in
      let (more, after, written_all, grown_all, read_all) =
        encode_all-decode_all vs is_direct middle hs in
      (
        bs ++ more,
        after,
        rw (written, written_all) refl,
        Extends_trans tables middle after grown grown_all,
        λ later rest e k.
            rw
              (
                append_assoc bs more rest,
                read later (more ++ rest) (Extends_trans middle after later grown_all e) k,
                read_all later rest e k,
              )
              refl,
      )

  -- A list of valid values, of a length that a `u32` counts, is read back with the names that its
  -- encoding left, or more of them, whatever follows its bytes.
  pub vec-RoundTrip : RoundTrip (vec c) (λ vs. (length vs < byte_range 4) × InList IsValid vs)
  unfolding vec
  vec-RoundTrip = record {
    round_trip = λ vs is_direct tables (short, valid).
        let (len, counted, written_len, grown_len, read_len) =
          usize-RoundTrip.round_trip (length vs) is_direct tables short in
        let (bs, after, written, grown, read) = encode_all-decode_all vs is_direct counted valid in
        (
          len ++ bs,
          after,
          rw (written_len, written) refl,
          Extends_trans tables counted after grown_len grown,
          λ later rest e k.
              rw
                (
                  append_assoc len bs rest,
                  read_len later (bs ++ rest) (Extends_trans counted after later grown e) k,
                  read later rest e k,
                )
                refl,
        );
  }

module _ {A B : Type 0} {c : ReferenceSerialization A} {d : ReferenceSerialization B}
    {IsFirst : A → Type 0} {IsSecond : B → Type 0} (law : RoundTrip c IsFirst)
    (other : RoundTrip d IsSecond) where
  pub pair-RoundTrip : RoundTrip (pair c d) (λ (a, b). IsFirst a × IsSecond b)
  unfolding pair
  pair-RoundTrip = record {
    round_trip = λ (a, b) is_direct tables (h, k).
        let (bs, middle, written, grown, read) = law.round_trip a is_direct tables h in
        let (more, after, written_more, grown_more, read_more) =
          other.round_trip b is_direct middle k in
        (
          bs ++ more,
          after,
          rw (written, written_more) refl,
          Extends_trans tables middle after grown grown_more,
          λ later rest e k.
              rw
                (
                  append_assoc bs more rest,
                  read later (more ++ rest) (Extends_trans middle after later grown_more e) k,
                  read_more later rest e k,
                )
                refl,
        );
  }
