-- ===== src/Serdes/Scalars.antt =====
-- src/serdes/num.rs, boolean.rs, char.rs, char_length_units.rs, trim.rs, ulid.rs and phantom.rs: the
-- values that hold no other values.
use kite_sql.Prelude.{
  ℕ, ◌+◌, ◌-◌, ◌*◌, ◌/◌, ◌%◌, ◌<◌, ◌≡◌, refl, ap, sym, ◌∙◌, Bool, true, false, ◌==◌, ltb,
  if◌then◌else◌, List, [], ◌∷◌, ◌++◌, length, Bool-cases, ltb→lt, lt→ltb, ◌≤◌, inl, inr, Result, ok,
  err, panic, ◌>>=◌, DatabaseError, arith,
}
use mathlib.Core.Path.{subst}
use mathlib.Core.List.{append-nil}
use kite_sql.Prelude.Int.{ℤ, IsSigned, to_bits, from_bits, to_bits-lt, from_bits-to_bits}
use kite_sql.Types.Logical.{CharLengthUnits, characters, octets}
use kite_sql.Types.Bytes.{
  to_le_bytes, read_exact, read_word, byte_range, from_le_bytes, read_word-to_le_bytes,
  read_exact-append,
}
use kite_sql.Types.Utf8.{is_utf8, utf8_from}
use kite_sql.Serdes.{ReferenceTables, ReferenceSerialization, RoundTrip, RoundTripAt, Extends}

-- An unsigned number or the bits of a float, in `size` bytes.
unfoldable pub word : ℕ → ReferenceSerialization ℕ
word size = record {
  encode = λ v is_direct tables. ok (to_le_bytes size v, tables);
  decode = λ bs tables. read_word size bs;
}

unfoldable pub signed : ℕ → ℕ → ReferenceSerialization ℤ
signed size half = record {
  encode = λ v is_direct tables. ok (to_le_bytes size (to_bits half v), tables);
  decode = λ bs tables. (do (w, rest) ← read_word size bs; ok (from_bits half w, rest));
}

-- `*self as u32`
unfoldable pub usize : ReferenceSerialization ℕ
unfolding word
usize = record {
  encode = λ v is_direct tables. (word 4).encode (v % byte_range 4) is_direct tables;
  decode = λ bs tables. (word 4).decode bs tables;
}

unfoldable pub bool : ReferenceSerialization Bool
unfolding word
bool = record {
  encode = λ v is_direct tables. (word 1).encode (if v then 1 else 0) is_direct tables;
  decode = λ bs tables. (do (w, rest) ← (word 1).decode bs tables; ok (w == 1, rest));
}

abbrev pub units_of : ℕ → Result CharLengthUnits
units_of b = if b == 0 then ok characters else if b == 1 then ok octets else panic

unfoldable pub char_length_units : ReferenceSerialization CharLengthUnits
unfolding word
char_length_units = record {
  encode = λ v is_direct tables.
      (word 1).encode (elim v [ characters ↦ 0 | octets ↦ 1 ]) is_direct tables;
  decode = λ bs tables. (do (b, rest) ← read_word 1 bs; v ← units_of b; ok (v, rest));
}

-- `TrimWhereField` of the SQL parser.
pub data TrimWhereField : Type 0 where
  both leading trailing : TrimWhereField

abbrev pub field_of : ℕ → Result TrimWhereField
field_of b =
    if b == 0 then ok both else if b == 1 then ok leading else if b == 2 then ok trailing else panic

unfoldable pub trim_where_field : ReferenceSerialization TrimWhereField
trim_where_field = record {
  encode = λ v is_direct tables.
      ok (to_le_bytes 1 (elim v [ both ↦ 0 | leading ↦ 1 | trailing ↦ 2 ]), tables);
  decode = λ bs tables. (do (b, rest) ← read_word 1 bs; v ← field_of b; ok (v, rest));
}

-- A `Ulid` stands by its sixteen bytes.
unfoldable pub ulid : ReferenceSerialization (List ℕ)
ulid = record {
  encode = λ v is_direct tables. ok (v, tables);
  decode = λ bs tables. read_exact 16 bs;
}

unfoldable pub phantom : ReferenceSerialization (Unit {0})
phantom = record {
  encode = λ v is_direct tables. ok ([], tables);
  decode = λ bs tables. ok (tt, bs);
}

-- `encode_utf8` into two bytes panics on a character of three bytes or more; one byte leaves the
-- second at zero.
unfoldable pub char_bytes : ℕ → Result (List ℕ)
char_bytes c =
    if ltb c 0x80
    then ok (c ∷ 0 ∷ [])
    else if ltb c 0x800
    then ok ((0xC0 + c / 64) ∷ (0x80 + c % 64) ∷ [])
    else panic

-- The first character of two bytes that are a text.
unfoldable pub first_char : List ℕ → Result ℕ
first_char (a ∷ b ∷ []) =
    if is_utf8 (a ∷ b ∷ [])
    then ok (if ltb a 0x80 then a else (a - 0xC0) * 64 + (b - 0x80))
    else err DatabaseError.from_utf8
first_char _ = panic

unfoldable pub char : ReferenceSerialization ℕ
unfolding char_bytes first_char
char = record {
  encode = λ v is_direct tables. (do bs ← char_bytes v; ok (bs, tables));
  decode = λ bs tables. (do (buf, rest) ← read_exact 2 bs; c ← first_char buf; ok (c, rest));
}

-- A value whose encoding adds no name.
abbrev pub unchanged : (tables : ReferenceTables) → Extends tables tables
unchanged tables = ([], sym (append-nil tables))

pub word-RoundTrip : (size : ℕ) → RoundTrip (word size) (λ v. v < byte_range size)
unfolding word
word-RoundTrip size = record {
  round_trip = λ v is_direct tables h. (
    to_le_bytes size v,
    tables,
    refl,
    unchanged tables,
    λ later rest e k. read_word-to_le_bytes size v rest h,
  );
}

pub signed-RoundTrip :
    (size half : ℕ) → half + half ≡ byte_range size → RoundTrip (signed size half) (IsSigned half)
unfolding signed
signed-RoundTrip size half e = record {
  round_trip = λ v is_direct tables h. (
    to_le_bytes size (to_bits half v),
    tables,
    refl,
    unchanged tables,
    λ later rest x k.
        rw
          (
            read_word-to_le_bytes size (to_bits half v) rest (rw (sym e) (to_bits-lt half v h)),
            from_bits-to_bits half v h,
          )
          refl,
  );
}

pub usize_written :
    (v : ℕ) (is_direct : Bool) (tables : ReferenceTables)
    → usize.encode v is_direct tables ≡ ok (to_le_bytes 4 (v % byte_range 4), tables)
unfolding usize word
usize_written v is_direct tables = refl

pub usize_read :
    (v : ℕ) (rest : List ℕ) (tables : ReferenceTables)
    → v < byte_range 4
    → usize.decode (to_le_bytes 4 (v % byte_range 4) ++ rest) tables ≡ ok (v, rest)
unfolding usize word
usize_read v rest tables h =
    read_word-to_le_bytes 4 (v % byte_range 4) rest (omega arith)
    ∙ ap (λ w. ok (w, rest)) (omega arith)

pub usize-RoundTrip : RoundTrip usize (λ v. v < byte_range 4)
usize-RoundTrip = record {
  round_trip = λ v is_direct tables h. (
    to_le_bytes 4 (v % byte_range 4),
    tables,
    usize_written v is_direct tables,
    unchanged tables,
    λ later rest e k. usize_read v rest later h,
  );
}

-- The byte in front of a value.
pub read_word_tag :
    (tag : ℕ) (rest : List ℕ) → tag < 256 → read_word 1 (tag ∷ rest) ≡ ok (tag, rest)
unfolding read_word read_exact from_le_bytes
read_word_tag tag rest h = ground arith

bool-RoundTripAt :
    (v : Bool) (is_direct : Bool) (tables : ReferenceTables) → RoundTripAt bool v is_direct tables
unfolding bool word to_le_bytes
bool-RoundTripAt true is_direct tables = (
  1 ∷ [],
  tables,
  refl,
  unchanged tables,
  λ later rest e k. rw (read_word_tag 1 rest (omega arith)) refl,
)
bool-RoundTripAt false is_direct tables = (
  0 ∷ [],
  tables,
  refl,
  unchanged tables,
  λ later rest e k. rw (read_word_tag 0 rest (omega arith)) refl,
)

pub bool-RoundTrip : RoundTrip bool (λ v. Unit {0})
bool-RoundTrip = record { round_trip = λ v is_direct tables h. bool-RoundTripAt v is_direct tables }

char_length_units-RoundTripAt :
    (v : CharLengthUnits) (is_direct : Bool) (tables : ReferenceTables)
    → RoundTripAt char_length_units v is_direct tables
unfolding char_length_units word to_le_bytes
char_length_units-RoundTripAt characters is_direct tables = (
  0 ∷ [],
  tables,
  refl,
  unchanged tables,
  λ later rest e k. rw (read_word_tag 0 rest (omega arith)) refl,
)
char_length_units-RoundTripAt octets is_direct tables = (
  1 ∷ [],
  tables,
  refl,
  unchanged tables,
  λ later rest e k. rw (read_word_tag 1 rest (omega arith)) refl,
)

pub char_length_units-RoundTrip : RoundTrip char_length_units (λ v. Unit {0})
char_length_units-RoundTrip = record {
  round_trip = λ v is_direct tables h. char_length_units-RoundTripAt v is_direct tables;
}

pub ulid-RoundTrip : RoundTrip ulid (λ v. length v ≡ 16)
unfolding ulid
ulid-RoundTrip = record {
  round_trip = λ v is_direct tables h. (
    v,
    tables,
    refl,
    unchanged tables,
    λ later rest e k.
        subst (λ n. read_exact n (v ++ rest) ≡ ok (v, rest)) h (read_exact-append v rest),
  );
}

first_char_ascii : (c : ℕ) → c < 0x80 → first_char (c ∷ 0 ∷ []) ≡ ok c
unfolding first_char utf8_from
first_char_ascii c h = rw (lt→ltb c 0x80 h) refl

first_char_wide :
    (c : ℕ) → 0x80 ≤ c → c < 0x800 → first_char ((0xC0 + c / 64) ∷ (0x80 + c % 64) ∷ []) ≡ ok c
unfolding first_char utf8_from
first_char_wide c low high = ground arith

first_char-char_bytes :
    (c : ℕ)
    → c < 0x800
    → (a : ℕ) × (b : ℕ) × (char_bytes c ≡ ok (a ∷ b ∷ [])) × (first_char (a ∷ b ∷ []) ≡ ok c)
unfolding char_bytes
first_char-char_bytes c h = elim (Bool-cases (ltb c 0x80)) [
  | inl ascii ↦ (c, 0, rw ascii refl, first_char_ascii c (ltb→lt c 0x80 ascii))
  | inr wide ↦ (0xC0 + c / 64, 0x80 + c % 64, ground arith, first_char_wide c (ground arith) h)
]

-- A character of at most two bytes is read back.
pub char-RoundTrip : RoundTrip char (λ c. c < 0x800)
unfolding char read_exact
char-RoundTrip = record {
  round_trip = λ c is_direct tables h.
      let (a, b, written, read) = first_char-char_bytes c h in
      (a ∷ b ∷ [], tables, rw written refl, unchanged tables, λ later rest e k. rw read refl);
}

-- A character of three bytes or more is not written at all.
pub char-panic :
    (c : ℕ) (is_direct : Bool) (tables : ReferenceTables)
    → 0x800 ≤ c
    → char.encode c is_direct tables ≡ panic
unfolding char char_bytes
char-panic c is_direct tables h = ground arith
