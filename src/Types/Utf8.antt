-- ===== src/Types/Utf8.antt =====
-- Texts as their bytes: the validity test of `String::from_utf8`, the count of `chars()`, the
-- padding of `{:len$}` and the cut of trailing blanks, as src/types/value.rs uses them.
use kite_sql.Prelude.{
  ℕ, zero, suc, ◌+◌, ◌-◌, ◌/◌, ◌≡◌, refl, Bool, true, false, ◌&&◌, List, [], ◌∷◌, ◌++◌, arith, ltb,
  leb, ◌==◌, if◌then◌else◌, replicate, Result, ok, err, DatabaseError, ◌∙◌,
}

-- What a lead byte announces: how many bytes follow, and the range of the first of them.
pub record Lead : Type 0 where
  pub valid : Bool
  pub more : ℕ
  pub low : ℕ
  pub high : ℕ

abbrev pub lead : ℕ → Lead
lead b =
    if ltb b 0x80
    then record { valid = true; more = 0; low = 0x80; high = 0xBF }
    else if leb 0xC2 b && leb b 0xDF
    then record { valid = true; more = 1; low = 0x80; high = 0xBF }
    else if b == 0xE0
    then record { valid = true; more = 2; low = 0xA0; high = 0xBF }
    else if b == 0xED
    then record { valid = true; more = 2; low = 0x80; high = 0x9F }
    else if leb 0xE1 b && leb b 0xEF
    then record { valid = true; more = 2; low = 0x80; high = 0xBF }
    else if b == 0xF0
    then record { valid = true; more = 3; low = 0x90; high = 0xBF }
    else if leb 0xF1 b && leb b 0xF3
    then record { valid = true; more = 3; low = 0x80; high = 0xBF }
    else if b == 0xF4
    then record { valid = true; more = 3; low = 0x80; high = 0x8F }
    else record { valid = false; more = 0; low = 0x80; high = 0xBF }

-- `utf8_from n low high bs`: `n` bytes of a character are missing, the next in `low..=high`.
unfoldable pub utf8_from : ℕ → ℕ → ℕ → List ℕ → Bool
utf8_from zero low high [] = true
utf8_from (suc n) low high [] = false
utf8_from zero low high (b ∷ bs) =
    (lead b).valid && utf8_from (lead b).more (lead b).low (lead b).high bs
utf8_from (suc n) low high (b ∷ bs) = leb low b && leb b high && utf8_from n 0x80 0xBF bs

abbrev pub is_utf8 : List ℕ → Bool
is_utf8 = utf8_from 0 0x80 0xBF

unfoldable pub from_utf8 : List ℕ → Result (List ℕ)
from_utf8 bs = if is_utf8 bs then ok bs else err DatabaseError.from_utf8

-- `chars().count()` of a valid text: the bytes that do not continue a character.
unfoldable pub char_count : List ℕ → ℕ
char_count [] = 0
char_count (b ∷ bs) = (if b / 64 == 2 then 0 else 1) + char_count bs

abbrev pub blank : ℕ
blank = 0x20

-- `format!("{:len$}", v)`: blanks up to `len` characters, nothing cut.
unfoldable pub pad_chars : List ℕ → ℕ → List ℕ
pad_chars v len = v ++ replicate (len - char_count v) blank

-- `rposition(|x| x != b' ')` and `truncate`: the text without its trailing blanks.
unfoldable pub trim_blanks : List ℕ → List ℕ
trim_blanks [] = []
trim_blanks (b ∷ bs) =
    let rest = trim_blanks bs in
    elim rest [ [] ↦ if b == blank then [] else b ∷ [] | c ∷ cs ↦ b ∷ c ∷ cs ]

trim_blanks-replicate : (n : ℕ) → trim_blanks (replicate n blank) ≡ []
unfolding trim_blanks
trim_blanks-replicate zero = refl
trim_blanks-replicate (suc n) = ground (arith, trim_blanks-replicate n)

-- What is appended as blanks is cut again.
pub trim_blanks-append_blanks :
    (v : List ℕ) (n : ℕ) → trim_blanks (v ++ replicate n blank) ≡ trim_blanks v
unfolding trim_blanks
trim_blanks-append_blanks [] n = trim_blanks-replicate n
trim_blanks-append_blanks (b ∷ v) n = ground (arith, trim_blanks-append_blanks v n)

pub trim_blanks-pad_chars :
    (v : List ℕ) (len : ℕ) → trim_blanks v ≡ v → trim_blanks (pad_chars v len) ≡ v
unfolding pad_chars
trim_blanks-pad_chars v len t = trim_blanks-append_blanks v (len - char_count v) ∙ t
