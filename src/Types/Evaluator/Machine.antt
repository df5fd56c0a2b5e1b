-- ===== src/Types/Evaluator/Machine.antt =====
-- What the evaluators of src/types/evaluator read of a value and ask of the machine and the crates.
-- Texts are matched by the regular expression of utf8.rs, timestamps by their instants.
use kite_sql.Prelude.{
  ℕ, Bool, Option, none, some, List, [], ◌∷◌, ◌==◌, ◌-◌, ◌/◌, ◌%◌, if◌then◌else◌, Result, ok, panic,
}
use kite_sql.Prelude.Int.{ℤ, pos, negsuc}
use kite_sql.Types.Value.{DataValue, null, boolean, float32, float64, decimal, utf8, time32, time64}
use kite_sql.Types.Evaluator.Numeric.{Operand, value, missing, other, Arithmetic}
use kite_sql.Types.Evaluator.Time.{one_sec_to_nano}

-- What the machine and the crates compute: the arithmetic of floats and decimals, a quotient as the
-- bits of an `f64`, the instants of chrono, the characters of a text, and whether a text matches a
-- regular expression, which panics on one that does not compile.
pub record Machine (D : Type 0) : Type 1 where
  pub float32_arithmetic : Arithmetic ℕ
  pub float64_arithmetic : Arithmetic ℕ
  pub decimal_arithmetic : Arithmetic D
  pub signed_quotient : ℤ → ℤ → ℕ
  pub unsigned_quotient : ℕ → ℕ → ℕ
  pub float32_quotient : ℕ → ℕ → ℕ
  pub float64_quotient : ℕ → ℕ → ℕ
  pub decimal_quotient : D → D → Result D
  pub float32_neg : ℕ → ℕ
  pub float64_neg : ℕ → ℕ
  pub Instant : Type 0
  pub from_timestamp : ℤ → ℕ → Option Instant
  pub from_timestamp_millis : ℤ → Option Instant
  pub from_timestamp_micros : ℤ → Option Instant
  pub timestamp : Instant → ℤ
  pub timestamp_millis : Instant → ℤ
  pub timestamp_micros : Instant → ℤ
  pub timestamp_nanos_opt : Instant → Option ℤ
  pub chars : List ℕ → List ℕ
  pub is_match : List ℕ → List ℕ → Result Bool

-- The patterns of the other types.
unfoldable pub float32_operand : {D : Type 0} → DataValue D → Operand ℕ
float32_operand null = missing
float32_operand (float32 n) = value n
float32_operand _ = other

unfoldable pub float64_operand : {D : Type 0} → DataValue D → Operand ℕ
float64_operand null = missing
float64_operand (float64 n) = value n
float64_operand _ = other

unfoldable pub decimal_operand : {D : Type 0} → DataValue D → Operand D
decimal_operand null = missing
decimal_operand (decimal d) = value d
decimal_operand _ = other

unfoldable pub boolean_operand : {D : Type 0} → DataValue D → Operand Bool
boolean_operand null = missing
boolean_operand (boolean b) = value b
boolean_operand _ = other

unfoldable pub utf8_operand : {D : Type 0} → DataValue D → Operand (List ℕ)
utf8_operand null = missing
utf8_operand (utf8 v _ _) = value v
utf8_operand _ = other

unfoldable pub time_operand : {D : Type 0} → DataValue D → Operand (ℕ × ℕ)
time_operand null = missing
time_operand (time32 v p) = value (v, p)
time_operand _ = other

unfoldable pub time64_operand : {D : Type 0} → DataValue D → Operand (ℤ × ℕ)
time64_operand null = missing
time64_operand (time64 v p _) = value (v, p)
time64_operand _ = other

-- The precisions of src/types/value.rs
unfoldable pub timestamp_precision : {D : Type 0} (m : Machine D) → m.Instant → ℕ → Result ℤ
timestamp_precision m t precision =
    if precision == 3
    then ok (m.timestamp_millis t)
    else if precision == 6
    then ok (m.timestamp_micros t)
    else if precision == 9
    then ok (elim (m.timestamp_nanos_opt t) [ none ↦ pos 0 | some n ↦ n ])
    else if precision == 0
    then ok (m.timestamp t)
    else panic

abbrev div_euclid : ℤ → ℕ → ℤ
div_euclid (pos n) d = pos (n / d)
div_euclid (negsuc n) d = negsuc (n / d)

abbrev rem_euclid : ℤ → ℕ → ℕ
rem_euclid (pos n) d = n % d
rem_euclid (negsuc n) d = d - 1 - n % d

unfoldable pub from_timestamp_precision :
    {D : Type 0} (m : Machine D) → ℤ → ℕ → Result (Option m.Instant)
from_timestamp_precision m v precision =
    if precision == 0
    then ok (m.from_timestamp v 0)
    else if precision == 3
    then ok (m.from_timestamp_millis v)
    else if precision == 6
    then ok (m.from_timestamp_micros v)
    else if precision == 9
    then ok (m.from_timestamp (div_euclid v one_sec_to_nano) (rem_euclid v one_sec_to_nano))
    else panic

-- src/types/evaluator/utf8.rs: the regular expression of a pattern.
unfoldable pub like_regex : Option ℕ → List ℕ → List ℕ
like_regex escape_char [] = []
like_regex none (c ∷ cs) =
    let rest = like_regex none cs in
    if c == 0x25 then 0x2E ∷ 0x2A ∷ rest else if c == 0x5F then 0x2E ∷ rest else c ∷ rest
like_regex (some e) (c ∷ []) =
    if e == c
    then []
    else if c == 0x25
    then 0x2E ∷ 0x2A ∷ []
    else if c == 0x5F
    then 0x2E ∷ []
    else c ∷ []
like_regex (some e) (c ∷ (d ∷ cs)) =
    let rest = like_regex (some e) (d ∷ cs) in
    let after = like_regex (some e) cs in
    if e == c
    then d ∷ after
    else if c == 0x25
    then 0x2E ∷ 0x2A ∷ rest
    else if c == 0x5F
    then 0x2E ∷ rest
    else c ∷ rest

unfoldable pub string_like : {D : Type 0} → Machine D → List ℕ → List ℕ → Option ℕ → Result Bool
unfolding like_regex
string_like m v pattern escape_char = m.is_match (like_regex escape_char (m.chars pattern)) v
