-- ===== src/Serdes/Examples.antt =====
-- Runs of the serialisation, and the theorems on it at concrete inputs.
use kite_sql.Prelude.{
  ℕ, zero, suc, ◌<◌, ◌≡◌, refl, Bool, true, false, [], ◌∷◌, ◌++◌, length, replicate, ok, panic,
  arith,
}
use kite_sql.Types.Bytes.{byte_range}
use kite_sql.Types.Utf8.{utf8_from}
use kite_sql.Storage.TableCodec.{ColumnRelation}
use kite_sql.Serdes.{
  ReferenceTables, ReferenceSerialization, RoundTrip, RoundTripAt, from_raw, to_raw, position,
  push_or_replace, same_name,
}
use kite_sql.Serdes.Scalars.{char, bool, word, word-RoundTrip, bool-RoundTrip, char_bytes}
use kite_sql.Serdes.Containers.{vec, pair, pair-RoundTrip, vec-RoundTrip, InList}
use kite_sql.Serdes.Columns.{relation, of_table, relation-RoundTrip}
use kite_sql.Serdes.Names.{
  IsUnique, IsPlaced, push_or_replace-IsUnique, AreNames, no_names, with_name,
  from_raw-to_raw_names,
}

abbrev two_names : ReferenceTables
two_names = (b't' ∷ b'1' ∷ []) ∷ (b't' ∷ b'2' ∷ []) ∷ []

two_names-IsUnique : IsUnique two_names
two_names-IsUnique zero zero name h k = refl
two_names-IsUnique zero (suc zero) name h k = ground arith
two_names-IsUnique (suc zero) zero name h k = ground arith
two_names-IsUnique (suc zero) (suc zero) name h k = refl
two_names-IsUnique (suc (suc i)) j name h k = cc
two_names-IsUnique zero (suc (suc j)) name h k = cc
two_names-IsUnique (suc zero) (suc (suc j)) name h k = cc

push_or_replace-IsUnique_example :
    IsPlaced two_names (b't' ∷ b'3' ∷ []) (push_or_replace two_names (b't' ∷ b'3' ∷ []))
    × IsUnique (push_or_replace two_names (b't' ∷ b'3' ∷ [])).1
push_or_replace-IsUnique_example =
    push_or_replace-IsUnique two_names (b't' ∷ b'3' ∷ []) two_names-IsUnique

found_again : push_or_replace two_names (b't' ∷ b'2' ∷ []) ≡ (1, two_names)
unfolding push_or_replace position same_name
found_again = refl

two_names-AreNames : AreNames two_names
unfolding utf8_from
two_names-AreNames = with_name _ _ refl (omega arith) (with_name _ _ refl (omega arith) no_names)

from_raw-to_raw_names_example : from_raw (to_raw two_names ++ (7 ∷ [])) ≡ ok (two_names, 7 ∷ [])
from_raw-to_raw_names_example =
    from_raw-to_raw_names two_names (7 ∷ []) (omega arith) two_names-AreNames

relation_read_back :
    RoundTripAt relation
      (ColumnRelation.table (replicate 16 9) (b't' ∷ b'3' ∷ []) false)
      true
      two_names
relation_read_back =
    relation-RoundTrip.round_trip (ColumnRelation.table (replicate 16 9) (b't' ∷ b'3' ∷ []) false)
      true two_names (of_table (replicate 16 9) (b't' ∷ b'3' ∷ []) false refl)

abbrev flagged : ReferenceSerialization (ℕ × Bool)
flagged = pair (word 8) bool

vec-RoundTrip_example :
    RoundTrip
      (vec flagged)
      (λ vs. (length vs < byte_range 4) × InList (λ (a, b). (a < byte_range 8) × Unit {0}) vs)
vec-RoundTrip_example = vec-RoundTrip (pair-RoundTrip (word-RoundTrip 8) bool-RoundTrip)

-- A character of three bytes
euro_sign : char.encode 0x20AC true [] ≡ panic
unfolding char char_bytes
euro_sign = refl
