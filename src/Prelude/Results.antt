-- ===== src/Prelude/Results.antt =====
-- `Result<_, DatabaseError>` of errors.rs, with the variants that the modelled code returns.
-- A panic (`unreachable!`, an index out of range, an arithmetic underflow) is an outcome of its own.
use mathlib.Core.Option.{Option, none, some}

-- `io` is an `std::io::Error` (a read past the end), `from_utf8` a `FromUtf8Error`.
pub data DatabaseError : Type 0 where
  cache_size_over_flow : DatabaseError
  cast_fail : DatabaseError
  duplicate_primary_key : DatabaseError
  duplicate_source_hash : DatabaseError
  duplicate_unique_value : DatabaseError
  from_utf8 : DatabaseError
  incomparable : DatabaseError
  invalid_column : DatabaseError
  invalid_type : DatabaseError
  io : DatabaseError
  not_null : DatabaseError
  over_flow : DatabaseError
  primary_key_not_found : DatabaseError
  primary_key_too_many_layers : DatabaseError
  shared_not_align : DatabaseError
  table_not_found : DatabaseError
  too_long : DatabaseError
  try_from_int : DatabaseError
  tuple_id_not_found : DatabaseError
  unsupported_binary_operator : DatabaseError
  unsupported_unary_operator : DatabaseError

pub data Result {ℓ} (A : Type ℓ) : Type ℓ where
  ok : A → Result A
  err : DatabaseError → Result A
  panic : Result A

-- `?`: what follows runs on a value, and an error or a panic is passed on.
infixl 5 ◌>>=◌
abbrev pub ◌>>=◌ {a b} :
    {Value : Type a} {Next : Type b} → Result Value → (Value → Result Next) → Result Next
panic >>= next = panic
err error >>= next = err error
ok value >>= next = next value

infixl 5 ◌>>◌
abbrev pub ◌>>◌ {b} : {Next : Type b} → Result (Unit {0}) → Result Next → Result Next
first >> second = first >>= λ done. second

-- `ok_or`
abbrev pub ok_or {a} : {Value : Type a} → DatabaseError → Option Value → Result Value
ok_or e none = err e
ok_or e (some v) = ok v
