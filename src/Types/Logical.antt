-- ===== src/Types/Logical.antt =====
-- `LogicalType` of src/types/mod.rs.
pub mod Combine
use kite_sql.Prelude.{ℕ, Bool, Option}

-- `CharLengthUnits` of the SQL parser: whether the length of a text counts characters or bytes.
pub data CharLengthUnits : Type 0 where
  characters octets : CharLengthUnits

-- The `Vec<LogicalType>` of a tuple type is declared in the block.
mutual
  pub data LogicalType : Type 0 where
    sql_null boolean tinyint u_tinyint smallint u_smallint integer u_integer : LogicalType
    bigint u_bigint float double : LogicalType
    char : ℕ → CharLengthUnits → LogicalType
    varchar : Option ℕ → CharLengthUnits → LogicalType
    date date_time : LogicalType
    time : Option ℕ → LogicalType
    time_stamp : Option ℕ → Bool → LogicalType
    decimal : Option ℕ → Option ℕ → LogicalType
    tuple : LogicalTypes → LogicalType

  pub data LogicalTypes : Type 0 where
    nil : LogicalTypes
    cons : LogicalType → LogicalTypes → LogicalTypes
