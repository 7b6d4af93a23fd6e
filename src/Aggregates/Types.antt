-- ===== src/Aggregates/Types.antt =====
-- What the transition functions use of PostgreSQL: the numbers that a datum stands for, and the
-- arithmetic of `numeric` and of the floating point types, which are parameters; and an array
-- value as the functions' checks see it.
use postgres_vectorization_t.Aggregates.Int64.{IsInt32}
use postgres_vectorization_t.Prelude.{Bool}
use postgres_vectorization_t.Prelude.Int.{ℤ}

pub record Numbers (Datum : Type 0) : Type 1 where
  pub Numeric : Type 0
  pub Float4 : Type 0
  pub Float8 : Type 0
  pub datum_get_int32 : Datum → ℤ
  pub datum_get_int64 : Datum → ℤ
  pub datum_get_float4 : Datum → Float4
  pub datum_get_float8 : Datum → Float8
  pub int8_numeric : ℤ → Numeric
  pub numeric_add : Numeric → Numeric → Numeric
  pub numeric_inc : Numeric → Numeric
  pub float4_zero : Float4
  pub float8_zero : Float8
  pub float8_one : Float8
  pub add_float4 : Float4 → Float4 → Float4
  pub add_float8 : Float8 → Float8 → Float8
  pub float4_to_float8 : Float4 → Float8
  -- an `int32` is one
  pub int32_bounds : (d : Datum) → IsInt32 (datum_get_int32 d)

-- A transition array: whether its number of dimensions, its size, its element type and its lack
-- of nulls are those that the function expects, and its elements, which are read only then.
pub record TransArray (A : Type 0) : Type 0 where
  pub is_well_formed : Bool
  pub elements : A
