-- ===== src/History/Float.antt =====
-- f64, which the program takes from the machine: a type with the operations that it uses.
use cantal.Common.{ℕ, ◌≡◌, Bool, true}

pub record Float : Type 1 where
  pub F64 : Type 0
  pub nan : F64
  pub is_nan : F64 → Bool
  pub add : F64 → F64 → F64
  pub sub : F64 → F64 → F64
  pub mul : F64 → F64 → F64
  pub div : F64 → F64 → F64
  -- The conversions of a u64 and of an i64, as 64-bit patterns.
  pub of_u64 : ℕ → F64
  pub of_i64 : ℕ → F64
  -- What IEEE 754 says of NaN.
  pub nan-is_nan : is_nan nan ≡ true
