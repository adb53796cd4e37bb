-- ===== src/Math.antt =====
-- The parts of `cosmossdk.io/math` that the module calls: `LegacyDec`, a signed decimal of 18 places,
-- and `Int`, a bounded signed integer. Neither is code of this repository, so both are parameters.
-- Either type has a nil value, the one in a zero struct. `none` is a panic: a nil operand, a division
-- by zero, or a result that is too wide.
pub mod Laws
pub mod Order
pub mod Fixed
use feemarket.Prelude.{ℕ, Bool, Option, String}
use feemarket.Prelude.Int.{ℤ}

pub record Math : Type 1 where
  pub LegacyDec : Type 0
  pub Int : Type 0
  pub is_nil : LegacyDec → Bool
  pub is_negative : LegacyDec → Option Bool
  pub is_zero : LegacyDec → Option Bool
  pub gt : LegacyDec → LegacyDec → Option Bool
  pub gte : LegacyDec → LegacyDec → Option Bool
  pub lt : LegacyDec → LegacyDec → Option Bool
  pub lte : LegacyDec → LegacyDec → Option Bool
  pub add : LegacyDec → LegacyDec → Option LegacyDec
  pub sub : LegacyDec → LegacyDec → Option LegacyDec
  pub mul : LegacyDec → LegacyDec → Option LegacyDec
  pub quo : LegacyDec → LegacyDec → Option LegacyDec
  pub mul_int64 : LegacyDec → ℤ → Option LegacyDec
  pub quo_int64 : LegacyDec → ℤ → Option LegacyDec
  pub ceil : LegacyDec → Option LegacyDec
  pub round_int : LegacyDec → Option Int
  pub truncate_int : LegacyDec → Option Int
  pub truncate_int64 : LegacyDec → Option ℤ
  -- `LegacyOneDec`, `LegacyZeroDec`, `LegacyMustNewDecFromStr`
  pub one_dec : LegacyDec
  pub zero_dec : LegacyDec
  pub dec_from_str : String → Option LegacyDec
  -- `LegacyNewDecFromInt` and, of an int64, `LegacyNewDec`
  pub dec_from_int : Int → LegacyDec
  pub new_dec : ℤ → LegacyDec
  -- `NewInt` of an int64, `NewIntFromUint64`
  pub int_is_nil : Int → Bool
  pub new_int : ℤ → Int
  pub int_from_uint64 : ℕ → Int
  pub int_add : Int → Int → Option Int
  pub int_sub : Int → Int → Option Int
  -- `Int.ToLegacyDec`, `Int.Int64`
  pub to_dec : Int → Option LegacyDec
  pub to_int64 : Int → Option ℤ
