-- ===== src/Prelude/Outcome.antt =====
-- What a Go call ends in: a value, an error value, or a panic; and calls that also change a context.
pub mod Pure
pub mod Partial
pub mod Cases
pub mod Action
use feemarket.Prelude.{ℕ, String, Bool, true, false, Option, none, some, ◌≡◌, refl}

-- The errors that the module raises. `message` is an error built by `fmt.Errorf`, with its format;
-- `external` stands for an error that comes from a library.
pub data Error : Type 0 where
  no_fee_coins too_many_fee_coins resolver_not_set : Error
  tx_decode invalid_gas_limit insufficient_fee invalid_request unknown_address : Error
  message : String → Error
  external : ℕ → Error

pub data Outcome (A : Type 0) : Type 0 where
  ok : A → Outcome A
  err : Error → Outcome A
  panic : Outcome A

-- A run-time panic of a library call that returns no error.
abbrev pub or_panic : {A : Type 0} → Option A → Outcome A
or_panic none = panic
or_panic (some a) = ok a

-- `if test { return e }`, where evaluating the test may panic.
abbrev pub fail_if : Option Bool → Error → Outcome (Unit {0})
fail_if none e = panic
fail_if (some true) e = err e
fail_if (some false) e = ok tt

-- Go's `||` and `&&`: the second operand is evaluated only if the first does not decide.
infixr 30 ◌or◌
abbrev pub ◌or◌ : Option Bool → Option Bool → Option Bool
none or b = none
some true or b = some true
some false or b = b
