-- ===== src/Prelude/Outcome/Cases.antt =====
-- The ends of a call told apart.
use feemarket.Prelude.{◌≡◌, some}
use feemarket.Prelude.Outcome.{ok, err, panic, Error}

pub panic_ne : {A : Type 0} {a : A} {C : Type 0} → panic ≡ ok a → C
panic_ne h = cc

pub ok_injective : {A : Type 0} {a b : A} → ok a ≡ ok b → a ≡ b
ok_injective e = cc

pub some_value : {A : Type 0} {a b : A} → some a ≡ some b → a ≡ b
some_value e = cc

pub err_ne : {A : Type 0} {a : A} {e : Error} {C : Type 0} → err e ≡ ok a → C
err_ne h = cc
