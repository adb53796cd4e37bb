-- ===== src/Api/Values.antt =====
-- The values that a write of the reflection takes (api/feemarket/feemarket/v1).
use feemarket.Prelude.{ℕ, Bool, ◌≡◌, refl, ap}
use feemarket.Prelude.Outcome.{Outcome, ok, err, panic}
use feemarket.Prelude.Outcome.Pure.{◌>>=◌}
use feemarket.Prelude.Outcome.Cases.{ok_injective}
use feemarket.Sdk.{Bytes}
use feemarket.Api.{
  Value, string_value, uint64_value, bool_value, list_value, as_string, as_uint64, as_bool,
}

-- A write that returns has stored a value of its kind.
pub stored :
    {X M : Type 0} (cast : Outcome X) (put : X → M) {q : M} (P : M → Type 0)
    → cast >>= (λ x. ok (put x)) ≡ ok q
    → ((x : X) → cast ≡ ok x → P (put x))
    → P q
stored (ok x) put P h k = rw (← ok_injective h) (k x refl)
stored (err e) put P h k = cc
stored panic put P h k = cc

pub string_eq : (v : Value) (x : Bytes) → as_string v ≡ ok x → v ≡ string_value x
string_eq (string_value b) x h = ap string_value (ok_injective h)
string_eq (uint64_value b) x h = cc
string_eq (bool_value b) x h = cc
string_eq (list_value b) x h = cc

pub uint64_eq : (v : Value) (x : ℕ) → as_uint64 v ≡ ok x → v ≡ uint64_value x
uint64_eq (string_value b) x h = cc
uint64_eq (uint64_value b) x h = ap uint64_value (ok_injective h)
uint64_eq (bool_value b) x h = cc
uint64_eq (list_value b) x h = cc

pub bool_eq : (v : Value) (x : Bool) → as_bool v ≡ ok x → v ≡ bool_value x
bool_eq (string_value b) x h = cc
bool_eq (uint64_value b) x h = cc
bool_eq (bool_value b) x h = ap bool_value (ok_injective h)
bool_eq (list_value b) x h = cc
