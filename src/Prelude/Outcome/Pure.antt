-- ===== src/Prelude/Outcome/Pure.antt =====
-- Sequencing of calls that have no context, and rows of checks.
use feemarket.Prelude.{◌≡◌, refl, Bool, true, false, Option, none, some, List, [], ◌∷◌, All}
use feemarket.Prelude.Outcome.{Outcome, ok, err, panic, Error, fail_if}

infixl 5 ◌>>=◌ ◌>>◌
abbrev pub ◌>>=◌ : {A B : Type 0} → Outcome A → (A → Outcome B) → Outcome B
ok a >>= f = f a
err e >>= f = err e
panic >>= f = panic

abbrev pub ◌>>◌ : {B : Type 0} → Outcome (Unit {0}) → Outcome B → Outcome B
m >> k = m >>= λ _. k

-- A row of checks as a list: each has its test and its error.
abbrev pub run_checks : List (Option Bool × Error) → Outcome (Unit {0})
run_checks [] = ok tt
run_checks ((t, e) ∷ cs) = fail_if t e >> run_checks cs

-- The row passes exactly when every test is evaluated, and to false.
pub passed :
    (cs : List (Option Bool × Error)) → run_checks cs ≡ ok tt → All (λ c. c.0 ≡ some false) cs
passed [] h = tt
passed ((none, e) ∷ cs) h = cc
passed ((some true, e) ∷ cs) h = cc
passed ((some false, e) ∷ cs) h = (refl, passed cs h)

pub pass :
    (cs : List (Option Bool × Error)) → All (λ c. c.0 ≡ some false) cs → run_checks cs ≡ ok tt
pass [] h = refl
pass ((t, e) ∷ cs) h = rw h.0 (pass cs h.1)

-- Both parts of a sequence that has returned.
pub >>=-eq-ok :
    {A B : Type 0} (o : Outcome A) (f : A → Outcome B) {b : B}
    → (o >>= f) ≡ ok b
    → (a : A) × (o ≡ ok a) × (f a ≡ ok b)
>>=-eq-ok (ok a) f h = (a, refl, h)
>>=-eq-ok (err _) f h = cc
>>=-eq-ok panic f h = cc
