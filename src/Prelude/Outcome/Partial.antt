-- ===== src/Prelude/Outcome/Partial.antt =====
-- Sequencing of library calls that return a value or panic.
use feemarket.Prelude.{Option, none, some, ◌≡◌, ◌≢◌, refl}

infixl 5 ◌>>=◌
abbrev pub ◌>>=◌ : {A B : Type 0} → Option A → (A → Option B) → Option B
none >>= f = none
some a >>= f = f a

-- Both parts of a sequence that has returned.
pub >>=-eq-some :
    {A B : Type 0} (o : Option A) (f : A → Option B) {b : B}
    → (o >>= f) ≡ some b
    → (a : A) × (o ≡ some a) × (f a ≡ some b)
>>=-eq-some none f h = cc
>>=-eq-some (some a) f h = (a, refl, h)

-- A sequence returns if its parts do.
pub >>=-returns :
    {A B : Type 0} (o : Option A) (f : A → Option B) {a : A}
    → o ≡ some a
    → ((b : B) × (f a ≡ some b))
    → (b : B) × ((o >>= f) ≡ some b)
>>=-returns o f e k = rw e k

pub some_of : {A : Type 0} (o : Option A) → o ≢ none → (a : A) × (o ≡ some a)
some_of none h = absurd (h refl)
some_of (some a) h = (a, refl)
