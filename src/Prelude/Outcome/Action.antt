-- ===== src/Prelude/Outcome/Action.antt =====
-- Sequencing of calls over a context `S`.
use feemarket.Prelude.{◌≡◌, refl, ap}
use feemarket.Prelude.Outcome.{Outcome, ok, err, panic, Error}

abbrev pub Action : Type 0 → Type 0 → Type 0
Action S A = S → Outcome A × S

module _ {S : Type 0} where
  abbrev pub pure : {A : Type 0} → A → Action S A
  pure a s = (ok a, s)

  abbrev pub raise : {A : Type 0} → Error → Action S A
  raise e s = (err e, s)

  -- A call with no context.
  abbrev pub lift : {A : Type 0} → Outcome A → Action S A
  lift o s = (o, s)

  abbrev pub gets : {A : Type 0} → (S → A) → Action S A
  gets f s = (ok (f s), s)

  abbrev pub modify : (S → S) → Action S (Unit {0})
  modify f s = (ok tt, f s)

  -- How a sequence goes on from the end of its first part.
  abbrev pub go_on : {A B : Type 0} → (A → Action S B) → Outcome A × S → Outcome B × S
  go_on f (ok a, t) = f a t
  go_on f (err e, t) = (err e, t)
  go_on f (panic, t) = (panic, t)

  infixl 5 ◌>>=◌ ◌>>◌
  abbrev pub ◌>>=◌ : {A B : Type 0} → Action S A → (A → Action S B) → Action S B
  ◌>>=◌ m f s = go_on f (m s)

  abbrev pub ◌>>◌ : {B : Type 0} → Action S (Unit {0}) → Action S B → Action S B
  m >> k = m >>= λ _. k

  -- A sequence whose first part has returned, raised or panicked.
  pub >>=-ok :
      {A B : Type 0} (m : Action S A) (f : A → Action S B) (s : S) {a : A} {t : S}
      → m s ≡ (ok a, t)
      → (m >>= f) s ≡ f a t
  >>=-ok m f s e = ap (go_on f) e

  pub >>=-err :
      {A B : Type 0} (m : Action S A) (f : A → Action S B) (s : S) {x : Error} {t : S}
      → m s ≡ (err x, t)
      → (m >>= f) s ≡ (err x, t)
  >>=-err m f s e = ap (go_on f) e

  pub >>=-panic :
      {A B : Type 0} (m : Action S A) (f : A → Action S B) (s : S) {t : S}
      → m s ≡ (panic, t)
      → (m >>= f) s ≡ (panic, t)
  >>=-panic m f s e = ap (go_on f) e

  -- Both parts of a sequence that has returned.
  pub >>=-returned :
      {A B : Type 0} (m : Action S A) (f : A → Action S B) (s : S) {b : B} {u : S}
      → (m >>= f) s ≡ (ok b, u)
      → (a : A) × (t : S) × (m s ≡ (ok a, t)) × (f a t ≡ (ok b, u))
  >>=-returned {A = A} {B = B} m f s {b} {u} e = by_end (m s) refl e
    where
      by_end :
          (o : Outcome A × S)
          → m s ≡ o
          → go_on f o ≡ (ok b, u)
          → (a : A) × (t : S) × (m s ≡ (ok a, t)) × (f a t ≡ (ok b, u))
      by_end (ok a, t) h e = (a, t, h, e)
      by_end (err _, t) h e = cc
      by_end (panic, t) h e = cc
