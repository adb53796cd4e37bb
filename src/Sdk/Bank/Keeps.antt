-- ===== src/Sdk/Bank/Keeps.antt =====
-- Calls that leave all balances alone: one rule for each way to build a call.
use feemarket.Prelude.{◌≡◌, refl, ap, ◌∙◌, String, Bool, true, false, if◌then◌else◌}
use feemarket.Prelude.Outcome.{Outcome, ok, err, panic, Error}
use feemarket.Prelude.Outcome.Action.{Action, pure, raise, lift, gets, go_on, ◌>>=◌}
use feemarket.Math.{Math}
use feemarket.Math.Laws.{MathLaws}
use feemarket.Sdk.{Sdk, Coins}
use feemarket.Sdk.Bank.{BankLaws, transferred, total_of}

module _ ⦃m : Math⦄ ⦃s : Sdk⦄ (l : MathLaws) (b : BankLaws l) where
  abbrev pub SameBalances : s.Ctx → s.Ctx → Type 0
  SameBalances x y = (a : s.Addr) (d : String) → b.balance y a d ≡ b.balance x a d

  -- What one transfer of `cs` has made of the balances.
  abbrev pub Moves : s.Ctx → s.Ctx → s.Addr → s.Addr → Coins → Type 0
  Moves x y from to cs =
      (a : s.Addr) (d : String)
      → b.balance y a d
        ≡ transferred l (s.addr_eq a from) (s.addr_eq a to) (total_of l cs d) (b.balance x a d)

  -- Whatever the call ends in.
  pub record Keeps {A : Type 0} (f : Action s.Ctx A) : Type 0 where
    pub at : (x : s.Ctx) → SameBalances x (f x).1

  pub Keeps-at :
      {A : Type 0} (f : Action s.Ctx A) (x : s.Ctx) {o : Outcome A} {y : s.Ctx}
      → Keeps f
      → f x ≡ (o, y)
      → SameBalances x y
  Keeps-at f x k e a d = rw e at (k.at x a d)

  pub SameBalances-trans : {x y z : s.Ctx} → SameBalances x y → SameBalances y z → SameBalances x z
  SameBalances-trans h k a d = k a d ∙ h a d

  -- A transfer between calls that keep the balances.
  pub Moves-within :
      (from to : s.Addr) (cs : Coins) {x y z u : s.Ctx}
      → SameBalances x y
      → Moves y z from to cs
      → SameBalances z u
      → Moves x u from to cs
  Moves-within from to cs h k n a d =
      n a d
      ∙ k a d
      ∙ ap (transferred l (s.addr_eq a from) (s.addr_eq a to) (total_of l cs d)) (h a d)

  pub Keeps-pure : {A : Type 0} (a : A) → Keeps (pure a)
  Keeps-pure a = record { at = λ x a d. refl }

  pub Keeps-raise : {A : Type 0} (e : Error) → Keeps (raise {A = A} e)
  Keeps-raise e = record { at = λ x a d. refl }

  pub Keeps-lift : {A : Type 0} (o : Outcome A) → Keeps (lift o)
  Keeps-lift o = record { at = λ x a d. refl }

  pub Keeps-gets : {A : Type 0} (f : s.Ctx → A) → Keeps (gets f)
  Keeps-gets f = record { at = λ x a d. refl }

  pub Keeps-if :
      {A : Type 0} (t : Bool) (f g : Action s.Ctx A)
      → Keeps f
      → Keeps g
      → Keeps (if t then f else g)
  Keeps-if true f g kf kg = kf
  Keeps-if false f g kf kg = kg

  pub Keeps-bind :
      {A B : Type 0} (f : Action s.Ctx A) (g : A → Action s.Ctx B)
      → Keeps f
      → ((v : A) → Keeps (g v))
      → Keeps (f >>= g)
  Keeps-bind {B = B} f g kf kg = record { at = λ x a d. goes (f x) a d ∙ kf.at x a d }
    where
      goes : (p : Outcome _ × s.Ctx) → SameBalances p.1 (go_on g p).1
      goes (ok v, y) a d = (kg v).at y a d
      goes (err _, y) a d = refl
      goes (panic, y) a d = refl
