-- ===== src/Ante/Handle.antt =====
-- What `AnteHandle` of x/feemarket/ante/fee.go has charged for a transaction that it passes on an enabled
-- market.
use mathlib.Core.Path.{subst}
use feemarket.Prelude.{zero, suc, ◌≡◌, ◌≢◌, refl, sym, ap, ◌∙◌, Bool, true, false, if◌then◌else◌}
use feemarket.Prelude.Int.{ℤ, pos, negsuc}
use feemarket.Prelude.Outcome.{Outcome, ok, Error, tx_decode, invalid_gas_limit}
use feemarket.Prelude.Outcome.Action.{Action, pure, raise, ◌>>=◌, >>=-ok, >>=-returned}
use feemarket.Math.{Math}
use feemarket.Sdk.{Sdk, Coin}
use feemarket.Sdk.Laws.{StoreLaws}
use feemarket.Codec.{Codec, CodecLaws}
use feemarket.Params.{Params}
use feemarket.Keeper.{key_params, get_params}
use feemarket.Keeper.Store.{HoldsParams, get_params_lem}
use feemarket.Ante.{Decorator, is_zero_height, no_gas, charge, inner_handle, ante_handle}
use feemarket.Ante.Charge.{guard_passed, Charges, charge-Charges}

pub not_zero_height : (h : ℤ) → h ≢ pos 0 → is_zero_height h ≡ false
not_zero_height (pos zero) h = absurd (h refl)
not_zero_height (pos (suc _)) h = refl
not_zero_height (negsuc _) h = refl

-- A guard that has been passed has changed nothing.
pub guard_passed' :
    {S : Type 0} (b : Bool) (e : Error) (x y : S) {u : Unit {0}}
    → (if b then raise e else pure tt) x ≡ (ok u, y)
    → x ≡ y
guard_passed' false e x y h = ap (λ o. o.1) h
guard_passed' true e x y h = cc

-- The branch that a test has taken.
pub taken :
    {S : Type 0} (b : Bool) (f g : Action S (Unit {0})) (x : S) {r : Outcome (Unit {0}) × S}
    → b ≡ true
    → (if b then f else g) x ≡ r
    → f x ≡ r
taken true f g x e h = h
taken false f g x e h = cc

module _ ⦃m : Math⦄ ⦃s : Sdk⦄ ⦃c : Codec⦄ (w : StoreLaws) (e : CodecLaws) where
  -- On an enabled market, `anteHandle` has charged before it goes on.
  pub inner_handle-charge :
      (d : Decorator) (p : Params) (tx : s.Tx) (next : Action s.Ctx (Unit {0})) (x y : s.Ctx)
      → HoldsParams w e x p
      → p.enabled ≡ true
      → s.block_height x ≢ pos 0
      → inner_handle d tx false next x ≡ (ok tt, y)
      → (u v : s.Ctx) × (get_params x ≡ (ok p, u))
        × (charge d p tx false u ≡ (ok tt, v))
        × (next v ≡ (ok tt, y))
  unfolding inner_handle
  inner_handle-charge d p tx next x y held enabled height done =
      let (_, x1, fee_tx, done) =
        >>=-returned (if s.is_fee_tx tx then pure tt else raise tx_decode) _ x
          (rw (not_zero_height (s.block_height x) height, inner_handle) at done) in
      let (_, x2, gas, done) =
        >>=-returned (if no_gas tx false x then raise invalid_gas_limit else pure tt) _ x1 done in
      let same : x ≡ x2 =
        guard_passed (s.is_fee_tx tx) tx_decode x x1 fee_tx
        ∙ guard_passed' (no_gas tx false x) invalid_gas_limit x1 x2 gas in
      let held2 : HoldsParams w e x2 p = subst (λ x. HoldsParams w e x p) same held in
      let (u, gets, _) = get_params_lem w e x2 p held2 in
      let (_, v, charged, nexts) =
        >>=-returned (if p.enabled then charge d p tx false else pure tt) _ u (rw gets at done) in
      (
        u,
        v,
        ap get_params same ∙ gets,
        taken p.enabled (charge d p tx false) (pure tt) u enabled charged,
        nexts,
      )

  -- A transaction that AnteHandle has passed outside a simulation, on an enabled market at a height
  -- other than zero, gave one fee coin. In one run of contexts, each where the one before it has
  -- ended: the parameters are read; the gas price of the coin's denomination is read and set in the
  -- context; CheckTxFee accepts the coin there; the account of the payer of the fee or of its
  -- granter is found, and the bank sends the whole coin from it to the fee collector; the priority
  -- is computed from that coin and the price in the denomination of the market, in the context that
  -- the bank has left, and set; and the next handler runs from there to the same end.
  pub ante_handle-Escrows :
      (d : Decorator) (p : Params) (tx : s.Tx) (next : Action s.Ctx (Unit {0})) (x y : s.Ctx)
      → HoldsParams w e x p
      → p.enabled ≡ true
      → s.block_height x ≢ pos 0
      → ante_handle d tx false next x ≡ (ok tt, y)
      → (fee : Coin) × (u v : s.Ctx) × ((get_params >>= (λ _. get_params)) x ≡ (ok p, u))
        × Charges d p tx fee u v
        × (next v ≡ (ok tt, y))
  unfolding ante_handle
  ante_handle-Escrows d p tx next x y held enabled height done =
      let (b, held_b, decodes) = held in
      let (x1, gets, (same, still)) = get_params_lem w e x p held in
      let inner =
        taken p.enabled (inner_handle d tx false next) _ x1 enabled
          (rw (gets, ante_handle) at done) in
      let (u, v, again, charged, nexts) =
        inner_handle-charge d p tx next x1 y (b, same key_params ∙ held_b, decodes) enabled
          (λ h. height (sym still ∙ h)) inner in
      let (fee, charges) = charge-Charges d p tx u v charged in
      (fee, u, v, >>=-ok get_params (λ _. get_params) x gets ∙ again, charges, nexts)
