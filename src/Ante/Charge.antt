-- ===== src/Ante/Charge.antt =====
-- What `anteHandle` of x/feemarket/ante/fee.go has charged for a transaction that it passes, and what it
-- leaves of one whose fee is too low.
use feemarket.Prelude.{
  ◌≡◌, ◌⊎◌, refl, sym, ap, ◌∙◌, String, Bool, true, false, Option, none, some, [], ◌∷◌, inl, inr,
  if◌then◌else◌, Option-cases,
}
use feemarket.Prelude.Int.{ℤ, int64_of_uint64, pos}
use feemarket.Prelude.Outcome.{
  Outcome, ok, err, panic, Error, or_panic, tx_decode, unknown_address, invalid_request,
}
use feemarket.Prelude.Outcome.Pure
use feemarket.Prelude.Outcome.Action.{Action, pure, raise, lift, modify, ◌>>=◌, ◌>>◌, >>=-returned}
use feemarket.Prelude.Outcome.Cases.{ok_injective, panic_ne}
use feemarket.Math.{Math}
use feemarket.Sdk.{Sdk, Coin, Coins, DecCoin}
use feemarket.Codec.{Codec}
use feemarket.Params.{Params}
use feemarket.Keeper.Market.{get_min_gas_price}
use feemarket.Ante.{
  Decorator, coin_is_nil, charge, check_fee_coins, check_tx_fee, pay_coin_of, escrow_funds,
  deduct_from, fee_collector, resolve_priority_coins, get_tx_priority,
}

-- A guard that has been passed has changed nothing.
pub guard_passed :
    {S : Type 0} (b : Bool) (e : Error) (x y : S) {u : Unit {0}}
    → (if b then pure tt else raise e) x ≡ (ok u, y)
    → x ≡ y
guard_passed true e x y h = ap (λ o. o.1) h
guard_passed false e x y h = cc

pub some_of_panic : {A : Type 0} (o : Option A) {a : A} → or_panic o ≡ ok a → o ≡ some a
some_of_panic none h = cc
some_of_panic (some b) h = ap some (ok_injective h)

module _ ⦃m : Math⦄ ⦃s : Sdk⦄ where
  pub one_coin :
      (coins : Coins) → check_fee_coins coins false ≡ ok tt → (fee : Coin) × (coins ≡ fee ∷ [])
  one_coin [] h = cc
  one_coin (fee ∷ []) h = (fee, refl)
  one_coin (_ ∷ _ ∷ _) h = cc

  -- What `EscrowFunds` has run from a context to another: it has found the payer of the fee or its
  -- granter, whose account the bank has then sent the whole coin from, to the fee collector.
  pub record Escrows (d : Decorator) (tx : s.Tx) (fee : Coin) (x y : s.Ctx) : Type 0 where
    pub payer : s.Addr
    pub payer_is : (payer ≡ s.fee_payer tx) ⊎ (s.fee_granter tx ≡ some payer)
    pub granted : s.Ctx
    pub deducted : deduct_from d tx fee x ≡ (ok payer, granted)
    pub before : s.Ctx
    pub account : s.Addr
    pub found : s.get_account payer granted ≡ (ok (some account), before)
    pub coins : Coins
    pub whole : s.new_coins fee ≡ some coins
    pub sent : s.send_account_to_module account fee_collector coins before ≡ (ok tt, y)

  pub payer_of :
      (d : Decorator) (tx : s.Tx) (fee : Coin) (x y : s.Ctx) (from : s.Addr)
      → deduct_from d tx fee x ≡ (ok from, y)
      → (from ≡ s.fee_payer tx) ⊎ (s.fee_granter tx ≡ some from)
  unfolding deduct_from
  payer_of d tx fee x y from done = elim (Option-cases (s.fee_granter tx)) [
    | inl none_is ↦ inl (payer_is (rw (none_is, deduct_from) at done))
    | inr (granter, some_is) ↦
        let (_, x1, _, done) =
          >>=-returned (if d.has_feegrant_keeper then pure tt else raise invalid_request) _ x
            (rw (some_is, deduct_from) at done) in
        let (_, x2, _, done) =
          >>=-returned
            (if s.addr_eq granter (s.fee_payer tx)
              then pure tt
              else if coin_is_nil fee
              then pure tt
              else (lift (or_panic (s.new_coins fee)) >>= λ coins.
                  s.use_granted_fees granter (s.fee_payer tx) coins tx))
            _ x1 done in
        inr (some_is ∙ ap some (sym (payer_is done)))
  ]
    where
      payer_is :
          {a b : s.Addr} {x y : s.Ctx}
          → ◌≡◌ {A = Outcome s.Addr × s.Ctx} (ok a, x) (ok b, y)
          → b ≡ a
      payer_is h = sym (ok_injective (ap (λ o. o.0) h))

  pub found_some :
      (found : Option s.Addr) (acc : s.Addr) (x y : s.Ctx)
      → (elim found as (λ _. Action s.Ctx s.Addr) [
        | none ↦ raise unknown_address
        | some a ↦ pure a
      ])
          x
        ≡ (ok acc, y)
      → (found ≡ some acc) × (x ≡ y)
  found_some none acc x y h = cc
  found_some (some a) acc x y h = (ap some (ok_injective (ap (λ o. o.0) h)), ap (λ o. o.1) h)

  escrow_funds-Escrows :
      (d : Decorator) (tx : s.Tx) (fee : Coin) (x y : s.Ctx)
      → escrow_funds d tx fee x ≡ (ok tt, y)
      → Escrows d tx fee x y
  unfolding escrow_funds
  escrow_funds-Escrows d tx fee x y done =
      let (_, x1, guards, done) =
        >>=-returned (if s.is_fee_tx tx then pure tt else raise tx_decode) _ x done in
      let (from, x2, deducts, done) = >>=-returned (deduct_from d tx fee) _ x1 done in
      let (found, x3, finds, done) = >>=-returned (s.get_account from) _ x2 done in
      let (acc, x4, is_some, done) =
        >>=-returned
          (elim found as (λ _. Action s.Ctx s.Addr) [
            | none ↦ raise unknown_address
            | some a ↦ pure a
          ])
          _ x3 done in
      let (coins, x5, is_coins, done) =
        >>=-returned (lift (or_panic (s.new_coins fee))) _ x4 done in
      let (found_is, same) = found_some found acc x3 x4 is_some in
      let same_x : x3 ≡ x5 = same ∙ ap (λ o. o.1) is_coins in
      record {
        payer = from;
        payer_is = payer_of d tx fee x1 x2 from deducts;
        granted = x2;
        deducted =
            ap (deduct_from d tx fee) (guard_passed (s.is_fee_tx tx) tx_decode x x1 guards)
            ∙ deducts;
        before = x3;
        account = acc;
        found = finds ∙ ap (λ f. (ok f, x3)) found_is;
        coins = coins;
        whole = some_of_panic (s.new_coins fee) (ap (λ o. o.0) is_coins);
        sent = ap (s.send_account_to_module acc fee_collector coins) same_x ∙ done;
      }

  pub pay_coin_first :
      (denom : String) (coins : Coins) (fee pay : Coin)
      → coins ≡ fee ∷ []
      → pay_coin_of denom coins false ≡ ok pay
      → pay ≡ fee
  pay_coin_first denom coins fee pay one h =
      elim (Option-cases (s.new_coin denom (m.new_int (pos 0)))) [
        | inl none_is ↦ panic_ne (rw (one, none_is) at h)
        | inr (_, some_is) ↦ sym (ok_injective (rw (one, some_is) at h))
      ]

  checked :
      (o : Outcome (Coin × Coin))
      → Pure.◌>>=◌ o (λ _. ok tt) ≡ ok tt
      → (r : Coin × Coin) × (o ≡ ok r)
  checked (ok r) h = (r, refl)
  checked (err _) h = cc
  checked panic h = cc

  -- The part of the handler from the check of the fee on: what follows runs from where the escrow has
  -- ended.
  checked_then :
      (d : Decorator) (tx : s.Tx) (pay : Coin) (price : DecCoin) (gas : ℤ) (z : s.Ctx)
      (k : Action s.Ctx (Unit {0})) {y : s.Ctx}
      → (lift (Pure.◌>>=◌ (check_tx_fee z price pay gas true) (λ _. ok tt))
            >> (escrow_funds d tx pay >> k))
          z
        ≡ (ok tt, y)
      → (r : Coin × Coin) × (u : s.Ctx) × (check_tx_fee z price pay gas true ≡ ok r)
        × Escrows d tx pay z u
        × (k u ≡ (ok tt, y))
  checked_then d tx pay price gas z k done =
      let (_, z1, checks, done) =
        >>=-returned (lift (Pure.◌>>=◌ (check_tx_fee z price pay gas true) (λ _. ok tt))) _ z
          done in
      let (_, z2, escrows, rest) = >>=-returned (escrow_funds d tx pay) _ z1 done in
      let (r, accepted) = checked (check_tx_fee z price pay gas true) (ap (λ o. o.0) checks) in
      let same : z ≡ z1 = ap (λ o. o.1) checks in
      (
        r,
        z2,
        accepted,
        escrow_funds-Escrows d tx pay z z2 (ap (escrow_funds d tx pay) same ∙ escrows),
        rest,
      )

module _ ⦃m : Math⦄ ⦃s : Sdk⦄ ⦃c : Codec⦄ where
  -- The priority that is set at the end of the handler, from the context `x` to `y`.
  pub record Prioritises (d : Decorator) (p : Params) (tx : s.Tx) (fee : Coin) (x y : s.Ctx)
      : Type 0 where
    pub resolved : s.Ctx
    pub converted : Coin
    pub converts : resolve_priority_coins d fee p.fee_denom x ≡ (ok converted, resolved)
    pub priced : s.Ctx
    pub base : DecCoin
    pub asks : get_min_gas_price d.feemarket_keeper p.fee_denom resolved ≡ (ok base, priced)
    pub priority : ℤ
    pub priority_is :
        get_tx_priority converted (int64_of_uint64 (s.get_gas tx)) base ≡ some priority
    pub end : y ≡ s.with_priority priority priced

  -- One run of the enabled part of the handler from the context `x` to `y`: the only coin of the fee is
  -- checked under the price of its denomination, with that price in the context, then escrowed, and
  -- the priority is set in the context that the escrow has left.
  pub record Charges (d : Decorator) (p : Params) (tx : s.Tx) (fee : Coin) (x y : s.Ctx)
      : Type 0 where
    pub one : s.get_fee tx ≡ fee ∷ []
    pub price : DecCoin
    pub asked : s.Ctx
    pub prices : get_min_gas_price d.feemarket_keeper fee.denom x ≡ (ok price, asked)
    pub list : s.DecCoins
    pub listed : s.new_dec_coins price ≡ some list
    pub split : Coin × Coin
    pub accepted :
        check_tx_fee
          (s.with_min_gas_prices list asked)
          price
          fee
          (int64_of_uint64 (s.get_gas tx))
          true
        ≡ ok split
    pub escrowed : s.Ctx
    pub escrows : Escrows d tx fee (s.with_min_gas_prices list asked) escrowed
    pub rest : Prioritises d p tx fee escrowed y

  prioritised :
      (d : Decorator) (p : Params) (tx : s.Tx) (pay : Coin) (x y : s.Ctx)
      → (resolve_priority_coins d pay p.fee_denom >>= (λ converted.
            get_min_gas_price d.feemarket_keeper p.fee_denom >>= (λ base.
              lift (or_panic (get_tx_priority converted (int64_of_uint64 (s.get_gas tx)) base))
              >>= (λ priority. modify (s.with_priority priority)))))
          x
        ≡ (ok tt, y)
      → Prioritises d p tx pay x y
  prioritised d p tx pay x y done =
      let gas = int64_of_uint64 (s.get_gas tx) in
      let (converted, x1, converts, done) =
        >>=-returned (resolve_priority_coins d pay p.fee_denom) _ x done in
      let (base, x2, asks, done) =
        >>=-returned (get_min_gas_price d.feemarket_keeper p.fee_denom) _ x1 done in
      let (priority, x3, sets, done) =
        >>=-returned (lift (or_panic (get_tx_priority converted gas base))) _ x2 done in
      record {
        resolved = x1;
        converted = converted;
        converts = converts;
        priced = x2;
        base = base;
        asks = asks;
        priority = priority;
        priority_is = some_of_panic (get_tx_priority converted gas base) (ap (λ o. o.0) sets);
        end = sym (ap (s.with_priority priority) (ap (λ o. o.1) sets) ∙ ap (λ o. o.1) done);
      }

  -- The enabled part of the handler.
  pub charge-Charges :
      (d : Decorator) (p : Params) (tx : s.Tx) (x y : s.Ctx)
      → charge d p tx false x ≡ (ok tt, y)
      → (fee : Coin) × Charges d p tx fee x y
  unfolding charge
  charge-Charges d p tx x y done =
      let gas = int64_of_uint64 (s.get_gas tx) in
      let (_, x1, coins, done) =
        >>=-returned (lift (check_fee_coins (s.get_fee tx) false)) _ x done in
      let (fee, one) = one_coin (s.get_fee tx) (ap (λ o. o.0) coins) in
      let (pay, x2, pays, done) =
        >>=-returned (lift (pay_coin_of p.fee_denom (s.get_fee tx) false)) _ x1 done in
      let pay_is = pay_coin_first p.fee_denom (s.get_fee tx) fee pay one (ap (λ o. o.0) pays) in
      let same : x ≡ x2 = ap (λ o. o.1) coins ∙ ap (λ o. o.1) pays in
      let (price, x3, prices, done) =
        >>=-returned (get_min_gas_price d.feemarket_keeper pay.denom) _ x2 done in
      let (list, x4, lists, done) =
        >>=-returned (lift (or_panic (s.new_dec_coins price))) _ x3 done in
      let here : x3 ≡ x4 = ap (λ o. o.1) lists in
      let (r, u, accepted, escrows, rest) =
        checked_then d tx pay price gas (s.with_min_gas_prices list x4) _ done in
      (
        pay,
        record {
          one = one ∙ ap (λ f. f ∷ []) (sym pay_is);
          price = price;
          asked = x4;
          prices =
              ap (get_min_gas_price d.feemarket_keeper pay.denom) same
              ∙ prices
              ∙ ap (λ v. (ok price, v)) here;
          list = list;
          listed = some_of_panic (s.new_dec_coins price) (ap (λ o. o.0) lists);
          split = r;
          accepted = accepted;
          escrowed = u;
          escrows = escrows;
          rest = prioritised d p tx pay u y rest;
        },
      )
