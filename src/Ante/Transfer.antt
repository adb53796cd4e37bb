-- ===== src/Ante/Transfer.antt =====
-- What `AnteHandle` of x/feemarket/ante/fee.go has moved between accounts for a transaction that it passes on
-- an enabled market.
use feemarket.Prelude.{
  ◌≡◌, ◌≢◌, ◌⊎◌, refl, sym, ap, ◌∙◌, String, true, false, none, some, [], ◌∷◌, inl, inr,
  if◌then◌else◌, Option-cases, str_eq,
}
use feemarket.Prelude.Int.{int64_of_uint64, pos}
use feemarket.Prelude.Outcome.{Outcome, ok, or_panic, tx_decode, unknown_address, invalid_request}
use feemarket.Prelude.Outcome.Pure
use feemarket.Prelude.Outcome.Action.{Action, pure, raise, lift, modify, ◌>>=◌, ◌>>◌, >>=-returned}
use feemarket.Math.{Math}
use feemarket.Math.Laws.{MathLaws}
use feemarket.Sdk.{Sdk, Coin, Coins}
use feemarket.Sdk.Laws.{StoreLaws}
use feemarket.Sdk.Bank.{BankLaws}
use feemarket.Sdk.Bank.Keeps.{
  Keeps, Keeps-pure, Keeps-raise, Keeps-lift, Keeps-if, Keeps-bind, Keeps-at, Moves, Moves-within,
  SameBalances, SameBalances-trans,
}
use feemarket.Codec.{Codec, CodecLaws}
use feemarket.Params.{Params}
use feemarket.Keeper.{key_params, get_params, resolve_to_denom}
use feemarket.Keeper.Store.{HoldsParams, get_params_lem}
use feemarket.Ante.Handle.{inner_handle-charge, taken}
use feemarket.Keeper.Balances.{
  QuietResolver, resolve_to_denom-Keeps, get_min_gas_price-Keeps, get_params-Keeps,
}
use feemarket.Keeper.Market.{get_min_gas_price}
use feemarket.Ante.{
  Decorator, ante_handle, inner_handle, coin_is_nil, charge, check_fee_coins, check_tx_fee,
  pay_coin_of, escrow_funds, deduct_from, fee_collector, resolve_priority_coins, get_tx_priority,
}
use feemarket.Ante.Charge.{one_coin, payer_of, pay_coin_first, found_some, some_of_panic}

module _ ⦃m : Math⦄ ⦃s : Sdk⦄ (l : MathLaws) (b : BankLaws l) where
  deduct_from-Keeps : (d : Decorator) (tx : s.Tx) (fee : Coin) → Keeps l b (deduct_from d tx fee)
  unfolding deduct_from
  deduct_from-Keeps d tx fee = elim (Option-cases (s.fee_granter tx)) [
    | inl none_is ↦ rw (none_is, deduct_from) (Keeps-pure l b (s.fee_payer tx))
    | inr (granter, some_is) ↦
        rw (some_is, deduct_from)
          (Keeps-bind l b (if d.has_feegrant_keeper then pure tt else raise invalid_request) _
            (Keeps-if l b d.has_feegrant_keeper (pure tt) (raise invalid_request)
              (Keeps-pure l b tt) (Keeps-raise l b invalid_request))
            (λ _.
              Keeps-bind l b _ _
                (Keeps-if l b (s.addr_eq granter (s.fee_payer tx)) (pure tt) _ (Keeps-pure l b tt) (
                  Keeps-if l b (coin_is_nil fee) (pure tt) _ (Keeps-pure l b tt) (
                    Keeps-bind l b (lift (or_panic (s.new_coins fee))) _
                      (Keeps-lift l b (or_panic (s.new_coins fee)))
                      (λ coins. record {
                        at = b.use_granted_fees_keeps granter (s.fee_payer tx) coins tx;
                      }))))
                (λ _. Keeps-pure l b granter)))
  ]

  -- The whole of a coin has moved to the fee collector, from the payer of the fee or its granter.
  pub record Charged (tx : s.Tx) (fee : Coin) (x y : s.Ctx) : Type 0 where
    pub account : s.Addr
    pub account_is : (account ≡ s.fee_payer tx) ⊎ (s.fee_granter tx ≡ some account)
    pub coins : Coins
    pub whole : s.new_coins fee ≡ some coins
    pub moves : Moves l b x y account (b.module_address fee_collector) coins

  pub Charged-within :
      (tx : s.Tx) (fee : Coin) {x y z u : s.Ctx}
      → SameBalances l b x y
      → Charged tx fee y z
      → SameBalances l b z u
      → Charged tx fee x u
  Charged-within tx fee start h rest = record {
    account = h.account;
    account_is = h.account_is;
    coins = h.coins;
    whole = h.whole;
    moves = Moves-within l b h.account (b.module_address fee_collector) h.coins start h.moves rest;
  }

  escrow_funds-Charged :
      (d : Decorator) (tx : s.Tx) (fee : Coin) (x y : s.Ctx)
      → escrow_funds d tx fee x ≡ (ok tt, y)
      → Charged tx fee x y
  unfolding escrow_funds
  escrow_funds-Charged d tx fee x y done =
      let (_, x1, guards, done) =
        >>=-returned (if s.is_fee_tx tx then pure tt else raise tx_decode) _ x done in
      let (from, x2, deducts, done) = >>=-returned (deduct_from d tx fee) _ x1 done in
      let (found, x3, finds, done) = >>=-returned (s.get_account from) _ x2 done in
      let (acc, x4, is_some, done) =
        >>=-returned
          (elim found as (λ _. Action s.Ctx s.Addr) [
            | none ↦ raise unknown_address
            | some a ↦ pure a
          ])
          _ x3 done in
      let (coins, x5, is_coins, done) =
        >>=-returned (lift (or_panic (s.new_coins fee))) _ x4 done in
      let same : x3 ≡ x5 = (found_some found acc x3 x4 is_some).1 ∙ ap (λ o. o.1) is_coins in
      let address : from ≡ acc = sym (
        b.account_address from x2
          (finds ∙ ap (λ f. (ok f, x3)) (found_some found acc x3 x4 is_some).0)) in
      let start : SameBalances l b x x3 =
        SameBalances-trans l b
          (Keeps-at l b _ x
            (Keeps-if l b (s.is_fee_tx tx) (pure tt) (raise tx_decode) (Keeps-pure l b tt)
              (Keeps-raise l b tx_decode))
            guards)
          (SameBalances-trans l b
            (Keeps-at l b (deduct_from d tx fee) x1 (deduct_from-Keeps d tx fee) deducts)
            (Keeps-at l b (s.get_account from) x2 (record { at = b.get_account_keeps from })
              finds)) in
      record {
        account = acc;
        account_is = rw address at (payer_of d tx fee x1 x2 from deducts);
        coins = coins;
        whole = some_of_panic (s.new_coins fee) (ap (λ o. o.0) is_coins);
        moves =
            Moves-within l b acc (b.module_address fee_collector) coins start
              (b.account_to_module_moves acc fee_collector coins x3 y
                (ap (s.send_account_to_module acc fee_collector coins) same ∙ done))
              (λ a d. refl);
      }

  -- The part of the handler from the check of the fee on.
  checked_then-Charged :
      (d : Decorator) (tx : s.Tx) (pay : Coin) (o : Outcome (Unit {0})) (z : s.Ctx)
      (k : Action s.Ctx (Unit {0})) {y : s.Ctx}
      → Keeps l b k
      → (lift o >> (escrow_funds d tx pay >> k)) z ≡ (ok tt, y)
      → Charged tx pay z y
  checked_then-Charged d tx pay o z k {y} quiet done =
      let (_, z1, checks, done) = >>=-returned (lift o) _ z done in
      let same : z ≡ z1 = ap (λ o. o.1) checks in
      let (_, z2, escrows, rest) = >>=-returned (escrow_funds d tx pay) _ z1 done in
      let h : Charged tx pay z z2 =
        escrow_funds-Charged d tx pay z z2 (ap (escrow_funds d tx pay) same ∙ escrows) in
      Charged-within tx pay (λ a e. refl) h (Keeps-at l b k z2 quiet rest)

  resolve_priority_coins-Keeps :
      (d : Decorator) (fee : Coin) (base : String)
      → QuietResolver l b d.feemarket_keeper
      → Keeps l b (resolve_priority_coins d fee base)
  unfolding resolve_priority_coins
  resolve_priority_coins-Keeps d fee base quiet =
      Keeps-if l b (str_eq fee.denom base) (pure fee) _ (Keeps-pure l b fee) (
        Keeps-bind l b (lift (or_panic (s.dec_coin_of_coin fee))) _
          (Keeps-lift l b (or_panic (s.dec_coin_of_coin fee)))
          (λ coin.
            Keeps-bind l b (resolve_to_denom d.feemarket_keeper coin base) _
              (resolve_to_denom-Keeps l b d.feemarket_keeper coin base quiet)
              (λ got.
                Keeps-bind l b (lift (or_panic (m.truncate_int got.dec_amount))) _
                  (Keeps-lift l b (or_panic (m.truncate_int got.dec_amount)))
                  (λ amount. Keeps-lift l b (or_panic (s.new_coin base amount))))))

module _ ⦃m : Math⦄ ⦃s : Sdk⦄ ⦃c : Codec⦄ (l : MathLaws) (b : BankLaws l) where
  -- The enabled part of the handler moves the fee coin, and nothing else.
  charge-Charged :
      (d : Decorator) (p : Params) (tx : s.Tx) (x y : s.Ctx)
      → QuietResolver l b d.feemarket_keeper
      → charge d p tx false x ≡ (ok tt, y)
      → (fee : Coin) × (s.get_fee tx ≡ fee ∷ []) × Charged l b tx fee x y
  unfolding charge
  charge-Charged d p tx x y quiet done =
      let gas = int64_of_uint64 (s.get_gas tx) in
      let (_, x1, coins, done) =
        >>=-returned (lift (check_fee_coins (s.get_fee tx) false)) _ x done in
      let (fee, one) = one_coin (s.get_fee tx) (ap (λ o. o.0) coins) in
      let (pay, x2, pays, done) =
        >>=-returned (lift (pay_coin_of p.fee_denom (s.get_fee tx) false)) _ x1 done in
      let pay_is = pay_coin_first p.fee_denom (s.get_fee tx) fee pay one (ap (λ o. o.0) pays) in
      let same : x ≡ x2 = ap (λ o. o.1) coins ∙ ap (λ o. o.1) pays in
      let (price, x3, prices, done) =
        >>=-returned (get_min_gas_price d.feemarket_keeper pay.denom) _ x2 done in
      let (list, x4, lists, done) =
        >>=-returned (lift (or_panic (s.new_dec_coins price))) _ x3 done in
      let same' : x3 ≡ x4 = ap (λ o. o.1) lists in
      let rest : Action s.Ctx (Unit {0}) =
        resolve_priority_coins d pay p.fee_denom >>= (λ priority_fee.
          get_min_gas_price d.feemarket_keeper p.fee_denom >>= (λ base.
            lift (or_panic (get_tx_priority priority_fee gas base))
            >>= (λ priority. modify (s.with_priority priority)))) in
      let quiet_rest : Keeps l b rest =
        Keeps-bind l b (resolve_priority_coins d pay p.fee_denom) _
          (resolve_priority_coins-Keeps l b d pay p.fee_denom quiet)
          (λ priority_fee.
            Keeps-bind l b (get_min_gas_price d.feemarket_keeper p.fee_denom) _
              (get_min_gas_price-Keeps l b d.feemarket_keeper p.fee_denom quiet)
              (λ base.
                Keeps-bind l b (lift (or_panic (get_tx_priority priority_fee gas base))) _
                  (Keeps-lift l b (or_panic (get_tx_priority priority_fee gas base)))
                  (λ priority. record { at = b.with_priority_keeps priority }))) in
      let z = s.with_min_gas_prices list x4 in
      let h : Charged l b tx pay z y =
        checked_then-Charged l b d tx pay
          (Pure.◌>>=◌ (check_tx_fee z price pay gas true) (λ _. ok tt)) z rest quiet_rest done in
      let start : SameBalances l b x z = λ a e.
        b.with_min_gas_prices_keeps list x4 a e
        ∙ ap (λ u. b.balance u a e) (sym same')
        ∙ Keeps-at l b (get_min_gas_price d.feemarket_keeper pay.denom) x2
            (get_min_gas_price-Keeps l b d.feemarket_keeper pay.denom quiet) prices a e
        ∙ ap (λ u. b.balance u a e) (sym same) in
      (fee, one, rw pay_is at (Charged-within l b tx pay start h (λ a e. refl)))

  -- On an enabled market, `anteHandle` has charged, and the next handler goes on.
  inner_handle-Charged :
      (w : StoreLaws) (e : CodecLaws) (d : Decorator) (p : Params) (tx : s.Tx)
      (next : Action s.Ctx (Unit {0})) (x y : s.Ctx)
      → QuietResolver l b d.feemarket_keeper
      → HoldsParams w e x p
      → p.enabled ≡ true
      → s.block_height x ≢ pos 0
      → inner_handle d tx false next x ≡ (ok tt, y)
      → (fee : Coin) × (v : s.Ctx) × (s.get_fee tx ≡ fee ∷ [])
        × Charged l b tx fee x v
        × (next v ≡ (ok tt, y))
  inner_handle-Charged w e d p tx next x y quiet held enabled height done =
      let (u, v, still, charged, nexts) =
        inner_handle-charge w e d p tx next x y held enabled height done in
      let (fee, one, h) = charge-Charged d p tx u v quiet charged in
      (
        fee,
        v,
        one,
        Charged-within l b tx fee (Keeps-at l b get_params x (get_params-Keeps l b) still) h
            (λ a d. refl),
        nexts,
      )

  -- Placeholder.
  pub ante_handle-Charged :
      (w : StoreLaws) (e : CodecLaws) (d : Decorator) (p : Params) (tx : s.Tx)
      (next : Action s.Ctx (Unit {0})) (x y : s.Ctx)
      → QuietResolver l b d.feemarket_keeper
      → HoldsParams w e x p
      → p.enabled ≡ true
      → s.block_height x ≢ pos 0
      → ante_handle d tx false next x ≡ (ok tt, y)
      → (fee : Coin) × (v : s.Ctx) × (s.get_fee tx ≡ fee ∷ [])
        × Charged l b tx fee x v
        × (next v ≡ (ok tt, y))
  unfolding ante_handle
  ante_handle-Charged w e d p tx next x y quiet held enabled height done =
      let (bytes, held_b, decodes) = held in
      let (x1, gets, (same, still)) = get_params_lem w e x p held in
      let inner =
        taken p.enabled (inner_handle d tx false next) _ x1 enabled
          (rw (gets, ante_handle) at done) in
      let (fee, v, one, h, nexts) =
        inner_handle-Charged w e d p tx next x1 y quiet (bytes, same key_params ∙ held_b, decodes)
          enabled (λ h. height (sym still ∙ h)) inner in
      (
        fee,
        v,
        one,
        Charged-within l b tx fee (Keeps-at l b get_params x (get_params-Keeps l b) gets) h
            (λ a d. refl),
        nexts,
      )
