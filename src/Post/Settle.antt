-- ===== src/Post/Settle.antt =====
-- What `PostHandle` of x/feemarket/post/fee.go charges and records.
use feemarket.Prelude.{◌≤◌, ◌<◌, ◌≡◌, ◌∙◌, ap, false, inl, inr, Option-cases, arith, [], ◌∷◌}
use mathlib.Core.Path.{subst}
use feemarket.Prelude.Int.{pos, int64_max, int64_of_uint64, two_64}
use feemarket.Prelude.Outcome.{Outcome, ok, panic}
use feemarket.Prelude.Outcome.Action.{lift, >>=-returned}
use feemarket.Math.{Math}
use feemarket.Math.Laws.{MathLaws}
use feemarket.Sdk.{Sdk, Coin, DecCoin}
use feemarket.Sdk.Laws.{StoreLaws, CoinLaws}
use feemarket.Codec.{Codec, CodecLaws}
use feemarket.Params.{Params}
use feemarket.State.{State, update}
use feemarket.State.Market.{IsMarket, spend-IsMarket}
use feemarket.Keeper.{Keeper, get_state}
use feemarket.Keeper.Store.{HoldsState, get_state_lem, set_state_lem}
use feemarket.Keeper.EndBlock.{market-IsStorableState}
use feemarket.Keeper.Market.{get_min_gas_price}
use feemarket.Ante.{check_tx_fee, check_fee_coins}
use feemarket.Ante.Charge.{one_coin}
use feemarket.Ante.Fee.{CheckEffect, check_tx_fee-CheckEffect}
use feemarket.Post.{settle, split_fee, pay_out_fee_and_tip}

module _ ⦃m : Math⦄ ⦃s : Sdk⦄ ⦃c : Codec⦄ (l : MathLaws) (w : StoreLaws) (e : CodecLaws) where
  -- What is held by the end of a sequence is held by its end under another name.
  held_at :
      (u : State) {y z : s.Ctx}
      → ◌≡◌ {A = Outcome (Unit {0}) × s.Ctx} (ok tt, y) (ok tt, z)
      → HoldsState w e y u
      → HoldsState w e z u
  held_at u {y} {z} same held = subst (λ x. HoldsState w e x u) (ap (λ o. o.1) same) held

  -- A transaction that PostHandle has settled, outside a simulation and on a stored state in its
  -- bounds, gave one fee coin; Update has added the gas consumed, as it was when the state had been
  -- read, to that state, and the result is in its bounds and is what the store holds.
  pub settle-records :
      (k : Keeper) (p : Params) (tx : s.Tx) (x : s.Ctx) (t : State) {y : s.Ctx}
      → settle k p tx false x ≡ (ok tt, y)
      → HoldsState w e x t
      → IsMarket l p t
      → p.max_block_utilization < two_64
      → (z : s.Ctx) × (u : State) × (fee : Coin) × (get_state x ≡ (ok t, z))
        × (s.get_fee tx ≡ fee ∷ [])
        × (update t (s.gas_consumed z) p ≡ ok u)
        × IsMarket l p u
        × HoldsState w e y u
  unfolding settle
  settle-records k p tx x t done held market top =
      let (z, gets_t, _) = get_state_lem w e x t held in
      let (_, z1, coins, done) =
        >>=-returned (lift (check_fee_coins (s.get_fee tx) false)) _ z (rw gets_t at done) in
      let (paid, z2, _, done) = >>=-returned (split_fee k p tx false) _ z1 done in
      let (_, z3, _, done) = >>=-returned (pay_out_fee_and_tip paid.0 paid.1) _ z2 done in
      let (u, z4, updates, done) = >>=-returned (lift (update t (s.gas_consumed z) p)) _ z3 done in
      let returns : update t (s.gas_consumed z) p ≡ ok u = ap (λ o. o.0) updates in
      let market_u = spend-IsMarket l p t u (s.gas_consumed z) returns market in
      let (y', sets, held_u, _, _) =
        set_state_lem w e z4 u (market-IsStorableState l p u top market_u) in
      let (fee, one) = one_coin (s.get_fee tx) (ap (λ o. o.0) coins) in
      (z, u, fee, gets_t, one, returns, market_u, held_at u (rw sets at done) held_u)

module _ ⦃m : Math⦄ ⦃s : Sdk⦄ ⦃c : Codec⦄ (l : MathLaws) (n : CoinLaws l) where
  -- Where the gas consumed and the gas limit fit an int64, the fee and the tip that PostHandle pays
  -- for a transaction outside a simulation split its fee coin as CheckTxFee does under the gas
  -- price of its denomination: the cost of the gas consumed, and what is left of the coin.
  pub split_fee-CheckEffect :
      (k : Keeper) (p : Params) (tx : s.Tx) (x : s.Ctx) (coin paid tip : Coin) {y : s.Ctx}
      → split_fee k p tx false x ≡ (ok (paid, tip), y)
      → s.get_fee tx ≡ coin ∷ []
      → s.gas_consumed y ≤ int64_max
      → s.get_gas tx ≤ int64_max
      → (price : DecCoin) × ((get_min_gas_price k coin.denom x) ≡ (ok price, y))
        × CheckEffect l n y price coin (s.get_gas tx) false (ok (paid, tip))
  unfolding split_fee
  split_fee-CheckEffect k p tx x coin paid tip {y} done one consumed_le gas_le =
      elim (Option-cases (s.new_coin p.fee_denom (m.new_int (pos 0)))) [
        | inl stops ↦ absurd (panic_ne (rw stops at done))
        | inr (_, z) ↦
            let (price, y1, prices, done) =
              >>=-returned (get_min_gas_price k coin.denom) _ x (rw (one, z) at done) in
            let same : y1 ≡ y = ap (λ o. o.1) done in
            let checks : check_tx_fee y1 price coin (pos (s.get_gas tx)) false ≡ ok (paid, tip) =
              ap (λ g. check_tx_fee y1 price coin g false) whole ∙ ap (λ o. o.0) done in
            let effect =
              check_tx_fee-CheckEffect l n y1 price coin (s.get_gas tx) (rw same consumed_le)
                false in
            (price, prices ∙ ap (λ d. (ok price, d)) same, rw same at (rw checks at effect))
      ]
    where
      panic_ne :
          {a b : s.Ctx} → ◌≡◌ {A = Outcome (Coin × Coin) × s.Ctx} (panic, a) (ok (paid, tip), b) → ⊥
      panic_ne h = cc

      whole : pos (s.get_gas tx) ≡ int64_of_uint64 (s.get_gas tx)
      whole = ground (arith, gas_le)
