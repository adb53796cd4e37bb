-- ===== src/Post.antt =====
-- The post handler of x/feemarket/post/fee.go: the fee for the gas consumed, the tip to the proposer, and
-- the gas that the state of the market records.
pub mod Settle
pub mod Transfer
pub mod Pays
pub mod Skip
use feemarket.Prelude.{ℕ, String, Bool, true, false, not, ◌&&◌, Option, none, some, if◌then◌else◌}
use feemarket.Prelude.Int.{ℤ, pos, leb_ℤ, int64_of_uint64}
use feemarket.Prelude.Outcome.{Outcome, ok, err, or_panic, tx_decode, invalid_gas_limit}
use feemarket.Prelude.Outcome.Action.{Action, pure, raise, lift, gets, ◌>>=◌, ◌>>◌}
use feemarket.Math.{Math}
use feemarket.Sdk.{Sdk, Coin, Coins}
use feemarket.Codec.{Codec}
use feemarket.Params.{Params}
use feemarket.State.{State, update}
use feemarket.Keeper.{Keeper, get_params, get_state, set_state, get_enabled_height}
use feemarket.Keeper.Market.{get_min_gas_price}
use feemarket.Keeper.Genesis.{wrap}
use feemarket.Ante.{
  check_tx_fee, check_fee_coins, pay_coin_of, coin_is_nil, fee_collector, no_gas, is_zero_height,
}

-- `BankSendGasConsumption`
abbrev pub bank_send_gas_consumption : ℕ
bank_send_gas_consumption = 12490

-- The fee collector of the SDK's x/auth.
abbrev pub auth_fee_collector : String
auth_fee_collector = "fee_collector"

module _ ⦃m : Math⦄ ⦃s : Sdk⦄ where
  -- `DeductCoins`
  unfoldable pub deduct_coins : Coins → Bool → Action s.Ctx (Unit {0})
  deduct_coins coins distribute_fees =
      if distribute_fees
      then s.send_module_to_module fee_collector auth_fee_collector coins
      else pure tt

  -- `SendTip`
  abbrev pub send_tip : s.Addr → Coins → Action s.Ctx (Unit {0})
  send_tip proposer coins = s.send_module_to_account fee_collector proposer coins

  -- A coin that is not nil, as coins, to be moved by `send`.
  pay_coin : Coin → (Coins → Action s.Ctx (Unit {0})) → Action s.Ctx (Unit {0})
  pay_coin coin send =
      if coin_is_nil coin then pure tt else lift (or_panic (s.new_coins coin)) >>= send

  module _ ⦃c : Codec⦄ where
    -- `PayOutFeeAndTip`, without the events
    unfoldable pub pay_out_fee_and_tip : Coin → Coin → Action s.Ctx (Unit {0})
    unfolding pay_coin deduct_coins
    pay_out_fee_and_tip fee tip = do
      params ← wrap "error getting feemarket params: %v" get_params
      pay_coin fee (λ coins. deduct_coins coins params.distribute_fees)
      proposer ← gets s.proposer
      pay_coin tip (send_tip proposer)

    -- The fee and the tip of `PostHandle`: two zero coins to simulate with.
    unfoldable pub split_fee : Keeper → Params → s.Tx → Bool → Action s.Ctx (Coin × Coin)
    split_fee k params tx simulate = do
      tip ← lift (or_panic (s.new_coin params.fee_denom (m.new_int (pos 0))))
      coin ← lift (pay_coin_of params.fee_denom (s.get_fee tx) simulate)
      min_gas_price ← get_min_gas_price k coin.denom
      ctx ← gets (λ x. x)
      lift (
          if simulate
          then ok (coin, tip)
          else check_tx_fee ctx min_gas_price coin (int64_of_uint64 (s.get_gas tx)) false)

    -- `PostHandle` after its early returns, for an enabled market and a later height.
    unfoldable pub settle : Keeper → Params → s.Tx → Bool → Action s.Ctx (Unit {0})
    unfolding split_fee pay_out_fee_and_tip
    settle k params tx simulate = do
      state ← get_state
      gas ← gets s.gas_consumed
      lift (check_fee_coins (s.get_fee tx) simulate)
      paid ← split_fee k params tx simulate
      pay_out_fee_and_tip paid.0 paid.1
      updated ← lift (update state gas params)
      set_state updated
      if simulate then s.consume_gas bank_send_gas_consumption else pure tt

    -- The part of `PostHandle` that an enabled market runs.
    unfoldable pub settle_later : Keeper → Params → s.Tx → Bool → Action s.Ctx (Unit {0})
    unfolding settle
    settle_later k params tx simulate = do
      enabled_height ← get_enabled_height
      height ← gets s.block_height
      if leb_ℤ height enabled_height then pure tt else settle k params tx simulate

    -- `PostHandle`
    unfoldable pub post_handle :
        Keeper → s.Tx → Bool → Action s.Ctx (Unit {0}) → Action s.Ctx (Unit {0})
    post_handle k tx simulate next ctx =
        if is_zero_height (s.block_height ctx)
        then next ctx
        else (do
          if s.is_fee_tx tx then pure tt else raise tx_decode
          if no_gas tx simulate ctx then raise invalid_gas_limit else pure tt
          params ← get_params
          if params.enabled then settle_later k params tx simulate else pure tt
          next)
            ctx
