-- ===== src/Keeper/Market.antt =====
-- `UpdateFeeMarket` and the gas price queries of x/feemarket/keeper/feemarket.go, and `EndBlock` of
-- keeper/abci.go.
use feemarket.Prelude.{String, List, [], ◌∷◌, if◌then◌else◌, str_eq}
use feemarket.Prelude.Outcome.{Outcome, ok, err, panic, or_panic}
use feemarket.Prelude.Outcome.Action.{Action, pure, lift, ◌>>=◌}
use feemarket.Math.{Math}
use feemarket.Sdk.{Sdk, DecCoin}
use feemarket.Codec.{Codec}
use feemarket.Params.{Params}
use feemarket.State.{
  State, update_learning_rate, update_base_gas_price, get_average_utilization, get_net_utilization,
  increment_height,
}
use feemarket.Keeper.{Keeper, get_state, set_state, get_params, resolve_to_denom}

module _ ⦃m : Math⦄ ⦃s : Sdk⦄ ⦃c : Codec⦄ where
  -- The part of `UpdateFeeMarket` that follows the reads. The log line evaluates both utilizations
  -- with no function deferred to recover.
  unfoldable pub update_market : State → Params → Action s.Ctx (Unit {0})
  update_market state params = do
    let rated = (update_learning_rate state params).0
    let priced = (update_base_gas_price rated params).0
    _ ← lift (or_panic (get_average_utilization priced params))
    _ ← lift (or_panic (get_net_utilization priced params))
    next ← lift (increment_height priced)
    set_state next

  -- `Keeper.UpdateFeeMarket`
  unfoldable pub update_fee_market : Action s.Ctx (Unit {0})
  unfolding update_market
  update_fee_market = do
    params ← get_params
    if params.enabled then get_state >>= (λ state. update_market state params) else pure tt

  -- `Keeper.EndBlock`
  abbrev pub end_block : Action s.Ctx (Unit {0})
  end_block = update_fee_market

  -- `Keeper.GetBaseGasPrice`
  unfoldable pub get_base_gas_price : Action s.Ctx m.LegacyDec
  get_base_gas_price = do state ← get_state; pure state.base_gas_price

  -- `Keeper.GetLearningRate`
  unfoldable pub get_learning_rate : Action s.Ctx m.LegacyDec
  get_learning_rate = do state ← get_state; pure state.learning_rate

  -- `Keeper.GetMinGasPrice`
  unfoldable pub get_min_gas_price : Keeper → String → Action s.Ctx DecCoin
  unfolding get_base_gas_price
  get_min_gas_price k denom = do
    price ← get_base_gas_price
    params ← get_params
    base ← lift (or_panic (s.new_dec_coin params.fee_denom price))
    if str_eq params.fee_denom denom then pure base else resolve_to_denom k base denom

  -- A denomination that the resolver refuses is skipped.
  add_gas_price : s.DecCoins → Outcome DecCoin → Outcome s.DecCoins
  add_gas_price prices (ok coin) = or_panic (s.add_dec_coin prices coin)
  add_gas_price prices (err _) = ok prices
  add_gas_price prices panic = panic

  add_gas_prices : Keeper → DecCoin → List String → s.DecCoins → Action s.Ctx s.DecCoins
  unfolding add_gas_price
  add_gas_prices k base [] prices ctx = (ok prices, ctx)
  add_gas_prices k base (denom ∷ denoms) prices ctx =
      let (price, ctx') = resolve_to_denom k base denom ctx in
      (do prices' ← lift (add_gas_price prices price); add_gas_prices k base denoms prices') ctx'

  -- `Keeper.GetMinGasPrices`: `ExtraDenoms` is called on the resolver with no test for nil.
  unfoldable pub get_min_gas_prices : Keeper → Action s.Ctx s.DecCoins
  unfolding get_base_gas_price add_gas_prices
  get_min_gas_prices k = do
    price ← get_base_gas_price
    params ← get_params
    base ← lift (or_panic (s.new_dec_coin params.fee_denom price))
    prices ← lift (or_panic (s.new_dec_coins base))
    resolver ← lift (or_panic k.resolver)
    denoms ← resolver.extra_denoms
    add_gas_prices k base denoms prices
