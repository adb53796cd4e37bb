-- ===== src/Ante.antt =====
-- The ante handler of x/feemarket/ante/fee.go: the check of the fee, the escrow of the whole fee and the
-- priority. The handler's context is the state of the action: it carries the stores and balances.
-- An error that `Wrapf` wraps keeps its identity; its text is left out, as is logging.
pub mod Fee
pub mod Priority
pub mod Charge
pub mod Handle
pub mod Transfer
use feemarket.Prelude.{
  ℕ, zero, suc, String, Bool, true, false, not, ◌&&◌, Option, none, some, List, [], ◌∷◌,
  if◌then◌else◌, str_eq, length, ◌==◌, ltb,
}
use feemarket.Prelude.Int.{ℤ, pos, negsuc, ltb_ℤ, int64_max, int64_of_uint64}
use feemarket.Prelude.Outcome.{
  Outcome, ok, err, panic, Error, or_panic, no_fee_coins, too_many_fee_coins, tx_decode,
  invalid_gas_limit, insufficient_fee, invalid_request, unknown_address,
}
use feemarket.Prelude.Outcome.Pure
use feemarket.Prelude.Outcome.Partial
use feemarket.Prelude.Outcome.Action.{Action, pure, raise, lift, gets, modify, ◌>>=◌, ◌>>◌}
use feemarket.Math.{Math}
use feemarket.Sdk.{Sdk, Coin, Coins, DecCoin}
use feemarket.Codec.{Codec}
use feemarket.Params.{Params}
use feemarket.Keeper.{Keeper, get_params, resolve_to_denom}
use feemarket.Keeper.Market.{get_min_gas_price}

-- `ctx.BlockHeight() == 0`
abbrev pub is_zero_height : ℤ → Bool
is_zero_height (pos zero) = true
is_zero_height _ = false

-- `FeeCollectorName`
abbrev pub fee_collector : String
fee_collector = "feemarket-fee-collector"

module _ ⦃m : Math⦄ ⦃s : Sdk⦄ where
  -- The coin of a price for an amount of gas: `NewCoin(denom, price.Mul(gas).Ceil().RoundInt())`.
  unfoldable pub gas_cost : DecCoin → ℤ → Option Coin
  gas_cost price gas = Partial.◌>>=◌ (m.mul price.dec_amount (m.new_dec gas)) λ product.
      Partial.◌>>=◌ (m.ceil product)
        λ whole. Partial.◌>>=◌ (m.round_int whole) λ amount. s.new_coin price.dec_denom amount

  -- `CheckTxFee`
  unfoldable pub check_tx_fee : s.Ctx → DecCoin → Coin → ℤ → Bool → Outcome (Coin × Coin)
  check_tx_fee ctx gas_price fee_coin fee_gas is_ante =
      Pure.◌>>=◌ (or_panic (m.is_zero gas_price.dec_amount)) λ free.
        if free
        then ok (fee_coin, s.empty_coin)
        else Pure.◌>>=◌ (or_panic (gas_cost gas_price (int64_of_uint64 (s.gas_consumed ctx))))
            λ consumed. Pure.◌>>=◌ (or_panic (gas_cost gas_price fee_gas)) λ required.
              Pure.◌>>=◌ (or_panic (s.is_gte fee_coin required)) λ enough.
                if enough
                then (let paid = if is_ante then required else consumed in
                    Pure.◌>>=◌ (or_panic (s.sub_coin fee_coin paid)) λ tip. ok (paid, tip))
                else err insufficient_fee

module _ ⦃m : Math⦄ where
  -- The last part of `GetTxPriority`, on the scaled price.
  abbrev pub clamp_priority : m.LegacyDec → Option ℤ
  clamp_priority scaled = Partial.◌>>=◌ (m.gte scaled (m.new_dec (pos int64_max))) λ high.
      if high
      then some (pos int64_max)
      else Partial.◌>>=◌ (m.lte scaled m.one_dec)
          λ low. if low then some (pos 0) else m.truncate_int64 scaled

  -- `GetTxPriority` for a gas limit other than 0, with `gasPricePrecision` written out.
  abbrev pub effective_priority : Coin → ℤ → DecCoin → Option ℤ
  effective_priority fee gas_limit price = Partial.◌>>=◌ (m.is_zero price.dec_amount) λ free.
      if free
      then m.to_int64 fee.amount
      else Partial.◌>>=◌ (m.to_dec fee.amount) λ amount.
        Partial.◌>>=◌ (m.quo_int64 amount gas_limit) λ effective.
          Partial.◌>>=◌ (m.quo effective price.dec_amount)
            λ normalized. Partial.◌>>=◌ (m.mul_int64 normalized (pos 1_000_000)) clamp_priority

  -- `GetTxPriority`; `none` is a panic.
  unfoldable pub get_tx_priority : Coin → ℤ → DecCoin → Option ℤ
  get_tx_priority fee (pos zero) price = some (pos 0)
  get_tx_priority fee (pos (suc g)) price = effective_priority fee (pos (suc g)) price
  get_tx_priority fee (negsuc g) price = effective_priority fee (negsuc g) price

-- The decorators `FeeMarketCheckDecorator` and `feeMarketCheckDecorator`: their fee market keeper, and
-- whether they have a fee grant keeper. `fallback` is the ante handler of another module, or nil.
pub record Decorator ⦃m : Math⦄ ⦃s : Sdk⦄ : Type 0 where
  pub feemarket_keeper : Keeper
  pub has_feegrant_keeper : Bool
  pub fallback : Option (s.Tx → Bool → Action s.Ctx (Unit {0}) → Action s.Ctx (Unit {0}))

module _ ⦃m : Math⦄ ⦃s : Sdk⦄ where
  -- `Coin.IsNil`
  abbrev pub coin_is_nil : Coin → Bool
  coin_is_nil c = m.int_is_nil c.amount

  -- `escrow`
  abbrev pub escrow : s.Addr → Coins → Action s.Ctx (Unit {0})
  escrow acc coins = s.send_account_to_module acc fee_collector coins

  -- The part of `EscrowFunds` about a fee granter: the account that pays.
  unfoldable pub deduct_from : Decorator → s.Tx → Coin → Action s.Ctx s.Addr
  deduct_from d tx provided = elim (s.fee_granter tx) [
    | none ↦ pure (s.fee_payer tx)
    | some granter ↦ do
      if d.has_feegrant_keeper then pure tt else raise invalid_request
      if s.addr_eq granter (s.fee_payer tx)
          then pure tt
          else if coin_is_nil provided
          then pure tt
          else (lift (or_panic (s.new_coins provided)) >>= λ coins.
              s.use_granted_fees granter (s.fee_payer tx) coins tx)
      pure granter
  ]

  -- `EscrowFunds`
  unfoldable pub escrow_funds : Decorator → s.Tx → Coin → Action s.Ctx (Unit {0})
  unfolding deduct_from
  escrow_funds d tx provided = do
    if s.is_fee_tx tx then pure tt else raise tx_decode
    from ← deduct_from d tx provided
    found ← s.get_account from
    acc ← elim found [ none ↦ raise unknown_address | some a ↦ pure a ]
    coins ← lift (or_panic (s.new_coins provided))
    escrow acc coins

  -- `resolveTxPriorityCoins`
  unfoldable pub resolve_priority_coins : Decorator → Coin → String → Action s.Ctx Coin
  resolve_priority_coins d fee base_denom = if str_eq fee.denom base_denom then pure fee else (do
    fee_dec ← lift (or_panic (s.dec_coin_of_coin fee))
    converted ← resolve_to_denom d.feemarket_keeper fee_dec base_denom
    amount ← lift (or_panic (m.truncate_int converted.dec_amount))
    lift (or_panic (s.new_coin base_denom amount)))

  -- The checks on the number of fee coins, which both handlers make.
  abbrev pub check_fee_coins : Coins → Bool → Outcome (Unit {0})
  check_fee_coins [] true = ok tt
  check_fee_coins [] false = err no_fee_coins
  check_fee_coins (_ ∷ []) simulate = ok tt
  check_fee_coins (_ ∷ _ ∷ _) simulate = err too_many_fee_coins

  -- `payCoin`: a zero coin to simulate with, else `feeCoins[0]`.
  abbrev pub pay_coin_of : String → Coins → Bool → Outcome Coin
  pay_coin_of denom coins true = or_panic (s.new_coin denom (m.new_int (pos 0)))
  pay_coin_of denom [] false = panic
  pay_coin_of denom (coin ∷ _) false =
      Pure.◌>>=◌ (or_panic (s.new_coin denom (m.new_int (pos 0)))) (λ _. ok coin)

  module _ ⦃c : Codec⦄ where
    -- `anteHandle` after its early returns, for an enabled market.
    unfoldable pub charge : Decorator → Params → s.Tx → Bool → Action s.Ctx (Unit {0})
    charge d params tx simulate = do
      lift (check_fee_coins (s.get_fee tx) simulate)
      pay_coin ← lift (pay_coin_of params.fee_denom (s.get_fee tx) simulate)
      let fee_gas = int64_of_uint64 (s.get_gas tx)
      min_gas_price ← get_min_gas_price d.feemarket_keeper pay_coin.denom
      prices ← lift (or_panic (s.new_dec_coins min_gas_price))
      modify (s.with_min_gas_prices prices)
      ctx ← gets (λ x. x)
      lift (
          if simulate
          then ok tt
          else Pure.◌>>=◌ (check_tx_fee ctx min_gas_price pay_coin fee_gas true) (λ _. ok tt))
      escrow_funds d tx pay_coin
      priority_fee ← resolve_priority_coins d pay_coin params.fee_denom
      base_gas_price ← get_min_gas_price d.feemarket_keeper params.fee_denom
      priority ← lift (or_panic (get_tx_priority priority_fee fee_gas base_gas_price))
      modify (s.with_priority priority)

    -- The guard of both handlers on a transaction with no gas.
    abbrev pub no_gas : s.Tx → Bool → s.Ctx → Bool
    no_gas tx simulate ctx = not simulate && ltb_ℤ (pos 0) (s.block_height ctx) && s.get_gas tx == 0

    -- `anteHandle`
    unfoldable pub inner_handle :
        Decorator → s.Tx → Bool → Action s.Ctx (Unit {0}) → Action s.Ctx (Unit {0})
    unfolding charge
    inner_handle d tx simulate next ctx =
        if is_zero_height (s.block_height ctx)
        then next ctx
        else (do
          if s.is_fee_tx tx then pure tt else raise tx_decode
          if no_gas tx simulate ctx then raise invalid_gas_limit else pure tt
          params ← get_params
          if params.enabled then charge d params tx simulate else pure tt
          next)
            ctx

    -- `AnteHandle`
    unfoldable pub ante_handle :
        Decorator → s.Tx → Bool → Action s.Ctx (Unit {0}) → Action s.Ctx (Unit {0})
    unfolding inner_handle
    ante_handle d tx simulate next = do
      params ← get_params
      if params.enabled
          then inner_handle d tx simulate next
          else elim d.fallback [ some f ↦ f tx simulate next | none ↦ next ]
