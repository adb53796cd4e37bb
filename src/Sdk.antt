-- ===== src/Sdk.antt =====
-- The parts of the Cosmos SDK and of Go's library that the keeper and the decorators call. None is code
-- of this repository, so all are parameters: a context with what it points to (stores, gas meter,
-- balances), coins, and the numbers and texts of `strconv`.
pub mod Laws
pub mod Bank
use feemarket.Prelude.{ℕ, String, Bool, Option, List}
use feemarket.Prelude.Int.{ℤ}
use feemarket.Prelude.Outcome.{Outcome}
use feemarket.Prelude.Outcome.Action.{Action}
use feemarket.Math.{Math}

-- A byte string, as a list of numbers below 256.
abbrev pub Bytes : Type 0
Bytes = List ℕ

module _ ⦃m : Math⦄ where
  -- `sdk.Coin` and `sdk.DecCoin`; the amount may be nil.
  pub record Coin : Type 0 where
    pub denom : String
    pub amount : m.Int

  pub record DecCoin : Type 0 where
    pub dec_denom : String
    pub dec_amount : m.LegacyDec

  -- `sdk.Coins` is a slice of coins.
  abbrev pub Coins : Type 0
  Coins = List Coin

pub record Sdk ⦃m : Math⦄ : Type 1 where
  pub Ctx : Type 0
  -- `sdk.AccAddress`, `sdk.DecCoins`
  pub Addr : Type 0
  pub DecCoins : Type 0
  -- `NewCoin`, `NewDecCoinFromDec`, `NewDecCoinFromCoin`, `NewCoins`, `NewDecCoins`, `DecCoins.Add`
  pub new_coin : String → m.Int → Option Coin
  pub new_dec_coin : String → m.LegacyDec → Option DecCoin
  pub dec_coin_of_coin : Coin → Option DecCoin
  pub new_coins : Coin → Option Coins
  pub new_dec_coins : DecCoin → Option DecCoins
  pub add_dec_coin : DecCoins → DecCoin → Option DecCoins
  -- `sdk.Coin{}`, `Coin.IsGTE`, `Coin.Sub`
  pub empty_coin : Coin
  pub is_gte : Coin → Coin → Option Bool
  pub sub_coin : Coin → Coin → Option Coin
  -- `ctx.BlockHeight`, `ctx.BlockHeader().ProposerAddress`
  pub block_height : Ctx → ℤ
  pub proposer : Ctx → Addr
  -- `ctx.KVStore(key).Get`, `.Set`; a read may be charged to the gas meter
  pub kv_get : Bytes → Action Ctx (Option Bytes)
  pub kv_set : Bytes → Bytes → Action Ctx (Unit {0})
  -- `ctx.GasMeter().GasConsumed()`, `.ConsumeGas`
  pub gas_consumed : Ctx → ℕ
  pub consume_gas : ℕ → Action Ctx (Unit {0})
  -- `ctx.WithMinGasPrices`, `ctx.WithPriority`
  pub with_min_gas_prices : DecCoins → Ctx → Ctx
  pub with_priority : ℤ → Ctx → Ctx
  -- `strconv.FormatInt` and `strconv.ParseInt` in base 10
  pub format_int : ℤ → Bytes
  pub parse_int : Bytes → Outcome ℤ
  -- `sdk.AccAddressFromBech32`
  pub addr_from_bech32 : String → Outcome Addr
  -- `sdk.Tx`, whether it is a `sdk.FeeTx`, and the methods of one
  pub Tx : Type 0
  pub is_fee_tx : Tx → Bool
  pub get_gas : Tx → ℕ
  pub get_fee : Tx → Coins
  pub fee_payer : Tx → Addr
  pub fee_granter : Tx → Option Addr
  -- `bytes.Equal` on addresses
  pub addr_eq : Addr → Addr → Bool
  -- the account keeper's `GetAccount`, with the address of the account that it finds
  pub get_account : Addr → Action Ctx (Option Addr)
  -- the fee grant keeper's `UseGrantedFees`, given the granter, the grantee, the fee and the messages of
  -- the transaction
  pub use_granted_fees : Addr → Addr → Coins → Tx → Action Ctx (Unit {0})
  -- the bank keeper's `SendCoinsFromAccountToModule`, `SendCoinsFromModuleToModule` and
  -- `SendCoinsFromModuleToAccount`
  pub send_account_to_module : Addr → String → Coins → Action Ctx (Unit {0})
  pub send_module_to_module : String → String → Coins → Action Ctx (Unit {0})
  pub send_module_to_account : String → Addr → Coins → Action Ctx (Unit {0})
