-- ===== src/Keeper/Genesis.antt =====
-- Genesis of x/feemarket/keeper/genesis.go with types/genesis.go, and the message server of
-- keeper/msg_server.go with types/msgs.go and the query server of keeper/query_server.go.
use feemarket.Prelude.{String, not, ◌&&◌, if◌then◌else◌, str_eq, length, ◌==◌}
use feemarket.Prelude.Int.{negsuc}
use feemarket.Prelude.Outcome.{Outcome, ok, err, panic, message}
use feemarket.Prelude.Outcome.Pure
use feemarket.Prelude.Outcome.Action.{Action, pure, raise, lift, gets, ◌>>=◌, ◌>>◌}
use feemarket.Math.{Math}
use feemarket.Sdk.{Sdk, DecCoin}
use feemarket.Codec.{Codec}
use feemarket.Params.{Params, validate_params}
use feemarket.State.{State, elems, new_state, validate_state}
use feemarket.Keeper.{Keeper, get_state, set_state, get_params, set_params, set_enabled_height}
use feemarket.Keeper.Market.{get_min_gas_price, get_min_gas_prices}

module _ ⦃m : Math⦄ where
  -- `GenesisState`, `NewGenesisState` being its constructor
  pub record GenesisState : Type 0 where
    pub params : Params
    pub state : State

  -- `GenesisState.ValidateBasic`
  abbrev pub validate_genesis : GenesisState → Outcome (Unit {0})
  validate_genesis g = Pure.◌>>◌ (validate_params g.params) (validate_state g.state)

  -- `MsgParams`
  pub record MsgParams : Type 0 where
    pub authority : String
    pub msg_params : Params

-- A panic in place of an error, as in `if err != nil { panic(err) }`.
abbrev pub panicking : {S A : Type 0} → Outcome A × S → Outcome A × S
panicking (ok a, s) = (ok a, s)
panicking (err _, s) = (panic, s)
panicking (panic, s) = (panic, s)

abbrev pub must : {S A : Type 0} → Action S A → Action S A
must f s = panicking (f s)

-- `fmt.Errorf("…: %w", err)`: an error of that text in place of the one that it wraps.
abbrev pub retext : {S A : Type 0} → String → Outcome A × S → Outcome A × S
retext text (ok a, s) = (ok a, s)
retext text (err _, s) = (err (message text), s)
retext text (panic, s) = (panic, s)

abbrev pub wrap : {S A : Type 0} → String → Action S A → Action S A
wrap text f s = retext text (f s)

module _ ⦃m : Math⦄ ⦃s : Sdk⦄ where
  -- `MsgParams.ValidateBasic`: the parameters are not looked at.
  unfoldable pub validate_msg : MsgParams → Outcome (Unit {0})
  validate_msg msg = Pure.◌>>=◌ (s.addr_from_bech32 msg.authority) (λ _. ok tt)

module _ ⦃m : Math⦄ ⦃s : Sdk⦄ ⦃c : Codec⦄ where
  -- `Keeper.InitGenesis`
  unfoldable pub init_genesis : GenesisState → Action s.Ctx (Unit {0})
  init_genesis g = do
    must (lift (validate_genesis g))
    if g.params.window == length (elems g.state.window) then pure tt else lift panic
    must (set_params g.params)
    must (set_state g.state)
    set_enabled_height (negsuc 0)

  -- `Keeper.ExportGenesis`
  unfoldable pub export_genesis : Action s.Ctx GenesisState
  export_genesis = do
    params ← must get_params
    state ← must get_state
    pure (record { params = params; state = state })

  -- `MsgServer.Params`
  unfoldable pub msg_params_handler : Keeper → MsgParams → Action s.Ctx (Unit {0})
  msg_params_handler k msg = do
    if str_eq msg.authority k.authority
        then pure tt
        else raise (message "invalid authority to execute message")
    got ← wrap "error getting params: %w" get_params
    height ← gets s.block_height
    if not got.enabled && msg.msg_params.enabled then set_enabled_height height else pure tt
    let params = msg.msg_params
    wrap "error setting params: %w" (set_params params)
    wrap "error setting state: %w"
        (set_state (new_state params.window params.min_base_gas_price params.min_learning_rate))

  -- `QueryServer.Params`, `.State`, `.GasPrice`, `.GasPrices`
  abbrev pub query_params : Action s.Ctx Params
  query_params = get_params

  abbrev pub query_state : Action s.Ctx State
  query_state = get_state

  abbrev pub query_gas_price : Keeper → String → Action s.Ctx DecCoin
  query_gas_price k denom = get_min_gas_price k denom

  abbrev pub query_gas_prices : Keeper → Action s.Ctx s.DecCoins
  query_gas_prices k = get_min_gas_prices k
