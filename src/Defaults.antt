-- ===== src/Defaults.antt =====
-- The default parameters, state and genesis of x/feemarket/types/eip1559.go and types/eip1559_aimd.go. The
-- default bond denomination of the SDK is an argument. `none` is a text that is no decimal.
pub mod Valid
use feemarket.Prelude.{String, true, Option, some}
use feemarket.Prelude.Outcome.Partial.{◌>>=◌}
use feemarket.Math.{Math}
use feemarket.Params.{Params, new_params}
use feemarket.State.{State, new_state}
use feemarket.Keeper.Genesis.{GenesisState}

module _ ⦃m : Math⦄ where
  -- `DefaultParams`, with the values of its constants
  unfoldable pub default_params : String → Option Params
  default_params denom = do
    alpha ← m.dec_from_str "0.0"
    beta ← m.dec_from_str "1.0"
    gamma ← m.dec_from_str "0.0"
    delta ← m.dec_from_str "0.0"
    min_rate ← m.dec_from_str "0.125"
    max_rate ← m.dec_from_str "0.125"
    some (new_params 1 alpha beta gamma delta 30_000_000 m.one_dec min_rate max_rate denom true)

  -- `DefaultState`
  abbrev pub default_state : Option State
  default_state = do min_rate ← m.dec_from_str "0.125"; some (new_state 1 m.one_dec min_rate)

  -- `DefaultGenesisState`
  abbrev pub default_genesis : String → Option GenesisState
  default_genesis denom = do
    params ← default_params denom
    state ← default_state
    some (record { params = params; state = state })

  -- `DefaultAIMDParams`, with the values of its constants
  unfoldable pub default_aimd_params : String → Option Params
  default_aimd_params denom = do
    alpha ← m.dec_from_str "0.025"
    beta ← m.dec_from_str "0.95"
    gamma ← m.dec_from_str "0.25"
    delta ← m.dec_from_str "0.0"
    min_price ← m.dec_from_str "1000000000"
    min_rate ← m.dec_from_str "0.01"
    max_rate ← m.dec_from_str "0.50"
    some (new_params 8 alpha beta gamma delta 30_000_000 min_price min_rate max_rate denom true)

  -- `DefaultAIMDState`
  abbrev pub default_aimd_state : Option State
  default_aimd_state = do
    min_price ← m.dec_from_str "1000000000"
    min_rate ← m.dec_from_str "0.01"
    some (new_state 8 min_price min_rate)

  -- `DefaultAIMDGenesisState`
  abbrev pub default_aimd_genesis : String → Option GenesisState
  default_aimd_genesis denom = do
    params ← default_aimd_params denom
    state ← default_aimd_state
    some (record { params = params; state = state })
