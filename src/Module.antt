-- ===== src/Module.antt =====
-- The module itself, x/feemarket/module.go: its genesis as JSON, its blocks, and what the dependency
-- injection builds. The JSON codec, the address of the governance module and the text of an address are
-- parameters. Registration with the SDK is left out.
pub mod Genesis
pub mod Prices
use feemarket.Prelude.{ℕ, String, Option, none, if◌then◌else◌, str_eq}
use feemarket.Prelude.Outcome.{Outcome, ok, err, panic, or_panic}
use feemarket.Prelude.Outcome.Pure
use feemarket.Prelude.Outcome.Action.{Action, pure, lift, ◌>>=◌}
use feemarket.Math.{Math}
use feemarket.Sdk.{Sdk, Bytes}
use feemarket.Codec.{Codec}
use feemarket.Defaults.{default_genesis}
use feemarket.Keeper.{Keeper, new_keeper}
use feemarket.Keeper.Market.{end_block}
use feemarket.Keeper.Genesis.{GenesisState, validate_genesis, init_genesis, export_genesis, must}

-- `cdc.MarshalJSON` and `cdc.UnmarshalJSON` of a genesis, `sdk.DefaultBondDenom`,
-- `authtypes.NewModuleAddress(govtypes.ModuleName)` and `AccAddress.String`
pub record Wiring ⦃m : Math⦄ ⦃s : Sdk⦄ : Type 0 where
  pub marshal_json : GenesisState → Outcome Bytes
  pub unmarshal_json : Bytes → Outcome GenesisState
  pub bond_denom : String
  pub gov_address : s.Addr
  pub addr_text : s.Addr → String

-- A call that panics where another would return an error.
abbrev pub or_panics : {A : Type 0} → Outcome A → Outcome A
or_panics (ok a) = ok a
or_panics (err _) = panic
or_panics panic = panic

abbrev pub consensus_version : ℕ
consensus_version = 1

module _ ⦃m : Math⦄ ⦃s : Sdk⦄ ⦃w : Wiring⦄ where
  -- `AppModule`, which holds a copy of a keeper
  pub record AppModule : Type 0 where
    pub k : Keeper

  -- `NewAppModule`
  abbrev pub new_app_module : Keeper → AppModule
  new_app_module k = record { k = k }

  -- `AppModuleBasic.DefaultGenesis`
  unfoldable pub default_genesis_json : Outcome Bytes
  default_genesis_json =
      Pure.◌>>=◌ (or_panic (default_genesis w.bond_denom)) (λ g. or_panics (w.marshal_json g))

  -- `AppModuleBasic.ValidateGenesis`
  unfoldable pub validate_genesis_json : Bytes → Outcome (Unit {0})
  validate_genesis_json bz = Pure.◌>>=◌ (w.unmarshal_json bz) validate_genesis

  -- The authority of the configuration, or the governance module.
  abbrev pub configured_authority : String → Outcome s.Addr
  configured_authority text =
      if str_eq text "" then ok w.gov_address else or_panics (s.addr_from_bech32 text)

  -- `ProvideModule`: the keeper has no resolver.
  unfoldable pub provide_module : String → Outcome (Keeper × AppModule)
  provide_module text = Pure.◌>>=◌ (configured_authority text) (λ authority.
      Pure.◌>>=◌ (new_keeper none (w.addr_text authority)) (λ k. ok (k, new_app_module k)))

  module _ ⦃c : Codec⦄ where
    -- `AppModule.BeginBlock` and `AppModule.EndBlock`
    abbrev pub module_begin_block : AppModule → Action s.Ctx (Unit {0})
    module_begin_block am = pure tt

    abbrev pub module_end_block : AppModule → Action s.Ctx (Unit {0})
    module_end_block am = end_block

    -- `AppModule.InitGenesis`
    unfoldable pub module_init_genesis : AppModule → Bytes → Action s.Ctx (Unit {0})
    module_init_genesis am bz = must (lift (w.unmarshal_json bz)) >>= init_genesis

    -- `AppModule.ExportGenesis`
    unfoldable pub module_export_genesis : AppModule → Action s.Ctx Bytes
    module_export_genesis am = export_genesis >>= λ g. must (lift (w.marshal_json g))
