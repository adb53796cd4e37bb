-- ===== src/Tests/Wiring.antt =====
-- Examples for the module: a genesis as the rows of its parameters and its state.
use feemarket.Prelude.{◌≡◌, refl, String, none, [], ◌∷◌, length, if◌then◌else◌, str_eq}
use feemarket.Prelude.Outcome.{Outcome, ok, err, panic, external, resolver_not_set}
use feemarket.Prelude.Outcome.Pure.{◌>>=◌}
use feemarket.Math.Fixed.{fixed}
use feemarket.Sdk.{Bytes, DecCoin}
use feemarket.Proto.{put_bytes}
use feemarket.Proto.Read.{take, drop}
use feemarket.Keeper.{Keeper, new_keeper}
use feemarket.Keeper.Genesis.{GenesisState, query_gas_price, query_gas_prices}
use feemarket.Module.{
  Wiring, AppModule, provide_module, validate_genesis_json, module_init_genesis,
  module_export_genesis,
}
use feemarket.Module.Genesis.{module_export-module_init}
use feemarket.Module.Prices.{provide_module-prices}
use feemarket.Tests.Data.{params, state, params-IsStorableParams, state-IsStorableState}
use feemarket.Tests.Chain.{chain, chain-StoreLaws, Context}
use feemarket.Tests.Encoding.{rows, rows-CodecLaws, put_params, put_state}
use feemarket.Tests.Module.{empty, holding, genesis, genesis_valid, holds_params, holds_state}

abbrev genesis_of : Bytes → Outcome GenesisState
genesis_of [] = err (external 1)
genesis_of (n ∷ bytes) = rows.unmarshal_params (take n bytes) >>= λ p.
    rows.unmarshal_state (drop n bytes) >>= λ t. ok (record { params = p; state = t })

instance abbrev wiring : Wiring
wiring = record {
  marshal_json =
      λ g. let p = put_params g.params in ok (length p ∷ put_bytes p (put_state g.state));
  unmarshal_json = genesis_of;
  bond_denom = "stake";
  gov_address = 1;
  addr_text = λ _. "gov";
}

abbrev json : Bytes
json = length (put_params params) ∷ put_bytes (put_params params) (put_state state)

abbrev provided : Keeper
provided = record { resolver = none; authority = "gov" }

abbrev app_module : AppModule
app_module = record { k = provided }

module_export-module_init_example :
    (validate_genesis_json json ≡ ok tt)
    × ((y : Context) × (module_init_genesis app_module json empty ≡ (ok tt, y))
        × ((module_export_genesis app_module y).0 ≡ ok json))
module_export-module_init_example =
    module_export-module_init chain-StoreLaws rows-CodecLaws app_module genesis json empty refl refl
      genesis_valid refl params-IsStorableParams state-IsStorableState

provides : provide_module "" ≡ ok (provided, app_module)
unfolding provide_module new_keeper
provides = refl

abbrev price : DecCoin
price = record { dec_denom = params.fee_denom; dec_amount = state.base_gas_price }

provide_module-prices_example :
    ((query_gas_prices provided (holding params)).0 ≡ panic)
    × ((denom : String)
        → (query_gas_price provided denom (holding params)).0
          ≡ (if str_eq params.fee_denom denom then ok price else err resolver_not_set))
provide_module-prices_example =
    provide_module-prices chain-StoreLaws rows-CodecLaws "" provided app_module (holding params)
      params state price provides holds_params holds_state refl
