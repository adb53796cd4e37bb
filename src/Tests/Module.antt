-- ===== src/Tests/Module.antt =====
-- Examples for the keeper, the end of a block, the message and the genesis.
use feemarket.Prelude.{◌≡◌, refl, true, false, none, some, [], ◌∷◌, arith, inr, if◌then◌else◌}
use feemarket.Prelude.Int.{pos, negsuc}
use feemarket.Prelude.Outcome.{ok, panic}
use feemarket.Math.Fixed.{fixed}
use feemarket.Math.Fixed.Lawful.{fixed-MathLaws, fixed-NoOverflow}
use feemarket.Params.{Params, validate_params}
use feemarket.State.{State, new_state, validate_state}
use feemarket.State.Market.{close_block, IsMarket}
use feemarket.Keeper.{Keeper, key_enabled_height}
use feemarket.Keeper.Market.{end_block}
use feemarket.Keeper.Genesis.{
  GenesisState, MsgParams, init_genesis, export_genesis, msg_params_handler, validate_genesis,
}
use feemarket.Keeper.Store.{HoldsParams, HoldsState, HoldsHeight}
use feemarket.Keeper.EndBlock.{end_block-close_block}
use feemarket.Keeper.Governance.{msg_params_lem, msg_params-window_zero}
use feemarket.Keeper.Init.{init_genesis-refused, export_genesis-init_genesis}
use feemarket.Codec.{IsStorableParams}
use feemarket.Tests.Data.{
  params, state, state-IsMarket, params-IsStorableParams, state-IsStorableState,
}
use feemarket.Tests.Chain.{chain, chain-StoreLaws, Context, bytes_eq}
use feemarket.Tests.Encoding.{rows, rows-CodecLaws, put_params, put_state}

abbrev pub empty : Context
empty = record {
  store = λ _. none;
  height = pos 5;
  gas = 30;
  priority = pos 0;
  balances = λ _ _. pos 0;
}

-- A context that holds some parameters, the state and the height -1.
abbrev pub holding : Params → Context
holding p = record empty {
  store = λ k.
      if bytes_eq k (1 ∷ [])
      then some (put_params p)
      else if bytes_eq k (2 ∷ [])
      then some (put_state state)
      else if bytes_eq k (3 ∷ [])
      then some (1 ∷ 0 ∷ [])
      else none;
}

abbrev pub off : Params
off = record params { enabled = false }

pub holds_params : HoldsParams chain-StoreLaws rows-CodecLaws (holding params) params
unfolding chain-StoreLaws
holds_params = (put_params params, refl, refl)

pub holds_off : HoldsParams chain-StoreLaws rows-CodecLaws (holding off) off
unfolding chain-StoreLaws
holds_off = (put_params off, refl, refl)

pub holds_state : HoldsState chain-StoreLaws rows-CodecLaws (holding params) state
unfolding chain-StoreLaws
holds_state = (put_state state, refl, refl)

end_block-close_block_example :
    (y : Context) × (u : State) × (end_block (holding params) ≡ (ok tt, y))
    × (close_block state params ≡ ok u)
    × IsMarket fixed-MathLaws params u
    × HoldsState chain-StoreLaws rows-CodecLaws y u
    × HoldsParams chain-StoreLaws rows-CodecLaws y params
end_block-close_block_example =
    end_block-close_block fixed-MathLaws fixed-NoOverflow chain-StoreLaws rows-CodecLaws
      (holding params) params state holds_params holds_state refl (omega arith) state-IsMarket

abbrev pub keeper : Keeper
keeper = record { resolver = none; authority = "gov" }

abbrev turn_on : MsgParams
turn_on = record { authority = "gov"; msg_params = params }

msg_params_example :
    (y : Context) × (msg_params_handler keeper turn_on (holding off) ≡ (ok tt, y))
    × HoldsParams chain-StoreLaws rows-CodecLaws y params
    × HoldsState chain-StoreLaws rows-CodecLaws y
        (new_state 4 params.min_base_gas_price params.min_learning_rate)
    × (true ≡ true → HoldsHeight chain-StoreLaws rows-CodecLaws y (pos 5))
    × (true ≡ false
        → chain-StoreLaws.view y key_enabled_height
          ≡ chain-StoreLaws.view (holding off) key_enabled_height)
msg_params_example =
    msg_params_lem chain-StoreLaws rows-CodecLaws keeper turn_on (holding off) off refl holds_off
      params-IsStorableParams (λ h. omega arith) (omega arith)

abbrev no_window : MsgParams
no_window = record turn_on { msg_params = record params { window = 0 } }

no_window-IsStorableParams : IsStorableParams no_window.msg_params
no_window-IsStorableParams = record {
  alpha_some = refl;
  beta_some = refl;
  gamma_some = refl;
  delta_some = refl;
  min_price_some = refl;
  min_rate_some = refl;
  max_rate_some = refl;
  max_block_utilization_lt = omega arith;
  window_lt = omega arith;
  denom_lt = omega arith;
}

msg_params-window_zero_example :
    (y : Context) × (msg_params_handler keeper no_window (holding off) ≡ (ok tt, y))
    × ((end_block y).0 ≡ panic)
msg_params-window_zero_example =
    msg_params-window_zero chain-StoreLaws rows-CodecLaws keeper no_window (holding off) off refl
      holds_off no_window-IsStorableParams refl refl

abbrev pub genesis : GenesisState
genesis = record { params = params; state = state }

pub genesis_valid : validate_genesis genesis ≡ ok tt
unfolding validate_params validate_state
genesis_valid = refl

export_genesis-init_genesis_example :
    (y : Context) × (init_genesis genesis empty ≡ (ok tt, y))
    × HoldsHeight chain-StoreLaws rows-CodecLaws y (negsuc 0)
    × ((export_genesis y).0 ≡ ok genesis)
export_genesis-init_genesis_example =
    export_genesis-init_genesis chain-StoreLaws rows-CodecLaws genesis empty genesis_valid refl
      params-IsStorableParams state-IsStorableState

init_genesis-refused_example :
    init_genesis (record genesis { params = record params { window = 8 } }) empty ≡ (panic, empty)
init_genesis-refused_example =
    init_genesis-refused (record genesis { params = record params { window = 8 } }) empty
      (inr (λ h. omega arith))
