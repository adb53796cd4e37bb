-- ===== src/Tests/Messages.antt =====
-- Examples for the messages that hold others.
use feemarket.Prelude.{◌≡◌, arith}
use feemarket.Prelude.Outcome.{ok}
use feemarket.Math.Fixed.{fixed}
use feemarket.Sdk.{Bytes}
use feemarket.Keeper.Genesis.{GenesisState, MsgParams}
use feemarket.Proto.{marshal_params, marshal_state}
use feemarket.Proto.Messages.{
  ParamsResponse, StateResponse, GasPriceRequest, marshal_genesis, unmarshal_genesis,
  marshal_msg_params, unmarshal_msg_params, marshal_params_response, unmarshal_params_response,
  marshal_state_response, unmarshal_state_response, marshal_gas_price_request,
  unmarshal_gas_price_request, marshal_empty, unmarshal_empty,
}
use feemarket.Proto.MessagesRound.{unmarshal_genesis-marshal_genesis}
use feemarket.Proto.QueriesRound.{unmarshal-marshal_messages}
use feemarket.Proto.Size.{
  size_params, size_state, size_genesis, size_msg_params, size_params_response, size_state_response,
  size_gas_price_request,
}
use feemarket.Proto.Sized.{IsFilled}
use feemarket.Proto.Buffers.{IsSizedParams, IsSizedState, marshal-IsFilled}
use feemarket.Tests.Data.{params, state, params-IsStorableParams, state-IsStorableState}
use feemarket.Tests.Wire.{digits, digits-WireLaws}

abbrev genesis : GenesisState
genesis = record { params = params; state = state }

abbrev message : MsgParams
message = record { authority = "authority"; msg_params = params }

abbrev request : GasPriceRequest
request = record { denom = "stake" }

abbrev params_response : ParamsResponse
params_response = record { params = params }

abbrev state_response : StateResponse
state_response = record { state = state }

unmarshal_genesis-marshal_genesis_example :
    (b : Bytes) × (marshal_genesis genesis ≡ ok b) × (unmarshal_genesis b ≡ ok genesis)
unmarshal_genesis-marshal_genesis_example =
    unmarshal_genesis-marshal_genesis digits-WireLaws genesis params-IsStorableParams
      state-IsStorableState

unmarshal-marshal_messages_example :
    ((b : Bytes) × (marshal_msg_params message ≡ ok b) × (unmarshal_msg_params b ≡ ok message))
    × ((b : Bytes) × (marshal_params_response params_response ≡ ok b)
        × (unmarshal_params_response b ≡ ok params_response))
    × ((b : Bytes) × (marshal_state_response state_response ≡ ok b)
        × (unmarshal_state_response b ≡ ok state_response))
    × ((b : Bytes) × (marshal_gas_price_request request ≡ ok b)
        × (unmarshal_gas_price_request b ≡ ok request))
    × ((b : Bytes) × (marshal_empty ≡ ok b) × (unmarshal_empty b ≡ ok tt))
unmarshal-marshal_messages_example =
    unmarshal-marshal_messages digits-WireLaws message params_response state_response request
      params-IsStorableParams (omega arith) params-IsStorableParams state-IsStorableState
      (omega arith)

params-IsSizedParams : IsSizedParams params
params-IsSizedParams = record {
  max_block_utilization_lt = omega arith;
  window_lt = omega arith;
  denom_lt = omega arith;
}

state-IsSizedState : IsSizedState state
state-IsSizedState = record {
  elems_lt = (omega arith, (omega arith, (omega arith, (omega arith, tt))));
  length_lt = omega arith;
  index_lt = omega arith;
}

marshal-IsFilled_example :
    IsFilled (size_params params) (marshal_params params)
    × IsFilled (size_state state) (marshal_state state)
    × IsFilled (size_genesis genesis) (marshal_genesis genesis)
    × IsFilled (size_msg_params message) (marshal_msg_params message)
    × IsFilled (size_params_response params_response) (marshal_params_response params_response)
    × IsFilled (size_state_response state_response) (marshal_state_response state_response)
    × IsFilled (size_gas_price_request request) (marshal_gas_price_request request)
marshal-IsFilled_example =
    marshal-IsFilled digits-WireLaws params state genesis message request params-IsSizedParams
      state-IsSizedState params-IsSizedParams state-IsSizedState params-IsSizedParams (omega arith)
      (omega arith)
