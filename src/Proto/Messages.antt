-- ===== src/Proto/Messages.antt =====
-- The generated methods of the messages that hold others: `GenesisState` (x/feemarket/types/genesis.pb.go),
-- `MsgParams` and its response (tx.pb.go), and of the queries for parameters and state and for one gas price
-- (query.pb.go).
use feemarket.Prelude.{ℕ, String, [], if◌then◌else◌, ◌==◌}
use feemarket.Prelude.Outcome.{Outcome, ok}
use feemarket.Prelude.Outcome.Pure.{◌>>=◌}
use feemarket.Math.{Math}
use feemarket.Sdk.{Bytes}
use feemarket.Params.{Params}
use feemarket.State.{State}
use feemarket.Keeper.Genesis.{GenesisState, MsgParams}
use feemarket.Proto.{Wire, put_block, put_block_unless_empty, marshal_params, marshal_state}
use feemarket.Proto.Read.{Field, block_field, read_message}
use feemarket.Proto.Skip.{skip, cut_unknown}
use feemarket.Proto.Unmarshal.{
  pass_over, new_struct_params, new_struct_state, read_params_field, read_state_field,
}

-- A message in another one: `MarshalToSizedBuffer` of the inner one, its length and the tag.
abbrev pub put_message : ℕ → Outcome Bytes → Bytes → Outcome Bytes
put_message tag inner tail = inner >>= λ bytes. ok (put_block tag bytes tail)

-- `m.Params.Unmarshal(dAtA[iNdEx:postIndex])`: into the inner message as it is.
abbrev pub message_field :
    {M N : Type 0} → ℕ → Field N → N → (N → M) → ℕ → Bytes → Outcome (M × Bytes)
message_field l field inner put =
    block_field l (λ bytes. read_message field bytes inner >>= λ x. ok (put x))

module _ ⦃m : Math⦄ where
  -- `ParamsResponse`, `StateResponse` and `GasPriceRequest`
  pub record ParamsResponse : Type 0 where
    pub params : Params

  pub record StateResponse : Type 0 where
    pub state : State

pub record GasPriceRequest : Type 0 where
  pub denom : String

module _ ⦃m : Math⦄ ⦃w : Wire⦄ where
  -- `GenesisState.MarshalToSizedBuffer`
  unfoldable pub marshal_genesis : GenesisState → Outcome Bytes
  marshal_genesis g =
      put_message 18 (marshal_state g.state) [] >>= put_message 10 (marshal_params g.params)

  -- The switch of `GenesisState.Unmarshal`.
  unfoldable pub read_genesis_field : Field GenesisState
  read_genesis_field l number type bytes rest g =
      if number == 1
      then message_field l read_params_field g.params (λ p. record g { params = p }) type rest
      else if number == 2
      then message_field l read_state_field g.state (λ t. record g { state = t }) type rest
      else pass_over l bytes g

  abbrev pub new_struct_genesis : GenesisState
  new_struct_genesis = record { params = new_struct_params; state = new_struct_state }

  unfoldable pub unmarshal_genesis : Bytes → Outcome GenesisState
  unmarshal_genesis bytes = read_message read_genesis_field bytes new_struct_genesis

  -- `MsgParams`
  unfoldable pub marshal_msg_params : MsgParams → Outcome Bytes
  marshal_msg_params msg =
      put_message 10 (marshal_params msg.msg_params)
        (put_block_unless_empty 18 (w.string_bytes msg.authority) [])

  unfoldable pub read_msg_params_field : Field MsgParams
  read_msg_params_field l number type bytes rest msg =
      if number == 1
      then message_field l read_params_field msg.msg_params (λ p. record msg { msg_params = p })
          type rest
      else if number == 2
      then block_field l (λ b. ok (record msg { authority = w.string_of_bytes b })) type rest
      else pass_over l bytes msg

  abbrev pub new_struct_msg_params : MsgParams
  new_struct_msg_params = record { authority = ""; msg_params = new_struct_params }

  unfoldable pub unmarshal_msg_params : Bytes → Outcome MsgParams
  unmarshal_msg_params bytes = read_message read_msg_params_field bytes new_struct_msg_params

  -- `ParamsResponse`
  unfoldable pub marshal_params_response : ParamsResponse → Outcome Bytes
  marshal_params_response r = put_message 10 (marshal_params r.params) []

  unfoldable pub read_params_response_field : Field ParamsResponse
  read_params_response_field l number type bytes rest r =
      if number == 1
      then message_field l read_params_field r.params (λ p. record r { params = p }) type rest
      else pass_over l bytes r

  unfoldable pub unmarshal_params_response : Bytes → Outcome ParamsResponse
  unmarshal_params_response bytes =
      read_message read_params_response_field bytes (record { params = new_struct_params })

  -- `StateResponse`
  unfoldable pub marshal_state_response : StateResponse → Outcome Bytes
  marshal_state_response r = put_message 10 (marshal_state r.state) []

  unfoldable pub read_state_response_field : Field StateResponse
  read_state_response_field l number type bytes rest r =
      if number == 1
      then message_field l read_state_field r.state (λ t. record r { state = t }) type rest
      else pass_over l bytes r

  unfoldable pub unmarshal_state_response : Bytes → Outcome StateResponse
  unmarshal_state_response bytes =
      read_message read_state_response_field bytes (record { state = new_struct_state })

  -- `GasPriceRequest`
  unfoldable pub marshal_gas_price_request : GasPriceRequest → Outcome Bytes
  marshal_gas_price_request r = ok (put_block_unless_empty 10 (w.string_bytes r.denom) [])

  unfoldable pub read_gas_price_request_field : Field GasPriceRequest
  read_gas_price_request_field l number type bytes rest r =
      if number == 1
      then block_field l (λ b. ok (record r { denom = w.string_of_bytes b })) type rest
      else pass_over l bytes r

  unfoldable pub unmarshal_gas_price_request : Bytes → Outcome GasPriceRequest
  unmarshal_gas_price_request bytes =
      read_message read_gas_price_request_field bytes (record { denom = "" })

-- The messages with no field: `MsgParamsResponse`, `ParamsRequest`, `StateRequest` and `GasPricesRequest`.
unfoldable pub marshal_empty : Outcome Bytes
marshal_empty = ok []

unfoldable pub read_no_field : Field (Unit {0})
read_no_field l number type bytes rest r = cut_unknown skip l bytes >>= λ p. ok (r, p.1)

unfoldable pub unmarshal_empty : Bytes → Outcome (Unit {0})
unmarshal_empty bytes = read_message read_no_field bytes tt
