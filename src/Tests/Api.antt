-- ===== src/Tests/Api.antt =====
-- Examples for the messages of the API module, with the varints of the module's own encoders.
use feemarket.Prelude.{ℕ, zero, suc, ◌≡◌, refl, arith, Bool, true, false, some, [], ◌∷◌, length}
use feemarket.Prelude.Outcome.{ok}
use feemarket.Sdk.{Bytes}
use feemarket.Proto.{encode_groups, encode_varint, read_groups}
use feemarket.Proto.Read.{read_field, read_fields, slice}
use feemarket.Proto.Skip
use feemarket.Api.{
  Runtime, RuntimeLaws, Value, string_value, list_value, size_string, size_uint64, size_bool,
}
use feemarket.Api.Params as ApiParams
use feemarket.Api.Params.Methods as ParamsMethods
use feemarket.Api.Params.Round as ParamsRound
use feemarket.Api.Params.Reflection as ParamsReflection
use feemarket.Api.Nested.{Options, size_message}
use feemarket.Api.Nested.Known.{ParamsOptions, StateOptions, some_params, some_state}
use feemarket.Api.MsgParams as ApiMsg
use feemarket.Api.MsgParams.Methods as MsgMethods
use feemarket.Api.MsgParams.Round as MsgRound
use feemarket.Api.MsgParams.Response as MsgResponse
use feemarket.Api.Genesis as ApiGenesis
use feemarket.Api.Genesis.Methods as GenesisMethods
use feemarket.Api.Genesis.Round as GenesisRound
use feemarket.Api.State as ApiState
use feemarket.Api.State.Methods as StateMethods
use feemarket.Api.State.Round as StateRound

instance abbrev groups : Runtime
groups = record {
  encode_varint = encode_varint;
  sov = λ v. length (encode_varint v []);
  skip = Skip.skip;
}

groups-RuntimeLaws : RuntimeLaws
groups-RuntimeLaws = record { encode_varint_eq = λ _ _ _. refl; sov_eq = λ _ _. refl }

-- The alpha "0.5", a window of 300 blocks, the denomination "stake", and the market enabled.
abbrev api_params : ApiParams.Params
api_params = record ApiParams.empty {
  alpha = 48 ∷ 46 ∷ 53 ∷ [];
  window = 300;
  fee_denom = 115 ∷ 116 ∷ 97 ∷ 107 ∷ 101 ∷ [];
  enabled = true;
}

api_params-IsMessage : ParamsRound.IsMessage api_params
api_params-IsMessage = record {
  alpha_le = omega arith;
  beta_le = omega arith;
  gamma_le = omega arith;
  delta_le = omega arith;
  min_base_gas_price_le = omega arith;
  min_learning_rate_le = omega arith;
  max_learning_rate_le = omega arith;
  max_block_utilization_lt = omega arith;
  window_lt = omega arith;
  fee_denom_le = omega arith;
}

api_params_size : ParamsMethods.message_size api_params ≡ 17
unfolding ParamsMethods.message_size size_string size_uint64 size_bool encode_groups
api_params_size = refl

abbrev api_state : ApiState.State
api_state = record ApiState.empty {
  base_gas_price = 49 ∷ [];
  window = some (0 ∷ 300 ∷ 7 ∷ []);
  index = 2;
}

api_state-IsMessage : StateRound.IsMessage api_state
unfolding encode_groups
api_state-IsMessage = record {
  base_gas_price_le = omega arith;
  learning_rate_le = omega arith;
  window_lt = (omega arith, (omega arith, (omega arith, tt)));
  packed_le = omega arith;
  index_lt = omega arith;
}

api_state_size : StateMethods.message_size api_state ≡ 11
unfolding StateMethods.message_size StateMethods.size_window size_string size_uint64 encode_groups
api_state_size = refl

-- The package `proto` over these two messages.
abbrev params_options : Options ApiParams.Params
params_options = record {
  size = ParamsMethods.size;
  marshal = ParamsMethods.marshal [];
  unmarshal = ParamsMethods.unmarshal;
}

params_options-laws : ParamsOptions params_options
params_options-laws = record {
  size_eq = λ _. refl;
  marshal_eq = λ _. refl;
  unmarshal_eq = λ _ _ _. refl;
}

abbrev state_options : Options ApiState.State
state_options = record {
  size = StateMethods.size;
  marshal = StateMethods.marshal [];
  unmarshal = StateMethods.unmarshal;
}

state_options-laws : StateOptions state_options
state_options-laws = record {
  size_eq = λ _. refl;
  marshal_eq = λ _. refl;
  unmarshal_eq = λ _ _ _. refl;
}

-- The parameters with the authority "gov".
abbrev api_msg : ApiMsg.MsgParams
api_msg = record ApiMsg.empty { params = some api_params; authority = 103 ∷ 111 ∷ 118 ∷ [] }

api_msg-IsMessage : MsgRound.IsMessage api_msg
api_msg-IsMessage = record {
  params_ok = some_params api_params-IsMessage refl;
  authority_le = omega arith;
  no_unknown = refl;
}

api_msg_size : MsgMethods.message_size params_options api_msg ≡ 24
unfolding MsgMethods.message_size ParamsMethods.message_size size_message size_string size_uint64
    size_bool encode_groups
api_msg_size = refl

unmarshal-marshal_msg_params_example :
    (w : Bytes) × (MsgMethods.marshal params_options [] (some api_msg) ≡ ok w)
    × (length w ≡ MsgMethods.size params_options (some api_msg))
    × (MsgMethods.unmarshal params_options true w (some ApiMsg.empty) ≡ ok (some api_msg))
unmarshal-marshal_msg_params_example =
    MsgRound.unmarshal-marshal_msg_params ⦃laws = groups-RuntimeLaws⦄ params_options
      params_options-laws true api_msg api_msg-IsMessage (omega (arith, api_msg_size))

abbrev api_genesis : ApiGenesis.GenesisState
api_genesis = record ApiGenesis.empty { params = some api_params; state = some api_state }

api_genesis-IsMessage : GenesisRound.IsMessage api_genesis
api_genesis-IsMessage = record {
  params_ok = some_params api_params-IsMessage refl;
  state_ok = some_state api_state-IsMessage refl;
  no_unknown = refl;
}

api_genesis_size : GenesisMethods.message_size params_options state_options api_genesis ≡ 32
unfolding GenesisMethods.message_size ParamsMethods.message_size StateMethods.message_size
    StateMethods.size_window size_message size_string size_uint64 size_bool encode_groups
api_genesis_size = refl

unmarshal-marshal_genesis_state_example :
    (w : Bytes) × (GenesisMethods.marshal params_options state_options [] (some api_genesis) ≡ ok w)
    × (length w ≡ GenesisMethods.size params_options state_options (some api_genesis))
    × (GenesisMethods.unmarshal params_options state_options false w (some ApiGenesis.empty)
        ≡ ok (some api_genesis))
unmarshal-marshal_genesis_state_example =
    GenesisRound.unmarshal-marshal_genesis_state ⦃laws = groups-RuntimeLaws⦄ params_options
      state_options params_options-laws state_options-laws false api_genesis api_genesis-IsMessage
      (omega (arith, api_genesis_size))

-- A response with a field that is not known, of number 1 and value 5.
abbrev unknown_response : ApiMsg.MsgParamsResponse
unknown_response = record { unknown_fields = some (8 ∷ 5 ∷ []) }

after_unmarshal :
    MsgMethods.unmarshal_response false (8 ∷ 5 ∷ []) (some ApiMsg.empty_response)
    ≡ ok (some unknown_response)
unfolding MsgMethods.unmarshal_response read_fields read_field slice Skip.cut_unknown
    Skip.skip_fields Skip.skip_value Skip.skip_groups read_groups
after_unmarshal = refl

marshal_response-unmarshal_response_example :
    (MsgMethods.marshal_response [] (some unknown_response) ≡ ok (8 ∷ 5 ∷ []))
    × (MsgMethods.response_size (some unknown_response) ≡ 2)
marshal_response-unmarshal_response_example =
    MsgResponse.marshal_response-unmarshal_response (8 ∷ 5 ∷ []) (some unknown_response)
      after_unmarshal

-- A set of the alpha.
after_set :
    ApiParams.set api_params "feemarket.feemarket.v1.Params.alpha" (string_value (49 ∷ []))
    ≡ ok (record api_params { alpha = 49 ∷ [] })
unfolding ApiParams.set ApiParams.field_of
after_set = refl

get-set_params_example :
    ParamsReflection.Leaves api_params
      (record api_params { alpha = 49 ∷ [] })
      "feemarket.feemarket.v1.Params.alpha"
      (string_value (49 ∷ []))
get-set_params_example =
    ParamsReflection.get-set_params api_params (record api_params { alpha = 49 ∷ [] })
      "feemarket.feemarket.v1.Params.alpha" (string_value (49 ∷ [])) after_set

after_clear :
    ApiParams.clear api_params "feemarket.feemarket.v1.Params.window"
    ≡ ok (record api_params { window = 0 })
unfolding ApiParams.clear ApiParams.field_of
after_clear = refl

-- A callback that counts the fields and stops after the second.
abbrev first_two : ApiParams.Field → Value → ℕ → Bool × ℕ
first_two f v zero = (true, 1)
first_two f v (suc n) = (false, suc (suc n))

-- A set of the window.
after_set_window :
    ApiState.set api_state "feemarket.feemarket.v1.State.window" (list_value (some (some [])))
    ≡ ok (record api_state { window = some [] })
unfolding ApiState.set ApiState.field_of
after_set_window = refl
