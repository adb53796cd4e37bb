-- ===== src/Proto/QueriesRound.antt =====
-- The generated methods `Marshal` and `Unmarshal` of the messages of the queries agree
-- (x/feemarket/types/query.pb.go).
use Prim.Native.String.{len}
use feemarket.Prelude.{◌≤◌, ◌<◌, ◌≡◌, refl, ap, ◌∙◌, String, [], arith, length}
use feemarket.Prelude.Int.{int64_max, slice_max}
use feemarket.Prelude.Outcome.{ok}
use feemarket.Math.{Math}
use feemarket.Sdk.{Bytes}
use feemarket.Codec.{IsStorableParams, IsStorableState}
use feemarket.Proto.{Wire, WireLaws, put_block, put_block_unless_empty}
use feemarket.Proto.Read.{read_fields}
use feemarket.Proto.Decodes.{nothing}
use feemarket.Proto.Blocks.{length-put_block, length-put_block_unless_empty, put_string-Decodes}
use feemarket.Proto.Unmarshal.{
  new_struct_params, new_struct_state, read_params_field, read_state_field, unmarshal_params,
  unmarshal_state,
}
use feemarket.Proto.ParamsRound.{unmarshal_params-marshal_params, no_bytes}
use feemarket.Proto.Generated.{storable_round}
use feemarket.Proto.Messages.{
  ParamsResponse, StateResponse, GasPriceRequest, marshal_params_response,
  read_params_response_field, unmarshal_params_response, marshal_state_response,
  read_state_response_field, unmarshal_state_response, marshal_gas_price_request,
  read_gas_price_request_field, unmarshal_gas_price_request, marshal_empty, unmarshal_empty,
  marshal_msg_params, unmarshal_msg_params,
}
use feemarket.Keeper.Genesis.{MsgParams}
use feemarket.Proto.MessagesRound.{put_message-Decodes, unmarshal_msg_params-marshal_msg_params}

module _ ⦃m : Math⦄ ⦃w : Wire⦄ (laws : WireLaws) where
  params_response_round :
      (r : ParamsResponse)
      → IsStorableParams r.params
      → (b : Bytes) × (marshal_params_response r ≡ ok b) × (unmarshal_params_response b ≡ ok r)
  unfolding marshal_params_response unmarshal_params_response read_params_response_field
      unmarshal_params
  params_response_round r h =
      let (b, written, small, back) = unmarshal_params-marshal_params laws r.params h in
      let bytes = put_block 10 b [] in
      let fits : length bytes ≤ int64_max = omega (arith, length-put_block 10 b []) in
      let d1 =
        put_message-Decodes read_params_response_field (length bytes) 1 read_params_field
          new_struct_params (λ p. record { params = p }) r.params b []
          (record { params = new_struct_params }) r (omega arith) (omega arith) fits (λ _. refl)
          small back (nothing read_params_response_field (length bytes) r) in
      (bytes, rw written refl, d1.runs (omega arith) (length bytes) (omega arith))

  state_response_round :
      (r : StateResponse)
      → IsStorableState r.state
      → (b : Bytes) × (marshal_state_response r ≡ ok b) × (unmarshal_state_response b ≡ ok r)
  unfolding marshal_state_response unmarshal_state_response read_state_response_field
      unmarshal_state
  state_response_round r h =
      let (b, written, small, back) = storable_round laws r.state h in
      let bytes = put_block 10 b [] in
      let fits : length bytes ≤ int64_max = omega (arith, length-put_block 10 b []) in
      let d1 =
        put_message-Decodes read_state_response_field (length bytes) 1 read_state_field
          new_struct_state (λ t. record { state = t }) r.state b []
          (record { state = new_struct_state }) r (omega arith) (omega arith) fits (λ _. refl) small
          back (nothing read_state_response_field (length bytes) r) in
      (bytes, rw written refl, d1.runs (omega arith) (length bytes) (omega arith))

  gas_price_request_round :
      (r : GasPriceRequest)
      → len r.denom < slice_max
      → (b : Bytes) × (marshal_gas_price_request r ≡ ok b) × (unmarshal_gas_price_request b ≡ ok r)
  unfolding marshal_gas_price_request unmarshal_gas_price_request read_gas_price_request_field
  gas_price_request_round r short =
      let text = w.string_bytes r.denom in
      let bytes = put_block_unless_empty 10 text [] in
      let fits : length bytes ≤ int64_max =
        omega (arith, length-put_block_unless_empty 10 text [], laws.string_length r.denom) in
      let read : GasPriceRequest = record { denom = w.string_of_bytes text } in
      let d1 =
        put_string-Decodes read_gas_price_request_field (length bytes) 1
          (λ b. record { denom = w.string_of_bytes b }) text [] (record { denom = "" }) read
          (omega arith) (omega arith) fits (λ _. refl)
          (ap (λ (s : String). record { denom = s }) (no_bytes laws))
          (omega (arith, laws.string_length r.denom))
          (nothing read_gas_price_request_field (length bytes) read) in
      (
        bytes,
        refl,
        d1.runs (omega arith) (length bytes) (omega arith)
            ∙ ap (λ (s : String). ok (record { denom = s })) (laws.string_round r.denom),
      )

  -- The message that replaces the parameters, the responses with parameters and with a state, the
  -- request for a gas price and the messages with no field are marshalled, and unmarshalled to
  -- themselves, where the parameters and the state can be stored, the texts fit the memory, and
  -- decimals and strings are encoded within their lengths and decoded again.
  pub unmarshal-marshal_messages :
      (msg : MsgParams) (p : ParamsResponse) (t : StateResponse) (g : GasPriceRequest)
      → IsStorableParams msg.msg_params
      → len msg.authority < slice_max
      → IsStorableParams p.params
      → IsStorableState t.state
      → len g.denom < slice_max
      → ((b : Bytes) × (marshal_msg_params msg ≡ ok b) × (unmarshal_msg_params b ≡ ok msg))
        × ((b : Bytes) × (marshal_params_response p ≡ ok b) × (unmarshal_params_response b ≡ ok p))
        × ((b : Bytes) × (marshal_state_response t ≡ ok b) × (unmarshal_state_response b ≡ ok t))
        × ((b : Bytes) × (marshal_gas_price_request g ≡ ok b)
            × (unmarshal_gas_price_request b ≡ ok g))
        × ((b : Bytes) × (marshal_empty ≡ ok b) × (unmarshal_empty b ≡ ok tt))
  unfolding marshal_empty unmarshal_empty read_fields
  unmarshal-marshal_messages msg p t g hm authority hp ht denom = (
    unmarshal_msg_params-marshal_msg_params laws msg hm authority,
    params_response_round p hp,
    state_response_round t ht,
    gas_price_request_round g denom,
    ([], refl, refl),
  )
