-- ===== src/Api/MsgParams/Methods.antt =====
-- `ProtoMethods` of the messages `MsgParams` and `MsgParamsResponse` (api/feemarket/feemarket/v1/tx.pulsar.go):
-- their functions size, marshal and unmarshal. What unmarshal has stored before an error is not modelled.
use feemarket.Prelude.{ℕ, ◌+◌, Bool, if◌then◌else◌, Option, none, some, length, ◌==◌}
use feemarket.Prelude.Outcome.{Outcome, ok}
use feemarket.Prelude.Outcome.Pure.{◌>>=◌}
use feemarket.Sdk.{Bytes}
use feemarket.Proto.{put_bytes}
use feemarket.Proto.Read.{Field, read_message}
use feemarket.Api.{
  Runtime, bytes_of, append_unknown, string_field, unknown_field, fill, size_string, put_string,
}
use feemarket.Api.Params.{Params, empty as empty_params}
use feemarket.Api.Nested.{Options, size_message, put_message as put_nested, message_field}
use feemarket.Api.MsgParams.{MsgParams, MsgParamsResponse}

module _ ⦃r : Runtime⦄ (o : Options Params) where
  -- size
  unfoldable pub message_size : MsgParams → ℕ
  message_size x =
      size_message o x.params + size_string x.authority + length (bytes_of x.unknown_fields)

  abbrev pub size : Option MsgParams → ℕ
  size none = 0
  size (some x) = message_size x

  -- The fields that marshal writes, from the last to the first.
  unfoldable pub put_message : MsgParams → Outcome Bytes
  put_message x = put_nested o 10 x.params (put_string 18 x.authority (bytes_of x.unknown_fields))

  -- marshal: the message goes to the end of a buffer that may have been given.
  unfoldable pub marshal : Bytes → Option MsgParams → Outcome Bytes
  marshal buf none = ok buf
  marshal buf (some x) =
      put_message x >>= (λ w. fill (message_size x) w) >>= λ written. ok (put_bytes buf written)

  -- The default case of unmarshal.
  abbrev pub keep_unknown : Bool → ℕ → Bytes → MsgParams → Outcome (MsgParams × Bytes)
  keep_unknown discard l bytes x =
      unknown_field l
        (λ raw.
          if discard then x else record x { unknown_fields = append_unknown x.unknown_fields raw })
        bytes

  -- The switch of unmarshal.
  unfoldable pub msg_params_field : Bool → Field MsgParams
  msg_params_field discard l number type bytes rest x =
      if number == 1
      then message_field o l discard empty_params x.params (λ p. record x { params = p }) type rest
      else if number == 2
      then string_field l (λ b. record x { authority = b }) type rest
      else keep_unknown discard l bytes x

  -- unmarshal, with the option `DiscardUnknown`
  unfoldable pub unmarshal : Bool → Bytes → Option MsgParams → Outcome (Option MsgParams)
  unmarshal discard buf none = ok none
  unmarshal discard buf (some x) =
      read_message (msg_params_field discard) buf x >>= λ q. ok (some q)

module _ ⦃r : Runtime⦄ where
  -- size, marshal and unmarshal of the response, which has no field
  unfoldable pub response_size : Option MsgParamsResponse → ℕ
  response_size none = 0
  response_size (some x) = length (bytes_of x.unknown_fields)

  unfoldable pub marshal_response : Bytes → Option MsgParamsResponse → Outcome Bytes
  marshal_response buf none = ok buf
  marshal_response buf (some x) =
      fill (response_size (some x)) (bytes_of x.unknown_fields) >>= λ written.
      ok (put_bytes buf written)

  abbrev pub response_field : Bool → Field MsgParamsResponse
  response_field discard l number type bytes rest x =
      unknown_field l
        (λ raw.
          if discard then x else record x { unknown_fields = append_unknown x.unknown_fields raw })
        bytes

  unfoldable pub unmarshal_response :
      Bool → Bytes → Option MsgParamsResponse → Outcome (Option MsgParamsResponse)
  unmarshal_response discard buf none = ok none
  unmarshal_response discard buf (some x) =
      read_message (response_field discard) buf x >>= λ q. ok (some q)
