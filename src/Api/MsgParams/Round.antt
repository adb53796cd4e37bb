-- ===== src/Api/MsgParams/Round.antt =====
-- `ProtoMethods` of the message `MsgParams` (api/feemarket/feemarket/v1/tx.pulsar.go): size, marshal and
-- unmarshal agree.
use feemarket.Prelude.{◌≤◌, ◌≡◌, refl, sym, ap, ◌∙◌, Bool, none, some, [], arith, length}
use feemarket.Prelude.Int.{int64_max}
use feemarket.Prelude.Outcome.{ok}
use feemarket.Prelude.Outcome.Pure.{◌>>=◌}
use feemarket.Sdk.{Bytes}
use feemarket.Proto.{put_bytes}
use feemarket.Api.{Runtime, RuntimeLaws, bytes_of, fill, put_string}
use feemarket.Api.Fields.{fill-length, length-put_string, put_string-Decodes}
use feemarket.Api.Nested.{Options}
use feemarket.Api.Nested.Fields.{no_more}
use feemarket.Api.Nested.Known.{HoldsParams, ParamsOptions, params-Written}
use feemarket.Api.Params.{Params}
use feemarket.Api.MsgParams.{MsgParams, empty}
use feemarket.Api.MsgParams.Methods.{
  size, message_size, put_message, marshal, msg_params_field, unmarshal,
}

pub record IsMessage (x : MsgParams) : Type 0 where
  pub params_ok : HoldsParams x.params
  pub authority_le : length x.authority ≤ int64_max
  pub no_unknown : x.unknown_fields ≡ none

module _ ⦃rt : Runtime⦄ ⦃laws : RuntimeLaws⦄ (o : Options Params) (proto : ParamsOptions o) where
  -- For a message MsgParams of the API module whose parameters are nil or a message Params, where
  -- neither has unknown fields, numbers fit 64 bits, and strings and the whole encoding are no
  -- longer than a slice can be, marshal returns: what it writes is as long as size says, and
  -- unmarshal into a new message gives the message back, whether unknown fields are discarded or
  -- not. The package proto encodes and decodes the inner message by the functions of its
  -- ProtoMethods.
  pub unmarshal-marshal_msg_params :
      (discard : Bool) (x : MsgParams)
      → IsMessage x
      → message_size o x ≤ int64_max
      → (w : Bytes) × (marshal o [] (some x) ≡ ok w)
        × (length w ≡ size o (some x))
        × (unmarshal o discard w (some empty) ≡ ok (some x))
  unfolding marshal unmarshal put_message message_size msg_params_field
  unmarshal-marshal_msg_params discard x h small =
      let end = bytes_of x.unknown_fields in
      let tail = put_string 18 x.authority end in
      let f = msg_params_field o discard in
      let first : MsgParams = record empty { params = x.params } in
      let read : MsgParams = record first { authority = x.authority } in
      let part =
        params-Written o proto discard (λ p. record empty { params = p }) x.params tail h.params_ok
          (omega arith) in
      let w = part.bytes in
      let l = length w in
      let whole : l ≡ message_size o x = omega (
        arith,
        part.bytes_length,
        length-put_string 18 x.authority end (omega (arith, h.authority_le)),
      ) in
      let fits : l ≤ int64_max = omega (arith, whole) in
      let ended = no_more f l read x.unknown_fields h.no_unknown in
      let d2 =
        put_string-Decodes f l 2 (λ b. record first { authority = b }) x.authority end first read
          (omega arith) (omega arith) fits (λ _. refl) refl (omega (arith, h.authority_le)) ended in
      let d1 = part.decodes f l empty read fits (λ _. refl) refl d2 in
      (
        w,
        ap (λ u. u >>= (λ w. fill (message_size o x) w) >>= λ w. ok (put_bytes [] w)) part.put_ok
            ∙ ap (λ u. u >>= λ w. ok (put_bytes [] w)) (fill-length (message_size o x) w whole),
        whole,
        ap (λ u. u >>= λ q. ok (some q)) (d1.runs (omega arith) l (omega arith))
            ∙ ap (λ u. ok (some (record x { unknown_fields = u }))) (sym h.no_unknown),
      )
