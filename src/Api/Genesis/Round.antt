-- ===== src/Api/Genesis/Round.antt =====
-- `ProtoMethods` of the message `GenesisState` (api/feemarket/feemarket/v1/genesis.pulsar.go): size, marshal and
-- unmarshal agree.
use feemarket.Prelude.{◌≤◌, ◌≡◌, refl, sym, ap, ◌∙◌, Bool, none, some, [], arith, length}
use feemarket.Prelude.Int.{int64_max}
use feemarket.Prelude.Outcome.{ok}
use feemarket.Prelude.Outcome.Pure.{◌>>=◌}
use feemarket.Sdk.{Bytes}
use feemarket.Proto.{put_bytes}
use feemarket.Api.{Runtime, RuntimeLaws, bytes_of, fill}
use feemarket.Api.Fields.{fill-length}
use feemarket.Api.Nested.{Options, put_message as put_nested}
use feemarket.Api.Nested.Fields.{no_more}
use feemarket.Api.Nested.Known.{
  HoldsParams, HoldsState, ParamsOptions, StateOptions, decoded_state, params-Written,
  state-Written,
}
use feemarket.Api.Params.{Params}
use feemarket.Api.State.{State}
use feemarket.Api.Genesis.{GenesisState, empty}
use feemarket.Api.Genesis.Methods.{
  size, message_size, put_message, marshal, genesis_field, unmarshal,
}

-- What a Go program can hold, with no unknown fields in any of the messages.
pub record IsMessage ⦃rt : Runtime⦄ (x : GenesisState) : Type 0 where
  pub params_ok : HoldsParams x.params
  pub state_ok : HoldsState x.state
  pub no_unknown : x.unknown_fields ≡ none

module _ ⦃rt : Runtime⦄ ⦃laws : RuntimeLaws⦄ (o : Options Params) (os : Options State)
    (proto : ParamsOptions o) (proto_state : StateOptions os) where
  -- For a message GenesisState of the API module whose parameters and state are each nil or a
  -- message, where none has unknown fields, numbers fit 64 bits, and strings, the packed window and
  -- the whole encoding are no longer than a slice can be, marshal returns: what it writes is as
  -- long as size says, and unmarshal into a new message gives the message back, with nil for a
  -- window that is empty. The package proto encodes and decodes the inner messages by the functions
  -- of their ProtoMethods.
  pub unmarshal-marshal_genesis_state :
      (discard : Bool) (x : GenesisState)
      → IsMessage x
      → message_size o os x ≤ int64_max
      → (w : Bytes) × (marshal o os [] (some x) ≡ ok w)
        × (length w ≡ size o os (some x))
        × (unmarshal o os discard w (some empty)
            ≡ ok (some (record x { state = decoded_state x.state })))
  unfolding marshal unmarshal put_message message_size genesis_field
  unmarshal-marshal_genesis_state discard x h small =
      let end = bytes_of x.unknown_fields in
      let f = genesis_field o os discard in
      let first : GenesisState = record empty { params = x.params } in
      let read : GenesisState = record first { state = decoded_state x.state } in
      let second =
        state-Written os proto_state discard (λ s. record first { state = s }) x.state end
          h.state_ok (omega arith) in
      let part =
        params-Written o proto discard (λ p. record empty { params = p }) x.params second.bytes
          h.params_ok (omega arith) in
      let w = part.bytes in
      let l = length w in
      let whole : l ≡ message_size o os x = omega (arith, part.bytes_length, second.bytes_length) in
      let fits : l ≤ int64_max = omega (arith, whole) in
      let ended = no_more f l read x.unknown_fields h.no_unknown in
      let d2 = second.decodes f l first read fits (λ _. refl) refl ended in
      let d1 = part.decodes f l empty read fits (λ _. refl) refl d2 in
      (
        w,
        ap
              (λ u.
                u
                >>= (λ tail. put_nested o 10 x.params tail)
                >>= (λ w. fill (message_size o os x) w)
                >>= λ w. ok (put_bytes [] w))
              second.put_ok
            ∙ ap (λ u. u >>= (λ w. fill (message_size o os x) w) >>= λ w. ok (put_bytes [] w))
                part.put_ok
            ∙ ap (λ u. u >>= λ w. ok (put_bytes [] w)) (fill-length (message_size o os x) w whole),
        whole,
        ap (λ u. u >>= λ q. ok (some q)) (d1.runs (omega arith) l (omega arith))
            ∙ ap (λ u. ok (some (record x { unknown_fields = u; state = decoded_state x.state })))
                (sym h.no_unknown),
      )
