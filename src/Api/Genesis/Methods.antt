-- ===== src/Api/Genesis/Methods.antt =====
-- `ProtoMethods` of the message `GenesisState` (api/feemarket/feemarket/v1/genesis.pulsar.go): its functions size,
-- marshal and unmarshal. What unmarshal has stored before an error is not modelled.
use feemarket.Prelude.{ℕ, ◌+◌, Bool, if◌then◌else◌, Option, none, some, length, ◌==◌}
use feemarket.Prelude.Outcome.{Outcome, ok}
use feemarket.Prelude.Outcome.Pure.{◌>>=◌}
use feemarket.Sdk.{Bytes}
use feemarket.Proto.{put_bytes}
use feemarket.Proto.Read.{Field, read_message}
use feemarket.Api.{Runtime, bytes_of, append_unknown, unknown_field, fill}
use feemarket.Api.Params.{Params, empty as empty_params}
use feemarket.Api.State.{State, empty as empty_state}
use feemarket.Api.Nested.{Options, size_message, put_message as put_nested, message_field}
use feemarket.Api.Genesis.{GenesisState}

module _ ⦃r : Runtime⦄ (o : Options Params) (os : Options State) where
  -- size
  unfoldable pub message_size : GenesisState → ℕ
  message_size x =
      size_message o x.params + size_message os x.state + length (bytes_of x.unknown_fields)

  abbrev pub size : Option GenesisState → ℕ
  size none = 0
  size (some x) = message_size x

  -- The fields that marshal writes, from the last to the first.
  unfoldable pub put_message : GenesisState → Outcome Bytes
  put_message x =
      put_nested os 18 x.state (bytes_of x.unknown_fields) >>= λ tail. put_nested o 10 x.params tail

  -- marshal: the message goes to the end of a buffer that may have been given.
  unfoldable pub marshal : Bytes → Option GenesisState → Outcome Bytes
  marshal buf none = ok buf
  marshal buf (some x) =
      put_message x >>= (λ w. fill (message_size x) w) >>= λ written. ok (put_bytes buf written)

  -- The default case of unmarshal.
  abbrev pub keep_unknown : Bool → ℕ → Bytes → GenesisState → Outcome (GenesisState × Bytes)
  keep_unknown discard l bytes x =
      unknown_field l
        (λ raw.
          if discard then x else record x { unknown_fields = append_unknown x.unknown_fields raw })
        bytes

  -- The switch of unmarshal.
  unfoldable pub genesis_field : Bool → Field GenesisState
  genesis_field discard l number type bytes rest x =
      if number == 1
      then message_field o l discard empty_params x.params (λ p. record x { params = p }) type rest
      else if number == 2
      then message_field os l discard empty_state x.state (λ s. record x { state = s }) type rest
      else keep_unknown discard l bytes x

  -- unmarshal, with the option `DiscardUnknown`
  unfoldable pub unmarshal : Bool → Bytes → Option GenesisState → Outcome (Option GenesisState)
  unmarshal discard buf none = ok none
  unmarshal discard buf (some x) = read_message (genesis_field discard) buf x >>= λ q. ok (some q)
