-- ===== src/Api/State/Methods.antt =====
-- `ProtoMethods` of the message `State` (api/feemarket/feemarket/v1/genesis.pulsar.go): its functions size,
-- marshal and unmarshal. What unmarshal has stored before an error is not modelled.
use feemarket.Prelude.{
  ℕ, ◌+◌, Bool, if◌then◌else◌, Option, none, some, List, [], ◌∷◌, length, ◌==◌, replicate,
}
use feemarket.Prelude.Outcome.{Outcome, ok, panic}
use feemarket.Prelude.Outcome.Pure.{◌>>=◌}
use feemarket.Sdk.{Bytes}
use feemarket.State.{elems}
use feemarket.Proto.{put_bytes, pack}
use feemarket.Proto.Read.{Field, number_field, read_message}
use feemarket.Proto.Packed.{append_window, window_field}
use feemarket.Api.{
  Runtime, bytes_of, append_unknown, string_field, unknown_field, fill, size_string, size_uint64,
  put_string, put_uint64,
}
use feemarket.Api.State.{State}

-- Bytes stored from an index of a buffer on: here from its start.
unfoldable pub overwrite : Bytes → Bytes → Outcome Bytes
overwrite [] buffer = ok buffer
overwrite (b ∷ bytes) [] = panic
overwrite (b ∷ bytes) (_ ∷ buffer) = overwrite bytes buffer >>= λ t. ok (b ∷ t)

module _ ⦃r : Runtime⦄ where
  -- `pksize2`
  abbrev pub packed_size : List ℕ → ℕ
  packed_size [] = 0
  packed_size (u ∷ us) = r.sov u + packed_size us

  unfoldable pub size_window : List ℕ → ℕ
  size_window [] = 0
  size_window (u ∷ us) = 1 + r.sov (packed_size (u ∷ us)) + packed_size (u ∷ us)

  -- size
  unfoldable pub message_size : State → ℕ
  message_size s =
      size_string s.base_gas_price
      + size_string s.learning_rate
      + size_window (elems s.window)
      + size_uint64 s.index
      + length (bytes_of s.unknown_fields)

  abbrev pub size : Option State → ℕ
  size none = 0
  size (some s) = message_size s

  -- The window is written over room that is left for it.
  unfoldable pub put_window : ℕ → List ℕ → Bytes → Outcome Bytes
  put_window tag [] tail = ok tail
  put_window tag (u ∷ us) tail =
      overwrite (pack (u ∷ us)) (put_bytes (replicate (packed_size (u ∷ us)) 0) tail) >>= λ t.
      ok (tag ∷ r.encode_varint (packed_size (u ∷ us)) t)

  -- The fields that marshal writes, from the last to the first.
  unfoldable pub put_message : State → Outcome Bytes
  put_message s =
      put_window 26 (elems s.window) (put_uint64 32 s.index (bytes_of s.unknown_fields)) >>= λ tail.
      ok (put_string 10 s.base_gas_price (put_string 18 s.learning_rate tail))

  -- marshal: the message goes to the end of a buffer that may have been given.
  unfoldable pub marshal : Bytes → Option State → Outcome Bytes
  marshal buf none = ok buf
  marshal buf (some s) =
      put_message s >>= fill (message_size s) >>= λ written. ok (put_bytes buf written)

  -- The default case of unmarshal.
  abbrev pub keep_unknown : Bool → ℕ → Bytes → State → Outcome (State × Bytes)
  keep_unknown discard l bytes s =
      unknown_field l
        (λ raw.
          if discard then s else record s { unknown_fields = append_unknown s.unknown_fields raw })
        bytes

  -- The switch of unmarshal: its cases 3 and 4, and the default.
  abbrev pub number_field_of : Bool → Field State
  number_field_of discard l number type bytes rest s =
      if number == 3
      then window_field l (λ us. record s { window = append_window s.window us }) type rest
      else if number == 4
      then number_field (λ v. record s { index = v }) type rest
      else keep_unknown discard l bytes s

  -- The cases 1 and 2.
  unfoldable pub state_field : Bool → Field State
  state_field discard l number type bytes rest s =
      if number == 1
      then string_field l (λ b. record s { base_gas_price = b }) type rest
      else if number == 2
      then string_field l (λ b. record s { learning_rate = b }) type rest
      else number_field_of discard l number type bytes rest s

  -- unmarshal, with the option `DiscardUnknown`
  unfoldable pub unmarshal : Bool → Bytes → Option State → Outcome (Option State)
  unmarshal discard buf none = ok none
  unmarshal discard buf (some s) = read_message (state_field discard) buf s >>= λ t. ok (some t)
