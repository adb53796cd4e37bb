-- ===== src/Api/Params/Methods.antt =====
-- `ProtoMethods` of the message `Params` (api/feemarket/feemarket/v1/params.pulsar.go): its functions size,
-- marshal and unmarshal. What unmarshal has stored before an error is not modelled.
use feemarket.Prelude.{ℕ, ◌+◌, Bool, if◌then◌else◌, Option, none, some, length, ◌==◌}
use feemarket.Prelude.Outcome.{Outcome, ok}
use feemarket.Prelude.Outcome.Pure.{◌>>=◌}
use feemarket.Sdk.{Bytes}
use feemarket.Proto.{put_bytes}
use feemarket.Proto.Read.{Field, number_field, is_set, read_message}
use feemarket.Api.{
  Runtime, bytes_of, append_unknown, string_field, unknown_field, fill, size_string, size_uint64,
  size_bool, put_string, put_uint64, put_bool,
}
use feemarket.Api.Params.{Params}

module _ ⦃r : Runtime⦄ where
  -- size
  unfoldable pub message_size : Params → ℕ
  message_size p =
      size_string p.alpha
      + size_string p.beta
      + size_string p.gamma
      + size_string p.delta
      + size_string p.min_base_gas_price
      + size_string p.min_learning_rate
      + size_string p.max_learning_rate
      + size_uint64 p.max_block_utilization
      + size_uint64 p.window
      + size_string p.fee_denom
      + size_bool p.enabled
      + size_bool p.distribute_fees
      + length (bytes_of p.unknown_fields)

  abbrev pub size : Option Params → ℕ
  size none = 0
  size (some p) = message_size p

  -- The fields that marshal writes, from the last to the first.
  unfoldable pub put_message : Params → Bytes
  put_message p =
      let tail = put_bool 96 p.distribute_fees (bytes_of p.unknown_fields) in
      let tail = put_string 82 p.fee_denom (put_bool 88 p.enabled tail) in
      let tail = put_uint64 64 p.max_block_utilization (put_uint64 72 p.window tail) in
      let tail = put_string 50 p.min_learning_rate (put_string 58 p.max_learning_rate tail) in
      let tail = put_string 34 p.delta (put_string 42 p.min_base_gas_price tail) in
      put_string 10 p.alpha (put_string 18 p.beta (put_string 26 p.gamma tail))

  -- marshal: the message goes to the end of a buffer that may have been given.
  unfoldable pub marshal : Bytes → Option Params → Outcome Bytes
  marshal buf none = ok buf
  marshal buf (some p) =
      fill (message_size p) (put_message p) >>= λ written. ok (put_bytes buf written)

  -- The default case of unmarshal.
  abbrev pub keep_unknown : Bool → ℕ → Bytes → Params → Outcome (Params × Bytes)
  keep_unknown discard l bytes p =
      unknown_field l
        (λ raw.
          if discard then p else record p { unknown_fields = append_unknown p.unknown_fields raw })
        bytes

  -- The cases 10 to 12.
  abbrev pub late_field : Bool → Field Params
  late_field discard l number type bytes rest p =
      if number == 10
      then string_field l (λ b. record p { fee_denom = b }) type rest
      else if number == 11
      then number_field (λ v. record p { enabled = is_set v }) type rest
      else if number == 12
      then number_field (λ v. record p { distribute_fees = is_set v }) type rest
      else keep_unknown discard l bytes p

  -- The cases 7 to 9.
  abbrev pub number_and_rate_field : Bool → Field Params
  number_and_rate_field discard l number type bytes rest p =
      if number == 7
      then string_field l (λ b. record p { max_learning_rate = b }) type rest
      else if number == 8
      then number_field (λ v. record p { max_block_utilization = v }) type rest
      else if number == 9
      then number_field (λ v. record p { window = v }) type rest
      else late_field discard l number type bytes rest p

  -- The cases 4 to 6.
  abbrev pub middle_field : Bool → Field Params
  middle_field discard l number type bytes rest p =
      if number == 4
      then string_field l (λ b. record p { delta = b }) type rest
      else if number == 5
      then string_field l (λ b. record p { min_base_gas_price = b }) type rest
      else if number == 6
      then string_field l (λ b. record p { min_learning_rate = b }) type rest
      else number_and_rate_field discard l number type bytes rest p

  -- The switch of unmarshal, and its cases 1 to 3.
  unfoldable pub params_field : Bool → Field Params
  params_field discard l number type bytes rest p =
      if number == 1
      then string_field l (λ b. record p { alpha = b }) type rest
      else if number == 2
      then string_field l (λ b. record p { beta = b }) type rest
      else if number == 3
      then string_field l (λ b. record p { gamma = b }) type rest
      else middle_field discard l number type bytes rest p

  -- unmarshal, with the option `DiscardUnknown`
  unfoldable pub unmarshal : Bool → Bytes → Option Params → Outcome (Option Params)
  unmarshal discard buf none = ok none
  unmarshal discard buf (some p) = read_message (params_field discard) buf p >>= λ q. ok (some q)
