-- ===== src/Proto/ParamsBytes.antt =====
-- The bytes that `Marshal` of `Params` (x/feemarket/types/params.pb.go) writes, field by field, and how a
-- decimal among them is read.
use Prim.Native.String.{len}
use feemarket.Prelude.{ℕ, ◌+◌, ◌*◌, ◌≤◌, ◌<◌, ◌≡◌, ap, false, [], ◌∷◌, arith, length}
use feemarket.Prelude.Int.{int64_max, message_max, slice_max}
use feemarket.Prelude.Outcome.{ok}
use feemarket.Prelude.Outcome.Pure.{◌>>=◌}
use feemarket.Math.{Math}
use feemarket.Sdk.{Bytes}
use feemarket.Params.{Params}
use feemarket.Codec.{IsStorableParams}
use feemarket.Proto.{Wire, WireLaws, put_block, put_number, put_bool, put_block_unless_empty}
use feemarket.Proto.Decodes.{Decodes}
use feemarket.Proto.Read.{Field}
use feemarket.Proto.Unmarshal.{dec_field}
use feemarket.Proto.Blocks.{
  length-put_block, length-put_block_unless_empty, length-put_number, length-put_bool,
  put_block-Decodes,
}

module _ ⦃m : Math⦄ ⦃w : Wire⦄ where
  -- The bytes of a decimal.
  pub record DecBytes (d : m.LegacyDec) : Type 0 where
    pub bytes : Bytes
    pub written : w.dec_bytes d ≡ ok bytes
    pub short : length bytes ≤ 1_024
    pub back : (old : m.LegacyDec) → w.dec_of_bytes old bytes ≡ ok d

  -- The bytes of the decimals of some parameters.
  pub record ParamsDecs (p : Params) : Type 0 where
    pub alpha_bytes : DecBytes p.alpha
    pub beta_bytes : DecBytes p.beta
    pub gamma_bytes : DecBytes p.gamma
    pub delta_bytes : DecBytes p.delta
    pub min_base_gas_price_bytes : DecBytes p.min_base_gas_price
    pub min_learning_rate_bytes : DecBytes p.min_learning_rate
    pub max_learning_rate_bytes : DecBytes p.max_learning_rate

  some-DecBytes : WireLaws → (d : m.LegacyDec) → m.is_nil d ≡ false → DecBytes d
  some-DecBytes laws d h =
      let (b, written, short, back) = laws.dec_round d h in
      record { bytes = b; written = written; short = short; back = back }

  pub params_decs : WireLaws → (p : Params) → IsStorableParams p → ParamsDecs p
  params_decs laws p h = record {
    alpha_bytes = some-DecBytes laws p.alpha h.alpha_some;
    beta_bytes = some-DecBytes laws p.beta h.beta_some;
    gamma_bytes = some-DecBytes laws p.gamma h.gamma_some;
    delta_bytes = some-DecBytes laws p.delta h.delta_some;
    min_base_gas_price_bytes = some-DecBytes laws p.min_base_gas_price h.min_price_some;
    min_learning_rate_bytes = some-DecBytes laws p.min_learning_rate h.min_rate_some;
    max_learning_rate_bytes = some-DecBytes laws p.max_learning_rate h.max_rate_some;
  }

  -- The fields from a number on.
  abbrev pub bytes_12 : (p : Params) → ParamsDecs p → Bytes
  bytes_12 p ds = put_bool 96 p.distribute_fees []

  abbrev pub bytes_11 : (p : Params) → ParamsDecs p → Bytes
  bytes_11 p ds = put_bool 88 p.enabled (bytes_12 p ds)

  abbrev pub bytes_10 : (p : Params) → ParamsDecs p → Bytes
  bytes_10 p ds = put_block_unless_empty 82 (w.string_bytes p.fee_denom) (bytes_11 p ds)

  abbrev pub bytes_9 : (p : Params) → ParamsDecs p → Bytes
  bytes_9 p ds = put_number 72 p.window (bytes_10 p ds)

  abbrev pub bytes_8 : (p : Params) → ParamsDecs p → Bytes
  bytes_8 p ds = put_number 64 p.max_block_utilization (bytes_9 p ds)

  abbrev pub bytes_7 : (p : Params) → ParamsDecs p → Bytes
  bytes_7 p ds = put_block 58 ds.max_learning_rate_bytes.bytes (bytes_8 p ds)

  abbrev pub bytes_6 : (p : Params) → ParamsDecs p → Bytes
  bytes_6 p ds = put_block 50 ds.min_learning_rate_bytes.bytes (bytes_7 p ds)

  abbrev pub bytes_5 : (p : Params) → ParamsDecs p → Bytes
  bytes_5 p ds = put_block 42 ds.min_base_gas_price_bytes.bytes (bytes_6 p ds)

  abbrev pub bytes_4 : (p : Params) → ParamsDecs p → Bytes
  bytes_4 p ds = put_block 34 ds.delta_bytes.bytes (bytes_5 p ds)

  abbrev pub bytes_3 : (p : Params) → ParamsDecs p → Bytes
  bytes_3 p ds = put_block 26 ds.gamma_bytes.bytes (bytes_4 p ds)

  abbrev pub bytes_2 : (p : Params) → ParamsDecs p → Bytes
  bytes_2 p ds = put_block 18 ds.beta_bytes.bytes (bytes_3 p ds)

  abbrev pub bytes_1 : (p : Params) → ParamsDecs p → Bytes
  bytes_1 p ds = put_block 10 ds.alpha_bytes.bytes (bytes_2 p ds)

  pub length-bytes :
      WireLaws
      → (p : Params) (ds : ParamsDecs p) → len p.fee_denom < slice_max
      → length (bytes_1 p ds) ≤ message_max
  length-bytes laws p ds short = omega (
    arith,
    laws.string_length p.fee_denom,
    length-put_block 10 ds.alpha_bytes.bytes (bytes_2 p ds),
    ds.alpha_bytes.short,
    length-put_block 18 ds.beta_bytes.bytes (bytes_3 p ds),
    ds.beta_bytes.short,
    length-put_block 26 ds.gamma_bytes.bytes (bytes_4 p ds),
    ds.gamma_bytes.short,
    length-put_block 34 ds.delta_bytes.bytes (bytes_5 p ds),
    ds.delta_bytes.short,
    length-put_block 42 ds.min_base_gas_price_bytes.bytes (bytes_6 p ds),
    ds.min_base_gas_price_bytes.short,
    length-put_block 50 ds.min_learning_rate_bytes.bytes (bytes_7 p ds),
    ds.min_learning_rate_bytes.short,
    length-put_block 58 ds.max_learning_rate_bytes.bytes (bytes_8 p ds),
    ds.max_learning_rate_bytes.short,
    length-put_number 64 p.max_block_utilization (bytes_9 p ds),
    length-put_number 72 p.window (bytes_10 p ds),
    length-put_block_unless_empty 82 (w.string_bytes p.fee_denom) (bytes_11 p ds),
    length-put_bool 88 p.enabled (bytes_12 p ds),
    length-put_bool 96 p.distribute_fees [],
  )

  -- A decimal that has been written is read, in any message.
  pub put_dec-Decodes :
      {M : Type 0} (f : Field M) (l number : ℕ) (old : m.LegacyDec) (put : m.LegacyDec → M)
      (d : m.LegacyDec) (bs : DecBytes d) (tail : Bytes) (x r : M)
      → 0 < number
      → number < 16
      → l ≤ int64_max
      → ((h : Bytes) → f l number 2 ((number * 8 + 2) ∷ h) h x ≡ dec_field l old put 2 h)
      → Decodes f l tail (put d) r
      → Decodes f l (put_block (number * 8 + 2) bs.bytes tail) x r
  put_dec-Decodes f l number old put d bs tail x r some_number few fits field after =
      put_block-Decodes f l number (λ b. w.dec_of_bytes old b >>= λ e. ok (put e)) bs.bytes tail x
        (put d) r some_number few fits field (omega (arith, bs.short))
        (ap (λ o. o >>= λ e. ok (put e)) (bs.back old)) after
