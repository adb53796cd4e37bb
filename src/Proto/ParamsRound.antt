-- ===== src/Proto/ParamsRound.antt =====
-- The generated methods `Marshal` and `Unmarshal` of `Params` (x/feemarket/types/params.pb.go) agree.
use feemarket.Prelude.{ℕ, ◌≤◌, ◌<◌, ◌≡◌, refl, ap, ◌∙◌, [], ◌∷◌, arith, length}
use feemarket.Prelude.Int.{two_64, int64_max, message_max}
use feemarket.Prelude.Outcome.{ok}
use feemarket.Math.{Math}
use feemarket.Sdk.{Bytes}
use feemarket.Params.{Params}
use feemarket.Codec.{IsStorableParams}
use feemarket.Proto.{Wire, WireLaws, marshal_params}
use feemarket.Proto.Decodes.{Decodes, nothing}
use feemarket.Proto.Unmarshal.{new_struct_params, read_params_field, unmarshal_params}
use feemarket.Proto.ParamsBytes.{
  ParamsDecs, params_decs, put_dec-Decodes, length-bytes, bytes_1, bytes_2, bytes_3, bytes_4,
  bytes_5, bytes_6, bytes_7, bytes_8, bytes_9, bytes_10, bytes_11, bytes_12,
}
use feemarket.Proto.Blocks.{put_number-Decodes, put_bool-Decodes, put_string-Decodes}

module _ ⦃m : Math⦄ ⦃w : Wire⦄ where
  -- The parameters once the fields up to a number have been read.
  abbrev read_0 : Params → Params
  read_0 p = new_struct_params

  abbrev read_1 : Params → Params
  read_1 p = record (read_0 p) { alpha = p.alpha }

  abbrev read_2 : Params → Params
  read_2 p = record (read_1 p) { beta = p.beta }

  abbrev read_3 : Params → Params
  read_3 p = record (read_2 p) { gamma = p.gamma }

  abbrev read_4 : Params → Params
  read_4 p = record (read_3 p) { delta = p.delta }

  abbrev read_5 : Params → Params
  read_5 p = record (read_4 p) { min_base_gas_price = p.min_base_gas_price }

  abbrev read_6 : Params → Params
  read_6 p = record (read_5 p) { min_learning_rate = p.min_learning_rate }

  abbrev read_7 : Params → Params
  read_7 p = record (read_6 p) { max_learning_rate = p.max_learning_rate }

  abbrev read_8 : Params → Params
  read_8 p = record (read_7 p) { max_block_utilization = p.max_block_utilization }

  abbrev read_9 : Params → Params
  read_9 p = record (read_8 p) { window = p.window }

  abbrev read_10 : Params → Params
  read_10 p = record (read_9 p) { fee_denom = w.string_of_bytes (w.string_bytes p.fee_denom) }

  abbrev read_11 : Params → Params
  read_11 p = record (read_10 p) { enabled = p.enabled }

  abbrev read_12 : Params → Params
  read_12 p = record (read_11 p) { distribute_fees = p.distribute_fees }

  -- An empty string has no bytes, and no bytes are the empty string.
  bytes-Decodes :
      (p : Params) (ds : ParamsDecs p) (l : ℕ)
      → l ≤ int64_max
      → IsStorableParams p
      → length (w.string_bytes p.fee_denom) < two_64
      → w.string_of_bytes [] ≡ ""
      → Decodes read_params_field l (bytes_1 p ds) (read_0 p) (read_12 p)
  unfolding read_params_field
  bytes-Decodes p ds l fits h short empty =
      let f = read_params_field in
      let r = read_12 p in
      let d12 =
        put_bool-Decodes f l 12 (λ x. record (read_11 p) { distribute_fees = x }) p.distribute_fees
          [] (read_11 p) r (omega arith) (omega arith) (λ _. refl) refl (nothing f l r) in
      let d11 =
        put_bool-Decodes f l 11 (λ x. record (read_10 p) { enabled = x }) p.enabled (bytes_12 p ds)
          (read_10 p) r (omega arith) (omega arith) (λ _. refl) refl d12 in
      let d10 =
        put_string-Decodes f l 10 (λ b. record (read_9 p) { fee_denom = w.string_of_bytes b })
          (w.string_bytes p.fee_denom) (bytes_11 p ds) (read_9 p) r (omega arith) (omega arith) fits
          (λ _. refl) (ap (λ x. record (read_9 p) { fee_denom = x }) empty) short d11 in
      let d9 =
        put_number-Decodes f l 9 (λ x. record (read_8 p) { window = x }) p.window (bytes_10 p ds)
          (read_8 p) r (omega arith) (omega arith) (λ _. refl) refl h.window_lt d10 in
      let d8 =
        put_number-Decodes f l 8 (λ x. record (read_7 p) { max_block_utilization = x })
          p.max_block_utilization (bytes_9 p ds) (read_7 p) r (omega arith) (omega arith)
          (λ _. refl) refl h.max_block_utilization_lt d9 in
      let d7 =
        put_dec-Decodes f l 7 w.nil_dec (λ x. record (read_6 p) { max_learning_rate = x })
          p.max_learning_rate ds.max_learning_rate_bytes (bytes_8 p ds) (read_6 p) r (omega arith)
          (omega arith) fits (λ _. refl) d8 in
      let d6 =
        put_dec-Decodes f l 6 w.nil_dec (λ x. record (read_5 p) { min_learning_rate = x })
          p.min_learning_rate ds.min_learning_rate_bytes (bytes_7 p ds) (read_5 p) r (omega arith)
          (omega arith) fits (λ _. refl) d7 in
      let d5 =
        put_dec-Decodes f l 5 w.nil_dec (λ x. record (read_4 p) { min_base_gas_price = x })
          p.min_base_gas_price ds.min_base_gas_price_bytes (bytes_6 p ds) (read_4 p) r (omega arith)
          (omega arith) fits (λ _. refl) d6 in
      let d4 =
        put_dec-Decodes f l 4 w.nil_dec (λ x. record (read_3 p) { delta = x }) p.delta
          ds.delta_bytes (bytes_5 p ds) (read_3 p) r (omega arith) (omega arith) fits (λ _. refl)
          d5 in
      let d3 =
        put_dec-Decodes f l 3 w.nil_dec (λ x. record (read_2 p) { gamma = x }) p.gamma
          ds.gamma_bytes (bytes_4 p ds) (read_2 p) r (omega arith) (omega arith) fits (λ _. refl)
          d4 in
      let d2 =
        put_dec-Decodes f l 2 w.nil_dec (λ x. record (read_1 p) { beta = x }) p.beta ds.beta_bytes
          (bytes_3 p ds) (read_1 p) r (omega arith) (omega arith) fits (λ _. refl) d3 in
      put_dec-Decodes f l 1 w.nil_dec (λ x. record (read_0 p) { alpha = x }) p.alpha ds.alpha_bytes
        (bytes_2 p ds) (read_0 p) r (omega arith) (omega arith) fits (λ _. refl) d2

  pub no_bytes : WireLaws → w.string_of_bytes [] ≡ ""
  no_bytes laws = by_bytes (w.string_bytes "") (laws.string_length "") (laws.string_round "")
    where
      by_bytes : (b : Bytes) → length b ≤ 0 → w.string_of_bytes b ≡ "" → w.string_of_bytes [] ≡ ""
      by_bytes [] h e = e
      by_bytes (x ∷ b) h e = absurd (omega arith)

  -- Both directions, for parameters that can be stored.
  pub unmarshal_params-marshal_params :
      WireLaws
      → (p : Params) → IsStorableParams p
      → (b : Bytes) × (marshal_params p ≡ ok b)
        × (length b ≤ message_max)
        × (unmarshal_params b ≡ ok p)
  unfolding marshal_params unmarshal_params
  unmarshal_params-marshal_params laws p h =
      let ds = params_decs laws p h in
      let bytes = bytes_1 p ds in
      let fits = length-bytes laws p ds h.denom_lt in
      let text = laws.string_length p.fee_denom in
      (
        bytes,
        rw
            (
              ds.max_learning_rate_bytes.written, ds.min_learning_rate_bytes.written,
              ds.min_base_gas_price_bytes.written, ds.delta_bytes.written, ds.gamma_bytes.written,
              ds.beta_bytes.written, ds.alpha_bytes.written,
            )
            refl,
        fits,
        (bytes-Decodes p ds (length bytes) (omega arith) h (omega (arith, text, h.denom_lt))
                (no_bytes laws)).runs
              (omega arith) (length bytes) (omega arith)
            ∙ ap (λ t. ok (record p { fee_denom = t })) (laws.string_round p.fee_denom),
      )
