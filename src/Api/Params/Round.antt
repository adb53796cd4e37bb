-- ===== src/Api/Params/Round.antt =====
-- `ProtoMethods` of the message `Params` (api/feemarket/feemarket/v1/params.pulsar.go): size, marshal and
-- unmarshal agree.
use feemarket.Prelude.{ℕ, ◌≤◌, ◌<◌, ◌≡◌, refl, sym, ap, ◌∙◌, Bool, none, some, [], arith, length}
use feemarket.Prelude.Int.{two_64, int64_max}
use feemarket.Prelude.Outcome.{ok}
use feemarket.Prelude.Outcome.Pure.{◌>>=◌}
use feemarket.Sdk.{Bytes}
use feemarket.Proto.{put_bytes}
use feemarket.Proto.Decodes.{Decodes, nothing}
use feemarket.Api.{Runtime, RuntimeLaws, bytes_of, put_string, put_uint64, put_bool}
use feemarket.Api.Fields.{
  fill-length, length-put_bool, put_bool-Decodes, length-put_uint64, put_uint64-Decodes,
  length-put_string, put_string-Decodes,
}
use feemarket.Api.Params.{Params, empty}
use feemarket.Api.Params.Methods.{size, message_size, put_message, marshal, params_field, unmarshal}

-- What a Go program can hold: numbers of 64 bits, and strings that are no longer than a slice.
pub record IsMessage (p : Params) : Type 0 where
  pub alpha_le : length p.alpha ≤ int64_max
  pub beta_le : length p.beta ≤ int64_max
  pub gamma_le : length p.gamma ≤ int64_max
  pub delta_le : length p.delta ≤ int64_max
  pub min_base_gas_price_le : length p.min_base_gas_price ≤ int64_max
  pub min_learning_rate_le : length p.min_learning_rate ≤ int64_max
  pub max_learning_rate_le : length p.max_learning_rate ≤ int64_max
  pub max_block_utilization_lt : p.max_block_utilization < two_64
  pub window_lt : p.window < two_64
  pub fee_denom_le : length p.fee_denom ≤ int64_max

module _ ⦃rt : Runtime⦄ ⦃laws : RuntimeLaws⦄ where
  length-put_message : (p : Params) → IsMessage p → length (put_message p) ≡ message_size p
  unfolding put_message message_size
  length-put_message p h =
      let t0 = bytes_of p.unknown_fields in
      let t1 = put_bool 96 p.distribute_fees t0 in
      let t2 = put_bool 88 p.enabled t1 in
      let t3 = put_string 82 p.fee_denom t2 in
      let t4 = put_uint64 72 p.window t3 in
      let t5 = put_uint64 64 p.max_block_utilization t4 in
      let t6 = put_string 58 p.max_learning_rate t5 in
      let t7 = put_string 50 p.min_learning_rate t6 in
      let t8 = put_string 42 p.min_base_gas_price t7 in
      let t9 = put_string 34 p.delta t8 in
      let t10 = put_string 26 p.gamma t9 in
      let t11 = put_string 18 p.beta t10 in
      let t12 = put_string 10 p.alpha t11 in
      omega (
        arith,
        length-put_bool 96 p.distribute_fees t0,
        length-put_bool 88 p.enabled t1,
        length-put_string 82 p.fee_denom t2 (omega (arith, h.fee_denom_le)),
        length-put_uint64 72 p.window t3 h.window_lt,
        length-put_uint64 64 p.max_block_utilization t4 h.max_block_utilization_lt,
        length-put_string 58 p.max_learning_rate t5 (omega (arith, h.max_learning_rate_le)),
        length-put_string 50 p.min_learning_rate t6 (omega (arith, h.min_learning_rate_le)),
        length-put_string 42 p.min_base_gas_price t7 (omega (arith, h.min_base_gas_price_le)),
        length-put_string 34 p.delta t8 (omega (arith, h.delta_le)),
        length-put_string 26 p.gamma t9 (omega (arith, h.gamma_le)),
        length-put_string 18 p.beta t10 (omega (arith, h.beta_le)),
        length-put_string 10 p.alpha t11 (omega (arith, h.alpha_le)),
      )

  -- The message once the fields up to a number have been read.
  abbrev read_0 : Params → Params
  read_0 p = empty

  abbrev read_1 : Params → Params
  read_1 p = record (read_0 p) { alpha = p.alpha }

  abbrev read_2 : Params → Params
  read_2 p = record (read_1 p) { beta = p.beta }

  abbrev read_3 : Params → Params
  read_3 p = record (read_2 p) { gamma = p.gamma }

  abbrev read_4 : Params → Params
  read_4 p = record (read_3 p) { delta = p.delta }

  abbrev read_5 : Params → Params
  read_5 p = record (read_4 p) { min_base_gas_price = p.min_base_gas_price }

  abbrev read_6 : Params → Params
  read_6 p = record (read_5 p) { min_learning_rate = p.min_learning_rate }

  abbrev read_7 : Params → Params
  read_7 p = record (read_6 p) { max_learning_rate = p.max_learning_rate }

  abbrev read_8 : Params → Params
  read_8 p = record (read_7 p) { max_block_utilization = p.max_block_utilization }

  abbrev read_9 : Params → Params
  read_9 p = record (read_8 p) { window = p.window }

  abbrev read_10 : Params → Params
  read_10 p = record (read_9 p) { fee_denom = p.fee_denom }

  abbrev read_11 : Params → Params
  read_11 p = record (read_10 p) { enabled = p.enabled }

  abbrev read_12 : Params → Params
  read_12 p = record (read_11 p) { distribute_fees = p.distribute_fees }

  put_message-Decodes :
      (discard : Bool) (p : Params) (l : ℕ)
      → l ≤ int64_max
      → IsMessage p
      → p.unknown_fields ≡ none
      → Decodes (params_field discard) l (put_message p) empty (read_12 p)
  unfolding params_field put_message
  put_message-Decodes discard p l fits h known =
      let f = params_field discard in
      let end : Decodes f l (bytes_of p.unknown_fields) (read_12 p) (read_12 p) =
        rw known (nothing f l (read_12 p)) in
      let r = read_12 p in
      let d12 =
        put_bool-Decodes f l 12 (λ x. record (read_11 p) { distribute_fees = x }) p.distribute_fees
          _ (read_11 p) r (omega arith) (omega arith) (λ _. refl) refl end in
      let d11 =
        put_bool-Decodes f l 11 (λ x. record (read_10 p) { enabled = x }) p.enabled _ (read_10 p) r
          (omega arith) (omega arith) (λ _. refl) refl d12 in
      let d10 =
        put_string-Decodes f l 10 (λ x. record (read_9 p) { fee_denom = x }) p.fee_denom _
          (read_9 p) r (omega arith) (omega arith) fits (λ _. refl) refl
          (omega (arith, h.fee_denom_le)) d11 in
      let d9 =
        put_uint64-Decodes f l 9 (λ x. record (read_8 p) { window = x }) p.window _ (read_8 p) r
          (omega arith) (omega arith) (λ _. refl) refl h.window_lt d10 in
      let d8 =
        put_uint64-Decodes f l 8 (λ x. record (read_7 p) { max_block_utilization = x })
          p.max_block_utilization _ (read_7 p) r (omega arith) (omega arith) (λ _. refl) refl
          h.max_block_utilization_lt d9 in
      let d7 =
        put_string-Decodes f l 7 (λ x. record (read_6 p) { max_learning_rate = x })
          p.max_learning_rate _ (read_6 p) r (omega arith) (omega arith) fits (λ _. refl) refl
          (omega (arith, h.max_learning_rate_le)) d8 in
      let d6 =
        put_string-Decodes f l 6 (λ x. record (read_5 p) { min_learning_rate = x })
          p.min_learning_rate _ (read_5 p) r (omega arith) (omega arith) fits (λ _. refl) refl
          (omega (arith, h.min_learning_rate_le)) d7 in
      let d5 =
        put_string-Decodes f l 5 (λ x. record (read_4 p) { min_base_gas_price = x })
          p.min_base_gas_price _ (read_4 p) r (omega arith) (omega arith) fits (λ _. refl) refl
          (omega (arith, h.min_base_gas_price_le)) d6 in
      let d4 =
        put_string-Decodes f l 4 (λ x. record (read_3 p) { delta = x }) p.delta _ (read_3 p) r
          (omega arith) (omega arith) fits (λ _. refl) refl (omega (arith, h.delta_le)) d5 in
      let d3 =
        put_string-Decodes f l 3 (λ x. record (read_2 p) { gamma = x }) p.gamma _ (read_2 p) r
          (omega arith) (omega arith) fits (λ _. refl) refl (omega (arith, h.gamma_le)) d4 in
      let d2 =
        put_string-Decodes f l 2 (λ x. record (read_1 p) { beta = x }) p.beta _ (read_1 p) r
          (omega arith) (omega arith) fits (λ _. refl) refl (omega (arith, h.beta_le)) d3 in
      put_string-Decodes f l 1 (λ x. record (read_0 p) { alpha = x }) p.alpha _ (read_0 p) r
        (omega arith) (omega arith) fits (λ _. refl) refl (omega (arith, h.alpha_le)) d2

  -- For a message Params of the API module that has no unknown fields, whose numbers fit 64 bits,
  -- and whose strings and whole encoding are no longer than a slice can be, marshal returns: what
  -- it writes is as long as size says, and unmarshal into a new message gives the message back,
  -- whether unknown fields are discarded or not.
  pub unmarshal-marshal_params :
      (discard : Bool) (p : Params)
      → IsMessage p
      → message_size p ≤ int64_max
      → p.unknown_fields ≡ none
      → (w : Bytes) × (marshal [] (some p) ≡ ok w)
        × (length w ≡ size (some p))
        × (unmarshal discard w (some empty) ≡ ok (some p))
  unfolding marshal unmarshal
  unmarshal-marshal_params discard p h small known =
      let w = put_message p in
      let e = length-put_message p h in
      let fits : length w ≤ int64_max = omega (arith, e) in
      let reads =
        (put_message-Decodes discard p (length w) fits h known).runs (omega arith) (length w)
          (omega arith) in
      (
        w,
        ap (λ o. o >>= λ w. ok (put_bytes [] w)) (fill-length (message_size p) w e),
        e,
        ap (λ o. o >>= λ q. ok (some q)) reads
            ∙ ap (λ u. ok (some (record p { unknown_fields = u }))) (sym known),
      )
