-- ===== src/Proto/Unmarshal.antt =====
-- The generated methods `Params.Unmarshal` (x/feemarket/types/params.pb.go) and `State.Unmarshal`
-- (genesis.pb.go). What they have stored before an error is not modelled: the keeper drops it.
use feemarket.Prelude.{ℕ, if◌then◌else◌, none, ◌==◌, false}
use feemarket.Prelude.Outcome.{Outcome, ok}
use feemarket.Prelude.Outcome.Pure.{◌>>=◌}
use feemarket.Math.{Math}
use feemarket.Sdk.{Bytes}
use feemarket.Params.{Params}
use feemarket.State.{State}
use feemarket.Proto.{Wire}
use feemarket.Proto.Read.{Field, number_field, block_field, is_set, read_message}
use feemarket.Proto.Skip.{skip, cut_unknown}
use feemarket.Proto.Packed.{append_window, window_field}

module _ ⦃m : Math⦄ ⦃w : Wire⦄ where
  -- A field that is a decimal, with the one that is there.
  abbrev pub dec_field :
      {M : Type 0} → ℕ → m.LegacyDec → (m.LegacyDec → M) → ℕ → Bytes → Outcome (M × Bytes)
  dec_field l old put = block_field l (λ b. w.dec_of_bytes old b >>= λ d. ok (put d))

  -- The default case: the field is passed over.
  abbrev pub pass_over : {M : Type 0} → ℕ → Bytes → M → Outcome (M × Bytes)
  pass_over l bytes x = cut_unknown skip l bytes >>= λ p. ok (x, p.1)

  -- `Params{}` and `State{}`
  abbrev pub new_struct_params : Params
  new_struct_params = record {
    alpha = w.nil_dec;
    beta = w.nil_dec;
    gamma = w.nil_dec;
    delta = w.nil_dec;
    min_base_gas_price = w.nil_dec;
    min_learning_rate = w.nil_dec;
    max_learning_rate = w.nil_dec;
    max_block_utilization = 0;
    window = 0;
    fee_denom = "";
    enabled = false;
    distribute_fees = false;
  }

  abbrev pub new_struct_state : State
  new_struct_state = record {
    base_gas_price = w.nil_dec;
    learning_rate = w.nil_dec;
    window = none;
    index = 0;
  }

  -- The cases 8 to 12 of `Params.Unmarshal`, and the default.
  abbrev pub number_or_flag : Field Params
  number_or_flag l number type bytes rest p =
      if number == 8
      then number_field (λ v. record p { max_block_utilization = v }) type rest
      else if number == 9
      then number_field (λ v. record p { window = v }) type rest
      else if number == 10
      then block_field l (λ b. ok (record p { fee_denom = w.string_of_bytes b })) type rest
      else if number == 11
      then number_field (λ v. record p { enabled = is_set v }) type rest
      else if number == 12
      then number_field (λ v. record p { distribute_fees = is_set v }) type rest
      else pass_over l bytes p

  -- The cases 5 to 7.
  abbrev pub price_or_rate : Field Params
  price_or_rate l number type bytes rest p =
      if number == 5
      then dec_field l p.min_base_gas_price (λ d. record p { min_base_gas_price = d }) type rest
      else if number == 6
      then dec_field l p.min_learning_rate (λ d. record p { min_learning_rate = d }) type rest
      else if number == 7
      then dec_field l p.max_learning_rate (λ d. record p { max_learning_rate = d }) type rest
      else number_or_flag l number type bytes rest p

  -- The switch, and its cases 1 to 4.
  unfoldable pub read_params_field : Field Params
  read_params_field l number type bytes rest p =
      if number == 1
      then dec_field l p.alpha (λ d. record p { alpha = d }) type rest
      else if number == 2
      then dec_field l p.beta (λ d. record p { beta = d }) type rest
      else if number == 3
      then dec_field l p.gamma (λ d. record p { gamma = d }) type rest
      else if number == 4
      then dec_field l p.delta (λ d. record p { delta = d }) type rest
      else price_or_rate l number type bytes rest p

  -- The switch of `State.Unmarshal`.
  unfoldable pub read_state_field : Field State
  read_state_field l number type bytes rest s =
      if number == 1
      then dec_field l s.base_gas_price (λ d. record s { base_gas_price = d }) type rest
      else if number == 2
      then dec_field l s.learning_rate (λ d. record s { learning_rate = d }) type rest
      else if number == 3
      then window_field l (λ us. record s { window = append_window s.window us }) type rest
      else if number == 4
      then number_field (λ v. record s { index = v }) type rest
      else pass_over l bytes s

  -- `Unmarshal` into a new struct, as the keeper calls it
  unfoldable pub unmarshal_params : Bytes → Outcome Params
  unmarshal_params bytes = read_message read_params_field bytes new_struct_params

  unfoldable pub unmarshal_state : Bytes → Outcome State
  unmarshal_state bytes = read_message read_state_field bytes new_struct_state
