-- ===== src/Proto/Total.antt =====
-- How the loops of `Params.Unmarshal` (x/feemarket/types/params.pb.go) and of `State.Unmarshal`
-- (genesis.pb.go) make progress on any bytes.
use feemarket.Prelude.{
  ℕ, zero, suc, ◌/◌, ◌%◌, ◌≤◌, ◌<◌, ◌≢◌, refl, [], ◌∷◌, arith, ltb, length, ◌==◌,
}
use feemarket.Prelude.Outcome.{Outcome, ok, err, panic}
use feemarket.Prelude.Outcome.Pure.{◌>>=◌}
use feemarket.Math.{Math}
use feemarket.Sdk.{Bytes}
use feemarket.Params.{Params}
use feemarket.State.{State}
use feemarket.Proto.{Wire}
use feemarket.Proto.Read.{Field, number_field, take_varint, is_set, read_field, read_fields}
use feemarket.Proto.Skip.{skip, cut_unknown}
use feemarket.Proto.Packed.{append_window}
use feemarket.Proto.Progress.{
  Shorter, Shorter-mono, >>=-Shorter, if-Shorter, take_varint-Shorter, number_field-Shorter,
  block_field-Shorter,
}
use feemarket.Proto.Packing.{window_field-Shorter}
use feemarket.Proto.Skipping.{cut_unknown-Shorter}
use feemarket.Proto.Unmarshal.{
  dec_field, pass_over, number_or_flag, price_or_rate, new_struct_params, new_struct_state,
  read_params_field, read_state_field, unmarshal_params, unmarshal_state,
}

-- A field that takes its header at least, and does not panic.
abbrev Takes : {M : Type 0} → Field M → Type 0
Takes {M = M} f =
    (l number type : ℕ) (bytes rest : Bytes) (m : M)
    → length rest < length bytes
    → Shorter (length bytes) (f l number type bytes rest m)

read_field-Shorter :
    {M : Type 0} (f : Field M) (l : ℕ) (bytes : Bytes) (m : M)
    → Takes f
    → Shorter (length bytes) (read_field f l bytes m)
unfolding read_field
read_field-Shorter f l bytes m takes =
    >>=-Shorter n n (take_varint bytes) _ (take_varint-Shorter bytes) (λ wire rest fewer.
      if-Shorter n (wire % 8 == 4) _ _ tt (
        if-Shorter n (wire / 8 % 4_294_967_296 == 0) _ _ tt (
          if-Shorter n (ltb 2_147_483_647 (wire / 8 % 4_294_967_296)) _ _ tt
            (takes l (wire / 8 % 4_294_967_296) (wire % 8) bytes rest m fewer))))
  where
    n : ℕ
    n = length bytes

-- The loop over the fields does not panic: its fuel is enough.
read_fields-ends :
    {M : Type 0} (f : Field M) (n l : ℕ) (bytes : Bytes) (m : M)
    → Takes f
    → length bytes ≤ n
    → read_fields f n l bytes m ≢ panic
unfolding read_fields
read_fields-ends f n l [] m takes enough e = cc
read_fields-ends f zero l (b ∷ bytes) m takes enough e = absurd (omega arith)
read_fields-ends f (suc n) l (b ∷ bytes) m takes enough e =
    by_turn (read_field f l (b ∷ bytes) m) (read_field-Shorter f l (b ∷ bytes) m takes)
      (λ rest m' h. read_fields-ends f n l rest m' takes h) e
  where
    by_turn :
        (o : Outcome (_ × Bytes))
        → Shorter (suc (length bytes)) o
        → ((rest : Bytes) (m' : _) → length rest ≤ n → read_fields f n l rest m' ≢ panic)
        → (o >>= λ p. read_fields f n l p.1 p.0) ≢ panic
    by_turn (ok (m', rest)) h k = k rest m' (omega arith)
    by_turn (err _) h k = λ e. cc
    by_turn panic h k = absurd h

module _ ⦃m : Math⦄ ⦃w : Wire⦄
    (returns : (old : m.LegacyDec) (b : Bytes) → w.dec_of_bytes old b ≢ panic) where
  dec_field-Shorter :
      {M : Type 0} (l : ℕ) (old : m.LegacyDec) (put : m.LegacyDec → M) (type : ℕ) (rest : Bytes)
      → Shorter (suc (length rest)) (dec_field l old put type rest)
  dec_field-Shorter {M = M} l old put type rest =
      block_field-Shorter l (λ b. w.dec_of_bytes old b >>= λ d. ok (put d)) type rest
        (λ b. stored (w.dec_of_bytes old b) (returns old b))
    where
      stored : (o : Outcome m.LegacyDec) → o ≢ panic → (o >>= λ d. ok (put d)) ≢ panic
      stored (ok d) h e = cc
      stored (err _) h e = cc
      stored panic h e = h refl

  pass_over-Shorter :
      {M : Type 0} (l : ℕ) (bytes : Bytes) (x : M) → Shorter (length bytes) (pass_over l bytes x)
  pass_over-Shorter l bytes x =
      >>=-Shorter (length bytes) (length bytes) (cut_unknown skip l bytes) _
        (cut_unknown-Shorter l bytes) (λ n rest h. h)

  read_state_field-Takes : Takes read_state_field
  unfolding read_state_field
  read_state_field-Takes l number type bytes rest s fewer =
      let dec = λ (old : m.LegacyDec) (put : m.LegacyDec → State).
        Shorter-mono (suc (length rest)) (length bytes) (dec_field l old put type rest)
          (omega arith) (dec_field-Shorter l old put type rest) in
      if-Shorter (length bytes) (number == 1) _ _
        (dec s.base_gas_price (λ d. record s { base_gas_price = d }))
        (if-Shorter (length bytes) (number == 2) _ _
          (dec s.learning_rate (λ d. record s { learning_rate = d }))
          (if-Shorter (length bytes) (number == 3) _ _
            (Shorter-mono (suc (length rest)) (length bytes) _ (omega arith) (
              window_field-Shorter l (λ us. record s { window = append_window s.window us }) type
                rest))
            (if-Shorter (length bytes) (number == 4) _ _
              (Shorter-mono (suc (length rest)) (length bytes) _ (omega arith)
                (number_field-Shorter (λ v. record s { index = v }) type rest))
              (pass_over-Shorter l bytes s))))

  number_or_flag-Takes : Takes number_or_flag
  number_or_flag-Takes l number type bytes rest p fewer =
      let n = length bytes in
      let num = λ (f : ℕ → Params).
        Shorter-mono (suc (length rest)) n (number_field f type rest) (omega arith)
          (number_field-Shorter f type rest) in
      if-Shorter n (number == 8) _ _ (num (λ v. record p { max_block_utilization = v })) (
        if-Shorter n (number == 9) _ _ (num (λ v. record p { window = v })) (
          if-Shorter n (number == 10) _ _
            (Shorter-mono (suc (length rest)) n _ (omega arith) (
              block_field-Shorter l (λ b. ok (record p { fee_denom = w.string_of_bytes b })) type
                rest (λ b e. cc)))
            (if-Shorter n (number == 11) _ _ (num (λ v. record p { enabled = is_set v })) (
              if-Shorter n (number == 12) _ _ (num (λ v. record p { distribute_fees = is_set v }))
                (pass_over-Shorter l bytes p)))))

  price_or_rate-Takes : Takes price_or_rate
  price_or_rate-Takes l number type bytes rest p fewer =
      let n = length bytes in
      let dec = λ (old : m.LegacyDec) (put : m.LegacyDec → Params).
        Shorter-mono (suc (length rest)) n (dec_field l old put type rest) (omega arith)
          (dec_field-Shorter l old put type rest) in
      if-Shorter n (number == 5) _ _
        (dec p.min_base_gas_price (λ d. record p { min_base_gas_price = d }))
        (if-Shorter n (number == 6) _ _
          (dec p.min_learning_rate (λ d. record p { min_learning_rate = d }))
          (if-Shorter n (number == 7) _ _
            (dec p.max_learning_rate (λ d. record p { max_learning_rate = d }))
            (number_or_flag-Takes l number type bytes rest p fewer)))

  read_params_field-Takes : Takes read_params_field
  unfolding read_params_field
  read_params_field-Takes l number type bytes rest p fewer =
      let n = length bytes in
      let dec = λ (old : m.LegacyDec) (put : m.LegacyDec → Params).
        Shorter-mono (suc (length rest)) n (dec_field l old put type rest) (omega arith)
          (dec_field-Shorter l old put type rest) in
      if-Shorter n (number == 1) _ _ (dec p.alpha (λ d. record p { alpha = d })) (
        if-Shorter n (number == 2) _ _ (dec p.beta (λ d. record p { beta = d })) (
          if-Shorter n (number == 3) _ _ (dec p.gamma (λ d. record p { gamma = d })) (
            if-Shorter n (number == 4) _ _ (dec p.delta (λ d. record p { delta = d }))
              (price_or_rate-Takes l number type bytes rest p fewer))))

  -- Where the decoding of a decimal does not panic, Params.Unmarshal and State.Unmarshal into a new
  -- struct end in a value or an error on any bytes: no slice of the data ends before zero or past
  -- its end, and the loops over the fields, over a packed window and over an unknown field have
  -- enough fuel.
  pub unmarshal-ends :
      (bytes : Bytes) → (unmarshal_params bytes ≢ panic) × (unmarshal_state bytes ≢ panic)
  unfolding unmarshal_params unmarshal_state
  unmarshal-ends bytes = (
    read_fields-ends read_params_field (length bytes) (length bytes) bytes new_struct_params
        read_params_field-Takes (omega arith),
    read_fields-ends read_state_field (length bytes) (length bytes) bytes new_struct_state
        read_state_field-Takes (omega arith),
  )
