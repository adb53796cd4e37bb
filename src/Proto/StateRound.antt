-- ===== src/Proto/StateRound.antt =====
-- The generated methods `Marshal` and `Unmarshal` of `State` (x/feemarket/types/genesis.pb.go) agree.
use feemarket.Prelude.{ℕ, ◌≤◌, ◌<◌, ◌≡◌, refl, ap, false, none, [], All, arith, length}
use feemarket.Prelude.Int.{two_64, int64_max, message_max, slice_max}
use feemarket.Prelude.Outcome.{ok}
use feemarket.Prelude.Outcome.Pure.{◌>>=◌}
use feemarket.Math.{Math}
use feemarket.Sdk.{Bytes}
use feemarket.State.{State, elems}
use feemarket.Proto.{
  Wire, WireLaws, put_block, put_number, put_block_unless_empty, pack, marshal_state,
}
use feemarket.Proto.Decodes.{Decodes, nothing}
use feemarket.Proto.Packed.{append_window}
use feemarket.Proto.Unmarshal.{new_struct_state, read_state_field, unmarshal_state}
use feemarket.Proto.Blocks.{
  length-put_block, length-put_block_unless_empty, length-put_number, length-pack,
  put_block-Decodes, put_number-Decodes, put_window-Decodes,
}

module _ ⦃m : Math⦄ ⦃w : Wire⦄ where
  -- The fields of a state whose decimals have the given bytes.
  abbrev state_bytes : Bytes → Bytes → State → Bytes
  state_bytes price rate s = put_block 10 price (
      put_block 18 rate
        (put_block_unless_empty 26 (pack (elems s.window)) (put_number 32 s.index [])))

  length-state_bytes :
      (price rate : Bytes) (s : State)
      → length price ≤ 1_024
      → length rate ≤ 1_024
      → length (elems s.window) < slice_max
      → length (state_bytes price rate s) ≤ message_max
  length-state_bytes price rate s hp hr short =
      let t4 = put_number 32 s.index [] in
      let t3 = put_block_unless_empty 26 (pack (elems s.window)) t4 in
      omega (
        arith,
        length-put_block 10 price (put_block 18 rate t3),
        length-put_block 18 rate t3,
        length-put_block_unless_empty 26 (pack (elems s.window)) t4,
        length-put_number 32 s.index [],
        length-pack (elems s.window),
      )

  -- The state once the fields up to a number have been read.
  abbrev read_1 : State → State
  read_1 s = record new_struct_state { base_gas_price = s.base_gas_price }

  abbrev read_2 : State → State
  read_2 s = record (read_1 s) { learning_rate = s.learning_rate }

  abbrev read_3 : State → State
  read_3 s = record (read_2 s) { window = append_window none (elems s.window) }

  abbrev read_4 : State → State
  read_4 s = record (read_3 s) { index = s.index }

  state_bytes-Decodes :
      (price rate : Bytes) (s : State) (l : ℕ)
      → l ≤ int64_max
      → length price ≤ 1_024
      → length rate ≤ 1_024
      → w.dec_of_bytes w.nil_dec price ≡ ok s.base_gas_price
      → w.dec_of_bytes w.nil_dec rate ≡ ok s.learning_rate
      → All (λ u. u < two_64) (elems s.window)
      → length (elems s.window) < slice_max
      → s.index < two_64
      → Decodes read_state_field l (state_bytes price rate s) new_struct_state (read_4 s)
  unfolding read_state_field
  state_bytes-Decodes price rate s l fits hp hr price_is rate_is small short index =
      let f = read_state_field in
      let r = read_4 s in
      let d4 =
        put_number-Decodes f l 4 (λ x. record (read_3 s) { index = x }) s.index [] (read_3 s) r
          (omega arith) (omega arith) (λ _. refl) refl index (nothing f l r) in
      let d3 =
        put_window-Decodes f l (λ us. record (read_2 s) { window = append_window none us })
          (elems s.window) _ (read_2 s) r fits (λ _. refl) refl small
          (omega (arith, length-pack (elems s.window))) d4 in
      let d2 =
        put_block-Decodes f l 2
          (λ b. w.dec_of_bytes w.nil_dec b >>= λ d. ok (record (read_1 s) { learning_rate = d }))
          rate _ (read_1 s) (read_2 s) r (omega arith) (omega arith) fits (λ _. refl) (omega arith)
          (ap (λ o. o >>= λ d. ok (record (read_1 s) { learning_rate = d })) rate_is) d3 in
      put_block-Decodes f l 1
        (λ b.
          w.dec_of_bytes w.nil_dec b >>= λ d. ok (record new_struct_state { base_gas_price = d }))
        price _ new_struct_state (read_1 s) r (omega arith) (omega arith) fits (λ _. refl)
        (omega arith)
        (ap (λ o. o >>= λ d. ok (record new_struct_state { base_gas_price = d })) price_is) d2

  module _ (laws : WireLaws) where
    -- Both directions, for a window of any length below that of a slice.
    pub unmarshal_state-marshal_state :
        (s : State)
        → m.is_nil s.base_gas_price ≡ false
        → m.is_nil s.learning_rate ≡ false
        → All (λ u. u < two_64) (elems s.window)
        → length (elems s.window) < slice_max
        → s.index < two_64
        → (b : Bytes) × (marshal_state s ≡ ok b)
          × (length b ≤ message_max)
          × (unmarshal_state b ≡ ok (record s { window = append_window none (elems s.window) }))
    unfolding marshal_state unmarshal_state
    unmarshal_state-marshal_state s price_some rate_some small short index =
        let (price, price_is, hp, price_back) = laws.dec_round s.base_gas_price price_some in
        let (rate, rate_is, hr, rate_back) = laws.dec_round s.learning_rate rate_some in
        let bytes = state_bytes price rate s in
        let fits = length-state_bytes price rate s hp hr short in
        (
          bytes,
          rw (rate_is, price_is) refl,
          fits,
          (state_bytes-Decodes price rate s (length bytes) (omega arith) hp hr
                (price_back w.nil_dec) (rate_back w.nil_dec) small short index).runs
              (omega arith) (length bytes) (omega arith),
        )
