-- ===== src/Proto/Generated.antt =====
-- The generated methods of `Params` and `State` (x/feemarket/types/params.pb.go and genesis.pb.go) as the
-- encoding that the keeper uses.
use feemarket.Prelude.{◌<◌, ◌≤◌, ◌≡◌, false, sym, ap, ◌∙◌, All, none, arith, length}
use feemarket.Prelude.Int.{two_64, slice_max, message_max}
use feemarket.Prelude.Outcome.{ok}
use feemarket.Math.{Math}
use feemarket.Sdk.{Bytes}
use feemarket.State.{State, Slice, elems}
use feemarket.Codec.{Codec, CodecLaws, IsStorableState}
use feemarket.Proto.{Wire, WireLaws, marshal_params, marshal_state}
use feemarket.Proto.Packed.{append_window}
use feemarket.Proto.Unmarshal.{unmarshal_params, unmarshal_state}
use feemarket.Proto.ParamsRound.{unmarshal_params-marshal_params}
use feemarket.Proto.StateRound.{unmarshal_state-marshal_state}

module _ ⦃m : Math⦄ ⦃w : Wire⦄ where
  abbrev pub generated : Codec
  generated = record {
    marshal_params = marshal_params;
    unmarshal_params = unmarshal_params;
    marshal_state = marshal_state;
    unmarshal_state = unmarshal_state;
  }

  -- The round trip of a state, once what is read of its window is known.
  state_round_as :
      WireLaws
      → (t : State) (us : Slice) → m.is_nil t.base_gas_price ≡ false
      → m.is_nil t.learning_rate ≡ false
      → All (λ u. u < two_64) (elems t.window)
      → length (elems t.window) < slice_max
      → t.index < two_64
      → append_window none (elems t.window) ≡ us
      → (b : Bytes) × (marshal_state t ≡ ok b)
        × (length b ≤ message_max)
        × (unmarshal_state b ≡ ok (record t { window = us }))
  state_round_as laws t us price rate small short index e =
      let (b, written, fits, back) =
        unmarshal_state-marshal_state laws t price rate small short index in
      (b, written, fits, back ∙ ap (λ us. ok (record t { window = us })) e)

  -- A state that can be stored.
  pub storable_round :
      WireLaws
      → (t : State) → IsStorableState t
      → (b : Bytes) × (marshal_state t ≡ ok b)
        × (length b ≤ message_max)
        × (unmarshal_state b ≡ ok t)
  storable_round laws t h =
      state_round_as laws t t.window h.price_some h.rate_some h.window_lt h.length_lt h.index_lt
        (ap (λ v. append_window none (elems v)) h.window_cons ∙ sym h.window_cons)

  -- The generated methods of Params and State fill the interface that the keeper uses, with its
  -- laws, where decimals and strings are encoded within their lengths and decoded again: parameters
  -- and states that can be stored are marshalled, and unmarshalled to themselves; a state with an
  -- empty window comes back with nil for it.
  pub generated-CodecLaws : WireLaws → CodecLaws ⦃c = generated⦄
  generated-CodecLaws laws = record {
    params_round = λ p h.
        let (b, written, _, back) = unmarshal_params-marshal_params laws p h in (b, written, back);
    state_round = λ t h. let (b, written, _, back) = storable_round laws t h in (b, written, back);
    state_round_empty = λ t price rate e index.
        let (b, written, _, back) =
          state_round_as laws t none price rate (rw e tt) (rw e (omega arith)) index
            (ap (λ v. append_window none (elems v)) e) in
        (b, written, back);
  }
