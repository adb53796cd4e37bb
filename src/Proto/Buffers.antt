-- ===== src/Proto/Buffers.antt =====
-- The generated methods `Marshal` (x/feemarket/types: params.pb.go, genesis.pb.go, tx.pb.go and query.pb.go)
-- return what `MarshalToSizedBuffer` writes.
use Prim.Native.String.{len}
use feemarket.Prelude.{ℕ, ◌+◌, ◌≤◌, ◌<◌, ◌≡◌, sym, ap, ◌∙◌, [], All, arith, length}
use feemarket.Prelude.Int.{two_64, slice_max, message_max}
use feemarket.Prelude.Outcome.{Outcome, ok}
use feemarket.Prelude.Outcome.Pure.{>>=-eq-ok}
use feemarket.Prelude.Outcome.Cases.{ok_injective}
use feemarket.Math.{Math}
use feemarket.Sdk.{Bytes}
use feemarket.Params.{Params}
use feemarket.State.{State, elems}
use feemarket.Keeper.Genesis.{GenesisState, MsgParams}
use feemarket.Proto.{
  Wire, WireLaws, put_number, put_bool, put_block_unless_empty, pack, put_dec, marshal_params,
  marshal_state,
}
use feemarket.Proto.Blocks.{
  length-put_block, length-put_block_unless_empty, length-put_number, length-put_bool, length-pack,
}
use feemarket.Proto.Messages.{
  put_message, GasPriceRequest, marshal_genesis, marshal_msg_params, marshal_params_response,
  marshal_state_response, marshal_gas_price_request,
}
use feemarket.Proto.Size.{
  size_block, size_block_unless_empty, size_params, size_state, size_genesis, size_msg_params,
  size_params_response, size_state_response, size_gas_price_request,
}
use feemarket.Proto.Sized.{
  put_block-size, put_block_unless_empty-size, put_number-size, put_bool-size, put_window-size,
  IsFilled, filled,
}

module _ ⦃m : Math⦄ ⦃w : Wire⦄ where
  -- Numbers that fit a uint64, and a text and a window that fit the memory.
  pub record IsSizedParams (p : Params) : Type 0 where
    pub max_block_utilization_lt : p.max_block_utilization < two_64
    pub window_lt : p.window < two_64
    pub denom_lt : len p.fee_denom < slice_max

  pub record IsSizedState (s : State) : Type 0 where
    pub elems_lt : All (λ u. u < two_64) (elems s.window)
    pub length_lt : length (elems s.window) < slice_max
    pub index_lt : s.index < two_64

  module _ (laws : WireLaws) where
    -- A decimal that has been written.
    put_dec-size :
        (tag : ℕ) (d : m.LegacyDec) (tail : Bytes) {b : Bytes}
        → put_dec tag d tail ≡ ok b
        → (length b ≡ size_block (w.dec_size d) + length tail) × (length b ≤ 1_035 + length tail)
    put_dec-size tag d tail {b} e =
        let (bytes, written, e) = >>=-eq-ok (w.dec_bytes d) _ e in
        let (short, size) = laws.dec_length d written in
        rw (size, ← ok_injective e)
          (
            put_block-size tag bytes tail (omega arith),
            omega (arith, length-put_block tag bytes tail),
          )

    marshal_params-size :
        (p : Params)
        → IsSizedParams p
        → (b : Bytes) → marshal_params p ≡ ok b
        → (length b ≡ size_params p) × (length b ≤ message_max)
    unfolding marshal_params size_params
    marshal_params-size p h b e =
        let text = w.string_bytes p.fee_denom in
        let t12 = put_bool 96 p.distribute_fees [] in
        let t11 = put_bool 88 p.enabled t12 in
        let t10 = put_block_unless_empty 82 text t11 in
        let t9 = put_number 72 p.window t10 in
        let t8 = put_number 64 p.max_block_utilization t9 in
        let short = laws.string_length p.fee_denom in
        let (t7, e7, e) = >>=-eq-ok (put_dec 58 p.max_learning_rate t8) _ e in
        let (t6, e6, e) = >>=-eq-ok (put_dec 50 p.min_learning_rate t7) _ e in
        let (t5, e5, e) = >>=-eq-ok (put_dec 42 p.min_base_gas_price t6) _ e in
        let (t4, e4, e) = >>=-eq-ok (put_dec 34 p.delta t5) _ e in
        let (t3, e3, e) = >>=-eq-ok (put_dec 26 p.gamma t4) _ e in
        let (t2, e2, e) = >>=-eq-ok (put_dec 18 p.beta t3) _ e in
        let (s7, l7) = put_dec-size 58 p.max_learning_rate t8 e7 in
        let (s6, l6) = put_dec-size 50 p.min_learning_rate t7 e6 in
        let (s5, l5) = put_dec-size 42 p.min_base_gas_price t6 e5 in
        let (s4, l4) = put_dec-size 34 p.delta t5 e4 in
        let (s3, l3) = put_dec-size 26 p.gamma t4 e3 in
        let (s2, l2) = put_dec-size 18 p.beta t3 e2 in
        let (s1, l1) = put_dec-size 10 p.alpha t2 e in
        (
          omega (
            arith,
            put_bool-size 96 p.distribute_fees [],
            put_bool-size 88 p.enabled t12,
            put_block_unless_empty-size 82 text t11 (omega arith),
            put_number-size 72 p.window t10 h.window_lt,
            put_number-size 64 p.max_block_utilization t9 h.max_block_utilization_lt,
          ),
          omega (
            arith,
            length-put_bool 96 p.distribute_fees [],
            length-put_bool 88 p.enabled t12,
            length-put_block_unless_empty 82 text t11,
            length-put_number 72 p.window t10,
            length-put_number 64 p.max_block_utilization t9,
            h.denom_lt,
          ),
        )

    marshal_state-size :
        (s : State)
        → IsSizedState s
        → (b : Bytes) → marshal_state s ≡ ok b
        → (length b ≡ size_state s) × (length b ≤ message_max)
    unfolding marshal_state size_state
    marshal_state-size s h b e =
        let us = elems s.window in
        let t4 = put_number 32 s.index [] in
        let t3 = put_block_unless_empty 26 (pack us) t4 in
        let (t2, e2, e) = >>=-eq-ok (put_dec 18 s.learning_rate t3) _ e in
        let (s2, l2) = put_dec-size 18 s.learning_rate t3 e2 in
        let (s1, l1) = put_dec-size 10 s.base_gas_price t2 e in
        (
          omega (
            arith,
            put_number-size 32 s.index [] h.index_lt,
            put_window-size us t4 h.elems_lt h.length_lt,
          ),
          omega (
            arith,
            length-put_number 32 s.index [],
            length-put_block_unless_empty 26 (pack us) t4,
            length-pack us,
            h.length_lt,
          ),
        )

    -- A message in another one.
    put_message-size :
        (tag n : ℕ) (o : Outcome Bytes) (tail : Bytes) {b : Bytes}
        → ((a : Bytes) → o ≡ ok a → (length a ≡ n) × (length a ≤ message_max))
        → put_message tag o tail ≡ ok b
        → length b ≡ size_block n + length tail
    put_message-size tag n o tail {b} inner e =
        let (a, written, e) = >>=-eq-ok o _ e in
        let (size, short) = inner a written in
        rw (← size, ← ok_injective e) (put_block-size tag a tail (omega arith))

    marshal_genesis-size :
        (g : GenesisState) (b : Bytes)
        → IsSizedParams g.params
        → IsSizedState g.state
        → marshal_genesis g ≡ ok b
        → length b ≡ size_genesis g
    unfolding marshal_genesis size_genesis
    marshal_genesis-size g b hp hs e =
        let (tail, first, e) =
          >>=-eq-ok (put_message 18 (marshal_state g.state) [])
            (put_message 10 (marshal_params g.params)) e in
        omega (
          arith,
          put_message-size 18 (size_state g.state) (marshal_state g.state) []
              (marshal_state-size g.state hs) first,
          put_message-size 10 (size_params g.params) (marshal_params g.params) tail
              (marshal_params-size g.params hp) e,
        )

    marshal_msg_params-size :
        (msg : MsgParams) (b : Bytes)
        → IsSizedParams msg.msg_params
        → len msg.authority < slice_max
        → marshal_msg_params msg ≡ ok b
        → length b ≡ size_msg_params msg
    unfolding marshal_msg_params size_msg_params
    marshal_msg_params-size msg b h short e =
        let text = w.string_bytes msg.authority in
        omega (
          arith,
          put_block_unless_empty-size 18 text [] (omega (arith, laws.string_length msg.authority)),
          put_message-size 10 (size_params msg.msg_params) (marshal_params msg.msg_params)
              (put_block_unless_empty 18 text []) (marshal_params-size msg.msg_params h) e,
        )

    -- Size of Params, State, GenesisState, MsgParams, ParamsResponse, StateResponse and
    -- GasPriceRequest is the number of bytes that MarshalToSizedBuffer writes where it returns, and
    -- Marshal, with a buffer of that size, neither panics nor returns other bytes: it returns what
    -- was written, or its error. The numbers fit 64 bits, and the texts and the window fit the
    -- memory; a decimal takes as many bytes as its own Size says.
    pub marshal-IsFilled :
        (p : Params) (s : State) (g : GenesisState) (msg : MsgParams) (r : GasPriceRequest)
        → IsSizedParams p
        → IsSizedState s
        → IsSizedParams g.params
        → IsSizedState g.state
        → IsSizedParams msg.msg_params
        → len msg.authority < slice_max
        → len r.denom < slice_max
        → IsFilled (size_params p) (marshal_params p)
          × IsFilled (size_state s) (marshal_state s)
          × IsFilled (size_genesis g) (marshal_genesis g)
          × IsFilled (size_msg_params msg) (marshal_msg_params msg)
          × IsFilled
              (size_params_response (record { params = p }))
              (marshal_params_response (record { params = p }))
          × IsFilled
              (size_state_response (record { state = s }))
              (marshal_state_response (record { state = s }))
          × IsFilled (size_gas_price_request r) (marshal_gas_price_request r)
    unfolding marshal_params_response size_params_response marshal_state_response
        size_state_response marshal_gas_price_request size_gas_price_request
    marshal-IsFilled p s g msg r hp hs hgp hgs hm authority denom =
        let text = w.string_bytes r.denom in
        (
          filled (size_params p) (marshal_params p) (λ b e. (marshal_params-size p hp b e).0),
          filled (size_state s) (marshal_state s) (λ b e. (marshal_state-size s hs b e).0),
          filled (size_genesis g) (marshal_genesis g) (λ b. marshal_genesis-size g b hgp hgs),
          filled (size_msg_params msg) (marshal_msg_params msg)
              (λ b. marshal_msg_params-size msg b hm authority),
          filled (size_block (size_params p)) (put_message 10 (marshal_params p) []) (λ b e. omega (
            arith,
            put_message-size 10 (size_params p) (marshal_params p) [] (marshal_params-size p hp) e,
          )),
          filled (size_block (size_state s)) (put_message 10 (marshal_state s) []) (λ b e. omega (
            arith,
            put_message-size 10 (size_state s) (marshal_state s) [] (marshal_state-size s hs) e,
          )),
          filled (size_block_unless_empty (length text)) (ok (put_block_unless_empty 10 text []))
              (λ b e.
                ap length (sym (ok_injective e))
                ∙ omega (
                  arith,
                  put_block_unless_empty-size 10 text []
                      (omega (arith, laws.string_length r.denom)),
                )),
        )
