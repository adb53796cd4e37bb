-- ===== src/Proto/MessagesRound.antt =====
-- The generated methods `Marshal` and `Unmarshal` of the messages that hold others agree
-- (x/feemarket/types/genesis.pb.go, tx.pb.go and query.pb.go).
use Prim.Native.String.{len}
use feemarket.Prelude.{ℕ, ◌+◌, ◌*◌, ◌≤◌, ◌<◌, ◌≡◌, refl, ap, ◌∙◌, String, [], ◌∷◌, arith, length}
use feemarket.Prelude.Int.{int64_max, message_max, slice_max}
use feemarket.Prelude.Outcome.{ok}
use feemarket.Prelude.Outcome.Pure.{◌>>=◌}
use feemarket.Math.{Math}
use feemarket.Sdk.{Bytes}
use feemarket.Codec.{IsStorableParams, IsStorableState}
use feemarket.Keeper.Genesis.{GenesisState, MsgParams}
use feemarket.Proto.{Wire, WireLaws, put_block, put_block_unless_empty}
use feemarket.Proto.Read.{Field, read_message}
use feemarket.Proto.Decodes.{Decodes, nothing}
use feemarket.Proto.Blocks.{
  length-put_block, length-put_block_unless_empty, put_block-Decodes, put_string-Decodes,
}
use feemarket.Proto.Unmarshal.{
  new_struct_params, new_struct_state, read_params_field, read_state_field, unmarshal_params,
  unmarshal_state,
}
use feemarket.Proto.ParamsRound.{unmarshal_params-marshal_params, no_bytes}
use feemarket.Proto.Generated.{storable_round}
use feemarket.Proto.Messages.{
  message_field, marshal_genesis, read_genesis_field, new_struct_genesis, unmarshal_genesis,
  marshal_msg_params, read_msg_params_field, new_struct_msg_params, unmarshal_msg_params,
}

-- A message in another one.
pub put_message-Decodes :
    {M N : Type 0} (f : Field M) (l number : ℕ) (g : Field N) (inner : N) (put : N → M) (v : N)
    (b tail : Bytes) (x r : M)
    → 0 < number
    → number < 16
    → l ≤ int64_max
    → ((h : Bytes) → f l number 2 ((number * 8 + 2) ∷ h) h x ≡ message_field l g inner put 2 h)
    → length b ≤ message_max
    → read_message g b inner ≡ ok v
    → Decodes f l tail (put v) r
    → Decodes f l (put_block (number * 8 + 2) b tail) x r
put_message-Decodes f l number g inner put v b tail x r some_number few fits field small back
      after =
    put_block-Decodes f l number (λ bytes. read_message g bytes inner >>= λ y. ok (put y)) b tail x
      (put v) r some_number few fits field (omega arith) (ap (λ o. o >>= λ y. ok (put y)) back)
      after

module _ ⦃m : Math⦄ ⦃w : Wire⦄ where
  -- A genesis whose parameters and state can be stored is marshalled, and unmarshalled to itself,
  -- where decimals and strings are encoded within their lengths and decoded again.
  pub unmarshal_genesis-marshal_genesis :
      WireLaws
      → (g : GenesisState) → IsStorableParams g.params
      → IsStorableState g.state
      → (b : Bytes) × (marshal_genesis g ≡ ok b) × (unmarshal_genesis b ≡ ok g)
  unfolding marshal_genesis unmarshal_genesis read_genesis_field unmarshal_params unmarshal_state
  unmarshal_genesis-marshal_genesis laws g hp hs =
      let (bp, written_p, small_p, back_p) = unmarshal_params-marshal_params laws g.params hp in
      let (bs, written_s, small_s, back_s) = storable_round laws g.state hs in
      let bytes = put_block 10 bp (put_block 18 bs []) in
      let f = read_genesis_field in
      let l = length bytes in
      let fits : l ≤ int64_max =
        omega (arith, length-put_block 10 bp (put_block 18 bs []), length-put_block 18 bs []) in
      let with_params : GenesisState = record new_struct_genesis { params = g.params } in
      let d2 =
        put_message-Decodes f l 2 read_state_field new_struct_state
          (λ t. record with_params { state = t }) g.state bs [] with_params g (omega arith)
          (omega arith) fits (λ _. refl) small_s back_s (nothing f l g) in
      let d1 =
        put_message-Decodes f l 1 read_params_field new_struct_params
          (λ p. record new_struct_genesis { params = p }) g.params bp (put_block 18 bs [])
          new_struct_genesis g (omega arith) (omega arith) fits (λ _. refl) small_p back_p d2 in
      (bytes, rw (written_s, written_p) refl, d1.runs (omega arith) l (omega arith))

  -- The message that replaces the parameters.
  pub unmarshal_msg_params-marshal_msg_params :
      WireLaws
      → (msg : MsgParams) → IsStorableParams msg.msg_params
      → len msg.authority < slice_max
      → (b : Bytes) × (marshal_msg_params msg ≡ ok b) × (unmarshal_msg_params b ≡ ok msg)
  unfolding marshal_msg_params unmarshal_msg_params read_msg_params_field unmarshal_params
  unmarshal_msg_params-marshal_msg_params laws msg hp short =
      let (bp, written, small, back) = unmarshal_params-marshal_params laws msg.msg_params hp in
      let text = w.string_bytes msg.authority in
      let tail = put_block_unless_empty 18 text [] in
      let bytes = put_block 10 bp tail in
      let f = read_msg_params_field in
      let l = length bytes in
      let fits : l ≤ int64_max = omega (
        arith,
        length-put_block 10 bp tail,
        length-put_block_unless_empty 18 text [],
        laws.string_length msg.authority,
      ) in
      let with_params : MsgParams = record new_struct_msg_params { msg_params = msg.msg_params } in
      let read : MsgParams = record with_params { authority = w.string_of_bytes text } in
      let d2 =
        put_string-Decodes f l 2 (λ b. record with_params { authority = w.string_of_bytes b }) text
          [] with_params read (omega arith) (omega arith) fits (λ _. refl)
          (ap (λ (s : String). record with_params { authority = s }) (no_bytes laws))
          (omega (arith, laws.string_length msg.authority)) (nothing f l read) in
      let d1 =
        put_message-Decodes f l 1 read_params_field new_struct_params
          (λ p. record new_struct_msg_params { msg_params = p }) msg.msg_params bp tail
          new_struct_msg_params read (omega arith) (omega arith) fits (λ _. refl) small back d2 in
      (
        bytes,
        rw written refl,
        d1.runs (omega arith) l (omega arith)
            ∙ ap (λ (s : String). ok (record with_params { authority = s }))
                (laws.string_round msg.authority),
      )
