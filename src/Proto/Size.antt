-- ===== src/Proto/Size.antt =====
-- The generated methods `Size` (x/feemarket/types: params.pb.go, genesis.pb.go, tx.pb.go and query.pb.go), and
-- what `Marshal` does with the buffer of that size.
use feemarket.Prelude.{
  ℕ, ◌+◌, ◌-◌, Bool, List, [], ◌∷◌, if◌then◌else◌, ltb, length, ◌==◌, replicate,
}
use feemarket.Prelude.Outcome.{Outcome, ok, panic}
use feemarket.Prelude.Outcome.Pure.{◌>>=◌}
use feemarket.Math.{Math}
use feemarket.Sdk.{Bytes}
use feemarket.Params.{Params}
use feemarket.State.{State, elems}
use feemarket.Keeper.Genesis.{GenesisState, MsgParams}
use feemarket.Proto.{Wire, put_bytes}
use feemarket.Proto.Read.{take}
use feemarket.Proto.Bits.{sov}
use feemarket.Proto.Messages.{ParamsResponse, StateResponse, GasPriceRequest}

-- `n += 1 + l + sov(uint64(l))`, and the same only `if l > 0`
abbrev pub size_block : ℕ → ℕ
size_block l = 1 + l + sov l

abbrev pub size_block_unless_empty : ℕ → ℕ
size_block_unless_empty l = if ltb 0 l then 1 + l + sov l else 0

abbrev pub size_number : ℕ → ℕ
size_number v = if v == 0 then 0 else 1 + sov v

abbrev pub size_bool : Bool → ℕ
size_bool b = if b then 2 else 0

-- The sum over the window of `State.Size`.
abbrev pub size_elems : List ℕ → ℕ
size_elems [] = 0
size_elems (u ∷ us) = sov u + size_elems us

-- `if len(m.Window) > 0`
abbrev pub size_window : List ℕ → ℕ
size_window [] = 0
size_window (u ∷ us) = 1 + sov (size_elems (u ∷ us)) + size_elems (u ∷ us)

module _ ⦃m : Math⦄ ⦃w : Wire⦄ where
  -- `Params.Size`
  unfoldable pub size_params : Params → ℕ
  size_params p =
      size_block (w.dec_size p.alpha)
      + size_block (w.dec_size p.beta)
      + size_block (w.dec_size p.gamma)
      + size_block (w.dec_size p.delta)
      + size_block (w.dec_size p.min_base_gas_price)
      + size_block (w.dec_size p.min_learning_rate)
      + size_block (w.dec_size p.max_learning_rate)
      + size_number p.max_block_utilization
      + size_number p.window
      + size_block_unless_empty (length (w.string_bytes p.fee_denom))
      + size_bool p.enabled
      + size_bool p.distribute_fees

  -- `State.Size`
  unfoldable pub size_state : State → ℕ
  size_state s =
      size_block (w.dec_size s.base_gas_price)
      + size_block (w.dec_size s.learning_rate)
      + size_window (elems s.window)
      + size_number s.index

  -- `GenesisState.Size`, `MsgParams.Size`, `ParamsResponse.Size`, `StateResponse.Size` and
  -- `GasPriceRequest.Size`
  unfoldable pub size_genesis : GenesisState → ℕ
  size_genesis g = size_block (size_params g.params) + size_block (size_state g.state)

  unfoldable pub size_msg_params : MsgParams → ℕ
  size_msg_params msg =
      size_block (size_params msg.msg_params)
      + size_block_unless_empty (length (w.string_bytes msg.authority))

  unfoldable pub size_params_response : ParamsResponse → ℕ
  size_params_response r = size_block (size_params r.params)

  unfoldable pub size_state_response : StateResponse → ℕ
  size_state_response r = size_block (size_state r.state)

  unfoldable pub size_gas_price_request : GasPriceRequest → ℕ
  size_gas_price_request r = size_block_unless_empty (length (w.string_bytes r.denom))

-- `Marshal`: `MarshalToSizedBuffer` fills a buffer of `size` zero bytes from its end, and the first
-- `n` of it are returned, where `n` is how many bytes it has written.
unfoldable pub marshal : ℕ → Outcome Bytes → Outcome Bytes
marshal size to_sized_buffer = to_sized_buffer >>= λ written.
    if ltb size (length written)
    then panic
    else ok (take (length written) (put_bytes (replicate (size - length written) 0) written))
