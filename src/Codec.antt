-- ===== src/Codec.antt =====
-- The generated methods `Marshal` and `Unmarshal` of `Params` and `State` (x/feemarket/types/params.pb.go
-- and x/feemarket/types/genesis.pb.go) as an interface of the keeper, with the laws that it relies on.
use Prim.Native.String.{len}
use feemarket.Prelude.{ℕ, ◌<◌, ◌≡◌, false, none, some, List, [], ◌∷◌, All, length}
use feemarket.Prelude.Int.{two_64, slice_max}
use feemarket.Prelude.Outcome.{Outcome, ok}
use feemarket.Math.{Math}
use feemarket.Sdk.{Bytes}
use feemarket.Params.{Params}
use feemarket.State.{State, elems}

pub record Codec ⦃m : Math⦄ : Type 0 where
  pub marshal_params : Params → Outcome Bytes
  pub unmarshal_params : Bytes → Outcome Params
  pub marshal_state : State → Outcome Bytes
  pub unmarshal_state : Bytes → Outcome State

module _ ⦃m : Math⦄ where
  -- What survives the encoding: decimals that are present (a nil one comes back as zero), numbers that
  -- fit a uint64, a denomination that fits the memory, and a window that does and has at least one
  -- slot (an empty one comes back as nil).
  pub record IsStorableParams (p : Params) : Type 0 where
    pub alpha_some : m.is_nil p.alpha ≡ false
    pub beta_some : m.is_nil p.beta ≡ false
    pub gamma_some : m.is_nil p.gamma ≡ false
    pub delta_some : m.is_nil p.delta ≡ false
    pub min_price_some : m.is_nil p.min_base_gas_price ≡ false
    pub min_rate_some : m.is_nil p.min_learning_rate ≡ false
    pub max_rate_some : m.is_nil p.max_learning_rate ≡ false
    pub max_block_utilization_lt : p.max_block_utilization < two_64
    pub window_lt : p.window < two_64
    pub denom_lt : len p.fee_denom < slice_max

  pub record IsStorableState (s : State) : Type 0 where
    pub price_some : m.is_nil s.base_gas_price ≡ false
    pub rate_some : m.is_nil s.learning_rate ≡ false
    pub first : ℕ
    pub rest : List ℕ
    pub window_cons : s.window ≡ some (first ∷ rest)
    pub window_lt : All (λ u. u < two_64) (elems s.window)
    pub length_lt : length (elems s.window) < slice_max
    pub index_lt : s.index < two_64

pub record CodecLaws ⦃m : Math⦄ ⦃c : Codec⦄ : Type 0 where
  pub params_round :
      (p : Params)
      → IsStorableParams p
      → (b : Bytes) × (c.marshal_params p ≡ ok b) × (c.unmarshal_params b ≡ ok p)
  pub state_round :
      (t : State)
      → IsStorableState t
      → (b : Bytes) × (c.marshal_state t ≡ ok b) × (c.unmarshal_state b ≡ ok t)
  -- an empty window is left out of the encoding and read back as nil
  pub state_round_empty :
      (t : State)
      → m.is_nil t.base_gas_price ≡ false
      → m.is_nil t.learning_rate ≡ false
      → t.window ≡ some []
      → t.index < two_64
      → (b : Bytes) × (c.marshal_state t ≡ ok b)
        × (c.unmarshal_state b ≡ ok (record t { window = none }))
