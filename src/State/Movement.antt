-- ===== src/State/Movement.antt =====
-- `UpdateLearningRate` and `UpdateBaseGasPrice` of x/feemarket/types/state.go on a complete state,
-- where no number overflows.
use feemarket.Prelude.{ℕ, ◌*◌, ◌≤◌, ◌≡◌, some, arith, length, get_elem?}
use feemarket.Prelude.Int.{◌≤ℤ◌, ≤ℤ_antisymm}
use feemarket.Math.{Math}
use feemarket.Math.Laws.{MathLaws, NoOverflow}
use feemarket.Params.{Params, target_block_utilization}
use feemarket.State.{State, elems, update_base_gas_price, update_learning_rate}
use feemarket.State.Price.{sum}
use feemarket.State.Rate.{IsBounded, IsRateParams, update_learning_rate-IsBounded}
use feemarket.State.Direction.{IsSigned, next_base_gas_price-ge, next_base_gas_price-le}
use feemarket.State.Returns.{IsComplete, next_base_gas_price-returns}

module _ ⦃m : Math⦄ (l : MathLaws) where
  open l use {raw}

  -- On a complete state, with no overflow, no negative rate, price or delta, and a price that is
  -- not below the minimum: the gas price does not fall if the current block and the window have
  -- used at least their targets, and does not rise if both have used at most their targets.
  pub update_base_gas_price-moves :
      (n : NoOverflow l) (s : State) (p : Params) (used : ℕ)
      → IsComplete l s p
      → IsSigned l s p
      → raw p.min_base_gas_price ≤ℤ raw s.base_gas_price
      → get_elem? (elems s.window) s.index ≡ some used
      → let target = target_block_utilization p in
        let goal = length (elems s.window) * target in
        let (t, _) = update_base_gas_price s p in
        (target ≤ used → goal ≤ sum (elems s.window) → raw s.base_gas_price ≤ℤ raw t.base_gas_price)
        × (used ≤ target
            → sum (elems s.window) ≤ goal
            → raw t.base_gas_price ≤ℤ raw s.base_gas_price)
  unfolding update_base_gas_price
  update_base_gas_price-moves n s p used complete signed low read =
      let (r, e, _) = next_base_gas_price-returns l n s p complete in
      rw e (
        λ k w. next_base_gas_price-ge l s p signed used read e k w,
        λ k w. next_base_gas_price-le l s p signed used read e k w low,
      )

  -- The fixed-rate market: where both bounds of the learning rate coincide, an update leaves its value
  -- alone, whatever the blocks have used.
  pub update_learning_rate-fixed :
      (s : State) (p : Params)
      → IsRateParams l p
      → IsBounded l p s.learning_rate
      → raw p.min_learning_rate ≡ raw p.max_learning_rate
      → raw (update_learning_rate s p).0.learning_rate ≡ raw s.learning_rate
  update_learning_rate-fixed s p h b e =
      let (new, _, _) = update_learning_rate-IsBounded l s p h b in
      let new' = rw e at new in let old' = rw e at b in ≤ℤ_antisymm _ _ (omega arith) (omega arith)
