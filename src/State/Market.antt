-- ===== src/State/Market.antt =====
-- The fee market of x/feemarket/types/state.go as a machine: transactions add their gas by `Update`,
-- and the end of a block runs both updates and `IncrementHeight`, as keeper/feemarket.go composes them.
use feemarket.Prelude.{ℕ, ◌+◌, ◌%◌, ◌<◌, ◌≡◌, sym, ◌∙◌, false, some, arith, length, get_elem?}
use feemarket.Prelude.Int.{◌≤ℤ◌}
use feemarket.Prelude.Outcome.{Outcome, ok}
use feemarket.Prelude.Outcome.Cases.{ok_injective}
use feemarket.Math.{Math}
use feemarket.Math.Laws.{MathLaws}
use feemarket.Params.{Params}
use feemarket.State.{
  State, elems, update, update_learning_rate, update_base_gas_price, increment_height,
}
use feemarket.State.Window.{IsWindow, increment_height_lem, update-UpdateEffect, update-IsWindow}
use feemarket.State.Rate.{IsBounded, IsRateParams, update_learning_rate-IsBounded}
use feemarket.State.Price.{update_base_gas_price-floor}
use feemarket.State.Present.{update_learning_rate-some, update_base_gas_price-some}
use feemarket.State.Returns.{IsComplete}

module _ ⦃m : Math⦄ where
  -- What the end of a block does to the state.
  abbrev pub close_block : State → Params → Outcome State
  close_block s p = increment_height (update_base_gas_price (update_learning_rate s p).0 p).0

  -- A transaction that is accepted, or the end of a block.
  pub data Step (p : Params) (s t : State) : Type 0 where
    spend : (gas : ℕ) → update s gas p ≡ ok t → Step p s t
    close : close_block s p ≡ ok t → Step p s t

  pub data Reach (p : Params) (s : State) : State → Type 0 where
    here : Reach p s s
    next : {t u : State} → Reach p s t → Step p t u → Reach p s u

module _ ⦃m : Math⦄ (l : MathLaws) where
  open l use {raw}

  -- The window is in its bounds, every decimal is present, the learning rate lies between its bounds,
  -- and the price is at least the minimum.
  pub record IsMarket (p : Params) (s : State) : Type 0 where
    pub window : IsWindow p s
    pub complete : IsComplete l s p
    pub rates : IsRateParams l p
    pub bounded : IsBounded l p s.learning_rate
    pub floor : raw p.min_base_gas_price ≤ℤ raw s.base_gas_price

  change-IsComplete :
      (p : Params) (s t : State)
      → m.is_nil t.base_gas_price ≡ false
      → m.is_nil t.learning_rate ≡ false
      → t.index < length (elems t.window)
      → IsComplete l s p
      → IsComplete l t p
  change-IsComplete p s t price rate index c = ground arith

  -- A state that differs from one of the market in its window alone, and has that in its bounds.
  rewound-IsMarket :
      (p : Params) (s t : State)
      → IsMarket p s
      → IsWindow p t
      → t.base_gas_price ≡ s.base_gas_price
      → t.learning_rate ≡ s.learning_rate
      → IsMarket p t
  rewound-IsMarket p s t h w price rate = record {
    window = w;
    complete =
        change-IsComplete p s t (rw price h.complete.price_some) (rw rate h.complete.rate_some)
          w.index_lt h.complete;
    rates = h.rates;
    bounded = rw rate h.bounded;
    floor = rw price h.floor;
  }

  pub spend-IsMarket :
      (p : Params) (s t : State) (gas : ℕ) → update s gas p ≡ ok t → IsMarket p s → IsMarket p t
  spend-IsMarket p s t gas e h =
      let (_, _, _, writes, _) = rw e at (update-UpdateEffect s gas p) in
      rewound-IsMarket p s t h (update-IsWindow s gas p e h.window) writes.same_price
        writes.same_rate

  module _ (p : Params) where
    pub rated-IsMarket : (s : State) → IsMarket p s → IsMarket p (update_learning_rate s p).0
    unfolding update_learning_rate
    rated-IsMarket s h =
        let t = (update_learning_rate s p).0 in
        record {
          window = ground (arith, h.window);
          complete =
              change-IsComplete p s t h.complete.price_some
                (update_learning_rate-some l s p h.complete.min_rate_some h.complete.max_rate_some)
                h.window.index_lt h.complete;
          rates = h.rates;
          bounded = (update_learning_rate-IsBounded l s p h.rates h.bounded).0;
          floor = h.floor;
        }

    pub priced-IsMarket : (s : State) → IsMarket p s → IsMarket p (update_base_gas_price s p).0
    unfolding update_base_gas_price
    priced-IsMarket s h =
        let t = (update_base_gas_price s p).0 in
        record {
          window = ground (arith, h.window);
          complete =
              change-IsComplete p s t (update_base_gas_price-some l s p h.complete.min_price_some)
                h.complete.rate_some h.window.index_lt h.complete;
          rates = h.rates;
          bounded = h.bounded;
          floor = (update_base_gas_price-floor l s p).0;
        }

    pub close_block_lem :
        (s : State)
        → IsMarket p s
        → let rated = (update_learning_rate s p).0 in
          let i = (s.index + 1) % length (elems s.window) in
          (t : State) × (close_block s p ≡ ok t)
          × IsMarket p t
          × (t.learning_rate ≡ rated.learning_rate)
          × (t.base_gas_price ≡ (update_base_gas_price rated p).1)
          × (t.index ≡ i)
          × (get_elem? (elems t.window) i ≡ some 0)
    unfolding update_learning_rate update_base_gas_price
    close_block_lem s h =
        let rated = (update_learning_rate s p).0 in
        let priced = (update_base_gas_price rated p).0 in
        let k = priced-IsMarket rated (rated-IsMarket s h) in
        let (t, returns, index, writes, w) = increment_height_lem priced p k.window in
        (
          t,
          returns,
          rewound-IsMarket p priced t k w writes.same_price writes.same_rate,
          writes.same_rate,
          writes.same_price,
          index,
          writes.written,
        )

    -- Every state that accepted transactions and ends of blocks reach from a state in its bounds,
    -- with the rates of the parameters in theirs, is in its bounds: the index lies in the window,
    -- no slot is above the maximal utilization, the learning rate lies between its bounds, the gas
    -- price is at least the minimum, and every decimal is present. Updates that recover from a
    -- panic are included.
    pub Reach-IsMarket : {s t : State} → IsMarket p s → Reach p s t → IsMarket p t
    Reach-IsMarket h here = h
    Reach-IsMarket h (next r (spend gas e)) = spend-IsMarket p _ _ gas e (Reach-IsMarket h r)
    Reach-IsMarket h (next {t = t} {u = u} r (close e)) =
        let (v, returns, market, _, _, _, _) = close_block_lem t (Reach-IsMarket h r) in
        rw (← ok_injective (sym returns ∙ e)) market
