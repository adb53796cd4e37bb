-- ===== src/Keeper/EndBlock.antt =====
-- `UpdateFeeMarket` of x/feemarket/keeper/feemarket.go, run by `EndBlock` of keeper/abci.go, against the
-- end of a block of the state machine.
use feemarket.Prelude.{
  ℕ, ◌≤◌, ◌<◌, ◌≡◌, refl, ◌∙◌, ap, true, false, none, some, arith, List, [], ◌∷◌, All-mono, length,
  if◌then◌else◌,
}
use feemarket.Prelude.Int.{two_64}
use feemarket.Prelude.Outcome.{ok}
use feemarket.Prelude.Outcome.Action.{pure, ◌>>=◌}
use feemarket.Math.{Math}
use feemarket.Math.Laws.{MathLaws, NoOverflow}
use feemarket.Sdk.{Sdk}
use feemarket.Sdk.Laws.{StoreLaws}
use feemarket.Codec.{Codec, CodecLaws, IsStorableState}
use feemarket.Params.{Params}
use feemarket.State.{
  State, elems, Slice, get_average_utilization, get_net_utilization, update_learning_rate,
  update_base_gas_price,
}
use feemarket.State.Market.{close_block, IsMarket, close_block_lem, rated-IsMarket, priced-IsMarket}
use feemarket.State.Returns.{average_returns, net_utilization_returns}
use feemarket.Keeper.{get_params, get_state, set_state, key_params, key_state}
use feemarket.Keeper.Market.{update_fee_market, update_market, end_block}
use feemarket.Keeper.Store.{
  HoldsParams, HoldsState, SameStore, get_params_lem, get_state_lem, set_state_lem,
}

module _ ⦃m : Math⦄ ⦃s : Sdk⦄ ⦃c : Codec⦄ (w : StoreLaws) (e : CodecLaws) where
  open w use {view}

  -- A disabled market is left alone: EndBlock returns and the store is as before.
  end_block-disabled :
      (x : s.Ctx) (p : Params)
      → HoldsParams w e x p
      → p.enabled ≡ false
      → (y : s.Ctx) × (end_block x ≡ (ok tt, y)) × SameStore w e x y
  unfolding update_fee_market
  end_block-disabled x p held off =
      let (y, gets, same) = get_params_lem w e x p held in (y, rw (gets, off) refl, same)

cons_of :
    (slice : Slice)
    → 0 < length (elems slice)
    → (first : ℕ) × (rest : List ℕ) × (slice ≡ some (first ∷ rest))
cons_of none h = absurd (omega arith)
cons_of (some []) h = absurd (omega arith)
cons_of (some (u ∷ us)) h = (u, us, refl)

module _ ⦃m : Math⦄ (l : MathLaws) where
  pub market-IsStorableState :
      (p : Params) (t : State)
      → p.max_block_utilization < two_64
      → IsMarket l p t
      → IsStorableState t
  market-IsStorableState p t top h =
      let (first, rest, e) = cons_of t.window (omega (arith, h.window.index_lt)) in
      record {
        price_some = h.complete.price_some;
        rate_some = h.complete.rate_some;
        first = first;
        rest = rest;
        window_cons = e;
        window_lt =
            All-mono (λ u. u ≤ p.max_block_utilization) (λ u. u < two_64) (elems t.window)
              (λ u k. omega arith) h.window.within;
        length_lt = h.window.length_lt;
        index_lt = omega (arith, h.window.index_lt, h.window.length_lt);
      }

module _ ⦃m : Math⦄ ⦃s : Sdk⦄ ⦃c : Codec⦄ where
  -- Where the log line can be evaluated and the block closed, what is left is to store the state.
  update_market-close_block :
      (t : State) (p : Params) (x : s.Ctx) {u : State} {avg : m.LegacyDec} {net : m.Int}
      → let priced = (update_base_gas_price (update_learning_rate t p).0 p).0 in
        get_average_utilization priced p ≡ some avg
        → get_net_utilization priced p ≡ some net
        → close_block t p ≡ ok u
        → update_market t p x ≡ set_state u x
  unfolding update_market
  update_market-close_block t p x averages nets closes = rw (averages, nets, closes) refl

  pub update_fee_market-enabled :
      (x : s.Ctx) (p : Params) {y : s.Ctx}
      → get_params x ≡ (ok p, y)
      → p.enabled ≡ true
      → update_fee_market x ≡ (get_state >>= (λ state. update_market state p)) y
  unfolding update_fee_market
  update_fee_market-enabled x p {y} gets on =
      rw gets
        (ap (λ b. (if b then get_state >>= (λ state. update_market state p) else pure tt) y) on)

module _ ⦃m : Math⦄ ⦃s : Sdk⦄ ⦃c : Codec⦄ (l : MathLaws) (n : NoOverflow l) (w : StoreLaws)
    (e : CodecLaws) where
  open w use {view}

  -- On an enabled market whose stored parameters and state are in their bounds, where no number
  -- overflows and the maximal utilization fits a uint64, EndBlock returns without an error or a
  -- panic. The store then holds the state that the pure end of a block leads to, which is again in
  -- its bounds, and the same parameters.
  pub end_block-close_block :
      (x : s.Ctx) (p : Params) (t : State)
      → HoldsParams w e x p
      → HoldsState w e x t
      → p.enabled ≡ true
      → p.max_block_utilization < two_64
      → IsMarket l p t
      → (y : s.Ctx) × (u : State) × (end_block x ≡ (ok tt, y))
        × (close_block t p ≡ ok u)
        × IsMarket l p u
        × HoldsState w e y u
        × HoldsParams w e y p
  end_block-close_block x p t held_p held_t on top h =
      let rated = (update_learning_rate t p).0 in
      let priced = (update_base_gas_price rated p).0 in
      let k = priced-IsMarket l p rated (rated-IsMarket l p t h) in
      let (y, gets_p, (kept, _)) = get_params_lem w e x p held_p in
      let (z, gets_t, (kept', _)) =
        get_state_lem w e y t (held_t.0, kept key_state ∙ held_t.1, held_t.2) in
      let (avg, averages, _) = average_returns l n priced p k.complete in
      let (net, nets) = net_utilization_returns l n priced p k.complete in
      let (u, closes, market, _, _, _, _) = close_block_lem l p t h in
      let (v, sets, held_u, others, _) =
        set_state_lem w e z u (market-IsStorableState l p u top market) in
      (
        v,
        u,
        update_fee_market-enabled x p gets_p on
            ∙ rw gets_t (update_market-close_block t p z averages nets closes ∙ sets),
        closes,
        market,
        held_u,
        (
          held_p.0,
          others key_params (λ d. ground arith) ∙ kept' key_params ∙ kept key_params ∙ held_p.1,
          held_p.2,
        ),
      )
