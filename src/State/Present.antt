-- ===== src/State/Present.antt =====
-- What the updates of x/feemarket/types/state.go leave is not nil, after a panic that they recover from too.
use feemarket.Prelude.{◌≡◌, false, some, inl, inr, Bool-cases, Option-cases}
use feemarket.Prelude.Outcome.Cases.{some_value}
use feemarket.Prelude.Outcome.Partial.{>>=-eq-some}
use feemarket.Math.{Math}
use feemarket.Math.Laws.{MathLaws}
use feemarket.Params.{Params}
use feemarket.State.{
  State, get_average_utilization, get_net_utilization, learning_rate_adjustment, at_edge,
  raised_rate, lowered_rate, next_learning_rate, update_learning_rate, next_base_gas_price,
  update_base_gas_price,
}
use feemarket.State.Returns.{choice_some}

module _ ⦃m : Math⦄ (l : MathLaws) (s : State) (p : Params) where
  raised_rate-some :
      {r : m.LegacyDec}
      → m.is_nil p.max_learning_rate ≡ false
      → raised_rate s p ≡ some r
      → m.is_nil r ≡ false
  unfolding raised_rate
  raised_rate-some top e =
      let (lr, sum, e) = >>=-eq-some (m.add p.alpha s.learning_rate) _ e in
      let (above, _, e) = >>=-eq-some (m.gt lr p.max_learning_rate) _ e in
      rw (some_value e) at (choice_some above top (l.add_some p.alpha s.learning_rate sum))

  lowered_rate-some :
      {r : m.LegacyDec}
      → m.is_nil p.min_learning_rate ≡ false
      → lowered_rate s p ≡ some r
      → m.is_nil r ≡ false
  unfolding lowered_rate
  lowered_rate-some bottom e =
      let (lr, product, e) = >>=-eq-some (m.mul s.learning_rate p.beta) _ e in
      let (below, _, e) = >>=-eq-some (m.lt lr p.min_learning_rate) _ e in
      rw (some_value e) at (choice_some below bottom (l.mul_some s.learning_rate p.beta product))

  next_learning_rate-some :
      {r : m.LegacyDec}
      → m.is_nil p.min_learning_rate ≡ false
      → m.is_nil p.max_learning_rate ≡ false
      → next_learning_rate s p ≡ some r
      → m.is_nil r ≡ false
  unfolding next_learning_rate
  next_learning_rate-some bottom top e =
      let (avg, _, e) = >>=-eq-some (get_average_utilization s p) _ e in
      let (edge, _, e) = >>=-eq-some (at_edge avg p) _ e in
      elim (Bool-cases edge) [
        | inl up ↦ raised_rate-some top (rw up at e)
        | inr down ↦ lowered_rate-some bottom (rw down at e)
      ]

  pub update_learning_rate-some :
      m.is_nil p.min_learning_rate ≡ false
      → m.is_nil p.max_learning_rate ≡ false
      → m.is_nil (update_learning_rate s p).1 ≡ false
  unfolding update_learning_rate
  update_learning_rate-some bottom top = elim (Option-cases (next_learning_rate s p)) [
    | inl stopped ↦ rw stopped bottom
    | inr (r, e) ↦ rw e (next_learning_rate-some bottom top e)
  ]

  next_base_gas_price-some :
      {r : m.LegacyDec}
      → m.is_nil p.min_base_gas_price ≡ false
      → next_base_gas_price s p ≡ some r
      → m.is_nil r ≡ false
  unfolding next_base_gas_price
  next_base_gas_price-some bottom e =
      let (adjustment, _, e) = >>=-eq-some (learning_rate_adjustment s p) _ e in
      let (total, _, e) = >>=-eq-some (get_net_utilization s p) _ e in
      let (net, _, e) = >>=-eq-some (m.mul (m.dec_from_int total) p.delta) _ e in
      let (scaled, _, e) = >>=-eq-some (m.mul s.base_gas_price adjustment) _ e in
      let (price, sum, e) = >>=-eq-some (m.add scaled net) _ e in
      let (below, _, e) = >>=-eq-some (m.lt price p.min_base_gas_price) _ e in
      rw (some_value e) at (choice_some below bottom (l.add_some scaled net sum))

  pub update_base_gas_price-some :
      m.is_nil p.min_base_gas_price ≡ false → m.is_nil (update_base_gas_price s p).1 ≡ false
  unfolding update_base_gas_price
  update_base_gas_price-some bottom = elim (Option-cases (next_base_gas_price s p)) [
    | inl stopped ↦ rw stopped bottom
    | inr (r, e) ↦ rw e (next_base_gas_price-some bottom e)
  ]
