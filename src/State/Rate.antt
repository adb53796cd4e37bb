-- ===== src/State/Rate.antt =====
-- The learning rate of x/feemarket/types/state.go (`UpdateLearningRate`) and its bounds.
use feemarket.Prelude.{◌≡◌, refl, some, arith, Option-cases, Bool-cases, inl, inr}
use feemarket.Prelude.Int.{pos, ◌≤ℤ◌}
use feemarket.Prelude.Outcome.Partial.{>>=-eq-some}
use feemarket.Math.{Math}
use feemarket.Math.Laws.{MathLaws, unit}
use feemarket.Math.Order.{add_parts, mul_le_self, cap_value, floor_value}
use feemarket.Params.{Params}
use feemarket.State.{
  State, get_average_utilization, at_edge, raised_rate, lowered_rate, next_learning_rate,
  update_learning_rate,
}

module _ ⦃m : Math⦄ (l : MathLaws) where
  open l use {raw}

  -- The learning rate lies between the bounds of the parameters.
  abbrev pub IsBounded : Params → m.LegacyDec → Type 0
  IsBounded p r = (raw p.min_learning_rate ≤ℤ raw r) × (raw r ≤ℤ raw p.max_learning_rate)

  -- What the additive and the multiplicative step need of the parameters.
  pub record IsRateParams (p : Params) : Type 0 where
    pub alpha_nonneg : pos 0 ≤ℤ raw p.alpha
    pub beta_le : raw p.beta ≤ℤ pos unit
    pub min_rate_nonneg : pos 0 ≤ℤ raw p.min_learning_rate
    pub rates_le : raw p.min_learning_rate ≤ℤ raw p.max_learning_rate

  module _ (s : State) (p : Params) (h : IsRateParams p) (b : IsBounded p s.learning_rate) where
    raised_rate-IsBounded : {r : m.LegacyDec} → raised_rate s p ≡ some r → IsBounded p r
    unfolding raised_rate
    raised_rate-IsBounded {r} e =
        let (lr, sum, e) = >>=-eq-some (m.add p.alpha s.learning_rate) _ e in
        let (above, test, e) = >>=-eq-some (m.gt lr p.max_learning_rate) _ e in
        let value = add_parts l p.alpha s.learning_rate sum in
        let (le, _, choice) = cap_value l lr p.max_learning_rate test e in
        elim choice [
          | inl top ↦ rw top (h.rates_le, omega arith)
          | inr free ↦ (rw free (omega (arith, value)), le)
        ]

    lowered_rate-IsBounded : {r : m.LegacyDec} → lowered_rate s p ≡ some r → IsBounded p r
    unfolding lowered_rate
    lowered_rate-IsBounded {r} e =
        let (lr, product, e) = >>=-eq-some (m.mul s.learning_rate p.beta) _ e in
        let (below, test, e) = >>=-eq-some (m.lt lr p.min_learning_rate) _ e in
        let le_old = mul_le_self l s.learning_rate p.beta product (omega arith) h.beta_le in
        let (ge, _, choice) = floor_value l lr p.min_learning_rate test e in
        elim choice [
          | inl bottom ↦ rw bottom (omega arith, h.rates_le)
          | inr free ↦ (ge, rw free (omega arith))
        ]

    next_learning_rate-IsBounded :
        {r : m.LegacyDec} → next_learning_rate s p ≡ some r → IsBounded p r
    unfolding next_learning_rate
    next_learning_rate-IsBounded e =
        let (avg, _, e) = >>=-eq-some (get_average_utilization s p) _ e in
        let (edge, _, e) = >>=-eq-some (at_edge avg p) _ e in
        elim (Bool-cases edge) [
          | inl up ↦ raised_rate-IsBounded (rw up at e)
          | inr down ↦ lowered_rate-IsBounded (rw down at e)
        ]

    -- If alpha is not negative, beta is at most 1, the minimal rate is not negative and at most the
    -- maximal one, and the learning rate lies between the two rates, so does the one that
    -- UpdateLearningRate leaves in the state, which is also its result, on every branch and after a
    -- panic that it recovers from. Nothing else of the state changes.
    pub update_learning_rate-IsBounded :
        let (t, r) = update_learning_rate s p in
        IsBounded p t.learning_rate × (r ≡ t.learning_rate) × (t ≡ record s { learning_rate = r })
    unfolding update_learning_rate
    update_learning_rate-IsBounded = elim (Option-cases (next_learning_rate s p)) [
      | inl stopped ↦ rw stopped ((omega arith, h.rates_le), refl, refl)
      | inr (r, e) ↦ rw e (next_learning_rate-IsBounded e, refl, refl)
    ]
