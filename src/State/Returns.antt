-- ===== src/State/Returns.antt =====
-- Where the updates of x/feemarket/types/state.go could divide by zero, read out of range or meet a nil
-- decimal.
use feemarket.Prelude.{
  ℕ, ◌*◌, ◌≤◌, ◌<◌, ◌≡◌, refl, Bool, true, false, some, inl, inr, arith, List, [], ◌∷◌, length,
  get_elem?-lt, Bool-cases, if◌then◌else◌,
}
use feemarket.Prelude.Int.{pos}
use feemarket.Prelude.Outcome.Partial.{some_of}
use feemarket.Math.{Math}
use feemarket.Math.Laws.{MathLaws, NoOverflow}
use feemarket.Params.{Params, target_block_utilization}
use feemarket.State.{
  State, elems, add_net, get_net_utilization, add_total, get_average_utilization, at_edge,
  raised_rate, lowered_rate, next_learning_rate, learning_rate_adjustment, next_base_gas_price,
}
use feemarket.State.Average.{whole_product}
use feemarket.Math.Order.{uint64_dec}

module _ ⦃m : Math⦄ where
  pub choice_some :
      (t : Bool) {a b : m.LegacyDec}
      → m.is_nil a ≡ false
      → m.is_nil b ≡ false
      → m.is_nil (if t then a else b) ≡ false
  choice_some true p q = p
  choice_some false p q = q

module _ ⦃m : Math⦄ (l : MathLaws) where
  -- Every decimal is there, the index is in range, and the target is not zero.
  pub record IsComplete (s : State) (p : Params) : Type 0 where
    pub alpha_some : m.is_nil p.alpha ≡ false
    pub beta_some : m.is_nil p.beta ≡ false
    pub gamma_some : m.is_nil p.gamma ≡ false
    pub delta_some : m.is_nil p.delta ≡ false
    pub min_price_some : m.is_nil p.min_base_gas_price ≡ false
    pub min_rate_some : m.is_nil p.min_learning_rate ≡ false
    pub max_rate_some : m.is_nil p.max_learning_rate ≡ false
    pub price_some : m.is_nil s.base_gas_price ≡ false
    pub rate_some : m.is_nil s.learning_rate ≡ false
    pub index_lt : s.index < length (elems s.window)
    pub utilization_ge : 2 ≤ p.max_block_utilization

  module _ (n : NoOverflow l) (s : State) (p : Params) (h : IsComplete s p) where
    open n use {add_returns, sub_returns, mul_returns, quo_returns, dec_from_int_some}

    pub average_returns :
        (a : m.LegacyDec) × (get_average_utilization s p ≡ some a) × (m.is_nil a ≡ false)
    unfolding get_average_utilization
    average_returns =
        let dec = λ (k : ℕ). m.dec_from_int (m.int_from_uint64 k) in
        let us = elems s.window in
        let top = p.max_block_utilization in
        let (divisor, multiplies, some_divisor) =
          mul_returns (dec top) (dec (length us)) (dec_from_int_some _) (dec_from_int_some _) in
        let whole = whole_product l top (length us) multiplies in
        let positive : 0 < top * length us = grind (arith, h.index_lt, h.utilization_ge) in
        let (a, divides, some_a) =
          quo_returns (dec (add_total 0 us)) divisor (dec_from_int_some _) some_divisor
            (λ zero_divisor. ground (arith, whole, zero_divisor)) in
        (a, rw multiplies divides, some_a)

    edge_returns :
        (avg : m.LegacyDec) → m.is_nil avg ≡ false → (t : Bool) × (at_edge avg p ≡ some t)
    unfolding at_edge
    edge_returns avg some_avg =
        let (low, tests) =
          some_of (m.lte avg p.gamma)
            (n.compares.compare_returns avg p.gamma some_avg h.gamma_some).3 in
        let (high, subtracts, some_high) =
          sub_returns m.one_dec p.gamma n.compares.one_dec_some h.gamma_some in
        let (t, tests_high) =
          some_of (m.gte avg high) (n.compares.compare_returns avg high some_avg some_high).1 in
        elim (Bool-cases low) [
          | inl yes_low ↦ (true, rw (tests, yes_low) refl)
          | inr not_low ↦ (t, rw (tests, not_low, subtracts) tests_high)
        ]

    -- On a complete state the computation of the learning rate returns, unless a number
    -- overflows, and the rate is present.
    pub next_learning_rate-returns :
        (r : m.LegacyDec) × (next_learning_rate s p ≡ some r) × (m.is_nil r ≡ false)
    unfolding next_learning_rate raised_rate lowered_rate
    next_learning_rate-returns =
        let (avg, averages, some_avg) = average_returns in
        let (edge, tests) = edge_returns avg some_avg in
        let (up, adds, some_up) = add_returns p.alpha s.learning_rate h.alpha_some h.rate_some in
        let (above, caps) =
          some_of (m.gt up p.max_learning_rate)
            (n.compares.compare_returns up p.max_learning_rate some_up h.max_rate_some).0 in
        let (down, scales, some_down) =
          mul_returns s.learning_rate p.beta h.rate_some h.beta_some in
        let (below, floors) =
          some_of (m.lt down p.min_learning_rate)
            (n.compares.compare_returns down p.min_learning_rate some_down h.min_rate_some).2 in
        elim (Bool-cases edge) [
          | inl at_top ↦ (
            if above then p.max_learning_rate else up,
            rw (averages, tests, at_top, adds, caps) refl,
            choice_some above h.max_rate_some some_up,
          )
          | inr inside ↦ (
            if below then p.min_learning_rate else down,
            rw (averages, tests, inside, scales, floors) refl,
            choice_some below h.min_rate_some some_down,
          )
        ]

    net_returns :
        (target net : m.Int) (us : List ℕ)
        → m.int_is_nil target ≡ false
        → m.int_is_nil net ≡ false
        → (r : m.Int) × (add_net target net us ≡ some r)
    unfolding add_net
    net_returns target net [] some_target some_net = (net, refl)
    net_returns target net (u ∷ us) some_target some_net =
        let (diff, subtracts, some_diff) =
          n.int_sub_returns (m.int_from_uint64 u) target (n.int_from_uint64_some u) some_target in
        let (net', adds, some_net') = n.int_add_returns net diff some_net some_diff in
        rw (subtracts, adds) (net_returns target net' us some_target some_net')

    pub net_utilization_returns : (r : m.Int) × (get_net_utilization s p ≡ some r)
    unfolding get_net_utilization
    net_utilization_returns =
        net_returns (m.int_from_uint64 (target_block_utilization p)) (m.new_int (pos 0))
          (elems s.window) (n.int_from_uint64_some _) (n.new_int_some _)

    adjustment_returns :
        (a : m.LegacyDec) × (learning_rate_adjustment s p ≡ some a) × (m.is_nil a ≡ false)
    unfolding learning_rate_adjustment
    adjustment_returns =
        let dec = λ (k : ℕ). m.dec_from_int (m.int_from_uint64 k) in
        let target = target_block_utilization p in
        let (used, reads) = get_elem?-lt (elems s.window) s.index h.index_lt in
        let (diff, subtracts, some_diff) =
          sub_returns (dec used) (dec target) (dec_from_int_some _) (dec_from_int_some _) in
        let (utilization, divides, some_utilization) =
          quo_returns diff (dec target) some_diff (dec_from_int_some _)
            (λ zero_target. ground (arith, uint64_dec l target, zero_target, h.utilization_ge)) in
        let (step, scales, some_step) =
          mul_returns s.learning_rate utilization h.rate_some some_utilization in
        let (a, adds, some_a) = add_returns m.one_dec step n.compares.one_dec_some some_step in
        (a, rw (reads, subtracts, divides, scales) adds, some_a)

    -- On a complete state, where no number overflows, the computation of the gas price ends in a
    -- price that is not nil, so UpdateBaseGasPrice recovers from no panic.
    pub next_base_gas_price-returns :
        (r : m.LegacyDec) × (next_base_gas_price s p ≡ some r) × (m.is_nil r ≡ false)
    unfolding next_base_gas_price
    next_base_gas_price-returns =
        let (adjustment, adjusts, some_adjustment) = adjustment_returns in
        let (total, counts) = net_utilization_returns in
        let (net, nets, some_net) =
          mul_returns (m.dec_from_int total) p.delta (dec_from_int_some _) h.delta_some in
        let (scaled, scales, some_scaled) =
          mul_returns s.base_gas_price adjustment h.price_some some_adjustment in
        let (price, adds, some_price) = add_returns scaled net some_scaled some_net in
        let (below, tests) =
          some_of (m.lt price p.min_base_gas_price)
            (n.compares.compare_returns price p.min_base_gas_price some_price h.min_price_some).2 in
        (
          if below then p.min_base_gas_price else price,
          rw (adjusts, counts, nets, scales, adds, tests) refl,
          choice_some below h.min_price_some some_price,
        )
