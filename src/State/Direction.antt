-- ===== src/State/Direction.antt =====
-- The direction in which `UpdateBaseGasPrice` of x/feemarket/types/state.go moves the gas price.
use native.Mathlib.Nat.{mul-le-mul_right}
use feemarket.Prelude.{ℕ, ◌+◌, ◌*◌, ◌≤◌, ◌≡◌, inl, inr, some, arith, length, get_elem?}
use feemarket.Prelude.Int.{pos, pos_part, neg_part, ◌*ℤ◌, ◌-ℤ◌, ◌≤ℤ◌, ◌<ℤ◌, *ℤ-pos_parts, -ℤ_parts}
use feemarket.Prelude.Outcome.Partial.{>>=-eq-some}
use feemarket.Math.{Math}
use feemarket.Math.Laws.{MathLaws, unit, Rounds}
use feemarket.Math.Order.{
  uint64_dec, add_parts, sub_parts, self_le_mul, mul_le_self, mul_nonneg, mul_nonpos,
  mul_nonpos_left, floor_value, Rounds-le, Rounds-ge,
}
use feemarket.Params.{Params, target_block_utilization}
use feemarket.State.{
  State, elems, get_net_utilization, learning_rate_adjustment, next_base_gas_price,
}
use feemarket.State.Price.{sum, get_net_utilization_lem, next-Steps}

module _ ⦃m : Math⦄ (l : MathLaws) where
  open l use {raw, int}

  -- The signs on which the direction rests.
  pub record IsSigned (s : State) (p : Params) : Type 0 where
    pub rate_nonneg : pos 0 ≤ℤ raw s.learning_rate
    pub price_nonneg : pos 0 ≤ℤ raw s.base_gas_price
    pub delta_nonneg : pos 0 ≤ℤ raw p.delta
    pub utilization_ge : 2 ≤ p.max_block_utilization

  -- What a computation of the adjustment that returns has gone through.
  record Adjusts (s : State) (target used : ℕ) (a : m.LegacyDec) : Type 0 where
    diff : m.LegacyDec
    utilization : m.LegacyDec
    step : m.LegacyDec
    diff_parts : pos_part (raw diff) + target * unit ≡ neg_part (raw diff) + used * unit
    quotient :
        pos 0 <ℤ pos (target * unit)
        → Rounds (raw utilization) (raw diff *ℤ pos unit) (pos (target * unit))
    scales : m.mul s.learning_rate utilization ≡ some step
    adds : pos_part (raw a) + neg_part (raw step) ≡ neg_part (raw a) + unit + pos_part (raw step)

  module _ (s : State) (p : Params) (h : IsSigned s p) (used : ℕ)
      (read : get_elem? (elems s.window) s.index ≡ some used) where
    abbrev target : ℕ
    target = target_block_utilization p

    adjustment-Adjusts :
        {a : m.LegacyDec} → learning_rate_adjustment s p ≡ some a → Adjusts s target used a
    unfolding learning_rate_adjustment
    adjustment-Adjusts e =
        let dec = λ (n : ℕ). m.dec_from_int (m.int_from_uint64 n) in
        let (diff, subtracts, e1) = >>=-eq-some (m.sub (dec used) (dec target)) _ (rw read at e) in
        let (utilization, divides, e2) = >>=-eq-some (m.quo diff (dec target)) _ e1 in
        let (step, scales, e3) = >>=-eq-some (m.mul s.learning_rate utilization) _ e2 in
        let subtracted =
          rw (uint64_dec l used, uint64_dec l target) at
            (sub_parts l (dec used) (dec target) subtracts) in
        let added = rw l.one_dec_value at (add_parts l m.one_dec step e3) in
        record {
          diff = diff;
          utilization = utilization;
          step = step;
          diff_parts = omega (arith, subtracted);
          quotient = rw (uint64_dec l target) at (l.quo_value diff (dec target) divides);
          scales = scales;
          adds = omega (arith, added);
        }

    adjustment_ge :
        {a : m.LegacyDec}
        → learning_rate_adjustment s p ≡ some a
        → target ≤ used
        → pos unit ≤ℤ raw a
    adjustment_ge e k =
        let a = adjustment-Adjusts e in
        let utilization_ge =
          Rounds-ge (raw a.utilization) (raw a.diff *ℤ pos unit) (target * unit) (pos 0)
            (a.quotient (omega (arith, h.utilization_ge)))
            (omega (
              arith,
              a.diff_parts,
              *ℤ-pos_parts (raw a.diff) unit,
              *ℤ-pos_parts (pos 0) (target * unit),
            )) in
        omega (
          arith,
          mul_nonneg l s.learning_rate a.utilization a.scales h.rate_nonneg utilization_ge,
          a.adds,
        )

    adjustment_le :
        {a : m.LegacyDec}
        → learning_rate_adjustment s p ≡ some a
        → used ≤ target
        → raw a ≤ℤ pos unit
    adjustment_le e k =
        let a = adjustment-Adjusts e in
        let utilization_le =
          Rounds-le (raw a.utilization) (raw a.diff *ℤ pos unit) (target * unit) (pos 0)
            (a.quotient (omega (arith, h.utilization_ge)))
            (omega (
              arith,
              a.diff_parts,
              *ℤ-pos_parts (raw a.diff) unit,
              *ℤ-pos_parts (pos 0) (target * unit),
            )) in
        omega (
          arith,
          mul_nonpos l s.learning_rate a.utilization a.scales h.rate_nonneg utilization_le,
          a.adds,
        )

    -- The delta term has the sign of the net utilization.
    net_parts :
        {total : m.Int}
        → get_net_utilization s p ≡ some total
        → pos_part (raw (m.dec_from_int total)) + length (elems s.window) * target * unit
          ≡ neg_part (raw (m.dec_from_int total)) + sum (elems s.window) * unit
    net_parts {total} e =
        let n = length (elems s.window) * target in
        rw (l.dec_from_int_value total, get_net_utilization_lem l s p e)
          (omega (
            arith,
            *ℤ-pos_parts (pos (sum (elems s.window)) -ℤ pos n) unit,
            -ℤ_parts (pos (sum (elems s.window))) (pos n),
          ))

    -- If the current block and the window as a whole have used at least their targets, and no step
    -- overflows, the gas price does not fall.
    pub next_base_gas_price-ge :
        {r : m.LegacyDec}
        → next_base_gas_price s p ≡ some r
        → target ≤ used
        → length (elems s.window) * target ≤ sum (elems s.window)
        → raw s.base_gas_price ≤ℤ raw r
    next_base_gas_price-ge e k w =
        let st = next-Steps l s p e in
        let scaled =
          self_le_mul l s.base_gas_price st.adjustment st.scales h.price_nonneg
            (adjustment_ge st.adjusts k) in
        let counted = net_parts st.counts in
        let up =
          mul_nonneg l (m.dec_from_int st.total) p.delta st.nets
            (grind (arith, counted, mul-le-mul_right unit w)) h.delta_nonneg in
        let floor = floor_value l st.price p.min_base_gas_price st.tests st.chooses in
        omega (arith, scaled, up, add_parts l st.scaled st.net st.adds, floor.1)

    -- If the current block and the window as a whole have used at most their targets, and no step
    -- overflows, the gas price does not rise, unless it stands below the minimum.
    pub next_base_gas_price-le :
        {r : m.LegacyDec}
        → next_base_gas_price s p ≡ some r
        → used ≤ target
        → sum (elems s.window) ≤ length (elems s.window) * target
        → raw p.min_base_gas_price ≤ℤ raw s.base_gas_price
        → raw r ≤ℤ raw s.base_gas_price
    next_base_gas_price-le {r} e k w low =
        let st = next-Steps l s p e in
        let scaled =
          mul_le_self l s.base_gas_price st.adjustment st.scales h.price_nonneg
            (adjustment_le st.adjusts k) in
        let counted = net_parts st.counts in
        let down =
          mul_nonpos_left l (m.dec_from_int st.total) p.delta st.nets
            (grind (arith, counted, mul-le-mul_right unit w)) h.delta_nonneg in
        let floor = floor_value l st.price p.min_base_gas_price st.tests st.chooses in
        elim floor.2 [
          | inl bottom ↦ rw bottom low
          | inr free ↦ rw free (omega (arith, scaled, down, add_parts l st.scaled st.net st.adds))
        ]
