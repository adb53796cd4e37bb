-- ===== src/Params/Validate.antt =====
-- `ValidateBasic` of x/feemarket/types/params.go as a row of checks, and the ranges that its errors name.
use feemarket.Prelude.{
  ◌≤◌, ◌≡◌, ◌≢◌, refl, sym, Bool, true, false, not, Option, none, some, List, [], ◌∷◌, arith, ltb,
  ◌==◌, str_eq, eq_iff,
}
use feemarket.Prelude.Int.{pos, ◌≤ℤ◌, ltb_ℤ→ge}
use feemarket.Prelude.Outcome.{ok, Error, message, ◌or◌}
use feemarket.Prelude.Outcome.Pure.{run_checks, passed}
use feemarket.Prelude.Outcome.Partial.{>>=-eq-some}
use feemarket.Math.{Math}
use feemarket.Math.Laws.{MathLaws, unit}
use feemarket.Params.{Params, validate_params, not_gte, above_half}

pub neither :
    (a : Bool) (b : Option Bool) → (some a or b) ≡ some false → (a ≡ false) × (b ≡ some false)
neither true b h = cc
neither false b h = (refl, h)

both_false : (a b : Option Bool) → (a or b) ≡ some false → (a ≡ some false) × (b ≡ some false)
both_false none b h = cc
both_false (some true) b h = cc
both_false (some false) b h = (refl, h)

module _ ⦃m : Math⦄ where
  -- The checks of `ValidateBasic` in a row.
  abbrev pub checks : Params → List (Option Bool × Error)
  checks p =
      (some (p.window == 0), message "window cannot be zero")
      ∷ (
        some (m.is_nil p.alpha) or m.is_negative p.alpha,
        message "alpha cannot be nil must be between [0, inf)",
      )
      ∷ (
        some (m.is_nil p.beta) or m.is_negative p.beta or m.gt p.beta m.one_dec,
        message "beta cannot be nil and must be between [0, 1]",
      )
      ∷ (
        some (m.is_nil p.gamma) or m.is_negative p.gamma or above_half p.gamma,
        message "theta cannot be nil and must be between [0, 0.5]",
      )
      ∷ (
        some (m.is_nil p.delta) or m.is_negative p.delta,
        message "delta cannot be nil and must be between [0, inf)",
      )
      ∷ (
        some (m.is_nil p.min_base_gas_price) or not_gte p.min_base_gas_price m.zero_dec,
        message "min base gas price cannot be nil and must be greater than or equal to zero",
      )
      ∷ (
        some (m.is_nil p.max_learning_rate) or m.is_negative p.min_learning_rate,
        message "min learning rate cannot be negative or nil",
      )
      ∷ (
        some (ltb p.max_block_utilization 2),
        message "max block utilization cannot be less than 2",
      )
      ∷ (
        some (m.is_nil p.max_learning_rate) or m.is_negative p.max_learning_rate,
        message "max learning rate cannot be negative or nil",
      )
      ∷ (
        m.gt p.min_learning_rate p.max_learning_rate,
        message "min learning rate cannot be greater than max learning rate",
      )
      ∷ (some (str_eq p.fee_denom ""), message "fee denom must be set")
      ∷ []

  pub validate-eq-checks : (p : Params) → validate_params p ≡ run_checks (checks p)
  unfolding validate_params
  validate-eq-checks p = refl

module _ ⦃m : Math⦄ (l : MathLaws) where
  open l use {raw}

  -- The ranges that params.proto documents, for decimals that are present. Of the minimal learning
  -- rate it is not said that it is present: `ValidateBasic` does not look.
  pub record IsChecked (p : Params) : Type 0 where
    pub window_pos : p.window ≢ 0
    pub alpha_some : m.is_nil p.alpha ≡ false
    pub alpha_nonneg : pos 0 ≤ℤ raw p.alpha
    pub beta_some : m.is_nil p.beta ≡ false
    pub beta_nonneg : pos 0 ≤ℤ raw p.beta
    pub beta_le : raw p.beta ≤ℤ pos unit
    pub gamma_some : m.is_nil p.gamma ≡ false
    pub gamma_nonneg : pos 0 ≤ℤ raw p.gamma
    pub gamma_le : raw p.gamma ≤ℤ pos 500_000_000_000_000_000
    pub delta_some : m.is_nil p.delta ≡ false
    pub delta_nonneg : pos 0 ≤ℤ raw p.delta
    pub price_some : m.is_nil p.min_base_gas_price ≡ false
    pub price_nonneg : pos 0 ≤ℤ raw p.min_base_gas_price
    pub max_rate_some : m.is_nil p.max_learning_rate ≡ false
    pub min_rate_nonneg : pos 0 ≤ℤ raw p.min_learning_rate
    pub rates_le : raw p.min_learning_rate ≤ℤ raw p.max_learning_rate
    pub utilization_ge : 2 ≤ p.max_block_utilization
    pub denom_ne : p.fee_denom ≢ ""

  nonneg : (a : m.LegacyDec) → m.is_negative a ≡ some false → pos 0 ≤ℤ raw a
  nonneg a e = ltb_ℤ→ge (raw a) (pos 0) (sym (l.is_negative_value a e))

  gt_false : (a b : m.LegacyDec) → m.gt a b ≡ some false → raw a ≤ℤ raw b
  gt_false a b e = ltb_ℤ→ge (raw b) (raw a) (sym (l.gt_value a b e))

  not_gte-false : (a b : m.LegacyDec) → not_gte a b ≡ some false → raw b ≤ℤ raw a
  not_gte-false a b e =
      let (t, q, r) = >>=-eq-some (m.gte a b) (λ t. some (not t)) e in
      ground (arith, l.gte_value a b q)

  above_half-false :
      (g : m.LegacyDec) → above_half g ≡ some false → raw g ≤ℤ pos 500_000_000_000_000_000
  above_half-false g e =
      let (h, q, r) = >>=-eq-some (m.dec_from_str "0.5") (m.gt g) e in
      rw (l.half_value q) at (gt_false g h r)

  -- Parameters that pass ValidateBasic are in the ranges that its errors document: the window is
  -- not zero, no checked decimal is nil, alpha, beta, gamma, delta, the minimal price and both
  -- rates are in their intervals, the maximal utilization is at least 2 and the denomination is not
  -- empty.
  pub validate_params-IsChecked : (p : Params) → validate_params p ≡ ok tt → IsChecked p
  validate_params-IsChecked p h =
      let (
        window,
        (alpha, (beta, (gamma, (delta, (price, (rate, (utilization, (_, (rates, (denom, _)))))))))),
      ) =
        passed (checks p) (rw validate-eq-checks at h) in
      let (alpha_some, alpha_sign) = neither (m.is_nil p.alpha) (m.is_negative p.alpha) alpha in
      let (beta_some, beta_range) =
        neither (m.is_nil p.beta) (m.is_negative p.beta or m.gt p.beta m.one_dec) beta in
      let (beta_sign, beta_le) =
        both_false (m.is_negative p.beta) (m.gt p.beta m.one_dec) beta_range in
      let (gamma_some, gamma_range) =
        neither (m.is_nil p.gamma) (m.is_negative p.gamma or above_half p.gamma) gamma in
      let (gamma_sign, gamma_le) =
        both_false (m.is_negative p.gamma) (above_half p.gamma) gamma_range in
      let (delta_some, delta_sign) = neither (m.is_nil p.delta) (m.is_negative p.delta) delta in
      let (price_some, price_le) =
        neither (m.is_nil p.min_base_gas_price) (not_gte p.min_base_gas_price m.zero_dec) price in
      let (rate_some, rate_sign) =
        neither (m.is_nil p.max_learning_rate) (m.is_negative p.min_learning_rate) rate in
      record {
        window_pos = λ e. ground arith;
        alpha_some = alpha_some;
        alpha_nonneg = nonneg p.alpha alpha_sign;
        beta_some = beta_some;
        beta_nonneg = nonneg p.beta beta_sign;
        beta_le = rw l.one_dec_value at (gt_false p.beta m.one_dec beta_le);
        gamma_some = gamma_some;
        gamma_nonneg = nonneg p.gamma gamma_sign;
        gamma_le = above_half-false p.gamma gamma_le;
        delta_some = delta_some;
        delta_nonneg = nonneg p.delta delta_sign;
        price_some = price_some;
        price_nonneg =
            rw l.zero_dec_value at (not_gte-false p.min_base_gas_price m.zero_dec price_le);
        max_rate_some = rate_some;
        min_rate_nonneg = nonneg p.min_learning_rate rate_sign;
        rates_le = gt_false p.min_learning_rate p.max_learning_rate rates;
        utilization_ge = ground arith;
        denom_ne = λ e. ground (arith, eq_iff p.fee_denom "");
      }
