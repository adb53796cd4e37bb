-- ===== src/Params/Accepts.antt =====
-- `ValidateBasic` of x/feemarket/types/params.go on parameters in the ranges that its errors name, and on a minimal
-- learning rate that is missing.
use feemarket.Prelude.{
  ◌≡◌, ◌≢◌, refl, sym, Bool, true, false, Option, some, arith, String, str_eq, eq_iff, Bool-cases,
  inl, inr,
}
use feemarket.Prelude.Int.{pos, ◌≤ℤ◌, ltb_ℤ→lt, leb_ℤ→gt}
use feemarket.Prelude.Outcome.{ok, panic, ◌or◌}
use feemarket.Prelude.Outcome.Pure.{passed, pass}
use feemarket.Prelude.Outcome.Partial.{some_of}
use feemarket.Math.{Math}
use feemarket.Math.Laws.{MathLaws, Compares}
use feemarket.Params.{Params, validate_params, not_gte, above_half}
use feemarket.Params.Validate.{IsChecked, checks, validate-eq-checks, neither}

both : (a : Bool) (b : Option Bool) → a ≡ false → b ≡ some false → (some a or b) ≡ some false
both a b p q = rw p q

or_both : (a b : Option Bool) → a ≡ some false → b ≡ some false → (a or b) ≡ some false
or_both a b p q = rw p q

differs : (t u : String) → t ≢ u → str_eq t u ≡ false
differs t u h = elim (Bool-cases (str_eq t u)) [
  | inl same ↦ absurd (h ((eq_iff t u).0 same))
  | inr other ↦ other
]

module _ ⦃m : Math⦄ (l : MathLaws) (n : Compares) where
  open l use {raw}

  sign_false :
      (a : m.LegacyDec) → m.is_nil a ≡ false → pos 0 ≤ℤ raw a → m.is_negative a ≡ some false
  sign_false a p h =
      let (t, e) = some_of (m.is_negative a) (n.is_negative_returns a p) in
      let value = l.is_negative_value a e in
      elim (Bool-cases t) [
        | inl yes_neg ↦ absurd (omega (arith, ltb_ℤ→lt (raw a) (pos 0) (rw yes_neg at (sym value))))
        | inr not_neg ↦ rw (e, not_neg) refl
      ]

  gt_false :
      (a b : m.LegacyDec)
      → m.is_nil a ≡ false
      → m.is_nil b ≡ false
      → raw a ≤ℤ raw b
      → m.gt a b ≡ some false
  gt_false a b p q h =
      let (t, e) = some_of (m.gt a b) (n.compare_returns a b p q).0 in
      let value = l.gt_value a b e in
      elim (Bool-cases t) [
        | inl above ↦ absurd (omega (arith, ltb_ℤ→lt (raw b) (raw a) (rw above at (sym value))))
        | inr fits ↦ rw (e, fits) refl
      ]

  not_gte-false :
      (a b : m.LegacyDec)
      → m.is_nil a ≡ false
      → m.is_nil b ≡ false
      → raw b ≤ℤ raw a
      → not_gte a b ≡ some false
  not_gte-false a b p q h =
      let (t, e) = some_of (m.gte a b) (n.compare_returns a b p q).1 in
      let value = l.gte_value a b e in
      elim (Bool-cases t) [
        | inl fits ↦ rw (e, fits) refl
        | inr below ↦ absurd (omega (arith, leb_ℤ→gt (raw b) (raw a) (rw below at (sym value))))
      ]

  above_half-false :
      (g : m.LegacyDec)
      → m.is_nil g ≡ false
      → raw g ≤ℤ pos 500_000_000_000_000_000
      → above_half g ≡ some false
  above_half-false g p h =
      let (half, e, q) = n.half_returns in rw e (gt_false g half p q (rw (l.half_value e) h))

  pub checked-accepted :
      (p : Params)
      → m.is_nil p.min_learning_rate ≡ false
      → IsChecked l p
      → validate_params p ≡ ok tt
  checked-accepted p some_min c =
      let max_nonneg : pos 0 ≤ℤ raw p.max_learning_rate =
        omega (arith, c.min_rate_nonneg, c.rates_le) in
      rw validate-eq-checks (
        pass (checks p) (
          ground (arith, c.window_pos),
          (
            both _ _ c.alpha_some (sign_false p.alpha c.alpha_some c.alpha_nonneg),
            (
              both _ _ c.beta_some (
                  or_both _ _ (sign_false p.beta c.beta_some c.beta_nonneg) (
                    gt_false p.beta m.one_dec c.beta_some n.one_dec_some
                      (rw l.one_dec_value c.beta_le))),
              (
                both _ _ c.gamma_some (
                    or_both _ _ (sign_false p.gamma c.gamma_some c.gamma_nonneg)
                      (above_half-false p.gamma c.gamma_some c.gamma_le)),
                (
                  both _ _ c.delta_some (sign_false p.delta c.delta_some c.delta_nonneg),
                  (
                    both _ _ c.price_some (
                        not_gte-false p.min_base_gas_price m.zero_dec c.price_some n.zero_dec_some
                          (rw l.zero_dec_value c.price_nonneg)),
                    (
                      both _ _ c.max_rate_some
                          (sign_false p.min_learning_rate some_min c.min_rate_nonneg),
                      (
                        ground (arith, c.utilization_ge),
                        (
                          both _ _ c.max_rate_some
                              (sign_false p.max_learning_rate c.max_rate_some max_nonneg),
                          (
                            gt_false p.min_learning_rate p.max_learning_rate some_min
                                c.max_rate_some c.rates_le,
                            (rw (differs p.fee_denom "" c.denom_ne) refl, tt),
                          ),
                        ),
                      ),
                    ),
                  ),
                ),
              ),
            ),
          ),
        ))

module _ ⦃m : Math⦄ (l : MathLaws) where
  -- Parameters that ValidateBasic accepts make it panic once their minimal learning rate is nil.
  pub validate_params-nil_rate :
      (p : Params) (x : m.LegacyDec)
      → validate_params p ≡ ok tt
      → m.is_nil x ≡ true
      → validate_params (record p { min_learning_rate = x }) ≡ panic
  validate_params-nil_rate p x accepted missing =
      let (window, (alpha, (beta, (gamma, (delta, (price, (rate, _))))))) =
        passed (checks p) (rw validate-eq-checks at accepted) in
      let (max_some, _) =
        neither (m.is_nil p.max_learning_rate) (m.is_negative p.min_learning_rate) rate in
      rw
        (
          validate-eq-checks,
          window,
          alpha,
          beta,
          gamma,
          delta,
          price,
          max_some,
          l.is_negative_nil x missing,
        )
        refl
