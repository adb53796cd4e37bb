-- ===== src/Ante/Priority.antt =====
-- The priority `GetTxPriority` of x/feemarket/ante/fee.go.
use feemarket.Prelude.{
  zero, suc, ◌*◌, ◌≡◌, ◌≢◌, refl, sym, ◌∙◌, ap, Bool, true, false, some, arith, if◌then◌else◌,
}
use feemarket.Prelude.Int.{
  ℤ, pos, negsuc, ◌*ℤ◌, ◌+ℤ◌, ◌≤ℤ◌, ◌<ℤ◌, *ℤ-pos_parts, pos_mul, leb_ℤ→le, leb_ℤ→gt, leb_ℤ,
  int64_max,
}
use feemarket.Prelude.Outcome.Partial.{◌>>=◌, >>=-eq-some}
use mathlib.Core.Option.{some-injective}
use feemarket.Math.{Math}
use feemarket.Math.Laws.{MathLaws, unit}
use feemarket.Sdk.{Coin, DecCoin}
use feemarket.Ante.{clamp_priority, effective_priority, get_tx_priority}

module _ ⦃m : Math⦄ (l : MathLaws) where
  open l use {raw, int}

  -- The integer that `clamp_priority` gives for a scaled price: the whole part of it, with 0 in place of
  -- what is at most 1 and the largest int64 in place of what is at least that.
  abbrev pub IsPriority : m.LegacyDec → ℤ → Type 0
  IsPriority scaled n =
      (pos 0 ≤ℤ n)
      × (n ≤ℤ pos int64_max)
      × (raw scaled ≤ℤ pos unit → n ≡ pos 0)
      × (pos unit <ℤ raw scaled
          → raw scaled <ℤ pos (int64_max * unit)
          → (n *ℤ pos unit ≤ℤ raw scaled) × (raw scaled <ℤ n *ℤ pos unit +ℤ pos unit))
      × (pos (int64_max * unit) ≤ℤ raw scaled → n ≡ pos int64_max)

  -- A whole number whose decimal lies below that of the largest int64.
  whole_le :
      (x n : ℤ) → n *ℤ pos unit ≤ℤ x → pos 0 ≤ℤ n → x <ℤ pos (int64_max * unit) → n ≤ℤ pos int64_max
  whole_le x n h k b = omega (arith, *ℤ-pos_parts n unit)

  clamp_priority-IsPriority :
      (scaled : m.LegacyDec) {n : ℤ} → clamp_priority scaled ≡ some n → IsPriority scaled n
  clamp_priority-IsPriority scaled {n} e =
      let (high, e1, e) = >>=-eq-some (m.gte scaled (m.new_dec (pos int64_max))) _ e in
      let top : high ≡ leb_ℤ (pos (int64_max * unit)) (raw scaled) =
        l.gte_value scaled (m.new_dec (pos int64_max)) e1
        ∙ ap (λ v. leb_ℤ v (raw scaled))
            (l.new_dec_value (pos int64_max) ∙ pos_mul int64_max unit) in
      by_bounds high top e
    where
      rest :
          (low : Bool)
          → low ≡ leb_ℤ (raw scaled) (pos unit)
          → raw scaled <ℤ pos (int64_max * unit)
          → (if low then some (pos 0) else m.truncate_int64 scaled) ≡ some n
          → IsPriority scaled n
      rest true t below e =
          let le = leb_ℤ→le (raw scaled) (pos unit) (sym t) in
          rw (← some-injective _ _ e) (
            omega arith,
            omega arith,
            λ _. refl,
            λ h k. absurd (omega (arith, le)),
            λ h. absurd (omega arith),
          )
      rest false t below e =
          let gt = leb_ℤ→gt (raw scaled) (pos unit) (sym t) in
          let (nonneg, lower, upper) = l.truncate_int64_value scaled e (omega (arith, gt)) in
          (
            nonneg,
            whole_le (raw scaled) n lower nonneg below,
            λ h. absurd (omega (arith, gt)),
            λ _ _. (lower, upper),
            λ h. absurd (omega arith),
          )

      by_bounds :
          (high : Bool)
          → high ≡ leb_ℤ (pos (int64_max * unit)) (raw scaled)
          → (if high
              then some (pos int64_max)
              else (m.lte scaled m.one_dec >>= λ low.
                  if low then some (pos 0) else m.truncate_int64 scaled))
            ≡ some n
          → IsPriority scaled n
      by_bounds true t e =
          let le = leb_ℤ→le (pos (int64_max * unit)) (raw scaled) (sym t) in
          rw (← some-injective _ _ e) (
            omega arith,
            omega arith,
            λ h. absurd (omega (arith, le)),
            λ h k. absurd (omega (arith, le)),
            λ _. refl,
          )
      by_bounds false t e =
          let (low, e2, e) = >>=-eq-some (m.lte scaled m.one_dec) _ e in
          rest low (l.lte_value scaled m.one_dec e2 ∙ ap (leb_ℤ (raw scaled)) l.one_dec_value)
            (leb_ℤ→gt (pos (int64_max * unit)) (raw scaled) (sym t)) e

  -- The priority for a gas price that is not zero: the fee's amount over the gas limit and over the
  -- price, times a million, as a whole number in the range of an int64.
  abbrev pub IsScaledPriority : Coin → ℤ → DecCoin → ℤ → Type 0
  IsScaledPriority fee limit price n =
      (amount effective normalized scaled : m.LegacyDec) × (m.to_dec fee.amount ≡ some amount)
      × (m.quo_int64 amount limit ≡ some effective)
      × (m.quo effective price.dec_amount ≡ some normalized)
      × (m.mul_int64 normalized (pos 1_000_000) ≡ some scaled)
      × IsPriority scaled n

  effective_priority_lem :
      (fee : Coin) (limit : ℤ) (price : DecCoin) {n : ℤ}
      → effective_priority fee limit price ≡ some n
      → (raw price.dec_amount ≡ pos 0 → int fee.amount ≡ n)
        × (raw price.dec_amount ≢ pos 0 → IsScaledPriority fee limit price n)
  effective_priority_lem fee limit price {n} e =
      let (free, z, e) = >>=-eq-some (m.is_zero price.dec_amount) _ e in by_free free z e
    where
      scaled_lem :
          {n : ℤ}
          → (m.to_dec fee.amount >>= λ amount. m.quo_int64 amount limit >>= λ effective.
              m.quo effective price.dec_amount >>= λ normalized.
              m.mul_int64 normalized (pos 1_000_000) >>= clamp_priority)
            ≡ some n
          → IsScaledPriority fee limit price n
      scaled_lem e =
          let (amount, e1, e) = >>=-eq-some (m.to_dec fee.amount) _ e in
          let (effective, e2, e) = >>=-eq-some (m.quo_int64 amount limit) _ e in
          let (normalized, e3, e) = >>=-eq-some (m.quo effective price.dec_amount) _ e in
          let (scaled, e4, e) = >>=-eq-some (m.mul_int64 normalized (pos 1_000_000)) _ e in
          (
            amount,
            effective,
            normalized,
            scaled,
            e1,
            e2,
            e3,
            e4,
            clamp_priority-IsPriority scaled e,
          )

      false_ne : false ≡ true → ⊥
      false_ne h = cc

      by_free :
          (free : Bool)
          → m.is_zero price.dec_amount ≡ some free
          → (if free
              then m.to_int64 fee.amount
              else (m.to_dec fee.amount >>= λ amount. m.quo_int64 amount limit >>= λ effective.
                  m.quo effective price.dec_amount >>= λ normalized.
                  m.mul_int64 normalized (pos 1_000_000) >>= clamp_priority))
            ≡ some n
          → (raw price.dec_amount ≡ pos 0 → int fee.amount ≡ n)
            × (raw price.dec_amount ≢ pos 0 → IsScaledPriority fee limit price n)
      by_free true z e = (
        λ _. l.to_int64_value fee.amount e,
        λ nonzero. absurd (nonzero ((l.is_zero_value price.dec_amount z).0 refl)),
      )
      by_free false z e = (
        λ zero. absurd (false_ne ((l.is_zero_value price.dec_amount z).1 zero)),
        λ _. scaled_lem e,
      )

  -- Where GetTxPriority returns: the priority is 0 without a gas limit, and the amount of the fee
  -- where the gas price is zero. Otherwise it is the whole part of the fee over the limit and over
  -- the price, times a million, between 0 and the largest int64: 0 if that is at most 1, and the
  -- largest int64 if it is at least that.
  pub get_tx_priority-IsPriority :
      (fee : Coin) (limit : ℤ) (price : DecCoin) {n : ℤ}
      → get_tx_priority fee limit price ≡ some n
      → (limit ≡ pos 0 → n ≡ pos 0)
        × (limit ≢ pos 0 → raw price.dec_amount ≡ pos 0 → int fee.amount ≡ n)
        × (limit ≢ pos 0 → raw price.dec_amount ≢ pos 0 → IsScaledPriority fee limit price n)
  unfolding get_tx_priority
  get_tx_priority-IsPriority fee (pos zero) price e =
      (λ _. sym (some-injective _ _ e), λ h. absurd (h refl), λ h. absurd (h refl))
  get_tx_priority-IsPriority fee (pos (suc g)) price e =
      let (free, priced) = effective_priority_lem fee (pos (suc g)) price e in
      (λ h. absurd (suc_ne h), λ _. free, λ _. priced)
    where
      suc_ne : pos (suc g) ≡ pos 0 → ⊥
      suc_ne h = cc
  get_tx_priority-IsPriority fee (negsuc g) price e =
      let (free, priced) = effective_priority_lem fee (negsuc g) price e in
      (λ h. absurd (negsuc_ne h), λ _. free, λ _. priced)
    where
      negsuc_ne : negsuc g ≡ pos 0 → ⊥
      negsuc_ne h = cc
