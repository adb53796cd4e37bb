-- ===== src/Ante/Fee.antt =====
-- The fee check `CheckTxFee` of x/feemarket/ante/fee.go.
use native.Mathlib.Nat.{mul_assoc}
use feemarket.Prelude.{
  ℕ, ◌*◌, ◌≤◌, ◌≡◌, ◌≢◌, refl, sym, ◌∙◌, ap, inl, inr, Bool, true, false, some, arith, Option-cases,
  if◌then◌else◌,
}
use feemarket.Prelude.Int.{
  ℤ, pos, pos_part, neg_part, ◌+ℤ◌, ◌-ℤ◌, ◌*ℤ◌, ◌≤ℤ◌, ◌<ℤ◌, *ℤ-pos_parts, eq_of_parts, pos_mul,
  ≤ℤ_antisymm, leb_ℤ→le, leb_ℤ→gt, int64_max, int64_of_uint64,
}
use feemarket.Prelude.Outcome.{Outcome, ok, err, panic, or_panic, insufficient_fee}
use feemarket.Prelude.Outcome.Pure
use feemarket.Prelude.Outcome.Partial.{>>=-eq-some}
use feemarket.Math.{Math}
use feemarket.Math.Laws.{MathLaws, Rounds, unit}
use feemarket.Math.Order.{Rounds-le, Rounds-ge}
use feemarket.Sdk.{Sdk, Coin, DecCoin}
use feemarket.Sdk.Laws.{CoinLaws}
use feemarket.Ante.{gas_cost, check_tx_fee}

mul_scale : (a : ℤ) (g u : ℕ) → a *ℤ pos (g * u) ≡ a *ℤ pos g *ℤ pos u
mul_scale a g u =
    let (p, q) = *ℤ-pos_parts a g in
    omega (
      arith,
      eq_of_parts (a *ℤ pos (g * u)) (a *ℤ pos g *ℤ pos u),
      *ℤ-pos_parts a (g * u),
      *ℤ-pos_parts (a *ℤ pos g) u,
      ap (λ n. n * u) p,
      ap (λ n. n * u) q,
      mul_assoc (pos_part a) g u,
      mul_assoc (neg_part a) g u,
    )

module _ ⦃m : Math⦄ ⦃s : Sdk⦄ (l : MathLaws) (n : CoinLaws l) where
  open l use {raw, int}

  -- The coin is the price of the gas, rounded up to a whole number, in the denomination of the price.
  pub record IsCost (price : DecCoin) (gas : ℕ) (coin : Coin) : Type 0 where
    pub enough : raw price.dec_amount *ℤ pos gas ≤ℤ int coin.amount *ℤ pos unit
    pub least : int coin.amount *ℤ pos unit <ℤ raw price.dec_amount *ℤ pos gas +ℤ pos unit
    pub same_denom : coin.denom ≡ price.dec_denom

  -- A product by a whole number is exact.
  mul_whole :
      (a : m.LegacyDec) (g : ℕ) {c : m.LegacyDec}
      → m.mul a (m.new_dec (pos g)) ≡ some c
      → raw c ≡ raw a *ℤ pos g
  mul_whole a g {c} e =
      let value : raw a *ℤ raw (m.new_dec (pos g)) ≡ raw a *ℤ pos g *ℤ pos unit =
        rw (l.new_dec_value, pos_mul) (mul_scale (raw a) g unit) in
      let r : Rounds (raw c) (raw a *ℤ pos g *ℤ pos unit) (pos unit) =
        rw value at (l.mul_value a (m.new_dec (pos g)) e) in
      ≤ℤ_antisymm (raw c) (raw a *ℤ pos g)
        (Rounds-le (raw c) _ unit (raw a *ℤ pos g) r (omega arith))
        (Rounds-ge (raw c) _ unit (raw a *ℤ pos g) r (omega arith))

  gas_cost-IsCost :
      (price : DecCoin) (g : ℕ) {coin : Coin}
      → gas_cost price (pos g) ≡ some coin
      → IsCost price g coin
  unfolding gas_cost
  gas_cost-IsCost price g {coin} e =
      let (product, e1, e) = >>=-eq-some (m.mul price.dec_amount (m.new_dec (pos g))) _ e in
      let (whole, e2, e) = >>=-eq-some (m.ceil product) _ e in
      let (amount, e3, e) = >>=-eq-some (m.round_int whole) _ e in
      let (k, multiple, above, below) = l.ceil_value product e2 in
      let value = l.round_int_value whole k e3 multiple in
      let (denom, same) = n.new_coin_value price.dec_denom amount e in
      let total : int coin.amount *ℤ pos unit ≡ raw whole = rw (same, value) (sym multiple) in
      let exact = mul_whole price.dec_amount g e1 in
      record {
        enough = rw (total, ← exact) above;
        least = rw (total, ← exact) below;
        same_denom = denom;
      }

  -- What `CheckTxFee` has done, by cases on its result. With a price of zero the fee is paid whole, with
  -- no tip. Otherwise the fee covers the cost of the gas limit; what is paid is the cost of that limit
  -- before the transaction and of the gas consumed after it; and the tip is the rest of the fee.
  -- It refuses only a fee below the cost of the gas limit.
  abbrev pub CheckEffect : s.Ctx → DecCoin → Coin → ℕ → Bool → Outcome (Coin × Coin) → Type 0
  CheckEffect ctx price fee limit is_ante (ok (paid, tip)) =
      (raw price.dec_amount ≡ pos 0 → (paid ≡ fee) × (tip ≡ s.empty_coin))
      × (raw price.dec_amount ≢ pos 0
          → (required : Coin) × IsCost price limit required
            × (int required.amount ≤ℤ int fee.amount)
            × IsCost price (if is_ante then limit else s.gas_consumed ctx) paid
            × (int tip.amount ≡ int fee.amount -ℤ int paid.amount)
            × (tip.denom ≡ fee.denom))
  CheckEffect ctx price fee limit is_ante (err e) =
      (e ≡ insufficient_fee)
      × (required : Coin) × IsCost price limit required
      × (int fee.amount <ℤ int required.amount)
  CheckEffect ctx price fee limit is_ante panic = Unit {0}

  module _ (ctx : s.Ctx) (price : DecCoin) (fee : Coin) (limit : ℕ)
      (consumed_le : s.gas_consumed ctx ≤ int64_max) where
    -- The cost of the gas consumed, which fits an int64.
    consumed-IsCost :
        {coin : Coin}
        → gas_cost price (int64_of_uint64 (s.gas_consumed ctx)) ≡ some coin
        → IsCost price (s.gas_consumed ctx) coin
    consumed-IsCost {coin} e =
        gas_cost-IsCost price (s.gas_consumed ctx) (ap (gas_cost price) whole ∙ e)
      where
        whole : pos (s.gas_consumed ctx) ≡ int64_of_uint64 (s.gas_consumed ctx)
        whole = ground (arith, consumed_le)

    -- The branch of `CheckTxFee` for a price that is not zero, once both costs are known.
    charged :
        (is_ante : Bool) (used need : Coin)
        → m.is_zero price.dec_amount ≡ some false
        → gas_cost price (int64_of_uint64 (s.gas_consumed ctx)) ≡ some used
        → gas_cost price (pos limit) ≡ some need
        → CheckEffect ctx price fee limit is_ante (
            Pure.◌>>=◌ (or_panic (s.is_gte fee need)) λ enough.
              if enough
              then (let paid = if is_ante then need else used in
                  Pure.◌>>=◌ (or_panic (s.sub_coin fee paid)) λ tip. ok (paid, tip))
              else err insufficient_fee)
    charged is_ante used need z c r =
        let costs = gas_cost-IsCost price limit r in
        let paid = if is_ante then need else used in
        elim (Option-cases (s.is_gte fee need)) [
          | inl p ↦ rw p tt
          | inr (false, g) ↦ rw g (
            refl,
            need,
            costs,
            leb_ℤ→gt (int need.amount) (int fee.amount) (sym (n.is_gte_value fee need g)),
          )
          | inr (true, g) ↦ elim (Option-cases (s.sub_coin fee paid)) [
            | inl p ↦ rw (g, p) tt
            | inr (tip, e) ↦
                rw (g, e)
                  (
                    λ zero. absurd (false_ne ((l.is_zero_value price.dec_amount z).1 zero)),
                    λ _. (
                      need,
                      costs,
                      leb_ℤ→le (int need.amount) (int fee.amount) (sym (n.is_gte_value fee need g)),
                      paid_cost is_ante costs (consumed-IsCost c),
                      (n.sub_coin_value fee paid e).1,
                      (n.sub_coin_value fee paid e).0,
                    ),
                  )
          ]
        ]
      where
        false_ne : false ≡ true → ⊥
        false_ne h = cc

        paid_cost :
            (b : Bool)
            → IsCost price limit need
            → IsCost price (s.gas_consumed ctx) used
            → IsCost price (if b then limit else s.gas_consumed ctx) (if b then need else used)
        paid_cost true h k = h
        paid_cost false h k = k

    -- CheckTxFee by cases on its result, where the gas consumed fits an int64 and the gas limit is
    -- not negative. With a price of zero the fee is paid whole, with no tip. Otherwise a fee that
    -- is accepted covers the cost of the gas limit, the price of it rounded up; what is paid is the
    -- cost of that limit before the transaction and of the gas consumed after it, and the tip is
    -- the rest of the fee. The only error is that of a fee below the cost of the gas limit.
    pub check_tx_fee-CheckEffect :
        (is_ante : Bool)
        → CheckEffect ctx price fee limit is_ante (check_tx_fee ctx price fee (pos limit) is_ante)
    unfolding check_tx_fee
    check_tx_fee-CheckEffect is_ante =
        let consumed = gas_cost price (int64_of_uint64 (s.gas_consumed ctx)) in
        let required = gas_cost price (pos limit) in
        elim (Option-cases (m.is_zero price.dec_amount)) [
          | inl p ↦ rw p tt
          | inr (true, z) ↦ rw z (
            λ _. (refl, refl),
            λ nonzero. absurd (nonzero ((l.is_zero_value price.dec_amount z).0 refl)),
          )
          | inr (false, z) ↦ elim (Option-cases consumed) [
            | inl p ↦ rw (z, p) tt
            | inr (used, c) ↦ elim (Option-cases required) [
              | inl p ↦ rw (z, c, p) tt
              | inr (need, r) ↦ rw (z, c, r) (charged is_ante used need z c r)
            ]
          ]
        ]
