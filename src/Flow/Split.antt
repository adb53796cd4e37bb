-- ===== src/Flow/Split.antt =====
-- `CheckTxFee` of x/feemarket/ante/fee.go divides a fee coin and loses nothing of it.
use feemarket.Prelude.{
  ◌≡◌, refl, ap, String, Bool, true, false, some, inl, inr, if◌then◌else◌, str_eq, Option-cases,
}
use feemarket.Prelude.Int.{ℤ, pos, ◌+ℤ◌, ◌-ℤ◌, int_laws, int64_of_uint64}
use feemarket.Prelude.Outcome.{ok}
use feemarket.Prelude.Outcome.Partial.{>>=-eq-some}
use feemarket.Prelude.Outcome.Cases.{panic_ne, err_ne, ok_injective}
use feemarket.Math.{Math}
use feemarket.Math.Laws.{MathLaws}
use feemarket.Sdk.{Sdk, Coin, DecCoin}
use feemarket.Sdk.Laws.{CoinLaws}
use feemarket.Sdk.Bank.{BankLaws, amount_of, worth}
use feemarket.Ante.{gas_cost, check_tx_fee}

module _ ⦃m : Math⦄ ⦃s : Sdk⦄ (l : MathLaws) (n : CoinLaws l) (b : BankLaws l) where
  -- The cost of gas is a coin with an amount.
  gas_cost-is_some :
      (price : DecCoin) (gas : ℤ) {c : Coin}
      → gas_cost price gas ≡ some c
      → m.int_is_nil c.amount ≡ false
  unfolding gas_cost
  gas_cost-is_some price gas e =
      let (product, _, e) = >>=-eq-some (m.mul price.dec_amount (m.new_dec gas)) _ e in
      let (whole, _, e) = >>=-eq-some (m.ceil product) _ e in
      let (amount, _, e) = >>=-eq-some (m.round_int whole) _ e in
      b.new_coin_some price.dec_denom amount e

  empty_coin-worth : (d : String) → worth l s.empty_coin d ≡ pos 0
  empty_coin-worth d = elim b.empty_coin_worthless [
    | inl nil ↦ rw nil refl
    | inr zero_amount ↦
        by_tests (m.int_is_nil s.empty_coin.amount) (str_eq s.empty_coin.denom d) zero_amount
  ]
    where
      by_tests :
          (nil here : Bool) {v : ℤ}
          → v ≡ pos 0
          → (if nil then pos 0 else if here then v else pos 0) ≡ pos 0
      by_tests true here h = refl
      by_tests false true h = h
      by_tests false false h = refl

  -- The parts of a difference of coins.
  sub_coin-worth :
      (fee paid tip : Coin) (d : String)
      → m.int_is_nil paid.amount ≡ false
      → s.sub_coin fee paid ≡ some tip
      → worth l paid d +ℤ worth l tip d ≡ amount_of l fee d
  sub_coin-worth fee paid tip d some_paid e =
      let (some_tip, same) = b.sub_coin_some fee paid e in
      let (tip_denom, value) = n.sub_coin_value fee paid e in
      rw (some_paid, some_tip, tip_denom, ← same)
        (by_denom (str_eq fee.denom d) (l.int fee.amount) (l.int paid.amount) (l.int tip.amount)
          value)
    where
      by_denom :
          (here : Bool) (x y z : ℤ)
          → z ≡ x -ℤ y
          → (if here then y else pos 0) +ℤ (if here then z else pos 0) ≡ (if here then x else pos 0)
      by_denom true x y z h = rw h (omega int_laws)
      by_denom false x y z h = omega int_laws

  -- In every denomination, what is paid and the tip are together the fee.
  pub check_tx_fee-worth :
      (ctx : s.Ctx) (price : DecCoin) (fee : Coin) (gas : ℤ) (paid tip : Coin) (d : String)
      → m.int_is_nil fee.amount ≡ false
      → check_tx_fee ctx price fee gas false ≡ ok (paid, tip)
      → worth l paid d +ℤ worth l tip d ≡ amount_of l fee d
  unfolding check_tx_fee
  check_tx_fee-worth ctx price fee gas paid tip d some_fee done =
      elim (Option-cases (m.is_zero price.dec_amount)) [
        | inl stops ↦ panic_ne (rw stops at done)
        | inr (true, z) ↦
            let parts = ok_injective (rw z at done) in
            rw
              (
                ← ap (λ (q : Coin × Coin). q.0) parts,
                ← ap (λ (q : Coin × Coin). q.1) parts,
                some_fee,
                empty_coin-worth d,
              )
              (omega int_laws)
        | inr (false, z) ↦
            elim (Option-cases (gas_cost price (int64_of_uint64 (s.gas_consumed ctx)))) [
              | inl stops ↦ panic_ne (rw (z, stops) at done)
              | inr (used, c) ↦ elim (Option-cases (gas_cost price gas)) [
                | inl stops ↦ panic_ne (rw (z, c, stops) at done)
                | inr (need, r) ↦ elim (Option-cases (s.is_gte fee need)) [
                  | inl stops ↦ panic_ne (rw (z, c, r, stops) at done)
                  | inr (false, g) ↦ err_ne (rw (z, c, r, g) at done)
                  | inr (true, g) ↦ elim (Option-cases (s.sub_coin fee used)) [
                    | inl stops ↦ panic_ne (rw (z, c, r, g, stops) at done)
                    | inr (rest, e) ↦
                        let parts = ok_injective (rw (z, c, r, g, e) at done) in
                        rw
                          (
                            ← ap (λ (q : Coin × Coin). q.0) parts,
                            ← ap (λ (q : Coin × Coin). q.1) parts,
                          )
                          (sub_coin-worth fee used rest d
                            (gas_cost-is_some price (int64_of_uint64 (s.gas_consumed ctx)) c) e)
                  ]
                ]
              ]
            ]
      ]
