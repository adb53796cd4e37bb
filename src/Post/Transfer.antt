-- ===== src/Post/Transfer.antt =====
-- What `PostHandle` of x/feemarket/post/fee.go moves between accounts when it settles a transaction.
use feemarket.Prelude.{
  ◌≡◌, sym, ap, ◌∙◌, String, Bool, true, false, [], ◌∷◌, inl, inr, if◌then◌else◌, Bool-cases,
}
use feemarket.Prelude.Int.{ℤ, pos, int_laws, int64_of_uint64}
use feemarket.Prelude.Outcome.{ok, or_panic}
use feemarket.Prelude.Outcome.Action.{Action, pure, lift, >>=-returned}
use feemarket.Math.{Math}
use feemarket.Math.Laws.{MathLaws}
use feemarket.Sdk.{Sdk, Coin, Coins, DecCoin}
use feemarket.Sdk.Laws.{StoreLaws}
use feemarket.Sdk.Bank.{BankLaws, transferred, worth}
use feemarket.Sdk.Bank.Keeps.{
  Keeps, Keeps-pure, Keeps-lift, Keeps-if, Keeps-bind, Keeps-at, Moves, SameBalances,
  SameBalances-trans,
}
use feemarket.Codec.{Codec, CodecLaws}
use feemarket.Params.{Params}
use feemarket.State.{State, update}
use feemarket.Keeper.{Keeper, key_params, key_state, get_params, get_state, set_state}
use feemarket.Keeper.Store.{HoldsParams, HoldsState, SameStore, get_params_lem, get_state_lem}
use feemarket.Keeper.Balances.{
  QuietResolver, ReadingResolver, get_params-Keeps, get_state-Keeps, set_state-Keeps,
  get_min_gas_price-Keeps, get_min_gas_price-SameStore,
}
use feemarket.Keeper.Market.{get_min_gas_price}
use feemarket.Ante.{check_tx_fee, check_fee_coins, pay_coin_of, coin_is_nil, fee_collector}
use feemarket.Ante.Charge.{one_coin, pay_coin_first, some_of_panic}
use feemarket.Post.{
  settle, split_fee, pay_out_fee_and_tip, pay_coin, deduct_coins, send_tip, auth_fee_collector,
}

-- A transfer of nothing.
transferred_none :
    ⦃m : Math⦄ (l : MathLaws) (is_sender is_receiver : Bool) (balance : ℤ)
    → transferred l is_sender is_receiver (pos 0) balance ≡ balance
transferred_none l true true v = omega int_laws
transferred_none l true false v = omega int_laws
transferred_none l false true v = omega int_laws
transferred_none l false false v = omega int_laws

module _ ⦃m : Math⦄ ⦃s : Sdk⦄ (l : MathLaws) (b : BankLaws l) where
  -- A coin that has been paid by a transfer.
  pay_coin-moved :
      (coin : Coin) (send : Coins → Action s.Ctx (Unit {0})) (from to : s.Addr) (x y : s.Ctx)
      → ((cs : Coins) (z u : s.Ctx) → send cs z ≡ (ok tt, u) → Moves l b z u from to cs)
      → pay_coin coin send x ≡ (ok tt, y)
      → (a : s.Addr) (d : String)
      → b.balance y a d
        ≡ transferred l (s.addr_eq a from) (s.addr_eq a to) (worth l coin d) (b.balance x a d)
  unfolding pay_coin
  pay_coin-moved coin send from to x y moves done a d = elim (Bool-cases (coin_is_nil coin)) [
    | inl nil ↦
        let same : x ≡ y = ap (λ o. o.1) (rw nil at done) in
        rw nil (
          ap (λ z. b.balance z a d) (sym same)
          ∙ sym (transferred_none l (s.addr_eq a from) (s.addr_eq a to) (b.balance x a d)))
    | inr some_amount ↦
        let (cs, z, is_cs, sent) =
          >>=-returned (lift (or_panic (s.new_coins coin))) send x (rw some_amount at done) in
        let same : x ≡ z = ap (λ o. o.1) is_cs in
        let (_, total) =
          b.new_coins_total coin (some_of_panic (s.new_coins coin) (ap (λ o. o.0) is_cs)) in
        rw some_amount (
          moves cs x y (ap (send cs) same ∙ sent) a d
          ∙ ap (λ n. transferred l (s.addr_eq a from) (s.addr_eq a to) n (b.balance x a d))
              (total d))
  ]

  pay_coin-Keeps :
      (coin : Coin) (send : Coins → Action s.Ctx (Unit {0})) (x y : s.Ctx)
      → ((cs : Coins) → Keeps l b (send cs))
      → pay_coin coin send x ≡ (ok tt, y)
      → SameBalances l b x y
  unfolding pay_coin
  pay_coin-Keeps coin send x y quiet done =
      Keeps-at l b (pay_coin coin send) x
        (Keeps-if l b (coin_is_nil coin) (pure tt) _ (Keeps-pure l b tt) (
          Keeps-bind l b (lift (or_panic (s.new_coins coin))) send
            (Keeps-lift l b (or_panic (s.new_coins coin))) quiet))
        done

  -- The balances once a fee has been paid out: to the fee collector of the chain, or to nobody.
  abbrev pub distributed : Bool → s.Addr → ℤ → ℤ → ℤ
  distributed distribute_fees a fee balance =
      if distribute_fees
      then transferred l (s.addr_eq a (b.module_address fee_collector))
          (s.addr_eq a (b.module_address auth_fee_collector)) fee balance
      else balance

  pay_fee-moved :
      (distribute_fees : Bool) (fee : Coin) (x y : s.Ctx)
      → pay_coin fee (λ coins. deduct_coins coins distribute_fees) x ≡ (ok tt, y)
      → (a : s.Addr) (d : String)
      → b.balance y a d ≡ distributed distribute_fees a (worth l fee d) (b.balance x a d)
  unfolding deduct_coins
  pay_fee-moved true fee x y done =
      pay_coin-moved fee (λ coins. deduct_coins coins true) (b.module_address fee_collector)
        (b.module_address auth_fee_collector) x y
        (b.module_to_module_moves fee_collector auth_fee_collector) done
  pay_fee-moved false fee x y done =
      pay_coin-Keeps fee (λ coins. deduct_coins coins false) x y (λ cs. Keeps-pure l b tt) done

  -- The balances of all accounts once a fee and then a tip have been paid out.
  abbrev pub PaysOut : s.Ctx → s.Ctx → Bool → s.Addr → Coin → Coin → Type 0
  PaysOut x y distribute_fees proposer fee tip =
      (a : s.Addr) (d : String)
      → b.balance y a d
        ≡ transferred l (s.addr_eq a (b.module_address fee_collector)) (s.addr_eq a proposer)
            (worth l tip d) (distributed distribute_fees a (worth l fee d) (b.balance x a d))

module _ ⦃m : Math⦄ ⦃s : Sdk⦄ ⦃c : Codec⦄ (l : MathLaws) (b : BankLaws l) (w : StoreLaws)
    (e : CodecLaws) where
  -- Stored parameters in a context whose store is the same.
  held_after :
      (p : Params) {x y : s.Ctx} → SameStore w e x y → HoldsParams w e x p → HoldsParams w e y p
  held_after p (same, _) (bytes, held, decodes) = (bytes, same key_params ∙ held, decodes)

  pay_out-PaysOut :
      (p : Params) (fee tip : Coin) (x y : s.Ctx)
      → HoldsParams w e x p
      → pay_out_fee_and_tip fee tip x ≡ (ok tt, y)
      → (z : s.Ctx) × PaysOut l b x y p.distribute_fees (s.proposer z) fee tip
  unfolding pay_out_fee_and_tip
  pay_out-PaysOut p fee tip x y held done =
      let (x1, gets_p, _) = get_params_lem w e x p held in
      let (_, x2, pays_fee, done) =
        >>=-returned (pay_coin fee (λ coins. deduct_coins coins p.distribute_fees)) _ x1
          (rw gets_p at done) in
      let start = Keeps-at l b get_params x (get_params-Keeps l b) gets_p in
      (
        x2,
        λ a d.
            pay_coin-moved l b tip (send_tip (s.proposer x2)) (b.module_address fee_collector)
              (s.proposer x2) x2 y (b.module_to_account_moves fee_collector (s.proposer x2)) done a
              d
            ∙ ap
                (transferred l (s.addr_eq a (b.module_address fee_collector))
                  (s.addr_eq a (s.proposer x2)) (worth l tip d))
                (pay_fee-moved l b p.distribute_fees fee x1 x2 pays_fee a d
                  ∙ ap (distributed l b p.distribute_fees a (worth l fee d)) (start a d)),
      )

  -- The split of a fee coin reads, and asks CheckTxFee under a gas price of its denomination.
  split_fee-checked :
      (k : Keeper) (p : Params) (t : State) (tx : s.Tx) (fee paid tip : Coin) (x y : s.Ctx)
      → QuietResolver l b k
      → ReadingResolver w e k
      → HoldsParams w e x p
      → HoldsState w e x t
      → s.get_fee tx ≡ fee ∷ []
      → split_fee k p tx false x ≡ (ok (paid, tip), y)
      → SameBalances l b x y
        × SameStore w e x y
        × (price : DecCoin) × (get_min_gas_price k fee.denom x ≡ (ok price, y))
        × (check_tx_fee y price fee (int64_of_uint64 (s.get_gas tx)) false ≡ ok (paid, tip))
  unfolding split_fee
  split_fee-checked k p t tx fee paid tip x y quiet reads held held_t one done =
      let (_, x1, zero_tip, done) =
        >>=-returned (lift (or_panic (s.new_coin p.fee_denom (m.new_int (pos 0))))) _ x done in
      let (coin, x2, pays, done) =
        >>=-returned (lift (pay_coin_of p.fee_denom (s.get_fee tx) false)) _ x1 done in
      let coin_is = pay_coin_first p.fee_denom (s.get_fee tx) fee coin one (ap (λ o. o.0) pays) in
      let same : x2 ≡ x = sym (ap (λ o. o.1) zero_tip ∙ ap (λ o. o.1) pays) in
      let (price, x3, prices, done) = >>=-returned (get_min_gas_price k coin.denom) _ x2 done in
      let at_y : x3 ≡ y = ap (λ o. o.1) done in
      let asked : get_min_gas_price k fee.denom x ≡ (ok price, y) =
        rw (same, coin_is, at_y) at prices in
      (
        Keeps-at l b (get_min_gas_price k fee.denom) x
            (get_min_gas_price-Keeps l b k fee.denom quiet) asked,
        get_min_gas_price-SameStore w e k fee.denom p t x reads held held_t asked,
        price,
        asked,
        rw (coin_is, at_y) at (ap (λ o. o.0) done),
      )

  -- Placeholder.
  pub settle-PaysOut :
      (k : Keeper) (p : Params) (t : State) (tx : s.Tx) (x y : s.Ctx)
      → QuietResolver l b k
      → ReadingResolver w e k
      → HoldsParams w e x p
      → HoldsState w e x t
      → settle k p tx false x ≡ (ok tt, y)
      → (fee paid tip : Coin) × (price : DecCoin) × (u v z : s.Ctx) × (s.get_fee tx ≡ fee ∷ [])
        × (get_min_gas_price k fee.denom u ≡ (ok price, v))
        × (check_tx_fee v price fee (int64_of_uint64 (s.get_gas tx)) false ≡ ok (paid, tip))
        × PaysOut l b x y p.distribute_fees (s.proposer z) paid tip
  unfolding settle
  settle-PaysOut k p t tx x y quiet reads held held_t done =
      let (x1, gets_t, (same, still)) = get_state_lem w e x t held_t in
      let (_, x2, coins, done) =
        >>=-returned (lift (check_fee_coins (s.get_fee tx) false)) _ x1 (rw gets_t at done) in
      let at_x1 : x1 ≡ x2 = ap (λ o. o.1) coins in
      let (fee, one) = one_coin (s.get_fee tx) (ap (λ o. o.0) coins) in
      let (parts, x3, splits, done) = >>=-returned (split_fee k p tx false) _ x2 done in
      let held_x1 = held_after p (same, still) held in
      let (bytes, held_b, decodes) = held_t in
      let (still_b, same_s, price, asked, checked) =
        split_fee-checked k p t tx fee parts.0 parts.1 x1 x3 quiet reads held_x1
          (bytes, same key_state ∙ held_b, decodes) one
          (ap (split_fee k p tx false) at_x1 ∙ splits) in
      let (_, x4, pays, done) = >>=-returned (pay_out_fee_and_tip parts.0 parts.1) _ x3 done in
      let (z, paid_out) =
        pay_out-PaysOut p parts.0 parts.1 x3 x4 (held_after p same_s held_x1) pays in
      let (updated, x5, updates, done) =
        >>=-returned (lift (update t (s.gas_consumed x1) p)) _ x4 done in
      let (_, x6, sets, done) = >>=-returned (set_state updated) _ x5 done in
      let start : SameBalances l b x x3 =
        SameBalances-trans l b (Keeps-at l b get_state x (get_state-Keeps l b) gets_t) still_b in
      let rest : SameBalances l b x4 y = λ a d.
        ap (λ u. b.balance u a d) (sym (ap (λ o. o.1) done))
        ∙ Keeps-at l b (set_state updated) x5 (set_state-Keeps l b updated) sets a d
        ∙ ap (λ u. b.balance u a d) (sym (ap (λ o. o.1) updates)) in
      (
        fee,
        parts.0,
        parts.1,
        price,
        x1,
        x3,
        z,
        one,
        asked,
        checked,
        λ a d.
            rest a d
            ∙ paid_out a d
            ∙ ap
                (λ v.
                  transferred l (s.addr_eq a (b.module_address fee_collector))
                    (s.addr_eq a (s.proposer z)) (worth l parts.1 d)
                    (distributed l b p.distribute_fees a (worth l parts.0 d) v))
                (start a d),
      )
