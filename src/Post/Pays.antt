-- ===== src/Post/Pays.antt =====
-- What `PostHandle` of x/feemarket/post/fee.go pays out on an enabled market, past its early returns.
use feemarket.Prelude.{◌≡◌, ◌≢◌, sym, ap, ◌∙◌, Bool, true, false, [], ◌∷◌, if◌then◌else◌, arith}
use feemarket.Prelude.Int.{ℤ, pos, ◌<ℤ◌, leb_ℤ, int64_of_uint64}
use feemarket.Prelude.Outcome.{Outcome, ok, tx_decode, invalid_gas_limit}
use feemarket.Prelude.Outcome.Action.{Action, pure, raise, >>=-returned}
use feemarket.Math.{Math}
use feemarket.Math.Laws.{MathLaws}
use feemarket.Sdk.{Sdk, Coin, DecCoin}
use feemarket.Sdk.Laws.{StoreLaws}
use feemarket.Sdk.Bank.{BankLaws, transferred, worth}
use feemarket.Sdk.Bank.Keeps.{Keeps-at, SameBalances, SameBalances-trans}
use feemarket.Codec.{Codec, CodecLaws}
use feemarket.Params.{Params}
use feemarket.State.{State}
use feemarket.Keeper.{
  Keeper, key_params, key_state, key_enabled_height, get_params, get_enabled_height,
}
use feemarket.Keeper.Store.{
  HoldsParams, HoldsState, HoldsHeight, SameStore, get_params_lem, get_enabled_height_lem,
}
use feemarket.Keeper.Balances.{
  QuietResolver, ReadingResolver, get_params-Keeps, get_enabled_height-Keeps,
}
use feemarket.Keeper.Market.{get_min_gas_price}
use feemarket.Ante.{check_tx_fee, no_gas, fee_collector}
use feemarket.Ante.Charge.{guard_passed}
use feemarket.Ante.Handle.{not_zero_height, guard_passed', taken}
use feemarket.Post.{settle, settle_later, post_handle}
use feemarket.Post.Transfer.{PaysOut, distributed, settle-PaysOut}

lt→leb_ℤ : (a b : ℤ) → b <ℤ a → leb_ℤ a b ≡ false
lt→leb_ℤ a b h = ground arith

-- The second branch of a test that fails.
pub not_taken :
    {S : Type 0} (b : Bool) (f g : Action S (Unit {0})) (x : S) {r : Outcome (Unit {0}) × S}
    → b ≡ false
    → (if b then f else g) x ≡ r
    → g x ≡ r
not_taken false f g x e h = h
not_taken true f g x e h = cc

module _ ⦃m : Math⦄ ⦃s : Sdk⦄ ⦃c : Codec⦄ (w : StoreLaws) (e : CodecLaws) where
  -- What the store holds of the market: enabled parameters, a state, and a height below the block's.
  pub record IsOpen (x : s.Ctx) (p : Params) (t : State) : Type 0 where
    pub params_held : HoldsParams w e x p
    pub state_held : HoldsState w e x t
    pub enabled : p.enabled ≡ true
    pub since : ℤ
    pub since_held : HoldsHeight w e x since
    pub later : since <ℤ s.block_height x
    pub not_genesis : s.block_height x ≢ pos 0

module _ ⦃m : Math⦄ ⦃s : Sdk⦄ ⦃c : Codec⦄ (l : MathLaws) (b : BankLaws l) (w : StoreLaws)
    (e : CodecLaws) where
  -- What a settled transaction has paid, by the check of its fee.
  pub record Settled (k : Keeper) (p : Params) (tx : s.Tx) (x y : s.Ctx) : Type 0 where
    pub fee : Coin
    pub paid : Coin
    pub tip : Coin
    pub price : DecCoin
    pub asked : s.Ctx
    pub checked : s.Ctx
    pub seen : s.Ctx
    pub one : s.get_fee tx ≡ fee ∷ []
    pub price_is : get_min_gas_price k fee.denom asked ≡ (ok price, checked)
    pub accepted :
        check_tx_fee checked price fee (int64_of_uint64 (s.get_gas tx)) false ≡ ok (paid, tip)
    pub pays : PaysOut l b x y p.distribute_fees (s.proposer seen) paid tip

  settle_later-settle :
      (k : Keeper) (p : Params) (tx : s.Tx) (x y : s.Ctx) (h : ℤ)
      → HoldsHeight w e x h
      → h <ℤ s.block_height x
      → settle_later k p tx false x ≡ (ok tt, y)
      → (u : s.Ctx) × SameStore w e x u
        × SameBalances l b x u
        × (settle k p tx false u ≡ (ok tt, y))
  unfolding settle_later
  settle_later-settle k p tx x y h held later done =
      let (u, reads, (same, still)) = get_enabled_height_lem w e x h held in
      (
        u,
        (same, still),
        Keeps-at l b get_enabled_height x (get_enabled_height-Keeps l b) reads,
        not_taken (leb_ℤ (s.block_height u) h) (pure tt) (settle k p tx false) u
            (lt→leb_ℤ (s.block_height u) h (rw still later)) (rw reads at done),
      )

  -- When PostHandle returns for a transaction outside a simulation, on an enabled market and in a
  -- later block than the one that enabled it, CheckTxFee has divided its one fee coin into fee and
  -- tip under a gas price of its denomination; every balance has changed by the tip, from the fee
  -- collector of the market to the proposer that the context then names, and, where fees are
  -- distributed, by the fee, from it to the fee collector of the chain, and by nothing else; and
  -- the next handler has run to the same end. The resolver moves no coins and leaves the store
  -- alone.
  pub post_handle-Settled :
      (k : Keeper) (p : Params) (t : State) (tx : s.Tx) (next : Action s.Ctx (Unit {0}))
      (x y : s.Ctx)
      → QuietResolver l b k
      → ReadingResolver w e k
      → IsOpen w e x p t
      → post_handle k tx false next x ≡ (ok tt, y)
      → (v : s.Ctx) × Settled k p tx x v × (next v ≡ (ok tt, y))
  unfolding post_handle
  post_handle-Settled k p t tx next x y quiet reads start done =
      let (_, x1, fee_tx, done) =
        >>=-returned (if s.is_fee_tx tx then pure tt else raise tx_decode) _ x
          (rw (not_zero_height (s.block_height x) start.not_genesis, post_handle) at done) in
      let (_, x2, gas, done) =
        >>=-returned (if no_gas tx false x then raise invalid_gas_limit else pure tt) _ x1 done in
      let at_x : x2 ≡ x = sym (
        guard_passed (s.is_fee_tx tx) tx_decode x x1 fee_tx
        ∙ guard_passed' (no_gas tx false x) invalid_gas_limit x1 x2 gas) in
      let (x3, gets_p, (same, still)) = get_params_lem w e x p start.params_held in
      let (_, x4, settles, nexts) =
        >>=-returned (if p.enabled then settle_later k p tx false else pure tt) _ x3
          (rw (at_x, gets_p) at done) in
      let (u, (same', still'), same_b, settled) =
        settle_later-settle k p tx x3 x4 start.since (same key_enabled_height ∙ start.since_held)
          (rw still start.later)
          (taken p.enabled (settle_later k p tx false) (pure tt) x3 start.enabled settles) in
      let (bytes_p, held_p, decodes_p) = start.params_held in
      let (bytes_t, held_t, decodes_t) = start.state_held in
      let (fee, paid, tip, price, asked, checked, seen, one, price_is, accepted, pays) =
        settle-PaysOut l b w e k p t tx u x4 quiet reads
          (bytes_p, same' key_params ∙ same key_params ∙ held_p, decodes_p)
          (bytes_t, same' key_state ∙ same key_state ∙ held_t, decodes_t) settled in
      let before : SameBalances l b x u =
        SameBalances-trans l b (Keeps-at l b get_params x (get_params-Keeps l b) gets_p) same_b in
      (
        x4,
        record {
          fee = fee;
          paid = paid;
          tip = tip;
          price = price;
          asked = asked;
          checked = checked;
          seen = seen;
          one = one;
          price_is = price_is;
          accepted = accepted;
          pays = λ a d.
              pays a d
              ∙ ap
                  (λ v.
                    transferred l (s.addr_eq a (b.module_address fee_collector))
                      (s.addr_eq a (s.proposer seen)) (worth l tip d)
                      (distributed l b p.distribute_fees a (worth l paid d) v))
                  (before a d);
        },
        nexts,
      )
