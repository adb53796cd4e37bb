-- ===== src/Flow/Collector.antt =====
-- The fee collector of x/feemarket over a transaction: what `AnteHandle` (ante/fee.go) brings in, and what
-- `PostHandle` (post/fee.go) pays out.
use feemarket.Prelude.{
  ◌≡◌, ◌≢◌, ◌⊎◌, refl, ap, ◌∙◌, String, Bool, true, false, some, [], ◌∷◌, inl, inr, if◌then◌else◌,
}
use feemarket.Prelude.Int.{ℤ, pos, pos_part, neg_part, ◌+ℤ◌, int_laws}
use feemarket.Prelude.Outcome.{ok}
use feemarket.Prelude.Outcome.Action.{pure}
use feemarket.Math.{Math}
use feemarket.Math.Laws.{MathLaws}
use feemarket.Sdk.{Sdk, Coin}
use feemarket.Sdk.Laws.{StoreLaws, CoinLaws}
use feemarket.Sdk.Bank.{BankLaws, amount_of, worth}
use feemarket.Codec.{Codec, CodecLaws}
use feemarket.Params.{Params}
use feemarket.State.{State}
use feemarket.Keeper.{Keeper}
use feemarket.Keeper.Store.{HoldsParams}
use feemarket.Keeper.Balances.{QuietResolver, ReadingResolver}
use feemarket.Ante.{Decorator, ante_handle, fee_collector}
use feemarket.Ante.Transfer.{Charged, ante_handle-Charged}
use feemarket.Post.{post_handle, auth_fee_collector}
use feemarket.Post.Pays.{IsOpen, Settled, post_handle-Settled}
use feemarket.Post.Transfer.{PaysOut}
use feemarket.Flow.Split.{check_tx_fee-worth}

-- What comes in is `f`, what goes out is its parts `p` and `t` but for what is kept.
net :
    (y x f z t p u kept : ℤ)
    → y ≡ x +ℤ f
    → z +ℤ t +ℤ p ≡ u +ℤ kept
    → p +ℤ t ≡ f
    → y +ℤ z ≡ x +ℤ u +ℤ kept
net y x f z t p u kept h k e = omega (
  int_laws,
  ap pos_part h,
  ap neg_part h,
  ap pos_part k,
  ap neg_part k,
  ap pos_part e,
  ap neg_part e,
)

module _ ⦃m : Math⦄ ⦃s : Sdk⦄ (l : MathLaws) (b : BankLaws l) where
  -- The account of the fee collector of the module.
  abbrev pub collector : s.Addr
  collector = b.module_address fee_collector

  -- The fee collector neither pays for the transaction nor proposes a block, and it is not the fee
  -- collector of the chain.
  pub record IsApart (tx : s.Tx) : Type 0 where
    pub not_payer : s.addr_eq collector (s.fee_payer tx) ≡ false
    pub not_granter : (a : s.Addr) → s.fee_granter tx ≡ some a → s.addr_eq collector a ≡ false
    pub not_proposer : (x : s.Ctx) → s.addr_eq collector (s.proposer x) ≡ false
    pub not_auth : s.addr_eq collector (b.module_address auth_fee_collector) ≡ false

  sender_apart :
      (tx : s.Tx) (a : s.Addr)
      → IsApart tx
      → (a ≡ s.fee_payer tx) ⊎ (s.fee_granter tx ≡ some a)
      → s.addr_eq collector a ≡ false
  sender_apart tx a apart (inl is_payer) = rw is_payer apart.not_payer
  sender_apart tx a apart (inr is_granter) = apart.not_granter a is_granter

  -- What the collector has once a transaction has been charged.
  pub Charged-collector :
      (tx : s.Tx) (fee : Coin) (x y : s.Ctx) (d : String)
      → IsApart tx
      → Charged l b tx fee x y
      → b.balance y collector d ≡ b.balance x collector d +ℤ amount_of l fee d
  Charged-collector tx fee x y d apart h =
      h.moves collector d
      ∙ rw
          (
            sender_apart tx h.account apart h.account_is,
            b.addr_eq_refl collector,
            (b.new_coins_total fee h.whole).1 d,
          )
          refl

  -- What the collector has once fee and tip have been paid out.
  PaysOut-collector :
      (tx : s.Tx) (x y z : s.Ctx) (distribute_fees : Bool) (fee tip : Coin) (d : String)
      → IsApart tx
      → PaysOut l b x y distribute_fees (s.proposer z) fee tip
      → b.balance y collector d +ℤ worth l tip d +ℤ worth l fee d
        ≡ b.balance x collector d +ℤ (if distribute_fees then pos 0 else worth l fee d)
  PaysOut-collector tx x y z true fee tip d apart pays =
      rw (pays collector d, b.addr_eq_refl collector, apart.not_proposer z, apart.not_auth)
        (omega int_laws)
  PaysOut-collector tx x y z false fee tip d apart pays =
      rw (pays collector d, b.addr_eq_refl collector, apart.not_proposer z) (omega int_laws)

  same_fee :
      (tx : s.Tx) (fee other : Coin)
      → s.get_fee tx ≡ fee ∷ []
      → s.get_fee tx ≡ other ∷ []
      → fee ≡ other
  same_fee tx fee other h k = cc

module _ ⦃m : Math⦄ ⦃s : Sdk⦄ ⦃c : Codec⦄ (l : MathLaws) (n : CoinLaws l) (b : BankLaws l)
    (w : StoreLaws) (e : CodecLaws) where
  -- Over a transaction that AnteHandle passes on an enabled market and that PostHandle settles
  -- later, outside a simulation, the balances of the fee collector in every denomination change in
  -- the two handlers, taken together, by nothing where fees are distributed, and by the fee for the
  -- gas consumed where they are not: whatever was escrowed is paid out, as fee and tip, to the last
  -- coin. Between the handlers any other calls may change the context. The fee collector is apart
  -- from the payer, the granter, the proposer and the fee collector of the chain, and the resolvers
  -- move no coins; that of PostHandle leaves the store alone too.
  pub post_handle-ante_handle :
      (d : Decorator) (k : Keeper) (p q : Params) (t : State) (tx : s.Tx) (x y u z : s.Ctx)
      → QuietResolver l b d.feemarket_keeper
      → QuietResolver l b k
      → ReadingResolver w e k
      → IsApart l b tx
      → HoldsParams w e x p
      → p.enabled ≡ true
      → s.block_height x ≢ pos 0
      → ante_handle d tx false (pure tt) x ≡ (ok tt, y)
      → IsOpen w e u q t
      → post_handle k tx false (pure tt) u ≡ (ok tt, z)
      → (r : Settled l b w e k q tx u z) × ((a : String)
          → b.balance y (collector l b) a +ℤ b.balance z (collector l b) a
            ≡ b.balance x (collector l b) a
              +ℤ b.balance u (collector l b) a
              +ℤ (if q.distribute_fees then pos 0 else worth l r.paid a))
  post_handle-ante_handle d k p q t tx x y u z quiet_d quiet_k reads apart held enabled height antes
        started posts =
      let (fee, v, one, charged, ends) =
        ante_handle-Charged l b w e d p tx (pure tt) x y quiet_d held enabled height antes in
      let (v', r, ends') =
        post_handle-Settled l b w e k q t tx (pure tt) u z quiet_k reads started posts in
      let at_y : v ≡ y = ap (λ o. o.1) ends in
      let at_z : v' ≡ z = ap (λ o. o.1) ends' in
      let charged_y : Charged l b tx fee x y = rw at_y at charged in
      let settled : Settled l b w e k q tx u z = rw at_z at r in
      let fee_is = same_fee l b tx fee settled.fee one settled.one in
      (settled, λ a. whole_out a settled fee fee_is charged_y)
    where
      whole_out :
          (a : String) (r : Settled l b w e k q tx u z) (fee : Coin)
          → fee ≡ r.fee
          → Charged l b tx fee x y
          → b.balance y (collector l b) a +ℤ b.balance z (collector l b) a
            ≡ b.balance x (collector l b) a
              +ℤ b.balance u (collector l b) a
              +ℤ (if q.distribute_fees then pos 0 else worth l r.paid a)
      whole_out a r fee fee_is charged =
          let brought = Charged-collector l b tx fee x y a apart charged in
          let some_fee = (b.new_coins_total fee charged.whole).0 in
          let out =
            PaysOut-collector l b tx u z r.seen q.distribute_fees r.paid r.tip a apart r.pays in
          let parts =
            check_tx_fee-worth l n b r.checked r.price fee _ r.paid r.tip a some_fee
              (rw (← fee_is) at r.accepted) in
          net _ _ _ _ _ _ _ _ brought out parts
