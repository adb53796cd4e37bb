-- ===== src/Flow/Stranded.antt =====
-- A fee that `AnteHandle` (ante/fee.go of x/feemarket) has escrowed, and that `PostHandle` (post/fee.go)
-- leaves where it is.
use feemarket.Prelude.{
  ◌≡◌, ◌≢◌, ◌⊎◌, sym, ap, ◌∙◌, String, true, false, [], ◌∷◌, inl, inr, if◌then◌else◌, Bool-cases,
}
use feemarket.Prelude.Int.{ℤ, pos, ◌+ℤ◌, ◌≤ℤ◌, leb_ℤ}
use feemarket.Prelude.Outcome.{ok, tx_decode, invalid_gas_limit}
use feemarket.Prelude.Outcome.Action.{pure, raise, >>=-returned}
use feemarket.Math.{Math}
use feemarket.Math.Laws.{MathLaws}
use feemarket.Sdk.{Sdk, Coin}
use feemarket.Sdk.Laws.{StoreLaws}
use feemarket.Sdk.Bank.{BankLaws, amount_of}
use feemarket.Sdk.Bank.Keeps.{SameBalances, Keeps-at}
use feemarket.Codec.{Codec, CodecLaws}
use feemarket.Params.{Params}
use feemarket.Keeper.{Keeper, key_enabled_height, get_params, get_enabled_height}
use feemarket.Keeper.Store.{HoldsParams, HoldsHeight, get_params_lem, get_enabled_height_lem}
use feemarket.Keeper.Balances.{QuietResolver, get_params-Keeps, get_enabled_height-Keeps}
use feemarket.Ante.{Decorator, ante_handle, no_gas}
use feemarket.Ante.Charge.{guard_passed}
use feemarket.Ante.Handle.{not_zero_height, guard_passed', taken}
use feemarket.Ante.Transfer.{ante_handle-Charged}
use feemarket.Post.{post_handle, settle, settle_later}
use feemarket.Post.Pays.{not_taken}
use feemarket.Post.Skip.{le→leb_ℤ}
use feemarket.Flow.Collector.{collector, IsApart, Charged-collector}

module _ ⦃m : Math⦄ ⦃s : Sdk⦄ ⦃c : Codec⦄ (l : MathLaws) (b : BankLaws l) (w : StoreLaws)
    (e : CodecLaws) where
  settle_later-SameBalances :
      (k : Keeper) (p : Params) (tx : s.Tx) (x y : s.Ctx) (h : ℤ)
      → HoldsHeight w e x h
      → s.block_height x ≤ℤ h
      → settle_later k p tx false x ≡ (ok tt, y)
      → SameBalances l b x y
  unfolding settle_later
  settle_later-SameBalances k p tx x y h held below done a d =
      let (u, reads, (same, still)) = get_enabled_height_lem w e x h held in
      let ends : pure tt u ≡ (ok tt, y) =
        taken (leb_ℤ (s.block_height u) h) (pure tt) (settle k p tx false) u
          (le→leb_ℤ (s.block_height u) h (rw still below)) (rw reads at done) in
      ap (λ v. b.balance v a d) (sym (ap (λ o. o.1) ends))
      ∙ Keeps-at l b get_enabled_height x (get_enabled_height-Keeps l b) reads a d

  -- No balance changes in a block that is not later than the one that enabled the market.
  post_handle-SameBalances :
      (k : Keeper) (p : Params) (tx : s.Tx) (x y : s.Ctx) (h : ℤ)
      → HoldsParams w e x p
      → HoldsHeight w e x h
      → s.block_height x ≢ pos 0
      → (p.enabled ≡ false) ⊎ (s.block_height x ≤ℤ h)
      → post_handle k tx false (pure tt) x ≡ (ok tt, y)
      → SameBalances l b x y
  unfolding post_handle
  post_handle-SameBalances k p tx x y h held held_h height off done =
      let (_, x1, fee_tx, done) =
        >>=-returned (if s.is_fee_tx tx then pure tt else raise tx_decode) _ x
          (rw (not_zero_height (s.block_height x) height, post_handle) at done) in
      let (_, x2, gas, done) =
        >>=-returned (if no_gas tx false x then raise invalid_gas_limit else pure tt) _ x1 done in
      let at_x : x2 ≡ x = sym (
        guard_passed (s.is_fee_tx tx) tx_decode x x1 fee_tx
        ∙ guard_passed' (no_gas tx false x) invalid_gas_limit x1 x2 gas) in
      let (x3, gets_p, (same, still)) = get_params_lem w e x p held in
      let (_, x4, rests, ends) =
        >>=-returned (if p.enabled then settle_later k p tx false else pure tt) _ x3
          (rw (at_x, gets_p) at done) in
      let last : x4 ≡ y = ap (λ o. o.1) ends in
      let start = Keeps-at l b get_params x (get_params-Keeps l b) gets_p in
      λ a d.
        ap (λ v. b.balance v a d) (sym last)
        ∙ by_branch x3 x4 (same key_enabled_height ∙ held_h) still rests a d
        ∙ start a d
    where
      false_ne : false ≡ true → ⊥
      false_ne h = cc

      by_branch :
          (x3 x4 : s.Ctx)
          → HoldsHeight w e x3 h
          → s.block_height x3 ≡ s.block_height x
          → (if p.enabled then settle_later k p tx false else pure tt) x3 ≡ (ok tt, x4)
          → SameBalances l b x3 x4
      by_branch x3 x4 held_x3 still rests a d = elim (Bool-cases p.enabled) [
        | inr disabled ↦
            ap (λ v. b.balance v a d)
              (sym (
                ap (λ o. o.1)
                  (not_taken p.enabled (settle_later k p tx false) (pure tt) x3 disabled rests)))
        | inl enabled ↦ elim off [
          | inl disabled ↦ absurd (false_ne (sym disabled ∙ enabled))
          | inr below ↦
              settle_later-SameBalances k p tx x3 x4 h held_x3 (rw still below)
                (taken p.enabled (settle_later k p tx false) (pure tt) x3 enabled rests) a d
        ]
      ]

  -- A transaction that AnteHandle passes on an enabled market has its whole fee coin in the account
  -- of the fee collector, and if PostHandle then finds the market disabled, or a block that is not
  -- later than the one that enabled it, it changes no balance: neither fee nor tip is paid out. The
  -- resolver moves no coins, and the fee collector is apart from the payer, the granter, the
  -- proposer and the fee collector of the chain.
  pub ante_handle-stranded :
      (d : Decorator) (k : Keeper) (p q : Params) (tx : s.Tx) (x y u z : s.Ctx) (h : ℤ)
      → QuietResolver l b d.feemarket_keeper
      → IsApart l b tx
      → HoldsParams w e x p
      → p.enabled ≡ true
      → s.block_height x ≢ pos 0
      → ante_handle d tx false (pure tt) x ≡ (ok tt, y)
      → HoldsParams w e u q
      → HoldsHeight w e u h
      → s.block_height u ≢ pos 0
      → (q.enabled ≡ false) ⊎ (s.block_height u ≤ℤ h)
      → post_handle k tx false (pure tt) u ≡ (ok tt, z)
      → (fee : Coin) × (s.get_fee tx ≡ fee ∷ [])
        × ((a : String)
            → b.balance y (collector l b) a ≡ b.balance x (collector l b) a +ℤ amount_of l fee a)
        × SameBalances l b u z
  ante_handle-stranded d k p q tx x y u z h quiet apart held enabled height antes held_u held_h
        height_u off posts =
      let (fee, v, one, charged, ends) =
        ante_handle-Charged l b w e d p tx (pure tt) x y quiet held enabled height antes in
      let at_y : v ≡ y = ap (λ o. o.1) ends in
      (
        fee,
        one,
        λ a. Charged-collector l b tx fee x y a apart (rw at_y at charged),
        post_handle-SameBalances k q tx u z h held_u held_h height_u off posts,
      )
