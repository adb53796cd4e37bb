-- ===== src/Post/Skip.antt =====
-- The blocks in which `PostHandle` of x/feemarket/post/fee.go charges nothing.
use feemarket.Prelude.{
  ◌≡◌, ◌≢◌, refl, sym, ◌∙◌, ap, ◌⊎◌, inl, inr, Bool, true, false, arith, if◌then◌else◌, Bool-cases,
}
use feemarket.Prelude.Int.{ℤ, pos, ◌≤ℤ◌, leb_ℤ}
use feemarket.Prelude.Outcome.{ok}
use feemarket.Prelude.Outcome.Action.{Action, pure, go_on}
use feemarket.Math.{Math}
use feemarket.Sdk.{Sdk}
use feemarket.Sdk.Laws.{StoreLaws}
use feemarket.Codec.{Codec, CodecLaws}
use feemarket.Params.{Params}
use feemarket.Keeper.{Keeper, key_enabled_height}
use feemarket.Keeper.Store.{
  HoldsParams, HoldsHeight, SameStore, get_params_lem, get_enabled_height_lem,
}
use feemarket.Ante.{no_gas}
use feemarket.Ante.Handle.{not_zero_height}
use feemarket.Post.{post_handle, settle_later}

pub le→leb_ℤ : (a b : ℤ) → a ≤ℤ b → leb_ℤ a b ≡ true
le→leb_ℤ a b h = ground arith

module _ ⦃m : Math⦄ ⦃s : Sdk⦄ ⦃c : Codec⦄ (w : StoreLaws) (e : CodecLaws) where
  -- At the enabled height or below it the market's part of the post handler reads and returns.
  settle_later-below :
      (k : Keeper) (p : Params) (tx : s.Tx) (simulate : Bool) (x : s.Ctx) (h : ℤ)
      → HoldsHeight w e x h
      → s.block_height x ≤ℤ h
      → (y : s.Ctx) × (settle_later k p tx simulate x ≡ (ok tt, y)) × SameStore w e x y
  unfolding settle_later
  settle_later-below k p tx simulate x h held below =
      let (y, reads, (same, height)) = get_enabled_height_lem w e x h held in
      (y, rw (reads, height, le→leb_ℤ (s.block_height x) h below) refl, (same, height))

  -- PostHandle passes a fee transaction with gas, at a height other than zero, on to the next
  -- handler with the store as before, if the market is disabled or the block is not later than the
  -- one that enabled it.
  pub post_handle-skipped :
      (k : Keeper) (tx : s.Tx) (simulate : Bool) (next : Action s.Ctx (Unit {0})) (x : s.Ctx)
      (p : Params) (h : ℤ)
      → HoldsParams w e x p
      → HoldsHeight w e x h
      → s.block_height x ≢ pos 0
      → s.is_fee_tx tx ≡ true
      → no_gas tx simulate x ≡ false
      → (p.enabled ≡ false) ⊎ (s.block_height x ≤ℤ h)
      → (y : s.Ctx) × (post_handle k tx simulate next x ≡ next y) × SameStore w e x y
  unfolding post_handle
  post_handle-skipped k tx simulate next x p h held_p held_h height fee_tx gas off =
      let start = not_zero_height (s.block_height x) height in
      let (y, gets_p, (same, still)) = get_params_lem w e x p held_p in
      elim (Bool-cases p.enabled) [
        | inr disabled ↦ (y, rw (start, fee_tx, gas, gets_p, disabled) refl, (same, still))
        | inl enabled ↦ elim off [
          | inl disabled ↦ absurd (false_ne (sym disabled ∙ enabled))
          | inr below ↦
              let (z, skips, (same', still')) =
                settle_later-below k p tx simulate y h (same key_enabled_height ∙ held_h)
                  (rw still below) in
              (
                z,
                rw (start, fee_tx, gas, gets_p)
                    (ap
                        (λ b.
                          go_on (λ _. next)
                            ((if b then settle_later k p tx simulate else pure tt) y))
                        enabled
                      ∙ ap (go_on (λ _. next)) skips),
                (λ j. same' j ∙ same j, still' ∙ still),
              )
        ]
      ]
    where
      false_ne : false ≡ true → ⊥
      false_ne h = cc
