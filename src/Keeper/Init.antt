-- ===== src/Keeper/Init.antt =====
-- `InitGenesis` and `ExportGenesis` of x/feemarket/keeper/genesis.go, with the checks of types/genesis.go.
use feemarket.Prelude.{ℕ, ◌⊎◌, ◌≡◌, ◌≢◌, refl, ◌∙◌, true, false, arith, length, ◌==◌, inl, inr}
use feemarket.Prelude.Int.{negsuc}
use feemarket.Prelude.Outcome.{Outcome, ok, err, panic}
use feemarket.Prelude.Outcome.Action.{Action, lift, ◌>>=◌}
use feemarket.Math.{Math}
use feemarket.Sdk.{Sdk}
use feemarket.Sdk.Laws.{StoreLaws}
use feemarket.Codec.{Codec, CodecLaws, IsStorableParams, IsStorableState}
use feemarket.State.{elems}
use feemarket.Keeper.{key_params, key_state, key_enabled_height, set_enabled_height}
use feemarket.Keeper.Genesis.{GenesisState, validate_genesis, init_genesis, export_genesis, must}
use feemarket.Keeper.Store.{
  HoldsHeight, get_params_lem, get_state_lem, set_params_lem, set_state_lem,
}

eq→test : (a b : ℕ) → a ≡ b → (a == b) ≡ true
eq→test a b h = ground arith

ne→test : (a b : ℕ) → a ≢ b → (a == b) ≡ false
ne→test a b h = ground arith

-- Under `must` a check that does not return panics; so does a sequence that panics after it.
stopped :
    {S : Type 0} (o : Outcome (Unit {0})) (f : Unit {0} → Action S (Unit {0})) (x : S)
    → (o ≢ ok tt) ⊎ (f tt x ≡ (panic, x))
    → (must (lift o) >>= f) x ≡ (panic, x)
stopped (ok tt) f x (inl h) = absurd (h refl)
stopped (ok tt) f x (inr h) = h
stopped (err _) f x h = refl
stopped panic f x h = refl

module _ ⦃m : Math⦄ ⦃s : Sdk⦄ ⦃c : Codec⦄ where
  -- A genesis that its checks do not pass, or whose window is not as long as the parameters say,
  -- stops the chain before anything is stored.
  pub init_genesis-refused :
      (g : GenesisState) (x : s.Ctx)
      → (validate_genesis g ≢ ok tt) ⊎ (g.params.window ≢ length (elems g.state.window))
      → init_genesis g x ≡ (panic, x)
  unfolding init_genesis
  init_genesis-refused g x (inl invalid) = stopped (validate_genesis g) _ x (inl invalid)
  init_genesis-refused g x (inr other) =
      let f = ne→test g.params.window (length (elems g.state.window)) other in
      stopped (validate_genesis g) _ x (inr (rw f refl))

module _ ⦃m : Math⦄ ⦃s : Sdk⦄ ⦃c : Codec⦄ (w : StoreLaws) (e : CodecLaws) where
  -- A genesis that passes its checks, whose window is as long as its parameters say and which can
  -- be stored, is stored with the enabled height -1, and an export gives the same genesis.
  pub export_genesis-init_genesis :
      (g : GenesisState) (x : s.Ctx)
      → validate_genesis g ≡ ok tt
      → g.params.window ≡ length (elems g.state.window)
      → IsStorableParams g.params
      → IsStorableState g.state
      → (y : s.Ctx) × (init_genesis g x ≡ (ok tt, y))
        × HoldsHeight w e y (negsuc 0)
        × ((export_genesis y).0 ≡ ok g)
  unfolding init_genesis export_genesis set_enabled_height
  export_genesis-init_genesis g x valid window storable_p storable_t =
      let (y, sets_p, (b, held_p, decodes), _, _) = set_params_lem w e x g.params storable_p in
      let (z, sets_t, (bt, held_t, decodes_t), others_t, _) =
        set_state_lem w e y g.state storable_t in
      let (u, writes, held_h, others_h, _) =
        w.set_value key_enabled_height (s.format_int (negsuc 0)) z in
      let (v, gets_p, (same, _)) = get_params_lem w e u g.params (
        b,
        others_h key_params (λ d. ground arith) ∙ others_t key_params (λ d. ground arith) ∙ held_p,
        decodes,
      ) in
      let (r, gets_t, _) =
        get_state_lem w e v g.state
          (bt, same key_state ∙ others_h key_state (λ d. ground arith) ∙ held_t, decodes_t) in
      (
        u,
        rw
            (
              valid,
              eq→test g.params.window (length (elems g.state.window)) window,
              sets_p,
              sets_t,
              writes,
            )
            refl,
        held_h,
        rw (gets_p, gets_t) refl,
      )
