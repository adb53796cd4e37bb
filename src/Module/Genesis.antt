-- ===== src/Module/Genesis.antt =====
-- The genesis of x/feemarket/module.go.
use feemarket.Prelude.{◌≡◌, refl, length}
use feemarket.Prelude.Outcome.{Outcome, ok, err, panic}
use feemarket.Prelude.Outcome.Action.{Action, lift, go_on}
use feemarket.Prelude.Outcome.Cases.{ok_injective}
use feemarket.Math.{Math}
use feemarket.Sdk.{Sdk, Bytes}
use feemarket.Sdk.Laws.{StoreLaws}
use feemarket.Codec.{Codec, CodecLaws, IsStorableParams, IsStorableState}
use feemarket.State.{elems}
use feemarket.Keeper.Genesis.{GenesisState, validate_genesis, export_genesis, must}
use feemarket.Keeper.Init.{export_genesis-init_genesis}
use feemarket.Module.{
  Wiring, AppModule, validate_genesis_json, module_init_genesis, module_export_genesis,
}

-- A sequence whose first part has returned, whatever the context.
returned_after :
    {S A B : Type 0} (k : A → Action S B) (o : Outcome A × S) (a : A) (b : B)
    → o.0 ≡ ok a
    → ((t : S) → (k a t).0 ≡ ok b)
    → (go_on k o).0 ≡ ok b
returned_after k (ok x, t) a b h g = rw (ok_injective h) (g t)
returned_after k (err x, t) a b h g = cc
returned_after k (panic, t) a b h g = cc

module _ ⦃m : Math⦄ ⦃s : Sdk⦄ ⦃c : Codec⦄ ⦃w : Wiring⦄ (laws : StoreLaws) (e : CodecLaws) where
  -- JSON that stands for a genesis that passes its checks, whose window is as long as its
  -- parameters say and which can be stored, passes ValidateGenesis and InitGenesis of the module,
  -- and ExportGenesis gives the same JSON.
  pub module_export-module_init :
      (am : AppModule) (g : GenesisState) (json : Bytes) (x : s.Ctx)
      → w.marshal_json g ≡ ok json
      → w.unmarshal_json json ≡ ok g
      → validate_genesis g ≡ ok tt
      → g.params.window ≡ length (elems g.state.window)
      → IsStorableParams g.params
      → IsStorableState g.state
      → (validate_genesis_json json ≡ ok tt)
        × ((y : s.Ctx) × (module_init_genesis am json x ≡ (ok tt, y))
            × ((module_export_genesis am y).0 ≡ ok json))
  unfolding validate_genesis_json module_init_genesis module_export_genesis
  module_export-module_init am g json x writes reads valid window storable_p storable_t =
      let (y, inits, _, exports) =
        export_genesis-init_genesis laws e g x valid window storable_p storable_t in
      (
        rw (reads, valid) refl,
        (
          y,
          rw (reads, inits) refl,
          returned_after (λ g. must (lift (w.marshal_json g))) (export_genesis y) g json exports
              (λ t. rw writes refl),
        ),
      )
