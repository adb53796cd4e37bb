-- ===== src/Keeper/Store.antt =====
-- What the getters and setters of x/feemarket/keeper/keeper.go read and leave in the store.
use feemarket.Prelude.{◌≡◌, ◌≢◌, refl, ◌∙◌, ap, some, arith}
use feemarket.Prelude.Int.{ℤ}
use feemarket.Prelude.Outcome.{ok}
use feemarket.Math.{Math}
use feemarket.Sdk.{Sdk, Bytes}
use feemarket.Sdk.Laws.{StoreLaws}
use feemarket.Codec.{Codec, CodecLaws, IsStorableParams, IsStorableState}
use feemarket.Params.{Params}
use feemarket.State.{State}
use feemarket.Keeper.{
  key_params, key_state, key_enabled_height, get_state, set_state, get_params, set_params,
  get_enabled_height, set_enabled_height, bytes_of, parse_height,
}
use feemarket.Prelude.Outcome.Action.{lift, >>=-ok}

module _ ⦃m : Math⦄ ⦃s : Sdk⦄ ⦃c : Codec⦄ (w : StoreLaws) (e : CodecLaws) where
  open w use {view}

  -- The store holds the encoding of `p` under the key of the parameters.
  abbrev pub HoldsParams : s.Ctx → Params → Type 0
  HoldsParams x p = (b : Bytes) × (view x key_params ≡ some b) × (c.unmarshal_params b ≡ ok p)

  abbrev pub HoldsState : s.Ctx → State → Type 0
  HoldsState x t = (b : Bytes) × (view x key_state ≡ some b) × (c.unmarshal_state b ≡ ok t)

  abbrev pub HoldsHeight : s.Ctx → ℤ → Type 0
  HoldsHeight x h = view x key_enabled_height ≡ some (s.format_int h)

  -- Nothing of the store and not the height has changed.
  abbrev pub SameStore : s.Ctx → s.Ctx → Type 0
  SameStore x y = ((j : Bytes) → view y j ≡ view x j) × (s.block_height y ≡ s.block_height x)

  pub get_params_lem :
      (x : s.Ctx) (p : Params)
      → HoldsParams x p
      → (y : s.Ctx) × (get_params x ≡ (ok p, y)) × SameStore x y
  unfolding get_params
  get_params_lem x p (b, held, decodes) =
      let (y, reads, same, height) = w.get_value key_params x in
      (
        y,
        >>=-ok (s.kv_get key_params) (λ bz. lift (c.unmarshal_params (bytes_of bz))) x reads
            ∙ rw (held, decodes) refl,
        (same, height),
      )

  pub get_state_lem :
      (x : s.Ctx) (t : State)
      → HoldsState x t
      → (y : s.Ctx) × (get_state x ≡ (ok t, y)) × SameStore x y
  unfolding get_state
  get_state_lem x t (b, held, decodes) =
      let (y, reads, same, height) = w.get_value key_state x in
      (
        y,
        >>=-ok (s.kv_get key_state) (λ bz. lift (c.unmarshal_state (bytes_of bz))) x reads
            ∙ rw (held, decodes) refl,
        (same, height),
      )

  pub set_params_lem :
      (x : s.Ctx) (p : Params)
      → IsStorableParams p
      → (y : s.Ctx) × (set_params p x ≡ (ok tt, y))
        × HoldsParams y p
        × ((j : Bytes) → j ≢ key_params → view y j ≡ view x j)
        × (s.block_height y ≡ s.block_height x)
  unfolding set_params
  set_params_lem x p q =
      let (b, encodes, decodes) = e.params_round p q in
      let (y, writes, held, others, height) = w.set_value key_params b x in
      (y, rw (encodes, writes) refl, (b, held, decodes), others, height)

  pub set_state_lem :
      (x : s.Ctx) (t : State)
      → IsStorableState t
      → (y : s.Ctx) × (set_state t x ≡ (ok tt, y))
        × HoldsState y t
        × ((j : Bytes) → j ≢ key_state → view y j ≡ view x j)
        × (s.block_height y ≡ s.block_height x)
  unfolding set_state
  set_state_lem x t q =
      let (b, encodes, decodes) = e.state_round t q in
      let (y, writes, held, others, height) = w.set_value key_state b x in
      (y, rw (encodes, writes) refl, (b, held, decodes), others, height)

  pub get_enabled_height_lem :
      (x : s.Ctx) (h : ℤ)
      → HoldsHeight x h
      → (y : s.Ctx) × (get_enabled_height x ≡ (ok h, y)) × SameStore x y
  unfolding get_enabled_height
  get_enabled_height_lem x h held =
      let (y, reads, same, height) = w.get_value key_enabled_height x in
      (
        y,
        >>=-ok (s.kv_get key_enabled_height) (λ bz. lift (parse_height bz)) x reads
            ∙ rw (held, w.parse_int-format_int) refl,
        (same, height),
      )

  -- Storable parameters, a storable state and a height, once stored in that order, are what the
  -- getters return: no setter disturbs what another has stored.
  pub get-set :
      (x : s.Ctx) (p : Params) (t : State) (h : ℤ)
      → IsStorableParams p
      → IsStorableState t
      → (y z u : s.Ctx) × (set_params p x ≡ (ok tt, y))
        × (set_state t y ≡ (ok tt, z))
        × (set_enabled_height h z ≡ (ok tt, u))
        × ((get_params u).0 ≡ ok p)
        × ((get_state u).0 ≡ ok t)
        × ((get_enabled_height u).0 ≡ ok h)
  unfolding set_enabled_height
  get-set x p t h q r =
      let (y, sets_params, (bp, held_p, decodes_p), _, _) = set_params_lem x p q in
      let (z, sets_state, (bt, held_t, decodes_t), others_z, _) = set_state_lem y t r in
      let (u, writes, held_h, others_u, _) = w.set_value key_enabled_height (s.format_int h) z in
      let kept_p : view u key_params ≡ some bp =
        others_u key_params (λ d. ground arith)
        ∙ others_z key_params (λ d. ground arith)
        ∙ held_p in
      let kept_t : view u key_state ≡ some bt = others_u key_state (λ d. ground arith) ∙ held_t in
      let (_, gets_p, _) = get_params_lem u p (bp, kept_p, decodes_p) in
      let (_, gets_t, _) = get_state_lem u t (bt, kept_t, decodes_t) in
      (
        y,
        z,
        u,
        sets_params,
        sets_state,
        writes,
        ap (λ o. o.0) gets_p,
        ap (λ o. o.0) gets_t,
        ap (λ o. o.0) (get_enabled_height_lem u h held_h).1,
      )
