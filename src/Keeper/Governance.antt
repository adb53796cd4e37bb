-- ===== src/Keeper/Governance.antt =====
-- The message `MsgParams` of x/feemarket/keeper/msg_server.go, and the end of a block after it.
use feemarket.Prelude.{
  ℕ, zero, suc, ◌<◌, ◌≡◌, ◌≢◌, refl, ◌∙◌, ap, Bool, true, false, not, ◌&&◌, none, some, arith,
  All-replicate, length, replicate, length-replicate, if◌then◌else◌, eq_iff, Option-cases, inl, inr,
}
use feemarket.Prelude.Int.{two_64, slice_max}
use feemarket.Prelude.Outcome.{ok, panic}
use feemarket.Prelude.Outcome.Action.{pure}
use feemarket.Math.{Math}
use feemarket.Sdk.{Sdk, Bytes}
use feemarket.Sdk.Laws.{StoreLaws}
use feemarket.Codec.{Codec, CodecLaws, IsStorableParams, IsStorableState}
use feemarket.Params.{Params}
use feemarket.State.{
  State, elems, new_state, get_average_utilization, get_net_utilization, update_learning_rate,
  update_base_gas_price,
}
use feemarket.State.Window.{increment_height-empty}
use feemarket.Keeper.{
  Keeper, set_state, set_enabled_height, key_params, key_state, key_enabled_height,
}
use feemarket.Keeper.Market.{update_market, end_block}
use feemarket.Keeper.Genesis.{MsgParams, msg_params_handler}
use feemarket.Keeper.Store.{
  HoldsParams, HoldsState, HoldsHeight, get_params_lem, get_state_lem, set_params_lem,
  set_state_lem,
}
use feemarket.Keeper.EndBlock.{update_fee_market-enabled}

module _ ⦃m : Math⦄ ⦃s : Sdk⦄ ⦃c : Codec⦄ (w : StoreLaws) (e : CodecLaws) where
  open w use {view}

  -- What the handler does with the enabled height.
  height_step :
      (b : Bool) (x : s.Ctx)
      → (y : s.Ctx) × ((if b then set_enabled_height (s.block_height x) else pure tt) x
          ≡ (ok tt, y))
        × (b ≡ true → HoldsHeight w e y (s.block_height x))
        × (b ≡ false → view y key_enabled_height ≡ view x key_enabled_height)
  unfolding set_enabled_height
  height_step true x =
      let (y, writes, held, _, _) =
        w.set_value key_enabled_height (s.format_int (s.block_height x)) x in
      (y, writes, λ _. held, λ q. cc)
  height_step false x = (x, refl, λ q. cc, λ _. refl)

  new_state-IsStorableState :
      (window : ℕ) (price rate : m.LegacyDec)
      → window ≢ 0
      → window < slice_max
      → m.is_nil price ≡ false
      → m.is_nil rate ≡ false
      → IsStorableState (new_state window price rate)
  new_state-IsStorableState zero price rate h short p r = absurd (h refl)
  new_state-IsStorableState (suc n) price rate h short p r = record {
    price_some = p;
    rate_some = r;
    first = 0;
    rest = replicate n 0;
    window_cons = refl;
    window_lt = All-replicate (λ u. u < two_64) (suc n) 0 (omega arith);
    length_lt = omega (arith, length-replicate {A = ℕ} (suc n) 0);
    index_lt = omega arith;
  }

  -- A message from the authority, with parameters that can be stored and a window that is not
  -- empty, replaces the parameters and starts the state afresh at the minimal price and rate. The
  -- enabled height becomes the current height if the message turns the market on, and is kept
  -- otherwise.
  pub msg_params_lem :
      (k : Keeper) (msg : MsgParams) (x : s.Ctx) (old : Params)
      → msg.authority ≡ k.authority
      → HoldsParams w e x old
      → IsStorableParams msg.msg_params
      → msg.msg_params.window ≢ 0
      → msg.msg_params.window < slice_max
      → let p = msg.msg_params in
        let turns_on = not old.enabled && p.enabled in
        (y : s.Ctx) × (msg_params_handler k msg x ≡ (ok tt, y))
        × HoldsParams w e y p
        × HoldsState w e y (new_state p.window p.min_base_gas_price p.min_learning_rate)
        × (turns_on ≡ true → HoldsHeight w e y (s.block_height x))
        × (turns_on ≡ false → view y key_enabled_height ≡ view x key_enabled_height)
  unfolding msg_params_handler
  msg_params_lem k msg x old author held storable window short =
      let p = msg.msg_params in
      let fresh =
        new_state-IsStorableState p.window p.min_base_gas_price p.min_learning_rate window short
          storable.min_price_some storable.min_rate_some in
      let (x1, gets, (same, height)) = get_params_lem w e x old held in
      let (x2, turns, on, off) = height_step (not old.enabled && p.enabled) x1 in
      let (x3, sets_p, (b, held_p, decodes), others_p, _) = set_params_lem w e x2 p storable in
      let (x4, sets_t, held_t, others_t, _) = set_state_lem w e x3 _ fresh in
      (
        x4,
        rw ((eq_iff msg.authority k.authority).1 author, gets, turns, sets_p, sets_t) refl,
        (b, others_t key_params (λ d. ground arith) ∙ held_p, decodes),
        held_t,
        λ q.
            others_t key_enabled_height (λ d. ground arith)
            ∙ others_p key_enabled_height (λ d. ground arith)
            ∙ on q
            ∙ ap (λ h. some (s.format_int h)) height,
        λ q.
            others_t key_enabled_height (λ d. ground arith)
            ∙ others_p key_enabled_height (λ d. ground arith)
            ∙ off q
            ∙ same key_enabled_height,
      )

module _ ⦃m : Math⦄ ⦃s : Sdk⦄ ⦃c : Codec⦄ where
  -- On an empty window either utilization of the log line panics or `IncrementHeight` does.
  update_market-empty :
      (t : State) (p : Params) (x : s.Ctx)
      → length (elems t.window) ≡ 0
      → update_market t p x ≡ (panic, x)
  unfolding update_market update_learning_rate update_base_gas_price
  update_market-empty t p x empty =
      let priced = (update_base_gas_price (update_learning_rate t p).0 p).0 in
      elim (Option-cases (get_average_utilization priced p)) [
        | inl a ↦ rw a refl
        | inr (_, a) ↦ elim (Option-cases (get_net_utilization priced p)) [
          | inl n ↦ rw (a, n) refl
          | inr (_, n) ↦ rw (a, n, increment_height-empty priced empty) refl
        ]
      ]

module _ ⦃m : Math⦄ ⦃s : Sdk⦄ ⦃c : Codec⦄ (w : StoreLaws) (e : CodecLaws) where
  -- A fresh state over no slots is stored, and comes back with a nil window.
  set_empty_lem :
      (x : s.Ctx) (p : Params)
      → IsStorableParams p
      → p.window ≡ 0
      → let t = new_state p.window p.min_base_gas_price p.min_learning_rate in
        (y : s.Ctx) × (set_state t x ≡ (ok tt, y))
        × HoldsState w e y (record t { window = none })
        × ((j : Bytes) → j ≢ key_state → w.view y j ≡ w.view x j)
  unfolding set_state
  set_empty_lem x p q zero_window =
      let t = new_state p.window p.min_base_gas_price p.min_learning_rate in
      let (b, encodes, decodes) =
        e.state_round_empty t q.min_price_some q.min_rate_some
          (ap (λ n. some (replicate n 0)) zero_window) (omega arith) in
      let (y, writes, held, others, _) = w.set_value key_state b x in
      (y, rw (encodes, writes) refl, (b, held, decodes), others)

  -- A message from the authority that turns the market on with a window of zero, and is otherwise
  -- storable, is accepted, and the next end of a block panics.
  pub msg_params-window_zero :
      (k : Keeper) (msg : MsgParams) (x : s.Ctx) (old : Params)
      → msg.authority ≡ k.authority
      → HoldsParams w e x old
      → IsStorableParams msg.msg_params
      → msg.msg_params.window ≡ 0
      → msg.msg_params.enabled ≡ true
      → (y : s.Ctx) × (msg_params_handler k msg x ≡ (ok tt, y)) × ((end_block y).0 ≡ panic)
  unfolding msg_params_handler
  msg_params-window_zero k msg x old author held storable zero_window on =
      let p = msg.msg_params in
      let (x1, gets, _) = get_params_lem w e x old held in
      let (x2, turns, _, _) = height_step w e (not old.enabled && p.enabled) x1 in
      let (x3, sets_p, (b, held_p, decodes), _, _) = set_params_lem w e x2 p storable in
      let (x4, sets_t, (bt, held_t, decodes_t), others_t) =
        set_empty_lem x3 p storable zero_window in
      let (x5, gets_p, (same_p, _)) =
        get_params_lem w e x4 p (b, others_t key_params (λ d. ground arith) ∙ held_p, decodes) in
      let (x6, gets_t, _) = get_state_lem w e x5 _ (bt, same_p key_state ∙ held_t, decodes_t) in
      let reset = record (new_state p.window p.min_base_gas_price p.min_learning_rate) {
        window = none;
      } in
      let stops : end_block x4 ≡ (panic, x6) =
        update_fee_market-enabled x4 p gets_p on
        ∙ rw gets_t (update_market-empty reset p x6 refl) in
      (
        x4,
        rw ((eq_iff msg.authority k.authority).1 author, gets, turns, sets_p, sets_t) refl,
        ap (λ o. o.0) stops,
      )
