-- ===== src/Keeper/Balances.antt =====
-- The calls of x/feemarket/keeper/keeper.go and keeper/feemarket.go that the decorators make move no coins.
use feemarket.Prelude.{
  ◌≡◌, ap, sym, ◌∙◌, refl, Bool, true, false, if◌then◌else◌, String, some, str_eq, inl, inr,
  Option-cases,
}
use feemarket.Prelude.Outcome.{ok, resolver_not_set, or_panic}
use feemarket.Prelude.Outcome.Action.{Action, pure, lift, ◌>>=◌, >>=-returned}
use feemarket.Math.{Math}
use feemarket.Math.Laws.{MathLaws}
use feemarket.Sdk.{Sdk, DecCoin}
use feemarket.Sdk.Bank.{BankLaws}
use feemarket.Sdk.Bank.Keeps.{Keeps, Keeps-pure, Keeps-raise, Keeps-lift, Keeps-if, Keeps-bind}
use feemarket.Codec.{Codec, CodecLaws}
use feemarket.Params.{Params}
use feemarket.Sdk.Laws.{StoreLaws}
use feemarket.Keeper.Store.{HoldsParams, HoldsState, SameStore, get_params_lem, get_state_lem}
use feemarket.State.{State}
use feemarket.Keeper.{
  Keeper, DenomResolver, key_params, key_state, key_enabled_height, get_params, get_state,
  set_state, get_enabled_height, resolve_to_denom, bytes_of, parse_height,
}
use feemarket.Keeper.Market.{get_min_gas_price}

module _ ⦃m : Math⦄ ⦃s : Sdk⦄ (l : MathLaws) (b : BankLaws l) where
  -- The resolver of a keeper, if it has one, moves no coins.
  abbrev pub QuietResolver : Keeper → Type 0
  QuietResolver k =
      (r : DenomResolver)
      → k.resolver ≡ some r
      → (c : DecCoin) (d : String) → Keeps l b (r.convert_to_denom c d)

  pub get_enabled_height-Keeps : Keeps l b get_enabled_height
  unfolding get_enabled_height
  get_enabled_height-Keeps =
      Keeps-bind l b (s.kv_get key_enabled_height) (λ bz. lift (parse_height bz))
        (record { at = b.kv_get_keeps key_enabled_height }) (λ bz. Keeps-lift l b (parse_height bz))

  pub resolve_to_denom-Keeps :
      (k : Keeper) (c : DecCoin) (d : String) → QuietResolver k → Keeps l b (resolve_to_denom k c d)
  unfolding resolve_to_denom
  resolve_to_denom-Keeps k c d quiet = elim (Option-cases k.resolver) [
    | inl none_is ↦ rw none_is (Keeps-raise l b resolver_not_set)
    | inr (r, some_is) ↦ rw some_is (quiet r some_is c d)
  ]

  module _ ⦃c : Codec⦄ where
    pub get_params-Keeps : Keeps l b get_params
    unfolding get_params
    get_params-Keeps =
        Keeps-bind l b (s.kv_get key_params) (λ bz. lift (c.unmarshal_params (bytes_of bz)))
          (record { at = b.kv_get_keeps key_params })
          (λ bz. Keeps-lift l b (c.unmarshal_params (bytes_of bz)))

    pub get_state-Keeps : Keeps l b get_state
    unfolding get_state
    get_state-Keeps =
        Keeps-bind l b (s.kv_get key_state) (λ bz. lift (c.unmarshal_state (bytes_of bz)))
          (record { at = b.kv_get_keeps key_state })
          (λ bz. Keeps-lift l b (c.unmarshal_state (bytes_of bz)))

    pub set_state-Keeps : (t : State) → Keeps l b (set_state t)
    unfolding set_state
    set_state-Keeps t =
        Keeps-bind l b (lift (c.marshal_state t)) (s.kv_set key_state)
          (Keeps-lift l b (c.marshal_state t)) (λ bz. record { at = b.kv_set_keeps key_state bz })

    pub get_min_gas_price-Keeps :
        (k : Keeper) (d : String) → QuietResolver k → Keeps l b (get_min_gas_price k d)
    unfolding get_min_gas_price
    get_min_gas_price-Keeps k d quiet =
        Keeps-bind l b (get_state >>= λ t. pure t.base_gas_price) _
          (Keeps-bind l b get_state _ get_state-Keeps (λ t. Keeps-pure l b t.base_gas_price))
          (λ price. Keeps-bind l b get_params _ get_params-Keeps (λ p.
            Keeps-bind l b (lift (or_panic (s.new_dec_coin p.fee_denom price))) _
              (Keeps-lift l b (or_panic (s.new_dec_coin p.fee_denom price)))
              (λ base.
                Keeps-if l b (str_eq p.fee_denom d) (pure base) (resolve_to_denom k base d)
                  (Keeps-pure l b base) (resolve_to_denom-Keeps k base d quiet))))

module _ ⦃m : Math⦄ ⦃s : Sdk⦄ ⦃c : Codec⦄ (w : StoreLaws) (e : CodecLaws) where
  -- The resolver of a keeper, if it has one, leaves the store alone.
  abbrev pub ReadingResolver : Keeper → Type 0
  ReadingResolver k =
      (r : DenomResolver)
      → k.resolver ≡ some r
      → (coin : DecCoin) (d : String) (x : s.Ctx) → SameStore w e x (r.convert_to_denom coin d x).1

  resolve_to_denom-SameStore :
      (k : Keeper) (coin : DecCoin) (d : String) (x : s.Ctx)
      → ReadingResolver k
      → SameStore w e x (resolve_to_denom k coin d x).1
  unfolding resolve_to_denom
  resolve_to_denom-SameStore k coin d x reads = elim (Option-cases k.resolver) [
    | inl none_is ↦ rw (none_is, resolve_to_denom) ((λ j. refl), refl)
    | inr (r, some_is) ↦ rw (some_is, resolve_to_denom) (reads r some_is coin d x)
  ]

  if-SameStore :
      (t : Bool) (f g : Action s.Ctx DecCoin) (x : s.Ctx)
      → SameStore w e x (f x).1
      → SameStore w e x (g x).1
      → SameStore w e x ((if t then f else g) x).1
  if-SameStore true f g x h k = h
  if-SameStore false f g x h k = k

  -- A gas price is read with the store as before.
  pub get_min_gas_price-SameStore :
      (k : Keeper) (d : String) (p : Params) (t : State) (x : s.Ctx) {y : s.Ctx} {price : DecCoin}
      → ReadingResolver k
      → HoldsParams w e x p
      → HoldsState w e x t
      → get_min_gas_price k d x ≡ (ok price, y)
      → SameStore w e x y
  unfolding get_min_gas_price
  get_min_gas_price-SameStore k d p t x {y} reads (bytes, held, decodes) held_t done =
      let (x1, gets_t, (same, still)) = get_state_lem w e x t held_t in
      let (x2, gets_p, (same', still')) =
        get_params_lem w e x1 p (bytes, same key_params ∙ held, decodes) in
      let (base, x3, lifts, done) =
        >>=-returned (lift (or_panic (s.new_dec_coin p.fee_denom t.base_gas_price))) _ x2
          (rw (gets_t, gets_p) at done) in
      let last : SameStore w e x3 y = rw done at (
        if-SameStore (str_eq p.fee_denom d) (pure base) (resolve_to_denom k base d) x3
          ((λ j. refl), refl) (resolve_to_denom-SameStore k base d x3 reads)) in
      let at_x3 : x2 ≡ x3 = ap (λ o. o.1) lifts in
      (
        (λ j. last.0 j ∙ ap (λ z. w.view z j) (sym at_x3) ∙ same' j ∙ same j),
        last.1 ∙ ap s.block_height (sym at_x3) ∙ still' ∙ still,
      )
