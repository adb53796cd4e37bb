-- ===== src/Module/Prices.antt =====
-- The gas prices of a module that `ProvideModule` of x/feemarket/module.go has built, which has no
-- resolver (x/feemarket/keeper/feemarket.go).
use feemarket.Prelude.{
  ◌≡◌, refl, ◌∙◌, ap, sym, String, Option, none, some, if◌then◌else◌, str_eq, Option-cases,
  Bool-cases, inl, inr,
}
use feemarket.Prelude.Outcome.{Outcome, ok, err, panic, resolver_not_set}
use feemarket.Prelude.Outcome.Pure
use feemarket.Math.{Math}
use feemarket.Sdk.{Sdk, DecCoin}
use feemarket.Sdk.Laws.{StoreLaws}
use feemarket.Codec.{Codec, CodecLaws}
use feemarket.Params.{Params}
use feemarket.State.{State}
use feemarket.Prelude.Outcome.Cases.{ok_injective, panic_ne, err_ne}
use feemarket.Keeper.{Keeper, DenomResolver, key_params, new_keeper, resolve_to_denom}
use feemarket.Keeper.Market.{get_base_gas_price, get_min_gas_price, get_min_gas_prices}
use feemarket.Keeper.Genesis.{query_gas_price, query_gas_prices}
use feemarket.Keeper.Store.{HoldsParams, HoldsState, get_params_lem, get_state_lem}
use feemarket.Module.{Wiring, AppModule, provide_module, configured_authority, new_app_module}

module _ ⦃m : Math⦄ ⦃s : Sdk⦄ ⦃w : Wiring⦄ where
  new_keeper-resolver :
      (r : Option DenomResolver) (authority : String) (k : Keeper)
      → new_keeper r authority ≡ ok k
      → k.resolver ≡ r
  unfolding new_keeper
  new_keeper-resolver r authority k h = by_address (s.addr_from_bech32 authority) refl
    where
      by_address : (o : Outcome s.Addr) → s.addr_from_bech32 authority ≡ o → k.resolver ≡ r
      by_address (ok a) e = ap (λ k. k.resolver) (sym (ok_injective (rw (e, new_keeper) at h)))
      by_address (err a) e = panic_ne (rw (e, new_keeper) at h)
      by_address panic e = panic_ne (rw (e, new_keeper) at h)

  module_of :
      (o : Outcome Keeper) (r : Keeper × AppModule)
      → Pure.◌>>=◌ o (λ k. ok (k, new_app_module k)) ≡ ok r
      → o ≡ ok r.1.k
  module_of (ok k) r h = ap (λ r. ok r.1.k) (ok_injective h)
  module_of (err _) r h = cc
  module_of panic r h = cc

  provide_module-resolver :
      (text : String) (k : Keeper) (am : AppModule)
      → provide_module text ≡ ok (k, am)
      → am.k.resolver ≡ none
  unfolding provide_module
  provide_module-resolver text k am h = by_authority (configured_authority text) refl
    where
      by_authority : (o : Outcome s.Addr) → configured_authority text ≡ o → am.k.resolver ≡ none
      by_authority (ok a) e =
          new_keeper-resolver none (w.addr_text a) am.k
            (module_of (new_keeper none (w.addr_text a)) (k, am) (rw e at h))
      by_authority (err _) e = err_ne (rw e at h)
      by_authority panic e = panic_ne (rw e at h)

module _ ⦃m : Math⦄ ⦃s : Sdk⦄ ⦃c : Codec⦄ ⦃w : Wiring⦄ (laws : StoreLaws) (e : CodecLaws) where
  -- On a stored state and stored parameters whose price is a coin, the module that ProvideModule
  -- has built panics on the query for all gas prices; on the query for one it gives that coin for
  -- the fee denomination, and the error that no resolver is set for any other.
  pub provide_module-prices :
      (text : String) (k : Keeper) (am : AppModule) (x : s.Ctx) (p : Params) (t : State)
      (coin : DecCoin)
      → provide_module text ≡ ok (k, am)
      → HoldsParams laws e x p
      → HoldsState laws e x t
      → s.new_dec_coin p.fee_denom t.base_gas_price ≡ some coin
      → ((query_gas_prices am.k x).0 ≡ panic)
        × ((denom : String)
            → (query_gas_price am.k denom x).0
              ≡ (if str_eq p.fee_denom denom then ok coin else err resolver_not_set))
  unfolding get_min_gas_prices get_min_gas_price get_base_gas_price resolve_to_denom
  provide_module-prices text k am x p t coin provided (b, held_p, decodes) held_t is_coin =
      let (y, gets_t, (same, _)) = get_state_lem laws e x t held_t in
      let (z, gets_p, _) = get_params_lem laws e y p (b, same key_params ∙ held_p, decodes) in
      let no_resolver = provide_module-resolver text k am provided in
      (
        elim (Option-cases (s.new_dec_coins coin)) [
          | inl none_is ↦ rw (gets_t, gets_p, is_coin, none_is) refl
          | inr (prices, are) ↦ rw (gets_t, gets_p, is_coin, are, no_resolver) refl
        ],
        λ denom. elim (Bool-cases (str_eq p.fee_denom denom)) [
          | inl same_denom ↦ rw (gets_t, gets_p, is_coin, same_denom) refl
          | inr other ↦ rw (gets_t, gets_p, is_coin, other, no_resolver) refl
        ],
      )
