-- ===== src/Keeper.antt =====
-- The keeper of x/feemarket/keeper/keeper.go and keeper/feemarket.go, over the key-value store of the
-- SDK, with the keys of types/keys.go, the errors of types/errors.go and the resolver of
-- types/resolver.go. Logging is left out; what its arguments evaluate is not.
pub mod Market
pub mod Genesis
pub mod Store
pub mod Balances
pub mod EndBlock
pub mod Governance
pub mod Init
use feemarket.Prelude.{
  ℕ, String, Bool, true, false, Option, none, some, List, [], ◌∷◌, if◌then◌else◌, str_eq,
}
use feemarket.Prelude.Int.{ℤ, negsuc}
use feemarket.Prelude.Outcome.{Outcome, ok, err, panic, Error, resolver_not_set, message, or_panic}
use feemarket.Prelude.Outcome.Action.{Action, pure, raise, lift, ◌>>=◌, ◌>>◌}
use feemarket.Math.{Math}
use feemarket.Sdk.{Sdk, Bytes, DecCoin}
use feemarket.Codec.{Codec}
use feemarket.Params.{Params}
use feemarket.State.{
  State, update_learning_rate, update_base_gas_price, get_average_utilization, get_net_utilization,
  increment_height,
}

-- `KeyParams`, `KeyState`, `KeyEnabledHeight`
abbrev pub key_params : Bytes
key_params = 1 ∷ []

abbrev pub key_state : Bytes
key_state = 2 ∷ []

abbrev pub key_enabled_height : Bytes
key_enabled_height = 3 ∷ []

-- A nil byte slice has no elements.
abbrev bytes_of : Option Bytes → Bytes
bytes_of none = []
bytes_of (some b) = b

module _ ⦃m : Math⦄ ⦃s : Sdk⦄ where
  -- The interface `DenomResolver`.
  pub record DenomResolver : Type 0 where
    pub convert_to_denom : DecCoin → String → Action s.Ctx DecCoin
    pub extra_denoms : Action s.Ctx (List String)

  -- `TestDenomResolver`
  abbrev pub test_resolver : DenomResolver
  test_resolver = record {
    convert_to_denom = λ coin denom.
        if str_eq coin.dec_denom denom
        then pure coin
        else lift (or_panic (s.new_dec_coin denom coin.dec_amount));
    extra_denoms = pure [];
  }

  -- `ErrorDenomResolver`
  abbrev pub error_resolver : DenomResolver
  error_resolver = record {
    convert_to_denom = λ coin denom.
        if str_eq coin.dec_denom denom then pure coin else raise (message "error resolving denom");
    extra_denoms = pure [];
  }

  -- `Keeper`, without the account keeper, which it does not call, and without the codec and the store
  -- key, for which `Codec` and the SDK's store stand. The resolver may be nil.
  pub record Keeper : Type 0 where
    pub resolver : Option DenomResolver
    pub authority : String

  -- `NewKeeper`
  unfoldable pub new_keeper : Option DenomResolver → String → Outcome Keeper
  new_keeper resolver authority = elim (s.addr_from_bech32 authority) [
    | ok _ ↦ ok (record { resolver = resolver; authority = authority })
    | err _ ↦ panic
    | panic ↦ panic
  ]

  -- `Keeper.SetDenomResolver`
  abbrev pub set_denom_resolver : Keeper → DenomResolver → Keeper
  set_denom_resolver k r = record k { resolver = some r }

  -- The height that the bytes of the store stand for: -1 where there are none.
  abbrev parse_height : Option Bytes → Outcome ℤ
  parse_height none = ok (negsuc 0)
  parse_height (some b) = s.parse_int b

  -- `Keeper.GetEnabledHeight`
  unfoldable pub get_enabled_height : Action s.Ctx ℤ
  get_enabled_height = do bz ← s.kv_get key_enabled_height; lift (parse_height bz)

  -- `Keeper.SetEnabledHeight`
  unfoldable pub set_enabled_height : ℤ → Action s.Ctx (Unit {0})
  set_enabled_height height = s.kv_set key_enabled_height (s.format_int height)

  -- `Keeper.ResolveToDenom`
  unfoldable pub resolve_to_denom : Keeper → DecCoin → String → Action s.Ctx DecCoin
  resolve_to_denom k coin denom = elim k.resolver [
    | none ↦ raise resolver_not_set
    | some r ↦ r.convert_to_denom coin denom
  ]

  module _ ⦃c : Codec⦄ where
    -- `Keeper.GetState`
    unfoldable pub get_state : Action s.Ctx State
    get_state = do bz ← s.kv_get key_state; lift (c.unmarshal_state (bytes_of bz))

    -- `Keeper.SetState`
    unfoldable pub set_state : State → Action s.Ctx (Unit {0})
    set_state state = do bz ← lift (c.marshal_state state); s.kv_set key_state bz

    -- `Keeper.GetParams`
    unfoldable pub get_params : Action s.Ctx Params
    get_params = do bz ← s.kv_get key_params; lift (c.unmarshal_params (bytes_of bz))

    -- `Keeper.SetParams`
    unfoldable pub set_params : Params → Action s.Ctx (Unit {0})
    set_params params = do bz ← lift (c.marshal_params params); s.kv_set key_params bz
