-- ===== src/Api/Genesis.antt =====
-- The message `GenesisState` of the API module and its reflection (api/feemarket/feemarket/v1/genesis.pulsar.go). A
-- message of the reflection is a pointer, here the message that it points to or nil: that two
-- messages can share one is not modelled.
pub mod Methods
pub mod Round
pub mod Reflection
use feemarket.Prelude.{Bool, true, false, if◌then◌else◌, Option, none, some, String, str_eq}
use feemarket.Prelude.Outcome.{Outcome, ok, panic, or_panic}
use feemarket.Prelude.Outcome.Pure.{◌>>=◌}
use feemarket.Sdk.{Bytes}
use feemarket.Api.{visit}
use feemarket.Api.Params.{Params, empty as empty_params, is_valid as is_there}
use feemarket.Api.State.{State, empty as empty_state, is_valid as has_state}

-- `GenesisState`, without the state that protoimpl keeps in it
pub record GenesisState : Type 0 where
  pub unknown_fields : Option Bytes
  pub params : Option Params
  pub state : Option State

-- `Reset`: the value that `new` gives
abbrev pub empty : GenesisState
empty = record { unknown_fields = none; params = none; state = none }

-- A value of the reflection: a message of either kind.
pub data FieldValue : Type 0 where
  params_value : Option Params → FieldValue
  state_value : Option State → FieldValue

-- `value.Message().Interface().(*Params)` and `value.Message().Interface().(*State)`
abbrev pub as_params : FieldValue → Outcome (Option Params)
as_params (params_value p) = ok p
as_params (state_value s) = panic

abbrev pub as_state : FieldValue → Outcome (Option State)
as_state (params_value p) = panic
as_state (state_value s) = ok s

-- The fields, and the names by which `Has`, `Clear`, `Get`, `Set`, `Mutable` and `NewField` find them
pub data Field : Type 0 where
  fd_params : Field
  fd_state : Field

abbrev pub full_name : Field → String
full_name fd_params = "feemarket.feemarket.v1.GenesisState.params"
full_name fd_state = "feemarket.feemarket.v1.GenesisState.state"

unfoldable pub field_of : String → Option Field
field_of name =
    if str_eq name "feemarket.feemarket.v1.GenesisState.params"
    then some fd_params
    else if str_eq name "feemarket.feemarket.v1.GenesisState.state"
    then some fd_state
    else none

-- `switch fd.FullName()`: the default case panics, for an extension or not.
abbrev by_name : {A : Type 0} → String → (Field → Outcome A) → Outcome A
by_name name f = or_panic (field_of name) >>= f

abbrev pub has_field : GenesisState → Field → Bool
has_field x fd_params = is_there x.params
has_field x fd_state = has_state x.state

abbrev pub clear_field : GenesisState → Field → GenesisState
clear_field x fd_params = record x { params = none }
clear_field x fd_state = record x { state = none }

abbrev pub get_field : GenesisState → Field → FieldValue
get_field x fd_params = params_value x.params
get_field x fd_state = state_value x.state

abbrev pub set_field : GenesisState → Field → FieldValue → Outcome GenesisState
set_field x fd_params v = as_params v >>= λ p. ok (record x { params = p })
set_field x fd_state v = as_state v >>= λ s. ok (record x { state = s })

abbrev pub new_value : Field → FieldValue
new_value fd_params = params_value (some empty_params)
new_value fd_state = state_value (some empty_state)

-- A nil pointer becomes one to a new message, and the message is the one it points to.
abbrev pub mutable_params : GenesisState → GenesisState × FieldValue
mutable_params x = elim x.params [
  | none ↦ (record x { params = some empty_params }, params_value (some empty_params))
  | some p ↦ (x, params_value (some p))
]

abbrev pub mutable_state : GenesisState → GenesisState × FieldValue
mutable_state x = elim x.state [
  | none ↦ (record x { state = some empty_state }, state_value (some empty_state))
  | some s ↦ (x, state_value (some s))
]

abbrev pub mutable_field : GenesisState → Field → Outcome (GenesisState × FieldValue)
mutable_field x fd_params = ok (mutable_params x)
mutable_field x fd_state = ok (mutable_state x)

-- `Has`, `Clear`, `Get`, `Set`, `NewField` and `Mutable`
unfoldable pub has : GenesisState → String → Outcome Bool
has x name = by_name name (λ f. ok (has_field x f))

unfoldable pub clear : GenesisState → String → Outcome GenesisState
clear x name = by_name name (λ f. ok (clear_field x f))

unfoldable pub get : GenesisState → String → Outcome FieldValue
get x name = by_name name (λ f. ok (get_field x f))

unfoldable pub set : GenesisState → String → FieldValue → Outcome GenesisState
set x name v = by_name name (λ f. set_field x f v)

unfoldable pub new_field : String → Outcome FieldValue
new_field name = by_name name (λ f. ok (new_value f))

unfoldable pub mutable : GenesisState → String → Outcome (GenesisState × FieldValue)
mutable x name = by_name name (λ f. mutable_field x f)

-- `WhichOneof`: the message has none.
abbrev pub which_oneof : GenesisState → String → Outcome Field
which_oneof x name = panic

abbrev pub get_unknown : GenesisState → Option Bytes
get_unknown x = x.unknown_fields

abbrev pub set_unknown : GenesisState → Option Bytes → GenesisState
set_unknown x raw = record x { unknown_fields = raw }

-- `IsValid`
abbrev pub is_valid : Option GenesisState → Bool
is_valid none = false
is_valid (some _) = true

-- `Range`
unfoldable pub range : {S : Type 0} → GenesisState → (Field → FieldValue → S → Bool × S) → S → S
range x f =
    visit f (is_there x.params) fd_params (params_value x.params)
      (visit f (has_state x.state) fd_state (state_value x.state) (λ s. s))

-- The getters, whose receiver may be nil
abbrev pub get_params : Option GenesisState → Option Params
get_params none = none
get_params (some x) = x.params

abbrev pub get_state : Option GenesisState → Option State
get_state none = none
get_state (some x) = x.state
