-- ===== src/Api/MsgParams.antt =====
-- The messages `MsgParams` and `MsgParamsResponse` of the API module and the reflection of the first
-- (api/feemarket/feemarket/v1/tx.pulsar.go). A message of the reflection is a pointer, here the message that it
-- points to or nil: that two messages can share one is not modelled.
pub mod Methods
pub mod Round
pub mod Reflection
pub mod Response
use feemarket.Prelude.{
  Bool, true, false, not, if◌then◌else◌, Option, none, some, [], String, str_eq,
}
use feemarket.Prelude.Outcome.{Outcome, ok, panic, or_panic}
use feemarket.Prelude.Outcome.Pure.{◌>>=◌}
use feemarket.Sdk.{Bytes}
use feemarket.Api.{Value, string_value, as_string, is_empty, visit}
use feemarket.Api.Params.{Params, empty as empty_params, is_valid as is_there}

-- `MsgParams` and `MsgParamsResponse`, without the state that protoimpl keeps in them
pub record MsgParams : Type 0 where
  pub unknown_fields : Option Bytes
  pub params : Option Params
  pub authority : Bytes

pub record MsgParamsResponse : Type 0 where
  pub unknown_fields : Option Bytes

-- `Reset`: the value that `new` gives
abbrev pub empty : MsgParams
empty = record { unknown_fields = none; params = none; authority = [] }

abbrev pub empty_response : MsgParamsResponse
empty_response = record { unknown_fields = none }

-- A value of the reflection: a message, or one that is not.
pub data FieldValue : Type 0 where
  params_value : Option Params → FieldValue
  plain_value : Value → FieldValue

-- `value.Message().Interface().(*Params)` and `value.Interface().(string)`
abbrev pub as_params : FieldValue → Outcome (Option Params)
as_params (params_value p) = ok p
as_params (plain_value v) = panic

abbrev pub as_text : FieldValue → Outcome Bytes
as_text (params_value p) = panic
as_text (plain_value v) = as_string v

-- The fields, and the names by which `Has`, `Clear`, `Get`, `Set`, `Mutable` and `NewField` find them
pub data Field : Type 0 where
  fd_params : Field
  fd_authority : Field

abbrev pub full_name : Field → String
full_name fd_params = "feemarket.feemarket.v1.MsgParams.params"
full_name fd_authority = "feemarket.feemarket.v1.MsgParams.authority"

unfoldable pub field_of : String → Option Field
field_of name =
    if str_eq name "feemarket.feemarket.v1.MsgParams.params"
    then some fd_params
    else if str_eq name "feemarket.feemarket.v1.MsgParams.authority"
    then some fd_authority
    else none

-- `switch fd.FullName()`: the default case panics, for an extension or not.
abbrev by_name : {A : Type 0} → String → (Field → Outcome A) → Outcome A
by_name name f = or_panic (field_of name) >>= f

abbrev pub has_field : MsgParams → Field → Bool
has_field x fd_params = is_there x.params
has_field x fd_authority = not (is_empty x.authority)

abbrev pub clear_field : MsgParams → Field → MsgParams
clear_field x fd_params = record x { params = none }
clear_field x fd_authority = record x { authority = [] }

abbrev pub get_field : MsgParams → Field → FieldValue
get_field x fd_params = params_value x.params
get_field x fd_authority = plain_value (string_value x.authority)

abbrev pub set_field : MsgParams → Field → FieldValue → Outcome MsgParams
set_field x fd_params v = as_params v >>= λ p. ok (record x { params = p })
set_field x fd_authority v = as_text v >>= λ b. ok (record x { authority = b })

abbrev pub new_value : Field → FieldValue
new_value fd_params = params_value (some empty_params)
new_value fd_authority = plain_value (string_value [])

-- A nil pointer becomes one to new parameters, and the message is the one it points to.
abbrev pub mutable_params : MsgParams → MsgParams × FieldValue
mutable_params x = elim x.params [
  | none ↦ (record x { params = some empty_params }, params_value (some empty_params))
  | some p ↦ (x, params_value (some p))
]

abbrev pub mutable_field : MsgParams → Field → Outcome (MsgParams × FieldValue)
mutable_field x fd_params = ok (mutable_params x)
mutable_field x fd_authority = panic

-- `Has`, `Clear`, `Get`, `Set`, `NewField` and `Mutable`
unfoldable pub has : MsgParams → String → Outcome Bool
has x name = by_name name (λ f. ok (has_field x f))

unfoldable pub clear : MsgParams → String → Outcome MsgParams
clear x name = by_name name (λ f. ok (clear_field x f))

unfoldable pub get : MsgParams → String → Outcome FieldValue
get x name = by_name name (λ f. ok (get_field x f))

unfoldable pub set : MsgParams → String → FieldValue → Outcome MsgParams
set x name v = by_name name (λ f. set_field x f v)

unfoldable pub new_field : String → Outcome FieldValue
new_field name = by_name name (λ f. ok (new_value f))

unfoldable pub mutable : MsgParams → String → Outcome (MsgParams × FieldValue)
mutable x name = by_name name (λ f. mutable_field x f)

-- `WhichOneof`: the message has none.
abbrev pub which_oneof : MsgParams → String → Outcome Field
which_oneof x name = panic

abbrev pub get_unknown : MsgParams → Option Bytes
get_unknown x = x.unknown_fields

abbrev pub set_unknown : MsgParams → Option Bytes → MsgParams
set_unknown x raw = record x { unknown_fields = raw }

-- `IsValid`
abbrev pub is_valid : Option MsgParams → Bool
is_valid none = false
is_valid (some _) = true

-- `Range`
unfoldable pub range : {S : Type 0} → MsgParams → (Field → FieldValue → S → Bool × S) → S → S
range x f = visit f (is_there x.params) fd_params (params_value x.params) (
    visit f (not (is_empty x.authority)) fd_authority (plain_value (string_value x.authority))
      (λ s. s))

-- The getters, whose receiver may be nil
abbrev pub get_params : Option MsgParams → Option Params
get_params none = none
get_params (some x) = x.params

abbrev pub get_authority : Option MsgParams → Bytes
get_authority none = []
get_authority (some x) = x.authority
