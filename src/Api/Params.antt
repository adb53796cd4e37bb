-- ===== src/Api/Params.antt =====
-- The message `Params` of the API module and its reflection (api/feemarket/feemarket/v1/params.pulsar.go).
pub mod Methods
pub mod Round
pub mod Table
pub mod Reflection
use feemarket.Prelude.{
  ℕ, Bool, true, false, not, if◌then◌else◌, Option, none, some, [], ◌∷◌, ◌==◌, String, str_eq,
}
use feemarket.Prelude.Outcome.{Outcome, ok, panic, or_panic}
use feemarket.Prelude.Outcome.Pure.{◌>>=◌}
use feemarket.Sdk.{Bytes}
use feemarket.Api.{
  Value, string_value, uint64_value, bool_value, as_string, as_uint64, as_bool, is_empty, visit,
}

-- `Params`, without the state that protoimpl keeps in it
pub record Params : Type 0 where
  pub unknown_fields : Option Bytes
  pub alpha : Bytes
  pub beta : Bytes
  pub gamma : Bytes
  pub delta : Bytes
  pub min_base_gas_price : Bytes
  pub min_learning_rate : Bytes
  pub max_learning_rate : Bytes
  pub max_block_utilization : ℕ
  pub window : ℕ
  pub fee_denom : Bytes
  pub enabled : Bool
  pub distribute_fees : Bool

-- `Reset`: the value that `new` gives
abbrev pub empty : Params
empty = record {
  unknown_fields = none;
  alpha = [];
  beta = [];
  gamma = [];
  delta = [];
  min_base_gas_price = [];
  min_learning_rate = [];
  max_learning_rate = [];
  max_block_utilization = 0;
  window = 0;
  fee_denom = [];
  enabled = false;
  distribute_fees = false;
}

-- The fields, and the names by which `Has`, `Clear`, `Get`, `Set`, `Mutable` and `NewField` find them
pub data Field : Type 0 where
  fd_alpha : Field
  fd_beta : Field
  fd_gamma : Field
  fd_delta : Field
  fd_min_base_gas_price : Field
  fd_min_learning_rate : Field
  fd_max_learning_rate : Field
  fd_max_block_utilization : Field
  fd_window : Field
  fd_fee_denom : Field
  fd_enabled : Field
  fd_distribute_fees : Field

abbrev pub full_name : Field → String
full_name fd_alpha = "feemarket.feemarket.v1.Params.alpha"
full_name fd_beta = "feemarket.feemarket.v1.Params.beta"
full_name fd_gamma = "feemarket.feemarket.v1.Params.gamma"
full_name fd_delta = "feemarket.feemarket.v1.Params.delta"
full_name fd_min_base_gas_price = "feemarket.feemarket.v1.Params.min_base_gas_price"
full_name fd_min_learning_rate = "feemarket.feemarket.v1.Params.min_learning_rate"
full_name fd_max_learning_rate = "feemarket.feemarket.v1.Params.max_learning_rate"
full_name fd_max_block_utilization = "feemarket.feemarket.v1.Params.max_block_utilization"
full_name fd_window = "feemarket.feemarket.v1.Params.window"
full_name fd_fee_denom = "feemarket.feemarket.v1.Params.fee_denom"
full_name fd_enabled = "feemarket.feemarket.v1.Params.enabled"
full_name fd_distribute_fees = "feemarket.feemarket.v1.Params.distribute_fees"

unfoldable pub field_of : String → Option Field
field_of name =
    if str_eq name "feemarket.feemarket.v1.Params.alpha"
    then some fd_alpha
    else if str_eq name "feemarket.feemarket.v1.Params.beta"
    then some fd_beta
    else if str_eq name "feemarket.feemarket.v1.Params.gamma"
    then some fd_gamma
    else if str_eq name "feemarket.feemarket.v1.Params.delta"
    then some fd_delta
    else if str_eq name "feemarket.feemarket.v1.Params.min_base_gas_price"
    then some fd_min_base_gas_price
    else if str_eq name "feemarket.feemarket.v1.Params.min_learning_rate"
    then some fd_min_learning_rate
    else if str_eq name "feemarket.feemarket.v1.Params.max_learning_rate"
    then some fd_max_learning_rate
    else if str_eq name "feemarket.feemarket.v1.Params.max_block_utilization"
    then some fd_max_block_utilization
    else if str_eq name "feemarket.feemarket.v1.Params.window"
    then some fd_window
    else if str_eq name "feemarket.feemarket.v1.Params.fee_denom"
    then some fd_fee_denom
    else if str_eq name "feemarket.feemarket.v1.Params.enabled"
    then some fd_enabled
    else if str_eq name "feemarket.feemarket.v1.Params.distribute_fees"
    then some fd_distribute_fees
    else none

-- `switch fd.FullName()`: the default case panics, for an extension or not.
abbrev by_name : {A : Type 0} → String → (Field → Outcome A) → Outcome A
by_name name f = or_panic (field_of name) >>= f

abbrev pub has_field : Params → Field → Bool
has_field p fd_alpha = not (is_empty p.alpha)
has_field p fd_beta = not (is_empty p.beta)
has_field p fd_gamma = not (is_empty p.gamma)
has_field p fd_delta = not (is_empty p.delta)
has_field p fd_min_base_gas_price = not (is_empty p.min_base_gas_price)
has_field p fd_min_learning_rate = not (is_empty p.min_learning_rate)
has_field p fd_max_learning_rate = not (is_empty p.max_learning_rate)
has_field p fd_max_block_utilization = not (p.max_block_utilization == 0)
has_field p fd_window = not (p.window == 0)
has_field p fd_fee_denom = not (is_empty p.fee_denom)
has_field p fd_enabled = p.enabled
has_field p fd_distribute_fees = p.distribute_fees

abbrev pub clear_field : Params → Field → Params
clear_field p fd_alpha = record p { alpha = [] }
clear_field p fd_beta = record p { beta = [] }
clear_field p fd_gamma = record p { gamma = [] }
clear_field p fd_delta = record p { delta = [] }
clear_field p fd_min_base_gas_price = record p { min_base_gas_price = [] }
clear_field p fd_min_learning_rate = record p { min_learning_rate = [] }
clear_field p fd_max_learning_rate = record p { max_learning_rate = [] }
clear_field p fd_max_block_utilization = record p { max_block_utilization = 0 }
clear_field p fd_window = record p { window = 0 }
clear_field p fd_fee_denom = record p { fee_denom = [] }
clear_field p fd_enabled = record p { enabled = false }
clear_field p fd_distribute_fees = record p { distribute_fees = false }

abbrev pub get_field : Params → Field → Value
get_field p fd_alpha = string_value p.alpha
get_field p fd_beta = string_value p.beta
get_field p fd_gamma = string_value p.gamma
get_field p fd_delta = string_value p.delta
get_field p fd_min_base_gas_price = string_value p.min_base_gas_price
get_field p fd_min_learning_rate = string_value p.min_learning_rate
get_field p fd_max_learning_rate = string_value p.max_learning_rate
get_field p fd_max_block_utilization = uint64_value p.max_block_utilization
get_field p fd_window = uint64_value p.window
get_field p fd_fee_denom = string_value p.fee_denom
get_field p fd_enabled = bool_value p.enabled
get_field p fd_distribute_fees = bool_value p.distribute_fees

abbrev pub set_field : Params → Field → Value → Outcome Params
set_field p fd_alpha v = as_string v >>= λ x. ok (record p { alpha = x })
set_field p fd_beta v = as_string v >>= λ x. ok (record p { beta = x })
set_field p fd_gamma v = as_string v >>= λ x. ok (record p { gamma = x })
set_field p fd_delta v = as_string v >>= λ x. ok (record p { delta = x })
set_field p fd_min_base_gas_price v = as_string v >>= λ x. ok (record p { min_base_gas_price = x })
set_field p fd_min_learning_rate v = as_string v >>= λ x. ok (record p { min_learning_rate = x })
set_field p fd_max_learning_rate v = as_string v >>= λ x. ok (record p { max_learning_rate = x })
set_field p fd_max_block_utilization v =
    as_uint64 v >>= λ x. ok (record p { max_block_utilization = x })
set_field p fd_window v = as_uint64 v >>= λ x. ok (record p { window = x })
set_field p fd_fee_denom v = as_string v >>= λ x. ok (record p { fee_denom = x })
set_field p fd_enabled v = as_bool v >>= λ x. ok (record p { enabled = x })
set_field p fd_distribute_fees v = as_bool v >>= λ x. ok (record p { distribute_fees = x })

abbrev pub new_value : Field → Value
new_value fd_alpha = string_value []
new_value fd_beta = string_value []
new_value fd_gamma = string_value []
new_value fd_delta = string_value []
new_value fd_min_base_gas_price = string_value []
new_value fd_min_learning_rate = string_value []
new_value fd_max_learning_rate = string_value []
new_value fd_max_block_utilization = uint64_value 0
new_value fd_window = uint64_value 0
new_value fd_fee_denom = string_value []
new_value fd_enabled = bool_value false
new_value fd_distribute_fees = bool_value false

-- `Has`, `Clear`, `Get`, `Set` and `NewField`
unfoldable pub has : Params → String → Outcome Bool
has p name = by_name name (λ f. ok (has_field p f))

unfoldable pub clear : Params → String → Outcome Params
clear p name = by_name name (λ f. ok (clear_field p f))

unfoldable pub get : Params → String → Outcome Value
get p name = by_name name (λ f. ok (get_field p f))

unfoldable pub set : Params → String → Value → Outcome Params
set p name v = by_name name (λ f. set_field p f v)

unfoldable pub new_field : String → Outcome Value
new_field name = by_name name (λ f. ok (new_value f))

-- `Mutable`: no field is a list or a message.
abbrev pub mutable : Params → String → Outcome Value
mutable p name = by_name name (λ _. panic)

-- `WhichOneof`: the message has none.
abbrev pub which_oneof : Params → String → Outcome Field
which_oneof p name = panic

abbrev pub get_unknown : Params → Option Bytes
get_unknown p = p.unknown_fields

abbrev pub set_unknown : Params → Option Bytes → Params
set_unknown p raw = record p { unknown_fields = raw }

-- `IsValid`
abbrev pub is_valid : Option Params → Bool
is_valid none = false
is_valid (some _) = true

-- `Range`
unfoldable pub range : {S : Type 0} → Params → (Field → Value → S → Bool × S) → S → S
range p f = visit f (not (is_empty p.alpha)) fd_alpha (string_value p.alpha) (
    visit f (not (is_empty p.beta)) fd_beta (string_value p.beta) (
      visit f (not (is_empty p.gamma)) fd_gamma (string_value p.gamma) (
        visit f (not (is_empty p.delta)) fd_delta (string_value p.delta) (
          visit f (not (is_empty p.min_base_gas_price)) fd_min_base_gas_price
            (string_value p.min_base_gas_price)
            (visit f (not (is_empty p.min_learning_rate)) fd_min_learning_rate
              (string_value p.min_learning_rate)
              (visit f (not (is_empty p.max_learning_rate)) fd_max_learning_rate
                (string_value p.max_learning_rate)
                (visit f (not (p.max_block_utilization == 0)) fd_max_block_utilization
                  (uint64_value p.max_block_utilization)
                  (visit f (not (p.window == 0)) fd_window (uint64_value p.window) (
                    visit f (not (is_empty p.fee_denom)) fd_fee_denom (string_value p.fee_denom) (
                      visit f (p.enabled) fd_enabled (bool_value p.enabled) (
                        visit f (p.distribute_fees) fd_distribute_fees
                          (bool_value p.distribute_fees) (λ s. s))))))))))))

-- The getters, whose receiver may be nil
abbrev pub get_alpha : Option Params → Bytes
get_alpha none = []
get_alpha (some p) = p.alpha

abbrev pub get_beta : Option Params → Bytes
get_beta none = []
get_beta (some p) = p.beta

abbrev pub get_gamma : Option Params → Bytes
get_gamma none = []
get_gamma (some p) = p.gamma

abbrev pub get_delta : Option Params → Bytes
get_delta none = []
get_delta (some p) = p.delta

abbrev pub get_min_base_gas_price : Option Params → Bytes
get_min_base_gas_price none = []
get_min_base_gas_price (some p) = p.min_base_gas_price

abbrev pub get_min_learning_rate : Option Params → Bytes
get_min_learning_rate none = []
get_min_learning_rate (some p) = p.min_learning_rate

abbrev pub get_max_learning_rate : Option Params → Bytes
get_max_learning_rate none = []
get_max_learning_rate (some p) = p.max_learning_rate

abbrev pub get_max_block_utilization : Option Params → ℕ
get_max_block_utilization none = 0
get_max_block_utilization (some p) = p.max_block_utilization

abbrev pub get_window : Option Params → ℕ
get_window none = 0
get_window (some p) = p.window

abbrev pub get_fee_denom : Option Params → Bytes
get_fee_denom none = []
get_fee_denom (some p) = p.fee_denom

abbrev pub get_enabled : Option Params → Bool
get_enabled none = false
get_enabled (some p) = p.enabled

abbrev pub get_distribute_fees : Option Params → Bool
get_distribute_fees none = false
get_distribute_fees (some p) = p.distribute_fees
