-- ===== src/Api/State.antt =====
-- The message `State` of the API module and its reflection (api/feemarket/feemarket/v1/genesis.pulsar.go).
-- A list of the reflection is a pointer, here the slice that it points to or nil.
pub mod Methods
mod Window
pub mod Reflection
pub mod Round
use feemarket.Prelude.{
  ℕ, Bool, true, false, not, if◌then◌else◌, Option, none, some, [], ◌∷◌, ◌++◌, ◌==◌, String, str_eq,
  length, get_elem?, set as set_elem, ltb,
}
use feemarket.Prelude.Outcome.{Outcome, ok, panic, or_panic}
use feemarket.Prelude.Outcome.Pure.{◌>>=◌}
use feemarket.Sdk.{Bytes}
use feemarket.State.{Slice, elems}
use feemarket.Api.{
  Value, string_value, uint64_value, list_value, as_string, as_uint64, is_empty, visit,
}

-- `State`, without the state that protoimpl keeps in it
pub record State : Type 0 where
  pub unknown_fields : Option Bytes
  pub base_gas_price : Bytes
  pub learning_rate : Bytes
  pub window : Slice
  pub index : ℕ

-- `Reset`: the value that `new` gives
abbrev pub empty : State
empty = record {
  unknown_fields = none;
  base_gas_price = [];
  learning_rate = [];
  window = none;
  index = 0;
}

-- The methods of `_State_3_list`.
abbrev pub list_len : Option Slice → ℕ
list_len none = 0
list_len (some us) = length (elems us)

abbrev pub list_get : Option Slice → ℕ → Outcome Value
list_get list i =
    or_panic list >>= λ us. or_panic (get_elem? (elems us) i) >>= λ u. ok (uint64_value u)

abbrev pub list_set : Option Slice → ℕ → Value → Outcome Slice
list_set list i v = as_uint64 v >>= λ x. or_panic list >>= λ us.
    if ltb i (length (elems us)) then ok (some (set_elem (elems us) i x)) else panic

abbrev pub list_append : Option Slice → Value → Outcome Slice
list_append list v = as_uint64 v >>= λ x. or_panic list >>= λ us. ok (some (elems us ++ x ∷ []))

abbrev pub list_append_mutable : Option Slice → Outcome Value
list_append_mutable list = panic

abbrev pub list_new_element : Value
list_new_element = uint64_value 0

abbrev pub list_is_valid : Option Slice → Bool
list_is_valid none = false
list_is_valid (some _) = true

-- `value.List().(*_State_3_list)` and what it points to
abbrev pub as_list : Value → Outcome Slice
as_list (list_value list) = or_panic list
as_list _ = panic

-- The fields, and the names by which `Has`, `Clear`, `Get`, `Set`, `Mutable` and `NewField` find them
pub data Field : Type 0 where
  fd_base_gas_price : Field
  fd_learning_rate : Field
  fd_window : Field
  fd_index : Field

abbrev pub full_name : Field → String
full_name fd_base_gas_price = "feemarket.feemarket.v1.State.base_gas_price"
full_name fd_learning_rate = "feemarket.feemarket.v1.State.learning_rate"
full_name fd_window = "feemarket.feemarket.v1.State.window"
full_name fd_index = "feemarket.feemarket.v1.State.index"

unfoldable pub field_of : String → Option Field
field_of name =
    if str_eq name "feemarket.feemarket.v1.State.base_gas_price"
    then some fd_base_gas_price
    else if str_eq name "feemarket.feemarket.v1.State.learning_rate"
    then some fd_learning_rate
    else if str_eq name "feemarket.feemarket.v1.State.window"
    then some fd_window
    else if str_eq name "feemarket.feemarket.v1.State.index"
    then some fd_index
    else none

-- `switch fd.FullName()`: the default case panics, for an extension or not.
abbrev by_name : {A : Type 0} → String → (Field → Outcome A) → Outcome A
by_name name f = or_panic (field_of name) >>= f

abbrev pub has_field : State → Field → Bool
has_field s fd_base_gas_price = not (is_empty s.base_gas_price)
has_field s fd_learning_rate = not (is_empty s.learning_rate)
has_field s fd_window = not (is_empty (elems s.window))
has_field s fd_index = not (s.index == 0)

abbrev pub clear_field : State → Field → State
clear_field s fd_base_gas_price = record s { base_gas_price = [] }
clear_field s fd_learning_rate = record s { learning_rate = [] }
clear_field s fd_window = record s { window = none }
clear_field s fd_index = record s { index = 0 }

-- A window with no element is shown as a list that is not valid.
abbrev pub show_window : Slice → Value
show_window us = if is_empty (elems us) then list_value none else list_value (some us)

abbrev pub get_field : State → Field → Value
get_field s fd_base_gas_price = string_value s.base_gas_price
get_field s fd_learning_rate = string_value s.learning_rate
get_field s fd_window = show_window s.window
get_field s fd_index = uint64_value s.index

abbrev pub set_field : State → Field → Value → Outcome State
set_field s fd_base_gas_price v = as_string v >>= λ x. ok (record s { base_gas_price = x })
set_field s fd_learning_rate v = as_string v >>= λ x. ok (record s { learning_rate = x })
set_field s fd_window v = as_list v >>= λ x. ok (record s { window = x })
set_field s fd_index v = as_uint64 v >>= λ x. ok (record s { index = x })

abbrev pub new_value : Field → Value
new_value fd_base_gas_price = string_value []
new_value fd_learning_rate = string_value []
new_value fd_window = list_value (some (some []))
new_value fd_index = uint64_value 0

-- A nil window becomes an empty one, and the list points to it.
abbrev pub mutable_window : State → State × Value
mutable_window s = elim s.window [
  | none ↦ (record s { window = some [] }, list_value (some (some [])))
  | some us ↦ (s, list_value (some (some us)))
]

abbrev pub mutable_field : State → Field → Outcome (State × Value)
mutable_field s fd_window = ok (mutable_window s)
mutable_field s fd_base_gas_price = panic
mutable_field s fd_learning_rate = panic
mutable_field s fd_index = panic

-- `Has`, `Clear`, `Get`, `Set`, `NewField` and `Mutable`
unfoldable pub has : State → String → Outcome Bool
has s name = by_name name (λ f. ok (has_field s f))

unfoldable pub clear : State → String → Outcome State
clear s name = by_name name (λ f. ok (clear_field s f))

unfoldable pub get : State → String → Outcome Value
get s name = by_name name (λ f. ok (get_field s f))

unfoldable pub set : State → String → Value → Outcome State
set s name v = by_name name (λ f. set_field s f v)

unfoldable pub new_field : String → Outcome Value
new_field name = by_name name (λ f. ok (new_value f))

unfoldable pub mutable : State → String → Outcome (State × Value)
mutable s name = by_name name (λ f. mutable_field s f)

-- `WhichOneof`: the message has none.
abbrev pub which_oneof : State → String → Outcome Field
which_oneof s name = panic

abbrev pub get_unknown : State → Option Bytes
get_unknown s = s.unknown_fields

abbrev pub set_unknown : State → Option Bytes → State
set_unknown s raw = record s { unknown_fields = raw }

-- `IsValid`
abbrev pub is_valid : Option State → Bool
is_valid none = false
is_valid (some _) = true

-- `Range`
unfoldable pub range : {S : Type 0} → State → (Field → Value → S → Bool × S) → S → S
range s f =
    visit f (not (is_empty s.base_gas_price)) fd_base_gas_price (string_value s.base_gas_price) (
      visit f (not (is_empty s.learning_rate)) fd_learning_rate (string_value s.learning_rate) (
        visit f (not (is_empty (elems s.window))) fd_window (list_value (some s.window))
          (visit f (not (s.index == 0)) fd_index (uint64_value s.index) (λ s. s))))

-- The getters, whose receiver may be nil
abbrev pub get_base_gas_price : Option State → Bytes
get_base_gas_price none = []
get_base_gas_price (some s) = s.base_gas_price

abbrev pub get_learning_rate : Option State → Bytes
get_learning_rate none = []
get_learning_rate (some s) = s.learning_rate

abbrev pub get_window : Option State → Slice
get_window none = none
get_window (some s) = s.window

abbrev pub get_index : Option State → ℕ
get_index none = 0
get_index (some s) = s.index
