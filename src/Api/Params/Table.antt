-- ===== src/Api/Params/Table.antt =====
-- The reflection of the message `Params` (api/feemarket/feemarket/v1/params.pulsar.go) as a table with a
-- value for each field.
use feemarket.Prelude.{
  ℕ, Bool, true, false, not, some, List, [], ◌∷◌, map, ◌≡◌, ◌≢◌, ◌<◌, refl, sym, ap, ◌∙◌, length,
  get_elem?, set as set_elem, get_elem?-set_self, get_elem?-set_ne, lt-get_elem?,
}
use mathlib.Core.Option.{some-injective}
use feemarket.Prelude.Outcome.{ok}
use feemarket.Api.{Value, as_string, as_uint64, as_bool, is_default}
use feemarket.Api.Values.{stored, string_eq, uint64_eq, bool_eq}
use feemarket.Api.Params.{
  Params, Field, fd_alpha, fd_beta, fd_gamma, fd_delta, fd_min_base_gas_price, fd_min_learning_rate,
  fd_max_learning_rate, fd_max_block_utilization, fd_window, fd_fee_denom, fd_enabled,
  fd_distribute_fees, has_field, clear_field, get_field, set_field, new_value,
}

-- The fields in the order of their numbers.
abbrev pub fields : List Field
fields =
    fd_alpha ∷ fd_beta ∷ fd_gamma ∷ fd_delta ∷ fd_min_base_gas_price ∷ fd_min_learning_rate
    ∷ fd_max_learning_rate ∷ fd_max_block_utilization ∷ fd_window ∷ fd_fee_denom ∷ fd_enabled
    ∷ fd_distribute_fees ∷ []

abbrev pub index : Field → ℕ
index fd_alpha = 0
index fd_beta = 1
index fd_gamma = 2
index fd_delta = 3
index fd_min_base_gas_price = 4
index fd_min_learning_rate = 5
index fd_max_learning_rate = 6
index fd_max_block_utilization = 7
index fd_window = 8
index fd_fee_denom = 9
index fd_enabled = 10
index fd_distribute_fees = 11

abbrev pub table : Params → List Value
table p = map (get_field p) fields

pub at_index : (f : Field) → get_elem? fields (index f) ≡ some f
at_index fd_alpha = refl
at_index fd_beta = refl
at_index fd_gamma = refl
at_index fd_delta = refl
at_index fd_min_base_gas_price = refl
at_index fd_min_learning_rate = refl
at_index fd_max_learning_rate = refl
at_index fd_max_block_utilization = refl
at_index fd_window = refl
at_index fd_fee_denom = refl
at_index fd_enabled = refl
at_index fd_distribute_fees = refl

pub get_elem?-table :
    (p : Params) (f : Field) → get_elem? (table p) (index f) ≡ some (get_field p f)
get_elem?-table p fd_alpha = refl
get_elem?-table p fd_beta = refl
get_elem?-table p fd_gamma = refl
get_elem?-table p fd_delta = refl
get_elem?-table p fd_min_base_gas_price = refl
get_elem?-table p fd_min_learning_rate = refl
get_elem?-table p fd_max_learning_rate = refl
get_elem?-table p fd_max_block_utilization = refl
get_elem?-table p fd_window = refl
get_elem?-table p fd_fee_denom = refl
get_elem?-table p fd_enabled = refl
get_elem?-table p fd_distribute_fees = refl

not-not : (b : Bool) → b ≡ not (not b)
not-not true = refl
not-not false = refl

pub has_field-get_field :
    (p : Params) (f : Field) → has_field p f ≡ not (is_default (get_field p f))
has_field-get_field p fd_alpha = refl
has_field-get_field p fd_beta = refl
has_field-get_field p fd_gamma = refl
has_field-get_field p fd_delta = refl
has_field-get_field p fd_min_base_gas_price = refl
has_field-get_field p fd_min_learning_rate = refl
has_field-get_field p fd_max_learning_rate = refl
has_field-get_field p fd_max_block_utilization = refl
has_field-get_field p fd_window = refl
has_field-get_field p fd_fee_denom = refl
has_field-get_field p fd_enabled = not-not p.enabled
has_field-get_field p fd_distribute_fees = not-not p.distribute_fees

-- What a write of one field does: its value is replaced, and the rest is as before.
pub record Writes (p : Params) (f : Field) (v : Value) (q : Params) : Type 0 where
  pub replaced : table q ≡ set_elem (table p) (index f) v
  pub unknown : q.unknown_fields ≡ p.unknown_fields

pub set_field-Writes :
    (p : Params) (f : Field) (v : Value) (q : Params) → set_field p f v ≡ ok q → Writes p f v q
set_field-Writes p fd_alpha v q h =
    stored (as_string v) _ (Writes p fd_alpha v) h
      (λ x e. rw (string_eq v x e) (record { replaced = refl; unknown = refl }))
set_field-Writes p fd_beta v q h =
    stored (as_string v) _ (Writes p fd_beta v) h
      (λ x e. rw (string_eq v x e) (record { replaced = refl; unknown = refl }))
set_field-Writes p fd_gamma v q h =
    stored (as_string v) _ (Writes p fd_gamma v) h
      (λ x e. rw (string_eq v x e) (record { replaced = refl; unknown = refl }))
set_field-Writes p fd_delta v q h =
    stored (as_string v) _ (Writes p fd_delta v) h
      (λ x e. rw (string_eq v x e) (record { replaced = refl; unknown = refl }))
set_field-Writes p fd_min_base_gas_price v q h =
    stored (as_string v) _ (Writes p fd_min_base_gas_price v) h
      (λ x e. rw (string_eq v x e) (record { replaced = refl; unknown = refl }))
set_field-Writes p fd_min_learning_rate v q h =
    stored (as_string v) _ (Writes p fd_min_learning_rate v) h
      (λ x e. rw (string_eq v x e) (record { replaced = refl; unknown = refl }))
set_field-Writes p fd_max_learning_rate v q h =
    stored (as_string v) _ (Writes p fd_max_learning_rate v) h
      (λ x e. rw (string_eq v x e) (record { replaced = refl; unknown = refl }))
set_field-Writes p fd_max_block_utilization v q h =
    stored (as_uint64 v) _ (Writes p fd_max_block_utilization v) h
      (λ x e. rw (uint64_eq v x e) (record { replaced = refl; unknown = refl }))
set_field-Writes p fd_window v q h =
    stored (as_uint64 v) _ (Writes p fd_window v) h
      (λ x e. rw (uint64_eq v x e) (record { replaced = refl; unknown = refl }))
set_field-Writes p fd_fee_denom v q h =
    stored (as_string v) _ (Writes p fd_fee_denom v) h
      (λ x e. rw (string_eq v x e) (record { replaced = refl; unknown = refl }))
set_field-Writes p fd_enabled v q h =
    stored (as_bool v) _ (Writes p fd_enabled v) h
      (λ x e. rw (bool_eq v x e) (record { replaced = refl; unknown = refl }))
set_field-Writes p fd_distribute_fees v q h =
    stored (as_bool v) _ (Writes p fd_distribute_fees v) h
      (λ x e. rw (bool_eq v x e) (record { replaced = refl; unknown = refl }))

pub clear_field-Writes : (p : Params) (f : Field) → Writes p f (new_value f) (clear_field p f)
clear_field-Writes p fd_alpha = record { replaced = refl; unknown = refl }
clear_field-Writes p fd_beta = record { replaced = refl; unknown = refl }
clear_field-Writes p fd_gamma = record { replaced = refl; unknown = refl }
clear_field-Writes p fd_delta = record { replaced = refl; unknown = refl }
clear_field-Writes p fd_min_base_gas_price = record { replaced = refl; unknown = refl }
clear_field-Writes p fd_min_learning_rate = record { replaced = refl; unknown = refl }
clear_field-Writes p fd_max_learning_rate = record { replaced = refl; unknown = refl }
clear_field-Writes p fd_max_block_utilization = record { replaced = refl; unknown = refl }
clear_field-Writes p fd_window = record { replaced = refl; unknown = refl }
clear_field-Writes p fd_fee_denom = record { replaced = refl; unknown = refl }
clear_field-Writes p fd_enabled = record { replaced = refl; unknown = refl }
clear_field-Writes p fd_distribute_fees = record { replaced = refl; unknown = refl }

pub index-injective : (f g : Field) → index f ≡ index g → f ≡ g
index-injective f g e = some-injective f g (sym (at_index f) ∙ ap (get_elem? fields) e ∙ at_index g)

pub index_lt : (p : Params) (f : Field) → index f < length (table p)
index_lt p f = lt-get_elem? (table p) (index f) (get_elem?-table p f)

-- What a write leaves in its field, and in another.
pub get_field-Writes :
    (p : Params) (f : Field) (v : Value) (q : Params) → Writes p f v q → get_field q f ≡ v
get_field-Writes p f v q w = some-injective (get_field q f) v (
    sym (get_elem?-table q f)
    ∙ ap (λ t. get_elem? t (index f)) w.replaced
    ∙ get_elem?-set_self (table p) (index f) v (index_lt p f))

pub get_field-Writes_other :
    (p : Params) (f g : Field) (v : Value) (q : Params)
    → Writes p f v q
    → g ≢ f
    → get_field q g ≡ get_field p g
get_field-Writes_other p f g v q w other = some-injective (get_field q g) (get_field p g) (
    sym (get_elem?-table q g)
    ∙ ap (λ t. get_elem? t (index g)) w.replaced
    ∙ get_elem?-set_ne (table p) v (λ e. other (sym (index-injective f g e)))
    ∙ get_elem?-table p g)
