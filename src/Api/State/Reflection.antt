-- ===== src/Api/State/Reflection.antt =====
-- The reflection of the message `State` (api/feemarket/feemarket/v1/genesis.pulsar.go): what `Set` and
-- `Mutable` leave for `Get`.
use feemarket.Prelude.{Option, none, some, ◌≡◌, ◌≢◌, refl, sym, ap, ◌∙◌, String}
use feemarket.Prelude.Outcome.{ok}
use feemarket.State.{Slice}
use feemarket.Api.{Value, string_value, uint64_value, bool_value, list_value, as_string, as_uint64}
use feemarket.Prelude.Outcome.Cases.{ok_injective, panic_ne}
use feemarket.Api.Values.{stored, string_eq, uint64_eq}
use feemarket.Api.State.{
  State, Field, fd_base_gas_price, fd_learning_rate, fd_window, fd_index, as_list, field_of,
  get_field, set_field, show_window, get, set,
}

list_eq : (v : Value) (x : Slice) → as_list v ≡ ok x → v ≡ list_value (some x)
list_eq (string_value b) x h = cc
list_eq (uint64_value b) x h = cc
list_eq (bool_value b) x h = cc
list_eq (list_value none) x h = panic_ne h
list_eq (list_value (some us)) x h = ap (λ us. list_value (some us)) (ok_injective h)

-- How `Get` shows a value that has been stored: a list with no element as one that is not valid.
abbrev pub shown : Value → Value
shown (string_value b) = string_value b
shown (uint64_value v) = uint64_value v
shown (bool_value b) = bool_value b
shown (list_value none) = list_value none
shown (list_value (some us)) = show_window us

-- What a write of one field does.
record Writes (s : State) (f : Field) (v : Value) (q : State) : Type 0 where
  replaced : get_field q f ≡ shown v
  kept : (g : Field) → g ≢ f → get_field q g ≡ get_field s g
  unknown : q.unknown_fields ≡ s.unknown_fields

set_field-Writes :
    (s : State) (f : Field) (v : Value) (q : State) → set_field s f v ≡ ok q → Writes s f v q
set_field-Writes s fd_base_gas_price v q h =
    stored (as_string v) _ (Writes s fd_base_gas_price v) h (λ x e. rw (string_eq v x e) (record {
      replaced = refl;
      kept = λ g.
          elim g
            as (λ k.
              k ≢ fd_base_gas_price
              → get_field (record s { base_gas_price = x }) k ≡ get_field s k) [
                | fd_base_gas_price ↦ λ ne. absurd (ne refl)
                | fd_learning_rate ↦ λ _. refl
                | fd_window ↦ λ _. refl
                | fd_index ↦ λ _. refl
              ];
      unknown = refl;
    }))
set_field-Writes s fd_learning_rate v q h =
    stored (as_string v) _ (Writes s fd_learning_rate v) h (λ x e. rw (string_eq v x e) (record {
      replaced = refl;
      kept = λ g.
          elim g
            as (λ k.
              k ≢ fd_learning_rate → get_field (record s { learning_rate = x }) k ≡ get_field s k) [
                | fd_base_gas_price ↦ λ _. refl
                | fd_learning_rate ↦ λ ne. absurd (ne refl)
                | fd_window ↦ λ _. refl
                | fd_index ↦ λ _. refl
              ];
      unknown = refl;
    }))
set_field-Writes s fd_window v q h = stored (as_list v) _ (Writes s fd_window v) h (λ x e.
    rw (list_eq v x e) (record {
      replaced = refl;
      kept = λ g.
          elim g as (λ k. k ≢ fd_window → get_field (record s { window = x }) k ≡ get_field s k) [
            | fd_base_gas_price ↦ λ _. refl
            | fd_learning_rate ↦ λ _. refl
            | fd_window ↦ λ ne. absurd (ne refl)
            | fd_index ↦ λ _. refl
          ];
      unknown = refl;
    }))
set_field-Writes s fd_index v q h = stored (as_uint64 v) _ (Writes s fd_index v) h (λ x e.
    rw (uint64_eq v x e) (record {
      replaced = refl;
      kept = λ g.
          elim g as (λ k. k ≢ fd_index → get_field (record s { index = x }) k ≡ get_field s k) [
            | fd_base_gas_price ↦ λ _. refl
            | fd_learning_rate ↦ λ _. refl
            | fd_window ↦ λ _. refl
            | fd_index ↦ λ ne. absurd (ne refl)
          ];
      unknown = refl;
    }))

-- What is found under the name of a field that has been written, and under other names.
pub record Leaves (s q : State) (name : String) (v : Value) : Type 0 where
  pub here : get q name ≡ ok (shown v)
  pub elsewhere : (other : String) → field_of other ≢ field_of name → get q other ≡ get s other
  pub unknown : q.unknown_fields ≡ s.unknown_fields

get-other :
    (s q : State) (f : Field) (v : Value) (other : String)
    → Writes s f v q
    → field_of other ≢ some f
    → get q other ≡ get s other
unfolding get
get-other s q f v other w ne = by_field (field_of other) refl
  where
    by_field : (o : Option Field) → field_of other ≡ o → get q other ≡ get s other
    by_field none e = rw e refl
    by_field (some g) e = rw e (ap ok (w.kept g (λ same. ne (e ∙ ap some same))))

-- If Set of a message State returns, then Get under the same name is the value that was set, where
-- a list with no element is shown as one that is not valid; Get under every other name ends as
-- before, and the unknown fields are as before.
pub get-set_state :
    (s q : State) (name : String) (v : Value) → set s name v ≡ ok q → Leaves s q name v
unfolding set get
get-set_state s q name v h = by_field (field_of name) refl
  where
    by_field : (o : Option Field) → field_of name ≡ o → Leaves s q name v
    by_field none e = panic_ne (rw e at h)
    by_field (some f) e =
        let w = set_field-Writes s f v q (rw e at h) in
        record {
          here = rw e (ap ok w.replaced);
          elsewhere = λ other ne. get-other s q f v other w (λ x. ne (x ∙ sym e));
          unknown = w.unknown;
        }
