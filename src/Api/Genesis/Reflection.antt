-- ===== src/Api/Genesis/Reflection.antt =====
-- The reflection of the message `GenesisState` (api/feemarket/feemarket/v1/genesis.pulsar.go): what `Set`
-- leaves for `Get`.
use feemarket.Prelude.{Option, none, some, ◌≡◌, ◌≢◌, refl, sym, ap, ◌∙◌, String}
use feemarket.Prelude.Outcome.{ok}
use feemarket.Prelude.Outcome.Cases.{ok_injective, panic_ne}
use feemarket.Api.Values.{stored}
use feemarket.Api.Params.{Params}
use feemarket.Api.State.{State}
use feemarket.Api.Genesis.{
  GenesisState, FieldValue, params_value, state_value, as_params, as_state, Field, fd_params,
  fd_state, field_of, get_field, set_field, get, set,
}

params_eq : (v : FieldValue) (p : Option Params) → as_params v ≡ ok p → v ≡ params_value p
params_eq (params_value q) p h = ap params_value (ok_injective h)
params_eq (state_value s) p h = panic_ne h

state_eq : (v : FieldValue) (s : Option State) → as_state v ≡ ok s → v ≡ state_value s
state_eq (params_value q) s h = panic_ne h
state_eq (state_value t) s h = ap state_value (ok_injective h)

-- What a write of one field does.
record Writes (x : GenesisState) (f : Field) (v : FieldValue) (q : GenesisState) : Type 0 where
  replaced : get_field q f ≡ v
  kept : (g : Field) → g ≢ f → get_field q g ≡ get_field x g
  unknown : q.unknown_fields ≡ x.unknown_fields

set_field-Writes :
    (x : GenesisState) (f : Field) (v : FieldValue) (q : GenesisState)
    → set_field x f v ≡ ok q
    → Writes x f v q
set_field-Writes x fd_params v q h = stored (as_params v) _ (Writes x fd_params v) h (λ p e.
    rw (params_eq v p e) (record {
      replaced = refl;
      kept = λ g.
          elim g as (λ k. k ≢ fd_params → get_field (record x { params = p }) k ≡ get_field x k) [
            | fd_params ↦ λ ne. absurd (ne refl)
            | fd_state ↦ λ _. refl
          ];
      unknown = refl;
    }))
set_field-Writes x fd_state v q h = stored (as_state v) _ (Writes x fd_state v) h (λ b e.
    rw (state_eq v b e) (record {
      replaced = refl;
      kept = λ g.
          elim g as (λ k. k ≢ fd_state → get_field (record x { state = b }) k ≡ get_field x k) [
            | fd_params ↦ λ _. refl
            | fd_state ↦ λ ne. absurd (ne refl)
          ];
      unknown = refl;
    }))

-- What is found under the name of a field that has been written, and under other names.
pub record Leaves (x q : GenesisState) (name : String) (v : FieldValue) : Type 0 where
  pub here : get q name ≡ ok v
  pub elsewhere : (other : String) → field_of other ≢ field_of name → get q other ≡ get x other
  pub unknown : q.unknown_fields ≡ x.unknown_fields

get-other :
    (x q : GenesisState) (f : Field) (v : FieldValue) (other : String)
    → Writes x f v q
    → field_of other ≢ some f
    → get q other ≡ get x other
unfolding get
get-other x q f v other w ne = by_field (field_of other) refl
  where
    by_field : (o : Option Field) → field_of other ≡ o → get q other ≡ get x other
    by_field none e = rw e refl
    by_field (some g) e = rw e (ap ok (w.kept g (λ same. ne (e ∙ ap some same))))

-- If Set of a message GenesisState returns, then Get under the same name is the value that was set.
pub get-set_genesis_state :
    (x q : GenesisState) (name : String) (v : FieldValue) → set x name v ≡ ok q → Leaves x q name v
unfolding set get
get-set_genesis_state x q name v h = by_field (field_of name) refl
  where
    by_field : (o : Option Field) → field_of name ≡ o → Leaves x q name v
    by_field none e = panic_ne (rw e at h)
    by_field (some f) e =
        let w = set_field-Writes x f v q (rw e at h) in
        record {
          here = rw e (ap ok w.replaced);
          elsewhere = λ other ne. get-other x q f v other w (λ y. ne (y ∙ sym e));
          unknown = w.unknown;
        }
