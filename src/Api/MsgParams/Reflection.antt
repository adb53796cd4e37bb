-- ===== src/Api/MsgParams/Reflection.antt =====
-- The reflection of the message `MsgParams` (api/feemarket/feemarket/v1/tx.pulsar.go): what `Set` and `Mutable`
-- leave for `Get` and `Has`.
use feemarket.Prelude.{true, Option, none, some, ◌≡◌, ◌≢◌, refl, sym, ap, ◌∙◌, String}
use feemarket.Prelude.Outcome.{ok}
use feemarket.Prelude.Outcome.Cases.{ok_injective, panic_ne}
use feemarket.Sdk.{Bytes}
use feemarket.Api.{string_value}
use feemarket.Api.Values.{stored, string_eq}
use feemarket.Api.Params.{Params, empty as empty_params}
use feemarket.Api.Nested.{or_new}
use feemarket.Api.MsgParams.{
  MsgParams, FieldValue, params_value, plain_value, as_params, as_text, Field, fd_params,
  fd_authority, field_of, get_field, set_field, has, get, set, mutable,
}

params_eq : (v : FieldValue) (p : Option Params) → as_params v ≡ ok p → v ≡ params_value p
params_eq (params_value q) p h = ap params_value (ok_injective h)
params_eq (plain_value v) p h = panic_ne h

text_eq : (v : FieldValue) (b : Bytes) → as_text v ≡ ok b → v ≡ plain_value (string_value b)
text_eq (params_value q) b h = panic_ne h
text_eq (plain_value v) b h = ap plain_value (string_eq v b h)

-- What a write of one field does.
record Writes (x : MsgParams) (f : Field) (v : FieldValue) (q : MsgParams) : Type 0 where
  replaced : get_field q f ≡ v
  kept : (g : Field) → g ≢ f → get_field q g ≡ get_field x g
  unknown : q.unknown_fields ≡ x.unknown_fields

set_field-Writes :
    (x : MsgParams) (f : Field) (v : FieldValue) (q : MsgParams)
    → set_field x f v ≡ ok q
    → Writes x f v q
set_field-Writes x fd_params v q h = stored (as_params v) _ (Writes x fd_params v) h (λ p e.
    rw (params_eq v p e) (record {
      replaced = refl;
      kept = λ g.
          elim g as (λ k. k ≢ fd_params → get_field (record x { params = p }) k ≡ get_field x k) [
            | fd_params ↦ λ ne. absurd (ne refl)
            | fd_authority ↦ λ _. refl
          ];
      unknown = refl;
    }))
set_field-Writes x fd_authority v q h = stored (as_text v) _ (Writes x fd_authority v) h (λ b e.
    rw (text_eq v b e) (record {
      replaced = refl;
      kept = λ g.
          elim g
            as (λ k. k ≢ fd_authority → get_field (record x { authority = b }) k ≡ get_field x k) [
              | fd_params ↦ λ _. refl
              | fd_authority ↦ λ ne. absurd (ne refl)
            ];
      unknown = refl;
    }))

-- What is found under the name of a field that has been written, and under other names.
pub record Leaves (x q : MsgParams) (name : String) (v : FieldValue) : Type 0 where
  pub here : get q name ≡ ok v
  pub elsewhere : (other : String) → field_of other ≢ field_of name → get q other ≡ get x other
  pub unknown : q.unknown_fields ≡ x.unknown_fields

get-other :
    (x q : MsgParams) (f : Field) (v : FieldValue) (other : String)
    → Writes x f v q
    → field_of other ≢ some f
    → get q other ≡ get x other
unfolding get
get-other x q f v other w ne = by_field (field_of other) refl
  where
    by_field : (o : Option Field) → field_of other ≡ o → get q other ≡ get x other
    by_field none e = rw e refl
    by_field (some g) e = rw e (ap ok (w.kept g (λ same. ne (e ∙ ap some same))))

-- If Set of a message MsgParams returns, then Get under the same name is the value that was set.
pub get-set_msg_params :
    (x q : MsgParams) (name : String) (v : FieldValue) → set x name v ≡ ok q → Leaves x q name v
unfolding set get
get-set_msg_params x q name v h = by_field (field_of name) refl
  where
    by_field : (o : Option Field) → field_of name ≡ o → Leaves x q name v
    by_field none e = panic_ne (rw e at h)
    by_field (some f) e =
        let w = set_field-Writes x f v q (rw e at h) in
        record {
          here = rw e (ap ok w.replaced);
          elsewhere = λ other ne. get-other x q f v other w (λ y. ne (y ∙ sym e));
          unknown = w.unknown;
        }

-- If Mutable of a message MsgParams returns, its value is that of the parameters that are there, or
-- of new ones; Has and Get then find them under the same name, the authority and the unknown fields
-- are as before, and a second Mutable changes nothing.
pub has-mutable :
    (x q : MsgParams) (name : String) (v : FieldValue)
    → mutable x name ≡ ok (q, v)
    → (v ≡ params_value (or_new empty_params x.params))
      × (has q name ≡ ok true)
      × (get q name ≡ ok v)
      × (q.authority ≡ x.authority)
      × (q.unknown_fields ≡ x.unknown_fields)
      × (mutable q name ≡ ok (q, v))
unfolding mutable has get
has-mutable x q name v h = by_field (field_of name) x.params refl refl
  where
    by_field :
        (o : Option Field) (p : Option Params)
        → field_of name ≡ o
        → x.params ≡ p
        → (v ≡ params_value (or_new empty_params x.params))
          × (has q name ≡ ok true)
          × (get q name ≡ ok v)
          × (q.authority ≡ x.authority)
          × (q.unknown_fields ≡ x.unknown_fields)
          × (mutable q name ≡ ok (q, v))
    by_field none p e e' = panic_ne (rw e at h)
    by_field (some fd_authority) p e e' = panic_ne (rw e at h)
    by_field (some fd_params) none e e' =
        let same = ok_injective (rw (e, e') at h) in
        rw (e, e', ← ap (λ r. r.0) same, ← ap (λ r. r.1) same) (refl, refl, refl, refl, refl, refl)
    by_field (some fd_params) (some p) e e' =
        let same = ok_injective (rw (e, e') at h) in
        rw (e, ← ap (λ r. r.0) same, ← ap (λ r. r.1) same, e') (refl, refl, refl, refl, refl, refl)
