-- ===== src/Api/Params/Reflection.antt =====
-- The reflection of the message `Params` (api/feemarket/feemarket/v1/params.pulsar.go): what `Set` and
-- `Clear` leave for `Get` and `Has`, and what `Range` visits.
use feemarket.Prelude.{
  Bool, false, not, Option, none, some, List, [], ◌∷◌, ◌≡◌, ◌≢◌, refl, sym, ap, ◌∙◌, String,
  if◌then◌else◌, Bool-cases, inl, inr,
}
use feemarket.Prelude.Outcome.{ok}
use feemarket.Api.{Value, is_default, visit}
use feemarket.Prelude.Outcome.Cases.{ok_injective, panic_ne}
use feemarket.Api.Params.{
  Params, Field, fd_alpha, fd_beta, fd_gamma, fd_delta, fd_min_base_gas_price, fd_min_learning_rate,
  fd_max_learning_rate, fd_max_block_utilization, fd_window, fd_fee_denom, fd_enabled,
  fd_distribute_fees, field_of, has_field, get_field, new_value, has, clear, get, set, new_field,
  range,
}
use feemarket.Api.Params.Table.{
  fields, Writes, has_field-get_field, set_field-Writes, clear_field-Writes, get_field-Writes,
  get_field-Writes_other,
}

-- What is found under the name of a field that has been written, and under other names.
pub record Leaves (p q : Params) (name : String) (v : Value) : Type 0 where
  pub here : get q name ≡ ok v
  pub elsewhere : (other : String) → field_of other ≢ field_of name → get q other ≡ get p other
  pub unknown : q.unknown_fields ≡ p.unknown_fields

get-other :
    (p q : Params) (f : Field) (v : Value) (other : String)
    → Writes p f v q
    → field_of other ≢ some f
    → get q other ≡ get p other
unfolding get
get-other p q f v other w ne = by_field (field_of other) refl
  where
    by_field : (o : Option Field) → field_of other ≡ o → get q other ≡ get p other
    by_field none e = rw e refl
    by_field (some g) e =
        rw e (ap ok (get_field-Writes_other p f g v q w (λ same. ne (e ∙ ap some same))))

leaves :
    (p q : Params) (name : String) (f : Field) (v : Value)
    → field_of name ≡ some f
    → Writes p f v q
    → Leaves p q name v
unfolding get
leaves p q name f v e w = record {
  here = rw e (ap ok (get_field-Writes p f v q w));
  elsewhere = λ other ne. get-other p q f v other w (λ x. ne (x ∙ sym e));
  unknown = w.unknown;
}

-- If Set of a message Params returns, then Get under the same name is the value that was set, Get
-- under the name of any other field, or under a name that is no field, ends as before, and the
-- unknown fields are as before.
pub get-set_params :
    (p q : Params) (name : String) (v : Value) → set p name v ≡ ok q → Leaves p q name v
unfolding set
get-set_params p q name v h = by_field (field_of name) refl
  where
    by_field : (o : Option Field) → field_of name ≡ o → Leaves p q name v
    by_field none e = panic_ne (rw e at h)
    by_field (some f) e = leaves p q name f v e (set_field-Writes p f v q (rw e at h))

new_value_default : (f : Field) → not (is_default (new_value f)) ≡ false
new_value_default fd_alpha = refl
new_value_default fd_beta = refl
new_value_default fd_gamma = refl
new_value_default fd_delta = refl
new_value_default fd_min_base_gas_price = refl
new_value_default fd_min_learning_rate = refl
new_value_default fd_max_learning_rate = refl
new_value_default fd_max_block_utilization = refl
new_value_default fd_window = refl
new_value_default fd_fee_denom = refl
new_value_default fd_enabled = refl
new_value_default fd_distribute_fees = refl

-- If Clear of a message Params returns, then Has is false, Get is the value that NewField gives,
-- and every other field and the unknown fields are as before.
pub has-clear :
    (p q : Params) (name : String)
    → clear p name ≡ ok q
    → (v : Value) × (new_field name ≡ ok v) × Leaves p q name v × (has q name ≡ ok false)
unfolding clear new_field has
has-clear p q name h = by_field (field_of name) refl
  where
    by_field :
        (o : Option Field)
        → field_of name ≡ o
        → (v : Value) × (new_field name ≡ ok v) × Leaves p q name v × (has q name ≡ ok false)
    by_field none e = panic_ne (rw e at h)
    by_field (some f) e =
        let same = ok_injective (rw e at h) in
        let w = rw same at (clear_field-Writes p f) in
        let gone : has_field q f ≡ false =
          has_field-get_field q f
          ∙ ap (λ v. not (is_default v)) (get_field-Writes p f (new_value f) q w)
          ∙ new_value_default f in
        (new_value f, rw e refl, leaves p q name f (new_value f) e w, rw e (ap ok gone))

-- `Has` is whether `Get` gives another value than the default one.
pub has-get :
    (p : Params) (name : String) (v : Value)
    → get p name ≡ ok v
    → has p name ≡ ok (not (is_default v))
unfolding get has
has-get p name v h = by_field (field_of name) refl
  where
    by_field : (o : Option Field) → field_of name ≡ o → has p name ≡ ok (not (is_default v))
    by_field none e = panic_ne (rw e at h)
    by_field (some f) e =
        rw (e, has_field-get_field p f)
          (ap (λ v. ok (not (is_default v))) (ok_injective (rw e at h)))

-- The fields that are set, with their values.
abbrev pub populated : Params → List Field → List (Field × Value)
populated p [] = []
populated p (f ∷ fs) =
    let rest = populated p fs in if has_field p f then (f, get_field p f) ∷ rest else rest

-- A callback run on a list until it says to stop.
abbrev pub visits : {S : Type 0} → (Field → Value → S → Bool × S) → List (Field × Value) → S → S
visits callback [] s = s
visits callback ((f, v) ∷ rest) s =
    let r = callback f v s in let more = visits callback rest r.1 in if r.0 then more else r.1

-- One turn for each of the fields.
abbrev each : {S : Type 0} → (Field → Value → S → Bool × S) → Params → List Field → S → S
each callback p [] s = s
each callback p (f ∷ fs) s = visit callback (has_field p f) f (get_field p f) (each callback p fs) s

each-visits :
    {S : Type 0} (callback : Field → Value → S → Bool × S) (p : Params) (fs : List Field) (s : S)
    → each callback p fs s ≡ visits callback (populated p fs) s
each-visits callback p [] s = refl
each-visits callback p (f ∷ fs) s = elim (Bool-cases (has_field p f)) [
  | inl e ↦ rw (e, each-visits callback p fs (callback f (get_field p f) s).1) refl
  | inr e ↦ rw e (each-visits callback p fs s)
]

-- Range is the callback run on the fields that Has reports, each with the value of Get and in the
-- order of the field numbers, up to the first call that returns false.
pub range-visits :
    {S : Type 0} (p : Params) (callback : Field → Value → S → Bool × S) (s : S)
    → range p callback s ≡ visits callback (populated p fields) s
unfolding range
range-visits p callback s = each-visits callback p fields s
