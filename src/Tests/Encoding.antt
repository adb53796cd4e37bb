-- ===== src/Tests/Encoding.antt =====
-- An encoding of parameters and states as rows of numbers, for the parameter `Codec`.
use feemarket.Prelude.{
  ℕ, suc, zero, ◌≡◌, refl, sym, ap, ◌∙◌, Bool, true, false, Option, none, some, List, [], ◌∷◌,
  String,
}
use feemarket.Prelude.Int.{ℤ, pos, negsuc}
use feemarket.Prelude.Outcome.{Outcome, ok, err, external}
use feemarket.Math.Fixed.{fixed}
use feemarket.Sdk.{Bytes}
use feemarket.Params.{Params}
use feemarket.State.{State, Slice, elems}
use feemarket.Codec.{Codec, CodecLaws}
use feemarket.Tests.Text.{codes, of_codes, of_codes-codes}

-- A decimal is two numbers: a tag and the size.
abbrev pub tag : Option ℤ → ℕ
tag none = 0
tag (some (pos n)) = 1
tag (some (negsuc n)) = 2

abbrev pub size : Option ℤ → ℕ
size none = 0
size (some (pos n)) = n
size (some (negsuc n)) = n

abbrev pub of_tag : ℕ → ℕ → Option ℤ
of_tag zero n = none
of_tag (suc zero) n = some (pos n)
of_tag (suc (suc _)) n = some (negsuc n)

pub of_tag-tag : (d : Option ℤ) → of_tag (tag d) (size d) ≡ d
of_tag-tag none = refl
of_tag-tag (some (pos n)) = refl
of_tag-tag (some (negsuc n)) = refl

abbrev bit : Bool → ℕ
bit true = 1
bit false = 0

abbrev of_bit : ℕ → Bool
of_bit zero = false
of_bit (suc _) = true

of_bit-bit : (b : Bool) → of_bit (bit b) ≡ b
of_bit-bit true = refl
of_bit-bit false = refl

abbrev or_error : {A : Type 0} → Option A → Outcome A
or_error none = err (external 1)
or_error (some a) = ok a

abbrev pub put_params : Params → Bytes
put_params p =
    tag p.alpha
    ∷ size p.alpha
    ∷ tag p.beta
    ∷ size p.beta
    ∷ tag p.gamma
    ∷ size p.gamma
    ∷ tag p.delta
    ∷ size p.delta
    ∷ tag p.min_base_gas_price
    ∷ size p.min_base_gas_price
    ∷ tag p.min_learning_rate
    ∷ size p.min_learning_rate
    ∷ tag p.max_learning_rate
    ∷ size p.max_learning_rate
    ∷ p.max_block_utilization
    ∷ p.window
    ∷ bit p.enabled
    ∷ bit p.distribute_fees
    ∷ codes p.fee_denom

-- Parameters with a text that may not be one.
abbrev with_denom : (String → Params) → Option String → Outcome Params
with_denom f none = err (external 1)
with_denom f (some d) = ok (f d)

abbrev read_params : Bytes → Outcome Params
read_params
      (a ∷ a' ∷ b ∷ b' ∷ c ∷ c' ∷ d ∷ d' ∷ e ∷ e' ∷ f ∷ f' ∷ g ∷ g' ∷ u ∷ w ∷ on ∷ fees ∷ text) =
    with_denom
      (λ denom. record {
        alpha = of_tag a a';
        beta = of_tag b b';
        gamma = of_tag c c';
        delta = of_tag d d';
        min_base_gas_price = of_tag e e';
        min_learning_rate = of_tag f f';
        max_learning_rate = of_tag g g';
        max_block_utilization = u;
        window = w;
        fee_denom = denom;
        enabled = of_bit on;
        distribute_fees = of_bit fees;
      })
      (of_codes text)
read_params _ = err (external 1)

abbrev pub put_state : State → Bytes
put_state t =
    tag t.base_gas_price
    ∷ size t.base_gas_price
    ∷ tag t.learning_rate
    ∷ size t.learning_rate
    ∷ t.index
    ∷ elems t.window

abbrev slice_of : List ℕ → Slice
slice_of [] = none
slice_of (u ∷ us) = some (u ∷ us)

abbrev read_state : Bytes → Outcome State
read_state (a ∷ a' ∷ b ∷ b' ∷ i ∷ us) = ok (record {
  base_gas_price = of_tag a a';
  learning_rate = of_tag b b';
  window = slice_of us;
  index = i;
})
read_state _ = err (external 1)

instance abbrev pub rows : Codec
rows = record {
  marshal_params = λ p. ok (put_params p);
  unmarshal_params = read_params;
  marshal_state = λ t. ok (put_state t);
  unmarshal_state = read_state;
}

params_lem : (p : Params) → read_params (put_params p) ≡ ok p
params_lem p = simp (of_tag-tag, of_bit-bit, of_codes-codes)

state_lem :
    (t : State) (us : Slice)
    → slice_of (elems t.window) ≡ us
    → read_state (put_state t) ≡ ok (record t { window = us })
state_lem t us e = simp (of_tag-tag, e)

pub rows-CodecLaws : CodecLaws
rows-CodecLaws = record {
  params_round = λ p h. (put_params p, refl, params_lem p);
  state_round = λ t h. (
    put_state t,
    refl,
    state_lem t (some (h.first ∷ h.rest)) (ap (λ v. slice_of (elems v)) h.window_cons)
        ∙ ap (λ v. ok (record t { window = v })) (sym h.window_cons),
  );
  state_round_empty =
      λ t p r e i. (put_state t, refl, state_lem t none (ap (λ v. slice_of (elems v)) e));
}
