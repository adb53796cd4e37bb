-- ===== src/Api/Nested/Fields.antt =====
-- How a message that another one holds (api/feemarket/feemarket/v1: tx.pulsar.go and genesis.pulsar.go) is
-- written, and how unmarshal of the outer message reads it back.
use feemarket.Prelude.{
  ℕ, ◌+◌, ◌*◌, ◌≤◌, ◌<◌, ◌≡◌, refl, ap, Bool, Option, none, some, ◌∷◌, arith, length,
}
use feemarket.Prelude.Int.{two_64, int64_max}
use feemarket.Prelude.Outcome.{ok}
use feemarket.Prelude.Outcome.Pure.{◌>>=◌}
use feemarket.Sdk.{Bytes}
use feemarket.Proto.{put_bytes}
use feemarket.Proto.Read.{Field}
use feemarket.Proto.Decodes.{Decodes, nothing, field_then, block_field-Reads, length-put_bytes}
use feemarket.Api.{Runtime, RuntimeLaws, bytes_of}
use feemarket.Api.Fields.{varint_round, varint_length}
use feemarket.Api.Nested.{Options, size_message, put_message, message_field}

-- No unknown fields are left.
pub no_more :
    {M : Type 0} (f : Field M) (l : ℕ) (r : M) (unknown : Option Bytes)
    → unknown ≡ none
    → Decodes f l (bytes_of unknown) r r
no_more f l r unknown h = rw h (nothing f l r)

-- The bytes of a message `x`, from which a new message becomes `y`.
pub record Encoded {M : Type 0} (o : Options M) (discard : Bool) (new x y : M) : Type 0 where
  pub encoded : Bytes
  pub marshal_ok : o.marshal (some x) ≡ ok encoded
  pub length_ok : length encoded ≡ o.size (some x)
  pub unmarshal_ok : o.unmarshal discard encoded (some new) ≡ ok (some y)

-- What a field that holds `x` is written as before the bytes of `tail`: it is read back as `y`.
pub record Written ⦃rt : Runtime⦄ {M N : Type 0} (o : Options M) (discard : Bool) (new : M)
    (number : ℕ) (put : Option M → N) (x y : Option M) (tail : Bytes) : Type 0 where
  pub bytes : Bytes
  pub put_ok : put_message o (number * 8 + 2) x tail ≡ ok bytes
  pub bytes_length : length bytes ≡ size_message o x + length tail
  pub decodes :
      (f : Field N) (l : ℕ) (m r : N)
      → l ≤ int64_max
      → ((h : Bytes)
          → f l number 2 ((number * 8 + 2) ∷ h) h m ≡ message_field o l discard new none put 2 h)
      → put none ≡ m
      → Decodes f l tail (put y) r
      → Decodes f l bytes m r

module _ ⦃rt : Runtime⦄ ⦃laws : RuntimeLaws⦄ {M N : Type 0} (o : Options M) (discard : Bool)
    (new : M) (number : ℕ) (put : Option M → N) where
  pub nil-Written : (tail : Bytes) → Written o discard new number put none none tail
  unfolding put_message size_message
  nil-Written tail = record {
    bytes = tail;
    put_ok = refl;
    bytes_length = omega arith;
    decodes = λ f l m r fits field default after. rw default at after;
  }

  pub message-Written :
      (x y : M) (tail : Bytes)
      → 0 < number
      → number < 16
      → Encoded o discard new x y
      → o.size (some x) < two_64
      → Written o discard new number put (some x) (some y) tail
  unfolding put_message size_message
  message-Written x y tail some_number few e small =
      let b = e.encoded in
      let h = rt.encode_varint (length b) (put_bytes b tail) in
      let short : length b < two_64 = omega (arith, e.length_ok) in
      let whole = varint_length (length b) (put_bytes b tail) short in
      let sov_eq : rt.sov (length b) ≡ rt.sov (o.size (some x)) = ap rt.sov e.length_ok in
      record {
        bytes = (number * 8 + 2) ∷ h;
        put_ok = rw e.marshal_ok refl;
        bytes_length = omega (arith, whole, length-put_bytes b tail, e.length_ok, sov_eq);
        decodes = λ f l m r fits field default after.
            field_then
              (block_field-Reads f l number
                (λ b. o.unmarshal discard b (some new) >>= λ y. ok (put y)) b h tail m
                (put (some y)) some_number few fits (field h)
                (varint_round (length b) (put_bytes b tail) short) (omega (arith, whole))
                (ap (λ u. u >>= λ y. ok (put y)) e.unmarshal_ok))
              after;
      }
