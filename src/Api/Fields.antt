-- ===== src/Api/Fields.antt =====
-- The fields that the messages of the API module write (api/feemarket/feemarket/v1): how many bytes
-- each takes, and how unmarshal reads it back.
use feemarket.Prelude.{
  ℕ, ◌+◌, ◌-◌, ◌*◌, ◌≤◌, ◌<◌, ◌≡◌, refl, sym, ap, ◌∙◌, Bool, true, false, [], ◌∷◌, inl, inr, arith,
  ltb, lt→ltb, ge→ltb, length, ◌==◌, Bool-cases,
}
use feemarket.Prelude.Int.{two_64, int64_max}
use feemarket.Prelude.Outcome.{ok}
use feemarket.Sdk.{Bytes}
use feemarket.Proto.{value, read_varint, put_bytes}
use feemarket.Proto.Varint.{read_varint-encode_varint, length-encode_groups}
use feemarket.Proto.Read.{Field, number_field, is_set}
use feemarket.Proto.Decodes.{
  Decodes, field_then, number_field-Reads, block_field-Reads, length-put_bytes, small_varint,
}
use feemarket.Api.{
  Runtime, RuntimeLaws, string_field, fill, size_string, size_uint64, size_bool, put_string,
  put_uint64, put_bool,
}

-- A buffer of the size of what is written.
pub fill-length :
    (size : ℕ) (written : Bytes) → length written ≡ size → fill size written ≡ ok written
unfolding fill
fill-length size written e =
    let fits : ltb size (length written) ≡ false =
      ge→ltb size (length written) (omega (arith, e)) in
    let none_left : size - length written ≡ 0 = omega (arith, e) in rw (fits, none_left) refl

pub length-put_bool :
    (tag : ℕ) (b : Bool) (tail : Bytes) → length (put_bool tag b tail) ≡ size_bool b + length tail
unfolding put_bool size_bool
length-put_bool tag true tail = omega arith
length-put_bool tag false tail = omega arith

pub put_bool-Decodes :
    {M : Type 0} (f : Field M) (l number : ℕ) (put : Bool → M) (b : Bool) (tail : Bytes) (m r : M)
    → 0 < number
    → number < 16
    → ((h : Bytes)
        → f l number 0 ((number * 8 + 0) ∷ h) h m ≡ number_field (λ v. put (is_set v)) 0 h)
    → put false ≡ m
    → Decodes f l tail (put b) r
    → Decodes f l (put_bool (number * 8 + 0) b tail) m r
unfolding put_bool
put_bool-Decodes f l number put true tail m r some_number few field default after =
    field_then
      (number_field-Reads f l number (λ v. put (is_set v)) 1 (1 ∷ tail) tail m some_number few
        (field (1 ∷ tail)) (small_varint 1 tail (omega arith)) (omega arith))
      after
put_bool-Decodes f l number put false tail m r some_number few field default after =
    rw default at after

module _ ⦃rt : Runtime⦄ ⦃laws : RuntimeLaws⦄ where
  pub varint_round :
      (v : ℕ) (tail : Bytes) → v < two_64 → read_varint (rt.encode_varint v tail) ≡ value v tail
  varint_round v tail h =
      ap read_varint (laws.encode_varint_eq v tail h) ∙ read_varint-encode_varint v tail h

  pub varint_length :
      (v : ℕ) (tail : Bytes)
      → v < two_64
      → length (rt.encode_varint v tail) ≡ rt.sov v + length tail
  varint_length v tail h =
      ap length (laws.encode_varint_eq v tail h)
      ∙ length-encode_groups 10 v tail
      ∙ ap (λ n. n + length tail) (sym (laws.sov_eq v h))

  pub length-put_uint64 :
      (tag v : ℕ) (tail : Bytes)
      → v < two_64
      → length (put_uint64 tag v tail) ≡ size_uint64 v + length tail
  unfolding put_uint64 size_uint64
  length-put_uint64 tag v tail h = elim (Bool-cases (v == 0)) [
    | inl zero_v ↦ rw zero_v (omega arith)
    | inr some_v ↦ rw some_v (omega (arith, varint_length v tail h))
  ]

  pub put_uint64-Decodes :
      {M : Type 0} (f : Field M) (l number : ℕ) (put : ℕ → M) (v : ℕ) (tail : Bytes) (m r : M)
      → 0 < number
      → number < 16
      → ((h : Bytes) → f l number 0 ((number * 8 + 0) ∷ h) h m ≡ number_field put 0 h)
      → put 0 ≡ m
      → v < two_64
      → Decodes f l tail (put v) r
      → Decodes f l (put_uint64 (number * 8 + 0) v tail) m r
  unfolding put_uint64
  put_uint64-Decodes f l number put v tail m r some_number few field default small after =
      elim (Bool-cases (v == 0)) [
        | inl zero_v ↦
            let zero_is : v ≡ 0 = ground arith in rw zero_v (rw (ap put zero_is ∙ default) at after)
        | inr some_v ↦ rw some_v (
            field_then
              (number_field-Reads f l number put v (rt.encode_varint v tail) tail m some_number few
                (field (rt.encode_varint v tail)) (varint_round v tail small)
                (omega (arith, varint_length v tail small)))
              after)
      ]

  pub length-put_string :
      (tag : ℕ) (b tail : Bytes)
      → length b < two_64
      → length (put_string tag b tail) ≡ size_string b + length tail
  unfolding put_string size_string
  length-put_string tag [] tail h = omega arith
  length-put_string tag (x ∷ b) tail h =
      let some_bytes : ltb 0 (length (x ∷ b)) ≡ true = lt→ltb 0 (length (x ∷ b)) (omega arith) in
      let whole = varint_length (length (x ∷ b)) (put_bytes (x ∷ b) tail) h in
      rw some_bytes (omega (arith, whole, length-put_bytes (x ∷ b) tail))

  pub put_string-Decodes :
      {M : Type 0} (f : Field M) (l number : ℕ) (put : Bytes → M) (b tail : Bytes) (m r : M)
      → 0 < number
      → number < 16
      → l ≤ int64_max
      → ((h : Bytes) → f l number 2 ((number * 8 + 2) ∷ h) h m ≡ string_field l put 2 h)
      → put [] ≡ m
      → length b < two_64
      → Decodes f l tail (put b) r
      → Decodes f l (put_string (number * 8 + 2) b tail) m r
  unfolding put_string
  put_string-Decodes f l number put [] tail m r some_number few fits field default small after =
      rw default at after
  put_string-Decodes f l number put (x ∷ b) tail m r some_number few fits field default small
        after =
      let some_bytes : ltb 0 (length (x ∷ b)) ≡ true = lt→ltb 0 (length (x ∷ b)) (omega arith) in
      let h = rt.encode_varint (length (x ∷ b)) (put_bytes (x ∷ b) tail) in
      rw some_bytes (
        field_then
          (block_field-Reads f l number (λ b. ok (put b)) (x ∷ b) h tail m (put (x ∷ b)) some_number
            few fits (field h) (varint_round (length (x ∷ b)) (put_bytes (x ∷ b) tail) small)
            (omega (arith, varint_length (length (x ∷ b)) (put_bytes (x ∷ b) tail) small)) refl)
          after)
