-- ===== src/Api/MsgParams/Response.antt =====
-- The message `MsgParamsResponse` of the API module (api/feemarket/feemarket/v1/tx.pulsar.go), which has no field:
-- what unmarshal keeps of its bytes.
use feemarket.Prelude.{
  ℕ, zero, suc, ◌-◌, ◌+◌, ◌/◌, ◌%◌, ◌≡◌, refl, sym, ap, ◌∙◌, false, Option, none, some, [], ◌∷◌,
  inl, inr, ltb, length, ◌==◌, Bool-cases,
}
use feemarket.Prelude.Int.{int64_max}
use feemarket.Prelude.Outcome.{ok}
use feemarket.Prelude.Outcome.Pure.{◌>>=◌, >>=-eq-ok}
use feemarket.Prelude.Outcome.Cases.{ok_injective, err_ne, panic_ne}
use feemarket.Sdk.{Bytes}
use feemarket.Proto.{put_bytes}
use feemarket.Proto.Read.{take, drop, slice, take_varint, read_field, read_fields}
use feemarket.Proto.Skip.{cut_unknown}
use feemarket.Api.{Runtime, bytes_of, append_unknown}
use feemarket.Api.Fields.{fill-length}
use feemarket.Api.MsgParams.{MsgParamsResponse, empty_response}
use feemarket.Api.MsgParams.Methods.{
  response_size, marshal_response, response_field, unmarshal_response,
}

put_bytes-nil : (a : Bytes) → put_bytes a [] ≡ a
put_bytes-nil [] = refl
put_bytes-nil (x ∷ a) = ap (λ t. x ∷ t) (put_bytes-nil a)

put_bytes_assoc : (a b c : Bytes) → put_bytes (put_bytes a b) c ≡ put_bytes a (put_bytes b c)
put_bytes_assoc [] b c = refl
put_bytes_assoc (x ∷ a) b c = ap (λ t. x ∷ t) (put_bytes_assoc a b c)

put_bytes-take : (n : ℕ) (a : Bytes) → put_bytes (take n a) (drop n a) ≡ a
put_bytes-take zero a = refl
put_bytes-take (suc n) [] = refl
put_bytes-take (suc n) (x ∷ a) = ap (λ t. x ∷ t) (put_bytes-take n a)

bytes_of-append_unknown :
    (u : Option Bytes) (b : Bytes) → bytes_of (append_unknown u b) ≡ put_bytes (bytes_of u) b
bytes_of-append_unknown none [] = refl
bytes_of-append_unknown none (x ∷ b) = refl
bytes_of-append_unknown (some u) b = refl

-- The bytes of a slice and those after it.
slice-parts :
    (l n : ℕ) (bytes : Bytes) (q : Bytes × Bytes)
    → slice l n bytes ≡ ok q
    → put_bytes q.0 q.1 ≡ bytes
unfolding slice
slice-parts l n bytes q h = elim (Bool-cases (ltb int64_max (l - length bytes + n))) [
  | inl far ↦ panic_ne (rw far at h)
  | inr near ↦ elim (Bool-cases (ltb (length bytes) n)) [
    | inl outside ↦ panic_ne (rw (near, outside) at h)
    | inr inside ↦ rw (← ok_injective (rw (near, inside) at h)) (put_bytes-take n bytes)
  ]
]

module _ ⦃rt : Runtime⦄ where
  -- The bytes kept with those that are left.
  abbrev held : MsgParamsResponse → Bytes → Bytes
  held x rest = put_bytes (bytes_of x.unknown_fields) rest

  response_field-held :
      (l number type : ℕ) (bytes rest : Bytes) (x : MsgParamsResponse)
      (p : MsgParamsResponse × Bytes)
      → response_field false l number type bytes rest x ≡ ok p
      → held p.0 p.1 ≡ held x bytes
  response_field-held l number type bytes rest x p h =
      let (c, _, taken) = >>=-eq-ok (cut_unknown rt.skip l bytes) _ h in
      let (q, sliced, kept) = >>=-eq-ok (slice l c.0 bytes) _ taken in
      rw (← ok_injective kept) (
        ap (λ b. put_bytes b q.1) (bytes_of-append_unknown x.unknown_fields q.0)
        ∙ put_bytes_assoc (bytes_of x.unknown_fields) q.0 q.1
        ∙ ap (put_bytes (bytes_of x.unknown_fields)) (slice-parts l c.0 bytes q sliced))

  read_field-held :
      (l : ℕ) (bytes : Bytes) (x : MsgParamsResponse) (p : MsgParamsResponse × Bytes)
      → read_field (response_field false) l bytes x ≡ ok p
      → held p.0 p.1 ≡ held x bytes
  unfolding read_field
  read_field-held l bytes x p h =
      let (t, taken, checked) = >>=-eq-ok (take_varint bytes) _ h in
      let number = t.0 / 8 % 4_294_967_296 in
      elim (Bool-cases (t.0 % 8 == 4)) [
        | inl group ↦ err_ne (rw group at checked)
        | inr other ↦ elim (Bool-cases (number == 0)) [
          | inl no_field ↦ err_ne (rw (other, no_field) at checked)
          | inr field ↦ elim (Bool-cases (ltb 2_147_483_647 number)) [
            | inl negative ↦ err_ne (rw (other, field, negative) at checked)
            | inr positive ↦
                response_field-held l number (t.0 % 8) bytes t.1 x p
                  (rw (other, field, positive) at checked)
          ]
        ]
      ]

  read_fields-held :
      (n l : ℕ) (bytes : Bytes) (x y : MsgParamsResponse)
      → read_fields (response_field false) n l bytes x ≡ ok y
      → bytes_of y.unknown_fields ≡ held x bytes
  unfolding read_fields
  read_fields-held n l [] x y h =
      ap (λ z. bytes_of z.unknown_fields) (sym (ok_injective h))
      ∙ sym (put_bytes-nil (bytes_of x.unknown_fields))
  read_fields-held zero l (b ∷ bytes) x y h = panic_ne h
  read_fields-held (suc n) l (b ∷ bytes) x y h =
      let (p, turn, after) = >>=-eq-ok (read_field (response_field false) l (b ∷ bytes) x) _ h in
      read_fields-held n l p.1 p.0 y after ∙ read_field-held l (b ∷ bytes) x p turn

  -- If unmarshal into a new message MsgParamsResponse of the API module returns, and unknown fields
  -- are not discarded, marshal of the result returns the very bytes that were read, and size is
  -- their number.
  pub marshal_response-unmarshal_response :
      (bytes : Bytes) (q : Option MsgParamsResponse)
      → unmarshal_response false bytes (some empty_response) ≡ ok q
      → (marshal_response [] q ≡ ok bytes) × (response_size q ≡ length bytes)
  unfolding unmarshal_response marshal_response response_size
  marshal_response-unmarshal_response bytes q h =
      let (y, read, same) =
        >>=-eq-ok
          (read_fields (response_field false) (length bytes) (length bytes) bytes empty_response) _
          h in
      let kept : bytes_of y.unknown_fields ≡ bytes =
        read_fields-held (length bytes) (length bytes) bytes empty_response y read in
      rw (← ok_injective same) (
        ap (λ o. o >>= λ w. ok (put_bytes [] w))
              (fill-length (length (bytes_of y.unknown_fields)) (bytes_of y.unknown_fields) refl)
            ∙ ap ok kept,
        ap length kept,
      )
