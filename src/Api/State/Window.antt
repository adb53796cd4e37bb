-- ===== src/Api/State/Window.antt =====
-- The packed window of the message `State` (api/feemarket/feemarket/v1/genesis.pulsar.go): how long it is,
-- and how unmarshal reads it.
use feemarket.Prelude.{
  ℕ, ◌+◌, ◌≤◌, ◌<◌, ◌≡◌, refl, sym, ap, ◌∙◌, List, [], ◌∷◌, All, arith, length, replicate,
  length-replicate,
}
use feemarket.Prelude.Int.{two_64, int64_max}
use feemarket.Prelude.Outcome.{ok}
use feemarket.Prelude.Outcome.Pure.{◌>>=◌}
use feemarket.Sdk.{Bytes}
use feemarket.Proto.{value, put_bytes, pack}
use feemarket.Proto.Read.{Field}
use feemarket.Proto.Varint.{length-encode_groups}
use feemarket.Proto.Decodes.{Decodes, field_then, length-put_bytes}
use feemarket.Proto.Packed.{window_field, window_field-Reads}
use feemarket.Api.{Runtime, RuntimeLaws}
use feemarket.Api.Fields.{varint_round, varint_length}
use feemarket.Api.State.Methods.{overwrite, packed_size, size_window, put_window}

-- Bytes stored over as many others.
overwrite-put_bytes :
    (b room tail : Bytes)
    → length room ≡ length b
    → overwrite b (put_bytes room tail) ≡ ok (put_bytes b tail)
unfolding overwrite
overwrite-put_bytes [] [] tail e = refl
overwrite-put_bytes [] (x ∷ room) tail e = absurd (omega arith)
overwrite-put_bytes (x ∷ b) [] tail e = absurd (omega arith)
overwrite-put_bytes (x ∷ b) (y ∷ room) tail e =
    ap (λ o. o >>= λ t. ok (x ∷ t)) (overwrite-put_bytes b room tail (omega arith))

module _ ⦃rt : Runtime⦄ ⦃laws : RuntimeLaws⦄ where
  pub length-pack : (us : List ℕ) → All (λ u. u < two_64) us → length (pack us) ≡ packed_size us
  length-pack [] h = refl
  length-pack (u ∷ us) h =
      omega (arith, length-encode_groups 10 u (pack us), laws.sov_eq u h.0, length-pack us h.1)

  -- The window with its header.
  abbrev pub window_bytes : List ℕ → Bytes → Bytes
  window_bytes [] tail = tail
  window_bytes (u ∷ us) tail =
      26 ∷ rt.encode_varint (packed_size (u ∷ us)) (put_bytes (pack (u ∷ us)) tail)

  pub put_window-window_bytes :
      (us : List ℕ) (tail : Bytes)
      → All (λ u. u < two_64) us
      → put_window 26 us tail ≡ ok (window_bytes us tail)
  unfolding put_window
  put_window-window_bytes [] tail h = refl
  put_window-window_bytes (u ∷ us) tail h =
      ap (λ o. o >>= λ t. ok (26 ∷ rt.encode_varint (packed_size (u ∷ us)) t))
        (overwrite-put_bytes (pack (u ∷ us)) (replicate (packed_size (u ∷ us)) 0) tail
          (length-replicate (packed_size (u ∷ us)) 0 ∙ sym (length-pack (u ∷ us) h)))

  pub length-window_bytes :
      (us : List ℕ) (tail : Bytes)
      → All (λ u. u < two_64) us
      → packed_size us ≤ int64_max
      → length (window_bytes us tail) ≡ size_window us + length tail
  unfolding size_window
  length-window_bytes [] tail h fits = omega arith
  length-window_bytes (u ∷ us) tail h fits = omega (
    arith,
    varint_length (packed_size (u ∷ us)) (put_bytes (pack (u ∷ us)) tail) (omega arith),
    length-put_bytes (pack (u ∷ us)) tail,
    length-pack (u ∷ us) h,
  )

  pub window_bytes-Decodes :
      {M : Type 0} (f : Field M) (l : ℕ) (put : List ℕ → M) (us : List ℕ) (tail : Bytes) (m r : M)
      → l ≤ int64_max
      → ((h : Bytes) → f l 3 2 (26 ∷ h) h m ≡ window_field l put 2 h)
      → put [] ≡ m
      → All (λ u. u < two_64) us
      → packed_size us ≤ int64_max
      → Decodes f l tail (put us) r
      → Decodes f l (window_bytes us tail) m r
  window_bytes-Decodes f l put [] tail m r fits field default small short after =
      rw default at after
  window_bytes-Decodes f l put (u ∷ us) tail m r fits field default small short after =
      let block = put_bytes (pack (u ∷ us)) tail in
      let h = rt.encode_varint (packed_size (u ∷ us)) block in
      let read = varint_round (packed_size (u ∷ us)) block (omega arith) in
      let length_is = length-pack (u ∷ us) small in
      field_then
        (window_field-Reads f l put (u ∷ us) h tail m fits (field h) small
          (read ∙ ap (λ n. value n block) (sym length_is))
          (omega (arith, varint_length (packed_size (u ∷ us)) block (omega arith))))
        after
