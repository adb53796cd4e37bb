-- ===== src/Proto/Blocks.antt =====
-- The fields that the encoders of x/feemarket/types/params.pb.go and genesis.pb.go write: a bound on how
-- many bytes each takes, and how `Unmarshal` reads it back.
use feemarket.Prelude.{
  ℕ, ◌+◌, ◌*◌, ◌≤◌, ◌<◌, ◌≡◌, refl, ap, ◌∙◌, Bool, true, false, List, [], ◌∷◌, inl, inr, arith,
  length, ◌==◌, Bool-cases, All,
}
use feemarket.Prelude.Int.{two_64, int64_max}
use feemarket.Prelude.Outcome.{Outcome, ok}
use feemarket.Sdk.{Bytes}
use feemarket.Proto.{
  encode_varint, put_bytes, put_block, put_number, put_bool, put_block_unless_empty, pack,
}
use feemarket.Proto.Read.{Field, number_field, block_field, is_set}
use feemarket.Proto.Varint.{
  encode_groups_some, read_varint-encode_varint, length-encode_groups, length-encode_groups_le,
}
use feemarket.Proto.Decodes.{
  Decodes, field_then, number_field-Reads, block_field-Reads, length-put_bytes, small_varint,
}
use feemarket.Proto.Packed.{window_field, window_field-Reads}

pub length-put_block :
    (tag : ℕ) (b tail : Bytes) → length (put_block tag b tail) ≤ 11 + length b + length tail
length-put_block tag b tail = omega (
  arith,
  length-encode_groups 10 (length b) (put_bytes b tail),
  length-encode_groups_le 10 (length b),
  length-put_bytes b tail,
)

pub length-put_block_unless_empty :
    (tag : ℕ) (b tail : Bytes)
    → length (put_block_unless_empty tag b tail) ≤ 11 + length b + length tail
length-put_block_unless_empty tag [] tail = omega arith
length-put_block_unless_empty tag (x ∷ b) tail = length-put_block tag (x ∷ b) tail

pub length-put_number :
    (tag v : ℕ) (tail : Bytes) → length (put_number tag v tail) ≤ 11 + length tail
length-put_number tag v tail = elim (Bool-cases (v == 0)) [
  | inl zero_v ↦ rw zero_v (omega arith)
  | inr some_v ↦
      rw some_v (omega (arith, length-encode_groups 10 v tail, length-encode_groups_le 10 v))
]

pub length-put_bool :
    (tag : ℕ) (b : Bool) (tail : Bytes) → length (put_bool tag b tail) ≤ 2 + length tail
length-put_bool tag true tail = omega arith
length-put_bool tag false tail = omega arith

pub length-pack : (us : List ℕ) → length (pack us) ≤ 10 * length us
length-pack [] = omega arith
length-pack (u ∷ us) =
    omega (arith, length-encode_groups 10 u (pack us), length-encode_groups_le 10 u, length-pack us)

pub put_block-Decodes :
    {M : Type 0} (f : Field M) (l number : ℕ) (put : Bytes → Outcome M) (b tail : Bytes)
    (m m' r : M)
    → 0 < number
    → number < 16
    → l ≤ int64_max
    → ((h : Bytes) → f l number 2 ((number * 8 + 2) ∷ h) h m ≡ block_field l put 2 h)
    → length b < two_64
    → put b ≡ ok m'
    → Decodes f l tail m' r
    → Decodes f l (put_block (number * 8 + 2) b tail) m r
put_block-Decodes f l number put b tail m m' r some_number few fits field small value_ok after =
    let h = encode_varint (length b) (put_bytes b tail) in
    field_then
      (block_field-Reads f l number put b h tail m m' some_number few fits (field h)
        (read_varint-encode_varint (length b) (put_bytes b tail) small)
        (omega (arith, length-encode_groups 10 (length b) (put_bytes b tail))) value_ok)
      after

pub put_number-Decodes :
    {M : Type 0} (f : Field M) (l number : ℕ) (put : ℕ → M) (v : ℕ) (tail : Bytes) (m r : M)
    → 0 < number
    → number < 16
    → ((h : Bytes) → f l number 0 ((number * 8 + 0) ∷ h) h m ≡ number_field put 0 h)
    → put 0 ≡ m
    → v < two_64
    → Decodes f l tail (put v) r
    → Decodes f l (put_number (number * 8 + 0) v tail) m r
put_number-Decodes f l number put v tail m r some_number few field default small after =
    elim (Bool-cases (v == 0)) [
      | inl zero_v ↦
          let zero_is : v ≡ 0 = ground arith in rw zero_v (rw (ap put zero_is ∙ default) at after)
      | inr some_v ↦ rw some_v (
          field_then
            (number_field-Reads f l number put v (encode_varint v tail) tail m some_number few
              (field (encode_varint v tail)) (read_varint-encode_varint v tail small)
              (omega (arith, length-encode_groups 10 v tail)))
            after)
    ]

pub put_bool-Decodes :
    {M : Type 0} (f : Field M) (l number : ℕ) (put : Bool → M) (b : Bool) (tail : Bytes) (m r : M)
    → 0 < number
    → number < 16
    → ((h : Bytes)
        → f l number 0 ((number * 8 + 0) ∷ h) h m ≡ number_field (λ v. put (is_set v)) 0 h)
    → put false ≡ m
    → Decodes f l tail (put b) r
    → Decodes f l (put_bool (number * 8 + 0) b tail) m r
put_bool-Decodes f l number put true tail m r some_number few field default after =
    field_then
      (number_field-Reads f l number (λ v. put (is_set v)) 1 (1 ∷ tail) tail m some_number few
        (field (1 ∷ tail)) (small_varint 1 tail (omega arith)) (omega arith))
      after
put_bool-Decodes f l number put false tail m r some_number few field default after =
    rw default at after

put_block_unless_empty-some :
    (tag : ℕ) (b tail : Bytes)
    → 1 ≤ length b
    → put_block_unless_empty tag b tail ≡ put_block tag b tail
put_block_unless_empty-some tag [] tail h = absurd (omega arith)
put_block_unless_empty-some tag (x ∷ b) tail h = refl

-- A string, which is left out if it is empty.
pub put_string-Decodes :
    {M : Type 0} (f : Field M) (l number : ℕ) (put : Bytes → M) (b tail : Bytes) (m r : M)
    → 0 < number
    → number < 16
    → l ≤ int64_max
    → ((h : Bytes) → f l number 2 ((number * 8 + 2) ∷ h) h m ≡ block_field l (λ b. ok (put b)) 2 h)
    → put [] ≡ m
    → length b < two_64
    → Decodes f l tail (put b) r
    → Decodes f l (put_block_unless_empty (number * 8 + 2) b tail) m r
put_string-Decodes f l number put [] tail m r some_number few fits field default small after =
    rw default at after
put_string-Decodes f l number put (x ∷ b) tail m r some_number few fits field default small after =
    put_block-Decodes f l number (λ b. ok (put b)) (x ∷ b) tail m (put (x ∷ b)) r some_number few
      fits field small refl after

pub put_window-Decodes :
    {M : Type 0} (f : Field M) (l : ℕ) (put : List ℕ → M) (us : List ℕ) (tail : Bytes) (m r : M)
    → l ≤ int64_max
    → ((h : Bytes) → f l 3 2 (26 ∷ h) h m ≡ window_field l put 2 h)
    → put [] ≡ m
    → All (λ u. u < two_64) us
    → length (pack us) < two_64
    → Decodes f l tail (put us) r
    → Decodes f l (put_block_unless_empty 26 (pack us) tail) m r
put_window-Decodes f l put [] tail m r fits field default small short after = rw default at after
put_window-Decodes f l put (u ∷ us) tail m r fits field default small short after =
    let b = pack (u ∷ us) in
    let some_bytes : 1 ≤ length b =
      omega (arith, encode_groups_some 9 u, length-encode_groups 10 u (pack us)) in
    let h = encode_varint (length b) (put_bytes b tail) in
    rw (put_block_unless_empty-some 26 b tail some_bytes) (
      field_then
        (window_field-Reads f l put (u ∷ us) h tail m fits (field h) small
          (read_varint-encode_varint (length b) (put_bytes b tail) short)
          (omega (arith, length-encode_groups 10 (length b) (put_bytes b tail))))
        after)
