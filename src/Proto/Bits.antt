-- ===== src/Proto/Bits.antt =====
-- How many bytes a varint takes: `sovParams`, `sovGenesis`, `sovTx` and `sovQuery` of x/feemarket/types, over
-- the length in bits that `math/bits` gives.
use feemarket.Prelude.{
  ℕ, zero, suc, ◌+◌, ◌*◌, ◌/◌, ◌%◌, ◌≤◌, ◌<◌, ◌≡◌, refl, sym, ap, ◌∙◌, [], inl, inr, if◌then◌else◌,
  ltb, length, ◌==◌, Bool-cases, arith, ltb→lt, ltb→ge, ge→ltb, lt→ltb, ◌≢◌,
}
use feemarket.Prelude.Int.{two_64}
use feemarket.Sdk.{Bytes}
use feemarket.Proto.Varint.{length-encode_groups}
use feemarket.Proto.{encode_groups, encode_varint}

-- `bits.Len64`. A uint64 has 64 bits; the fuel is that of ten groups of seven.
unfoldable pub bit_length : ℕ → ℕ → ℕ
bit_length zero v = 0
bit_length (suc n) v = let rest = bit_length n (v / 2) in if v == 0 then 0 else 1 + rest

abbrev pub len64 : ℕ → ℕ
len64 = bit_length 70

-- `x | 1`
abbrev pub or_one : ℕ → ℕ
or_one v = if v % 2 == 1 then v else v + 1

-- `sov…`
unfoldable pub sov : ℕ → ℕ
sov v = (len64 (or_one v) + 6) / 7

or_one_cases : (v : ℕ) → (or_one v ≤ v + 1) × (1 ≤ or_one v) × (or_one v / 2 ≡ v / 2)
or_one_cases v = elim (Bool-cases (v % 2 == 1)) [
  | inl odd ↦ let e : v % 2 ≡ 1 = ground arith in rw odd (omega arith, omega arith, omega arith)
  | inr even ↦ let e : v % 2 ≢ 1 = ground arith in rw even (omega arith, omega arith, omega arith)
]

step : (n v : ℕ) → 1 ≤ v → bit_length (suc n) v ≡ 1 + bit_length n (v / 2)
unfolding bit_length
step n v some_bit = elim (Bool-cases (v == 0)) [
  | inl none ↦ absurd (ground arith)
  | inr more ↦ rw more refl
]

-- Seven more bits of fuel.
abbrev seven : ℕ → ℕ
seven n = suc (suc (suc (suc (suc (suc (suc n))))))

seven_steps : (n v : ℕ) → 128 ≤ v → bit_length (seven n) v ≡ 7 + bit_length n (v / 128)
seven_steps n v large =
    let last : v / 2 / 2 / 2 / 2 / 2 / 2 / 2 ≡ v / 128 = omega arith in
    omega (
      arith,
      step (suc (suc (suc (suc (suc (suc n)))))) v (omega arith),
      step (suc (suc (suc (suc (suc n))))) (v / 2) (omega arith),
      step (suc (suc (suc (suc n)))) (v / 2 / 2) (omega arith),
      step (suc (suc (suc n))) (v / 2 / 2 / 2) (omega arith),
      step (suc (suc n)) (v / 2 / 2 / 2 / 2) (omega arith),
      step (suc n) (v / 2 / 2 / 2 / 2 / 2) (omega arith),
      step n (v / 2 / 2 / 2 / 2 / 2 / 2) (omega arith),
      ap (bit_length n) last,
    )

abbrev doubled : ℕ → ℕ
doubled zero = 1
doubled (suc i) = doubled i + doubled i

bit_length-le : (i n v : ℕ) → v < doubled i → bit_length n v ≤ i
unfolding bit_length
bit_length-le i zero v small = omega arith
bit_length-le zero (suc n) zero small = omega arith
bit_length-le zero (suc n) (suc v) small = absurd (omega arith)
bit_length-le (suc i) (suc n) v small = elim (Bool-cases (v == 0)) [
  | inl none ↦ rw none (omega arith)
  | inr more ↦ rw more (omega (arith, bit_length-le i n (v / 2) (omega arith)))
]

-- The lowest bit does not count where there is another one.
bit_length-or_one : (n v : ℕ) → 1 ≤ v → bit_length (suc n) (or_one v) ≡ bit_length (suc n) v
bit_length-or_one n v some_bit =
    let (_, some_one, half) = or_one_cases v in
    step n (or_one v) some_one ∙ ap (λ h. 1 + bit_length n h) half ∙ sym (step n v some_bit)

abbrev groups_bits : ℕ → ℕ
groups_bits zero = 0
groups_bits (suc n) = seven (groups_bits n)

abbrev limit : ℕ → ℕ
limit zero = 1
limit (suc n) = 128 * limit n

abbrev Counted : ℕ → ℕ → Type 0
Counted n v =
    (bit_length (groups_bits (suc n)) (or_one v) + 6) / 7 ≡ length (encode_groups (suc n) v [])

within : (v : ℕ) → v < 128 → or_one v < 128
within v few = elim (Bool-cases (v % 2 == 1)) [
  | inl odd ↦ rw odd few
  | inr even ↦ let e : v % 2 ≢ 1 = ground arith in rw even (omega arith)
]

Counted-small : (n v : ℕ) → v < 128 → Counted n v
unfolding encode_groups
Counted-small n v few =
    let (_, some_one, _) = or_one_cases v in
    rw (lt→ltb v 128 few) (
      omega (
        arith,
        bit_length-le 7 (groups_bits (suc n)) (or_one v) (within v few),
        step (suc (suc (suc (suc (suc (suc (groups_bits n))))))) (or_one v) some_one,
      ))

Counted-large : (n v : ℕ) → 128 ≤ v → Counted n (v / 128) → Counted (suc n) v
unfolding encode_groups
Counted-large n v large ih =
    let bits = groups_bits (suc n) in
    let (_, some_one, half) = or_one_cases v in
    let same : or_one v / 128 ≡ v / 128 = omega (arith, half) in
    let more : bit_length (groups_bits (suc (suc n))) (or_one v)
        ≡ 7 + bit_length bits (or_one (v / 128)) =
      seven_steps bits (or_one v) (omega (arith, half))
      ∙ ap (λ q. 7 + bit_length bits q) same
      ∙ ap (λ b. 7 + b)
          (sym (
            bit_length-or_one (suc (suc (suc (suc (suc (suc (groups_bits n))))))) (v / 128)
              (omega arith))) in
    rw (more, ge→ltb v 128 large) (omega (arith, ih))

-- The groups of seven bits, counted by the bits.
groups-Counted : (n v : ℕ) → v < limit (suc n) → Counted n v
groups-Counted zero v small = Counted-small zero v (omega arith)
groups-Counted (suc n) v small = elim (Bool-cases (ltb v 128)) [
  | inl last ↦ Counted-small (suc n) v (ltb→lt v 128 last)
  | inr more ↦ Counted-large n v (ltb→ge v 128 more) (groups-Counted n (v / 128) (omega arith))
]

-- A varint of a uint64 is as long as `sov` says.
pub sov-length :
    (v : ℕ) (tail : Bytes) → v < two_64 → length (encode_varint v tail) ≡ sov v + length tail
unfolding sov
sov-length v tail small =
    omega (arith, length-encode_groups 10 v tail, groups-Counted 9 v (omega arith))
