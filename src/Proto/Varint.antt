-- ===== src/Proto/Varint.antt =====
-- The varints of x/feemarket/types/params.pb.go and genesis.pb.go, written and read.
use feemarket.Prelude.{
  ℕ, zero, suc, ◌+◌, ◌*◌, ◌/◌, ◌%◌, ◌<◌, ◌≡◌, refl, ◌∙◌, ap, true, false, arith, inl, inr,
  Bool-cases, ltb, ◌≤◌, [], ◌∷◌, length, ltb→lt, lt→ltb, ge→ltb,
}
use feemarket.Prelude.Int.{two_64}
use feemarket.Sdk.{Bytes}
use feemarket.Proto.{encode_groups, encode_varint, read_groups, read_varint, value, put_bytes}

-- The numbers that `n` groups hold.
abbrev span : ℕ → ℕ
span zero = 1
span (suc n) = 128 * span n

-- The lowest group and the rest of a number, scaled.
split_scaled : (v scale : ℕ) → v % 128 * scale + v / 128 * (scale * 128) ≡ v * scale
split_scaled v scale =
    let parts : v ≡ v % 128 + 128 * (v / 128) = omega arith in
    omega (arith, ap (λ n. n * scale) parts)

last_group :
    (n scale acc v : ℕ) (tail : Bytes)
    → ltb v 128 ≡ true
    → acc + v * scale < two_64
    → read_groups (suc n) scale acc (encode_groups (suc n) v tail) ≡ value (acc + v * scale) tail
unfolding read_groups encode_groups
last_group n scale acc v tail last fits =
    let same : v % 128 ≡ v = omega (arith, ltb→lt v 128 last) in
    let whole : v * scale % two_64 ≡ v * scale = omega arith in rw (last, last, same, whole) refl

earlier_group :
    (n scale acc v : ℕ) (tail : Bytes)
    → ltb v 128 ≡ false
    → v % 128 * scale < two_64
    → read_groups (suc n) scale acc (encode_groups (suc n) v tail)
      ≡ read_groups n (scale * 128) (acc + v % 128 * scale) (encode_groups n (v / 128) tail)
unfolding read_groups encode_groups
earlier_group n scale acc v tail more fits =
    let byte : (v % 128 + 128) % 128 ≡ v % 128 = omega arith in
    let low : (v % 128 + 128) % 128 * scale % two_64 ≡ v % 128 * scale =
      ap (λ b. b * scale % two_64) byte ∙ omega (arith, fits) in
    let high : ltb (v % 128 + 128) 128 ≡ false = ge→ltb (v % 128 + 128) 128 (omega arith) in
    rw (more, high)
      (ap (λ x. read_groups n (scale * 128) (acc + x) (encode_groups n (v / 128) tail)) low)

read_groups-encode_groups :
    (n scale acc v : ℕ) (tail : Bytes)
    → v < span (suc n)
    → acc + v * scale < two_64
    → read_groups (suc n) scale acc (encode_groups (suc n) v tail) ≡ value (acc + v * scale) tail
read_groups-encode_groups zero scale acc v tail h fits =
    last_group zero scale acc v tail (lt→ltb v 128 h) fits
read_groups-encode_groups (suc k) scale acc v tail h fits = elim (Bool-cases (ltb v 128)) [
  | inl last ↦ last_group (suc k) scale acc v tail last fits
  | inr more ↦
      earlier_group (suc k) scale acc v tail more (omega (arith, split_scaled v scale))
      ∙ read_groups-encode_groups k (scale * 128) (acc + v % 128 * scale) (v / 128) tail
          (omega arith) (omega (arith, split_scaled v scale))
      ∙ ap (λ x. value x tail) (omega (arith, split_scaled v scale))
]

-- A uint64 that encodeVarintParams or encodeVarintGenesis has written, whatever follows it, is what
-- the loop of Unmarshal reads, and the bytes that follow are left.
pub read_varint-encode_varint :
    (v : ℕ) (tail : Bytes) → v < two_64 → read_varint (encode_varint v tail) ≡ value v tail
read_varint-encode_varint v tail h =
    read_groups-encode_groups 9 1 0 v tail (omega arith) (omega arith)
    ∙ ap (λ n. value n tail) (omega arith)

-- How long a varint is.
pub length-encode_groups :
    (n v : ℕ) (tail : Bytes)
    → length (encode_groups n v tail) ≡ length (encode_groups n v []) + length tail
unfolding encode_groups
length-encode_groups zero v tail = omega arith
length-encode_groups (suc n) v tail = elim (Bool-cases (ltb v 128)) [
  | inl last ↦ rw last (omega arith)
  | inr more ↦ rw more (omega (arith, length-encode_groups n (v / 128) tail))
]

pub length-encode_groups_le : (n v : ℕ) → length (encode_groups n v []) ≤ n
unfolding encode_groups
length-encode_groups_le zero v = omega arith
length-encode_groups_le (suc n) v = elim (Bool-cases (ltb v 128)) [
  | inl last ↦ rw last (omega arith)
  | inr more ↦ rw more (omega (arith, length-encode_groups_le n (v / 128)))
]

pub encode_groups_some : (n v : ℕ) → 1 ≤ length (encode_groups (suc n) v [])
unfolding encode_groups
encode_groups_some n v = elim (Bool-cases (ltb v 128)) [
  | inl last ↦ rw last (omega arith)
  | inr more ↦ rw more (omega arith)
]

-- A varint before bytes that are put before others.
pub encode_groups-put_bytes :
    (n v : ℕ) (b tail : Bytes)
    → put_bytes (encode_groups n v b) tail ≡ encode_groups n v (put_bytes b tail)
unfolding encode_groups
encode_groups-put_bytes zero v b tail = refl
encode_groups-put_bytes (suc n) v b tail = elim (Bool-cases (ltb v 128)) [
  | inl last ↦ rw last refl
  | inr more ↦ rw more (ap (λ t. (v % 128 + 128) ∷ t) (encode_groups-put_bytes n (v / 128) b tail))
]
