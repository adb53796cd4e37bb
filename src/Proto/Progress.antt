-- ===== src/Proto/Progress.antt =====
-- The loops that the generated `Unmarshal` methods share (x/feemarket/types/params.pb.go and
-- genesis.pb.go) take a byte at least in each turn, on any bytes.
use feemarket.Prelude.{
  ℕ, zero, suc, ◌+◌, ◌-◌, ◌*◌, ◌%◌, ◌≤◌, ◌<◌, ◌≡◌, ◌≢◌, refl, ◌∙◌, Bool, true, false, [], ◌∷◌,
  arith, if◌then◌else◌, ltb, length, ◌==◌, Bool-cases, inl, inr,
}
use feemarket.Prelude.Int.{int64_max, two_64}
use feemarket.Prelude.Outcome.{Outcome, ok, err, panic, Error}
use feemarket.Prelude.Outcome.Pure.{◌>>=◌}
use feemarket.Sdk.{Bytes}
use feemarket.Proto.{Reading, value, overflow, unexpected_end, read_groups, read_varint}
use feemarket.Proto.Read.{
  of_reading, take_varint, take, drop, slice, cut, take_block, number_field, block_field,
  invalid_length, unexpected_eof,
}

-- A call that does not panic, and that leaves fewer bytes than `n` if it returns.
abbrev pub Shorter : {A : Type 0} → ℕ → Outcome (A × Bytes) → Type 0
Shorter n (ok (a, rest)) = length rest < n
Shorter n (err _) = Unit
Shorter n panic = ⊥

abbrev ShorterReading : ℕ → Reading → Type 0
ShorterReading n (value v rest) = length rest < n
ShorterReading n overflow = Unit
ShorterReading n unexpected_end = Unit

pub Shorter-mono :
    {A : Type 0} (a b : ℕ) (o : Outcome (A × Bytes)) → a ≤ b → Shorter a o → Shorter b o
Shorter-mono a b (ok (x, rest)) h k = omega arith
Shorter-mono a b (err _) h k = tt
Shorter-mono a b panic h k = k

pub >>=-Shorter :
    {A B : Type 0} (a b : ℕ) (o : Outcome (A × Bytes)) (f : A × Bytes → Outcome (B × Bytes))
    → Shorter a o
    → ((x : A) (rest : Bytes) → length rest < a → Shorter b (f (x, rest)))
    → Shorter b (o >>= f)
>>=-Shorter a b (ok (x, rest)) f h k = k x rest h
>>=-Shorter a b (err _) f h k = tt
>>=-Shorter a b panic f h k = h

pub if-Shorter :
    {A : Type 0} (n : ℕ) (t : Bool) (o r : Outcome (A × Bytes))
    → Shorter n o
    → Shorter n r
    → Shorter n (if t then o else r)
if-Shorter n true o r h k = h
if-Shorter n false o r h k = k

read_groups-ShorterReading :
    (n scale acc : ℕ) (bytes : Bytes)
    → ShorterReading (length bytes) (read_groups n scale acc bytes)
unfolding read_groups
read_groups-ShorterReading zero scale acc bytes = tt
read_groups-ShorterReading (suc n) scale acc [] = tt
read_groups-ShorterReading (suc n) scale acc (b ∷ bytes) = elim (Bool-cases (ltb b 128)) [
  | inl last ↦ rw last (omega arith)
  | inr more ↦
      let v = acc + (b % 128 * scale) % two_64 in
      rw more (
        longer (read_groups n (scale * 128) v bytes)
          (read_groups-ShorterReading n (scale * 128) v bytes))
]
  where
    longer : (r : Reading) → ShorterReading (length bytes) r → ShorterReading (suc (length bytes)) r
    longer (value v rest) h = omega arith
    longer overflow h = tt
    longer unexpected_end h = tt

of_reading-Shorter : (n : ℕ) (r : Reading) → ShorterReading n r → Shorter n (of_reading r)
of_reading-Shorter n (value v rest) h = h
of_reading-Shorter n overflow h = tt
of_reading-Shorter n unexpected_end h = tt

pub take_varint-Shorter : (bytes : Bytes) → Shorter (length bytes) (take_varint bytes)
take_varint-Shorter bytes =
    of_reading-Shorter (length bytes) (read_varint bytes) (read_groups-ShorterReading 10 1 0 bytes)

pub length-drop : (n : ℕ) (bytes : Bytes) → length (drop n bytes) ≡ length bytes - n
length-drop zero bytes = omega arith
length-drop (suc n) [] = omega arith
length-drop (suc n) (b ∷ bytes) = length-drop n bytes ∙ omega arith

-- After its tests a slice is inside the data: what holds of an error and of the two parts holds.
pub cut-cases :
    (l n : ℕ) (rest : Bytes) (P : Outcome (Bytes × Bytes) → Type 0)
    → ((e : Error) → P (err e))
    → P (ok (take n rest, drop n rest))
    → P (cut l n rest)
unfolding cut slice
cut-cases l n rest P wrong parts = elim (Bool-cases (ltb int64_max n)) [
  | inl large ↦ rw large (wrong invalid_length)
  | inr small ↦ elim (Bool-cases (ltb int64_max (l - length rest + n))) [
    | inl far ↦ rw (small, far) (wrong invalid_length)
    | inr near ↦ elim (Bool-cases (ltb (length rest) n)) [
      | inl outside ↦ rw (small, near, outside) (wrong unexpected_eof)
      | inr inside ↦ rw (small, near, inside) parts
    ]
  ]
]

pub cut-Shorter : (l n : ℕ) (rest : Bytes) → Shorter (suc (length rest)) (cut l n rest)
cut-Shorter l n rest =
    cut-cases l n rest (Shorter (suc (length rest))) (λ _. tt) (omega (arith, length-drop n rest))

pub number_field-Shorter :
    {M : Type 0} (put : ℕ → M) (type : ℕ) (rest : Bytes)
    → Shorter (suc (length rest)) (number_field put type rest)
number_field-Shorter put type rest =
    if-Shorter (suc (length rest)) (type == 0) _ _
      (>>=-Shorter (length rest) (suc (length rest)) (take_varint rest) _ (take_varint-Shorter rest)
        (λ v left h. omega arith))
      tt

pub block_field-Shorter :
    {M : Type 0} (l : ℕ) (put : Bytes → Outcome M) (type : ℕ) (rest : Bytes)
    → ((b : Bytes) → put b ≢ panic)
    → Shorter (suc (length rest)) (block_field l put type rest)
block_field-Shorter {M = M} l put type rest returns =
    if-Shorter n (type == 2) _ _
      (>>=-Shorter n n (take_block l rest) _
        (>>=-Shorter (length rest) n (take_varint rest) _ (take_varint-Shorter rest) (λ k left h.
          Shorter-mono (suc (length left)) n (cut l k left) (omega arith) (cut-Shorter l k left)))
        (λ b left h. stored (put b) left (returns b) h))
      tt
  where
    n : ℕ
    n = suc (length rest)

    stored :
        (o : Outcome M) (left : Bytes)
        → o ≢ panic
        → length left < suc (length rest)
        → Shorter (suc (length rest)) (o >>= λ m. ok (m, left))
    stored (ok m) left h k = k
    stored (err _) left h k = tt
    stored panic left h k = absurd (h refl)
