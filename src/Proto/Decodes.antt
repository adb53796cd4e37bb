-- ===== src/Proto/Decodes.antt =====
-- How the loops of the generated `Unmarshal` methods (x/feemarket/types/params.pb.go, genesis.pb.go and
-- api/feemarket/feemarket/v1) run on bytes that an encoder has written, one field at a time.
use feemarket.Prelude.{
  ℕ, zero, suc, ◌+◌, ◌-◌, ◌*◌, ◌/◌, ◌%◌, ◌≤◌, ◌<◌, ◌≡◌, refl, ap, ◌∙◌, false, [], ◌∷◌, arith, ltb,
  ge→ltb, lt→ltb, length, ◌==◌,
}
use feemarket.Prelude.Int.{int64_max}
use feemarket.Prelude.Outcome.{Outcome, ok}
use feemarket.Prelude.Outcome.Pure.{◌>>=◌}
use feemarket.Sdk.{Bytes}
use feemarket.Proto.{read_groups, read_varint, value, put_bytes}
use feemarket.Proto.Read.{
  Field, of_reading, take, drop, slice, cut, number_field, block_field, read_field, read_fields,
}

pub length-put_bytes : (b tail : Bytes) → length (put_bytes b tail) ≡ length b + length tail
length-put_bytes [] tail = omega arith
length-put_bytes (x ∷ b) tail = omega (arith, length-put_bytes b tail)

take-put_bytes : (b tail : Bytes) → take (length b) (put_bytes b tail) ≡ b
take-put_bytes [] tail = refl
take-put_bytes (x ∷ b) tail = ap (λ t. x ∷ t) (take-put_bytes b tail)

drop-put_bytes : (b tail : Bytes) → drop (length b) (put_bytes b tail) ≡ tail
drop-put_bytes [] tail = refl
drop-put_bytes (x ∷ b) tail = drop-put_bytes b tail

-- The bytes of a block are cut out.
pub cut-put_bytes :
    (l : ℕ) (b tail : Bytes)
    → l ≤ int64_max
    → length (put_bytes b tail) ≤ l
    → cut l (length b) (put_bytes b tail) ≡ ok (b, tail)
unfolding cut slice
cut-put_bytes l b tail fits h =
    let sum = length-put_bytes b tail in
    let small : ltb int64_max (length b) ≡ false =
      ge→ltb int64_max (length b) (omega (arith, sum)) in
    let inside : ltb int64_max (l - length (put_bytes b tail) + length b) ≡ false =
      ge→ltb int64_max (l - length (put_bytes b tail) + length b) (omega (arith, sum)) in
    let there : ltb (length (put_bytes b tail)) (length b) ≡ false =
      ge→ltb (length (put_bytes b tail)) (length b) (omega (arith, sum)) in
    rw (small, inside, there, take-put_bytes b tail, drop-put_bytes b tail) refl

-- A header of one byte is the number of a field and its wire type.
pub small_varint : (tag : ℕ) (h : Bytes) → tag < 128 → read_varint (tag ∷ h) ≡ value tag h
unfolding read_groups
small_varint tag h small =
    let v : 0 + tag % 128 * 1 % 18_446_744_073_709_551_616 ≡ tag = omega arith in
    rw (lt→ltb tag 128 small) (ap (λ n. value n h) v)

-- The header that has been read leads to the field.
pub tagged :
    {M : Type 0} (f : Field M) (l number type : ℕ) (h : Bytes) (m : M)
    → 0 < number
    → number < 16
    → type < 4
    → read_field f l ((number * 8 + type) ∷ h) m ≡ f l number type ((number * 8 + type) ∷ h) h m
unfolding read_field
tagged f l number type h m some_number few known =
    let tag = number * 8 + type in
    let read = small_varint (number * 8 + type) h (omega arith) in
    let n : (number * 8 + type) / 8 % 4_294_967_296 ≡ number = omega arith in
    let t : (number * 8 + type) % 8 ≡ type = omega arith in
    let not_end : (type == 4) ≡ false = ground arith in
    let not_zero : (number == 0) ≡ false = ground arith in
    let not_negative : ltb 2_147_483_647 number ≡ false =
      ge→ltb 2_147_483_647 number (omega arith) in
    rw (read, n, t, not_end, not_zero, not_negative) refl

-- One turn of the loop: `bytes` starts with a field that turns `m` into `m'`, and `rest` follows it.
pub record Reads {M : Type 0} (f : Field M) (l : ℕ) (bytes rest : Bytes) (m m' : M) : Type 0 where
  pub shorter : length rest < length bytes
  pub turn : length bytes ≤ l → read_field f l bytes m ≡ ok (m', rest)

-- A field of wire type 0 whose number is read.
pub number_field-Reads :
    {M : Type 0} (f : Field M) (l number : ℕ) (put : ℕ → M) (v : ℕ) (h tail : Bytes) (m : M)
    → 0 < number
    → number < 16
    → f l number 0 ((number * 8 + 0) ∷ h) h m ≡ number_field put 0 h
    → read_varint h ≡ value v tail
    → length tail ≤ length h
    → Reads f l ((number * 8 + 0) ∷ h) tail m (put v)
number_field-Reads f l number put v h tail m some_number few field read shorter = record {
  shorter = omega arith;
  turn = λ _.
      tagged f l number 0 h m some_number few (omega arith)
      ∙ field
      ∙ ap (λ r. of_reading r >>= (λ p. ok (put p.0, p.1))) read;
}

-- A field of wire type 2 whose block is read.
pub block_field-Reads :
    {M : Type 0} (f : Field M) (l number : ℕ) (put : Bytes → Outcome M) (b h tail : Bytes)
    (m m' : M)
    → 0 < number
    → number < 16
    → l ≤ int64_max
    → f l number 2 ((number * 8 + 2) ∷ h) h m ≡ block_field l put 2 h
    → read_varint h ≡ value (length b) (put_bytes b tail)
    → length (put_bytes b tail) ≤ length h
    → put b ≡ ok m'
    → Reads f l ((number * 8 + 2) ∷ h) tail m m'
block_field-Reads f l number put b h tail m m' some_number few fits field read shorter value_ok =
    record {
      shorter = omega (arith, length-put_bytes b tail);
      turn = λ whole.
          tagged f l number 2 h m some_number few (omega arith)
          ∙ field
          ∙ ap (λ r. of_reading r >>= (λ p. cut l p.0 p.1) >>= (λ p. put p.0 >>= λ m. ok (m, p.1)))
              read
          ∙ ap (λ r. r >>= (λ p. put p.0 >>= λ m. ok (m, p.1)))
              (cut-put_bytes l b tail fits (omega arith))
          ∙ ap (λ r. r >>= λ m. ok (m, tail)) value_ok;
    }

-- The whole loop: as many turns as there are bytes are enough.
pub record Decodes {M : Type 0} (f : Field M) (l : ℕ) (bytes : Bytes) (m r : M) : Type 0 where
  pub runs : length bytes ≤ l → (n : ℕ) → length bytes ≤ n → read_fields f n l bytes m ≡ ok r

pub nothing : {M : Type 0} (f : Field M) (l : ℕ) (m : M) → Decodes f l [] m m
unfolding read_fields
nothing f l m = record { runs = λ _ n _. refl }

pub field_then :
    {M : Type 0} {f : Field M} {l : ℕ} {bytes rest : Bytes} {m m' r : M}
    → Reads f l bytes rest m m'
    → Decodes f l rest m' r
    → Decodes f l bytes m r
unfolding read_fields
field_then {bytes = []} first after = record {
  runs = λ _ n _. absurd (omega (arith, first.shorter));
}
field_then {f = f} {l = l} {bytes = x ∷ bytes} {m = m} {r = r} first after = record {
  runs = by_turns;
}
  where
    by_turns :
        length (x ∷ bytes) ≤ l
        → (n : ℕ) → length (x ∷ bytes) ≤ n
        → read_fields f n l (x ∷ bytes) m ≡ ok r
    by_turns whole zero enough = absurd (omega arith)
    by_turns whole (suc n) enough =
        ap (λ o. o >>= λ p. read_fields f n l p.1 p.0) (first.turn whole)
        ∙ after.runs (omega (arith, first.shorter)) n (omega (arith, first.shorter))
