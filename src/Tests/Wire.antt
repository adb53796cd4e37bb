-- ===== src/Tests/Wire.antt =====
-- Examples for the generated encoders: decimals as two numbers, the sign and the size.
use Prim.Native.String as S
use Prim.Native.Char.{code, len_utf8_def, width}
use Prim.Native.Nat.{compare, Ordering}
use Prim.Native.String.len
use feemarket.Prelude.{
  ℕ, ◌≤◌, ◌≡◌, ◌≢◌, refl, ap, arith, String, Option, none, some, [], ◌∷◌, length,
}
use feemarket.Prelude.Int.{ℤ}
use feemarket.Prelude.Outcome.{Outcome, ok, err, panic, external}
use feemarket.Prelude.Outcome.Cases.{ok_injective}
use feemarket.Math.Fixed.{fixed}
use feemarket.Sdk.{Bytes}
use feemarket.Codec.{CodecLaws}
use feemarket.Proto.{Wire, WireLaws, encode_groups, encode_varint}
use feemarket.Proto.Unmarshal.{unmarshal_params, unmarshal_state}
use feemarket.Proto.Total.{unmarshal-ends}
use feemarket.Proto.Generated.{generated, generated-CodecLaws}
use feemarket.Tests.Encoding.{tag, size, of_tag, of_tag-tag}
use feemarket.Tests.Text.{codes, of_codes, of_codes-codes}

-- 300 is 0xac 0x02.
encodes : encode_varint 300 (7 ∷ []) ≡ 172 ∷ 2 ∷ 7 ∷ []
unfolding encode_groups
encodes = refl

abbrev dec_of : Option ℤ → Bytes → Outcome (Option ℤ)
dec_of old [] = ok old
dec_of old (t ∷ n ∷ []) = ok (of_tag t n)
dec_of old _ = err (external 1)

abbrev text_or_empty : Option String → String
text_or_empty none = ""
text_or_empty (some t) = t

instance abbrev pub digits : Wire
digits = record {
  dec_bytes = λ d. ok (tag d ∷ size d ∷ []);
  dec_size = λ _. 2;
  dec_of_bytes = dec_of;
  nil_dec = none;
  string_bytes = codes;
  string_of_bytes = λ b. text_or_empty (of_codes b);
}

some_width : (a b c : Ordering) → 1 ≤ width a b c
some_width Ordering.lt b c = omega arith
some_width Ordering.eq Ordering.lt c = omega arith
some_width Ordering.eq Ordering.eq Ordering.lt = omega arith
some_width Ordering.eq Ordering.eq Ordering.eq = omega arith
some_width Ordering.eq Ordering.eq Ordering.gt = omega arith
some_width Ordering.eq Ordering.gt Ordering.lt = omega arith
some_width Ordering.eq Ordering.gt Ordering.eq = omega arith
some_width Ordering.eq Ordering.gt Ordering.gt = omega arith
some_width Ordering.gt Ordering.lt c = omega arith
some_width Ordering.gt Ordering.eq Ordering.lt = omega arith
some_width Ordering.gt Ordering.eq Ordering.eq = omega arith
some_width Ordering.gt Ordering.eq Ordering.gt = omega arith
some_width Ordering.gt Ordering.gt Ordering.lt = omega arith
some_width Ordering.gt Ordering.gt Ordering.eq = omega arith
some_width Ordering.gt Ordering.gt Ordering.gt = omega arith

length-codes : (t : String) → length (codes t) ≤ S.len t
length-codes S.[] = omega arith
length-codes (S.◌∷◌ c t) = omega (
  arith,
  length-codes t,
  S.len.cons c t,
  len_utf8_def c,
  some_width (compare (code c) 128) (compare (code c) 2_048) (compare (code c) 65_536),
)

two_bytes :
    (d : Option ℤ) {b : Bytes}
    → tag d ∷ size d ∷ [] ≡ b
    → (length b ≤ 1_024) × (◌≡◌ {A = ℕ} 2 (length b))
two_bytes d e = rw (← e) (omega arith, refl)

pub digits-WireLaws : WireLaws
digits-WireLaws = record {
  dec_round = λ d _. (tag d ∷ size d ∷ [], refl, omega arith, λ old. ap ok (of_tag-tag d));
  dec_length = λ d e. two_bytes d (ok_injective e);
  string_round = λ t. ap text_or_empty (of_codes-codes t);
  string_length = length-codes;
}

generated-CodecLaws_example : CodecLaws ⦃c = generated⦄
generated-CodecLaws_example = generated-CodecLaws digits-WireLaws

-- A decimal ends on any bytes.
dec_of-returns : (old : Option ℤ) (b : Bytes) → dec_of old b ≢ panic
dec_of-returns old [] e = cc
dec_of-returns old (t ∷ []) e = cc
dec_of-returns old (t ∷ n ∷ []) e = cc
dec_of-returns old (t ∷ n ∷ k ∷ b) e = cc

-- A window of two blocks, a field that is not known, and a number that is cut off.
abbrev damaged : Bytes
damaged = 26 ∷ 2 ∷ 7 ∷ 9 ∷ 122 ∷ 1 ∷ 0 ∷ 32 ∷ 200 ∷ []

unmarshal-ends_example : (unmarshal_params damaged ≢ panic) × (unmarshal_state damaged ≢ panic)
unmarshal-ends_example = unmarshal-ends dec_of-returns damaged
