-- ===== src/Proto.antt =====
-- The generated encoders `MarshalToSizedBuffer` of `Params` and `State` (x/feemarket/types/params.pb.go
-- and genesis.pb.go), and the loop that reads a varint. An encoder fills a buffer from its end: here it
-- puts the bytes of a field before those that are there. `MarshalTo` of a decimal, whose bytes are as
-- many as its `Size` says, and the bytes of a Go string are parameters.
pub mod Varint
pub mod Read
pub mod Skip
pub mod Decodes
pub mod Packed
pub mod Unmarshal
pub mod Blocks
pub mod StateRound
pub mod ParamsBytes
pub mod ParamsRound
pub mod Generated
pub mod Messages
pub mod MessagesRound
pub mod QueriesRound
pub mod Bits
pub mod Size
pub mod Sized
pub mod Buffers
pub mod Progress
pub mod Packing
pub mod Skipping
pub mod Total
use Prim.Native.String.{len}
use feemarket.Prelude.{
  ℕ, zero, suc, ◌+◌, ◌*◌, ◌/◌, ◌%◌, ◌≤◌, ◌≡◌, String, Bool, true, false, List, [], ◌∷◌,
  if◌then◌else◌, ltb, length, ◌==◌,
}
use feemarket.Prelude.Int.{two_64}
use feemarket.Prelude.Outcome.{Outcome, ok}
use feemarket.Prelude.Outcome.Pure.{◌>>=◌}
use feemarket.Math.{Math}
use feemarket.Sdk.{Bytes}
use feemarket.Params.{Params}
use feemarket.State.{State, elems}

-- Groups of seven bits from the lowest, each but the last with the eighth bit set, before a tail. The
-- first argument is the number of groups still allowed.
unfoldable pub encode_groups : ℕ → ℕ → Bytes → Bytes
encode_groups zero v tail = tail
encode_groups (suc n) v tail =
    let more = encode_groups n (v / 128) tail in
    if ltb v 128 then v ∷ tail else (v % 128 + 128) ∷ more

-- `encodeVarintParams` and `encodeVarintGenesis`: a uint64 has at most ten groups.
abbrev pub encode_varint : ℕ → Bytes → Bytes
encode_varint = encode_groups 10

pub data Reading : Type 0 where
  value : ℕ → Bytes → Reading
  overflow unexpected_end : Reading

-- The loop of the `Unmarshal` methods that reads a varint: `scale` is `1 << shift`, and the bits that are
-- or-ed in are above those of `acc`. The eleventh group would be shifted by 70.
unfoldable pub read_groups : ℕ → ℕ → ℕ → Bytes → Reading
read_groups zero scale acc bytes = overflow
read_groups (suc n) scale acc [] = unexpected_end
read_groups (suc n) scale acc (b ∷ bytes) =
    let v = acc + (b % 128 * scale) % two_64 in
    let more = read_groups n (scale * 128) v bytes in if ltb b 128 then value v bytes else more

abbrev pub read_varint : Bytes → Reading
read_varint = read_groups 10 1 0

-- The bytes before others.
abbrev pub put_bytes : Bytes → Bytes → Bytes
put_bytes [] tail = tail
put_bytes (b ∷ bytes) tail = b ∷ put_bytes bytes tail

-- `MarshalTo`, `Size` and `Unmarshal` of a decimal, where `Unmarshal` is given the decimal that is there, which
-- it leaves as it is if there are no bytes; and the nil decimal of a new struct; and the conversions of
-- a string to bytes and back.
pub record Wire ⦃m : Math⦄ : Type 0 where
  pub dec_bytes : m.LegacyDec → Outcome Bytes
  pub dec_size : m.LegacyDec → ℕ
  pub dec_of_bytes : m.LegacyDec → Bytes → Outcome m.LegacyDec
  pub nil_dec : m.LegacyDec
  pub string_bytes : String → Bytes
  pub string_of_bytes : Bytes → String

-- A decimal that is not nil has at most 315 bits, of which `MarshalTo` writes the digits, and `Unmarshal`
-- reads it back. A string that is a text has its UTF-8 bytes.
pub record WireLaws ⦃m : Math⦄ ⦃w : Wire⦄ : Type 0 where
  pub dec_round :
      (d : m.LegacyDec)
      → m.is_nil d ≡ false
      → (b : Bytes) × (w.dec_bytes d ≡ ok b)
        × (length b ≤ 1_024)
        × ((old : m.LegacyDec) → w.dec_of_bytes old b ≡ ok d)
  -- as many bytes as `Size` says
  pub dec_length :
      (d : m.LegacyDec) {b : Bytes}
      → w.dec_bytes d ≡ ok b
      → (length b ≤ 1_024) × (w.dec_size d ≡ length b)
  pub string_round : (s : String) → w.string_of_bytes (w.string_bytes s) ≡ s
  pub string_length : (s : String) → length (w.string_bytes s) ≤ len s

-- A field: its tag, its length and its bytes; a number, left out if it is zero; a Boolean, left out if
-- it is false.
abbrev pub put_block : ℕ → Bytes → Bytes → Bytes
put_block tag bytes tail = tag ∷ encode_varint (length bytes) (put_bytes bytes tail)

abbrev pub put_number : ℕ → ℕ → Bytes → Bytes
put_number tag v tail = if v == 0 then tail else tag ∷ encode_varint v tail

abbrev pub put_bool : ℕ → Bool → Bytes → Bytes
put_bool tag b tail = if b then tag ∷ 1 ∷ tail else tail

abbrev pub put_block_unless_empty : ℕ → Bytes → Bytes → Bytes
put_block_unless_empty tag [] tail = tail
put_block_unless_empty tag (b ∷ bytes) tail = put_block tag (b ∷ bytes) tail

-- The packed window.
abbrev pub pack : List ℕ → Bytes
pack [] = []
pack (u ∷ us) = encode_varint u (pack us)

module _ ⦃m : Math⦄ ⦃w : Wire⦄ where
  abbrev pub put_dec : ℕ → m.LegacyDec → Bytes → Outcome Bytes
  put_dec tag d tail = w.dec_bytes d >>= λ bytes. ok (put_block tag bytes tail)

  -- `State.MarshalToSizedBuffer`
  unfoldable pub marshal_state : State → Outcome Bytes
  marshal_state s = do
    let tail = put_block_unless_empty 26 (pack (elems s.window)) (put_number 32 s.index [])
    tail ← put_dec 18 s.learning_rate tail
    put_dec 10 s.base_gas_price tail

  -- `Params.MarshalToSizedBuffer`
  unfoldable pub marshal_params : Params → Outcome Bytes
  marshal_params p = do
    let tail = put_bool 88 p.enabled (put_bool 96 p.distribute_fees [])
    let tail = put_block_unless_empty 82 (w.string_bytes p.fee_denom) tail
    let tail = put_number 64 p.max_block_utilization (put_number 72 p.window tail)
    tail ← put_dec 58 p.max_learning_rate tail
    tail ← put_dec 50 p.min_learning_rate tail
    tail ← put_dec 42 p.min_base_gas_price tail
    tail ← put_dec 34 p.delta tail
    tail ← put_dec 26 p.gamma tail
    tail ← put_dec 18 p.beta tail
    put_dec 10 p.alpha tail
