-- ===== src/Api.antt =====
-- What the messages of the API module share (api/feemarket/feemarket/v1: params.pulsar.go,
-- genesis.pulsar.go and tx.pulsar.go): the values of their reflection, and how their fields are sized, written and
-- read. A Go string is its bytes. The functions of the package `runtime` are parameters.
pub mod Params
pub mod Fields
pub mod Values
pub mod State
pub mod Nested
pub mod MsgParams
pub mod Genesis
use feemarket.Prelude.{
  ℕ, zero, suc, ◌+◌, ◌-◌, Bool, true, false, not, if◌then◌else◌, Option, none, some, List, [], ◌∷◌,
  ltb, length, ◌==◌, replicate, ◌≡◌, ◌<◌,
}
use feemarket.Prelude.Int.{two_64}
use feemarket.Prelude.Outcome.{Outcome, ok, panic}
use feemarket.Prelude.Outcome.Pure.{◌>>=◌}
use feemarket.Sdk.{Bytes}
use feemarket.State.{Slice}
use feemarket.Proto.{encode_varint, put_bytes}
use feemarket.Proto.Read.{slice, block_field}
use feemarket.Proto.Skip.{cut_unknown}

-- `runtime.EncodeVarint` (the bytes of a number before others), `runtime.Sov` and `runtime.Skip`
pub record Runtime : Type 0 where
  pub encode_varint : ℕ → Bytes → Bytes
  pub sov : ℕ → ℕ
  pub skip : Bytes → Outcome ℕ

-- `EncodeVarint` writes groups of seven bits from the lowest, and `Sov` is how many there are.
pub record RuntimeLaws ⦃r : Runtime⦄ : Type 0 where
  pub encode_varint_eq :
      (v : ℕ) (tail : Bytes) → v < two_64 → r.encode_varint v tail ≡ encode_varint v tail
  pub sov_eq : (v : ℕ) → v < two_64 → r.sov v ≡ length (encode_varint v [])

-- A value of the reflection. A list is a pointer to a slice, or nil: here the slice it points to.
pub data Value : Type 0 where
  string_value : Bytes → Value
  uint64_value : ℕ → Value
  bool_value : Bool → Value
  list_value : Option Slice → Value

-- `value.Interface().(string)`, `value.Uint()` and `value.Bool()`
abbrev pub as_string : Value → Outcome Bytes
as_string (string_value b) = ok b
as_string _ = panic

abbrev pub as_uint64 : Value → Outcome ℕ
as_uint64 (uint64_value v) = ok v
as_uint64 _ = panic

abbrev pub as_bool : Value → Outcome Bool
as_bool (bool_value b) = ok b
as_bool _ = panic

abbrev pub is_empty : {A : Type 0} → List A → Bool
is_empty [] = true
is_empty (_ ∷ _) = false

-- Whether a value is one that `Range` passes over.
abbrev pub is_default : Value → Bool
is_default (string_value b) = is_empty b
is_default (uint64_value v) = v == 0
is_default (bool_value b) = not b
is_default (list_value none) = true
is_default (list_value (some none)) = true
is_default (list_value (some (some us))) = is_empty us

-- One `if` of `Range`: the callback says whether to go on. A callback keeps its results in `S`.
abbrev pub visit : {F V S : Type 0} → (F → V → S → Bool × S) → Bool → F → V → (S → S) → S → S
visit f populated field v next s =
    if populated then (let r = f field v s in if r.0 then next r.1 else r.1) else next s

abbrev pub append_unknown : Option Bytes → Bytes → Option Bytes
append_unknown none [] = none
append_unknown none (b ∷ bytes) = some (b ∷ bytes)
append_unknown (some known) bytes = some (put_bytes known bytes)

abbrev pub bytes_of : Option Bytes → Bytes
bytes_of none = []
bytes_of (some b) = b

-- A string field of wire type 2, for any bytes.
abbrev pub string_field : {M : Type 0} → ℕ → (Bytes → M) → ℕ → Bytes → Outcome (M × Bytes)
string_field l put = block_field l (λ b. ok (put b))

-- A buffer of `size` zero bytes whose end is filled.
unfoldable pub fill : ℕ → Bytes → Outcome Bytes
fill size written =
    if ltb size (length written)
    then panic
    else ok (put_bytes (replicate (size - length written) 0) written)

module _ ⦃r : Runtime⦄ where
  -- `n += 1 + l + runtime.Sov(uint64(l))` if `l > 0`
  unfoldable pub size_string : Bytes → ℕ
  size_string b = if ltb 0 (length b) then 1 + length b + r.sov (length b) else 0

  unfoldable pub size_uint64 : ℕ → ℕ
  size_uint64 v = if v == 0 then 0 else 1 + r.sov v

  -- A field is left out if it is empty or zero.
  unfoldable pub put_string : ℕ → Bytes → Bytes → Bytes
  put_string tag b tail =
      if ltb 0 (length b) then tag ∷ r.encode_varint (length b) (put_bytes b tail) else tail

  unfoldable pub put_uint64 : ℕ → ℕ → Bytes → Bytes
  put_uint64 tag v tail = if v == 0 then tail else tag ∷ r.encode_varint v tail

  -- The default case of `unmarshal`: what it does with the bytes of a field that is not known.
  abbrev pub unknown_field : {M : Type 0} → ℕ → (Bytes → M) → Bytes → Outcome (M × Bytes)
  unknown_field l keep bytes =
      cut_unknown r.skip l bytes >>= λ p. slice l p.0 bytes >>= λ q. ok (keep q.0, q.1)

unfoldable pub size_bool : Bool → ℕ
size_bool b = if b then 2 else 0

unfoldable pub put_bool : ℕ → Bool → Bytes → Bytes
put_bool tag b tail = if b then tag ∷ 1 ∷ tail else tail
