-- ===== src/Api/Nested.antt =====
-- A message that another one holds by a pointer (the fields `Params` and `State` of the messages in
-- api/feemarket/feemarket/v1/tx.pulsar.go and genesis.pulsar.go). The options of the package `proto` encode
-- and decode it, and are a parameter.
pub mod Fields
pub mod Known
use feemarket.Prelude.{ℕ, ◌+◌, ◌≡◌, Bool, Option, none, some, [], ◌∷◌, length}
use feemarket.Prelude.Outcome.{Outcome, ok}
use feemarket.Prelude.Outcome.Pure.{◌>>=◌}
use feemarket.Sdk.{Bytes}
use feemarket.Proto.{put_bytes}
use feemarket.Proto.Read.{block_field}
use feemarket.Api.{Runtime}

-- `options.Size`, `options.Marshal` and `options.Unmarshal` with what `DiscardUnknown` is
pub record Options (M : Type 0) : Type 0 where
  pub size : Option M → ℕ
  pub marshal : Option M → Outcome Bytes
  pub unmarshal : Bool → Bytes → Option M → Outcome (Option M)

-- The package `proto` calls the functions that `ProtoMethods` of the message gives, marshal without
-- a buffer, and unmarshal on the message as it is: the options that the runtime makes merge.
pub record OptionsLaws {M : Type 0} (o : Options M) (size : Option M → ℕ)
    (marshal : Bytes → Option M → Outcome Bytes)
    (unmarshal : Bool → Bytes → Option M → Outcome (Option M)) : Type 0 where
  pub size_eq : (x : Option M) → o.size x ≡ size x
  pub marshal_eq : (x : Option M) → o.marshal x ≡ marshal [] x
  pub unmarshal_eq :
      (discard : Bool) (b : Bytes) (x : Option M) → o.unmarshal discard b x ≡ unmarshal discard b x

-- `if x.Params == nil { x.Params = &Params{} }`
abbrev pub or_new : {M : Type 0} → M → Option M → Option M
or_new new none = some new
or_new new (some x) = some x

module _ ⦃r : Runtime⦄ {M : Type 0} (o : Options M) where
  -- `n += 1 + l + runtime.Sov(uint64(l))` if the pointer is not nil
  unfoldable pub size_message : Option M → ℕ
  size_message none = 0
  size_message (some x) = 1 + o.size (some x) + r.sov (o.size (some x))

  unfoldable pub put_message : ℕ → Option M → Bytes → Outcome Bytes
  put_message tag none tail = ok tail
  put_message tag (some x) tail = o.marshal (some x) >>= λ encoded.
      ok (tag ∷ r.encode_varint (length encoded) (put_bytes encoded tail))

  -- A field of wire type 2 that is merged into the message that is there, or into a new one.
  abbrev pub message_field :
      {N : Type 0} → ℕ → Bool → M → Option M → (Option M → N) → ℕ → Bytes → Outcome (N × Bytes)
  message_field l discard new x put =
      block_field l (λ b. o.unmarshal discard b (or_new new x) >>= λ y. ok (put y))
