-- ===== src/Proto/Sized.antt =====
-- The buffers that the generated methods `Marshal` make (x/feemarket/types: params.pb.go, genesis.pb.go,
-- tx.pb.go and query.pb.go) are as long as what is written into them.
use feemarket.Prelude.{
  ℕ, ◌+◌, ◌-◌, ◌<◌, ◌≡◌, refl, ap, ◌∙◌, Bool, true, false, List, [], ◌∷◌, inl, inr, ltb, length,
  ◌==◌, Bool-cases, All, arith, lt→ltb, ge→ltb, replicate,
}
use feemarket.Prelude.Int.{two_64, slice_max}
use feemarket.Prelude.Outcome.{Outcome, ok, err, panic}
use feemarket.Sdk.{Bytes}
use feemarket.Proto.{put_bytes, put_block, put_number, put_bool, put_block_unless_empty, pack}
use feemarket.Proto.Read.{take}
use feemarket.Proto.Decodes.{length-put_bytes}
use feemarket.Proto.Varint.{encode_groups_some, length-encode_groups}
use feemarket.Proto.Blocks.{length-pack}
use feemarket.Proto.Bits.{sov, sov-length}
use feemarket.Proto.Size.{
  size_block, size_block_unless_empty, size_number, size_bool, size_elems, size_window, marshal,
}

pub put_block-size :
    (tag : ℕ) (b tail : Bytes)
    → length b < two_64
    → length (put_block tag b tail) ≡ size_block (length b) + length tail
put_block-size tag b tail small =
    omega (arith, sov-length (length b) (put_bytes b tail) small, length-put_bytes b tail)

pub put_block_unless_empty-size :
    (tag : ℕ) (b tail : Bytes)
    → length b < two_64
    → length (put_block_unless_empty tag b tail) ≡ size_block_unless_empty (length b) + length tail
put_block_unless_empty-size tag [] tail small = omega arith
put_block_unless_empty-size tag (x ∷ b) tail small =
    rw (lt→ltb 0 (length (x ∷ b)) (omega arith)) (put_block-size tag (x ∷ b) tail small)

pub put_number-size :
    (tag v : ℕ) (tail : Bytes)
    → v < two_64
    → length (put_number tag v tail) ≡ size_number v + length tail
put_number-size tag v tail small = elim (Bool-cases (v == 0)) [
  | inl none ↦ rw none (omega arith)
  | inr more ↦ rw more (omega (arith, sov-length v tail small))
]

pub put_bool-size :
    (tag : ℕ) (b : Bool) (tail : Bytes) → length (put_bool tag b tail) ≡ size_bool b + length tail
put_bool-size tag true tail = omega arith
put_bool-size tag false tail = omega arith

pack-size : (us : List ℕ) → All (λ u. u < two_64) us → length (pack us) ≡ size_elems us
pack-size [] small = refl
pack-size (u ∷ us) small = omega (arith, sov-length u (pack us) small.0, pack-size us small.1)

pub put_window-size :
    (us : List ℕ) (tail : Bytes)
    → All (λ u. u < two_64) us
    → length us < slice_max
    → length (put_block_unless_empty 26 (pack us) tail) ≡ size_window us + length tail
put_window-size [] tail small short = omega arith
put_window-size (u ∷ us) tail small short =
    let some_bytes = encode_groups_some 9 u in
    let positive : ltb 0 (length (pack (u ∷ us))) ≡ true =
      lt→ltb 0 (length (pack (u ∷ us)))
        (omega (arith, some_bytes, length-encode_groups 10 u (pack us))) in
    let whole =
      put_block_unless_empty-size 26 (pack (u ∷ us)) tail (omega (arith, length-pack (u ∷ us))) in
    let sizes = pack-size (u ∷ us) small in omega (arith, rw positive at whole, sizes, ap sov sizes)

take_all : (b : Bytes) → take (length b) b ≡ b
take_all [] = refl
take_all (x ∷ b) = ap (λ t. x ∷ t) (take_all b)

-- What is written, if anything is, is as long as `size`.
abbrev pub HasSize : ℕ → Outcome Bytes → Type 0
HasSize size (ok b) = length b ≡ size
HasSize size (err _) = Unit
HasSize size panic = Unit

-- A buffer of the right size is filled, and returned whole.
pub record IsFilled (size : ℕ) (o : Outcome Bytes) : Type 0 where
  pub exact : HasSize size o
  pub whole : marshal size o ≡ o

pub filled :
    (size : ℕ) (o : Outcome Bytes) → ((b : Bytes) → o ≡ ok b → length b ≡ size) → IsFilled size o
unfolding marshal
filled size (ok b) exact =
    let e = exact b refl in
    let none_left : length b - length b ≡ 0 = omega arith in
    record {
      exact = e;
      whole =
          rw (← e, ge→ltb (length b) (length b) (omega arith))
            (ap ok
              (ap (λ n. take (length b) (put_bytes (replicate n 0) b)) none_left ∙ take_all b));
    }
filled size (err _) exact = record { exact = tt; whole = refl }
filled size panic exact = record { exact = tt; whole = refl }
