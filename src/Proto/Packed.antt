-- ===== src/Proto/Packed.antt =====
-- The field `window` of `State` in the `Unmarshal` methods of x/feemarket/types/genesis.pb.go and of
-- api/feemarket/feemarket/v1/genesis.pulsar.go: a number, or a block of numbers.
use feemarket.Prelude.{
  ℕ, zero, suc, ◌≤◌, ◌<◌, ◌≡◌, true, refl, ap, ◌∙◌, List, [], ◌∷◌, ◌++◌, some, All, arith,
  if◌then◌else◌, ltb, ge→ltb, lt→ltb, length, ◌==◌,
}
use feemarket.Prelude.Int.{two_64, int64_max}
use feemarket.Prelude.Outcome.{Outcome, ok, err, panic}
use feemarket.Prelude.Outcome.Pure.{◌>>=◌}
use feemarket.Sdk.{Bytes}
use feemarket.State.{Slice, elems}
use feemarket.Proto.{read_varint, value, put_bytes, pack}
use feemarket.Proto.Varint.{
  read_varint-encode_varint, length-encode_groups, encode_groups_some, encode_groups-put_bytes,
}
use feemarket.Proto.Read.{Field, of_reading, take_varint, cut, wrong_wire_type}
use feemarket.Proto.Decodes.{Reads, tagged, length-put_bytes, cut-put_bytes}

-- The loop over a block, until no more than `stop` bytes are left. A number may go on beyond the block.
-- Each turn takes a byte at least, so as many turns as the block has bytes are enough.
unfoldable pub read_packed : ℕ → ℕ → Bytes → Outcome (List ℕ × Bytes)
read_packed zero stop bytes = if ltb stop (length bytes) then panic else ok ([], bytes)
read_packed (suc n) stop bytes =
    let more = take_varint bytes >>= λ p. read_packed n stop p.1 >>= λ q. ok (p.0 ∷ q.0, q.1) in
    if ltb stop (length bytes) then more else ok ([], bytes)

-- `append` to the window, element by element
abbrev pub append_window : Slice → List ℕ → Slice
append_window us [] = us
append_window us (v ∷ vs) = some (elems us ++ v ∷ vs)

-- The two wire types of the field.
unfoldable pub window_field : {M : Type 0} → ℕ → (List ℕ → M) → ℕ → Bytes → Outcome (M × Bytes)
window_field l put type rest =
    if type == 0
    then take_varint rest >>= (λ p. ok (put (p.0 ∷ []), p.1))
    else if type == 2
    then take_varint rest >>= (λ p.
      cut l p.0 p.1 >>= λ b. read_packed (length b.0) (length b.1) p.1 >>= λ q. ok (put q.0, q.1))
    else err wrong_wire_type

-- A window that has been packed is read, up to what follows it.
read_packed-pack :
    (us : List ℕ) (n : ℕ) (tail : Bytes)
    → All (λ u. u < two_64) us
    → length (pack us) ≤ n
    → read_packed n (length tail) (put_bytes (pack us) tail) ≡ ok (us, tail)
unfolding read_packed
read_packed-pack [] zero tail small enough =
    rw (ge→ltb (length tail) (length tail) (omega arith)) refl
read_packed-pack [] (suc n) tail small enough =
    rw (ge→ltb (length tail) (length tail) (omega arith)) refl
read_packed-pack (u ∷ us) zero tail small enough =
    absurd (omega (arith, length-encode_groups 10 u (pack us), encode_groups_some 9 u))
read_packed-pack (u ∷ us) (suc n) tail small enough =
    let first = length-encode_groups 10 u (pack us) in
    let some_bytes = encode_groups_some 9 u in
    let moved = encode_groups-put_bytes 10 u (pack us) tail in
    let inside : ltb (length tail) (length (put_bytes (pack (u ∷ us)) tail)) ≡ true =
      lt→ltb (length tail) (length (put_bytes (pack (u ∷ us)) tail))
        (omega (arith, length-put_bytes (pack (u ∷ us)) tail, first, some_bytes)) in
    rw inside (
      ap (λ b. take_varint b >>= λ p. read_packed n (length tail) p.1 >>= λ q. ok (p.0 ∷ q.0, q.1))
        moved
      ∙ ap (λ r. of_reading r >>= λ p. read_packed n (length tail) p.1 >>= λ q. ok (p.0 ∷ q.0, q.1))
          (read_varint-encode_varint u (put_bytes (pack us) tail) small.0)
      ∙ ap (λ o. o >>= λ q. ok (u ∷ q.0, q.1))
          (read_packed-pack us n tail small.1 (omega (arith, first, some_bytes))))

window_field-pack :
    {M : Type 0} (l : ℕ) (put : List ℕ → M) (us : List ℕ) (h tail : Bytes)
    → l ≤ int64_max
    → All (λ u. u < two_64) us
    → read_varint h ≡ value (length (pack us)) (put_bytes (pack us) tail)
    → length (put_bytes (pack us) tail) ≤ l
    → window_field l put 2 h ≡ ok (put us, tail)
unfolding window_field
window_field-pack l put us h tail fits small read whole =
    ap
      (λ r. of_reading r >>= λ p.
        cut l p.0 p.1 >>= λ b. read_packed (length b.0) (length b.1) p.1 >>= λ q. ok (put q.0, q.1))
      read
    ∙ ap
        (λ o. o >>= λ b. read_packed (length b.0) (length b.1) (put_bytes (pack us) tail) >>= λ q.
          ok (put q.0, q.1))
        (cut-put_bytes l (pack us) tail fits whole)
    ∙ ap (λ o. o >>= λ q. ok (put q.0, q.1))
        (read_packed-pack us (length (pack us)) tail small (omega arith))

-- The turn of the loop that reads a packed window.
pub window_field-Reads :
    {M : Type 0} (f : Field M) (l : ℕ) (put : List ℕ → M) (us : List ℕ) (h tail : Bytes) (m : M)
    → l ≤ int64_max
    → f l 3 2 (26 ∷ h) h m ≡ window_field l put 2 h
    → All (λ u. u < two_64) us
    → read_varint h ≡ value (length (pack us)) (put_bytes (pack us) tail)
    → length (put_bytes (pack us) tail) ≤ length h
    → Reads f l (26 ∷ h) tail m (put us)
window_field-Reads f l put us h tail m fits field small read long = record {
  shorter = omega (arith, long, length-put_bytes (pack us) tail);
  turn = λ whole.
      tagged f l 3 2 h m (omega arith) (omega arith) (omega arith)
      ∙ field
      ∙ window_field-pack l put us h tail fits small read (omega (arith, long, whole));
}
