-- ===== src/Proto/Packing.antt =====
-- How the loop over a packed window of `State.Unmarshal` (x/feemarket/types/genesis.pb.go) makes progress.
use feemarket.Prelude.{
  ℕ, zero, suc, ◌+◌, ◌≤◌, ◌<◌, ◌≡◌, List, [], ◌∷◌, arith, ltb, length, ◌==◌, Bool-cases, inl, inr,
  ltb→lt,
}
use feemarket.Prelude.Outcome.{Outcome, ok, err, panic}
use feemarket.Prelude.Outcome.Pure.{◌>>=◌}
use feemarket.Sdk.{Bytes}
use feemarket.Proto.Read.{take_varint, take, drop, cut}
use feemarket.Proto.Packed.{read_packed, window_field}
use feemarket.Proto.Progress.{Shorter, cut-cases, >>=-Shorter, if-Shorter, take_varint-Shorter}

length-take-drop : (n : ℕ) (b : Bytes) → length (take n b) + length (drop n b) ≡ length b
length-take-drop zero b = omega arith
length-take-drop (suc n) [] = omega arith
length-take-drop (suc n) (x ∷ b) = omega (arith, length-take-drop n b)

-- A call that does not panic, and that returns two parts of some bytes.
abbrev Splits : Bytes → Outcome (Bytes × Bytes) → Type 0
Splits bytes (ok (a, b)) = length a + length b ≡ length bytes
Splits bytes (err _) = Unit
Splits bytes panic = ⊥

cut-Splits : (l n : ℕ) (rest : Bytes) → Splits rest (cut l n rest)
cut-Splits l n rest = cut-cases l n rest (Splits rest) (λ _. tt) (length-take-drop n rest)

-- The packed numbers end within the fuel that they are given.
read_packed-Shorter :
    (n stop : ℕ) (bytes : Bytes)
    → length bytes ≤ stop + n
    → Shorter (suc (length bytes)) (read_packed n stop bytes)
unfolding read_packed
read_packed-Shorter zero stop bytes enough = elim (Bool-cases (ltb stop (length bytes))) [
  | inl more ↦ absurd (omega (arith, ltb→lt stop (length bytes) more))
  | inr done ↦ rw done (omega arith)
]
read_packed-Shorter (suc n) stop bytes enough =
    if-Shorter (suc (length bytes)) (ltb stop (length bytes)) _ _
      (>>=-Shorter (length bytes) (suc (length bytes)) (take_varint bytes) _
        (take_varint-Shorter bytes)
        (λ v rest fewer.
          >>=-Shorter (suc (length rest)) (suc (length bytes)) (read_packed n stop rest) _
            (read_packed-Shorter n stop rest (omega arith)) (λ us left h. omega arith)))
      (omega arith)

pub window_field-Shorter :
    {M : Type 0} (l : ℕ) (put : List ℕ → M) (type : ℕ) (rest : Bytes)
    → Shorter (suc (length rest)) (window_field l put type rest)
unfolding window_field
window_field-Shorter {M = M} l put type rest =
    if-Shorter n (type == 0) _ _
      (>>=-Shorter (length rest) n (take_varint rest) _ (take_varint-Shorter rest)
        (λ v left h. omega arith))
      (if-Shorter n (type == 2) _ _
        (>>=-Shorter (length rest) n (take_varint rest) _ (take_varint-Shorter rest)
          (λ k left h. by_block left (cut l k left) (cut-Splits l k left) h))
        tt)
  where
    n : ℕ
    n = suc (length rest)

    by_block :
        (left : Bytes) (o : Outcome (Bytes × Bytes))
        → Splits left o
        → length left < length rest
        → Shorter
            (suc (length rest))
            (o >>= λ b. read_packed (length b.0) (length b.1) left >>= λ q. ok (put q.0, q.1))
    by_block left (ok (a, b)) h fewer =
        >>=-Shorter (suc (length left)) (suc (length rest)) (read_packed (length a) (length b) left)
          _ (read_packed-Shorter (length a) (length b) left (omega arith))
          (λ us after k. omega arith)
    by_block left (err _) h fewer = tt
    by_block left panic h fewer = h
