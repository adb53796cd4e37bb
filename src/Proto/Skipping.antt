-- ===== src/Proto/Skipping.antt =====
-- `skipParams` and `skipGenesis` (x/feemarket/types/params.pb.go and genesis.pb.go) end on any bytes, and
-- pass a byte at least.
use feemarket.Prelude.{
  ℕ, zero, suc, ◌+◌, ◌-◌, ◌%◌, ◌≤◌, ◌<◌, Bool, true, false, [], ◌∷◌, arith, if◌then◌else◌, ltb,
  length, ◌==◌, Bool-cases, inl, inr, ltb→ge,
}
use feemarket.Prelude.Int.{int64_max}
use feemarket.Prelude.Outcome.{Outcome, ok, err, panic}
use feemarket.Prelude.Outcome.Pure.{◌>>=◌}
use feemarket.Sdk.{Bytes}
use feemarket.Proto.Read.{take_varint, drop, invalid_length, unexpected_eof}
use feemarket.Proto.Skip.{skip_groups, skip_value, skip_fields, skip, cut_unknown}
use feemarket.Proto.Progress.{Shorter, if-Shorter, take_varint-Shorter, length-drop}

-- A call that does not panic, and that returns a number not below `a`.
abbrev AtLeast : ℕ → Outcome ℕ → Type 0
AtLeast a (ok n) = a ≤ n
AtLeast a (err _) = Unit
AtLeast a panic = ⊥

-- The same of an index beside a depth.
abbrev Ahead : ℕ → Outcome (ℕ × ℕ) → Type 0
Ahead a (ok (n, _)) = a ≤ n
Ahead a (err _) = Unit
Ahead a panic = ⊥

-- A call that does not panic, and that leaves fewer bytes than `n` if it returns.
abbrev Leaves : ℕ → Outcome Bytes → Type 0
Leaves n (ok left) = length left < n
Leaves n (err _) = Unit
Leaves n panic = ⊥

skip_groups-Leaves : (n : ℕ) (bytes : Bytes) → Leaves (length bytes) (skip_groups n bytes)
unfolding skip_groups
skip_groups-Leaves zero bytes = tt
skip_groups-Leaves (suc n) [] = tt
skip_groups-Leaves (suc n) (b ∷ bytes) = elim (Bool-cases (ltb b 128)) [
  | inl last ↦ rw last (omega arith)
  | inr more ↦ rw more (longer (skip_groups n bytes) (skip_groups-Leaves n bytes))
]
  where
    longer : (o : Outcome Bytes) → Leaves (length bytes) o → Leaves (suc (length bytes)) o
    longer (ok left) h = omega arith
    longer (err _) h = tt
    longer panic h = h

if-Ahead :
    (a : ℕ) (t : Bool) (o r : Outcome (ℕ × ℕ))
    → Ahead a o
    → Ahead a r
    → Ahead a (if t then o else r)
if-Ahead a true o r h k = h
if-Ahead a false o r h k = k

skip_value-Ahead :
    (l type : ℕ) (rest : Bytes) (depth : ℕ) → Ahead (l - length rest) (skip_value l type rest depth)
unfolding skip_value
skip_value-Ahead l type rest depth =
    if-Ahead a (type == 0) _ _ (after_groups (skip_groups 10 rest) (skip_groups-Leaves 10 rest)) (
      if-Ahead a (type == 1) _ _ (omega arith) (
        if-Ahead a (type == 2) _ _ (after_length (take_varint rest) (take_varint-Shorter rest)) (
          if-Ahead a (type == 3) _ _ (omega arith) (
            if-Ahead a (type == 4) _ _ (if-Ahead a (depth == 0) _ _ tt (omega arith))
              (if-Ahead a (type == 5) _ _ (omega arith) tt)))))
  where
    a : ℕ
    a = l - length rest

    after_groups :
        (o : Outcome Bytes)
        → Leaves (length rest) o
        → Ahead (l - length rest) (o >>= λ left. ok (l - length left, depth))
    after_groups (ok left) h = omega arith
    after_groups (err _) h = tt
    after_groups panic h = h

    after_length :
        (o : Outcome (ℕ × Bytes))
        → Shorter (length rest) o
        → Ahead (l - length rest) (
            o >>= λ p.
            if ltb int64_max p.0 then err invalid_length else ok (l - length p.1 + p.0, depth))
    after_length (ok (n, left)) h =
        if-Ahead (l - length rest) (ltb int64_max n) _ _ tt (omega arith)
    after_length (err _) h = tt
    after_length panic h = h

if-AtLeast :
    (a : ℕ) (t : Bool) (o r : Outcome ℕ)
    → AtLeast a o
    → AtLeast a r
    → AtLeast a (if t then o else r)
if-AtLeast a true o r h k = h
if-AtLeast a false o r h k = k

Shorter-then :
    (n : ℕ) (o : Outcome (ℕ × Bytes)) (f : ℕ × Bytes → Outcome ℕ)
    → Shorter n o
    → ((v : ℕ) (rest : Bytes) → length rest < n → AtLeast 1 (f (v, rest)))
    → AtLeast 1 (o >>= f)
Shorter-then n (ok (v, rest)) f h k = k v rest h
Shorter-then n (err _) f h k = tt
Shorter-then n panic f h k = h

Ahead-then :
    (a : ℕ) (o : Outcome (ℕ × ℕ)) (f : ℕ × ℕ → Outcome ℕ)
    → Ahead a o
    → ((i d : ℕ) → a ≤ i → AtLeast 1 (f (i, d)))
    → AtLeast 1 (o >>= f)
Ahead-then a (ok (i, d)) f h k = k i d h
Ahead-then a (err _) f h k = tt
Ahead-then a panic f h k = h

skip_fields-AtLeast :
    (n l : ℕ) (bytes : Bytes) (depth : ℕ)
    → length bytes ≤ n
    → length bytes ≤ l
    → AtLeast 1 (skip_fields n l bytes depth)
unfolding skip_fields
skip_fields-AtLeast n l [] depth enough within = tt
skip_fields-AtLeast zero l (b ∷ bytes) depth enough within = omega arith
skip_fields-AtLeast (suc n) l (b ∷ bytes) depth enough within =
    let all = length (b ∷ bytes) in
    Shorter-then all (take_varint (b ∷ bytes)) _ (take_varint-Shorter (b ∷ bytes))
      (λ wire rest fewer.
        Ahead-then (l - length rest) (skip_value l (wire % 8) rest depth) _
          (skip_value-Ahead l (wire % 8) rest depth)
          (λ i d ahead.
            let passed = i - (l - all) in
            let left = length-drop passed (b ∷ bytes) in
            if-AtLeast 1 (ltb int64_max i) _ _ tt (
              if-AtLeast 1 (d == 0) _ _ (omega arith) (
                skip_fields-AtLeast n l (drop passed (b ∷ bytes)) d (omega (arith, left))
                  (omega (arith, left))))))

-- What the default case of `Unmarshal` leaves.
pub cut_unknown-Shorter :
    (l : ℕ) (bytes : Bytes) → Shorter (length bytes) (cut_unknown skip l bytes)
unfolding cut_unknown
cut_unknown-Shorter l bytes =
    by_skip (skip bytes)
      (skip_fields-AtLeast (length bytes) (length bytes) bytes 0 (omega arith) (omega arith))
  where
    by_skip :
        (o : Outcome ℕ)
        → AtLeast 1 o
        → Shorter (length bytes) (
            o >>= λ n.
            if ltb int64_max (l - length bytes + n)
            then err invalid_length
            else if ltb (length bytes) n
            then err unexpected_eof
            else ok (n, drop n bytes))
    by_skip (ok n) h =
        if-Shorter (length bytes) (ltb int64_max (l - length bytes + n)) _ _ tt
          (elim (Bool-cases (ltb (length bytes) n)) [
            | inl beyond ↦ rw beyond tt
            | inr inside ↦
                rw inside (omega (arith, length-drop n bytes, ltb→ge (length bytes) n inside))
          ])
    by_skip (err _) h = tt
    by_skip panic h = h
