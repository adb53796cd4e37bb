-- ===== src/Proto/Skip.antt =====
-- `skipParams` of x/feemarket/types/params.pb.go and `skipGenesis` of genesis.pb.go: how long a field is
-- that the message does not have.
use feemarket.Prelude.{ℕ, zero, suc, ◌+◌, ◌-◌, ◌%◌, [], ◌∷◌, if◌then◌else◌, ltb, length, ◌==◌}
use feemarket.Prelude.Int.{int64_max}
use feemarket.Prelude.Outcome.{Outcome, ok, err, panic, message}
use feemarket.Prelude.Outcome.Pure.{◌>>=◌}
use feemarket.Sdk.{Bytes}
use feemarket.Proto.Read.{take_varint, drop, int_overflow, unexpected_eof, invalid_length}

-- The loop over the groups of a number that is passed over: what is left after it.
unfoldable pub skip_groups : ℕ → Bytes → Outcome Bytes
skip_groups zero bytes = err int_overflow
skip_groups (suc n) [] = err unexpected_eof
skip_groups (suc n) (b ∷ bytes) =
    let more = skip_groups n bytes in if ltb b 128 then ok bytes else more

-- Where a field ends: `iNdEx` and the depth of groups after it, given `l`, what is left after the wire
-- type, and the depth before. The index may lie beyond the end.
unfoldable pub skip_value : ℕ → ℕ → Bytes → ℕ → Outcome (ℕ × ℕ)
unfolding skip_groups
skip_value l type rest depth =
    let index = l - length rest in
    if type == 0
    then skip_groups 10 rest >>= (λ left. ok (l - length left, depth))
    else if type == 1
    then ok (index + 8, depth)
    else if type == 2
    then take_varint rest
      >>= (λ p. if ltb int64_max p.0 then err invalid_length else ok (l - length p.1 + p.0, depth))
    else if type == 3
    then ok (index, depth + 1)
    else if type == 4
    then (if depth == 0
        then err (message "proto: unexpected end of group")
        else ok (index, depth - 1))
    else if type == 5
    then ok (index + 4, depth)
    else err (message "proto: illegal wireType %d")

-- The loop. Each turn takes a byte at least, so as many turns as there are bytes are enough.
unfoldable pub skip_fields : ℕ → ℕ → Bytes → ℕ → Outcome ℕ
skip_fields n l [] depth = err unexpected_eof
skip_fields zero l (b ∷ bytes) depth = panic
skip_fields (suc n) l (b ∷ bytes) depth = take_varint (b ∷ bytes) >>= λ p.
    skip_value l (p.0 % 8) p.1 depth >>= λ q.
    let again = skip_fields n l (drop (q.0 - (l - length (b ∷ bytes))) (b ∷ bytes)) q.1 in
    if ltb int64_max q.0 then err invalid_length else if q.1 == 0 then ok q.0 else again

-- `skipParams` and `skipGenesis`
abbrev pub skip : Bytes → Outcome ℕ
skip bytes = skip_fields (length bytes) (length bytes) bytes 0

-- The default case of `Unmarshal`: the bytes of the field, and those after it.
unfoldable pub cut_unknown : (Bytes → Outcome ℕ) → ℕ → Bytes → Outcome (ℕ × Bytes)
cut_unknown skip l bytes = skip bytes >>= λ n.
    if ltb int64_max (l - length bytes + n)
    then err invalid_length
    else if ltb (length bytes) n
    then err unexpected_eof
    else ok (n, drop n bytes)
