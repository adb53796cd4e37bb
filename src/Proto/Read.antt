-- ===== src/Proto/Read.antt =====
-- The loops that the generated `Unmarshal` methods share (x/feemarket/types/params.pb.go and
-- genesis.pb.go, and the unmarshal functions of api/feemarket/feemarket/v1): a varint, a block with its
-- length, and the fields of a message. `l` is `len(dAtA)`, so that `iNdEx` is `l` less what is left.
use feemarket.Prelude.{
  ℕ, zero, suc, ◌+◌, ◌-◌, ◌/◌, ◌%◌, Bool, true, false, [], ◌∷◌, if◌then◌else◌, ltb, length, ◌==◌,
}
use feemarket.Prelude.Int.{int64_max}
use feemarket.Prelude.Outcome.{Outcome, ok, err, panic, Error, message}
use feemarket.Prelude.Outcome.Pure.{◌>>=◌}
use feemarket.Sdk.{Bytes}
use feemarket.Proto.{Reading, value, overflow, unexpected_end, read_varint}

-- `ErrIntOverflow…`, `io.ErrUnexpectedEOF`, `ErrInvalidLength…`
abbrev pub int_overflow : Error
int_overflow = message "proto: integer overflow"

abbrev pub unexpected_eof : Error
unexpected_eof = message "unexpected EOF"

abbrev pub invalid_length : Error
invalid_length = message "proto: negative length found during unmarshaling"

abbrev pub wrong_wire_type : Error
wrong_wire_type = message "proto: wrong wireType = %d for field %s"

abbrev pub of_reading : Reading → Outcome (ℕ × Bytes)
of_reading (value v rest) = ok (v, rest)
of_reading overflow = err int_overflow
of_reading unexpected_end = err unexpected_eof

abbrev pub take_varint : Bytes → Outcome (ℕ × Bytes)
take_varint bytes = of_reading (read_varint bytes)

abbrev pub take : ℕ → Bytes → Bytes
take zero bytes = []
take (suc n) [] = []
take (suc n) (b ∷ bytes) = b ∷ take n bytes

abbrev pub drop : ℕ → Bytes → Bytes
drop zero bytes = bytes
drop (suc n) [] = []
drop (suc n) (b ∷ bytes) = drop n bytes

-- `dAtA[iNdEx:postIndex]`, with the bytes after it: a slice that ends before zero or past the end of
-- the data panics.
unfoldable pub slice : ℕ → ℕ → Bytes → Outcome (Bytes × Bytes)
slice l n rest =
    if ltb int64_max (l - length rest + n)
    then panic
    else if ltb (length rest) n
    then panic
    else ok (take n rest, drop n rest)

-- The bytes from `iNdEx` to `postIndex`, after the tests on a length that has been read.
unfoldable pub cut : ℕ → ℕ → Bytes → Outcome (Bytes × Bytes)
unfolding slice
cut l n rest =
    if ltb int64_max n
    then err invalid_length
    else if ltb int64_max (l - length rest + n)
    then err invalid_length
    else if ltb (length rest) n
    then err unexpected_eof
    else slice l n rest

abbrev pub take_block : ℕ → Bytes → Outcome (Bytes × Bytes)
take_block l bytes = take_varint bytes >>= λ p. cut l p.0 p.1

-- What reads the value of a field into a message: given `l`, the field's number, the wire type, the
-- bytes from the tag on, and those after it.
abbrev pub Field : Type 0 → Type 0
Field M = ℕ → ℕ → ℕ → Bytes → Bytes → M → Outcome (M × Bytes)

-- The values of the wire types 0 and 2, for a field that wants that type.
abbrev pub number_field : {M : Type 0} → (ℕ → M) → ℕ → Bytes → Outcome (M × Bytes)
number_field put type rest =
    if type == 0 then take_varint rest >>= (λ p. ok (put p.0, p.1)) else err wrong_wire_type

abbrev pub block_field : {M : Type 0} → ℕ → (Bytes → Outcome M) → ℕ → Bytes → Outcome (M × Bytes)
block_field l put type rest =
    if type == 2
    then take_block l rest >>= (λ p. put p.0 >>= λ m. ok (m, p.1))
    else err wrong_wire_type

abbrev pub is_set : ℕ → Bool
is_set zero = false
is_set (suc _) = true

-- One turn of the loop. The number of a field is the int32 that `wire >> 3` is cut to.
unfoldable pub read_field : {M : Type 0} → Field M → ℕ → Bytes → M → Outcome (M × Bytes)
read_field field l bytes m = take_varint bytes >>= λ p.
    let number = p.0 / 8 % 4_294_967_296 in
    if p.0 % 8 == 4
    then err (message "proto: wiretype end group for non-group")
    else if number == 0
    then err (message "proto: illegal tag %d (wire type %d)")
    else if ltb 2_147_483_647 number
    then err (message "proto: illegal tag %d (wire type %d)")
    else field l number (p.0 % 8) bytes p.1 m

-- The loop. Each turn takes a byte at least, so as many turns as there are bytes are enough.
unfoldable pub read_fields : {M : Type 0} → Field M → ℕ → ℕ → Bytes → M → Outcome M
read_fields field n l [] m = ok m
read_fields field zero l (b ∷ bytes) m = panic
read_fields field (suc n) l (b ∷ bytes) m =
    read_field field l (b ∷ bytes) m >>= λ p. read_fields field n l p.1 p.0

-- `Unmarshal` into a message.
abbrev pub read_message : {M : Type 0} → Field M → Bytes → M → Outcome M
read_message field bytes m = read_fields field (length bytes) (length bytes) bytes m
