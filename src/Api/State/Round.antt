-- ===== src/Api/State/Round.antt =====
-- `ProtoMethods` of the message `State` (api/feemarket/feemarket/v1/genesis.pulsar.go): size, marshal and
-- unmarshal agree.
use feemarket.Prelude.{
  ℕ, ◌≤◌, ◌<◌, ◌≡◌, refl, sym, ap, ◌∙◌, Bool, none, some, [], ◌∷◌, All, arith, length,
}
use feemarket.Prelude.Int.{two_64, int64_max}
use feemarket.Prelude.Outcome.{ok}
use feemarket.Prelude.Outcome.Pure.{◌>>=◌}
use feemarket.Sdk.{Bytes}
use feemarket.State.{Slice, elems}
use feemarket.Proto.{put_bytes}
use feemarket.Proto.Decodes.{Decodes, nothing}
use feemarket.Proto.Packed.{append_window}
use feemarket.Api.{Runtime, RuntimeLaws, bytes_of, fill, put_string, put_uint64}
use feemarket.Api.Fields.{
  fill-length, length-put_uint64, put_uint64-Decodes, length-put_string, put_string-Decodes,
}
use feemarket.Api.State.{State, empty}
use feemarket.Api.State.Window.{
  window_bytes, put_window-window_bytes, length-window_bytes, window_bytes-Decodes,
}
use feemarket.Api.State.Methods.{
  packed_size, size, message_size, put_message, marshal, state_field, unmarshal,
}

-- What a Go program can hold: numbers of 64 bits, and strings and a packed window that are no longer
-- than a slice.
pub record IsMessage ⦃rt : Runtime⦄ (s : State) : Type 0 where
  pub base_gas_price_le : length s.base_gas_price ≤ int64_max
  pub learning_rate_le : length s.learning_rate ≤ int64_max
  pub window_lt : All (λ u. u < two_64) (elems s.window)
  pub packed_le : packed_size (elems s.window) ≤ int64_max
  pub index_lt : s.index < two_64

-- An empty window comes back as nil.
abbrev pub nil_if_empty : Slice → Slice
nil_if_empty none = none
nil_if_empty (some []) = none
nil_if_empty (some (u ∷ us)) = some (u ∷ us)

append_window_nil : (us : Slice) → append_window none (elems us) ≡ nil_if_empty us
append_window_nil none = refl
append_window_nil (some []) = refl
append_window_nil (some (u ∷ us)) = refl

module _ ⦃rt : Runtime⦄ ⦃laws : RuntimeLaws⦄ where
  -- The fields that marshal writes.
  abbrev after_window : State → Bytes
  after_window s = put_uint64 32 s.index (bytes_of s.unknown_fields)

  abbrev message_bytes : State → Bytes
  message_bytes s =
      put_string 10 s.base_gas_price
        (put_string 18 s.learning_rate (window_bytes (elems s.window) (after_window s)))

  put_message-message_bytes : (s : State) → IsMessage s → put_message s ≡ ok (message_bytes s)
  unfolding put_message
  put_message-message_bytes s h =
      ap
        (λ o.
          o >>= λ tail. ok (put_string 10 s.base_gas_price (put_string 18 s.learning_rate tail)))
        (put_window-window_bytes (elems s.window) (after_window s) h.window_lt)

  length-message_bytes : (s : State) → IsMessage s → length (message_bytes s) ≡ message_size s
  unfolding message_size
  length-message_bytes s h =
      let w = window_bytes (elems s.window) (after_window s) in
      omega (
        arith,
        length-put_string 10 s.base_gas_price (put_string 18 s.learning_rate w)
            (omega (arith, h.base_gas_price_le)),
        length-put_string 18 s.learning_rate w (omega (arith, h.learning_rate_le)),
        length-window_bytes (elems s.window) (after_window s) h.window_lt h.packed_le,
        length-put_uint64 32 s.index (bytes_of s.unknown_fields) h.index_lt,
      )

  -- The message once the fields up to a number have been read.
  abbrev read_1 : State → State
  read_1 s = record empty { base_gas_price = s.base_gas_price }

  abbrev read_2 : State → State
  read_2 s = record (read_1 s) { learning_rate = s.learning_rate }

  abbrev read_3 : State → State
  read_3 s = record (read_2 s) { window = append_window none (elems s.window) }

  abbrev read_4 : State → State
  read_4 s = record (read_3 s) { index = s.index }

  message_bytes-Decodes :
      (discard : Bool) (s : State) (l : ℕ)
      → l ≤ int64_max
      → IsMessage s
      → s.unknown_fields ≡ none
      → Decodes (state_field discard) l (message_bytes s) empty (read_4 s)
  unfolding state_field
  message_bytes-Decodes discard s l fits h known =
      let f = state_field discard in
      let r = read_4 s in
      let end : Decodes f l (bytes_of s.unknown_fields) r r = rw known (nothing f l r) in
      let d4 =
        put_uint64-Decodes f l 4 (λ x. record (read_3 s) { index = x }) s.index _ (read_3 s) r
          (omega arith) (omega arith) (λ _. refl) refl h.index_lt end in
      let d3 =
        window_bytes-Decodes f l (λ us. record (read_2 s) { window = append_window none us })
          (elems s.window) _ (read_2 s) r fits (λ _. refl) refl h.window_lt h.packed_le d4 in
      let d2 =
        put_string-Decodes f l 2 (λ x. record (read_1 s) { learning_rate = x }) s.learning_rate _
          (read_1 s) r (omega arith) (omega arith) fits (λ _. refl) refl
          (omega (arith, h.learning_rate_le)) d3 in
      put_string-Decodes f l 1 (λ x. record empty { base_gas_price = x }) s.base_gas_price _ empty r
        (omega arith) (omega arith) fits (λ _. refl) refl (omega (arith, h.base_gas_price_le)) d2

  -- For a message State of the API module that has no unknown fields, whose numbers fit 64 bits,
  -- and whose strings, packed window and whole encoding are no longer than a slice can be, marshal
  -- returns: what it writes is as long as size says, and unmarshal into a new message gives the
  -- message back, with nil for a window that is empty.
  pub unmarshal-marshal_state :
      (discard : Bool) (s : State)
      → IsMessage s
      → message_size s ≤ int64_max
      → s.unknown_fields ≡ none
      → (w : Bytes) × (marshal [] (some s) ≡ ok w)
        × (length w ≡ size (some s))
        × (unmarshal discard w (some empty)
            ≡ ok (some (record s { window = nil_if_empty s.window })))
  unfolding marshal unmarshal
  unmarshal-marshal_state discard s h small known =
      let w = message_bytes s in
      let e = length-message_bytes s h in
      let fits : length w ≤ int64_max = omega (arith, e) in
      let reads =
        (message_bytes-Decodes discard s (length w) fits h known).runs (omega arith) (length w)
          (omega arith) in
      (
        w,
        ap (λ o. o >>= fill (message_size s) >>= λ w. ok (put_bytes [] w))
              (put_message-message_bytes s h)
            ∙ ap (λ o. o >>= λ w. ok (put_bytes [] w)) (fill-length (message_size s) w e),
        e,
        ap (λ o. o >>= λ t. ok (some t)) reads
            ∙ ap (λ us. ok (some (record (read_4 s) { window = us }))) (append_window_nil s.window)
            ∙ ap (λ u. ok (some (record s { unknown_fields = u; window = nil_if_empty s.window })))
                (sym known),
      )
