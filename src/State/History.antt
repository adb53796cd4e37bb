-- ===== src/State/History.antt =====
-- The window of x/feemarket/types/state.go as a ring: the gas of the last blocks, the latest first.
use native.Mathlib.Nat.{mod-eq_of_lt, mod_self}
use mathlib.Core.Option.{some-injective}
use feemarket.Prelude.{
  ℕ, zero, suc, ◌+◌, ◌-◌, ◌%◌, ◌≤◌, ◌<◌, ◌≡◌, ◌≢◌, ◌⊎◌, refl, sym, ap, ◌∙◌, List, [], ◌∷◌, some,
  arith, length, get_elem?, if◌then◌else◌, ltb, ltb→lt, ltb→ge, lt→ltb, ge→ltb, Bool-cases, inl,
  inr,
}
use feemarket.Prelude.Int.{two_64}
use feemarket.Prelude.Outcome.{ok}
use feemarket.Prelude.Outcome.Cases.{ok_injective}
use feemarket.Math.{Math}
use feemarket.Params.{Params}
use feemarket.State.{State, elems, update, update_learning_rate, update_base_gas_price}
use feemarket.State.Window.{
  IsWindow, Writes, increment_height_lem, update-UpdateEffect, update-IsWindow,
}
use feemarket.State.Market.{spend, close, Reach, here, next, close_block}

-- The gas of a block, counted back from the latest; none was used before the first.
abbrev pub gas_of : List ℕ → ℕ → ℕ
gas_of [] j = 0
gas_of (u ∷ us) zero = u
gas_of (u ∷ us) (suc j) = gas_of us j

-- What a transaction adds to the latest block, as a sum of 64 bits.
abbrev pub add_gas : ℕ → List ℕ → List ℕ
add_gas gas us = ((gas_of us 0 + gas) % two_64) ∷ earlier us
  where
    earlier : List ℕ → List ℕ
    earlier [] = []
    earlier (u ∷ us) = us

-- The slot of the block `j` before the latest, whose slot is `i` of `n`.
abbrev pub slot : ℕ → ℕ → ℕ → ℕ
slot i j n = if ltb i j then i + n - j else i - j

slot_le : (i j n : ℕ) → j ≤ i → slot i j n ≡ i - j
slot_le i j n h = rw (ge→ltb i j h) refl

slot_gt : (i j n : ℕ) → i < j → slot i j n ≡ i + n - j
slot_gt i j n h = rw (lt→ltb i j h) refl

next_slot :
    (i n : ℕ) → i < n → (((i + 1) % n ≡ i + 1) × (i + 1 < n)) ⊎ (((i + 1) % n ≡ 0) × (i + 1 ≡ n))
next_slot i n h = elim (Bool-cases (ltb (i + 1) n)) [
  | inl inside ↦ let lt = ltb→lt (i + 1) n inside in inl (mod-eq_of_lt lt, lt)
  | inr last ↦
      let same : i + 1 ≡ n = omega (arith, h, ltb→ge (i + 1) n last) in
      inr (ap (λ k. k % n) same ∙ mod_self n, same)
]

-- After a move to the next slot, a block is one further back, in the slot where it was, and the new
-- slot is another.
slot_moved :
    (i j n : ℕ)
    → i < n
    → suc j < n
    → (slot ((i + 1) % n) (suc j) n ≡ slot i j n) × (((i + 1) % n) ≢ slot i j n)
slot_moved i j n h k = elim (next_slot i n h) [
  | inl (moved, inside) ↦ elim (Bool-cases (ltb i j)) [
    | inl before ↦
        let lt = ltb→lt i j before in
        rw (moved, slot_gt i j n lt, slot_gt (i + 1) (suc j) n (omega (arith, lt)))
          (omega arith, λ e. omega arith)
    | inr after ↦
        let le = ltb→ge i j after in
        rw (moved, slot_le i j n le, slot_le (i + 1) (suc j) n (omega (arith, le)))
          (omega arith, λ e. omega arith)
  ]
  | inr (moved, last) ↦
      let le : j ≤ i = omega arith in
      rw (moved, slot_le i j n le, slot_gt 0 (suc j) n (omega arith))
        (omega arith, λ e. omega arith)
]

-- The slots of earlier blocks are others than that of the latest.
slot_earlier : (i j n : ℕ) → i < n → suc j < n → i ≢ slot i (suc j) n
slot_earlier i j n h k e = elim (Bool-cases (ltb i (suc j))) [
  | inl before ↦
      let lt = ltb→lt i (suc j) before in absurd (omega (arith, slot_gt i (suc j) n lt, e, lt))
  | inr after ↦
      let le = ltb→ge i (suc j) after in absurd (omega (arith, slot_le i (suc j) n le, e, le))
]

slot_first : (i n : ℕ) → slot i 0 n ≡ i
slot_first i n = slot_le i 0 n (omega arith) ∙ omega arith

gas_of-add_gas :
    (gas : ℕ) (us : List ℕ) (j : ℕ) → gas_of us (suc j) ≡ gas_of (add_gas gas us) (suc j)
gas_of-add_gas gas [] j = refl
gas_of-add_gas gas (u ∷ us) j = refl

module _ ⦃m : Math⦄ where
  -- The window shows the gas of as many blocks as it has slots.
  abbrev pub Shows : State → List ℕ → Type 0
  Shows s us =
      (j : ℕ)
      → j < length (elems s.window)
      → get_elem? (elems s.window) (slot s.index j (length (elems s.window))) ≡ some (gas_of us j)

  -- The gas of the blocks after some steps.
  abbrev pub history : {p : Params} {s t : State} → Reach p s t → List ℕ → List ℕ
  history here us = us
  history (next r (spend gas e)) us = add_gas gas (history r us)
  history (next r (close e)) us = 0 ∷ history r us

  -- A write to the slot of the latest block, as the window shows it.
  shows_first :
      (t : State) (i v : ℕ) (us : List ℕ)
      → t.index ≡ i
      → get_elem? (elems t.window) i ≡ some v
      → get_elem? (elems t.window) (slot t.index 0 (length (elems t.window))) ≡ some v
  shows_first t i v us same written =
      ap (get_elem? (elems t.window)) (slot_first t.index (length (elems t.window)) ∙ same)
      ∙ written

  spend-Shows :
      (s t : State) (p : Params) (gas : ℕ) (us : List ℕ)
      → s.index < length (elems s.window)
      → update s gas p ≡ ok t
      → Shows s us
      → Shows t (add_gas gas us)
  spend-Shows s t p gas us inside e shows =
      let (used, reads, _, writes, same) = rw e at (update-UpdateEffect s gas p) in
      let n = length (elems s.window) in
      let used_is : used ≡ gas_of us 0 = some-injective used (gas_of us 0) (
        sym reads
        ∙ sym (ap (get_elem? (elems s.window)) (slot_first s.index n))
        ∙ shows 0 (omega (arith, inside))) in
      by_block used writes same used_is
    where
      by_block :
          (used : ℕ)
          → Writes s.index ((used + gas) % two_64) s t
          → t.index ≡ s.index
          → used ≡ gas_of us 0
          → Shows t (add_gas gas us)
      by_block used writes same used_is zero h =
          shows_first t s.index ((used + gas) % two_64) us same writes.written
          ∙ ap (λ u. some ((u + gas) % two_64)) used_is
      by_block used writes same used_is (suc j) h =
          let n = length (elems s.window) in
          let inside_s : suc j < n = omega (arith, h, writes.same_length) in
          ap (λ i. get_elem? (elems t.window) (slot i (suc j) (length (elems t.window)))) same
          ∙ ap (λ n. get_elem? (elems t.window) (slot s.index (suc j) n)) writes.same_length
          ∙ writes.others (slot s.index (suc j) n) (slot_earlier s.index j n inside inside_s)
          ∙ shows (suc j) inside_s
          ∙ ap some (gas_of-add_gas gas us j)

  close-Shows :
      (s t : State) (p : Params) (us : List ℕ)
      → IsWindow p s
      → close_block s p ≡ ok t
      → Shows s us
      → IsWindow p t × Shows t (0 ∷ us)
  unfolding update_learning_rate update_base_gas_price
  close-Shows s t p us w e shows =
      let priced = (update_base_gas_price (update_learning_rate s p).0 p).0 in
      let kept : IsWindow p priced = ground (arith, w) in
      let (t', returns, index, writes, w') = increment_height_lem priced p kept in
      let same : t' ≡ t = ok_injective (sym returns ∙ e) in
      let both : IsWindow p t' × Shows t' (0 ∷ us) = (w', by_block t' index writes) in
      rw same at both
    where
      by_block :
          (t : State)
          → t.index ≡ (s.index + 1) % length (elems s.window)
          → Writes
              ((s.index + 1) % length (elems s.window))
              0
              (update_base_gas_price (update_learning_rate s p).0 p).0
              t
          → Shows t (0 ∷ us)
      by_block t index writes zero h =
          shows_first t ((s.index + 1) % length (elems s.window)) 0 us index writes.written
      by_block t index writes (suc j) h =
          let n = length (elems s.window) in
          let i = (s.index + 1) % n in
          let inside_s : suc j < n = omega (arith, h, writes.same_length) in
          let (moved, other) = slot_moved s.index j n w.index_lt inside_s in
          ap (λ i. get_elem? (elems t.window) (slot i (suc j) (length (elems t.window)))) index
          ∙ ap (λ n. get_elem? (elems t.window) (slot i (suc j) n)) writes.same_length
          ∙ ap (get_elem? (elems t.window)) moved
          ∙ writes.others (slot s.index j n) other
          ∙ shows j (omega (arith, inside_s))

  -- The window is a ring that holds the gas of as many blocks as it has slots: from a state in its
  -- bounds that shows the gas of some blocks, every state that accepted transactions and ends of
  -- blocks reach shows the gas of the blocks after those steps, where a transaction adds its gas to
  -- the latest block, modulo 2 ^ 64, and the end of a block starts one with no gas.
  pub Reach-Shows :
      {p : Params} {s t : State} (us : List ℕ) (r : Reach p s t)
      → IsWindow p s
      → Shows s us
      → IsWindow p t × Shows t (history r us)
  Reach-Shows us here w shows = (w, shows)
  Reach-Shows {p = p} us (next {t = t} {u = u} r (spend gas e)) w shows =
      let (w', shows') = Reach-Shows us r w shows in
      (update-IsWindow t gas p e w', spend-Shows t u p gas (history r us) w'.index_lt e shows')
  Reach-Shows {p = p} us (next {t = t} {u = u} r (close e)) w shows =
      let (w', shows') = Reach-Shows us r w shows in close-Shows t u p (history r us) w' e shows'
