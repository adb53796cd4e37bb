-- ===== src/State/Window.antt =====
-- The utilization window of x/feemarket/types/state.go: `Update` and `IncrementHeight`.
use feemarket.Prelude.{
  ℕ, ◌+◌, ◌%◌, ◌≤◌, ◌<◌, ◌≡◌, ◌≢◌, refl, ap, inl, inr, some, arith, length, length-set, get_elem?,
  get_elem?-lt, lt-get_elem?, get_elem?-set_self, get_elem?-set_ne, set, All, All-set, ltb,
  Bool-cases, Option-cases, get_elem?-none, ltb→lt, ltb→ge, lt→ltb, ge→ltb, pos→ne,
}
use feemarket.Prelude.Int.{two_64, slice_max}
use feemarket.Prelude.Outcome.{Outcome, ok, err, panic}
use feemarket.Prelude.Outcome.Cases.{ok_injective}
use feemarket.Math.{Math}
use feemarket.Params.{Params}
use feemarket.State.{State, elems, update, over_utilized, increment_height}

module _ ⦃m : Math⦄ where
  -- The index is in range, the length is that of a slice, and no slot is above the maximum.
  pub record IsWindow (p : Params) (s : State) : Type 0 where
    pub index_lt : s.index < length (elems s.window)
    pub length_lt : length (elems s.window) < slice_max
    pub within : All (λ u. u ≤ p.max_block_utilization) (elems s.window)

  -- `t` is `s` with the slot `i` of the window changed to `v`.
  pub record Writes (i v : ℕ) (s t : State) : Type 0 where
    pub written : get_elem? (elems t.window) i ≡ some v
    pub others : (j : ℕ) → i ≢ j → get_elem? (elems t.window) j ≡ get_elem? (elems s.window) j
    pub same_length : length (elems t.window) ≡ length (elems s.window)
    pub same_price : t.base_gas_price ≡ s.base_gas_price
    pub same_rate : t.learning_rate ≡ s.learning_rate

  set-Writes :
      (s : State) (i v k : ℕ)
      → i < length (elems s.window)
      → Writes i v s (record s { window = some (set (elems s.window) i v); index = k })
  set-Writes s i v k h = record {
    written = get_elem?-set_self (elems s.window) i v h;
    others = λ j ne. get_elem?-set_ne (elems s.window) v ne;
    same_length = length-set (elems s.window) i v;
    same_price = refl;
    same_rate = refl;
  }

  -- What `Update` has done, by cases on its result: the wrapped sum is within the maximum and is
  -- written to the current slot alone, or it is above the maximum, or the index is out of range.
  abbrev pub UpdateEffect : State → ℕ → Params → Outcome State → Type 0
  UpdateEffect s gas p (ok t) =
      (used : ℕ) × (get_elem? (elems s.window) s.index ≡ some used)
      × ((used + gas) % two_64 ≤ p.max_block_utilization)
      × Writes s.index ((used + gas) % two_64) s t
      × (t.index ≡ s.index)
  UpdateEffect s gas p (err e) =
      (used : ℕ) × (e ≡ over_utilized)
      × (get_elem? (elems s.window) s.index ≡ some used)
      × (p.max_block_utilization < (used + gas) % two_64)
  UpdateEffect s gas p panic = length (elems s.window) ≤ s.index

  -- Update by cases on its result, on every state: it returns if the sum of the current slot and
  -- the gas, modulo 2 ^ 64, is within the maximal utilization, and then changes that slot alone to
  -- the sum; it refuses if that sum is above the maximum; it panics if the index is out of range.
  pub update-UpdateEffect :
      (s : State) (gas : ℕ) (p : Params) → UpdateEffect s gas p (update s gas p)
  unfolding update
  update-UpdateEffect s gas p = elim (Option-cases (get_elem? (elems s.window) s.index)) [
    | inl out ↦ rw (out, update) (get_elem?-none (elems s.window) s.index out)
    | inr (used, e) ↦
        let new = (used + gas) % two_64 in
        elim (Bool-cases (ltb p.max_block_utilization new)) [
          | inl over ↦ rw (e, update, over) (used, refl, e, ltb→lt p.max_block_utilization new over)
          | inr fits ↦
              rw (e, update, fits)
                (
                  used,
                  e,
                  ltb→ge p.max_block_utilization new fits,
                  set-Writes s s.index new s.index (lt-get_elem? (elems s.window) s.index e),
                  refl,
                )
        ]
  ]

  -- A window in its bounds is kept there by every accepted `Update`.
  pub update-IsWindow :
      (s : State) (gas : ℕ) (p : Params) {t : State}
      → update s gas p ≡ ok t
      → IsWindow p s
      → IsWindow p t
  unfolding update
  update-IsWindow s gas p e w = elim (Option-cases (get_elem? (elems s.window) s.index)) [
    | inl out ↦ absurd (panic_ne (rw (out, update) at e))
    | inr (used, reads) ↦
        let new = (used + gas) % two_64 in
        elim (Bool-cases (ltb p.max_block_utilization new)) [
          | inl over ↦ absurd (err_ne (rw (reads, update, over) at e))
          | inr fits ↦ rw (← ok_injective (rw (reads, update, fits) at e)) (record {
            index_lt = rw length-set w.index_lt;
            length_lt = rw length-set w.length_lt;
            within =
                All-set (λ u. u ≤ p.max_block_utilization) (elems s.window) s.index new w.within
                  (ltb→ge p.max_block_utilization new fits);
          })
        ]
  ]
    where
      panic_ne : {t : State} → panic ≡ ok t → ⊥
      panic_ne e = cc

      err_ne : {t : State} → err over_utilized ≡ ok t → ⊥
      err_ne e = cc

  -- On a window in its bounds, with a sum that fits a uint64, gas that fits under the maximum
  -- beside what the current slot holds is added to the slot and the window stays in its bounds;
  -- more gas is refused.
  pub update_exact :
      (s : State) (gas : ℕ) (p : Params) (used : ℕ)
      → IsWindow p s
      → get_elem? (elems s.window) s.index ≡ some used
      → used + gas < two_64
      → (used + gas ≤ p.max_block_utilization
          → (t : State) × (update s gas p ≡ ok t)
            × (get_elem? (elems t.window) s.index ≡ some (used + gas))
            × IsWindow p t)
        × (p.max_block_utilization < used + gas → update s gas p ≡ err over_utilized)
  unfolding update
  update_exact s gas p used w e fits =
      let whole : (used + gas) % two_64 ≡ used + gas = omega arith in
      (
        λ k.
            let t = record s { window = some (set (elems s.window) s.index (used + gas)) } in
            (
              t,
              rw (e, update, whole, ge→ltb p.max_block_utilization (used + gas) k) refl,
              get_elem?-set_self (elems s.window) s.index (used + gas) w.index_lt,
              record {
                index_lt = rw length-set w.index_lt;
                length_lt = rw length-set w.length_lt;
                within =
                    All-set (λ u. u ≤ p.max_block_utilization) (elems s.window) s.index (used + gas)
                      w.within k;
              },
            ),
        λ k. rw (e, update, whole, lt→ltb p.max_block_utilization (used + gas) k) refl,
      )

  -- The sum of Update wraps: gas that takes the current slot past 2 ^ 64, by no more than the
  -- maximal utilization, is accepted, and the slot then holds less than before.
  pub update_wraps :
      (s : State) (gas : ℕ) (p : Params) (used : ℕ)
      → get_elem? (elems s.window) s.index ≡ some used
      → gas < two_64
      → two_64 ≤ used + gas
      → used + gas ≤ two_64 + p.max_block_utilization
      → used < two_64
      → (t : State) × (update s gas p ≡ ok t)
        × (v : ℕ) × (get_elem? (elems t.window) s.index ≡ some v)
        × (v < used)
  unfolding update
  update_wraps s gas p used e g over low u =
      let new = (used + gas) % two_64 in
      (
        record s { window = some (set (elems s.window) s.index new) },
        rw (e, update, ge→ltb p.max_block_utilization new (omega arith)) refl,
        new,
        get_elem?-set_self (elems s.window) s.index new (lt-get_elem? (elems s.window) s.index e),
        omega arith,
      )

  -- `IncrementHeight` panics on an empty window.
  pub increment_height-empty :
      (s : State) → length (elems s.window) ≡ 0 → increment_height s ≡ panic
  unfolding increment_height
  increment_height-empty s e = rw e refl

  -- On a window in its bounds IncrementHeight returns. The index moves to the next slot, from the
  -- last one to the first; that slot is set to zero, the others are kept, and the window stays in
  -- its bounds.
  pub increment_height_lem :
      (s : State) (p : Params)
      → IsWindow p s
      → let i = (s.index + 1) % length (elems s.window) in
        (t : State) × (increment_height s ≡ ok t) × (t.index ≡ i) × Writes i 0 s t × IsWindow p t
  unfolding increment_height
  increment_height_lem s p w =
      let us = elems s.window in
      let n = length us in
      let i = (s.index + 1) % two_64 % n in
      let i_lt : i < n = omega (arith, w.index_lt) in
      let same : i ≡ (s.index + 1) % n = ap (λ k. k % n) (omega (arith, w.index_lt, w.length_lt)) in
      let (old, reads) = get_elem?-lt us i i_lt in
      (
        record s { window = some (set us i 0); index = i },
        rw (pos→ne n (omega arith), reads) refl,
        same,
        rw (← same) (set-Writes s i 0 i i_lt),
        record {
          index_lt = rw length-set i_lt;
          length_lt = rw length-set w.length_lt;
          within = All-set (λ u. u ≤ p.max_block_utilization) us i 0 w.within (omega arith);
        },
      )
