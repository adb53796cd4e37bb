-- ===== src/State/Average.antt =====
-- The average utilization of x/feemarket/types/state.go (`GetAverageUtilization`).
use feemarket.Prelude.{ℕ, ◌+◌, ◌*◌, ◌%◌, ◌≤◌, ◌<◌, ◌≡◌, some, arith, List, [], ◌∷◌, length, All}
use feemarket.Prelude.Int.{pos, ◌≤ℤ◌, *ℤ-pos_parts, pos_mul, two_64, ≤ℤ_antisymm}
use feemarket.Prelude.Outcome.Partial.{>>=-eq-some}
use feemarket.Math.{Math}
use feemarket.Math.Laws.{MathLaws, unit}
use feemarket.Math.Order.{uint64_dec, Rounds-le, Rounds-ge}
use feemarket.Params.{Params}
use feemarket.State.{State, elems, add_total, get_average_utilization}
use feemarket.State.Price.{sum}

-- The total of the loop is the sum up to the wrap of uint64.
pub add_total-mod :
    (total : ℕ) (us : List ℕ) → total < two_64 → add_total total us ≡ (total + sum us) % two_64
unfolding add_total
add_total-mod total [] h = omega arith
add_total-mod total (u ∷ us) h =
    omega (arith, add_total-mod ((total + u) % two_64) us (omega arith))

sum-le : (top : ℕ) (us : List ℕ) → All (λ u. u ≤ top) us → sum us ≤ length us * top
sum-le top [] h = omega arith
sum-le top (u ∷ us) h = omega (arith, sum-le top us h.1, h.0)

module _ ⦃m : Math⦄ (l : MathLaws) where
  open l use {raw, int}

  -- A product of whole numbers is exact.
  pub whole_product :
      (a b : ℕ) {c : m.LegacyDec}
      → m.mul (m.dec_from_int (m.int_from_uint64 a)) (m.dec_from_int (m.int_from_uint64 b)) ≡ some c
      → raw c ≡ pos (a * b * unit)
  whole_product a b {c} e =
      let rounded =
        rw (uint64_dec l a, uint64_dec l b, pos_mul (a * unit) (b * unit)) at
          (l.mul_value (m.dec_from_int (m.int_from_uint64 a)) (m.dec_from_int (m.int_from_uint64 b))
            e) in
      let k = a * b * unit in
      ≤ℤ_antisymm (raw c) (pos k)
        (Rounds-le (raw c) (pos (a * unit * (b * unit))) unit (pos k) rounded
          (rw (pos_mul k unit) (omega arith)))
        (Rounds-ge (raw c) (pos (a * unit * (b * unit))) unit (pos k) rounded
          (rw (pos_mul k unit) (omega arith)))

  -- If no slot is above the maximal utilization, which is not zero, the window is not empty and its
  -- sum fits a uint64, the average utilization, where it is computed, lies between 0 and 1.
  pub get_average_utilization-unit :
      (s : State) (p : Params) {avg : m.LegacyDec}
      → get_average_utilization s p ≡ some avg
      → 0 < length (elems s.window)
      → 0 < p.max_block_utilization
      → All (λ u. u ≤ p.max_block_utilization) (elems s.window)
      → sum (elems s.window) < two_64
      → (pos 0 ≤ℤ raw avg) × (raw avg ≤ℤ pos unit)
  unfolding get_average_utilization
  get_average_utilization-unit s p {avg} e n_pos top_pos within fits =
      let us = elems s.window in
      let top = p.max_block_utilization in
      let dec = λ (n : ℕ). m.dec_from_int (m.int_from_uint64 n) in
      let (divisor, multiplies, divides) = >>=-eq-some (m.mul (dec top) (dec (length us))) _ e in
      let d = top * length us * unit in
      let total : add_total 0 us ≡ sum us = omega (arith, add_total-mod 0 us) in
      let quotient =
        rw (uint64_dec l (add_total 0 us), whole_product top (length us) multiplies, total, pos_mul)
          at (l.quo_value (dec (add_total 0 us)) divisor divides) in
      let d_pos : 0 < d = grind arith in
      let rounded = quotient (omega arith) in
      let n = pos (sum us * unit * unit) in
      (
        Rounds-ge (raw avg) n d (pos 0) rounded (omega (arith, *ℤ-pos_parts (pos 0) d)),
        Rounds-le (raw avg) n d (pos unit) rounded
            (rw (pos_mul unit d) (omega (arith, sum-le top us within))),
      )
