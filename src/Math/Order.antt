-- ===== src/Math/Order.antt =====
-- Order facts about decimals that follow from the rounding law: scaling by a factor below or above 1.
use native.Mathlib.Nat.{lt_of_mul-lt-mul_left}
use mathlib.Core.Option.{some-injective}
use feemarket.Prelude.{
  ℕ, ◌+◌, ◌*◌, ◌≤◌, ◌≡◌, refl, sym, ◌⊎◌, inl, inr, Bool, true, false, some, arith, if◌then◌else◌,
}
use feemarket.Prelude.Int.{
  ℤ, pos, pos_part, neg_part, ◌*ℤ◌, ◌≤ℤ◌, +ℤ_parts, -ℤ_parts, *ℤ_mono, *ℤ_comm, pos_mul,
  *ℤ-pos_parts, ltb_ℤ→lt, ltb_ℤ→ge,
}
use feemarket.Math.{Math}
use feemarket.Math.Laws.{MathLaws, Rounds, unit}

-- A rounded `n / d` respects a bound on `n` by a multiple of `d`.
pub Rounds-le : (q n : ℤ) (d : ℕ) (k : ℤ) → Rounds q n (pos d) → n ≤ℤ k *ℤ pos d → q ≤ℤ k
Rounds-le q n d k r h =
    let scaled : d * (pos_part q + neg_part k) + 1 ≤ d * (pos_part k + neg_part q + 1) =
      omega (arith, *ℤ-pos_parts q d, *ℤ-pos_parts k d, +ℤ_parts n (pos d)) in
    omega (
      arith,
      lt_of_mul-lt-mul_left d {m = pos_part q + neg_part k} {n = pos_part k + neg_part q + 1}
          (omega arith),
    )

pub Rounds-ge : (q n : ℤ) (d : ℕ) (k : ℤ) → Rounds q n (pos d) → k *ℤ pos d ≤ℤ n → k ≤ℤ q
Rounds-ge q n d k r h = omega (
  arith,
  lt_of_mul-lt-mul_left d {m = pos_part k + neg_part q} {n = pos_part q + neg_part k + 1}
      (omega (arith, *ℤ-pos_parts q d, *ℤ-pos_parts k d, +ℤ_parts (q *ℤ pos d) (pos d))),
)

module _ ⦃m : Math⦄ (l : MathLaws) where
  open l use {raw, mul_value}

  -- A factor of at most 1 does not enlarge a number that is not negative.
  pub mul_le_self :
      (a b : m.LegacyDec) {c : m.LegacyDec}
      → m.mul a b ≡ some c
      → pos 0 ≤ℤ raw a
      → raw b ≤ℤ pos unit
      → raw c ≤ℤ raw a
  mul_le_self a b {c} e ha hb =
      Rounds-le (raw c) (raw a *ℤ raw b) unit (raw a) (mul_value a b e)
        (*ℤ_mono (raw a) (raw b) (pos unit) ha hb)

  -- A factor of at least 1 does not shrink it.
  pub self_le_mul :
      (a b : m.LegacyDec) {c : m.LegacyDec}
      → m.mul a b ≡ some c
      → pos 0 ≤ℤ raw a
      → pos unit ≤ℤ raw b
      → raw a ≤ℤ raw c
  self_le_mul a b {c} e ha hb =
      Rounds-ge (raw c) (raw a *ℤ raw b) unit (raw a) (mul_value a b e)
        (*ℤ_mono (raw a) (pos unit) (raw b) ha hb)

  -- The sign of a product by a number that is not negative.
  pub mul_nonneg :
      (a b : m.LegacyDec) {c : m.LegacyDec}
      → m.mul a b ≡ some c
      → pos 0 ≤ℤ raw a
      → pos 0 ≤ℤ raw b
      → pos 0 ≤ℤ raw c
  mul_nonneg a b {c} e ha hb =
      let p = *ℤ_mono (raw a) (pos 0) (raw b) ha hb in
      Rounds-ge (raw c) (raw a *ℤ raw b) unit (pos 0) (mul_value a b e)
        (omega (arith, *ℤ-pos_parts (raw a) 0, *ℤ-pos_parts (pos 0) unit))

  pub mul_nonpos :
      (a b : m.LegacyDec) {c : m.LegacyDec}
      → m.mul a b ≡ some c
      → pos 0 ≤ℤ raw a
      → raw b ≤ℤ pos 0
      → raw c ≤ℤ pos 0
  mul_nonpos a b {c} e ha hb =
      let p = *ℤ_mono (raw a) (raw b) (pos 0) ha hb in
      Rounds-le (raw c) (raw a *ℤ raw b) unit (pos 0) (mul_value a b e)
        (omega (arith, *ℤ-pos_parts (raw a) 0, *ℤ-pos_parts (pos 0) unit))

  pub mul_nonpos_left :
      (a b : m.LegacyDec) {c : m.LegacyDec}
      → m.mul a b ≡ some c
      → raw a ≤ℤ pos 0
      → pos 0 ≤ℤ raw b
      → raw c ≤ℤ pos 0
  mul_nonpos_left a b {c} e ha hb =
      let p = *ℤ_mono (raw b) (raw a) (pos 0) hb ha in
      Rounds-le (raw c) (raw a *ℤ raw b) unit (pos 0) (mul_value a b e)
        (rw (*ℤ_comm (raw a)) (omega (arith, *ℤ-pos_parts (raw b) 0, *ℤ-pos_parts (pos 0) unit)))

  -- `if x.GT(hi) { x = hi }`, where the comparison returns.
  pub cap_value :
      (x hi : m.LegacyDec) {t : Bool} {r : m.LegacyDec}
      → m.gt x hi ≡ some t
      → some (if t then hi else x) ≡ some r
      → (raw r ≤ℤ raw hi) × (raw r ≤ℤ raw x) × ((r ≡ hi) ⊎ (r ≡ x))
  cap_value x hi {t = true} e q =
      rw (← some-injective _ _ q)
        (omega arith, omega (arith, ltb_ℤ→lt (raw hi) (raw x) (sym (l.gt_value x hi e))), inl refl)
  cap_value x hi {t = false} e q =
      rw (← some-injective _ _ q)
        (ltb_ℤ→ge (raw hi) (raw x) (sym (l.gt_value x hi e)), omega arith, inr refl)

  -- `if x.LT(lo) { x = lo }`, where the comparison returns.
  pub floor_value :
      (x lo : m.LegacyDec) {t : Bool} {r : m.LegacyDec}
      → m.lt x lo ≡ some t
      → some (if t then lo else x) ≡ some r
      → (raw lo ≤ℤ raw r) × (raw x ≤ℤ raw r) × ((r ≡ lo) ⊎ (r ≡ x))
  floor_value x lo {t = true} e q =
      rw (← some-injective _ _ q)
        (omega arith, omega (arith, ltb_ℤ→lt (raw x) (raw lo) (sym (l.lt_value x lo e))), inl refl)
  floor_value x lo {t = false} e q =
      rw (← some-injective _ _ q)
        (ltb_ℤ→ge (raw x) (raw lo) (sym (l.lt_value x lo e)), omega arith, inr refl)

  -- A sum and a difference, in the parts that `omega` reads.
  pub add_parts :
      (a b : m.LegacyDec) {c : m.LegacyDec}
      → m.add a b ≡ some c
      → pos_part (raw c) + neg_part (raw a) + neg_part (raw b)
        ≡ neg_part (raw c) + pos_part (raw a) + pos_part (raw b)
  add_parts a b e = rw (l.add_value a b e) (+ℤ_parts (raw a) (raw b))

  pub sub_parts :
      (a b : m.LegacyDec) {c : m.LegacyDec}
      → m.sub a b ≡ some c
      → pos_part (raw c) + neg_part (raw a) + pos_part (raw b)
        ≡ neg_part (raw c) + pos_part (raw a) + neg_part (raw b)
  sub_parts a b e = rw (l.sub_value a b e) (-ℤ_parts (raw a) (raw b))

  -- A uint64 as a decimal.
  pub uint64_dec : (n : ℕ) → raw (m.dec_from_int (m.int_from_uint64 n)) ≡ pos (n * unit)
  uint64_dec n = rw (l.dec_from_int_value, l.int_from_uint64_value, pos_mul)
