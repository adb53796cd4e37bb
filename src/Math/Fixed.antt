-- ===== src/Math/Fixed.antt =====
-- An implementation of the decimal interface over unbounded integers: the parameter as a concrete
-- function, for tests and for the examples that theorems apply to. `none` is the nil decimal.
pub mod Lawful
use feemarket.Prelude.{
  ℕ, suc, ◌+◌, ◌*◌, ◌/◌, ◌-◌, ◌≤◌, ◌<◌, ◌≡◌, ◌≢◌, refl, sym, ap, Bool, true, false, not, ◌&&◌, zero,
  Option, none, some, arith, String, str_eq, if◌then◌else◌, ◌==◌, leb,
}
use feemarket.Prelude.Int.{
  ℤ, pos, negsuc, pos_part, neg_part, ◌+ℤ◌, ◌-ℤ◌, ◌*ℤ◌, ◌≤ℤ◌, ◌<ℤ◌, ltb_ℤ, leb_ℤ, *ℤ-pos_parts,
  int64_max, +ℤ_parts,
}
use feemarket.Prelude.Outcome.Partial.{◌>>=◌}
use feemarket.Math.{Math}
use feemarket.Math.Laws.{MathLaws, NoOverflow, Rounds, unit}

abbrev pub neg_of : ℕ → ℤ
neg_of zero = pos 0
neg_of (suc n) = negsuc n

pub neg_of-parts : (n : ℕ) → (pos_part (neg_of n) ≡ 0) × (neg_part (neg_of n) ≡ n)
neg_of-parts zero = (refl, refl)
neg_of-parts (suc n) = (refl, refl)

-- `n / d` to the nearest integer, a tie away from zero.
unfoldable pub div_near : ℤ → ℕ → ℤ
div_near (pos n) d = pos ((n + d / 2) / d)
div_near (negsuc n) d = neg_of ((suc n + d / 2) / d)

pub div_near-Rounds : (n : ℤ) (d : ℕ) → 0 < d → Rounds (div_near n d) n (pos d)
unfolding div_near
div_near-Rounds (pos n) d h =
    let q = (n + d / 2) / d in
    omega
      (arith, *ℤ-pos_parts (pos q) d, +ℤ_parts (pos n) (pos d), +ℤ_parts (pos q *ℤ pos d) (pos d))
div_near-Rounds (negsuc n) d h =
    let q = (suc n + d / 2) / d in
    let (p, k) = *ℤ-pos_parts (neg_of q) d in
    omega (
      arith,
      rw (neg_of-parts q).0 at p,
      rw (neg_of-parts q).1 at k,
      +ℤ_parts (negsuc n) (pos d),
      +ℤ_parts (neg_of q *ℤ pos d) (pos d),
    )

-- `n / d` towards zero.
abbrev pub div_zero : ℤ → ℕ → ℤ
div_zero (pos n) d = pos (n / d)
div_zero (negsuc n) d = neg_of (suc n / d)

abbrev pub both : {A : Type 0} → (ℤ → ℤ → A) → Option ℤ → Option ℤ → Option A
both f (some a) (some b) = some (f a b)
both f _ _ = none

abbrev pub one : {A : Type 0} → (ℤ → A) → Option ℤ → Option A
one f (some a) = some (f a)
one f none = none

abbrev pub dec : ℤ → Option (Option ℤ)
dec a = some (some a)

-- The quotient; a negative divisor turns the sign of both.
abbrev pub quotient : ℤ → ℤ → Option (Option ℤ)
quotient a (pos zero) = none
quotient a (pos (suc d)) = dec (div_near (a *ℤ pos unit) (suc d))
quotient a (negsuc d) = dec (div_near (pos 0 -ℤ a *ℤ pos unit) (suc d))

abbrev pub both_dec : (ℤ → ℤ → Option (Option ℤ)) → Option ℤ → Option ℤ → Option (Option ℤ)
both_dec f (some a) (some b) = f a b
both_dec f _ _ = none

abbrev pub one_of : (ℤ → Option (Option ℤ)) → Option ℤ → Option (Option ℤ)
one_of f (some a) = f a
one_of f none = none

abbrev pub value : Option ℤ → ℤ
value (some a) = a
value none = pos 0

abbrev pub missing : Option ℤ → Bool
missing (some _) = false
missing none = true

-- The next multiple of the unit from below.
abbrev pub ceiling : ℤ → ℤ
ceiling (pos n) = pos ((n + (unit - 1)) / unit) *ℤ pos unit
ceiling (negsuc n) = neg_of (suc n / unit) *ℤ pos unit

-- The decimals that the module writes as text.
abbrev pub parse : String → Option (Option ℤ)
parse t =
    if str_eq t "0.0"
    then dec (pos 0)
    else if str_eq t "1.0"
    then dec (pos unit)
    else if str_eq t "0.5"
    then dec (pos 500_000_000_000_000_000)
    else if str_eq t "0.50"
    then dec (pos 500_000_000_000_000_000)
    else if str_eq t "0.125"
    then dec (pos 125_000_000_000_000_000)
    else if str_eq t "0.025"
    then dec (pos 25_000_000_000_000_000)
    else if str_eq t "0.95"
    then dec (pos 950_000_000_000_000_000)
    else if str_eq t "0.25"
    then dec (pos 250_000_000_000_000_000)
    else if str_eq t "0.01"
    then dec (pos 10_000_000_000_000_000)
    else if str_eq t "1000000000"
    then dec (pos (1_000_000_000 * unit))
    else none

instance abbrev pub fixed : Math
fixed = record {
  LegacyDec = Option ℤ;
  Int = ℤ;
  is_nil = missing;
  is_negative = one (λ a. ltb_ℤ a (pos 0));
  is_zero = one (λ a. leb_ℤ a (pos 0) && leb_ℤ (pos 0) a);
  gt = both (λ a b. ltb_ℤ b a);
  gte = both (λ a b. leb_ℤ b a);
  lt = both ltb_ℤ;
  lte = both leb_ℤ;
  add = both_dec (λ a b. dec (a +ℤ b));
  sub = both_dec (λ a b. dec (a -ℤ b));
  mul = both_dec (λ a b. dec (div_near (a *ℤ b) unit));
  quo = both_dec quotient;
  mul_int64 = λ a n. one_of (λ x. dec (x *ℤ n)) a;
  quo_int64 = λ a n. one_of (λ x. quotient x (n *ℤ pos unit)) a;
  ceil = one_of (λ a. dec (ceiling a));
  round_int = one (λ a. div_near a unit);
  truncate_int = one (λ a. div_zero a unit);
  truncate_int64 = one (λ a. div_zero a unit);
  one_dec = some (pos unit);
  zero_dec = some (pos 0);
  dec_from_str = parse;
  dec_from_int = λ i. some (i *ℤ pos unit);
  new_dec = λ n. some (n *ℤ pos unit);
  int_is_nil = λ _. false;
  new_int = λ n. n;
  int_from_uint64 = pos;
  int_add = λ a b. some (a +ℤ b);
  int_sub = λ a b. some (a -ℤ b);
  to_dec = λ i. dec (i *ℤ pos unit);
  to_int64 = λ i. some i;
}
