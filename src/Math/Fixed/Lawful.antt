-- ===== src/Math/Fixed/Lawful.antt =====
-- The laws of decimals for the concrete implementation.
use mathlib.Core.Option.{some-injective}
use feemarket.Prelude.{
  zero, suc, ◌+◌, ◌/◌, ◌-◌, ◌≡◌, ◌≢◌, refl, sym, ap, true, false, ◌&&◌, Option, none, some, arith,
}
use feemarket.Prelude.Int.{
  ℤ, pos, negsuc, pos_part, neg_part, ◌+ℤ◌, ◌-ℤ◌, ◌*ℤ◌, ◌≤ℤ◌, ◌<ℤ◌, ltb_ℤ, leb_ℤ, *ℤ-pos_parts,
  +ℤ_parts, ≤ℤ_antisymm,
}
use feemarket.Math.Laws.{MathLaws, Compares, NoOverflow, Rounds, unit}
use feemarket.Math.Order.{Rounds-le, Rounds-ge}
use feemarket.Math.Fixed.{
  both, one, both_dec, one_of, value, missing, quotient, ceiling, neg_of, div_near, div_zero, fixed,
  dec, neg_of-parts, div_near-Rounds,
}

module _ {A : Type 0} where
  pub both-value :
      (f : ℤ → ℤ → A) (a b : Option ℤ) {c : A} → both f a b ≡ some c → c ≡ f (value a) (value b)
  both-value f (some a) (some b) e = sym (some-injective _ _ e)
  both-value f (some a) none e = cc
  both-value f none b e = cc

  pub one-value : (f : ℤ → A) (a : Option ℤ) {c : A} → one f a ≡ some c → c ≡ f (value a)
  one-value f (some a) e = sym (some-injective _ _ e)
  one-value f none e = cc

  both-returns :
      (f : ℤ → ℤ → A) (a b : Option ℤ) → missing a ≡ false → missing b ≡ false → both f a b ≢ none
  both-returns f (some a) (some b) p q e = cc
  both-returns f (some a) none p q e = cc
  both-returns f none b p q e = cc

  one-returns : (f : ℤ → A) (a : Option ℤ) → missing a ≡ false → one f a ≢ none
  one-returns f (some a) p e = cc
  one-returns f none p e = cc

pub both_dec-value :
    (f : ℤ → ℤ → Option (Option ℤ)) (a b : Option ℤ) {c : Option ℤ}
    → both_dec f a b ≡ some c
    → f (value a) (value b) ≡ some c
both_dec-value f (some a) (some b) e = e
both_dec-value f (some a) none e = cc
both_dec-value f none b e = cc

pub one_of-value :
    (f : ℤ → Option (Option ℤ)) (a : Option ℤ) {c : Option ℤ}
    → one_of f a ≡ some c
    → f (value a) ≡ some c
one_of-value f (some a) e = e
one_of-value f none e = cc

pub dec-value : {a : ℤ} {c : Option ℤ} → dec a ≡ some c → value c ≡ a
dec-value {a} e = sym (ap value (some-injective (some a) _ e))

pub both_dec-some :
    (f : ℤ → ℤ → ℤ) (a b : Option ℤ) {c : Option ℤ}
    → both_dec (λ x y. dec (f x y)) a b ≡ some c
    → missing c ≡ false
both_dec-some f (some a) (some b) e = ap missing (sym (some-injective (some (f a b)) _ e))
both_dec-some f (some a) none e = cc
both_dec-some f none b e = cc

-- An operation on two decimals that are present returns one that is present.
both_dec-returns :
    (f : ℤ → ℤ → ℤ) (a b : Option ℤ)
    → missing a ≡ false
    → missing b ≡ false
    → (c : Option ℤ) × (both_dec (λ x y. dec (f x y)) a b ≡ some c) × (missing c ≡ false)
both_dec-returns f (some a) (some b) p q = (some (f a b), refl, refl)
both_dec-returns f (some a) none p q = cc
both_dec-returns f none b p q = cc

pub quotient-Rounds :
    (a b : ℤ) {c : Option ℤ}
    → quotient a b ≡ some c
    → pos 0 <ℤ b
    → Rounds (value c) (a *ℤ pos unit) b
quotient-Rounds a (pos zero) e h = absurd (omega arith)
quotient-Rounds a (pos (suc d)) e h =
    rw (dec-value e) (div_near-Rounds (a *ℤ pos unit) (suc d) (omega arith))
quotient-Rounds a (negsuc d) e h = absurd (omega arith)

quotient-returns :
    (a b : Option ℤ)
    → missing a ≡ false
    → missing b ≡ false
    → value b ≢ pos 0
    → (c : Option ℤ) × (both_dec quotient a b ≡ some c) × (missing c ≡ false)
quotient-returns (some a) (some (pos zero)) p q h = absurd (h refl)
quotient-returns (some a) (some (pos (suc d))) p q h =
    (some (div_near (a *ℤ pos unit) (suc d)), refl, refl)
quotient-returns (some a) (some (negsuc d)) p q h =
    (some (div_near (pos 0 -ℤ a *ℤ pos unit) (suc d)), refl, refl)
quotient-returns (some a) none p q h = cc
quotient-returns none b p q h = cc

pub ceiling-lem :
    (a : ℤ)
    → (k : ℤ) × (ceiling a ≡ k *ℤ pos unit) × (a ≤ℤ ceiling a) × (ceiling a <ℤ a +ℤ pos unit)
ceiling-lem (pos n) =
    let k = pos ((n + (unit - 1)) / unit) in
    (
      k,
      refl,
      omega (arith, *ℤ-pos_parts k unit),
      omega (arith, *ℤ-pos_parts k unit, +ℤ_parts (pos n) (pos unit)),
    )
ceiling-lem (negsuc n) =
    let q = suc n / unit in
    let (p, k) = *ℤ-pos_parts (neg_of q) unit in
    let p' = rw (neg_of-parts q).0 at p in
    let k' = rw (neg_of-parts q).1 at k in
    (neg_of q, refl, omega (arith, p', k'), omega (arith, p', k', +ℤ_parts (negsuc n) (pos unit)))

pub round-whole : (a k : ℤ) → a ≡ k *ℤ pos unit → div_near a unit ≡ k
round-whole a k e =
    let r = div_near-Rounds a unit (omega arith) in
    let le = ap pos_part e in
    let ge = ap neg_part e in
    ≤ℤ_antisymm (div_near a unit) k (Rounds-le (div_near a unit) a unit k r (omega (arith, le, ge)))
      (Rounds-ge (div_near a unit) a unit k r (omega (arith, le, ge)))

pub truncate_value :
    (a : ℤ)
    → pos 0 ≤ℤ a
    → (pos 0 ≤ℤ div_zero a unit)
      × (div_zero a unit *ℤ pos unit ≤ℤ a)
      × (a <ℤ div_zero a unit *ℤ pos unit +ℤ pos unit)
truncate_value (pos n) h =
    let q = pos (n / unit) in
    (
      omega arith,
      omega (arith, *ℤ-pos_parts q unit),
      omega (arith, *ℤ-pos_parts q unit, +ℤ_parts (q *ℤ pos unit) (pos unit)),
    )
truncate_value (negsuc n) h = absurd (omega arith)

pub zero_test :
    (a : ℤ)
    → let t = leb_ℤ a (pos 0) && leb_ℤ (pos 0) a in (t ≡ true → a ≡ pos 0) × (a ≡ pos 0 → t ≡ true)
zero_test a = (λ e. ground arith, λ e. rw e refl)

pub sign_nil : (a : Option ℤ) → missing a ≡ true → one (λ x. ltb_ℤ x (pos 0)) a ≡ none
sign_nil (some a) e = cc
sign_nil none e = refl

-- The laws hold of it.
unfoldable pub fixed-MathLaws : MathLaws
fixed-MathLaws = record {
  raw = value;
  int = λ i. i;
  gt_value = λ a b e. both-value (λ x y. ltb_ℤ y x) a b e;
  gte_value = λ a b e. both-value (λ x y. leb_ℤ y x) a b e;
  lt_value = λ a b e. both-value ltb_ℤ a b e;
  lte_value = λ a b e. both-value leb_ℤ a b e;
  is_negative_value = λ a e. one-value (λ x. ltb_ℤ x (pos 0)) a e;
  is_negative_nil = sign_nil;
  is_zero_value =
      λ a e. rw (one-value (λ x. leb_ℤ x (pos 0) && leb_ℤ (pos 0) x) a e) (zero_test (value a));
  add_value = λ a b e. dec-value (both_dec-value (λ x y. dec (x +ℤ y)) a b e);
  sub_value = λ a b e. dec-value (both_dec-value (λ x y. dec (x -ℤ y)) a b e);
  mul_value = λ a b e.
      rw (dec-value (both_dec-value (λ x y. dec (div_near (x *ℤ y) unit)) a b e))
        (div_near-Rounds (value a *ℤ value b) unit (omega arith));
  quo_value = λ a b e h. quotient-Rounds (value a) (value b) (both_dec-value quotient a b e) h;
  ceil_value =
      λ a e. rw (dec-value (one_of-value (λ x. dec (ceiling x)) a e)) (ceiling-lem (value a));
  round_int_value =
      λ a k e h. rw (one-value (λ x. div_near x unit) a e) (round-whole (value a) k h);
  truncate_int64_value =
      λ a e h. rw (one-value (λ x. div_zero x unit) a e) (truncate_value (value a) h);
  add_some = λ a b e. both_dec-some ◌+ℤ◌ a b e;
  mul_some = λ a b e. both_dec-some (λ x y. div_near (x *ℤ y) unit) a b e;
  one_dec_value = refl;
  zero_dec_value = refl;
  half_value = λ e. dec-value {a = pos 500_000_000_000_000_000} e;
  dec_from_int_value = λ i. refl;
  new_dec_value = λ n. refl;
  new_int_value = λ n. refl;
  int_from_uint64_value = λ n. refl;
  int_add_value = λ a b e. sym (some-injective _ _ e);
  int_sub_value = λ a b e. sym (some-injective _ _ e);
  to_int64_value = λ a e. some-injective _ _ e;
}

pub fixed-Compares : Compares
fixed-Compares = record {
  compare_returns = λ a b p q. (
    both-returns (λ x y. ltb_ℤ y x) a b p q,
    both-returns (λ x y. leb_ℤ y x) a b p q,
    both-returns ltb_ℤ a b p q,
    both-returns leb_ℤ a b p q,
  );
  is_negative_returns = λ a p. one-returns (λ x. ltb_ℤ x (pos 0)) a p;
  half_returns = (some (pos 500_000_000_000_000_000), refl, refl);
  zero_dec_some = refl;
  one_dec_some = refl;
}

pub fixed-NoOverflow : NoOverflow fixed-MathLaws
unfolding fixed-MathLaws
fixed-NoOverflow = record {
  compares = fixed-Compares;
  add_returns = both_dec-returns ◌+ℤ◌;
  sub_returns = both_dec-returns ◌-ℤ◌;
  mul_returns = both_dec-returns (λ x y. div_near (x *ℤ y) unit);
  quo_returns = quotient-returns;
  int_add_returns = λ a b p q. (a +ℤ b, refl, refl);
  int_sub_returns = λ a b p q. (a -ℤ b, refl, refl);
  new_int_some = λ _. refl;
  int_from_uint64_some = λ _. refl;
  dec_from_int_some = λ i. refl;
}
