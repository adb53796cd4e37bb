-- ===== src/Math/Laws.antt =====
-- What the module relies on in `cosmossdk.io/math`. A decimal stands for its value times 10 ^ 18, an
-- integer for itself; a product or quotient is off by less than one unit in the last place.
use feemarket.Prelude.{ℕ, ◌≡◌, ◌≢◌, Bool, true, false, none, some}
use feemarket.Prelude.Int.{ℤ, pos, ◌+ℤ◌, ◌-ℤ◌, ◌*ℤ◌, ◌≤ℤ◌, ◌<ℤ◌, ltb_ℤ, leb_ℤ}
use feemarket.Math.{Math}

-- The decimal 1, in units of the last place.
abbrev pub unit : ℕ
unit = 1_000_000_000_000_000_000

-- `q` is `n / d` up to less than one, for a positive `d`.
abbrev pub Rounds : ℤ → ℤ → ℤ → Type 0
Rounds q n d = (q *ℤ d <ℤ n +ℤ d) × (n <ℤ q *ℤ d +ℤ d)

pub record MathLaws ⦃m : Math⦄ : Type 0 where
  pub raw : m.LegacyDec → ℤ
  pub int : m.Int → ℤ
  -- the value of a comparison that returns
  pub gt_value : (a b : m.LegacyDec) {t : Bool} → m.gt a b ≡ some t → t ≡ ltb_ℤ (raw b) (raw a)
  pub gte_value : (a b : m.LegacyDec) {t : Bool} → m.gte a b ≡ some t → t ≡ leb_ℤ (raw b) (raw a)
  pub lt_value : (a b : m.LegacyDec) {t : Bool} → m.lt a b ≡ some t → t ≡ ltb_ℤ (raw a) (raw b)
  pub lte_value : (a b : m.LegacyDec) {t : Bool} → m.lte a b ≡ some t → t ≡ leb_ℤ (raw a) (raw b)
  pub is_negative_value :
      (a : m.LegacyDec) {t : Bool} → m.is_negative a ≡ some t → t ≡ ltb_ℤ (raw a) (pos 0)
  -- a nil decimal has no sign to look at
  pub is_negative_nil : (a : m.LegacyDec) → m.is_nil a ≡ true → m.is_negative a ≡ none
  pub is_zero_value :
      (a : m.LegacyDec) {t : Bool}
      → m.is_zero a ≡ some t
      → ((t ≡ true → raw a ≡ pos 0) × (raw a ≡ pos 0 → t ≡ true))
  -- the value of an operation that returns
  pub add_value :
      (a b : m.LegacyDec) {c : m.LegacyDec} → m.add a b ≡ some c → raw c ≡ raw a +ℤ raw b
  pub sub_value :
      (a b : m.LegacyDec) {c : m.LegacyDec} → m.sub a b ≡ some c → raw c ≡ raw a -ℤ raw b
  pub mul_value :
      (a b : m.LegacyDec) {c : m.LegacyDec}
      → m.mul a b ≡ some c
      → Rounds (raw c) (raw a *ℤ raw b) (pos unit)
  pub quo_value :
      (a b : m.LegacyDec) {c : m.LegacyDec}
      → m.quo a b ≡ some c
      → pos 0 <ℤ raw b
      → Rounds (raw c) (raw a *ℤ pos unit) (raw b)
  pub ceil_value :
      (a : m.LegacyDec) {c : m.LegacyDec}
      → m.ceil a ≡ some c
      → (k : ℤ) × (raw c ≡ k *ℤ pos unit) × (raw a ≤ℤ raw c) × (raw c <ℤ raw a +ℤ pos unit)
  pub round_int_value :
      (a : m.LegacyDec) (k : ℤ) {i : m.Int}
      → m.round_int a ≡ some i
      → raw a ≡ k *ℤ pos unit
      → int i ≡ k
  pub truncate_int64_value :
      (a : m.LegacyDec) {n : ℤ}
      → m.truncate_int64 a ≡ some n
      → pos 0 ≤ℤ raw a
      → (pos 0 ≤ℤ n) × (n *ℤ pos unit ≤ℤ raw a) × (raw a <ℤ n *ℤ pos unit +ℤ pos unit)
  -- the result of an operation that returns is not nil
  pub add_some : (a b : m.LegacyDec) {c : m.LegacyDec} → m.add a b ≡ some c → m.is_nil c ≡ false
  pub mul_some : (a b : m.LegacyDec) {c : m.LegacyDec} → m.mul a b ≡ some c → m.is_nil c ≡ false
  -- constants and conversions
  pub one_dec_value : raw m.one_dec ≡ pos unit
  pub zero_dec_value : raw m.zero_dec ≡ pos 0
  pub half_value :
      {h : m.LegacyDec} → m.dec_from_str "0.5" ≡ some h → raw h ≡ pos 500_000_000_000_000_000
  pub dec_from_int_value : (i : m.Int) → raw (m.dec_from_int i) ≡ int i *ℤ pos unit
  pub new_dec_value : (n : ℤ) → raw (m.new_dec n) ≡ n *ℤ pos unit
  pub new_int_value : (n : ℤ) → int (m.new_int n) ≡ n
  pub int_from_uint64_value : (n : ℕ) → int (m.int_from_uint64 n) ≡ pos n
  pub int_add_value : (a b : m.Int) {c : m.Int} → m.int_add a b ≡ some c → int c ≡ int a +ℤ int b
  pub int_sub_value : (a b : m.Int) {c : m.Int} → m.int_sub a b ≡ some c → int c ≡ int a -ℤ int b
  pub to_int64_value : (a : m.Int) {n : ℤ} → m.to_int64 a ≡ some n → int a ≡ n

-- That a comparison panics on a nil operand alone, and that the constants are there.
pub record Compares ⦃m : Math⦄ : Type 0 where
  pub compare_returns :
      (a b : m.LegacyDec)
      → m.is_nil a ≡ false
      → m.is_nil b ≡ false
      → (m.gt a b ≢ none) × (m.gte a b ≢ none) × (m.lt a b ≢ none) × (m.lte a b ≢ none)
  pub is_negative_returns : (a : m.LegacyDec) → m.is_nil a ≡ false → m.is_negative a ≢ none
  pub half_returns : (h : m.LegacyDec) × (m.dec_from_str "0.5" ≡ some h) × (m.is_nil h ≡ false)
  pub zero_dec_some : m.is_nil m.zero_dec ≡ false
  pub one_dec_some : m.is_nil m.one_dec ≡ false

-- That nothing panics but on a nil operand or a division by zero. The library also panics where a
-- result is too wide: here none is.
pub record NoOverflow ⦃m : Math⦄ (l : MathLaws) : Type 0 where
  pub compares : Compares
  pub add_returns :
      (a b : m.LegacyDec)
      → m.is_nil a ≡ false
      → m.is_nil b ≡ false
      → (c : m.LegacyDec) × (m.add a b ≡ some c) × (m.is_nil c ≡ false)
  pub sub_returns :
      (a b : m.LegacyDec)
      → m.is_nil a ≡ false
      → m.is_nil b ≡ false
      → (c : m.LegacyDec) × (m.sub a b ≡ some c) × (m.is_nil c ≡ false)
  pub mul_returns :
      (a b : m.LegacyDec)
      → m.is_nil a ≡ false
      → m.is_nil b ≡ false
      → (c : m.LegacyDec) × (m.mul a b ≡ some c) × (m.is_nil c ≡ false)
  pub quo_returns :
      (a b : m.LegacyDec)
      → m.is_nil a ≡ false
      → m.is_nil b ≡ false
      → l.raw b ≢ pos 0
      → (c : m.LegacyDec) × (m.quo a b ≡ some c) × (m.is_nil c ≡ false)
  pub int_add_returns :
      (a b : m.Int)
      → m.int_is_nil a ≡ false
      → m.int_is_nil b ≡ false
      → (c : m.Int) × (m.int_add a b ≡ some c) × (m.int_is_nil c ≡ false)
  pub int_sub_returns :
      (a b : m.Int)
      → m.int_is_nil a ≡ false
      → m.int_is_nil b ≡ false
      → (c : m.Int) × (m.int_sub a b ≡ some c) × (m.int_is_nil c ≡ false)
  pub new_int_some : (n : ℤ) → m.int_is_nil (m.new_int n) ≡ false
  pub int_from_uint64_some : (n : ℕ) → m.int_is_nil (m.int_from_uint64 n) ≡ false
  pub dec_from_int_some : (i : m.Int) → m.is_nil (m.dec_from_int i) ≡ false
