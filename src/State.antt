-- ===== src/State.antt =====
-- `State` of x/feemarket/types: the record of genesis.pb.go and the methods of state.go, over the
-- decimal arithmetic of `Math`. A method returns the state that it leaves in its receiver.
pub mod Window
pub mod Rate
pub mod Price
pub mod Average
pub mod Direction
pub mod Returns
pub mod Present
pub mod Movement
pub mod Market
pub mod History
use feemarket.Prelude.{
  ℕ, zero, suc, ◌+◌, ◌%◌, ◌≡◌, refl, Bool, true, false, Option, none, some, get_or, List, [], ◌∷◌,
  arith, ltb, ◌==◌, if◌then◌else◌, length, get_elem?, set, replicate,
}
use feemarket.Prelude.Int.{ℤ, pos, two_64}
use feemarket.Prelude.Outcome.{Outcome, ok, err, panic, message, Error, fail_if, or_panic, ◌or◌}
use feemarket.Prelude.Outcome.Pure.{◌>>◌}
use feemarket.Prelude.Outcome.Partial.{◌>>=◌}
use feemarket.Math.{Math}
use feemarket.Params.{Params, target_block_utilization}

-- A slice of uint64, which may be nil.
abbrev pub Slice : Type 0
Slice = Option (List ℕ)

abbrev pub elems : Slice → List ℕ
elems none = []
elems (some xs) = xs

abbrev pub is_nil_slice : Slice → Bool
is_nil_slice none = true
is_nil_slice (some _) = false

-- `s[i] = v`: a panic where the index is out of range.
abbrev pub set_elem : Slice → ℕ → ℕ → Option Slice
set_elem s i v = elim (get_elem? (elems s) i) [
  | none ↦ none
  | some _ ↦ some (some (set (elems s) i v))
]

-- The uint64 total of `GetAverageUtilization`.
unfoldable pub add_total : ℕ → List ℕ → ℕ
add_total total [] = total
add_total total (u ∷ us) = add_total ((total + u) % two_64) us

abbrev pub over_utilized : Error
over_utilized = message "block utilization of %d cannot exceed max block utilization of %d"

module _ ⦃m : Math⦄ where
  pub record State : Type 0 where
    pub base_gas_price : m.LegacyDec
    pub learning_rate : m.LegacyDec
    pub window : Slice
    pub index : ℕ

  -- `NewState`
  abbrev pub new_state : ℕ → m.LegacyDec → m.LegacyDec → State
  new_state window_size price rate = record {
    base_gas_price = price;
    learning_rate = rate;
    window = some (replicate window_size 0);
    index = 0;
  }

  -- `State.Update`. The sum is a uint64, and wraps.
  unfoldable pub update : State → ℕ → Params → Outcome State
  update s gas p = elim (get_elem? (elems s.window) s.index) [
    | none ↦ panic
    | some used ↦
        let update = (used + gas) % two_64 in
        if ltb p.max_block_utilization update
        then err over_utilized
        else ok (record s { window = some (set (elems s.window) s.index update) })
  ]

  -- `State.IncrementHeight`. A remainder by zero panics, and so does an index out of range. The new
  -- index is at most the length, which a uint64 holds.
  unfoldable pub increment_height : State → Outcome State
  increment_height s =
      let n = length (elems s.window) in
      let i = ((s.index + 1) % two_64) % n in
      if n == 0 then panic else elim (set_elem s.window i 0) [
        | none ↦ panic
        | some w ↦ ok (record s { window = w; index = i })
      ]

  add_net : m.Int → m.Int → List ℕ → Option m.Int
  add_net target net [] = some net
  add_net target net (u ∷ us) = do
    diff ← m.int_sub (m.int_from_uint64 u) target
    net' ← m.int_add net diff
    add_net target net' us

  -- `State.GetNetUtilization`
  unfoldable pub get_net_utilization : State → Params → Option m.Int
  unfolding add_net
  get_net_utilization s p =
      add_net (m.int_from_uint64 (target_block_utilization p)) (m.new_int (pos 0)) (elems s.window)

  -- `State.GetAverageUtilization`
  unfoldable pub get_average_utilization : State → Params → Option m.LegacyDec
  get_average_utilization s p = do
    let sum = m.dec_from_int (m.int_from_uint64 (add_total 0 (elems s.window)))
    let multiple = m.dec_from_int (m.int_from_uint64 (length (elems s.window)))
    divisor ← m.mul (m.dec_from_int (m.int_from_uint64 p.max_block_utilization)) multiple
    m.quo sum divisor

  -- Whether the average lies at or beyond the threshold from either end.
  at_edge : m.LegacyDec → Params → Option Bool
  at_edge avg p = m.lte avg p.gamma or (do high ← m.sub m.one_dec p.gamma; m.gte avg high)

  raised_rate : State → Params → Option m.LegacyDec
  raised_rate s p = do
    lr ← m.add p.alpha s.learning_rate
    above ← m.gt lr p.max_learning_rate
    some (if above then p.max_learning_rate else lr)

  lowered_rate : State → Params → Option m.LegacyDec
  lowered_rate s p = do
    lr ← m.mul s.learning_rate p.beta
    below ← m.lt lr p.min_learning_rate
    some (if below then p.min_learning_rate else lr)

  -- The learning rate that `State.UpdateLearningRate` computes, if nothing panics.
  unfoldable pub next_learning_rate : State → Params → Option m.LegacyDec
  unfolding at_edge raised_rate lowered_rate
  next_learning_rate s p = do
    avg ← get_average_utilization s p
    edge ← at_edge avg p
    if edge then raised_rate s p else lowered_rate s p

  -- `State.UpdateLearningRate`: the deferred function turns a panic into the minimal rate.
  unfoldable pub update_learning_rate : State → Params → State × m.LegacyDec
  update_learning_rate s p =
      let lr = get_or (next_learning_rate s p) p.min_learning_rate in
      (record s { learning_rate = lr }, lr)

  -- The factor `1 + learningRate * (current - target) / target`.
  unfoldable pub learning_rate_adjustment : State → Params → Option m.LegacyDec
  learning_rate_adjustment s p = do
    used ← get_elem? (elems s.window) s.index
    let current = m.dec_from_int (m.int_from_uint64 used)
    let target = m.dec_from_int (m.int_from_uint64 (target_block_utilization p))
    diff ← m.sub current target
    utilization ← m.quo diff target
    step ← m.mul s.learning_rate utilization
    m.add m.one_dec step

  -- The gas price that `State.UpdateBaseGasPrice` computes, if nothing panics.
  unfoldable pub next_base_gas_price : State → Params → Option m.LegacyDec
  next_base_gas_price s p = do
    adjustment ← learning_rate_adjustment s p
    total ← get_net_utilization s p
    net ← m.mul (m.dec_from_int total) p.delta
    scaled ← m.mul s.base_gas_price adjustment
    gas_price ← m.add scaled net
    below ← m.lt gas_price p.min_base_gas_price
    some (if below then p.min_base_gas_price else gas_price)

  -- `State.UpdateBaseGasPrice`: the deferred function turns a panic into the minimal price.
  unfoldable pub update_base_gas_price : State → Params → State × m.LegacyDec
  update_base_gas_price s p =
      let price = get_or (next_base_gas_price s p) p.min_base_gas_price in
      (record s { base_gas_price = price }, price)

  -- `State.ValidateBasic`
  unfoldable pub validate_state : State → Outcome (Unit {0})
  validate_state s = do
    fail_if (some (is_nil_slice s.window))
        (message "block utilization window cannot be nil or empty")
    fail_if (some (m.is_nil s.base_gas_price) or m.lte s.base_gas_price m.zero_dec)
        (message "base gas price must be positive")
    fail_if (some (m.is_nil s.learning_rate) or m.lte s.learning_rate m.zero_dec)
        (message "learning rate must be positive")
    ok tt
