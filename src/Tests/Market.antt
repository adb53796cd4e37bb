-- ===== src/Tests/Market.antt =====
-- Examples for the parameters and the state machine.
use feemarket.Prelude.{
  ℕ, zero, suc, ◌*◌, ◌≡◌, refl, false, none, some, [], ◌∷◌, arith, ◌≤◌, ◌<◌, length, get_elem?,
}
use feemarket.Prelude.Int.{pos, ◌≤ℤ◌, ◌-ℤ◌, ◌+ℤ◌, ◌*ℤ◌}
use feemarket.Prelude.Outcome.{ok, panic}
use feemarket.Math.Fixed.{fixed, div_near}
use feemarket.Math.Fixed.Lawful.{fixed-MathLaws, fixed-NoOverflow}
use feemarket.Math.Laws.{unit}
use feemarket.Params.{validate_params, target_block_utilization}
use feemarket.Params.Validate.{IsChecked, validate_params-IsChecked}
use feemarket.Params.Accepts.{validate_params-nil_rate}
use feemarket.State.{
  State, elems, update, increment_height, update_base_gas_price, update_learning_rate,
  next_base_gas_price, next_learning_rate, learning_rate_adjustment, add_total,
  get_average_utilization, get_net_utilization,
}
use feemarket.State.Window.{UpdateEffect, update-UpdateEffect, update_wraps, IsWindow}
use feemarket.State.Rate.{IsBounded, update_learning_rate-IsBounded}
use feemarket.State.Price.{update_base_gas_price-floor, get_net_utilization_lem, sum}
use feemarket.State.Average.{get_average_utilization-unit}
use feemarket.State.Returns.{next_base_gas_price-returns}
use feemarket.State.Movement.{update_base_gas_price-moves}
use feemarket.State.Direction.{IsSigned}
use feemarket.State.History.{Shows, history, Reach-Shows}
use feemarket.State.Market.{IsMarket, Reach, Step, close_block, Reach-IsMarket}
use feemarket.Tests.Data.{
  params, state, params-IsRateParams, state-IsBounded, state-IsWindow, state-IsComplete,
  state-IsMarket,
}

validates : validate_params params ≡ ok tt
unfolding validate_params
validates = refl

-- The state after a transaction of 15 gas.
abbrev spent : State
spent = record state { window = some (60 ∷ 95 ∷ 50 ∷ 20 ∷ []) }

spends : update state 15 params ≡ ok spent
unfolding update
spends = refl

-- The state after the end of that block: 5/8 of the window is used, so the rate falls to 0.11875, and
-- the price rises by 0.9 times that rate.
abbrev closed : State
closed = record {
  base_gas_price = some (pos 11_068_750_000_000_000_000);
  learning_rate = some (pos 118_750_000_000_000_000);
  window = some (60 ∷ 95 ∷ 0 ∷ 20 ∷ []);
  index = 2;
}

closes : close_block spent params ≡ ok closed
unfolding update_learning_rate update_base_gas_price increment_height next_base_gas_price
    next_learning_rate learning_rate_adjustment get_average_utilization ◌*ℤ◌ div_near add_total ◌-ℤ◌
    get_net_utilization ◌+ℤ◌
closes = refl

reached : Reach params state closed
reached = Reach.next (Reach.next Reach.here (Step.spend 15 spends)) (Step.close closes)

-- The window 60, 80, 50, 20 with the index 1.
state-Shows : Shows state (80 ∷ 60 ∷ 20 ∷ 50 ∷ [])
state-Shows zero h = refl
state-Shows (suc zero) h = refl
state-Shows (suc (suc zero)) h = refl
state-Shows (suc (suc (suc zero))) h = refl
state-Shows (suc (suc (suc (suc j)))) h = absurd (omega arith)

Reach-Shows_example :
    IsWindow params closed × Shows closed (history reached (80 ∷ 60 ∷ 20 ∷ 50 ∷ []))
Reach-Shows_example = Reach-Shows (80 ∷ 60 ∷ 20 ∷ 50 ∷ []) reached state-IsWindow state-Shows

-- The latest block has used nothing yet, the one before it 95.
history-reached : history reached (80 ∷ 60 ∷ 20 ∷ 50 ∷ []) ≡ 0 ∷ 95 ∷ 60 ∷ 20 ∷ 50 ∷ []
unfolding reached
history-reached = refl

Reach-IsMarket_example : IsMarket fixed-MathLaws params closed
Reach-IsMarket_example = Reach-IsMarket fixed-MathLaws params state-IsMarket reached

update-UpdateEffect_example : UpdateEffect state 25 params (update state 25 params)
update-UpdateEffect_example = update-UpdateEffect state 25 params

update_wraps_example :
    (t : State) × (update state 18_446_744_073_709_551_546 params ≡ ok t)
    × (v : ℕ) × (get_elem? (elems t.window) 1 ≡ some v)
    × (v < 80)
update_wraps_example =
    update_wraps state 18_446_744_073_709_551_546 params 80 refl (omega arith) (omega arith)
      (omega arith) (omega arith)

update_learning_rate-IsBounded_example :
    let (t, r) = update_learning_rate state params in
    IsBounded fixed-MathLaws params t.learning_rate
    × (r ≡ t.learning_rate)
    × (t ≡ record state { learning_rate = r })
update_learning_rate-IsBounded_example =
    update_learning_rate-IsBounded fixed-MathLaws state params params-IsRateParams state-IsBounded

update_base_gas_price-floor_example :
    let (t, price) = update_base_gas_price state params in
    (fixed-MathLaws.raw params.min_base_gas_price ≤ℤ fixed-MathLaws.raw t.base_gas_price)
    × (price ≡ t.base_gas_price)
    × (t ≡ record state { base_gas_price = price })
update_base_gas_price-floor_example = update_base_gas_price-floor fixed-MathLaws state params

next_base_gas_price-returns_example :
    (r : fixed.LegacyDec) × (next_base_gas_price state params ≡ some r) × (fixed.is_nil r ≡ false)
next_base_gas_price-returns_example =
    next_base_gas_price-returns fixed-MathLaws fixed-NoOverflow state params state-IsComplete

nets : get_net_utilization state params ≡ some (pos 10)
unfolding get_net_utilization ◌+ℤ◌ ◌-ℤ◌
nets = refl

get_net_utilization_example :
    fixed-MathLaws.int (pos 10)
    ≡ pos (sum (elems state.window))
      -ℤ pos (length (elems state.window) * target_block_utilization params)
get_net_utilization_example = get_net_utilization_lem fixed-MathLaws state params nets

abbrev average : fixed.LegacyDec
average = some (pos 525_000_000_000_000_000)

averages : get_average_utilization state params ≡ some average
unfolding get_average_utilization div_near ◌*ℤ◌ add_total
averages = refl

get_average_utilization_example :
    (pos 0 ≤ℤ fixed-MathLaws.raw average) × (fixed-MathLaws.raw average ≤ℤ pos unit)
get_average_utilization_example =
    get_average_utilization-unit fixed-MathLaws state params averages (omega arith) (omega arith)
      state-IsWindow.within (omega arith)

state-IsSigned : IsSigned fixed-MathLaws state params
unfolding fixed-MathLaws
state-IsSigned = record {
  rate_nonneg = omega arith;
  price_nonneg = omega arith;
  delta_nonneg = omega arith;
  utilization_ge = omega arith;
}

update_base_gas_price-moves_example :
    let (t, _) = update_base_gas_price state params in
    (50 ≤ 80
      → 200 ≤ 210
      → fixed-MathLaws.raw state.base_gas_price ≤ℤ fixed-MathLaws.raw t.base_gas_price)
    × (80 ≤ 50
        → 210 ≤ 200
        → fixed-MathLaws.raw t.base_gas_price ≤ℤ fixed-MathLaws.raw state.base_gas_price)
update_base_gas_price-moves_example =
    update_base_gas_price-moves fixed-MathLaws fixed-NoOverflow state params 80 state-IsComplete
      state-IsSigned state-IsMarket.floor refl

validate_params-IsChecked_example : IsChecked fixed-MathLaws params
validate_params-IsChecked_example = validate_params-IsChecked fixed-MathLaws params validates

validate_params-nil_rate_example :
    validate_params (record params { min_learning_rate = none }) ≡ panic
validate_params-nil_rate_example =
    validate_params-nil_rate fixed-MathLaws params none validates refl
