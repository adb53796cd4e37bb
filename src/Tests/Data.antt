-- ===== src/Tests/Data.antt =====
-- Parameters with the decimals of x/feemarket/types/eip1559_aimd.go and a small window, and a state.
use feemarket.Prelude.{◌*◌, refl, true, false, some, [], ◌∷◌, arith}
use feemarket.Prelude.Int.{pos}
use feemarket.Math.Fixed.{fixed}
use feemarket.Math.Fixed.Lawful.{fixed-MathLaws}
use feemarket.Math.Laws.{unit}
use feemarket.Params.{Params}
use feemarket.Params.Validate.{IsChecked}
use feemarket.State.{State}
use feemarket.State.Window.{IsWindow}
use feemarket.State.Rate.{IsBounded, IsRateParams}
use feemarket.State.Returns.{IsComplete}
use feemarket.State.Market.{IsMarket}
use feemarket.Codec.{IsStorableParams, IsStorableState}

abbrev pub params : Params
params = record {
  alpha = some (pos 25_000_000_000_000_000);
  beta = some (pos 950_000_000_000_000_000);
  gamma = some (pos 250_000_000_000_000_000);
  delta = some (pos 0);
  min_base_gas_price = some (pos unit);
  min_learning_rate = some (pos 10_000_000_000_000_000);
  max_learning_rate = some (pos 500_000_000_000_000_000);
  max_block_utilization = 100;
  window = 4;
  fee_denom = "stake";
  enabled = true;
  distribute_fees = false;
}

abbrev pub state : State
state = record {
  base_gas_price = some (pos (10 * unit));
  learning_rate = some (pos 125_000_000_000_000_000);
  window = some (60 ∷ 80 ∷ 50 ∷ 20 ∷ []);
  index = 1;
}

pub params-IsChecked : IsChecked fixed-MathLaws params
unfolding fixed-MathLaws
params-IsChecked = record {
  window_pos = λ h. omega arith;
  alpha_some = refl;
  alpha_nonneg = omega arith;
  beta_some = refl;
  beta_nonneg = omega arith;
  beta_le = omega arith;
  gamma_some = refl;
  gamma_nonneg = omega arith;
  gamma_le = omega arith;
  delta_some = refl;
  delta_nonneg = omega arith;
  price_some = refl;
  price_nonneg = omega arith;
  max_rate_some = refl;
  min_rate_nonneg = omega arith;
  rates_le = omega arith;
  utilization_ge = omega arith;
  denom_ne = λ h. cc;
}

pub params-IsRateParams : IsRateParams fixed-MathLaws params
unfolding fixed-MathLaws
params-IsRateParams = record {
  alpha_nonneg = omega arith;
  beta_le = omega arith;
  min_rate_nonneg = omega arith;
  rates_le = omega arith;
}

pub state-IsBounded : IsBounded fixed-MathLaws params state.learning_rate
unfolding fixed-MathLaws
state-IsBounded = (omega arith, omega arith)

pub state-IsWindow : IsWindow params state
state-IsWindow = record {
  index_lt = omega arith;
  length_lt = omega arith;
  within = (omega arith, (omega arith, (omega arith, (omega arith, tt))));
}

pub state-IsComplete : IsComplete fixed-MathLaws state params
state-IsComplete = record {
  alpha_some = refl;
  beta_some = refl;
  gamma_some = refl;
  delta_some = refl;
  min_price_some = refl;
  min_rate_some = refl;
  max_rate_some = refl;
  price_some = refl;
  rate_some = refl;
  index_lt = omega arith;
  utilization_ge = omega arith;
}

pub state-IsMarket : IsMarket fixed-MathLaws params state
unfolding fixed-MathLaws
state-IsMarket = record {
  window = state-IsWindow;
  complete = state-IsComplete;
  rates = params-IsRateParams;
  bounded = state-IsBounded;
  floor = omega arith;
}

pub params-IsStorableParams : IsStorableParams params
params-IsStorableParams = record {
  alpha_some = refl;
  beta_some = refl;
  gamma_some = refl;
  delta_some = refl;
  min_price_some = refl;
  min_rate_some = refl;
  max_rate_some = refl;
  max_block_utilization_lt = omega arith;
  window_lt = omega arith;
  denom_lt = omega arith;
}

pub state-IsStorableState : IsStorableState state
state-IsStorableState = record {
  price_some = refl;
  rate_some = refl;
  first = 60;
  rest = 80 ∷ 50 ∷ 20 ∷ [];
  window_cons = refl;
  window_lt = (omega arith, (omega arith, (omega arith, (omega arith, tt))));
  length_lt = omega arith;
  index_lt = omega arith;
}
