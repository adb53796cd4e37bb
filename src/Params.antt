-- ===== src/Params.antt =====
-- `Params` of x/feemarket/types: the record of params.pb.go, and the constructor and the checks of
-- params.go. A decimal field may be nil, as in a zero struct.
pub mod Validate
pub mod Accepts
use feemarket.Prelude.{
  ℕ, ◌/◌, ◌≡◌, refl, String, Bool, true, false, not, Option, none, some, arith, ltb, ◌==◌,
  if◌then◌else◌, str_eq,
}
use feemarket.Prelude.Outcome.{Outcome, ok, Error, message, fail_if, or_panic, ◌or◌}
use feemarket.Prelude.Outcome.Pure.{◌>>=◌, ◌>>◌}
use feemarket.Prelude.Outcome.Partial
use feemarket.Math.{Math}

module _ ⦃m : Math⦄ where
  pub record Params : Type 0 where
    pub alpha : m.LegacyDec
    pub beta : m.LegacyDec
    pub gamma : m.LegacyDec
    pub delta : m.LegacyDec
    pub min_base_gas_price : m.LegacyDec
    pub min_learning_rate : m.LegacyDec
    pub max_learning_rate : m.LegacyDec
    pub max_block_utilization : ℕ
    pub window : ℕ
    pub fee_denom : String
    pub enabled : Bool
    pub distribute_fees : Bool

  -- `NewParams`, which leaves `DistributeFees` at its zero value.
  abbrev pub new_params :
      ℕ
      → m.LegacyDec
      → m.LegacyDec
      → m.LegacyDec
      → m.LegacyDec
      → ℕ
      → m.LegacyDec
      → m.LegacyDec
      → m.LegacyDec
      → String
      → Bool
      → Params
  new_params window alpha beta gamma delta max_block_size min_price min_rate max_rate denom
        enabled =
      record {
        alpha = alpha;
        beta = beta;
        gamma = gamma;
        delta = delta;
        min_base_gas_price = min_price;
        min_learning_rate = min_rate;
        max_learning_rate = max_rate;
        max_block_utilization = max_block_size;
        window = window;
        fee_denom = denom;
        enabled = enabled;
        distribute_fees = false;
      }

  abbrev pub not_gte : m.LegacyDec → m.LegacyDec → Option Bool
  not_gte a b = Partial.◌>>=◌ (m.gte a b) (λ t. some (not t))

  abbrev pub above_half : m.LegacyDec → Option Bool
  above_half g = Partial.◌>>=◌ (m.dec_from_str "0.5") (m.gt g)

  -- `Params.ValidateBasic`
  unfoldable pub validate_params : Params → Outcome (Unit {0})
  validate_params p = do
    fail_if (some (p.window == 0)) (message "window cannot be zero")
    fail_if (some (m.is_nil p.alpha) or m.is_negative p.alpha)
        (message "alpha cannot be nil must be between [0, inf)")
    fail_if (some (m.is_nil p.beta) or m.is_negative p.beta or m.gt p.beta m.one_dec)
        (message "beta cannot be nil and must be between [0, 1]")
    fail_if (some (m.is_nil p.gamma) or m.is_negative p.gamma or above_half p.gamma)
        (message "theta cannot be nil and must be between [0, 0.5]")
    fail_if (some (m.is_nil p.delta) or m.is_negative p.delta)
        (message "delta cannot be nil and must be between [0, inf)")
    fail_if (some (m.is_nil p.min_base_gas_price) or not_gte p.min_base_gas_price m.zero_dec)
        (message "min base gas price cannot be nil and must be greater than or equal to zero")
    fail_if (some (m.is_nil p.max_learning_rate) or m.is_negative p.min_learning_rate)
        (message "min learning rate cannot be negative or nil")
    fail_if (some (ltb p.max_block_utilization 2))
        (message "max block utilization cannot be less than 2")
    fail_if (some (m.is_nil p.max_learning_rate) or m.is_negative p.max_learning_rate)
        (message "max learning rate cannot be negative or nil")
    fail_if (m.gt p.min_learning_rate p.max_learning_rate)
        (message "min learning rate cannot be greater than max learning rate")
    fail_if (some (str_eq p.fee_denom "")) (message "fee denom must be set")
    ok tt

  -- `Params.TargetBlockUtilization`
  abbrev pub target_block_utilization : Params → ℕ
  target_block_utilization p = p.max_block_utilization / 2
