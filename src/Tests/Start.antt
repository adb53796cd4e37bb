-- ===== src/Tests/Start.antt =====
-- Examples for the defaults.
use feemarket.Prelude.{◌≡◌, refl, ◌*◌, some}
use feemarket.Prelude.Int.{pos}
use feemarket.Prelude.Outcome.{ok}
use feemarket.Math.Laws.{unit}
use feemarket.Math.Fixed.{fixed}
use feemarket.Math.Fixed.Lawful.{fixed-MathLaws, fixed-Compares}
use feemarket.Params.{Params, validate_params}
use feemarket.Defaults.{default_params}
use feemarket.Defaults.Valid.{TextLaws, default_params-valid}

fixed-TextLaws : TextLaws fixed-MathLaws
unfolding fixed-MathLaws
fixed-TextLaws = record {
  zero_reads = (some (pos 0), refl, refl, refl);
  one_reads = (some (pos unit), refl, refl, refl);
  eighth_reads = (some (pos 125_000_000_000_000_000), refl, refl, refl);
  alpha_reads = (some (pos 25_000_000_000_000_000), refl, refl, refl);
  beta_reads = (some (pos 950_000_000_000_000_000), refl, refl, refl);
  quarter_reads = (some (pos 250_000_000_000_000_000), refl, refl, refl);
  hundredth_reads = (some (pos 10_000_000_000_000_000), refl, refl, refl);
  half_reads = (some (pos 500_000_000_000_000_000), refl, refl, refl);
  price_reads = (some (pos (1_000_000_000 * unit)), refl, refl, refl);
}

default_params-valid_example :
    (p : Params) × (default_params "stake" ≡ some p) × (validate_params p ≡ ok tt)
default_params-valid_example =
    default_params-valid fixed-MathLaws fixed-Compares fixed-TextLaws "stake" (λ h. cc)
