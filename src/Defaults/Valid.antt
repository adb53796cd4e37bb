-- ===== src/Defaults/Valid.antt =====
-- The defaults of x/feemarket/types/eip1559.go and eip1559_aimd.go under the checks of types/params.go.
use feemarket.Prelude.{◌≡◌, ◌≢◌, ◌*◌, refl, String, true, false, some, arith}
use feemarket.Prelude.Int.{ℤ, pos}
use feemarket.Prelude.Outcome.{ok}
use feemarket.Math.{Math}
use feemarket.Math.Laws.{MathLaws, Compares, unit}
use feemarket.Params.{Params, new_params, validate_params}
use feemarket.Params.Accepts.{checked-accepted}
use feemarket.Defaults.{default_params, default_aimd_params}

module _ ⦃m : Math⦄ (l : MathLaws) where
  -- The text is that of a decimal, which is present and has the value `v`.
  abbrev pub Reads : String → ℤ → Type 0
  Reads t v = (d : m.LegacyDec) × (m.dec_from_str t ≡ some d) × (m.is_nil d ≡ false) × (l.raw d ≡ v)

  -- What the defaults rely on in the parser of decimals.
  pub record TextLaws : Type 0 where
    pub zero_reads : Reads "0.0" (pos 0)
    pub one_reads : Reads "1.0" (pos unit)
    pub eighth_reads : Reads "0.125" (pos 125_000_000_000_000_000)
    pub alpha_reads : Reads "0.025" (pos 25_000_000_000_000_000)
    pub beta_reads : Reads "0.95" (pos 950_000_000_000_000_000)
    pub quarter_reads : Reads "0.25" (pos 250_000_000_000_000_000)
    pub hundredth_reads : Reads "0.01" (pos 10_000_000_000_000_000)
    pub half_reads : Reads "0.50" (pos 500_000_000_000_000_000)
    pub price_reads : Reads "1000000000" (pos (1_000_000_000 * unit))

  -- The defaults of EIP-1559 exist, and ValidateBasic accepts them under a denomination that is not
  -- empty, where a comparison of decimals panics on nil alone, the constants 0, 1 and 0.5 are there
  -- and the texts of the defaults are those of their decimals.
  pub default_params-valid :
      (n : Compares) (t : TextLaws) (denom : String)
      → denom ≢ ""
      → (p : Params) × (default_params denom ≡ some p) × (validate_params p ≡ ok tt)
  unfolding default_params
  default_params-valid n t denom h =
      let (z, zr, zs, zv) = t.zero_reads in
      let (o, or, os, ov) = t.one_reads in
      let (r, rr, rs, rv) = t.eighth_reads in
      let p = new_params 1 z o z z 30_000_000 m.one_dec r r denom true in
      (
        p,
        rw (zr, or, rr) refl,
        checked-accepted l n p rs (record {
          window_pos = λ e. omega arith;
          alpha_some = zs;
          alpha_nonneg = rw zv (omega arith);
          beta_some = os;
          beta_nonneg = rw ov (omega arith);
          beta_le = rw ov (omega arith);
          gamma_some = zs;
          gamma_nonneg = rw zv (omega arith);
          gamma_le = rw zv (omega arith);
          delta_some = zs;
          delta_nonneg = rw zv (omega arith);
          price_some = n.one_dec_some;
          price_nonneg = rw l.one_dec_value (omega arith);
          max_rate_some = rs;
          min_rate_nonneg = rw rv (omega arith);
          rates_le = omega arith;
          utilization_ge = omega arith;
          denom_ne = h;
        }),
      )

  -- The defaults of the AIMD variant exist, and ValidateBasic accepts them under a denomination
  -- that is not empty, where a comparison of decimals panics on nil alone, the constants 0, 1 and 0.5
  -- are there and the texts of the defaults are those of their decimals.
  pub default_aimd_params-valid :
      (n : Compares) (t : TextLaws) (denom : String)
      → denom ≢ ""
      → (p : Params) × (default_aimd_params denom ≡ some p) × (validate_params p ≡ ok tt)
  unfolding default_aimd_params
  default_aimd_params-valid n t denom h =
      let (a, ar, a_some, av) = t.alpha_reads in
      let (b, br, bs, bv) = t.beta_reads in
      let (g, gr, gs, gv) = t.quarter_reads in
      let (z, zr, zs, zv) = t.zero_reads in
      let (q, qr, qs, qv) = t.price_reads in
      let (r, rr, rs, rv) = t.hundredth_reads in
      let (x, xr, xs, xv) = t.half_reads in
      let p = new_params 8 a b g z 30_000_000 q r x denom true in
      (
        p,
        rw (ar, br, gr, zr, qr, rr, xr) refl,
        checked-accepted l n p rs (record {
          window_pos = λ e. omega arith;
          alpha_some = a_some;
          alpha_nonneg = rw av (omega arith);
          beta_some = bs;
          beta_nonneg = rw bv (omega arith);
          beta_le = rw bv (omega arith);
          gamma_some = gs;
          gamma_nonneg = rw gv (omega arith);
          gamma_le = rw gv (omega arith);
          delta_some = zs;
          delta_nonneg = rw zv (omega arith);
          price_some = qs;
          price_nonneg = rw qv (omega arith);
          max_rate_some = xs;
          min_rate_nonneg = rw rv (omega arith);
          rates_le = rw (rv, xv) (omega arith);
          utilization_ge = omega arith;
          denom_ne = h;
        }),
      )
