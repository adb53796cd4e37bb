-- ===== src/State/Price.antt =====
-- The base gas price of x/feemarket/types/state.go (`UpdateBaseGasPrice`), with the net utilization.
use mathlib.Core.Option.{some-injective}
use feemarket.Prelude.{
  ℕ, ◌+◌, ◌*◌, ◌≡◌, refl, Bool, some, arith, Option-cases, inl, inr, if◌then◌else◌, List, [], ◌∷◌,
  length,
}
use feemarket.Prelude.Int.{pos, pos_part, neg_part, ◌-ℤ◌, ◌≤ℤ◌, +ℤ_parts, -ℤ_parts, int_laws}
use feemarket.Prelude.Outcome.Partial.{>>=-eq-some}
use feemarket.Math.{Math}
use feemarket.Math.Laws.{MathLaws}
use feemarket.Math.Order.{floor_value}
use feemarket.Params.{Params, target_block_utilization}
use feemarket.State.{
  State, elems, get_net_utilization, add_net, learning_rate_adjustment, next_base_gas_price,
  update_base_gas_price,
}

abbrev pub sum : List ℕ → ℕ
sum [] = 0
sum (u ∷ us) = u + sum us

module _ ⦃m : Math⦄ (l : MathLaws) where
  open l use {raw, int}

  int_parts :
      (a b : m.Int) {c : m.Int}
      → m.int_sub a b ≡ some c
      → pos_part (int c) + neg_part (int a) + pos_part (int b)
        ≡ neg_part (int c) + pos_part (int a) + neg_part (int b)
  int_parts a b e = rw (l.int_sub_value a b e) (-ℤ_parts (int a) (int b))

  int_sum_parts :
      (a b : m.Int) {c : m.Int}
      → m.int_add a b ≡ some c
      → pos_part (int c) + neg_part (int a) + neg_part (int b)
        ≡ neg_part (int c) + pos_part (int a) + pos_part (int b)
  int_sum_parts a b e = rw (l.int_add_value a b e) (+ℤ_parts (int a) (int b))

  add_net-parts :
      (target net : m.Int) (us : List ℕ) {r : m.Int}
      → add_net target net us ≡ some r
      → pos_part (int r) + neg_part (int net) + length us * pos_part (int target)
        ≡ neg_part (int r) + pos_part (int net) + sum us + length us * neg_part (int target)
  unfolding add_net
  add_net-parts target net [] e = rw (← some-injective _ _ e) (omega arith)
  add_net-parts target net (u ∷ us) e =
      let (diff, e1, e2) = >>=-eq-some (m.int_sub (m.int_from_uint64 u) target) _ e in
      let (net', e3, e4) = >>=-eq-some (m.int_add net diff) _ e2 in
      omega (
        arith,
        add_net-parts target net' us e4,
        int_sum_parts net diff e3,
        rw (l.int_from_uint64_value u) at (int_parts (m.int_from_uint64 u) target e1),
      )

  -- Where no step overflows, the net utilization is the gas used over the window less the target
  -- once for each of its slots.
  pub get_net_utilization_lem :
      (s : State) (p : Params) {r : m.Int}
      → get_net_utilization s p ≡ some r
      → int r
        ≡ pos (sum (elems s.window)) -ℤ pos (length (elems s.window) * target_block_utilization p)
  unfolding get_net_utilization
  get_net_utilization_lem s p {r} e =
      let target = m.int_from_uint64 (target_block_utilization p) in
      let loop =
        rw (l.int_from_uint64_value (target_block_utilization p), l.new_int_value (pos 0)) at
          (add_net-parts target (m.new_int (pos 0)) (elems s.window) e) in
      omega (int_laws, loop)

  -- The steps of a computation of the gas price that returns.
  pub record Steps (s : State) (p : Params) (r : m.LegacyDec) : Type 0 where
    pub adjustment : m.LegacyDec
    pub total : m.Int
    pub net : m.LegacyDec
    pub scaled : m.LegacyDec
    pub price : m.LegacyDec
    pub below : Bool
    pub adjusts : learning_rate_adjustment s p ≡ some adjustment
    pub counts : get_net_utilization s p ≡ some total
    pub nets : m.mul (m.dec_from_int total) p.delta ≡ some net
    pub scales : m.mul s.base_gas_price adjustment ≡ some scaled
    pub adds : m.add scaled net ≡ some price
    pub tests : m.lt price p.min_base_gas_price ≡ some below
    pub chooses : some (if below then p.min_base_gas_price else price) ≡ some r

  pub next-Steps :
      (s : State) (p : Params) {r : m.LegacyDec} → next_base_gas_price s p ≡ some r → Steps s p r
  unfolding next_base_gas_price
  next-Steps s p e =
      let (adjustment, adjusts, e1) = >>=-eq-some (learning_rate_adjustment s p) _ e in
      let (total, counts, e2) = >>=-eq-some (get_net_utilization s p) _ e1 in
      let (net, nets, e3) = >>=-eq-some (m.mul (m.dec_from_int total) p.delta) _ e2 in
      let (scaled, scales, e4) = >>=-eq-some (m.mul s.base_gas_price adjustment) _ e3 in
      let (price, adds, e5) = >>=-eq-some (m.add scaled net) _ e4 in
      let (below, tests, e6) = >>=-eq-some (m.lt price p.min_base_gas_price) _ e5 in
      record {
        adjustment = adjustment;
        total = total;
        net = net;
        scaled = scaled;
        price = price;
        below = below;
        adjusts = adjusts;
        counts = counts;
        nets = nets;
        scales = scales;
        adds = adds;
        tests = tests;
        chooses = e6;
      }

  -- The gas price that UpdateBaseGasPrice leaves in the state is never below the minimal one,
  -- whatever the state, the parameters and the panics on the way. It is also the result, and
  -- nothing else of the state changes.
  pub update_base_gas_price-floor :
      (s : State) (p : Params)
      → let (t, price) = update_base_gas_price s p in
        (raw p.min_base_gas_price ≤ℤ raw t.base_gas_price)
        × (price ≡ t.base_gas_price)
        × (t ≡ record s { base_gas_price = price })
  unfolding update_base_gas_price
  update_base_gas_price-floor s p = elim (Option-cases (next_base_gas_price s p)) [
    | inl stopped ↦ rw stopped (omega arith, refl, refl)
    | inr (r, e) ↦
        let st = next-Steps s p e in
        rw e ((floor_value l st.price p.min_base_gas_price st.tests st.chooses).0, refl, refl)
  ]
