-- ===== src/Tests/Fees.antt =====
-- Examples for the ante and the post handler.
use feemarket.Prelude.{◌≡◌, ◌≢◌, ◌*◌, refl, true, false, none, some, [], ◌∷◌, arith, inl}
use feemarket.Prelude.Int.{pos, negsuc, ◌-ℤ◌, ◌*ℤ◌}
use feemarket.Prelude.Outcome.{ok}
use feemarket.Prelude.Outcome.Action.{pure, ◌>>=◌}
use feemarket.Math.Fixed.{fixed, div_near}
use feemarket.Math.Fixed.Lawful.{fixed-MathLaws}
use feemarket.Math.Laws.{unit}
use feemarket.State.{State, update}
use feemarket.State.Market.{IsMarket}
use feemarket.Sdk.{Coin, DecCoin}
use feemarket.Keeper.{get_state, set_state, get_params}
use feemarket.Keeper.Market.{get_min_gas_price}
use feemarket.Keeper.Store.{HoldsHeight, HoldsState, SameStore}
use feemarket.Ante.{
  Decorator, ante_handle, check_tx_fee, get_tx_priority, gas_cost, escrow_funds,
  resolve_priority_coins,
}
use feemarket.Ante.Charge.{Charges}
use feemarket.Ante.Handle.{ante_handle-Escrows}
use feemarket.Ante.Fee.{CheckEffect, check_tx_fee-CheckEffect}
use feemarket.Ante.Priority.{IsScaledPriority, get_tx_priority-IsPriority}
use feemarket.Post.{post_handle, settle, split_fee, pay_out_fee_and_tip, deduct_coins}
use feemarket.Post.Settle.{settle-records, split_fee-CheckEffect}
use feemarket.Post.Skip.{post_handle-skipped}
use feemarket.Tests.Data.{params, state, state-IsMarket}
use feemarket.Tests.Chain.{chain, chain-StoreLaws, chain-CoinLaws, Context, Transaction}
use feemarket.Tests.Encoding.{rows, rows-CodecLaws, put_state}
use feemarket.Tests.Module.{holding, off, holds_off, holds_params, keeper}

abbrev pub coin : Coin
coin = record { denom = "stake"; amount = pos 500 }

abbrev price : DecCoin
price = record { dec_denom = "stake"; dec_amount = some (pos (10 * unit)) }

abbrev pub transaction : Transaction
transaction = record { limit = 40; fee = coin ∷ []; payer = 3 }

check_tx_fee-CheckEffect_example :
    CheckEffect fixed-MathLaws chain-CoinLaws
      (holding params)
      price
      coin
      40
      true
      (check_tx_fee (holding params) price coin (pos 40) true)
check_tx_fee-CheckEffect_example =
    check_tx_fee-CheckEffect fixed-MathLaws chain-CoinLaws (holding params) price coin 40
      (omega arith) true

-- 500 for 40 gas is 1.25 times the price of 10.
prioritizes : get_tx_priority coin (pos 40) price ≡ some (pos 1_250_000)
unfolding get_tx_priority ◌*ℤ◌ div_near
prioritizes = refl

get_tx_priority-IsPriority_example :
    (pos 40 ≡ pos 0 → pos 1_250_000 ≡ pos 0)
    × (pos 40 ≢ pos 0
        → fixed-MathLaws.raw price.dec_amount ≡ pos 0
        → fixed-MathLaws.int coin.amount ≡ pos 1_250_000)
    × (pos 40 ≢ pos 0
        → fixed-MathLaws.raw price.dec_amount ≢ pos 0
        → IsScaledPriority fixed-MathLaws coin (pos 40) price (pos 1_250_000))
get_tx_priority-IsPriority_example =
    get_tx_priority-IsPriority fixed-MathLaws coin (pos 40) price prioritizes

-- The gas consumed is 30, so 300 is paid and 200 is left.
splits : split_fee keeper params transaction false (holding params) ≡ (
  ok (record { denom = "stake"; amount = pos 300 }, record { denom = "stake"; amount = pos 200 }),
  holding params,
)
unfolding split_fee get_min_gas_price get_state get_params check_tx_fee gas_cost div_near ◌*ℤ◌ ◌-ℤ◌
splits = refl

split_fee-CheckEffect_example :
    (p : DecCoin) × (get_min_gas_price keeper "stake" (holding params) ≡ (ok p, holding params))
    × CheckEffect fixed-MathLaws chain-CoinLaws (holding params) p coin 40 false (
        ok (
          record { denom = "stake"; amount = pos 300 },
          record { denom = "stake"; amount = pos 200 },
        ))
split_fee-CheckEffect_example =
    split_fee-CheckEffect fixed-MathLaws chain-CoinLaws keeper params transaction (holding params)
      coin (record { denom = "stake"; amount = pos 300 })
      (record { denom = "stake"; amount = pos 200 }) splits refl (omega arith) (omega arith)

holds_height : HoldsHeight chain-StoreLaws rows-CodecLaws (holding off) (negsuc 0)
unfolding chain-StoreLaws
holds_height = refl

post_handle-skipped_example :
    (y : Context) × (post_handle keeper transaction false (pure tt) (holding off) ≡ pure tt y)
    × SameStore chain-StoreLaws rows-CodecLaws (holding off) y
post_handle-skipped_example =
    post_handle-skipped chain-StoreLaws rows-CodecLaws keeper transaction false (pure tt)
      (holding off) off (negsuc 0) holds_off holds_height (λ h. cc) refl refl (inl refl)

-- A context in which the transaction has used 15 gas.
abbrev used : Context
used = record (holding params) { gas = 15 }

abbrev settled : Context
settled = (settle keeper params transaction false used).1

settles : settle keeper params transaction false used ≡ (ok tt, settled)
unfolding settle split_fee pay_out_fee_and_tip deduct_coins get_min_gas_price get_state set_state
    get_params check_tx_fee gas_cost update div_near ◌*ℤ◌ ◌-ℤ◌
settles = refl

used_state : HoldsState chain-StoreLaws rows-CodecLaws used state
unfolding chain-StoreLaws
used_state = (put_state state, refl, refl)

settle-records_example :
    (z : Context) × (u : State) × (fee : Coin) × (get_state used ≡ (ok state, z))
    × (coin ∷ [] ≡ fee ∷ [])
    × (update state z.gas params ≡ ok u)
    × IsMarket fixed-MathLaws params u
    × HoldsState chain-StoreLaws rows-CodecLaws settled u
settle-records_example =
    settle-records fixed-MathLaws chain-StoreLaws rows-CodecLaws keeper params transaction used
      state settles used_state state-IsMarket (omega arith)

abbrev pub decorator : Decorator
decorator = record { feemarket_keeper = keeper; has_feegrant_keeper = false; fallback = none }

abbrev pub charged : Context
charged = (ante_handle decorator transaction false (pure tt) (holding params)).1

pub charges : ante_handle decorator transaction false (pure tt) (holding params) ≡ (ok tt, charged)
unfolding ante_handle get_min_gas_price get_state get_params check_tx_fee gas_cost escrow_funds
    resolve_priority_coins get_tx_priority div_near ◌*ℤ◌ ◌-ℤ◌
charges = refl

ante_handle-Escrows_example :
    (fee : Coin) × (u v : Context) × ((get_params >>= (λ _. get_params)) (holding params)
      ≡ (ok params, u))
    × Charges decorator params transaction fee u v
    × (pure tt v ≡ (ok tt, charged))
ante_handle-Escrows_example =
    ante_handle-Escrows chain-StoreLaws rows-CodecLaws decorator params transaction (pure tt)
      (holding params) charged holds_params refl (λ h. cc) charges
