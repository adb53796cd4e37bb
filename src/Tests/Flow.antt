-- ===== src/Tests/Flow.antt =====
-- Examples for a transaction through both handlers.
use feemarket.Prelude.{◌≡◌, ◌≢◌, refl, String, false, some, [], ◌∷◌, arith, inr, if◌then◌else◌}
use feemarket.Prelude.Int.{pos, negsuc, ◌≤ℤ◌, ◌+ℤ◌, ◌-ℤ◌, ◌*ℤ◌}
use feemarket.Prelude.Outcome.{ok}
use feemarket.Prelude.Outcome.Action.{pure}
use feemarket.Math.Fixed.{fixed, div_near}
use feemarket.Math.Fixed.Lawful.{fixed-MathLaws}
use feemarket.State.{update}
use feemarket.Sdk.{Coin}
use feemarket.Sdk.Bank.{amount_of, worth}
use feemarket.Sdk.Bank.Keeps.{SameBalances}
use feemarket.Keeper.{get_state, set_state, get_params, get_enabled_height, key_enabled_height}
use feemarket.Keeper.Store.{HoldsParams, HoldsHeight}
use feemarket.Keeper.Market.{get_min_gas_price}
use feemarket.Ante.{
  ante_handle, check_tx_fee, gas_cost, escrow_funds, resolve_priority_coins, get_tx_priority,
}
use feemarket.Post.{post_handle, settle, settle_later, split_fee, pay_out_fee_and_tip, deduct_coins}
use feemarket.Post.Pays.{IsOpen, Settled, post_handle-Settled}
use feemarket.Flow.Collector.{IsApart, collector, post_handle-ante_handle}
use feemarket.Flow.Stranded.{ante_handle-stranded}
use feemarket.Tests.Data.{params, state}
use feemarket.Tests.Chain.{
  chain, chain-StoreLaws, chain-CoinLaws, chain-BankLaws, Context, bytes_eq,
}
use feemarket.Tests.Encoding.{rows, rows-CodecLaws, put_params, put_state}
use feemarket.Tests.Module.{holding, holds_params, keeper}
use feemarket.Tests.Fees.{coin, transaction, decorator, charged, charges}

apart : IsApart fixed-MathLaws chain-BankLaws transaction
unfolding chain-BankLaws
apart = record {
  not_payer = refl;
  not_granter = λ a e. cc;
  not_proposer = λ x. refl;
  not_auth = refl;
}

-- The messages of the transaction have used 15 gas.
abbrev used : Context
used = record charged { gas = 15 }

abbrev settled : Context
settled = (post_handle keeper transaction false (pure tt) used).1

settles : post_handle keeper transaction false (pure tt) used ≡ (ok tt, settled)
unfolding post_handle settle_later settle split_fee pay_out_fee_and_tip deduct_coins
    get_min_gas_price get_state set_state get_params get_enabled_height check_tx_fee gas_cost update
    div_near ◌*ℤ◌ ◌-ℤ◌ ante_handle escrow_funds resolve_priority_coins get_tx_priority
settles = refl

used-IsOpen : IsOpen chain-StoreLaws rows-CodecLaws used params state
unfolding chain-StoreLaws ante_handle get_min_gas_price get_state get_params check_tx_fee gas_cost
    escrow_funds resolve_priority_coins get_tx_priority div_near ◌*ℤ◌ ◌-ℤ◌
used-IsOpen = record {
  params_held = (put_params params, refl, refl);
  state_held = (put_state state, refl, refl);
  enabled = refl;
  since = negsuc 0;
  since_held = refl;
  later = omega arith;
  not_genesis = λ h. cc;
}

post_handle-Settled_example :
    (v : Context) × Settled fixed-MathLaws chain-BankLaws chain-StoreLaws rows-CodecLaws keeper
      params transaction used v
    × (pure tt v ≡ (ok tt, settled))
post_handle-Settled_example =
    post_handle-Settled fixed-MathLaws chain-BankLaws chain-StoreLaws rows-CodecLaws keeper params
      state transaction (pure tt) used settled (λ r e. cc) (λ r e. cc) used-IsOpen settles

post_handle-ante_handle_example :
    (r : Settled fixed-MathLaws chain-BankLaws chain-StoreLaws rows-CodecLaws keeper params
      transaction used settled)
    × ((a : String)
        → charged.balances (collector fixed-MathLaws chain-BankLaws) a
            +ℤ settled.balances (collector fixed-MathLaws chain-BankLaws) a
          ≡ pos 0
            +ℤ used.balances (collector fixed-MathLaws chain-BankLaws) a
            +ℤ (if params.distribute_fees then pos 0 else worth fixed-MathLaws r.paid a))
unfolding chain-BankLaws
post_handle-ante_handle_example =
    post_handle-ante_handle fixed-MathLaws chain-CoinLaws chain-BankLaws chain-StoreLaws
      rows-CodecLaws decorator keeper params params state transaction (holding params) charged used
      settled (λ r e. cc) (λ r e. cc) (λ r e. cc) apart holds_params refl (λ h. cc) charges
      used-IsOpen settles

-- The market was enabled in the block of the transaction.
abbrev just_enabled : Context
just_enabled = record charged {
  store = λ k. if bytes_eq k key_enabled_height then some (0 ∷ 5 ∷ []) else charged.store k;
}

abbrev left : Context
left = (post_handle keeper transaction false (pure tt) just_enabled).1

leaves : post_handle keeper transaction false (pure tt) just_enabled ≡ (ok tt, left)
unfolding post_handle settle_later get_params get_enabled_height ante_handle get_min_gas_price
    get_state check_tx_fee gas_cost escrow_funds resolve_priority_coins get_tx_priority div_near
    ◌*ℤ◌ ◌-ℤ◌
leaves = refl

just_enabled_params : HoldsParams chain-StoreLaws rows-CodecLaws just_enabled params
unfolding chain-StoreLaws ante_handle get_min_gas_price get_state get_params check_tx_fee gas_cost
    escrow_funds resolve_priority_coins get_tx_priority div_near ◌*ℤ◌ ◌-ℤ◌
just_enabled_params = (put_params params, refl, refl)

just_enabled_height : HoldsHeight chain-StoreLaws rows-CodecLaws just_enabled (pos 5)
unfolding chain-StoreLaws
just_enabled_height = refl

just_enabled_block :
    (chain.block_height just_enabled ≢ pos 0) × (chain.block_height just_enabled ≤ℤ pos 5)
unfolding ante_handle get_min_gas_price get_state get_params check_tx_fee gas_cost escrow_funds
    resolve_priority_coins get_tx_priority div_near ◌*ℤ◌ ◌-ℤ◌
just_enabled_block = ((λ h. cc), omega arith)

ante_handle-stranded_example :
    (fee : Coin) × (coin ∷ [] ≡ fee ∷ [])
    × ((a : String)
        → charged.balances (collector fixed-MathLaws chain-BankLaws) a
          ≡ pos 0 +ℤ amount_of fixed-MathLaws fee a)
    × SameBalances fixed-MathLaws chain-BankLaws just_enabled left
unfolding chain-BankLaws
ante_handle-stranded_example =
    ante_handle-stranded fixed-MathLaws chain-BankLaws chain-StoreLaws rows-CodecLaws decorator
      keeper params params transaction (holding params) charged just_enabled left (pos 5)
      (λ r e. cc) apart holds_params refl (λ h. cc) charges just_enabled_params just_enabled_height
      just_enabled_block.0 (inr just_enabled_block.1) leaves
