-- ===== src/Sdk/Bank.antt =====
-- What the decorators rely on in the bank of the Cosmos SDK: the balances that a context carries, and
-- what moves them.
pub mod Keeps
use feemarket.Prelude.{
  ◌≡◌, ◌⊎◌, refl, sym, ap, ◌∙◌, String, Bool, true, false, Option, some, List, [], ◌∷◌, ◌≢◌,
  if◌then◌else◌, str_eq, arith,
}
use feemarket.Prelude.Int.{ℤ, pos, ◌+ℤ◌, ◌-ℤ◌}
use feemarket.Prelude.Outcome.{Outcome, ok, err, panic, Error}
use feemarket.Prelude.Outcome.Action.{Action, pure, raise, lift, gets, modify, go_on, ◌>>=◌}
use feemarket.Math.{Math}
use feemarket.Math.Laws.{MathLaws}
use feemarket.Sdk.{Sdk, Bytes, Coin, Coins}

module _ ⦃m : Math⦄ (l : MathLaws) where
  -- The amount of a coin, and of coins, in a denomination.
  abbrev pub amount_of : Coin → String → ℤ
  amount_of c d = if str_eq c.denom d then l.int c.amount else pos 0

  abbrev pub total_of : Coins → String → ℤ
  total_of [] d = pos 0
  total_of (c ∷ cs) d = amount_of c d +ℤ total_of cs d

  -- What paying out a coin moves: nothing for a nil amount.
  abbrev pub worth : Coin → String → ℤ
  worth c d = if m.int_is_nil c.amount then pos 0 else amount_of c d

  -- A balance once a transfer has been made; a transfer to its own sender moves nothing.
  abbrev pub transferred : Bool → Bool → ℤ → ℤ → ℤ
  transferred is_sender is_receiver amount balance =
      (if is_sender then balance -ℤ amount else balance) +ℤ (if is_receiver then amount else pos 0)

-- The bank, where a call returns, and coins: `NewCoin` and `NewCoins` panic on a nil amount, a
-- difference of coins is of one denomination, and an empty coin is worth nothing.
pub record BankLaws ⦃m : Math⦄ ⦃s : Sdk⦄ (l : MathLaws) : Type 0 where
  pub balance : s.Ctx → s.Addr → String → ℤ
  pub module_address : String → s.Addr
  pub addr_eq_refl : (a : s.Addr) → s.addr_eq a a ≡ true
  pub account_to_module_moves :
      (from : s.Addr) (name : String) (cs : Coins) (x y : s.Ctx)
      → s.send_account_to_module from name cs x ≡ (ok tt, y)
      → (a : s.Addr) (d : String)
      → balance y a d
        ≡ transferred l
            (s.addr_eq a from)
            (s.addr_eq a (module_address name))
            (total_of l cs d)
            (balance x a d)
  pub module_to_module_moves :
      (from name : String) (cs : Coins) (x y : s.Ctx)
      → s.send_module_to_module from name cs x ≡ (ok tt, y)
      → (a : s.Addr) (d : String)
      → balance y a d
        ≡ transferred l
            (s.addr_eq a (module_address from))
            (s.addr_eq a (module_address name))
            (total_of l cs d)
            (balance x a d)
  pub module_to_account_moves :
      (from : String) (to : s.Addr) (cs : Coins) (x y : s.Ctx)
      → s.send_module_to_account from to cs x ≡ (ok tt, y)
      → (a : s.Addr) (d : String)
      → balance y a d
        ≡ transferred l
            (s.addr_eq a (module_address from))
            (s.addr_eq a to)
            (total_of l cs d)
            (balance x a d)
  -- The account of an address has that address.
  pub account_address :
      (a : s.Addr) (x : s.Ctx) {found : s.Addr} {y : s.Ctx}
      → s.get_account a x ≡ (ok (some found), y)
      → found ≡ a
  -- No other call that the decorators make moves coins.
  pub kv_get_keeps :
      (k : Bytes) (x : s.Ctx) (a : s.Addr) (d : String)
      → balance (s.kv_get k x).1 a d ≡ balance x a d
  pub kv_set_keeps :
      (k v : Bytes) (x : s.Ctx) (a : s.Addr) (d : String)
      → balance (s.kv_set k v x).1 a d ≡ balance x a d
  pub get_account_keeps :
      (of : s.Addr) (x : s.Ctx) (a : s.Addr) (d : String)
      → balance (s.get_account of x).1 a d ≡ balance x a d
  pub use_granted_fees_keeps :
      (granter grantee : s.Addr) (cs : Coins) (tx : s.Tx) (x : s.Ctx) (a : s.Addr) (d : String)
      → balance (s.use_granted_fees granter grantee cs tx x).1 a d ≡ balance x a d
  pub with_min_gas_prices_keeps :
      (p : s.DecCoins) (x : s.Ctx) (a : s.Addr) (d : String)
      → balance (s.with_min_gas_prices p x) a d ≡ balance x a d
  pub with_priority_keeps :
      (n : ℤ) (x : s.Ctx) (a : s.Addr) (d : String)
      → balance (s.with_priority n x) a d ≡ balance x a d
  -- coins
  pub new_coin_some :
      (d : String) (a : m.Int) {c : Coin} → s.new_coin d a ≡ some c → m.int_is_nil c.amount ≡ false
  pub new_coins_total :
      (c : Coin) {cs : Coins}
      → s.new_coins c ≡ some cs
      → (m.int_is_nil c.amount ≡ false) × ((d : String) → total_of l cs d ≡ amount_of l c d)
  pub sub_coin_some :
      (a b : Coin) {c : Coin}
      → s.sub_coin a b ≡ some c
      → (m.int_is_nil c.amount ≡ false) × (a.denom ≡ b.denom)
  pub empty_coin_worthless :
      (m.int_is_nil s.empty_coin.amount ≡ true) ⊎ (l.int s.empty_coin.amount ≡ pos 0)
