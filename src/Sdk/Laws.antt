-- ===== src/Sdk/Laws.antt =====
-- What the module relies on in the Cosmos SDK's key-value stores and in `strconv`.
use feemarket.Prelude.{◌≡◌, ◌≢◌, Option, some, String, Bool}
use feemarket.Prelude.Int.{ℤ, ◌-ℤ◌, leb_ℤ}
use feemarket.Prelude.Outcome.{ok}
use feemarket.Math.{Math}
use feemarket.Math.Laws.{MathLaws}
use feemarket.Sdk.{Sdk, Bytes, Coin}

-- Reads and writes of a store for which the gas is enough: a read returns what the store holds, a
-- write changes one key, and neither changes the height.
pub record StoreLaws ⦃m : Math⦄ ⦃s : Sdk⦄ : Type 0 where
  pub view : s.Ctx → Bytes → Option Bytes
  pub get_value :
      (k : Bytes) (c : s.Ctx)
      → (d : s.Ctx) × (s.kv_get k c ≡ (ok (view c k), d))
        × ((j : Bytes) → view d j ≡ view c j)
        × (s.block_height d ≡ s.block_height c)
  pub set_value :
      (k v : Bytes) (c : s.Ctx)
      → (d : s.Ctx) × (s.kv_set k v c ≡ (ok tt, d))
        × (view d k ≡ some v)
        × ((j : Bytes) → j ≢ k → view d j ≡ view c j)
        × (s.block_height d ≡ s.block_height c)
  pub parse_int-format_int : (n : ℤ) → s.parse_int (s.format_int n) ≡ ok n

-- Coins: what a constructor, a comparison or a difference that returns has returned.
pub record CoinLaws ⦃m : Math⦄ ⦃s : Sdk⦄ (l : MathLaws) : Type 0 where
  pub new_coin_value :
      (d : String) (a : m.Int) {c : Coin} → s.new_coin d a ≡ some c → (c.denom ≡ d) × (c.amount ≡ a)
  pub is_gte_value :
      (a b : Coin) {t : Bool} → s.is_gte a b ≡ some t → t ≡ leb_ℤ (l.int b.amount) (l.int a.amount)
  pub sub_coin_value :
      (a b : Coin) {c : Coin}
      → s.sub_coin a b ≡ some c
      → (c.denom ≡ a.denom) × (l.int c.amount ≡ l.int a.amount -ℤ l.int b.amount)
