-- ===== src/Tests/Chain.antt =====
-- A chain for the parameters of the development: a context with a store, a height, the gas consumed, the
-- priority of the transaction and the balances.
use mathlib.Core.Option.{some-injective}
use feemarket.Prelude.{
  ℕ, ◌+◌, ◌≡◌, ◌≢◌, refl, String, Bool, true, false, ◌&&◌, Option, none, some, List, [], ◌∷◌, arith,
  ◌==◌, Bool-cases, inl, inr, if◌then◌else◌, sym, ap, ◌∙◌, str_eq, eq_iff,
}
use feemarket.Prelude.Int.{ℤ, pos, negsuc, ◌+ℤ◌, ◌-ℤ◌, leb_ℤ, int_laws}
use feemarket.Prelude.Outcome.{Outcome, ok, err, external}
use feemarket.Prelude.Outcome.Cases.{ok_injective}
use feemarket.Prelude.Outcome.Action.{Action, pure, modify}
use feemarket.Math.Fixed.{fixed}
use feemarket.Math.Fixed.Lawful.{fixed-MathLaws}
use feemarket.Sdk.{Sdk, Bytes, Coin, Coins, DecCoin}
use feemarket.Sdk.Bank.{BankLaws}
use feemarket.Sdk.Laws.{StoreLaws, CoinLaws}

abbrev pub bytes_eq : Bytes → Bytes → Bool
bytes_eq [] [] = true
bytes_eq (a ∷ more) (b ∷ others) = (a == b) && bytes_eq more others
bytes_eq _ _ = false

same_number : (a : ℕ) → (a == a) ≡ true
same_number a = ground arith

pub bytes_eq_refl : (a : Bytes) → bytes_eq a a ≡ true
bytes_eq_refl [] = refl
bytes_eq_refl (a ∷ more) = rw (same_number a) (bytes_eq_refl more)

same_head : (a b : ℕ) → (a == b) ≡ true → a ≡ b
same_head a b e = ground arith

-- Bytes that the test finds equal are.
equal : (a b : Bytes) → bytes_eq a b ≡ true → a ≡ b
equal [] [] h = refl
equal [] (_ ∷ _) h = cc
equal (_ ∷ _) [] h = cc
equal (a ∷ more) (b ∷ others) h = by_head (a == b) refl (equal more others) h
  where
    by_head :
        (t : Bool)
        → (a == b) ≡ t
        → (bytes_eq more others ≡ true → more ≡ others)
        → (t && bytes_eq more others) ≡ true
        → (a ∷ more) ≡ (b ∷ others)
    by_head true e rest h = rw (same_head a b e, rest h) refl
    by_head false e rest h = cc

pub bytes_eq_ne : (a b : Bytes) → a ≢ b → bytes_eq a b ≡ false
bytes_eq_ne a b h = elim (Bool-cases (bytes_eq a b)) [
  | inl found ↦ absurd (h (equal a b found))
  | inr other ↦ other
]

pub record Context : Type 0 where
  pub store : Bytes → Option Bytes
  pub height : ℤ
  pub gas : ℕ
  pub priority : ℤ
  pub balances : ℕ → String → ℤ

pub record Transaction : Type 0 where
  pub limit : ℕ
  pub fee : Coins
  pub payer : ℕ

abbrev write : Bytes → Bytes → Context → Context
write k v x = record x { store = λ j. if bytes_eq j k then some v else x.store j }

-- The accounts of the modules.
abbrev account_of : String → ℕ
account_of name =
    if str_eq name "feemarket-fee-collector"
    then 1_000
    else if str_eq name "fee_collector"
    then 1_001
    else 1_002

abbrev total : Coins → String → ℤ
total [] d = pos 0
total (c ∷ cs) d = (if str_eq c.denom d then c.amount else pos 0) +ℤ total cs d

abbrev move : ℕ → ℕ → Coins → Context → Context
move from to cs x = record x {
  balances = λ a d.
      (if a == from then x.balances a d -ℤ total cs d else x.balances a d)
      +ℤ (if a == to then total cs d else pos 0);
}

abbrev send : ℕ → ℕ → Coins → Action Context (Unit {0})
send from to coins = modify (move from to coins)

abbrev format : ℤ → Bytes
format (pos n) = 0 ∷ n ∷ []
format (negsuc n) = 1 ∷ n ∷ []

abbrev parse_number : Bytes → Outcome ℤ
parse_number (sign ∷ n ∷ []) = ok (if sign == 0 then pos n else negsuc n)
parse_number _ = err (external 0)

instance abbrev pub chain : Sdk
chain = record {
  Ctx = Context;
  Addr = ℕ;
  DecCoins = List DecCoin;
  new_coin = λ d a. some (record { denom = d; amount = a });
  new_dec_coin = λ d a. some (record { dec_denom = d; dec_amount = a });
  dec_coin_of_coin =
      λ c. some (record { dec_denom = c.denom; dec_amount = fixed.dec_from_int c.amount });
  new_coins = λ c. some (c ∷ []);
  new_dec_coins = λ c. some (c ∷ []);
  add_dec_coin = λ cs c. some (c ∷ cs);
  empty_coin = record { denom = ""; amount = pos 0 };
  is_gte = λ a b. some (leb_ℤ b.amount a.amount);
  sub_coin = λ a b.
      if str_eq a.denom b.denom
      then some (record { denom = a.denom; amount = a.amount -ℤ b.amount })
      else none;
  block_height = λ x. x.height;
  proposer = λ _. 7;
  kv_get = λ k x. (ok (x.store k), x);
  kv_set = λ k v. modify (write k v);
  gas_consumed = λ x. x.gas;
  consume_gas = λ g. modify (λ x. record x { gas = x.gas + g });
  with_min_gas_prices = λ _ x. x;
  with_priority = λ n x. record x { priority = n };
  format_int = format;
  parse_int = parse_number;
  addr_from_bech32 = λ _. ok 1;
  Tx = Transaction;
  is_fee_tx = λ _. true;
  get_gas = λ t. t.limit;
  get_fee = λ t. t.fee;
  fee_payer = λ t. t.payer;
  fee_granter = λ _. none;
  addr_eq = ◌==◌;
  get_account = λ a. pure (some a);
  use_granted_fees = λ _ _ _ _. pure tt;
  send_account_to_module = λ from to. send from (account_of to);
  send_module_to_module = λ from to. send (account_of from) (account_of to);
  send_module_to_account = λ from to. send (account_of from) to;
}

unfoldable pub chain-StoreLaws : StoreLaws
chain-StoreLaws = record {
  view = λ x. x.store;
  get_value = λ k x. (x, refl, λ _. refl, refl);
  set_value = λ k v x.
      (write k v x, refl, rw (bytes_eq_refl k) refl, λ j ne. rw (bytes_eq_ne j k ne) refl, refl);
  parse_int-format_int = parse-format;
}
  where
    parse-format : (n : ℤ) → parse_number (format n) ≡ ok n
    parse-format (pos n) = refl
    parse-format (negsuc n) = refl

-- A difference of coins that returns.
subtracts :
    (a b : Coin) {c : Coin}
    → chain.sub_coin a b ≡ some c
    → (a.denom ≡ b.denom) × (c ≡ record { denom = a.denom; amount = a.amount -ℤ b.amount })
subtracts a b e = elim (Bool-cases (str_eq a.denom b.denom)) [
  | inl same ↦ ((eq_iff a.denom b.denom).0 same, sym (some-injective _ _ (rw same at e)))
  | inr other ↦ absurd (none_ne (rw other at e))
]
  where
    none_ne : {c : Coin} → none ≡ some c → ⊥
    none_ne h = cc

pub chain-CoinLaws : CoinLaws fixed-MathLaws
unfolding fixed-MathLaws
chain-CoinLaws = record {
  new_coin_value = λ d a e. rw (← some-injective _ _ e) (refl, refl);
  is_gte_value = λ a b e. cc;
  sub_coin_value = λ a b e. rw ((subtracts a b e).1) (refl, refl);
}

add_none : (a : ℤ) → a +ℤ pos 0 ≡ a
add_none a = omega int_laws

unfoldable pub chain-BankLaws : BankLaws fixed-MathLaws
unfolding fixed-MathLaws same_number subtracts add_none
chain-BankLaws = record {
  balance = λ x. x.balances;
  module_address = account_of;
  addr_eq_refl = same_number;
  account_to_module_moves = λ from name cs x y e a d. moved from (account_of name) cs x y e a d;
  module_to_module_moves =
      λ from name cs x y e a d. moved (account_of from) (account_of name) cs x y e a d;
  module_to_account_moves = λ from to cs x y e a d. moved (account_of from) to cs x y e a d;
  account_address = λ a x e. sym (some-injective _ _ (ok_injective (ap (λ o. o.0) e)));
  kv_get_keeps = λ k x a d. refl;
  kv_set_keeps = λ k v x a d. refl;
  get_account_keeps = λ of x a d. refl;
  use_granted_fees_keeps = λ granter grantee cs tx x a d. refl;
  with_min_gas_prices_keeps = λ p x a d. refl;
  with_priority_keeps = λ n x a d. refl;
  new_coin_some = λ d a e. refl;
  new_coins_total = λ c e. (refl, λ d. total_one c d e);
  sub_coin_some = λ a b e. (refl, (subtracts a b e).0);
  empty_coin_worthless = inr refl;
}
  where
    moved :
        (from to : ℕ) (cs : Coins) (x y : Context)
        → send from to cs x ≡ (ok tt, y)
        → (a : ℕ) (d : String) → y.balances a d ≡ (move from to cs x).balances a d
    moved from to cs x y e a d = ap (λ z. z.balances a d) (sym (ap (λ o. o.1) e))

    total_one :
        (c : Coin) (d : String) {cs : Coins}
        → some (c ∷ []) ≡ some cs
        → total cs d ≡ (if str_eq c.denom d then c.amount else pos 0)
    total_one c d e = ap (λ cs. total cs d) (sym (some-injective _ _ e)) ∙ add_none _
