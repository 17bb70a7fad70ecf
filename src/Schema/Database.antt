-- ===== src/Schema/Database.antt =====
-- The database: its tables, and what a worker's tick is given besides it: the clock, the keys that
-- the database generates, the registered currencies and the gateways to the networks.
use drx_wallet.Base.{
  ℕ, ◌<◌, ◌≡◌, String, Option, List, [], ◌∷◌, Bool, true, false, map, str_eq, ◌||◌, Has,
}
use drx_wallet.Base.Int.{ℤ}
use drx_wallet.Base.Outcome.{Outcome, ok}
use drx_wallet.Base.Saves.{contains}
use drx_wallet.Schema.Enums.{TransactionStatus, WithdrawalStatus, is_pending}
use drx_wallet.Schema.Entities.{
  Withdrawal, WithdrawalTx, Deposit, InternalTransfer, WithdrawalLog, DepositLog,
}
use drx_wallet.Schema.Wallets.{
  Wallet, Address, HotWallet, ColdWallet, WalletBalance, WalletLog, Webhook, WebhookProgress,
  WebhookLog,
}

pub record Db : Type 0 where
  pub withdrawals : List Withdrawal
  pub withdrawal_txs : List WithdrawalTx
  pub withdrawal_logs : List WithdrawalLog
  pub deposits : List Deposit
  pub deposit_logs : List DepositLog
  pub internal_transfers : List InternalTransfer
  pub wallets : List Wallet
  pub addresses : List Address
  pub hot_wallets : List HotWallet
  pub cold_wallets : List ColdWallet
  pub wallet_balances : List WalletBalance
  pub wallet_logs : List WalletLog
  pub webhooks : List Webhook
  pub webhook_progresses : List WebhookProgress
  pub webhook_logs : List WebhookLog

-- `ICurrency`
pub record Currency : Type 0 where
  pub symbol : String
  pub network_symbol : String
  pub platform : String
  pub is_utxo_based : Bool
  pub is_native : Bool
  pub human_readable_scale : ℕ
  pub native_scale : ℕ

pub record Registry : Type 0 where
  pub get_one_currency : String → Outcome Currency
  pub get_currencies_of_platform : String → List Currency

abbrev pub contains_text : String → List String → Bool
contains_text s [] = false
contains_text s (t ∷ ts) = str_eq s t || contains_text s ts

abbrev symbol_of : Currency → String
symbol_of c = c.symbol

-- `CurrencyRegistry.getCurrenciesOfPlatform(platform).map(c => c.symbol)`
abbrev pub symbols_of_platform : Registry → String → List String
symbols_of_platform reg platform = map symbol_of (reg.get_currencies_of_platform platform)

abbrev pub on_platform : Registry → String → String → Bool
on_platform reg platform symbol = contains_text symbol (symbols_of_platform reg platform)

-- No symbol is registered on two platforms.
pub record IsDisjoint (reg : Registry) : Type 0 where
  pub one_platform :
      (p q symbol : String)
      → on_platform reg p symbol ≡ true
      → on_platform reg q symbol ≡ true
      → p ≡ q

-- A registered symbol finds the currency of that symbol.
pub record IsNamed (reg : Registry) : Type 0 where
  pub own_symbol :
      (platform symbol : String) {c : Currency}
      → on_platform reg platform symbol ≡ true
      → reg.get_one_currency symbol ≡ ok c
      → c.symbol ≡ symbol

pub record RawVout : Type 0 where
  pub to_address : String
  pub amount : ℤ

pub record RawTransaction : Type 0 where
  pub txid : String
  pub unsigned_raw : String

pub record SignedTransaction : Type 0 where
  pub txid : String
  pub signed_raw : String

-- The calls of `BaseGateway` and its two kinds of children. Each may throw; `none` is a result that
-- is null.
pub record Gateway : Type 0 where
  pub get_address_balance : String → Outcome ℤ
  pub get_transaction_status : String → Outcome TransactionStatus
  pub get_network_fee : String → Outcome ℤ
  pub construct_utxo_transaction : String → List RawVout → Outcome (Option RawTransaction)
  pub construct_account_transaction :
      String → String → ℤ → Option String → Outcome (Option RawTransaction)
  pub sign_raw_transaction : String → String → Outcome SignedTransaction
  pub send_raw_transaction : String → Outcome (Option String)

-- The calls of the query builder for the count of pending withdrawals: the texts and the lists of the
-- operators `In` that they get.
pub record CountQuery : Type 0 where
  pub where_text : String
  pub where_in : List String
  pub and_where_text : String
  pub and_where_in : List WithdrawalStatus
  pub select_text : String

abbrev pub pending_count_query : List String → CountQuery
pending_count_query symbols = record {
  where_text = "currency";
  where_in = symbols;
  and_where_text = "status";
  and_where_in = WithdrawalStatus.sent ∷ WithdrawalStatus.signed ∷ WithdrawalStatus.signing ∷ [];
  select_text = "DISTINCT currency";
}

pub record World : Type 0 where
  pub now : ℕ
  pub new_id : List ℕ → ℕ
  pub gateway_of : String → Gateway
  pub run_count : CountQuery → List Withdrawal → ℕ

-- The count of `getNextPickedWithdrawals` is positive where a withdrawal of one of the currencies is
-- being signed or sent. The query hands the operator `In` to `where` as parameters of the text `currency`:
-- what it counts is for the query builder to say.
pub record CountsPending (w : World) : Type 0 where
  pub counted :
      (symbols : List String) (rows : List Withdrawal) (r : Withdrawal)
      → w.run_count (pending_count_query symbols) rows ≡ 0
      → Has r rows
      → contains_text r.currency symbols ≡ true
      → is_pending r.status ≡ false

-- A generated key is positive and differs from those in the table.
pub record IsFresh (w : World) : Type 0 where
  pub positive : (ids : List ℕ) → 0 < w.new_id ids
  pub unused : (ids : List ℕ) → contains (w.new_id ids) ids ≡ false
