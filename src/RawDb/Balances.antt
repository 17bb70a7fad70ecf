-- ===== src/RawDb/Balances.antt =====
-- findWalletBalance.ts, increaseWalletBalance.ts, updateWithdrawalTxWallets.ts and
-- updateWalletBalanceOnlyFee.ts: the changes of the balances, each with its log.
use drx_wallet.Base.{
  ℕ, Bool, true, false, ◌&&◌, Option, List, [], ◌∷◌, String, ◌==◌, str_eq, if◌then◌else◌, select,
  find_first, update_where,
}
use drx_wallet.Base.Int.{ℤ, pos, ◌+ℤ◌, neg_ℤ}
use drx_wallet.Base.Outcome.{Outcome, ok, Error, ◌>>=◌, or_throw}
use drx_wallet.Schema.{
  Db, World, Registry, Withdrawal, WithdrawalTx, WithdrawalEvent, WalletEvent, WalletBalance,
  LogEvent, InternalTransfer, CollectStatus,
}
use drx_wallet.RawDb.Logs.{insert_wallet_log}
use drx_wallet.RawDb.Status.{is_in_tx}

-- The row of a wallet and a currency, the primary key of the table.
abbrev pub is_balance_of : ℕ → String → WalletBalance → Bool
is_balance_of wallet_id currency b = b.wallet_id == wallet_id && str_eq b.currency currency

unfoldable pub find_wallet_balance : String → ℕ → Db → Option WalletBalance
find_wallet_balance currency wallet_id db =
    find_first (is_balance_of wallet_id currency) db.wallet_balances

abbrev pub add_to_balance : World → ℤ → WalletBalance → WalletBalance
add_to_balance w change b = record b { balance = b.balance +ℤ change; updated_at = w.now }

-- UPDATE wallet_balance SET balance = balance + change WHERE wallet_id AND currency
unfoldable pub change_balance : World → ℕ → String → ℤ → Db → Db
change_balance w wallet_id currency change db = record db {
  wallet_balances =
      update_where (is_balance_of wallet_id currency) (add_to_balance w change) db.wallet_balances;
}

unfoldable pub increase_wallet_balance : World → ℕ → String → ℤ → Db → Db
unfolding change_balance
increase_wallet_balance w wallet_id currency amount db =
    change_balance w wallet_id currency amount db

abbrev pub is_completed : WithdrawalEvent → Bool
is_completed WithdrawalEvent.completed = true
is_completed _ = false

abbrev pub has_wallet : ℕ → WalletBalance → Bool
has_wallet wallet_id b = b.wallet_id == wallet_id

abbrev pub settle_row : World → ℤ → ℤ → WalletBalance → WalletBalance
settle_row w change total b = record b {
  balance = b.balance +ℤ change;
  withdrawal_total = b.withdrawal_total +ℤ total;
  updated_at = w.now;
}

-- The same UPDATE with the total that was withdrawn.
unfoldable pub settle_balance : World → ℕ → String → ℤ → ℤ → Db → Db
settle_balance w wallet_id currency change total db = record db {
  wallet_balances =
      update_where (is_balance_of wallet_id currency) (settle_row w change total)
        db.wallet_balances;
}

abbrev pub withdrawal_change : WithdrawalEvent → ℤ → ℤ
withdrawal_change event amount = if is_completed event then neg_ℤ amount else pos 0

abbrev pub withdrawal_total_change : WithdrawalEvent → ℤ → ℤ
withdrawal_total_change event amount = if is_completed event then amount else pos 0

abbrev wallet_event_of : WithdrawalEvent → WalletEvent
wallet_event_of event =
    if is_completed event then WalletEvent.withdraw_completed else WalletEvent.withdraw_failed

-- The body of the loop of `updateWithdrawalTxWallets`: `fee_wallet` is the wallet of the first
-- withdrawal. The amount leaves the row of the withdrawal's currency, the fee that of its platform.
unfoldable pub settle_withdrawal :
    Registry → World → WithdrawalTx → WithdrawalEvent → ℤ → ℕ → Withdrawal → Db → Outcome Db
unfolding change_balance settle_balance insert_wallet_log
settle_withdrawal reg w tx event fee fee_wallet r db = do
  found ←
      or_throw Error.wallet_balance_not_found
        (find_first (has_wallet r.wallet_id) db.wallet_balances)
  currency ← reg.get_one_currency r.currency
  let moved =
      settle_balance w r.wallet_id r.currency (withdrawal_change event r.amount)
        (withdrawal_total_change event r.amount) db
  let charged = change_balance w fee_wallet currency.platform (neg_ℤ fee) moved
  let fee_logged =
      insert_wallet_log w fee_wallet currency.platform
        (LogEvent.wallet_event WalletEvent.withdraw_fee) (neg_ℤ fee) tx.id charged
  ok (
      insert_wallet_log w found.wallet_id tx.currency
        (LogEvent.wallet_event (wallet_event_of event)) (withdrawal_change event r.amount) r.id
        fee_logged)

abbrev pub settle_each :
    Registry → World → WithdrawalTx → WithdrawalEvent → ℤ → ℕ → List Withdrawal → Db → Outcome Db
settle_each reg w tx event fee fee_wallet [] db = ok db
settle_each reg w tx event fee fee_wallet (r ∷ rs) db =
    settle_withdrawal reg w tx event fee fee_wallet r db
    >>= settle_each reg w tx event fee fee_wallet rs

abbrev pub settle_all :
    Registry → World → WithdrawalTx → WithdrawalEvent → ℤ → List Withdrawal → Db → Outcome Db
settle_all reg w tx event fee [] db = ok db
settle_all reg w tx event fee (r ∷ rs) db = settle_each reg w tx event fee r.wallet_id (r ∷ rs) db

unfoldable pub update_withdrawal_tx_wallets :
    Registry → World → WithdrawalTx → WithdrawalEvent → ℤ → Db → Outcome Db
update_withdrawal_tx_wallets reg w tx event fee db =
    settle_all reg w tx event fee (select (is_in_tx tx.id) db.withdrawals) db

abbrev pub is_collected : CollectStatus → Bool
is_collected CollectStatus.collected = true
is_collected _ = false

abbrev pub fee_change : CollectStatus → ℤ → ℤ
fee_change status fee = if is_collected status then neg_ℤ fee else pos 0

-- The log names the currency of the transfer, the balance is that of its platform.
unfoldable pub update_wallet_balance_only_fee :
    Registry → World → InternalTransfer → CollectStatus → ℤ → Db → Outcome Db
unfolding change_balance insert_wallet_log
update_wallet_balance_only_fee reg w transfer status fee db = do
  found ←
      or_throw Error.wallet_balance_not_found
        (find_first (has_wallet transfer.wallet_id) db.wallet_balances)
  currency ← reg.get_one_currency transfer.currency
  let charged = change_balance w transfer.wallet_id currency.platform (fee_change status fee) db
  ok (
      insert_wallet_log w transfer.wallet_id transfer.currency
        (LogEvent.transfer_event transfer.type) (fee_change status fee) transfer.id charged)
