-- ===== src/Workers/Verifier.antt =====
-- verifierDoProcess.ts: a sent withdrawal is checked first; only where there is none, a transfer
-- between wallets.
use drx_wallet.Base.{Option, none, some, String}
use drx_wallet.Base.Int.{ℤ}
use drx_wallet.Base.Outcome.{Outcome, ok, ◌>>=◌}
use drx_wallet.Schema.{
  Db, World, Registry, WithdrawalTx, WithdrawalStatus, WithdrawalEvent, TransactionStatus, Gateway,
}
use drx_wallet.RawDb.Keys.{touch_withdrawal_tx}
use drx_wallet.RawDb.Picking.{find_one_withdrawal_tx}
use drx_wallet.RawDb.Status.{update_withdrawal_tx_status, update_withdrawals_status}
use drx_wallet.RawDb.Balances.{update_withdrawal_tx_wallets}
use drx_wallet.Workers.Internal.{verify_internal}

-- The three updates of `verifierWithdrawalDoProcess`. The txid of a sent transaction is set.
unfoldable pub finish_withdrawal :
    Registry → World → WithdrawalTx → WithdrawalStatus → WithdrawalEvent → ℤ → Db → Outcome Db
unfolding update_withdrawal_tx_status update_withdrawals_status update_withdrawal_tx_wallets
finish_withdrawal reg w tx status event fee db = do
  moved ←
      update_withdrawal_tx_status w tx.id status none (some fee)
        (update_withdrawals_status w tx.id status event none db)
  update_withdrawal_tx_wallets reg w tx event fee moved

abbrev pub verify_status :
    Registry → World → Gateway → WithdrawalTx → String → TransactionStatus → Db → Outcome Db
verify_status reg w g tx txid TransactionStatus.unknown db = ok (touch_withdrawal_tx w tx.id db)
verify_status reg w g tx txid TransactionStatus.confirming db = ok (touch_withdrawal_tx w tx.id db)
verify_status reg w g tx txid TransactionStatus.failed db = do
  fee ← g.get_network_fee txid
  finish_withdrawal reg w tx WithdrawalStatus.failed WithdrawalEvent.failed fee db
verify_status reg w g tx txid TransactionStatus.completed db = do
  fee ← g.get_network_fee txid
  finish_withdrawal reg w tx WithdrawalStatus.completed WithdrawalEvent.completed fee db

abbrev pub text_of : Option String → String
text_of none = "null"
text_of (some s) = s

-- `verifierWithdrawalDoProcess`
unfoldable pub verify_withdrawal : Registry → World → WithdrawalTx → Db → Outcome Db
verify_withdrawal reg w tx db = do
  c ← reg.get_one_currency tx.currency
  let g = w.gateway_of c.symbol
  status ← g.get_transaction_status (text_of tx.txid)
  verify_status reg w g tx (text_of tx.txid) status db

abbrev pub verify_found : Registry → World → String → Option WithdrawalTx → Db → Outcome Db
verify_found reg w platform (some tx) db = verify_withdrawal reg w tx db
verify_found reg w platform none db = verify_internal reg w platform db

-- `_verifierDoProcess`
unfoldable pub verifier_do_process : Registry → World → String → Db → Outcome Db
unfolding verify_withdrawal
verifier_do_process reg w platform db =
    verify_found reg w platform (find_one_withdrawal_tx reg platform WithdrawalStatus.sent db) db
