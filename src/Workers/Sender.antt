-- ===== src/Workers/Sender.antt =====
-- senderDoProcess.ts. `reconstructWithdrawal` is called nowhere, and is left out.
use drx_wallet.Base.{Bool, true, false, Option, none, some, String, if◌then◌else◌}
use drx_wallet.Base.Outcome.{Outcome, ok, err, Error, ◌>>=◌}
use drx_wallet.Schema.{
  Db, World, Registry, WithdrawalTx, WithdrawalStatus, WithdrawalEvent, TransactionStatus, Gateway,
}
use drx_wallet.RawDb.Picking.{find_one_withdrawal_tx}
use drx_wallet.RawDb.Status.{update_withdrawal_tx_status, update_withdrawals_status}
use text.Mathlib.Text.{find?}

-- `updateWithdrawalAndWithdrawalTx`, for the new status and its event.
unfoldable pub update_both :
    World → WithdrawalTx → String → WithdrawalStatus → WithdrawalEvent → Db → Outcome Db
unfolding update_withdrawal_tx_status update_withdrawals_status
update_both w tx txid status event db = do
  moved ← update_withdrawal_tx_status w tx.id status (some txid) none db
  ok (update_withdrawals_status w tx.id status event (some txid) moved)

abbrev pub mark_sent : World → WithdrawalTx → String → Db → Outcome Db
mark_sent w tx txid db = update_both w tx txid WithdrawalStatus.sent WithdrawalEvent.sent db

-- A transaction that failed is taken back: the withdrawal is unsigned again.
abbrev pub mark_failed : World → WithdrawalTx → String → Db → Outcome Db
mark_failed w tx txid db =
    update_both w tx txid WithdrawalStatus.unsigned WithdrawalEvent.txid_changed db

abbrev pub submit_reply : World → WithdrawalTx → Outcome (Option String) → Db → Outcome Db
submit_reply w tx (err e) db = ok db
submit_reply w tx (ok none) db = ok db
submit_reply w tx (ok (some txid)) db = mark_sent w tx txid db

abbrev pub raw_of : Option String → String
raw_of none = "null"
raw_of (some raw) = raw

-- `gateway.sendRawTransaction`; an error and an empty reply are logged, and the tick ends.
abbrev pub submit : World → Gateway → WithdrawalTx → Db → Outcome Db
submit w g tx db = submit_reply w tx (g.send_raw_transaction (raw_of tx.signed_raw)) db

-- What the `try` block makes of the reply: an error of the update is caught there too.
abbrev pub settled_or : Outcome Db → Outcome Db → Outcome Db
settled_or (ok db) other = ok db
settled_or (err e) other = other

abbrev pub status_reply :
    World → Gateway → WithdrawalTx → String → Outcome TransactionStatus → Db → Outcome Db
status_reply w g tx txid (ok TransactionStatus.completed) db =
    settled_or (mark_sent w tx txid db) (submit w g tx db)
status_reply w g tx txid (ok TransactionStatus.confirming) db =
    settled_or (mark_sent w tx txid db) (submit w g tx db)
status_reply w g tx txid (ok TransactionStatus.failed) db =
    settled_or (mark_failed w tx txid db) (submit w g tx db)
status_reply w g tx txid (ok TransactionStatus.unknown) db = submit w g tx db
status_reply w g tx txid (err e) db = submit w g tx db

abbrev pub is_temporary : String → Bool
is_temporary txid = elim (find? txid "TMP_") [ none ↦ false | some i ↦ true ]

-- A txid that is null has no `indexOf`.
abbrev pub send_with : World → Gateway → WithdrawalTx → Option String → Db → Outcome Db
send_with w g tx none db = err Error.null_reference
send_with w g tx (some txid) db =
    if is_temporary txid
    then submit w g tx db
    else status_reply w g tx txid (g.get_transaction_status txid) db

abbrev pub send_found : Registry → World → Option WithdrawalTx → Db → Outcome Db
send_found reg w none db = ok db
send_found reg w (some tx) db = do
  c ← reg.get_one_currency tx.currency
  send_with w (w.gateway_of c.symbol) tx tx.txid db

-- `_senderDoProcess`
unfoldable pub sender_do_process : Registry → World → String → Db → Outcome Db
sender_do_process reg w platform db =
    send_found reg w (find_one_withdrawal_tx reg platform WithdrawalStatus.signed db) db
