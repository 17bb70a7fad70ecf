-- ===== src/RawDb/Status.antt =====
-- updateWithdrawalsStatus.ts and updateWithdrawalTxStatus.ts.
use drx_wallet.Base.{
  ℕ, Bool, Option, none, some, List, [], ◌∷◌, map, String, ◌==◌, if◌then◌else◌, select, find_first,
  update_where,
}
use drx_wallet.Base.Int.{ℤ}
use drx_wallet.Base.Outcome.{Outcome, ok, Error, ◌>>=◌, or_throw}
use drx_wallet.Base.Saves.{save_each}
use drx_wallet.Schema.{
  Db, World, Withdrawal, WithdrawalTx, WithdrawalStatus, WithdrawalEvent, LogData, WebhookType,
  WebhookEvent, has_status,
}
use drx_wallet.RawDb.Keys.{withdrawal_key}
use drx_wallet.RawDb.Logs.{insert_webhook_progress, insert_withdrawal_log}

-- A txid that is given replaces the old one.
abbrev pub or_else : Option String → String → String
or_else none old = old
or_else (some new) old = new

abbrev pub is_in_tx : ℕ → Withdrawal → Bool
is_in_tx tx_id r = r.withdrawal_tx_id == tx_id

abbrev pub set_withdrawal : World → WithdrawalStatus → Option String → Withdrawal → Withdrawal
set_withdrawal w status txid r = record r {
  status = status;
  txid = or_else txid r.txid;
  updated_at = w.now;
}

abbrev pub notify_each : World → WithdrawalEvent → List Withdrawal → Db → Db
notify_each w event [] db = db
notify_each w event (r ∷ rs) db = notify_each w event rs (
    insert_webhook_progress w r.user_id WebhookType.withdrawal r.id
      (WebhookEvent.withdrawal_event event) db)

abbrev pub log_each : World → WithdrawalEvent → LogData → List Withdrawal → Db → Db
log_each w event log_data [] db = db
log_each w event log_data (r ∷ rs) db =
    log_each w event log_data rs (insert_withdrawal_log w r.txid r.id event log_data db)

-- A withdrawal that has to be constructed again is noted with the transaction that it leaves.
abbrev pub note_of : WithdrawalStatus → ℕ → LogData
note_of status tx_id =
    if has_status status WithdrawalStatus.unsigned
    then LogData.of_withdrawal_tx tx_id
    else LogData.absent

-- The records of the transaction are saved, then the webhooks are queued, then the logs are written:
-- the calls for the records run side by side, one round trip after the other.
unfoldable pub update_withdrawals_status :
    World → ℕ → WithdrawalStatus → WithdrawalEvent → Option String → Db → Db
update_withdrawals_status w tx_id status event txid db =
    let records = select (is_in_tx tx_id) db.withdrawals in
    let saved : Db = record db {
      withdrawals = save_each withdrawal_key records (set_withdrawal w status txid) db.withdrawals;
    } in
    let new_records = map (set_withdrawal w status txid) records in
    log_each w event (note_of status tx_id) new_records (notify_each w event records saved)

abbrev some_or : {A : Type 0} → Option A → Option A → Option A
some_or none old = old
some_or (some new) old = some new

abbrev pub set_tx :
    World → WithdrawalStatus → Option String → Option ℤ → WithdrawalTx → WithdrawalTx
set_tx w status txid fee r = record r {
  status = status;
  txid = some_or txid r.txid;
  fee_amount = some_or fee r.fee_amount;
  updated_at = w.now;
}

abbrev pub has_tx_id : ℕ → WithdrawalTx → Bool
has_tx_id id r = r.id == id

-- A record that is not found is null, and setting its status throws.
unfoldable pub update_withdrawal_tx_status :
    World → ℕ → WithdrawalStatus → Option String → Option ℤ → Db → Outcome Db
update_withdrawal_tx_status w id status txid fee db = do
  found ← or_throw Error.null_reference (find_first (has_tx_id id) db.withdrawal_txs)
  ok (record db {
    withdrawal_txs = update_where (has_tx_id found.id) (set_tx w status txid fee) db.withdrawal_txs;
  })
