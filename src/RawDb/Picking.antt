-- ===== src/RawDb/Picking.antt =====
-- getNextPickedWithdrawals.ts, insertWithdrawalTx.ts, doPickingWithdrawals.ts and
-- findWithdrawalTx.ts.
use drx_wallet.Base.{
  ℕ, Bool, ◌&&◌, Option, none, some, List, [], map, String, ltb, ◌==◌, str_eq, if◌then◌else◌,
  select, take, sort_by, find_oldest, insert_row,
}
use drx_wallet.Base.Outcome.{Outcome, ok, ◌>>=◌}
use drx_wallet.Schema.{
  Db, World, Registry, pending_count_query, on_platform, symbols_of_platform, Withdrawal,
  WithdrawalTx, WithdrawalStatus, WithdrawalEvent, LogData, has_status, HotWallet, RawTransaction,
}
use drx_wallet.RawDb.Keys.{withdrawal_key, tx_key, update_rows}
use drx_wallet.RawDb.Logs.{insert_withdrawal_logs}

abbrev pub withdrawal_age : Withdrawal → ℕ
withdrawal_age r = r.updated_at

abbrev pub is_unsigned_on : Registry → String → Withdrawal → Bool
is_unsigned_on reg platform r =
    on_platform reg platform r.currency && has_status r.status WithdrawalStatus.unsigned

-- The unsigned withdrawals of the same wallet and currency.
abbrev pub is_alike : Withdrawal → Withdrawal → Bool
is_alike first r =
    r.wallet_id == first.wallet_id
    && (str_eq r.currency first.currency && has_status r.status WithdrawalStatus.unsigned)

abbrev pub group_of : Option Withdrawal → List Withdrawal → List Withdrawal
group_of none rows = []
group_of (some first) rows = take 100 (sort_by withdrawal_age (select (is_alike first) rows))

unfoldable pub get_next_picked_withdrawals : Registry → World → String → Db → List Withdrawal
get_next_picked_withdrawals reg w platform db =
    if ltb 0 (w.run_count (pending_count_query (symbols_of_platform reg platform)) db.withdrawals)
    then []
    else group_of (find_oldest withdrawal_age (is_unsigned_on reg platform) db.withdrawals)
        db.withdrawals

-- The row that `doPickingWithdrawals` inserts.
abbrev pub new_withdrawal_tx :
    World → RawTransaction → HotWallet → String → List WithdrawalTx → WithdrawalTx
new_withdrawal_tx w unsigned_tx hot_wallet currency rows = record {
  id = w.new_id (map tx_key rows);
  hot_wallet_address = hot_wallet.address;
  txid = none;
  status = WithdrawalStatus.signing;
  currency = currency;
  unsigned_txid = unsigned_tx.txid;
  unsigned_raw = unsigned_tx.unsigned_raw;
  signed_raw = none;
  fee_amount = none;
  created_at = w.now;
  updated_at = w.now;
}

-- The columns that it sets on each withdrawal that is picked.
abbrev pub set_picked : World → ℕ → String → Withdrawal → Withdrawal
set_picked w tx_id from_address r = record r {
  withdrawal_tx_id = tx_id;
  status = WithdrawalStatus.signing;
  from_address = from_address;
  updated_at = w.now;
}

unfoldable pub do_picking_withdrawals :
    World → RawTransaction → HotWallet → String → List ℕ → Db → Outcome Db
unfolding insert_withdrawal_logs
do_picking_withdrawals w unsigned_tx hot_wallet currency ids db = do
  let tx = new_withdrawal_tx w unsigned_tx hot_wallet currency db.withdrawal_txs
  rows ← update_rows withdrawal_key ids (set_picked w tx.id hot_wallet.address) db.withdrawals
  ok (
      insert_withdrawal_logs w ids WithdrawalEvent.picked tx.id (LogData.of_txid tx.txid)
        (record db { withdrawal_txs = insert_row tx db.withdrawal_txs; withdrawals = rows }))

abbrev pub tx_age : WithdrawalTx → ℕ
tx_age r = r.updated_at

abbrev pub is_tx_at : Registry → String → WithdrawalStatus → WithdrawalTx → Bool
is_tx_at reg platform status r = on_platform reg platform r.currency && has_status r.status status

-- `findOneWithdrawalTx(manager, allSymbols, [status])`
unfoldable pub find_one_withdrawal_tx :
    Registry → String → WithdrawalStatus → Db → Option WithdrawalTx
find_one_withdrawal_tx reg platform status db =
    find_oldest tx_age (is_tx_at reg platform status) db.withdrawal_txs
