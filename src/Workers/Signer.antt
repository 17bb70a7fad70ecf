-- ===== src/Workers/Signer.antt =====
-- signerDoProcess.ts.
use drx_wallet.Base.{ℕ, Option, none, some, String, if◌then◌else◌, update_where}
use drx_wallet.Base.Outcome.{Outcome, ok, err, Error, ◌>>=◌}
use drx_wallet.Schema.{
  Db, World, Registry, Withdrawal, WithdrawalTx, WithdrawalStatus, SignedTransaction, HotWallet,
  is_signed_or_sent,
}
use drx_wallet.RawDb.Keys.{touch_withdrawal_tx}
use drx_wallet.RawDb.Picking.{find_one_withdrawal_tx}
use drx_wallet.RawDb.Status.{is_in_tx, has_tx_id}
use drx_wallet.RawDb.HotWallets.{get_one_hot_wallet, check_hot_wallet_is_busy}

abbrev pub set_signed_tx : World → SignedTransaction → WithdrawalTx → WithdrawalTx
set_signed_tx w signed r = record r {
  status = WithdrawalStatus.signed;
  txid = some signed.txid;
  signed_raw = some signed.signed_raw;
  updated_at = w.now;
}

-- The update of the withdrawals is a plain UPDATE, which leaves their times alone.
abbrev pub set_signed : SignedTransaction → Withdrawal → Withdrawal
set_signed signed r = record r { status = WithdrawalStatus.signed; txid = signed.txid }

unfoldable pub store_signed : World → ℕ → SignedTransaction → Db → Db
store_signed w tx_id signed db = record db {
  withdrawal_txs = update_where (has_tx_id tx_id) (set_signed_tx w signed) db.withdrawal_txs;
  withdrawals = update_where (is_in_tx tx_id) (set_signed signed) db.withdrawals;
}

abbrev pub sign_with : World → WithdrawalTx → String → HotWallet → Db → Outcome Db
sign_with w tx symbol hot_wallet db = do
  signed ← (w.gateway_of symbol).sign_raw_transaction tx.unsigned_raw hot_wallet.secret
  ok (store_signed w tx.id signed db)

abbrev pub sign_found : Registry → World → Option WithdrawalTx → Db → Outcome Db
sign_found reg w none db = ok db
sign_found reg w (some tx) db = do
  c ← reg.get_one_currency tx.currency
  hot_wallet ← get_one_hot_wallet c.platform tx.hot_wallet_address db
  if check_hot_wallet_is_busy hot_wallet is_signed_or_sent db
      then ok (touch_withdrawal_tx w tx.id db)
      else if hot_wallet.is_normal
      then sign_with w tx c.symbol hot_wallet db
      else err Error.unsupported_hot_wallet

-- `_signerDoProcess`
unfoldable pub signer_do_process : Registry → World → String → Db → Outcome Db
signer_do_process reg w platform db =
    sign_found reg w (find_one_withdrawal_tx reg platform WithdrawalStatus.signing db) db
