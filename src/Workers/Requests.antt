-- ===== src/Workers/Requests.antt =====
-- `insertWithdrawalRecord` of libs/wallet-core/src/hd_wallet/DBUtils.ts: how a user's withdrawal
-- comes into the table.
use drx_wallet.Base.{ℕ, Option, none, some, List, map, String, insert_row, str_eq, if◌then◌else◌}
use drx_wallet.Base.Int.{ℤ}
use drx_wallet.Schema.{Db, World, Withdrawal, WithdrawalStatus, Note}
use drx_wallet.RawDb.Keys.{withdrawal_key}
use drx_wallet.RawDb.Threshold.{default_user_id}
use drx_wallet.Workers.Picker.{tmp_address}

abbrev pub note_with : Option String → Note
note_with none = Note.untagged
note_with (some tag) = if str_eq tag "" then Note.untagged else Note.tagged tag

abbrev pub new_withdrawal :
    World → String → ℕ → String → ℤ → Option String → String → List Withdrawal → Withdrawal
new_withdrawal w coin wallet_id to_address amount tag tmp_txid rows = record {
  id = w.new_id (map withdrawal_key rows);
  user_id = default_user_id;
  wallet_id = wallet_id;
  currency = coin;
  withdrawal_tx_id = 0;
  txid = tmp_txid;
  from_address = tmp_address;
  to_address = to_address;
  amount = amount;
  status = WithdrawalStatus.unsigned;
  note = note_with tag;
  created_at = w.now;
  updated_at = w.now;
}

-- The temporary txid, a fixed text followed by the address and the time, is an argument.
unfoldable pub insert_withdrawal_record :
    World → String → ℕ → String → ℤ → Option String → String → Db → Db
insert_withdrawal_record w coin wallet_id to_address amount tag tmp_txid db = record db {
  withdrawals =
      insert_row (new_withdrawal w coin wallet_id to_address amount tag tmp_txid db.withdrawals)
        db.withdrawals;
}
