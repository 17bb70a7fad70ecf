-- ===== src/Schema/Entities.antt =====
-- The entities of withdrawals, deposits and transfers, with the columns that the modelled code reads
-- or writes. Amounts are whole numbers of the smallest unit that the currency has; times are in
-- milliseconds. `null` is `none`.
use drx_wallet.Base.{ℕ, String, Option, none, some}
use drx_wallet.Base.Int.{ℤ}
use drx_wallet.Schema.Enums.{
  WithdrawalStatus, WithdrawalEvent, DepositEvent, CollectStatus, InternalTransferType, NotCollect,
}

-- What the text column `Withdrawal.note` holds: the mark of a transfer to the cold wallet, a JSON
-- object with a tag, or anything else.
pub data Note : Type 0 where
  cold_wallet : Note
  tagged : String → Note
  untagged : Note

pub record Withdrawal : Type 0 where
  pub id : ℕ
  pub user_id : ℕ
  pub wallet_id : ℕ
  pub currency : String
  pub withdrawal_tx_id : ℕ
  pub txid : String
  pub from_address : String
  pub to_address : String
  pub amount : ℤ
  pub status : WithdrawalStatus
  pub note : Note
  pub created_at : ℕ
  pub updated_at : ℕ

abbrev tag_of : Note → Option String
tag_of cold_wallet = none
tag_of (tagged t) = some t
tag_of untagged = none

-- `Withdrawal.getTag`
unfoldable pub get_tag : Withdrawal → Option String
get_tag w = tag_of w.note

pub record WithdrawalTx : Type 0 where
  pub id : ℕ
  pub hot_wallet_address : String
  pub txid : Option String
  pub status : WithdrawalStatus
  pub currency : String
  pub unsigned_txid : String
  pub unsigned_raw : String
  pub signed_raw : Option String
  pub fee_amount : Option ℤ
  pub created_at : ℕ
  pub updated_at : ℕ

-- `Deposit.collectedTxid`: empty, the txid of the collecting transaction, or a reason against it.
pub data CollectedTxid : Type 0 where
  empty : CollectedTxid
  in_tx : String → CollectedTxid
  not_collected : NotCollect → CollectedTxid

pub record Deposit : Type 0 where
  pub id : ℕ
  pub wallet_id : ℕ
  pub currency : String
  pub to_address : String
  pub txid : String
  pub amount : ℤ
  pub block_number : ℕ
  pub block_timestamp : ℕ
  pub collect_status : CollectStatus
  pub collected_txid : CollectedTxid
  pub collected_timestamp : ℕ
  pub created_at : ℕ
  pub updated_at : ℕ

pub record InternalTransfer : Type 0 where
  pub id : ℕ
  pub wallet_id : ℕ
  pub currency : String
  pub type : InternalTransferType
  pub from_address : String
  pub to_address : String
  pub txid : String
  pub amount : ℤ
  pub fee : ℤ
  pub status : WithdrawalStatus
  pub fee_currency : String
  pub created_at : ℕ
  pub updated_at : ℕ

-- `WithdrawalLog.data`: absent, a txid, or the text `withdrawal_tx_id=…`.
pub data LogData : Type 0 where
  absent : LogData
  of_txid : Option String → LogData
  of_withdrawal_tx : ℕ → LogData

pub record WithdrawalLog : Type 0 where
  pub withdrawal_id : ℕ
  pub ref_id : ℕ
  pub event : WithdrawalEvent
  pub log_data : LogData
  pub created_at : ℕ

pub record DepositLog : Type 0 where
  pub deposit_id : ℕ
  pub event : DepositEvent
  pub ref_id : ℕ
  pub txid : Option String
  pub created_at : ℕ
