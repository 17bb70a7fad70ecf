-- ===== src/Tests/Payments.antt =====
-- Balances and deposits.
use drx_wallet.Base.{ℕ, ◌≡◌, refl, inl, inr, false, some, [], ◌∷◌, select, length, Has, arith}
use drx_wallet.Base.Int.{pos, negsuc, ◌+ℤ◌, ◌-ℤ◌, times}
use drx_wallet.Base.Outcome.{ok}
use drx_wallet.Schema.{Db, Withdrawal, WithdrawalTx, WithdrawalStatus, WithdrawalEvent, Note}
use drx_wallet.RawDb.Status.{is_in_tx}
use drx_wallet.RawDb.Balances.{update_withdrawal_tx_wallets, settle_withdrawal}
use drx_wallet.Ledger.{balance_of, drift, sum_amounts}
use drx_wallet.Ledger.Withdrawals.{update_withdrawal_tx_wallets-drift}
use drx_wallet.Ledger.Deposits.{drift-on_crawling_txs}
use drx_wallet.Ledger.Fees.{update_withdrawal_tx_wallets-fees}
use drx_wallet.Chain.{extract_recipient_addresses, extract_sender_addresses}
use drx_wallet.RawDb.Deposits.{Output, insert_deposits, insert_deposit}
use drx_wallet.Deposits.{ChainTx, on_crawling_txs, watched_outputs}
use drx_wallet.Deposits.Counting.{IsSingle, insert_deposits-IsSingle}
use drx_wallet.Deposits.Crawling.{on_crawling_txs_twice}
use drx_wallet.Lifecycle.Ticks.{commit}
use drx_wallet.Tests.Fixtures.{btc, registry, world, later_world, new_db}

-- A transaction of two withdrawals is verified.
abbrev batch_row : ℕ → ℕ → Withdrawal
batch_row id amount = record {
  id = id;
  user_id = 1;
  wallet_id = 1;
  currency = "btc";
  withdrawal_tx_id = 1;
  txid = "txid";
  from_address = "hot";
  to_address = "to";
  amount = pos amount;
  status = WithdrawalStatus.completed;
  note = Note.untagged;
  created_at = 5;
  updated_at = 5;
}

abbrev batch_tx : WithdrawalTx
batch_tx = record {
  id = 1;
  hot_wallet_address = "hot";
  txid = some "txid";
  status = WithdrawalStatus.completed;
  currency = "btc";
  unsigned_txid = "raw";
  unsigned_raw = "unsigned";
  signed_raw = some "signed";
  fee_amount = some (pos 7);
  created_at = 5;
  updated_at = 5;
}

abbrev batch_db : Db
batch_db = record new_db {
  withdrawals = batch_row 1 100 ∷ batch_row 2 50 ∷ [];
  withdrawal_txs = batch_tx ∷ [];
}

unfoldable settled_db : Db
unfolding update_withdrawal_tx_wallets
settled_db =
    commit
      (update_withdrawal_tx_wallets registry world batch_tx WithdrawalEvent.completed (pos 7)
        batch_db)
      batch_db

settled :
    update_withdrawal_tx_wallets registry world batch_tx WithdrawalEvent.completed (pos 7) batch_db
    ≡ ok settled_db
unfolding settled_db settle_withdrawal
settled = refl

batch_currency :
    (r : Withdrawal) → Has r batch_db.withdrawals → r.withdrawal_tx_id ≡ 1 → r.currency ≡ "btc"
batch_currency r m e = elim m [
  | inl a ↦ rw a refl
  | inr n ↦ elim n [ inl b ↦ rw b refl | inr k ↦ elim k [ ] ]
]

batch_owner :
    (r : Withdrawal)
    → Has r batch_db.withdrawals
    → r.withdrawal_tx_id ≡ 1
    → (r.wallet_id ≡ 1) × (r.currency ≡ "btc")
batch_owner r m e = elim m [
  | inl a ↦ rw a (refl, refl)
  | inr n ↦ elim n [ inl b ↦ rw b (refl, refl) | inr k ↦ elim k [ ] ]
]

update_withdrawal_tx_wallets-drift_example : drift 1 "btc" settled_db ≡ drift 1 "btc" batch_db
update_withdrawal_tx_wallets-drift_example =
    update_withdrawal_tx_wallets-drift registry world batch_tx WithdrawalEvent.completed (pos 7) 1
      "btc" batch_db refl batch_currency settled

update_withdrawal_tx_wallets-fees_example :
    (db : Db) × (update_withdrawal_tx_wallets registry world batch_tx WithdrawalEvent.completed
        (pos 7)
        batch_db
      ≡ ok db)
    × (balance_of 1 "btc" db
        ≡ balance_of 1 "btc" batch_db
          -ℤ sum_amounts (select (is_in_tx 1) batch_db.withdrawals)
          -ℤ times (length (select (is_in_tx 1) batch_db.withdrawals)) (pos 7))
update_withdrawal_tx_wallets-fees_example =
    update_withdrawal_tx_wallets-fees registry world batch_tx (pos 7) 1 "btc" btc refl refl batch_db
      refl batch_owner

-- 500 less 100, 50 and twice the fee of 7.
batch_balance : balance_of 1 "btc" settled_db ≡ pos 336
unfolding balance_of settled_db settle_withdrawal ◌+ℤ◌ ◌-ℤ◌
batch_balance = refl

-- A transaction that pays the wallet's address.
abbrev paying_tx : ChainTx
paying_tx = record {
  currency = "btc";
  txid = "pay";
  height = 10;
  timestamp = 20;
  confirmations = 6;
  is_failed = false;
  entries =
      record { address = "theirs"; amount = negsuc 9 }
      ∷ record { address = "mine"; amount = pos 8 }
      ∷ [];
}

abbrev paid : Output
paid = record {
  currency = "btc";
  txid = "pay";
  address = "mine";
  amount = pos 8;
  height = 10;
  timestamp = 20;
}

unfoldable paid_db : Db
unfolding on_crawling_txs
paid_db = commit (on_crawling_txs registry world 6 "btc" (paying_tx ∷ []) new_db) new_db

crawled : on_crawling_txs registry world 6 "btc" (paying_tx ∷ []) new_db ≡ ok paid_db
unfolding paid_db extract_recipient_addresses extract_sender_addresses watched_outputs
crawled = refl

on_crawling_txs_twice_example :
    on_crawling_txs registry later_world 6 "btc" (paying_tx ∷ []) paid_db ≡ ok paid_db
on_crawling_txs_twice_example =
    on_crawling_txs_twice registry world later_world 6 "btc" (paying_tx ∷ []) new_db crawled

drift-on_crawling_txs_example : drift 1 "btc" paid_db ≡ drift 1 "btc" new_db
drift-on_crawling_txs_example =
    drift-on_crawling_txs 1 "btc" registry world 6 "btc" (paying_tx ∷ []) new_db refl crawled

paid_balance : balance_of 1 "btc" paid_db ≡ pos 508
unfolding balance_of paid_db extract_recipient_addresses extract_sender_addresses watched_outputs
    ◌+ℤ◌
paid_balance = refl

unfoldable inserted_db : Db
inserted_db = commit (insert_deposits registry world (paid ∷ paid ∷ []) new_db) new_db

inserted : insert_deposits registry world (paid ∷ paid ∷ []) new_db ≡ ok inserted_db
unfolding inserted_db insert_deposit
inserted = refl

none-IsSingle : IsSingle new_db.deposits
unfolding IsSingle
none-IsSingle o = omega arith

insert_deposits-IsSingle_example : IsSingle inserted_db.deposits
insert_deposits-IsSingle_example =
    insert_deposits-IsSingle registry world (paid ∷ paid ∷ []) new_db inserted none-IsSingle
