-- ===== src/RawDb/Keys.antt =====
-- The keys of the tables, and updateRecordsTimestamp.ts.
use drx_wallet.Base.{ℕ, List, [], ◌∷◌}
use drx_wallet.Base.Outcome.{Outcome, ok, err, Error, ◌>>=◌}
use drx_wallet.Base.Saves.{update_ids}
use drx_wallet.Schema.{Db, World, Withdrawal, WithdrawalTx, Deposit, InternalTransfer}

abbrev pub withdrawal_key : Withdrawal → ℕ
withdrawal_key r = r.id

abbrev pub tx_key : WithdrawalTx → ℕ
tx_key r = r.id

abbrev pub deposit_key : Deposit → ℕ
deposit_key r = r.id

abbrev pub transfer_key : InternalTransfer → ℕ
transfer_key r = r.id

-- `EntityManager.update` over a list of keys: it refuses the empty list.
abbrev pub update_rows : {A : Type 0} → (A → ℕ) → List ℕ → (A → A) → List A → Outcome (List A)
update_rows key [] f rows = err Error.empty_criteria
update_rows key (k ∷ ks) f rows = ok (update_ids key (k ∷ ks) f rows)

-- `updateRecordsTimestamp(manager, Withdrawal, ids)`
unfoldable pub touch_withdrawals : World → List ℕ → Db → Outcome Db
touch_withdrawals w ids db = do
  rows ← update_rows withdrawal_key ids (λ r. record r { updated_at = w.now }) db.withdrawals
  ok (record db { withdrawals = rows })

-- `updateRecordsTimestamp(manager, WithdrawalTx, [id])`
unfoldable pub touch_withdrawal_tx : World → ℕ → Db → Db
touch_withdrawal_tx w id db = record db {
  withdrawal_txs =
      update_ids tx_key (id ∷ []) (λ r. record r { updated_at = w.now }) db.withdrawal_txs;
}

-- `updateRecordsTimestamp(manager, InternalTransfer, [id])`
unfoldable pub touch_internal_transfer : World → ℕ → Db → Db
touch_internal_transfer w id db = record db {
  internal_transfers =
      update_ids transfer_key (id ∷ []) (λ r. record r { updated_at = w.now })
        db.internal_transfers;
}

-- `updateRecordsTimestamp(manager, Deposit, ids)`
unfoldable pub touch_deposits : World → List ℕ → Db → Outcome Db
touch_deposits w ids db = do
  rows ← update_rows deposit_key ids (λ r. record r { updated_at = w.now }) db.deposits
  ok (record db { deposits = rows })
