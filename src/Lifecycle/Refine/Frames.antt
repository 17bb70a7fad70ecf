-- ===== src/Lifecycle/Refine/Frames.antt =====
-- What the updates of RawDb leave alone, and what they are to the machine.
use drx_wallet.Base.{
  ℕ, ◌≡◌, refl, sym, ap, ◌∙◌, Option, none, some, List, [], ◌∷◌, map, String, select, find_first,
  update_where, find_first-Has, ==_iff,
}
use drx_wallet.Base.Int.{ℤ}
use drx_wallet.Base.Outcome.{ok, Error, or_throw, >>=-eq-ok, or_throw-eq-ok, ok-injective}
use drx_wallet.Base.Saves.{Unique, save_each, save_each-select}
use drx_wallet.Base.Views.{map-update_where, Unique-map_inv}
use drx_wallet.Schema.{
  Db, World, Withdrawal, WithdrawalTx, WithdrawalStatus, WithdrawalEvent, LogData, WithdrawalLog,
  WebhookProgress,
}
use drx_wallet.RawDb.Keys.{withdrawal_key}
use drx_wallet.RawDb.Logs.{insert_withdrawal_log, insert_webhook_progress}
use drx_wallet.RawDb.Status.{
  is_in_tx, note_of, set_withdrawal, set_tx, has_tx_id, or_else, notify_each, log_each,
  update_withdrawals_status, update_withdrawal_tx_status,
}
use drx_wallet.Lifecycle.{
  Machine, Request, Bundle, request_of, bundle_of, machine, request_id, is_request_of, is_bundle,
  move_request, move_bundle,
}

pub machine_eq :
    {rs rs' : List Request} {bs bs' : List Bundle}
    → rs ≡ rs'
    → bs ≡ bs'
    → ◌≡◌ {A = Machine}
        (record { requests = rs; bundles = bs })
        (record { requests = rs'; bundles = bs' })
machine_eq p q = λ i. record { requests = p i; bundles = q i }

-- An observation of the database that reads neither the logs nor the webhooks' progress.
pub record IsBlind {A : Type 0} (see : Db → A) : Type 0 where
  pub logs :
      (db : Db) (rows : List WithdrawalLog) → see (record db { withdrawal_logs = rows }) ≡ see db
  pub progresses :
      (db : Db) (rows : List WebhookProgress)
      → see (record db { webhook_progresses = rows }) ≡ see db

module _ {A : Type 0} (see : Db → A) (blind : IsBlind see) (w : World)
    (event : WithdrawalEvent) where
  notify_each_hidden : (rs : List Withdrawal) (db : Db) → see (notify_each w event rs db) ≡ see db
  unfolding insert_webhook_progress
  notify_each_hidden [] db = refl
  notify_each_hidden (r ∷ rs) db = notify_each_hidden rs _ ∙ blind.progresses db _

  log_each_hidden :
      (entry : LogData) (rs : List Withdrawal) (db : Db)
      → see (log_each w event entry rs db) ≡ see db
  unfolding insert_withdrawal_log
  log_each_hidden entry [] db = refl
  log_each_hidden entry (r ∷ rs) db = log_each_hidden entry rs _ ∙ blind.logs db _

  -- To such an observation `updateWithdrawalsStatus` only saves the withdrawals.
  pub update_withdrawals_status_seen :
      (tx_id : ℕ) (status : WithdrawalStatus) (txid : Option String) (db : Db)
      → see (update_withdrawals_status w tx_id status event txid db)
        ≡ see (record db {
          withdrawals =
              save_each withdrawal_key
                (select (is_in_tx tx_id) db.withdrawals)
                (set_withdrawal w status txid)
                db.withdrawals;
        })
  unfolding update_withdrawals_status
  update_withdrawals_status_seen tx_id status txid db =
      let records = select (is_in_tx tx_id) db.withdrawals in
      log_each_hidden (note_of status tx_id) (map (set_withdrawal w status txid) records) _
      ∙ notify_each_hidden records _

or_else_twice : (t : Option String) (old : String) → or_else t (or_else t old) ≡ or_else t old
or_else_twice none old = refl
or_else_twice (some new) old = refl

set_withdrawal_twice :
    (w : World) (status : WithdrawalStatus) (txid : Option String) (r : Withdrawal)
    → set_withdrawal w status txid (set_withdrawal w status txid r) ≡ set_withdrawal w status txid r
set_withdrawal_twice w status txid r =
    ap (λ t. record r { status = status; txid = t; updated_at = w.now }) (or_else_twice txid r.txid)

module _ (w : World) (tx_id : ℕ) (status : WithdrawalStatus) (event : WithdrawalEvent) where
  -- What `updateWithdrawalsStatus` is to the machine.
  pub machine-update_withdrawals_status :
      (txid : Option String) (db : Db)
      → Unique request_id (machine db).requests
      → machine (update_withdrawals_status w tx_id status event txid db) ≡ record {
        requests = update_where (is_request_of tx_id) (move_request status) (machine db).requests;
        bundles = (machine db).bundles;
      }
  machine-update_withdrawals_status txid db u =
      update_withdrawals_status_seen machine
        (record { logs = λ _ _. refl; progresses = λ _ _. refl }) w event tx_id status txid db
      ∙ machine_eq
          (ap (map request_of) (
              save_each-select withdrawal_key (is_in_tx tx_id) (set_withdrawal w status txid)
                db.withdrawals (Unique-map_inv request_of request_id db.withdrawals u) (λ r. refl)
                (set_withdrawal_twice w status txid))
            ∙ map-update_where request_of (is_in_tx tx_id) (set_withdrawal w status txid)
                (is_request_of tx_id) (move_request status) db.withdrawals (λ r. refl) (λ r. refl))
          refl

  -- Where `updateWithdrawalTxStatus` does not throw, it is one UPDATE.
  pub update_withdrawal_tx_status_lem :
      (txid : Option String) (fee : Option ℤ) (db : Db) {db' : Db}
      → update_withdrawal_tx_status w tx_id status txid fee db ≡ ok db'
      → db' ≡ record db {
        withdrawal_txs =
            update_where (has_tx_id tx_id) (set_tx w status txid fee) db.withdrawal_txs;
      }
  unfolding update_withdrawal_tx_status
  update_withdrawal_tx_status_lem txid fee db {db'} e =
      let (found, h, k) =
        >>=-eq-ok (or_throw Error.null_reference (find_first (has_tx_id tx_id) db.withdrawal_txs)) _
          e in
      let located = or_throw-eq-ok Error.null_reference _ h in
      let same : found.id ≡ tx_id =
        (==_iff found.id tx_id).0
          (find_first-Has (has_tx_id tx_id) found db.withdrawal_txs located).1 in
      sym (ok-injective _ _ k)
      ∙ ap
          (λ (j : ℕ). record db {
            withdrawal_txs =
                update_where (has_tx_id j) (set_tx w status txid fee) db.withdrawal_txs;
          })
          same

  pub set_tx_machine :
      (txid : Option String) (fee : Option ℤ) (rows : List WithdrawalTx)
      → map bundle_of (update_where (has_tx_id tx_id) (set_tx w status txid fee) rows)
        ≡ update_where (is_bundle tx_id) (move_bundle status) (map bundle_of rows)
  set_tx_machine txid fee rows =
      map-update_where bundle_of (has_tx_id tx_id) (set_tx w status txid fee) (is_bundle tx_id)
        (move_bundle status) rows (λ r. refl) (λ r. refl)
