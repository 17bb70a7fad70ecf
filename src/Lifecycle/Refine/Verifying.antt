-- ===== src/Lifecycle/Refine/Verifying.antt =====
-- A tick of the verifier is a step of the machine from `sent` to `completed` or `failed`, or is not
-- seen: the machine knows nothing of balances, deposits and transfers.
use drx_wallet.Base.{
  Bool, true, refl, ℕ, ◌≡◌, ◌≢◌, ◌⊎◌, sym, ap, ◌∙◌, subst, inl, inr, none, some, List, [], ◌∷◌,
  String, Option-cases, update_where, find_first, select, Has,
}
use drx_wallet.Base.Int.{ℤ}
use drx_wallet.Base.Outcome.{ok, Error, or_throw, >>=-eq-ok, ok-injective}
use drx_wallet.Base.Saves.{Unique}
use drx_wallet.Schema.{
  Db, World, Registry, Withdrawal, WithdrawalTx, WithdrawalStatus, WithdrawalEvent,
  TransactionStatus, Gateway, IsFinal,
}
use drx_wallet.RawDb.Picking.{find_one_withdrawal_tx}
use drx_wallet.RawDb.Status.{update_withdrawal_tx_status, update_withdrawals_status, is_in_tx}
use drx_wallet.RawDb.Balances.{
  update_withdrawal_tx_wallets, settle_withdrawal, settle_each, settle_all, has_wallet,
}
use drx_wallet.Workers.Verifier.{verifier_do_process, verify_status, finish_withdrawal, text_of}
use drx_wallet.Lifecycle.{
  Machine, machine, bundle_of, request_id, is_bundle, move_bundle, moved_machine, ◌⟶◌, complete,
  fail, Steps,
}
use drx_wallet.Lifecycle.Refine.Frames.{
  machine_eq, machine-update_withdrawals_status, update_withdrawal_tx_status_lem, set_tx_machine,
}
use drx_wallet.Lifecycle.Refine.Transfers.{verify_internal-machine}
use drx_wallet.Lifecycle.Refine.Moves.{
  find_one_withdrawal_tx_lem, machine-touch_withdrawal_tx, no_Steps, move_Steps, past_signing,
}

module _ (reg : Registry) (w : World) where
  -- Settling writes the balances and their logs only.
  settle_withdrawal-machine :
      (tx : WithdrawalTx) (event : WithdrawalEvent) (fee : ℤ) (fee_wallet : ℕ) (r : Withdrawal)
      (db : Db) {db' : Db}
      → settle_withdrawal reg w tx event fee fee_wallet r db ≡ ok db'
      → machine db' ≡ machine db
  unfolding settle_withdrawal
  settle_withdrawal-machine tx event fee fee_wallet r db e =
      let (found, hf, k) =
        >>=-eq-ok
          (or_throw Error.wallet_balance_not_found
            (find_first (has_wallet r.wallet_id) db.wallet_balances))
          _ e in
      let (c, hc, k₁) = >>=-eq-ok (reg.get_one_currency r.currency) _ k in
      ap machine (sym (ok-injective _ _ k₁))

  settle_each-machine :
      (tx : WithdrawalTx) (event : WithdrawalEvent) (fee : ℤ) (fee_wallet : ℕ)
      (rs : List Withdrawal) (db : Db) {db' : Db}
      → settle_each reg w tx event fee fee_wallet rs db ≡ ok db'
      → machine db' ≡ machine db
  settle_each-machine tx event fee fee_wallet [] db e = ap machine (sym (ok-injective _ _ e))
  settle_each-machine tx event fee fee_wallet (r ∷ rs) db e =
      let (mid, h, k) = >>=-eq-ok (settle_withdrawal reg w tx event fee fee_wallet r db) _ e in
      settle_each-machine tx event fee fee_wallet rs mid k
      ∙ settle_withdrawal-machine tx event fee fee_wallet r db h

  settle_all-machine :
      (tx : WithdrawalTx) (event : WithdrawalEvent) (fee : ℤ) (rs : List Withdrawal) (db : Db)
      {db' : Db}
      → settle_all reg w tx event fee rs db ≡ ok db'
      → machine db' ≡ machine db
  settle_all-machine tx event fee [] db e = ap machine (sym (ok-injective _ _ e))
  settle_all-machine tx event fee (r ∷ rs) db e =
      settle_each-machine tx event fee r.wallet_id (r ∷ rs) db e

  -- Settling a transaction moves it and its withdrawals.
  finish_withdrawal-machine :
      (tx : WithdrawalTx) (status : WithdrawalStatus) (event : WithdrawalEvent) (fee : ℤ) (db : Db)
      {db' : Db}
      → Unique request_id (machine db).requests
      → finish_withdrawal reg w tx status event fee db ≡ ok db'
      → machine db' ≡ moved_machine tx.id status (machine db)
  unfolding finish_withdrawal update_withdrawal_tx_wallets
  finish_withdrawal-machine tx status event fee db {db'} u e =
      let first = update_withdrawals_status w tx.id status event none db in
      let (moved, hm, k) =
        >>=-eq-ok (update_withdrawal_tx_status w tx.id status none (some fee) first) _ e in
      let one = update_withdrawal_tx_status_lem w tx.id status event none (some fee) first hm in
      let requests_moved = machine-update_withdrawals_status w tx.id status event none db u in
      settle_all-machine tx event fee (select (is_in_tx tx.id) moved.withdrawals) moved k
      ∙ ap machine one
      ∙ machine_eq (ap (λ (m : Machine). m.requests) requests_moved) (
          set_tx_machine w tx.id status event none (some fee) first.withdrawal_txs
          ∙ ap (λ (m : Machine). update_where (is_bundle tx.id) (move_bundle status) m.bundles)
              requests_moved)

  -- What the verifier makes of a status: nothing that the machine sees, or the end of the transaction.
  pub verify_status-machine :
      (g : Gateway) (tx : WithdrawalTx) (txid : String) (status : TransactionStatus) (db : Db)
      {db' : Db}
      → Unique request_id (machine db).requests
      → verify_status reg w g tx txid status db ≡ ok db'
      → (machine db' ≡ machine db)
        ⊎ (IsFinal status
            × ((end : WithdrawalStatus) × (machine db' ≡ moved_machine tx.id end (machine db))))
  verify_status-machine g tx txid TransactionStatus.unknown db u e =
      inl (ap machine (sym (ok-injective _ _ e)) ∙ machine-touch_withdrawal_tx w tx.id db)
  verify_status-machine g tx txid TransactionStatus.confirming db u e =
      inl (ap machine (sym (ok-injective _ _ e)) ∙ machine-touch_withdrawal_tx w tx.id db)
  verify_status-machine g tx txid TransactionStatus.failed db u e =
      let (fee, h, k) = >>=-eq-ok (g.get_network_fee txid) _ e in
      inr (
        (λ q. cc q, λ q. cc q),
        (
          WithdrawalStatus.failed,
          finish_withdrawal-machine tx WithdrawalStatus.failed WithdrawalEvent.failed fee db u k,
        ),
      )
  verify_status-machine g tx txid TransactionStatus.completed db u e =
      let (fee, h, k) = >>=-eq-ok (g.get_network_fee txid) _ e in
      inr (
        (λ q. cc q, λ q. cc q),
        (
          WithdrawalStatus.completed,
          finish_withdrawal-machine tx WithdrawalStatus.completed WithdrawalEvent.completed fee db u
              k,
        ),
      )

module _ (reg : Registry) (strict : Bool) (w : World) where
  finish_withdrawal-Steps :
      (tx : WithdrawalTx) (status : WithdrawalStatus) (event : WithdrawalEvent) (fee : ℤ) (db : Db)
      {db' : Db}
      → Unique request_id (machine db).requests
      → Has tx db.withdrawal_txs
      → tx.status ⟶ status
      → tx.status ≢ WithdrawalStatus.signing
      → finish_withdrawal reg w tx status event fee db ≡ ok db'
      → Steps reg strict true (machine db) (machine db')
  finish_withdrawal-Steps tx status event fee db {db'} u there edge past e =
      move_Steps reg strict true db (machine db') tx status there edge
        (past_signing (machine db) (bundle_of tx) past) (λ f. refl)
        (finish_withdrawal-machine reg w tx status event fee db u e)

  verify_status-Steps :
      (g : Gateway) (tx : WithdrawalTx) (txid : String) (status : TransactionStatus) (db : Db)
      {db' : Db}
      → Unique request_id (machine db).requests
      → Has tx db.withdrawal_txs
      → tx.status ≡ WithdrawalStatus.sent
      → verify_status reg w g tx txid status db ≡ ok db'
      → Steps reg strict true (machine db) (machine db')
  verify_status-Steps g tx txid TransactionStatus.unknown db {db'} u there at e =
      no_Steps reg strict true (machine db) (machine db')
        (ap machine (sym (ok-injective _ _ e)) ∙ machine-touch_withdrawal_tx w tx.id db)
  verify_status-Steps g tx txid TransactionStatus.confirming db {db'} u there at e =
      no_Steps reg strict true (machine db) (machine db')
        (ap machine (sym (ok-injective _ _ e)) ∙ machine-touch_withdrawal_tx w tx.id db)
  verify_status-Steps g tx txid TransactionStatus.failed db u there at e =
      let (fee, h, k) = >>=-eq-ok (g.get_network_fee txid) _ e in
      finish_withdrawal-Steps tx WithdrawalStatus.failed WithdrawalEvent.failed fee db u there
        (subst (λ s. s ⟶ WithdrawalStatus.failed) (sym at) fail) (λ q. cc (q, at)) k
  verify_status-Steps g tx txid TransactionStatus.completed db u there at e =
      let (fee, h, k) = >>=-eq-ok (g.get_network_fee txid) _ e in
      finish_withdrawal-Steps tx WithdrawalStatus.completed WithdrawalEvent.completed fee db u there
        (subst (λ s. s ⟶ WithdrawalStatus.completed) (sym at) complete) (λ q. cc (q, at)) k

  -- Where a tick of the verifier does not throw and the keys of the withdrawals are unique, what it
  -- writes is a path of steps of the machine: a bundle moves from sent to completed or failed, or
  -- nothing that the machine sees.
  pub verifier_do_process-Steps :
      (platform : String) (db : Db) {db' : Db}
      → Unique request_id (machine db).requests
      → verifier_do_process reg w platform db ≡ ok db'
      → Steps reg strict true (machine db) (machine db')
  unfolding verifier_do_process
  verifier_do_process-Steps platform db {db'} u e =
      elim (Option-cases (find_one_withdrawal_tx reg platform WithdrawalStatus.sent db)) [
        | inl nothing ↦
            no_Steps reg strict true (machine db) (machine db')
              (verify_internal-machine reg w platform db (rw nothing at e))
        | inr (tx, found) ↦
            let (there, at) =
              find_one_withdrawal_tx_lem reg platform WithdrawalStatus.sent db tx found in
            let (c, hc, k) = >>=-eq-ok (reg.get_one_currency tx.currency) _ (rw found at e) in
            let g = w.gateway_of c.symbol in
            let (status, hs, k₁) = >>=-eq-ok (g.get_transaction_status (text_of tx.txid)) _ k in
            verify_status-Steps g tx (text_of tx.txid) status db u there at k₁
      ]
