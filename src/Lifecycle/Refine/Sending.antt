-- ===== src/Lifecycle/Refine/Sending.antt =====
-- A tick of the sender is a step of the machine from `signed` to `sent` or back to `unsigned`, or is
-- not seen.
use drx_wallet.Base.{
  Bool, ◌≡◌, refl, sym, ap, ◌∙◌, subst, inl, inr, Option, none, some, String, Bool-cases,
  Option-cases, update_where, Has,
}
use drx_wallet.Base.Outcome.{Outcome, ok, err, >>=-eq-ok, ok-injective}
use drx_wallet.Base.Saves.{Unique}
use drx_wallet.Schema.{
  Db, World, Registry, WithdrawalTx, WithdrawalStatus, WithdrawalEvent, TransactionStatus, Gateway,
}
use drx_wallet.RawDb.Picking.{find_one_withdrawal_tx}
use drx_wallet.RawDb.Status.{
  update_withdrawal_tx_status, update_withdrawals_status, set_tx, has_tx_id,
}
use drx_wallet.Workers.Sender.{
  sender_do_process, send_with, status_reply, submit, submit_reply, mark_sent, mark_failed,
  update_both, is_temporary, settled_or, raw_of,
}
use drx_wallet.Lifecycle.{machine, bundle_of, request_id, ◌⟶◌, send, take_back, Steps}
use drx_wallet.Lifecycle.Refine.Frames.{
  machine_eq, machine-update_withdrawals_status, update_withdrawal_tx_status_lem, set_tx_machine,
}
use drx_wallet.Lifecycle.Refine.Moves.{
  find_one_withdrawal_tx_lem, no_Steps, move_Steps, past_signing, from_signed,
}

module _ (reg : Registry) (strict : Bool) (ends : Bool) (w : World) (tx : WithdrawalTx) (db : Db)
    (u : Unique request_id (machine db).requests) (there : Has tx db.withdrawal_txs)
    (at : tx.status ≡ WithdrawalStatus.signed) where
  -- The two updates together move the bundle.
  update_both-Steps :
      (txid : String) (status : WithdrawalStatus) (event : WithdrawalEvent) {db' : Db}
      → WithdrawalStatus.signed ⟶ status
      → update_both w tx txid status event db ≡ ok db'
      → Steps reg strict ends (machine db) (machine db')
  unfolding update_both
  update_both-Steps txid status event {db'} edge e =
      let (moved, hm, k) =
        >>=-eq-ok (update_withdrawal_tx_status w tx.id status (some txid) none db) _ e in
      let one = update_withdrawal_tx_status_lem w tx.id status event (some txid) none db hm in
      let after : Db = record db {
        withdrawal_txs =
            update_where (has_tx_id tx.id) (set_tx w status (some txid) none) db.withdrawal_txs;
      } in
      move_Steps reg strict ends db (machine db') tx status there
        (subst (λ s. s ⟶ status) (sym at) edge)
        (past_signing (machine db) (bundle_of tx) (λ e. cc (e, at))) (from_signed edge)
        (ap machine (
            sym (ok-injective _ _ k)
            ∙ ap (λ (x : Db). update_withdrawals_status w tx.id status event (some txid) x) one)
          ∙ machine-update_withdrawals_status w tx.id status event (some txid) after u
          ∙ machine_eq refl
              (set_tx_machine w tx.id status event (some txid) none db.withdrawal_txs))

  mark_sent-Steps :
      (txid : String) {db' : Db}
      → mark_sent w tx txid db ≡ ok db'
      → Steps reg strict ends (machine db) (machine db')
  mark_sent-Steps txid e = update_both-Steps txid WithdrawalStatus.sent WithdrawalEvent.sent send e

  unseen :
      {db' : Db}
      → ◌≡◌ {A = Outcome Db} (ok db) (ok db')
      → Steps reg strict ends (machine db) (machine db')
  unseen {db'} e =
      no_Steps reg strict ends (machine db) (machine db') (ap machine (sym (ok-injective _ _ e)))

  submit_reply-Steps :
      (reply : Outcome (Option String)) {db' : Db}
      → submit_reply w tx reply db ≡ ok db'
      → Steps reg strict ends (machine db) (machine db')
  submit_reply-Steps (err x) e = unseen e
  submit_reply-Steps (ok none) e = unseen e
  submit_reply-Steps (ok (some txid)) e = mark_sent-Steps txid e

  submit-Steps :
      (g : Gateway) {db' : Db}
      → submit w g tx db ≡ ok db'
      → Steps reg strict ends (machine db) (machine db')
  submit-Steps g e = submit_reply-Steps (g.send_raw_transaction (raw_of tx.signed_raw)) e

  either_Steps :
      (first : Outcome Db) (g : Gateway) {db' : Db}
      → ((db'' : Db) → first ≡ ok db'' → Steps reg strict ends (machine db) (machine db''))
      → settled_or first (submit w g tx db) ≡ ok db'
      → Steps reg strict ends (machine db) (machine db')
  either_Steps (ok x) g path e = path _ e
  either_Steps (err x) g path e = submit-Steps g e

  status_reply-Steps :
      (g : Gateway) (txid : String) (reply : Outcome TransactionStatus) {db' : Db}
      → status_reply w g tx txid reply db ≡ ok db'
      → Steps reg strict ends (machine db) (machine db')
  status_reply-Steps g txid (ok TransactionStatus.completed) e =
      either_Steps (mark_sent w tx txid db) g (λ x h. mark_sent-Steps txid h) e
  status_reply-Steps g txid (ok TransactionStatus.confirming) e =
      either_Steps (mark_sent w tx txid db) g (λ x h. mark_sent-Steps txid h) e
  status_reply-Steps g txid (ok TransactionStatus.failed) e =
      either_Steps (mark_failed w tx txid db) g
        (λ x h.
          update_both-Steps txid WithdrawalStatus.unsigned WithdrawalEvent.txid_changed take_back h)
        e
  status_reply-Steps g txid (ok TransactionStatus.unknown) e = submit-Steps g e
  status_reply-Steps g txid (err x) e = submit-Steps g e

  send_with-Steps :
      (g : Gateway) (txid : Option String) {db' : Db}
      → send_with w g tx txid db ≡ ok db'
      → Steps reg strict ends (machine db) (machine db')
  send_with-Steps g none e = cc
  send_with-Steps g (some txid) e = elim (Bool-cases (is_temporary txid)) [
    | inl t ↦ submit-Steps g (rw t at e)
    | inr n ↦ status_reply-Steps g txid (g.get_transaction_status txid) (rw n at e)
  ]

module _ (reg : Registry) (strict : Bool) (ends : Bool) (w : World) where
  -- Where a tick of the sender does not throw and the keys of the withdrawals are unique, what it writes
  -- is a path of steps of the machine: a bundle moves from signed to sent, or back to unsigned, or
  -- nothing that the machine sees.
  pub sender_do_process-Steps :
      (platform : String) (db : Db) {db' : Db}
      → Unique request_id (machine db).requests
      → sender_do_process reg w platform db ≡ ok db'
      → Steps reg strict ends (machine db) (machine db')
  unfolding sender_do_process
  sender_do_process-Steps platform db {db'} u e =
      elim (Option-cases (find_one_withdrawal_tx reg platform WithdrawalStatus.signed db)) [
        | inl nothing ↦
            no_Steps reg strict ends (machine db) (machine db')
              (ap machine (sym (ok-injective _ _ (rw nothing at e))))
        | inr (tx, found) ↦
            let (there, at) =
              find_one_withdrawal_tx_lem reg platform WithdrawalStatus.signed db tx found in
            let (c, hc, k) = >>=-eq-ok (reg.get_one_currency tx.currency) _ (rw found at e) in
            send_with-Steps reg strict ends w tx db u there at (w.gateway_of c.symbol) tx.txid k
      ]
