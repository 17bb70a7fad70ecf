-- ===== src/Lifecycle/Refine/Transfers.antt =====
-- The verification of transfers between wallets is not seen by the machine.
use drx_wallet.Base.{
  ℕ, ◌≡◌, sym, ap, ◌∙◌, inl, inr, Option, none, List, [], ◌∷◌, String, Bool-cases, Option-cases,
  find_first, select, str_eq,
}
use drx_wallet.Base.Int.{ℤ, ◌+ℤ◌}
use drx_wallet.Base.Outcome.{ok, Error, or_throw, >>=-eq-ok, ok-injective}
use drx_wallet.Schema.{
  Db, World, Registry, WithdrawalStatus, TransactionStatus, Gateway, InternalTransfer,
  InternalTransferType, CollectStatus, Deposit, DepositEvent,
}
use drx_wallet.RawDb.Keys.{touch_internal_transfer}
use drx_wallet.RawDb.Logs.{insert_deposit_log, deposit_user}
use drx_wallet.RawDb.Balances.{update_wallet_balance_only_fee, has_wallet, is_collected}
use drx_wallet.Workers.Internal.{
  verify_internal, verify_transfer_status, verify_kind, verify_collect, verify_seed,
  update_internal_transfer, update_deposit_collect_status, log_deposits, release_seeded,
  find_one_sent_transfer, is_seeding_log, is_in_transfer, awaits_seed, collect_event,
}
use drx_wallet.Lifecycle.{machine}

insert_deposit_log-machine :
    (w : World) (id : ℕ) (event : DepositEvent) (ref_id : ℕ) (user : Option ℕ) (db : Db) {db' : Db}
    → insert_deposit_log w id event ref_id user db ≡ ok db'
    → machine db' ≡ machine db
unfolding insert_deposit_log
insert_deposit_log-machine w id event ref_id user db e =
    let (u, h, k) = >>=-eq-ok (deposit_user id user db) _ e in ap machine (sym (ok-injective _ _ k))

log_deposits-machine :
    (w : World) (event : DepositEvent) (ref_id : ℕ) (ds : List Deposit) (db : Db) {db' : Db}
    → log_deposits w event ref_id ds db ≡ ok db'
    → machine db' ≡ machine db
log_deposits-machine w event ref_id [] db e = ap machine (sym (ok-injective _ _ e))
log_deposits-machine w event ref_id (d ∷ ds) db e =
    let (mid, h, k) = >>=-eq-ok (insert_deposit_log w d.id event ref_id none db) _ e in
    log_deposits-machine w event ref_id ds mid k
    ∙ insert_deposit_log-machine w d.id event ref_id none db h

module _ (reg : Registry) (w : World) (t : InternalTransfer) where
  update_internal_transfer-machine :
      (status : WithdrawalStatus) (fee : ℤ) (db : Db) {db' : Db}
      → update_internal_transfer reg w t status fee db ≡ ok db'
      → machine db' ≡ machine db
  unfolding update_internal_transfer
  update_internal_transfer-machine status fee db e =
      let (c, h, k) = >>=-eq-ok (reg.get_one_currency t.currency) _ e in
      ap machine (sym (ok-injective _ _ k))

  update_wallet_balance_only_fee-machine :
      (status : CollectStatus) (fee : ℤ) (db : Db) {db' : Db}
      → update_wallet_balance_only_fee reg w t status fee db ≡ ok db'
      → machine db' ≡ machine db
  unfolding update_wallet_balance_only_fee
  update_wallet_balance_only_fee-machine status fee db e =
      let (found, hf, k) =
        >>=-eq-ok
          (or_throw Error.wallet_balance_not_found
            (find_first (has_wallet t.wallet_id) db.wallet_balances))
          _ e in
      let (c, h, k₁) = >>=-eq-ok (reg.get_one_currency t.currency) _ k in
      ap machine (sym (ok-injective _ _ k₁))

  update_deposit_collect_status-machine :
      (status : CollectStatus) (db : Db) {db' : Db}
      → update_deposit_collect_status w t status db ≡ ok db'
      → machine db' ≡ machine db
  unfolding update_deposit_collect_status
  update_deposit_collect_status-machine status db e =
      let deposits = select (is_in_transfer t) db.deposits in
      let (logged, h, k) = >>=-eq-ok (log_deposits w (collect_event status) t.id deposits db) _ e in
      ap machine (sym (ok-injective _ _ k))
      ∙ log_deposits-machine w (collect_event status) t.id deposits db h

  verify_collect-machine :
      (status : WithdrawalStatus) (event : CollectStatus) (fee : ℤ) (db : Db) {db' : Db}
      → verify_collect reg w t status event fee db ≡ ok db'
      → machine db' ≡ machine db
  unfolding verify_collect
  verify_collect-machine status event fee db e = elim (Bool-cases (str_eq t.to_address "")) [
    | inl t₀ ↦ cc (rw t₀ at e)
    | inr n₀ ↦
        let (c, hc, k) = >>=-eq-ok (reg.get_one_currency t.currency) _ (rw n₀ at e) in
        let (a, ha, k₁) = >>=-eq-ok (update_internal_transfer reg w t status fee db) _ k in
        let (b, hb, k₂) = >>=-eq-ok (update_deposit_collect_status w t event a) _ k₁ in
        update_wallet_balance_only_fee-machine event _ b k₂
        ∙ update_deposit_collect_status-machine event a hb
        ∙ update_internal_transfer-machine status fee db ha
  ]

  release_seeded-machine :
      (id : ℕ) (event : CollectStatus) (waiting : List Deposit) (db : Db) {db' : Db}
      → release_seeded w t id event waiting db ≡ ok db'
      → machine db' ≡ machine db
  release_seeded-machine id event waiting db e = elim (Bool-cases (is_collected event)) [
    | inl c ↦ insert_deposit_log-machine w id DepositEvent.seeded t.id none _ (rw c at e)
    | inr n ↦ ap machine (sym (ok-injective _ _ (rw n at e)))
  ]

  verify_seed-machine :
      (status : WithdrawalStatus) (event : CollectStatus) (fee : ℤ) (db : Db) {db' : Db}
      → verify_seed reg w t status event fee db ≡ ok db'
      → machine db' ≡ machine db
  unfolding verify_seed
  verify_seed-machine status event fee db e =
      let (seeding, hs, k) =
        >>=-eq-ok
          (or_throw Error.not_a_seeding_tx (find_first (is_seeding_log t.txid) db.deposit_logs)) _
          e in
      let (c, hc, k₀) = >>=-eq-ok (reg.get_one_currency t.currency) _ k in
      let (a, ha, k₁) = >>=-eq-ok (update_internal_transfer reg w t status fee db) _ k₀ in
      let (b, hb, k₂) =
        >>=-eq-ok (update_wallet_balance_only_fee reg w t event (t.amount +ℤ fee) a) _ k₁ in
      release_seeded-machine seeding.deposit_id event
        (select (awaits_seed reg c.platform t) db.deposits) b k₂
      ∙ update_wallet_balance_only_fee-machine event (t.amount +ℤ fee) a hb
      ∙ update_internal_transfer-machine status fee db ha

  verify_kind-machine :
      (kind : InternalTransferType) (status : WithdrawalStatus) (event : CollectStatus) (fee : ℤ)
      (db : Db) {db' : Db}
      → verify_kind reg w t kind status event fee db ≡ ok db'
      → machine db' ≡ machine db
  verify_kind-machine InternalTransferType.collect status event fee db e =
      verify_collect-machine status event fee db e
  verify_kind-machine InternalTransferType.seed status event fee db e =
      verify_seed-machine status event fee db e

  verify_transfer_status-machine :
      (g : Gateway) (status : TransactionStatus) (db : Db) {db' : Db}
      → verify_transfer_status reg w g t status db ≡ ok db'
      → machine db' ≡ machine db
  unfolding touch_internal_transfer
  verify_transfer_status-machine g TransactionStatus.unknown db e =
      ap machine (sym (ok-injective _ _ e))
  verify_transfer_status-machine g TransactionStatus.confirming db e =
      ap machine (sym (ok-injective _ _ e))
  verify_transfer_status-machine g TransactionStatus.failed db e =
      let (fee, h, k) = >>=-eq-ok (g.get_network_fee t.txid) _ e in
      verify_kind-machine t.type WithdrawalStatus.failed CollectStatus.uncollected fee db k
  verify_transfer_status-machine g TransactionStatus.completed db e =
      let (fee, h, k) = >>=-eq-ok (g.get_network_fee t.txid) _ e in
      verify_kind-machine t.type WithdrawalStatus.completed CollectStatus.collected fee db k

-- The withdrawals and their transactions are as before.
pub verify_internal-machine :
    (reg : Registry) (w : World) (platform : String) (db : Db) {db' : Db}
    → verify_internal reg w platform db ≡ ok db'
    → machine db' ≡ machine db
unfolding verify_internal
verify_internal-machine reg w platform db e =
    elim (Option-cases (find_one_sent_transfer reg platform db)) [
      | inl nothing ↦ ap machine (sym (ok-injective _ _ (rw nothing at e)))
      | inr (t, found) ↦
          let (c, hc, k) = >>=-eq-ok (reg.get_one_currency t.currency) _ (rw found at e) in
          let g = w.gateway_of c.symbol in
          let (status, hs, k₁) = >>=-eq-ok (g.get_transaction_status t.txid) _ k in
          verify_transfer_status-machine reg w t g status db k₁
    ]
