-- ===== src/Collection/Endings.antt =====
-- The verifier's end of a collection: just what the collector marked.
use drx_wallet.Base.{
  ℕ, ◌≡◌, refl, sym, ap, ◌∙◌, inl, inr, Bool, true, false, Option, none, List, [], ◌∷◌, str_eq,
  Bool-cases, Has, select, find_first, update_where,
}
use text.Mathlib.TextPositions.{eq_refl}
use drx_wallet.Base.Int.{ℤ}
use drx_wallet.Base.Outcome.{ok, Error, or_throw, >>=-eq-ok, ok-injective}
use drx_wallet.Base.Saves.{update_ids, contains}
use drx_wallet.Schema.{
  Db, World, Registry, Deposit, DepositEvent, CollectStatus, CollectedTxid, InternalTransfer,
  WithdrawalStatus,
}
use drx_wallet.RawDb.Keys.{deposit_key}
use drx_wallet.RawDb.Logs.{insert_deposit_log, deposit_user}
use drx_wallet.RawDb.Balances.{update_wallet_balance_only_fee, has_wallet}
use drx_wallet.Workers.Internal.{
  update_internal_transfer, is_in_transfer, collect_event, log_deposits, set_collected,
  update_deposit_collect_status, verify_collect,
}
use drx_wallet.Workers.Collector.{set_collecting}

abbrev deposits_of : Db → List Deposit
deposits_of db = db.deposits

-- A second update of the rows that the first one changed.
update_where_twice :
    {A : Type 0} (p q : A → Bool) (f g : A → A) (xs : List A)
    → ((x : A) → p x ≡ true → q (f x) ≡ true)
    → ((x : A) → Has x xs → q x ≡ false)
    → update_where q g (update_where p f xs) ≡ update_where p (λ x. g (f x)) xs
update_where_twice p q f g [] hit miss = refl
update_where_twice p q f g (x ∷ xs) hit miss =
    let rest = update_where_twice p q f g xs hit (λ y m. miss y (inr m)) in
    elim (Bool-cases (p x)) [
      | inl t ↦ rw (t, hit x t) (ap (λ r. g (f x) ∷ r) rest)
      | inr n ↦ rw (n, miss x (inl refl)) (ap (λ r. x ∷ r) rest)
    ]

insert_deposit_log-deposits :
    (w : World) (id : ℕ) (event : DepositEvent) (ref_id : ℕ) (user : Option ℕ) (db : Db) {db' : Db}
    → insert_deposit_log w id event ref_id user db ≡ ok db'
    → db'.deposits ≡ db.deposits
unfolding insert_deposit_log
insert_deposit_log-deposits w id event ref_id user db e =
    let (u, h, k) = >>=-eq-ok (deposit_user id user db) _ e in
    ap deposits_of (sym (ok-injective _ _ k))

log_deposits-deposits :
    (w : World) (event : DepositEvent) (ref_id : ℕ) (ds : List Deposit) (db : Db) {db' : Db}
    → log_deposits w event ref_id ds db ≡ ok db'
    → db'.deposits ≡ db.deposits
log_deposits-deposits w event ref_id [] db e = ap deposits_of (sym (ok-injective _ _ e))
log_deposits-deposits w event ref_id (d ∷ ds) db e =
    let (mid, h, k) = >>=-eq-ok (insert_deposit_log w d.id event ref_id none db) _ e in
    log_deposits-deposits w event ref_id ds mid k
    ∙ insert_deposit_log-deposits w d.id event ref_id none db h

module _ (reg : Registry) (w : World) (t : InternalTransfer) where
  update_deposit_collect_status-deposits :
      (status : CollectStatus) (db : Db) {db' : Db}
      → update_deposit_collect_status w t status db ≡ ok db'
      → db'.deposits ≡ update_where (is_in_transfer t) (set_collected t status) db.deposits
  unfolding update_deposit_collect_status
  update_deposit_collect_status-deposits status db e =
      let deposits = select (is_in_transfer t) db.deposits in
      let (logged, h, k) = >>=-eq-ok (log_deposits w (collect_event status) t.id deposits db) _ e in
      ap deposits_of (sym (ok-injective _ _ k))
      ∙ ap (update_where (is_in_transfer t) (set_collected t status))
          (log_deposits-deposits w (collect_event status) t.id deposits db h)

  verify_collect-deposits :
      (status : WithdrawalStatus) (event : CollectStatus) (fee : ℤ) (db : Db) {db' : Db}
      → verify_collect reg w t status event fee db ≡ ok db'
      → db'.deposits ≡ update_where (is_in_transfer t) (set_collected t event) db.deposits
  unfolding verify_collect update_internal_transfer update_wallet_balance_only_fee
  verify_collect-deposits status event fee db e = elim (Bool-cases (str_eq t.to_address "")) [
    | inl empty ↦ cc (rw empty at e)
    | inr address ↦
        let (c, named, k) = >>=-eq-ok (reg.get_one_currency t.currency) _ (rw address at e) in
        let (verified, hv, k1) = >>=-eq-ok (update_internal_transfer reg w t status fee db) _ k in
        let (collected, hc, k2) =
          >>=-eq-ok (update_deposit_collect_status w t event verified) _ k1 in
        let (c1, n1, v1) = >>=-eq-ok (reg.get_one_currency t.currency) _ hv in
        let (found, hf, k3) =
          >>=-eq-ok
            (or_throw Error.wallet_balance_not_found
              (find_first (has_wallet t.wallet_id) collected.wallet_balances))
            _ k2 in
        let (c2, n2, k4) = >>=-eq-ok (reg.get_one_currency t.currency) _ k3 in
        ap deposits_of (sym (ok-injective _ _ k4))
        ∙ (update_deposit_collect_status-deposits event verified hc
            ∙ ap (λ (x : Db). update_where (is_in_transfer t) (set_collected t event) x.deposits)
                (sym (ok-injective _ _ v1)))
  ]

  -- Where no deposit carries the txid yet, the collector marks the deposits of some keys with it, and the
  -- verification of the transfer with that txid does not throw, just these deposits get the status of the
  -- verification, the txid and the time of the transfer, and the time when they were marked, and every other
  -- deposit is as before the collection.
  pub verify_collect-set_collecting :
      (before : World) (ids : List ℕ) (status : WithdrawalStatus) (event : CollectStatus) (fee : ℤ)
      (db : Db) {db' : Db}
      → ((d : Deposit) → Has d db.deposits → is_in_transfer t d ≡ false)
      → verify_collect reg w t status event fee (record db {
        deposits = update_ids deposit_key ids (set_collecting before t.txid) db.deposits;
      })
        ≡ ok db'
      → db'.deposits
        ≡ update_ids deposit_key ids
            (λ d. record d {
              collect_status = event;
              collected_txid = CollectedTxid.in_tx t.txid;
              collected_timestamp = t.updated_at;
              updated_at = before.now;
            })
            db.deposits
  verify_collect-set_collecting before ids status event fee db unused e =
      verify_collect-deposits status event fee
        (record db {
          deposits = update_ids deposit_key ids (set_collecting before t.txid) db.deposits;
        })
        e
      ∙ update_where_twice (λ d. contains d.id ids) (is_in_transfer t)
          (set_collecting before t.txid) (set_collected t event) db.deposits (λ d m. eq_refl t.txid)
          unused
