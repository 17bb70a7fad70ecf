-- ===== src/Lifecycle/Refine/Signing.antt =====
-- A tick of the signer is a step of the machine from `signing` to `signed`, or is not seen.
use drx_wallet.Base.{
  Bool, ℕ, ◌≡◌, refl, sym, ap, ◌∙◌, subst, inl, inr, some, String, Bool-cases, Option-cases, Has,
  update_where, true, false, str_eq, eq_iff, ◌&&◌, &&-eq-true, find_first-Has, count_where_none,
  not_positive, ||-eq-false,
}
use drx_wallet.Base.Outcome.{ok, Error, or_throw-eq-ok, >>=-eq-ok, ok-injective}
use drx_wallet.Base.Views.{map-update_where, Has-map_inv}
use drx_wallet.Schema.{
  Db, World, Registry, WithdrawalTx, WithdrawalStatus, SignedTransaction, HotWallet, Withdrawal,
  is_signed_or_sent,
}
use drx_wallet.RawDb.Picking.{find_one_withdrawal_tx}
use drx_wallet.RawDb.Status.{is_in_tx, has_tx_id}
use drx_wallet.RawDb.HotWallets.{get_one_hot_wallet, check_hot_wallet_is_busy}
use drx_wallet.Workers.Signer.{
  signer_do_process, sign_found, store_signed, set_signed, set_signed_tx,
}
use drx_wallet.Lifecycle.{
  request_of, bundle_of, machine, is_request_of, is_bundle, move_request, move_bundle, ◌⟶◌, sign,
  Steps, IsFree, Request,
}
use drx_wallet.Lifecycle.Refine.Frames.{machine_eq}
use drx_wallet.Lifecycle.Refine.Moves.{
  find_one_withdrawal_tx_lem, machine-touch_withdrawal_tx, no_Steps, move_Steps, early_status,
}

machine-store_signed :
    (w : World) (id : ℕ) (signed : SignedTransaction) (db : Db)
    → machine (store_signed w id signed db) ≡ record {
      requests =
          update_where
            (is_request_of id)
            (move_request WithdrawalStatus.signed)
            (machine db).requests;
      bundles =
          update_where (is_bundle id) (move_bundle WithdrawalStatus.signed) (machine db).bundles;
    }
unfolding store_signed
machine-store_signed w id signed db =
    machine_eq
      (map-update_where request_of (is_in_tx id) (set_signed signed) (is_request_of id) _
        db.withdrawals (λ r. refl) (λ r. refl))
      (map-update_where bundle_of (has_tx_id id) (set_signed_tx w signed) (is_bundle id) _
        db.withdrawal_txs (λ r. refl) (λ r. refl))

-- The wallet that is found has the address that was asked for.
get_one_hot_wallet_lem :
    (currency address : String) (db : Db) {h : HotWallet}
    → get_one_hot_wallet currency address db ≡ ok h
    → h.address ≡ address
unfolding get_one_hot_wallet
get_one_hot_wallet_lem currency address db {h} e =
    let (there, passes) =
      find_first-Has _ h db.hot_wallets (or_throw-eq-ok Error.hot_wallet_not_found _ e) in
    (eq_iff h.address address).0
      (&&-eq-true (str_eq h.currency currency) (str_eq h.address address) passes).1

-- Where `checkHotWalletIsBusy` answers no, no withdrawal from the wallet is signed or sent.
not_busy_lem :
    (h : HotWallet) (tx : WithdrawalTx) (db : Db)
    → h.address ≡ tx.hot_wallet_address
    → check_hot_wallet_is_busy h is_signed_or_sent db ≡ false
    → IsFree (machine db) (bundle_of tx)
unfolding check_hot_wallet_is_busy
not_busy_lem h tx db own free signing q m from =
    let (r, there, e) = Has-map_inv request_of q db.withdrawals m in
    let none_busy = not_positive _ (||-eq-false _ _ free).0 in
    let quiet =
      count_where_none
        (λ (x : Withdrawal). str_eq x.from_address h.address && is_signed_or_sent x.status) r
        db.withdrawals none_busy there in
    let its : r.from_address ≡ h.address =
      sym (ap (λ (x : Request). x.source) e) ∙ from ∙ sym own in
    let same : str_eq r.from_address h.address ≡ true = (eq_iff r.from_address h.address).1 its in
    subst (λ (x : Request). is_signed_or_sent x.status ≡ false) (sym e) (rw same at quiet)

module _ (reg : Registry) (strict : Bool) (ends : Bool) (w : World) where
  signed_Steps :
      (tx : WithdrawalTx) (db : Db) {db' : Db}
      → Has tx db.withdrawal_txs
      → tx.status ≡ WithdrawalStatus.signing
      → sign_found reg w (some tx) db ≡ ok db'
      → Steps reg strict ends (machine db) (machine db')
  signed_Steps tx db {db'} there at e =
      let (c, hc, e₁) = >>=-eq-ok (reg.get_one_currency tx.currency) _ e in
      let (h, hh, e₂) = >>=-eq-ok (get_one_hot_wallet c.platform tx.hot_wallet_address db) _ e₁ in
      elim (Bool-cases (check_hot_wallet_is_busy h is_signed_or_sent db)) [
        | inl busy ↦
            let same = ok-injective _ _ (rw busy at e₂) in
            no_Steps reg strict ends (machine db) (machine db')
              (ap machine (sym same) ∙ machine-touch_withdrawal_tx w tx.id db)
        | inr free ↦ elim (Bool-cases h.is_normal) [
          | inl normal ↦
              let (signed, hs, e₃) =
                >>=-eq-ok ((w.gateway_of c.symbol).sign_raw_transaction tx.unsigned_raw h.secret) _
                  (rw (free, normal) at e₂) in
              move_Steps reg strict ends db (machine db') tx WithdrawalStatus.signed there
                (subst (λ s. s ⟶ WithdrawalStatus.signed) (sym at) sign)
                (not_busy_lem h tx db
                  (get_one_hot_wallet_lem c.platform tx.hot_wallet_address db hh) free)
                (early_status (λ q. cc q) (λ q. cc q))
                (ap machine (sym (ok-injective _ _ e₃)) ∙ machine-store_signed w tx.id signed db)
          | inr special ↦ cc (rw (free, special) at e₂)
        ]
      ]

  -- Where a tick of the signer does not throw, what it writes is a path of steps of the machine: a
  -- bundle moves from signing to signed, or nothing that the machine sees.
  pub signer_do_process-Steps :
      (platform : String) (db : Db) {db' : Db}
      → signer_do_process reg w platform db ≡ ok db'
      → Steps reg strict ends (machine db) (machine db')
  unfolding signer_do_process
  signer_do_process-Steps platform db {db'} e =
      elim (Option-cases (find_one_withdrawal_tx reg platform WithdrawalStatus.signing db)) [
        | inl nothing ↦
            no_Steps reg strict ends (machine db) (machine db')
              (ap machine (sym (ok-injective _ _ (rw nothing at e))))
        | inr (tx, found) ↦
            let (there, at) =
              find_one_withdrawal_tx_lem reg platform WithdrawalStatus.signing db tx found in
            signed_Steps tx db there at (rw found at e)
      ]
