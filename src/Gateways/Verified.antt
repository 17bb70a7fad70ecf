-- ===== src/Gateways/Verified.antt =====
-- The verifier over the gateways: a withdrawal is settled only when its transaction is deep.
use drx_wallet.Base.{
  ◌≡◌, sym, ap, ◌∙◌, subst, inl, inr, ◌⊎◌, String, Bool-cases, Option-cases, ==_iff, Has,
  Has-update_where,
}
use drx_wallet.Base.Outcome.{ok, >>=-eq-ok}
use drx_wallet.Base.Saves.{Unique}
use drx_wallet.Base.Views.{Has-map, Has-map_inv}
use drx_wallet.Schema.{Db, World, Registry, Currency, Withdrawal, WithdrawalTx, WithdrawalStatus}
use drx_wallet.RawDb.Picking.{find_one_withdrawal_tx}
use drx_wallet.Workers.Verifier.{verifier_do_process, text_of}
use drx_wallet.Lifecycle.{
  Machine, Request, machine, request_id, request_of, is_request_of, move_request, moved_machine,
}
use drx_wallet.Lifecycle.Refine.Moves.{find_one_withdrawal_tx_lem}
use drx_wallet.Lifecycle.Refine.Transfers.{verify_internal-machine}
use drx_wallet.Lifecycle.Refine.Verifying.{verify_status-machine}
use drx_wallet.Gateways.{Backend, IsServed}
use drx_wallet.Gateways.Depth.{IsDeep, key_on, backend_status-IsDeep}

-- The transaction of a withdrawal is in a block that is deep enough.
pub record IsConfirmed (reg : Registry) (backends : String → Backend) (db : Db) (r : Withdrawal)
    : Type 0 where
  pub tx : WithdrawalTx
  pub currency : Currency
  pub there : Has tx db.withdrawal_txs
  pub its : tx.id ≡ r.withdrawal_tx_id
  pub known : reg.get_one_currency tx.currency ≡ ok currency
  pub deep :
      IsDeep
        (backends currency.symbol)
        (key_on (backends currency.symbol).network (text_of tx.txid))

-- The withdrawal was there already, with the same status.
abbrev pub WasThere : Db → Withdrawal → Type 0
WasThere db r' = (r : Withdrawal) × Has r db.withdrawals × (request_of r ≡ request_of r')

same-WasThere :
    (db db' : Db) (r' : Withdrawal)
    → machine db' ≡ machine db
    → Has r' db'.withdrawals
    → WasThere db r'
same-WasThere db db' r' same there =
    let (r, hr, e) = Has-map_inv request_of (request_of r') db.withdrawals (
      subst (λ (m : Machine). Has (request_of r') m.requests) same
        (Has-map request_of r' db'.withdrawals there)) in
    (r, hr, sym e)

moved-WasThere :
    (db db' : Db) (tx : WithdrawalTx) (end : WithdrawalStatus) (r' : Withdrawal)
    → machine db' ≡ moved_machine tx.id end (machine db)
    → Has r' db'.withdrawals
    → WasThere db r' ⊎ (tx.id ≡ r'.withdrawal_tx_id)
moved-WasThere db db' tx end r' moved there =
    let (q, hq, e) =
      Has-update_where (is_request_of tx.id) (move_request end) (request_of r')
        (machine db).requests
        (subst (λ (m : Machine). Has (request_of r') m.requests) moved
          (Has-map request_of r' db'.withdrawals there)) in
    elim (Bool-cases (is_request_of tx.id q)) [
      | inl t ↦
          let joined : request_of r' ≡ move_request end q = rw t at e in
          inr (sym (ap (λ (x : Request). x.bundle) joined ∙ (==_iff q.bundle tx.id).0 t))
      | inr n ↦
          let same : request_of r' ≡ q = rw n at e in
          let (r, hr, own) = Has-map_inv request_of q db.withdrawals hq in
          inl (r, hr, sym (same ∙ own))
    ]

module _ (reg : Registry) (w : World) (backends : String → Backend)
    (serve : IsServed w backends) where
  -- Where the gateways go by backends and a tick of the verifier does not throw, each withdrawal after it
  -- was there before with the same status, or its transaction is in a block with the confirmations that
  -- its network asks for. This is for unique keys of the withdrawals.
  pub verifier_do_process-IsConfirmed :
      (platform : String) (db : Db) {db' : Db} (r' : Withdrawal)
      → Unique request_id (machine db).requests
      → verifier_do_process reg w platform db ≡ ok db'
      → Has r' db'.withdrawals
      → WasThere db r' ⊎ IsConfirmed reg backends db r'
  unfolding verifier_do_process
  verifier_do_process-IsConfirmed platform db {db'} r' u e there =
      elim (Option-cases (find_one_withdrawal_tx reg platform WithdrawalStatus.sent db)) [
        | inl nothing ↦ inl (
            same-WasThere db db' r' (verify_internal-machine reg w platform db (rw nothing at e))
              there)
        | inr (tx, found) ↦
            let (known, at_) =
              find_one_withdrawal_tx_lem reg platform WithdrawalStatus.sent db tx found in
            let (c, hc, k) = >>=-eq-ok (reg.get_one_currency tx.currency) _ (rw found at e) in
            let g = w.gateway_of c.symbol in
            let (status, hs, k₁) = >>=-eq-ok (g.get_transaction_status (text_of tx.txid)) _ k in
            elim (verify_status-machine reg w g tx (text_of tx.txid) status db u k₁) [
              | inl same ↦ inl (same-WasThere db db' r' same there)
              | inr (final, (end, moved)) ↦ elim (moved-WasThere db db' tx end r' moved there) [
                | inl old ↦ inl old
                | inr own ↦ inr (record {
                  tx = tx;
                  currency = c;
                  there = known;
                  its = own;
                  known = hc;
                  deep =
                      backend_status-IsDeep (backends c.symbol) (text_of tx.txid)
                        (sym (serve.served c.symbol (text_of tx.txid)) ∙ hs) final;
                })
              ]
            ]
      ]
