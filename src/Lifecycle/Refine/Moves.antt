-- ===== src/Lifecycle/Refine/Moves.antt =====
-- How a worker's writes become steps: the transaction that it finds, and the move that it makes.
use drx_wallet.Base.{
  Bool, true, ℕ, inl, inr, ◌≡◌, ◌≢◌, refl, sym, some, String, subst, &&-eq-true, update_where, Has,
  find_oldest-Has,
}
use drx_wallet.Base.Views.{Has-map, map-update_hidden}
use drx_wallet.Schema.{
  Db, World, Registry, WithdrawalTx, WithdrawalStatus, has_status-eq, on_platform,
}
use drx_wallet.RawDb.Keys.{touch_withdrawal_tx}
use drx_wallet.RawDb.Picking.{find_one_withdrawal_tx, is_tx_at, tx_age}
use drx_wallet.Lifecycle.{
  Machine, Bundle, bundle_of, machine, is_request_of, is_bundle, move_request, move_bundle, ◌⟶◌,
  send, take_back, move, IsFree, IsFinished, Steps, here, next,
}
use drx_wallet.Lifecycle.Refine.Frames.{machine_eq}

-- The transaction that a worker finds is in the table, in the status that it looks for.
pub find_one_withdrawal_tx_lem :
    (reg : Registry) (platform : String) (status : WithdrawalStatus) (db : Db) (tx : WithdrawalTx)
    → find_one_withdrawal_tx reg platform status db ≡ some tx
    → Has tx db.withdrawal_txs × (tx.status ≡ status)
unfolding find_one_withdrawal_tx
find_one_withdrawal_tx_lem reg platform status db tx e =
    let (there, passes) =
      find_oldest-Has tx_age (is_tx_at reg platform status) tx db.withdrawal_txs e in
    (
      there,
      has_status-eq tx.status status (&&-eq-true (on_platform reg platform tx.currency) _ passes).1,
    )

pub machine-touch_withdrawal_tx :
    (w : World) (id : ℕ) (db : Db) → machine (touch_withdrawal_tx w id db) ≡ machine db
unfolding touch_withdrawal_tx
machine-touch_withdrawal_tx w id db =
    machine_eq refl (map-update_hidden bundle_of _ _ db.withdrawal_txs (λ r. refl))

-- Steps from equal machines.
pub no_Steps :
    (reg : Registry) (strict : Bool) (ends : Bool) (m m' : Machine)
    → m' ≡ m
    → Steps reg strict ends m m'
no_Steps reg strict ends m m' e = subst (λ x. Steps reg strict ends m x) (sym e) here

-- What is not being signed needs no free source.
pub past_signing : (m : Machine) (b : Bundle) → b.status ≢ WithdrawalStatus.signing → IsFree m b
past_signing m b past e r h same = absurd (past e)

-- The statuses before the end.
pub early_status :
    {s : WithdrawalStatus} {ends : Bool}
    → s ≢ WithdrawalStatus.completed
    → s ≢ WithdrawalStatus.failed
    → IsFinished s
    → ends ≡ true
early_status a b f = elim f [ inl e ↦ absurd (a e) | inr e ↦ absurd (b e) ]

pub from_signed :
    {s : WithdrawalStatus} {ends : Bool} → WithdrawalStatus.signed ⟶ s → IsFinished s → ends ≡ true
from_signed send = early_status (λ q. cc q) (λ q. cc q)
from_signed take_back = early_status (λ q. cc q) (λ q. cc q)

-- A bundle of the database moves.
pub move_Steps :
    (reg : Registry) (strict : Bool) (ends : Bool) (db : Db) (m' : Machine) (tx : WithdrawalTx)
    (s : WithdrawalStatus)
    → Has tx db.withdrawal_txs
    → tx.status ⟶ s
    → IsFree (machine db) (bundle_of tx)
    → (IsFinished s → ends ≡ true)
    → m' ≡ record {
      requests = update_where (is_request_of tx.id) (move_request s) (machine db).requests;
      bundles = update_where (is_bundle tx.id) (move_bundle s) (machine db).bundles;
    }
    → Steps reg strict ends (machine db) m'
move_Steps reg strict ends db m' tx s there edge free may_end e =
    next here
      (move (bundle_of tx) s (Has-map bundle_of tx db.withdrawal_txs there) edge free may_end e)

pub Steps-append :
    (reg : Registry) (strict : Bool) (ends : Bool) {m m' m'' : Machine}
    → Steps reg strict ends m m'
    → Steps reg strict ends m' m''
    → Steps reg strict ends m m''
Steps-append reg strict ends p here = p
Steps-append reg strict ends p (next q st) = next (Steps-append reg strict ends p q) st
