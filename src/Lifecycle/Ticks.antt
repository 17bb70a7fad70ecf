-- ===== src/Lifecycle/Ticks.antt =====
-- The workers on the database: each tick is one transaction of the database (`getConnection()
-- .transaction`), and the ticks of the four workers come in any order, with requests in between.
use drx_wallet.Base.{
  subst, sym, Bool, true, ℕ, ◌≡◌, ◌≤◌, refl, String, Option, ◌&&◌, str_eq, count_where, Has,
}
use drx_wallet.Base.Int.{ℤ}
use drx_wallet.Base.Outcome.{Outcome, ok, err}
use drx_wallet.Base.Views.{Has-map, Has-map_inv, count_where-map}
use drx_wallet.Schema.{
  Db, World, Registry, IsDisjoint, IsNamed, CountsPending, IsFresh, Withdrawal, WithdrawalTx,
  is_signed_or_sent,
}
use drx_wallet.Workers.Picker.{picker_do_process}
use drx_wallet.Workers.Signer.{signer_do_process}
use drx_wallet.Workers.Sender.{sender_do_process}
use drx_wallet.Workers.Verifier.{verifier_do_process}
use drx_wallet.Workers.Requests.{insert_withdrawal_record, new_withdrawal}
use drx_wallet.Lifecycle.{
  IsFinished, bundle_of, request_of, machine, is_out_from, IsConsistent, Steps, here,
}
use drx_wallet.Lifecycle.Keeps.{Steps-IsConsistent}
use drx_wallet.Lifecycle.Fates.{finished_stays}
use drx_wallet.Lifecycle.Refine.Moves.{Steps-append}
use drx_wallet.Lifecycle.Refine.Picking.{picker_do_process-Steps}
use drx_wallet.Lifecycle.Refine.Threshold.{insert_withdrawal_Steps}
use drx_wallet.Lifecycle.Refine.Signing.{signer_do_process-Steps}
use drx_wallet.Lifecycle.Refine.Sending.{sender_do_process-Steps}
use drx_wallet.Lifecycle.Refine.Verifying.{verifier_do_process-Steps}

-- A callback that throws is rolled back.
abbrev pub commit : Outcome Db → Db → Db
commit (ok after) db = after
commit (err e) db = db

-- One call of a worker, in a world of its own.
pub data Tick (reg : Registry) (strict : Bool) (db : Db) : Db → Type 0 where
  pick :
      (w : World)
      → IsFresh w
      → (strict ≡ true → CountsPending w)
      → (platform : String) → Tick reg strict db (commit (picker_do_process reg w platform db) db)
  sign :
      (w : World) (platform : String)
      → Tick reg strict db (commit (signer_do_process reg w platform db) db)
  send :
      (w : World) (platform : String)
      → Tick reg strict db (commit (sender_do_process reg w platform db) db)
  verify :
      (w : World) (platform : String)
      → Tick reg strict db (commit (verifier_do_process reg w platform db) db)
  ask :
      (w : World)
      → IsFresh w
      → (coin : String) (wallet_id : ℕ) (to_address : String) (amount : ℤ) (tag : Option String)
        (tmp_txid : String)
      → Tick reg strict db
          (insert_withdrawal_record w coin wallet_id to_address amount tag tmp_txid db)

pub data Ticks (reg : Registry) (strict : Bool) (db : Db) : Db → Type 0 where
  start : Ticks reg strict db db
  tick :
      {db' db'' : Db}
      → Ticks reg strict db db'
      → Tick reg strict db' db''
      → Ticks reg strict db db''

commit-Steps :
    (reg : Registry) (strict : Bool) (ends : Bool) (m : Outcome Db) (db : Db)
    → ((db' : Db) → m ≡ ok db' → Steps reg strict ends (machine db) (machine db'))
    → Steps reg strict ends (machine db) (machine (commit m db))
commit-Steps reg strict ends (ok after) db path = path after refl
commit-Steps reg strict ends (err e) db path = here

-- Only a tick of the verifier may end a transaction.
abbrev pub MayEnd :
    {reg : Registry} {strict : Bool} → Bool → {db db' : Db} → Tick reg strict db db' → Type 0
MayEnd ends (Tick.pick w fresh counts platform) = Unit
MayEnd ends (Tick.sign w platform) = Unit
MayEnd ends (Tick.send w platform) = Unit
MayEnd ends (Tick.verify w platform) = ends ≡ true
MayEnd ends (Tick.ask w fresh coin wallet_id to_address amount tag tmp_txid) = Unit

module _ (reg : Registry) (strict : Bool) (d : IsDisjoint reg) (named : IsNamed reg) where
  pub Tick-Steps :
      (ends : Bool) {db db' : Db}
      → IsConsistent reg strict (machine db)
      → (t : Tick reg strict db db') → MayEnd ends t
      → Steps reg strict ends (machine db) (machine db')
  unfolding insert_withdrawal_record
  Tick-Steps ends {db} c (Tick.pick w fresh counts platform) may =
      commit-Steps reg strict ends (picker_do_process reg w platform db) db (λ db' e.
        picker_do_process-Steps reg strict ends named w fresh counts platform db c.request_ids e)
  Tick-Steps ends {db} c (Tick.sign w platform) may =
      commit-Steps reg strict ends (signer_do_process reg w platform db) db
        (λ db' e. signer_do_process-Steps reg strict ends w platform db e)
  Tick-Steps ends {db} c (Tick.send w platform) may =
      commit-Steps reg strict ends (sender_do_process reg w platform db) db
        (λ db' e. sender_do_process-Steps reg strict ends w platform db c.request_ids e)
  Tick-Steps ends {db} c (Tick.verify w platform) may =
      subst
        (λ b.
          Steps reg strict b (machine db)
            (machine (commit (verifier_do_process reg w platform db) db)))
        (sym may)
        (commit-Steps reg strict true (verifier_do_process reg w platform db) db
          (λ db' e. verifier_do_process-Steps reg strict w platform db c.request_ids e))
  Tick-Steps ends {db} c (Tick.ask w fresh coin wallet_id to_address amount tag tmp_txid) may =
      insert_withdrawal_Steps reg strict ends w fresh
        (new_withdrawal w coin wallet_id to_address amount tag tmp_txid db.withdrawals) db refl refl

  any-MayEnd : {db db' : Db} (t : Tick reg strict db db') → MayEnd true t
  any-MayEnd (Tick.pick w fresh counts platform) = tt
  any-MayEnd (Tick.sign w platform) = tt
  any-MayEnd (Tick.send w platform) = tt
  any-MayEnd (Tick.verify w platform) = refl
  any-MayEnd (Tick.ask w fresh coin wallet_id to_address amount tag tmp_txid) = tt

  -- From a consistent database, whatever the workers and the users do, in whatever order, is a path
  -- of steps of the machine, for a registry of disjoint platforms that finds each symbol by its name
  -- and for keys that are fresh. On the strict reading the counts of the pickers are right too.
  pub Ticks-refine :
      {db db' : Db}
      → IsConsistent reg strict (machine db)
      → Ticks reg strict db db'
      → Steps reg strict true (machine db) (machine db')
  Ticks-refine c start = here
  Ticks-refine c (tick path t) =
      let before = Ticks-refine c path in
      Steps-append reg strict true before
        (Tick-Steps true (Steps-IsConsistent reg strict d c before) t (any-MayEnd t))

  -- Under the same conditions the database stays consistent: keys are unique, each withdrawal has
  -- the status, the currency and the sender of the transaction that it is in, a transaction under way
  -- carries a withdrawal, a hot wallet has one transaction signed or sent at most, and on the strict
  -- reading a platform has one transaction under way at most.
  pub Ticks-IsConsistent :
      {db db' : Db}
      → IsConsistent reg strict (machine db)
      → Ticks reg strict db db'
      → IsConsistent reg strict (machine db')
  Ticks-IsConsistent c path = Steps-IsConsistent reg strict d c (Ticks-refine c path)

  -- Under the same conditions a hot wallet has at most one transaction that is signed or sent, so two
  -- transactions of one sender do not compete for a nonce or for outputs. Unless the strict reading is
  -- chosen, this takes no count of the pickers for right: it is the signer's own guard that gives it.
  pub one_signed_per_hot_wallet :
      {db db' : Db} (address : String)
      → IsConsistent reg strict (machine db)
      → Ticks reg strict db db'
      → count_where
          (λ (t : WithdrawalTx). str_eq t.hot_wallet_address address && is_signed_or_sent t.status)
          db'.withdrawal_txs
        ≤ 1
  one_signed_per_hot_wallet {db} {db'} address c path =
      let one = (Ticks-IsConsistent c path).one_signed address in
      rw (count_where-map bundle_of (is_out_from address) db'.withdrawal_txs) at one

  -- Under the same conditions a withdrawal that has completed or failed is final: after any ticks a
  -- row with its key, transaction, status, currency and sender is still there, so it is not paid again.
  pub finished_is_final :
      {db db' : Db} (r : Withdrawal)
      → IsConsistent reg strict (machine db)
      → Ticks reg strict db db'
      → Has r db.withdrawals
      → IsFinished r.status
      → (r' : Withdrawal) × Has r' db'.withdrawals × (request_of r ≡ request_of r')
  finished_is_final {db} {db'} r c path there done =
      Has-map_inv request_of (request_of r) db'.withdrawals (
        finished_stays reg strict d (request_of r) c (Ticks-refine c path)
          (Has-map request_of r db.withdrawals there) done)
