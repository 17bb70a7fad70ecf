-- ===== src/Lifecycle/Refine/Picking.antt =====
-- A tick of the picker puts eligible requests into a new bundle, or asks for transfers to the cold
-- wallet, or is not seen.
use drx_wallet.Base.{
  Bool, ℕ, ◌≡◌, ◌≢◌, refl, sym, ap, ◌∙◌, subst, inl, inr, true, false, Option, none, some, List, [],
  ◌∷◌, map, String, Bool-cases, select, arith, Has, ==_refl, Has-select, Has-append,
}
use drx_wallet.Base.Outcome.{Outcome, ok, err, >>=-eq-ok, ok-injective}
use drx_wallet.Base.Saves.{contains, Unique, Unique-eq, contains-Has, Has-contains}
use drx_wallet.Base.Views.{
  Has-map, Has-map_inv, map-update_where, map-update_hidden, map-insert_row, Unique-map_inv,
}
use drx_wallet.Schema.{
  Db, World, Registry, IsFresh, IsNamed, CountsPending, Currency, Withdrawal, WithdrawalTx,
  WithdrawalStatus, HotWallet, RawTransaction, is_pending, on_platform,
}
use drx_wallet.RawDb.Keys.{withdrawal_key, tx_key, touch_withdrawals}
use drx_wallet.RawDb.Logs.{insert_withdrawal_logs}
use drx_wallet.RawDb.Picking.{
  get_next_picked_withdrawals, new_withdrawal_tx, set_picked, do_picking_withdrawals,
}
use drx_wallet.Workers.Picker.{
  first_picked, all_picked, is_from, tmp_address, finish_picking, pick_from, pick_group,
  picker_do_process, check_sufficient, total_of,
}
use drx_wallet.Lifecycle.{
  Request, Bundle, request_of, bundle_of, machine, request_id, join_bundle, MayPick, pick, Steps,
  here, next,
}
use drx_wallet.Lifecycle.Refine.Frames.{machine_eq}
use drx_wallet.Lifecycle.Refine.Moves.{no_Steps}
use drx_wallet.RawDb.HotWallets.{find_sufficient_hot_wallet}
use drx_wallet.Lifecycle.Refine.Threshold.{check_upper_threshold-Steps}
use drx_wallet.Lifecycle.Refine.Groups.{IsGroup, get_next_picked_withdrawals-IsGroup}

all_picked-Has :
    (c : Currency) (h : HotWallet) (first : Withdrawal) (rest : List Withdrawal) (r : Withdrawal)
    → Has r (all_picked c h first rest)
    → Has r (first ∷ rest)
all_picked-Has c h first rest r m = elim (Bool-cases c.is_utxo_based) [
  | inl t ↦
      elim (Has-append r (select (is_from tmp_address) (first ∷ rest))
        (select (is_from h.address) (first ∷ rest)) (rw t at m)) [
          | inl k ↦ (Has-select (is_from tmp_address) r (first ∷ rest) k).0
          | inr k ↦ (Has-select (is_from h.address) r (first ∷ rest) k).0
        ]
  | inr n ↦ elim (rw n at m) [ inl e ↦ inl e | inr k ↦ elim k [ ] ]
]

-- Updating the times of withdrawals is not seen.
pub touch_withdrawals-machine :
    (w : World) (ids : List ℕ) (db : Db) {db' : Db}
    → touch_withdrawals w ids db ≡ ok db'
    → machine db' ≡ machine db
unfolding touch_withdrawals
touch_withdrawals-machine w [] db e = cc
touch_withdrawals-machine w (k ∷ ks) db e =
    ap machine (sym (ok-injective _ _ e))
    ∙ machine_eq (map-update_hidden request_of _ _ db.withdrawals (λ r. refl)) refl

module _ (reg : Registry) (strict : Bool) (ends : Bool) (w : World) (fresh : IsFresh w)
    (platform currency : String) (db : Db) (u : Unique request_id (machine db).requests)
    (rows : List Withdrawal) (group : IsGroup reg strict platform db currency rows) where
  new_key_lem :
      (t : WithdrawalTx) → Has t db.withdrawal_txs → w.new_id (map tx_key db.withdrawal_txs) ≢ t.id
  new_key_lem t m e =
      let free = fresh.unused (map tx_key db.withdrawal_txs) in
      let used : contains (w.new_id (map tx_key db.withdrawal_txs)) (map tx_key db.withdrawal_txs)
          ≡ true =
        rw e (Has-contains tx_key t db.withdrawal_txs m) in
      absurd (ground arith)

  -- The keys of the picked withdrawals are the keys of their rows alone.
  may_pick :
      (first : Withdrawal) (rest : List Withdrawal)
      → ((r : Withdrawal) → Has r (first ∷ rest) → Has r rows)
      → MayPick reg strict
          (machine db)
          platform
          currency
          (map withdrawal_key (first ∷ rest))
          (w.new_id (map tx_key db.withdrawal_txs))
  may_pick first rest within = record {
    on_it = group.on_it;
    idle = λ yes_ r m on_it.
        let (x, there, e) = Has-map_inv request_of r db.withdrawals m in
        let quiet = group.idle yes_ x there in
        let its : on_platform reg platform x.currency ≡ true =
          subst (λ (q : Request). on_platform reg platform q.currency ≡ true) e on_it in
        subst (λ (q : Request). is_pending q.status ≡ false) (sym e) (quiet its);
    eligible = λ r m chosen.
        let (x, there, e) = Has-map_inv request_of r db.withdrawals m in
        let (p, hp, same) = contains-Has withdrawal_key x (first ∷ rest) (
          subst (λ (q : Request). contains q.id (map withdrawal_key (first ∷ rest)) ≡ true) e
            chosen) in
        let (known, new, alike) = group.members p (within p hp) in
        let row =
          Unique-eq withdrawal_key x p db.withdrawals
            (Unique-map_inv request_of request_id db.withdrawals u) there known same in
        subst (λ (q : Request). (q.status ≡ WithdrawalStatus.unsigned) × (q.currency ≡ currency))
          (sym (e ∙ ap request_of row)) (new, alike);
    some_request = (
      request_of first,
      Has-map request_of first db.withdrawals ((group.members first (within first (inl refl))).0),
      rw (==_refl first.id),
    );
    positive = fresh.positive (map tx_key db.withdrawal_txs);
    new_key = λ b m.
        let (t, there, e) = Has-map_inv bundle_of b db.withdrawal_txs m in
        subst (λ (q : Bundle). w.new_id (map tx_key db.withdrawal_txs) ≢ q.id) (sym e)
          (new_key_lem t there);
  }

  do_picking_withdrawals-Steps :
      (raw : RawTransaction) (h : HotWallet) (picked : List Withdrawal)
      → ((r : Withdrawal) → Has r picked → Has r rows)
      → {db' : Db} → do_picking_withdrawals w raw h currency (map withdrawal_key picked) db ≡ ok db'
      → Steps reg strict ends (machine db) (machine db')
  unfolding do_picking_withdrawals insert_withdrawal_logs
  do_picking_withdrawals-Steps raw h [] within e = cc
  do_picking_withdrawals-Steps raw h (first ∷ rest) within e =
      let ids = map withdrawal_key (first ∷ rest) in
      let tx = new_withdrawal_tx w raw h currency db.withdrawal_txs in
      next here (
        pick platform currency h.address ids tx.id (may_pick first rest within) (
          ap machine (sym (ok-injective _ _ e))
          ∙ machine_eq
              (map-update_where request_of (λ x. contains (withdrawal_key x) ids)
                (set_picked w tx.id h.address) (λ x. contains (request_id x) ids)
                (join_bundle tx.id h.address) db.withdrawals (λ r. refl) (λ r. refl))
              (map-insert_row bundle_of tx db.withdrawal_txs)))

  finish_picking-Steps :
      (c : Currency) (h : HotWallet) (picked : List Withdrawal)
      → c.symbol ≡ currency
      → ((r : Withdrawal) → Has r picked → Has r rows)
      → (reply : Outcome (Option RawTransaction)) {db' : Db}
      → finish_picking w c h (map withdrawal_key picked) reply db ≡ ok db'
      → Steps reg strict ends (machine db) (machine db')
  finish_picking-Steps c h picked named within (err x) {db'} e =
      no_Steps reg strict ends (machine db) (machine db')
        (touch_withdrawals-machine w (map withdrawal_key picked) db e)
  finish_picking-Steps c h picked named within (ok none) {db'} e =
      no_Steps reg strict ends (machine db) (machine db')
        (touch_withdrawals-machine w (map withdrawal_key picked) db e)
  finish_picking-Steps c h picked named within (ok (some raw)) {db'} e =
      do_picking_withdrawals-Steps raw h picked within (
        subst (λ s. do_picking_withdrawals w raw h s (map withdrawal_key picked) db ≡ ok db') named
          e)

module _ (reg : Registry) (strict : Bool) (ends : Bool) (named : IsNamed reg) (w : World)
    (fresh : IsFresh w) (counts : strict ≡ true → CountsPending w) (platform : String) (db : Db)
    (u : Unique request_id (machine db).requests) where
  pick_from-Steps :
      (c : Currency) (first : Withdrawal) (rest : List Withdrawal) (h : Option HotWallet) {db' : Db}
      → IsGroup reg strict platform db first.currency (first ∷ rest)
      → c.symbol ≡ first.currency
      → pick_from w c first rest h db ≡ ok db'
      → Steps reg strict ends (machine db) (machine db')
  pick_from-Steps c first rest none {db'} group own e =
      no_Steps reg strict ends (machine db) (machine db')
        (touch_withdrawals-machine w (map withdrawal_key (first_picked c first rest)) db e)
  pick_from-Steps c first rest (some h) {db'} group own e =
      let picked = all_picked c h first rest in
      let (enough, checked, k) = >>=-eq-ok (check_sufficient w c h (total_of picked)) _ e in
      elim (Bool-cases enough) [
        | inl t ↦
            finish_picking-Steps reg strict ends w fresh platform first.currency db u (first ∷ rest)
              group c h picked own (all_picked-Has c h first rest) _ (rw t at k)
        | inr n ↦ cc (rw n at k)
      ]

  pick_group-Steps :
      (rows : List Withdrawal) {db' : Db}
      → get_next_picked_withdrawals reg w platform db ≡ rows
      → pick_group reg w platform rows db ≡ ok db'
      → Steps reg strict ends (machine db) (machine db')
  pick_group-Steps [] found e = check_upper_threshold-Steps reg strict ends w fresh platform db e
  pick_group-Steps (first ∷ rest) found e =
      let group = get_next_picked_withdrawals-IsGroup reg strict w counts platform db found in
      let (c, hc, k) = >>=-eq-ok (reg.get_one_currency first.currency) _ e in
      let (h, hh, k') =
        >>=-eq-ok
          (find_sufficient_hot_wallet w first.wallet_id c (total_of (first_picked c first rest)) db)
          _ k in
      pick_from-Steps c first rest h group (named.own_symbol platform first.currency group.on_it hc)
        k'

  -- Where a tick of the picker does not throw, what it writes is a path of steps of the machine: a pick
  -- of one group into a new transaction, requests to the cold wallet, or nothing that the machine sees.
  -- This is for unique keys of the withdrawals, fresh new keys, symbols that find their own currency,
  -- and on the strict reading a right count of the pending withdrawals.
  pub picker_do_process-Steps :
      {db' : Db}
      → picker_do_process reg w platform db ≡ ok db'
      → Steps reg strict ends (machine db) (machine db')
  unfolding picker_do_process
  picker_do_process-Steps e =
      pick_group-Steps (get_next_picked_withdrawals reg w platform db) refl e
