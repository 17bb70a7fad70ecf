-- ===== src/Collection/Ticks.antt =====
-- Each tick of the collector is one of the five.
use drx_wallet.Base.{
  ◌≢◌, ◌≡◌, refl, sym, ap, ◌∙◌, subst, inl, inr, false, not, Option, none, some, List, [], ◌∷◌, map,
  String, str_eq, ◌==◌, ==_iff, &&-eq-true, not-eq-true, Bool-cases, Has, find_first-Has,
}
use drx_wallet.Base.Outcome.{
  Outcome, ok, err, Error, or_throw, >>=-eq-ok, or_throw-eq-ok, ok-injective,
}
use drx_wallet.Base.Saves.{update_ids}
use drx_wallet.Schema.{Db, World, Registry, Deposit, HotWallet, RawTransaction}
use drx_wallet.RawDb.Keys.{deposit_key, touch_deposits, update_rows}
use drx_wallet.RawDb.HotWallets.{find_any_internal_hot_wallet, is_internal_of}
use drx_wallet.RawDb.Collectable.{DepositGroup, find_one_group_of_collectable_deposits}
use drx_wallet.Workers.CollectTx.{Collecting, construct_collect_tx, collector_sign}
use drx_wallet.Workers.Collector.{
  Attempt, pending, built, build, attempt, postpone, request_seed, give_up, sent_txid,
  collector_submit, set_collecting, mark_collecting, send_collect, finish_attempt, is_nothing,
  collect_group, collector_do_process,
}
use drx_wallet.Collection.{
  IsGroup, touch, change_deposits, collected_in, Collection, skipped, touched, postponed,
  seed_wanted, sent,
}
use drx_wallet.Collection.Groups.{
  touch_deposits_lem, update_rows_lem, Found, nothing, too_little, group, find_one_group-Found,
}

mark_collecting_lem :
    (w : World) (g : DepositGroup) (txid : String) (db : Db) {db' : Db}
    → mark_collecting w g (txid, db) ≡ ok db'
    → db' ≡ (record db {
      deposits =
          update_ids deposit_key (map deposit_key g.records) (set_collecting w txid) db.deposits;
    })
mark_collecting_lem w g txid db e =
    let (rows, marked, k) =
      >>=-eq-ok
        (update_rows deposit_key (map deposit_key g.records) (set_collecting w txid) db.deposits) _
        e in
    sym (ok-injective _ _ k)
    ∙ ap (λ r. record db { deposits = r })
        (update_rows_lem (map deposit_key g.records) (set_collecting w txid) db.deposits marked)

module _ (reg : Registry) (w : World) (c : Collecting) (platform : String) where
  build-not_pending : (g : DepositGroup) (rally : HotWallet) → build reg w c g rally ≢ ok pending
  build-not_pending g rally e =
      let (raw, made, k) =
        >>=-eq-ok (construct_collect_tx reg w c g.currency g.records rally.address) _ e in
      cc k

  -- Only for a token nothing is sent though all went well.
  pending-token :
      (g : DepositGroup) (rally : HotWallet) (db : Db)
      → attempt reg w c g rally db ≡ ok pending
      → g.currency.is_native ≡ false
  pending-token g rally db e = elim (Bool-cases g.currency.is_native) [
    | inl native ↦ absurd (build-not_pending g rally (rw native at e))
    | inr token ↦ token
  ]

  module _ (g : DepositGroup) (db : Db) (is_group : IsGroup reg platform db g) where
    request-Collection :
        (records : List Deposit)
        → ((d : Deposit) → Has d records → Has d g.records)
        → g.currency.is_native ≡ false
        → Collection reg w platform db
            (request_seed w records (change_deposits (map deposit_key g.records) (touch w) db))
    request-Collection [] within token = touched (map deposit_key g.records) refl
    request-Collection (first ∷ rest) within token =
        seed_wanted g first is_group (within first (inl refl)) token refl

    give_up-Collection : {db' : Db} → give_up w g db ≡ ok db' → Collection reg w platform db db'
    give_up-Collection e =
        let (after, moved, k) = >>=-eq-ok (touch_deposits w (map deposit_key g.records) db) _ e in
        let now_ = touch_deposits_lem w (map deposit_key g.records) db moved in
        elim (Bool-cases g.currency.is_native) [
          | inl native ↦
              touched (map deposit_key g.records) (sym (ok-injective _ _ (rw native at k)) ∙ now_)
          | inr token ↦
              subst (Collection reg w platform db)
                (ap (request_seed w g.records) (sym now_) ∙ ok-injective _ _ (rw token at k))
                (request-Collection g.records (λ d m. m) token)
        ]

    postpone-Collection :
        (records : List Deposit)
        → ((d : Deposit) → Has d records → Has d g.records)
        → g.currency.is_native ≡ false
        → Collection reg w platform db (postpone w records db)
    postpone-Collection [] within token = skipped refl
    postpone-Collection (first ∷ rest) within token =
        postponed g first is_group (within first (inl refl)) token refl

    send-Collection :
        (rally : HotWallet) (raw : Option RawTransaction)
        → Has rally db.hot_wallets
        → rally.wallet_id ≡ g.wallet_id
        → rally.is_external ≡ false
        → {db' : Db} → send_collect w c g rally raw db ≡ ok db'
        → Collection reg w platform db db'
    unfolding collector_submit
    send-Collection rally none there own internal e = cc
    send-Collection rally (some raw) there own internal {db'} e =
        let (signed, signing, k) = >>=-eq-ok (collector_sign c g.currency g.records raw db) _ e in
        let (stored, submitted, last) =
          >>=-eq-ok (collector_submit w g rally signed db) (mark_collecting w g) k in
        let (reply, replied, k1) =
          >>=-eq-ok ((w.gateway_of g.currency.symbol).send_raw_transaction signed.signed_raw) _
            submitted in
        let (txid, named, k2) = >>=-eq-ok (sent_txid g.currency signed reply) _ k1 in
        let done = subst (λ p. mark_collecting w g p ≡ ok db') (sym (ok-injective _ _ k2)) last in
        sent g rally txid is_group there own internal (
          subst (λ amount. db' ≡ collected_in w g rally txid amount db) is_group.amount_sum
            (mark_collecting_lem w g txid _ done))

    finish-Collection :
        (rally : HotWallet) (m : Outcome Attempt)
        → attempt reg w c g rally db ≡ m
        → Has rally db.hot_wallets
        → rally.wallet_id ≡ g.wallet_id
        → rally.is_external ≡ false
        → {db' : Db} → finish_attempt w c g rally m db ≡ ok db'
        → Collection reg w platform db db'
    finish-Collection rally (err thrown) tried there own internal e = give_up-Collection e
    finish-Collection rally (ok pending) tried there own internal e =
        subst (Collection reg w platform db) (ok-injective _ _ e)
          (postpone-Collection g.records (λ d m. m) (pending-token g rally db tried))
    finish-Collection rally (ok (built raw)) tried there own internal e =
        send-Collection rally raw there own internal e

    group-Collection :
        {db' : Db} → collect_group reg w c (some g) db ≡ ok db' → Collection reg w platform db db'
    unfolding find_any_internal_hot_wallet
    group-Collection e = elim (Bool-cases (g.wallet_id == 0)) [
      | inl no_wallet ↦ skipped (sym (ok-injective _ _ (rw no_wallet at e)))
      | inr wallet ↦ elim (Bool-cases (is_nothing g)) [
        | inl zero_ ↦ skipped (sym (ok-injective _ _ (rw (wallet, zero_) at e)))
        | inr worth ↦
            let (rally, found, k) =
              >>=-eq-ok
                (or_throw Error.hot_wallet_not_found
                  (find_any_internal_hot_wallet g.wallet_id g.currency.platform db))
                _ (rw (wallet, worth) at e) in
            let (there, is_one) =
              find_first-Has (is_internal_of g.wallet_id g.currency.platform) rally db.hot_wallets
                (or_throw-eq-ok Error.hot_wallet_not_found _ found) in
            let (own, others) = &&-eq-true (rally.wallet_id == g.wallet_id) _ is_one in
            let (currency, internal) =
              &&-eq-true (str_eq rally.currency g.currency.platform) (not rally.is_external)
                others in
            finish-Collection rally (attempt reg w c g rally db) refl there
              ((==_iff rally.wallet_id g.wallet_id).0 own) (not-eq-true rally.is_external internal)
              k
      ]
    ]

  Found-Collection :
      (db : Db) {o : Option DepositGroup} {db1 db' : Db}
      → Found reg w platform db o db1
      → collect_group reg w c o db1 ≡ ok db'
      → Collection reg w platform db db'
  Found-Collection db {db' = db'} (nothing none_ same) e =
      skipped (sym (ok-injective _ _ (rw none_ at e)) ∙ same)
  Found-Collection db {db' = db'} (too_little ids none_ now_) e =
      touched ids (sym (ok-injective _ _ (rw none_ at e)) ∙ now_)
  Found-Collection db {o} {db1} {db'} (group g some_ is_group same) e =
      group-Collection g db is_group (rw (← same) (rw some_ at e))

  -- A tick of the collector that does not throw leaves the database as it is, or touches deposits, or puts
  -- one of a token off, or asks for a seed for it, or sends one transfer of a whole group to an internal hot
  -- wallet of its wallet and marks just the group with the txid. A group is of uncollected deposits of one
  -- wallet and one currency of the platform, of one address unless outputs are spent together, and the
  -- transfer is of the sum of its amounts. No other row of the database changes.
  pub collector_do_process-Collection :
      (db : Db) {db' : Db}
      → collector_do_process reg w c platform db ≡ ok db'
      → Collection reg w platform db db'
  unfolding collector_do_process
  collector_do_process-Collection db e =
      let (found, searched, k) =
        >>=-eq-ok (find_one_group_of_collectable_deposits reg w platform db) _ e in
      Found-Collection db (find_one_group-Found reg w platform db searched) k
