-- ===== src/Deposits/Crawling.antt =====
-- Crawling the same transactions again.
use drx_wallet.Base.{
  ℕ, ◌≡◌, refl, sym, ap, ◌∙◌, subst, inl, inr, ◌||◌, List, [], ◌∷◌, map, String, Bool-cases, leb,
}
use drx_wallet.Base.Outcome.{ok, >>=-eq-ok, ok-injective}
use drx_wallet.Schema.{Db, World, Registry, contains_text}
use drx_wallet.RawDb.Deposits.{Output, insert_deposit, insert_deposits}
use drx_wallet.Deposits.{
  ChainTx, watched_outputs, is_internal_transfer, process_one_deposit_transaction, process_each,
  group_by_recipients, filter_watching_addresses, txs_at, recipient_of, on_crawling_txs,
}
use drx_wallet.Deposits.Inserting.{insert_deposit_lem}
use drx_wallet.Deposits.Known.{IsKnown, stays-IsKnown, all-IsKnown, none_new}

-- What crawling leaves alone, and what it keeps.
pub record IsExtended (db db' : Db) : Type 0 where
  pub addresses : db'.addresses ≡ db.addresses
  pub hot_wallets : db'.hot_wallets ≡ db.hot_wallets
  pub transfers : db'.internal_transfers ≡ db.internal_transfers
  pub known : (o : Output) → IsKnown o db → IsKnown o db'

IsExtended-refl : (db : Db) → IsExtended db db
IsExtended-refl db = record {
  addresses = refl;
  hot_wallets = refl;
  transfers = refl;
  known = λ o k. k;
}

IsExtended-trans : {a b c : Db} → IsExtended a b → IsExtended b c → IsExtended a c
IsExtended-trans p q = record {
  addresses = q.addresses ∙ p.addresses;
  hot_wallets = q.hot_wallets ∙ p.hot_wallets;
  transfers = q.transfers ∙ p.transfers;
  known = λ o k. q.known o (p.known o k);
}

same_internal :
    (tx : ChainTx) {db db' : Db}
    → IsExtended db db'
    → is_internal_transfer tx db' ≡ is_internal_transfer tx db
unfolding is_internal_transfer
same_internal tx more = rw (more.addresses, more.hot_wallets, more.transfers) refl

same_watching :
    (addresses : List String) (symbol : String) {db db' : Db}
    → IsExtended db db'
    → filter_watching_addresses addresses symbol db' ≡ filter_watching_addresses addresses symbol db
unfolding filter_watching_addresses
same_watching addresses symbol more = rw more.addresses refl

module _ (reg : Registry) where
  insert_deposits-IsExtended :
      (w : World) (os : List Output) (db : Db) {db' : Db}
      → insert_deposits reg w os db ≡ ok db'
      → IsExtended db db'
  insert_deposits-IsExtended w [] db e =
      subst (IsExtended db) (ok-injective _ _ e) (IsExtended-refl db)
  insert_deposits-IsExtended w (o ∷ os) db e =
      let (db1, first, rest) = >>=-eq-ok (insert_deposit reg w o db) _ e in
      let did = insert_deposit_lem reg w o db first in
      IsExtended-trans
        (record {
          addresses = did.same_addresses;
          hot_wallets = did.same_hot_wallets;
          transfers = did.same_transfers;
          known = λ other k. stays-IsKnown reg w o other db first k;
        })
        (insert_deposits-IsExtended w os db1 rest)

  module _ (w later : World) (required : ℕ) (watching : List String) where
    process_one_again :
        (tx : ChainTx) (db : Db) {db' : Db}
        → process_one_deposit_transaction reg w required tx watching db ≡ ok db'
        → IsExtended db db'
          × ((db'' : Db)
              → IsExtended db' db''
              → process_one_deposit_transaction reg later required tx watching db'' ≡ ok db'')
    unfolding process_one_deposit_transaction
    process_one_again tx db {db'} e = elim (Bool-cases (leb required tx.confirmations)) [
      | inr few ↦ (
        subst (IsExtended db) (ok-injective _ _ (rw few at e)) (IsExtended-refl db),
        λ db'' more. rw few refl,
      )
      | inl enough ↦ elim (Bool-cases (is_internal_transfer tx db)) [
        | inl internal ↦
            let same = ok-injective _ _ (rw (enough, internal) at e) in
            (
              subst (IsExtended db) same (IsExtended-refl db),
              λ db'' more.
                  rw
                    (
                      enough,
                      same_internal tx more,
                      ap (is_internal_transfer tx) (sym same),
                      internal,
                    )
                    refl,
            )
        | inr external ↦
            let inserted = rw (enough, external) at e in
            let more = insert_deposits-IsExtended w (watched_outputs tx watching) db inserted in
            (
              more,
              λ db'' later_more.
                  rw (enough, same_internal tx (IsExtended-trans more later_more), external)
                    (none_new reg later (watched_outputs tx watching) db'' (λ o m.
                      later_more.known o
                        (all-IsKnown reg w (watched_outputs tx watching) o db inserted (inr m)))),
            )
      ]
    ]

    process_each_again :
        (done : List String) (txs : List ChainTx) (db : Db) {db' : Db}
        → process_each reg w required watching done txs db ≡ ok db'
        → IsExtended db db'
          × ((db'' : Db)
              → IsExtended db' db''
              → process_each reg later required watching done txs db'' ≡ ok db'')
    process_each_again done [] db e =
        (subst (IsExtended db) (ok-injective _ _ e) (IsExtended-refl db), λ db'' more. refl)
    process_each_again done (tx ∷ txs) db e =
        elim (Bool-cases (tx.is_failed || contains_text tx.txid done)) [
          | inl skipped ↦
              let (more, again) =
                process_each_again done txs db (rw (process_each, skipped) at e) in
              (more, λ db'' later_more. rw (process_each, skipped) (again db'' later_more))
          | inr taken ↦
              let (db1, first, rest) =
                >>=-eq-ok (process_one_deposit_transaction reg w required tx watching db) _
                  (rw (process_each, taken) at e) in
              let (more1, again1) = process_one_again tx db first in
              let (more, again) = process_each_again (tx.txid ∷ done) txs db1 rest in
              (
                IsExtended-trans more1 more,
                λ db'' later_more.
                    rw (process_each, taken, again1 db'' (IsExtended-trans more later_more))
                      (again db'' later_more),
              )
        ]

  -- Where `onCrawlingTxs` does not throw, the same transactions crawled again, at any later time, change
  -- nothing: neither deposits nor balances nor logs.
  pub on_crawling_txs_twice :
      (w later : World) (required : ℕ) (symbol : String) (txs : List ChainTx) (db : Db) {db' : Db}
      → on_crawling_txs reg w required symbol txs db ≡ ok db'
      → on_crawling_txs reg later required symbol txs db' ≡ ok db'
  unfolding on_crawling_txs
  on_crawling_txs_twice w later required symbol txs db {db'} e =
      let groups = group_by_recipients txs in
      let (more, again) =
        process_each_again w later required
          (filter_watching_addresses (map recipient_of groups) symbol db) []
          (txs_at groups (filter_watching_addresses (map recipient_of groups) symbol db)) db e in
      subst (λ ws. process_each reg later required ws [] (txs_at groups ws) db' ≡ ok db')
        (sym (same_watching (map recipient_of groups) symbol more))
        (again db' (IsExtended-refl db'))
