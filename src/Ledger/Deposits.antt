-- ===== src/Ledger/Deposits.antt =====
-- Crawled deposits against the wallets' logs.
use drx_wallet.Base.{
  ℕ, ◌≡◌, refl, ◌∙◌, subst, inl, inr, Bool, true, false, ◌||◌, List, [], ◌∷◌, String, Bool-cases,
  count_where, find_first, map, insert_row, ltb, leb,
}
use drx_wallet.Base.Int.{ℤ, pos, ◌+ℤ◌, ◌-ℤ◌, leb_ℤ, int_laws}
use drx_wallet.Base.Outcome.{ok, Error, or_throw, >>=-eq-ok, ok-injective}
use drx_wallet.Schema.{Db, World, Registry, Address, Wallet, Deposit, contains_text}
use drx_wallet.RawDb.Logs.{
  insert_wallet_log, insert_deposit_log, insert_webhook_progress, deposit_user,
}
use drx_wallet.RawDb.Balances.{
  is_balance_of, add_to_balance, change_balance, increase_wallet_balance,
}
use drx_wallet.RawDb.Deposits.{
  Output, is_address, has_wallet_id, is_deposit_of, new_deposit, user_of, finish_deposit,
  record_deposit, insert_for, insert_deposit, insert_deposits,
}
use drx_wallet.Deposits.{
  ChainTx, watched_outputs, is_internal_transfer, process_one_deposit_transaction, process_each,
  group_by_recipients, recipient_of, filter_watching_addresses, txs_at, on_crawling_txs,
}
use drx_wallet.Ledger.{balance_of, logged_of, drift}
use drx_wallet.Ledger.Movements.{
  share, count_balances, sum_balances-update_where, sum_logs-insert_row,
}

-- The balance and its logs of a wallet and a currency have moved together, and there is one row still.
pub record IsBalanced (v : ℕ) (s : String) (db db' : Db) : Type 0 where
  pub one : count_where (is_balance_of v s) db'.wallet_balances ≡ 1
  pub same_drift : drift v s db' ≡ drift v s db

both_moved : (a l x : ℤ) → a +ℤ x -ℤ (l +ℤ x) ≡ a -ℤ l
both_moved a l x = grind int_laws

module _ (v : ℕ) (s : String) where
  IsBalanced-refl :
      (db : Db) → count_where (is_balance_of v s) db.wallet_balances ≡ 1 → IsBalanced v s db db
  IsBalanced-refl db one = record { one = one; same_drift = refl }

  IsBalanced-trans : {a b c : Db} → IsBalanced v s a b → IsBalanced v s b c → IsBalanced v s a c
  IsBalanced-trans p q = record { one = q.one; same_drift = q.same_drift ∙ p.same_drift }

  finish_deposit-IsBalanced :
      (w : World) (o : Output) (external : Bool) (wallet : Wallet) (d : Deposit) (db : Db)
      {db' : Db}
      → count_where (is_balance_of v s) db.wallet_balances ≡ 1
      → finish_deposit w o external wallet d db ≡ ok db'
      → IsBalanced v s db db'
  unfolding insert_deposit_log insert_wallet_log increase_wallet_balance change_balance
      insert_webhook_progress drift balance_of logged_of
  finish_deposit-IsBalanced w o true wallet d db one e =
      let (user, hu, k) = >>=-eq-ok (deposit_user d.id (user_of wallet) db) _ e in
      subst (IsBalanced v s db) (ok-injective _ _ k) (record { one = one; same_drift = refl })
  finish_deposit-IsBalanced w o false wallet d db one e =
      let (found, hf, k) =
        >>=-eq-ok
          (or_throw Error.wallet_balance_not_found
            (find_first (is_balance_of wallet.id o.currency) db.wallet_balances))
          _ e in
      let (user, hu, k') = >>=-eq-ok (deposit_user d.id (user_of wallet) _) _ k in
      subst (IsBalanced v s db) (ok-injective _ _ k') (record {
        one =
            count_balances v s wallet.id o.currency (add_to_balance w o.amount) o.amount (λ b. refl)
              (λ b. refl) (λ b. refl) db.wallet_balances
            ∙ one;
        same_drift =
            rw
              (
                sum_balances-update_where v s wallet.id o.currency (add_to_balance w o.amount)
                    o.amount (λ b. refl) (λ b. refl) (λ b. refl) db.wallet_balances one,
                sum_logs-insert_row v s _ db.wallet_logs,
              )
              (both_moved (balance_of v s db) (logged_of v s db)
                (share v s wallet.id o.currency o.amount));
      })

  module _ (reg : Registry) (w : World) where
    insert_for-IsBalanced :
        (o : Output) (address : Address) (wallet : Wallet) (db : Db) {db' : Db}
        → count_where (is_balance_of v s) db.wallet_balances ≡ 1
        → insert_for reg w o address wallet db ≡ ok db'
        → IsBalanced v s db db'
    unfolding insert_for record_deposit drift balance_of logged_of
    insert_for-IsBalanced o address wallet db one e =
        elim (Bool-cases (ltb 0 (count_where (is_deposit_of o) db.deposits))) [
          | inl t ↦
              subst (IsBalanced v s db) (ok-injective _ _ (rw t at e)) (IsBalanced-refl db one)
          | inr n ↦ elim (Bool-cases (leb_ℤ o.amount (pos 0))) [
            | inl worthless ↦
                subst (IsBalanced v s db) (ok-injective _ _ (rw (n, worthless) at e))
                  (IsBalanced-refl db one)
            | inr worth ↦
                let d = new_deposit w o address wallet db in
                let stored : Db = record db { deposits = insert_row d db.deposits } in
                let (c, hc, k) =
                  >>=-eq-ok (reg.get_one_currency o.currency) _ (rw (n, worth) at e) in
                let done =
                  finish_deposit-IsBalanced w o address.is_external wallet d stored one k in
                record { one = done.one; same_drift = done.same_drift }
          ]
        ]

    insert_deposits-IsBalanced :
        (os : List Output) (db : Db) {db' : Db}
        → count_where (is_balance_of v s) db.wallet_balances ≡ 1
        → insert_deposits reg w os db ≡ ok db'
        → IsBalanced v s db db'
    unfolding insert_deposit
    insert_deposits-IsBalanced [] db one e =
        subst (IsBalanced v s db) (ok-injective _ _ e) (IsBalanced-refl db one)
    insert_deposits-IsBalanced (o ∷ os) db one e =
        let (db1, first, rest) = >>=-eq-ok (insert_deposit reg w o db) _ e in
        let (address, ha, k) =
          >>=-eq-ok
            (or_throw Error.entity_not_found (find_first (is_address o.address) db.addresses)) _
            first in
        let (wallet, hw, k1) =
          >>=-eq-ok
            (or_throw Error.entity_not_found
              (find_first (has_wallet_id address.wallet_id) db.wallets))
            _ k in
        let moved = insert_for-IsBalanced o address wallet db one k1 in
        IsBalanced-trans moved (insert_deposits-IsBalanced os db1 moved.one rest)

    process_one-IsBalanced :
        (required : ℕ) (tx : ChainTx) (watching : List String) (db : Db) {db' : Db}
        → count_where (is_balance_of v s) db.wallet_balances ≡ 1
        → process_one_deposit_transaction reg w required tx watching db ≡ ok db'
        → IsBalanced v s db db'
    unfolding process_one_deposit_transaction
    process_one-IsBalanced required tx watching db one e =
        elim (Bool-cases (leb required tx.confirmations)) [
          | inr few ↦
              subst (IsBalanced v s db) (ok-injective _ _ (rw few at e)) (IsBalanced-refl db one)
          | inl enough ↦ elim (Bool-cases (is_internal_transfer tx db)) [
            | inl internal ↦
                subst (IsBalanced v s db) (ok-injective _ _ (rw (enough, internal) at e))
                  (IsBalanced-refl db one)
            | inr external ↦
                insert_deposits-IsBalanced (watched_outputs tx watching) db one
                  (rw (enough, external) at e)
          ]
        ]

    process_each-IsBalanced :
        (required : ℕ) (watching done : List String) (txs : List ChainTx) (db : Db) {db' : Db}
        → count_where (is_balance_of v s) db.wallet_balances ≡ 1
        → process_each reg w required watching done txs db ≡ ok db'
        → IsBalanced v s db db'
    process_each-IsBalanced required watching done [] db one e =
        subst (IsBalanced v s db) (ok-injective _ _ e) (IsBalanced-refl db one)
    process_each-IsBalanced required watching done (tx ∷ txs) db one e =
        elim (Bool-cases (tx.is_failed || contains_text tx.txid done)) [
          | inl skipped ↦
              process_each-IsBalanced required watching done txs db one
                (rw (process_each, skipped) at e)
          | inr taken ↦
              let (db1, first, rest) =
                >>=-eq-ok (process_one_deposit_transaction reg w required tx watching db) _
                  (rw (process_each, taken) at e) in
              let moved = process_one-IsBalanced required tx watching db one first in
              IsBalanced-trans moved
                (process_each-IsBalanced required watching (tx.txid ∷ done) txs db1 moved.one rest)
        ]

    -- Where `onCrawlingTxs` does not throw and a wallet has one balance row for a currency, that balance
    -- and the logs of it change by the same amount, whatever transactions were crawled.
    pub drift-on_crawling_txs :
        (required : ℕ) (symbol : String) (txs : List ChainTx) (db : Db) {db' : Db}
        → count_where (is_balance_of v s) db.wallet_balances ≡ 1
        → on_crawling_txs reg w required symbol txs db ≡ ok db'
        → drift v s db' ≡ drift v s db
    unfolding on_crawling_txs
    drift-on_crawling_txs required symbol txs db one e =
        let groups = group_by_recipients txs in
        let watching = filter_watching_addresses (map recipient_of groups) symbol db in
        (process_each-IsBalanced required watching [] (txs_at groups watching) db one e).same_drift
