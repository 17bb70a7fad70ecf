-- ===== src/Ledger/Withdrawals.antt =====
-- updateWithdrawalTxWallets.ts against the wallets' logs, and what it takes from a wallet.
use drx_wallet.Base.{
  ℕ, ◌≡◌, refl, sym, ap, ◌∙◌, subst, inl, inr, List, [], ◌∷◌, String, ==_iff, select, count_where,
  update_where, find_first, find_first-Has, Has, Has-select,
}
use drx_wallet.Base.Int.{ℤ, ◌+ℤ◌, ◌-ℤ◌, neg_ℤ, int_laws}
use drx_wallet.Base.Outcome.{ok, Error, or_throw, >>=-eq-ok, or_throw-eq-ok, ok-injective}
use drx_wallet.Schema.{Db, World, Registry, Currency, Withdrawal, WithdrawalTx, WithdrawalEvent}
use drx_wallet.RawDb.Logs.{insert_wallet_log}
use drx_wallet.RawDb.Status.{is_in_tx}
use drx_wallet.RawDb.Balances.{
  is_balance_of, has_wallet, add_to_balance, change_balance, settle_row, settle_balance,
  withdrawal_change, withdrawal_total_change, settle_withdrawal, settle_each, settle_all,
  update_withdrawal_tx_wallets,
}
use drx_wallet.Ledger.{balance_of, logged_of, drift}
use drx_wallet.Ledger.Movements.{
  share, count_balances, sum_balances-update_where, sum_logs-insert_row,
}

module _ (reg : Registry) (w : World) (tx : WithdrawalTx) (event : WithdrawalEvent) (fee : ℤ)
    (fee_wallet : ℕ) (v : ℕ) (s : String) where
  -- The effect of the loop's body on the row of `v` and `s` and on its logs.
  pub record IsSettled (r : Withdrawal) (platform : String) (db db' : Db) : Type 0 where
    pub balance :
        balance_of v s db'
        ≡ balance_of v s db
          +ℤ share v s r.wallet_id r.currency (withdrawal_change event r.amount)
          +ℤ share v s fee_wallet platform (neg_ℤ fee)
    pub logs :
        logged_of v s db'
        ≡ logged_of v s db
          +ℤ share v s fee_wallet platform (neg_ℤ fee)
          +ℤ share v s r.wallet_id tx.currency (withdrawal_change event r.amount)
    pub one : count_where (is_balance_of v s) db'.wallet_balances ≡ 1

  pub settled_lem :
      (r : Withdrawal) (db : Db) {db' : Db} (c : Currency)
      → count_where (is_balance_of v s) db.wallet_balances ≡ 1
      → reg.get_one_currency r.currency ≡ ok c
      → settle_withdrawal reg w tx event fee fee_wallet r db ≡ ok db'
      → IsSettled r c.platform db db'
  unfolding settle_withdrawal change_balance settle_balance insert_wallet_log balance_of logged_of
  settled_lem r db {db'} c one named e =
      let (found, hf, k) =
        >>=-eq-ok
          (or_throw Error.wallet_balance_not_found
            (find_first (has_wallet r.wallet_id) db.wallet_balances))
          _ e in
      let its : found.wallet_id ≡ r.wallet_id =
        (==_iff found.wallet_id r.wallet_id).0
          (find_first-Has (has_wallet r.wallet_id) found db.wallet_balances
            (or_throw-eq-ok Error.wallet_balance_not_found _ hf)).1 in
      let done = ok-injective _ _ (rw named at k) in
      let change = withdrawal_change event r.amount in
      let moved =
        update_where (is_balance_of r.wallet_id r.currency)
          (settle_row w change (withdrawal_total_change event r.amount)) db.wallet_balances in
      let one' =
        count_balances v s r.wallet_id r.currency
          (settle_row w change (withdrawal_total_change event r.amount)) change (λ b. refl)
          (λ b. refl) (λ b. refl) db.wallet_balances
        ∙ one in
      subst (λ x. IsSettled r c.platform db x) done
        (record {
          balance =
              sum_balances-update_where v s fee_wallet c.platform (add_to_balance w (neg_ℤ fee))
                (neg_ℤ fee) (λ b. refl) (λ b. refl) (λ b. refl) moved one'
              ∙ ap (λ t. t +ℤ share v s fee_wallet c.platform (neg_ℤ fee))
                  (sum_balances-update_where v s r.wallet_id r.currency
                    (settle_row w change (withdrawal_total_change event r.amount)) change
                    (λ b. refl) (λ b. refl) (λ b. refl) db.wallet_balances one);
          logs =
              sum_logs-insert_row v s _ _
              ∙ rw its (
                  ap (λ t. t +ℤ share v s r.wallet_id tx.currency change)
                    (sum_logs-insert_row v s _ db.wallet_logs));
          one =
              count_balances v s fee_wallet c.platform (add_to_balance w (neg_ℤ fee)) (neg_ℤ fee)
                (λ b. refl) (λ b. refl) (λ b. refl) moved
              ∙ one';
        })

same_drift : (a l x y : ℤ) → a +ℤ x +ℤ y -ℤ (l +ℤ y +ℤ x) ≡ a -ℤ l
same_drift a l x y = grind int_laws

module _ (reg : Registry) (w : World) (tx : WithdrawalTx) (event : WithdrawalEvent) (fee : ℤ)
    (v : ℕ) (s : String) where
  settled_drift :
      (fee_wallet : ℕ) (r : Withdrawal) (platform : String) (db db' : Db)
      → r.currency ≡ tx.currency
      → IsSettled reg w tx event fee fee_wallet v s r platform db db'
      → drift v s db' ≡ drift v s db
  unfolding drift
  settled_drift fee_wallet r platform db db' same effect =
      let change = share v s r.wallet_id tx.currency (withdrawal_change event r.amount) in
      let charge = share v s fee_wallet platform (neg_ℤ fee) in
      let held : balance_of v s db' ≡ balance_of v s db +ℤ change +ℤ charge =
        subst
          (λ q.
            balance_of v s db'
            ≡ balance_of v s db
              +ℤ share v s r.wallet_id q (withdrawal_change event r.amount)
              +ℤ charge)
          same effect.balance in
      rw (held, effect.logs) (same_drift (balance_of v s db) (logged_of v s db) change charge)

  IsSettled-some :
      (fee_wallet : ℕ) (r : Withdrawal) (db : Db) {db' : Db}
      → count_where (is_balance_of v s) db.wallet_balances ≡ 1
      → settle_withdrawal reg w tx event fee fee_wallet r db ≡ ok db'
      → (platform : String) × IsSettled reg w tx event fee fee_wallet v s r platform db db'
  unfolding settle_withdrawal
  IsSettled-some fee_wallet r db one e =
      let (found, hf, k) =
        >>=-eq-ok
          (or_throw Error.wallet_balance_not_found
            (find_first (has_wallet r.wallet_id) db.wallet_balances))
          _ e in
      let (c, named, k') = >>=-eq-ok (reg.get_one_currency r.currency) _ k in
      (c.platform, settled_lem reg w tx event fee fee_wallet v s r db c one named e)

  settle_each-drift :
      (fee_wallet : ℕ) (rs : List Withdrawal) (db : Db) {db' : Db}
      → count_where (is_balance_of v s) db.wallet_balances ≡ 1
      → ((r : Withdrawal) → Has r rs → r.currency ≡ tx.currency)
      → settle_each reg w tx event fee fee_wallet rs db ≡ ok db'
      → drift v s db' ≡ drift v s db
  settle_each-drift fee_wallet [] db one same e = ap (drift v s) (sym (ok-injective _ _ e))
  settle_each-drift fee_wallet (r ∷ rs) db one same e =
      let (db1, first, rest) =
        >>=-eq-ok (settle_withdrawal reg w tx event fee fee_wallet r db) _ e in
      let (platform, effect) = IsSettled-some fee_wallet r db one first in
      settle_each-drift fee_wallet rs db1 effect.one (λ x m. same x (inr m)) rest
      ∙ settled_drift fee_wallet r platform db db1 (same r (inl refl)) effect

  -- Where `updateWithdrawalTxWallets` does not throw, the withdrawals of the transaction have its
  -- currency, and a wallet has one balance row for a currency, that balance and the logs of it change
  -- by the same amount: what the balance holds beyond its logs stays the same.
  pub update_withdrawal_tx_wallets-drift :
      (db : Db) {db' : Db}
      → count_where (is_balance_of v s) db.wallet_balances ≡ 1
      → ((r : Withdrawal)
          → Has r db.withdrawals
          → r.withdrawal_tx_id ≡ tx.id
          → r.currency ≡ tx.currency)
      → update_withdrawal_tx_wallets reg w tx event fee db ≡ ok db'
      → drift v s db' ≡ drift v s db
  unfolding update_withdrawal_tx_wallets
  update_withdrawal_tx_wallets-drift db {db'} one same e =
      all (select (is_in_tx tx.id) db.withdrawals) in_tx e
    where
      in_tx :
          (r : Withdrawal)
          → Has r (select (is_in_tx tx.id) db.withdrawals)
          → r.currency ≡ tx.currency
      in_tx r m =
          let (there, passes) = Has-select (is_in_tx tx.id) r db.withdrawals m in
          same r there ((==_iff r.withdrawal_tx_id tx.id).0 passes)

      all :
          (rs : List Withdrawal)
          → ((r : Withdrawal) → Has r rs → r.currency ≡ tx.currency)
          → settle_all reg w tx event fee rs db ≡ ok db'
          → drift v s db' ≡ drift v s db
      all [] h k = ap (drift v s) (sym (ok-injective _ _ k))
      all (r ∷ rs) h k = settle_each-drift r.wallet_id (r ∷ rs) db one h k
