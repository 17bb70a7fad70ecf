-- ===== src/Ledger/Fees.antt =====
-- What a verified transaction takes from the balance of its wallet.
use drx_wallet.Base.{
  ℕ, ◌≡◌, refl, sym, ◌∙◌, subst, inl, inr, some, List, [], ◌∷◌, String, Option-cases, length,
  select, count_where, count_where_zero, find_first, find_first-none, Has, Has-select, arith,
  ==_refl, ==_iff, eq_iff,
}
use drx_wallet.Base.Int.{ℤ, ◌+ℤ◌, ◌-ℤ◌, neg_ℤ, int_laws, times, times_zero, times-suc}
use drx_wallet.Base.Outcome.{ok}
use drx_wallet.Schema.{
  Db, World, Registry, Currency, Withdrawal, WithdrawalTx, WithdrawalEvent, WalletBalance,
}
use drx_wallet.RawDb.Status.{is_in_tx}
use drx_wallet.RawDb.Balances.{
  is_balance_of, has_wallet, settle_withdrawal, settle_each, settle_all,
  update_withdrawal_tx_wallets,
}
use drx_wallet.Ledger.{balance_of, sum_amounts}
use drx_wallet.Ledger.Movements.{share}
use drx_wallet.Ledger.Withdrawals.{settled_lem}

module _ (reg : Registry) (w : World) (tx : WithdrawalTx) (fee : ℤ) (v : ℕ) (s : String)
    (c : Currency) (named : reg.get_one_currency s ≡ ok c) (native : c.platform ≡ s) where
  find_row :
      (db : Db)
      → count_where (is_balance_of v s) db.wallet_balances ≡ 1
      → (b : WalletBalance) × (find_first (has_wallet v) db.wallet_balances ≡ some b)
  find_row db one = elim (Option-cases (find_first (has_wallet v) db.wallet_balances)) [
    | inl nothing ↦
        let zero_rows = count_where_zero (is_balance_of v s) db.wallet_balances (λ b m.
          let other = find_first-none (has_wallet v) b db.wallet_balances nothing m in
          ground (arith, other)) in
        absurd (ground (arith, one, zero_rows))
    | inr found ↦ found
  ]

  share_own : (change : ℤ) → share v s v s change ≡ change
  share_own change = rw (==_refl v, (eq_iff s s).1 refl)

  body_runs :
      (r : Withdrawal) (db : Db)
      → count_where (is_balance_of v s) db.wallet_balances ≡ 1
      → r.wallet_id ≡ v
      → r.currency ≡ s
      → (db' : Db) × (settle_withdrawal reg w tx WithdrawalEvent.completed fee v r db ≡ ok db')
  unfolding settle_withdrawal
  body_runs r db one at_v at_s =
      let (b, found) = find_row db one in rw (at_v, at_s, found, named) (_, refl)

  one_less :
      (a x f rest fees : ℤ)
      → a +ℤ neg_ℤ x +ℤ neg_ℤ f -ℤ rest -ℤ fees ≡ a -ℤ (x +ℤ rest) -ℤ (f +ℤ fees)
  one_less a x f rest fees = grind int_laws

  settle_each_fees :
      (rs : List Withdrawal) (db : Db)
      → count_where (is_balance_of v s) db.wallet_balances ≡ 1
      → ((r : Withdrawal) → Has r rs → (r.wallet_id ≡ v) × (r.currency ≡ s))
      → (db' : Db) × (settle_each reg w tx WithdrawalEvent.completed fee v rs db ≡ ok db')
        × (balance_of v s db' ≡ balance_of v s db -ℤ sum_amounts rs -ℤ times (length rs) fee)
  settle_each_fees [] db one same = (db, refl, rw (times_zero fee) (grind int_laws))
  settle_each_fees (r ∷ rs) db one same =
      let (at_v, at_s) = same r (inl refl) in
      let (db1, ran) = body_runs r db one at_v at_s in
      let effect =
        settled_lem reg w tx WithdrawalEvent.completed fee v v s r db c one (rw at_s named) ran in
      let (db2, rest, total) = settle_each_fees rs db1 effect.one (λ x m. same x (inr m)) in
      let first : balance_of v s db1 ≡ balance_of v s db +ℤ neg_ℤ r.amount +ℤ neg_ℤ fee =
        rw (at_v, at_s, native, share_own (neg_ℤ r.amount), share_own (neg_ℤ fee)) at
          effect.balance in
      (
        db2,
        rw ran rest,
        total
            ∙ rw (first, times-suc (length rs) fee)
                (one_less (balance_of v s db) r.amount fee (sum_amounts rs)
                  (times (length rs) fee)),
      )

  -- For a currency that is its own platform, where all withdrawals of the transaction are of one
  -- wallet and currency and that pair has one balance row, `updateWithdrawalTxWallets` does not throw
  -- on a completed transaction, and the balance falls by the amounts of its withdrawals and by the
  -- network fee taken once for each of them.
  pub update_withdrawal_tx_wallets-fees :
      (db : Db)
      → count_where (is_balance_of v s) db.wallet_balances ≡ 1
      → ((r : Withdrawal)
          → Has r db.withdrawals
          → r.withdrawal_tx_id ≡ tx.id
          → (r.wallet_id ≡ v) × (r.currency ≡ s))
      → (db' : Db) × (update_withdrawal_tx_wallets reg w tx WithdrawalEvent.completed fee db
          ≡ ok db')
        × (balance_of v s db'
            ≡ balance_of v s db
              -ℤ sum_amounts (select (is_in_tx tx.id) db.withdrawals)
              -ℤ times (length (select (is_in_tx tx.id) db.withdrawals)) fee)
  unfolding update_withdrawal_tx_wallets
  update_withdrawal_tx_wallets-fees db one same = all (select (is_in_tx tx.id) db.withdrawals) in_tx
    where
      in_tx :
          (r : Withdrawal)
          → Has r (select (is_in_tx tx.id) db.withdrawals)
          → (r.wallet_id ≡ v) × (r.currency ≡ s)
      in_tx r m =
          let (there, passes) = Has-select (is_in_tx tx.id) r db.withdrawals m in
          same r there ((==_iff r.withdrawal_tx_id tx.id).0 passes)

      all :
          (rs : List Withdrawal)
          → ((r : Withdrawal) → Has r rs → (r.wallet_id ≡ v) × (r.currency ≡ s))
          → (db' : Db) × (settle_all reg w tx WithdrawalEvent.completed fee rs db ≡ ok db')
            × (balance_of v s db' ≡ balance_of v s db -ℤ sum_amounts rs -ℤ times (length rs) fee)
      all [] h = settle_each_fees [] db one h
      all (r ∷ rs) h =
          let (db', ran, total) = settle_each_fees (r ∷ rs) db one h in
          (
            db',
            subst (λ q. settle_each reg w tx WithdrawalEvent.completed fee q (r ∷ rs) db ≡ ok db')
                (sym (h r (inl refl)).0) ran,
            total,
          )
