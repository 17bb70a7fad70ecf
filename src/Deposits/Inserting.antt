-- ===== src/Deposits/Inserting.antt =====
-- What `insertDeposit` does where it does not throw.
use drx_wallet.Base.{
  ℕ, ◌≡◌, refl, sym, ap, subst, inl, inr, ◌⊎◌, Bool, true, false, some, Bool-cases, count_where,
  find_first, insert_row, ltb, arith, ◌<◌,
}
use drx_wallet.Base.Int.{pos, leb_ℤ}
use drx_wallet.Base.Outcome.{Outcome, ok, Error, or_throw, >>=-eq-ok, or_throw-eq-ok, ok-injective}
use drx_wallet.Schema.{Db, World, Registry, Address, Wallet, Deposit}
use drx_wallet.RawDb.Logs.{
  insert_wallet_log, insert_deposit_log, insert_webhook_progress, deposit_user,
}
use drx_wallet.RawDb.Balances.{is_balance_of, increase_wallet_balance}
use drx_wallet.RawDb.Deposits.{
  Output, is_address, has_wallet_id, is_deposit_of, new_deposit, finish_deposit, record_deposit,
  insert_for, insert_deposit, user_of,
}

-- What finishing a deposit leaves alone.
pub record IsFinishedFrom (db db' : Db) : Type 0 where
  pub deposits : db'.deposits ≡ db.deposits
  pub addresses : db'.addresses ≡ db.addresses
  pub wallets : db'.wallets ≡ db.wallets
  pub hot_wallets : db'.hot_wallets ≡ db.hot_wallets
  pub transfers : db'.internal_transfers ≡ db.internal_transfers

finish_deposit_lem :
    (w : World) (o : Output) (external : Bool) (wallet : Wallet) (d : Deposit) (db : Db) {db' : Db}
    → finish_deposit w o external wallet d db ≡ ok db'
    → IsFinishedFrom db db'
unfolding insert_deposit_log insert_wallet_log increase_wallet_balance insert_webhook_progress
finish_deposit_lem w o true wallet d db e =
    let (user, hu, k) = >>=-eq-ok (deposit_user d.id (user_of wallet) db) _ e in
    subst (IsFinishedFrom db) (ok-injective _ _ k) (record {
      deposits = refl;
      addresses = refl;
      wallets = refl;
      hot_wallets = refl;
      transfers = refl;
    })
finish_deposit_lem w o false wallet d db e =
    let (found, hf, k) =
      >>=-eq-ok
        (or_throw Error.wallet_balance_not_found
          (find_first (is_balance_of wallet.id o.currency) db.wallet_balances))
        _ e in
    let (user, hu, k') = >>=-eq-ok (deposit_user d.id (user_of wallet) _) _ k in
    subst (IsFinishedFrom db) (ok-injective _ _ k') (record {
      deposits = refl;
      addresses = refl;
      wallets = refl;
      hot_wallets = refl;
      transfers = refl;
    })

module _ (reg : Registry) where
  -- What `insertDeposit` does where it does not throw.
  pub record IsInserted (w : World) (o : Output) (db db' : Db) : Type 0 where
    pub address : Address
    pub wallet : Wallet
    pub found_address : find_first (is_address o.address) db.addresses ≡ some address
    pub found_wallet : find_first (has_wallet_id address.wallet_id) db.wallets ≡ some wallet
    pub same_addresses : db'.addresses ≡ db.addresses
    pub same_wallets : db'.wallets ≡ db.wallets
    pub same_hot_wallets : db'.hot_wallets ≡ db.hot_wallets
    pub same_transfers : db'.internal_transfers ≡ db.internal_transfers
    pub rows :
        ((db'.deposits ≡ db.deposits)
          × ((0 < count_where (is_deposit_of o) db.deposits) ⊎ (leb_ℤ o.amount (pos 0) ≡ true)))
        ⊎ ((db'.deposits ≡ insert_row (new_deposit w o address wallet db) db.deposits)
            × (count_where (is_deposit_of o) db.deposits ≡ 0))

  insert_for_lem :
      (w : World) (o : Output) (address : Address) (wallet : Wallet) (db : Db) {db' : Db}
      → find_first (is_address o.address) db.addresses ≡ some address
      → find_first (has_wallet_id address.wallet_id) db.wallets ≡ some wallet
      → insert_for reg w o address wallet db ≡ ok db'
      → IsInserted w o db db'
  unfolding insert_for record_deposit
  insert_for_lem w o address wallet db {db'} at_address at_wallet e =
      elim (Bool-cases (ltb 0 (count_where (is_deposit_of o) db.deposits))) [
        | inl t ↦ unchanged (rw t at e) (inl (ground arith))
        | inr n ↦ elim (Bool-cases (leb_ℤ o.amount (pos 0))) [
          | inl worthless ↦ unchanged (rw (n, worthless) at e) (inr worthless)
          | inr worth ↦
              let d = new_deposit w o address wallet db in
              let (c, hc, k) = >>=-eq-ok (reg.get_one_currency o.currency) _ (rw (n, worth) at e) in
              let done =
                finish_deposit_lem w o address.is_external wallet d
                  (record db { deposits = insert_row d db.deposits }) k in
              record {
                address = address;
                wallet = wallet;
                found_address = at_address;
                found_wallet = at_wallet;
                same_addresses = done.addresses;
                same_wallets = done.wallets;
                same_hot_wallets = done.hot_wallets;
                same_transfers = done.transfers;
                rows = inr (done.deposits, zero_of _ n);
              }
        ]
      ]
    where
      zero_of : (n : ℕ) → ltb 0 n ≡ false → n ≡ 0
      zero_of n h = ground arith

      unchanged :
          ◌≡◌ {A = Outcome Db} (ok db) (ok db')
          → ((0 < count_where (is_deposit_of o) db.deposits) ⊎ (leb_ℤ o.amount (pos 0) ≡ true))
          → IsInserted w o db db'
      unchanged same why = record {
        address = address;
        wallet = wallet;
        found_address = at_address;
        found_wallet = at_wallet;
        same_addresses = ap (λ (x : Db). x.addresses) (sym (ok-injective _ _ same));
        same_wallets = ap (λ (x : Db). x.wallets) (sym (ok-injective _ _ same));
        same_hot_wallets = ap (λ (x : Db). x.hot_wallets) (sym (ok-injective _ _ same));
        same_transfers = ap (λ (x : Db). x.internal_transfers) (sym (ok-injective _ _ same));
        rows = inl (ap (λ (x : Db). x.deposits) (sym (ok-injective _ _ same)), why);
      }

  pub insert_deposit_lem :
      (w : World) (o : Output) (db : Db) {db' : Db}
      → insert_deposit reg w o db ≡ ok db'
      → IsInserted w o db db'
  unfolding insert_deposit
  insert_deposit_lem w o db {db'} e =
      let (address, ha, k) =
        >>=-eq-ok (or_throw Error.entity_not_found (find_first (is_address o.address) db.addresses))
          _ e in
      let (wallet, hw, k1) =
        >>=-eq-ok
          (or_throw Error.entity_not_found
            (find_first (has_wallet_id address.wallet_id) db.wallets))
          _ k in
      insert_for_lem w o address wallet db (or_throw-eq-ok Error.entity_not_found _ ha)
        (or_throw-eq-ok Error.entity_not_found _ hw) k1
