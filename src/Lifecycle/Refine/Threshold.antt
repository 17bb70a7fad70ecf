-- ===== src/Lifecycle/Refine/Threshold.antt =====
-- Bringing hot wallets down to their thresholds asks for withdrawals to the cold wallet.
use drx_wallet.Base.{
  Bool, ◌≡◌, refl, sym, ap, ◌∙◌, subst, inl, inr, Option, none, some, List, [], ◌∷◌, map, String,
  Bool-cases, find_first, str_eq, insert_row, arith,
}
use drx_wallet.Base.Int.{ℤ, ◌-ℤ◌, ltb_ℤ}
use drx_wallet.Base.Outcome.{Outcome, ok, Error, or_throw, >>=-eq-ok, ok-injective}
use drx_wallet.Base.Saves.{Has-contains}
use drx_wallet.Base.Views.{Has-map_inv, map-insert_row}
use drx_wallet.Schema.{
  Db, World, Registry, IsFresh, Currency, Wallet, HotWallet, ColdWallet, WalletBalance, Withdrawal,
  is_pending,
}
use drx_wallet.RawDb.Keys.{withdrawal_key}
use drx_wallet.RawDb.HotWallets.{check_hot_wallet_is_busy, find_free_hot_wallets}
use drx_wallet.RawDb.Threshold.{
  find_total_amount_withdrawl_pending, find_cold_wallet, excess, cold_withdrawal, bring_down,
  bring_down_between, handle_balance, upper_threshold_handle, handle_wallets, handle_currencies,
  check_upper_threshold,
}
use drx_wallet.Lifecycle.{Request, request_of, machine, new_request, request, Steps, here, next}
use drx_wallet.Lifecycle.Refine.Frames.{machine_eq}
use drx_wallet.Lifecycle.Refine.Moves.{no_Steps, Steps-append}

module _ (reg : Registry) (strict : Bool) (ends : Bool) (w : World) (fresh : IsFresh w) where
  -- A new row is a request.
  pub insert_withdrawal_Steps :
      (row : Withdrawal) (db : Db)
      → row.id ≡ w.new_id (map withdrawal_key db.withdrawals)
      → request_of row ≡ new_request row.id row.currency row.from_address
      → Steps reg strict ends
          (machine db)
          (machine (record db { withdrawals = insert_row row db.withdrawals }))
  insert_withdrawal_Steps row db key new = next here (
      request row.id row.currency row.from_address
        (λ r m same.
          let (x, there, e) = Has-map_inv request_of r db.withdrawals m in
          let used = Has-contains withdrawal_key x db.withdrawals there in
          let free = fresh.unused (map withdrawal_key db.withdrawals) in
          let at : x.id ≡ w.new_id (map withdrawal_key db.withdrawals) =
            sym (ap (λ (q : Request). q.id) e) ∙ sym same ∙ key in
          absurd (ground (arith, rw at at used)))
        (machine_eq
          (map-insert_row request_of row db.withdrawals
            ∙ ap (λ q. insert_row q (map request_of db.withdrawals)) new)
          refl))

  bring_down-Steps :
      (c : Currency) (h : HotWallet) (cold : ColdWallet) (upper lower : ℤ) (middle : Option ℤ)
      (db : Db) {db' : Db}
      → bring_down w c h cold upper lower middle db ≡ ok db'
      → Steps reg strict ends (machine db) (machine db')
  unfolding bring_down
  bring_down-Steps c h cold upper lower middle db {db'} e =
      let (balance, hb, k) =
        >>=-eq-ok ((w.gateway_of c.symbol).get_address_balance h.address) _ e in
      let real = balance -ℤ find_total_amount_withdrawl_pending c.symbol db in
      let row = cold_withdrawal w c h cold (excess real upper lower middle) db.withdrawals in
      elim (Bool-cases (ltb_ℤ real upper)) [
        | inl low ↦
            no_Steps reg strict ends (machine db) (machine db')
              (ap machine (sym (ok-injective _ _ (rw low at k))))
        | inr high ↦
            subst (λ x. Steps reg strict ends (machine db) (machine x))
              (ok-injective _ _ (rw high at k)) (insert_withdrawal_Steps row db refl refl)
      ]

  unseen :
      (db : Db) {db' : Db}
      → ◌≡◌ {A = Outcome Db} (ok db) (ok db')
      → Steps reg strict ends (machine db) (machine db')
  unseen db {db'} e =
      no_Steps reg strict ends (machine db) (machine db') (ap machine (sym (ok-injective _ _ e)))

  handle_balance-Steps :
      (c : Currency) (h : HotWallet) (b : Option WalletBalance) (db : Db) {db' : Db}
      → handle_balance w c h b db ≡ ok db'
      → Steps reg strict ends (machine db) (machine db')
  handle_balance-Steps c h none db e = unseen db e
  handle_balance-Steps c h (some b) db e =
      between (find_cold_wallet h.wallet_id c db) b.lower_threshold b.upper_threshold e
    where
      between :
          (cold : Option ColdWallet) (lower upper : Option ℤ) {db' : Db}
          → bring_down_between w c h cold b lower upper db ≡ ok db'
          → Steps reg strict ends (machine db) (machine db')
      between none lower upper k = unseen db k
      between (some cold) (some lower) (some upper) k =
          bring_down-Steps c h cold upper lower b.middle_threshold db k
      between (some cold) none upper k = unseen db k
      between (some cold) (some lower) none k = unseen db k

  upper_threshold_handle-Steps :
      (c : Currency) (h : HotWallet) (db : Db) {db' : Db}
      → upper_threshold_handle w c h db ≡ ok db'
      → Steps reg strict ends (machine db) (machine db')
  unfolding upper_threshold_handle
  upper_threshold_handle-Steps c h db e =
      elim (Bool-cases (check_hot_wallet_is_busy h is_pending db)) [
        | inl busy ↦ unseen db (rw busy at e)
        | inr idle ↦ handle_balance-Steps c h _ db (rw idle at e)
      ]

  handle_wallets-Steps :
      (c : Currency) (hs : List HotWallet) (db : Db) {db' : Db}
      → handle_wallets w c hs db ≡ ok db'
      → Steps reg strict ends (machine db) (machine db')
  handle_wallets-Steps c [] db e = unseen db e
  handle_wallets-Steps c (h ∷ hs) db e =
      let (db1, one, rest) = >>=-eq-ok (upper_threshold_handle w c h db) _ e in
      Steps-append reg strict ends (upper_threshold_handle-Steps c h db one)
        (handle_wallets-Steps c hs db1 rest)

  handle_currencies-Steps :
      (cs : List Currency) (hs : List HotWallet) (db : Db) {db' : Db}
      → handle_currencies w cs hs db ≡ ok db'
      → Steps reg strict ends (machine db) (machine db')
  handle_currencies-Steps [] hs db e = unseen db e
  handle_currencies-Steps (c ∷ cs) hs db e =
      let (db1, one, rest) = >>=-eq-ok (handle_wallets w c hs db) _ e in
      Steps-append reg strict ends (handle_wallets-Steps c hs db one)
        (handle_currencies-Steps cs hs db1 rest)

  -- Where `checkUpperThreshold` does not throw, it only adds new requests.
  pub check_upper_threshold-Steps :
      (platform : String) (db : Db) {db' : Db}
      → check_upper_threshold reg w platform db ≡ ok db'
      → Steps reg strict ends (machine db) (machine db')
  unfolding check_upper_threshold
  check_upper_threshold-Steps platform db e =
      let (wallet, found, k) =
        >>=-eq-ok
          (or_throw Error.entity_not_found
            (find_first (λ (r : Wallet). str_eq r.currency platform) db.wallets))
          _ e in
      handle_currencies-Steps (reg.get_currencies_of_platform platform)
        (find_free_hot_wallets wallet.id platform db) db k
