-- ===== src/RawDb/HotWallets.antt =====
-- findHotWallets.ts: which hot wallets are free, which are busy, and which holds enough.
use drx_wallet.Base.{
  ℕ, Bool, ◌&&◌, ◌||◌, not, Option, none, some, List, [], ◌∷◌, ◌++◌, map, String, ltb, ◌==◌, str_eq,
  if◌then◌else◌, select, count_where, find_first,
}
use drx_wallet.Base.Int.{ℤ, leb_ℤ}
use drx_wallet.Base.Outcome.{Outcome, ok, Error, ◌>>=◌, or_throw}
use drx_wallet.Schema.{
  Db, World, Currency, Withdrawal, WithdrawalStatus, HotWallet, InternalTransfer, is_pending,
  is_seed, contains_text,
}

abbrev pub is_busy_seed : ℕ → InternalTransfer → Bool
is_busy_seed wallet_id t = t.wallet_id == wallet_id && (is_seed t.type && is_pending t.status)

abbrev pub sender_of : InternalTransfer → String
sender_of t = t.from_address

-- `getBusySeedingHotWallets`
unfoldable pub get_busy_seeding_hot_wallets : ℕ → Db → List String
get_busy_seeding_hot_wallets wallet_id db =
    map sender_of (select (is_busy_seed wallet_id) db.internal_transfers)

abbrev pub is_busy_withdrawal : ℕ → Withdrawal → Bool
is_busy_withdrawal wallet_id r = r.wallet_id == wallet_id && is_pending r.status

abbrev pub source_of : Withdrawal → String
source_of r = r.from_address

-- `getBusyWithdrawingHotWallets`
unfoldable pub get_busy_withdrawing_hot_wallets : ℕ → Db → List String
get_busy_withdrawing_hot_wallets wallet_id db =
    map source_of (select (is_busy_withdrawal wallet_id) db.withdrawals)

-- `getAllBusyHotWallets`. Only membership in the result is ever tested, so that it is not made
-- unique changes nothing.
unfoldable pub get_all_busy_hot_wallets : ℕ → Db → List String
unfolding get_busy_seeding_hot_wallets get_busy_withdrawing_hot_wallets
get_all_busy_hot_wallets wallet_id db =
    get_busy_seeding_hot_wallets wallet_id db ++ get_busy_withdrawing_hot_wallets wallet_id db

abbrev pub is_internal_of : ℕ → String → HotWallet → Bool
is_internal_of wallet_id currency h =
    h.wallet_id == wallet_id && (str_eq h.currency currency && not h.is_external)

abbrev pub is_not_busy : List String → HotWallet → Bool
is_not_busy busy h = not (contains_text h.address busy)

-- `findFreeHotWallets`
unfoldable pub find_free_hot_wallets : ℕ → String → Db → List HotWallet
unfolding get_all_busy_hot_wallets
find_free_hot_wallets wallet_id currency db =
    select (is_not_busy (get_all_busy_hot_wallets wallet_id db))
      (select (is_internal_of wallet_id currency) db.hot_wallets)

-- The loop of `findSufficientHotWallet`: the last wallet that holds the amount. The balances are
-- taken to arrive in the order in which they were asked for.
unfoldable pub last_sufficient :
    World → String → ℤ → Option HotWallet → List HotWallet → Outcome (Option HotWallet)
last_sufficient w symbol amount found [] = ok found
last_sufficient w symbol amount found (h ∷ hs) = do
  balance ← (w.gateway_of symbol).get_address_balance h.address
  last_sufficient w symbol amount (if leb_ℤ amount balance then some h else found) hs

-- `findSufficientHotWallet`
unfoldable pub find_sufficient_hot_wallet :
    World → ℕ → Currency → ℤ → Db → Outcome (Option HotWallet)
unfolding last_sufficient find_free_hot_wallets
find_sufficient_hot_wallet w wallet_id currency amount db =
    last_sufficient w currency.symbol amount none
      (find_free_hot_wallets wallet_id currency.platform db)

-- `getOneHotWallet`
unfoldable pub get_one_hot_wallet : String → String → Db → Outcome HotWallet
get_one_hot_wallet currency address db = or_throw Error.hot_wallet_not_found (
    find_first (λ (h : HotWallet). str_eq h.currency currency && str_eq h.address address)
      db.hot_wallets)

-- `findHotWalletByAddress`
unfoldable pub find_hot_wallet_by_address : String → Db → Option HotWallet
find_hot_wallet_by_address address db =
    find_first (λ (h : HotWallet). str_eq h.address address) db.hot_wallets

-- `checkHotWalletIsBusy`, for the statuses that pass the test.
unfoldable pub check_hot_wallet_is_busy : HotWallet → (WithdrawalStatus → Bool) → Db → Bool
check_hot_wallet_is_busy hot_wallet is_one_of db =
    ltb 0 (
      count_where
        (λ (r : Withdrawal). str_eq r.from_address hot_wallet.address && is_one_of r.status)
        db.withdrawals)
    || ltb 0 (
        count_where (λ (t : InternalTransfer). is_seed t.type && is_one_of t.status)
          db.internal_transfers)

-- `checkHotWalletIsSufficient`
unfoldable pub check_hot_wallet_is_sufficient : World → HotWallet → ℤ → Outcome Bool
check_hot_wallet_is_sufficient w hot_wallet amount = do
  balance ← (w.gateway_of hot_wallet.currency).get_address_balance hot_wallet.address
  ok (leb_ℤ amount balance)

-- `findAnyInternalHotWallet`
unfoldable pub find_any_internal_hot_wallet : ℕ → String → Db → Option HotWallet
find_any_internal_hot_wallet wallet_id currency db =
    find_first (is_internal_of wallet_id currency) db.hot_wallets
