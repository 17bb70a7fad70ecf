-- ===== src/RawDb/Threshold.antt =====
-- checkBalance.ts and findTotalAmountWithdrawlPending.ts: a hot wallet that holds more than its
-- upper threshold is brought down by a withdrawal to the cold wallet.
use drx_wallet.Base.{
  ℕ, ◌+◌, ◌/◌, Bool, ◌==◌, ◌&&◌, ◌||◌, Option, none, some, List, [], ◌∷◌, map, String, str_eq,
  if◌then◌else◌, find_first, insert_row,
}
use drx_wallet.Base.Int.{ℤ, pos, negsuc, ◌+ℤ◌, ◌-ℤ◌, neg_ℤ, ltb_ℤ}
use drx_wallet.Base.Outcome.{Outcome, ok, Error, ◌>>=◌, or_throw}
use drx_wallet.Schema.{
  Db, World, Registry, Currency, Wallet, HotWallet, ColdWallet, Withdrawal, WithdrawalStatus,
  WalletBalance, Note, is_pending, has_status,
}
use drx_wallet.RawDb.Keys.{withdrawal_key}
use drx_wallet.RawDb.HotWallets.{check_hot_wallet_is_busy, find_free_hot_wallets}
use drx_wallet.RawDb.Balances.{is_balance_of}

abbrev pub is_unfinished : WithdrawalStatus → Bool
is_unfinished s = is_pending s || has_status s WithdrawalStatus.unsigned

-- SUM(amount) of the withdrawals of the currency that are not finished.
abbrev pub sum_unfinished : String → List Withdrawal → ℤ
sum_unfinished currency [] = pos 0
sum_unfinished currency (r ∷ rs) =
    if str_eq r.currency currency && is_unfinished r.status
    then r.amount +ℤ sum_unfinished currency rs
    else sum_unfinished currency rs

unfoldable pub find_total_amount_withdrawl_pending : String → Db → ℤ
find_total_amount_withdrawl_pending currency db = sum_unfinished currency db.withdrawals

abbrev is_cold_wallet_of : ℕ → String → ColdWallet → Bool
is_cold_wallet_of wallet_id currency c = c.wallet_id == wallet_id && str_eq c.currency currency

abbrev first_of : {A : Type 0} → Option A → Option A → Option A
first_of none other = other
first_of (some a) other = some a

-- `findAnyColdWallet`, for the platform, and then for the currency itself.
abbrev pub find_cold_wallet : ℕ → Currency → Db → Option ColdWallet
find_cold_wallet wallet_id c db =
    first_of (find_first (is_cold_wallet_of wallet_id c.platform) db.cold_wallets)
      (find_first (is_cold_wallet_of wallet_id c.symbol) db.cold_wallets)

-- Half of a whole number, rounded to the nearest, away from zero in the middle: what `toFixed` does
-- to the difference of the balance and the middle of the thresholds.
abbrev pub half_up : ℤ → ℤ
half_up (pos n) = pos ((n + 1) / 2)
half_up (negsuc n) = neg_ℤ (pos ((n + 2) / 2))

-- `realBalance.minus(middle)`; the middle is half way between the thresholds if it is not set.
abbrev pub excess : ℤ → ℤ → ℤ → Option ℤ → ℤ
excess real upper lower (some middle) = real -ℤ middle
excess real upper lower none = half_up (real +ℤ real -ℤ (upper +ℤ lower))

abbrev pub default_user_id : ℕ
default_user_id = 1

-- The row that `upperThresholdHandle` saves. Columns that it leaves out take their defaults.
abbrev pub cold_withdrawal :
    World → Currency → HotWallet → ColdWallet → ℤ → List Withdrawal → Withdrawal
cold_withdrawal w c hot_wallet cold_wallet amount rows = record {
  id = w.new_id (map withdrawal_key rows);
  user_id = default_user_id;
  wallet_id = hot_wallet.wallet_id;
  currency = c.symbol;
  withdrawal_tx_id = 0;
  txid = "";
  from_address = hot_wallet.address;
  to_address = cold_wallet.address;
  amount = amount;
  status = WithdrawalStatus.unsigned;
  note = Note.cold_wallet;
  created_at = w.now;
  updated_at = w.now;
}

-- The part of `upperThresholdHandle` that has both thresholds and the cold wallet.
unfoldable pub bring_down :
    World → Currency → HotWallet → ColdWallet → ℤ → ℤ → Option ℤ → Db → Outcome Db
unfolding find_total_amount_withdrawl_pending
bring_down w c hot_wallet cold_wallet upper lower middle db = do
  balance ← (w.gateway_of c.symbol).get_address_balance hot_wallet.address
  let real = balance -ℤ find_total_amount_withdrawl_pending c.symbol db
  let row =
      cold_withdrawal w c hot_wallet cold_wallet (excess real upper lower middle) db.withdrawals
  ok (if ltb_ℤ real upper then db else record db { withdrawals = insert_row row db.withdrawals })

abbrev pub bring_down_between :
    World
    → Currency
    → HotWallet
    → Option ColdWallet
    → WalletBalance
    → Option ℤ
    → Option ℤ
    → Db
    → Outcome Db
bring_down_between w c h none b lower upper db = ok db
bring_down_between w c h (some cold) b (some lower) (some upper) db =
    bring_down w c h cold upper lower b.middle_threshold db
bring_down_between w c h (some cold) b _ _ db = ok db

abbrev pub handle_balance : World → Currency → HotWallet → Option WalletBalance → Db → Outcome Db
handle_balance w c h none db = ok db
handle_balance w c h (some b) db =
    bring_down_between w c h (find_cold_wallet h.wallet_id c db) b b.lower_threshold
      b.upper_threshold db

unfoldable pub upper_threshold_handle : World → Currency → HotWallet → Db → Outcome Db
unfolding check_hot_wallet_is_busy bring_down
upper_threshold_handle w c hot_wallet db =
    if check_hot_wallet_is_busy hot_wallet is_pending db
    then ok db
    else handle_balance w c hot_wallet
        (find_first (is_balance_of hot_wallet.wallet_id c.symbol) db.wallet_balances) db

abbrev pub handle_wallets : World → Currency → List HotWallet → Db → Outcome Db
handle_wallets w c [] db = ok db
handle_wallets w c (h ∷ hs) db = upper_threshold_handle w c h db >>= handle_wallets w c hs

abbrev pub handle_currencies : World → List Currency → List HotWallet → Db → Outcome Db
handle_currencies w [] hs db = ok db
handle_currencies w (c ∷ cs) hs db = handle_wallets w c hs db >>= handle_currencies w cs hs

unfoldable pub check_upper_threshold : Registry → World → String → Db → Outcome Db
unfolding find_free_hot_wallets
check_upper_threshold reg w platform db = do
  wallet ←
      or_throw Error.entity_not_found
        (find_first (λ (r : Wallet). str_eq r.currency platform) db.wallets)
  handle_currencies w (reg.get_currencies_of_platform platform)
      (find_free_hot_wallets wallet.id platform db) db
