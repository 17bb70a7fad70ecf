-- ===== src/Ledger.antt =====
-- The balances of the wallets against the logs of their changes: the tables wallet_balance and
-- wallet_log that libs/wallet-core/src/rawdb writes side by side.
pub mod Movements
pub mod Withdrawals
pub mod Fees
pub mod Deposits
use drx_wallet.Base.{ℕ, Bool, ◌&&◌, ◌==◌, List, [], ◌∷◌, String, str_eq, if◌then◌else◌}
use drx_wallet.Base.Int.{ℤ, pos, ◌+ℤ◌, ◌-ℤ◌}
use drx_wallet.Schema.{Db, WalletBalance, WalletLog, Withdrawal}
use drx_wallet.RawDb.Balances.{is_balance_of}

abbrev pub sum_balances : (WalletBalance → Bool) → List WalletBalance → ℤ
sum_balances p [] = pos 0
sum_balances p (b ∷ bs) = let rest = sum_balances p bs in if p b then b.balance +ℤ rest else rest

abbrev pub is_log_for : ℕ → String → WalletLog → Bool
is_log_for wallet_id currency l = l.wallet_id == wallet_id && str_eq l.currency currency

abbrev pub sum_logs : (WalletLog → Bool) → List WalletLog → ℤ
sum_logs p [] = pos 0
sum_logs p (l ∷ ls) = let rest = sum_logs p ls in if p l then l.balance_change +ℤ rest else rest

-- What a wallet holds of a currency.
unfoldable pub balance_of : ℕ → String → Db → ℤ
balance_of wallet_id currency db =
    sum_balances (is_balance_of wallet_id currency) db.wallet_balances

-- What the logs say of it.
unfoldable pub logged_of : ℕ → String → Db → ℤ
logged_of wallet_id currency db = sum_logs (is_log_for wallet_id currency) db.wallet_logs

-- What the balance holds beyond its logs.
unfoldable pub drift : ℕ → String → Db → ℤ
unfolding balance_of logged_of
drift wallet_id currency db = balance_of wallet_id currency db -ℤ logged_of wallet_id currency db

abbrev pub sum_amounts : List Withdrawal → ℤ
sum_amounts [] = pos 0
sum_amounts (r ∷ rs) = r.amount +ℤ sum_amounts rs
