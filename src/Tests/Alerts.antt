-- ===== src/Tests/Alerts.antt =====
-- A hot wallet that holds less than what waits to be withdrawn.
use drx_wallet.Base.{◌≡◌, ◌⊎◌, refl, map, some, none, List, [], ◌∷◌, String}
use drx_wallet.Base.Int.{ℤ, pos, ◌+ℤ◌, ◌-ℤ◌, ◌<ℤ◌, ◌≤ℤ◌}
use drx_wallet.Base.Outcome.{Outcome, ok, err, Error}
use drx_wallet.Schema.{Db, Currency, HotWallet}
use drx_wallet.RawDb.Threshold.{find_total_amount_withdrawl_pending}
use drx_wallet.RawDb.Alerts.{
  small_balance, insufficient_balance, Mail, sum_amounts, amounts_of, IsMissingMail,
  lower_threshold_handle, check_insufficient_balance, check_insufficient_balance_lem,
}
use drx_wallet.Tests.Fixtures.{new_db, asked_db, hot_wallet, btc, wallet_balance}

abbrev balance_of : Currency → String → Outcome ℤ
balance_of c address = ok (pos 30)

abbrev receipt : HotWallet → Outcome String
receipt h = ok h.address

abbrev guarded_db : Db
guarded_db = record new_db {
  wallet_balances = record wallet_balance { lower_threshold = some (pos 40) } ∷ [];
}

warned :
    lower_threshold_handle balance_of btc hot_wallet guarded_db
    ≡ ok (small_balance hot_wallet btc (pos 30) (pos 40) none ∷ [])
unfolding lower_threshold_handle
warned = refl

abbrev missing_mails : List Mail
missing_mails = insufficient_balance hot_wallet.address btc (pos 30) (pos 100) (pos 70) ∷ []

missing_mail :
    check_insufficient_balance balance_of receipt btc (hot_wallet ∷ []) asked_db ≡ ok missing_mails
unfolding check_insufficient_balance find_total_amount_withdrawl_pending asked_db ◌+ℤ◌ ◌-ℤ◌
missing_mail = refl

no_wallets :
    check_insufficient_balance balance_of receipt btc [] asked_db ≡ err Error.null_reference
unfolding check_insufficient_balance find_total_amount_withdrawl_pending asked_db ◌+ℤ◌
no_wallets = refl

check_insufficient_balance_lem_example :
    (balances : List ℤ) × (map (λ (h : HotWallet). balance_of btc h.address) (hot_wallet ∷ [])
      ≡ map ok balances)
    × (((sum_amounts (amounts_of "btc" asked_db.withdrawals) ≤ℤ sum_amounts balances)
          × (missing_mails ≡ []))
        ⊎ ((sum_amounts balances <ℤ sum_amounts (amounts_of "btc" asked_db.withdrawals))
            × IsMissingMail balance_of receipt btc
                (hot_wallet ∷ [])
                (sum_amounts balances)
                (sum_amounts (amounts_of "btc" asked_db.withdrawals))
                missing_mails))
check_insufficient_balance_lem_example =
    check_insufficient_balance_lem balance_of receipt btc (hot_wallet ∷ []) asked_db missing_mail
