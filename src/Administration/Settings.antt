-- ===== src/Administration/Settings.antt =====
-- Cold wallets, thresholds and the settings of the environment.
use drx_wallet.Base.{
  ◌&&◌, ◌==◌, Bool, Option, none, some, List, String, str_eq, if◌then◌else◌, find_first, select,
  update_where,
}
use drx_wallet.Base.Outcome.{Outcome, ok, err, Error, ◌>>=◌, or_throw}
use drx_wallet.Base.Upserts.{save_row, delete_where}
use drx_wallet.Schema.{Db, World, Wallet, ColdWallet, WalletBalance, contains_text}
use drx_wallet.RawDb.Threshold.{default_user_id}
use drx_wallet.Administration.{EnvConfig, CurrencyConfig, Office}

abbrev pub is_cold_wallet_for : String → ColdWallet → Bool
is_cold_wallet_for currency c = str_eq c.currency currency

-- `findColdWallet`
unfoldable pub find_cold_wallet_for : String → Db → Option ColdWallet
find_cold_wallet_for currency db = find_first (is_cold_wallet_for currency) db.cold_wallets

abbrev pub is_own_wallet : String → Wallet → Bool
is_own_wallet currency w = str_eq w.currency currency && w.user_id == default_user_id

-- The row that was there, or a new one, with the new address.
abbrev pub cold_wallet_at : String → String → Wallet → Option ColdWallet → ColdWallet
cold_wallet_at currency address wallet none = record {
  user_id = default_user_id;
  wallet_id = wallet.id;
  address = address;
  currency = currency;
}
cold_wallet_at currency address wallet (some c) = record c { address = address }

-- `saveColdWallet`; the type of a cold wallet is always `common`.
unfoldable pub save_cold_wallet : String → String → String → Db → Outcome Db
unfolding find_cold_wallet_for
save_cold_wallet currency address platform_currency db = if str_eq address "" then ok db else do
  wallet ← or_throw Error.missing_wallet (find_first (is_own_wallet platform_currency) db.wallets)
  let c = cold_wallet_at currency address wallet (find_cold_wallet_for currency db)
  ok (record db { cold_wallets = save_row (is_cold_wallet_for currency) c db.cold_wallets })

abbrev pub is_cold_wallet_among : List String → ColdWallet → Bool
is_cold_wallet_among currencies c = contains_text c.currency currencies

-- `resetColdWallet`
unfoldable pub reset_cold_wallet : List String → Db → Db
reset_cold_wallet currencies db = record db {
  cold_wallets = delete_where (is_cold_wallet_among currencies) db.cold_wallets;
}

abbrev pub is_balance_among : List String → WalletBalance → Bool
is_balance_among currencies b = contains_text b.currency currencies

abbrev pub without_thresholds : World → WalletBalance → WalletBalance
without_thresholds w b = record b {
  lower_threshold = none;
  upper_threshold = none;
  middle_threshold = none;
  updated_at = w.now;
}

-- `resetSettingThreshold`
unfoldable pub reset_setting_threshold : World → List String → Db → Db
reset_setting_threshold w currencies db = record db {
  wallet_balances =
      update_where (is_balance_among currencies) (without_thresholds w) db.wallet_balances;
}

abbrev pub is_setting : String → EnvConfig → Bool
is_setting key e = str_eq e.key key

abbrev pub value_or : String → Option EnvConfig → String
value_or default none = default
value_or default (some e) = e.value

-- `getNetworkDB`
unfoldable pub get_network_db : Office → String
get_network_db st = value_or "testnet" (find_first (is_setting "NETWORK") st.env_configs)

abbrev mail_key : String
mail_key = "MAIL_HOLDER_COLD_WALLET"

-- `saveMailerReceive`
unfoldable pub save_mailer_receive : String → Office → Office
save_mailer_receive receiver st = record st {
  env_configs =
      save_row (is_setting mail_key) (record { key = mail_key; value = receiver }) st.env_configs;
}

-- `mailerReceive`
unfoldable pub mailer_receive : Office → List EnvConfig
mailer_receive st = select (is_setting mail_key) st.env_configs

abbrev is_config_of : String → CurrencyConfig → Bool
is_config_of currency c = str_eq c.currency currency

-- `findHdPathDB`; an empty path counts as none.
unfoldable pub find_hd_path_db : String → Office → Outcome String
find_hd_path_db currency st = do
  config ← or_throw Error.null_reference (find_first (is_config_of currency) st.currency_configs)
  if str_eq config.hd_path "" then err Error.unsupported_hd else ok config.hd_path
