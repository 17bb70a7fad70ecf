-- ===== src/Administration/Thresholds.antt =====
-- The thresholds of a currency.
use drx_wallet.Base.{
  Bool, Option, none, some, List, [], ◌∷◌, map, String, str_eq, if◌then◌else◌, find_first,
}
use drx_wallet.Base.Int.{ℤ, ◌+ℤ◌}
use drx_wallet.Base.Outcome.{Outcome, ok, Error, ◌>>=◌, or_throw}
use drx_wallet.Base.Text.{to_lower}
use drx_wallet.Base.Upserts.{save_row}
use drx_wallet.Schema.{Db, World, Registry, ColdWallet, WalletBalance}
use drx_wallet.RawDb.Threshold.{half_up}
use drx_wallet.Administration.Settings.{is_cold_wallet_for}
use drx_wallet.Administration.Tokens.{is_balance_for, is_balance_in}

-- The column of the middle rounds to its last digit.
abbrev pub with_thresholds : World → ℤ → ℤ → WalletBalance → WalletBalance
with_thresholds w lower upper b = record b {
  upper_threshold = some upper;
  lower_threshold = some lower;
  middle_threshold = some (half_up (upper +ℤ lower));
  updated_at = w.now;
}

-- `saveCurrencyThresholdInfo`
unfoldable pub save_currency_threshold_info : World → String → ℤ → ℤ → Db → Outcome Db
save_currency_threshold_info w currency lower upper db = do
  b ←
      or_throw Error.wallet_balance_not_found
        (find_first (is_balance_for currency) db.wallet_balances)
  ok (record db {
    wallet_balances =
        save_row (is_balance_in b.wallet_id b.currency) (with_thresholds w lower upper b)
          db.wallet_balances;
  })

-- A row of `getSettingThresholdDB`; `network_symbol` is set at its end.
pub record Setting : Type 0 where
  pub currency : String
  pub upper_threshold : Option ℤ
  pub lower_threshold : Option ℤ
  pub address : Option String
  pub network_symbol : String

abbrev address_of : Option ColdWallet → Option String
address_of none = none
address_of (some c) = some c.address

abbrev setting_of : Db → WalletBalance → Setting
setting_of db b = record {
  currency = b.currency;
  upper_threshold = b.upper_threshold;
  lower_threshold = b.lower_threshold;
  address = address_of (find_first (is_cold_wallet_for b.currency) db.cold_wallets);
  network_symbol = "";
}

abbrev or_token : {A : Type 0} → Option A → Option A → Option A
or_token none other = other
or_token (some a) other = some a

-- An empty address counts as none.
abbrev or_address : Option String → Option String → Option String
or_address none other = other
or_address (some a) other = if str_eq a "" then other else some a

abbrev is_eos_token : Setting → Bool
is_eos_token s = str_eq (to_lower s.currency) "eos.eos"

abbrev fill_from : Option Setting → Setting → Setting
fill_from none s = s
fill_from (some token) s = record s {
  upper_threshold = or_token s.upper_threshold token.upper_threshold;
  lower_threshold = or_token s.lower_threshold token.lower_threshold;
  address = or_address s.address token.address;
}

-- What EOS lacks is taken from its token.
abbrev fill_eos : List Setting → Setting → Setting
fill_eos all_settings s =
    if str_eq s.currency "eos" then fill_from (find_first is_eos_token all_settings) s else s

-- `filterObject` of each
abbrev name_each : Registry → List Setting → Outcome (List Setting)
name_each reg [] = ok []
name_each reg (s ∷ settings) = do
  c ← reg.get_one_currency s.currency
  rest ← name_each reg settings
  ok (record s { network_symbol = c.network_symbol } ∷ rest)

-- `getSettingThresholdDB`
unfoldable pub get_setting_threshold_db : Registry → Db → Outcome (List Setting)
get_setting_threshold_db reg db =
    let settings = map (setting_of db) db.wallet_balances in
    name_each reg (map (fill_eos settings) settings)
