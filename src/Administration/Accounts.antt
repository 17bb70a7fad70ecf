-- ===== src/Administration/Accounts.antt =====
-- Wallets, their secrets and their addresses. The key service and the generator of seeds are parameters.
use drx_wallet.Base.{
  ℕ, ◌&&◌, ◌||◌, ◌==◌, Bool, true, false, Option, none, some, List, [], ◌∷◌, String, str_eq,
  if◌then◌else◌, find_first, count_where, suc,
}
use drx_wallet.Base.Outcome.{Outcome, ok, err, Error, ◌>>=◌, or_throw}
use drx_wallet.Base.Upserts.{save_row}
use drx_wallet.Schema.{
  Db, Wallet, Address, HotWallet, Withdrawal, WithdrawalTx, WithdrawalStatus, has_status,
}
use drx_wallet.RawDb.Threshold.{default_user_id}
use drx_wallet.RawDb.Deposits.{has_row}
use drx_wallet.Administration.{Office}
use drx_wallet.Administration.Tokens.{is_wallet_for}

-- An account of the library that makes addresses.
pub record Account : Type 0 where
  pub address : String
  pub private_key : String

abbrev pub is_row_of : Address → Address → Bool
is_row_of a b =
    str_eq b.address a.address && (str_eq b.hd_path a.hd_path && str_eq b.secret a.secret)

-- `save` of a list of addresses.
abbrev save_addresses_in : List Address → List Address → List Address
save_addresses_in [] rows = rows
save_addresses_in (a ∷ new_rows) rows = save_addresses_in new_rows (save_row (is_row_of a) a rows)

abbrev hd_addresses : (ℕ → String) → ℕ → String → ℕ → List Account → List Address
hd_addresses path wallet_id currency index [] = []
hd_addresses path wallet_id currency index (account ∷ accounts) =
    record {
      wallet_id = wallet_id;
      currency = currency;
      address = account.address;
      hd_path = path index;
      secret = account.private_key;
      is_hd = true;
      is_external = false;
    }
    ∷ hd_addresses path wallet_id currency (suc index) accounts

-- `saveAddresses`; `path` puts an index behind the path.
unfoldable pub save_addresses : ℕ → String → List Account → (ℕ → String) → ℕ → Db → Db
save_addresses wallet_id currency accounts path first_index db = record db {
  addresses =
      save_addresses_in (hd_addresses path wallet_id currency first_index accounts) db.addresses;
}

abbrev plain_addresses : String → ℕ → String → List Account → List Address
plain_addresses path wallet_id currency [] = []
plain_addresses path wallet_id currency (account ∷ accounts) =
    record {
      wallet_id = wallet_id;
      currency = currency;
      address = account.address;
      hd_path = path;
      secret = account.private_key;
      is_hd = false;
      is_external = false;
    }
    ∷ plain_addresses path wallet_id currency accounts

-- `saveNotHDAddresses`
unfoldable pub save_not_hd_addresses : ℕ → String → List Account → String → Db → Db
save_not_hd_addresses wallet_id currency accounts path db = record db {
  addresses = save_addresses_in (plain_addresses path wallet_id currency accounts) db.addresses;
}

-- `findWalletId`
abbrev pub find_wallet_id : String → ℕ
find_wallet_id currency =
    if str_eq currency "btc"
    then 1001
    else if str_eq currency "eth"
    then 1006
    else if str_eq currency "eos"
    then 1002
    else if str_eq currency "ltc"
    then 1005
    else if str_eq currency "xrp"
    then 1004
    else 1003

abbrev is_wallet_row : Wallet → Wallet → Bool
is_wallet_row w v = v.id == w.id

abbrev pub lacks_secret : Wallet → Bool
lacks_secret w = w.is_hd && str_eq w.secret ""

-- A wallet with a secret, which is a new seed where it is missing.
abbrev pub with_secret : Outcome String → Wallet → Outcome Wallet
with_secret seed w =
    if lacks_secret w then (seed >>= λ secret. ok (record w { secret = secret })) else ok w

-- `findOrCreateWallet`: a wallet that is not there is written to all the same, which throws.
unfoldable pub find_or_create_wallet : Outcome String → String → Db → Outcome (Wallet × Db)
find_or_create_wallet seed currency db = do
  wallet ← or_throw Error.null_reference (find_first (is_wallet_for currency) db.wallets)
  filled ← with_secret seed wallet
  ok (filled, record db { wallets = save_row (is_wallet_row filled) filled db.wallets })

abbrev save_secrets : (Wallet → Outcome String) → List Wallet → Outcome (List Wallet)
save_secrets seed [] = ok []
save_secrets seed (w ∷ ws) = do
  filled ← with_secret (seed w) w
  rest ← save_secrets seed ws
  ok (filled ∷ rest)

-- `saveSecret`
unfoldable pub save_secret : (Wallet → Outcome String) → Db → Outcome Db
save_secret seed db = save_secrets seed db.wallets >>= λ rows. ok (record db { wallets = rows })

abbrev pub is_hot_wallet_for : String → HotWallet → Bool
is_hot_wallet_for currency h = str_eq h.currency currency

abbrev pub is_address_for : String → Address → Bool
is_address_for currency a = str_eq a.currency currency

abbrev pub is_hot_wallet_at : String → HotWallet → Bool
is_hot_wallet_at address h = str_eq h.address address

-- `findHotWalletWithoutAddress`
unfoldable pub find_hot_wallet_without_address : String → Db → Option HotWallet
find_hot_wallet_without_address currency db = find_first (is_hot_wallet_for currency) db.hot_wallets

-- `countAddresses`
unfoldable pub count_addresses : String → Db → ℕ
count_addresses currency db = count_where (is_address_for currency) db.addresses

-- The first data key; the row with the key 0 counts as none.
abbrev pub data_key : List ℕ → Outcome ℕ
data_key [] = err Error.missing_data_key
data_key (k ∷ ks) = if k == 0 then err Error.missing_data_key else ok k

abbrev pub new_hot_wallet : ℕ → String → String → String → HotWallet
new_hot_wallet wallet_id currency address secret = record {
  user_id = default_user_id;
  wallet_id = wallet_id;
  address = address;
  currency = currency;
  is_normal = true;
  secret = secret;
  is_external = false;
}

abbrev pub new_address : ℕ → String → String → String → Address
new_address wallet_id currency address secret = record {
  wallet_id = wallet_id;
  currency = currency;
  address = address;
  hd_path = "NOT_HD";
  secret = secret;
  is_hd = false;
  is_external = false;
}

-- `addAddressOneAddressCurrencyDB`; `encrypt` gives the text that holds the encrypted key and the data
-- key.
unfoldable pub add_address_one_address_currency_db :
    (ℕ → String → Outcome String) → String → String → String → Office → Outcome Office
add_address_one_address_currency_db encrypt currency address private_key st =
    if has_row (find_first (is_hot_wallet_for currency) st.db.hot_wallets)
      || has_row (find_first (is_address_for currency) st.db.addresses)
    then err Error.already_has_address
    else do
      wallet ← or_throw Error.missing_wallet (find_first (is_wallet_for currency) st.db.wallets)
      key ← data_key st.kms_data_keys
      secret ← encrypt key private_key
      let row = new_address wallet.id currency address secret
      ok (record st {
        db = record st.db {
          addresses = save_row (is_row_of row) row st.db.addresses;
          hot_wallets =
              save_row (is_hot_wallet_at address) (new_hot_wallet wallet.id currency address secret)
                st.db.hot_wallets;
        };
      })

abbrev is_signing_row : ℕ → Withdrawal → Bool
is_signing_row id w = w.id == id && has_status w.status WithdrawalStatus.signing

abbrev tx_id_of : Option Withdrawal → Option ℕ
tx_id_of none = none
tx_id_of (some w) = some w.withdrawal_tx_id

-- `findIdDB`
unfoldable pub find_id_db : ℕ → Db → Option ℕ
find_id_db id db = tx_id_of (find_first (is_signing_row id) db.withdrawals)

abbrev is_tx_row : ℕ → WithdrawalTx → Bool
is_tx_row id t = t.id == id

abbrev txid_of : Option WithdrawalTx → Option String
txid_of none = none
txid_of (some t) = t.txid

-- `findTxHashDB`
unfoldable pub find_tx_hash_db : ℕ → Db → Option String
find_tx_hash_db id db = txid_of (find_first (is_tx_row id) db.withdrawal_txs)
