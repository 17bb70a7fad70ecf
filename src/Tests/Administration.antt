-- ===== src/Tests/Administration.antt =====
-- An office with wallets of Bitcoin and Ethereum, a token and a cold wallet.
use drx_wallet.Base.{ℕ, ◌≡◌, refl, true, false, some, List, [], ◌∷◌, String, find_first, map}
use drx_wallet.Base.Int.{pos, negsuc, ◌+ℤ◌}
use drx_wallet.Base.Outcome.{Outcome, ok, err, Error, ◌>>=◌}
use drx_wallet.Base.Text.{join_dot}
use drx_wallet.Schema.{Db, Wallet, ColdWallet, WalletBalance}
use drx_wallet.Chain.{TransferEntry, extract_input_entries, extract_sender_addresses}
use drx_wallet.Administration.{Office, Erc20Token}
use drx_wallet.Administration.Settings.{find_cold_wallet_for, save_cold_wallet}
use drx_wallet.Administration.Tokens.{is_wallet_for, add_erc20_db, delete_erc20_db}
use drx_wallet.Administration.Thresholds.{save_currency_threshold_info}
use drx_wallet.Administration.Accounts.{
  is_hot_wallet_at, add_address_one_address_currency_db, find_or_create_wallet,
}
use drx_wallet.Administration.Reports.{amount_transfer_cold_to_hot}
use drx_wallet.Administration.ColdWallets.{find_cold_wallet_for-save_cold_wallet}
use drx_wallet.Administration.TokenTrips.{delete_erc20_db-add_erc20_db}
use drx_wallet.Administration.OneAddress.{add_address_once}
use drx_wallet.Tests.Fixtures.{new_db, world, registry}

abbrev eth_wallet : Wallet
eth_wallet = record { id = 1006; user_id = 1; currency = "eth"; is_hd = true; secret = "seed" }

abbrev xrp_wallet : Wallet
xrp_wallet = record { id = 1004; user_id = 1; currency = "xrp"; is_hd = false; secret = "" }

abbrev old_token : Erc20Token
old_token = record {
  symbol = "old";
  name = "Old";
  contract_address = "0x1";
  decimal = 18;
  network = "testnet";
}

abbrev office : Office
office = record {
  db = record new_db { wallets = eth_wallet ∷ (xrp_wallet ∷ new_db.wallets) };
  env_configs = [];
  erc20_tokens = old_token ∷ [];
  currency_configs = [];
  kms_data_keys = 7 ∷ [];
}

unfoldable cold_db : Db
unfolding save_cold_wallet
cold_db = (elim (save_cold_wallet "btc" "cold" "btc" new_db) [ ok db ↦ db | err e ↦ new_db ])

cold_saved : save_cold_wallet "btc" "cold" "btc" new_db ≡ ok cold_db
unfolding cold_db
cold_saved = refl

find_cold_wallet_for-save_cold_wallet_example :
    (c : ColdWallet) × (find_cold_wallet_for "btc" cold_db ≡ some c)
    × (c.currency ≡ "btc")
    × (c.address ≡ "cold")
    × (find_cold_wallet_for "eth" cold_db ≡ find_cold_wallet_for "eth" new_db)
find_cold_wallet_for-save_cold_wallet_example =
    find_cold_wallet_for-save_cold_wallet "btc" "cold" "btc" "eth" new_db refl refl cold_saved

no_wallet : save_cold_wallet "eth" "cold" "eth" new_db ≡ err Error.missing_wallet
unfolding save_cold_wallet
no_wallet = refl

delete_erc20_db-add_erc20_db_example :
    (add_erc20_db world "tok" "Token" "0xab" 18 office >>= delete_erc20_db "0xab") ≡ ok office
unfolding join_dot
delete_erc20_db-add_erc20_db_example =
    delete_erc20_db-add_erc20_db world "tok" "Token" "0xab" 18 office eth_wallet refl refl refl refl

-- A token whose symbol is taken replaces the other one, which cannot be deleted any more.
taken_symbol :
    (add_erc20_db world "old" "Token" "0xab" 18 office >>= delete_erc20_db "0x1")
    ≡ err Error.missing_token
unfolding add_erc20_db delete_erc20_db join_dot
taken_symbol = refl

abbrev encrypt : ℕ → String → Outcome String
encrypt key private_key = ok "encrypted"

unfoldable given : Office
unfolding add_address_one_address_currency_db
given = elim (add_address_one_address_currency_db encrypt "xrp" "r1" "key" office) [
  | ok st ↦ st
  | err e ↦ office
]

given_once : add_address_one_address_currency_db encrypt "xrp" "r1" "key" office ≡ ok given
unfolding given
given_once = refl

add_address_once_example :
    (add_address_one_address_currency_db encrypt "xrp" "r2" "other" given
      ≡ err Error.already_has_address)
    × ((wallet : Wallet) × (key : ℕ) × (others : List ℕ) × (secret : String) × (find_first
            (is_wallet_for "xrp")
            office.db.wallets
          ≡ some wallet)
        × (office.kms_data_keys ≡ key ∷ others)
        × (encrypt key "key" ≡ ok secret)
        × (find_first (is_hot_wallet_at "r1") given.db.hot_wallets
            ≡ some (record {
              user_id = 1;
              wallet_id = wallet.id;
              address = "r1";
              currency = "xrp";
              is_normal = true;
              secret = secret;
              is_external = false;
            })))
add_address_once_example =
    add_address_once encrypt encrypt "xrp" "r1" "key" "r2" "other" office given_once

unfoldable threshold_db : Db
unfolding save_currency_threshold_info
threshold_db = elim (save_currency_threshold_info world "btc" (pos 10) (pos 101) new_db) [
  | ok db ↦ db
  | err e ↦ new_db
]

thresholds_saved :
    save_currency_threshold_info world "btc" (pos 10) (pos 101) new_db ≡ ok threshold_db
unfolding threshold_db
thresholds_saved = refl

middles :
    map (λ (b : WalletBalance). b.middle_threshold) threshold_db.wallet_balances
    ≡ some (pos 56) ∷ []
unfolding threshold_db ◌+ℤ◌
middles = refl

-- A wallet that is not there is not created.
never_created : find_or_create_wallet (ok "seed") "ltc" new_db ≡ err Error.null_reference
unfolding find_or_create_wallet
never_created = refl

-- What a cold wallet has sent counts as nothing.
abbrev from_cold_tx : List TransferEntry
from_cold_tx =
    record { address = "a"; amount = negsuc 0 }
    ∷ (record { address = "b"; amount = negsuc 0 }
        ∷ (record { address = "cold"; amount = negsuc 8 } ∷ []))

nothing_sent :
    amount_transfer_cold_to_hot registry (λ txids. ok (from_cold_tx ∷ [])) "btc" cold_db
    ≡ ok (pos 0)
unfolding amount_transfer_cold_to_hot cold_db extract_input_entries extract_sender_addresses
nothing_sent = refl
