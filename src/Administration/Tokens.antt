-- ===== src/Administration/Tokens.antt =====
-- Tokens of Ethereum in the database.
use drx_wallet.Base.{
  ℕ, ◌&&◌, ◌==◌, Bool, Option, none, some, List, String, str_eq, find_first, insert_row,
}
use drx_wallet.Base.Int.{pos}
use drx_wallet.Base.Outcome.{Outcome, ok, err, Error, ◌>>=◌, or_throw}
use drx_wallet.Base.Text.{join_dot}
use drx_wallet.Base.Upserts.{save_row, delete_where}
use drx_wallet.Schema.{World, Wallet, WalletBalance}
use drx_wallet.Administration.{Erc20Token, Office}
use drx_wallet.Administration.Settings.{get_network_db}

-- `PREFIX_ERC20 + contractAddress`
abbrev pub token_currency : String → String
token_currency contract = join_dot "erc20" contract

abbrev pub is_wallet_for : String → Wallet → Bool
is_wallet_for currency w = str_eq w.currency currency

abbrev pub is_balance_in : ℕ → String → WalletBalance → Bool
is_balance_in wallet_id currency b = str_eq b.currency currency && b.wallet_id == wallet_id

abbrev pub is_balance_for : String → WalletBalance → Bool
is_balance_for currency b = str_eq b.currency currency

abbrev pub new_balance : World → ℕ → String → WalletBalance
new_balance w wallet_id currency = record {
  wallet_id = wallet_id;
  currency = currency;
  balance = pos 0;
  withdrawal_pending = pos 0;
  withdrawal_total = pos 0;
  lower_threshold = none;
  upper_threshold = none;
  middle_threshold = none;
  minimum_collect_amount = none;
  updated_at = w.now;
}

-- A balance that is there is saved without a change, which writes nothing.
abbrev pub keep_or_insert :
    Option WalletBalance → WalletBalance → List WalletBalance → List WalletBalance
keep_or_insert none b rows = insert_row b rows
keep_or_insert (some found) b rows = rows

abbrev pub has_symbol : String → Erc20Token → Bool
has_symbol symbol t = str_eq t.symbol symbol

abbrev pub has_contract : String → Erc20Token → Bool
has_contract contract t = str_eq t.contract_address contract

abbrev pub new_token : String → String → String → ℕ → String → Erc20Token
new_token symbol name contract decimal network = record {
  symbol = symbol;
  name = name;
  contract_address = contract;
  decimal = decimal;
  network = network;
}

-- `addErc20DB`; the key of a token is its symbol.
unfoldable pub add_erc20_db : World → String → String → String → ℕ → Office → Outcome Office
add_erc20_db w symbol name contract decimal st = do
  wallet ← or_throw Error.null_reference (find_first (is_wallet_for "eth") st.db.wallets)
  let currency = token_currency contract
  ok (record st {
    erc20_tokens =
        save_row (has_symbol symbol) (new_token symbol name contract decimal (get_network_db st))
          st.erc20_tokens;
    db = record st.db {
      wallet_balances =
          keep_or_insert (find_first (is_balance_in wallet.id currency) st.db.wallet_balances)
            (new_balance w wallet.id currency) st.db.wallet_balances;
    };
  })

abbrev delete_token : Option Erc20Token → List Erc20Token → List Erc20Token
delete_token none rows = rows
delete_token (some t) rows = delete_where (has_symbol t.symbol) rows

abbrev delete_balance : Option WalletBalance → List WalletBalance → List WalletBalance
delete_balance none rows = rows
delete_balance (some b) rows = delete_where (is_balance_in b.wallet_id b.currency) rows

abbrev pub delete_found : Option Erc20Token → Option WalletBalance → Office → Outcome Office
delete_found none none st = err Error.missing_token
delete_found token balance st = ok (record st {
  erc20_tokens = delete_token token st.erc20_tokens;
  db = record st.db { wallet_balances = delete_balance balance st.db.wallet_balances };
})

-- `deleteErc20DB`: each row is deleted by its key.
unfoldable pub delete_erc20_db : String → Office → Outcome Office
delete_erc20_db contract st =
    delete_found (find_first (has_contract contract) st.erc20_tokens)
      (find_first (is_balance_for (token_currency contract)) st.db.wallet_balances) st
