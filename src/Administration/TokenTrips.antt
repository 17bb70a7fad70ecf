-- ===== src/Administration/TokenTrips.antt =====
-- A token that is added and deleted.
use drx_wallet.Base.{
  ℕ, ◌≡◌, refl, ap, ◌∙◌, none, some, List, [], ◌∷◌, String, arith, find_first, insert_row, ==_refl,
}
use text.Mathlib.TextPositions.{eq_refl}
use drx_wallet.Base.Outcome.{ok, ◌>>=◌}
use drx_wallet.Base.Upserts.{find_first-insert_row, delete_where-insert_row}
use drx_wallet.Schema.{World, Wallet, WalletBalance}
use drx_wallet.Administration.{Erc20Token, Office}
use drx_wallet.Administration.Settings.{get_network_db}
use drx_wallet.Administration.Tokens.{
  token_currency, is_wallet_for, is_balance_in, is_balance_for, new_balance, has_symbol,
  has_contract, new_token, add_erc20_db, delete_erc20_db,
}

-- No balance of a currency is none of it in any wallet.
none_in_wallet :
    (wallet_id : ℕ) (currency : String) (rows : List WalletBalance)
    → find_first (is_balance_for currency) rows ≡ none
    → find_first (is_balance_in wallet_id currency) rows ≡ none
none_in_wallet wallet_id currency [] e = refl
none_in_wallet wallet_id currency (b ∷ rows) e =
    ground (arith, none_in_wallet wallet_id currency rows)

module _ (w : World) (symbol name contract : String) (decimal : ℕ) (st : Office)
    (wallet : Wallet) where
  abbrev token : Erc20Token
  token = new_token symbol name contract decimal (get_network_db st)

  abbrev balance : WalletBalance
  balance = new_balance w wallet.id (token_currency contract)

  abbrev with_token : Office
  with_token = record st {
    erc20_tokens = insert_row token st.erc20_tokens;
    db = record st.db { wallet_balances = insert_row balance st.db.wallet_balances };
  }

  add_new :
      find_first (is_wallet_for "eth") st.db.wallets ≡ some wallet
      → find_first (has_symbol symbol) st.erc20_tokens ≡ none
      → find_first (is_balance_for (token_currency contract)) st.db.wallet_balances ≡ none
      → add_erc20_db w symbol name contract decimal st ≡ ok with_token
  unfolding add_erc20_db
  add_new funded free unused =
      rw
        (
          funded,
          free,
          none_in_wallet wallet.id (token_currency contract) st.db.wallet_balances unused,
        )
        refl

  delete_new :
      find_first (has_symbol symbol) st.erc20_tokens ≡ none
      → find_first (has_contract contract) st.erc20_tokens ≡ none
      → find_first (is_balance_for (token_currency contract)) st.db.wallet_balances ≡ none
      → delete_erc20_db contract with_token ≡ ok st
  unfolding delete_erc20_db
  delete_new free new_ unused =
      rw
        (
          find_first-insert_row (has_contract contract) token st.erc20_tokens new_
              (eq_refl contract),
          find_first-insert_row (is_balance_for (token_currency contract)) balance
              st.db.wallet_balances unused (eq_refl (token_currency contract)),
          delete_where-insert_row (has_symbol symbol) token st.erc20_tokens free (eq_refl symbol),
          delete_where-insert_row (is_balance_in wallet.id (token_currency contract)) balance
              st.db.wallet_balances
              (none_in_wallet wallet.id (token_currency contract) st.db.wallet_balances unused)
              (rw (eq_refl (token_currency contract)) (==_refl wallet.id)),
        )
        refl

  -- Where Ethereum has a wallet, and the symbol, the contract and the currency of a token are new, adding the
  -- token and deleting it restores the database.
  pub delete_erc20_db-add_erc20_db :
      find_first (is_wallet_for "eth") st.db.wallets ≡ some wallet
      → find_first (has_symbol symbol) st.erc20_tokens ≡ none
      → find_first (has_contract contract) st.erc20_tokens ≡ none
      → find_first (is_balance_for (token_currency contract)) st.db.wallet_balances ≡ none
      → (add_erc20_db w symbol name contract decimal st >>= delete_erc20_db contract) ≡ ok st
  delete_erc20_db-add_erc20_db funded free new_ unused =
      ap (λ o. o >>= delete_erc20_db contract) (add_new funded free unused)
      ∙ delete_new free new_ unused
