-- ===== src/Administration/OneAddress.antt =====
-- A currency with one address gets it once.
use drx_wallet.Base.{
  ℕ, ◌≡◌, refl, sym, ap, ◌∙◌, inl, inr, Bool, true, false, ◌||◌, Option, none, some, String,
  Bool-cases, arith, ◌==◌, find_first, insert_row, update_where, List, [], ◌∷◌,
}
use text.Mathlib.TextPositions.{eq_refl}
use drx_wallet.Base.Outcome.{
  Outcome, ok, err, Error, >>=-eq-ok, ok-injective, or_throw, or_throw-eq-ok,
}
use drx_wallet.Base.Upserts.{save_row, save_over, find_first-save_row}
use drx_wallet.Schema.{Wallet}
use drx_wallet.RawDb.Deposits.{has_row}
use drx_wallet.RawDb.Threshold.{default_user_id}
use drx_wallet.Administration.{Office}
use drx_wallet.Administration.Tokens.{is_wallet_for}
use drx_wallet.Administration.Accounts.{
  is_hot_wallet_for, is_address_for, is_hot_wallet_at, data_key, new_hot_wallet,
  add_address_one_address_currency_db,
}

module _ {A : Type 0} (p q : A → Bool) (r : A) where
  has_row-insert_row :
      (rows : List A) → q r ≡ true → has_row (find_first q (insert_row r rows)) ≡ true
  has_row-insert_row [] h = rw h refl
  has_row-insert_row (x ∷ xs) h = ground (arith, has_row-insert_row xs h)

  has_row-update_where :
      (a : A) (rows : List A)
      → find_first p rows ≡ some a
      → q r ≡ true
      → has_row (find_first q (update_where p (λ x. r) rows)) ≡ true
  has_row-update_where a [] e h = cc
  has_row-update_where a (x ∷ xs) e h = ground (arith, has_row-update_where a xs)

  has_row-save_over :
      (rows : List A) (o : Option A)
      → find_first p rows ≡ o
      → q r ≡ true
      → has_row (find_first q (save_over o p r rows)) ≡ true
  has_row-save_over rows none e h = has_row-insert_row rows h
  has_row-save_over rows (some a) e h = has_row-update_where a rows e h

  -- A query that the saved entity passes finds a row.
  has_row-save_row :
      (rows : List A) → q r ≡ true → has_row (find_first q (save_row p r rows)) ≡ true
  has_row-save_row rows h = has_row-save_over rows (find_first p rows) refl h

data_key_lem :
    (keys : List ℕ) {key : ℕ} → data_key keys ≡ ok key → (others : List ℕ) × (keys ≡ key ∷ others)
data_key_lem [] e = cc
data_key_lem (k ∷ ks) e = elim (Bool-cases (k == 0)) [
  | inl t ↦ cc (rw t at e)
  | inr n ↦ (ks, ap (λ x. x ∷ ks) (ok-injective _ _ (rw n at e)))
]

-- After `addAddressOneAddressCurrencyDB` has given a currency its address, it refuses every further address
-- of that currency, and the hot wallet at the address is of the currency and of the wallet that was found for
-- it, and holds the private key as it is encrypted with the first data key.
pub add_address_once :
    (encrypt encrypt' : ℕ → String → Outcome String)
    (currency address private_key address' private_key' : String) (st : Office) {st' : Office}
    → add_address_one_address_currency_db encrypt currency address private_key st ≡ ok st'
    → (add_address_one_address_currency_db encrypt' currency address' private_key' st'
        ≡ err Error.already_has_address)
      × ((wallet : Wallet) × (key : ℕ) × (others : List ℕ) × (secret : String) × (find_first
              (is_wallet_for currency)
              st.db.wallets
            ≡ some wallet)
          × (st.kms_data_keys ≡ key ∷ others)
          × (encrypt key private_key ≡ ok secret)
          × (find_first (is_hot_wallet_at address) st'.db.hot_wallets
              ≡ some (record {
                user_id = default_user_id;
                wallet_id = wallet.id;
                address = address;
                currency = currency;
                is_normal = true;
                secret = secret;
                is_external = false;
              })))
unfolding add_address_one_address_currency_db
add_address_once encrypt encrypt' currency address private_key address' private_key' st {st'} e =
    elim (Bool-cases (
      has_row (find_first (is_hot_wallet_for currency) st.db.hot_wallets)
      || has_row (find_first (is_address_for currency) st.db.addresses))) [
        | inl taken ↦ cc (rw taken at e)
        | inr free ↦
            let (wallet, hw, k) =
              >>=-eq-ok
                (or_throw Error.missing_wallet (find_first (is_wallet_for currency) st.db.wallets))
                _ (rw free at e) in
            let (key, hk, k1) = >>=-eq-ok (data_key st.kms_data_keys) _ k in
            let (secret, hs, k2) = >>=-eq-ok (encrypt key private_key) _ k1 in
            let (others, keys) = data_key_lem st.kms_data_keys hk in
            let h = new_hot_wallet wallet.id currency address secret in
            let there : has_row (find_first (is_hot_wallet_for currency) st'.db.hot_wallets)
                ≡ true =
              ap
                (λ (x : Office). has_row (find_first (is_hot_wallet_for currency) x.db.hot_wallets))
                (sym (ok-injective _ _ k2))
              ∙ has_row-save_row (is_hot_wallet_at address) (is_hot_wallet_for currency) h
                  st.db.hot_wallets (eq_refl currency) in
            (
              rw there refl,
              (
                wallet,
                key,
                others,
                secret,
                or_throw-eq-ok _ _ hw,
                keys,
                hs,
                ap (λ (x : Office). find_first (is_hot_wallet_at address) x.db.hot_wallets)
                      (sym (ok-injective _ _ k2))
                    ∙ find_first-save_row (is_hot_wallet_at address) h st.db.hot_wallets
                        (eq_refl address),
              ),
            )
      ]
