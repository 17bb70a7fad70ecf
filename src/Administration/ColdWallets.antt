-- ===== src/Administration/ColdWallets.antt =====
-- A cold wallet that is saved is the one that is found.
use drx_wallet.Base.{
  ◌≡◌, refl, sym, ap, ◌∙◌, inl, inr, true, false, Option, none, some, String, str_eq, eq_iff,
  Bool-cases, find_first, find_first-Has,
}
use text.Mathlib.TextPositions.{eq_refl}
use drx_wallet.Base.Outcome.{ok, Error, >>=-eq-ok, ok-injective, or_throw}
use drx_wallet.Base.Upserts.{find_first-save_row, find_first-save_other}
use drx_wallet.Schema.{Db, Wallet, ColdWallet}
use drx_wallet.Administration.Settings.{
  is_cold_wallet_for, find_cold_wallet_for, is_own_wallet, cold_wallet_at, save_cold_wallet,
}

-- Two texts that equal a third are equal.
other_currency :
    (currency other : String) (c : ColdWallet)
    → str_eq other currency ≡ false
    → is_cold_wallet_for currency c ≡ true
    → is_cold_wallet_for other c ≡ false
other_currency currency other c apart same = elim (Bool-cases (is_cold_wallet_for other c)) [
  | inl t ↦
      let e = sym ((eq_iff c.currency other).0 t) ∙ (eq_iff c.currency currency).0 same in
      cc ((eq_iff other currency).1 e, apart)
  | inr f ↦ f
]

cold_wallet_at_lem :
    (currency address : String) (wallet : Wallet) (db : Db) (o : Option ColdWallet)
    → find_first (is_cold_wallet_for currency) db.cold_wallets ≡ o
    → (is_cold_wallet_for currency (cold_wallet_at currency address wallet o) ≡ true)
      × ((cold_wallet_at currency address wallet o).address ≡ address)
cold_wallet_at_lem currency address wallet db none e = (eq_refl currency, refl)
cold_wallet_at_lem currency address wallet db (some c) e =
    ((find_first-Has (is_cold_wallet_for currency) c db.cold_wallets e).1, refl)

-- Where `saveColdWallet` does not throw on an address that is not empty, `findColdWallet` gives for the
-- currency a cold wallet of that currency and address, and for every other currency what it gave before.
pub find_cold_wallet_for-save_cold_wallet :
    (currency address platform_currency other : String) (db : Db) {db' : Db}
    → str_eq address "" ≡ false
    → str_eq other currency ≡ false
    → save_cold_wallet currency address platform_currency db ≡ ok db'
    → (c : ColdWallet) × (find_cold_wallet_for currency db' ≡ some c)
      × (c.currency ≡ currency)
      × (c.address ≡ address)
      × (find_cold_wallet_for other db' ≡ find_cold_wallet_for other db)
unfolding save_cold_wallet find_cold_wallet_for
find_cold_wallet_for-save_cold_wallet currency address platform_currency other db filled apart e =
    let (wallet, hw, k) =
      >>=-eq-ok
        (or_throw Error.missing_wallet (find_first (is_own_wallet platform_currency) db.wallets)) _
        (rw filled at e) in
    let c =
      cold_wallet_at currency address wallet
        (find_first (is_cold_wallet_for currency) db.cold_wallets) in
    let (own, there) = cold_wallet_at_lem currency address wallet db _ refl in
    let now_ = sym (ok-injective _ _ k) in
    (
      c,
      ap (λ (x : Db). find_first (is_cold_wallet_for currency) x.cold_wallets) now_
          ∙ find_first-save_row (is_cold_wallet_for currency) c db.cold_wallets own,
      (eq_iff c.currency currency).0 own,
      there,
      ap (λ (x : Db). find_first (is_cold_wallet_for other) x.cold_wallets) now_
          ∙ find_first-save_other (is_cold_wallet_for currency) (is_cold_wallet_for other) c
              db.cold_wallets (λ x same. other_currency currency other x apart same)
              (other_currency currency other c apart own),
    )
