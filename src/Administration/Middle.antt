-- ===== src/Administration/Middle.antt =====
-- The middle of the thresholds that are saved.
use drx_wallet.Base.{
  ℕ, suc, ◌+◌, subst, ◌/◌, ◌≡◌, refl, sym, ap, ◌∙◌, ==_refl, some, String, eq_iff, arith,
  find_first, find_first-Has,
}
use text.Mathlib.TextPositions.{eq_refl}
use drx_wallet.Base.Int.{ℤ, pos, negsuc, pos_part, neg_part, ◌+ℤ◌, ◌≤ℤ◌, +ℤ_parts, -ℤ_parts}
use drx_wallet.Base.Outcome.{ok, Error, >>=-eq-ok, ok-injective, or_throw, or_throw-eq-ok}
use drx_wallet.Base.Upserts.{save_row, find_first-save_row}
use drx_wallet.Schema.{Db, World, WalletBalance}
use drx_wallet.RawDb.Threshold.{half_up}
use drx_wallet.Administration.Tokens.{is_balance_for, is_balance_in}
use drx_wallet.Administration.Thresholds.{with_thresholds, save_currency_threshold_info}

half_up_between : (s l u : ℤ) → s ≡ u +ℤ l → l ≤ℤ u → (l ≤ℤ half_up s) × (half_up s ≤ℤ u)
half_up_between (pos n) l u e h =
    let sum_ = +ℤ_parts u l in
    let p : pos_part (u +ℤ l) ≡ n = ap pos_part (sym e) in
    let q : neg_part (u +ℤ l) ≡ 0 = ap neg_part (sym e) in
    (omega (arith, sum_, p, q, h), omega (arith, sum_, p, q, h))
half_up_between (negsuc n) l u e h =
    let sum_ = +ℤ_parts u l in
    let p : pos_part (u +ℤ l) ≡ 0 = ap pos_part (sym e) in
    let q : neg_part (u +ℤ l) ≡ suc n = ap neg_part (sym e) in
    let r = -ℤ_parts (pos 0) (pos ((n + 2) / 2)) in
    (omega (arith, sum_, p, q, r, h), omega (arith, sum_, p, q, r, h))

-- Where `saveCurrencyThresholdInfo` does not throw and the lower threshold is not above the upper one, a
-- balance of the currency has these two thresholds afterwards, and a middle between them.
pub save_currency_threshold_info_lem :
    (w : World) (currency : String) (lower upper : ℤ) (db : Db) {db' : Db}
    → lower ≤ℤ upper
    → save_currency_threshold_info w currency lower upper db ≡ ok db'
    → (b : WalletBalance) × (wallet_id : ℕ) × (find_first
          (is_balance_in wallet_id currency)
          db'.wallet_balances
        ≡ some b)
      × (b.lower_threshold ≡ some lower)
      × (b.upper_threshold ≡ some upper)
      × ((middle : ℤ) × (b.middle_threshold ≡ some middle) × (lower ≤ℤ middle) × (middle ≤ℤ upper))
unfolding save_currency_threshold_info
save_currency_threshold_info_lem w currency lower upper db ordered e =
    let (b, hb, k) =
      >>=-eq-ok
        (or_throw Error.wallet_balance_not_found
          (find_first (is_balance_for currency) db.wallet_balances))
        _ e in
    let (m, own) =
      find_first-Has (is_balance_for currency) b db.wallet_balances (or_throw-eq-ok _ _ hb) in
    let same : b.currency ≡ currency = (eq_iff b.currency currency).0 own in
    (
      with_thresholds w lower upper b,
      b.wallet_id,
      ap (λ (x : Db). find_first (is_balance_in b.wallet_id currency) x.wallet_balances)
            (sym (ok-injective _ _ k))
          ∙ subst
              (λ c.
                find_first (is_balance_in b.wallet_id c) (
                  save_row (is_balance_in b.wallet_id b.currency) (with_thresholds w lower upper b)
                    db.wallet_balances)
                ≡ some (with_thresholds w lower upper b))
              same
              (find_first-save_row (is_balance_in b.wallet_id b.currency)
                (with_thresholds w lower upper b) db.wallet_balances
                (rw (eq_refl b.currency, ==_refl b.wallet_id) refl)),
      refl,
      refl,
      (
        half_up (upper +ℤ lower),
        refl,
        (half_up_between (upper +ℤ lower) lower upper refl ordered).0,
        (half_up_between (upper +ℤ lower) lower upper refl ordered).1,
      ),
    )
