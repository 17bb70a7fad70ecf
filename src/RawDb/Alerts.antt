-- ===== src/RawDb/Alerts.antt =====
-- checkBalance.ts: the mails about hot wallets that hold too little. A mail is what it is sent with, and
-- `balance_of` asks the service of a currency for the balance of an address.
use drx_wallet.Base.{
  ◌≡◌, ◌⊎◌, ◌∙◌, ◌&&◌, ◌||◌, refl, ap, map, select, sym, inl, inr, Option, none, some, List, [],
  ◌∷◌, String, str_eq, if◌then◌else◌, find_first, Bool-cases, Bool, arith,
}
use drx_wallet.Base.Int.{ℤ, pos, ◌+ℤ◌, ◌-ℤ◌, ◌<ℤ◌, ◌≤ℤ◌, leb_ℤ, int_laws}
use drx_wallet.Base.Outcome.{Outcome, ok, err, Error, ◌>>=◌, >>=-eq-ok, ok-injective}
use drx_wallet.Schema.{
  Db, Currency, HotWallet, WalletBalance, Withdrawal, WithdrawalStatus, has_status,
}
use drx_wallet.RawDb.Threshold.{find_total_amount_withdrawl_pending, is_unfinished, sum_unfinished}

pub data Mail : Type 0 where
  small_balance : HotWallet → Currency → ℤ → ℤ → Option ℤ → Mail
  insufficient_balance : String → Currency → ℤ → ℤ → ℤ → Mail

abbrev pub sum_amounts : List ℤ → ℤ
sum_amounts [] = pos 0
sum_amounts (a ∷ amounts) = a +ℤ sum_amounts amounts

-- A withdrawal of the currency that is not settled.
abbrev pub waits : String → Withdrawal → Bool
waits symbol r =
    str_eq r.currency symbol
    && (has_status r.status WithdrawalStatus.unsigned
        || has_status r.status WithdrawalStatus.signing
        || has_status r.status WithdrawalStatus.signed
        || has_status r.status WithdrawalStatus.sent)

abbrev pub amounts_of : String → List Withdrawal → List ℤ
amounts_of symbol rows = map (λ (r : Withdrawal). r.amount) (select (waits symbol) rows)

same_status :
    (s : WithdrawalStatus)
    → is_unfinished s ≡ (
        has_status s WithdrawalStatus.unsigned
        || has_status s WithdrawalStatus.signing
        || has_status s WithdrawalStatus.signed
        || has_status s WithdrawalStatus.sent)
same_status WithdrawalStatus.invalid = refl
same_status WithdrawalStatus.unsigned = refl
same_status WithdrawalStatus.signing = refl
same_status WithdrawalStatus.signed = refl
same_status WithdrawalStatus.sent = refl
same_status WithdrawalStatus.completed = refl
same_status WithdrawalStatus.failed = refl

sum_unfinished_lem :
    (symbol : String) (rows : List Withdrawal)
    → sum_unfinished symbol rows ≡ sum_amounts (amounts_of symbol rows)
sum_unfinished_lem symbol [] = refl
sum_unfinished_lem symbol (r ∷ rows) =
    let same : (str_eq r.currency symbol && is_unfinished r.status) ≡ waits symbol r =
      ap (λ b. str_eq r.currency symbol && b) (same_status r.status) in
    elim (Bool-cases (waits symbol r)) [
      | inl t ↦ rw (same, t) (ap (λ a. r.amount +ℤ a) (sum_unfinished_lem symbol rows))
      | inr n ↦ rw (same, n) (sum_unfinished_lem symbol rows)
    ]

abbrev is_balance_with : String → WalletBalance → Bool
is_balance_with currency b = str_eq b.currency currency

module _ (balance_of : Currency → String → Outcome ℤ) where
  abbrev pub alert_below : Currency → HotWallet → Option ℤ → Option ℤ → Outcome (List Mail)
  alert_below c h none upper = ok []
  alert_below c h (some lower) upper = do
    balance ← balance_of c h.address
    ok (if leb_ℤ lower balance then [] else small_balance h c balance lower upper ∷ [])

  abbrev pub alert_for : Currency → HotWallet → Option WalletBalance → Outcome (List Mail)
  alert_for c h none = ok []
  alert_for c h (some b) = alert_below c h b.lower_threshold b.upper_threshold

  -- `lowerThresholdHandle`
  unfoldable pub lower_threshold_handle : Currency → HotWallet → Db → Outcome (List Mail)
  lower_threshold_handle c h db =
      alert_for c h (find_first (is_balance_with c.symbol) db.wallet_balances)

  abbrev pub total_balance : Currency → List HotWallet → Outcome ℤ
  total_balance c [] = ok (pos 0)
  total_balance c (h ∷ hs) = do
    balance ← balance_of c h.address
    rest ← total_balance c hs
    ok (balance +ℤ rest)

  -- The mail to the first hot wallet; `receipt` is `findRealReceiptAddress`.
  abbrev pub alert_missing :
      (HotWallet → Outcome String) → Currency → List HotWallet → ℤ → ℤ → Outcome (List Mail)
  alert_missing receipt c [] total pending = err Error.null_reference
  alert_missing receipt c (h ∷ hs) total pending = do
    address ← receipt h
    ok (insufficient_balance address c total pending (pending -ℤ total) ∷ [])

  -- `checkInsufficientBalance`
  unfoldable pub check_insufficient_balance :
      (HotWallet → Outcome String) → Currency → List HotWallet → Db → Outcome (List Mail)
  unfolding find_total_amount_withdrawl_pending
  check_insufficient_balance receipt c hot_wallets db = do
    total ← total_balance c hot_wallets
    let pending = find_total_amount_withdrawl_pending c.symbol db
    if leb_ℤ pending total then ok [] else alert_missing receipt c hot_wallets total pending

  total_balance_lem :
      (c : Currency) (hot_wallets : List HotWallet) {total : ℤ}
      → total_balance c hot_wallets ≡ ok total
      → (balances : List ℤ) × (map (λ (h : HotWallet). balance_of c h.address) hot_wallets
          ≡ map ok balances)
        × (total ≡ sum_amounts balances)
  total_balance_lem c [] e = ([], refl, sym (ok-injective _ _ e))
  total_balance_lem c (h ∷ hs) e =
      let (b, hb, k) = >>=-eq-ok (balance_of c h.address) _ e in
      let (rest, hr, k1) = >>=-eq-ok (total_balance c hs) _ k in
      let (bs, all_, summed) = total_balance_lem c hs hr in
      (b ∷ bs, rw (hb, all_) refl, sym (ok-injective _ _ k1) ∙ ap (λ a. b +ℤ a) summed)

  -- The mail to the first hot wallet, about what is missing.
  abbrev pub IsMissingMail :
      (HotWallet → Outcome String) → Currency → List HotWallet → ℤ → ℤ → List Mail → Type 0
  IsMissingMail receipt c hot_wallets total pending mails =
      (h : HotWallet) × (hs : List HotWallet) × (address : String) × (missing : ℤ) × (hot_wallets
        ≡ h ∷ hs)
      × (receipt h ≡ ok address)
      × (mails ≡ insufficient_balance address c total pending missing ∷ [])
      × (pos 0 <ℤ missing)
      × (total +ℤ missing ≡ pending)

  alert_missing_lem :
      (receipt : HotWallet → Outcome String) (c : Currency) (hot_wallets : List HotWallet)
      (total pending : ℤ) {mails : List Mail}
      → total <ℤ pending
      → alert_missing receipt c hot_wallets total pending ≡ ok mails
      → IsMissingMail receipt c hot_wallets total pending mails
  alert_missing_lem receipt c [] total pending lt k = cc
  alert_missing_lem receipt c (h ∷ hs) total pending lt k =
      let (address, ha, k1) = >>=-eq-ok (receipt h) _ k in
      (
        h,
        hs,
        address,
        pending -ℤ total,
        refl,
        ha,
        sym (ok-injective _ _ k1),
        positive total pending lt,
        rest_lem total pending,
      )
    where
      rest_lem : (a b : ℤ) → a +ℤ (b -ℤ a) ≡ b
      rest_lem a b = grind int_laws

      positive : (a b : ℤ) → a <ℤ b → pos 0 <ℤ (b -ℤ a)
      positive a b h = omega (int_laws, h)

  -- Where `checkInsufficientBalance` does not throw, the service of the currency gave a balance for each hot
  -- wallet. It sends no mail if these balances together are at least the amounts of the withdrawals of the
  -- currency that are unsigned, signing, signed or sent, and else one mail, to the address for the first hot
  -- wallet, with the positive amount that they lack.
  pub check_insufficient_balance_lem :
      (receipt : HotWallet → Outcome String) (c : Currency) (hot_wallets : List HotWallet) (db : Db)
      {mails : List Mail}
      → check_insufficient_balance receipt c hot_wallets db ≡ ok mails
      → (balances : List ℤ) × (map (λ (h : HotWallet). balance_of c h.address) hot_wallets
          ≡ map ok balances)
        × (((sum_amounts (amounts_of c.symbol db.withdrawals) ≤ℤ sum_amounts balances)
              × (mails ≡ []))
            ⊎ ((sum_amounts balances <ℤ sum_amounts (amounts_of c.symbol db.withdrawals))
                × IsMissingMail receipt c hot_wallets
                    (sum_amounts balances)
                    (sum_amounts (amounts_of c.symbol db.withdrawals))
                    mails))
  unfolding check_insufficient_balance find_total_amount_withdrawl_pending
  check_insufficient_balance_lem receipt c hot_wallets db {mails} e =
      let (total, ht, k) = >>=-eq-ok (total_balance c hot_wallets) _ e in
      let (balances, all_, summed) = total_balance_lem c hot_wallets ht in
      let pending = sum_amounts (amounts_of c.symbol db.withdrawals) in
      let sent = rw (sum_unfinished_lem c.symbol db.withdrawals, summed) at k in
      (
        balances,
        all_,
        elim (Bool-cases (leb_ℤ pending (sum_amounts balances))) [
          | inl enough ↦ inl (ground (arith, enough), sym (ok-injective _ _ (rw enough at sent)))
          | inr short ↦
              let lt : sum_amounts balances <ℤ pending = ground (arith, short) in
              inr (
                lt,
                alert_missing_lem receipt c hot_wallets (sum_amounts balances) pending lt
                    (rw short at sent),
              )
        ],
      )
