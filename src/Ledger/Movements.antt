-- ===== src/Ledger/Movements.antt =====
-- One movement: an amount is added to the row of a wallet and a currency, and logged.
use drx_wallet.Base.{
  ℕ, ◌≡◌, refl, inl, inr, Bool, true, false, ◌&&◌, ◌==◌, List, [], ◌∷◌, String, str_eq, eq_iff,
  if◌then◌else◌, Bool-cases, &&-eq-true, ==_iff, ==_refl, count_where, update_where, insert_row,
  arith, ◌∙◌, sym,
}
use drx_wallet.Base.Int.{ℤ, pos, ◌+ℤ◌, int_laws}
use drx_wallet.Schema.{WalletBalance, WalletLog}
use drx_wallet.RawDb.Balances.{is_balance_of}
use drx_wallet.Ledger.{sum_balances, sum_logs, is_log_for}

-- Whether a movement of the row of `v'` and `s'` is one of the row of `v` and `s`.
abbrev pub hits : ℕ → String → ℕ → String → Bool
hits v s v' s' = v' == v && str_eq s' s

-- What it adds there.
abbrev pub share : ℕ → String → ℕ → String → ℤ → ℤ
share v s v' s' change = if hits v s v' s' then change else pos 0

module _ (v : ℕ) (s : String) (v' : ℕ) (s' : String) (f : WalletBalance → WalletBalance)
    (change : ℤ) (adds : (b : WalletBalance) → (f b).balance ≡ b.balance +ℤ change)
    (same_wallet : (b : WalletBalance) → (f b).wallet_id ≡ b.wallet_id)
    (same_currency : (b : WalletBalance) → (f b).currency ≡ b.currency) where
  pub count_balances :
      (bs : List WalletBalance)
      → count_where (is_balance_of v s) (update_where (is_balance_of v' s') f bs)
        ≡ count_where (is_balance_of v s) bs
  count_balances [] = refl
  count_balances (b ∷ bs) = ground (arith, same_wallet b, same_currency b, count_balances bs)

  missed :
      (b : WalletBalance)
      → hits v s v' s' ≡ false
      → is_balance_of v s b ≡ true
      → is_balance_of v' s' b ≡ false
  missed b miss mine = elim (Bool-cases (is_balance_of v' s' b)) [
    | inl theirs ↦
        let (w1, c1) = &&-eq-true (b.wallet_id == v) (str_eq b.currency s) mine in
        let (w2, c2) = &&-eq-true (b.wallet_id == v') (str_eq b.currency s') theirs in
        let one : v' ≡ v = sym ((==_iff b.wallet_id v').0 w2) ∙ (==_iff b.wallet_id v).0 w1 in
        let two : str_eq s' s ≡ true =
          (eq_iff s' s).1 (sym ((eq_iff b.currency s').0 c2) ∙ (eq_iff b.currency s).0 c1) in
        absurd (ground (arith, one, two, ==_refl v))
    | inr n ↦ n
  ]

  kept : (b : WalletBalance) → is_balance_of v s (f b) ≡ is_balance_of v s b
  kept b = rw (same_wallet b, same_currency b)

  sum_missed :
      (bs : List WalletBalance)
      → hits v s v' s' ≡ false
      → sum_balances (is_balance_of v s) (update_where (is_balance_of v' s') f bs)
        ≡ sum_balances (is_balance_of v s) bs
  sum_missed [] miss = refl
  sum_missed (b ∷ bs) miss = elim (Bool-cases (is_balance_of v s b)) [
    | inl mine ↦ rw (missed b miss mine, mine, sum_missed bs miss)
    | inr other ↦ elim (Bool-cases (is_balance_of v' s' b)) [
      | inl t ↦ rw (t, kept b, other, sum_missed bs miss)
      | inr n ↦ rw (n, other, sum_missed bs miss)
    ]
  ]

module _ (v : ℕ) (s : String) (f : WalletBalance → WalletBalance) (change : ℤ)
    (adds : (b : WalletBalance) → (f b).balance ≡ b.balance +ℤ change)
    (same_wallet : (b : WalletBalance) → (f b).wallet_id ≡ b.wallet_id)
    (same_currency : (b : WalletBalance) → (f b).currency ≡ b.currency) where
  sum_untouched :
      (bs : List WalletBalance)
      → count_where (is_balance_of v s) bs ≡ 0
      → update_where (is_balance_of v s) f bs ≡ bs
  sum_untouched [] none_ = refl
  sum_untouched (b ∷ bs) none_ = elim (Bool-cases (is_balance_of v s b)) [
    | inl t ↦ absurd (omega (arith, rw t at none_))
    | inr n ↦ rw (n, sum_untouched bs (omega (arith, rw n at none_)))
  ]

  sum_hit :
      (bs : List WalletBalance)
      → count_where (is_balance_of v s) bs ≡ 1
      → sum_balances (is_balance_of v s) (update_where (is_balance_of v s) f bs)
        ≡ sum_balances (is_balance_of v s) bs +ℤ change
  sum_hit [] one = absurd (omega (arith, one))
  sum_hit (b ∷ bs) one = elim (Bool-cases (is_balance_of v s b)) [
    | inl t ↦
        let still = kept v s v s f change adds same_wallet same_currency b in
        rw (t, still, t, sum_untouched bs (omega (arith, rw t at one)), adds b)
          (add_later b.balance change (sum_balances (is_balance_of v s) bs))
    | inr n ↦ rw (n, n) (sum_hit bs (omega (arith, rw n at one)))
  ]
    where
      add_later : (a b c : ℤ) → a +ℤ b +ℤ c ≡ a +ℤ c +ℤ b
      add_later a b c = grind int_laws

-- With one row for the wallet and the currency, a movement adds its share there.
module _ (v : ℕ) (s : String) (v' : ℕ) (s' : String) (f : WalletBalance → WalletBalance)
    (change : ℤ) (adds : (b : WalletBalance) → (f b).balance ≡ b.balance +ℤ change)
    (same_wallet : (b : WalletBalance) → (f b).wallet_id ≡ b.wallet_id)
    (same_currency : (b : WalletBalance) → (f b).currency ≡ b.currency) where
  pub sum_balances-update_where :
      (bs : List WalletBalance)
      → count_where (is_balance_of v s) bs ≡ 1
      → sum_balances (is_balance_of v s) (update_where (is_balance_of v' s') f bs)
        ≡ sum_balances (is_balance_of v s) bs +ℤ share v s v' s' change
  sum_balances-update_where bs one = elim (Bool-cases (hits v s v' s')) [
    | inl t ↦
        let (same_v, same_s) = &&-eq-true (v' == v) (str_eq s' s) t in
        let at_v : v' ≡ v = (==_iff v' v).0 same_v in
        let at_s : s' ≡ s = (eq_iff s' s).0 same_s in
        rw (t, at_v, at_s) (sum_hit v s f change adds same_wallet same_currency bs one)
    | inr n ↦
        rw (n, sum_missed v s v' s' f change adds same_wallet same_currency bs n)
          (add_zero (sum_balances (is_balance_of v s) bs))
  ]
    where
      add_zero : (a : ℤ) → a ≡ a +ℤ pos 0
      add_zero a = grind int_laws

pub sum_logs-insert_row :
    (v : ℕ) (s : String) (l : WalletLog) (ls : List WalletLog)
    → sum_logs (is_log_for v s) (insert_row l ls)
      ≡ sum_logs (is_log_for v s) ls +ℤ share v s l.wallet_id l.currency l.balance_change
sum_logs-insert_row v s l [] = elim (Bool-cases (hits v s l.wallet_id l.currency)) [
  | inl t ↦ rw t (swap_zero l.balance_change)
  | inr n ↦ rw n (grind int_laws)
]
  where
    swap_zero : (a : ℤ) → a +ℤ pos 0 ≡ pos 0 +ℤ a
    swap_zero a = grind int_laws
sum_logs-insert_row v s l (x ∷ xs) = elim (Bool-cases (is_log_for v s x)) [
  | inl t ↦
      rw (t, sum_logs-insert_row v s l xs)
        (assoc x.balance_change (sum_logs (is_log_for v s) xs)
          (share v s l.wallet_id l.currency l.balance_change))
  | inr n ↦ rw (n, sum_logs-insert_row v s l xs)
]
  where
    assoc : (a b c : ℤ) → a +ℤ (b +ℤ c) ≡ a +ℤ b +ℤ c
    assoc a b c = grind int_laws
