-- ===== src/Lifecycle/Refine/Groups.antt =====
-- The withdrawals that getNextPickedWithdrawals.ts puts together.
use drx_wallet.Base.{
  Bool, not_positive, ◌≡◌, refl, sym, ◌∙◌, subst, inl, inr, true, false, ◌&&◌, Option, none, some,
  List, ◌∷◌, String, str_eq, eq_iff, ltb, Bool-cases, &&-eq-true, select, sort_by, find_oldest,
  find_oldest-Has, Has, Has-select, Has-take, Has-sort_by,
}
use drx_wallet.Schema.{
  Db, World, Registry, CountsPending, pending_count_query, Withdrawal, WithdrawalStatus, has_status,
  has_status-eq, is_pending, on_platform, symbols_of_platform,
}
use drx_wallet.RawDb.Picking.{
  withdrawal_age, is_unsigned_on, is_alike, group_of, get_next_picked_withdrawals,
}

-- What `getNextPickedWithdrawals` returns: nothing if the platform is busy, else unsigned
-- withdrawals of one currency of the platform.
pub record IsGroup (reg : Registry) (strict : Bool) (platform : String) (db : Db)
    (currency : String) (rows : List Withdrawal) : Type 0 where
  pub on_it : on_platform reg platform currency ≡ true
  pub idle :
      strict ≡ true
      → (r : Withdrawal) → Has r db.withdrawals
      → on_platform reg platform r.currency ≡ true
      → is_pending r.status ≡ false
  pub members :
      (r : Withdrawal)
      → Has r rows
      → Has r db.withdrawals × (r.status ≡ WithdrawalStatus.unsigned) × (r.currency ≡ currency)

group_of_lem :
    (first r : Withdrawal) (rows : List Withdrawal)
    → Has r (group_of (some first) rows)
    → Has r rows × (r.status ≡ WithdrawalStatus.unsigned) × (r.currency ≡ first.currency)
group_of_lem first r rows h =
    let sorted = Has-take 100 r (sort_by withdrawal_age (select (is_alike first) rows)) h in
    let (there, passes) =
      Has-select (is_alike first) r rows
        (Has-sort_by withdrawal_age r (select (is_alike first) rows) sorted) in
    let rest =
      (&&-eq-true _
        (str_eq r.currency first.currency && has_status r.status WithdrawalStatus.unsigned)
        passes).1 in
    let (same, new) =
      &&-eq-true (str_eq r.currency first.currency) (has_status r.status WithdrawalStatus.unsigned)
        rest in
    (
      there,
      has_status-eq r.status WithdrawalStatus.unsigned new,
      (eq_iff r.currency first.currency).0 same,
    )

group_of_first :
    (reg : Registry) (strict : Bool) (platform : String) (db : Db) (oldest : Option Withdrawal)
    → find_oldest withdrawal_age (is_unsigned_on reg platform) db.withdrawals ≡ oldest
    → (strict ≡ true
        → (r : Withdrawal) → Has r db.withdrawals
        → on_platform reg platform r.currency ≡ true
        → is_pending r.status ≡ false)
    → {first : Withdrawal} {rest : List Withdrawal} → group_of oldest db.withdrawals ≡ first ∷ rest
    → IsGroup reg strict platform db first.currency (first ∷ rest)
group_of_first reg strict platform db none found quiet e = cc
group_of_first reg strict platform db (some oldest) found quiet {first} {rest} e =
    let (there, passes) =
      find_oldest-Has withdrawal_age (is_unsigned_on reg platform) oldest db.withdrawals found in
    let of_group : (r : Withdrawal)
        → Has r (first ∷ rest)
        → Has r db.withdrawals
          × (r.status ≡ WithdrawalStatus.unsigned)
          × (r.currency ≡ oldest.currency) =
      λ r m. group_of_lem oldest r db.withdrawals (subst (λ rs. Has r rs) (sym e) m) in
    let same = (of_group first (inl refl)).2 in
    record {
      on_it = rw same ((&&-eq-true (on_platform reg platform oldest.currency) _ passes).0);
      idle = quiet;
      members = λ r m. let (here_, new, alike) = of_group r m in (here_, new, alike ∙ sym same);
    }

-- The withdrawals that `getNextPickedWithdrawals` returns are unsigned withdrawals of the table, all of
-- the currency of the first, which is one of the platform. On the strict reading, where the count of
-- its query is right, no withdrawal of the platform is being signed or sent then.
pub get_next_picked_withdrawals-IsGroup :
    (reg : Registry) (strict : Bool) (w : World)
    → (strict ≡ true → CountsPending w)
    → (platform : String) (db : Db) → {first : Withdrawal} {rest : List Withdrawal}
    → get_next_picked_withdrawals reg w platform db ≡ first ∷ rest
    → IsGroup reg strict platform db first.currency (first ∷ rest)
unfolding get_next_picked_withdrawals
get_next_picked_withdrawals-IsGroup reg strict w counts platform db e =
    let symbols = symbols_of_platform reg platform in
    elim (Bool-cases (ltb 0 (w.run_count (pending_count_query symbols) db.withdrawals))) [
      | inl busy ↦ cc (rw busy at e)
      | inr quiet ↦
          let nothing : w.run_count (pending_count_query symbols) db.withdrawals ≡ 0 =
            not_positive _ quiet in
          group_of_first reg strict platform db _ refl
            (λ yes_ r m on_it. (counts yes_).counted symbols db.withdrawals r nothing m on_it)
            (rw quiet at e)
    ]
