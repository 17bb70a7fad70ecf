-- ===== src/Collection/Groups.antt =====
-- What the search for a group finds.
use drx_wallet.Base.{
  ℕ, ◌≡◌, refl, sym, ap, ◌∙◌, subst, inl, inr, true, false, ◌&&◌, not, Option, none, some, List, [],
  ◌∷◌, map, String, str_eq, eq_iff, ◌==◌, ==_iff, &&-eq-true, Bool-cases, Has, Has-select,
  Has-sort_by, select, sort_by, find_first, arith, ltb, ◌+◌,
}
use drx_wallet.Base.Outcome.{ok, >>=-eq-ok, ok-injective}
use drx_wallet.Base.Saves.{update_ids}
use drx_wallet.Schema.{
  Db, World, Registry, Currency, Deposit, CollectStatus, on_platform, has_collect_status,
}
use drx_wallet.RawDb.Keys.{deposit_key, touch_deposits, update_rows}
use drx_wallet.RawDb.Collectable.{
  DepositGroup, deposit_age, is_collectable, is_grouped_with, deposits_like,
  find_one_group_of_deposits, sum_deposits, is_cardano, has_address_of, final_records, is_below,
  minimum_amount, is_of_currency, collectable_of, find_one_group_of_collectable_deposits,
}
use drx_wallet.Collection.{IsGroup, touch, change_deposits}

has_collect_status-eq : (s t : CollectStatus) → has_collect_status s t ≡ true → s ≡ t
has_collect_status-eq s t h = ground arith

-- `update_rows` returns only where there are keys, and then it updates.
pub update_rows_lem :
    (ids : List ℕ) (f : Deposit → Deposit) (rows : List Deposit) {rows' : List Deposit}
    → update_rows deposit_key ids f rows ≡ ok rows'
    → rows' ≡ update_ids deposit_key ids f rows
update_rows_lem [] f rows e = cc
update_rows_lem (k ∷ ks) f rows e = sym (ok-injective _ _ e)

pub touch_deposits_lem :
    (w : World) (ids : List ℕ) (db : Db) {db' : Db}
    → touch_deposits w ids db ≡ ok db'
    → db' ≡ change_deposits ids (touch w) db
unfolding touch_deposits
touch_deposits_lem w ids db e =
    let (rows, found, k) = >>=-eq-ok (update_rows deposit_key ids (touch w) db.deposits) _ e in
    sym (ok-injective _ _ k)
    ∙ ap (λ r. record db { deposits = r }) (update_rows_lem ids (touch w) db.deposits found)

deposits_like_lem :
    (rows : List Deposit) (first : Deposit) (records : List Deposit)
    → deposits_like rows ≡ some (first, records)
    → (d : Deposit) → Has d records
    → Has d rows × (d.wallet_id ≡ first.wallet_id) × (d.currency ≡ first.currency)
deposits_like_lem [] first records e d m = cc
deposits_like_lem (r ∷ rs) first records e d m =
    let same : r ≡ first = cc in
    let all : select (is_grouped_with r) (r ∷ rs) ≡ records = cc in
    let (there, alike) = Has-select (is_grouped_with r) d (r ∷ rs) (subst (Has d) (sym all) m) in
    let (wallet, currency) =
      &&-eq-true (d.wallet_id == r.wallet_id) (str_eq d.currency r.currency) alike in
    (
      there,
      (==_iff d.wallet_id r.wallet_id).0 wallet ∙ ap (λ (q : Deposit). q.wallet_id) same,
      (eq_iff d.currency r.currency).0 currency ∙ ap (λ (q : Deposit). q.currency) same,
    )

Has-final_records :
    (c : Currency) (d : Deposit) (records : List Deposit)
    → Has d (final_records c records)
    → Has d records
Has-final_records c d [] m = m
Has-final_records c d (r ∷ rs) m = elim (Bool-cases (c.is_utxo_based && not (is_cardano c))) [
  | inl t ↦ rw t at m
  | inr n ↦ (Has-select (has_address_of r) d (r ∷ rs) (rw n at m)).0
]

final_records-address :
    (c : Currency) (d e : Deposit) (records : List Deposit)
    → c.is_utxo_based ≡ false
    → Has d (final_records c records)
    → Has e (final_records c records)
    → d.to_address ≡ e.to_address
final_records-address c d e [] account m n = elim m [ ]
final_records-address c d e (r ∷ rs) account m n =
    let first = (Has-select (has_address_of r) d (r ∷ rs) (rw account at m)).1 in
    let second = (Has-select (has_address_of r) e (r ∷ rs) (rw account at n)).1 in
    (eq_iff d.to_address r.to_address).0 first ∙ sym ((eq_iff e.to_address r.to_address).0 second)

-- What the search returns, with the database after it.
pub data Found (reg : Registry) (w : World) (platform : String) (db : Db)
    : Option DepositGroup → Db → Type 0 where
  nothing :
      {o : Option DepositGroup} {db' : Db} → o ≡ none → db' ≡ db → Found reg w platform db o db'
  too_little :
      {o : Option DepositGroup} {db' : Db} (ids : List ℕ)
      → o ≡ none
      → db' ≡ change_deposits ids (touch w) db
      → Found reg w platform db o db'
  group :
      {o : Option DepositGroup} {db' : Db} (g : DepositGroup)
      → o ≡ some g
      → IsGroup reg platform db g
      → db' ≡ db
      → Found reg w platform db o db'

module _ (reg : Registry) (w : World) (platform : String) (db : Db) where
  found-IsGroup :
      (first : Deposit) (records : List Deposit) (c : Currency)
      → find_one_group_of_deposits reg w platform db ≡ some (first, records)
      → reg.get_one_currency first.currency ≡ ok c
      → IsGroup reg platform db (record {
        wallet_id = first.wallet_id;
        currency = c;
        records = final_records c records;
        amount = sum_deposits (final_records c records);
      })
  unfolding find_one_group_of_deposits
  found-IsGroup first records c e named = record {
    there = λ d m. (collectable d m).0;
    uncollected =
        λ d m. has_collect_status-eq d.collect_status CollectStatus.uncollected (status d m).0;
    on_platform_ = λ d m. (on d m).0;
    of_wallet = λ d m. (alike d m).1;
    of_currency = λ d m. ap reg.get_one_currency (alike d m).2 ∙ named;
    of_address = λ account d o m n. final_records-address c d o records account m n;
    amount_sum = refl;
  }
    where
      rows : List Deposit
      rows = sort_by deposit_age (select (is_collectable reg w platform) db.deposits)

      alike :
          (d : Deposit)
          → Has d (final_records c records)
          → Has d rows × (d.wallet_id ≡ first.wallet_id) × (d.currency ≡ first.currency)
      alike d m = deposits_like_lem rows first records e d (Has-final_records c d records m)

      collectable :
          (d : Deposit)
          → Has d (final_records c records)
          → Has d db.deposits × (is_collectable reg w platform d ≡ true)
      collectable d m = Has-select (is_collectable reg w platform) d db.deposits (
          Has-sort_by deposit_age d (select (is_collectable reg w platform) db.deposits)
            (alike d m).0)

      on :
          (d : Deposit)
          → Has d (final_records c records)
          → (on_platform reg platform d.currency ≡ true)
            × ((has_collect_status d.collect_status CollectStatus.uncollected
                  && ltb (d.updated_at + 60000) w.now)
                ≡ true)
      on d m = &&-eq-true _ _ (collectable d m).1

      status :
          (d : Deposit)
          → Has d (final_records c records)
          → (has_collect_status d.collect_status CollectStatus.uncollected ≡ true)
            × (ltb (d.updated_at + 60000) w.now ≡ true)
      status d m = &&-eq-true _ _ (on d m).1

  collectable_of-Found :
      (o : Option (Deposit × List Deposit)) {r : Option DepositGroup × Db}
      → find_one_group_of_deposits reg w platform db ≡ o
      → collectable_of reg w o db ≡ ok r
      → Found reg w platform db r.0 r.1
  collectable_of-Found none found e =
      let same = ok-injective _ _ e in
      nothing (sym (ap (λ (p : Option DepositGroup × Db). p.0) same))
        (sym (ap (λ (p : Option DepositGroup × Db). p.1) same))
  collectable_of-Found (some (first, records)) {r} found e =
      let (c, named, k) = >>=-eq-ok (reg.get_one_currency first.currency) _ e in
      let g : DepositGroup = record {
        wallet_id = first.wallet_id;
        currency = c;
        records = final_records c records;
        amount = sum_deposits (final_records c records);
      } in
      let minimum = minimum_amount (find_first (is_of_currency c.symbol) db.wallet_balances) in
      elim (Bool-cases (is_below minimum g.amount)) [
        | inl little ↦
            let (after, moved, last) =
              >>=-eq-ok (touch_deposits w (map deposit_key g.records) db) _ (rw little at k) in
            let same = ok-injective _ _ last in
            too_little (map deposit_key g.records)
              (sym (ap (λ (p : Option DepositGroup × Db). p.0) same))
              (sym (ap (λ (p : Option DepositGroup × Db). p.1) same)
                ∙ touch_deposits_lem w (map deposit_key g.records) db moved)
        | inr enough ↦
            let same = ok-injective _ _ (rw enough at k) in
            group g (sym (ap (λ (p : Option DepositGroup × Db). p.0) same))
              (found-IsGroup first records c found named)
              (sym (ap (λ (p : Option DepositGroup × Db). p.1) same))
      ]

  pub find_one_group-Found :
      {r : Option DepositGroup × Db}
      → find_one_group_of_collectable_deposits reg w platform db ≡ ok r
      → Found reg w platform db r.0 r.1
  unfolding find_one_group_of_collectable_deposits
  find_one_group-Found e =
      collectable_of-Found (find_one_group_of_deposits reg w platform db) refl e
