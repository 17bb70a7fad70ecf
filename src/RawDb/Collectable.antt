-- ===== src/RawDb/Collectable.antt =====
-- findDeposits.ts: the group of deposits that the collector takes next. The lookup of a deposit of the
-- native asset in findOneGroupOfDeposits is left out: its result is not used.
use drx_wallet.Base.{
  ℕ, ◌+◌, Bool, false, ◌&&◌, not, Option, none, some, List, [], ◌∷◌, map, String, ltb, ◌==◌, str_eq,
  if◌then◌else◌, select, find_first, sort_by,
}
use drx_wallet.Base.Int.{ℤ, pos, ◌+ℤ◌, ltb_ℤ}
use drx_wallet.Base.Outcome.{Outcome, ok, ◌>>=◌}
use drx_wallet.Schema.{
  Db, World, Registry, Currency, Deposit, CollectStatus, WalletBalance, has_collect_status,
  on_platform,
}
use drx_wallet.RawDb.Keys.{deposit_key, touch_deposits}

pub record DepositGroup : Type 0 where
  pub wallet_id : ℕ
  pub currency : Currency
  pub records : List Deposit
  pub amount : ℤ

abbrev pub deposit_age : Deposit → ℕ
deposit_age d = d.updated_at

-- Uncollected, of the platform, and not touched for a minute.
abbrev pub is_collectable : Registry → World → String → Deposit → Bool
is_collectable reg w platform d =
    on_platform reg platform d.currency
    && (has_collect_status d.collect_status CollectStatus.uncollected
        && ltb (d.updated_at + 60000) w.now)

abbrev pub is_grouped_with : Deposit → Deposit → Bool
is_grouped_with first d = d.wallet_id == first.wallet_id && str_eq d.currency first.currency

abbrev pub deposits_like : List Deposit → Option (Deposit × List Deposit)
deposits_like [] = none
deposits_like (first ∷ rest) = some (first, select (is_grouped_with first) (first ∷ rest))

-- `findOneGroupOfDeposits`, for the uncollected ones: the oldest, and those of its wallet and currency.
unfoldable pub find_one_group_of_deposits :
    Registry → World → String → Db → Option (Deposit × List Deposit)
find_one_group_of_deposits reg w platform db =
    deposits_like (sort_by deposit_age (select (is_collectable reg w platform) db.deposits))

abbrev pub sum_deposits : List Deposit → ℤ
sum_deposits [] = pos 0
sum_deposits (d ∷ ds) = d.amount +ℤ sum_deposits ds

abbrev pub is_cardano : Currency → Bool
is_cardano c = str_eq c.symbol "ada"

abbrev pub has_address_of : Deposit → Deposit → Bool
has_address_of first d = str_eq d.to_address first.to_address

-- Outputs are collected together; of an account only the deposits of one address are.
abbrev pub final_records : Currency → List Deposit → List Deposit
final_records c [] = []
final_records c (first ∷ rest) =
    if c.is_utxo_based && not (is_cardano c)
    then first ∷ rest
    else select (has_address_of first) (first ∷ rest)

abbrev pub minimum_amount : Option WalletBalance → Option ℤ
minimum_amount none = none
minimum_amount (some b) = b.minimum_collect_amount

abbrev pub is_below : Option ℤ → ℤ → Bool
is_below none total = false
is_below (some minimum) total = ltb_ℤ total minimum

abbrev pub is_of_currency : String → WalletBalance → Bool
is_of_currency symbol b = str_eq b.currency symbol

-- The minimum is looked up by the currency alone.
abbrev pub enough_or_touch : World → DepositGroup → Db → Outcome (Option DepositGroup × Db)
enough_or_touch w g db =
    if is_below (minimum_amount (find_first (is_of_currency g.currency.symbol) db.wallet_balances))
      g.amount
    then (touch_deposits w (map deposit_key g.records) db >>= λ touched. ok (none, touched))
    else ok (some g, db)

abbrev pub collectable_of :
    Registry → World → Option (Deposit × List Deposit) → Db → Outcome (Option DepositGroup × Db)
collectable_of reg w none db = ok (none, db)
collectable_of reg w (some (first, records)) db = reg.get_one_currency first.currency >>= λ c.
    enough_or_touch w
      (record {
        wallet_id = first.wallet_id;
        currency = c;
        records = final_records c records;
        amount = sum_deposits (final_records c records);
      })
      db

-- `findOneGroupOfCollectableDeposits`. The touch is not awaited; it runs before what follows here.
unfoldable pub find_one_group_of_collectable_deposits :
    Registry → World → String → Db → Outcome (Option DepositGroup × Db)
unfolding find_one_group_of_deposits
find_one_group_of_collectable_deposits reg w platform db =
    collectable_of reg w (find_one_group_of_deposits reg w platform db) db
