-- ===== src/RawDb/Deposits.antt =====
-- libs/wallet-core/src/rawdb/insertDeposit.ts: the outputs of a transaction become deposits. The promises
-- that the source awaits together run one after the other here, in the order of their list.
use drx_wallet.Base.{
  ℕ, Bool, true, false, ◌&&◌, ◌||◌, ◌==◌, Option, none, some, List, [], ◌∷◌, map, String, str_eq,
  if◌then◌else◌, find_first, count_where, insert_row, ltb,
}
use drx_wallet.Base.Int.{ℤ, pos, leb_ℤ, ltb_ℤ}
use drx_wallet.Base.Outcome.{Outcome, ok, Error, ◌>>=◌, or_throw}
use drx_wallet.Schema.{
  Db, World, Registry, Address, Wallet, WalletBalance, Deposit, CollectStatus, CollectedTxid,
  NotCollect, DepositEvent, WalletEvent, LogEvent, HotWallet,
}
use drx_wallet.RawDb.Keys.{deposit_key}
use drx_wallet.RawDb.Logs.{insert_wallet_log, insert_deposit_log}
use drx_wallet.RawDb.Balances.{is_balance_of, find_wallet_balance, increase_wallet_balance}

-- A `TransferEntry` with the fields of its transaction that are read.
pub record Output : Type 0 where
  pub currency : String
  pub txid : String
  pub address : String
  pub amount : ℤ
  pub height : ℕ
  pub timestamp : ℕ

abbrev pub is_address : String → Address → Bool
is_address address a = str_eq a.address address

abbrev pub is_deposit_of : Output → Deposit → Bool
is_deposit_of o d =
    str_eq d.currency o.currency && (str_eq d.txid o.txid && str_eq d.to_address o.address)

abbrev pub has_wallet_id : ℕ → Wallet → Bool
has_wallet_id id r = r.id == id

abbrev pub is_hot_address : String → HotWallet → Bool
is_hot_address address h = str_eq h.address address

abbrev pub has_row : {A : Type 0} → Option A → Bool
has_row none = false
has_row (some a) = true

-- `_hasHotWallet`
unfoldable pub has_hot_wallet : String → Db → Bool
has_hot_wallet address db = has_row (find_first (is_hot_address address) db.hot_wallets)

abbrev minimum_of : Option ℤ → ℤ
minimum_of none = pos 0
minimum_of (some n) = n

-- A threshold that is not set is zero.
abbrev pub minimum_collect_amount : Option WalletBalance → ℤ
minimum_collect_amount none = pos 0
minimum_collect_amount (some b) = minimum_of b.minimum_collect_amount

abbrev pub collect_status_of : Address → Bool → CollectStatus
collect_status_of address hot =
    if address.is_external || hot then CollectStatus.notcollect else CollectStatus.uncollected

-- Why a deposit is not collected. Dust keeps the status of a deposit that will be.
abbrev pub collected_txid_of : Address → Bool → ℤ → ℤ → CollectedTxid
collected_txid_of address hot amount minimum =
    if address.is_external
    then CollectedTxid.not_collected NotCollect.external_address
    else if hot
    then CollectedTxid.not_collected NotCollect.hot_wallet
    else if ltb_ℤ amount minimum
    then CollectedTxid.not_collected NotCollect.dust_amount
    else CollectedTxid.empty

unfoldable pub new_deposit : World → Output → Address → Wallet → Db → Deposit
unfolding has_hot_wallet find_wallet_balance
new_deposit w o address wallet db =
    let hot = has_hot_wallet o.address db in
    record {
      id = w.new_id (map deposit_key db.deposits);
      wallet_id = wallet.id;
      currency = o.currency;
      to_address = o.address;
      txid = o.txid;
      amount = o.amount;
      block_number = o.height;
      block_timestamp = o.timestamp;
      collect_status = collect_status_of address hot;
      collected_txid =
          collected_txid_of address hot o.amount
            (minimum_collect_amount (find_wallet_balance o.currency wallet.id db));
      collected_timestamp = 0;
      created_at = w.now;
      updated_at = w.now;
    }

-- A user of id zero counts as missing.
abbrev pub user_of : Wallet → Option ℕ
user_of wallet = if wallet.user_id == 0 then none else some wallet.user_id

-- The balance, its log and the deposit's log, for an address of the wallet's own.
abbrev pub credit_deposit : World → Output → Wallet → Deposit → Db → Outcome Db
credit_deposit w o wallet d db = do
  found ←
      or_throw Error.wallet_balance_not_found
        (find_first (is_balance_of wallet.id o.currency) db.wallet_balances)
  insert_deposit_log w d.id DepositEvent.created d.id (user_of wallet) (
      insert_wallet_log w wallet.id o.currency (LogEvent.wallet_event WalletEvent.deposit) o.amount
        d.id (increase_wallet_balance w wallet.id o.currency o.amount db))

-- The deposit of an external address is only logged.
abbrev pub finish_deposit : World → Output → Bool → Wallet → Deposit → Db → Outcome Db
finish_deposit w o true wallet d db =
    insert_deposit_log w d.id DepositEvent.created d.id (user_of wallet) db
finish_deposit w o false wallet d db = credit_deposit w o wallet d db

unfoldable pub record_deposit : World → Output → Address → Wallet → Db → Outcome Db
unfolding new_deposit insert_deposit_log insert_wallet_log increase_wallet_balance
record_deposit w o address wallet db =
    let d = new_deposit w o address wallet db in
    finish_deposit w o address.is_external wallet d
      (record db { deposits = insert_row d db.deposits })

-- A deposit is recorded once, and only if it is worth something.
unfoldable pub insert_for : Registry → World → Output → Address → Wallet → Db → Outcome Db
unfolding record_deposit
insert_for reg w o address wallet db =
    if ltb 0 (count_where (is_deposit_of o) db.deposits)
    then ok db
    else if leb_ℤ o.amount (pos 0)
    then ok db
    else reg.get_one_currency o.currency >>= λ c. record_deposit w o address wallet db

-- `insertDeposit`
unfoldable pub insert_deposit : Registry → World → Output → Db → Outcome Db
unfolding insert_for
insert_deposit reg w o db = do
  address ← or_throw Error.entity_not_found (find_first (is_address o.address) db.addresses)
  wallet ← or_throw Error.entity_not_found (find_first (has_wallet_id address.wallet_id) db.wallets)
  insert_for reg w o address wallet db

abbrev pub insert_deposits : Registry → World → List Output → Db → Outcome Db
insert_deposits reg w [] db = ok db
insert_deposits reg w (o ∷ os) db = insert_deposit reg w o db >>= insert_deposits reg w os
