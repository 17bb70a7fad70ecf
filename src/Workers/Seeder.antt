-- ===== src/Workers/Seeder.antt =====
-- libs/wallet-core/src/callbacks/active/feeSeederDoProcess.ts: an address of a token deposit gets the
-- native asset for the fee of its collection.
use drx_wallet.Base.{
  Bool, true, false, ◌&&◌, ◌||◌, not, Option, none, some, List, [], ◌∷◌, map, String, ◌==◌, str_eq,
  if◌then◌else◌, insert_row, select, find_first,
}
use drx_wallet.Base.Int.{ℤ, pos}
use drx_wallet.Base.Outcome.{Outcome, ok, err, Error, ◌>>=◌}
use drx_wallet.Schema.{
  Db, World, Registry, Currency, Deposit, DepositLog, DepositEvent, CollectStatus, InternalTransfer,
  InternalTransferType, WithdrawalStatus, HotWallet, Gateway, RawTransaction, on_platform,
  contains_text, has_collect_status,
}
use drx_wallet.RawDb.Keys.{transfer_key}
use drx_wallet.RawDb.HotWallets.{find_sufficient_hot_wallet}
use drx_wallet.Workers.CollectTx.{Collecting}

abbrev pub is_seeding : DepositEvent → Bool
is_seeding DepositEvent.seeding = true
is_seeding _ = false

-- The inner join of deposits and their logs.
abbrev pub is_seeding_of : Deposit → DepositLog → Bool
is_seeding_of d entry = entry.deposit_id == d.id && is_seeding entry.event

abbrev pub has_log : (DepositLog → Bool) → List DepositLog → Bool
has_log p [] = false
has_log p (entry ∷ logs) = p entry || has_log p logs

abbrev pub wants_seed : Registry → String → Deposit → Bool
wants_seed reg platform d =
    on_platform reg platform d.currency
    && has_collect_status d.collect_status CollectStatus.seed_requested

abbrev pub is_being_seeded : Registry → String → List DepositLog → Deposit → Bool
is_being_seeded reg platform logs d =
    wants_seed reg platform d && (has_log (is_seeding_of d) logs && not (str_eq d.to_address ""))

abbrev pub target_of : Deposit → String
target_of d = d.to_address

-- The addresses that a seed is on its way to; `_.compact` drops the empty one.
unfoldable pub seeding_deposit_addresses : Registry → String → Db → List String
seeding_deposit_addresses reg platform db =
    map target_of (select (is_being_seeded reg platform db.deposit_logs) db.deposits)

abbrev pub is_thirsty : Registry → String → List String → Deposit → Bool
is_thirsty reg platform seeding d =
    wants_seed reg platform d && not (contains_text d.to_address seeding)

-- The next deposit to seed. With no address on its list, `Not(In(…))` is left out of the query.
unfoldable pub find_seed_deposit : Registry → String → Db → Option Deposit
unfolding seeding_deposit_addresses
find_seed_deposit reg platform db =
    find_first (is_thirsty reg platform (seeding_deposit_addresses reg platform db)) db.deposits

abbrev pub construct_seed :
    Gateway → Currency → HotWallet → Deposit → ℤ → Outcome (Option RawTransaction)
construct_seed g currency hot_wallet d amount =
    if currency.is_utxo_based
    then g.construct_utxo_transaction hot_wallet.address
        (record { to_address = d.to_address; amount = amount } ∷ [])
    else g.construct_account_transaction hot_wallet.address d.to_address amount none

abbrev pub seed_transfer :
    World → Currency → HotWallet → Deposit → ℤ → String → List InternalTransfer → InternalTransfer
seed_transfer w currency hot_wallet d amount txid rows = record {
  id = w.new_id (map transfer_key rows);
  wallet_id = hot_wallet.wallet_id;
  currency = currency.platform;
  type = InternalTransferType.seed;
  from_address = "will remove this field";
  to_address = d.to_address;
  txid = txid;
  amount = amount;
  fee = pos 0;
  status = WithdrawalStatus.sent;
  fee_currency = currency.platform;
  created_at = w.now;
  updated_at = w.now;
}

abbrev pub seeding_log : World → Deposit → String → DepositLog
seeding_log w d txid = record {
  deposit_id = d.id;
  event = DepositEvent.seeding;
  ref_id = d.id;
  txid = some txid;
  created_at = w.now;
}

unfoldable pub store_seed : World → Currency → HotWallet → Deposit → ℤ → String → Db → Db
store_seed w currency hot_wallet d amount txid db = record db {
  internal_transfers =
      insert_row (seed_transfer w currency hot_wallet d amount txid db.internal_transfers)
        db.internal_transfers;
  deposit_logs = insert_row (seeding_log w d txid) db.deposit_logs;
}

abbrev pub send_seed :
    World → Currency → HotWallet → Deposit → ℤ → Option RawTransaction → Db → Outcome Db
send_seed w currency hot_wallet d amount none db = err Error.no_raw_transaction
send_seed w currency hot_wallet d amount (some raw) db =
    (w.gateway_of currency.symbol).sign_raw_transaction raw.unsigned_raw hot_wallet.secret
    >>= λ signed. (w.gateway_of currency.symbol).send_raw_transaction signed.signed_raw >>= λ reply.
        ok (store_seed w currency hot_wallet d amount signed.txid db)

abbrev pub seed_from : World → Currency → Deposit → ℤ → Option HotWallet → Db → Outcome Db
seed_from w currency d amount none db = ok db
seed_from w currency d amount (some hot_wallet) db =
    construct_seed (w.gateway_of currency.symbol) currency hot_wallet d amount >>= λ raw.
    send_seed w currency hot_wallet d amount raw db

abbrev pub seed_found : World → Collecting → Currency → Option Deposit → Db → Outcome Db
seed_found w c currency none db = ok db
seed_found w c currency (some d) db = c.get_average_seeding_fee currency.symbol >>= λ amount.
    find_sufficient_hot_wallet w d.wallet_id currency amount db >>= λ hot_wallet.
    seed_from w currency d amount hot_wallet db

-- `_feeSeederDoProcess`. The touch before an error is undone with the transaction of the database.
unfoldable pub fee_seeder_do_process : Registry → World → Collecting → Currency → Db → Outcome Db
unfolding find_seed_deposit find_sufficient_hot_wallet store_seed
fee_seeder_do_process reg w c currency db =
    seed_found w c currency (find_seed_deposit reg currency.platform db) db
