-- ===== src/Workers/Internal.antt =====
-- verifierDoProcess.ts, the verification of transfers between wallets, with
-- updateInternalTransfer.ts, updateDepositCollectStatus.ts and findInternalTransferByCollectStatus.ts.
use drx_wallet.Base.{
  ℕ, Bool, false, ◌&&◌, Option, none, some, List, [], ◌∷◌, String, ◌==◌, str_eq, if◌then◌else◌,
  select, find_first, find_oldest, update_where,
}
use drx_wallet.Base.Int.{ℤ, pos, ◌+ℤ◌}
use drx_wallet.Base.Outcome.{Outcome, ok, err, Error, ◌>>=◌, or_throw}
use drx_wallet.Base.Saves.{save_each}
use drx_wallet.Schema.{
  Db, World, Registry, Currency, InternalTransfer, InternalTransferType, WithdrawalStatus,
  TransactionStatus, CollectStatus, Deposit, DepositLog, DepositEvent, CollectedTxid, Gateway,
  HotWallet, has_status, has_collect_status, on_platform,
}
use drx_wallet.RawDb.Keys.{deposit_key, touch_internal_transfer}
use drx_wallet.RawDb.Logs.{insert_deposit_log}
use drx_wallet.RawDb.HotWallets.{find_hot_wallet_by_address}
use drx_wallet.RawDb.Balances.{update_wallet_balance_only_fee, is_collected}

abbrev transfer_age : InternalTransfer → ℕ
transfer_age t = t.updated_at

abbrev is_sent_on : Registry → String → InternalTransfer → Bool
is_sent_on reg platform t =
    on_platform reg platform t.currency && has_status t.status WithdrawalStatus.sent

-- `findOneInternalTransferByCollectStatus(manager, allSymbols, [WithdrawalStatus.SENT])`
unfoldable pub find_one_sent_transfer : Registry → String → Db → Option InternalTransfer
find_one_sent_transfer reg platform db =
    find_oldest transfer_age (is_sent_on reg platform) db.internal_transfers

abbrev pub set_verified :
    World → WithdrawalStatus → ℤ → String → InternalTransfer → InternalTransfer
set_verified w status fee platform t = record t {
  fee = fee;
  status = status;
  fee_currency = platform;
  updated_at = w.now;
}

-- `updateInternalTransfer`
unfoldable pub update_internal_transfer :
    Registry → World → InternalTransfer → WithdrawalStatus → ℤ → Db → Outcome Db
update_internal_transfer reg w t status fee db = do
  c ← reg.get_one_currency t.currency
  ok (record db {
    internal_transfers =
        update_where (λ (r : InternalTransfer). r.id == t.id) (set_verified w status fee c.platform)
          db.internal_transfers;
  })

abbrev pub is_collected_by : String → CollectedTxid → Bool
is_collected_by txid (CollectedTxid.in_tx other) = str_eq other txid
is_collected_by txid CollectedTxid.empty = false
is_collected_by txid (CollectedTxid.not_collected reason) = false

abbrev pub is_in_transfer : InternalTransfer → Deposit → Bool
is_in_transfer t d = is_collected_by t.txid d.collected_txid

abbrev pub collect_event : CollectStatus → DepositEvent
collect_event status =
    if is_collected status then DepositEvent.collected else DepositEvent.collected_failed

abbrev pub log_deposits : World → DepositEvent → ℕ → List Deposit → Db → Outcome Db
log_deposits w event ref_id [] db = ok db
log_deposits w event ref_id (d ∷ ds) db =
    insert_deposit_log w d.id event ref_id none db >>= log_deposits w event ref_id ds

-- The UPDATE sets two columns only.
abbrev pub set_collected : InternalTransfer → CollectStatus → Deposit → Deposit
set_collected t status d = record d { collect_status = status; collected_timestamp = t.updated_at }

-- `updateDepositCollectStatus`
unfoldable pub update_deposit_collect_status :
    World → InternalTransfer → CollectStatus → Db → Outcome Db
unfolding insert_deposit_log
update_deposit_collect_status w t status db = do
  logged ← log_deposits w (collect_event status) t.id (select (is_in_transfer t) db.deposits) db
  ok (record logged {
    deposits = update_where (is_in_transfer t) (set_collected t status) logged.deposits;
  })

-- What a verified collection takes from the balance: the whole amount if it went to no hot wallet,
-- else the fee, and nothing for a token.
abbrev pub collect_charge : Option HotWallet → Currency → ℤ → ℤ → ℤ
collect_charge none c amount fee = amount
collect_charge (some h) c amount fee = if c.is_native then fee else pos 0

-- `verifyCollectDoProcess`
unfoldable pub verify_collect :
    Registry → World → InternalTransfer → WithdrawalStatus → CollectStatus → ℤ → Db → Outcome Db
unfolding update_internal_transfer update_deposit_collect_status update_wallet_balance_only_fee
verify_collect reg w t status event fee db =
    if str_eq t.to_address "" then err Error.missing_to_address else do
      c ← reg.get_one_currency t.currency
      let hot_wallet = find_hot_wallet_by_address t.to_address db
      verified ← update_internal_transfer reg w t status fee db
      collected ← update_deposit_collect_status w t event verified
      update_wallet_balance_only_fee reg w t event (collect_charge hot_wallet c t.amount fee)
          collected

abbrev is_log_of : String → Option String → Bool
is_log_of txid none = false
is_log_of txid (some other) = str_eq other txid

abbrev pub is_seeding_log : String → DepositLog → Bool
is_seeding_log txid entry = is_log_of txid entry.txid

abbrev pub awaits_seed : Registry → String → InternalTransfer → Deposit → Bool
awaits_seed reg platform t d =
    str_eq d.to_address t.to_address
    && (has_collect_status d.collect_status CollectStatus.seed_requested
        && on_platform reg platform d.currency)

abbrev set_uncollected : World → Deposit → Deposit
set_uncollected w d = record d { collect_status = CollectStatus.uncollected; updated_at = w.now }

-- A seed that arrived makes the deposits of its address collectable.
abbrev pub release_seeded :
    World → InternalTransfer → ℕ → CollectStatus → List Deposit → Db → Outcome Db
release_seeded w t deposit_id event waiting db =
    if is_collected event
    then insert_deposit_log w deposit_id DepositEvent.seeded t.id none
        (record db { deposits = save_each deposit_key waiting (set_uncollected w) db.deposits })
    else ok db

-- `verifySeedDoProcess`
unfoldable pub verify_seed :
    Registry → World → InternalTransfer → WithdrawalStatus → CollectStatus → ℤ → Db → Outcome Db
unfolding update_internal_transfer update_wallet_balance_only_fee insert_deposit_log
verify_seed reg w t status event fee db = do
  seeding ← or_throw Error.not_a_seeding_tx (find_first (is_seeding_log t.txid) db.deposit_logs)
  c ← reg.get_one_currency t.currency
  let waiting = select (awaits_seed reg c.platform t) db.deposits
  verified ← update_internal_transfer reg w t status fee db
  charged ← update_wallet_balance_only_fee reg w t event (t.amount +ℤ fee) verified
  release_seeded w t seeding.deposit_id event waiting charged

abbrev pub verify_kind :
    Registry
    → World
    → InternalTransfer
    → InternalTransferType
    → WithdrawalStatus
    → CollectStatus
    → ℤ
    → Db
    → Outcome Db
verify_kind reg w t InternalTransferType.collect = verify_collect reg w t
verify_kind reg w t InternalTransferType.seed = verify_seed reg w t

abbrev pub verify_transfer_status :
    Registry → World → Gateway → InternalTransfer → TransactionStatus → Db → Outcome Db
verify_transfer_status reg w g t TransactionStatus.unknown db =
    ok (touch_internal_transfer w t.id db)
verify_transfer_status reg w g t TransactionStatus.confirming db =
    ok (touch_internal_transfer w t.id db)
verify_transfer_status reg w g t TransactionStatus.failed db = do
  fee ← g.get_network_fee t.txid
  verify_kind reg w t t.type WithdrawalStatus.failed CollectStatus.uncollected fee db
verify_transfer_status reg w g t TransactionStatus.completed db = do
  fee ← g.get_network_fee t.txid
  verify_kind reg w t t.type WithdrawalStatus.completed CollectStatus.collected fee db

abbrev pub verify_found_transfer : Registry → World → Option InternalTransfer → Db → Outcome Db
verify_found_transfer reg w none db = ok db
verify_found_transfer reg w (some t) db = do
  c ← reg.get_one_currency t.currency
  let g = w.gateway_of c.symbol
  status ← g.get_transaction_status t.txid
  verify_transfer_status reg w g t status db

-- `verifierInternalDoProcess`, for the transfer that is found.
unfoldable pub verify_internal : Registry → World → String → Db → Outcome Db
unfolding find_one_sent_transfer
verify_internal reg w platform db =
    verify_found_transfer reg w (find_one_sent_transfer reg platform db) db
