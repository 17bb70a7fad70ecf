-- ===== src/Workers/Collector.antt =====
-- libs/wallet-core/src/callbacks/active/collectorDoProcess.ts: uncollected deposits go to a hot wallet in
-- one transaction, or wait for a seed of the fee.
use drx_wallet.Base.{
  ℕ, ◌+◌, Bool, true, false, Option, none, some, List, [], ◌∷◌, map, String, ltb, ◌==◌,
  if◌then◌else◌, insert_row, length,
}
use drx_wallet.Base.Int.{ℤ, pos, leb_ℤ, eqb_ℤ, times}
use drx_wallet.Base.Outcome.{Outcome, ok, err, Error, ◌>>=◌, or_throw}
use drx_wallet.Base.Saves.{update_ids}
use drx_wallet.Schema.{
  Db, World, Registry, Currency, Deposit, CollectStatus, CollectedTxid, InternalTransfer,
  InternalTransferType, WithdrawalStatus, HotWallet, RawTransaction, SignedTransaction,
}
use drx_wallet.RawDb.Keys.{deposit_key, transfer_key, touch_deposits, update_rows}
use drx_wallet.RawDb.Balances.{find_wallet_balance}
use drx_wallet.RawDb.HotWallets.{find_any_internal_hot_wallet}
use drx_wallet.RawDb.Collectable.{
  DepositGroup, find_one_group_of_collectable_deposits, minimum_amount, is_cardano,
}
use drx_wallet.Workers.CollectTx.{Collecting, construct_collect_tx, collector_sign}

abbrev pub or_thrice_fee : Collecting → String → Option ℤ → Outcome ℤ
or_thrice_fee c platform (some minimum) = ok minimum
or_thrice_fee c platform none = c.get_average_seeding_fee platform >>= λ fee. ok (times 3 fee)

-- A token's address that holds enough of the native asset already is taken to be pending.
abbrev pub is_pending_seed : World → Collecting → Currency → ℕ → List Deposit → Db → Outcome Bool
is_pending_seed w c currency wallet_id [] db = err Error.null_reference
is_pending_seed w c currency wallet_id (first ∷ rest) db =
    or_thrice_fee c currency.platform
      (minimum_amount (find_wallet_balance currency.platform wallet_id db))
    >>= λ minimum.
        if ltb 0 (length rest)
        then err Error.too_many_records
        else ((w.gateway_of currency.platform).get_address_balance first.to_address >>= λ balance.
            ok (leb_ℤ minimum balance))

-- What the `try` leads to: nothing is sent for now, or a transaction.
pub data Attempt : Type 0 where
  pending : Attempt
  built : Option RawTransaction → Attempt

abbrev pub build : Registry → World → Collecting → DepositGroup → HotWallet → Outcome Attempt
build reg w c g rally =
    construct_collect_tx reg w c g.currency g.records rally.address >>= λ raw. ok (built raw)

abbrev pub build_unless :
    Registry → World → Collecting → DepositGroup → HotWallet → Bool → Outcome Attempt
build_unless reg w c g rally true = ok pending
build_unless reg w c g rally false = build reg w c g rally

abbrev pub attempt : Registry → World → Collecting → DepositGroup → HotWallet → Db → Outcome Attempt
attempt reg w c g rally db =
    if g.currency.is_native
    then build reg w c g rally
    else (is_pending_seed w c g.currency g.wallet_id g.records db >>= build_unless reg w c g rally)

abbrev pub set_later : World → Deposit → Deposit
set_later w d = record d { updated_at = w.now + 180000 }

-- The record is looked at again in three minutes.
abbrev pub postpone : World → List Deposit → Db → Db
postpone w [] db = db
postpone w (first ∷ rest) db = record db {
  deposits = update_ids deposit_key (first.id ∷ []) (set_later w) db.deposits;
}

abbrev pub set_seed_requested : World → Deposit → Deposit
set_seed_requested w d = record d {
  collect_status = CollectStatus.seed_requested;
  updated_at = w.now;
}

abbrev pub request_seed : World → List Deposit → Db → Db
request_seed w [] db = db
request_seed w (first ∷ rest) db = record db {
  deposits = update_ids deposit_key (first.id ∷ []) (set_seed_requested w) db.deposits;
}

-- The `catch` of the construction.
abbrev pub give_up : World → DepositGroup → Db → Outcome Db
give_up w g db = touch_deposits w (map deposit_key g.records) db >>= λ touched.
    ok (if g.currency.is_native then touched else request_seed w g.records touched)

abbrev pub collect_transfer :
    World → DepositGroup → HotWallet → String → List InternalTransfer → InternalTransfer
collect_transfer w g rally txid rows = record {
  id = w.new_id (map transfer_key rows);
  wallet_id = g.wallet_id;
  currency = g.currency.symbol;
  type = InternalTransferType.collect;
  from_address = "will remove this field";
  to_address = rally.address;
  txid = txid;
  amount = g.amount;
  fee = pos 0;
  status = WithdrawalStatus.sent;
  fee_currency = "";
  created_at = w.now;
  updated_at = w.now;
}

-- The txid of the node counts for Cardano, the signed one for the others.
abbrev pub sent_txid : Currency → SignedTransaction → Option String → Outcome String
sent_txid currency signed reply =
    if is_cardano currency then or_throw Error.null_reference reply else ok signed.txid

-- `_collectorSubmitDoProcess`
unfoldable pub collector_submit :
    World → DepositGroup → HotWallet → SignedTransaction → Db → Outcome (String × Db)
collector_submit w g rally signed db =
    (w.gateway_of g.currency.symbol).send_raw_transaction signed.signed_raw >>= λ reply.
    sent_txid g.currency signed reply >>= λ txid. ok (
      txid,
      record db {
        internal_transfers =
            insert_row (collect_transfer w g rally txid db.internal_transfers)
              db.internal_transfers;
      },
    )

abbrev pub set_collecting : World → String → Deposit → Deposit
set_collecting w txid d = record d {
  updated_at = w.now;
  collected_txid = CollectedTxid.in_tx txid;
  collect_status = CollectStatus.collecting;
}

abbrev pub mark_collecting : World → DepositGroup → String × Db → Outcome Db
mark_collecting w g (txid, db) =
    update_rows deposit_key (map deposit_key g.records) (set_collecting w txid) db.deposits
    >>= λ rows. ok (record db { deposits = rows })

-- What the `catch` of the submission writes is undone with the transaction of the database, since the
-- error is thrown on.
abbrev pub send_collect :
    World → Collecting → DepositGroup → HotWallet → Option RawTransaction → Db → Outcome Db
send_collect w c g rally none db = err Error.no_raw_transaction
send_collect w c g rally (some raw) db = collector_sign c g.currency g.records raw db >>= λ signed.
    collector_submit w g rally signed db >>= mark_collecting w g

abbrev pub finish_attempt :
    World → Collecting → DepositGroup → HotWallet → Outcome Attempt → Db → Outcome Db
finish_attempt w c g rally (err e) db = give_up w g db
finish_attempt w c g rally (ok pending) db = ok (postpone w g.records db)
finish_attempt w c g rally (ok (built raw)) db = send_collect w c g rally raw db

abbrev pub is_nothing : DepositGroup → Bool
is_nothing g = eqb_ℤ g.amount (pos 0)

abbrev pub collect_group : Registry → World → Collecting → Option DepositGroup → Db → Outcome Db
collect_group reg w c none db = ok db
collect_group reg w c (some g) db =
    if g.wallet_id == 0
    then ok db
    else if is_nothing g
    then ok db
    else (or_throw Error.hot_wallet_not_found
          (find_any_internal_hot_wallet g.wallet_id g.currency.platform db)
        >>= λ rally. finish_attempt w c g rally (attempt reg w c g rally db) db)

-- `_collectorDoProcess`
unfoldable pub collector_do_process : Registry → World → Collecting → String → Db → Outcome Db
unfolding find_one_group_of_collectable_deposits find_any_internal_hot_wallet collector_submit
collector_do_process reg w c platform db =
    find_one_group_of_collectable_deposits reg w platform db >>= λ found.
    collect_group reg w c found.0 found.1
