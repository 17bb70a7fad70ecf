-- ===== src/Tests/Collection.antt =====
-- Two deposits of one address are collected, verified, and a third one is seeded.
use drx_wallet.Base.{
  ℕ, ◌≡◌, ◌≢◌, ◌⊎◌, refl, inl, inr, false, none, some, List, [], ◌∷◌, map, String, Has, str_eq,
  if◌then◌else◌, sort_by,
}
use drx_wallet.Base.Int.{pos, ◌+ℤ◌}
use drx_wallet.Base.Outcome.{ok}
use drx_wallet.Base.Saves.{update_ids}
use drx_wallet.Schema.{
  Db, World, Deposit, DepositLog, DepositEvent, CollectStatus, CollectedTxid, InternalTransfer,
  InternalTransferType, WithdrawalStatus,
}
use drx_wallet.RawDb.Keys.{deposit_key}
use drx_wallet.RawDb.Collectable.{sum_deposits}
use drx_wallet.Workers.CollectTx.{
  Vout, AddressUtxo, Collecting, sum_satoshis, construct_utxo_based_collect_tx, collector_sign,
}
use drx_wallet.Workers.Collector.{set_collecting, collector_do_process}
use drx_wallet.Workers.Internal.{is_in_transfer, verify_collect}
use drx_wallet.Workers.Seeder.{fee_seeder_do_process}
use drx_wallet.Collection.{Collection}
use drx_wallet.Collection.Ticks.{collector_do_process-Collection}
use drx_wallet.Collection.Outputs.{AreOf, construct_utxo_based_collect_tx_lem}
use drx_wallet.Collection.Endings.{verify_collect-set_collecting}
use drx_wallet.Collection.Seeds.{fee_seeder_do_process_once}
use drx_wallet.Lifecycle.Ticks.{commit}
use drx_wallet.Tests.Fixtures.{btc, registry, world, new_db}

abbrev collect_world : World
collect_world = record world { now = 100000 }

abbrev unspent_of : String → List AddressUtxo
unspent_of address =
    record { tx_id = "a"; vout = 0; satoshis = pos 30 }
    ∷ record { tx_id = "b"; vout = 1; satoshis = pos 12 }
    ∷ []

abbrev vout_of : String → List Vout
vout_of txid = record { is_spent = false; mint_index = if str_eq txid "a" then 0 else 1 } ∷ []

abbrev collecting : Collecting
collecting = record {
  get_average_seeding_fee = λ symbol. ok (pos 5);
  get_one_tx_vouts = λ symbol txid address. ok (vout_of txid);
  get_one_address_utxos = λ symbol address. ok (unspent_of address);
  construct_consolidate =
      λ symbol utxos to. ok (some (record { txid = "raw"; unsigned_raw = "raw" }));
  construct_account_consolidate = λ symbol from to amount all. ok none;
  get_first_address_in_wallet = λ wallet. ok wallet;
  get_wallet_id = λ address wallet_id. ok address;
  estimate_fee = λ wallet vout. ok (pos 1);
  secret_of = λ address. ok "key";
  sign = λ symbol raw secrets. ok (record { txid = "collect"; signed_raw = raw });
}

abbrev deposit_row : ℕ → String → ℕ → CollectStatus → Deposit
deposit_row id txid amount status = record {
  id = id;
  wallet_id = 1;
  currency = "btc";
  to_address = "mine";
  txid = txid;
  amount = pos amount;
  block_number = 1;
  block_timestamp = 1;
  collect_status = status;
  collected_txid = CollectedTxid.empty;
  collected_timestamp = 0;
  created_at = 1;
  updated_at = 1;
}

abbrev two_deposits : List Deposit
two_deposits =
    deposit_row 1 "a" 30 CollectStatus.uncollected
    ∷ deposit_row 2 "b" 12 CollectStatus.uncollected
    ∷ []

abbrev deposit_db : Db
deposit_db = record new_db { deposits = two_deposits }

unfoldable collected_db : Db
unfolding collector_do_process
collected_db =
    commit (collector_do_process registry collect_world collecting "btc" deposit_db) deposit_db

collected :
    collector_do_process registry collect_world collecting "btc" deposit_db ≡ ok collected_db
unfolding collected_db sort_by ◌+ℤ◌ construct_utxo_based_collect_tx collector_sign
collected = refl

collected_amounts :
    map (λ (t : InternalTransfer). t.amount) collected_db.internal_transfers ≡ pos 42 ∷ []
unfolding collected_db ◌+ℤ◌ sort_by construct_utxo_based_collect_tx collector_sign
collected_amounts = refl

collected_statuses :
    map (λ (d : Deposit). d.collect_status) collected_db.deposits
    ≡ CollectStatus.collecting ∷ CollectStatus.collecting ∷ []
unfolding collected_db sort_by ◌+ℤ◌ construct_utxo_based_collect_tx collector_sign
collected_statuses = refl

collector_do_process-Collection_example :
    Collection registry collect_world "btc" deposit_db collected_db
collector_do_process-Collection_example =
    collector_do_process-Collection registry collect_world collecting "btc" deposit_db collected

raw_tx :
    construct_utxo_based_collect_tx collecting btc two_deposits "hot"
    ≡ ok (some (record { txid = "raw"; unsigned_raw = "raw" }))
unfolding construct_utxo_based_collect_tx ◌+ℤ◌
raw_tx = refl

construct_utxo_based_collect_tx_lem_example :
    (utxos : List AddressUtxo) × (collecting.construct_consolidate "btc" utxos "hot"
      ≡ ok (some (record { txid = "raw"; unsigned_raw = "raw" })))
    × (sum_satoshis utxos ≡ sum_deposits two_deposits)
    × AreOf two_deposits utxos
construct_utxo_based_collect_tx_lem_example =
    construct_utxo_based_collect_tx_lem collecting btc two_deposits "hot" raw_tx

abbrev transfer : InternalTransfer
transfer = record {
  id = 1;
  wallet_id = 1;
  currency = "btc";
  type = InternalTransferType.collect;
  from_address = "will remove this field";
  to_address = "hot";
  txid = "collect";
  amount = pos 42;
  fee = pos 0;
  status = WithdrawalStatus.sent;
  fee_currency = "";
  created_at = 5;
  updated_at = 5;
}

abbrev marked_db : Db
marked_db = record deposit_db {
  deposits = update_ids deposit_key (1 ∷ []) (set_collecting collect_world "collect") two_deposits;
}

unfoldable verified_db : Db
unfolding verify_collect
verified_db =
    commit
      (verify_collect registry world transfer WithdrawalStatus.completed CollectStatus.collected
        (pos 2) marked_db)
      marked_db

verified :
    verify_collect registry world transfer WithdrawalStatus.completed CollectStatus.collected
      (pos 2)
      marked_db
    ≡ ok verified_db
unfolding verified_db
verified = refl

unused_txid : (d : Deposit) → Has d two_deposits → is_in_transfer transfer d ≡ false
unused_txid d (inl e) = rw e refl
unused_txid d (inr (inl e)) = rw e refl
unused_txid d (inr (inr m)) = elim m [ ]

verify_collect-set_collecting_example :
    verified_db.deposits
    ≡ update_ids deposit_key
        (1 ∷ [])
        (λ d. record d {
          collect_status = CollectStatus.collected;
          collected_txid = CollectedTxid.in_tx "collect";
          collected_timestamp = 5;
          updated_at = collect_world.now;
        })
        two_deposits
verify_collect-set_collecting_example =
    verify_collect-set_collecting registry world transfer collect_world (1 ∷ [])
      WithdrawalStatus.completed CollectStatus.collected (pos 2) deposit_db unused_txid verified

abbrev thirsty_db : Db
thirsty_db = record new_db { deposits = deposit_row 3 "c" 5 CollectStatus.seed_requested ∷ [] }

unfoldable seeded_db : Db
unfolding fee_seeder_do_process
seeded_db = commit (fee_seeder_do_process registry world collecting btc thirsty_db) thirsty_db

seeded_once : fee_seeder_do_process registry world collecting btc thirsty_db ≡ ok seeded_db
unfolding seeded_db
seeded_once = refl

seeded_amounts : map (λ (t : InternalTransfer). t.amount) seeded_db.internal_transfers ≡ pos 5 ∷ []
unfolding seeded_db
seeded_amounts = refl

abbrev seed_log : DepositLog
seed_log = record {
  deposit_id = 3;
  event = DepositEvent.seeding;
  ref_id = 3;
  txid = some "txid";
  created_at = 5;
}

abbrev logged_db : Db
logged_db = record thirsty_db { deposit_logs = seed_log ∷ []; internal_transfers = transfer ∷ [] }

not_again : fee_seeder_do_process registry world collecting btc logged_db ≡ ok logged_db
unfolding fee_seeder_do_process
not_again = refl

fee_seeder_do_process_once_example :
    Has transfer logged_db.internal_transfers ⊎ (transfer.to_address ≢ "mine")
fee_seeder_do_process_once_example =
    fee_seeder_do_process_once registry world collecting btc logged_db
      (deposit_row 3 "c" 5 CollectStatus.seed_requested) seed_log (inl refl) refl (inl refl) refl
      refl not_again transfer (inl refl)
