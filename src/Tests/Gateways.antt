-- ===== src/Tests/Gateways.antt =====
-- A withdrawal of Bitcoin that is confirmed, and one of EOS that failed.
use drx_wallet.Base.{
  String, ℕ, ◌+◌, map, arith, false, true, ◌≡◌, ◌≢◌, ◌⊎◌, refl, sym, subst, inl, none, some, [],
  ◌∷◌, Has, find_oldest, sort_by,
}
use drx_wallet.Base.Int.{pos, ◌+ℤ◌, ◌-ℤ◌}
use drx_wallet.Base.Outcome.{ok}
use drx_wallet.Schema.{Db, World, Withdrawal, TransactionStatus, WithdrawalTx, WithdrawalStatus}
use drx_wallet.RawDb.Balances.{settle_withdrawal}
use drx_wallet.RawDb.Keys.{touch_withdrawal_tx}
use drx_wallet.RawDb.Logs.{insert_withdrawal_log, insert_webhook_progress}
use drx_wallet.RawDb.HotWallets.{
  find_sufficient_hot_wallet, check_hot_wallet_is_sufficient, get_one_hot_wallet,
  check_hot_wallet_is_busy,
}
use drx_wallet.RawDb.Picking.{
  get_next_picked_withdrawals, do_picking_withdrawals, find_one_withdrawal_tx,
}
use drx_wallet.Workers.Signer.{store_signed}
use drx_wallet.Workers.Sender.{update_both}
use drx_wallet.Workers.Verifier.{verifier_do_process, finish_withdrawal}
use drx_wallet.Lifecycle.Ticks.{commit, Tick, Ticks, start, tick}
use drx_wallet.Evm.{NetworkTx, get_one_transaction}
use drx_wallet.Gateways.{Network, Backend, IsServed, backend_status}
use drx_wallet.Gateways.Verified.{WasThere, IsConfirmed}
use drx_wallet.Gateways.Confirmed.{IsServedPath, verified_on, Ticks-IsConfirmed}
use drx_wallet.Gateways.Caches.{Fetch, Cache, empty, looked_up, get_one_transaction_cached}
use drx_wallet.Gateways.Eos.{EosNode, HistoryTx, eos_failed, get_eos_transaction_status}
use drx_wallet.Gateways.Blocked.{
  IsFailedOn, get_eos_transaction_status_never_failed, verify_ticks, failed_holds_up,
}
use drx_wallet.Gateways.Hex.{hex_of_bytes, bytes_of_hex, bytes_of_hex-hex_of_bytes}
use drx_wallet.Tests.Fixtures.{
  registry, registry-IsDisjoint, registry-IsNamed, btc, gateway, world, world-IsFresh,
  world-CountsPending, later_world, new_db, new_db-IsConsistent, sent_db, completed_row,
}

abbrev mined_tx : NetworkTx
mined_tx = record { block_number = 10; receipt_status = true; confirmations = pos 1 }

abbrev mined_only : Fetch
mined_only txid = ok (some mined_tx)

abbrev backend : Backend
backend = record {
  network = Network.bitcoin;
  required = 3;
  cache = λ txid. none;
  fetch = mined_only;
  last = ok 12;
}

-- The chain grows with the clock.
abbrev backends : World → String → Backend
backends w symbol = record backend { last = ok (w.now + 3) }

abbrev world_at : ℕ → World
world_at now = record later_world {
  now = now;
  gateway_of = λ symbol. record gateway {
    get_transaction_status = backend_status (record backend { last = ok (now + 3) });
  };
}

world_at-IsServed : (now : ℕ) → IsServed (world_at now) (backends (world_at now))
world_at-IsServed now = record { served = λ symbol txid. refl }

-- At the height 11 the transaction has two confirmations of three, and nothing is settled.
unfoldable waiting_db : Db
unfolding sent_db verifier_do_process
waiting_db = commit (verifier_do_process registry (world_at 8) "btc" sent_db) sent_db

unfoldable settled_db : Db
unfolding waiting_db verifier_do_process
settled_db = commit (verifier_do_process registry (world_at 9) "btc" waiting_db) waiting_db

still_sent : map (λ (r : Withdrawal). r.status) waiting_db.withdrawals ≡ WithdrawalStatus.sent ∷ []
unfolding waiting_db sent_db touch_withdrawal_tx find_one_withdrawal_tx find_oldest
    get_next_picked_withdrawals sort_by find_sufficient_hot_wallet ◌+ℤ◌ ◌-ℤ◌
    check_hot_wallet_is_sufficient do_picking_withdrawals get_one_hot_wallet
    check_hot_wallet_is_busy store_signed update_both insert_withdrawal_log insert_webhook_progress
    finish_withdrawal settle_withdrawal backend_status
still_sent = refl

settled_rows : settled_db.withdrawals ≡ completed_row ∷ []
unfolding settled_db waiting_db touch_withdrawal_tx find_one_withdrawal_tx find_oldest
    get_next_picked_withdrawals sort_by find_sufficient_hot_wallet ◌+ℤ◌ ◌-ℤ◌
    check_hot_wallet_is_sufficient do_picking_withdrawals get_one_hot_wallet
    check_hot_wallet_is_busy store_signed update_both insert_withdrawal_log insert_webhook_progress
    finish_withdrawal settle_withdrawal backend_status
settled_rows = refl

-- The whole way of the withdrawal.
unfoldable settled_path : Ticks registry false new_db settled_db
unfolding waiting_db settled_db
settled_path =
    tick
      (tick
        (tick
          (tick
            (tick
              (tick start
                (Tick.ask world world-IsFresh "btc" 1 "to" (pos 100) none "TMP_WITHDRAWAL_TX"))
              (Tick.pick world world-IsFresh (λ no. world-CountsPending) "btc"))
            (Tick.sign world "btc"))
          (Tick.send world "btc"))
        (Tick.verify (world_at 8) "btc"))
      (Tick.verify (world_at 9) "btc")

settled_path-IsServedPath : IsServedPath backends settled_path
unfolding settled_path
settled_path-IsServedPath = ((((((tt, tt), tt), tt), tt), world_at-IsServed 8), world_at-IsServed 9)

Ticks-IsConfirmed_example :
    WasThere new_db completed_row
    ⊎ ((w : World) × (mid : Db) × Has (w, mid) (verified_on settled_path)
        × IsConfirmed registry (backends w) mid completed_row)
Ticks-IsConfirmed_example =
    Ticks-IsConfirmed registry false registry-IsDisjoint registry-IsNamed backends completed_row
      (new_db-IsConsistent false) settled_path settled_path-IsServedPath
      (subst (λ rows. Has completed_row rows) (sym settled_rows) (inl refl)) (inl refl)

abbrev known_tx : NetworkTx
known_tx = record mined_tx { confirmations = pos 2 }

first_lookup : get_one_transaction none (mined_only "txid") (ok 11) ≡ ok (some known_tx)
unfolding get_one_transaction ◌+ℤ◌ ◌-ℤ◌
first_lookup = refl

get_one_transaction_cached_example :
    get_one_transaction (some known_tx) (mined_only "txid") (ok 12)
    ≡ get_one_transaction none (mined_only "txid") (ok 12)
get_one_transaction_cached_example =
    get_one_transaction_cached mined_only
      (looked_up mined_only (ok 11) "txid" known_tx empty refl first_lookup) (ok 12) "txid"

abbrev soft_failed : HistoryTx
soft_failed = record { id = "txid"; block_num = 10; receipt = some eos_failed }

abbrev eos_node : EosNode
eos_node = record {
  history_get_transaction = λ txid. ok soft_failed;
  get_block = λ n. ok n;
  get_info = ok (record { head_block_num = 100; last_irreversible_block_num = 90 });
}

abbrev no_entries : Cache
no_entries txid = none

get_eos_transaction_status_never_failed_example :
    get_eos_transaction_status eos_node no_entries "txid" ≢ ok TransactionStatus.failed
get_eos_transaction_status_never_failed_example =
    get_eos_transaction_status_never_failed eos_node "txid" empty

abbrev eos_world : World
eos_world = record later_world {
  gateway_of = λ symbol. record gateway {
    get_transaction_status = get_eos_transaction_status eos_node no_entries;
  };
}

eos_world-IsFailedOn : IsFailedOn "btc" "txid" eos_world
eos_world-IsFailedOn = record {
  node = eos_node;
  cache = no_entries;
  reply = soft_failed;
  served = refl;
  uncached = refl;
  known = refl;
  failed = refl;
}

abbrev sent_row : WithdrawalTx
sent_row = record {
  id = 1;
  hot_wallet_address = "hot";
  txid = some "txid";
  status = WithdrawalStatus.sent;
  currency = "btc";
  unsigned_txid = "raw";
  unsigned_raw = "unsigned";
  signed_raw = some "signed";
  fee_amount = none;
  created_at = 5;
  updated_at = 5;
}

found_row : find_one_withdrawal_tx registry "btc" WithdrawalStatus.sent sent_db ≡ some sent_row
unfolding sent_db find_one_withdrawal_tx find_oldest get_next_picked_withdrawals sort_by
    find_sufficient_hot_wallet ◌+ℤ◌ check_hot_wallet_is_sufficient do_picking_withdrawals
    get_one_hot_wallet check_hot_wallet_is_busy store_signed update_both insert_withdrawal_log
    insert_webhook_progress
found_row = refl

failed_holds_up_example : verify_ticks registry "btc" (eos_world ∷ eos_world ∷ []) sent_db ≡ sent_db
failed_holds_up_example =
    failed_holds_up registry "btc" sent_db sent_row btc found_row refl (eos_world ∷ eos_world ∷ [])
      (eos_world-IsFailedOn, (eos_world-IsFailedOn, tt))

hex_text : hex_of_bytes (5 ∷ 171 ∷ []) ≡ "05ab"
unfolding hex_of_bytes
hex_text = refl

bytes_of_hex-hex_of_bytes_example : bytes_of_hex (hex_of_bytes (5 ∷ 171 ∷ [])) ≡ 5 ∷ 171 ∷ []
bytes_of_hex-hex_of_bytes_example =
    bytes_of_hex-hex_of_bytes (5 ∷ 171 ∷ []) (omega arith, (omega arith, tt))
