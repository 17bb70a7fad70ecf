-- ===== src/Tests/Evm.antt =====
-- Transactions of Ethereum: drafts, retries and statuses.
use drx_wallet.Base.Text.{add_prefix}
use drx_wallet.Base.{
  ℕ, ◌*◌, ◌≤◌, ◌≡◌, refl, true, Option, none, some, String, arith, ltb, if◌then◌else◌,
}
use drx_wallet.Base.Int.{ℤ, pos, negsuc, ◌+ℤ◌, ◌-ℤ◌, ◌≤ℤ◌}
use drx_wallet.Base.Outcome.{Outcome, ok, err, Error}
use drx_wallet.Schema.{TransactionStatus}
use drx_wallet.Evm.{
  Node, EthTx, construct_raw_transaction, Refusal, Reply, refused, send_raw_transaction, NetworkTx,
  get_transaction_status,
}
use drx_wallet.Evm.Drafts.{construct_raw_transaction_bounds}
use drx_wallet.Evm.Sending.{first_final, replies_from, send_raw_transaction_lem}
use drx_wallet.Evm.Statuses.{get_transaction_status_stays}

abbrev node : Node
node = record {
  get_gas_price = ok 3;
  get_transaction_count = λ address. ok 7;
  get_balance = λ address. ok (pos 1000000);
}

abbrev eth_tx : EthTx
eth_tx = record { gas_limit = 21000; gas_price = 6; nonce = 7; to = "hot"; value = pos 374000 }

constructed : construct_raw_transaction 20 node "mine" "hot" (pos 500000) true true ≡ ok eth_tx
unfolding construct_raw_transaction ◌+ℤ◌ ◌-ℤ◌
constructed = refl

construct_raw_transaction_bounds_example :
    (pos 0 ≤ℤ pos 374000)
    × (6 ≤ 20)
    × ((balance : ℤ) × (node.get_balance "mine" ≡ ok balance)
        × (pos 374000 +ℤ pos (21000 * 6) ≤ℤ balance))
    × (pos 374000 +ℤ pos (21000 * 6) ≡ pos 500000)
construct_raw_transaction_bounds_example =
    construct_raw_transaction_bounds 20 node "mine" "hot" (pos 500000) true true (omega arith)
      constructed

-- A consolidation of less than its fee has a negative value.
abbrev negative_tx : EthTx
negative_tx = record {
  gas_limit = 21000;
  gas_price = 6;
  nonce = 7;
  to = "hot";
  value = negsuc 125989;
}

below_fee : construct_raw_transaction 100 node "mine" "hot" (pos 10) true true ≡ ok negative_tx
unfolding construct_raw_transaction ◌+ℤ◌ ◌-ℤ◌
below_fee = refl

abbrev answers : ℕ → Reply
answers n = if ltb n 2 then refused Refusal.other else refused Refusal.already_known

third_try : send_raw_transaction 6 answers "ab" 0 ≡ some (ok "0xab")
unfolding send_raw_transaction add_prefix
third_try = refl

send_raw_transaction_lem_example :
    send_raw_transaction 6 answers "ab" 0 ≡ some (first_final "ab" (replies_from answers 0 6))
send_raw_transaction_lem_example = send_raw_transaction_lem answers "ab"

abbrev mined : NetworkTx
mined = record { block_number = 10; receipt_status = true; confirmations = pos 1 }

abbrev no_cache : String → Option NetworkTx
no_cache txid = none

abbrev cached : String → Option NetworkTx
cached txid = some mined

abbrev network : String → Outcome (Option NetworkTx)
network txid = ok (some mined)

abbrev offline : String → Outcome (Option NetworkTx)
offline txid = err Error.network_error

completed : get_transaction_status 3 no_cache network (ok 12) "ab" ≡ ok TransactionStatus.completed
unfolding get_transaction_status ◌+ℤ◌ ◌-ℤ◌
completed = refl

get_transaction_status_stays_example :
    get_transaction_status 3 cached offline (ok 20) "ab" ≡ ok TransactionStatus.completed
get_transaction_status_stays_example =
    get_transaction_status_stays 3 no_cache cached network offline 12 20 "ab" mined mined
      (omega arith) completed (λ e. cc e) (λ e. cc e) refl refl refl refl (omega arith)
