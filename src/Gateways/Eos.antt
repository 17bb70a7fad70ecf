-- ===== src/Gateways/Eos.antt =====
-- libs/sota-eos/src/EosGateway.ts and EosTransaction.ts: how a transaction of EOS is found, and the status
-- that the gateway reports. What the node answers is a parameter.
use drx_wallet.Base.{ℕ, ◌-◌, ◌==◌, not, Option, none, some, String, str_eq, leb, if◌then◌else◌}
use drx_wallet.Base.Int.{pos, ◌+ℤ◌, ◌-ℤ◌}
use drx_wallet.Base.Outcome.{Outcome, ok, err, Error, ◌>>=◌}
use drx_wallet.Schema.{TransactionStatus}
use drx_wallet.Evm.{NetworkTx, get_one_transaction}

-- What `history_get_transaction` answers: `receipt` is the status of the receipt, if there is one.
pub record HistoryTx : Type 0 where
  pub id : String
  pub block_num : ℕ
  pub receipt : Option String

-- `GetInfoResult`
pub record ChainInfo : Type 0 where
  pub head_block_num : ℕ
  pub last_irreversible_block_num : ℕ

-- What the node is asked. A block is asked for by its number, and answers with it.
pub record EosNode : Type 0 where
  pub history_get_transaction : String → Outcome HistoryTx
  pub get_block : ℕ → Outcome ℕ
  pub get_info : Outcome ChainInfo

-- What the constructor of EosTransaction takes: `trx` is the id of the `trx` object, or null.
pub record EosRawTx : Type 0 where
  pub status : String
  pub trx : Option String

-- `EosStatuses`
abbrev pub eos_executed : String
eos_executed = "executed"

abbrev pub eos_failed : String
eos_failed = "soft_fail"

-- The constructor of EosTransaction, which reads `tx.trx.id`.
unfoldable pub new_eos_transaction : EosRawTx → ℕ → ℕ → Outcome NetworkTx
new_eos_transaction tx block_num last_network_block = elim tx.trx [
  | none ↦ err Error.null_reference
  | some id ↦ ok (record {
    block_number = block_num;
    receipt_status = not (str_eq tx.status eos_failed);
    confirmations =
        if last_network_block == 0 then pos 0 else pos last_network_block -ℤ pos block_num +ℤ pos 1;
  })
]

-- A failed transaction is passed on without its `trx`.
abbrev pub raw_tx_of : HistoryTx → String → EosRawTx
raw_tx_of t status =
    if str_eq status eos_failed
    then record { status = eos_failed; trx = none }
    else record { status = eos_executed; trx = some t.id }

abbrev pub with_receipt : HistoryTx → ℕ → ChainInfo → Option String → Outcome (Option NetworkTx)
with_receipt t block_num info none = ok none
with_receipt t block_num info (some status) = do
  tx ← new_eos_transaction (raw_tx_of t status) block_num info.last_irreversible_block_num
  ok (some tx)

abbrev pub in_history : EosNode → Outcome HistoryTx → Outcome (Option NetworkTx)
in_history n (err e) = ok none
in_history n (ok t) = do
  block_num ← n.get_block t.block_num
  info ← n.get_info
  with_receipt t block_num info t.receipt

-- `_getOneTransaction`
unfoldable pub fetch_eos_transaction : EosNode → String → Outcome (Option NetworkTx)
unfolding new_eos_transaction
fetch_eos_transaction n txid = in_history n (n.history_get_transaction txid)

-- `getBlockCount`, on a chain of more than sixty blocks.
abbrev pub get_eos_block_count : EosNode → Outcome ℕ
get_eos_block_count n = n.get_info >>= λ info. ok (info.head_block_num - 60)

abbrev pub get_one_eos_transaction :
    EosNode → (String → Option NetworkTx) → String → Outcome (Option NetworkTx)
get_one_eos_transaction n cache txid =
    get_one_transaction (cache txid) (fetch_eos_transaction n txid) (get_eos_block_count n)

abbrev pub eos_status : ℕ → Option NetworkTx → TransactionStatus
eos_status last_irreversible none = TransactionStatus.unknown
eos_status last_irreversible (some tx) =
    if not tx.receipt_status
    then TransactionStatus.failed
    else if leb tx.block_number last_irreversible
    then TransactionStatus.completed
    else TransactionStatus.confirming

-- `getTransactionStatus`
unfoldable pub get_eos_transaction_status :
    EosNode → (String → Option NetworkTx) → String → Outcome TransactionStatus
unfolding get_one_transaction fetch_eos_transaction
get_eos_transaction_status n cache txid = do
  info ← n.get_info
  found ← get_one_eos_transaction n cache txid
  ok (eos_status info.last_irreversible_block_num found)
