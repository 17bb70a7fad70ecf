-- ===== src/Gateways.antt =====
-- When the gateways take a transaction for finished: getTransactionStatus of BitcoinBasedGateway.ts (which
-- OmniGateway.ts and BitcoinCashBasedGateway.ts share or repeat), XrpGateway.ts, CardanoGateway.ts,
-- EthGateway.ts and EosGateway.ts in libs. What the nodes answer is a parameter.
pub mod Depth
pub mod Eos
pub mod Caches
pub mod Verified
pub mod Confirmed
pub mod Blocked
pub mod Hex
use drx_wallet.Base.{◌≡◌, ℕ, Option, none, some, String, if◌then◌else◌}
use drx_wallet.Base.Int.{pos, ltb_ℤ, leb_ℤ}
use drx_wallet.Base.Outcome.{Outcome, ok, ◌>>=◌}
use drx_wallet.Schema.{TransactionStatus, World}
use drx_wallet.Evm.{NetworkTx, get_one_transaction, get_transaction_status}

-- The networks whose gateways count confirmations.
pub data Network : Type 0 where
  bitcoin ripple cardano ethereum : Network

-- What a gateway of such a network goes by. `fetch` is `_getOneTransaction` and `last` is `getBlockCount`;
-- of a transaction, `receipt_status` is that it was successful.
pub record Backend : Type 0 where
  pub network : Network
  pub required : ℕ
  pub cache : String → Option NetworkTx
  pub fetch : String → Outcome (Option NetworkTx)
  pub last : Outcome ℕ

-- `BitcoinBasedGateway.getTransactionStatus`
abbrev pub bitcoin_status : ℕ → Option NetworkTx → TransactionStatus
bitcoin_status required none = TransactionStatus.unknown
bitcoin_status required (some tx) =
    if leb_ℤ (pos required) tx.confirmations
    then TransactionStatus.completed
    else TransactionStatus.confirming

-- `XrpGateway.getTransactionStatus`
abbrev pub ripple_status : ℕ → Option NetworkTx → TransactionStatus
ripple_status required none = TransactionStatus.unknown
ripple_status required (some tx) =
    if ltb_ℤ tx.confirmations (pos required)
    then TransactionStatus.confirming
    else if tx.receipt_status
    then TransactionStatus.completed
    else TransactionStatus.failed

-- `CardanoGateway.getTransactionStatus`
abbrev pub cardano_status : ℕ → Option NetworkTx → TransactionStatus
cardano_status required none = TransactionStatus.unknown
cardano_status required (some tx) =
    if ltb_ℤ tx.confirmations (pos required)
    then TransactionStatus.confirming
    else TransactionStatus.completed

abbrev pub look_up : Backend → String → Outcome (Option NetworkTx)
look_up n txid = get_one_transaction (n.cache txid) (n.fetch txid) n.last

abbrev pub status_on : Network → Backend → String → Outcome TransactionStatus
status_on Network.bitcoin n txid = look_up n txid >>= λ found. ok (bitcoin_status n.required found)
status_on Network.ripple n txid = look_up n txid >>= λ found. ok (ripple_status n.required found)
status_on Network.cardano n txid = look_up n txid >>= λ found. ok (cardano_status n.required found)
status_on Network.ethereum n txid = get_transaction_status n.required n.cache n.fetch n.last txid

-- The status that the gateway reports.
unfoldable pub backend_status : Backend → String → Outcome TransactionStatus
unfolding get_one_transaction get_transaction_status
backend_status n txid = status_on n.network n txid

-- The gateways of a world go by these.
pub record IsServed (w : World) (backends : String → Backend) : Type 0 where
  pub served :
      (symbol txid : String)
      → (w.gateway_of symbol).get_transaction_status txid ≡ backend_status (backends symbol) txid
