-- ===== src/Evm.antt =====
-- libs/sota-eth/src/EthGateway.ts and Erc20Gateway.ts (BscGateway.ts and Bep20Gateway.ts of libs/sota-bsc are
-- the same but for names), and getOneTransaction of libs/sota-common/src/BaseGateway.ts. What the node
-- answers is a parameter.
pub mod Drafts
pub mod Sending
pub mod Statuses
use drx_wallet.Base.{
  ℕ, zero, suc, ◌+◌, ◌*◌, Bool, true, false, Option, none, some, List, [], ◌∷◌, String, ltb, ◌==◌,
  if◌then◌else◌,
}
use drx_wallet.Base.Int.{ℤ, pos, ◌+ℤ◌, ◌-ℤ◌, ltb_ℤ, eqb_ℤ}
use drx_wallet.Base.Outcome.{Outcome, ok, err, Error, ◌>>=◌}
use drx_wallet.Base.Text.{add_prefix}
use drx_wallet.Schema.{TransactionStatus}

pub record Node : Type 0 where
  pub get_gas_price : Outcome ℕ
  pub get_transaction_count : String → Outcome ℕ
  pub get_balance : String → Outcome ℤ

-- The numbers that `EthereumTx` is given, without its chain and data. The source writes each with `toHex` of
-- web3, which for a negative value is a text that `EthereumTx` does not read as that number.
pub record EthTx : Type 0 where
  pub gas_limit : ℕ
  pub gas_price : ℕ
  pub nonce : ℕ
  pub to : String
  pub value : ℤ

-- `getGasPrice`: a multiple of the node's price, up to the maximum.
unfoldable pub get_gas_price : ℕ → Node → Bool → Outcome ℕ
get_gas_price max_gas_price node use_lower_network_fee = do
  price ← node.get_gas_price
  let real = price * (if use_lower_network_fee then 2 else 5)
  ok (if ltb max_gas_price real then max_gas_price else real)

-- `getAverageSeedingFee`
unfoldable pub get_average_seeding_fee : ℕ → Node → Outcome ℤ
unfolding get_gas_price
get_average_seeding_fee max_gas_price node = do
  price ← get_gas_price max_gas_price node false
  ok (pos (price * 150000))

abbrev pub gas_limit_of : Bool → ℕ
gas_limit_of is_consolidate = if is_consolidate then 21000 else 150000

-- A consolidation pays the fee out of the amount.
abbrev pub value_of : Bool → ℤ → ℤ → ℤ
value_of is_consolidate amount fee = if is_consolidate then amount -ℤ fee else amount

-- `constructRawTransaction`
unfoldable pub construct_raw_transaction :
    ℕ → Node → String → String → ℤ → Bool → Bool → Outcome EthTx
unfolding get_gas_price
construct_raw_transaction max_gas_price node from to_address amount is_consolidate
      use_lower_network_fee =
    do
      nonce ← node.get_transaction_count from
      price ← get_gas_price max_gas_price node use_lower_network_fee
      balance ← node.get_balance from
      let limit = gas_limit_of is_consolidate
      let fee = pos (limit * price)
      let value = value_of is_consolidate amount fee
      if ltb_ℤ balance (value +ℤ fee)
          then err Error.insufficient_balance
          else ok (record {
            gas_limit = limit;
            gas_price = price;
            nonce = nonce;
            to = to_address;
            value = value;
          })

-- `constructRawTransaction` of a token: the contract is called, and no native asset is sent.
unfoldable pub construct_token_transaction :
    ℕ → Node → Outcome ℕ → (String → Outcome ℤ) → String → String → ℤ → Bool → Outcome EthTx
unfolding get_gas_price
construct_token_transaction max_gas_price node estimate_gas token_balance contract from amount
      use_lower_network_fee =
    do
      nonce ← node.get_transaction_count from
      price ← get_gas_price max_gas_price node use_lower_network_fee
      estimate ← estimate_gas
      let limit = if ltb 150000 estimate then 150000 else estimate
      native ← node.get_balance from
      balance ← token_balance from
      if ltb_ℤ balance amount
          then err Error.insufficient_balance
          else if ltb_ℤ native (pos (limit * price))
          then err Error.insufficient_fee
          else ok (record {
            gas_limit = limit;
            gas_price = price;
            nonce = nonce;
            to = contract;
            value = pos 0;
          })

-- What the error's text of a refused submission tells.
pub data Refusal : Type 0 where
  already_known known_transaction reverted other : Refusal

-- What the two nodes answer to one submission.
pub data Reply : Type 0 where
  accepted : String → Reply
  refused : Refusal → Reply

abbrev pub is_known : Refusal → Bool
is_known Refusal.already_known = true
is_known Refusal.known_transaction = true
is_known Refusal.reverted = true
is_known Refusal.other = false

-- `sendRawTransaction`, with the answers to its submissions and the hash of the transaction. `none` is
-- that the fuel ran out.
unfoldable pub send_raw_transaction : ℕ → (ℕ → Reply) → String → ℕ → Option (Outcome String)
send_raw_transaction zero answers hash retry_count = none
send_raw_transaction (suc fuel) answers hash retry_count = elim (answers retry_count) [
  | accepted txid ↦ some (ok txid)
  | refused reason ↦ elim (is_known reason) [
    | true ↦ some (ok (add_prefix hash))
    | false ↦ elim (ltb 5 (retry_count + 1)) [
      | true ↦ some (err Error.network_error)
      | false ↦ send_raw_transaction fuel answers hash (retry_count + 1)
    ]
  ]
]

pub record NetworkTx : Type 0 where
  pub block_number : ℕ
  pub receipt_status : Bool
  pub confirmations : ℤ

abbrev pub with_confirmations : ℕ → NetworkTx → NetworkTx
with_confirmations last t = record t { confirmations = pos last -ℤ pos t.block_number +ℤ pos 1 }

abbrev pub cached_or : Option NetworkTx → Outcome (Option NetworkTx) → Outcome (Option NetworkTx)
cached_or none fetched = fetched
cached_or (some t) fetched = ok (some t)

abbrev pub confirm : Outcome ℕ → Option NetworkTx → Outcome (Option NetworkTx)
confirm last none = ok none
confirm last (some t) = last >>= λ n. ok (some (with_confirmations n t))

-- `BaseGateway.getOneTransaction`: what the cache holds under the txid, or else what the network has. The
-- result is put into the cache.
unfoldable pub get_one_transaction :
    Option NetworkTx → Outcome (Option NetworkTx) → Outcome ℕ → Outcome (Option NetworkTx)
get_one_transaction cached fetched last = cached_or cached fetched >>= confirm last

abbrev pub status_of_tx : ℕ → Option NetworkTx → TransactionStatus
status_of_tx required none = TransactionStatus.unknown
status_of_tx required (some t) =
    if eqb_ℤ t.confirmations (pos 0)
    then TransactionStatus.unknown
    else if ltb_ℤ t.confirmations (pos required)
    then TransactionStatus.confirming
    else if t.receipt_status
    then TransactionStatus.completed
    else TransactionStatus.failed

-- `getTransactionStatus`, for a cache and a network that are asked by txid.
unfoldable pub get_transaction_status :
    ℕ
    → (String → Option NetworkTx)
    → (String → Outcome (Option NetworkTx))
    → Outcome ℕ
    → String
    → Outcome TransactionStatus
unfolding get_one_transaction
get_transaction_status required cache fetch last txid =
    get_one_transaction (cache (add_prefix txid)) (fetch (add_prefix txid)) last >>= λ found.
    ok (status_of_tx required found)
