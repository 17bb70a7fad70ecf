-- ===== src/Blocks.antt =====
-- How libs/sota-common/src/BaseGateway.ts reads the transactions of blocks: getOneBlock,
-- getTransactionsByIds, getBlockTransactions and getMultiBlocksTransactions. The promises that are awaited
-- together run in the order of their list; what the network answers is a parameter.
pub mod Reading
use drx_wallet.Base.{
  ℕ, zero, suc, ◌+◌, ◌-◌, Option, none, some, List, [], ◌∷◌, ◌++◌, String, str_eq, if◌then◌else◌,
  ltb, select, not, Bool,
}
use drx_wallet.Base.Outcome.{Outcome, ok, err, Error, ◌>>=◌}

-- `Block`
pub record Block : Type 0 where
  pub number : ℕ
  pub txids : List String

-- What a gateway is asked: the cached blocks, a block of the network, and one transaction.
pub record Source (T : Type 0) : Type 0 where
  pub cached_block : ℕ → Option Block
  pub fetch_block : ℕ → Outcome (Option Block)
  pub get_one_transaction : String → Block → Outcome (Option T)

abbrev pub block_or : Option Block → Outcome (Option Block) → Outcome (Option Block)
block_or none fetched = fetched
block_or (some b) fetched = ok (some b)

abbrev pub is_text : String → Bool
is_text t = not (str_eq t "")

module _ {T : Type 0} where
  -- `getOneBlock`
  unfoldable pub get_one_block : Source T → ℕ → Outcome (Option Block)
  get_one_block s n = block_or (s.cached_block n) (s.fetch_block n)

  abbrev pub push_found_tx : Option T → List T → List T
  push_found_tx none txs = txs
  push_found_tx (some t) txs = t ∷ txs

  -- `getTransactionsByIds`
  unfoldable pub get_transactions_by_ids : Source T → Block → List String → Outcome (List T)
  get_transactions_by_ids s b [] = ok []
  get_transactions_by_ids s b (txid ∷ txids) = do
    found ← s.get_one_transaction txid b
    rest ← get_transactions_by_ids s b txids
    ok (push_found_tx found rest)

  abbrev pub transactions_in : Source T → Option Block → Outcome (List T)
  transactions_in s none = err Error.block_not_found
  transactions_in s (some b) = get_transactions_by_ids s b (select is_text b.txids)

  -- `getBlockTransactions`
  unfoldable pub get_block_transactions : Source T → ℕ → Outcome (List T)
  unfolding get_one_block get_transactions_by_ids
  get_block_transactions s n = get_one_block s n >>= transactions_in s

  -- The blocks from a number on.
  abbrev pub transactions_from : Source T → ℕ → ℕ → Outcome (List T)
  transactions_from s n zero = ok []
  transactions_from s n (suc count) = do
    txs ← get_block_transactions s n
    rest ← transactions_from s (n + 1) count
    ok (txs ++ rest)

  -- `getMultiBlocksTransactions`
  unfoldable pub get_multi_blocks_transactions : Source T → ℕ → ℕ → Outcome (List T)
  get_multi_blocks_transactions s from_number to_number =
      if ltb to_number from_number
      then err Error.invalid_range
      else transactions_from s from_number (to_number - from_number + 1)
