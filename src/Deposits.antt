-- ===== src/Deposits.antt =====
-- How a transaction on a network becomes deposits:
-- libs/wallet-core/src/rawdb/processOneDepositTransaction.ts and filterWatchingAddresses.ts, and the
-- callback libs/wallet-core/src/callbacks/crawl/onCrawlingTxs.ts. The promises that the source awaits together
-- run one after the other here, in the order of their list.
pub mod Inserting
pub mod Known
pub mod Counting
pub mod Crawling
use drx_wallet.Base.{
  ℕ, Bool, true, false, ◌&&◌, ◌||◌, not, Option, none, some, List, [], ◌∷◌, ◌++◌, map, String,
  str_eq, if◌then◌else◌, select, find_first, insert_row, leb,
}
use drx_wallet.Base.Outcome.{Outcome, ok, ◌>>=◌}
use drx_wallet.Schema.{Db, World, Registry, Address, HotWallet, InternalTransfer, contains_text}
use drx_wallet.RawDb.Deposits.{Output, has_row, insert_deposit, insert_deposits}
use drx_wallet.Chain.{
  TransferEntry, extract_output_entries, extract_sender_addresses, extract_recipient_addresses,
}

-- A `Transaction` of the crawler, with its entries extracted.
pub record ChainTx : Type 0 where
  pub currency : String
  pub txid : String
  pub height : ℕ
  pub timestamp : ℕ
  pub confirmations : ℕ
  pub is_failed : Bool
  pub entries : List TransferEntry

abbrev pub is_transfer_of : String → InternalTransfer → Bool
is_transfer_of txid t = str_eq t.txid txid

abbrev pub is_sender_address : List String → Address → Bool
is_sender_address senders a = contains_text a.address senders

abbrev pub is_sender_wallet : List String → HotWallet → Bool
is_sender_wallet senders h = contains_text h.address senders

-- `isInternalTransfer`. Without senders the lists of the two queries are empty.
unfoldable pub is_internal_transfer : ChainTx → Db → Bool
is_internal_transfer tx db =
    let senders = extract_sender_addresses tx.entries in
    has_row (find_first (is_transfer_of tx.txid) db.internal_transfers)
    || (has_row (find_first (is_sender_address senders) db.addresses)
        || has_row (find_first (is_sender_wallet senders) db.hot_wallets))

abbrev pub output_of : ChainTx → TransferEntry → Output
output_of tx e = record {
  currency = tx.currency;
  txid = tx.txid;
  address = e.address;
  amount = e.amount;
  height = tx.height;
  timestamp = tx.timestamp;
}

abbrev pub is_watched : List String → TransferEntry → Bool
is_watched watching e = contains_text e.address watching

unfoldable pub watched_outputs : ChainTx → List String → List Output
unfolding extract_output_entries
watched_outputs tx watching =
    map (output_of tx) (select (is_watched watching) (extract_output_entries tx.entries))

-- `processOneDepositTransaction`. Where no output is watched there is nothing to insert.
unfoldable pub process_one_deposit_transaction :
    Registry → World → ℕ → ChainTx → List String → Db → Outcome Db
unfolding insert_deposit is_internal_transfer
process_one_deposit_transaction reg w required_confirmations tx watching db =
    if leb required_confirmations tx.confirmations
    then if is_internal_transfer tx db
      then ok db
      else insert_deposits reg w (watched_outputs tx watching) db
    else ok db

-- A value of the map that `groupByRecipients` builds, with its key.
pub record Group : Type 0 where
  pub recipient : String
  pub txs : List ChainTx

abbrev pub add_recipient : ChainTx → String → List Group → List Group
add_recipient tx address [] = record { recipient = address; txs = tx ∷ [] } ∷ []
add_recipient tx address (g ∷ gs) =
    let rest = add_recipient tx address gs in
    if str_eq g.recipient address then record g { txs = insert_row tx g.txs } ∷ gs else g ∷ rest

abbrev pub add_recipients : ChainTx → List String → List Group → List Group
add_recipients tx [] gs = gs
add_recipients tx (a ∷ addresses) gs = add_recipients tx addresses (add_recipient tx a gs)

abbrev pub group_from : List ChainTx → List Group → List Group
group_from [] gs = gs
group_from (tx ∷ txs) gs =
    group_from txs (add_recipients tx (extract_recipient_addresses tx.entries) gs)

-- `groupByRecipients`
unfoldable pub group_by_recipients : List ChainTx → List Group
group_by_recipients txs = group_from txs []

abbrev pub recipient_of : Group → String
recipient_of g = g.recipient

abbrev is_watched_on : List String → String → Address → Bool
is_watched_on addresses currency a = contains_text a.address addresses && str_eq a.currency currency

-- `_.compact(_.uniq(…))`: the first of each text, and no empty one.
abbrev pub unique_texts : List String → List Address → List String
unique_texts seen [] = []
unique_texts seen (a ∷ addresses) =
    let rest = unique_texts (a.address ∷ seen) addresses in
    if str_eq a.address "" || contains_text a.address seen then rest else a.address ∷ rest

-- `filterWatchingAddresses`
unfoldable pub filter_watching_addresses : List String → String → Db → List String
filter_watching_addresses addresses currency db =
    unique_texts [] (select (is_watched_on addresses currency) db.addresses)

abbrev is_recipient : String → Group → Bool
is_recipient address g = str_eq g.recipient address

abbrev txs_of : Option Group → List ChainTx
txs_of none = []
txs_of (some g) = g.txs

abbrev pub txs_at : List Group → List String → List ChainTx
txs_at gs [] = []
txs_at gs (a ∷ addresses) = txs_of (find_first (is_recipient a) gs) ++ txs_at gs addresses

-- Each transaction that has not failed, once for its txid. This skips what the set of transactions in
-- the source skips, and more.
abbrev pub process_each :
    Registry → World → ℕ → List String → List String → List ChainTx → Db → Outcome Db
process_each reg w required watching done [] db = ok db
process_each reg w required watching done (tx ∷ txs) db =
    elim (tx.is_failed || contains_text tx.txid done) [
      | true ↦ process_each reg w required watching done txs db
      | false ↦
          process_one_deposit_transaction reg w required tx watching db
          >>= process_each reg w required watching (tx.txid ∷ done) txs
    ]

-- `onCrawlingTxs`, for a crawler of the network of `symbol`. Without transactions or recipients there
-- is nothing to process.
unfoldable pub on_crawling_txs : Registry → World → ℕ → String → List ChainTx → Db → Outcome Db
unfolding group_by_recipients filter_watching_addresses process_one_deposit_transaction
on_crawling_txs reg w required symbol txs db =
    let groups = group_by_recipients txs in
    let watching = filter_watching_addresses (map recipient_of groups) symbol db in
    process_each reg w required watching [] (txs_at groups watching) db
