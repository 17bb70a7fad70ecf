-- ===== src/Coins/Bitcore.antt =====
-- What libs/sota-common/src/BitcoinBasedGateway.ts does with a draft: the calls of bitcore-lib in
-- `_constructRawTransaction` and `reconstructRawTx`. The library is a parameter.
use drx_wallet.Base.{Option, none, some, List, String, str_eq, ◌&&◌, if◌then◌else◌}
use drx_wallet.Base.Outcome.{Outcome, ok, err, Error, ◌>>=◌}
use drx_wallet.Schema.{RawTransaction, RawVout}
use drx_wallet.Coins.{Utxo, Draft, construct_raw_consolidate_transaction}
use drx_wallet.Coins.Unspent.{Explorer, construct_from}

-- `build` is the calls of `from`, `to`, `fee` and `change` for a draft, `raw_of` the text of `toObject`, and
-- `revive` the constructor with the object of a text. Each may throw.
pub record Bitcore (Tx : Type 0) : Type 0 where
  pub build : Draft → Outcome Tx
  pub hash_of : Tx → Outcome String
  pub raw_of : Tx → Outcome String
  pub revive : String → Outcome Tx

-- An error of the library is thrown as one of the gateway.
abbrev pub built : {Tx : Type 0} → Outcome Tx → Outcome Tx
built (ok tx) = ok tx
built (err x) = err Error.unbuilt_transaction

module _ {Tx : Type 0} (b : Bitcore Tx) where
  abbrev pub serialize : Tx → Outcome RawTransaction
  serialize tx = do
    txid ← b.hash_of tx
    raw ← b.raw_of tx
    ok (record { txid = txid; unsigned_raw = raw })

  -- `reconstructRawTx`
  abbrev pub reconstruct_raw_tx : String → Outcome RawTransaction
  reconstruct_raw_tx raw_tx = do
    tx ← b.revive raw_tx
    raw ← b.raw_of tx
    txid ← b.hash_of tx
    ok (record { txid = txid; unsigned_raw = raw })

  -- The transaction, if it is read back as it was written.
  abbrev pub if_same : RawTransaction → Outcome RawTransaction → Option RawTransaction
  if_same raw (err x) = none
  if_same raw (ok revived) =
      if str_eq raw.txid revived.txid && str_eq raw.unsigned_raw revived.unsigned_raw
      then some raw
      else none

  abbrev pub if_revived : Outcome RawTransaction → Option RawTransaction
  if_revived (err x) = none
  if_revived (ok raw) = if_same raw (reconstruct_raw_tx raw.unsigned_raw)

  -- The end of `_constructRawTransaction`, where `none` is the result null.
  unfoldable pub finish_draft : Draft → Outcome (Option RawTransaction)
  finish_draft d = do tx ← built (b.build d); ok (if_revived (serialize tx))

  -- `constructRawTransaction`, from the question to the explorer to the raw transaction.
  unfoldable pub construct_transaction :
      Explorer → List String → List RawVout → Outcome (Option RawTransaction)
  unfolding construct_from finish_draft
  construct_transaction explorer from_addresses vouts = do
    d ← construct_from explorer from_addresses vouts
    finish_draft d

  -- `constructRawConsolidateTransaction`, to the raw transaction.
  unfoldable pub construct_consolidation : List Utxo → String → Outcome (Option RawTransaction)
  unfolding construct_raw_consolidate_transaction finish_draft
  construct_consolidation picked to_address = do
    d ← construct_raw_consolidate_transaction picked to_address
    finish_draft d
