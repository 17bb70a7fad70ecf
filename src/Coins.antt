-- ===== src/Coins.antt =====
-- How libs/sota-common/src/BitcoinBasedGateway.ts chooses the unspent outputs of a transaction:
-- `constructRawTransaction`, `constructRawConsolidateTransaction` and the checks of
-- `_constructRawTransaction`, up to the draft that bitcore-lib gets. Bitcore goes on from there.
pub mod Picking
pub mod Selection
pub mod Unspent
pub mod Spending
pub mod Bitcore
pub mod Construction
use drx_wallet.Base.{
  ℕ, ◌+◌, ◌*◌, ◌≡◌, Bool, Option, none, some, List, [], ◌∷◌, ◌++◌, String, if◌then◌else◌, length,
  insert_row,
}
use drx_wallet.Base.Int.{ℤ, pos, ◌+ℤ◌, ◌-ℤ◌, ltb_ℤ}
use drx_wallet.Base.Outcome.{Outcome, ok, err, Error, ◌>>=◌}
use drx_wallet.Schema.{RawVout}

-- `IBitcoreUtxoInput`; its `vout` repeats `outputIndex`.
pub record Utxo : Type 0 where
  pub address : String
  pub tx_id : String
  pub output_index : ℕ
  pub script_pub_key : String
  pub satoshis : ℕ

-- What is given to bitcore-lib: `change_address` is set where the inputs hold more than the outputs and
-- the fee.
pub record Draft : Type 0 where
  pub utxos : List Utxo
  pub vouts : List RawVout
  pub fee : ℤ
  pub change_address : Option String

abbrev pub get_fee_in_satoshis_per_byte : ℕ
get_fee_in_satoshis_per_byte = 15

abbrev pub sum_utxos : List Utxo → ℤ
sum_utxos [] = pos 0
sum_utxos (u ∷ us) = pos u.satoshis +ℤ sum_utxos us

abbrev pub sum_vouts : List RawVout → ℤ
sum_vouts [] = pos 0
sum_vouts (v ∷ vs) = v.amount +ℤ sum_vouts vs

abbrev first_address : List Utxo → Option String
first_address [] = none
first_address (u ∷ us) = some u.address

-- `_constructRawTransaction`, up to the calls of bitcore-lib.
unfoldable pub construct_draft : List Utxo → List RawVout → ℤ → Outcome Draft
construct_draft utxos vouts fee =
    if ltb_ℤ (sum_utxos utxos) (sum_vouts vouts +ℤ fee)
    then err Error.insufficient_balance
    else ok (record {
      utxos = utxos;
      vouts = vouts;
      fee = fee;
      change_address =
          if ltb_ℤ (sum_vouts vouts +ℤ fee) (sum_utxos utxos) then first_address utxos else none;
    })

pub record Picked : Type 0 where
  pub utxos : List Utxo
  pub fee : ℤ

abbrev pub fee_of : ℕ → ℤ
fee_of size = pos (size * get_fee_in_satoshis_per_byte)

-- The loop: the outputs picked so far, their sum, the size of the transaction with them, and the
-- outputs that are left.
abbrev pub pick_utxos : ℤ → List Utxo → ℤ → ℕ → List Utxo → Outcome Picked
pick_utxos total_output picked total_input size [] = err Error.insufficient_balance
pick_utxos total_output picked total_input size (u ∷ us) =
    let rest =
      pick_utxos total_output (insert_row u picked) (total_input +ℤ pos u.satoshis) (size + 181)
        us in
    if ltb_ℤ (total_output +ℤ fee_of (size + 181)) (total_input +ℤ pos u.satoshis)
    then ok (record { utxos = insert_row u picked; fee = fee_of (size + 181) })
    else rest

-- `constructRawTransaction`, for the unspent outputs of the sender's addresses, up to the draft.
unfoldable pub construct_raw_transaction : List Utxo → List RawVout → Outcome Draft
unfolding construct_draft
construct_raw_transaction all_utxos vouts = do
  picked ← pick_utxos (sum_vouts vouts) [] (pos 0) (length vouts * 34 + 10) all_utxos
  construct_draft picked.utxos vouts picked.fee

-- `constructRawConsolidateTransaction`, up to the draft: all that is picked goes to one address, less the fee.
unfoldable pub construct_raw_consolidate_transaction : List Utxo → String → Outcome Draft
unfolding construct_draft
construct_raw_consolidate_transaction picked to_address =
    let fee = fee_of (length picked * 181 + 34 + 10) in
    construct_draft picked
      (record { to_address = to_address; amount = sum_utxos picked -ℤ fee } ∷ []) fee
