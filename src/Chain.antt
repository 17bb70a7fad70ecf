-- ===== src/Chain.antt =====
-- Transactions read from a network: libs/sota-common/src/types/TransferEntry.ts, Transaction.ts,
-- UTXOBasedTransaction.ts and AccountBasedTransaction.ts. Amounts are in the smallest unit.
pub mod Amounts
pub mod Merging
pub mod NetworkFee
use drx_wallet.Base.{
  ℕ, Bool, true, false, ◌||◌, not, Option, none, some, List, [], ◌∷◌, ◌++◌, map, String, str_eq,
  if◌then◌else◌, select, find_first, insert_row,
}
use drx_wallet.Base.Int.{ℤ, pos, ◌+ℤ◌, neg_ℤ, ltb_ℤ, eqb_ℤ}

-- The currency, the txid and the transaction of an entry are those of the transaction that gives it.
pub record TransferEntry : Type 0 where
  pub address : String
  pub amount : ℤ

abbrev pub is_at : String → TransferEntry → Bool
is_at address e = str_eq e.address address

-- `_.compact`
abbrev pub compact : {A : Type 0} → List (Option A) → List A
compact [] = []
compact (none ∷ xs) = compact xs
compact (some x ∷ xs) = x ∷ compact xs

-- `result.splice(result.findIndex(…), 1)`
unfoldable pub remove_first : String → List TransferEntry → List TransferEntry
remove_first address [] = []
remove_first address (e ∷ es) =
    let rest = remove_first address es in if is_at address e then es else e ∷ rest

-- The merged entry goes to the end.
abbrev pub put_entry :
    List TransferEntry → TransferEntry → Option TransferEntry → List TransferEntry
put_entry result entry none = insert_row entry result
put_entry result entry (some item) =
    insert_row (record entry { amount = entry.amount +ℤ item.amount })
      (remove_first entry.address result)

-- One round of the loop of `mergeEntries`.
unfoldable pub merge_entry : List TransferEntry → TransferEntry → List TransferEntry
unfolding remove_first
merge_entry result entry = put_entry result entry (find_first (is_at entry.address) result)

unfoldable pub merge_into : List TransferEntry → List TransferEntry → List TransferEntry
unfolding merge_entry
merge_into result [] = result
merge_into result (e ∷ es) = merge_into (merge_entry result e) es

-- `TransferEntry.mergeEntries`
unfoldable pub merge_entries : List (Option TransferEntry) → List TransferEntry
unfolding merge_into
merge_entries entries = merge_into [] (compact entries)

-- `IBoiledVIn` and `IBoiledVOut`
pub record BoiledVout : Type 0 where
  pub address : String
  pub value : ℤ

abbrev pub is_unparsed : String → Bool
is_unparsed address = str_eq address "" || str_eq address "false"

abbrev pub convert_vin_to_transfer_entry : BoiledVout → Option TransferEntry
convert_vin_to_transfer_entry v =
    if is_unparsed v.address
    then none
    else some (record { address = v.address; amount = neg_ℤ v.value })

abbrev pub convert_vout_to_transfer_entry : BoiledVout → Option TransferEntry
convert_vout_to_transfer_entry v =
    if is_unparsed v.address then none else some (record { address = v.address; amount = v.value })

-- `UTXOBasedTransaction._extractEntries`: the entries that are null are not pushed.
unfoldable pub extract_utxo_entries : List BoiledVout → List BoiledVout → List TransferEntry
unfolding merge_entries
extract_utxo_entries inputs outputs =
    merge_entries
      (map convert_vin_to_transfer_entry inputs ++ map convert_vout_to_transfer_entry outputs)

-- `AccountBasedTransaction._extractEntries`
unfoldable pub extract_account_entries : String → String → ℤ → List TransferEntry
extract_account_entries from_address to_address amount =
    if eqb_ℤ amount (pos 0)
    then []
    else record { address = from_address; amount = neg_ℤ amount }
      ∷ record { address = to_address; amount = amount }
      ∷ []

abbrev pub is_negative : TransferEntry → Bool
is_negative e = ltb_ℤ e.amount (pos 0)

abbrev pub is_output : TransferEntry → Bool
is_output e = not (is_negative e)

-- `extractOutputEntries` and `extractInputEntries`, of the entries of a transaction.
unfoldable pub extract_output_entries : List TransferEntry → List TransferEntry
extract_output_entries entries = select is_output entries

unfoldable pub extract_input_entries : List TransferEntry → List TransferEntry
extract_input_entries entries = select is_negative entries

abbrev entry_address : TransferEntry → String
entry_address e = e.address

unfoldable pub extract_recipient_addresses : List TransferEntry → List String
unfolding extract_output_entries
extract_recipient_addresses entries = map entry_address (extract_output_entries entries)

unfoldable pub extract_sender_addresses : List TransferEntry → List String
unfolding extract_input_entries
extract_sender_addresses entries = map entry_address (extract_input_entries entries)

abbrev pub sum_entries : List TransferEntry → ℤ
sum_entries [] = pos 0
sum_entries (e ∷ es) = e.amount +ℤ sum_entries es

-- `UTXOBasedTransaction.getNetworkFee`
unfoldable pub get_network_fee : List BoiledVout → List BoiledVout → ℤ
unfolding extract_utxo_entries
get_network_fee inputs outputs = neg_ℤ (sum_entries (extract_utxo_entries inputs outputs))

-- The addresses of the entries that the filter takes, added up.
abbrev pub amount_where : (String → Bool) → List TransferEntry → ℤ
amount_where p [] = pos 0
amount_where p (e ∷ es) =
    let rest = amount_where p es in if p e.address then e.amount +ℤ rest else rest
