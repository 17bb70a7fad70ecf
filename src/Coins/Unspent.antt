-- ===== src/Coins/Unspent.antt =====
-- Which outputs libs/sota-common/src/BitcoinBasedGateway.ts takes for unspent, and the outputs of a
-- transaction (BitcoinCashBasedGateway.ts repeats both). What the explorer answers is a parameter.
use drx_wallet.Base.{ℕ, Bool, List, [], ◌∷◌, ◌++◌, map, String, str_eq, ltb, select, if◌then◌else◌}
use drx_wallet.Base.Outcome.{Outcome, ok, ◌>>=◌}
use drx_wallet.Schema.{RawVout}
use drx_wallet.Coins.{Utxo, Draft, construct_raw_transaction}

-- `IInsightUtxoInfo`
pub record InsightUtxo : Type 0 where
  pub address : String
  pub mint_txid : String
  pub mint_index : ℕ
  pub spent_txid : String
  pub script : String
  pub value : ℕ
  pub confirmations : ℕ

abbrev pub is_unspent : InsightUtxo → Bool
is_unspent u = str_eq u.spent_txid ""

-- `sort((a, b) => b.confirmations - a.confirmations)`, which keeps the order of equals.
unfoldable pub insert_confirmed : InsightUtxo → List InsightUtxo → List InsightUtxo
insert_confirmed u [] = u ∷ []
insert_confirmed u (x ∷ xs) =
    if ltb u.confirmations x.confirmations then x ∷ insert_confirmed u xs else u ∷ x ∷ xs

unfoldable pub sort_confirmed : List InsightUtxo → List InsightUtxo
unfolding insert_confirmed
sort_confirmed [] = []
sort_confirmed (u ∷ us) = insert_confirmed u (sort_confirmed us)

-- `convertInsightUtxoToBitcoreUtxo`, for one output.
abbrev pub convert_utxo : InsightUtxo → Utxo
convert_utxo u = record {
  address = u.address;
  tx_id = u.mint_txid;
  output_index = u.mint_index;
  script_pub_key = u.script;
  satoshis = u.value;
}

-- What the explorer answers for an address.
abbrev pub Explorer : Type 0
Explorer = String → Outcome (List InsightUtxo)

-- `getOneAddressUtxos`
unfoldable pub get_one_address_utxos : Explorer → String → Outcome (List Utxo)
unfolding sort_confirmed
get_one_address_utxos explorer address = do
  utxos ← explorer address
  ok (map convert_utxo (sort_confirmed (select is_unspent utxos)))

-- `getMultiAddressesUtxos`
unfoldable pub get_multi_addresses_utxos : Explorer → List String → Outcome (List Utxo)
unfolding get_one_address_utxos
get_multi_addresses_utxos explorer [] = ok []
get_multi_addresses_utxos explorer (address ∷ addresses) = do
  utxos ← get_one_address_utxos explorer address
  rest ← get_multi_addresses_utxos explorer addresses
  ok (utxos ++ rest)

-- `constructRawTransaction` with the outputs of the senders.
unfoldable pub construct_from : Explorer → List String → List RawVout → Outcome Draft
unfolding get_multi_addresses_utxos construct_raw_transaction
construct_from explorer from_addresses vouts = do
  all_utxos ← get_multi_addresses_utxos explorer from_addresses
  construct_raw_transaction all_utxos vouts
