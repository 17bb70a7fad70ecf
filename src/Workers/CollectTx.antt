-- ===== src/Workers/CollectTx.antt =====
-- collectorDoProcess.ts, the transactions that collect deposits and their signatures. What a node, a
-- library or the store of keys answers is the record `Collecting`.
use drx_wallet.Base.{
  ℕ, Bool, true, false, ◌&&◌, not, Option, none, some, List, [], ◌∷◌, ◌++◌, String, ltb, ◌==◌,
  str_eq, if◌then◌else◌, find_first, length, take,
}
use drx_wallet.Base.Int.{ℤ, pos, ◌+ℤ◌, ◌-ℤ◌, eqb_ℤ}
use drx_wallet.Base.Outcome.{Outcome, ok, err, Error, ◌>>=◌, or_throw}
use drx_wallet.Schema.{
  Db, World, Registry, Currency, Deposit, Address, RawVout, RawTransaction, SignedTransaction,
  contains_text,
}
use drx_wallet.RawDb.Deposits.{is_address}
use drx_wallet.RawDb.Collectable.{sum_deposits, is_cardano}

-- An output of a transaction, and an unspent output of an address.
pub record Vout : Type 0 where
  pub is_spent : Bool
  pub mint_index : ℕ

pub record AddressUtxo : Type 0 where
  pub tx_id : String
  pub vout : ℕ
  pub satoshis : ℤ

pub record Collecting : Type 0 where
  pub get_average_seeding_fee : String → Outcome ℤ
  pub get_one_tx_vouts : String → String → String → Outcome (List Vout)
  pub get_one_address_utxos : String → String → Outcome (List AddressUtxo)
  pub construct_consolidate : String → List AddressUtxo → String → Outcome (Option RawTransaction)
  pub construct_account_consolidate :
      String → String → String → ℤ → Bool → Outcome (Option RawTransaction)
  pub get_first_address_in_wallet : String → Outcome String
  pub get_wallet_id : String → ℕ → Outcome String
  pub estimate_fee : String → RawVout → Outcome ℤ
  pub secret_of : Address → Outcome String
  pub sign : String → String → List String → Outcome SignedTransaction

abbrev pub is_utxo_at : String → ℕ → AddressUtxo → Bool
is_utxo_at txid index u = str_eq u.tx_id txid && u.vout == index

abbrev pub push_found : Option AddressUtxo → List AddressUtxo → List AddressUtxo
push_found none utxos = utxos
push_found (some u) utxos = utxos ++ u ∷ []

-- The loop over the outputs of a deposit: the unspent outputs so far, and whether a spent one was met.
abbrev pub scan_vouts :
    String → List AddressUtxo → List Vout → List AddressUtxo × Bool → List AddressUtxo × Bool
scan_vouts txid all [] found = found
scan_vouts txid all (v ∷ vs) (utxos, weird) = scan_vouts txid all vs (
    if v.is_spent
    then (utxos, true)
    else (push_found (find_first (is_utxo_at txid v.mint_index) all) utxos, weird))

-- The loop over the deposits. The answers are taken to arrive in the order of the deposits.
abbrev pub scan_deposits :
    Collecting → String → List Deposit → List AddressUtxo × Bool → Outcome (List AddressUtxo × Bool)
scan_deposits c symbol [] found = ok found
scan_deposits c symbol (d ∷ ds) found = do
  vouts ← c.get_one_tx_vouts symbol d.txid d.to_address
  all ← c.get_one_address_utxos symbol d.to_address
  scan_deposits c symbol ds (scan_vouts d.txid all vouts found)

abbrev pub sum_satoshis : List AddressUtxo → ℤ
sum_satoshis [] = pos 0
sum_satoshis (u ∷ us) = u.satoshis +ℤ sum_satoshis us

-- The two safety checks, and the consolidation.
abbrev pub consolidate :
    Collecting
    → String
    → List Deposit
    → String
    → List AddressUtxo × Bool
    → Outcome (Option RawTransaction)
consolidate c symbol deposits to_address (utxos, weird) =
    if weird
    then err Error.weird_outputs
    else if not (eqb_ℤ (sum_deposits deposits) (sum_satoshis utxos))
    then err Error.mismatched_values
    else c.construct_consolidate symbol utxos to_address

-- `_constructUtxoBasedCollectTx`, and its copy for Bitcoin Cash, with the gateway of the symbol.
unfoldable pub construct_utxo_based_collect_tx :
    Collecting → Currency → List Deposit → String → Outcome (Option RawTransaction)
construct_utxo_based_collect_tx c currency deposits to_address =
    scan_deposits c currency.symbol deposits ([], false)
    >>= consolidate c currency.symbol deposits to_address

-- `_constructUtxoBasedCardanoCollectTx`
unfoldable pub construct_cardano_collect_tx :
    World
    → Collecting
    → Currency
    → Deposit
    → List Deposit
    → String
    → Outcome (Option RawTransaction)
construct_cardano_collect_tx w c currency first deposits to_address =
    if not (is_cardano currency) then err Error.not_cardano else do
      hot_wallet_address ← c.get_first_address_in_wallet to_address
      from_wallet ← c.get_wallet_id first.to_address first.wallet_id
      let total = sum_deposits deposits
      fee ← c.estimate_fee from_wallet (record { to_address = hot_wallet_address; amount = total })
      (w.gateway_of currency.symbol).construct_utxo_transaction from_wallet
          (record { to_address = hot_wallet_address; amount = total -ℤ fee } ∷ [])

-- `_constructAccountBasedCollectTx`: the whole balance where the asset is native.
unfoldable pub construct_account_based_collect_tx :
    Collecting → Currency → Deposit → List Deposit → String → Outcome (Option RawTransaction)
construct_account_based_collect_tx c currency first deposits to_address =
    c.construct_account_consolidate currency.symbol first.to_address to_address
      (sum_deposits deposits) currency.is_native

-- The branch on the kind of the currency.
abbrev pub construct_collect_tx :
    Registry
    → World
    → Collecting
    → Currency
    → List Deposit
    → String
    → Outcome (Option RawTransaction)
construct_collect_tx reg w c currency [] to_address = err Error.null_reference
construct_collect_tx reg w c currency (first ∷ rest) to_address =
    reg.get_one_currency first.currency >>= λ own.
    if not currency.is_utxo_based
    then construct_account_based_collect_tx c own first (first ∷ rest) to_address
    else if is_cardano currency
    then construct_cardano_collect_tx w c own first (first ∷ rest) to_address
    else construct_utxo_based_collect_tx c own (first ∷ rest) to_address

abbrev pub secrets_of : Collecting → List Deposit → Db → Outcome (List String)
secrets_of c [] db = ok []
secrets_of c (d ∷ ds) db = do
  address ← or_throw Error.unknown_address (find_first (is_address d.to_address) db.addresses)
  secret ← c.secret_of address
  rest ← secrets_of c ds db
  ok (secret ∷ rest)

-- `_.uniq`, which keeps the first of equal texts.
abbrev pub uniq_from : List String → List String → List String
uniq_from seen [] = []
uniq_from seen (s ∷ ss) =
    let rest = uniq_from (s ∷ seen) ss in
    let same = uniq_from seen ss in if contains_text s seen then same else s ∷ rest

-- Outputs are signed with all secrets, anything else with the first.
abbrev pub sign_with_secrets :
    Collecting → Currency → RawTransaction → List String → Outcome SignedTransaction
sign_with_secrets c currency raw secrets =
    if currency.is_utxo_based && not (is_cardano currency)
    then c.sign currency.symbol raw.unsigned_raw secrets
    else if ltb 1 (length secrets) && not (is_cardano currency)
    then err Error.too_many_secrets
    else c.sign currency.symbol raw.unsigned_raw (take 1 secrets)

-- `_collectorSignDoProcess`. The gateway of Cardano renames the fields of its secret itself.
unfoldable pub collector_sign :
    Collecting → Currency → List Deposit → RawTransaction → Db → Outcome SignedTransaction
collector_sign c currency deposits raw db = do
  all ← secrets_of c deposits db
  sign_with_secrets c currency raw (uniq_from [] all)
