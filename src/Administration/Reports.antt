-- ===== src/Administration/Reports.antt =====
-- What is asked of the database for reports. A sum over no value is NULL, here `none`.
use drx_wallet.Base.{
  ℕ, ◌&&◌, ◌||◌, ◌==◌, not, Bool, true, false, Option, none, some, List, [], ◌∷◌, map, String,
  str_eq, if◌then◌else◌, find_first, select, length, ltb,
}
use drx_wallet.Base.Int.{ℤ, pos, ◌+ℤ◌}
use drx_wallet.Base.Outcome.{Outcome, ok, Error, ◌>>=◌, or_throw}
use drx_wallet.Base.Text.{starts_with}
use drx_wallet.Schema.{
  Db, Registry, Currency, Withdrawal, WithdrawalTx, WithdrawalStatus, Deposit, InternalTransfer,
  Address, ColdWallet, Note, has_status, is_seed,
}
use drx_wallet.Chain.{TransferEntry, extract_input_entries, extract_sender_addresses}
use drx_wallet.Administration.Settings.{find_cold_wallet_for}
use drx_wallet.Administration.Accounts.{find_hot_wallet_without_address}

abbrev plus_value : Option ℤ → Option ℤ → Option ℤ
plus_value none total = total
plus_value (some n) none = some n
plus_value (some n) (some total) = some (n +ℤ total)

-- `SUM`, which leaves out NULL.
abbrev pub sum_of : {A : Type 0} → (A → Option ℤ) → List A → Option ℤ
sum_of value [] = none
sum_of value (x ∷ xs) = plus_value (value x) (sum_of value xs)

abbrev is_cold_note : Note → Bool
is_cold_note Note.cold_wallet = true
is_cold_note _ = false

abbrev is_collected_cold : String → Withdrawal → Bool
is_collected_cold currency w =
    str_eq w.currency currency
    && (has_status w.status WithdrawalStatus.completed && is_cold_note w.note)

-- `amountCollectColdWallet`
unfoldable pub amount_collect_cold_wallet : String → Db → Option ℤ
amount_collect_cold_wallet currency db =
    sum_of (λ (w : Withdrawal). some w.amount) (select (is_collected_cold currency) db.withdrawals)

abbrev is_token : String → Bool
is_token currency = starts_with "erc20." currency || starts_with "omni." currency

abbrev is_collection_in : String → InternalTransfer → Bool
is_collection_in currency t = str_eq t.currency currency && not (is_seed t.type)

-- `feeCollectHotWallet`
unfoldable pub fee_collect_hot_wallet : String → Db → Option ℤ
fee_collect_hot_wallet currency db =
    if is_token currency
    then some (pos 0)
    else sum_of (λ (t : InternalTransfer). some t.fee)
        (select (is_collection_in currency) db.internal_transfers)

abbrev is_seed_in : String → InternalTransfer → Bool
is_seed_in currency t = str_eq t.currency currency && is_seed t.type

-- `feeCollectTokenHotWallet`: the fees and the amounts of the seeds.
unfoldable pub fee_collect_token_hot_wallet : String → Db → Option ℤ × Option ℤ
fee_collect_token_hot_wallet currency db =
    let seeds = select (is_seed_in currency) db.internal_transfers in
    (
      sum_of (λ (t : InternalTransfer). some t.fee) seeds,
      sum_of (λ (t : InternalTransfer). some t.amount) seeds,
    )

abbrev is_tx_of : Withdrawal → WithdrawalTx → Bool
is_tx_of w t = t.id == w.withdrawal_tx_id

abbrev fee_of_tx : Option WithdrawalTx → Option ℤ
fee_of_tx none = none
fee_of_tx (some t) = t.fee_amount

-- The fee of the transaction that a withdrawal is joined with.
abbrev joined_fee : Db → Withdrawal → Option ℤ
joined_fee db w = fee_of_tx (find_first (is_tx_of w) db.withdrawal_txs)

abbrev is_cold_in : String → Withdrawal → Bool
is_cold_in currency w = str_eq w.currency currency && is_cold_note w.note

-- `feeCollectColdWallet`
unfoldable pub fee_collect_cold_wallet : String → Db → Option ℤ
fee_collect_cold_wallet currency db =
    if is_token currency
    then some (pos 0)
    else sum_of (joined_fee db) (select (is_cold_in currency) db.withdrawals)

abbrev is_usdt : Currency → Bool
is_usdt c = str_eq c.network_symbol "usdt"

abbrev asset_symbol : Currency → String
asset_symbol c = c.symbol

-- `getUSDTGlobalSymbol`
unfoldable pub get_usdt_global_symbol : List Currency → Outcome String
get_usdt_global_symbol assets =
    or_throw Error.unknown_currency (find_first is_usdt assets) >>= λ c. ok (asset_symbol c)

abbrev is_cold_like : String → Withdrawal → Bool
is_cold_like prefix w = starts_with prefix w.currency && is_cold_note w.note

-- `feeCollectTokenColdWallet`; `assets` are those of Omni.
unfoldable pub fee_collect_token_cold_wallet :
    Registry → List Currency → String → Db → Outcome (Option ℤ)
unfolding get_usdt_global_symbol
fee_collect_token_cold_wallet reg assets currency db = do
  c ← reg.get_one_currency currency
  if not (ltb 1 (length (reg.get_currencies_of_platform c.platform))) then ok (some (pos 0)) else do
    prefix ← if str_eq currency "btc" then get_usdt_global_symbol assets else ok "erc20."
    ok (sum_of (joined_fee db) (select (is_cold_like prefix) db.withdrawals))

abbrev is_receipt_address : String → ℕ → Address → Bool
is_receipt_address currency wallet_id a =
    str_eq a.currency currency && (a.wallet_id == wallet_id && str_eq a.hd_path "1")

-- `findReceiptAddress`
unfoldable pub find_receipt_address : String → ℕ → Db → Option Address
find_receipt_address currency wallet_id db =
    find_first (is_receipt_address currency wallet_id) db.addresses

-- `findRealReceiptAddress`
unfoldable pub find_real_receipt_address : String → String → ℕ → Db → Outcome String
unfolding find_receipt_address
find_real_receipt_address address currency wallet_id db =
    if str_eq currency "ada"
    then (or_throw Error.null_reference (find_receipt_address currency wallet_id db)
        >>= λ (a : Address). ok a.address)
    else ok address

-- `senders.indexOf(address) > 1`
abbrev is_past_two : String → List String → Bool
is_past_two address [] = false
is_past_two address (s ∷ []) = false
is_past_two address (s ∷ (t ∷ rest)) =
    not (str_eq s address || str_eq t address) && is_among address rest
  where
    is_among : String → List String → Bool
    is_among address [] = false
    is_among address (s ∷ ss) = str_eq s address || is_among address ss

-- `total.plus(…)` in a loop: the result is not kept.
abbrev add_inputs : String → List TransferEntry → ℤ → ℤ
add_inputs address [] total = total
add_inputs address (e ∷ es) total = add_inputs address es total

abbrev add_each : String → List (List TransferEntry) → ℤ → ℤ
add_each address [] total = total
add_each address (tx ∷ txs) total =
    add_each address txs (add_inputs address (extract_input_entries tx) total)

abbrev is_sent_from : String → List TransferEntry → Bool
is_sent_from address tx = is_past_two address (extract_sender_addresses tx)

abbrev is_deposit_at : String → String → Deposit → Bool
is_deposit_at address currency d = str_eq d.to_address address && str_eq d.currency currency

abbrev deposit_txid : Deposit → String
deposit_txid d = d.txid

abbrev from_cold :
    (List String → Outcome (List (List TransferEntry)))
    → String
    → String
    → Option ColdWallet
    → Db
    → Outcome ℤ
from_cold get_transactions_by_ids address currency none db = ok (pos 0)
from_cold get_transactions_by_ids address currency (some cold) db =
    if str_eq address "" then ok (pos 0) else do
      txs ←
          get_transactions_by_ids
            (map deposit_txid (select (is_deposit_at address currency) db.deposits))
      ok (add_each cold.address (select (is_sent_from cold.address) txs) (pos 0))

-- `amountTransferColdToHot`; the entries of the transactions come from the gateway.
unfoldable pub amount_transfer_cold_to_hot :
    Registry → (List String → Outcome (List (List TransferEntry))) → String → Db → Outcome ℤ
unfolding find_hot_wallet_without_address find_real_receipt_address find_cold_wallet_for
amount_transfer_cold_to_hot reg get_transactions_by_ids currency db = do
  c ← reg.get_one_currency currency
  hot ← or_throw Error.null_reference (find_hot_wallet_without_address c.platform db)
  address ← find_real_receipt_address hot.address currency hot.wallet_id db
  from_cold get_transactions_by_ids address c.symbol (find_cold_wallet_for c.platform db) db
