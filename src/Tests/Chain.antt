-- ===== src/Tests/Chain.antt =====
-- Transfer entries, blocks and unspent outputs.
use drx_wallet.Coins.Unspent.{InsightUtxo, Explorer, construct_from, get_multi_addresses_utxos}
use drx_wallet.Coins.Bitcore.{Bitcore, construct_transaction, construct_consolidation}
use drx_wallet.Coins.Construction.{IsShort, construct_transaction_fails}
use drx_wallet.Coins.Spending.{IsUnspentOf, construct_from-IsUnspentOf}
use drx_wallet.Base.{
  Bool, true, Has, ◌⊎◌, str_eq, if◌then◌else◌, String, ℕ, ◌≡◌, refl, inl, inr, Option, none, some,
  List, [], ◌∷◌, arith,
}
use drx_wallet.Base.Int.{pos, negsuc, ◌+ℤ◌, ◌-ℤ◌}
use drx_wallet.Base.Outcome.{ok, err, Error}
use drx_wallet.Schema.{RawVout}
use drx_wallet.Chain.{TransferEntry, BoiledVout, get_network_fee}
use drx_wallet.Chain.NetworkFee.{sum_values, sum_unaddressed, get_network_fee_lem}
use drx_wallet.Crawler.{
  CrawlPlan, do_process, Run, begin, crawl, IsConfirmed, latest_processed_block,
}
use drx_wallet.Crawler.Coverage.{no_block_skipped}
use drx_wallet.Coins.{Utxo, Draft, construct_raw_transaction}
use drx_wallet.Coins.Selection.{IsSelection, construct_raw_transaction-IsSelection}

-- An address that pays and gets the change.
abbrev entries : List (Option TransferEntry)
entries =
    some (record { address = "a"; amount = negsuc 9 })
    ∷ none
    ∷ some (record { address = "b"; amount = pos 6 })
    ∷ some (record { address = "a"; amount = pos 3 })
    ∷ []

abbrev change_entry : TransferEntry
change_entry = record { address = "a"; amount = negsuc 6 }

abbrev inputs : List BoiledVout
inputs = record { address = "a"; value = pos 10 } ∷ []

abbrev outputs : List BoiledVout
outputs = record { address = "b"; value = pos 6 } ∷ record { address = "a"; value = pos 3 } ∷ []

abbrev burning : List BoiledVout
burning = record { address = "b"; value = pos 3 } ∷ record { address = ""; value = pos 6 } ∷ []

get_network_fee_lem_example :
    get_network_fee inputs burning
    ≡ sum_values inputs -ℤ sum_values burning +ℤ (sum_unaddressed burning -ℤ sum_unaddressed inputs)
get_network_fee_lem_example = get_network_fee_lem inputs burning

-- The output without an address is taken for a part of the fee.
burnt : get_network_fee inputs burning ≡ pos 7
unfolding get_network_fee ◌+ℤ◌ ◌-ℤ◌
burnt = refl

-- Three confirmations, from block 10 with block 20 the newest.
abbrev crawl_plan : CrawlPlan
crawl_plan = record { from_block = pos 11; to_block = pos 14; safe_block = pos 14 }

planned : do_process 3 (pos 10) (pos 20) ≡ some crawl_plan
unfolding do_process ◌+ℤ◌ ◌-ℤ◌
planned = refl

one_tick : Run 3 (pos 10) (record { network = pos 20; plan = crawl_plan } ∷ []) (pos 14)
unfolding do_process ◌+ℤ◌ latest_processed_block ◌-ℤ◌
one_tick = crawl begin none none (pos 20) crawl_plan refl refl

no_block_skipped_example :
    IsConfirmed 3 (pos 12) (record { network = pos 20; plan = crawl_plan } ∷ [])
unfolding ◌+ℤ◌
no_block_skipped_example = no_block_skipped 3 (pos 10) one_tick (pos 12) (omega arith) (omega arith)

-- Two unspent outputs for a payment of 1000.
abbrev output : String → ℕ → Utxo
output address satoshis = record {
  address = address;
  tx_id = "tx";
  output_index = 0;
  script_pub_key = "";
  satoshis = satoshis;
}

abbrev unspent : List Utxo
unspent = output "a" 2000 ∷ output "b" 9000 ∷ output "c" 9000 ∷ []

abbrev payment : List RawVout
payment = record { to_address = "to"; amount = pos 1000 } ∷ []

abbrev draft : Draft
draft = record {
  utxos = output "a" 2000 ∷ output "b" 9000 ∷ [];
  vouts = payment;
  fee = pos 6090;
  change_address = some "a";
}

constructed : construct_raw_transaction unspent payment ≡ ok draft
unfolding construct_raw_transaction ◌+ℤ◌
constructed = refl

construct_raw_transaction-IsSelection_example : (n : ℕ) × IsSelection unspent payment n draft
construct_raw_transaction-IsSelection_example =
    construct_raw_transaction-IsSelection unspent payment draft constructed

abbrev too_dear : List RawVout
too_dear = record { to_address = "to"; amount = pos 20000 } ∷ []

refused : construct_raw_transaction unspent too_dear ≡ err Error.insufficient_balance
unfolding construct_raw_transaction ◌+ℤ◌
refused = refl

-- The two outputs as the explorer has them, and one that is spent.
abbrev listed : String → ℕ → ℕ → String → InsightUtxo
listed address value confirmations spent_txid = record {
  address = address;
  mint_txid = "tx";
  mint_index = 0;
  spent_txid = spent_txid;
  script = "";
  value = value;
  confirmations = confirmations;
}

abbrev explorer : Explorer
explorer address =
    ok (listed address 9000 1 "" ∷ listed address 5000 9 "spent" ∷ listed address 2000 6 "" ∷ [])

abbrev own_draft : Draft
own_draft = record draft { utxos = output "a" 2000 ∷ output "a" 9000 ∷ [] }

drafted : construct_from explorer ("a" ∷ "b" ∷ []) payment ≡ ok own_draft
unfolding construct_from ◌+ℤ◌
drafted = refl

construct_from-IsUnspentOf_example : IsUnspentOf explorer ("a" ∷ "b" ∷ []) (output "a" 9000)
construct_from-IsUnspentOf_example =
    construct_from-IsUnspentOf explorer ("a" ∷ "b" ∷ []) payment own_draft drafted (output "a" 9000)
      (inr (inl refl))

-- A library that builds a draft with an output to an address that it knows, and writes and reads just that.
abbrev known_receiver : List RawVout → Bool
known_receiver [] = true
known_receiver (v ∷ vs) = str_eq v.to_address "to"

abbrev bitcore : Bitcore String
bitcore = record {
  build = λ d. if known_receiver d.vouts then ok "tx" else err Error.unknown_address;
  hash_of = λ tx. ok "txid";
  raw_of = λ tx. ok tx;
  revive = λ raw. ok raw;
}

raw_constructed :
    construct_transaction bitcore explorer ("a" ∷ "b" ∷ []) payment
    ≡ ok (some (record { txid = "txid"; unsigned_raw = "tx" }))
unfolding construct_transaction ◌+ℤ◌
raw_constructed = refl

raw_changed :
    construct_transaction
      (record bitcore { revive = λ raw. ok "other" })
      explorer
      ("a" ∷ "b" ∷ [])
      payment
    ≡ ok none
unfolding construct_transaction ◌+ℤ◌
raw_changed = refl

raw_consolidated :
    construct_consolidation bitcore unspent "to"
    ≡ ok (some (record { txid = "txid"; unsigned_raw = "tx" }))
unfolding construct_consolidation ◌+ℤ◌ ◌-ℤ◌
raw_consolidated = refl

abbrev misdirected : List RawVout
misdirected = record { to_address = "nowhere"; amount = pos 1000 } ∷ []

misdirected_fails :
    construct_transaction bitcore explorer ("a" ∷ "b" ∷ []) misdirected
    ≡ err Error.unbuilt_transaction
unfolding construct_transaction ◌+ℤ◌
misdirected_fails = refl

construct_transaction_fails_example :
    ((a : String) × Has a ("a" ∷ "b" ∷ []) × (explorer a ≡ err Error.unbuilt_transaction))
    ⊎ ((all_utxos : List Utxo) × (get_multi_addresses_utxos explorer ("a" ∷ "b" ∷ [])
          ≡ ok all_utxos)
        × (IsShort all_utxos misdirected
            ⊎ ((n : ℕ) × (d : Draft) × IsSelection all_utxos misdirected n d
                × ((y : Error) × (bitcore.build d ≡ err y)))))
construct_transaction_fails_example =
    construct_transaction_fails bitcore explorer ("a" ∷ "b" ∷ []) misdirected
      Error.unbuilt_transaction misdirected_fails
