-- ===== src/Collection.antt =====
-- What a tick of the collector may do to the database.
pub mod Groups
pub mod Ticks
pub mod Outputs
pub mod Endings
pub mod Seeds
use drx_wallet.Base.{
  ℕ, ◌≡◌, Bool, true, false, Option, none, some, List, [], ◌∷◌, map, String, insert_row, Has, not,
}
use drx_wallet.Base.Int.{ℤ, pos}
use drx_wallet.Base.Outcome.{ok}
use drx_wallet.Base.Saves.{update_ids}
use drx_wallet.Schema.{
  Db, World, Registry, Deposit, HotWallet, CollectStatus, CollectedTxid, InternalTransferType,
  WithdrawalStatus, on_platform,
}
use drx_wallet.RawDb.Keys.{deposit_key, transfer_key}
use drx_wallet.RawDb.Collectable.{DepositGroup, sum_deposits}
use drx_wallet.Workers.Collector.{set_later, set_seed_requested}

-- A group that may be collected: uncollected deposits of the platform, of one wallet and one currency, and
-- of one address where outputs are not spent together.
pub record IsGroup (reg : Registry) (platform : String) (db : Db) (g : DepositGroup) : Type 0 where
  pub there : (d : Deposit) → Has d g.records → Has d db.deposits
  pub uncollected : (d : Deposit) → Has d g.records → d.collect_status ≡ CollectStatus.uncollected
  pub on_platform_ : (d : Deposit) → Has d g.records → on_platform reg platform d.currency ≡ true
  pub of_wallet : (d : Deposit) → Has d g.records → d.wallet_id ≡ g.wallet_id
  pub of_currency :
      (d : Deposit) → Has d g.records → reg.get_one_currency d.currency ≡ ok g.currency
  pub of_address :
      g.currency.is_utxo_based ≡ false
      → (d e : Deposit) → Has d g.records
      → Has e g.records
      → d.to_address ≡ e.to_address
  pub amount_sum : g.amount ≡ sum_deposits g.records

abbrev pub touch : World → Deposit → Deposit
touch w d = record d { updated_at = w.now }

-- The deposits of some keys are changed, and no other row of the database.
abbrev pub change_deposits : List ℕ → (Deposit → Deposit) → Db → Db
change_deposits ids f db = record db { deposits = update_ids deposit_key ids f db.deposits }

-- The deposits of the group are marked with the txid, and a sent transfer of the amount to the hot wallet is
-- stored.
abbrev pub collected_in : World → DepositGroup → HotWallet → String → ℤ → Db → Db
collected_in w g rally txid amount db = record db {
  deposits =
      update_ids deposit_key (map deposit_key g.records)
        (λ d. record d {
          updated_at = w.now;
          collected_txid = CollectedTxid.in_tx txid;
          collect_status = CollectStatus.collecting;
        })
        db.deposits;
  internal_transfers =
      insert_row
        (record {
          id = w.new_id (map transfer_key db.internal_transfers);
          wallet_id = g.wallet_id;
          currency = g.currency.symbol;
          type = InternalTransferType.collect;
          from_address = "will remove this field";
          to_address = rally.address;
          txid = txid;
          amount = amount;
          fee = pos 0;
          status = WithdrawalStatus.sent;
          fee_currency = "";
          created_at = w.now;
          updated_at = w.now;
        })
        db.internal_transfers;
}

-- A tick leaves all as it is, touches deposits, puts one off, asks for a seed for one of a token, or sends
-- one transfer of the whole group and marks the group with its txid.
pub data Collection (reg : Registry) (w : World) (platform : String) (db : Db) : Db → Type 0 where
  skipped : {db' : Db} → db' ≡ db → Collection reg w platform db db'
  touched :
      {db' : Db} (ids : List ℕ)
      → db' ≡ change_deposits ids (touch w) db
      → Collection reg w platform db db'
  postponed :
      {db' : Db} (g : DepositGroup) (first : Deposit)
      → IsGroup reg platform db g
      → Has first g.records
      → g.currency.is_native ≡ false
      → db' ≡ change_deposits (first.id ∷ []) (set_later w) db
      → Collection reg w platform db db'
  seed_wanted :
      {db' : Db} (g : DepositGroup) (first : Deposit)
      → IsGroup reg platform db g
      → Has first g.records
      → g.currency.is_native ≡ false
      → db'
        ≡ change_deposits
            (first.id ∷ [])
            (set_seed_requested w)
            (change_deposits (map deposit_key g.records) (touch w) db)
      → Collection reg w platform db db'
  sent :
      {db' : Db} (g : DepositGroup) (rally : HotWallet) (txid : String)
      → IsGroup reg platform db g
      → Has rally db.hot_wallets
      → rally.wallet_id ≡ g.wallet_id
      → rally.is_external ≡ false
      → db' ≡ collected_in w g rally txid (sum_deposits g.records) db
      → Collection reg w platform db db'
