-- ===== src/Collection/Seeds.antt =====
-- Which deposits a seed is sent for.
use drx_wallet.Base.{
  ◌⊎◌, Has-insert_row, ◌≡◌, ◌≢◌, refl, sym, ap, ◌∙◌, subst, inl, inr, Bool, true, false, Option,
  none, some, List, [], ◌∷◌, map, String, str_eq, eq_iff, &&-eq-true, not-eq-true, Has,
  Has-select_intro, find_first-Has, select, arith,
}
use drx_wallet.Base.Int.{ℤ}
use drx_wallet.Base.Outcome.{ok, >>=-eq-ok, ok-injective}
use drx_wallet.Base.Views.{Has-map}
use drx_wallet.Schema.{
  Db, World, Registry, Currency, Deposit, InternalTransfer, DepositLog, HotWallet, RawTransaction,
  contains_text,
}
use drx_wallet.RawDb.HotWallets.{find_sufficient_hot_wallet}
use drx_wallet.Workers.CollectTx.{Collecting}
use drx_wallet.Workers.Seeder.{
  is_seeding_of, has_log, wants_seed, is_being_seeded, target_of, seeding_deposit_addresses,
  is_thirsty, find_seed_deposit, construct_seed, seed_transfer, store_seed, send_seed, seed_from,
  seed_found, fee_seeder_do_process,
}

-- A tick leaves all as it is, or stores a seed for a deposit that asked for one and whose address none is
-- on its way to.
pub data Seeding (reg : Registry) (w : World) (currency : Currency) (db : Db) : Db → Type 0 where
  skipped : {db' : Db} → db' ≡ db → Seeding reg w currency db db'
  seeded :
      {db' : Db} (d : Deposit) (hot_wallet : HotWallet) (amount : ℤ) (txid : String)
      → Has d db.deposits
      → wants_seed reg currency.platform d ≡ true
      → contains_text d.to_address (seeding_deposit_addresses reg currency.platform db) ≡ false
      → db' ≡ store_seed w currency hot_wallet d amount txid db
      → Seeding reg w currency db db'

module _ (reg : Registry) (w : World) (c : Collecting) (currency : Currency) (db : Db) where
  found-Seeding :
      (o : Option Deposit) {db' : Db}
      → find_seed_deposit reg currency.platform db ≡ o
      → seed_found w c currency o db ≡ ok db'
      → Seeding reg w currency db db'
  unfolding find_seed_deposit
  found-Seeding none found e = skipped (sym (ok-injective _ _ e))
  found-Seeding (some d) {db'} found e =
      let (there, thirsty) =
        find_first-Has
          (is_thirsty reg currency.platform (seeding_deposit_addresses reg currency.platform db)) d
          db.deposits found in
      let (wants, fresh) = &&-eq-true (wants_seed reg currency.platform d) _ thirsty in
      let (amount, ha, k) = >>=-eq-ok (c.get_average_seeding_fee currency.symbol) _ e in
      let (hot_wallet, hh, k1) =
        >>=-eq-ok (find_sufficient_hot_wallet w d.wallet_id currency amount db) _ k in
      from_wallet amount there wants (not-eq-true _ fresh) hot_wallet k1
    where
      from_raw :
          (amount : ℤ) (hot_wallet : HotWallet) (raw : Option RawTransaction)
          → Has d db.deposits
          → wants_seed reg currency.platform d ≡ true
          → contains_text d.to_address (seeding_deposit_addresses reg currency.platform db) ≡ false
          → send_seed w currency hot_wallet d amount raw db ≡ ok db'
          → Seeding reg w currency db db'
      from_raw amount hot_wallet none there wants fresh e' = cc
      from_raw amount hot_wallet (some raw) there wants fresh e' =
          let (signed, hs, k) =
            >>=-eq-ok
              ((w.gateway_of currency.symbol).sign_raw_transaction raw.unsigned_raw
                hot_wallet.secret)
              _ e' in
          let (reply, hr, k1) =
            >>=-eq-ok ((w.gateway_of currency.symbol).send_raw_transaction signed.signed_raw) _ k in
          seeded d hot_wallet amount signed.txid there wants fresh (sym (ok-injective _ _ k1))

      from_wallet :
          (amount : ℤ)
          → Has d db.deposits
          → wants_seed reg currency.platform d ≡ true
          → contains_text d.to_address (seeding_deposit_addresses reg currency.platform db) ≡ false
          → (hot_wallet : Option HotWallet) → seed_from w currency d amount hot_wallet db ≡ ok db'
          → Seeding reg w currency db db'
      from_wallet amount there wants fresh none e' = skipped (sym (ok-injective _ _ e'))
      from_wallet amount there wants fresh (some hot_wallet) e' =
          let (raw, hr, k) =
            >>=-eq-ok (construct_seed (w.gateway_of currency.symbol) currency hot_wallet d amount) _
              e' in
          from_raw amount hot_wallet raw there wants fresh k

  -- A tick of the seeder that does not throw leaves the database as it is, or stores one transfer and one
  -- log for a deposit of the platform that asked for a seed, at an address to which none is on its way.
  pub fee_seeder_do_process-Seeding :
      {db' : Db}
      → fee_seeder_do_process reg w c currency db ≡ ok db'
      → Seeding reg w currency db db'
  unfolding fee_seeder_do_process
  fee_seeder_do_process-Seeding e =
      found-Seeding (find_seed_deposit reg currency.platform db) refl e

has_log-Has :
    (p : DepositLog → Bool) (l : DepositLog) (logs : List DepositLog)
    → Has l logs
    → p l ≡ true
    → has_log p logs ≡ true
has_log-Has p l [] m h = elim m [ ]
has_log-Has p l (k ∷ logs) m h = elim m [
  | inl e ↦ let first : p k ≡ true = subst (λ x. p x ≡ true) e h in rw first refl
  | inr r ↦ ground (arith, has_log-Has p l logs r h)
]

contains_text-Has : (s : String) (ts : List String) → Has s ts → contains_text s ts ≡ true
contains_text-Has s [] m = elim m [ ]
contains_text-Has s (t ∷ ts) m = elim m [
  | inl e ↦ ground (arith, eq_iff s t, e)
  | inr r ↦ ground (arith, contains_text-Has s ts r)
]

-- An address that a seed is on its way to, as long as a deposit of it waits and the log is there.
seeding_address :
    (reg : Registry) (platform : String) (db : Db) (d : Deposit) (l : DepositLog)
    → Has d db.deposits
    → wants_seed reg platform d ≡ true
    → Has l db.deposit_logs
    → is_seeding_of d l ≡ true
    → str_eq d.to_address "" ≡ false
    → contains_text d.to_address (seeding_deposit_addresses reg platform db) ≡ true
unfolding seeding_deposit_addresses
seeding_address reg platform db d l there wants logged its named =
    let seeded_ : is_being_seeded reg platform db.deposit_logs d ≡ true =
      rw (wants, has_log-Has (is_seeding_of d) l db.deposit_logs logged its, named) refl in
    contains_text-Has d.to_address
      (map target_of (select (is_being_seeded reg platform db.deposit_logs) db.deposits))
      (Has-map target_of d (select (is_being_seeded reg platform db.deposit_logs) db.deposits) (
        Has-select_intro (is_being_seeded reg platform db.deposit_logs) d db.deposits there
          seeded_))

-- As long as a deposit with an address asks for a seed and the log of a seed for it is there, a tick of the
-- seeder stores no transfer to its address: each transfer is an old one or goes to another address.
pub fee_seeder_do_process_once :
    (reg : Registry) (w : World) (c : Collecting) (currency : Currency) (db : Db) {db' : Db}
    (d : Deposit) (l : DepositLog)
    → Has d db.deposits
    → wants_seed reg currency.platform d ≡ true
    → Has l db.deposit_logs
    → is_seeding_of d l ≡ true
    → str_eq d.to_address "" ≡ false
    → fee_seeder_do_process reg w c currency db ≡ ok db'
    → (t : InternalTransfer) → Has t db'.internal_transfers
    → Has t db.internal_transfers ⊎ (t.to_address ≢ d.to_address)
unfolding store_seed
fee_seeder_do_process_once reg w c currency db {db'} d l there wants logged its named e t m =
    elim (fee_seeder_do_process-Seeding reg w c currency db e) [
      | skipped same ↦ inl (subst (λ (x : Db). Has t x.internal_transfers) same m)
      | seeded o hot_wallet amount txid found asked free now_ ↦
          elim (Has-insert_row t
            (seed_transfer w currency hot_wallet o amount txid db.internal_transfers)
            db.internal_transfers (subst (λ (x : Db). Has t x.internal_transfers) now_ m)) [
              | inl old ↦ inl old
              | inr new_ ↦ inr (λ same.
                  let taken =
                    seeding_address reg currency.platform db d l there wants logged its named in
                  let address : o.to_address ≡ d.to_address =
                    sym (ap (λ (x : InternalTransfer). x.to_address) new_) ∙ same in
                  let free_ : contains_text d.to_address
                        (seeding_deposit_addresses reg currency.platform db)
                      ≡ false =
                    rw (← address) free in
                  let clash : true ≡ false = sym taken ∙ free_ in cc clash)
            ]
    ]
