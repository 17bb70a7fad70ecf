-- ===== src/Deposits/Known.antt =====
-- A deposit that is recorded stays so, and recording it again changes nothing.
use drx_wallet.Base.{
  ◌≡◌, refl, subst, inl, inr, ◌⊎◌, true, some, List, [], ◌∷◌, Bool-cases, count_where,
  count_where-append, find_first, Has, ltb, arith, eq_iff, ◌<◌,
}
use drx_wallet.Base.Int.{pos, leb_ℤ}
use drx_wallet.Base.Outcome.{ok, >>=-eq-ok, ok-injective}
use drx_wallet.Schema.{Db, World, Registry, Address, Wallet}
use drx_wallet.RawDb.Deposits.{
  Output, is_address, has_wallet_id, is_deposit_of, new_deposit, insert_for, insert_deposit,
  insert_deposits,
}
use drx_wallet.Deposits.Inserting.{insert_deposit_lem}

-- The address and the wallet of an output are found, and it is recorded or of no value: then
-- `insertDeposit` has nothing to do.
pub record IsKnown (o : Output) (db : Db) : Type 0 where
  pub address : Address
  pub wallet : Wallet
  pub found_address : find_first (is_address o.address) db.addresses ≡ some address
  pub found_wallet : find_first (has_wallet_id address.wallet_id) db.wallets ≡ some wallet
  pub nothing_new :
      (0 < count_where (is_deposit_of o) db.deposits) ⊎ (leb_ℤ o.amount (pos 0) ≡ true)

module _ (reg : Registry) where
  pub known_unchanged :
      (w : World) (o : Output) (db : Db) → IsKnown o db → insert_deposit reg w o db ≡ ok db
  unfolding insert_deposit insert_for
  known_unchanged w o db known =
      rw (known.found_address, known.found_wallet)
        (elim (Bool-cases (ltb 0 (count_where (is_deposit_of o) db.deposits))) [
          | inl t ↦ rw t refl
          | inr n ↦ elim known.nothing_new [
            | inl some_row ↦ absurd (ground arith)
            | inr worthless ↦ rw (n, worthless) refl
          ]
        ])

  is_deposit_of_new :
      (w : World) (o : Output) (address : Address) (wallet : Wallet) (db : Db)
      → is_deposit_of o (new_deposit w o address wallet db) ≡ true
  unfolding new_deposit
  is_deposit_of_new w o address wallet db = rw (
    (eq_iff o.currency o.currency).1 refl,
    (eq_iff o.txid o.txid).1 refl,
    (eq_iff o.address o.address).1 refl,
  )

  -- Where `insertDeposit` does not throw, the output is known afterwards, and any other output that was
  -- known stays known.
  pub becomes-IsKnown :
      (w : World) (o : Output) (db : Db) {db' : Db}
      → insert_deposit reg w o db ≡ ok db'
      → IsKnown o db'
  becomes-IsKnown w o db {db'} e =
      let did = insert_deposit_lem reg w o db e in
      record {
        address = did.address;
        wallet = did.wallet;
        found_address = rw did.same_addresses did.found_address;
        found_wallet = rw did.same_wallets did.found_wallet;
        nothing_new = elim did.rows [
          | inl (same, why) ↦ rw same why
          | inr (more, none_yet) ↦
              let total =
                count_where-append (is_deposit_of o) db.deposits
                  (new_deposit w o did.address did.wallet db ∷ []) in
              let new = is_deposit_of_new w o did.address did.wallet db in
              inl (rw more (ground (arith, total, new)))
        ];
      }

  pub stays-IsKnown :
      (w : World) (o other : Output) (db : Db) {db' : Db}
      → insert_deposit reg w o db ≡ ok db'
      → IsKnown other db
      → IsKnown other db'
  stays-IsKnown w o other db {db'} e known =
      let did = insert_deposit_lem reg w o db e in
      record {
        address = known.address;
        wallet = known.wallet;
        found_address = rw did.same_addresses known.found_address;
        found_wallet = rw did.same_wallets known.found_wallet;
        nothing_new = elim known.nothing_new [
          | inr worthless ↦ inr worthless
          | inl some_row ↦ elim did.rows [
            | inl (same, why) ↦ inl (rw same some_row)
            | inr (more, none_yet) ↦
                let total =
                  count_where-append (is_deposit_of other) db.deposits
                    (new_deposit w o did.address did.wallet db ∷ []) in
                inl (rw more (ground (arith, total, some_row)))
          ]
        ];
      }

  pub all-IsKnown :
      (w : World) (os : List Output) (other : Output) (db : Db) {db' : Db}
      → insert_deposits reg w os db ≡ ok db'
      → IsKnown other db ⊎ Has other os
      → IsKnown other db'
  all-IsKnown w [] other db e why = elim why [
    | inl known ↦ subst (IsKnown other) (ok-injective _ _ e) known
    | inr m ↦ elim m [ ]
  ]
  all-IsKnown w (o ∷ os) other db e why =
      let (db1, first, rest) = >>=-eq-ok (insert_deposit reg w o db) _ e in
      all-IsKnown w os other db1 rest (elim why [
        | inl known ↦ inl (stays-IsKnown w o other db first known)
        | inr m ↦ elim m [ inl same ↦ inl (rw same (becomes-IsKnown w o db first)) | inr k ↦ inr k ]
      ])

  pub none_new :
      (w : World) (os : List Output) (db : Db)
      → ((o : Output) → Has o os → IsKnown o db)
      → insert_deposits reg w os db ≡ ok db
  none_new w [] db known = refl
  none_new w (o ∷ os) db known =
      rw (known_unchanged w o db (known o (inl refl))) (none_new w os db (λ x m. known x (inr m)))

  -- Recording the outputs of a transaction again, at any later time, changes nothing: a block that is
  -- crawled twice gives its deposits once.
  pub insert_deposits_twice :
      (w later : World) (os : List Output) (db : Db) {db' : Db}
      → insert_deposits reg w os db ≡ ok db'
      → insert_deposits reg later os db' ≡ ok db'
  insert_deposits_twice w later os db {db'} e =
      none_new later os db' (λ o m. all-IsKnown w os o db e (inr m))
