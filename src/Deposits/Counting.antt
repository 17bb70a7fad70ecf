-- ===== src/Deposits/Counting.antt =====
-- One deposit for an output of a transaction.
use drx_wallet.Base.{
  ◌≡◌, ◌≤◌, refl, sym, ◌∙◌, subst, inl, inr, List, [], ◌∷◌, str_eq, eq_iff, Bool-cases, &&-eq-true,
  count_where, count_where-append, arith,
}
use drx_wallet.Base.Outcome.{ok, >>=-eq-ok, ok-injective}
use drx_wallet.Schema.{Db, World, Registry, Deposit}
use drx_wallet.RawDb.Deposits.{Output, is_deposit_of, new_deposit, insert_deposit, insert_deposits}
use drx_wallet.Deposits.Inserting.{insert_deposit_lem}

-- No currency, txid and address have two deposits.
unfoldable pub IsSingle : List Deposit → Type 0
IsSingle rows = (o : Output) → count_where (is_deposit_of o) rows ≤ 1

same_key :
    (o other : Output)
    → o.currency ≡ other.currency
    → o.txid ≡ other.txid
    → o.address ≡ other.address
    → (rows : List Deposit)
    → count_where (is_deposit_of o) rows ≡ count_where (is_deposit_of other) rows
same_key o other c t a rows = rw (c, t, a) refl

module _ (reg : Registry) (w : World) where
  insert_deposit-IsSingle :
      (o : Output) (db : Db) {db' : Db}
      → insert_deposit reg w o db ≡ ok db'
      → IsSingle db.deposits
      → IsSingle db'.deposits
  unfolding IsSingle new_deposit
  insert_deposit-IsSingle o db {db'} e single other =
      let did = insert_deposit_lem reg w o db e in
      elim did.rows [
        | inl (same, why) ↦ rw same (single other)
        | inr (more, none_yet) ↦
            let d = new_deposit w o did.address did.wallet db in
            let total = count_where-append (is_deposit_of other) db.deposits (d ∷ []) in
            let before = single other in
            rw more (elim (Bool-cases (is_deposit_of other d)) [
              | inl t ↦
                  let (c, rest) = &&-eq-true (str_eq o.currency other.currency) _ t in
                  let (x, a) = &&-eq-true (str_eq o.txid other.txid) _ rest in
                  let zero_rows =
                    sym (
                      same_key o other ((eq_iff o.currency other.currency).0 c)
                        ((eq_iff o.txid other.txid).0 x) ((eq_iff o.address other.address).0 a)
                        db.deposits)
                    ∙ none_yet in
                  omega (arith, rw t at total, zero_rows)
              | inr n ↦ omega (arith, rw n at total, before)
            ])
      ]

  -- Where no currency, txid and address have two deposits, recording the outputs of a transaction,
  -- also of one that names an address twice, keeps it so.
  pub insert_deposits-IsSingle :
      (os : List Output) (db : Db) {db' : Db}
      → insert_deposits reg w os db ≡ ok db'
      → IsSingle db.deposits
      → IsSingle db'.deposits
  insert_deposits-IsSingle [] db e single =
      subst (λ (x : Db). IsSingle x.deposits) (ok-injective _ _ e) single
  insert_deposits-IsSingle (o ∷ os) db e single =
      let (db1, first, rest) = >>=-eq-ok (insert_deposit reg w o db) _ e in
      insert_deposits-IsSingle os db1 rest (insert_deposit-IsSingle o db first single)
