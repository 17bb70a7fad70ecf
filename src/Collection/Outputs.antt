-- ===== src/Collection/Outputs.antt =====
-- The unspent outputs that a collecting transaction spends.
use drx_wallet.Base.{
  ℕ, ◌≡◌, refl, sym, ap, ◌∙◌, subst, inl, inr, Bool, true, false, Option, List, [], ◌∷◌, String,
  str_eq, eq_iff, ◌==◌, &&-eq-true, Bool-cases, Option-cases, Has, Has-insert_row, find_first,
  find_first-Has, arith,
}
use drx_wallet.Base.Int.{ℤ, eqb_ℤ, eq_of_parts}
use drx_wallet.Base.Outcome.{ok, >>=-eq-ok, ok-injective}
use drx_wallet.Schema.{Currency, Deposit, RawTransaction}
use drx_wallet.RawDb.Collectable.{sum_deposits}
use drx_wallet.Workers.CollectTx.{
  Vout, AddressUtxo, Collecting, is_utxo_at, push_found, scan_vouts, scan_deposits, sum_satoshis,
  construct_utxo_based_collect_tx,
}

-- Each output is of the transaction of one of the deposits.
abbrev pub AreOf : List Deposit → List AddressUtxo → Type 0
AreOf ds us = (u : AddressUtxo) → Has u us → (d : Deposit) × Has d ds × (u.tx_id ≡ d.txid)

push_found-AreOf :
    (ds : List Deposit) (d : Deposit) (index : ℕ) (all us : List AddressUtxo)
    → Has d ds
    → AreOf ds us
    → AreOf ds (push_found (find_first (is_utxo_at d.txid index) all) us)
push_found-AreOf ds d index all us m h =
    elim (Option-cases (find_first (is_utxo_at d.txid index) all)) [
      | inl missing ↦ rw missing h
      | inr (v, found) ↦ rw found (λ u n. elim (Has-insert_row u v us n) [
        | inl old ↦ h u old
        | inr e ↦
            let (there, at_) = find_first-Has (is_utxo_at d.txid index) v all found in
            (
              d,
              m,
              ap (λ (x : AddressUtxo). x.tx_id) e
                  ∙ (eq_iff v.tx_id d.txid).0
                      (&&-eq-true (str_eq v.tx_id d.txid) (v.vout == index) at_).0,
            )
      ])
    ]

scan_vouts-AreOf :
    (ds : List Deposit) (d : Deposit) (all : List AddressUtxo) (vs : List Vout)
    (us : List AddressUtxo) (weird : Bool)
    → Has d ds
    → AreOf ds us
    → AreOf ds (scan_vouts d.txid all vs (us, weird)).0
scan_vouts-AreOf ds d all [] us weird m h = h
scan_vouts-AreOf ds d all (v ∷ vs) us weird m h = elim (Bool-cases v.is_spent) [
  | inl spent ↦ rw spent (scan_vouts-AreOf ds d all vs us true m h)
  | inr free ↦ rw free (
      scan_vouts-AreOf ds d all vs (push_found (find_first (is_utxo_at d.txid v.mint_index) all) us)
        weird m (push_found-AreOf ds d v.mint_index all us m h))
]

scan_deposits-AreOf :
    (c : Collecting) (symbol : String) (all_deposits ds : List Deposit)
    (found : List AddressUtxo × Bool) {r : List AddressUtxo × Bool}
    → ((d : Deposit) → Has d ds → Has d all_deposits)
    → AreOf all_deposits found.0
    → scan_deposits c symbol ds found ≡ ok r
    → AreOf all_deposits r.0
scan_deposits-AreOf c symbol all_deposits [] found within h e =
    subst (λ (p : List AddressUtxo × Bool). AreOf all_deposits p.0) (ok-injective _ _ e) h
scan_deposits-AreOf c symbol all_deposits (d ∷ ds) (us, weird) within h e =
    let (vouts, asked, k) = >>=-eq-ok (c.get_one_tx_vouts symbol d.txid d.to_address) _ e in
    let (utxos, listed, rest) = >>=-eq-ok (c.get_one_address_utxos symbol d.to_address) _ k in
    scan_deposits-AreOf c symbol all_deposits ds (scan_vouts d.txid utxos vouts (us, weird))
      (λ x m. within x (inr m))
      (scan_vouts-AreOf all_deposits d utxos vouts us weird (within d (inl refl)) h) rest

eqb_ℤ-eq : (a b : ℤ) → eqb_ℤ a b ≡ true → a ≡ b
eqb_ℤ-eq a b h = eq_of_parts a b (ground arith)

-- Where `_constructUtxoBasedCollectTx` does not throw, it spends outputs of the transactions of the
-- deposits only, and these hold just the sum of the amounts of the deposits.
pub construct_utxo_based_collect_tx_lem :
    (c : Collecting) (currency : Currency) (deposits : List Deposit) (to_address : String)
    {raw : Option RawTransaction}
    → construct_utxo_based_collect_tx c currency deposits to_address ≡ ok raw
    → (utxos : List AddressUtxo) × (c.construct_consolidate currency.symbol utxos to_address
        ≡ ok raw)
      × (sum_satoshis utxos ≡ sum_deposits deposits)
      × AreOf deposits utxos
unfolding construct_utxo_based_collect_tx
construct_utxo_based_collect_tx_lem c currency deposits to_address e =
    let ((utxos, weird), scanned, k) =
      >>=-eq-ok (scan_deposits c currency.symbol deposits ([], false)) _ e in
    let of_deposits =
      scan_deposits-AreOf c currency.symbol deposits deposits ([], false) (λ d m. m)
        (λ u m. elim m [ ]) scanned in
    elim (Bool-cases weird) [
      | inl spent ↦ cc (rw spent at k)
      | inr fine ↦ elim (Bool-cases (eqb_ℤ (sum_deposits deposits) (sum_satoshis utxos))) [
        | inl same ↦ (
          utxos,
          rw (fine, same) at k,
          sym (eqb_ℤ-eq (sum_deposits deposits) (sum_satoshis utxos) same),
          of_deposits,
        )
        | inr other ↦ cc (rw (fine, other) at k)
      ]
    ]
