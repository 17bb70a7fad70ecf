-- ===== src/Coins/Spending.antt =====
-- A transaction spends unspent outputs of its senders.
use drx_wallet.Base.{
  ◌≡◌, refl, sym, subst, inl, inr, List, [], ◌∷◌, String, eq_iff, ltb, select, Bool-cases, Has,
  Has-append, Has-select, Has-take,
}
use drx_wallet.Base.Outcome.{ok, >>=-eq-ok, ok-injective}
use drx_wallet.Base.Views.{Has-map_inv}
use drx_wallet.Schema.{RawVout}
use drx_wallet.Coins.{Utxo, Draft}
use drx_wallet.Coins.Selection.{construct_raw_transaction-IsSelection}
use drx_wallet.Coins.Unspent.{
  InsightUtxo, Explorer, is_unspent, insert_confirmed, sort_confirmed, convert_utxo,
  get_one_address_utxos, get_multi_addresses_utxos, construct_from,
}

Has-insert_confirmed :
    (u a : InsightUtxo) (xs : List InsightUtxo) → Has a (insert_confirmed u xs) → Has a (u ∷ xs)
unfolding insert_confirmed
Has-insert_confirmed u a [] m = m
Has-insert_confirmed u a (x ∷ xs) m = elim (Bool-cases (ltb u.confirmations x.confirmations)) [
  | inl t ↦ elim (rw t at m) [
    | inl e ↦ inr (inl e)
    | inr k ↦ elim (Has-insert_confirmed u a xs k) [ inl e ↦ inl e | inr h ↦ inr (inr h) ]
  ]
  | inr f ↦ rw f at m
]

Has-sort_confirmed :
    (a : InsightUtxo) (xs : List InsightUtxo) → Has a (sort_confirmed xs) → Has a xs
unfolding sort_confirmed
Has-sort_confirmed a [] m = m
Has-sort_confirmed a (x ∷ xs) m = elim (Has-insert_confirmed x a (sort_confirmed xs) m) [
  | inl e ↦ inl e
  | inr k ↦ inr (Has-sort_confirmed a xs k)
]

-- An output that the explorer has for one of the addresses, and that is not spent.
pub record IsUnspentOf (explorer : Explorer) (addresses : List String) (u : Utxo) : Type 0 where
  pub address : String
  pub listed : List InsightUtxo
  pub output : InsightUtxo
  pub one_of : Has address addresses
  pub answered : explorer address ≡ ok listed
  pub there : Has output listed
  pub unspent : output.spent_txid ≡ ""
  pub its : u ≡ (record {
    address = output.address;
    tx_id = output.mint_txid;
    output_index = output.mint_index;
    script_pub_key = output.script;
    satoshis = output.value;
  })

more_addresses :
    (explorer : Explorer) (few many : List String) (u : Utxo)
    → ((a : String) → Has a few → Has a many)
    → IsUnspentOf explorer few u
    → IsUnspentOf explorer many u
more_addresses explorer few many u more found = record {
  address = found.address;
  listed = found.listed;
  output = found.output;
  one_of = more found.address found.one_of;
  answered = found.answered;
  there = found.there;
  unspent = found.unspent;
  its = found.its;
}

get_one_address_utxos-IsUnspentOf :
    (explorer : Explorer) (address : String) (u : Utxo) {us : List Utxo}
    → get_one_address_utxos explorer address ≡ ok us
    → Has u us
    → IsUnspentOf explorer (address ∷ []) u
unfolding get_one_address_utxos
get_one_address_utxos-IsUnspentOf explorer address u e m =
    let (listed, answered, k) = >>=-eq-ok (explorer address) _ e in
    let (output, there, its) =
      Has-map_inv convert_utxo u (sort_confirmed (select is_unspent listed))
        (subst (λ (xs : List Utxo). Has u xs) (sym (ok-injective _ _ k)) m) in
    let (kept, unspent) =
      Has-select is_unspent output listed
        (Has-sort_confirmed output (select is_unspent listed) there) in
    record {
      address = address;
      listed = listed;
      output = output;
      one_of = inl refl;
      answered = answered;
      there = kept;
      unspent = (eq_iff output.spent_txid "").0 unspent;
      its = its;
    }

get_multi_addresses_utxos-IsUnspentOf :
    (explorer : Explorer) (addresses : List String) (u : Utxo) {us : List Utxo}
    → get_multi_addresses_utxos explorer addresses ≡ ok us
    → Has u us
    → IsUnspentOf explorer addresses u
unfolding get_multi_addresses_utxos
get_multi_addresses_utxos-IsUnspentOf explorer [] u e m =
    elim (subst (λ (xs : List Utxo). Has u xs) (sym (ok-injective _ _ e)) m) [ ]
get_multi_addresses_utxos-IsUnspentOf explorer (address ∷ addresses) u e m =
    let (here_, one, k) = >>=-eq-ok (get_one_address_utxos explorer address) _ e in
    let (rest, others, k₁) = >>=-eq-ok (get_multi_addresses_utxos explorer addresses) _ k in
    elim (Has-append u here_ rest
      (subst (λ (xs : List Utxo). Has u xs) (sym (ok-injective _ _ k₁)) m)) [
        | inl h ↦
            more_addresses explorer (address ∷ []) (address ∷ addresses) u
              (λ a k. elim k [ inl same ↦ inl same | inr z ↦ elim z [ ] ])
              (get_one_address_utxos-IsUnspentOf explorer address u one h)
        | inr h ↦
            more_addresses explorer addresses (address ∷ addresses) u (λ a k. inr k)
              (get_multi_addresses_utxos-IsUnspentOf explorer addresses u others h)
      ]

-- Each output that a transaction spends is one that the explorer has as unspent for one of the senders.
pub construct_from-IsUnspentOf :
    (explorer : Explorer) (from_addresses : List String) (vouts : List RawVout) (d : Draft)
    → construct_from explorer from_addresses vouts ≡ ok d
    → (u : Utxo) → Has u d.utxos
    → IsUnspentOf explorer from_addresses u
unfolding construct_from
construct_from-IsUnspentOf explorer from_addresses vouts d e u m =
    let (all_utxos, found, k) = >>=-eq-ok (get_multi_addresses_utxos explorer from_addresses) _ e in
    let (n, selection) = construct_raw_transaction-IsSelection all_utxos vouts d k in
    get_multi_addresses_utxos-IsUnspentOf explorer from_addresses u found
      (Has-take n u all_utxos (subst (λ (xs : List Utxo). Has u xs) selection.first_ones m))
