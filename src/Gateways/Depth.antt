-- ===== src/Gateways/Depth.antt =====
-- A transaction is taken for finished only in a block that is deep enough.
use drx_wallet.Base.{
  true, false, ℕ, ◌+◌, ◌≤◌, ◌≡◌, refl, sym, ap, ◌∙◌, inl, inr, Option, none, some, String,
  Bool-cases, arith, subst,
}
use drx_wallet.Base.Int.{pos, ltb_ℤ, leb_ℤ}
use drx_wallet.Base.Outcome.{ok, ◌>>=◌, >>=-eq-ok, ok-injective}
use drx_wallet.Base.Text.{add_prefix}
use drx_wallet.Schema.{TransactionStatus, IsFinal}
use drx_wallet.Evm.{NetworkTx, with_confirmations, cached_or, confirm, get_one_transaction}
use drx_wallet.Evm.Statuses.{deep_lem, get_transaction_status_finished}
use drx_wallet.Gateways.{
  Network, Backend, bitcoin_status, ripple_status, cardano_status, look_up, status_on,
  backend_status,
}

-- The text under which the gateway looks a transaction up.
abbrev pub key_on : Network → String → String
key_on Network.ethereum txid = add_prefix txid
key_on _ txid = txid

-- The cache or the network has the transaction of the text in a block with the confirmations that are
-- asked for.
pub record IsDeep (n : Backend) (key : String) : Type 0 where
  pub tx : NetworkTx
  pub count : ℕ
  pub found : cached_or (n.cache key) (n.fetch key) ≡ ok (some tx)
  pub counted : n.last ≡ ok count
  pub deep : tx.block_number + n.required ≤ count + 1

-- A judge that waits while there are few confirmations ends on a transaction that is deep.
waiting_deep :
    (required count : ℕ) (t : NetworkTx) (s : TransactionStatus)
    → (ltb_ℤ (with_confirmations count t).confirmations (pos required) ≡ true
        → s ≡ TransactionStatus.confirming)
    → IsFinal s
    → t.block_number + required ≤ count + 1
waiting_deep required count t s waits final =
    elim (Bool-cases (ltb_ℤ (with_confirmations count t).confirmations (pos required))) [
      | inl few ↦ absurd (final.1 (waits few))
      | inr enough ↦ deep_lem required count t enough
    ]

bitcoin_waits :
    (required count : ℕ) (t : NetworkTx)
    → ltb_ℤ (with_confirmations count t).confirmations (pos required) ≡ true
    → bitcoin_status required (some (with_confirmations count t)) ≡ TransactionStatus.confirming
bitcoin_waits required count t few =
    let short : leb_ℤ (pos required) (with_confirmations count t).confirmations ≡ false =
      ground arith in
    rw short refl

module _ (n : Backend) (txid : String) where
  -- A status that ends the verification is judged on a transaction that was found.
  found-IsDeep :
      (judge : ℕ → Option NetworkTx → TransactionStatus) {s : TransactionStatus}
      → ((required : ℕ) → judge required none ≡ TransactionStatus.unknown)
      → ((count : ℕ) (t : NetworkTx)
          → IsFinal (judge n.required (some (with_confirmations count t)))
          → t.block_number + n.required ≤ count + 1)
      → (look_up n txid >>= λ found. ok (judge n.required found)) ≡ ok s
      → IsFinal s
      → IsDeep n txid
  unfolding get_one_transaction
  found-IsDeep judge {s} missing deep e final =
      let (found, confirmed, k) = >>=-eq-ok (look_up n txid) _ e in
      let (o, have, k1) =
        >>=-eq-ok (cached_or (n.cache txid) (n.fetch txid)) (confirm n.last) confirmed in
      from_source o have found k1 (ok-injective _ _ k)
    where
      from_source :
          (o : Option NetworkTx)
          → cached_or (n.cache txid) (n.fetch txid) ≡ ok o
          → (found : Option NetworkTx) → confirm n.last o ≡ ok found
          → judge n.required found ≡ s
          → IsDeep n txid
      from_source none have found c status =
          let same = ok-injective _ _ c in
          absurd (final.0 (sym status ∙ (ap (judge n.required) (sym same) ∙ missing n.required)))
      from_source (some t) have found c status =
          let (count, at_, k) = >>=-eq-ok n.last _ c in
          let own = ap (judge n.required) (ok-injective _ _ k) ∙ status in
          record {
            tx = t;
            count = count;
            found = have;
            counted = at_;
            deep = deep count t (subst IsFinal (sym own) final);
          }

  IsDeep-on :
      (network : Network) {s : TransactionStatus}
      → status_on network n txid ≡ ok s
      → IsFinal s
      → IsDeep n (key_on network txid)
  IsDeep-on Network.bitcoin e final =
      found-IsDeep bitcoin_status (λ r. refl)
        (λ count t. waiting_deep n.required count t _ (bitcoin_waits n.required count t)) e final
  IsDeep-on Network.ripple e final =
      found-IsDeep ripple_status (λ r. refl)
        (λ count t. waiting_deep n.required count t _ (λ few. rw few refl)) e final
  IsDeep-on Network.cardano e final =
      found-IsDeep cardano_status (λ r. refl)
        (λ count t. waiting_deep n.required count t _ (λ few. rw few refl)) e final
  IsDeep-on Network.ethereum e final =
      let (t, count, have, at_, deep, kind) =
        get_transaction_status_finished n.required n.cache n.fetch n.last txid e final.0 final.1 in
      record { tx = t; count = count; found = have; counted = at_; deep = deep }

  -- A gateway of Bitcoin, Ripple, Cardano or Ethereum reports that a transaction has completed or failed
  -- only if the cache or the network has it in a block with the confirmations that are asked for.
  pub backend_status-IsDeep :
      {s : TransactionStatus}
      → backend_status n txid ≡ ok s
      → IsFinal s
      → IsDeep n (key_on n.network txid)
  unfolding backend_status
  backend_status-IsDeep e final = IsDeep-on n.network e final
