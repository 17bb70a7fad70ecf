-- ===== src/Gateways/Blocked.antt =====
-- A transaction of EOS that failed: its status is never reported, since the constructor of EosTransaction
-- reads the `trx` that `_getOneTransaction` leaves out, and so the verifier does not get past it.
use drx_wallet.Base.{
  ℕ, ◌≡◌, ◌≢◌, refl, sym, ap, ◌∙◌, subst, inl, inr, true, Option, none, some, List, [], ◌∷◌, String,
  str_eq, Bool-cases, All, arith,
}
use drx_wallet.Base.Outcome.{Outcome, ok, err, Error, ◌>>=◌, >>=-eq-ok, ok-injective}
use drx_wallet.Schema.{
  Db, World, Registry, Currency, WithdrawalTx, WithdrawalStatus, TransactionStatus,
}
use drx_wallet.RawDb.Picking.{find_one_withdrawal_tx}
use drx_wallet.Workers.Verifier.{verifier_do_process, text_of}
use drx_wallet.Lifecycle.Ticks.{commit}
use drx_wallet.Evm.{NetworkTx, get_one_transaction}
use drx_wallet.Gateways.Caches.{Cache, Fetch, Reached, Reached-all, found_source, either_holds}
use drx_wallet.Gateways.Eos.{
  EosNode, HistoryTx, ChainInfo, eos_failed, with_receipt, new_eos_transaction,
  fetch_eos_transaction, in_history, get_one_eos_transaction, get_eos_block_count, eos_status,
  get_eos_transaction_status,
}

-- The networks of a gateway of EOS.
abbrev pub EosServes : Fetch → Type 0
EosServes fetch = (n : EosNode) × (fetch ≡ fetch_eos_transaction n)

with_receipt_succeeded :
    (t : HistoryTx) (block_num : ℕ) (info : ChainInfo) (receipt : Option String) {x : NetworkTx}
    → with_receipt t block_num info receipt ≡ ok (some x)
    → x.receipt_status ≡ true
unfolding new_eos_transaction
with_receipt_succeeded t block_num info none e = cc e
with_receipt_succeeded t block_num info (some status) e =
    elim (Bool-cases (str_eq status eos_failed)) [
      | inl f ↦ cc (rw f at e)
      | inr n ↦ let found = ok-injective _ _ (rw n at e) in cc found
    ]

fetched_succeeded :
    (n : EosNode) (txid : String) {x : NetworkTx}
    → fetch_eos_transaction n txid ≡ ok (some x)
    → x.receipt_status ≡ true
unfolding fetch_eos_transaction
fetched_succeeded n txid {x} e = by_history (n.history_get_transaction txid) e
  where
    by_history :
        (reply : Outcome HistoryTx) → in_history n reply ≡ ok (some x) → x.receipt_status ≡ true
    by_history (err y) e = cc e
    by_history (ok t) e =
        let (b, hb, k) = >>=-eq-ok (n.get_block t.block_num) _ e in
        let (info, hi, k₁) = >>=-eq-ok n.get_info _ k in
        with_receipt_succeeded t b info t.receipt k₁

cached_succeeded :
    {cache : Cache}
    → Reached EosServes cache
    → (txid : String) (x : NetworkTx) → cache txid ≡ some x
    → x.receipt_status ≡ true
cached_succeeded reached txid x e =
    Reached-all EosServes (λ k t. t.receipt_status ≡ true) (λ k n t h. h)
      (λ fetch (n, same) k t have.
        fetched_succeeded n k (sym (ap (λ (g : Fetch). g k) same) ∙ have))
      reached txid x e

status_not_failed :
    (last : ℕ) (found : Option NetworkTx)
    → ((x : NetworkTx) → found ≡ some x → x.receipt_status ≡ true)
    → eos_status last found ≢ TransactionStatus.failed
status_not_failed last none h e = cc e
status_not_failed last (some x) h e =
    let good : x.receipt_status ≡ true = h x refl in ground (arith, good, e)

found_succeeded :
    (cached : Option NetworkTx) (fetched : Outcome (Option NetworkTx)) (last : Outcome ℕ)
    {x : NetworkTx}
    → ((y : NetworkTx) → cached ≡ some y → y.receipt_status ≡ true)
    → ((y : NetworkTx) → fetched ≡ ok (some y) → y.receipt_status ≡ true)
    → get_one_transaction cached fetched last ≡ ok (some x)
    → x.receipt_status ≡ true
found_succeeded cached fetched last {x} old new e =
    let (t, n, have, own) = found_source cached fetched last e in
    subst (λ (y : NetworkTx). y.receipt_status ≡ true) (sym own)
      (either_holds (λ y. y.receipt_status ≡ true) cached fetched old new have)

-- Whatever the nodes answer and whatever is in the cache of its gateway, no transaction of EOS is ever
-- reported as failed.
pub get_eos_transaction_status_never_failed :
    (n : EosNode) {cache : Cache} (txid : String)
    → Reached EosServes cache
    → get_eos_transaction_status n cache txid ≢ ok TransactionStatus.failed
unfolding get_eos_transaction_status
get_eos_transaction_status_never_failed n {cache} txid reached e =
    let (info, hi, k) = >>=-eq-ok n.get_info _ e in
    let (found, hf, k₁) = >>=-eq-ok (get_one_eos_transaction n cache txid) _ k in
    status_not_failed info.last_irreversible_block_num found
      (λ x same.
        found_succeeded (cache txid) (fetch_eos_transaction n txid) (get_eos_block_count n)
          (cached_succeeded reached txid) (λ y have. fetched_succeeded n txid have)
          (hf ∙ ap ok same))
      (ok-injective _ _ k₁)

-- In this world the node knows the transaction as failed, and the gateway does not have it in its cache.
pub record IsFailedOn (symbol txid : String) (w : World) : Type 0 where
  pub node : EosNode
  pub cache : Cache
  pub reply : HistoryTx
  pub served :
      (w.gateway_of symbol).get_transaction_status txid ≡ get_eos_transaction_status node cache txid
  pub uncached : cache txid ≡ none
  pub known : node.history_get_transaction txid ≡ ok reply
  pub failed : reply.receipt ≡ some eos_failed

-- A call that does not resolve.
abbrev pub Throws : {A : Type 0} → Outcome A → Type 0
Throws call = (e : Error) × (call ≡ err e)

>>=-Throws :
    {A B : Type 0} (call : Outcome A) (then_ : A → Outcome B)
    → ((a : A) → Throws (then_ a))
    → Throws (call >>= then_)
>>=-Throws (ok a) then_ h = h a
>>=-Throws (err e) then_ h = (e, refl)

Throws->>= :
    {A B : Type 0} (call : Outcome A) (then_ : A → Outcome B)
    → Throws call
    → Throws (call >>= then_)
Throws->>= (ok a) then_ (e, thrown) = cc thrown
Throws->>= (err x) then_ (e, thrown) = (x, refl)

with_receipt-Throws :
    (t : HistoryTx) (block_num : ℕ) (info : ChainInfo) (receipt : Option String)
    → receipt ≡ some eos_failed
    → Throws (with_receipt t block_num info receipt)
unfolding new_eos_transaction
with_receipt-Throws t block_num info receipt failed =
    subst (λ r. Throws (with_receipt t block_num info r)) (sym failed) (Error.null_reference, refl)

failed_lookup-Throws :
    (n : EosNode) (t : HistoryTx) (cache : Cache) (txid : String)
    → cache txid ≡ none
    → n.history_get_transaction txid ≡ ok t
    → t.receipt ≡ some eos_failed
    → Throws (get_one_eos_transaction n cache txid)
unfolding get_one_transaction fetch_eos_transaction
failed_lookup-Throws n t cache txid uncached known failed =
    rw (uncached, known)
      (Throws->>= (in_history n (ok t)) _ (
        >>=-Throws (n.get_block t.block_num) _
          (λ b. >>=-Throws n.get_info _ (λ info. with_receipt-Throws t b info t.receipt failed))))

failed_status-Throws :
    (symbol txid : String) (w : World)
    → IsFailedOn symbol txid w
    → Throws ((w.gateway_of symbol).get_transaction_status txid)
unfolding get_eos_transaction_status
failed_status-Throws symbol txid w f = subst Throws (sym f.served) (
    >>=-Throws f.node.get_info _ (λ info.
      Throws->>= (get_one_eos_transaction f.node f.cache txid) _
        (failed_lookup-Throws f.node f.reply f.cache txid f.uncached f.known f.failed)))

-- Ticks of the verifier, each in a world of its own.
abbrev pub verify_ticks : Registry → String → List World → Db → Db
verify_ticks reg platform [] db = db
verify_ticks reg platform (w ∷ ws) db =
    verify_ticks reg platform ws (commit (verifier_do_process reg w platform db) db)

commit-Throws : (call : Outcome Db) (db : Db) → Throws call → commit call db ≡ db
commit-Throws (ok after) db (e, thrown) = cc thrown
commit-Throws (err x) db thrown = refl

module _ (reg : Registry) (platform : String) (db : Db) (tx : WithdrawalTx) (c : Currency)
    (found : find_one_withdrawal_tx reg platform WithdrawalStatus.sent db ≡ some tx)
    (known : reg.get_one_currency tx.currency ≡ ok c) where
  failed_tick :
      (w : World)
      → IsFailedOn c.symbol (text_of tx.txid) w
      → commit (verifier_do_process reg w platform db) db ≡ db
  unfolding verifier_do_process
  failed_tick w f = commit-Throws (verifier_do_process reg w platform db) db (
      rw (found, known)
        (Throws->>= ((w.gateway_of c.symbol).get_transaction_status (text_of tx.txid)) _
          (failed_status-Throws c.symbol (text_of tx.txid) w f)))

  -- If the sent transaction that the verifier finds first failed on EOS, then no tick of the verifier
  -- changes anything as long as the node says so, and so no withdrawal of the platform is verified.
  pub failed_holds_up :
      (ws : List World)
      → All (IsFailedOn c.symbol (text_of tx.txid)) ws
      → verify_ticks reg platform ws db ≡ db
  failed_holds_up [] all = refl
  failed_holds_up (w ∷ ws) all =
      ap (verify_ticks reg platform ws) (failed_tick w all.0) ∙ failed_holds_up ws all.1
