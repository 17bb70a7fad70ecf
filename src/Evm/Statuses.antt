-- ===== src/Evm/Statuses.antt =====
-- When a transaction counts as finished, and that it stays so.
use drx_wallet.Base.{
  ℕ, ◌+◌, ◌≤◌, ◌≡◌, ◌≢◌, refl, sym, ap, ◌∙◌, inl, inr, Bool, false, Option, none, some, String,
  Bool-cases, if◌then◌else◌, arith,
}
use drx_wallet.Base.Int.{pos, ◌+ℤ◌, ◌-ℤ◌, ltb_ℤ, eqb_ℤ, int_laws, pos_part, neg_part}
use drx_wallet.Base.Outcome.{Outcome, ok, >>=-eq-ok, ok-injective}
use drx_wallet.Base.Text.{add_prefix}
use drx_wallet.Schema.{TransactionStatus}
use drx_wallet.Evm.{
  NetworkTx, with_confirmations, cached_or, confirm, get_one_transaction, status_of_tx,
  get_transaction_status,
}

-- What the cache or the network has under the txid.
abbrev pub source :
    (String → Option NetworkTx)
    → (String → Outcome (Option NetworkTx))
    → String
    → Outcome (Option NetworkTx)
source cache fetch txid = cached_or (cache (add_prefix txid)) (fetch (add_prefix txid))

abbrev pub finished_status : Bool → TransactionStatus
finished_status receipt = if receipt then TransactionStatus.completed else TransactionStatus.failed

-- A transaction in a block that is deep enough has the status of its receipt.
deep_status :
    (required last : ℕ) (t : NetworkTx)
    → 1 ≤ required
    → t.block_number + required ≤ last + 1
    → status_of_tx required (some (with_confirmations last t)) ≡ finished_status t.receipt_status
deep_status required last t positive deep =
    let n = pos last -ℤ pos t.block_number +ℤ pos 1 in
    let some_ : eqb_ℤ n (pos 0) ≡ false = not_zero in
    let enough : ltb_ℤ n (pos required) ≡ false = not_few in rw (some_, enough) refl
  where
    parts :
        pos_part (pos last -ℤ pos t.block_number +ℤ pos 1) + t.block_number
        ≡ neg_part (pos last -ℤ pos t.block_number +ℤ pos 1) + last + 1
    parts = omega int_laws

    not_zero : eqb_ℤ (pos last -ℤ pos t.block_number +ℤ pos 1) (pos 0) ≡ false
    not_zero = ground (arith, parts)

    not_few : ltb_ℤ (pos last -ℤ pos t.block_number +ℤ pos 1) (pos required) ≡ false
    not_few = ground (arith, parts)

-- A transaction with enough confirmations is in a block that is deep enough.
pub deep_lem :
    (required n : ℕ) (t : NetworkTx)
    → ltb_ℤ (with_confirmations n t).confirmations (pos required) ≡ false
    → t.block_number + required ≤ n + 1
deep_lem required n t h =
    let parts : pos_part (pos n -ℤ pos t.block_number +ℤ pos 1) + t.block_number
        ≡ neg_part (pos n -ℤ pos t.block_number +ℤ pos 1) + n + 1 =
      omega int_laws in
    ground (arith, parts)

finished_deep :
    (required n : ℕ) (t : NetworkTx) (s : TransactionStatus)
    → status_of_tx required (some (with_confirmations n t)) ≡ s
    → s ≢ TransactionStatus.unknown
    → s ≢ TransactionStatus.confirming
    → (t.block_number + required ≤ n + 1) × (s ≡ finished_status t.receipt_status)
finished_deep required n t s e known final =
    let c = pos n -ℤ pos t.block_number +ℤ pos 1 in
    elim (Bool-cases (eqb_ℤ c (pos 0))) [
      | inl zero_ ↦ absurd (known (sym e ∙ (rw zero_ refl)))
      | inr some_ ↦ elim (Bool-cases (ltb_ℤ c (pos required))) [
        | inl few ↦ absurd (final (sym e ∙ (rw (some_, few) refl)))
        | inr enough ↦ (deep_lem required n t enough, sym e ∙ (rw (some_, enough) refl))
      ]
    ]

module _ (required : ℕ) (cache : String → Option NetworkTx)
    (fetch : String → Outcome (Option NetworkTx)) (last : Outcome ℕ) (txid : String) where
  -- A transaction that is completed or failed is in a block with the confirmations asked for, and the
  -- receipt decides which of the two.
  pub get_transaction_status_finished :
      {s : TransactionStatus}
      → get_transaction_status required cache fetch last txid ≡ ok s
      → s ≢ TransactionStatus.unknown
      → s ≢ TransactionStatus.confirming
      → (t : NetworkTx) × (n : ℕ) × (source cache fetch txid ≡ ok (some t))
        × (last ≡ ok n)
        × (t.block_number + required ≤ n + 1)
        × (s ≡ finished_status t.receipt_status)
  unfolding get_transaction_status
  get_transaction_status_finished {s} e known final =
      let (found, confirmed, k) =
        >>=-eq-ok (get_one_transaction (cache (add_prefix txid)) (fetch (add_prefix txid)) last) _
          e in
      let (o, have, k1) = >>=-eq-ok (source cache fetch txid) (confirm last) confirmed in
      from_source o have found k1 (ok-injective _ _ k)
    where
      from_source :
          (o : Option NetworkTx)
          → source cache fetch txid ≡ ok o
          → (found : Option NetworkTx) → confirm last o ≡ ok found
          → status_of_tx required found ≡ s
          → (t : NetworkTx) × (n : ℕ) × (source cache fetch txid ≡ ok (some t))
            × (last ≡ ok n)
            × (t.block_number + required ≤ n + 1)
            × (s ≡ finished_status t.receipt_status)
      from_source none have found c status =
          absurd (known (sym status ∙ ap (status_of_tx required) (sym (ok-injective _ _ c))))
      from_source (some t) have found c status =
          let (n, at_, k) = >>=-eq-ok last _ c in
          let own = ap (status_of_tx required) (ok-injective _ _ k) ∙ status in
          let (deep, kind) = finished_deep required n t s own known final in
          (t, n, have, at_, deep, kind)

-- A transaction that has completed or failed keeps that status: whatever the cache and the network hold
-- later, as long as it is the transaction in the same block with the same receipt and the chain has not
-- become shorter. At least one confirmation is asked for.
pub get_transaction_status_stays :
    (required : ℕ) (cache cache' : String → Option NetworkTx)
    (fetch fetch' : String → Outcome (Option NetworkTx)) (n n' : ℕ) (txid : String)
    (t t' : NetworkTx) {s : TransactionStatus}
    → 1 ≤ required
    → get_transaction_status required cache fetch (ok n) txid ≡ ok s
    → s ≢ TransactionStatus.unknown
    → s ≢ TransactionStatus.confirming
    → source cache fetch txid ≡ ok (some t)
    → source cache' fetch' txid ≡ ok (some t')
    → t'.block_number ≡ t.block_number
    → t'.receipt_status ≡ t.receipt_status
    → n ≤ n'
    → get_transaction_status required cache' fetch' (ok n') txid ≡ ok s
unfolding get_transaction_status
get_transaction_status_stays required cache cache' fetch fetch' n n' txid t t' {s} positive e known
      final have have' block receipt longer =
    let (u, m, found, at_, deep, kind) =
      get_transaction_status_finished required cache fetch (ok n) txid e known final in
    let same : u ≡ t = cc (sym found ∙ have) in
    let count : n ≡ m = ok-injective _ _ at_ in
    let deep' : t'.block_number + required ≤ n' + 1 =
      omega (arith, ap (λ (x : NetworkTx). x.block_number) same, block, deep, count, longer) in
    let status = deep_status required n' t' positive deep' in
    let final_ =
      status
      ∙ (ap finished_status (receipt ∙ sym (ap (λ (x : NetworkTx). x.receipt_status) same))
          ∙ sym kind) in
    rw have' (ap ok final_)
