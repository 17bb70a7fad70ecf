-- ===== src/Coins/Selection.antt =====
-- Which unspent outputs are chosen.
use drx_wallet.Base.{
  ℕ, ◌+◌, ◌*◌, ◌≤◌, ◌<◌, ◌≡◌, refl, sym, ap, ◌∙◌, inl, inr, false, none, List, [], String,
  Bool-cases, length, take, arith,
}
use drx_wallet.Base.Int.{ℤ, pos, ◌+ℤ◌, ◌-ℤ◌, ◌≤ℤ◌, ◌<ℤ◌, ltb_ℤ, int_laws}
use drx_wallet.Base.Outcome.{Outcome, ok, err, Error, ◌>>=◌, >>=-eq-ok, ok-injective}
use drx_wallet.Schema.{RawVout}
use drx_wallet.Coins.{
  Utxo, Draft, Picked, sum_utxos, sum_vouts, construct_draft, fee_of, pick_utxos,
  construct_raw_transaction, construct_raw_consolidate_transaction,
}
use drx_wallet.Coins.Picking.{pick_utxos_lem, pick_utxos_short}

zero_plus : (a : ℤ) → pos 0 +ℤ a ≡ a
zero_plus a = grind int_laws

-- What `constructRawTransaction` gives to bitcore-lib.
pub record IsSelection (all_utxos : List Utxo) (vouts : List RawVout) (n : ℕ) (d : Draft)
    : Type 0 where
  pub first_ones : d.utxos ≡ take n all_utxos
  pub same_vouts : d.vouts ≡ vouts
  pub its_fee : d.fee ≡ fee_of (length vouts * 34 + 10 + 181 * n)
  pub covers : sum_vouts vouts +ℤ d.fee <ℤ sum_utxos d.utxos
  pub least :
      (m : ℕ)
      → 1 ≤ m
      → m < n
      → sum_utxos (take m all_utxos) ≤ℤ sum_vouts vouts +ℤ fee_of (length vouts * 34 + 10 + 181 * m)

construct_draft_lem :
    (utxos : List Utxo) (vouts : List RawVout) (fee : ℤ) (d : Draft)
    → construct_draft utxos vouts fee ≡ ok d
    → (d.utxos ≡ utxos) × (d.vouts ≡ vouts) × (d.fee ≡ fee)
unfolding construct_draft
construct_draft_lem utxos vouts fee d e =
    elim (Bool-cases (ltb_ℤ (sum_utxos utxos) (sum_vouts vouts +ℤ fee))) [
      | inl t ↦ cc (rw t at e)
      | inr f ↦
          let same = ok-injective _ d (rw f at e) in
          (
            ap (λ (x : Draft). x.utxos) (sym same),
            ap (λ (x : Draft). x.vouts) (sym same),
            ap (λ (x : Draft). x.fee) (sym same),
          )
    ]

-- Where `constructRawTransaction` does not throw, it takes the shortest list of first unspent outputs
-- that holds more than the amounts and the fee, and the fee is fifteen satoshis for each byte of a
-- transaction with them.
pub construct_raw_transaction-IsSelection :
    (all_utxos : List Utxo) (vouts : List RawVout) (d : Draft)
    → construct_raw_transaction all_utxos vouts ≡ ok d
    → (n : ℕ) × IsSelection all_utxos vouts n d
unfolding construct_raw_transaction
construct_raw_transaction-IsSelection all_utxos vouts d e =
    let (p, hp, k) =
      >>=-eq-ok (pick_utxos (sum_vouts vouts) [] (pos 0) (length vouts * 34 + 10) all_utxos) _ e in
    let (n, picks) =
      pick_utxos_lem (sum_vouts vouts) [] (pos 0) (length vouts * 34 + 10) all_utxos hp in
    let (same_utxos, same_vouts, same_fee) = construct_draft_lem p.utxos vouts p.fee d k in
    (
      n,
      record {
        first_ones = same_utxos ∙ picks.first_ones;
        same_vouts = same_vouts;
        its_fee = same_fee ∙ picks.its_fee;
        covers =
            rw (same_utxos, same_fee, picks.first_ones, picks.its_fee)
              (rw (zero_plus (sum_utxos (take n all_utxos))) at picks.covers);
        least =
            λ m low high. rw (zero_plus (sum_utxos (take m all_utxos))) at (picks.least m low high);
      },
    )

-- It throws only where no list of first unspent outputs holds more than the amounts and the fee.
pub construct_raw_transaction_fails :
    (all_utxos : List Utxo) (vouts : List RawVout) (x : Error)
    → construct_raw_transaction all_utxos vouts ≡ err x
    → (m : ℕ) → 1 ≤ m
    → m ≤ length all_utxos
    → sum_utxos (take m all_utxos) ≤ℤ sum_vouts vouts +ℤ fee_of (length vouts * 34 + 10 + 181 * m)
unfolding construct_raw_transaction construct_draft
construct_raw_transaction_fails all_utxos vouts x e m low high =
    by_pick (pick_utxos (sum_vouts vouts) [] (pos 0) (length vouts * 34 + 10) all_utxos) refl e
  where
    not_short : (a b : ℤ) → b <ℤ a → ltb_ℤ a b ≡ false
    not_short a b h = ground arith

    by_pick :
        (picks : Outcome Picked)
        → pick_utxos (sum_vouts vouts) [] (pos 0) (length vouts * 34 + 10) all_utxos ≡ picks
        → (picks >>= λ p. construct_draft p.utxos vouts p.fee) ≡ err x
        → sum_utxos (take m all_utxos)
          ≤ℤ sum_vouts vouts +ℤ fee_of (length vouts * 34 + 10 + 181 * m)
    by_pick (err y) failed k = rw (zero_plus (sum_utxos (take m all_utxos))) at (
        pick_utxos_short (sum_vouts vouts) [] (pos 0) (length vouts * 34 + 10) all_utxos failed m
          low high)
    by_pick (ok p) done k =
        let (n, picks) =
          pick_utxos_lem (sum_vouts vouts) [] (pos 0) (length vouts * 34 + 10) all_utxos done in
        let enough : sum_vouts vouts +ℤ p.fee <ℤ sum_utxos p.utxos =
          rw (picks.first_ones, picks.its_fee)
            (rw (zero_plus (sum_utxos (take n all_utxos))) at picks.covers) in
        cc (rw (not_short (sum_utxos p.utxos) (sum_vouts vouts +ℤ p.fee) enough) at k)

-- A consolidation never fails, and its output and its fee are all that its inputs hold: nothing is
-- left as change.
pub construct_raw_consolidate_transaction_lem :
    (picked : List Utxo) (to_address : String)
    → (d : Draft) × (construct_raw_consolidate_transaction picked to_address ≡ ok d)
      × (d.utxos ≡ picked)
      × (sum_vouts d.vouts +ℤ d.fee ≡ sum_utxos picked)
      × (d.change_address ≡ none)
unfolding construct_raw_consolidate_transaction construct_draft
construct_raw_consolidate_transaction_lem picked to_address =
    let fee = fee_of (length picked * 181 + 34 + 10) in
    let all_ = balance (sum_utxos picked) fee in
    rw (all_, not_less (sum_utxos picked)) (_, refl, refl, all_, refl)
  where
    balance : (a f : ℤ) → a -ℤ f +ℤ pos 0 +ℤ f ≡ a
    balance a f = grind int_laws

    not_less : (a : ℤ) → ltb_ℤ a a ≡ false
    not_less a = ground arith
