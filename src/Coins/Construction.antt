-- ===== src/Coins/Construction.antt =====
-- When `constructRawTransaction` of libs/sota-common/src/BitcoinBasedGateway.ts throws.
use drx_wallet.Base.{
  ℕ, ◌+◌, ◌*◌, ◌≤◌, ◌≡◌, refl, inl, inr, ◌⊎◌, List, [], ◌∷◌, String, length, take, Has,
}
use drx_wallet.Base.Int.{◌+ℤ◌, ◌≤ℤ◌}
use drx_wallet.Base.Outcome.{Outcome, ok, err, Error, >>=-eq-ok, >>=-eq-err}
use drx_wallet.Schema.{RawVout}
use drx_wallet.Coins.{Utxo, Draft, sum_utxos, sum_vouts, fee_of}
use drx_wallet.Coins.Selection.{
  IsSelection, construct_raw_transaction-IsSelection, construct_raw_transaction_fails,
}
use drx_wallet.Coins.Unspent.{
  Explorer, get_one_address_utxos, get_multi_addresses_utxos, construct_from,
}
use drx_wallet.Coins.Bitcore.{Bitcore, built, finish_draft, construct_transaction}

-- No list of first unspent outputs holds more than the amounts and the fee of a transaction with them.
pub record IsShort (all_utxos : List Utxo) (vouts : List RawVout) : Type 0 where
  pub short :
      (m : ℕ)
      → 1 ≤ m
      → m ≤ length all_utxos
      → sum_utxos (take m all_utxos) ≤ℤ sum_vouts vouts +ℤ fee_of (length vouts * 34 + 10 + 181 * m)

get_one_address_utxos_fails :
    (explorer : Explorer) (address : String) {x : Error}
    → get_one_address_utxos explorer address ≡ err x
    → explorer address ≡ err x
unfolding get_one_address_utxos
get_one_address_utxos_fails explorer address e = elim (>>=-eq-err (explorer address) _ e) [
  | inl thrown ↦ thrown
  | inr (utxos, answered, k) ↦ cc (k)
]

get_multi_addresses_utxos_fails :
    (explorer : Explorer) (addresses : List String) {x : Error}
    → get_multi_addresses_utxos explorer addresses ≡ err x
    → (a : String) × Has a addresses × (explorer a ≡ err x)
unfolding get_multi_addresses_utxos
get_multi_addresses_utxos_fails explorer [] e = cc (e)
get_multi_addresses_utxos_fails explorer (address ∷ addresses) e =
    elim (>>=-eq-err (get_one_address_utxos explorer address) _ e) [
      | inl thrown ↦ (address, inl refl, get_one_address_utxos_fails explorer address thrown)
      | inr (utxos, answered, k) ↦
          elim (>>=-eq-err (get_multi_addresses_utxos explorer addresses) _ k) [
            | inl thrown ↦
                let (a, there, failed) =
                  get_multi_addresses_utxos_fails explorer addresses thrown in
                (a, inr there, failed)
            | inr (rest, others, k₁) ↦ cc (k₁)
          ]
    ]

-- A draft fails only where the library throws.
finish_draft_fails :
    {Tx : Type 0} (b : Bitcore Tx) (d : Draft) {x : Error}
    → finish_draft b d ≡ err x
    → (y : Error) × (b.build d ≡ err y)
unfolding finish_draft
finish_draft_fails {Tx} b d {x} e = elim (>>=-eq-err (built (b.build d)) _ e) [
  | inl thrown ↦ by_reply (b.build d) thrown
  | inr (tx, made, k) ↦ cc (k)
]
  where
    by_reply : (reply : Outcome Tx) → built reply ≡ err x → (y : Error) × (reply ≡ err y)
    by_reply (ok tx) h = cc (h)
    by_reply (err y) h = (y, refl)

-- `constructRawTransaction` throws only where the explorer throws for one of the addresses, no list of first
-- unspent outputs holds more than the amounts and the fee, or bitcore-lib throws for the draft of the
-- shortest such list. Other failures of bitcore-lib are results that are null.
pub construct_transaction_fails :
    {Tx : Type 0} (b : Bitcore Tx) (explorer : Explorer) (addresses : List String)
    (vouts : List RawVout) (x : Error)
    → construct_transaction b explorer addresses vouts ≡ err x
    → ((a : String) × Has a addresses × (explorer a ≡ err x))
      ⊎ ((all_utxos : List Utxo) × (get_multi_addresses_utxos explorer addresses ≡ ok all_utxos)
          × (IsShort all_utxos vouts
              ⊎ ((n : ℕ) × (d : Draft) × IsSelection all_utxos vouts n d
                  × ((y : Error) × (b.build d ≡ err y)))))
unfolding construct_transaction construct_from
construct_transaction_fails b explorer addresses vouts x e =
    elim (>>=-eq-err (construct_from explorer addresses vouts) _ e) [
      | inl refused ↦ elim (>>=-eq-err (get_multi_addresses_utxos explorer addresses) _ refused) [
        | inl thrown ↦ inl (get_multi_addresses_utxos_fails explorer addresses thrown)
        | inr (all_utxos, answered, k) ↦ inr (
          all_utxos,
          answered,
          inl (record { short = construct_raw_transaction_fails all_utxos vouts x k }),
        )
      ]
      | inr (d, drafted, k) ↦
          let (all_utxos, answered, selected) =
            >>=-eq-ok (get_multi_addresses_utxos explorer addresses) _ drafted in
          let (n, selection) = construct_raw_transaction-IsSelection all_utxos vouts d selected in
          inr (all_utxos, answered, inr (n, d, selection, finish_draft_fails b d k))
    ]
