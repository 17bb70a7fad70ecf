-- ===== src/Gateways/Caches.antt =====
-- The cache of transactions in libs/sota-common/src/BaseGateway.ts, which getOneTransaction fills and which
-- drops its entries after five minutes or when it is full.
use drx_wallet.Base.{
  ℕ, ◌≡◌, refl, sym, ap, ◌∙◌, subst, inl, inr, Option, none, some, String, str_eq, eq_iff,
  Bool-cases, if◌then◌else◌,
}
use drx_wallet.Base.Outcome.{Outcome, ok, ◌>>=◌, >>=-eq-ok, ok-injective}
use drx_wallet.Evm.{NetworkTx, with_confirmations, cached_or, confirm, get_one_transaction}

-- What the cache holds under a txid.
abbrev pub Cache : Type 0
Cache = String → Option NetworkTx

-- What the network has under a txid.
abbrev pub Fetch : Type 0
Fetch = String → Outcome (Option NetworkTx)

abbrev pub put : String → Option NetworkTx → Cache → Cache
put txid tx cache other = if str_eq txid other then tx else cache other

-- The caches that a gateway can have whose networks `Serves` describes: a lookup puts what it found under
-- its txid, and an entry may be dropped at any time.
pub data Reached (Serves : Fetch → Type 0) : Cache → Type 0 where
  empty : Reached Serves (λ txid. none)
  looked_up :
      {cache : Cache} (fetch : Fetch) (last : Outcome ℕ) (txid : String) (tx : NetworkTx)
      → Reached Serves cache
      → Serves fetch
      → get_one_transaction (cache txid) (fetch txid) last ≡ ok (some tx)
      → Reached Serves (put txid (some tx) cache)
  dropped :
      {cache : Cache} (txid : String) → Reached Serves cache → Reached Serves (put txid none cache)

-- What a lookup finds is what the cache or the network has, with new confirmations.
pub found_source :
    (cached : Option NetworkTx) (fetched : Outcome (Option NetworkTx)) (last : Outcome ℕ)
    {tx : NetworkTx}
    → get_one_transaction cached fetched last ≡ ok (some tx)
    → (t : NetworkTx) × (n : ℕ) × (cached_or cached fetched ≡ ok (some t))
      × (tx ≡ with_confirmations n t)
unfolding get_one_transaction
found_source cached fetched last {tx} e =
    let (o, have, k) = >>=-eq-ok (cached_or cached fetched) (confirm last) e in from_source o have k
  where
    from_source :
        (o : Option NetworkTx)
        → cached_or cached fetched ≡ ok o
        → confirm last o ≡ ok (some tx)
        → (t : NetworkTx) × (n : ℕ) × (cached_or cached fetched ≡ ok (some t))
          × (tx ≡ with_confirmations n t)
    from_source none have k = cc
    from_source (some t) have k =
        let (n, at_, k1) = >>=-eq-ok last _ k in (t, n, have, cc (ok-injective _ _ k1))

-- What holds of an entry of the cache and of what the network has holds of what is found.
pub either_holds :
    (Q : NetworkTx → Type 0) (cached : Option NetworkTx) (fetched : Outcome (Option NetworkTx))
    {t : NetworkTx}
    → ((x : NetworkTx) → cached ≡ some x → Q x)
    → ((x : NetworkTx) → fetched ≡ ok (some x) → Q x)
    → cached_or cached fetched ≡ ok (some t)
    → Q t
either_holds Q none fetched {t} old new e = new t e
either_holds Q (some x) fetched {t} old new e = old t (ok-injective _ _ e)

module _ (Serves : Fetch → Type 0) (P : String → NetworkTx → Type 0)
    (keeps : (txid : String) (n : ℕ) (t : NetworkTx) → P txid t → P txid (with_confirmations n t))
    (fetched : (fetch : Fetch)
      → Serves fetch
      → (txid : String) (t : NetworkTx) → fetch txid ≡ ok (some t)
      → P txid t) where
  -- What holds of the transactions that the network has, whatever their confirmations, holds of those in
  -- the cache.
  pub Reached-all :
      {cache : Cache}
      → Reached Serves cache
      → (txid : String) (t : NetworkTx) → cache txid ≡ some t
      → P txid t
  Reached-all empty txid t e = cc
  Reached-all (looked_up {cache} fetch last at tx before serves found) txid t e =
      elim (Bool-cases (str_eq at txid)) [
        | inl same ↦
            let (t₀, n, have, own) = found_source (cache at) (fetch at) last found in
            let here_ : tx ≡ t = cc (rw same at e) in
            let place : at ≡ txid = (eq_iff at txid).0 same in
            subst (λ (x : NetworkTx). P txid x) (sym own ∙ here_)
              (subst (λ k. P k (with_confirmations n t₀)) place
                (keeps at n t₀ (
                  either_holds (P at) (cache at) (fetch at) (Reached-all before at)
                    (fetched fetch serves at) have)))
        | inr other ↦ Reached-all before txid t (rw other at e)
      ]
  Reached-all (dropped {cache} at before) txid t e = elim (Bool-cases (str_eq at txid)) [
    | inl same ↦ cc (rw same at e)
    | inr other ↦ Reached-all before txid t (rw other at e)
  ]

-- The network has the transaction, but for its confirmations.
abbrev IsListed : Fetch → String → NetworkTx → Type 0
IsListed fetch txid t =
    (x : NetworkTx) × (fetch txid ≡ ok (some x))
    × ((n : ℕ) → with_confirmations n t ≡ with_confirmations n x)

-- The cache is not seen: with a network that does not change but for the height of the chain, a lookup that
-- uses a cache that its gateway can have finds what a lookup without the cache finds.
pub get_one_transaction_cached :
    (fetch : Fetch) {cache : Cache}
    → Reached (λ f. f ≡ fetch) cache
    → (last : Outcome ℕ) (txid : String)
    → get_one_transaction (cache txid) (fetch txid) last
      ≡ get_one_transaction none (fetch txid) last
unfolding get_one_transaction
get_one_transaction_cached fetch {cache} reached last txid = by_entry (cache txid) refl
  where
    by_entry :
        (entry : Option NetworkTx)
        → cache txid ≡ entry
        → get_one_transaction entry (fetch txid) last ≡ get_one_transaction none (fetch txid) last
    by_entry none own = refl
    by_entry (some t) own =
        let (x, have, same) =
          Reached-all (λ f. f ≡ fetch) (IsListed fetch) (λ k n y listed. listed)
            (λ f e k y there. (y, sym (ap (λ (g : Fetch). g k) e) ∙ there, λ n. refl)) reached txid
            t own in
        rw have (ap (λ (g : ℕ → NetworkTx). last >>= λ n. ok (some (g n))) (λ i n. same n i))
