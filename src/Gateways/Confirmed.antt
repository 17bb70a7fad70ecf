-- ===== src/Gateways/Confirmed.antt =====
-- The workers over the gateways, in any order: a withdrawal is settled only when its transaction is deep.
use drx_wallet.Base.{
  Bool, false, refl, ◌≡◌, sym, ap, ◌∙◌, subst, inl, inr, ◌⊎◌, String, Has, List, [], ◌∷◌, ◌++◌,
  Has-append_left, Has-append_right,
}
use drx_wallet.Base.Outcome.{Outcome, ok, err}
use drx_wallet.Base.Saves.{Unique}
use drx_wallet.Base.Views.{Has-map, Has-map_inv}
use drx_wallet.Schema.{IsDisjoint, IsNamed, Db, World, Registry, Withdrawal}
use drx_wallet.Workers.Verifier.{verifier_do_process}
use drx_wallet.Lifecycle.{IsConsistent, IsFinished, Request, machine, request_id, request_of}
use drx_wallet.Lifecycle.Fates.{Steps-IsFinished}
use drx_wallet.Lifecycle.Ticks.{
  commit, MayEnd, Tick, Ticks, start, tick, Tick-Steps, Ticks-IsConsistent,
}
use drx_wallet.Gateways.{Backend, IsServed}
use drx_wallet.Gateways.Verified.{WasThere, IsConfirmed, verifier_do_process-IsConfirmed}

-- A tick of the verifier goes by the backends that its world has at that time.
abbrev pub IsServedTick :
    {reg : Registry} {strict : Bool}
    → (World → String → Backend)
    → {db db' : Db} → Tick reg strict db db'
    → Type 0
IsServedTick backends (Tick.pick w fresh counts platform) = Unit
IsServedTick backends (Tick.sign w platform) = Unit
IsServedTick backends (Tick.send w platform) = Unit
IsServedTick backends (Tick.verify w platform) = IsServed w (backends w)
IsServedTick backends (Tick.ask w fresh coin wallet_id to_address amount tag tmp_txid) = Unit

abbrev pub IsServedPath :
    {reg : Registry} {strict : Bool}
    → (World → String → Backend)
    → {db db' : Db} → Ticks reg strict db db'
    → Type 0
IsServedPath backends start = Unit
IsServedPath backends (tick path t) = IsServedPath backends path × IsServedTick backends t

-- The ticks of the verifier, each as its world and the database that it found.
abbrev pub verified_by :
    {reg : Registry} {strict : Bool} {db db' : Db} → Tick reg strict db db' → List (World × Db)
verified_by (Tick.pick w fresh counts platform) = []
verified_by (Tick.sign w platform) = []
verified_by (Tick.send w platform) = []
verified_by {db = db} (Tick.verify w platform) = (w, db) ∷ []
verified_by (Tick.ask w fresh coin wallet_id to_address amount tag tmp_txid) = []

abbrev pub verified_on :
    {reg : Registry} {strict : Bool} {db db' : Db} → Ticks reg strict db db' → List (World × Db)
verified_on start = []
verified_on (tick path t) = verified_on path ++ verified_by t

module _ (reg : Registry) (strict : Bool) (d : IsDisjoint reg) (named : IsNamed reg)
    (backends : World → String → Backend) where
  -- A tick of another worker finishes no withdrawal.
  quiet-WasThere :
      {db db' : Db} (r' : Withdrawal)
      → IsConsistent reg strict (machine db)
      → (t : Tick reg strict db db') → MayEnd false t
      → Has r' db'.withdrawals
      → IsFinished r'.status
      → WasThere db r'
  quiet-WasThere {db} {db'} r' c t may there done =
      let (r, hr, e) = Has-map_inv request_of (request_of r') db.withdrawals (
        Steps-IsFinished reg strict (request_of r') (Tick-Steps reg strict d named false c t may)
          (Has-map request_of r' db'.withdrawals there) done) in
      (r, hr, sym e)

  verify-IsConfirmed :
      (w : World) (platform : String) (db : Db) (r' : Withdrawal)
      → IsServed w (backends w)
      → Unique request_id (machine db).requests
      → (reply : Outcome Db) → verifier_do_process reg w platform db ≡ reply
      → Has r' (commit reply db).withdrawals
      → WasThere db r' ⊎ IsConfirmed reg (backends w) db r'
  verify-IsConfirmed w platform db r' serve u (ok after) e there =
      verifier_do_process-IsConfirmed reg w (backends w) serve platform db r' u e there
  verify-IsConfirmed w platform db r' serve u (err x) e there = inl (r', there, refl)

  Tick-IsConfirmed :
      {db db' : Db} (r' : Withdrawal)
      → IsConsistent reg strict (machine db)
      → (t : Tick reg strict db db') → IsServedTick backends t
      → Has r' db'.withdrawals
      → IsFinished r'.status
      → WasThere db r'
        ⊎ ((w : World) × Has (w, db) (verified_by t) × IsConfirmed reg (backends w) db r')
  Tick-IsConfirmed r' c (Tick.pick w fresh counts platform) served there done =
      inl (quiet-WasThere r' c (Tick.pick w fresh counts platform) tt there done)
  Tick-IsConfirmed r' c (Tick.sign w platform) served there done =
      inl (quiet-WasThere r' c (Tick.sign w platform) tt there done)
  Tick-IsConfirmed r' c (Tick.send w platform) served there done =
      inl (quiet-WasThere r' c (Tick.send w platform) tt there done)
  Tick-IsConfirmed {db} r' c (Tick.verify w platform) served there done =
      elim (verify-IsConfirmed w platform db r' served c.request_ids
        (verifier_do_process reg w platform db) refl there) [
          | inl same ↦ inl same
          | inr found ↦ inr (w, inl refl, found)
        ]
  Tick-IsConfirmed r' c (Tick.ask w fresh coin wallet_id to_address amount tag tmp_txid) served
        there done =
      inl (
        quiet-WasThere r' c (Tick.ask w fresh coin wallet_id to_address amount tag tmp_txid) tt
          there done)

  -- The transaction of a withdrawal is the one of a withdrawal that it was.
  same-IsConfirmed :
      (w : World) (db : Db) (r r' : Withdrawal)
      → request_of r ≡ request_of r'
      → IsConfirmed reg (backends w) db r
      → IsConfirmed reg (backends w) db r'
  same-IsConfirmed w db r r' same found = record {
    tx = found.tx;
    currency = found.currency;
    there = found.there;
    its = found.its ∙ ap (λ (x : Request). x.bundle) same;
    known = found.known;
    deep = found.deep;
  }

  -- From a consistent database, whatever the workers and the users do, in whatever order, a withdrawal that
  -- has completed or failed was finished before, or for one of the ticks of the verifier on the way, in the
  -- database that it found, the backends at the time of that tick had its transaction in a block with the
  -- confirmations that its network asks for. This is for a registry of disjoint platforms that finds each
  -- symbol by its name, fresh keys, and ticks of the verifier that go by the backends of their own world; on
  -- the strict reading for right counts of the pickers too.
  pub Ticks-IsConfirmed :
      {db db' : Db} (r' : Withdrawal)
      → IsConsistent reg strict (machine db)
      → (path : Ticks reg strict db db') → IsServedPath backends path
      → Has r' db'.withdrawals
      → IsFinished r'.status
      → WasThere db r'
        ⊎ ((w : World) × (mid : Db) × Has (w, mid) (verified_on path)
            × IsConfirmed reg (backends w) mid r')
  Ticks-IsConfirmed r' c start served there done = inl (r', there, refl)
  Ticks-IsConfirmed {db} r' c (tick {db' = mid} path t) served there done =
      let before = Ticks-IsConsistent reg strict d named c path in
      elim (Tick-IsConfirmed r' before t served.1 there done) [
        | inr (w, at_, found) ↦
            inr (w, mid, Has-append_right (w, mid) (verified_on path) (verified_by t) at_, found)
        | inl (r, hr, same) ↦
            let finished = subst IsFinished (ap (λ (x : Request). x.status) (sym same)) done in
            elim (Ticks-IsConfirmed r c path served.0 hr finished) [
              | inl (r₀, h₀, e) ↦ inl (r₀, h₀, e ∙ same)
              | inr (w, found_by, on_it, found) ↦ inr (
                w,
                found_by,
                Has-append_left (w, found_by) (verified_on path) (verified_by t) on_it,
                same-IsConfirmed w found_by r r' same found,
              )
            ]
      ]
