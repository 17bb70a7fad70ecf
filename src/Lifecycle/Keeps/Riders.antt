-- ===== src/Lifecycle/Keeps/Riders.antt =====
-- The withdrawals of a transaction: they have its status, its currency and its sender.
use drx_wallet.Base.{Bool, ◌≡◌, ◌∙◌, inl, inr, arith, Has}
use drx_wallet.Base.Saves.{Unique-eq}
use drx_wallet.Schema.{Registry}
use drx_wallet.Lifecycle.{Machine, Request, Bundle, IsConsistent, bundle_id}

module _ (reg : Registry) (strict : Bool) (m : Machine) (c : IsConsistent reg strict m) where
  -- A request in a bundle that exists has the bundle's status, currency and source.
  pub rider :
      (b : Bundle) (r : Request)
      → Has b m.bundles
      → Has r m.requests
      → r.bundle ≡ b.id
      → (b.status ≡ r.status) × (b.currency ≡ r.currency) × (b.source ≡ r.source)
  rider b r hb hr e = elim (c.linked r hr) [
    | inl (none_yet, new) ↦ absurd (omega (arith, c.positive_ids b hb))
    | inr (x, hx, same_id, statuses, currencies, sources) ↦
        let same = Unique-eq bundle_id x b m.bundles c.bundle_ids hx hb (same_id ∙ e) in
        (rw (← same) statuses, rw (← same) currencies, rw (← same) sources)
  ]
