-- ===== src/Lifecycle/Keeps/Picks.antt =====
-- Picking a group keeps the invariant of the machine.
use drx_wallet.Base.{
  Bool, ℕ, ◌≤◌, ◌≡◌, refl, inl, inr, true, false, List, [], ◌∷◌, String, Bool-cases, &&-eq-true,
  arith, insert_row, count_where, Has, Has-append_left, Has-append_last, Has-insert_row,
  Has-update_where, Has-update_where_intro, count_where-append, count_where_zero,
}
use drx_wallet.Base.Saves.{contains, Unique-insert_row, Unique-update_where, update_ids}
use drx_wallet.Schema.{Registry, on_platform, IsDisjoint, is_pending}
use drx_wallet.Lifecycle.{
  Machine, Request, Bundle, MayPick, IsLinked, IsConsistent, is_under_way, request_id, bundle_id,
  new_bundle, join_bundle, is_out_from,
}
use drx_wallet.Lifecycle.Keeps.Riders.{rider}

module _ (reg : Registry) (strict : Bool) (m : Machine) (c : IsConsistent reg strict m) where
  module _ (d : IsDisjoint reg) (platform currency source : String) (ids : List ℕ) (k : ℕ)
      (may : MayPick reg strict m platform currency ids k) where
    abbrev pub picked_requests : List Request
    picked_requests = update_ids request_id ids (join_bundle k source) m.requests

    abbrev pub picked_bundles : List Bundle
    picked_bundles = insert_row (new_bundle k currency source) m.bundles

    picked-IsLinked : (r : Request) → Has r picked_requests → IsLinked picked_bundles r
    picked-IsLinked r h =
        let (r₀, h₀, e) =
          Has-update_where (λ x. contains x.id ids) (join_bundle k source) r m.requests h in
        elim (Bool-cases (contains r₀.id ids)) [
          | inl t ↦
              let joined : r ≡ join_bundle k source r₀ = rw t at e in
              let same = (may.eligible r₀ h₀ t).1 in
              inr (
                new_bundle k currency source,
                Has-append_last (new_bundle k currency source) m.bundles,
                ground arith,
                ground arith,
                ground arith,
                ground arith,
              )
          | inr n ↦ let same : r ≡ r₀ = rw n at e in rw same (still_linked r₀ (c.linked r₀ h₀))
        ]
      where
        still_linked : (x : Request) → IsLinked m.bundles x → IsLinked picked_bundles x
        still_linked x (inl new) = inl new
        still_linked x (inr (b, hb, ids_, statuses, currencies, sources)) =
            inr (b, Has-append_left b m.bundles _ hb, ids_, statuses, currencies, sources)

    -- A request of a bundle under way is not among those that are picked.
    not_picked :
        (b : Bundle) (r : Request)
        → Has b m.bundles
        → is_pending b.status ≡ true
        → Has r m.requests
        → r.bundle ≡ b.id
        → contains r.id ids ≡ false
    not_picked b r hb p hr e = elim (Bool-cases (contains r.id ids)) [
      | inl t ↦
          let new = (may.eligible r hr t).0 in
          let same = (rider reg strict m c b r hb hr e).0 in ground arith
      | inr n ↦ n
    ]

    picked_carried :
        (b : Bundle)
        → Has b picked_bundles
        → is_pending b.status ≡ true
        → (r : Request) × Has r picked_requests × (r.bundle ≡ b.id)
    picked_carried b h p = elim (Has-insert_row b (new_bundle k currency source) m.bundles h) [
      | inl old ↦
          let (r, hr, e) = c.carried b old p in
          let stays = not_picked b r old p hr e in
          (
            r,
            rw stays at (
                Has-update_where_intro (λ x. contains x.id ids) (join_bundle k source) r m.requests
                  hr),
            e,
          )
      | inr new ↦
          let (r, hr, t) = may.some_request in
          (
            join_bundle k source r,
            rw t at (
                Has-update_where_intro (λ x. contains x.id ids) (join_bundle k source) r m.requests
                  hr),
            rw new,
          )
    ]

    -- No bundle of the platform is under way, since its requests would be.
    none_under_way : strict ≡ true → count_where (is_under_way reg platform) m.bundles ≡ 0
    none_under_way yes_ = count_where_zero (is_under_way reg platform) m.bundles (λ b hb.
        elim (Bool-cases (is_under_way reg platform b)) [
          | inl u ↦
              let (here_, p) =
                &&-eq-true (on_platform reg platform b.currency) (is_pending b.status) u in
              let (r, hr, e) = c.carried b hb p in
              let (statuses, currencies, sources) = rider reg strict m c b r hb hr e in
              let busy : is_pending r.status ≡ true = rw statuses at p in
              let located : on_platform reg platform r.currency ≡ true = rw currencies at here_ in
              cc (busy, may.idle yes_ r hr located)
          | inr n ↦ n
        ])

    picked_exclusive :
        strict ≡ true → (p : String) → count_where (is_under_way reg p) picked_bundles ≤ 1
    picked_exclusive yes_ p =
        let total =
          count_where-append (is_under_way reg p) m.bundles (new_bundle k currency source ∷ []) in
        elim (Bool-cases (on_platform reg p currency)) [
          | inl t ↦
              let same : p ≡ platform = d.one_platform p platform currency t may.on_it in
              let empty : count_where (is_under_way reg p) m.bundles ≡ 0 =
                rw same (none_under_way yes_) in
              ground arith
          | inr n ↦ let before = c.exclusive yes_ p in ground arith
        ]

    -- The new bundle is not signed yet.
    picked_one_signed : (s : String) → count_where (is_out_from s) picked_bundles ≤ 1
    picked_one_signed s = ground (
      arith,
      c.one_signed s,
      count_where-append (is_out_from s) m.bundles (new_bundle k currency source ∷ []),
    )

    pub pick-IsConsistent :
        IsConsistent reg strict (record { requests = picked_requests; bundles = picked_bundles })
    pick-IsConsistent = record {
      request_ids = Unique-update_where request_id _ _ m.requests (λ r. refl) c.request_ids;
      bundle_ids = Unique-insert_row bundle_id _ m.bundles c.bundle_ids may.new_key;
      positive_ids = λ b h. elim (Has-insert_row b (new_bundle k currency source) m.bundles h) [
        | inl old ↦ c.positive_ids b old
        | inr e ↦ rw e may.positive
      ];
      linked = picked-IsLinked;
      carried = picked_carried;
      exclusive = picked_exclusive;
      one_signed = picked_one_signed;
    }
