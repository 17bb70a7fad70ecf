-- ===== src/Lifecycle/Keeps/Moves.antt =====
-- A new request and a change of status keep the invariant of the machine.
use drx_wallet.Base.{
  Bool, ℕ, ◌<◌, ◌≤◌, ◌≡◌, ◌≢◌, refl, sym, inl, inr, subst, true, List, String, ◌==◌, if◌then◌else◌,
  Bool-cases, ==_iff, &&-eq-true, arith, update_where, insert_row, count_where, Has,
  Has-append_left, Has-insert_row, Has-update_where, Has-update_where_intro, count_where-update_le,
  count_where-update_add, count_where_zero, str_eq, eq_iff, ap, ◌∙◌, ◌⊎◌,
}
use drx_wallet.Base.Saves.{Unique-count, Unique-eq, Unique-insert_row, Unique-update_where}
use drx_wallet.Schema.{Registry, on_platform, WithdrawalStatus, is_pending, is_signed_or_sent}
use drx_wallet.Lifecycle.{
  Machine, Request, Bundle, ◌⟶◌, sign, send, take_back, complete, fail, IsLinked, IsConsistent,
  is_under_way, request_id, bundle_id, new_request, move_request, move_bundle, is_request_of,
  is_bundle, is_out_from, IsFree,
}
use drx_wallet.Lifecycle.Keeps.Riders.{rider}

module _ (reg : Registry) (strict : Bool) (m : Machine) (c : IsConsistent reg strict m) where
  pub request-IsConsistent :
      (id : ℕ) (currency source : String)
      → ((r : Request) → Has r m.requests → id ≢ r.id)
      → IsConsistent reg strict
          (record m { requests = insert_row (new_request id currency source) m.requests })
  request-IsConsistent id currency source fresh = record {
    request_ids = Unique-insert_row request_id _ m.requests c.request_ids fresh;
    bundle_ids = c.bundle_ids;
    positive_ids = c.positive_ids;
    linked = λ r h. elim (Has-insert_row r (new_request id currency source) m.requests h) [
      | inl old ↦ c.linked r old
      | inr e ↦ inl (rw e, rw e)
    ];
    carried =
        λ b h p. let (r, hr, e) = c.carried b h p in (r, Has-append_left r m.requests _ hr, e);
    exclusive = c.exclusive;
    one_signed = c.one_signed;
  }

  -- What leaves a status is under way.
  ⟶-pending : {s t : WithdrawalStatus} → s ⟶ t → is_pending s ≡ true
  ⟶-pending sign = refl
  ⟶-pending send = refl
  ⟶-pending take_back = refl
  ⟶-pending complete = refl
  ⟶-pending fail = refl

  signed_or_sent-pending : (s : WithdrawalStatus) → is_signed_or_sent s ≡ true → is_pending s ≡ true
  signed_or_sent-pending WithdrawalStatus.unsigned e = cc
  signed_or_sent-pending WithdrawalStatus.signing e = refl
  signed_or_sent-pending WithdrawalStatus.signed e = refl
  signed_or_sent-pending WithdrawalStatus.sent e = refl
  signed_or_sent-pending WithdrawalStatus.completed e = cc
  signed_or_sent-pending WithdrawalStatus.failed e = cc
  signed_or_sent-pending WithdrawalStatus.invalid e = cc

  -- What becomes signed or sent was being signed, or was so before.
  ⟶-out :
      {s t : WithdrawalStatus}
      → s ⟶ t
      → (s ≡ WithdrawalStatus.signing) ⊎ (is_signed_or_sent t ≡ true → is_signed_or_sent s ≡ true)
  ⟶-out sign = inl refl
  ⟶-out send = inr (λ e. refl)
  ⟶-out take_back = inr (λ e. refl)
  ⟶-out complete = inr (λ e. refl)
  ⟶-out fail = inr (λ e. refl)

  module _ (b : Bundle) (s : WithdrawalStatus) (hb : Has b m.bundles) (edge : b.status ⟶ s)
      (free : IsFree m b) where
    abbrev pub moved_requests : List Request
    moved_requests = update_where (is_request_of b.id) (move_request s) m.requests

    abbrev pub moved_bundles : List Bundle
    moved_bundles = update_where (is_bundle b.id) (move_bundle s) m.bundles

    moved-IsLinked : (r : Request) → Has r moved_requests → IsLinked moved_bundles r
    moved-IsLinked r h =
        let (r₀, h₀, e) = Has-update_where (is_request_of b.id) (move_request s) r m.requests h in
        elim (c.linked r₀ h₀) [
          | inl (none_yet, new) ↦
              let apart : b.id ≢ r₀.bundle = omega (arith, c.positive_ids b hb) in
              inl (ground arith)
          | inr (x, hx, ids, statuses, currencies, sources) ↦ inr (
            if x.id == b.id then move_bundle s x else x,
            Has-update_where_intro (is_bundle b.id) (move_bundle s) x m.bundles hx,
            ground arith,
            ground arith,
            ground arith,
            ground arith,
          )
        ]

    same_bundle : (x : Bundle) → Has x m.bundles → is_bundle b.id x ≡ true → x ≡ b
    same_bundle x hx e =
        Unique-eq bundle_id x b m.bundles c.bundle_ids hx hb ((==_iff x.id b.id).0 e)

    was_pending :
        (x x₀ : Bundle)
        → Has x₀ m.bundles
        → x ≡ (if is_bundle b.id x₀ then move_bundle s x₀ else x₀)
        → is_pending x.status ≡ true
        → is_pending x₀.status ≡ true
    was_pending x x₀ h₀ e p = elim (Bool-cases (is_bundle b.id x₀)) [
      | inl t ↦ rw (same_bundle x₀ h₀ t) (⟶-pending edge)
      | inr n ↦ subst (λ y. is_pending y.status ≡ true) (rw n at e) p
    ]

    moved_carried :
        (x : Bundle)
        → Has x moved_bundles
        → is_pending x.status ≡ true
        → (r : Request) × Has r moved_requests × (r.bundle ≡ x.id)
    moved_carried x h p =
        let (x₀, h₀, e) = Has-update_where (is_bundle b.id) (move_bundle s) x m.bundles h in
        let (r, hr, er) = c.carried x₀ h₀ (was_pending x x₀ h₀ e p) in
        (
          if r.bundle == b.id then move_request s r else r,
          Has-update_where_intro (is_request_of b.id) (move_request s) r m.requests hr,
          ground arith,
        )

    moved_exclusive :
        strict ≡ true → (p : String) → count_where (is_under_way reg p) moved_bundles ≤ 1
    moved_exclusive yes_ p = omega (
      arith,
      c.exclusive yes_ p,
      count_where-update_le (is_under_way reg p) (is_bundle b.id) (move_bundle s) m.bundles
          (λ x hx e u.
            let located = (&&-eq-true (on_platform reg p x.currency) (is_pending s) u).0 in
            let before : is_pending x.status ≡ true =
              subst (λ y. is_pending y.status ≡ true) (sym (same_bundle x hx e)) (⟶-pending edge) in
            rw (located, before)),
    )

    -- Where a bundle is signed, none of its source is signed or sent: its request would be.
    none_out :
        b.status ≡ WithdrawalStatus.signing → count_where (is_out_from b.source) m.bundles ≡ 0
    none_out signing = count_where_zero (is_out_from b.source) m.bundles (λ x hx.
        elim (Bool-cases (is_out_from b.source x)) [
          | inl out ↦
              let (same, busy) = &&-eq-true (str_eq x.source b.source) _ out in
              let (r, hr, e) = c.carried x hx (signed_or_sent-pending x.status busy) in
              let (statuses, currencies, sources) = rider reg strict m c x r hx hr e in
              let quiet = free signing r hr (sym sources ∙ (eq_iff x.source b.source).0 same) in
              cc (busy, statuses, quiet)
          | inr n ↦ n
        ])

    -- A move that makes no bundle count for a source.
    no_more :
        (source : String)
        → ((x : Bundle)
            → x ≡ b
            → is_out_from source (move_bundle s x) ≡ true
            → is_out_from source x ≡ true)
        → count_where (is_out_from source) moved_bundles ≤ 1
    no_more source keeps = omega (
      arith,
      c.one_signed source,
      count_where-update_le (is_out_from source) (is_bundle b.id) (move_bundle s) m.bundles
          (λ x hx e out. keeps x (same_bundle x hx e) out),
    )

    moved_one_signed : (source : String) → count_where (is_out_from source) moved_bundles ≤ 1
    moved_one_signed source = elim (Bool-cases (str_eq b.source source)) [
      | inl t ↦ elim (⟶-out edge) [
        | inl signing ↦
            let empty : count_where (is_out_from source) m.bundles ≡ 0 =
              rw (← (eq_iff b.source source).0 t) (none_out signing) in
            omega (
              arith,
              empty,
              count_where-update_add (is_out_from source) (is_bundle b.id) (move_bundle s)
                  m.bundles,
              Unique-count bundle_id b.id m.bundles c.bundle_ids,
            )
        | inr before ↦
            no_more source
              (λ x same out. rw same (rw (t, before (&&-eq-true (str_eq x.source source) _ out).1)))
      ]
      | inr n ↦ no_more source (λ x same out.
          let its = (&&-eq-true (str_eq x.source source) _ out).0 in
          cc (ap (λ (y : Bundle). str_eq y.source source) same, its, n))
    ]

    moved_positive : (x : Bundle) → Has x moved_bundles → 0 < x.id
    moved_positive x h =
        let (x₀, h₀, e) = Has-update_where (is_bundle b.id) (move_bundle s) x m.bundles h in
        let before = c.positive_ids x₀ h₀ in ground arith

    pub move-IsConsistent :
        IsConsistent reg strict (record { requests = moved_requests; bundles = moved_bundles })
    move-IsConsistent = record {
      request_ids = Unique-update_where request_id _ _ m.requests (λ r. refl) c.request_ids;
      bundle_ids = Unique-update_where bundle_id _ _ m.bundles (λ x. refl) c.bundle_ids;
      positive_ids = moved_positive;
      linked = moved-IsLinked;
      carried = moved_carried;
      exclusive = moved_exclusive;
      one_signed = moved_one_signed;
    }
