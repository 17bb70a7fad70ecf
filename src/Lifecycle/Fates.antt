-- ===== src/Lifecycle/Fates.antt =====
-- What becomes of a withdrawal: the end is the end.
use drx_wallet.Base.{
  false, ap, Has-insert_row, Has-update_where, Bool, ◌≡◌, sym, inl, inr, Bool-cases, ==_iff, arith,
  subst, Has, Has-append_left, Has-update_where_intro,
}
use drx_wallet.Base.Saves.{contains}
use drx_wallet.Schema.{Registry, IsDisjoint, WithdrawalStatus}
use drx_wallet.Lifecycle.{
  Machine, Request, ◌⟶◌, sign, send, take_back, complete, fail, Step, request, pick, move, Steps,
  here, next, IsConsistent, IsFinished, new_request, join_bundle, move_request, is_request_of,
}
use drx_wallet.Lifecycle.Keeps.Riders.{rider}
use drx_wallet.Lifecycle.Keeps.{Steps-IsConsistent}

module _ (reg : Registry) (strict : Bool) {m : Machine} (c : IsConsistent reg strict m) where
  ⟶-not-IsFinished : {s t : WithdrawalStatus} → s ⟶ t → ¬ IsFinished s
  ⟶-not-IsFinished sign f = ground arith
  ⟶-not-IsFinished send f = ground arith
  ⟶-not-IsFinished take_back f = ground arith
  ⟶-not-IsFinished complete f = ground arith
  ⟶-not-IsFinished fail f = ground arith

  finished-Step :
      {ends : Bool} {m' : Machine} (r : Request)
      → Step reg strict ends m m'
      → Has r m.requests
      → IsFinished r.status
      → Has r m'.requests
  finished-Step r (request id currency source fresh e) h f = rw e (Has-append_left r m.requests _ h)
  finished-Step r (pick platform currency source ids k may e) h f =
      rw e (elim (Bool-cases (contains r.id ids)) [
        | inl t ↦ let new = (may.eligible r h t).0 in absurd (ground arith)
        | inr n ↦
            rw n at (
              Has-update_where_intro (λ x. contains x.id ids) (join_bundle k source) r m.requests h)
      ])
  finished-Step r (move b s hb edge free may_end e) h f =
      rw e (elim (Bool-cases (is_request_of b.id r)) [
        | inl t ↦
            let same = (rider reg strict m c b r hb h ((==_iff r.bundle b.id).0 t)).0 in
            absurd (⟶-not-IsFinished edge (subst IsFinished (sym same) f))
        | inr n ↦
            rw n at (Has-update_where_intro (is_request_of b.id) (move_request s) r m.requests h)
      ])

module _ (reg : Registry) (strict : Bool) (d : IsDisjoint reg) where
  -- After it has completed or failed, a request never changes again.
  pub finished_stays :
      {ends : Bool} {m m' : Machine} (r : Request)
      → IsConsistent reg strict m
      → Steps reg strict ends m m'
      → Has r m.requests
      → IsFinished r.status
      → Has r m'.requests
  finished_stays r c here h f = h
  finished_stays r c (next path st) h f =
      finished-Step reg strict (Steps-IsConsistent reg strict d c path) r st
        (finished_stays r c path h f) f

-- A step that may not end a bundle finishes no request.
pub Step-IsFinished :
    (reg : Registry) (strict : Bool) {m m' : Machine} (r : Request)
    → Step reg strict false m m'
    → Has r m'.requests
    → IsFinished r.status
    → Has r m.requests
Step-IsFinished reg strict {m} r (request id currency source fresh e) h f =
    elim (Has-insert_row r (new_request id currency source) m.requests
      (subst (λ (x : Machine). Has r x.requests) e h)) [
        | inl old ↦ old
        | inr new ↦ absurd (ground (arith, ap (λ (x : Request). x.status) new))
      ]
Step-IsFinished reg strict {m} r (pick platform currency source ids k may e) h f =
    let (r₀, h₀, own) =
      Has-update_where (λ x. contains x.id ids) (join_bundle k source) r m.requests
        (subst (λ (x : Machine). Has r x.requests) e h) in
    elim (Bool-cases (contains r₀.id ids)) [
      | inl t ↦
          let joined : r ≡ join_bundle k source r₀ = rw t at own in
          absurd (ground (arith, ap (λ (x : Request). x.status) joined))
      | inr n ↦ let same : r ≡ r₀ = rw n at own in rw same h₀
    ]
Step-IsFinished reg strict {m} r (move b s hb edge free may_end e) h f =
    let (r₀, h₀, own) =
      Has-update_where (is_request_of b.id) (move_request s) r m.requests
        (subst (λ (x : Machine). Has r x.requests) e h) in
    elim (Bool-cases (is_request_of b.id r₀)) [
      | inl t ↦
          let moved : r ≡ move_request s r₀ = rw t at own in
          cc (may_end (subst IsFinished (ap (λ (x : Request). x.status) moved) f))
      | inr n ↦ let same : r ≡ r₀ = rw n at own in rw same h₀
    ]

pub Steps-IsFinished :
    (reg : Registry) (strict : Bool) {m m' : Machine} (r : Request)
    → Steps reg strict false m m'
    → Has r m'.requests
    → IsFinished r.status
    → Has r m.requests
Steps-IsFinished reg strict r here h f = h
Steps-IsFinished reg strict r (next path st) h f =
    Steps-IsFinished reg strict r path (Step-IsFinished reg strict r st h f) f
