-- ===== src/Lifecycle/Keeps.antt =====
-- Every step of the machine keeps its invariant.
pub mod Moves
pub mod Picks
pub mod Riders
use drx_wallet.Base.{
  Bool, ℕ, ◌<◌, ◌≤◌, ◌≡◌, ◌≢◌, refl, sym, ◌∙◌, inl, inr, subst, true, false, List, [], ◌∷◌, String,
  ◌==◌, if◌then◌else◌, Bool-cases, ==_iff, &&-eq-true, arith, update_where, insert_row, count_where,
  Has, Has-append_left, Has-append_last, Has-insert_row, Has-update_where, Has-update_where_intro,
  count_where-append, count_where_zero, count_where-update_le,
}
use drx_wallet.Base.Saves.{contains, Unique-eq, Unique-insert_row, Unique-update_where, update_ids}
use drx_wallet.Schema.{Registry, on_platform, IsDisjoint, WithdrawalStatus, is_pending}
use drx_wallet.Lifecycle.{
  Machine, Request, Bundle, ◌⟶◌, sign, send, take_back, complete, fail, Step, request, pick, move,
  Steps, here, next, MayPick, IsLinked, IsConsistent, is_under_way, request_id, bundle_id,
  new_request, new_bundle, join_bundle, move_request, move_bundle, is_request_of, is_bundle,
}
use drx_wallet.Lifecycle.Keeps.Moves.{request-IsConsistent, move-IsConsistent}
use drx_wallet.Lifecycle.Keeps.Picks.{pick-IsConsistent}

module _ (reg : Registry) (strict : Bool) (d : IsDisjoint reg) where
  -- One step.
  pub Step-IsConsistent :
      {ends : Bool} {m m' : Machine}
      → IsConsistent reg strict m
      → Step reg strict ends m m'
      → IsConsistent reg strict m'
  Step-IsConsistent {m = m} c (request id currency source fresh e) =
      rw e (request-IsConsistent reg strict m c id currency source fresh)
  Step-IsConsistent {m = m} c (pick platform currency source ids k may e) =
      rw e (pick-IsConsistent reg strict m c d platform currency source ids k may)
  Step-IsConsistent {m = m} c (move b s hb edge free may_end e) =
      rw e (move-IsConsistent reg strict m c b s hb edge free)

  -- Any number of steps.
  pub Steps-IsConsistent :
      {ends : Bool} {m m' : Machine}
      → IsConsistent reg strict m
      → Steps reg strict ends m m'
      → IsConsistent reg strict m'
  Steps-IsConsistent c here = c
  Steps-IsConsistent c (next path st) = Step-IsConsistent (Steps-IsConsistent c path) st
