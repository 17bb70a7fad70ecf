-- ===== src/Tests/Withdrawals.antt =====
-- The withdrawal of the fixtures.
use drx_wallet.RawDb.Balances.{settle_withdrawal}
use drx_wallet.Workers.Verifier.{finish_withdrawal}
use drx_wallet.RawDb.Logs.{insert_withdrawal_log, insert_webhook_progress}
use drx_wallet.Workers.Sender.{update_both}
use drx_wallet.Workers.Signer.{store_signed}
use drx_wallet.RawDb.HotWallets.{
  find_sufficient_hot_wallet, check_hot_wallet_is_sufficient, get_one_hot_wallet,
  check_hot_wallet_is_busy,
}
use drx_wallet.RawDb.Picking.{
  get_next_picked_withdrawals, do_picking_withdrawals, find_one_withdrawal_tx,
}
use drx_wallet.Base.{
  true, false, str_eq, ◌≡◌, ◌≤◌, refl, inl, ◌&&◌, none, [], ◌∷◌, count_where, Has, map, find_oldest,
  sort_by,
}
use drx_wallet.Base.Int.{pos, ◌+ℤ◌}
use drx_wallet.Base.Outcome.{ok}
use drx_wallet.Schema.{Db, Withdrawal, WithdrawalStatus}
use drx_wallet.Base.{subst, sym}
use drx_wallet.Schema.{WithdrawalTx, is_signed_or_sent}
use drx_wallet.Workers.Picker.{picker_do_process}
use drx_wallet.Workers.Signer.{signer_do_process}
use drx_wallet.Workers.Sender.{sender_do_process}
use drx_wallet.Workers.Verifier.{verifier_do_process}
use drx_wallet.Workers.Requests.{insert_withdrawal_record}
use drx_wallet.Lifecycle.{machine, request_of, Steps, IsConsistent}
use drx_wallet.Lifecycle.Keeps.{Steps-IsConsistent}
use drx_wallet.Lifecycle.Ticks.{
  Tick, Ticks, start, tick, Ticks-refine, Ticks-IsConsistent, one_signed_per_hot_wallet,
  finished_is_final,
}
use drx_wallet.Tests.Fixtures.{
  registry, registry-IsDisjoint, registry-IsNamed, world, later_world, world-IsFresh,
  world-CountsPending, later_world-IsFresh, new_db, new_db-IsConsistent, asked_db, picked_db,
  signed_db, sent_db, completed_db, completed_row,
}

status_of : Withdrawal → WithdrawalStatus
status_of r = r.status

asked_status : map status_of asked_db.withdrawals ≡ WithdrawalStatus.unsigned ∷ []
unfolding asked_db status_of
asked_status = refl

picked_status : map status_of picked_db.withdrawals ≡ WithdrawalStatus.signing ∷ []
unfolding picked_db status_of get_next_picked_withdrawals find_oldest sort_by
    find_sufficient_hot_wallet ◌+ℤ◌ check_hot_wallet_is_sufficient do_picking_withdrawals
picked_status = refl

completed_status : map status_of completed_db.withdrawals ≡ WithdrawalStatus.completed ∷ []
unfolding completed_db status_of find_one_withdrawal_tx find_oldest get_next_picked_withdrawals
    sort_by find_sufficient_hot_wallet ◌+ℤ◌ check_hot_wallet_is_sufficient do_picking_withdrawals
    get_one_hot_wallet check_hot_wallet_is_busy store_signed update_both insert_withdrawal_log
    insert_webhook_progress finish_withdrawal settle_withdrawal
completed_status = refl

-- The ticks of the fixtures.
withdrawal_path : Ticks registry true new_db completed_db
unfolding completed_db
withdrawal_path =
    tick
      (tick
        (tick
          (tick
            (tick start
              (Tick.ask world world-IsFresh "btc" 1 "to" (pos 100) none "TMP_WITHDRAWAL_TX"))
            (Tick.pick world world-IsFresh (λ yes_. world-CountsPending) "btc"))
          (Tick.sign world "btc"))
        (Tick.send world "btc"))
      (Tick.verify later_world "btc")

Ticks-refine_example : Steps registry true true (machine new_db) (machine completed_db)
Ticks-refine_example =
    Ticks-refine registry true registry-IsDisjoint registry-IsNamed (new_db-IsConsistent true)
      withdrawal_path

Ticks-IsConsistent_example : IsConsistent registry true (machine completed_db)
Ticks-IsConsistent_example =
    Ticks-IsConsistent registry true registry-IsDisjoint registry-IsNamed (new_db-IsConsistent true)
      withdrawal_path

sent_path : Ticks registry false new_db sent_db
unfolding sent_db
sent_path =
    tick
      (tick
        (tick
          (tick start
            (Tick.ask world world-IsFresh "btc" 1 "to" (pos 100) none "TMP_WITHDRAWAL_TX"))
          (Tick.pick world world-IsFresh (λ no. world-CountsPending) "btc"))
        (Tick.sign world "btc"))
      (Tick.send world "btc")

one_signed_per_hot_wallet_example :
    count_where
      (λ (t : WithdrawalTx). str_eq t.hot_wallet_address "hot" && is_signed_or_sent t.status)
      sent_db.withdrawal_txs
    ≤ 1
one_signed_per_hot_wallet_example =
    one_signed_per_hot_wallet registry false registry-IsDisjoint registry-IsNamed "hot"
      (new_db-IsConsistent false) sent_path

completed-IsConsistent : IsConsistent registry true (machine completed_db)
completed-IsConsistent =
    Steps-IsConsistent registry true registry-IsDisjoint (new_db-IsConsistent true) (
      Ticks-refine registry true registry-IsDisjoint registry-IsNamed (new_db-IsConsistent true)
        withdrawal_path)

completed_rows : completed_db.withdrawals ≡ completed_row ∷ []
unfolding completed_db find_one_withdrawal_tx find_oldest get_next_picked_withdrawals sort_by
    find_sufficient_hot_wallet ◌+ℤ◌ check_hot_wallet_is_sufficient do_picking_withdrawals
    get_one_hot_wallet check_hot_wallet_is_busy store_signed update_both insert_withdrawal_log
    insert_webhook_progress finish_withdrawal settle_withdrawal
completed_rows = refl

completed_row-Has : Has completed_row completed_db.withdrawals
completed_row-Has = subst (λ rows. Has completed_row rows) (sym completed_rows) (inl refl)

unfoldable again_db : Db
unfolding insert_withdrawal_record
again_db = insert_withdrawal_record later_world "btc" 1 "to" (pos 50) none "TMP_AGAIN" completed_db

another_path : Ticks registry true completed_db again_db
unfolding again_db
another_path =
    tick start (Tick.ask later_world later_world-IsFresh "btc" 1 "to" (pos 50) none "TMP_AGAIN")

finished_is_final_example :
    (r : Withdrawal) × Has r again_db.withdrawals × (request_of completed_row ≡ request_of r)
finished_is_final_example =
    finished_is_final registry true registry-IsDisjoint registry-IsNamed completed_row
      completed-IsConsistent another_path completed_row-Has (inl refl)

picked : picker_do_process registry world "btc" asked_db ≡ ok picked_db
unfolding picked_db get_next_picked_withdrawals find_oldest sort_by find_sufficient_hot_wallet ◌+ℤ◌
    check_hot_wallet_is_sufficient do_picking_withdrawals
picked = refl

signed_ : signer_do_process registry world "btc" picked_db ≡ ok signed_db
unfolding signed_db find_one_withdrawal_tx find_oldest get_next_picked_withdrawals sort_by
    find_sufficient_hot_wallet ◌+ℤ◌ check_hot_wallet_is_sufficient do_picking_withdrawals
    get_one_hot_wallet check_hot_wallet_is_busy
signed_ = refl

sent_ : sender_do_process registry world "btc" signed_db ≡ ok sent_db
unfolding sent_db find_one_withdrawal_tx find_oldest get_next_picked_withdrawals sort_by
    find_sufficient_hot_wallet ◌+ℤ◌ check_hot_wallet_is_sufficient do_picking_withdrawals
    get_one_hot_wallet check_hot_wallet_is_busy store_signed update_both
sent_ = refl

verified : verifier_do_process registry later_world "btc" sent_db ≡ ok completed_db
unfolding completed_db find_one_withdrawal_tx find_oldest get_next_picked_withdrawals sort_by
    find_sufficient_hot_wallet ◌+ℤ◌ check_hot_wallet_is_sufficient do_picking_withdrawals
    get_one_hot_wallet check_hot_wallet_is_busy store_signed update_both insert_withdrawal_log
    insert_webhook_progress finish_withdrawal settle_withdrawal
verified = refl

abbrev asked_row : Withdrawal
asked_row = record completed_row {
  withdrawal_tx_id = 0;
  txid = "TMP_WITHDRAWAL_TX";
  from_address = "TMP_ADDRESS";
  status = WithdrawalStatus.unsigned;
  updated_at = 5;
}

next_picked : get_next_picked_withdrawals registry world "btc" asked_db ≡ asked_row ∷ []
unfolding get_next_picked_withdrawals asked_db find_oldest sort_by
next_picked = refl
