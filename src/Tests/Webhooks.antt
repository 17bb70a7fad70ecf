-- ===== src/Tests/Webhooks.antt =====
-- Two progresses of a withdrawal: one was delivered, the other one waits.
use drx_wallet.Base.{
  ◌==◌, ◌⊎◌, ℕ, ◌≡◌, find_oldest, refl, sym, ap, inl, inr, Bool, true, false, [], ◌∷◌, String, Has,
  find_oldest,
}
use drx_wallet.Base.Int.{pos}
use drx_wallet.Base.Outcome.{Outcome, ok, err, Error}
use drx_wallet.Schema.{
  Db, Withdrawal, WithdrawalStatus, WithdrawalEvent, Note, Webhook, WebhookProgress, WebhookType,
  WebhookEvent, WebhookLog,
}
use drx_wallet.Webhooks.{RefData, get_ref_data, Fetch, webhook_do_process, webhook_run}
use drx_wallet.Webhooks.Delivery.{
  IsDelivered, webhook_do_process-IsDelivered, oldest_is_called, webhook_queue_blocked,
}
use drx_wallet.Tests.Fixtures.{registry, world, later_world, new_db}

abbrev told_row : Withdrawal
told_row = record {
  id = 1;
  user_id = 1;
  wallet_id = 1;
  currency = "btc";
  withdrawal_tx_id = 1;
  txid = "txid";
  from_address = "hot";
  to_address = "to";
  amount = pos 100;
  status = WithdrawalStatus.completed;
  note = Note.untagged;
  created_at = 5;
  updated_at = 5;
}

abbrev hook_at : String → Webhook
hook_at url = record { id = 1; user_id = 1; url = url }

abbrev progress_of : ℕ → WithdrawalEvent → Bool → ℕ → WebhookProgress
progress_of id event is_processed updated_at = record {
  id = id;
  webhook_id = 1;
  type = WebhookType.withdrawal;
  ref_id = 1;
  event = WebhookEvent.withdrawal_event event;
  is_processed = is_processed;
  created_at = 1;
  updated_at = updated_at;
}

abbrev delivered_progress : WebhookProgress
delivered_progress = progress_of 1 WithdrawalEvent.picked true 1

abbrev waiting_progress : WebhookProgress
waiting_progress = progress_of 2 WithdrawalEvent.completed false 3

abbrev delivered_log : WebhookLog
delivered_log = record { progress_id = 1; url = "url"; status = 200; created_at = 1 }

abbrev hook_db : String → Db
hook_db url = record new_db {
  withdrawals = told_row ∷ [];
  webhooks = hook_at url ∷ [];
  webhook_progresses = delivered_progress ∷ waiting_progress ∷ [];
  webhook_logs = delivered_log ∷ [];
}

abbrev answering : ℕ → Fetch
answering status = record { post = λ url type event data_. ok status }

abbrev failing : Fetch
failing = record { post = λ url type event data_. err Error.invalid_webhook_id }

called_once :
    (webhook_do_process registry world (answering 200) (hook_db "url")).webhook_progresses
    ≡ delivered_progress ∷ progress_of 2 WithdrawalEvent.completed true 5 ∷ []
unfolding webhook_do_process find_oldest
called_once = refl

called_in_vain :
    (webhook_do_process registry world failing (hook_db "url")).webhook_progresses
    ≡ delivered_progress ∷ progress_of 2 WithdrawalEvent.completed false 5 ∷ []
unfolding webhook_do_process find_oldest
called_in_vain = refl

hook_db-IsDelivered : IsDelivered (hook_db "url")
hook_db-IsDelivered p (inl e) done =
    (delivered_log, inl refl, ap (λ (q : WebhookProgress). q.id) (sym e), refl)
hook_db-IsDelivered p (inr (inl e)) done = cc (rw e at done)
hook_db-IsDelivered p (inr (inr m)) done = elim m [ ]

webhook_do_process-IsDelivered_example :
    IsDelivered (webhook_do_process registry world (answering 200) (hook_db "url"))
webhook_do_process-IsDelivered_example =
    webhook_do_process-IsDelivered registry world (answering 200) (hook_db "url")
      hook_db-IsDelivered

oldest_is_called_example :
    (status : ℕ) × ((◌≡◌ {A = Outcome ℕ} (ok 200) (ok status))
      ⊎ ((status ≡ 0) × ((x : Error) × (◌≡◌ {A = Outcome ℕ} (ok 200) (err x)))))
    × Has
        (record waiting_progress { is_processed = status == 200; updated_at = 5 })
        (webhook_do_process registry world (answering 200) (hook_db "url")).webhook_progresses
    × Has
        (record { progress_id = 2; url = "url"; status = status; created_at = 5 })
        (webhook_do_process registry world (answering 200) (hook_db "url")).webhook_logs
unfolding get_ref_data find_oldest
oldest_is_called_example =
    oldest_is_called registry world (answering 200) (hook_db "url") waiting_progress (hook_at "url")
      (RefData.withdrawal_data told_row) refl refl refl refl

webhook_queue_blocked_example :
    webhook_run registry
      (record { world = world; fetch = answering 200 }
        ∷ record { world = later_world; fetch = answering 200 }
        ∷ [])
      (hook_db "")
    ≡ hook_db ""
unfolding find_oldest
webhook_queue_blocked_example =
    webhook_queue_blocked registry
      (record { world = world; fetch = answering 200 }
        ∷ record { world = later_world; fetch = answering 200 }
        ∷ [])
      (hook_db "") waiting_progress (hook_at "") refl refl refl
