-- ===== src/Webhooks.antt =====
-- libs/wallet-core/src/WebhookProcessor.ts and rawdb/insertWebhookLog.ts: one call of a webhook in each
-- tick. The request is the argument `fetch`: the status of the answer, or an error.
pub mod Delivery
use drx_wallet.Base.{
  ℕ, Bool, true, false, not, ◌==◌, Option, none, some, List, [], ◌∷◌, String, str_eq, if◌then◌else◌,
  find_first, find_oldest, update_where, insert_row,
}
use drx_wallet.Base.Outcome.{Outcome, ok, err, Error, ◌>>=◌, or_throw}
use drx_wallet.Schema.{
  Db, World, Registry, Currency, Webhook, WebhookProgress, WebhookType, WebhookEvent, WebhookLog,
  Deposit, Withdrawal,
}

-- What `_getRefData` returns.
pub data RefData : Type 0 where
  deposit_data : Deposit → RefData
  withdrawal_data : Withdrawal → RefData

pub record Fetch : Type 0 where
  pub post : String → WebhookType → WebhookEvent → RefData → Outcome ℕ

abbrev pub progress_age : WebhookProgress → ℕ
progress_age p = p.updated_at

abbrev pub is_waiting : WebhookProgress → Bool
is_waiting p = not p.is_processed

abbrev pub is_hook : ℕ → Webhook → Bool
is_hook id hook = hook.id == id

abbrev pub is_progress : ℕ → WebhookProgress → Bool
is_progress id p = p.id == id

-- A deposit is shown with the symbol of its currency on the network.
unfoldable pub get_ref_data : Registry → WebhookType → ℕ → Db → Outcome RefData
get_ref_data reg WebhookType.deposit ref_id db = do
  d ← or_throw Error.entity_not_found (find_first (λ (r : Deposit). r.id == ref_id) db.deposits)
  c ← reg.get_one_currency d.currency
  ok (RefData.deposit_data (record d { currency = c.network_symbol }))
get_ref_data reg WebhookType.withdrawal ref_id db = do
  r ←
      or_throw Error.entity_not_found
        (find_first (λ (r : Withdrawal). r.id == ref_id) db.withdrawals)
  ok (RefData.withdrawal_data r)

-- An error counts as the status zero.
abbrev pub answered_status : Outcome ℕ → ℕ
answered_status (ok status) = status
answered_status (err e) = 0

abbrev pub set_called : World → ℕ → WebhookProgress → WebhookProgress
set_called w status p = record p { is_processed = status == 200; updated_at = w.now }

abbrev pub call_log : World → ℕ → String → ℕ → WebhookLog
call_log w progress_id url status = record {
  progress_id = progress_id;
  url = url;
  status = status;
  created_at = w.now;
}

unfoldable pub store_call : World → WebhookProgress → String → ℕ → Db → Db
store_call w p url status db = record db {
  webhook_logs = insert_row (call_log w p.id url status) db.webhook_logs;
  webhook_progresses = update_where (is_progress p.id) (set_called w status) db.webhook_progresses;
}

abbrev pub call_hook : Registry → World → Fetch → WebhookProgress → Webhook → Db → Outcome Db
call_hook reg w fetch p hook db =
    if str_eq hook.url ""
    then ok db
    else get_ref_data reg p.type p.ref_id db >>= λ data_.
        ok (store_call w p hook.url (answered_status (fetch.post hook.url p.type p.event data_)) db)

abbrev pub call_progress : Registry → World → Fetch → Option WebhookProgress → Db → Outcome Db
call_progress reg w fetch none db = ok db
call_progress reg w fetch (some p) db =
    or_throw Error.invalid_webhook_id (find_first (is_hook p.webhook_id) db.webhooks) >>= λ hook.
    call_hook reg w fetch p hook db

-- What the `catch` leaves: nothing was written before an error.
abbrev pub caught : Outcome Db → Db → Db
caught (ok after) db = after
caught (err e) db = db

-- `WebhookProcessor.doProcess`
unfoldable pub webhook_do_process : Registry → World → Fetch → Db → Db
unfolding store_call get_ref_data
webhook_do_process reg w fetch db =
    caught
      (call_progress reg w fetch (find_oldest progress_age is_waiting db.webhook_progresses) db) db

-- A tick of its own world and answers.
pub record Call : Type 0 where
  pub world : World
  pub fetch : Fetch

abbrev pub webhook_run : Registry → List Call → Db → Db
webhook_run reg [] db = db
webhook_run reg (call ∷ calls) db =
    webhook_run reg calls (webhook_do_process reg call.world call.fetch db)
