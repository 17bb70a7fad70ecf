-- ===== src/RawDb/Logs.antt =====
-- insertWebhookProgress.ts, insertWithdrawalLog.ts, insertWithdrawalLogs.ts, insertWalletLog.ts and
-- insertDepositLog.ts: rows that are only added.
use drx_wallet.Base.{
  ℕ, false, Option, none, some, List, [], ◌∷◌, ◌++◌, map, String, ◌==◌, str_eq, if◌then◌else◌,
  select, find_first, insert_row,
}
use drx_wallet.Base.Int.{ℤ}
use drx_wallet.Base.Outcome.{Outcome, ok, Error, ◌>>=◌, or_throw}
use drx_wallet.Schema.{
  Db, World, Webhook, WebhookProgress, WebhookType, WebhookEvent, Withdrawal, WithdrawalLog,
  WithdrawalEvent, LogData, LogEvent, DepositEvent, DepositLog,
}

abbrev pub progress_key : WebhookProgress → ℕ
progress_key r = r.id

-- One progress record for each webhook of the user, with a key of its own.
abbrev pub append_progresses :
    World
    → WebhookType
    → ℕ
    → WebhookEvent
    → List Webhook
    → List WebhookProgress
    → List WebhookProgress
append_progresses w type ref_id event [] rows = rows
append_progresses w type ref_id event (hook ∷ hooks) rows =
    append_progresses w type ref_id event hooks (
      insert_row
        (record {
          id = w.new_id (map progress_key rows);
          webhook_id = hook.id;
          type = type;
          ref_id = ref_id;
          event = event;
          is_processed = false;
          created_at = w.now;
          updated_at = w.now;
        })
        rows)

unfoldable pub insert_webhook_progress : World → ℕ → WebhookType → ℕ → WebhookEvent → Db → Db
insert_webhook_progress w user_id type ref_id event db =
    let hooks = select (λ hook. hook.user_id == user_id) db.webhooks in
    record db {
      webhook_progresses = append_progresses w type ref_id event hooks db.webhook_progresses;
    }

abbrev withdrawal_log : World → WithdrawalEvent → ℕ → LogData → Withdrawal → WithdrawalLog
withdrawal_log w event ref_id log_data withdrawal = record {
  withdrawal_id = withdrawal.id;
  ref_id = ref_id;
  event = event;
  log_data = log_data;
  created_at = w.now;
}

-- A log for every withdrawal that has the txid.
unfoldable pub insert_withdrawal_log : World → String → ℕ → WithdrawalEvent → LogData → Db → Db
insert_withdrawal_log w txid ref_id event log_data db =
    let same = select (λ (r : Withdrawal). str_eq r.txid txid) db.withdrawals in
    record db {
      withdrawal_logs = db.withdrawal_logs ++ map (withdrawal_log w event ref_id log_data) same;
    }

abbrev id_log : World → WithdrawalEvent → ℕ → LogData → ℕ → WithdrawalLog
id_log w event ref_id log_data id = record {
  withdrawal_id = id;
  ref_id = ref_id;
  event = event;
  log_data = log_data;
  created_at = w.now;
}

unfoldable pub insert_withdrawal_logs : World → List ℕ → WithdrawalEvent → ℕ → LogData → Db → Db
insert_withdrawal_logs w ids event ref_id log_data db = record db {
  withdrawal_logs = db.withdrawal_logs ++ map (id_log w event ref_id log_data) ids;
}

unfoldable pub insert_wallet_log : World → ℕ → String → LogEvent → ℤ → ℕ → Db → Db
insert_wallet_log w wallet_id currency event balance_change ref_id db = record db {
  wallet_logs =
      insert_row
        (record {
          wallet_id = wallet_id;
          currency = currency;
          event = event;
          balance_change = balance_change;
          ref_id = ref_id;
          created_at = w.now;
          updated_at = w.now;
        })
        db.wallet_logs;
}

-- The user of a deposit's wallet, where the caller does not give it.
abbrev user_of_deposit : ℕ → Db → Outcome ℕ
user_of_deposit deposit_id db = do
  deposit ← or_throw Error.entity_not_found (find_first (λ d. d.id == deposit_id) db.deposits)
  wallet ← or_throw Error.entity_not_found (find_first (λ r. r.id == deposit.wallet_id) db.wallets)
  ok wallet.user_id

abbrev pub deposit_user : ℕ → Option ℕ → Db → Outcome ℕ
deposit_user deposit_id (some user_id) db = ok user_id
deposit_user deposit_id none db = user_of_deposit deposit_id db

-- A missing or zero user is looked up; a missing or zero reference is the deposit itself.
unfoldable pub insert_deposit_log : World → ℕ → DepositEvent → ℕ → Option ℕ → Db → Outcome Db
unfolding insert_webhook_progress
insert_deposit_log w deposit_id event ref_id user_id db = do
  user ← deposit_user deposit_id user_id db
  let entry : DepositLog = record {
    deposit_id = deposit_id;
    event = event;
    ref_id = if ref_id == 0 then deposit_id else ref_id;
    txid = none;
    created_at = w.now;
  }
  let logged : Db = record db { deposit_logs = insert_row entry db.deposit_logs }
  ok (
      insert_webhook_progress w user WebhookType.deposit deposit_id
        (WebhookEvent.deposit_event event) logged)
