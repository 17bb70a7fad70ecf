-- ===== src/Webhooks/Delivery.antt =====
-- What a progress that is processed means, and what holds the queue up.
use drx_wallet.Base.{
  ℕ, ◌≡◌, refl, sym, ap, ◌∙◌, ◌⊎◌, subst, inl, inr, true, false, ◌==◌, Option, none, some, List, [],
  ◌∷◌, String, str_eq, Bool-cases, ==_iff, find_first, find_oldest, find_oldest-Has, Has,
  Has-append_left, Has-append_last, Has-update_where, Has-update_where_intro,
}
use drx_wallet.Base.Outcome.{Outcome, ok, err, Error, or_throw, >>=-eq-ok, ok-injective}
use drx_wallet.Schema.{Db, World, Registry, Webhook, WebhookProgress, WebhookLog}
use drx_wallet.Webhooks.{
  Fetch, progress_age, is_waiting, is_hook, is_progress, get_ref_data, RefData, answered_status,
  set_called, call_log, store_call, call_hook, call_progress, caught, webhook_do_process, Call,
  webhook_run,
}

-- Each processed progress has a call with the answer 200 in the log.
abbrev pub IsDelivered : Db → Type 0
IsDelivered db =
    (p : WebhookProgress)
    → Has p db.webhook_progresses
    → p.is_processed ≡ true
    → (l : WebhookLog) × Has l db.webhook_logs × (l.progress_id ≡ p.id) × (l.status ≡ 200)

module _ (w : World) (called : WebhookProgress) (url : String) (status : ℕ) (db : Db) where
  store_call-IsDelivered : IsDelivered db → IsDelivered (store_call w called url status db)
  unfolding store_call
  store_call-IsDelivered delivered p m done =
      let (old, there, e) =
        Has-update_where (is_progress called.id) (set_called w status) p db.webhook_progresses m in
      elim (Bool-cases (is_progress called.id old)) [
        | inl t ↦
            let now_ : p ≡ set_called w status old = rw t at e in
            let answer : (status == 200) ≡ true =
              ap (λ (q : WebhookProgress). q.is_processed) (sym now_) ∙ done in
            let its : p.id ≡ called.id =
              ap (λ (q : WebhookProgress). q.id) now_ ∙ (==_iff old.id called.id).0 t in
            (
              call_log w called.id url status,
              Has-append_last (call_log w called.id url status) db.webhook_logs,
              sym its,
              (==_iff status 200).0 answer,
            )
        | inr n ↦
            let same : p ≡ old = rw n at e in
            let (l, logged, owner, answer) =
              delivered old there
                (ap (λ (q : WebhookProgress). q.is_processed) (sym same) ∙ done) in
            (
              l,
              Has-append_left l db.webhook_logs _ logged,
              owner ∙ ap (λ (q : WebhookProgress). q.id) (sym same),
              answer,
            )
      ]

module _ (reg : Registry) (w : World) (fetch : Fetch) (db : Db) where
  -- A tick leaves the database or stores a call of the progress that it found.
  by_call :
      (P : Db → Type 0)
      → P db
      → ((p : WebhookProgress) (url : String) (status : ℕ)
          → Has p db.webhook_progresses
          → is_waiting p ≡ true
          → P (store_call w p url status db))
      → P (webhook_do_process reg w fetch db)
  unfolding webhook_do_process
  by_call P same stored =
      from_found (find_oldest progress_age is_waiting db.webhook_progresses) refl
    where
      from_data : (m : Outcome Db) → P db → ((x : Db) → m ≡ ok x → P x) → P (caught m db)
      from_data (ok x) k h = h x refl
      from_data (err e) k h = k

      from_hook :
          (p : WebhookProgress)
          → Has p db.webhook_progresses
          → is_waiting p ≡ true
          → (x : Db) (hook : Webhook) → call_hook reg w fetch p hook db ≡ ok x
          → P x
      from_hook p m waits x hook e = elim (Bool-cases (str_eq hook.url "")) [
        | inl t ↦ subst P (ok-injective _ _ (rw t at e)) same
        | inr n ↦
            let (found, hf, k) = >>=-eq-ok (get_ref_data reg p.type p.ref_id db) _ (rw n at e) in
            subst P (ok-injective _ _ k) (
              stored p hook.url (answered_status (fetch.post hook.url p.type p.event found)) m
                waits)
      ]

      from_found :
          (o : Option WebhookProgress)
          → find_oldest progress_age is_waiting db.webhook_progresses ≡ o
          → P (caught (call_progress reg w fetch o db) db)
      from_found none e = same
      from_found (some p) e =
          let (m, waits) = find_oldest-Has progress_age is_waiting p db.webhook_progresses e in
          from_data (call_progress reg w fetch (some p) db) same (λ x h.
            let (hook, hh, k) =
              >>=-eq-ok
                (or_throw Error.invalid_webhook_id (find_first (is_hook p.webhook_id) db.webhooks))
                _ h in
            from_hook p m waits x hook k)

  -- A tick keeps it so that each processed progress has a call with the answer 200 in the log.
  pub webhook_do_process-IsDelivered :
      IsDelivered db → IsDelivered (webhook_do_process reg w fetch db)
  webhook_do_process-IsDelivered delivered =
      by_call IsDelivered delivered
        (λ p url status m waits. store_call-IsDelivered w p url status db delivered)

  -- If the oldest waiting progress belongs to a webhook with an address and to a record that is there,
  -- a tick logs the call of its address with the status of the answer, or with 0 if there is none, and
  -- the progress is processed just where that status is 200 and moves to the time of the tick.
  pub oldest_is_called :
      (p : WebhookProgress) (hook : Webhook) (data_ : RefData)
      → find_oldest progress_age is_waiting db.webhook_progresses ≡ some p
      → find_first (is_hook p.webhook_id) db.webhooks ≡ some hook
      → str_eq hook.url "" ≡ false
      → get_ref_data reg p.type p.ref_id db ≡ ok data_
      → (status : ℕ) × ((fetch.post hook.url p.type p.event data_ ≡ ok status)
          ⊎ ((status ≡ 0) × ((x : Error) × (fetch.post hook.url p.type p.event data_ ≡ err x))))
        × Has
            (record p { is_processed = status == 200; updated_at = w.now })
            (webhook_do_process reg w fetch db).webhook_progresses
        × Has
            (record { progress_id = p.id; url = hook.url; status = status; created_at = w.now })
            (webhook_do_process reg w fetch db).webhook_logs
  unfolding webhook_do_process store_call
  oldest_is_called p hook data_ oldest known address there =
      let status = answered_status (fetch.post hook.url p.type p.event data_) in
      let (m, waits) = find_oldest-Has progress_age is_waiting p db.webhook_progresses oldest in
      let its : is_progress p.id p ≡ true = (==_iff p.id p.id).1 refl in
      rw (oldest, known, address, there)
        (
          status,
          answer (fetch.post hook.url p.type p.event data_),
          rw its at (
              Has-update_where_intro (is_progress p.id) (set_called w status) p
                db.webhook_progresses m),
          Has-append_last (call_log w p.id hook.url status) db.webhook_logs,
        )
    where
      answer :
          (reply : Outcome ℕ)
          → (reply ≡ ok (answered_status reply))
            ⊎ ((answered_status reply ≡ 0) × ((x : Error) × (reply ≡ err x)))
      answer (ok status) = inl refl
      answer (err x) = inr (refl, (x, refl))

-- If the oldest waiting progress belongs to a webhook without an address, any number of ticks in a row
-- leave the database as it is, whatever other progresses wait.
pub webhook_queue_blocked :
    (reg : Registry) (calls : List Call) (db : Db) (p : WebhookProgress) (hook : Webhook)
    → find_oldest progress_age is_waiting db.webhook_progresses ≡ some p
    → find_first (is_hook p.webhook_id) db.webhooks ≡ some hook
    → hook.url ≡ ""
    → webhook_run reg calls db ≡ db
unfolding webhook_do_process
webhook_queue_blocked reg [] db p hook oldest known empty = refl
webhook_queue_blocked reg (call ∷ calls) db p hook oldest known empty =
    let stays : webhook_do_process reg call.world call.fetch db ≡ db = one_tick call in
    ap (webhook_run reg calls) stays ∙ webhook_queue_blocked reg calls db p hook oldest known empty
  where
    one_tick : (call : Call) → webhook_do_process reg call.world call.fetch db ≡ db
    one_tick call = rw (oldest, known, empty) refl
