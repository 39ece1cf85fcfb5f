-- ===== src/Queue/Control.antt =====
-- What users, API clients, administrators and the cleanup do to the queue: the retry and cancel
-- handlers of mail_handlers.go, open_api_extended.go and delivery_queue_handlers.go, and the part
-- of `cleanupExpiredRows` in session.go that is about the queue.
use lan_qin_email.Prelude.{
  ℕ, ◌+◌, Bool, true, false, ◌&&◌, ◌||◌, not, Option, none, some, [], ltb, if◌then◌else◌, ◌==◌,
}
use lan_qin_email.Prelude.Text.{Text, is_empty, trim_space}
use lan_qin_email.Std.{Std}
use lan_qin_email.Queue.{
  send_queue_retention, queued, canceled, is_queued, is_failed, is_delivered, is_canceled, Row,
  update_where, affected, select_row, delete_where, by_id, lease_over, audit_retry, audit_canceled,
  Store, Env, SendAuditInput, record_send_audit,
}
use lan_qin_email.Queue.Worker.{delete_delivered_marker}

-- the answers of the handlers, by what they mean
pub data Reply : Type 0 where
  done not_found bad_request conflict server_error : Reply

unfoldable pub audit_input_from_entry : Row → Text → SendAuditInput
audit_input_from_entry r user_id = record {
  queue_id = r.id;
  user_id = user_id;
  mailbox_id = r.mailbox_id;
  sent_message_id = r.sent_message_id;
  source = r.source;
  mail_from = r.mail_from;
  header_from = r.header_from;
  recipients = r.recipients;
  error = [];
}

-- the `SET` of the user's and the API's retry: the lease columns stay
unfoldable pub retry_row : ℕ → Row → Row
retry_row now r = record r {
  status = queued;
  attempt_count = 0;
  next_attempt_at = now;
  last_error = [];
  updated_at = now;
  delivered_at = none;
}

-- the `SET` of the user's and the API's cancellation
unfoldable pub cancel_row : ℕ → Row → Row
cancel_row now r = record r { status = canceled; last_error = []; updated_at = now }

-- the statements of `adminDeliveryQueueMutation` on `send_queue`
unfoldable pub admin_retriable : ℕ → Text → Row → Bool
admin_retriable now id r =
    by_id id r
    && is_failed r.status
    && elim r.delivered_at [ none ↦ true | some _ ↦ false ]
    && lease_over now r.lease_until

unfoldable pub admin_retry_row : ℕ → Row → Row
unfolding retry_row
admin_retry_row now r = record (retry_row now r) {
  lease_owner = [];
  lease_token = [];
  lease_until = none;
}

unfoldable pub admin_cancelable : ℕ → Text → Row → Bool
admin_cancelable now id r =
    by_id id r
    && (is_queued r.status || is_failed r.status)
    && elim r.delivered_at [ none ↦ true | some _ ↦ false ]
    && lease_over now r.lease_until

unfoldable pub admin_cancel_row : ℕ → Row → Row
unfolding cancel_row
admin_cancel_row now r = record (cancel_row now r) {
  lease_owner = [];
  lease_token = [];
  lease_until = none;
}

-- its `send` cases
unfoldable pub admin_send_mutation : Env → Bool → Text → Store → Reply × Store
unfolding admin_retriable admin_retry_row admin_cancelable admin_cancel_row
admin_send_mutation e retry raw_id s =
    let id = trim_space raw_id in
    let p = if retry then admin_retriable e.now id else admin_cancelable e.now id in
    let f = if retry then admin_retry_row e.now else admin_cancel_row e.now in
    if is_empty id
    then (bad_request, s)
    else if not (e.io 0)
    then (server_error, s)
    else if affected p s.rows == 0
    then (conflict, s)
    else (done, record s { rows = update_where p f s.rows })

-- the `DELETE` of `cleanupExpiredRows`
unfoldable pub expired : ℕ → Row → Bool
expired now r =
    ltb (r.updated_at + send_queue_retention) now
    && (is_delivered r.status || is_failed r.status || is_canceled r.status)

unfoldable pub cleanup_send_queue : Env → Store → Store
unfolding expired
cleanup_send_queue e s =
    if e.io 0 then record s { rows = delete_where (expired e.now) s.rows } else s

module _ (std : Std) where
  -- the part of the user's handlers behind the test on the entry: `p` and `f` are the `UPDATE`,
  -- `after` what follows it; call 3 reads the entry again for the answer
  unfoldable pub change_entry :
      Env → (Row → Bool) → (Row → Row) → (Store → Store) → Store → Reply × Store
  change_entry e p f after s =
      if not (e.io 1)
      then (server_error, s)
      else if affected p s.rows == 0
      then (not_found, s)
      else (
        if e.io 3 then done else server_error,
        after (record s { rows = update_where p f s.rows }),
      )

  -- `handleRetrySendQueue`; `owns` tells the mailboxes of the user
  unfoldable pub retry_found :
      Env → Text → (Text → Bool) → Text → Option Row → Store → Reply × Store
  retry_found e user_id owns id none s = (not_found, s)
  retry_found e user_id owns id (some item) s =
      if not (is_failed item.status)
      then (bad_request, s)
      else change_entry e (λ r. by_id id r && is_failed r.status && owns r.mailbox_id)
          (retry_row e.now)
          (λ t.
            record_send_audit std e audit_retry queued (audit_input_from_entry item user_id)
              (delete_delivered_marker e 2 id t))
          s

  unfoldable pub retry_send_queue : Env → Text → (Text → Bool) → Text → Store → Reply × Store
  retry_send_queue e user_id owns raw_id s =
      let id = trim_space raw_id in
      if e.io 0
      then retry_found e user_id owns id (select_row (λ r. by_id id r && owns r.mailbox_id) s.rows)
          s
      else (not_found, s)

  -- `handleCancelSendQueue`
  unfoldable pub cancel_found :
      Env → Text → (Text → Bool) → Text → Option Row → Store → Reply × Store
  cancel_found e user_id owns id none s = (not_found, s)
  cancel_found e user_id owns id (some item) s =
      if not (is_queued item.status) && not (is_failed item.status)
      then (bad_request, s)
      else change_entry e
          (λ r. by_id id r && (is_queued r.status || is_failed r.status) && owns r.mailbox_id)
          (cancel_row e.now)
          (λ t.
            record_send_audit std e audit_canceled canceled (audit_input_from_entry item user_id)
              (delete_delivered_marker e 2 id t))
          s

  unfoldable pub cancel_send_queue : Env → Text → (Text → Bool) → Text → Store → Reply × Store
  cancel_send_queue e user_id owns raw_id s =
      let id = trim_space raw_id in
      if e.io 0
      then cancel_found e user_id owns id (select_row (λ r. by_id id r && owns r.mailbox_id) s.rows)
          s
      else (not_found, s)
