-- ===== src/Queue/Enqueue.antt =====
-- `enqueueSend` of send_queue.go: a message enters the queue once for each mailbox, source and
-- message id, and a finished entry is opened again.
use lan_qin_email.Prelude.{
  ℕ, Bool, true, false, ◌&&◌, ◌||◌, not, Option, none, some, List, [], ◌∷◌, ◌++◌, leb,
  if◌then◌else◌, any,
}
use lan_qin_email.Prelude.Text.{Text, codes, text_eq, is_empty, trim_space}
use lan_qin_email.Std.{Std}
use lan_qin_email.Address.{normalize_email, dedupe_emails}
use lan_qin_email.Queue.{
  Status, queued, sending, delivered, failed, canceled, is_delivered, is_failed, is_canceled, Row,
  update_where, select_row, by_id, audit_queued, Store, Env, new_id, Result, ok, failure,
  SendAuditInput, record_send_audit,
}
use lan_qin_email.Queue.Worker.{delete_delivered_marker}

-- `sendQueueInput`; `now` is `none` where the source has the zero time
pub record SendQueueInput : Type 0 where
  pub user_id : Text
  pub mailbox_id : Text
  pub sent_message_id : Text
  pub message_id : Text
  pub source : Text
  pub mail_from : Text
  pub header_from : Text
  pub recipients : List Text
  pub mime_bytes : Text
  pub now : Option ℕ

-- `WHERE mailbox_id=? AND source=? AND message_id=?`
unfoldable pub same_key : Text → Text → Text → Row → Bool
unfolding text_eq
same_key mailbox_id source message_id r =
    text_eq r.mailbox_id mailbox_id && text_eq r.source source && text_eq r.message_id message_id

-- a clash with the primary key or with the unique index over rows that have a message id
unfoldable pub clashes : Row → Row → Bool
unfolding same_key
clashes row r =
    text_eq r.id row.id
    || (not (is_empty row.message_id) && same_key row.mailbox_id row.source row.message_id r)

-- `INSERT … ON CONFLICT DO NOTHING`, as SQLite and MySQL have it; on PostgreSQL the conflict is that of
-- the message alone, and a key that is taken is an error
unfoldable pub insert_ignore : Row → List Row → List Row
unfolding clashes
insert_ignore row rows = if any (clashes row) rows then rows else rows ++ row ∷ []

abbrev pub same_status : Status → Status → Bool
same_status queued queued = true
same_status sending sending = true
same_status delivered delivered = true
same_status failed failed = true
same_status canceled canceled = true
same_status _ _ = false

-- an entry that a new request for the same message opens again
unfoldable pub finished : Row → Bool
finished r =
    is_delivered r.status
    || is_canceled r.status
    || (is_failed r.status && leb r.max_attempts r.attempt_count)

unfoldable pub audit_input : Text → SendQueueInput → SendAuditInput
audit_input id x = record {
  queue_id = id;
  user_id = x.user_id;
  mailbox_id = x.mailbox_id;
  sent_message_id = x.sent_message_id;
  source = x.source;
  mail_from = x.mail_from;
  header_from = x.header_from;
  recipients = x.recipients;
  error = [];
}

module _ (std : Std) where
  open std use {base64_encode}

  -- the inserted row, with the defaults of the table for the columns that are not named
  unfoldable pub new_row : Env → ℕ → SendQueueInput → Row
  new_row e now x = record {
    id = new_id (codes "snd") e.random;
    user_id = x.user_id;
    mailbox_id = x.mailbox_id;
    sent_message_id = x.sent_message_id;
    message_id = trim_space x.message_id;
    source = x.source;
    mail_from = normalize_email std x.mail_from;
    header_from = normalize_email std x.header_from;
    recipients = dedupe_emails std x.recipients;
    mime_base64 = base64_encode x.mime_bytes;
    status = queued;
    attempt_count = 0;
    max_attempts = 5;
    next_attempt_at = now;
    last_error = [];
    created_at = now;
    updated_at = now;
    delivered_at = none;
    lease_owner = [];
    lease_token = [];
    lease_until = none;
  }

  -- the `SET` that opens a finished entry again
  unfoldable pub reopen_row : ℕ → SendQueueInput → Row → Row
  reopen_row now x r = record r {
    user_id = x.user_id;
    sent_message_id = x.sent_message_id;
    mail_from = normalize_email std x.mail_from;
    header_from = normalize_email std x.header_from;
    recipients = dedupe_emails std x.recipients;
    mime_base64 = base64_encode x.mime_bytes;
    status = queued;
    attempt_count = 0;
    next_attempt_at = now;
    last_error = [];
    updated_at = now;
    delivered_at = none;
    lease_owner = [];
    lease_token = [];
    lease_until = none;
  }

  -- the branch for an entry that was there before
  unfoldable pub reopen : Env → ℕ → SendQueueInput → Row → Store → Result Text × Store
  reopen e now x old s =
      let s' : Store = record s {
        rows =
            update_where (λ r. by_id old.id r && same_status r.status old.status) (reopen_row now x)
              s.rows;
      } in
      if finished old
      then if e.io 2
        then (
          ok old.id,
          record_send_audit std e audit_queued queued (audit_input old.id x)
              (delete_delivered_marker e 3 old.id s'),
        )
        else (failure, s)
      else (ok old.id, s)

  -- what follows the insertion: `found` is what the `SELECT` by message id returns
  unfoldable pub after_insert : Env → ℕ → SendQueueInput → Option Row → Store → Result Text × Store
  after_insert e now x none s = (failure, s)
  after_insert e now x (some old) s =
      let id = new_id (codes "snd") e.random in
      if text_eq old.id id
      then (ok id, record_send_audit std e audit_queued queued (audit_input id x) s)
      else reopen e now x old s

  unfoldable pub enqueue_send : Env → SendQueueInput → Store → Result Text × Store
  enqueue_send e x s =
      let now : ℕ = elim x.now [ some t ↦ t | none ↦ e.now ] in
      let row = new_row e now x in
      let s' : Store = record s { rows = insert_ignore row s.rows } in
      if is_empty (trim_space e.smtp_host)
      then (ok [], s)
      else if not (e.io 0)
      then (failure, s)
      else if is_empty row.message_id
      then (ok row.id, record_send_audit std e audit_queued queued (audit_input row.id x) s')
      else if not (e.io 1)
      then (failure, s')
      else after_insert e now x (select_row (same_key x.mailbox_id x.source row.message_id) s'.rows)
          s'
