-- ===== src/Queue.antt =====
-- The outgoing queue: the `send_queue` table of send_queue.go, its rows and the SQL statements on
-- them. An instant is a number of nanoseconds; SQL compares the stored instants.
pub mod Table
pub mod Enqueue
pub mod Worker
pub mod Control
pub mod Actions
pub mod Held
pub mod Spared
pub mod Lease
pub mod Delay
pub mod Sending
pub mod Outcome
mod Tests
use lan_qin_email.Prelude.{
  ℕ, suc, ◌+◌, ◌*◌, ◌<◌, ◌≤◌, Bool, true, false, ◌&&◌, ◌||◌, Option, none, some, List, [], ◌∷◌,
  ◌++◌, leb, ltb, if◌then◌else◌,
}
use lan_qin_email.Prelude.Text.{Text, codes, text_eq, is_empty, trim_space}
use lan_qin_email.Std.{Std}
use lan_qin_email.Address.{normalize_email, dedupe_emails}

abbrev pub second : ℕ
second = 1_000_000_000

abbrev pub minute : ℕ
minute = 60 * second

abbrev pub hour : ℕ
hour = 60 * minute

abbrev pub send_queue_lease_duration : ℕ
send_queue_lease_duration = 15 * minute

abbrev pub send_queue_stale_after : ℕ
send_queue_stale_after = 15 * minute

abbrev pub send_queue_retention : ℕ
send_queue_retention = 30 * (24 * hour)

pub data Status : Type 0 where
  queued sending delivered failed canceled : Status

abbrev pub is_queued : Status → Bool
is_queued queued = true
is_queued _ = false

abbrev pub is_sending : Status → Bool
is_sending sending = true
is_sending _ = false

abbrev pub is_failed : Status → Bool
is_failed failed = true
is_failed _ = false

abbrev pub is_delivered : Status → Bool
is_delivered delivered = true
is_delivered _ = false

abbrev pub is_canceled : Status → Bool
is_canceled canceled = true
is_canceled _ = false

-- a row of `send_queue`; `recipients` is the list that `recipients_json` spells
pub record Row : Type 0 where
  pub id : Text
  pub user_id : Text
  pub mailbox_id : Text
  pub sent_message_id : Text
  pub message_id : Text
  pub source : Text
  pub mail_from : Text
  pub header_from : Text
  pub recipients : List Text
  pub mime_base64 : Text
  pub status : Status
  pub attempt_count : ℕ
  pub max_attempts : ℕ
  pub next_attempt_at : ℕ
  pub last_error : Text
  pub created_at : ℕ
  pub updated_at : ℕ
  pub delivered_at : Option ℕ
  pub lease_owner : Text
  pub lease_token : Text
  pub lease_until : Option ℕ

-- `UPDATE … SET f WHERE p`
unfoldable pub update_where : (Row → Bool) → (Row → Row) → List Row → List Row
update_where p f [] = []
update_where p f (r ∷ rs) = (if p r then f r else r) ∷ update_where p f rs

-- `RowsAffected`
unfoldable pub affected : (Row → Bool) → List Row → ℕ
affected p [] = 0
affected p (r ∷ rs) = (if p r then 1 else 0) + affected p rs

-- `SELECT … WHERE p`, the first row
unfoldable pub select_row : (Row → Bool) → List Row → Option Row
select_row p [] = none
select_row p (r ∷ rs) = let rest = select_row p rs in if p r then some r else rest

-- `DELETE … WHERE p`
unfoldable pub delete_where : (Row → Bool) → List Row → List Row
delete_where p [] = []
delete_where p (r ∷ rs) = let rest = delete_where p rs in if p r then rest else r ∷ rest

abbrev pub by_id : Text → Row → Bool
by_id id r = text_eq r.id id

-- `lease_until IS NULL OR lease_until<=?`
abbrev pub lease_over : ℕ → Option ℕ → Bool
lease_over now none = true
lease_over now (some t) = leb t now

-- what the database holds besides the queue, and the marker files of the data directory
pub data AuditEvent : Type 0 where
  audit_queued audit_delivered audit_failed audit_retry audit_canceled : AuditEvent

pub record Audit : Type 0 where
  pub queue_id : Text
  pub user_id : Text
  pub mailbox_id : Text
  pub sent_message_id : Text
  pub source : Text
  pub event : AuditEvent
  pub status : Status
  pub mail_from : Text
  pub header_from : Text
  pub recipients : List Text
  pub error : Text
  pub created_at : ℕ

pub record Store : Type 0 where
  pub rows : List Row
  pub audits : List Audit
  -- the files in `send_queue_delivered`, by name
  pub markers : List Text
  -- the ids of the items that `sendSMTP` accepted, in order
  pub sends : List Text

-- what one run of an operation meets: the clock, the random parts of new ids, and whether each of
-- its database and file calls, by number, succeeds
pub record Env : Type 0 where
  pub now : ℕ
  pub random : Text
  pub worker_id : Text
  pub smtp_host : Text
  pub io : ℕ → Bool
  pub audit_io : Bool

-- `newID`
abbrev pub new_id : Text → Text → Text
new_id prefix random = prefix ++ codes "_" ++ random

-- the outcome of an operation: a value, `sql.ErrNoRows`, or another error
pub data Result {ℓ} (A : Type ℓ) : Type ℓ where
  ok : A → Result A
  no_rows : Result A
  failure : Result A

pub record SendAuditInput : Type 0 where
  pub queue_id : Text
  pub user_id : Text
  pub mailbox_id : Text
  pub sent_message_id : Text
  pub source : Text
  pub mail_from : Text
  pub header_from : Text
  pub recipients : List Text
  pub error : Text

module _ (std : Std) where
  -- `recordSendAudit`: a failure leaves no trace and is only logged
  unfoldable pub record_send_audit : Env → AuditEvent → Status → SendAuditInput → Store → Store
  record_send_audit e event status x s =
      let source = trim_space x.source in
      let a : Audit = record {
        queue_id = x.queue_id;
        user_id = x.user_id;
        mailbox_id = x.mailbox_id;
        sent_message_id = x.sent_message_id;
        source = if is_empty source then codes "unknown" else source;
        event = event;
        status = status;
        mail_from = normalize_email std x.mail_from;
        header_from = normalize_email std x.header_from;
        recipients = dedupe_emails std x.recipients;
        error = x.error;
        created_at = e.now;
      } in
      if e.audit_io then record s { audits = s.audits ++ a ∷ [] } else s
