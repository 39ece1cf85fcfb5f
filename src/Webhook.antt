-- ===== src/Webhook.antt =====
-- The outbox of status webhooks, status_webhook.go: its table, the events that are put into it, the
-- worker that claims, posts and settles them, and what an administrator does to them by
-- delivery_queue_handlers.go. An instant is a number of nanoseconds since 1970, more
-- than a month of them. A failing database call ends a step without a change and is not modelled; the
-- columns of the last error and of the lease's owner are written and not read, and left out.
pub mod Steps
pub mod Bounded
pub mod Posts
pub mod Final
mod Tests
use lan_qin_email.Prelude.{
  ℕ, zero, suc, ◌+◌, ◌-◌, ◌*◌, Bool, true, false, ◌&&◌, ◌||◌, not, Option, none, some, List, [],
  ◌∷◌, ◌++◌, ltb, leb, ◌==◌, if◌then◌else◌, any, map, take,
}
use lan_qin_email.Prelude.Text.{Text, text_eq, is_empty, trim_space}
use lan_qin_email.Prelude.Rows.{select_first, update_rows, keep_rows}
use lan_qin_email.Queue.{minute, hour}
use lan_qin_email.Queue.Control.{Reply, done, bad_request, conflict}
use lan_qin_email.Queue.Worker.{send_retry_delay}

-- a row of `status_webhook_outbox`
pub record Event : Type 0 where
  pub id : Text
  pub event_key : Text
  pub mailbox_id : Text
  pub payload : Text
  pub attempt_count : ℕ
  pub next_attempt_at : ℕ
  pub created_at : ℕ
  pub updated_at : ℕ
  pub delivered_at : Option ℕ
  pub lease_token : Text
  pub lease_until : Option ℕ

-- the table, and the ids of the events that were posted, the last one first
pub record Outbox : Type 0 where
  pub rows : List Event
  pub posts : List Text

abbrev pub status_webhook_max_attempts : ℕ
status_webhook_max_attempts = 10

abbrev pub outbox_lease_duration : ℕ
outbox_lease_duration = minute

abbrev pub undelivered : Event → Bool
undelivered e = elim e.delivered_at [ none ↦ true | some t ↦ false ]

-- `lease_until IS NULL OR lease_until<=?`
abbrev pub unleased : ℕ → Option ℕ → Bool
unleased now none = true
unleased now (some t) = leb t now

abbrev pub clashes : Text → Text → Event → Bool
clashes id key e = text_eq e.event_key key || text_eq e.id id

-- `enqueueStatusWebhook`, with the encoded payload: the `INSERT` ignores a key that is there, and a
-- taken id either is ignored or fails
unfoldable pub enqueue_status_webhook : Text → ℕ → Text → Text → Text → Text → Outbox → Outbox
enqueue_status_webhook url now id key mailbox payload s =
    if is_empty (trim_space url) then s else if any (clashes id key) s.rows then s else record s {
      rows =
          s.rows
          ++ record {
            id = id;
            event_key = key;
            mailbox_id = mailbox;
            payload = payload;
            attempt_count = 0;
            next_attempt_at = now;
            created_at = now;
            updated_at = now;
            delivered_at = none;
            lease_token = [];
            lease_until = none;
          }
            ∷ [];
    }

-- what the `DELETE` spares
abbrev pub spared : ℕ → Event → Bool
spared now e = not (
    ltb e.updated_at (now - 30 * (24 * hour))
    && (not (undelivered e) || leb status_webhook_max_attempts e.attempt_count))

unfoldable pub clean_up : ℕ → Outbox → Outbox
clean_up now s = record s { rows = keep_rows (spared now) s.rows }

-- the conditions of the `SELECT` and, with the id, of the claim
abbrev pub due : ℕ → Event → Bool
due now e =
    undelivered e
    && (ltb e.attempt_count status_webhook_max_attempts
        && (leb e.next_attempt_at now && unleased now e.lease_until))

abbrev pub claimable : ℕ → Text → Event → Bool
claimable now id e = text_eq e.id id && due now e

abbrev pub claim_row : ℕ → Text → Event → Event
claim_row now token e = record e {
  attempt_count = e.attempt_count + 1;
  updated_at = now;
  lease_token = token;
  lease_until = some (now + outbox_lease_duration);
}

-- `claimStatusWebhook`, and with a claim the post that follows it
unfoldable pub claim_and_post : ℕ → Text → Text → Outbox → Bool × Outbox
claim_and_post now token id s =
    if any (claimable now id) s.rows
    then (
      true,
      record s {
        rows = update_rows (claimable now id) (claim_row now token) s.rows;
        posts = id ∷ s.posts;
      },
    )
    else (false, s)

-- `WHERE id=? AND delivered_at IS NULL AND lease_token=?`
abbrev pub held : Text → Text → Event → Bool
held token id e = text_eq e.id id && (undelivered e && text_eq e.lease_token token)

abbrev pub retry_row : ℕ → ℕ → Event → Event
retry_row now attempt e = record e {
  next_attempt_at = now + send_retry_delay attempt;
  updated_at = now;
  lease_token = [];
  lease_until = none;
}

abbrev pub delivered_row : ℕ → Event → Event
delivered_row now e = record e {
  updated_at = now;
  delivered_at = some now;
  lease_token = [];
  lease_until = none;
}

-- the `UPDATE` behind a post, which failed or not, of a claim with its count of attempts
unfoldable pub settle : ℕ → Text → Text → ℕ → Bool → Outbox → Outbox
settle now token id attempt ok s = record s {
  rows =
      update_rows (held token id) (if ok then delivered_row now else retry_row now attempt) s.rows;
}

-- `ORDER BY next_attempt_at,created_at`
abbrev pub before : Event → Event → Bool
before d e =
    ltb d.next_attempt_at e.next_attempt_at
    || (d.next_attempt_at == e.next_attempt_at && leb d.created_at e.created_at)

unfoldable pub insert_sorted : Event → List Event → List Event
insert_sorted d [] = d ∷ []
insert_sorted d (e ∷ es) =
    let rest = insert_sorted d es in if before d e then d ∷ e ∷ es else e ∷ rest

unfoldable pub sort_events : List Event → List Event
sort_events [] = []
sort_events (e ∷ es) = insert_sorted e (sort_events es)

-- the ids of a run of the worker
abbrev pub due_ids : ℕ → List Event → List Text
due_ids now rows = map (λ (e : Event). e.id) (take 20 (sort_events (keep_rows (due now) rows)))

abbrev pub leased_row : Text → Text → Event → Bool
leased_row token id e = text_eq e.id id && text_eq e.lease_token token

-- the end of a turn, given the row that was read behind the claim and the answer of
-- `deliverStatusWebhook`, which is `true` for a success
abbrev pub settle_read : (Text → Text → Bool) → ℕ → Text → Text → Option Event → Outbox → Outbox
settle_read deliver now token id none s = s
settle_read deliver now token id (some e) s =
    settle now token id e.attempt_count (deliver e.id e.payload) s

abbrev pub settle_claim : (Text → Text → Bool) → ℕ → Text → Text → Bool × Outbox → Outbox
settle_claim deliver now token id (false, s) = s
settle_claim deliver now token id (true, s) =
    settle_read deliver now token id (select_first (leased_row token id) s.rows) s

-- the loop of `processDueStatusWebhooks`; the lease tokens are drawn
unfoldable pub process_ids : (Text → Text → Bool) → ℕ → (ℕ → Text) → ℕ → List Text → Outbox → Outbox
process_ids deliver now tokens i [] s = s
process_ids deliver now tokens i (id ∷ ids) s =
    process_ids deliver now tokens (suc i) ids
      (settle_claim deliver now (tokens i) id (claim_and_post now (tokens i) id s))

-- `processDueStatusWebhooks`, at one instant of the clock
unfoldable pub process_due_status_webhooks :
    Text → (Text → Text → Bool) → ℕ → (ℕ → Text) → Outbox → Outbox
process_due_status_webhooks url deliver now tokens s =
    if is_empty (trim_space url)
    then s
    else let cleaned = clean_up now s in
      process_ids deliver now tokens 0 (due_ids now cleaned.rows) cleaned

-- the conditions of the two statements of `adminDeliveryQueueMutation` on this table
abbrev pub restartable : ℕ → Text → Event → Bool
restartable now id e =
    text_eq e.id id
    && (undelivered e
        && (leb status_webhook_max_attempts e.attempt_count && unleased now e.lease_until))

abbrev pub removable : ℕ → Text → Event → Bool
removable now id e = text_eq e.id id && (undelivered e && unleased now e.lease_until)

abbrev pub restarted_row : ℕ → Event → Event
restarted_row now e = record e {
  attempt_count = 0;
  next_attempt_at = now;
  updated_at = now;
  lease_token = [];
  lease_until = none;
}

-- `handleAdminDeliveryQueueRetry` for the type "webhook", with the id of the path
unfoldable pub admin_retry_event : ℕ → Text → Outbox → Reply × Outbox
admin_retry_event now param s =
    let id = trim_space param in
    if is_empty id
    then (bad_request, s)
    else if any (restartable now id) s.rows
    then (done, record s { rows = update_rows (restartable now id) (restarted_row now) s.rows })
    else (conflict, s)

-- `handleAdminDeliveryQueueCancel` for the type "webhook"
unfoldable pub admin_cancel_event : ℕ → Text → Outbox → Reply × Outbox
admin_cancel_event now param s =
    let id = trim_space param in
    if is_empty id
    then (bad_request, s)
    else if any (removable now id) s.rows
    then (done, record s { rows = keep_rows (λ e. not (removable now id e)) s.rows })
    else (conflict, s)

-- the trigger on the deletion of a mailbox
unfoldable pub delete_mailbox_events : Text → Outbox → Outbox
delete_mailbox_events mailbox s = record s {
  rows = keep_rows (λ e. not (text_eq e.mailbox_id mailbox)) s.rows;
}
