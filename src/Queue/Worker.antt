-- ===== src/Queue/Worker.antt =====
-- The send worker of send_queue.go: claiming an item, sending it, settling it, and recovering the
-- items of workers that died.
use Prim.Native.Nat.{suc}
use lan_qin_email.Prelude.{
  ℕ, ◌+◌, ◌-◌, ◌*◌, Bool, true, false, ◌&&◌, ◌||◌, Option, none, some, List, [], ◌∷◌, ◌++◌, leb,
  ltb, ◌==◌, if◌then◌else◌, take, get_or,
}
use lan_qin_email.Prelude.Text.{Text, codes, text_eq, has, is_empty, trim_space}
use lan_qin_email.Std.{Std}
use lan_qin_email.FilePath.{base_name}
use lan_qin_email.Queue.{
  second, minute, hour, send_queue_lease_duration, send_queue_stale_after, queued, sending,
  delivered, failed, is_queued, is_sending, is_failed, Row, update_where, affected, select_row,
  by_id, lease_over, audit_delivered, audit_failed, audit_retry, Store, Env, new_id, Result, ok,
  no_rows, failure, SendAuditInput, record_send_audit,
}

pub record Item : Type 0 where
  pub id : Text
  pub user_id : Text
  pub mailbox_id : Text
  pub sent_message_id : Text
  pub message_id : Text
  pub source : Text
  pub mail_from : Text
  pub header_from : Text
  pub recipients : List Text
  pub mime_bytes : Text
  pub attempt_count : ℕ
  pub max_attempts : ℕ
  pub lease_token : Text

-- the columns that are scanned into a `sendQueueItem`
abbrev pub item_of : Row → Text → Item
item_of r mime = record {
  id = r.id;
  user_id = r.user_id;
  mailbox_id = r.mailbox_id;
  sent_message_id = r.sent_message_id;
  message_id = r.message_id;
  source = r.source;
  mail_from = r.mail_from;
  header_from = r.header_from;
  recipients = r.recipients;
  mime_bytes = mime;
  attempt_count = r.attempt_count;
  max_attempts = r.max_attempts;
  lease_token = r.lease_token;
}

unfoldable pub send_audit_input_from_queue : Item → Text → SendAuditInput
send_audit_input_from_queue item error = record {
  queue_id = item.id;
  user_id = item.user_id;
  mailbox_id = item.mailbox_id;
  sent_message_id = item.sent_message_id;
  source = item.source;
  mail_from = item.mail_from;
  header_from = item.header_from;
  recipients = item.recipients;
  error = error;
}

-- the last part of `sendQueueDeliveredMarkerPath`
unfoldable pub marker_name : Text → Text
unfolding base_name trim_space text_eq
marker_name id =
    let safe_id = base_name (trim_space id) in
    (if is_empty safe_id || text_eq safe_id (codes ".") then codes "unknown" else safe_id)
    ++ codes ".marker"

-- `writeSendQueueDeliveredMarker`: make the folder, write a temporary file, rename it
unfoldable pub write_delivered_marker : Env → Text → Store → Store
write_delivered_marker e id s =
    if e.io 0 && e.io 1 && e.io 2 then record s { markers = marker_name id ∷ s.markers } else s

-- `hasSendQueueDeliveredMarker`, with the number of its file call
unfoldable pub has_delivered_marker : Env → ℕ → Text → Store → Result Bool
has_delivered_marker e n id s = if e.io n then ok (has (marker_name id) s.markers) else failure

unfoldable pub remove_text : Text → List Text → List Text
unfolding text_eq
remove_text t [] = []
remove_text t (u ∷ us) = let rest = remove_text t us in if text_eq u t then rest else u ∷ rest

-- `deleteSendQueueDeliveredMarker`: a failure is only logged
unfoldable pub delete_delivered_marker : Env → ℕ → Text → Store → Store
delete_delivered_marker e n id s =
    if e.io n then record s { markers = remove_text (marker_name id) s.markers } else s

abbrev pub retry_delays : List ℕ
retry_delays = 30 * second ∷ 2 * minute ∷ 10 * minute ∷ hour ∷ 6 * hour ∷ []

-- `sendRetryDelay`
unfoldable pub send_retry_delay : ℕ → ℕ
send_retry_delay n =
    let attempt = if ltb n 1 then 1 else n in
    if ltb 5 attempt then get_or retry_delays 4 0 else get_or retry_delays (attempt - 1) 0

-- `item.AttemptCount >= item.MaxAttempts`
abbrev pub exhausted : Item → Bool
exhausted item = leb item.max_attempts item.attempt_count

-- when `markSendQueueFailed` lets the item be tried again
unfoldable pub next_attempt : ℕ → Item → ℕ
next_attempt now item =
    if exhausted item then now + 365 * (24 * hour) else now + send_retry_delay item.attempt_count

-- the `WHERE` of `claimSendQueueItem`
unfoldable pub claimable : ℕ → Text → Row → Bool
claimable now id r =
    by_id id r
    && (is_queued r.status || (is_failed r.status && ltb r.attempt_count r.max_attempts))
    && leb r.next_attempt_at now
    && lease_over now r.lease_until

-- its `SET`
unfoldable pub claim_row : Env → Row → Row
claim_row e r = record r {
  status = sending;
  attempt_count = r.attempt_count + 1;
  updated_at = e.now;
  lease_owner = e.worker_id;
  lease_token = new_id (codes "lease") e.random;
  lease_until = some (e.now + send_queue_lease_duration);
}

-- the `WHERE` of the statements that settle an item: it is still held under the item's lease
unfoldable pub holds : Text → Text → Row → Bool
holds id token r = by_id id r && is_sending r.status && text_eq r.lease_token token

abbrev pub release : Row → Row
release r = record r { lease_owner = []; lease_token = []; lease_until = none }

unfoldable pub deliver_row : ℕ → Row → Row
deliver_row now r = release (record r {
  status = delivered;
  delivered_at = some now;
  updated_at = now;
  last_error = [];
  mime_base64 = [];
})

unfoldable pub fail_row : ℕ → ℕ → Text → Row → Row
fail_row now next error r =
    release
      (record r { status = failed; next_attempt_at = next; last_error = error; updated_at = now })

unfoldable pub requeue_row : ℕ → Row → Row
requeue_row now r = release (record r {
  status = queued;
  next_attempt_at = now;
  last_error = codes "send attempt interrupted";
  updated_at = now;
})

-- the `WHERE` of `recoverStaleSendQueueItems`
unfoldable pub stale : ℕ → Row → Bool
stale now r =
    is_sending r.status
    && elim r.lease_until [
      | some t ↦ leb t now
      | none ↦ leb (r.updated_at + send_queue_stale_after) now
    ]
    && ltb r.attempt_count r.max_attempts

unfoldable pub select_where : (Row → Bool) → List Row → List Row
select_where p [] = []
select_where p (r ∷ rs) = let rest = select_where p rs in if p r then r ∷ rest else rest

-- `items = append(items, item)`, unless the row or a later one fails
unfoldable pub append_item : Result Item → Result (List Item) → Result (List Item)
append_item (ok item) (ok items) = ok (item ∷ items)
append_item (ok item) no_rows = no_rows
append_item (ok item) failure = failure
append_item no_rows rest = no_rows
append_item failure rest = failure

-- `if err != nil { return err }`
unfoldable pub and_then :
    Result (Unit {0}) × Store → (Store → Result (Unit {0}) × Store) → Result (Unit {0}) × Store
and_then (ok _, s) k = k s
and_then (no_rows, s) k = (no_rows, s)
and_then (failure, s) k = (failure, s)

module _ (std : Std) where
  open std use {base64_decode}

  -- the end of `claimSendQueueItem`: the claimed row with its message decoded
  unfoldable pub load_item : Option Row → Result Item
  load_item none = no_rows
  load_item (some r) = elim (base64_decode r.mime_base64) [
    | none ↦ failure
    | some mime ↦ ok (item_of r mime)
  ]

  unfoldable pub claim_send_queue_item : Env → Text → Store → Result Item × Store
  claim_send_queue_item e id s =
      let rows' = update_where (claimable e.now id) (claim_row e) s.rows in
      let token = new_id (codes "lease") e.random in
      let s' : Store = record s { rows = rows' } in
      if e.io 0
      then if affected (claimable e.now id) s.rows == 0
        then (no_rows, s)
        else if e.io 1
        then (load_item (select_row (λ r. by_id id r && text_eq r.lease_token token) rows'), s')
        else (failure, s')
      else (failure, s)

  -- `markSendQueueDelivered`; `n` is the number of its first database call
  unfoldable pub mark_send_queue_delivered : Env → ℕ → Item → Store → Result (Unit {0}) × Store
  mark_send_queue_delivered e n item s =
      let held = holds item.id item.lease_token in
      let s' : Store = record s { rows = update_where held (deliver_row e.now) s.rows } in
      if e.io n
      then if affected held s.rows == 0 then (no_rows, s) else (
        ok tt,
        record_send_audit std e audit_delivered delivered (send_audit_input_from_queue item [])
            (delete_delivered_marker e (n + 1) item.id s'),
      )
      else (failure, s)

  unfoldable pub mark_send_queue_failed : Env → Item → Text → Store → Store
  mark_send_queue_failed e item error s =
      let held = holds item.id item.lease_token in
      let f = fail_row e.now (next_attempt e.now item) error in
      let s' : Store = record s { rows = update_where held f s.rows } in
      if e.io 0
      then if affected held s.rows == 0
        then s
        else record_send_audit std e (if exhausted item then audit_failed else audit_retry) failed
            (send_audit_input_from_queue item error) s'
      else s

  -- the end of `processSendQueueItem`, by the answer of `sendSMTP`; each call has its own clock
  unfoldable pub settle : Env → Env → Item → Option Text → Store → Store
  settle e₁ e₂ item (some error) s = mark_send_queue_failed e₁ item error s
  settle e₁ e₂ item none s =
      let s' : Store = record s { sends = s.sends ++ item.id ∷ [] } in
      (mark_send_queue_delivered e₂ 0 item (write_delivered_marker e₁ item.id s')).1

  -- the rest of `processSendQueueItem` behind the claim
  unfoldable pub after_claim : Env → Env → (Item → Option Text) → Result Item × Store → Store
  after_claim e₁ e₂ smtp (ok item, s) = settle e₁ e₂ item (smtp item) s
  after_claim e₁ e₂ smtp (no_rows, s) = s
  after_claim e₁ e₂ smtp (failure, s) = s

  -- `processSendQueueItem`; `smtp` is what `sendSMTP` answers, `none` for no error
  unfoldable pub process_send_queue_item :
      Env → Env → Env → (Item → Option Text) → Text → Store → Store
  process_send_queue_item e₀ e₁ e₂ smtp id s =
      after_claim e₁ e₂ smtp (claim_send_queue_item e₀ id s)

  -- the body of the scanning loop of `recoverStaleSendQueueItems`; `n` numbers its file calls
  unfoldable pub scan_row : Env → ℕ → Store → Row → Result Item
  scan_row e n s r = elim (has_delivered_marker e n r.id s) [
    | ok true ↦ ok (item_of r [])
    | ok false ↦ elim (base64_decode r.mime_base64) [
      | none ↦ failure
      | some mime ↦ ok (item_of r mime)
    ]
    | no_rows ↦ no_rows
    | failure ↦ failure
  ]

  unfoldable pub scan_stale : Env → ℕ → Store → List Row → Result (List Item)
  scan_stale e n s [] = ok []
  scan_stale e n s (r ∷ rs) = append_item (scan_row e n s r) (scan_stale e (suc n) s rs)

  -- the `UPDATE` for an item that was not sent, with its audit
  unfoldable pub requeue_item : Env → Item → Store → Store
  requeue_item e item s =
      let held = holds item.id item.lease_token in
      let s' : Store = record s { rows = update_where held (requeue_row e.now) s.rows } in
      if affected held s.rows == 0
      then s
      else record_send_audit std e audit_retry queued
          (send_audit_input_from_queue item (codes "send attempt interrupted")) s'

  -- the body of its second loop: an item is finished, by its marker, or queued again
  unfoldable pub recover_item : Env → ℕ → Item → Store → Result (Unit {0}) × Store
  recover_item e n item s = elim (has_delivered_marker e n item.id s) [
    | ok true ↦ mark_send_queue_delivered e (n + 1) item s
    | ok false ↦ if e.io (n + 1) then (ok tt, requeue_item e item s) else (failure, s)
    | no_rows ↦ (no_rows, s)
    | failure ↦ (failure, s)
  ]

  unfoldable pub recover_items : Env → ℕ → List Item → Store → Result (Unit {0}) × Store
  recover_items e n [] s = (ok tt, s)
  recover_items e n (item ∷ items) s =
      and_then (recover_item e n item s) (recover_items e (n + 3) items)

  unfoldable pub recover_stale_send_queue_items : Env → Store → Result (Unit {0}) × Store
  recover_stale_send_queue_items e s =
      if e.io 0
      then elim (scan_stale e 1 s (take 20 (select_where (stale e.now) s.rows))) [
        | ok items ↦ recover_items e 21 items s
        | no_rows ↦ (no_rows, s)
        | failure ↦ (failure, s)
      ]
      else (failure, s)
