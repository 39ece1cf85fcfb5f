-- ===== src/Queue/Spared.antt =====
-- Which rows an action leaves as they are, for every action on the queue.
pub mod Enqueue
pub mod Control
use lan_qin_email.Prelude.{
  ℕ, ◌+◌, ◌≤◌, ◌<◌, ◌≡◌, refl, ap, sym, ◌∙◌, Bool, true, false, ◌&&◌, ◌||◌, not, Option, none, some,
  some-injective, List, [], ◌∷◌, ◌++◌, arith, if◌then◌else◌, All, any, Bool-cases, if_keeps,
  Option-cases, inl, inr, ◌==◌, ◌⊎◌, leb, ltb,
}
use lan_qin_email.Prelude.Text.{Text, codes, text_eq, text_eq_iff, trim_space, is_empty}
use lan_qin_email.Std.{Std}
use lan_qin_email.Queue.{
  Status, Row, Store, Env, update_where, affected, by_id, is_failed, is_queued, Result, ok, no_rows,
  failure, select_row, record_send_audit, audit_queued, queued, new_id,
}
use lan_qin_email.Queue.Table.{
  IsAt, KeepsId, IsAt-update_false, IsAt-append, IsAt-delete, update_where-none, by_id_iff,
  IsAt-by_id,
}
use lan_qin_email.Queue.Worker.{
  Item, holds, stale, claimable, claim_row, deliver_row, fail_row, next_attempt,
  delete_delivered_marker,
}
use lan_qin_email.Queue.Enqueue.{
  SendQueueInput, same_key, clashes, insert_ignore, same_status, finished, new_row, reopen_row,
  reopen, after_insert, enqueue_send, audit_input,
}
use lan_qin_email.Queue.Control.{
  admin_retriable, admin_retry_row, admin_cancelable, admin_cancel_row, admin_send_mutation,
  expired, cleanup_send_queue, change_entry, retry_found, retry_send_queue, cancel_found,
  cancel_send_queue, retry_row, cancel_row, Reply,
}
use lan_qin_email.Queue.Actions.{
  Action, claim, deliver, fail, mark, recover, enqueue, admin, retry, cancel, cleanup, perform,
  perform_all,
}
use lan_qin_email.Queue.Held.{
  rows-record_send_audit, rows-delete_marker, rows-write_marker, rows-claim, rows-deliver,
  rows-fail, IsAt-maybe_update, claim_row-id, deliver_row-id, fail_row-id, recover-IsAt,
}
use lan_qin_email.Queue.Spared.Enqueue.{enqueue-IsAt}
use lan_qin_email.Queue.Spared.Control.{admin-IsAt, retry-IsAt, cancel-IsAt, cleanup-IsAt}

-- what each action asks of a row before it changes it fails
abbrev pub Spares : Row → Action → Type 0
Spares r (claim e id) = claimable e.now id r ≡ false
Spares r (deliver e item) = holds item.id item.lease_token r ≡ false
Spares r (fail e item error) = holds item.id item.lease_token r ≡ false
Spares r (mark e id) = Unit
Spares r (recover e) = stale e.now r ≡ false
Spares r (enqueue e x) =
    (same_key x.mailbox_id x.source (trim_space x.message_id) r && finished r) ≡ false
Spares r (admin e true id) = admin_retriable e.now (trim_space id) r ≡ false
Spares r (admin e false id) = admin_cancelable e.now (trim_space id) r ≡ false
Spares r (retry e user_id owns id) = is_failed r.status ≡ false
Spares r (cancel e user_id owns id) = (is_queued r.status || is_failed r.status) ≡ false
Spares r (cleanup e) = expired e.now r ≡ false

module _ (std : Std) where
  claim-IsAt :
      (e : Env) (i id : Text) (s : Store) {r : Row}
      → Spares r (claim e i)
      → IsAt id r s.rows
      → IsAt id r (perform std (claim e i) s).rows
  unfolding perform
  claim-IsAt e i id s out h =
      rw (rows-claim std e i s)
        (IsAt-maybe_update std (e.io 0) _ (claim_row e) id s.rows (claim_row-id e) out h)

  -- An action that asks of the row what fails leaves it in the table as it is.
  pub perform-IsAt :
      (a : Action) (s : Store) (id : Text) {r : Row}
      → Spares r a
      → IsAt id r s.rows
      → IsAt id r (perform std a s).rows
  perform-IsAt (claim e i) s id out h = claim-IsAt e i id s out h
  perform-IsAt (deliver e item) s id out h =
      unfold perform in
      rw (rows-deliver std e 0 item s) (
        IsAt-maybe_update std (e.io 0) _ (deliver_row e.now) id s.rows (deliver_row-id e.now) out h)
  perform-IsAt (fail e item error) s id out h =
      unfold perform in
      rw (rows-fail std e item error s) (
        IsAt-maybe_update std (e.io 0) _ _ id s.rows
          (fail_row-id e.now (next_attempt e.now item) error) out h)
  perform-IsAt (mark e i) s id out h = unfold perform in rw (rows-write_marker e i s) h
  perform-IsAt (recover e) s id out h = unfold perform in recover-IsAt std e s id out h
  perform-IsAt (enqueue e x) s id out h = unfold perform in enqueue-IsAt std e x s id out h
  perform-IsAt (admin e true i) s id out h = unfold perform in admin-IsAt e true i s id out h
  perform-IsAt (admin e false i) s id out h = unfold perform in admin-IsAt e false i s id out h
  perform-IsAt (retry e user_id owns i) s id out h =
      unfold perform in retry-IsAt std e user_id owns i s id out h
  perform-IsAt (cancel e user_id owns i) s id out h =
      unfold perform in cancel-IsAt std e user_id owns i s id out h
  perform-IsAt (cleanup e) s id out h = unfold perform in cleanup-IsAt e s id out h
