-- ===== src/Queue/Spared/Control.antt =====
-- What the handlers and the cleanup do to the other rows of the queue.
use lan_qin_email.Prelude.{
  ℕ, ◌≡◌, refl, ◌∙◌, Bool, false, ◌&&◌, ◌||◌, not, Option, none, some, arith, if◌then◌else◌,
  if_keeps, ◌==◌,
}
use lan_qin_email.Prelude.Text.{Text, trim_space, is_empty}
use lan_qin_email.Std.{Std}
use lan_qin_email.Queue.{
  Row, Store, Env, update_where, affected, by_id, is_failed, is_queued, audit_retry, audit_canceled,
  canceled, queued,
}
use lan_qin_email.Queue.Table.{IsAt, KeepsId, IsAt-update_false, IsAt-delete}
use lan_qin_email.Queue.Worker.{delete_delivered_marker}
use lan_qin_email.Queue.Control.{
  admin_retriable, admin_retry_row, admin_cancelable, admin_cancel_row, admin_send_mutation,
  expired, cleanup_send_queue, change_entry, retry_found, retry_send_queue, cancel_found,
  cancel_send_queue, retry_row, cancel_row, audit_input_from_entry, Reply,
}
use lan_qin_email.Queue.Held.{rows-record_send_audit, rows-delete_marker}

admin_retry_row-id : (now : ℕ) → KeepsId (admin_retry_row now)
unfolding admin_retry_row
admin_retry_row-id now r = refl

admin_cancel_row-id : (now : ℕ) → KeepsId (admin_cancel_row now)
unfolding admin_cancel_row
admin_cancel_row-id now r = refl

retry_row-id : (now : ℕ) → KeepsId (retry_row now)
unfolding retry_row
retry_row-id now r = refl

cancel_row-id : (now : ℕ) → KeepsId (cancel_row now)
unfolding cancel_row
cancel_row-id now r = refl

pub admin-IsAt :
    (e : Env) (again : Bool) (i : Text) (s : Store) (id : Text) {r : Row}
    → (if again
          then admin_retriable e.now (trim_space i)
          else admin_cancelable e.now (trim_space i))
        r
      ≡ false
    → IsAt id r s.rows
    → IsAt id r (admin_send_mutation e again i s).1.rows
unfolding admin_send_mutation
admin-IsAt e again i s id {r} out h =
    if_keeps P (is_empty (trim_space i)) (λ blank. h)
      (λ named.
        if_keeps P (not (e.io 0)) (λ broken. h)
          (λ made.
            if_keeps P (affected p s.rows == 0) (λ clean. h)
              (λ hit. IsAt-update_false p f id s.rows keeps out h)))
  where
    P : Reply × Store → Type 0
    P m = IsAt id r m.1.rows

    p : Row → Bool
    p =
        if again
        then admin_retriable e.now (trim_space i)
        else admin_cancelable e.now (trim_space i)

    f : Row → Row
    f = if again then admin_retry_row e.now else admin_cancel_row e.now

    keeps : KeepsId f
    keeps =
        if_keeps KeepsId again (λ on. admin_retry_row-id e.now) (λ off. admin_cancel_row-id e.now)

pub cleanup-IsAt :
    (e : Env) (s : Store) (id : Text) {r : Row}
    → expired e.now r ≡ false
    → IsAt id r s.rows
    → IsAt id r (cleanup_send_queue e s).rows
unfolding cleanup_send_queue
cleanup-IsAt e s id {r} out h =
    if_keeps (λ (t : Store). IsAt id r t.rows) (e.io 0)
      (λ made. IsAt-delete (expired e.now) id s.rows out h) (λ broken. h)

and_false_last : (a b c : Bool) → b ≡ false → (a && b && c) ≡ false
and_false_last a b c h = ground arith

module _ (std : Std) where
  change_entry-IsAt :
      (e : Env) (p : Row → Bool) (f : Row → Row) (after : Store → Store) (s : Store) (id : Text)
      {r : Row}
      → KeepsId f
      → ((t : Store) → (after t).rows ≡ t.rows)
      → p r ≡ false
      → IsAt id r s.rows
      → IsAt id r (change_entry std e p f after s).1.rows
  unfolding change_entry
  change_entry-IsAt e p f after s id {r} keeps same out h =
      if_keeps P (not (e.io 1)) (λ broken. h)
        (λ made.
          if_keeps P (affected p s.rows == 0) (λ clean. h)
            (λ hit.
              rw (same (record s { rows = update_where p f s.rows }))
                (IsAt-update_false p f id s.rows keeps out h)))
    where
      P : Reply × Store → Type 0
      P m = IsAt id r m.1.rows

  retry_found-IsAt :
      (e : Env) (user_id : Text) (owns : Text → Bool) (i : Text) (found : Option Row) (s : Store)
      (id : Text) {r : Row}
      → is_failed r.status ≡ false
      → IsAt id r s.rows
      → IsAt id r (retry_found std e user_id owns i found s).1.rows
  unfolding retry_found
  retry_found-IsAt e user_id owns i none s id out h = h
  retry_found-IsAt e user_id owns i (some item) s id {r} out h =
      if_keeps (λ (m : Reply × Store). IsAt id r m.1.rows) (not (is_failed item.status)) (λ bad. h)
        (λ good.
          change_entry-IsAt e _ (retry_row e.now) _ s id (retry_row-id e.now)
            (λ t.
              rows-record_send_audit std e audit_retry queued (audit_input_from_entry item user_id)
                (delete_delivered_marker e 2 i t)
              ∙ rows-delete_marker e 2 i t)
            (and_false_last (by_id i r) _ (owns r.mailbox_id) out) h)

  pub retry-IsAt :
      (e : Env) (user_id : Text) (owns : Text → Bool) (i : Text) (s : Store) (id : Text) {r : Row}
      → is_failed r.status ≡ false
      → IsAt id r s.rows
      → IsAt id r (retry_send_queue std e user_id owns i s).1.rows
  unfolding retry_send_queue
  retry-IsAt e user_id owns i s id {r} out h =
      if_keeps (λ (m : Reply × Store). IsAt id r m.1.rows) (e.io 0)
        (λ read. retry_found-IsAt e user_id owns (trim_space i) _ s id out h) (λ broken. h)

  cancel_found-IsAt :
      (e : Env) (user_id : Text) (owns : Text → Bool) (i : Text) (found : Option Row) (s : Store)
      (id : Text) {r : Row}
      → (is_queued r.status || is_failed r.status) ≡ false
      → IsAt id r s.rows
      → IsAt id r (cancel_found std e user_id owns i found s).1.rows
  unfolding cancel_found
  cancel_found-IsAt e user_id owns i none s id out h = h
  cancel_found-IsAt e user_id owns i (some item) s id {r} out h =
      if_keeps (λ (m : Reply × Store). IsAt id r m.1.rows)
        (not (is_queued item.status) && not (is_failed item.status)) (λ bad. h)
        (λ good.
          change_entry-IsAt e _ (cancel_row e.now) _ s id (cancel_row-id e.now)
            (λ t.
              rows-record_send_audit std e audit_canceled canceled
                (audit_input_from_entry item user_id) (delete_delivered_marker e 2 i t)
              ∙ rows-delete_marker e 2 i t)
            (and_false_last (by_id i r) _ (owns r.mailbox_id) out) h)

  pub cancel-IsAt :
      (e : Env) (user_id : Text) (owns : Text → Bool) (i : Text) (s : Store) (id : Text) {r : Row}
      → (is_queued r.status || is_failed r.status) ≡ false
      → IsAt id r s.rows
      → IsAt id r (cancel_send_queue std e user_id owns i s).1.rows
  unfolding cancel_send_queue
  cancel-IsAt e user_id owns i s id {r} out h =
      if_keeps (λ (m : Reply × Store). IsAt id r m.1.rows) (e.io 0)
        (λ read. cancel_found-IsAt e user_id owns (trim_space i) _ s id out h) (λ broken. h)
