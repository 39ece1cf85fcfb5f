-- ===== src/Queue/Lease.antt =====
-- What a lease and a final status protect: sequences of actions that cannot change a row.
use lan_qin_email.Prelude.{ℕ, ◌+◌, ◌≤◌, ◌<◌, ◌≡◌, true, false, some, List, [], ◌∷◌, arith, All}
use lan_qin_email.Prelude.Text.{Text, text_eq, trim_space}
use lan_qin_email.Std.{Std}
use lan_qin_email.Queue.{sending, delivered, send_queue_retention, Row, Store}
use lan_qin_email.Queue.Table.{IsAt}
use lan_qin_email.Queue.Worker.{holds, stale, claimable}
use lan_qin_email.Queue.Enqueue.{same_key, finished}
use lan_qin_email.Queue.Control.{admin_retriable, admin_cancelable, expired}
use lan_qin_email.Queue.Actions.{
  Action, claim, deliver, fail, mark, recover, enqueue, admin, retry, cancel, cleanup, perform,
  perform_all,
}
use lan_qin_email.Queue.Spared.{Spares, perform-IsAt}

-- an action of somebody who does not hold the row's lease token
abbrev pub IsOutsider : Row → Action → Type 0
IsOutsider r (deliver e item) = text_eq r.lease_token item.lease_token ≡ false
IsOutsider r (fail e item error) = text_eq r.lease_token item.lease_token ≡ false
IsOutsider r _ = Unit

-- an action that takes place before a point of time, if it is a recovery
abbrev pub RecoversBefore : ℕ → Action → Type 0
RecoversBefore t (recover e) = e.now < t
RecoversBefore t _ = Unit

-- an action that leaves finished entries alone: no request for the row's message, no cleanup once
-- the row's retention is over
abbrev pub IsForeign : Row → Action → Type 0
IsForeign r (enqueue e x) = same_key x.mailbox_id x.source (trim_space x.message_id) r ≡ false
IsForeign r (cleanup e) = e.now ≤ r.updated_at + send_queue_retention
IsForeign r _ = Unit

leased-Spares :
    (r : Row) (t : ℕ) (a : Action)
    → r.status ≡ sending
    → r.lease_until ≡ some t
    → IsOutsider r a
    → RecoversBefore t a
    → Spares r a
unfolding claimable holds stale finished admin_retriable admin_cancelable expired
leased-Spares r t (claim e id) st lease out early = ground arith
leased-Spares r t (deliver e item) st lease out early = ground arith
leased-Spares r t (fail e item error) st lease out early = ground arith
leased-Spares r t (mark e id) st lease out early = tt
leased-Spares r t (recover e) st lease out early = ground arith
leased-Spares r t (enqueue e x) st lease out early = ground arith
leased-Spares r t (admin e true id) st lease out early = ground arith
leased-Spares r t (admin e false id) st lease out early = ground arith
leased-Spares r t (retry e user_id owns id) st lease out early = ground arith
leased-Spares r t (cancel e user_id owns id) st lease out early = ground arith
leased-Spares r t (cleanup e) st lease out early = ground arith

stuck-Spares :
    (r : Row) (a : Action)
    → r.status ≡ sending
    → r.max_attempts ≤ r.attempt_count
    → IsOutsider r a
    → Spares r a
unfolding claimable holds stale finished admin_retriable admin_cancelable expired
stuck-Spares r (claim e id) st spent out = ground arith
stuck-Spares r (deliver e item) st spent out = ground arith
stuck-Spares r (fail e item error) st spent out = ground arith
stuck-Spares r (mark e id) st spent out = tt
stuck-Spares r (recover e) st spent out = ground arith
stuck-Spares r (enqueue e x) st spent out = ground arith
stuck-Spares r (admin e true id) st spent out = ground arith
stuck-Spares r (admin e false id) st spent out = ground arith
stuck-Spares r (retry e user_id owns id) st spent out = ground arith
stuck-Spares r (cancel e user_id owns id) st spent out = ground arith
stuck-Spares r (cleanup e) st spent out = ground arith

delivered-Spares : (r : Row) (a : Action) → r.status ≡ delivered → IsForeign r a → Spares r a
unfolding claimable holds stale finished admin_retriable admin_cancelable expired
delivered-Spares r (claim e id) st far = ground arith
delivered-Spares r (deliver e item) st far = ground arith
delivered-Spares r (fail e item error) st far = ground arith
delivered-Spares r (mark e id) st far = tt
delivered-Spares r (recover e) st far = ground arith
delivered-Spares r (enqueue e x) st far = ground arith
delivered-Spares r (admin e true id) st far = ground arith
delivered-Spares r (admin e false id) st far = ground arith
delivered-Spares r (retry e user_id owns id) st far = ground arith
delivered-Spares r (cancel e user_id owns id) st far = ground arith
delivered-Spares r (cleanup e) st far = ground arith

module _ (std : Std) (id : Text) (r : Row) where
  spared_throughout :
      (actions : List Action) (s : Store)
      → All (Spares r) actions
      → IsAt id r s.rows
      → IsAt id r (perform_all std actions s).rows
  unfolding perform_all
  spared_throughout [] s free h = h
  spared_throughout (a ∷ rest) s (here, free) h =
      spared_throughout rest (perform std a s) free (perform-IsAt std a s id here h)

  All-Spares :
      (P : Action → Type 0) (actions : List Action)
      → ((a : Action) → P a → Spares r a)
      → All P actions
      → All (Spares r) actions
  All-Spares P [] f h = tt
  All-Spares P (a ∷ rest) f (ha, hs) = (f a ha, All-Spares P rest f hs)

  -- A row that a worker has claimed stays exactly as the claim left it through any sequence of
  -- actions of workers with other lease tokens, of requests, of retries and cancellations by users
  -- and administrators and of cleanups, as long as every recovery among them runs before the lease
  -- ends: no second worker gets the item.
  pub lease_exclusive :
      (t : ℕ) (actions : List Action) (s : Store)
      → r.status ≡ sending
      → r.lease_until ≡ some t
      → All (λ a. IsOutsider r a × RecoversBefore t a) actions
      → IsAt id r s.rows
      → IsAt id r (perform_all std actions s).rows
  lease_exclusive t actions s st lease outside =
      spared_throughout actions s
        (All-Spares _ actions (λ a h. leased-Spares r t a st lease h.0 h.1) outside)

  -- A row that was claimed for its last attempt stays in the status `sending` for ever, at whatever
  -- times the actions run, unless the worker with its lease token settles it: neither recovery nor
  -- retry nor cancellation nor cleanup nor a new request for the same message reaches it.
  pub last_attempt_stuck :
      (actions : List Action) (s : Store)
      → r.status ≡ sending
      → r.max_attempts ≤ r.attempt_count
      → All (IsOutsider r) actions
      → IsAt id r s.rows
      → IsAt id r (perform_all std actions s).rows
  last_attempt_stuck actions s st spent outside =
      spared_throughout actions s
        (All-Spares _ actions (λ a h. stuck-Spares r a st spent h) outside)

  -- A delivered row stays as it is through any sequence of actions, by workers with any lease token
  -- included, that has no new request for the same message and no cleanup after the retention.
  pub delivered_final :
      (actions : List Action) (s : Store)
      → r.status ≡ delivered
      → All (IsForeign r) actions
      → IsAt id r s.rows
      → IsAt id r (perform_all std actions s).rows
  delivered_final actions s st far =
      spared_throughout actions s (All-Spares _ actions (λ a h. delivered-Spares r a st h) far)
