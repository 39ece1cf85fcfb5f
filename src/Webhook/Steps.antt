-- ===== src/Webhook/Steps.antt =====
-- The steps of the program on the outbox, of any number of workers and of administrators, and what a
-- run of the worker preserves.
use lan_qin_email.Prelude.{
  ℕ, suc, ◌≤◌, ◌<◌, ◌≡◌, Bool, true, false, ◌&&◌, Option, none, some, List, [], ◌∷◌, ltb,
  if◌then◌else◌, and_true, if_keeps, ltb→lt, leb→le, leb,
}
use lan_qin_email.Prelude.Text.{Text, text_eq, text_eq_iff, is_empty, trim_space}
use lan_qin_email.Prelude.Rows.{select_first}
use lan_qin_email.Webhook.{
  Event, Outbox, status_webhook_max_attempts, enqueue_status_webhook, clean_up, due, undelivered,
  unleased, claimable, claim_and_post, settle, leased_row, settle_read, settle_claim, process_ids,
  due_ids, process_due_status_webhooks, admin_retry_event, admin_cancel_event,
  delete_mailbox_events, restartable,
}
use lan_qin_email.Queue.Control.{Reply, done}

-- how often an event was posted
unfoldable pub times : Text → List Text → ℕ
times id [] = 0
times id (p ∷ ps) = let rest = times id ps in if text_eq p id then suc rest else rest

-- a step of the program: putting an event in, cleaning up, the two halves of a worker's turn, which
-- other steps may part, a whole run of the worker, and an administrator's retry and cancellation,
-- and the deletion of a mailbox
pub data Step : Type 0 where
  enqueue : (url : Text) (now : ℕ) (id key mailbox payload : Text) → Step
  cleanup : (now : ℕ) → Step
  claim : (now : ℕ) (token id : Text) → Step
  finish : (now : ℕ) (token id : Text) (attempt : ℕ) (ok : Bool) → Step
  restart : (now : ℕ) (param : Text) → Step
  cancel : (now : ℕ) (param : Text) → Step
  delete_mailbox : (mailbox : Text) → Step
  process : (url : Text) (deliver : Text → Text → Bool) (now : ℕ) (tokens : ℕ → Text) → Step

abbrev pub take_step : Step → Outbox → Outbox
take_step (enqueue url now id key mailbox payload) s =
    enqueue_status_webhook url now id key mailbox payload s
take_step (cleanup now) s = clean_up now s
take_step (claim now token id) s = (claim_and_post now token id s).1
take_step (finish now token id attempt ok) s = settle now token id attempt ok s
take_step (restart now param) s = (admin_retry_event now param s).1
take_step (cancel now param) s = (admin_cancel_event now param s).1
take_step (delete_mailbox mailbox) s = delete_mailbox_events mailbox s
take_step (process url deliver now tokens) s = process_due_status_webhooks url deliver now tokens s

abbrev pub run : List Step → Outbox → Outbox
run [] s = s
run (t ∷ ts) s = run ts (take_step t s)

-- the id of a new event was not drawn before: no event with it was posted
abbrev pub IsNew : Step → Outbox → Type 0
IsNew (enqueue url now id key mailbox payload) s = times id s.posts ≡ 0
IsNew (cleanup now) s = Unit
IsNew (claim now token id) s = Unit
IsNew (finish now token id attempt ok) s = Unit
IsNew (restart now param) s = Unit
IsNew (cancel now param) s = Unit
IsNew (delete_mailbox mailbox) s = Unit
IsNew (process url deliver now tokens) s = Unit

abbrev pub AreNew : List Step → Outbox → Type 0
AreNew [] s = Unit
AreNew (t ∷ ts) s = IsNew t s × AreNew ts (take_step t s)

-- whether a step is a retry of the event that an administrator asked for and was granted
abbrev pub is_done : Reply → Bool
is_done done = true
is_done r = false

abbrev pub restarts : Text → Step → Outbox → Bool
restarts id (restart now param) s =
    text_eq (trim_space param) id && is_done (admin_retry_event now param s).0
restarts id t s = false

abbrev pub add_if : Bool → ℕ → ℕ
add_if true n = suc n
add_if false n = n

-- how many retries of the event were granted
abbrev pub granted : Text → List Step → Outbox → ℕ
granted id [] s = 0
granted id (t ∷ ts) s = add_if (restarts id t s) (granted id ts (take_step t s))

pub claimable-facts :
    (now : ℕ) (of : Text) (e : Event)
    → claimable now of e ≡ true
    → (e.id ≡ of) × (e.attempt_count < 10)
claimable-facts now of e h =
    let (i, d) = and_true (text_eq e.id of) (due now e) h in
    let (u, rest) =
      and_true (undelivered e)
        (ltb e.attempt_count status_webhook_max_attempts
          && (leb e.next_attempt_at now && unleased now e.lease_until))
        d in
    let (l, more) =
      and_true (ltb e.attempt_count status_webhook_max_attempts)
        (leb e.next_attempt_at now && unleased now e.lease_until) rest in
    ((text_eq_iff e.id of).0 i, ltb→lt e.attempt_count 10 l)

pub restartable-facts :
    (now : ℕ) (of : Text) (e : Event)
    → restartable now of e ≡ true
    → (e.id ≡ of) × (10 ≤ e.attempt_count)
restartable-facts now of e h =
    let (i, d) =
      and_true (text_eq e.id of)
        (undelivered e
          && (leb status_webhook_max_attempts e.attempt_count && unleased now e.lease_until))
        h in
    let (u, rest) =
      and_true (undelivered e)
        (leb status_webhook_max_attempts e.attempt_count && unleased now e.lease_until) d in
    let (l, more) =
      and_true (leb status_webhook_max_attempts e.attempt_count) (unleased now e.lease_until)
        rest in
    ((text_eq_iff e.id of).0 i, leb→le 10 e.attempt_count l)

-- what every half of a turn preserves, a run of the worker preserves
module _ (P : Outbox → Type 0) (cleaned : (now : ℕ) (s : Outbox) → P s → P (clean_up now s))
    (claimed : (now : ℕ) (token of : Text) (s : Outbox) → P s → P (claim_and_post now token of s).1)
    (settled : (now : ℕ) (token of : Text) (attempt : ℕ) (ok : Bool) (s : Outbox)
      → P s
      → P (settle now token of attempt ok s)) where
  settle_read_keeps :
      (deliver : Text → Text → Bool) (now : ℕ) (token id : Text) (o : Option Event) (s : Outbox)
      → P s
      → P (settle_read deliver now token id o s)
  settle_read_keeps deliver now token id none s p = p
  settle_read_keeps deliver now token id (some e) s p =
      settled now token id e.attempt_count (deliver e.id e.payload) s p

  settle_claim_keeps :
      (deliver : Text → Text → Bool) (now : ℕ) (token id : Text) (r : Bool × Outbox)
      → P r.1
      → P (settle_claim deliver now token id r)
  settle_claim_keeps deliver now token id (false, s) p = p
  settle_claim_keeps deliver now token id (true, s) p =
      settle_read_keeps deliver now token id (select_first (leased_row token id) s.rows) s p

  process_ids_keeps :
      (deliver : Text → Text → Bool) (now : ℕ) (tokens : ℕ → Text) (i : ℕ) (ids : List Text)
      (s : Outbox)
      → P s
      → P (process_ids deliver now tokens i ids s)
  unfolding process_ids
  process_ids_keeps deliver now tokens i [] s p = p
  process_ids_keeps deliver now tokens i (id ∷ ids) s p =
      process_ids_keeps deliver now tokens (suc i) ids
        (settle_claim deliver now (tokens i) id (claim_and_post now (tokens i) id s))
        (settle_claim_keeps deliver now (tokens i) id (claim_and_post now (tokens i) id s)
          (claimed now (tokens i) id s p))

  pub process_keeps :
      (url : Text) (deliver : Text → Text → Bool) (now : ℕ) (tokens : ℕ → Text) (s : Outbox)
      → P s
      → P (process_due_status_webhooks url deliver now tokens s)
  unfolding process_due_status_webhooks
  process_keeps url deliver now tokens s p =
      let c = clean_up now s in
      if_keeps P (is_empty (trim_space url)) (λ off. p)
        (λ on. process_ids_keeps deliver now tokens 0 (due_ids now c.rows) c (cleaned now s p))
