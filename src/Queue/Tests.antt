-- ===== src/Queue/Tests.antt =====
-- The queue on concrete tables: tests, and the theorems at inputs that meet their hypotheses.
use lan_qin_email.Prelude.{
  ℕ, ◌*◌, ◌+◌, ◌&&◌, ltb, leb, ◌≤◌, ◌≡◌, refl, true, false, Option, none, some, List, [], ◌∷◌,
  arith,
}
use lan_qin_email.Prelude.Text.{Text, codes, text_eq}
use lan_qin_email.Std.Ascii.{ascii}
use lan_qin_email.Queue.{
  lease_over, new_id, no_rows, minute, second, hour, queued, sending, delivered, Row, Store, Env,
  ok,
}
use lan_qin_email.Queue.Table.{IsAt}
use lan_qin_email.Queue.Worker.{
  Item, item_of, holds, stale, send_retry_delay, claimable, claim_send_queue_item,
  process_send_queue_item,
}
use lan_qin_email.Queue.Actions.{
  Action, claim, deliver, fail, recover, admin, cancel, cleanup, perform_all,
}
use lan_qin_email.Queue.Lease.{lease_exclusive, last_attempt_stuck, delivered_final}
use lan_qin_email.Queue.Outcome.{Outcome, claim_granted, process_outcome}
use lan_qin_email.Queue.Delay.{send_retry_delay_bounds}
use lan_qin_email.Queue.Sending.{process_refused}

abbrev env : ℕ → Env
env t = record {
  now = t;
  random = codes "r";
  worker_id = codes "w";
  smtp_host = codes "localhost";
  io = λ n. true;
  audit_io = true;
}

abbrev waiting : Row
waiting = record {
  id = codes "snd_1";
  user_id = codes "u";
  mailbox_id = codes "m";
  sent_message_id = [];
  message_id = codes "id@x";
  source = codes "webmail";
  mail_from = codes "a@x";
  header_from = codes "a@x";
  recipients = codes "b@y" ∷ [];
  mime_base64 = codes "mime";
  status = queued;
  attempt_count = 0;
  max_attempts = 5;
  next_attempt_at = 10;
  last_error = [];
  created_at = 10;
  updated_at = 10;
  delivered_at = none;
  lease_owner = [];
  lease_token = [];
  lease_until = none;
}

abbrev leased : Row
leased = record waiting {
  status = sending;
  attempt_count = 1;
  lease_token = codes "lease_a";
  lease_until = some 100;
}

abbrev spent : Row
spent = record leased { attempt_count = 5 }

abbrev settled : Row
settled = record waiting { status = delivered; attempt_count = 1; delivered_at = some 20 }

abbrev table : Row → Store
table r = record { rows = r ∷ []; audits = []; markers = []; sends = [] }

abbrev at_waiting : IsAt (codes "snd_1") waiting (table waiting).rows
unfolding text_eq
at_waiting = record { there = refl; only = ((λ e. refl), tt) }

abbrev at_leased : IsAt (codes "snd_1") leased (table leased).rows
unfolding text_eq
at_leased = record { there = refl; only = ((λ e. refl), tt) }

at_spent : IsAt (codes "snd_1") spent (table spent).rows
unfolding text_eq
at_spent = record { there = refl; only = ((λ e. refl), tt) }

at_settled : IsAt (codes "snd_1") settled (table settled).rows
unfolding text_eq
at_settled = record { there = refl; only = ((λ e. refl), tt) }

abbrev stranger : Item
stranger = item_of (record leased { lease_token = codes "lease_b" }) []

abbrev bustle : ℕ → List Action
bustle t =
    claim (env t) (codes "snd_1")
    ∷ deliver (env t) stranger
    ∷ recover (env t)
    ∷ fail (env t) stranger (codes "late")
    ∷ admin (env t) false (codes "snd_1")
    ∷ cancel (env t) (codes "u") (λ m. true) (codes "snd_1")
    ∷ cleanup (env t)
    ∷ []

lease_exclusive_example :
    IsAt (codes "snd_1") leased (perform_all ascii (bustle 50) (table leased)).rows
unfolding text_eq
lease_exclusive_example =
    lease_exclusive ascii (codes "snd_1") leased 100 (bustle 50) (table leased) refl refl
      (ground arith) at_leased

last_attempt_stuck_example :
    IsAt (codes "snd_1") spent (perform_all ascii (bustle (1000 * hour)) (table spent)).rows
unfolding text_eq
last_attempt_stuck_example =
    last_attempt_stuck ascii (codes "snd_1") spent (bustle (1000 * hour)) (table spent) refl
      (omega arith) (ground arith) at_spent

delivered_final_example :
    IsAt (codes "snd_1") settled (perform_all ascii (bustle hour) (table settled)).rows
delivered_final_example =
    delivered_final ascii (codes "snd_1") settled (bustle hour) (table settled) refl (omega arith)
      at_settled

send_retry_delay_bounds_example :
    (4 * send_retry_delay 2 ≤ send_retry_delay 3)
    × (send_retry_delay 7 ≡ 6 * hour)
    × (send_retry_delay 4 ≤ send_retry_delay 6)
    × (30 * second ≤ send_retry_delay 4)
    × (send_retry_delay 4 ≤ 6 * hour)
send_retry_delay_bounds_example = send_retry_delay_bounds 2 4 2 (omega arith) (omega arith)

claim_granted_example :
    let s' = (claim_send_queue_item ascii (env 50) (codes "snd_1") (table waiting)).1 in
    (x : Row) × ((claim_send_queue_item ascii (env 50) (codes "snd_1") (table waiting)).0
      ≡ ok (item_of x (codes "mime")))
    × IsAt (codes "snd_1") x s'.rows
    × (x.lease_token ≡ new_id (codes "lease") (env 50).random)
    × (x.attempt_count ≡ waiting.attempt_count + 1)
    × (holds (codes "snd_1") x.lease_token x ≡ true)
    × (lease_over hour x.lease_until ≡ leb (50 + 15 * minute) hour)
    × (stale hour x
        ≡ (leb (50 + 15 * minute) hour && ltb (waiting.attempt_count + 1) waiting.max_attempts))
    × (claim_send_queue_item ascii (env 60) (codes "snd_1") s' ≡ (no_rows, s'))
unfolding claimable text_eq
claim_granted_example =
    claim_granted ascii (env 50) (codes "snd_1") waiting (table waiting) at_waiting (codes "mime")
      (env 60) hour refl refl refl refl refl

process_refused_example :
    process_send_queue_item ascii
      (env 5)
      (env 6)
      (env 7)
      (λ i. none)
      (codes "snd_1")
      (table waiting)
    ≡ table waiting
unfolding claimable text_eq
process_refused_example =
    process_refused ascii (env 5) (env 6) (env 7) (λ i. none) (codes "snd_1") waiting
      (table waiting) at_waiting refl refl

abbrev refusing : Item → Option Text
refusing i = some (codes "busy")

process_outcome_example :
    Outcome (codes "snd_1") waiting 60 70 (2 * hour) (some (codes "busy")) [] (
      process_send_queue_item ascii
        (env 50)
        (env 60)
        (env 70)
        refusing
        (codes "snd_1")
        (table waiting))
unfolding claimable text_eq
process_outcome_example =
    process_outcome ascii (env 50) (env 60) (env 70) refusing (codes "snd_1") waiting
      (table waiting) at_waiting (codes "mime") (2 * hour) refl refl refl refl refl refl
