-- ===== src/Webhook/Tests.antt =====
-- Concrete runs of the outbox of webhooks.
use lan_qin_email.Prelude.{suc, ◌*◌, ◌≤◌, ◌+◌, ◌≡◌, refl, true, false, none, some, [], ◌∷◌, List}
use lan_qin_email.Prelude.Text.{
  codes, text_eq, trim_space, trim_by, trim_left, trim_right, is_space,
}
use lan_qin_email.Prelude.Rows.{update_rows, keep_rows, select_first}
use lan_qin_email.Queue.{hour}
use lan_qin_email.Queue.Worker.{send_retry_delay}
use lan_qin_email.Webhook.{
  Event, Outbox, enqueue_status_webhook, clean_up, claim_and_post, settle, insert_sorted,
  sort_events, process_ids, process_due_status_webhooks, admin_retry_event, admin_cancel_event,
  delete_mailbox_events,
}
use lan_qin_email.Webhook.Steps.{
  times, Step, enqueue, cleanup, claim, finish, process, restart, cancel, delete_mailbox, run,
  granted,
}
use lan_qin_email.Webhook.Posts.{posts_bounded}
use lan_qin_email.Webhook.Final.{delivered_once}

-- an event that fails in one run, and is posted by two workers later
abbrev steps : List Step
steps =
    enqueue (codes "https://b.c") (900 * hour) (codes "w1") (codes "key") (codes "mb1") (codes "{}")
    ∷ process (codes "https://b.c") (λ id payload. false) (900 * hour) (λ i. codes "a")
    ∷ claim (950 * hour) (codes "b") (codes "w1")
    ∷ claim (950 * hour) (codes "c") (codes "w1")
    ∷ finish (950 * hour) (codes "b") (codes "w1") 2 true
    ∷ restart (955 * hour) (codes " w1")
    ∷ cancel (955 * hour) (codes "w1")
    ∷ delete_mailbox (codes "mb2")
    ∷ cleanup (960 * hour)
    ∷ []

abbrev empty : Outbox
empty = record { rows = []; posts = [] }

two_posts : times (codes "w1") (run steps empty).posts ≡ 2
unfolding times enqueue_status_webhook admin_retry_event admin_cancel_event delete_mailbox_events
    clean_up claim_and_post settle insert_sorted sort_events process_ids process_due_status_webhooks
    trim_space trim_by trim_left trim_right is_space text_eq update_rows keep_rows select_first
    send_retry_delay
two_posts = refl

posts_bounded_example :
    times (codes "w1") (run steps empty).posts ≤ 10 + 10 * granted (codes "w1") steps empty
unfolding times
posts_bounded_example =
    posts_bounded (codes "w1") steps (refl, (tt, (tt, (tt, (tt, (tt, (tt, (tt, (tt, tt)))))))))

abbrev event : Event
event = record {
  id = codes "w1";
  event_key = codes "key";
  mailbox_id = codes "mb1";
  payload = codes "{}";
  attempt_count = 0;
  next_attempt_at = 900 * hour;
  created_at = 900 * hour;
  updated_at = 900 * hour;
  delivered_at = none;
  lease_token = [];
  lease_until = none;
}

abbrev one : Outbox
one = record { rows = event ∷ []; posts = [] }

abbrev exhausted_event : Event
exhausted_event = record event { attempt_count = 10; lease_until = some (901 * hour) }

restarted :
    granted
      (codes "w1")
      (restart (900 * hour) (codes "w1")
        ∷ restart (901 * hour) (codes " w1 ")
        ∷ restart (901 * hour) (codes "w1")
        ∷ [])
      (record { rows = exhausted_event ∷ []; posts = [] })
    ≡ 1
unfolding admin_retry_event update_rows trim_space trim_by trim_left trim_right is_space text_eq
restarted = refl

canceled : (admin_cancel_event (900 * hour) (codes "w1") one).1.rows ≡ []
unfolding admin_cancel_event keep_rows trim_space trim_by trim_left trim_right is_space text_eq
canceled = refl

event_claimed : (claim_and_post (901 * hour) (codes "a") (codes "w1") one).0 ≡ true
unfolding claim_and_post text_eq
event_claimed = refl

delivered_once_example :
    times
      (codes "w1")
      (run (claim (950 * hour) (codes "b") (codes "w1") ∷ []) (
        settle
          (901 * hour)
          (codes "a")
          (codes "w1")
          1
          true
          (claim_and_post (901 * hour) (codes "a") (codes "w1") one).1)).posts
    ≡ suc (times (codes "w1") [])
delivered_once_example =
    delivered_once (901 * hour) (901 * hour) (codes "a") (codes "w1") 1 one
      (claim (950 * hour) (codes "b") (codes "w1") ∷ []) (tt, tt) event_claimed (tt, tt)
