-- ===== src/Queue/Actions.antt =====
-- What workers, users, API clients, administrators and the cleanup do to the queue, as a sequence of
-- atomic actions. A deletion of a user or a mailbox, which removes its rows by the foreign keys, is
-- not an action.
use lan_qin_email.Prelude.{Bool, List, [], ◌∷◌}
use lan_qin_email.Prelude.Text.{Text}
use lan_qin_email.Std.{Std}
use lan_qin_email.Queue.{Store, Env}
use lan_qin_email.Queue.Worker.{
  Item, claim_send_queue_item, mark_send_queue_delivered, mark_send_queue_failed,
  write_delivered_marker, recover_stale_send_queue_items,
}
use lan_qin_email.Queue.Enqueue.{SendQueueInput, enqueue_send}
use lan_qin_email.Queue.Control.{
  admin_send_mutation, cleanup_send_queue, retry_send_queue, cancel_send_queue,
}

-- a worker settles with whatever item it has in hand, however old its lease
pub data Action : Type 0 where
  claim : Env → Text → Action
  deliver : Env → Item → Action
  fail : Env → Item → Text → Action
  mark : Env → Text → Action
  recover : Env → Action
  enqueue : Env → SendQueueInput → Action
  admin : Env → Bool → Text → Action
  retry : Env → Text → (Text → Bool) → Text → Action
  cancel : Env → Text → (Text → Bool) → Text → Action
  cleanup : Env → Action

module _ (std : Std) where
  unfoldable pub perform : Action → Store → Store
  perform (claim e id) s = (claim_send_queue_item std e id s).1
  perform (deliver e item) s = (mark_send_queue_delivered std e 0 item s).1
  perform (fail e item error) s = mark_send_queue_failed std e item error s
  perform (mark e id) s = write_delivered_marker e id s
  perform (recover e) s = (recover_stale_send_queue_items std e s).1
  perform (enqueue e x) s = (enqueue_send std e x s).1
  perform (admin e again id) s = (admin_send_mutation e again id s).1
  perform (retry e user_id owns id) s = (retry_send_queue std e user_id owns id s).1
  perform (cancel e user_id owns id) s = (cancel_send_queue std e user_id owns id s).1
  perform (cleanup e) s = cleanup_send_queue e s

  unfoldable pub perform_all : List Action → Store → Store
  perform_all [] s = s
  perform_all (a ∷ rest) s = perform_all rest (perform a s)
