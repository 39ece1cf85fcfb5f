-- ===== src/Sharing/Leaks.antt =====
-- The thread handlers of mail_handlers.go, which read the mailbox of an access and not its scope.
use lan_qin_email.Instant.{text_lt}
use lan_qin_email.Prelude.{
  ◌<◌, ◌⊎◌, ℕ, ◌≡◌, refl, sym, ap, ◌∙◌, subst, Bool, true, false, ◌&&◌, Option, none, some, List,
}
use lan_qin_email.Prelude.Text.{Text, text_eq, text_eq_iff}
use lan_qin_email.Prelude.Rows.{keep_rows}
use lan_qin_email.Prelude.Members.{keep_rows-Memᴰ}
use mathlib.Core.List.{Memᴰ}
use lan_qin_email.Sharing.{Db, Message}
use lan_qin_email.Sharing.Access.{ReadAccess, load_message_for_read_request}
use lan_qin_email.Sharing.MayRead.{is_at_iff}
use lan_qin_email.Sharing.MayLoad.{load-messages}
use lan_qin_email.Sharing.Lists.{thread_of, thread_with, same_place, mail_message_thread}

-- another local message of the same mailbox and thread, which came later, or at the same time with an
-- id that is behind in the order of texts
pub record IsNewer (db : Db) (a : ReadAccess) (m n : Message) : Type 0 where
  pub stored : Memᴰ n db.messages
  pub in_mailbox : n.mailbox_id ≡ some a.mailbox.id
  pub local : n.external ≡ false
  pub same_thread : n.thread_id ≡ m.thread_id
  pub later :
      (m.received_at < n.received_at)
      ⊎ ((m.received_at ≡ n.received_at) × (text_lt m.id n.id ≡ true))

-- the messages of the thread of a message, in its mailbox
abbrev beside : Message → Message → Bool
beside m n = same_place n.mailbox_id m.mailbox_id && text_eq n.thread_id m.thread_id

thread_with-some :
    (r : Option (Message × List Text) × Db) (m : Message) (labels : List Text)
    → r.0 ≡ some (m, labels)
    → m.external ≡ false
    → (thread_with r).0 ≡ some (keep_rows (beside m) r.1.messages)
thread_with-some (none, db) m labels e local = absurd (cc)
thread_with-some (some (x, ls), db) m labels e local =
    let same : ◌≡◌ {A = Message × List Text} (x, ls) (m, labels) = cc e in
    ap (λ (y : Message × List Text). thread_of db y.0) same ∙ rw local refl

-- With a message that a user is shown, and that is not an external one, the handler of its thread
-- shows every message of the same mailbox and thread.
pub message_thread-all :
    (db : Db) (now : ℕ) (user id mailbox : Text) (m n : Message) (labels : List Text)
    → (load_message_for_read_request now user id db).0 ≡ some (m, labels)
    → m.external ≡ false
    → m.mailbox_id ≡ some mailbox
    → Memᴰ n db.messages
    → n.mailbox_id ≡ some mailbox
    → n.thread_id ≡ m.thread_id
    → (ms : List Message) × ((mail_message_thread now user id db).0 ≡ some ms) × Memᴰ n ms
unfolding mail_message_thread
message_thread-all db now user id mailbox m n labels e local at k at' same =
    let r = load_message_for_read_request now user id db in
    let rows : Memᴰ n r.1.messages = subst (Memᴰ n) (sym (load-messages now user id db)) k in
    let here : (same_place n.mailbox_id m.mailbox_id && text_eq n.thread_id m.thread_id) ≡ true =
      rw
        (
          at',
          at,
          (is_at_iff (some mailbox) mailbox).1 refl,
          (text_eq_iff n.thread_id m.thread_id).1 same,
        )
        refl in
    (
      keep_rows (beside m) r.1.messages,
      thread_with-some r m labels e local,
      keep_rows-Memᴰ (beside m) r.1.messages n rows here,
    )
