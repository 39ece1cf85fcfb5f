-- ===== src/Sharing/Lists.antt =====
-- The handlers of mail_handlers.go that list messages of a mailbox: which rows they select. The search
-- text, the cursor and the size of a page, which select from these rows, are left out.
use lan_qin_email.Instant.{text_lt}
use lan_qin_email.Prelude.{
  ℕ, Bool, false, ◌&&◌, ◌||◌, not, Option, none, some, List, [], ltb, ◌==◌, if◌then◌else◌, any,
}
use lan_qin_email.Prelude.Text.{Text, text_eq}
use lan_qin_email.Prelude.Rows.{keep_rows}
use lan_qin_email.Sharing.{Db, Message, scope_custom}
use lan_qin_email.Sharing.Requests.{belongs_to_mailbox}
use lan_qin_email.Sharing.Access.{
  ReadAccess, is_at, linked, mailbox_read_access_with_id, mailbox_share_can_read_label,
  mailbox_share_can_read_folder, load_message_for_read_request,
}

-- `m.mailbox_id=?` and the condition that `respondMailMessageListInternal` adds
abbrev pub local_in : ReadAccess → Message → Bool
local_in a m = is_at m.mailbox_id a.mailbox.id && not m.external

abbrev pub labelled : Db → Text → Message → Bool
labelled db label m = linked m.id label db.message_labels

-- `handleMailMessages` with a label
unfoldable pub label_messages : Db → ReadAccess → Text → Option (List Message)
label_messages db a label =
    if not (belongs_to_mailbox label a.mailbox.id db.labels)
      || not (mailbox_share_can_read_label db a label)
    then none
    else some (keep_rows (λ m. local_in a m && labelled db label m) db.messages)

-- `handleMailMessages` with a folder, given the id of the folder
unfoldable pub folder_messages : Db → ReadAccess → Text → Option (List Message)
folder_messages db a folder =
    if not (mailbox_share_can_read_folder db a folder)
    then none
    else some (keep_rows (λ m. local_in a m && is_at m.folder_id folder) db.messages)

-- `handleStarredMessages`
unfoldable pub starred_messages : Db → ReadAccess → Option (List Message)
starred_messages db a =
    if not a.owner && (text_eq a.scope scope_custom && not a.include_starred)
    then none
    else some (keep_rows (λ m. local_in a m && m.is_starred) db.messages)

-- one stands before the other under `ORDER BY received_at DESC,id DESC`
abbrev pub newer : Message → Message → Bool
newer m n = ltb n.received_at m.received_at || (n.received_at == m.received_at && text_lt n.id m.id)

-- another local message of the same thread and mailbox that is newer
abbrev pub overtakes : ReadAccess → Message → Message → Bool
overtakes a m n = local_in a n && (text_eq n.thread_id m.thread_id && newer n m)

-- `handleMailThreads`: the newest local message of each thread
unfoldable pub mail_threads : Db → ReadAccess → List Message
mail_threads db a =
    keep_rows (λ m. local_in a m && not (any (overtakes a m) db.messages)) db.messages

abbrev pub same_place : Option Text → Option Text → Bool
same_place none y = false
same_place (some x) y = is_at y x

abbrev pub thread_of : Db → Message → Option (List Message)
thread_of db m =
    if m.external
    then none
    else some (
        keep_rows (λ n. same_place n.mailbox_id m.mailbox_id && text_eq n.thread_id m.thread_id)
          db.messages)

abbrev pub thread_with : Option (Message × List Text) × Db → Option (List Message) × Db
thread_with (none, db) = (none, db)
thread_with (some (m, labels), db) = (thread_of db m, db)

-- `handleMailMessageThread`, without the order of the messages
unfoldable pub mail_message_thread : ℕ → Text → Text → Db → Option (List Message) × Db
mail_message_thread now user id db = thread_with (load_message_for_read_request now user id db)

abbrev pub attachment_access : Option ReadAccess × Db → Bool × Db
attachment_access (none, db) = (false, db)
attachment_access (some a, db) = (a.owner || a.allow_attachments, db)

abbrev pub attachment_in : ℕ → Text → Message → Db → Bool × Db
attachment_in now user m db =
    if m.external
    then (false, db)
    else attachment_access
        (mailbox_read_access_with_id now user (elim m.mailbox_id [ none ↦ [] | some id ↦ id ]) db)

abbrev pub attachment_with : ℕ → Text → Option (Message × List Text) × Db → Bool × Db
attachment_with now user (none, db) = (false, db)
attachment_with now user (some (m, labels), db) = attachment_in now user m db

-- `handleAttachment` up to the file: whether an attachment of a message is sent
unfoldable pub attachment_sent : ℕ → Text → Text → Db → Bool × Db
attachment_sent now user message db =
    attachment_with now user (load_message_for_read_request now user message db)
