-- ===== src/Sharing/Access.antt =====
-- Reading a mailbox that is one's own or shared: `mailboxReadAccessWithID`, the tests on folders,
-- labels and messages, and `loadMessageForReadRequest`. A row that a foreign key asks for exists.
use lan_qin_email.Instant.{stored_before}
use lan_qin_email.Prelude.{
  ◌-◌, ℕ, ◌*◌, Bool, true, false, ◌&&◌, ◌||◌, not, Option, none, some, List, [], ◌∷◌, if◌then◌else◌,
  any,
}
use lan_qin_email.Prelude.Text.{Text, codes, text_eq, is_empty, trim_space}
use lan_qin_email.Prelude.Rows.{select_first, update_rows, keep_rows}
use lan_qin_email.Sharing.{Db, Mailbox, Share, Message, scope_all, scope_custom, is_null, unexpired}
use lan_qin_email.Sharing.Requests.{mailbox_for_user, mailbox_for_current_user}
use lan_qin_email.Sharing.Create.{audit, share_of}

-- `mailboxReadAccess`
pub record ReadAccess : Type 0 where
  pub mailbox : Mailbox
  pub share_id : Text
  pub owner : Bool
  pub scope : Text
  pub include_starred : Bool
  pub allow_attachments : Bool

abbrev pub owner_access : Mailbox → ReadAccess
owner_access m = record {
  mailbox = m;
  share_id = [];
  owner = true;
  scope = scope_all;
  include_starred = false;
  allow_attachments = true;
}

-- the conditions of the `SELECT` on the share alone
abbrev pub open_to : ℕ → Text → Text → Share → Bool
open_to now mailbox user s =
    share_of mailbox user s
    && (is_null s.revoked_at && (is_null s.left_at && unexpired now s.expires_at))

-- its conditions on the mailbox that is joined
abbrev pub joins : Share → Mailbox → Bool
joins s m =
    text_eq m.id s.mailbox_id
    && (text_eq s.owner_user_id m.user_id && (m.active && m.domain_active))

abbrev pub share_access : Share → Mailbox → ReadAccess
share_access s m = record {
  mailbox = m;
  share_id = s.id;
  owner = false;
  scope = s.scope;
  include_starred = s.include_starred;
  allow_attachments = s.allow_attachments;
}

abbrev pub or_next : Share → Option Mailbox → Option ReadAccess → Option ReadAccess
or_next s none rest = rest
or_next s (some m) rest = some (share_access s m)

-- the first row of the `SELECT`
unfoldable pub shared_access : List Mailbox → ℕ → Text → Text → List Share → Option ReadAccess
shared_access mailboxes now mailbox user [] = none
shared_access mailboxes now mailbox user (s ∷ ss) =
    let rest = shared_access mailboxes now mailbox user ss in
    if open_to now mailbox user s then or_next s (select_first (joins s) mailboxes) rest else rest

-- an access that was last recorded more than an hour ago, by the texts, is recorded again
abbrev pub access_due : ℕ → Option ℕ → Bool
access_due now none = true
access_due now (some t) = stored_before t (now - 60 * 60 * 1_000_000_000)

abbrev pub due_row : ℕ → Text → Share → Bool
due_row now share s = text_eq s.id share && access_due now s.last_accessed_at

abbrev pub accessed_row : ℕ → Share → Share
accessed_row now s = record s { last_accessed_at = some now }

-- `recordMailboxShareAccess`
unfoldable pub record_mailbox_share_access : ℕ → Text → Text → Text → Db → Db
record_mailbox_share_access now share mailbox user db =
    if any (due_row now share) db.shares
    then audit share mailbox user (codes "accessed")
        (record db { shares = update_rows (due_row now share) (accessed_row now) db.shares })
    else db

abbrev pub recorded : ℕ → Text → Option ReadAccess → Db → Option ReadAccess × Db
recorded now user none db = (none, db)
recorded now user (some a) db =
    (some a, record_mailbox_share_access now a.share_id a.mailbox.id user db)

abbrev pub owner_or : Option Mailbox → Option ReadAccess × Db → Db → Option ReadAccess × Db
owner_or (some m) other db = (some (owner_access m), db)
owner_or none other db = other

-- `mailboxReadAccessWithID` for the user who is logged in
unfoldable pub mailbox_read_access_with_id : ℕ → Text → Text → Db → Option ReadAccess × Db
mailbox_read_access_with_id now user raw_id db =
    let id = trim_space raw_id in
    if is_empty id
    then owner_or (mailbox_for_user db user) (none, db) db
    else owner_or (mailbox_for_current_user db user id)
        (recorded now user (shared_access db.mailboxes now id user db.shares) db) db

-- a row of a link table
abbrev pub linked : Text → Text → List (Text × Text) → Bool
linked a b [] = false
linked a b ((x, y) ∷ rows) = (text_eq x a && text_eq y b) || linked a b rows

-- an id that is not NULL and equal to another
abbrev pub is_at : Option Text → Text → Bool
is_at none id = false
is_at (some x) id = text_eq x id

-- `access.Owner || access.Scope == "all"`
abbrev pub unscoped : ReadAccess → Bool
unscoped a = a.owner || text_eq a.scope scope_all

-- `mailboxShareCanReadFolder`
unfoldable pub mailbox_share_can_read_folder : Db → ReadAccess → Text → Bool
mailbox_share_can_read_folder db a folder =
    if unscoped a then true else linked a.share_id folder db.share_folders

-- `mailboxShareCanReadLabel`
unfoldable pub mailbox_share_can_read_label : Db → ReadAccess → Text → Bool
mailbox_share_can_read_label db a label =
    if unscoped a then true else linked a.share_id label db.share_labels

-- the `EXISTS` on the folders of a share
abbrev pub folder_shared : Db → Text → Option Text → Bool
folder_shared db share none = false
folder_shared db share (some f) = linked share f db.share_folders

-- the `EXISTS` on the labels of a share
abbrev pub label_shared : Text → Text → List (Text × Text) → List (Text × Text) → Bool
label_shared share message share_labels [] = false
label_shared share message share_labels ((m, l) ∷ rows) =
    (text_eq m message && linked share l share_labels)
    || label_shared share message share_labels rows

-- the conditions of the two `SELECT`s of `mailboxShareCanReadMessage` on a row of `messages`
abbrev pub in_scope : Db → ReadAccess → Message → Bool
in_scope db a m =
    folder_shared db a.share_id m.folder_id
    || (label_shared a.share_id m.id db.share_labels db.message_labels
        || (a.include_starred && m.is_starred))

abbrev pub in_mailbox : ReadAccess → Text → Message → Bool
in_mailbox a message m = text_eq m.id message && is_at m.mailbox_id a.mailbox.id

-- `mailboxShareCanReadMessage`
unfoldable pub mailbox_share_can_read_message : Db → ReadAccess → Text → Bool
mailbox_share_can_read_message db a message =
    if unscoped a
    then any (in_mailbox a message) db.messages
    else any (λ m. in_mailbox a message m && in_scope db a m) db.messages

-- `SELECT COALESCE(mailbox_id,'')`, where an empty text is refused
abbrev pub mailbox_of_message : Option Message → Option Text
mailbox_of_message none = none
mailbox_of_message (some m) = elim m.mailbox_id [
  | none ↦ none
  | some id ↦ if is_empty id then none else some id
]

-- `labelsForMessage`
unfoldable pub labels_for_message : Text → List (Text × Text) → List Text
labels_for_message message [] = []
labels_for_message message ((m, l) ∷ rows) =
    let rest = labels_for_message message rows in if text_eq m message then l ∷ rest else rest

-- the loop on the labels
abbrev pub visible_labels : Db → ReadAccess → List Text → List Text
visible_labels db a labels =
    if not a.owner && text_eq a.scope scope_custom
    then keep_rows (mailbox_share_can_read_label db a) labels
    else labels

abbrev pub message_is : Text → Message → Bool
message_is id m = text_eq m.id id

abbrev pub message_with : Db → ReadAccess → Option Message → Option (Message × List Text)
message_with db a none = none
message_with db a (some m) =
    some (m, visible_labels db a (labels_for_message m.id db.message_labels))

abbrev pub load_with : Text → Option ReadAccess × Db → Option (Message × List Text) × Db
load_with id (none, db) = (none, db)
load_with id (some a, db) =
    if mailbox_share_can_read_message db a id
    then (message_with db a (select_first (message_is id) db.messages), db)
    else (none, db)

abbrev pub load_in : ℕ → Text → Text → Option Text → Db → Option (Message × List Text) × Db
load_in now user id none db = (none, db)
load_in now user id (some mailbox) db =
    load_with id (mailbox_read_access_with_id now user mailbox db)

-- `loadMessageForReadRequest`: the message with its labels, and the database behind it
unfoldable pub load_message_for_read_request :
    ℕ → Text → Text → Db → Option (Message × List Text) × Db
load_message_for_read_request now user id db =
    load_in now user id (mailbox_of_message (select_first (message_is id) db.messages)) db
