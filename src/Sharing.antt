-- ===== src/Sharing.antt =====
-- Sharing of mailboxes, mailbox_sharing.go: the tables that it reads and writes. An instant is a
-- number of nanoseconds, and an optional instant is a column that may be NULL. A failing database
-- call ends a handler with a server error and rolls its transaction back; it is not modelled. A handler
-- reads the clock once.
pub mod Requests
pub mod Create
pub mod Edit
pub mod Access
pub mod Lists
pub mod Alive
pub mod Outcomes
pub mod Writes
pub mod Versions
pub mod Reading
pub mod MayRead
pub mod MayLoad
pub mod Attachments
pub mod Ended
pub mod Listed
pub mod Leaks
pub mod Owner
mod Tests
use lan_qin_email.Instant.{stored_before}
use lan_qin_email.Prelude.{
  ℕ, ◌+◌, ◌*◌, Bool, true, false, ◌&&◌, not, Option, none, some, List, [], ◌∷◌, ltb, if◌then◌else◌,
}
use lan_qin_email.Prelude.Text.{Text, codes}
use lan_qin_email.Permissions.Groups

pub record Mailbox : Type 0 where
  pub id : Text
  pub user_id : Text
  pub active : Bool
  -- the status of its row in `domains`
  pub domain_active : Bool
  pub created_at : ℕ

-- a row of `mailbox_shares`
pub record Share : Type 0 where
  pub id : Text
  pub mailbox_id : Text
  pub owner_user_id : Text
  pub shared_with_user_id : Text
  pub scope : Text
  pub include_starred : Bool
  pub allow_attachments : Bool
  pub version : ℕ
  pub expires_at : Option ℕ
  pub last_accessed_at : Option ℕ
  pub revoked_at : Option ℕ
  pub left_at : Option ℕ
  pub created_at : ℕ
  pub updated_at : ℕ

-- what the handlers read of a row of `messages`; `external` is whether `external_imap_messages` has
-- it, and an id of a mailbox or of a folder may be NULL
pub record Message : Type 0 where
  pub id : Text
  pub mailbox_id : Option Text
  pub folder_id : Option Text
  pub thread_id : Text
  pub received_at : ℕ
  pub is_starred : Bool
  pub external : Bool

-- what the handlers read of a row of `users`
pub record Account : Type 0 where
  pub role : Text
  pub disabled : Bool
  pub mailbox_quota_bonus : ℕ

-- a row of `mailbox_share_audit_events`
pub record AuditEvent : Type 0 where
  pub share_id : Text
  pub mailbox_id : Text
  pub actor_user_id : Text
  pub event : Text

-- a row of `user_notifications`
pub record Notification : Type 0 where
  pub user_id : Text
  pub kind : Text
  pub share_id : Text
  pub mailbox_id : Text

-- the link tables hold pairs of ids; `folders` and `labels` pair an id with its mailbox
pub record Db : Type 0 where
  pub users : Text → Option Account
  pub groups : Groups.Db
  pub mailboxes : List Mailbox
  pub shares : List Share
  pub share_folders : List (Text × Text)
  pub share_labels : List (Text × Text)
  pub folders : List (Text × Text)
  pub labels : List (Text × Text)
  pub messages : List Message
  pub message_labels : List (Text × Text)
  pub audits : List AuditEvent
  pub notifications : List Notification

abbrev pub scope_all : Text
scope_all = codes "all"

abbrev pub scope_custom : Text
scope_custom = codes "custom"

abbrev pub day : ℕ
day = 24 * 60 * 60 * 1_000_000_000

abbrev pub is_null : Option ℕ → Bool
is_null none = true
is_null (some t) = false

-- `expires_at IS NULL OR expires_at>?`, which compares texts
abbrev pub unexpired : ℕ → Option ℕ → Bool
unexpired now none = true
unexpired now (some t) = stored_before now t

pub data Status : Type 0 where
  revoked left active expired expiring : Status

-- `mailboxShareStatus`: `After` is the strict order
abbrev pub status_until : Option ℕ → ℕ → Status
status_until none now = active
status_until (some t) now =
    if not (ltb now t) then expired else if not (ltb (now + 7 * day) t) then expiring else active

unfoldable pub mailbox_share_status : Share → ℕ → Status
mailbox_share_status s now =
    if not (is_null s.revoked_at)
    then revoked
    else if not (is_null s.left_at)
    then left
    else status_until s.expires_at now

abbrev pub was_over : Status → Bool
was_over expired = true
was_over revoked = true
was_over left = true
was_over active = false
was_over expiring = false
