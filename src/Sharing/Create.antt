-- ===== src/Sharing/Create.antt =====
-- `handleCreateMailboxShare`. `user` is the user who is logged in, and `id` the drawn id of the share.
use lan_qin_email.Prelude.{
  ℕ, ◌+◌, Bool, true, false, ◌&&◌, ◌||◌, not, Option, none, some, [], ◌∷◌, ◌++◌, map, if◌then◌else◌,
  any,
}
use lan_qin_email.Prelude.Text.{Text, codes, text_eq, trim_space}
use lan_qin_email.Prelude.Rows.{select_first, update_rows, keep_rows}
use lan_qin_email.Std.{Std}
use lan_qin_email.Permissions.{User, user_has_permission}
use lan_qin_email.Permissions.Keys.{permission_mail_access, permission_mail_read}
use lan_qin_email.Sharing.{Db, Mailbox, Share, is_null}
use lan_qin_email.Sharing.Requests.{
  TimeLib, ShareRequest, Scope, Expiration, bad_expiration, keep, expires, share_expiration,
  validate_mailbox_share_scope, mailbox_for_current_user, user_by_id,
}

-- the status codes of the answers; `created` and `updated` carry the share's id
pub data Reply : Type 0 where
  not_found bad_request conflict server_error done : Reply
  created updated : Text → Reply

abbrev pub audit : Text → Text → Text → Text → Db → Db
audit share mailbox actor event db = record db {
  audits =
      db.audits
      ++ record { share_id = share; mailbox_id = mailbox; actor_user_id = actor; event = event }
        ∷ [];
}

abbrev pub notify : Text → Text → Text → Text → Db → Db
notify user kind share mailbox db = record db {
  notifications =
      db.notifications
      ++ record { user_id = user; kind = kind; share_id = share; mailbox_id = mailbox } ∷ [];
}

-- the rows of a link table whose share is another
abbrev pub other_share : Text → Text × Text → Bool
other_share share (s, x) = not (text_eq s share)

-- the two `DELETE`s
abbrev pub clear_scopes : Text → Db → Db
clear_scopes share db = record db {
  share_folders = keep_rows (other_share share) db.share_folders;
  share_labels = keep_rows (other_share share) db.share_labels;
}

-- `saveMailboxShareScopes`
abbrev pub save_scopes : Text → Scope → Db → Db
save_scopes share s db = record db {
  share_folders = db.share_folders ++ map (λ f. (share, f)) s.folder_ids;
  share_labels = db.share_labels ++ map (λ l. (share, l)) s.label_ids;
}

abbrev pub with_default : Option Bool → Bool → Bool
with_default none d = d
with_default (some b) d = b

abbrev pub share_is : Text → Share → Bool
share_is id s = text_eq s.id id

-- `WHERE mailbox_id=? AND shared_with_user_id=?`
abbrev pub share_of : Text → Text → Share → Bool
share_of mailbox recipient s =
    text_eq s.mailbox_id mailbox && text_eq s.shared_with_user_id recipient

abbrev pub new_share : Text → Text → Text → Text → ℕ → Scope → Bool → Option ℕ → Share
new_share id mailbox owner recipient now s attachments expiry = record {
  id = id;
  mailbox_id = mailbox;
  owner_user_id = owner;
  shared_with_user_id = recipient;
  scope = s.scope;
  include_starred = s.include_starred;
  allow_attachments = attachments;
  version = 1;
  expires_at = expiry;
  last_accessed_at = none;
  revoked_at = none;
  left_at = none;
  created_at = now;
  updated_at = now;
}

-- the `SET` that opens a share again
abbrev pub restore_row : ℕ → Scope → Bool → Option ℕ → Share → Share
restore_row now s attachments expiry r = record r {
  scope = s.scope;
  include_starred = s.include_starred;
  allow_attachments = attachments;
  expires_at = expiry;
  last_accessed_at = none;
  revoked_at = none;
  left_at = none;
  version = r.version + 1;
  updated_at = now;
}

-- the end of `handleCreateMailboxShare`
abbrev pub finish_create : Text → Mailbox → Text → Text → Scope → Db → Reply × Db
finish_create id mb owner recipient s db = (
  created id,
  notify recipient (codes "mailbox_share_created") id mb.id
      (audit id mb.id owner (codes "created") (save_scopes id s db)),
)

-- the transaction of `handleCreateMailboxShare`, given the share of the pair: a share that is neither
-- revoked nor left is in the way, another one is opened again. A drawn id that is taken, and a share
-- of a mailbox with its owner, break constraints of the table.
abbrev pub write_share :
    Option Share → Text → Mailbox → Text → Text → ℕ → Scope → Bool → Option ℕ → Db → Reply × Db
write_share (some old) id mb owner recipient now s attachments expiry db =
    if is_null old.revoked_at && is_null old.left_at
    then (conflict, db)
    else finish_create old.id mb owner recipient s (
        clear_scopes old.id (record db {
          shares = update_rows (share_is old.id) (restore_row now s attachments expiry) db.shares;
        }))
write_share none id mb owner recipient now s attachments expiry db =
    if any (share_is id) db.shares
    then (server_error, db)
    else finish_create id mb owner recipient s (record db {
      shares = db.shares ++ new_share id mb.id owner recipient now s attachments expiry ∷ [];
    })

-- `*expiresAt`, where no old expiry can be kept
abbrev pub expiry_of : Expiration → Option ℕ
expiry_of bad_expiration = none
expiry_of keep = none
expiry_of (expires t) = t

abbrev pub is_bad : Expiration → Bool
is_bad bad_expiration = true
is_bad _ = false

abbrev pub unsuitable : Text → User → Bool → Bool
unsuitable user target disabled =
    disabled
    || text_eq target.id user
    || not (user_has_permission (some target) permission_mail_access)
    || not (user_has_permission (some target) permission_mail_read)

-- the part behind the check of the scope
abbrev pub create_scoped :
    Option Scope → TimeLib → Text → Mailbox → Text → Text → ℕ → ShareRequest → Db → Reply × Db
create_scoped none time id mb owner recipient now req db = (bad_request, db)
create_scoped (some s) time id mb owner recipient now req db =
    let expiry = share_expiration time now req.expires_in_days req.expires_at false in
    if is_bad expiry
    then (bad_request, db)
    else write_share (select_first (share_of mb.id recipient) db.shares) id mb owner recipient now s
        (with_default req.allow_attachments true) (expiry_of expiry) db

-- the part behind the load of the recipient
abbrev pub create_for :
    Option (User × Bool)
    → Std
    → TimeLib
    → Text
    → Mailbox
    → Text
    → ℕ
    → ShareRequest
    → Db
    → Reply × Db
create_for none std time id mb owner now req db = (bad_request, db)
create_for (some (target, disabled)) std time id mb owner now req db =
    if unsuitable owner target disabled
    then (bad_request, db)
    else create_scoped (validate_mailbox_share_scope std db mb.id req) time id mb owner target.id
        now req db

abbrev pub create_in :
    Option Mailbox → Std → TimeLib → Text → Text → ℕ → Text → ShareRequest → Db → Reply × Db
create_in none std time id user now raw_target req db = (not_found, db)
create_in (some mb) std time id user now raw_target req db =
    create_for (user_by_id db (trim_space raw_target)) std time id mb user now req db

-- `handleCreateMailboxShare`
unfoldable pub create_mailbox_share :
    Std → TimeLib → Text → Text → ℕ → Text → Text → ShareRequest → Db → Reply × Db
create_mailbox_share std time id user now raw_mailbox raw_target req db =
    create_in (mailbox_for_current_user db user (trim_space raw_mailbox)) std time id user now
      raw_target req db
