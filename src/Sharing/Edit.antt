-- ===== src/Sharing/Edit.antt =====
-- The handlers that update, revoke and leave a share. `user` is the user who is logged in.
use lan_qin_email.Prelude.{
  ℕ, ◌+◌, Bool, true, false, ◌&&◌, not, Option, none, some, ◌==◌, ltb, if◌then◌else◌, any,
}
use lan_qin_email.Prelude.Text.{Text, codes, text_eq, trim_space}
use lan_qin_email.Prelude.Int.{ℤ, pos, negsuc}
use lan_qin_email.Prelude.Rows.{select_first, update_rows}
use lan_qin_email.Std.{Std}
use lan_qin_email.Sharing.{Db, Mailbox, Share, is_null, was_over, mailbox_share_status}
use lan_qin_email.Sharing.Requests.{
  TimeLib, ShareRequest, Scope, Expiration, bad_expiration, keep, expires, share_expiration,
  validate_mailbox_share_scope, mailbox_for_current_user,
}
use lan_qin_email.Sharing.Create.{
  Reply, not_found, bad_request, conflict, done, updated, audit, notify, clear_scopes, save_scopes,
  with_default, is_bad,
}

-- the `JOIN` of `mailboxShareSelect` with the mailbox, and `owner_user_id=mb.user_id`
abbrev pub owned_by_owner : Db → Share → Bool
owned_by_owner db s =
    any (λ (m : Mailbox). text_eq m.id s.mailbox_id && text_eq m.user_id s.owner_user_id)
      db.mailboxes

-- `mailboxShareByID`
unfoldable pub mailbox_share_by_id : Db → Text → Text → Option Share
mailbox_share_by_id db id owner =
    select_first (λ s. text_eq s.id id && (text_eq s.owner_user_id owner && owned_by_owner db s))
      db.shares

-- `mailboxShareForRecipient`
unfoldable pub mailbox_share_for_recipient : Db → Text → Text → Option Share
mailbox_share_for_recipient db id recipient =
    select_first
      (λ s. text_eq s.id id && (text_eq s.shared_with_user_id recipient && owned_by_owner db s))
      db.shares

-- `version=?` for a version of the request
abbrev pub version_is : ℤ → ℕ → Bool
version_is (pos n) v = v == n
version_is (negsuc n) v = false

-- `WHERE id=? AND owner_user_id=? AND mailbox_id=? AND version=?`
abbrev pub updatable : Text → Text → Text → ℤ → Share → Bool
updatable id owner mailbox version s =
    text_eq s.id id
    && (text_eq s.owner_user_id owner
        && (text_eq s.mailbox_id mailbox && version_is version s.version))

abbrev pub kept_expiry : Expiration → Option ℕ → Option ℕ
kept_expiry (expires t) old = t
kept_expiry keep old = old
kept_expiry bad_expiration old = old

-- the `SET` of both forms of the update
abbrev pub update_row : ℕ → Scope → Bool → Expiration → Share → Share
update_row now s attachments expiry r = record r {
  scope = s.scope;
  include_starred = s.include_starred;
  allow_attachments = attachments;
  expires_at = kept_expiry expiry r.expires_at;
  revoked_at = none;
  left_at = none;
  version = r.version + 1;
  updated_at = now;
}

-- the end of `handleUpdateMailboxShare`, behind the `UPDATE`
abbrev pub finish_update : Text → Share → Mailbox → Text → Scope → ℕ → Db → Reply × Db
finish_update id share mb user s now db =
    let event =
      if was_over (mailbox_share_status share now) then codes "renewed" else codes "updated" in
    (
      updated id,
      notify share.shared_with_user_id (codes "mailbox_share_updated") id mb.id
          (audit id mb.id user event (save_scopes id s (clear_scopes id db))),
    )

-- the transaction of `handleUpdateMailboxShare`
abbrev pub write_update :
    Text → Share → Mailbox → Text → ℕ → Scope → Bool → Expiration → ℤ → Db → Reply × Db
write_update id share mb user now s attachments expiry version db =
    if any (updatable id user mb.id version) db.shares
    then finish_update id share mb user s now (record db {
      shares =
          update_rows (updatable id user mb.id version) (update_row now s attachments expiry)
            db.shares;
    })
    else if any (λ (r : Share). text_eq r.id id && text_eq r.owner_user_id user) db.shares
    then (conflict, db)
    else (not_found, db)

abbrev pub update_scoped :
    Option Scope → TimeLib → Text → Share → Mailbox → Text → ℕ → ShareRequest → Db → Reply × Db
update_scoped none time id share mb user now req db = (bad_request, db)
update_scoped (some s) time id share mb user now req db =
    let expiry = share_expiration time now req.expires_in_days req.expires_at true in
    if is_bad expiry
    then (bad_request, db)
    else write_update id share mb user now s
        (with_default req.allow_attachments share.allow_attachments) expiry req.version db

abbrev pub update_in :
    Option Mailbox → Std → TimeLib → Text → Share → Text → ℕ → ShareRequest → Db → Reply × Db
update_in none std time id share user now req db = (not_found, db)
update_in (some mb) std time id share user now req db =
    update_scoped (validate_mailbox_share_scope std db mb.id req) time id share mb user now req db

abbrev pub version_given : ℤ → Bool
version_given (pos n) = not (ltb n 1)
version_given (negsuc n) = false

abbrev pub update_found :
    Option Share → Std → TimeLib → Text → Text → ℕ → ShareRequest → Db → Reply × Db
update_found none std time id user now req db = (not_found, db)
update_found (some share) std time id user now req db =
    if version_given req.version
    then update_in (mailbox_for_current_user db user share.mailbox_id) std time id share user now
        req db
    else (bad_request, db)

-- `handleUpdateMailboxShare`
unfoldable pub update_mailbox_share :
    Std → TimeLib → Text → ℕ → Text → ShareRequest → Db → Reply × Db
update_mailbox_share std time user now raw_id req db =
    let id = trim_space raw_id in
    update_found (mailbox_share_by_id db id user) std time id user now req db

-- `WHERE id=? AND owner_user_id=? AND revoked_at IS NULL`
abbrev pub revocable : Text → Text → Share → Bool
revocable id owner s = text_eq s.id id && (text_eq s.owner_user_id owner && is_null s.revoked_at)

abbrev pub revoke_row : ℕ → Share → Share
revoke_row now s = record s { revoked_at = some now; version = s.version + 1; updated_at = now }

abbrev pub delete_found : Option Share → Text → Text → ℕ → Db → Reply × Db
delete_found none id user now db = (not_found, db)
delete_found (some share) id user now db =
    if any (revocable id user) db.shares
    then (
      done,
      notify share.shared_with_user_id (codes "mailbox_share_revoked") id share.mailbox_id (
          audit id share.mailbox_id user (codes "revoked")
            (record db { shares = update_rows (revocable id user) (revoke_row now) db.shares })),
    )
    else (conflict, db)

-- `handleDeleteMailboxShare`
unfoldable pub delete_mailbox_share : Text → ℕ → Text → Db → Reply × Db
delete_mailbox_share user now raw_id db =
    let id = trim_space raw_id in delete_found (mailbox_share_by_id db id user) id user now db

-- `WHERE id=? AND shared_with_user_id=? AND left_at IS NULL`
abbrev pub leavable : Text → Text → Share → Bool
leavable id recipient s =
    text_eq s.id id && (text_eq s.shared_with_user_id recipient && is_null s.left_at)

abbrev pub leave_row : ℕ → Share → Share
leave_row now s = record s { left_at = some now; version = s.version + 1; updated_at = now }

abbrev pub leave_found : Option Share → Text → Text → ℕ → Db → Reply × Db
leave_found none id user now db = (not_found, db)
leave_found (some share) id user now db =
    if any (leavable id user) db.shares
    then (
      done,
      notify share.owner_user_id (codes "mailbox_share_left") id share.mailbox_id (
          audit id share.mailbox_id user (codes "left")
            (record db { shares = update_rows (leavable id user) (leave_row now) db.shares })),
    )
    else (conflict, db)

-- `handleLeaveMailboxShare`
unfoldable pub leave_mailbox_share : Text → ℕ → Text → Db → Reply × Db
leave_mailbox_share user now raw_id db =
    let id = trim_space raw_id in
    leave_found (mailbox_share_for_recipient db id user) id user now db
