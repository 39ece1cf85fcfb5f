-- ===== src/Sharing/Writes.antt =====
-- What revoking, leaving and creating a share write, for every answer.
use lan_qin_email.Prelude.{
  ℕ, ◌≡◌, refl, Bool, true, false, ◌&&◌, Option, none, some, [], ◌∷◌, ◌++◌, inl, inr, any, and_true,
  if_keeps,
}
use lan_qin_email.Prelude.Text.{Text, text_eq, text_eq_iff, trim_space}
use lan_qin_email.Prelude.Rows.{select_first, update_rows}
use lan_qin_email.Prelude.Members.{Memᴰ-select_first}
use mathlib.Core.List.{Memᴰ}
use lan_qin_email.Std.{Std}
use lan_qin_email.Permissions.{User}
use lan_qin_email.Sharing.{Db, Mailbox, Share, is_null}
use lan_qin_email.Sharing.Requests.{
  TimeLib, ShareRequest, Scope, mailbox_for_current_user, share_expiration,
  validate_mailbox_share_scope, user_by_id,
}
use lan_qin_email.Sharing.Create.{
  is_bad, with_default, share_is, share_of, new_share, restore_row, write_share, expiry_of,
  unsuitable, create_scoped, create_for, create_in, create_mailbox_share,
}
use lan_qin_email.Sharing.Edit.{
  revocable, revoke_row, delete_found, delete_mailbox_share, leavable, leave_row, leave_found,
  leave_mailbox_share, mailbox_share_for_recipient, mailbox_share_by_id,
}
use lan_qin_email.Sharing.Outcomes.{Outcome, Owns, current_user-Owns}

-- the rows that meet a condition are changed, one at least
pub data IsChange (p : Share → Bool) (f : Share → Share) (db db' : Db) : Type 0 where
  changed :
      any p db.shares ≡ true
      → db'.shares ≡ update_rows p f db.shares
      → db'.mailboxes ≡ db.mailboxes
      → IsChange p f db db'

delete_found-Outcome :
    (o : Option Share) (id user : Text) (now : ℕ) (db : Db)
    → Outcome (IsChange (revocable id user) (revoke_row now) db) db (delete_found o id user now db)
delete_found-Outcome none id user now db = inl (refl, refl)
delete_found-Outcome (some share) id user now db =
    if_keeps (Outcome (IsChange (revocable id user) (revoke_row now) db) db)
      (any (revocable id user) db.shares) (λ h. inr (refl, changed h refl refl))
      (λ h. inl (refl, refl))

-- every answer of `handleDeleteMailboxShare`
pub delete_mailbox_share-Outcome :
    (user : Text) (now : ℕ) (raw_id : Text) (db : Db)
    → Outcome
        (IsChange (revocable (trim_space raw_id) user) (revoke_row now) db)
        db
        (delete_mailbox_share user now raw_id db)
unfolding delete_mailbox_share
delete_mailbox_share-Outcome user now raw_id db =
    delete_found-Outcome (mailbox_share_by_id db (trim_space raw_id) user) (trim_space raw_id) user
      now db

leave_found-Outcome :
    (o : Option Share) (id user : Text) (now : ℕ) (db : Db)
    → Outcome (IsChange (leavable id user) (leave_row now) db) db (leave_found o id user now db)
leave_found-Outcome none id user now db = inl (refl, refl)
leave_found-Outcome (some share) id user now db =
    if_keeps (Outcome (IsChange (leavable id user) (leave_row now) db) db)
      (any (leavable id user) db.shares) (λ h. inr (refl, changed h refl refl))
      (λ h. inl (refl, refl))

-- every answer of `handleLeaveMailboxShare`
pub leave_mailbox_share-Outcome :
    (user : Text) (now : ℕ) (raw_id : Text) (db : Db)
    → Outcome
        (IsChange (leavable (trim_space raw_id) user) (leave_row now) db)
        db
        (leave_mailbox_share user now raw_id db)
unfolding leave_mailbox_share
leave_mailbox_share-Outcome user now raw_id db =
    leave_found-Outcome (mailbox_share_for_recipient db (trim_space raw_id) user)
      (trim_space raw_id) user now db

-- a share of an owned mailbox is added, or opened again
pub data IsCreation (db : Db) (user id : Text) (now : ℕ) (db' : Db) : Type 0 where
  added :
      (b : Mailbox) (recipient : Text) (s : Scope) (attachments : Bool) (expiry : Option ℕ)
      → Owns db user b
      → any (share_is id) db.shares ≡ false
      → db'.shares ≡ db.shares ++ new_share id b.id user recipient now s attachments expiry ∷ []
      → db'.mailboxes ≡ db.mailboxes
      → IsCreation db user id now db'
  reopened :
      (b : Mailbox) (old : Share) (s : Scope) (attachments : Bool) (expiry : Option ℕ)
      → Owns db user b
      → Memᴰ old db.shares
      → old.mailbox_id ≡ b.id
      → db'.shares ≡ update_rows (share_is old.id) (restore_row now s attachments expiry) db.shares
      → db'.mailboxes ≡ db.mailboxes
      → IsCreation db user id now db'

module _ (std : Std) (time : TimeLib) (id user : Text) (now : ℕ) (req : ShareRequest)
    (db : Db) where
  write_share-Outcome :
      (o : Option Share) (b : Mailbox) (recipient : Text) (s : Scope) (attachments : Bool)
      (expiry : Option ℕ)
      → ((old : Share) → o ≡ some old → Memᴰ old db.shares × (share_of b.id recipient old ≡ true))
      → Owns db user b
      → Outcome
          (IsCreation db user id now)
          db
          (write_share o id b user recipient now s attachments expiry db)
  write_share-Outcome none b recipient s attachments expiry found own =
      if_keeps (Outcome (IsCreation db user id now) db) (any (share_is id) db.shares)
        (λ h. inl (refl, refl))
        (λ h. inr (refl, added b recipient s attachments expiry own h refl refl))
  write_share-Outcome (some old) b recipient s attachments expiry found own =
      let (m, h) = found old refl in
      let at = (text_eq_iff old.mailbox_id b.id).0 (
        (and_true (text_eq old.mailbox_id b.id) (text_eq old.shared_with_user_id recipient) h).0) in
      if_keeps (Outcome (IsCreation db user id now) db)
        (is_null old.revoked_at && is_null old.left_at) (λ h. inl (refl, refl))
        (λ h. inr (refl, reopened b old s attachments expiry own m at refl refl))

  create_scoped-Outcome :
      (o : Option Scope) (b : Mailbox) (recipient : Text)
      → Owns db user b
      → Outcome (IsCreation db user id now) db (create_scoped o time id b user recipient now req db)
  create_scoped-Outcome none b recipient own = inl (refl, refl)
  create_scoped-Outcome (some s) b recipient own =
      let expiry = share_expiration time now req.expires_in_days req.expires_at false in
      if_keeps (Outcome (IsCreation db user id now) db) (is_bad expiry) (λ h. inl (refl, refl))
        (λ h.
          write_share-Outcome (select_first (share_of b.id recipient) db.shares) b recipient s
            (with_default req.allow_attachments true) (expiry_of expiry)
            (λ old e. Memᴰ-select_first (share_of b.id recipient) db.shares old e) own)

  create_for-Outcome :
      (o : Option (User × Bool)) (b : Mailbox)
      → Owns db user b
      → Outcome (IsCreation db user id now) db (create_for o std time id b user now req db)
  create_for-Outcome none b own = inl (refl, refl)
  create_for-Outcome (some (target, disabled)) b own =
      if_keeps (Outcome (IsCreation db user id now) db) (unsuitable user target disabled)
        (λ h. inl (refl, refl))
        (λ h. create_scoped-Outcome (validate_mailbox_share_scope std db b.id req) b target.id own)

  create_in-Outcome :
      (o : Option Mailbox) (raw_target : Text)
      → ((b : Mailbox) → o ≡ some b → Owns db user b)
      → Outcome (IsCreation db user id now) db (create_in o std time id user now raw_target req db)
  create_in-Outcome none raw_target own = inl (refl, refl)
  create_in-Outcome (some b) raw_target own =
      create_for-Outcome (user_by_id db (trim_space raw_target)) b (own b refl)

  -- every answer of `handleCreateMailboxShare`
  pub create_mailbox_share-Outcome :
      (raw_mailbox raw_target : Text)
      → Outcome
          (IsCreation db user id now)
          db
          (create_mailbox_share std time id user now raw_mailbox raw_target req db)
  unfolding create_mailbox_share
  create_mailbox_share-Outcome raw_mailbox raw_target =
      create_in-Outcome (mailbox_for_current_user db user (trim_space raw_mailbox)) raw_target
        (current_user-Owns db user (trim_space raw_mailbox))
