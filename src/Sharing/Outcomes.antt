-- ===== src/Sharing/Outcomes.antt =====
-- What the handlers of Create and Edit may write, for every answer.
use lan_qin_email.Prelude.{
  ℕ, ◌≡◌, refl, sym, ap, ◌∙◌, subst, Bool, true, false, ◌&&◌, Option, none, some, List, [], ◌∷◌,
  ltb, ◌⊎◌, inl, inr, any, Bool-cases, Option-cases, and_true, if_keeps,
}
use lan_qin_email.Prelude.Text.{Text, text_eq, text_eq_iff, is_empty, trim_space}
use lan_qin_email.Prelude.Rows.{update_rows}
use lan_qin_email.Prelude.Members.{Memᴰ-select_first}
use mathlib.Core.List.{Memᴰ}
use lan_qin_email.Std.{Std}
use lan_qin_email.Sharing.{Db, Mailbox, Share}
use lan_qin_email.Sharing.Requests.{
  TimeLib, ShareRequest, Scope, Expiration, mailbox_for_current_user, mailbox_for_user, own_mailbox,
  oldest, share_expiration, validate_mailbox_share_scope,
}
use lan_qin_email.Sharing.Create.{
  Reply, not_found, bad_request, conflict, server_error, done, created, updated, is_bad,
  with_default,
}
use lan_qin_email.Sharing.Edit.{
  updatable, update_row, write_update, update_scoped, update_in, update_found, version_given,
  update_mailbox_share, mailbox_share_by_id,
}
use lan_qin_email.Sharing.Reading.{own_mailbox_iff}

-- whether an answer is one of success
abbrev pub is_done : Reply → Bool
is_done not_found = false
is_done bad_request = false
is_done conflict = false
is_done server_error = false
is_done done = true
is_done (created i) = true
is_done (updated i) = true

-- a refusal that leaves the database, or a success that wrote
abbrev pub Outcome : (Db → Type 0) → Db → Reply × Db → Type 0
Outcome P db r = ((is_done r.0 ≡ false) × (r.1 ≡ db)) ⊎ ((is_done r.0 ≡ true) × P r.1)

abbrev pub Owns : Db → Text → Mailbox → Type 0
Owns db user b = Memᴰ b db.mailboxes × (b.user_id ≡ user)

oldest-Owns :
    (user : Text) (bs : List Mailbox) (b : Mailbox)
    → oldest user bs ≡ some b
    → Memᴰ b bs × (b.user_id ≡ user)
unfolding oldest
oldest-Owns user [] b e = absurd (cc)
oldest-Owns user (c ∷ bs) b e = elim (Bool-cases (text_eq c.user_id user && c.active)) [
  | inr other ↦ let (m, h) = oldest-Owns user bs b (rw other at e) in (Memᴰ.tail m, h)
  | inl mine ↦
      let owner : c.user_id ≡ user =
        (text_eq_iff c.user_id user).0 ((and_true (text_eq c.user_id user) c.active mine).0) in
      elim (Option-cases (oldest user bs)) [
        | inl none_left ↦
            let same : some c ≡ some b = rw (mine, none_left) at e in
            let k : c ≡ b = cc same in
            (Memᴰ.head (sym k), ap (λ (z : Mailbox). z.user_id) (sym k) ∙ owner)
        | inr (d, found) ↦
            let (m, h) = oldest-Owns user bs d found in
            elim (Bool-cases (ltb d.created_at c.created_at)) [
              | inl older ↦
                  let same : some d ≡ some b = rw (mine, found, older) at e in
                  let k : d ≡ b = cc same in
                  (
                    Memᴰ.tail (subst (λ z. Memᴰ z bs) k m),
                    ap (λ (z : Mailbox). z.user_id) (sym k) ∙ h,
                  )
              | inr newer ↦
                  let same : some c ≡ some b = rw (mine, found, newer) at e in
                  let k : c ≡ b = cc same in
                  (Memᴰ.head (sym k), ap (λ (z : Mailbox). z.user_id) (sym k) ∙ owner)
            ]
      ]
]

pub current_user-Owns :
    (db : Db) (user raw : Text) (b : Mailbox)
    → mailbox_for_current_user db user raw ≡ some b
    → Owns db user b
unfolding mailbox_for_current_user mailbox_for_user
current_user-Owns db user raw b e = elim (Bool-cases (is_empty (trim_space raw))) [
  | inl blank ↦ oldest-Owns user db.mailboxes b (rw blank at e)
  | inr given ↦
      let (m, h) =
        Memᴰ-select_first (own_mailbox (trim_space raw) user) db.mailboxes b (rw given at e) in
      (m, ((own_mailbox_iff (trim_space raw) user b).0 h).1)
]

-- the rows that an update writes
pub data IsUpdate (db : Db) (user id : Text) (now : ℕ) (req : ShareRequest) (db' : Db)
    : Type 0 where
  wrote :
      (b : Mailbox) (s : Scope) (attachments : Bool) (expiry : Expiration)
      → Owns db user b
      → any (updatable id user b.id req.version) db.shares ≡ true
      → db'.shares
        ≡ update_rows
            (updatable id user b.id req.version)
            (update_row now s attachments expiry)
            db.shares
      → db'.mailboxes ≡ db.mailboxes
      → IsUpdate db user id now req db'

module _ (std : Std) (time : TimeLib) (user : Text) (now : ℕ) (id : Text) (req : ShareRequest)
    (db : Db) where
  write_update-Outcome :
      (share : Share) (b : Mailbox) (s : Scope) (attachments : Bool) (expiry : Expiration)
      → Owns db user b
      → Outcome
          (IsUpdate db user id now req)
          db
          (write_update id share b user now s attachments expiry req.version db)
  write_update-Outcome share b s attachments expiry own =
      if_keeps (Outcome (IsUpdate db user id now req) db)
        (any (updatable id user b.id req.version) db.shares)
        (λ h. inr (refl, wrote b s attachments expiry own h refl refl))
        (λ h.
          if_keeps (Outcome (IsUpdate db user id now req) db)
            (any (λ (r : Share). text_eq r.id id && text_eq r.owner_user_id user) db.shares)
            (λ k. inl (refl, refl)) (λ k. inl (refl, refl)))

  update_scoped-Outcome :
      (o : Option Scope) (share : Share) (b : Mailbox)
      → Owns db user b
      → Outcome (IsUpdate db user id now req) db (update_scoped o time id share b user now req db)
  update_scoped-Outcome none share b own = inl (refl, refl)
  update_scoped-Outcome (some s) share b own =
      let expiry = share_expiration time now req.expires_in_days req.expires_at true in
      if_keeps (Outcome (IsUpdate db user id now req) db) (is_bad expiry) (λ h. inl (refl, refl))
        (λ h.
          write_update-Outcome share b s
            (with_default req.allow_attachments share.allow_attachments) expiry own)

  update_in-Outcome :
      (o : Option Mailbox) (share : Share)
      → ((b : Mailbox) → o ≡ some b → Owns db user b)
      → Outcome (IsUpdate db user id now req) db (update_in o std time id share user now req db)
  update_in-Outcome none share own = inl (refl, refl)
  update_in-Outcome (some b) share own =
      update_scoped-Outcome (validate_mailbox_share_scope std db b.id req) share b (own b refl)

  update_found-Outcome :
      (o : Option Share)
      → Outcome (IsUpdate db user id now req) db (update_found o std time id user now req db)
  update_found-Outcome none = inl (refl, refl)
  update_found-Outcome (some share) =
      if_keeps (Outcome (IsUpdate db user id now req) db) (version_given req.version)
        (λ h.
          update_in-Outcome (mailbox_for_current_user db user share.mailbox_id) share
            (current_user-Owns db user share.mailbox_id))
        (λ h. inl (refl, refl))

-- every answer of `handleUpdateMailboxShare`
pub update_mailbox_share-Outcome :
    (std : Std) (time : TimeLib) (user : Text) (now : ℕ) (raw_id : Text) (req : ShareRequest)
    (db : Db)
    → Outcome
        (IsUpdate db user (trim_space raw_id) now req)
        db
        (update_mailbox_share std time user now raw_id req db)
unfolding update_mailbox_share
update_mailbox_share-Outcome std time user now raw_id req db =
    update_found-Outcome std time user now (trim_space raw_id) req db
      (mailbox_share_by_id db (trim_space raw_id) user)
