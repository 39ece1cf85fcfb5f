-- ===== src/Sharing/Attachments.antt =====
-- Which attachments `handleAttachment` sends.
use lan_qin_email.Prelude.{
  ℕ, ◌≡◌, refl, sym, ap, ◌∙◌, subst, Bool, true, false, ◌||◌, Option, none, some, List, [], inl,
  inr, any, Bool-cases, Option-cases, if_keeps,
}
use lan_qin_email.Prelude.Text.{Text, text_eq_iff, is_empty, trim_space}
use lan_qin_email.Prelude.Rows.{select_first, update_rows}
use lan_qin_email.Prelude.Members.{Memᴰ-select_first, Memᴰ-update_rows, All-Memᴰ}
use mathlib.Core.List.{Memᴰ}
use lan_qin_email.Sharing.{Db, Message, Mailbox, Share}
use lan_qin_email.Sharing.Alive.{IsOpen}
use lan_qin_email.Sharing.Requests.{mailbox_for_user, mailbox_for_current_user}
use lan_qin_email.Sharing.Access.{
  ReadAccess, share_access, due_row, accessed_row, mailbox_share_can_read_message,
  mailbox_of_message, message_is, load_with, load_in, owner_or, recorded,
  load_message_for_read_request, mailbox_read_access_with_id, shared_access,
  record_mailbox_share_access, visible_labels, labels_for_message,
}
use lan_qin_email.Sharing.Lists.{attachment_sent, attachment_with, attachment_access}
use lan_qin_email.Sharing.Reading.{HasAccess, owned, shared, IsWellFormed, with_id-HasAccess}
use lan_qin_email.Sharing.MayLoad.{
  MayRead, with_id-Kept, HasAccess-mailbox, mailbox_of_message-some, load_in-access, load-MayRead,
}

IsOpen-accessed : (now : ℕ) (s : Share) → IsOpen now (accessed_row now s) → IsOpen now s
IsOpen-accessed now s o = record { kept = o.kept; stayed = o.stayed; lasting = o.lasting }

-- instants of access decide about no access
accessed-HasAccess :
    (now : ℕ) (share user id : Text) (db db' : Db) (a : ReadAccess)
    → db'.mailboxes ≡ db.mailboxes
    → db'.shares ≡ update_rows (due_row now share) (accessed_row now) db.shares
    → HasAccess db' now user id a
    → HasAccess db now user id a
accessed-HasAccess now share user id db db' a boxes rows (owned b m e f g i) =
    owned b (subst (Memᴰ b) boxes m) e f g i
accessed-HasAccess now share user id db db' a boxes rows (shared s b m n e f g k l p q i) =
    elim (Memᴰ-update_rows (due_row now share) (accessed_row now) db.shares s
      (subst (Memᴰ s) rows m)) [
        | inl old ↦ shared s b old (subst (Memᴰ b) boxes n) e f g k l p q i
        | inr (x, o, hit, r) ↦
            shared x b o (subst (Memᴰ b) boxes n) e (ap (λ (z : Share). z.mailbox_id) (sym r) ∙ f)
              (ap (λ (z : Share). z.shared_with_user_id) (sym r) ∙ g)
              (ap (λ (z : Share). z.owner_user_id) (sym r) ∙ k)
              (IsOpen-accessed now x (subst (IsOpen now) r l)) p q
              (i ∙ ap (λ z. share_access z b) r)
      ]

-- recording an access gives no other access
record-HasAccess :
    (now : ℕ) (share mailbox who user id : Text) (db : Db) (a : ReadAccess)
    → HasAccess (record_mailbox_share_access now share mailbox who db) now user id a
    → HasAccess db now user id a
unfolding record_mailbox_share_access
record-HasAccess now share mailbox who user id db a h =
    elim (Bool-cases (any (due_row now share) db.shares)) [
      | inr not_due ↦ rw not_due at h
      | inl due ↦ accessed-HasAccess now share user id db _ a refl refl (rw due at h)
    ]

recorded-HasAccess :
    (now : ℕ) (who user id : Text) (o : Option ReadAccess) (db : Db) (a : ReadAccess)
    → HasAccess (recorded now who o db).1 now user id a
    → HasAccess db now user id a
recorded-HasAccess now who user id none db a h = h
recorded-HasAccess now who user id (some c) db a h =
    record-HasAccess now c.share_id c.mailbox.id who user id db a h

owner_or-HasAccess :
    (now : ℕ) (user id : Text) (o : Option Mailbox) (r : Option ReadAccess × Db) (db : Db)
    (a : ReadAccess)
    → (HasAccess r.1 now user id a → HasAccess db now user id a)
    → HasAccess (owner_or o r db).1 now user id a
    → HasAccess db now user id a
owner_or-HasAccess now user id none r db a k h = k h
owner_or-HasAccess now user id (some b) r db a k h = h

read_access-HasAccess :
    (now : ℕ) (who user raw id : Text) (db : Db) (a : ReadAccess)
    → HasAccess (mailbox_read_access_with_id now who raw db).1 now user id a
    → HasAccess db now user id a
unfolding mailbox_read_access_with_id
read_access-HasAccess now who user raw id db a =
    let found = shared_access db.mailboxes now (trim_space raw) who db.shares in
    if_keeps
      (λ (r : Option ReadAccess × Db). HasAccess r.1 now user id a → HasAccess db now user id a)
      (is_empty (trim_space raw))
      (λ blank. owner_or-HasAccess now user id (mailbox_for_user db who) (none, db) db a (λ h. h))
      (λ given.
        owner_or-HasAccess now user id (mailbox_for_current_user db who (trim_space raw))
          (recorded now who found db) db a (recorded-HasAccess now who user id found db a))

-- a load answers with the first message of the id, and behind an access
load_with-database : (id : Text) (r : Option ReadAccess × Db) → (load_with id r).1 ≡ r.1
load_with-database id (none, db) = refl
load_with-database id (some a, db) =
    if_keeps (λ (s : Option (Message × List Text) × Db). s.1 ≡ db)
      (mailbox_share_can_read_message db a id) (λ h. refl) (λ h. refl)

load_with-message :
    (id : Text) (r : Option ReadAccess × Db) (m : Message) (labels : List Text)
    → (load_with id r).0 ≡ some (m, labels)
    → select_first (message_is id) r.1.messages ≡ some m
load_with-message id (none, db) m labels e = absurd (cc)
load_with-message id (some a, db) m labels e =
    elim (Bool-cases (mailbox_share_can_read_message db a id)) [
      | inr not_h ↦ absurd (
          let k : ◌≡◌ {A = Option (Message × List Text)} none (some (m, labels)) = rw not_h at e in
          cc)
      | inl h ↦ elim (Option-cases (select_first (message_is id) db.messages)) [
        | inl nothing ↦ absurd (
            let k : ◌≡◌ {A = Option (Message × List Text)} none (some (m, labels)) =
              rw (h, nothing) at e in
            cc)
        | inr (n, found) ↦
            let k : some (n, visible_labels db a (labels_for_message n.id db.message_labels))
                ≡ some (m, labels) =
              rw (h, found) at e in
            let same : n ≡ m = cc k in found ∙ ap some same
      ]
    ]

attachment_access-true :
    (q : Option ReadAccess × Db)
    → (attachment_access q).0 ≡ true
    → (a : ReadAccess) × (q.0 ≡ some a) × ((a.owner || a.allow_attachments) ≡ true)
attachment_access-true (none, db) h = absurd (cc)
attachment_access-true (some a, db) h = (a, refl, h)

abbrev place : Message → Text
place m = elim m.mailbox_id [ none ↦ [] | some id ↦ id ]

place_at : (m : Message) (y : Text) → m.mailbox_id ≡ some y → place m ≡ y
place_at m y e = rw e refl

attachment_with-true :
    (now : ℕ) (user : Text) (r : Option (Message × List Text) × Db)
    → (attachment_with now user r).0 ≡ true
    → (m : Message) × (labels : List Text) × (r.0 ≡ some (m, labels))
      × (m.external ≡ false)
      × ((attachment_access (mailbox_read_access_with_id now user (place m) r.1)).0 ≡ true)
attachment_with-true now user (none, db) h = absurd (cc)
attachment_with-true now user (some (m, labels), db) h = elim (Bool-cases m.external) [
  | inl ext ↦ absurd (let k : ◌≡◌ {A = Bool} false true = rw ext at h in cc)
  | inr local ↦ (m, labels, refl, local, rw local at h)
]

-- what `handleAttachment` asks of a message whose attachment it sends
pub data MaySend (db : Db) (now : ℕ) (user id : Text) : Type 0 where
  may_send :
      (m : Message) (a : ReadAccess)
      → Memᴰ m db.messages
      → m.id ≡ id
      → m.external ≡ false
      → m.mailbox_id ≡ some a.mailbox.id
      → HasAccess db now user a.mailbox.id a
      → (a.owner || a.allow_attachments) ≡ true
      → MayRead db now user id
      → MaySend db now user id

module _ (now : ℕ) (user id : Text) (db : Db) (w : IsWellFormed db) where
  load_in-HasAccess :
      (y : Text) (o : Option Text) (a : ReadAccess)
      → HasAccess (load_in now user id o db).1 now user y a
      → HasAccess db now user y a
  load_in-HasAccess y none a h = h
  load_in-HasAccess y (some x) a h = read_access-HasAccess now user user x y db a (
      subst (λ d. HasAccess d now user y a)
        (load_with-database id (mailbox_read_access_with_id now user x db)) h)

-- An attachment is sent only to a user who may read its message, and only if the message is not an
-- external one and the access owns the mailbox or is a share that allows attachments.
pub attachment-MaySend :
    (now : ℕ) (user id : Text) (db : Db)
    → IsWellFormed db
    → (attachment_sent now user id db).0 ≡ true
    → MaySend db now user id
unfolding attachment_sent load_message_for_read_request
attachment-MaySend now user id db w h =
    let r = load_message_for_read_request now user id db in
    let (m, labels, loaded, local, allowed) = attachment_with-true now user r h in
    let o = mailbox_of_message (select_first (message_is id) db.messages) in
    let (y, at, e) = load_in-access now user id o db (m, labels) loaded in
    let (n, found, place_n) =
      mailbox_of_message-some (select_first (message_is id) db.messages) y at in
    let access = mailbox_read_access_with_id now user y db in
    let first =
      ap (select_first (message_is id)) (sym ((with_id-Kept now user y db).1))
      ∙ load_with-message id access m labels e in
    let same : n ≡ m = cc (sym found ∙ first) in
    let here : m.mailbox_id ≡ some y = ap (λ (z : Message). z.mailbox_id) (sym same) ∙ place_n in
    let (k, is) = Memᴰ-select_first (message_is id) db.messages m (found ∙ ap some same) in
    let (a, given, allow) =
      attachment_access-true (mailbox_read_access_with_id now user (place m) r.1) allowed in
    let given' : (mailbox_read_access_with_id now user y r.1).0 ≡ some a =
      ap (λ z. (mailbox_read_access_with_id now user z r.1).0) (sym (place_at m y here)) ∙ given in
    let t = All-Memᴰ _ db.messages m w.placed k y here in
    let had =
      load_in-HasAccess now user id db w y o a (with_id-HasAccess now user y r.1 a t given') in
    let box = HasAccess-mailbox had in
    may_send m a k ((text_eq_iff m.id id).0 is) local (here ∙ ap some (sym box))
      (subst (λ z. HasAccess db now user z a) (sym box) had) allow
      ((load-MayRead now user id db w).0 ((m, labels), loaded))
