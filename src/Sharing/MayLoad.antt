-- ===== src/Sharing/MayLoad.antt =====
-- `loadMessageForReadRequest` against the messages that a user may read.
use lan_qin_email.Prelude.{
  ℕ, ◌≡◌, refl, sym, ap, ◌∙◌, subst, true, Option, none, some, List, ◌⊎◌, inl, inr, ◌↔◌, any,
  Bool-cases, Option-cases, if_keeps,
}
use lan_qin_email.Prelude.Text.{Text, text_eq_iff, text_eq_refl, is_empty, trim_space}
use lan_qin_email.Prelude.Rows.{select_first}
use lan_qin_email.Prelude.Members.{IsKey-eq, Memᴰ-select_first, select_first-only, All-Memᴰ}
use mathlib.Core.List.{Memᴰ}
use lan_qin_email.Sharing.{Db, Message, Mailbox}
use lan_qin_email.Sharing.Requests.{mailbox_for_user, mailbox_for_current_user}
use lan_qin_email.Sharing.Access.{
  ReadAccess, due_row, mailbox_share_can_read_message, mailbox_of_message, message_is, load_with,
  load_in, owner_or, recorded, load_message_for_read_request, mailbox_read_access_with_id,
  shared_access, record_mailbox_share_access, visible_labels, labels_for_message,
}
use lan_qin_email.Sharing.Reading.{
  HasAccess, owned, shared, IsWellFormed, with_id-HasAccess, HasAccess-with_id,
}
use lan_qin_email.Sharing.MayRead.{
  InScope, whole, can_read_message-InScope, InScope-can_read_message,
}

-- a user may read a message of a mailbox to which the user has an access that shows it
pub data MayRead (db : Db) (now : ℕ) (user id : Text) : Type 0 where
  may :
      (m : Message) (a : ReadAccess)
      → Memᴰ m db.messages
      → m.id ≡ id
      → m.mailbox_id ≡ some a.mailbox.id
      → HasAccess db now user a.mailbox.id a
      → InScope db a m
      → MayRead db now user id

-- recording an access changes neither the messages nor the scopes
record-can_read_message :
    (now : ℕ) (share mailbox user : Text) (db : Db) (a : ReadAccess) (id : Text)
    → mailbox_share_can_read_message (record_mailbox_share_access now share mailbox user db) a id
      ≡ mailbox_share_can_read_message db a id
unfolding record_mailbox_share_access mailbox_share_can_read_message
record-can_read_message now share mailbox user db a id =
    elim (Bool-cases (any (due_row now share) db.shares)) [
      | inl due ↦ rw due refl
      | inr not_due ↦ rw not_due refl
    ]

messages-record :
    (now : ℕ) (share mailbox user : Text) (db : Db)
    → (record_mailbox_share_access now share mailbox user db).messages ≡ db.messages
unfolding record_mailbox_share_access
messages-record now share mailbox user db = elim (Bool-cases (any (due_row now share) db.shares)) [
  | inl due ↦ rw due refl
  | inr not_due ↦ rw not_due refl
]

-- what an access that was given leaves as it was
abbrev pub Kept : Db → Db → Type 0
Kept db db' =
    ((a : ReadAccess) (id : Text)
      → mailbox_share_can_read_message db' a id ≡ mailbox_share_can_read_message db a id)
    × (db'.messages ≡ db.messages)

recorded-Kept :
    (now : ℕ) (user : Text) (o : Option ReadAccess) (db : Db) → Kept db (recorded now user o db).1
recorded-Kept now user none db = (λ a id. refl, refl)
recorded-Kept now user (some a) db = (
  record-can_read_message now a.share_id a.mailbox.id user db,
  messages-record now a.share_id a.mailbox.id user db,
)

owner_or-Kept :
    (o : Option Mailbox) (r : Option ReadAccess × Db) (db : Db)
    → Kept db r.1
    → Kept db (owner_or o r db).1
owner_or-Kept none r db k = k
owner_or-Kept (some b) r db k = (λ a id. refl, refl)

pub with_id-Kept :
    (now : ℕ) (user id : Text) (db : Db) → Kept db (mailbox_read_access_with_id now user id db).1
unfolding mailbox_read_access_with_id
with_id-Kept now user id db =
    if_keeps (λ (r : Option ReadAccess × Db). Kept db r.1) (is_empty (trim_space id))
      (λ blank. owner_or-Kept (mailbox_for_user db user) (none, db) db (λ a m. refl, refl))
      (λ given.
        let found = shared_access db.mailboxes now (trim_space id) user db.shares in
        owner_or-Kept (mailbox_for_current_user db user (trim_space id))
          (recorded now user found db) db (recorded-Kept now user found db))

load_with-some :
    (id : Text) (r : Option ReadAccess × Db) (a : ReadAccess) (m : Message)
    → r.0 ≡ some a
    → mailbox_share_can_read_message r.1 a id ≡ true
    → select_first (message_is id) r.1.messages ≡ some m
    → (x : Message × List Text) × ((load_with id r).0 ≡ some x)
load_with-some id (none, db) a m e h f = absurd (cc)
load_with-some id (some c, db) a m e h f =
    let same : c ≡ a = cc e in
    let k : mailbox_share_can_read_message db c id ≡ true = rw same h in
    ((m, visible_labels db c (labels_for_message m.id db.message_labels)), rw (k, f) refl)

load_with-access :
    (id : Text) (r : Option ReadAccess × Db) (x : Message × List Text)
    → (load_with id r).0 ≡ some x
    → (a : ReadAccess) × (r.0 ≡ some a) × (mailbox_share_can_read_message r.1 a id ≡ true)
load_with-access id (none, db) x e = absurd (cc)
load_with-access id (some c, db) x e = elim (Bool-cases (mailbox_share_can_read_message db c id)) [
  | inl h ↦ (c, refl, h)
  | inr not_h ↦
      absurd (let k : ◌≡◌ {A = Option (Message × List Text)} none (some x) = rw not_h at e in cc)
]

pub mailbox_of_message-some :
    (o : Option Message) (x : Text)
    → mailbox_of_message o ≡ some x
    → (m : Message) × (o ≡ some m) × (m.mailbox_id ≡ some x)
mailbox_of_message-some none x e = absurd (cc)
mailbox_of_message-some (some m) x e = elim (Option-cases m.mailbox_id) [
  | inl nowhere ↦ absurd (let k : ◌≡◌ {A = Option Text} none (some x) = rw nowhere at e in cc)
  | inr (y, at) ↦ elim (Bool-cases (is_empty y)) [
    | inl blank ↦ absurd (let k : ◌≡◌ {A = Option Text} none (some x) = rw (at, blank) at e in cc)
    | inr given ↦ (m, refl, at ∙ (rw (at, given) at e))
  ]
]

pub load_in-access :
    (now : ℕ) (user id : Text) (o : Option Text) (db : Db) (x : Message × List Text)
    → (load_in now user id o db).0 ≡ some x
    → (y : Text) × (o ≡ some y)
      × ((load_with id (mailbox_read_access_with_id now user y db)).0 ≡ some x)
load_in-access now user id none db x e = absurd (cc)
load_in-access now user id (some y) db x e = (y, refl, e)

first-message :
    (db : Db) (m : Message)
    → IsWellFormed db
    → Memᴰ m db.messages
    → select_first (message_is m.id) db.messages ≡ some m
first-message db m w n =
    select_first-only (message_is m.id) db.messages m n (text_eq_refl m.id) (λ k o h.
      IsKey-eq (λ (z : Message). z.id) db.messages k m w.message_ids o n
        ((text_eq_iff k.id m.id).0 h))

pub HasAccess-mailbox :
    {db : Db} {now : ℕ} {user id : Text} {a : ReadAccess}
    → HasAccess db now user id a
    → a.mailbox.id ≡ id
HasAccess-mailbox (owned b m e f g i) = ap (λ (c : ReadAccess). c.mailbox.id) i ∙ e
HasAccess-mailbox (shared r b m n e f g k l p q i) = ap (λ (c : ReadAccess). c.mailbox.id) i ∙ e

better-InScope :
    {db : Db} {a c : ReadAccess} {m : Message}
    → (c ≡ a) ⊎ (c.owner ≡ true)
    → InScope db a m
    → InScope db c m
better-InScope {db} {m = m} (inl e) s = subst (λ c. InScope db c m) (sym e) s
better-InScope (inr o) s = whole (rw o refl)

module _ (now : ℕ) (user id : Text) (db : Db) (w : IsWellFormed db) where
  load_sound :
      (x : Message × List Text)
      → (load_message_for_read_request now user id db).0 ≡ some x
      → MayRead db now user id
  unfolding load_message_for_read_request
  load_sound x e =
      let (y, at, e') =
        load_in-access now user id (mailbox_of_message (select_first (message_is id) db.messages))
          db x e in
      let (m, found, at') =
        mailbox_of_message-some (select_first (message_is id) db.messages) y at in
      let (n, k) = Memᴰ-select_first (message_is id) db.messages m found in
      let t = All-Memᴰ _ db.messages m w.placed n y at' in
      let (a, given, can) = load_with-access id (mailbox_read_access_with_id now user y db) x e' in
      let h = with_id-HasAccess now user y db a t given in
      let can' = sym ((with_id-Kept now user y db).0 a id) ∙ can in
      let (m', n', e1, e2, s) = can_read_message-InScope db a id can' in
      let same =
        IsKey-eq (λ (z : Message). z.id) db.messages m m' w.message_ids n n'
          ((text_eq_iff m.id id).0 k ∙ sym e1) in
      let here : y ≡ a.mailbox.id = cc (sym at' ∙ ap (λ (z : Message). z.mailbox_id) same ∙ e2) in
      may m' a n' e1 e2 (subst (λ z. HasAccess db now user z a) here h) s

  load_complete :
      MayRead db now user id
      → (x : Message × List Text) × ((load_message_for_read_request now user id db).0 ≡ some x)
  unfolding load_message_for_read_request
  load_complete (may m a n e at h s) =
      let t = All-Memᴰ _ db.messages m w.placed n a.mailbox.id at in
      let (c, given, better) = HasAccess-with_id now user a.mailbox.id db a t w h in
      let place = HasAccess-mailbox (with_id-HasAccess now user a.mailbox.id db c t given) in
      let r = mailbox_read_access_with_id now user a.mailbox.id db in
      let (kept, rows) = with_id-Kept now user a.mailbox.id db in
      let can =
        InScope-can_read_message db c m n (at ∙ ap some (sym place)) (better-InScope better s) in
      let found = first-message db m w n in
      let loaded =
        load_with-some m.id r c m given (kept c m.id ∙ can)
          (ap (select_first (message_is m.id)) rows ∙ found) in
      subst
        (λ i.
          (x : Message × List Text) × ((load_message_for_read_request now user i db).0 ≡ some x))
        e (rw (found, at, t.1) loaded)

-- For tables with the keys of the schema, a user is shown a message exactly when the user owns its
-- active mailbox, or when a share of the mailbox with the user, by its owner and of an active mailbox
-- in an active domain, is neither revoked nor left, and has no expiry or one whose stored text is
-- behind the text of now, and the share's scope is the whole mailbox or shows the message by its
-- folder, by one of its labels or by its star.
pub load-MayRead :
    (now : ℕ) (user id : Text) (db : Db)
    → IsWellFormed db
    → ((x : Message × List Text) × ((load_message_for_read_request now user id db).0 ≡ some x))
      ↔ MayRead db now user id
load-MayRead now user id db w =
    (λ h. load_sound now user id db w h.0 h.1, load_complete now user id db w)

load_with-messages :
    (id : Text) (r : Option ReadAccess × Db) → (load_with id r).1.messages ≡ r.1.messages
load_with-messages id (none, db) = refl
load_with-messages id (some a, db) =
    if_keeps (λ (s : Option (Message × List Text) × Db). s.1.messages ≡ db.messages)
      (mailbox_share_can_read_message db a id) (λ h. refl) (λ h. refl)

load_in-messages :
    (now : ℕ) (user id : Text) (o : Option Text) (db : Db)
    → (load_in now user id o db).1.messages ≡ db.messages
load_in-messages now user id none db = refl
load_in-messages now user id (some y) db =
    load_with-messages id (mailbox_read_access_with_id now user y db)
    ∙ (with_id-Kept now user y db).1

-- reading leaves the messages
pub load-messages :
    (now : ℕ) (user id : Text) (db : Db)
    → (load_message_for_read_request now user id db).1.messages ≡ db.messages
unfolding load_message_for_read_request
load-messages now user id db =
    load_in-messages now user id (mailbox_of_message (select_first (message_is id) db.messages)) db
