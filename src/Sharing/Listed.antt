-- ===== src/Sharing/Listed.antt =====
-- What the handlers list, against what a recipient may read.
use lan_qin_email.Prelude.{
  ◌≡◌, refl, sym, subst, Bool, true, false, ◌&&◌, ◌||◌, not, none, some, List, arith, if◌then◌else◌,
  ◌⊎◌, inl, inr, ◌↔◌, Bool-cases, and_true,
}
use lan_qin_email.Prelude.Text.{Text, text_eq}
use lan_qin_email.Prelude.Rows.{keep_rows}
use lan_qin_email.Prelude.Members.{Memᴰ-keep_rows}
use mathlib.Core.List.{Memᴰ}
use lan_qin_email.Sharing.{Db, Message, scope_custom}
use lan_qin_email.Sharing.Requests.{belongs_to_mailbox}
use lan_qin_email.Sharing.Access.{
  ReadAccess, unscoped, is_at, mailbox_share_can_read_label, mailbox_share_can_read_folder,
  mailbox_share_can_read_message,
}
use lan_qin_email.Sharing.MayRead.{
  InScope, whole, by_folder, by_label, by_star, linked-Memᴰ, is_at_iff, InScope-can_read_message,
}
use lan_qin_email.Sharing.Lists.{
  local_in, labelled, label_messages, folder_messages, starred_messages,
}

-- a message that one of the three lists shows for an access
pub data IsListed (db : Db) (a : ReadAccess) (m : Message) : Type 0 where
  under_label :
      (l : Text) (ms : List Message) → label_messages db a l ≡ some ms → Memᴰ m ms → IsListed db a m
  in_folder :
      (f : Text) (ms : List Message)
      → folder_messages db a f ≡ some ms
      → Memᴰ m ms
      → IsListed db a m
  starred : (ms : List Message) → starred_messages db a ≡ some ms → Memᴰ m ms → IsListed db a m

-- what is behind a refusal
behind :
    (b : Bool) (xs ms : List Message)
    → (if b then none else some xs) ≡ some ms
    → (b ≡ false) × (xs ≡ ms)
behind true xs ms e = absurd (cc)
behind false xs ms e = (refl, cc e)

pub local_in_iff :
    (a : ReadAccess) (m : Message)
    → (local_in a m ≡ true) ↔ ((m.mailbox_id ≡ some a.mailbox.id) × (m.external ≡ false))
local_in_iff a m = ground (arith, is_at_iff m.mailbox_id a.mailbox.id)

-- a row of a list that passes a refusal
listed-row :
    (db : Db) (a : ReadAccess) (b : Bool) (p : Message → Bool) (ms : List Message) (m : Message)
    → (if b then none else some (keep_rows (λ n. local_in a n && p n) db.messages)) ≡ some ms
    → Memᴰ m ms
    → (b ≡ false) × Memᴰ m db.messages × (m.mailbox_id ≡ some a.mailbox.id) × (p m ≡ true)
listed-row db a b p ms m e k =
    let (open_, rows) = behind b (keep_rows (λ n. local_in a n && p n) db.messages) ms e in
    let (n, h) =
      Memᴰ-keep_rows (λ n. local_in a n && p n) db.messages m (subst (Memᴰ m) (sym rows) k) in
    let (l, q) = and_true (local_in a m) (p m) h in (open_, n, ((local_in_iff a m).0 l).0, q)

label-InScope :
    (db : Db) (a : ReadAccess) (l : Text) (m : Message)
    → mailbox_share_can_read_label db a l ≡ true
    → labelled db l m ≡ true
    → InScope db a m
unfolding mailbox_share_can_read_label
label-InScope db a l m h on = elim (Bool-cases (unscoped a)) [
  | inl all ↦ whole all
  | inr not_all ↦
      by_label l (linked-Memᴰ m.id l db.message_labels on)
        (linked-Memᴰ a.share_id l db.share_labels (rw not_all at h))
]

folder-InScope :
    (db : Db) (a : ReadAccess) (f : Text) (m : Message)
    → mailbox_share_can_read_folder db a f ≡ true
    → is_at m.folder_id f ≡ true
    → InScope db a m
unfolding mailbox_share_can_read_folder
folder-InScope db a f m h at = elim (Bool-cases (unscoped a)) [
  | inl all ↦ whole all
  | inr not_all ↦
      by_folder f ((is_at_iff m.folder_id f).0 at)
        (linked-Memᴰ a.share_id f db.share_folders (rw not_all at h))
]

star-InScope :
    (db : Db) (a : ReadAccess) (m : Message)
    → (unscoped a ≡ true) ⊎ (text_eq a.scope scope_custom ≡ true)
    → (not a.owner && (text_eq a.scope scope_custom && not a.include_starred)) ≡ false
    → m.is_starred ≡ true
    → InScope db a m
star-InScope db a m (inl all) h star = whole all
star-InScope db a m (inr custom) h star = elim (Bool-cases a.include_starred) [
  | inl given ↦ by_star given star
  | inr not_given ↦ whole (ground arith)
]

shows : (r k : Bool) → (not r || not k) ≡ false → (r ≡ true) × (k ≡ true)
shows r k h = ground arith

-- A message that the list of a label, the list of a folder or the starred list shows is one that
-- `mailboxShareCanReadMessage` lets the same access read, where the scope is one of the two that exist.
pub listed-can_read :
    (db : Db) (a : ReadAccess) (m : Message)
    → (unscoped a ≡ true) ⊎ (text_eq a.scope scope_custom ≡ true)
    → IsListed db a m
    → mailbox_share_can_read_message db a m.id ≡ true
unfolding label_messages folder_messages starred_messages
listed-can_read db a m scope (under_label l ms e k) =
    let (b, n, at, on) = listed-row db a _ (labelled db l) ms m e k in
    let (own, can) =
      shows (belongs_to_mailbox l a.mailbox.id db.labels) (mailbox_share_can_read_label db a l) b in
    InScope-can_read_message db a m n at (label-InScope db a l m can on)
listed-can_read db a m scope (in_folder f ms e k) =
    let (b, n, at, on) = listed-row db a _ (λ z. is_at z.folder_id f) ms m e k in
    InScope-can_read_message db a m n at (folder-InScope db a f m (ground arith) on)
listed-can_read db a m scope (starred ms e k) =
    let (b, n, at, star) = listed-row db a _ (λ z. z.is_starred) ms m e k in
    InScope-can_read_message db a m n at (star-InScope db a m scope b star)
