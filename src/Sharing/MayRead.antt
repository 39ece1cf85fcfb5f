-- ===== src/Sharing/MayRead.antt =====
-- Which messages a user may read, stated without the order of the checks.
use lan_qin_email.Prelude.{
  ◌≡◌, refl, sym, ap, ◌∙◌, true, ◌&&◌, Option, none, some, List, [], ◌∷◌, arith, ◌⊎◌, inl, inr, ◌↔◌,
  Bool-cases, and_true,
}
use lan_qin_email.Prelude.Text.{Text, text_eq, text_eq_iff}
use lan_qin_email.Prelude.Members.{any-Memᴰ, Memᴰ-any}
use mathlib.Core.List.{Memᴰ}
use lan_qin_email.Sharing.{Db, Message}
use lan_qin_email.Sharing.Access.{
  ReadAccess, linked, is_at, unscoped, folder_shared, label_shared, in_scope, in_mailbox,
  mailbox_share_can_read_message,
}

-- what an access shows of a mailbox: all of it, a folder, a label, or the starred messages
pub data InScope (db : Db) (a : ReadAccess) (m : Message) : Type 0 where
  whole : unscoped a ≡ true → InScope db a m
  by_folder :
      (f : Text) → m.folder_id ≡ some f → Memᴰ (a.share_id, f) db.share_folders → InScope db a m
  by_label :
      (l : Text)
      → Memᴰ (m.id, l) db.message_labels
      → Memᴰ (a.share_id, l) db.share_labels
      → InScope db a m
  by_star : a.include_starred ≡ true → m.is_starred ≡ true → InScope db a m

pair_iff : (x y a b : Text) → ((text_eq x a && text_eq y b) ≡ true) ↔ ((x ≡ a) × (y ≡ b))
pair_iff x y a b = ground (arith, text_eq_iff x a, text_eq_iff y b)

pub linked-Memᴰ :
    (a b : Text) (rows : List (Text × Text)) → linked a b rows ≡ true → Memᴰ (a, b) rows
linked-Memᴰ a b [] h = absurd (cc)
linked-Memᴰ a b ((x, y) ∷ rows) h = elim (Bool-cases (text_eq x a && text_eq y b)) [
  | inl here ↦ let (e, f) = (pair_iff x y a b).0 here in Memᴰ.head (rw (e, f) refl)
  | inr not_here ↦ Memᴰ.tail (linked-Memᴰ a b rows (rw not_here at h))
]

Memᴰ-linked : (a b : Text) (rows : List (Text × Text)) → Memᴰ (a, b) rows → linked a b rows ≡ true
Memᴰ-linked a b [] m = elim m [ ]
Memᴰ-linked a b ((x, y) ∷ rows) (Memᴰ.head e) =
    let here =
      (pair_iff x y a b).1
        (ap (λ (p : Text × Text). p.0) (sym e), ap (λ (p : Text × Text). p.1) (sym e)) in
    rw here refl
Memᴰ-linked a b ((x, y) ∷ rows) (Memᴰ.tail m) = ground (arith, Memᴰ-linked a b rows m)

label_shared-Memᴰ :
    (share id : Text) (links rows : List (Text × Text))
    → label_shared share id links rows ≡ true
    → (l : Text) × Memᴰ (id, l) rows × Memᴰ (share, l) links
label_shared-Memᴰ share id links [] h = absurd (cc)
label_shared-Memᴰ share id links ((m, l) ∷ rows) h =
    elim (Bool-cases (text_eq m id && linked share l links)) [
      | inl here ↦
          let (e, f) = and_true (text_eq m id) (linked share l links) here in
          (l, Memᴰ.head (rw ((text_eq_iff m id).0 e) refl), linked-Memᴰ share l links f)
      | inr not_here ↦
          let (k, n, o) = label_shared-Memᴰ share id links rows (rw not_here at h) in
          (k, Memᴰ.tail n, o)
    ]

Memᴰ-label_shared :
    (share id l : Text) (links rows : List (Text × Text))
    → Memᴰ (id, l) rows
    → Memᴰ (share, l) links
    → label_shared share id links rows ≡ true
Memᴰ-label_shared share id l links [] m n = elim m [ ]
Memᴰ-label_shared share id l links ((x, k) ∷ rows) (Memᴰ.head e) n =
    let first : text_eq x id ≡ true =
      (text_eq_iff x id).1 (ap (λ (p : Text × Text). p.0) (sym e)) in
    let second : linked share k links ≡ true =
      ap (λ (p : Text × Text). linked share p.1 links) (sym e) ∙ Memᴰ-linked share l links n in
    rw (first, second) refl
Memᴰ-label_shared share id l links ((x, k) ∷ rows) (Memᴰ.tail m) n =
    ground (arith, Memᴰ-label_shared share id l links rows m n)

pub is_at_iff : (o : Option Text) (id : Text) → (is_at o id ≡ true) ↔ (o ≡ some id)
is_at_iff none id = (λ h. absurd (cc), λ h. absurd (cc))
is_at_iff (some x) id = (λ h. ap some ((text_eq_iff x id).0 h), λ h. (text_eq_iff x id).1 (cc h))

folder_shared-InScope :
    (db : Db) (a : ReadAccess) (m : Message) (o : Option Text)
    → m.folder_id ≡ o
    → folder_shared db a.share_id o ≡ true
    → InScope db a m
folder_shared-InScope db a m none e h = absurd (cc)
folder_shared-InScope db a m (some f) e h =
    by_folder f e (linked-Memᴰ a.share_id f db.share_folders h)

pub in_scope-InScope :
    (db : Db) (a : ReadAccess) (m : Message) → in_scope db a m ≡ true → InScope db a m
in_scope-InScope db a m h = elim (Bool-cases (folder_shared db a.share_id m.folder_id)) [
  | inl at ↦ folder_shared-InScope db a m m.folder_id refl at
  | inr not_at ↦
      elim (Bool-cases (label_shared a.share_id m.id db.share_labels db.message_labels)) [
        | inl on ↦
            let (l, n, o) =
              label_shared-Memᴰ a.share_id m.id db.share_labels db.message_labels on in
            by_label l n o
        | inr not_on ↦
            let (e, f) = and_true a.include_starred m.is_starred (rw (not_at, not_on) at h) in
            by_star e f
      ]
]

pub InScope-in_scope :
    (db : Db) (a : ReadAccess) (m : Message)
    → InScope db a m
    → (unscoped a ≡ true) ⊎ (in_scope db a m ≡ true)
InScope-in_scope db a m (whole h) = inl h
InScope-in_scope db a m (by_folder f e n) =
    let at : folder_shared db a.share_id m.folder_id ≡ true =
      ap (folder_shared db a.share_id) e ∙ Memᴰ-linked a.share_id f db.share_folders n in
    inr (rw at refl)
InScope-in_scope db a m (by_label l n o) =
    let on = Memᴰ-label_shared a.share_id m.id l db.share_labels db.message_labels n o in
    inr (ground (arith, on))
InScope-in_scope db a m (by_star e f) = inr (ground arith)

pub in_mailbox_iff :
    (a : ReadAccess) (id : Text) (m : Message)
    → (in_mailbox a id m ≡ true) ↔ ((m.id ≡ id) × (m.mailbox_id ≡ some a.mailbox.id))
in_mailbox_iff a id m = ground (arith, text_eq_iff m.id id, is_at_iff m.mailbox_id a.mailbox.id)

-- `mailboxShareCanReadMessage` finds a message of the mailbox that the access shows
pub can_read_message-InScope :
    (db : Db) (a : ReadAccess) (id : Text)
    → mailbox_share_can_read_message db a id ≡ true
    → (m : Message) × Memᴰ m db.messages
      × (m.id ≡ id)
      × (m.mailbox_id ≡ some a.mailbox.id)
      × InScope db a m
unfolding mailbox_share_can_read_message
can_read_message-InScope db a id h = elim (Bool-cases (unscoped a)) [
  | inl all ↦
      let (m, n, k) = any-Memᴰ (in_mailbox a id) db.messages (rw all at h) in
      let (e, f) = (in_mailbox_iff a id m).0 k in (m, n, e, f, whole all)
  | inr not_all ↦
      let (m, n, k) =
        any-Memᴰ (λ m. in_mailbox a id m && in_scope db a m) db.messages (rw not_all at h) in
      let (i, j) = and_true (in_mailbox a id m) (in_scope db a m) k in
      let (e, f) = (in_mailbox_iff a id m).0 i in (m, n, e, f, in_scope-InScope db a m j)
]

pub InScope-can_read_message :
    (db : Db) (a : ReadAccess) (m : Message)
    → Memᴰ m db.messages
    → m.mailbox_id ≡ some a.mailbox.id
    → InScope db a m
    → mailbox_share_can_read_message db a m.id ≡ true
unfolding mailbox_share_can_read_message
InScope-can_read_message db a m n f s = elim (Bool-cases (unscoped a)) [
  | inl all ↦
      rw all (Memᴰ-any (in_mailbox a m.id) db.messages m n ((in_mailbox_iff a m.id m).1 (refl, f)))
  | inr not_all ↦ elim (InScope-in_scope db a m s) [
    | inl all ↦ absurd (cc)
    | inr h ↦ rw not_all (
        Memᴰ-any (λ m'. in_mailbox a m.id m' && in_scope db a m') db.messages m n
          (rw ((in_mailbox_iff a m.id m).1 (refl, f), h) refl))
  ]
]
