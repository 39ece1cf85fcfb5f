-- ===== src/Sharing/Reading.antt =====
-- Who may read a message, against `loadMessageForReadRequest`.
use lan_qin_email.Prelude.{
  and_true, ℕ, ◌≡◌, refl, sym, ap, ◌∙◌, subst, Bool, true, false, ◌&&◌, Option, none, some, List,
  [], ◌∷◌, arith, ◌⊎◌, inl, inr, ◌↔◌, All, Bool-cases, Option-cases,
}
use lan_qin_email.Prelude.Text.{Text, text_eq_iff, trim_space, is_empty}
use lan_qin_email.Prelude.Rows.{select_first}
use lan_qin_email.Prelude.Members.{IsKey, IsKey-eq, Memᴰ-select_first, select_first-only}
use mathlib.Core.List.{Memᴰ}
use mathlib.Core.List.Memᴰ
use lan_qin_email.Sharing.{Db, Mailbox, Share, Message}
use lan_qin_email.Sharing.Requests.{mailbox_for_current_user, own_mailbox}
use lan_qin_email.Sharing.Create.{share_of}
use lan_qin_email.Sharing.Alive.{IsOpen, IsOpen-iff}
use lan_qin_email.Sharing.Access.{
  ReadAccess, owner_access, share_access, shared_access, open_to, joins,
  mailbox_read_access_with_id, owner_or, recorded,
}

-- the mailbox of an access, for its owner or through a share that is neither revoked nor left nor
-- expired
pub data HasAccess (db : Db) (now : ℕ) (user id : Text) (a : ReadAccess) : Type 0 where
  owned :
      (b : Mailbox)
      → Memᴰ b db.mailboxes
      → b.id ≡ id
      → b.user_id ≡ user
      → b.active ≡ true
      → a ≡ owner_access b
      → HasAccess db now user id a
  shared :
      (s : Share) (b : Mailbox)
      → Memᴰ s db.shares
      → Memᴰ b db.mailboxes
      → b.id ≡ id
      → s.mailbox_id ≡ id
      → s.shared_with_user_id ≡ user
      → s.owner_user_id ≡ b.user_id
      → IsOpen now s
      → b.active ≡ true
      → b.domain_active ≡ true
      → a ≡ share_access s b
      → HasAccess db now user id a

and_iff : (a b : Bool) → ((a && b) ≡ true) ↔ ((a ≡ true) × (b ≡ true))
and_iff a b = ground arith

pub own_mailbox_iff :
    (id user : Text) (b : Mailbox)
    → (own_mailbox id user b ≡ true) ↔ ((b.id ≡ id) × (b.user_id ≡ user) × (b.active ≡ true))
own_mailbox_iff id user b = ground (arith, text_eq_iff b.id id, text_eq_iff b.user_id user)

share_of_iff :
    (id user : Text) (s : Share)
    → (share_of id user s ≡ true) ↔ ((s.mailbox_id ≡ id) × (s.shared_with_user_id ≡ user))
share_of_iff id user s =
    ground (arith, text_eq_iff s.mailbox_id id, text_eq_iff s.shared_with_user_id user)

open_to_iff :
    (now : ℕ) (id user : Text) (s : Share)
    → (open_to now id user s ≡ true)
      ↔ ((s.mailbox_id ≡ id) × (s.shared_with_user_id ≡ user) × IsOpen now s)
open_to_iff now id user s = (
  λ h.
      let (at, alive) = and_true (share_of id user s) _ h in
      let (e, f) = (share_of_iff id user s).0 at in (e, f, (IsOpen-iff now s).0 alive),
  λ (e, f, o). rw ((share_of_iff id user s).1 (e, f), (IsOpen-iff now s).1 o) refl,
)

joins_iff :
    (s : Share) (b : Mailbox)
    → (joins s b ≡ true) ↔ (
        (b.id ≡ s.mailbox_id)
        × (s.owner_user_id ≡ b.user_id)
        × (b.active ≡ true)
        × (b.domain_active ≡ true))
joins_iff s b = ground (arith, text_eq_iff b.id s.mailbox_id, text_eq_iff s.owner_user_id b.user_id)

-- the rows that a share of a list gives access to
HasRow : List Mailbox → ℕ → Text → Text → List Share → ReadAccess → Type 0
HasRow mailboxes now id user ss a =
    (s : Share) × (b : Mailbox) × Memᴰ s ss
    × Memᴰ b mailboxes
    × (open_to now id user s ≡ true)
    × (joins s b ≡ true)
    × (a ≡ share_access s b)

HasRow-tail :
    (mailboxes : List Mailbox) (now : ℕ) (id user : Text) (s : Share) (ss : List Share)
    (a : ReadAccess)
    → HasRow mailboxes now id user ss a
    → HasRow mailboxes now id user (s ∷ ss) a
unfolding HasRow
HasRow-tail mailboxes now id user s ss a (r, b, m, n, o, j, e) = (r, b, Memᴰ.tail m, n, o, j, e)

shared_access-HasRow :
    (mailboxes : List Mailbox) (now : ℕ) (id user : Text) (ss : List Share) (a : ReadAccess)
    → shared_access mailboxes now id user ss ≡ some a
    → HasRow mailboxes now id user ss a
unfolding shared_access HasRow
shared_access-HasRow mailboxes now id user [] a e = absurd (cc)
shared_access-HasRow mailboxes now id user (s ∷ ss) a e =
    elim (Bool-cases (open_to now id user s)) [
      | inr shut ↦
          HasRow-tail mailboxes now id user s ss a
            (shared_access-HasRow mailboxes now id user ss a (rw shut at e))
      | inl opened ↦ elim (Option-cases (select_first (joins s) mailboxes)) [
        | inl nowhere ↦
            HasRow-tail mailboxes now id user s ss a
              (shared_access-HasRow mailboxes now id user ss a (rw (opened, nowhere) at e))
        | inr (b, found) ↦
            let same : some (share_access s b) ≡ some a = rw (opened, found) at e in
            let (m, j) = Memᴰ-select_first (joins s) mailboxes b found in
            (s, b, Memᴰ.head refl, m, opened, j, cc)
      ]
    ]

-- the rows with the pair of a mailbox and a user are one, as are the mailboxes of an id
abbrev pub pair_of : Share → Text × Text
pair_of s = (s.mailbox_id, s.shared_with_user_id)

open_to-pair_of :
    (now : ℕ) (id user : Text) (s : Share) → open_to now id user s ≡ true → pair_of s ≡ (id, user)
open_to-pair_of now id user s h = let (e, f, g) = (open_to_iff now id user s).0 h in rw (e, f) refl

module _ (mailboxes : List Mailbox) (now : ℕ) (id user : Text)
    (ids : IsKey (λ (b : Mailbox). b.id) mailboxes) (s : Share) (b : Mailbox) (m : Memᴰ b mailboxes)
    (o : open_to now id user s ≡ true) (j : joins s b ≡ true) where
  the_mailbox : select_first (joins s) mailboxes ≡ some b
  the_mailbox = select_first-only (joins s) mailboxes b m j (λ c k h.
      IsKey-eq (λ (d : Mailbox). d.id) mailboxes c b ids k m
        (((joins_iff s c).0 h).0 ∙ sym ((joins_iff s b).0 j).0))

  shared_access_complete :
      (ss : List Share)
      → IsKey pair_of ss
      → Memᴰ s ss
      → shared_access mailboxes now id user ss ≡ some (share_access s b)
  unfolding shared_access
  shared_access_complete [] pairs k = elim k [ ]
  shared_access_complete (r ∷ ss) pairs k = elim (Bool-cases (open_to now id user r)) [
    | inl opened ↦
        let same : s ≡ r =
          IsKey-eq pair_of (r ∷ ss) s r pairs k (Memᴰ.head refl)
            (open_to-pair_of now id user s o ∙ sym (open_to-pair_of now id user r opened)) in
        let found : select_first (joins r) mailboxes ≡ some b =
          subst (λ x. select_first (joins x) mailboxes ≡ some b) same the_mailbox in
        rw (opened, found) (ap (λ x. some (share_access x b)) (sym same))
    | inr shut ↦ elim (Memᴰ.cases_cons k) [
      | inl e ↦
          absurd (let h : open_to now id user r ≡ true = ap (open_to now id user) (sym e) ∙ o in cc)
      | inr rest ↦ rw shut (shared_access_complete ss pairs.1 rest)
    ]
  ]

-- an id that is not empty and that trimming leaves as it is
abbrev pub IsTrimmed : Text → Type 0
IsTrimmed id = (trim_space id ≡ id) × (is_empty id ≡ false)

-- the keys of the schema, and ids of mailboxes at messages that trimming leaves as they are
pub record IsWellFormed (db : Db) : Type 0 where
  pub mailbox_ids : IsKey (λ (b : Mailbox). b.id) db.mailboxes
  pub pairs : IsKey pair_of db.shares
  pub message_ids : IsKey (λ (m : Message). m.id) db.messages
  pub placed :
      All (λ (m : Message). (id : Text) → m.mailbox_id ≡ some id → IsTrimmed id) db.messages

current_user-owned :
    (db : Db) (user id : Text)
    → IsTrimmed id
    → mailbox_for_current_user db user id ≡ select_first (own_mailbox id user) db.mailboxes
unfolding mailbox_for_current_user
current_user-owned db user id (t, e) = rw (t, e) refl

with_id-cases :
    (now : ℕ) (user id : Text) (db : Db)
    → IsTrimmed id
    → mailbox_read_access_with_id now user id db
      ≡ owner_or
          (select_first (own_mailbox id user) db.mailboxes)
          (recorded now user (shared_access db.mailboxes now id user db.shares) db)
          db
unfolding mailbox_read_access_with_id
with_id-cases now user id db (t, e) = rw (t, e, current_user-owned db user id (t, e)) refl

HasRow-HasAccess :
    (now : ℕ) (user id : Text) (db : Db) (a : ReadAccess)
    → HasRow db.mailboxes now id user db.shares a
    → HasAccess db now user id a
unfolding HasRow
HasRow-HasAccess now user id db a (s, b, m, n, o, j, e) =
    let (at, to, alive) = (open_to_iff now id user s).0 o in
    let (joined, owner, up, domain_up) = (joins_iff s b).0 j in
    shared s b m n (joined ∙ at) at to owner alive up domain_up e

-- an access that is given is one that the user has
pub with_id-HasAccess :
    (now : ℕ) (user id : Text) (db : Db) (a : ReadAccess)
    → IsTrimmed id
    → (mailbox_read_access_with_id now user id db).0 ≡ some a
    → HasAccess db now user id a
unfolding HasRow
with_id-HasAccess now user id db a t e =
    elim (Option-cases (select_first (own_mailbox id user) db.mailboxes)) [
      | inr (b, mine) ↦
          let same : some (owner_access b) ≡ some a =
            rw (with_id-cases now user id db t, mine) at e in
          let (m, h) = Memᴰ-select_first (own_mailbox id user) db.mailboxes b mine in
          let (f, g, k) = (own_mailbox_iff id user b).0 h in owned b m f g k (sym (cc same))
      | inl not_mine ↦ elim (Option-cases (shared_access db.mailboxes now id user db.shares)) [
        | inl nothing ↦ absurd (
            let k : ◌≡◌ {A = Option ReadAccess} none (some a) =
              rw (with_id-cases now user id db t, not_mine, nothing) at e in
            cc)
        | inr (c, found) ↦
            let same : some c ≡ some a =
              rw (with_id-cases now user id db t, not_mine, found) at e in
            HasRow-HasAccess now user id db a
              (shared_access-HasRow db.mailboxes now id user db.shares a (found ∙ same))
      ]
    ]

-- an access that a user has is given, unless the mailbox is the user's own
pub HasAccess-with_id :
    (now : ℕ) (user id : Text) (db : Db) (a : ReadAccess)
    → IsTrimmed id
    → IsWellFormed db
    → HasAccess db now user id a
    → (c : ReadAccess) × ((mailbox_read_access_with_id now user id db).0 ≡ some c)
      × ((c ≡ a) ⊎ (c.owner ≡ true))
HasAccess-with_id now user id db a t w h =
    elim (Option-cases (select_first (own_mailbox id user) db.mailboxes)) [
      | inr (b, mine) ↦ (owner_access b, rw (with_id-cases now user id db t, mine) refl, inr refl)
      | inl not_mine ↦ elim h [
        | owned b m e f g i ↦ absurd (
            let k : ◌≡◌ {A = Option Mailbox} none (some b) =
              sym not_mine
              ∙ select_first-only (own_mailbox id user) db.mailboxes b m
                  ((own_mailbox_iff id user b).1 (e, f, g))
                  (λ c n o.
                    IsKey-eq (λ (d : Mailbox). d.id) db.mailboxes c b w.mailbox_ids n m
                      (((own_mailbox_iff id user c).0 o).0 ∙ sym e)) in
            cc)
        | shared s b m n e f g k l p q i ↦
            let found =
              shared_access_complete db.mailboxes now id user w.mailbox_ids s b n
                ((open_to_iff now id user s).1 (f, g, l)) ((joins_iff s b).1 (e ∙ sym f, k, p, q))
                db.shares w.pairs m in
            (
              share_access s b,
              rw (with_id-cases now user id db t, not_mine, found) refl,
              inl (sym i),
            )
      ]
    ]
