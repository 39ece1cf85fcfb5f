-- ===== src/Sharing/Owner.antt =====
-- Sequences of the handlers that write shares: who can give access to a mailbox.
use lan_qin_email.Prelude.{
  some, none, ℕ, ◌≡◌, ◌≢◌, refl, sym, ap, ◌∙◌, subst, Bool, true, false, List, [], ◌∷◌, ◌++◌, inl,
  inr, any, All, Bool-cases,
}
use lan_qin_email.Prelude.Text.{Text, text_eq_iff, trim_space}
use lan_qin_email.Prelude.Rows.{update_rows}
use lan_qin_email.Prelude.Members.{
  IsKey, IsKey-eq, IsKey-update_rows, IsKey-add, Memᴰ-update_rows, Memᴰ-any, All-Memᴰ, All-of_Memᴰ,
}
use mathlib.Core.List.{Memᴰ}
use mathlib.Core.List.Memᴰ
use lan_qin_email.Std.{Std}
use lan_qin_email.Sharing.Alive.{IsOpen}
use lan_qin_email.Sharing.{Db, Mailbox, Share, is_null, mailbox_share_status, was_over}
use lan_qin_email.Sharing.Requests.{TimeLib, ShareRequest}
use lan_qin_email.Sharing.Create.{share_is, new_share, create_mailbox_share}
use lan_qin_email.Sharing.Edit.{
  updatable, update_mailbox_share, revocable, revoke_row, delete_mailbox_share, leavable, leave_row,
  leave_mailbox_share,
}
use lan_qin_email.Sharing.Access.{ReadAccess}
use lan_qin_email.Sharing.Reading.{HasAccess, owned, shared}
use lan_qin_email.Sharing.Outcomes.{wrote, Owns, update_mailbox_share-Outcome}
use lan_qin_email.Sharing.Versions.{updatable_iff}
use lan_qin_email.Sharing.Writes.{
  changed, added, reopened, create_mailbox_share-Outcome, delete_mailbox_share-Outcome,
  leave_mailbox_share-Outcome,
}

-- a call of a handler by a user at an instant
pub data Action : Type 0 where
  create : (id user : Text) (now : ℕ) (raw_mailbox raw_target : Text) (req : ShareRequest) → Action
  update : (user : Text) (now : ℕ) (raw_id : Text) (req : ShareRequest) → Action
  revoke leave : (user : Text) (now : ℕ) (raw_id : Text) → Action

abbrev pub actor : Action → Text
actor (create id user now raw_mailbox raw_target req) = user
actor (update user now raw_id req) = user
actor (revoke user now raw_id) = user
actor (leave user now raw_id) = user

abbrev pub perform : Std → TimeLib → Action → Db → Db
perform std time (create id user now raw_mailbox raw_target req) db =
    (create_mailbox_share std time id user now raw_mailbox raw_target req db).1
perform std time (update user now raw_id req) db =
    (update_mailbox_share std time user now raw_id req db).1
perform std time (revoke user now raw_id) db = (delete_mailbox_share user now raw_id db).1
perform std time (leave user now raw_id) db = (leave_mailbox_share user now raw_id db).1

abbrev pub perform_all : Std → TimeLib → List Action → Db → Db
perform_all std time [] db = db
perform_all std time (act ∷ acts) db = perform_all std time acts (perform std time act db)

-- no mailbox of the id is the user's
abbrev pub IsForeign : Text → List Mailbox → Text → Type 0
IsForeign id bs user = All (λ (b : Mailbox). b.id ≡ id → b.user_id ≢ user) bs

-- what a step leaves: the mailboxes, the uniqueness of ids, and no new open share of the mailbox
record IsHarmless (id : Text) (db db' : Db) : Type 0 where
  mailboxes : db'.mailboxes ≡ db.mailboxes
  keys : IsKey (λ (s : Share). s.id) db'.shares
  live :
      (s : Share) (now : ℕ)
      → Memᴰ s db'.shares
      → s.mailbox_id ≡ id
      → IsOpen now s
      → Memᴰ s db.shares

foreign-Owns :
    {id user : Text} (db : Db) {b : Mailbox}
    → IsForeign id db.mailboxes user
    → Owns db user b
    → b.id ≢ id
foreign-Owns db {b = b} f (m, o) e = All-Memᴰ _ db.mailboxes b f m e o

pub revoke_row-over :
    (now at : ℕ) (s : Share) → was_over (mailbox_share_status (revoke_row at s) now) ≡ true
unfolding mailbox_share_status
revoke_row-over now at s = refl

pub leave_row-over :
    (now at : ℕ) (s : Share) → was_over (mailbox_share_status (leave_row at s) now) ≡ true
unfolding mailbox_share_status
leave_row-over now at s = elim (Bool-cases (is_null s.revoked_at)) [
  | inl kept ↦ rw kept refl
  | inr gone ↦ rw gone refl
]

revoke_row-closed : (now at : ℕ) (s : Share) → ¬ IsOpen now (revoke_row at s)
revoke_row-closed now at s o = let k : some at ≡ none = o.kept in absurd (cc)

leave_row-closed : (now at : ℕ) (s : Share) → ¬ IsOpen now (leave_row at s)
leave_row-closed now at s o = let k : some at ≡ none = o.stayed in absurd (cc)

IsHarmless-same :
    {id : Text} {db db' : Db}
    → IsKey (λ (s : Share). s.id) db.shares
    → db' ≡ db
    → IsHarmless id db db'
IsHarmless-same {id} {db} {db'} keys e =
    subst (IsHarmless id db) (sym e)
      (record { mailboxes = refl; keys = keys; live = λ s now m at l. m })

-- rows that an update changes are over, or of another mailbox
IsHarmless-update :
    {id : Text} {db db' : Db} (p : Share → Bool) (f : Share → Share)
    → IsKey (λ (s : Share). s.id) db.shares
    → ((s : Share) → (f s).id ≡ s.id)
    → ((s : Share) (now : ℕ)
        → Memᴰ s db.shares
        → p s ≡ true
        → (f s).mailbox_id ≡ id
        → ¬ IsOpen now (f s))
    → db'.shares ≡ update_rows p f db.shares
    → db'.mailboxes ≡ db.mailboxes
    → IsHarmless id db db'
IsHarmless-update {id} {db} p f keys ids over rows same = record {
  mailboxes = same;
  keys =
      subst (IsKey (λ (s : Share). s.id)) (sym rows)
        (IsKey-update_rows (λ (s : Share). s.id) p f ids db.shares keys);
  live = λ s now m at l. elim (Memᴰ-update_rows p f db.shares s (subst (Memᴰ s) rows m)) [
    | inl old ↦ old
    | inr (x, n, hit, e) ↦
        absurd (
          over x now n hit (ap (λ (z : Share). z.mailbox_id) (sym e) ∙ at) (subst (IsOpen now) e l))
  ];
}

-- a row that is added is of another mailbox
IsHarmless-added :
    {id : Text} {db db' : Db} (r : Share)
    → IsKey (λ (s : Share). s.id) db.shares
    → any (share_is r.id) db.shares ≡ false
    → r.mailbox_id ≢ id
    → db'.shares ≡ db.shares ++ r ∷ []
    → db'.mailboxes ≡ db.mailboxes
    → IsHarmless id db db'
IsHarmless-added {id} {db} r keys free other rows same = record {
  mailboxes = same;
  keys = subst (IsKey (λ (s : Share). s.id)) (sym rows) (
      IsKey-add (λ (s : Share). s.id) db.shares r keys
        (All-of_Memᴰ _ db.shares (λ x m e.
          let k : ◌≡◌ {A = Bool} true false =
            sym (Memᴰ-any (share_is r.id) db.shares x m ((text_eq_iff x.id r.id).1 e)) ∙ free in
          cc)));
  live = λ s now m at l. elim (Memᴰ.append_cases db.shares (subst (Memᴰ s) rows m)) [
    | inl old ↦ old
    | inr fresh ↦
        absurd (other (ap (λ (z : Share). z.mailbox_id) (sym (Memᴰ.eq_of_singleton fresh)) ∙ at))
  ];
}

IsHarmless-HasAccess :
    {id : Text} {db db' : Db} {now : ℕ} {user : Text} {a : ReadAccess}
    → IsHarmless id db db'
    → HasAccess db' now user id a
    → HasAccess db now user id a
IsHarmless-HasAccess k (owned b m e f g i) = owned b (subst (Memᴰ b) k.mailboxes m) e f g i
IsHarmless-HasAccess {now = now} k (shared s b m n e f g o l p q i) =
    shared s b (k.live s now m f l) (subst (Memᴰ b) k.mailboxes n) e f g o l p q i

module _ (std : Std) (time : TimeLib) (id : Text) where
  perform-IsHarmless :
      (act : Action) (db : Db)
      → IsKey (λ (s : Share). s.id) db.shares
      → IsForeign id db.mailboxes (actor act)
      → IsHarmless id db (perform std time act db)
  perform-IsHarmless (update user now raw_id req) db keys foreign =
      elim (update_mailbox_share-Outcome std time user now raw_id req db) [
        | inl (failed, same) ↦ IsHarmless-same keys same
        | inr (ok, wrote b s attachments expiry own met rows same) ↦
            IsHarmless-update (updatable (trim_space raw_id) user b.id req.version) _ keys
              (λ r. refl)
              (λ r at m hit e. absurd (
                foreign-Owns db foreign own (
                  sym (((updatable_iff (trim_space raw_id) user b.id req.version r).0 hit).2) ∙ e)))
              rows same
      ]
  perform-IsHarmless (revoke user now raw_id) db keys foreign =
      elim (delete_mailbox_share-Outcome user now raw_id db) [
        | inl (failed, same) ↦ IsHarmless-same keys same
        | inr (ok, changed met rows same) ↦
            IsHarmless-update (revocable (trim_space raw_id) user) (revoke_row now) keys (λ r. refl)
              (λ r at m hit e. revoke_row-closed at now r) rows same
      ]
  perform-IsHarmless (leave user now raw_id) db keys foreign =
      elim (leave_mailbox_share-Outcome user now raw_id db) [
        | inl (failed, same) ↦ IsHarmless-same keys same
        | inr (ok, changed met rows same) ↦
            IsHarmless-update (leavable (trim_space raw_id) user) (leave_row now) keys (λ r. refl)
              (λ r at m hit e. leave_row-closed at now r) rows same
      ]
  perform-IsHarmless (create new user now raw_mailbox raw_target req) db keys foreign =
      elim (create_mailbox_share-Outcome std time new user now req db raw_mailbox raw_target) [
        | inl (failed, same) ↦ IsHarmless-same keys same
        | inr (ok, reopened b old s attachments expiry own n at rows same) ↦
            IsHarmless-update (share_is old.id) _ keys (λ r. refl)
              (λ r t m hit e.
                let row =
                  IsKey-eq (λ (z : Share). z.id) db.shares r old keys m n
                    ((text_eq_iff r.id old.id).0 hit) in
                absurd (
                  foreign-Owns db foreign own
                    (sym at ∙ ap (λ (z : Share). z.mailbox_id) (sym row) ∙ e)))
              rows same
        | inr (ok, added b recipient s attachments expiry own free rows same) ↦
            IsHarmless-added (new_share new b.id user recipient now s attachments expiry) keys free
              (foreign-Owns db foreign own) rows same
      ]

  -- No sequence of creations, updates, revocations and departures by users who do not own the mailbox
  -- gives anyone an access to it, or changes one, that the database did not give before: whoever has
  -- an access behind it had the same one. Share ids are unique.
  pub actions-HasAccess :
      (acts : List Action) (db : Db) (now : ℕ) (user : Text) (a : ReadAccess)
      → IsKey (λ (s : Share). s.id) db.shares
      → All (λ act. IsForeign id db.mailboxes (actor act)) acts
      → HasAccess (perform_all std time acts db) now user id a
      → HasAccess db now user id a
  actions-HasAccess [] db now user a keys foreign h = h
  actions-HasAccess (act ∷ acts) db now user a keys (f, fs) h =
      let step = perform-IsHarmless act db keys f in
      let db' = perform std time act db in
      let fs' =
        subst (λ bs. All (λ (c : Action). IsForeign id bs (actor c)) acts) (sym step.mailboxes)
          fs in
      IsHarmless-HasAccess step (actions-HasAccess acts db' now user a step.keys fs' h)
