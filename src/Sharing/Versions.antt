-- ===== src/Sharing/Versions.antt =====
-- The version of a share as an optimistic lock.
use lan_qin_email.Prelude.{
  ℕ, ◌+◌, ◌≡◌, refl, sym, ap, ◌∙◌, subst, Bool, true, false, List, arith, inl, inr, ◌↔◌, any, All,
  Bool-cases,
}
use lan_qin_email.Prelude.Text.{Text, text_eq_iff, trim_space}
use lan_qin_email.Prelude.Int.{ℤ, pos, negsuc}
use lan_qin_email.Prelude.Rows.{All-update_rows}
use lan_qin_email.Prelude.Members.{IsKey, IsKey-eq, any-Memᴰ, All-of_Memᴰ, All-Memᴰ}
use lan_qin_email.Std.{Std}
use lan_qin_email.Sharing.{Db, Share}
use lan_qin_email.Sharing.Requests.{TimeLib, ShareRequest}
use lan_qin_email.Sharing.Edit.{version_is, updatable, update_row, update_mailbox_share}
use lan_qin_email.Sharing.Outcomes.{is_done, wrote, update_mailbox_share-Outcome}

-- no row with the id has the version
abbrev pub IsStale : Text → ℤ → List Share → Type 0
IsStale id v = All (λ (s : Share). s.id ≡ id → version_is v s.version ≡ false)

version_is-suc : (v : ℤ) (n : ℕ) → version_is v n ≡ true → version_is v (n + 1) ≡ false
version_is-suc (pos k) n h = ground arith
version_is-suc (negsuc k) n h = refl

pub updatable_iff :
    (id owner mailbox : Text) (v : ℤ) (s : Share)
    → (updatable id owner mailbox v s ≡ true) ↔ (
        (s.id ≡ id)
        × (s.owner_user_id ≡ owner)
        × (s.mailbox_id ≡ mailbox)
        × (version_is v s.version ≡ true))
updatable_iff id owner mailbox v s = ground (
  arith,
  text_eq_iff s.id id,
  text_eq_iff s.owner_user_id owner,
  text_eq_iff s.mailbox_id mailbox,
)

stale-not_updatable :
    (id owner mailbox : Text) (v : ℤ) (ss : List Share)
    → IsStale id v ss
    → any (updatable id owner mailbox v) ss ≡ false
stale-not_updatable id owner mailbox v ss h =
    elim (Bool-cases (any (updatable id owner mailbox v) ss)) [
      | inr unmet ↦ unmet
      | inl some_met ↦
          let (s, m, met) = any-Memᴰ (updatable id owner mailbox v) ss some_met in
          let (e, f, g, k) = (updatable_iff id owner mailbox v s).0 met in
          absurd (
            let fresh : version_is v s.version ≡ false =
              All-Memᴰ (λ (r : Share). r.id ≡ id → version_is v r.version ≡ false) ss s h m e in
            cc)
    ]

-- An update with a version that no share of that id has is refused and changes nothing.
pub stale-update :
    (std : Std) (time : TimeLib) (user : Text) (now : ℕ) (raw_id : Text) (req : ShareRequest)
    (db : Db)
    → IsStale (trim_space raw_id) req.version db.shares
    → (is_done (update_mailbox_share std time user now raw_id req db).0 ≡ false)
      × ((update_mailbox_share std time user now raw_id req db).1 ≡ db)
stale-update std time user now raw_id req db h =
    elim (update_mailbox_share-Outcome std time user now raw_id req db) [
      | inl refusal ↦ refusal
      | inr (accepted, wrote b s attachments expiry own met rows same) ↦ absurd (
          let unmet = stale-not_updatable (trim_space raw_id) user b.id req.version db.shares h in
          let k : ◌≡◌ {A = Bool} true false = sym met ∙ unmet in cc)
    ]

update-IsStale :
    (std : Std) (time : TimeLib) (user : Text) (now : ℕ) (raw_id : Text) (req : ShareRequest)
    (db : Db)
    → IsKey (λ (s : Share). s.id) db.shares
    → is_done (update_mailbox_share std time user now raw_id req db).0 ≡ true
    → IsStale
        (trim_space raw_id)
        req.version
        (update_mailbox_share std time user now raw_id req db).1.shares
update-IsStale std time user now raw_id req db keys ok =
    elim (update_mailbox_share-Outcome std time user now raw_id req db) [
      | inl (failed, same) ↦ absurd (let k : ◌≡◌ {A = Bool} true false = sym ok ∙ failed in cc)
      | inr (accepted, wrote b s attachments expiry own met rows same) ↦
          let id = trim_space raw_id in
          let (r, m, hit) = any-Memᴰ (updatable id user b.id req.version) db.shares met in
          subst (IsStale id req.version) (sym rows) (
            All-update_rows _ (updatable id user b.id req.version)
              (update_row now s attachments expiry) db.shares
              (All-of_Memᴰ _ db.shares (λ x n. (
                λ miss e. absurd (
                    let same_row =
                      IsKey-eq (λ (z : Share). z.id) db.shares x r keys n m
                        (e ∙ sym (((updatable_iff id user b.id req.version r).0 hit).0)) in
                    let k : ◌≡◌ {A = Bool} true false =
                      sym hit ∙ ap (updatable id user b.id req.version) (sym same_row) ∙ miss in
                    cc),
                λ hit' e.
                    version_is-suc req.version x.version
                      (((updatable_iff id user b.id req.version x).0 hit').3),
              ))))
    ]

-- Of two updates of a share that carry the same version, at whatever times and by whomever, at most
-- one succeeds: behind one that succeeds the other is refused and changes nothing. Share ids are unique.
pub second-update :
    (std : Std) (time : TimeLib) (user user' : Text) (now now' : ℕ) (raw_id : Text)
    (req req' : ShareRequest) (db : Db)
    → IsKey (λ (s : Share). s.id) db.shares
    → req'.version ≡ req.version
    → is_done (update_mailbox_share std time user now raw_id req db).0 ≡ true
    → let db' = (update_mailbox_share std time user now raw_id req db).1 in
      (is_done (update_mailbox_share std time user' now' raw_id req' db').0 ≡ false)
      × ((update_mailbox_share std time user' now' raw_id req' db').1 ≡ db')
second-update std time user user' now now' raw_id req req' db keys e ok =
    stale-update std time user' now' raw_id req'
      (update_mailbox_share std time user now raw_id req db).1
      (subst
        (λ v.
          IsStale (trim_space raw_id) v
            (update_mailbox_share std time user now raw_id req db).1.shares)
        (sym e) (update-IsStale std time user now raw_id req db keys ok))
