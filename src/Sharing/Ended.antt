-- ===== src/Sharing/Ended.antt =====
-- Revoking and leaving a share: what is left of it.
use lan_qin_email.Prelude.{
  ℕ, ◌≡◌, sym, ap, ◌∙◌, subst, Bool, true, false, List, arith, inl, inr, All,
}
use lan_qin_email.Prelude.Text.{Text, text_eq_iff, trim_space}
use lan_qin_email.Prelude.Rows.{All-update_rows}
use lan_qin_email.Prelude.Members.{IsKey, IsKey-eq, any-Memᴰ, All-of_Memᴰ}
use lan_qin_email.Sharing.{Db, Share, mailbox_share_status, was_over}
use lan_qin_email.Sharing.Create.{Reply}
use lan_qin_email.Sharing.Edit.{
  revocable, revoke_row, delete_mailbox_share, leavable, leave_row, leave_mailbox_share,
}
use lan_qin_email.Sharing.Outcomes.{is_done, Outcome}
use lan_qin_email.Sharing.Writes.{
  IsChange, changed, delete_mailbox_share-Outcome, leave_mailbox_share-Outcome,
}
use lan_qin_email.Sharing.Owner.{revoke_row-over, leave_row-over}

-- the shares of an id are over, at every instant
abbrev pub IsEnded : Text → List Share → Type 0
IsEnded id =
    All (λ (s : Share). (now : ℕ) → s.id ≡ id → was_over (mailbox_share_status s now) ≡ true)

changed-IsEnded :
    (id : Text) (p : Share → Bool) (f : Share → Share) (db db' : Db)
    → IsKey (λ (s : Share). s.id) db.shares
    → ((s : Share) → p s ≡ true → s.id ≡ id)
    → ((s : Share) (now : ℕ) → was_over (mailbox_share_status (f s) now) ≡ true)
    → IsChange p f db db'
    → IsEnded id db'.shares
changed-IsEnded id p f db db' keys at over (changed met rows same) =
    let (r, m, hit) = any-Memᴰ p db.shares met in
    subst (IsEnded id) (sym rows) (
      All-update_rows _ p f db.shares (
        All-of_Memᴰ _ db.shares (λ x n. (
          λ miss now e. absurd (
              let row =
                IsKey-eq (λ (z : Share). z.id) db.shares x r keys n m (e ∙ sym (at r hit)) in
              let k : ◌≡◌ {A = Bool} true false = sym hit ∙ ap p (sym row) ∙ miss in cc),
          λ hit' now e. over x now,
        ))))

revocable-id : (id user : Text) (s : Share) → revocable id user s ≡ true → s.id ≡ id
revocable-id id user s h = ground (arith, text_eq_iff s.id id)

leavable-id : (id user : Text) (s : Share) → leavable id user s ≡ true → s.id ≡ id
leavable-id id user s h = ground (arith, text_eq_iff s.id id)

done-IsEnded :
    (id : Text) (p : Share → Bool) (f : Share → Share) (db : Db) (r : Reply × Db)
    → IsKey (λ (s : Share). s.id) db.shares
    → ((s : Share) → p s ≡ true → s.id ≡ id)
    → ((s : Share) (now : ℕ) → was_over (mailbox_share_status (f s) now) ≡ true)
    → Outcome (IsChange p f db) db r
    → is_done r.0 ≡ true
    → IsEnded id r.1.shares
done-IsEnded id p f db r keys at over (inl (failed, same)) h =
    absurd (let k : ◌≡◌ {A = Bool} true false = sym h ∙ failed in cc)
done-IsEnded id p f db r keys at over (inr (ok, c)) h = changed-IsEnded id p f db r.1 keys at over c

-- Behind a revocation that succeeds, and behind a departure that succeeds, the share is over at every
-- instant. Share ids are unique.
pub revoke_leave-IsEnded :
    (user : Text) (now : ℕ) (raw_id : Text) (db : Db)
    → IsKey (λ (s : Share). s.id) db.shares
    → (is_done (delete_mailbox_share user now raw_id db).0 ≡ true
        → IsEnded (trim_space raw_id) (delete_mailbox_share user now raw_id db).1.shares)
      × (is_done (leave_mailbox_share user now raw_id db).0 ≡ true
          → IsEnded (trim_space raw_id) (leave_mailbox_share user now raw_id db).1.shares)
revoke_leave-IsEnded user now raw_id db keys =
    let id = trim_space raw_id in
    (
      done-IsEnded id (revocable id user) (revoke_row now) db
          (delete_mailbox_share user now raw_id db) keys (revocable-id id user)
          (λ s at. revoke_row-over at now s) (delete_mailbox_share-Outcome user now raw_id db),
      done-IsEnded id (leavable id user) (leave_row now) db (leave_mailbox_share user now raw_id db)
          keys (leavable-id id user) (λ s at. leave_row-over at now s)
          (leave_mailbox_share-Outcome user now raw_id db),
    )
