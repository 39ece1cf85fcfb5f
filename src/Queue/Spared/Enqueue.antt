-- ===== src/Queue/Spared/Enqueue.antt =====
-- What `enqueueSend` does to the other rows of the queue.
use lan_qin_email.Prelude.{
  ℕ, ◌≡◌, refl, sym, ◌∙◌, Bool, true, false, ◌&&◌, not, Option, none, some, List, [], ◌∷◌, arith,
  All, any, Bool-cases, if_keeps, inl, inr,
}
use lan_qin_email.Prelude.Text.{Text, codes, text_eq, text_eq_iff, trim_space, is_empty}
use lan_qin_email.Std.{Std}
use lan_qin_email.Queue.{
  Row, Store, Env, update_where, by_id, Result, select_row, audit_queued, queued, new_id,
}
use lan_qin_email.Queue.Table.{IsAt, KeepsId, IsAt-update_false, IsAt-append, by_id_iff, IsAt-by_id}
use lan_qin_email.Queue.Worker.{delete_delivered_marker}
use lan_qin_email.Queue.Enqueue.{
  SendQueueInput, same_key, clashes, insert_ignore, same_status, finished, new_row, reopen_row,
  reopen, after_insert, enqueue_send, audit_input,
}
use lan_qin_email.Queue.Held.{rows-record_send_audit, rows-delete_marker}

some_eq {ℓ} : {A : Type ℓ} {a b : A} → some a ≡ some b → a ≡ b
some_eq h = cc

-- a row that a `SELECT` returns meets its condition, and is the row with its id
select_row-IsAt :
    (p : Row → Bool) (id : Text) {r : Row} (rows : List Row) (old : Row)
    → select_row p rows ≡ some old
    → All (λ x. by_id id x ≡ true → x ≡ r) rows
    → (p old ≡ true) × (by_id id old ≡ true → old ≡ r)
unfolding select_row
select_row-IsAt p id [] old h only = cc
select_row-IsAt p id (x ∷ rows) old h (hx, hs) = elim (Bool-cases (p x)) [
  | inl met ↦ let e : x ≡ old = some_eq (rw met at h) in rw (← e) (met, hx)
  | inr not_met ↦ select_row-IsAt p id rows old (rw not_met at h) hs
]

any-clashes :
    (row : Row) (rows : List Row) → any (by_id row.id) rows ≡ true → any (clashes row) rows ≡ true
unfolding clashes
any-clashes row [] h = h
any-clashes row (x ∷ rows) h = ground (arith, any-clashes row rows)

insert_ignore-IsAt :
    (row : Row) (id : Text) {r : Row} (rows : List Row)
    → IsAt id r rows
    → IsAt id r (insert_ignore row rows)
unfolding insert_ignore
insert_ignore-IsAt row id rows h = elim (Bool-cases (any (clashes row) rows)) [
  | inl clash ↦ rw clash h
  | inr fits ↦ rw fits (IsAt-append id rows row (other fits) h)
]
  where
    other : any (clashes row) rows ≡ false → by_id id row ≡ false
    other free = elim (Bool-cases (by_id id row)) [
      | inr differs ↦ differs
      | inl same ↦
          let e : row.id ≡ id = by_id_iff id row same in
          let clash = any-clashes row rows (rw e h.there) in cc (free, clash)
    ]

and_false : (a b : Bool) → a ≡ true → (a && b) ≡ false → b ≡ false
and_false a b h k = ground arith

module _ (std : Std) where
  new_row-message_id :
      (e : Env) (now : ℕ) (x : SendQueueInput)
      → (new_row std e now x).message_id ≡ trim_space x.message_id
  unfolding new_row
  new_row-message_id e now x = refl

  reopen_row-id : (now : ℕ) (x : SendQueueInput) → KeepsId (reopen_row std now x)
  unfolding reopen_row
  reopen_row-id now x r = refl

  reopen-IsAt :
      (e : Env) (now : ℕ) (x : SendQueueInput) (old : Row) (s : Store) (id : Text) {r : Row}
      → (by_id old.id r && finished old) ≡ false
      → IsAt id r s.rows
      → IsAt id r (reopen std e now x old s).1.rows
  unfolding reopen
  reopen-IsAt e now x old s id {r} out h =
      let p : Row → Bool = λ z. by_id old.id z && same_status z.status old.status in
      let t : Store = record s { rows = update_where p (reopen_row std now x) s.rows } in
      if_keeps P (finished old)
        (λ done.
          if_keeps P (e.io 2)
            (λ made.
              rw
                (
                  rows-record_send_audit std e audit_queued queued (audit_input old.id x)
                      (delete_delivered_marker e 3 old.id t),
                  rows-delete_marker e 3 old.id t,
                )
                (IsAt-update_false p (reopen_row std now x) id s.rows (reopen_row-id now x)
                  (spared (by_id old.id r) (finished old) _ out done) h))
            (λ broken. h))
        (λ open_still. h)
    where
      P : Result Text × Store → Type 0
      P m = IsAt id r m.1.rows

      spared : (a b c : Bool) → (a && b) ≡ false → b ≡ true → (a && c) ≡ false
      spared a b c h k = ground arith

  after_insert-IsAt :
      (e : Env) (now : ℕ) (x : SendQueueInput) (found : Option Row) (s : Store) (id : Text)
      {r : Row}
      → ((old : Row) → found ≡ some old → (by_id old.id r && finished old) ≡ false)
      → IsAt id r s.rows
      → IsAt id r (after_insert std e now x found s).1.rows
  unfolding after_insert
  after_insert-IsAt e now x none s id out h = h
  after_insert-IsAt e now x (some old) s id {r} out h =
      let new = new_id (codes "snd") e.random in
      if_keeps (λ (m : Result Text × Store). IsAt id r m.1.rows) (text_eq old.id new)
        (λ inserted. rw (rows-record_send_audit std e audit_queued queued (audit_input new x) s) h)
        (λ earlier. reopen-IsAt e now x old s id (out old refl) h)

  pub enqueue-IsAt :
      (e : Env) (x : SendQueueInput) (s : Store) (id : Text) {r : Row}
      → (same_key x.mailbox_id x.source (trim_space x.message_id) r && finished r) ≡ false
      → IsAt id r s.rows
      → IsAt id r (enqueue_send std e x s).1.rows
  unfolding enqueue_send
  enqueue-IsAt e x s id {r} out h =
      if_keeps P (is_empty (trim_space e.smtp_host)) (λ off. h)
        (λ on.
          if_keeps P (not (e.io 0)) (λ broken. h)
            (λ made.
              if_keeps P (is_empty row.message_id)
                (λ unnamed.
                  rw (rows-record_send_audit std e audit_queued queued (audit_input row.id x) t)
                    inserted)
                (λ named.
                  if_keeps P (not (e.io 1)) (λ broken. inserted)
                    (λ read. after_insert-IsAt e now x _ t id spared inserted))))
    where
      P : Result Text × Store → Type 0
      P m = IsAt id r m.1.rows

      now : ℕ
      now = elim x.now [ some t ↦ t | none ↦ e.now ]

      row : Row
      row = new_row std e now x

      t : Store
      t = record s { rows = insert_ignore row s.rows }

      inserted : IsAt id r t.rows
      inserted = insert_ignore-IsAt row id s.rows h

      spared :
          (old : Row)
          → select_row (same_key x.mailbox_id x.source row.message_id) t.rows ≡ some old
          → (by_id old.id r && finished old) ≡ false
      spared old found =
          let (met, same) = select_row-IsAt _ id t.rows old found inserted.only in
          elim (Bool-cases (by_id old.id r)) [
            | inr other ↦ rw other
            | inl one ↦
                let here = sym (by_id_iff old.id r one) ∙ by_id_iff id r (IsAt-by_id id s.rows h) in
                let one_row : old ≡ r = same ((text_eq_iff old.id id).1 here) in
                let key : same_key x.mailbox_id x.source (trim_space x.message_id) r ≡ true =
                  rw (one_row, new_row-message_id e now x) at met in
                rw (one, one_row) (and_false _ _ key out)
          ]
