-- ===== src/Queue/Held.antt =====
-- A row under a lease: who can change it, and who cannot.
use lan_qin_email.Prelude.{
  ℕ, suc, ◌+◌, ◌≡◌, refl, ap, sym, ◌∙◌, Bool, true, false, List, [], ◌∷◌, arith, if◌then◌else◌, All,
  All-take, take, Bool-cases, inl, inr,
}
use lan_qin_email.Prelude.Text.{Text, codes, text_eq_iff}
use lan_qin_email.Std.{Std}
use lan_qin_email.Queue.{
  Status, delivered, queued, failed, audit_delivered, audit_failed, audit_retry, Row, Store, Env,
  update_where, by_id, Result, ok, no_rows, failure, AuditEvent, SendAuditInput, record_send_audit,
}
use lan_qin_email.Queue.Table.{
  IsAt, KeepsId, IsAt-update_false, by_id_iff, IsAt-by_id, update_where-none,
}
use lan_qin_email.Queue.Worker.{
  Item, next_attempt, exhausted, send_audit_input_from_queue, holds, stale, claimable, claim_row,
  deliver_row, fail_row, requeue_row, claim_send_queue_item, mark_send_queue_delivered,
  mark_send_queue_failed, write_delivered_marker, delete_delivered_marker, scan_stale, select_where,
  scan_row, append_item, requeue_item, and_then, has_delivered_marker, recover_item, recover_items,
  recover_stale_send_queue_items,
}

module _ (std : Std) where
  -- audits and marker files leave the table alone
  pub rows-record_send_audit :
      (e : Env) (v : AuditEvent) (st : Status) (x : SendAuditInput) (s : Store)
      → (record_send_audit std e v st x s).rows ≡ s.rows
  unfolding record_send_audit
  rows-record_send_audit e v st x s = ground arith

pub rows-delete_marker :
    (e : Env) (n : ℕ) (id : Text) (s : Store) → (delete_delivered_marker e n id s).rows ≡ s.rows
unfolding delete_delivered_marker
rows-delete_marker e n id s = ground arith

pub rows-write_marker :
    (e : Env) (id : Text) (s : Store) → (write_delivered_marker e id s).rows ≡ s.rows
unfolding write_delivered_marker
rows-write_marker e id s = ground arith

-- no item in the list has this row's lease
abbrev pub Spare : Row → List Item → Type 0
Spare r = All (λ item. holds item.id item.lease_token r ≡ false)

-- no statement changes the primary key
pub claim_row-id : (e : Env) → KeepsId (claim_row e)
unfolding claim_row
claim_row-id e r = refl

pub deliver_row-id : (now : ℕ) → KeepsId (deliver_row now)
unfolding deliver_row
deliver_row-id now r = refl

pub fail_row-id : (now next : ℕ) (error : Text) → KeepsId (fail_row now next error)
unfolding fail_row
fail_row-id now next error r = refl

pub requeue_row-id : (now : ℕ) → KeepsId (requeue_row now)
unfolding requeue_row
requeue_row-id now r = refl

pub and_then-keeps {ℓ} :
    (P : Store → Type ℓ) (m : Result (Unit {0}) × Store) (k : Store → Result (Unit {0}) × Store)
    → P m.1
    → ((s : Store) → P s → P (k s).1)
    → P (and_then m k).1
unfolding and_then
and_then-keeps P (ok _, s) k h next = next s h
and_then-keeps P (no_rows, s) k h next = h
and_then-keeps P (failure, s) k h next = h

module _ (std : Std) where
  -- the table after each operation of the worker: an `UPDATE`, or nothing if a call fails
  pub rows-claim :
      (e : Env) (id : Text) (s : Store)
      → (claim_send_queue_item std e id s).1.rows
        ≡ (if e.io 0 then update_where (claimable e.now id) (claim_row e) s.rows else s.rows)
  unfolding claim_send_queue_item
  rows-claim e id s = ground (arith, update_where-none (claimable e.now id) (claim_row e) s.rows)

  pub rows-deliver :
      (e : Env) (n : ℕ) (item : Item) (s : Store)
      → (mark_send_queue_delivered std e n item s).1.rows ≡ (
          if e.io n
          then update_where (holds item.id item.lease_token) (deliver_row e.now) s.rows
          else s.rows)
  unfolding mark_send_queue_delivered
  rows-deliver e n item s =
      let held = holds item.id item.lease_token in
      let t : Store = record s { rows = update_where held (deliver_row e.now) s.rows } in
      ground (
        arith,
        update_where-none held (deliver_row e.now) s.rows,
        rows-record_send_audit std e audit_delivered delivered (send_audit_input_from_queue item [])
            (delete_delivered_marker e (n + 1) item.id t),
        rows-delete_marker e (n + 1) item.id t,
      )

  pub rows-fail :
      (e : Env) (item : Item) (error : Text) (s : Store)
      → (mark_send_queue_failed std e item error s).rows ≡ (
          if e.io 0
          then update_where
              (holds item.id item.lease_token)
              (fail_row e.now (next_attempt e.now item) error)
              s.rows
          else s.rows)
  unfolding mark_send_queue_failed
  rows-fail e item error s =
      let held = holds item.id item.lease_token in
      let f = fail_row e.now (next_attempt e.now item) error in
      let t : Store = record s { rows = update_where held f s.rows } in
      let event = if exhausted item then audit_failed else audit_retry in
      ground (
        arith,
        update_where-none held f s.rows,
        rows-record_send_audit std e event failed (send_audit_input_from_queue item error) t,
      )

  pub rows-requeue :
      (e : Env) (item : Item) (s : Store)
      → (requeue_item std e item s).rows
        ≡ update_where (holds item.id item.lease_token) (requeue_row e.now) s.rows
  unfolding requeue_item
  rows-requeue e item s =
      let held = holds item.id item.lease_token in
      let t : Store = record s { rows = update_where held (requeue_row e.now) s.rows } in
      ground (
        arith,
        update_where-none held (requeue_row e.now) s.rows,
        rows-record_send_audit std e audit_retry queued
            (send_audit_input_from_queue item (codes "send attempt interrupted")) t,
      )

  -- an `UPDATE` that may not be made at all
  pub IsAt-maybe_update :
      (b : Bool) (p : Row → Bool) (f : Row → Row) (id : Text) {r : Row} (rows : List Row)
      → KeepsId f
      → p r ≡ false
      → IsAt id r rows
      → IsAt id r (if b then update_where p f rows else rows)
  IsAt-maybe_update true p f id rows keeps out h = IsAt-update_false p f id rows keeps out h
  IsAt-maybe_update false p f id rows keeps out h = h

  recover_item-IsAt :
      (e : Env) (n : ℕ) (item : Item) (s : Store) (id : Text) {r : Row}
      → holds item.id item.lease_token r ≡ false
      → IsAt id r s.rows
      → IsAt id r (recover_item std e n item s).1.rows
  unfolding recover_item
  recover_item-IsAt e n item s id {r} out h =
      elim (has_delivered_marker e n item.id s)
        as (λ m.
          IsAt id r
            (elim m as (λ _. Result (Unit {0}) × Store) [
              | ok true ↦ mark_send_queue_delivered std e (n + 1) item s
              | ok false ↦ if e.io (n + 1) then (ok tt, requeue_item std e item s) else (failure, s)
              | no_rows ↦ (no_rows, s)
              | failure ↦ (failure, s)
            ]).1.rows) [
              | ok true ↦ rw (rows-deliver e (n + 1) item s) (
                  IsAt-maybe_update (e.io (n + 1)) (holds item.id item.lease_token)
                    (deliver_row e.now) id s.rows (deliver_row-id e.now) out h)
              | ok false ↦ elim (Bool-cases (e.io (n + 1))) [
                | inl made ↦ rw made (
                    rw (rows-requeue e item s) (
                      IsAt-update_false (holds item.id item.lease_token) (requeue_row e.now) id
                        s.rows (requeue_row-id e.now) out h))
                | inr broken ↦ rw broken h
              ]
              | no_rows ↦ h
              | failure ↦ h
            ]

  recover_items-IsAt :
      (e : Env) (n : ℕ) (items : List Item) (s : Store) (id : Text) {r : Row}
      → Spare r items
      → IsAt id r s.rows
      → IsAt id r (recover_items std e n items s).1.rows
  unfolding recover_items
  recover_items-IsAt e n [] s id free h = h
  recover_items-IsAt e n (item ∷ items) s id {r} (here, free) h =
      and_then-keeps (λ t. IsAt id r t.rows) (recover_item std e n item s)
        (recover_items std e (n + 3) items) (recover_item-IsAt e n item s id here h)
        (λ t ht. recover_items-IsAt e (n + 3) items t id free ht)

other_lease :
    (p : Row → Bool) (id : Text) (r x : Row)
    → p r ≡ false
    → p x ≡ true
    → by_id id r ≡ true
    → (by_id id x ≡ true → x ≡ r)
    → holds x.id x.lease_token r ≡ false
unfolding holds
other_lease p id r x out chosen at_id same = elim (Bool-cases (by_id x.id r)) [
  | inl one ↦
      let e : x.id ≡ id = sym (by_id_iff x.id r one) ∙ by_id_iff id r at_id in
      cc (chosen, out, ap p (same ((text_eq_iff x.id id).1 e)))
  | inr two ↦ rw two
]

-- the rows that a `SELECT` returns do not have the lease of a row that it leaves out
spare_rows :
    (p : Row → Bool) (id : Text) (r : Row) (rows : List Row)
    → p r ≡ false
    → by_id id r ≡ true
    → All (λ x. by_id id x ≡ true → x ≡ r) rows
    → All (λ (x : Row). holds x.id x.lease_token r ≡ false) (select_where p rows)
unfolding select_where
spare_rows p id r [] out at_id only = tt
spare_rows p id r (x ∷ rows) out at_id (hx, hs) = elim (Bool-cases (p x)) [
  | inl chosen ↦
      rw chosen (other_lease p id r x out chosen at_id hx, spare_rows p id r rows out at_id hs)
  | inr left_out ↦ rw left_out (spare_rows p id r rows out at_id hs)
]

ok-injective {ℓ} : {A : Type ℓ} {a b : A} → ok a ≡ ok b → a ≡ b
ok-injective h = cc

module _ (std : Std) where
  scan_row-key :
      (e : Env) (n : ℕ) (s : Store) (x : Row) (i : Item)
      → scan_row std e n s x ≡ ok i
      → (i.id ≡ x.id) × (i.lease_token ≡ x.lease_token)
  unfolding scan_row
  scan_row-key e n s x i h = ground arith

  -- the items scanned from such rows
  Spare-scan_stale :
      (e : Env) (n : ℕ) (s : Store) (r : Row) (rs : List Row) (items : List Item)
      → scan_stale std e n s rs ≡ ok items
      → All (λ (x : Row). holds x.id x.lease_token r ≡ false) rs
      → Spare r items
  unfolding scan_stale append_item
  Spare-scan_stale e n s r [] items h free = rw (← ok-injective h) tt
  Spare-scan_stale e n s r (x ∷ rs) items h (hx, free) =
      go (scan_row std e n s x) (scan_stale std e (suc n) s rs) refl refl h
        (λ rest eq. Spare-scan_stale e (suc n) s r rs rest eq free)
    where
      go :
          (a : Result Item) (b : Result (List Item))
          → scan_row std e n s x ≡ a
          → scan_stale std e (suc n) s rs ≡ b
          → append_item a b ≡ ok items
          → ((rest : List Item) → scan_stale std e (suc n) s rs ≡ ok rest → Spare r rest)
          → Spare r items
      go (ok i) (ok rest) ha hb eq ih =
          let (same_id, same_token) = scan_row-key e n s x i ha in
          rw (← ok-injective eq) (rw (same_id, same_token) hx, ih rest hb)
      go (ok i) no_rows ha hb eq ih = cc
      go (ok i) failure ha hb eq ih = cc
      go no_rows b ha hb eq ih = cc
      go failure b ha hb eq ih = cc

  -- a recovery leaves a row that is not stale alone
  pub recover-IsAt :
      (e : Env) (s : Store) (id : Text) {r : Row}
      → stale e.now r ≡ false
      → IsAt id r s.rows
      → IsAt id r (recover_stale_send_queue_items std e s).1.rows
  unfolding recover_stale_send_queue_items
  recover-IsAt e s id {r} out h = elim (Bool-cases (e.io 0)) [
    | inr broken ↦ rw broken h
    | inl made ↦ rw made (go (scan_stale std e 1 s chosen) refl)
  ]
    where
      chosen : List Row
      chosen = take 20 (select_where (stale e.now) s.rows)

      free : All (λ (x : Row). holds x.id x.lease_token r ≡ false) chosen
      free =
          All-take _ 20 _ (spare_rows (stale e.now) id r s.rows out (IsAt-by_id id s.rows h) h.only)

      go :
          (o : Result (List Item))
          → scan_stale std e 1 s chosen ≡ o
          → IsAt id r
              (elim o as (λ _. Result (Unit {0}) × Store) [
                | ok items ↦ recover_items std e 21 items s
                | no_rows ↦ (no_rows, s)
                | failure ↦ (failure, s)
              ]).1.rows
      go (ok items) eq =
          recover_items-IsAt std e 21 items s id (Spare-scan_stale e 1 s r chosen items eq free) h
      go no_rows eq = h
      go failure eq = h
