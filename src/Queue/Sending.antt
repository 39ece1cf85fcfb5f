-- ===== src/Queue/Sending.antt =====
-- What a claim hands out, and what one run of the worker makes of an item.
use lan_qin_email.Prelude.{
  ℕ, ◌≡◌, ◌∙◌, ap, true, false, ◌&&◌, Option, none, some, [], ◌∷◌, ◌++◌, arith, if◌then◌else◌,
  and_true,
}
use lan_qin_email.Prelude.Text.{Text, codes, text_eq, text_eq_refl}
use lan_qin_email.Std.{Std}
use lan_qin_email.Queue.{
  Status, failed, delivered, audit_delivered, audit_failed, audit_retry, AuditEvent, SendAuditInput,
  Row, Store, Env, new_id, update_where, by_id, ok, no_rows, record_send_audit,
}
use lan_qin_email.Queue.Table.{
  IsAt, IsAt-update, IsAt-by_id, select-IsAt, affected-IsAt, affected-IsAt_false,
}
use lan_qin_email.Queue.Worker.{
  Item, item_of, send_audit_input_from_queue, exhausted, next_attempt, claimable, claim_row, holds,
  deliver_row, fail_row, load_item, claim_send_queue_item, mark_send_queue_delivered,
  mark_send_queue_failed, settle, after_claim, process_send_queue_item, write_delivered_marker,
  delete_delivered_marker,
}
use lan_qin_email.Queue.Held.{
  claim_row-id, deliver_row-id, fail_row-id, rows-deliver, rows-fail, rows-write_marker,
}

-- A failed item whose attempts are used up is never claimed again, at no time.
pub exhausted_unclaimable :
    (now next t : ℕ) (error id : Text) (item : Item) (r : Row)
    → exhausted item ≡ true
    → item.attempt_count ≡ r.attempt_count
    → item.max_attempts ≡ r.max_attempts
    → claimable t id (fail_row now next error r) ≡ false
unfolding claimable fail_row
exhausted_unclaimable now next t error id item r spent a m = ground arith

-- the table behind a claim
abbrev pub claimed_store : Env → Text → Store → Store
claimed_store e id s = record s { rows = update_where (claimable e.now id) (claim_row e) s.rows }

-- the item that the claim hands out
abbrev pub handed : Env → Row → Text → Item
handed e r mime = item_of (claim_row e r) mime

module _ (std : Std) (e : Env) (id : Text) (r : Row) (s : Store) (at_id : IsAt id r s.rows) where
  narrow : (x : Row) → claimable e.now id x ≡ true → by_id id x ≡ true
  unfolding claimable
  narrow x h = ground arith

  -- A row that may not be claimed is not handed out, and nothing changes.
  pub claim_refused :
      e.io 0 ≡ true → claimable e.now id r ≡ false → claim_send_queue_item std e id s ≡ (no_rows, s)
  unfolding claim_send_queue_item
  claim_refused made out =
      rw (made, affected-IsAt_false (claimable e.now id) id s.rows out narrow at_id.only)

  claimed-IsAt : claimable e.now id r ≡ true → IsAt id (claim_row e r) (claimed_store e id s).rows
  claimed-IsAt may =
      rw may at (IsAt-update (claimable e.now id) (claim_row e) (claim_row-id e) id s.rows at_id)

  selects :
      (x : Row)
      → (by_id id x && text_eq x.lease_token (new_id (codes "lease") e.random)) ≡ true
      → by_id id x ≡ true
  selects x h = (and_true (by_id id x) _ h).0

  fresh_token :
      (by_id id (claim_row e r)
        && text_eq (claim_row e r).lease_token (new_id (codes "lease") e.random))
      ≡ true
  unfolding claim_row
  fresh_token =
      ground (arith, text_eq_refl (new_id (codes "lease") e.random), IsAt-by_id id s.rows at_id)

  load-claimed :
      (mime : Text)
      → std.base64_decode r.mime_base64 ≡ some mime
      → load_item std (some (claim_row e r)) ≡ ok (item_of (claim_row e r) mime)
  unfolding load_item claim_row
  load-claimed mime decoded = rw (decoded, load_item)

  -- the result of a claim that is granted
  pub claim_result :
      (mime : Text)
      → e.io 0 ≡ true
      → e.io 1 ≡ true
      → claimable e.now id r ≡ true
      → std.base64_decode r.mime_base64 ≡ some mime
      → (claim_send_queue_item std e id s
          ≡ (ok (item_of (claim_row e r) mime), claimed_store e id s))
        × IsAt id (claim_row e r) (claimed_store e id s).rows
  unfolding claim_send_queue_item
  claim_result mime made read may decoded = (
    rw (
      made,
      affected-IsAt (claimable e.now id) id s.rows may at_id,
      read,
      select-IsAt _ id (claimed_store e id s).rows fresh_token selects (claimed-IsAt may),
      load-claimed mime decoded,
    ),
    claimed-IsAt may,
  )

sends-audit :
    (std : Std) (e : Env) (v : AuditEvent) (st : Status) (x : SendAuditInput) (s : Store)
    → (record_send_audit std e v st x s).sends ≡ s.sends
unfolding record_send_audit
sends-audit std e v st x s = ground arith

sends-delete_marker :
    (e : Env) (n : ℕ) (id : Text) (s : Store) → (delete_delivered_marker e n id s).sends ≡ s.sends
unfolding delete_delivered_marker
sends-delete_marker e n id s = ground arith

sends-write_marker :
    (e : Env) (id : Text) (s : Store) → (write_delivered_marker e id s).sends ≡ s.sends
unfolding write_delivered_marker
sends-write_marker e id s = ground arith

module _ (std : Std) where
  sends-deliver :
      (e : Env) (item : Item) (s : Store)
      → (mark_send_queue_delivered std e 0 item s).1.sends ≡ s.sends
  unfolding mark_send_queue_delivered
  sends-deliver e item s =
      let t : Store = record s {
        rows = update_where (holds item.id item.lease_token) (deliver_row e.now) s.rows;
      } in
      ground (
        arith,
        sends-audit std e audit_delivered delivered (send_audit_input_from_queue item [])
            (delete_delivered_marker e 1 item.id t),
        sends-delete_marker e 1 item.id t,
      )

  sends-fail :
      (e : Env) (item : Item) (error : Text) (s : Store)
      → (mark_send_queue_failed std e item error s).sends ≡ s.sends
  unfolding mark_send_queue_failed
  sends-fail e item error s =
      let f = fail_row e.now (next_attempt e.now item) error in
      let t : Store = record s { rows = update_where (holds item.id item.lease_token) f s.rows } in
      let event = if exhausted item then audit_failed else audit_retry in
      ground (arith, sends-audit std e event failed (send_audit_input_from_queue item error) t)

-- the worker holds an item of a row
abbrev IsItemOf : Item → Row → Type 0
IsItemOf item r = holds item.id item.lease_token r ≡ true

module _ (std : Std) (e₁ e₂ : Env) (item : Item) (id : Text) (r : Row) (s : Store)
    (at_id : IsAt id r s.rows) (held : IsItemOf item r) where
  -- An item that was sent is settled as delivered, and noted once among the sent items, whether or
  -- not its marker file could be written.
  pub settle_sent :
      e₂.io 0 ≡ true
      → IsAt id (deliver_row e₂.now r) (settle std e₁ e₂ item none s).rows
        × ((settle std e₁ e₂ item none s).sends ≡ s.sends ++ item.id ∷ [])
  unfolding settle
  settle_sent made = (
    rw (rows-deliver std e₂ 0 item t, made, rows-write_marker e₁ item.id u)
        (rw held at (
          IsAt-update (holds item.id item.lease_token) (deliver_row e₂.now) (deliver_row-id e₂.now)
            id s.rows at_id)),
    sends-deliver std e₂ item t ∙ sends-write_marker e₁ item.id u,
  )
    where
      u : Store
      u = record s { sends = s.sends ++ item.id ∷ [] }

      t : Store
      t = write_delivered_marker e₁ item.id u

  -- An item that was refused is settled as failed, with its next attempt at the time that
  -- `next_attempt` gives, and is not among the sent items.
  pub settle_refused :
      (error : Text)
      → e₁.io 0 ≡ true
      → IsAt id
          (fail_row e₁.now (next_attempt e₁.now item) error r)
          (settle std e₁ e₂ item (some error) s).rows
        × ((settle std e₁ e₂ item (some error) s).sends ≡ s.sends)
  unfolding settle
  settle_refused error made = (
    rw (rows-fail std e₁ item error s, made)
        (rw held at (
          IsAt-update (holds item.id item.lease_token)
            (fail_row e₁.now (next_attempt e₁.now item) error)
            (fail_row-id e₁.now (next_attempt e₁.now item) error) id s.rows at_id)),
    sends-fail std e₁ item error s,
  )

module _ (std : Std) (e₀ e₁ e₂ : Env) (smtp : Item → Option Text) (id : Text) (r : Row) (s : Store)
    (at_id : IsAt id r s.rows) where
  handed-holds :
      (mime : Text)
      → holds (handed e₀ r mime).id (handed e₀ r mime).lease_token (claim_row e₀ r) ≡ true
  unfolding holds claim_row
  handed-holds mime =
      ground (arith, text_eq_refl r.id, text_eq_refl (new_id (codes "lease") e₀.random))

  -- Nothing is sent for a row that may not be claimed, and nothing changes.
  pub process_refused :
      e₀.io 0 ≡ true
      → claimable e₀.now id r ≡ false
      → process_send_queue_item std e₀ e₁ e₂ smtp id s ≡ s
  unfolding process_send_queue_item after_claim
  process_refused made out =
      ap (after_claim std e₁ e₂ smtp) (claim_refused std e₀ id r s at_id made out)

  -- the row and the sent items behind a run of the worker, by the answer of the mail server
  pub process_rows :
      (mime : Text)
      → e₀.io 0 ≡ true
      → e₀.io 1 ≡ true
      → e₁.io 0 ≡ true
      → e₂.io 0 ≡ true
      → claimable e₀.now id r ≡ true
      → std.base64_decode r.mime_base64 ≡ some mime
      → let t = process_send_queue_item std e₀ e₁ e₂ smtp id s in
        (smtp (handed e₀ r mime) ≡ none
          → IsAt id (deliver_row e₂.now (claim_row e₀ r)) t.rows × (t.sends ≡ s.sends ++ r.id ∷ []))
        × ((error : Text)
            → smtp (handed e₀ r mime) ≡ some error
            → IsAt id
                (fail_row e₁.now (next_attempt e₁.now (handed e₀ r mime)) error (claim_row e₀ r))
                t.rows
              × (t.sends ≡ s.sends))
  unfolding process_send_queue_item after_claim claim_row
  process_rows mime made read made₁ made₂ may decoded =
      let (result, at_claimed) = claim_result std e₀ id r s at_id mime made read may decoded in
      let t = claimed_store e₀ id s in
      let sent =
        settle_sent std e₁ e₂ (handed e₀ r mime) id (claim_row e₀ r) t at_claimed
          (handed-holds mime) made₂ in
      let refused =
        settle_refused std e₁ e₂ (handed e₀ r mime) id (claim_row e₀ r) t at_claimed
          (handed-holds mime) in
      rw result (λ accepts. rw accepts sent, λ error rejects. rw rejects (refused error made₁))
