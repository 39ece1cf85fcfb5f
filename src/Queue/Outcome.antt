-- ===== src/Queue/Outcome.antt =====
-- What a claim of the send worker, and a run of it, promise: what every later claim and the recovery
-- make of the row.
use lan_qin_email.Prelude.{
  ℕ, ◌+◌, ◌*◌, ◌≡◌, refl, ap, ◌∙◌, true, false, Bool, ◌&&◌, not, Option, none, some, List, [], ◌∷◌,
  ◌++◌, arith, ltb, leb, if◌then◌else◌,
}
use lan_qin_email.Prelude.Text.{Text, codes, text_eq_refl}
use lan_qin_email.Std.{Std}
use lan_qin_email.Queue.{
  lease_over, minute, hour, failed, delivered, Row, Store, Env, new_id, by_id, ok, no_rows,
}
use lan_qin_email.Queue.Table.{IsAt, IsAt-by_id}
use lan_qin_email.Queue.Worker.{
  Item, item_of, send_retry_delay, exhausted, next_attempt, claimable, claim_row, holds, stale,
  deliver_row, fail_row, claim_send_queue_item, process_send_queue_item,
}
use lan_qin_email.Queue.Sending.{claimed_store, handed, claim_refused, claim_result, process_rows}

-- a claimed row is still held under its token, is stale from the end of its lease on while it has
-- attempts left, and is not claimable
module _ (e : Env) (id : Text) (r : Row) where
  claim_row-holds :
      by_id id r ≡ true → holds id (new_id (codes "lease") e.random) (claim_row e r) ≡ true
  unfolding holds claim_row
  claim_row-holds h = ground (arith, text_eq_refl (new_id (codes "lease") e.random))

  claim_row-stale :
      (t : ℕ)
      → stale t (claim_row e r)
        ≡ (leb (e.now + 15 * minute) t && ltb (r.attempt_count + 1) r.max_attempts)
  unfolding stale claim_row
  claim_row-stale t = refl

  claim_row-not_claimable : (t : ℕ) → claimable t id (claim_row e r) ≡ false
  unfolding claimable claim_row
  claim_row-not_claimable t = ground arith

module _ (std : Std) (e : Env) (id : Text) (r : Row) (s : Store) (at_id : IsAt id r s.rows) where
  -- A row that may be claimed is handed out with its message and a new lease token, when the database
  -- answers and the message can be decoded. Behind that, the row counts one attempt more and is held
  -- under the token, with a lease that is over exactly from fifteen minutes later on; the recovery takes
  -- it back exactly from then on, and only with attempts left; and no other claim of it is granted, at whatever time.
  pub claim_granted :
      (mime : Text) (later : Env) (t : ℕ)
      → e.io 0 ≡ true
      → e.io 1 ≡ true
      → claimable e.now id r ≡ true
      → std.base64_decode r.mime_base64 ≡ some mime
      → later.io 0 ≡ true
      → let s' = (claim_send_queue_item std e id s).1 in
        (x : Row) × ((claim_send_queue_item std e id s).0 ≡ ok (item_of x mime))
        × IsAt id x s'.rows
        × (x.lease_token ≡ new_id (codes "lease") e.random)
        × (x.attempt_count ≡ r.attempt_count + 1)
        × (holds id x.lease_token x ≡ true)
        × (lease_over t x.lease_until ≡ leb (e.now + 15 * minute) t)
        × (stale t x ≡ (leb (e.now + 15 * minute) t && ltb (r.attempt_count + 1) r.max_attempts))
        × (claim_send_queue_item std later id s' ≡ (no_rows, s'))
  unfolding claim_row
  claim_granted mime later t made read may decoded made' =
      let (result, at_claimed) = claim_result std e id r s at_id mime made read may decoded in
      let s' = claimed_store e id s in
      rw result (
        claim_row e r,
        refl,
        at_claimed,
        refl,
        refl,
        claim_row-holds e id r (IsAt-by_id id s.rows at_id),
        refl,
        claim_row-stale e id r t,
        claim_refused std later id (claim_row e r) s' at_claimed made'
            (claim_row-not_claimable e id r later.now),
      )

-- what a run of the worker has made of a row, which it found as `r`, by the answer of the mail server
abbrev pub Outcome : Text → Row → ℕ → ℕ → ℕ → Option Text → List Text → Store → Type 0
Outcome id r failed_at sent_at t none sends s =
    (x : Row) × IsAt id x s.rows
    × (x.status ≡ delivered)
    × (x.delivered_at ≡ some sent_at)
    × (x.attempt_count ≡ r.attempt_count + 1)
    × (claimable t id x ≡ false)
    × (s.sends ≡ sends ++ r.id ∷ [])
Outcome id r failed_at sent_at t (some error) sends s =
    (x : Row) × IsAt id x s.rows
    × (x.status ≡ failed)
    × (x.last_error ≡ error)
    × (x.attempt_count ≡ r.attempt_count + 1)
    × (claimable t id x ≡ (
        ltb (r.attempt_count + 1) r.max_attempts
        && leb (failed_at + send_retry_delay (r.attempt_count + 1)) t))
    × (x.next_attempt_at ≡ (
        if ltb (r.attempt_count + 1) r.max_attempts
        then failed_at + send_retry_delay (r.attempt_count + 1)
        else failed_at + 365 * (24 * hour)))
    × (s.sends ≡ sends)

delivered-not_claimable :
    (t now : ℕ) (id : Text) (r : Row) → claimable t id (deliver_row now r) ≡ false
unfolding claimable deliver_row
delivered-not_claimable t now id r = ground arith

exhausted-ltb :
    (e : Env) (r : Row) (mime : Text)
    → ltb (r.attempt_count + 1) r.max_attempts ≡ not (exhausted (handed e r mime))
unfolding claim_row
exhausted-ltb e r mime = ground arith

handed-next :
    (now : ℕ) (e : Env) (r : Row) (mime : Text)
    → next_attempt now (handed e r mime) ≡ (
        if ltb (r.attempt_count + 1) r.max_attempts
        then now + send_retry_delay (r.attempt_count + 1)
        else now + 365 * (24 * hour))
unfolding next_attempt claim_row
handed-next now e r mime = ground arith

failed-claimable :
    (t now next : ℕ) (error id : Text) (e : Env) (r : Row)
    → by_id id r ≡ true
    → claimable t id (fail_row now next error (claim_row e r))
      ≡ (ltb (r.attempt_count + 1) r.max_attempts && leb next t)
unfolding claimable fail_row claim_row
failed-claimable t now next error id e r h = ground arith

and_if : (b : Bool) (m n t : ℕ) → (b && leb (if b then m else n) t) ≡ (b && leb m t)
and_if true m n t = refl
and_if false m n t = refl

module _ (std : Std) (e₀ e₁ e₂ : Env) (smtp : Item → Option Text) (id : Text) (r : Row) (s : Store)
    (at_id : IsAt id r s.rows) (mime : Text) (t : ℕ) (made : e₀.io 0 ≡ true) (read : e₀.io 1 ≡ true)
    (made₁ : e₁.io 0 ≡ true) (made₂ : e₂.io 0 ≡ true) (may : claimable e₀.now id r ≡ true)
    (decoded : std.base64_decode r.mime_base64 ≡ some mime) where
  outcome_of :
      (answer : Option Text)
      → smtp (handed e₀ r mime) ≡ answer
      → Outcome id r e₁.now e₂.now t answer s.sends (process_send_queue_item std e₀ e₁ e₂ smtp id s)
  unfolding deliver_row fail_row claim_row
  outcome_of none h =
      let (at, sent) =
        (process_rows std e₀ e₁ e₂ smtp id r s at_id mime made read made₁ made₂ may decoded).0 h in
      (
        deliver_row e₂.now (claim_row e₀ r),
        at,
        refl,
        refl,
        refl,
        delivered-not_claimable t e₂.now id (claim_row e₀ r),
        sent,
      )
  outcome_of (some error) h =
      let (at, kept) =
        (process_rows std e₀ e₁ e₂ smtp id r s at_id mime made read made₁ made₂ may decoded).1 error
          h in
      let next = next_attempt e₁.now (handed e₀ r mime) in
      let due = handed-next e₁.now e₀ r mime in
      let more = ltb (r.attempt_count + 1) r.max_attempts in
      (
        fail_row e₁.now next error (claim_row e₀ r),
        at,
        refl,
        refl,
        refl,
        failed-claimable t e₁.now next error id e₀ r (IsAt-by_id id s.rows at_id)
            ∙ ap (λ n. more && leb n t) due
            ∙ and_if more (e₁.now + send_retry_delay (r.attempt_count + 1))
                (e₁.now + 365 * (24 * hour)) t,
        due,
        kept,
      )

-- One run of the worker on a row that may be claimed, when the database answers and the message
-- can be decoded. If the mail server takes the message, the item is noted as sent once, and the row
-- is delivered and never claimed again. If it does not, nothing is noted as sent, and the row is
-- failed with the error; with attempts left it may be claimed again exactly behind the delay of the
-- attempt that failed, else never, and it is put off by a year. Either way one attempt is counted.
pub process_outcome :
    (std : Std) (e₀ e₁ e₂ : Env) (smtp : Item → Option Text) (id : Text) (r : Row) (s : Store)
    → IsAt id r s.rows
    → (mime : Text) (t : ℕ) → e₀.io 0 ≡ true
    → e₀.io 1 ≡ true
    → e₁.io 0 ≡ true
    → e₂.io 0 ≡ true
    → claimable e₀.now id r ≡ true
    → std.base64_decode r.mime_base64 ≡ some mime
    → Outcome id r e₁.now e₂.now t
        (smtp (handed e₀ r mime))
        s.sends
        (process_send_queue_item std e₀ e₁ e₂ smtp id s)
process_outcome std e₀ e₁ e₂ smtp id r s at_id mime t made read made₁ made₂ may decoded =
    outcome_of std e₀ e₁ e₂ smtp id r s at_id mime t made read made₁ made₂ may decoded
      (smtp (handed e₀ r mime)) refl
