-- ===== src/Webhook/Final.antt =====
-- An event whose delivery was noted.
use lan_qin_email.Prelude.{
  ℕ, suc, ◌≡◌, refl, sym, ap, ◌∙◌, Bool, true, false, not, ◌&&◌, List, [], ◌∷◌, any, All,
  All-append, arith, Bool-cases, inl, inr, and_true, if_keeps, ltb, leb,
}
use lan_qin_email.Prelude.Text.{Text, text_eq, text_eq_iff, text_eq_refl, is_empty, trim_space}
use lan_qin_email.Prelude.Rows.{update_rows, keep_rows, All-update_rows}
use lan_qin_email.Prelude.Members.{IsKey, IsKey-eq, any-Memᴰ, All-Memᴰ, All-of_Memᴰ, Memᴰ-keep_rows}
use mathlib.Core.List.{Memᴰ}
use lan_qin_email.Webhook.{
  Event, Outbox, status_webhook_max_attempts, clashes, enqueue_status_webhook, spared, clean_up,
  due, undelivered, unleased, claimable, claim_row, claim_and_post, held, retry_row, delivered_row,
  settle, admin_retry_event, admin_cancel_event, restartable, delete_mailbox_events, restarted_row,
  removable,
}
use lan_qin_email.Webhook.Steps.{
  restart, cancel, delete_mailbox, times, Step, enqueue, cleanup, claim, finish, process,
  process_keeps, take_step, run, IsNew, AreNew, claimable-facts,
}

-- every row of the id is delivered, and the event was posted a number of times
record IsOver (id : Text) (n : ℕ) (s : Outbox) : Type 0 where
  delivered : All (λ (e : Event). e.id ≡ id → undelivered e ≡ false) s.rows
  posted : times id s.posts ≡ suc n

claimable-undelivered :
    (now : ℕ) (of : Text) (e : Event) → claimable now of e ≡ true → undelivered e ≡ true
claimable-undelivered now of e h =
    let (i, d) = and_true (text_eq e.id of) (due now e) h in
    (and_true (undelivered e)
      (ltb e.attempt_count status_webhook_max_attempts
        && (leb e.next_attempt_at now && unleased now e.lease_until))
      d).0

held-facts :
    (token of : Text) (e : Event) → held token of e ≡ true → (e.id ≡ of) × (undelivered e ≡ true)
held-facts token of e h =
    let (i, d) = and_true (text_eq e.id of) (undelivered e && text_eq e.lease_token token) h in
    ((text_eq_iff e.id of).0 i, (and_true (undelivered e) (text_eq e.lease_token token) d).0)

module _ (id : Text) (n : ℕ) where
  claim-IsOver :
      (now : ℕ) (token of : Text) (s : Outbox)
      → IsOver id n s
      → IsOver id n (claim_and_post now token of s).1
  unfolding claim_and_post times
  claim-IsOver now token of s o = elim (Bool-cases (any (claimable now of) s.rows)) [
    | inr refused ↦ rw refused o
    | inl granted ↦
        let (r, m, hit) = any-Memᴰ (claimable now of) s.rows granted in
        elim (Bool-cases (text_eq of id)) [
          | inl own ↦ absurd (
              let k : undelivered r ≡ false =
                All-Memᴰ _ s.rows r o.delivered m
                  ((claimable-facts now of r hit).0 ∙ (text_eq_iff of id).0 own) in
              let l = claimable-undelivered now of r hit in cc)
          | inr apart ↦ rw granted (record {
            delivered =
                All-update_rows (λ (e : Event). e.id ≡ id → undelivered e ≡ false)
                  (claimable now of) (claim_row now token) s.rows
                  (All-of_Memᴰ _ s.rows (λ x k. (
                    λ h. All-Memᴰ _ s.rows x o.delivered k,
                    λ h. All-Memᴰ _ s.rows x o.delivered k,
                  )));
            posted = rw apart o.posted;
          })
        ]
  ]

  kept-IsOver :
      (p : Event → Bool) (s : Outbox)
      → IsOver id n s
      → IsOver id n (record s { rows = keep_rows p s.rows })
  kept-IsOver p s o = record {
    delivered =
        All-of_Memᴰ _ (keep_rows p s.rows)
          (λ x m. All-Memᴰ _ s.rows x o.delivered ((Memᴰ-keep_rows p s.rows x m).0));
    posted = o.posted;
  }

  clean_up-IsOver : (now : ℕ) (s : Outbox) → IsOver id n s → IsOver id n (clean_up now s)
  unfolding clean_up
  clean_up-IsOver now s o = kept-IsOver (spared now) s o

  cancel-IsOver :
      (now : ℕ) (param : Text) (s : Outbox)
      → IsOver id n s
      → IsOver id n (admin_cancel_event now param s).1
  unfolding admin_cancel_event
  cancel-IsOver now param s o =
      let of = trim_space param in
      elim (Bool-cases (is_empty of)) [
        | inl blank ↦ rw blank o
        | inr given ↦ elim (Bool-cases (any (removable now of) s.rows)) [
          | inl found ↦ rw (given, found) (kept-IsOver (λ e. not (removable now of e)) s o)
          | inr missing ↦ rw (given, missing) o
        ]
      ]

  restart-IsOver :
      (now : ℕ) (param : Text) (s : Outbox)
      → IsOver id n s
      → IsOver id n (admin_retry_event now param s).1
  unfolding admin_retry_event
  restart-IsOver now param s o =
      let of = trim_space param in
      elim (Bool-cases (is_empty of)) [
        | inl blank ↦ rw blank o
        | inr given ↦ elim (Bool-cases (any (restartable now of) s.rows)) [
          | inr missing ↦ rw (given, missing) o
          | inl found ↦
              rw (given, found)
                (record {
                  delivered =
                      All-update_rows (λ (e : Event). e.id ≡ id → undelivered e ≡ false)
                        (restartable now of) (restarted_row now) s.rows
                        (All-of_Memᴰ _ s.rows (λ x m. (
                          λ h. All-Memᴰ _ s.rows x o.delivered m,
                          λ h. All-Memᴰ _ s.rows x o.delivered m,
                        )));
                  posted = o.posted;
                })
        ]
      ]

  settle-IsOver :
      (now : ℕ) (token of : Text) (attempt : ℕ) (ok : Bool) (s : Outbox)
      → IsOver id n s
      → IsOver id n (settle now token of attempt ok s)
  unfolding settle
  settle-IsOver now token of attempt true s o = record {
    delivered =
        All-update_rows (λ (e : Event). e.id ≡ id → undelivered e ≡ false) (held token of)
          (delivered_row now) s.rows
          (All-of_Memᴰ _ s.rows (λ x m. (λ h. All-Memᴰ _ s.rows x o.delivered m, λ h e. refl)));
    posted = o.posted;
  }
  settle-IsOver now token of attempt false s o = record {
    delivered =
        All-update_rows (λ (e : Event). e.id ≡ id → undelivered e ≡ false) (held token of)
          (retry_row now attempt) s.rows
          (All-of_Memᴰ _ s.rows (λ x m.
            (λ h. All-Memᴰ _ s.rows x o.delivered m, λ h. All-Memᴰ _ s.rows x o.delivered m)));
    posted = o.posted;
  }

  take_step-IsOver :
      (t : Step) (s : Outbox) → IsNew t s → IsOver id n s → IsOver id n (take_step t s)
  unfolding enqueue_status_webhook delete_mailbox_events
  take_step-IsOver (enqueue url now new key mailbox payload) s fresh o =
      if_keeps (IsOver id n) (is_empty (trim_space url)) (λ h. o)
        (λ h. elim (Bool-cases (any (clashes new key) s.rows)) [
          | inl taken ↦ rw taken o
          | inr free ↦ rw free (record {
            delivered =
                All-append (λ (e : Event). e.id ≡ id → undelivered e ≡ false) s.rows _ o.delivered
                  ((λ e. absurd (omega (arith, ap (λ i. times i s.posts) e, fresh, o.posted))), tt);
            posted = o.posted;
          })
        ])
  take_step-IsOver (cleanup now) s fresh o = clean_up-IsOver now s o
  take_step-IsOver (claim now token of) s fresh o = claim-IsOver now token of s o
  take_step-IsOver (finish now token of attempt ok) s fresh o =
      settle-IsOver now token of attempt ok s o
  take_step-IsOver (restart now param) s fresh o = restart-IsOver now param s o
  take_step-IsOver (cancel now param) s fresh o = cancel-IsOver now param s o
  take_step-IsOver (delete_mailbox mailbox) s fresh o =
      kept-IsOver (λ e. not (text_eq e.mailbox_id mailbox)) s o
  take_step-IsOver (process url deliver now tokens) s fresh o =
      process_keeps (IsOver id n) clean_up-IsOver claim-IsOver settle-IsOver url deliver now tokens
        s o

  run-IsOver : (ts : List Step) (s : Outbox) → AreNew ts s → IsOver id n s → IsOver id n (run ts s)
  run-IsOver [] s fresh o = o
  run-IsOver (t ∷ ts) s (f, fs) o = run-IsOver ts (take_step t s) fs (take_step-IsOver t s f o)

claimed-held :
    (now : ℕ) (token id : Text) (rows : List Event) (r : Event)
    → IsKey (λ (e : Event). e.id) rows
    → Memᴰ r rows
    → claimable now id r ≡ true
    → All
        (λ (e : Event). e.id ≡ id → held token id e ≡ true)
        (update_rows (claimable now id) (claim_row now token) rows)
claimed-held now token id rows r keys m hit =
    All-update_rows (λ (e : Event). e.id ≡ id → held token id e ≡ true) (claimable now id)
      (claim_row now token) rows
      (All-of_Memᴰ _ rows (λ x n. (
        λ miss e. absurd (
            let same =
              IsKey-eq (λ (z : Event). z.id) rows x r keys n m
                (e ∙ sym ((claimable-facts now id r hit).0)) in
            let k : ◌≡◌ {A = Bool} true false = sym hit ∙ ap (claimable now id) (sym same) ∙ miss in
            cc),
        λ met e.
            rw ((text_eq_iff x.id id).1 e, claimable-undelivered now id x met, text_eq_refl token)
              refl,
      )))

-- the rows of a claimed event carry its token, and its end finds them
claim_then_settle :
    (now later : ℕ) (token id : Text) (attempt : ℕ) (s : Outbox)
    → IsKey (λ (e : Event). e.id) s.rows
    → (claim_and_post now token id s).0 ≡ true
    → IsOver id
        (times id s.posts)
        (settle later token id attempt true (claim_and_post now token id s).1)
unfolding claim_and_post settle times
claim_then_settle now later token id attempt s keys got =
    elim (Bool-cases (any (claimable now id) s.rows)) [
      | inr refused ↦ absurd (let k : ◌≡◌ {A = Bool} false true = rw refused at got in cc)
      | inl granted ↦
          let (r, m, hit) = any-Memᴰ (claimable now id) s.rows granted in
          rw granted (record {
            delivered =
                All-update_rows (λ (e : Event). e.id ≡ id → undelivered e ≡ false) (held token id)
                  (delivered_row later)
                  (update_rows (claimable now id) (claim_row now token) s.rows)
                  (All-of_Memᴰ _ (update_rows (claimable now id) (claim_row now token) s.rows)
                    (λ x k. (
                      λ miss e. absurd (
                          let h =
                            All-Memᴰ _ (update_rows (claimable now id) (claim_row now token) s.rows)
                              x (claimed-held now token id s.rows r keys m hit) k e in
                          cc),
                      λ h e. refl,
                    )));
            posted = rw (text_eq_refl id) refl;
          })
    ]

-- Once a claimed event was posted with success and the worker has noted it, the event is never posted
-- again, whatever steps follow. Ids are unique, and those of new events are not used before.
pub delivered_once :
    (now later : ℕ) (token id : Text) (attempt : ℕ) (s : Outbox) (ts : List Step)
    → IsKey (λ (e : Event). e.id) s.rows
    → (claim_and_post now token id s).0 ≡ true
    → let s' = settle later token id attempt true (claim_and_post now token id s).1 in
      AreNew ts s' → times id (run ts s').posts ≡ suc (times id s.posts)
delivered_once now later token id attempt s ts keys got fresh =
    let s' = settle later token id attempt true (claim_and_post now token id s).1 in
    (run-IsOver id (times id s.posts) ts s' fresh
      (claim_then_settle now later token id attempt s keys got)).posted
