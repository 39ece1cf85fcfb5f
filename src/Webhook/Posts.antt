-- ===== src/Webhook/Posts.antt =====
-- How often an event is posted, by any number of workers whose steps interleave, with retries.
use lan_qin_email.Prelude.{
  ◌+◌, ◌*◌, not, ℕ, suc, ◌≤◌, ◌≡◌, refl, sym, ◌∙◌, Bool, true, false, ◌&&◌, List, [], ◌∷◌, any,
  arith, Bool-cases, inl, inr,
}
use lan_qin_email.Prelude.Text.{Text, text_eq, text_eq_iff, is_empty, trim_space}
use lan_qin_email.Prelude.Rows.{update_rows, All-update_rows}
use lan_qin_email.Prelude.Members.{IsKey, IsKey-update_rows, All-Memᴰ, All-of_Memᴰ}
use lan_qin_email.Webhook.{
  Event, Outbox, admin_retry_event, admin_cancel_event, restartable, delete_mailbox_events,
  restarted_row, removable,
}
use lan_qin_email.Webhook.Steps.{
  times, Step, enqueue, cleanup, claim, finish, process, restart, cancel, delete_mailbox,
  process_keeps, take_step, run, IsNew, AreNew, restartable-facts, restarts, add_if, granted,
}
use lan_qin_email.Webhook.Bounded.{
  Counted, IsBounded, enqueue-IsBounded, kept-IsBounded, clean_up-IsBounded, settle-IsBounded,
  claim-IsBounded,
}

module _ {g : ℕ} (id : Text) (now : ℕ) (of : Text) (s : Outbox) (b : IsBounded id g s) where
  restarted-keys :
      IsKey (λ (e : Event). e.id) (update_rows (restartable now of) (restarted_row now) s.rows)
  restarted-keys =
      IsKey-update_rows (λ (e : Event). e.id) (restartable now of) (restarted_row now) (λ x. refl)
        s.rows b.keys

  -- a retry is granted at ten attempts, and gives ten more
  restart_own :
      IsBounded id
        (suc g)
        (record s { rows = update_rows (restartable now of) (restarted_row now) s.rows })
  restart_own = record {
    keys = restarted-keys;
    counted =
        All-update_rows (Counted id (suc g) s.posts) (restartable now of) (restarted_row now) s.rows
          (All-of_Memᴰ _ s.rows (λ x n. (
            λ miss e.
                let (low, high) = All-Memᴰ _ s.rows x b.counted n e in (omega (arith, low), high),
            λ met e.
                let (low, high) = All-Memᴰ _ s.rows x b.counted n e in
                (omega (arith, low, high), omega arith),
          )));
    bounded = omega (arith, b.bounded);
  }

  restart_other :
      text_eq of id ≡ false
      → IsBounded id g
          (record s { rows = update_rows (restartable now of) (restarted_row now) s.rows })
  restart_other apart = record {
    keys = restarted-keys;
    counted =
        All-update_rows (Counted id g s.posts) (restartable now of) (restarted_row now) s.rows (
          All-of_Memᴰ _ s.rows (λ x n. (
            λ miss e. All-Memᴰ _ s.rows x b.counted n e,
            λ met e. absurd (
                let i = (restartable-facts now of x met).0 in
                let k : ◌≡◌ {A = Bool} true false =
                  sym ((text_eq_iff of id).1 (sym i ∙ e)) ∙ apart in
                cc),
          )));
    bounded = b.bounded;
  }

cancel-IsBounded :
    {g : ℕ} (id : Text) (now : ℕ) (param : Text) (s : Outbox)
    → IsBounded id g s
    → IsBounded id g (admin_cancel_event now param s).1
unfolding admin_cancel_event
cancel-IsBounded {g} id now param s b =
    let of = trim_space param in
    elim (Bool-cases (is_empty of)) [
      | inl blank ↦ rw blank b
      | inr given ↦ elim (Bool-cases (any (removable now of) s.rows)) [
        | inl found ↦ rw (given, found) (kept-IsBounded id (λ e. not (removable now of e)) s b)
        | inr missing ↦ rw (given, missing) b
      ]
    ]

and_false : (b : Bool) → (b && false) ≡ false
and_false true = refl
and_false false = refl

restart-IsBounded :
    {g : ℕ} (id : Text) (now : ℕ) (param : Text) (s : Outbox)
    → IsBounded id g s
    → IsBounded id (add_if (restarts id (restart now param) s) g) (admin_retry_event now param s).1
unfolding admin_retry_event
restart-IsBounded {g} id now param s b =
    let of = trim_space param in
    elim (Bool-cases (is_empty of)) [
      | inl blank ↦ rw (blank, and_false (text_eq of id)) b
      | inr given ↦ elim (Bool-cases (any (restartable now of) s.rows)) [
        | inr missing ↦ rw (given, missing, and_false (text_eq of id)) b
        | inl found ↦ elim (Bool-cases (text_eq of id)) [
          | inl own ↦ rw (given, found, own) (restart_own id now of s b)
          | inr apart ↦ rw (given, found, apart) (restart_other id now of s b apart)
        ]
      ]
    ]

take_step-IsBounded :
    (id : Text) (g : ℕ) (t : Step) (s : Outbox)
    → IsNew t s
    → IsBounded id g s
    → IsBounded id (add_if (restarts id t s) g) (take_step t s)
take_step-IsBounded id g (enqueue url now new key mailbox payload) s fresh b =
    enqueue-IsBounded id url now new key mailbox payload s fresh b
take_step-IsBounded id g (cleanup now) s fresh b = clean_up-IsBounded id now s b
take_step-IsBounded id g (claim now token of) s fresh b = claim-IsBounded id now token of s b
take_step-IsBounded id g (finish now token of attempt ok) s fresh b =
    settle-IsBounded id now token of attempt ok s b
take_step-IsBounded id g (restart now param) s fresh b = restart-IsBounded id now param s b
take_step-IsBounded id g (cancel now param) s fresh b = cancel-IsBounded id now param s b
take_step-IsBounded id g (delete_mailbox mailbox) s fresh b =
    unfold delete_mailbox_events in kept-IsBounded id (λ e. not (text_eq e.mailbox_id mailbox)) s b
take_step-IsBounded id g (process url deliver now tokens) s fresh b =
    process_keeps (IsBounded id g) (clean_up-IsBounded id) (claim-IsBounded id)
      (settle-IsBounded id) url deliver now tokens s b

add_if-add : (b : Bool) (n g : ℕ) → add_if b n + g ≡ n + add_if b g
add_if-add true n g = omega arith
add_if-add false n g = refl

run-IsBounded :
    (id : Text) (g : ℕ) (ts : List Step) (s : Outbox)
    → AreNew ts s
    → IsBounded id g s
    → times id (run ts s).posts ≤ 10 + 10 * (granted id ts s + g)
run-IsBounded id g [] s fresh b = omega (arith, b.bounded)
run-IsBounded id g (t ∷ ts) s (f, fs) b =
    rw (add_if-add (restarts id t s) (granted id ts (take_step t s)) g) (
      run-IsBounded id (add_if (restarts id t s) g) ts (take_step t s) fs
        (take_step-IsBounded id g t s f b))

-- From an empty outbox, an event is posted at most ten times, and ten times more for each retry that
-- an administrator asked for and was granted, whatever events are put in, cleaned up, cancelled or
-- deleted with their mailbox, and however the claims and the ends of any number of workers follow each other. The ids of new events
-- are ones that no event was posted with before.
pub posts_bounded :
    (id : Text) (ts : List Step)
    → AreNew ts (record { rows = []; posts = [] })
    → times id (run ts (record { rows = []; posts = [] })).posts
      ≤ 10 + 10 * granted id ts (record { rows = []; posts = [] })
unfolding times
posts_bounded id ts fresh = omega (
  arith,
  run-IsBounded id 0 ts (record { rows = []; posts = [] }) fresh
      (record { keys = tt; counted = tt; bounded = omega arith }),
)
