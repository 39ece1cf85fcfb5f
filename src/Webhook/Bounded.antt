-- ===== src/Webhook/Bounded.antt =====
-- What the posts of an event are bounded by, and that the steps of the workers keep it.
use lan_qin_email.Prelude.{
  ◌+◌, ◌*◌, ℕ, ◌≤◌, ◌≡◌, refl, sym, ap, ◌∙◌, subst, Bool, true, false, List, [], ◌∷◌, any, All,
  All-append, arith, Bool-cases, inl, inr, if_keeps,
}
use lan_qin_email.Prelude.Text.{Text, text_eq, text_eq_iff, text_eq_refl, is_empty, trim_space}
use lan_qin_email.Prelude.Rows.{update_rows, keep_rows, All-update_rows}
use lan_qin_email.Prelude.Members.{
  IsKey, IsKey-eq, IsKey-update_rows, IsKey-add, any-Memᴰ, Memᴰ-any, All-Memᴰ, All-of_Memᴰ,
  Memᴰ-keep_rows,
}
use mathlib.Core.List.{Memᴰ}
use lan_qin_email.Webhook.{
  Event, Outbox, clashes, enqueue_status_webhook, spared, clean_up, claimable, claim_row,
  claim_and_post, held, retry_row, delivered_row, settle,
}
use lan_qin_email.Webhook.Steps.{times, claimable-facts, granted}

abbrev pub Counted : Text → ℕ → List Text → Event → Type 0
Counted id g posts e =
    e.id ≡ id → (times id posts ≤ e.attempt_count + 10 * g) × (e.attempt_count ≤ 10)

-- an event has ten posts for its first round, and ten for each of `g` retries
pub record IsBounded (id : Text) (g : ℕ) (s : Outbox) : Type 0 where
  pub keys : IsKey (λ (e : Event). e.id) s.rows
  pub counted : All (Counted id g s.posts) s.rows
  pub bounded : times id s.posts ≤ 10 + 10 * g

IsKey-keep_rows :
    (p : Event → Bool) (es : List Event)
    → IsKey (λ (e : Event). e.id) es
    → IsKey (λ (e : Event). e.id) (keep_rows p es)
unfolding keep_rows
IsKey-keep_rows p [] k = tt
IsKey-keep_rows p (e ∷ es) (h, k) = elim (Bool-cases (p e)) [
  | inr dropped ↦ rw dropped (IsKey-keep_rows p es k)
  | inl kept ↦ rw kept (
    All-of_Memᴰ _ (keep_rows p es) (λ x m. All-Memᴰ _ es x h ((Memᴰ-keep_rows p es x m).0)),
    IsKey-keep_rows p es k,
  )
]

pub enqueue-IsBounded :
    {g : ℕ} (id url : Text) (now : ℕ) (new key mailbox payload : Text) (s : Outbox)
    → times new s.posts ≡ 0
    → IsBounded id g s
    → IsBounded id g (enqueue_status_webhook url now new key mailbox payload s)
unfolding enqueue_status_webhook
enqueue-IsBounded {g} id url now new key mailbox payload s fresh b =
    if_keeps (IsBounded id g) (is_empty (trim_space url)) (λ h. b)
      (λ h. elim (Bool-cases (any (clashes new key) s.rows)) [
        | inl taken ↦ rw taken b
        | inr free ↦ rw free (record {
          keys =
              IsKey-add (λ (e : Event). e.id) s.rows _ b.keys
                (All-of_Memᴰ _ s.rows (λ x m e.
                  let k : ◌≡◌ {A = Bool} true false =
                    sym
                      (Memᴰ-any (clashes new key) s.rows x m (ground (arith, text_eq_iff x.id new)))
                    ∙ free in
                  cc));
          counted =
              All-append (Counted id g s.posts) s.rows _ b.counted
                ((λ e. (omega (arith, ap (λ i. times i s.posts) e, fresh), omega arith)), tt);
          bounded = b.bounded;
        })
      ])

pub kept-IsBounded :
    {g : ℕ} (id : Text) (p : Event → Bool) (s : Outbox)
    → IsBounded id g s
    → IsBounded id g (record s { rows = keep_rows p s.rows })
kept-IsBounded {g} id p s b = record {
  keys = IsKey-keep_rows p s.rows b.keys;
  counted =
      All-of_Memᴰ _ (keep_rows p s.rows)
        (λ x m. All-Memᴰ _ s.rows x b.counted ((Memᴰ-keep_rows p s.rows x m).0));
  bounded = b.bounded;
}

pub clean_up-IsBounded :
    {g : ℕ} (id : Text) (now : ℕ) (s : Outbox) → IsBounded id g s → IsBounded id g (clean_up now s)
unfolding clean_up
clean_up-IsBounded id now s b = kept-IsBounded id (spared now) s b

pub settle-IsBounded :
    {g : ℕ} (id : Text) (now : ℕ) (token of : Text) (attempt : ℕ) (ok : Bool) (s : Outbox)
    → IsBounded id g s
    → IsBounded id g (settle now token of attempt ok s)
unfolding settle
settle-IsBounded {g} id now token of attempt true s b = record {
  keys =
      IsKey-update_rows (λ (e : Event). e.id) (held token of) (delivered_row now) (λ x. refl) s.rows
        b.keys;
  counted = All-update_rows (Counted id g s.posts) (held token of) (delivered_row now) s.rows (
      All-of_Memᴰ _ s.rows
        (λ x m. (λ h. All-Memᴰ _ s.rows x b.counted m, λ h. All-Memᴰ _ s.rows x b.counted m)));
  bounded = b.bounded;
}
settle-IsBounded {g} id now token of attempt false s b = record {
  keys =
      IsKey-update_rows (λ (e : Event). e.id) (held token of) (retry_row now attempt) (λ x. refl)
        s.rows b.keys;
  counted = All-update_rows (Counted id g s.posts) (held token of) (retry_row now attempt) s.rows (
      All-of_Memᴰ _ s.rows
        (λ x m. (λ h. All-Memᴰ _ s.rows x b.counted m, λ h. All-Memᴰ _ s.rows x b.counted m)));
  bounded = b.bounded;
}

module _ {g : ℕ} (id : Text) (now : ℕ) (token : Text) (s : Outbox) (b : IsBounded id g s)
    (r : Event) (m : Memᴰ r s.rows) where
  claim_own :
      claimable now id r ≡ true
      → IsBounded id g (record {
        rows = update_rows (claimable now id) (claim_row now token) s.rows;
        posts = id ∷ s.posts;
      })
  unfolding times
  claim_own hit = record {
    keys =
        IsKey-update_rows (λ (e : Event). e.id) (claimable now id) (claim_row now token) (λ x. refl)
          s.rows b.keys;
    counted =
        All-update_rows (Counted id g (id ∷ s.posts)) (claimable now id) (claim_row now token)
          s.rows
          (All-of_Memᴰ _ s.rows (λ x n. (
            λ miss e. absurd (
                let same =
                  IsKey-eq (λ (z : Event). z.id) s.rows x r b.keys n m
                    (e ∙ sym ((claimable-facts now id r hit).0)) in
                let k : ◌≡◌ {A = Bool} true false =
                  sym hit ∙ ap (claimable now id) (sym same) ∙ miss in
                cc),
            λ met e.
                let (low, high) = All-Memᴰ _ s.rows x b.counted n e in
                let (i, room) = claimable-facts now id x met in
                rw (text_eq_refl id) (omega (arith, low), omega (arith, room)),
          )));
    bounded =
        let (i, room) = claimable-facts now id r hit in
        let (low, high) = All-Memᴰ _ s.rows r b.counted m i in
        rw (text_eq_refl id) (omega (arith, low, room));
  }

  claim_other :
      (of : Text)
      → text_eq of id ≡ false
      → IsBounded id g (record {
        rows = update_rows (claimable now of) (claim_row now token) s.rows;
        posts = of ∷ s.posts;
      })
  unfolding times
  claim_other of apart = record {
    keys =
        IsKey-update_rows (λ (e : Event). e.id) (claimable now of) (claim_row now token) (λ x. refl)
          s.rows b.keys;
    counted =
        All-update_rows (Counted id g (of ∷ s.posts)) (claimable now of) (claim_row now token)
          s.rows
          (All-of_Memᴰ _ s.rows (λ x n. (
            λ miss e. rw apart (All-Memᴰ _ s.rows x b.counted n e),
            λ met e. absurd (
                let i = (claimable-facts now of x met).0 in
                let k : ◌≡◌ {A = Bool} true false =
                  sym ((text_eq_iff of id).1 (sym i ∙ e)) ∙ apart in
                cc),
          )));
    bounded = rw apart b.bounded;
  }

pub claim-IsBounded :
    {g : ℕ} (id : Text) (now : ℕ) (token of : Text) (s : Outbox)
    → IsBounded id g s
    → IsBounded id g (claim_and_post now token of s).1
unfolding claim_and_post
claim-IsBounded {g} id now token of s b = elim (Bool-cases (any (claimable now of) s.rows)) [
  | inr refused ↦ rw refused b
  | inl granted ↦
      let (r, m, hit) = any-Memᴰ (claimable now of) s.rows granted in
      elim (Bool-cases (text_eq of id)) [
        | inr apart ↦ rw granted (claim_other id now token s b r m of apart)
        | inl own ↦
            let same : id ≡ of = sym ((text_eq_iff of id).0 own) in
            rw granted (
              subst
                (λ i. IsBounded id g (record {
                  rows = update_rows (claimable now i) (claim_row now token) s.rows;
                  posts = i ∷ s.posts;
                }))
                same (claim_own id now token s b r m (rw same hit)))
      ]
]
