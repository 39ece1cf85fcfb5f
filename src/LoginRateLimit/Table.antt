-- ===== src/LoginRateLimit/Table.antt =====
-- What recording a failure does to the rows of each subject, under every database driver.
use lan_qin_email.Prelude.{
  ℕ, ◌+◌, ◌-◌, ◌≡◌, refl, sym, ap, ◌∙◌, inl, inr, Bool, true, false, ◌&&◌, Option, none, some, List,
  [], ◌∷◌, arith, ltb, Bool-cases, and_true,
}
use lan_qin_email.Prelude.Text.{text_eq, text_eq_iff, text_eq_refl}
use lan_qin_email.LoginRateLimit.{
  Subject, Row, Driver, key_is, lookup, fresh_row, conflict_row, duplicate_row, set_blocked,
  set_count, set_window, updated_row, upsert, upsert_login_failure, delete_older, delete_subject,
  window, lock_duration,
}

same_update :
    (driver : Driver) (now cutoff limit blocked : ℕ) (r : Row)
    → updated_row driver now cutoff limit blocked r ≡ conflict_row now cutoff limit blocked r
unfolding updated_row duplicate_row set_window set_count set_blocked conflict_row
same_update Driver.sqlite now cutoff limit blocked r = refl
same_update Driver.mysql now cutoff limit blocked r = refl
same_update Driver.postgres now cutoff limit blocked r = refl

-- the row of a subject after a failure
abbrev pub next : ℕ → Subject → Option Row → Row
next now s none = fresh_row now s
next now s (some r) = conflict_row now (now - window) s.limit (now + lock_duration) r

-- two subjects have the same key
abbrev pub same_key : Subject → Subject → Bool
same_key s t = text_eq s.scope t.scope && text_eq s.hash t.hash

and_intro : (a b : Bool) → a ≡ true → b ≡ true → (a && b) ≡ true
and_intro a b h k = ground arith

key_is-same_key :
    (s t : Subject) (r : Row) → key_is s r ≡ true → key_is t r ≡ true → same_key s t ≡ true
key_is-same_key s t r h k =
    let (hs, hh) = and_true (text_eq r.scope s.scope) (text_eq r.subject_hash s.hash) h in
    let (ks, kh) = and_true (text_eq r.scope t.scope) (text_eq r.subject_hash t.hash) k in
    let es : r.scope ≡ s.scope = (text_eq_iff r.scope s.scope).0 hs in
    let eh : r.subject_hash ≡ s.hash = (text_eq_iff r.subject_hash s.hash).0 hh in
    and_intro _ _ (rw es at ks) (rw eh at kh)

conflict_row-key :
    (now cutoff limit blocked : ℕ) (s : Subject) (r : Row)
    → key_is s (conflict_row now cutoff limit blocked r) ≡ key_is s r
unfolding conflict_row
conflict_row-key now cutoff limit blocked s r = refl

fresh_row-key : (now : ℕ) (s : Subject) → key_is s (fresh_row now s) ≡ true
fresh_row-key now s = and_intro _ _ (text_eq_refl s.scope) (text_eq_refl s.hash)

pub lookup-head :
    (s : Subject) (r : Row) (rs : List Row) → key_is s r ≡ true → lookup s (r ∷ rs) ≡ some r
unfolding lookup
lookup-head s r rs h = rw h refl

pub lookup-tail :
    (s : Subject) (r : Row) (rs : List Row) → key_is s r ≡ false → lookup s (r ∷ rs) ≡ lookup s rs
unfolding lookup
lookup-tail s r rs h = rw h refl

lookup-cons :
    (t : Subject) (r : Row) (rs rs' : List Row)
    → lookup t rs' ≡ lookup t rs
    → lookup t (r ∷ rs') ≡ lookup t (r ∷ rs)
unfolding lookup
lookup-cons t r rs rs' h = rw h refl

module _ (s : Subject) (new : Row) (f : Row → Row) (r : Row) (rs : List Row) where
  upsert-head : key_is s r ≡ true → upsert s new f (r ∷ rs) ≡ f r ∷ rs
  unfolding upsert
  upsert-head h = rw h refl

  upsert-tail : key_is s r ≡ false → upsert s new f (r ∷ rs) ≡ r ∷ upsert s new f rs
  unfolding upsert
  upsert-tail h = rw h refl

not_same : (s t : Subject) (r : Row) → same_key s t ≡ false → key_is s r ≡ true → key_is t r ≡ false
not_same s t r apart h = elim (Bool-cases (key_is t r)) [
  | inl both ↦ absurd (let k = key_is-same_key s t r h both in cc)
  | inr other ↦ other
]

-- `updated_row` keeps the key, as `conflict_row` does
module _ (driver : Driver) (now : ℕ) (s : Subject) where
  update : Row → Row
  update = updated_row driver now (now - window) s.limit (now + lock_duration)

  update-conflict :
      (r : Row) → update r ≡ conflict_row now (now - window) s.limit (now + lock_duration) r
  unfolding update
  update-conflict r = same_update driver now (now - window) s.limit (now + lock_duration) r

  update-key : (t : Subject) (r : Row) → key_is t (update r) ≡ key_is t r
  update-key t r =
      ap (key_is t) (update-conflict r)
      ∙ conflict_row-key now (now - window) s.limit (now + lock_duration) t r

  lookup-upsert :
      (rows : List Row)
      → lookup s (upsert s (fresh_row now s) update rows) ≡ some (next now s (lookup s rows))
  lookup-upsert [] =
      unfold upsert in
      rw (lookup-head s (fresh_row now s) [] (fresh_row-key now s)) (unfold lookup in refl)
  lookup-upsert (r ∷ rs) = elim (Bool-cases (key_is s r)) [
    | inl same ↦
        rw (upsert-head s (fresh_row now s) update r rs same, lookup-head s r rs same)
          (lookup-head s (update r) rs (update-key s r ∙ same) ∙ ap some (update-conflict r))
    | inr other ↦
        rw (upsert-tail s (fresh_row now s) update r rs other, lookup-tail s r rs other)
          (lookup-tail s r (upsert s (fresh_row now s) update rs) other ∙ lookup-upsert rs)
  ]

  lookup-upsert_other :
      (t : Subject) (rows : List Row)
      → same_key s t ≡ false
      → lookup t (upsert s (fresh_row now s) update rows) ≡ lookup t rows
  lookup-upsert_other t [] apart =
      unfold upsert in
      lookup-tail t (fresh_row now s) []
        (not_same s t (fresh_row now s) apart (fresh_row-key now s))
  lookup-upsert_other t (r ∷ rs) apart = elim (Bool-cases (key_is s r)) [
    | inl mine ↦
        let past = not_same s t r apart mine in
        rw (upsert-head s (fresh_row now s) update r rs mine, lookup-tail t r rs past)
          (lookup-tail t (update r) rs (update-key t r ∙ past))
    | inr other ↦
        rw (upsert-tail s (fresh_row now s) update r rs other) (
          lookup-cons t r rs (upsert s (fresh_row now s) update rs)
            (lookup-upsert_other t rs apart))
  ]

  pub lookup-upsert_login_failure :
      (rows : List Row)
      → lookup s (upsert_login_failure driver now s rows) ≡ some (next now s (lookup s rows))
  unfolding upsert_login_failure update
  lookup-upsert_login_failure rows = lookup-upsert rows

  pub lookup-upsert_login_failure_other :
      (t : Subject) (rows : List Row)
      → same_key s t ≡ false
      → lookup t (upsert_login_failure driver now s rows) ≡ lookup t rows
  unfolding upsert_login_failure update
  lookup-upsert_login_failure_other t rows apart = lookup-upsert_other t rows apart

pub some_eq : (r r' : Row) → Path (Option Row) (some r) (some r') → r ≡ r'
some_eq r r' h = cc

delete_older-kept :
    (bound : ℕ) (r : Row) (rs : List Row)
    → ltb r.updated_at bound ≡ false
    → delete_older bound (r ∷ rs) ≡ r ∷ delete_older bound rs
unfolding delete_older
delete_older-kept bound r rs h = rw h refl

delete_older-dropped :
    (bound : ℕ) (r : Row) (rs : List Row)
    → ltb r.updated_at bound ≡ true
    → delete_older bound (r ∷ rs) ≡ delete_older bound rs
unfolding delete_older
delete_older-dropped bound r rs h = rw h refl

pub lookup-delete_older :
    (bound : ℕ) (s : Subject) (rows : List Row) (r : Row)
    → lookup s rows ≡ some r
    → ltb r.updated_at bound ≡ false
    → lookup s (delete_older bound rows) ≡ some r
lookup-delete_older bound s [] r h fresh = absurd (let k = nothing r h in cc)
  where
    nothing : (r : Row) → lookup s [] ≡ some r → Path (Option Row) none (some r)
    nothing r h = unfold lookup in h
lookup-delete_older bound s (x ∷ rs) r h fresh = elim (Bool-cases (key_is s x)) [
  | inl same ↦
      let e : x ≡ r = some_eq x r (sym (lookup-head s x rs same) ∙ h) in
      let kept : ltb x.updated_at bound ≡ false = rw e fresh in
      rw (delete_older-kept bound x rs kept)
        (lookup-head s x (delete_older bound rs) same ∙ ap some e)
  | inr other ↦
      let rest = lookup-delete_older bound s rs r (sym (lookup-tail s x rs other) ∙ h) fresh in
      elim (Bool-cases (ltb x.updated_at bound)) [
        | inl old ↦ rw (delete_older-dropped bound x rs old) rest
        | inr young ↦
            rw (delete_older-kept bound x rs young)
              (lookup-tail s x (delete_older bound rs) other ∙ rest)
      ]
]

-- deleting the rows of one key
pub lookup-delete_subject :
    (s : Subject) (rows : List Row) → lookup s (delete_subject s rows) ≡ none
unfolding delete_subject
lookup-delete_subject s [] = unfold lookup in refl
lookup-delete_subject s (r ∷ rs) = elim (Bool-cases (key_is s r)) [
  | inl same ↦ rw same (lookup-delete_subject s rs)
  | inr other ↦ rw other (lookup-tail s r (delete_subject s rs) other ∙ lookup-delete_subject s rs)
]

pub lookup-delete_subject_other :
    (s t : Subject) (rows : List Row)
    → same_key s t ≡ false
    → lookup t (delete_subject s rows) ≡ lookup t rows
unfolding delete_subject
lookup-delete_subject_other s t [] apart = refl
lookup-delete_subject_other s t (r ∷ rs) apart = elim (Bool-cases (key_is s r)) [
  | inl mine ↦
      rw (mine, lookup-tail t r rs (not_same s t r apart mine))
        (lookup-delete_subject_other s t rs apart)
  | inr other ↦
      rw other (lookup-cons t r rs (delete_subject s rs) (lookup-delete_subject_other s t rs apart))
]
