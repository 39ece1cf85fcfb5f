-- ===== src/Address/Safety.antt =====
-- What characters a recipient that passed `dedupeEmails` can hold.
use lan_qin_email.Prelude.{
  ℕ, ◌≡◌, ◌≢◌, refl, Bool, true, false, ◌||◌, not, Option, none, some, List, [], ◌∷◌, ◌++◌, arith,
  ◌==◌, if◌then◌else◌, All, All-append, and_true, ◌⊎◌, Bool-cases, inl, inr, ltb,
}
use lan_qin_email.Prelude.Text.{
  Text, trim_left, trim_right, trim_by, has, is_empty, contains_rune, trim_space,
}
use lan_qin_email.Std.{Std}
use lan_qin_email.Address.{
  is_alnum, is_local, LabelState, fresh, inside, dashed, domain_re, cut, keep, to_lower,
  normalize_domain, normalize_local_part, join_parts, normalize_email, valid_parts, byte_length,
  valid_recipient_address, dedupe_loop, dedupe_emails,
}

-- the characters that a mail header may hold of an address
abbrev pub IsHeaderSafe : ℕ → Type 0
IsHeaderSafe c = (is_local c || c == b'@') ≡ true

module _ {κ} (P : ℕ → Type κ) (p : ℕ → Bool) where
  All-trim_left : (s : Text) → All P s → All P (trim_left p s)
  unfolding trim_left
  All-trim_left [] h = h
  All-trim_left (c ∷ s) (hc, hs) = elim (Bool-cases (p c)) [
    | inl e ↦ rw e (All-trim_left s hs)
    | inr e ↦ rw e (hc, hs)
  ]

  All-trim_right : (s : Text) → All P s → All P (trim_right p s)
  unfolding trim_right
  All-trim_right [] h = h
  All-trim_right (c ∷ s) (hc, hs) = go (trim_right p s) (All-trim_right s hs) (Bool-cases (p c))
    where
      go :
          (r : Text)
          → All P r
          → (p c ≡ true) ⊎ (p c ≡ false)
          → All P (elim r [ [] ↦ if p c then [] else c ∷ [] | d ∷ t ↦ c ∷ d ∷ t ])
      go [] _ (inl e) = rw e tt
      go [] _ (inr e) = rw e (hc, tt)
      go (d ∷ r) hr _ = (hc, hr)

  All-trim_by : (s : Text) → All P s → All P (trim_by p s)
  unfolding trim_by
  All-trim_by s h = All-trim_right (trim_left p s) (All-trim_left s h)

All-keep : (p : ℕ → Bool) (s : Text) → All (λ c. p c ≡ true) (keep p s)
unfolding keep
All-keep p [] = tt
All-keep p (c ∷ s) = elim (Bool-cases (p c)) [
  | inl e ↦ rw e (e, All-keep p s)
  | inr e ↦ rw e (All-keep p s)
]

safe_alnum : (c : ℕ) → is_alnum c ≡ true → IsHeaderSafe c
safe_alnum c h = ground arith

safe_dot : (c : ℕ) → (c == b'.') ≡ true → IsHeaderSafe c
safe_dot c h = ground arith

safe_dash : (c : ℕ) → (c == b'-') ≡ true → IsHeaderSafe c
safe_dash c h = ground arith

domain_re-All : (st : LabelState) (s : Text) → domain_re st s ≡ true → All IsHeaderSafe s
unfolding domain_re
domain_re-All st [] h = tt
domain_re-All fresh (c ∷ s) h =
    let (a, m) = and_true (is_alnum c) _ h in (safe_alnum c a, domain_re-All inside s m)
domain_re-All inside (c ∷ s) h = elim (Bool-cases (c == b'.')) [
  | inl dot ↦ (safe_dot c dot, domain_re-All fresh s (rw dot at h))
  | inr no_dot ↦ elim (Bool-cases (c == b'-')) [
    | inl dash ↦ (safe_dash c dash, domain_re-All dashed s (rw (no_dot, dash) at h))
    | inr no_dash ↦
        let (a, m) = and_true (is_alnum c) _ (rw (no_dot, no_dash) at h) in
        (safe_alnum c a, domain_re-All inside s m)
  ]
]
domain_re-All dashed (c ∷ s) h = elim (Bool-cases (c == b'-')) [
  | inl dash ↦ (safe_dash c dash, domain_re-All dashed s (rw dash at h))
  | inr no_dash ↦
      let (a, m) = and_true (is_alnum c) _ (rw no_dash at h) in
      (safe_alnum c a, domain_re-All inside s m)
]

cut-append : (sep : ℕ) (a b : Text) → All (λ c. c ≢ sep) a → cut sep (a ++ sep ∷ b) ≡ some (a, b)
unfolding cut
cut-append sep [] b h = ground arith
cut-append sep (c ∷ a) b (hc, ha) = rw (cut-append sep a b ha) (ground arith)

IsLocal-ne_at : (s : Text) → All (λ c. is_local c ≡ true) s → All (λ c. c ≢ b'@') s
IsLocal-ne_at [] h = tt
IsLocal-ne_at (c ∷ s) (hc, hs) = (ground arith, IsLocal-ne_at s hs)

IsLocal-IsHeaderSafe : (s : Text) → All (λ c. is_local c ≡ true) s → All IsHeaderSafe s
IsLocal-IsHeaderSafe [] h = tt
IsLocal-IsHeaderSafe (c ∷ s) (hc, hs) = (ground arith, IsLocal-IsHeaderSafe s hs)

past_guards : (a b r : Bool) → (if a then false else if b then false else r) ≡ true → r ≡ true
past_guards a b r h = ground arith

module _ (std : Std) where
  normalize_local_part-All : (s : Text) → All (λ c. is_local c ≡ true) (normalize_local_part std s)
  unfolding normalize_local_part
  normalize_local_part-All s = All-trim_by _ _ _ (All-keep is_local (to_lower std (trim_space s)))

  -- an address that passed the tests has a clean domain behind its first at sign
  valid_parts-domain :
      (email local domain : Text)
      → valid_parts std email (some (local, domain)) ≡ true
      → domain_re fresh domain ≡ true
  unfolding valid_parts
  valid_parts-domain email local domain h = ground arith

  valid_parts-none : (email : Text) → valid_parts std email none ≡ false
  unfolding valid_parts
  valid_parts-none email = refl

  valid-parts :
      (email : Text)
      → valid_recipient_address std email ≡ true
      → valid_parts std email (cut b'@' email) ≡ true
  unfolding valid_recipient_address
  valid-parts email h =
      past_guards (is_empty email || ltb 320 (byte_length email))
        (contains_rune 13 email || contains_rune 10 email) _ h

  join_parts-All :
      (t : Text) (o : Option (Text × Text))
      → cut b'@' t ≡ o
      → valid_recipient_address std (join_parts std t o) ≡ true
      → All IsHeaderSafe (join_parts std t o)
  unfolding join_parts
  join_parts-All t none e h =
      let parts : valid_parts std t none ≡ true = rw e at (valid-parts t h) in
      cc (parts, valid_parts-none t)
  join_parts-All t (some (l, d)) e h =
      let local = normalize_local_part std l in
      let domain = normalize_domain std d in
      let split : cut b'@' (local ++ b'@' ∷ domain) ≡ some (local, domain) =
        cut-append b'@' local domain (IsLocal-ne_at local (normalize_local_part-All l)) in
      let clean = valid_parts-domain _ local domain (rw split at (valid-parts _ h)) in
      All-append _ local (b'@' ∷ domain) (IsLocal-IsHeaderSafe local (normalize_local_part-All l))
        (refl, domain_re-All fresh domain clean)

  valid_normalize_email-All :
      (i : Text)
      → valid_recipient_address std (normalize_email std i) ≡ true
      → All IsHeaderSafe (normalize_email std i)
  unfolding normalize_email
  valid_normalize_email-All i h = join_parts-All (to_lower std (trim_space i)) _ refl h

  dedupe_loop-All :
      (items out : List Text)
      → All (All IsHeaderSafe) out
      → All (All IsHeaderSafe) (dedupe_loop std items out)
  unfolding dedupe_loop
  dedupe_loop-All [] out h = h
  dedupe_loop-All (i ∷ items) out h =
      dedupe_loop-All items _ (kept (Bool-cases _) (Bool-cases (has e out)))
    where
      e : Text
      e = normalize_email std i

      kept :
          (valid_recipient_address std e ≡ true) ⊎ (valid_recipient_address std e ≡ false)
          → (has e out ≡ true) ⊎ (has e out ≡ false)
          → All
              (All IsHeaderSafe)
              (if not (valid_recipient_address std e) || has e out then out else out ++ e ∷ [])
      kept (inr bad) _ = rw bad h
      kept (inl ok) (inl seen) = rw (ok, seen) h
      kept (inl ok) (inr new) =
          rw (ok, new) (All-append _ out (e ∷ []) h (valid_normalize_email-All i ok, tt))

  -- Whatever the given recipients and whatever the address parser accepts, each recipient that is
  -- kept consists of lower-case letters, digits and the characters . _ % + - @ alone, so none
  -- holds a line break.
  pub dedupe_emails-All : (items : List Text) → All (All IsHeaderSafe) (dedupe_emails std items)
  unfolding dedupe_emails
  dedupe_emails-All items = dedupe_loop-All items [] tt
