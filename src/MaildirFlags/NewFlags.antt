-- ===== src/MaildirFlags/NewFlags.antt =====
-- The flags that maildirPathWithFlags gives to a file.
use lan_qin_email.Prelude.{
  ℕ, ◌≡◌, refl, ◌∙◌, inl, inr, Bool, true, false, ◌&&◌, ◌||◌, [], ◌∷◌, ◌++◌, arith, if◌then◌else◌,
  ◌==◌, ==_iff, Bool-cases,
}
use lan_qin_email.Prelude.Text.{Text, codes, is_empty, contains_rune}
use lan_qin_email.MaildirFlags.{
  preserve_loop, preserve_maildir_flags, append_maildir_flag, new_flags,
}

pub contains_rune-cons :
    (m c : ℕ) (s : Text)
    → contains_rune m (c ∷ s) ≡ false
    → ((c == m) ≡ false) × (contains_rune m s ≡ false)
unfolding contains_rune
contains_rune-cons m c s h = (ground arith, ground arith)

contains_rune-append :
    (m : ℕ) (s t : Text) → contains_rune m (s ++ t) ≡ (contains_rune m s || contains_rune m t)
unfolding contains_rune
contains_rune-append m [] t = refl
contains_rune-append m (c ∷ s) t = ground (arith, contains_rune-append m s t)

contains_rune-one : (m c : ℕ) → contains_rune m (c ∷ []) ≡ (c == m)
unfolding contains_rune
contains_rune-one m c = ground arith

append_flag-present :
    (flag : ℕ) (flags : Text) → contains_rune flag (append_maildir_flag flags flag) ≡ true
unfolding append_maildir_flag
append_flag-present flag flags = elim (Bool-cases (contains_rune flag flags)) [
  | inl there ↦ rw there there
  | inr missing ↦ rw missing (
      contains_rune-append flag flags (flag ∷ [])
      ∙ ground (arith, missing, contains_rune-one flag flag, ==_iff flag flag))
]

contains_rune-append_flag :
    (m flag : ℕ) (flags : Text)
    → contains_rune m (append_maildir_flag flags flag) ≡ (contains_rune m flags || flag == m)
contains_rune-append_flag m flag flags = elim (Bool-cases (flag == m)) [
  | inl same ↦
      let e : flag ≡ m = (==_iff flag m).0 same in
      rw same (rw (← e) (append_flag-present flag flags ∙ or_true (contains_rune flag flags)))
  | inr other ↦
      unfold append_maildir_flag in
      ground (arith, contains_rune-append m flags (flag ∷ []), contains_rune-one m flag, other)
]
  where
    or_true : (b : Bool) → true ≡ (b || true)
    or_true b = ground arith

pushed :
    (m c : ℕ) (skip : Bool) (out : Text)
    → contains_rune m out ≡ false
    → (skip ≡ false → (c == m) ≡ false)
    → contains_rune m (if skip then out else out ++ c ∷ []) ≡ false
pushed m c true out h other = h
pushed m c false out h other =
    contains_rune-append m out (c ∷ []) ∙ ground (arith, h, contains_rune-one m c, other refl)

-- no flag of a managed list is preserved, and only given flags are
preserve_loop-managed :
    (m : ℕ) (managed s out : Text)
    → contains_rune m managed ≡ true
    → contains_rune m out ≡ false
    → contains_rune m (preserve_loop managed s out) ≡ false
unfolding preserve_loop
preserve_loop-managed m managed [] out h k = k
preserve_loop-managed m managed (c ∷ s) out h k =
    preserve_loop-managed m managed s _ h
      (pushed m c (contains_rune c managed || contains_rune c out) out k (kept c out))
  where
    kept :
        (c : ℕ) (out : Text)
        → (contains_rune c managed || contains_rune c out) ≡ false
        → (c == m) ≡ false
    kept c out none_of = elim (Bool-cases (c == m)) [
      | inr other ↦ other
      | inl same ↦
          let e : c ≡ m = (==_iff c m).0 same in
          let managed_c : contains_rune c managed ≡ true = rw e h in
          ground (arith, managed_c, none_of)
    ]

preserve_loop-given :
    (m : ℕ) (managed s out : Text)
    → contains_rune m s ≡ false
    → contains_rune m out ≡ false
    → contains_rune m (preserve_loop managed s out) ≡ false
unfolding preserve_loop
preserve_loop-given m managed [] out h k = k
preserve_loop-given m managed (c ∷ s) out h k =
    let (other, rest) = contains_rune-cons m c s h in
    preserve_loop-given m managed s _ rest
      (pushed m c (contains_rune c managed || contains_rune c out) out k (λ _. other))

contains_rune-new_flags :
    (m : ℕ) (flags : Text) (read starred : Bool)
    → contains_rune m (new_flags flags read starred) ≡ (
        contains_rune m (preserve_loop (codes "SF") flags [])
        || (read && b'S' == m)
        || (starred && b'F' == m))
unfolding new_flags preserve_maildir_flags
contains_rune-new_flags m flags false false = ground arith
contains_rune-new_flags m flags true false =
    ground (arith, contains_rune-append_flag m b'S' (preserve_loop (codes "SF") flags []))
contains_rune-new_flags m flags false true =
    ground (arith, contains_rune-append_flag m b'F' (preserve_loop (codes "SF") flags []))
contains_rune-new_flags m flags true true =
    let kept = preserve_loop (codes "SF") flags [] in
    ground (
      arith,
      contains_rune-append_flag m b'F' (append_maildir_flag kept b'S'),
      contains_rune-append_flag m b'S' kept,
    )

pub new_flags-colon :
    (flags : Text) (read starred : Bool)
    → contains_rune b':' flags ≡ false
    → contains_rune b':' (new_flags flags read starred) ≡ false
new_flags-colon flags read starred h =
    contains_rune-new_flags b':' flags read starred
    ∙ ground
        (arith, preserve_loop-given b':' (codes "SF") flags [] h (unfold contains_rune in refl))

pub new_flags-seen :
    (flags : Text) (read starred : Bool) → contains_rune b'S' (new_flags flags read starred) ≡ read
new_flags-seen flags read starred =
    contains_rune-new_flags b'S' flags read starred
    ∙ ground (
      arith,
      preserve_loop-managed b'S' (codes "SF") flags [] (unfold contains_rune in refl)
          (unfold contains_rune in refl),
    )

pub new_flags-flagged :
    (flags : Text) (read starred : Bool)
    → contains_rune b'F' (new_flags flags read starred) ≡ starred
new_flags-flagged flags read starred =
    contains_rune-new_flags b'F' flags read starred
    ∙ ground (
      arith,
      preserve_loop-managed b'F' (codes "SF") flags [] (unfold contains_rune in refl)
          (unfold contains_rune in refl),
    )

-- a text that holds a code point is not empty
holds-is_empty : (m : ℕ) (s : Text) → contains_rune m s ≡ true → is_empty s ≡ false
holds-is_empty m [] h = absurd (let k : Path Bool false true = unfold contains_rune in h in cc)
holds-is_empty m (c ∷ s) h = refl

pub new_flags-is_empty :
    (flags : Text) (read starred : Bool)
    → (read || starred) ≡ true
    → is_empty (new_flags flags read starred) ≡ false
new_flags-is_empty flags true starred h =
    holds-is_empty b'S' (new_flags flags true starred) (new_flags-seen flags true starred)
new_flags-is_empty flags false starred h =
    holds-is_empty b'F' (new_flags flags false starred) (new_flags-flagged flags false starred ∙ h)
