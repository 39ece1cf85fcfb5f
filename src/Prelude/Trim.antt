-- ===== src/Prelude/Trim.antt =====
-- `strings.TrimSpace` on texts that have nothing to trim.
use Prim.Native.Nat.{ℕ}
use mathlib.Core.Path.{◌≡◌, refl}
use mathlib.Core.Logic.{inl, inr}
use mathlib.Core.Bool.{Bool, false}
use mathlib.Core.List.{[], ◌∷◌, ◌++◌}
use lan_qin_email.Prelude.Tests.{if◌then◌else◌, Bool-cases, if_keeps}
use lan_qin_email.Prelude.Text.{Text, trim_left, trim_right, trim_by, trim_space, is_space}

module _ (p : ℕ → Bool) where
  -- the first code point, if any, fails the test
  abbrev Kept : Text → Type 0
  Kept [] = Unit
  Kept (c ∷ s) = p c ≡ false

  trim_left-Kept : (s : Text) → Kept (trim_left p s)
  unfolding trim_left
  trim_left-Kept [] = tt
  trim_left-Kept (c ∷ s) = if_keeps Kept (p c) (λ _. trim_left-Kept s) (λ h. h)

  trim_left_fixed : (s : Text) → Kept s → trim_left p s ≡ s
  unfolding trim_left
  trim_left_fixed [] h = refl
  trim_left_fixed (c ∷ s) h = rw h refl

  -- the step of `trim_right`
  abbrev append_trimmed : ℕ → Text → Text
  append_trimmed c [] = if p c then [] else c ∷ []
  append_trimmed c (d ∷ r) = c ∷ d ∷ r

  trim_right-step : (c : ℕ) (s : Text) → trim_right p (c ∷ s) ≡ append_trimmed c (trim_right p s)
  unfolding trim_right
  trim_right-step c s = elim (trim_right p s) [ [] ↦ refl | d ∷ r ↦ refl ]

  append_trimmed-Kept : (c : ℕ) (s : Text) → p c ≡ false → Kept (append_trimmed c s)
  append_trimmed-Kept c [] h = rw h h
  append_trimmed-Kept c (d ∷ r) h = h

  trim_right-Kept : (s : Text) → Kept s → Kept (trim_right p s)
  trim_right-Kept [] h = unfold trim_right in tt
  trim_right-Kept (c ∷ s) h = rw (trim_right-step c s) (append_trimmed-Kept c (trim_right p s) h)

  append_trimmed_fixed :
      (c : ℕ) (s : Text)
      → trim_right p s ≡ s
      → trim_right p (append_trimmed c s) ≡ append_trimmed c s
  append_trimmed_fixed c [] h = elim (Bool-cases (p c)) [
    | inl gone ↦ rw gone h
    | inr kept ↦ rw (kept, trim_right-step c [], h, kept) refl
  ]
  append_trimmed_fixed c (d ∷ r) h = rw (trim_right-step c (d ∷ r), h) refl

  trim_right_fixed : (s : Text) → trim_right p (trim_right p s) ≡ trim_right p s
  trim_right_fixed [] = unfold trim_right in refl
  trim_right_fixed (c ∷ s) =
      rw (trim_right-step c s) (append_trimmed_fixed c (trim_right p s) (trim_right_fixed s))

  trim_by_fixed : (s : Text) → trim_by p (trim_by p s) ≡ trim_by p s
  unfolding trim_by
  trim_by_fixed s =
      rw
        (trim_left_fixed (trim_right p (trim_left p s))
          (trim_right-Kept (trim_left p s) (trim_left-Kept s)))
        (trim_right_fixed (trim_left p s))

  append_trimmed-append : (c d : ℕ) (s : Text) → append_trimmed c (s ++ d ∷ []) ≡ c ∷ (s ++ d ∷ [])
  append_trimmed-append c d [] = refl
  append_trimmed-append c d (e ∷ s) = refl

  -- a text whose last code point stays
  trim_right-last : (s : Text) (d : ℕ) → p d ≡ false → trim_right p (s ++ d ∷ []) ≡ s ++ d ∷ []
  trim_right-last [] d h = unfold trim_right in rw h refl
  trim_right-last (c ∷ s) d h =
      rw (trim_right-step c (s ++ d ∷ []), trim_right-last s d h) (append_trimmed-append c d s)

  trim_by-ends :
      (c d : ℕ) (s : Text)
      → p c ≡ false
      → p d ≡ false
      → trim_by p (c ∷ s ++ d ∷ []) ≡ c ∷ s ++ d ∷ []
  unfolding trim_by
  trim_by-ends c d s first last =
      rw (trim_left_fixed (c ∷ s ++ d ∷ []) first) (trim_right-last (c ∷ s) d last)

-- nothing is trimmed between two code points that are no spaces
pub trim_space-ends :
    (c d : ℕ) (s : Text)
    → is_space c ≡ false
    → is_space d ≡ false
    → trim_space (c ∷ s ++ d ∷ []) ≡ c ∷ s ++ d ∷ []
unfolding trim_space
trim_space-ends c d s first last = trim_by-ends is_space c d s first last

pub trim_space_fixed : (s : Text) → trim_space (trim_space s) ≡ trim_space s
unfolding trim_space
trim_space_fixed s = trim_by_fixed is_space s
