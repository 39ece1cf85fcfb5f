-- ===== src/Instant.antt =====
-- How instants are stored: as texts in the format RFC3339Nano, which `time.Format` writes in UTC, and
-- which the database compares as texts. Up to the second such a text has one width, and its order is
-- the order of time; the nanoseconds behind it are written without their trailing zeros.
use lan_qin_email.Prelude.{
  ℕ, suc, zero, ◌+◌, ◌*◌, ◌/◌, ◌%◌, ◌<◌, ◌≡◌, ◌≢◌, ◌⊎◌, ◌↔◌, inl, inr, refl, Bool, true, false,
  ◌&&◌, ◌||◌, [], ◌∷◌, ◌++◌, ltb, ◌==◌, if◌then◌else◌, arith, Bool-cases, ltb→lt,
}
use lan_qin_email.Prelude.Text.{Text}

-- the order of texts by their characters
unfoldable pub text_lt : Text → Text → Bool
text_lt [] [] = false
text_lt [] (y ∷ ys) = true
text_lt (x ∷ xs) [] = false
text_lt (x ∷ xs) (y ∷ ys) = ltb x y || (x == y && text_lt xs ys)

abbrev pub nanoseconds : ℕ
nanoseconds = 1_000_000_000

-- the last decimal digits of a number
unfoldable pub digits : ℕ → ℕ → Text
digits zero n = []
digits (suc k) n = digits k (n / 10) ++ (b'0' + n % 10) ∷ []

abbrev pub unless_zero : ℕ → Text → Text
unless_zero c [] = if c == b'0' then [] else c ∷ []
unless_zero c (d ∷ s) = c ∷ d ∷ s

unfoldable pub trim_zeros : Text → Text
trim_zeros [] = []
trim_zeros (c ∷ s) = unless_zero c (trim_zeros s)

abbrev pub pointed : Text → Text
pointed [] = []
pointed (c ∷ s) = b'.' ∷ c ∷ s

-- what stands behind the seconds
unfoldable pub fraction_text : ℕ → Text
fraction_text n = pointed (trim_zeros (digits 9 n)) ++ b'Z' ∷ []

-- the text of one instant is before the text of the other
unfoldable pub stored_before : ℕ → ℕ → Bool
stored_before a b =
    ltb (a / nanoseconds) (b / nanoseconds)
    || (a / nanoseconds == b / nanoseconds
        && text_lt (fraction_text (a % nanoseconds)) (fraction_text (b % nanoseconds)))

-- an earlier second, or the same one and a fraction whose text is before the other's
abbrev pub IsStoredBefore : ℕ → ℕ → Type 0
IsStoredBefore a b =
    (a / nanoseconds < b / nanoseconds)
    ⊎ ((a / nanoseconds ≡ b / nanoseconds)
        × (text_lt (fraction_text (a % nanoseconds)) (fraction_text (b % nanoseconds)) ≡ true))

pub stored_before_iff : (a b : ℕ) → (stored_before a b ≡ true) ↔ IsStoredBefore a b
unfolding stored_before
stored_before_iff a b = (
  λ h. elim (Bool-cases (ltb (a / nanoseconds) (b / nanoseconds))) [
    | inl less ↦ inl (ltb→lt (a / nanoseconds) (b / nanoseconds) less)
    | inr not_less ↦ inr (ground arith, ground arith)
  ],
  λ h. elim h [ inl less ↦ ground arith | inr (same, behind) ↦ ground arith ],
)

-- In different seconds, the order of the texts is the order of time.
pub stored_before-ltb : (a b : ℕ) → a / nanoseconds ≢ b / nanoseconds → stored_before a b ≡ ltb a b
unfolding stored_before
stored_before-ltb a b apart = ground arith

one_nanosecond : text_lt (fraction_text 1) (fraction_text 0) ≡ true
unfolding text_lt fraction_text trim_zeros digits
one_nanosecond = refl

-- A whole second comes behind every other instant of its second, whose texts have a point.
pub whole_second_last : (s : ℕ) → stored_before (s * nanoseconds + 1) (s * nanoseconds) ≡ true
unfolding stored_before
whole_second_last s =
    let e : (s * nanoseconds + 1) / nanoseconds ≡ s = omega arith in
    let f : (s * nanoseconds) / nanoseconds ≡ s = omega arith in
    let g : (s * nanoseconds + 1) % nanoseconds ≡ 1 = omega arith in
    let h : (s * nanoseconds) % nanoseconds ≡ 0 = omega arith in
    rw (e, f, g, h) (ground (arith, one_nanosecond))
